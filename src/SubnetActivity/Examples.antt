-- ===== src/SubnetActivity/Examples.antt =====
-- A list of entries as the hash table, and runs of the callbacks of one small document.
use honas.Common.{
  same_bytes, ℕ, ◌≡◌, refl, arith, Bool, true, List, [], ◌∷◌, Option, none, some, if◌then◌else◌,
  codes, pos, inl, inr, Bool-cases,
}
use honas.Inet.{addr4, addr6}
use honas.SubnetActivity.{
  Prefix, HashTable, SubnetActivity, SubnetActivityError, same_prefix, same_address,
}
use honas.SubnetActivity.Parser.{
  SpecContext, Event, integer, string, map_key, start_map, end_map, start_array, end_array, parsed,
  subnet_activity_initialize,
}
use honas.SubnetActivity.Parser.Invariant.{IsActivity}
use honas.SubnetActivity.Parser.Runs.{subnet_activity_initialize_returns}
use honas.SubnetActivity.Masks.Network.{network, low_bits}
use honas.SubnetActivity.Match.Longest.{IsAnswer, match_prefix-IsLongest4, match_prefix-IsLongest6}

abbrev Entries : Type 0
Entries = List (Prefix × ℕ)

abbrev find_in : Entries → Prefix → Option ℕ
find_in [] q = none
find_in ((p, entity) ∷ entries) q = if same_prefix p q then some entity else find_in entries q

abbrev entries_table : HashTable Entries
entries_table = record {
  empty = [];
  add = λ p entity entries. (p, entity) ∷ entries;
  find = find_in;
  find-empty = λ p. refl;
  find-add = λ p q entity entries. refl;
}

abbrev never_full : SpecContext Entries → Bool
never_full ctx = true

abbrev no_ipv6 : List ℕ → Option (List ℕ)
no_ipv6 text = none

-- The one text that this `inet_pton` reads.
abbrev only_10 : List ℕ → Option (List ℕ)
only_10 text = if same_bytes text (codes "10.0.0.0") then some (10 ∷ 0 ∷ 0 ∷ 0 ∷ []) else none

-- {"subnet_activity": [{"entity": "foo", "prefixes": [{"10.0.0.0": 8}]}]}
abbrev document : List Event
document =
    start_map
    ∷ map_key (codes "subnet_activity")
    ∷ start_array
    ∷ start_map
    ∷ map_key (codes "entity")
    ∷ string (codes "foo")
    ∷ map_key (codes "prefixes")
    ∷ start_array
    ∷ start_map
    ∷ map_key (codes "10.0.0.0")
    ∷ integer (pos 8)
    ∷ end_map
    ∷ end_array
    ∷ end_map
    ∷ end_array
    ∷ end_map
    ∷ []

subnet_activity_initialize_returns_example :
    (code : SubnetActivityError) × (m : SubnetActivity Entries) × (subnet_activity_initialize
        entries_table never_full only_10 no_ipv6
        (parsed document)
      ≡ some (code, m))
    × IsActivity entries_table never_full m
subnet_activity_initialize_returns_example =
    subnet_activity_initialize_returns entries_table never_full only_10 no_ipv6 document
      (ground arith) (omega arith)

abbrev ten : Prefix
ten = record { address = addr4 (10 ∷ 0 ∷ 0 ∷ 0 ∷ []); length = 8 }

abbrev ten_only : SubnetActivity Entries
ten_only = record {
  entities = codes "foo" ∷ [];
  registered_entities = 1;
  prefixes = (ten, 0) ∷ [];
  registered_prefixes = 1;
  shortest_ipv4_prefix = 8;
  longest_ipv4_prefix = 8;
  shortest_ipv6_prefix = 128;
  longest_ipv6_prefix = 0;
}

ten_only-IsActivity : IsActivity entries_table never_full ten_only
unfolding same_prefix same_address
ten_only-IsActivity = record {
  counted = refl;
  longest_ipv4 = omega arith;
  longest_ipv6 = omega arith;
  ipv4 = λ bytes n entity e.
      elim (Bool-cases (same_prefix ten (record { address = addr4 bytes; length = n }))) [
        | inl same ↦ ground (arith, same, e)
        | inr other ↦ absurd (ground (arith, other, e))
      ];
  ipv6 = λ bytes n entity e. absurd (ground (arith, e));
}

match_prefix-IsLongest4_example :
    IsAnswer entries_table
      (λ n. record { address = addr4 (network n (10 ∷ 1 ∷ 2 ∷ 3 ∷ [])); length = n })
      (addr4 (10 ∷ 1 ∷ 2 ∷ 3 ∷ []))
      ten_only
      none
match_prefix-IsLongest4_example =
    match_prefix-IsLongest4 entries_table never_full ten_only ten_only-IsActivity
      (10 ∷ 1 ∷ 2 ∷ 3 ∷ []) none (ground arith) refl (omega arith)

abbrev an_ipv6_address : List ℕ
an_ipv6_address = 32 ∷ 1 ∷ 13 ∷ 184 ∷ 0 ∷ 0 ∷ 0 ∷ 0 ∷ 0 ∷ 0 ∷ 0 ∷ 0 ∷ 0 ∷ 0 ∷ 0 ∷ 1 ∷ []

match_prefix-IsLongest6_example :
    IsAnswer entries_table
      (λ n. record { address = addr6 (low_bits n an_ipv6_address); length = n })
      (addr6 an_ipv6_address)
      ten_only
      none
match_prefix-IsLongest6_example =
    match_prefix-IsLongest6 entries_table never_full ten_only ten_only-IsActivity an_ipv6_address
      none refl (omega arith)
