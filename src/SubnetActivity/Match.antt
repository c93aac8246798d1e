-- ===== src/SubnetActivity/Match.antt =====
-- `subnet_activity_match_prefix` and `subnet_activity_destroy`.
pub mod Keys
pub mod Longest
use honas.Common.{
  ℕ, zero, suc, ◌+◌, ◌-◌, ◌≡◌, Bool, true, false, List, [], ◌∷◌, Option, none, some, ltb, leb, ◌==◌,
  if◌then◌else◌, bit_and, get_elem?, require, ◌>>=◌, ◌>>◌,
}
use honas.Inet.{InAddr46, addr4, addr6, unsupported}
use honas.ByteSlice.Words.{load, store}
use honas.SubnetActivity.{
  Prefix, HashTable, SubnetActivity, SubnetActivityError, sa_ok, sa_invalid_argument,
}
use honas.SubnetActivity.Masks.{all_ipv4_subnet_masks, all_ipv6_subnet_masks}

-- An entry of the hash table: the key and the associated entity.
pub record PrefixMatch : Type 0 where
  pub prefix : Prefix
  pub associated_entity : ℕ

-- The 16 rounds of `&`.
pub and_bytes : List ℕ → List ℕ → List ℕ
and_bytes [] masks = []
and_bytes (b ∷ bytes) [] = []
and_bytes (b ∷ bytes) (m ∷ masks) = bit_and b m ∷ and_bytes bytes masks

-- The key that is looked up for length `i`; `none` is an access outside of the table of masks.
pub ipv4_key : List ℕ → (i : ℕ) → Option Prefix
ipv4_key bytes i = do
  mask ← get_elem? all_ipv4_subnet_masks i
  some (record { address = addr4 (store 4 (bit_and (load bytes) mask)); length = i })

pub ipv6_key : List ℕ → (i : ℕ) → Option Prefix
unfolding and_bytes
ipv6_key bytes i = do
  require (ltb 0 i)
  mask ← get_elem? all_ipv6_subnet_masks (i - 1)
  some (record { address = addr6 (and_bytes bytes mask); length = i })

-- `break` at an entry, else the rounds that are left.
pub found_or :
    Option PrefixMatch → (rest : Option (Option PrefixMatch)) → Option (Option PrefixMatch)
found_or none rest = rest
found_or (some entry) rest = some (some entry)

module _ {Table : Type 0} (table : HashTable Table) where
  pub find_entry : Table → Prefix → Option PrefixMatch
  find_entry prefixes p = do
    entity ← table.find prefixes p
    some (record { prefix = p; associated_entity = entity })

  -- The loop over the lengths, from `i` down. Below 0 it goes on at the largest unsigned number,
  -- outside of the tables.
  pub match_down :
      (key : ℕ → Option Prefix) (prefixes : Table) (shortest i : ℕ) → Option (Option PrefixMatch)
  unfolding find_entry found_or
  match_down key prefixes shortest zero =
      if leb shortest 0 then (do p ← key 0; found_or (find_entry prefixes p) none) else some none
  match_down key prefixes shortest (suc i) =
      let rest = match_down key prefixes shortest i in
      if leb shortest (suc i)
      then (do p ← key (suc i); found_or (find_entry prefixes p) rest)
      else some none

  -- Pointers that may be null are options; the result is the error and `*pp_result`, which an
  -- invalid argument leaves as it was.
  pub subnet_activity_match_prefix :
      Option InAddr46
      → Option (SubnetActivity Table)
      → (result : Option PrefixMatch) → Option (SubnetActivityError × Option PrefixMatch)
  unfolding match_down ipv4_key ipv6_key
  subnet_activity_match_prefix (some (addr4 bytes)) (some m) result = do
    found ← match_down (ipv4_key bytes) m.prefixes m.shortest_ipv4_prefix m.longest_ipv4_prefix
    some (sa_ok, found)
  subnet_activity_match_prefix (some (addr6 bytes)) (some m) result = do
    found ← match_down (ipv6_key bytes) m.prefixes m.shortest_ipv6_prefix m.longest_ipv6_prefix
    some (sa_ok, found)
  subnet_activity_match_prefix _ _ result = some (sa_invalid_argument, result)

  pub subnet_activity_destroy :
      Option (SubnetActivity Table) → SubnetActivityError × Option (SubnetActivity Table)
  subnet_activity_destroy none = (sa_invalid_argument, none)
  subnet_activity_destroy (some m) =
      let destroyed = record m {
        entities = [];
        registered_entities = 0;
        prefixes = table.empty;
        registered_prefixes = 0;
        shortest_ipv4_prefix = 0;
        longest_ipv4_prefix = 0;
        shortest_ipv6_prefix = 0;
        longest_ipv6_prefix = 0;
      } in
      (sa_ok, some (if ltb 0 m.registered_entities then destroyed else m))
