-- ===== src/SubnetActivity/Match/Longest.antt =====
-- `subnet_activity_match_prefix` against a description of the longest match.
use native.Mathlib.Decide.{ℕ_discrete}
use honas.Common.{
  ℕ, zero, suc, ◌<◌, ◌≤◌, ◌≡◌, refl, ap, ◌∙◌, arith, Bool, true, false, List, Option, none, some,
  inl, inr, Bool-cases, Option-cases, leb, leb→le, length,
}
use honas.ByteSlice.Words.{IsBytes}
use honas.Inet.{InAddr46, addr4, addr6}
use honas.SubnetActivity.{Prefix, HashTable, SubnetActivity, sa_ok}
use honas.SubnetActivity.Masks.Network.{network, low_bits}
use honas.SubnetActivity.Match.{
  PrefixMatch, ipv4_key, ipv6_key, find_entry, found_or, match_down, subnet_activity_match_prefix,
}
use honas.SubnetActivity.Match.Keys.{ipv4_key_lem, ipv6_key_lem}
use honas.SubnetActivity.Parser.{SpecContext}
use honas.SubnetActivity.Parser.Invariant.{IsActivity}

module _ {Table : Type 0} (table : HashTable Table) where
  -- `key n` is the prefix of length `n` that an address is in: the answer is an entry of the
  -- greatest `n` that has one, of those that `InRange` tells, or nothing where none has one.
  abbrev pub IsLongest :
      (key : ℕ → Prefix) (InRange : ℕ → Type 0) → Table → Option PrefixMatch → Type 0
  IsLongest key InRange prefixes none = (n : ℕ) → InRange n → table.find prefixes (key n) ≡ none
  IsLongest key InRange prefixes (some entry) =
      (n : ℕ) × InRange n
      × (entry.prefix ≡ key n)
      × (table.find prefixes (key n) ≡ some entry.associated_entity)
      × ((k : ℕ) → n < k → InRange k → table.find prefixes (key k) ≡ none)

  -- A length above that has no entry.
  above-IsLongest :
      (key : ℕ → Prefix) (prefixes : Table) (shortest i : ℕ)
      → table.find prefixes (key (suc i)) ≡ none
      → (r : Option PrefixMatch) → IsLongest key (λ n. (shortest ≤ n) × (n ≤ i)) prefixes r
      → IsLongest key (λ n. (shortest ≤ n) × (n ≤ suc i)) prefixes r
  above-IsLongest key prefixes shortest i missing none h = λ n in_range.
      elim (ℕ_discrete n (suc i)) [
        | yes last ↦ ap (λ k. table.find prefixes (key k)) last ∙ missing
        | no other ↦ h n (omega (arith, in_range, other))
      ]
  above-IsLongest key prefixes shortest i missing (some entry) (n, in_range, same, found, longer) =
      (
        n,
        omega (arith, in_range),
        same,
        found,
        λ k above in_range'. elim (ℕ_discrete k (suc i)) [
          | yes last ↦ ap (λ t. table.find prefixes (key t)) last ∙ missing
          | no other ↦ longer k above (omega (arith, in_range', other))
        ],
      )

  match_down_hit :
      (partial : ℕ → Option Prefix) (p : Prefix) (prefixes : Table) (shortest i entity : ℕ)
      → leb shortest (suc i) ≡ true
      → partial (suc i) ≡ some p
      → table.find prefixes p ≡ some entity
      → match_down table partial prefixes shortest (suc i)
        ≡ some (some (record { prefix = p; associated_entity = entity }))
  unfolding match_down find_entry found_or
  match_down_hit partial p prefixes shortest i entity inside there found =
      rw (inside, there, found) refl

  match_down_miss :
      (partial : ℕ → Option Prefix) (p : Prefix) (prefixes : Table) (shortest i : ℕ)
      → leb shortest (suc i) ≡ true
      → partial (suc i) ≡ some p
      → table.find prefixes p ≡ none
      → match_down table partial prefixes shortest (suc i)
        ≡ match_down table partial prefixes shortest i
  unfolding match_down find_entry found_or
  match_down_miss partial p prefixes shortest i inside there missing =
      rw (inside, there, missing) refl

  match_down-IsLongest :
      (partial : ℕ → Option Prefix) (key : ℕ → Prefix) (prefixes : Table) (shortest i : ℕ)
      → ((n : ℕ) → shortest ≤ n → n ≤ i → partial n ≡ some (key n))
      → 0 < shortest
      → (r : Option PrefixMatch) × (match_down table partial prefixes shortest i ≡ some r)
        × IsLongest key (λ n. (shortest ≤ n) × (n ≤ i)) prefixes r
  unfolding match_down find_entry
  match_down-IsLongest partial key prefixes shortest zero keys positive =
      let above : leb shortest 0 ≡ false = ground arith in
      (none, rw above refl, λ n in_range. absurd (omega (arith, in_range)))
  match_down-IsLongest partial key prefixes shortest (suc i) keys positive =
      elim (Bool-cases (leb shortest (suc i))) [
        | inr above ↦ (none, rw above refl, λ n in_range. absurd (ground (arith, in_range, above)))
        | inl inside ↦
            let there = keys (suc i) (leb→le shortest (suc i) inside) (omega arith) in
            elim (Option-cases (table.find prefixes (key (suc i)))) [
              | inr (entity, found) ↦
                  let answer : PrefixMatch = record {
                    prefix = key (suc i);
                    associated_entity = entity;
                  } in
                  let hit =
                    match_down_hit partial (key (suc i)) prefixes shortest i entity inside there
                      found in
                  let low = leb→le shortest (suc i) inside in
                  (
                    some answer,
                    hit,
                    (
                      suc i,
                      (low, omega arith),
                      refl,
                      found,
                      λ k longer in_range. absurd (omega (arith, in_range)),
                    ),
                  )
              | inl missing ↦
                  let (r, returned, longest) =
                    match_down-IsLongest partial key prefixes shortest i
                      (λ n low high. keys n low (omega arith)) positive in
                  (
                    r,
                    match_down_miss partial (key (suc i)) prefixes shortest i inside there missing
                        ∙ returned,
                    above-IsLongest key prefixes shortest i missing r longest,
                  )
            ]
      ]

  -- No length is longer than those that the loop goes through, where the bounds hold.
  bounded-IsLongest :
      (key : ℕ → Prefix) (prefixes : Table) (shortest longest : ℕ)
      → ((n entity : ℕ)
          → table.find prefixes (key n) ≡ some entity
          → (shortest ≤ n) × (n ≤ longest))
      → (r : Option PrefixMatch) → IsLongest key (λ n. (shortest ≤ n) × (n ≤ longest)) prefixes r
      → IsLongest key (λ n. Unit {0}) prefixes r
  bounded-IsLongest key prefixes shortest longest bounds none h = λ n u.
      elim (Option-cases (table.find prefixes (key n))) [
        | inl missing ↦ missing
        | inr (entity, found) ↦ h n (bounds n entity found)
      ]
  bounded-IsLongest key prefixes shortest longest bounds (some entry)
        (n, in_range, same, found, longer) =
      (
        n,
        tt,
        same,
        found,
        λ k above u. elim (Option-cases (table.find prefixes (key k))) [
          | inl missing ↦ missing
          | inr (entity, there) ↦ longer k above (bounds k entity there)
        ],
      )

  -- The answer for an address whose prefix of length `n` is `key n`.
  abbrev pub IsAnswer :
      (key : ℕ → Prefix) → InAddr46 → SubnetActivity Table → Option PrefixMatch → Type 0
  IsAnswer key addr m result =
      (r : Option PrefixMatch) × (subnet_activity_match_prefix table (some addr) (some m) result
        ≡ some (sa_ok, r))
      × IsLongest key (λ n. Unit {0}) m.prefixes r

  module _ (alloc : SpecContext Table → Bool) (m : SubnetActivity Table)
      (h : IsActivity table alloc m) (bytes : List ℕ) (result : Option PrefixMatch) where
    -- Where the bounds of the lengths hold and no prefix of length 0 is registered, for an IPv4
    -- address of four bytes: the match returns SA_OK, with an entry for the greatest length for
    -- which the network of the address is in the hash table, or with nothing where it is there for
    -- none.
    pub match_prefix-IsLongest4 :
        IsBytes bytes
        → length bytes ≡ 4
        → 0 < m.shortest_ipv4_prefix
        → IsAnswer
            (λ n. record { address = addr4 (network n bytes); length = n })
            (addr4 bytes)
            m
            result
    unfolding subnet_activity_match_prefix
    match_prefix-IsLongest4 small four positive =
        let key : ℕ → Prefix = λ n. record { address = addr4 (network n bytes); length = n } in
        let (r, returned, longest) =
          match_down-IsLongest (ipv4_key bytes) key m.prefixes m.shortest_ipv4_prefix
            m.longest_ipv4_prefix
            (λ n low high. ipv4_key_lem bytes n small four (omega (arith, h.longest_ipv4)))
            positive in
        let bounds : (n entity : ℕ)
            → table.find m.prefixes (key n) ≡ some entity
            → (m.shortest_ipv4_prefix ≤ n) × (n ≤ m.longest_ipv4_prefix) =
          λ n entity found. let b = h.ipv4 (network n bytes) n entity found in (b.0, b.1) in
        (
          r,
          rw returned refl,
          bounded-IsLongest key m.prefixes m.shortest_ipv4_prefix m.longest_ipv4_prefix bounds r
              longest,
        )

    -- Where the bounds of the lengths hold and no prefix of length 0 is registered, for an IPv6
    -- address of 16 bytes: the match returns SA_OK, with an entry for the greatest length for which
    -- the address, cut to the low bits of the last byte, is in the hash table, or with nothing
    -- where it is there for none.
    pub match_prefix-IsLongest6 :
        length bytes ≡ 16
        → 0 < m.shortest_ipv6_prefix
        → IsAnswer
            (λ n. record { address = addr6 (low_bits n bytes); length = n })
            (addr6 bytes)
            m
            result
    unfolding subnet_activity_match_prefix
    match_prefix-IsLongest6 sixteen positive =
        let key : ℕ → Prefix = λ n. record { address = addr6 (low_bits n bytes); length = n } in
        let (r, returned, longest) =
          match_down-IsLongest (ipv6_key bytes) key m.prefixes m.shortest_ipv6_prefix
            m.longest_ipv6_prefix
            (λ n low high.
              ipv6_key_lem bytes n sixteen (omega arith) (omega (arith, h.longest_ipv6)))
            positive in
        let bounds : (n entity : ℕ)
            → table.find m.prefixes (key n) ≡ some entity
            → (m.shortest_ipv6_prefix ≤ n) × (n ≤ m.longest_ipv6_prefix) =
          λ n entity found. let b = h.ipv6 (low_bits n bytes) n entity found in (b.0, b.1) in
        (
          r,
          rw returned refl,
          bounded-IsLongest key m.prefixes m.shortest_ipv6_prefix m.longest_ipv6_prefix bounds r
              longest,
        )
