-- ===== src/SubnetActivity/Parser/Invariant.antt =====
-- What holds of the context after every sequence of callbacks: the bounds hold for every prefix in
-- the hash table, and each belongs to an entity that is registered.
use mathlib.Core.Path.{subst}
use honas.Common.{
  ℕ, ◌<◌, ◌≤◌, ◌≡◌, refl, sym, arith, Bool, true, false, List, some, inl, inr, ◌⊎◌, Bool-cases,
  Option-cases, length, ℤ, pos, negsuc,
}
use honas.Inet.{InAddr46, addr4, addr6, unsupported}
use honas.SubnetActivity.{
  Prefix, HashTable, SubnetActivity, SubnetActivityError, sa_ok, sa_alloc_failed, same_prefix,
  same_address,
}
use honas.SubnetActivity.Parser.{
  SpecState, init, subnet_activity_spec, subnet_activity_spec_expect_mapping_array,
  subnet_mapping_array, subnet_mapping, subnet_mapping_expect_entity,
  subnet_mapping_expect_prefixes_array, prefix_mapping_array, prefix_mapping,
  prefix_mapping_expect_prefix, prefix_mapping_expect_length, SpecContext, prefix_length,
  widen_bounds, add_prefix_hh, count_prefix,
}

-- The states inside of a subnet, where there is a current entity.
abbrev pub has_entity : SpecState → Bool
has_entity init = false
has_entity subnet_activity_spec = false
has_entity subnet_activity_spec_expect_mapping_array = false
has_entity subnet_mapping_array = false
has_entity subnet_mapping = true
has_entity subnet_mapping_expect_entity = true
has_entity subnet_mapping_expect_prefixes_array = true
has_entity prefix_mapping_array = true
has_entity prefix_mapping = true
has_entity prefix_mapping_expect_prefix = true
has_entity prefix_mapping_expect_length = true

module _ {Table : Type 0} (table : HashTable Table) (alloc : SpecContext Table → Bool) where
  -- `n` is between two bounds, and the entity is one of those that are registered.
  abbrev pub IsBounded : (shortest longest registered n entity : ℕ) → Type 0
  IsBounded shortest longest registered n entity =
      (shortest ≤ n) × (n ≤ longest) × (entity < registered)

  pub record IsActivity (m : SubnetActivity Table) : Type 0 where
    pub counted : length m.entities ≡ m.registered_entities
    pub longest_ipv4 : m.longest_ipv4_prefix ≤ 32
    pub longest_ipv6 : m.longest_ipv6_prefix ≤ 128
    pub ipv4 :
        (bytes : List ℕ) (n entity : ℕ)
        → table.find m.prefixes (record { address = addr4 bytes; length = n }) ≡ some entity
        → IsBounded m.shortest_ipv4_prefix m.longest_ipv4_prefix m.registered_entities n entity
    pub ipv6 :
        (bytes : List ℕ) (n entity : ℕ)
        → table.find m.prefixes (record { address = addr6 bytes; length = n }) ≡ some entity
        → IsBounded m.shortest_ipv6_prefix m.longest_ipv6_prefix m.registered_entities n entity

  pub record Inv (ctx : SpecContext Table) : Type 0 where
    pub activity : IsActivity ctx.subnet_metadata
    pub entity :
        has_entity ctx.state ≡ true → ctx.current_entity < ctx.subnet_metadata.registered_entities

  -- A prefix that is added, against one that is found.
  found-add :
      (p q : Prefix) (entity found : ℕ) (prefixes : Table)
      → table.find (table.add p entity prefixes) q ≡ some found
      → ((p.length ≡ q.length) × (same_address p.address q.address ≡ true) × (entity ≡ found))
        ⊎ (table.find prefixes q ≡ some found)
  unfolding same_prefix
  found-add p q entity found prefixes e = elim (Bool-cases (same_prefix p q)) [
    | inl same ↦
        let both : (p.length ≡ q.length) × (same_address p.address q.address ≡ true) =
          ground (arith, same) in
        let e' : some entity ≡ some found = rw (table.find-add p q entity prefixes, same) at e in
        inl (both.0, both.1, cc e')
    | inr other ↦ inr (rw (table.find-add p q entity prefixes, other) at e)
  ]

  -- What `count_prefix` does with a new prefix: the old ones are in the wider bounds, and so is it.
  count_prefix-IsActivity :
      (m : SubnetActivity Table) (prefixes : Table) (addr : InAddr46) (plen entity : ℕ)
      → IsActivity m
      → entity < m.registered_entities
      → prefix_length addr (pos plen) ≡ some plen
      → ((q : Prefix) (found : ℕ)
          → table.find prefixes q ≡ some found
          → ((plen ≡ q.length) × (same_address addr q.address ≡ true) × (entity ≡ found))
            ⊎ (table.find m.prefixes q ≡ some found))
      → IsActivity (count_prefix table alloc sa_ok prefixes addr plen m)
  unfolding count_prefix widen_bounds prefix_length same_address
  count_prefix-IsActivity m prefixes (addr4 a) plen entity h current legal new =
      let small : plen ≤ 32 = ground (arith, legal) in
      record {
        counted = h.counted;
        longest_ipv4 = omega (arith, h.longest_ipv4);
        longest_ipv6 = h.longest_ipv6;
        ipv4 = λ bytes n found e.
            elim (new (record { address = addr4 bytes; length = n }) found e) [
              | inl same ↦ omega (arith, same.0, same.2)
              | inr old ↦ omega (arith, h.ipv4 bytes n found old)
            ];
        ipv6 = λ bytes n found e.
            elim (new (record { address = addr6 bytes; length = n }) found e) [
              | inl same ↦ cc same.1
              | inr old ↦ h.ipv6 bytes n found old
            ];
      }
  count_prefix-IsActivity m prefixes (addr6 a) plen entity h current legal new =
      let small : plen ≤ 128 = ground (arith, legal) in
      record {
        counted = h.counted;
        longest_ipv4 = h.longest_ipv4;
        longest_ipv6 = omega (arith, h.longest_ipv6);
        ipv4 = λ bytes n found e.
            elim (new (record { address = addr4 bytes; length = n }) found e) [
              | inl same ↦ cc same.1
              | inr old ↦ h.ipv4 bytes n found old
            ];
        ipv6 = λ bytes n found e.
            elim (new (record { address = addr6 bytes; length = n }) found e) [
              | inl same ↦ omega (arith, same.0, same.2)
              | inr old ↦ omega (arith, h.ipv6 bytes n found old)
            ];
      }
  count_prefix-IsActivity m prefixes unsupported plen entity h current legal new = absurd (cc legal)

  prefix_length-eq :
      (addr : InAddr46) (value : ℤ) (plen : ℕ)
      → prefix_length addr value ≡ some plen
      → prefix_length addr (pos plen) ≡ some plen
  unfolding prefix_length
  prefix_length-eq (addr4 a) (pos n) plen e = ground (arith, e)
  prefix_length-eq (addr6 a) (pos n) plen e = ground (arith, e)
  prefix_length-eq (addr4 a) (negsuc n) plen e = cc e
  prefix_length-eq (addr6 a) (negsuc n) plen e = cc e
  prefix_length-eq unsupported (pos n) plen e = cc e
  prefix_length-eq unsupported (negsuc n) plen e = cc e

  -- What `add_prefix_hh` may return: nothing new, or the prefix with the current entity.
  add_prefix_hh_lem :
      (ctx : SpecContext Table) (addr : InAddr46) (plen : ℕ)
      → let m = ctx.subnet_metadata in
        let p : Prefix = record { address = addr; length = plen } in
        (add_prefix_hh table alloc ctx addr plen
          ≡ (sa_ok, table.add p ctx.current_entity m.prefixes))
        ⊎ ((add_prefix_hh table alloc ctx addr plen ≡ (sa_alloc_failed, m.prefixes))
            ⊎ (add_prefix_hh table alloc ctx addr plen ≡ (sa_ok, m.prefixes)))
  unfolding add_prefix_hh
  add_prefix_hh_lem ctx addr plen =
      elim (Option-cases
        (table.find ctx.subnet_metadata.prefixes (record { address = addr; length = plen }))) [
          | inl fresh ↦ elim (Bool-cases (alloc ctx)) [
            | inl allocated ↦ inl (rw (add_prefix_hh, fresh, allocated) refl)
            | inr failed ↦ inr (inl (rw (add_prefix_hh, fresh, failed) refl))
          ]
          | inr (old, there) ↦ inr (inr (rw (add_prefix_hh, there) refl))
        ]

  -- The metadata with the result of `add_prefix_hh`.
  abbrev pub IsCounted : SpecContext Table → ℕ → SubnetActivityError × Table → Type 0
  IsCounted ctx plen r =
      let m' = count_prefix table alloc r.0 r.1 ctx.current_ipaddr plen ctx.subnet_metadata in
      IsActivity m' × (m'.registered_entities ≡ ctx.subnet_metadata.registered_entities)

  count_prefix-registered :
      (m : SubnetActivity Table) (prefixes : Table) (addr : InAddr46) (plen : ℕ)
      → (count_prefix table alloc sa_ok prefixes addr plen m).registered_entities
        ≡ m.registered_entities
  unfolding count_prefix widen_bounds
  count_prefix-registered m prefixes (addr4 a) plen = refl
  count_prefix-registered m prefixes (addr6 a) plen = refl
  count_prefix-registered m prefixes unsupported plen = refl

  pub add_length-IsActivity :
      (ctx : SpecContext Table) (value : ℤ) (plen : ℕ)
      → IsActivity ctx.subnet_metadata
      → ctx.current_entity < ctx.subnet_metadata.registered_entities
      → prefix_length ctx.current_ipaddr value ≡ some plen
      → IsCounted ctx plen (add_prefix_hh table alloc ctx ctx.current_ipaddr plen)
  unfolding count_prefix
  add_length-IsActivity ctx value plen h current legal =
      let m = ctx.subnet_metadata in
      let p : Prefix = record { address = ctx.current_ipaddr; length = plen } in
      let legal' = prefix_length-eq ctx.current_ipaddr value plen legal in
      elim (add_prefix_hh_lem ctx ctx.current_ipaddr plen) [
        | inl added ↦ subst (IsCounted ctx plen) (sym added) (
          count_prefix-IsActivity m (table.add p ctx.current_entity m.prefixes) ctx.current_ipaddr
              plen ctx.current_entity h current legal'
              (λ q found e. found-add p q ctx.current_entity found m.prefixes e),
          count_prefix-registered m _ ctx.current_ipaddr plen,
        )
        | inr (inl failed) ↦ subst (IsCounted ctx plen) (sym failed) (h, refl)
        | inr (inr there) ↦ subst (IsCounted ctx plen) (sym there) (
          count_prefix-IsActivity m m.prefixes ctx.current_ipaddr plen ctx.current_entity h current
              legal' (λ q found e. inr e),
          count_prefix-registered m _ ctx.current_ipaddr plen,
        )
      ]
