-- ===== src/SubnetActivity/Parser/Steps.antt =====
-- What it is for a callback to return, and that it does for integers, strings and new entities: from
-- a context in which the invariant holds, for names and keys that fit their buffers and no more than
-- 1024 entities.
use honas.Common.{
  ℕ, ◌+◌, ◌-◌, ◌<◌, ◌≤◌, ◌≡◌, refl, ap, ◌∙◌, arith, Bool, true, false, List, [], ◌∷◌, ◌++◌, Option,
  none, some, inl, inr, Bool-cases, length, length-append, length-set, replicate, ℤ, lt→ltb, le→leb,
  drop, get_or, set,
}
use honas.SubnetActivity.{HashTable, SubnetActivity, SubnetActivityError}
use honas.SubnetActivity.Parser.{
  SpecState, init, subnet_activity_spec, subnet_mapping, subnet_mapping_expect_entity,
  prefix_mapping, prefix_mapping_expect_length, SpecContext, Event, string, map_key, start_map,
  prefix_length, fails, goes_on, add_length, spec_integer, name_entity, spec_string, start_subnet,
  strncpy,
}
use honas.SubnetActivity.Parser.Invariant.{has_entity, IsActivity, Inv, add_length-IsActivity}

-- Names and keys that fit `name`, of 128 bytes, and `ipv46`, of as many with a terminator.
abbrev pub Fits : Event → Type 0
Fits (string value) = length value ≤ 128
Fits (map_key key) = length key < 128
Fits _ = Unit {0}

-- How many entities a callback may add.
abbrev pub adds : Event → ℕ
adds start_map = 1
adds _ = 0

abbrev pub total_adds : List Event → ℕ
total_adds [] = 0
total_adds (event ∷ events) = adds event + total_adds events

module _ {Table : Type 0} (table : HashTable Table) (alloc : SpecContext Table → Bool) where
  abbrev pub registered : SpecContext Table → ℕ
  registered ctx = ctx.subnet_metadata.registered_entities

  -- A callback returns, keeps the invariant, and adds at most `n` entities.
  pub record Returns (n : ℕ) (ctx : SpecContext Table) (result : Option (Bool × SpecContext Table))
      : Type 0 where
    pub more : Bool
    pub after : SpecContext Table
    pub returned : result ≡ some (more, after)
    pub inv : Inv table alloc after
    pub entities : registered after ≤ registered ctx + n

  pub fails-Returns :
      (n : ℕ) (code : SubnetActivityError) (ctx : SpecContext Table)
      → Inv table alloc ctx
      → Returns n ctx (fails table alloc code ctx)
  unfolding fails
  fails-Returns n code ctx h = record {
    more = false;
    after = record ctx { sa_status_code = code };
    returned = refl;
    inv = record { activity = h.activity; entity = h.entity };
    entities = omega arith;
  }

  pub goes_on-Returns :
      (n : ℕ) (next : SpecState) (before ctx : SpecContext Table)
      → IsActivity table alloc ctx.subnet_metadata
      → (has_entity next ≡ true → ctx.current_entity < registered ctx)
      → registered ctx ≤ registered before + n
      → Returns n before (goes_on table alloc next ctx)
  unfolding goes_on
  goes_on-Returns n next before ctx activity entity few = record {
    more = true;
    after = record ctx { state = next };
    returned = refl;
    inv = record { activity = activity; entity = entity };
    entities = few;
  }

  -- A step that only changes the state, inside of an entity or out of it.
  pub moves-Returns :
      (next : SpecState) (ctx : SpecContext Table)
      → Inv table alloc ctx
      → (has_entity next ≡ true → has_entity ctx.state ≡ true)
      → Returns 0 ctx (goes_on table alloc next ctx)
  moves-Returns next ctx h inside =
      goes_on-Returns 0 next ctx ctx h.activity (λ e. h.entity (inside e)) (omega arith)

  add_length-Returns :
      (ctx : SpecContext Table) (value : ℤ)
      → Inv table alloc ctx
      → has_entity ctx.state ≡ true
      → (found : Option ℕ) → prefix_length ctx.current_ipaddr value ≡ found
      → Returns 0 ctx (elim found [
        | none ↦ fails table alloc SubnetActivityError.sa_invalid_prefix_length ctx
        | some plen ↦ goes_on table alloc prefix_mapping (add_length table alloc ctx plen)
      ])
  unfolding add_length
  add_length-Returns ctx value h inside none e =
      fails-Returns 0 SubnetActivityError.sa_invalid_prefix_length ctx h
  add_length-Returns ctx value h inside (some plen) e =
      let counted =
        add_length-IsActivity table alloc ctx value plen h.activity (h.entity inside) e in
      goes_on-Returns 0 prefix_mapping ctx (add_length table alloc ctx plen) counted.0
        (λ e'. omega (arith, counted.1, h.entity inside)) (omega (arith, counted.1))

  pub spec_integer-Returns :
      (state : SpecState) (value : ℤ) (ctx : SpecContext Table)
      → ctx.state ≡ state
      → Inv table alloc ctx
      → Returns 0 ctx (spec_integer table alloc state value ctx)
  unfolding spec_integer
  spec_integer-Returns prefix_mapping_expect_length value ctx at h =
      add_length-Returns ctx value h (ap has_entity at) _ refl
  spec_integer-Returns init value ctx at h = fails-Returns 0 _ ctx h
  spec_integer-Returns subnet_activity_spec value ctx at h = fails-Returns 0 _ ctx h
  spec_integer-Returns _ value ctx at h = fails-Returns 0 _ ctx h

  -- A name that fits, with an entity to give it to.
  name_entity_returns :
      (value : List ℕ) (m : SubnetActivity Table)
      → length value ≤ 128
      → IsActivity table alloc m
      → 0 < m.registered_entities
      → (m' : SubnetActivity Table) × (name_entity table alloc value m ≡ some m')
        × IsActivity table alloc m'
        × (m'.registered_entities ≡ m.registered_entities)
  unfolding name_entity
  name_entity_returns value m fits h some_entity =
      let last = m.registered_entities - 1 in
      let renamed = strncpy value ++ drop (length value) (get_or m.entities last []) in
      (
        record m { entities = set m.entities last renamed },
        rw (lt→ltb 0 m.registered_entities some_entity, le→leb (length value) 128 fits) refl,
        record {
          counted = length-set m.entities last renamed ∙ h.counted;
          longest_ipv4 = h.longest_ipv4;
          longest_ipv6 = h.longest_ipv6;
          ipv4 = h.ipv4;
          ipv6 = h.ipv6;
        },
        refl,
      )

  pub spec_string-Returns :
      (state : SpecState) (value : List ℕ) (ctx : SpecContext Table)
      → ctx.state ≡ state
      → length value ≤ 128
      → Inv table alloc ctx
      → Returns 0 ctx (spec_string table alloc state value ctx)
  unfolding spec_string
  spec_string-Returns subnet_mapping_expect_entity value ctx at fits h =
      let inside = h.entity (ap has_entity at) in
      let (m', named, activity, same) =
        name_entity_returns value ctx.subnet_metadata fits h.activity (omega (arith, inside)) in
      rw named (
        goes_on-Returns 0 subnet_mapping ctx (record ctx { subnet_metadata = m' }) activity
          (λ e. omega (arith, same, inside)) (omega (arith, same)))
  spec_string-Returns _ value ctx at fits h = fails-Returns 0 _ ctx h

  pub start_subnet-Returns :
      (ctx : SpecContext Table)
      → registered ctx < 1024
      → Inv table alloc ctx
      → Returns 1 ctx (start_subnet table alloc ctx)
  unfolding start_subnet
  start_subnet-Returns ctx few h =
      let m = ctx.subnet_metadata in
      rw (lt→ltb m.registered_entities 1024 few) (elim (Bool-cases (alloc ctx)) [
        | inr failed ↦ rw failed (fails-Returns 1 _ ctx h)
        | inl allocated ↦ rw allocated (
            goes_on-Returns 1 subnet_mapping ctx
              (record ctx {
                subnet_metadata = record m {
                  entities = m.entities ++ replicate 128 0 ∷ [];
                  registered_entities = m.registered_entities + 1;
                };
                current_entity = m.registered_entities;
              })
              (record {
                counted =
                    omega
                      (arith, length-append m.entities (replicate 128 0 ∷ []), h.activity.counted);
                longest_ipv4 = h.activity.longest_ipv4;
                longest_ipv6 = h.activity.longest_ipv6;
                ipv4 = λ bytes n entity e. omega (arith, h.activity.ipv4 bytes n entity e);
                ipv6 = λ bytes n entity e. omega (arith, h.activity.ipv6 bytes n entity e);
              })
              (λ e. omega arith) (omega arith))
      ])
