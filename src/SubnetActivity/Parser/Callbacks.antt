-- ===== src/SubnetActivity/Parser/Callbacks.antt =====
-- The other callbacks, and all of them: each returns from a context in which the invariant holds.
use honas.Common.{
  same_bytes, ℕ, ◌+◌, ◌<◌, ◌≤◌, ◌≡◌, refl, ap, arith, Bool, true, false, List, Option, inl, inr,
  Bool-cases, length, codes, lt→ltb,
}
use honas.Inet.{InAddr46, addr4, addr6, unsupported}
use honas.State.Register.Text.{c_string}
use honas.SubnetActivity.{HashTable, SubnetActivityError}
use honas.SubnetActivity.Parser.{
  SpecState, init, subnet_activity_spec, subnet_activity_spec_expect_mapping_array,
  subnet_mapping_array, subnet_mapping, subnet_mapping_expect_entity,
  subnet_mapping_expect_prefixes_array, prefix_mapping_array, prefix_mapping,
  prefix_mapping_expect_length, SpecContext, Event, integer, string, map_key, start_map, end_map,
  start_array, end_array, fails, goes_on, parse_address, read_address, spec_map_key, spec_start_map,
  spec_end_map, spec_start_array, spec_end_array, callback,
}
use honas.SubnetActivity.Parser.Invariant.{has_entity, Inv}
use honas.SubnetActivity.Parser.Steps.{
  Fits, adds, registered, Returns, fails-Returns, goes_on-Returns, moves-Returns,
  spec_integer-Returns, spec_string-Returns, start_subnet-Returns,
}

module _ {Table : Type 0} (table : HashTable Table) (alloc : SpecContext Table → Bool) where
  raise-Returns :
      (n : ℕ) (ctx : SpecContext Table) (r : Option (Bool × SpecContext Table))
      → Returns table alloc 0 ctx r
      → Returns table alloc n ctx r
  raise-Returns n ctx r h = record {
    more = h.more;
    after = h.after;
    returned = h.returned;
    inv = h.inv;
    entities = omega (arith, h.entities);
  }

  spec_start_map-Returns :
      (state : SpecState) (ctx : SpecContext Table)
      → ctx.state ≡ state
      → registered table alloc ctx < 1024
      → Inv table alloc ctx
      → Returns table alloc 1 ctx (spec_start_map table alloc state ctx)
  unfolding spec_start_map
  spec_start_map-Returns init ctx at few h =
      raise-Returns 1 ctx _ (moves-Returns table alloc subnet_activity_spec ctx h (λ e. cc e))
  spec_start_map-Returns subnet_mapping_array ctx at few h =
      start_subnet-Returns table alloc ctx few h
  spec_start_map-Returns prefix_mapping_array ctx at few h =
      raise-Returns 1 ctx _ (moves-Returns table alloc prefix_mapping ctx h (λ e. ap has_entity at))
  spec_start_map-Returns _ ctx at few h = fails-Returns table alloc 1 _ ctx h

  spec_end_map-Returns :
      (state : SpecState) (ctx : SpecContext Table)
      → ctx.state ≡ state
      → Inv table alloc ctx
      → Returns table alloc 0 ctx (spec_end_map table alloc state ctx)
  unfolding spec_end_map
  spec_end_map-Returns subnet_activity_spec ctx at h =
      moves-Returns table alloc init ctx h (λ e. cc e)
  spec_end_map-Returns subnet_mapping ctx at h =
      moves-Returns table alloc subnet_mapping_array ctx h (λ e. cc e)
  spec_end_map-Returns prefix_mapping ctx at h =
      moves-Returns table alloc prefix_mapping_array ctx h (λ e. ap has_entity at)
  spec_end_map-Returns _ ctx at h = fails-Returns table alloc 0 _ ctx h

  spec_start_array-Returns :
      (state : SpecState) (ctx : SpecContext Table)
      → ctx.state ≡ state
      → Inv table alloc ctx
      → Returns table alloc 0 ctx (spec_start_array table alloc state ctx)
  unfolding spec_start_array
  spec_start_array-Returns subnet_activity_spec_expect_mapping_array ctx at h =
      moves-Returns table alloc subnet_mapping_array ctx h (λ e. cc e)
  spec_start_array-Returns subnet_mapping_expect_prefixes_array ctx at h =
      moves-Returns table alloc prefix_mapping_array ctx h (λ e. ap has_entity at)
  spec_start_array-Returns _ ctx at h = fails-Returns table alloc 0 _ ctx h

  spec_end_array-Returns :
      (state : SpecState) (ctx : SpecContext Table)
      → ctx.state ≡ state
      → Inv table alloc ctx
      → Returns table alloc 0 ctx (spec_end_array table alloc state ctx)
  unfolding spec_end_array
  spec_end_array-Returns subnet_mapping_array ctx at h =
      moves-Returns table alloc subnet_activity_spec ctx h (λ e. cc e)
  spec_end_array-Returns prefix_mapping_array ctx at h =
      moves-Returns table alloc subnet_mapping ctx h (λ e. ap has_entity at)
  spec_end_array-Returns _ ctx at h = fails-Returns table alloc 0 _ ctx h

  module _ (inet_pton4 inet_pton6 : List ℕ → Option (List ℕ)) where
    parsed_address-Returns :
        (addr : InAddr46) (ctx read : SpecContext Table)
        → Inv table alloc read
        → read.current_entity < registered table alloc read
        → registered table alloc read ≤ registered table alloc ctx
        → Returns table alloc 0 ctx (elim addr [
          | unsupported ↦ fails table alloc SubnetActivityError.sa_ipaddress_parse_failed read
          | _ ↦ goes_on table alloc prefix_mapping_expect_length read
        ])
    unfolding fails
    parsed_address-Returns unsupported ctx read h inside few = record {
      more = false;
      after = record read { sa_status_code = SubnetActivityError.sa_ipaddress_parse_failed };
      returned = refl;
      inv = record { activity = h.activity; entity = h.entity };
      entities = omega arith;
    }
    parsed_address-Returns (addr4 bytes) ctx read h inside few =
        goes_on-Returns table alloc 0 _ ctx read h.activity (λ e. inside) (omega arith)
    parsed_address-Returns (addr6 bytes) ctx read h inside few =
        goes_on-Returns table alloc 0 _ ctx read h.activity (λ e. inside) (omega arith)

    read_address-Returns :
        (value : List ℕ) (ctx : SpecContext Table)
        → length value < 128
        → has_entity ctx.state ≡ true
        → Inv table alloc ctx
        → Returns table alloc 0 ctx (read_address table alloc inet_pton4 inet_pton6 value ctx)
    unfolding read_address
    read_address-Returns value ctx fits inside h =
        let addr = parse_address table alloc inet_pton4 inet_pton6 (c_string value) in
        let read = record ctx { current_ipaddr = addr } in
        rw (lt→ltb (length value) 128 fits) (
          parsed_address-Returns addr ctx read (record { activity = h.activity; entity = h.entity })
            (h.entity inside) (omega arith))

    spec_map_key-Returns :
        (state : SpecState) (key : List ℕ) (ctx : SpecContext Table)
        → ctx.state ≡ state
        → length key < 128
        → Inv table alloc ctx
        → Returns table alloc 0 ctx (spec_map_key table alloc inet_pton4 inet_pton6 state key ctx)
    unfolding spec_map_key
    spec_map_key-Returns subnet_activity_spec key ctx at fits h =
        elim (Bool-cases (same_bytes key (codes "subnet_activity"))) [
          | inl same ↦ rw same (
              moves-Returns table alloc subnet_activity_spec_expect_mapping_array ctx h (λ e. cc e))
          | inr other ↦ rw other (moves-Returns table alloc subnet_activity_spec ctx h (λ e. cc e))
        ]
    spec_map_key-Returns subnet_mapping key ctx at fits h =
        elim (Bool-cases (same_bytes key (codes "entity"))) [
          | inl same ↦
              rw same (
                moves-Returns table alloc subnet_mapping_expect_entity ctx h
                  (λ e. ap has_entity at))
          | inr other ↦ rw other (elim (Bool-cases (same_bytes key (codes "prefixes"))) [
            | inl same ↦ rw same (
                moves-Returns table alloc subnet_mapping_expect_prefixes_array ctx h
                  (λ e. ap has_entity at))
            | inr other' ↦
                rw other' (moves-Returns table alloc subnet_mapping ctx h (λ e. ap has_entity at))
          ])
        ]
    spec_map_key-Returns prefix_mapping key ctx at fits h =
        read_address-Returns key ctx fits (ap has_entity at) h
    spec_map_key-Returns _ key ctx at fits h = fails-Returns table alloc 0 _ ctx h

    pub callback-Returns :
        (event : Event) (ctx : SpecContext Table)
        → Fits event
        → registered table alloc ctx + adds event ≤ 1024
        → Inv table alloc ctx
        → Returns table alloc
            (adds event)
            ctx
            (callback table alloc inet_pton4 inet_pton6 event ctx)
    unfolding callback
    callback-Returns (integer value) ctx fits few h =
        spec_integer-Returns table alloc ctx.state value ctx refl h
    callback-Returns (string value) ctx fits few h =
        spec_string-Returns table alloc ctx.state value ctx refl fits h
    callback-Returns (map_key key) ctx fits few h =
        spec_map_key-Returns ctx.state key ctx refl fits h
    callback-Returns start_map ctx fits few h =
        spec_start_map-Returns ctx.state ctx refl (omega arith) h
    callback-Returns end_map ctx fits few h = spec_end_map-Returns ctx.state ctx refl h
    callback-Returns start_array ctx fits few h = spec_start_array-Returns ctx.state ctx refl h
    callback-Returns end_array ctx fits few h = spec_end_array-Returns ctx.state ctx refl h
