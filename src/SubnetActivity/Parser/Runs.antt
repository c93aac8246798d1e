-- ===== src/SubnetActivity/Parser/Runs.antt =====
-- All callbacks of a file, and `subnet_activity_initialize` around them.
use honas.Common.{
  ℕ, ◌+◌, ◌≤◌, ◌≡◌, refl, arith, Bool, List, [], ◌∷◌, Option, some, All, Bool-cases, inl, inr,
}
use honas.SubnetActivity.{HashTable, SubnetActivity, SubnetActivityError}
use honas.SubnetActivity.Parser.{
  SpecContext, Event, parsed, run, no_activity, start_context, subnet_activity_initialize,
}
use honas.SubnetActivity.Parser.Invariant.{IsActivity, Inv}
use honas.SubnetActivity.Parser.Callbacks.{callback-Returns}
use honas.SubnetActivity.Parser.Steps.{Fits, total_adds, registered}

module _ {Table : Type 0} (table : HashTable Table) (alloc : SpecContext Table → Bool)
    (inet_pton4 inet_pton6 : List ℕ → Option (List ℕ)) where
  start_context-Inv : Inv table alloc (start_context table alloc inet_pton4 inet_pton6)
  unfolding start_context no_activity
  start_context-Inv = record {
    activity = record {
      counted = refl;
      longest_ipv4 = omega arith;
      longest_ipv6 = omega arith;
      ipv4 = λ bytes n entity e. absurd (cc (table.find-empty _, e));
      ipv6 = λ bytes n entity e. absurd (cc (table.find-empty _, e));
    };
    entity = λ e. absurd (cc e);
  }

  none_registered : registered table alloc (start_context table alloc inet_pton4 inet_pton6) ≡ 0
  unfolding start_context no_activity
  none_registered = refl

  run_returns :
      (events : List Event) (ctx : SpecContext Table)
      → All Fits events
      → registered table alloc ctx + total_adds events ≤ 1024
      → Inv table alloc ctx
      → (ctx' : SpecContext Table) × (run table alloc inet_pton4 inet_pton6 events ctx ≡ some ctx')
        × Inv table alloc ctx'
  unfolding run
  run_returns [] ctx fit few h = (ctx, refl, h)
  run_returns (event ∷ events) ctx fit few h =
      let first =
        callback-Returns table alloc inet_pton4 inet_pton6 event ctx fit.0 (omega arith) h in
      elim (Bool-cases first.more) [
        | inl more ↦
            let rest =
              run_returns events first.after fit.1 (omega (arith, first.entities)) first.inv in
            (rest.0, rw (first.returned, more, rest.1) refl, rest.2)
        | inr last ↦ (first.after, rw (first.returned, last) refl, first.inv)
      ]

  -- For callbacks whose names and keys fit their buffers and that begin at most 1024 entities,
  -- whatever their order: the function returns, as many entities are stored as are counted, the
  -- lengths and the entity of every prefix in the hash table are in bounds, and no length is too
  -- large for its table of masks.
  pub subnet_activity_initialize_returns :
      (events : List Event)
      → All Fits events
      → total_adds events ≤ 1024
      → (code : SubnetActivityError) × (m : SubnetActivity Table) × (subnet_activity_initialize
            table alloc inet_pton4 inet_pton6
            (parsed events)
          ≡ some (code, m))
        × IsActivity table alloc m
  unfolding subnet_activity_initialize
  subnet_activity_initialize_returns events fit few =
      let start = start_context table alloc inet_pton4 inet_pton6 in
      let (ctx, returned, h) =
        run_returns events start fit (omega (arith, none_registered)) start_context-Inv in
      (ctx.sa_status_code, ctx.subnet_metadata, rw returned refl, h.activity)
