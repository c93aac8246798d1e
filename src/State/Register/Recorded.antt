-- ===== src/State/Register/Recorded.antt =====
-- What `honas_state_register_host_name_lookup` leaves in the filters: every name that it records is
-- found in every filter of the client, and what was found before still is.
pub mod Whole
use honas.Common.{
  ℕ, zero, suc, ◌+◌, ◌-◌, ◌%◌, ◌^◌, ◌<◌, ◌≤◌, ◌≡◌, refl, sym, ap, ◌∙◌, arith, Bool, true, false,
  List, [], ◌∷◌, ◌++◌, inl, inr, Option, none, some, ◌==◌, if◌then◌else◌, length, map, take,
  require, >>=-eq-some, ◌>>=◌, ◌>>◌, All, Bool-cases, Option-cases, lt→ltb, le→leb, ltb, leb,
}
use honas.State.{State, Counting, DryRun, Header}
use honas.State.Filters.Kept.{set_in_filters-host_name_count}
use honas.State.Filters.Growth.{
  IsDigest, IsWellFormed, Grows, Grows-refl, Grows-trans, Grows-IsWellFormed, Found, Found-Grows,
  set_in_filters_lem,
}
use honas.State.Register.Text.{c_string, memchr_dot}
use honas.State.Register.Names.{
  labels_of, parts_behind_dots, second_level, memchr_dot-none, memchr_dot-some,
}
use honas.State.Register.{
  add_to_counter, count_host_name, Run, record_hash, record_name, record_with_entity, labels_loop,
  record_labels, entity_name, entity_label, first_word, count_query, add_dry_run,
}

-- The names that a block under `if (entity_prefix)` records.
unfoldable pub entity_names :
    (compose : List ℕ → List ℕ → Option (List ℕ))
    → Option (List ℕ)
    → List ℕ
    → Option (List (List ℕ))
entity_names compose none label = some []
entity_names compose (some prefix) label = do name ← compose prefix label; some (name ∷ [])

unfoldable pub label_names : Option (List ℕ) → List (List ℕ) → Option (List (List ℕ))
label_names entity_prefix [] = some []
label_names entity_prefix (label ∷ labels) = do
  with_prefix ← entity_names entity_label entity_prefix label
  rest ← label_names entity_prefix labels
  some (with_prefix ++ label ∷ rest)

-- `sld_buf` after the loop, as a C string.
unfoldable pub sld_after : (part sld_buf : List ℕ) (behind : List (List ℕ)) → List ℕ
sld_after part sld_buf [] = sld_buf
sld_after part sld_buf (next ∷ rest) = c_string (second_level part (next ∷ rest))

-- All names that a lookup of `host_name` records, with and without the entity prefix: the whole
-- name and, but for PTR records, the labels that a '.' ends and the last two labels. `none` where
-- one does not fit its buffer.
unfoldable pub recorded_names : Option (List ℕ) → List ℕ → Bool → Option (List (List ℕ))
recorded_names entity_prefix host_name is_ptr = do
  with_prefix ← entity_names entity_name entity_prefix host_name
  labels ← label_names entity_prefix (labels_of host_name)
  let second = sld_after host_name [] (parts_behind_dots host_name)
  some (host_name ∷ (with_prefix ++ (if is_ptr then [] else labels ++ second ∷ [])))

module _ {Hll : Type 0} (hll : Counting Hll) (sha256 : List ℕ → List ℕ)
    (digest : (name : List ℕ) → IsDigest (sha256 name)) where
  -- Each name is found in each of the filters.
  abbrev pub IsRecorded : State Hll → (indexes : List ℕ) → List (List ℕ) → Type 0
  IsRecorded state indexes = All (λ name. All (Found state (sha256 name)) indexes)

  abbrev pub InState : State Hll → List ℕ → Type 0
  InState state = All (λ i. i < state.header.number_of_filters)

  pub All-Found-Grows :
      {a b : State Hll} (indexes hash : List ℕ)
      → IsWellFormed a
      → IsDigest hash
      → InState a indexes
      → Grows a b
      → All (Found a hash) indexes
      → All (Found b hash) indexes
  All-Found-Grows [] hash w d below g found = tt
  All-Found-Grows (i ∷ indexes) hash w d below g found =
      (Found-Grows i hash w d below.0 g found.0, All-Found-Grows indexes hash w d below.1 g found.1)

  pub IsRecorded-Grows :
      {a b : State Hll} (indexes : List ℕ) (names : List (List ℕ))
      → IsWellFormed a
      → InState a indexes
      → Grows a b
      → IsRecorded a indexes names
      → IsRecorded b indexes names
  IsRecorded-Grows indexes [] w below g all = tt
  IsRecorded-Grows indexes (name ∷ names) w below g all = (
    All-Found-Grows indexes (sha256 name) w (digest name) below g all.0,
    IsRecorded-Grows indexes names w below g all.1,
  )

  pub IsRecorded-append :
      (state : State Hll) (indexes : List ℕ) (names more : List (List ℕ))
      → IsRecorded state indexes names
      → IsRecorded state indexes more
      → IsRecorded state indexes (names ++ more)
  IsRecorded-append state indexes [] more h k = k
  IsRecorded-append state indexes (name ∷ names) more h k =
      (h.0, IsRecorded-append state indexes names more h.1 k)

  -- The counter of host names owns its registers, as in a state that `honas_state_create` makes.
  pub record IsReady (state : State Hll) : Type 0 where
    pub well_formed : IsWellFormed state
    pub owns : hll.registers_owned state.host_name_count ≡ true

  pub IsReady-Grows :
      {a b : State Hll}
      → Grows a b
      → hll.registers_owned b.host_name_count ≡ true
      → IsReady a
      → IsReady b
  IsReady-Grows g owns ready = record {
    well_formed = Grows-IsWellFormed g ready.well_formed;
    owns = owns;
  }

  -- A step of the function, from a state that it may run in: it succeeds, loses nothing, and has
  -- recorded `names`.
  pub record Records (indexes : List ℕ) (names : List (List ℕ)) (before : Run Hll)
      (result : Option (Run Hll)) : Type 0 where
    pub after : Run Hll
    pub runs : result ≡ some after
    pub grows : Grows before.state after.state
    pub owns : hll.registers_owned after.state.host_name_count ≡ true
    pub recorded : IsRecorded after.state indexes names

  counted_Grows :
      (before after : State Hll) (count : Hll)
      → Grows (record before { host_name_count = count }) after
      → Grows before after
  counted_Grows before after count g = record {
    hashes = g.hashes;
    count = g.count;
    per_user = g.per_user;
    filters = g.filters;
    combinations = g.combinations;
    mmap = g.mmap;
    bits = g.bits;
  }

  counted-IsWellFormed :
      (state : State Hll) (count : Hll)
      → IsWellFormed state
      → IsWellFormed (record state { host_name_count = count })
  counted-IsWellFormed state count w = record {
    count = w.count;
    hashes = w.hashes;
    sized = w.sized;
    inside = w.inside;
    apart = w.apart;
  }

  count_host_name-owned :
      (element : ℕ) (state : State Hll)
      → hll.registers_owned state.host_name_count ≡ true
      → count_host_name hll sha256 element state
        ≡ record state { host_name_count = hll.add state.host_name_count element }
  unfolding count_host_name add_to_counter
  count_host_name-owned element state owned = rw owned refl

  pub record_hash_lem :
      (indexes hash : List ℕ) (dry_hash : ℕ) (run : Run Hll)
      → IsReady run.state
      → InState run.state indexes
      → IsDigest hash
      → (after : Run Hll) × (record_hash hll sha256 indexes hash dry_hash run ≡ some after)
        × Grows run.state after.state
        × (hll.registers_owned after.state.host_name_count ≡ true)
        × All (Found after.state hash) indexes
  unfolding record_hash
  record_hash_lem indexes hash dry_hash run w below d =
      let element = first_word hll sha256 hash in
      let count = hll.add run.state.host_name_count element in
      let (state', runs, grows, found) =
        set_in_filters_lem (record (run.state) { host_name_count = count }) indexes hash
          (counted-IsWellFormed run.state count w.well_formed) d below in
      (
        record { state = state'; dry_run = add_dry_run hll sha256 dry_hash run.dry_run },
        rw (count_host_name-owned element run.state w.owns, runs, ◌>>=◌) refl,
        counted_Grows run.state state' count grows,
        ap hll.registers_owned (
              set_in_filters-host_name_count (record (run.state) { host_name_count = count }) state'
                indexes hash runs)
            ∙ hll.add_owned run.state.host_name_count element
            ∙ w.owns,
        found,
      )

  pub record_name-Records :
      (indexes name : List ℕ) (run : Run Hll)
      → IsReady run.state
      → InState run.state indexes
      → Records indexes (name ∷ []) run (record_name hll sha256 indexes name run)
  unfolding record_name
  record_name-Records indexes name run w below =
      let (after, runs, grows, owns, found) =
        record_hash_lem indexes (sha256 name) (first_word hll sha256 (sha256 name)) run w below
          (digest name) in
      record { after = after; runs = runs; grows = grows; owns = owns; recorded = (found, tt) }

  pub InState-Grows :
      {a b : State Hll} (indexes : List ℕ) → Grows a b → InState a indexes → InState b indexes
  InState-Grows [] g below = tt
  InState-Grows (i ∷ indexes) g below = (omega (arith, g.count), InState-Grows indexes g below.1)

  -- One step after another.
  pub Records-then :
      (indexes : List ℕ) (names more : List (List ℕ)) (run : Run Hll) (m : Option (Run Hll))
      (next : Run Hll → Option (Run Hll))
      → IsReady run.state
      → InState run.state indexes
      → Records indexes names run m
      → ((mid : Run Hll)
          → IsReady mid.state
          → InState mid.state indexes
          → Records indexes more mid (next mid))
      → Records indexes (names ++ more) run (m >>= next)
  Records-then indexes names more run m next w below first then_ =
      let mid = first.after in
      let w' = IsReady-Grows first.grows first.owns w in
      let below' = InState-Grows indexes first.grows below in
      let second = then_ mid w' below' in
      record {
        after = second.after;
        runs = rw (first.runs, ◌>>=◌) second.runs;
        grows = Grows-trans first.grows second.grows;
        owns = second.owns;
        recorded =
            IsRecorded-append second.after.state indexes names more
              (IsRecorded-Grows indexes names w'.well_formed below' second.grows first.recorded)
              second.recorded;
      }

  pub record_with_entity-Records :
      (compose : List ℕ → List ℕ → Option (List ℕ)) (indexes : List ℕ)
      (entity_prefix : Option (List ℕ)) (label : List ℕ) (names : List (List ℕ)) (run : Run Hll)
      → IsReady run.state
      → InState run.state indexes
      → entity_names compose entity_prefix label ≡ some names
      → Records indexes names run
          (record_with_entity hll sha256 compose indexes entity_prefix label run)
  unfolding record_with_entity entity_names
  record_with_entity-Records compose indexes none label names run w below e =
      let nothing : [] ≡ names = cc e in
      record {
        after = run;
        runs = refl;
        grows = Grows-refl run.state;
        owns = w.owns;
        recorded = rw (← nothing) tt;
      }
  record_with_entity-Records compose indexes (some prefix) label names run w below e =
      let (name, composed, e') = >>=-eq-some (compose prefix label) _ e in
      let one : name ∷ [] ≡ names = cc e' in
      rw (composed, ← one, ◌>>=◌) (record_name-Records indexes name run w below)
