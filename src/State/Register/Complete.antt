-- ===== src/State/Register/Complete.antt =====
-- The whole of `honas_state_register_host_name_lookup`: it does not fail for a name that fits, it
-- chooses as many filters as the header says, and it records every name in all of them.
use mathlib.Core.Path.{subst}
use honas.Common.{
  ℕ, ◌<◌, ◌≤◌, ◌≡◌, refl, Bool, true, false, List, [], ◌∷◌, ◌++◌, Option, some, if◌then◌else◌,
  length, map, ◌>>=◌, ◌>>◌, All, Rising, le→leb,
}
use honas.Combinations.Subsets.{IsSubset}
use honas.Inet.{InAddr46}
use honas.State.{State, Counting}
use honas.State.Filters.{check_host_name_lookups}
use honas.State.Filters.Growth.{
  IsDigest, IsWellFormed, Grows, Grows-refl, Grows-trans, Grows-IsWellFormed,
}
use honas.State.Filters.Check.{check_host_name_lookups_lem}
use honas.State.Register.Text.{tolower, strip_trailing_dot}
use honas.State.Register.Names.{labels_of, parts_behind_dots}
use honas.State.Register.{
  add_to_counter, count_client, Run, register_host_name_lookup, hash_client, name_limit,
  uint64_hash, record_labels, record_with_entity, entity_name,
}
use honas.State.Register.Recorded.{
  IsReady, IsReady-Grows, entity_names, label_names, sld_after, recorded_names, IsRecorded, InState,
  Records, All-Found-Grows, InState-Grows, record_hash_lem, Records-then,
  record_with_entity-Records,
}
use honas.State.Register.Recorded.Whole.{record_labels-Records}
use honas.State.Register.Chosen.{
  CanRegister, Rising-All-lt, recorded_names-parts, name_limit_lem, length-map, started,
  started_lem, choose_filters_lem,
}

-- What a lookup leaves: `runs` with `after`, the chosen filters, and each name in all of them.
pub record IsRegistered {Hll : Type 0} (hll : Counting Hll) (sha256 : List ℕ → List ℕ)
    (digest : (name : List ℕ) → IsDigest (sha256 name)) (names : List (List ℕ)) (before : State Hll)
    (result : Option (Run Hll)) : Type 0 where
  pub after : Run Hll
  pub indexes : List ℕ
  pub runs : result ≡ some after
  pub chosen :
      IsSubset 0 before.header.number_of_filters before.header.number_of_filters_per_user indexes
  pub grows : Grows before after.state
  pub owns : hll.registers_owned after.state.host_name_count ≡ true
  pub recorded : IsRecorded hll sha256 digest after.state indexes names

module _ {Hll : Type 0} (hll : Counting Hll) (sha256 : List ℕ → List ℕ)
    (digest : (name : List ℕ) → IsDigest (sha256 name)) where
  -- After the first name: the entity's whole name and, but for PTR records, the labels.
  rest-Records :
      (indexes name : List ℕ) (entity_prefix : Option (List ℕ)) (is_ptr : Bool)
      (with_prefix labels : List (List ℕ)) (run : Run Hll)
      → IsReady hll sha256 digest run.state
      → InState hll sha256 digest run.state indexes
      → length name < 256
      → entity_names entity_name entity_prefix name ≡ some with_prefix
      → label_names entity_prefix (labels_of name) ≡ some labels
      → Records hll sha256 digest indexes
          (with_prefix
            ++ (if is_ptr then [] else labels ++ sld_after name [] (parts_behind_dots name) ∷ []))
          run
          (record_with_entity hll sha256 entity_name indexes entity_prefix name run >>= λ mid.
            if is_ptr then some mid else record_labels hll sha256 indexes entity_prefix name mid)
  rest-Records indexes name entity_prefix is_ptr with_prefix labels run w below short e e' =
      Records-then hll sha256 digest indexes with_prefix _ run _ _ w below
        (record_with_entity-Records hll sha256 digest entity_name indexes entity_prefix name
          with_prefix run w below e)
        (last_step is_ptr)
    where
      last_step :
          (is_ptr : Bool) (mid : Run Hll)
          → IsReady hll sha256 digest mid.state
          → InState hll sha256 digest mid.state indexes
          → Records hll sha256 digest indexes
              (if is_ptr then [] else labels ++ sld_after name [] (parts_behind_dots name) ∷ [])
              mid
              (if is_ptr then some mid else record_labels hll sha256 indexes entity_prefix name mid)
      last_step true mid w' below' = record {
        after = mid;
        runs = refl;
        grows = Grows-refl mid.state;
        owns = w'.owns;
        recorded = tt;
      }
      last_step false mid w' below' =
          record_labels-Records hll sha256 digest indexes entity_prefix name labels mid w' below'
            short e'

  -- In a state laid out for lookups whose counters own their registers, as in one that is created
  -- and not yet saved, for a client with an IPv4 or IPv6 address, a host name that is not empty and
  -- has at most 255 bytes without a trailing '.', and names that fit their buffers, with a digest
  -- of 32 bytes for every name: the function returns, with as many distinct filters chosen as the
  -- header asks for, no bit of a filter lost, every name recorded in each chosen filter, and the
  -- counter of host names still the owner of its registers.
  pub register_host_name_lookup_lem :
      (timestamp : ℕ) (client : InAddr46) (host_name name : List ℕ)
      (entity_prefix : Option (List ℕ)) (is_ptr : Bool) (client_hash : ℕ) (names : List (List ℕ))
      (run : Run Hll)
      → CanRegister run.state
      → hll.registers_owned run.state.client_count ≡ true
      → hll.registers_owned run.state.host_name_count ≡ true
      → hash_client client ≡ some client_hash
      → strip_trailing_dot host_name ≡ some name
      → length name < 256
      → recorded_names entity_prefix (map tolower name) is_ptr ≡ some names
      → IsRegistered hll sha256 digest names run.state
          (register_host_name_lookup hll sha256 timestamp client host_name entity_prefix is_ptr run)
  unfolding register_host_name_lookup started count_client add_to_counter
  register_host_name_lookup_lem timestamp client host_name name entity_prefix is_ptr client_hash
        names run can owns_clients owns_names hashed stripped short e =
      let low = map tolower name in
      let short' : length low < 256 = rw (length-map tolower name) short in
      let (with_prefix, labels, e1, e2, whole) =
        recorded_names-parts entity_prefix low is_ptr names e in
      let (can1, grows0) = started_lem hll sha256 timestamp client_hash run.state can in
      let (indexes, chosen, subset) =
        choose_filters_lem hll sha256 (started hll sha256 timestamp client_hash run.state)
          client_hash can1 in
      let w1 : IsReady hll sha256 digest (started hll sha256 timestamp client_hash run.state) =
        record { well_formed = can1.well_formed; owns = owns_names } in
      let below = Rising-All-lt 0 _ indexes subset.0 in
      let (mid, runs1, grows1, owns1, found1) =
        record_hash_lem hll sha256 digest indexes (sha256 low) (uint64_hash low)
          (record {
            state = started hll sha256 timestamp client_hash run.state;
            dry_run = run.dry_run;
          })
          w1 below (digest low) in
      let w2 = IsReady-Grows hll sha256 digest grows1 owns1 w1 in
      let below2 = InState-Grows hll sha256 digest indexes grows1 below in
      let rest =
        rest-Records indexes low entity_prefix is_ptr with_prefix labels mid w2 below2 short' e1
          e2 in
      record {
        after = rest.after;
        indexes = indexes;
        runs =
            rw
              (
                hashed,
                owns_clients,
                chosen,
                stripped,
                le→leb (length name) (name_limit entity_prefix)
                    (name_limit_lem entity_prefix name short),
                runs1,
                ◌>>=◌,
                ◌>>◌,
              )
              rest.runs;
        chosen = rw (grows0.count, grows0.per_user) at subset;
        grows = Grows-trans grows0 (Grows-trans grows1 rest.grows);
        owns = rest.owns;
        recorded = subst (IsRecorded hll sha256 digest rest.after.state indexes) whole (
          All-Found-Grows hll sha256 digest indexes (sha256 low) w2.well_formed (digest low) below2
              rest.grows found1,
          rest.recorded,
        );
      }

  -- The names are found: a check gives at least as many filters as a user has.
  abbrev pub IsFound : ℕ → State Hll → List ℕ → Type 0
  IsFound number state name =
      (hits : List ℕ) × (check_host_name_lookups state (sha256 name) ≡ some (length hits, hits))
      × (number ≤ length hits)

  All-IsFound :
      (state : State Hll) (indexes : List ℕ) (names : List (List ℕ))
      → IsWellFormed state
      → Rising 0 state.header.number_of_filters indexes
      → IsRecorded hll sha256 digest state indexes names
      → All (IsFound (length indexes) state) names
  All-IsFound state indexes [] w rising all = tt
  All-IsFound state indexes (name ∷ names) w rising all =
      let (hits, runs, rises, sound, most) =
        check_host_name_lookups_lem state (sha256 name) w (digest name) in
      ((hits, runs, most indexes rising all.0), All-IsFound state indexes names w rising all.1)

  -- In a state laid out for lookups whose counters own their registers, as in one that is created
  -- and not yet saved, for a client with an IPv4 or IPv6 address, a host name that is not empty and
  -- has at most 255 bytes without a trailing '.', and names that fit their buffers, with a digest
  -- of 32 bytes for every name: the lookup is registered, and for each of the recorded names, the
  -- lower-case host name among them, the check then reports at least as many filters as a user has.
  pub check_host_name_lookups-register_host_name_lookup :
      (timestamp : ℕ) (client : InAddr46) (host_name name : List ℕ)
      (entity_prefix : Option (List ℕ)) (is_ptr : Bool) (client_hash : ℕ) (names : List (List ℕ))
      (run : Run Hll)
      → CanRegister run.state
      → hll.registers_owned run.state.client_count ≡ true
      → hll.registers_owned run.state.host_name_count ≡ true
      → hash_client client ≡ some client_hash
      → strip_trailing_dot host_name ≡ some name
      → length name < 256
      → recorded_names entity_prefix (map tolower name) is_ptr ≡ some names
      → (after : Run Hll) × (register_host_name_lookup hll sha256 timestamp client host_name
            entity_prefix is_ptr run
          ≡ some after)
        × All (IsFound run.state.header.number_of_filters_per_user after.state) names
  check_host_name_lookups-register_host_name_lookup timestamp client host_name name entity_prefix
        is_ptr client_hash names run can owns_clients owns_names hashed stripped short e =
      let r =
        register_host_name_lookup_lem timestamp client host_name name entity_prefix is_ptr
          client_hash names run can owns_clients owns_names hashed stripped short e in
      let rising = rw (← r.grows.count) at r.chosen.0 in
      (
        r.after,
        r.runs,
        subst (λ n. All (IsFound n r.after.state) names) r.chosen.1
            (All-IsFound r.after.state r.indexes names (Grows-IsWellFormed r.grows can.well_formed)
              rising r.recorded),
      )
