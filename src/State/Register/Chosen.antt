-- ===== src/State/Register/Chosen.antt =====
-- The beginning of `honas_state_register_host_name_lookup`: what makes a state ready for it, and the
-- choice of the filters of a client.
use native.Mathlib.Nat.{mod-lt}
use mathlib.Core.Path.{subst}
use honas.Common.{
  ℕ, suc, ◌%◌, ◌<◌, ◌≤◌, ◌≡◌, refl, sym, ap, ◌∙◌, arith, Bool, List, [], ◌∷◌, ◌++◌, Option, none,
  some, inl, inr, if◌then◌else◌, length, map, >>=-eq-some, ◌>>=◌, ◌>>◌, All, Bool-cases, Rising,
  lt→ltb, ltb,
}
use honas.Combinations.Count.{choose}
use honas.Combinations.Subsets.{IsSubset}
use honas.Combinations.Lookup.{CanLookUp, lookup_combination-IsSubset}
use honas.State.{State, Header, Counting}
use honas.State.Filters.Growth.{IsWellFormed, Grows}
use honas.State.Register.Names.{labels_of, parts_behind_dots}
use honas.State.Register.{choose_filters, count_request, name_limit, entity_name}
use honas.State.Register.Recorded.{entity_names, label_names, sld_after, recorded_names}

-- A state that is laid out for lookups, as `honas_state_init_common` does it,
-- and the header's number of filters per user is one that there are combinations for.
pub record CanRegister {Hll : Type 0} (state : State Hll) : Type 0 where
  pub well_formed : IsWellFormed state
  pub can_look_up : CanLookUp state.header.number_of_filters state.header.number_of_filters_per_user
  pub counted :
      state.nr_filters_per_user_combinations
      ≡ choose state.header.number_of_filters state.header.number_of_filters_per_user
  pub some_one : 1 ≤ state.nr_filters_per_user_combinations

pub Rising-All-lt : (lo hi : ℕ) (xs : List ℕ) → Rising lo hi xs → All (λ i. i < hi) xs
Rising-All-lt lo hi [] r = tt
Rising-All-lt lo hi (x ∷ xs) r = (r.1, Rising-All-lt (suc x) hi xs r.2)

pub recorded_names-parts :
    (entity_prefix : Option (List ℕ)) (name : List ℕ) (is_ptr : Bool) (names : List (List ℕ))
    → recorded_names entity_prefix name is_ptr ≡ some names
    → (with_prefix labels : List (List ℕ)) × (entity_names entity_name entity_prefix name
        ≡ some with_prefix)
      × (label_names entity_prefix (labels_of name) ≡ some labels)
      × (name
            ∷ (with_prefix
                ++ (if is_ptr
                    then []
                    else labels ++ sld_after name [] (parts_behind_dots name) ∷ []))
          ≡ names)
unfolding recorded_names
recorded_names-parts entity_prefix name is_ptr names e =
    let (with_prefix, e1, rest) = >>=-eq-some (entity_names entity_name entity_prefix name) _ e in
    let (labels, e2, last) = >>=-eq-some (label_names entity_prefix (labels_of name)) _ rest in
    (with_prefix, labels, e1, e2, cc last)

pub name_limit_lem :
    (entity_prefix : Option (List ℕ)) (name : List ℕ)
    → length name < 256
    → length name ≤ name_limit entity_prefix
unfolding name_limit
name_limit_lem none name short = omega arith
name_limit_lem (some prefix) name short = omega arith

pub length-map : (f : ℕ → ℕ) (xs : List ℕ) → length (map f xs) ≡ length xs
length-map f [] = refl
length-map f (x ∷ xs) = ap suc (length-map f xs)

module _ {Hll : Type 0} (hll : Counting Hll) (sha256 : List ℕ → List ℕ) where
  with_header : State Hll → Header → Hll → State Hll
  with_header state h count = record state { header = h; client_count = count }

  by_fields :
      (state : State Hll) (h : Header) (count : Hll)
      → CanRegister state
      → h.number_of_filters ≡ state.header.number_of_filters
      → h.number_of_hashes ≡ state.header.number_of_hashes
      → h.number_of_filters_per_user ≡ state.header.number_of_filters_per_user
      → CanRegister (with_header state h count) × Grows state (with_header state h count)
  unfolding with_header
  by_fields state h count can filters hashes per_user =
      let w = can.well_formed in
      (
        record {
          well_formed = record {
            count = w.count ∙ sym filters;
            hashes = rw hashes w.hashes;
            sized = w.sized;
            inside = w.inside;
            apart = w.apart;
          };
          can_look_up = rw (filters, per_user) can.can_look_up;
          counted = rw (filters, per_user) can.counted;
          some_one = can.some_one;
        },
        record {
          hashes = hashes;
          count = filters;
          per_user = per_user;
          filters = refl;
          combinations = refl;
          mmap = refl;
          bits = λ i slice at j. omega arith;
        },
      )

  -- The state with the request and its client counted.
  unfoldable pub started : ℕ → ℕ → State Hll → State Hll
  started timestamp client_hash state = record state {
    header = count_request hll sha256 timestamp state.header;
    client_count = hll.add state.client_count client_hash;
  }

  pub started_lem :
      (timestamp client_hash : ℕ) (state : State Hll)
      → CanRegister state
      → CanRegister (started timestamp client_hash state)
        × Grows state (started timestamp client_hash state)
  unfolding started count_request with_header
  started_lem timestamp client_hash state can =
      elim (Bool-cases (ltb state.header.last_request timestamp)) [
        | inl later ↦ rw later (by_fields state _ _ can refl refl refl)
        | inr earlier ↦ rw earlier (by_fields state _ _ can refl refl refl)
      ]

  pub choose_filters_lem :
      (state : State Hll) (client_hash : ℕ)
      → CanRegister state
      → (indexes : List ℕ) × (choose_filters hll sha256 state client_hash ≡ some indexes)
        × IsSubset 0 state.header.number_of_filters state.header.number_of_filters_per_user indexes
  unfolding choose_filters
  choose_filters_lem state client_hash can =
      let below = mod-lt client_hash can.some_one in
      let (indexes, runs, subset) =
        lookup_combination-IsSubset state.header.number_of_filters
          state.header.number_of_filters_per_user
          (client_hash % state.nr_filters_per_user_combinations) can.can_look_up
          (subst (λ n. client_hash % state.nr_filters_per_user_combinations < n) can.counted
            below) in
      (
        indexes,
        rw (lt→ltb 0 state.nr_filters_per_user_combinations can.some_one, runs, ◌>>=◌, ◌>>◌) refl,
        subset,
      )
