-- ===== src/State/Filters/Check.antt =====
-- `honas_state_check_host_name_lookups` counts exactly the filters in which the hash is found.
use honas.Common.{
  ℕ, zero, suc, ◌+◌, ◌<◌, ◌≤◌, ◌≡◌, refl, sym, ap, ◌∙◌, arith, Bool, List, [], ◌∷◌, inl, inr, some,
  length, get_elem?_inside, ◌>>=◌, All, Rising, Rising-lower, Bool-cases,
}
use mathlib.Core.Path.{subst}
use native.Mathlib.Decide.{ℕ_discrete}
use honas.Bloom.Membership.{is_set_total}
use honas.State.{State}
use honas.State.Filters.{filter_slice, hit_in_filter, check_loop, check_host_name_lookups}
use honas.State.Filters.Growth.{
  IsDigest, IsWellFormed, Found, transform_lem, contents, CanUse-contents,
}

-- A list that starts at `i` or later, against a bound for those that start later.
module _ (P : ℕ → Type 0) (i hi bound : ℕ)
    (later : (ys : List ℕ) → Rising (suc i) hi ys → All P ys → length ys ≤ bound) where
  with_first : (xs : List ℕ) → Rising i hi xs → All P xs → length xs ≤ suc bound
  with_first [] r all = omega arith
  with_first (x ∷ xs) r all = elim (ℕ_discrete x i) [
    | yes e ↦ omega (arith, later xs (rw (ap suc e) at r.2) all.1)
    | no ne ↦ omega (arith, later (x ∷ xs) (omega arith, r.1, r.2) all)
  ]

  without_first : ¬ P i → (xs : List ℕ) → Rising i hi xs → All P xs → length xs ≤ bound
  without_first miss [] r all = later [] tt tt
  without_first miss (x ∷ xs) r all = elim (ℕ_discrete x i) [
    | yes e ↦ absurd (miss (subst P e all.0))
    | no ne ↦ later (x ∷ xs) (omega arith, r.1, r.2) all
  ]

module _ {Hll : Type 0} (state : State Hll) (hash : List ℕ) (w : IsWellFormed state)
    (d : IsDigest hash) where
  -- Every filter answers.
  hit_total :
      (i : ℕ)
      → i < state.header.number_of_filters
      → (b : Bool) × (hit_in_filter state i hash ≡ some b)
  unfolding hit_in_filter filter_slice
  hit_total i below =
      let (slice, at) = get_elem?_inside state.filters i (rw w.count below) in
      let (hash', turns, d') = transform_lem i hash d in
      let (b, answers) =
        is_set_total (contents state slice) hash' state.header.number_of_hashes
          (CanUse-contents state i slice hash' w at d') in
      (b, rw (turns, at, ◌>>=◌) answers)

  -- What the loop from filter `i` collects.
  record Collects (rounds i : ℕ) (hits : List ℕ) : Type 0 where
    runs : check_loop state rounds i hash ≡ some hits
    rising : Rising i (i + rounds) hits
    sound : All (Found state hash) hits
    enough :
        (indexes : List ℕ)
        → Rising i (i + rounds) indexes
        → All (Found state hash) indexes
        → length indexes ≤ length hits

  check_loop-Collects :
      (rounds i : ℕ)
      → i + rounds ≤ state.header.number_of_filters
      → (hits : List ℕ) × Collects rounds i hits
  unfolding check_loop
  check_loop-Collects zero i fits = (
    [],
    record {
      runs = refl;
      rising = tt;
      sound = tt;
      enough = λ xs r all.
          elim xs as (λ xs. Rising i (i + 0) xs → length xs ≤ 0) [
            | [] ↦ λ r. omega arith
            | x ∷ rest ↦ λ r. absurd (omega arith)
          ]
            r;
    },
  )
  check_loop-Collects (suc rounds) i fits =
      let (b, hit) = hit_total i (omega arith) in
      let (rest, ih) = check_loop-Collects rounds (suc i) (omega arith) in
      let top : suc i + rounds ≡ i + suc rounds = omega arith in
      let rising : Rising (suc i) (i + suc rounds) rest = rw top at ih.rising in
      let later : (ys : List ℕ)
          → Rising (suc i) (i + suc rounds) ys
          → All (Found state hash) ys
          → length ys ≤ length rest =
        λ ys r. ih.enough ys (rw top r) in
      elim (Bool-cases b) [
        | inl yes_hit ↦ (
          i ∷ rest,
          record {
            runs = rw (hit, ih.runs, yes_hit, ◌>>=◌) refl;
            rising = (omega arith, omega arith, rising);
            sound = (rw (hit, yes_hit) refl, ih.sound);
            enough = with_first (Found state hash) i (i + suc rounds) (length rest) later;
          },
        )
        | inr no_hit ↦ (
          rest,
          record {
            runs = rw (hit, ih.runs, no_hit, ◌>>=◌) refl;
            rising = Rising-lower i (i + suc rounds) rest rising;
            sound = ih.sound;
            enough =
                without_first (Found state hash) i (i + suc rounds) (length rest) later
                  (λ found. cc (sym hit ∙ found));
          },
        )
      ]

  -- For a digest and a well-formed state: the check returns the filters of the state in which the
  -- digest is found, in rising order and with their number, and no set of filters in which it is
  -- found is larger.
  pub check_host_name_lookups_lem :
      (hits : List ℕ) × (check_host_name_lookups state hash ≡ some (length hits, hits))
      × Rising 0 state.header.number_of_filters hits
      × All (Found state hash) hits
      × ((indexes : List ℕ)
          → Rising 0 state.header.number_of_filters indexes
          → All (Found state hash) indexes
          → length indexes ≤ length hits)
  unfolding check_host_name_lookups
  check_host_name_lookups_lem =
      let (hits, c) = check_loop-Collects state.header.number_of_filters 0 (omega arith) in
      let top : 0 + state.header.number_of_filters ≡ state.header.number_of_filters = omega arith in
      (
        hits,
        rw (c.runs, ◌>>=◌) refl,
        rw top at c.rising,
        c.sound,
        λ indexes r. c.enough indexes (rw top r),
      )
