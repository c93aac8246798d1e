-- ===== src/State/Register/Recorded/Whole.antt =====
-- The loop over the labels of a name, and all that is done for other than PTR records.
use mathlib.Core.Path.{subst}
use honas.Common.{
  ℕ, true, zero, suc, ◌<◌, ◌≡◌, refl, ap, arith, List, [], ◌∷◌, ◌++◌, inl, inr, Option, some,
  length, >>=-eq-some, ◌>>=◌, Option-cases, lt→ltb,
}
use honas.State.{State, Counting}
use honas.State.Filters.Growth.{IsDigest, Grows, Grows-refl, Grows-trans}
use honas.State.Register.Text.{c_string, memchr_dot}
use honas.State.Register.Names.{
  labels_of, parts_behind_dots, second_level, memchr_dot-none, memchr_dot-some,
}
use honas.State.Register.{Run, labels_loop, record_labels, entity_label, count_query}
use honas.State.Register.Recorded.{
  IsReady, IsReady-Grows, entity_names, label_names, sld_after, IsRecorded, InState, Records,
  InState-Grows, record_name-Records, record_with_entity-Records, IsRecorded-append,
  IsRecorded-Grows,
}

sld_after-next :
    (part next sld_buf : List ℕ) (behind : List (List ℕ))
    → sld_after next (c_string part) behind ≡ sld_after part sld_buf (next ∷ behind)
unfolding sld_after second_level
sld_after-next part next sld_buf [] = refl
sld_after-next part next sld_buf (after ∷ rest) = refl

label_names-cons :
    (entity_prefix : Option (List ℕ)) (label : List ℕ) (labels names : List (List ℕ))
    → label_names entity_prefix (label ∷ labels) ≡ some names
    → (with_prefix rest : List (List ℕ)) × (entity_names entity_label entity_prefix label
        ≡ some with_prefix)
      × (label_names entity_prefix labels ≡ some rest)
      × (with_prefix ++ label ∷ rest ≡ names)
unfolding label_names
label_names-cons entity_prefix label labels names e =
    let (with_prefix, composed, rest_eq) =
      >>=-eq-some (entity_names entity_label entity_prefix label) _ e in
    let (rest, rest_names, last_eq) = >>=-eq-some (label_names entity_prefix labels) _ rest_eq in
    (with_prefix, rest, composed, rest_names, cc last_eq)

module _ {Hll : Type 0} (hll : Counting Hll) (sha256 : List ℕ → List ℕ)
    (digest : (name : List ℕ) → IsDigest (sha256 name)) where
  abbrev Recorded : State Hll → List ℕ → List (List ℕ) → Type 0
  Recorded = IsRecorded hll sha256 digest

  pub labels_loop_lem :
      (fuel : ℕ) (indexes : List ℕ) (entity_prefix : Option (List ℕ)) (part sld_buf : List ℕ)
      (names : List (List ℕ)) (run : Run Hll)
      → IsReady hll sha256 digest run.state
      → InState hll sha256 digest run.state indexes
      → length part < fuel
      → length part < 256
      → label_names entity_prefix (labels_of part) ≡ some names
      → (after : Run Hll) × (labels_loop hll sha256 fuel indexes entity_prefix part sld_buf run
          ≡ some (after, sld_after part sld_buf (parts_behind_dots part)))
        × Grows run.state after.state
        × (hll.registers_owned after.state.host_name_count ≡ true)
        × Recorded after.state indexes names
  unfolding labels_loop
  labels_loop_lem zero indexes entity_prefix part sld_buf names run w below enough short e =
      absurd (omega arith)
  labels_loop_lem (suc fuel) indexes entity_prefix part sld_buf names run w below enough short e =
      elim (Option-cases (memchr_dot part)) [
        | inl no_dot ↦
            let (labels, behind) = memchr_dot-none part no_dot in
            let empty : [] ≡ names =
              unfold label_names in
              (let e' : label_names entity_prefix [] ≡ some names = rw labels at e in cc e') in
            (
              run,
              rw (labels_loop, no_dot)
                  (ap (λ s. some (run, s)) (rw behind (unfold sld_after in refl))),
              Grows-refl run.state,
              w.owns,
              subst (Recorded run.state indexes) empty tt,
            )
        | inr ((label, next), dot) ↦
            let (labels, behind, shorter) = memchr_dot-some part label next dot in
            let (with_prefix, rest, composed, rest_names, whole) =
              label_names-cons entity_prefix label (labels_of next) names (rw labels at e) in
            let r1 =
              record_with_entity-Records hll sha256 digest entity_label indexes entity_prefix label
                with_prefix run w below composed in
            let w1 = IsReady-Grows hll sha256 digest r1.grows r1.owns w in
            let below1 = InState-Grows hll sha256 digest indexes r1.grows below in
            let r2 = record_name-Records hll sha256 digest indexes label r1.after w1 below1 in
            let w2 = IsReady-Grows hll sha256 digest r2.grows r2.owns w1 in
            let below2 = InState-Grows hll sha256 digest indexes r2.grows below1 in
            let (after, runs, grows, owns, recorded) =
              labels_loop_lem fuel indexes entity_prefix next (c_string part) rest r2.after w2
                below2 (omega arith) (omega arith) rest_names in
            (
              after,
              rw
                  (
                    labels_loop,
                    dot,
                    r1.runs,
                    r2.runs,
                    lt→ltb (length part) 256 short,
                    runs,
                    behind,
                    ◌>>=◌,
                  )
                  (ap (λ s. some (after, s))
                    (sld_after-next part next sld_buf (parts_behind_dots next))),
              Grows-trans r1.grows (Grows-trans r2.grows grows),
              owns,
              subst (Recorded after.state indexes) whole (
                  IsRecorded-append hll sha256 digest after.state indexes with_prefix (label ∷ rest)
                    (IsRecorded-Grows hll sha256 digest indexes with_prefix w1.well_formed below1
                      (Grows-trans r2.grows grows) r1.recorded)
                    (
                      (IsRecorded-Grows hll sha256 digest indexes (label ∷ []) w2.well_formed below2
                          grows r2.recorded).0,
                      recorded,
                    )),
            )
      ]

  -- The labels, the last two labels, and the count of queries.
  pub record_labels-Records :
      (indexes : List ℕ) (entity_prefix : Option (List ℕ)) (host_name : List ℕ)
      (names : List (List ℕ)) (run : Run Hll)
      → IsReady hll sha256 digest run.state
      → InState hll sha256 digest run.state indexes
      → length host_name < 256
      → label_names entity_prefix (labels_of host_name) ≡ some names
      → Records hll sha256 digest indexes
          (names ++ sld_after host_name [] (parts_behind_dots host_name) ∷ [])
          run
          (record_labels hll sha256 indexes entity_prefix host_name run)
  unfolding record_labels
  record_labels-Records indexes entity_prefix host_name names run w below short e =
      let second = sld_after host_name [] (parts_behind_dots host_name) in
      let (mid, runs, grows, owns, recorded) =
        labels_loop_lem (suc (length host_name)) indexes entity_prefix host_name [] names run w
          below (omega arith) short e in
      let w1 = IsReady-Grows hll sha256 digest grows owns w in
      let below1 = InState-Grows hll sha256 digest indexes grows below in
      let last = record_name-Records hll sha256 digest indexes second mid w1 below1 in
      record {
        after = record (last.after) { dry_run = count_query hll sha256 last.after.dry_run };
        runs = rw (runs, last.runs, ◌>>=◌) refl;
        grows = Grows-trans grows last.grows;
        owns = last.owns;
        recorded =
            IsRecorded-append hll sha256 digest last.after.state indexes names (second ∷ [])
              (IsRecorded-Grows hll sha256 digest indexes names w1.well_formed below1 last.grows
                recorded)
              last.recorded;
      }
