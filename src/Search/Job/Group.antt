-- ===== src/Search/Job/Group.antt =====
-- src/bin/honas_search.c: the filters that are hit by all host names of a group.
use honas.Common.{
  ℕ, suc, ◌≤◌, ◌<◌, ◌≡◌, refl, Bool, true, false, ◌&&◌, ◌||◌, List, [], ◌∷◌, some, ltb, ◌==◌,
  if◌then◌else◌, min, max, length, Rising, arith, Bool-cases, inl, inr,
}
use honas.BitSet.{BitSet}
use honas.BitSet.Bytes.{Shows, with_bits-Shows, clear_all-Shows, set_index-Shows}
use honas.State.Filters.{check_host_name_lookups}
use honas.Search.Context.{SearchContext, Searched, set_hits}
use honas.Search.Job.{check_into}

-- 1 where a filter is in the list.
abbrev pub among : List ℕ → ℕ → ℕ
among [] j = 0
among (i ∷ hits) j = if i == j then 1 else among hits j

-- 1 where a filter is in all of the lists.
abbrev pub among_all : List (List ℕ) → ℕ → ℕ
among_all [] j = 1
among_all (hits ∷ seen) j = min (among hits j) (among_all seen j)

pub among-le : (hits : List ℕ) (j : ℕ) → among hits j ≤ 1
among-le [] j = omega arith
among-le (i ∷ hits) j = ground (arith, among-le hits j)

set_hits-Shows :
    (n lo : ℕ) (f : ℕ → ℕ) (set : BitSet) (hits : List ℕ)
    → Shows n f set
    → ((j : ℕ) → f j ≤ 1)
    → Rising lo n hits
    → (set' : BitSet) × (set_hits set hits ≡ some set')
      × Shows n (λ j. max (among hits j) (f j)) set'
unfolding set_hits
set_hits-Shows n lo f set [] s b r = (set, refl, with_bits-Shows n f _ set s (λ j. omega arith))
set_hits-Shows n lo f set (i ∷ hits) s b r =
    let (set1, runs1, s1) = set_index-Shows n f set s i r.1 in
    let (set2, runs2, s2) =
      set_hits-Shows n (suc i) _ set1 hits s1 (λ j. ground (arith, b j)) r.2 in
    (
      set2,
      rw (set_hits, runs1) runs2,
      with_bits-Shows n _ _ set2 s2 (λ j. ground (arith, b j, among-le hits j)),
    )

-- The hits of a host name that are counted.
abbrev pub counted : (flat : Bool) → (per_user : ℕ) → List ℕ → ℕ
counted flat per_user hits =
    if flat then (if ltb (length hits) per_user then 0 else 1) else length hits

module _ (flat : Bool) (per_user : ℕ) where
  -- Whether every one of the host names is found, and whether some one is.
  abbrev pub every : List (List ℕ) → Bool
  every [] = true
  every (hits ∷ seen) = ltb 0 (counted flat per_user hits) && every seen

  abbrev pub some_one : List (List ℕ) → Bool
  some_one [] = false
  some_one (hits ∷ seen) = ltb 0 (counted flat per_user hits) || some_one seen

  pub none_seen : (seen : List (List ℕ)) → every seen ≡ true → some_one seen ≡ false → seen ≡ []
  none_seen [] a b = refl
  none_seen (hits ∷ seen) a b = absurd (ground (arith, a, b))

module _ {Hll : Type 0} (job : Searched Hll) (flat : Bool) where
  abbrev pub filters : ℕ
  filters = job.honas_state.header.number_of_filters

  abbrev pub per_user : ℕ
  per_user = job.honas_state.header.number_of_filters_per_user

  -- A set of filters, whatever it holds.
  pub record IsFilters (set : BitSet) : Type 0 where
    pub holds : ℕ → ℕ
    pub shows : Shows filters holds set

  -- What holds of a group behind the host names whose hits are `seen`.
  pub record IsGroup (seen : List (List ℕ)) (ctx : SearchContext) : Type 0 where
    pub flat_results : ctx.flatten_results ≡ flat
    pub group_set : IsFilters ctx.group_filters_hit
    pub host_name_set : IsFilters ctx.host_name_filters_hit
    pub room : ctx.group_has_results ≡ false → ctx.printer.depth < 29
    pub all_found : ctx.group_all_host_names_found ≡ every flat per_user seen
    pub some_found : ctx.group_has_results ≡ some_one flat per_user seen
    pub all_hit :
        ctx.group_all_host_names_found ≡ true
        → ctx.group_has_results ≡ true
        → Shows filters (among_all seen) ctx.group_filters_hit

  -- What holds where the filters of the next host name have been looked up.
  pub record IsChecked (seen : List (List ℕ)) (hits : List ℕ) (ctx : SearchContext) : Type 0 where
    pub flat_results : ctx.flatten_results ≡ flat
    pub group_set : IsFilters ctx.group_filters_hit
    pub host_name_set : IsFilters ctx.host_name_filters_hit
    pub room : ctx.group_has_results ≡ false → ctx.printer.depth < 29
    pub all_found : ctx.group_all_host_names_found ≡ every flat per_user seen
    pub some_found : ctx.group_has_results ≡ some_one flat per_user seen
    pub first :
        ctx.group_all_host_names_found ≡ true
        → ctx.group_has_results ≡ false
        → Shows filters (among hits) ctx.group_filters_hit
    pub later :
        ctx.group_all_host_names_found ≡ true
        → ctx.group_has_results ≡ true
        → Shows filters (among_all seen) ctx.group_filters_hit
          × Shows filters (among hits) ctx.host_name_filters_hit

  pub check_into-IsChecked :
      (seen : List (List ℕ)) (hits : List ℕ) (ctx : SearchContext) (bytes : List ℕ)
      → IsGroup seen ctx
      → check_host_name_lookups job.honas_state bytes ≡ some (length hits, hits)
      → Rising 0 filters hits
      → (ctx' : SearchContext) × (check_into job ctx bytes ≡ some (length hits, ctx'))
        × IsChecked seen hits ctx'
        × (ctx'.host_name_key ≡ ctx.host_name_key)
        × (ctx'.state ≡ ctx.state)
  unfolding check_into
  check_into-IsChecked seen hits ctx bytes g found rising =
      elim (Bool-cases ctx.group_all_host_names_found) [
        | inr missed ↦ (
          ctx,
          rw (missed, found) refl,
          record {
            flat_results = g.flat_results;
            group_set = g.group_set;
            host_name_set = g.host_name_set;
            room = g.room;
            all_found = g.all_found;
            some_found = g.some_found;
            first = λ a b. absurd (cc (a, missed));
            later = λ a b. absurd (cc (a, missed));
          },
          refl,
          refl,
        )
        | inl all_found ↦ elim (Bool-cases ctx.group_has_results) [
          | inl results ↦
              let (empty, cleared, e) =
                clear_all-Shows filters g.host_name_set.holds ctx.host_name_filters_hit
                  g.host_name_set.shows in
              let (set, added, s) =
                set_hits-Shows filters 0 (λ j. 0) empty hits e (λ j. omega arith) rising in
              let s' = with_bits-Shows filters _ (among hits) set s (λ j. omega arith) in
              (
                record ctx { host_name_filters_hit = set },
                rw (all_found, results, cleared, found, added) refl,
                record {
                  flat_results = g.flat_results;
                  group_set = g.group_set;
                  host_name_set = record { holds = among hits; shows = s' };
                  room = g.room;
                  all_found = g.all_found;
                  some_found = g.some_found;
                  first = λ a b. absurd (cc (b, results));
                  later = λ a b. (g.all_hit a b, s');
                },
                refl,
                refl,
              )
          | inr no_results ↦
              let (empty, cleared, e) =
                clear_all-Shows filters g.group_set.holds ctx.group_filters_hit g.group_set.shows in
              let (set, added, s) =
                set_hits-Shows filters 0 (λ j. 0) empty hits e (λ j. omega arith) rising in
              let s' = with_bits-Shows filters _ (among hits) set s (λ j. omega arith) in
              (
                record ctx { group_filters_hit = set },
                rw (all_found, no_results, cleared, found, added) refl,
                record {
                  flat_results = g.flat_results;
                  group_set = record { holds = among hits; shows = s' };
                  host_name_set = g.host_name_set;
                  room = g.room;
                  all_found = g.all_found;
                  some_found = g.some_found;
                  first = λ a b. s';
                  later = λ a b. absurd (cc (b, no_results));
                },
                refl,
                refl,
              )
        ]
      ]
