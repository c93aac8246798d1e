-- ===== src/Search/Job/Found.antt =====
-- src/bin/honas_search.c: a host name that is found, or not, in a group.
use honas.Common.{
  ℕ, ◌+◌, ◌/◌, ◌%◌, ◌^◌, ◌≤◌, ◌≡◌, refl, sym, ◌∙◌, Bool, true, false, List, ◌∷◌, some, ltb, leb,
  length, Rising, arith, Bool-cases, inl, inr,
}
use honas.BitSet.{byte_count}
use honas.BitSet.Bytes.{Shows, with_bits-Shows, set_intersection-Shows}
use honas.State.Filters.{check_host_name_lookups}
use honas.JsonPrinter.{write_string}
use honas.State.Register.Text.{c_string}
use honas.Search.{decode_string_hex}
use honas.Search.Job.Printed.{begin_results, pair_printed}
use honas.Search.Context.{SearchContext, Searched}
use honas.Search.Job.{host_name_found, process_hits, process_host_name}
use honas.Search.Job.Group.{
  among, among_all, among-le, counted, none_seen, filters, per_user, IsFilters, IsGroup, IsChecked,
  check_into-IsChecked,
}

module _ {Hll : Type 0} (job : Searched Hll) (flat : Bool) where
  -- What `host_name_found` leaves.
  record IsFound (seen : List (List ℕ)) (hits : List ℕ) (ctx ctx' : SearchContext) : Type 0 where
    flat_results : ctx'.flatten_results ≡ flat
    group_set : IsFilters job flat ctx'.group_filters_hit
    host_name_set : IsFilters job flat ctx'.host_name_filters_hit
    results : ctx'.group_has_results ≡ true
    same_found : ctx'.group_all_host_names_found ≡ ctx.group_all_host_names_found
    all_hit :
        ctx'.group_all_host_names_found ≡ true
        → Shows (filters job flat) (among_all (hits ∷ seen)) ctx'.group_filters_hit
    same_key : ctx'.host_name_key ≡ ctx.host_name_key
    same_state : ctx'.state ≡ ctx.state

  module _ (aligned : job.group_address % 8 ≡ job.host_name_address % 8)
      (fits : job.group_address + byte_count (filters job flat) + 8 ≤ 2 ^ 64) where
    host_name_found-IsFound :
        (seen : List (List ℕ)) (hits : List ℕ) (ctx : SearchContext)
        → IsChecked job flat seen hits ctx
        → (ctx' : SearchContext) × (host_name_found job ctx ≡ some ctx')
          × IsFound seen hits ctx ctx'
    unfolding host_name_found
    host_name_found-IsFound seen hits ctx c = elim (Bool-cases ctx.group_has_results) [
      | inr none_yet ↦
          let (p, prints) = begin_results job.print_unsigned ctx.printer (c.room none_yet) in
          (
            record ctx { printer = p; group_has_results = true },
            rw (none_yet, prints) refl,
            record {
              flat_results = c.flat_results;
              group_set = c.group_set;
              host_name_set = c.host_name_set;
              results = refl;
              same_found = refl;
              all_hit = λ a.
                  let empty =
                    none_seen flat (per_user job flat) seen (sym c.all_found ∙ a)
                      (sym c.some_found ∙ none_yet) in
                  with_bits-Shows (filters job flat) (among hits) _ ctx.group_filters_hit
                    (c.first a none_yet) (λ j. rw empty (omega (arith, among-le hits j)));
              same_key = refl;
              same_state = refl;
            },
          )
      | inl results ↦ elim (Bool-cases ctx.group_all_host_names_found) [
        | inl all_found ↦
            let (group_shows, host_shows) = c.later all_found results in
            let (set, meets, s) =
              set_intersection-Shows (filters job flat) job.group_address job.host_name_address _ _
                ctx.group_filters_hit ctx.host_name_filters_hit group_shows host_shows aligned
                fits in
            let s' =
              with_bits-Shows (filters job flat) _ (among_all (hits ∷ seen)) set s
                (λ j. omega arith) in
            (
              record ctx { group_filters_hit = set },
              rw (results, all_found, meets) refl,
              record {
                flat_results = c.flat_results;
                group_set = record { holds = among_all (hits ∷ seen); shows = s' };
                host_name_set = c.host_name_set;
                results = results;
                same_found = refl;
                all_hit = λ a. s';
                same_key = refl;
                same_state = refl;
              },
            )
        | inr missed ↦ (
          ctx,
          rw (results, missed) refl,
          record {
            flat_results = c.flat_results;
            group_set = c.group_set;
            host_name_set = c.host_name_set;
            results = results;
            same_found = refl;
            all_hit = λ a. absurd (cc (a, missed));
            same_key = refl;
            same_state = refl;
          },
        )
      ]
    ]

    process_hits-IsGroup :
        (seen : List (List ℕ)) (hits name : List ℕ) (ctx : SearchContext)
        → IsChecked job flat seen hits ctx
        → write_string (c_string ctx.host_name_key) ≡ some name
        → (ctx' : SearchContext) × (process_hits job ctx (counted flat (per_user job flat) hits)
            ≡ some ctx')
          × IsGroup job flat (hits ∷ seen) ctx'
          × (ctx'.state ≡ ctx.state)
    unfolding process_hits
    process_hits-IsGroup seen hits name ctx c wrote =
        elim (Bool-cases (ltb 0 (counted flat (per_user job flat) hits))) [
          | inl found ↦
              let (ctx1, runs, f) = host_name_found-IsFound seen hits ctx c in
              let (p, prints) =
                pair_printed job.print_unsigned (c_string ctx1.host_name_key) name
                  (job.print_unsigned (counted flat (per_user job flat) hits)) ctx1.printer
                  (rw f.same_key wrote) in
              (
                record ctx1 { printer = p },
                rw (found, runs, prints) refl,
                record {
                  flat_results = f.flat_results;
                  group_set = f.group_set;
                  host_name_set = f.host_name_set;
                  room = λ none_yet. absurd (cc (none_yet, f.results));
                  all_found = f.same_found ∙ c.all_found ∙ rw found refl;
                  some_found = f.results ∙ rw found refl;
                  all_hit = λ a b. f.all_hit a;
                },
                f.same_state,
              )
          | inr missed ↦ (
            record ctx { group_all_host_names_found = false },
            rw missed refl,
            record {
              flat_results = c.flat_results;
              group_set = c.group_set;
              host_name_set = c.host_name_set;
              room = c.room;
              all_found = rw missed refl;
              some_found = c.some_found ∙ rw missed refl;
              all_hit = λ a b. absurd (cc a);
            },
            refl,
          )
        ]

    pub process_host_name-IsGroup :
        (seen : List (List ℕ)) (hits name text bytes : List ℕ) (ctx : SearchContext)
        → IsGroup job flat seen ctx
        → length text ≤ 1024
        → decode_string_hex text (length text / 2) ≡ some bytes
        → check_host_name_lookups job.honas_state bytes ≡ some (length hits, hits)
        → Rising 0 (filters job flat) hits
        → write_string (c_string ctx.host_name_key) ≡ some name
        → (ctx' : SearchContext) × (process_host_name job ctx text ≡ some ctx')
          × IsGroup job flat (hits ∷ seen) ctx'
          × (ctx'.state ≡ ctx.state)
    unfolding process_host_name
    process_host_name-IsGroup seen hits name text bytes ctx g short decoded found rising wrote =
        let fits_buffer : leb (length text) 1024 ≡ true = ground (arith, short) in
        let (ctx1, checks, c, key, same) =
          check_into-IsChecked job flat seen hits ctx bytes g found rising in
        let (ctx2, runs, g2, same2) = process_hits-IsGroup seen hits name ctx1 c (rw key wrote) in
        (
          ctx2,
          rw (process_host_name, fits_buffer, decoded, checks, g.flat_results) runs,
          g2,
          same2 ∙ same,
        )
