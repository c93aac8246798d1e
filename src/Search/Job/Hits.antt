-- ===== src/Search/Job/Hits.antt =====
-- src/bin/honas_search.c: the callbacks for a group of host names, from its begin to its end.
use honas.Common.{
  ℕ, ◌+◌, ◌/◌, ◌%◌, ◌^◌, ◌≤◌, ◌<◌, ◌≡◌, refl, ◌∙◌, Bool, true, false, List, [], ◌∷◌, some, length,
  All, Rising, codes, ◌>>=◌,
}
use honas.BitSet.{byte_count}
use honas.State.Filters.{check_host_name_lookups}
use honas.State.Register.Text.{c_string}
use honas.JsonPrinter.{write_string}
use honas.Search.{decode_string_hex}
use honas.Search.Context.{
  SearchState, SearchContext, Searched, Event, text_value, map_key, start_map, end_map,
  groups_array, group, host_name_map, host_name_map_expect_value,
}
use honas.Search.Job.{
  process_host_name, search_spec_map_key, search_spec_string, search_spec_start_map,
  search_spec_end_map, handle, run,
}
use honas.Search.Job.Group.{IsGroup, IsFilters}
use honas.Search.Job.Found.{process_host_name-IsGroup}

-- A host name of a job: its key with what is printed for it, and the text of its digest with the
-- digest and the filters that it hits.
pub record HostName : Type 0 where
  pub key : List ℕ
  pub name : List ℕ
  pub text : List ℕ
  pub digest : List ℕ
  pub hits : List ℕ

abbrev pub host_name_events : List HostName → List Event → List Event
host_name_events [] rest = rest
host_name_events (h ∷ names) rest = map_key h.key ∷ text_value h.text ∷ host_name_events names rest

-- The hits of the host names, the last one first, before those of `seen`.
abbrev pub hits_of : List HostName → List (List ℕ) → List (List ℕ)
hits_of [] seen = seen
hits_of (h ∷ names) seen = hits_of names (h.hits ∷ seen)

module _ {Hll : Type 0} (job : Searched Hll) where
  pub record IsHostName (h : HostName) : Type 0 where
    pub printable : write_string (c_string h.key) ≡ some h.name
    pub short : length h.text ≤ 1024
    pub decoded : decode_string_hex h.text (length h.text / 2) ≡ some h.digest
    pub checked : check_host_name_lookups job.honas_state h.digest ≡ some (length h.hits, h.hits)
    pub rising : Rising 0 job.honas_state.header.number_of_filters h.hits

  handle_key :
      (ctx : SearchContext) (key : List ℕ)
      → ctx.state ≡ host_name_map
      → handle job (map_key key) ctx
        ≡ some (true, record ctx { state = host_name_map_expect_value; host_name_key = key })
  unfolding handle search_spec_map_key
  handle_key ctx key e = rw (search_spec_map_key, e) refl

  handle_text :
      (ctx : SearchContext) (text : List ℕ)
      → ctx.state ≡ host_name_map_expect_value
      → handle job (text_value text) ctx ≡ (
          process_host_name job (record ctx { state = host_name_map }) text >>= λ ctx'.
          some (true, ctx'))
  unfolding handle search_spec_string
  handle_text ctx text e = rw (search_spec_string, e) refl

  handle_end :
      (ctx : SearchContext)
      → ctx.state ≡ host_name_map
      → handle job end_map ctx ≡ some (true, record ctx { state = group })
  unfolding handle search_spec_end_map
  handle_end ctx e = rw (search_spec_end_map, e) refl

  handle_begin :
      (ctx : SearchContext)
      → ctx.state ≡ groups_array
      → handle job start_map ctx
        ≡ some (
          true,
          record ctx {
            state = group;
            group_id = 0;
            group_has_results = false;
            group_all_host_names_found = true;
          },
        )
  unfolding handle search_spec_start_map
  handle_begin ctx e = rw (search_spec_start_map, e) refl

  module _ (flat : Bool) where
    -- The key and the state of the parser do not matter.
    rekeyed :
        (seen : List (List ℕ)) (ctx : SearchContext) (s : SearchState) (key : List ℕ)
        → IsGroup job flat seen ctx
        → IsGroup job flat seen (record ctx { state = s; host_name_key = key })
    rekeyed seen ctx s key g = record {
      flat_results = g.flat_results;
      group_set = g.group_set;
      host_name_set = g.host_name_set;
      room = g.room;
      all_found = g.all_found;
      some_found = g.some_found;
      all_hit = g.all_hit;
    }

    module _ (aligned : job.group_address % 8 ≡ job.host_name_address % 8)
        (fits : job.group_address + byte_count job.honas_state.header.number_of_filters + 8
          ≤ 2 ^ 64) where
      host_names_run :
          (names : List HostName) (seen : List (List ℕ)) (ctx : SearchContext) (rest : List Event)
          → All (IsHostName) names
          → IsGroup job flat seen ctx
          → ctx.state ≡ host_name_map
          → (ctx' : SearchContext) × (run job (host_name_events names rest) ctx ≡ run job rest ctx')
            × IsGroup job flat (hits_of names seen) ctx'
            × (ctx'.state ≡ host_name_map)
      unfolding run
      host_names_run [] seen ctx rest p g e = (ctx, refl, g, e)
      host_names_run (h ∷ names) seen ctx rest p g e =
          let keyed : SearchContext = record ctx { state = host_name_map; host_name_key = h.key } in
          let (ctx1, runs, g1, same) =
            process_host_name-IsGroup job flat aligned fits seen h.hits h.name h.text h.digest keyed
              (rekeyed seen ctx host_name_map h.key g) p.0.short p.0.decoded p.0.checked p.0.rising
              p.0.printable in
          let (ctx2, runs2, g2, e2) = host_names_run names (h.hits ∷ seen) ctx1 rest p.1 g1 same in
          (
            ctx2,
            rw
                (
                  run,
                  handle_key ctx h.key e,
                  handle_text
                      (record ctx { state = host_name_map_expect_value; host_name_key = h.key })
                      h.text refl,
                  runs,
                )
                runs2,
            g2,
            e2,
          )

      -- For the callbacks of one group with its host names, each with a key that can be printed, a
      -- text of at most 1024 bytes that decodes to a digest, and the filters that the check reports
      -- for that digest, in a context that waits for a group, has room for three more levels and
      -- sets of filters with in-range bytes, with both sets aligned the same and inside memory:
      -- they all succeed. Afterwards it is known whether every one of the host names is found and
      -- whether some one is; where every one is, and there is one, the set of the group shows
      -- exactly the filters that all of them hit.
      pub group_run :
          (names : List HostName) (ctx : SearchContext)
          → All (IsHostName) names
          → ctx.state ≡ groups_array
          → ctx.flatten_results ≡ flat
          → IsFilters job flat ctx.group_filters_hit
          → IsFilters job flat ctx.host_name_filters_hit
          → ctx.printer.depth < 29
          → (ctx' : SearchContext) × (run job
                (start_map
                  ∷ map_key (codes "hostnames")
                  ∷ start_map
                  ∷ host_name_events names (end_map ∷ []))
                ctx
              ≡ some ctx')
            × IsGroup job flat (hits_of names []) ctx'
            × (ctx'.state ≡ group)
      unfolding run handle search_spec_start_map search_spec_map_key
      group_run names ctx p e f s t room =
          let begun : SearchContext = record ctx {
            state = host_name_map;
            group_id = 0;
            group_has_results = false;
            group_all_host_names_found = true;
          } in
          let g : IsGroup job flat [] begun = record {
            flat_results = f;
            group_set = s;
            host_name_set = t;
            room = λ none_yet. room;
            all_found = refl;
            some_found = refl;
            all_hit = λ a b. absurd (cc b);
          } in
          let (ctx1, runs, g1, e1) = host_names_run names [] begun (end_map ∷ []) p g refl in
          (
            record ctx1 { state = group },
            rw (run, handle_begin ctx e) (runs ∙ rw (run, handle_end ctx1 e1) refl),
            rekeyed (hits_of names []) ctx1 group ctx1.host_name_key g1,
            refl,
          )
