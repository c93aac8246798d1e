-- ===== src/Search/Job.antt =====
-- src/bin/honas_search.c: a search job, as the callbacks of a JSON parser that print the result. The
-- order of the callbacks is an argument. `none` is a failed assertion, `log_die`, or a write out of
-- bounds; the state of a context of which the job is rejected is lost.
pub mod Printed
pub mod Group
pub mod Found
pub mod Hits
mod Examples
use honas.Common.{
  ℕ, zero, suc, ◌+◌, ◌*◌, ◌/◌, ◌≡◌, Bool, true, false, not, List, [], ◌∷◌, ◌++◌, Option, none, some,
  ltb, leb, if◌then◌else◌, length, codes, same_bytes, u64, ◌^◌, ◌-◌, require, ◌>>=◌, ◌>>◌, ℤ, pos,
  negsuc,
}
use honas.BitSet.{BitSet, clear_all, set_index, set_intersection}
use honas.BitSet
use honas.State.{State}
use honas.State.Filters.{check_host_name_lookups}
use honas.State.Encoding.{u32_at}
use honas.State.Register.Text.{c_string}
use honas.JsonPrinter.{
  Printer, array_begin, array_end, object_begin, object_end, object_key, write_string,
  write_boolean, call, object_pair, json_printer_begin, json_printer_end,
}
use honas.Search.{decode_string_hex}
use honas.Search.Context.{
  SearchState, init, search_spec, search_spec_expect_groups_array, groups_array, group,
  group_expect_id, group_expect_host_name_map, host_name_map, host_name_map_expect_value,
  SearchContext, to_uint64, Event, integer, text_value, map_key, start_map, end_map, start_array,
  end_array, set_hits, Searched, pair_uint, pair_string, pair_boolean, print_filters,
  add_general_information,
}

module _ {Hll : Type 0} (job : Searched Hll) where
  abbrev pub flattened : SearchContext → ℕ → ℕ
  flattened ctx hits =
      if ctx.flatten_results
      then (if ltb hits job.honas_state.header.number_of_filters_per_user then 0 else 1)
      else hits

  -- Where the filters that are hit go: nowhere behind a host name that was not found, else to the
  -- set of the host name or, for the first one, of the group.
  unfoldable pub check_into : SearchContext → List ℕ → Option (ℕ × SearchContext)
  check_into ctx bytes =
      if not ctx.group_all_host_names_found
      then (check_host_name_lookups job.honas_state bytes >>= λ (count, hits). some (count, ctx))
      else if ctx.group_has_results
      then (clear_all ctx.host_name_filters_hit >>= λ empty.
          check_host_name_lookups job.honas_state bytes >>= λ (count, hits).
          set_hits empty hits >>= λ set. some (count, record ctx { host_name_filters_hit = set }))
      else (clear_all ctx.group_filters_hit >>= λ empty.
          check_host_name_lookups job.honas_state bytes >>= λ (count, hits).
          set_hits empty hits >>= λ set. some (count, record ctx { group_filters_hit = set }))

  -- What happens to a group at a host name that is found.
  unfoldable pub host_name_found : SearchContext → Option SearchContext
  host_name_found ctx =
      if not ctx.group_has_results
      then (call job.print_unsigned object_begin ctx.printer
          >>= call job.print_unsigned (object_key (codes "hostnames"))
          >>= call job.print_unsigned object_begin
          >>= λ p. some (record ctx { printer = p; group_has_results = true }))
      else if ctx.group_all_host_names_found
      then (set_intersection job.group_address job.host_name_address ctx.group_filters_hit
            ctx.host_name_filters_hit
          >>= λ set. some (record ctx { group_filters_hit = set }))
      else some ctx

  unfoldable pub process_hits : SearchContext → (hits : ℕ) → Option SearchContext
  process_hits ctx hits =
      if ltb 0 hits
      then (host_name_found ctx >>= λ ctx'.
          pair_uint job (c_string ctx'.host_name_key) hits ctx'.printer >>= λ p.
          some (record ctx' { printer = p }))
      else some (record ctx { group_all_host_names_found = false })

  -- A digest that cannot be decoded is passed over. `debug_msg` has 1024 bytes.
  unfoldable pub process_host_name : SearchContext → List ℕ → Option SearchContext
  process_host_name ctx text =
      require (leb (length text) 1024) >> elim (decode_string_hex text (length text / 2)) [
        | none ↦ some ctx
        | some bytes ↦
            check_into ctx bytes >>= λ (hits, ctx'). process_hits ctx' (flattened ctx hits)
      ]

  -- The callbacks. `some (false, ctx)` is the result 0, at which the parser stops.
  abbrev pub go_on : SearchState → SearchContext → Option (Bool × SearchContext)
  go_on s ctx = some (true, record ctx { state = s })

  abbrev pub unexpected : SearchContext → Option (Bool × SearchContext)
  unexpected ctx = some (false, ctx)

  abbrev pub printed : SearchState → SearchContext → Option Printer → Option (Bool × SearchContext)
  printed s ctx p = p >>= λ p'. go_on s (record ctx { printer = p' })

  unfoldable pub search_spec_integer : SearchContext → (value : ℤ) → Option (Bool × SearchContext)
  search_spec_integer ctx value = elim ctx.state [
    | group_expect_id ↦ go_on group (record ctx { group_id = to_uint64 value })
    | _ ↦ unexpected ctx
  ]

  unfoldable pub search_spec_string : SearchContext → List ℕ → Option (Bool × SearchContext)
  search_spec_string ctx text = elim ctx.state [
    | host_name_map_expect_value ↦
        process_host_name (record ctx { state = host_name_map }) text >>= λ ctx'. some (true, ctx')
    | _ ↦ unexpected ctx
  ]

  unfoldable pub search_spec_map_key : SearchContext → List ℕ → Option (Bool × SearchContext)
  search_spec_map_key ctx key = elim ctx.state [
    | search_spec ↦
        if same_bytes key (codes "groups")
        then go_on search_spec_expect_groups_array ctx
        else some (true, ctx)
    | group ↦
        if same_bytes key (codes "id")
        then go_on group_expect_id ctx
        else if same_bytes key (codes "hostnames")
        then go_on group_expect_host_name_map ctx
        else some (true, ctx)
    | host_name_map ↦ go_on host_name_map_expect_value (record ctx { host_name_key = key })
    | _ ↦ unexpected ctx
  ]

  unfoldable pub search_spec_start_map : SearchContext → Option (Bool × SearchContext)
  search_spec_start_map ctx = elim ctx.state [
    | init ↦
        printed search_spec ctx
          (call job.print_unsigned object_begin ctx.printer >>= add_general_information job)
    | groups_array ↦
        go_on group (record ctx {
          group_id = 0;
          group_has_results = false;
          group_all_host_names_found = true;
        })
    | group_expect_host_name_map ↦ go_on host_name_map ctx
    | _ ↦ unexpected ctx
  ]

  -- What is printed at the end of a group with results.
  unfoldable pub end_group : SearchContext → Option Printer
  end_group ctx =
      call job.print_unsigned object_end ctx.printer
      >>= pair_uint job (codes "id") ctx.group_id
      >>= λ p. BitSet.popcount job.group_address ctx.group_filters_hit >>= λ hits.
          pair_uint job (codes "hits_by_all_hostnames")
            (if ctx.group_all_host_names_found then flattened ctx hits else 0) p
          >>= call job.print_unsigned object_end

  unfoldable pub search_spec_end_map : SearchContext → Option (Bool × SearchContext)
  search_spec_end_map ctx = elim ctx.state [
    | search_spec ↦ printed init ctx (call job.print_unsigned object_end ctx.printer)
    | group ↦
        if ctx.group_has_results
        then printed groups_array ctx (end_group ctx)
        else go_on groups_array ctx
    | host_name_map ↦ go_on group ctx
    | _ ↦ unexpected ctx
  ]

  unfoldable pub search_spec_start_array : SearchContext → Option (Bool × SearchContext)
  search_spec_start_array ctx = elim ctx.state [
    | search_spec_expect_groups_array ↦ printed groups_array ctx (
        pair_boolean job (codes "flattened_results") ctx.flatten_results ctx.printer
        >>= call job.print_unsigned (object_key (codes "groups"))
        >>= call job.print_unsigned array_begin)
    | _ ↦ unexpected ctx
  ]

  unfoldable pub search_spec_end_array : SearchContext → Option (Bool × SearchContext)
  search_spec_end_array ctx = elim ctx.state [
    | groups_array ↦ printed search_spec ctx (call job.print_unsigned array_end ctx.printer)
    | _ ↦ unexpected ctx
  ]

  unfoldable pub handle : Event → SearchContext → Option (Bool × SearchContext)
  handle (integer value) ctx = search_spec_integer ctx value
  handle (text_value text) ctx = search_spec_string ctx text
  handle (map_key key) ctx = search_spec_map_key ctx key
  handle start_map ctx = search_spec_start_map ctx
  handle end_map ctx = search_spec_end_map ctx
  handle start_array ctx = search_spec_start_array ctx
  handle end_array ctx = search_spec_end_array ctx

  -- A callback with the result 0 ends the program with an error.
  unfoldable pub run : List Event → SearchContext → Option SearchContext
  run [] ctx = some ctx
  run (e ∷ events) ctx = handle e ctx >>= λ (ok, ctx'). require ok >> run events ctx'

  abbrev pub start_context : (flatten_threshold : ℕ) → Printer → SearchContext
  start_context flatten_threshold p = record {
    state = init;
    flatten_results = ltb job.honas_state.header.estimated_number_of_host_names flatten_threshold;
    printer = p;
    group_id = 0;
    group_has_results = false;
    group_all_host_names_found = false;
    group_filters_hit = BitSet.create job.honas_state.header.number_of_filters;
    host_name_filters_hit = BitSet.create job.honas_state.header.number_of_filters;
    host_name_key = [];
  }

  -- `parsed` tells whether the parser accepts the text of the job to its end.
  unfoldable pub perform_search_job :
      (flatten_threshold : ℕ) → (events : List Event) → (parsed : Bool) → Option (List ℕ)
  perform_search_job flatten_threshold events parsed = json_printer_begin >>= λ p.
      run events (start_context flatten_threshold p) >>= λ ctx.
      require parsed >> some (json_printer_end ctx.printer)
