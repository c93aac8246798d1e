-- ===== src/Search/Context.antt =====
-- src/bin/honas_search.c: the context of a search job, and what is printed of the state that is
-- searched.
use honas.Common.{
  ℕ, zero, suc, ◌+◌, ◌*◌, Bool, List, [], ◌∷◌, Option, some, codes, u64, ◌^◌, ◌-◌, ◌>>=◌, ℤ, pos,
  negsuc,
}
use honas.BitSet.{BitSet, set_index}
use honas.State.{State}
use honas.State.Encoding.{u32_at}
use honas.JsonPrinter.{
  Printer, array_begin, array_end, object_begin, object_end, object_key, write_string,
  write_boolean, call, object_pair,
}

-- The enumeration in `struct search_spec_context`.
pub data SearchState : Type 0 where
  init search_spec search_spec_expect_groups_array groups_array : SearchState
  group group_expect_id group_expect_host_name_map : SearchState
  host_name_map host_name_map_expect_value : SearchState

-- `struct search_spec_context`, without the state that is searched; `host_name_key` is the text in
-- the buffer.
pub record SearchContext : Type 0 where
  pub state : SearchState
  pub flatten_results : Bool
  pub printer : Printer
  pub group_id : ℕ
  pub group_has_results : Bool
  pub group_all_host_names_found : Bool
  pub group_filters_hit : BitSet
  pub host_name_filters_hit : BitSet
  pub host_name_key : List ℕ

-- The conversion of a `long long` to a `uint64_t`.
abbrev pub to_uint64 : ℤ → ℕ
to_uint64 (pos n) = u64 n
to_uint64 (negsuc n) = 2 ^ 64 - 1 - u64 n

-- A callback of the parser; null, numbers that are no integers and Booleans have none.
pub data Event : Type 0 where
  integer : ℤ → Event
  text_value : List ℕ → Event
  map_key : List ℕ → Event
  start_map end_map start_array end_array : Event

-- `bitset_set` for every filter that is hit.
unfoldable pub set_hits : BitSet → List ℕ → Option BitSet
set_hits set [] = some set
set_hits set (i ∷ hits) = set_index set i >>= λ set'. set_hits set' hits

-- What the job depends on: the state that is searched with its addresses, and the texts that
-- `sprintf` and the floating point functions give.
pub record Searched (Hll : Type 0) : Type 0 where
  pub honas_state : State Hll
  pub group_address : ℕ
  pub host_name_address : ℕ
  pub print_unsigned : ℕ → List ℕ
  pub node_version : List ℕ
  pub state_file_version : List ℕ
  pub approx_count : (bits_set : ℕ) → ℕ
  pub actual_fpr : (bits_set : ℕ) → List ℕ

module _ {Hll : Type 0} (job : Searched Hll) where
  abbrev pub pair_uint : (key : List ℕ) → ℕ → Printer → Option Printer
  pair_uint key n = object_pair job.print_unsigned key (some (job.print_unsigned n))

  abbrev pub pair_string : (key text : List ℕ) → Printer → Option Printer
  pair_string key text = object_pair job.print_unsigned key (write_string text)

  abbrev pub pair_boolean : (key : List ℕ) → Bool → Printer → Option Printer
  pair_boolean key b = object_pair job.print_unsigned key (some (write_boolean b))

  -- The loop over the filters, from filter `i` with `rounds` filters left.
  unfoldable pub print_filters : (rounds i : ℕ) → Printer → Option Printer
  print_filters zero i p = some p
  print_filters (suc rounds) i p =
      let bits_set = u32_at (job.honas_state.filter_bits_set + 4 * i) job.honas_state.mmap in
      call job.print_unsigned object_begin p
      >>= pair_uint (codes "number_of_bits_set") bits_set
      >>= pair_uint (codes "estimated_number_of_host_names") (job.approx_count bits_set)
      >>= pair_string (codes "actual_false_positive_rate") (job.actual_fpr bits_set)
      >>= call job.print_unsigned object_end
      >>= print_filters rounds (suc i)

  unfoldable pub add_general_information : Printer → Option Printer
  add_general_information p =
      let h = job.honas_state.header in
      pair_string (codes "node_version") job.node_version p
      >>= pair_string (codes "state_file_version") job.state_file_version
      >>= pair_uint (codes "period_begin") h.period_begin
      >>= pair_uint (codes "first_request") h.first_request
      >>= pair_uint (codes "last_request") h.last_request
      >>= pair_uint (codes "period_end") h.period_end
      >>= pair_uint (codes "estimated_number_of_clients") h.estimated_number_of_clients
      >>= pair_uint (codes "estimated_number_of_host_names") h.estimated_number_of_host_names
      >>= pair_uint (codes "number_of_requests") h.number_of_requests
      >>= pair_uint (codes "number_of_filters") h.number_of_filters
      >>= pair_uint (codes "number_of_filters_per_user") h.number_of_filters_per_user
      >>= pair_uint (codes "number_of_hashes") h.number_of_hashes
      >>= pair_uint (codes "number_of_bits_per_filter") h.number_of_bits_per_filter
      >>= pair_uint (codes "flatten_threshold") h.flatten_threshold
      >>= call job.print_unsigned (object_key (codes "filters"))
      >>= call job.print_unsigned array_begin
      >>= print_filters h.number_of_filters 0
      >>= call job.print_unsigned array_end
