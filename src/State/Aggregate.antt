-- ===== src/State/Aggregate.antt =====
-- `honas_state_aggregate_combine` of src/honas_state.c. The addresses of the two mapped files and
-- `hllMerge`, which changes both of its arguments, are parameters; `none` as an argument is a null
-- pointer.
pub mod Combined
use honas.Common.{
  ℕ, zero, suc, ◌+◌, ◌≡◌, refl, Bool, true, false, ◌&&◌, List, [], ◌∷◌, Option, none, some, ◌==◌,
  if◌then◌else◌, u64, min, max, get_elem?, ◌>>=◌,
}
use honas.ByteSlice.Merge.{bitwise_or}
use honas.State.{State, Slice, Header}
use honas.State.Memory.{read, write}

-- The fields of the header that are merged.
pub merge_headers : (target source : Header) → Header
merge_headers target source = record target {
  number_of_requests = u64 (target.number_of_requests + source.number_of_requests);
  period_begin = min target.period_begin source.period_begin;
  period_end = max target.period_end source.period_end;
  first_request = min target.first_request source.first_request;
  last_request = max target.last_request source.last_request;
}

pub same_parameters : (target source : Header) → Bool
same_parameters target source =
    (target.number_of_bits_per_filter == source.number_of_bits_per_filter)
    && ((target.number_of_hashes == source.number_of_hashes)
        && (target.number_of_filters == source.number_of_filters))

module _ {Hll : Type 0} (hll_merge : Hll → Hll → Hll × Hll)
    (target_address source_address : ℕ) where
  -- The body of the loop over the filters.
  pub merge_filter : (i : ℕ) (target source : State Hll) → Option (State Hll)
  merge_filter i target source = do
    t ← get_elem? target.filters i
    s ← get_elem? source.filters i
    merged ←
        bitwise_or (target_address + t.begin) (source_address + s.begin)
          (read t.begin t.len target.mmap) (read s.begin s.len source.mmap)
    some (record target { mmap = write t.begin merged target.mmap })

  -- The loop, from filter `i` with `rounds` filters left.
  pub merge_filters : (rounds i : ℕ) (target source : State Hll) → Option (State Hll)
  unfolding merge_filter
  merge_filters zero i target source = some target
  merge_filters (suc rounds) i target source = do
    target' ← merge_filter i target source
    merge_filters rounds (suc i) target' source

  pub combine_states : (target source : State Hll) → Option (Bool × State Hll × State Hll)
  unfolding merge_filters merge_headers same_parameters
  combine_states target source =
      if same_parameters target.header source.header
      then (do
        merged ← merge_filters target.header.number_of_filters 0 target source
        let clients = hll_merge target.client_count source.client_count
        let host_names = hll_merge target.host_name_count source.host_name_count
        some (
          true,
          record merged {
            header = merge_headers target.header source.header;
            client_count = clients.0;
            host_name_count = host_names.0;
          },
          record source { client_count = clients.1; host_name_count = host_names.1 },
        ))
      else some (false, target, source)

  -- The result and what the pointers lead to afterwards.
  pub honas_state_aggregate_combine :
      (target source : Option (State Hll)) → Option (Bool × Option (State Hll) × Option (State Hll))
  unfolding combine_states
  honas_state_aggregate_combine none source = some (false, none, source)
  honas_state_aggregate_combine (some target) none = some (false, some target, none)
  honas_state_aggregate_combine (some target) (some source) = do
    (success, target', source') ← combine_states target source
    some (success, some target', some source')
