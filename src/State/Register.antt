-- ===== src/State/Register.antt =====
-- `honas_state_register_host_name_lookup`: the request is counted, the filters of the client are
-- chosen, and the host name, its labels and its last two labels are hashed into them. SHA-256 and
-- the cardinality counters are parameters.
pub mod Text
pub mod Names
pub mod Recorded
pub mod Chosen
pub mod Complete
pub mod Examples
use honas.Common.{
  ℕ, zero, suc, ◌+◌, ◌-◌, ◌*◌, ◌/◌, ◌%◌, ◌^◌, ◌≡◌, refl, Bool, true, false, ◌&&◌, List, [], ◌∷◌,
  ◌++◌, Option, none, some, ltb, leb, ◌==◌, if◌then◌else◌, u64, length, take, get_or, map, require,
  ◌>>=◌, ◌>>◌,
}
use honas.ByteSlice.Words.{load}
use honas.ByteSlice.Murmur.{murmur_hash64a}
use honas.Combinations.{lookup_combination}
use honas.Inet.{InAddr46, addr4, addr6, unsupported}
use honas.State.{State, DryRun, Header, Slice, Counting}
use honas.State.Memory.{read, write}
use honas.State.Filters.{set_in_filters}
use Text.{c_string, tolower, memchr_dot, strip_trailing_dot}

pub uint64_hash : List ℕ → ℕ
uint64_hash bytes = murmur_hash64a bytes 0xadc83b19

-- `none` is `log_die`.
pub hash_client : InAddr46 → Option ℕ
hash_client (addr4 bytes) = some (uint64_hash bytes)
hash_client (addr6 bytes) = some (uint64_hash bytes)
hash_client unsupported = none

-- `strncpy` and the separator: `none` where no terminator is left in `localbuf`, of 512 bytes.
pub entity_head : List ℕ → Option (List ℕ)
entity_head prefix = do
  let head = c_string prefix ++ b'@' ∷ []
  require (ltb (length head) 512)
  some head

-- The whole name behind the prefix, cut off where `localbuf` ends.
pub entity_name : (prefix host_name : List ℕ) → Option (List ℕ)
unfolding entity_head
entity_name prefix host_name = do
  head ← entity_head prefix
  some (head ++ take (512 - length head - 1) (c_string host_name))

-- A label behind the prefix: `none` where it overruns `localbuf`.
pub entity_label : (prefix label : List ℕ) → Option (List ℕ)
unfolding entity_head
entity_label prefix label = do
  head ← entity_head prefix
  require (ltb (length head + length (c_string label)) 512)
  some (head ++ c_string label)

-- The longest name that `local_host_name`, of 256 bytes, takes: with a prefix it is read up to its
-- terminator.
pub name_limit : Option (List ℕ) → ℕ
name_limit none = 256
name_limit (some prefix) = 255

-- The state and the counters of a dry run, if there is one.
pub record Run (Hll : Type 0) : Type 0 where
  pub state : State Hll
  pub dry_run : Option (DryRun Hll)

module _ {Hll : Type 0} (hll : Counting Hll) (sha256 : List ℕ → List ℕ) where
  -- `hllAdd` on a counter of the state, with the mapped file: the registers of a counter that does
  -- not own them are the bytes of `slice`, which in a loaded state lie over the last filters.
  pub add_to_counter : Hll → Slice → (element : ℕ) → List ℕ → Hll × List ℕ
  add_to_counter counter slice element mmap =
      let shared = hll.add (hll.init_from_buffer (read slice.begin slice.len mmap)) element in
      if hll.registers_owned counter
      then (hll.add counter element, mmap)
      else (shared, write slice.begin (hll.registers shared) mmap)

  pub count_client : (client_hash : ℕ) → State Hll → State Hll
  unfolding add_to_counter
  count_client client_hash state =
      let counted =
        add_to_counter state.client_count state.client_count_registers client_hash state.mmap in
      record state { client_count = counted.0; mmap = counted.1 }

  pub count_host_name : (element : ℕ) → State Hll → State Hll
  unfolding add_to_counter
  count_host_name element state =
      let counted =
        add_to_counter state.host_name_count state.host_name_count_registers element state.mmap in
      record state { host_name_count = counted.0; mmap = counted.1 }

  pub add_dry_run : ℕ → Option (DryRun Hll) → Option (DryRun Hll)
  add_dry_run hash none = none
  add_dry_run hash (some d) = some (record d {
    hourly_global = hll.add d.hourly_global hash;
    daily_global = hll.add d.daily_global hash;
  })

  pub count_query : Option (DryRun Hll) → Option (DryRun Hll)
  count_query none = none
  count_query (some d) = some (record d {
    hourly_total_queries = u64 (d.hourly_total_queries + 1);
    daily_total_queries = u64 (d.daily_total_queries + 1);
  })

  -- `byte_slice_as_uint64_ptr(host_name_hash_slice)[0]`.
  pub first_word : List ℕ → ℕ
  first_word hash = load (take 8 hash)

  -- "Count host name" and "Register host name in filters" for one name, whose hash is counted in a
  -- dry run as `dry_hash`.
  pub record_hash : (filter_indexes hash : List ℕ) (dry_hash : ℕ) → Run Hll → Option (Run Hll)
  unfolding count_host_name
  record_hash filter_indexes hash dry_hash run = do
    state' ← set_in_filters (count_host_name (first_word hash) run.state) filter_indexes hash
    some (record { state = state'; dry_run = add_dry_run dry_hash run.dry_run })

  pub record_name : (filter_indexes name : List ℕ) → Run Hll → Option (Run Hll)
  unfolding record_hash
  record_name filter_indexes name run =
      let hash = sha256 name in record_hash filter_indexes hash (first_word hash) run

  -- The two blocks under `if (entity_prefix)`, which differ in how they put the name together.
  pub record_with_entity :
      (compose : List ℕ → List ℕ → Option (List ℕ)) (filter_indexes : List ℕ)
      (entity_prefix : Option (List ℕ)) (label : List ℕ)
      → Run Hll
      → Option (Run Hll)
  unfolding record_name
  record_with_entity compose filter_indexes none label run = some run
  record_with_entity compose filter_indexes (some prefix) label run = do
    name ← compose prefix label
    record_name filter_indexes name run

  -- The loop over the labels that a '.' ends; it returns `sld_buf` too. `none` with no fuel left,
  -- or where the terminator falls outside `sld_buf`, of 256 bytes.
  pub labels_loop :
      (fuel : ℕ) (filter_indexes : List ℕ) (entity_prefix : Option (List ℕ))
      (part_start sld_buf : List ℕ)
      → Run Hll
      → Option (Run Hll × List ℕ)
  labels_loop zero filter_indexes entity_prefix part_start sld_buf run = none
  labels_loop (suc fuel) filter_indexes entity_prefix part_start sld_buf run =
      elim (memchr_dot part_start) [
        | none ↦ some (run, sld_buf)
        | some (label, next) ↦ (do
          run1 ← record_with_entity entity_label filter_indexes entity_prefix label run
          run2 ← record_name filter_indexes label run1
          require (ltb (length part_start) 256)
          labels_loop fuel filter_indexes entity_prefix next (c_string part_start) run2)
      ]

  -- What is done for other than PTR records.
  pub record_labels :
      (filter_indexes : List ℕ) (entity_prefix : Option (List ℕ)) (host_name : List ℕ)
      → Run Hll
      → Option (Run Hll)
  unfolding labels_loop record_with_entity record_name entity_label
  record_labels filter_indexes entity_prefix host_name run = do
    (run1, sld_buf) ←
        labels_loop (suc (length host_name)) filter_indexes entity_prefix host_name [] run
    run2 ← record_name filter_indexes sld_buf run1
    some (record run2 { dry_run = count_query run2.dry_run })

  -- The request timestamps and the count of requests.
  pub count_request : (timestamp : ℕ) → Header → Header
  count_request timestamp h =
      let counted = record h { number_of_requests = u64 (h.number_of_requests + 1) } in
      if ltb h.last_request timestamp
      then record counted {
        last_request = timestamp;
        first_request = if h.first_request == 0 then timestamp else h.first_request;
      }
      else counted

  -- The filters of a client: `client_hash % nr_filters_per_user_combinations` is undefined for 0.
  pub choose_filters : State Hll → (client_hash : ℕ) → Option (List ℕ)
  choose_filters state client_hash = do
    require (ltb 0 state.nr_filters_per_user_combinations)
    lookup_combination state.header.number_of_filters state.header.number_of_filters_per_user
        (client_hash % state.nr_filters_per_user_combinations)

  pub register_host_name_lookup :
      (timestamp : ℕ) (client : InAddr46) (host_name : List ℕ) (entity_prefix : Option (List ℕ))
      (is_ptr : Bool)
      → Run Hll
      → Option (Run Hll)
  unfolding hash_client choose_filters entity_name name_limit record_labels record_with_entity
      record_hash count_request count_client
  register_host_name_lookup timestamp client host_name entity_prefix is_ptr run = do
    client_hash ← hash_client client
    let counted = count_request timestamp run.state.header
    let state1 = count_client client_hash (record (run.state) { header = counted })
    filter_indexes ← choose_filters state1 client_hash
    name ← strip_trailing_dot host_name
    require (leb (length name) (name_limit entity_prefix))
    let local_host_name = map tolower name
    run1 ←
        record_hash filter_indexes (sha256 local_host_name) (uint64_hash local_host_name)
          (record { state = state1; dry_run = run.dry_run })
    run2 ← record_with_entity entity_name filter_indexes entity_prefix local_host_name run1
    if is_ptr then some run2 else record_labels filter_indexes entity_prefix local_host_name run2
