-- ===== src/State.antt =====
-- include/honas_state.h and src/honas_state.c: the state of a period, which counts clients and host
-- names and holds the Bloom filters. The mapped file is one list of bytes, `mmap`; filters are
-- slices of it, by offset and length. The header, which the file holds below the first filter, is
-- kept as a record beside it. `Hll` stands for the cardinality counters of src/hyperloglog.c.
pub mod Memory
pub mod Filters
pub mod Register
pub mod Layout
pub mod Aggregate
pub mod Encoding
pub mod File
pub mod Examples
use honas.Common.{ℕ, List, Bool, ◌≡◌}

-- `struct honas_state_file_header`.
pub record Header : Type 0 where
  pub file_magic : List ℕ
  pub major_version : ℕ
  pub minor_version : ℕ
  pub first_filter_offset : ℕ
  pub padding_after_filters : ℕ
  pub number_of_filters : ℕ
  pub number_of_bits_per_filter : ℕ
  pub number_of_hashes : ℕ
  pub number_of_filters_per_user : ℕ
  pub flatten_threshold : ℕ
  pub client_hll_size : ℕ
  pub padding_after_client_hll : ℕ
  pub host_name_hll_size : ℕ
  pub padding_after_host_name_hll : ℕ
  pub period_begin : ℕ
  pub period_end : ℕ
  pub first_request : ℕ
  pub last_request : ℕ
  pub number_of_requests : ℕ
  pub estimated_number_of_clients : ℕ
  pub estimated_number_of_host_names : ℕ

-- The operations of src/hyperloglog.c that a registration uses: whether a counter owns its
-- registers, the registers as bytes, `hllInitFromBuffer`, and `hllAdd`, which does not change who
-- owns them.
pub record Counting (Hll : Type 0) : Type 0 where
  pub registers_owned : Hll → Bool
  pub registers : Hll → List ℕ
  pub init_from_buffer : List ℕ → Hll
  pub add : Hll → ℕ → Hll
  pub add_owned :
      (counter : Hll) (element : ℕ)
      → registers_owned (add counter element) ≡ registers_owned counter

-- A `byte_slice_t` into the mapped file.
pub record Slice : Type 0 where
  pub begin : ℕ
  pub len : ℕ

-- `honas_state_t`.
pub record State (Hll : Type 0) : Type 0 where
  pub header : Header
  pub filters : List Slice
  pub nr_filters_per_user_combinations : ℕ
  pub client_count_registers : Slice
  pub host_name_count_registers : Slice
  pub filter_bits_set : ℕ
  pub client_count : Hll
  pub host_name_count : Hll
  pub mmap : List ℕ
  pub size : ℕ

-- `struct dry_run_counters`.
pub record DryRun (Hll : Type 0) : Type 0 where
  pub hourly_global : Hll
  pub daily_global : Hll
  pub hourly_total_queries : ℕ
  pub daily_total_queries : ℕ
  pub hourly_maximum : ℕ
  pub daily_maximum : ℕ
