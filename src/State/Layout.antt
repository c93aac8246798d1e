-- ===== src/State/Layout.antt =====
-- The layout of a state file: `round_up_to_factor_of_two`, `honas_state_file_size`,
-- `honas_state_init_common` and `honas_state_create` of src/honas_state.c. The size of a page is a
-- parameter, and so are the mapping of memory and the empty cardinality counter.
pub mod RoundUp
pub mod Places
pub mod Created
pub mod Initialized
pub mod Examples
use honas.Common.{
  ℕ, zero, suc, ◌+◌, ◌-◌, ◌*◌, ◌/◌, ◌%◌, ◌^◌, ◌≡◌, refl, Bool, ◌&&◌, List, [], ◌∷◌, Option, none,
  some, ltb, leb, ◌==◌, u32, u64, bit_and, ◌<<<◌, ◌>>>◌, require, ◌>>=◌, ◌>>◌,
}
use honas.Combinations.{number_of_combinations}
use honas.State.{State, Slice, Header}

-- `size_t` arithmetic.
pub round_up_to_factor_of_two : (value factor_of_two : ℕ) → ℕ
round_up_to_factor_of_two value factor_of_two =
    bit_and (u64 (value + (1 <<< factor_of_two) - 1)) (2 ^ 64 - (1 <<< factor_of_two))

-- `sizeof(struct honas_state_file_header)`, which is packed.
abbrev pub header_size : ℕ
header_size = 8 + 13 * 4 + 5 * 8 + 2 * 4

-- `HLL_DENSE_SIZE`.
abbrev pub hll_dense_size : ℕ
hll_dense_size = (16384 * 6 + 7) / 8 + 1

-- `uint32_t` arithmetic. `none` where an assertion fails.
pub honas_state_file_size :
    (first_filter_offset padding_after_filters number_of_filters number_of_bits_per_filter : ℕ)
    (client_hll_size padding_after_client_hll host_name_hll_size padding_after_host_name_hll : ℕ)
    → Option ℕ
honas_state_file_size first_filter_offset padding_after_filters number_of_filters
      number_of_bits_per_filter client_hll_size padding_after_client_hll host_name_hll_size
      padding_after_host_name_hll =
    do
      require (ltb 0 number_of_filters)
      require (ltb 0 number_of_bits_per_filter)
      require (bit_and number_of_bits_per_filter 7 == 0)
      require (leb header_size first_filter_offset)
      some (
          u32 (
            first_filter_offset
            + number_of_filters * (number_of_bits_per_filter >>> 3)
            + number_of_filters * padding_after_filters
            + client_hll_size
            + padding_after_client_hll
            + host_name_hll_size
            + padding_after_host_name_hll))

-- The loop over the filters, from filter `i` with `rounds` left; `filter_begin` is computed in
-- `uint32_t`, and compared in `size_t`.
pub filters_from : (rounds i : ℕ) → Header → (size : ℕ) → Option (List Slice)
filters_from zero i h size = some []
filters_from (suc rounds) i h size = do
  let len = h.number_of_bits_per_filter >>> 3
  let filter_begin = u32 (h.first_filter_offset + i * h.padding_after_filters + i * len)
  require (leb (filter_begin + len) size)
  rest ← filters_from rounds (suc i) h size
  some (record { begin = filter_begin; len = len } ∷ rest)

-- The registers of the clients.
unfoldable pub client_registers : Header → Slice
client_registers h = record {
  begin =
      u32 (((h.number_of_bits_per_filter >>> 3) + h.padding_after_filters) * h.number_of_filters);
  len = h.client_hll_size;
}

unfoldable pub host_name_registers : Header → Slice
unfolding client_registers
host_name_registers h = record {
  begin = (client_registers h).begin + h.client_hll_size + h.padding_after_client_hll;
  len = h.host_name_hll_size;
}

module _ {Hll : Type 0} where
  -- The state over a mapped file of `size` bytes, `none` where an assertion fails or
  -- `number_of_combinations` does not return.
  pub init_common :
      (client_count host_name_count : Hll)
      → Header
      → (mmap : List ℕ) → (size : ℕ) → Option (State Hll)
  unfolding filters_from honas_state_file_size client_registers host_name_registers
  init_common client_count host_name_count h mmap size = do
    require (leb header_size size)
    file_size ←
        honas_state_file_size h.first_filter_offset h.padding_after_filters h.number_of_filters
          h.number_of_bits_per_filter h.client_hll_size h.padding_after_client_hll
          h.host_name_hll_size h.padding_after_host_name_hll
    require (leb file_size size)
    filters ← filters_from h.number_of_filters 0 h size
    combinations ← number_of_combinations h.number_of_filters h.number_of_filters_per_user
    some (record {
      header = h;
      filters = filters;
      nr_filters_per_user_combinations = combinations;
      client_count_registers = client_registers h;
      host_name_count_registers = host_name_registers h;
      filter_bits_set = header_size;
      client_count = client_count;
      host_name_count = host_name_count;
      mmap = mmap;
      size = size;
    })

-- The header that `honas_state_create` writes; the rest is 0, as the new mapping is.
pub new_header :
    (page_shift number_of_filters number_of_bits_per_filter number_of_hashes : ℕ)
    (number_of_filters_per_user flatten_threshold : ℕ)
    → Header
unfolding round_up_to_factor_of_two
new_header page_shift number_of_filters number_of_bits_per_filter number_of_hashes
      number_of_filters_per_user flatten_threshold =
    record {
      file_magic = b'D' ∷ b'N' ∷ b'S' ∷ b'B' ∷ b'L' ∷ b'O' ∷ b'O' ∷ b'M' ∷ [];
      major_version = 1;
      minor_version = 0;
      first_filter_offset =
          u32 (round_up_to_factor_of_two (header_size + 4 * number_of_filters) page_shift);
      padding_after_filters = u32 (
          round_up_to_factor_of_two (number_of_bits_per_filter >>> 3) page_shift
          - (number_of_bits_per_filter >>> 3));
      number_of_filters = number_of_filters;
      number_of_bits_per_filter = number_of_bits_per_filter;
      number_of_hashes = number_of_hashes;
      number_of_filters_per_user = number_of_filters_per_user;
      flatten_threshold = flatten_threshold;
      client_hll_size = hll_dense_size;
      padding_after_client_hll =
          u32 (round_up_to_factor_of_two hll_dense_size page_shift - hll_dense_size);
      host_name_hll_size = hll_dense_size;
      padding_after_host_name_hll =
          u32 (round_up_to_factor_of_two hll_dense_size page_shift - hll_dense_size);
      period_begin = 0;
      period_end = 0;
      first_request = 0;
      last_request = 0;
      number_of_requests = 0;
      estimated_number_of_clients = 0;
      estimated_number_of_host_names = 0;
    }

module _ {Hll : Type 0} (hll_init : Hll) (page_shift : ℕ) (mmap : ℕ → Option (List ℕ)) where
  -- The inner `none` is the result -1, where the mapping fails; the outer one is an assertion that
  -- fails.
  pub honas_state_create :
      (number_of_filters number_of_bits_per_filter number_of_hashes : ℕ)
      (number_of_filters_per_user flatten_threshold : ℕ)
      → Option (Option (State Hll))
  unfolding new_header init_common
  honas_state_create number_of_filters number_of_bits_per_filter number_of_hashes
        number_of_filters_per_user flatten_threshold =
      do
        require (ltb 0 number_of_filters)
        require (ltb 0 number_of_bits_per_filter)
        require (bit_and number_of_bits_per_filter 7 == 0)
        require (ltb 0 number_of_hashes)
        require (ltb 0 number_of_filters_per_user)
        let h =
            new_header page_shift number_of_filters number_of_bits_per_filter number_of_hashes
              number_of_filters_per_user flatten_threshold
        size ←
            honas_state_file_size h.first_filter_offset h.padding_after_filters number_of_filters
              number_of_bits_per_filter hll_dense_size h.padding_after_client_hll hll_dense_size
              h.padding_after_host_name_hll
        elim (mmap size) [
          | none ↦ some none
          | some mapped ↦ (do
            state ← init_common hll_init hll_init h mapped size
            some (some state))
        ]
