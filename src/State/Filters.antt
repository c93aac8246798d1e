-- ===== src/State/Filters.antt =====
-- The filters of a state: the derivation of a hash for each filter, adding a hash to the filters of
-- a client, and looking for it in all of them.
pub mod Growth
pub mod Kept
pub mod Check
use honas.Common.{
  ℕ, zero, suc, ◌+◌, ◌-◌, ◌*◌, ◌/◌, ◌%◌, ◌^◌, ◌≡◌, refl, Bool, true, false, List, [], ◌∷◌, ◌++◌,
  Option, none, some, ◌==◌, if◌then◌else◌, u32, u64, length, get_elem?, require, ◌>>=◌, ◌>>◌,
}
use honas.ByteSlice.Words.{words, store}
use honas.Bloom
use honas.State.{State, Slice, Header}
use honas.State.Memory.{read, write}

-- The loop over words of 64 bits, written back as bytes.
pub multiply_words : (multiplier : ℕ) → List ℕ → List ℕ
multiply_words multiplier [] = []
multiply_words multiplier (w ∷ rest) =
    store 8 (u64 (w * multiplier)) ++ multiply_words multiplier rest

pub filter_index_host_name_hash_transform : (filter_index : ℕ) → List ℕ → Option (List ℕ)
unfolding multiply_words
filter_index_host_name_hash_transform filter_index src = if filter_index == 0 then some src else (do
  require (length src % 8 == 0)
  some (multiply_words (u32 (filter_index * 2 + 1)) (words 8 (length src / 8) src)))

module _ {Hll : Type 0} where
  -- The bytes of `state->filters[filter_index]`, `none` out of bounds.
  pub filter_slice : State Hll → ℕ → Option (List ℕ)
  filter_slice state filter_index = do
    slice ← get_elem? state.filters filter_index
    some (read slice.begin slice.len state.mmap)

  -- The body of the loop "Register host name in filters".
  pub set_in_filter : State Hll → (filter_index : ℕ) → List ℕ → Option (State Hll)
  set_in_filter state filter_index hash = do
    slice ← get_elem? state.filters filter_index
    transformed ← filter_index_host_name_hash_transform filter_index hash
    filter ←
        Bloom.set_hash (read slice.begin slice.len state.mmap) transformed
          state.header.number_of_hashes
    some (record state { mmap = write slice.begin filter state.mmap })

  pub set_in_filters : State Hll → (filter_indexes : List ℕ) → List ℕ → Option (State Hll)
  unfolding set_in_filter
  set_in_filters state [] hash = some state
  set_in_filters state (i ∷ filter_indexes) hash = do
    state' ← set_in_filter state i hash
    set_in_filters state' filter_indexes hash

  -- The body of the loop of `honas_state_check_host_name_lookups`.
  pub hit_in_filter : State Hll → (filter_index : ℕ) → List ℕ → Option Bool
  unfolding filter_slice
  hit_in_filter state filter_index hash = do
    transformed ← filter_index_host_name_hash_transform filter_index hash
    filter ← filter_slice state filter_index
    Bloom.is_set filter transformed state.header.number_of_hashes

  -- The loop, from filter `i` with `rounds` filters left: the filters that are hit, in order.
  pub check_loop : State Hll → (rounds i : ℕ) → List ℕ → Option (List ℕ)
  check_loop state zero i hash = some []
  check_loop state (suc rounds) i hash = do
    hit ← hit_in_filter state i hash
    rest ← check_loop state rounds (suc i) hash
    some (if hit then i ∷ rest else rest)

  -- `filter_count` and the indexes that are set in `filters_hit`.
  pub check_host_name_lookups : State Hll → List ℕ → Option (ℕ × List ℕ)
  unfolding check_loop hit_in_filter
  check_host_name_lookups state host_name_hash = do
    hits ← check_loop state state.header.number_of_filters 0 host_name_hash
    some (length hits, hits)
