-- ===== src/State/File/Saved.antt =====
-- What `honas_state_persist` does before it writes: it returns, and only changes bytes of the file
-- and the two estimates.
use honas.Common.{
  ℕ, zero, suc, ◌+◌, ◌*◌, ◌%◌, ◌^◌, ◌<◌, ◌≤◌, ◌≡◌, refl, sym, ◌∙◌, arith, List, some, length,
  get_elem?, get_elem?_inside, inl, inr, Bool-cases, u32,
}
use honas.ByteSlice.Merge.Bits.{bitwise_or-IsMerge}
use honas.ByteSlice.Popcount.{total, byte_slice_popcount_lem}
use honas.ByteSlice.Words.{store, store-IsBytes, IsBytes}
use honas.State.{State, Slice, Header}
use honas.State.Memory.{read, write, length-read, length-write, read-IsBytes, write-IsBytes}
use honas.State.File.{Counters, counter_to_file, save_clients, save_host_names, count_bits, prepare}

-- A mapped file below the end of memory.
abbrev pub IsMapped : (address : ℕ) → List ℕ → Type 0
IsMapped address mmap = IsBytes mmap × (length mmap < 2 ^ 61) × (address + length mmap + 8 ≤ 2 ^ 64)

-- The slices of the filters are inside of the file.
abbrev pub IsInside : {Hll : Type 0} → State Hll → Type 0
IsInside state =
    (i : ℕ) (slice : Slice)
    → get_elem? state.filters i ≡ some slice
    → slice.begin + slice.len ≤ length state.mmap

-- The header with the two estimates.
abbrev pub with_estimates : Header → (clients host_names : ℕ) → Header
with_estimates h clients host_names = record h {
  estimated_number_of_clients = clients;
  estimated_number_of_host_names = host_names;
}

module _ {Hll : Type 0} (hll : Counters Hll) where
  -- The dense registers of a counter fit the slice that is for them.
  pub record Fills (address : ℕ) (counter : Hll) (slice : Slice) (mmap : List ℕ) : Type 0 where
    pub inside : slice.begin + slice.len ≤ length mmap
    pub dense : IsBytes (hll.registers (hll.sparse_to_dense counter))
    pub len : length (hll.registers (hll.sparse_to_dense counter)) ≡ slice.len
    pub aligned :
        (address + slice.begin) % 8 ≡ hll.registers_address (hll.sparse_to_dense counter) % 8

  counter_to_file_returns :
      (address : ℕ) (counter : Hll) (slice : Slice) (mmap : List ℕ)
      → IsMapped address mmap
      → Fills address counter slice mmap
      → (after : Hll) × (mmap' : List ℕ) × (counter_to_file hll address counter slice mmap
          ≡ some (after, mmap'))
        × (length mmap' ≡ length mmap)
        × IsBytes mmap'
  unfolding counter_to_file
  counter_to_file_returns address counter slice mmap mapped fills =
      elim (Bool-cases (hll.registers_owned counter)) [
        | inr shared ↦ (
          hll.init_from_buffer (read slice.begin slice.len mmap),
          mmap,
          rw shared refl,
          refl,
          mapped.0,
        )
        | inl owned ↦
            let dense = hll.registers (hll.sparse_to_dense counter) in
            let old = read slice.begin slice.len mmap in
            let (merged, returned, merge) =
              bitwise_or-IsMerge (address + slice.begin)
                (hll.registers_address (hll.sparse_to_dense counter)) old dense fills.aligned
                (omega (arith, length-read slice.begin slice.len mmap, fills.inside, mapped.2))
                (length-read slice.begin slice.len mmap ∙ sym fills.len)
                (read-IsBytes slice.begin slice.len mmap mapped.0) fills.dense in
            (
              hll.init_from_buffer merged,
              write slice.begin merged mmap,
              rw (owned, returned) refl,
              length-write slice.begin merged mmap,
              write-IsBytes slice.begin merged mmap merge.bytes mapped.0,
            )
      ]

  -- The same filters, over a file of the same size.
  pub record IsUpdated (before after : State Hll) : Type 0 where
    pub filters : after.filters ≡ before.filters
    pub bits_set : after.filter_bits_set ≡ before.filter_bits_set
    pub size : length after.mmap ≡ length before.mmap
    pub bytes : IsBytes after.mmap

  count_bits_returns :
      (address rounds i : ℕ) (state : State Hll)
      → IsMapped address state.mmap
      → IsInside state
      → i + rounds ≤ length state.filters
      → (after : State Hll) × (count_bits hll address rounds i state ≡ some after)
        × IsUpdated state after
        × (after.header ≡ state.header)
  unfolding count_bits
  count_bits_returns address zero i state mapped inside few =
      (state, refl, record { filters = refl; bits_set = refl; size = refl; bytes = mapped.0 }, refl)
  count_bits_returns address (suc rounds) i state mapped inside few =
      let (slice, at) = get_elem?_inside state.filters i (omega arith) in
      let within = inside i slice at in
      let len = length-read slice.begin slice.len state.mmap in
      let counted =
        byte_slice_popcount_lem (address + slice.begin) (read slice.begin slice.len state.mmap)
          (read-IsBytes slice.begin slice.len state.mmap mapped.0)
          (omega (arith, len, within, mapped.2)) (omega (arith, len, within, mapped.1)) in
      let bits = total (read slice.begin slice.len state.mmap) in
      let mmap = write (state.filter_bits_set + 4 * i) (store 4 bits) state.mmap in
      let size = length-write (state.filter_bits_set + 4 * i) (store 4 bits) state.mmap in
      let bytes =
        write-IsBytes (state.filter_bits_set + 4 * i) (store 4 bits) state.mmap
          (store-IsBytes 4 bits) mapped.0 in
      let (after, returned, updated, header) =
        count_bits_returns address rounds (suc i) (record state { mmap = mmap })
          (bytes, omega (arith, size, mapped.1), omega (arith, size, mapped.2))
          (λ k other e. omega (arith, size, inside k other e)) (omega arith) in
      (
        after,
        rw (at, counted) returned,
        record {
          filters = updated.filters;
          bits_set = updated.bits_set;
          size = updated.size ∙ size;
          bytes = updated.bytes;
        },
        header,
      )

  -- A state whose counters and filters can be saved. The registers are behind the header, which is
  -- kept beside the bytes of the file.
  pub record CanSave (address : ℕ) (state : State Hll) : Type 0 where
    pub mapped : IsMapped address state.mmap
    pub inside : IsInside state
    pub count : length state.filters ≡ state.header.number_of_filters
    pub behind :
        (108 ≤ state.client_count_registers.begin) × (108 ≤ state.host_name_count_registers.begin)
    pub clients :
        (mmap : List ℕ)
        → length mmap ≡ length state.mmap
        → Fills address state.client_count state.client_count_registers mmap
    pub host_names :
        (mmap : List ℕ)
        → length mmap ≡ length state.mmap
        → Fills address state.host_name_count state.host_name_count_registers mmap

  pub prepare_returns :
      (address : ℕ) (state : State Hll)
      → CanSave address state
      → (after : State Hll) × (prepare hll address state ≡ some after)
        × IsUpdated state after
        × ((clients : ℕ) × (host_names : ℕ) × (after.header
              ≡ with_estimates state.header (u32 clients) (u32 host_names)))
  unfolding prepare save_clients save_host_names
  prepare_returns address state h =
      let size = h.mapped.2 in
      let (clients, mmap, saved, same, bytes) =
        counter_to_file_returns address state.client_count state.client_count_registers state.mmap
          h.mapped (h.clients state.mmap refl) in
      let (host_names, mmap', saved', same', bytes') =
        counter_to_file_returns address state.host_name_count state.host_name_count_registers mmap
          (bytes, omega (arith, same, h.mapped.1), omega (arith, same, h.mapped.2))
          (h.host_names mmap same) in
      let both : State Hll = record state {
        client_count = clients;
        host_name_count = host_names;
        mmap = mmap';
        header = with_estimates state.header (u32 (hll.count clients)) (u32 (hll.count host_names));
      } in
      let (after, returned, updated, header) =
        count_bits_returns address state.header.number_of_filters 0 both
          (bytes', omega (arith, same, same', h.mapped.1), omega (arith, same, same', h.mapped.2))
          (λ k other e. omega (arith, same, same', h.inside k other e)) (omega (arith, h.count)) in
      (
        after,
        rw (saved, saved') returned,
        record {
          filters = updated.filters;
          bits_set = updated.bits_set;
          size = updated.size ∙ same' ∙ same;
          bytes = updated.bytes;
        },
        (hll.count clients, hll.count host_names, header),
      )
