-- ===== src/State/File/Safe.antt =====
-- What holds of every state that `honas_state_load` returns, whatever the file holds.
use honas.Common.{
  ℕ, ◌+◌, ◌≤◌, ◌≡◌, refl, sym, arith, true, false, List, some, length, get_elem?, >>=-eq-some,
  Bool-cases, inl, inr, ltb, ◌<◌, same_bytes, bit_and, pos,
}
use honas.State.{State, Slice, Header}
use honas.State.Encoding.{header_of}
use honas.State.Layout.{
  hll_dense_size, honas_state_file_size, init_common, client_registers, host_name_registers,
}
use honas.State.Layout.Initialized.{init_common-eq, filters_from-inside}
use honas.State.Memory.{read}
use honas.State.File.{
  Counters, refused, loaded, magic, compatible, plausible, load_checked, honas_state_load,
}

-- The tests that a header has passed, and the filters in a file of `size` bytes.
pub record IsChecked {Hll : Type 0} (s : State Hll) (size : ℕ) : Type 0 where
  pub magic_bytes : same_bytes s.header.file_magic magic ≡ true
  pub version : s.header.major_version ≡ 1
  pub some_filters : 0 < s.header.number_of_filters
  pub some_bits : 0 < s.header.number_of_bits_per_filter
  pub whole_bytes : bit_and s.header.number_of_bits_per_filter 7 ≡ 0
  pub some_hashes : 0 < s.header.number_of_hashes
  pub clients : s.header.client_hll_size ≡ hll_dense_size
  pub host_names : s.header.host_name_hll_size ≡ hll_dense_size
  pub count : length s.filters ≡ s.header.number_of_filters
  pub inside :
      (i : ℕ) (slice : Slice) → get_elem? s.filters i ≡ some slice → slice.begin + slice.len ≤ size

compatible-facts :
    (size : ℕ) (h : Header)
    → compatible size h ≡ true
    → (same_bytes h.file_magic magic ≡ true) × (h.major_version ≡ 1)
unfolding compatible
compatible-facts size h e = elim (Bool-cases (same_bytes h.file_magic magic)) [
  | inl same ↦ (same, ground (arith, e, same))
  | inr other ↦ absurd (ground (arith, e, other))
]

plausible-facts :
    (h : Header)
    → plausible h ≡ true
    → (0 < h.number_of_filters)
      × (0 < h.number_of_bits_per_filter)
      × (bit_and h.number_of_bits_per_filter 7 ≡ 0)
      × (0 < h.number_of_hashes)
      × (h.client_hll_size ≡ hll_dense_size)
      × (h.host_name_hll_size ≡ hll_dense_size)
unfolding plausible
plausible-facts h e = ground (arith, e)

module _ {Hll : Type 0} (hll : Counters Hll) where
  load_refused :
      (h : Header) (mmap : List ℕ)
      → plausible h ≡ false
      → load_checked hll h mmap ≡ some (refused (pos 2))
  unfolding load_checked
  load_refused h mmap failed = rw failed refl

  load_checked-eq :
      (h : Header) (mmap : List ℕ) (s : State Hll)
      → plausible h ≡ true
      → load_checked hll h mmap ≡ some (loaded s)
      → (mmap ≡ s.mmap)
        × (h ≡ s.header)
        × (length s.filters ≡ h.number_of_filters)
        × ((i : ℕ) (slice : Slice)
            → get_elem? s.filters i ≡ some slice
            → slice.begin + slice.len ≤ length mmap)
  unfolding load_checked
  load_checked-eq h mmap s passed e =
      let e1 = rw passed at e in
      let (size, sized, e2) =
        >>=-eq-some
          (honas_state_file_size h.first_filter_offset h.padding_after_filters h.number_of_filters
            h.number_of_bits_per_filter h.client_hll_size h.padding_after_client_hll
            h.host_name_hll_size h.padding_after_host_name_hll)
          _ e1 in
      elim (Bool-cases (ltb (length mmap) size)) [
        | inl short ↦ absurd (cc (rw short at e2))
        | inr long ↦
            let e3 = rw long at e2 in
            let clients = client_registers h in
            let host_names = host_name_registers h in
            let (state, returned, e4) =
              >>=-eq-some
                (init_common (hll.init_from_buffer (read clients.begin clients.len mmap))
                  (hll.init_from_buffer (read host_names.begin host_names.len mmap)) h mmap
                  (length mmap))
                _ e3 in
            let same : state ≡ s = cc e4 in
            let started = init_common-eq _ _ h mmap (length mmap) state returned in
            let (count, inside) =
              filters_from-inside h.number_of_filters 0 h (length mmap) state.filters
                started.filters in
            rw (← same) (started.memory, started.header, count, inside)
      ]

  -- Whatever a file holds: a state that is loaded from it has the file's bytes and header, with the
  -- magic and the version of this program, at least one filter, bit and hash, whole bytes, the
  -- sizes of the counters, and as many filters as it says, all of them inside the file.
  pub honas_state_load-IsChecked :
      (mmap : List ℕ) (s : State Hll)
      → honas_state_load hll (some mmap) ≡ some (loaded s)
      → (s.mmap ≡ mmap) × (s.header ≡ header_of mmap) × IsChecked s (length mmap)
  unfolding honas_state_load
  honas_state_load-IsChecked mmap s e =
      let h = header_of mmap in
      elim (Bool-cases (compatible (length mmap) h)) [
        | inr other ↦ absurd (cc (rw other at e))
        | inl ours ↦ elim (Bool-cases (plausible h)) [
          | inr failed ↦ absurd (cc (load_refused h mmap failed, rw ours at e))
          | inl passed ↦
              let (same, header, count, inside) = load_checked-eq h mmap s passed (rw ours at e) in
              let (magic_bytes, version) = compatible-facts (length mmap) h ours in
              let (some_filters, some_bits, whole_bytes, some_hashes, clients, host_names) =
                plausible-facts h passed in
              (
                sym same,
                sym header,
                rw (← header) (record {
                  magic_bytes = magic_bytes;
                  version = version;
                  some_filters = some_filters;
                  some_bits = some_bits;
                  whole_bytes = whole_bytes;
                  some_hashes = some_hashes;
                  clients = clients;
                  host_names = host_names;
                  count = count;
                  inside = inside;
                }),
              )
        ]
      ]
