-- ===== src/State/File/Loaded.antt =====
-- A state that is saved by `honas_state_persist` and loaded again by `honas_state_load`.
use mathlib.Core.Path.{subst}
use honas.Common.{
  ℕ, ◌+◌, ◌^◌, ◌<◌, ◌≤◌, ◌≡◌, refl, sym, ap, ◌∙◌, arith, true, false, List, some, length, get_elem?,
  inr, u32, ltb, bit_and, le→leb, All-set, set,
}
use honas.Bits.Digitwise.{bit_and_mask}
use honas.State.{State, Slice, Header}
use honas.State.Encoding.{
  fields, IsHeader, header_bytes, header_of, header_of-header_bytes, length-header_bytes,
}
use honas.State.Layout.{hll_dense_size, filters_from, client_registers, host_name_registers}
use honas.State.Layout.Created.{IsLayout, file_end, file_size-eq-file_end, init_common_lem}
use honas.State.Layout.Initialized.{IsInitialized, init_common-eq, filters_from_estimates}
use honas.State.Layout.Places.{place, filters_end, filters_from_lem}
use honas.State.Memory.{read, write, read-write_apart, length-write}
use honas.State.Register.Chosen.{CanRegister}
use honas.State.File.{
  Counters, System, saved, loaded, memory, magic, compatible, plausible, prepare, save_file,
  honas_state_persist, load_checked, honas_state_load,
}
use honas.State.File.Saved.{CanSave, with_estimates, prepare_returns}
use honas.State.File.Written.{Progresses, write_all_ends}

-- The header of a state file that this program reads.
pub record IsReadable (h : Header) (size : ℕ) : Type 0 where
  pub well_formed : IsHeader h
  pub layout : IsLayout h
  pub magic_bytes : h.file_magic ≡ magic
  pub version : h.major_version ≡ 1
  pub clients : h.client_hll_size ≡ hll_dense_size
  pub host_names : h.host_name_hll_size ≡ hll_dense_size
  pub fits : file_end h ≤ size

plausible_lem : (h : Header) (size : ℕ) → IsReadable h size → plausible h ≡ true
unfolding plausible
plausible_lem h size r =
    let l = r.layout in
    let bits = l.some_bits in
    let filters = l.can_look_up.some_one in
    let filters' = l.can_look_up.fits in
    let hashes = l.some_hashes in
    let behind = l.behind_header in
    let seven : bit_and h.number_of_bits_per_filter 7 ≡ 0 =
      bit_and_mask 3 h.number_of_bits_per_filter ∙ l.whole_bytes in
    ground (arith, seven, r.clients, r.host_names)

compatible_lem : (h : Header) (size : ℕ) → IsReadable h size → 44 ≤ size → compatible size h ≡ true
unfolding compatible
compatible_lem h size r big = rw (r.magic_bytes, r.version, le→leb 44 size big) refl

-- The estimates change neither the layout nor what makes a header readable.
with_estimates-IsReadable :
    (h : Header) (size clients host_names : ℕ)
    → IsReadable h size
    → IsReadable (with_estimates h (u32 clients) (u32 host_names)) size
unfolding fields file_end filters_end
with_estimates-IsReadable h size clients host_names r =
    let small : ℕ × ℕ → Type 0 = λ f. f.1 < 256 ^ f.0 in
    let counted = All-set small (fields h) 18 (4, u32 clients) r.well_formed.words (omega arith) in
    let l = r.layout in
    record {
      well_formed = record {
        magic = r.well_formed.magic;
        words =
            All-set small (set (fields h) 18 (4, u32 clients)) 19 (4, u32 host_names) counted
              (omega arith);
      };
      layout = record {
        some_bits = l.some_bits;
        whole_bytes = l.whole_bytes;
        bits_word = l.bits_word;
        some_hashes = l.some_hashes;
        can_look_up = l.can_look_up;
        behind_header = l.behind_header;
        small = l.small;
      };
      magic_bytes = r.magic_bytes;
      version = r.version;
      clients = r.clients;
      host_names = r.host_names;
      fits = r.fits;
    }

module _ {Hll : Type 0} (hll : Counters Hll) where
  -- A readable file is loaded: as its header says, and so that lookups can be registered and checked.
  pub load_readable :
      (mmap : List ℕ)
      → IsReadable (header_of mmap) (length mmap)
      → 44 ≤ length mmap
      → (s : State Hll) × (honas_state_load hll (some mmap) ≡ some (loaded s))
        × (s.header ≡ header_of mmap)
        × CanRegister s
        × IsInitialized (header_of mmap) mmap (length mmap) s
  unfolding honas_state_load load_checked
  load_readable mmap r big =
      let h = header_of mmap in
      let clients =
        hll.init_from_buffer (read (client_registers h).begin (client_registers h).len mmap) in
      let host_names =
        hll.init_from_buffer
          (read (host_name_registers h).begin (host_name_registers h).len mmap) in
      let (s, returned, header, can) = init_common_lem clients host_names h mmap r.layout r.fits in
      let known = init_common-eq clients host_names h mmap (length mmap) s returned in
      let large : ltb (length mmap) (file_end h) ≡ false = (let f = r.fits in ground arith) in
      (
        s,
        rw
            (
              compatible_lem h (length mmap) r big,
              plausible_lem h (length mmap) r,
              file_size-eq-file_end h r.layout,
              large,
              returned,
            )
            refl,
        header,
        can,
        known,
      )

  -- A state that can be saved: its file is readable, and its filters are where the header says.
  pub record CanPersist (address : ℕ) (state : State Hll) : Type 0 where
    pub can_save : CanSave hll address state
    pub readable : IsReadable state.header (length state.mmap)
    pub filters_at :
        filters_from state.header.number_of_filters 0 state.header (length state.mmap)
        ≡ some state.filters

  -- The system calls succeed, and `write` makes progress.
  pub record Succeeds (system : System) : Type 0 where
    pub opened : system.tmpfile_opened ≡ true
    pub allocated : system.preallocated ≡ true
    pub progresses : Progresses system.write_call
    pub linked : system.linked ≡ true
    pub closed : system.closed ≡ true

  save_file_returns :
      (system : System) (address : ℕ) (state after : State Hll)
      → Succeeds system
      → prepare hll address state ≡ some after
      → save_file hll system address state ≡ some (after, memory after)
  unfolding save_file
  save_file_returns system address state after ok prepared =
      rw
        (
          prepared,
          ok.opened,
          ok.allocated,
          write_all_ends system.write_call (memory after) ok.progresses,
          ok.linked,
          ok.closed,
        )
        refl

  -- What is loaded from the file of a state, compared with the state after saving.
  pub record IsReloaded (after s : State Hll) : Type 0 where
    pub header : s.header ≡ after.header
    pub filters : s.filters ≡ after.filters
    pub bytes :
        (i : ℕ) (slice : Slice)
        → get_elem? after.filters i ≡ some slice
        → read slice.begin slice.len s.mmap ≡ read slice.begin slice.len after.mmap
    pub can_register : CanRegister s

  -- The slices of the filters are behind the header.
  filters-behind :
      (h : Header) (size : ℕ) (slices : List Slice)
      → IsReadable h size
      → filters_from h.number_of_filters 0 h size ≡ some slices
      → (i : ℕ) (slice : Slice) → get_elem? slices i ≡ some slice
      → 108 ≤ slice.begin
  unfolding file_end filters_end place
  filters-behind h size slices r runs i slice at =
      let small = r.layout.small in
      let fits = r.fits in
      let (slices', runs', len, placed) =
        filters_from_lem h.number_of_filters 0 size h
          (let e : 0 + h.number_of_filters ≡ h.number_of_filters = omega arith in
            rw e (omega arith))
          (let e : 0 + h.number_of_filters ≡ h.number_of_filters = omega arith in
            rw e (omega arith)) in
      let same : slices' ≡ slices = cc (runs, runs') in
      let behind = r.layout.behind_header in
      rw ((placed i slice (ap (λ t. get_elem? t i) same ∙ at)).1) (omega arith)

  reload :
      (after : State Hll)
      → IsReadable after.header (length after.mmap)
      → filters_from after.header.number_of_filters 0 after.header (length after.mmap)
        ≡ some after.filters
      → (s : State Hll) × (honas_state_load hll (some (memory after)) ≡ some (loaded s))
        × IsReloaded after s
  unfolding memory file_end filters_end
  reload after r placed =
      let h = after.header in
      let fits = r.fits in
      let behind = r.layout.behind_header in
      let big : 108 ≤ length after.mmap = omega arith in
      let file = write 0 (header_bytes h) after.mmap in
      let size : length file ≡ length after.mmap = length-write 0 (header_bytes h) after.mmap in
      let known : header_of file ≡ h = header_of-header_bytes h after.mmap big r.well_formed in
      let readable : IsReadable (header_of file) (length file) =
        subst (λ t. IsReadable t (length file)) (sym known) (subst (IsReadable h) (sym size) r) in
      let (s, returned, header, can, known_state) =
        load_readable file readable (omega (arith, size)) in
      let placed' : filters_from (header_of file).number_of_filters 0 (header_of file) (length file)
          ≡ some after.filters =
        subst (λ t. filters_from t.number_of_filters 0 t (length file) ≡ some after.filters)
          (sym known)
          (subst (λ n. filters_from h.number_of_filters 0 h n ≡ some after.filters) (sym size)
            placed) in
      (
        s,
        returned,
        record {
          header = header ∙ known;
          filters = cc (known_state.filters, placed');
          bytes = λ i slice e.
              ap (read slice.begin slice.len) (sym known_state.memory)
              ∙ read-write_apart 0 slice.begin slice.len (header_bytes h) after.mmap (
                  inr (
                    omega (
                      arith,
                      length-header_bytes h r.well_formed,
                      filters-behind h (length after.mmap) after.filters r placed i slice e,
                    )));
          can_register = can;
        },
      )

  -- For a state that can be saved (its layout fits its file, its counters fit their slices, its
  -- header has the magic, the version and the sizes) and system calls that succeed, where every
  -- write makes progress: saving returns, the file that it writes is loaded, and the loaded state
  -- has the header, the filters and the bytes of each filter that the state has after saving, and
  -- it is laid out for lookups, as the state before.
  pub honas_state_load-honas_state_persist :
      (system : System) (address : ℕ) (state : State Hll)
      → Succeeds system
      → CanPersist address state
      → (after : State Hll) × (file : List ℕ) × (s : State Hll) × (honas_state_persist hll system
            address state true
          ≡ some (saved after file))
        × (honas_state_load hll (some file) ≡ some (loaded s))
        × IsReloaded after s
  unfolding honas_state_persist
  honas_state_load-honas_state_persist system address state ok h =
      let (after, prepared, updated, (clients, host_names, header)) =
        prepare_returns hll address state h.can_save in
      let written = save_file_returns system address state after ok prepared in
      let readable : IsReadable after.header (length after.mmap) =
        subst (λ t. IsReadable t (length after.mmap)) (sym header)
          (subst (IsReadable (with_estimates state.header (u32 clients) (u32 host_names)))
            (sym updated.size)
            (with_estimates-IsReadable state.header (length state.mmap) clients host_names
              h.readable)) in
      let estimated = with_estimates state.header (u32 clients) (u32 host_names) in
      let moved =
        filters_from_estimates state.header.number_of_filters 0 state.header (u32 clients)
          (u32 host_names) (length state.mmap) in
      let placed : filters_from after.header.number_of_filters 0 after.header (length after.mmap)
          ≡ some after.filters =
        subst (λ t. filters_from t.number_of_filters 0 t (length after.mmap) ≡ some after.filters)
          (sym header)
          (subst (λ n. filters_from estimated.number_of_filters 0 estimated n ≡ some after.filters)
            (sym updated.size) (moved ∙ h.filters_at ∙ ap some (sym updated.filters))) in
      let (s, returned, reloaded) = reload after readable placed in
      (after, memory after, s, rw written refl, returned, reloaded)
