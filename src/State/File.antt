-- ===== src/State/File.antt =====
-- `honas_state_load`, `honas_state_persist` and `honas_state_destroy` of src/honas_state.c. The
-- counters of src/hyperloglog.c, the addresses of memory and the results of the system calls are
-- parameters. A counter over a buffer has its registers in the file.
pub mod Written
pub mod Saved
pub mod Loaded
pub mod Safe
pub mod Examples
use honas.Common.{
  ℕ, zero, suc, ◌+◌, ◌-◌, ◌*◌, ◌≡◌, refl, Bool, true, false, not, ◌||◌, ◌&&◌, List, [], ◌∷◌, ◌++◌,
  Option, none, some, ltb, leb, ◌==◌, if◌then◌else◌, u32, bit_and, ℤ, pos, negsuc, length, take,
  drop, get_elem?, same_bytes, require, ◌>>=◌, ◌>>◌,
}
use honas.Bloom.{nr_bits_set}
use honas.ByteSlice.Merge.{bitwise_or}
use honas.ByteSlice.Words.{store}
use honas.State.{State, Slice, Header}
use honas.State.Encoding.{header_bytes, header_of}
use honas.State.Layout.{
  header_size, hll_dense_size, honas_state_file_size, init_common, client_registers,
  host_name_registers,
}
use honas.State.Memory.{read, write}

-- The operations of src/hyperloglog.c: `hllSparseToDense`, `hllInitFromBuffer`, `hllCount`, the
-- registers as bytes, where they lie, and whether the counter owns them.
pub record Counters (Hll : Type 0) : Type 0 where
  pub registers_owned : Hll → Bool
  pub registers : Hll → List ℕ
  pub registers_address : Hll → ℕ
  pub sparse_to_dense : Hll → Hll
  pub init_from_buffer : List ℕ → Hll
  pub count : Hll → ℕ

-- What the system calls of `honas_state_persist` return: `fork` fails, or returns in the child;
-- the others succeed or not; `write` returns -1, or how many bytes it wrote.
pub record System : Type 0 where
  pub fork : Option Bool
  pub tmpfile_opened : Bool
  pub preallocated : Bool
  pub write_call : (total_written remaining : ℕ) → Option ℕ
  pub linked : Bool
  pub closed : Bool

-- The two ways in which it may return, and the exit of the child, with the file that is saved.
pub data Persisted (Hll : Type 0) : Type 0 where
  parent : State Hll → Persisted Hll
  saved : State Hll → List ℕ → Persisted Hll
  exited : List ℕ → Persisted Hll

pub data Loading (Hll : Type 0) : Type 0 where
  refused : ℤ → Loading Hll
  loaded : State Hll → Loading Hll

-- The loop that writes; `none` where `write` fails or the fuel is spent.
pub write_all :
    (fuel : ℕ) (write_call : ℕ → ℕ → Option ℕ) (memory : List ℕ) (total_written : ℕ) (file : List ℕ)
    → Option (List ℕ)
write_all zero write_call memory total_written file =
    if ltb total_written (length memory) then none else some file
write_all (suc fuel) write_call memory total_written file =
    if ltb total_written (length memory)
    then (do
      written ← write_call total_written (length memory - total_written)
      write_all fuel write_call memory (total_written + written)
          (file ++ take written (drop total_written memory)))
    else some file

-- The memory at `state->mmap`, with the header that is kept beside it.
pub memory : {Hll : Type 0} → State Hll → List ℕ
memory state = write 0 (header_bytes state.header) state.mmap

-- `HONAS_STATE_FILE_MAGIC`.
abbrev pub magic : List ℕ
magic = b'D' ∷ b'N' ∷ b'S' ∷ b'B' ∷ b'L' ∷ b'O' ∷ b'O' ∷ b'M' ∷ []

pub compatible : (size : ℕ) → Header → Bool
compatible size h = leb 44 size && (same_bytes h.file_magic magic && (h.major_version == 1))

-- The tests before that of the size.
pub plausible : Header → Bool
plausible h =
    leb header_size h.first_filter_offset
    && (not (h.number_of_filters == 0)
        && (not (h.number_of_bits_per_filter == 0)
            && ((bit_and h.number_of_bits_per_filter 7 == 0)
                && (not (h.number_of_hashes == 0)
                    && ((h.client_hll_size == hll_dense_size)
                        && (h.host_name_hll_size == hll_dense_size))))))

module _ {Hll : Type 0} (hll : Counters Hll) where
  -- One counter, made dense and part of the file: the counter and `mmap` afterwards. A counter that
  -- does not own its registers has them in the file, so that it is what the file holds there.
  pub counter_to_file : (address : ℕ) → Hll → Slice → List ℕ → Option (Hll × List ℕ)
  counter_to_file address counter slice mmap =
      if hll.registers_owned counter
      then (do
        let dense = hll.sparse_to_dense counter
        merged ←
            bitwise_or (address + slice.begin) (hll.registers_address dense)
              (read slice.begin slice.len mmap) (hll.registers dense)
        some (hll.init_from_buffer merged, write slice.begin merged mmap))
      else some (hll.init_from_buffer (read slice.begin slice.len mmap), mmap)

  pub save_clients : (address : ℕ) → State Hll → Option (State Hll)
  unfolding counter_to_file
  save_clients address state = do
    (counter, mmap) ←
        counter_to_file address state.client_count state.client_count_registers state.mmap
    let h = state.header
    some (record state {
      client_count = counter;
      mmap = mmap;
      header = record h { estimated_number_of_clients = u32 (hll.count counter) };
    })

  pub save_host_names : (address : ℕ) → State Hll → Option (State Hll)
  unfolding counter_to_file
  save_host_names address state = do
    (counter, mmap) ←
        counter_to_file address state.host_name_count state.host_name_count_registers state.mmap
    let h = state.header
    some (record state {
      host_name_count = counter;
      mmap = mmap;
      header = record h { estimated_number_of_host_names = u32 (hll.count counter) };
    })

  -- `filter_bits_set[i]`, from filter `i` with `rounds` filters left.
  pub count_bits : (address rounds i : ℕ) → State Hll → Option (State Hll)
  count_bits address zero i state = some state
  count_bits address (suc rounds) i state = do
    filter ← get_elem? state.filters i
    bits ← nr_bits_set (address + filter.begin) (read filter.begin filter.len state.mmap)
    count_bits address rounds (suc i)
        (record state { mmap = write (state.filter_bits_set + 4 * i) (store 4 bits) state.mmap })

  -- What is in memory before the file is written.
  pub prepare : (address : ℕ) → State Hll → Option (State Hll)
  unfolding save_clients save_host_names count_bits
  prepare address state = do
    with_clients ← save_clients address state
    with_both ← save_host_names address with_clients
    count_bits address with_both.header.number_of_filters 0 with_both

  pub save_file : System → (address : ℕ) → State Hll → Option (State Hll × List ℕ)
  unfolding prepare write_all memory
  save_file system address state = do
    state' ← prepare address state
    require system.tmpfile_opened
    require system.preallocated
    file ← write_all (length (memory state')) system.write_call (memory state') 0 []
    require system.linked
    require system.closed
    some (state', file)

  pub honas_state_persist :
      System → (address : ℕ) → State Hll → (blocking : Bool) → Option (Persisted Hll)
  unfolding save_file
  honas_state_persist system address state true = do
    (state', file) ← save_file system address state
    some (saved state' file)
  honas_state_persist system address state false = do
    child ← system.fork
    let written = save_file system address state
    elim child [
      | false ↦ some (parent state)
      | true ↦ (do (state', file) ← written; some (exited file))
    ]

  -- A header that passes the first tests.
  pub load_checked : Header → List ℕ → Option (Loading Hll)
  unfolding plausible
  load_checked h mmap =
      if plausible h
      then (do
        size ←
            honas_state_file_size h.first_filter_offset h.padding_after_filters h.number_of_filters
              h.number_of_bits_per_filter h.client_hll_size h.padding_after_client_hll
              h.host_name_hll_size h.padding_after_host_name_hll
        if ltb (length mmap) size then some (refused (pos 2)) else (do
          let clients = client_registers h
          let host_names = host_name_registers h
          state ←
              init_common (hll.init_from_buffer (read clients.begin clients.len mmap))
                (hll.init_from_buffer (read host_names.begin host_names.len mmap)) h mmap
                (length mmap)
          some (loaded state)))
      else some (refused (pos 2))

  -- `none` is a file that cannot be opened, examined or mapped. After a refusal the state is destroyed.
  pub honas_state_load : Option (List ℕ) → Option (Loading Hll)
  unfolding compatible load_checked
  honas_state_load none = some (refused (negsuc 0))
  honas_state_load (some mmap) =
      let h = header_of mmap in
      if compatible (length mmap) h then load_checked h mmap else some (refused (pos 1))

-- The structure of a state: with all pointers null, or over a mapped file.
pub data Handle (Hll : Type 0) : Type 0 where
  unmapped : Handle Hll
  mapped : State Hll → Handle Hll

pub honas_state_destroy : {Hll : Type 0} → Handle Hll → Handle Hll
honas_state_destroy unmapped = unmapped
honas_state_destroy (mapped state) = unmapped
