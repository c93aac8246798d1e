-- ===== src/State/File/Examples.antt =====
-- A file of one filter of 1024 bits behind a header of 112 bytes, with counters whose registers are 0.
use mathlib.Core.Path.{subst}
use honas.Common.{
  ℕ, zero, suc, ◌+◌, ◌%◌, ◌≤◌, ◌≡◌, refl, sym, ap, ◌∙◌, arith, true, List, [], ◌∷◌, Option, none,
  some, replicate, length, length-replicate,
}
use honas.ByteSlice.Words.{IsBytes}
use honas.Combinations.Lookup.{CanLookUp}
use honas.Combinations.Count.{choose}
use honas.State.Register.Chosen.{CanRegister}
use honas.State.{State, Slice, Header}
use honas.State.Encoding.{
  fields, header_bytes, header_bytes-IsBytes, header_of, header_of-header_bytes,
}
use honas.State.Layout.{filters_from, hll_dense_size, client_registers, host_name_registers}
use honas.State.Layout.Created.{file_end}
use honas.State.Layout.Initialized.{IsInitialized}
use honas.State.Layout.Places.{filters_end}
use honas.State.Memory.{write, length-write, write-IsBytes}
use honas.State.File.{
  Counters, System, saved, loaded, magic, write_all, honas_state_persist, honas_state_load,
}
use honas.State.File.Loaded.{
  IsReadable, CanPersist, Succeeds, IsReloaded, load_readable, honas_state_load-honas_state_persist,
}
use honas.State.File.Safe.{IsChecked, honas_state_load-IsChecked}
use honas.State.File.Saved.{Fills}
use honas.State.File.Written.{Progresses, write_all_ends}

abbrev small_header : Header
small_header = record {
  file_magic = magic;
  major_version = 1;
  minor_version = 0;
  first_filter_offset = 112;
  padding_after_filters = 0;
  number_of_filters = 1;
  number_of_bits_per_filter = 1024;
  number_of_hashes = 3;
  number_of_filters_per_user = 1;
  flatten_threshold = 0;
  client_hll_size = hll_dense_size;
  padding_after_client_hll = 7;
  host_name_hll_size = hll_dense_size;
  padding_after_host_name_hll = 0;
  period_begin = 0;
  period_end = 0;
  first_request = 0;
  last_request = 0;
  number_of_requests = 0;
  estimated_number_of_clients = 0;
  estimated_number_of_host_names = 0;
}

one_choose_one : CanLookUp 1 1
unfolding choose
one_choose_one = record {
  some_one = omega arith;
  fits = omega arith;
  word = omega arith;
  small = omega arith;
}

abbrev small_size : ℕ
small_size = 24825

small_header-IsReadable : IsReadable small_header small_size
unfolding fields file_end filters_end
small_header-IsReadable = record {
  well_formed = record { magic = refl; words = ground arith };
  layout = record {
    some_bits = omega arith;
    whole_bytes = refl;
    bits_word = omega arith;
    some_hashes = omega arith;
    can_look_up = one_choose_one;
    behind_header = omega arith;
    small = omega arith;
  };
  magic_bytes = refl;
  version = refl;
  clients = refl;
  host_names = refl;
  fits = omega arith;
}

abbrev byte_counters : Counters ℕ
byte_counters = record {
  registers_owned = λ c. true;
  registers = λ c. replicate hll_dense_size 0;
  registers_address = λ c. 0;
  sparse_to_dense = λ c. c;
  init_from_buffer = λ bytes. 0;
  count = λ c. 7;
}

-- A `write` that writes one byte.
abbrev write_one : ℕ → ℕ → Option ℕ
write_one total remaining = some 1

write_one-Progresses : Progresses write_one
write_one-Progresses total remaining h = (1, refl, omega arith, omega arith)

write_all_ends_example : write_all 3 write_one (7 ∷ 8 ∷ 9 ∷ []) 0 [] ≡ some (7 ∷ 8 ∷ 9 ∷ [])
write_all_ends_example = write_all_ends write_one (7 ∷ 8 ∷ 9 ∷ []) write_one-Progresses

abbrev calm_system : System
calm_system = record {
  fork = none;
  tmpfile_opened = true;
  preallocated = true;
  write_call = write_one;
  linked = true;
  closed = true;
}

calm_system-Succeeds : Succeeds byte_counters calm_system
calm_system-Succeeds = record {
  opened = refl;
  allocated = refl;
  progresses = write_one-Progresses;
  linked = refl;
  closed = refl;
}

abbrev small_file : List ℕ
small_file = write 0 (header_bytes small_header) (replicate small_size 0)

length-small_file : length small_file ≡ small_size
length-small_file =
    length-write 0 (header_bytes small_header) (replicate small_size 0)
    ∙ length-replicate {A = ℕ} small_size 0

zeros-IsBytes : (n : ℕ) → IsBytes (replicate n 0)
zeros-IsBytes zero = tt
zeros-IsBytes (suc n) = (omega arith, zeros-IsBytes n)

small_file-IsBytes : IsBytes small_file
small_file-IsBytes =
    write-IsBytes 0 (header_bytes small_header) (replicate small_size 0)
      (header_bytes-IsBytes small_header (ground arith)) (zeros-IsBytes small_size)

header_of-small_file : header_of small_file ≡ small_header
header_of-small_file =
    header_of-header_bytes small_header (replicate small_size 0)
      (omega (arith, length-replicate {A = ℕ} small_size 0)) small_header-IsReadable.well_formed

small_file-IsReadable : IsReadable (header_of small_file) (length small_file)
small_file-IsReadable =
    subst (λ h. IsReadable h (length small_file)) (sym header_of-small_file)
      (subst (IsReadable small_header) (sym length-small_file) small_header-IsReadable)

small_file_is_loaded :
    (s : State ℕ) × (honas_state_load byte_counters (some small_file) ≡ some (loaded s))
    × (s.header ≡ header_of small_file)
    × CanRegister s
    × IsInitialized (header_of small_file) small_file (length small_file) s
small_file_is_loaded =
    load_readable byte_counters small_file small_file-IsReadable (omega (arith, length-small_file))

abbrev small_state : State ℕ
small_state = small_file_is_loaded.0

honas_state_load-IsChecked_example :
    (small_state.mmap ≡ small_file)
    × (small_state.header ≡ header_of small_file)
    × IsChecked small_state (length small_file)
honas_state_load-IsChecked_example =
    honas_state_load-IsChecked byte_counters small_file small_state small_file_is_loaded.1

-- The zeros that both counters have in place of registers.
zeros_fill :
    (counter : ℕ) (slice : Slice) (mmap : List ℕ)
    → slice.begin % 8 ≡ 0
    → slice.len ≡ hll_dense_size
    → slice.begin + slice.len ≤ length mmap
    → Fills byte_counters 4096 counter slice mmap
zeros_fill counter slice mmap aligned len inside = record {
  inside = inside;
  dense = zeros-IsBytes hll_dense_size;
  len = length-replicate {A = ℕ} hll_dense_size 0 ∙ sym len;
  aligned = omega (arith, aligned);
}

small_state-CanRegister : CanRegister small_state
small_state-CanRegister = small_file_is_loaded.3

started : IsInitialized (header_of small_file) small_file (length small_file) small_state
started = small_file_is_loaded.4

client_slice : small_state.client_count_registers ≡ record { begin = 128; len = hll_dense_size }
unfolding client_registers
client_slice = sym started.clients ∙ ap client_registers header_of-small_file

host_name_slice :
    small_state.host_name_count_registers ≡ record { begin = 12424; len = hll_dense_size }
unfolding host_name_registers client_registers
host_name_slice = sym started.host_names ∙ ap host_name_registers header_of-small_file

length_of_state : length small_state.mmap ≡ small_size
length_of_state = ap length (sym started.memory) ∙ length-small_file

small_state-CanPersist : CanPersist byte_counters 4096 small_state
small_state-CanPersist = record {
  can_save = record {
    mapped = (
      subst IsBytes started.memory small_file-IsBytes,
      omega (arith, length_of_state),
      omega (arith, length_of_state),
    );
    inside = small_state-CanRegister.well_formed.inside;
    count = small_state-CanRegister.well_formed.count;
    behind = (rw client_slice (omega arith), rw host_name_slice (omega arith));
    clients = λ mmap same.
        zeros_fill small_state.client_count small_state.client_count_registers mmap
          (rw client_slice refl) (rw client_slice refl)
          (rw client_slice (omega (arith, same, length_of_state)));
    host_names = λ mmap same.
        zeros_fill small_state.host_name_count small_state.host_name_count_registers mmap
          (rw host_name_slice refl) (rw host_name_slice refl)
          (rw host_name_slice (omega (arith, same, length_of_state)));
  };
  readable =
      subst (λ h. IsReadable h (length small_state.mmap)) started.header
        (subst (λ m. IsReadable (header_of small_file) (length m)) started.memory
          small_file-IsReadable);
  filters_at =
      subst
        (λ h.
          filters_from h.number_of_filters 0 h (length small_state.mmap) ≡ some small_state.filters)
        started.header
        (subst
          (λ m.
            filters_from (header_of small_file).number_of_filters 0 (header_of small_file)
              (length m)
            ≡ some small_state.filters)
          started.memory started.filters);
}

honas_state_load-honas_state_persist_example :
    (after : State ℕ) × (file : List ℕ) × (s : State ℕ) × (honas_state_persist byte_counters
        calm_system 4096 small_state true
      ≡ some (saved after file))
    × (honas_state_load byte_counters (some file) ≡ some (loaded s))
    × IsReloaded byte_counters after s
honas_state_load-honas_state_persist_example =
    honas_state_load-honas_state_persist byte_counters calm_system 4096 small_state
      calm_system-Succeeds small_state-CanPersist
