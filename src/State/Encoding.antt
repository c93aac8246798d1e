-- ===== src/State/Encoding.antt =====
-- The bytes of `struct honas_state_file_header`, which is packed and in the order of the fields.
use native.Mathlib.Nat.{pow-suc}
use mathlib.Core.List.{append_assoc, append-nil}
use honas.Common.{
  ℕ, zero, suc, ◌+◌, ◌/◌, ◌^◌, ◌<◌, ◌≤◌, ◌≡◌, refl, sym, ap, ◌∙◌, arith, List, [], ◌∷◌, ◌++◌, some,
  get_elem?, length, All, ap₂, length-append,
}
use honas.ByteSlice.Words.{load, store, IsBytes, length-store, store-IsBytes}
use honas.State.{Header}
use honas.State.Memory.{read, write, read-append_here, read-append_skip, read-write_part}

-- The fields behind the magic: the size in bytes, and the number.
unfoldable pub fields : Header → List (ℕ × ℕ)
fields h =
    (4, h.major_version)
    ∷ (4, h.minor_version)
    ∷ (4, h.first_filter_offset)
    ∷ (4, h.padding_after_filters)
    ∷ (4, h.number_of_filters)
    ∷ (4, h.number_of_bits_per_filter)
    ∷ (4, h.number_of_hashes)
    ∷ (4, h.number_of_filters_per_user)
    ∷ (4, h.flatten_threshold)
    ∷ (4, h.client_hll_size)
    ∷ (4, h.padding_after_client_hll)
    ∷ (4, h.host_name_hll_size)
    ∷ (4, h.padding_after_host_name_hll)
    ∷ (8, h.period_begin)
    ∷ (8, h.period_end)
    ∷ (8, h.first_request)
    ∷ (8, h.last_request)
    ∷ (8, h.number_of_requests)
    ∷ (4, h.estimated_number_of_clients)
    ∷ (4, h.estimated_number_of_host_names)
    ∷ []

pub field_bytes : List (ℕ × ℕ) → List ℕ
field_bytes [] = []
field_bytes ((size, v) ∷ fs) = store size v ++ field_bytes fs

pub header_bytes : Header → List ℕ
unfolding fields field_bytes
header_bytes h = h.file_magic ++ field_bytes (fields h)

-- `*(uint32_t*)` and `*(uint64_t*)` at an offset of the mapped file.
pub u32_at : (begin : ℕ) → List ℕ → ℕ
u32_at begin mmap = load (read begin 4 mmap)

pub u64_at : (begin : ℕ) → List ℕ → ℕ
u64_at begin mmap = load (read begin 8 mmap)

-- The header at the beginning of a mapped file.
pub header_of : List ℕ → Header
unfolding u32_at u64_at
header_of mmap = record {
  file_magic = read 0 8 mmap;
  major_version = u32_at 8 mmap;
  minor_version = u32_at 12 mmap;
  first_filter_offset = u32_at 16 mmap;
  padding_after_filters = u32_at 20 mmap;
  number_of_filters = u32_at 24 mmap;
  number_of_bits_per_filter = u32_at 28 mmap;
  number_of_hashes = u32_at 32 mmap;
  number_of_filters_per_user = u32_at 36 mmap;
  flatten_threshold = u32_at 40 mmap;
  client_hll_size = u32_at 44 mmap;
  padding_after_client_hll = u32_at 48 mmap;
  host_name_hll_size = u32_at 52 mmap;
  padding_after_host_name_hll = u32_at 56 mmap;
  period_begin = u64_at 60 mmap;
  period_end = u64_at 68 mmap;
  first_request = u64_at 76 mmap;
  last_request = u64_at 84 mmap;
  number_of_requests = u64_at 92 mmap;
  estimated_number_of_clients = u32_at 100 mmap;
  estimated_number_of_host_names = u32_at 104 mmap;
}

-- A header whose fields fit their types.
pub record IsHeader (h : Header) : Type 0 where
  pub magic : length h.file_magic ≡ 8
  pub words : All (λ f. f.1 < 256 ^ f.0) (fields h)

load-store : (size v : ℕ) → v < 256 ^ size → load (store size v) ≡ v
unfolding load store
load-store zero v h = omega arith
load-store (suc size) v h =
    omega (arith, pow-suc 256 size, load-store size (v / 256) (omega (arith, pow-suc 256 size)))

-- Where field `k` begins.
abbrev start : List (ℕ × ℕ) → ℕ → ℕ
start [] k = 0
start (f ∷ fs) zero = 0
start (f ∷ fs) (suc k) = f.0 + start fs k

field_at :
    (fs : List (ℕ × ℕ)) (k size v : ℕ) (rest : List ℕ)
    → All (λ f. f.1 < 256 ^ f.0) fs
    → get_elem? fs k ≡ some (size, v)
    → load (read (start fs k) size (field_bytes fs ++ rest)) ≡ v
unfolding field_bytes
field_at [] k size v rest small e = cc e
field_at ((size', v') ∷ fs) zero size v rest small e =
    let same_size : size' ≡ size = cc e in
    let same : v' ≡ v = cc e in
    ap (λ n. load (read 0 n ((store size' v' ++ field_bytes fs) ++ rest)))
      (sym same_size ∙ sym (length-store size' v'))
    ∙ ap (λ bytes. load (read 0 (length (store size' v')) bytes))
        (append_assoc (store size' v') (field_bytes fs) rest)
    ∙ ap load (read-append_here (store size' v') (field_bytes fs ++ rest))
    ∙ load-store size' v' small.0
    ∙ same
field_at ((size', v') ∷ fs) (suc k) size v rest small e =
    ap (λ bytes. load (read (size' + start fs k) size bytes))
      (append_assoc (store size' v') (field_bytes fs) rest)
    ∙ ap (λ n. load (read (n + start fs k) size (store size' v' ++ (field_bytes fs ++ rest))))
        (sym (length-store size' v'))
    ∙ ap load (read-append_skip (store size' v') (field_bytes fs ++ rest) (start fs k) size)
    ∙ field_at fs k size v rest small.1 e

length-field_bytes : (fs : List (ℕ × ℕ)) → length (field_bytes fs) ≡ start fs (length fs)
unfolding field_bytes
length-field_bytes [] = refl
length-field_bytes ((size, v) ∷ fs) =
    length-append (store size v) (field_bytes fs)
    ∙ ap₂ ◌+◌ (length-store size v) (length-field_bytes fs)

pub length-header_bytes : (h : Header) → IsHeader h → length (header_bytes h) ≡ 108
unfolding header_bytes fields
length-header_bytes h well = omega (
  arith,
  length-append h.file_magic (field_bytes (fields h)),
  well.magic,
  length-field_bytes (fields h),
)

-- The number in field `k`, at its offset in a file that begins with the header.
number_at :
    (h : Header) (mmap : List ℕ)
    → 108 ≤ length mmap
    → IsHeader h
    → (k size v begin : ℕ) → get_elem? (fields h) k ≡ some (size, v)
    → begin ≡ 8 + start (fields h) k
    → begin + size ≤ 108
    → load (read begin size (write 0 (header_bytes h) mmap)) ≡ v
unfolding header_bytes
number_at h mmap fits well k size v begin e at inside =
    let whole = length-header_bytes h well in
    let here : 0 + begin ≡ begin = omega arith in
    let behind : begin ≡ length h.file_magic + start (fields h) k = omega (arith, at, well.magic) in
    ap (λ n. load (read n size (write 0 (header_bytes h) mmap))) (sym here)
    ∙ ap load (
        read-write_part 0 begin size (header_bytes h) mmap (omega (arith, whole))
          (omega (arith, whole)))
    ∙ ap (λ n. load (read n size (header_bytes h))) behind
    ∙ ap load (read-append_skip h.file_magic (field_bytes (fields h)) (start (fields h) k) size)
    ∙ ap (λ bytes. load (read (start (fields h) k) size bytes))
        (sym (append-nil (field_bytes (fields h))))
    ∙ field_at (fields h) k size v [] well.words e

magic_at :
    (h : Header) (mmap : List ℕ)
    → 108 ≤ length mmap
    → IsHeader h
    → read 0 8 (write 0 (header_bytes h) mmap) ≡ h.file_magic
unfolding header_bytes
magic_at h mmap fits well =
    let whole = length-header_bytes h well in
    read-write_part 0 0 8 (header_bytes h) mmap (omega (arith, whole)) (omega (arith, whole))
    ∙ ap (λ n. read 0 n (header_bytes h)) (sym well.magic)
    ∙ read-append_here h.file_magic (field_bytes (fields h))

pub header_of-header_bytes :
    (h : Header) (mmap : List ℕ)
    → 108 ≤ length mmap
    → IsHeader h
    → header_of (write 0 (header_bytes h) mmap) ≡ h
unfolding header_of u32_at u64_at fields
header_of-header_bytes h mmap fits well = λ i. record {
  file_magic = magic_at h mmap fits well i;
  major_version = number_at h mmap fits well 0 4 h.major_version 8 refl refl (omega arith) i;
  minor_version = number_at h mmap fits well 1 4 h.minor_version 12 refl refl (omega arith) i;
  first_filter_offset =
      number_at h mmap fits well 2 4 h.first_filter_offset 16 refl refl (omega arith) i;
  padding_after_filters =
      number_at h mmap fits well 3 4 h.padding_after_filters 20 refl refl (omega arith) i;
  number_of_filters =
      number_at h mmap fits well 4 4 h.number_of_filters 24 refl refl (omega arith) i;
  number_of_bits_per_filter =
      number_at h mmap fits well 5 4 h.number_of_bits_per_filter 28 refl refl (omega arith) i;
  number_of_hashes = number_at h mmap fits well 6 4 h.number_of_hashes 32 refl refl (omega arith) i;
  number_of_filters_per_user =
      number_at h mmap fits well 7 4 h.number_of_filters_per_user 36 refl refl (omega arith) i;
  flatten_threshold =
      number_at h mmap fits well 8 4 h.flatten_threshold 40 refl refl (omega arith) i;
  client_hll_size = number_at h mmap fits well 9 4 h.client_hll_size 44 refl refl (omega arith) i;
  padding_after_client_hll =
      number_at h mmap fits well 10 4 h.padding_after_client_hll 48 refl refl (omega arith) i;
  host_name_hll_size =
      number_at h mmap fits well 11 4 h.host_name_hll_size 52 refl refl (omega arith) i;
  padding_after_host_name_hll =
      number_at h mmap fits well 12 4 h.padding_after_host_name_hll 56 refl refl (omega arith) i;
  period_begin = number_at h mmap fits well 13 8 h.period_begin 60 refl refl (omega arith) i;
  period_end = number_at h mmap fits well 14 8 h.period_end 68 refl refl (omega arith) i;
  first_request = number_at h mmap fits well 15 8 h.first_request 76 refl refl (omega arith) i;
  last_request = number_at h mmap fits well 16 8 h.last_request 84 refl refl (omega arith) i;
  number_of_requests =
      number_at h mmap fits well 17 8 h.number_of_requests 92 refl refl (omega arith) i;
  estimated_number_of_clients =
      number_at h mmap fits well 18 4 h.estimated_number_of_clients 100 refl refl (omega arith) i;
  estimated_number_of_host_names =
      number_at h mmap fits well 19 4 h.estimated_number_of_host_names 104 refl refl (omega arith)
        i;
}

append-IsBytes : (xs ys : List ℕ) → IsBytes xs → IsBytes ys → IsBytes (xs ++ ys)
append-IsBytes [] ys hx hy = hy
append-IsBytes (x ∷ xs) ys hx hy = (hx.0, append-IsBytes xs ys hx.1 hy)

field_bytes-IsBytes : (fs : List (ℕ × ℕ)) → IsBytes (field_bytes fs)
unfolding field_bytes
field_bytes-IsBytes [] = tt
field_bytes-IsBytes ((size, v) ∷ fs) =
    append-IsBytes (store size v) (field_bytes fs) (store-IsBytes size v) (field_bytes-IsBytes fs)

pub header_bytes-IsBytes : (h : Header) → IsBytes h.file_magic → IsBytes (header_bytes h)
unfolding header_bytes
header_bytes-IsBytes h magic =
    append-IsBytes h.file_magic (field_bytes (fields h)) magic (field_bytes-IsBytes (fields h))
