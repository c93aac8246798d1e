-- ===== src/Bloom.antt =====
-- include/bloom.h and src/bloom.c: which bits of a filter belong to a hash, setting them, and
-- testing them. Filters and hashes are lists of bytes.
pub mod Insertion
pub mod Offsets
pub mod Membership
pub mod Examples
use honas.Common.{
  ℕ, zero, suc, ◌+◌, ◌-◌, ◌*◌, ◌/◌, ◌%◌, ◌^◌, bit_and, ◌≡◌, refl, Bool, ◌&&◌, List, [], ◌∷◌, Option,
  none, some, ltb, leb, ◌==◌, if◌then◌else◌, u32, ◌<<<◌, length, get_or, set, replicate, require,
  ◌>>=◌, ◌>>◌,
}
use honas.ByteSlice.{set_bits, all_bits_set}
use honas.ByteSlice.Words.{words}
use honas.ByteSlice.Multiply.{mul_loop}
use honas.ByteSlice.Popcount.{byte_slice_popcount}

-- `ffs` and `ffsl` of the C library: the position, from 1, of the lowest bit that is set, 0 if
-- there is none; looked for among the `width` lowest bits.
pub ffs : ℕ → ℕ → ℕ
ffs zero n = 0
ffs (suc width) n =
    let higher = ffs width (n / 2) in
    if n % 2 == 1 then 1 else if higher == 0 then 0 else higher + 1

-- `if (lost_bits > 1) data[0] += overflow & mask;`
pub readd_entropy : (w bs overflow : ℕ) → List ℕ → List ℕ
readd_entropy w bs overflow hash =
    let lost_bits = ffs w bs in
    if ltb 1 lost_bits
    then set hash 0 ((get_or hash 0 0 + bit_and overflow ((1 <<< (lost_bits - 1)) - 1)) % 2 ^ w)
    else hash

-- The inner `while` loop and the write after it, at index `i`, with `rounds` rounds left.
pub insert_offset : (rounds num_bits i new : ℕ) → List ℕ → List ℕ
insert_offset zero num_bits i new offsets = set offsets i new
insert_offset (suc rounds) num_bits i new offsets =
    let moved =
      insert_offset rounds num_bits (suc i) (u32 (new + 1))
        (set offsets i (get_or offsets (suc i) 0)) in
    if ltb (suc i) num_bits && leb (get_or offsets (suc i) 0) new then moved else set offsets i new

-- The outer loop, with `j` rounds left, over words of `w` bits.
pub offsets_loop : (w num_bits j : ℕ) → List ℕ → ℕ → List ℕ → List ℕ
offsets_loop w num_bits zero hash bs offsets = offsets
offsets_loop w num_bits (suc i) hash bs offsets =
    let (hash', overflow) = mul_loop w (bs % 2 ^ w) 0 hash in
    offsets_loop w num_bits i (readd_entropy w bs overflow hash') (bs - 1)
      (insert_offset num_bits num_bits i (u32 overflow) offsets)

-- With `HAS_BYTE_SLICE_MUL64` defined: 64-bit words where the hash is made of them.
pub determine_offsets : (bit_offsets_len filtersize : ℕ) → List ℕ → Option (List ℕ)
determine_offsets bit_offsets_len filtersize input_hash = do
  require (leb 1 filtersize && ltb filtersize (1 <<< 29))
  require (leb 1 bit_offsets_len)
  require (ltb 0 (length input_hash))
  let bit_offsets = replicate bit_offsets_len 0
  let bs = filtersize <<< 3
  let num_bits = if ltb bs bit_offsets_len then bs else bit_offsets_len
  let hash64 = words 8 (length input_hash / 8) input_hash
  let hash32 = words 4 (length input_hash / 4) input_hash
  if length input_hash % 8 == 0
      then some (offsets_loop 64 num_bits num_bits hash64 bs bit_offsets)
      else (do
        require (length input_hash % 4 == 0)
        some (offsets_loop 32 num_bits num_bits hash32 bs bit_offsets))

pub set_hash : List ℕ → List ℕ → ℕ → Option (List ℕ)
set_hash filter hash num_bits = do
  bit_offsets ← determine_offsets num_bits (length filter) hash
  set_bits filter bit_offsets

abbrev pub nr_bits_set : (address : ℕ) → List ℕ → Option ℕ
nr_bits_set address filter = byte_slice_popcount address filter

pub is_set : List ℕ → List ℕ → ℕ → Option Bool
is_set filter hash num_bits = do
  bit_offsets ← determine_offsets num_bits (length filter) hash
  all_bits_set filter bit_offsets
