-- ===== src/ByteSlice/Murmur.antt =====
-- `byte_slice_MurmurHash64A` of include/byte_slice.h, on a machine with 64-bit little-endian words.
use Prim.Native.Nat.{bit_xor}
use honas.Common.{
  ℕ, zero, suc, ◌*◌, ◌/◌, ◌%◌, List, [], ◌∷◌, if◌then◌else◌, ◌==◌, u64, ◌>>>◌, ◌<<<◌, length, drop,
  get_or,
}
use honas.ByteSlice.Words.{words}

abbrev multiplier : ℕ
multiplier = 0xc6a4a7935bd1e995

abbrev shift : ℕ
shift = 47

-- The loop over whole words.
pub mix_words : ℕ → List ℕ → ℕ
mix_words h [] = h
mix_words h (k ∷ rest) =
    let k1 = u64 (k * multiplier) in
    let k2 = bit_xor k1 (k1 >>> shift) in
    let k3 = u64 (k2 * multiplier) in mix_words (u64 (bit_xor h k3 * multiplier)) rest

-- The cases of the `switch`, each falling through to the next: byte `n - 1` down to byte 0.
pub mix_tail : ℕ → ℕ → List ℕ → ℕ
mix_tail h zero tail = h
mix_tail h (suc k) tail = mix_tail (bit_xor h (get_or tail k 0 <<< (8 * k))) k tail

pub murmur_hash64a : List ℕ → ℕ → ℕ
unfolding mix_words mix_tail
murmur_hash64a slice seed =
    let blocks = length slice / 8 in
    let left = length slice % 8 in
    let start = bit_xor seed (u64 (length slice * multiplier)) in
    let h1 = mix_words start (words 8 blocks slice) in
    let h2 =
      if left == 0 then h1 else u64 (mix_tail h1 left (drop (8 * blocks) slice) * multiplier) in
    let h3 = bit_xor h2 (h2 >>> shift) in
    let h4 = u64 (h3 * multiplier) in bit_xor h4 (h4 >>> shift)
