-- ===== src/BitSet/Array.antt =====
-- A set of indexes as an array of bits, whichever way it is stored.
use native.Mathlib.Nat.{mod-eq_of_lt}
use honas.Common.{
  ℕ, ◌+◌, ◌*◌, ◌/◌, ◌%◌, ◌^◌, ◌<◌, ◌≤◌, ◌≡◌, refl, sym, ap, ◌∙◌, arith, List, [], some, ◌==◌,
  if◌then◌else◌, length, replicate, length-replicate, ◌>>=◌, ◌>>◌, Bool-cases, inl, inr, lt→ltb,
  max, min, ==_self,
}
use honas.Bits.{bit, bit_zero}
use honas.ByteSlice.Words.{IsBytes}
use honas.ByteSlice.Single.{bit_at, set_bit_lem, unset_bit_lem, bit_is_set_lem}
use honas.ByteSlice.Many.{clear_lem, byte-replicate}
use honas.ByteSlice.Merge.Bits.{bitwise_or-IsMerge, bitwise_and-IsMerge}
use honas.BitSet.{
  BitSet, ints, using_byte_slice, select, as_byte_slice, byte_count, with_bytes, create, clear_all,
  set_index, unset_index, index_is_set, set_union, set_intersection,
}

-- `set` holds bit `f j` at each index `j`, and there is room for `n` of them.
pub record Represents (n : ℕ) (f : ℕ → ℕ) (set : BitSet) : Type 0 where
  pub bytes : List ℕ
  pub count : set.num_bits ≡ n
  pub shown : as_byte_slice set ≡ some bytes
  pub sized : length bytes ≡ byte_count n
  pub room : n ≤ 8 * length bytes
  pub at : (j : ℕ) → bit_at bytes j ≡ f j

pub as_byte_slice-with_bytes :
    (set : BitSet) (bytes : List ℕ) → as_byte_slice (with_bytes set bytes) ≡ some bytes
unfolding as_byte_slice with_bytes select
as_byte_slice-with_bytes set bytes = elim (Bool-cases (using_byte_slice set.num_bits)) [
  | inl heap ↦ rw heap refl
  | inr inside ↦ rw inside refl
]

-- Other bytes of the same number.
with_bytes-Represents :
    (n : ℕ) (f g : ℕ → ℕ) (set : BitSet) (r : Represents n f set) (bytes : List ℕ)
    → length bytes ≡ length r.bytes
    → ((j : ℕ) → bit_at bytes j ≡ g j)
    → Represents n g (with_bytes set bytes)
unfolding with_bytes
with_bytes-Represents n f g set r bytes len at = record {
  bytes = bytes;
  count = r.count;
  shown = as_byte_slice-with_bytes set bytes;
  sized = len ∙ r.sized;
  room = rw len r.room;
  at = at;
}

byte_count-ge : (n : ℕ) → n + 7 < 2 ^ 64 → n ≤ 8 * byte_count n
unfolding byte_count using_byte_slice
byte_count-ge n fits = ground (arith, mod-eq_of_lt {n = n + 7} {m = 2 ^ 64} fits)

-- A new set of indexes, of which there are at least seven fewer than 2 ^ 64, is empty and has room
-- for all of them.
pub create-Represents : (n : ℕ) → n + 7 < 2 ^ 64 → Represents n (λ j. 0) (create n)
unfolding create with_bytes bit_at
create-Represents n fits = record {
  bytes = replicate (byte_count n) 0;
  count = refl;
  shown =
      as_byte_slice-with_bytes (record { num_bits = n; repr = ints [] })
        (replicate (byte_count n) 0);
  sized = length-replicate (byte_count n) 0;
  room = rw (length-replicate {A = ℕ} (byte_count n) 0) (byte_count-ge n fits);
  at = λ j. ap (λ b. bit b (j % 8)) (byte-replicate (byte_count n) (j / 8)) ∙ bit_zero (j % 8);
}

module _ (n : ℕ) (f : ℕ → ℕ) (set : BitSet) (r : Represents n f set) where
  -- In a set that represents an array of `n` bits, adding an index below `n` succeeds, and the
  -- result represents the array with that bit set.
  pub set_index_lem :
      (idx : ℕ)
      → idx < n
      → (set' : BitSet) × (set_index set idx ≡ some set')
        × Represents n (λ j. if idx == j then 1 else f j) set'
  unfolding set_index
  set_index_lem idx below =
      let (bytes, runs, len, at) = set_bit_lem r.bytes idx (omega (arith, r.room)) in
      (
        with_bytes set bytes,
        rw (r.shown, r.count, lt→ltb idx n below, runs, ◌>>=◌, ◌>>◌) refl,
        with_bytes-Represents n f _ set r bytes len (λ j. ground (arith, at j, r.at j)),
      )

  -- In a set that represents an array of `n` bits, taking an index below `n` out succeeds, and the
  -- result represents the array with that bit cleared.
  pub unset_index_lem :
      (idx : ℕ)
      → idx < n
      → (set' : BitSet) × (unset_index set idx ≡ some set')
        × Represents n (λ j. if idx == j then 0 else f j) set'
  unfolding unset_index
  unset_index_lem idx below =
      let (bytes, runs, len, at) = unset_bit_lem r.bytes idx (omega (arith, r.room)) in
      (
        with_bytes set bytes,
        rw (r.shown, r.count, lt→ltb idx n below, runs, ◌>>=◌, ◌>>◌) refl,
        with_bytes-Represents n f _ set r bytes len (λ j. ground (arith, at j, r.at j)),
      )

  -- In a set that represents an array of `n` bits, the test of an index below `n` succeeds and
  -- reads that bit.
  pub index_is_set_lem : (idx : ℕ) → idx < n → index_is_set set idx ≡ some (f idx == 1)
  unfolding index_is_set
  index_is_set_lem idx below =
      rw (r.shown, r.count, lt→ltb idx n below, ◌>>=◌, ◌>>◌)
        (bit_is_set_lem r.bytes idx (omega (arith, r.room)) ∙ ap (λ b. some (b == 1)) (r.at idx))

  -- Clearing a set that represents an array of `n` bits succeeds, and leaves the empty one.
  pub clear_all_lem : (set' : BitSet) × (clear_all set ≡ some set') × Represents n (λ j. 0) set'
  unfolding clear_all
  clear_all_lem =
      let (len, at) = clear_lem r.bytes in
      (with_bytes set _, rw (r.shown, ◌>>=◌) refl, with_bytes-Represents n f _ set r _ len at)

module _ (n target_address other_address : ℕ) (f g : ℕ → ℕ) (target other : BitSet)
    (r : Represents n f target) (s : Represents n g other) (bt : IsBytes r.bytes)
    (bo : IsBytes s.bytes) (aligned : target_address % 8 ≡ other_address % 8)
    (fits : target_address + length r.bytes + 8 ≤ 2 ^ 64) where
  -- For two sets of bytes that represent arrays of `n` bits, with the same alignment and inside
  -- memory: `|` succeeds, and the result represents the union.
  pub set_union_lem :
      (set' : BitSet) × (set_union target_address other_address target other ≡ some set')
      × Represents n (λ j. max (f j) (g j)) set'
  unfolding set_union
  set_union_lem =
      let (bytes, runs, m) =
        bitwise_or-IsMerge target_address other_address r.bytes s.bytes aligned fits
          (r.sized ∙ sym s.sized) bt bo in
      (
        with_bytes target bytes,
        rw (r.shown, s.shown, r.count, s.count, ==_self n, runs, ◌>>=◌, ◌>>◌) refl,
        with_bytes-Represents n f _ target r bytes m.same_length
            (λ j. m.bits j ∙ omega (arith, r.at j, s.at j)),
      )

  -- For two sets of bytes that represent arrays of `n` bits, with the same alignment and inside
  -- memory: `&` succeeds, and the result represents the intersection.
  pub set_intersection_lem :
      (set' : BitSet) × (set_intersection target_address other_address target other ≡ some set')
      × Represents n (λ j. min (f j) (g j)) set'
  unfolding set_intersection
  set_intersection_lem =
      let (bytes, runs, m) =
        bitwise_and-IsMerge target_address other_address r.bytes s.bytes aligned fits
          (r.sized ∙ sym s.sized) bt bo in
      (
        with_bytes target bytes,
        rw (r.shown, s.shown, r.count, s.count, ==_self n, runs, ◌>>=◌, ◌>>◌) refl,
        with_bytes-Represents n f _ target r bytes m.same_length
            (λ j. m.bits j ∙ omega (arith, r.at j, s.at j)),
      )
