-- ===== src/BitSet/Examples.antt =====
-- A set of 20 indexes, which the two integers hold, and one of 200, which they do not.
use honas.Common.{
  ℕ, ap, ◌∙◌, ◌/◌, ◌%◌, ◌+◌, ◌≡◌, refl, arith, some, length, replicate, min, ◌≤◌, ◌^◌,
}
use honas.Bits.{bit, bit_zero}
use honas.ByteSlice.Single.{bit_at}
use honas.ByteSlice.Many.{byte-replicate}
use honas.ByteSlice.Words.{IsBytes}
use honas.BitSet.{
  BitSet, create, set_intersection, byte_count, using_byte_slice, as_byte_slice, with_bytes, select,
}
use honas.BitSet.Array.{Represents, set_intersection_lem}

abbrev no_bits : ℕ → ℕ
no_bits j = 0

abbrev small_set : Represents 20 no_bits (create 20)
unfolding as_byte_slice with_bytes create select byte_count using_byte_slice bit_at
small_set = record {
  bytes = replicate 16 0;
  count = refl;
  shown = refl;
  sized = refl;
  room = omega arith;
  at = λ j. ap (λ b. bit b (j % 8)) (byte-replicate 16 (j / 8)) ∙ bit_zero (j % 8);
}

sixteen_zeros : IsBytes small_set.bytes
unfolding small_set
sixteen_zeros = (
  omega arith,
  (
    omega arith,
    (
      omega arith,
      (
        omega arith,
        (
          omega arith,
          (
            omega arith,
            (
              omega arith,
              (
                omega arith,
                (
                  omega arith,
                  (
                    omega arith,
                    (
                      omega arith,
                      (omega arith, (omega arith, (omega arith, (omega arith, (omega arith, tt))))),
                    ),
                  ),
                ),
              ),
            ),
          ),
        ),
      ),
    ),
  ),
)

room_for_sixteen : 4096 + length small_set.bytes + 8 ≤ 2 ^ 64
unfolding small_set
room_for_sixteen = omega arith

set_intersection_example :
    (set' : BitSet) × (set_intersection 4096 8192 (create 20) (create 20) ≡ some set')
    × Represents 20 (λ j. min 0 0) set'
set_intersection_example =
    set_intersection_lem 20 4096 8192 no_bits no_bits (create 20) (create 20) small_set small_set
      sixteen_zeros sixteen_zeros (omega arith) room_for_sixteen
