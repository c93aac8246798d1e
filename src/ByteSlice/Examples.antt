-- ===== src/ByteSlice/Examples.antt =====
-- The properties of byte slices at work on small ones.
use honas.Common.{ℕ, ◌≡◌, refl, arith, List, [], ◌∷◌, some, max, min}
use honas.ByteSlice.Multiply.{IsProduct, mul_loop, mul_loop-IsProduct}
use honas.ByteSlice.Popcount.{byte_slice_popcount, total, byte_slice_popcount_lem}
use honas.ByteSlice.Merge.{bitwise_or, bitwise_and}
use honas.ByteSlice.Merge.Bits.{IsMerge, bitwise_or-IsMerge, bitwise_and-IsMerge}

mul_loop_example :
    IsProduct 32 3000000000 0 (4000000000 ∷ 7 ∷ []) (mul_loop 32 3000000000 0 (4000000000 ∷ 7 ∷ []))
mul_loop_example =
    mul_loop-IsProduct 32 3000000000 0 (4000000000 ∷ 7 ∷ []) (omega arith, (omega arith, tt))
      (omega arith) (omega arith)

bitwise_or_example :
    (result : List ℕ) × (bitwise_or 4097 8193 (1 ∷ 2 ∷ []) (4 ∷ 8 ∷ []) ≡ some result)
    × IsMerge max (1 ∷ 2 ∷ []) (4 ∷ 8 ∷ []) result
bitwise_or_example =
    bitwise_or-IsMerge 4097 8193 (1 ∷ 2 ∷ []) (4 ∷ 8 ∷ []) (omega arith) (omega arith) refl
      (omega arith, (omega arith, tt)) (omega arith, (omega arith, tt))

bitwise_and_example :
    (result : List ℕ) × (bitwise_and 4097 8193 (1 ∷ 10 ∷ []) (4 ∷ 8 ∷ []) ≡ some result)
    × IsMerge min (1 ∷ 10 ∷ []) (4 ∷ 8 ∷ []) result
bitwise_and_example =
    bitwise_and-IsMerge 4097 8193 (1 ∷ 10 ∷ []) (4 ∷ 8 ∷ []) (omega arith) (omega arith) refl
      (omega arith, (omega arith, tt)) (omega arith, (omega arith, tt))

byte_slice_popcount_example : byte_slice_popcount 4099 (255 ∷ 6 ∷ []) ≡ some (total (255 ∷ 6 ∷ []))
byte_slice_popcount_example =
    byte_slice_popcount_lem 4099 (255 ∷ 6 ∷ []) (omega arith, (omega arith, tt)) (omega arith)
      (omega arith)
