-- ===== src/ByteSlice/Merge/Bits.antt =====
-- The merged slices as arrays of bits: `|` is union and `&` is intersection.
use honas.Common.{
  ℕ, zero, suc, ◌+◌, ◌/◌, ◌%◌, ◌<◌, ◌≤◌, ◌≡◌, refl, ap, ◌∙◌, arith, List, [], ◌∷◌, length, bit_or,
  bit_and, max, min, some, get_or_out, dec_lt, ◌^◌,
}
use honas.Bits.{bit, bit-bit_or, bit-bit_and}
use honas.Bits.Digitwise.{IsBitwise, or-IsBitwise, and-IsBitwise, op-lt}
use honas.ByteSlice.{byte}
use honas.ByteSlice.Words.{IsBytes}
use honas.ByteSlice.Single.{bit_at}
use honas.ByteSlice.Merge.{bitwise_or, bitwise_and, merged, bitwise_lem}

pub length-merged : (op : ℕ → ℕ → ℕ) (ts os : List ℕ) → length (merged op ts os) ≡ length ts
unfolding merged
length-merged op [] os = refl
length-merged op (t ∷ ts) [] = refl
length-merged op (t ∷ ts) (o ∷ os) = ap suc (length-merged op ts os)

byte-merged :
    (op : ℕ → ℕ → ℕ) (ts os : List ℕ) (i : ℕ)
    → i < length ts
    → i < length os
    → byte (merged op ts os) i ≡ op (byte ts i) (byte os i)
unfolding merged
byte-merged op [] os i h k = absurd (omega arith)
byte-merged op (t ∷ ts) [] i h k = absurd (omega arith)
byte-merged op (t ∷ ts) (o ∷ os) zero h k = refl
byte-merged op (t ∷ ts) (o ∷ os) (suc i) h k = byte-merged op ts os i (omega arith) (omega arith)

byte-merged_rest :
    (op : ℕ → ℕ → ℕ) (ts os : List ℕ) (i : ℕ) → length os ≤ i → byte (merged op ts os) i ≡ byte ts i
unfolding merged
byte-merged_rest op [] os i h = refl
byte-merged_rest op (t ∷ ts) [] i h = refl
byte-merged_rest op (t ∷ ts) (o ∷ os) zero h = absurd (omega arith)
byte-merged_rest op (t ∷ ts) (o ∷ os) (suc i) h = byte-merged_rest op ts os i (omega arith)

pub merged-IsBytes :
    (op digit : ℕ → ℕ → ℕ) (digitwise : IsBitwise op digit) (ts os : List ℕ)
    → IsBytes ts
    → IsBytes os
    → IsBytes (merged op ts os)
unfolding merged
merged-IsBytes op digit digitwise [] os bt bo = tt
merged-IsBytes op digit digitwise (t ∷ ts) [] bt bo = bt
merged-IsBytes op digit digitwise (t ∷ ts) (o ∷ os) bt bo =
    (op-lt op digit digitwise 8 t o bt.0 bo.0, merged-IsBytes op digit digitwise ts os bt.1 bo.1)

-- `slice` and `other` have the same length, and `result` has it too.
abbrev pub SameLength : List ℕ → List ℕ → Type 0
SameLength slice other = length slice ≡ length other

pub bit_at-merged_or :
    (ts os : List ℕ)
    → SameLength ts os
    → (j : ℕ) → bit_at (merged bit_or ts os) j ≡ max (bit_at ts j) (bit_at os j)
unfolding bit_at
bit_at-merged_or ts os same j = elim (dec_lt (j / 8) (length ts)) [
  | yes inside ↦
      ap (λ n. bit n (j % 8)) (byte-merged bit_or ts os (j / 8) inside (omega arith))
      ∙ bit-bit_or (byte ts (j / 8)) (byte os (j / 8)) (j % 8)
  | no past ↦
      ap (λ n. bit n (j % 8)) (byte-merged_rest bit_or ts os (j / 8) (omega arith))
      ∙ ground (
        arith,
        ap (λ n. bit n (j % 8)) (get_or_out ts (j / 8) 0 (omega arith)),
        ap (λ n. bit n (j % 8)) (get_or_out os (j / 8) 0 (omega arith)),
      )
]

pub bit_at-merged_and :
    (ts os : List ℕ)
    → SameLength ts os
    → (j : ℕ) → bit_at (merged bit_and ts os) j ≡ min (bit_at ts j) (bit_at os j)
unfolding bit_at
bit_at-merged_and ts os same j = elim (dec_lt (j / 8) (length ts)) [
  | yes inside ↦
      ap (λ n. bit n (j % 8)) (byte-merged bit_and ts os (j / 8) inside (omega arith))
      ∙ bit-bit_and (byte ts (j / 8)) (byte os (j / 8)) (j % 8)
  | no past ↦
      ap (λ n. bit n (j % 8)) (byte-merged_rest bit_and ts os (j / 8) (omega arith))
      ∙ ground (
        arith,
        ap (λ n. bit n (j % 8)) (get_or_out ts (j / 8) 0 (omega arith)),
        ap (λ n. bit n (j % 8)) (get_or_out os (j / 8) 0 (omega arith)),
      )
]

-- `result` is the bytewise `op` of two slices of one length, and its bits are `digit` of theirs.
pub record IsMerge (digit : ℕ → ℕ → ℕ) (ts os result : List ℕ) : Type 0 where
  pub same_length : length result ≡ length ts
  pub bytes : IsBytes result
  pub bits : (j : ℕ) → bit_at result j ≡ digit (bit_at ts j) (bit_at os j)

module _ (target_address other_address : ℕ) (ts os : List ℕ)
    (aligned : target_address % 8 ≡ other_address % 8)
    (fits : target_address + length ts + 8 ≤ 2 ^ 64) (same : SameLength ts os) (bt : IsBytes ts)
    (bo : IsBytes os) where
  -- For slices of bytes of one length and one alignment, which end below the end of memory: the
  -- function returns, with bytes whose bits are the union of the two.
  pub bitwise_or-IsMerge :
      (result : List ℕ) × (bitwise_or target_address other_address ts os ≡ some result)
      × IsMerge max ts os result
  unfolding bitwise_or
  bitwise_or-IsMerge = (
    merged bit_or ts os,
    bitwise_lem bit_or max or-IsBitwise target_address other_address ts os aligned fits bt bo,
    record {
      same_length = length-merged bit_or ts os;
      bytes = merged-IsBytes bit_or max or-IsBitwise ts os bt bo;
      bits = bit_at-merged_or ts os same;
    },
  )

  -- For slices of bytes of one length and one alignment, which end below the end of memory: the
  -- function returns, with bytes whose bits are the intersection of the two.
  pub bitwise_and-IsMerge :
      (result : List ℕ) × (bitwise_and target_address other_address ts os ≡ some result)
      × IsMerge min ts os result
  unfolding bitwise_and
  bitwise_and-IsMerge = (
    merged bit_and ts os,
    bitwise_lem bit_and min and-IsBitwise target_address other_address ts os aligned fits bt bo,
    record {
      same_length = length-merged bit_and ts os;
      bytes = merged-IsBytes bit_and min and-IsBitwise ts os bt bo;
      bits = bit_at-merged_and ts os same;
    },
  )
