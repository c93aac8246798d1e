-- ===== src/Bloom/Examples.antt =====
-- A filter of four bytes and hashes of eight.
use honas.Common.{ℕ, ◌*◌, ◌≡◌, refl, arith, List, [], ◌∷◌, true, some, length, replicate, max, inl}
use honas.ByteSlice.Words.{IsBytes, words, load}
use honas.ByteSlice.Merge.{bitwise_or}
use honas.ByteSlice.{all_bits_set, bit_is_set}
use honas.ByteSlice.Multiply.{mul_loop, mul_round}
use honas.Bloom.{
  ffs, readd_entropy, insert_offset, offsets_loop, determine_offsets, set_hash, is_set,
}
use honas.Bloom.Offsets.{IsOffsets, determine_offsets-IsOffsets}
use honas.Bloom.Membership.{
  CanUse, AllFound, set_hashes, set_hashes-AllFound, is_set-set_hash_other, is_set-IsMerge,
}
use honas.ByteSlice.Merge.Bits.{IsMerge, bitwise_or-IsMerge}

abbrev empty : List ℕ
empty = replicate 4 0

abbrev full : List ℕ
full = replicate 4 255

abbrev hash : List ℕ
hash = 1 ∷ 2 ∷ 3 ∷ 4 ∷ 5 ∷ 6 ∷ 7 ∷ 8 ∷ []

abbrev other : List ℕ
other = 8 ∷ 7 ∷ 6 ∷ 5 ∷ 4 ∷ 3 ∷ 2 ∷ 1 ∷ []

can_use : (filter : List ℕ) → length filter ≡ 4 → CanUse filter hash 3
can_use filter e = record {
  size = (omega arith, omega arith);
  is_hash = (omega arith, omega arith, hash-IsBytes);
  some_bits = omega arith;
}
  where
    hash-IsBytes : IsBytes hash
    hash-IsBytes = (
      omega arith,
      (
        omega arith,
        (
          omega arith,
          (omega arith, (omega arith, (omega arith, (omega arith, (omega arith, tt))))),
        ),
      ),
    )

CanUse-other : (filter : List ℕ) → length filter ≡ 4 → CanUse filter other 3
CanUse-other filter e = record {
  size = (omega arith, omega arith);
  is_hash = (omega arith, omega arith, other-IsBytes);
  some_bits = omega arith;
}
  where
    other-IsBytes : IsBytes other
    other-IsBytes = (
      omega arith,
      (
        omega arith,
        (
          omega arith,
          (omega arith, (omega arith, (omega arith, (omega arith, (omega arith, tt))))),
        ),
      ),
    )

set_hashes_example :
    (result : List ℕ) × (set_hashes empty (hash ∷ other ∷ []) 3 ≡ some result)
    × AllFound result 3 (hash ∷ other ∷ [])
set_hashes_example =
    set_hashes-AllFound empty (hash ∷ other ∷ []) 3
      (can_use empty refl, (CanUse-other empty refl, tt))

determine_offsets_example :
    (offsets : List ℕ) × (determine_offsets 3 4 hash ≡ some offsets) × IsOffsets (4 * 8) 3 offsets
determine_offsets_example =
    determine_offsets-IsOffsets 3 4 hash (omega arith) (omega arith, omega arith)
      (can_use empty refl).is_hash

is_set-full : is_set full hash 3 ≡ some true
unfolding is_set determine_offsets ffs readd_entropy insert_offset offsets_loop words load mul_loop
    mul_round all_bits_set bit_is_set
is_set-full = refl

set_hash-other_example :
    (result : List ℕ) × (set_hash full other 3 ≡ some result)
    × (is_set result hash 3 ≡ some true)
    × (length result ≡ 4)
set_hash-other_example =
    is_set-set_hash_other full hash other 3 (can_use full refl) (CanUse-other full refl) is_set-full

merge_full :
    (result : List ℕ) × (bitwise_or 4096 8192 full empty ≡ some result)
    × IsMerge max full empty result
merge_full =
    bitwise_or-IsMerge 4096 8192 full empty (omega arith) (omega arith) refl
      (omega arith, (omega arith, (omega arith, (omega arith, tt))))
      (omega arith, (omega arith, (omega arith, (omega arith, tt))))

is_set-merge_example : is_set merge_full.0 hash 3 ≡ some true
is_set-merge_example =
    is_set-IsMerge full empty merge_full.0 hash 3 (can_use full refl) refl merge_full.2
      (inl is_set-full)
