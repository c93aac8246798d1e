-- ===== src/ByteSlice/Single.antt =====
-- A slice as an array of bits: each operation on single bits is a read or a write of that array,
-- and its assertion holds exactly for the indexes of the array.
use honas.Common.{
  ℕ, zero, suc, ◌-◌, ◌*◌, ◌/◌, ◌%◌, ◌^◌, ◌≤◌, ◌<◌, max, min, bit_and, bit_or, ◌≡◌, refl, sym, ap,
  ◌∙◌, arith, inl, inr, Bool, true, not, ◌&&◌, List, some, ◌==◌, if◌then◌else◌, lt→ltb, ==→eq,
  Bool-cases, length, set, length-set, get_or-set_self, get_or-set_ne, get_or_out, u8, ◌<<<◌,
}
use native.Mathlib.Nat.{one-le-pow}
use honas.Bits.{bit, bit-lt, bit_zero, bit-bit_or, bit-bit_and, bit-pow, bit-mod_pow, bit_and-pow}
use honas.Bits.Digitwise.{bit_and_mask}
use honas.ByteSlice.{byte, set_bit, unset_bit, bit_is_set}

-- Bit `i` of the slice, 0 past its end.
unfoldable pub bit_at : List ℕ → ℕ → ℕ
bit_at slice i = bit (byte slice (i / 8)) (i % 8)

pub bit_at-lt : (slice : List ℕ) (i : ℕ) → bit_at slice i < 2
unfolding bit_at
bit_at-lt slice i = bit-lt (byte slice (i / 8)) (i % 8)

pub bit_at_out : (slice : List ℕ) (i : ℕ) → length slice ≤ i / 8 → bit_at slice i ≡ 0
unfolding bit_at
bit_at_out slice i h = ap (λ n. bit n (i % 8)) (get_or_out slice (i / 8) 0 h) ∙ bit_zero (i % 8)

pub bit_and_seven : (i : ℕ) → bit_and i 7 ≡ i % 8
bit_and_seven i = bit_and_mask 3 i

same_index : (i j : ℕ) → i / 8 ≡ j / 8 → (i % 8 == j % 8) ≡ (i == j)
same_index i j h = ground arith

-- Writing byte `i / 8` so that only bit `i % 8` of it changes.
bit_at-set :
    (slice : List ℕ) (i n v : ℕ)
    → i / 8 < length slice
    → ((k : ℕ) → k < 8 → bit n k ≡ (if i % 8 == k then v else bit (byte slice (i / 8)) k))
    → (j : ℕ) → bit_at (set slice (i / 8) n) j ≡ (if i == j then v else bit_at slice j)
unfolding bit_at
bit_at-set slice i n v h only j = elim (Bool-cases (i / 8 == j / 8)) [
  | inl e ↦
      let same : i / 8 ≡ j / 8 = ground arith in
      let at : byte (set slice (i / 8) n) (j / 8) ≡ n =
        ap (byte (set slice (i / 8) n)) (sym same) ∙ get_or-set_self slice (i / 8) n 0 h in
      rw at (
        only (j % 8) (omega arith)
        ∙ ap (λ b. if b then v else bit (byte slice (i / 8)) (j % 8)) (same_index i j same)
        ∙ ap (λ q. if i == j then v else bit (byte slice q) (j % 8)) same)
  | inr e ↦ rw (get_or-set_ne slice (i / 8) (j / 8) n 0 (ground arith)) (ground arith)
]

set_digit :
    (x k b : ℕ) → b < 8 → k < 8 → bit (u8 (bit_or x (1 <<< b))) k ≡ (if b == k then 1 else bit x k)
set_digit x k b hb hk =
    bit-mod_pow 8 (bit_or x (1 <<< b)) k hk
    ∙ bit-bit_or x (1 <<< b) k
    ∙ ap (λ n. max (bit x k) (bit n k)) (omega arith)
    ∙ ap (max (bit x k)) (bit-pow b k)
    ∙ ground (arith, bit-lt x k)

-- A write inside the slice succeeds, sets that bit and leaves the length and the other bits.
pub set_bit_lem :
    (slice : List ℕ) (i : ℕ)
    → i / 8 < length slice
    → (slice' : List ℕ) × (set_bit slice i ≡ some slice')
      × (length slice' ≡ length slice)
      × ((j : ℕ) → bit_at slice' j ≡ (if i == j then 1 else bit_at slice j))
unfolding set_bit
set_bit_lem slice i h =
    let n = u8 (bit_or (byte slice (i / 8)) (1 <<< bit_and i 7)) in
    (
      set slice (i / 8) n,
      rw (lt→ltb (i / 8) (length slice) h) refl,
      length-set slice (i / 8) n,
      bit_at-set slice i n 1 h
          λ k hk. rw (bit_and_seven i) (set_digit (byte slice (i / 8)) k (i % 8) (omega arith) hk),
    )

bit_is_set_value : (x k : ℕ) → not (bit_and x (1 <<< k) == 0) ≡ (bit x k == 1)
bit_is_set_value x k =
    let shifted : 1 <<< k ≡ 2 ^ k = omega arith in
    elim (Bool-cases (bit x k == 1)) [
      | inl e ↦
          let one : bit x k ≡ 1 = ground arith in
          ground (
            arith,
            shifted,
            bit_and-pow x k,
            one-le-pow k 2,
            ap (λ n. n * 2 ^ k) one,
            ap (bit_and x) shifted,
          )
      | inr e ↦
          let none_set : bit x k ≡ 0 = ground (arith, bit-lt x k) in
          ground
            (arith, shifted, bit_and-pow x k, ap (λ n. n * 2 ^ k) none_set, ap (bit_and x) shifted)
    ]

-- A read inside the slice is a read of the array of bits.
pub bit_is_set_lem :
    (slice : List ℕ) (i : ℕ)
    → i / 8 < length slice
    → bit_is_set slice i ≡ some (bit_at slice i == 1)
unfolding bit_is_set bit_at
bit_is_set_lem slice i h =
    rw (lt→ltb (i / 8) (length slice) h, bit_and_seven i)
      (ap some (bit_is_set_value (byte slice (i / 8)) (i % 8)))

-- The complement of a mask of one bit, at each of the eight bits of a byte.
all_below : ℕ → (ℕ → Bool) → Bool
all_below zero p = true
all_below (suc n) p = p n && all_below n p

all_below_lem : (n : ℕ) (p : ℕ → Bool) (x : ℕ) → all_below n p ≡ true → x < n → p x ≡ true
unfolding all_below
all_below_lem zero p x h lt = absurd (omega arith)
all_below_lem (suc n) p x h lt = ground (arith, all_below_lem n p x)

inverted_table :
    all_below 8 (λ b. all_below 8 (λ k. bit (2 ^ 32 - 1 - 1 <<< b) k == (if b == k then 0 else 1)))
    ≡ true
unfolding all_below bit
inverted_table = refl

inverted_digit :
    (b k : ℕ) → b < 8 → k < 8 → bit (2 ^ 32 - 1 - 1 <<< b) k ≡ (if b == k then 0 else 1)
inverted_digit b k hb hk =
    ==→eq (bit (2 ^ 32 - 1 - 1 <<< b) k) (if b == k then 0 else 1)
      (all_below_lem 8 _ k (all_below_lem 8 _ b inverted_table hb) hk)

unset_digit :
    (x k b : ℕ)
    → b < 8
    → k < 8
    → bit (u8 (bit_and x (2 ^ 32 - 1 - 1 <<< b))) k ≡ (if b == k then 0 else bit x k)
unset_digit x k b hb hk =
    bit-mod_pow 8 (bit_and x (2 ^ 32 - 1 - 1 <<< b)) k hk
    ∙ bit-bit_and x (2 ^ 32 - 1 - 1 <<< b) k
    ∙ ap (min (bit x k)) (inverted_digit b k hb hk)
    ∙ ground (arith, bit-lt x k)

-- A write inside the slice succeeds, clears that bit and leaves the length and the other bits.
pub unset_bit_lem :
    (slice : List ℕ) (i : ℕ)
    → i / 8 < length slice
    → (slice' : List ℕ) × (unset_bit slice i ≡ some slice')
      × (length slice' ≡ length slice)
      × ((j : ℕ) → bit_at slice' j ≡ (if i == j then 0 else bit_at slice j))
unfolding unset_bit
unset_bit_lem slice i h =
    let n = u8 (bit_and (byte slice (i / 8)) (2 ^ 32 - 1 - 1 <<< bit_and i 7)) in
    (
      set slice (i / 8) n,
      rw (lt→ltb (i / 8) (length slice) h) refl,
      length-set slice (i / 8) n,
      bit_at-set slice i n 0 h λ k hk.
          rw (bit_and_seven i) (unset_digit (byte slice (i / 8)) k (i % 8) (omega arith) hk),
    )
