-- ===== src/ByteSlice/Many.antt =====
-- The operations of include/byte_slice.h on a sequence of bits, and `byte_slice_clear`, over the
-- slice as an array of bits.
use honas.Common.{
  ℕ, zero, suc, ◌/◌, ◌%◌, ◌<◌, ◌≤◌, ◌≡◌, refl, ap, ◌∙◌, arith, Bool, true, false, ◌&&◌, ◌||◌, List,
  [], ◌∷◌, some, ◌==◌, if◌then◌else◌, length, replicate, All, length-replicate, ◌>>=◌,
}
use honas.Bits.{bit_zero, bit}
use honas.ByteSlice.{byte, set_bits, unset_bits, all_bits_set, any_bit_set, clear}
use honas.ByteSlice.Single.{bit_at, set_bit_lem, unset_bit_lem, bit_is_set_lem}

-- Every index is one of the slice.
abbrev pub InRange : List ℕ → List ℕ → Type 0
InRange slice = All (λ i. i / 8 < length slice)

pub InRange-length :
    (slice slice' : List ℕ) (bits : List ℕ)
    → length slice' ≡ length slice
    → InRange slice bits
    → InRange slice' bits
InRange-length slice slice' [] e h = tt
InRange-length slice slice' (i ∷ bits) e h = (omega arith, InRange-length slice slice' bits e h.1)

pub contains : List ℕ → ℕ → Bool
contains [] j = false
contains (i ∷ bits) j = (i == j) || contains bits j

pub every : (ℕ → Bool) → List ℕ → Bool
every p [] = true
every p (i ∷ bits) = p i && every p bits

pub some_one : (ℕ → Bool) → List ℕ → Bool
some_one p [] = false
some_one p (i ∷ bits) = p i || some_one p bits

-- `after` is `before` with `v` written at the indexes `bits`.
pub record IsWritten (bits : List ℕ) (v : ℕ) (before : List ℕ) (after : List ℕ) : Type 0 where
  pub same_length : length after ≡ length before
  pub bits_at : (j : ℕ) → bit_at after j ≡ (if contains bits j then v else bit_at before j)

-- Setting bits at indexes of the slice succeeds, and writes 1 at each of them and nowhere else.
pub set_bits_lem :
    (slice bits : List ℕ)
    → InRange slice bits
    → (slice' : List ℕ) × (set_bits slice bits ≡ some slice') × IsWritten bits 1 slice slice'
unfolding set_bits contains
set_bits_lem slice [] h = (slice, refl, record { same_length = refl; bits_at = λ j. refl })
set_bits_lem slice (i ∷ bits) h =
    let (mid, runs, len, at) = set_bit_lem slice i h.0 in
    let (last, runs', written) = set_bits_lem mid bits (InRange-length slice mid bits len h.1) in
    (
      last,
      rw (runs, ◌>>=◌) runs',
      record {
        same_length = written.same_length ∙ len;
        bits_at = λ j. ground (arith, at j, written.bits_at j);
      },
    )

-- Clearing bits at indexes of the slice succeeds, and writes 0 at each of them and nowhere else.
pub unset_bits_lem :
    (slice bits : List ℕ)
    → InRange slice bits
    → (slice' : List ℕ) × (unset_bits slice bits ≡ some slice') × IsWritten bits 0 slice slice'
unfolding unset_bits contains
unset_bits_lem slice [] h = (slice, refl, record { same_length = refl; bits_at = λ j. refl })
unset_bits_lem slice (i ∷ bits) h =
    let (mid, runs, len, at) = unset_bit_lem slice i h.0 in
    let (last, runs', written) = unset_bits_lem mid bits (InRange-length slice mid bits len h.1) in
    (
      last,
      rw (runs, ◌>>=◌) runs',
      record {
        same_length = written.same_length ∙ len;
        bits_at = λ j. ground (arith, at j, written.bits_at j);
      },
    )

-- For indexes of the slice, the search that stops early answers whether every bit is set.
pub all_bits_set_lem :
    (slice bits : List ℕ)
    → InRange slice bits
    → all_bits_set slice bits ≡ some (every (λ i. bit_at slice i == 1) bits)
unfolding all_bits_set every
all_bits_set_lem slice [] h = refl
all_bits_set_lem slice (i ∷ bits) h =
    ground (arith, bit_is_set_lem slice i h.0, all_bits_set_lem slice bits h.1)

-- For indexes of the slice, the search that stops early answers whether some bit is set.
pub any_bit_set_lem :
    (slice bits : List ℕ)
    → InRange slice bits
    → any_bit_set slice bits ≡ some (some_one (λ i. bit_at slice i == 1) bits)
unfolding any_bit_set some_one
any_bit_set_lem slice [] h = refl
any_bit_set_lem slice (i ∷ bits) h =
    ground (arith, bit_is_set_lem slice i h.0, any_bit_set_lem slice bits h.1)

every-All : (p : ℕ → Bool) (bits : List ℕ) → All (λ i. p i ≡ true) bits → every p bits ≡ true
unfolding every
every-All p [] h = refl
every-All p (i ∷ bits) h = ground (arith, every-All p bits h.1)

All-every : (p : ℕ → Bool) (bits : List ℕ) → every p bits ≡ true → All (λ i. p i ≡ true) bits
unfolding every
All-every p [] h = tt
All-every p (i ∷ bits) h = (ground arith, All-every p bits (ground arith))

-- All bits of a sequence stay set in every slice of the same length that has no fewer bits.
pub all_bits_set_mono :
    (slice slice' bits : List ℕ)
    → InRange slice bits
    → length slice' ≡ length slice
    → ((j : ℕ) → bit_at slice j ≤ bit_at slice' j)
    → ((j : ℕ) → bit_at slice' j < 2)
    → all_bits_set slice bits ≡ some true
    → all_bits_set slice' bits ≡ some true
unfolding all_bits_set
all_bits_set_mono slice slice' [] h len le lt e = refl
all_bits_set_mono slice slice' (i ∷ bits) h len le lt e = ground (
  arith,
  bit_is_set_lem slice i h.0,
  bit_is_set_lem slice' i (omega arith),
  le i,
  lt i,
  all_bits_set_mono slice slice' bits h.1 len le lt,
)

-- What has just been set is found set.
pub all_bits_set-IsWritten :
    (before after bits inner : List ℕ)
    → InRange after inner
    → IsWritten bits 1 before after
    → ((j : ℕ) → contains inner j ≡ true → contains bits j ≡ true)
    → all_bits_set after inner ≡ some true
unfolding all_bits_set contains
all_bits_set-IsWritten before after bits [] h w sub = refl
all_bits_set-IsWritten before after bits (i ∷ inner) h w sub = ground (
  arith,
  bit_is_set_lem after i h.0,
  w.bits_at i,
  sub i,
  all_bits_set-IsWritten before after bits inner h.1 w (λ j c. sub j (ground arith)),
)

pub byte-replicate : (n i : ℕ) → byte (replicate n 0) i ≡ 0
byte-replicate zero i = refl
byte-replicate (suc n) zero = refl
byte-replicate (suc n) (suc i) = byte-replicate n i

-- A cleared slice has the same length and no bit set.
pub clear_lem :
    (slice : List ℕ)
    → (length (clear slice) ≡ length slice) × ((j : ℕ) → bit_at (clear slice) j ≡ 0)
unfolding clear bit_at
clear_lem slice = (
  length-replicate (length slice) 0,
  λ j. ap (λ n. bit n (j % 8)) (byte-replicate (length slice) (j / 8)) ∙ bit_zero (j % 8),
)
