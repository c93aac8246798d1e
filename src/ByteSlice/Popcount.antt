-- ===== src/ByteSlice/Popcount.antt =====
-- `byte_slice_popcount` of src/byte_slice.c, with `popcount_t` of 64 bits and the builtin
-- `popcount`.
use honas.Common.{
  ℕ, zero, suc, ◌+◌, ◌-◌, ◌*◌, ◌/◌, ◌%◌, ◌^◌, ◌<◌, ◌≤◌, ◌≡◌, refl, ap, ◌∙◌, arith, List, [], ◌∷◌,
  ltb, leb, if◌then◌else◌, Bool-cases, inl, inr, length, take, drop, Option, some, require, ◌>>=◌,
  ◌>>◌, u64, le→leb, ltb→lt, ◌>>>◌,
}
use native.Mathlib.Nat.{pow-suc, mod-eq_of_lt}
use honas.ByteSlice.Words.{load, IsBytes, drop-IsBytes}
use honas.ByteSlice.Merge.{align_begin, align_end, align_begin-eq, align_end-eq, length-drop}

-- The number of ones among the `width` lowest bits.
pub ones : (width : ℕ) → ℕ → ℕ
ones zero n = 0
ones (suc width) n = n % 2 + ones width (n / 2)

-- The rounds of a loop over bytes, and what comes after it.
pub count_bytes : (rounds : ℕ) (next : List ℕ → ℕ) → List ℕ → ℕ
unfolding ones
count_bytes zero next slice = next slice
count_bytes (suc rounds) next [] = 0
count_bytes (suc rounds) next (b ∷ slice) = ones 64 b + count_bytes rounds next slice

-- The same for the loop over words.
pub count_words : (rounds : ℕ) (next : List ℕ → ℕ) → List ℕ → ℕ
unfolding ones
count_words zero next slice = next slice
count_words (suc rounds) next slice =
    ones 64 (load (take 8 slice)) + count_words rounds next (drop 8 slice)

pub no_more : List ℕ → ℕ
no_more slice = 0

pub byte_slice_popcount : (address : ℕ) → List ℕ → Option ℕ
unfolding count_bytes count_words no_more
byte_slice_popcount address slice = do
  require (leb (length slice) ((2 ^ 64 - 1) >>> 3))
  let len = length slice
  let opt_begin = align_begin address
  let opt_end = align_end (address + len)
  let by_words =
      count_bytes (opt_begin - address)
        (count_words ((opt_end - opt_begin) / 8) (count_bytes (address + len - opt_end) no_more))
        slice
  some (u64 (if ltb (8 * 2) len then by_words else count_bytes len no_more slice))

-- The ones of all bytes.
pub total : List ℕ → ℕ
total [] = 0
total (b ∷ slice) = ones 8 b + total slice

more : ℕ → ℕ → ℕ
more zero v = v
more (suc w) v = suc (more w v)

ones_split : (w v n r : ℕ) → n < 2 ^ w → ones (more w v) (n + 2 ^ w * r) ≡ ones w n + ones v r
unfolding ones more
ones_split zero v n r small =
    let same : n + 2 ^ 0 * r ≡ r = omega arith in omega (arith, ap (ones v) same)
ones_split (suc w) v n r small =
    let double : 2 ^ suc w * r ≡ 2 * (2 ^ w * r) =
      omega (arith, ap (λ (t : ℕ). t * r) (pow-suc 2 w)) in
    let half : (n + 2 ^ suc w * r) / 2 ≡ n / 2 + 2 ^ w * r = omega (arith, double) in
    omega (
      arith,
      double,
      ap (ones (more w v)) half,
      ones_split w v (n / 2) r (omega (arith, pow-suc 2 w)),
    )

ones_zero : (w : ℕ) → ones w 0 ≡ 0
unfolding ones
ones_zero zero = refl
ones_zero (suc w) = omega (arith, ones_zero w)

ones_byte : (b : ℕ) → b < 256 → ones 64 b ≡ ones 8 b
unfolding more
ones_byte b h = ap (ones 64) (omega arith) ∙ ones_split 8 56 b 0 h ∙ omega (arith, ones_zero 56)

more_eight : (n : ℕ) → 8 * suc n ≡ more 8 (8 * n)
unfolding more
more_eight n = omega arith

ones-load :
    (n : ℕ) (slice : List ℕ)
    → IsBytes slice
    → n ≤ length slice
    → ones (8 * n) (load (take n slice)) + total (drop n slice) ≡ total slice
unfolding load total
ones-load zero slice h fits =
    let none_left : ones (8 * 0) 0 ≡ 0 = ones_zero (8 * 0) in omega (arith, none_left)
ones-load (suc n) [] h fits = absurd (omega arith)
ones-load (suc n) (b ∷ slice) h fits =
    let wider : ones (8 * suc n) (b + 256 * load (take n slice))
        ≡ ones (more 8 (8 * n)) (b + 256 * load (take n slice)) =
      ap (λ w. ones w (b + 256 * load (take n slice))) (more_eight n) in
    omega (
      arith,
      wider,
      ones_split 8 (8 * n) b (load (take n slice)) h.0,
      ones-load n slice h.1 (omega arith),
    )

-- `next` counts what is left of the slice after `n` bytes.
abbrev Counts : (n : ℕ) (next : List ℕ → ℕ) → List ℕ → Type 0
Counts n next slice =
    (rest : List ℕ) → length rest + n ≡ length slice → IsBytes rest → next rest ≡ total rest

count_bytes_lem :
    (rounds : ℕ) (next : List ℕ → ℕ) (slice : List ℕ)
    → IsBytes slice
    → rounds ≤ length slice
    → Counts rounds next slice
    → count_bytes rounds next slice ≡ total slice
unfolding count_bytes total
count_bytes_lem zero next slice h fits counts = counts slice (omega arith) h
count_bytes_lem (suc rounds) next [] h fits counts = absurd (omega arith)
count_bytes_lem (suc rounds) next (b ∷ slice) h fits counts = omega (
  arith,
  ones_byte b h.0,
  count_bytes_lem rounds next slice h.1 (omega arith) (λ rest e. counts rest (omega arith)),
)

count_words_lem :
    (rounds : ℕ) (next : List ℕ → ℕ) (slice : List ℕ)
    → IsBytes slice
    → 8 * rounds ≤ length slice
    → Counts (8 * rounds) next slice
    → count_words rounds next slice ≡ total slice
unfolding count_words
count_words_lem zero next slice h fits counts = counts slice (omega arith) h
count_words_lem (suc rounds) next slice h fits counts =
    let left : length (drop 8 slice) ≡ length slice - 8 = length-drop 8 slice in
    omega (
      arith,
      ones-load 8 slice h (omega arith),
      count_words_lem rounds next (drop 8 slice) (drop-IsBytes 8 slice h) (omega arith)
          (λ rest e. counts rest (omega arith)),
    )

ones_le : (w n : ℕ) → ones w n ≤ w
unfolding ones
ones_le zero n = omega arith
ones_le (suc w) n = omega (arith, ones_le w (n / 2))

total_le : (slice : List ℕ) → total slice ≤ 8 * length slice
unfolding total
total_le [] = omega arith
total_le (b ∷ slice) = omega (arith, ones_le 8 b, total_le slice)

all_counted :
    (slice : List ℕ) → IsBytes slice → count_bytes (length slice) no_more slice ≡ total slice
unfolding no_more total
all_counted slice h = count_bytes_lem (length slice) no_more slice h (omega arith) λ rest e _.
    (elim rest as (λ rest. length rest + length slice ≡ length slice → 0 ≡ total rest) [
      | [] ↦ λ e. refl
      | b ∷ rest ↦ λ e. absurd (omega arith)
    ])
      e

by_words_lem :
    (a first last : ℕ) (slice : List ℕ)
    → IsBytes slice
    → 16 < length slice
    → first ≡ 8 * ((a + 7) / 8)
    → last ≡ 8 * ((a + length slice) / 8)
    → count_bytes
        (first - a)
        (count_words ((last - first) / 8) (count_bytes (a + length slice - last) no_more))
        slice
      ≡ total slice
by_words_lem a first last slice h long begins ends =
    count_bytes_lem (first - a) _ slice h (omega arith) λ rest e h'.
      count_words_lem ((last - first) / 8) _ rest h' (omega arith)
        λ rest' e' h''. ap (λ n. count_bytes n no_more rest') (omega arith) ∙ all_counted rest' h''

-- For a slice of bytes of less than 2 ^ 61 that ends below the end of memory, whatever its
-- alignment: the function returns the number of ones of all bytes.
pub byte_slice_popcount_lem :
    (address : ℕ) (slice : List ℕ)
    → IsBytes slice
    → address + length slice + 8 ≤ 2 ^ 64
    → length slice < 2 ^ 61
    → byte_slice_popcount address slice ≡ some (total slice)
unfolding byte_slice_popcount
byte_slice_popcount_lem a slice h fits short =
    let wrap : u64 (total slice) ≡ total slice = mod-eq_of_lt (omega (arith, total_le slice)) in
    let legal = le→leb (length slice) ((2 ^ 64 - 1) >>> 3) (omega arith) in
    elim (Bool-cases (ltb (8 * 2) (length slice))) [
      | inl long ↦
          rw
            (
              legal,
              long,
              by_words_lem a (align_begin a) (align_end (a + length slice)) slice h
                  (ltb→lt 16 (length slice) long) (align_begin-eq a (omega arith))
                  (align_end-eq (a + length slice) (omega arith)),
              ◌>>=◌,
              ◌>>◌,
            )
            (ap some wrap)
      | inr few ↦ rw (legal, few, all_counted slice h, ◌>>=◌, ◌>>◌) (ap some wrap)
    ]
