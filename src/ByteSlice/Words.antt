-- ===== src/ByteSlice/Words.antt =====
-- Bytes read and written as little-endian machine words: the casts to `uint32_t*`, `uint64_t*` and
-- `size_t*` of include/byte_slice.h and src/byte_slice.c.
use native.Mathlib.Nat.{pow-suc}
use honas.Common.{
  ℕ, zero, suc, ◌+◌, ◌-◌, ◌*◌, ◌/◌, ◌%◌, ◌^◌, ◌<◌, ◌≡◌, refl, ap, arith, List, [], ◌∷◌, length,
  take, drop, All,
}

-- The number that the bytes hold, the first byte the lowest.
unfoldable pub load : List ℕ → ℕ
load [] = 0
load (b ∷ bytes) = b + 256 * load bytes

-- The `n` lowest bytes of a number.
unfoldable pub store : ℕ → ℕ → List ℕ
store zero v = []
store (suc n) v = v % 256 ∷ store n (v / 256)

-- `count` words of `size` bytes.
unfoldable pub words : (size count : ℕ) → List ℕ → List ℕ
words size zero bytes = []
words size (suc count) bytes = load (take size bytes) ∷ words size count (drop size bytes)

abbrev pub IsBytes : List ℕ → Type 0
IsBytes = All (λ b. b < 256)

pub load-lt : (bytes : List ℕ) → IsBytes bytes → load bytes < 256 ^ length bytes
unfolding load
load-lt [] h = omega arith
load-lt (b ∷ bytes) h = omega (arith, load-lt bytes h.1, pow-suc 256 (length bytes))

pub store-load : (bytes : List ℕ) → IsBytes bytes → store (length bytes) (load bytes) ≡ bytes
unfolding load store
store-load [] h = refl
store-load (b ∷ bytes) h = ground (arith, store-load bytes h.1)

pub length-store : (n v : ℕ) → length (store n v) ≡ n
unfolding store
length-store zero v = refl
length-store (suc n) v = ap suc (length-store n (v / 256))

pub length-words : (size count : ℕ) (bytes : List ℕ) → length (words size count bytes) ≡ count
unfolding words
length-words size zero bytes = refl
length-words size (suc count) bytes = ap suc (length-words size count (drop size bytes))

take-IsBytes : (n : ℕ) (bytes : List ℕ) → IsBytes bytes → IsBytes (take n bytes)
take-IsBytes zero bytes h = tt
take-IsBytes (suc n) [] h = tt
take-IsBytes (suc n) (b ∷ bytes) h = (h.0, take-IsBytes n bytes h.1)

pub drop-IsBytes : (n : ℕ) (bytes : List ℕ) → IsBytes bytes → IsBytes (drop n bytes)
drop-IsBytes zero bytes h = h
drop-IsBytes (suc n) [] h = tt
drop-IsBytes (suc n) (b ∷ bytes) h = drop-IsBytes n bytes h.1

load-take-lt : (n : ℕ) (bytes : List ℕ) → IsBytes bytes → load (take n bytes) < 256 ^ n
unfolding load
load-take-lt zero bytes h = omega arith
load-take-lt (suc n) [] h = omega (arith, load-take-lt n [] tt, pow-suc 256 n)
load-take-lt (suc n) (b ∷ bytes) h = omega (arith, load-take-lt n bytes h.1, pow-suc 256 n)

-- Every word fits its width.
pub words-lt :
    (size count : ℕ) (bytes : List ℕ)
    → IsBytes bytes
    → All (λ w. w < 256 ^ size) (words size count bytes)
unfolding words
words-lt size zero bytes h = tt
words-lt size (suc count) bytes h =
    (load-take-lt size bytes h, words-lt size count (drop size bytes) (drop-IsBytes size bytes h))

words_test : words 4 2 (1 ∷ 2 ∷ 0 ∷ 0 ∷ 255 ∷ 255 ∷ 255 ∷ 255 ∷ []) ≡ 513 ∷ (2 ^ 32 - 1) ∷ []
unfolding words load
words_test = refl

pub store-IsBytes : (n v : ℕ) → IsBytes (store n v)
unfolding store
store-IsBytes zero v = tt
store-IsBytes (suc n) v = (omega arith, store-IsBytes n (v / 256))
