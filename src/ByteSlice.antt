-- ===== src/ByteSlice.antt =====
-- include/byte_slice.h, the operations on single bits. A slice is the list of its bytes; what is
-- written in place is returned. `none` is a failed assertion, which ends the program.
pub mod Single
pub mod Many
pub mod Words
pub mod Merge
pub mod Multiply
pub mod Murmur
pub mod Popcount
pub mod Examples
use honas.Common.{
  ℕ, ◌-◌, ◌*◌, ◌/◌, ◌%◌, ◌^◌, bit_and, bit_or, ◌≡◌, refl, Bool, true, false, not, List, [], ◌∷◌,
  Option, none, some, ltb, ◌==◌, if◌then◌else◌, u8, ◌<<<◌, ◌>>>◌, length, get_or, set, replicate,
  require, ◌>>=◌, ◌>>◌,
}

-- `slice.bytes[i]`; the code asserts before each use that `i` is in range.
abbrev pub byte : List ℕ → ℕ → ℕ
byte slice i = get_or slice i 0

unfoldable pub set_bit : List ℕ → ℕ → Option (List ℕ)
set_bit slice i = do
  require (ltb (i >>> 3) (length slice))
  some (set slice (i >>> 3) (u8 (bit_or (byte slice (i >>> 3)) (1 <<< bit_and i 7))))

pub set_bits : List ℕ → List ℕ → Option (List ℕ)
set_bits slice [] = some slice
set_bits slice (i ∷ bits) = do slice' ← set_bit slice i; set_bits slice' bits

-- `~(1 << (bit & 7))` is an `int`, here its pattern of 32 bits.
pub unset_bit : List ℕ → ℕ → Option (List ℕ)
unset_bit slice i = do
  require (ltb (i >>> 3) (length slice))
  some (set slice (i >>> 3) (u8 (bit_and (byte slice (i >>> 3)) (2 ^ 32 - 1 - 1 <<< bit_and i 7))))

pub unset_bits : List ℕ → List ℕ → Option (List ℕ)
unset_bits slice [] = some slice
unset_bits slice (i ∷ bits) = do slice' ← unset_bit slice i; unset_bits slice' bits

unfoldable pub bit_is_set : List ℕ → ℕ → Option Bool
bit_is_set slice i = do
  require (ltb (i >>> 3) (length slice))
  some (not (bit_and (byte slice (i >>> 3)) (1 <<< bit_and i 7) == 0))

unfoldable pub all_bits_set : List ℕ → List ℕ → Option Bool
all_bits_set slice [] = some true
all_bits_set slice (i ∷ bits) = do
  is_set ← bit_is_set slice i
  if not is_set then some false else all_bits_set slice bits

pub any_bit_set : List ℕ → List ℕ → Option Bool
any_bit_set slice [] = some false
any_bit_set slice (i ∷ bits) = do
  is_set ← bit_is_set slice i
  if is_set then some true else any_bit_set slice bits

unfoldable pub clear : List ℕ → List ℕ
clear slice = replicate (length slice) 0

set_bit_test : set_bit (0 ∷ 1 ∷ []) 11 ≡ some (0 ∷ 9 ∷ [])
unfolding set_bit
set_bit_test = refl

unset_bit_test : unset_bit (0 ∷ 9 ∷ []) 11 ≡ some (0 ∷ 1 ∷ [])
unfolding unset_bit
unset_bit_test = refl

bit_is_set_test : bit_is_set (0 ∷ 9 ∷ []) 11 ≡ some true
unfolding bit_is_set
bit_is_set_test = refl
