-- ===== src/Bits.antt =====
-- The bits of a number, and the operations `|`, `&` and `1 << k` read bit by bit. C's operators
-- on unsigned integers are the native `bit_or`, `bit_and` and `bit_xor`.
mod Step
pub mod Digitwise
use Step.{bit_or_step, bit_and_step}
use native.Mathlib.Nat.{pow-suc, div-add-mod}
use honas.Common.{
  ℕ, zero, suc, ◌+◌, ◌-◌, ◌*◌, ◌/◌, ◌%◌, ◌^◌, ◌≤◌, ◌<◌, max, min, bit_and, bit_or, ◌≡◌, refl, arith,
  ◌==◌, if◌then◌else◌, ap, sym, ◌∙◌,
}

-- Bit `k` of `n`: 0 or 1.
unfoldable pub bit : ℕ → ℕ → ℕ
bit n zero = n % 2
bit n (suc k) = bit (n / 2) k

pub bit-lt : (n k : ℕ) → bit n k < 2
unfolding bit
bit-lt n zero = omega arith
bit-lt n (suc k) = bit-lt (n / 2) k

pub bit_zero : (k : ℕ) → bit 0 k ≡ 0
unfolding bit
bit_zero zero = refl
bit_zero (suc k) = bit_zero k

pub bit-bit_or : (a b k : ℕ) → bit (bit_or a b) k ≡ max (bit a k) (bit b k)
unfolding bit
bit-bit_or a b zero = omega (arith, bit_or_step a b)
bit-bit_or a b (suc k) =
    ap (λ n. bit n k) (omega (arith, bit_or_step a b)) ∙ bit-bit_or (a / 2) (b / 2) k

pub bit-bit_and : (a b k : ℕ) → bit (bit_and a b) k ≡ min (bit a k) (bit b k)
unfolding bit
bit-bit_and a b zero = omega (arith, bit_and_step a b)
bit-bit_and a b (suc k) =
    ap (λ n. bit n k) (omega (arith, bit_and_step a b)) ∙ bit-bit_and (a / 2) (b / 2) k

pub bit-pow : (k j : ℕ) → bit (2 ^ k) j ≡ (if k == j then 1 else 0)
unfolding bit
bit-pow zero zero = refl
bit-pow zero (suc j) = ground (arith, bit_zero j)
bit-pow (suc k) zero = ground (arith, pow-suc 2 k)
bit-pow (suc k) (suc j) =
    ap (λ n. bit n j) (omega (arith, pow-suc 2 k)) ∙ bit-pow k j ∙ ground arith

double_pow : (w q : ℕ) → 2 ^ suc w * q ≡ 2 * (2 ^ w * q)
double_pow w q = omega (arith, ap (λ (t : ℕ). t * q) (pow-suc 2 w))

bit-add_pow : (w q r k : ℕ) → k < w → bit (r + 2 ^ w * q) k ≡ bit r k
unfolding bit
bit-add_pow zero q r k h = absurd (omega arith)
bit-add_pow (suc w) q r zero h = omega (arith, double_pow w q)
bit-add_pow (suc w) q r (suc k) h =
    ap (λ m. bit m k) (omega (arith, double_pow w q)) ∙ bit-add_pow w q (r / 2) k (omega arith)

-- A width that holds bit `k` does not cut it off.
pub bit-mod_pow : (w n k : ℕ) → k < w → bit (n % 2 ^ w) k ≡ bit n k
bit-mod_pow w n k h =
    sym (bit-add_pow w (n / 2 ^ w) (n % 2 ^ w) k h)
    ∙ ap (λ m. bit m k) (omega (arith, div-add-mod n (2 ^ w)))

bit_and_zero : (n k : ℕ) → k ≤ n → bit_and k 0 ≡ 0
bit_and_zero n zero h = refl
bit_and_zero zero (suc a) h = absurd (omega arith)
bit_and_zero (suc n) (suc a) h =
    omega (arith, bit_and_step (suc a) 0, bit_and_zero n (suc a / 2) (omega arith))

-- A mask of one bit.
pub bit_and-pow : (a k : ℕ) → bit_and a (2 ^ k) ≡ bit a k * 2 ^ k
unfolding bit
bit_and-pow a zero = omega (arith, bit_and_step a 1, bit_and_zero (a / 2) (a / 2) (omega arith))
bit_and-pow a (suc k) = ground (
  arith,
  bit_and_step a (2 ^ suc k),
  pow-suc 2 k,
  bit_and-pow (a / 2) k,
  ap (λ t. bit (a / 2) k * t) (pow-suc 2 k),
)

-- Numbers with the same bits below a width that holds both are equal.
pub bit_ext : (w a b : ℕ) → a < 2 ^ w → b < 2 ^ w → ((k : ℕ) → bit a k ≡ bit b k) → a ≡ b
unfolding bit
bit_ext zero a b ha hb h = omega arith
bit_ext (suc w) a b ha hb h = omega (
  arith,
  h 0,
  bit_ext w (a / 2) (b / 2) (omega (arith, pow-suc 2 w)) (omega (arith, pow-suc 2 w))
      (λ k. h (suc k)),
)
