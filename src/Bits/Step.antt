-- ===== src/Bits/Step.antt =====
-- One equation for the lowest digit of `bit_or` and `bit_and`: the native operations stand for a
-- recursion on digits with fuel, and the fuel is dropped here.
use Prim.Native.Nat.{digits, bitwise, bit_and-bitwise, bit_or-bitwise}
use honas.Common.{
  ℕ, zero, suc, ◌+◌, ◌*◌, ◌/◌, ◌%◌, ◌≤◌, max, min, bit_and, bit_or, ◌≡◌, refl, arith, ap,
}

-- The result does not depend on the fuel, when there is enough.
same_digits :
    (left : ℕ → ℕ) (op : ℕ → ℕ → ℕ) (a n m b : ℕ)
    → (a ≤ n) × (a ≤ m)
    → digits left op n a b ≡ digits left op m a b
same_digits left op (suc a) (suc n) (suc m) b fits =
    rw (same_digits left op (suc a / 2) n m (b / 2) (omega (arith, fits.0), omega (arith, fits.1)))
same_digits left op (suc a) zero m b fits = absurd (omega (arith, fits.0))
same_digits left op (suc a) (suc n) zero b fits = absurd (omega (arith, fits.1))
same_digits left op zero zero zero b fits = refl
same_digits left op zero zero (suc m) b fits = refl
same_digits left op zero (suc n) zero b fits = refl
same_digits left op zero (suc n) (suc m) b fits = refl

lowest_digit :
    (left : ℕ → ℕ) (op : ℕ → ℕ → ℕ) (a b : ℕ)
    → bitwise left op (suc a) b ≡ bitwise left op (suc a / 2) (b / 2) * 2 + op (suc a % 2) (b % 2)
lowest_digit left op a b =
    let fits : (suc a / 2 ≤ a) × (suc a / 2 ≤ suc a / 2) = (omega arith, omega arith) in
    ap (λ half. half * 2 + op (suc a % 2) (b % 2))
      (same_digits left op (suc a / 2) a (suc a / 2) (b / 2) fits)

pub bit_or_step : (m n : ℕ) → bit_or m n ≡ max (m % 2) (n % 2) + 2 * bit_or (m / 2) (n / 2)
bit_or_step (suc m) n = omega (
  arith,
  bit_or-bitwise (suc m) n,
  bit_or-bitwise (suc m / 2) (n / 2),
  lowest_digit (λ y. y) max m n,
)
bit_or_step zero n = simp bit_or-bitwise (omega arith)

pub bit_and_step : (m n : ℕ) → bit_and m n ≡ min (m % 2) (n % 2) + 2 * bit_and (m / 2) (n / 2)
bit_and_step (suc m) n = omega (
  arith,
  bit_and-bitwise (suc m) n,
  bit_and-bitwise (suc m / 2) (n / 2),
  lowest_digit (λ y. 0) min m n,
)
bit_and_step zero n = simp bit_and-bitwise (omega arith)
