-- ===== src/State/Layout/RoundUp.antt =====
-- `round_up_to_factor_of_two` gives the next multiple of a power of two.
use native.Mathlib.Nat.{pow-zero, pow-suc, div-add-mod, mod-lt, mod-eq_of_lt, one-le-pow}
use honas.Common.{
  ℕ, zero, suc, ◌+◌, ◌-◌, ◌*◌, ◌/◌, ◌%◌, ◌^◌, ◌<◌, ◌≤◌, ◌≡◌, sym, ap, ap₂, ◌∙◌, arith, min, u64,
  bit_and, ◌<<<◌,
}
use honas.Bits.Digitwise.{and-IsBitwise, op_split, bit_and_mask}
use honas.State.Layout.{round_up_to_factor_of_two}

pow_add : (k r : ℕ) → 2 ^ (k + r) ≡ 2 ^ k * 2 ^ r
pow_add zero r =
    let front : 2 ^ (0 + r) ≡ 2 ^ r =
      ap (λ (t : ℕ). 2 ^ t) (let e : 0 + r ≡ r = omega arith in e) in
    front ∙ simp pow-zero (omega arith)
pow_add (suc k) r =
    let front : 2 ^ (suc k + r) ≡ 2 ^ suc (k + r) =
      ap (λ (t : ℕ). 2 ^ t) (let e : suc k + r ≡ suc (k + r) = omega arith in e) in
    omega (arith, front, pow-suc 2 (k + r), ap (λ (t : ℕ). t * 2 ^ r) (pow-suc 2 k), pow_add k r)

mask_multiple : (k r : ℕ) → k + r ≡ 64 → 2 ^ 64 - 2 ^ k ≡ 0 + 2 ^ k * (2 ^ r - 1)
mask_multiple k r e =
    let whole : 2 ^ 64 ≡ 2 ^ k * 2 ^ r = ap (λ (t : ℕ). 2 ^ t) (sym e) ∙ pow_add k r in
    let (p, above) = predecessor (2 ^ r) (one-le-pow r 2 (omega arith)) in
    omega (arith, whole, ap (λ (t : ℕ). 2 ^ k * t) above, ap (λ (t : ℕ). 2 ^ k * (t - 1)) above)
  where
    predecessor : (n : ℕ) → 1 ≤ n → (p : ℕ) × (n ≡ suc p)
    predecessor n h = (n - 1, omega arith)

quotient-lt : (b q m : ℕ) → b * q < b * m → q < m
quotient-lt b q m h = grind arith

-- Where the sum stays within 64 bits, the value is rounded up to the next multiple of the power of
-- two.
pub round_up_to_factor_of_two_lem :
    (value k : ℕ)
    → k ≤ 64
    → value + 2 ^ k ≤ 2 ^ 64
    → round_up_to_factor_of_two value k ≡ 2 ^ k * ((value + 2 ^ k - 1) / 2 ^ k)
unfolding round_up_to_factor_of_two
round_up_to_factor_of_two_lem value k h fits =
    let v = value + 2 ^ k - 1 in
    let q = v / 2 ^ k in
    let one = one-le-pow k 2 (omega arith) in
    let split : v ≡ v % 2 ^ k + 2 ^ k * q = omega (arith, div-add-mod v (2 ^ k)) in
    let whole : 2 ^ 64 ≡ 2 ^ k * 2 ^ (64 - k) =
      ap (λ (t : ℕ). 2 ^ t) (let e : 64 ≡ k + (64 - k) = omega arith in e) ∙ pow_add k (64 - k) in
    let small : q < 2 ^ (64 - k) =
      quotient-lt (2 ^ k) q (2 ^ (64 - k)) (omega (arith, split, whole)) in
    let low : v % 2 ^ k < 2 ^ k = mod-lt v (omega arith) in
    let wrap : u64 (value + (1 <<< k) - 1) ≡ v % 2 ^ k + 2 ^ k * q = omega (arith, split) in
    let mask : 2 ^ 64 - (1 <<< k) ≡ 0 + 2 ^ k * (2 ^ (64 - k) - 1) =
      omega (arith, mask_multiple k (64 - k) (omega arith)) in
    ap₂ bit_and wrap mask
    ∙ op_split bit_and min and-IsBitwise k (v % 2 ^ k) 0 q (2 ^ (64 - k) - 1) low (omega arith)
    ∙ omega (
      arith,
      bit_and_mask 0 (v % 2 ^ k),
      ap (λ (t : ℕ). 2 ^ k * t) (bit_and_mask (64 - k) q ∙ mod-eq_of_lt small),
    )

-- The value is rounded up, by less than a page.
pub round_up_to_factor_of_two-ge :
    (value k : ℕ) → k ≤ 64 → value + 2 ^ k ≤ 2 ^ 64 → value ≤ round_up_to_factor_of_two value k
round_up_to_factor_of_two-ge value k h fits =
    let one = one-le-pow k 2 (omega arith) in
    omega (
      arith,
      round_up_to_factor_of_two_lem value k h fits,
      div-add-mod (value + 2 ^ k - 1) (2 ^ k),
      mod-lt (value + 2 ^ k - 1) {m = 2 ^ k} one,
    )
