-- ===== src/Bits/Digitwise.antt =====
-- What `|` and `&` have in common: they act on each binary digit by itself. So they act on the
-- bytes of a machine word one by one, and stay within every width.
use native.Mathlib.Nat.{pow-suc, one-le-pow, div-add-mod, mod-lt}
use honas.Common.{
  ℕ, zero, suc, ◌+◌, ◌-◌, ◌*◌, ◌/◌, ◌%◌, ◌^◌, ◌≤◌, ◌<◌, max, min, bit_and, bit_or, ◌≡◌, refl, arith,
  ap, ap₂, ◌∙◌,
}
use honas.Bits.Step.{bit_or_step, bit_and_step}

pub record IsBitwise (op digit : ℕ → ℕ → ℕ) : Type 0 where
  pub step : (a b : ℕ) → op a b ≡ op (a / 2) (b / 2) * 2 + digit (a % 2) (b % 2)
  pub digit_lt : (x y : ℕ) → x < 2 → y < 2 → digit x y < 2

pub or-IsBitwise : IsBitwise bit_or max
or-IsBitwise = record {
  step = λ a b. omega (arith, bit_or_step a b);
  digit_lt = λ x y p q. omega arith;
}

pub and-IsBitwise : IsBitwise bit_and min
and-IsBitwise = record {
  step = λ a b. omega (arith, bit_and_step a b);
  digit_lt = λ x y p q. omega arith;
}

pub twice_pow : (w q : ℕ) → 2 ^ suc w * q ≡ 2 * (2 ^ w * q)
twice_pow w q = omega (arith, ap (λ (t : ℕ). t * q) (pow-suc 2 w))

module _ (op digit : ℕ → ℕ → ℕ) (bitwise : IsBitwise op digit) where
  op_zero : op 0 0 ≡ 0
  op_zero = omega (arith, bitwise.step 0 0)

  pub op-lt : (w a b : ℕ) → a < 2 ^ w → b < 2 ^ w → op a b < 2 ^ w
  op-lt zero a b p q =
      let ea : a ≡ 0 = omega arith in
      let eb : b ≡ 0 = omega arith in rw (ea, eb, op_zero) (omega arith)
  op-lt (suc w) a b p q = omega (
    arith,
    bitwise.step a b,
    bitwise.digit_lt (a % 2) (b % 2) (omega arith) (omega arith),
    pow-suc 2 w,
    op-lt w (a / 2) (b / 2) (omega (arith, pow-suc 2 w)) (omega (arith, pow-suc 2 w)),
  )

  -- The low `w` digits and those above are worked on apart.
  pub op_split :
      (w r s a b : ℕ)
      → r < 2 ^ w
      → s < 2 ^ w
      → op (r + 2 ^ w * a) (s + 2 ^ w * b) ≡ op r s + 2 ^ w * op a b
  op_split zero r s a b p q =
      let er : r ≡ 0 = omega arith in
      let es : s ≡ 0 = omega arith in
      let ea : r + 2 ^ 0 * a ≡ a = omega arith in
      let eb : s + 2 ^ 0 * b ≡ b = omega arith in rw (ea, eb, er, es, op_zero) (omega arith)
  op_split (suc w) r s a b p q =
      let half_r : (r + 2 ^ suc w * a) / 2 ≡ r / 2 + 2 ^ w * a = omega (arith, twice_pow w a) in
      let half_s : (s + 2 ^ suc w * b) / 2 ≡ s / 2 + 2 ^ w * b = omega (arith, twice_pow w b) in
      let low_r : (r + 2 ^ suc w * a) % 2 ≡ r % 2 = omega (arith, twice_pow w a) in
      let low_s : (s + 2 ^ suc w * b) % 2 ≡ s % 2 = omega (arith, twice_pow w b) in
      rw (bitwise.step (r + 2 ^ suc w * a) (s + 2 ^ suc w * b), half_r, half_s, low_r, low_s)
        (omega (
          arith,
          bitwise.step r s,
          twice_pow w (op a b),
          op_split w (r / 2) (s / 2) a b (omega (arith, pow-suc 2 w)) (omega (arith, pow-suc 2 w)),
        ))

pub and_zero : (n a : ℕ) → a ≤ n → bit_and a 0 ≡ 0
and_zero n zero h = refl
and_zero zero (suc a) h = absurd (omega arith)
and_zero (suc n) (suc a) h =
    omega (arith, bit_and_step (suc a) 0, and_zero n (suc a / 2) (omega arith))

mask_low : (k r : ℕ) → r < 2 ^ k → bit_and r (2 ^ k - 1) ≡ r
mask_low zero r h = rw (and_zero r r (omega arith)) (omega arith)
mask_low (suc k) r h =
    let half : (2 ^ suc k - 1) / 2 ≡ 2 ^ k - 1 = omega (arith, pow-suc 2 k, one-le-pow k 2) in
    let low : (2 ^ suc k - 1) % 2 ≡ 1 = omega (arith, pow-suc 2 k, one-le-pow k 2) in
    rw (bit_and_step r (2 ^ suc k - 1), half, low)
      (omega (arith, mask_low k (r / 2) (omega (arith, pow-suc 2 k))))

-- `a & (2 ^ k - 1)`.
pub bit_and_mask : (k a : ℕ) → bit_and a (2 ^ k - 1) ≡ a % 2 ^ k
bit_and_mask k a =
    let whole : a ≡ a % 2 ^ k + 2 ^ k * (a / 2 ^ k) = omega (arith, div-add-mod a (2 ^ k)) in
    let ones : 2 ^ k - 1 ≡ 2 ^ k - 1 + 2 ^ k * 0 = omega arith in
    let low : a % 2 ^ k < 2 ^ k = mod-lt a (omega (arith, one-le-pow k 2)) in
    ap₂ bit_and whole ones
    ∙ op_split bit_and min and-IsBitwise k (a % 2 ^ k) (2 ^ k - 1) (a / 2 ^ k) 0 low
        (omega (arith, one-le-pow k 2))
    ∙ omega (
      arith,
      mask_low k (a % 2 ^ k) low,
      and_zero (a / 2 ^ k) (a / 2 ^ k) (omega arith),
      ap (λ t. 2 ^ k * t) (and_zero (a / 2 ^ k) (a / 2 ^ k) (omega arith)),
    )
