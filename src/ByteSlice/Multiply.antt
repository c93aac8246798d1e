-- ===== src/ByteSlice/Multiply.antt =====
-- `byte_slice_mul32` and `byte_slice_mul64` of include/byte_slice.h: a slice as a big integer of
-- little-endian words is multiplied in place, and the word that does not fit is returned.
use native.Mathlib.Nat.{pow-suc, div-add-mod, mod-lt, mod-eq_of_lt, mod-eq-sub-mod, pow-zero}
use honas.Common.{
  ℕ, suc, ◌+◌, ◌-◌, ◌*◌, ◌/◌, ◌%◌, ◌^◌, ◌<◌, ◌≤◌, ◌≡◌, refl, ap, ◌∙◌, arith, List, [], ◌∷◌, ltb,
  if◌then◌else◌, length, All, ltb→lt, Bool-cases, inl, inr,
}

-- One round of the loop of `byte_slice_mul64_noasm` (`w` = 64) and `byte_slice_mul32_noasm`
-- (`w` = 32): the new word, and the overflow into the next round.
unfoldable pub mul_round : (w data_word multiplier overflow : ℕ) → ℕ × ℕ
mul_round w data_word multiplier overflow =
    let tmp = data_word * multiplier in
    let mul_lo = tmp % 2 ^ w in
    let mul_hi = tmp / 2 ^ w in
    let sum = mul_lo + overflow in
    (sum % 2 ^ w, if ltb (2 ^ w - 1) sum then (mul_hi + 1) % 2 ^ w else mul_hi)

-- The words that are written back, and the last overflow.
unfoldable pub mul_loop : (w multiplier overflow : ℕ) → List ℕ → List ℕ × ℕ
mul_loop w multiplier overflow [] = ([], overflow)
mul_loop w multiplier overflow (d ∷ rest) =
    let (d', overflow') = mul_round w d multiplier overflow in
    let (rest', last) = mul_loop w multiplier overflow' rest in (d' ∷ rest', last)

pub mul32 : ℕ → List ℕ → List ℕ × ℕ
unfolding mul_loop mul_round
mul32 multiplier words = mul_loop 32 multiplier 0 words

pub mul64 : ℕ → List ℕ → List ℕ × ℕ
unfolding mul_loop mul_round
mul64 multiplier words = mul_loop 64 multiplier 0 words

-- The big integer that the words stand for.
pub value : ℕ → List ℕ → ℕ
value w [] = 0
value w (d ∷ rest) = d + 2 ^ w * value w rest

abbrev pub IsWords : ℕ → List ℕ → Type 0
IsWords w = All (λ d. d < 2 ^ w)

product-lt : (d m b : ℕ) → d < b → d * m + m ≤ b * m
product-lt d m b h = grind arith

quotient-lt : (b q m : ℕ) → b * q < b * m → q < m
quotient-lt b q m h = grind arith

-- A sum of two digits in base `b`, where the exact result is below `b * m`.
carry :
    (b q lo c m t : ℕ)
    → b * q + lo ≡ t
    → lo < b
    → c < m
    → m < b
    → t + m ≤ b * m
    → let sum = lo + c in
      let hi = if ltb (b - 1) sum then (q + 1) % b else q in
      (sum % b + b * hi ≡ t + c) × (sum % b < b) × (hi < m)
carry b q lo c m t e hl hc hm ht = elim (Bool-cases (ltb (b - 1) (lo + c))) [
  | inl over ↦
      let wraps : (lo + c) % b ≡ lo + c - b =
        mod-eq-sub-mod {n = lo + c} {m = b} (omega (arith, ltb→lt (b - 1) (lo + c) over))
        ∙ mod-eq_of_lt (omega (arith, ltb→lt (b - 1) (lo + c) over)) in
      let below : q + 1 < m =
        quotient-lt b (q + 1) m (omega (arith, ltb→lt (b - 1) (lo + c) over)) in
      let small : (q + 1) % b ≡ q + 1 = mod-eq_of_lt (omega arith) in
      rw (over, wraps, small) (omega (arith, ltb→lt (b - 1) (lo + c) over))
  | inr fits ↦
      let less : lo + c < b = ground arith in
      let same : (lo + c) % b ≡ lo + c = mod-eq_of_lt less in
      rw (fits, same) (omega arith, less, quotient-lt b q m (omega arith))
]

mul_round_lem :
    (w d m c : ℕ)
    → d < 2 ^ w
    → m < 2 ^ w
    → c < m
    → let r = mul_round w d m c in (r.0 + 2 ^ w * r.1 ≡ d * m + c) × (r.0 < 2 ^ w) × (r.1 < m)
unfolding mul_round
mul_round_lem w d m c hd hm hc =
    carry (2 ^ w) (d * m / 2 ^ w) (d * m % 2 ^ w) c m (d * m) (div-add-mod (d * m) (2 ^ w))
      (mod-lt (d * m) {m = 2 ^ w} (omega arith)) hc hm (product-lt d m (2 ^ w) hd)

-- The words and the last overflow hold the exact product plus the overflow that came in, and the
-- overflow that goes out is below the multiplier.
pub record IsProduct (w m c : ℕ) (before : List ℕ) (after : List ℕ × ℕ) : Type 0 where
  pub exact : value w after.0 + (2 ^ w) ^ length before * after.1 ≡ value w before * m + c
  pub overflow_lt : after.1 < m
  pub words_fit : IsWords w after.0
  pub same_length : length after.0 ≡ length before

-- For words of `w` bits, a multiplier of `w` bits and a carry below it: the words written back and
-- the overflow are exactly the product and the carry, the overflow is below the multiplier, and the
-- words fit and keep their number.
pub mul_loop-IsProduct :
    (w m c : ℕ) (before : List ℕ)
    → IsWords w before
    → m < 2 ^ w
    → c < m
    → IsProduct w m c before (mul_loop w m c before)
unfolding mul_loop value
mul_loop-IsProduct w m c [] h hm hc = record {
  exact = simp pow-zero (omega arith);
  overflow_lt = hc;
  words_fit = tt;
  same_length = refl;
}
mul_loop-IsProduct w m c (d ∷ rest) h hm hc =
    let round = mul_round_lem w d m c h.0 hm hc in
    let r = mul_round w d m c in
    let ih = mul_loop-IsProduct w m r.1 rest h.1 hm round.2 in
    record {
      exact = omega (
        arith,
        round.0,
        ap (λ (t : ℕ). 2 ^ w * t) ih.exact,
        ap (λ (t : ℕ). t * (mul_loop w m r.1 rest).1) (pow-suc (2 ^ w) (length rest)),
      );
      overflow_lt = ih.overflow_lt;
      words_fit = (round.1, ih.words_fit);
      same_length = ap suc ih.same_length;
    }
