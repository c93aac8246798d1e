-- ===== src/Combinations/Count.antt =====
-- `number_of_combinations` is the binomial coefficient, wrapped to 32 bits.
use honas.Common.{
  ℕ, zero, suc, ◌+◌, ◌-◌, ◌%◌, ◌^◌, ◌<◌, ◌≤◌, ◌≡◌, refl, ap, ◌∙◌, arith, some, ◌==◌, Bool-cases,
  inl, inr,
}
use honas.Combinations.{number_of_combinations, combinations_within, one_less}

-- Pascal's triangle.
unfoldable pub choose : ℕ → ℕ → ℕ
choose n zero = 1
choose zero (suc k) = 0
choose (suc n) (suc k) = choose n k + choose n (suc k)

choose_above : (n k : ℕ) → n < k → choose n k ≡ 0
unfolding choose
choose_above n zero h = absurd (omega arith)
choose_above zero (suc k) h = refl
choose_above (suc n) (suc k) h =
    omega (arith, choose_above n k (omega arith), choose_above n (suc k) (omega arith))

choose_self : (n : ℕ) → choose n n ≡ 1
unfolding choose
choose_self zero = refl
choose_self (suc n) = omega (arith, choose_self n, choose_above n (suc n) (omega arith))

choose_one : (n : ℕ) → choose n 1 ≡ n
unfolding choose
choose_one zero = refl
choose_one (suc n) = ground (arith, choose_one n)

one_less-suc : (n : ℕ) → suc n < 2 ^ 32 → one_less (suc n) ≡ n
unfolding one_less
one_less-suc n w = omega arith

-- As deep as the set is large, the recursion ends.
combinations_within-eq-choose :
    (depth n k : ℕ)
    → n < depth
    → k ≤ n
    → n < 2 ^ 32
    → combinations_within depth n k ≡ some (choose n k % 2 ^ 32)
unfolding combinations_within choose
combinations_within-eq-choose zero n k deep h w = absurd (omega arith)
combinations_within-eq-choose (suc depth) zero zero deep h w = refl
combinations_within-eq-choose (suc depth) zero (suc k) deep h w = absurd (omega arith)
combinations_within-eq-choose (suc depth) (suc n) zero deep h w = refl
combinations_within-eq-choose (suc depth) (suc n) (suc k) deep h w =
    let predecessor : suc k - 1 ≡ k = omega arith in
    elim (Bool-cases (k == n)) [
      | inl all ↦
          let e : k ≡ n = ground arith in
          ground (arith, ap (choose n) e ∙ choose_self n, choose_above n (suc k) (omega arith))
      | inr proper ↦
          let less : k < n = ground arith in
          rw (predecessor, one_less-suc n w)
            (ground (
              arith,
              choose_one (suc n),
              combinations_within-eq-choose depth n k (omega arith) (omega arith) (omega arith),
              combinations_within-eq-choose depth n (suc k) (omega arith) less (omega arith),
            ))
    ]

-- For a subset no larger than the set, of a size in 32 bits, the recursion ends, with the binomial
-- coefficient modulo 2 ^ 32.
pub number_of_combinations-eq-choose :
    (n k : ℕ) → k ≤ n → n < 2 ^ 32 → number_of_combinations n k ≡ some (choose n k % 2 ^ 32)
unfolding number_of_combinations
number_of_combinations-eq-choose n k h w =
    combinations_within-eq-choose (suc n) n k (omega arith) h w
