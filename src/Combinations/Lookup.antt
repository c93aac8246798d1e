-- ===== src/Combinations/Lookup.antt =====
-- `lookup_combination` enumerates the subsets of a size in lexicographic order.
use native.Mathlib.Nat.{mod-eq_of_lt}
use honas.Common.{
  ℕ, zero, suc, ◌+◌, ◌-◌, ◌<◌, ◌≤◌, ◌≡◌, ◌^◌, refl, sym, ap, ◌∙◌, arith, List, [], ◌∷◌, Option,
  none, some, Option-cases, inl, inr, length, get_elem?, get_elem?-lt, get_elem?-All,
  get_elem?_inside, get_or, set, ◌==◌, not, if◌then◌else◌, ◌>>=◌, lt→ltb, le→leb,
}
use honas.Combinations.{
  find_next, renumber, next_combination, repeat_next, count_up, lookup_combination,
  number_of_combinations,
}
use honas.Combinations.Count.{choose, number_of_combinations-eq-choose}
use honas.Combinations.Subsets.{
  subsets, successor, Chain, subsets-AreChained, length-count_up, length-subsets, length-successor,
  IsSubset, subsets-IsSubset, subsets_complete,
}

-- The scan from the right, seen from the left end of the array.
abbrev scan_cons : ℕ → ℕ → Option ℕ → Option ℕ
scan_cons gap x (some j) = some (suc j)
scan_cons gap x none = if not (x == gap) then some 0 else none

find_next-cons :
    (gap i x : ℕ) (xs : List ℕ)
    → find_next gap (suc i) (x ∷ xs) ≡ scan_cons gap x (find_next (suc gap) i xs)
unfolding find_next
find_next-cons gap zero x xs = ground arith
find_next-cons gap (suc i) x xs = ground (arith, find_next-cons gap i x xs)

renumber-cons :
    (rounds i x : ℕ) (xs : List ℕ)
    → renumber rounds (suc (suc i)) (x ∷ xs) ≡ x ∷ renumber rounds (suc i) xs
unfolding renumber
renumber-cons zero i x xs = refl
renumber-cons (suc rounds) i x xs =
    let here : suc (suc i) - 1 ≡ suc i = omega arith in
    let inner : suc i - 1 ≡ i = omega arith in
    rw (here, inner) (renumber-cons rounds (suc i) x (set xs (suc i) (get_or xs i 0 + 1)))

renumber_all :
    (x : ℕ) (xs : List ℕ) → renumber (length xs) 1 (x ∷ xs) ≡ x ∷ count_up (suc x) (length xs)
unfolding renumber count_up
renumber_all x [] = refl
renumber_all x (y ∷ xs) =
    ap (λ n. renumber (length xs) 2 (x ∷ n ∷ xs)) (let next : x + 1 ≡ suc x = omega arith in next)
    ∙ renumber-cons (length xs) 0 x (suc x ∷ xs)
    ∙ ap (◌∷◌ x) (renumber_all (suc x) xs)

-- The body of the loop over an array and the room above its last place.
step : ℕ → List ℕ → Option (List ℕ)
unfolding next_combination
step gap xs = do
  i ← find_next gap (length xs) xs
  some (renumber (length xs - suc i) (suc i) (set xs i (get_or xs i 0 + 1)))

step-eq-successor : (gap : ℕ) (xs : List ℕ) → step gap xs ≡ successor (gap + length xs) xs
unfolding step successor find_next
step-eq-successor gap [] = refl
step-eq-successor gap (x ∷ xs) =
    let tails : successor (gap + suc (length xs)) xs ≡ step (suc gap) xs =
      ap (λ hi. successor hi xs) (omega arith) ∙ sym (step-eq-successor (suc gap) xs) in
    rw tails (elim (Option-cases (find_next (suc gap) (length xs) xs)) [
      | inl none_found ↦ ground (
        arith,
        none_found,
        find_next-cons gap (length xs) x xs,
        ap (λ n. renumber n 1 ((x + 1) ∷ xs))
            (let e : suc (length xs) - 1 ≡ length xs = omega arith in e),
        ap (λ n. renumber (length xs) 1 (n ∷ xs)) (let e : x + 1 ≡ suc x = omega arith in e),
        renumber_all (suc x) xs,
      )
      | inr (j, found) ↦ ground (
        arith,
        found,
        find_next-cons gap (length xs) x xs,
        ap (λ n. renumber n (suc (suc j)) (x ∷ set xs j (get_or xs j 0 + 1)))
            (let e : suc (length xs) - suc (suc j) ≡ length xs - suc j = omega arith in e),
        renumber-cons (length xs - suc j) j x (set xs j (get_or xs j 0 + 1)),
      )
    ])

pub next_combination-eq-successor :
    (set_size : ℕ) (xs : List ℕ)
    → length xs ≤ set_size
    → next_combination set_size (length xs) xs ≡ successor set_size xs
next_combination-eq-successor set_size xs fits =
    unfold step next_combination in
    step-eq-successor (set_size - length xs) xs ∙ ap (λ hi. successor hi xs) (omega arith)

-- Following a chain for `c` steps leads to its element `c`.
repeat_next-Chain :
    (set_size size c : ℕ) (first : List ℕ) (rest : List (List ℕ))
    → size ≤ set_size
    → length first ≡ size
    → Chain set_size first rest
    → c < length (first ∷ rest)
    → repeat_next set_size size c first ≡ get_elem? (first ∷ rest) c
unfolding repeat_next Chain
repeat_next-Chain set_size size zero first rest fits len chain below = refl
repeat_next-Chain set_size size (suc c) first [] fits len chain below = absurd (omega arith)
repeat_next-Chain set_size size (suc c) first (second ∷ rest) fits len chain below =
    let moves : next_combination set_size size first ≡ some second =
      ap (λ n. next_combination set_size n first) (sym len)
      ∙ next_combination-eq-successor set_size first (omega arith)
      ∙ chain.0 in
    rw (moves, ◌>>=◌)
      (repeat_next-Chain set_size size c second rest fits
        (length-successor set_size first second chain.0 ∙ len) chain.1 (omega arith))

-- For an index below the number of combinations, which fits in 32 bits as the size of the set does,
-- and a subset from 1 to that size: the loop finds the combination at that index of the list of all
-- subsets, in lexicographic order.
pub lookup_combination-eq-subsets :
    (set_size size combination : ℕ)
    → 1 ≤ size
    → size ≤ set_size
    → set_size < 2 ^ 32
    → choose set_size size < 2 ^ 32
    → combination < choose set_size size
    → lookup_combination set_size size combination ≡ get_elem? (subsets size 0 set_size) combination
unfolding lookup_combination
lookup_combination-eq-subsets set_size size combination one fits word small below =
    let total : number_of_combinations set_size size ≡ some (choose set_size size) =
      number_of_combinations-eq-choose set_size size fits word
      ∙ ap some (mod-eq_of_lt {n = choose set_size size} {m = 2 ^ 32} small) in
    let (rest, shape, chain) = subsets-AreChained size 0 set_size set_size fits (omega arith) in
    let count : length (count_up 0 size ∷ rest) ≡ choose set_size size =
      ap length (sym shape) ∙ length-subsets size 0 set_size in
    rw
      (
        lt→ltb 0 size one,
        le→leb size set_size fits,
        total,
        lt→ltb combination (choose set_size size) below,
        shape,
      )
      (repeat_next-Chain set_size size combination (count_up 0 size) rest fits
        (length-count_up 0 size) chain (rw count below))

-- The sizes at which `lookup_combination` returns: its assertions, and no wrap of the total.
pub record CanLookUp (set_size size : ℕ) : Type 0 where
  pub some_one : 1 ≤ size
  pub fits : size ≤ set_size
  pub word : set_size < 2 ^ 32
  pub small : choose set_size size < 2 ^ 32

-- Under the conditions of `CanLookUp`, every index below the number of combinations gives a subset
-- of that size, in rising order and in range.
pub lookup_combination-IsSubset :
    (set_size size combination : ℕ)
    → CanLookUp set_size size
    → combination < choose set_size size
    → (xs : List ℕ) × (lookup_combination set_size size combination ≡ some xs)
      × IsSubset 0 set_size size xs
lookup_combination-IsSubset set_size size combination can below =
    let runs =
      lookup_combination-eq-subsets set_size size combination can.some_one can.fits can.word
        can.small below in
    let (xs, at) =
      get_elem?_inside (subsets size 0 set_size) combination
        (rw (length-subsets size 0 set_size) below) in
    (
      xs,
      runs ∙ at,
      get_elem?-All (IsSubset 0 set_size size) (subsets size 0 set_size) combination
          (subsets-IsSubset size 0 set_size set_size (omega arith)) at,
    )

-- Under the conditions of `CanLookUp`, every subset of that size is given by some index below the
-- number of combinations.
pub lookup_combination_complete :
    (set_size size : ℕ) (xs : List ℕ)
    → CanLookUp set_size size
    → IsSubset 0 set_size size xs
    → (combination : ℕ) × (combination < choose set_size size)
      × (lookup_combination set_size size combination ≡ some xs)
lookup_combination_complete set_size size xs can subset =
    let (i, at) = subsets_complete size 0 set_size set_size xs (omega arith) subset in
    let below : i < choose set_size size =
      rw (length-subsets size 0 set_size) at (get_elem?-lt (subsets size 0 set_size) i at) in
    (
      i,
      below,
      lookup_combination-eq-subsets set_size size i can.some_one can.fits can.word can.small below
          ∙ at,
    )
