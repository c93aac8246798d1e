-- ===== src/Combinations.antt =====
-- src/combinations.c: the number of subsets of a size, and the subset that an index stands for.
-- Numbers are `uint32_t`.
pub mod Count
pub mod Subsets
pub mod Lookup
pub mod Examples
use honas.Common.{
  ℕ, zero, suc, ◌+◌, ◌-◌, ◌%◌, ◌^◌, ◌≡◌, refl, Bool, not, ◌&&◌, ◌||◌, List, [], ◌∷◌, Option, none,
  some, ltb, leb, ◌==◌, if◌then◌else◌, u32, length, get_or, set, replicate, require, ◌>>=◌, ◌>>◌,
}

-- `set_size - 1`, which wraps at 0.
unfoldable pub one_less : ℕ → ℕ
one_less set_size = u32 (set_size + 2 ^ 32 - 1)

-- The recursion, at most `depth` calls deep; `none` is one that goes deeper.
unfoldable pub combinations_within : (depth set_size subset_size : ℕ) → Option ℕ
combinations_within zero set_size subset_size = none
combinations_within (suc depth) set_size subset_size =
    let without = combinations_within depth (one_less set_size) subset_size in
    let including = combinations_within depth (one_less set_size) (subset_size - 1) in
    let sum = (do a ← without; b ← including; some (u32 (a + b))) in
    if subset_size == 0 || subset_size == set_size
    then some 1
    else (if subset_size == 1 then some set_size else sum)

-- For a subset that fits the set, `set_size` calls are deep enough. For a larger one the recursion
-- may go on from 2 ^ 32 - 1 where `set_size - 1` wraps, which this leaves open with `none`.
pub number_of_combinations : (set_size subset_size : ℕ) → Option ℕ
unfolding combinations_within
number_of_combinations set_size subset_size =
    combinations_within (suc set_size) set_size subset_size

-- `for (i = subset_size - 1; true; i--)`, with `i + 1` rounds left; `none` where `i` wraps, which
-- reads out of bounds.
pub find_next : (gap i : ℕ) → List ℕ → Option ℕ
find_next gap zero subset_indexes = none
find_next gap (suc i) subset_indexes =
    if not (get_or subset_indexes i 0 == i + gap) then some i else find_next gap i subset_indexes

-- `for (; i < subset_size; i++) subset_indexes[i] = subset_indexes[i - 1] + 1`.
pub renumber : (rounds i : ℕ) → List ℕ → List ℕ
renumber zero i subset_indexes = subset_indexes
renumber (suc rounds) i subset_indexes =
    renumber rounds (suc i) (set subset_indexes i (get_or subset_indexes (i - 1) 0 + 1))

-- The body of the loop over combinations.
pub next_combination : (set_size subset_size : ℕ) → List ℕ → Option (List ℕ)
unfolding find_next renumber
next_combination set_size subset_size subset_indexes = do
  i ← find_next (set_size - subset_size) subset_size subset_indexes
  some (
      renumber (subset_size - suc i) (suc i) (set subset_indexes i (get_or subset_indexes i 0 + 1)))

pub repeat_next : (set_size subset_size rounds : ℕ) → List ℕ → Option (List ℕ)
repeat_next set_size subset_size zero subset_indexes = some subset_indexes
repeat_next set_size subset_size (suc rounds) subset_indexes = do
  next ← next_combination set_size subset_size subset_indexes
  repeat_next set_size subset_size rounds next

-- The numbers from `first` on.
unfoldable pub count_up : (first count : ℕ) → List ℕ
count_up first zero = []
count_up first (suc count) = first ∷ count_up (suc first) count

pub lookup_combination : (set_size subset_size combination : ℕ) → Option (List ℕ)
lookup_combination set_size subset_size combination = do
  require (ltb 0 subset_size && leb subset_size set_size)
  total ← number_of_combinations set_size subset_size
  require (ltb combination total)
  repeat_next set_size subset_size combination (count_up 0 subset_size)

lookup_combination_test : lookup_combination 5 3 6 ≡ some (1 ∷ 2 ∷ 3 ∷ [])
unfolding lookup_combination number_of_combinations combinations_within one_less count_up
    repeat_next next_combination
lookup_combination_test = refl
