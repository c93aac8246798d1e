-- ===== src/Combinations/Examples.antt =====
-- Subsets of 2 of 4 filters.
use honas.Common.{ℕ, ◌%◌, ◌^◌, ◌<◌, ◌≡◌, refl, arith, List, [], ◌∷◌, some, get_elem?}
use honas.Combinations.{number_of_combinations, lookup_combination}
use honas.Combinations.Count.{choose, number_of_combinations-eq-choose}
use honas.Combinations.Subsets.{subsets, IsSubset}
use honas.Combinations.Lookup.{
  CanLookUp, lookup_combination-eq-subsets, lookup_combination-IsSubset,
  lookup_combination_complete,
}

choose-4-2 : choose 4 2 ≡ 6
unfolding choose
choose-4-2 = refl

four_choose_two : CanLookUp 4 2
four_choose_two = record {
  some_one = omega arith;
  fits = omega arith;
  word = omega arith;
  small = omega (arith, choose-4-2);
}

number_of_combinations_example : number_of_combinations 4 2 ≡ some (choose 4 2 % 2 ^ 32)
number_of_combinations_example = number_of_combinations-eq-choose 4 2 (omega arith) (omega arith)

lookup_combination-eq-subsets_example : lookup_combination 4 2 3 ≡ get_elem? (subsets 2 0 4) 3
lookup_combination-eq-subsets_example =
    lookup_combination-eq-subsets 4 2 3 (omega arith) (omega arith) (omega arith)
      (omega (arith, choose-4-2)) (omega (arith, choose-4-2))

lookup_combination-IsSubset_example :
    (xs : List ℕ) × (lookup_combination 4 2 5 ≡ some xs) × IsSubset 0 4 2 xs
lookup_combination-IsSubset_example =
    lookup_combination-IsSubset 4 2 5 four_choose_two (omega (arith, choose-4-2))

lookup_combination_complete_example :
    (combination : ℕ) × (combination < choose 4 2)
    × (lookup_combination 4 2 combination ≡ some (1 ∷ 3 ∷ []))
lookup_combination_complete_example =
    lookup_combination_complete 4 2 (1 ∷ 3 ∷ []) four_choose_two
      ((omega arith, omega arith, (omega arith, omega arith, tt)), refl)
