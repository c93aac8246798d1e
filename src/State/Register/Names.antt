-- ===== src/State/Register/Names.antt =====
-- The names that a lookup records, described on the host name alone.
use honas.Common.{
  ℕ, ◌+◌, ◌<◌, ◌≡◌, refl, arith, List, [], ◌∷◌, inl, inr, none, some, ◌==◌, if◌then◌else◌, length,
  Option-cases,
}
use honas.State.Register.Text.{memchr_dot}

-- The labels that a '.' ends.
unfoldable pub labels_of : List ℕ → List (List ℕ)
labels_of [] = []
labels_of (c ∷ rest) =
    if c == b'.'
    then [] ∷ labels_of rest
    else (elim (labels_of rest) [ [] ↦ [] | l ∷ ls ↦ (c ∷ l) ∷ ls ])

-- What stands behind each '.'.
unfoldable pub parts_behind_dots : List ℕ → List (List ℕ)
parts_behind_dots [] = []
parts_behind_dots (c ∷ rest) =
    if c == b'.' then rest ∷ parts_behind_dots rest else parts_behind_dots rest

-- The last label but one with all that follows it, empty for a name of one label.
unfoldable pub second_level : (part : List ℕ) (behind : List (List ℕ)) → List ℕ
second_level part [] = []
second_level part (next ∷ []) = part
second_level part (next ∷ after ∷ rest) = second_level next (after ∷ rest)

pub memchr_dot-none :
    (xs : List ℕ) → memchr_dot xs ≡ none → (labels_of xs ≡ []) × (parts_behind_dots xs ≡ [])
unfolding memchr_dot labels_of parts_behind_dots
memchr_dot-none [] e = (refl, refl)
memchr_dot-none (c ∷ rest) e = elim (Option-cases (memchr_dot rest)) [
  | inl e' ↦ ground (arith, e', memchr_dot-none rest e')
  | inr (r, e') ↦ ground (arith, e')
]

pub memchr_dot-some :
    (xs label next : List ℕ)
    → memchr_dot xs ≡ some (label, next)
    → (labels_of xs ≡ label ∷ labels_of next)
      × (parts_behind_dots xs ≡ next ∷ parts_behind_dots next)
      × (length label + length next < length xs)
unfolding memchr_dot labels_of parts_behind_dots
memchr_dot-some [] label next e = absurd (cc e)
memchr_dot-some (c ∷ rest) label next e = elim (Option-cases (memchr_dot rest)) [
  | inl e' ↦ ground (arith, e')
  | inr ((label', next'), e') ↦ ground (arith, e', memchr_dot-some rest label' next' e')
]

names_test :
    (labels_of (1 ∷ 46 ∷ 2 ∷ 46 ∷ 3 ∷ []) ≡ (1 ∷ []) ∷ (2 ∷ []) ∷ [])
    × (second_level (1 ∷ 46 ∷ 2 ∷ 46 ∷ 3 ∷ []) (parts_behind_dots (1 ∷ 46 ∷ 2 ∷ 46 ∷ 3 ∷ []))
        ≡ 2 ∷ 46 ∷ 3 ∷ [])
unfolding labels_of second_level parts_behind_dots
names_test = (refl, refl)
