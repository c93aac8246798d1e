-- ===== src/Combinations/Subsets.antt =====
-- The subsets of `lo, …, lo + room - 1` of a size, as strictly rising lists in lexicographic order,
-- and the step from one to the next.
use honas.Common.{
  ℕ, zero, suc, ◌+◌, ◌<◌, ◌≤◌, ◌≡◌, refl, sym, ap, ◌∙◌, arith, List, [], ◌∷◌, ◌++◌, map, Option,
  none, some, All, Rising, Rising-lower, Bool-cases, ==→eq, get_elem?, Option-cases, inl, inr,
  dec_lt, length, length-append, ◌==◌, not, if◌then◌else◌,
}
use mathlib.Core.List.{append-nil}
use honas.Combinations.{count_up}
use honas.Combinations.Count.{choose}

unfoldable pub subsets : (size lo room : ℕ) → List (List ℕ)
subsets zero lo room = [] ∷ []
subsets (suc size) lo zero = []
subsets (suc size) lo (suc room) =
    map (◌∷◌ lo) (subsets size (suc lo) room) ++ subsets (suc size) (suc lo) room

length-map : (f : List ℕ → List ℕ) (xs : List (List ℕ)) → length (map f xs) ≡ length xs
length-map f [] = refl
length-map f (x ∷ xs) = ap suc (length-map f xs)

-- There are as many as the binomial coefficient says.
pub length-subsets : (size lo room : ℕ) → length (subsets size lo room) ≡ choose room size
unfolding subsets choose
length-subsets zero lo zero = refl
length-subsets zero lo (suc room) = refl
length-subsets (suc size) lo zero = refl
length-subsets (suc size) lo (suc room) = omega (
  arith,
  length-append (map (◌∷◌ lo) (subsets size (suc lo) room)) (subsets (suc size) (suc lo) room),
  length-map (◌∷◌ lo) (subsets size (suc lo) room),
  length-subsets size (suc lo) room,
  length-subsets (suc size) (suc lo) room,
)

-- The next subset below `hi`: the last element that can rise does, and those behind it follow on.
unfoldable pub successor : (hi : ℕ) → List ℕ → Option (List ℕ)
successor hi [] = none
successor hi (x ∷ xs) = elim (successor hi xs) [
  | some xs' ↦ some (x ∷ xs')
  | none ↦
      if not (x + suc (length xs) == hi)
      then some (suc x ∷ count_up (suc (suc x)) (length xs))
      else none
]

-- Each is the successor of the one before it, and the last has none.
unfoldable pub Chain : (hi : ℕ) → List ℕ → List (List ℕ) → Type 0
Chain hi first [] = successor hi first ≡ none
Chain hi first (second ∷ rest) = (successor hi first ≡ some second) × Chain hi second rest

pub length-count_up : (first count : ℕ) → length (count_up first count) ≡ count
unfolding count_up
length-count_up first zero = refl
length-count_up first (suc count) = ap suc (length-count_up (suc first) count)

pub length-successor : (hi : ℕ) (xs ys : List ℕ) → successor hi xs ≡ some ys → length ys ≡ length xs
unfolding successor
length-successor hi [] ys e = cc
length-successor hi (x ∷ xs) ys e = elim (Option-cases (successor hi xs)) [
  | inl last ↦ ground (arith, last, length-count_up (suc (suc x)) (length xs))
  | inr (xs', next) ↦ ground (arith, next, length-successor hi xs xs' next)
]

-- A chain under one common head, followed by the chain that starts where the head rises.
Chain-append :
    (hi lo size : ℕ) (first : List ℕ) (rest after : List (List ℕ))
    → Chain hi first rest
    → length first ≡ size
    → lo + suc size < hi
    → Chain hi (suc lo ∷ count_up (suc (suc lo)) size) after
    → Chain hi (lo ∷ first) (map (◌∷◌ lo) rest ++ (suc lo ∷ count_up (suc (suc lo)) size) ∷ after)
unfolding Chain successor
Chain-append hi lo size first [] after chain len below later =
    (rw (chain, successor) (ground (arith, ap (count_up (suc (suc lo))) len)), later)
Chain-append hi lo size first (second ∷ rest) after chain len below later = (
  ground (arith, chain.0),
  Chain-append hi lo size second rest after chain.1 (length-successor hi first second chain.0 ∙ len)
      below later,
)

-- A chain under the highest head.
Chain-map :
    (hi lo size : ℕ) (first : List ℕ) (rest : List (List ℕ))
    → Chain hi first rest
    → length first ≡ size
    → lo + suc size ≡ hi
    → Chain hi (lo ∷ first) (map (◌∷◌ lo) rest)
unfolding Chain successor
Chain-map hi lo size first [] chain len top = ground (arith, chain)
Chain-map hi lo size first (second ∷ rest) chain len top = (
  ground (arith, chain.0),
  Chain-map hi lo size second rest chain.1 (length-successor hi first second chain.0 ∙ len) top,
)

subsets_none : (size lo room : ℕ) → room < size → subsets size lo room ≡ []
unfolding subsets
subsets_none zero lo room h = absurd (omega arith)
subsets_none (suc size) lo zero h = refl
subsets_none (suc size) lo (suc room) h = rw (
  subsets_none size (suc lo) room (omega arith),
  subsets_none (suc size) (suc lo) room (omega arith),
)

-- The subsets, in order, are a chain from the first to the last.
pub subsets-AreChained :
    (size lo room hi : ℕ)
    → size ≤ room
    → lo + room ≡ hi
    → (rest : List (List ℕ)) × (subsets size lo room ≡ count_up lo size ∷ rest)
      × Chain hi (count_up lo size) rest
unfolding subsets count_up Chain
subsets-AreChained zero lo room hi fits e = ([], refl, unfold successor in refl)
subsets-AreChained (suc size) lo zero hi fits e = absurd (omega arith)
subsets-AreChained (suc size) lo (suc room) hi fits e =
    let (rest, shape, chain) =
      subsets-AreChained size (suc lo) room hi (omega arith) (omega arith) in
    elim (dec_lt size room) [
      | yes more ↦
          let (rest', shape', chain') =
            subsets-AreChained (suc size) (suc lo) room hi more (omega arith) in
          (
            map (◌∷◌ lo) rest ++ count_up (suc lo) (suc size) ∷ rest',
            rw (shape, shape'),
            Chain-append hi lo size (count_up (suc lo) size) rest rest' chain
                (length-count_up (suc lo) size) (omega arith) chain',
          )
      | no full ↦ (
        map (◌∷◌ lo) rest,
        rw (shape, subsets_none (suc size) (suc lo) room (omega arith)) (append-nil _),
        Chain-map hi lo size (count_up (suc lo) size) rest chain (length-count_up (suc lo) size)
            (omega arith),
      )
    ]

-- A subset of `size` of the numbers from `lo` to below `hi`, in rising order.
abbrev pub IsSubset : (lo hi size : ℕ) → List ℕ → Type 0
IsSubset lo hi size xs = Rising lo hi xs × (length xs ≡ size)

All-append {ℓ} :
    {A : Type 0} (P : A → Type ℓ) (xs ys : List A) → All P xs → All P ys → All P (xs ++ ys)
All-append P [] ys h k = k
All-append P (x ∷ xs) ys h k = (h.0, All-append P xs ys h.1 k)

All-map_cons :
    (lo hi size : ℕ) (xss : List (List ℕ))
    → lo < hi
    → All (IsSubset (suc lo) hi size) xss
    → All (IsSubset lo hi (suc size)) (map (◌∷◌ lo) xss)
All-map_cons lo hi size [] h all = tt
All-map_cons lo hi size (xs ∷ xss) h all =
    (((omega arith, h, all.0.0), ap suc all.0.1), All-map_cons lo hi size xss h all.1)

All-IsSubset-lower :
    (lo hi size : ℕ) (xss : List (List ℕ))
    → All (IsSubset (suc lo) hi size) xss
    → All (IsSubset lo hi size) xss
All-IsSubset-lower lo hi size [] all = tt
All-IsSubset-lower lo hi size (xs ∷ xss) all =
    ((Rising-lower lo hi xs all.0.0, all.0.1), All-IsSubset-lower lo hi size xss all.1)

pub subsets-IsSubset :
    (size lo room hi : ℕ) → lo + room ≡ hi → All (IsSubset lo hi size) (subsets size lo room)
unfolding subsets
subsets-IsSubset zero lo room hi e = ((tt, refl), tt)
subsets-IsSubset (suc size) lo zero hi e = tt
subsets-IsSubset (suc size) lo (suc room) hi e =
    All-append (IsSubset lo hi (suc size)) _ _
      (All-map_cons lo hi size _ (omega arith)
        (subsets-IsSubset size (suc lo) room hi (omega arith)))
      (All-IsSubset-lower lo hi (suc size) _
        (subsets-IsSubset (suc size) (suc lo) room hi (omega arith)))

get_elem?-append_left :
    (xs ys : List (List ℕ)) (i : ℕ) {x : List ℕ}
    → get_elem? xs i ≡ some x
    → get_elem? (xs ++ ys) i ≡ some x
get_elem?-append_left [] ys i e = cc
get_elem?-append_left (y ∷ xs) ys zero e = e
get_elem?-append_left (y ∷ xs) ys (suc i) e = get_elem?-append_left xs ys i e

get_elem?-append_right :
    (xs ys : List (List ℕ)) (i : ℕ) → get_elem? (xs ++ ys) (length xs + i) ≡ get_elem? ys i
get_elem?-append_right [] ys i = ap (get_elem? ys) (omega arith)
get_elem?-append_right (y ∷ xs) ys i =
    ap (get_elem? (y ∷ xs ++ ys))
      (let e : suc (length xs) + i ≡ suc (length xs + i) = omega arith in e)
    ∙ get_elem?-append_right xs ys i

get_elem?-map_cons :
    (lo : ℕ) (xss : List (List ℕ)) (i : ℕ) {x : List ℕ}
    → get_elem? xss i ≡ some x
    → get_elem? (map (◌∷◌ lo) xss) i ≡ some (lo ∷ x)
get_elem?-map_cons lo [] i e = cc
get_elem?-map_cons lo (y ∷ xss) zero e = cc e
get_elem?-map_cons lo (y ∷ xss) (suc i) e = get_elem?-map_cons lo xss i e

-- Every subset stands in the enumeration.
pub subsets_complete :
    (size lo room hi : ℕ) (xs : List ℕ)
    → lo + room ≡ hi
    → IsSubset lo hi size xs
    → (i : ℕ) × (get_elem? (subsets size lo room) i ≡ some xs)
unfolding subsets
subsets_complete zero lo room hi [] e h = (0, refl)
subsets_complete zero lo room hi (x ∷ xs) e h = absurd (omega (arith, h.1))
subsets_complete (suc size) lo zero hi [] e h = absurd (omega (arith, h.1))
subsets_complete (suc size) lo zero hi (x ∷ xs) e h = absurd (omega (arith, h.0))
subsets_complete (suc size) lo (suc room) hi [] e h = absurd (omega (arith, h.1))
subsets_complete (suc size) lo (suc room) hi (x ∷ xs) e h = elim (Bool-cases (x == lo)) [
  | inl first ↦
      let head : x ≡ lo = ==→eq x lo first in
      let (i, at) =
        subsets_complete size (suc lo) room hi xs (omega arith)
          (rw (ap suc head) at h.0.2, omega (arith, h.1)) in
      (
        i,
        get_elem?-append_left (map (◌∷◌ lo) (subsets size (suc lo) room)) _ i
              (get_elem?-map_cons lo _ i at)
            ∙ ap (λ n. some (n ∷ xs)) (sym head),
      )
  | inr later ↦
      let above : suc lo ≤ x = ground (arith, h.0.0) in
      let (i, at) =
        subsets_complete (suc size) (suc lo) room hi (x ∷ xs) (omega arith)
          ((above, h.0.1, h.0.2), h.1) in
      (
        length (map (◌∷◌ lo) (subsets size (suc lo) room)) + i,
        get_elem?-append_right (map (◌∷◌ lo) (subsets size (suc lo) room)) _ i ∙ at,
      )
]
