-- ===== src/Utils.antt =====
-- src/utils.c: numbers and paths in texts. A text is the list of its bytes up to the terminator;
-- `strtol` and `strtoul` are parameters.
use honas.Common.{
  ℕ, suc, ◌-◌, ◌%◌, ◌^◌, ◌≡◌, refl, Bool, true, false, ◌&&◌, not, List, [], ◌∷◌, ◌++◌, Option, none,
  some, ltb, ◌==◌, if◌then◌else◌, length, All, arith, ℤ, pos, negsuc,
}

-- What `strtol` and `strtoul` return: whether `errno` is set, the value, and the text at `endptr`.
pub record Parsed (Number : Type 0) : Type 0 where
  pub errno_set : Bool
  pub value : Number
  pub rest : List ℕ

-- The conversion of a `long` to an `int`.
pub to_int : ℤ → ℤ
to_int (pos n) = let r = n % 2 ^ 32 in if ltb r (2 ^ 31) then pos r else negsuc (2 ^ 32 - 1 - r)
to_int (negsuc n) = let r = n % 2 ^ 32 in if ltb r (2 ^ 31) then negsuc r else pos (2 ^ 32 - 1 - r)

abbrev is_empty : List ℕ → Bool
is_empty [] = true
is_empty (c ∷ text) = false

-- `none` is the result -1.
unfoldable pub my_strtol : (strtol : List ℕ → Parsed ℤ) → List ℕ → Option ℤ
unfolding to_int
my_strtol strtol text =
    let v = strtol text in
    if v.errno_set
    then none
    else (if length v.rest == length text
        then none
        else (if not (is_empty v.rest) then none else some (to_int v.value)))

-- `my_strtouint16`, `my_strtouint32` and `my_strtouint64`, by the largest value; the number where
-- the result is true, and what `*supplied_endptr` is afterwards where the caller gives one.
unfoldable pub my_strtouint :
    (largest : ℕ) (strtoul : List ℕ → ℕ → Parsed ℕ) (text : List ℕ) (supplied : Bool) (base : ℕ)
    → Option ℕ × List ℕ
my_strtouint largest strtoul text supplied base =
    let v = strtoul text base in
    (
      (if v.errno_set
          then none
          else (if length v.rest == length text
              then none
              else (if ltb largest v.value
                  then none
                  else (if not supplied && not (is_empty v.rest) then none else some v.value)))),
      v.rest,
    )

pub my_strtouint16 :
    (List ℕ → ℕ → Parsed ℕ) → List ℕ → (supplied : Bool) → (base : ℕ) → Option ℕ × List ℕ
unfolding my_strtouint
my_strtouint16 strtoul text supplied base = my_strtouint (2 ^ 16 - 1) strtoul text supplied base

unfoldable pub my_strtouint32 :
    (List ℕ → ℕ → Parsed ℕ) → List ℕ → (supplied : Bool) → (base : ℕ) → Option ℕ × List ℕ
unfolding my_strtouint
my_strtouint32 strtoul text supplied base = my_strtouint (2 ^ 32 - 1) strtoul text supplied base

pub my_strtouint64 :
    (List ℕ → ℕ → Parsed ℕ) → List ℕ → (supplied : Bool) → (base : ℕ) → Option ℕ × List ℕ
unfolding my_strtouint
my_strtouint64 strtoul text supplied base = my_strtouint (2 ^ 64 - 1) strtoul text supplied base

-- The text before the first `c`, and the text behind it.
unfoldable pub strchr : (c : ℕ) → List ℕ → Option (List ℕ × List ℕ)
strchr c [] = none
strchr c (x ∷ text) =
    let found = strchr c text in
    if x == c
    then some ([], text)
    else elim found [ none ↦ none | some (before, after) ↦ some (x ∷ before, after) ]

-- The text up to the last `/`, and with it.
unfoldable pub directory : List ℕ → Option (List ℕ)
directory [] = none
directory (x ∷ text) =
    let later = directory text in
    elim later [
      | some prefix ↦ some (x ∷ prefix)
      | none ↦ if x == b'/' then some (x ∷ []) else none
    ]

-- `create_relative_filepath`, where the allocation succeeds.
unfoldable pub create_relative_filepath : (orig_file rel_file : List ℕ) → List ℕ
unfolding directory
create_relative_filepath orig_file rel_file = elim (directory orig_file) [
  | none ↦ rel_file
  | some prefix ↦ prefix ++ rel_file
]

-- `index_ws`: the index of the first space or tab.
unfoldable pub index_of : (c : ℕ) → List ℕ → Option ℕ
index_of c [] = none
index_of c (x ∷ text) =
    let later = index_of c text in
    if x == c then some 0 else elim later [ none ↦ none | some i ↦ some (suc i) ]

unfoldable pub index_ws : List ℕ → Option ℕ
unfolding index_of
index_ws text = elim (index_of b' ' text) [
  | none ↦ index_of b'\t' text
  | some spc ↦ elim (index_of b'\t' text) [
    | none ↦ some spc
    | some tab ↦ if ltb spc tab then some spc else some tab
  ]
]

-- A character that is not in a text.
abbrev pub NotIn : ℕ → List ℕ → Type 0
NotIn c text = All (λ x. (x == c) ≡ false) text

unfoldable pub strchr-append_here :
    (c : ℕ) (before after : List ℕ)
    → NotIn c before
    → strchr c (before ++ c ∷ after) ≡ some (before, after)
unfolding strchr
strchr-append_here c [] after h = let same : (c == c) ≡ true = ground arith in rw same refl
strchr-append_here c (x ∷ before) after h = rw (h.0, strchr-append_here c before after h.1) refl

unfoldable pub strchr-none : (c : ℕ) (text : List ℕ) → NotIn c text → strchr c text ≡ none
unfolding strchr
strchr-none c [] h = refl
strchr-none c (x ∷ text) h = rw (h.0, strchr-none c text h.1) refl
