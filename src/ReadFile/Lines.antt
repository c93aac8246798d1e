-- ===== src/ReadFile/Lines.antt =====
-- src/read_file.c: the lines of a file's bytes, described without buffers.
use mathlib.Core.List.{append_assoc}
use honas.Common.{
  ℕ, suc, ◌≤◌, ◌<◌, ◌≡◌, refl, ap, sym, true, false, List, [], ◌∷◌, ◌++◌, Option, none, some, ltb,
  ◌==◌, if◌then◌else◌, length, ◌>>=◌, ℤ, negsuc, arith, Bool-cases, Option-cases, ==→eq, inl, inr,
  length-append,
}
use honas.Utils.{strchr, NotIn}
use honas.ReadFile.{max_file_line_length}

pub strchr-eq-some :
    (c : ℕ) (text : List ℕ) {before after : List ℕ}
    → strchr c text ≡ some (before, after)
    → (text ≡ before ++ c ∷ after) × NotIn c before
unfolding strchr
strchr-eq-some c [] e = cc
strchr-eq-some c (x ∷ text) {before} {after} e = elim (Bool-cases (x == c)) [
  | inl t ↦
      let h : some ([], text) ≡ some (before, after) = rw t at e in
      let b : [] ≡ before = cc h in
      let a : text ≡ after = cc h in
      let same : x ≡ c = ==→eq x c t in rw (sym b, sym a, same) (refl, tt)
  | inr f ↦ elim (Option-cases (strchr c text)) [
    | inl n ↦ absurd (cc (rw (f, n) at e))
    | inr ((l, r), s) ↦
        let h : some (x ∷ l, r) ≡ some (before, after) = rw (f, s) at e in
        let b : x ∷ l ≡ before = cc h in
        let a : r ≡ after = cc h in
        let later = strchr-eq-some c text s in rw (sym b, sym a) (ap (◌∷◌ x) later.0, (f, later.1))
  ]
]

pub strchr-eq-none : (c : ℕ) (text : List ℕ) → strchr c text ≡ none → NotIn c text
unfolding strchr
strchr-eq-none c [] e = tt
strchr-eq-none c (x ∷ text) e = elim (Bool-cases (x == c)) [
  | inl t ↦ absurd (cc (rw t at e))
  | inr f ↦ elim (Option-cases (strchr c text)) [
    | inl n ↦ (f, strchr-eq-none c text n)
    | inr ((l, r), s) ↦ absurd (cc (rw (f, s) at e))
  ]
]

pub NotIn-append : (c : ℕ) (xs ys : List ℕ) → NotIn c xs → NotIn c ys → NotIn c (xs ++ ys)
NotIn-append c [] ys h k = k
NotIn-append c (x ∷ xs) ys h k = (h.0, NotIn-append c xs ys h.1 k)

abbrev put_first : ℕ → List (List ℕ) × List ℕ → List (List ℕ) × List ℕ
put_first c ([], tail) = ([], c ∷ tail)
put_first c (l ∷ ls, tail) = ((c ∷ l) ∷ ls, tail)

-- The lines that end with a newline, and what stands behind the last newline.
unfoldable pub lines : List ℕ → List (List ℕ) × List ℕ
lines [] = ([], [])
lines (c ∷ content) =
    let (ls, tail) = lines content in if c == b'\n' then ([] ∷ ls, tail) else put_first c (ls, tail)

pub lines-line :
    (line rest : List ℕ)
    → NotIn b'\n' line
    → lines (line ++ b'\n' ∷ rest) ≡ (line ∷ (lines rest).0, (lines rest).1)
unfolding lines
lines-line [] rest h = refl
lines-line (c ∷ line) rest h = rw (h.0, lines-line line rest h.1) refl

pub lines_unended : (tail : List ℕ) → NotIn b'\n' tail → lines tail ≡ ([], tail)
unfolding lines
lines_unended [] h = refl
lines_unended (c ∷ tail) h = rw (h.0, lines_unended tail h.1) refl

module _ {A : Type 0} (parse_line : A → ℕ → List ℕ → Option A) (closed : ℤ) where
  -- What stands behind the last newline decides the result.
  abbrev pub end_result : List ℕ → ℤ
  end_result [] = closed
  end_result (c ∷ tail) =
      if ltb (length (c ∷ tail)) max_file_line_length then negsuc 2 else negsuc 3

  -- What reading a file means: its lines go to the handler in their order with their numbers, up
  -- to a line that is too long. `closed` is the result of closing the file.
  unfoldable pub feed : A → (lineno : ℕ) → List (List ℕ) × List ℕ → Option (ℤ × A)
  feed a lineno ([], tail) = some (end_result tail, a)
  feed a lineno (line ∷ ls, tail) =
      let rest = parse_line a (suc lineno) line >>= λ a'. feed a' (suc lineno) (ls, tail) in
      if ltb (length line) max_file_line_length then rest else some (negsuc 3, a)

  pub feed-line :
      (a : A) (lineno : ℕ) (line rest : List ℕ)
      → NotIn b'\n' line
      → length line < max_file_line_length
      → feed a lineno (lines (line ++ b'\n' ∷ rest))
        ≡ (parse_line a (suc lineno) line >>= λ a'. feed a' (suc lineno) (lines rest))
  unfolding feed
  feed-line a lineno line rest h short =
      let fits : ltb (length line) max_file_line_length ≡ true = ground arith in
      rw (lines-line line rest h, fits) refl

  pub feed_long :
      (a : A) (lineno : ℕ) (begin rest : List ℕ)
      → NotIn b'\n' begin
      → max_file_line_length ≤ length begin
      → feed a lineno (lines (begin ++ rest)) ≡ some (negsuc 3, a)
  unfolding feed
  feed_long a lineno [] rest h long = absurd (omega arith)
  feed_long a lineno (c ∷ begin) rest h long = elim (Option-cases (strchr b'\n' rest)) [
    | inl n ↦
        let whole = NotIn-append b'\n' (c ∷ begin) rest h (strchr-eq-none b'\n' rest n) in
        let over : ltb (length ((c ∷ begin) ++ rest)) max_file_line_length ≡ false =
          ground (arith, length-append begin rest) in
        rw (lines_unended ((c ∷ begin) ++ rest) whole, over) refl
    | inr ((l, r), s) ↦
        let (split, plain) = strchr-eq-some b'\n' rest s in
        let whole = NotIn-append b'\n' (c ∷ begin) l h plain in
        let over : ltb (length ((c ∷ begin) ++ l)) max_file_line_length ≡ false =
          ground (arith, length-append begin l) in
        rw
          (
            split,
            sym (append_assoc (c ∷ begin) l (b'\n' ∷ r)),
            lines-line ((c ∷ begin) ++ l) r whole,
            over,
          )
          refl
  ]

  pub feed_end :
      (a : A) (lineno : ℕ) (tail : List ℕ)
      → NotIn b'\n' tail
      → feed a lineno (lines tail) ≡ some (end_result tail, a)
  unfolding feed
  feed_end a lineno tail plain = rw (lines_unended tail plain) refl
