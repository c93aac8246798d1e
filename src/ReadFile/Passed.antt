-- ===== src/ReadFile/Passed.antt =====
-- src/read_file.c: the lines that the inner loop passes on.
use mathlib.Core.Path.{subst}
use mathlib.Core.List.{append_assoc}
use honas.Common.{
  ℕ, zero, suc, ◌+◌, ◌≤◌, ◌≡◌, refl, ap, sym, ◌∙◌, List, [], ◌∷◌, ◌++◌, Option, none, some, length,
  ◌>>=◌, ℤ, arith, Option-cases, inl, inr, length-append,
}
use honas.Utils.{strchr, NotIn}
use honas.ReadFile.{max_file_line_length, pass_lines}
use honas.ReadFile.Lines.{lines, feed, feed-line, strchr-eq-some, strchr-eq-none}

module _ {A : Type 0} (parse_line : A → ℕ → List ℕ → Option A) (closed : ℤ) where
  -- What `pass_lines` leaves: the rest of the file means the same behind it.
  abbrev pub Passed : A → ℕ → List ℕ → List ℕ → Option (A × ℕ × List ℕ) → Type 0
  Passed a n buf x none = feed parse_line closed a n (lines (buf ++ x)) ≡ none
  Passed a n buf x (some (a', n', rest)) =
      (feed parse_line closed a n (lines (buf ++ x))
        ≡ feed parse_line closed a' n' (lines (rest ++ x)))
      × NotIn b'\n' rest
      × (length rest ≤ length buf)

  feed-Passed :
      (a a' : A) (n n' : ℕ) (buf after x : List ℕ) (o : Option (A × ℕ × List ℕ))
      → feed parse_line closed a n (lines (buf ++ x))
        ≡ feed parse_line closed a' n' (lines (after ++ x))
      → length after ≤ length buf
      → Passed a' n' after x o
      → Passed a n buf x o
  feed-Passed a a' n n' buf after x none now le h = now ∙ h
  feed-Passed a a' n n' buf after x (some (a2, n2, rest)) now le h =
      (now ∙ h.0, h.1, omega (arith, h.2, le))

  pass_lines-none :
      (fuel : ℕ) (a : A) (n : ℕ) (buf : List ℕ)
      → strchr b'\n' buf ≡ none
      → pass_lines parse_line (suc fuel) a n buf ≡ some (a, n, buf)
  unfolding pass_lines
  pass_lines-none fuel a n buf e = rw (pass_lines, e) refl

  pass_lines-some :
      (fuel : ℕ) (a : A) (n : ℕ) (buf : List ℕ) {line after : List ℕ}
      → strchr b'\n' buf ≡ some (line, after)
      → pass_lines parse_line (suc fuel) a n buf
        ≡ (parse_line a (suc n) line >>= λ a'. pass_lines parse_line fuel a' (suc n) after)
  unfolding pass_lines
  pass_lines-some fuel a n buf e = rw (pass_lines, e) refl

  pass-Passed :
      (fuel : ℕ) (a : A) (n : ℕ) (buf x line after : List ℕ)
      → (length after ≤ length buf)
      → ((a' : A) → Passed a' (suc n) after x (pass_lines parse_line fuel a' (suc n) after))
      → feed parse_line closed a n (lines (buf ++ x)) ≡ (
          parse_line a (suc n) line >>= λ a'.
          feed parse_line closed a' (suc n) (lines (after ++ x)))
      → Passed a n buf x
          (parse_line a (suc n) line >>= λ a'. pass_lines parse_line fuel a' (suc n) after)
  pass-Passed fuel a n buf x line after le later first =
      elim (Option-cases (parse_line a (suc n) line)) [
        | inl e ↦
            subst (λ o. Passed a n buf x (o >>= λ a'. pass_lines parse_line fuel a' (suc n) after))
              (sym e) (rw e at first)
        | inr (a1, e) ↦
            let now : feed parse_line closed a n (lines (buf ++ x))
                ≡ feed parse_line closed a1 (suc n) (lines (after ++ x)) =
              rw e at first in
            subst (λ o. Passed a n buf x (o >>= λ a'. pass_lines parse_line fuel a' (suc n) after))
              (sym e)
              (feed-Passed a a1 n (suc n) buf after x (pass_lines parse_line fuel a1 (suc n) after)
                now le (later a1))
      ]

  pub pass_lines-Passed :
      (fuel : ℕ) (a : A) (n : ℕ) (buf x : List ℕ)
      → length buf ≤ fuel
      → length buf ≤ max_file_line_length
      → Passed a n buf x (pass_lines parse_line fuel a n buf)
  unfolding pass_lines
  pass_lines-Passed zero a n [] x h k = (refl, tt, omega arith)
  pass_lines-Passed zero a n (c ∷ buf) x h k = absurd (omega arith)
  pass_lines-Passed (suc fuel) a n buf x h k = elim (Option-cases (strchr b'\n' buf)) [
    | inl e ↦
        subst (Passed a n buf x) (sym (pass_lines-none fuel a n buf e))
          (refl, strchr-eq-none b'\n' buf e, omega arith)
    | inr ((line, after), e) ↦
        let (split, plain) = strchr-eq-some b'\n' buf e in
        let size : length buf ≡ length line + suc (length after) =
          ap length split ∙ length-append line (b'\n' ∷ after) in
        let first =
          ap (λ text. feed parse_line closed a n (lines text))
            (ap (λ t. t ++ x) split ∙ append_assoc line (b'\n' ∷ after) x)
          ∙ feed-line parse_line closed a n line (after ++ x) plain (omega (arith, size)) in
        subst (Passed a n buf x) (sym (pass_lines-some fuel a n buf e)) (
          pass-Passed fuel a n buf x line after (omega (arith, size))
            (λ a'.
              pass_lines-Passed fuel a' (suc n) after x (omega (arith, size)) (omega (arith, size)))
            first)
  ]
