-- ===== src/Config/Line.antt =====
-- src/config.c: `config_parse_line` finds the keyword and the value of a line again.
use honas.Common.{ℕ, ◌≡◌, refl, ap, ◌∙◌, true, false, ◌||◌, List, [], ◌∷◌, ◌++◌, ◌==◌, All, arith}
use honas.Config.{
  is_blank, is_keyword_char, skip_blanks, split_keyword, cons_unless_blank, strip_blanks,
  directive_of, directive,
}
use honas.State.Register.Text.{c_string}

abbrev pub Blanks : List ℕ → Type 0
Blanks text = All (λ c. is_blank c ≡ true) text

abbrev pub IsKeyword : List ℕ → Type 0
IsKeyword keyword = All (λ c. is_keyword_char c ≡ true) keyword

abbrev pub NoNul : List ℕ → Type 0
NoNul text = All (λ c. (c == 0) ≡ false) text

-- No blank at the end.
abbrev pub EndsPlain : List ℕ → Type 0
EndsPlain [] = Unit {0}
EndsPlain (c ∷ []) = is_blank c ≡ false
EndsPlain (c ∷ d ∷ text) = EndsPlain (d ∷ text)

-- No blank at the begin or at the end.
abbrev pub IsTrimmed : List ℕ → Type 0
IsTrimmed [] = Unit {0}
IsTrimmed (c ∷ text) = (is_blank c ≡ false) × EndsPlain (c ∷ text)

NoNul-append : (xs ys : List ℕ) → NoNul xs → NoNul ys → NoNul (xs ++ ys)
NoNul-append [] ys h k = k
NoNul-append (x ∷ xs) ys h k = (h.0, NoNul-append xs ys h.1 k)

Blanks-NoNul : (text : List ℕ) → Blanks text → NoNul text
Blanks-NoNul [] h = tt
Blanks-NoNul (c ∷ text) h = (ground (arith, h.0), Blanks-NoNul text h.1)

IsKeyword-NoNul : (text : List ℕ) → IsKeyword text → NoNul text
unfolding is_keyword_char
IsKeyword-NoNul [] h = tt
IsKeyword-NoNul (c ∷ text) h = (ground (arith, h.0), IsKeyword-NoNul text h.1)

c_string-NoNul : (text : List ℕ) → NoNul text → c_string text ≡ text
unfolding c_string
c_string-NoNul [] h = refl
c_string-NoNul (c ∷ text) h = rw (h.0, c_string-NoNul text h.1) refl

skip_blanks-Blanks :
    (blanks text : List ℕ) → Blanks blanks → skip_blanks (blanks ++ text) ≡ skip_blanks text
unfolding skip_blanks
skip_blanks-Blanks [] text h = refl
skip_blanks-Blanks (c ∷ blanks) text h = rw h.0 (skip_blanks-Blanks blanks text h.1)

skip_blanks_plain : (c : ℕ) (text : List ℕ) → is_blank c ≡ false → skip_blanks (c ∷ text) ≡ c ∷ text
unfolding skip_blanks
skip_blanks_plain c text h = rw h refl

split_keyword_end :
    (c : ℕ) (rest : List ℕ) → is_blank c ≡ true → split_keyword (c ∷ rest) ≡ ([], c ∷ rest)
unfolding split_keyword is_keyword_char
split_keyword_end c rest h =
    let other : is_keyword_char c ≡ false = ground (arith, h) in rw other refl

split_keyword-IsKeyword :
    (keyword : List ℕ) (c : ℕ) (rest : List ℕ)
    → IsKeyword keyword
    → is_blank c ≡ true
    → split_keyword (keyword ++ c ∷ rest) ≡ (keyword, c ∷ rest)
unfolding split_keyword
split_keyword-IsKeyword [] c rest h b = split_keyword_end c rest b
split_keyword-IsKeyword (k ∷ keyword) c rest h b =
    rw (h.0, split_keyword-IsKeyword keyword c rest h.1 b) refl

strip_blanks-Blanks : (blanks : List ℕ) → Blanks blanks → strip_blanks blanks ≡ []
unfolding strip_blanks
strip_blanks-Blanks [] h = refl
strip_blanks-Blanks (c ∷ blanks) h = rw (strip_blanks-Blanks blanks h.1, h.0) refl

strip_blanks-append :
    (text blanks : List ℕ) → EndsPlain text → Blanks blanks → strip_blanks (text ++ blanks) ≡ text
unfolding strip_blanks
strip_blanks-append [] blanks e h = strip_blanks-Blanks blanks h
strip_blanks-append (c ∷ []) blanks e h = rw (strip_blanks-Blanks blanks h, e) refl
strip_blanks-append (c ∷ d ∷ text) blanks e h =
    ap (cons_unless_blank c) (strip_blanks-append (d ∷ text) blanks e h)

skip_blanks_all : (blanks : List ℕ) → Blanks blanks → skip_blanks blanks ≡ []
unfolding skip_blanks
skip_blanks_all [] h = refl
skip_blanks_all (c ∷ blanks) h = rw h.0 (skip_blanks_all blanks h.1)

trim :
    (gap value after : List ℕ)
    → Blanks gap
    → IsTrimmed value
    → Blanks after
    → strip_blanks (skip_blanks (gap ++ (value ++ after))) ≡ value
unfolding strip_blanks
trim gap [] after g v a = ap strip_blanks (skip_blanks-Blanks gap after g ∙ skip_blanks_all after a)
trim gap (c ∷ value) after g v a =
    ap strip_blanks
      (skip_blanks-Blanks gap ((c ∷ value) ++ after) g ∙ skip_blanks_plain c (value ++ after) v.0)
    ∙ strip_blanks-append (c ∷ value) after v.1 a

-- A line that has a keyword first.
directive_of_keyword :
    (keyword : List ℕ) (blank : ℕ) (rest : List ℕ) (first : ℕ) (text : List ℕ)
    → IsKeyword (first ∷ keyword)
    → is_blank blank ≡ true
    → NoNul text
    → skip_blanks text ≡ (first ∷ keyword) ++ blank ∷ rest
    → directive_of text ≡ directive (first ∷ keyword) (strip_blanks (skip_blanks rest))
unfolding directive_of is_keyword_char
directive_of_keyword keyword blank rest first text k b n e =
    let not_comment : (first == b'#' || first == b';') ≡ false = ground (arith, k.0) in
    rw
      (
        directive_of,
        c_string-NoNul text n,
        e,
        split_keyword-IsKeyword (first ∷ keyword) blank rest k b,
        not_comment,
        b,
      )
      refl

-- A line of blanks, a keyword, blanks (at least one), a value without blanks at its ends and
-- without NUL, and blanks gives that keyword and that value.
pub directive_of_lem :
    (before keyword : List ℕ) (blank : ℕ) (gap value after : List ℕ) (first : ℕ)
    → Blanks before
    → IsKeyword (first ∷ keyword)
    → Blanks (blank ∷ gap)
    → IsTrimmed value
    → NoNul value
    → Blanks after
    → directive_of (before ++ ((first ∷ keyword) ++ blank ∷ (gap ++ (value ++ after))))
      ≡ directive (first ∷ keyword) value
unfolding is_keyword_char
directive_of_lem before keyword blank gap value after first b k g v n a =
    let text = (first ∷ keyword) ++ blank ∷ (gap ++ (value ++ after)) in
    let nul = NoNul-append before text (Blanks-NoNul before b) (
      NoNul-append (first ∷ keyword) (blank ∷ (gap ++ (value ++ after)))
        (IsKeyword-NoNul (first ∷ keyword) k)
        (NoNul-append (blank ∷ gap) (value ++ after) (Blanks-NoNul (blank ∷ gap) g)
          (NoNul-append value after n (Blanks-NoNul after a)))) in
    directive_of_keyword keyword blank (gap ++ (value ++ after)) first (before ++ text) k g.0 nul (
      skip_blanks-Blanks before text b
      ∙ skip_blanks_plain first (keyword ++ blank ∷ (gap ++ (value ++ after)))
          (ground (arith, k.0)))
    ∙ ap (directive (first ∷ keyword)) (trim gap value after g.1 v a)
