-- ===== src/ReadFile/Whole.antt =====
-- src/read_file.c: `read_file` passes on the lines of a file, however `read` cuts its bytes.
use mathlib.Core.List.{append_assoc, append-nil}
use honas.Common.{
  ℕ, zero, suc, ◌+◌, ◌-◌, ◌≤◌, ◌<◌, ◌≡◌, refl, ap, sym, ◌∙◌, Bool, true, false, List, [], ◌∷◌, ◌++◌,
  Option, none, some, ltb, ◌==◌, length, ◌>>=◌, ℤ, arith, Bool-cases, Option-cases, >>=_ext, inl,
  inr, length-append,
}
use honas.Utils.{strchr, NotIn, strchr-none}
use honas.ReadFile.{
  max_file_line_length, ReadResult, received, IsReadable, pass_lines, after_bytes, after_read,
  read_loop, read_file, Waited, open_file, read_file_close,
}
use honas.ReadFile.Lines.{
  lines, feed, feed_end, feed-line, feed_long, strchr-eq-some, strchr-eq-none,
}
use honas.ReadFile.Passed.{Passed, pass_lines-Passed}

module _ {A : Type 0} (parse_line : A → ℕ → List ℕ → Option A) (closed : ℤ) where
  module _ {S : Type 0} (read : S → ℕ → ReadResult S) (left : S → List ℕ)
      (readable : IsReadable read left) (close : S → Option ℤ)
      (closes : (s : S) → close s ≡ some closed) where
    abbrev after_pass : ℕ → A → ℕ → List ℕ → ℕ → S → Option (ℤ × A)
    after_pass fuel = after_bytes parse_line read close (read_loop parse_line read close fuel)

    read_loop-after_pass :
        (fuel : ℕ) (a : A) (n : ℕ) (buf bytes : List ℕ) (s s' : S)
        → ltb (length buf) max_file_line_length ≡ true
        → read s (max_file_line_length - length buf) ≡ received bytes s'
        → read_loop parse_line read close (suc fuel) a n buf s
          ≡ after_pass fuel a n (buf ++ bytes) (length bytes) s'
    unfolding read_loop after_read
    read_loop-after_pass fuel a n buf bytes s s' t r = rw (read_loop, t, r) refl

    read_loop_full :
        (fuel : ℕ) (a : A) (n : ℕ) (buf : List ℕ) (s : S)
        → NotIn b'\n' buf
        → ltb (length buf) max_file_line_length ≡ false
        → read_loop parse_line read close (suc fuel) a n buf s
          ≡ feed parse_line closed a n (lines (buf ++ left s))
    unfolding read_loop
    read_loop_full fuel a n buf s plain f =
        rw
          (
            read_loop,
            f,
            closes s,
            feed_long parse_line closed a n buf (left s) plain (ground arith),
          )
          refl

    -- The loop is right with this much fuel.
    abbrev Right : ℕ → Type 0
    Right fuel =
        (a : A) (n : ℕ) (buf : List ℕ) (s : S)
        → length (left s) < fuel
        → length buf ≤ max_file_line_length
        → NotIn b'\n' buf
        → read_loop parse_line read close fuel a n buf s
          ≡ feed parse_line closed a n (lines (buf ++ left s))

    loop_goes_on :
        (fuel : ℕ)
        → Right fuel
        → (n : ℕ) (after : List ℕ) (s' : S) → length (left s') < fuel
        → length after ≤ max_file_line_length
        → (o : Option (A × ℕ × List ℕ)) (a : A) → Passed parse_line closed a n after (left s') o
        → (o >>= λ (a2, n', rest). read_loop parse_line read close fuel a2 n' rest s')
          ≡ feed parse_line closed a n (lines (after ++ left s'))
    loop_goes_on fuel right n after s' more fits none a h = sym h
    loop_goes_on fuel right n after s' more fits (some (a2, n', rest)) a h =
        right a2 n' rest s' more (omega (arith, h.2, fits)) h.1 ∙ sym h.0

    after_pass_ended :
        (fuel : ℕ) (a : A) (n : ℕ) (c : ℕ) (buf : List ℕ) (s' : S)
        → NotIn b'\n' (c ∷ buf)
        → length (c ∷ buf) < max_file_line_length
        → after_pass fuel a n (c ∷ buf) 0 s' ≡ feed parse_line closed a n (lines (c ∷ buf))
    unfolding after_bytes
    after_pass_ended fuel a n c buf s' plain few =
        let short : ltb (length (c ∷ buf)) max_file_line_length ≡ true = ground arith in
        let full : (length (c ∷ buf) == 0) ≡ false = ground arith in
        rw
          (
            full,
            strchr-none b'\n' (c ∷ buf) plain,
            closes s',
            feed_end parse_line closed a n (c ∷ buf) plain,
            short,
          )
          refl

    -- One pass of the loop behind `read`.
    after_pass-feed :
        (fuel : ℕ)
        → Right fuel
        → (a : A) (n : ℕ) (buf bytes : List ℕ) (s s' : S) → length (left s) < suc fuel
        → length (buf ++ bytes) ≤ max_file_line_length
        → length buf < max_file_line_length
        → NotIn b'\n' buf
        → left s ≡ bytes ++ left s'
        → (bytes ≡ [] → left s ≡ [])
        → after_pass fuel a n (buf ++ bytes) (length bytes) s'
          ≡ feed parse_line closed a n (lines ((buf ++ bytes) ++ left s'))
    unfolding after_bytes
    after_pass-feed fuel right a n [] [] s s' more fits few plain rest eof =
        let empty : left s' ≡ [] = sym rest ∙ eof refl in
        rw (closes s', empty, feed_end parse_line closed a n [] tt) refl
    after_pass-feed fuel right a n (c ∷ buf) [] s s' more fits few plain rest eof =
        let empty : left s' ≡ [] = sym rest ∙ eof refl in
        let whole : (c ∷ buf) ++ [] ≡ c ∷ buf = append-nil (c ∷ buf) in
        let text : c ∷ buf ≡ ((c ∷ buf) ++ []) ++ left s' =
          sym whole
          ∙ sym (append-nil ((c ∷ buf) ++ []))
          ∙ ap (λ t. ((c ∷ buf) ++ []) ++ t) (sym empty) in
        ap (λ t. after_pass fuel a n t 0 s') whole
        ∙ after_pass_ended fuel a n c buf s' plain few
        ∙ ap (λ t. feed parse_line closed a n (lines t)) text
    after_pass-feed fuel right a n buf (b ∷ bytes) s s' more fits few plain rest eof =
        let full : (length (buf ++ b ∷ bytes) == 0) ≡ false =
          ground (arith, length-append buf (b ∷ bytes)) in
        let got : (length (b ∷ bytes) == 0) ≡ false = ground arith in
        let less : length (left s') < fuel =
          omega (arith, more, ap length rest, length-append (b ∷ bytes) (left s')) in
        elim (Option-cases (strchr b'\n' (buf ++ b ∷ bytes))) [
          | inl e ↦
              rw (full, e, got)
                (right a n (buf ++ b ∷ bytes) s' less fits
                  (strchr-eq-none b'\n' (buf ++ b ∷ bytes) e))
          | inr ((line, after), e) ↦
              let (split, plain) = strchr-eq-some b'\n' (buf ++ b ∷ bytes) e in
              let size : length (buf ++ b ∷ bytes) ≡ length line + suc (length after) =
                ap length split ∙ length-append line (b'\n' ∷ after) in
              let first =
                ap (λ t. feed parse_line closed a n (lines t))
                  (ap (λ t. t ++ left s') split ∙ append_assoc line (b'\n' ∷ after) (left s'))
                ∙ feed-line parse_line closed a n line (after ++ left s') plain
                    (omega (arith, size, fits)) in
              rw (full, e)
                (>>=_ext (parse_line a (suc n) line) (λ a'.
                    loop_goes_on fuel right (suc n) after s' less (omega (arith, size, fits))
                      (pass_lines parse_line (length after) a' (suc n) after) a'
                      (pass_lines-Passed parse_line closed (length after) a' (suc n) after (left s')
                        (omega arith) (omega (arith, size, fits))))
                  ∙ sym first)
        ]

    pub read_loop-feed : (fuel : ℕ) → Right fuel
    read_loop-feed zero a n buf s more fits plain = absurd (omega arith)
    read_loop-feed (suc fuel) a n buf s more fits plain =
        elim (Bool-cases (ltb (length buf) max_file_line_length)) [
          | inl t ↦
              let room : 0 < max_file_line_length - length buf = ground arith in
              let (bytes, s', r, rest, few, eof) =
                readable.next s (max_file_line_length - length buf) room in
              read_loop-after_pass fuel a n buf bytes s s' t r
              ∙ after_pass-feed fuel (read_loop-feed fuel) a n buf bytes s s' more
                  (omega (arith, few, length-append buf bytes, room)) (omega (arith, room)) plain
                  rest eof
              ∙ ap (λ t. feed parse_line closed a n (lines t))
                  (append_assoc buf bytes (left s') ∙ sym (ap (λ t. buf ++ t) rest))
          | inr f ↦ read_loop_full fuel a n buf s plain f
        ]

module _ {A S : Type 0} (opened : List ℕ → Option S) (spawn : List ℕ → S → Option S)
    (read : S → ℕ → ReadResult S) (waits : S → List Waited) (left : S → List ℕ)
    (readable : IsReadable read left) where
  -- For a file that is opened, is read to its end in blocks of any size, and is closed with the
  -- result `closed`, with fuel for more than its bytes: the function returns what its lines mean.
  -- The handler gets the lines in their order, with their numbers, up to a line of 16384 bytes or
  -- more, which gives -4; bytes behind the last newline give -3, or -4 where there are so many;
  -- else the result is `closed`.
  pub read_file-feed :
      (fuel : ℕ) (filename : List ℕ) (ptr : A) (parse_line : List ℕ → A → ℕ → List ℕ → Option A)
      (child : Bool) (s : S) (closed : ℤ)
      → open_file opened spawn filename ≡ some (child, s)
      → ((s' : S) → read_file_close child (waits s') ≡ some closed)
      → length (left s) < fuel
      → read_file opened spawn read waits fuel filename ptr parse_line
        ≡ feed (parse_line filename) closed ptr 0 (lines (left s))
  unfolding read_file
  read_file-feed fuel filename ptr parse_line child s closed o closes enough =
      rw (read_file, o)
        (read_loop-feed (parse_line filename) closed read left readable
          (λ s'. read_file_close child (waits s')) closes fuel ptr 0 [] s enough (omega arith) tt)
