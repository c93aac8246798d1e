-- ===== src/ReadFile/Folds.antt =====
-- src/read_file.c: what a reader of lines may rely on, whatever the file holds: its handler alone
-- changes `ptr`, so a property of `ptr` that the handler keeps is kept.
use honas.Common.{
  ℕ, zero, suc, ◌-◌, refl, List, [], ◌++◌, Option, none, some, length, ltb, ◌==◌, Bool-cases,
  Option-cases, inl, inr, ◌>>=◌, ℤ, negsuc, Holds, Alike, >>=-Alike,
}
use honas.Utils.{strchr}
use honas.ReadFile.{
  max_file_line_length, ReadResult, received, failed, invalid, pass_lines, after_bytes, after_read,
  read_loop, read_file, Waited, open_file, read_file_close,
}

-- Two handlers of lines that do the same where `P` holds, and keep it.
abbrev pub HandleAlike : {A : Type 0} → (A → Type 0) → (f g : A → ℕ → List ℕ → Option A) → Type 0
HandleAlike {A = A} P f g =
    (a : A) (lineno : ℕ) (line : List ℕ) → P a → Alike P (f a lineno line) (g a lineno line)

-- What the reader of configuration files uses of `read_file`.
pub record FoldsLines {A : Type 0}
    (read_file : List ℕ → A → (List ℕ → A → ℕ → List ℕ → Option A) → Option (ℤ × A)) : Type 1 where
  pub handles :
      (P : A → Type 0) (filename : List ℕ) (ptr : A) (f g : List ℕ → A → ℕ → List ℕ → Option A)
      → P ptr
      → HandleAlike P (f filename) (g filename)
      → Alike (λ r. P r.1) (read_file filename ptr f) (read_file filename ptr g)

module _ {A : Type 0} (P : A → Type 0) (f g : A → ℕ → List ℕ → Option A)
    (h : HandleAlike P f g) where
  abbrev Passed : A × ℕ × List ℕ → Type 0
  Passed (a, n, buf) = P a

  abbrev Finished : ℤ × A → Type 0
  Finished (code, a) = P a

  pass_lines-Alike :
      (fuel : ℕ) (a : A) (n : ℕ) (buf : List ℕ)
      → P a
      → Alike Passed (pass_lines f fuel a n buf) (pass_lines g fuel a n buf)
  unfolding pass_lines
  pass_lines-Alike zero a n buf p = (refl, p)
  pass_lines-Alike (suc fuel) a n buf p = elim (Option-cases (strchr b'\n' buf)) [
    | inl e ↦ rw (pass_lines, e) (refl, p)
    | inr ((line, after), e) ↦
        rw (pass_lines, e)
          (>>=-Alike P Passed (f a (suc n) line) (g a (suc n) line)
            (λ a'. pass_lines f fuel a' (suc n) after) (λ a'. pass_lines g fuel a' (suc n) after)
            (h a (suc n) line p) (λ a' p'. pass_lines-Alike fuel a' (suc n) after p'))
  ]

  module _ {S : Type 0} (read : S → ℕ → ReadResult S) (close : S → Option ℤ) where
    -- What the next pass of the loop does with either handler.
    abbrev Again : (again again' : A → ℕ → List ℕ → S → Option (ℤ × A)) → Type 0
    Again again again' =
        (a : A) (n : ℕ) (buf : List ℕ) (s : S)
        → P a
        → Alike Finished (again a n buf s) (again' a n buf s)

    closed-Alike :
        (a : A) (s : S) (k : ℤ → ℤ)
        → P a
        → Alike Finished
            (close s >>= λ code. some (k code, a))
            (close s >>= λ code. some (k code, a))
    closed-Alike a s k p =
        >>=-Alike (λ code. Unit {0}) Finished (close s) (close s) (λ code. some (k code, a))
          (λ code. some (k code, a)) (refl, any (close s)) (λ code u. (refl, p))
      where
        any : (o : Option ℤ) → Holds (λ code. Unit {0}) o
        any none = tt
        any (some code) = tt

    after_bytes-Alike :
        (again again' : A → ℕ → List ℕ → S → Option (ℤ × A))
        → Again again again'
        → (a : A) (n : ℕ) (buf : List ℕ) (len : ℕ) (s : S) → P a
        → Alike Finished
            (after_bytes f read close again a n buf len s)
            (after_bytes g read close again' a n buf len s)
    unfolding after_bytes
    after_bytes-Alike again again' same a n buf len s p = elim (Bool-cases (length buf == 0)) [
      | inl t ↦ rw t (closed-Alike a s (λ code. code) p)
      | inr e ↦ elim (Option-cases (strchr b'\n' buf)) [
        | inl none_found ↦ elim (Bool-cases (len == 0)) [
          | inl t ↦ rw (e, none_found, t) (closed-Alike a s (λ code. negsuc 2) p)
          | inr more ↦ rw (e, none_found, more) (same a n buf s p)
        ]
        | inr ((line, after), found) ↦
            rw (e, found)
              (>>=-Alike P Finished (f a (suc n) line) (g a (suc n) line) _ _ (h a (suc n) line p)
                (λ a1 p1.
                  >>=-Alike Passed Finished (pass_lines f (length after) a1 (suc n) after)
                    (pass_lines g (length after) a1 (suc n) after) _ _
                    (pass_lines-Alike (length after) a1 (suc n) after p1)
                    (λ (a2, n', rest) p2. same a2 n' rest s p2)))
      ]
    ]

    after_read-Alike :
        (again again' : A → ℕ → List ℕ → S → Option (ℤ × A))
        → Again again again'
        → (a : A) (n : ℕ) (buf : List ℕ) (r : ReadResult S) → P a
        → Alike Finished
            (after_read f read close again a n buf r)
            (after_read g read close again' a n buf r)
    unfolding after_read
    after_read-Alike again again' same a n buf (received bytes s) p =
        after_bytes-Alike again again' same a n (buf ++ bytes) (length bytes) s p
    after_read-Alike again again' same a n buf (failed s) p = closed-Alike a s (λ code. negsuc 0) p
    after_read-Alike again again' same a n buf (invalid s) p = closed-Alike a s (λ code. negsuc 1) p

    read_loop-Alike : (fuel : ℕ) → Again (read_loop f read close fuel) (read_loop g read close fuel)
    unfolding read_loop
    read_loop-Alike zero a n buf s p = (refl, tt)
    read_loop-Alike (suc fuel) a n buf s p =
        elim (Bool-cases (ltb (length buf) max_file_line_length)) [
          | inl t ↦ rw t (
              after_read-Alike (read_loop f read close fuel) (read_loop g read close fuel)
                (read_loop-Alike fuel) a n buf (read s (max_file_line_length - length buf)) p)
          | inr t ↦ rw t (closed-Alike a s (λ code. negsuc 3) p)
        ]

pub read_file-FoldsLines :
    {A S : Type 0} (opened : List ℕ → Option S) (spawn : List ℕ → S → Option S)
    (read : S → ℕ → ReadResult S) (waits : S → List Waited) (fuel : ℕ)
    → FoldsLines {A = A} (read_file opened spawn read waits fuel)
unfolding read_file
read_file-FoldsLines opened spawn read waits fuel = record {
  handles = λ P filename ptr f g p h. elim (Option-cases (open_file opened spawn filename)) [
    | inl refused ↦ rw (read_file, refused) (refl, p)
    | inr ((child, s), o) ↦
        rw (read_file, o)
          (read_loop-Alike P (f filename) (g filename) h read
            (λ s'. read_file_close child (waits s')) fuel ptr 0 [] s p)
  ];
}
