-- ===== src/Config/Depth.antt =====
-- src/config.c: files that include each other are read at most 12 deep, so the recursion ends.
use honas.Common.{
  ℕ, zero, suc, ◌+◌, ◌-◌, ◌≤◌, ◌<◌, ◌≡◌, refl, ap, Bool, true, false, not, ◌||◌, List, [], ◌∷◌,
  ◌++◌, Option, none, some, ltb, length, codes, same_bytes, Bool-cases, Option-cases, inl, inr,
  ◌>>=◌, require, ℤ, pos, negsuc, Holds, Alike, >>=-Alike, Alike_eq-some, arith,
}
use honas.ReadFile.Folds.{FoldsLines}
use honas.Config.{
  Directive, no_directive, directive, keyword_missing, directive_of, Files, regular_file,
  directory_file, other_file, Context, include_args, included_path, file_names, with_slash,
  read_each, read_path, include, item, follow, config_parse_line, checked, read_levels, config_read,
}

module _ {A : Type 0} (files : Files)
    (parse_item : List ℕ → A → ℕ → List ℕ → List ℕ → ℕ → Option (Bool × A)) (Q : A → Type 0)
    (keeps : (filename : List ℕ) (a : A) (lineno : ℕ) (keyword value : List ℕ) (size : ℕ)
      → Q a
      → Holds
          (λ ((_, a') : Bool × A). Q a')
          (parse_item filename a lineno keyword value size)) where
  -- A file is read inside of `depth` others.
  abbrev pub At : ℕ → Context A → Type 0
  At depth ctx = (ctx.config_include_loop ≡ depth) × Q ctx.ptr

  abbrev Reader : Type 0
  Reader = List ℕ → Context A → Option (Context A)

  -- Two readers of files do the same at this depth, and return at it.
  abbrev pub SameAt : ℕ → Reader → Reader → Type 0
  SameAt depth r r' =
      (name : List ℕ) (ctx : Context A) → At depth ctx → Alike (At depth) (r name ctx) (r' name ctx)

  module _ (depth : ℕ) (r r' : Reader) (same : SameAt depth r r') where
    read_each-Alike :
        (dir : List ℕ) (names : List (List ℕ)) (ctx : Context A)
        → At depth ctx
        → Alike
            (At depth)
            (read_each files parse_item r dir names ctx)
            (read_each files parse_item r' dir names ctx)
    unfolding read_each
    read_each-Alike dir [] ctx p = (refl, p)
    read_each-Alike dir (name ∷ names) ctx p =
        >>=-Alike (At depth) (At depth) (r (dir ++ name) ctx) (r' (dir ++ name) ctx)
          (read_each files parse_item r dir names) (read_each files parse_item r' dir names)
          (same (dir ++ name) ctx p) (read_each-Alike dir names)

    read_path-Alike :
        (newfile : List ℕ) (ctx : Context A)
        → At depth ctx
        → Alike
            (At depth)
            (read_path files parse_item r newfile ctx)
            (read_path files parse_item r' newfile ctx)
    unfolding read_path
    read_path-Alike newfile ctx p = elim (Option-cases (files.stat newfile)) [
      | inl e ↦ rw (read_path, e) (refl, tt)
      | inr (regular_file, e) ↦ rw (read_path, e) (same newfile ctx p)
      | inr (other_file, e) ↦ rw (read_path, e) (refl, tt)
      | inr (directory_file, e) ↦ elim (Option-cases (files.readdir (with_slash newfile))) [
        | inl n ↦ rw (read_path, e, n) (refl, tt)
        | inr (names, n) ↦
            rw (read_path, e, n)
              (read_each-Alike (with_slash newfile) (files.qsort (file_names names)) ctx p)
      ]
    ]

    -- Behind an include, one level up.
    left_include :
        (above : ℕ) (o o' : Option (Context A))
        → depth ≡ suc above
        → Alike (At depth) o o'
        → Alike
            (At above)
            (o >>= λ ctx'.
              some (record ctx' { config_include_loop = ctx'.config_include_loop - 1 }))
            (o' >>= λ ctx'.
              some (record ctx' { config_include_loop = ctx'.config_include_loop - 1 }))
    left_include above o o' d h =
        >>=-Alike (At depth) (At above) o o' _ _ h (λ ctx' p. (refl, (omega (arith, d, p.0), p.1)))

  -- What `include` does behind its test of the depth.
  include-Alike :
      (depth : ℕ) (r r' : Reader) (filename line : List ℕ) (ctx : Context A)
      → (ltb 10 depth ≡ false → SameAt (suc depth) r r')
      → At depth ctx
      → Alike
          (At depth)
          (include files parse_item r filename line ctx)
          (include files parse_item r' filename line ctx)
  unfolding include
  include-Alike depth r r' filename line ctx same p =
      elim (Bool-cases (ltb 10 ctx.config_include_loop)) [
        | inl deep ↦ rw (include, deep) (refl, tt)
        | inr room ↦ elim (Option-cases (include_args line)) [
          | inl e ↦ rw (include, room, e) (refl, tt)
          | inr ((path, if_exist), e) ↦
              let deeper = record ctx { config_include_loop = suc ctx.config_include_loop } in
              let below = same (rw p.0 at room) in
              elim (Bool-cases (not if_exist || files.can_read (included_path filename path))) [
                | inl found ↦
                    rw (include, room, e, found)
                      (left_include (suc depth) r r' below depth _ _ refl (
                        read_path-Alike (suc depth) r r' below (included_path filename path) deeper
                          (ap suc p.0, p.1)))
                | inr missing ↦ rw (include, room, e, missing) (refl, (omega (arith, p.0), p.1))
              ]
        ]
      ]

  abbrev ParsedOk : Bool × A → Type 0
  ParsedOk (parsed, a) = Q a

  item-Alike :
      (depth : ℕ) (r r' : Reader) (filename : List ℕ) (ctx : Context A) (lineno : ℕ)
      (keyword value : List ℕ)
      → At depth ctx
      → Alike
          (At depth)
          (item files parse_item r filename ctx lineno keyword value)
          (item files parse_item r' filename ctx lineno keyword value)
  item-Alike depth r r' filename ctx lineno keyword value p =
      >>=-Alike ParsedOk (At depth)
        (parse_item filename ctx.ptr lineno keyword value (length value))
        (parse_item filename ctx.ptr lineno keyword value (length value)) _ _
        (refl, keeps filename ctx.ptr lineno keyword value (length value) p.1)
        (λ (parsed, a) q. put_ptr parsed a q)
    where
      put_ptr :
          (parsed : Bool) (a : A)
          → Q a
          → Alike
              (At depth)
              (require parsed >>= λ u. some (record ctx { ptr = a }))
              (require parsed >>= λ u. some (record ctx { ptr = a }))
      put_ptr true a q = (refl, (p.0, q))
      put_ptr false a q = (refl, tt)

  follow-Alike :
      (depth : ℕ) (r r' : Reader) (filename : List ℕ) (ctx : Context A) (lineno : ℕ) (d : Directive)
      → (ltb 10 depth ≡ false → SameAt (suc depth) r r')
      → At depth ctx
      → Alike
          (At depth)
          (follow files parse_item r filename ctx lineno d)
          (follow files parse_item r' filename ctx lineno d)
  unfolding follow
  follow-Alike depth r r' filename ctx lineno no_directive same p = (refl, p)
  follow-Alike depth r r' filename ctx lineno keyword_missing same p = (refl, tt)
  follow-Alike depth r r' filename ctx lineno (directive keyword value) same p =
      elim (Bool-cases (same_bytes keyword (codes "include"))) [
        | inl t ↦ rw t (include-Alike depth r r' filename value ctx same p)
        | inr f ↦ rw f (item-Alike depth r r' filename ctx lineno keyword value p)
      ]

  module _
      (read_file : List ℕ
        → Context A
        → (List ℕ → Context A → ℕ → List ℕ → Option (Context A))
        → Option (ℤ × Context A))
      (folds : FoldsLines read_file) where
    checked-Alike :
        (depth : ℕ) (o o' : Option (ℤ × Context A))
        → Alike (λ (r : ℤ × Context A). At depth r.1) o o'
        → Alike
            (At depth)
            (checked files parse_item read_file o)
            (checked files parse_item read_file o')
    checked-Alike depth none o' h = (ap (checked files parse_item read_file) h.0, tt)
    checked-Alike depth (some (pos n, ctx)) o' h =
        (ap (checked files parse_item read_file) h.0, h.1)
    checked-Alike depth (some (negsuc n, ctx)) o' h =
        (ap (checked files parse_item read_file) h.0, tt)

    -- With enough levels, what stands below them is never asked.
    pub read_levels-SameAt :
        (below below' : Reader) (levels depth : ℕ)
        → 11 < levels + depth
        → depth ≤ 11
        → SameAt depth
            (read_levels files parse_item read_file below levels)
            (read_levels files parse_item read_file below' levels)
    unfolding read_levels config_parse_line
    read_levels-SameAt below below' zero depth enough deep name ctx p = absurd (omega arith)
    read_levels-SameAt below below' (suc levels) depth enough deep name ctx p =
        checked-Alike depth _ _ (
          folds.handles (At depth) name ctx _ _ p (λ ctx' lineno text p'.
            follow-Alike depth _ _ name ctx' lineno (directive_of text)
              (λ room.
                read_levels-SameAt below below' levels (suc depth) (omega arith) (ground arith))
              p'))

    pub config_read-keeps :
        (filename : List ℕ) (ptr : A) {ptr' : A}
        → Q ptr
        → config_read files parse_item read_file filename ptr ≡ some ptr'
        → Q ptr'
    unfolding config_read
    config_read-keeps filename ptr q e =
        let start : Context A = record { config_include_loop = 0; ptr = ptr } in
        let none_below = λ (name : List ℕ) (ctx : Context A). none in
        Alike_eq-some Q
          (>>=-Alike (At 0) Q (read_levels files parse_item read_file none_below 12 filename start)
            _ _ _
            (read_levels-SameAt none_below none_below 12 0 (omega arith) (omega arith) filename
              start (refl, q))
            (λ ctx p. (refl, p.1)))
          e

module _ {A : Type 0} (files : Files)
    (parse_item : List ℕ → A → ℕ → List ℕ → List ℕ → ℕ → Option (Bool × A))
    (read_file : List ℕ
      → Context A
      → (List ℕ → Context A → ℕ → List ℕ → Option (Context A))
      → Option (ℤ × Context A))
    (folds : FoldsLines read_file) where
  any_item :
      (filename : List ℕ) (a : A) (lineno : ℕ) (keyword value : List ℕ) (size : ℕ)
      → Unit {0}
      → Holds (λ (r : Bool × A). Unit {0}) (parse_item filename a lineno keyword value size)
  any_item filename a lineno keyword value size u =
      any (parse_item filename a lineno keyword value size)
    where
      any : (o : Option (Bool × A)) → Holds (λ (r : Bool × A). Unit {0}) o
      any none = tt
      any (some r) = tt

  -- Where a file is read by a function that changes its argument by the handler of lines alone: the
  -- result is the same whatever is done below twelve files inside each other, so the recursion over
  -- included files ends.
  pub config_read_ends :
      (filename : List ℕ) (ptr : A) (below : List ℕ → Context A → Option (Context A))
      → config_read files parse_item read_file filename ptr ≡ (
          read_levels files parse_item read_file below 12 filename
            (record { config_include_loop = 0; ptr = ptr })
          >>= λ ctx. some ctx.ptr)
  unfolding config_read
  config_read_ends filename ptr below =
      ap (λ o. o >>= λ ctx. some ctx.ptr)
        (read_levels-SameAt files parse_item (λ a. Unit {0}) any_item read_file folds
          (λ name ctx. none) below 12 0 (omega arith) (omega arith) filename
          (record { config_include_loop = 0; ptr = ptr }) (refl, tt)).0
