-- ===== src/Config.antt =====
-- src/config.c: configuration files, their lines and the files that they include. The functions
-- `read_file` (with the handler of lines as its argument), `access`, `stat` and `readdir` with
-- `opendir`, and `qsort` with `cmpstringp`, are arguments; allocation succeeds. `none` is the end of
-- the process.
pub mod Line
pub mod Depth
pub mod Items
pub mod Gather
mod Examples
use honas.Common.{
  ℕ, zero, suc, ◌+◌, ◌-◌, ◌≡◌, Bool, true, false, ◌&&◌, ◌||◌, not, List, [], ◌∷◌, ◌++◌, Option,
  none, some, ltb, leb, ◌==◌, if◌then◌else◌, length, take, drop, codes, same_bytes, ◌>>=◌, ◌>>◌,
  require, ℤ, pos, negsuc,
}
use honas.Utils.{create_relative_filepath, index_ws}
use honas.State.Register.Text.{c_string}

abbrev pub is_blank : ℕ → Bool
is_blank c = c == b' ' || c == b'\t'

unfoldable pub is_keyword_char : ℕ → Bool
is_keyword_char c =
    (leb b'0' c && leb c b'9')
    || (leb b'A' c && leb c b'Z')
    || (leb b'a' c && leb c b'z')
    || c == b'_'

unfoldable pub skip_blanks : List ℕ → List ℕ
skip_blanks [] = []
skip_blanks (c ∷ line) = let rest = skip_blanks line in if is_blank c then rest else c ∷ line

-- The keyword, and the line behind it.
unfoldable pub split_keyword : List ℕ → List ℕ × List ℕ
split_keyword [] = ([], [])
split_keyword (c ∷ line) =
    let (keyword, rest) = split_keyword line in
    if is_keyword_char c then (c ∷ keyword, rest) else ([], c ∷ line)

abbrev cons_unless_blank : ℕ → List ℕ → List ℕ
cons_unless_blank c [] = if is_blank c then [] else c ∷ []
cons_unless_blank c (d ∷ rest) = c ∷ d ∷ rest

unfoldable pub strip_blanks : List ℕ → List ℕ
strip_blanks [] = []
strip_blanks (c ∷ line) = cons_unless_blank c (strip_blanks line)

-- What stands on a line: nothing or a comment, a keyword with its value, or neither.
pub data Directive : Type 0 where
  no_directive : Directive
  directive : (keyword value : List ℕ) → Directive
  keyword_missing : Directive

abbrev has_keyword : List ℕ → List ℕ → Directive
has_keyword [] rest = keyword_missing
has_keyword (k ∷ keyword) [] = directive (k ∷ keyword) []
has_keyword (k ∷ keyword) (c ∷ rest) =
    if is_blank c
    then directive (k ∷ keyword) (strip_blanks (skip_blanks rest))
    else keyword_missing

-- The first half of `config_parse_line`, up to the parts of the line.
unfoldable pub directive_of : List ℕ → Directive
directive_of text = elim (skip_blanks (c_string text)) [
  | [] ↦ no_directive
  | c ∷ line ↦
      let (keyword, rest) = split_keyword (c ∷ line) in
      if c == b'#' || c == b';' then no_directive else has_keyword keyword rest
]

-- What `stat` tells of a path.
pub data FileKind : Type 0 where
  regular_file directory_file other_file : FileKind

-- The files as the system calls show them: `none` where `stat` fails, or `opendir` or `readdir`.
pub record Files : Type 0 where
  pub can_read : List ℕ → Bool
  pub stat : List ℕ → Option FileKind
  pub readdir : List ℕ → Option (List (List ℕ))
  pub qsort : List (List ℕ) → List (List ℕ)

pub record Context (A : Type 0) : Type 0 where
  pub config_include_loop : ℕ
  pub ptr : A

unfoldable pub is_file_name : List ℕ → Bool
is_file_name [] = true
is_file_name (c ∷ name) =
    ((leb b'0' c && leb c b'9')
      || (leb b'A' c && leb c b'Z')
      || (leb b'a' c && leb c b'z')
      || (c == b'_' || c == b'-'))
    && is_file_name name

unfoldable pub file_names : List (List ℕ) → List (List ℕ)
file_names [] = []
file_names (name ∷ names) =
    let rest = file_names names in if is_file_name name then name ∷ rest else rest

-- The path and `if_exist`; `none` is a syntax error.
unfoldable pub include_args : (line : List ℕ) → Option (List ℕ × Bool)
include_args line = elim (index_ws line) [
  | none ↦ some (line, false)
  | some i ↦
      if same_bytes (skip_blanks (drop (suc i) line)) (codes "if_exist")
      then some (take i line, true)
      else none
]

abbrev is_absolute : List ℕ → Bool
is_absolute [] = false
is_absolute (c ∷ path) = c == b'/'

unfoldable pub included_path : (filename path : List ℕ) → List ℕ
included_path filename path =
    if is_absolute path then path else create_relative_filepath filename path

unfoldable pub with_slash : List ℕ → List ℕ
with_slash [] = b'/' ∷ []
with_slash (c ∷ []) = if c == b'/' then c ∷ [] else c ∷ b'/' ∷ []
with_slash (c ∷ d ∷ path) = c ∷ with_slash (d ∷ path)

module _ {A : Type 0} (files : Files)
    (parse_item : (filename : List ℕ)
      → A
      → (lineno : ℕ) → (keyword value : List ℕ) → (length : ℕ) → Option (Bool × A)) where
  module _ (config_read_file : (filename : List ℕ) → Context A → Option (Context A)) where
    unfoldable pub read_each : (dir : List ℕ) → List (List ℕ) → Context A → Option (Context A)
    read_each dir [] ctx = some ctx
    read_each dir (name ∷ names) ctx = config_read_file (dir ++ name) ctx >>= read_each dir names

    -- The file or the files of the directory that `newfile` names.
    unfoldable pub read_path : (newfile : List ℕ) → Context A → Option (Context A)
    read_path newfile ctx = files.stat newfile >>= λ kind. elim kind [
      | regular_file ↦ config_read_file newfile ctx
      | directory_file ↦ files.readdir (with_slash newfile) >>= λ names.
          read_each (with_slash newfile) (files.qsort (file_names names)) ctx
      | other_file ↦ none
    ]

    unfoldable pub include : (filename line : List ℕ) → Context A → Option (Context A)
    include filename line ctx = do
      require (not (ltb 10 ctx.config_include_loop))
      let deeper = record ctx { config_include_loop = suc ctx.config_include_loop }
      (path, if_exist) ← include_args line
      let newfile = included_path filename path
      ctx' ←
          if not if_exist || files.can_read newfile then read_path newfile deeper else some deeper
      some (record ctx' { config_include_loop = ctx'.config_include_loop - 1 })

    abbrev pub item : List ℕ → Context A → ℕ → List ℕ → List ℕ → Option (Context A)
    item filename ctx lineno keyword value = do
      (parsed, ptr) ← parse_item filename ctx.ptr lineno keyword value (length value)
      require parsed
      some (record ctx { ptr = ptr })

    -- The second half of `config_parse_line`, from the parts of the line.
    unfoldable pub follow :
        (filename : List ℕ) → Context A → (lineno : ℕ) → Directive → Option (Context A)
    follow filename ctx lineno no_directive = some ctx
    follow filename ctx lineno keyword_missing = none
    follow filename ctx lineno (directive keyword value) =
        if same_bytes keyword (codes "include")
        then include filename value ctx
        else item filename ctx lineno keyword value

    unfoldable pub config_parse_line :
        (filename : List ℕ) → Context A → (lineno : ℕ) → List ℕ → Option (Context A)
    config_parse_line filename ctx lineno text = follow filename ctx lineno (directive_of text)

  module _
      (read_file : (filename : List ℕ)
        → Context A
        → (List ℕ → Context A → ℕ → List ℕ → Option (Context A))
        → Option (ℤ × Context A)) where
    -- `_config_read`: an error of `read_file` ends the process.
    abbrev pub checked : Option (ℤ × Context A) → Option (Context A)
    checked none = none
    checked (some (pos n, ctx)) = some ctx
    checked (some (negsuc n, ctx)) = none

    -- Files inside of files, `levels` of them; `below` stands for what is deeper.
    unfoldable pub read_levels :
        (below : List ℕ → Context A → Option (Context A))
        → (levels : ℕ) → (filename : List ℕ) → Context A
        → Option (Context A)
    read_levels below zero filename ctx = below filename ctx
    read_levels below (suc levels) filename ctx =
        checked (read_file filename ctx (config_parse_line (read_levels below levels)))

    -- A file is read inside at most 11 others.
    unfoldable pub config_read : (filename : List ℕ) → A → Option A
    config_read filename ptr =
        read_levels (λ name ctx. none) 12 filename (record { config_include_loop = 0; ptr = ptr })
        >>= λ ctx. some ctx.ptr
