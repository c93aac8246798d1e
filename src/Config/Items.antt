-- ===== src/Config/Items.antt =====
-- src/config.c over src/read_file.c: reading a file of options calls the handler of options for
-- each of them in their order.
use honas.Common.{
  ℕ, suc, ◌<◌, ◌≡◌, refl, ap, sym, ◌∙◌, Bool, true, false, List, [], ◌∷◌, ◌++◌, Option, none, some,
  length, All, codes, same_bytes, ◌>>=◌, ◌>>◌, require, ℤ, pos, arith,
}
use mathlib.Core.List.{append-nil}
use honas.Utils.{NotIn}
use honas.ReadFile.{
  max_file_line_length, ReadResult, Waited, IsReadable, open_file, read_file, read_file_close,
}
use honas.ReadFile.Lines.{lines, feed, feed-line, feed_end, NotIn-append}
use honas.ReadFile.Whole.{read_file-feed}
use honas.Config.{
  is_keyword_char, directive, directive_of, Files, Context, item, follow, config_parse_line,
  checked, read_levels, config_read,
}
use honas.Config.Line.{IsKeyword, IsTrimmed, NoNul, directive_of_lem}

-- An option: the first character of its keyword, the others, and its value.
pub record Item : Type 0 where
  pub first : ℕ
  pub others : List ℕ
  pub value : List ℕ

abbrev pub keyword_of : Item → List ℕ
keyword_of i = i.first ∷ i.others

abbrev pub print_item : Item → List ℕ
print_item i = keyword_of i ++ b' ' ∷ i.value

abbrev pub print_items : List Item → List ℕ
print_items [] = []
print_items (i ∷ items) = print_item i ++ b'\n' ∷ print_items items

-- An option that can stand on a line of a file.
pub record IsPrintable (i : Item) : Type 0 where
  pub keyword : IsKeyword (keyword_of i)
  pub no_include : same_bytes (keyword_of i) (codes "include") ≡ false
  pub trimmed : IsTrimmed i.value
  pub no_nul : NoNul i.value
  pub one_line : NotIn b'\n' i.value
  pub short : length (print_item i) < max_file_line_length

IsKeyword-NotIn : (keyword : List ℕ) → IsKeyword keyword → NotIn b'\n' keyword
unfolding is_keyword_char
IsKeyword-NotIn [] h = tt
IsKeyword-NotIn (c ∷ keyword) h = (ground (arith, h.0), IsKeyword-NotIn keyword h.1)

print_item-NotIn : (i : Item) → IsPrintable i → NotIn b'\n' (print_item i)
print_item-NotIn i p =
    NotIn-append b'\n' (keyword_of i) (b' ' ∷ i.value) (IsKeyword-NotIn (keyword_of i) p.keyword)
      (refl, p.one_line)

directive_of-print_item :
    (i : Item) → IsPrintable i → directive_of (print_item i) ≡ directive (keyword_of i) i.value
directive_of-print_item i p =
    ap (λ v. directive_of (keyword_of i ++ b' ' ∷ v)) (sym (append-nil i.value))
    ∙ directive_of_lem [] i.others b' ' [] i.value [] i.first tt p.keyword (refl, tt) p.trimmed
        p.no_nul tt

module _ {A : Type 0} (files : Files)
    (parse_item : List ℕ → A → ℕ → List ℕ → List ℕ → ℕ → Option (Bool × A)) where
  -- What the options mean: each is passed on with the number of its line, and has to be known.
  unfoldable pub apply_items : (filename : List ℕ) → (lineno : ℕ) → List Item → A → Option A
  apply_items filename lineno [] a = some a
  apply_items filename lineno (i ∷ items) a =
      parse_item filename a (suc lineno) (keyword_of i) i.value (length i.value) >>= λ (parsed, a').
      require parsed >> apply_items filename (suc lineno) items a'

  module _
      (read_file' : List ℕ
        → Context A
        → (List ℕ → Context A → ℕ → List ℕ → Option (Context A))
        → Option (ℤ × Context A))
      (read : List ℕ → Context A → Option (Context A)) (filename : List ℕ) where
    abbrev handle : Context A → ℕ → List ℕ → Option (Context A)
    handle = config_parse_line files parse_item read filename

    handle-print_item :
        (i : Item) (ctx : Context A) (n : ℕ)
        → IsPrintable i
        → handle ctx n (print_item i)
          ≡ item files parse_item read filename ctx n (keyword_of i) i.value
    unfolding config_parse_line follow
    handle-print_item i ctx n p = rw (directive_of-print_item i p, p.no_include) refl

    abbrev outcome : Option (ℤ × Context A) → Option A
    outcome o = checked files parse_item read_file' o >>= λ ctx. some ctx.ptr

    -- What follows an option that is passed on.
    after_item :
        (items : List Item) (ctx : Context A) (n : ℕ) (r : Option (Bool × A))
        → ((ctx' : Context A)
            → outcome (feed handle (pos 0) ctx' n (lines (print_items items)))
              ≡ apply_items filename n items ctx'.ptr)
        → outcome (
            (r >>= λ (parsed, ptr). require parsed >> some (record ctx { ptr = ptr })) >>= λ ctx'.
            feed handle (pos 0) ctx' n (lines (print_items items)))
          ≡ (r >>= λ (parsed, a'). require parsed >> apply_items filename n items a')
    after_item items ctx n none later = refl
    after_item items ctx n (some (true, a')) later = later (record ctx { ptr = a' })
    after_item items ctx n (some (false, a')) later = refl

    feed-print_items :
        (items : List Item) (ctx : Context A) (n : ℕ)
        → All IsPrintable items
        → outcome (feed handle (pos 0) ctx n (lines (print_items items)))
          ≡ apply_items filename n items ctx.ptr
    unfolding apply_items
    feed-print_items [] ctx n p = ap outcome (feed_end handle (pos 0) ctx n [] tt)
    feed-print_items (i ∷ items) ctx n p =
        ap outcome (
          feed-line handle (pos 0) ctx n (print_item i) (print_items items) (print_item-NotIn i p.0)
            p.0.short
          ∙ ap (λ o. o >>= λ ctx'. feed handle (pos 0) ctx' (suc n) (lines (print_items items)))
              (handle-print_item i ctx (suc n) p.0))
        ∙ after_item items ctx (suc n)
            (parse_item filename ctx.ptr (suc n) (keyword_of i) i.value (length i.value))
            (λ ctx'. feed-print_items items ctx' (suc n) p.1)

module _ {A S : Type 0} (opened : List ℕ → Option S) (spawn : List ℕ → S → Option S)
    (read : S → ℕ → ReadResult S) (waits : S → List Waited) (left : S → List ℕ)
    (readable : IsReadable read left) (files : Files)
    (parse_item : List ℕ → A → ℕ → List ℕ → List ℕ → ℕ → Option (Bool × A)) where
  -- For options that fit on a line, with a keyword other than `include`, written to a file that is
  -- opened, read to its end in blocks of any size and closed without an error, with fuel for more
  -- than its bytes: reading the file passes each option on, in order and with the number of its
  -- line.
  pub config_read-print_items :
      (fuel : ℕ) (filename : List ℕ) (ptr : A) (items : List Item) (child : Bool) (s : S)
      → All IsPrintable items
      → open_file opened spawn filename ≡ some (child, s)
      → ((s' : S) → read_file_close child (waits s') ≡ some (pos 0))
      → left s ≡ print_items items
      → length (left s) < fuel
      → config_read files parse_item (read_file opened spawn read waits fuel) filename ptr
        ≡ apply_items files parse_item filename 0 items ptr
  unfolding config_read read_levels
  config_read-print_items fuel filename ptr items child s p o closes content enough =
      let rf = read_file opened spawn read waits {A = Context A} fuel in
      let below = read_levels files parse_item rf (λ name ctx. none) 11 in
      let start : Context A = record { config_include_loop = 0; ptr = ptr } in
      ap (outcome files parse_item rf below filename) (
        read_file-feed opened spawn read waits left readable fuel filename start
          (config_parse_line files parse_item below) child s (pos 0) o closes enough
        ∙ ap
            (λ text.
              feed (config_parse_line files parse_item below filename) (pos 0) start 0 (lines text))
            content)
      ∙ feed-print_items files parse_item rf below filename items start 0 p
