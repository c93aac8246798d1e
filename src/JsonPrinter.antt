-- ===== src/JsonPrinter.antt =====
-- src/json_printer.c, as it is built without JSON_PRINTER_DEBUG. The printing of numbers is a
-- parameter; `none` is a failed assertion or `log_die`.
pub mod Rendered
pub mod Pairs
use honas.Common.{
  ℕ, zero, suc, ◌+◌, ◌-◌, ◌≡◌, refl, Bool, true, false, ◌&&◌, ◌||◌, List, [], ◌∷◌, ◌++◌, Option,
  none, some, ltb, leb, ◌==◌, if◌then◌else◌, bit_and, codes, require, ◌>>=◌, ◌>>◌,
}

-- `json_printer_t`, with the text that has been printed.
pub record Printer : Type 0 where
  pub depth : ℕ
  pub first_element : Bool
  pub out : List ℕ

-- The calls between `json_printer_begin` and `json_printer_end`.
pub data Call : Type 0 where
  uint32 uint64 : ℕ → Call
  boolean : Bool → Call
  string : List ℕ → Call
  array_begin array_end object_begin object_end : Call
  object_key : List ℕ → Call

unfoldable pub put : List ℕ → Printer → Printer
put text ctx = record ctx { out = ctx.out ++ text }

unfoldable pub optional_separator : Printer → Printer
unfolding put
optional_separator ctx =
    if ctx.first_element then record ctx { first_element = false } else put (b',' ∷ []) ctx

abbrev pub max_depth : ℕ
max_depth = 30

unfoldable pub stack_push : Printer → Option Printer
stack_push ctx = do
  require (ltb ctx.depth max_depth)
  some (record ctx { depth = ctx.depth + 1; first_element = true })

unfoldable pub stack_pop : Printer → Option Printer
stack_pop ctx = do
  require (ltb 0 ctx.depth)
  some (record ctx { depth = ctx.depth - 1; first_element = ctx.depth - 1 == 1 })

pub write_boolean : Bool → List ℕ
write_boolean b = if b then codes "true" else codes "false"

-- How many bytes follow the first one of a sequence of UTF-8.
unfoldable pub sequence_length : ℕ → Option ℕ
sequence_length c =
    if bit_and c 0xe0 == 0xc0
    then some 1
    else (if bit_and c 0xf0 == 0xe0
        then some 2
        else (if bit_and c 0xf8 == 0xf0
            then some 3
            else (if bit_and c 0xfc == 0xf8
                then some 4
                else (if bit_and c 0xfe == 0xfc then some 5 else none))))

-- What is printed for a byte, and how many bytes of a sequence follow.
unfoldable pub write_char : ℕ → Option (List ℕ × ℕ)
unfolding sequence_length
write_char c =
    if leb 0x20 c && ltb c 0x7e
    then some ((if (c == b'"') || ((c == b'\\') || (c == b'/')) then b'/' ∷ c ∷ [] else c ∷ []), 0)
    else (if c == 8
        then some (codes "\\b", 0)
        else (if c == 12
            then some (codes "\\f", 0)
            else (if c == 10
                then some (codes "\\n", 0)
                else (if c == 13
                    then some (codes "\\r", 0)
                    else (if c == 9
                        then some (codes "\\t", 0)
                        else (if ltb 0x7f c
                            then (do following ← sequence_length c; some (c ∷ [], following))
                            else none))))))

-- The bytes of a text and the quote behind them; `following` bytes of a sequence are left.
unfoldable pub write_chars : (following : ℕ) → List ℕ → Option (List ℕ)
unfolding write_char
write_chars zero [] = some (b'"' ∷ [])
write_chars (suc following) [] = none
write_chars zero (c ∷ text) = do
  (written, following) ← write_char c
  rest ← write_chars following text
  some (written ++ rest)
write_chars (suc following) (c ∷ text) = do
  require (bit_and c 0xc0 == 0x80)
  rest ← write_chars following text
  some (c ∷ rest)

unfoldable pub write_string : List ℕ → Option (List ℕ)
unfolding write_chars
write_string text = do rest ← write_chars 0 text; some (b'"' ∷ rest)

unfoldable pub json_printer_begin : Option Printer
unfolding stack_push
json_printer_begin = stack_push (record { depth = 0; first_element = true; out = [] })

-- The text that is flushed.
pub json_printer_end : Printer → List ℕ
json_printer_end ctx = ctx.out

module _ (print_unsigned : ℕ → List ℕ) where
  unfoldable pub call : Call → Printer → Option Printer
  unfolding optional_separator put stack_push stack_pop write_boolean write_string
  call (uint32 n) ctx = some (put (print_unsigned n) (optional_separator ctx))
  call (uint64 n) ctx = some (put (print_unsigned n) (optional_separator ctx))
  call (boolean b) ctx = some (put (write_boolean b) (optional_separator ctx))
  call (string text) ctx = do
    written ← write_string text
    some (put written (optional_separator ctx))
  call array_begin ctx = stack_push (put (b'[' ∷ []) (optional_separator ctx))
  call array_end ctx = stack_pop (put (b']' ∷ []) ctx)
  call object_begin ctx = stack_push (put (b'{' ∷ []) (optional_separator ctx))
  call object_end ctx = stack_pop (put (b'}' ∷ []) ctx)
  call (object_key key) ctx = do
    written ← write_string key
    some (put (written ++ b':' ∷ []) (record (optional_separator ctx) { first_element = true }))

  pub calls : List Call → Printer → Option Printer
  unfolding call
  calls [] ctx = some ctx
  calls (c ∷ cs) ctx = do ctx' ← call c ctx; calls cs ctx'

  -- `json_printer_object_pair_uint32` and the three like it, where `written` is what is printed for
  -- the value.
  unfoldable pub object_pair :
      (key : List ℕ) → (written : Option (List ℕ)) → Printer → Option Printer
  unfolding optional_separator put write_string
  object_pair key written ctx = do
    name ← write_string key
    value ← written
    some (put (name ++ b':' ∷ value) (optional_separator ctx))
