-- ===== src/JsonPrinter/Rendered/Examples.antt =====
-- The document {"a":[7,true]}.
use honas.Common.{ℕ, ◌≡◌, refl, arith, true, List, none, some, codes, ◌≤◌}
use honas.JsonPrinter.{write_string, write_chars, write_char, write_boolean}
use honas.JsonPrinter.Rendered.{
  Forest, end, scalar, nest, number, truth, array, object, height, render, separator, key_text,
  scalar_text, opening, closing, document_calls, document_text, print_document,
  print_document-document_calls,
}

abbrev seven : ℕ → List ℕ
seven n = codes "7"

abbrev children : Forest
children = nest (some (codes "a")) array (scalar none (number 7) (scalar none (truth true) end)) end

children-low : height children ≤ 28
unfolding height
children-low = omega arith

children_text : document_text seven object children ≡ some (codes "{\"a\":[7,true]}")
unfolding document_text render separator key_text scalar_text opening closing write_string
    write_chars write_char write_boolean
children_text = refl

print_document-document_calls_example :
    print_document seven (document_calls seven object children) ≡ some (codes "{\"a\":[7,true]}")
print_document-document_calls_example =
    print_document-document_calls seven object children (codes "{\"a\":[7,true]}") children_text
      children-low
