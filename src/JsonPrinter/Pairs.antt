-- ===== src/JsonPrinter/Pairs.antt =====
-- A pair that is printed by one call is printed as its key and its value by two.
use honas.Common.{
  ℕ, ◌≡◌, refl, sym, ap, ◌∙◌, false, List, [], ◌∷◌, ◌++◌, some, inl, inr, Option-cases, Bool-cases,
}
use honas.JsonPrinter.{
  Printer, uint32, object_key, put, optional_separator, write_string, call, calls, object_pair,
}
use mathlib.Core.List.{append_assoc}

printed : Printer → List ℕ → Printer
printed ctx t = record ctx { first_element = false; out = t }

behind :
    (out name value : List ℕ)
    → out ++ (name ++ b':' ∷ value) ≡ (out ++ (name ++ b':' ∷ [])) ++ value
behind out name value =
    ap (◌++◌ out) (sym (append_assoc name (b':' ∷ []) value))
    ∙ sym (append_assoc out (name ++ b':' ∷ []) value)

module _ (print_unsigned : ℕ → List ℕ) where
  pub object_pair-eq-calls :
      (key : List ℕ) (n : ℕ) (ctx : Printer)
      → object_pair print_unsigned key (some (print_unsigned n)) ctx
        ≡ calls print_unsigned (object_key key ∷ uint32 n ∷ []) ctx
  unfolding object_pair calls call put optional_separator printed
  object_pair-eq-calls key n ctx = elim (Option-cases (write_string key)) [
    | inl dies ↦ rw dies refl
    | inr (name, wrote) ↦ elim (Bool-cases ctx.first_element) [
      | inl first ↦
          rw (wrote, first)
            (ap (λ t. some (printed ctx t)) (behind ctx.out name (print_unsigned n)))
      | inr later ↦
          rw (wrote, later)
            (ap (λ t. some (printed ctx t)) (behind (ctx.out ++ b',' ∷ []) name (print_unsigned n)))
    ]
  ]
