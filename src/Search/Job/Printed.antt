-- ===== src/Search/Job/Printed.antt =====
-- src/bin/honas_search.c: what a search job prints for a group can be printed.
use honas.Common.{
  ℕ, ◌+◌, ◌<◌, ◌≡◌, refl, ap, ◌∙◌, true, List, [], ◌∷◌, ◌++◌, some, codes, arith, ◌>>=◌, Bool-cases,
  inl, inr, lt→ltb,
}
use honas.JsonPrinter.{
  Printer, object_begin, object_key, write_string, write_chars, write_char, optional_separator, put,
  stack_push, call, object_pair,
}

separator_depth : (p : Printer) → (optional_separator p).depth ≡ p.depth
unfolding optional_separator put
separator_depth p = elim (Bool-cases p.first_element) [
  | inl first ↦ rw first refl
  | inr later ↦ rw later refl
]

push_lem :
    (p : Printer)
    → p.depth < 30
    → (p' : Printer) × (stack_push p ≡ some p') × (p'.depth ≡ p.depth + 1)
unfolding stack_push
push_lem p room =
    (record p { depth = p.depth + 1; first_element = true }, rw (lt→ltb p.depth 30 room) refl, refl)

module _ (print_unsigned : ℕ → List ℕ) where
  begin_object :
      (p : Printer)
      → p.depth < 30
      → (p' : Printer) × (call print_unsigned object_begin p ≡ some p') × (p'.depth ≡ p.depth + 1)
  unfolding call put
  begin_object p room =
      let (p', runs, deeper) =
        push_lem (put (b'{' ∷ []) (optional_separator p)) (rw (separator_depth p) room) in
      (p', runs, deeper ∙ ap (λ d. d + 1) (separator_depth p))

  hostnames_key :
      (p : Printer)
      → (p' : Printer) × (call print_unsigned (object_key (codes "hostnames")) p ≡ some p')
        × (p'.depth ≡ p.depth)
  unfolding call put write_string write_chars write_char
  hostnames_key p = (_, refl, separator_depth p)

  pub begin_results :
      (p : Printer)
      → p.depth < 29
      → (p' : Printer) × ((call print_unsigned object_begin p
            >>= call print_unsigned (object_key (codes "hostnames"))
            >>= call print_unsigned object_begin)
          ≡ some p')
  begin_results p room =
      let (p1, runs1, d1) = begin_object p (omega arith) in
      let (p2, runs2, d2) = hostnames_key p1 in
      let (p3, runs3, d3) = begin_object p2 (omega (arith, room, d1, d2)) in
      (p3, rw (runs1, runs2) runs3)

  pub pair_printed :
      (key name value : List ℕ) (p : Printer)
      → write_string key ≡ some name
      → (p' : Printer) × (object_pair print_unsigned key (some value) p ≡ some p')
  unfolding object_pair
  pair_printed key name value p wrote =
      (put (name ++ b':' ∷ value) (optional_separator p), rw wrote refl)
