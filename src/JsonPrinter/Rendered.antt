-- ===== src/JsonPrinter/Rendered.antt =====
-- What the calls for a document print, against the text of the document.
mod Examples
use honas.Common.{
  ℕ, zero, suc, ◌+◌, ◌-◌, ◌<◌, ◌≤◌, ◌≡◌, refl, sym, ap, ◌∙◌, arith, Bool, true, false, List, [],
  ◌∷◌, ◌++◌, Option, none, some, ltb, ◌==◌, if◌then◌else◌, max, require, ◌>>=◌, ◌>>◌, >>=-eq-some,
  lt→ltb,
}
use honas.JsonPrinter.{
  Printer, Call, uint32, uint64, boolean, string, array_begin, array_end, object_begin, object_end,
  object_key, put, optional_separator, max_depth, stack_push, stack_pop, write_boolean,
  write_string, json_printer_begin, json_printer_end, call, calls,
}
use mathlib.Core.List.{append_assoc, append-nil}

pub data Scalar : Type 0 where
  number : ℕ → Scalar
  truth : Bool → Scalar
  text : List ℕ → Scalar

pub data Container : Type 0 where
  array object : Container

-- The elements of an array or the members of an object, each with what comes behind it. A member of
-- an object has a key.
pub data Forest : Type 0 where
  end : Forest
  scalar : Option (List ℕ) → Scalar → Forest → Forest
  nest : Option (List ℕ) → Container → Forest → Forest → Forest

opening : Container → List ℕ
opening array = b'[' ∷ []
opening object = b'{' ∷ []

closing : Container → List ℕ
closing array = b']' ∷ []
closing object = b'}' ∷ []

unfoldable pub height : Forest → ℕ
height end = 0
height (scalar key v rest) = height rest
height (nest key kind children rest) = max (suc (height children)) (height rest)

-- The comma in front of all elements but the first.
separator : (first : Bool) → List ℕ
separator true = []
separator false = b',' ∷ []

module _ (print_unsigned : ℕ → List ℕ) where
  key_text : Option (List ℕ) → Option (List ℕ)
  key_text none = some []
  key_text (some key) = do name ← write_string key; some (name ++ b':' ∷ [])

  scalar_text : Scalar → Option (List ℕ)
  scalar_text (number n) = some (print_unsigned n)
  scalar_text (truth b) = some (write_boolean b)
  scalar_text (text t) = write_string t

  -- The text of the elements.
  render : (first : Bool) → Forest → Option (List ℕ)
  unfolding separator key_text scalar_text opening closing
  render first end = some []
  render first (scalar key v rest) = do
    name ← key_text key
    value ← scalar_text v
    others ← render false rest
    some (separator first ++ (name ++ (value ++ others)))
  render first (nest key kind children rest) = do
    name ← key_text key
    inner ← render true children
    others ← render false rest
    some (separator first ++ (name ++ (opening kind ++ (inner ++ (closing kind ++ others)))))

  key_calls : Option (List ℕ) → List Call → List Call
  key_calls none cs = cs
  key_calls (some key) cs = object_key key ∷ cs

  scalar_call : Scalar → Call
  scalar_call (number n) = uint32 n
  scalar_call (truth b) = boolean b
  scalar_call (text t) = string t

  open_call : Container → Call
  open_call array = array_begin
  open_call object = object_begin

  close_call : Container → Call
  close_call array = array_end
  close_call object = object_end

  -- The calls for the elements, and then others.
  forest_calls : Forest → List Call → List Call
  unfolding key_calls scalar_call open_call close_call
  forest_calls end cs = cs
  forest_calls (scalar key v rest) cs = key_calls key (scalar_call v ∷ forest_calls rest cs)
  forest_calls (nest key kind children rest) cs =
      key_calls key
        (open_call kind ∷ forest_calls children (close_call kind ∷ forest_calls rest cs))

  at : (depth : ℕ) (first : Bool) (out : List ℕ) → Printer
  at depth first out = record { depth = depth; first_element = first; out = out }

  -- The key, if there is one, and then the separator of what follows: both leave the same text.
  key_calls_lem :
      (key : Option (List ℕ)) (name : List ℕ) (first : Bool) (depth : ℕ) (out : List ℕ)
      → key_text key ≡ some name
      → (ctx : Printer) × ((cs : List Call)
          → calls print_unsigned (key_calls key cs) (at depth first out)
            ≡ calls print_unsigned cs ctx)
        × (optional_separator ctx ≡ at depth false (out ++ (separator first ++ name)))
  unfolding key_calls key_text calls call optional_separator put separator at
  key_calls_lem none name true depth out e =
      let empty : [] ≡ name = cc e in
      (at depth true out, λ cs. refl, rw (← empty, append-nil out) refl)
  key_calls_lem none name false depth out e =
      let empty : [] ≡ name = cc e in (at depth false out, λ cs. refl, rw (← empty) refl)
  key_calls_lem (some key) name first depth out e =
      let (written, wrote, e') = >>=-eq-some (write_string key) _ e in
      let same : written ++ b':' ∷ [] ≡ name = cc e' in
      elim first
        as (λ f.
          (ctx : Printer) × ((cs : List Call)
            → calls print_unsigned (object_key key ∷ cs) (at depth f out)
              ≡ calls print_unsigned cs ctx)
          × (optional_separator ctx ≡ at depth false (out ++ (separator f ++ name)))) [
            | true ↦ (
              at depth true (out ++ (written ++ b':' ∷ [])),
              λ cs. rw wrote refl,
              rw (← same) refl,
            )
            | false ↦ (
              at depth true ((out ++ b',' ∷ []) ++ (written ++ b':' ∷ [])),
              λ cs. rw wrote refl,
              rw (← same, append_assoc out (b',' ∷ []) (written ++ b':' ∷ [])) refl,
            )
          ]

  scalar_call_lem :
      (v : Scalar) (value : List ℕ) (ctx : Printer)
      → scalar_text v ≡ some value
      → call print_unsigned (scalar_call v) ctx ≡ some (put value (optional_separator ctx))
  unfolding scalar_call scalar_text call
  scalar_call_lem (number n) value ctx e =
      let same : print_unsigned n ≡ value = cc e in rw (← same) refl
  scalar_call_lem (truth b) value ctx e =
      let same : write_boolean b ≡ value = cc e in rw (← same) refl
  scalar_call_lem (text t) value ctx e = rw e refl

  open_call_lem :
      (kind : Container) (ctx : Printer)
      → call print_unsigned (open_call kind) ctx
        ≡ stack_push (put (opening kind) (optional_separator ctx))
  unfolding open_call opening call
  open_call_lem array ctx = refl
  open_call_lem object ctx = refl

  close_call_lem :
      (kind : Container) (ctx : Printer)
      → call print_unsigned (close_call kind) ctx ≡ stack_pop (put (closing kind) ctx)
  unfolding close_call closing call
  close_call_lem array ctx = refl
  close_call_lem object ctx = refl

  -- Whether the next element is the first one.
  after : (first : Bool) → Forest → Bool
  after first end = first
  after first (scalar key v rest) = false
  after first (nest key kind children rest) = false

  after-false : (f : Forest) → after false f ≡ false
  unfolding after
  after-false end = refl
  after-false (scalar key v rest) = refl
  after-false (nest key kind children rest) = refl

  gather :
      (out s name value others : List ℕ)
      → ((out ++ (s ++ name)) ++ value) ++ others ≡ out ++ (s ++ (name ++ (value ++ others)))
  gather out s name value others =
      append_assoc (out ++ (s ++ name)) value others
      ∙ append_assoc out (s ++ name) (value ++ others)
      ∙ ap (◌++◌ out) (append_assoc s name (value ++ others))

  gathered :
      (out inner t others : List ℕ)
      → ((out ++ inner) ++ t) ++ others ≡ out ++ (inner ++ (t ++ others))
  gathered out inner t others =
      append_assoc (out ++ inner) t others ∙ append_assoc out inner (t ++ others)

  calls_step :
      (c : Call) (cs : List Call) (ctx ctx' : Printer)
      → call print_unsigned c ctx ≡ some ctx'
      → calls print_unsigned (c ∷ cs) ctx ≡ calls print_unsigned cs ctx'
  unfolding calls
  calls_step c cs ctx ctx' e = rw e refl

  stack_push_lem :
      (depth : ℕ) (out t : List ℕ)
      → depth < max_depth
      → stack_push (put t (at depth false out)) ≡ some (at (depth + 1) true (out ++ t))
  unfolding stack_push put at
  stack_push_lem depth out t h = rw (lt→ltb depth max_depth h) refl

  stack_pop_lem :
      (depth : ℕ) (first : Bool) (out t : List ℕ)
      → 2 ≤ depth
      → stack_pop (put t (at (depth + 1) first out)) ≡ some (at depth false (out ++ t))
  unfolding stack_pop put at
  stack_pop_lem depth first out t h =
      let back : depth + 1 - 1 ≡ depth = omega arith in
      let inner : (depth == 1) ≡ false = ground arith in
      rw (lt→ltb 0 (depth + 1) (omega arith), back, inner) refl

  forest_calls_lem :
      (f : Forest) (first : Bool) (depth : ℕ) (out written : List ℕ) (cs : List Call)
      → render first f ≡ some written
      → 2 ≤ depth
      → depth + height f ≤ max_depth
      → calls print_unsigned (forest_calls f cs) (at depth first out)
        ≡ calls print_unsigned cs (at depth (after first f) (out ++ written))
  unfolding forest_calls render height after put at
  forest_calls_lem end first depth out written cs e deep fits =
      let empty : [] ≡ written = cc e in rw (← empty, append-nil out) refl
  forest_calls_lem (scalar key v rest) first depth out written cs e deep fits =
      let (name, named, e1) = >>=-eq-some (key_text key) _ e in
      let (value, valued, e2) = >>=-eq-some (scalar_text v) _ e1 in
      let (others, rendered, e3) = >>=-eq-some (render false rest) _ e2 in
      let same : separator first ++ (name ++ (value ++ others)) ≡ written = cc e3 in
      let (ctx, keyed, separated) = key_calls_lem key name first depth out named in
      let printed = scalar_call_lem v value ctx valued in
      keyed (scalar_call v ∷ forest_calls rest cs)
      ∙ calls_step (scalar_call v) (forest_calls rest cs) ctx _ printed
      ∙ ap (λ c. calls print_unsigned (forest_calls rest cs) (put value c)) separated
      ∙ forest_calls_lem rest false depth ((out ++ (separator first ++ name)) ++ value) others cs
          rendered deep fits
      ∙ ap
          (λ b.
            calls print_unsigned cs
              (at depth b (((out ++ (separator first ++ name)) ++ value) ++ others)))
          (after-false rest)
      ∙ ap (λ t. calls print_unsigned cs (at depth false t))
          (gather out (separator first) name value others ∙ ap (◌++◌ out) same)
  forest_calls_lem (nest key kind children rest) first depth out written cs e deep fits =
      let (name, named, e1) = >>=-eq-some (key_text key) _ e in
      let (inner, inside, e2) = >>=-eq-some (render true children) _ e1 in
      let (others, rendered, e3) = >>=-eq-some (render false rest) _ e2 in
      let same : separator first ++ (name ++ (opening kind ++ (inner ++ (closing kind ++ others))))
          ≡ written =
        cc e3 in
      let (ctx, keyed, separated) = key_calls_lem key name first depth out named in
      let out1 = (out ++ (separator first ++ name)) ++ opening kind in
      let out2 = (out1 ++ inner) ++ closing kind in
      let behind = forest_calls rest cs in
      let close = close_call kind ∷ behind in
      let pushed =
        open_call_lem kind ctx
        ∙ ap (λ c. stack_push (put (opening kind) c)) separated
        ∙ stack_push_lem depth (out ++ (separator first ++ name)) (opening kind) (omega arith) in
      let popped =
        close_call_lem kind (at (depth + 1) (after true children) (out1 ++ inner))
        ∙ stack_pop_lem depth (after true children) (out1 ++ inner) (closing kind) deep in
      keyed (open_call kind ∷ forest_calls children close)
      ∙ calls_step (open_call kind) (forest_calls children close) ctx _ pushed
      ∙ forest_calls_lem children true (depth + 1) out1 inner close inside (omega arith)
          (omega arith)
      ∙ calls_step (close_call kind) behind _ _ popped
      ∙ forest_calls_lem rest false depth out2 others cs rendered deep (omega arith)
      ∙ ap (λ b. calls print_unsigned cs (at depth b (out2 ++ others))) (after-false rest)
      ∙ ap (λ t. calls print_unsigned cs (at depth false t))
          (gathered out1 inner (closing kind) others
            ∙ gather out (separator first) name (opening kind) (inner ++ (closing kind ++ others))
            ∙ ap (◌++◌ out) same)

  json_printer_begin-eq : json_printer_begin ≡ some (at 1 true [])
  unfolding json_printer_begin stack_push at
  json_printer_begin-eq = refl

  pushed_first :
      (kind : Container)
      → stack_push (put (opening kind) (optional_separator (at 1 true [])))
        ≡ some (at 2 true (opening kind))
  unfolding stack_push put optional_separator at opening
  pushed_first array = refl
  pushed_first object = refl

  popped_last :
      (kind : Container) (first : Bool) (out : List ℕ)
      → stack_pop (put (closing kind) (at 2 first out)) ≡ some (at 1 true (out ++ closing kind))
  unfolding stack_pop put at
  popped_last kind first out = refl

  pub document_calls : Container → Forest → List Call
  unfolding forest_calls open_call close_call
  document_calls kind children = open_call kind ∷ forest_calls children (close_call kind ∷ [])

  pub document_text : Container → Forest → Option (List ℕ)
  unfolding render opening closing
  document_text kind children = do
    inner ← render true children
    some (opening kind ++ (inner ++ closing kind))

  pub print_document : List Call → Option (List ℕ)
  print_document cs = do
    begun ← json_printer_begin
    ctx ← calls print_unsigned cs begun
    some (json_printer_end ctx)

  -- For a document of arrays, objects and scalars whose strings can be printed, nested at most 28
  -- deep inside its outermost container: the calls for it succeed between begin and end, and what
  -- is flushed is the text of the document, with a comma between any two elements and nowhere else.
  pub print_document-document_calls :
      (kind : Container) (children : Forest) (written : List ℕ)
      → document_text kind children ≡ some written
      → height children ≤ 28
      → print_document (document_calls kind children) ≡ some written
  unfolding print_document document_calls document_text at calls json_printer_end
  print_document-document_calls kind children written e low =
      let (inner, inside, e') = >>=-eq-some (render true children) _ e in
      let same : opening kind ++ (inner ++ closing kind) ≡ written = cc e' in
      let printed =
        calls_step (open_call kind) (forest_calls children (close_call kind ∷ [])) (at 1 true []) _
          (open_call_lem kind (at 1 true []) ∙ pushed_first kind)
        ∙ forest_calls_lem children true 2 (opening kind) inner (close_call kind ∷ []) inside
            (omega arith) (omega arith)
        ∙ calls_step (close_call kind) [] _ (at 1 true ((opening kind ++ inner) ++ closing kind)) (
            close_call_lem kind (at 2 (after true children) (opening kind ++ inner))
            ∙ popped_last kind (after true children) (opening kind ++ inner)) in
      rw (json_printer_begin-eq, printed)
        (ap some (append_assoc (opening kind) inner (closing kind) ∙ same))
