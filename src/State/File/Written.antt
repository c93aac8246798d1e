-- ===== src/State/File/Written.antt =====
-- The loop of `honas_state_persist` that writes the file.
use honas.Common.{
  ℕ, zero, suc, ◌+◌, ◌-◌, ◌<◌, ◌≤◌, ◌≡◌, refl, sym, ap, ◌∙◌, arith, false, List, [], ◌∷◌, ◌++◌,
  Option, some, ltb, length, take, drop, inl, inr, Bool-cases, ltb→lt,
}
use honas.State.File.{write_all}

take-add : (n w : ℕ) (xs : List ℕ) → take n xs ++ take w (drop n xs) ≡ take (n + w) xs
take-add zero w xs = ap (λ k. take k xs) (omega arith)
take-add (suc n) w [] = take_empty w ∙ sym (take_empty (suc n + w))
  where
    take_empty : (k : ℕ) → take {A = ℕ} k [] ≡ []
    take_empty zero = refl
    take_empty (suc k) = refl
take-add (suc n) w (x ∷ xs) =
    ap (◌∷◌ x) (take-add n w xs)
    ∙ ap (λ k. take k (x ∷ xs)) (let e : suc (n + w) ≡ suc n + w = omega arith in e)

take_whole : (xs : List ℕ) (n : ℕ) → length xs ≤ n → take n xs ≡ xs
take_whole [] zero h = refl
take_whole [] (suc n) h = refl
take_whole (x ∷ xs) zero h = absurd (omega arith)
take_whole (x ∷ xs) (suc n) h = ap (◌∷◌ x) (take_whole xs n (omega arith))

-- Every call writes something, and no more than it is asked to.
abbrev pub Progresses : (write_call : ℕ → ℕ → Option ℕ) → Type 0
Progresses write_call =
    (total remaining : ℕ)
    → 0 < remaining
    → (written : ℕ) × (write_call total remaining ≡ some written)
      × (0 < written)
      × (written ≤ remaining)

write_all_from :
    (fuel : ℕ) (write_call : ℕ → ℕ → Option ℕ) (memory : List ℕ) (total : ℕ)
    → Progresses write_call
    → total ≤ length memory
    → length memory ≤ total + fuel
    → write_all fuel write_call memory total (take total memory) ≡ some memory
unfolding write_all
write_all_from zero write_call memory total progress inside enough =
    let done : ltb total (length memory) ≡ false = ground arith in
    rw done (ap some (take_whole memory total (omega arith)))
write_all_from (suc fuel) write_call memory total progress inside enough =
    elim (Bool-cases (ltb total (length memory))) [
      | inr done ↦ rw done (ap some (take_whole memory total (ground (arith, done))))
      | inl left ↦
          let more = ltb→lt total (length memory) left in
          let (written, returned, some_more, few) =
            progress total (length memory - total) (omega arith) in
          rw (left, returned)
            (ap (write_all fuel write_call memory (total + written)) (take-add total written memory)
              ∙ write_all_from fuel write_call memory (total + written) progress (omega arith)
                  (omega arith))
    ]

-- Where every call writes at least one byte and no more than it is asked to, the loop ends after at
-- most as many calls as there are bytes, and the file has all of them in order.
pub write_all_ends :
    (write_call : ℕ → ℕ → Option ℕ) (memory : List ℕ)
    → Progresses write_call
    → write_all (length memory) write_call memory 0 [] ≡ some memory
write_all_ends write_call memory progress =
    write_all_from (length memory) write_call memory 0 progress (omega arith) (omega arith)
