-- ===== src/Bloom/Insertion.antt =====
-- The insertion loop of `bloom_determine_offsets` keeps the offsets behind the current index
-- strictly rising and in range.
use native.Mathlib.Nat.{mod-eq_of_lt}
use honas.Common.{
  Rising, ℕ, zero, suc, ◌+◌, ◌^◌, ◌<◌, ◌≤◌, ◌≡◌, refl, ap, ap₂, ◌∙◌, arith, List, [], ◌∷◌, ◌++◌,
  leb, if◌then◌else◌, u32, length, get_or, set, Bool-cases, inl, inr,
}
use honas.Bloom.{insert_offset}

peel :
    (rounds num_bits i new x : ℕ) (offsets : List ℕ)
    → insert_offset rounds (suc num_bits) (suc i) new (x ∷ offsets)
      ≡ x ∷ insert_offset rounds num_bits i new offsets
unfolding insert_offset
peel zero num_bits i new x offsets = refl
peel (suc rounds) num_bits i new x offsets = ground (
  arith,
  peel rounds num_bits (suc i) (u32 (new + 1)) x (set offsets i (get_or offsets (suc i) 0)),
)

peel_all :
    (rounds num_bits i new : ℕ) (before offsets : List ℕ)
    → insert_offset rounds (length before + num_bits) (length before + i) new (before ++ offsets)
      ≡ before ++ insert_offset rounds num_bits i new offsets
peel_all rounds num_bits i new [] offsets =
    ap₂ (λ n j. insert_offset rounds n j new offsets) (omega arith) (omega arith)
peel_all rounds num_bits i new (x ∷ before) offsets =
    let longer : suc (length before) + num_bits ≡ suc (length before + num_bits) = omega arith in
    let later : suc (length before) + i ≡ suc (length before + i) = omega arith in
    rw (longer, later)
      (peel rounds (length before + num_bits) (length before + i) new x (before ++ offsets)
        ∙ ap (◌∷◌ x) (peel_all rounds num_bits i new before offsets))

-- The list that the loop leaves: larger offsets behind the new one, which has risen past the
-- others.
pub inserted : ℕ → List ℕ → List ℕ
inserted new [] = new ∷ []
inserted new (r ∷ rest) = if leb r new then r ∷ inserted (new + 1) rest else new ∷ r ∷ rest

pub length-inserted : (new : ℕ) (rest : List ℕ) → length (inserted new rest) ≡ suc (length rest)
unfolding inserted
length-inserted new [] = refl
length-inserted new (r ∷ rest) = ground (arith, length-inserted (new + 1) rest)

pub inserted-Rising :
    (lo hi new : ℕ) (rest : List ℕ)
    → Rising lo hi rest
    → lo ≤ new
    → new + length rest < hi
    → Rising lo hi (inserted new rest)
unfolding inserted
inserted-Rising lo hi new [] h low high = omega arith
inserted-Rising lo hi new (r ∷ rest) h low high = elim (Bool-cases (leb r new)) [
  | inl passes ↦
      rw passes
        (h.0, h.1, inserted-Rising (suc r) hi (new + 1) rest h.2 (ground arith) (omega arith))
  | inr stays ↦ rw stays (low, ground arith, (ground arith, h.1, h.2))
]

insert_first :
    (rounds hi new y : ℕ) (rest beyond : List ℕ)
    → length rest ≤ rounds
    → new + length rest < hi
    → hi ≤ 2 ^ 32
    → insert_offset rounds (suc (length rest)) 0 new (y ∷ (rest ++ beyond))
      ≡ inserted new rest ++ beyond
unfolding insert_offset inserted
insert_first zero hi new y [] beyond e high top = refl
insert_first (suc rounds) hi new y [] beyond e high top = refl
insert_first zero hi new y (r ∷ rest) beyond e high top = absurd (omega arith)
insert_first (suc rounds) hi new y (r ∷ rest) beyond e high top =
    let wraps : u32 (new + 1) ≡ new + 1 = mod-eq_of_lt (omega arith) in
    ground (
      arith,
      wraps,
      peel rounds (suc (length rest)) 0 (new + 1) r (r ∷ (rest ++ beyond)),
      insert_first rounds hi (new + 1) r rest beyond (omega arith) (omega arith) top,
    )

-- The loop at the index behind `before`, over the offsets `rest`.
pub insert_offset_lem :
    (rounds hi new y : ℕ) (before rest beyond : List ℕ)
    → length rest ≤ rounds
    → new + length rest < hi
    → hi ≤ 2 ^ 32
    → insert_offset rounds
        (length before + suc (length rest))
        (length before)
        new
        (before ++ y ∷ (rest ++ beyond))
      ≡ before ++ (inserted new rest ++ beyond)
insert_offset_lem rounds hi new y before rest beyond e high top =
    let here : length before ≡ length before + 0 = omega arith in
    ap
      (λ i.
        insert_offset rounds (length before + suc (length rest)) i new
          (before ++ y ∷ (rest ++ beyond)))
      here
    ∙ peel_all rounds (suc (length rest)) 0 new before (y ∷ (rest ++ beyond))
    ∙ ap (◌++◌ before) (insert_first rounds hi new y rest beyond e high top)
