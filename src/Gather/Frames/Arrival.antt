-- ===== src/Gather/Frames/Arrival.antt =====
-- src/bin/honas_gather.c: what `can_read_full_frame` finds stays where more bytes arrive.
use honas.Common.{
  ℕ, zero, suc, ◌+◌, ◌-◌, ◌≤◌, ◌<◌, ◌≡◌, refl, ap, false, ◌||◌, List, [], ◌∷◌, ◌++◌, ltb, ◌==◌,
  length, take, drop, length-append, arith, Bool-cases, inl, inr,
}
use honas.Gather.Frames.{
  capture_high_watermark, ntohl, FrameRead, incomplete, oversized, bad_control, frame, arrived,
  control_frame, can_read_full_frame,
}

pub take-append : (n : ℕ) (buf more : List ℕ) → n ≤ length buf → take n (buf ++ more) ≡ take n buf
take-append zero buf more h = refl
take-append (suc n) [] more h = absurd (omega arith)
take-append (suc n) (b ∷ buf) more h = ap (◌∷◌ b) (take-append n buf more (omega arith))

pub drop-append :
    (n : ℕ) (buf more : List ℕ) → n ≤ length buf → drop n (buf ++ more) ≡ drop n buf ++ more
drop-append zero buf more h = refl
drop-append (suc n) [] more h = absurd (omega arith)
drop-append (suc n) (b ∷ buf) more h = drop-append n buf more (omega arith)

pub drop_all : (buf : List ℕ) → drop (length buf) buf ≡ []
drop_all [] = refl
drop_all (b ∷ buf) = drop_all buf

pub length-drop : (n : ℕ) (buf : List ℕ) → length (drop n buf) ≡ length buf - n
length-drop zero buf = omega arith
length-drop (suc n) [] = omega arith
length-drop (suc n) (b ∷ buf) = omega (arith, length-drop n buf)

-- What more bytes may change in what is found.
abbrev pub Later : (len : ℕ) → FrameRead → FrameRead → Type 0
Later len incomplete r = Unit {0}
Later len (oversized total) r = 0 < total
Later len bad_control r = r ≡ bad_control
Later len (frame payload total) r = (r ≡ frame payload total) × (total ≤ len) × (0 < total)

arrived-Later :
    (len len' payload total : ℕ)
    → len ≤ len'
    → 0 < total
    → Later len (arrived len payload total) (arrived len' payload total)
arrived-Later len len' payload total h pos = elim (Bool-cases (ltb len total)) [
  | inr whole ↦
      let still : ltb len' total ≡ false = ground (arith, whole, h) in
      rw (whole, still) (refl, ground (arith, whole), pos)
  | inl part ↦ elim (Bool-cases (ltb capture_high_watermark total)) [
    | inl large ↦ rw (part, large) pos
    | inr small ↦ rw (part, small) tt
  ]
]

control_frame-Later :
    (max len len' : ℕ) (buf more : List ℕ)
    → len ≤ len'
    → Later len (control_frame max len buf) (control_frame max len' (buf ++ more))
unfolding control_frame
control_frame-Later max len len' [] more h = tt
control_frame-Later max len len' (a ∷ []) more h = tt
control_frame-Later max len len' (a ∷ b ∷ []) more h = tt
control_frame-Later max len len' (a ∷ b ∷ c ∷ []) more h = tt
control_frame-Later max len len' (a ∷ b ∷ c ∷ d ∷ rest) more h =
    elim (Bool-cases (ltb (ntohl a b c d) 4 || ltb max (ntohl a b c d))) [
      | inl bad ↦ rw bad refl
      | inr good ↦ rw good (arrived-Later len len' 0 (8 + ntohl a b c d) h (omega arith))
    ]

pub can_read_full_frame-Later :
    (max : ℕ) (buf more : List ℕ)
    → Later (length buf) (can_read_full_frame max buf) (can_read_full_frame max (buf ++ more))
unfolding can_read_full_frame
can_read_full_frame-Later max [] more = tt
can_read_full_frame-Later max (a ∷ []) more = tt
can_read_full_frame-Later max (a ∷ b ∷ []) more = tt
can_read_full_frame-Later max (a ∷ b ∷ c ∷ []) more = tt
can_read_full_frame-Later max (a ∷ b ∷ c ∷ d ∷ rest) more = elim (Bool-cases (ntohl a b c d == 0)) [
  | inl control ↦ rw control (
      control_frame-Later max (length (a ∷ b ∷ c ∷ d ∷ rest))
        (length (a ∷ b ∷ c ∷ d ∷ (rest ++ more))) rest more
        (omega (arith, length-append rest more)))
  | inr data_frame ↦ rw data_frame (
      arrived-Later (length (a ∷ b ∷ c ∷ d ∷ rest)) (length (a ∷ b ∷ c ∷ d ∷ (rest ++ more)))
        (ntohl a b c d) (4 + ntohl a b c d) (omega (arith, length-append rest more)) (omega arith))
]
