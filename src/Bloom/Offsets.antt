-- ===== src/Bloom/Offsets.antt =====
-- `bloom_determine_offsets` returns distinct offsets in rising order, all inside the filter.
use native.Mathlib.Nat.{mod-eq_of_lt, mod-lt, one-le-pow}
use honas.Common.{
  Rising, ℕ, zero, suc, ◌+◌, ◌-◌, ◌*◌, ◌/◌, ◌%◌, ◌^◌, ◌<◌, ◌≤◌, ◌≡◌, refl, sym, ap, ap₂, ◌∙◌, arith,
  List, [], ◌∷◌, ◌++◌, ltb, le→leb, lt→ltb, ◌==◌, if◌then◌else◌, u32, length, set, replicate,
  length-replicate, Bool-cases, inl, inr, some, min,
}
use honas.ByteSlice.Words.{IsBytes, words, words-lt}
use honas.ByteSlice.Multiply.{IsWords, mul_loop, mul_loop-IsProduct}
use honas.Bloom.{ffs, readd_entropy, insert_offset, offsets_loop, determine_offsets}
use honas.Bloom.Insertion.{inserted, length-inserted, inserted-Rising, insert_offset_lem}

replicate_snoc : (n : ℕ) (rest : List ℕ) → replicate (suc n) 0 ++ rest ≡ replicate n 0 ++ 0 ∷ rest
replicate_snoc zero rest = refl
replicate_snoc (suc n) rest = ap (◌∷◌ 0) (replicate_snoc n rest)

set-IsWords : (w i v : ℕ) (hash : List ℕ) → IsWords w hash → v < 2 ^ w → IsWords w (set hash i v)
set-IsWords w i v [] h hv = tt
set-IsWords w zero v (x ∷ hash) h hv = (hv, h.1)
set-IsWords w (suc i) v (x ∷ hash) h hv = (h.0, set-IsWords w i v hash h.1 hv)

readd_entropy-IsWords :
    (w bs overflow : ℕ) (hash : List ℕ)
    → IsWords w hash
    → IsWords w (readd_entropy w bs overflow hash)
unfolding readd_entropy
readd_entropy-IsWords w bs overflow hash h = elim (Bool-cases (ltb 1 (ffs w bs))) [
  | inl lost ↦ rw lost (set-IsWords w 0 _ hash h (mod-lt _ (omega (arith, one-le-pow w 2))))
  | inr kept ↦ rw kept h
]

-- The offsets that the loop has found, and the part of the array that it never touches.
pub record Found (hi count : ℕ) (beyond : List ℕ) (offsets : List ℕ) : Type 0 where
  pub found : List ℕ
  pub layout : offsets ≡ found ++ beyond
  pub how_many : length found ≡ count
  pub rising : Rising 0 hi found

insert_behind_zeros :
    (num_bits i hi new : ℕ) (rest beyond : List ℕ)
    → suc i + length rest ≡ num_bits
    → new + length rest < hi
    → hi ≤ 2 ^ 32
    → insert_offset num_bits num_bits i new (replicate (suc i) 0 ++ (rest ++ beyond))
      ≡ replicate i 0 ++ (inserted new rest ++ beyond)
insert_behind_zeros num_bits i hi new rest beyond count small top =
    let zeros : List ℕ = replicate i 0 in
    ap (insert_offset num_bits num_bits i new) (replicate_snoc i (rest ++ beyond))
    ∙ ap₂ (λ n j. insert_offset num_bits n j new (zeros ++ 0 ∷ (rest ++ beyond)))
        (let e : num_bits ≡ length zeros + suc (length rest) =
            omega (arith, length-replicate {A = ℕ} i 0) in
          e)
        (sym (length-replicate {A = ℕ} i 0))
    ∙ insert_offset_lem num_bits hi new 0 zeros rest beyond (omega arith) small top

pub offsets_loop-Found :
    (w num_bits j bs hi : ℕ) (hash rest beyond : List ℕ)
    → IsWords w hash
    → 32 ≤ w
    → hi ≤ 2 ^ 32
    → hi < 2 ^ w
    → j + length rest ≡ num_bits
    → bs + length rest ≡ hi
    → num_bits ≤ hi
    → Rising 0 hi rest
    → Found hi num_bits beyond
        (offsets_loop w num_bits j hash bs (replicate j 0 ++ (rest ++ beyond)))
unfolding offsets_loop
offsets_loop-Found w num_bits zero bs hi hash rest beyond hw wide top fits count range room rise =
    record { found = rest; layout = refl; how_many = omega arith; rising = rise }
offsets_loop-Found w num_bits (suc i) bs hi hash rest beyond hw wide top fits count range room
      rise =
    let m = bs % 2 ^ w in
    let same : m ≡ bs = mod-eq_of_lt (omega arith) in
    let product = mul_loop-IsProduct w m 0 hash hw (omega arith) (omega arith) in
    let overflow = (mul_loop w m 0 hash).1 in
    let new = u32 overflow in
    let small : new + length rest < hi = omega (arith, product.overflow_lt) in
    rw (insert_behind_zeros num_bits i hi new rest beyond count small top) (
      offsets_loop-Found w num_bits i (bs - 1) hi
        (readd_entropy w bs overflow (mul_loop w m 0 hash).0) (inserted new rest) beyond
        (readd_entropy-IsWords w bs overflow _ product.words_fit) wide top fits
        (omega (arith, length-inserted new rest)) (omega (arith, length-inserted new rest)) room
        (inserted-Rising 0 hi new rest rise (omega arith) small))

replicate_split : (n k : ℕ) → k ≤ n → replicate {A = ℕ} n 0 ≡ replicate k 0 ++ replicate (n - k) 0
replicate_split n zero h = ap (λ m. replicate m 0) (omega arith)
replicate_split zero (suc k) h = absurd (omega arith)
replicate_split (suc n) (suc k) h =
    ap (◌∷◌ 0)
      (replicate_split n k (omega arith) ∙ ap (λ m. replicate k 0 ++ replicate m 0) (omega arith))

abbrev pub IsHash : List ℕ → Type 0
IsHash hash = (0 < length hash) × (length hash % 4 ≡ 0) × IsBytes hash

-- The sizes that the assertions of `bloom_determine_offsets` ask for.
abbrev pub IsFilterSize : ℕ → Type 0
IsFilterSize filtersize = (1 ≤ filtersize) × (filtersize < 2 ^ 29)

-- `min len bits` strictly rising offsets below `bits`, the size of the filter in bits; the places
-- of the array behind them hold 0.
abbrev pub IsOffsets : (bits len : ℕ) → List ℕ → Type 0
IsOffsets bits len = Found bits (min len bits) (replicate (len - min len bits) 0)

start-Found :
    (w bits len count : ℕ) (hash : List ℕ)
    → IsWords w hash
    → 32 ≤ w
    → bits < 2 ^ 32
    → bits < 2 ^ w
    → count ≡ min len bits
    → IsOffsets bits len (offsets_loop w count count hash bits (replicate len 0))
start-Found w bits len count hash hw wide top fits e =
    rw (← e, replicate_split len count (omega arith))
      (offsets_loop-Found w count count bits bits hash [] (replicate (len - count) 0) hw wide
        (omega arith) fits (omega arith) (omega arith) (omega arith) tt)

-- For a legal filter size, at least one offset to fill and a hash of whole 32-bit words: the
-- assertions hold, and the array is filled with strictly rising offsets inside the filter, as many
-- as are asked for or as there are bits, and with 0 behind them.
pub determine_offsets-IsOffsets :
    (len filtersize : ℕ) (hash : List ℕ)
    → 1 ≤ len
    → IsFilterSize filtersize
    → IsHash hash
    → (offsets : List ℕ) × (determine_offsets len filtersize hash ≡ some offsets)
      × IsOffsets (filtersize * 8) len offsets
unfolding determine_offsets
determine_offsets-IsOffsets len filtersize hash some_bits size is_hash =
    let bits = filtersize * 8 in
    let count = if ltb bits len then bits else len in
    let least : count ≡ min len bits = ground arith in
    let zeros : List ℕ = replicate len 0 in
    let hash64 = words 8 (length hash / 8) hash in
    let hash32 = words 4 (length hash / 4) hash in
    elim (Bool-cases (length hash % 8 == 0)) [
      | inl wide ↦ (
        offsets_loop 64 count count hash64 bits zeros,
        rw (
          le→leb 1 filtersize size.0,
          lt→ltb filtersize (2 ^ 29) size.1,
          le→leb 1 len some_bits,
          lt→ltb 0 (length hash) is_hash.0,
          wide,
        ),
        start-Found 64 bits len count hash64 (words-lt 8 (length hash / 8) hash is_hash.2)
            (omega arith) (omega arith) (omega arith) least,
      )
      | inr narrow ↦ (
        offsets_loop 32 count count hash32 bits zeros,
        rw (
          le→leb 1 filtersize size.0,
          lt→ltb filtersize (2 ^ 29) size.1,
          le→leb 1 len some_bits,
          lt→ltb 0 (length hash) is_hash.0,
          narrow,
          is_hash.1,
        ),
        start-Found 32 bits len count hash32 (words-lt 4 (length hash / 4) hash is_hash.2)
            (omega arith) (omega arith) (omega arith) least,
      )
    ]
