-- ===== src/ByteSlice/Merge.antt =====
-- `byte_slice_bitwise_or` and `byte_slice_bitwise_and` of src/byte_slice.c: bytes up to the first
-- aligned address, machine words from there, and the bytes that are left.
pub mod Bits
use honas.Common.{
  ℕ, zero, suc, ◌+◌, ◌-◌, ◌*◌, ◌/◌, ◌%◌, ◌^◌, ◌<◌, ◌≤◌, ◌≡◌, refl, sym, ap, ap₂, ◌∙◌, arith, List,
  [], ◌∷◌, ◌++◌, ltb, leb, ◌==◌, if◌then◌else◌, Bool-cases, inl, inr, length, take, drop, bit_and,
  bit_or, min, max, Option, some, none, require, ◌>>=◌, ◌>>◌, ltb→lt, ==_self,
}
use honas.Bits.Digitwise.{IsBitwise, or-IsBitwise, and-IsBitwise, op-lt, op_split, bit_and_mask}
use honas.ByteSlice.Words.{load, store, IsBytes, drop-IsBytes}

-- `_opt_align_begin` and `_opt_align_end` for a type of eight bytes, on addresses of 64 bits.
pub align_begin : ℕ → ℕ
align_begin address = bit_and (address + 8 - 1) (2 ^ 64 - 8)

pub align_end : ℕ → ℕ
align_end address = bit_and address (2 ^ 64 - 8)

-- The rounds of a loop that moves on by a byte, and what comes after it. A round with no byte to
-- work on does not arise.
pub merge_bytes :
    (op : ℕ → ℕ → ℕ) (rounds : ℕ) (next : List ℕ → List ℕ → List ℕ) → List ℕ → List ℕ → List ℕ
merge_bytes op zero next target other = next target other
merge_bytes op (suc rounds) next [] other = []
merge_bytes op (suc rounds) next (t ∷ target) [] = t ∷ target
merge_bytes op (suc rounds) next (t ∷ target) (o ∷ other) =
    op t o ∷ merge_bytes op rounds next target other

-- The same for a loop that moves on by a word.
pub merge_words :
    (op : ℕ → ℕ → ℕ) (rounds : ℕ) (next : List ℕ → List ℕ → List ℕ) → List ℕ → List ℕ → List ℕ
merge_words op zero next target other = next target other
merge_words op (suc rounds) next target other =
    store 8 (op (load (take 8 target)) (load (take 8 other)))
    ++ merge_words op rounds next (drop 8 target) (drop 8 other)

pub stop : List ℕ → List ℕ → List ℕ
stop target other = target

pub bitwise :
    (op : ℕ → ℕ → ℕ) (target_address other_address : ℕ) → List ℕ → List ℕ → Option (List ℕ)
unfolding merge_bytes merge_words stop align_begin align_end
bitwise op target_address other_address target other = do
  require (target_address % 8 == other_address % 8)
  let len = if leb (length target) (length other) then length target else length other
  let tgt_end = target_address + len
  let opt_begin = align_begin target_address
  let opt_end = align_end tgt_end
  let by_words =
      merge_bytes op (opt_begin - target_address)
        (merge_words op ((opt_end - opt_begin) / 8) (merge_bytes op (tgt_end - opt_end) stop))
        target other
  some (if ltb (8 * 2) len then by_words else merge_bytes op len stop target other)

pub bitwise_or : (target_address other_address : ℕ) → List ℕ → List ℕ → Option (List ℕ)
unfolding bitwise
bitwise_or target_address other_address target other =
    bitwise bit_or target_address other_address target other

pub bitwise_and : (target_address other_address : ℕ) → List ℕ → List ℕ → Option (List ℕ)
unfolding bitwise
bitwise_and target_address other_address target other =
    bitwise bit_and target_address other_address target other

-- What the loops compute: `op` on the bytes that both have, and the rest of the target as it is.
pub merged : (ℕ → ℕ → ℕ) → List ℕ → List ℕ → List ℕ
merged op [] other = []
merged op (t ∷ target) [] = t ∷ target
merged op (t ∷ target) (o ∷ other) = op t o ∷ merged op target other

-- `next` is right on what is left of `ts` and `os` after `n` bytes.
abbrev Continues :
    (op : ℕ → ℕ → ℕ) (n : ℕ) (next : List ℕ → List ℕ → List ℕ) (ts os : List ℕ) → Type 0
Continues op n next ts os =
    (ts' os' : List ℕ)
    → length ts' + n ≡ length ts
    → length os' + n ≡ length os
    → IsBytes ts'
    → IsBytes os'
    → next ts' os' ≡ merged op ts' os'

merge_bytes_next :
    (op : ℕ → ℕ → ℕ) (n : ℕ) (next : List ℕ → List ℕ → List ℕ) (ts os : List ℕ)
    → n ≤ length ts
    → n ≤ length os
    → IsBytes ts
    → IsBytes os
    → Continues op n next ts os
    → merge_bytes op n next ts os ≡ merged op ts os
unfolding merge_bytes merged
merge_bytes_next op zero next ts os ht ho bt bo e = e ts os (omega arith) (omega arith) bt bo
merge_bytes_next op (suc n) next [] os ht ho bt bo e = absurd (omega arith)
merge_bytes_next op (suc n) next (t ∷ ts) [] ht ho bt bo e = absurd (omega arith)
merge_bytes_next op (suc n) next (t ∷ ts) (o ∷ os) ht ho bt bo e = ap (◌∷◌ (op t o)) (
    merge_bytes_next op n next ts os (omega arith) (omega arith) bt.1 bo.1
      (λ ts' os' p q. e ts' os' (omega arith) (omega arith)))

merge_bytes_last :
    (op : ℕ → ℕ → ℕ) (n : ℕ) (ts os : List ℕ)
    → n ≡ min (length ts) (length os)
    → merge_bytes op n stop ts os ≡ merged op ts os
unfolding merge_bytes merged stop
merge_bytes_last op zero [] os e = refl
merge_bytes_last op zero (t ∷ ts) [] e = refl
merge_bytes_last op zero (t ∷ ts) (o ∷ os) e = absurd (omega arith)
merge_bytes_last op (suc n) [] os e = refl
merge_bytes_last op (suc n) (t ∷ ts) [] e = refl
merge_bytes_last op (suc n) (t ∷ ts) (o ∷ os) e =
    ap (◌∷◌ (op t o)) (merge_bytes_last op n ts os (omega arith))

merged-take-drop :
    (op : ℕ → ℕ → ℕ) (n : ℕ) (ts os : List ℕ)
    → n ≤ length ts
    → n ≤ length os
    → merged op ts os ≡ merged op (take n ts) (take n os) ++ merged op (drop n ts) (drop n os)
unfolding merged
merged-take-drop op zero ts os ht ho = refl
merged-take-drop op (suc n) [] os ht ho = absurd (omega arith)
merged-take-drop op (suc n) (t ∷ ts) [] ht ho = absurd (omega arith)
merged-take-drop op (suc n) (t ∷ ts) (o ∷ os) ht ho =
    ap (◌∷◌ (op t o)) (merged-take-drop op n ts os (omega arith) (omega arith))

pub length-drop : (n : ℕ) (xs : List ℕ) → length (drop n xs) ≡ length xs - n
length-drop zero xs = omega arith
length-drop (suc n) [] = omega arith
length-drop (suc n) (x ∷ xs) = omega (arith, length-drop n xs)

pub align_end-eq : (v : ℕ) → v < 2 ^ 64 → align_end v ≡ 8 * (v / 8)
unfolding align_end
align_end-eq v h =
    ap (λ n. bit_and n (2 ^ 64 - 8)) (omega arith)
    ∙ op_split bit_and min and-IsBitwise 3 (v % 8) 0 (v / 8) (2 ^ 61 - 1) (omega arith)
        (omega arith)
    ∙ omega (arith, bit_and_mask 61 (v / 8), bit_and_mask 0 (v % 8))

pub align_begin-eq : (v : ℕ) → v + 7 < 2 ^ 64 → align_begin v ≡ 8 * ((v + 7) / 8)
unfolding align_begin
align_begin-eq v h =
    ap (λ n. bit_and n (2 ^ 64 - 8)) (let e : v + 8 - 1 ≡ v + 7 = omega arith in e)
    ∙ unfold align_end in align_end-eq (v + 7) h

module _ (op digit : ℕ → ℕ → ℕ) (digitwise : IsBitwise op digit) where
  -- A word is worked on byte by byte.
  store-op :
      (n : ℕ) (ts os : List ℕ)
      → n ≤ length ts
      → n ≤ length os
      → IsBytes ts
      → IsBytes os
      → store n (op (load (take n ts)) (load (take n os))) ≡ merged op (take n ts) (take n os)
  unfolding merged load store
  store-op zero ts os ht ho bt bo = refl
  store-op (suc n) [] os ht ho bt bo = absurd (omega arith)
  store-op (suc n) (t ∷ ts) [] ht ho bt bo = absurd (omega arith)
  store-op (suc n) (t ∷ ts) (o ∷ os) ht ho bt bo =
      let ts' = load (take n ts) in
      let os' = load (take n os) in
      let parts : op (t + 256 * ts') (o + 256 * os') ≡ op t o + 256 * op ts' os' =
        op_split op digit digitwise 8 t o ts' os' bt.0 bo.0 in
      let low : op t o < 256 = op-lt op digit digitwise 8 t o bt.0 bo.0 in
      rw parts (
        ap₂ ◌∷◌ (omega (arith, low)) (
          ap (store n) (omega (arith, low))
          ∙ store-op n ts os (omega arith) (omega arith) bt.1 bo.1))

  merge_words_next :
      (n : ℕ) (next : List ℕ → List ℕ → List ℕ) (ts os : List ℕ)
      → 8 * n ≤ length ts
      → 8 * n ≤ length os
      → IsBytes ts
      → IsBytes os
      → Continues op (8 * n) next ts os
      → merge_words op n next ts os ≡ merged op ts os
  unfolding merge_words
  merge_words_next zero next ts os ht ho bt bo e = e ts os (omega arith) (omega arith) bt bo
  merge_words_next (suc n) next ts os ht ho bt bo e =
      ap₂ ◌++◌ (store-op 8 ts os (omega arith) (omega arith) bt bo) (
        merge_words_next n next (drop 8 ts) (drop 8 os) (omega (arith, length-drop 8 ts))
          (omega (arith, length-drop 8 os)) (drop-IsBytes 8 ts bt) (drop-IsBytes 8 os bo)
          (λ ts' os' p q.
            e ts' os' (omega (arith, length-drop 8 ts)) (omega (arith, length-drop 8 os))))
      ∙ sym (merged-take-drop op 8 ts os (omega arith) (omega arith))

  by_words_lem :
      (a len first last : ℕ) (ts os : List ℕ)
      → len ≡ min (length ts) (length os)
      → 16 < len
      → first ≡ 8 * ((a + 7) / 8)
      → last ≡ 8 * ((a + len) / 8)
      → IsBytes ts
      → IsBytes os
      → merge_bytes op
          (first - a)
          (merge_words op ((last - first) / 8) (merge_bytes op (a + len - last) stop))
          ts
          os
        ≡ merged op ts os
  by_words_lem a len first last ts os least long begins ends bt bo =
      merge_bytes_next op (first - a) _ ts os (omega arith) (omega arith) bt bo
        λ ts' os' p q bt' bo'.
          merge_words_next ((last - first) / 8) _ ts' os' (omega arith) (omega arith) bt' bo'
            λ ts'' os'' p' q' _ _. merge_bytes_last op (a + len - last) ts'' os'' (omega arith)

  -- Whatever the alignment, if it is the same for both: the bytes that both slices have are worked
  -- on one by one, and the rest of the target stays.
  pub bitwise_lem :
      (target_address other_address : ℕ) (ts os : List ℕ)
      → target_address % 8 ≡ other_address % 8
      → target_address + length ts + 8 ≤ 2 ^ 64
      → IsBytes ts
      → IsBytes os
      → bitwise op target_address other_address ts os ≡ some (merged op ts os)
  unfolding bitwise
  bitwise_lem a b ts os same fits bt bo =
      let len = if leb (length ts) (length os) then length ts else length os in
      let least : len ≡ min (length ts) (length os) = ground arith in
      elim (Bool-cases (ltb (8 * 2) len)) [
        | inl long ↦
            rw (same, ==_self, long)
              (ap some (
                by_words_lem a len (align_begin a) (align_end (a + len)) ts os least
                  (ltb→lt 16 len long) (align_begin-eq a (omega arith))
                  (align_end-eq (a + len) (omega arith)) bt bo))
        | inr short ↦
            rw (same, ==_self (b % 8), short) (ap some (merge_bytes_last op len ts os least))
      ]
