-- ===== src/State/Memory.antt =====
-- Slices of the mapped file: reading one, writing one back, and what that does to the others.
use honas.ByteSlice.Words.{IsBytes}
use honas.Common.{
  ℕ, zero, suc, ◌+◌, ◌<◌, ◌≤◌, ◌≡◌, refl, ap, ap₂, ◌∙◌, arith, List, [], ◌∷◌, ◌++◌, ◌⊎◌, inl,
  length, get_or, set, length-set, get_or-set_self, get_or-set_ne,
}

pub read : (begin len : ℕ) → List ℕ → List ℕ
read begin zero mem = []
read begin (suc len) mem = get_or mem begin 0 ∷ read (suc begin) len mem

pub write : (begin : ℕ) → List ℕ → List ℕ → List ℕ
write begin [] mem = mem
write begin (b ∷ bytes) mem = write (suc begin) bytes (set mem begin b)

pub length-read : (begin len : ℕ) (mem : List ℕ) → length (read begin len mem) ≡ len
unfolding read
length-read begin zero mem = refl
length-read begin (suc len) mem = ap suc (length-read (suc begin) len mem)

pub length-write : (begin : ℕ) (bytes mem : List ℕ) → length (write begin bytes mem) ≡ length mem
unfolding write
length-write begin [] mem = refl
length-write begin (b ∷ bytes) mem =
    length-write (suc begin) bytes (set mem begin b) ∙ length-set mem begin b

write_outside :
    (begin : ℕ) (bytes mem : List ℕ) (i : ℕ)
    → (i < begin) ⊎ (begin + length bytes ≤ i)
    → get_or (write begin bytes mem) i 0 ≡ get_or mem i 0
unfolding write
write_outside begin [] mem i h = refl
write_outside begin (b ∷ bytes) mem i h =
    write_outside (suc begin) bytes (set mem begin b) i (omega arith)
    ∙ get_or-set_ne mem begin i b 0 (omega arith)

-- What has been written is read back.
pub read-write :
    (begin : ℕ) (bytes mem : List ℕ)
    → begin + length bytes ≤ length mem
    → read begin (length bytes) (write begin bytes mem) ≡ bytes
unfolding read write
read-write begin [] mem h = refl
read-write begin (b ∷ bytes) mem h =
    ap₂ ◌∷◌
      (write_outside (suc begin) bytes (set mem begin b) begin (inl (omega arith))
        ∙ get_or-set_self mem begin b 0 (omega arith))
      (read-write (suc begin) bytes (set mem begin b) (rw length-set (omega arith)))

-- A slice apart from the one written is read as before.
pub read-write_apart :
    (begin begin' len : ℕ) (bytes mem : List ℕ)
    → (begin' + len ≤ begin) ⊎ (begin + length bytes ≤ begin')
    → read begin' len (write begin bytes mem) ≡ read begin' len mem
unfolding read
read-write_apart begin begin' zero bytes mem h = refl
read-write_apart begin begin' (suc len) bytes mem h =
    ap₂ ◌∷◌ (write_outside begin bytes mem begin' (omega arith))
      (read-write_apart begin (suc begin') len bytes mem (omega arith))

get_or-lt : (mem : List ℕ) (i : ℕ) → IsBytes mem → get_or mem i 0 < 256
get_or-lt [] i h = omega arith
get_or-lt (x ∷ mem) zero h = h.0
get_or-lt (x ∷ mem) (suc i) h = get_or-lt mem i h.1

pub read-IsBytes : (begin len : ℕ) (mem : List ℕ) → IsBytes mem → IsBytes (read begin len mem)
unfolding read
read-IsBytes begin zero mem h = tt
read-IsBytes begin (suc len) mem h = (get_or-lt mem begin h, read-IsBytes (suc begin) len mem h)

set-IsBytes : (mem : List ℕ) (i b : ℕ) → IsBytes mem → b < 256 → IsBytes (set mem i b)
set-IsBytes [] i b h k = tt
set-IsBytes (x ∷ mem) zero b h k = (k, h.1)
set-IsBytes (x ∷ mem) (suc i) b h k = (h.0, set-IsBytes mem i b h.1 k)

pub write-IsBytes :
    (begin : ℕ) (bytes mem : List ℕ) → IsBytes bytes → IsBytes mem → IsBytes (write begin bytes mem)
unfolding write
write-IsBytes begin [] mem h k = k
write-IsBytes begin (b ∷ bytes) mem h k =
    write-IsBytes (suc begin) bytes (set mem begin b) h.1 (set-IsBytes mem begin b k h.0)

get_or-append_skip : (xs ys : List ℕ) (k : ℕ) → get_or (xs ++ ys) (length xs + k) 0 ≡ get_or ys k 0
get_or-append_skip [] ys k = ap (λ i. get_or ys i 0) (omega arith)
get_or-append_skip (x ∷ xs) ys k =
    let next : length (x ∷ xs) + k ≡ suc (length xs + k) = omega arith in
    rw next (get_or-append_skip xs ys k)

get_or-append_inside :
    (xs ys : List ℕ) (i : ℕ) → i < length xs → get_or (xs ++ ys) i 0 ≡ get_or xs i 0
get_or-append_inside [] ys i h = absurd (omega arith)
get_or-append_inside (x ∷ xs) ys zero h = refl
get_or-append_inside (x ∷ xs) ys (suc i) h = get_or-append_inside xs ys i (omega arith)

-- Two memories with the same bytes in a slice.
pub read_ext :
    (begin begin' len : ℕ) (mem mem' : List ℕ)
    → ((i : ℕ) → i < len → get_or mem (begin + i) 0 ≡ get_or mem' (begin' + i) 0)
    → read begin len mem ≡ read begin' len mem'
unfolding read
read_ext begin begin' zero mem mem' h = refl
read_ext begin begin' (suc len) mem mem' h =
    ap₂ ◌∷◌
      (ap (λ i. get_or mem i 0) (omega arith)
        ∙ h 0 (omega arith)
        ∙ ap (λ i. get_or mem' i 0) (omega arith))
      (read_ext (suc begin) (suc begin') len mem mem' (λ i lt.
        ap (λ k. get_or mem k 0) (omega arith)
        ∙ h (suc i) (omega arith)
        ∙ ap (λ k. get_or mem' k 0) (omega arith)))

pub read-append_skip :
    (xs ys : List ℕ) (k len : ℕ) → read (length xs + k) len (xs ++ ys) ≡ read k len ys
read-append_skip xs ys k len =
    read_ext (length xs + k) k len (xs ++ ys) ys
      (λ i lt. ap (λ j. get_or (xs ++ ys) j 0) (omega arith) ∙ get_or-append_skip xs ys (k + i))

read_all : (xs : List ℕ) → read 0 (length xs) xs ≡ xs
unfolding read
read_all [] = refl
read_all (x ∷ xs) =
    ap (◌∷◌ x) (read_ext 1 0 (length xs) (x ∷ xs) xs (λ i lt. shift i) ∙ read_all xs)
  where
    shift : (i : ℕ) → get_or (x ∷ xs) (1 + i) 0 ≡ get_or xs (0 + i) 0
    shift i =
        let left : 1 + i ≡ suc i = omega arith in
        let right : 0 + i ≡ i = omega arith in rw (left, right) refl

pub read-append_here : (xs ys : List ℕ) → read 0 (length xs) (xs ++ ys) ≡ xs
read-append_here xs ys =
    read_ext 0 0 (length xs) (xs ++ ys) xs (λ i lt.
      ap (λ j. get_or (xs ++ ys) j 0) (omega arith)
      ∙ get_or-append_inside xs ys i lt
      ∙ ap (λ j. get_or xs j 0) (omega arith))
    ∙ read_all xs

write_inside :
    (begin i : ℕ) (bytes mem : List ℕ)
    → begin + length bytes ≤ length mem
    → i < length bytes
    → get_or (write begin bytes mem) (begin + i) 0 ≡ get_or bytes i 0
unfolding write
write_inside begin i [] mem fits h = absurd (omega arith)
write_inside begin zero (b ∷ bytes) mem fits h =
    ap (λ k. get_or (write (suc begin) bytes (set mem begin b)) k 0) (omega arith)
    ∙ write_outside (suc begin) bytes (set mem begin b) begin (inl (omega arith))
    ∙ get_or-set_self mem begin b 0 (omega arith)
write_inside begin (suc i) (b ∷ bytes) mem fits h =
    ap (λ k. get_or (write (suc begin) bytes (set mem begin b)) k 0) (omega arith)
    ∙ write_inside (suc begin) i bytes (set mem begin b) (rw length-set (omega arith)) (omega arith)

-- A part of what has been written is read back.
pub read-write_part :
    (begin k len : ℕ) (bytes mem : List ℕ)
    → begin + length bytes ≤ length mem
    → k + len ≤ length bytes
    → read (begin + k) len (write begin bytes mem) ≡ read k len bytes
read-write_part begin k len bytes mem fits part =
    read_ext (begin + k) k len (write begin bytes mem) bytes (λ i lt.
      ap (λ j. get_or (write begin bytes mem) j 0) (omega arith)
      ∙ write_inside begin (k + i) bytes mem fits (omega arith))
