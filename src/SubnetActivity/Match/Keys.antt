-- ===== src/SubnetActivity/Match/Keys.antt =====
-- The keys that `subnet_activity_match_prefix` looks up: for IPv4 the network of the address, for
-- IPv6 what the low bits of each byte leave of it.
use native.Mathlib.Nat.{div-mul-le_self}
use mathlib.Core.Path.{subst}
use honas.Common.{
  ℕ, zero, suc, ◌-◌, ◌^◌, ◌≤◌, ◌≡◌, refl, sym, ap, ap₂, ◌∙◌, arith, List, [], ◌∷◌, some, min,
  bit_and, length, lt→ltb,
}
use honas.Bits.Digitwise.{and-IsBitwise, op_split, op-lt}
use honas.ByteSlice.Words.{load, store, IsBytes, store-load}
use honas.Inet.{addr4, addr6}
use honas.SubnetActivity.Masks.Network.{
  network_from, network, low_bits_from, low_bits, ones, ipv4_mask, ipv6_mask, network_byte,
  low_bits_byte, bits_of_byte,
}
use honas.SubnetActivity.Match.{and_bytes, ipv4_key, ipv6_key}

length-and_bytes : (xs ys : List ℕ) → length xs ≡ length ys → length (and_bytes xs ys) ≡ length xs
unfolding and_bytes
length-and_bytes [] ys e = refl
length-and_bytes (x ∷ xs) [] e = absurd (omega arith)
length-and_bytes (x ∷ xs) (y ∷ ys) e = ap suc (length-and_bytes xs ys (omega arith))

and_bytes-IsBytes : (xs ys : List ℕ) → IsBytes xs → IsBytes ys → IsBytes (and_bytes xs ys)
unfolding and_bytes
and_bytes-IsBytes [] ys hx hy = tt
and_bytes-IsBytes (x ∷ xs) [] hx hy = tt
and_bytes-IsBytes (x ∷ xs) (y ∷ ys) hx hy =
    (op-lt bit_and min and-IsBitwise 8 x y hx.0 hy.0, and_bytes-IsBytes xs ys hx.1 hy.1)

-- `&` of two words is `&` of their bytes.
bit_and-load :
    (xs ys : List ℕ)
    → IsBytes xs
    → IsBytes ys
    → length xs ≡ length ys
    → bit_and (load xs) (load ys) ≡ load (and_bytes xs ys)
unfolding and_bytes load
bit_and-load [] [] hx hy e = refl
bit_and-load [] (y ∷ ys) hx hy e = absurd (omega arith)
bit_and-load (x ∷ xs) [] hx hy e = absurd (omega arith)
bit_and-load (x ∷ xs) (y ∷ ys) hx hy e =
    op_split bit_and min and-IsBitwise 8 x y (load xs) (load ys) hx.0 hy.0
    ∙ omega (arith, bit_and-load xs ys hx.1 hy.1 (omega arith))

and_bytes-network :
    (bytes : List ℕ) (j n : ℕ)
    → IsBytes bytes
    → and_bytes bytes (network_from j n (ones (length bytes))) ≡ network_from j n bytes
unfolding and_bytes
and_bytes-network [] j n h = refl
and_bytes-network (b ∷ bytes) j n h =
    ap₂ ◌∷◌ (network_byte n j b h.0) (and_bytes-network bytes (suc j) n h.1)

and_bytes-low_bits :
    (bytes : List ℕ) (j n : ℕ)
    → and_bytes bytes (low_bits_from j n (ones (length bytes))) ≡ low_bits_from j n bytes
unfolding and_bytes
and_bytes-low_bits [] j n = refl
and_bytes-low_bits (b ∷ bytes) j n =
    ap₂ ◌∷◌ (low_bits_byte n j b) (and_bytes-low_bits bytes (suc j) n)

network-IsBytes : (bytes : List ℕ) (j n : ℕ) → IsBytes bytes → IsBytes (network_from j n bytes)
network-IsBytes [] j n h = tt
network-IsBytes (b ∷ bytes) j n h = (
  omega (arith, h.0, div-mul-le_self b (2 ^ (8 - bits_of_byte n j))),
  network-IsBytes bytes (suc j) n h.1,
)

length-network : (bytes : List ℕ) (j n : ℕ) → length (network_from j n bytes) ≡ length bytes
length-network [] j n = refl
length-network (b ∷ bytes) j n = ap suc (length-network bytes (suc j) n)

ones-IsBytes : (count : ℕ) → IsBytes (ones count)
ones-IsBytes zero = tt
ones-IsBytes (suc count) = (omega arith, ones-IsBytes count)

length-ones : (count : ℕ) → length (ones count) ≡ count
length-ones zero = refl
length-ones (suc count) = ap suc (length-ones count)

network_word :
    (bytes : List ℕ) (n : ℕ)
    → IsBytes bytes
    → store (length bytes) (bit_and (load bytes) (load (network n (ones (length bytes)))))
      ≡ network n bytes
network_word bytes n h =
    let mask = network n (ones (length bytes)) in
    let mask-IsBytes = network-IsBytes (ones (length bytes)) 0 n (ones-IsBytes (length bytes)) in
    let same : length bytes ≡ length mask =
      sym (length-network (ones (length bytes)) 0 n ∙ length-ones (length bytes)) in
    ap (store (length bytes)) (bit_and-load bytes mask h mask-IsBytes same)
    ∙ ap (λ k. store k (load (and_bytes bytes mask))) (sym (length-and_bytes bytes mask same))
    ∙ store-load (and_bytes bytes mask) (and_bytes-IsBytes bytes mask h mask-IsBytes)
    ∙ and_bytes-network bytes 0 n h

-- The key of length `n`: the network of the address.
pub ipv4_key_lem :
    (bytes : List ℕ) (n : ℕ)
    → IsBytes bytes
    → length bytes ≡ 4
    → n ≤ 32
    → ipv4_key bytes n ≡ some (record { address = addr4 (network n bytes); length = n })
unfolding ipv4_key
ipv4_key_lem bytes n h four small =
    let word =
      subst (λ k. store k (bit_and (load bytes) (load (network n (ones k)))) ≡ network n bytes) four
        (network_word bytes n h) in
    rw (ipv4_mask n small) (ap (λ b. some (record { address = addr4 b; length = n })) word)

pub ipv6_key_lem :
    (bytes : List ℕ) (n : ℕ)
    → length bytes ≡ 16
    → 1 ≤ n
    → n ≤ 128
    → ipv6_key bytes n ≡ some (record { address = addr6 (low_bits n bytes); length = n })
unfolding ipv6_key
ipv6_key_lem bytes zero sixteen low high = absurd (omega arith)
ipv6_key_lem bytes (suc n) sixteen low high =
    let anded =
      subst (λ k. and_bytes bytes (low_bits (suc n) (ones k)) ≡ low_bits (suc n) bytes) sixteen
        (and_bytes-low_bits bytes 0 (suc n)) in
    let before : suc n - 1 ≡ n = omega arith in
    rw (lt→ltb 0 (suc n) (omega arith), before, ipv6_mask n (omega arith))
      (ap (λ b. some (record { address = addr6 b; length = suc n })) anded)
