-- ===== src/Search/Hex.antt =====
-- Bytes that are written as two hexadecimal digits each are decoded.
use honas.Common.{
  ℕ, ◌+◌, ◌-◌, ◌*◌, ◌/◌, ◌%◌, ◌^◌, ◌<◌, ◌≡◌, refl, ap₂, ◌∙◌, arith, Bool, true, false, List, [],
  ◌∷◌, some, ltb, max, ◌==◌, ==_self, if◌then◌else◌, bit_or, length,
}
use honas.Bits.{bit_ext, bit-bit_or, bit_zero}
use honas.Bits.Digitwise.{or-IsBitwise, op-lt, op_split}
use honas.ByteSlice.Words.{IsBytes}
use honas.Search.{decode_nibble, decode_pairs, decode_string_hex}

-- The digit of a number below 16, in small or in capital letters.
digit : (capital : Bool) → ℕ → ℕ
digit capital n =
    if ltb n 10 then b'0' + n else (if capital then b'A' + (n - 10) else b'a' + (n - 10))

pub encode_hex : (capital : Bool) → List ℕ → List ℕ
unfolding digit
encode_hex capital [] = []
encode_hex capital (b ∷ bytes) =
    digit capital (b / 16) ∷ digit capital (b % 16) ∷ encode_hex capital bytes

decode_nibble-digit : (capital : Bool) (n : ℕ) → n < 16 → decode_nibble (digit capital n) ≡ some n
unfolding decode_nibble digit
decode_nibble-digit true n h = ground arith
decode_nibble-digit false n h = ground arith

length-encode_hex :
    (capital : Bool) (bytes : List ℕ) → length (encode_hex capital bytes) ≡ length bytes * 2
unfolding encode_hex
length-encode_hex capital [] = refl
length-encode_hex capital (b ∷ bytes) = omega (arith, length-encode_hex capital bytes)

or_zero : (a : ℕ) → a < 2 ^ 4 → bit_or a 0 ≡ a
or_zero a h =
    bit_ext 4 (bit_or a 0) a (op-lt bit_or max or-IsBitwise 4 a 0 h (omega arith)) h
      (λ k. omega (arith, bit-bit_or a 0 k, bit_zero k))

zero_or : (a : ℕ) → a < 2 ^ 4 → bit_or 0 a ≡ a
zero_or a h =
    bit_ext 4 (bit_or 0 a) a (op-lt bit_or max or-IsBitwise 4 0 a (omega arith) h) h
      (λ k. omega (arith, bit-bit_or 0 a k, bit_zero k))

-- `(high << 4) | low`.
join_nibbles : (b : ℕ) → b < 256 → bit_or (b / 16 * 2 ^ 4) (b % 16) ≡ b
join_nibbles b h =
    let high : b / 16 * 2 ^ 4 ≡ 0 + 2 ^ 4 * (b / 16) = omega arith in
    let low : b % 16 ≡ b % 16 + 2 ^ 4 * 0 = omega arith in
    ap₂ bit_or high low
    ∙ op_split bit_or max or-IsBitwise 4 0 (b % 16) (b / 16) 0 (omega arith) (omega arith)
    ∙ omega (arith, or_zero (b / 16) (omega arith), zero_or (b % 16) (omega arith))

decode_pairs-encode_hex :
    (capital : Bool) (bytes : List ℕ)
    → IsBytes bytes
    → decode_pairs (length bytes) (encode_hex capital bytes) ≡ some bytes
unfolding decode_pairs encode_hex
decode_pairs-encode_hex capital [] h = refl
decode_pairs-encode_hex capital (b ∷ bytes) h =
    rw
      (
        decode_nibble-digit capital (b / 16) (omega (arith, h.0)),
        decode_nibble-digit capital (b % 16) (omega arith),
        decode_pairs-encode_hex capital bytes h.1,
        join_nibbles b h.0,
      )
      refl

-- The hexadecimal digits of bytes, two for each byte and in small or in capital letters, are
-- decoded to the bytes.
pub decode_string_hex-encode_hex :
    (capital : Bool) (bytes : List ℕ)
    → IsBytes bytes
    → decode_string_hex (encode_hex capital bytes) (length bytes) ≡ some bytes
unfolding decode_string_hex
decode_string_hex-encode_hex capital bytes h =
    let even : (length (encode_hex capital bytes) == length bytes * 2) ≡ true =
      rw (length-encode_hex capital bytes) (==_self (length bytes * 2)) in
    rw (even, decode_pairs-encode_hex capital bytes h) refl
