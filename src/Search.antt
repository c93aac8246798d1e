-- ===== src/Search.antt =====
-- src/bin/honas_search.c: the hexadecimal digests of a job.
pub mod Hex
pub mod Context
pub mod Job
mod Examples
use honas.Common.{
  ℕ, zero, suc, ◌+◌, ◌-◌, ◌*◌, ◌≡◌, refl, ◌&&◌, List, [], ◌∷◌, Option, none, some, leb, ◌==◌,
  if◌then◌else◌, bit_or, ◌<<<◌, length, require, ◌>>=◌, ◌>>◌,
}

unfoldable pub decode_nibble : ℕ → Option ℕ
decode_nibble c =
    if leb b'0' c && leb c b'9'
    then some (c - b'0')
    else (if leb b'A' c && leb c b'F'
        then some (c - b'A' + 10)
        else (if leb b'a' c && leb c b'f' then some (c - b'a' + 10) else none))

-- The loop, with `rounds` bytes left; the length has been tested.
unfoldable pub decode_pairs : (rounds : ℕ) → List ℕ → Option (List ℕ)
unfolding decode_nibble
decode_pairs zero str = some []
decode_pairs (suc rounds) [] = none
decode_pairs (suc rounds) (c ∷ []) = none
decode_pairs (suc rounds) (c ∷ d ∷ str) = do
  high ← decode_nibble c
  low ← decode_nibble d
  rest ← decode_pairs rounds str
  some (bit_or (high <<< 4) low ∷ rest)

unfoldable pub decode_string_hex : List ℕ → (declen : ℕ) → Option (List ℕ)
unfolding decode_pairs
decode_string_hex str declen = do require (length str == declen * 2); decode_pairs declen str
