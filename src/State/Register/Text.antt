-- ===== src/State/Register/Text.antt =====
-- The C string functions that `honas_state_register_host_name_lookup` calls, on lists of bytes.
use honas.Common.{ℕ, ◌+◌, ◌&&◌, List, [], ◌∷◌, Option, none, some, leb, ◌==◌, if◌then◌else◌, ◌>>=◌}

-- The bytes before the terminator, which is there behind the buffer's last byte.
unfoldable pub c_string : List ℕ → List ℕ
c_string [] = []
c_string (c ∷ rest) = if c == 0 then [] else c ∷ c_string rest

-- `tolower` in the C locale.
unfoldable pub tolower : ℕ → ℕ
tolower c = if leb b'A' c && leb c b'Z' then c + 32 else c

-- `memchr(part, '.', …)`: the bytes before the first '.', and those behind it.
unfoldable pub memchr_dot : List ℕ → Option (List ℕ × List ℕ)
memchr_dot [] = none
memchr_dot (c ∷ rest) =
    if c == b'.'
    then some ([], rest)
    else (do (label, next) ← memchr_dot rest; some (c ∷ label, next))

-- `if (host_name[host_name_length - 1] == '.') host_name_length--;`, which reads out of bounds for
-- the empty name.
unfoldable pub strip_trailing_dot : List ℕ → Option (List ℕ)
strip_trailing_dot [] = none
strip_trailing_dot (c ∷ []) = some (if c == b'.' then [] else c ∷ [])
strip_trailing_dot (c ∷ d ∷ rest) = do rest' ← strip_trailing_dot (d ∷ rest); some (c ∷ rest')
