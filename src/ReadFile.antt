-- ===== src/ReadFile.antt =====
-- src/read_file.c: a file that is read line by line, with its compressed kinds. What `open`, `pipe`
-- with `fork` and `execve`, `read` and `waitpid` return is a parameter. A handler of lines that
-- ends the process is `none`, and so is a loop that has used its fuel. Line numbers do not wrap: a
-- file has fewer than 2 ^ 31 lines.
pub mod Lines
pub mod Passed
pub mod Whole
pub mod Folds
pub mod Stops
pub mod Examples
use honas.Common.{
  ℕ, zero, suc, ◌+◌, ◌-◌, ◌≤◌, ◌<◌, ◌≡◌, Bool, true, false, ◌&&◌, not, List, [], ◌∷◌, ◌++◌, Option,
  none, some, ltb, leb, ◌==◌, if◌then◌else◌, length, drop, codes, same_bytes, ◌>>=◌, ℤ, pos, negsuc,
}
use honas.Utils.{strchr}

abbrev pub max_file_line_length : ℕ
max_file_line_length = 16384

-- What `waitpid` returns: -1 (with `errno` equal to `ECHILD`, or not), 0, or the status of the
-- child that has ended.
pub data Waited : Type 0 where
  wait_failed : (echild : Bool) → Waited
  still_running : Waited
  ended : (status : ℕ) → Waited

abbrev status_result : ℕ → ℤ
status_result zero = pos 0
status_result (suc status) = negsuc 4

-- Behind the loop, where the child still runs: it is killed, and waited for once more. `status` is -1
-- then, until a call of `waitpid` that succeeds has set it.
unfoldable pub kill_child : (waits : List Waited) → Option ℤ
kill_child [] = none
kill_child (wait_failed true ∷ waits) = some (pos 0)
kill_child (wait_failed false ∷ waits) = some (negsuc 0)
kill_child (still_running ∷ waits) = some (negsuc 4)
kill_child (ended status ∷ waits) = some (status_result status)

-- The loop `while (p == 0 && t_wait > 0)`, from a call of `waitpid` on, with the results of the
-- calls in their order; `none` is a call behind the last of the results.
unfoldable pub wait_child : (t_wait : ℕ) (waits : List Waited) → Option ℤ
wait_child t_wait [] = none
wait_child t_wait (wait_failed true ∷ waits) = some (pos 0)
wait_child t_wait (wait_failed false ∷ waits) = some (negsuc 0)
wait_child t_wait (still_running ∷ waits) =
    let again = wait_child t_wait waits in if ltb 0 t_wait then again else kill_child waits
wait_child t_wait (ended status ∷ waits) = some (status_result status)

-- `child` tells whether `pid` is not 0.
unfoldable pub read_file_close : (child : Bool) (waits : List Waited) → Option ℤ
read_file_close false waits = some (pos 0)
read_file_close true waits = wait_child 250 waits

-- What `read` returns: bytes (none of them at the end of the file), -1, or another negative number;
-- with the state of the file behind the call.
pub data ReadResult (S : Type 0) : Type 0 where
  received : List ℕ → S → ReadResult S
  failed : S → ReadResult S
  invalid : S → ReadResult S

-- The promise of `read` for a file that can be read to its end: `left` are the bytes to come.
pub record IsReadable {S : Type 0} (read : S → ℕ → ReadResult S) (left : S → List ℕ) : Type 0 where
  pub next :
      (s : S) (count : ℕ)
      → 0 < count
      → (bytes : List ℕ) × (s' : S) × (read s count ≡ (received bytes s'))
        × (left s ≡ bytes ++ left s')
        × (length bytes ≤ count)
        × (bytes ≡ [] → left s ≡ [])

module _ {A : Type 0} (parse_line : A → ℕ → List ℕ → Option A) where
  -- The inner loop: every full line of the buffer is passed on. What stays is the line number and
  -- the begin of the next line.
  unfoldable pub pass_lines : (fuel : ℕ) → A → (lineno : ℕ) → List ℕ → Option (A × ℕ × List ℕ)
  pass_lines zero a lineno buf = some (a, lineno, buf)
  pass_lines (suc fuel) a lineno buf = elim (strchr b'\n' buf) [
    | none ↦ some (a, lineno, buf)
    | some (line, after) ↦
        parse_line a (suc lineno) line >>= λ a'. pass_lines fuel a' (suc lineno) after
  ]

  module _ {S : Type 0} (read : S → ℕ → ReadResult S) (close : S → Option ℤ) where
    abbrev close_with : A → ℤ → S → Option (ℤ × A)
    close_with a code s = close s >>= λ _. some (code, a)

    -- One pass of the outer loop of `read_file` behind `read`, which has put the last `len` of the
    -- bytes into the buffer; `again` is the next pass.
    unfoldable pub after_bytes :
        (again : A → ℕ → List ℕ → S → Option (ℤ × A))
        → A
        → (lineno : ℕ) → List ℕ
        → (len : ℕ) → S
        → Option (ℤ × A)
    after_bytes again a lineno buf len s =
        if length buf == 0 then (close s >>= λ code. some (code, a)) else elim (strchr b'\n' buf) [
          | none ↦ if len == 0 then close_with a (negsuc 2) s else again a lineno buf s
          | some (line, after) ↦ parse_line a (suc lineno) line >>= λ a1.
              pass_lines (length after) a1 (suc lineno) after >>= λ (a2, lineno', rest).
              again a2 lineno' rest s
        ]

    unfoldable pub after_read :
        (again : A → ℕ → List ℕ → S → Option (ℤ × A))
        → A
        → (lineno : ℕ) → List ℕ
        → ReadResult S
        → Option (ℤ × A)
    after_read again a lineno buf (failed s) = close_with a (negsuc 0) s
    after_read again a lineno buf (invalid s) = close_with a (negsuc 1) s
    after_read again a lineno buf (received bytes s) =
        after_bytes again a lineno (buf ++ bytes) (length bytes) s

    -- The outer loop of `read_file`; `buf` holds the first `buflen` bytes of the buffer.
    unfoldable pub read_loop : (fuel : ℕ) → A → (lineno : ℕ) → List ℕ → S → Option (ℤ × A)
    read_loop zero a lineno buf s = none
    read_loop (suc fuel) a lineno buf s =
        if not (ltb (length buf) max_file_line_length)
        then close_with a (negsuc 3) s
        else after_read (read_loop fuel) a lineno buf (read s (max_file_line_length - length buf))

abbrev ends_with : (suffix filename : List ℕ) → Bool
ends_with suffix filename =
    ltb (length suffix) (length filename)
    && same_bytes (drop (length filename - length suffix) filename) suffix

-- The program that unpacks a file, by the end of the file's name.
unfoldable pub decompressor : (filename : List ℕ) → Option (List ℕ)
decompressor filename =
    if ends_with (codes ".gz") filename
    then some (codes "/bin/gunzip")
    else if ends_with (codes ".bz2") filename
    then some (codes "/bin/bunzip2")
    else if ends_with (codes ".xz") filename
    then some (codes "/usr/bin/unxz")
    else none

module _ {S : Type 0} (opened : List ℕ → Option S) (spawn : (cmd : List ℕ) → S → Option S) where
  -- `spawn` is `pipe` and `fork`, with the child that runs `cmd`: `none` where either fails. With
  -- the file comes whether a child unpacks it.
  abbrev pub open_file : List ℕ → Option (Bool × S)
  open_file filename = opened filename >>= λ s. elim (decompressor filename) [
    | none ↦ some (false, s)
    | some cmd ↦ spawn cmd s >>= λ piped. some (true, piped)
  ]

  module _ (read : S → ℕ → ReadResult S) (waits : S → List Waited) where
    unfoldable pub read_file :
        {A : Type 0} (fuel : ℕ) (filename : List ℕ) (ptr : A)
        (parse_line : List ℕ → A → ℕ → List ℕ → Option A)
        → Option (ℤ × A)
    read_file fuel filename ptr parse_line = elim (open_file filename) [
      | none ↦ some (negsuc 0, ptr)
      | some (child, s) ↦
          read_loop (parse_line filename) read (λ s'. read_file_close child (waits s')) fuel ptr 0
            [] s
    ]
