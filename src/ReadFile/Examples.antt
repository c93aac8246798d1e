-- ===== src/ReadFile/Examples.antt =====
-- Reading a small file, at most three bytes at a time.
use honas.Common.{
  ℕ, zero, suc, ◌≤◌, ◌<◌, min, ◌≡◌, refl, ap, true, false, List, [], ◌∷◌, ◌++◌, Option, none, some,
  length, take, drop, codes, pos, arith, replicate,
}
use honas.Utils.{strchr}
use honas.ReadFile.{
  ReadResult, received, IsReadable, read_file, read_loop, after_read, after_bytes, pass_lines,
  read_file_close, Waited, still_running, ended, decompressor,
}
use honas.ReadFile.Lines.{lines, feed}
use honas.ReadFile.Whole.{read_file-feed}
use honas.ReadFile.Stops.{read_file_close_waits}

unfoldable pub read_three : List ℕ → ℕ → ReadResult (List ℕ)
read_three bytes count = received (take (min 3 count) bytes) (drop (min 3 count) bytes)

parts_joined : (n : ℕ) (bytes : List ℕ) → bytes ≡ take n bytes ++ drop n bytes
parts_joined zero bytes = refl
parts_joined (suc n) [] = refl
parts_joined (suc n) (b ∷ bytes) = ap (◌∷◌ b) (parts_joined n bytes)

length-take_le : (n : ℕ) (bytes : List ℕ) → length (take n bytes) ≤ n
length-take_le zero bytes = omega arith
length-take_le (suc n) [] = omega arith
length-take_le (suc n) (b ∷ bytes) = omega (arith, length-take_le n bytes)

take_nothing : (n : ℕ) (bytes : List ℕ) → 0 < n → take n bytes ≡ [] → bytes ≡ []
take_nothing zero bytes h e = absurd (omega arith)
take_nothing (suc n) [] h e = refl
take_nothing (suc n) (b ∷ bytes) h e = cc e

pub read_three-IsReadable : IsReadable read_three (λ bytes. bytes)
unfolding read_three
read_three-IsReadable = record {
  next = λ s count h. (
    take (min 3 count) s,
    drop (min 3 count) s,
    refl,
    parts_joined (min 3 count) s,
    omega (arith, length-take_le (min 3 count) s),
    take_nothing (min 3 count) s (omega arith),
  );
}

abbrev numbered : List ℕ → List (ℕ × List ℕ) → ℕ → List ℕ → Option (List (ℕ × List ℕ))
numbered filename seen lineno line = some (seen ++ (lineno, line) ∷ [])

abbrev small_file : List ℕ
small_file = codes "one\n\nthree\n"

abbrev pub no_spawn : List ℕ → List ℕ → Option (List ℕ)
no_spawn cmd s = none

abbrev pub no_waits : List ℕ → List Waited
no_waits s = []

small_file_read :
    read_file (λ name. some small_file) no_spawn read_three no_waits 20 (codes "a.conf") [] numbered
    ≡ some (pos 0, (1, codes "one") ∷ (2, []) ∷ (3, codes "three") ∷ [])
unfolding read_file read_three read_loop after_read after_bytes read_file_close pass_lines
    decompressor strchr
small_file_read = refl

packed : decompressor (codes "hosts.gz") ≡ some (codes "/bin/gunzip")
unfolding decompressor
packed = refl

only_suffix : decompressor (codes ".gz") ≡ none
unfolding decompressor
only_suffix = refl

read_file-feed_example :
    read_file (λ name. some small_file) no_spawn read_three no_waits 20 (codes "a.conf") [] numbered
    ≡ feed (numbered (codes "a.conf")) (pos 0) [] 0 (lines small_file)
unfolding read_file_close decompressor
read_file-feed_example =
    read_file-feed (λ name. some small_file) no_spawn read_three no_waits (λ bytes. bytes)
      read_three-IsReadable 20 (codes "a.conf") [] numbered false small_file (pos 0) refl
      (λ s'. refl) (omega arith)

read_file_close_waits_example :
    read_file_close true (replicate 251 still_running ++ ended 0 ∷ [])
    ≡ read_file_close true (ended 0 ∷ [])
read_file_close_waits_example = read_file_close_waits 251 (ended 0 ∷ [])
