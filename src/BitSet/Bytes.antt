-- ===== src/BitSet/Bytes.antt =====
-- A set of indexes as an array of bits, with its bytes in range.
use honas.Common
use honas.Common.{
  u8, bit_or, bit_and, ◌<<<◌, ◌>>>◌, ℕ, zero, suc, ◌+◌, ◌*◌, ◌%◌, ◌^◌, ◌≤◌, ◌<◌, ◌≡◌, refl, sym, ap,
  ◌∙◌, List, [], ◌∷◌, Option, none, some, arith, ltb, ◌==◌, if◌then◌else◌, min, length, replicate,
  All-set, require, ◌>>=◌, ◌>>◌, >>=-eq-some,
}
use honas.ByteSlice.Words.{IsBytes}
use honas.ByteSlice
use honas.ByteSlice.Merge
use honas.ByteSlice.Merge.Bits.{bitwise_and-IsMerge}
use honas.BitSet.{
  BitSet, ints, as_byte_slice, with_bytes, byte_count, create, clear_all, set_index,
  set_intersection,
}
use honas.BitSet.Array.{
  Represents, create-Represents, clear_all_lem, set_index_lem, set_intersection_lem,
  as_byte_slice-with_bytes,
}

pub record Shows (n : ℕ) (f : ℕ → ℕ) (set : BitSet) : Type 0 where
  pub represents : Represents n f set
  pub in_range : IsBytes represents.bytes

zeros-IsBytes : (n : ℕ) → IsBytes (replicate n 0)
zeros-IsBytes zero = tt
zeros-IsBytes (suc n) = (omega arith, zeros-IsBytes n)

-- The bytes that a set shows are those that were put into it.
shown_bytes :
    (set : BitSet) (bytes : List ℕ) {set' : BitSet} {bytes' : List ℕ}
    → some (with_bytes set bytes) ≡ some set'
    → as_byte_slice set' ≡ some bytes'
    → bytes ≡ bytes'
shown_bytes set bytes {set'} e shown =
    let same : with_bytes set bytes ≡ set' = cc e in
    let put : as_byte_slice set' ≡ some bytes = rw same at (as_byte_slice-with_bytes set bytes) in
    cc (put, shown)

pub with_bits-Shows :
    (n : ℕ) (f g : ℕ → ℕ) (set : BitSet) → Shows n f set → ((j : ℕ) → f j ≡ g j) → Shows n g set
with_bits-Shows n f g set s same = record {
  represents = record {
    bytes = s.represents.bytes;
    count = s.represents.count;
    shown = s.represents.shown;
    sized = s.represents.sized;
    room = s.represents.room;
    at = λ j. s.represents.at j ∙ same j;
  };
  in_range = s.in_range;
}

module _ (n : ℕ) (f : ℕ → ℕ) (set : BitSet) (s : Shows n f set) where
  pub clear_all-Shows : (set' : BitSet) × (clear_all set ≡ some set') × Shows n (λ j. 0) set'
  unfolding clear_all ByteSlice.clear
  clear_all-Shows =
      let (set', runs, r) = clear_all_lem n f set s.represents in
      let (bytes, shown, put) = >>=-eq-some (as_byte_slice set) _ runs in
      let same = shown_bytes set (replicate (length bytes) 0) put r.shown in
      (set', runs, record { represents = r; in_range = rw same at (zeros-IsBytes (length bytes)) })

  pub set_index-Shows :
      (idx : ℕ)
      → idx < n
      → (set' : BitSet) × (set_index set idx ≡ some set')
        × Shows n (λ j. if idx == j then 1 else f j) set'
  unfolding set_index ByteSlice.set_bit
  set_index-Shows idx below =
      let (set', runs, r) = set_index_lem n f set s.represents idx below in
      let (u, inside, runs1) = >>=-eq-some (require (ltb idx set.num_bits)) _ runs in
      let (bytes, shown, runs2) = >>=-eq-some (as_byte_slice set) _ runs1 in
      let (bytes', wrote, put) = >>=-eq-some (ByteSlice.set_bit bytes idx) _ runs2 in
      let old : s.represents.bytes ≡ bytes = cc (shown, s.represents.shown) in
      let (v, there, done) = >>=-eq-some (require (ltb (idx >>> 3) (length bytes))) _ wrote in
      let new : Common.set bytes (idx >>> 3)
            (u8 (bit_or (ByteSlice.byte bytes (idx >>> 3)) (1 <<< bit_and idx 7)))
          ≡ bytes' =
        cc done in
      let legal = rw new at (
        All-set (λ b. b < 256) bytes (idx >>> 3)
          (u8 (bit_or (ByteSlice.byte bytes (idx >>> 3)) (1 <<< bit_and idx 7)))
          (rw old at s.in_range) (omega arith)) in
      (
        set',
        runs,
        record { represents = r; in_range = rw (shown_bytes set bytes' put r.shown) at legal },
      )

module _ (n target_address other_address : ℕ) (f g : ℕ → ℕ) (target other : BitSet)
    (s : Shows n f target) (t : Shows n g other) (aligned : target_address % 8 ≡ other_address % 8)
    (fits : target_address + byte_count n + 8 ≤ 2 ^ 64) where
  pub set_intersection-Shows :
      (set' : BitSet) × (set_intersection target_address other_address target other ≡ some set')
      × Shows n (λ j. min (f j) (g j)) set'
  unfolding set_intersection
  set_intersection-Shows =
      let room : target_address + length s.represents.bytes + 8 ≤ 2 ^ 64 =
        omega (arith, fits, s.represents.sized) in
      let (set', runs, r) =
        set_intersection_lem n target_address other_address f g target other s.represents
          t.represents s.in_range t.in_range aligned room in
      let (u, same, runs1) = >>=-eq-some (require (target.num_bits == other.num_bits)) _ runs in
      let (ts, shown, runs2) = >>=-eq-some (as_byte_slice target) _ runs1 in
      let (os, other_shown, runs3) = >>=-eq-some (as_byte_slice other) _ runs2 in
      let (bytes, merged, put) =
        >>=-eq-some (Merge.bitwise_and target_address other_address ts os) _ runs3 in
      let first : s.represents.bytes ≡ ts = cc (shown, s.represents.shown) in
      let second : t.represents.bytes ≡ os = cc (other_shown, t.represents.shown) in
      let (bytes', merged', m) =
        bitwise_and-IsMerge target_address other_address s.represents.bytes t.represents.bytes
          aligned room (s.represents.sized ∙ sym t.represents.sized) s.in_range t.in_range in
      let equal : bytes' ≡ bytes = cc (merged, merged', first, second) in
      (
        set',
        runs,
        record {
          represents = r;
          in_range = rw (equal ∙ shown_bytes target bytes put r.shown) at m.bytes;
        },
      )

pub create-Shows : (n : ℕ) → n + 7 < 2 ^ 64 → Shows n (λ j. 0) (create n)
unfolding create
create-Shows n fits =
    let r = create-Represents n fits in
    let same =
      shown_bytes (record { num_bits = n; repr = ints [] }) (replicate (byte_count n) 0) refl
        r.shown in
    record { represents = r; in_range = rw same at (zeros-IsBytes (byte_count n)) }
