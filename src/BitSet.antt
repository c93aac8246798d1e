-- ===== src/BitSet.antt =====
-- include/bitset.h: sets of indexes, such as the filters in which a hash is found. The union of
-- `bitset_t` is a data type: the bytes of its two integers, or a slice of the heap.
pub mod Array
pub mod Bytes
pub mod Examples
use honas.Common.{
  ℕ, ◌+◌, ◌≡◌, Bool, true, false, List, [], ◌∷◌, Option, none, some, ltb, ◌==◌, if◌then◌else◌, u64,
  ◌<<<◌, ◌>>>◌, replicate, require, ◌>>=◌, ◌>>◌, length, refl,
}
use honas.ByteSlice
use honas.ByteSlice.Merge
use honas.ByteSlice.Popcount

pub data Repr : Type 0 where
  ints : List ℕ → Repr
  byte_slice : List ℕ → Repr

pub record BitSet : Type 0 where
  pub num_bits : ℕ
  pub repr : Repr

unfoldable pub using_byte_slice : (num_bits : ℕ) → Bool
using_byte_slice num_bits = ltb (8 <<< 4) num_bits

-- The field of the union that the flag selects; `none` where the other one has been written.
pub select : Bool → Repr → Option (List ℕ)
select true (byte_slice bytes) = some bytes
select true (ints bytes) = none
select false (byte_slice bytes) = none
select false (ints bytes) = some bytes

pub as_byte_slice : BitSet → Option (List ℕ)
unfolding using_byte_slice select
as_byte_slice bits = select (using_byte_slice bits.num_bits) bits.repr

-- The bytes that `bitset_create` makes.
unfoldable pub byte_count : (num_bits : ℕ) → ℕ
unfolding using_byte_slice
byte_count num_bits = if using_byte_slice num_bits then u64 (num_bits + 7) >>> 3 else 16

-- The set with other bytes behind its slice.
pub with_bytes : BitSet → List ℕ → BitSet
unfolding using_byte_slice
with_bytes bits bytes = record bits {
  repr = if using_byte_slice bits.num_bits then byte_slice bytes else ints bytes;
}

pub create : (num_bits : ℕ) → BitSet
unfolding byte_count with_bytes
create num_bits =
    with_bytes (record { num_bits = num_bits; repr = ints [] }) (replicate (byte_count num_bits) 0)

-- A slice of a null pointer and the length 0 is two integers 0.
pub destroy : BitSet → BitSet
destroy bits = record { num_bits = 0; repr = ints (replicate 16 0) }

pub clear_all : BitSet → Option BitSet
unfolding as_byte_slice with_bytes
clear_all bits = do bytes ← as_byte_slice bits; some (with_bytes bits (ByteSlice.clear bytes))

pub set_index : BitSet → ℕ → Option BitSet
unfolding as_byte_slice with_bytes
set_index bits idx = do
  require (ltb idx bits.num_bits)
  bytes ← as_byte_slice bits
  bytes' ← ByteSlice.set_bit bytes idx
  some (with_bytes bits bytes')

pub unset_index : BitSet → ℕ → Option BitSet
unfolding as_byte_slice with_bytes
unset_index bits idx = do
  require (ltb idx bits.num_bits)
  bytes ← as_byte_slice bits
  bytes' ← ByteSlice.unset_bit bytes idx
  some (with_bytes bits bytes')

pub index_is_set : BitSet → ℕ → Option Bool
unfolding as_byte_slice
index_is_set bits idx = do
  require (ltb idx bits.num_bits)
  bytes ← as_byte_slice bits
  ByteSlice.bit_is_set bytes idx

-- The addresses are those of the two slices.
pub set_union : (target_address other_address : ℕ) → (target other : BitSet) → Option BitSet
unfolding as_byte_slice with_bytes
set_union target_address other_address target other = do
  require (target.num_bits == other.num_bits)
  ts ← as_byte_slice target
  os ← as_byte_slice other
  bytes ← Merge.bitwise_or target_address other_address ts os
  some (with_bytes target bytes)

pub set_intersection : (target_address other_address : ℕ) → (target other : BitSet) → Option BitSet
unfolding as_byte_slice with_bytes
set_intersection target_address other_address target other = do
  require (target.num_bits == other.num_bits)
  ts ← as_byte_slice target
  os ← as_byte_slice other
  bytes ← Merge.bitwise_and target_address other_address ts os
  some (with_bytes target bytes)

pub popcount : (address : ℕ) → BitSet → Option ℕ
unfolding as_byte_slice
popcount address bits = do bytes ← as_byte_slice bits; Popcount.byte_slice_popcount address bytes
