-- ===== src/Bloom/Membership.antt =====
-- Bloom filters as sets of hashes: what has been added is found, whatever is added after it and
-- whatever filter is merged in.
use honas.Common.{
  Rising, ℕ, zero, suc, ◌*◌, ◌<◌, ◌≤◌, ◌≡◌, refl, sym, ap, ◌∙◌, arith, List, [], ◌∷◌, ◌++◌, ◌==◌,
  length, replicate, max, All, Option, some, Bool, ◌>>=◌, true, ◌⊎◌, inl, inr,
}
use native.Mathlib.Nat.{le_trans}
use honas.ByteSlice.{all_bits_set}
use honas.ByteSlice.Single.{bit_at, bit_at-lt}
use honas.ByteSlice.Many.{
  every, all_bits_set_lem, InRange, InRange-length, IsWritten, set_bits_lem, all_bits_set_mono,
  all_bits_set-IsWritten,
}
use honas.ByteSlice.Merge.Bits.{IsMerge}
use honas.Bloom.{determine_offsets, set_hash, is_set}
use honas.Bloom.Offsets.{IsHash, IsFilterSize, IsOffsets, determine_offsets-IsOffsets}

found-InRange :
    (filter : List ℕ) (lo : ℕ) (found beyond : List ℕ)
    → Rising lo (length filter * 8) found
    → InRange filter beyond
    → InRange filter (found ++ beyond)
found-InRange filter lo [] beyond h k = k
found-InRange filter lo (x ∷ found) beyond h k =
    (omega arith, found-InRange filter (suc x) found beyond h.2 k)

zeros-InRange : (filter : List ℕ) (n : ℕ) → 0 < length filter → InRange filter (replicate n 0)
zeros-InRange filter zero h = tt
zeros-InRange filter (suc n) h = (omega arith, zeros-InRange filter n h)

pub IsOffsets-InRange :
    (filter : List ℕ) (len : ℕ) (offsets : List ℕ)
    → 0 < length filter
    → IsOffsets (length filter * 8) len offsets
    → InRange filter offsets
IsOffsets-InRange filter len offsets h f =
    rw f.layout (found-InRange filter 0 f.found _ f.rising (zeros-InRange filter _ h))

-- The hypotheses that the assertions of `bloom_set` and `bloom_is_set` ask for.
pub record CanUse (filter hash : List ℕ) (num_bits : ℕ) : Type 0 where
  pub size : IsFilterSize (length filter)
  pub is_hash : IsHash hash
  pub some_bits : 1 ≤ num_bits

-- Adding a hash succeeds: it sets the bits at the offsets of the hash, and no other.
pub record IsAdded (num_bits : ℕ) (filter hash result : List ℕ) : Type 0 where
  pub offsets : List ℕ
  pub chosen : determine_offsets num_bits (length filter) hash ≡ some offsets
  pub in_range : InRange filter offsets
  pub written : IsWritten offsets 1 filter result

pub set_hash_lem :
    (filter hash : List ℕ) (num_bits : ℕ)
    → CanUse filter hash num_bits
    → (result : List ℕ) × (set_hash filter hash num_bits ≡ some result)
      × IsAdded num_bits filter hash result
unfolding set_hash
set_hash_lem filter hash num_bits use_ok =
    let (offsets, chosen, shape) =
      determine_offsets-IsOffsets num_bits (length filter) hash use_ok.some_bits use_ok.size
        use_ok.is_hash in
    let range = IsOffsets-InRange filter num_bits offsets use_ok.size.0 shape in
    let (result, runs, written) = set_bits_lem filter offsets range in
    (
      result,
      rw (chosen, ◌>>=◌) runs,
      record { offsets = offsets; chosen = chosen; in_range = range; written = written },
    )

-- A hash that is found stays found in every filter of the same size with no fewer bits.
pub is_set_mono :
    (filter result hash : List ℕ) (num_bits : ℕ)
    → CanUse filter hash num_bits
    → length result ≡ length filter
    → ((j : ℕ) → bit_at filter j ≤ bit_at result j)
    → is_set filter hash num_bits ≡ some true
    → is_set result hash num_bits ≡ some true
unfolding is_set
is_set_mono filter result hash num_bits use_ok len more found =
    let (offsets, chosen, shape) =
      determine_offsets-IsOffsets num_bits (length filter) hash use_ok.some_bits use_ok.size
        use_ok.is_hash in
    let range = IsOffsets-InRange filter num_bits offsets use_ok.size.0 shape in
    let found' : all_bits_set filter offsets ≡ some true = rw (chosen, ◌>>=◌) at found in
    rw (len, chosen, ◌>>=◌)
      (all_bits_set_mono filter result offsets range len more (bit_at-lt result) found')

-- A hash that has just been added is found.
pub is_set-set_hash :
    (filter hash : List ℕ) (num_bits : ℕ)
    → CanUse filter hash num_bits
    → (result : List ℕ) × (set_hash filter hash num_bits ≡ some result)
      × (is_set result hash num_bits ≡ some true)
unfolding is_set
is_set-set_hash filter hash num_bits use_ok =
    let (result, runs, added) = set_hash_lem filter hash num_bits use_ok in
    (
      result,
      runs,
      rw (added.written.same_length, added.chosen, ◌>>=◌)
          (all_bits_set-IsWritten filter result added.offsets added.offsets
            (InRange-length filter result added.offsets added.written.same_length added.in_range)
            added.written (λ j c. c)),
    )

IsAdded-le :
    (num_bits : ℕ) (filter hash result : List ℕ)
    → IsAdded num_bits filter hash result
    → (j : ℕ) → bit_at filter j ≤ bit_at result j
IsAdded-le num_bits filter hash result added j =
    ground (arith, added.written.bits_at j, bit_at-lt filter j)

-- Where both hashes, the filter and the number of bits satisfy the assertions and the first hash is
-- found: adding the other one succeeds, the first is still found, and the filter keeps its length.
pub is_set-set_hash_other :
    (filter hash other : List ℕ) (num_bits : ℕ)
    → CanUse filter hash num_bits
    → CanUse filter other num_bits
    → is_set filter hash num_bits ≡ some true
    → (result : List ℕ) × (set_hash filter other num_bits ≡ some result)
      × (is_set result hash num_bits ≡ some true)
      × (length result ≡ length filter)
is_set-set_hash_other filter hash other num_bits use_hash use_other found =
    let (result, runs, added) = set_hash_lem filter other num_bits use_other in
    (
      result,
      runs,
      is_set_mono filter result hash num_bits use_hash added.written.same_length
          (IsAdded-le num_bits filter other result added) found,
      added.written.same_length,
    )

-- A hash that is found in one of two filters of one length is found in a filter whose bits are the
-- union of theirs, where the hash, the filter and the number of bits satisfy the assertions.
pub is_set-IsMerge :
    (filter other result hash : List ℕ) (num_bits : ℕ)
    → CanUse filter hash num_bits
    → length other ≡ length filter
    → IsMerge max filter other result
    → (is_set filter hash num_bits ≡ some true) ⊎ (is_set other hash num_bits ≡ some true)
    → is_set result hash num_bits ≡ some true
is_set-IsMerge filter other result hash num_bits use_ok len m (inl found) =
    is_set_mono filter result hash num_bits use_ok m.same_length (λ j. omega (arith, m.bits j))
      found
is_set-IsMerge filter other result hash num_bits use_ok len m (inr found) =
    is_set_mono other result hash num_bits
      (record { size = rw len use_ok.size; is_hash = use_ok.is_hash; some_bits = use_ok.some_bits })
      (m.same_length ∙ sym len) (λ j. omega (arith, m.bits j)) found

-- `bloom_set` for each hash of a sequence.
pub set_hashes : List ℕ → List (List ℕ) → ℕ → Option (List ℕ)
set_hashes filter [] num_bits = some filter
set_hashes filter (hash ∷ hashes) num_bits = do
  filter' ← set_hash filter hash num_bits
  set_hashes filter' hashes num_bits

abbrev pub AllFound : List ℕ → ℕ → List (List ℕ) → Type 0
AllFound filter num_bits = All (λ hash. is_set filter hash num_bits ≡ some true)

abbrev pub CanUseAll : List ℕ → ℕ → List (List ℕ) → Type 0
CanUseAll filter num_bits = All (λ hash. CanUse filter hash num_bits)

CanUse-length :
    (filter result hash : List ℕ) (num_bits : ℕ)
    → length result ≡ length filter
    → CanUse filter hash num_bits
    → CanUse result hash num_bits
CanUse-length filter result hash num_bits e u = record {
  size = rw e u.size;
  is_hash = u.is_hash;
  some_bits = u.some_bits;
}

CanUseAll-length :
    (filter result : List ℕ) (num_bits : ℕ) (hashes : List (List ℕ))
    → length result ≡ length filter
    → CanUseAll filter num_bits hashes
    → CanUseAll result num_bits hashes
CanUseAll-length filter result num_bits [] e u = tt
CanUseAll-length filter result num_bits (hash ∷ hashes) e u = (
  CanUse-length filter result hash num_bits e u.0,
  CanUseAll-length filter result num_bits hashes e u.1,
)

AllFound-mono :
    (filter result : List ℕ) (num_bits : ℕ) (hashes : List (List ℕ))
    → CanUseAll filter num_bits hashes
    → length result ≡ length filter
    → ((j : ℕ) → bit_at filter j ≤ bit_at result j)
    → AllFound filter num_bits hashes
    → AllFound result num_bits hashes
AllFound-mono filter result num_bits [] u e more found = tt
AllFound-mono filter result num_bits (hash ∷ hashes) u e more found = (
  is_set_mono filter result hash num_bits u.0 e more found.0,
  AllFound-mono filter result num_bits hashes u.1 e more found.1,
)

set_hashes-le :
    (filter : List ℕ) (hashes : List (List ℕ)) (num_bits : ℕ)
    → CanUseAll filter num_bits hashes
    → (result : List ℕ) × (set_hashes filter hashes num_bits ≡ some result)
      × (length result ≡ length filter)
      × ((j : ℕ) → bit_at filter j ≤ bit_at result j)
      × AllFound result num_bits hashes
unfolding set_hashes
set_hashes-le filter [] num_bits u = (filter, refl, refl, (λ j. omega arith), tt)
set_hashes-le filter (hash ∷ hashes) num_bits u =
    let (mid, runs, found) = is_set-set_hash filter hash num_bits u.0 in
    let (mid', runs', added) = set_hash_lem filter hash num_bits u.0 in
    let same : mid' ≡ mid = cc (sym runs' ∙ runs) in
    let len : length mid ≡ length filter = ap length (sym same) ∙ added.written.same_length in
    let grows : (j : ℕ) → bit_at filter j ≤ bit_at mid j =
      λ j. rw (← same) (IsAdded-le num_bits filter hash mid' added j) in
    let (result, rest, len', grows', all) =
      set_hashes-le mid hashes num_bits (CanUseAll-length filter mid num_bits hashes len u.1) in
    (
      result,
      rw (runs, ◌>>=◌) rest,
      len' ∙ len,
      λ j. le_trans (grows j) (grows' j),
      (
        is_set_mono mid result hash num_bits (CanUse-length filter mid hash num_bits len u.0) len'
            grows' found,
        all,
      ),
    )

-- A Bloom filter has no false negatives: where the assertions hold for each hash of a sequence,
-- adding them all succeeds, whatever the filter holds, and each of them is then found.
pub set_hashes-AllFound :
    (filter : List ℕ) (hashes : List (List ℕ)) (num_bits : ℕ)
    → CanUseAll filter num_bits hashes
    → (result : List ℕ) × (set_hashes filter hashes num_bits ≡ some result)
      × AllFound result num_bits hashes
set_hashes-AllFound filter hashes num_bits u =
    let (result, runs, len, grows, all) = set_hashes-le filter hashes num_bits u in
    (result, runs, all)

-- Adding a hash: the filter keeps its length and its bits, and the hash is found.
pub is_set-set_hash_grows :
    (filter hash : List ℕ) (num_bits : ℕ)
    → CanUse filter hash num_bits
    → (result : List ℕ) × (set_hash filter hash num_bits ≡ some result)
      × (length result ≡ length filter)
      × ((j : ℕ) → bit_at filter j ≤ bit_at result j)
      × (is_set result hash num_bits ≡ some true)
is_set-set_hash_grows filter hash num_bits u =
    let (result, runs, len, more, all) = set_hashes-le filter (hash ∷ []) num_bits (u, tt) in
    let (result', runs', found) = is_set-set_hash filter hash num_bits u in
    let one : set_hashes filter (hash ∷ []) num_bits ≡ some result' =
      unfold set_hashes in (rw (runs', ◌>>=◌) refl) in
    let same : result ≡ result' = cc (sym runs ∙ one) in
    (result, runs' ∙ ap some (sym same), len, more, all.0)

-- A test returns.
pub is_set_total :
    (filter hash : List ℕ) (num_bits : ℕ)
    → CanUse filter hash num_bits
    → (b : Bool) × (is_set filter hash num_bits ≡ some b)
unfolding is_set
is_set_total filter hash num_bits use_ok =
    let (offsets, chosen, shape) =
      determine_offsets-IsOffsets num_bits (length filter) hash use_ok.some_bits use_ok.size
        use_ok.is_hash in
    let range = IsOffsets-InRange filter num_bits offsets use_ok.size.0 shape in
    (
      every (λ i. bit_at filter i == 1) offsets,
      rw (chosen, ◌>>=◌) (all_bits_set_lem filter offsets range),
    )
