-- ===== src/State/Filters/Growth.antt =====
-- Adding a hash to filters of a state: it succeeds, the hash is found in those filters, and every
-- hash that was found in any filter still is.
use native.Mathlib.Nat.{le_trans, le_refl}
use honas.Common.{
  ℕ, zero, suc, ◌+◌, ◌*◌, ◌/◌, ◌%◌, ◌<◌, ◌≤◌, ◌≡◌, ◌≢◌, refl, sym, ap, ◌∙◌, arith, true, List, [],
  ◌∷◌, ◌++◌, ◌⊎◌, inl, inr, some, ◌==◌, u32, u64, length, length-append, get_elem?,
  get_elem?_inside, ◌>>=◌, All, Bool-cases,
}
use native.Mathlib.Decide.{ℕ_discrete}
use honas.ByteSlice.Words.{words, store, IsBytes, length-store, length-words}
use honas.ByteSlice.Single.{bit_at}
use honas.Bloom
use honas.Bloom.Offsets.{IsFilterSize}
use honas.Bloom.Membership.{CanUse, is_set_mono, is_set-set_hash_grows}
use honas.State.{State, Slice}
use honas.State.Memory.{read, write, length-read, length-write, read-write, read-write_apart}
use honas.State.Filters.{
  multiply_words, filter_index_host_name_hash_transform, filter_slice, set_in_filter,
  set_in_filters, hit_in_filter,
}

-- The hash of 32 bytes that `SHA256` returns.
abbrev pub IsDigest : List ℕ → Type 0
IsDigest hash = (length hash ≡ 32) × IsBytes hash

store-IsBytes : (n v : ℕ) → IsBytes (store n v)
unfolding store
store-IsBytes zero v = tt
store-IsBytes (suc n) v = (omega arith, store-IsBytes n (v / 256))

append-IsBytes : (xs ys : List ℕ) → IsBytes xs → IsBytes ys → IsBytes (xs ++ ys)
append-IsBytes [] ys h k = k
append-IsBytes (x ∷ xs) ys h k = (h.0, append-IsBytes xs ys h.1 k)

multiply_words-IsBytes :
    (m : ℕ) (ws : List ℕ)
    → IsBytes (multiply_words m ws) × (length (multiply_words m ws) ≡ 8 * length ws)
unfolding multiply_words
multiply_words-IsBytes m [] = (tt, omega arith)
multiply_words-IsBytes m (w ∷ ws) =
    let (bytes, len) = multiply_words-IsBytes m ws in
    (
      append-IsBytes (store 8 (u64 (w * m))) (multiply_words m ws) (store-IsBytes 8 (u64 (w * m)))
          bytes,
      omega (
        arith,
        length-append (store 8 (u64 (w * m))) (multiply_words m ws),
        length-store 8 (u64 (w * m)),
      ),
    )

-- The derivation succeeds on every digest, and gives a digest.
pub transform_lem :
    (i : ℕ) (hash : List ℕ)
    → IsDigest hash
    → (hash' : List ℕ) × (filter_index_host_name_hash_transform i hash ≡ some hash')
      × IsDigest hash'
unfolding filter_index_host_name_hash_transform
transform_lem i hash d = elim (Bool-cases (i == 0)) [
  | inl first ↦ (hash, rw first, d)
  | inr later ↦
      let ws = words 8 (length hash / 8) hash in
      let (bytes, len) = multiply_words-IsBytes (u32 (i * 2 + 1)) ws in
      let whole : length hash % 8 ≡ 0 = omega (arith, d.0) in
      (
        multiply_words (u32 (i * 2 + 1)) ws,
        rw (later, whole) refl,
        (omega (arith, len, length-words 8 (length hash / 8) hash, d.0), bytes),
      )
]

module _ {Hll : Type 0} where
  -- Slice `i` of the filters, wherever there is one.
  abbrev pub At : State Hll → ℕ → Slice → Type 0
  At state i slice = get_elem? state.filters i ≡ some slice

  -- What `honas_state_create` and `honas_state_load` establish about the filters: there are as many
  -- as the header says, each of a legal size, inside the file and apart from the others.
  pub record IsWellFormed (state : State Hll) : Type 0 where
    pub count : length state.filters ≡ state.header.number_of_filters
    pub hashes : 1 ≤ state.header.number_of_hashes
    pub sized : (i : ℕ) (slice : Slice) → At state i slice → IsFilterSize slice.len
    pub inside :
        (i : ℕ) (slice : Slice) → At state i slice → slice.begin + slice.len ≤ length state.mmap
    pub apart :
        (i j : ℕ) (a b : Slice)
        → At state i a
        → At state j b
        → i ≢ j
        → (b.begin + b.len ≤ a.begin) ⊎ (a.begin + a.len ≤ b.begin)

  abbrev pub contents : State Hll → Slice → List ℕ
  contents state slice = read slice.begin slice.len state.mmap

  -- `hash` is found in filter `i`.
  abbrev pub Found : State Hll → List ℕ → ℕ → Type 0
  Found state hash i = hit_in_filter state i hash ≡ some true

  -- Between two states: the layout is the same, and no bit of a filter has been lost.
  pub record Grows (before after : State Hll) : Type 0 where
    pub hashes : after.header.number_of_hashes ≡ before.header.number_of_hashes
    pub count : after.header.number_of_filters ≡ before.header.number_of_filters
    pub per_user :
        after.header.number_of_filters_per_user ≡ before.header.number_of_filters_per_user
    pub filters : after.filters ≡ before.filters
    pub combinations :
        after.nr_filters_per_user_combinations ≡ before.nr_filters_per_user_combinations
    pub mmap : length after.mmap ≡ length before.mmap
    pub bits :
        (i : ℕ) (slice : Slice)
        → At before i slice
        → (j : ℕ) → bit_at (contents before slice) j ≤ bit_at (contents after slice) j

  pub Grows-refl : (state : State Hll) → Grows state state
  Grows-refl state = record {
    hashes = refl;
    count = refl;
    per_user = refl;
    filters = refl;
    combinations = refl;
    mmap = refl;
    bits = λ i slice at j. le_refl _;
  }

  pub Grows-trans : {a b c : State Hll} → Grows a b → Grows b c → Grows a c
  Grows-trans {a} {b} {c} f g = record {
    hashes = g.hashes ∙ f.hashes;
    count = g.count ∙ f.count;
    per_user = g.per_user ∙ f.per_user;
    filters = g.filters ∙ f.filters;
    combinations = g.combinations ∙ f.combinations;
    mmap = g.mmap ∙ f.mmap;
    bits = λ i slice at j. le_trans (f.bits i slice at j) (g.bits i slice (rw f.filters at) j);
  }

  pub Grows-IsWellFormed : {a b : State Hll} → Grows a b → IsWellFormed a → IsWellFormed b
  Grows-IsWellFormed {a} {b} g w = record {
    count = rw (g.filters, g.count) w.count;
    hashes = rw g.hashes w.hashes;
    sized = λ i slice at. w.sized i slice (rw (← g.filters) at);
    inside = λ i slice at. rw g.mmap (w.inside i slice (rw (← g.filters) at));
    apart = λ i j x y p q ne. w.apart i j x y (rw (← g.filters) p) (rw (← g.filters) q) ne;
  }

  pub CanUse-contents :
      (state : State Hll) (i : ℕ) (slice : Slice) (hash : List ℕ)
      → IsWellFormed state
      → At state i slice
      → IsDigest hash
      → CanUse (contents state slice) hash state.header.number_of_hashes
  CanUse-contents state i slice hash w at d = record {
    size = rw (length-read slice.begin slice.len state.mmap) (w.sized i slice at);
    is_hash = (omega (arith, d.0), omega (arith, d.0), d.1);
    some_bits = w.hashes;
  }

  -- A test of a filter, on its bytes.
  pub hit_in_filter-eq :
      (state : State Hll) (i : ℕ) (slice : Slice) (hash hash' : List ℕ)
      → At state i slice
      → filter_index_host_name_hash_transform i hash ≡ some hash'
      → hit_in_filter state i hash
        ≡ Bloom.is_set (contents state slice) hash' state.header.number_of_hashes
  unfolding hit_in_filter filter_slice
  hit_in_filter-eq state i slice hash hash' at turns = rw (turns, at, ◌>>=◌) refl

  -- What is found stays found.
  pub Found-Grows :
      {a b : State Hll} (i : ℕ) (hash : List ℕ)
      → IsWellFormed a
      → IsDigest hash
      → i < a.header.number_of_filters
      → Grows a b
      → Found a hash i
      → Found b hash i
  unfolding hit_in_filter filter_slice
  Found-Grows {a} {b} i hash w d below g found =
      let (slice, at) = get_elem?_inside a.filters i (rw w.count below) in
      let (hash', turns, d') = transform_lem i hash d in
      let before : Bloom.is_set (contents a slice) hash' a.header.number_of_hashes ≡ some true =
        rw (turns, at, ◌>>=◌) at found in
      rw (turns, g.filters, at, g.hashes, ◌>>=◌)
        (is_set_mono (contents a slice) (contents b slice) hash' a.header.number_of_hashes
          (CanUse-contents a i slice hash' w at d')
          (length-read slice.begin slice.len b.mmap
            ∙ sym (length-read slice.begin slice.len a.mmap))
          (g.bits i slice at) before)

  abbrev pub with_filter : State Hll → Slice → List ℕ → State Hll
  with_filter state slice new = record state { mmap = write slice.begin new state.mmap }

  -- Writing a filter back with no fewer bits: the state grows, and the filter reads back.
  pub with_filter_lem :
      (state : State Hll) (i : ℕ) (slice : Slice) (new : List ℕ)
      → IsWellFormed state
      → At state i slice
      → length new ≡ slice.len
      → ((j : ℕ) → bit_at (contents state slice) j ≤ bit_at new j)
      → Grows state (with_filter state slice new)
        × (contents (with_filter state slice new) slice ≡ new)
  with_filter_lem state i slice new w at fits grows =
      let back : read slice.begin slice.len (write slice.begin new state.mmap) ≡ new =
        ap (λ n. read slice.begin n (write slice.begin new state.mmap)) (sym fits)
        ∙ read-write slice.begin new state.mmap (omega (arith, fits, w.inside i slice at)) in
      (
        record {
          hashes = refl;
          count = refl;
          per_user = refl;
          filters = refl;
          combinations = refl;
          mmap = length-write slice.begin new state.mmap;
          bits = λ k other at_k j. elim (ℕ_discrete i k) [
            | yes e ↦
                let same : other ≡ slice =
                  cc (sym at_k ∙ ap (get_elem? state.filters) (sym e) ∙ at) in
                rw (same, back) (grows j)
            | no ne ↦
                rw
                  (read-write_apart slice.begin other.begin other.len new state.mmap
                    (rw fits (w.apart i k slice other at at_k ne)))
                  (le_refl _)
          ];
        },
        back,
      )

  pub set_in_filter_lem :
      (state : State Hll) (i : ℕ) (hash : List ℕ)
      → IsWellFormed state
      → IsDigest hash
      → i < state.header.number_of_filters
      → (state' : State Hll) × (set_in_filter state i hash ≡ some state')
        × Grows state state'
        × Found state' hash i
  unfolding set_in_filter hit_in_filter filter_slice
  set_in_filter_lem state i hash w d below =
      let (slice, at) = get_elem?_inside state.filters i (rw w.count below) in
      let (hash', turns, d') = transform_lem i hash d in
      let (new, adds, len, grows, found) =
        is_set-set_hash_grows (contents state slice) hash' state.header.number_of_hashes
          (CanUse-contents state i slice hash' w at d') in
      let (grown, back) =
        with_filter_lem state i slice new w at (len ∙ length-read slice.begin slice.len state.mmap)
          grows in
      (
        with_filter state slice new,
        rw (at, turns, adds, ◌>>=◌) refl,
        grown,
        rw (turns, at, ◌>>=◌, back) found,
      )

  -- Adding a digest to filters of a well-formed state succeeds, loses no bit of any filter, and the
  -- digest is then found in each of them.
  pub set_in_filters_lem :
      (state : State Hll) (indexes : List ℕ) (hash : List ℕ)
      → IsWellFormed state
      → IsDigest hash
      → All (λ i. i < state.header.number_of_filters) indexes
      → (state' : State Hll) × (set_in_filters state indexes hash ≡ some state')
        × Grows state state'
        × All (Found state' hash) indexes
  unfolding set_in_filters
  set_in_filters_lem state [] hash w d below = (state, refl, Grows-refl state, tt)
  set_in_filters_lem state (i ∷ indexes) hash w d below =
      let (mid, first, g, found) = set_in_filter_lem state i hash w d below.0 in
      let (last, rest, g', all) =
        set_in_filters_lem mid indexes hash (Grows-IsWellFormed g w) d (rw g.count below.1) in
      (
        last,
        rw (first, ◌>>=◌) rest,
        Grows-trans g g',
        (Found-Grows i hash (Grows-IsWellFormed g w) d (rw g.count below.0) g' found, all),
      )
