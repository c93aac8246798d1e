-- ===== src/State/Aggregate/Combined.antt =====
-- What is found in either state is found in the combined one.
use mathlib.Core.Path.{subst}
use native.Mathlib.Decide.{ℕ_discrete}
use honas.Common.{
  ℕ, zero, suc, ◌+◌, ◌%◌, ◌^◌, ◌<◌, ◌≤◌, ◌≡◌, refl, sym, ap, ◌∙◌, arith, true, List, ◌⊎◌, inl, inr,
  some, length, get_elem?_inside, ◌>>=◌,
}
use honas.ByteSlice.Words.{IsBytes}
use honas.ByteSlice.Merge.Bits.{bitwise_or-IsMerge}
use honas.Bloom
use honas.Bloom.Membership.{is_set-IsMerge}
use honas.State.{State, Slice, Header}
use honas.State.Memory.{length-read, read-IsBytes, write-IsBytes}
use honas.State.Filters.Growth.{
  IsDigest, IsWellFormed, Grows, Grows-refl, Grows-trans, Grows-IsWellFormed, Found, Found-Grows,
  At, contents, with_filter, with_filter_lem, transform_lem, hit_in_filter-eq, CanUse-contents,
}
use honas.State.Aggregate.{
  merge_headers, same_parameters, merge_filter, merge_filters, combine_states,
  honas_state_aggregate_combine,
}

-- Two states whose filters can be merged: of one size each, and aligned the same in memory.
pub record CanMerge {Hll : Type 0} (target_address source_address : ℕ) (target source : State Hll)
    : Type 0 where
  pub target_well_formed : IsWellFormed target
  pub source_well_formed : IsWellFormed source
  pub hashes : target.header.number_of_hashes ≡ source.header.number_of_hashes
  pub count : target.header.number_of_filters ≡ source.header.number_of_filters
  pub target_bytes : IsBytes target.mmap
  pub source_bytes : IsBytes source.mmap
  pub same_size : (i : ℕ) (t s : Slice) → At target i t → At source i s → t.len ≡ s.len
  pub aligned :
      (i : ℕ) (t s : Slice)
      → At target i t
      → At source i s
      → (target_address + t.begin) % 8 ≡ (source_address + s.begin) % 8
  pub memory : target_address + length target.mmap + 8 ≤ 2 ^ 64

module _ {Hll : Type 0} (hll_merge : Hll → Hll → Hll × Hll)
    (target_address source_address : ℕ) where
  -- What is found in one of the two states.
  abbrev pub FoundInOne : (target source : State Hll) → List ℕ → ℕ → Type 0
  FoundInOne target source hash i = Found target hash i ⊎ Found source hash i

  CanMerge-Grows :
      {target after source : State Hll}
      → CanMerge target_address source_address target source
      → Grows target after
      → IsBytes after.mmap
      → CanMerge target_address source_address after source
  CanMerge-Grows {target} {after} {source} can g bytes = record {
    target_well_formed = Grows-IsWellFormed g can.target_well_formed;
    source_well_formed = can.source_well_formed;
    hashes = g.hashes ∙ can.hashes;
    count = g.count ∙ can.count;
    target_bytes = bytes;
    source_bytes = can.source_bytes;
    same_size = λ i t s at. can.same_size i t s (rw g.filters at at);
    aligned = λ i t s at. can.aligned i t s (rw g.filters at at);
    memory = rw g.mmap can.memory;
  }

  merge_filter_lem :
      (i : ℕ) (target source : State Hll)
      → CanMerge target_address source_address target source
      → i < target.header.number_of_filters
      → (after : State Hll) × (merge_filter hll_merge target_address source_address i target source
          ≡ some after)
        × Grows target after
        × IsBytes after.mmap
        × ((hash : List ℕ) → IsDigest hash → FoundInOne target source hash i → Found after hash i)
  unfolding merge_filter
  merge_filter_lem i target source can below =
      let (t, at_t) = get_elem?_inside target.filters i (rw can.target_well_formed.count below) in
      let (s, at_s) =
        get_elem?_inside source.filters i (rw (can.source_well_formed.count, ← can.count) below) in
      let same : length (contents target t) ≡ length (contents source s) =
        length-read t.begin t.len target.mmap
        ∙ can.same_size i t s at_t at_s
        ∙ sym (length-read s.begin s.len source.mmap) in
      let (new, merges, m) =
        bitwise_or-IsMerge (target_address + t.begin) (source_address + s.begin) (contents target t)
          (contents source s) (can.aligned i t s at_t at_s)
          (omega (
            arith,
            can.memory,
            can.target_well_formed.inside i t at_t,
            length-read t.begin t.len target.mmap,
          ))
          same (read-IsBytes t.begin t.len target.mmap can.target_bytes)
          (read-IsBytes s.begin s.len source.mmap can.source_bytes) in
      let (grown, back) =
        with_filter_lem target i t new can.target_well_formed at_t
          (m.same_length ∙ length-read t.begin t.len target.mmap) (λ j. omega (arith, m.bits j)) in
      (
        with_filter target t new,
        rw (at_t, at_s, merges, ◌>>=◌) refl,
        grown,
        write-IsBytes t.begin new target.mmap m.bytes can.target_bytes,
        λ hash d.
            let (hash', turns, d') = transform_lem i hash d in
            let u = CanUse-contents target i t hash' can.target_well_formed at_t d' in
            let after_eq = hit_in_filter-eq (with_filter target t new) i t hash hash' at_t turns in
            let target_eq = hit_in_filter-eq target i t hash hash' at_t turns in
            let source_eq = hit_in_filter-eq source i s hash hash' at_s turns in
            let merged =
              is_set-IsMerge (contents target t) (contents source s) new hash'
                target.header.number_of_hashes u (sym same) m in
            λ found.
              after_eq
              ∙ ap (λ bytes. Bloom.is_set bytes hash' target.header.number_of_hashes) back
              ∙ merged (elim found [
                | inl f ↦ inl (sym target_eq ∙ f)
                | inr f ↦ inr (rw can.hashes (sym source_eq ∙ f))
              ]),
      )

  merge_filters_lem :
      (rounds i : ℕ) (target source : State Hll)
      → CanMerge target_address source_address target source
      → i + rounds ≡ target.header.number_of_filters
      → (after : State Hll) × (merge_filters hll_merge target_address source_address rounds i target
            source
          ≡ some after)
        × Grows target after
        × ((hash : List ℕ) (k : ℕ)
            → IsDigest hash
            → i ≤ k
            → k < target.header.number_of_filters
            → FoundInOne target source hash k
            → Found after hash k)
  unfolding merge_filters
  merge_filters_lem zero i target source can e =
      (target, refl, Grows-refl target, λ hash k d low high. absurd (omega arith))
  merge_filters_lem (suc rounds) i target source can e =
      let (mid, first, g, bytes, found) = merge_filter_lem i target source can (omega arith) in
      let can' = CanMerge-Grows can g bytes in
      let (after, runs, g', founds) =
        merge_filters_lem rounds (suc i) mid source can' (omega (arith, g.count)) in
      (
        after,
        rw (first, ◌>>=◌) runs,
        Grows-trans g g',
        λ hash k d low high one. elim (ℕ_discrete i k) [
          | yes same ↦ Found-Grows k hash can'.target_well_formed d (omega (arith, g.count)) g' (
              subst (Found mid hash) same
                (found hash d (subst (FoundInOne target source hash) (sym same) one)))
          | no other ↦ founds hash k d (omega arith) (omega (arith, g.count)) (elim one [
            | inl f ↦ inl (Found-Grows k hash can.target_well_formed d high g f)
            | inr f ↦ inr f
          ])
        ],
      )

  same_parameters_lem :
      (target source : State Hll)
      → CanMerge target_address source_address target source
      → target.header.number_of_bits_per_filter ≡ source.header.number_of_bits_per_filter
      → same_parameters target.header source.header ≡ true
  unfolding same_parameters
  same_parameters_lem target source can bits = ground (arith, can.hashes, can.count)

  with_counters : State Hll → Header → Hll → Hll → State Hll
  with_counters state h clients host_names = record state {
    header = h;
    client_count = clients;
    host_name_count = host_names;
  }

  merged_Grows :
      (target source after : State Hll) (clients host_names : Hll)
      → Grows target after
      → Grows after
          (with_counters after (merge_headers target.header source.header) clients host_names)
  unfolding merge_headers with_counters
  merged_Grows target source after clients host_names g = record {
    hashes = sym g.hashes;
    count = sym g.count;
    per_user = sym g.per_user;
    filters = refl;
    combinations = refl;
    mmap = refl;
    bits = λ i slice at j. omega arith;
  }

  -- For two states of the same parameters, well formed and aligned the same in memory: combining
  -- succeeds, the target stays well formed, and every digest that is found in a filter of either is
  -- found in that filter of the target afterwards.
  pub honas_state_aggregate_combine_lem :
      (target source : State Hll)
      → CanMerge target_address source_address target source
      → target.header.number_of_bits_per_filter ≡ source.header.number_of_bits_per_filter
      → (target' source' : State Hll) × (honas_state_aggregate_combine hll_merge target_address
            source_address
            (some target)
            (some source)
          ≡ some (true, some target', some source'))
        × IsWellFormed target'
        × ((hash : List ℕ) (k : ℕ)
            → IsDigest hash
            → k < target.header.number_of_filters
            → FoundInOne target source hash k
            → Found target' hash k)
  unfolding honas_state_aggregate_combine combine_states with_counters
  honas_state_aggregate_combine_lem target source can bits =
      let (after, runs, g, found) =
        merge_filters_lem target.header.number_of_filters 0 target source can (omega arith) in
      let clients = hll_merge target.client_count source.client_count in
      let host_names = hll_merge target.host_name_count source.host_name_count in
      let w = Grows-IsWellFormed g can.target_well_formed in
      let g' = merged_Grows target source after clients.0 host_names.0 g in
      (
        with_counters after (merge_headers target.header source.header) clients.0 host_names.0,
        record source { client_count = clients.1; host_name_count = host_names.1 },
        rw (same_parameters_lem target source can bits, runs, ◌>>=◌) refl,
        Grows-IsWellFormed g' w,
        λ hash k d below one.
            Found-Grows k hash w d (omega (arith, g.count)) g'
              (found hash k d (omega arith) below one),
      )
