-- ===== src/State/Filters/Kept.antt =====
-- Inserting into the filters leaves the counters alone.
use honas.Common.{ℕ, some, ◌≡◌, ◌∙◌, List, [], ◌∷◌, >>=-eq-some, get_elem?}
use honas.Bloom
use honas.State.{State}
use honas.State.Memory.{read}
use honas.State.Filters.{set_in_filter, set_in_filters, filter_index_host_name_hash_transform}

module _ {Hll : Type 0} where
  pub set_in_filters-host_name_count :
      (state after : State Hll) (indexes hash : List ℕ)
      → set_in_filters state indexes hash ≡ some after
      → after.host_name_count ≡ state.host_name_count
  unfolding set_in_filters set_in_filter
  set_in_filters-host_name_count state after [] hash e = cc e
  set_in_filters-host_name_count state after (i ∷ indexes) hash e =
      let (next, one, rest) = >>=-eq-some (set_in_filter state i hash) _ e in
      let (slice, at, one1) = >>=-eq-some (get_elem? state.filters i) _ one in
      let (transformed, turns, one2) =
        >>=-eq-some (filter_index_host_name_hash_transform i hash) _ one1 in
      let (filter, sets, one3) =
        >>=-eq-some
          (Bloom.set_hash (read slice.begin slice.len state.mmap) transformed
            state.header.number_of_hashes)
          _ one2 in
      let same : next.host_name_count ≡ state.host_name_count = cc one3 in
      set_in_filters-host_name_count next after indexes hash rest ∙ same
