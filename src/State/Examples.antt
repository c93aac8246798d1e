-- ===== src/State/Examples.antt =====
-- A small state, a stand-in for SHA-256, and the properties of states at work on them.
use honas.Common.{
  ℕ, zero, suc, ◌+◌, ◌*◌, ◌%◌, ◌<◌, ◌≤◌, ◌≡◌, refl, arith, true, List, [], ◌∷◌, some, length,
  replicate, length-replicate, All, Rising, dec_lt, ◌⊎◌, inl, inr, ◌≢◌,
}
use honas.ByteSlice.Words.{IsBytes}
use honas.Combinations.Count.{choose}
use honas.Combinations.Lookup.{CanLookUp}
use honas.State.{State, Counting, Slice, Header}
use honas.State.Filters.{set_in_filters, check_host_name_lookups}
use honas.State.Filters.Growth.{IsDigest, IsWellFormed, Grows, Found, At, set_in_filters_lem}
use honas.State.Filters.Check.{check_host_name_lookups_lem}
use honas.State.Register.Chosen.{CanRegister}
use honas.State.Aggregate.{honas_state_aggregate_combine}
use honas.State.Aggregate.Combined.{CanMerge, FoundInOne, honas_state_aggregate_combine_lem}

-- The counters count every element, and own their registers.
abbrev pub counting : Counting ℕ
counting = record {
  registers_owned = λ c. true;
  registers = λ c. [];
  init_from_buffer = λ bytes. 0;
  add = λ count element. count + 1;
  add_owned = λ c element. refl;
}

abbrev pub digest : List ℕ → List ℕ
digest name = replicate 32 (length name % 256)

pub replicate-IsBytes : (n b : ℕ) → b < 256 → IsBytes (replicate n b)
replicate-IsBytes zero b h = tt
replicate-IsBytes (suc n) b h = (h, replicate-IsBytes n b h)

pub digest-IsDigest : (name : List ℕ) → IsDigest (digest name)
digest-IsDigest name = (
  length-replicate 32 (length name % 256),
  replicate-IsBytes 32 (length name % 256) (omega arith),
)

abbrev pub small_header : Header
small_header = record {
  file_magic = [];
  major_version = 1;
  minor_version = 0;
  first_filter_offset = 108;
  padding_after_filters = 0;
  number_of_filters = 2;
  number_of_bits_per_filter = 16;
  number_of_hashes = 3;
  number_of_filters_per_user = 1;
  flatten_threshold = 0;
  client_hll_size = 0;
  padding_after_client_hll = 0;
  host_name_hll_size = 0;
  padding_after_host_name_hll = 0;
  period_begin = 0;
  period_end = 0;
  first_request = 0;
  last_request = 0;
  number_of_requests = 0;
  estimated_number_of_clients = 0;
  estimated_number_of_host_names = 0;
}

abbrev pub slice_at : ℕ → Slice
slice_at begin = record { begin = begin; len = 2 }

abbrev pub small : State ℕ
small = record {
  header = small_header;
  filters = slice_at 108 ∷ slice_at 110 ∷ [];
  nr_filters_per_user_combinations = 2;
  client_count_registers = record { begin = 112; len = 0 };
  host_name_count_registers = record { begin = 112; len = 0 };
  filter_bits_set = 108;
  client_count = 0;
  host_name_count = 0;
  mmap = replicate 112 0;
  size = 112;
}

small-At : (i : ℕ) (slice : Slice) → At small i slice → (i < 2) × (slice ≡ slice_at (108 + 2 * i))
small-At zero slice e = (omega arith, cc e)
small-At (suc zero) slice e = (omega arith, cc e)
small-At (suc (suc i)) slice e = absurd (cc e)

slices_apart : (i j : ℕ) → i ≢ j → (108 + 2 * j + 2 ≤ 108 + 2 * i) ⊎ (108 + 2 * i + 2 ≤ 108 + 2 * j)
slices_apart i j ne = elim (dec_lt i j) [
  | yes below ↦ inr (omega arith)
  | no above ↦ inl (omega arith)
]

pub small-IsWellFormed : IsWellFormed small
small-IsWellFormed = record {
  count = refl;
  hashes = omega arith;
  sized = λ i slice at. rw ((small-At i slice at).1) (omega arith, omega arith);
  inside = λ i slice at.
      rw ((small-At i slice at).1, length-replicate {A = ℕ} 112 0)
        (omega (arith, (small-At i slice at).0));
  apart = λ i j a b at_i at_j ne.
      rw ((small-At i a at_i).1, (small-At j b at_j).1) (slices_apart i j ne);
}

pub two_choose_one : CanLookUp 2 1
unfolding choose
two_choose_one = record {
  some_one = omega arith;
  fits = omega arith;
  word = omega arith;
  small = omega arith;
}

pub small-CanRegister : CanRegister small
unfolding choose
small-CanRegister = record {
  well_formed = small-IsWellFormed;
  can_look_up = two_choose_one;
  counted = refl;
  some_one = omega arith;
}

set_in_filters_example :
    (state' : State ℕ) × (set_in_filters small (1 ∷ 0 ∷ []) (digest []) ≡ some state')
    × Grows small state'
    × All (Found state' (digest [])) (1 ∷ 0 ∷ [])
set_in_filters_example =
    set_in_filters_lem small (1 ∷ 0 ∷ []) (digest []) small-IsWellFormed (digest-IsDigest [])
      (omega arith, (omega arith, tt))

check_host_name_lookups_example :
    (hits : List ℕ) × (check_host_name_lookups small (digest []) ≡ some (length hits, hits))
    × Rising 0 2 hits
    × All (Found small (digest [])) hits
    × ((indexes : List ℕ)
        → Rising 0 2 indexes
        → All (Found small (digest [])) indexes
        → length indexes ≤ length hits)
check_host_name_lookups_example =
    check_host_name_lookups_lem small (digest []) small-IsWellFormed (digest-IsDigest [])

merge_counts : ℕ → ℕ → ℕ × ℕ
merge_counts a b = (a + b, b)

small-CanMerge : CanMerge 4096 8192 small small
small-CanMerge = record {
  target_well_formed = small-IsWellFormed;
  source_well_formed = small-IsWellFormed;
  hashes = refl;
  count = refl;
  target_bytes = replicate-IsBytes 112 0 (omega arith);
  source_bytes = replicate-IsBytes 112 0 (omega arith);
  same_size = λ i t s at_t at_s. rw ((small-At i t at_t).1, (small-At i s at_s).1) refl;
  aligned = λ i t s at_t at_s. rw ((small-At i t at_t).1, (small-At i s at_s).1) (omega arith);
  memory = omega arith;
}

honas_state_aggregate_combine_example :
    (target' source' : State ℕ) × (honas_state_aggregate_combine merge_counts 4096 8192
        (some small)
        (some small)
      ≡ some (true, some target', some source'))
    × IsWellFormed target'
    × ((hash : List ℕ) (k : ℕ)
        → IsDigest hash
        → k < 2
        → FoundInOne merge_counts 4096 8192 small small hash k
        → Found target' hash k)
honas_state_aggregate_combine_example =
    honas_state_aggregate_combine_lem merge_counts 4096 8192 small small small-CanMerge refl

-- Every bit of every filter is set.
abbrev pub full : State ℕ
full = record small { mmap = replicate 112 255 }

pub full-IsWellFormed : IsWellFormed full
full-IsWellFormed = record {
  count = refl;
  hashes = omega arith;
  sized = small-IsWellFormed.sized;
  inside = λ i slice at.
      rw ((small-At i slice at).1, length-replicate {A = ℕ} 112 255)
        (omega (arith, (small-At i slice at).0));
  apart = small-IsWellFormed.apart;
}
