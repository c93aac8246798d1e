-- ===== src/State/Layout/Initialized.antt =====
-- What `honas_state_init_common` leaves in the state when it returns.
use honas.Common.{
  ℕ, zero, suc, ◌+◌, ◌*◌, ◌≤◌, arith, ◌≡◌, refl, ap, ◌∙◌, List, [], ◌∷◌, some, length, get_elem?,
  u32, ◌>>>◌, >>=-eq-some, require, leb,
}
use honas.Combinations.{number_of_combinations}
use honas.State.{State, Slice, Header}
use honas.State.Layout.{
  header_size, honas_state_file_size, filters_from, init_common, client_registers,
  host_name_registers,
}

some_inj : {A : Type 0} {a b : A} → some a ≡ some b → a ≡ b
some_inj e = cc e

-- The estimates of the header do not move the filters.
pub filters_from_estimates :
    (rounds i : ℕ) (h : Header) (clients host_names size : ℕ)
    → filters_from rounds i
        (record h {
          estimated_number_of_clients = clients;
          estimated_number_of_host_names = host_names;
        })
        size
      ≡ filters_from rounds i h size
unfolding filters_from
filters_from_estimates zero i h clients host_names size = refl
filters_from_estimates (suc rounds) i h clients host_names size =
    rw (filters_from_estimates rounds (suc i) h clients host_names size) refl

-- What is known of a state over the file `mmap` with the header `h`.
pub record IsInitialized {Hll : Type 0} (h : Header) (mmap : List ℕ) (size : ℕ) (s : State Hll)
    : Type 0 where
  pub filters : filters_from h.number_of_filters 0 h size ≡ some s.filters
  pub memory : mmap ≡ s.mmap
  pub header : h ≡ s.header
  pub clients : client_registers h ≡ s.client_count_registers
  pub host_names : host_name_registers h ≡ s.host_name_count_registers

pub init_common-eq :
    {Hll : Type 0} (clients host_names : Hll) (h : Header) (mmap : List ℕ) (size : ℕ)
    (s : State Hll)
    → init_common clients host_names h mmap size ≡ some s
    → IsInitialized h mmap size s
unfolding init_common
init_common-eq {Hll} clients host_names h mmap size s e =
    let (u, r1, e1) = >>=-eq-some (require (leb header_size size)) _ e in
    let (fs, r2, e2) =
      >>=-eq-some
        (honas_state_file_size h.first_filter_offset h.padding_after_filters h.number_of_filters
          h.number_of_bits_per_filter h.client_hll_size h.padding_after_client_hll
          h.host_name_hll_size h.padding_after_host_name_hll)
        _ e1 in
    let (u', r3, e3) = >>=-eq-some (require (leb fs size)) _ e2 in
    let (filters, runs, e4) = >>=-eq-some (filters_from h.number_of_filters 0 h size) _ e3 in
    let (combinations, r5, e5) =
      >>=-eq-some (number_of_combinations h.number_of_filters h.number_of_filters_per_user) _ e4 in
    let same = some_inj e5 in
    record {
      filters = runs ∙ ap (λ (t : State Hll). some t.filters) same;
      memory = ap (λ (t : State Hll). t.mmap) same;
      header = ap (λ (t : State Hll). t.header) same;
      clients = ap (λ (t : State Hll). t.client_count_registers) same;
      host_names = ap (λ (t : State Hll). t.host_name_count_registers) same;
    }

-- Filters that the loop finds are inside of the file, whatever the header says.
pub filters_from-inside :
    (rounds i : ℕ) (h : Header) (size : ℕ) (slices : List Slice)
    → filters_from rounds i h size ≡ some slices
    → (length slices ≡ rounds)
      × ((k : ℕ) (slice : Slice) → get_elem? slices k ≡ some slice → slice.begin + slice.len ≤ size)
unfolding filters_from
filters_from-inside zero i h size slices e =
    let same : [] ≡ slices = cc e in rw (← same) (refl, λ k slice at. absurd (cc at))
filters_from-inside (suc rounds) i h size slices e =
    let len = h.number_of_bits_per_filter >>> 3 in
    let begin = u32 (h.first_filter_offset + i * h.padding_after_filters + i * len) in
    let (u, fits, e1) = >>=-eq-some (require (leb (begin + len) size)) _ e in
    let (rest, runs, e2) = >>=-eq-some (filters_from rounds (suc i) h size) _ e1 in
    let (count, inside) = filters_from-inside rounds (suc i) h size rest runs in
    let first : Slice = record { begin = begin; len = len } in
    let same : first ∷ rest ≡ slices = some_inj e2 in
    rw (← same) (
      ap suc count,
      λ k slice.
          elim k
            as (λ j. get_elem? (first ∷ rest) j ≡ some slice → slice.begin + slice.len ≤ size) [
              | zero ↦ λ at.
                  let here : first ≡ slice = some_inj at in
                  rw (← here) (required (begin + len) size u fits)
              | suc j ↦ λ at. inside j slice at
            ],
    )
  where
    required : (a b : ℕ) (u : Unit {0}) → require (leb a b) ≡ some u → a ≤ b
    required a b u r = ground (arith, r)
