-- ===== src/State/Layout/Created.antt =====
-- What `honas_state_create` lays out: filters inside the file and apart from one another, so that
-- lookups can be registered.
use native.Mathlib.Nat.{mod-eq_of_lt, mul-le-mul_right, pow-le-pow_right}
use honas.Common.{
  ℕ, zero, suc, ◌+◌, ◌-◌, ◌*◌, ◌%◌, ◌^◌, ◌<◌, ◌≤◌, ◌≡◌, refl, sym, ap, ◌∙◌, arith, true, List,
  Option, some, length, get_elem?, lt→ltb, le→leb, ◌==◌, u32, bit_and, ◌>>>◌, ◌>>=◌, ◌>>◌,
}
use honas.Bits.Digitwise.{bit_and_mask}
use honas.Combinations.{number_of_combinations}
use honas.Combinations.Count.{choose, number_of_combinations-eq-choose}
use honas.Combinations.Lookup.{CanLookUp}
use honas.Bloom.Offsets.{IsFilterSize}
use honas.State.{State, Slice, Header}
use honas.State.Register.Chosen.{CanRegister}
use honas.State.Layout.{
  round_up_to_factor_of_two, header_size, hll_dense_size, honas_state_file_size, init_common,
  new_header, honas_state_create, client_registers, host_name_registers,
}
use honas.State.Layout.RoundUp.{round_up_to_factor_of_two-ge}
use honas.State.Layout.Places.{place, filters_end, filters_from_lem, place-inside, apart_by_order}

choose_pos : (n k : ℕ) → k ≤ n → 1 ≤ choose n k
unfolding choose
choose_pos n zero h = omega arith
choose_pos zero (suc k) h = absurd (omega arith)
choose_pos (suc n) (suc k) h = omega (arith, choose_pos n k (omega arith))

-- The size of the file, with no wrap-around.
unfoldable pub file_end : Header → ℕ
unfolding filters_end
file_end h =
    filters_end h h.number_of_filters
    + h.client_hll_size
    + h.padding_after_client_hll
    + h.host_name_hll_size
    + h.padding_after_host_name_hll

-- A header that `honas_state_init_common` takes: its assertions hold, there are combinations for
-- the filters of a user, and the file is below 4 GiB.
pub record IsLayout (h : Header) : Type 0 where
  pub some_bits : 1 ≤ h.number_of_bits_per_filter
  pub whole_bytes : h.number_of_bits_per_filter % 8 ≡ 0
  pub bits_word : h.number_of_bits_per_filter < 2 ^ 32
  pub some_hashes : 1 ≤ h.number_of_hashes
  pub can_look_up : CanLookUp h.number_of_filters h.number_of_filters_per_user
  pub behind_header : header_size ≤ h.first_filter_offset
  pub small : file_end h < 2 ^ 32

pub file_size-eq-file_end :
    (h : Header)
    → IsLayout h
    → honas_state_file_size h.first_filter_offset h.padding_after_filters h.number_of_filters
        h.number_of_bits_per_filter h.client_hll_size h.padding_after_client_hll
        h.host_name_hll_size h.padding_after_host_name_hll
      ≡ some (file_end h)
unfolding honas_state_file_size file_end filters_end
file_size-eq-file_end h l =
    let seven : (bit_and h.number_of_bits_per_filter 7 == 0) ≡ true =
      rw (bit_and_mask 3 h.number_of_bits_per_filter, l.whole_bytes) refl in
    let filters : 0 < h.number_of_filters =
      omega (arith, l.can_look_up.some_one, l.can_look_up.fits) in
    let small = l.small in
    rw
      (
        lt→ltb 0 h.number_of_filters filters,
        lt→ltb 0 h.number_of_bits_per_filter l.some_bits,
        seven,
        le→leb header_size h.first_filter_offset l.behind_header,
        ◌>>◌,
      )
      (ap some (mod-eq_of_lt (omega arith) ∙ omega arith))

pub filter_size : (h : Header) → IsLayout h → IsFilterSize (h.number_of_bits_per_filter >>> 3)
filter_size h l = (omega (arith, l.some_bits, l.whole_bytes), omega (arith, l.bits_word))

module _ {Hll : Type 0} where
  pub init_common_lem :
      (client_count host_name_count : Hll) (h : Header) (mapped : List ℕ)
      → IsLayout h
      → file_end h ≤ length mapped
      → (state : State Hll) × (init_common client_count host_name_count h mapped (length mapped)
          ≡ some state)
        × (state.header ≡ h)
        × CanRegister state
  unfolding init_common
  init_common_lem client_count host_name_count h mapped l fits =
      let n = h.number_of_filters in
      let below : filters_end h (0 + n) ≤ file_end h = unfold file_end filters_end in omega arith in
      let (slices, runs, len, at) =
        filters_from_lem n 0 (length mapped) h (omega arith) (omega (arith, l.small)) in
      let placed : (k : ℕ) (slice : Slice)
          → get_elem? slices k ≡ some slice
          → (k < n) × (slice ≡ place h k) =
        λ k slice e. (
          (at k slice e).0,
          (at k slice e).1 ∙ ap (place h) (let z : 0 + k ≡ k = omega arith in z),
        ) in
      let ends : filters_end h n ≤ file_end h = unfold file_end in omega arith in
      let can = l.can_look_up in
      let total : number_of_combinations n h.number_of_filters_per_user
          ≡ some (choose n h.number_of_filters_per_user) =
        number_of_combinations-eq-choose n h.number_of_filters_per_user can.fits can.word
        ∙ ap some (mod-eq_of_lt can.small) in
      let header_fits : header_size ≤ length mapped =
        (let b = l.behind_header in unfold file_end filters_end in omega arith) in
      let state : State Hll = record {
        header = h;
        filters = slices;
        nr_filters_per_user_combinations = choose n h.number_of_filters_per_user;
        client_count_registers = client_registers h;
        host_name_count_registers = host_name_registers h;
        filter_bits_set = header_size;
        client_count = client_count;
        host_name_count = host_name_count;
        mmap = mapped;
        size = length mapped;
      } in
      (
        state,
        rw
            (
              le→leb header_size (length mapped) header_fits,
              file_size-eq-file_end h l,
              le→leb (file_end h) (length mapped) fits,
              runs,
              total,
              ◌>>=◌,
              ◌>>◌,
            )
            refl,
        refl,
        record {
          well_formed = record {
            count = len;
            hashes = l.some_hashes;
            sized = λ i slice e. rw ((placed i slice e).1) (unfold place in filter_size h l);
            inside = λ i slice e.
                rw ((placed i slice e).1)
                  (omega (arith, ends, place-inside h i n (placed i slice e).0));
            apart =
                λ i j a b e f ne. rw ((placed i a e).1, (placed j b f).1) (apart_by_order h i j ne);
          };
          can_look_up = can;
          counted = refl;
          some_one = choose_pos n h.number_of_filters_per_user can.fits;
        },
      )

-- The size of the file that `honas_state_create` lays out: the header, the filters and two
-- counters, each on pages of its own.
unfoldable pub created_size : (page_shift number_of_filters number_of_bits_per_filter : ℕ) → ℕ
created_size page_shift number_of_filters number_of_bits_per_filter =
    round_up_to_factor_of_two (header_size + 4 * number_of_filters) page_shift
    + number_of_filters * round_up_to_factor_of_two (number_of_bits_per_filter >>> 3) page_shift
    + 2 * round_up_to_factor_of_two hll_dense_size page_shift

layout_sum :
    (first filter counter len n : ℕ)
    → len ≤ filter
    → hll_dense_size ≤ counter
    → 1 ≤ n
    → first + n * filter + 2 * counter < 2 ^ 32
    → u32 first
        + n * u32 (filter - len)
        + n * len
        + hll_dense_size
        + u32 (counter - hll_dense_size)
        + hll_dense_size
        + u32 (counter - hll_dense_size)
      ≡ first + n * filter + 2 * counter
layout_sum first filter counter len n fits count one small =
    let each : 1 * filter ≤ n * filter = mul-le-mul_right filter one in
    let e1 : u32 first ≡ first = mod-eq_of_lt (omega arith) in
    let e2 : u32 (filter - len) ≡ filter - len = mod-eq_of_lt (omega arith) in
    let e3 : u32 (counter - hll_dense_size) ≡ counter - hll_dense_size =
      mod-eq_of_lt (omega arith) in
    let whole : n * (filter - len + len) ≡ n * filter = ap (λ (t : ℕ). n * t) (omega arith) in
    rw (e1, e2, e3) (omega (arith, whole))

module _ (page_shift number_of_filters number_of_bits_per_filter number_of_hashes : ℕ)
    (number_of_filters_per_user flatten_threshold : ℕ) (page : page_shift < 32)
    (some_bits : 1 ≤ number_of_bits_per_filter) (whole_bytes : number_of_bits_per_filter % 8 ≡ 0)
    (bits_word : number_of_bits_per_filter < 2 ^ 32) (some_hashes : 1 ≤ number_of_hashes)
    (can : CanLookUp number_of_filters number_of_filters_per_user)
    (small : created_size page_shift number_of_filters number_of_bits_per_filter < 2 ^ 32) where
  abbrev header : Header
  header =
      new_header page_shift number_of_filters number_of_bits_per_filter number_of_hashes
        number_of_filters_per_user flatten_threshold

  rounded : (value : ℕ) → value < 2 ^ 40 → value ≤ round_up_to_factor_of_two value page_shift
  rounded value h =
      let page_size : 2 ^ page_shift ≤ 2 ^ 32 =
        pow-le-pow_right (omega arith) {j = 32} (omega arith) in
      round_up_to_factor_of_two-ge value page_shift (omega arith) (omega arith)

  file_end-new_header :
      file_end header ≡ created_size page_shift number_of_filters number_of_bits_per_filter
  unfolding file_end filters_end created_size new_header
  file_end-new_header =
      layout_sum (round_up_to_factor_of_two (header_size + 4 * number_of_filters) page_shift)
        (round_up_to_factor_of_two (number_of_bits_per_filter >>> 3) page_shift)
        (round_up_to_factor_of_two hll_dense_size page_shift) (number_of_bits_per_filter >>> 3)
        number_of_filters (rounded _ (omega arith)) (rounded _ (omega arith))
        (omega (arith, can.some_one, can.fits)) small

  header-IsLayout : IsLayout header
  unfolding new_header created_size
  header-IsLayout = record {
    some_bits = some_bits;
    whole_bytes = whole_bytes;
    bits_word = bits_word;
    some_hashes = some_hashes;
    can_look_up = can;
    behind_header =
        let first = round_up_to_factor_of_two (header_size + 4 * number_of_filters) page_shift in
        let kept : u32 first ≡ first = mod-eq_of_lt (omega arith) in
        rw kept
          (omega (arith, rounded (header_size + 4 * number_of_filters) (omega (arith, can.word))));
    small = rw file_end-new_header small;
  }

  -- For pages below 2 ^ 32 bytes, filters of whole bytes and at least one, at least one hash, as
  -- many filters per user as can be chosen, a file below 4 GiB and a mapping of its size: the
  -- function makes a state with the header it describes, and it is laid out for lookups, as the
  -- state before.
  pub honas_state_create_lem :
      {Hll : Type 0} (hll_init : Hll) (mmap : ℕ → Option (List ℕ)) (mapped : List ℕ)
      → mmap (created_size page_shift number_of_filters number_of_bits_per_filter) ≡ some mapped
      → length mapped ≡ created_size page_shift number_of_filters number_of_bits_per_filter
      → (state : State Hll) × (honas_state_create hll_init page_shift mmap number_of_filters
            number_of_bits_per_filter number_of_hashes number_of_filters_per_user flatten_threshold
          ≡ some (some state))
        × (state.header ≡ header)
        × CanRegister state
  unfolding honas_state_create new_header
  honas_state_create_lem hll_init mmap mapped maps sized =
      let seven : (bit_and number_of_bits_per_filter 7 == 0) ≡ true =
        rw (bit_and_mask 3 number_of_bits_per_filter, whole_bytes) refl in
      let fits : file_end header ≤ length mapped = omega (arith, file_end-new_header) in
      let (state, runs, same, can') =
        init_common_lem hll_init hll_init header mapped header-IsLayout fits in
      let file_size : honas_state_file_size header.first_filter_offset header.padding_after_filters
            number_of_filters number_of_bits_per_filter hll_dense_size
            header.padding_after_client_hll hll_dense_size header.padding_after_host_name_hll
          ≡ some (length mapped) =
        file_size-eq-file_end header header-IsLayout ∙ ap some (file_end-new_header ∙ sym sized) in
      let maps' : mmap (length mapped) ≡ some mapped = rw sized maps in
      (
        state,
        rw
            (
              file_size,
              lt→ltb 0 number_of_filters (omega (arith, can.some_one, can.fits)),
              lt→ltb 0 number_of_bits_per_filter some_bits,
              seven,
              lt→ltb 0 number_of_hashes some_hashes,
              lt→ltb 0 number_of_filters_per_user can.some_one,
              maps',
              runs,
              ◌>>=◌,
              ◌>>◌,
            )
            refl,
        same,
        can',
      )
