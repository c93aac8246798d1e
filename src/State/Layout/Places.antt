-- ===== src/State/Layout/Places.antt =====
-- Where the loop of `honas_state_init_common` finds the filters: inside the file and apart from one
-- another.
use native.Mathlib.Nat.{mod-eq_of_lt, mul-le-mul_right}
use honas.Common.{
  ℕ, zero, suc, ◌+◌, ◌*◌, ◌^◌, ◌<◌, ◌≤◌, ◌≡◌, ◌≢◌, ◌⊎◌, inl, inr, refl, ap, ◌∙◌, arith, dec_lt,
  List, [], ◌∷◌, some, length, get_elem?, le→leb, u32, ◌>>>◌, ◌>>=◌, ◌>>◌,
}
use honas.State.{Slice, Header}
use honas.State.Layout.{filters_from}

-- Where filter `i` stands, with no wrap-around.
unfoldable pub place : Header → ℕ → Slice
place h i = record {
  begin =
      h.first_filter_offset + i * h.padding_after_filters + i * (h.number_of_bits_per_filter >>> 3);
  len = h.number_of_bits_per_filter >>> 3;
}

-- The end of the filters.
unfoldable pub filters_end : Header → ℕ → ℕ
filters_end h n =
    h.first_filter_offset + n * h.padding_after_filters + n * (h.number_of_bits_per_filter >>> 3)

pub filters_end-le : (h : Header) (i n : ℕ) → i ≤ n → filters_end h i ≤ filters_end h n
unfolding filters_end
filters_end-le h i n below = omega (
  arith,
  mul-le-mul_right h.padding_after_filters below,
  mul-le-mul_right (h.number_of_bits_per_filter >>> 3) below,
)

pub filters_from_lem :
    (rounds i size : ℕ) (h : Header)
    → filters_end h (i + rounds) ≤ size
    → filters_end h (i + rounds) < 2 ^ 32
    → (slices : List Slice) × (filters_from rounds i h size ≡ some slices)
      × (length slices ≡ rounds)
      × ((k : ℕ) (slice : Slice)
          → get_elem? slices k ≡ some slice
          → (k < rounds) × (slice ≡ place h (i + k)))
unfolding filters_from place filters_end
filters_from_lem zero i size h fits word = ([], refl, refl, λ k slice at. absurd (cc at))
filters_from_lem (suc rounds) i size h fits word =
    let more : suc i + rounds ≡ i + suc rounds = omega arith in
    let (rest, runs, len, at) =
      filters_from_lem rounds (suc i) size h (rw more fits) (rw more word) in
    let next = filters_end-le h (suc i) (i + suc rounds) (omega arith) in
    let b =
      h.first_filter_offset
      + i * h.padding_after_filters
      + i * (h.number_of_bits_per_filter >>> 3) in
    let l = h.number_of_bits_per_filter >>> 3 in
    let within : b + l ≤ filters_end h (i + suc rounds) = omega (arith, next) in
    let no_wrap : u32 b ≡ b = mod-eq_of_lt (omega arith) in
    (
      place h i ∷ rest,
      rw (no_wrap, le→leb (b + l) size (omega arith), runs, ◌>>=◌, ◌>>◌) refl,
      ap suc len,
      λ k slice.
          elim k
            as (λ k.
              get_elem? (place h i ∷ rest) k ≡ some slice
              → (k < suc rounds) × (slice ≡ place h (i + k))) [
                | zero ↦
                    λ e. (omega arith, cc e ∙ ap (place h) (let z : i ≡ i + 0 = omega arith in z))
                | suc k ↦ λ e.
                    (omega (arith, at k slice e), (at k slice e).1 ∙ ap (place h) (omega arith))
              ],
    )

-- The place of a filter in the file, and those of two.
pub place-inside :
    (h : Header) (i n : ℕ) → i < n → (place h i).begin + (place h i).len ≤ filters_end h n
unfolding place filters_end
place-inside h i n below = omega (arith, filters_end-le h (suc i) n (omega arith))

place-apart :
    (h : Header) (i j : ℕ) → i < j → (place h i).begin + (place h i).len ≤ (place h j).begin
unfolding place filters_end
place-apart h i j below = omega (arith, filters_end-le h (suc i) j (omega arith))

pub apart_by_order :
    (h : Header) (i j : ℕ)
    → i ≢ j
    → ((place h j).begin + (place h j).len ≤ (place h i).begin)
      ⊎ ((place h i).begin + (place h i).len ≤ (place h j).begin)
apart_by_order h i j ne = elim (dec_lt i j) [
  | yes below ↦ inr (place-apart h i j below)
  | no above ↦ inl (place-apart h j i (omega arith))
]
