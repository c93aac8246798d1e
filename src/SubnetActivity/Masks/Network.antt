-- ===== src/SubnetActivity/Masks/Network.antt =====
-- What the tables of masks leave of an address, byte by byte.
use native.Mathlib.Nat.{one-le-pow, div-add-mod, mod-lt, mod-eq_of_lt, mul_comm}
use native.Mathlib.Decide.{dec_lt}
use mathlib.Core.Path.{subst}
use honas.Common.{
  ℕ, zero, suc, ◌+◌, ◌-◌, ◌*◌, ◌/◌, ◌%◌, ◌^◌, ◌<◌, ◌≤◌, ◌≡◌, refl, ap, ap₂, ◌∙◌, arith, List, [],
  ◌∷◌, some, min, bit_and, get_elem?, All,
}
use honas.Bits.Digitwise.{and-IsBitwise, and_zero, op_split, bit_and_mask}
use honas.ByteSlice.Words.{load}
use honas.SubnetActivity.Masks.{
  all_ipv4_subnet_masks, all_ipv6_subnet_masks, ipv6_masks_from, ipv6_subnet_mask, fill_bytes,
}

-- How many of the 8 bits of the byte at index `j` a prefix of length `n` has.
abbrev pub bits_of_byte : (n j : ℕ) → ℕ
bits_of_byte n j = min 8 (n - 8 * j)

-- The first `n` bits of the bytes from index `j` on, in network order; the others are 0.
abbrev pub network_from : (j n : ℕ) → List ℕ → List ℕ
network_from j n [] = []
network_from j n (b ∷ bytes) =
    (b / 2 ^ (8 - bits_of_byte n j) * 2 ^ (8 - bits_of_byte n j)) ∷ network_from (suc j) n bytes

abbrev pub network : ℕ → List ℕ → List ℕ
network n bytes = network_from 0 n bytes

-- As many bits of each byte, but the low ones.
abbrev pub low_bits_from : (j n : ℕ) → List ℕ → List ℕ
low_bits_from j n [] = []
low_bits_from j n (b ∷ bytes) = (b % 2 ^ bits_of_byte n j) ∷ low_bits_from (suc j) n bytes

abbrev pub low_bits : ℕ → List ℕ → List ℕ
low_bits n bytes = low_bits_from 0 n bytes

-- The entries of a table that `f` computes.
abbrev pub tabulate : {A : Type 0} → (ℕ → A) → (rounds i : ℕ) → List A
tabulate f zero i = []
tabulate f (suc rounds) i = f i ∷ tabulate f rounds (suc i)

get_elem?-tabulate :
    {A : Type 0} (f : ℕ → A) (rounds i k n : ℕ)
    → k < rounds
    → n ≡ i + k
    → get_elem? (tabulate f rounds i) k ≡ some (f n)
get_elem?-tabulate f zero i k n h e = absurd (omega arith)
get_elem?-tabulate f (suc rounds) i zero n h e = ap (λ t. some (f t)) (omega arith)
get_elem?-tabulate f (suc rounds) i (suc k) n h e =
    get_elem?-tabulate f rounds (suc i) k n (omega arith) (omega arith)

-- Functions with the same table.
pub tabulate-eq :
    {A : Type 0} (f g : ℕ → A) (rounds n : ℕ)
    → tabulate f rounds 0 ≡ tabulate g rounds 0
    → n < rounds
    → f n ≡ g n
tabulate-eq f g rounds n same h =
    let left = get_elem?-tabulate f rounds 0 n n h (omega arith) in
    let right = get_elem?-tabulate g rounds 0 n n h (omega arith) in
    cc (left, right, ap (λ t. get_elem? t n) same)

abbrev pub ones : (count : ℕ) → List ℕ
ones zero = []
ones (suc count) = 255 ∷ ones count

all_ipv4_subnet_masks-eq : all_ipv4_subnet_masks ≡ tabulate (λ n. load (network n (ones 4))) 33 0
unfolding load
all_ipv4_subnet_masks-eq = refl

pub ipv4_mask :
    (n : ℕ) → n ≤ 32 → get_elem? all_ipv4_subnet_masks n ≡ some (load (network n (ones 4)))
ipv4_mask n h =
    ap (λ t. get_elem? t n) all_ipv4_subnet_masks-eq
    ∙ get_elem?-tabulate (λ m. load (network m (ones 4))) 33 0 n n (omega arith) (omega arith)

all_ipv6_subnet_masks-eq : all_ipv6_subnet_masks ≡ tabulate (λ n. low_bits n (ones 16)) 128 1
unfolding all_ipv6_subnet_masks ipv6_masks_from ipv6_subnet_mask fill_bytes
all_ipv6_subnet_masks-eq = refl

pub ipv6_mask :
    (n : ℕ) → n < 128 → get_elem? all_ipv6_subnet_masks n ≡ some (low_bits (suc n) (ones 16))
ipv6_mask n h =
    ap (λ t. get_elem? t n) all_ipv6_subnet_masks-eq
    ∙ get_elem?-tabulate (λ m. low_bits m (ones 16)) 128 1 n (suc n) h (omega arith)

-- A mask of `k` ones above `w` zeros.
shifted_mask : (w k b : ℕ) → b / 2 ^ w < 2 ^ k → bit_and b (2 ^ w * (2 ^ k - 1)) ≡ b / 2 ^ w * 2 ^ w
shifted_mask w k b h =
    let q = b / 2 ^ w in
    let r = b % 2 ^ w in
    let positive : 0 < 2 ^ w = omega (arith, one-le-pow w 2) in
    let cut : bit_and q (2 ^ k - 1) ≡ q = bit_and_mask k q ∙ mod-eq_of_lt h in
    let whole : b ≡ r + 2 ^ w * q = omega (arith, div-add-mod b (2 ^ w)) in
    let shifted : 2 ^ w * (2 ^ k - 1) ≡ 0 + 2 ^ w * (2 ^ k - 1) = omega arith in
    ap₂ bit_and whole shifted
    ∙ op_split bit_and min and-IsBitwise w r 0 q (2 ^ k - 1) (mod-lt b positive) positive
    ∙ omega (arith, and_zero r r (omega arith), ap (λ t. 2 ^ w * t) cut, mul_comm q (2 ^ w))

IsHigh : ℕ → Type 0
IsHigh k =
    (b : ℕ) → b < 256 → bit_and b (255 / 2 ^ (8 - k) * 2 ^ (8 - k)) ≡ b / 2 ^ (8 - k) * 2 ^ (8 - k)

All-tabulate :
    (P : ℕ → Type 0) (rounds i k : ℕ)
    → All P (tabulate (λ n. n) rounds i)
    → i ≤ k
    → k < i + rounds
    → P k
All-tabulate P zero i k h below above = absurd (omega arith)
All-tabulate P (suc rounds) i k h below above = elim (dec_lt i k) [
  | yes later ↦ All-tabulate P rounds (suc i) k h.1 (omega arith) (omega arith)
  | no same ↦ subst P (omega arith) h.0
]

bits-IsHigh : (k : ℕ) → k ≤ 8 → IsHigh k
unfolding IsHigh
bits-IsHigh k h =
    let widths : All IsHigh (tabulate (λ n. n) 9 0) = (
      λ b lt. shifted_mask 8 0 b (omega arith),
      (
        λ b lt. shifted_mask 7 1 b (omega arith),
        (
          λ b lt. shifted_mask 6 2 b (omega arith),
          (
            λ b lt. shifted_mask 5 3 b (omega arith),
            (
              λ b lt. shifted_mask 4 4 b (omega arith),
              (
                λ b lt. shifted_mask 3 5 b (omega arith),
                (
                  λ b lt. shifted_mask 2 6 b (omega arith),
                  (
                    λ b lt. shifted_mask 1 7 b (omega arith),
                    (λ b lt. shifted_mask 0 8 b (omega arith), tt),
                  ),
                ),
              ),
            ),
          ),
        ),
      ),
    ) in
    All-tabulate IsHigh 9 0 k widths (omega arith) (omega arith)

low_ones : (k : ℕ) → k ≤ 8 → 255 % 2 ^ k ≡ 2 ^ k - 1
low_ones k h =
    let widths : All (λ w. 255 % 2 ^ w ≡ 2 ^ w - 1) (tabulate (λ n. n) 9 0) =
      (refl, (refl, (refl, (refl, (refl, (refl, (refl, (refl, (refl, tt))))))))) in
    All-tabulate (λ w. 255 % 2 ^ w ≡ 2 ^ w - 1) 9 0 k widths (omega arith) (omega arith)

pub network_byte :
    (n j b : ℕ)
    → b < 256
    → bit_and b (255 / 2 ^ (8 - bits_of_byte n j) * 2 ^ (8 - bits_of_byte n j))
      ≡ b / 2 ^ (8 - bits_of_byte n j) * 2 ^ (8 - bits_of_byte n j)
unfolding IsHigh
network_byte n j b h = bits-IsHigh (bits_of_byte n j) (omega arith) b h

pub low_bits_byte : (n j b : ℕ) → bit_and b (255 % 2 ^ bits_of_byte n j) ≡ b % 2 ^ bits_of_byte n j
low_bits_byte n j b =
    ap (bit_and b) (low_ones (bits_of_byte n j) (omega arith)) ∙ bit_and_mask (bits_of_byte n j) b
