-- ===== src/SubnetActivity/Masks.antt =====
-- The tables of masks: the constants for IPv4, and what `generate_all_ipv6_prefixes` writes.
pub mod Network
use honas.Common.{
  ℕ, zero, suc, ◌+◌, ◌-◌, ◌*◌, ◌/◌, ◌%◌, ◌<◌, ◌≤◌, ◌≡◌, refl, arith, Bool, true, false, ◌&&◌, List,
  [], ◌∷◌, ltb, ◌==◌, if◌then◌else◌, get_or, set, replicate, leb,
}

abbrev pub all_ipv4_subnet_masks : List ℕ
all_ipv4_subnet_masks =
    0x00000000 ∷ 0x00000080 ∷ 0x000000C0 ∷ 0x000000E0 ∷ 0x000000F0 ∷ 0x000000F8 ∷ 0x000000FC
    ∷ 0x000000FE ∷ 0x000000FF ∷ 0x000080FF ∷ 0x0000C0FF ∷ 0x0000E0FF ∷ 0x0000F0FF ∷ 0x0000F8FF
    ∷ 0x0000FCFF ∷ 0x0000FEFF ∷ 0x0000FFFF ∷ 0x0080FFFF ∷ 0x00C0FFFF ∷ 0x00E0FFFF ∷ 0x00F0FFFF
    ∷ 0x00F8FFFF ∷ 0x00FCFFFF ∷ 0x00FEFFFF ∷ 0x00FFFFFF ∷ 0x80FFFFFF ∷ 0xC0FFFFFF ∷ 0xE0FFFFFF
    ∷ 0xF0FFFFFF ∷ 0xF8FFFFFF ∷ 0xFCFFFFFF ∷ 0xFEFFFFFF ∷ 0xFFFFFFFF ∷ []

abbrev pub onecharset : List ℕ
onecharset = 0x01 ∷ 0x03 ∷ 0x07 ∷ 0x0F ∷ 0x1F ∷ 0x3F ∷ 0x7F ∷ 0xFF ∷ []

-- The first loop over bytes, with `rounds` rounds left.
pub fill_bytes : (rounds j : ℕ) → List ℕ → List ℕ
fill_bytes zero j address = address
fill_bytes (suc rounds) j address =
    fill_bytes rounds (suc j) (set address j (get_or onecharset 7 0))

-- The body of the loop of `generate_all_ipv6_prefixes`: what is stored at index `i - 1`.
pub ipv6_subnet_mask : (i : ℕ) → List ℕ
unfolding fill_bytes
ipv6_subnet_mask i =
    let filled = fill_bytes (i / 8) 0 (replicate 16 0) in
    if ltb 0 (i % 8) then set filled (i / 8) (get_or onecharset (i % 8 - 1) 0) else filled

-- From index `i` with `rounds` rounds left.
pub ipv6_masks_from : (rounds i : ℕ) → List (List ℕ)
unfolding ipv6_subnet_mask
ipv6_masks_from zero i = []
ipv6_masks_from (suc rounds) i = ipv6_subnet_mask i ∷ ipv6_masks_from rounds (suc i)

pub all_ipv6_subnet_masks : List (List ℕ)
unfolding ipv6_masks_from
all_ipv6_subnet_masks = ipv6_masks_from 128 1
