-- ===== src/Inet/Parse/Cidr.antt =====
-- `parse_ipv4_cidr` and `parse_ipv6_cidr` on an address with a prefix length.
use honas.Common.{
  ℕ, ◌≤◌, ◌≡◌, ap, arith, ◌≢◌, ◌==◌, false, Bool, List, ◌∷◌, ◌++◌, some, le→leb, pos,
}
use honas.Inet.Parse.{
  Library, ipv4_netmask, cidr_result, in_range, convert, family_of, parse_ip, parse_ipv4,
  parse_ipv6, parse_ipv4_cidr, parse_ipv6_cidr,
}
use honas.Inet.Parse.Netmask.{netmask_bytes-network, ipv6_netmask-network}
use honas.SubnetActivity.Masks.Network.{network, ones}
use honas.Utils.{my_strtol, NotIn, strchr-append_here}

module _ (library : Library) (before after ia old old_mask : List ℕ) (i : ℕ) (allow_any : Bool)
    (no_slash : NotIn b'/' before) (number : my_strtol library.strtol after ≡ some (pos i)) where
  -- For a text of an address, a slash and a number of at most 32 other than 1, where the address
  -- has no slash and is read by inet_pton: the result is 0, and what is written is that address,
  -- and the mask of exactly so many bits in network order, whatever was there before.
  pub parse_ipv4_cidr-network :
      i ≤ 32
      → i ≢ 1
      → library.inet_pton4 before ≡ some ia
      → parse_ipv4_cidr library (before ++ b'/' ∷ after) old old_mask allow_any
        ≡ some (pos 0, ia, network i (ones 4))
  unfolding parse_ipv4_cidr in_range parse_ipv4 parse_ip convert family_of ipv4_netmask cidr_result
  parse_ipv4_cidr-network small defined address =
      rw
        (
          parse_ipv4_cidr,
          strchr-append_here b'/' before after no_slash,
          number,
          le→leb 0 i (omega arith),
          le→leb i 32 small,
          not_one,
          address,
        )
        (ap (λ (mask : List ℕ). some (pos 0, ia, mask)) (netmask_bytes-network i small))
    where
      not_one : (i == 1) ≡ false
      not_one = ground (arith, defined)

  pub parse_ipv6_cidr-network :
      i ≤ 128
      → library.inet_pton6 before ≡ some ia
      → parse_ipv6_cidr library (before ++ b'/' ∷ after) old allow_any
        ≡ some (ia, network i (ones 16))
  unfolding parse_ipv6_cidr in_range parse_ipv6 parse_ip convert family_of
  parse_ipv6_cidr-network small address =
      rw
        (
          parse_ipv6_cidr,
          strchr-append_here b'/' before after no_slash,
          number,
          le→leb 0 i (omega arith),
          le→leb i 128 small,
          address,
        )
        (ap (λ (mask : List ℕ). some (ia, mask)) (ipv6_netmask-network i small))
