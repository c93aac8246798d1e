-- ===== src/Inet/Parse/Netmask.antt =====
-- The masks of `parse_ipv4_cidr` and `parse_ipv6_cidr`: the first bits in network order, and no others.
use honas.Common.{ℕ, ◌≤◌, ◌≡◌, refl, arith}
use honas.Inet.Parse.{netmask_bytes, ipv6_netmask, fill_netmask, network_order}
use honas.SubnetActivity.Masks.Network.{network, ones, tabulate, tabulate-eq}

table4 : tabulate netmask_bytes 33 0 ≡ tabulate (λ n. network n (ones 4)) 33 0
unfolding netmask_bytes network_order
table4 = refl

table6 : tabulate ipv6_netmask 129 0 ≡ tabulate (λ n. network n (ones 16)) 129 0
unfolding ipv6_netmask fill_netmask
table6 = refl

pub netmask_bytes-network : (i : ℕ) → i ≤ 32 → netmask_bytes i ≡ network i (ones 4)
netmask_bytes-network i h =
    tabulate-eq netmask_bytes (λ n. network n (ones 4)) 33 i table4 (omega arith)

pub ipv6_netmask-network : (i : ℕ) → i ≤ 128 → ipv6_netmask i ≡ network i (ones 16)
ipv6_netmask-network i h =
    tabulate-eq ipv6_netmask (λ n. network n (ones 16)) 129 i table6 (omega arith)
