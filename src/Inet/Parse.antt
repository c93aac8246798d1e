-- ===== src/Inet/Parse.antt =====
-- The parsing and printing of addresses in src/inet.c. `inet_pton`, `inet_ntop`, `strtol` and the
-- printing of `%u` are parameters; `none` is the result -1.
pub mod Netmask
pub mod RoundTrip
pub mod Cidr
mod Examples
use honas.Common.{
  ℕ, zero, suc, ◌+◌, ◌-◌, ◌*◌, ◌/◌, ◌%◌, ◌^◌, ◌≡◌, refl, Bool, true, false, ◌&&◌, List, [], ◌∷◌,
  ◌++◌, Option, none, some, ltb, leb, ◌==◌, if◌then◌else◌, codes, same_bytes, set, replicate,
  bit_and, ◌<<<◌, ◌>>>◌, ℤ, pos, negsuc, require, ◌>>=◌, ◌>>◌, u32,
}
use honas.ByteSlice.Words.{store}
use honas.Utils.{Parsed, my_strtol, strchr}

pub data Family : Type 0 where
  af_unspec af_inet af_inet6 : Family

-- `sa_in46`: the bytes of `sin_addr` or `sin6_addr` in network order, and the port in host order.
pub record SaIn46 : Type 0 where
  pub af : Family
  pub port : ℕ
  pub addr : List ℕ

-- The functions of the C library.
pub record Library : Type 0 where
  pub inet_pton4 : List ℕ → Option (List ℕ)
  pub inet_pton6 : List ℕ → Option (List ℕ)
  pub inet_ntop4 : List ℕ → List ℕ
  pub inet_ntop6 : List ℕ → List ℕ
  pub strtol : List ℕ → Parsed ℤ
  pub print_unsigned : ℕ → List ℕ

abbrev is_any : (allow_any : Bool) → List ℕ → Bool
is_any allow_any text = allow_any && same_bytes text (codes "*")

-- A number from `low` to `high`, as the tests on the result of `my_strtol`.
pub in_range : (low high : ℕ) → Option ℤ → Option ℕ
in_range low high (some (pos n)) = if leb low n && leb n high then some n else none
in_range low high _ = none

-- The bytes of `htonl(v)` in memory.
pub network_order : ℕ → List ℕ
network_order v = v / 2 ^ 24 % 256 ∷ v / 2 ^ 16 % 256 ∷ v / 2 ^ 8 % 256 ∷ v % 256 ∷ []

-- The bytes of the mask of `parse_ipv4_cidr`; `~` is on 32 bits.
pub netmask_bytes : (i : ℕ) → List ℕ
unfolding network_order
netmask_bytes i =
    if i == 0 then replicate 4 0 else network_order (2 ^ 32 - 1 - ((1 <<< (32 - i)) - 1))

-- The mask of `parse_ipv4_cidr`: `none` where `(1 << 31) - 1` overflows, in `int`, so that what the
-- code does is undefined.
pub ipv4_netmask : (i : ℕ) → Option (List ℕ)
unfolding netmask_bytes
ipv4_netmask i = if i == 1 then none else some (netmask_bytes i)

-- The result of an address that is read or not, with `*ia` and `*netmask` afterwards.
pub cidr_result : Option (List ℕ) → (ia netmask : List ℕ) → ℤ × List ℕ × List ℕ
cidr_result none ia netmask = (negsuc 0, ia, netmask)
cidr_result (some ia') ia netmask = (pos 0, ia', netmask)

-- The loop of `parse_ipv6_cidr`, and the byte behind it.
pub fill_netmask : (rounds i nm_pos : ℕ) → List ℕ → List ℕ
fill_netmask zero i nm_pos netmask =
    if ltb 0 i then set netmask nm_pos (bit_and (0xff00 >>> i) 0xff) else netmask
fill_netmask (suc rounds) i nm_pos netmask =
    if leb 8 i
    then fill_netmask rounds (i - 8) (suc nm_pos) (set netmask nm_pos 0xff)
    else (if ltb 0 i then set netmask nm_pos (bit_and (0xff00 >>> i) 0xff) else netmask)

-- At most 16 rounds, since the length is at most 128.
pub ipv6_netmask : (i : ℕ) → List ℕ
unfolding fill_netmask
ipv6_netmask i = fill_netmask 16 i 0 (replicate 16 0)

module _ (library : Library) where
  pub str_addr : SaIn46 → List ℕ
  str_addr sa = elim sa.af [
    | af_inet ↦ library.inet_ntop4 sa.addr
    | af_inet6 ↦ library.inet_ntop6 sa.addr
    | af_unspec ↦ codes "[unknown address family]"
  ]

  pub str_addr_port : SaIn46 → List ℕ
  unfolding str_addr
  str_addr_port sa = elim sa.af [
    | af_inet ↦ str_addr sa ++ b':' ∷ library.print_unsigned sa.port
    | af_inet6 ↦ b'[' ∷ (str_addr sa ++ b']' ∷ b':' ∷ library.print_unsigned sa.port)
    | af_unspec ↦ codes "[unknown address family]"
  ]

  -- The family that is not given is that of the text.
  pub family_of : Family → List ℕ → Family
  family_of af_unspec text = elim (strchr b':' text) [ none ↦ af_inet | some parts ↦ af_inet6 ]
  family_of af text = af

  pub convert : Family → List ℕ → Option (List ℕ)
  convert af_inet text = library.inet_pton4 text
  convert af_inet6 text = library.inet_pton6 text
  convert af_unspec text = none

  -- Where the text is `*` and that is allowed.
  pub any_address : Family → Family × List ℕ
  any_address af_inet = (af_inet, replicate 4 0)
  any_address _ = (af_inet6, replicate 16 0)

  -- The family and the address that are written.
  pub parse_ip : List ℕ → Family → (allow_any : Bool) → Option (Family × List ℕ)
  unfolding family_of convert any_address
  parse_ip text af allow_any =
      if is_any allow_any text
      then some (any_address af)
      else (do addr ← convert (family_of af text) text; some (family_of af text, addr))

  pub parse_ipv4 : List ℕ → (allow_any : Bool) → Option (List ℕ)
  unfolding parse_ip
  parse_ipv4 text allow_any = do (af, addr) ← parse_ip text af_inet allow_any; some addr

  pub parse_ipv6 : List ℕ → (allow_any : Bool) → Option (List ℕ)
  unfolding parse_ip
  parse_ipv6 text allow_any = do (af, addr) ← parse_ip text af_inet6 allow_any; some addr

  -- The result, with `*ia` and `*netmask` afterwards; `ia` and `netmask` are what they were before.
  -- `none` is behaviour that is undefined.
  pub parse_ipv4_cidr :
      List ℕ → (ia netmask : List ℕ) → (allow_any : Bool) → Option (ℤ × List ℕ × List ℕ)
  unfolding parse_ipv4 ipv4_netmask in_range cidr_result
  parse_ipv4_cidr text ia netmask allow_any = elim (strchr b'/' text) [
    | none ↦
        if is_any allow_any text
        then some (pos 0, replicate 4 0, replicate 4 0)
        else some (cidr_result (parse_ipv4 text false) ia (replicate 4 0xff))
    | some (before, after) ↦ elim (in_range 0 32 (my_strtol library.strtol after)) [
      | none ↦ some (negsuc 0, ia, netmask)
      | some i ↦ (do mask ← ipv4_netmask i; some (cidr_result (parse_ipv4 before false) ia mask))
    ]
  ]

  -- The address and the mask with result 0, `none` for result -1. `ia` is what `*ia` was before; a
  -- text that is no address leaves it, with result 0.
  pub parse_ipv6_cidr : List ℕ → (ia : List ℕ) → (allow_any : Bool) → Option (List ℕ × List ℕ)
  unfolding parse_ipv6 ipv6_netmask in_range
  parse_ipv6_cidr text ia allow_any = elim (strchr b'/' text) [
    | none ↦
        if is_any allow_any text
        then some (replicate 16 0, replicate 16 0)
        else (do ia' ← parse_ipv6 text false; some (ia', replicate 16 0xff))
    | some (before, after) ↦ (do
      i ← in_range 0 128 (my_strtol library.strtol after)
      elim (parse_ipv6 before false) [
        | none ↦ some (ia, ipv6_netmask i)
        | some ia' ↦ some (ia', ipv6_netmask i)
      ])
  ]

  -- What stands behind the address: nothing, or a port. Without one the port stays as it was.
  pub parse_port : (port : ℕ) → (after : List ℕ) → Family × List ℕ → Option SaIn46
  unfolding in_range
  parse_port port after (af, addr) = do
    p ← in_range 1 65535 (my_strtol library.strtol after)
    some (record { af = af; port = p; addr = addr })

  unported : (port : ℕ) → Family × List ℕ → SaIn46
  unported port (af, addr) = record { af = af; port = port; addr = addr }

  -- '[' <address> ']' with what stands behind it.
  pub parse_bracketed : List ℕ → (port : ℕ) → (allow_any : Bool) → Option SaIn46
  unfolding parse_ip parse_port unported
  parse_bracketed text port allow_any = do
    (before, after) ← strchr b']' text
    address ← parse_ip before af_unspec allow_any
    elim after [
      | [] ↦ some (unported port address)
      | c ∷ number ↦ if c == b':' then parse_port port number address else none
    ]

  -- <ipv4>, <ipv6>, or <ipv4> ':' <port>.
  pub parse_plain : List ℕ → (port : ℕ) → (allow_any : Bool) → Option SaIn46
  unfolding parse_ip parse_port unported
  parse_plain text port allow_any = elim (strchr b':' text) [
    | none ↦ (do address ← parse_ip text af_inet allow_any; some (unported port address))
    | some (before, after) ↦ elim (strchr b':' after) [
      | some parts ↦ (do address ← parse_ip text af_inet6 allow_any; some (unported port address))
      | none ↦ (do address ← parse_ip before af_inet allow_any; parse_port port after address)
    ]
  ]

  -- `port` is what is in the structure before.
  pub parse_ip_port : List ℕ → (port : ℕ) → (allow_any : Bool) → Option SaIn46
  unfolding parse_bracketed parse_plain
  parse_ip_port [] port allow_any = parse_plain [] port allow_any
  parse_ip_port (c ∷ text) port allow_any =
      if c == b'['
      then parse_bracketed text port allow_any
      else parse_plain (c ∷ text) port allow_any
