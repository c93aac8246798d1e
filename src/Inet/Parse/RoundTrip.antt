-- ===== src/Inet/Parse/RoundTrip.antt =====
-- An address with a port that is printed by `str_addr_port` and read by `parse_ip_port`.
use honas.Common.{
  ℕ, ◌≤◌, ◌≡◌, refl, ◌∙◌, arith, Bool, false, ◌&&◌, List, [], ◌∷◌, ◌++◌, some, le→leb, codes,
  same_bytes, ◌≢◌, pos,
}
use honas.Inet.Parse.{
  Family, af_unspec, af_inet, af_inet6, SaIn46, Library, in_range, str_addr, str_addr_port,
  family_of, convert, parse_ip, parse_port, parse_bracketed, parse_plain, parse_ip_port,
}
use honas.Utils.{my_strtol, strchr, NotIn, strchr-append_here, strchr-none}

-- What the code relies on of the functions of the C library, for an address and a port: the text
-- of an address is read back, has no character that the syntax uses, and a number is read back.
pub record ReadsBack (library : Library) (sa : SaIn46) : Type 0 where
  pub ipv4 : sa.af ≡ af_inet → library.inet_pton4 (library.inet_ntop4 sa.addr) ≡ some sa.addr
  pub ipv6 : sa.af ≡ af_inet6 → library.inet_pton6 (library.inet_ntop6 sa.addr) ≡ some sa.addr
  pub plain : NotIn b':' (library.inet_ntop4 sa.addr) × NotIn b'[' (library.inet_ntop4 sa.addr)
  pub bracketed : NotIn b']' (library.inet_ntop6 sa.addr)
  pub colon : (parts : List ℕ × List ℕ) × (strchr b':' (library.inet_ntop6 sa.addr) ≡ some parts)
  pub not_any :
      (same_bytes (library.inet_ntop4 sa.addr) (codes "*") ≡ false)
      × (same_bytes (library.inet_ntop6 sa.addr) (codes "*") ≡ false)
  pub number : my_strtol library.strtol (library.print_unsigned sa.port) ≡ some (pos sa.port)
  pub digits : NotIn b':' (library.print_unsigned sa.port)

parse_ip_port-plain :
    (library : Library) (before after : List ℕ) (port : ℕ) (allow_any : Bool)
    → NotIn b'[' before
    → parse_ip_port library (before ++ b':' ∷ after) port allow_any
      ≡ parse_plain library (before ++ b':' ∷ after) port allow_any
unfolding parse_ip_port
parse_ip_port-plain library [] after port allow_any h = refl
parse_ip_port-plain library (c ∷ before) after port allow_any h = rw (h.0) refl

module _ (library : Library) (sa : SaIn46) (reads : ReadsBack library sa) (allow_any : Bool) where
  parse_port-print :
      (port : ℕ) (af : Family) (addr : List ℕ)
      → 1 ≤ sa.port
      → sa.port ≤ 65535
      → parse_port library port (library.print_unsigned sa.port) (af, addr)
        ≡ some (record { af = af; port = sa.port; addr = addr })
  unfolding parse_port in_range
  parse_port-print port af addr low high =
      rw (reads.number, le→leb 1 sa.port low, le→leb sa.port 65535 high) refl

  parse_ip4 :
      sa.af ≡ af_inet
      → parse_ip library (library.inet_ntop4 sa.addr) af_inet allow_any ≡ some (af_inet, sa.addr)
  unfolding parse_ip family_of convert
  parse_ip4 e =
      let other : (allow_any && same_bytes (library.inet_ntop4 sa.addr) (codes "*")) ≡ false =
        ground (arith, reads.not_any.0) in
      rw (other, reads.ipv4 e) refl

  parse_ip6 :
      sa.af ≡ af_inet6
      → parse_ip library (library.inet_ntop6 sa.addr) af_unspec allow_any ≡ some (af_inet6, sa.addr)
  unfolding parse_ip family_of convert
  parse_ip6 e =
      let other : (allow_any && same_bytes (library.inet_ntop6 sa.addr) (codes "*")) ≡ false =
        ground (arith, reads.not_any.1) in
      rw (parse_ip, other, family_of, reads.colon.1, reads.ipv6 e) refl

  parse_plain-print :
      (port : ℕ)
      → sa.af ≡ af_inet
      → 1 ≤ sa.port
      → sa.port ≤ 65535
      → parse_plain library
          (library.inet_ntop4 sa.addr ++ b':' ∷ library.print_unsigned sa.port)
          port
          allow_any
        ≡ some (record { af = af_inet; port = sa.port; addr = sa.addr })
  unfolding parse_plain
  parse_plain-print port e low high =
      let split =
        strchr-append_here b':' (library.inet_ntop4 sa.addr) (library.print_unsigned sa.port)
          reads.plain.0 in
      let no_more = strchr-none b':' (library.print_unsigned sa.port) reads.digits in
      rw (parse_plain, split, no_more, parse_ip4 e) (parse_port-print port af_inet sa.addr low high)

  parse_bracketed-print :
      (port : ℕ)
      → sa.af ≡ af_inet6
      → 1 ≤ sa.port
      → sa.port ≤ 65535
      → parse_bracketed library
          (library.inet_ntop6 sa.addr ++ b']' ∷ b':' ∷ library.print_unsigned sa.port)
          port
          allow_any
        ≡ some (record { af = af_inet6; port = sa.port; addr = sa.addr })
  unfolding parse_bracketed
  parse_bracketed-print port e low high =
      let split =
        strchr-append_here b']' (library.inet_ntop6 sa.addr) (b':' ∷ library.print_unsigned sa.port)
          reads.bracketed in
      rw (parse_bracketed, split, parse_ip6 e) (parse_port-print port af_inet6 sa.addr low high)

  parse_printed :
      (port : ℕ) (af : Family)
      → sa.af ≡ af
      → af ≢ af_unspec
      → 1 ≤ sa.port
      → sa.port ≤ 65535
      → parse_ip_port library (str_addr_port library sa) port allow_any
        ≡ some (record { af = af; port = sa.port; addr = sa.addr })
  unfolding str_addr_port str_addr parse_ip_port
  parse_printed port af_unspec e known low high = absurd (known refl)
  parse_printed port af_inet e known low high = rw e (
      parse_ip_port-plain library (library.inet_ntop4 sa.addr) (library.print_unsigned sa.port) port
        allow_any reads.plain.1
      ∙ parse_plain-print port e low high)
  parse_printed port af_inet6 e known low high = rw e (parse_bracketed-print port e low high)

  -- For an address of a known family with a port from 1 to 65535, whose texts the C library reads
  -- back and which use no character of the syntax: what is printed is parsed to the same family,
  -- address and port.
  pub parse_ip_port-str_addr_port :
      (port : ℕ)
      → sa.af ≢ af_unspec
      → 1 ≤ sa.port
      → sa.port ≤ 65535
      → parse_ip_port library (str_addr_port library sa) port allow_any ≡ some sa
  parse_ip_port-str_addr_port port known low high = parse_printed port sa.af refl known low high
