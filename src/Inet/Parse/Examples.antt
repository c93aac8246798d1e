-- ===== src/Inet/Parse/Examples.antt =====
-- A library of functions that know one address and one number.
use honas.Common.{
  ℕ, ◌≡◌, refl, arith, true, false, List, [], ◌∷◌, ◌++◌, none, some, codes, same_bytes, pos,
  if◌then◌else◌,
}
use honas.Inet.Parse.{af_inet6, SaIn46, Library, parse_ip_port, str_addr_port, parse_ipv4_cidr}
use honas.Inet.Parse.RoundTrip.{ReadsBack, parse_ip_port-str_addr_port}
use honas.Inet.Parse.Cidr.{parse_ipv4_cidr-network}
use honas.SubnetActivity.Masks.Network.{network, ones}
use honas.Utils.{my_strtol, strchr}

abbrev home6 : List ℕ
home6 = 0 ∷ 0 ∷ 0 ∷ 0 ∷ 0 ∷ 0 ∷ 0 ∷ 0 ∷ 0 ∷ 0 ∷ 0 ∷ 0 ∷ 0 ∷ 0 ∷ 0 ∷ 1 ∷ []

abbrev small_library : Library
small_library = record {
  inet_pton4 =
      λ text. if same_bytes text (codes "10.0.0.1") then some (10 ∷ 0 ∷ 0 ∷ 1 ∷ []) else none;
  inet_pton6 = λ text. if same_bytes text (codes "::1") then some home6 else none;
  inet_ntop4 = λ addr. codes "10.0.0.1";
  inet_ntop6 = λ addr. codes "::1";
  strtol = λ text.
      if same_bytes text (codes "12")
      then record { errno_set = false; value = pos 12; rest = [] }
      else record { errno_set = false; value = pos 0; rest = text };
  print_unsigned = λ n. codes "12";
}

abbrev peer : SaIn46
peer = record { af = af_inet6; port = 12; addr = home6 }

twelve : my_strtol small_library.strtol (codes "12") ≡ some (pos 12)
unfolding my_strtol
twelve = refl

peer-ReadsBack : ReadsBack small_library peer
unfolding strchr
peer-ReadsBack = record {
  ipv4 = λ e. cc e;
  ipv6 = λ e. refl;
  plain = (ground arith, ground arith);
  bracketed = (refl, (refl, (refl, tt)));
  colon = (([], codes ":1"), refl);
  not_any = (refl, refl);
  number = twelve;
  digits = (refl, (refl, tt));
}

parse_ip_port-str_addr_port_example :
    parse_ip_port small_library (str_addr_port small_library peer) 53 true ≡ some peer
parse_ip_port-str_addr_port_example =
    parse_ip_port-str_addr_port small_library peer peer-ReadsBack true 53 (λ e. cc e) (omega arith)
      (omega arith)

parse_ipv4_cidr-network_example :
    parse_ipv4_cidr small_library (codes "10.0.0.1" ++ b'/' ∷ codes "12") [] [] false
    ≡ some (pos 0, 10 ∷ 0 ∷ 0 ∷ 1 ∷ [], network 12 (ones 4))
parse_ipv4_cidr-network_example =
    parse_ipv4_cidr-network small_library (codes "10.0.0.1") (codes "12") (10 ∷ 0 ∷ 0 ∷ 1 ∷ []) []
      [] 12 false (ground arith) twelve (omega arith) (omega arith) refl
