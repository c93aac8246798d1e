-- ===== src/State/Register/Examples.antt =====
-- A lookup of "A.b." by a client at 10.0.0.1, for a PTR record and for another.
use honas.Common.{ℕ, ◌≡◌, refl, arith, false, List, [], ◌∷◌, none, some, All}
use honas.Inet.{addr4}
use honas.State.Register.{Run, hash_client, uint64_hash, register_host_name_lookup}
use honas.State.Register.Text.{c_string, strip_trailing_dot, tolower}
use honas.State.Register.Names.{labels_of, parts_behind_dots, second_level}
use honas.State.Register.Recorded.{entity_names, label_names, sld_after, recorded_names}
use honas.State.Register.Complete.{
  IsFound, IsRegistered, register_host_name_lookup_lem,
  check_host_name_lookups-register_host_name_lookup,
}
use honas.State.Examples.{counting, digest, digest-IsDigest, small, small-CanRegister}

abbrev address : List ℕ
address = 10 ∷ 0 ∷ 0 ∷ 1 ∷ []

abbrev host_name : List ℕ
host_name = 65 ∷ 46 ∷ 98 ∷ 46 ∷ []

abbrev start : Run ℕ
start = record { state = small; dry_run = none }

abbrev names : List (List ℕ)
names = (97 ∷ 46 ∷ 98 ∷ []) ∷ (97 ∷ []) ∷ (97 ∷ 46 ∷ 98 ∷ []) ∷ []

hash_client-address : hash_client (addr4 address) ≡ some (uint64_hash address)
unfolding hash_client
hash_client-address = refl

strip-host_name : strip_trailing_dot host_name ≡ some (65 ∷ 46 ∷ 98 ∷ [])
unfolding strip_trailing_dot
strip-host_name = refl

recorded_names-host_name : recorded_names none (97 ∷ 46 ∷ 98 ∷ []) false ≡ some names
unfolding recorded_names entity_names label_names sld_after labels_of parts_behind_dots second_level
    c_string
recorded_names-host_name = refl

register_host_name_lookup_example :
    IsRegistered counting digest digest-IsDigest names small
      (register_host_name_lookup counting digest 1 (addr4 address) host_name none false start)
unfolding tolower
register_host_name_lookup_example =
    register_host_name_lookup_lem counting digest digest-IsDigest 1 (addr4 address) host_name
      (65 ∷ 46 ∷ 98 ∷ []) none false (uint64_hash address) names start small-CanRegister refl refl
      hash_client-address strip-host_name (omega arith) recorded_names-host_name

lookup-IsFound_example :
    (after : Run ℕ) × (register_host_name_lookup counting digest 1
        (addr4 address)
        host_name
        none
        false
        start
      ≡ some after)
    × All (IsFound counting digest digest-IsDigest 1 after.state) names
unfolding tolower
lookup-IsFound_example =
    check_host_name_lookups-register_host_name_lookup counting digest digest-IsDigest 1
      (addr4 address) host_name (65 ∷ 46 ∷ 98 ∷ []) none false (uint64_hash address) names start
      small-CanRegister refl refl hash_client-address strip-host_name (omega arith)
      recorded_names-host_name
