-- ===== src/State/Layout/Examples.antt =====
-- A state of two filters of 16 bits on pages of 4096 bytes.
use honas.Common.{ℕ, ◌≡◌, refl, arith, List, Option, some, replicate, length-replicate}
use honas.State.{State}
use honas.State.Layout.{round_up_to_factor_of_two, honas_state_create, new_header}
use honas.State.Layout.Created.{created_size, honas_state_create_lem}
use honas.State.Register.Chosen.{CanRegister}
use honas.State.Examples.{two_choose_one}

abbrev map_zeros : ℕ → Option (List ℕ)
map_zeros size = some (replicate size 0)

created_size-eq : created_size 12 2 16 ≡ 45056
unfolding created_size round_up_to_factor_of_two
created_size-eq = refl

honas_state_create_example :
    (state : State ℕ) × (honas_state_create 0 12 map_zeros 2 16 3 1 0 ≡ some (some state))
    × (state.header ≡ new_header 12 2 16 3 1 0)
    × CanRegister state
honas_state_create_example =
    honas_state_create_lem 12 2 16 3 1 0 (omega arith) (omega arith) (omega arith) (omega arith)
      (omega arith) two_choose_one (rw created_size-eq (omega arith)) 0 map_zeros
      (replicate (created_size 12 2 16) 0) refl (length-replicate (created_size 12 2 16) 0)
