-- ===== src/Gather/Frames/Examples.antt =====
-- Two frames of data that arrive in two pieces.
use honas.Common.{ℕ, ◌≡◌, refl, true, List, [], ◌∷◌, ◌++◌, none, some, arith, ◌>>=◌, ◌<◌, length}
use honas.Gather.Frames.{
  Connection, Fstrm, control_stop, reading_data, can_read_full_frame, Served, open_with,
  process_data_frame, process_frame, after_frame, cb_read,
}
use honas.Gather.Frames.Ends.{cb_read_ends}
use honas.Gather.Frames.Chunks.{cb_read-append, with_more}

abbrev no_control : Fstrm ℕ
no_control = record {
  control_frame_length_max = 512;
  decode = λ c bytes. none;
  get_type = λ c. some control_stop;
  num_content_types = λ c. some 0;
  content_type = λ c i. none;
  match_content_type = λ c. true;
  accept_frame = λ c. some c;
  finish_frame = λ c. some c;
  encode = λ c. some [];
  send = λ bytes. true;
}

abbrev collect : List (List ℕ) → ℕ → List ℕ → List (List ℕ)
collect world control bytes = world ++ bytes ∷ []

abbrev connection : Connection ℕ (List (List ℕ))
connection = record {
  state = reading_data;
  count_read = 0;
  bytes_read = 0;
  bytes_skip = 0;
  control = 0;
  sent = [];
  world = [];
}

abbrev first_piece : List ℕ
first_piece = 0 ∷ 0 ∷ 0 ∷ 1 ∷ 7 ∷ 0 ∷ 0 ∷ []

abbrev second_piece : List ℕ
second_piece = 0 ∷ 2 ∷ 8 ∷ 9 ∷ []

both_read :
    cb_read no_control collect 20 connection (first_piece ++ second_piece)
    ≡ some (
        open_with
          (record connection {
            count_read = 2;
            bytes_read = 11;
            world = (0 ∷ 0 ∷ 0 ∷ 1 ∷ 7 ∷ []) ∷ (0 ∷ 0 ∷ 0 ∷ 2 ∷ 8 ∷ 9 ∷ []) ∷ [];
          })
          [])
unfolding cb_read can_read_full_frame after_frame process_frame process_data_frame
both_read = refl

cb_read-append_example : cb_read no_control collect 20 connection (first_piece ++ second_piece) ≡ (
    cb_read no_control collect 10 connection first_piece
    >>= with_more no_control collect (cb_read no_control collect 30) second_piece)
unfolding cb_read can_read_full_frame after_frame process_frame process_data_frame
cb_read-append_example =
    cb_read-append no_control collect 10 20 30 connection first_piece second_piece (omega arith)
      (omega arith) (omega arith) refl

cb_read_ends_example :
    (result : Served ℕ (List (List ℕ))) × ((fuel : ℕ)
      → length first_piece < fuel
      → cb_read no_control collect fuel connection first_piece ≡ some result)
cb_read_ends_example = cb_read_ends no_control collect connection first_piece
