-- ===== src/Gather/Frames.antt =====
-- src/bin/honas_gather.c: the frames of a connection, out of the bytes that have arrived. The input
-- buffer of libevent is a list of bytes. The functions of fstrm, writing to the connection, and what
-- is done with the bytes of a data frame (unpacking them and `decode_dnstap_message`) are arguments.
-- `none` is a loop that has used its fuel; a write out of bounds is `crashed`. The fields `len_buf`, `len_frame_payload` and `len_frame_total`, which every pass of the loop sets
-- before it reads them, are results here.
pub mod Arrival
pub mod Ends
pub mod Chunks
mod Examples
use honas.Common.{
  ℕ, zero, suc, ◌+◌, ◌-◌, ◌*◌, ◌^◌, ◌≡◌, Bool, true, false, ◌||◌, not, List, [], ◌∷◌, ◌++◌, Option,
  none, some, ltb, leb, ◌==◌, if◌then◌else◌, length, take, drop, min, u64, require, ◌>>=◌, ◌>>◌,
}

-- `conn_state`.
pub data ConnState : Type 0 where
  reading_control_ready reading_control_start reading_data stopped : ConnState

-- The types of control frames that the program tells apart.
pub data ControlType : Type 0 where
  control_ready control_start control_stop control_other : ControlType

-- The functions of fstrm on a control frame `C`; `none` is a result other than
-- `fstrm_res_success`. `accept_frame` and `finish_frame` are the calls that set up the answers,
-- and `send` is `bufferevent_write`.
pub record Fstrm (C : Type 0) : Type 0 where
  pub control_frame_length_max : ℕ
  pub decode : C → List ℕ → Option C
  pub get_type : C → Option ControlType
  pub num_content_types : C → Option ℕ
  pub content_type : C → ℕ → Option (List ℕ)
  pub match_content_type : C → Bool
  pub accept_frame : C → Option C
  pub finish_frame : C → Option C
  pub encode : C → Option (List ℕ)
  pub send : List ℕ → Bool

-- `struct connection`, with what has been sent, and `W` for all that lies behind a data frame.
pub record Connection (C W : Type 0) : Type 0 where
  pub state : ConnState
  pub count_read : ℕ
  pub bytes_read : ℕ
  pub bytes_skip : ℕ
  pub control : C
  pub sent : List (List ℕ)
  pub world : W

abbrev pub capture_high_watermark : ℕ
capture_high_watermark = 262144

-- The local buffer of `process_data_frame`.
abbrev pub frame_buffer : ℕ
frame_buffer = 4096

-- `ntohl` of four bytes.
abbrev pub ntohl : ℕ → ℕ → ℕ → ℕ → ℕ
ntohl a b c d = ((a * 256 + b) * 256 + c) * 256 + d

-- What `can_read_full_frame` finds: a part of a frame, a part of a frame that is too large and is to
-- be skipped, a control frame of an illegal length, or a frame, with the lengths of its payload and
-- of the whole.
pub data FrameRead : Type 0 where
  incomplete : FrameRead
  oversized : (total : ℕ) → FrameRead
  bad_control : FrameRead
  frame : (payload total : ℕ) → FrameRead

abbrev arrived : (len_buf payload total : ℕ) → FrameRead
arrived len_buf payload total =
    if ltb len_buf total
    then (if ltb capture_high_watermark total then oversized total else incomplete)
    else frame payload total

-- The length of a control frame stands behind an empty payload.
unfoldable pub control_frame : (max len_buf : ℕ) → List ℕ → FrameRead
control_frame max len_buf (a ∷ b ∷ c ∷ d ∷ rest) =
    if ltb (ntohl a b c d) 4 || ltb max (ntohl a b c d)
    then bad_control
    else arrived len_buf 0 (8 + ntohl a b c d)
control_frame max len_buf rest = incomplete

unfoldable pub can_read_full_frame : (max : ℕ) → List ℕ → FrameRead
can_read_full_frame max (a ∷ b ∷ c ∷ d ∷ rest) =
    let len_buf = length (a ∷ b ∷ c ∷ d ∷ rest) in
    if ntohl a b c d == 0
    then control_frame max len_buf rest
    else arrived len_buf (ntohl a b c d) (4 + ntohl a b c d)
can_read_full_frame max buf = incomplete

-- A connection that stays open, with the bytes that are left, or that has been closed; or a frame
-- that has been written behind the end of the local buffer.
pub data Served (C W : Type 0) : Type 0 where
  open_with : Connection C W → List ℕ → Served C W
  closed : W → Served C W
  crashed : Served C W

abbrev pub conn_init : {C W : Type 0} → C → W → Connection C W
conn_init control world = record {
  state = reading_control_ready;
  count_read = 0;
  bytes_read = 0;
  bytes_skip = 0;
  control = control;
  sent = [];
  world = world;
}

-- The answer to STOP has been written.
unfoldable pub cb_write : {C W : Type 0} → Connection C W → List ℕ → Served C W
cb_write conn buf = elim conn.state [ stopped ↦ closed conn.world | _ ↦ open_with conn buf ]

module _ {C W : Type 0} (fstrm : Fstrm C) (on_data : W → C → List ℕ → W) where
  -- The whole frame, its length field too, is copied into the local buffer; `none` where it does not
  -- fit.
  unfoldable pub process_data_frame : Connection C W → List ℕ → Option (Connection C W)
  process_data_frame conn bytes =
      require (leb (length bytes) frame_buffer)
      >> some (record conn {
        count_read = u64 (conn.count_read + 1);
        bytes_read = u64 (conn.bytes_read + length bytes);
        world = on_data conn.world conn.control bytes;
      })

  -- The functions on control frames return whether the connection goes on.
  unfoldable pub load_control_frame : Connection C W → List ℕ → Option (Connection C W)
  load_control_frame conn bytes =
      if leb fstrm.control_frame_length_max (length bytes)
      then none
      else (fstrm.decode conn.control bytes >>= λ control. some (record conn { control = control }))

  unfoldable pub write_control_frame : Connection C W → Option (Connection C W)
  write_control_frame conn = fstrm.encode conn.control >>= λ bytes.
      require (fstrm.send bytes) >> some (record conn { sent = conn.sent ++ bytes ∷ [] })

  -- The loop over the content types, which are read and not used.
  unfoldable pub content_types_read : (rounds i : ℕ) → C → Bool
  content_types_read zero i control = true
  content_types_read (suc rounds) i control =
      let rest = content_types_read rounds (suc i) control in
      elim (fstrm.content_type control i) [ none ↦ false | some content_type ↦ rest ]

  unfoldable pub process_control_frame_ready : Connection C W → Option (Connection C W)
  process_control_frame_ready conn = fstrm.num_content_types conn.control >>= λ n.
      require (content_types_read n 0 conn.control)
      >> require (fstrm.match_content_type conn.control)
      >> fstrm.accept_frame conn.control
      >>= λ control. write_control_frame (record conn { control = control }) >>= λ conn'.
          some (record conn' { state = reading_control_start })

  unfoldable pub process_control_frame_start : Connection C W → Option (Connection C W)
  process_control_frame_start conn =
      require (fstrm.match_content_type conn.control) >> some (record conn { state = reading_data })

  unfoldable pub process_control_frame_stop : Connection C W → Option (Connection C W)
  process_control_frame_stop conn = fstrm.finish_frame conn.control >>= λ control.
      write_control_frame (record conn { control = control }) >>= λ conn'.
      some (record conn' { state = stopped })

  unfoldable pub control_step : ConnState → ControlType → Connection C W → Option (Connection C W)
  control_step reading_control_ready control_ready conn = process_control_frame_ready conn
  control_step reading_control_start control_start conn = process_control_frame_start conn
  control_step reading_data control_stop conn = process_control_frame_stop conn
  control_step state type conn = none

  unfoldable pub process_control_frame : Connection C W → Option (Connection C W)
  process_control_frame conn =
      fstrm.get_type conn.control >>= λ type. control_step conn.state type conn

  -- A whole frame: `none` in the result is a connection that is to be closed, and `none` as the result
  -- a write out of bounds.
  unfoldable pub process_frame :
      (payload : ℕ) → Connection C W → List ℕ → Option (Option (Connection C W))
  process_frame payload conn bytes =
      if ltb 0 payload
      then (process_data_frame conn bytes >>= λ conn'. some (some conn'))
      else some (load_control_frame conn bytes >>= process_control_frame)

  -- `cb_read`; `again` is the next pass of its loop.
  unfoldable pub after_frame :
      (again : Connection C W → List ℕ → Option (Served C W))
      → Connection C W
      → List ℕ
      → FrameRead
      → Option (Served C W)
  after_frame again conn buf incomplete = some (open_with conn buf)
  after_frame again conn buf (oversized total) =
      some (open_with (record conn { bytes_skip = total }) buf)
  after_frame again conn buf bad_control = some (closed conn.world)
  after_frame again conn buf (frame payload total) =
      elim (process_frame payload conn (take total buf)) [
        | none ↦ some crashed
        | some result ↦ elim result [
          | none ↦ some (closed conn.world)
          | some conn' ↦ again conn' (drop total buf)
        ]
      ]

  unfoldable pub cb_read : (fuel : ℕ) → Connection C W → List ℕ → Option (Served C W)
  cb_read zero conn buf = none
  cb_read (suc fuel) conn [] = some (open_with conn [])
  cb_read (suc fuel) conn (b ∷ buf) =
      if ltb 0 conn.bytes_skip
      then cb_read fuel
          (record conn { bytes_skip = conn.bytes_skip - min conn.bytes_skip (length (b ∷ buf)) })
          (drop (min conn.bytes_skip (length (b ∷ buf))) (b ∷ buf))
      else after_frame (cb_read fuel) conn (b ∷ buf)
          (can_read_full_frame fstrm.control_frame_length_max (b ∷ buf))
