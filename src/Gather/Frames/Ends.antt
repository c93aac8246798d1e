-- ===== src/Gather/Frames/Ends.antt =====
-- src/bin/honas_gather.c: the loop over the frames of a buffer ends.
use honas.Common.{
  ℕ, zero, suc, ◌≤◌, ◌<◌, ◌≡◌, refl, sym, ◌∙◌, List, [], ◌∷◌, Option, none, some, ltb, length, take,
  drop, min, arith, Bool-cases, inl, inr,
}
use honas.Gather.Frames.{
  Connection, Fstrm, FrameRead, incomplete, oversized, bad_control, frame, can_read_full_frame,
  Served, open_with, closed, crashed, process_frame, after_frame, cb_read,
}
use honas.Gather.Frames.Arrival.{can_read_full_frame-Later, length-drop}

module _ {C W : Type 0} (fstrm : Fstrm C) (on_data : W → C → List ℕ → W) where
  abbrev pub max_control : ℕ
  max_control = fstrm.control_frame_length_max

  abbrev pub Loop : Type 0
  Loop = Connection C W → List ℕ → Option (Served C W)

  abbrev pub goes_on :
      Loop → Connection C W → List ℕ → Option (Option (Connection C W)) → Option (Served C W)
  goes_on again conn rest none = some crashed
  goes_on again conn rest (some none) = some (closed conn.world)
  goes_on again conn rest (some (some conn')) = again conn' rest

  goes_on_same :
      (again again' : Loop) (conn : Connection C W) (rest rest' : List ℕ)
      (result : Option (Option (Connection C W)))
      → ((conn' : Connection C W) → again conn' rest ≡ again' conn' rest')
      → goes_on again conn rest result ≡ goes_on again' conn rest' result
  goes_on_same again again' conn rest rest' none h = refl
  goes_on_same again again' conn rest rest' (some none) h = refl
  goes_on_same again again' conn rest rest' (some (some conn')) h = h conn'

  pub after_frame-goes_on :
      (again : Loop) (conn : Connection C W) (buf : List ℕ) (payload total : ℕ)
      → after_frame fstrm on_data again conn buf (frame payload total)
        ≡ goes_on again conn
            (drop total buf)
            (process_frame fstrm on_data payload conn (take total buf))
  unfolding after_frame
  after_frame-goes_on again conn buf payload total =
      same (process_frame fstrm on_data payload conn (take total buf))
    where
      same :
          (result : Option (Option (Connection C W)))
          → (elim result [
            | none ↦ some crashed
            | some result' ↦ elim result' [
              | none ↦ some (closed conn.world)
              | some conn' ↦ again conn' (drop total buf)
            ]
          ])
            ≡ goes_on again conn (drop total buf) result
      same none = refl
      same (some none) = refl
      same (some (some conn')) = refl

  after_frame_same :
      (again again' : Loop) (conn : Connection C W) (buf : List ℕ) (r : FrameRead)
      → ((payload total : ℕ)
          → r ≡ frame payload total
          → (conn' : Connection C W) → again conn' (drop total buf) ≡ again' conn' (drop total buf))
      → after_frame fstrm on_data again conn buf r ≡ after_frame fstrm on_data again' conn buf r
  unfolding after_frame
  after_frame_same again again' conn buf incomplete h = refl
  after_frame_same again again' conn buf (oversized total) h = refl
  after_frame_same again again' conn buf bad_control h = refl
  after_frame_same again again' conn buf (frame payload total) h =
      after_frame-goes_on again conn buf payload total
      ∙ goes_on_same again again' conn (drop total buf) (drop total buf)
          (process_frame fstrm on_data payload conn (take total buf)) (h payload total refl)
      ∙ sym (after_frame-goes_on again' conn buf payload total)

  -- A frame that is found has arrived.
  frame_arrived :
      (buf : List ℕ) (payload total : ℕ)
      → can_read_full_frame max_control buf ≡ frame payload total
      → (total ≤ length buf) × (0 < total)
  frame_arrived buf payload total e =
      let (same, fits, pos) = rw e at (can_read_full_frame-Later max_control buf []) in (fits, pos)

  -- More fuel than that for the bytes of the buffer does not change the result.
  pub cb_read-fuel :
      (f g : ℕ) (conn : Connection C W) (buf : List ℕ)
      → length buf < f
      → length buf < g
      → cb_read fstrm on_data f conn buf ≡ cb_read fstrm on_data g conn buf
  unfolding cb_read
  cb_read-fuel zero g conn buf h k = absurd (omega arith)
  cb_read-fuel (suc f) zero conn buf h k = absurd (omega arith)
  cb_read-fuel (suc f) (suc g) conn [] h k = refl
  cb_read-fuel (suc f) (suc g) conn (b ∷ buf) h k = elim (Bool-cases (ltb 0 conn.bytes_skip)) [
    | inl skips ↦
        let fewer : length (drop (min conn.bytes_skip (length (b ∷ buf))) (b ∷ buf))
            < suc (length buf) =
          ground (arith, skips, length-drop (min conn.bytes_skip (length (b ∷ buf))) (b ∷ buf)) in
        rw skips (
          cb_read-fuel f g _ (drop (min conn.bytes_skip (length (b ∷ buf))) (b ∷ buf))
            (omega (arith, h, fewer)) (omega (arith, k, fewer)))
    | inr reads ↦ rw reads (
        after_frame_same (cb_read fstrm on_data f) (cb_read fstrm on_data g) conn (b ∷ buf)
          (can_read_full_frame max_control (b ∷ buf))
          (λ payload total e conn'.
            let (fits, pos) = frame_arrived (b ∷ buf) payload total e in
            cb_read-fuel f g conn' (drop total (b ∷ buf))
              (omega (arith, h, pos, length-drop total (b ∷ buf)))
              (omega (arith, k, pos, length-drop total (b ∷ buf)))))
  ]

  abbrev Returns : Option (Served C W) → Type 0
  Returns o = (result : Served C W) × (o ≡ some result)

  goes_on-Returns :
      (again : Loop) (conn : Connection C W) (rest : List ℕ)
      (result : Option (Option (Connection C W)))
      → ((conn' : Connection C W) → Returns (again conn' rest))
      → Returns (goes_on again conn rest result)
  goes_on-Returns again conn rest none h = (crashed, refl)
  goes_on-Returns again conn rest (some none) h = (closed conn.world, refl)
  goes_on-Returns again conn rest (some (some conn')) h = h conn'

  after_frame-Returns :
      (again : Loop) (conn : Connection C W) (buf : List ℕ) (r : FrameRead)
      → ((payload total : ℕ)
          → r ≡ frame payload total
          → (conn' : Connection C W) → Returns (again conn' (drop total buf)))
      → Returns (after_frame fstrm on_data again conn buf r)
  unfolding after_frame
  after_frame-Returns again conn buf incomplete h = (open_with conn buf, refl)
  after_frame-Returns again conn buf (oversized total) h =
      (open_with (record conn { bytes_skip = total }) buf, refl)
  after_frame-Returns again conn buf bad_control h = (closed conn.world, refl)
  after_frame-Returns again conn buf (frame payload total) h =
      let (result, returns) =
        goes_on-Returns again conn (drop total buf)
          (process_frame fstrm on_data payload conn (take total buf)) (h payload total refl) in
      (result, after_frame-goes_on again conn buf payload total ∙ returns)

  cb_read-Returns :
      (f : ℕ) (conn : Connection C W) (buf : List ℕ)
      → length buf < f
      → Returns (cb_read fstrm on_data f conn buf)
  unfolding cb_read
  cb_read-Returns zero conn buf h = absurd (omega arith)
  cb_read-Returns (suc f) conn [] h = (open_with conn [], refl)
  cb_read-Returns (suc f) conn (b ∷ buf) h = elim (Bool-cases (ltb 0 conn.bytes_skip)) [
    | inl skips ↦
        let fewer : length (drop (min conn.bytes_skip (length (b ∷ buf))) (b ∷ buf))
            < suc (length buf) =
          ground (arith, skips, length-drop (min conn.bytes_skip (length (b ∷ buf))) (b ∷ buf)) in
        rw skips (
          cb_read-Returns f _ (drop (min conn.bytes_skip (length (b ∷ buf))) (b ∷ buf))
            (omega (arith, h, fewer)))
    | inr reads ↦ rw reads (
        after_frame-Returns (cb_read fstrm on_data f) conn (b ∷ buf)
          (can_read_full_frame max_control (b ∷ buf))
          (λ payload total e conn'.
            let (fits, pos) = frame_arrived (b ∷ buf) payload total e in
            cb_read-Returns f conn' (drop total (b ∷ buf))
              (omega (arith, h, pos, length-drop total (b ∷ buf)))))
  ]

  -- The loop over the frames ends for every buffer and every state of the connection: it has one
  -- result, the same with any fuel for more passes than the buffer has bytes.
  pub cb_read_ends :
      (conn : Connection C W) (buf : List ℕ)
      → (result : Served C W) × ((fuel : ℕ)
          → length buf < fuel
          → cb_read fstrm on_data fuel conn buf ≡ some result)
  cb_read_ends conn buf =
      let (result, returns) = cb_read-Returns (suc (length buf)) conn buf (omega arith) in
      (
        result,
        λ fuel enough. cb_read-fuel fuel (suc (length buf)) conn buf enough (omega arith) ∙ returns,
      )
