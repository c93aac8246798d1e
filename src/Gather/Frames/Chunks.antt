-- ===== src/Gather/Frames/Chunks.antt =====
-- src/bin/honas_gather.c: it does not matter in which pieces the bytes of a connection arrive.
use honas.Common.{
  ℕ, zero, suc, ◌-◌, ◌≤◌, ◌<◌, ◌≡◌, refl, sym, ap, ◌∙◌, List, [], ◌∷◌, ◌++◌, Option, none, some,
  ltb, leb, length, take, drop, min, length-append, arith, Bool-cases, inl, inr, ◌>>=◌,
}
use mathlib.Core.Path.{subst}
use honas.Gather.Frames.{
  Connection, Fstrm, FrameRead, incomplete, oversized, bad_control, frame, Served, open_with,
  closed, crashed, process_frame, after_frame, cb_read,
}
use honas.Gather.Frames.Arrival.{
  Later, can_read_full_frame-Later, take-append, drop-append, drop_all, length-drop,
}
use honas.Gather.Frames.Ends.{Loop, max_control, goes_on, after_frame-goes_on, cb_read-fuel}

module _ {C W : Type 0} (fstrm : Fstrm C) (on_data : W → C → List ℕ → W) where
  -- The loop over the bytes that are left, with more behind them.
  abbrev pub with_more : Loop fstrm on_data → List ℕ → Served C W → Option (Served C W)
  with_more again more (open_with conn rest) = again conn (rest ++ more)
  with_more again more (closed world) = some (closed world)
  with_more again more crashed = some crashed

  -- No frame is being skipped.
  abbrev pub NoSkip : Option (Served C W) → Type 0
  NoSkip none = Unit {0}
  NoSkip (some (open_with conn rest)) = conn.bytes_skip ≡ 0
  NoSkip (some (closed world)) = Unit {0}
  NoSkip (some crashed) = Unit {0}

  module _ (f g e : ℕ) (more : List ℕ) where
    abbrev then_more : Option (Served C W) → Option (Served C W)
    then_more o = o >>= with_more (cb_read fstrm on_data e) more

    -- The next pass is right for these bytes.
    abbrev GoesOn : Connection C W → List ℕ → Type 0
    GoesOn conn rest =
        NoSkip (cb_read fstrm on_data f conn rest)
        → cb_read fstrm on_data g conn (rest ++ more)
          ≡ then_more (cb_read fstrm on_data f conn rest)

    goes_on-then_more :
        (conn : Connection C W) (rest : List ℕ) (result : Option (Option (Connection C W)))
        → ((conn' : Connection C W) → GoesOn conn' rest)
        → NoSkip (goes_on fstrm on_data (cb_read fstrm on_data f) conn rest result)
        → goes_on fstrm on_data (cb_read fstrm on_data g) conn (rest ++ more) result
          ≡ then_more (goes_on fstrm on_data (cb_read fstrm on_data f) conn rest result)
    goes_on-then_more conn rest none next n = refl
    goes_on-then_more conn rest (some none) next n = refl
    goes_on-then_more conn rest (some (some conn')) next n = next conn' n

    after_frame-then_more :
        (conn : Connection C W) (buf : List ℕ) (r r' : FrameRead)
        → Later (length buf) r r'
        → (r ≡ incomplete
            → after_frame fstrm on_data (cb_read fstrm on_data g) conn (buf ++ more) r'
              ≡ cb_read fstrm on_data e conn (buf ++ more))
        → ((total : ℕ)
            → total ≤ length buf
            → 0 < total
            → (conn' : Connection C W) → GoesOn conn' (drop total buf))
        → NoSkip (after_frame fstrm on_data (cb_read fstrm on_data f) conn buf r)
        → after_frame fstrm on_data (cb_read fstrm on_data g) conn (buf ++ more) r'
          ≡ then_more (after_frame fstrm on_data (cb_read fstrm on_data f) conn buf r)
    unfolding after_frame
    after_frame-then_more conn buf incomplete r' later stops next n = stops refl
    after_frame-then_more conn buf (oversized total) r' later stops next n =
        absurd (omega (arith, later, n))
    after_frame-then_more conn buf bad_control r' later stops next n = rw later refl
    after_frame-then_more conn buf (frame payload total) r' (same, fits, pos) stops next n =
        ap (after_frame fstrm on_data (cb_read fstrm on_data g) conn (buf ++ more)) same
        ∙ after_frame-goes_on fstrm on_data (cb_read fstrm on_data g) conn (buf ++ more) payload
            total
        ∙ ap
            (λ bytes.
              goes_on fstrm on_data (cb_read fstrm on_data g) conn (drop total (buf ++ more))
                (process_frame fstrm on_data payload conn bytes))
            (take-append total buf more fits)
        ∙ ap
            (λ rest.
              goes_on fstrm on_data (cb_read fstrm on_data g) conn rest
                (process_frame fstrm on_data payload conn (take total buf)))
            (drop-append total buf more fits)
        ∙ goes_on-then_more conn (drop total buf)
            (process_frame fstrm on_data payload conn (take total buf)) (next total fits pos)
            (subst NoSkip
              (after_frame-goes_on fstrm on_data (cb_read fstrm on_data f) conn buf payload total)
              n)
        ∙ ap then_more (
            sym
              (after_frame-goes_on fstrm on_data (cb_read fstrm on_data f) conn buf payload total))

  -- Where the bytes end inside of a frame that is skipped, it is still being skipped.
  skipped_all :
      (f : ℕ) (conn : Connection C W)
      → 0 < f
      → NoSkip (cb_read fstrm on_data f conn [])
      → conn.bytes_skip ≡ 0
  unfolding cb_read
  skipped_all zero conn h n = absurd (omega arith)
  skipped_all (suc f) conn h n = n

  -- With fuel for more than the bytes, and where no frame is being skipped behind the first piece:
  -- serving a connection with bytes that arrive in two pieces, the second behind what is left of
  -- the first, does the same as serving it with all of them at once.
  pub cb_read-append :
      (f g e : ℕ) (conn : Connection C W) (buf more : List ℕ)
      → length buf < f
      → length (buf ++ more) < g
      → length (buf ++ more) < e
      → NoSkip (cb_read fstrm on_data f conn buf)
      → cb_read fstrm on_data g conn (buf ++ more)
        ≡ (cb_read fstrm on_data f conn buf >>= with_more (cb_read fstrm on_data e) more)
  unfolding cb_read
  cb_read-append zero g e conn buf more h k l n = absurd (omega arith)
  cb_read-append (suc f) g e conn [] more h k l n = cb_read-fuel fstrm on_data g e conn more k l
  cb_read-append (suc f) zero e conn (b ∷ buf) more h k l n = absurd (omega arith)
  cb_read-append (suc f) (suc g) e conn (b ∷ buf) more h k l n =
      elim (Bool-cases (ltb 0 conn.bytes_skip)) [
        | inr reads ↦ rw reads (
            after_frame-then_more f g e more conn (b ∷ buf) _ _
              (can_read_full_frame-Later (max_control fstrm on_data) (b ∷ buf) more)
              (λ part.
                rw reads at (cb_read-fuel fstrm on_data (suc g) e conn (b ∷ (buf ++ more)) k l))
              (λ total fits pos conn' m.
                cb_read-append f g e conn' (drop total (b ∷ buf)) more
                  (omega (arith, h, pos, length-drop total (b ∷ buf)))
                  (omega (
                    arith,
                    k,
                    pos,
                    fits,
                    length-drop total (b ∷ buf),
                    length-append (drop total (b ∷ buf)) more,
                    length-append buf more,
                  ))
                  (omega (
                    arith,
                    l,
                    pos,
                    fits,
                    length-drop total (b ∷ buf),
                    length-append (drop total (b ∷ buf)) more,
                    length-append buf more,
                  ))
                  m)
              (rw reads at n))
        | inl skips ↦ elim (Bool-cases (leb conn.bytes_skip (length (b ∷ buf)))) [
          | inl inside ↦
              let short : min conn.bytes_skip (length (b ∷ buf)) ≡ conn.bytes_skip =
                ground (arith, inside) in
              let long : min conn.bytes_skip (length (b ∷ (buf ++ more))) ≡ conn.bytes_skip =
                ground (arith, inside, length-append buf more) in
              let whole : conn.bytes_skip ≤ length (b ∷ buf) = ground (arith, inside) in
              let some_skip : 0 < conn.bytes_skip = ground (arith, skips) in
              let rest = drop conn.bytes_skip (b ∷ buf) in
              let conn' : Connection C W = record conn {
                bytes_skip = conn.bytes_skip - conn.bytes_skip;
              } in
              rw (skips, short, long)
                (ap (cb_read fstrm on_data g conn')
                    (drop-append conn.bytes_skip (b ∷ buf) more whole)
                  ∙ cb_read-append f g e conn' rest more
                      (omega (arith, h, some_skip, length-drop conn.bytes_skip (b ∷ buf)))
                      (omega (
                        arith,
                        k,
                        some_skip,
                        whole,
                        length-drop conn.bytes_skip (b ∷ buf),
                        length-append rest more,
                        length-append buf more,
                      ))
                      (omega (
                        arith,
                        l,
                        some_skip,
                        whole,
                        length-drop conn.bytes_skip (b ∷ buf),
                        length-append rest more,
                        length-append buf more,
                      ))
                      (rw (skips, short) at n))
          | inr beyond ↦
              let all_of_it : min conn.bytes_skip (length (b ∷ buf)) ≡ length (b ∷ buf) =
                ground (arith, beyond) in
              let nothing : drop (length (b ∷ buf)) (b ∷ buf) ≡ [] = drop_all (b ∷ buf) in
              let left : conn.bytes_skip - length (b ∷ buf) ≡ 0 =
                skipped_all f (record conn { bytes_skip = conn.bytes_skip - length (b ∷ buf) })
                  (omega (arith, h)) (rw (skips, all_of_it, nothing) at n) in
              absurd (ground (arith, beyond, left))
        ]
      ]
