-- ===== src/Collect/Frames.antt =====
-- The records that the patched browser writes, and what the scan of src/collect.rs makes of them.
use afeye.Prelude.{
  ℕ, zero, suc, ◌+◌, ◌-◌, ◌^◌, ◌≤◌, ◌<◌, ◌≡◌, refl, sym, ◌∙◌, subst, true, List, [], ◌∷◌, ◌++◌,
  append-nil, append_assoc, Bytes, length, length-append, All, done, slice, le→leb, le→ltb-false,
  lt→ltb, arith,
}
use afeye.Bctrace.Read.{to_le, length-to_le}
use afeye.Bctrace.Cursor.{At, At-length, At-byte, At-slice, At-skip, At-u16, At-u32, At-u64}
use afeye.Collect.{
  Frame, Scan, hdr, max_record, max_kind, deliver, frame_of, bytes_ok, header_ok, frames_loop,
  scan_frames,
}

-- The limits of the wire format, and the four bytes of it that nobody reads.
pub record IsFrame (layer_id : ℕ) (reserved : Bytes) (f : Frame) : Type 0 where
  pub layer : f.layer_id ≡ layer_id
  pub reserved_4 : length reserved ≡ 4
  pub kind : f.kind ≤ max_kind
  pub flags : f.flags ≤ 1
  pub sid : f.sid < 2 ^ 32
  pub tid : f.tid < 2 ^ 16
  pub ts : f.ts < 2 ^ 64
  pub payload : hdr + length f.payload ≤ max_record

abbrev pub deliver_all : List Frame → Scan → Scan
deliver_all [] st = st
deliver_all (f ∷ fs) st = deliver_all fs (deliver f st)

module _ (reserved : Bytes) where
  -- a record, and the bytes behind it
  unfoldable pub put_frame : Frame → Bytes → Bytes
  put_frame f rest =
      to_le 4 (hdr + length f.payload)
      ++ (f.kind
          ∷ (f.flags
              ∷ (to_le 4 f.sid
                  ++ (to_le 2 f.tid ++ (reserved ++ (to_le 8 f.ts ++ (f.payload ++ rest)))))))

  abbrev pub put_frames : List Frame → Bytes → Bytes
  put_frames [] rest = rest
  put_frames (f ∷ fs) rest = put_frame f (put_frames fs rest)

  put_frame-append : (f : Frame) (rest : Bytes) → put_frame f rest ≡ put_frame f [] ++ rest
  unfolding put_frame to_le
  put_frame-append f rest =
      rw (append-nil f.payload, append_assoc reserved (to_le 8 f.ts ++ f.payload) rest) refl

  module _ (layer_id : ℕ) where
    pub length-put_frame :
        (f : Frame) (rest : Bytes)
        → IsFrame layer_id reserved f
        → length (put_frame f rest) ≡ hdr + length f.payload + length rest
    unfolding put_frame to_le
    length-put_frame f rest w = omega (
      arith,
      w.reserved_4,
      length-append reserved (to_le 8 f.ts ++ (f.payload ++ rest)),
      length-append f.payload rest,
    )

    -- the parts of a record that stands at `p`
    module _ (b : Bytes) (p : ℕ) (f : Frame) (rest : Bytes) (w : IsFrame layer_id reserved f) where
      At-kind :
          At b p (put_frame f rest)
          → At b (p + 4) (
              f.kind
              ∷ (f.flags
                  ∷ (to_le 4 f.sid
                      ++ (to_le 2 f.tid ++ (reserved ++ (to_le 8 f.ts ++ (f.payload ++ rest)))))))
      unfolding put_frame
      At-kind at =
          At-skip b p (to_le 4 (hdr + length f.payload)) _ (p + 4) at
            (omega (arith, length-to_le 4 (hdr + length f.payload)))

      At-flags :
          At b p (put_frame f rest)
          → At b (p + 5) (
              f.flags
              ∷ (to_le 4 f.sid
                  ++ (to_le 2 f.tid ++ (reserved ++ (to_le 8 f.ts ++ (f.payload ++ rest))))))
      At-flags at = At-skip b (p + 4) (f.kind ∷ []) _ (p + 5) (At-kind at) (omega arith)

      At-sid :
          At b p (put_frame f rest)
          → At b (p + 6) (
              to_le 4 f.sid
              ++ (to_le 2 f.tid ++ (reserved ++ (to_le 8 f.ts ++ (f.payload ++ rest)))))
      At-sid at = At-skip b (p + 5) (f.flags ∷ []) _ (p + 6) (At-flags at) (omega arith)

      At-tid :
          At b p (put_frame f rest)
          → At b (p + 10) (to_le 2 f.tid ++ (reserved ++ (to_le 8 f.ts ++ (f.payload ++ rest))))
      At-tid at =
          At-skip b (p + 6) (to_le 4 f.sid) _ (p + 10) (At-sid at)
            (omega (arith, length-to_le 4 f.sid))

      At-ts : At b p (put_frame f rest) → At b (p + 16) (to_le 8 f.ts ++ (f.payload ++ rest))
      At-ts at =
          At-skip b (p + 12) reserved _ (p + 16)
            (At-skip b (p + 10) (to_le 2 f.tid) _ (p + 12) (At-tid at)
              (omega (arith, length-to_le 2 f.tid)))
            (omega (arith, w.reserved_4))

      At-payload : At b p (put_frame f rest) → At b (p + 24) (f.payload ++ rest)
      At-payload at =
          At-skip b (p + 16) (to_le 8 f.ts) _ (p + 24) (At-ts at)
            (omega (arith, length-to_le 8 f.ts))

      pub bytes_ok-put_frame : At b p (put_frame f rest) → bytes_ok b p ≡ done true
      unfolding bytes_ok
      bytes_ok-put_frame at = rw (At-byte b (p + 4) f.kind _ (At-kind at)) (
          rw (At-byte b (p + 5) f.flags _ (At-flags at))
            (rw (le→leb f.kind max_kind w.kind) (rw (le→leb f.flags 1 w.flags))))

      header_ok-put_frame :
          At b p (put_frame f rest) → header_ok b p (hdr + length f.payload) ≡ done true
      unfolding header_ok
      header_ok-put_frame at =
          rw (le→leb hdr (hdr + length f.payload) (omega arith))
            (rw (le→leb (hdr + length f.payload) max_record w.payload) (bytes_ok-put_frame at))

      -- the bytes from the record on hold it
      slice-put_frame :
          At b p (put_frame f rest)
          → slice b p (p + (hdr + length f.payload)) ≡ done (put_frame f [])
      slice-put_frame at =
          At-slice b p (put_frame f []) rest _ (subst (At b p) (put_frame-append f rest) at)
            (omega (arith, length-put_frame f [] w))

    frame_of-put_frame :
        (f : Frame) → IsFrame layer_id reserved f → frame_of layer_id (put_frame f []) ≡ done f
    unfolding frame_of
    frame_of-put_frame f w =
        let b = put_frame f [] in
        let at : At b 0 b = ([], refl, refl) in
        rw (At-byte b 4 f.kind _ (At-kind b 0 f [] w at)) (
          rw (At-byte b 5 f.flags _ (At-flags b 0 f [] w at)) (
            rw (At-u32 b 6 f.sid _ w.sid (At-sid b 0 f [] w at)) (
              rw (At-u16 b 10 f.tid _ w.tid (At-tid b 0 f [] w at)) (
                rw (At-u64 b 16 f.ts _ w.ts (At-ts b 0 f [] w at)) (
                  rw
                    (At-slice b 24 f.payload [] (length b) (At-payload b 0 f [] w at)
                      (omega (arith, length-put_frame f [] w)))
                    (λ i. done (record {
                      layer_id = sym w.layer i;
                      kind = f.kind;
                      flags = f.flags;
                      sid = f.sid;
                      tid = f.tid;
                      ts = f.ts;
                      payload = f.payload;
                    })))))))

    module _ (b : Bytes) where
      frames_loop-put_frame :
          (fuel p : ℕ) (f : Frame) (rest : Bytes) (st : Scan)
          → IsFrame layer_id reserved f
          → At b p (put_frame f rest)
          → frames_loop b (suc fuel) layer_id p st
            ≡ frames_loop b fuel layer_id (p + (hdr + length f.payload)) (deliver f st)
      unfolding frames_loop put_frame
      frames_loop-put_frame fuel p f rest st w at =
          let n : p + (hdr + length f.payload) ≤ length b =
            omega (arith, At-length b p _ at, length-put_frame f rest w) in
          rw (le→ltb-false (length b) p (omega arith)) (
            rw (le→ltb-false (length b - p) hdr (omega arith)) (
              rw (At-u32 b p (hdr + length f.payload) _ (omega (arith, w.payload)) at) (
                rw (header_ok-put_frame b p f rest w at) (
                  rw (le→ltb-false (length b) (p + (hdr + length f.payload)) n)
                    (rw (slice-put_frame b p f rest w at) (rw (frame_of-put_frame f w)))))))

      frames_loop-put_frames :
          (fuel p : ℕ) (fs : List Frame) (tail : Bytes) (st : Scan)
          → All (IsFrame layer_id reserved) fs
          → length tail < hdr
          → At b p (put_frames fs tail)
          → length b < fuel + p
          → (c : ℕ) × (frames_loop b fuel layer_id p st ≡ done (c, deliver_all fs st)) × At b c tail
      frames_loop-put_frames zero p fs tail st ws h at enough =
          absurd (omega (arith, At-length b p _ at))
      frames_loop-put_frames (suc fuel) p [] tail st ws h at enough = (
        p,
        unfold frames_loop in
            rw (le→ltb-false (length b) p (omega (arith, At-length b p tail at)))
              (rw (lt→ltb (length b - p) hdr (omega (arith, At-length b p tail at)))),
        at,
      )
      frames_loop-put_frames (suc fuel) p (f ∷ fs) tail st (w, ws) h at enough =
          let (c, e, at') =
            frames_loop-put_frames fuel (p + (hdr + length f.payload)) fs tail (deliver f st) ws h
              (At-skip b p (put_frame f []) (put_frames fs tail) _
                (subst (At b p) (put_frame-append f (put_frames fs tail)) at)
                (omega (arith, length-put_frame f [] w)))
              (omega arith) in
          (c, frames_loop-put_frame fuel p f (put_frames fs tail) st w at ∙ e, at')

    -- A file that holds whole records, and behind them fewer bytes than a header has, gives exactly
    -- those records in order, with all their numbers and payloads; nothing is counted as corrupt,
    -- and the bytes behind the last record are kept for the next read.
    pub scan_frames-put_frames :
        (fs : List Frame) (tail : Bytes) (st : Scan)
        → All (IsFrame layer_id reserved) fs
        → length tail < hdr
        → scan_frames (put_frames fs tail) layer_id st ≡ done (tail, deliver_all fs st)
    unfolding scan_frames
    scan_frames-put_frames fs tail st ws h =
        let b = put_frames fs tail in
        let (c, e, at) =
          frames_loop-put_frames b (suc (length b)) 0 fs tail st ws h ([], refl, refl)
            (omega arith) in
        rw e (
          rw (
            At-slice b c tail [] (length b) (subst (At b c) (sym (append-nil tail)) at)
              (omega (arith, At-length b c tail at))))
