-- ===== src/Collect/Resync.antt =====
-- The scan of src/collect.rs at a record that the writer has not finished.
use afeye.Prelude.{
  ℕ, zero, suc, ◌+◌, ◌-◌, ◌≤◌, ◌<◌, ◌≡◌, refl, true, Bool-cases, inl, inr, ◌⊎◌, [], ◌∷◌, ◌++◌,
  Bytes, length, done, Returns, Returns-bind, Returns→done, slice-done, le→leb, le→ltb-false,
  lt→ltb, arith,
}
use afeye.Bctrace.Read.{to_le}
use afeye.Bctrace.Cursor.{At, At-length, At-byte, At-byte_1, At-skip, At-u32}
use afeye.Collect.{
  Frame, Scan, hdr, max_record, max_kind, count_corrupt, bytes_ok, header_ok, plausible_at,
  find_plausible, frames_loop, scan_frames,
}
use afeye.Collect.Accounts.{Kept, Any, frames_loop-Kept, plausible_at-Returns}
use afeye.Collect.Frames.{IsFrame, put_frame, length-put_frame, bytes_ok-put_frame}

module _ (reserved : Bytes) (layer_id : ℕ) (b : Bytes) where
  module _ (q : ℕ) (f : Frame) (rest : Bytes) (w : IsFrame layer_id reserved f) where
    plausible_at-put_frame : At b q (put_frame reserved f rest) → plausible_at b q ≡ done true
    unfolding plausible_at put_frame
    plausible_at-put_frame at =
        let n : q + (hdr + length f.payload) ≤ length b =
          omega (arith, At-length b q _ at, length-put_frame reserved layer_id f rest w) in
        rw (le→ltb-false (length b) (q + hdr) (omega arith)) (
          rw (At-u32 b q (hdr + length f.payload) _ (omega (arith, w.payload)) at) (
            rw (le→leb hdr (hdr + length f.payload) (omega arith)) (
              rw (le→leb (hdr + length f.payload) max_record w.payload) (
                rw (le→leb (q + (hdr + length f.payload)) (length b) n)
                  (bytes_ok-put_frame reserved layer_id b q f rest w at)))))

    find_plausible-put_frame :
        (fuel p : ℕ)
        → At b q (put_frame reserved f rest)
        → p ≤ q
        → q < fuel + p
        → find_plausible b fuel p ≡ done true
    unfolding find_plausible
    find_plausible-put_frame zero p at h enough = absurd (omega arith)
    find_plausible-put_frame (suc fuel) p at h enough =
        let n : q + hdr ≤ length b =
          omega (arith, At-length b q _ at, length-put_frame reserved layer_id f rest w) in
        rw (le→leb (p + hdr) (length b) (omega arith)) (elim (p_cases p q h) [
          | inl e ↦
              let here : plausible_at b p ≡ done true = rw e (plausible_at-put_frame at) in rw here
          | inr lt ↦
              let (found, e, _) = Returns→done Any (plausible_at b p) (plausible_at-Returns b p) in
              rw e (elim (Bool-cases found) [
                | inl t ↦ rw t
                | inr t ↦
                    rw t (find_plausible-put_frame fuel (p + 1) at (omega arith) (omega arith))
              ])
        ])
      where
        p_cases : (p q : ℕ) → p ≤ q → (p ≡ q) ⊎ (p < q)
        p_cases p q h = ground arith

  module _ (total kind flags : ℕ) (r : Bytes) (e : b ≡ to_le 4 total ++ (kind ∷ (flags ∷ r)))
      (t : total ≤ max_record) (k : kind ≤ max_kind) (f : flags ≤ 1)
      (short : length b < total) where
    header_ok-cut : hdr ≤ total → header_ok b 0 total ≡ done true
    unfolding header_ok bytes_ok to_le
    header_ok-cut h =
        let at : At b 0 (to_le 4 total ++ (kind ∷ (flags ∷ r))) = ([], e, refl) in
        rw (le→leb hdr total h) (
          rw (le→leb total max_record t) (
            rw (At-byte b 4 kind (flags ∷ r) (At-skip b 0 (to_le 4 total) _ 4 at (omega arith))) (
              rw (At-byte_1 b 4 kind flags r (At-skip b 0 (to_le 4 total) _ 4 at (omega arith)))
                (rw (le→leb kind max_kind k) (rw (le→leb flags 1 f))))))

    frames_loop-cut :
        (fuel q : ℕ) (g : Frame) (rest : Bytes) (st : Scan)
        → IsFrame layer_id reserved g
        → 0 < q
        → At b q (put_frame reserved g rest)
        → frames_loop b (suc fuel) layer_id 0 st ≡ frames_loop b fuel layer_id 1 (count_corrupt st)
    unfolding frames_loop
    frames_loop-cut fuel q g rest st w pos at =
        let n : q + hdr ≤ length b =
          omega (arith, At-length b q _ at, length-put_frame reserved layer_id g rest w) in
        rw (le→ltb-false (length b) 0 (omega arith)) (
          rw (le→ltb-false (length b - 0) hdr (omega arith)) (
            rw (At-u32 b 0 total (kind ∷ (flags ∷ r)) (omega arith) ([], e, refl)) (
              rw (header_ok-cut (omega arith)) (
                rw (lt→ltb (length b) (0 + total) (omega arith)) (
                  rw (
                    find_plausible-put_frame q g rest w (suc (length b)) 1 at (omega arith)
                      (omega arith)))))))

    -- When the read part of an unfinished record holds a whole record further on, the scan does not
    -- wait for the end of the record: it counts a byte or more of it as corrupt.
    pub scan_frames-cut :
        (q : ℕ) (g : Frame) (rest : Bytes) (st : Scan)
        → IsFrame layer_id reserved g
        → 0 < q
        → At b q (put_frame reserved g rest)
        → Returns (λ s. st.stats.corrupt < s.1.stats.corrupt) (scan_frames b layer_id st)
    unfolding scan_frames count_corrupt
    scan_frames-cut q g rest st w pos at =
        let n : q + hdr ≤ length b =
          omega (arith, At-length b q _ at, length-put_frame reserved layer_id g rest w) in
        rw (frames_loop-cut (length b) q g rest st w pos at, Returns)
          (Returns-bind (Kept b layer_id 1 (count_corrupt st))
            (λ s. st.stats.corrupt < s.1.stats.corrupt)
            (frames_loop b (length b) layer_id 1 (count_corrupt st)) _
            (frames_loop-Kept b layer_id (length b) 1 (count_corrupt st) (omega arith) (omega arith)
              (omega arith))
            (λ s (h, (ps, fs, e, cut, frames, corrupt), w).
              rw (slice-done b s.0 (length b) h (omega arith), Returns) (omega (arith, corrupt))))
