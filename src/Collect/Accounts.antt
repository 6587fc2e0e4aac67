-- ===== src/Collect/Accounts.antt =====
-- The loop of `scan_once` of src/collect.rs on any bytes.
pub mod Counters
pub mod Pieces
use afeye.Prelude.{
  append-nil, append_assoc, take-append-drop, ap, ℕ, zero, suc, ◌+◌, ◌*◌, ◌-◌, ◌≤◌, ◌<◌, ◌≡◌, refl,
  sym, ◌∙◌, Bool, true, not, ◌&&◌, List, [], ◌∷◌, ◌++◌, Bytes, length, length-append, length-take,
  length-drop, All, All-append, done, ◌>>=◌, Returns, Returns-bind, Returns-step, Returns-known,
  Returns-imp, Returns-if, byte_at, byte_at-done, slice, slice-done, take, drop, leb, ltb,
  if◌then◌else◌, tests, arith,
}
use afeye.Bctrace.Read.{rd_u16, rd_u32, rd_u64, rd_u16-done, rd_u32-done, rd_u64-done}
use afeye.Collect.Accounts.Counters.{IsAccounted, deliver-IsAccounted, count_corrupt-IsAccounted}
use afeye.Collect.Accounts.Pieces.{
  Piece, skipped, whole_record, bytes_of, skips, IsCut, drop-first, drop-drop, take-all,
  rd_u32-record,
}
use afeye.Collect.{
  Frame, Scan, Per, hdr, max_record, pair_eq, per_bump, per_get, per_count, is_truncated,
  count_record, deliver, count_corrupt, frame_of, bytes_ok, header_ok, plausible_at, find_plausible,
  frames_loop, scan_frames,
}

frame_of-done :
    (layer_id : ℕ) (rec : Bytes) → hdr ≤ length rec → (f : Frame) × (frame_of layer_id rec ≡ done f)
unfolding frame_of
frame_of-done layer_id rec h =
    let (kind, e) = byte_at-done rec 4 (omega arith) in
    let (flags, e') = byte_at-done rec 5 (omega arith) in
    let (sid, g) = rd_u32-done rec 6 (omega arith) in
    let (tid, g') = rd_u16-done rec 10 (omega arith) in
    let (ts, k) = rd_u64-done rec 16 (omega arith) in
    (
      record {
        layer_id = layer_id;
        kind = kind;
        flags = flags;
        sid = sid;
        tid = tid;
        ts = ts;
        payload = take (length rec - hdr) (drop hdr rec);
      },
      rw (e, e', g, g', k, slice-done rec hdr (length rec) h (omega arith)) refl,
    )

abbrev pub Any : Bool → Type 0
Any b = Unit

module _ (partial : Bytes) where
  bytes_ok-done : (p : ℕ) → p + 6 ≤ length partial → (b : Bool) × (bytes_ok partial p ≡ done b)
  unfolding bytes_ok
  bytes_ok-done p h =
      let (k, e) = byte_at-done partial (p + 4) (omega arith) in
      let (f, e') = byte_at-done partial (p + 5) (omega arith) in (leb k 40 && leb f 1, rw (e, e'))

  bytes_ok-Returns : (p : ℕ) → p + 6 ≤ length partial → Returns Any (bytes_ok partial p)
  bytes_ok-Returns p h = let (b, e) = bytes_ok-done p h in rw (e, Returns) tt

  header_ok-Returns :
      (p total : ℕ)
      → p + 6 ≤ length partial
      → Returns (λ b. b ≡ true → hdr ≤ total) (header_ok partial p total)
  unfolding header_ok
  header_ok-Returns p total h =
      Returns-if _ (leb hdr total && leb total max_record) _ _
        (λ e.
          Returns-imp Any _ (bytes_ok partial p) (bytes_ok-Returns p h)
            (λ b _ _. ground (arith, e)))
        (λ e. ground arith)

  pub plausible_at-Returns : (p : ℕ) → Returns Any (plausible_at partial p)
  unfolding plausible_at
  plausible_at-Returns p =
      Returns-if _ (ltb (length partial) (p + hdr)) _ _ (λ _. tt)
        (λ e. Returns-step _ (rd_u32 partial p) _ (rd_u32-done partial p (omega (tests, e))) (λ t.
          Returns-if _ (leb hdr t && leb t max_record && leb (p + t) (length partial)) _ _
            (λ _. bytes_ok-Returns p (omega (tests, e))) (λ _. tt)))

  find_plausible-Returns :
      (fuel p : ℕ)
      → 0 < fuel
      → length partial < fuel + p
      → Returns Any (find_plausible partial fuel p)
  unfolding find_plausible
  find_plausible-Returns zero p pos enough = elim pos [ ]
  find_plausible-Returns (suc fuel) p pos enough =
      Returns-if _ (leb (p + hdr) (length partial)) _ _
        (λ e. Returns-bind Any _ (plausible_at partial p) _ (plausible_at-Returns p) (λ b _.
          Returns-if _ b _ _ (λ _. tt)
            (λ _. find_plausible-Returns fuel (p + 1) (omega (tests, e)) (omega arith))))
        (λ _. tt)

  -- What the bytes from `c` up to `c'` are: `fs` are the records among them.
  abbrev pub Cut : ℕ → ℕ → Scan → ℕ → Scan → Type 0
  Cut layer_id c st c' st' =
      (ps : List Piece) × (fs : List Frame) × (drop c partial ≡ bytes_of ps ++ drop c' partial)
      × IsCut layer_id ps fs
      × (st'.frames ≡ st.frames ++ fs)
      × (st'.stats.corrupt ≡ st.stats.corrupt + skips ps)

  -- What the loop promises of its result, from `c` and `st` on.
  abbrev pub Kept : ℕ → ℕ → Scan → ℕ × Scan → Type 0
  Kept layer_id c st (c', st') =
      (c' ≤ length partial) × Cut layer_id c st c' st' × (IsAccounted st → IsAccounted st')

  module _ (layer_id : ℕ) where
    abbrev Loops : ℕ → Type 0
    Loops f =
        (c : ℕ) (s : Scan)
        → c ≤ length partial
        → 0 < f
        → length partial < f + c
        → Returns (Kept layer_id c s) (frames_loop partial f layer_id c s)

    ended : (c : ℕ) (st : Scan) → c ≤ length partial → Kept layer_id c st (c, st)
    ended c st h = (h, ([], [], refl, tt, sym (append-nil st.frames), omega arith), λ w. w)

    skip :
        (f consumed : ℕ) (st : Scan)
        → Loops f
        → consumed + hdr ≤ length partial
        → length partial < suc f + consumed
        → Returns
            (Kept layer_id consumed st)
            (frames_loop partial f layer_id (consumed + 1) (count_corrupt st))
    skip f consumed st ih room enough =
        let (x, first) = drop-first consumed partial (omega arith) in
        Returns-imp (Kept layer_id (consumed + 1) (count_corrupt st)) (Kept layer_id consumed st)
          (frames_loop partial f layer_id (consumed + 1) (count_corrupt st))
          (ih (consumed + 1) (count_corrupt st) (omega arith) (omega arith) (omega arith))
          (λ r (h, (ps, fs, e, cut, frames, corrupt), w). (
            h,
            (
              skipped x ∷ ps,
              fs,
              first ∙ ap (◌∷◌ x) e,
              cut,
              unfold count_corrupt in frames,
              unfold count_corrupt in omega (arith, corrupt),
            ),
            λ a. w (count_corrupt-IsAccounted st a),
          ))

    whole :
        (f consumed total : ℕ) (st : Scan)
        → Loops f
        → consumed + hdr ≤ length partial
        → length partial < suc f + consumed
        → consumed + total ≤ length partial
        → hdr ≤ total
        → rd_u32 partial consumed ≡ done total
        → Returns (Kept layer_id consumed st) (
            slice partial consumed (consumed + total) >>= λ rec. frame_of layer_id rec >>= λ r.
            frames_loop partial f layer_id (consumed + total) (deliver r st))
    whole f consumed total st ih room enough fits big at =
        let rec : Bytes = take (consumed + total - consumed) (drop consumed partial) in
        let n : length rec ≡ total = omega (
          arith,
          length-take (consumed + total - consumed) (drop consumed partial),
          length-drop consumed partial,
        ) in
        let (g, e) = frame_of-done layer_id rec (omega (arith, n)) in
        let cut_here : drop consumed partial ≡ rec ++ drop (consumed + total) partial =
          sym (take-append-drop (consumed + total - consumed) (drop consumed partial))
          ∙ ap (λ t. rec ++ t)
              (drop-drop consumed (consumed + total - consumed) partial
                ∙ ap (λ m. drop m partial) (omega arith)) in
        rw (slice-done partial consumed (consumed + total) (omega arith) fits, e, Returns)
          (Returns-imp (Kept layer_id (consumed + total) (deliver g st)) (Kept layer_id consumed st)
            (frames_loop partial f layer_id (consumed + total) (deliver g st))
            (ih (consumed + total) (deliver g st) fits (omega arith) (omega arith))
            (λ r (h, (ps, fs, d, cut, frames, corrupt), w). (
              h,
              (
                whole_record rec ∷ ps,
                g ∷ fs,
                cut_here
                    ∙ (ap (λ t. rec ++ t) d
                        ∙ sym (append_assoc rec (bytes_of ps) (drop r.0 partial))),
                (
                  rd_u32-record partial consumed rec (drop (consumed + total) partial) (omega arith)
                        cut_here (omega (arith, n))
                      ∙ at
                      ∙ ap done (sym n),
                  e,
                  cut,
                ),
                unfold deliver in (frames ∙ append_assoc st.frames (g ∷ []) fs),
                unfold deliver count_record in corrupt,
              ),
              λ a. w (deliver-IsAccounted g st a),
            )))

    pub frames_loop-Kept :
        (fuel consumed : ℕ) (st : Scan)
        → consumed ≤ length partial
        → 0 < fuel
        → length partial < fuel + consumed
        → Returns (Kept layer_id consumed st) (frames_loop partial fuel layer_id consumed st)
    unfolding frames_loop
    frames_loop-Kept zero consumed st h pos enough = elim pos [ ]
    frames_loop-Kept (suc fuel) consumed st h pos enough =
        Returns-if _ (ltb (length partial) consumed) _ _ (λ e. absurd (omega (tests, e)))
          (λ _.
            Returns-if _ (ltb (length partial - consumed) hdr) _ _ (λ _. ended consumed st h)
              (λ e.
                let room : consumed + hdr ≤ length partial = omega (tests, e) in
                Returns-known _ (rd_u32 partial consumed) _
                  (rd_u32-done partial consumed (omega arith))
                  (λ total at.
                    Returns-bind _ _ (header_ok partial consumed total) _
                      (header_ok-Returns consumed total (omega arith))
                      (λ ok big.
                        Returns-if _ (not ok) _ _
                          (λ _. skip fuel consumed st (frames_loop-Kept fuel) room enough)
                          (λ good.
                            Returns-if _ (ltb (length partial) (consumed + total)) _ _
                              (λ _.
                                Returns-bind Any _
                                  (find_plausible partial (suc (length partial)) (consumed + 1)) _
                                  (find_plausible-Returns (suc (length partial)) (consumed + 1)
                                    (omega arith) (omega arith))
                                  (λ next _.
                                    Returns-if _ next _ _
                                      (λ _.
                                        skip fuel consumed st (frames_loop-Kept fuel) room enough)
                                      (λ _. ended consumed st h)))
                              (λ e'.
                                whole fuel consumed total st (frames_loop-Kept fuel) room enough
                                  (omega (tests, e')) (big (ground (arith, good))) at))))))

    -- The bytes are those of pieces and then `rest`; a piece is a skipped byte, which is counted as
    -- corrupt, or one of the records that are delivered, in order.
    abbrev pub Scanned : Scan → Bytes × Scan → Type 0
    Scanned st (rest, st') =
        ((ps : List Piece) × (fs : List Frame) × (partial ≡ bytes_of ps ++ rest)
          × IsCut layer_id ps fs
          × (st'.frames ≡ st.frames ++ fs)
          × (st'.stats.corrupt ≡ st.stats.corrupt + skips ps))
        × IsAccounted st'

    -- On any bytes, from a state whose counters are those of its records, the scan returns without
    -- a panic and within its fuel. The bytes fall, in order, into whole records, of which each is
    -- delivered once, bytes that are skipped, each counted as corrupt, and the rest, which is kept
    -- for the next read. The counters of records, bytes and truncated records, those by layer and
    -- kind and the hellos of each layer are again those of the records; the last time stamp is the
    -- greatest one, and the first the least one behind the last record that has the time stamp 0.
    pub scan_frames_total :
        (st : Scan) → IsAccounted st → Returns (Scanned st) (scan_frames partial layer_id st)
    unfolding scan_frames
    scan_frames_total st a =
        Returns-bind (Kept layer_id 0 st) (Scanned st)
          (frames_loop partial (suc (length partial)) layer_id 0 st) _
          (frames_loop-Kept (suc (length partial)) 0 st (omega arith) (omega arith) (omega arith))
          (λ r (h, (ps, fs, e, cut, frames, corrupt), w).
            rw (slice-done partial r.0 (length partial) h (omega arith), Returns)
              (
                (
                  ps,
                  fs,
                  e
                      ∙ ap (λ t. bytes_of ps ++ t)
                          (sym (
                            take-all (length partial - r.0) (drop r.0 partial)
                              (omega (arith, length-drop r.0 partial)))),
                  cut,
                  frames,
                  corrupt,
                ),
                w a,
              ))
