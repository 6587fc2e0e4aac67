-- ===== src/Bctrace/Blocks/RoundTrip.antt =====
-- The blocks of a record, written as the engine's builder lays them out, are read back.
use afeye.Prelude.{
  ℕ, zero, suc, ◌+◌, ◌^◌, ◌≤◌, ◌<◌, ◌≡◌, refl, ap, ◌∙◌, sym, subst, List, [], ◌∷◌, ◌++◌,
  append_assoc, append-nil, Bytes, length, length-append, done, byte_at, byte_at-append, le→leb,
  lt→leb-false, le→ltb-false, arith,
}
use afeye.Bctrace.Read.{rd_u32, to_le, length-to_le, rd_u32-append, rd_u32-to_le}
use afeye.Bctrace.Blocks.{Pv, blocks_loop, parse_blocks, hdr_len}
use afeye.Bctrace.Blocks.Layout.{
  Value, tag_of, payload_of, Fits, Carries, head_of, encode_block, encode_blocks, AllFit,
  CarriesAll,
}
use afeye.Bctrace.Blocks.Decode.{regroup, length-placed, decode_block}

-- The rounds of the loop on a block at `pre`, in a record seen in two ways: its head behind
-- `pre`, and its payload behind `pre` and the head.
module _ (fuel : ℕ) (pre rest : Bytes) (out : List Pv) (v : Value) (fit : Fits v) where
  abbrev front : Bytes
  front = pre ++ head_of v

  abbrev record_of : Bytes
  record_of = front ++ (payload_of v ++ rest)

  length-front : length front ≡ length pre + 5
  length-front =
      omega (arith, length-append pre (head_of v), length-to_le 4 (length (payload_of v)))

  length-record_of : length record_of ≡ length pre + 5 + length (payload_of v) + length rest
  length-record_of = omega (arith, length-placed front rest v, length-front)

  head_first : record_of ≡ pre ++ (head_of v ++ (payload_of v ++ rest))
  head_first = append_assoc pre (head_of v) (payload_of v ++ rest)

  read_tag : byte_at record_of (length pre) ≡ done (tag_of v)
  unfolding byte_at
  read_tag = rw head_first (byte_at-append pre _ (length pre) 0 (omega arith))

  read_len :
      length record_of < 2 ^ 32 → rd_u32 record_of (length pre + 1) ≡ done (length (payload_of v))
  read_len short =
      let field : Bytes = to_le 4 (length (payload_of v)) ++ (payload_of v ++ rest) in
      rw head_first (
        rd_u32-append pre (tag_of v ∷ field) (length pre + 1) 1 (omega arith)
        ∙ rd_u32-append (tag_of v ∷ []) field 1 0 (omega arith)
        ∙ rd_u32-to_le (length (payload_of v)) (payload_of v ++ rest)
            (omega (arith, length-record_of)))

  -- One round takes one block.
  loop_step :
      length record_of < 2 ^ 32
      → (pv : Pv) × (blocks_loop (suc fuel) record_of (length pre) out
          ≡ blocks_loop fuel record_of (length front + length (payload_of v)) (out ++ (pv ∷ [])))
        × Carries record_of pv v
  unfolding blocks_loop
  loop_step short =
      let (pv, e, c) = decode_block front rest v fit short in
      let i : length pre + 5 ≡ length front = sym length-front in
      (
        pv,
        rw (le→leb (length pre + 5) (length record_of) (omega (arith, length-record_of))) (
            rw (read_tag) (
              rw (read_len short) (
                rw
                  (le→ltb-false (length record_of) (length pre + 5 + length (payload_of v))
                    (omega (arith, length-record_of)))
                  (rw i (rw e))))),
        c,
      )

loop_end :
    (fuel : ℕ) (rec : Bytes) (i : ℕ) (out : List Pv)
    → length rec ≡ i
    → blocks_loop (suc fuel) rec i out ≡ done out
unfolding blocks_loop
loop_end fuel rec i out e = rw (lt→leb-false (i + 5) (length rec) (omega arith))

-- The record is a variable, so that the blocks read so far can be counted as its front.
blocks_loop-encode_blocks :
    (vs : List Value) (fuel : ℕ) (rec pre : Bytes) (out : List Pv)
    → rec ≡ pre ++ encode_blocks vs
    → length rec < 2 ^ 32
    → length vs < fuel
    → AllFit vs
    → (pvs : List Pv) × (blocks_loop fuel rec (length pre) out ≡ done (out ++ pvs))
      × CarriesAll rec pvs vs
blocks_loop-encode_blocks [] zero rec pre out e short enough fit = absurd (omega arith)
blocks_loop-encode_blocks [] (suc fuel) rec pre out e short enough fit = (
  [],
  loop_end fuel rec (length pre) out (ap length (e ∙ append-nil pre))
      ∙ ap done (sym (append-nil out)),
  tt,
)
blocks_loop-encode_blocks (v ∷ vs) zero rec pre out e short enough fit = absurd (omega arith)
blocks_loop-encode_blocks (v ∷ vs) (suc fuel) rec pre out e short enough (fit, fits) =
    let rest : Bytes = encode_blocks vs in
    let front' : Bytes = (pre ++ head_of v) ++ payload_of v in
    let e' : rec ≡ (pre ++ head_of v) ++ (payload_of v ++ rest) =
      e ∙ regroup pre rest (head_of v) (payload_of v) in
    let e'' : rec ≡ front' ++ rest =
      e' ∙ sym (append_assoc (pre ++ head_of v) (payload_of v) rest) in
    let (pv, step, c) = loop_step fuel pre rest out v fit (rw e' at short) in
    let (pvs, steps, cs) =
      blocks_loop-encode_blocks vs fuel rec front' (out ++ (pv ∷ [])) e'' short (omega arith)
        fits in
    let n : length front' ≡ length (pre ++ head_of v) + length (payload_of v) =
      length-append (pre ++ head_of v) (payload_of v) in
    (
      pv ∷ pvs,
      subst
            (λ r.
              blocks_loop (suc fuel) r (length pre) out
              ≡ blocks_loop fuel r (length (pre ++ head_of v) + length (payload_of v))
                  (out ++ (pv ∷ [])))
            (sym e') step
          ∙ (rw n at steps)
          ∙ ap done (append_assoc out (pv ∷ []) pvs),
      (rw (← e') at c, cs),
    )

length-encode_blocks : (vs : List Value) → length vs ≤ length (encode_blocks vs)
length-encode_blocks [] = omega arith
length-encode_blocks (v ∷ vs) =
    omega (arith, length-encode_blocks vs, length-append (encode_block v) (encode_blocks vs))

-- `parse_blocks` of a 72-byte header and the blocks of any values whose numbers fit their fields,
-- in a record shorter than 4 GiB, returns one value for each, in order: of the kind sent, with
-- the numbers sent, and `Pv::bytes` gives back each text.
pub parse_blocks-encode_blocks :
    (hdr : Bytes) (vs : List Value)
    → length hdr ≡ hdr_len
    → length (hdr ++ encode_blocks vs) < 2 ^ 32
    → AllFit vs
    → (pvs : List Pv) × (parse_blocks (hdr ++ encode_blocks vs) ≡ done pvs)
      × CarriesAll (hdr ++ encode_blocks vs) pvs vs
unfolding parse_blocks
parse_blocks-encode_blocks hdr vs e short fit =
    let rec : Bytes = hdr ++ encode_blocks vs in
    let (pvs, p, c) =
      blocks_loop-encode_blocks vs (suc (length rec)) rec hdr [] refl short
        (omega (arith, length-encode_blocks vs, length-append hdr (encode_blocks vs))) fit in
    (pvs, subst (λ n. blocks_loop (suc (length rec)) rec n [] ≡ done pvs) e p, c)
