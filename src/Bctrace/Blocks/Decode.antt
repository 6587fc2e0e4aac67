-- ===== src/Bctrace/Blocks/Decode.antt =====
-- One block, behind any part of a record, is decoded to the value that was sent.
use afeye.Prelude.{
  ℕ, ◌+◌, ◌-◌, ◌^◌, ◌<◌, ◌≡◌, refl, ◌∙◌, sym, [], ◌∷◌, ◌++◌, append_assoc, Bytes, length,
  length-append, done, byte_at, byte_at-append, slice, slice-append, le→leb, arith,
}
use afeye.Bctrace.Read.{
  rd_u16, rd_u32, rd_i32, rd_u64, to_le, length-to_le, rd_u16-append, rd_u32-append, rd_u16-to_le,
  rd_u32-to_le, rd_u64-to_le,
}
use afeye.Bctrace.Blocks.{
  str, str16, f64, smi, reg_word, reg_str, reg_str16, reg_f64, reg_smi, operand, vclock, as_u32,
  bytes, block_value,
}
use afeye.Bctrace.Blocks.Layout.{
  Value, acc_text, acc_text16, acc_float, acc_int, reg_raw, reg_text, reg_text16, reg_float,
  reg_int, argument, clock, payload_of, Fits, Decodes,
}

-- Reads behind `pre`, and behind `pre` and one field more.
module _ (pre post : Bytes) where
  read_u16 :
      (r : ℕ) (b : Bytes) (n : ℕ)
      → n ≡ length pre
      → r < 2 ^ 16
      → rd_u16 (pre ++ ((to_le 2 r ++ b) ++ post)) n ≡ done r
  read_u16 r b n e h =
      rd_u16-append pre ((to_le 2 r ++ b) ++ post) n 0 (omega arith)
      ∙ rw (append_assoc (to_le 2 r) b post) (rd_u16-to_le r (b ++ post) h)

  read_u32 :
      (w n : ℕ) → n ≡ length pre → w < 2 ^ 32 → rd_u32 (pre ++ (to_le 4 w ++ post)) n ≡ done w
  read_u32 w n e h = rd_u32-append pre (to_le 4 w ++ post) n 0 (omega arith) ∙ rd_u32-to_le w post h

  -- The bytes behind a field `f` are bytes behind `pre ++ f`.
  pub regroup : (f b : Bytes) → pre ++ ((f ++ b) ++ post) ≡ (pre ++ f) ++ (b ++ post)
  regroup f b = rw (append_assoc f b post) (sym (append_assoc pre f (b ++ post)))

module _ (pre post f : Bytes) (n : ℕ) (e : n ≡ length pre + length f) where
  behind_u64 : (w : ℕ) → w < 2 ^ 64 → rd_u64 (pre ++ ((f ++ to_le 8 w) ++ post)) n ≡ done w
  behind_u64 w h =
      rw (regroup pre post f (to_le 8 w))
        (rd_u64-to_le (pre ++ f) post w n (omega (arith, length-append pre f)) h)

  behind_u32 : (w : ℕ) → w < 2 ^ 32 → rd_u32 (pre ++ ((f ++ to_le 4 w) ++ post)) n ≡ done w
  behind_u32 w h =
      rw (regroup pre post f (to_le 4 w))
        (read_u32 (pre ++ f) post w n (omega (arith, length-append pre f)) h)

  behind_slice :
      (b : Bytes) (m : ℕ) → m ≡ n + length b → slice (pre ++ ((f ++ b) ++ post)) n m ≡ done b
  behind_slice b m p =
      rw (regroup pre post f b)
        (slice-append (pre ++ f) b post n m (omega (arith, length-append pre f)) p)

-- One block behind `pre`, in a record that `u32` can index.
module _ (pre post : Bytes) where
  abbrev pub placed : Value → Bytes
  placed v = pre ++ (payload_of v ++ post)

  pub length-placed :
      (v : Value) → length (placed v) ≡ length pre + length (payload_of v) + length post
  length-placed v =
      omega (arith, length-append pre (payload_of v ++ post), length-append (payload_of v) post)

  abbrev pub Read : Value → Type 0
  Read v = Decodes (placed v) (length pre + length (payload_of v)) v

  decode_text : (b : Bytes) → length (placed (acc_text b)) < 2 ^ 32 → Read (acc_text b)
  unfolding block_value bytes
  decode_text b short =
      let n = length-placed (acc_text b) in
      let s : ℕ = as_u32 (length pre + length b - length b) in
      let l : ℕ = as_u32 (length b) in
      (
        str s l,
        refl,
        (s, l, refl, slice-append pre b post s (as_u32 (s + l)) (omega arith) (omega arith)),
      )

  decode_text16 : (b : Bytes) → length (placed (acc_text16 b)) < 2 ^ 32 → Read (acc_text16 b)
  unfolding block_value bytes
  decode_text16 b short =
      let n = length-placed (acc_text16 b) in
      let s : ℕ = as_u32 (length pre + length b - length b) in
      let l : ℕ = as_u32 (length b) in
      (
        str16 s l,
        refl,
        (s, l, refl, slice-append pre b post s (as_u32 (s + l)) (omega arith) (omega arith)),
      )

  decode_float : (w : ℕ) → w < 2 ^ 64 → Read (acc_float w)
  unfolding block_value
  decode_float w h = (
    f64 w,
    rw (length-to_le 8 w) (rw (rd_u64-to_le pre post w (length pre + 8 - 8) (omega arith) h)),
    refl,
  )

  decode_int : (w : ℕ) → w < 2 ^ 32 → Read (acc_int w)
  unfolding block_value rd_i32
  decode_int w h = (
    smi w,
    rw (length-to_le 4 w) (rw (read_u32 pre post w (length pre + 4 - 4) (omega arith) h)),
    refl,
  )

  decode_clock : (w : ℕ) → w < 2 ^ 64 → Read (clock w)
  unfolding block_value
  decode_clock w h = (
    vclock w,
    rw (length-to_le 8 w) (rw (rd_u64-to_le pre post w (length pre + 8 - 8) (omega arith) h)),
    refl,
  )

  length_reg : (r w k : ℕ) → length (to_le 2 r ++ to_le k w) ≡ 2 + k
  length_reg r w k =
      omega (arith, length-append (to_le 2 r) (to_le k w), length-to_le 2 r, length-to_le k w)

  decode_raw : (r w : ℕ) → r < 2 ^ 16 → w < 2 ^ 64 → Read (reg_raw r w)
  unfolding block_value
  decode_raw r w hr hw = (
    reg_word r w,
    rw (length_reg r w 8) (
        rw (
          read_u16 pre post r (to_le 8 w) (length pre + 10 - 10) (omega arith) hr,
          behind_u64 pre post (to_le 2 r) (length pre + 10 - 10 + 2)
              (omega (arith, length-to_le 2 r)) w hw,
        )),
    refl,
  )

  decode_reg_float : (r w : ℕ) → r < 2 ^ 16 → w < 2 ^ 64 → Read (reg_float r w)
  unfolding block_value
  decode_reg_float r w hr hw = (
    reg_f64 r w,
    rw (length_reg r w 8) (
        rw (
          read_u16 pre post r (to_le 8 w) (length pre + 10 - 10) (omega arith) hr,
          behind_u64 pre post (to_le 2 r) (length pre + 10 - 10 + 2)
              (omega (arith, length-to_le 2 r)) w hw,
        )),
    refl,
  )

  decode_reg_int : (r w : ℕ) → r < 2 ^ 16 → w < 2 ^ 32 → Read (reg_int r w)
  unfolding block_value rd_i32
  decode_reg_int r w hr hw = (
    reg_smi r w,
    rw (length_reg r w 4) (
        rw (
          read_u16 pre post r (to_le 4 w) (length pre + 6 - 6) (omega arith) hr,
          behind_u32 pre post (to_le 2 r) (length pre + 6 - 6 + 2) (omega (arith, length-to_le 2 r))
              w hw,
        )),
    refl,
  )

  decode_argument : (k w : ℕ) → w < 2 ^ 64 → Read (argument k w)
  unfolding block_value byte_at
  decode_argument k w hw = (
    operand k w,
    rw (length-to_le 8 w) (
        rw (
          byte_at-append pre (k ∷ (to_le 8 w ++ post)) (length pre + 9 - 9) 0 (omega arith),
          behind_u64 pre post (k ∷ []) (length pre + 9 - 9 + 1) (omega arith) w hw,
        )),
    refl,
  )

  module _ (r : ℕ) (b : Bytes) (hr : r < 2 ^ 16) where
    length_reg_text : length (to_le 2 r ++ b) ≡ 2 + length b
    length_reg_text = omega (arith, length-append (to_le 2 r) b, length-to_le 2 r)

    abbrev whole : ℕ
    whole = length (to_le 2 r ++ b)

    abbrev at : ℕ
    at = length pre + whole - whole

    decode_reg_text : length (placed (reg_text r b)) < 2 ^ 32 → Read (reg_text r b)
    unfolding block_value bytes
    decode_reg_text short =
        let n = length-placed (reg_text r b) in
        let s : ℕ = as_u32 (as_u32 at + 2) in
        let l : ℕ = as_u32 whole - 2 in
        (
          reg_str r s l,
          rw (
            le→leb 2 whole (omega (arith, length_reg_text)),
            read_u16 pre post r b at (omega arith) hr,
          ),
          (
            s,
            l,
            refl,
            behind_slice pre post (to_le 2 r) s (omega (arith, length-to_le 2 r, length_reg_text)) b
                (as_u32 (s + l)) (omega (arith, length-to_le 2 r, length_reg_text)),
          ),
        )

    decode_reg_text16 : length (placed (reg_text16 r b)) < 2 ^ 32 → Read (reg_text16 r b)
    unfolding block_value bytes
    decode_reg_text16 short =
        let n = length-placed (reg_text16 r b) in
        let s : ℕ = as_u32 (as_u32 at + 2) in
        let l : ℕ = as_u32 whole - 2 in
        (
          reg_str16 r s l,
          rw (
            le→leb 2 whole (omega (arith, length_reg_text)),
            read_u16 pre post r b at (omega arith) hr,
          ),
          (
            s,
            l,
            refl,
            behind_slice pre post (to_le 2 r) s (omega (arith, length-to_le 2 r, length_reg_text)) b
                (as_u32 (s + l)) (omega (arith, length-to_le 2 r, length_reg_text)),
          ),
        )

  pub decode_block : (v : Value) → Fits v → length (placed v) < 2 ^ 32 → Read v
  decode_block (acc_text b) h short = decode_text b short
  decode_block (acc_text16 b) h short = decode_text16 b short
  decode_block (acc_float w) h short = decode_float w h
  decode_block (acc_int w) h short = decode_int w h
  decode_block (reg_raw r w) h short = decode_raw r w h.0 h.1
  decode_block (reg_text r b) h short = decode_reg_text r b h short
  decode_block (reg_text16 r b) h short = decode_reg_text16 r b h short
  decode_block (reg_float r w) h short = decode_reg_float r w h.0 h.1
  decode_block (reg_int r w) h short = decode_reg_int r w h.0 h.1
  decode_block (argument k w) h short = decode_argument k w h.1
  decode_block (clock w) h short = decode_clock w h
