-- ===== src/Bctrace/Blocks/Bounds.antt =====
-- `parse_blocks` on any record, well formed or not.
use afeye.Prelude.{
  ℕ, zero, suc, ◌+◌, ◌-◌, ◌^◌, ◌≤◌, ◌<◌, ◌≡◌, refl, Option, some, none, List, [], ◌∷◌, Bytes,
  length, All, All-append, Outcome, done, Returns, Returns-bind, Returns-imp, Returns-step,
  Returns-if, ◌&&◌, true, byte_at, byte_at-done, slice-done, leb, ltb, ◌==◌, tests, arith,
}
use afeye.Bctrace.Read.{rd_u16, rd_u32, rd_i32, rd_u64, rd_u16-done, rd_u32-done, rd_u64-done}
use afeye.Bctrace.Blocks.{
  Pv, str, str16, f64, smi, reg_word, reg_str, reg_str16, reg_f64, reg_smi, operand, vclock, as_u32,
  bytes, block_value, push, blocks_loop, parse_blocks, hdr_len,
}

-- A string value lies inside a record of `n` bytes.
abbrev pub LiesIn : ℕ → Pv → Type 0
LiesIn n (str s l) = s + l ≤ n
LiesIn n (str16 s l) = s + l ≤ n
LiesIn n (reg_str r s l) = s + l ≤ n
LiesIn n (reg_str16 r s l) = s + l ≤ n
LiesIn n _ = Unit

abbrev LiesIn? : ℕ → Option Pv → Type 0
LiesIn? n none = Unit
LiesIn? n (some pv) = LiesIn n pv

-- The tests on a tag and a length, as the match makes them.
tag_len : (tag t len n : ℕ) → (tag == t && len == n) ≡ true → len ≡ n
tag_len tag t len n h = ground arith

tag_two : (tag t len : ℕ) → (tag == t && leb 2 len) ≡ true → 2 ≤ len
tag_two tag t len h = ground arith

module _ (rec : Bytes) (tag len i : ℕ) (short : length rec < 2 ^ 32) (fits : len ≤ i)
    (within : i ≤ length rec) where
  abbrev Good : Outcome (Option Pv) → Type 0
  Good = Returns (LiesIn? (length rec))

  u16_read : 2 ≤ len → (v : ℕ) × (rd_u16 rec (i - len) ≡ done v)
  u16_read h = rd_u16-done rec (i - len) (omega arith)

  block_value-LiesIn : Good (block_value rec tag len i)
  unfolding block_value rd_i32
  block_value-LiesIn =
      Returns-if _ (tag == 0) _ _ (λ e. omega arith)
        (λ _.
          Returns-if _ (tag == 11) _ _ (λ e. omega arith)
            (λ _.
              Returns-if _ (tag == 1 && len == 8) _ _
                (λ e.
                  Returns-step _ (rd_u64 rec (i - len)) _
                    (rd_u64-done rec _ (omega (arith, tag_len tag 1 len 8 e))) (λ w. tt))
                (λ _.
                  Returns-if _ (tag == 2 && len == 4) _ _
                    (λ e.
                      Returns-step _ (rd_u32 rec (i - len)) _
                        (rd_u32-done rec _ (omega (arith, tag_len tag 2 len 4 e))) (λ w. tt))
                    (λ _.
                      Returns-if _ (tag == 3 && len == 10) _ _
                        (λ e.
                          Returns-step _ (rd_u16 rec (i - len)) _
                            (u16_read (omega (arith, tag_len tag 3 len 10 e)))
                            (λ r.
                              Returns-step _ (rd_u64 rec (i - len + 2)) _
                                (rd_u64-done rec _ (omega (arith, tag_len tag 3 len 10 e)))
                                (λ w. tt)))
                        (λ _.
                          Returns-if _ (tag == 4 && leb 2 len) _ _
                            (λ e.
                              Returns-step _ (rd_u16 rec (i - len)) _
                                (u16_read (tag_two tag 4 len e))
                                (λ r. omega (arith, tag_two tag 4 len e)))
                            (λ _.
                              Returns-if _ (tag == 12 && leb 2 len) _ _
                                (λ e.
                                  Returns-step _ (rd_u16 rec (i - len)) _
                                    (u16_read (tag_two tag 12 len e))
                                    (λ r. omega (arith, tag_two tag 12 len e)))
                                (λ _.
                                  Returns-if _ (tag == 5 && len == 10) _ _
                                    (λ e.
                                      Returns-step _ (rd_u16 rec (i - len)) _
                                        (u16_read (omega (arith, tag_len tag 5 len 10 e)))
                                        (λ r.
                                          Returns-step _ (rd_u64 rec (i - len + 2)) _
                                            (rd_u64-done rec _
                                              (omega (arith, tag_len tag 5 len 10 e)))
                                            (λ w. tt)))
                                    (λ _.
                                      Returns-if _ (tag == 6 && len == 6) _ _
                                        (λ e.
                                          Returns-step _ (rd_u16 rec (i - len)) _
                                            (u16_read (omega (arith, tag_len tag 6 len 6 e)))
                                            (λ r.
                                              Returns-step _ (rd_u32 rec (i - len + 2)) _
                                                (rd_u32-done rec _
                                                  (omega (arith, tag_len tag 6 len 6 e)))
                                                (λ w. tt)))
                                        (λ _.
                                          Returns-if _ (tag == 7 && len == 9) _ _
                                            (λ e.
                                              Returns-step _ (byte_at rec (i - len)) _
                                                (byte_at-done rec _
                                                  (omega (arith, tag_len tag 7 len 9 e)))
                                                (λ r.
                                                  Returns-step _ (rd_u64 rec (i - len + 1)) _
                                                    (rd_u64-done rec _
                                                      (omega (arith, tag_len tag 7 len 9 e)))
                                                    (λ w. tt)))
                                            (λ _.
                                              Returns-if _ (tag == 14 && len == 8) _ _
                                                (λ e.
                                                  Returns-step _ (rd_u64 rec (i - len)) _
                                                    (rd_u64-done rec _
                                                      (omega (arith, tag_len tag 14 len 8 e)))
                                                    (λ w. tt))
                                                (λ _. tt)))))))))))

All-push :
    (n : ℕ) (out : List Pv) (pv : Option Pv)
    → All (LiesIn n) out
    → LiesIn? n pv
    → All (LiesIn n) (push out pv)
All-push n out none h k = h
All-push n out (some pv) h k = All-append (LiesIn n) out (pv ∷ []) h (k, tt)

blocks_loop-LiesIn :
    (fuel : ℕ) (rec : Bytes) (i : ℕ) (out : List Pv)
    → length rec < 2 ^ 32
    → 0 < fuel
    → length rec < fuel + i
    → All (LiesIn (length rec)) out
    → Returns (All (LiesIn (length rec))) (blocks_loop fuel rec i out)
unfolding blocks_loop
blocks_loop-LiesIn zero rec i out short pos enough h = elim pos [ ]
blocks_loop-LiesIn (suc fuel) rec i out short pos enough h =
    Returns-if _ (leb (i + 5) (length rec)) _ _
      (λ e.
        let room : i + 5 ≤ length rec = omega (tests, e) in
        Returns-step _ (byte_at rec i) _ (byte_at-done rec i (omega arith)) (λ tag.
          Returns-step _ (rd_u32 rec (i + 1)) _ (rd_u32-done rec (i + 1) (omega arith)) (λ len.
            Returns-if _ (ltb (length rec) (i + 5 + len)) _ _ (λ _. h)
              (λ e'.
                let fits : i + 5 + len ≤ length rec = omega (tests, e') in
                Returns-bind (LiesIn? (length rec)) _ (block_value rec tag len (i + 5 + len)) _
                  (block_value-LiesIn rec tag len (i + 5 + len) short (omega arith) fits)
                  (λ pv k.
                    blocks_loop-LiesIn fuel rec (i + 5 + len) (push out pv) short (omega arith)
                      (omega arith) (All-push _ out pv h k))))))
      (λ _. h)

parse_blocks-LiesIn :
    (rec : Bytes) → length rec < 2 ^ 32 → Returns (All (LiesIn (length rec))) (parse_blocks rec)
unfolding parse_blocks
parse_blocks-LiesIn rec short =
    blocks_loop-LiesIn (suc (length rec)) rec hdr_len [] short (omega arith) (omega arith) tt

abbrev pub IsReadable : Bytes → Pv → Type 0
IsReadable rec pv = (b : Bytes) × (bytes pv rec ≡ done b)

LiesIn-IsReadable :
    (rec : Bytes) (pv : Pv) → length rec < 2 ^ 32 → LiesIn (length rec) pv → IsReadable rec pv
unfolding bytes
LiesIn-IsReadable rec (str s l) short h =
    (_, slice-done rec s (as_u32 (s + l)) (omega arith) (omega arith))
LiesIn-IsReadable rec (str16 s l) short h =
    (_, slice-done rec s (as_u32 (s + l)) (omega arith) (omega arith))
LiesIn-IsReadable rec (reg_str r s l) short h =
    (_, slice-done rec s (as_u32 (s + l)) (omega arith) (omega arith))
LiesIn-IsReadable rec (reg_str16 r s l) short h =
    (_, slice-done rec s (as_u32 (s + l)) (omega arith) (omega arith))
LiesIn-IsReadable rec (f64 w) short h = ([], refl)
LiesIn-IsReadable rec (smi w) short h = ([], refl)
LiesIn-IsReadable rec (reg_word r w) short h = ([], refl)
LiesIn-IsReadable rec (reg_f64 r w) short h = ([], refl)
LiesIn-IsReadable rec (reg_smi r w) short h = ([], refl)
LiesIn-IsReadable rec (operand k w) short h = ([], refl)
LiesIn-IsReadable rec (vclock w) short h = ([], refl)

All-IsReadable :
    (rec : Bytes) (out : List Pv)
    → length rec < 2 ^ 32
    → All (LiesIn (length rec)) out
    → All (IsReadable rec) out
All-IsReadable rec [] short h = tt
All-IsReadable rec (pv ∷ out) short (h, hs) =
    (LiesIn-IsReadable rec pv short h, All-IsReadable rec out short hs)

-- On every record shorter than 4 GiB `parse_blocks` returns, without a panic and within its fuel,
-- and `Pv::bytes` of each value that it returned reads the record without a panic.
pub parse_blocks_total :
    (rec : Bytes) → length rec < 2 ^ 32 → Returns (All (IsReadable rec)) (parse_blocks rec)
parse_blocks_total rec short =
    Returns-imp _ _ (parse_blocks rec) (parse_blocks-LiesIn rec short)
      (λ out h. All-IsReadable rec out short h)
