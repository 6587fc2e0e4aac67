-- ===== src/Bctrace/FuncDef/RoundTrip.antt =====
-- A function blob, written as the engine lays it out, is read back by `parse_func_def_blob`.
use afeye.Prelude.{
  ℕ, zero, suc, ◌+◌, ◌^◌, ◌≤◌, ◌<◌, ◌≡◌, refl, sym, ap, ◌∙◌, some, List, [], ◌∷◌, ◌++◌, append-nil,
  append_assoc, Bytes, length, length-append, done, le→leb, lt→leb-false, le→ltb-false, arith,
}
use afeye.Bctrace.Read.{rd_i32, rd_u64, to_le, length-to_le}
use afeye.Bctrace.Cursor.{At, At-length, At-byte, At-slice, At-skip, At-u32, At-u64}
use afeye.Bctrace.FuncDef.{
  CpEntry, raw, str, str16, f64, FuncDef, cp_entry, cp_loop, parse_func_def_blob,
}

abbrev pub cp_tag : CpEntry → ℕ
cp_tag (raw w) = 10
cp_tag (str b) = 8
cp_tag (str16 b) = 13
cp_tag (f64 w) = 9

abbrev pub cp_payload : CpEntry → Bytes
cp_payload (raw w) = to_le 8 w
cp_payload (str b) = b
cp_payload (str16 b) = b
cp_payload (f64 w) = to_le 8 w

abbrev pub CpFits : CpEntry → Type 0
CpFits (raw w) = w < 2 ^ 64
CpFits (str b) = length b < 2 ^ 32
CpFits (str16 b) = length b < 2 ^ 32
CpFits (f64 w) = w < 2 ^ 64

abbrev pub AllCpFit : List CpEntry → Type 0
AllCpFit [] = Unit
AllCpFit (e ∷ es) = CpFits e × AllCpFit es

abbrev pub put_cp : CpEntry → Bytes → Bytes
put_cp e x = cp_tag e ∷ (to_le 4 (length (cp_payload e)) ++ (cp_payload e ++ x))

abbrev pub put_cps : List CpEntry → Bytes
put_cps [] = []
put_cps (e ∷ es) = put_cp e (put_cps es)

whole_u64 : (w : ℕ) → w < 2 ^ 64 → rd_u64 (to_le 8 w) 0 ≡ done w
whole_u64 w h = At-u64 (to_le 8 w) 0 w [] h ([], sym (append-nil (to_le 8 w)), refl)

cp_entry-put_cp : (e : CpEntry) → CpFits e → cp_entry (cp_tag e) (cp_payload e) ≡ done e
unfolding cp_entry
cp_entry-put_cp (raw w) h = rw (length-to_le 8 w) (rw (whole_u64 w h))
cp_entry-put_cp (str b) h = refl
cp_entry-put_cp (str16 b) h = refl
cp_entry-put_cp (f64 w) h = rw (length-to_le 8 w) (rw (whole_u64 w h))

payload_short : (e : CpEntry) → CpFits e → length (cp_payload e) < 2 ^ 32
payload_short (raw w) h = omega (arith, length-to_le 8 w)
payload_short (str b) h = h
payload_short (str16 b) h = h
payload_short (f64 w) h = omega (arith, length-to_le 8 w)

length-put_cp :
    (e : CpEntry) (x : Bytes) → length (put_cp e x) ≡ 5 + length (cp_payload e) + length x
length-put_cp e x = omega (
  arith,
  length-append (to_le 4 (length (cp_payload e))) (cp_payload e ++ x),
  length-append (cp_payload e) x,
  length-to_le 4 (length (cp_payload e)),
)

cp_loop-put_cps :
    (es : List CpEntry) (fuel : ℕ) (blob : Bytes) (cp_end i : ℕ) (out : List CpEntry)
    → AllCpFit es
    → length es < fuel
    → At blob i (put_cps es)
    → cp_end ≡ i + length (put_cps es)
    → cp_loop fuel blob cp_end i out ≡ done (out ++ es)
unfolding cp_loop
cp_loop-put_cps [] zero blob cp_end i out fit enough a e = absurd (omega arith)
cp_loop-put_cps [] (suc fuel) blob cp_end i out fit enough a e =
    rw (lt→leb-false (i + 5) cp_end (omega arith)) (ap done (sym (append-nil out)))
cp_loop-put_cps (c ∷ es) zero blob cp_end i out fit enough a e = absurd (omega arith)
cp_loop-put_cps (c ∷ es) (suc fuel) blob cp_end i out (fit, fits) enough a e =
    let len : ℕ = length (cp_payload c) in
    let rest : Bytes = put_cps es in
    let n : length (put_cp c rest) ≡ 5 + len + length rest = length-put_cp c rest in
    let a1 : At blob (i + 1) (to_le 4 len ++ (cp_payload c ++ rest)) =
      At-skip blob i (cp_tag c ∷ []) _ (i + 1) a refl in
    let a5 : At blob (i + 5) (cp_payload c ++ rest) =
      At-skip blob (i + 1) (to_le 4 len) _ (i + 5) a1 (omega (arith, length-to_le 4 len)) in
    let a' : At blob (i + 5 + len) rest = At-skip blob (i + 5) (cp_payload c) rest _ a5 refl in
    rw (le→leb (i + 5) cp_end (omega arith)) (
      rw (At-byte blob i (cp_tag c) _ a) (
        rw (At-u32 blob (i + 1) len _ (payload_short c fit) a1) (
          rw (le→ltb-false cp_end (i + 5 + len) (omega arith)) (
            rw (At-slice blob (i + 5) (cp_payload c) rest (i + 5 + len) a5 refl) (
              rw (cp_entry-put_cp c fit) (
                cp_loop-put_cps es fuel blob cp_end (i + 5 + len) (out ++ (c ∷ [])) fits
                  (omega arith) a' (omega arith)
                ∙ ap done (append_assoc out (c ∷ []) es)))))))

-- The head of 32 bytes, the bytecode, the two names and the constants.
abbrev pub put_func_def : FuncDef → ℕ → Bytes
put_func_def d reserved =
    to_le 4 (length d.bytecode)
    ++ (to_le 4 (length d.script_name)
        ++ (to_le 4 (length d.fn_name)
            ++ (to_le 4 (length (put_cps d.cp))
                ++ (to_le 4 d.frame_size
                    ++ (to_le 4 d.param_count
                        ++ (to_le 4 d.script_id
                            ++ (to_le 4 reserved
                                ++ (d.bytecode
                                    ++ (d.script_name ++ (d.fn_name ++ put_cps d.cp))))))))))

-- Every length and number fits its field of 32 bits.
pub record IsFuncDef (d : FuncDef) : Type 0 where
  pub bytecode_short : length d.bytecode < 2 ^ 32
  pub script_name_short : length d.script_name < 2 ^ 32
  pub fn_name_short : length d.fn_name < 2 ^ 32
  pub cp_short : length (put_cps d.cp) < 2 ^ 32
  pub frame_size_fits : d.frame_size < 2 ^ 32
  pub param_count_fits : d.param_count < 2 ^ 32
  pub script_id_fits : d.script_id < 2 ^ 32
  pub cp_fits : AllCpFit d.cp

length-le-put_cps : (es : List CpEntry) → length es ≤ length (put_cps es)
length-le-put_cps [] = omega arith
length-le-put_cps (e ∷ es) = omega (arith, length-le-put_cps es, length-put_cp e (put_cps es))

-- `parse_func_def_blob` of a function blob returns the function: its numbers, its bytecode, its
-- constants in order, and its names made into `String`s. Every length and number fits 32 bits and
-- every constant its block.
pub parse_func_def_blob-put_func_def :
    (lossy : Bytes → Bytes) (d : FuncDef) (reserved : ℕ)
    → IsFuncDef d
    → parse_func_def_blob lossy d.func_id d.line (put_func_def d reserved)
      ≡ done (some (record d { script_name = lossy d.script_name; fn_name = lossy d.fn_name }))
unfolding parse_func_def_blob rd_i32
parse_func_def_blob-put_func_def lossy d reserved w =
    let p : Bytes = put_func_def d reserved in
    let n1 : ℕ = length d.bytecode in
    let n2 : ℕ = length d.script_name in
    let n3 : ℕ = length d.fn_name in
    let n4 : ℕ = length (put_cps d.cp) in
    let a0 : At p 0 p = ([], refl, refl) in
    let a4 = At-skip p 0 (to_le 4 n1) _ 4 a0 (omega (arith, length-to_le 4 n1)) in
    let a8 = At-skip p 4 (to_le 4 n2) _ 8 a4 (omega (arith, length-to_le 4 n2)) in
    let a12 = At-skip p 8 (to_le 4 n3) _ 12 a8 (omega (arith, length-to_le 4 n3)) in
    let a16 = At-skip p 12 (to_le 4 n4) _ 16 a12 (omega (arith, length-to_le 4 n4)) in
    let a20 =
      At-skip p 16 (to_le 4 d.frame_size) _ 20 a16 (omega (arith, length-to_le 4 d.frame_size)) in
    let a24 =
      At-skip p 20 (to_le 4 d.param_count) _ 24 a20 (omega (arith, length-to_le 4 d.param_count)) in
    let a28 =
      At-skip p 24 (to_le 4 d.script_id) _ 28 a24 (omega (arith, length-to_le 4 d.script_id)) in
    let a32 = At-skip p 28 (to_le 4 reserved) _ 32 a28 (omega (arith, length-to_le 4 reserved)) in
    let b1 = At-skip p 32 d.bytecode _ (32 + n1) a32 refl in
    let b2 = At-skip p (32 + n1) d.script_name _ (32 + n1 + n2) b1 refl in
    let b3 = At-skip p (32 + n1 + n2) d.fn_name (put_cps d.cp) (32 + n1 + n2 + n3) b2 refl in
    let n : 32 + n1 + n2 + n3 + n4 ≡ length p = At-length p _ _ b3 in
    rw (le→ltb-false (length p) 32 (omega arith)) (
      rw (At-u32 p 0 n1 _ w.bytecode_short a0) (
        rw (At-u32 p 4 n2 _ w.script_name_short a4) (
          rw (At-u32 p 8 n3 _ w.fn_name_short a8) (
            rw (At-u32 p 12 n4 _ w.cp_short a12) (
              rw (At-u32 p 16 d.frame_size _ w.frame_size_fits a16) (
                rw (At-u32 p 20 d.param_count _ w.param_count_fits a20) (
                  rw (At-u32 p 24 d.script_id _ w.script_id_fits a24) (
                    rw (le→ltb-false (length p) (32 + n1 + n2 + n3 + n4) (omega arith)) (
                      rw (At-slice p 32 d.bytecode _ (32 + n1) a32 refl) (
                        rw (At-slice p (32 + n1) d.script_name _ (32 + n1 + n2) b1 refl) (
                          rw (At-slice p (32 + n1 + n2) d.fn_name _ (32 + n1 + n2 + n3) b2 refl) (
                            rw (
                              cp_loop-put_cps d.cp (suc (length p)) p (32 + n1 + n2 + n3 + n4)
                                (32 + n1 + n2 + n3) [] w.cp_fits
                                (omega (arith, length-le-put_cps d.cp)) b3 refl)))))))))))))
