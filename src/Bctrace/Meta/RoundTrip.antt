-- ===== src/Bctrace/Meta/RoundTrip.antt =====
-- The meta record, written as the engine lays it out, is read back by `parse_meta`.
use afeye.Prelude.{
  ℕ, ◌+◌, ◌^◌, ◌≤◌, ◌<◌, ◌≡◌, refl, ap, ◌∙◌, some, List, [], ◌∷◌, ◌++◌, map, Bytes, length, drop,
  done, panic, ◌>>=◌, byte_at, lt→leb-false, le→leb, le→ltb-false, ◌==◌, Bool-cases, inl, inr,
  arith,
}
use afeye.Bctrace.Read.{rd_i32, to_le, length-to_le}
use afeye.Bctrace.Cursor.{
  At, At-length, At-drop, At-byte, At-byte_1, At-byte_2, At-slice, At-skip, At-u16, At-u32,
}
use afeye.Bctrace.Meta.{
  OpScaleMeta, OpMeta, op_meta, scan_nul, read_ops, read_scale, read_op, read_op_table,
  read_rt_names, parse_meta,
}
use afeye.Bctrace.Meta.Names.{
  count_nul, before, names, scan_nul-before, read_rt_names-names, read_rt_names_panics,
}

abbrev pub put_ops : List (ℕ × ℕ) → Bytes
put_ops [] = []
put_ops ((ty, off) ∷ ops) = ty ∷ off ∷ put_ops ops

abbrev pub put_scale : OpScaleMeta → Bytes
put_scale s = s.size ∷ put_ops s.ops

abbrev pub put_op : OpMeta → Bytes → Bytes
put_op m x =
    m.name
    ++ (0
        ∷ m.n_ops
        ∷ m.flags
        ∷ m.acc_use
        ∷ (put_scale m.scale_0 ++ (put_scale m.scale_1 ++ (put_scale m.scale_2 ++ x))))

abbrev pub put_op_table : List OpMeta → Bytes → Bytes
put_op_table [] x = x
put_op_table (m ∷ ms) x = put_op m (put_op_table ms x)

-- The name has no NUL, and each scale has `n_ops` operands.
pub record IsOp (m : OpMeta) : Type 0 where
  pub no_nul : count_nul m.name ≡ 0
  pub ops_0 : length m.scale_0.ops ≡ m.n_ops
  pub ops_1 : length m.scale_1.ops ≡ m.n_ops
  pub ops_2 : length m.scale_2.ops ≡ m.n_ops

abbrev pub AllIsOp : List OpMeta → Type 0
AllIsOp [] = Unit
AllIsOp (m ∷ ms) = IsOp m × AllIsOp ms

-- the op as `parse_meta` stores it
abbrev pub stored : (Bytes → Bytes) → OpMeta → OpMeta
stored lossy m = record m { name = lossy m.name }

before-append : (b x : Bytes) → count_nul b ≡ 0 → before (b ++ (0 ∷ x)) ≡ b
before-append [] x h = refl
before-append (c ∷ b) x h = elim (Bool-cases (c == 0)) [
  | inl e ↦ absurd (ground arith)
  | inr e ↦ rw e (ap (◌∷◌ c) (before-append b x (rw e at h)))
]

module _ (lossy : Bytes → Bytes) (p : Bytes) where
  read_ops-put_ops :
      (ops : List (ℕ × ℕ)) (i : ℕ) (x : Bytes)
      → At p i (put_ops ops ++ x)
      → (j : ℕ) × (read_ops lossy p (length ops) i ≡ done (some (ops, j))) × At p j x
  unfolding read_ops
  read_ops-put_ops [] i x a = (i, refl, a)
  read_ops-put_ops ((ty, off) ∷ ops) i x a =
      let rest : Bytes = put_ops ops ++ x in
      let (j, e, b) =
        read_ops-put_ops ops (i + 2) x (At-skip p i (ty ∷ off ∷ []) rest (i + 2) a refl) in
      (
        j,
        rw (le→ltb-false (length p) (i + 2) (omega (arith, At-length p i (ty ∷ off ∷ rest) a)))
            (rw (At-byte p i ty (off ∷ rest) a) (rw (At-byte_1 p i ty off rest a) (rw e))),
        b,
      )

  read_scale-put_scale :
      (s : OpScaleMeta) (n i : ℕ) (x : Bytes)
      → length s.ops ≡ n
      → At p i (put_scale s ++ x)
      → (j : ℕ) × (read_scale lossy p n i ≡ done (some (s, j))) × At p j x
  unfolding read_scale
  read_scale-put_scale s n i x h a =
      let rest : Bytes = put_ops s.ops ++ x in
      let (j, e, b) =
        read_ops-put_ops s.ops (i + 1) x (At-skip p i (s.size ∷ []) rest (i + 1) a refl) in
      (
        j,
        rw (lt→leb-false (length p) i (omega (arith, At-length p i (s.size ∷ rest) a)))
            (rw (At-byte p i s.size rest a) (rw (← h) (rw e))),
        b,
      )

  module _ (m : OpMeta) (w : IsOp m) (start : ℕ) (x : Bytes) (a : At p start (put_op m x)) where
    abbrev fields : Bytes
    fields = put_scale m.scale_0 ++ (put_scale m.scale_1 ++ (put_scale m.scale_2 ++ x))

    abbrev nul : ℕ
    nul = start + length m.name

    found : scan_nul (drop start p) start ≡ nul
    found = rw (At-drop p start (put_op m x) a) (
        scan_nul-before (put_op m x) start
        ∙ rw (before-append m.name (m.n_ops ∷ m.flags ∷ m.acc_use ∷ fields) w.no_nul))

    At-nul : At p nul (0 ∷ m.n_ops ∷ m.flags ∷ m.acc_use ∷ fields)
    At-nul = At-skip p start m.name (0 ∷ m.n_ops ∷ m.flags ∷ m.acc_use ∷ fields) nul a refl

    At-ops : At p (nul + 1) (m.n_ops ∷ m.flags ∷ m.acc_use ∷ fields)
    At-ops = At-skip p nul (0 ∷ []) (m.n_ops ∷ m.flags ∷ m.acc_use ∷ fields) (nul + 1) At-nul refl

    At-scales : At p (nul + 1 + 3) fields
    At-scales =
        At-skip p (nul + 1) (m.n_ops ∷ m.flags ∷ m.acc_use ∷ []) fields (nul + 1 + 3) At-ops refl

    read_op-put_op : (j : ℕ) × (read_op lossy p start ≡ done (some (stored lossy m, j))) × At p j x
    unfolding read_op
    read_op-put_op =
        let n : nul + length (0 ∷ m.n_ops ∷ m.flags ∷ m.acc_use ∷ fields) ≡ length p =
          At-length p nul _ At-nul in
        let (j0, e0, a0) =
          read_scale-put_scale m.scale_0 m.n_ops (nul + 1 + 3) _ w.ops_0 At-scales in
        let (j1, e1, a1) = read_scale-put_scale m.scale_1 m.n_ops j0 _ w.ops_1 a0 in
        let (j2, e2, a2) = read_scale-put_scale m.scale_2 m.n_ops j1 x w.ops_2 a1 in
        (
          j2,
          rw found (
              rw (lt→leb-false (length p) nul (omega arith)) (
                rw (At-slice p start m.name _ nul a refl) (
                  rw (le→ltb-false (length p) (nul + 1 + 3) (omega arith)) (
                    rw
                      (
                        At-byte p (nul + 1) m.n_ops _ At-ops,
                        At-byte_1 p (nul + 1) m.n_ops m.flags _ At-ops,
                        At-byte_2 p (nul + 1) m.n_ops m.flags m.acc_use fields At-ops,
                      )
                      (rw e0 (rw e1 (rw e2))))))),
          a2,
        )

  read_op_table-put_op_table :
      (ms : List OpMeta) (i : ℕ) (x : Bytes)
      → AllIsOp ms
      → At p i (put_op_table ms x)
      → (j : ℕ) × (read_op_table lossy p (length ms) i ≡ done (some (map (stored lossy) ms, j)))
        × At p j x
  unfolding read_op_table
  read_op_table-put_op_table [] i x ws a = (i, refl, a)
  read_op_table-put_op_table (m ∷ ms) i x (w, ws) a =
      let (j, e, b) = read_op-put_op m w i (put_op_table ms x) a in
      let (k, e', c) = read_op_table-put_op_table ms j x ws b in (k, rw e (rw e'), c)

-- The meta record: a header that starts with the opcode, the counts, the table of opcodes, and
-- the text of the runtime names, which may be cut or may hold other than `n_rt` names.
abbrev pub put_meta : Bytes → List OpMeta → ℕ → ℕ → Bytes → Bytes
put_meta hdr ms reg_start n_rt text =
    op_meta
    ∷ (hdr
        ++ (to_le 2 (length ms) ++ (to_le 4 reg_start ++ put_op_table ms (to_le 2 n_rt ++ text))))

module _ (lossy : Bytes → Bytes) (hdr : Bytes) (ms : List OpMeta) (reg_start n_rt : ℕ)
    (text : Bytes) (header : length hdr ≡ 71) (ws : AllIsOp ms) (few : length ms < 2 ^ 16)
    (reg : reg_start < 2 ^ 32) (count : n_rt < 2 ^ 16) where
  abbrev record_bytes : Bytes
  record_bytes = put_meta hdr ms reg_start n_rt text

  -- Up to the runtime names the record is read back; the names stand at some index `j`.
  parse_up_to_names :
      (j : ℕ) × (parse_meta lossy record_bytes ≡ (do
        rt ← read_rt_names lossy record_bytes n_rt j
        done (some (record { ops = map (stored lossy) ms; rt_names = rt; reg_start = reg_start }))))
      × At record_bytes j text
  unfolding parse_meta rd_i32 byte_at
  parse_up_to_names =
      let p : Bytes = record_bytes in
      let table : Bytes = put_op_table ms (to_le 2 n_rt ++ text) in
      let a0 : At p 72 (to_le 2 (length ms) ++ (to_le 4 reg_start ++ table)) =
        (op_meta ∷ hdr, refl, omega arith) in
      let a1 : At p 74 (to_le 4 reg_start ++ table) =
        At-skip p 72 (to_le 2 (length ms)) _ 74 a0 (omega (arith, length-to_le 2 (length ms))) in
      let a2 : At p 78 table =
        At-skip p 74 (to_le 4 reg_start) table 78 a1 (omega (arith, length-to_le 4 reg_start)) in
      let (i, e, a3) = read_op_table-put_op_table lossy p ms 78 (to_le 2 n_rt ++ text) ws a2 in
      let a4 : At p (i + 2) text =
        At-skip p i (to_le 2 n_rt) text (i + 2) a3 (omega (arith, length-to_le 2 n_rt)) in
      (
        i + 2,
        rw (le→ltb-false (length p) 78 (omega (arith, At-length p 78 table a2))) (
            rw (At-u16 p 72 (length ms) _ few a0) (
              rw (At-u32 p 74 reg_start table reg a1) (
                rw e (
                  rw (le→leb (i + 2) (length p) (omega (arith, At-length p (i + 2) text a4)))
                    (rw (At-u16 p i n_rt text count a3)))))),
        a4,
      )

  -- `parse_meta` of a meta record whose text holds `n_rt` names returns the opcodes (each name
  -- made into a `String`), the first `n_rt` names and the first register. The last name may lack
  -- its NUL. The record has a 72-byte header, fewer than 65536 opcodes, no NUL in their names and
  -- as many operands in each scale as `n_ops` says.
  pub parse_meta-put_meta :
      n_rt ≤ count_nul text + 1
      → parse_meta lossy (put_meta hdr ms reg_start n_rt text)
        ≡ done (
            some (record {
              ops = map (stored lossy) ms;
              rt_names = map lossy (names n_rt text);
              reg_start = reg_start;
            }))
  parse_meta-put_meta enough =
      let (j, e, a) = parse_up_to_names in
      e ∙ rw (read_rt_names-names lossy record_bytes n_rt j text a enough)

  -- `parse_meta` panics on every such record whose runtime names are cut: where the count `n_rt`
  -- exceeds the number of NULs in the text by two or more.
  pub parse_meta_panics :
      count_nul text + 1 < n_rt → parse_meta lossy (put_meta hdr ms reg_start n_rt text) ≡ panic
  parse_meta_panics few_names =
      let (j, e, a) = parse_up_to_names in
      e ∙ rw (read_rt_names_panics lossy record_bytes n_rt j text a few_names)
