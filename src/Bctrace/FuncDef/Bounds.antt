-- ===== src/Bctrace/FuncDef/Bounds.antt =====
-- `parse_func_def_blob` on any blob, well formed or not.
use afeye.Prelude.{
  ℕ, zero, suc, ◌+◌, ◌-◌, ◌≤◌, ◌<◌, ◌≡◌, true, ◌&&◌, Option, List, [], ◌∷◌, ◌++◌, Bytes, length,
  Outcome, done, Returns, Returns-step, Returns-if, Returns→done, byte_at, byte_at-done, slice,
  slice-done, leb, ltb, ◌==◌, take, drop, tests, arith,
}
use afeye.Bctrace.Read.{rd_u32, rd_i32, rd_u64, rd_u32-done, rd_u64-done}
use afeye.Bctrace.FuncDef.{CpEntry, FuncDef, cp_entry, cp_loop, parse_func_def_blob}

abbrev Done {ℓ} : {A : Type ℓ} → Outcome A → Type ℓ
Done {A} m = (a : A) × (m ≡ done a)

abbrev Ends {ℓ} : {A : Type ℓ} → Outcome A → Type 0
Ends = Returns (λ _. Unit {0})

sliced : (b : Bytes) (s e : ℕ) → s ≤ e → e ≤ length b → Done (slice b s e)
sliced b s e h k = (take (e - s) (drop s b), slice-done b s e h k)

eight : (b : Bytes) → (length b == 8) ≡ true → Done (rd_u64 b 0)
eight b h = rd_u64-done b 0 (ground arith)

nine_eight : (tag : ℕ) (b : Bytes) → (tag == 9 && length b == 8) ≡ true → Done (rd_u64 b 0)
nine_eight tag b h = rd_u64-done b 0 (ground arith)

cp_entry-Ends : (tag : ℕ) (b : Bytes) → Ends (cp_entry tag b)
unfolding cp_entry
cp_entry-Ends tag b =
    Returns-if _ (tag == 8) _ _ (λ _. tt)
      (λ _.
        Returns-if _ (tag == 13) _ _ (λ _. tt)
          (λ _.
            Returns-if _ (tag == 9 && length b == 8) _ _
              (λ e. Returns-step _ (rd_u64 b 0) _ (nine_eight tag b e) (λ w. tt))
              (λ _.
                Returns-if _ (length b == 8) _ _
                  (λ e. Returns-step _ (rd_u64 b 0) _ (eight b e) (λ w. tt)) (λ _. tt))))

Ends→Done {ℓ} : {A : Type ℓ} (m : Outcome A) → Ends m → Done m
Ends→Done m h = let (a, e, u) = Returns→done _ m h in (a, e)

cp_loop-Ends :
    (fuel : ℕ) (blob : Bytes) (cp_end i : ℕ) (cp : List CpEntry)
    → cp_end ≤ length blob
    → 0 < fuel
    → cp_end < fuel + i
    → Ends (cp_loop fuel blob cp_end i cp)
unfolding cp_loop
cp_loop-Ends zero blob cp_end i cp within pos enough = elim pos [ ]
cp_loop-Ends (suc fuel) blob cp_end i cp within pos enough =
    Returns-if _ (leb (i + 5) cp_end) _ _
      (λ e.
        let room : i + 5 ≤ cp_end = omega (tests, e) in
        Returns-step _ (byte_at blob i) _ (byte_at-done blob i (omega arith)) (λ tag.
          Returns-step _ (rd_u32 blob (i + 1)) _ (rd_u32-done blob (i + 1) (omega arith)) (λ len.
            Returns-if _ (ltb cp_end (i + 5 + len)) _ _ (λ _. tt)
              (λ e'.
                let fits : i + 5 + len ≤ cp_end = omega (tests, e') in
                Returns-step _ (slice blob (i + 5) (i + 5 + len)) _
                  (sliced blob _ _ (omega arith) (omega arith))
                  (λ b. Returns-step _ (cp_entry tag b) _ (Ends→Done _ (cp_entry-Ends tag b)) (λ c.
                    cp_loop-Ends fuel blob cp_end (i + 5 + len) (cp ++ (c ∷ [])) within
                      (omega arith) (omega arith)))))))
      (λ _. tt)

module _ (lossy : Bytes → Bytes) (func_id line : ℕ) (blob : Bytes) where
  field : (i : ℕ) → 32 ≤ length blob → i ≤ 28 → Done (rd_u32 blob i)
  field i h k = rd_u32-done blob i (omega arith)

  parse_func_def_blob-Ends : Ends (parse_func_def_blob lossy func_id line blob)
  unfolding parse_func_def_blob rd_i32
  parse_func_def_blob-Ends =
      Returns-if _ (ltb (length blob) 32) _ _ (λ _. tt)
        (λ e.
          let big : 32 ≤ length blob = omega (tests, e) in
          Returns-step _ (rd_u32 blob 0) _ (field 0 big (omega arith)) (λ bc_len.
            Returns-step _ (rd_u32 blob 4) _ (field 4 big (omega arith)) (λ sn.
              Returns-step _ (rd_u32 blob 8) _ (field 8 big (omega arith)) (λ fn.
                Returns-step _ (rd_u32 blob 12) _ (field 12 big (omega arith)) (λ cpb.
                  Returns-step _ (rd_u32 blob 16) _ (field 16 big (omega arith)) (λ fs.
                    Returns-step _ (rd_u32 blob 20) _ (field 20 big (omega arith)) (λ pc.
                      Returns-step _ (rd_u32 blob 24) _ (field 24 big (omega arith)) (λ si.
                        Returns-if _ (ltb (length blob) (32 + bc_len + sn + fn + cpb)) _ _ (λ _. tt)
                          (λ e'.
                            let all : 32 + bc_len + sn + fn + cpb ≤ length blob =
                              omega (tests, e') in
                            Returns-step _ (slice blob 32 (32 + bc_len)) _
                              (sliced blob _ _ (omega arith) (omega arith))
                              (λ b.
                                Returns-step _ (slice blob (32 + bc_len) (32 + bc_len + sn)) _
                                  (sliced blob _ _ (omega arith) (omega arith))
                                  (λ s.
                                    Returns-step _
                                      (slice blob (32 + bc_len + sn) (32 + bc_len + sn + fn)) _
                                      (sliced blob _ _ (omega arith) (omega arith))
                                      (λ f.
                                        Returns-step _
                                          (cp_loop (suc (length blob)) blob
                                            (32 + bc_len + sn + fn + cpb) (32 + bc_len + sn + fn)
                                            [])
                                          _
                                          (Ends→Done _ (
                                            cp_loop-Ends (suc (length blob)) blob _
                                              (32 + bc_len + sn + fn) [] all (omega arith)
                                              (omega arith)))
                                          (λ cp. tt)))))))))))))

  -- `parse_func_def_blob` returns on every blob: no length field makes it panic, and its loop over
  -- the constant pool ends.
  pub parse_func_def_blob_total :
      (d : Option FuncDef) × (parse_func_def_blob lossy func_id line blob ≡ done d)
  parse_func_def_blob_total = Ends→Done _ parse_func_def_blob-Ends
