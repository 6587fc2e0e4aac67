-- ===== src/Sinkfilter/Wasm/Bounds.antt =====
-- `wasm_imports_exports` of src/sinkfilter.rs on any bytes.
use afeye.Prelude.{
  ℕ, zero, suc, ◌+◌, ◌*◌, ◌%◌, ◌^◌, ◌≤◌, ◌<◌, ◌≡◌, refl, some, none, Option-cases, inl, inr, [],
  ◌∷◌, Bytes, length, get_elem?, Returns, Returns-step, Returns-if, slice, slice-done, bytes_eq,
  codes, not, leb, ltb, bit_and, bit_or, tests, arith,
}
use afeye.Sinkfilter.Wasm.{
  Found, u8, leb_loop, leb_u64, read_section, sections_loop, wasm_imports_exports,
}

module _ (b : Bytes) where
  u8-none : (p : ℕ) → get_elem? b p ≡ none → u8 b p ≡ (none, p)
  unfolding u8
  u8-none p e = rw (e, u8) refl

  u8-some : (p c : ℕ) → get_elem? b p ≡ some c → u8 b p ≡ (some c, p + 1)
  unfolding u8
  u8-some p c e = rw (e, u8) refl

  -- a byte that is there moves the position by one
  u8-moves : (p v : ℕ) → (u8 b p).0 ≡ some v → p < (u8 b p).1
  u8-moves p v h = elim (Option-cases (get_elem? b p)) [
    | inl e ↦ absurd (let bad : none ≡ some v = rw (u8-none p e) at h in cc)
    | inr (c, e) ↦ rw (u8-some p c e) (omega arith)
  ]

  leb_loop-stays : (rounds p r shift : ℕ) → p ≤ (leb_loop b rounds p r shift).1
  unfolding leb_loop
  leb_loop-stays zero p r shift = omega arith
  leb_loop-stays (suc rounds) p r shift = elim (Option-cases (get_elem? b p)) [
    | inl e ↦ rw (u8-none p e) (omega arith)
    | inr (c, e) ↦ rw (u8-some p c e) (
        ground (
          arith,
          leb_loop-stays rounds (p + 1) (bit_or r (bit_and c 127 * 2 ^ shift % 2 ^ 64)) (shift + 7),
        ))
  ]

  sections_loop-Returns :
      (lossy : Bytes → Bytes) (fuel p : ℕ) (found : Found)
      → 0 < fuel
      → length b < fuel + p
      → Returns (λ r. Unit) (sections_loop lossy fuel b p found)
  unfolding sections_loop
  sections_loop-Returns lossy zero p found pos enough = elim pos [ ]
  sections_loop-Returns lossy (suc fuel) p found pos enough =
      Returns-if _ (ltb p (length b)) _ _
        (λ e. elim (Option-cases (u8 b p).0) [
          | inl n ↦ rw (n, Returns) tt
          | inr (id, n) ↦
              let q : ℕ = (u8 b p).1 in
              rw (n, Returns)
                (elim (Option-cases (leb_u64 b q).0) [
                  | inl m ↦ rw (m, Returns) tt
                  | inr (len, m) ↦
                      rw (m, Returns)
                        (Returns-if _ (leb ((leb_u64 b q).1 + len) (length b)) _ _
                          (λ fits.
                            let room : (leb_u64 b q).1 + len ≤ length b = omega (tests, fits) in
                            let moved : p < q = u8-moves p id n in
                            let stays : q ≤ (leb_u64 b q).1 =
                              unfold leb_u64 in leb_loop-stays 10 q 0 0 in
                            Returns-step _ (slice b (leb_u64 b q).1 ((leb_u64 b q).1 + len)) _
                              (
                                _,
                                slice-done b (leb_u64 b q).1 ((leb_u64 b q).1 + len) (omega arith)
                                    room,
                              )
                              (λ sec.
                                sections_loop-Returns lossy fuel ((leb_u64 b q).1 + len)
                                  (read_section lossy id sec found) (omega (tests, e))
                                  (omega arith)))
                          (λ _. tt))
                ])
        ])
        (λ _. tt)

  -- On any bytes the reader returns, without a panic and within its fuel.
  pub wasm_imports_exports_total :
      (lossy : Bytes → Bytes) → Returns (λ r. Unit) (wasm_imports_exports lossy b)
  unfolding wasm_imports_exports
  wasm_imports_exports_total lossy =
      Returns-if _ (ltb (length b) 8) _ _ (λ _. tt)
        (λ e.
          Returns-step _ (slice b 0 4) _ (_, slice-done b 0 4 (omega arith) (omega (tests, e)))
            (λ head.
              Returns-if _ (not (bytes_eq head (0 ∷ codes "asm"))) _ _ (λ _. tt)
                (λ _.
                  sections_loop-Returns lossy (suc (length b)) 8 ([], []) (omega arith)
                    (omega arith))))
