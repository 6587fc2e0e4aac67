-- ===== src/Writer/Batch.antt =====
-- `scan_arr` of src/writer.rs on any bytes: it returns, and its tokens stand in the text in order.
use afeye.Prelude.{
  ℕ, zero, suc, ◌+◌, ◌≤◌, ◌<◌, not, Option-cases, inl, inr, Option, some, none, List, [], ◌∷◌, ◌++◌,
  Bytes, length, get_elem?, Returns, Returns-bind, Returns-if, ◌==◌, arith,
}
use afeye.Writer.{Tok, skip_ws, scan_val, arr_loop, scan_arr}
use afeye.Writer.Tokens.{inside, Stops, IsTok, skip_ws-Stops, scan_val-IsTok}

module _ (s : Bytes) where
  -- Tokens in order between `lo` and `hi`, none empty.
  abbrev pub Tokens : ℕ → List Tok → ℕ → Type 0
  Tokens lo [] hi = lo ≤ hi
  Tokens lo (t ∷ ts) hi = (lo ≤ t.a) × (t.a < t.b) × Tokens t.b ts hi

  Tokens-snoc :
      (lo mid hi : ℕ) (ts : List Tok) (t : Tok)
      → Tokens lo ts mid
      → mid ≤ t.a
      → t.a < t.b
      → t.b ≤ hi
      → Tokens lo (ts ++ (t ∷ [])) hi
  Tokens-snoc lo mid hi [] t w h k l = (omega arith, k, l)
  Tokens-snoc lo mid hi (x ∷ ts) t (a, b, w) h k l = (a, b, Tokens-snoc x.b mid hi ts t w h k l)

  Tokens-grow : (lo mid hi : ℕ) (ts : List Tok) → mid ≤ hi → Tokens lo ts mid → Tokens lo ts hi
  Tokens-grow lo mid hi [] h w = omega arith
  Tokens-grow lo mid hi (t ∷ ts) h (a, b, w) = (a, b, Tokens-grow t.b mid hi ts h w)

  abbrev pub InText : Option (List Tok) → Type 0
  InText none = Unit
  InText (some ts) = Tokens 0 ts (length s)

  arr_loop-InText :
      (fuel i : ℕ) (out : List Tok)
      → 0 < fuel
      → length s < fuel + i
      → i ≤ length s
      → Tokens 0 out i
      → Returns InText (arr_loop fuel s i out)
  unfolding arr_loop
  arr_loop-InText zero i out pos enough h w = elim pos [ ]
  arr_loop-InText (suc fuel) i out pos enough h w =
      Returns-bind (Stops s i) InText (skip_ws s i) _ (skip_ws-Stops s i) (λ j hj.
        elim (Option-cases (get_elem? s j)) [
          | inl e ↦ rw (e, Returns) tt
          | inr (c, e) ↦
              rw (e, Returns)
                (Returns-if _ (c == 93) _ _ (λ _. Tokens-grow 0 i (length s) out h w)
                  (λ _.
                    Returns-bind (IsTok s j j) InText (scan_val s j) _ (scan_val-IsTok s j) (elim [
                      | none ↦ λ _. tt
                      | some tok ↦ λ t.
                          Returns-bind (Stops s tok.b) InText (skip_ws s tok.b) _
                            (skip_ws-Stops s tok.b)
                            (λ k hk.
                              let grown : (hi : ℕ) → tok.b ≤ hi → Tokens 0 (out ++ (tok ∷ [])) hi =
                                λ hi b.
                                  Tokens-snoc 0 i hi out tok w (omega (arith, hj, t))
                                    (omega (arith, t)) b in
                              elim (Option-cases (get_elem? s k)) [
                                | inl e2 ↦ rw (e2, Returns) tt
                                | inr (c2, e2) ↦
                                    rw (e2, Returns)
                                      (Returns-if _ (c2 == 44) _ _
                                        (λ _.
                                          Returns-bind (Stops s (k + 1)) InText (skip_ws s (k + 1))
                                            _ (skip_ws-Stops s (k + 1))
                                            (λ l hl. elim (Option-cases (get_elem? s l)) [
                                              | inl e3 ↦ rw (e3, Returns) tt
                                              | inr (c3, e3) ↦
                                                  let m : l < length s = inside s l c3 e3 in
                                                  rw (e3, Returns)
                                                    (Returns-if _ (c3 == 93) _ _ (λ _. tt)
                                                      (λ _.
                                                        arr_loop-InText fuel l (out ++ (tok ∷ []))
                                                          (omega (arith, hj, t, hk, hl))
                                                          (omega (arith, hj, t, hk, hl))
                                                          (omega arith)
                                                          (grown l (omega (arith, hk, hl)))))
                                            ]))
                                        (λ _.
                                          Returns-if _ (c2 == 93) _ _
                                            (λ _. grown (length s) (omega (arith, t))) (λ _. tt)))
                              ])
                    ])))
        ])

  -- On any bytes `scan_arr` returns, without a panic and within its fuel, and its tokens are not
  -- empty and stand in the text, each behind the one before it.
  pub scan_arr_total : Returns InText (scan_arr s)
  unfolding scan_arr
  scan_arr_total = Returns-bind (Stops s 0) InText (skip_ws s 0) _ (skip_ws-Stops s 0) (λ i hi.
      elim (Option-cases (get_elem? s i)) [
        | inl e ↦ rw (e, Returns) tt
        | inr (c, e) ↦
            let l : i < length s = inside s i c e in
            rw (e, Returns)
              (Returns-if _ (not (c == 91)) _ _ (λ _. tt)
                (λ _.
                  arr_loop-InText (suc (length s)) (i + 1) [] (omega arith) (omega arith)
                    (omega arith) (omega arith)))
      ])
