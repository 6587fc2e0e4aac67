-- ===== src/Bctrace/Walk/Boundaries.antt =====
-- `decode_func` on any bytecode: it ends, and its instructions stand in order inside the code.
use afeye.Prelude.{
  ℕ, zero, suc, ◌+◌, ◌-◌, ◌≤◌, ◌<◌, ◌≡◌, refl, sym, ◌∙◌, Option, some, none, Option-cases, inl, inr,
  List, [], ◌∷◌, ◌++◌, append-nil, append_assoc, Bytes, length, All, done, stuck, Returns,
  Returns-bind, Returns-step, Returns-imp, Returns-if, byte_at, byte_at-done, leb, ltb, lt→ltb,
  lt→leb-false, tests, arith,
}
use afeye.Bctrace.Meta.{OpMeta, ◌>>?◌}
use afeye.Bctrace.Walk.{
  DecodedInstr, scale, prefix_scale, behind_prefix, sized, decode_at, decode_loop, decode_func,
}

-- The engine gives every opcode a positive size at every operand scale.
abbrev pub IsSized : OpMeta → Type 0
IsSized m = (0 < m.scale_0.size) × (0 < m.scale_1.size) × (0 < m.scale_2.size)

module _ (bc : Bytes) (meta : List OpMeta) where
  -- Instructions in order from `lo` on, inside the code, with opcodes of the table.
  abbrev pub InOrder : ℕ → List DecodedInstr → Type 0
  InOrder lo [] = Unit
  InOrder lo (d ∷ ds) =
      (lo ≤ d.offset)
      × (d.offset < length bc)
      × (d.opcode < length meta)
      × InOrder (suc d.offset) ds

  abbrev pub IsWalk : Option (List DecodedInstr) → Type 0
  IsWalk none = Unit
  IsWalk (some ds) = InOrder 0 ds

  abbrev Place : ℕ → Option (ℕ × ℕ × ℕ) → Type 0
  Place off none = Unit
  Place off (some (rop, s, base)) = (off ≤ base) × (base < length bc)

  -- The next instruction starts behind this one.
  abbrev Round : ℕ → Option (DecodedInstr × ℕ) → Type 0
  Round off none = Unit
  Round off (some (d, total)) =
      (off ≤ d.offset)
      × (d.offset < off + total)
      × (d.offset < length bc)
      × (d.opcode < length meta)

  scale_positive : (m : OpMeta) (i : ℕ) → IsSized m → 0 < (scale m i).size
  scale_positive m zero h = h.0
  scale_positive m (suc zero) h = h.1
  scale_positive m (suc (suc i)) h = h.2

  All-byte_at :
      (i : ℕ) (ms : List OpMeta) → All IsSized ms → i < length ms → Returns IsSized (byte_at ms i)
  unfolding byte_at
  All-byte_at i [] h k = absurd (omega arith)
  All-byte_at zero (m ∷ ms) h k = h.0
  All-byte_at (suc i) (m ∷ ms) h k = All-byte_at i ms h.1 (omega arith)

  behind_prefix-Place :
      (m : OpMeta) (op off : ℕ) → off < length bc → Returns (Place off) (behind_prefix bc m op off)
  unfolding behind_prefix
  behind_prefix-Place m op off h = elim (Option-cases (prefix_scale m)) [
    | inl e ↦ rw (e, Returns) (omega arith)
    | inr (s, e) ↦
        rw (e, Returns)
          (Returns-if _ (leb (length bc) (off + 1)) _ _ (λ _. tt)
            (λ e'.
              Returns-step _ (byte_at bc (off + 1)) _
                (byte_at-done bc (off + 1) (omega (tests, e'))) (λ rop. omega (tests, e'))))
  ]

  sized-Round :
      (off : ℕ) (r : ℕ × ℕ × ℕ)
      → All IsSized meta
      → Place off (some r)
      → Returns (Round off) (sized meta off r)
  unfolding sized
  sized-Round off (rop, s, base) all h =
      Returns-if _ (leb (length meta) rop) _ _ (λ _. tt)
        (λ e.
          Returns-bind IsSized _ (byte_at meta rop) _ (All-byte_at rop meta all (omega (tests, e)))
            (λ rm k. omega (tests, e, scale_positive rm s k)))

  decode_at-Round :
      (off : ℕ) → All IsSized meta → off < length bc → Returns (Round off) (decode_at bc meta off)
  unfolding decode_at
  decode_at-Round off all h = Returns-step _ (byte_at bc off) _ (byte_at-done bc off h) (λ op.
      Returns-if _ (leb (length meta) op) _ _ (λ _. tt)
        (λ e. Returns-step _ (byte_at meta op) _ (byte_at-done meta op (omega (tests, e))) (λ m.
          Returns-bind (Place off) _ (behind_prefix bc m op off) _ (behind_prefix-Place m op off h)
            (follow off all))))
    where
      follow :
          (off : ℕ)
          → All IsSized meta
          → (r : Option (ℕ × ℕ × ℕ)) → Place off r
          → Returns (Round off) (done r >>? sized meta off)
      follow off all none h = tt
      follow off all (some r) h = sized-Round off r all h

  abbrev Extends : ℕ → List DecodedInstr → Option (List DecodedInstr) → Type 0
  Extends off out none = Unit
  Extends off out (some all) = (ds : List DecodedInstr) × (all ≡ out ++ ds) × InOrder off ds

  InOrder-le : (lo hi : ℕ) (ds : List DecodedInstr) → lo ≤ hi → InOrder hi ds → InOrder lo ds
  InOrder-le lo hi [] h w = tt
  InOrder-le lo hi (d ∷ ds) h (a, b, c, w) = (omega arith, b, c, w)

  Extends-cons :
      (off total : ℕ) (d : DecodedInstr) (out : List DecodedInstr) (r : Option (List DecodedInstr))
      → Round off (some (d, total))
      → Extends (off + total) (out ++ (d ∷ [])) r
      → Extends off out r
  Extends-cons off total d out none h k = tt
  Extends-cons off total d out (some all) (a, b, c, e) (ds, p, w) = (
    d ∷ ds,
    p ∙ append_assoc out (d ∷ []) ds,
    (a, c, e, InOrder-le (suc d.offset) (off + total) ds (omega arith) w),
  )

  decode_loop-Extends :
      (fuel off : ℕ) (out : List DecodedInstr)
      → All IsSized meta
      → 0 < fuel
      → length bc < fuel + off
      → Returns (Extends off out) (decode_loop fuel bc meta off out)
  unfolding decode_loop
  decode_loop-Extends zero off out all pos enough = elim pos [ ]
  decode_loop-Extends (suc fuel) off out all pos enough =
      Returns-if _ (ltb off (length bc)) _ _
        (λ e.
          let inside : off < length bc = omega (tests, e) in
          Returns-bind (Round off) _ (decode_at bc meta off) _ (decode_at-Round off all inside)
            (elim [
              | none ↦ λ h. tt
              | some (d, total) ↦ λ h.
                  Returns-imp _ _ (decode_loop fuel bc meta (off + total) (out ++ (d ∷ [])))
                    (decode_loop-Extends fuel (off + total) (out ++ (d ∷ [])) all
                      (go fuel inside enough) (omega arith))
                    (λ r. Extends-cons off total d out r h)
            ]))
        (λ _. ([], sym (append-nil out), tt))
    where
      go : (f : ℕ) → off < length bc → length bc < suc f + off → 0 < f
      go f h k = omega arith

  -- With a table whose sizes are all positive `decode_func` returns on every bytecode, without a
  -- panic: the loop ends within one round for each byte. The instructions that it returns stand
  -- at strictly increasing offsets inside the bytecode, and their opcodes are in the table.
  pub decode_func_total : All IsSized meta → Returns IsWalk (decode_func bc meta)
  unfolding decode_func
  decode_func_total all =
      Returns-imp (Extends 0 []) _ (decode_loop (suc (length bc)) bc meta 0 [])
        (decode_loop-Extends (suc (length bc)) 0 [] all (omega arith) (omega arith)) from_start
    where
      from_start : (r : Option (List DecodedInstr)) → Extends 0 [] r → IsWalk r
      from_start none h = tt
      from_start (some all') (ds, e, w) = rw e w

  -- One round of the loop, and what it reads at an opcode that is no prefix.
  pub decode_loop_step :
      (fuel off : ℕ) (out : List DecodedInstr) (d : DecodedInstr) (total : ℕ)
      → off < length bc
      → decode_at bc meta off ≡ done (some (d, total))
      → decode_loop (suc fuel) bc meta off out
        ≡ decode_loop fuel bc meta (off + total) (out ++ (d ∷ []))
  unfolding decode_loop
  decode_loop_step fuel off out d total h e = rw (lt→ltb off (length bc) h) (rw e)

  pub decode_at_plain :
      (off op : ℕ) (m : OpMeta)
      → op < length meta
      → byte_at bc off ≡ done op
      → byte_at meta op ≡ done m
      → prefix_scale m ≡ none
      → decode_at bc meta off
        ≡ done (some (record { offset = off; opcode = op }, m.scale_0.size + (off - off)))
  unfolding decode_at
  decode_at_plain off op m k b r p = rw b (
      rw (lt→leb-false (length meta) op k)
        (rw r (rw (p, behind_prefix) (rw (lt→leb-false (length meta) op k, sized) (rw r)))))

  -- At an opcode that is no prefix and whose size in the table is 0 the loop never ends: it has not
  -- ended after any number of rounds, since it reads the same instruction again and again.
  pub decode_loop_diverges :
      (fuel off op : ℕ) (m : OpMeta) (out : List DecodedInstr)
      → off < length bc
      → op < length meta
      → byte_at bc off ≡ done op
      → byte_at meta op ≡ done m
      → prefix_scale m ≡ none
      → m.scale_0.size ≡ 0
      → decode_loop fuel bc meta off out ≡ stuck
  decode_loop_diverges zero off op m out h k b r p z = unfold decode_loop in refl
  decode_loop_diverges (suc fuel) off op m out h k b r p z =
      let d : DecodedInstr = record { offset = off; opcode = op } in
      let total : ℕ = m.scale_0.size + (off - off) in
      let still : off + total ≡ off = omega arith in
      decode_loop_step fuel off out d total h (decode_at_plain off op m k b r p)
      ∙ rw still (decode_loop_diverges fuel off op m (out ++ (d ∷ [])) h k b r p z)
