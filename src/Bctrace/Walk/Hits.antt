-- ===== src/Bctrace/Walk/Hits.antt =====
-- A block of a walk is live exactly if one of its instructions was executed.
use afeye.Prelude.{
  ℕ, suc, ◌^◌, ◌%◌, ◌≤◌, ◌<◌, ◌≡◌, ◌⊎◌, ◌↔◌, Bool, true, false, ◌||◌, some, inl, inr, List, [], ◌∷◌,
  Bytes, length, All, done, ltb, Bool-cases, ltb→lt, lt→ltb, max, if◌then◌else◌, tests, arith,
}
use afeye.Bctrace.Meta.{OpMeta}
use afeye.Bctrace.Walk.{DecodedInstr, decode_func, is_executed, from_offset, any_executed, is_hit}
use afeye.Bctrace.Walk.Boundaries.{InOrder, IsSized}
use afeye.Bctrace.Walk.Live.{decode_func-InOrder}

-- Some instruction in the block was executed.
abbrev pub SomeExecuted : List DecodedInstr → List (ℕ × ℕ) → ℕ → ℕ → Type 0
SomeExecuted [] ex bs be = ⊥
SomeExecuted (d ∷ ds) ex bs be =
    ((bs ≤ d.offset) × (d.offset < be) × (is_executed ex d.offset ≡ true))
    ⊎ SomeExecuted ds ex bs be

guarded_or :
    (t x y : Bool) → (if t then x || y else false) ≡ true → (t ≡ true) × ((x ≡ true) ⊎ (y ≡ true))
guarded_or t x y e = ground arith

or_right : (x y : Bool) → y ≡ true → (x || y) ≡ true
or_right x y e = ground arith

module _ (bc : Bytes) (meta : List OpMeta) (ex : List (ℕ × ℕ)) (bs be : ℕ) where
  none_behind :
      (ds : List DecodedInstr) (lo : ℕ)
      → be ≤ lo
      → InOrder bc meta lo ds
      → SomeExecuted ds ex bs be
      → ⊥
  none_behind [] lo h w k = k
  none_behind (d ∷ ds) lo h (a, b, c, w) (inl k) = omega arith
  none_behind (d ∷ ds) lo h (a, b, c, w) (inr k) = none_behind ds (suc d.offset) (omega arith) w k

  any_executed→SomeExecuted :
      (ds : List DecodedInstr) (lo : ℕ)
      → bs ≤ lo
      → length bc ≤ 2 ^ 32
      → InOrder bc meta lo ds
      → any_executed ex be ds ≡ true
      → SomeExecuted ds ex bs be
  unfolding any_executed
  any_executed→SomeExecuted [] lo h short w e = ground arith
  any_executed→SomeExecuted (d ∷ ds) lo h short (a, b, c, w) e =
      let (t, r) =
        guarded_or (ltb d.offset be) (is_executed ex (d.offset % 2 ^ 32)) (any_executed ex be ds)
          e in
      let same : d.offset % 2 ^ 32 ≡ d.offset = omega arith in
      elim r [
        | inl x ↦ inl (omega arith, ltb→lt d.offset be t, rw same at x)
        | inr y ↦ inr (any_executed→SomeExecuted ds (suc d.offset) (omega arith) short w y)
      ]

  SomeExecuted→any_executed :
      (ds : List DecodedInstr) (lo : ℕ)
      → length bc ≤ 2 ^ 32
      → InOrder bc meta lo ds
      → SomeExecuted ds ex bs be
      → any_executed ex be ds ≡ true
  unfolding any_executed
  SomeExecuted→any_executed [] lo short w k = absurd k
  SomeExecuted→any_executed (d ∷ ds) lo short (a, b, c, w) (inl (p, q, r)) =
      let same : d.offset % 2 ^ 32 ≡ d.offset = omega arith in
      rw (lt→ltb d.offset be q) (rw same (rw r))
  SomeExecuted→any_executed (d ∷ ds) lo short (a, b, c, w) (inr k) =
      elim (Bool-cases (ltb d.offset be)) [
        | inl t ↦ rw t (or_right _ _ (SomeExecuted→any_executed ds (suc d.offset) short w k))
        | inr t ↦ absurd (none_behind ds (suc d.offset) (omega (tests, t)) w k)
      ]

  -- What `partition_point` skips lies before the block.
  from_offset-InOrder :
      (ds : List DecodedInstr) (lo : ℕ)
      → InOrder bc meta lo ds
      → (k : ℕ) × (bs ≤ k)
        × InOrder bc meta k (from_offset bs ds)
        × (SomeExecuted ds ex bs be ↔ SomeExecuted (from_offset bs ds) ex bs be)
  unfolding from_offset
  from_offset-InOrder [] lo w = (bs, omega arith, tt, ((λ k. k), (λ k. k)))
  from_offset-InOrder (d ∷ ds) lo (a, b, c, w) = elim (Bool-cases (ltb d.offset bs)) [
    | inl t ↦
        let (k, h, v, f) = from_offset-InOrder ds (suc d.offset) w in
        (
          k,
          h,
          (rw t v),
          (rw t (
            (elim [ inl (p, q, r) ↦ absurd (omega (tests, t)) | inr s ↦ f.0 s ]),
            (λ s. inr (f.1 s)),
          )),
        )
    | inr t ↦
        (max bs d.offset, omega arith, rw t (omega (tests, t), b, c, w), rw t ((λ k. k), (λ k. k)))
  ]

  -- A block [bs, be) of a bytecode of at most 4 GiB is hit exactly if some instruction of the walk
  -- that stands in it was executed; with a table of positive sizes.
  pub is_hit_iff :
      (ds : List DecodedInstr)
      → All IsSized meta
      → decode_func bc meta ≡ done (some ds)
      → length bc ≤ 2 ^ 32
      → (is_hit ds (some ex) bs be ≡ true) ↔ SomeExecuted ds ex bs be
  unfolding is_hit
  is_hit_iff ds sized walk short =
      let (k, h, w, f) = from_offset-InOrder ds 0 (decode_func-InOrder bc meta ds sized walk) in
      (
        (λ e. f.1 (any_executed→SomeExecuted (from_offset bs ds) k h short w e)),
        (λ s. SomeExecuted→any_executed (from_offset bs ds) k short w (f.0 s)),
      )
