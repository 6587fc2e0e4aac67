-- ===== src/Bctrace/Walk/Live.antt =====
-- The blocks of a walk: their starts are sorted, they cover the code, and a block is live exactly
-- if one of its instructions was executed.
use afeye.Prelude.{
  ℕ, suc, ◌+◌, ◌-◌, ◌≤◌, ◌<◌, ◌≡◌, refl, Bool, true, false, Option, some, inl, inr, List, [], ◌∷◌,
  Bytes, length, All, done, Returns, Returns-step, Returns→done, byte_at, byte_at-done, ◌==◌,
  Bool-cases, if◌then◌else◌, arith, bit_and,
}
use afeye.Bctrace.Meta.{OpMeta}
use afeye.Bctrace.Walk.{
  DecodedInstr, decode_func, insert_start, first_offset, insert_next, jump_starts, block_starts_of,
  is_hit, Coverage, no_coverage, tally, cover_blocks,
}
use afeye.Bctrace.Walk.Boundaries.{InOrder, IsSized, decode_func_total}

-- Strictly increasing, from `lo` on and below `hi`.
abbrev pub Ascends : ℕ → ℕ → List ℕ → Type 0
Ascends lo hi [] = Unit
Ascends lo hi (x ∷ xs) = (lo ≤ x) × (x < hi) × Ascends (suc x) hi xs

insert_start-Ascends :
    (lo hi x : ℕ) (ys : List ℕ)
    → lo ≤ x
    → x < hi
    → Ascends lo hi ys
    → Ascends lo hi (insert_start x ys)
unfolding insert_start
insert_start-Ascends lo hi x [] h k w = (h, k, tt)
insert_start-Ascends lo hi x (y ∷ ys) h k (a, b, w) =
    ground (arith, insert_start-Ascends (suc y) hi x ys)

abbrev HeadIs : ℕ → List ℕ → Type 0
HeadIs x [] = ⊥
HeadIs x (y ∷ ys) = y ≡ x

insert_start-HeadIs : (x y : ℕ) (ys : List ℕ) → y < x → HeadIs y ys → HeadIs y (insert_start x ys)
unfolding insert_start
insert_start-HeadIs x y [] h k = absurd k
insert_start-HeadIs x y (z ∷ ys) h k = ground arith

module _ (bc : Bytes) (meta : List OpMeta) where
  abbrev IsStarts : ℕ → List ℕ → Type 0
  IsStarts first starts = Ascends first (length bc) starts × HeadIs first starts

  jump_starts-IsStarts :
      (ds : List DecodedInstr) (lo first : ℕ) (starts : List ℕ)
      → first ≤ lo
      → InOrder bc meta lo ds
      → IsStarts first starts
      → Returns (IsStarts first) (jump_starts meta ds starts)
  unfolding jump_starts
  jump_starts-IsStarts [] lo first starts h w s = s
  jump_starts-IsStarts (d ∷ ds) lo first starts h (a, b, c, w) s =
      Returns-step _ (byte_at meta d.opcode) _ (byte_at-done meta d.opcode c)
        (λ m. jump_starts-IsStarts ds (suc d.offset) first _ (omega arith) w (grown m ds w))
    where
      grown :
          (m : OpMeta) (es : List DecodedInstr)
          → InOrder bc meta (suc d.offset) es
          → IsStarts first (if bit_and m.flags 3 == 0 then starts else insert_next es starts)
      grown m [] v = ground (arith)
      grown m (e ∷ es) v = elim (Bool-cases (bit_and m.flags 3 == 0)) [
        | inl q ↦ rw q s
        | inr q ↦ rw q (
          insert_start-Ascends first (length bc) e.offset starts (omega arith) v.1 s.0,
          insert_start-HeadIs e.offset first starts (omega arith) s.1,
        )
      ]

  block_starts_of-IsStarts :
      (ds : List DecodedInstr)
      → InOrder bc meta 0 ds
      → first_offset ds < length bc
      → Returns (IsStarts (first_offset ds)) (block_starts_of ds meta)
  unfolding block_starts_of
  block_starts_of-IsStarts [] w h = (omega arith, refl)
  block_starts_of-IsStarts (d ∷ ds) (a, b, c, w) h =
      jump_starts-IsStarts (d ∷ ds) d.offset d.offset (d.offset ∷ []) (omega arith)
        (omega arith, b, c, w) (omega arith, refl)

tally-sum :
    (b : Bool) (bs be : ℕ) (c : Coverage)
    → (tally b bs be c).live_bytes + (tally b bs be c).dead_bytes
      ≡ c.live_bytes + c.dead_bytes + (be - bs)
tally-sum true bs be c = omega arith
tally-sum false bs be c = omega arith

tally-count :
    (b : Bool) (bs be : ℕ) (c : Coverage)
    → (tally b bs be c).live_blocks + (tally b bs be c).dead_blocks
      ≡ c.live_blocks + c.dead_blocks + 1
tally-count true bs be c = omega arith
tally-count false bs be c = omega arith

module _ (instrs : List DecodedInstr) (ex : Option (List (ℕ × ℕ))) (n : ℕ) where
  abbrev Sums : Coverage → ℕ → ℕ → Type 0
  Sums c bytes blocks =
      (c.live_bytes + c.dead_bytes ≡ bytes) × (c.live_blocks + c.dead_blocks ≡ blocks)

  -- The blocks between ascending starts cover the code from the first start to its end.
  cover_blocks-Sums :
      (rest : List ℕ) (bs : ℕ) (c : Coverage)
      → Ascends bs n (bs ∷ rest)
      → Sums
          (cover_blocks instrs ex n (bs ∷ rest) c)
          (c.live_bytes + c.dead_bytes + (n - bs))
          (c.live_blocks + c.dead_blocks + suc (length rest))
  unfolding cover_blocks
  cover_blocks-Sums [] bs c (a, b, w) =
      omega (
        arith,
        tally-sum (is_hit instrs ex bs n) bs n c,
        tally-count (is_hit instrs ex bs n) bs n c,
      )
  cover_blocks-Sums (b ∷ rest) bs c (a, k, (a', k', w)) =
      let hit : Bool = is_hit instrs ex bs b in
      let ih = cover_blocks-Sums rest b (tally hit bs b c) (omega arith, k', w) in
      omega (arith, ih.0, ih.1, tally-sum hit bs b c, tally-count hit bs b c)

module _ (bc : Bytes) (meta : List OpMeta) (ds : List DecodedInstr) (sized : All IsSized meta)
    (walk : decode_func bc meta ≡ done (some ds)) where
  pub decode_func-InOrder : InOrder bc meta 0 ds
  decode_func-InOrder = rw walk at (decode_func_total bc meta sized)

  first_offset-lt :
      (es : List DecodedInstr) → 0 < length bc → InOrder bc meta 0 es → first_offset es < length bc
  first_offset-lt [] h w = h
  first_offset-lt (d ∷ es) h w = w.1

  -- On the walk of a bytecode that is not empty, with a table of positive sizes, `block_starts_of`
  -- returns, and the loop over its blocks counts each block once as live or dead and each byte once
  -- as live or dead, from the first instruction (behind its prefix) to the end of the bytecode.
  pub blocks_cover :
      (ex : Option (List (ℕ × ℕ)))
      → 0 < length bc
      → (starts : List ℕ) × (block_starts_of ds meta ≡ done starts)
        × ((cover_blocks ds ex (length bc) starts no_coverage).live_bytes
              + (cover_blocks ds ex (length bc) starts no_coverage).dead_bytes
              + first_offset ds
            ≡ length bc)
        × ((cover_blocks ds ex (length bc) starts no_coverage).live_blocks
              + (cover_blocks ds ex (length bc) starts no_coverage).dead_blocks
            ≡ length starts)
  blocks_cover ex some_code =
      let first : first_offset ds < length bc = first_offset-lt ds some_code decode_func-InOrder in
      let (starts, e, w) =
        Returns→done _ (block_starts_of ds meta)
          (block_starts_of-IsStarts bc meta ds decode_func-InOrder first) in
      let (bytes, blocks) = covers starts w in (starts, e, bytes, blocks)
    where
      covers :
          (starts : List ℕ)
          → IsStarts bc meta (first_offset ds) starts
          → ((cover_blocks ds ex (length bc) starts no_coverage).live_bytes
                + (cover_blocks ds ex (length bc) starts no_coverage).dead_bytes
                + first_offset ds
              ≡ length bc)
            × ((cover_blocks ds ex (length bc) starts no_coverage).live_blocks
                  + (cover_blocks ds ex (length bc) starts no_coverage).dead_blocks
                ≡ length starts)
      covers [] w = absurd w.1
      covers (b ∷ rest) ((p, q, r), e) =
          let sums = cover_blocks-Sums ds ex (length bc) rest b no_coverage (omega arith, q, r) in
          omega (arith, sums.0, sums.1)
