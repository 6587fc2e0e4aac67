-- ===== src/Bctrace/Walk.antt =====
-- The static walk of a function's bytecode in src/bctrace.rs: `decode_func`, `block_starts_of`,
-- and the live and dead blocks that `run` counts.
pub mod Boundaries
pub mod Live
pub mod Hits
use afeye.Prelude.{
  ℕ, zero, suc, ◌+◌, ◌-◌, ◌^◌, ◌%◌, Bool, true, false, not, ◌&&◌, ◌||◌, Option, some, none, List,
  [], ◌∷◌, ◌++◌, Bytes, length, Outcome, done, stuck, ◌>>=◌, byte_at, leb, ltb, ◌==◌, one_of,
  if◌then◌else◌, bit_and,
}
use afeye.Bctrace.Meta.{OpScaleMeta, OpMeta, ◌>>?◌}

pub record DecodedInstr : Type 0 where
  pub offset : ℕ
  pub opcode : ℕ

-- `rm.scales[scale_i]`
abbrev pub scale : OpMeta → ℕ → OpScaleMeta
scale m zero = m.scale_0
scale m (suc zero) = m.scale_1
scale m (suc (suc i)) = m.scale_2

-- The prefix that an opcode is: the operand scale that it sets, if it is one.
abbrev pub prefix_scale : OpMeta → Option ℕ
prefix_scale m =
    if one_of m.name ("Wide" ∷ "DebugBreakWide" ∷ [])
    then some 1
    else if one_of m.name ("ExtraWide" ∷ "DebugBreakExtraWide" ∷ [])
    then some 2
    else none

-- The opcode behind a prefix, if there is one, with its scale and where it stands.
unfoldable pub behind_prefix : Bytes → OpMeta → ℕ → ℕ → Outcome (Option (ℕ × ℕ × ℕ))
behind_prefix bc m op off = elim (prefix_scale m) [
  | none ↦ done (some (op, 0, off))
  | some s ↦
      if leb (length bc) (off + 1)
      then done none
      else (do rop ← byte_at bc (off + 1); done (some (rop, s, off + 1)))
]

-- The instruction of opcode `rop` at `base`, and the bytes from `off` that it takes.
unfoldable pub sized : List OpMeta → ℕ → ℕ × ℕ × ℕ → Outcome (Option (DecodedInstr × ℕ))
sized meta off (rop, scale_i, base) = if leb (length meta) rop then done none else (do
  rm ← byte_at meta rop
  done (some (record { offset = base; opcode = rop }, (scale rm scale_i).size + (base - off))))

-- One round of the loop at `off`; `none` is `return None`.
unfoldable pub decode_at : Bytes → List OpMeta → ℕ → Outcome (Option (DecodedInstr × ℕ))
unfolding behind_prefix sized
decode_at bc meta off = do
  op ← byte_at bc off
  if leb (length meta) op
      then done none
      else (do m ← byte_at meta op; behind_prefix bc m op off >>? sized meta off)

-- `stuck` is the loop that has not ended after `fuel` rounds.
unfoldable pub decode_loop :
    ℕ → Bytes → List OpMeta → ℕ → List DecodedInstr → Outcome (Option (List DecodedInstr))
decode_loop zero bc meta off out = stuck
decode_loop (suc fuel) bc meta off out =
    let round : Outcome (Option (List DecodedInstr)) = do
      r ← decode_at bc meta off
      elim r [
        | none ↦ done none
        | some (d, total) ↦ decode_loop fuel bc meta (off + total) (out ++ (d ∷ []))
      ]
    in if ltb off (length bc) then round else done (some out)

unfoldable pub decode_func : Bytes → List OpMeta → Outcome (Option (List DecodedInstr))
unfolding decode_loop
decode_func bc meta = decode_loop (suc (length bc)) bc meta 0 []

-- A `HashSet` that is only read sorted is the sorted list of its elements.
unfoldable pub insert_start : ℕ → List ℕ → List ℕ
insert_start x [] = x ∷ []
insert_start x (y ∷ ys) =
    if ltb x y then x ∷ y ∷ ys else if x == y then y ∷ ys else y ∷ insert_start x ys

abbrev pub first_offset : List DecodedInstr → ℕ
first_offset [] = 0
first_offset (d ∷ ds) = d.offset

-- `if let Some(nx) = instrs.get(i + 1)`
abbrev pub insert_next : List DecodedInstr → List ℕ → List ℕ
insert_next [] starts = starts
insert_next (d ∷ ds) starts = insert_start d.offset starts

-- The loop of `block_starts_of`: a jump or a return ends its block.
unfoldable pub jump_starts : List OpMeta → List DecodedInstr → List ℕ → Outcome (List ℕ)
jump_starts meta [] starts = done starts
jump_starts meta (d ∷ ds) starts = do
  m ← byte_at meta d.opcode
  jump_starts meta ds (if bit_and m.flags 3 == 0 then starts else insert_next ds starts)

unfoldable pub block_starts_of : List DecodedInstr → List OpMeta → Outcome (List ℕ)
unfolding jump_starts
block_starts_of instrs meta = jump_starts meta instrs (first_offset instrs ∷ [])

-- `executed[func_id]`: (offset, opcode), sorted by offset. The binary search for a key in it.
unfoldable pub is_executed : List (ℕ × ℕ) → ℕ → Bool
is_executed [] off = false
is_executed ((o, op) ∷ ex) off = o == off || is_executed ex off

-- `instrs[partition_point(|d| d.offset < bs)..]`, on instructions sorted by their offset
unfoldable pub from_offset : ℕ → List DecodedInstr → List DecodedInstr
from_offset bs [] = []
from_offset bs (d ∷ ds) = if ltb d.offset bs then from_offset bs ds else d ∷ ds

-- `.take_while(|d| d.offset < be).any(|d| ex.binary_search_by_key(..).is_ok())`
unfoldable pub any_executed : List (ℕ × ℕ) → ℕ → List DecodedInstr → Bool
any_executed ex be [] = false
any_executed ex be (d ∷ ds) =
    if ltb d.offset be then is_executed ex (d.offset % 2 ^ 32) || any_executed ex be ds else false

unfoldable pub is_hit : List DecodedInstr → Option (List (ℕ × ℕ)) → ℕ → ℕ → Bool
unfolding from_offset any_executed
is_hit instrs none bs be = false
is_hit instrs (some ex) bs be = any_executed ex be (from_offset bs instrs)

pub record Coverage : Type 0 where
  pub live_blocks : ℕ
  pub dead_blocks : ℕ
  pub live_bytes : ℕ
  pub dead_bytes : ℕ
  pub dead_ranges : List (ℕ × ℕ)

abbrev pub no_coverage : Coverage
no_coverage = record {
  live_blocks = 0;
  dead_blocks = 0;
  live_bytes = 0;
  dead_bytes = 0;
  dead_ranges = [];
}

abbrev pub tally : Bool → ℕ → ℕ → Coverage → Coverage
tally true bs be c = record c {
  live_blocks = c.live_blocks + 1;
  live_bytes = c.live_bytes + (be - bs);
}
tally false bs be c = record c {
  dead_blocks = c.dead_blocks + 1;
  dead_bytes = c.dead_bytes + (be - bs);
  dead_ranges = c.dead_ranges ++ ((bs, be) ∷ []);
}

abbrev pub block_end : ℕ → List ℕ → ℕ
block_end bc_len [] = bc_len
block_end bc_len (b ∷ bs) = b

-- `for (bi, &bs) in block_starts.iter().enumerate()`
unfoldable pub cover_blocks :
    List DecodedInstr → Option (List (ℕ × ℕ)) → ℕ → List ℕ → Coverage → Coverage
cover_blocks instrs ex bc_len [] c = c
cover_blocks instrs ex bc_len (bs ∷ rest) c =
    let be = block_end bc_len rest in
    cover_blocks instrs ex bc_len rest (tally (is_hit instrs ex bs be) bs be c)
