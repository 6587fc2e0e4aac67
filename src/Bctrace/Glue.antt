-- ===== src/Bctrace/Glue.antt =====
-- The assembly of split records in the first pass of `run` in src/bctrace.rs: `parts` keeps, for
-- each (opcode, func_id), the payloads of the parts in the order of their offsets.
pub mod Order
pub mod FuncDef
pub mod Instruction
use afeye.Prelude.{
  ℕ, zero, suc, ◌+◌, Bool, true, false, ◌&&◌, ◌||◌, not, Option, some, none, List, [], ◌∷◌, ◌++◌,
  Bytes, length, Outcome, done, ◌>>=◌, byte_at, slice, ltb, ◌==◌, if◌then◌else◌, bit_and,
}
use afeye.Bctrace.Read.{rd_u32}
use afeye.Bctrace.Blocks.{hdr_len}
use afeye.Bctrace.Meta.{op_meta, op_func_def}

abbrev pub flag_cont : ℕ
flag_cont = 2

abbrev pub Key : Type 0
Key = ℕ × ℕ

abbrev pub key_eq : Key → Key → Bool
key_eq (a, b) (c, d) = a == c && b == d

-- `BTreeMap<u32, Vec<u8>>`, sorted by its keys
abbrev pub Payloads : Type 0
Payloads = List (ℕ × Bytes)

abbrev pub Parts : Type 0
Parts = List (Key × Payloads)

-- `m.entry(pos).or_default()`, changed by `f`
unfoldable pub entry_update : ℕ → (Bytes → Bytes) → Payloads → Payloads
entry_update pos f [] = (pos, f []) ∷ []
entry_update pos f ((q, b) ∷ m) =
    if ltb pos q
    then (pos, f []) ∷ (q, b) ∷ m
    else if pos == q
    then (q, f b) ∷ m
    else (q, b) ∷ entry_update pos f m

-- `parts.entry(key).or_default()`, changed by `g`
unfoldable pub parts_update : Key → (Payloads → Payloads) → Parts → Parts
parts_update key g [] = (key, g []) ∷ []
parts_update key g ((k, m) ∷ parts) =
    if key_eq key k then (k, g m) ∷ parts else (k, m) ∷ parts_update key g parts

-- `parts.remove(&key)`: what it returns, and the map that it leaves
unfoldable pub parts_get : Key → Parts → Option Payloads
parts_get key [] = none
parts_get key ((k, m) ∷ parts) = if key_eq key k then some m else parts_get key parts

unfoldable pub parts_remove : Key → Parts → Parts
parts_remove key [] = []
parts_remove key ((k, m) ∷ parts) = if key_eq key k then parts else (k, m) ∷ parts_remove key parts

-- `for (_pos, b) in map { full.extend_from_slice(&b) }`
unfoldable pub joined : Payloads → Bytes
joined [] = []
joined ((pos, b) ∷ m) = b ++ joined m

-- What the pass has after a record: nothing yet, a whole blob, or an instruction record.
pub data Assembled : Type 0 where
  pending : Assembled
  meta_blob : Bytes → Assembled
  func_blob : ℕ → ℕ → Bytes → Assembled
  instruction : Bytes → Assembled

-- `if e.is_empty() { e.extend(header) }; e.extend(payload)`
abbrev pub glue_part : Bytes → Bytes → Bytes → Bytes
glue_part hdr payload [] = hdr ++ payload
glue_part hdr payload (x ∷ xs) = (x ∷ xs) ++ payload

-- a meta or func-def record, whose parts are `parts'` with this one
unfoldable pub assemble_blob : Bytes → ℕ → ℕ → ℕ → Parts → Outcome (Parts × Assembled)
assemble_blob rec opcode flags func_id parts' =
    let key : Key = (opcode, func_id) in
    let whole : Outcome (Parts × Assembled) = elim (parts_get key parts') [
      | none ↦ done (parts', pending)
      | some map ↦ (do
        hdr ← slice rec 0 hdr_len
        line ← rd_u32 rec 12
        done (
          parts_remove key parts',
          if opcode == op_meta
              then meta_blob (hdr ++ joined map)
              else func_blob func_id line (joined map),
        ))
    ] in
    if bit_and flags flag_cont == 0 then whole else done (parts', pending)

-- an instruction record
unfoldable pub assemble_instruction : Bytes → ℕ → ℕ → ℕ → Parts → Outcome (Parts × Assembled)
assemble_instruction rec opcode flags func_id parts =
    let key : Key = (opcode, func_id) in
    let part : Outcome (Parts × Assembled) = do
      pos ← rd_u32 rec 4
      hdr ← slice rec 0 hdr_len
      payload ← slice rec hdr_len (length rec)
      done (parts_update key (entry_update pos (glue_part hdr payload)) parts, pending)
    in let last : Outcome (Parts × Assembled) = elim (parts_get key parts) [
      | none ↦ done (parts, instruction rec)
      | some map ↦ done (parts_remove key parts, instruction (joined map))
    ] in
      if bit_and flags flag_cont == 0 then last else part

-- One record of the first pass.
unfoldable pub assemble : Bytes → Parts → Outcome (Parts × Assembled)
assemble rec parts =
    let record_of : Outcome (Parts × Assembled) = do
      opcode ← byte_at rec 0
      flags ← byte_at rec 3
      func_id ← rd_u32 rec 8
      let blob : Outcome (Parts × Assembled) = do
        payload ← slice rec hdr_len (length rec)
        pos ← rd_u32 rec 4
        assemble_blob rec opcode flags func_id
            (parts_update (opcode, func_id) (entry_update pos (λ e. e ++ payload)) parts)
      if opcode == op_meta || opcode == op_func_def
          then blob
          else assemble_instruction rec opcode flags func_id parts
    in if ltb (length rec) hdr_len then done (parts, pending) else record_of

unfoldable pub assemble_all : List Bytes → Parts → Outcome (Parts × List Assembled)
assemble_all [] parts = done (parts, [])
assemble_all (rec ∷ recs) parts = do
  r ← assemble rec parts
  rest ← assemble_all recs r.0
  done (rest.0, r.1 ∷ rest.1)
