-- ===== src/Bctrace/FuncDef.antt =====
-- `parse_func_def_blob` of src/bctrace.rs: a function's bytecode, names and constant pool.
-- A `String` is its bytes; `lossy` is `String::from_utf8_lossy(..).into_owned()`.
pub mod Bounds
pub mod RoundTrip
use afeye.Prelude.{
  ℕ, zero, suc, ◌+◌, Bool, ◌&&◌, Option, some, none, List, [], ◌∷◌, ◌++◌, Bytes, length, Outcome,
  done, stuck, ◌>>=◌, byte_at, slice, leb, ltb, ◌==◌, if◌then◌else◌,
}
use afeye.Bctrace.Read.{rd_u32, rd_i32, rd_u64}

-- An `f64` is its bit pattern.
pub data CpEntry : Type 0 where
  raw : ℕ → CpEntry
  str str16 : Bytes → CpEntry
  f64 : ℕ → CpEntry

pub record FuncDef : Type 0 where
  pub func_id : ℕ
  pub line : ℕ
  pub frame_size : ℕ
  pub param_count : ℕ
  pub script_id : ℕ
  pub script_name : Bytes
  pub fn_name : Bytes
  pub bytecode : Bytes
  pub cp : List CpEntry

-- the match on a constant's tag, on its bytes
unfoldable pub cp_entry : ℕ → Bytes → Outcome CpEntry
cp_entry tag b =
    if tag == 8
    then done (str b)
    else if tag == 13
    then done (str16 b)
    else if tag == 9 && length b == 8
    then (do w ← rd_u64 b 0; done (f64 w))
    else if length b == 8
    then (do w ← rd_u64 b 0; done (raw w))
    else done (raw 0)

-- Each round takes five bytes at least.
unfoldable pub cp_loop : ℕ → Bytes → ℕ → ℕ → List CpEntry → Outcome (List CpEntry)
cp_loop zero blob cp_end i cp = stuck
cp_loop (suc fuel) blob cp_end i cp =
    let round : Outcome (List CpEntry) = do
      tag ← byte_at blob i
      len ← rd_u32 blob (i + 1)
      let next : Outcome (List CpEntry) = do
        b ← slice blob (i + 5) (i + 5 + len)
        e ← cp_entry tag b
        cp_loop fuel blob cp_end (i + 5 + len) (cp ++ (e ∷ []))
      if ltb cp_end (i + 5 + len) then done cp else next
    in if leb (i + 5) cp_end then round else done cp

unfoldable pub parse_func_def_blob : (Bytes → Bytes) → ℕ → ℕ → Bytes → Outcome (Option FuncDef)
unfolding cp_loop
parse_func_def_blob lossy func_id line blob =
    let body : Outcome (Option FuncDef) = do
      bc_len ← rd_u32 blob 0
      script_name_len ← rd_u32 blob 4
      fn_name_len ← rd_u32 blob 8
      cp_bytes ← rd_u32 blob 12
      frame_size ← rd_i32 blob 16
      param_count ← rd_u32 blob 20
      script_id ← rd_i32 blob 24
      let i1 = 32 + bc_len
      let i2 = i1 + script_name_len
      let i3 = i2 + fn_name_len
      let parts : Outcome (Option FuncDef) = do
        bytecode ← slice blob 32 i1
        script_name ← slice blob i1 i2
        fn_name ← slice blob i2 i3
        cp ← cp_loop (suc (length blob)) blob (i3 + cp_bytes) i3 []
        done (
            some (record {
              func_id = func_id;
              line = line;
              frame_size = frame_size;
              param_count = param_count;
              script_id = script_id;
              script_name = lossy script_name;
              fn_name = lossy fn_name;
              bytecode = bytecode;
              cp = cp;
            }))
      if ltb (length blob) (i3 + cp_bytes) then done none else parts
    in if ltb (length blob) 32 then done none else body
