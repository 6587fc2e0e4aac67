-- ===== src/Bctrace/Tests.antt =====
-- Concrete runs of the decoder of src/bctrace.rs, and its theorems at concrete inputs.
use afeye.Prelude.{
  ℕ, zero, suc, ◌+◌, ◌≡◌, ◌↔◌, refl, true, Option, some, none, List, [], ◌∷◌, ◌++◌, Bytes, length,
  All, codes, done, panic, stuck, Returns, byte_at, arith,
}
use afeye.Bctrace.Read.{rd_u32, rd_i32, from_le, to_le}
use afeye.Bctrace.Blocks.{Pv, smi, parse_blocks, block_value}
use afeye.Bctrace.Blocks.Bounds.{IsReadable, parse_blocks_total}
use afeye.Bctrace.Blocks.Layout.{Value, acc_text, reg_int, argument, encode_blocks, CarriesAll}
use afeye.Bctrace.Blocks.RoundTrip.{parse_blocks-encode_blocks}
use afeye.Bctrace.Meta.{OpScaleMeta, OpMeta, parse_meta}
use afeye.Bctrace.Meta.RoundTrip.{IsOp, put_meta, parse_meta-put_meta, parse_meta_panics}
use afeye.Bctrace.FuncDef
use afeye.Bctrace.FuncDef.{FuncDef, parse_func_def_blob}
use afeye.Bctrace.FuncDef.Bounds.{parse_func_def_blob_total}
use afeye.Bctrace.FuncDef.RoundTrip.{put_func_def, IsFuncDef, parse_func_def_blob-put_func_def}
use afeye.Bctrace.Walk.{
  DecodedInstr, decode_func, decode_loop, decode_at, block_starts_of, insert_start, cover_blocks,
  is_hit, no_coverage,
}
use afeye.Bctrace.Walk.Boundaries.{IsSized, IsWalk, decode_func_total, decode_loop_diverges}
use afeye.Bctrace.Walk.Live.{blocks_cover}
use afeye.Bctrace.Walk.Hits.{SomeExecuted, is_hit_iff}
use afeye.Bctrace.Glue.{parts_get, pending, func_blob, instruction, assemble_all}
use afeye.Bctrace.Glue.FuncDef.{split_blob, assemble-split_blob}
use afeye.Bctrace.Glue.Instruction.{split_instruction, assemble-split_instruction}
use afeye.Bctrace.Glue.Order.{header}

abbrev zeros : ℕ → Bytes
zeros zero = []
zeros (suc n) = 0 ∷ zeros n

abbrev same : Bytes → Bytes
same b = b

abbrev sent : List Value
sent = acc_text (codes "token") ∷ reg_int 3 7 ∷ argument 0 9 ∷ []

abbrev instruction_record : Bytes
instruction_record = zeros 72 ++ encode_blocks sent

-- A block whose length runs behind the record ends the list.
parse_blocks_cut : parse_blocks (zeros 72 ++ (2 ∷ 4 ∷ 0 ∷ 0 ∷ 0 ∷ 1 ∷ [])) ≡ done []
unfolding parse_blocks byte_at rd_u32 from_le
parse_blocks_cut = refl

parse_blocks_smi :
    parse_blocks (zeros 72 ++ (2 ∷ 4 ∷ 0 ∷ 0 ∷ 0 ∷ 7 ∷ 1 ∷ 0 ∷ 0 ∷ 9 ∷ [])) ≡ done (smi 263 ∷ [])
unfolding parse_blocks byte_at rd_u32 rd_i32 from_le block_value
parse_blocks_smi = refl

parse_blocks_total_example :
    Returns (All (IsReadable instruction_record)) (parse_blocks instruction_record)
unfolding to_le
parse_blocks_total_example = parse_blocks_total instruction_record (omega arith)

parse_blocks-encode_blocks_example :
    (pvs : List Pv) × (parse_blocks instruction_record ≡ done pvs)
    × CarriesAll instruction_record pvs sent
unfolding to_le
parse_blocks-encode_blocks_example =
    parse_blocks-encode_blocks (zeros 72) sent refl (omega arith) (omega arith)

abbrev scale_of : ℕ → ℕ → OpScaleMeta
scale_of size ty = record { size = size; ops = (ty, 1) ∷ [] }

-- An opcode with one operand.
abbrev op_of : ℕ → OpMeta
op_of flags = record {
  name = codes "Jump";
  n_ops = 1;
  flags = flags;
  acc_use = 0;
  scale_0 = scale_of 2 5;
  scale_1 = scale_of 3 5;
  scale_2 = scale_of 5 5;
}

op_of-IsOp : (flags : ℕ) → IsOp (op_of flags)
op_of-IsOp flags = record { no_nul = refl; ops_0 = refl; ops_1 = refl; ops_2 = refl }

abbrev table : List OpMeta
table = op_of 0 ∷ op_of 1 ∷ []

abbrev two_names : Bytes
two_names = codes "Abort" ++ (0 ∷ codes "Throw")

parse_meta-put_meta_example :
    parse_meta same (put_meta (zeros 71) table 4 2 two_names)
    ≡ done (
        some (record { ops = table; rt_names = codes "Abort" ∷ codes "Throw" ∷ []; reg_start = 4 }))
parse_meta-put_meta_example =
    parse_meta-put_meta same (zeros 71) table 4 2 two_names refl (op_of-IsOp 0, (op_of-IsOp 1, tt))
      (omega arith) (omega arith) (omega arith) (omega arith)

parse_meta_panics_example : parse_meta same (put_meta (zeros 71) table 4 3 two_names) ≡ panic
parse_meta_panics_example =
    parse_meta_panics same (zeros 71) table 4 3 two_names refl (op_of-IsOp 0, (op_of-IsOp 1, tt))
      (omega arith) (omega arith) (omega arith) (omega arith)

abbrev function : FuncDef
function = record {
  func_id = 7;
  line = 12;
  frame_size = 3;
  param_count = 1;
  script_id = 40;
  script_name = codes "a.js";
  fn_name = codes "f";
  bytecode = 0 ∷ 9 ∷ 1 ∷ 2 ∷ 0 ∷ 4 ∷ [];
  cp = FuncDef.str (codes "key") ∷ FuncDef.raw 5 ∷ [];
}

function-IsFuncDef : IsFuncDef function
unfolding to_le
function-IsFuncDef = record {
  bytecode_short = omega arith;
  script_name_short = omega arith;
  fn_name_short = omega arith;
  cp_short = omega arith;
  frame_size_fits = omega arith;
  param_count_fits = omega arith;
  script_id_fits = omega arith;
  cp_fits = omega arith;
}

parse_func_def_blob_total_example :
    (d : Option FuncDef) × (parse_func_def_blob same 7 12 (zeros 40) ≡ done d)
parse_func_def_blob_total_example = parse_func_def_blob_total same 7 12 (zeros 40)

parse_func_def_blob-put_func_def_example :
    parse_func_def_blob same 7 12 (put_func_def function 0) ≡ done (some function)
parse_func_def_blob-put_func_def_example =
    parse_func_def_blob-put_func_def same function 0 function-IsFuncDef

abbrev code_bytes : Bytes
code_bytes = 0 ∷ 9 ∷ 1 ∷ 2 ∷ 0 ∷ 4 ∷ []

abbrev walked : List DecodedInstr
walked =
    record { offset = 0; opcode = 0 }
    ∷ record { offset = 2; opcode = 1 }
    ∷ record { offset = 4; opcode = 0 }
    ∷ []

decode_func-walked : decode_func code_bytes table ≡ done (some walked)
unfolding decode_func decode_at byte_at
decode_func-walked = refl

-- The jump at 2 starts a block at 4.
block_starts_of-walked : block_starts_of walked table ≡ done (0 ∷ 4 ∷ [])
unfolding block_starts_of insert_start byte_at
block_starts_of-walked = refl

table-IsSized : All IsSized table
table-IsSized = omega arith

decode_func_total_example : Returns (IsWalk code_bytes table) (decode_func code_bytes table)
decode_func_total_example = decode_func_total code_bytes table table-IsSized

abbrev sizeless : OpMeta
sizeless = record {
  name = codes "Nop";
  n_ops = 0;
  flags = 0;
  acc_use = 0;
  scale_0 = record { size = 0; ops = [] };
  scale_1 = record { size = 0; ops = [] };
  scale_2 = record { size = 0; ops = [] };
}

decode_loop_diverges_example : decode_loop 1000 (0 ∷ []) (sizeless ∷ []) 0 [] ≡ stuck
unfolding byte_at
decode_loop_diverges_example =
    decode_loop_diverges (0 ∷ []) (sizeless ∷ []) 1000 0 0 sizeless [] (omega arith) (omega arith)
      refl refl refl refl

blocks_cover_example :
    (starts : List ℕ) × (block_starts_of walked table ≡ done starts)
    × ((cover_blocks walked none 6 starts no_coverage).live_bytes
          + (cover_blocks walked none 6 starts no_coverage).dead_bytes
          + 0
        ≡ 6)
    × ((cover_blocks walked none 6 starts no_coverage).live_blocks
          + (cover_blocks walked none 6 starts no_coverage).dead_blocks
        ≡ length starts)
blocks_cover_example =
    blocks_cover code_bytes table walked table-IsSized decode_func-walked none (omega arith)

is_hit_iff_example :
    (is_hit walked (some ((4, 0) ∷ [])) 4 6 ≡ true) ↔ SomeExecuted walked ((4, 0) ∷ []) 4 6
is_hit_iff_example =
    is_hit_iff code_bytes table ((4, 0) ∷ []) 4 6 walked table-IsSized decode_func-walked
      (omega arith)

assemble-split_blob_example :
    assemble_all
      (split_blob 0 0 7 12 (zeros 56) 2 0 (codes "ab" ∷ codes "cd" ∷ []) (codes "e") 0)
      []
    ≡ done ([], pending ∷ pending ∷ func_blob 7 12 (codes "abcde") ∷ [])
unfolding parts_get
assemble-split_blob_example =
    assemble-split_blob 0 0 7 12 (zeros 56) 2 0 refl (omega arith) (omega arith) refl refl [] refl
      (codes "ab" ∷ codes "cd" ∷ []) (codes "e") (omega arith) (omega arith)

-- The text `e` of the last part is not in the assembled record.
assemble-split_instruction_example :
    assemble_all
      (split_instruction 19 0 0 7 12 (zeros 56) 2 0 30 (codes "ab" ∷ codes "cd" ∷ []) (codes "e"))
      []
    ≡ done (
      [],
      pending ∷ pending ∷ instruction (header 19 0 0 7 12 (zeros 56) 2 30 ++ codes "abcd") ∷ [],
    )
unfolding parts_get
assemble-split_instruction_example =
    assemble-split_instruction 19 0 0 7 12 (zeros 56) 2 0 30 refl (omega arith) (omega arith) refl
      refl refl [] refl (codes "ab") (codes "cd" ∷ []) (codes "e")
