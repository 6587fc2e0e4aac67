-- ===== src/Bctrace/Blocks.antt =====
-- The payload blocks of an instruction record, [u8 tag][u32 len][bytes], of src/bctrace.rs:
-- `parse_blocks`, `Pv::bytes` and `acc_of`.
pub mod Bounds
pub mod Layout
pub mod Decode
pub mod RoundTrip
use afeye.Prelude.{
  ℕ, zero, suc, ◌+◌, ◌-◌, ◌%◌, ◌^◌, Bool, ◌&&◌, Option, some, none, List, [], ◌∷◌, ◌++◌, Bytes,
  length, Outcome, done, stuck, ◌>>=◌, byte_at, slice, leb, ltb, ◌==◌, if◌then◌else◌, bit_and,
}
use afeye.Bctrace.Read.{rd_u16, rd_u32, rd_i32, rd_u64}

abbrev pub hdr_len : ℕ
hdr_len = 72

abbrev pub flag_acc_payload : ℕ
flag_acc_payload = 4

abbrev pub tag_acc_str : ℕ
tag_acc_str = 0

abbrev pub tag_acc_f64 : ℕ
tag_acc_f64 = 1

abbrev pub tag_acc_smi : ℕ
tag_acc_smi = 2

abbrev pub tag_reg : ℕ
tag_reg = 3

abbrev pub tag_reg_str : ℕ
tag_reg_str = 4

abbrev pub tag_reg_f64 : ℕ
tag_reg_f64 = 5

abbrev pub tag_reg_smi : ℕ
tag_reg_smi = 6

abbrev pub tag_operand : ℕ
tag_operand = 7

abbrev pub tag_acc_str16 : ℕ
tag_acc_str16 = 11

abbrev pub tag_reg_str16 : ℕ
tag_reg_str16 = 12

abbrev pub tag_vclock : ℕ
tag_vclock = 14

-- A string is (offset, length) into the record. An `f64`, `i32` or `i64` is its bit pattern.
pub data Pv : Type 0 where
  str str16 : ℕ → ℕ → Pv
  f64 smi : ℕ → Pv
  reg_word : ℕ → ℕ → Pv
  reg_str reg_str16 : ℕ → ℕ → ℕ → Pv
  reg_f64 reg_smi : ℕ → ℕ → Pv
  operand : ℕ → ℕ → Pv
  vclock : ℕ → Pv

-- `i as u32`, and the additions of `u32`
abbrev pub as_u32 : ℕ → ℕ
as_u32 n = n % 2 ^ 32

-- `Pv::bytes`
unfoldable pub bytes : Pv → Bytes → Outcome Bytes
bytes (str s l) rec = slice rec s (as_u32 (s + l))
bytes (str16 s l) rec = slice rec s (as_u32 (s + l))
bytes (reg_str r s l) rec = slice rec s (as_u32 (s + l))
bytes (reg_str16 r s l) rec = slice rec s (as_u32 (s + l))
bytes _ rec = done []

-- The match on the tag. `i` is the index behind the block, so the block starts at `i - len`;
-- `none` is `continue`.
unfoldable pub block_value : Bytes → ℕ → ℕ → ℕ → Outcome (Option Pv)
block_value rec tag len i =
    let s = as_u32 (i - len) in
    let l = as_u32 len in
    if tag == tag_acc_str
    then done (some (str s l))
    else if tag == tag_acc_str16
    then done (some (str16 s l))
    else if tag == tag_acc_f64 && len == 8
    then (do w ← rd_u64 rec (i - len); done (some (f64 w)))
    else if tag == tag_acc_smi && len == 4
    then (do w ← rd_i32 rec (i - len); done (some (smi w)))
    else if tag == tag_reg && len == 10
    then (do r ← rd_u16 rec (i - len); w ← rd_u64 rec (i - len + 2); done (some (reg_word r w)))
    else if tag == tag_reg_str && leb 2 len
    then (do r ← rd_u16 rec (i - len); done (some (reg_str r (as_u32 (s + 2)) (l - 2))))
    else if tag == tag_reg_str16 && leb 2 len
    then (do r ← rd_u16 rec (i - len); done (some (reg_str16 r (as_u32 (s + 2)) (l - 2))))
    else if tag == tag_reg_f64 && len == 10
    then (do r ← rd_u16 rec (i - len); w ← rd_u64 rec (i - len + 2); done (some (reg_f64 r w)))
    else if tag == tag_reg_smi && len == 6
    then (do r ← rd_u16 rec (i - len); w ← rd_i32 rec (i - len + 2); done (some (reg_smi r w)))
    else if tag == tag_operand && len == 9
    then (do k ← byte_at rec (i - len); w ← rd_u64 rec (i - len + 1); done (some (operand k w)))
    else if tag == tag_vclock && len == 8
    then (do w ← rd_u64 rec (i - len); done (some (vclock w)))
    else done none

abbrev push : List Pv → Option Pv → List Pv
push out none = out
push out (some pv) = out ++ (pv ∷ [])

-- Each round takes five bytes at least, so one round more than the bytes is enough.
unfoldable pub blocks_loop : ℕ → Bytes → ℕ → List Pv → Outcome (List Pv)
blocks_loop zero rec i out = stuck
blocks_loop (suc fuel) rec i out =
    let round : Outcome (List Pv) = do
      tag ← byte_at rec i
      len ← rd_u32 rec (i + 1)
      let next : Outcome (List Pv) = do
        pv ← block_value rec tag len (i + 5 + len)
        blocks_loop fuel rec (i + 5 + len) (push out pv)
      if ltb (length rec) (i + 5 + len) then done out else next
    in if leb (i + 5) (length rec) then round else done out

unfoldable pub parse_blocks : Bytes → Outcome (List Pv)
unfolding blocks_loop
parse_blocks rec = blocks_loop (suc (length rec)) rec hdr_len []

-- the first accumulator value
unfoldable pub first_acc : List Pv → Option Pv
first_acc [] = none
first_acc (str s l ∷ pvs) = some (str s l)
first_acc (str16 s l ∷ pvs) = some (str16 s l)
first_acc (f64 w ∷ pvs) = some (f64 w)
first_acc (smi w ∷ pvs) = some (smi w)
first_acc (_ ∷ pvs) = first_acc pvs

-- `AccRef` has the constructors of `Pv` that `first_acc` returns.
unfoldable pub acc_of : List Pv → ℕ → Option Pv
unfolding first_acc
acc_of pvs flags = if bit_and flags flag_acc_payload == 0 then none else first_acc pvs
