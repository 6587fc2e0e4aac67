-- ===== src/Valuebook.antt =====
-- The valuebook, which src/bctrace.rs writes (`ValueBook`) and src/sinkfilter.rs loads
-- (`load_valuebook`). Writes succeed, so the file holds what was written, and a flush makes it
-- readable; its hash table is a list, newest first. `blake3` is the first word of the hash.
pub mod Book
pub mod Load
mod Tests
use afeye.Prelude.{
  ℕ, zero, suc, ◌+◌, ◌-◌, ◌*◌, ◌%◌, ◌^◌, Bool, true, false, ◌&&◌, ◌||◌, not, Option, some, none,
  List, [], ◌∷◌, ◌++◌, Bytes, length, take, drop, set, min, bytes_eq, Outcome, done, stuck, ◌>>=◌,
  byte_at, leb, ltb, ◌==◌, if◌then◌else◌, bit_xor,
}
use afeye.Bctrace.Read.{from_le, to_le, rd_u16, rd_u32}
use afeye.Matcher.{AhoCorasick, new, insert, build}

abbrev pub min_value_len : ℕ
min_value_len = 4

abbrev pub valuebook_max_len : ℕ
valuebook_max_len = 1048576

-- An entry without its value.
pub record VOrigin : Type 0 where
  pub func_id : ℕ
  pub off : ℕ
  pub op_id : ℕ
  pub src : ℕ

abbrev pub offset_of : ℕ → List (ℕ × ℕ) → Option ℕ
offset_of h [] = none
offset_of h ((k, o) ∷ offs) = if k == h then some o else offset_of h offs

pub record ValueBook : Type 0 where
  pub file : Bytes
  pub pos : ℕ
  pub dedup : List ℕ
  pub offs : List (ℕ × ℕ)
  pub entries : ℕ
  pub bytes : ℕ

abbrev pub new_book : ValueBook
new_book = record { file = []; pos = 0; dedup = []; offs = []; entries = 0; bytes = 0 }

abbrev pub holds : List ℕ → ℕ → Bool
holds [] h = false
holds (k ∷ ks) h = k == h || holds ks h

-- the 15 bytes of a header, and the value
unfoldable pub put_entry : VOrigin → Bytes → Bytes → Bytes
put_entry o v rest =
    to_le 4 (length v)
    ++ (to_le 4 o.func_id ++ (to_le 4 o.off ++ (to_le 2 o.op_id ++ (o.src ∷ (v ++ rest)))))

-- `seek` and `read_exact`
unfoldable pub read_exact : Bytes → ℕ → ℕ → Option Bytes
read_exact file start n =
    if leb (start + n) (length file) then some (take n (drop start file)) else none

-- `entry_eq`, behind the flush
unfoldable pub entry_eq : ValueBook → ℕ → Bytes → Bool
unfolding read_exact
entry_eq vb off v =
    if ltb vb.pos (off + 15 + length v) then false else elim (read_exact vb.file off 4) [
      | none ↦ false
      | some hb ↦
          if not (from_le hb == length v)
          then false
          else elim (read_exact vb.file (off + 15) (length v)) [
            | none ↦ false
            | some b ↦ bytes_eq b v
          ]
    ]

module _ (blake3 : Bytes → ℕ) where
  unfoldable pub value_hash : Bytes → ℕ
  value_hash v = bit_xor (blake3 (take 64 v)) (length v * 0x9E3779B97F4A7C15 % 2 ^ 64)

  abbrev pub written : VOrigin → Bytes → ℕ → List ℕ → ValueBook → ValueBook
  written o v h dedup vb = record {
    file = vb.file ++ put_entry o v [];
    pos = vb.pos + (15 + length v);
    dedup = dedup;
    offs = (h, vb.pos) ∷ vb.offs;
    entries = vb.entries + 1;
    bytes = vb.bytes + length v;
  }

  -- A value whose hash is there and whose stored entry has its bytes is skipped.
  unfoldable pub put : Bytes → VOrigin → ValueBook → ValueBook
  unfolding value_hash entry_eq put_entry
  put v o vb =
      let h = value_hash v in
      let known : Bool = elim (offset_of h vb.offs) [ none ↦ false | some fo ↦ entry_eq vb fo v ] in
      if ltb (length v) min_value_len
      then vb
      else if not (holds vb.dedup h)
      then written o v h (h ∷ vb.dedup) vb
      else if known
      then vb
      else written o v h vb.dedup vb

-- `load_valuebook`: what is loaded
pub record Valuebook : Type 0 where
  pub ac : AhoCorasick
  pub origins : List VOrigin
  pub entries : ℕ

-- `origins.resize(n, …)`, which only grows
unfoldable pub resize : ℕ → List VOrigin → List VOrigin
resize zero os = os
resize (suc n) [] = record { func_id = 0; off = 0; op_id = 0xFFFF; src = 2 } ∷ resize n []
resize (suc n) (o ∷ os) = o ∷ resize n os

unfoldable pub add_entry : VOrigin → Bytes → Valuebook → Outcome Valuebook
unfolding resize
add_entry o v book = do
  r ← insert book.ac v
  let grown = if leb (length book.origins) r.1 then resize (r.1 + 1) book.origins else book.origins
  done (record { ac = r.0; origins = set grown r.1 o; entries = book.entries + 1 })

-- A literal of a function that never ran is left out.
unfoldable pub is_cold : List ℕ → VOrigin → Bool
is_cold exec_funcs o = o.src == 2 && not (holds exec_funcs o.func_id)

-- `exec_funcs` is sorted, so the binary search is a scan. Each round takes 15 bytes at least.
unfoldable pub load_loop : ℕ → List ℕ → Bytes → ℕ → Valuebook → Outcome Valuebook
unfolding read_exact
load_loop zero exec_funcs file p book = stuck
load_loop (suc fuel) exec_funcs file p book =
    let round : Bytes → Outcome Valuebook = λ h. (do
      len ← rd_u32 h 0
      func_id ← rd_u32 h 4
      off ← rd_u32 h 8
      op_id ← rd_u16 h 12
      src ← byte_at h 14
      let o : VOrigin = record { func_id = func_id; off = off; op_id = op_id; src = src }
      let next : Outcome Valuebook = load_loop fuel exec_funcs file (p + 15) book
      let over : Outcome Valuebook =
          load_loop fuel exec_funcs file (min (p + 15 + len) (length file)) book
      let kept : Bytes → Outcome Valuebook = λ v. (do
        book' ← (if is_cold exec_funcs o then done book else add_entry o v book)
        load_loop fuel exec_funcs file (p + 15 + len) book')
      if len == 0
          then next
          else if ltb valuebook_max_len len
          then over
          else elim (read_exact file (p + 15) len) [ none ↦ done book | some v ↦ kept v ]) in
    elim (read_exact file p 15) [ none ↦ done book | some h ↦ round h ]

abbrev pub no_entries : AhoCorasick → Valuebook
no_entries ac = record { ac = ac; origins = []; entries = 0 }

-- the entries of the file, before the automaton is built
unfoldable pub load_entries : List ℕ → Bytes → Outcome Valuebook
unfolding load_loop
load_entries exec_funcs file = load_loop (suc (length file)) exec_funcs file 0 (no_entries new)

unfoldable pub load_valuebook : List ℕ → Bytes → Outcome Valuebook
unfolding load_entries
load_valuebook exec_funcs file = do
  book ← load_entries exec_funcs file
  ac ← build book.ac
  done (record { ac = ac; origins = book.origins; entries = book.entries })
