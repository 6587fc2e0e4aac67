-- ===== src/Sinkfilter/Wasm.antt =====
-- `WasmReader` and `wasm_imports_exports` of src/sinkfilter.rs. A reader returns what it read and
-- its new position, which moves also where the reader fails. A `String` is its bytes; `lossy` is
-- `String::from_utf8_lossy(..).to_string()`.
pub mod Leb
pub mod Bounds
pub mod Names
pub mod Sections
use afeye.Prelude.{
  ℕ, zero, suc, ◌+◌, ◌-◌, ◌*◌, ◌%◌, ◌^◌, min, Bool, true, false, ◌&&◌, ◌||◌, not, Option, some,
  none, List, [], ◌∷◌, ◌++◌, Bytes, length, get_elem?, take, drop, bytes_eq, codes, Outcome, done,
  stuck, ◌>>=◌, slice, leb, ltb, ◌==◌, if◌then◌else◌, bit_and, bit_or,
}

abbrev pub Read : Type 0 → Type 0
Read A = Option A × ℕ

-- `let v = m?; f v`, where `f` also gets the position
abbrev pub and_then : {A B : Type 0} → Read A → (A → ℕ → Read B) → Read B
and_then (none, p) f = (none, p)
and_then (some a, p) f = f a p

-- imports and exports
abbrev pub Found : Type 0
Found = List Bytes × List Bytes

module _ (b : Bytes) where
  unfoldable pub u8 : ℕ → Read ℕ
  u8 p = elim (get_elem? b p) [ none ↦ (none, p) | some v ↦ (some v, p + 1) ]

  -- The tenth round is the last, since `shift` is above 63 behind it.
  unfoldable pub leb_loop : ℕ → ℕ → ℕ → ℕ → Read ℕ
  leb_loop zero p r shift = (none, p)
  leb_loop (suc rounds) p r shift = and_then (u8 p) (λ byte p'.
      let r' = bit_or r (bit_and byte 127 * 2 ^ shift % 2 ^ 64) in
      let more = leb_loop rounds p' r' (shift + 7) in
      if bit_and byte 128 == 0
      then (some r', p')
      else if ltb 63 (shift + 7)
      then (none, p')
      else more)

  unfoldable pub leb_u64 : ℕ → Read ℕ
  unfolding leb_loop
  leb_u64 p = leb_loop 10 p 0 0

  unfoldable pub read_bytes : ℕ → ℕ → Read Bytes
  read_bytes n p = if leb (p + n) (length b) then (some (take n (drop p b)), p + n) else (none, p)

  module _ (lossy : Bytes → Bytes) where
    unfoldable pub read_name : ℕ → Read Bytes
    read_name p =
        and_then (leb_u64 p) (λ n p'. and_then (read_bytes n p') (λ sl p''. (some (lossy sl), p'')))

  unfoldable pub limits : ℕ → Read ℕ
  limits p = and_then (u8 p) (λ flags p'.
      and_then (leb_u64 p') (λ lo p''. if bit_and flags 1 == 0 then (some 0, p'') else leb_u64 p''))

  -- the match on the kind of an import: its position behind it
  unfoldable pub skip_import : ℕ → ℕ → ℕ
  skip_import kind p =
      if kind == 0
      then (leb_u64 p).1
      else if kind == 1
      then (limits (u8 p).1).1
      else if kind == 2
      then (limits p).1
      else if kind == 3
      then (u8 (u8 p).1).1
      else p

module _ (lossy : Bytes → Bytes) where
  -- `for _ in 0..count.min(4096)`, over the imports of a section
  unfoldable pub imports_loop : ℕ → Bytes → ℕ → List Bytes → List Bytes
  imports_loop zero sec p imports = imports
  imports_loop (suc n) sec p imports =
      let field = read_name sec lossy (read_name sec lossy p).1 in
      if leb (length sec) p then imports else elim field.0 [
        | none ↦ imports
        | some f ↦
            let k = u8 sec field.1 in
            elim k.0 [
              | none ↦ imports ++ (f ∷ [])
              | some kind ↦ imports_loop n sec (skip_import sec kind k.1) (imports ++ (f ∷ []))
            ]
      ]

  unfoldable pub exports_loop : ℕ → Bytes → ℕ → List Bytes → List Bytes
  exports_loop zero sec p exports = exports
  exports_loop (suc n) sec p exports =
      let name = read_name sec lossy p in
      if leb (length sec) p then exports else elim name.0 [
        | none ↦ exports
        | some f ↦ exports_loop n sec (leb_u64 sec (u8 sec name.1).1).1 (exports ++ (f ∷ []))
      ]

  -- one section
  unfoldable pub read_section : ℕ → Bytes → Found → Found
  read_section sec_id sec (imports, exports) =
      let count = leb_u64 sec 0 in
      if sec_id == 2
      then elim count.0 [
        | none ↦ (imports, exports)
        | some n ↦ (imports_loop (min n 4096) sec count.1 imports, exports)
      ]
      else if sec_id == 7
      then elim count.0 [
        | none ↦ (imports, exports)
        | some n ↦ (imports, exports_loop (min n 4096) sec count.1 exports)
      ]
      else (imports, exports)

  -- Each round takes two bytes at least.
  unfoldable pub sections_loop : ℕ → Bytes → ℕ → Found → Outcome Found
  sections_loop zero b p found = stuck
  sections_loop (suc fuel) b p found =
      let id = u8 b p in
      let len = leb_u64 b id.1 in
      let inside : ℕ → ℕ → Outcome Found = λ sec_id sec_len. (do
        sec ← slice b len.1 (len.1 + sec_len)
        sections_loop fuel b (len.1 + sec_len) (read_section sec_id sec found)) in
      let round : Outcome Found = elim id.0 [
        | none ↦ done found
        | some sec_id ↦ elim len.0 [
          | none ↦ done found
          | some sec_len ↦
              if leb (len.1 + sec_len) (length b) then inside sec_id sec_len else done found
        ]
      ] in
      if ltb p (length b) then round else done found

  unfoldable pub wasm_imports_exports : Bytes → Outcome Found
  unfolding sections_loop
  wasm_imports_exports b =
      let magic : Outcome Found = do
        head ← slice b 0 4
        if not (bytes_eq head (0 ∷ codes "asm"))
            then done ([], [])
            else sections_loop (suc (length b)) b 8 ([], [])
      in if ltb (length b) 8 then done ([], []) else magic
