-- ===== src/Bctrace/Read.antt =====
-- The little-endian readers of src/bctrace.rs, and the writers that they undo.
use afeye.Prelude.{
  ℕ, ◌+◌, ◌*◌, ◌/◌, ◌%◌, ◌^◌, ◌≤◌, ◌<◌, ◌≡◌, ap, zero, suc, [], ◌∷◌, ◌++◌, Bytes, length, Outcome,
  done, ◌>>=◌, byte_at, byte_at-done, byte_at-append, slice, slice-done, slice-append, take, drop,
  ◌-◌, arith,
}

-- `from_le_bytes`, at every width
unfoldable pub from_le : Bytes → ℕ
from_le [] = 0
from_le (b ∷ bs) = b + 256 * from_le bs

unfoldable pub rd_u16 : Bytes → ℕ → Outcome ℕ
rd_u16 b i = do x ← byte_at b i; y ← byte_at b (i + 1); done (from_le (x ∷ y ∷ []))

unfoldable pub rd_u32 : Bytes → ℕ → Outcome ℕ
rd_u32 b i = do
  x ← byte_at b i
  y ← byte_at b (i + 1)
  z ← byte_at b (i + 2)
  w ← byte_at b (i + 3)
  done (from_le (x ∷ y ∷ z ∷ w ∷ []))

-- An `i32` is kept as its bit pattern, so the two readers of 32 bits agree.
unfoldable pub rd_i32 : Bytes → ℕ → Outcome ℕ
rd_i32 = rd_u32

unfoldable pub rd_u64 : Bytes → ℕ → Outcome ℕ
rd_u64 b i = do s ← slice b i (i + 8); done (from_le s)

module _ (b : Bytes) (i : ℕ) where
  pub rd_u16-done : i + 2 ≤ length b → (v : ℕ) × (rd_u16 b i ≡ done v)
  unfolding rd_u16
  rd_u16-done h =
      let (x, p) = byte_at-done b i (omega arith) in
      let (y, q) = byte_at-done b (i + 1) (omega arith) in (from_le (x ∷ y ∷ []), rw (p, q))

  pub rd_u32-done : i + 4 ≤ length b → (v : ℕ) × (rd_u32 b i ≡ done v)
  unfolding rd_u32
  rd_u32-done h =
      let (x, p) = byte_at-done b i (omega arith) in
      let (y, q) = byte_at-done b (i + 1) (omega arith) in
      let (z, r) = byte_at-done b (i + 2) (omega arith) in
      let (w, s) = byte_at-done b (i + 3) (omega arith) in
      (from_le (x ∷ y ∷ z ∷ w ∷ []), rw (p, q, r, s))

  pub rd_u64-done : i + 8 ≤ length b → (v : ℕ) × (rd_u64 b i ≡ done v)
  unfolding rd_u64
  rd_u64-done h =
      (from_le (take (i + 8 - i) (drop i b)), rw (slice-done b i (i + 8) (omega arith) h))

module _ (xs ys : Bytes) (n i : ℕ) (e : n ≡ length xs + i) where
  pub rd_u16-append : rd_u16 (xs ++ ys) n ≡ rd_u16 ys i
  unfolding rd_u16
  rd_u16-append =
      rw (byte_at-append xs ys n i e, byte_at-append xs ys (n + 1) (i + 1) (omega arith))

  pub rd_u32-append : rd_u32 (xs ++ ys) n ≡ rd_u32 ys i
  unfolding rd_u32
  rd_u32-append = rw (
    byte_at-append xs ys n i e,
    byte_at-append xs ys (n + 1) (i + 1) (omega arith),
    byte_at-append xs ys (n + 2) (i + 2) (omega arith),
    byte_at-append xs ys (n + 3) (i + 3) (omega arith),
  )

-- `to_le_bytes`, at every width
unfoldable pub to_le : ℕ → ℕ → Bytes
to_le zero v = []
to_le (suc w) v = (v % 256) ∷ to_le w (v / 256)

pub length-to_le : (w v : ℕ) → length (to_le w v) ≡ w
unfolding to_le
length-to_le zero v = omega arith
length-to_le (suc w) v = omega (arith, length-to_le w (v / 256))

pub rd_u16-to_le : (v : ℕ) (rest : Bytes) → v < 2 ^ 16 → rd_u16 (to_le 2 v ++ rest) 0 ≡ done v
unfolding rd_u16 byte_at to_le from_le
rd_u16-to_le v rest h = ap done (omega arith)

pub rd_u32-to_le : (v : ℕ) (rest : Bytes) → v < 2 ^ 32 → rd_u32 (to_le 4 v ++ rest) 0 ≡ done v
unfolding rd_u32 byte_at to_le from_le
rd_u32-to_le v rest h = ap done (omega arith)

from_le-to_le : (v : ℕ) → v < 2 ^ 64 → from_le (to_le 8 v) ≡ v
unfolding from_le to_le
from_le-to_le v h = omega arith

pub rd_u64-to_le :
    (pre rest : Bytes) (v n : ℕ)
    → n ≡ length pre
    → v < 2 ^ 64
    → rd_u64 (pre ++ (to_le 8 v ++ rest)) n ≡ done v
unfolding rd_u64
rd_u64-to_le pre rest v n e h =
    rw (slice-append pre (to_le 8 v) rest n (n + 8) e (omega (arith, length-to_le 8 v)))
      (ap done (from_le-to_le v h))
