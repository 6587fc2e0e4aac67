-- ===== src/Bctrace/Cursor.antt =====
-- Readers at an index into a byte slice, in terms of the bytes from that index on.
use afeye.Prelude.{
  ℕ, ◌+◌, ◌<◌, ◌^◌, ◌≡◌, sym, ap, ◌∙◌, ◌∷◌, ◌++◌, append_assoc, Bytes, length, length-append, drop,
  drop-append, done, byte_at, byte_at-append, slice, slice-append, arith,
}
use afeye.Bctrace.Read.{
  rd_u16, rd_u32, rd_u64, to_le, rd_u16-append, rd_u32-append, rd_u16-to_le, rd_u32-to_le,
  rd_u64-to_le,
}

-- From index `i` on, `p` holds `x`.
abbrev pub At : Bytes → ℕ → Bytes → Type 0
At p i x = (pre : Bytes) × (p ≡ pre ++ x) × (i ≡ length pre)

module _ (p : Bytes) (i : ℕ) where
  pub At-length : (x : Bytes) → At p i x → i + length x ≡ length p
  At-length x (pre, e, n) = omega (arith, ap length e, length-append pre x)

  pub At-drop : (x : Bytes) → At p i x → drop i p ≡ x
  At-drop x (pre, e, n) = rw e (drop-append pre x i n)

  pub At-byte : (c : ℕ) (x : Bytes) → At p i (c ∷ x) → byte_at p i ≡ done c
  unfolding byte_at
  At-byte c x (pre, e, n) = rw e (byte_at-append pre (c ∷ x) i 0 (omega arith))

  pub At-byte_1 : (c d : ℕ) (x : Bytes) → At p i (c ∷ d ∷ x) → byte_at p (i + 1) ≡ done d
  unfolding byte_at
  At-byte_1 c d x (pre, e, n) = rw e (byte_at-append pre (c ∷ d ∷ x) (i + 1) 1 (omega arith))

  pub At-byte_2 : (c d f : ℕ) (x : Bytes) → At p i (c ∷ d ∷ f ∷ x) → byte_at p (i + 2) ≡ done f
  unfolding byte_at
  At-byte_2 c d f x (pre, e, n) = rw e (byte_at-append pre (c ∷ d ∷ f ∷ x) (i + 2) 2 (omega arith))

  pub At-slice : (b x : Bytes) (j : ℕ) → At p i (b ++ x) → j ≡ i + length b → slice p i j ≡ done b
  At-slice b x j (pre, e, n) q = rw e (slice-append pre b x i j n q)

  pub At-skip : (b x : Bytes) (j : ℕ) → At p i (b ++ x) → j ≡ i + length b → At p j x
  At-skip b x j (pre, e, n) q =
      (pre ++ b, e ∙ sym (append_assoc pre b x), omega (arith, length-append pre b))

  pub At-u16 : (v : ℕ) (x : Bytes) → v < 2 ^ 16 → At p i (to_le 2 v ++ x) → rd_u16 p i ≡ done v
  At-u16 v x h (pre, e, n) =
      rw e (rd_u16-append pre (to_le 2 v ++ x) i 0 (omega arith)) ∙ rd_u16-to_le v x h

  pub At-u32 : (v : ℕ) (x : Bytes) → v < 2 ^ 32 → At p i (to_le 4 v ++ x) → rd_u32 p i ≡ done v
  At-u32 v x h (pre, e, n) =
      rw e (rd_u32-append pre (to_le 4 v ++ x) i 0 (omega arith)) ∙ rd_u32-to_le v x h

  pub At-u64 : (v : ℕ) (x : Bytes) → v < 2 ^ 64 → At p i (to_le 8 v ++ x) → rd_u64 p i ≡ done v
  At-u64 v x h (pre, e, n) = rw e (rd_u64-to_le pre x v i n h)
