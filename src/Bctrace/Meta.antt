-- ===== src/Bctrace/Meta.antt =====
-- `parse_meta` of src/bctrace.rs: the table of opcodes and of runtime function names.
-- A `String` is its bytes; `lossy` is `String::from_utf8_lossy(..).into_owned()`.
pub mod Names
pub mod RoundTrip
use afeye.Prelude.{
  ℕ, zero, suc, ◌+◌, Bool, true, false, ◌||◌, not, Option, some, none, List, [], ◌∷◌, ◌++◌, Bytes,
  length, drop, Outcome, done, ◌>>=◌, byte_at, slice, leb, ltb, ◌==◌, if◌then◌else◌,
}
use afeye.Bctrace.Read.{rd_u16, rd_i32}
use afeye.Bctrace.Blocks.{hdr_len}

abbrev pub op_meta : ℕ
op_meta = 0xfe

abbrev pub op_func_def : ℕ
op_func_def = 0xff

pub record OpScaleMeta : Type 0 where
  pub size : ℕ
  -- (operand type, offset)
  pub ops : List (ℕ × ℕ)

pub record OpMeta : Type 0 where
  pub name : Bytes
  pub n_ops : ℕ
  pub flags : ℕ
  pub acc_use : ℕ
  pub scale_0 : OpScaleMeta
  pub scale_1 : OpScaleMeta
  pub scale_2 : OpScaleMeta

pub record Meta : Type 0 where
  pub ops : List OpMeta
  pub rt_names : List Bytes
  pub reg_start : ℕ

-- An outcome that may be an early `return None`.
infixl 5 ◌>>?◌
abbrev pub ◌>>?◌ {ℓ κ} :
    {A : Type ℓ} {B : Type κ} → Outcome (Option A) → (A → Outcome (Option B)) → Outcome (Option B)
m >>? f = m >>= λ o. elim o [ none ↦ done none | some a ↦ f a ]

-- `while i < p.len() && p[i] != 0 { i += 1 }`, on the bytes from `i` on
unfoldable pub scan_nul : Bytes → ℕ → ℕ
scan_nul [] i = i
scan_nul (c ∷ cs) i = if c == 0 then i else scan_nul cs (i + 1)

module _ (lossy : Bytes → Bytes) (p : Bytes) where
  -- `for _o in 0..n_ops`
  unfoldable pub read_ops : ℕ → ℕ → Outcome (Option (List (ℕ × ℕ) × ℕ))
  read_ops zero i = done (some ([], i))
  read_ops (suc n) i =
      let more : Outcome (Option (List (ℕ × ℕ) × ℕ)) = do
        ty ← byte_at p i
        off ← byte_at p (i + 1)
        read_ops n (i + 2) >>? λ r. done (some ((ty, off) ∷ r.0, r.1))
      in if ltb (length p) (i + 2) then done none else more

  -- `for _s in 0..3`, one round
  unfoldable pub read_scale : ℕ → ℕ → Outcome (Option (OpScaleMeta × ℕ))
  read_scale n_ops i = if leb (length p) i then done none else do
    size ← byte_at p i
    read_ops n_ops (i + 1) >>? λ r. done (some (record { size = size; ops = r.0 }, r.1))

  -- `for _ in 0..n_bc`, one round
  unfoldable pub read_op : ℕ → Outcome (Option (OpMeta × ℕ))
  read_op start =
      let i = scan_nul (drop start p) start in
      if leb (length p) i then done none else do
        name ← slice p start i
        let fields : Outcome (Option (OpMeta × ℕ)) = do
          n_ops ← byte_at p (i + 1)
          flags ← byte_at p (i + 1 + 1)
          acc_use ← byte_at p (i + 1 + 2)
          read_scale n_ops (i + 1 + 3) >>? λ a. read_scale n_ops a.1 >>? λ b.
              read_scale n_ops b.1 >>? λ c. done (
                some (
                  record {
                    name = lossy name;
                    n_ops = n_ops;
                    flags = flags;
                    acc_use = acc_use;
                    scale_0 = a.0;
                    scale_1 = b.0;
                    scale_2 = c.0;
                  },
                  c.1,
                ))
        if ltb (length p) (i + 1 + 3) then done none else fields

  unfoldable pub read_op_table : ℕ → ℕ → Outcome (Option (List OpMeta × ℕ))
  read_op_table zero i = done (some ([], i))
  read_op_table (suc n) i =
      read_op i >>? λ m. read_op_table n m.1 >>? λ r. done (some (m.0 ∷ r.0, r.1))

  -- `for _ in 0..n_rt`; a name that ends with the slice moves the index behind it.
  unfoldable pub read_rt_names : ℕ → ℕ → Outcome (List Bytes)
  read_rt_names zero st = done []
  read_rt_names (suc n) st = do
    let i = scan_nul (drop st p) st
    name ← slice p st i
    rest ← read_rt_names n (i + 1)
    done (lossy name ∷ rest)

  unfoldable pub parse_meta : Outcome (Option Meta)
  parse_meta =
      let body : Outcome (Option Meta) = do
        n_bc ← rd_u16 p hdr_len
        reg_start ← rd_i32 p (hdr_len + 2)
        read_op_table n_bc (hdr_len + 2 + 4) >>? λ t.
            let names : Outcome (List Bytes) = do n_rt ← rd_u16 p t.1; read_rt_names n_rt (t.1 + 2)
            in do
              rt ← if leb (t.1 + 2) (length p) then names else done []
              done (some (record { ops = t.0; rt_names = rt; reg_start = reg_start }))
      in if ltb (length p) (hdr_len + 6)
        then done none
        else do first ← byte_at p 0; if not (first == op_meta) then done none else body
