-- ===== src/Sinkfilter/Wasm/Names.antt =====
-- Imports and exports of a wasm module, as src/sinkfilter.rs reads their names.
use afeye.Prelude.{
  ℕ, ◌+◌, ◌^◌, ◌≤◌, ◌<◌, ◌≡◌, refl, sym, ap, ◌∙◌, some, List, [], ◌∷◌, ◌++◌, append-nil,
  append_assoc, map, Bytes, length, length-append, take-append, All, false, leb, le→leb,
  lt→leb-false, arith,
}
use afeye.Bctrace.Cursor.{At, At-length, At-drop, At-skip}
use afeye.Sinkfilter.Wasm.{
  u8, leb_u64, read_bytes, read_name, limits, skip_import, imports_loop, exports_loop,
}
use afeye.Sinkfilter.Wasm.Leb.{put_leb, put_leb_positive, u8-At, leb_u64-put_leb}

-- `lo`, and the upper limit where there is one
pub data Limits : Type 0 where
  open_limits : ℕ → Limits
  closed_limits : ℕ → ℕ → Limits

pub data Desc : Type 0 where
  func : ℕ → Desc
  table : ℕ → Limits → Desc
  memory : Limits → Desc
  global : ℕ → ℕ → Desc

pub record Import : Type 0 where
  pub module_name : Bytes
  pub field : Bytes
  pub desc : Desc

pub record Export : Type 0 where
  pub name : Bytes
  pub kind : ℕ
  pub idx : ℕ

unfoldable pub put_name : Bytes → Bytes → Bytes
put_name n rest = put_leb 9 (length n) ++ (n ++ rest)

unfoldable pub put_limits : Limits → Bytes → Bytes
put_limits (open_limits lo) rest = 0 ∷ (put_leb 9 lo ++ rest)
put_limits (closed_limits lo hi) rest = 1 ∷ (put_leb 9 lo ++ (put_leb 9 hi ++ rest))

unfoldable pub kind_of : Desc → ℕ
kind_of (func idx) = 0
kind_of (table elem l) = 1
kind_of (memory l) = 2
kind_of (global ty mut) = 3

unfoldable pub put_desc : Desc → Bytes → Bytes
unfolding put_limits
put_desc (func idx) rest = put_leb 9 idx ++ rest
put_desc (table elem l) rest = elem ∷ put_limits l rest
put_desc (memory l) rest = put_limits l rest
put_desc (global ty mut) rest = ty ∷ mut ∷ rest

unfoldable pub put_imports : List Import → Bytes → Bytes
unfolding put_name kind_of put_desc
put_imports [] rest = rest
put_imports (i ∷ is) rest =
    put_name i.module_name
      (put_name i.field (kind_of i.desc ∷ put_desc i.desc (put_imports is rest)))

unfoldable pub put_exports : List Export → Bytes → Bytes
unfolding put_name
put_exports [] rest = rest
put_exports (e ∷ es) rest = put_name e.name (e.kind ∷ (put_leb 9 e.idx ++ put_exports es rest))

-- Every number fits 64 bits.
abbrev pub LimitsFit : Limits → Type 0
LimitsFit (open_limits lo) = lo < 2 ^ 64
LimitsFit (closed_limits lo hi) = (lo < 2 ^ 64) × (hi < 2 ^ 64)

abbrev pub DescFits : Desc → Type 0
DescFits (func idx) = idx < 2 ^ 64
DescFits (table elem l) = LimitsFit l
DescFits (memory l) = LimitsFit l
DescFits (global ty mut) = Unit

abbrev pub ImportFits : Import → Type 0
ImportFits i = (length i.module_name < 2 ^ 64) × (length i.field < 2 ^ 64) × DescFits i.desc

abbrev pub ExportFits : Export → Type 0
ExportFits e = (length e.name < 2 ^ 64) × (e.idx < 2 ^ 64)

module _ (b : Bytes) (p : ℕ) where
  pub u8-next : (c : ℕ) (x : Bytes) → At b p (c ∷ x) → At b (u8 b p).1 x
  u8-next c x at = rw (u8-At b p c x at) (At-skip b p (c ∷ []) x (p + 1) at (omega arith))

  module _ (v : ℕ) (x : Bytes) (h : v < 2 ^ 64) (at : At b p (put_leb 9 v ++ x)) where
    pub leb-value : (leb_u64 b p).0 ≡ some v
    leb-value = rw (leb_u64-put_leb b p v x h at)

    pub leb-next : At b (leb_u64 b p).1 x
    leb-next =
        rw (leb_u64-put_leb b p v x h at)
          (At-skip b p (put_leb 9 v) x (p + length (put_leb 9 v)) at refl)

  limits-next :
      (l : Limits) (x : Bytes) → LimitsFit l → At b p (put_limits l x) → At b (limits b p).1 x
  unfolding limits put_limits
  limits-next (open_limits lo) x h at =
      let at_lo : At b (p + 1) (put_leb 9 lo ++ x) =
        At-skip b p (0 ∷ []) _ (p + 1) at (omega arith) in
      rw (u8-At b p 0 _ at, limits)
        (rw (leb_u64-put_leb b (p + 1) lo x h at_lo)
          (At-skip b (p + 1) (put_leb 9 lo) x (p + 1 + length (put_leb 9 lo)) at_lo refl))
  limits-next (closed_limits lo hi) x (h, k) at =
      let at_lo : At b (p + 1) (put_leb 9 lo ++ (put_leb 9 hi ++ x)) =
        At-skip b p (1 ∷ []) _ (p + 1) at (omega arith) in
      let q : ℕ = p + 1 + length (put_leb 9 lo) in
      let at_hi : At b q (put_leb 9 hi ++ x) = At-skip b (p + 1) (put_leb 9 lo) _ q at_lo refl in
      rw (u8-At b p 1 _ at, limits)
        (rw (leb_u64-put_leb b (p + 1) lo _ h at_lo) (
          rw (leb_u64-put_leb b q hi x k at_hi)
            (At-skip b q (put_leb 9 hi) x (q + length (put_leb 9 hi)) at_hi refl)))

module _ (b : Bytes) where
  skip_import-next :
      (p : ℕ) (d : Desc) (x : Bytes)
      → DescFits d
      → At b p (put_desc d x)
      → At b (skip_import b (kind_of d) p) x
  unfolding skip_import kind_of put_desc
  skip_import-next p (func idx) x h at = leb-next b p idx x h at
  skip_import-next p (table elem l) x h at = limits-next b (u8 b p).1 l x h (u8-next b p elem _ at)
  skip_import-next p (memory l) x h at = limits-next b p l x h at
  skip_import-next p (global ty mut) x h at = u8-next b (u8 b p).1 mut x (u8-next b p ty _ at)

  module _ (lossy : Bytes → Bytes) where
    module _ (p : ℕ) (n x : Bytes) (h : length n < 2 ^ 64) (at : At b p (put_name n x)) where
      name_read :
          read_name b lossy p ≡ (some (lossy n), p + length (put_leb 9 (length n)) + length n)
      unfolding read_name read_bytes put_name
      name_read =
          let q : ℕ = p + length (put_leb 9 (length n)) in
          let at_n : At b q (n ++ x) = At-skip b p (put_leb 9 (length n)) _ q at refl in
          let fits : q + length n ≤ length b =
            omega (arith, At-length b q _ at_n, length-append n x) in
          rw (leb_u64-put_leb b p (length n) _ h at) (
            rw (le→leb (q + length n) (length b) fits)
              (rw (At-drop b q _ at_n) (rw (take-append n x (length n) refl))))

      pub name-value : (read_name b lossy p).0 ≡ some (lossy n)
      name-value = rw name_read

      pub name-next : At b (read_name b lossy p).1 x
      unfolding put_name
      name-next =
          let q : ℕ = p + length (put_leb 9 (length n)) in
          rw name_read
            (At-skip b q n x (q + length n) (At-skip b p (put_leb 9 (length n)) _ q at refl) refl)

    At-name : (p : ℕ) (n x : Bytes) → At b p (put_name n x) → leb (length b) p ≡ false
    unfolding put_name
    At-name p n x at = lt→leb-false (length b) p (
        omega (
          arith,
          At-length b p _ at,
          length-append (put_leb 9 (length n)) (n ++ x),
          put_leb_positive 9 (length n),
        ))

    -- The fields of the imports of a section are read in order.
    pub imports_loop-put_imports :
        (p : ℕ) (is : List Import) (x : Bytes) (out : List Bytes)
        → All ImportFits is
        → At b p (put_imports is x)
        → imports_loop lossy (length is) b p out ≡ out ++ map (λ i. lossy i.field) is
    unfolding imports_loop put_imports
    imports_loop-put_imports p [] x out ws at = sym (append-nil out)
    imports_loop-put_imports p (i ∷ is) x out ((m, f, d), ws) at =
        let field_at = name-next p i.module_name _ m at in
        let q : ℕ = (read_name b lossy p).1 in
        let kind_at = name-next q i.field _ f field_at in
        let k : ℕ = (read_name b lossy q).1 in
        rw (At-name p i.module_name _ at) (
          rw (name-value q i.field _ f field_at) (
            rw (ap (λ r. r.0) (u8-At b k (kind_of i.desc) _ kind_at)) (
              imports_loop-put_imports (skip_import b (kind_of i.desc) (u8 b k).1) is x
                (out ++ (lossy i.field ∷ [])) ws
                (skip_import-next (u8 b k).1 i.desc _ d (u8-next b k (kind_of i.desc) _ kind_at))
              ∙ append_assoc out (lossy i.field ∷ []) (map (λ j. lossy j.field) is))))

    pub exports_loop-put_exports :
        (p : ℕ) (es : List Export) (x : Bytes) (out : List Bytes)
        → All ExportFits es
        → At b p (put_exports es x)
        → exports_loop lossy (length es) b p out ≡ out ++ map (λ e. lossy e.name) es
    unfolding exports_loop put_exports
    exports_loop-put_exports p [] x out ws at = sym (append-nil out)
    exports_loop-put_exports p (e ∷ es) x out ((n, d), ws) at =
        let kind_at = name-next p e.name _ n at in
        let k : ℕ = (read_name b lossy p).1 in
        rw (At-name p e.name _ at) (
          rw (name-value p e.name _ n at) (
            exports_loop-put_exports (leb_u64 b (u8 b k).1).1 es x (out ++ (lossy e.name ∷ [])) ws
              (leb-next b (u8 b k).1 e.idx _ d (u8-next b k e.kind _ kind_at))
            ∙ append_assoc out (lossy e.name ∷ []) (map (λ j. lossy j.name) es)))
