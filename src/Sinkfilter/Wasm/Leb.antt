-- ===== src/Sinkfilter/Wasm/Leb.antt =====
-- The numbers of a wasm module, in groups of seven bits, as `WasmReader::leb` of
-- src/sinkfilter.rs reads them.
use afeye.Prelude.{
  ℕ, zero, suc, ◌+◌, ◌*◌, ◌/◌, ◌%◌, ◌^◌, ◌≤◌, ◌<◌, ◌≡◌, refl, ap, subst, ◌∙◌, Bool-cases, inl, inr,
  some, [], ◌∷◌, ◌++◌, Bytes, length, get_elem?-append, ltb, lt→ltb, le→ltb-false, if◌then◌else◌,
  bit_and, bit_or-shift, bit_and-127, bit_and-128, tests, arith,
}
use native.Mathlib.Nat.{mul-le-mul_right}
use afeye.Bctrace.Cursor.{At, At-skip}
use afeye.Sinkfilter.Wasm.{u8, leb_loop, leb_u64}

-- `groups` bounds the bytes behind the first.
unfoldable pub put_leb : ℕ → ℕ → Bytes
put_leb zero v = v ∷ []
put_leb (suc groups) v = if ltb v 128 then v ∷ [] else (128 + v % 128) ∷ put_leb groups (v / 128)

put_leb-last : (groups v : ℕ) → v < 128 → put_leb (suc groups) v ≡ v ∷ []
unfolding put_leb
put_leb-last groups v h = rw (lt→ltb v 128 h)

put_leb-more :
    (groups v : ℕ) → 128 ≤ v → put_leb (suc groups) v ≡ (128 + v % 128) ∷ put_leb groups (v / 128)
unfolding put_leb
put_leb-more groups v h = rw (le→ltb-false v 128 h)

pub put_leb_positive : (groups v : ℕ) → 0 < length (put_leb groups v)
unfolding put_leb
put_leb_positive zero v = omega arith
put_leb_positive (suc groups) v = ground arith

below_word : (c p : ℕ) → c < 128 → 128 * p ≤ 2 ^ 64 → c * p < 2 ^ 64
below_word c p h k =
    let low : c * p ≤ 127 * p = mul-le-mul_right p (omega arith) in omega (arith, low)

r_sum : (r v p q : ℕ) → q ≡ 128 * p → r + (128 + v % 128) % 128 * p + v / 128 * q ≡ r + v * p
r_sum r v p q e =
    let low : (128 + v % 128) % 128 ≡ v % 128 = omega arith in
    let split : v ≡ 128 * (v / 128) + v % 128 = omega arith in
    omega
      (arith, ap (λ (t : ℕ). t * p) low, ap (λ (t : ℕ). t * p) split, ap (λ (t : ℕ). v / 128 * t) e)

after : (p n : ℕ) → p + 1 + n ≡ p + suc n
after p n = omega arith

module _ (b : Bytes) where
  pub u8-At : (p c : ℕ) (x : Bytes) → At b p (c ∷ x) → u8 b p ≡ (some c, p + 1)
  unfolding u8
  u8-At p c x (pre, e, n) = rw e (rw (get_elem?-append pre (c ∷ x) p 0 (omega arith), u8))

  module _ (rounds p r shift c : ℕ) (x : Bytes) (at : At b p (c ∷ x)) (h : r < 2 ^ shift) where
    leb_loop-last :
        c < 128
        → c * 2 ^ shift < 2 ^ 64
        → leb_loop b (suc rounds) p r shift ≡ (some (r + c * 2 ^ shift), p + 1)
    unfolding leb_loop
    leb_loop-last k fits =
        let low : bit_and c 127 ≡ c = omega (arith, bit_and-127 c (omega arith)) in
        let high : bit_and c 128 ≡ 0 = omega (arith, bit_and-128 c (omega arith)) in
        let whole : c * 2 ^ shift % 2 ^ 64 ≡ c * 2 ^ shift = omega arith in
        rw (u8-At p c x at) (rw low (rw high (rw whole (rw (bit_or-shift shift r c h)))))

    leb_loop-more :
        128 ≤ c
        → c < 256
        → c % 128 * 2 ^ shift < 2 ^ 64
        → shift + 7 ≤ 63
        → leb_loop b (suc rounds) p r shift
          ≡ leb_loop b rounds (p + 1) (r + c % 128 * 2 ^ shift) (shift + 7)
    unfolding leb_loop
    leb_loop-more k k' fits s =
        let high : bit_and c 128 ≡ 128 = omega (arith, bit_and-128 c k') in
        let whole : c % 128 * 2 ^ shift % 2 ^ 64 ≡ c % 128 * 2 ^ shift = omega arith in
        rw (u8-At p c x at) (
          rw high (
            rw (bit_and-127 c k') (
              rw whole
                (rw (bit_or-shift shift r (c % 128) h) (rw (le→ltb-false 63 (shift + 7) s))))))

  -- `leb_loop`, with `groups` rounds behind the first, reads the numbers below `bound`.
  abbrev Reads : ℕ → ℕ → ℕ → Type 0
  Reads groups shift bound =
      (p r v : ℕ) (rest : Bytes)
      → r < 2 ^ shift
      → v < bound
      → At b p (put_leb groups v ++ rest)
      → leb_loop b (suc groups) p r shift
        ≡ (some (r + v * 2 ^ shift), p + length (put_leb groups v))

  Reads-first : Reads 0 63 2
  unfolding put_leb
  Reads-first p r v rest h k at = leb_loop-last 0 p r 63 v rest at h (omega arith) (omega arith)

  Reads-suc :
      (groups shift bound : ℕ)
      → 2 ^ (shift + 7) ≡ 128 * 2 ^ shift
      → 128 * 2 ^ shift ≤ 2 ^ 64
      → shift + 7 ≤ 63
      → Reads groups (shift + 7) bound
      → Reads (suc groups) shift (128 * bound)
  Reads-suc groups shift bound e fits s next p r v rest h k at = elim (Bool-cases (ltb v 128)) [
    | inl t ↦ rw (put_leb-last groups v (omega (tests, t))) (
        leb_loop-last (suc groups) p r shift v rest
          (subst (λ l. At b p (l ++ rest)) (put_leb-last groups v (omega (tests, t))) at) h
          (omega (tests, t)) (below_word v (2 ^ shift) (omega (tests, t)) fits))
    | inr t ↦
        let c : ℕ = 128 + v % 128 in
        let at' : At b p (c ∷ (put_leb groups (v / 128) ++ rest)) =
          subst (λ l. At b p (l ++ rest)) (put_leb-more groups v (omega (tests, t))) at in
        let low : c % 128 * 2 ^ shift ≤ 127 * 2 ^ shift =
          mul-le-mul_right (2 ^ shift) (omega arith) in
        rw (put_leb-more groups v (omega (tests, t))) (
          leb_loop-more (suc groups) p r shift c _ at' h (omega arith) (omega arith)
            (below_word (c % 128) (2 ^ shift) (omega arith) fits) s
          ∙ next (p + 1) (r + c % 128 * 2 ^ shift) (v / 128) rest (omega (arith, e, low))
              (omega arith) (At-skip b p (c ∷ []) _ (p + 1) at' (omega arith))
          ∙ (λ i. (
            some (r_sum r v (2 ^ shift) (2 ^ (shift + 7)) e i),
            after p (length (put_leb groups (v / 128))) i,
          )))
  ]

  Reads-all : Reads 9 0 (2 ^ 64)
  Reads-all = Reads-suc 8 0 (2 ^ 57) refl (omega arith) (omega arith) (
      Reads-suc 7 7 (2 ^ 50) refl (omega arith) (omega arith) (
        Reads-suc 6 14 (2 ^ 43) refl (omega arith) (omega arith) (
          Reads-suc 5 21 (2 ^ 36) refl (omega arith) (omega arith) (
            Reads-suc 4 28 (2 ^ 29) refl (omega arith) (omega arith) (
              Reads-suc 3 35 (2 ^ 22) refl (omega arith) (omega arith) (
                Reads-suc 2 42 (2 ^ 15) refl (omega arith) (omega arith) (
                  Reads-suc 1 49 (2 ^ 8) refl (omega arith) (omega arith)
                    (Reads-suc 0 56 (2 ^ 1) refl (omega arith) (omega arith) (Reads-first)))))))))

  -- The number that a group encoding of `v` below 2 ^ 64 stands for is read back, and the reader
  -- stands behind it.
  pub leb_u64-put_leb :
      (p v : ℕ) (rest : Bytes)
      → v < 2 ^ 64
      → At b p (put_leb 9 v ++ rest)
      → leb_u64 b p ≡ (some v, p + length (put_leb 9 v))
  unfolding leb_u64
  leb_u64-put_leb p v rest h at =
      Reads-all p 0 v rest (omega arith) h at ∙ (λ i. (some (plain v i), p + length (put_leb 9 v)))
    where
      plain : (v : ℕ) → 0 + v * 1 ≡ v
      plain v = omega arith
