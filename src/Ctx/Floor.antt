-- ===== src/Ctx/Floor.antt =====
-- `char_floor` of src/ctx.rs stops at the start of a character.
use afeye.Prelude.{
  ℕ, zero, suc, ◌≤◌, ◌<◌, ◌≡◌, refl, sym, subst, true, false, ◌⊎◌, inl, inr, some, Bytes, length,
  get_elem?, get_elem?-some, Returns, Returns-if, Returns-imp, byte_at, leb, ◌==◌, bit_and, tests,
  arith,
}
use afeye.Ctx.{floor_from, char_floor}

-- A continuation byte of UTF-8 stands at `i`.
abbrev pub IsInside : Bytes → ℕ → Type 0
IsInside s i = (c : ℕ) × (get_elem? s i ≡ some c) × ((bit_and c 0xc0 == 0x80) ≡ true)

abbrev pub IsStart : Bytes → ℕ → Type 0
IsStart s i =
    (i ≡ 0)
    ⊎ ((i ≡ length s) ⊎ ((c : ℕ) × (get_elem? s i ≡ some c) × ((bit_and c 0xc0 == 0x80) ≡ false)))

-- The last start of a character at or below `n`.
abbrev pub IsFloor : Bytes → ℕ → ℕ → Type 0
IsFloor s n i =
    (i ≤ n) × (i ≤ length s) × IsStart s i × ((j : ℕ) → i < j → j ≤ n → j < length s → IsInside s j)

floor_from-IsFloor : (s : Bytes) (n : ℕ) → n < length s → Returns (IsFloor s n) (floor_from s n)
unfolding floor_from byte_at
floor_from-IsFloor s zero h =
    (omega arith, omega arith, inl refl, (λ j l k m. absurd (omega arith)))
floor_from-IsFloor s (suc n) h =
    let (c, e) = get_elem?-some s (suc n) h in
    rw (e, Returns)
      (Returns-if _ (bit_and c 0xc0 == 0x80) _ _
        (λ t.
          Returns-imp (IsFloor s n) (IsFloor s (suc n)) (floor_from s n)
            (floor_from-IsFloor s n (omega arith))
            (λ i (a, b, st, k). (
              omega arith,
              b,
              st,
              (λ j l m o. elim (last j n m) [
                | inl q ↦ subst (IsInside s) (sym q) (c, e, t)
                | inr q ↦ k j l q o
              ]),
            )))
        (λ t. (omega arith, omega arith, inr (inr (c, e, t)), (λ j l k m. absurd (omega arith)))))
  where
    last : (j n : ℕ) → j ≤ suc n → (j ≡ suc n) ⊎ (j ≤ n)
    last j n h = ground arith

-- `char_floor` returns, without a panic, the last start of a character at or below `n`, or the
-- length of a text that is not longer.
pub char_floor-IsFloor : (s : Bytes) (n : ℕ) → Returns (IsFloor s n) (char_floor s n)
unfolding char_floor
char_floor-IsFloor s n =
    Returns-if _ (leb (length s) n) _ _
      (λ t. (omega (tests, t), omega arith, inr (inl refl), (λ j l k m. absurd (omega arith))))
      (λ t. floor_from-IsFloor s n (omega (tests, t)))
