-- ===== src/Writer/Tokens.antt =====
-- One token of the scanner of src/writer.rs on any bytes: it stands in the text.
use afeye.Prelude.{
  ℕ, zero, suc, ◌+◌, ◌-◌, ◌≤◌, ◌<◌, ◌≡◌, refl, ap, ◌∙◌, max, Bool, true, false, ◌&&◌, ◌||◌,
  Bool-cases, Option-cases, inl, inr, Option, some, none, [], ◌∷◌, Bytes, length, get_elem?,
  Returns, Returns-bind, Returns-imp, Returns-if, leb, ltb, ◌==◌, ==_iff, if◌then◌else◌, tests,
  arith,
}
use afeye.Writer.{
  Tok, skip_while, is_ws, is_number, is_bare, skip_ws, string_end, nest_loop, scan_val,
}

pub inside : (s : Bytes) (i c : ℕ) → get_elem? s i ≡ some c → i < length s
inside [] i c e = (let bad : none ≡ some c = e in absurd (cc))
inside (x ∷ s) zero c e = omega arith
inside (x ∷ s) (suc i) c e = omega (arith, inside s i c e)

module _ (s : Bytes) where
  abbrev pub Stops : ℕ → ℕ → Type 0
  Stops i e = (i ≤ e) × (e ≤ max i (length s))

  skip_while-Stops :
      (p : ℕ → Bool) (fuel i : ℕ)
      → 0 < fuel
      → length s < fuel + i
      → Returns (Stops i) (skip_while p fuel s i)
  unfolding skip_while
  skip_while-Stops p zero i pos enough = elim pos [ ]
  skip_while-Stops p (suc fuel) i pos enough = elim (Option-cases (get_elem? s i)) [
    | inl e ↦ rw (e, Returns) (omega arith)
    | inr (c, e) ↦
        let l : i < length s = inside s i c e in
        rw (e, Returns)
          (Returns-if _ (p c) _ _
            (λ _.
              Returns-imp (Stops (i + 1)) (Stops i) (skip_while p fuel s (i + 1))
                (skip_while-Stops p fuel (i + 1) (omega arith) (omega arith))
                (λ r h. omega (arith, h)))
            (λ _. omega arith))
  ]

  skip_while-moves :
      (p : ℕ → Bool) (fuel i c : ℕ)
      → get_elem? s i ≡ some c
      → p c ≡ true
      → length s < suc fuel + i
      → Returns (λ e. (i < e) × (e ≤ length s)) (skip_while p (suc fuel) s i)
  unfolding skip_while
  skip_while-moves p fuel i c e t enough =
      let l : i < length s = inside s i c e in
      rw (e, Returns)
        (rw (t, Returns)
          (Returns-imp (Stops (i + 1)) (λ r. (i < r) × (r ≤ length s)) (skip_while p fuel s (i + 1))
            (skip_while-Stops p fuel (i + 1) (omega arith) (omega arith))
            (λ r h. omega (arith, h))))

  pub skip_ws-Stops : (i : ℕ) → Returns (Stops i) (skip_ws s i)
  unfolding skip_ws
  skip_ws-Stops i = skip_while-Stops is_ws (suc (length s)) i (omega arith) (omega arith)

  string_end-Returns :
      (fuel i : ℕ) → 0 < fuel → length s < fuel + i → Returns (λ e. i ≤ e) (string_end fuel s i)
  unfolding string_end
  string_end-Returns zero i pos enough = elim pos [ ]
  string_end-Returns (suc fuel) i pos enough = elim (Option-cases (get_elem? s i)) [
    | inl e ↦ rw (e, Returns) (omega arith)
    | inr (c, e) ↦
        let l : i < length s = inside s i c e in
        let j : ℕ = if c == 92 then i + 2 else i + 1 in
        let later : i < j = later_lem (c == 92) i in
        rw (e, Returns)
          (Returns-if _ (c == 34) _ _ (λ _. omega arith)
            (λ _.
              Returns-imp (λ r. j ≤ r) (λ r. i ≤ r) (string_end fuel s j)
                (string_end-Returns fuel j (omega arith) (omega (arith, later)))
                (λ r h. omega (arith, h, later))))
  ]
    where
      later_lem : (b : Bool) (i : ℕ) → i < (if b then i + 2 else i + 1)
      later_lem b i = ground arith

  -- A token that starts at `a`, ends behind `i`, and stands in the text.
  abbrev pub IsTok : ℕ → ℕ → Option Tok → Type 0
  IsTok a i none = Unit
  IsTok a i (some t) = (t.a ≡ a) × (i < t.b) × (t.b ≤ length s)

  IsTok-later : (a i j : ℕ) (t : Option Tok) → i ≤ j → IsTok a j t → IsTok a i t
  IsTok-later a i j none h k = tt
  IsTok-later a i j (some t) h (e, l, m) = (e, omega arith, m)

  nest_loop-IsTok :
      (opening closing tag a fuel i d : ℕ)
      → 0 < d
      → 0 < fuel
      → length s < fuel + i
      → Returns (IsTok a i) (nest_loop opening closing tag a fuel s i d)
  unfolding nest_loop
  nest_loop-IsTok o cl tag a zero i d deep pos enough = elim pos [ ]
  nest_loop-IsTok o cl tag a (suc fuel) i d deep pos enough = elim (Option-cases (get_elem? s i)) [
    | inl e ↦ rw (e, Returns) tt
    | inr (c, e) ↦
        let l : i < length s = inside s i c e in
        let ih : (j d' : ℕ)
            → i < j
            → 0 < d'
            → Returns (IsTok a i) (nest_loop o cl tag a fuel s j d') =
          λ j d' h k.
            Returns-imp (IsTok a j) (IsTok a i) (nest_loop o cl tag a fuel s j d')
              (nest_loop-IsTok o cl tag a fuel j d' k (omega arith) (omega arith))
              (λ t w. IsTok-later a i j t (omega arith) w) in
        rw (e, Returns)
          (Returns-if _ (c == 34) _ _
            (λ _.
              Returns-bind (λ r. i + 1 ≤ r) _ (string_end (suc (length s)) s (i + 1)) _
                (string_end-Returns (suc (length s)) (i + 1) (omega arith) (omega arith))
                (λ r h. ih (r + 1) d (omega (arith, h)) deep))
            (λ _.
              Returns-if _ (c == o) _ _ (λ _. ih (i + 1) (d + 1) (omega arith) (omega arith))
                (λ _.
                  Returns-if _ (c == cl) _ _
                    (λ _.
                      Returns-if _ (d == 0) _ _ (λ z. absurd (zero_deep d deep z))
                        (λ _.
                          Returns-if _ (d == 1) _ _ (λ _. (refl, omega arith, omega arith))
                            (λ one. ih (i + 1) (d - 1) (omega arith) (one_less d deep one))))
                    (λ _. ih (i + 1) d (omega arith) deep))))
  ]
    where
      zero_deep : (d : ℕ) → 0 < d → (d == 0) ≡ true → ⊥
      zero_deep d h z = ground (arith, h, z)

      one_less : (d : ℕ) → 0 < d → (d == 1) ≡ false → 0 < d - 1
      one_less d h z = ground (arith, h, z)

  -- The first byte of an array or an object makes it one deep.
  nest_loop-first :
      (opening closing tag i fuel : ℕ)
      → get_elem? s i ≡ some opening
      → (opening == 34) ≡ false
      → length s < suc fuel + i
      → Returns (IsTok i i) (nest_loop opening closing tag i (suc fuel) s i 0)
  unfolding nest_loop
  nest_loop-first o cl tag i fuel e q enough =
      let l : i < length s = inside s i o e in
      rw (e, Returns)
        (rw (q, Returns)
          (rw ((==_iff o o).1 refl, Returns)
            (Returns-imp (IsTok i (i + 1)) (IsTok i i) (nest_loop o cl tag i fuel s (i + 1) (0 + 1))
              (nest_loop-IsTok o cl tag i fuel (i + 1) (0 + 1) (omega arith) (omega arith)
                (omega arith))
              (λ t w. IsTok-later i i (i + 1) t (omega arith) w))))

  text-IsTok :
      (i e : ℕ)
      → i + 1 ≤ e
      → IsTok i i (if ltb e (length s) then some (record { tag = 0; a = i; b = e + 1 }) else none)
  text-IsTok i e h = elim (Bool-cases (ltb e (length s))) [
    | inl t ↦ rw (t, IsTok) (refl, omega arith, omega (tests, t))
    | inr t ↦ rw (t, IsTok) tt
  ]

  bare-IsTok :
      (i e : ℕ)
      → i ≤ e
      → e ≤ length s
      → IsTok i i (if e == i then none else some (record { tag = 4; a = i; b = e }))
  bare-IsTok i e h k = elim (Bool-cases (e == i)) [
    | inl t ↦ rw (t, IsTok) tt
    | inr t ↦ rw (t, IsTok) (refl, apart i e h t, k)
  ]
    where
      apart : (i e : ℕ) → i ≤ e → (e == i) ≡ false → i < e
      apart i e h t = ground (arith, h, t)

  number_first : (c : ℕ) → (c == 45 || leb 48 c && leb c 57) ≡ true → is_number c ≡ true
  number_first c h = ground (arith, h)

  pub scan_val-IsTok : (i : ℕ) → Returns (IsTok i i) (scan_val s i)
  unfolding scan_val
  scan_val-IsTok i = elim (Option-cases (get_elem? s i)) [
    | inl e ↦ rw (e, Returns) tt
    | inr (c, e) ↦
        let l : i < length s = inside s i c e in
        let fuel : ℕ = suc (length s) in
        rw (e, Returns)
          (Returns-if _ (c == 34) _ _
            (λ _.
              Returns-bind (λ r. i + 1 ≤ r) _ (string_end fuel s (i + 1)) _
                (string_end-Returns fuel (i + 1) (omega arith) (omega arith))
                (λ r h. text-IsTok i r h))
            (λ _.
              Returns-if _ (c == 45 || leb 48 c && leb c 57) _ _
                (λ n.
                  Returns-bind (λ r. (i < r) × (r ≤ length s)) _ (skip_while is_number fuel s i) _
                    (skip_while-moves is_number (length s) i c e (number_first c n) (omega arith))
                    (λ r h. (refl, h.0, h.1)))
                (λ _.
                  Returns-if _ (c == 91) _ _
                    (λ q.
                      nest_loop-first 91 93 2 i (length s) (e ∙ ap some ((==_iff c 91).0 q)) refl
                        (omega arith))
                    (λ _.
                      Returns-if _ (c == 123) _ _
                        (λ q.
                          nest_loop-first 123 125 3 i (length s) (e ∙ ap some ((==_iff c 123).0 q))
                            refl (omega arith))
                        (λ _.
                          Returns-bind (Stops i) _ (skip_while is_bare fuel s i) _
                            (skip_while-Stops is_bare fuel i (omega arith) (omega arith))
                            (λ r h. bare-IsTok i r h.0 (omega (arith, h))))))))
  ]
