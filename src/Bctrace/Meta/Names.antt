-- ===== src/Bctrace/Meta/Names.antt =====
-- The table of runtime names at the end of the meta record: what the loop reads, and when it panics.
use afeye.Prelude.{
  ℕ, zero, suc, ◌+◌, ◌≤◌, ◌<◌, ◌≡◌, refl, ap, ◌∙◌, inl, inr, List, [], ◌∷◌, ◌++◌, map, Bytes,
  length, drop, Outcome, done, panic, ◌>>=◌, slice-panic, ℕ-cases, ◌==◌, if◌then◌else◌, Bool-cases,
  arith,
}
use afeye.Bctrace.Cursor.{At, At-length, At-drop, At-slice, At-skip}
use afeye.Bctrace.Meta.{scan_nul, read_rt_names}

abbrev pub count_nul : Bytes → ℕ
count_nul [] = 0
count_nul (c ∷ cs) = if c == 0 then suc (count_nul cs) else count_nul cs

-- The bytes before the first NUL, from it on, and behind it.
abbrev pub before : Bytes → Bytes
before [] = []
before (c ∷ cs) = if c == 0 then [] else c ∷ before cs

abbrev since : Bytes → Bytes
since [] = []
since (c ∷ cs) = if c == 0 then c ∷ cs else since cs

abbrev pub after : Bytes → Bytes
after [] = []
after (c ∷ cs) = if c == 0 then cs else after cs

-- The first `n` names of NUL-terminated text.
abbrev pub names : ℕ → Bytes → List Bytes
names zero x = []
names (suc n) x = before x ∷ names n (after x)

pub scan_nul-before : (x : Bytes) (i : ℕ) → scan_nul x i ≡ i + length (before x)
unfolding scan_nul
scan_nul-before [] i = omega arith
scan_nul-before (c ∷ cs) i = ground (arith, scan_nul-before cs (i + 1))

pub before-append-since : (x : Bytes) → before x ++ since x ≡ x
before-append-since [] = refl
before-append-since (c ∷ cs) = elim (Bool-cases (c == 0)) [
  | inl e ↦ rw e
  | inr e ↦ rw e (ap (◌∷◌ c) (before-append-since cs))
]

nul_at_since :
    (x : Bytes) (k : ℕ) → count_nul x ≡ suc k → (since x ≡ 0 ∷ after x) × (count_nul (after x) ≡ k)
nul_at_since [] k h = absurd (omega arith)
nul_at_since (c ∷ cs) k h = elim (Bool-cases (c == 0)) [
  | inl e ↦ ground (arith)
  | inr e ↦ rw e (nul_at_since cs k (rw e at h))
]

no_nul_before : (x : Bytes) → count_nul x ≡ 0 → before x ≡ x
no_nul_before [] h = refl
no_nul_before (c ∷ cs) h = elim (Bool-cases (c == 0)) [
  | inl e ↦ absurd (ground arith)
  | inr e ↦ rw e (ap (◌∷◌ c) (no_nul_before cs (rw e at h)))
]

module _ (lossy : Bytes → Bytes) (p : Bytes) where
  abbrev read : ℕ → ℕ → Outcome (List Bytes)
  read = read_rt_names lossy p

  -- One round reads the name that starts at the index.
  read_step :
      (n st : ℕ) (x : Bytes)
      → At p st x
      → read (suc n) st
        ≡ (do rest ← read n (st + length (before x) + 1); done (lossy (before x) ∷ rest))
  unfolding read_rt_names
  read_step n st x a =
      rw (At-drop p st x a, scan_nul-before x st)
        (rw (
          At-slice p st (before x) (since x) (st + length (before x)) (rw (before-append-since x) a)
            refl))

  -- Behind the end of the slice the next round panics.
  read_outside : (n st : ℕ) → length p < st → read (suc n) st ≡ panic
  unfolding read_rt_names
  read_outside n st h =
      let i : ℕ = scan_nul (drop st p) st in
      rw (slice-panic p st i (omega (arith, scan_nul-before (drop st p) st)))

  At-after :
      (k st : ℕ) (x : Bytes)
      → At p st x
      → count_nul x ≡ suc k
      → At p (st + length (before x) + 1) (after x)
  At-after k st x a h =
      let j : ℕ = st + length (before x) in
      let b : At p j (since x) =
        At-skip p st (before x) (since x) j (rw (before-append-since x) a) refl in
      At-skip p j (0 ∷ []) (after x) (j + 1) (rw ((nul_at_since x k h).0) at b) (omega arith)

  -- A name that ends at a NUL, or the last one, leaves enough for the names that follow.
  pub read_rt_names-names :
      (n st : ℕ) (x : Bytes)
      → At p st x
      → n ≤ count_nul x + 1
      → read_rt_names lossy p n st ≡ done (map lossy (names n x))
  read_rt_names-names zero st x a h = unfold read_rt_names in refl
  read_rt_names-names (suc zero) st x a h = read_step 0 st x a ∙ unfold read_rt_names in refl
  read_rt_names-names (suc (suc n)) st x a h = elim (ℕ-cases (count_nul x)) [
    | inl z ↦ absurd (omega arith)
    | inr (k, e) ↦
        read_step (suc n) st x a
        ∙ rw (
            read_rt_names-names (suc n) (st + length (before x) + 1) (after x) (At-after k st x a e)
              (omega (arith, (nul_at_since x k e).1)))
  ]

  pub read_rt_names_panics :
      (n st : ℕ) (x : Bytes) → At p st x → count_nul x + 1 < n → read_rt_names lossy p n st ≡ panic
  read_rt_names_panics zero st x a h = absurd (omega arith)
  read_rt_names_panics (suc zero) st x a h = absurd (omega arith)
  read_rt_names_panics (suc (suc n)) st x a h = elim (ℕ-cases (count_nul x)) [
    | inl z ↦
        read_step (suc n) st x a
        ∙ rw (
            read_outside n (st + length (before x) + 1)
              (omega (arith, At-length p st x a, ap length (no_nul_before x z))))
    | inr (k, e) ↦
        read_step (suc n) st x a
        ∙ rw (
            read_rt_names_panics (suc n) (st + length (before x) + 1) (after x)
              (At-after k st x a e) (omega (arith, (nul_at_since x k e).1)))
  ]
