-- ===== src/Drive/Forms/Active.antt =====
-- The form that `active_form` of src/drive.rs chooses.
use afeye.Prelude.{
  ℕ, ◌≤◌, ◌<◌, ◌≡◌, refl, sym, inl, inr, ◌⊎◌, Bool, false, Bool-cases, Option, some, none, List, [],
  ◌∷◌, All, ltb, ◌==◌, if◌then◌else◌, arith, ==_iff, ltb→lt, ltb-false→le, subst,
}
use afeye.Drive.{Field, Walk, no_form, any_field, count_fields}
use afeye.Drive.Forms.{
  insert_form, forms_of, is_text_of, score_of, Best, best_step, best_loop, active_form,
}

-- the enabled text fields of a form
abbrev pub texts_of : List Field → ℕ → ℕ
texts_of fs fid = count_fields (is_text_of fid) fs

-- No form has a score above the best one.
abbrev Covers : List Field → Best → ℕ → Type 0
Covers fs none g = texts_of fs g ≡ 0
Covers fs (some (s, fid)) g = (texts_of fs g ≡ 0) ⊎ (score_of fs g ≤ s)

abbrev AtMost : Best → Best → Type 0
AtMost none b = Unit
AtMost (some a) none = ⊥
AtMost (some (s, fid)) (some (t, gid)) = s ≤ t

abbrev IsOwn : List Field → Best → Type 0
IsOwn fs none = Unit
IsOwn fs (some (s, fid)) = (s ≡ score_of fs fid) × (0 < texts_of fs fid)

Covers-AtMost : (fs : List Field) (a b : Best) (g : ℕ) → AtMost a b → Covers fs a g → Covers fs b g
Covers-AtMost fs none none g h c = c
Covers-AtMost fs none (some b) g h c = inl c
Covers-AtMost fs (some a) none g h c = absurd h
Covers-AtMost fs (some a) (some b) g h (inl c) = inl c
Covers-AtMost fs (some a) (some b) g h (inr c) = inr (omega (arith, c, h))

AtMost-refl : (a : Best) → AtMost a a
AtMost-refl none = tt
AtMost-refl (some a) = omega arith

AtMost-trans : (a b c : Best) → AtMost a b → AtMost b c → AtMost a c
AtMost-trans none b c h k = tt
AtMost-trans (some a) none c h k = absurd h
AtMost-trans (some a) (some b) none h k = absurd k
AtMost-trans (some a) (some b) (some c) h k = omega (arith, h, k)

abbrev Stepped : List Field → ℕ → Best → Best → Type 0
Stepped fs fid a b = IsOwn fs b × AtMost a b × Covers fs b fid

not_zero : {n : ℕ} → (n == 0) ≡ false → 0 < n
not_zero q = ground arith

best_step-Stepped :
    (fs : List Field) (fid : ℕ) (a : Best) → IsOwn fs a → Stepped fs fid a (best_step fs fid a)
unfolding best_step
best_step-Stepped fs fid none o = elim (Bool-cases (texts_of fs fid == 0)) [
  | inl q ↦ rw (best_step, q) (tt, tt, (==_iff (texts_of fs fid) 0).0 q)
  | inr q ↦ rw (best_step, q) ((refl, not_zero q), tt, inr (omega arith))
]
best_step-Stepped fs fid (some (s, g)) o = elim (Bool-cases (texts_of fs fid == 0)) [
  | inl q ↦ rw (best_step, q) (o, omega arith, inl ((==_iff (texts_of fs fid) 0).0 q))
  | inr q ↦ elim (Bool-cases (ltb s (score_of fs fid))) [
    | inl r ↦
        rw (best_step, q, r)
          ((refl, not_zero q), omega (arith, ltb→lt s (score_of fs fid) r), inr (omega arith))
    | inr r ↦ rw (best_step, q, r) (o, omega arith, inr (ltb-false→le s (score_of fs fid) r))
  ]
]

best_loop-Covers :
    (fs : List Field) (forms : List ℕ) (a : Best)
    → IsOwn fs a
    → IsOwn fs (best_loop fs forms a)
      × AtMost a (best_loop fs forms a)
      × All (Covers fs (best_loop fs forms a)) forms
unfolding best_loop
best_loop-Covers fs [] a o = (o, AtMost-refl a, tt)
best_loop-Covers fs (fid ∷ forms) a o =
    let b = best_step fs fid a in
    let (p, m, c) = best_step-Stepped fs fid a o in
    let (q, n, d) = best_loop-Covers fs forms b p in
    (
      q,
      AtMost-trans a b (best_loop fs forms b) m n,
      (Covers-AtMost fs b (best_loop fs forms b) fid n c, d),
    )

All-insert_form : (P : ℕ → Type 0) (n : ℕ) (ms : List ℕ) → All P (insert_form n ms) → P n × All P ms
All-insert_form P n [] (p, h) = (p, tt)
All-insert_form P n (m ∷ ms) h = elim (Bool-cases (ltb n m)) [
  | inl q ↦ let k : P n × (P m × All P ms) = rw q at h in k
  | inr q ↦ elim (Bool-cases (n == m)) [
    | inl r ↦ let k : P m × All P ms = rw (q, r) at h in (subst P (sym ((==_iff n m).0 r)) (k.0), k)
    | inr r ↦
        let k : P m × All P (insert_form n ms) = rw (q, r) at h in
        let (a, b) = All-insert_form P n ms (k.1) in (a, (k.0, b))
  ]
]

forms_cover :
    (P : ℕ → Type 0) (fs : List Field) (g : ℕ) → All P (forms_of fs) → P g ⊎ (texts_of fs g ≡ 0)
unfolding forms_of
forms_cover P [] g h = inr refl
forms_cover P (f ∷ fs) g h =
    let (p, k) = All-insert_form P f.form (forms_of fs) h in
    elim (Bool-cases (f.form == g)) [
      | inl q ↦ inl (subst P ((==_iff f.form g).0 q) p)
      | inr q ↦ elim (forms_cover P fs g k) [
        | inl r ↦ inl r
        | inr z ↦ inr (rw q (omega (arith, z)))
      ]
    ]

-- What `active_form` promises.
abbrev pub IsActive : List Field → Option ℕ → Type 0
IsActive fs none = (g : ℕ) → texts_of fs g ≡ 0
IsActive fs (some fid) =
    (0 < texts_of fs fid) × ((g : ℕ) → 0 < texts_of fs g → score_of fs g ≤ score_of fs fid)

Covers-zero : (fs : List Field) (b : Best) (g : ℕ) → texts_of fs g ≡ 0 → Covers fs b g
Covers-zero fs none g z = z
Covers-zero fs (some b) g z = inl z

any_field-none :
    (p : Field → Bool) (fs : List Field) → count_fields p fs ≡ 0 → any_field p fs ≡ false
any_field-none p [] h = refl
any_field-none p (f ∷ fs) h = ground (arith, any_field-none p fs)

best-IsActive :
    (fs : List Field) (b : Best)
    → IsOwn fs b
    → ((g : ℕ) → Covers fs b g)
    → IsActive fs (elim b [
      | some (s, fid) ↦ some fid
      | none ↦ if any_field (is_text_of no_form) fs then some no_form else none
    ])
best-IsActive fs none o c = rw (any_field-none (is_text_of no_form) fs (c no_form)) c
best-IsActive fs (some (s, fid)) (e, h) c =
    (h, λ g p. elim (c g) [ inl z ↦ absurd (omega (arith, z, p)) | inr l ↦ omega (arith, l, e) ])

-- `active_form` gives a form that has an enabled text field and the highest score of those that
-- have one, and no form exactly when no form has one.
pub active_form-IsActive : (w : Walk) → IsActive w.fields (active_form w)
unfolding active_form
active_form-IsActive w =
    let b = best_loop w.fields (forms_of w.fields) none in
    let (o, _, c) = best_loop-Covers w.fields (forms_of w.fields) none tt in
    best-IsActive w.fields b o (λ g. elim (forms_cover (Covers w.fields b) w.fields g c) [
      | inl d ↦ d
      | inr z ↦ Covers-zero w.fields b g z
    ])
