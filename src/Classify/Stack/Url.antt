-- ===== src/Classify/Stack/Url.antt =====
-- `first_stack_url` of src/classify.rs returns.
use afeye.Prelude.{
  ℕ, zero, suc, ◌+◌, ◌≤◌, ◌<◌, ◌≡◌, ap, inl, inr, true, Bool-cases, Option, Option-cases, some,
  none, [], ◌∷◌, ◌++◌, Bytes, length, length-drop, drop, max, codes, ltb, ltb→lt, starts_with,
  Returns, arith,
}
use afeye.Ctx.{split_at, until}
use afeye.Classify.{strip_ln}
use afeye.Classify.Stack.{is_stop, stack_loop, first_stack_url}

-- A url that is found is longer than ten bytes.
abbrev pub IsLong : Option Bytes → Type 0
IsLong none = Unit
IsLong (some u) = 10 < length u

starts_with-length : (s p : Bytes) → starts_with s p ≡ true → length p ≤ length s
starts_with-length s [] h = omega arith
starts_with-length [] (y ∷ p) h = absurd (ground arith)
starts_with-length (x ∷ s) (y ∷ p) h = omega (arith, starts_with-length s p (ground arith))

abbrev behind : Option (Bytes × Bytes) → Bytes
behind none = []
behind (some (a, b)) = b

-- What stands behind the word is shorter than the text by the word.
split_at-length : (p s a b : Bytes) → split_at p s ≡ some (a, b) → length b + length p ≤ length s
unfolding split_at
split_at-length p [] a b h = elim (Bool-cases (starts_with [] p)) [
  | inl q ↦
      let k : some ([], []) ≡ some (a, b) = rw q at h in
      omega (arith, starts_with-length [] p q, ap length (ap behind k))
  | inr q ↦ let k : none ≡ some (a, b) = rw q at h in absurd (cc)
]
split_at-length p (c ∷ s) a b h = elim (Bool-cases (starts_with (c ∷ s) p)) [
  | inl q ↦
      let k : some ([], drop (length p) (c ∷ s)) ≡ some (a, b) = rw q at h in
      omega (
        arith,
        starts_with-length (c ∷ s) p q,
        length-drop (length p) (c ∷ s),
        ap length (ap behind k),
      )
  | inr q ↦ elim (Option-cases (split_at p s)) [
    | inl e ↦ let k : none ≡ some (a, b) = rw (q, e) at h in absurd (cc)
    | inr ((d, f), e) ↦
        let k : some (c ∷ d, f) ≡ some (a, b) = rw (q, e) at h in
        omega (arith, split_at-length p s d f e, ap length (ap behind k))
  ]
]

stack_loop-Returns : (fuel : ℕ) (s : Bytes) → length s < fuel → Returns IsLong (stack_loop fuel s)
unfolding stack_loop
stack_loop-Returns zero s h = absurd (omega arith)
stack_loop-Returns (suc fuel) s h = elim (Option-cases (split_at (codes "http") s)) [
  | inl e ↦ rw (e, stack_loop) tt
  | inr ((a, b), e) ↦
      let rest = codes "http" ++ b in
      let word = until is_stop rest in
      let l = split_at-length (codes "http") s a b e in
      let r =
        stack_loop-Returns fuel (drop (max (length word) 4) rest)
          (omega (arith, l, h, length-drop (max (length word) 4) rest)) in
      elim (Bool-cases (ltb 10 (length (strip_ln word)))) [
        | inl q ↦ rw (e, stack_loop, q) (ltb→lt 10 (length (strip_ln word)) q)
        | inr q ↦ rw (e, stack_loop, q) r
      ]
]

-- On any text `first_stack_url` returns, and the url that it gives is longer than ten bytes.
pub first_stack_url_total : (s : Bytes) → Returns IsLong (first_stack_url s)
unfolding first_stack_url
first_stack_url_total s = stack_loop-Returns (suc (length s)) s (omega arith)
