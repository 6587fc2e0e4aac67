-- ===== src/Classify/Taint.antt =====
-- `body_taint_hits` of src/classify.rs counts the tokens of a body that are tainted.
use afeye.Prelude.{
  ℕ, ◌+◌, ◌≡◌, refl, sym, ap, ◌∙◌, Bool, ◌&&◌, Bool-cases, inl, inr, List, [], ◌∷◌, ◌++◌, Bytes,
  length, length-append, take, min, leb, if◌then◌else◌, arith,
}
use afeye.Classify.{
  is_token_byte, fnv_step, fnv_start, fnv_from, fnv32, taint_loop, body_taint_hits,
}

-- The text between the bytes that are in no token; `front` is what stands in front.
unfoldable pub tokens : Bytes → Bytes → List Bytes
tokens front [] = front ∷ []
tokens front (c ∷ b) = if is_token_byte c then tokens (front ++ (c ∷ [])) b else front ∷ tokens [] b

abbrev pub is_hit : (ℕ → Bool) → Bytes → Bool
is_hit taint t = leb 3 (length t) && taint (fnv32 t)

unfoldable pub count_hits : (ℕ → Bool) → List Bytes → ℕ
count_hits taint [] = 0
count_hits taint (t ∷ ts) = (if is_hit taint t then 1 else 0) + count_hits taint ts

fnv_from-append :
    (h : ℕ) (a : Bytes) (c : ℕ) → fnv_from h (a ++ (c ∷ [])) ≡ fnv_step (fnv_from h a) c
unfolding fnv_from
fnv_from-append h [] c = refl
fnv_from-append h (d ∷ a) c = fnv_from-append (fnv_step h d) a c

fnv32-append : (a : Bytes) (c : ℕ) → fnv32 (a ++ (c ∷ [])) ≡ fnv_step (fnv32 a) c
unfolding fnv32
fnv32-append a c = fnv_from-append fnv_start a c

fnv32-empty : fnv32 [] ≡ fnv_start
unfolding fnv32 fnv_from
fnv32-empty = refl

abbrev counted : (ℕ → Bool) → Bytes → ℕ → ℕ
counted taint t n = if is_hit taint t then n + 1 else n

taint_loop-count_hits :
    (taint : ℕ → Bool) (b front : Bytes) (n : ℕ)
    → taint_loop taint (b ++ (32 ∷ [])) (fnv32 front) (length front) n
      ≡ n + count_hits taint (tokens front b)
unfolding taint_loop count_hits tokens
taint_loop-count_hits taint [] front n = ground arith
taint_loop-count_hits taint (c ∷ b) front n = elim (Bool-cases (is_token_byte c)) [
  | inl q ↦
      let h : fnv32 (front ++ (c ∷ [])) ≡ fnv_step (fnv32 front) c = fnv32-append front c in
      let l : length (front ++ (c ∷ [])) ≡ length front + 1 =
        omega (arith, length-append front (c ∷ [])) in
      rw q (
        ap (λ x. taint_loop taint (b ++ (32 ∷ [])) x (length front + 1) n) (sym h)
        ∙ (ap (λ x. taint_loop taint (b ++ (32 ∷ [])) (fnv32 (front ++ (c ∷ []))) x n) (sym l)
            ∙ taint_loop-count_hits taint b (front ++ (c ∷ [])) n))
  | inr q ↦ rw q (
      ap (λ x. taint_loop taint (b ++ (32 ∷ [])) x 0 (counted taint front n)) (sym fnv32-empty)
      ∙ (taint_loop-count_hits taint b [] (counted taint front n) ∙ ground arith))
]

-- The hits are the tokens of three bytes or more, among the first 4096 bytes, whose hash is
-- tainted.
pub body_taint_hits-count_hits :
    (b : Bytes) (taint : ℕ → Bool)
    → body_taint_hits b taint ≡ count_hits taint (tokens [] (take (min (length b) 4096) b))
unfolding body_taint_hits
body_taint_hits-count_hits b taint =
    ap (λ h. taint_loop taint (take (min (length b) 4096) b ++ (32 ∷ [])) h 0 0) (sym fnv32-empty)
    ∙ (taint_loop-count_hits taint (take (min (length b) 4096) b) [] 0 ∙ omega arith)
