-- ===== src/Classify/Stack.antt =====
-- The urls of stacks in src/classify.rs.
pub mod Url
use afeye.Prelude.{
  ℕ, zero, suc, Bool, Option, some, none, List, [], ◌∷◌, ◌++◌, Bytes, length, drop, max, codes,
  Outcome, done, stuck, ltb, ◌==◌, if◌then◌else◌,
}
use afeye.Ctx.{split_at, until, split_last}
use afeye.Classify.{strip_ln, member}

-- `matches!(b[e], b')' | b' ' | …)`
abbrev pub is_stop : ℕ → Bool
is_stop c = member c (41 ∷ 32 ∷ 10 ∷ 34 ∷ 59 ∷ 44 ∷ 39 ∷ 125 ∷ 92 ∷ [])

-- `s` is what is left of the text. The source slices its `str` where `http` begins, and at a stop
-- byte of ASCII or the end, which are ends of characters.
unfoldable pub stack_loop : ℕ → Bytes → Outcome (Option Bytes)
unfolding split_at until strip_ln
stack_loop zero s = stuck
stack_loop (suc fuel) s = elim (split_at (codes "http") s) [
  | none ↦ done none
  | some (front, back) ↦
      let rest = codes "http" ++ back in
      let word = until is_stop rest in
      let later = stack_loop fuel (drop (max (length word) 4) rest) in
      if ltb 10 (length (strip_ln word)) then done (some (strip_ln word)) else later
]

unfoldable pub first_stack_url : Bytes → Outcome (Option Bytes)
unfolding stack_loop
first_stack_url s = stack_loop (suc (length s)) s

-- `split`
unfoldable pub split_on : ℕ → Bytes → List Bytes
split_on c [] = [] ∷ []
split_on c (x ∷ s) =
    let rest = split_on c s in
    if x == c
    then [] ∷ rest
    else elim rest [ [] ↦ (x ∷ []) ∷ [] | part ∷ parts ↦ (x ∷ part) ∷ parts ]

unfoldable pub cdp_parts : List Bytes → List Bytes
unfolding split_last strip_ln
cdp_parts [] = []
cdp_parts (part ∷ parts) =
    let rest = cdp_parts parts in
    elim (split_last 64 part) [
      | none ↦ rest
      | some (a, b) ↦ if ltb 10 (length (strip_ln b)) then strip_ln b ∷ rest else rest
    ]

unfoldable pub parse_cdp_stack : Bytes → List Bytes
unfolding cdp_parts split_on
parse_cdp_stack s = cdp_parts (split_on 59 s)
