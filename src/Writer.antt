-- ===== src/Writer.antt =====
-- The scanner of batches in src/writer.rs: `skip_ws`, `scan_val` and `scan_arr`, which cut a JSON
-- array into tokens. A loop takes a byte each round, so one round more than the bytes is enough.
-- The test `i < s.len()` and the read `s[i]` are one lookup.
pub mod Tokens
pub mod Batch
mod Tests
use afeye.Prelude.{
  ℕ, zero, suc, ◌+◌, ◌-◌, Bool, true, false, ◌&&◌, ◌||◌, not, Option, some, none, List, [], ◌∷◌,
  ◌++◌, Bytes, length, get_elem?, Outcome, done, panic, stuck, ◌>>=◌, leb, ltb, ◌==◌, if◌then◌else◌,
}

-- The bytes of `a` to `b`.
pub record Tok : Type 0 where
  pub tag : ℕ
  pub a : ℕ
  pub b : ℕ

-- `while i < s.len() && p(s[i]) { i += 1 }`: where it stops
unfoldable pub skip_while : (ℕ → Bool) → ℕ → Bytes → ℕ → Outcome ℕ
skip_while p zero s i = stuck
skip_while p (suc fuel) s i = elim (get_elem? s i) [
  | none ↦ done i
  | some c ↦ let next = skip_while p fuel s (i + 1) in if p c then next else done i
]

abbrev pub is_ws : ℕ → Bool
is_ws c = c == 32 || (c == 9 || (c == 10 || c == 13))

abbrev pub is_number : ℕ → Bool
is_number c = c == 45 || (c == 43 || (c == 46 || (c == 101 || (c == 69 || leb 48 c && leb c 57))))

abbrev pub is_bare : ℕ → Bool
is_bare c = not (c == 44) && (not (c == 93) && not (c == 125))

-- the position behind blanks
unfoldable pub skip_ws : Bytes → ℕ → Outcome ℕ
unfolding skip_while
skip_ws s i = skip_while is_ws (suc (length s)) s i

-- the loop over a string: at its last quote, or at the end
unfoldable pub string_end : ℕ → Bytes → ℕ → Outcome ℕ
string_end zero s i = stuck
string_end (suc fuel) s i = elim (get_elem? s i) [
  | none ↦ done i
  | some c ↦
      let next = string_end fuel s (if c == 92 then i + 2 else i + 1) in
      if c == 34 then done i else next
]

-- the loop over an array or an object, `d` deep; `usize` panics below 0
unfoldable pub nest_loop : ℕ → ℕ → ℕ → ℕ → ℕ → Bytes → ℕ → ℕ → Outcome (Option Tok)
unfolding string_end
nest_loop opening closing tag a zero s i d = stuck
nest_loop opening closing tag a (suc fuel) s i d =
    let deeper = nest_loop opening closing tag a fuel s (i + 1) (d + 1) in
    let out = nest_loop opening closing tag a fuel s (i + 1) (d - 1) in
    let on = nest_loop opening closing tag a fuel s (i + 1) d in
    let text : Outcome (Option Tok) = do
      e ← string_end (suc (length s)) s (i + 1)
      nest_loop opening closing tag a fuel s (e + 1) d
    in elim (get_elem? s i) [
      | none ↦ done none
      | some c ↦
          if c == 34
          then text
          else if c == opening
          then deeper
          else if c == closing
          then (if d == 0
              then panic
              else if d == 1
              then done (some (record { tag = tag; a = a; b = i + 1 }))
              else out)
          else on
    ]

-- A token, if there is one, ends where the scanner stands then.
unfoldable pub scan_val : Bytes → ℕ → Outcome (Option Tok)
unfolding string_end skip_while nest_loop
scan_val s i =
    let fuel : ℕ = suc (length s) in
    let text : Outcome (Option Tok) = do
      e ← string_end fuel s (i + 1)
      done (if ltb e (length s) then some (record { tag = 0; a = i; b = e + 1 }) else none)
    in let number : Outcome (Option Tok) = do
      e ← skip_while is_number fuel s i
      done (some (record { tag = 1; a = i; b = e }))
      in let bare : Outcome (Option Tok) = do
        e ← skip_while is_bare fuel s i
        done (if e == i then none else some (record { tag = 4; a = i; b = e }))
        in elim (get_elem? s i) [
          | none ↦ done none
          | some c ↦
              if c == 34
              then text
              else if c == 45 || leb 48 c && leb c 57
              then number
              else if c == 91
              then nest_loop 91 93 2 i fuel s i 0
              else if c == 123
              then nest_loop 123 125 3 i fuel s i 0
              else bare
        ]

-- the loop of `scan_arr`, from behind the bracket or a comma on
unfoldable pub arr_loop : ℕ → Bytes → ℕ → List Tok → Outcome (Option (List Tok))
unfolding skip_ws scan_val
arr_loop zero s i out = stuck
arr_loop (suc fuel) s i out = do
  j ← skip_ws s i
  let value : Outcome (Option (List Tok)) = do
    t ← scan_val s j
    let behind : Tok → Outcome (Option (List Tok)) = λ tok. (do
      k ← skip_ws s tok.b
      let out' : List Tok = out ++ (tok ∷ [])
      let comma : Outcome (Option (List Tok)) = do
        l ← skip_ws s (k + 1)
        let more = arr_loop fuel s l out'
        elim (get_elem? s l) [ none ↦ done none | some c ↦ if c == 93 then done none else more ]
      elim (get_elem? s k) [
        | none ↦ done none
        | some c ↦ if c == 44 then comma else if c == 93 then done (some out') else done none
      ])
    elim t [ none ↦ done none | some tok ↦ behind tok ]
  elim (get_elem? s j) [ none ↦ done none | some c ↦ if c == 93 then done (some out) else value ]

unfoldable pub scan_arr : Bytes → Outcome (Option (List Tok))
unfolding skip_ws arr_loop
scan_arr s = do
  i ← skip_ws s 0
  elim (get_elem? s i) [
    | none ↦ done none
    | some c ↦ if not (c == 91) then done none else arr_loop (suc (length s)) s (i + 1) []
  ]
