-- ===== src/Events/Strings.antt =====
-- A JSON string that `esc` of src/events.rs wrote, read back by the rules of JSON.
use afeye.Prelude.{
  ℕ, zero, suc, ◌+◌, ◌*◌, ◌/◌, ◌≤◌, ◌<◌, ◌≡◌, refl, sym, ap, ◌∙◌, true, false, Bool-cases, inl, inr,
  Option, some, none, lt→ltb, lt→leb-false, le→ltb-false, subst, ◌⊎◌, ◌≢◌, ◌-◌, [], ◌∷◌, ◌++◌,
  append_assoc, Bool, ◌&&◌, ◌||◌, ◌%◌, leb, Bytes, length, all_below, all_below-true, ltb, ◌==◌,
  ==_iff, if◌then◌else◌, bit_and, arith,
}
use afeye.Events.{hex_digit, needs_escape, esc_byte, esc_bytes, esc}

-- The value of a hexadecimal digit, in lower or upper case.
abbrev pub hex_value : ℕ → Option ℕ
hex_value c =
    if leb 48 c && leb c 57
    then some (c - 48)
    else if leb 97 c && leb c 102
    then some (c - 87)
    else if leb 65 c && leb c 70
    then some (c - 55)
    else none

abbrev join_digit : Option ℕ → Option ℕ → Option ℕ
join_digit (some n) (some d) = some (16 * n + d)
join_digit (some n) none = none
join_digit none d = none

abbrev pub hex4 : ℕ → ℕ → ℕ → ℕ → Option ℕ
hex4 a b c d =
    join_digit (join_digit (join_digit (hex_value a) (hex_value b)) (hex_value c)) (hex_value d)

-- four hexadecimal digits
abbrev pub read_hex : Bytes → Option (ℕ × Bytes)
read_hex (a ∷ b ∷ c ∷ d ∷ s) = elim (hex4 a b c d) [ none ↦ none | some n ↦ some (n, s) ]
read_hex _ = none

-- a code point in UTF-8
abbrev pub utf8 : ℕ → Bytes
utf8 n =
    if ltb n 0x80
    then n ∷ []
    else if ltb n 0x800
    then (0xC0 + n / 64) ∷ (0x80 + n % 64) ∷ []
    else if ltb n 0x10000
    then (0xE0 + n / 4096) ∷ (0x80 + n / 64 % 64) ∷ (0x80 + n % 64) ∷ []
    else (0xF0 + n / 262144) ∷ (0x80 + n / 4096 % 64) ∷ (0x80 + n / 64 % 64) ∷ (0x80 + n % 64) ∷ []

abbrev is_low : ℕ → Bool
is_low n = leb 0xDC00 n && leb n 0xDFFF

-- The second half of a surrogate pair, behind the first half `high`.
abbrev pub read_low : ℕ → Bytes → Option (Bytes × Bytes)
read_low high (x ∷ y ∷ s) = elim (read_hex s) [
  | none ↦ none
  | some (low, s') ↦
      if x == 92 && (y == b'u' && is_low low)
      then some (utf8 (0x10000 + (high - 0xD800) * 1024 + (low - 0xDC00)), s')
      else none
]
read_low high _ = none

-- `\u`: a code point, or a surrogate pair
abbrev pub read_unit : Bytes → Option (Bytes × Bytes)
read_unit s = elim (read_hex s) [
  | none ↦ none
  | some (n, s') ↦
      if leb 0xD800 n && leb n 0xDBFF
      then read_low n s'
      else if is_low n
      then none
      else some (utf8 n, s')
]

-- What an escape behind the backslash stands for, and what is behind it.
abbrev pub read_escape : Bytes → Option (Bytes × Bytes)
read_escape [] = none
read_escape (e ∷ s) =
    if e == 34 || (e == 92 || e == 47)
    then some (e ∷ [], s)
    else if e == b'b'
    then some (8 ∷ [], s)
    else if e == b'f'
    then some (12 ∷ [], s)
    else if e == b'n'
    then some (10 ∷ [], s)
    else if e == b'r'
    then some (13 ∷ [], s)
    else if e == b't'
    then some (9 ∷ [], s)
    else if e == b'u'
    then read_unit s
    else none

abbrev prepend : Bytes → Option (Bytes × Bytes) → Option (Bytes × Bytes)
prepend c none = none
prepend c (some (t, rest)) = some (c ++ t, rest)

-- The rest of a string behind its first quote, by RFC 8259: the text in UTF-8, and what is behind
-- the last quote. A control character stands in a string as an escape only. Each round takes a byte
-- at least.
unfoldable pub read_string : ℕ → Bytes → Option (Bytes × Bytes)
read_string zero s = none
read_string (suc fuel) [] = none
read_string (suc fuel) (c ∷ s) =
    let plain = prepend (c ∷ []) (read_string fuel s) in
    if c == 34
    then some ([], s)
    else if c == 92
    then elim (read_escape s) [ none ↦ none | some (x, s') ↦ prepend x (read_string fuel s') ]
    else if ltb c 32
    then none
    else plain

-- `esc` writes the codes below 32 with two zeros in front.
abbrev escaped_unit : ℕ → Bytes
escaped_unit c = b'0' ∷ b'0' ∷ hex_digit (c / 16) ∷ hex_digit (bit_and c 15) ∷ []

abbrev escaped_value : ℕ → Option ℕ
escaped_value c = hex4 b'0' b'0' (hex_digit (c / 16)) (hex_digit (bit_and c 15))

abbrev is_value : ℕ → Option ℕ → Bool
is_value c none = false
is_value c (some n) = n == c

control_table : all_below 32 (λ c. is_value c (escaped_value c)) ≡ true
control_table = refl

is_value-some : (c : ℕ) (o : Option ℕ) → is_value c o ≡ true → o ≡ some c
is_value-some c none h = absurd (ground arith)
is_value-some c (some n) h = ap some ((==_iff n c).0 h)

control : (c : ℕ) → c < 32 → escaped_value c ≡ some c
control c h =
    is_value-some c (escaped_value c)
      (all_below-true 32 (λ x. is_value x (escaped_value x)) c control_table h)

ReadsBack : ℕ → Type 0
ReadsBack c =
    (fuel : ℕ) (rest : Bytes)
    → read_string (suc fuel) (esc_byte c ++ rest) ≡ prepend (c ∷ []) (read_string fuel rest)

read_hex-control :
    (c : ℕ) (rest : Bytes) → c < 32 → read_hex (escaped_unit c ++ rest) ≡ some (c, rest)
read_hex-control c rest h =
    ap
      (λ (o : Option ℕ). elim o as (λ _. Option (ℕ × Bytes)) [
        | none ↦ none
        | some n ↦ some (n, rest)
      ])
      (control c h)

read_unit-control :
    (c : ℕ) (rest : Bytes) → c < 32 → read_unit (escaped_unit c ++ rest) ≡ some (c ∷ [], rest)
read_unit-control c rest h =
    rw (read_hex-control c rest h, read_unit)
      (rw
        (
          lt→leb-false 0xD800 c (omega arith),
          lt→leb-false 0xDC00 c (omega arith),
          lt→ltb c 0x80 (omega arith),
        )
        refl)

-- every byte as the match of `esc` splits them
esc_byte-cases :
    (c : ℕ)
    → (c ≡ 34)
      ⊎ ((c ≡ 92)
          ⊎ ((c ≡ 10)
              ⊎ ((c ≡ 13)
                  ⊎ ((c ≡ 9)
                      ⊎ (((c < 32) × (c ≢ 10) × (c ≢ 13) × (c ≢ 9))
                          ⊎ ((32 ≤ c) × (c ≢ 34) × (c ≢ 92)))))))
esc_byte-cases c = ground arith

ne→false : (a b : ℕ) → a ≢ b → (a == b) ≡ false
ne→false a b ne = ground (arith, ne)

esc_byte-ReadsBack : (c : ℕ) → ReadsBack c
unfolding ReadsBack read_string esc_byte
esc_byte-ReadsBack c = elim (esc_byte-cases c) [
  | inl e ↦ subst ReadsBack (sym e) (λ fuel rest. refl)
  | inr (inl e) ↦ subst ReadsBack (sym e) (λ fuel rest. refl)
  | inr (inr (inl e)) ↦ subst ReadsBack (sym e) (λ fuel rest. refl)
  | inr (inr (inr (inl e))) ↦ subst ReadsBack (sym e) (λ fuel rest. refl)
  | inr (inr (inr (inr (inl e)))) ↦ subst ReadsBack (sym e) (λ fuel rest. refl)
  | inr (inr (inr (inr (inr (inl (h, n, r, t)))))) ↦ λ fuel rest. rw (ne→false c 34 (omega arith)) (
      rw (ne→false c 92 (omega arith)) (
        rw (ne→false c 10 n) (
          rw (ne→false c 13 r) (
            rw (ne→false c 9 t) (
              rw (lt→ltb c 32 h) (
                ap
                  (λ (o : Option (Bytes × Bytes)). elim o as (λ _. Option (Bytes × Bytes)) [
                    | none ↦ none
                    | some (x, s') ↦ prepend x (read_string fuel s')
                  ])
                  (read_unit-control c rest h)))))))
  | inr (inr (inr (inr (inr (inr (h, q, b)))))) ↦ λ fuel rest. rw (ne→false c 34 q) (
      rw (ne→false c 92 b) (
        rw (ne→false c 10 (omega arith)) (
          rw (ne→false c 13 (omega arith)) (
            rw (ne→false c 9 (omega arith)) (
              rw (le→ltb-false c 32 h)
                (rw (ne→false c 34 q) (rw (ne→false c 92 b) (rw (le→ltb-false c 32 h) refl))))))))
]

read_string-esc_bytes :
    (fuel : ℕ) (s rest : Bytes)
    → length s < fuel
    → read_string fuel (esc_bytes s ++ (34 ∷ rest)) ≡ some (s, rest)
unfolding esc_bytes read_string ReadsBack
read_string-esc_bytes zero s rest h = absurd (omega arith)
read_string-esc_bytes (suc fuel) [] rest h = refl
read_string-esc_bytes (suc fuel) (c ∷ s) rest h =
    ap (read_string (suc fuel)) (append_assoc (esc_byte c) (esc_bytes s) (34 ∷ rest))
    ∙ (esc_byte-ReadsBack c fuel (esc_bytes s ++ (34 ∷ rest))
        ∙ ap (prepend (c ∷ [])) (read_string-esc_bytes fuel s rest (omega arith)))

-- The short path of `esc` writes what the long one writes.
esc_bytes-plain : (s : Bytes) → needs_escape s ≡ false → esc_bytes s ≡ s
unfolding esc_bytes needs_escape esc_byte
esc_bytes-plain [] h = refl
esc_bytes-plain (c ∷ s) h = ground (arith, esc_bytes-plain s)

pub esc-esc_bytes : (s : Bytes) → esc s ≡ 34 ∷ (esc_bytes s ++ (34 ∷ []))
unfolding esc
esc-esc_bytes s = elim (Bool-cases (needs_escape s)) [
  | inl e ↦ rw e refl
  | inr e ↦ rw e (rw (esc_bytes-plain s e) refl)
]

-- A reader of JSON strings by RFC 8259 reads back every text that `esc` wrote, and stops behind it.
pub read_string-esc :
    (s rest : Bytes)
    → (body : Bytes) × (esc s ++ rest ≡ 34 ∷ body)
      × (read_string (suc (length s)) body ≡ some (s, rest))
read_string-esc s rest = (
  esc_bytes s ++ (34 ∷ rest),
  rw (esc-esc_bytes s) (ap (◌∷◌ 34) (append_assoc (esc_bytes s) (34 ∷ []) rest)),
  read_string-esc_bytes (suc (length s)) s rest (omega arith),
)
