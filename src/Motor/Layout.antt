-- ===== src/Motor/Layout.antt =====
-- The keys of src/motor.rs against the layout of a US keyboard.
use afeye.Prelude.{
  ℕ, ◌+◌, ◌≤◌, ◌<◌, ◌≡◌, refl, Bool, true, not, ◌||◌, List, [], ◌∷◌, String, Bytes, bytes_eq,
  one_of, starts_with, get_or, codes, leb, ◌==◌, ==_iff, if◌then◌else◌, all_below, all_below-true,
  le→leb,
}
use afeye.Motor.{KeyInfo, key_info}

-- the character of a key, and that of the key with shift
abbrev pub us_layout : List (String × ℕ × ℕ)
us_layout =
    ("Period", 46, 62)
    ∷ ("Comma", 44, 60)
    ∷ ("Semicolon", 59, 58)
    ∷ ("Quote", 39, 34)
    ∷ ("Slash", 47, 63)
    ∷ ("Minus", 45, 95)
    ∷ ("Equal", 61, 43)
    ∷ ("BracketLeft", 91, 123)
    ∷ ("BracketRight", 93, 125)
    ∷ ("Backslash", 92, 124)
    ∷ ("Backquote", 96, 126)
    ∷ ("Space", 32, 32)
    ∷ ("Digit0", 48, 41)
    ∷ ("Digit1", 49, 33)
    ∷ ("Digit2", 50, 64)
    ∷ ("Digit3", 51, 35)
    ∷ ("Digit4", 52, 36)
    ∷ ("Digit5", 53, 37)
    ∷ ("Digit6", 54, 94)
    ∷ ("Digit7", 55, 38)
    ∷ ("Digit8", 56, 42)
    ∷ ("Digit9", 57, 40)
    ∷ []

abbrev pub on_key : Bytes → Bool → List (String × ℕ × ℕ) → ℕ
on_key code shift [] = 0
on_key code shift ((name, plain, shifted) ∷ keys) =
    if bytes_eq code (codes name)
    then (if shift then shifted else plain)
    else on_key code shift keys

-- What a keyboard types for a key and its shift.
abbrev pub typed : KeyInfo → ℕ
typed k =
    if starts_with k.code (codes "Key")
    then (if k.shift then get_or k.code 3 0 else get_or k.code 3 0 + 32)
    else on_key k.code k.shift us_layout

-- a character above a digit
abbrev pub is_above_digit : ℕ → Bool
is_above_digit c = one_of (c ∷ []) (")" ∷ "!" ∷ "@" ∷ "#" ∷ "$" ∷ "%" ∷ "^" ∷ "&" ∷ "*" ∷ "(" ∷ [])

abbrev expected : ℕ → ℕ
expected c = if is_above_digit c then 32 else c

abbrev fits : ℕ → Bool
fits c = not (leb 32 c) || typed (key_info c) == expected c

fits_table : all_below 127 fits ≡ true
unfolding key_info
fits_table = refl

-- On a US keyboard the key and the shift of `key_info` type the printable ASCII character that
-- they stand for, but for the ten characters above the digits: for these it is the space bar.
pub typed-key_info :
    (c : ℕ) → 32 ≤ c → c < 127 → typed (key_info c) ≡ (if is_above_digit c then 32 else c)
typed-key_info c h l =
    let f = all_below-true 127 fits c fits_table l in
    let g : leb 32 c ≡ true = le→leb 32 c h in
    (==_iff (typed (key_info c)) (expected c)).0
      (let k : (typed (key_info c) == expected c) ≡ true = rw g at f in k)
