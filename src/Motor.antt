-- ===== src/Motor.antt =====
-- The key table of src/motor.rs. A character is its number.
pub mod Layout
mod Tests
use afeye.Prelude.{
  ℕ, ◌+◌, ◌-◌, Bool, true, false, not, ◌&&◌, Option, some, none, List, [], ◌∷◌, ◌++◌, String, Bytes,
  bytes_eq, codes, leb, ◌==◌, if◌then◌else◌,
}

pub record KeyInfo : Type 0 where
  pub code : Bytes
  pub vk : ℕ
  pub shift : Bool
  pub location : ℕ

-- `to_ascii_lowercase` of a character
abbrev pub lower_char : ℕ → ℕ
lower_char c = if leb 65 c && leb c 90 then c + 32 else c

-- the punctuation of `key_info`
abbrev pub punctuation : List (ℕ × String × ℕ × Bool)
punctuation =
    (32, "Space", 32, false)
    ∷ (46, "Period", 190, false)
    ∷ (62, "Period", 190, true)
    ∷ (44, "Comma", 188, false)
    ∷ (60, "Comma", 188, true)
    ∷ (59, "Semicolon", 186, false)
    ∷ (58, "Semicolon", 186, true)
    ∷ (39, "Quote", 222, false)
    ∷ (34, "Quote", 222, true)
    ∷ (47, "Slash", 191, false)
    ∷ (63, "Slash", 191, true)
    ∷ (45, "Minus", 189, false)
    ∷ (95, "Minus", 189, true)
    ∷ (61, "Equal", 187, false)
    ∷ (43, "Equal", 187, true)
    ∷ (91, "BracketLeft", 219, false)
    ∷ (123, "BracketLeft", 219, true)
    ∷ (93, "BracketRight", 221, false)
    ∷ (125, "BracketRight", 221, true)
    ∷ (92, "Backslash", 220, false)
    ∷ (124, "Backslash", 220, true)
    ∷ (96, "Backquote", 192, false)
    ∷ (126, "Backquote", 192, true)
    ∷ (9, "Tab", 9, false)
    ∷ (10, "Enter", 13, false)
    ∷ (13, "Enter", 13, false)
    ∷ []

-- the characters above the digits, in the branch of the digits
abbrev pub above_digits : List (ℕ × ℕ)
above_digits =
    (41, 48)
    ∷ (33, 49)
    ∷ (64, 50)
    ∷ (35, 51)
    ∷ (36, 52)
    ∷ (37, 53)
    ∷ (94, 54)
    ∷ (38, 55)
    ∷ (42, 56)
    ∷ (40, 57)
    ∷ []

abbrev pub digit_of : ℕ → List (ℕ × ℕ) → ℕ × Bool
digit_of c [] = (c, false)
digit_of c ((a, d) ∷ rest) = let below = digit_of c rest in if a == c then (d, true) else below

abbrev pub key_in : ℕ → List (ℕ × String × ℕ × Bool) → KeyInfo
key_in c [] = record { code = codes "Space"; vk = 32; shift = false; location = 0 }
key_in c ((a, name, v, s) ∷ rest) =
    let below = key_in c rest in
    if a == c then record { code = codes name; vk = v; shift = s; location = 0 } else below

unfoldable pub key_info : ℕ → KeyInfo
key_info c =
    let lower = lower_char c in
    if leb 97 lower && leb lower 122
    then record {
      code = codes "Key" ++ ((lower - 32) ∷ []);
      vk = lower - 97 + 65;
      shift = not (c == lower);
      location = 0;
    }
    else if leb 48 c && leb c 57
    then (let (d, shift) = digit_of c above_digits in
        record { code = codes "Digit" ++ (d ∷ []); vk = d; shift = shift; location = 0 })
    else key_in c punctuation

-- `named_key`: key, code, virtual key, text and location
abbrev pub NamedKey : Type 0
NamedKey = String × String × ℕ × Option ℕ × ℕ

abbrev pub named_keys : List (String × NamedKey)
named_keys =
    ("Tab", ("Tab", "Tab", 9, none, 0))
    ∷ ("Enter", ("Enter", "Enter", 13, some 13, 0))
    ∷ ("Backspace", ("Backspace", "Backspace", 8, none, 0))
    ∷ ("Escape", ("Escape", "Escape", 27, none, 0))
    ∷ ("ArrowDown", ("ArrowDown", "ArrowDown", 40, none, 0))
    ∷ ("ArrowUp", ("ArrowUp", "ArrowUp", 38, none, 0))
    ∷ ("ArrowLeft", ("ArrowLeft", "ArrowLeft", 37, none, 0))
    ∷ ("ArrowRight", ("ArrowRight", "ArrowRight", 39, none, 0))
    ∷ ("Home", ("Home", "Home", 36, none, 0))
    ∷ ("End", ("End", "End", 35, none, 0))
    ∷ ("ShiftLeft", ("Shift", "ShiftLeft", 16, none, 1))
    ∷ ("ShiftRight", ("Shift", "ShiftRight", 16, none, 2))
    ∷ []

abbrev pub named_in : Bytes → List (String × NamedKey) → NamedKey
named_in name [] = ("Tab", "Tab", 9, none, 0)
named_in name ((n, k) ∷ rest) = if bytes_eq name (codes n) then k else named_in name rest

unfoldable pub named_key : Bytes → NamedKey
named_key name = named_in name named_keys
