-- ===== src/Events.antt =====
-- The JSON lines of src/events.rs: `J`, `esc` and the names of kinds. A text is its bytes. A
-- number is written by the `itoa` library, the parameter `format`.
pub mod Strings
mod Tests
use afeye.Prelude.{
  ℕ, zero, suc, ◌+◌, ◌-◌, ◌/◌, min, Bool, true, false, ◌||◌, not, List, [], ◌∷◌, ◌++◌, Bytes,
  length, get_or, codes, ltb, ◌==◌, if◌then◌else◌, bit_and,
}

abbrev pub ext_names : List Bytes
ext_names =
    codes "js"
    ∷ codes "wasm"
    ∷ codes "json"
    ∷ codes "html"
    ∷ codes "css"
    ∷ codes "txt"
    ∷ codes "bin"
    ∷ codes "png"
    ∷ codes "post"
    ∷ codes "jpg"
    ∷ codes "gif"
    ∷ codes "webp"
    ∷ codes "bmp"
    ∷ codes "ico"
    ∷ []

-- `ExtCode::ext`
unfoldable pub ext : ℕ → Bytes
ext code = get_or ext_names (min code (length ext_names - 1)) []

abbrev pub hex_digits : Bytes
hex_digits = codes "0123456789abcdef"

abbrev pub hex_digit : ℕ → ℕ
hex_digit n = get_or hex_digits n 0

-- the test of the short path of `esc`
unfoldable pub needs_escape : Bytes → Bool
needs_escape [] = false
needs_escape (c ∷ cs) = (ltb c 32 || (c == 34 || c == 92)) || needs_escape cs

-- the match on a byte
unfoldable pub esc_byte : ℕ → Bytes
esc_byte c =
    if c == 34
    then 92 ∷ 34 ∷ []
    else if c == 92
    then 92 ∷ 92 ∷ []
    else if c == 10
    then 92 ∷ b'n' ∷ []
    else if c == 13
    then 92 ∷ b'r' ∷ []
    else if c == 9
    then 92 ∷ b't' ∷ []
    else if ltb c 32
    then 92 ∷ b'u' ∷ b'0' ∷ b'0' ∷ hex_digit (c / 16) ∷ hex_digit (bit_and c 15) ∷ []
    else c ∷ []

unfoldable pub esc_bytes : Bytes → Bytes
unfolding esc_byte
esc_bytes [] = []
esc_bytes (c ∷ cs) = esc_byte c ++ esc_bytes cs

-- what `esc` appends to the buffer
unfoldable pub esc : Bytes → Bytes
unfolding needs_escape esc_bytes
esc s = if not (needs_escape s) then 34 ∷ (s ++ (34 ∷ [])) else 34 ∷ (esc_bytes s ++ (34 ∷ []))

unfoldable pub hex32 : Bytes → Bytes
hex32 [] = []
hex32 (c ∷ h) = hex_digit (c / 16) ∷ hex_digit (bit_and c 15) ∷ hex32 h

pub record J : Type 0 where
  pub b : Bytes

abbrev pub put : Bytes → J → J
put s j = record { b = j.b ++ s }

abbrev pub new_line : J
new_line = record { b = [] }

-- `J::open`
unfoldable pub open_line : J → J
open_line j = put (b'{' ∷ []) j

-- A key is written as it is.
unfoldable pub fkey : Bytes → J → J
fkey k j = put (34 ∷ (k ++ (34 ∷ b':' ∷ []))) j

unfoldable pub key : Bytes → J → J
unfolding fkey
key k j = fkey k (put (b',' ∷ []) j)

unfoldable pub u64v : (ℕ → Bytes) → ℕ → J → J
u64v format v j = put (format v) j

unfoldable pub bool : Bool → J → J
bool v j = put (if v then codes "true" else codes "false") j

-- `J::s`
unfoldable pub str : Bytes → J → J
unfolding esc
str v j = put (esc v) j

unfoldable pub hex : Bytes → J → J
unfolding hex32
hex h j = put (34 ∷ (hex32 h ++ (34 ∷ []))) j

unfoldable pub fin : J → Bytes
fin j = j.b ++ (b'}' ∷ [])
