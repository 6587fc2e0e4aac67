-- ===== src/Drive/Screen.antt =====
-- What is on screen, in src/drive.rs.
pub mod Order
use afeye.Prelude.{
  ℕ, ◌+◌, Bool, true, false, not, ◌&&◌, ◌||◌, Option, some, none, List, [], ◌∷◌, Bytes, contains,
  contains_any, lower, codes, ltb, if◌then◌else◌,
}
use afeye.Drive.{
  Walk, is_widget, is_checkbox, is_textual, is_select, is_submit, any_field, challenge_hosts,
  success_words, error_words, challenge_words,
}
use afeye.Drive.Forms.{active_form}

-- `Screen`
pub data Screen : Type 0 where
  form captcha error success other : Screen

abbrev pub is_challenge_url : Bytes → Bool
is_challenge_url u = contains_any (lower u) challenge_hosts

abbrev pub any_url : List Bytes → Bool
any_url [] = false
any_url (u ∷ us) = is_challenge_url u || any_url us

abbrev pub is_some : Option ℕ → Bool
is_some none = false
is_some (some n) = true

-- `fillable`
unfoldable pub fillable : Walk → Bool
unfolding active_form
fillable w =
    is_some (active_form w)
    && any_field (λ f. not f.disabled && (is_textual f || (is_select f || is_checkbox f.kind)))
        w.fields

-- `screen_of`
unfoldable pub screen_of : Walk → Bool → Screen
unfolding fillable is_widget
screen_of w submitted =
    if (contains w.text (codes "welcome") && contains w.text (codes "dashboard"))
      || contains_any w.text success_words
    then success
    else if submitted && (any_field (λ f. f.invalid) w.fields || contains_any w.text error_words)
    then error
    else if not (fillable w)
        && (any_url w.urls || (any_field is_widget w.fields || contains_any w.text challenge_words))
    then captcha
    else if any_field is_textual w.fields || any_field is_submit w.fields
    then form
    else other

-- the bytes of a character in UTF-8
abbrev pub utf8_size : ℕ → ℕ
utf8_size c = if ltb c 0x80 then 1 else if ltb c 0x800 then 2 else if ltb c 0x10000 then 3 else 4

abbrev pub byte_length : Bytes → ℕ
byte_length [] = 0
byte_length (c ∷ s) = utf8_size c + byte_length s

-- `content_ready`
unfoldable pub content_ready : Walk → Bool
content_ready w = elim w.fields [
  | f ∷ fs ↦ true
  | [] ↦ if any_url w.urls then true else ltb 200 (byte_length w.text)
]
