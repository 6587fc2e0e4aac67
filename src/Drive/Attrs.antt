-- ===== src/Drive/Attrs.antt =====
-- Attributes and the kinds of elements in src/drive.rs.
use afeye.Prelude.{
  ℕ, ◌+◌, ◌*◌, ◌-◌, ◌^◌, Bool, true, false, not, ◌&&◌, ◌||◌, Option, some, none, List, [], ◌∷◌,
  String, Bytes, bytes_eq, one_of, contains_any, lower, codes, leb, ◌==◌, if◌then◌else◌,
}
use afeye.Drive.{
  Kind, text_input, checkbox, radio, select, submit, button, link, trim, submit_words, text_types,
}

-- `eq_ignore_ascii_case`
abbrev pub same_word : Bytes → String → Bool
same_word a b = bytes_eq (lower a) (lower (codes b))

unfoldable pub attr_get : List Bytes → String → Bytes
attr_get [] name = []
attr_get (k ∷ []) name = []
attr_get (k ∷ v ∷ attrs) name =
    let rest = attr_get attrs name in if same_word k name then v else rest

unfoldable pub has_attr : List Bytes → String → Bool
has_attr [] name = false
has_attr (k ∷ []) name = same_word k name
has_attr (k ∷ v ∷ attrs) name = same_word k name || has_attr attrs name

unfoldable pub submit_worded : Bytes → Bool
submit_worded text = contains_any (lower text) submit_words

-- a button, by the words on it
abbrev pub worded : Bytes → Kind
worded text = if submit_worded text then submit else button

abbrev pub input_kind : Bytes → Option Kind
input_kind ty =
    if one_of ty ("checkbox" ∷ [])
    then some checkbox
    else if one_of ty ("radio" ∷ [])
    then some radio
    else if one_of ty ("submit" ∷ "image" ∷ [])
    then some submit
    else if one_of ty ("button" ∷ "reset" ∷ [])
    then some button
    else if one_of ty ("hidden" ∷ "file" ∷ "range" ∷ "color" ∷ [])
    then none
    else if one_of ty text_types
    then some text_input
    else none

abbrev pub role_kind : Bytes → Bytes → Option Kind
role_kind rl text =
    if one_of rl ("button" ∷ [])
    then some (worded text)
    else if one_of rl ("checkbox" ∷ [])
    then some checkbox
    else if one_of rl ("radio" ∷ [])
    then some radio
    else if one_of rl ("textbox" ∷ "combobox" ∷ [])
    then some (if one_of rl ("combobox" ∷ []) then select else text_input)
    else if one_of rl ("link" ∷ [])
    then some link
    else none

unfoldable pub classify : Bytes → Bytes → Bytes → Bytes → Option Kind
unfolding submit_worded
classify tag typ role text =
    let tl = lower tag in
    if one_of tl ("input" ∷ [])
    then input_kind (lower typ)
    else if one_of tl ("textarea" ∷ [])
    then some text_input
    else if one_of tl ("select" ∷ [])
    then some select
    else if one_of tl ("button" ∷ [])
    then some (worded text)
    else if one_of tl ("a" ∷ [])
    then some link
    else role_kind (lower role) text

-- the value of `tabindex`: what follows the first such text
abbrev pub after_tabindex : List Bytes → Option Bytes
after_tabindex [] = none
after_tabindex (k ∷ []) = none
after_tabindex (k ∷ v ∷ attrs) =
    let rest = after_tabindex (v ∷ attrs) in if same_word k "tabindex" then some v else rest

-- decimal digits, from `n` on
abbrev pub digits_from : ℕ → Bytes → Option ℕ
digits_from n [] = some n
digits_from n (c ∷ s) =
    let rest = digits_from (n * 10 + (c - 48)) s in if leb 48 c && leb c 57 then rest else none

abbrev pub up_to : ℕ → Option ℕ → Option ℕ
up_to bound none = none
up_to bound (some n) = if leb n bound then some n else none

-- `parse::<i32>`: whether there is a minus sign, and the number behind it
unfoldable pub parse_i32 : Bytes → Option (Bool × ℕ)
parse_i32 [] = none
parse_i32 (c ∷ s) =
    let signed : ℕ → Option ℕ =
      λ bound. elim s [ [] ↦ none | d ∷ t ↦ up_to bound (digits_from 0 (d ∷ t)) ] in
    let plain = up_to (2 ^ 31 - 1) (digits_from 0 (c ∷ s)) in
    if c == 45
    then elim (signed (2 ^ 31)) [ none ↦ none | some n ↦ some (true, n) ]
    else elim (if c == 43 then signed (2 ^ 31 - 1) else plain) [
      | none ↦ none
      | some n ↦ some (false, n)
    ]

-- `n >= 0`
abbrev pub is_nonneg : Bool × ℕ → Bool
is_nonneg (minus, n) = not minus || n == 0

abbrev pub in_order : Bytes → List Bytes → Bool
in_order tag attrs =
    one_of tag ("input" ∷ "textarea" ∷ "select" ∷ "button" ∷ "a" ∷ "summary" ∷ "label" ∷ [])
    || (has_attr attrs "tabindex" || bytes_eq (attr_get attrs "role") (codes "button"))

unfoldable pub tabbable : Bytes → List Bytes → Bool
unfolding attr_get has_attr parse_i32
tabbable tag attrs =
    if one_of tag ("input" ∷ []) && one_of (lower (attr_get attrs "type")) ("hidden" ∷ [])
    then false
    else if has_attr attrs "disabled"
    then false
    else elim (after_tabindex attrs) [
      | none ↦ in_order tag attrs
      | some ti ↦ elim (parse_i32 (trim ti)) [ none ↦ in_order tag attrs | some n ↦ is_nonneg n ]
    ]

-- `is_inert`
abbrev pub is_inert : Bytes → Bool
is_inert tag = one_of tag ("script" ∷ "style" ∷ "noscript" ∷ [])
