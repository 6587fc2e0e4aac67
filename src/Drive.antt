-- ===== src/Drive.antt =====
-- The driver of src/drive.rs, as far as it decides: what the controls of a page are, which form is
-- driven, when it may be submitted, and what is on screen. A text is its characters.
mod Tables
pub mod Attrs
pub mod Element
pub mod Dom
pub mod Forms
pub mod Screen
mod Tests
use afeye.Prelude.{
  ℕ, zero, suc, ◌+◌, ◌-◌, ◌*◌, ◌/◌, ◌%◌, ◌^◌, Bool, true, false, not, ◌&&◌, ◌||◌, Option, some,
  none, List, [], ◌∷◌, ◌++◌, String, Bytes, bytes_eq, one_of, contains, contains_any, lower, codes,
  length, ltb, leb, ◌==◌, if◌then◌else◌,
}
pub use Tables.*

-- `Kind`
pub data Kind : Type 0 where
  text_input password checkbox radio select submit button link widget : Kind

-- `usize::MAX`, for a field outside of every form and for no place in the focus order
abbrev pub no_form : ℕ
no_form = 2 ^ 64 - 1

pub record Field : Type 0 where
  pub backend : ℕ
  pub sig : Bytes
  pub kind : Kind
  pub typ : Bytes
  pub name : Bytes
  pub id : Bytes
  pub cls : Bytes
  pub placeholder : Bytes
  pub value : Bytes
  pub text : Bytes
  pub role : Bytes
  pub form : ℕ
  pub tab_index : ℕ
  pub checked : Bool
  pub required : Bool
  pub disabled : Bool
  pub invalid : Bool

-- `Field::hay`
unfoldable pub hay : Field → Bytes
hay f = lower (f.cls ++ (32 ∷ f.id) ++ (32 ∷ f.name) ++ (32 ∷ f.role) ++ (32 ∷ f.text))

abbrev pub is_control : Kind → Bool
is_control checkbox = true
is_control button = true
is_control submit = true
is_control link = true
is_control k = false

abbrev pub is_widget_kind : Kind → Bool
is_widget_kind widget = true
is_widget_kind k = false

-- `Field::is_widget`
unfoldable pub is_widget : Field → Bool
unfolding hay
is_widget f =
    if is_widget_kind f.kind
    then true
    else if not (is_control f.kind)
    then false
    else contains_any (hay f) widget_hints

abbrev pub is_checkbox : Kind → Bool
is_checkbox checkbox = true
is_checkbox k = false

abbrev pub is_box : Kind → Bool
is_box checkbox = true
is_box radio = true
is_box k = false

-- `Field::is_consent`
unfoldable pub is_consent : Field → Bool
unfolding hay
is_consent f = if not (is_box f.kind) then false else contains_any (hay f) consent_hints

abbrev pub is_text_kind : Kind → Bool
is_text_kind text_input = true
is_text_kind password = true
is_text_kind k = false

-- `Field::is_textual`
abbrev pub is_textual : Field → Bool
is_textual f = is_text_kind f.kind

abbrev pub is_select_kind : Kind → Bool
is_select_kind select = true
is_select_kind k = false

-- `Field::is_select`
abbrev pub is_select : Field → Bool
is_select f = is_select_kind f.kind

abbrev pub is_submit_kind : Kind → Bool
is_submit_kind submit = true
is_submit_kind k = false

-- `Field::is_submit`
abbrev pub is_submit : Field → Bool
is_submit f = is_submit_kind f.kind

pub record Walk : Type 0 where
  pub fields : List Field
  pub focusables : List Bytes
  pub forms : List ℕ
  pub text : Bytes
  pub urls : List Bytes

-- `any` over fields
abbrev pub any_field : (Field → Bool) → List Field → Bool
any_field p [] = false
any_field p (f ∷ fs) = p f || any_field p fs

abbrev pub count_fields : (Field → Bool) → List Field → ℕ
count_fields p [] = 0
count_fields p (f ∷ fs) = (if p f then 1 else 0) + count_fields p fs

-- Unicode's White_Space
abbrev pub is_space : ℕ → Bool
is_space c =
    (leb 9 c && leb c 13)
    || (c == 32
        || (c == 0x85
            || (c == 0xA0
                || (c == 0x1680
                    || ((leb 0x2000 c && leb c 0x200A)
                        || (c == 0x2028
                            || (c == 0x2029 || (c == 0x202F || (c == 0x205F || c == 0x3000)))))))))

abbrev pub trim_start : Bytes → Bytes
trim_start [] = []
trim_start (c ∷ s) = if is_space c then trim_start s else c ∷ s

abbrev pub trim_end : Bytes → Bytes
trim_end [] = []
trim_end (c ∷ s) = elim (trim_end s) [ [] ↦ if is_space c then [] else c ∷ [] | d ∷ t ↦ c ∷ d ∷ t ]

-- `trim`
unfoldable pub trim : Bytes → Bytes
trim s = trim_end (trim_start s)

abbrev pub is_blank : Bytes → Bool
is_blank [] = true
is_blank (c ∷ s) = false
