-- ===== src/Drive/Screen/Order.antt =====
-- `screen_of` of src/drive.rs sees a challenge only where nothing is left to fill.
use afeye.Prelude.{
  ℕ, ◌+◌, ◌<◌, ◌≡◌, ◌≢◌, refl, inl, inr, Bool, true, false, not, ◌&&◌, ◌||◌, Bool-cases, Option,
  some, none, List, [], ◌∷◌, contains, contains_any, codes, if◌then◌else◌, arith,
}
use afeye.Drive.{
  Field, Walk, any_field, is_textual, is_select, is_checkbox, is_submit, is_widget, success_words,
  error_words, challenge_words,
}
use afeye.Drive.Forms.{is_text_of, active_form}
use afeye.Drive.Forms.Active.{texts_of, IsActive, active_form-IsActive}
use afeye.Drive.Screen.{form, captcha, error, success, other, is_some, any_url, fillable, screen_of}

active_form-is_some :
    (fs : List Field) (o : Option ℕ) (g : ℕ) → IsActive fs o → 0 < texts_of fs g → is_some o ≡ true
active_form-is_some fs none g h p = absurd (omega (arith, h g, p))
active_form-is_some fs (some fid) g h p = refl

abbrev can_fill : Field → Bool
can_fill f = not f.disabled && (is_textual f || (is_select f || is_checkbox f.kind))

text-can_fill : (fs : List Field) (g : ℕ) → 0 < texts_of fs g → any_field can_fill fs ≡ true
text-can_fill [] g p = absurd (omega (arith, p))
text-can_fill (f ∷ fs) g p = elim (Bool-cases (is_text_of g f)) [
  | inl q ↦ ground arith
  | inr q ↦
      let k : 0 + texts_of fs g ≡ texts_of (f ∷ fs) g = rw q refl in
      let r = text-can_fill fs g (omega (arith, k, p)) in ground arith
]

and_true : {a b : Bool} → a ≡ true → b ≡ true → (a && b) ≡ true
and_true p q = rw (p, q) refl

no_captcha :
    (a b d e : Bool)
    → (if a
        then success
        else if b
        then error
        else if not true && d
        then captcha
        else if e
        then form
        else other)
      ≢ captcha
no_captcha true b d e = λ h. absurd (cc)
no_captcha false true d e = λ h. absurd (cc)
no_captcha false false d true = λ h. absurd (cc)
no_captcha false false d false = λ h. absurd (cc)

-- While some form has an enabled text field, `screen_of` does not see a challenge.
pub screen_of-fillable :
    (w : Walk) (submitted : Bool) (g : ℕ)
    → 0 < texts_of w.fields g
    → screen_of w submitted ≢ captcha
unfolding screen_of fillable
screen_of-fillable w submitted g p =
    let q : fillable w ≡ true =
      and_true (active_form-is_some w.fields (active_form w) g (active_form-IsActive w) p)
        (text-can_fill w.fields g p) in
    rw q (
      no_captcha
        ((contains w.text (codes "welcome") && contains w.text (codes "dashboard"))
          || contains_any w.text success_words)
        (submitted && (any_field (λ f. f.invalid) w.fields || contains_any w.text error_words))
        (any_url w.urls || (any_field is_widget w.fields || contains_any w.text challenge_words))
        (any_field is_textual w.fields || any_field is_submit w.fields))
