-- ===== src/Drive/Forms.antt =====
-- Which form src/drive.rs drives, and when it may be submitted.
pub mod Active
pub mod Ready
use afeye.Prelude.{
  ℕ, zero, suc, ◌+◌, ◌-◌, ◌*◌, ◌/◌, ◌%◌, ◌^◌, Bool, true, false, not, ◌&&◌, ◌||◌, Option, some,
  none, List, [], ◌∷◌, ◌++◌, String, Bytes, bytes_eq, one_of, contains, contains_any, lower, codes,
  length, ltb, leb, ◌==◌, if◌then◌else◌,
}
use afeye.Drive.{
  Kind, Field, Walk, no_form, hay, is_widget, is_consent, is_checkbox, is_textual, is_select,
  is_submit, any_field, is_blank, count_fields, trim, widget_hints, consent_hints, submit_words,
  text_types, challenge_hosts, success_words, error_words, challenge_words,
}

-- `sort_unstable` and `dedup` of the forms of the fields
abbrev pub insert_form : ℕ → List ℕ → List ℕ
insert_form n [] = n ∷ []
insert_form n (m ∷ ms) =
    let rest = insert_form n ms in
    if ltb n m then n ∷ m ∷ ms else if n == m then m ∷ ms else m ∷ rest

unfoldable pub forms_of : List Field → List ℕ
forms_of [] = []
forms_of (f ∷ fs) = insert_form f.form (forms_of fs)

abbrev pub is_text_of : ℕ → Field → Bool
is_text_of fid f = f.form == fid && (is_textual f && not f.disabled)

abbrev pub is_submit_of : ℕ → Field → Bool
is_submit_of fid f = f.form == fid && (not f.disabled && is_submit f)

-- `score`
unfoldable pub score_of : List Field → ℕ → ℕ
score_of fs fid =
    count_fields (is_text_of fid) fs + (if any_field (is_submit_of fid) fs then 100 else 0)

-- `best`, its score and its form
abbrev pub Best : Type 0
Best = Option (ℕ × ℕ)

abbrev pub beats : ℕ → Best → Bool
beats score none = true
beats score (some (s, fid)) = ltb s score

-- the body of the loop of `active_form`
unfoldable pub best_step : List Field → ℕ → Best → Best
unfolding score_of
best_step fs fid best =
    if count_fields (is_text_of fid) fs == 0
    then best
    else if beats (score_of fs fid) best
    then some (score_of fs fid, fid)
    else best

unfoldable pub best_loop : List Field → List ℕ → Best → Best
unfolding best_step
best_loop fs [] best = best
best_loop fs (fid ∷ forms) best = best_loop fs forms (best_step fs fid best)

-- `active_form`
unfoldable pub active_form : Walk → Option ℕ
unfolding best_loop forms_of
active_form w = elim (best_loop w.fields (forms_of w.fields) none) [
  | some (s, fid) ↦ some fid
  | none ↦ if any_field (is_text_of no_form) w.fields then some no_form else none
]

abbrev pub has_sig : Bytes → List Bytes → Bool
has_sig s [] = false
has_sig s (t ∷ ts) = bytes_eq t s || has_sig s ts

-- the body of the loop of `form_ready`: a field that blocks the submission
unfoldable pub is_missing : ℕ → List Bytes → Field → Bool
unfolding trim is_consent
is_missing fid acted f =
    if not (f.form == fid) || f.disabled
    then false
    else if is_textual f || is_select f
    then not (has_sig f.sig acted) && is_blank (trim f.value)
    else (is_consent f || is_checkbox f.kind) && (not (has_sig f.sig acted) && not f.checked)

unfoldable pub ready_from : ℕ → ℕ → List Bytes → List Field → List ℕ
unfolding is_missing
ready_from i fid acted [] = []
ready_from i fid acted (f ∷ fs) =
    let rest = ready_from (i + 1) fid acted fs in if is_missing fid acted f then i ∷ rest else rest

-- `form_ready`, the places of the fields that block
unfoldable pub form_ready : Walk → ℕ → List Bytes → List ℕ
unfolding ready_from
form_ready w fid acted = ready_from 0 fid acted w.fields
