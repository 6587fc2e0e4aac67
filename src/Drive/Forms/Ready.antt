-- ===== src/Drive/Forms/Ready.antt =====
-- The gate that `form_ready` of src/drive.rs is.
use afeye.Prelude.{
  ℕ, ◌+◌, ◌≡◌, ◌↔◌, refl, sym, inl, inr, ◌⊎◌, Bool, true, false, not, ◌&&◌, ◌||◌, Bool-cases, List,
  [], ◌∷◌, Bytes, All, ◌==◌, if◌then◌else◌, arith, ==_iff,
}
use afeye.Drive.{
  Kind, Field, Walk, is_textual, is_select, is_checkbox, is_consent, is_box, is_text_kind,
  is_select_kind, trim, is_blank,
}
use afeye.Drive.Forms.{has_sig, is_missing, ready_from, form_ready}

-- a field to type into or to choose from, a box to tick
abbrev pub must_fill : Field → Bool
must_fill f = is_textual f || is_select f

abbrev pub must_tick : Field → Bool
must_tick f = is_consent f || is_checkbox f.kind

-- A field to fill was worked on or has a value; a box to tick was worked on or is checked.
abbrev pub IsComplete : List Bytes → Field → Type 0
IsComplete acted f =
    (must_fill f ≡ true → (has_sig f.sig acted ≡ true) ⊎ (is_blank (trim f.value) ≡ false))
    × (must_tick f ≡ true → (has_sig f.sig acted ≡ true) ⊎ (f.checked ≡ true))

tests_iff :
    (same dis fill tick acted blank checked : Bool)
    → (tick ≡ true → fill ≡ false)
    → ((if not same || dis
          then false
          else if fill
          then not acted && blank
          else tick && (not acted && not checked))
        ≡ false)
      ↔ (same ≡ true
          → dis ≡ false
          → (fill ≡ true → (acted ≡ true) ⊎ (blank ≡ false))
            × (tick ≡ true → (acted ≡ true) ⊎ (checked ≡ true)))
tests_iff false dis fill tick acted blank checked h = ((λ _ e. absurd (ground arith)), (λ _. refl))
tests_iff true true fill tick acted blank checked h =
    ((λ _ _ e. absurd (ground arith)), (λ _. refl))
tests_iff true false true tick acted blank checked h = ground arith
tests_iff true false false tick acted blank checked h = ground arith

box_no_fill : (k : Kind) → is_box k ≡ true → (is_text_kind k || is_select_kind k) ≡ false
box_no_fill Kind.text_input h = sym h
box_no_fill Kind.password h = sym h
box_no_fill Kind.select h = sym h
box_no_fill Kind.checkbox h = refl
box_no_fill Kind.radio h = refl
box_no_fill Kind.submit h = refl
box_no_fill Kind.button h = refl
box_no_fill Kind.link h = refl
box_no_fill Kind.widget h = refl

checkbox-is_box : (k : Kind) → is_checkbox k ≡ true → is_box k ≡ true
checkbox-is_box Kind.checkbox h = refl
checkbox-is_box Kind.radio h = refl
checkbox-is_box Kind.text_input h = h
checkbox-is_box Kind.password h = h
checkbox-is_box Kind.select h = h
checkbox-is_box Kind.submit h = h
checkbox-is_box Kind.button h = h
checkbox-is_box Kind.link h = h
checkbox-is_box Kind.widget h = h

tick_no_fill : (f : Field) → must_tick f ≡ true → must_fill f ≡ false
unfolding is_consent
tick_no_fill f h = elim (Bool-cases (is_box f.kind)) [
  | inl q ↦ box_no_fill f.kind q
  | inr q ↦
      let k : is_checkbox f.kind ≡ true = rw (is_consent, q) at h in
      let b = checkbox-is_box f.kind k in absurd (ground arith)
]

is_missing_iff :
    (fid : ℕ) (acted : List Bytes) (f : Field)
    → (is_missing fid acted f ≡ false) ↔ (f.form ≡ fid → f.disabled ≡ false → IsComplete acted f)
unfolding is_missing
is_missing_iff fid acted f =
    let (to, from) =
      tests_iff (f.form == fid) f.disabled (must_fill f) (must_tick f) (has_sig f.sig acted)
        (is_blank (trim f.value)) f.checked (tick_no_fill f) in
    ((λ m e. to m ((==_iff f.form fid).1 e)), (λ c. from (λ e. c ((==_iff f.form fid).0 e))))

ready_from_iff :
    (i fid : ℕ) (acted : List Bytes) (fs : List Field)
    → (ready_from i fid acted fs ≡ [])
      ↔ All (λ f. f.form ≡ fid → f.disabled ≡ false → IsComplete acted f) fs
unfolding ready_from
ready_from_iff i fid acted [] = ((λ _. tt), (λ _. refl))
ready_from_iff i fid acted (f ∷ fs) =
    let (to, from) = is_missing_iff fid acted f in
    let (all, none_left) = ready_from_iff (i + 1) fid acted fs in
    elim (Bool-cases (is_missing fid acted f)) [
      | inl q ↦ rw q ((λ e. absurd (cc)), (λ c. absurd (let m = from (c.0) in ground arith)))
      | inr q ↦ rw q ((λ e. (to q, all e)), (λ c. none_left (c.1)))
    ]

-- `form_ready` reports nothing exactly when every enabled field of the form is complete: text
-- fields and selects were worked on or have a value, checkboxes and consent boxes were worked on
-- or are checked.
pub form_ready_iff :
    (w : Walk) (fid : ℕ) (acted : List Bytes)
    → (form_ready w fid acted ≡ [])
      ↔ All (λ f. f.form ≡ fid → f.disabled ≡ false → IsComplete acted f) w.fields
unfolding form_ready
form_ready_iff w fid acted = ready_from_iff 0 fid acted w.fields
