-- ===== src/Drive/Tests.antt =====
-- Small pages for src/drive.rs, and its theorems at concrete inputs.
use afeye.Prelude.{
  ◌≡◌, ◌≢◌, ◌↔◌, ◌<◌, refl, false, some, List, [], ◌∷◌, Bytes, codes, All, arith, lookup, upsert,
}
use afeye.Drive.{text_input, Field, Walk, hay, is_consent, trim}
use afeye.Drive.Attrs.{attr_get, has_attr, classify, submit_worded, tabbable, parse_i32}
use afeye.Drive.Forms.{
  forms_of, active_form, best_loop, best_step, score_of, form_ready, ready_from, is_missing,
}
use afeye.Drive.Forms.Active.{texts_of, IsActive, active_form-IsActive}
use afeye.Drive.Forms.Ready.{IsComplete, form_ready_iff}
use afeye.Drive.Screen.{captcha, screen_of}
use afeye.Drive.Screen.Order.{screen_of-fillable}
use afeye.Drive.Element.{
  Head, WalkCtx, next_ordinal, add_url, push_form, is_hidden, sig_of, field_of, record_field,
  add_focusable, decimal,
}
use afeye.Drive.Dom.{Node, node, nil, cons, absent, walk, scan, enter, leave, label, text_of}
use afeye.Drive.Dom.Balance.{Kept, walk-Kept}

abbrev head : Bytes → List Bytes → Head
head tag attrs = record {
  backend = 7;
  node_type = 1;
  node_value = [];
  local_name = tag;
  attributes = attrs;
}

abbrev leaf : Bytes → List Bytes → Node
leaf tag attrs = node (head tag attrs) nil absent nil

abbrev words : Bytes → Node
words s =
    node (record { backend = 8; node_type = 3; node_value = s; local_name = []; attributes = [] })
      nil absent nil

-- a form with a text field and a button with the words `Sign up`
abbrev page : Node
page =
    node (head (codes "form") [])
      (cons (leaf (codes "INPUT") (codes "name" ∷ codes "login" ∷ [])) (
        cons (node (head (codes "button") []) (cons (words (codes " Sign up ")) nil) absent nil)
          nil))
      absent nil

abbrev start : WalkCtx
start = record {
  fields = [];
  focusables = [];
  forms = [];
  urls = [];
  form_stack = [];
  ordinals = [];
}

page_text : (scan page).text ≡ codes "sign up "
unfolding scan walk enter leave add_url push_form record_field add_focusable classify attr_get
    has_attr is_hidden next_ordinal field_of sig_of label tabbable submit_worded text_of trim
    parse_i32 decimal lookup upsert
page_text = refl

page_form : active_form (scan page) ≡ some 0
unfolding scan walk enter leave add_url push_form record_field add_focusable classify attr_get
    has_attr is_hidden next_ordinal field_of sig_of label tabbable submit_worded text_of trim
    parse_i32 decimal lookup upsert active_form forms_of best_loop best_step score_of
page_form = refl

-- the text field is not filled
page_missing : form_ready (scan page) 0 [] ≡ 0 ∷ []
unfolding scan walk enter leave add_url push_form record_field add_focusable classify attr_get
    has_attr is_hidden next_ordinal field_of sig_of label tabbable submit_worded text_of trim
    parse_i32 decimal lookup upsert form_ready ready_from is_missing is_consent hay
page_missing = refl

page_focus : (scan page).focusables ≡ codes "login::" ∷ codes "button::0:" ∷ []
unfolding scan walk enter leave add_url push_form record_field add_focusable classify attr_get
    has_attr is_hidden next_ordinal field_of sig_of label tabbable submit_worded text_of trim
    parse_i32 decimal lookup upsert
page_focus = refl

walk-Kept_example : Kept start (walk page 0 start).1
walk-Kept_example = walk-Kept page 0 start

abbrev login : Field
login = record {
  backend = 7;
  sig = codes "login::";
  kind = text_input;
  typ = [];
  name = codes "login";
  id = [];
  cls = [];
  placeholder = [];
  value = [];
  text = [];
  role = [];
  form = 0;
  tab_index = 0;
  checked = false;
  required = false;
  disabled = false;
  invalid = false;
}

abbrev seen_page : Walk
seen_page = record {
  fields = login ∷ [];
  focusables = login.sig ∷ [];
  forms = 7 ∷ [];
  text = codes "verify you are human";
  urls = [];
}

active_form-IsActive_example : IsActive seen_page.fields (active_form seen_page)
active_form-IsActive_example = active_form-IsActive seen_page

form_ready_iff_example :
    (form_ready seen_page 0 (login.sig ∷ []) ≡ [])
    ↔ All (λ f. f.form ≡ 0 → f.disabled ≡ false → IsComplete (login.sig ∷ []) f) seen_page.fields
form_ready_iff_example = form_ready_iff seen_page 0 (login.sig ∷ [])

one_text : 0 < texts_of seen_page.fields 0
one_text = omega arith

screen_of-fillable_example : screen_of seen_page false ≢ captcha
screen_of-fillable_example = screen_of-fillable seen_page false 0 one_text
