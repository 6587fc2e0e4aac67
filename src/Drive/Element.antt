-- ===== src/Drive/Element.antt =====
-- What the walk of src/drive.rs takes from one element: its field and its place in the focus order.
use afeye.Prelude.{
  ℕ, zero, suc, ◌+◌, ◌/◌, ◌%◌, ◌^◌, Bool, true, false, ◌&&◌, ◌||◌, Option, some, none, List, [],
  ◌∷◌, ◌++◌, Bytes, one_of, contains, lower, codes, starts_with, length, get_elem?, lookup, upsert,
  ltb, ◌==◌, if◌then◌else◌,
}
use afeye.Drive.{Kind, text_input, password, Field, no_form, is_blank}
use afeye.Drive.Attrs.{same_word, attr_get, has_attr, classify, tabbable}

-- what a node says of itself; an absent list of attributes is empty
pub record Head : Type 0 where
  pub backend : ℕ
  pub node_type : ℕ
  pub node_value : Bytes
  pub local_name : Bytes
  pub attributes : List Bytes

-- `WalkCtx`, with the fields of its `Walk`; the innermost form first
pub record WalkCtx : Type 0 where
  pub fields : List Field
  pub focusables : List Bytes
  pub forms : List ℕ
  pub urls : List Bytes
  pub form_stack : List ℕ
  pub ordinals : List (Bytes × ℕ)

-- `position`, or `usize::MAX`
abbrev pub place_from : ℕ → ℕ → List ℕ → ℕ
place_from i b [] = no_form
place_from i b (f ∷ fs) = let rest = place_from (i + 1) b fs in if f == b then i else rest

-- the form of a field
abbrev pub form_of : WalkCtx → ℕ
form_of ctx = elim ctx.form_stack [ [] ↦ no_form | b ∷ bs ↦ place_from 0 b ctx.forms ]

-- the decimal digits of a number of 64 bits, which are 20 at most
abbrev pub decimal_from : ℕ → ℕ → Bytes → Bytes
decimal_from zero n s = s
decimal_from (suc fuel) n s =
    let digit = 48 + n % 10 in
    let rest = decimal_from fuel (n / 10) (digit ∷ s) in if ltb n 10 then digit ∷ s else rest

unfoldable pub decimal : ℕ → Bytes
decimal n = decimal_from 20 n []

abbrev pub or_zero : Option ℕ → ℕ
or_zero none = 0
or_zero (some n) = n

-- the ordinal of a key, and the counters behind it
unfoldable pub next_ordinal : Bytes → WalkCtx → ℕ × WalkCtx
unfolding lookup upsert
next_ordinal key ctx = (
  or_zero (lookup key ctx.ordinals),
  record ctx { ordinals = upsert key 0 (λ n. (n + 1) % 2 ^ 32) ctx.ordinals },
)

-- the url of a frame
unfoldable pub add_url : Bytes → List Bytes → WalkCtx → WalkCtx
unfolding attr_get
add_url tag attrs ctx =
    let v = attr_get attrs "src" in
    if one_of tag ("iframe" ∷ "frame" ∷ "object" ∷ "embed" ∷ []) && starts_with v (codes "http")
    then record ctx { urls = ctx.urls ++ (v ∷ []) }
    else ctx

abbrev pub is_form : Bytes → Bool
is_form tag = one_of tag ("form" ∷ [])

unfoldable pub push_form : Head → Bytes → WalkCtx → WalkCtx
push_form h tag ctx =
    if is_form tag
    then record ctx {
      forms = ctx.forms ++ (h.backend ∷ []);
      form_stack = h.backend ∷ ctx.form_stack;
    }
    else ctx

unfoldable pub is_hidden : List Bytes → Bool
unfolding attr_get has_attr
is_hidden attrs =
    let style = lower (attr_get attrs "style") in
    has_attr attrs "hidden"
    || (contains style (codes "display:none")
        || (contains style (codes "display: none")
            || (contains style (codes "visibility:hidden")
                || contains style (codes "visibility: hidden"))))

-- `sig`
unfoldable pub sig_of : Bytes → List Bytes → ℕ → Bytes
unfolding attr_get decimal
sig_of tag attrs ordinal =
    let name = attr_get attrs "name" in
    let id = attr_get attrs "id" in
    let typ = lower (attr_get attrs "type") in
    if is_blank name && is_blank id
    then tag ++ (58 ∷ typ) ++ (58 ∷ decimal ordinal) ++ (58 ∷ attr_get attrs "placeholder")
    else name ++ (58 ∷ id) ++ (58 ∷ typ)

abbrev pub is_input : Kind → Bool
is_input text_input = true
is_input k = false

-- a text input of type `password`
abbrev pub kind_of : Kind → Bytes → Kind
kind_of k typ = if is_input k && same_word typ "password" then password else k

unfoldable pub field_of : Head → Bytes → Kind → ℕ → ℕ → Field
unfolding attr_get has_attr sig_of
field_of h tag k fid ordinal =
    let attrs = h.attributes in
    let typ = attr_get attrs "type" in
    let cls = attr_get attrs "class" in
    record {
      backend = h.backend;
      sig = sig_of tag attrs ordinal;
      kind = kind_of k typ;
      typ = lower typ;
      name = attr_get attrs "name";
      id = attr_get attrs "id";
      cls = cls;
      placeholder = attr_get attrs "placeholder";
      value = attr_get attrs "value";
      text = attr_get attrs "aria-label";
      role = attr_get attrs "role";
      form = fid;
      tab_index = no_form;
      checked = has_attr attrs "checked" || same_word (attr_get attrs "aria-checked") "true";
      required = has_attr attrs "required" || same_word (attr_get attrs "aria-required") "true";
      disabled =
          has_attr attrs "disabled"
          || (same_word (attr_get attrs "aria-disabled") "true" || has_attr attrs "readonly");
      invalid =
          same_word (attr_get attrs "aria-invalid") "true"
          || (contains (lower cls) (codes "error") || has_attr attrs "data-invalid");
    }

-- `recorded`, the place of the field among the fields
unfoldable pub record_field : Head → Bytes → WalkCtx → Option ℕ × WalkCtx
unfolding classify attr_get is_hidden next_ordinal field_of decimal
record_field h tag ctx =
    let attrs = h.attributes in
    let typ = attr_get attrs "type" in
    elim (classify tag typ (attr_get attrs "role") (attr_get attrs "aria-label")) [
      | none ↦ (none, ctx)
      | some k ↦
          let (ordinal, ctx') =
            next_ordinal (tag ++ (124 ∷ lower typ) ++ (124 ∷ decimal (form_of ctx))) ctx in
          if is_hidden attrs then (none, ctx) else (
            some (length ctx.fields),
            record ctx' { fields = ctx.fields ++ (field_of h tag k (form_of ctx) ordinal ∷ []) },
          )
    ]

abbrev pub sig_at : Option Field → Bytes
sig_at none = []
sig_at (some f) = f.sig

-- the place in the focus order
unfoldable pub add_focusable : Head → Bytes → Option ℕ → WalkCtx → WalkCtx
unfolding tabbable next_ordinal decimal
add_focusable h tag recorded ctx =
    let place = decimal (length ctx.focusables) in
    let (ordinal, ctx') = next_ordinal (codes "nav|" ++ tag ++ (124 ∷ place)) ctx in
    if tabbable tag h.attributes
    then elim recorded [
      | some i ↦ record ctx {
        focusables = ctx.focusables ++ (sig_at (get_elem? ctx.fields i) ∷ []);
      }
      | none ↦ record ctx' {
        focusables =
            ctx.focusables
            ++ ((codes "nav:" ++ tag ++ (58 ∷ place) ++ (58 ∷ decimal ordinal)) ∷ []);
      }
    ]
    else ctx
