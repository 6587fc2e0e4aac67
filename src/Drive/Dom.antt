-- ===== src/Drive/Dom.antt =====
-- The walk over the document tree in src/drive.rs.
pub mod Balance
use afeye.Prelude.{
  ℕ, zero, suc, ◌+◌, ◌*◌, ◌-◌, ◌/◌, ◌%◌, ◌^◌, Bool, true, false, not, ◌&&◌, ◌||◌, Option, some,
  none, List, [], ◌∷◌, ◌++◌, String, Bytes, bytes_eq, one_of, map, contains, lower, codes,
  starts_with, length, get_elem?, take, lookup, upsert, ltb, leb, ◌==◌, if◌then◌else◌,
}
use afeye.Drive.{Kind, text_input, password, button, submit, Field, Walk, no_form, trim, is_blank}
use afeye.Drive.Attrs.{same_word, attr_get, has_attr, classify, submit_worded, tabbable, is_inert}
use afeye.Drive.Element.{
  Head, WalkCtx, place_from, form_of, decimal_from, decimal, or_zero, next_ordinal, add_url,
  is_form, push_form, is_hidden, sig_of, is_input, kind_of, field_of, record_field, sig_at,
  add_focusable,
}

-- `Node` of the DevTools protocol: the children, the document of a frame, and the shadow roots;
-- an absent list is empty.
mutual
  pub data Node : Type 0 where
    node : Head → Nodes → Document → Nodes → Node

  pub data Nodes : Type 0 where
    nil : Nodes
    cons : Node → Nodes → Nodes

  pub data Document : Type 0 where
    absent : Document
    present : Node → Document

-- what `walk` does before it descends
unfoldable pub enter : Head → Bytes → WalkCtx → Option ℕ × WalkCtx
unfolding add_url push_form record_field add_focusable
enter h tag ctx =
    let (recorded, ctx') = record_field h tag (push_form h tag (add_url tag h.attributes ctx)) in
    (recorded, add_focusable h tag recorded ctx')

abbrev pub is_button : Kind → Bool
is_button button = true
is_button k = false

-- the visible label of a field without one
unfoldable pub label : Bytes → Field → Field
unfolding trim submit_worded
label text f =
    let t = take 64 (trim text) in
    if is_blank f.text && not (is_blank (trim text))
    then record f {
      text = t;
      kind = if is_button f.kind && submit_worded t then submit else f.kind;
    }
    else f

abbrev pub change_at : ℕ → (Field → Field) → List Field → List Field
change_at i g [] = []
change_at zero g (f ∷ fs) = g f ∷ fs
change_at (suc i) g (f ∷ fs) = f ∷ change_at i g fs

abbrev pub behind_first : List ℕ → List ℕ
behind_first [] = []
behind_first (b ∷ bs) = bs

-- what `walk` does behind the descent
unfoldable pub leave : Bytes → Option ℕ → Bytes → WalkCtx → WalkCtx
unfolding label
leave tag recorded text ctx =
    let fields : List Field = elim recorded [
      | none ↦ ctx.fields
      | some i ↦ change_at i (label text) ctx.fields
    ] in
    record ctx {
      fields = fields;
      form_stack = if is_form tag then behind_first ctx.form_stack else ctx.form_stack;
    }

-- a text node
unfoldable pub text_of : Head → Bytes
unfolding trim
text_of h = let v = trim h.node_value in if is_blank v then [] else lower v ++ (32 ∷ [])

-- `MAX_DEPTH`
abbrev pub max_depth : ℕ
max_depth = 512

unfoldable mutual
  unfolding text_of enter leave

  pub walk : Node → ℕ → WalkCtx → Bytes × WalkCtx
  walk (node h children document roots) depth ctx =
      let tag = lower h.local_name in
      let entered = enter h tag ctx in
      let a = walk_all children (depth + 1) entered.1 in
      let b = walk_document document (depth + 1) a.1 in
      let c = walk_all roots (depth + 1) b.1 in
      let text = a.0 ++ (b.0 ++ c.0) in
      if ltb max_depth depth
      then ([], ctx)
      else if h.node_type == 3
      then (text_of h, ctx)
      else if is_inert tag
      then ([], ctx)
      else (text, leave tag entered.0 text c.1)

  pub walk_all : Nodes → ℕ → WalkCtx → Bytes × WalkCtx
  walk_all nil depth ctx = ([], ctx)
  walk_all (cons n ns) depth ctx =
      let a = walk n depth ctx in let b = walk_all ns depth a.1 in (a.0 ++ b.0, b.1)

  pub walk_document : Document → ℕ → WalkCtx → Bytes × WalkCtx
  walk_document absent depth ctx = ([], ctx)
  walk_document (present n) depth ctx = walk n depth ctx

-- `position` in the focus order
abbrev pub place_of : ℕ → Bytes → List Bytes → ℕ
place_of i s [] = no_form
place_of i s (t ∷ ts) = let rest = place_of (i + 1) s ts in if bytes_eq t s then i else rest

-- `scan`, behind the answer of the browser
unfoldable pub scan : Node → Walk
unfolding walk
scan root =
    let (text, ctx) = walk root 0 (record {
      fields = [];
      focusables = [];
      forms = [];
      urls = [];
      form_stack = [];
      ordinals = [];
    }) in
    record {
      fields =
          map {A = Field} (λ f. record f { tab_index = place_of 0 f.sig ctx.focusables })
            ctx.fields;
      focusables = ctx.focusables;
      forms = ctx.forms;
      text = take (2 ^ 15) text;
      urls = take 256 ctx.urls;
    }
