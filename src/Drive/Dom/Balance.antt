-- ===== src/Drive/Dom/Balance.antt =====
-- What the walk of src/drive.rs keeps: the stack of the open forms, and the forms of the fields.
use afeye.Prelude.{
  ℕ, zero, suc, ◌+◌, ◌≤◌, ◌<◌, ◌≡◌, refl, ap, ◌∙◌, inl, inr, ◌⊎◌, Bool, true, false, Bool-cases,
  Option, Option-cases, some, none, List, [], ◌∷◌, ◌++◌, Bytes, All, All-append, length,
  length-append, lower, ltb, ◌==◌, if◌then◌else◌, arith,
}
use afeye.Drive.{Field, no_form}
use afeye.Drive.Attrs.{classify, attr_get, tabbable, is_inert}
use afeye.Drive.Element.{
  Head, WalkCtx, next_ordinal, add_url, push_form, is_form, is_hidden, record_field, add_focusable,
  field_of, place_from,
}
use afeye.Drive.Dom.{
  Node, Nodes, Document, node, nil, cons, absent, present, enter, leave, label, change_at,
  behind_first, walk, walk_all, walk_document, max_depth,
}

if_any : {A : Type 0} (P : A → Type 0) (b : Bool) (x y : A) → P x → P y → P (if b then x else y)
if_any P true x y p q = p
if_any P false x y p q = q

-- The form of a field is one of the `n` forms, or there is none.
abbrev pub HasForm : ℕ → Field → Type 0
HasForm n f = (f.form ≡ no_form) ⊎ (f.form < n)

abbrev pub IsLinked : WalkCtx → Type 0
IsLinked ctx = All (HasForm (length ctx.forms)) ctx.fields

-- The open forms are as before, and the fields have forms if they had.
abbrev pub Kept : WalkCtx → WalkCtx → Type 0
Kept ctx ctx' = (ctx'.form_stack ≡ ctx.form_stack) × (IsLinked ctx → IsLinked ctx')

HasForm-mono : (m n : ℕ) (fs : List Field) → m ≤ n → All (HasForm m) fs → All (HasForm n) fs
HasForm-mono m n [] l h = tt
HasForm-mono m n (f ∷ fs) l (inl e, h) = (inl e, HasForm-mono m n fs l h)
HasForm-mono m n (f ∷ fs) l (inr b, h) = (inr (omega (arith, l, b)), HasForm-mono m n fs l h)

place_from-below :
    (i b : ℕ) (fs : List ℕ) → (place_from i b fs ≡ no_form) ⊎ (place_from i b fs < i + length fs)
place_from-below i b [] = inl refl
place_from-below i b (f ∷ fs) = elim (Bool-cases (f == b)) [
  | inl q ↦ inr (rw q (omega arith))
  | inr q ↦
      rw q (elim (place_from-below (i + 1) b fs) [ inl e ↦ inl e | inr l ↦ inr (omega (arith, l)) ])
]

form_of-below :
    (ctx : WalkCtx) (stack : List ℕ)
    → let fid : ℕ = elim stack [ [] ↦ no_form | b ∷ bs ↦ place_from 0 b ctx.forms ] in
      (fid ≡ no_form) ⊎ (fid < length ctx.forms)
form_of-below ctx [] = inl refl
form_of-below ctx (b ∷ bs) = elim (place_from-below 0 b ctx.forms) [
  | inl e ↦ inl e
  | inr l ↦ inr (omega (arith, l))
]

add_url-Kept : (tag : Bytes) (attrs : List Bytes) (ctx : WalkCtx) → Kept ctx (add_url tag attrs ctx)
unfolding add_url
add_url-Kept tag attrs ctx = if_any (Kept ctx) _ _ ctx (refl, λ l. l) (refl, λ l. l)

-- the open forms below an element
abbrev opened : Head → Bytes → List ℕ → List ℕ
opened h tag stack = if is_form tag then h.backend ∷ stack else stack

push_form-Opened :
    (h : Head) (tag : Bytes) (ctx : WalkCtx)
    → ((push_form h tag ctx).form_stack ≡ opened h tag ctx.form_stack)
      × (IsLinked ctx → IsLinked (push_form h tag ctx))
unfolding push_form
push_form-Opened h tag ctx = elim (Bool-cases (is_form tag)) [
  | inl q ↦ rw q (
    refl,
    HasForm-mono (length ctx.forms) (length (ctx.forms ++ (h.backend ∷ []))) ctx.fields
        (omega (arith, length-append ctx.forms (h.backend ∷ []))),
  )
  | inr q ↦ rw q (refl, λ l. l)
]

record_field-Kept : (h : Head) (tag : Bytes) (ctx : WalkCtx) → Kept ctx (record_field h tag ctx).1
unfolding record_field next_ordinal field_of
record_field-Kept h tag ctx =
    elim (Option-cases (
      classify tag (attr_get h.attributes "type") (attr_get h.attributes "role")
        (attr_get h.attributes "aria-label"))) [
          | inl e ↦ rw (record_field, e) (refl, λ l. l)
          | inr (k, e) ↦
              rw (record_field, e)
                (if_any {A = Option ℕ × WalkCtx} (λ r. Kept ctx r.1) (is_hidden h.attributes) _ _
                  (refl, λ l. l)
                  (
                    refl,
                    λ l.
                        All-append (HasForm (length ctx.forms)) ctx.fields _ l
                          (form_of-below ctx ctx.form_stack, tt),
                  ))
        ]

add_focusable-Kept :
    (h : Head) (tag : Bytes) (o : Option ℕ) (ctx : WalkCtx) → Kept ctx (add_focusable h tag o ctx)
unfolding add_focusable next_ordinal
add_focusable-Kept h tag none ctx =
    if_any (Kept ctx) (tabbable tag h.attributes) _ ctx (refl, λ l. l) (refl, λ l. l)
add_focusable-Kept h tag (some i) ctx =
    if_any (Kept ctx) (tabbable tag h.attributes) _ ctx (refl, λ l. l) (refl, λ l. l)

Kept-trans : (a b c : WalkCtx) → Kept a b → Kept b c → Kept a c
Kept-trans a b c (p, f) (q, g) = (q ∙ p, λ l. g (f l))

enter-Opened :
    (h : Head) (tag : Bytes) (ctx : WalkCtx)
    → ((enter h tag ctx).1.form_stack ≡ opened h tag ctx.form_stack)
      × (IsLinked ctx → IsLinked (enter h tag ctx).1)
unfolding enter
enter-Opened h tag ctx =
    let u = add_url tag h.attributes ctx in
    let p = push_form h tag u in
    let r = record_field h tag p in
    let (eu, lu) = add_url-Kept tag h.attributes ctx in
    let (ep, lp) = push_form-Opened h tag u in
    let (er, lr) = record_field-Kept h tag p in
    let (ef, lf) = add_focusable-Kept h tag r.0 r.1 in
    (ef ∙ er ∙ ep ∙ ap (opened h tag) eu, λ l. lf (lr (lp (lu l))))

change_at-HasForm :
    (n i : ℕ) (text : Bytes) (fs : List Field)
    → All (HasForm n) fs
    → All (HasForm n) (change_at i (label text) fs)
unfolding label
change_at-HasForm n i text [] h = tt
change_at-HasForm n zero text (f ∷ fs) (a, h) = (if_any (HasForm n) _ _ f a a, h)
change_at-HasForm n (suc i) text (f ∷ fs) (a, h) = (a, change_at-HasForm n i text fs h)

leave-IsLinked :
    (tag : Bytes) (o : Option ℕ) (text : Bytes) (ctx : WalkCtx)
    → IsLinked ctx
    → IsLinked (leave tag o text ctx)
unfolding leave
leave-IsLinked tag none text ctx l = l
leave-IsLinked tag (some i) text ctx l = change_at-HasForm (length ctx.forms) i text ctx.fields l

leave-form_stack :
    (h : Head) (tag : Bytes) (o : Option ℕ) (text : Bytes) (stack : List ℕ) (ctx : WalkCtx)
    → ctx.form_stack ≡ opened h tag stack
    → (leave tag o text ctx).form_stack ≡ stack
unfolding leave
leave-form_stack h tag o text stack ctx e = elim (Bool-cases (is_form tag)) [
  | inl q ↦ let k : ctx.form_stack ≡ h.backend ∷ stack = rw q at e in rw q (ap behind_first k)
  | inr q ↦ let k : ctx.form_stack ≡ stack = rw q at e in rw q k
]

mutual
  unfolding walk walk_all walk_document

  node-Kept : (n : Node) (depth : ℕ) (ctx : WalkCtx) → Kept ctx (walk n depth ctx).1
  node-Kept (node h children document roots) depth ctx =
      let tag = lower h.local_name in
      let entered = enter h tag ctx in
      let a = walk_all children (depth + 1) entered.1 in
      let b = walk_document document (depth + 1) a.1 in
      let c = walk_all roots (depth + 1) b.1 in
      let text = a.0 ++ (b.0 ++ c.0) in
      let (e, l) = enter-Opened h tag ctx in
      let (ec, lc) = Kept-trans entered.1 a.1 c.1 (nodes-Kept children (depth + 1) entered.1) (
        Kept-trans a.1 b.1 c.1 (document-Kept document (depth + 1) a.1)
          (nodes-Kept roots (depth + 1) b.1)) in
      let P : Bytes × WalkCtx → Type 0 = λ r. Kept ctx r.1 in
      if_any P (ltb max_depth depth) _ _ (refl, λ l. l)
        (if_any P (h.node_type == 3) _ _ (refl, λ l. l)
          (if_any P (is_inert tag) _ _ (refl, λ l. l)
            (
              leave-form_stack h tag entered.0 text ctx.form_stack c.1 (ec ∙ e),
              λ k. leave-IsLinked tag entered.0 text c.1 (lc (l k)),
            )))

  nodes-Kept : (ns : Nodes) (depth : ℕ) (ctx : WalkCtx) → Kept ctx (walk_all ns depth ctx).1
  nodes-Kept nil depth ctx = (refl, λ l. l)
  nodes-Kept (cons n ns) depth ctx =
      let a = walk n depth ctx in
      Kept-trans ctx a.1 (walk_all ns depth a.1).1 (node-Kept n depth ctx) (nodes-Kept ns depth a.1)

  document-Kept :
      (d : Document) (depth : ℕ) (ctx : WalkCtx) → Kept ctx (walk_document d depth ctx).1
  document-Kept absent depth ctx = (refl, λ l. l)
  document-Kept (present n) depth ctx = node-Kept n depth ctx

-- The walk over a node leaves the open forms as they were, whatever the tree, and if every field
-- was in one of the forms or in none, then so it is afterwards.
pub walk-Kept : (n : Node) (depth : ℕ) (ctx : WalkCtx) → Kept ctx (walk n depth ctx).1
walk-Kept n depth ctx = node-Kept n depth ctx
