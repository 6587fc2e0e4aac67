-- ===== src/Matcher/Trie/Grow.antt =====
-- A round of the loop in `AhoCorasick::insert` of src/matcher.rs keeps the trie of the patterns.
use afeye.Prelude.{
  ℕ, zero, suc, ◌+◌, ◌<◌, ◌≡◌, refl, sym, ap, subst, ◌∙◌, ◌&&◌, Bool-cases, inl, inr, some, none,
  Option-cases, List, [], ◌∷◌, ◌++◌, append-nil, append_assoc, Bytes, length, length-append, set,
  Returns, Returns-bind, Returns-imp, ltb, ◌==◌, ==_iff, ==_refl, if◌then◌else◌, arith,
}
use afeye.Matcher.{Node, Edges, fresh_node, edge_of, insert_edge, step_insert, walk_insert}
use afeye.Matcher.Walk.{edge_of-insert_edge, length-set}
use afeye.Matcher.Trie.{
  at, walk, locate, locate-snoc, IsTrieOf, Above, IsSorted, locate-lt, byte_at-get_or, get_or-set,
  get_or-beyond, ids_of,
}

-- A node behind the others has no field that a missing one does not have.
at-append :
    (nodes : List Node) (d u : ℕ) {X : Type 0} (f : Node → X)
    → f (fresh_node d) ≡ f (fresh_node 0)
    → f (at (nodes ++ (fresh_node d ∷ [])) u) ≡ f (at nodes u)
at-append [] d zero f e = e
at-append [] d (suc u) f e = refl
at-append (x ∷ nodes) d zero f e = refl
at-append (x ∷ nodes) d (suc u) f e = at-append nodes d u f e

Above-insert_edge :
    (b c n : ℕ) (es : Edges)
    → b < c
    → edge_of c es ≡ none
    → Above b es
    → Above b (insert_edge c n es)
unfolding insert_edge edge_of
Above-insert_edge b c n [] h e a = (h, tt)
Above-insert_edge b c n ((d, m) ∷ es) h e (l, a) = elim (Bool-cases (ltb d c)) [
  | inl p ↦ rw p (l, Above-insert_edge d c n es (ground arith) (ground arith) a)
  | inr p ↦ rw p (h, (ground arith, a))
]

IsSorted-insert_edge :
    (c n : ℕ) (es : Edges) → edge_of c es ≡ none → IsSorted es → IsSorted (insert_edge c n es)
unfolding insert_edge edge_of
IsSorted-insert_edge c n [] e a = tt
IsSorted-insert_edge c n ((d, m) ∷ es) e a = elim (Bool-cases (ltb d c)) [
  | inl p ↦ rw p (Above-insert_edge d c n es (ground arith) (ground arith) a)
  | inr p ↦ rw p (ground arith, a)
]

-- A walk stays when no edge is lost.
walk_kept :
    (nodes nodes' : List Node)
    → ((u c v : ℕ) → edge_of c (at nodes u).next ≡ some v → edge_of c (at nodes' u).next ≡ some v)
    → (u : ℕ) (p : Bytes) (v : ℕ) → walk nodes (some u) p ≡ some v
    → walk nodes' (some u) p ≡ some v
unfolding walk
walk_kept nodes nodes' k u [] v e = e
walk_kept nodes nodes' k u (c ∷ p) v e = elim (Option-cases (edge_of c (at nodes u).next)) [
  | inl f ↦ absurd (let bad : none ≡ some v = rw (f, walk) at e in cc)
  | inr (w, f) ↦ rw (k u c w f, walk) (walk_kept nodes nodes' k w p v (rw (f, walk) at e))
]

-- A new node behind the others, and an edge to it from `cur` at the byte `b`.
module _ (nodes : List Node) (ps : List Bytes) (t : IsTrieOf nodes ps) (cur b : ℕ)
    (here : cur < length nodes) (free : edge_of b (at nodes cur).next ≡ none) where
  abbrev grown : Node
  grown = record {
    next = insert_edge b (length nodes) (at nodes cur).next;
    fail = (at nodes cur).fail;
    self_out = (at nodes cur).self_out;
    out_link = (at nodes cur).out_link;
    depth = (at nodes cur).depth;
  }

  abbrev pub added : List Node
  added = set (nodes ++ (fresh_node ((at nodes cur).depth + 1) ∷ [])) cur grown

  length-added : length added ≡ suc (length nodes)
  length-added =
      length-set (nodes ++ (fresh_node ((at nodes cur).depth + 1) ∷ [])) cur grown
      ∙ omega (arith, length-append nodes (fresh_node ((at nodes cur).depth + 1) ∷ []))

  at-added :
      (u : ℕ)
      → at added u
        ≡ (if u == cur then grown else at (nodes ++ (fresh_node ((at nodes cur).depth + 1) ∷ [])) u)
  at-added u =
      get_or-set (nodes ++ (fresh_node ((at nodes cur).depth + 1) ∷ [])) cur u grown (fresh_node 0)
        (omega (arith, length-append nodes (fresh_node ((at nodes cur).depth + 1) ∷ [])))

  same_field :
      (u : ℕ) {X : Type 0} (f : Node → X)
      → ((d : ℕ) → f (fresh_node d) ≡ f (fresh_node 0))
      → f grown ≡ f (at nodes cur)
      → f (at added u) ≡ f (at nodes u)
  same_field u f e g = ap f (at-added u) ∙ elim (Bool-cases (u == cur)) [
    | inl q ↦ rw q (g ∙ ap (λ x. f (at nodes x)) (sym ((==_iff u cur).0 q)))
    | inr q ↦ rw q (at-append nodes ((at nodes cur).depth + 1) u f (e ((at nodes cur).depth + 1)))
  ]

  edge-added :
      (u c : ℕ)
      → edge_of c (at added u).next
        ≡ (if u == cur && c == b then some (length nodes) else edge_of c (at nodes u).next)
  edge-added u c = ap (edge_of c) (ap (λ x. x.next) (at-added u)) ∙ elim (Bool-cases (u == cur)) [
    | inl q ↦ rw q (
        edge_of-insert_edge b (length nodes) c (at nodes cur).next
        ∙ ap (λ x. if c == b then some (length nodes) else edge_of c (at nodes x).next)
            (sym ((==_iff u cur).0 q)))
    | inr q ↦
        rw q (ap (edge_of c) (at-append nodes ((at nodes cur).depth + 1) u (λ x. x.next) refl))
  ]

  edge_kept :
      (u c v : ℕ) → edge_of c (at nodes u).next ≡ some v → edge_of c (at added u).next ≡ some v
  edge_kept u c v e = edge-added u c ∙ elim (Bool-cases (u == cur && c == b)) [
    | inl q ↦
        let f : u ≡ cur = ground arith in
        let g : c ≡ b = ground arith in
        let bad : none ≡ some v =
          sym free
          ∙ subst (λ x. edge_of x (at nodes cur).next ≡ some v) g
              (subst (λ x. edge_of c (at nodes x).next ≡ some v) f e) in
        absurd (cc)
    | inr q ↦ rw q e
  ]

  kept : (p : Bytes) (v : ℕ) → locate nodes p ≡ some v → locate added p ≡ some v
  kept p v e = walk_kept nodes added edge_kept 0 p v e

  abbrev new_word : Bytes
  new_word = t.word cur ++ (b ∷ [])

  new_word_free : locate nodes new_word ≡ none
  new_word_free = locate-snoc nodes (t.word cur) b cur (t.reach cur here) ∙ free

  new_edge : edge_of b (at added cur).next ≡ some (length nodes)
  new_edge = edge-added cur b ∙ rw (==_refl cur) (rw (==_refl b) refl)

  new_located :
      (p : Bytes) → locate nodes p ≡ some cur → locate added (p ++ (b ∷ [])) ≡ some (length nodes)
  new_located p e = locate-snoc added p b cur (kept p cur e) ∙ new_edge

  word' : ℕ → Bytes
  word' v = if v == length nodes then new_word else t.word v

  word'_old : (v : ℕ) → v < length nodes → word' v ≡ t.word v
  unfolding word'
  word'_old v h = ground arith

  word'_new : word' (length nodes) ≡ t.word cur ++ (b ∷ [])
  unfolding word'
  word'_new = rw (==_refl (length nodes)) refl

  edge' :
      (u c v : ℕ)
      → edge_of c (at added u).next ≡ some v
      → (u < v) × (v < length added) × (word' v ≡ word' u ++ (c ∷ []))
  edge' u c v e = elim (Bool-cases (u == cur && c == b)) [
    | inl q ↦
        let f : u ≡ cur = ground arith in
        let g : c ≡ b = ground arith in
        let n : some (length nodes) ≡ some v = sym (edge-added u c ∙ rw q refl) ∙ e in
        let m : length nodes ≡ v = cc in
        (
          omega arith,
          omega (arith, length-added),
          ap word' (sym m)
              ∙ (word'_new
                  ∙ (ap (λ x. x ++ (b ∷ [])) (sym (word'_old cur here))
                      ∙ (ap (λ x. word' x ++ (b ∷ [])) (sym f)
                          ∙ ap (λ x. word' u ++ (x ∷ [])) (sym g)))),
        )
    | inr q ↦
        let (l, m, w) = t.edge u c v (sym (edge-added u c ∙ rw q refl) ∙ e) in
        (
          l,
          omega (arith, length-added),
          word'_old v m ∙ (w ∙ ap (λ x. x ++ (c ∷ [])) (sym (word'_old u (omega arith)))),
        )
  ]

  reach' : (v : ℕ) → v < length added → locate added (word' v) ≡ some v
  reach' v h = elim (Bool-cases (v == length nodes)) [
    | inl q ↦
        let m : v ≡ length nodes = (==_iff v (length nodes)).0 q in
        ap (locate added) (ap word' m ∙ word'_new)
        ∙ (new_located (t.word cur) (t.reach cur here) ∙ ap some (sym m))
    | inr q ↦
        let old : v < length nodes = ground (arith, length-added) in
        ap (locate added) (word'_old v old) ∙ kept (t.word v) v (t.reach v old)
  ]

  ids' : (v : ℕ) → v < length added → (at added v).self_out ≡ ids_of ps (word' v)
  ids' v h =
      same_field v (λ x. x.self_out) (λ d. refl) refl ∙ elim (Bool-cases (v == length nodes)) [
        | inl q ↦
            let m : v ≡ length nodes = (==_iff v (length nodes)).0 q in
            ap (λ x. x.self_out) (get_or-beyond nodes v (fresh_node 0) (omega arith))
            ∙ sym (ap (ids_of ps) (ap word' m ∙ word'_new) ∙ t.full new_word new_word_free)
        | inr q ↦
            let old : v < length nodes = ground (arith, length-added) in
            t.ids v old ∙ ap (ids_of ps) (sym (word'_old v old))
      ]

  full' : (s : Bytes) → locate added s ≡ none → ids_of ps s ≡ []
  full' s e = elim (Option-cases (locate nodes s)) [
    | inl f ↦ t.full s f
    | inr (v, f) ↦ absurd (let bad : none ≡ some v = sym e ∙ kept s v f in cc)
  ]

  sorted' : (u : ℕ) → IsSorted (at added u).next
  sorted' u = elim (Bool-cases (u == cur)) [
    | inl q ↦
        let e : at added u ≡ grown = at-added u ∙ rw q refl in
        subst IsSorted (sym (ap (λ x. x.next) e))
          (IsSorted-insert_edge b (length nodes) (at nodes cur).next free (t.sorted cur))
    | inr q ↦
        let e : at added u ≡ at (nodes ++ (fresh_node ((at nodes cur).depth + 1) ∷ [])) u =
          at-added u ∙ rw q refl in
        subst IsSorted
          (sym
            (ap (λ x. x.next) e ∙ at-append nodes ((at nodes cur).depth + 1) u (λ x. x.next) refl))
          (t.sorted u)
  ]

  pub added-IsTrieOf : IsTrieOf added ps
  added-IsTrieOf = record {
    word = word';
    root = omega (arith, length-added);
    word_root = word'_old 0 t.root ∙ t.word_root;
    edge = edge';
    reach = reach';
    sorted = sorted';
    ids = ids';
    full = full';
    no_link = same_field 0 (λ x. x.out_link) (λ d. refl) refl ∙ t.no_link;
  }

-- One round: the trie has the walk of one more byte.
abbrev pub Stepped : List Node → List Bytes → Bytes → List Node × ℕ → Type 0
Stepped nodes ps p (nodes', v) = IsTrieOf nodes' ps × (locate nodes' p ≡ some v)

step_insert-Stepped :
    (nodes : List Node) (ps : List Bytes) (t : IsTrieOf nodes ps) (cur b : ℕ) (p : Bytes)
    → locate nodes p ≡ some cur
    → Returns (Stepped nodes ps (p ++ (b ∷ []))) (step_insert nodes cur b)
unfolding step_insert
step_insert-Stepped nodes ps t cur b p e =
    let here = locate-lt nodes ps t p cur e in
    rw (byte_at-get_or nodes cur (fresh_node 0) here, Returns)
      (elim (Option-cases (edge_of b (at nodes cur).next)) [
        | inl free ↦
            rw (free, Stepped)
              (
                added-IsTrieOf nodes ps t cur b here free,
                new_located nodes ps t cur b here free p e,
              )
        | inr (v, found) ↦ rw (found, Stepped) (t, locate-snoc nodes p b cur e ∙ found)
      ])

pub walk_insert-Stepped :
    (nodes : List Node) (ps : List Bytes) (t : IsTrieOf nodes ps) (cur : ℕ) (front p : Bytes)
    → locate nodes front ≡ some cur
    → Returns (Stepped nodes ps (front ++ p)) (walk_insert nodes cur p)
unfolding walk_insert
walk_insert-Stepped nodes ps t cur front [] e = (t, ap (locate nodes) (append-nil front) ∙ e)
walk_insert-Stepped nodes ps t cur front (b ∷ p) e =
    Returns-bind (Stepped nodes ps (front ++ (b ∷ []))) _ (step_insert nodes cur b) _
      (step_insert-Stepped nodes ps t cur b front e)
      (λ r (t', e').
        Returns-imp (Stepped r.0 ps ((front ++ (b ∷ [])) ++ p))
          (Stepped nodes ps (front ++ (b ∷ p))) (walk_insert r.0 r.1 p)
          (walk_insert-Stepped r.0 ps t' r.1 (front ++ (b ∷ [])) p e')
          (λ s (t'', f). (t'', ap (locate s.0) (sym (append_assoc front (b ∷ []) p)) ∙ f)))
