-- ===== src/Matcher/Trie/Insert.antt =====
-- `AhoCorasick::insert` of src/matcher.rs keeps the trie of its patterns.
use afeye.Prelude.{
  ℕ, zero, suc, ◌+◌, ◌<◌, ◌≡◌, ◌≢◌, refl, sym, ap, subst, ◌∙◌, true, Bool-cases, inl, inr, some,
  none, List, [], ◌∷◌, ◌++◌, append-nil, Bytes, bytes_eq, bytes_eq_iff, length, set, Returns,
  Returns-bind, ◌==◌, ==_iff, if◌then◌else◌, arith,
}
use afeye.Matcher.{Node, AhoCorasick, new, fresh_node, edge_of, walk_insert, add_out, insert}
use afeye.Matcher.Walk.{length-set}
use afeye.Matcher.Trie.{
  at, walk, locate, walk_same, IsTrieOf, IsSorted, locate-lt, locate-word, byte_at-get_or,
  get_or-set, ids_of, ids_from,
}
use afeye.Matcher.Trie.Grow.{Stepped, walk_insert-Stepped}

-- The ids of a word when a pattern is added.
ids_from-append :
    (ps : List Bytes) (i : ℕ) (p s : Bytes)
    → ids_from i (ps ++ (p ∷ [])) s
      ≡ ids_from i ps s ++ (if bytes_eq p s then (i + length ps) ∷ [] else [])
unfolding ids_from
ids_from-append [] i p s =
    let e : i ≡ i + 0 = omega arith in ap (λ n. if bytes_eq p s then n ∷ [] else []) e
ids_from-append (q ∷ ps) i p s =
    let e : suc i + length ps ≡ i + suc (length ps) = omega arith in
    let rest : ids_from (suc i) (ps ++ (p ∷ [])) s
        ≡ ids_from (suc i) ps s ++ (if bytes_eq p s then (i + suc (length ps)) ∷ [] else []) =
      ids_from-append ps (suc i) p s
      ∙ ap (λ n. ids_from (suc i) ps s ++ (if bytes_eq p s then n ∷ [] else [])) e in
    elim (Bool-cases (bytes_eq q s)) [ inl f ↦ rw f (ap (◌∷◌ i) rest) | inr f ↦ rw f rest ]

ids_of-append :
    (ps : List Bytes) (p : Bytes) (c : ℕ) (s : Bytes)
    → ids_of (ps ++ (p ∷ [])) (c ∷ s)
      ≡ ids_of ps (c ∷ s) ++ (if bytes_eq p (c ∷ s) then length ps ∷ [] else [])
unfolding ids_of
ids_of-append ps p c s =
    let e : 0 + length ps ≡ length ps = omega arith in
    ids_from-append ps 0 p (c ∷ s)
    ∙ ap (λ n. ids_from 0 ps (c ∷ s) ++ (if bytes_eq p (c ∷ s) then n ∷ [] else [])) e

ids_of-append_other :
    (ps : List Bytes) (p s : Bytes) → p ≢ s → ids_of (ps ++ (p ∷ [])) s ≡ ids_of ps s
unfolding ids_of
ids_of-append_other ps p [] ne = refl
ids_of-append_other ps p (c ∷ s) ne = elim (Bool-cases (bytes_eq p (c ∷ s))) [
  | inl e ↦ absurd (ne ((bytes_eq_iff p (c ∷ s)).0 e))
  | inr e ↦ ids_of-append ps p c s ∙ rw e (append-nil (ids_of ps (c ∷ s)))
]

ids_of-append_empty : (ps : List Bytes) (s : Bytes) → ids_of (ps ++ ([] ∷ [])) s ≡ ids_of ps s
unfolding ids_of
ids_of-append_empty ps [] = refl
ids_of-append_empty ps (c ∷ s) = ids_of-append_other ps [] (c ∷ s) (λ e. absurd (ground (arith, e)))

-- An empty pattern has no node.
empty-IsTrieOf :
    (nodes : List Node) (ps : List Bytes) → IsTrieOf nodes ps → IsTrieOf nodes (ps ++ ([] ∷ []))
empty-IsTrieOf nodes ps t = record {
  word = t.word;
  root = t.root;
  word_root = t.word_root;
  edge = t.edge;
  reach = t.reach;
  sorted = t.sorted;
  ids = λ v h. t.ids v h ∙ sym (ids_of-append_empty ps (t.word v));
  full = λ s e. ids_of-append_empty ps s ∙ t.full s e;
  no_link = t.no_link;
}

-- The id of a pattern is put at the end of its walk.
module _ (nodes : List Node) (ps : List Bytes) (t : IsTrieOf nodes ps) (b : ℕ) (p : Bytes) (w : ℕ)
    (e : locate nodes (b ∷ p) ≡ some w) where
  abbrev marked : List Node
  marked = set nodes w (add_out (length ps) (at nodes w))

  at-marked :
      (u : ℕ) → at marked u ≡ (if u == w then add_out (length ps) (at nodes w) else at nodes u)
  at-marked u =
      get_or-set nodes w u (add_out (length ps) (at nodes w)) (fresh_node 0)
        (locate-lt nodes ps t (b ∷ p) w e)

  kept_field :
      (u : ℕ) {X : Type 0} (f : Node → X)
      → f (add_out (length ps) (at nodes w)) ≡ f (at nodes w)
      → f (at marked u) ≡ f (at nodes u)
  kept_field u f g = ap f (at-marked u) ∙ elim (Bool-cases (u == w)) [
    | inl q ↦ rw q (g ∙ ap (λ x. f (at nodes x)) (sym ((==_iff u w).0 q)))
    | inr q ↦ rw q refl
  ]

  same_next : (u : ℕ) → (at marked u).next ≡ (at nodes u).next
  same_next u = kept_field u (λ x. x.next) refl

  same_walk : (s : Bytes) → locate marked s ≡ locate nodes s
  same_walk s = walk_same marked nodes same_next (some 0) s

  size : length marked ≡ length nodes
  size = length-set nodes w (add_out (length ps) (at nodes w))

  ids_marked :
      (v : ℕ)
      → v < length marked
      → (at marked v).self_out ≡ ids_of (ps ++ ((b ∷ p) ∷ [])) (t.word v)
  ids_marked v h =
      let old : v < length nodes = omega (arith, size) in
      ap (λ x. x.self_out) (at-marked v) ∙ elim (Bool-cases (v == w)) [
        | inl q ↦
            let same : t.word v ≡ b ∷ p =
              ap t.word ((==_iff v w).0 q) ∙ locate-word nodes ps t (b ∷ p) w e in
            let self : bytes_eq (b ∷ p) (b ∷ p) ≡ true = (bytes_eq_iff (b ∷ p) (b ∷ p)).1 refl in
            rw q (
              ap (λ ids. ids ++ (length ps ∷ []))
                (ap (λ x. (at nodes x).self_out) (sym ((==_iff v w).0 q))
                  ∙ (t.ids v old ∙ ap (ids_of ps) same))
              ∙ (sym (ids_of-append ps (b ∷ p) b p ∙ rw self refl)
                  ∙ ap (ids_of (ps ++ ((b ∷ p) ∷ []))) (sym same)))
        | inr q ↦ rw q (
            t.ids v old
            ∙ sym (
                ids_of-append_other ps (b ∷ p) (t.word v) (λ f.
                  let g : some w ≡ some v = sym e ∙ (ap (locate nodes) f ∙ t.reach v old) in
                  let k : w ≡ v = cc in absurd (ground arith))))
      ]

  full_marked : (s : Bytes) → locate marked s ≡ none → ids_of (ps ++ ((b ∷ p) ∷ [])) s ≡ []
  full_marked s h =
      let gone : locate nodes s ≡ none = sym (same_walk s) ∙ h in
      ids_of-append_other ps (b ∷ p) s
        (λ f. let bad : some w ≡ none = sym e ∙ (ap (locate nodes) f ∙ gone) in absurd (cc))
      ∙ t.full s gone

  marked-IsTrieOf : IsTrieOf marked (ps ++ ((b ∷ p) ∷ []))
  marked-IsTrieOf = record {
    word = t.word;
    root = omega (arith, t.root, size);
    word_root = t.word_root;
    edge = λ u c v h.
        let (l, m, x) = t.edge u c v (ap (edge_of c) (sym (same_next u)) ∙ h) in
        (l, omega (arith, size), x);
    reach = λ v h. same_walk (t.word v) ∙ t.reach v (omega (arith, size));
    sorted = λ u. subst IsSorted (sym (same_next u)) (t.sorted u);
    ids = ids_marked;
    full = full_marked;
    no_link = kept_field 0 (λ x. x.out_link) refl ∙ t.no_link;
  }

abbrev pub Holds : List Bytes → AhoCorasick → Type 0
Holds ps ac = (ac.patterns ≡ ps) × IsTrieOf ac.nodes ps

abbrev pub Inserted : List Bytes → Bytes → AhoCorasick × ℕ → Type 0
Inserted ps p (ac, id) = (id ≡ length ps) × Holds (ps ++ (p ∷ [])) ac

-- `insert` returns the number of the patterns before, and keeps the pattern behind them. Nodes that
-- were the trie of the patterns are the trie of all of them: an edge leads to a later node, whose
-- word has one byte more; a node is reached by its word alone, and has the ids of the patterns
-- equal to it, in order; each pattern that is not empty has a node.
pub insert-IsTrieOf :
    (nodes : List Node) (ps : List Bytes) (p : Bytes)
    → IsTrieOf nodes ps
    → Returns (Inserted ps p) (insert (record { nodes = nodes; patterns = ps }) p)
unfolding insert walk
insert-IsTrieOf nodes ps [] t = (refl, (refl, empty-IsTrieOf nodes ps t))
insert-IsTrieOf nodes ps (b ∷ p) t =
    Returns-bind (Stepped nodes ps (b ∷ p)) _ (walk_insert nodes 0 (b ∷ p)) _
      (walk_insert-Stepped nodes ps t 0 [] (b ∷ p) refl)
      (λ r (t', e).
        rw (byte_at-get_or r.0 r.1 (fresh_node 0) (locate-lt r.0 ps t' (b ∷ p) r.1 e), Returns)
          (refl, (refl, marked-IsTrieOf r.0 ps t' b p r.1 e)))

no_next : (u : ℕ) → (at new.nodes u).next ≡ []
no_next zero = refl
no_next (suc u) = refl

no_outs : (u : ℕ) → (at new.nodes u).self_out ≡ []
no_outs zero = refl
no_outs (suc u) = refl

no_ids : (s : Bytes) → ids_of [] s ≡ []
unfolding ids_of
no_ids [] = refl
no_ids (c ∷ s) = refl

-- The root alone is the trie of no pattern.
pub new-IsTrieOf : IsTrieOf new.nodes []
unfolding ids_of walk edge_of
new-IsTrieOf = record {
  word = λ v. [];
  root = omega arith;
  word_root = refl;
  edge = λ u c v e. let bad : none ≡ some v = sym (ap (edge_of c) (no_next u)) ∙ e in absurd (cc);
  reach = λ v h. let z : 0 ≡ v = omega arith in ap some z;
  sorted = λ u. subst IsSorted (sym (no_next u)) tt;
  ids = λ v h. no_outs v;
  full = λ s e. no_ids s;
  no_link = refl;
}
