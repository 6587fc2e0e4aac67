-- ===== src/Matcher/Build/Children.antt =====
-- The children of one node in `AhoCorasick::build` of src/matcher.rs.
use afeye.Prelude.{
  ℕ, suc, ◌≤◌, ◌<◌, ◌≡◌, refl, sym, ap, subst, ◌∙◌, Bool-cases, inl, inr, Option, some, List, [],
  ◌∷◌, ◌++◌, append-nil, append_assoc, Bytes, length, length-append, set, All, done, Returns,
  Returns-imp, ◌==◌, ==_iff, ==_refl, if◌then◌else◌, arith,
}
use afeye.Matcher.{Node, Edges, fresh_node, edge_of, fail_of, out_link_of, link, link_children}
use afeye.Matcher.Walk.{length-set}
use afeye.Matcher.Trie.{
  at, locate, locate-snoc, IsTrieOf, locate-lt, locate-le, locate-word, byte_at-get_or, get_or-set,
}
use afeye.Matcher.Trie.Longest.{
  longest, nearest, reach_len-lt, longest-lt, IsLinkedAt, output-nearest,
}
use afeye.Matcher.Build.Rounds.{Listed, targets}
use afeye.Matcher.Build.Fail.{IsFrame, fail_of-longest}

abbrev tail : Bytes → Bytes
tail [] = []
tail (c ∷ s) = s

module _ (trie : List Node) (ps : List Bytes) (t : IsTrieOf trie ps) (b : ℕ) (s : Bytes) (u : ℕ)
    (here : locate trie (b ∷ s) ≡ some u) where
  -- One child `v` of the node `u`, whose word is `b ∷ s`, at the byte `c`.
  module _ (nodes : List Node) (fr : IsFrame trie nodes u)
      (linked : (x : Bytes) → length x ≤ suc (length s) → IsLinkedAt trie nodes x) (c v : ℕ)
      (edge : edge_of c (at trie u).next ≡ some v) where
    abbrev pub linked_child : List Node
    linked_child =
        set nodes v
          (link (longest trie (s ++ (c ∷ []))) (nearest trie (s ++ (c ∷ []))) (at nodes v))

    child_word : locate trie (b ∷ (s ++ (c ∷ []))) ≡ some v
    child_word = locate-snoc trie (b ∷ s) c u here ∙ edge

    child_lt : v < length trie
    child_lt = locate-lt trie ps t (b ∷ (s ++ (c ∷ []))) v child_word

    word_of_u : (x : Bytes) → locate trie x ≡ some u → length s < length x
    word_of_u x e = omega (
      arith,
      ap length (sym (locate-word trie ps t x u e) ∙ locate-word trie ps t (b ∷ s) u here),
    )

    word_of_v : (x : Bytes) → locate trie x ≡ some v → suc (length s) < length x
    word_of_v x e = omega (
      arith,
      ap length (
          sym (locate-word trie ps t x v e)
          ∙ locate-word trie ps t (b ∷ (s ++ (c ∷ []))) v child_word),
      length-append s (c ∷ []),
    )

    fail_found :
        (fuel : ℕ)
        → length trie ≤ fuel
        → fail_of fuel nodes c v (at nodes u).fail ≡ done (longest trie (s ++ (c ∷ [])))
    fail_found fuel h =
        ap (λ f. fail_of fuel nodes c v f) (linked (b ∷ s) (omega arith) u here).0
        ∙ fail_of-longest trie ps t nodes u fr (length s) (λ x k. linked x (omega arith)) word_of_u
            v word_of_v fuel s c (omega (arith, reach_len-lt trie ps t s)) (omega arith)

    out_found :
        out_link_of nodes (longest trie (s ++ (c ∷ []))) ≡ done (nearest trie (s ++ (c ∷ [])))
    unfolding out_link_of
    out_found =
        rw
          (byte_at-get_or nodes (longest trie (s ++ (c ∷ []))) (fresh_node 0)
            (omega (arith, fr.size, longest-lt trie ps t (s ++ (c ∷ [])))))
          (ap done (
            output-nearest trie ps t nodes fr.outs fr.no_link (s ++ (c ∷ [])) (suc (length s))
              (omega (arith, length-append s (c ∷ []))) linked))

    at-linked :
        (x : ℕ)
        → at linked_child x ≡ (
            if x == v
            then link (longest trie (s ++ (c ∷ []))) (nearest trie (s ++ (c ∷ []))) (at nodes v)
            else at nodes x)
    at-linked x =
        get_or-set nodes v x
          (link (longest trie (s ++ (c ∷ []))) (nearest trie (s ++ (c ∷ []))) (at nodes v))
          (fresh_node 0) (omega (arith, fr.size, child_lt))

    same_field :
        (x : ℕ) {X : Type 0} (f : Node → X)
        → ((node : Node) (a : ℕ) (o : Option ℕ) → f (link a o node) ≡ f node)
        → f (at linked_child x) ≡ f (at nodes x)
    same_field x f g = ap f (at-linked x) ∙ elim (Bool-cases (x == v)) [
      | inl q ↦ rw q (
          g (at nodes v) (longest trie (s ++ (c ∷ []))) (nearest trie (s ++ (c ∷ [])))
          ∙ ap (λ y. f (at nodes y)) (sym ((==_iff x v).0 q)))
      | inr q ↦ rw q refl
    ]

    pub linked-IsFrame : IsFrame trie linked_child u
    linked-IsFrame = record {
      size = length-set nodes v _ ∙ fr.size;
      next = λ x ne. same_field x (λ y. y.next) (λ node a o. refl) ∙ fr.next x ne;
      outs = λ x. same_field x (λ y. y.self_out) (λ node a o. refl) ∙ fr.outs x;
      no_link = ap (λ y. y.out_link) (at-linked 0) ∙ elim (Bool-cases (0 == v)) [
        | inl q ↦ absurd (
            omega (arith, (==_iff 0 v).0 q, locate-le trie ps t (b ∷ (s ++ (c ∷ []))) v child_word))
        | inr q ↦ rw q fr.no_link
      ];
    }

    pub linked_new : IsLinkedAt trie linked_child (b ∷ (s ++ (c ∷ [])))
    linked_new = λ x e.
        let f : some v ≡ some x = sym child_word ∙ e in
        let g : v ≡ x = cc in
        subst
          (λ y.
            ((at linked_child y).fail ≡ longest trie (s ++ (c ∷ [])))
            × ((at linked_child y).out_link ≡ nearest trie (s ++ (c ∷ []))))
          g
          (
            ap (λ y. y.fail) (at-linked v) ∙ rw (==_refl v) refl,
            ap (λ y. y.out_link) (at-linked v) ∙ rw (==_refl v) refl,
          )

    pub linked_kept : (x : Bytes) → IsLinkedAt trie nodes x → IsLinkedAt trie linked_child x
    linked_kept [] h = tt
    linked_kept (d ∷ r) h = λ x e. elim (Bool-cases (x == v)) [
      | inl q ↦
          let f : d ∷ r ≡ b ∷ (s ++ (c ∷ [])) =
            sym (locate-word trie ps t (d ∷ r) x e)
            ∙ (ap t.word ((==_iff x v).0 q)
                ∙ locate-word trie ps t (b ∷ (s ++ (c ∷ []))) v child_word) in
          subst (λ y. IsLinkedAt trie linked_child y) (sym f) linked_new x e
      | inr q ↦
          let (k, l) = h x e in
          (ap (λ y. y.fail) (at-linked x) ∙ rw q k, ap (λ y. y.out_link) (at-linked x) ∙ rw q l)
    ]

  -- What the loop over the children does: their links are set, and they are put into the queue.
  abbrev pub Linked : List Node → Edges → List ℕ → List Node × List ℕ → Type 0
  Linked nodes es q (nodes', q') =
      IsFrame trie nodes' u
      × ((x : Bytes) → IsLinkedAt trie nodes x → IsLinkedAt trie nodes' x)
      × All (λ e. IsLinkedAt trie nodes' (b ∷ (s ++ (e.0 ∷ [])))) es
      × (q' ≡ q ++ targets es)

  All-kept :
      (nodes nodes' : List Node)
      → ((x : Bytes) → IsLinkedAt trie nodes x → IsLinkedAt trie nodes' x)
      → (es : Edges) → All (λ e. IsLinkedAt trie nodes (b ∷ (s ++ (e.0 ∷ [])))) es
      → All (λ e. IsLinkedAt trie nodes' (b ∷ (s ++ (e.0 ∷ [])))) es
  All-kept nodes nodes' k [] a = tt
  All-kept nodes nodes' k ((c, v) ∷ es) (h, a) =
      (k (b ∷ (s ++ (c ∷ []))) h, All-kept nodes nodes' k es a)

  pub link_children-Linked :
      (fuel : ℕ) (nodes : List Node) (es : Edges) (q : List ℕ)
      → length trie ≤ fuel
      → IsFrame trie nodes u
      → ((x : Bytes) → length x ≤ suc (length s) → IsLinkedAt trie nodes x)
      → Listed es (at trie u).next
      → Returns (Linked nodes es q) (link_children fuel nodes u es q)
  unfolding link_children
  link_children-Linked fuel nodes [] q h fr linked l = (fr, (λ x k. k), tt, sym (append-nil q))
  link_children-Linked fuel nodes ((c, v) ∷ es) q h fr linked (e, l) =
      let nodes' = linked_child nodes fr linked c v e in
      let kept = linked_kept nodes fr linked c v e in
      rw
        (
          byte_at-get_or nodes u (fresh_node 0)
              (omega (arith, fr.size, locate-lt trie ps t (b ∷ s) u here)),
          Returns,
        )
        (rw (fail_found nodes fr linked c v e fuel h, Returns)
          (rw (out_found nodes fr linked c v e, Returns)
            (rw
              (
                byte_at-get_or nodes v (fresh_node 0)
                    (omega (arith, fr.size, child_lt nodes fr linked c v e)),
                Returns,
              )
              (Returns-imp (Linked nodes' es (q ++ (v ∷ []))) (Linked nodes ((c, v) ∷ es) q)
                (link_children fuel nodes' u es (q ++ (v ∷ [])))
                (link_children-Linked fuel nodes' es (q ++ (v ∷ [])) h
                  (linked-IsFrame nodes fr linked c v e) (λ x k. kept x (linked x k)) l)
                (λ r (fr', k, a, e'). (
                  fr',
                  (λ x m. k x (kept x m)),
                  (k (b ∷ (s ++ (c ∷ []))) (linked_new nodes fr linked c v e), a),
                  e' ∙ append_assoc q (v ∷ []) (targets es),
                ))))))
