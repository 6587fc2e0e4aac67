-- ===== src/Matcher/Build/First.antt =====
-- The first loop of `AhoCorasick::build` of src/matcher.rs links the children of the root.
use afeye.Prelude.{
  ℕ, suc, ◌≤◌, ◌<◌, ◌≡◌, refl, sym, ap, subst, ◌∙◌, Bool-cases, inl, inr, some, none, List, [], ◌∷◌,
  ◌++◌, append-nil, append_assoc, Bytes, length, set, All, Returns, Returns-bind, Returns-imp, ◌==◌,
  ==_iff, ==_refl, if◌then◌else◌, arith,
}
use afeye.Matcher.{Node, Edges, fresh_node, link, link_first, build, build_loop, rounds}
use afeye.Matcher.Walk.{length-set}
use afeye.Matcher.Trie.{at, walk, locate, locate-snoc, IsTrieOf, byte_at-get_or, get_or-set}
use afeye.Matcher.Trie.Longest.{longest, nearest, IsLinkedAt, IsLinked}
use afeye.Matcher.Build.Rounds.{In, Listed, targets, next_Listed, edge_of-In, work, work-targets}
use afeye.Matcher.Build.Queue.{IsLevel, kids, kids-Queued, kids-length, kids-In, All_at}
use afeye.Matcher.Build.Loop.{goes, front_located}

abbrev Unlinked : List Node → ℕ → Type 0
Unlinked nodes v = ((at nodes v).fail ≡ 0) × ((at nodes v).out_link ≡ none)

module _ (trie : List Node) (ps : List Bytes) (t : IsTrieOf trie ps) where
  record IsSame (nodes : List Node) : Type 0 where
    size : length nodes ≡ length trie
    next : (v : ℕ) → (at nodes v).next ≡ (at trie v).next
    outs : (v : ℕ) → (at nodes v).self_out ≡ (at trie v).self_out
    no_link : (at nodes 0).out_link ≡ none

  module _ (nodes : List Node) (i : IsSame nodes) (v : ℕ) (h : v < length trie) where
    abbrev unlinked : List Node
    unlinked = set nodes v (link 0 none (at nodes v))

    at-unlinked :
        (x : ℕ) → at unlinked x ≡ (if x == v then link 0 none (at nodes v) else at nodes x)
    at-unlinked x =
        get_or-set nodes v x (link 0 none (at nodes v)) (fresh_node 0) (omega (arith, i.size))

    same_field :
        (x : ℕ) {X : Type 0} (f : Node → X)
        → f (link 0 none (at nodes v)) ≡ f (at nodes v)
        → f (at unlinked x) ≡ f (at nodes x)
    same_field x f g = ap f (at-unlinked x) ∙ elim (Bool-cases (x == v)) [
      | inl q ↦ rw q (g ∙ ap (λ y. f (at nodes y)) (sym ((==_iff x v).0 q)))
      | inr q ↦ rw q refl
    ]

    unlinked_self : Unlinked unlinked v
    unlinked_self = (
      ap (λ y. y.fail) (at-unlinked v) ∙ rw (==_refl v) refl,
      ap (λ y. y.out_link) (at-unlinked v) ∙ rw (==_refl v) refl,
    )

    unlinked_kept : (x : ℕ) → Unlinked nodes x → Unlinked unlinked x
    unlinked_kept x (e, f) = elim (Bool-cases (x == v)) [
      | inl q ↦ subst (λ y. Unlinked unlinked y) (sym ((==_iff x v).0 q)) unlinked_self
      | inr q ↦
          (ap (λ y. y.fail) (at-unlinked x) ∙ rw q e, ap (λ y. y.out_link) (at-unlinked x) ∙ rw q f)
    ]

    unlinked-IsSame : IsSame unlinked
    unlinked-IsSame = record {
      size = length-set nodes v _ ∙ i.size;
      next = λ x. same_field x (λ y. y.next) refl ∙ i.next x;
      outs = λ x. same_field x (λ y. y.self_out) refl ∙ i.outs x;
      no_link =
          ap (λ y. y.out_link) (at-unlinked 0)
          ∙ elim (Bool-cases (0 == v)) [ inl q ↦ rw q refl | inr q ↦ rw q i.no_link ];
    }

  abbrev First : List Node → Edges → List ℕ → List Node × List ℕ → Type 0
  First nodes es q (nodes', q') =
      IsSame nodes'
      × ((x : ℕ) → Unlinked nodes x → Unlinked nodes' x)
      × All (λ e. Unlinked nodes' e.1) es
      × (q' ≡ q ++ targets es)

  link_first-First :
      (nodes : List Node) (es : Edges) (q : List ℕ)
      → IsSame nodes
      → Listed es (at trie 0).next
      → Returns (First nodes es q) (link_first nodes es q)
  unfolding link_first
  link_first-First nodes [] q i l = (i, (λ x h. h), tt, sym (append-nil q))
  link_first-First nodes ((c, v) ∷ es) q i (e, l) =
      let (lt, h, word) = t.edge 0 c v e in
      let nodes' = unlinked nodes i v h in
      rw (byte_at-get_or nodes v (fresh_node 0) (omega (arith, i.size)), Returns)
        (Returns-imp (First nodes' es (q ++ (v ∷ []))) (First nodes ((c, v) ∷ es) q)
          (link_first nodes' es (q ++ (v ∷ [])))
          (link_first-First nodes' es (q ++ (v ∷ [])) (unlinked-IsSame nodes i v h) l)
          (λ r (i', k, a, f). (
            i',
            (λ x m. k x (unlinked_kept nodes i v h x m)),
            (k v (unlinked_self nodes i v h), a),
            f ∙ append_assoc q (v ∷ []) (targets es),
          )))

  trie-IsSame : IsSame trie
  trie-IsSame = record { size = refl; next = λ v. refl; outs = λ v. refl; no_link = t.no_link }

  child_of_root : (c v : ℕ) → locate trie (c ∷ []) ≡ some v → In (c, v) (at trie 0).next
  unfolding walk
  child_of_root c v e = edge_of-In c v (at trie 0).next (sym (locate-snoc trie [] c 0 refl) ∙ e)

  linked_one :
      (nodes : List Node)
      → All (λ e. Unlinked nodes e.1) (at trie 0).next
      → (x : Bytes) → length x ≤ 1
      → IsLinkedAt trie nodes x
  unfolding longest nearest
  linked_one nodes a [] h = tt
  linked_one nodes a (c ∷ []) h =
      λ v e. All_at (λ e. Unlinked nodes e.1) (c, v) (at trie 0).next a (child_of_root c v e)
  linked_one nodes a (c ∷ d ∷ x) h = absurd (omega arith)

  first_child :
      (w : Bytes) (m : ℕ) → length w ≡ 1 → locate trie w ≡ some m → In w (kids [] (at trie 0).next)
  first_child [] m l f = absurd (omega arith)
  first_child (c ∷ []) m l f = kids-In [] c m (at trie 0).next (child_of_root c m f)
  first_child (c ∷ d ∷ w) m l f = absurd (omega arith)

  -- The children of the root are the first level.
  first-IsLevel :
      (nodes : List Node)
      → IsSame nodes
      → All (λ e. Unlinked nodes e.1) (at trie 0).next
      → IsLevel trie nodes 1 (kids [] (at trie 0).next) [] (targets (at trie 0).next) []
  unfolding walk
  first-IsLevel nodes i a = record {
    pos = omega arith;
    size = i.size;
    next = i.next;
    outs = i.outs;
    no_link = i.no_link;
    queued = kids-Queued trie [] 0 (at trie 0).next refl (next_Listed trie ps t 0);
    later = tt;
    lengths = kids-length [] (at trie 0).next;
    lengths_later = tt;
    linked = linked_one nodes a;
    children =
        λ w c v l e. let (m, f) = front_located trie w (c ∷ []) v e in inl (first_child w m l f);
  }

  -- `build` returns, and every node is linked.
  pub build-IsLinked :
      Returns
        (λ ac. (ac.patterns ≡ ps) × IsLinked trie ac.nodes)
        (build (record { nodes = trie; patterns = ps }))
  unfolding build
  build-IsLinked =
      let es = (at trie 0).next in
      rw (byte_at-get_or trie 0 (fresh_node 0) t.root, Returns)
        (Returns-bind (First trie es []) _ (link_first trie es []) _
          (link_first-First trie es [] trie-IsSame (next_Listed trie ps t 0))
          (λ r (i, k, a, e).
            Returns-bind (IsLinked trie) _ (build_loop (suc (rounds (length trie) trie es)) r.0 r.1)
              _
              (subst
                (λ q.
                  Returns (IsLinked trie) (build_loop (suc (rounds (length trie) trie es)) r.0 q))
                (append-nil (targets es) ∙ sym e)
                (goes trie ps t (suc (rounds (length trie) trie es)) r.0 1 (kids [] es) []
                  (targets es) [] (first-IsLevel r.0 i a)
                  (subst (λ q. work trie ps t q < suc (rounds (length trie) trie es))
                    (sym (append-nil (targets es)))
                    (omega (arith, work-targets trie ps t 0 es (next_Listed trie ps t 0))))))
              (λ nodes l. (refl, l))))
