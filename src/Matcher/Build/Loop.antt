-- ===== src/Matcher/Build/Loop.antt =====
-- The loop of `AhoCorasick::build` of src/matcher.rs ends, and then every node is linked.
use afeye.Prelude.{
  ℕ, zero, suc, ◌+◌, ◌-◌, ◌≤◌, ◌<◌, ◌≡◌, refl, sym, ap, subst, ◌∙◌, Bool-cases, inl, inr, some,
  none, Option-cases, List, [], ◌∷◌, ◌++◌, append-nil, append_assoc, Bytes, length, Returns,
  Returns-bind, leb, arith, tests,
}
use afeye.Matcher.{Node, fresh_node, link_children, build_loop}
use afeye.Matcher.Trie.{at, walk, locate, walk-append, walk-none, IsTrieOf, byte_at-get_or}
use afeye.Matcher.Trie.Longest.{IsLinkedAt, IsLinked}
use afeye.Matcher.Build.Rounds.{In, targets, next_Listed, work, work-append, work-targets}
use afeye.Matcher.Build.Children.{Linked, link_children-Linked}
use afeye.Matcher.Build.Queue.{
  IsLevel, replaced, taken-IsFrame, put_back-IsLevel, kids, located, u_lt, u_lt', linked-replaced,
}

pub snoc_view :
    (x : Bytes) (n : ℕ)
    → length x ≡ suc n
    → (w : Bytes) × (c : ℕ) × (x ≡ w ++ (c ∷ [])) × (length w ≡ n)
snoc_view [] n h = absurd (omega arith)
snoc_view (c ∷ []) n h = ([], c, refl, omega arith)
snoc_view (c ∷ d ∷ x) zero h = absurd (omega arith)
snoc_view (c ∷ d ∷ x) (suc n) h =
    let (w, e, f, l) = snoc_view (d ∷ x) n (omega arith) in
    (c ∷ w, e, ap (◌∷◌ c) f, omega (arith, l))

pub front_located :
    (trie : List Node) (w y : Bytes) (v : ℕ)
    → locate trie (w ++ y) ≡ some v
    → (m : ℕ) × (locate trie w ≡ some m)
front_located trie w y v e = elim (Option-cases (locate trie w)) [
  | inl f ↦
      let bad : none ≡ some v =
        sym (walk-append trie (some 0) w y ∙ (ap (λ o. walk trie o y) f ∙ walk-none trie y)) ∙ e in
      absurd (cc)
  | inr m ↦ m
]

module _ (trie : List Node) (nodes : List Node) (n : ℕ) where
  -- No level follows an empty one.
  too_deep :
      IsLevel trie nodes n [] [] [] []
      → (k : ℕ) (x : Bytes) (v : ℕ) → length x ≡ suc (k + n)
      → locate trie x ≡ some v
      → ⊥
  too_deep lv zero x v h e =
      let (w, c, f, l) = snoc_view x n (omega arith) in
      elim (lv.children w c v l (ap (locate trie) (sym f) ∙ e)) [
        | inl bad ↦ bad
        | inr (bad, k) ↦ bad
      ]
  too_deep lv (suc k) x v h e =
      let (w, c, f, l) = snoc_view x (suc (k + n)) (omega arith) in
      let (m, g) = front_located trie w (c ∷ []) v (ap (locate trie) (sym f) ∙ e) in
      too_deep lv k w m (omega (arith, l)) g

  all_linked : IsLevel trie nodes n [] [] [] [] → (x : Bytes) → IsLinkedAt trie nodes x
  all_linked lv [] = tt
  all_linked lv (c ∷ s) = λ v e. elim (Bool-cases (leb (suc (length s)) n)) [
    | inl q ↦ lv.linked (c ∷ s) (omega tests) v e
    | inr q ↦ absurd (too_deep lv (length s - n) (c ∷ s) v (omega tests) e)
  ]

  IsLinked-level : IsLevel trie nodes n [] [] [] [] → IsLinked trie nodes
  IsLinked-level lv = record {
    size = lv.size;
    next = lv.next;
    outs = lv.outs;
    fail = λ c s v e. (all_linked lv (c ∷ s) v e).0;
    link = λ c s v e. (all_linked lv (c ∷ s) v e).1;
    no_link = lv.no_link;
  }

  -- When a level is done, the next one is in the queue.
  next-IsLevel :
      (there : List Bytes) (q : List ℕ)
      → IsLevel trie nodes n [] there [] q
      → IsLevel trie nodes (suc n) there [] q []
  next-IsLevel there q lv = record {
    pos = omega arith;
    size = lv.size;
    next = lv.next;
    outs = lv.outs;
    no_link = lv.no_link;
    queued = lv.later;
    later = tt;
    lengths = lv.lengths_later;
    lengths_later = tt;
    linked = linked_next;
    children = λ w c v l e.
        let (m, f) = front_located trie w (c ∷ []) v e in
        let (w', c', g, k) = snoc_view w n l in
        elim (lv.children w' c' m k (ap (locate trie) (sym g) ∙ f)) [
          | inl bad ↦ absurd bad
          | inr (h, _) ↦ inl (subst (λ y. In y there) (sym g) h)
        ];
  }
    where
      linked_next : (x : Bytes) → length x ≤ suc n → IsLinkedAt trie nodes x
      linked_next [] h = tt
      linked_next (c ∷ s) h = λ v e. elim (Bool-cases (leb (suc (length s)) n)) [
        | inl q ↦ lv.linked (c ∷ s) (omega tests) v e
        | inr q ↦
            let (w', c', g, k) = snoc_view (c ∷ s) n (omega tests) in
            elim (lv.children w' c' v k (ap (locate trie) (sym g) ∙ e)) [
              | inl bad ↦ absurd bad
              | inr (_, l) ↦ subst (λ y. IsLinkedAt trie nodes y) (sym g) l v e
            ]
      ]

module _ (trie : List Node) (ps : List Bytes) (t : IsTrieOf trie ps) where
  abbrev Goes : ℕ → Type 0
  Goes fuel =
      (nodes : List Node) (n : ℕ) (here there : List Bytes) (p q : List ℕ)
      → IsLevel trie nodes n here there p q
      → work trie ps t (p ++ q) < fuel
      → Returns (IsLinked trie) (build_loop fuel nodes (p ++ q))

  round :
      (fuel : ℕ)
      → Goes fuel
      → (nodes : List Node) (b : ℕ) (s : Bytes) (u : ℕ) (here there : List Bytes) (p q : List ℕ)
      → IsLevel trie nodes (suc (length s)) ((b ∷ s) ∷ here) there (u ∷ p) q
      → work trie ps t (u ∷ (p ++ q)) < suc fuel
      → Returns (IsLinked trie) (build_loop (suc fuel) nodes (u ∷ (p ++ q)))
  unfolding build_loop
  round fuel ih nodes b s u here there p q lv h =
      let e = located trie ps t nodes b s u here there p q lv in
      let lt = u_lt trie ps t nodes b s u here there p q lv in
      let fr = taken-IsFrame trie ps t nodes b s u here there p q lv in
      let es = (at trie u).next in
      rw (byte_at-get_or nodes u (fresh_node 0) lt, Returns)
        (rw (lv.next u, Returns)
          (Returns-bind (Linked trie ps t b s u e (replaced nodes u [] lt) es (p ++ q)) _
            (link_children (length nodes) (replaced nodes u [] lt) u es (p ++ q)) _
            (link_children-Linked trie ps t b s u e (length nodes) (replaced nodes u [] lt) es
              (p ++ q) (omega (arith, lv.size)) fr
              (λ x k. linked-replaced nodes u [] lt trie x (lv.linked x k))
              (next_Listed trie ps t u))
            (λ r (fr', kept, new, f).
              let lt' = u_lt' trie ps t nodes b s u here there p q lv r.0 fr' kept new in
              rw (byte_at-get_or r.0 u (fresh_node 0) lt', Returns)
                (subst (λ k. Returns (IsLinked trie) (build_loop fuel (replaced r.0 u es lt') k))
                  (sym (f ∙ append_assoc p q (targets es)))
                  (ih (replaced r.0 u es lt') (suc (length s)) here (there ++ kids (b ∷ s) es) p
                    (q ++ targets es)
                    (put_back-IsLevel trie ps t nodes b s u here there p q lv r.0 fr' kept new)
                    (omega (
                      arith,
                      h,
                      work-append trie ps t p (q ++ targets es),
                      work-append trie ps t q (targets es),
                      work-append trie ps t p q,
                      work-targets trie ps t u es (next_Listed trie ps t u),
                    )))))))

  -- A round for the first word of a level, whatever its length is written as.
  round_of :
      (fuel : ℕ)
      → Goes fuel
      → (nodes : List Node) (n : ℕ) (w : Bytes) (u : ℕ) (here there : List Bytes) (p q : List ℕ)
      → IsLevel trie nodes n (w ∷ here) there (u ∷ p) q
      → work trie ps t (u ∷ (p ++ q)) < suc fuel
      → Returns (IsLinked trie) (build_loop (suc fuel) nodes (u ∷ (p ++ q)))
  round_of fuel ih nodes n [] u here there p q lv h = absurd (omega (arith, lv.pos, lv.lengths.0))
  round_of fuel ih nodes n (b ∷ s) u here there p q lv h =
      round fuel ih nodes b s u here there p q
        (subst (λ k. IsLevel trie nodes k ((b ∷ s) ∷ here) there (u ∷ p) q) (sym lv.lengths.0) lv) h

  pub goes : (fuel : ℕ) → Goes fuel
  unfolding build_loop
  goes zero nodes n here there p q lv h = absurd (omega arith)
  goes (suc fuel) nodes n (w ∷ here) there (u ∷ p) q lv h =
      round_of fuel (goes fuel) nodes n w u here there p q lv h
  goes (suc fuel) nodes n [] (w ∷ there) [] (u ∷ q) lv h =
      subst (λ k. Returns (IsLinked trie) (build_loop (suc fuel) nodes (u ∷ k))) (append-nil q)
        (round_of fuel (goes fuel) nodes (suc n) w u there [] q []
          (next-IsLevel trie nodes n (w ∷ there) (u ∷ q) lv)
          (subst (λ k. work trie ps t (u ∷ k) < suc fuel) (sym (append-nil q)) h))
  goes (suc fuel) nodes n [] [] [] [] lv h = IsLinked-level trie nodes n lv
  goes (suc fuel) nodes n [] [] [] (u ∷ q) lv h = absurd lv.later
  goes (suc fuel) nodes n [] (w ∷ there) [] [] lv h = absurd lv.later
  goes (suc fuel) nodes n [] there (u ∷ p) q lv h = absurd lv.queued
  goes (suc fuel) nodes n (w ∷ here) there [] q lv h = absurd lv.queued
