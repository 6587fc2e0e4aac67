-- ===== src/Matcher/Build/Fail.antt =====
-- The loop of `AhoCorasick::build` of src/matcher.rs that finds the failure link of a child.
use afeye.Prelude.{
  ℕ, zero, suc, ◌≤◌, ◌<◌, ◌≡◌, ◌≢◌, refl, sym, ap, ◌∙◌, false, Bool-cases, inl, inr, some, none,
  Option-cases, List, [], ◌∷◌, ◌++◌, Bytes, length, length-append, done, byte_at, ◌==◌, ==_iff,
  arith,
}
use afeye.Matcher.{Node, fresh_node, edge_of, child_of, fail_of}
use afeye.Matcher.Trie.{
  at, walk, locate, locate-none, locate-snoc, IsTrieOf, locate-lt, locate-le, byte_at-get_or,
}
use afeye.Matcher.Trie.Longest.{
  longest, reach_len, reach_len-le, IsLinkedAt, or_else, longest-snoc_some, longest-snoc_none,
  longest-root_none, longest-gone, longest-here, reach_len-gone, reach_len-here,
}

-- `nodes` while the edges of `u` are taken out: all but those, and the links, are as in `trie`.
pub record IsFrame (trie nodes : List Node) (u : ℕ) : Type 0 where
  pub size : length nodes ≡ length trie
  pub next : (v : ℕ) → v ≢ u → (at nodes v).next ≡ (at trie v).next
  pub outs : (v : ℕ) → (at nodes v).self_out ≡ (at trie v).self_out
  pub no_link : (at nodes 0).out_link ≡ none

module _ (trie : List Node) (ps : List Bytes) (t : IsTrieOf trie ps) (nodes : List Node) (u : ℕ)
    (fr : IsFrame trie nodes u) (n : ℕ)
    (linked : (x : Bytes) → length x ≤ n → IsLinkedAt trie nodes x)
    (out : (x : Bytes) → locate trie x ≡ some u → n < length x) (v : ℕ)
    (child : (x : Bytes) → locate trie x ≡ some v → suc n < length x) where
  node_at : (f : ℕ) → f < length trie → byte_at nodes f ≡ done (at nodes f)
  node_at f h = byte_at-get_or nodes f (fresh_node 0) (omega (arith, fr.size))

  -- A node on the way is not `u`, so its edges are there.
  child_at :
      (x : Bytes) (f c : ℕ)
      → length x ≤ n
      → locate trie x ≡ some f
      → child_of nodes f c ≡ done (edge_of c (at trie f).next)
  unfolding child_of
  child_at x f c h e = rw (node_at f (locate-lt trie ps t x f e)) (
      ap (λ es. done (edge_of c es))
        (fr.next f (λ q. absurd (omega (arith, out x (e ∙ ap some q))))))

  not_child :
      (x : Bytes) (f c m : ℕ)
      → length x ≤ n
      → locate trie x ≡ some f
      → edge_of c (at trie f).next ≡ some m
      → (m == v) ≡ false
  not_child x f c m h e g = elim (Bool-cases (m == v)) [
    | inl q ↦ absurd (
        omega (
          arith,
          child (x ++ (c ∷ [])) (locate-snoc trie x c f e ∙ (g ∙ ap some ((==_iff m v).0 q))),
          length-append x (c ∷ []),
        ))
    | inr q ↦ q
  ]

  fail_child :
      (fuel : ℕ) (x : Bytes) (f c m : ℕ)
      → length x ≤ n
      → locate trie x ≡ some f
      → edge_of c (at trie f).next ≡ some m
      → fail_of (suc fuel) nodes c v f ≡ done m
  unfolding fail_of
  fail_child fuel x f c m h e g =
      rw (child_at x f c h e)
        (rw (node_at f (locate-lt trie ps t x f e)) (rw g (rw (not_child x f c m h e g) refl)))

  fail_root :
      (fuel c : ℕ) → edge_of c (at trie 0).next ≡ none → fail_of (suc fuel) nodes c v 0 ≡ done 0
  unfolding fail_of walk
  fail_root fuel c g = rw (child_at [] 0 c (omega arith) refl) (rw (node_at 0 t.root) (rw g refl))

  fail_up :
      (fuel : ℕ) (x : Bytes) (f c : ℕ)
      → 0 < f
      → length x ≤ n
      → locate trie x ≡ some f
      → edge_of c (at trie f).next ≡ none
      → fail_of (suc fuel) nodes c v f ≡ fail_of fuel nodes c v (at nodes f).fail
  unfolding fail_of
  fail_up fuel x zero c p h e g = absurd (omega arith)
  fail_up fuel x (suc f) c p h e g =
      rw (child_at x (suc f) c h e)
        (rw (node_at (suc f) (locate-lt trie ps t x (suc f) e)) (rw g (ground arith)))

  pub fail_of-longest :
      (fuel : ℕ) (s : Bytes) (c : ℕ)
      → reach_len trie s < fuel
      → length s ≤ n
      → fail_of fuel nodes c v (longest trie s) ≡ done (longest trie (s ++ (c ∷ [])))
  unfolding longest walk
  fail_of-longest zero s c h k = absurd (omega arith)
  fail_of-longest (suc fuel) [] c h k = elim (Option-cases (edge_of c (at trie 0).next)) [
    | inl e ↦ fail_root fuel c e ∙ ap done (sym (longest-root_none trie ps t c e))
    | inr (m, e) ↦
        fail_child fuel [] 0 c m k refl e ∙ ap done (sym (longest-snoc_some trie ps t [] c m e))
  ]
  fail_of-longest (suc fuel) (d ∷ s) c h k = elim (Option-cases (locate trie (d ∷ s))) [
    | inl f ↦
        ap (λ x. fail_of (suc fuel) nodes c v x) (longest-gone trie ps t d s f)
        ∙ (fail_of-longest (suc fuel) s c (omega (arith, reach_len-gone trie ps t d s f))
              (omega arith)
            ∙ ap (λ o. done (or_else o (longest trie (s ++ (c ∷ [])))))
                (sym (locate-none trie (d ∷ s) c f)))
    | inr (g, f) ↦
        let here = longest-here trie ps t d s g f in
        ap (λ x. fail_of (suc fuel) nodes c v x) here
        ∙ elim (Option-cases (edge_of c (at trie g).next)) [
          | inl e ↦
              fail_up fuel (d ∷ s) g c (omega (arith, locate-le trie ps t (d ∷ s) g f)) k f e
              ∙ (ap (λ x. fail_of fuel nodes c v x) (linked (d ∷ s) k g f).0
                  ∙ (fail_of-longest fuel s c
                        (omega (arith, reach_len-here trie ps t d s g f, reach_len-le trie s))
                        (omega arith)
                      ∙ ap done (sym (longest-snoc_none trie ps t d s c g f e))))
          | inr (m, e) ↦
              fail_child fuel (d ∷ s) g c m k f e
              ∙ ap done (
                  sym (
                    longest-snoc_some trie ps t (d ∷ s) c m
                      (ap (λ x. edge_of c (at trie x).next) here ∙ e)))
        ]
  ]
