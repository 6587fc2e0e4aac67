-- ===== src/Matcher/Find.antt =====
-- `AhoCorasick::find` of src/matcher.rs on linked nodes.
use afeye.Prelude.{
  ℕ, zero, suc, ◌+◌, ◌-◌, ◌≤◌, ◌<◌, ◌≡◌, refl, sym, ap, ◌∙◌, Bool-cases, inl, inr, ◌⊎◌, some, none,
  Option-cases, List, [], ◌∷◌, ◌++◌, append_assoc, map, All, Bytes, bytes_eq, bytes_eq_iff, length,
  length-append, get_elem?, get_elem?-append, subst, le→ltb-false, done, ◌>>=◌, byte_at, arith,
}
use afeye.Matcher.{
  Node, fresh_node, edge_of, child_of, goto, output, report, report_all, find_loop, find,
  AhoCorasick,
}
use afeye.Matcher.Trie.{
  at, locate, locate-none, IsTrieOf, locate-lt, locate-le, locate-word, byte_at-get_or, ids_of,
  ids_from, hits, occurrences,
}
use afeye.Matcher.Trie.Longest.{
  longest, nearest, reach_len, reach_len-le, reach_len-lt, longest-lt, IsLinked, longest-snoc_some,
  IsLinkedAt, output-nearest, mark_at, longest-snoc_none, or_else, longest-root_none, longest-gone,
  longest-here, reach_len-gone, reach_len-here,
}

-- Every id stands for the word.
abbrev pub AllSpell : List Bytes → Bytes → List ℕ → Type 0
AllSpell ps w ids = All (λ id. get_elem? ps id ≡ some w) ids

ids_from-AllSpell :
    (front ps : List Bytes) (i : ℕ) (w : Bytes)
    → i ≡ length front
    → AllSpell (front ++ ps) w (ids_from i ps w)
unfolding ids_from
ids_from-AllSpell front [] i w e = tt
ids_from-AllSpell front (p ∷ ps) i w e =
    let rest =
      subst (λ l. AllSpell l w (ids_from (suc i) ps w)) (append_assoc front (p ∷ []) ps)
        (ids_from-AllSpell (front ++ (p ∷ [])) ps (suc i) w
          (omega (arith, length-append front (p ∷ [])))) in
    elim (Bool-cases (bytes_eq p w)) [
      | inl same ↦ rw same (
        get_elem?-append front (p ∷ ps) i 0 (omega arith) ∙ ap some ((bytes_eq_iff p w).0 same),
        rest,
      )
      | inr other ↦ rw other rest
    ]

pub ids_of-AllSpell :
    (ps : List Bytes) (c : ℕ) (s : Bytes) → AllSpell ps (c ∷ s) (ids_of ps (c ∷ s))
unfolding ids_of
ids_of-AllSpell ps c s = ids_from-AllSpell [] ps 0 (c ∷ s) refl

report-map :
    (ps : List Bytes) (w : Bytes) (ids : List ℕ) (i : ℕ)
    → AllSpell ps w ids
    → length w ≤ suc i
    → report ps ids i ≡ done (map (λ id. (id, i + 1 - length w)) ids)
unfolding report byte_at
report-map ps w [] i a h = refl
report-map ps w (id ∷ ids) i (e, a) h =
    rw (e, report)
      (rw (report-map ps w ids i a h) (rw (le→ltb-false (i + 1) (length w) (omega arith)) refl))

hits-skip :
    (ps : List Bytes) (c : ℕ) (s : Bytes) (e : ℕ)
    → ids_of ps (c ∷ s) ≡ []
    → hits ps (c ∷ s) e ≡ hits ps s e
unfolding hits
hits-skip ps c s e q = rw q refl

List-cases {ℓ} : {A : Type ℓ} (xs : List A) → (xs ≡ []) ⊎ ((x : A) × (ys : List A) × (xs ≡ x ∷ ys))
List-cases [] = inl refl
List-cases (x ∷ xs) = inr (x, xs, refl)

module _ (trie : List Node) (ps : List Bytes) (t : IsTrieOf trie ps) (nodes : List Node)
    (l : IsLinked trie nodes) where
  node_at : (u : ℕ) → u < length trie → byte_at nodes u ≡ done (at nodes u)
  node_at u h = byte_at-get_or nodes u (fresh_node 0) (omega (arith, l.size))

  child_at : (u b : ℕ) → u < length trie → child_of nodes u b ≡ done (edge_of b (at trie u).next)
  unfolding child_of
  child_at u b h = rw (node_at u h) (ap (λ es. done (edge_of b es)) (l.next u))

  goto_child :
      (fuel u b n : ℕ)
      → u < length trie
      → edge_of b (at trie u).next ≡ some n
      → goto (suc fuel) nodes u b ≡ done n
  unfolding goto
  goto_child fuel u b n h e = rw (child_at u b h) (rw (node_at u h) (rw e refl))

  goto_root : (fuel b : ℕ) → edge_of b (at trie 0).next ≡ none → goto (suc fuel) nodes 0 b ≡ done 0
  unfolding goto
  goto_root fuel b e = rw (child_at 0 b t.root) (rw (node_at 0 t.root) (rw e refl))

  goto_up :
      (fuel u b : ℕ)
      → 0 < u
      → u < length trie
      → edge_of b (at trie u).next ≡ none
      → goto (suc fuel) nodes u b ≡ goto fuel nodes (at nodes u).fail b
  unfolding goto
  goto_up fuel zero b p h e = absurd (omega arith)
  goto_up fuel (suc u) b p h e =
      rw (child_at (suc u) b h) (rw (node_at (suc u) h) (rw e (ground arith)))

  -- The node of the longest suffix, and then the node of the longest suffix with the next byte.
  goto-longest :
      (fuel : ℕ) (s : Bytes) (b : ℕ)
      → reach_len trie s < fuel
      → goto fuel nodes (longest trie s) b ≡ done (longest trie (s ++ (b ∷ [])))
  unfolding longest
  goto-longest zero s b h = absurd (omega arith)
  goto-longest (suc fuel) [] b h = elim (Option-cases (edge_of b (at trie 0).next)) [
    | inl e ↦ goto_root fuel b e ∙ ap done (sym (longest-root_none trie ps t b e))
    | inr (n, e) ↦
        goto_child fuel 0 b n t.root e ∙ ap done (sym (longest-snoc_some trie ps t [] b n e))
  ]
  goto-longest (suc fuel) (c ∷ s) b h = elim (Option-cases (locate trie (c ∷ s))) [
    | inl f ↦
        ap (λ u. goto (suc fuel) nodes u b) (longest-gone trie ps t c s f)
        ∙ (goto-longest (suc fuel) s b (omega (arith, reach_len-gone trie ps t c s f))
            ∙ ap (λ o. done (or_else o (longest trie (s ++ (b ∷ [])))))
                (sym (locate-none trie (c ∷ s) b f)))
    | inr (v, f) ↦
        let here = longest-here trie ps t c s v f in
        ap (λ u. goto (suc fuel) nodes u b) here
        ∙ elim (Option-cases (edge_of b (at trie v).next)) [
          | inl e ↦
              goto_up fuel v b (omega (arith, locate-le trie ps t (c ∷ s) v f))
                (locate-lt trie ps t (c ∷ s) v f) e
              ∙ (ap (λ u. goto fuel nodes u b) (l.fail c s v f)
                  ∙ (goto-longest fuel s b
                        (omega (arith, reach_len-here trie ps t c s v f, reach_len-le trie s))
                      ∙ ap done (sym (longest-snoc_none trie ps t c s b v f e))))
          | inr (n, e) ↦
              goto_child fuel v b n (locate-lt trie ps t (c ∷ s) v f) e
              ∙ ap done (
                  sym (
                    longest-snoc_some trie ps t (c ∷ s) b n
                      (ap (λ u. edge_of b (at trie u).next) here ∙ e)))
        ]
  ]

  node_outs : (s : Bytes) (v : ℕ) → locate trie s ≡ some v → (at nodes v).self_out ≡ ids_of ps s
  node_outs s v e =
      l.outs v
      ∙ (t.ids v (locate-lt trie ps t s v e) ∙ ap (ids_of ps) (locate-word trie ps t s v e))

  nearest-gone :
      (c : ℕ) (s : Bytes) → locate trie (c ∷ s) ≡ none → nearest trie (c ∷ s) ≡ nearest trie s
  unfolding nearest
  nearest-gone c s e = ap (λ o. mark_at trie o (nearest trie s)) e

  nearest-here :
      (c : ℕ) (s : Bytes) (v : ℕ)
      → locate trie (c ∷ s) ≡ some v
      → nearest trie (c ∷ s) ≡ output (ids_of ps (c ∷ s)) v (nearest trie s)
  unfolding nearest
  nearest-here c s v e =
      ap (λ o. mark_at trie o (nearest trie s)) e
      ∙ ap (λ ids. output ids v (nearest trie s)) (sym (l.outs v) ∙ node_outs (c ∷ s) v e)

  linked_at : (x : Bytes) → IsLinkedAt trie nodes x
  linked_at [] = tt
  linked_at (c ∷ s) = λ v e. (l.fail c s v e, l.link c s v e)

  report_all_step :
      (fuel : ℕ) (s : Bytes) (v i : ℕ)
      → locate trie s ≡ some v
      → report_all (suc fuel) nodes ps (some v) i ≡ (
          report ps (ids_of ps s) i >>= λ here.
          report_all fuel nodes ps (at nodes v).out_link i >>= λ rest. done (here ++ rest))
  unfolding report_all
  report_all_step fuel s v i e =
      rw (node_at v (locate-lt trie ps t s v e)) (rw (node_outs s v e) refl)

  -- The reports from the node of a suffix on are those of all suffixes.
  report_all-hits :
      (fuel : ℕ) (s : Bytes) (i : ℕ)
      → reach_len trie s < fuel
      → length s ≤ suc i
      → report_all fuel nodes ps (nearest trie s) i ≡ done (hits ps s (i + 1))
  unfolding nearest hits report_all
  report_all-hits zero s i h k = absurd (omega arith)
  report_all-hits (suc fuel) [] i h k = refl
  report_all-hits (suc fuel) (c ∷ s) i h k = elim (Option-cases (locate trie (c ∷ s))) [
    | inl e ↦
        ap (λ o. report_all (suc fuel) nodes ps o i) (nearest-gone c s e)
        ∙ (report_all-hits (suc fuel) s i (omega (arith, reach_len-gone trie ps t c s e))
              (omega arith)
            ∙ ap done (sym (hits-skip ps c s (i + 1) (t.full (c ∷ s) e))))
    | inr (v, e) ↦
        let lower : reach_len trie s < fuel =
          omega (arith, reach_len-here trie ps t c s v e, reach_len-le trie s) in
        elim (List-cases (ids_of ps (c ∷ s))) [
          | inl q ↦
              ap (λ o. report_all (suc fuel) nodes ps o i)
                (nearest-here c s v e ∙ ap (λ ids. output ids v (nearest trie s)) q)
              ∙ (report_all-hits (suc fuel) s i (omega arith) (omega arith)
                  ∙ ap done (sym (hits-skip ps c s (i + 1) q)))
          | inr (id, ids, q) ↦
              ap (λ o. report_all (suc fuel) nodes ps o i)
                (nearest-here c s v e ∙ ap (λ ids. output ids v (nearest trie s)) q)
              ∙ (report_all_step fuel (c ∷ s) v i e
                  ∙ rw (report-map ps (c ∷ s) (ids_of ps (c ∷ s)) i (ids_of-AllSpell ps c s) k) (
                      rw (l.link c s v e) (rw (report_all-hits fuel s i lower (omega arith)) refl)))
        ]
  ]

  abbrev linked : AhoCorasick
  linked = record { nodes = nodes; patterns = ps }

  find_loop-occurrences :
      (front text : Bytes)
      → find_loop linked text (length front) (longest trie front) ≡ done (occurrences ps front text)
  unfolding find_loop occurrences
  find_loop-occurrences front [] = refl
  find_loop-occurrences front (b ∷ text) =
      let next = front ++ (b ∷ []) in
      let one_more : length next ≡ suc (length front) =
        omega (arith, length-append front (b ∷ [])) in
      let fuel : reach_len trie front < suc (length nodes) =
        omega (arith, l.size, reach_len-lt trie ps t front) in
      let more : reach_len trie next < suc (length nodes) =
        omega (arith, l.size, reach_len-lt trie ps t next) in
      let end : length front + 1 ≡ length next = omega arith in
      rw (goto-longest (suc (length nodes)) front b fuel) (
        rw (node_at (longest trie next) (longest-lt trie ps t next)) (
          rw
            (output-nearest trie ps t nodes l.outs l.no_link next (length next) (omega arith)
              (λ x h. linked_at x))
            (rw (report_all-hits (suc (length nodes)) next (length front) more (omega arith))
              (rw end (rw (find_loop-occurrences next text) refl)))))

no_hits : (s : Bytes) (e : ℕ) → hits [] s e ≡ []
unfolding hits ids_of ids_from
no_hits [] e = refl
no_hits (c ∷ s) e = no_hits s e

no_occurrences : (front text : Bytes) → occurrences [] front text ≡ []
unfolding occurrences
no_occurrences front [] = refl
no_occurrences front (b ∷ text) =
    rw (no_hits (front ++ (b ∷ [])) (length (front ++ (b ∷ [])))) (no_occurrences _ text)

-- On linked nodes `find` reports what the search for each pattern at each place finds.
pub find-IsLinked :
    (trie : List Node) (ps : List Bytes) (t : IsTrieOf trie ps) (nodes : List Node)
    → IsLinked trie nodes
    → (text : Bytes)
    → find (record { nodes = nodes; patterns = ps }) text ≡ done (occurrences ps [] text)
unfolding find longest
find-IsLinked trie [] t nodes l text = ap done (sym (no_occurrences [] text))
find-IsLinked trie (p ∷ ps) t nodes l text = find_loop-occurrences trie (p ∷ ps) t nodes l [] text
