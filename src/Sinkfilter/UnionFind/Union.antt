-- ===== src/Sinkfilter/UnionFind/Union.antt =====
-- `union` of src/sinkfilter.rs joins two trees, and no others.
use afeye.Prelude.{
  ℕ, zero, suc, ◌<◌, ◌≡◌, ◌≢◌, inl, inr, sym, ap, ◌∙◌, subst, Bool-cases, done, ◌==◌, ==_iff,
  if◌then◌else◌, arith,
}
use afeye.Sinkfilter.UnionFind.{Parents, insert, union}
use afeye.Sinkfilter.UnionFind.Roots.{
  IsRoot, Root, Root-IsRoot, Root-here, Root-suc, IsRoot-insert, insert_eq, insert_ne, find-Root,
  IsRoot-no_step,
}

module _ (p : Parents) (ra rb : ℕ) (ha : IsRoot p ra) (hb : IsRoot p rb) (apart : rb ≢ ra) where
  hung_below :
      (n y s : ℕ) → IsRoot p y → y ≡ s → Root (insert rb ra p) (suc n) y (if s == rb then ra else s)
  hung_below n y s h e = elim (Bool-cases (s == rb)) [
    | inl q ↦
        let same : y ≡ rb = e ∙ (==_iff s rb).0 q in
        rw (q, Root)
          (inr (
            ra,
            ap (insert rb ra p) same ∙ insert_eq rb ra p,
            (λ f. apart (sym (f ∙ same))),
            Root-here (insert rb ra p) n ra (IsRoot-insert rb ra p ra (λ f. apart (sym f)) ha),
          ))
    | inr q ↦
        let other : y ≢ rb = λ f. (let t : s ≡ rb = sym e ∙ f in ground (arith, q, t)) in
        rw (q, Root) (inl (IsRoot-insert rb ra p y other h, e))
  ]

  -- The tree of `rb` hangs below `ra` now.
  insert-Root :
      (n y s : ℕ) → Root p n y s → Root (insert rb ra p) (suc n) y (if s == rb then ra else s)
  insert-Root zero y s (h, e) = hung_below zero y s h e
  insert-Root (suc n) y s (inl (h, e)) = hung_below (suc n) y s h e
  insert-Root (suc n) y s (inr (v, e, ne, t)) =
      let other : y ≢ rb = λ f. IsRoot-no_step p y v (subst (IsRoot p) (sym f) hb) e ne in
      inr (v, insert_ne rb ra p y other ∙ e, ne, insert-Root n v s t)

same_root : (ra rb s : ℕ) → ra ≡ rb → s ≡ (if s == rb then ra else s)
same_root ra rb s e = ground (arith, e)

-- `union` of two nodes gives the nodes of the second tree the root of the first and leaves every
-- other node its root, and no node is more than one step farther from its root; the two nodes are
-- at most `n` steps below their roots, and there is more fuel.
pub union-Root :
    (fuel n a b ra rb : ℕ) (p : Parents)
    → Root p n a ra
    → Root p n b rb
    → n < fuel
    → (p' : Parents) × (union fuel p a b ≡ done p')
      × ((m y s : ℕ) → Root p m y s → Root p' (suc m) y (if s == rb then ra else s))
unfolding union
union-Root fuel n a b ra rb p ta tb lt =
    let (p1, e, k) = find-Root fuel n a ra p ta lt in
    let (p2, f, l) = find-Root fuel n b rb p1 (k n b rb tb) lt in
    elim (Bool-cases (ra == rb)) [
      | inl q ↦ (
        p2,
        rw e (rw f (rw q)),
        (λ m y s h.
            subst (Root p2 (suc m) y) (same_root ra rb s ((==_iff ra rb).0 q))
              (Root-suc p2 m y s (l m y s (k m y s h)))),
      )
      | inr q ↦ (
        insert rb ra p2,
        rw e (rw f (rw q)),
        (λ m y s h.
            insert-Root p2 ra rb (Root-IsRoot p2 n a ra (l n a ra (k n a ra ta)))
              (Root-IsRoot p2 n b rb (l n b rb (k n b rb tb))) (λ g. ground (arith, q, g)) m y s
              (l m y s (k m y s h))),
      )
    ]
