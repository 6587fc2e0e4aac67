-- ===== src/Sinkfilter/UnionFind/Roots.antt =====
-- The roots of the forest of src/sinkfilter.rs, and that `find` keeps them.
use afeye.Prelude.{
  ℕ, zero, suc, ◌<◌, ◌≡◌, ◌≢◌, ◌⊎◌, inl, inr, refl, sym, ap, ◌∙◌, subst, false, Bool-cases, some,
  none, done, ◌==◌, ==_iff, arith,
}
use afeye.Sinkfilter.UnionFind.{Parents, insert, find_root, compress, find}

abbrev pub IsRoot : Parents → ℕ → Type 0
IsRoot p x = (p x ≡ none) ⊎ (p x ≡ some x)

-- `r` is the root of `x`, at most `n` steps above it.
abbrev pub Root : Parents → ℕ → ℕ → ℕ → Type 0
Root p zero x r = IsRoot p x × (x ≡ r)
Root p (suc n) x r = (IsRoot p x × (x ≡ r)) ⊎ ((v : ℕ) × (p x ≡ some v) × (v ≢ x) × Root p n v r)

pub Root-here : (p : Parents) (n x : ℕ) → IsRoot p x → Root p n x x
Root-here p zero x h = (h, refl)
Root-here p (suc n) x h = inl (h, refl)

pub Root-suc : (p : Parents) (n x r : ℕ) → Root p n x r → Root p (suc n) x r
Root-suc p zero x r h = inl h
Root-suc p (suc n) x r (inl h) = inl h
Root-suc p (suc n) x r (inr (v, e, ne, t)) = inr (v, e, ne, Root-suc p n v r t)

some_injective : (a b : ℕ) → some a ≡ some b → a ≡ b
some_injective a b e = cc

pub IsRoot-no_step : (p : Parents) (x v : ℕ) → IsRoot p x → p x ≡ some v → v ≢ x → ⊥
IsRoot-no_step p x v (inl e) f ne = absurd (let bad : none ≡ some v = sym e ∙ f in cc)
IsRoot-no_step p x v (inr e) f ne = ne (some_injective v x (sym f ∙ e))

-- A node has one root, and the root is one.
pub Root-unique : (p : Parents) (n m x r s : ℕ) → Root p n x r → Root p m x s → r ≡ s
Root-unique p zero zero x r s (h, e) (k, f) = sym e ∙ f
Root-unique p zero (suc m) x r s (h, e) (inl (k, f)) = sym e ∙ f
Root-unique p zero (suc m) x r s (h, e) (inr (v, f, ne, t)) = absurd (IsRoot-no_step p x v h f ne)
Root-unique p (suc n) zero x r s (inl (h, e)) (k, f) = sym e ∙ f
Root-unique p (suc n) zero x r s (inr (v, e, ne, t)) (k, f) = absurd (IsRoot-no_step p x v k e ne)
Root-unique p (suc n) (suc m) x r s (inl (h, e)) (inl (k, f)) = sym e ∙ f
Root-unique p (suc n) (suc m) x r s (inl (h, e)) (inr (v, f, ne, t)) =
    absurd (IsRoot-no_step p x v h f ne)
Root-unique p (suc n) (suc m) x r s (inr (v, e, ne, t)) (inl (k, f)) =
    absurd (IsRoot-no_step p x v k e ne)
Root-unique p (suc n) (suc m) x r s (inr (v, e, ne, t)) (inr (w, f, ne', u)) =
    Root-unique p n m v r s t (subst (λ y. Root p m y s) (some_injective w v (sym f ∙ e)) u)

pub Root-IsRoot : (p : Parents) (n x r : ℕ) → Root p n x r → IsRoot p r
Root-IsRoot p zero x r (h, e) = subst (IsRoot p) e h
Root-IsRoot p (suc n) x r (inl (h, e)) = subst (IsRoot p) e h
Root-IsRoot p (suc n) x r (inr (v, e, ne, t)) = Root-IsRoot p n v r t

module _ (p : Parents) where
  find_root-Root : (fuel n x r : ℕ) → Root p n x r → n < fuel → find_root fuel p x ≡ done r
  unfolding find_root
  find_root-Root zero n x r h lt = absurd (omega arith)
  find_root-Root (suc fuel) zero x r (inl e, f) lt = rw (e, find_root) (ap done f)
  find_root-Root (suc fuel) zero x r (inr e, f) lt =
      rw (e, find_root) (rw ((==_iff x x).1 refl) (ap done f))
  find_root-Root (suc fuel) (suc n) x r (inl (inl e, f)) lt = rw (e, find_root) (ap done f)
  find_root-Root (suc fuel) (suc n) x r (inl (inr e, f)) lt =
      rw (e, find_root) (rw ((==_iff x x).1 refl) (ap done f))
  find_root-Root (suc fuel) (suc n) x r (inr (v, e, ne, t)) lt =
      let other : (v == x) ≡ false = ground (arith, ne) in
      rw (e, find_root) (rw other (find_root-Root fuel n v r t (omega arith)))

-- What a map keeps: every node its root, and no node farther from it.
abbrev pub Keeps : Parents → Parents → Type 0
Keeps p p' = (n y s : ℕ) → Root p n y s → Root p' n y s

pub insert_eq : (k v : ℕ) (p : Parents) → insert k v p k ≡ some v
unfolding insert
insert_eq k v p = rw ((==_iff k k).1 refl)

pub insert_ne : (k v : ℕ) (p : Parents) (x : ℕ) → x ≢ k → insert k v p x ≡ p x
unfolding insert
insert_ne k v p x ne = let other : (x == k) ≡ false = ground (arith, ne) in rw other

pub IsRoot-insert : (k v : ℕ) (p : Parents) (x : ℕ) → x ≢ k → IsRoot p x → IsRoot (insert k v p) x
IsRoot-insert k v p x ne (inl e) = inl (insert_ne k v p x ne ∙ e)
IsRoot-insert k v p x ne (inr e) = inr (insert_ne k v p x ne ∙ e)

module _ (p : Parents) (cur v root n : ℕ) (e : p cur ≡ some v) (ne : v ≢ cur)
    (t : Root p n cur root) where
  root-ne : root ≢ cur
  root-ne f = IsRoot-no_step p cur v (subst (IsRoot p) f (Root-IsRoot p n cur root t)) e ne

  node-ne : (y : ℕ) → IsRoot p y → y ≢ cur
  node-ne y h f = IsRoot-no_step p cur v (subst (IsRoot p) f h) e ne

  -- A shortcut to the root of a node keeps every root.
  shortcut-Keeps : Keeps p (insert cur root p)
  shortcut-Keeps zero y s (h, f) = (IsRoot-insert cur root p y (node-ne y h) h, f)
  shortcut-Keeps (suc m) y s (inl (h, f)) = inl (IsRoot-insert cur root p y (node-ne y h) h, f)
  shortcut-Keeps (suc m) y s (inr (w, f, ne', u)) = elim (Bool-cases (y == cur)) [
    | inl q ↦
        let same : y ≡ cur = (==_iff y cur).0 q in
        let r : root ≡ s =
          Root-unique p n (suc m) cur root s t
            (subst (λ z. Root p (suc m) z s) same (inr (w, f, ne', u))) in
        inr (
          root,
          ap (insert cur root p) same ∙ insert_eq cur root p,
          (λ g. root-ne (g ∙ same)),
          subst (Root (insert cur root p) m root) r (
              Root-here (insert cur root p) m root
                (IsRoot-insert cur root p root root-ne (Root-IsRoot p n cur root t))),
        )
    | inr q ↦
        let other : y ≢ cur = ground (arith, q) in
        inr (w, insert_ne cur root p y other ∙ f, ne', shortcut-Keeps m w s u)
  ]

compress-Keeps :
    (fuel n cur root : ℕ) (p : Parents)
    → Root p n cur root
    → n < fuel
    → (p' : Parents) × (compress fuel root p cur ≡ done p') × Keeps p p'
unfolding compress
compress-Keeps zero n cur root p t lt = absurd (omega arith)
compress-Keeps (suc fuel) zero cur root p (h, e) lt =
    (p, rw ((==_iff cur root).1 e), (λ m y s k. k))
compress-Keeps (suc fuel) (suc n) cur root p (inl (h, e)) lt =
    (p, rw ((==_iff cur root).1 e), (λ m y s k. k))
compress-Keeps (suc fuel) (suc n) cur root p (inr (v, e, ne, t)) lt =
    let above : Root p (suc n) cur root = inr (v, e, ne, t) in
    let keeps = shortcut-Keeps p cur v root (suc n) e ne above in
    let apart : root ≢ cur = root-ne p cur v root (suc n) e ne above in
    let test : (cur == root) ≡ false = ground (arith, apart) in
    let test' : (v == cur) ≡ false = ground (arith, ne) in
    let (p', eq, k) =
      compress-Keeps fuel n v root (insert cur root p) (keeps n v root t) (omega arith) in
    (p', rw test (rw e (rw test' eq)), (λ m y s h. k m y s (keeps m y s h)))

-- `find` returns the root of the node, and its shortcuts keep the root of every node and move none
-- away from it; the node is at most `n` steps below its root, and there is more fuel.
pub find-Root :
    (fuel n x r : ℕ) (p : Parents)
    → Root p n x r
    → n < fuel
    → (p' : Parents) × (find fuel p x ≡ done (r, p')) × Keeps p p'
unfolding find
find-Root fuel n x r p t lt =
    let (p', e, k) = compress-Keeps fuel n x r p t lt in
    (p', rw (find_root-Root p fuel n x r t lt) (rw e), k)
