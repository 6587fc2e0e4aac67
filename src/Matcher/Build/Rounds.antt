-- ===== src/Matcher/Build/Rounds.antt =====
-- The fuel of the loop in `AhoCorasick::build` of src/matcher.rs, and the edges of a node.
use afeye.Prelude.{
  ℕ, zero, suc, ◌+◌, ◌-◌, ◌≤◌, ◌<◌, ◌≡◌, refl, sym, subst, ◌∙◌, Bool-cases, inl, inr, ◌⊎◌, some,
  none, List, [], ◌∷◌, ◌++◌, Bytes, length, All, ltb, ◌==◌, ==_iff, arith,
}
use afeye.Matcher.{Node, Edges, edge_of, rounds}
use afeye.Matcher.Trie.{at, IsTrieOf, Above, IsSorted}

abbrev pub In : {A : Type 0} → A → List A → Type 0
In x [] = ⊥
In x (y ∷ ys) = (x ≡ y) ⊎ In x ys

pub In-append_left : {A : Type 0} (x : A) (ys zs : List A) → In x ys → In x (ys ++ zs)
In-append_left x [] zs h = absurd h
In-append_left x (y ∷ ys) zs (inl e) = inl e
In-append_left x (y ∷ ys) zs (inr h) = inr (In-append_left x ys zs h)

pub In-append_right : {A : Type 0} (x : A) (ys zs : List A) → In x zs → In x (ys ++ zs)
In-append_right x [] zs h = h
In-append_right x (y ∷ ys) zs h = inr (In-append_right x ys zs h)

-- Every listed edge is the one that is found.
abbrev pub Listed : Edges → Edges → Type 0
Listed es all = All (λ e. edge_of e.0 all ≡ some e.1) es

edge_of-Above : (b v c : ℕ) (es : Edges) → b < c → edge_of c ((b, v) ∷ es) ≡ edge_of c es
unfolding edge_of
edge_of-Above b v c es h = ground arith

Above-le : (a b : ℕ) (es : Edges) → a < b → Above b es → Above a es
Above-le a b [] h k = tt
Above-le a b ((c, v) ∷ es) h (k, r) = (omega arith, r)

-- below a sorted list
Listed-cons : (b v : ℕ) (es all : Edges) → Above b es → Listed es all → Listed es ((b, v) ∷ all)
Listed-cons b v [] all a l = tt
Listed-cons b v ((c, w) ∷ es) all (h, a) (e, l) =
    (edge_of-Above b v c all h ∙ e, Listed-cons b v es all (Above-le b c es h a) l)

pub IsSorted-Listed : (es : Edges) → IsSorted es → Listed es es
unfolding edge_of
IsSorted-Listed [] s = tt
IsSorted-Listed ((c, v) ∷ []) s = (ground arith, tt)
IsSorted-Listed ((c, v) ∷ (d, w) ∷ es) (h, s) = (
  ground arith,
  Listed-cons c v ((d, w) ∷ es) ((d, w) ∷ es) (h, s) (IsSorted-Listed ((d, w) ∷ es) s),
)

pub edge_of-In : (c v : ℕ) (es : Edges) → edge_of c es ≡ some v → In (c, v) es
unfolding edge_of
edge_of-In c v [] e = absurd (cc)
edge_of-In c v ((b, w) ∷ es) e = elim (Bool-cases (ltb b c)) [
  | inl p ↦ inr (edge_of-In c v es (rw (p, edge_of) at e))
  | inr p ↦ elim (Bool-cases (b == c)) [
    | inl q ↦
        let f : some w ≡ some v = rw (q, edge_of) at (rw (p, edge_of) at e) in
        let g : b ≡ c = (==_iff b c).0 q in inl (cc)
    | inr q ↦ absurd (let bad : none ≡ some v = rw (q, edge_of) at (rw (p, edge_of) at e) in cc)
  ]
]

abbrev pub targets : Edges → List ℕ
targets [] = []
targets ((c, v) ∷ es) = v ∷ targets es

module _ (trie : List Node) (ps : List Bytes) (t : IsTrieOf trie ps) where
  pub next_Listed : (u : ℕ) → Listed (at trie u).next (at trie u).next
  next_Listed u = IsSorted-Listed (at trie u).next (t.sorted u)

  -- Every edge leads to a node from which walks have `k` edges at most.
  abbrev Short : ℕ → Edges → Type 0
  Short k es = All (λ e. (e.1 < length trie) × (length trie ≤ k + e.1)) es

  Short-next :
      (k u : ℕ) (es : Edges) → Listed es (at trie u).next → length trie ≤ suc k + u → Short k es
  Short-next k u [] l h = tt
  Short-next k u ((c, v) ∷ es) (e, l) h =
      let (p, q, r) = t.edge u c v e in ((q, omega arith), Short-next k u es l h)

  rounds_stable : (k : ℕ) (es : Edges) → Short k es → rounds k trie es ≡ rounds (suc k) trie es
  unfolding rounds
  rounds_stable k [] s = refl
  rounds_stable zero ((c, v) ∷ es) (h, s) = absurd (omega arith)
  rounds_stable (suc k) ((c, v) ∷ es) (h, s) = omega (
    arith,
    rounds_stable k (at trie v).next (Short-next k v (at trie v).next (next_Listed v) h.1),
    rounds_stable (suc k) es s,
  )

  -- the rounds for a queue
  abbrev pub work : List ℕ → ℕ
  work [] = 0
  work (u ∷ q) = suc (rounds (length trie) trie (at trie u).next) + work q

  pub work-append : (p q : List ℕ) → work (p ++ q) ≡ work p + work q
  work-append [] q = omega arith
  work-append (u ∷ p) q = omega (arith, work-append p q)

  rounds_cons :
      (k c v : ℕ) (es : Edges)
      → Short k ((c, v) ∷ es)
      → rounds (suc k) trie ((c, v) ∷ es)
        ≡ suc (rounds (suc k) trie (at trie v).next) + rounds (suc k) trie es
  unfolding rounds
  rounds_cons k c v es (h, s) =
      let below : Short k (at trie v).next =
        Short-next k v (at trie v).next (next_Listed v) (omega arith) in
      omega (arith, rounds_stable k (at trie v).next below)

  no_rounds : (k : ℕ) → 0 ≡ rounds k trie []
  unfolding rounds
  no_rounds k = refl

  -- The nodes that follow a node, and all below them, are what its rounds count.
  work-targets' :
      (k u : ℕ) (es : Edges)
      → length trie ≡ suc k
      → Listed es (at trie u).next
      → work (targets es) ≡ rounds (length trie) trie es
  work-targets' k u [] e l = no_rounds (length trie)
  work-targets' k u ((c, v) ∷ es) e (h, l) =
      let (p, q, r) = t.edge u c v h in
      let step = rounds_cons k c v es (((q, omega arith), Short-next k u es l (omega arith))) in
      omega (
        arith,
        work-targets' k u es e l,
        subst
            (λ n.
              rounds n trie ((c, v) ∷ es) ≡ suc (rounds n trie (at trie v).next) + rounds n trie es)
            (sym e) step,
      )

  pub work-targets :
      (u : ℕ) (es : Edges)
      → Listed es (at trie u).next
      → work (targets es) ≡ rounds (length trie) trie es
  work-targets u es l = work-targets' (length trie - 1) u es (omega (arith, t.root)) l
