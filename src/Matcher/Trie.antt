-- ===== src/Matcher/Trie.antt =====
-- The words of the trie of src/matcher.rs, and the search that the automaton stands for: at each
-- end of the text, every suffix, the longest first, and every pattern equal to it, in order.
pub mod Longest
pub mod Grow
pub mod Insert
pub use afeye.Prelude.{get_or-set}
use afeye.Prelude.{
  ℕ, zero, suc, ◌+◌, ◌-◌, ◌≤◌, ◌<◌, ◌≡◌, refl, sym, ap, ◌∙◌, Bool, true, false, Bool-cases, inl,
  inr, Option, some, none, Option-cases, List, [], ◌∷◌, ◌++◌, append-nil, append_assoc, map, Bytes,
  bytes_eq, length, get_or, set, Outcome, done, byte_at, ltb, ◌==◌, if◌then◌else◌, arith,
}
use afeye.Matcher.{Node, Edges, fresh_node, edge_of}

-- the node `u`, where there is one
abbrev pub at : List Node → ℕ → Node
at nodes u = get_or nodes u (fresh_node 0)

module _ {ℓ} {A : Type ℓ} where
  pub get_or-append :
      (xs ys : List A) (j : ℕ) (d : A) → j < length xs → get_or (xs ++ ys) j d ≡ get_or xs j d
  get_or-append [] ys j d h = absurd (omega arith)
  get_or-append (x ∷ xs) ys zero d h = refl
  get_or-append (x ∷ xs) ys (suc j) d h = get_or-append xs ys j d (omega arith)

  pub get_or-last : (xs : List A) (x d : A) → get_or (xs ++ (x ∷ [])) (length xs) d ≡ x
  get_or-last [] x d = refl
  get_or-last (y ∷ xs) x d = get_or-last xs x d

  pub get_or-beyond : (xs : List A) (j : ℕ) (d : A) → length xs ≤ j → get_or xs j d ≡ d
  get_or-beyond [] j d h = refl
  get_or-beyond (x ∷ xs) zero d h = absurd (omega arith)
  get_or-beyond (x ∷ xs) (suc j) d h = get_or-beyond xs j d (omega arith)

  pub byte_at-get_or :
      (xs : List A) (i : ℕ) (d : A) → i < length xs → byte_at xs i ≡ done (get_or xs i d)
  unfolding byte_at
  byte_at-get_or [] i d h = absurd (omega arith)
  byte_at-get_or (x ∷ xs) zero d h = refl
  byte_at-get_or (x ∷ xs) (suc i) d h = byte_at-get_or xs i d (omega arith)

-- the walk of a word
unfoldable pub walk : List Node → Option ℕ → Bytes → Option ℕ
walk nodes none p = none
walk nodes (some u) [] = some u
walk nodes (some u) (c ∷ p) = walk nodes (edge_of c (at nodes u).next) p

abbrev pub locate : List Node → Bytes → Option ℕ
locate nodes p = walk nodes (some 0) p

unfoldable pub ids_from : ℕ → List Bytes → Bytes → List ℕ
ids_from i [] s = []
ids_from i (p ∷ ps) s = if bytes_eq p s then i ∷ ids_from (suc i) ps s else ids_from (suc i) ps s

-- the patterns that are equal to a word which is not empty
unfoldable pub ids_of : List Bytes → Bytes → List ℕ
unfolding ids_from
ids_of ps [] = []
ids_of ps (c ∷ s) = ids_from 0 ps (c ∷ s)

-- the patterns that end at `e`, the end of the text `s`, and where they start
unfoldable pub hits : List Bytes → Bytes → ℕ → List (ℕ × ℕ)
hits ps [] e = []
hits ps (c ∷ s) e = map (λ id. (id, e - length (c ∷ s))) (ids_of ps (c ∷ s)) ++ hits ps s e

-- `t` is the text in front.
unfoldable pub occurrences : List Bytes → Bytes → Bytes → List (ℕ × ℕ)
unfolding hits ids_of
occurrences ps t [] = []
occurrences ps t (b ∷ text) =
    hits ps (t ++ (b ∷ [])) (length (t ++ (b ∷ []))) ++ occurrences ps (t ++ (b ∷ [])) text

-- Each edge has a greater byte than the one before it.
abbrev pub Above : ℕ → Edges → Type 0
Above b [] = Unit
Above b ((c, v) ∷ es) = (b < c) × Above c es

abbrev pub IsSorted : Edges → Type 0
IsSorted [] = Unit
IsSorted ((c, v) ∷ es) = Above c es

-- The nodes form a trie of the patterns: a node has one word, and the ids of the patterns that are
-- equal to it; the word of every pattern has a node.
pub record IsTrieOf (nodes : List Node) (ps : List Bytes) : Type 0 where
  pub word : ℕ → Bytes
  pub root : 0 < length nodes
  pub word_root : word 0 ≡ []
  pub edge :
      (u c v : ℕ)
      → edge_of c (at nodes u).next ≡ some v
      → (u < v) × (v < length nodes) × (word v ≡ word u ++ (c ∷ []))
  pub reach : (v : ℕ) → v < length nodes → locate nodes (word v) ≡ some v
  pub sorted : (u : ℕ) → IsSorted (at nodes u).next
  pub ids : (v : ℕ) → v < length nodes → (at nodes v).self_out ≡ ids_of ps (word v)
  pub full : (s : Bytes) → locate nodes s ≡ none → ids_of ps s ≡ []
  pub no_link : (at nodes 0).out_link ≡ none

-- A walk over two words is a walk over one and then over the other.
pub walk-append :
    (nodes : List Node) (o : Option ℕ) (p q : Bytes)
    → walk nodes o (p ++ q) ≡ walk nodes (walk nodes o p) q
unfolding walk
walk-append nodes none p q = refl
walk-append nodes (some u) [] q = refl
walk-append nodes (some u) (c ∷ p) q = walk-append nodes (edge_of c (at nodes u).next) p q

pub walk-none : (nodes : List Node) (p : Bytes) → walk nodes none p ≡ none
unfolding walk
walk-none nodes p = refl

-- A word whose front has no node has none.
pub locate-none :
    (trie : List Node) (s : Bytes) (b : ℕ)
    → locate trie s ≡ none
    → locate trie (s ++ (b ∷ [])) ≡ none
locate-none trie s b e =
    walk-append trie (some 0) s (b ∷ [])
    ∙ (ap (λ o. walk trie o (b ∷ [])) e ∙ walk-none trie (b ∷ []))

pub locate-snoc :
    (trie : List Node) (s : Bytes) (b v : ℕ)
    → locate trie s ≡ some v
    → locate trie (s ++ (b ∷ [])) ≡ edge_of b (at trie v).next
unfolding walk
locate-snoc trie s b v e =
    walk-append trie (some 0) s (b ∷ [])
    ∙ (ap (λ o. walk trie o (b ∷ [])) e ∙ walk-single (edge_of b (at trie v).next))
  where
    walk-single : (o : Option ℕ) → walk trie o [] ≡ o
    walk-single none = refl
    walk-single (some u) = refl

-- A walk reads nothing but the edges.
pub walk_same :
    (a b : List Node)
    → ((u : ℕ) → (at a u).next ≡ (at b u).next)
    → (o : Option ℕ) (p : Bytes) → walk a o p ≡ walk b o p
unfolding walk
walk_same a b h none p = refl
walk_same a b h (some u) [] = refl
walk_same a b h (some u) (c ∷ p) =
    ap (λ es. walk a (edge_of c es) p) (h u) ∙ walk_same a b h (edge_of c (at b u).next) p

pub record Located (nodes : List Node) (word : ℕ → Bytes) (u : ℕ) (p : Bytes) (v : ℕ) : Type 0 where
  pub spelled : word v ≡ word u ++ p
  pub inside : v < length nodes
  pub far : u + length p ≤ v

module _ (nodes : List Node) (ps : List Bytes) (t : IsTrieOf nodes ps) where
  pub walk-Located :
      (u : ℕ) (p : Bytes) (v : ℕ)
      → u < length nodes
      → walk nodes (some u) p ≡ some v
      → Located nodes t.word u p v
  unfolding walk
  walk-Located u [] v h e =
      let f : u ≡ v = cc in
      record {
        spelled = rw (← f) (sym (append-nil (t.word u)));
        inside = omega arith;
        far = omega arith;
      }
  walk-Located u (c ∷ p) v h e = elim (Option-cases (edge_of c (at nodes u).next)) [
    | inl f ↦ absurd (let bad : none ≡ some v = rw (f, walk) at e in cc)
    | inr (w, f) ↦
        let (l, m, x) = t.edge u c w f in
        let r = walk-Located w p v m (rw (f, walk) at e) in
        record {
          spelled = r.spelled ∙ (ap (λ l. l ++ p) x ∙ append_assoc (t.word u) (c ∷ []) p);
          inside = r.inside;
          far = omega (arith, r.far);
        }
  ]

  -- A node has one word.
  pub locate-word : (p : Bytes) (v : ℕ) → locate nodes p ≡ some v → t.word v ≡ p
  locate-word p v e = (walk-Located 0 p v t.root e).spelled ∙ ap (λ l. l ++ p) t.word_root

  pub locate-lt : (p : Bytes) (v : ℕ) → locate nodes p ≡ some v → v < length nodes
  locate-lt p v e = (walk-Located 0 p v t.root e).inside

  pub locate-le : (p : Bytes) (v : ℕ) → locate nodes p ≡ some v → length p ≤ v
  locate-le p v e = omega (arith, (walk-Located 0 p v t.root e).far)
