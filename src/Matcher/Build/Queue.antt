-- ===== src/Matcher/Build/Queue.antt =====
-- The queue of `AhoCorasick::build` of src/matcher.rs holds what is left of one level, and the next.
use afeye.Prelude.{
  ℕ, suc, ◌≤◌, ◌<◌, ◌≡◌, ◌≢◌, refl, sym, ap, subst, ◌∙◌, Bool-cases, inl, inr, ◌⊎◌, some, none,
  List, [], ◌∷◌, ◌++◌, Bytes, length, length-append, set, All, All-append, ◌==◌, ==_iff, ==_refl,
  if◌then◌else◌, arith,
}
use afeye.Matcher.{Node, Edges, fresh_node, with_next}
use afeye.Matcher.Walk.{length-set}
use afeye.Matcher.Trie.{at, locate, locate-snoc, IsTrieOf, locate-lt, get_or-set}
use afeye.Matcher.Trie.Longest.{IsLinkedAt}
use afeye.Matcher.Build.Rounds.{
  In, In-append_left, In-append_right, Listed, targets, next_Listed, edge_of-In,
}
use afeye.Matcher.Build.Fail.{IsFrame}

-- Only the edges of `u` are replaced.
module _ (nodes : List Node) (u : ℕ) (es : Edges) (h : u < length nodes) where
  abbrev pub replaced : List Node
  replaced = set nodes u (with_next es (at nodes u))

  at-replaced : (x : ℕ) → at replaced x ≡ (if x == u then with_next es (at nodes u) else at nodes x)
  at-replaced x = get_or-set nodes u x (with_next es (at nodes u)) (fresh_node 0) h

  field-replaced :
      (x : ℕ) {X : Type 0} (f : Node → X)
      → f (with_next es (at nodes u)) ≡ f (at nodes u)
      → f (at replaced x) ≡ f (at nodes x)
  field-replaced x f g = ap f (at-replaced x) ∙ elim (Bool-cases (x == u)) [
    | inl q ↦ rw q (g ∙ ap (λ y. f (at nodes y)) (sym ((==_iff x u).0 q)))
    | inr q ↦ rw q refl
  ]

  pub linked-replaced :
      (trie : List Node) (x : Bytes) → IsLinkedAt trie nodes x → IsLinkedAt trie replaced x
  linked-replaced trie [] k = tt
  linked-replaced trie (c ∷ s) k = λ v e. (
    field-replaced v (λ y. y.fail) refl ∙ (k v e).0,
    field-replaced v (λ y. y.out_link) refl ∙ (k v e).1,
  )

  next_other : (x : ℕ) → x ≢ u → (at replaced x).next ≡ (at nodes x).next
  next_other x ne =
      ap (λ y. y.next) (at-replaced x)
      ∙ elim (Bool-cases (x == u)) [ inl q ↦ absurd (ne ((==_iff x u).0 q)) | inr q ↦ rw q refl ]

  next_here : (at replaced u).next ≡ es
  next_here = ap (λ y. y.next) (at-replaced u) ∙ rw (==_refl u) refl

-- the words of the nodes in the queue
abbrev pub Queued : List Node → List Bytes → List ℕ → Type 0
Queued trie [] [] = Unit
Queued trie (w ∷ ws) (u ∷ q) = (locate trie w ≡ some u) × Queued trie ws q
Queued trie [] (u ∷ q) = ⊥
Queued trie (w ∷ ws) [] = ⊥

Queued-append :
    (trie : List Node) (vs ws : List Bytes) (p q : List ℕ)
    → Queued trie vs p
    → Queued trie ws q
    → Queued trie (vs ++ ws) (p ++ q)
Queued-append trie [] ws [] q h k = k
Queued-append trie (v ∷ vs) ws (u ∷ p) q (e, h) k = (e, Queued-append trie vs ws p q h k)
Queued-append trie [] ws (u ∷ p) q h k = absurd h
Queued-append trie (v ∷ vs) ws [] q h k = absurd h

abbrev pub kids : Bytes → Edges → List Bytes
kids w [] = []
kids w ((c, v) ∷ es) = (w ++ (c ∷ [])) ∷ kids w es

pub kids-Queued :
    (trie : List Node) (w : Bytes) (u : ℕ) (es : Edges)
    → locate trie w ≡ some u
    → Listed es (at trie u).next
    → Queued trie (kids w es) (targets es)
kids-Queued trie w u [] e l = tt
kids-Queued trie w u ((c, v) ∷ es) e (h, l) =
    (locate-snoc trie w c u e ∙ h, kids-Queued trie w u es e l)

pub kids-length : (w : Bytes) (es : Edges) → All (λ x. length x ≡ suc (length w)) (kids w es)
kids-length w [] = tt
kids-length w ((c, v) ∷ es) = (omega (arith, length-append w (c ∷ [])), kids-length w es)

pub kids-In : (w : Bytes) (c v : ℕ) (es : Edges) → In (c, v) es → In (w ++ (c ∷ [])) (kids w es)
kids-In w c v [] h = absurd h
kids-In w c v ((d, x) ∷ es) (inl e) = inl (ap (λ (y : ℕ × ℕ). w ++ (y.0 ∷ [])) e)
kids-In w c v ((d, x) ∷ es) (inr h) = inr (kids-In w c v es h)

pub All_at : {A : Type 0} (P : A → Type 0) (x : A) (xs : List A) → All P xs → In x xs → P x
All_at P x [] a h = absurd h
All_at P x (y ∷ xs) (p, a) (inl e) = subst P (sym e) p
All_at P x (y ∷ xs) (p, a) (inr h) = All_at P x xs a h

-- Every word of at most `n` bytes is linked; `here` are the words of that length whose children
-- are not, and `there` are all that are linked of the next length.
pub record IsLevel (trie nodes : List Node) (n : ℕ) (here there : List Bytes) (p q : List ℕ)
    : Type 0 where
  pub pos : 0 < n
  pub size : length nodes ≡ length trie
  pub next : (v : ℕ) → (at nodes v).next ≡ (at trie v).next
  pub outs : (v : ℕ) → (at nodes v).self_out ≡ (at trie v).self_out
  pub no_link : (at nodes 0).out_link ≡ none
  pub queued : Queued trie here p
  pub later : Queued trie there q
  pub lengths : All (λ w. length w ≡ n) here
  pub lengths_later : All (λ w. length w ≡ suc n) there
  pub linked : (x : Bytes) → length x ≤ n → IsLinkedAt trie nodes x
  pub children :
      (w : Bytes) (c v : ℕ)
      → length w ≡ n
      → locate trie (w ++ (c ∷ [])) ≡ some v
      → In w here ⊎ (In (w ++ (c ∷ [])) there × IsLinkedAt trie nodes (w ++ (c ∷ [])))

module _ (trie : List Node) (ps : List Bytes) (t : IsTrieOf trie ps) where
  module _ (nodes : List Node) (b : ℕ) (s : Bytes) (u : ℕ) (here there : List Bytes) (p q : List ℕ)
      (lv : IsLevel trie nodes (suc (length s)) ((b ∷ s) ∷ here) there (u ∷ p) q) where
    pub located : locate trie (b ∷ s) ≡ some u
    located = lv.queued.0

    pub u_lt : u < length nodes
    u_lt = omega (arith, lv.size, locate-lt trie ps t (b ∷ s) u located)

    abbrev pub taken : List Node
    taken = replaced nodes u [] u_lt

    pub taken-IsFrame : IsFrame trie taken u
    taken-IsFrame = record {
      size = length-set nodes u _ ∙ lv.size;
      next = λ x ne. next_other nodes u [] u_lt x ne ∙ lv.next x;
      outs = λ x. field-replaced nodes u [] u_lt x (λ y. y.self_out) refl ∙ lv.outs x;
      no_link = field-replaced nodes u [] u_lt 0 (λ y. y.out_link) refl ∙ lv.no_link;
    }

    -- After a round.
    module _ (nodes' : List Node) (fr : IsFrame trie nodes' u)
        (kept : (x : Bytes) → IsLinkedAt trie taken x → IsLinkedAt trie nodes' x)
        (new : All (λ e. IsLinkedAt trie nodes' (b ∷ (s ++ (e.0 ∷ [])))) (at trie u).next) where
      pub u_lt' : u < length nodes'
      u_lt' = omega (arith, lv.size, fr.size, u_lt)

      abbrev pub put_back : List Node
      put_back = replaced nodes' u (at trie u).next u_lt'

      linked_back : (x : Bytes) → IsLinkedAt trie nodes x → IsLinkedAt trie put_back x
      linked_back x h =
          linked-replaced nodes' u (at trie u).next u_lt' trie x
            (kept x (linked-replaced nodes u [] u_lt trie x h))

      children_back :
          (w : Bytes) (c v : ℕ)
          → length w ≡ suc (length s)
          → locate trie (w ++ (c ∷ [])) ≡ some v
          → In w here
            ⊎ (In (w ++ (c ∷ [])) (there ++ kids (b ∷ s) (at trie u).next)
                × IsLinkedAt trie put_back (w ++ (c ∷ [])))
      children_back w c v l e = elim (lv.children w c v l e) [
        | inl (inl f) ↦
            let listed : In (c, v) (at trie u).next = edge_of-In c v (at trie u).next (
              sym (locate-snoc trie (b ∷ s) c u located)
              ∙ (ap (λ x. locate trie (x ++ (c ∷ []))) (sym f) ∙ e)) in
            inr (
              subst
                (λ x.
                  In (x ++ (c ∷ [])) (there ++ kids (b ∷ s) (at trie u).next)
                  × IsLinkedAt trie put_back (x ++ (c ∷ [])))
                (sym f)
                (
                  In-append_right _ there _ (kids-In (b ∷ s) c v (at trie u).next listed),
                  linked-replaced nodes' u (at trie u).next u_lt' trie (b ∷ (s ++ (c ∷ []))) (
                      All_at (λ e. IsLinkedAt trie nodes' (b ∷ (s ++ (e.0 ∷ [])))) (c, v) _ new
                        listed),
                ))
        | inl (inr h) ↦ inl h
        | inr (h, k) ↦ inr (In-append_left _ there _ h, linked_back (w ++ (c ∷ [])) k)
      ]

      pub put_back-IsLevel :
          IsLevel trie put_back
            (suc (length s))
            here
            (there ++ kids (b ∷ s) (at trie u).next)
            p
            (q ++ targets (at trie u).next)
      put_back-IsLevel = record {
        pos = lv.pos;
        size = length-set nodes' u _ ∙ fr.size;
        next = λ v. elim (Bool-cases (v == u)) [
          | inl e ↦
              subst (λ x. (at put_back x).next ≡ (at trie x).next) (sym ((==_iff v u).0 e))
                (next_here nodes' u (at trie u).next u_lt')
          | inr e ↦
              let ne : v ≢ u = (λ f. absurd (ground arith)) in
              next_other nodes' u (at trie u).next u_lt' v ne ∙ fr.next v ne
        ];
        outs = λ v.
            field-replaced nodes' u (at trie u).next u_lt' v (λ y. y.self_out) refl ∙ fr.outs v;
        no_link =
            field-replaced nodes' u (at trie u).next u_lt' 0 (λ y. y.out_link) refl ∙ fr.no_link;
        queued = lv.queued.1;
        later =
            Queued-append trie there (kids (b ∷ s) (at trie u).next) q (targets (at trie u).next)
              lv.later
              (kids-Queued trie (b ∷ s) u (at trie u).next located (next_Listed trie ps t u));
        lengths = lv.lengths.1;
        lengths_later =
            All-append _ there (kids (b ∷ s) (at trie u).next) lv.lengths_later
              (kids-length (b ∷ s) (at trie u).next);
        linked = λ x h. linked_back x (lv.linked x h);
        children = children_back;
      }
