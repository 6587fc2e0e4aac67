-- ===== src/Matcher/Trie/Longest.antt =====
-- The failure links and output links of src/matcher.rs by the words of the nodes: the longest
-- suffix that is a node, and the longest suffix that is a node with a pattern.
use afeye.Prelude.{
  ℕ, suc, ◌≤◌, ◌<◌, ◌≡◌, refl, ap, ◌∙◌, inl, inr, Option, some, none, Option-cases, List, [], ◌∷◌,
  ◌++◌, Bytes, length, arith,
}
use afeye.Matcher.{Node, edge_of, output}
use afeye.Matcher.Trie.{
  at, walk, locate, locate-none, locate-snoc, IsTrieOf, ids_of, locate-lt, locate-le,
}

abbrev pub or_else : Option ℕ → ℕ → ℕ
or_else none d = d
or_else (some v) d = v

-- the node of the longest suffix
unfoldable pub longest : List Node → Bytes → ℕ
longest nodes [] = 0
longest nodes (c ∷ s) = or_else (locate nodes (c ∷ s)) (longest nodes s)

-- `v` where a pattern ends there, and `d` where none does
abbrev pub mark_at : List Node → Option ℕ → Option ℕ → Option ℕ
mark_at nodes none d = d
mark_at nodes (some v) d = output (at nodes v).self_out v d

-- the node of the longest suffix at which a pattern ends
unfoldable pub nearest : List Node → Bytes → Option ℕ
nearest nodes [] = none
nearest nodes (c ∷ s) = mark_at nodes (locate nodes (c ∷ s)) (nearest nodes s)

abbrev pub size_of : Option ℕ → ℕ → ℕ → ℕ
size_of none n d = d
size_of (some v) n d = n

-- the length of the longest suffix
unfoldable pub reach_len : List Node → Bytes → ℕ
reach_len nodes [] = 0
reach_len nodes (c ∷ s) = size_of (locate nodes (c ∷ s)) (suc (length s)) (reach_len nodes s)

pub reach_len-le : (nodes : List Node) (s : Bytes) → reach_len nodes s ≤ length s
unfolding reach_len
reach_len-le nodes [] = omega arith
reach_len-le nodes (c ∷ s) = elim (Option-cases (locate nodes (c ∷ s))) [
  | inl e ↦ rw e (omega (arith, reach_len-le nodes s))
  | inr (v, e) ↦ rw e (omega arith)
]

-- `nodes` after `build`, for the trie `trie`.
pub record IsLinked (trie nodes : List Node) : Type 0 where
  pub size : length nodes ≡ length trie
  pub next : (v : ℕ) → (at nodes v).next ≡ (at trie v).next
  pub outs : (v : ℕ) → (at nodes v).self_out ≡ (at trie v).self_out
  pub fail :
      (c : ℕ) (s : Bytes) (v : ℕ)
      → locate trie (c ∷ s) ≡ some v
      → (at nodes v).fail ≡ longest trie s
  pub link :
      (c : ℕ) (s : Bytes) (v : ℕ)
      → locate trie (c ∷ s) ≡ some v
      → (at nodes v).out_link ≡ nearest trie s
  pub no_link : (at nodes 0).out_link ≡ none

-- The links of the node of one word.
abbrev pub IsLinkedAt : List Node → List Node → Bytes → Type 0
IsLinkedAt trie nodes [] = Unit
IsLinkedAt trie nodes (c ∷ s) =
    (v : ℕ)
    → locate trie (c ∷ s) ≡ some v
    → ((at nodes v).fail ≡ longest trie s) × ((at nodes v).out_link ≡ nearest trie s)

module _ (trie : List Node) (ps : List Bytes) (t : IsTrieOf trie ps) where
  pub longest-lt : (s : Bytes) → longest trie s < length trie
  unfolding longest
  longest-lt [] = t.root
  longest-lt (c ∷ s) = elim (Option-cases (locate trie (c ∷ s))) [
    | inl e ↦ rw e (longest-lt s)
    | inr (v, e) ↦ rw e (locate-lt trie ps t (c ∷ s) v e)
  ]

  pub reach_len-lt : (s : Bytes) → reach_len trie s < length trie
  unfolding reach_len
  reach_len-lt [] = t.root
  reach_len-lt (c ∷ s) = elim (Option-cases (locate trie (c ∷ s))) [
    | inl e ↦ rw e (reach_len-lt s)
    | inr (v, e) ↦
        rw e (omega (arith, locate-lt trie ps t (c ∷ s) v e, locate-le trie ps t (c ∷ s) v e))
  ]

  -- The longest suffix of a text with one more byte, by the child of the longest suffix.
  pub longest-snoc_some :
      (s : Bytes) (b n : ℕ)
      → edge_of b (at trie (longest trie s)).next ≡ some n
      → longest trie (s ++ (b ∷ [])) ≡ n
  unfolding longest walk
  longest-snoc_some [] b n e = ap (λ o. or_else o 0) (locate-snoc trie [] b 0 refl ∙ e)
  longest-snoc_some (c ∷ s) b n e = elim (Option-cases (locate trie (c ∷ s))) [
    | inl f ↦
        ap (λ o. or_else o (longest trie (s ++ (b ∷ [])))) (locate-none trie (c ∷ s) b f)
        ∙ longest-snoc_some s b n (rw (f, longest) at e)
    | inr (v, f) ↦
        ap (λ o. or_else o (longest trie (s ++ (b ∷ []))))
          (locate-snoc trie (c ∷ s) b v f ∙ rw (f, longest) at e)
  ]

  pub longest-snoc_none :
      (c : ℕ) (s : Bytes) (b v : ℕ)
      → locate trie (c ∷ s) ≡ some v
      → edge_of b (at trie v).next ≡ none
      → longest trie ((c ∷ s) ++ (b ∷ [])) ≡ longest trie (s ++ (b ∷ []))
  unfolding longest
  longest-snoc_none c s b v l e =
      ap (λ o. or_else o (longest trie (s ++ (b ∷ [])))) (locate-snoc trie (c ∷ s) b v l ∙ e)

  pub longest-root_none : (b : ℕ) → edge_of b (at trie 0).next ≡ none → longest trie (b ∷ []) ≡ 0
  unfolding longest walk
  longest-root_none b e = ap (λ o. or_else o 0) (locate-snoc trie [] b 0 refl ∙ e)

  -- A suffix that has no node is passed over.
  pub longest-gone :
      (c : ℕ) (s : Bytes) → locate trie (c ∷ s) ≡ none → longest trie (c ∷ s) ≡ longest trie s
  unfolding longest
  longest-gone c s e = ap (λ o. or_else o (longest trie s)) e

  pub longest-here :
      (c : ℕ) (s : Bytes) (v : ℕ) → locate trie (c ∷ s) ≡ some v → longest trie (c ∷ s) ≡ v
  unfolding longest
  longest-here c s v e = ap (λ o. or_else o (longest trie s)) e

  pub reach_len-gone :
      (c : ℕ) (s : Bytes) → locate trie (c ∷ s) ≡ none → reach_len trie (c ∷ s) ≡ reach_len trie s
  unfolding reach_len
  reach_len-gone c s e = ap (λ o. size_of o (suc (length s)) (reach_len trie s)) e

  pub reach_len-here :
      (c : ℕ) (s : Bytes) (v : ℕ)
      → locate trie (c ∷ s) ≡ some v
      → reach_len trie (c ∷ s) ≡ suc (length s)
  unfolding reach_len
  reach_len-here c s v e = ap (λ o. size_of o (suc (length s)) (reach_len trie s)) e

  pub root_outs : (at trie 0).self_out ≡ []
  unfolding ids_of
  root_outs = t.ids 0 t.root ∙ ap (ids_of ps) t.word_root

  -- Where the reports start at the node of the longest suffix.
  pub output-nearest :
      (nodes : List Node)
      → ((v : ℕ) → (at nodes v).self_out ≡ (at trie v).self_out)
      → (at nodes 0).out_link ≡ none
      → (s : Bytes) (n : ℕ) → length s ≤ n
      → ((x : Bytes) → length x ≤ n → IsLinkedAt trie nodes x)
      → output
          (at nodes (longest trie s)).self_out
          (longest trie s)
          (at nodes (longest trie s)).out_link
        ≡ nearest trie s
  unfolding longest nearest
  output-nearest nodes outs no_link [] n h l = rw (outs 0) (rw root_outs no_link)
  output-nearest nodes outs no_link (c ∷ s) n h l = elim (Option-cases (locate trie (c ∷ s))) [
    | inl e ↦ rw e (output-nearest nodes outs no_link s n (omega arith) l)
    | inr (v, e) ↦ rw e (rw (outs v) (rw (l (c ∷ s) h v e).1 refl))
  ]
