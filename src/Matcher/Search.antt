-- ===== src/Matcher/Search.antt =====
-- What the automaton of src/matcher.rs finds: every place of every pattern.
use afeye.Prelude.{
  ℕ, ◌≡◌, sym, ap, subst, ◌∙◌, ◌↔◌, List, [], ◌∷◌, ◌++◌, append-nil, append_assoc, Bytes, Outcome,
  done, ◌>>=◌, Returns, Returns-bind, Returns→done,
}
use afeye.Matcher.{Node, AhoCorasick, new, insert, insert_all, build, find, search_for}
use afeye.Matcher.Trie.{IsTrieOf, occurrences}
use afeye.Matcher.Trie.Insert.{Holds, Inserted, insert-IsTrieOf, new-IsTrieOf}
use afeye.Matcher.Build.First.{build-IsLinked}
use afeye.Matcher.Trie.Longest.{IsLinked}
use afeye.Matcher.Build.Rounds.{In}
use afeye.Matcher.Places.{Occurs, occurrences_iff}
use afeye.Matcher.Find.{find-IsLinked}

insert_all-Holds :
    (nodes : List Node) (qs ps : List Bytes)
    → IsTrieOf nodes qs
    → Returns (Holds (qs ++ ps)) (insert_all (record { nodes = nodes; patterns = qs }) ps)
unfolding insert_all
insert_all-Holds nodes qs [] t =
    (sym (append-nil qs), subst (IsTrieOf nodes) (sym (append-nil qs)) t)
insert_all-Holds nodes qs (p ∷ ps) t =
    Returns-bind (Inserted qs p) (Holds (qs ++ (p ∷ ps)))
      (insert (record { nodes = nodes; patterns = qs }) p) _ (insert-IsTrieOf nodes qs p t)
      (λ r (_, (e, t')).
        subst (λ l. Returns (Holds l) (insert_all r.0 ps)) (append_assoc qs (p ∷ []) ps)
          (subst
            (λ l.
              Returns (Holds ((qs ++ (p ∷ [])) ++ ps))
                (insert_all (record { nodes = r.0.nodes; patterns = l }) ps))
            (sym e) (insert_all-Holds r.0.nodes (qs ++ (p ∷ [])) ps t')))

-- A search for patterns returns, and reports at each end of the text every suffix that is a
-- pattern, the longest first, and equal patterns in the order of insertion.
pub search_for-occurrences :
    (ps : List Bytes) (text : Bytes) → search_for ps text ≡ done (occurrences ps [] text)
unfolding search_for
search_for-occurrences ps text =
    let (ac, e, (f, t)) =
      Returns→done (Holds ps) (insert_all new ps) (insert_all-Holds new.nodes [] ps new-IsTrieOf) in
    let (ac', g, (k, l)) =
      Returns→done (λ linked. (linked.patterns ≡ ps) × IsLinked ac.nodes linked.nodes)
        (build (record { nodes = ac.nodes; patterns = ps })) (build-IsLinked ac.nodes ps t) in
    rw e (
      ap (λ qs. build (record { nodes = ac.nodes; patterns = qs }) >>= λ linked. find linked text) f
      ∙ (ap (λ (m : Outcome AhoCorasick). m >>= λ linked. find linked text) g
          ∙ (ap (λ qs. find (record { nodes = ac'.nodes; patterns = qs }) text) k
              ∙ find-IsLinked ac.nodes ps t ac'.nodes l text)))

-- A search returns, and reports exactly the places where a pattern that is not empty stands in the
-- text: `id` and `start` are reported when the text has the pattern `id` behind `start` bytes.
pub search_for-Occurs :
    (ps : List Bytes) (text : Bytes) (id start : ℕ)
    → Returns (λ found. In (id, start) found ↔ Occurs ps text (id, start)) (search_for ps text)
search_for-Occurs ps text id start =
    rw (search_for-occurrences ps text, Returns) (occurrences_iff ps text id start)
