-- ===== src/Matcher/Tests.antt =====
-- Concrete runs of the automaton of src/matcher.rs.
use afeye.Prelude.{Returns, ◌≡◌, ◌↔◌, refl, [], ◌∷◌, codes, done, byte_at}
use afeye.Matcher.Trie.Insert.{Inserted, new-IsTrieOf, insert-IsTrieOf}
use afeye.Matcher.Trie.{occurrences}
use afeye.Matcher.Build.Rounds.{In}
use afeye.Matcher.Places.{Occurs}
use afeye.Matcher.Search.{search_for-occurrences, search_for-Occurs}
use afeye.Matcher.{
  search_for, insert_all, rounds, new, insert, build, find, walk_insert, step_insert, edge_of,
  insert_edge, child_of, fail_of, out_link_of, link_children, build_loop, link_first, goto, report,
  report_all, find_loop,
}

ushers :
    search_for (codes "she" ∷ codes "he" ∷ codes "hers" ∷ []) (codes "ushers")
    ≡ done ((0, 1) ∷ (1, 2) ∷ (2, 2) ∷ [])
unfolding search_for insert_all rounds insert build find walk_insert step_insert edge_of insert_edge
    child_of fail_of out_link_of link_children build_loop link_first goto report report_all
    find_loop byte_at
ushers = refl

suffixes :
    search_for (codes "abcd" ∷ codes "cd" ∷ codes "d" ∷ []) (codes "abcd")
    ≡ done ((0, 0) ∷ (1, 2) ∷ (2, 3) ∷ [])
unfolding search_for insert_all rounds insert build find walk_insert step_insert edge_of insert_edge
    child_of fail_of out_link_of link_children build_loop link_first goto report report_all
    find_loop byte_at
suffixes = refl

insert-IsTrieOf_example : Returns (Inserted [] (codes "she")) (insert new (codes "she"))
insert-IsTrieOf_example = insert-IsTrieOf new.nodes [] (codes "she") new-IsTrieOf

search_for-occurrences_example :
    search_for (codes "she" ∷ codes "he" ∷ []) (codes "ashes")
    ≡ done (occurrences (codes "she" ∷ codes "he" ∷ []) [] (codes "ashes"))
search_for-occurrences_example =
    search_for-occurrences (codes "she" ∷ codes "he" ∷ []) (codes "ashes")

search_for-Occurs_example :
    Returns
      (λ found. In (1, 2) found ↔ Occurs (codes "she" ∷ codes "he" ∷ []) (codes "ashes") (1, 2))
      (search_for (codes "she" ∷ codes "he" ∷ []) (codes "ashes"))
search_for-Occurs_example = search_for-Occurs (codes "she" ∷ codes "he" ∷ []) (codes "ashes") 1 2
