-- ===== src/Matcher/Walk.antt =====
-- What adding an edge to a node of src/matcher.rs keeps.
pub use afeye.Prelude.{length-set}
use afeye.Prelude.{ℕ, ◌≡◌, some, [], ◌∷◌, ◌==◌, if◌then◌else◌, arith}
use afeye.Matcher.{Edges, edge_of, insert_edge}

-- An inserted edge is found, and hides no other.
pub edge_of-insert_edge :
    (c n d : ℕ) (es : Edges)
    → edge_of d (insert_edge c n es) ≡ (if d == c then some n else edge_of d es)
unfolding edge_of insert_edge
edge_of-insert_edge c n d [] = ground arith
edge_of-insert_edge c n d ((b, m) ∷ es) = ground (arith, edge_of-insert_edge c n d es)

-- the child of the node `u` at the byte `c`
