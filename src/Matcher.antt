-- ===== src/Matcher.antt =====
-- The Aho-Corasick automaton of src/matcher.rs. A node's edges are sorted by their byte, so the
-- binary search of an edge is a scan. An index out of the list of nodes is a panic.
pub mod Walk
pub mod Trie
pub mod Find
pub mod Build
pub mod Places
pub mod Search
mod Tests
use afeye.Prelude.{
  ℕ, zero, suc, ◌+◌, ◌-◌, Bool, true, false, Option, some, none, List, [], ◌∷◌, ◌++◌, Bytes, length,
  get_or, set, Outcome, done, panic, stuck, ◌>>=◌, byte_at, ltb, ◌==◌, if◌then◌else◌,
}

abbrev pub Edges : Type 0
Edges = List (ℕ × ℕ)

-- `out_link` is `none` for `NO_OUT`.
pub record Node : Type 0 where
  pub next : Edges
  pub fail : ℕ
  pub self_out : List ℕ
  pub out_link : Option ℕ
  pub depth : ℕ

pub record AhoCorasick : Type 0 where
  pub nodes : List Node
  pub patterns : List Bytes

abbrev pub fresh_node : ℕ → Node
fresh_node depth = record { next = []; fail = 0; self_out = []; out_link = none; depth = depth }

-- `AhoCorasick::new`
abbrev pub new : AhoCorasick
new = record { nodes = fresh_node 0 ∷ []; patterns = [] }

-- the edge at the partition point
unfoldable pub edge_of : ℕ → Edges → Option ℕ
edge_of c [] = none
edge_of c ((b, n) ∷ es) = if ltb b c then edge_of c es else if b == c then some n else none

unfoldable pub insert_edge : ℕ → ℕ → Edges → Edges
insert_edge c n [] = (c, n) ∷ []
insert_edge c n ((b, m) ∷ es) =
    if ltb b c then (b, m) ∷ insert_edge c n es else (c, n) ∷ (b, m) ∷ es

unfoldable pub child_of : List Node → ℕ → ℕ → Outcome (Option ℕ)
child_of nodes u c = do node ← byte_at nodes u; done (edge_of c node.next)

-- one round of the loop of `insert`: the nodes, and the child for `b`
unfoldable pub step_insert : List Node → ℕ → ℕ → Outcome (List Node × ℕ)
unfolding edge_of insert_edge
step_insert nodes cur b = do
  node ← byte_at nodes cur
  let n = length nodes
  let grown : Node = record {
    next = insert_edge b n node.next;
    fail = node.fail;
    self_out = node.self_out;
    out_link = node.out_link;
    depth = node.depth;
  }
  done (elim (edge_of b node.next) [
    | some child ↦ (nodes, child)
    | none ↦ (set (nodes ++ (fresh_node (node.depth + 1) ∷ [])) cur grown, n)
  ])

unfoldable pub walk_insert : List Node → ℕ → Bytes → Outcome (List Node × ℕ)
walk_insert nodes cur [] = done (nodes, cur)
walk_insert nodes cur (b ∷ p) = do r ← step_insert nodes cur b; walk_insert r.0 r.1 p

abbrev pub add_out : ℕ → Node → Node
add_out id node = record {
  next = node.next;
  fail = node.fail;
  self_out = node.self_out ++ (id ∷ []);
  out_link = node.out_link;
  depth = node.depth;
}

-- `insert`: the automaton, and the id of the pattern
unfoldable pub insert : AhoCorasick → Bytes → Outcome (AhoCorasick × ℕ)
insert ac [] =
    done (record { nodes = ac.nodes; patterns = ac.patterns ++ ([] ∷ []) }, length ac.patterns)
insert ac (b ∷ p) = do
  r ← walk_insert ac.nodes 0 (b ∷ p)
  node ← byte_at r.0 r.1
  let id = length ac.patterns
  done (
    record { nodes = set r.0 r.1 (add_out id node); patterns = ac.patterns ++ ((b ∷ p) ∷ []) },
    id,
  )

abbrev pub link : ℕ → Option ℕ → Node → Node
link fail out_link node = record {
  next = node.next;
  fail = fail;
  self_out = node.self_out;
  out_link = out_link;
  depth = node.depth;
}

abbrev pub with_next : Edges → Node → Node
with_next next node = record {
  next = next;
  fail = node.fail;
  self_out = node.self_out;
  out_link = node.out_link;
  depth = node.depth;
}

-- `build`, the loop that follows failure links for the child `v` at the byte `c`
unfoldable pub fail_of : ℕ → List Node → ℕ → ℕ → ℕ → Outcome ℕ
fail_of zero nodes c v f = stuck
fail_of (suc fuel) nodes c v f = do
  child ← child_of nodes f c
  node ← byte_at nodes f
  let up = fail_of fuel nodes c v node.fail
  let go_on : Outcome ℕ = if f == 0 then done 0 else up
  elim child [ none ↦ go_on | some n ↦ if n == v then go_on else done n ]

-- `if self_out.is_empty() { out_link } else { u }`
abbrev pub output : List ℕ → ℕ → Option ℕ → Option ℕ
output [] u out_link = out_link
output (id ∷ ids) u out_link = some u

-- the output link of a node whose failure link is `fl`
unfoldable pub out_link_of : List Node → ℕ → Outcome (Option ℕ)
out_link_of nodes fl = do node ← byte_at nodes fl; done (output node.self_out fl node.out_link)

-- `build`, the children of one node; the queue grows by them
unfoldable pub link_children : ℕ → List Node → ℕ → Edges → List ℕ → Outcome (List Node × List ℕ)
link_children fuel nodes u [] q = done (nodes, q)
link_children fuel nodes u ((c, v) ∷ es) q = do
  node ← byte_at nodes u
  f ← fail_of fuel nodes c v node.fail
  out ← out_link_of nodes f
  child ← byte_at nodes v
  link_children fuel (set nodes v (link f out child)) u es (q ++ (v ∷ []))

-- `while let Some(u) = q.pop_front()`. The edges of `u` are taken out while its children are
-- linked.
unfoldable pub build_loop : ℕ → List Node → List ℕ → Outcome (List Node)
build_loop zero nodes q = stuck
build_loop (suc fuel) nodes [] = done nodes
build_loop (suc fuel) nodes (u ∷ q) = do
  node ← byte_at nodes u
  r ← link_children (length nodes) (set nodes u (with_next [] node)) u node.next q
  node' ← byte_at r.0 u
  build_loop fuel (set r.0 u (with_next node.next node')) r.1

unfoldable pub link_first : List Node → Edges → List ℕ → Outcome (List Node × List ℕ)
link_first nodes [] q = done (nodes, q)
link_first nodes ((c, n) ∷ es) q = do
  node ← byte_at nodes n
  link_first (set nodes n (link 0 none node)) es (q ++ (n ∷ []))

-- Fuel for the loop: the edges on all walks along `es`, of `k` edges at most.
unfoldable pub rounds : ℕ → List Node → Edges → ℕ
rounds k nodes [] = 0
rounds zero nodes ((c, v) ∷ es) = suc (rounds zero nodes es)
rounds (suc k) nodes ((c, v) ∷ es) =
    suc (rounds k nodes (get_or nodes v (fresh_node 0)).next + rounds (suc k) nodes es)

unfoldable pub build : AhoCorasick → Outcome AhoCorasick
unfolding link_first build_loop rounds
build ac = do
  root ← byte_at ac.nodes 0
  r ← link_first ac.nodes root.next []
  nodes ← build_loop (suc (rounds (length ac.nodes) ac.nodes root.next)) r.0 r.1
  done (record { nodes = nodes; patterns = ac.patterns })

-- `find`, the loop that follows failure links to a node with the edge `b`
unfoldable pub goto : ℕ → List Node → ℕ → ℕ → Outcome ℕ
goto zero nodes cur b = stuck
goto (suc fuel) nodes cur b = do
  child ← child_of nodes cur b
  node ← byte_at nodes cur
  let up = goto fuel nodes node.fail b
  elim child [ some n ↦ done n | none ↦ if cur == 0 then done 0 else up ]

-- `f(pid, i + 1 - plen)`, for the patterns of one node; `usize` panics below 0
unfoldable pub report : List Bytes → List ℕ → ℕ → Outcome (List (ℕ × ℕ))
report patterns [] i = done []
report patterns (pid ∷ pids) i = do
  p ← byte_at patterns pid
  let rest : Outcome (List (ℕ × ℕ)) = do
    more ← report patterns pids i
    done ((pid, i + 1 - length p) ∷ more)
  if ltb (i + 1) (length p) then panic else rest

-- `while o != NO_OUT`
unfoldable pub report_all : ℕ → List Node → List Bytes → Option ℕ → ℕ → Outcome (List (ℕ × ℕ))
report_all zero nodes patterns o i = stuck
report_all (suc fuel) nodes patterns none i = done []
report_all (suc fuel) nodes patterns (some o) i = do
  node ← byte_at nodes o
  here ← report patterns node.self_out i
  rest ← report_all fuel nodes patterns node.out_link i
  done (here ++ rest)

unfoldable pub find_loop : AhoCorasick → Bytes → ℕ → ℕ → Outcome (List (ℕ × ℕ))
find_loop ac [] i cur = done []
find_loop ac (b ∷ text) i cur = do
  n ← goto (suc (length ac.nodes)) ac.nodes cur b
  node ← byte_at ac.nodes n
  let o : Option ℕ = output node.self_out n node.out_link
  here ← report_all (suc (length ac.nodes)) ac.nodes ac.patterns o i
  rest ← find_loop ac text (i + 1) n
  done (here ++ rest)

-- The calls of `f`, in order.
unfoldable pub find : AhoCorasick → Bytes → Outcome (List (ℕ × ℕ))
unfolding find_loop
find ac text = elim ac.patterns [ [] ↦ done [] | _ ∷ _ ↦ find_loop ac text 0 0 ]

-- How the sink filter uses it: every pattern is inserted, the links are built, and the text is read.
unfoldable pub insert_all : AhoCorasick → List Bytes → Outcome AhoCorasick
insert_all ac [] = done ac
insert_all ac (p ∷ ps) = do r ← insert ac p; insert_all r.0 ps

unfoldable pub search_for : List Bytes → Bytes → Outcome (List (ℕ × ℕ))
search_for ps text = do ac ← insert_all new ps; ac' ← build ac; find ac' text
