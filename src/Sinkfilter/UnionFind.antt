-- ===== src/Sinkfilter/UnionFind.antt =====
-- `UnionFind` of src/sinkfilter.rs, which joins the tasks of a causality chain. Its hash map is a
-- function from keys; the loops of `find` follow it for `fuel` rounds at most.
pub mod Roots
pub mod Union
use afeye.Prelude.{
  ℕ, zero, suc, Option, some, none, Outcome, done, stuck, ◌>>=◌, ◌==◌, if◌then◌else◌,
}

abbrev pub Parents : Type 0
Parents = ℕ → Option ℕ

unfoldable pub no_parents : Parents
no_parents x = none

-- `p.insert(k, v)`
unfoldable pub insert : ℕ → ℕ → Parents → Parents
insert k v p x = if x == k then some v else p x

unfoldable pub insert_node : ℕ → Parents → Parents
unfolding insert
insert_node x p = elim (p x) [ none ↦ insert x x p | some v ↦ p ]

-- the first loop of `find`
unfoldable pub find_root : ℕ → Parents → ℕ → Outcome ℕ
find_root zero p root = stuck
find_root (suc fuel) p root = elim (p root) [
  | none ↦ done root
  | some v ↦ let rest = find_root fuel p v in if v == root then done root else rest
]

-- the second loop: every node of the path gets the root as its parent
unfoldable pub compress : ℕ → ℕ → Parents → ℕ → Outcome Parents
compress zero root p cur = stuck
compress (suc fuel) root p cur =
    let round : Outcome Parents = elim (p cur) [
      | none ↦ done p
      | some v ↦
          let rest = compress fuel root (insert cur root p) v in if v == cur then done p else rest
    ] in
    if cur == root then done p else round

unfoldable pub find : ℕ → Parents → ℕ → Outcome (ℕ × Parents)
find fuel p x = do root ← find_root fuel p x; p' ← compress fuel root p x; done (root, p')

unfoldable pub union : ℕ → Parents → ℕ → ℕ → Outcome Parents
union fuel p a b = do
  ra ← find fuel p a
  rb ← find fuel ra.1 b
  done (if ra.0 == rb.0 then rb.1 else insert rb.0 ra.0 rb.1)
