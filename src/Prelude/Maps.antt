-- ===== src/Prelude/Maps.antt =====
-- Hash maps, as lists of pairs in the order in which they are read.
use afeye.Prelude.Tests.{if◌then◌else◌}
use afeye.Prelude.Text.{bytes_eq}
use afeye.Prelude.Lists.{Bytes}
use mathlib.Core.Option.{Option, none, some}
use mathlib.Core.List.{List, [], ◌∷◌}

module _ {V : Type 0} where
  unfoldable pub lookup : Bytes → List (Bytes × V) → Option V
  lookup k [] = none
  lookup k ((j, v) ∷ m) = if bytes_eq j k then some v else lookup k m

  -- `entry(k)`: the value becomes `f` of itself, or of `d` where there is none.
  unfoldable pub upsert : Bytes → V → (V → V) → List (Bytes × V) → List (Bytes × V)
  upsert k d f [] = (k, f d) ∷ []
  upsert k d f ((j, v) ∷ m) = if bytes_eq j k then (j, f v) ∷ m else (j, v) ∷ upsert k d f m

  -- `get_mut`
  unfoldable pub modify : Bytes → (V → V) → List (Bytes × V) → List (Bytes × V)
  modify k f [] = []
  modify k f ((j, v) ∷ m) = if bytes_eq j k then (j, f v) ∷ m else (j, v) ∷ modify k f m
