-- ===== src/Prelude/Text.antt =====
-- Texts as bytes: literals, equality, and membership in a table of literals.
use Prim.Native.Char.{code}
use Prim.Native.String.{String}
use mathlib.Core.Path.{◌≡◌, refl}
use mathlib.Core.Logic.{◌↔◌}
use mathlib.Core.Bool.{Bool, true, false, ◌&&◌, ◌||◌}
use mathlib.Core.List.{List, [], ◌∷◌, map}
use Prim.Native.Nat.{◌+◌}
use native.Mathlib.Omega.{arith}
use afeye.Prelude.Lists.{Bytes}
use afeye.Prelude.Tests.{◌==◌, leb, if◌then◌else◌}

-- The characters of a literal, which are its bytes where they are ASCII.
abbrev pub codes : String → Bytes
codes String.[] = []
codes (String.◌∷◌ c s) = code c ∷ codes s

abbrev pub bytes_eq : Bytes → Bytes → Bool
bytes_eq [] [] = true
bytes_eq (x ∷ xs) (y ∷ ys) = x == y && bytes_eq xs ys
bytes_eq [] (y ∷ ys) = false
bytes_eq (x ∷ xs) [] = false

pub bytes_eq_iff : (a b : Bytes) → (bytes_eq a b ≡ true) ↔ (a ≡ b)
bytes_eq_iff [] [] = ((λ _. refl), (λ _. refl))
bytes_eq_iff (x ∷ a) (y ∷ b) = ground (arith, bytes_eq_iff a b)
bytes_eq_iff [] (y ∷ b) = ground arith
bytes_eq_iff (x ∷ a) [] = ground arith

-- `matches!(name, "a" | "b" | …)`
abbrev pub one_of : Bytes → List String → Bool
one_of b [] = false
one_of b (s ∷ ss) = bytes_eq b (codes s) || one_of b ss

-- `starts_with`
abbrev pub starts_with : Bytes → Bytes → Bool
starts_with b [] = true
starts_with [] (y ∷ ys) = false
starts_with (x ∷ xs) (y ∷ ys) = x == y && starts_with xs ys

-- `contains`
abbrev pub contains : Bytes → Bytes → Bool
contains [] w = starts_with [] w
contains (x ∷ xs) w = starts_with (x ∷ xs) w || contains xs w

-- `to_ascii_lowercase`
abbrev pub lower : Bytes → Bytes
lower b = map (λ c. if leb 65 c && leb c 90 then c + 32 else c) b

abbrev pub contains_any : Bytes → List String → Bool
contains_any b [] = false
contains_any b (s ∷ ss) = contains b (codes s) || contains_any b ss
