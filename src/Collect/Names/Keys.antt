-- ===== src/Collect/Names/Keys.antt =====
-- Keys of the statistics of src/collect.rs are read back by `parse_per_key`.
use afeye.Prelude.{
  all_below, all_below-true, ℕ, ◌<◌, ◌≡◌, refl, Bool, true, false, ◌&&◌, Option, some, none, ◌==◌,
  if◌then◌else◌, arith,
}
use afeye.Collect.Names.{layer_name, kind_name, split_once, position, parse_per_key, per_name}

abbrev is_pair : Option (ℕ × ℕ) → ℕ → ℕ → Bool
is_pair none a b = false
is_pair (some (x, y)) a b = x == a && y == b

is_pair→some : (o : Option (ℕ × ℕ)) (a b : ℕ) → is_pair o a b ≡ true → o ≡ some (a, b)
is_pair→some none a b h = cc
is_pair→some (some (x, y)) a b h = ground arith

abbrev read_kind : ℕ → ℕ
read_kind kind = if kind == 22 then 1 else kind

abbrev reads_back : ℕ → ℕ → Bool
reads_back lid kind = is_pair (parse_per_key (per_name lid kind)) lid (read_kind kind)

keys_table : all_below 3 (λ lid. all_below 41 (reads_back lid)) ≡ true
unfolding parse_per_key per_name layer_name kind_name split_once position
keys_table = refl

-- The key that `Stats` writes for a layer and a kind is read back as the same layer and kind, with
-- one exception: kind 22 has the name of kind 1, and comes back as kind 1.
pub parse_per_key-per_name :
    (lid kind : ℕ)
    → lid < 3
    → kind < 41
    → parse_per_key (per_name lid kind) ≡ some (lid, (if kind == 22 then 1 else kind))
parse_per_key-per_name lid kind h k = is_pair→some _ lid (read_kind kind) (
    all_below-true 41 (reads_back lid) kind
      (all_below-true 3 (λ l. all_below 41 (reads_back l)) lid keys_table h) k)
