-- ===== src/Prelude/Bits.antt =====
-- `bit_or` of numbers whose bits do not meet, and masks on a byte.
use Prim.Native.Nat.{
  ℕ, zero, suc, ◌+◌, ◌*◌, ◌/◌, ◌%◌, ◌^◌, ◌≤◌, ◌<◌, max, bit_and, bit_or, digits, bit_or-bitwise,
}
use mathlib.Core.Path.{◌≡◌, refl, ◌∙◌}
use mathlib.Core.Bool.{Bool, true, ◌&&◌}
use native.Mathlib.Omega.{arith}
use native.Mathlib.Nat.{pow-succ'}
use afeye.Prelude.Tests.{◌==◌, ==_iff}

abbrev pub all_below : ℕ → (ℕ → Bool) → Bool
all_below zero p = true
all_below (suc n) p = p n && all_below n p

pub all_below-true : (n : ℕ) (p : ℕ → Bool) (x : ℕ) → all_below n p ≡ true → x < n → p x ≡ true
all_below-true zero p x h lt = absurd (omega arith)
all_below-true (suc n) p x h lt = ground (arith, all_below-true n p x)

abbrev or_digits : ℕ → ℕ → ℕ → ℕ
or_digits n a b = digits (λ b. b) max n a b

pow-suc : (x k : ℕ) → x * 2 ^ suc k ≡ (x * 2 ^ k) * 2
pow-suc x k = grind (arith, pow-succ' 2 k)

-- `b` has `k` zeros at its low end, so the digits of the two numbers do not meet.
or_digits-shift : (n k r b x : ℕ) → r ≤ n → r < 2 ^ k → b ≡ x * 2 ^ k → or_digits n r b ≡ r + b
or_digits-shift zero k r b x h lt z = omega arith
or_digits-shift (suc n) k zero b x h lt z = omega arith
or_digits-shift (suc n) zero (suc a) b x h lt z = absurd (omega arith)
or_digits-shift (suc n) (suc k) (suc a) b x h lt z = omega (
  arith,
  or_digits-shift n k (suc a / 2) (b / 2) x (omega arith) (omega (arith, pow-suc 1 k))
      (omega (arith, pow-suc x k)),
  pow-suc x k,
)

pub bit_or-shift : (k r x : ℕ) → r < 2 ^ k → bit_or r (x * 2 ^ k) ≡ r + x * 2 ^ k
bit_or-shift k r x h =
    bit_or-bitwise r (x * 2 ^ k) ∙ or_digits-shift r k r (x * 2 ^ k) x (omega arith) h refl

-- `& 0x7f` and `& 0x80` on a byte
low_table : all_below 256 (λ c. bit_and c 127 == c % 128) ≡ true
low_table = refl

high_table : all_below 256 (λ c. bit_and c 128 == c / 128 * 128) ≡ true
high_table = refl

pub bit_and-127 : (c : ℕ) → c < 256 → bit_and c 127 ≡ c % 128
bit_and-127 c h = (==_iff _ _).0 (all_below-true 256 (λ x. bit_and x 127 == x % 128) c low_table h)

pub bit_and-128 : (c : ℕ) → c < 256 → bit_and c 128 ≡ c / 128 * 128
bit_and-128 c h =
    (==_iff _ _).0 (all_below-true 256 (λ x. bit_and x 128 == x / 128 * 128) c high_table h)
