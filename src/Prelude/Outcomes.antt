-- ===== src/Prelude/Outcomes.antt =====
-- The results of code that can stop: a value, a panic (an index or a slice out of bounds), or a
-- loop whose fuel ran out, which is no behaviour of the program.
use Prim.Native.Nat.{ℕ, ◌+◌, ◌-◌, ◌≤◌, ◌<◌}
use mathlib.Core.Path.{◌≡◌, refl}
use mathlib.Core.Bool.{Bool, true, false, ◌&&◌}
use mathlib.Core.Option.{Option, none, some}
use mathlib.Core.List.{List, ◌++◌}
use native.Mathlib.Omega.{arith}
use afeye.Prelude.Lists.{
  length, get_elem?, get_elem?-some, get_elem?-append, take, drop, drop-append, take-append,
  length-append,
}
use afeye.Prelude.Tests.{leb, le→leb, if◌then◌else◌}

pub data Outcome {ℓ} (A : Type ℓ) : Type ℓ where
  done : A → Outcome A
  panic stuck : Outcome A

infixl 5 ◌>>=◌
abbrev pub ◌>>=◌ {ℓ κ} : {A : Type ℓ} {B : Type κ} → Outcome A → (A → Outcome B) → Outcome B
done a >>= f = f a
panic >>= f = panic
stuck >>= f = stuck

-- The run returns, and its value has the property.
abbrev pub Returns {ℓ} : {A : Type ℓ} → (A → Type 0) → Outcome A → Type 0
Returns P (done a) = P a
Returns P panic = ⊥
Returns P stuck = ⊥

pub Returns-bind {ℓ κ} :
    {A : Type ℓ} {B : Type κ} (P : A → Type 0) (Q : B → Type 0) (m : Outcome A) (f : A → Outcome B)
    → Returns P m
    → ((a : A) → P a → Returns Q (f a))
    → Returns Q (m >>= f)
Returns-bind P Q (done a) f h k = k a h
Returns-bind P Q panic f h k = h
Returns-bind P Q stuck f h k = h

-- A step that is known to return, where its value does not matter.
pub Returns-step {ℓ κ} :
    {A : Type ℓ} {B : Type κ} (Q : B → Type 0) (m : Outcome A) (f : A → Outcome B)
    → (a : A) × (m ≡ done a)
    → ((a : A) → Returns Q (f a))
    → Returns Q (m >>= f)
Returns-step Q (done a) f h k = k a
Returns-step Q panic f (a, e) k = absurd (cc)
Returns-step Q stuck f (a, e) k = absurd (cc)

-- the same, with what was read
pub Returns-known {ℓ κ} :
    {A : Type ℓ} {B : Type κ} (Q : B → Type 0) (m : Outcome A) (f : A → Outcome B)
    → (a : A) × (m ≡ done a)
    → ((a : A) → m ≡ done a → Returns Q (f a))
    → Returns Q (m >>= f)
Returns-known Q (done a) f h k = k a refl
Returns-known Q panic f (a, e) k = absurd (cc)
Returns-known Q stuck f (a, e) k = absurd (cc)

pub Returns-if {ℓ} :
    {A : Type ℓ} (P : A → Type 0) (b : Bool) (x y : Outcome A)
    → (b ≡ true → Returns P x)
    → (b ≡ false → Returns P y)
    → Returns P (if b then x else y)
Returns-if P true x y h k = h refl
Returns-if P false x y h k = k refl

pub Returns-imp {ℓ} :
    {A : Type ℓ} (P Q : A → Type 0) (m : Outcome A)
    → Returns P m
    → ((a : A) → P a → Q a)
    → Returns Q m
Returns-imp P Q (done a) h k = k a h
Returns-imp P Q panic h k = h
Returns-imp P Q stuck h k = h

pub Returns→done {ℓ} :
    {A : Type ℓ} (P : A → Type 0) (m : Outcome A) → Returns P m → (a : A) × (m ≡ done a) × P a
Returns→done P (done a) h = (a, refl, h)
Returns→done P panic h = absurd h
Returns→done P stuck h = absurd h

-- `b[i]`
abbrev of_option {ℓ} : {A : Type ℓ} → Option A → Outcome A
of_option none = panic
of_option (some a) = done a

unfoldable pub byte_at {ℓ} : {A : Type ℓ} → List A → ℕ → Outcome A
byte_at b i = of_option (get_elem? b i)

-- `&b[s..e]`
unfoldable pub slice {ℓ} : {A : Type ℓ} → List A → ℕ → ℕ → Outcome (List A)
slice b s e = if leb s e && leb e (length b) then done (take (e - s) (drop s b)) else panic

module _ {ℓ} {A : Type ℓ} where
  pub byte_at-done : (b : List A) (i : ℕ) → i < length b → (a : A) × (byte_at b i ≡ done a)
  unfolding byte_at
  byte_at-done b i h = let (a, e) = get_elem?-some b i h in (a, rw e)

  pub byte_at-append :
      (xs ys : List A) (n i : ℕ) → n ≡ length xs + i → byte_at (xs ++ ys) n ≡ byte_at ys i
  unfolding byte_at
  byte_at-append xs ys n i e = rw (get_elem?-append xs ys n i e)

  pub slice-done :
      (b : List A) (s e : ℕ) → s ≤ e → e ≤ length b → slice b s e ≡ done (take (e - s) (drop s b))
  unfolding slice
  slice-done b s e h k = rw (le→leb s e h) (rw (le→leb e (length b) k))

  pub slice-panic : (b : List A) (s e : ℕ) → length b < e → slice b s e ≡ panic
  unfolding slice
  slice-panic b s e h = ground arith

  -- A slice that starts where one part ends and stops where the next ends is that next part.
  pub slice-append :
      (pre mid post : List A) (s e : ℕ)
      → s ≡ length pre
      → e ≡ s + length mid
      → slice (pre ++ (mid ++ post)) s e ≡ done mid
  slice-append pre mid post s e p q =
      rw
        (slice-done (pre ++ (mid ++ post)) s e (omega arith)
          (omega (arith, length-append pre (mid ++ post), length-append mid post)))
        (rw (drop-append pre (mid ++ post) s p) (rw (take-append mid post (e - s) (omega arith))))
