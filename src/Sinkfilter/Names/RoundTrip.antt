-- ===== src/Sinkfilter/Names/RoundTrip.antt =====
-- The texts that the engine writes, read back by src/sinkfilter.rs.
use afeye.Prelude.{
  ℕ, ◌+◌, ◌*◌, ◌-◌, ◌/◌, ◌^◌, ◌<◌, ◌≡◌, ◌≢◌, refl, ap, true, false, some, List, [], ◌∷◌, ◌++◌,
  Bytes, All, get_or, all_below, all_below-true, codes, ltb, ◌==◌, ==_iff, if◌then◌else◌, bit_and,
  arith,
}
use afeye.Bctrace.Read.{from_le, to_le}
use afeye.Collect.Names.{split_once}
use afeye.Sinkfilter.Names.{before, split_iso, worker_of, hex_of, hex_table, load_exec_funcs}

-- `c` does not stand in the text.
abbrev pub Lacks : ℕ → Bytes → Type 0
Lacks c s = All (λ x. x ≢ c) s

split_once-append : (c : ℕ) (a b : Bytes) → Lacks c a → split_once c (a ++ (c ∷ b)) ≡ some (a, b)
unfolding split_once
split_once-append c [] b h = rw ((==_iff c c).1 refl) refl
split_once-append c (x ∷ a) b (h, hs) =
    let other : (x == c) ≡ false = ground (arith, h) in
    rw other (rw (split_once-append c a b hs) refl)

before-append :
    (a rest : Bytes) → Lacks 32 a → before (codes " secure=") (a ++ (codes " secure=" ++ rest)) ≡ a
unfolding before
before-append [] rest h = refl
before-append (x ∷ a) rest (h, hs) =
    let other : (x == 32) ≡ false = ground (arith, h) in
    rw other (ap (◌∷◌ x) (before-append a rest hs))

-- The engine's line about a worker gives its isolate and its name; neither holds a blank.
pub worker_of-scope :
    (iso name rest : Bytes)
    → Lacks 32 iso
    → Lacks 32 name
    → worker_of (
        codes "worker-scope iso="
        ++ (iso ++ (codes " name=" ++ (name ++ (codes " secure=" ++ rest)))))
      ≡ some (iso, name)
unfolding worker_of
worker_of-scope iso name rest h k =
    rw
      (
        split_once-append 32 iso (codes "name=" ++ (name ++ (codes " secure=" ++ rest))) h,
        worker_of,
      )
      (rw (before-append name rest k) refl)

pub split_iso-iso :
    (iso name : Bytes)
    → Lacks 32 iso
    → split_iso (codes "iso:" ++ (iso ++ (32 ∷ name))) ≡ (some iso, name)
unfolding split_iso
split_iso-iso iso name h = rw (split_once-append 32 iso name h, split_iso) refl

-- The functions that src/bctrace.rs writes to `exec_funcs.bin`.
abbrev pub put_exec_funcs : List ℕ → Bytes
put_exec_funcs [] = []
put_exec_funcs (f ∷ fs) = to_le 4 f ++ put_exec_funcs fs

-- The list of executed functions is read back as it was written; every id fits 32 bits.
pub load_exec_funcs-put_exec_funcs :
    (fs : List ℕ) → All (λ f. f < 2 ^ 32) fs → load_exec_funcs (put_exec_funcs fs) ≡ fs
unfolding load_exec_funcs from_le to_le
load_exec_funcs-put_exec_funcs [] h = refl
load_exec_funcs-put_exec_funcs (f ∷ fs) (h, hs) =
    let same : from_le (to_le 4 f) ≡ f = omega arith in
    λ i. same i ∷ load_exec_funcs-put_exec_funcs fs hs i

-- two digits, as a byte
abbrev digit_value : ℕ → ℕ
digit_value c = if ltb c 58 then c - 48 else c - 87

abbrev pub of_hex : Bytes → Bytes
of_hex (a ∷ b ∷ s) = (16 * digit_value a + digit_value b) ∷ of_hex s
of_hex _ = []

hex_byte : ℕ → ℕ
hex_byte x =
    16 * digit_value (get_or hex_table (x / 16) 0) + digit_value (get_or hex_table (bit_and x 15) 0)

digits_table : all_below 256 (λ x. hex_byte x == x) ≡ true
unfolding hex_byte
digits_table = refl

-- The digits of `hex_of` stand for the bytes that it was given.
pub of_hex-hex_of : (b : Bytes) → All (λ x. x < 256) b → of_hex (hex_of b) ≡ b
unfolding hex_of hex_byte
of_hex-hex_of [] h = refl
of_hex-hex_of (x ∷ b) (h, hs) =
    let same : hex_byte x ≡ x =
      (==_iff (hex_byte x) x).0 (all_below-true 256 (λ y. hex_byte y == y) x digits_table h) in
    λ i. same i ∷ of_hex-hex_of b hs i
