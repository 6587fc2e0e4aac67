-- ===== src/Collect/Accounts/Pieces.antt =====
-- How the bytes that `scan_once` of src/collect.rs reads fall into records and skipped bytes.
use afeye.Prelude.{
  ℕ, zero, suc, ◌+◌, ◌≤◌, ◌<◌, ◌≡◌, refl, sym, ap, ◌∙◌, List, [], ◌∷◌, ◌++◌, Bytes, length,
  length-take, take, drop, take-append-drop, done, byte_at, arith,
}
use afeye.Bctrace.Read.{rd_u32, rd_u32-append}
use afeye.Collect.{Frame, frame_of}

-- a byte that is skipped, or the bytes of a record with its header
pub data Piece : Type 0 where
  skipped : ℕ → Piece
  whole_record : Bytes → Piece

abbrev pub bytes_of : List Piece → Bytes
bytes_of [] = []
bytes_of (skipped b ∷ ps) = b ∷ bytes_of ps
bytes_of (whole_record rec ∷ ps) = rec ++ bytes_of ps

-- the skipped bytes
abbrev pub skips : List Piece → ℕ
skips [] = 0
skips (skipped b ∷ ps) = suc (skips ps)
skips (whole_record rec ∷ ps) = skips ps

-- The records among the pieces are those of `fs`, in order; each states its length.
abbrev pub IsCut : ℕ → List Piece → List Frame → Type 0
IsCut layer_id [] [] = Unit
IsCut layer_id [] (f ∷ fs) = ⊥
IsCut layer_id (skipped b ∷ ps) fs = IsCut layer_id ps fs
IsCut layer_id (whole_record rec ∷ ps) [] = ⊥
IsCut layer_id (whole_record rec ∷ ps) (f ∷ fs) =
    (rd_u32 rec 0 ≡ done (length rec)) × (frame_of layer_id rec ≡ done f) × IsCut layer_id ps fs

pub drop-first : (c : ℕ) (b : Bytes) → c < length b → (x : ℕ) × (drop c b ≡ x ∷ drop (c + 1) b)
drop-first c [] h = absurd (omega arith)
drop-first zero (x ∷ b) h = (x, refl)
drop-first (suc c) (y ∷ b) h =
    let (x, e) = drop-first c b (omega arith) in
    let next : suc (c + 1) ≡ suc c + 1 = omega arith in (x, e ∙ ap (λ n. x ∷ drop n (y ∷ b)) next)

drop-nil : (n : ℕ) → drop {A = ℕ} n [] ≡ []
drop-nil zero = refl
drop-nil (suc n) = refl

pub drop-drop : (c n : ℕ) (b : Bytes) → drop n (drop c b) ≡ drop (c + n) b
drop-drop zero n b = ap (λ m. drop m b) (omega arith)
drop-drop (suc c) n [] = drop-nil n ∙ sym (drop-nil (suc c + n))
drop-drop (suc c) n (x ∷ b) =
    let next : suc (c + n) ≡ suc c + n = omega arith in
    drop-drop c n b ∙ ap (λ m. drop m (x ∷ b)) next

pub take-all : (n : ℕ) (b : Bytes) → length b ≤ n → take n b ≡ b
take-all zero [] h = refl
take-all (suc n) [] h = refl
take-all zero (x ∷ b) h = absurd (omega arith)
take-all (suc n) (x ∷ b) h = ap (◌∷◌ x) (take-all n b (omega arith))

rd_u32-front : (rec z : Bytes) → 4 ≤ length rec → rd_u32 (rec ++ z) 0 ≡ rd_u32 rec 0
unfolding rd_u32 byte_at
rd_u32-front [] z h = absurd (omega arith)
rd_u32-front (a ∷ []) z h = absurd (omega arith)
rd_u32-front (a ∷ b ∷ []) z h = absurd (omega arith)
rd_u32-front (a ∷ b ∷ c ∷ []) z h = absurd (omega arith)
rd_u32-front (a ∷ b ∷ c ∷ d ∷ rec) z h = refl

pub rd_u32-record :
    (b : Bytes) (c : ℕ) (rec z : Bytes)
    → c ≤ length b
    → drop c b ≡ rec ++ z
    → 4 ≤ length rec
    → rd_u32 rec 0 ≡ rd_u32 b c
rd_u32-record b c rec z h e n =
    let at : rd_u32 (take c b ++ drop c b) c ≡ rd_u32 (drop c b) 0 =
      rd_u32-append (take c b) (drop c b) c 0 (omega (arith, length-take c b)) in
    sym (rd_u32-front rec z n)
    ∙ ap (λ t. rd_u32 t 0) (sym e)
    ∙ sym at
    ∙ ap (λ t. rd_u32 t c) (take-append-drop c b)
