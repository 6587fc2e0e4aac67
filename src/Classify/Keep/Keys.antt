-- ===== src/Classify/Keep/Keys.antt =====
-- The keys of the sends that `filter_file` of src/classify.rs compares.
use afeye.Prelude.{
  ◌≡◌, refl, sym, ap, ◌∙◌, Bool, true, false, ◌||◌, Option, some, none, List, [], ◌∷◌, ◌++◌,
  append_assoc, Bytes, bytes_eq, bytes_eq_iff, if◌then◌else◌, arith,
}
use afeye.Classify.{Mode}
use afeye.Classify.Json.{Value}
use afeye.Classify.State.{SiteState}
use afeye.Classify.Keep.{line_keep, verdict_of_rid, SendKey, key_eq, has_key, send_key}

-- No key stands twice in the list.
abbrev pub IsDistinct : List SendKey → Type 0
IsDistinct [] = Unit
IsDistinct (k ∷ ks) = (has_key k ks ≡ false) × IsDistinct ks

abbrev pub some_key : Option SendKey → List SendKey
some_key none = []
some_key (some k) = k ∷ []

abbrev pub key_of : (Value → Bytes) → Option Value → List SendKey
key_of print none = []
key_of print (some v) = some_key (send_key print v)

-- the keys of the sends among lines
abbrev pub keys_of : (Bytes → Option Value) → (Value → Bytes) → List Bytes → List SendKey
keys_of parse print [] = []
keys_of parse print (line ∷ lines) = key_of print (parse line) ++ keys_of parse print lines

-- the lines that parse and that `line_keep` admits
abbrev pub admits : SiteState → List Bytes → Mode → Option Value → Bool
admits st tainted mode none = false
admits st tainted mode (some v) = line_keep st tainted (verdict_of_rid st) mode v

abbrev pub admitted :
    (Bytes → Option Value) → SiteState → List Bytes → Mode → List Bytes → List Bytes
admitted parse st tainted mode [] = []
admitted parse st tainted mode (line ∷ lines) =
    let rest = admitted parse st tainted mode lines in
    if admits st tainted mode (parse line) then line ∷ rest else rest

pub key_eq_iff : (j k : SendKey) → key_eq j k ≡ true → j ≡ k
key_eq_iff (a, b, c) (x, y, z) h = ground (arith, (bytes_eq_iff a x).0)

pub bytes_eq_comm : (a b : Bytes) → bytes_eq a b ≡ bytes_eq b a
bytes_eq_comm [] [] = refl
bytes_eq_comm (x ∷ a) (y ∷ b) = ground (arith, bytes_eq_comm a b)
bytes_eq_comm [] (y ∷ b) = refl
bytes_eq_comm (x ∷ a) [] = refl

pub key_eq_comm : (j k : SendKey) → key_eq j k ≡ key_eq k j
key_eq_comm (a, b, c) (x, y, z) = ground (arith, bytes_eq_comm a x)

pub or_assoc : (a b c : Bool) → (a || (b || c)) ≡ ((a || b) || c)
or_assoc a b c = ground arith

pub has_key-++ :
    (k : SendKey) (xs ys : List SendKey) → has_key k (xs ++ ys) ≡ (has_key k xs || has_key k ys)
has_key-++ k [] ys = refl
has_key-++ k (x ∷ xs) ys =
    ap (λ r. key_eq x k || r) (has_key-++ k xs ys)
    ∙ or_assoc (key_eq x k) (has_key k xs) (has_key k ys)

pub snoc-IsDistinct :
    (k : SendKey) (ks : List SendKey)
    → has_key k ks ≡ false
    → IsDistinct ks
    → IsDistinct (ks ++ (k ∷ []))
snoc-IsDistinct k [] h d = (refl, tt)
snoc-IsDistinct k (j ∷ ks) h (n, d) = (
  ground (arith, has_key-++ j ks (k ∷ []), key_eq_comm j k),
  snoc-IsDistinct k ks (ground arith) d,
)

pub keys_of-++ :
    (parse : Bytes → Option Value) (print : Value → Bytes) (xs ys : List Bytes)
    → keys_of parse print (xs ++ ys) ≡ keys_of parse print xs ++ keys_of parse print ys
keys_of-++ parse print [] ys = refl
keys_of-++ parse print (x ∷ xs) ys =
    ap (λ r. key_of print (parse x) ++ r) (keys_of-++ parse print xs ys)
    ∙ sym (append_assoc (key_of print (parse x)) (keys_of parse print xs) (keys_of parse print ys))
