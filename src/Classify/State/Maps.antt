-- ===== src/Classify/State/Maps.antt =====
-- The maps of src/classify.rs as lists of pairs.
use afeye.Prelude.{
  lookup, modify, upsert, ◌≡◌, ◌≢◌, refl, sym, ap, ◌∙◌, true, false, Bool-cases, inl, inr, Option,
  some, none, List, [], ◌∷◌, Bytes, bytes_eq, bytes_eq_iff, if◌then◌else◌,
}

abbrev pub map_option : {A B : Type 0} → (A → B) → Option A → Option B
map_option f none = none
map_option f (some a) = some (f a)

abbrev pub or_default : {A : Type 0} → Option A → A → A
or_default none d = d
or_default (some a) d = a

pub bytes_eq_refl : (k : Bytes) → bytes_eq k k ≡ true
bytes_eq_refl k = (bytes_eq_iff k k).1 refl

pub bytes_eq_ne : (j k : Bytes) → j ≢ k → bytes_eq j k ≡ false
bytes_eq_ne j k ne = elim (Bool-cases (bytes_eq j k)) [
  | inl e ↦ absurd (ne ((bytes_eq_iff j k).0 e))
  | inr e ↦ e
]

module _ {V : Type 0} where
  pub lookup-upsert :
      (k : Bytes) (d : V) (f : V → V) (m : List (Bytes × V))
      → lookup k (upsert k d f m) ≡ some (f (or_default (lookup k m) d))
  unfolding lookup upsert
  lookup-upsert k d f [] = rw (bytes_eq_refl k) refl
  lookup-upsert k d f ((j, v) ∷ m) = elim (Bool-cases (bytes_eq j k)) [
    | inl e ↦ rw e (rw e refl)
    | inr e ↦ rw e (rw e (lookup-upsert k d f m))
  ]

  pub lookup-upsert_ne :
      (j k : Bytes) (d : V) (f : V → V) (m : List (Bytes × V))
      → k ≢ j
      → lookup j (upsert k d f m) ≡ lookup j m
  unfolding lookup upsert
  lookup-upsert_ne j k d f [] ne = rw (bytes_eq_ne k j ne) refl
  lookup-upsert_ne j k d f ((i, v) ∷ m) ne = elim (Bool-cases (bytes_eq i k)) [
    | inl e ↦
        let same : i ≡ k = (bytes_eq_iff i k).0 e in
        let other : bytes_eq i j ≡ false = bytes_eq_ne i j (λ q. ne (sym same ∙ q)) in
        rw e (rw other refl)
    | inr e ↦ rw e (ap (λ r. if bytes_eq i j then some v else r) (lookup-upsert_ne j k d f m ne))
  ]

  pub lookup-modify :
      (k : Bytes) (f : V → V) (m : List (Bytes × V))
      → lookup k (modify k f m) ≡ map_option f (lookup k m)
  unfolding lookup modify
  lookup-modify k f [] = refl
  lookup-modify k f ((j, v) ∷ m) = elim (Bool-cases (bytes_eq j k)) [
    | inl e ↦ rw e (rw e refl)
    | inr e ↦ rw e (rw e (lookup-modify k f m))
  ]

  pub lookup-modify_ne :
      (j k : Bytes) (f : V → V) (m : List (Bytes × V))
      → k ≢ j
      → lookup j (modify k f m) ≡ lookup j m
  unfolding lookup modify
  lookup-modify_ne j k f [] ne = refl
  lookup-modify_ne j k f ((i, v) ∷ m) ne = elim (Bool-cases (bytes_eq i k)) [
    | inl e ↦
        let same : i ≡ k = (bytes_eq_iff i k).0 e in
        let other : bytes_eq i j ≡ false = bytes_eq_ne i j (λ q. ne (sym same ∙ q)) in
        rw e (rw other refl)
    | inr e ↦ rw e (ap (λ r. if bytes_eq i j then some v else r) (lookup-modify_ne j k f m ne))
  ]
