-- ===== src/Matcher/Places.antt =====
-- The places of the patterns in a text, for src/matcher.rs.
use afeye.Prelude.{
  ℕ, zero, suc, ◌+◌, ◌-◌, ◌<◌, ◌≡◌, refl, sym, ap, subst, ◌∙◌, ◌↔◌, inl, inr, ◌⊎◌, Bool-cases, some,
  List, [], ◌∷◌, ◌++◌, append_assoc, map, Bytes, bytes_eq, bytes_eq_iff, length, length-append,
  get_elem?, ◌==◌, ==_iff, arith,
}
use afeye.Matcher.Trie.{ids_of, ids_from, hits, occurrences}
use afeye.Matcher.Build.Rounds.{In, In-append_left, In-append_right}
use afeye.Matcher.Build.Queue.{All_at}
use afeye.Matcher.Find.{ids_of-AllSpell}

-- A pattern that is not empty stands in the text at `start`.
abbrev pub Occurs : List Bytes → Bytes → ℕ × ℕ → Type 0
Occurs ps text (id, start) =
    (front : Bytes) × (c : ℕ) × (word : Bytes) × (back : Bytes) × (get_elem? ps id
      ≡ some (c ∷ word))
    × (text ≡ front ++ ((c ∷ word) ++ back))
    × (length front ≡ start)

In-append_split : {A : Type 0} (x : A) (ys zs : List A) → In x (ys ++ zs) → In x ys ⊎ In x zs
In-append_split x [] zs h = inr h
In-append_split x (y ∷ ys) zs (inl e) = inl (inl e)
In-append_split x (y ∷ ys) zs (inr h) = elim (In-append_split x ys zs h) [
  | inl k ↦ inl (inr k)
  | inr k ↦ inr k
]

In-map : {A B : Type 0} (f : A → B) (x : A) (xs : List A) → In x xs → In (f x) (map f xs)
In-map f x [] h = absurd h
In-map f x (y ∷ xs) (inl e) = inl (ap f e)
In-map f x (y ∷ xs) (inr h) = inr (In-map f x xs h)

In-map_from :
    {A B : Type 0} (f : A → B) (y : B) (xs : List A)
    → In y (map f xs)
    → (x : A) × In x xs × (y ≡ f x)
In-map_from f y [] h = absurd h
In-map_from f y (x ∷ xs) (inl e) = (x, inl refl, e)
In-map_from f y (x ∷ xs) (inr h) = let (z, k, e) = In-map_from f y xs h in (z, inr k, e)

ids_from-In :
    (i j : ℕ) (ps : List Bytes) (w : Bytes) → get_elem? ps j ≡ some w → In (i + j) (ids_from i ps w)
unfolding ids_from
ids_from-In i j [] w e = absurd (cc)
ids_from-In i zero (p ∷ ps) w e =
    let f : p ≡ w = cc in rw ((bytes_eq_iff p w).1 f) (inl (omega arith))
ids_from-In i (suc j) (p ∷ ps) w e =
    let k : suc i + j ≡ i + suc j = omega arith in
    let rest : In (i + suc j) (ids_from (suc i) ps w) =
      subst (λ n. In n (ids_from (suc i) ps w)) k (ids_from-In (suc i) j ps w e) in
    elim (Bool-cases (bytes_eq p w)) [ inl f ↦ rw f (inr rest) | inr f ↦ rw f rest ]

ids_of-In :
    (ps : List Bytes) (id c : ℕ) (w : Bytes)
    → get_elem? ps id ≡ some (c ∷ w)
    → In id (ids_of ps (c ∷ w))
unfolding ids_of
ids_of-In ps id c w e =
    let k : 0 + id ≡ id = omega arith in
    subst (λ n. In n (ids_from 0 ps (c ∷ w))) k (ids_from-In 0 id ps (c ∷ w) e)

-- A pattern that is the end of `s`, where `s` ends at `e`.
abbrev EndsText : List Bytes → Bytes → ℕ → ℕ × ℕ → Type 0
EndsText ps s e (id, start) =
    (front : Bytes) × (c : ℕ) × (word : Bytes) × (get_elem? ps id ≡ some (c ∷ word))
    × (s ≡ front ++ (c ∷ word))
    × (start ≡ e - length (c ∷ word))

hits-EndsText :
    (ps : List Bytes) (s : Bytes) (e id start : ℕ)
    → In (id, start) (hits ps s e)
    → EndsText ps s e (id, start)
unfolding hits
hits-EndsText ps [] e id start h = absurd h
hits-EndsText ps (c ∷ s) e id start h =
    elim (In-append_split (id, start) (map (λ n. (n, e - length (c ∷ s))) (ids_of ps (c ∷ s)))
      (hits ps s e) h) [
        | inl k ↦
            let (n, l, f) =
              In-map_from (λ n. (n, e - length (c ∷ s))) (id, start) (ids_of ps (c ∷ s)) k in
            let same : id ≡ n = ap (λ (y : ℕ × ℕ). y.0) f in
            (
              [],
              c,
              s,
              ap (get_elem? ps) same
                  ∙ All_at (λ i. get_elem? ps i ≡ some (c ∷ s)) n (ids_of ps (c ∷ s))
                      (ids_of-AllSpell ps c s) l,
              refl,
              ap (λ (y : ℕ × ℕ). y.1) f,
            )
        | inr k ↦
            let (front, d, w, g, f, l) = hits-EndsText ps s e id start k in
            (c ∷ front, d, w, g, ap (◌∷◌ c) f, l)
      ]

hits_complete :
    (ps : List Bytes) (front : Bytes) (c : ℕ) (w : Bytes) (e id : ℕ)
    → get_elem? ps id ≡ some (c ∷ w)
    → In (id, e - length (c ∷ w)) (hits ps (front ++ (c ∷ w)) e)
unfolding hits
hits_complete ps [] c w e id g =
    In-append_left (id, e - length (c ∷ w)) (map (λ n. (n, e - length (c ∷ w))) (ids_of ps (c ∷ w)))
      (hits ps w e)
      (In-map (λ n. (n, e - length (c ∷ w))) id (ids_of ps (c ∷ w)) (ids_of-In ps id c w g))
hits_complete ps (d ∷ front) c w e id g =
    In-append_right (id, e - length (c ∷ w)) _ (hits ps (front ++ (c ∷ w)) e)
      (hits_complete ps front c w e id g)

occurrences-Occurs :
    (ps : List Bytes) (front text : Bytes) (id start : ℕ)
    → In (id, start) (occurrences ps front text)
    → Occurs ps (front ++ text) (id, start)
unfolding occurrences
occurrences-Occurs ps front [] id start h = absurd h
occurrences-Occurs ps front (b ∷ text) id start h =
    let next = front ++ (b ∷ []) in
    let joined : next ++ text ≡ front ++ (b ∷ text) = append_assoc front (b ∷ []) text in
    elim (In-append_split (id, start) (hits ps next (length next)) (occurrences ps next text) h) [
      | inl k ↦
          let (x, c, w, g, f, l) = hits-EndsText ps next (length next) id start k in
          (
            x,
            c,
            w,
            text,
            g,
            sym joined ∙ (ap (λ y. y ++ text) f ∙ append_assoc x (c ∷ w) text),
            omega (arith, ap length f, length-append x (c ∷ w)),
          )
      | inr k ↦
          subst (λ y. Occurs ps y (id, start)) joined (occurrences-Occurs ps next text id start k)
    ]

same_front : (a b x y : Bytes) → a ++ b ≡ x ++ y → length a ≡ length x → a ≡ x
same_front [] b [] y e h = refl
same_front [] b (d ∷ x) y e h = absurd (omega arith)
same_front (c ∷ a) b [] y e h = absurd (omega arith)
same_front (c ∷ a) b (d ∷ x) y e h =
    let f : c ≡ d = cc in
    let g : a ++ b ≡ x ++ y = cc in
    ap (◌∷◌ c) (same_front a b x y g (omega arith)) ∙ ap (λ k. k ∷ x) f

occurrences_complete :
    (ps : List Bytes) (front text x : Bytes) (c : ℕ) (w back : Bytes) (id : ℕ)
    → get_elem? ps id ≡ some (c ∷ w)
    → front ++ text ≡ (x ++ (c ∷ w)) ++ back
    → length front < length (x ++ (c ∷ w))
    → In (id, length x) (occurrences ps front text)
unfolding occurrences
occurrences_complete ps front [] x c w back id g e h =
    absurd (omega (arith, ap length e, length-append front [], length-append (x ++ (c ∷ w)) back))
occurrences_complete ps front (b ∷ text) x c w back id g e h =
    let next = front ++ (b ∷ []) in
    let joined : next ++ text ≡ (x ++ (c ∷ w)) ++ back = append_assoc front (b ∷ []) text ∙ e in
    let longer = length-append front (b ∷ []) in
    elim (Bool-cases (length next == length (x ++ (c ∷ w)))) [
      | inl q ↦
          let same : next ≡ x ++ (c ∷ w) =
            same_front next text (x ++ (c ∷ w)) back joined ((==_iff _ _).0 q) in
          let k : length next - length (c ∷ w) ≡ length x =
            omega (arith, ap length same, length-append x (c ∷ w)) in
          In-append_left (id, length x) (hits ps next (length next)) (occurrences ps next text)
            (subst (λ n. In (id, n) (hits ps next (length next))) k
              (subst (λ y. In (id, length next - length (c ∷ w)) (hits ps y (length next)))
                (sym same) (hits_complete ps x c w (length next) id g)))
      | inr q ↦
          In-append_right (id, length x) (hits ps next (length next)) (occurrences ps next text)
            (occurrences_complete ps next text x c w back id g joined (ground (arith, longer)))
    ]

-- Exactly the places of the patterns that are not empty are reported.
pub occurrences_iff :
    (ps : List Bytes) (text : Bytes) (id start : ℕ)
    → In (id, start) (occurrences ps [] text) ↔ Occurs ps text (id, start)
occurrences_iff ps text id start = (
  (λ h. occurrences-Occurs ps [] text id start h),
  (λ (x, c, w, back, g, e, l).
      subst (λ n. In (id, n) (occurrences ps [] text)) l
        (occurrences_complete ps [] text x c w back id g (e ∙ sym (append_assoc x (c ∷ w) back))
          (omega (arith, length-append x (c ∷ w))))),
)
