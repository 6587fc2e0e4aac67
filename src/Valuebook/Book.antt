-- ===== src/Valuebook/Book.antt =====
-- `ValueBook::put` of src/bctrace.rs: every value is in the file, and a known value once.
use afeye.Prelude.{
  ℕ, ◌+◌, ◌^◌, ◌≤◌, ◌<◌, ◌≡◌, ◌≢◌, ◌⊎◌, inl, inr, refl, sym, ap, ◌∙◌, subst, true, false,
  Bool-cases, some, none, Option-cases, List, [], ◌∷◌, ◌++◌, append-nil, append_assoc, Bytes,
  length, length-append, take-append, All, bytes_eq, bytes_eq_iff, ltb, le→leb, le→ltb-false, ◌==◌,
  ==_iff, arith,
}
use afeye.Bctrace.Read.{from_le, to_le, length-to_le}
use afeye.Bctrace.Cursor.{At, At-length, At-drop, At-skip}
use afeye.Valuebook.{
  VOrigin, ValueBook, min_value_len, offset_of, holds, put_entry, read_exact, entry_eq, value_hash,
  written, put,
}

abbrev pub Entry : Type 0
Entry = VOrigin × Bytes

abbrev pub put_entries : List Entry → Bytes → Bytes
put_entries [] rest = rest
put_entries ((o, v) ∷ es) rest = put_entry o v (put_entries es rest)

pub put_entry-append :
    (o : VOrigin) (v rest : Bytes) → put_entry o v rest ≡ put_entry o v [] ++ rest
unfolding put_entry to_le
put_entry-append o v rest = rw (append-nil v) refl

pub length-put_entry :
    (o : VOrigin) (v rest : Bytes) → length (put_entry o v rest) ≡ 15 + length v + length rest
unfolding put_entry to_le
length-put_entry o v rest = omega (arith, length-append v rest)

put_entries-append :
    (es : List Entry) (rest : Bytes) → put_entries es rest ≡ put_entries es [] ++ rest
put_entries-append [] rest = refl
put_entries-append ((o, v) ∷ es) rest =
    ap (put_entry o v) (put_entries-append es rest)
    ∙ (put_entry-append o v (put_entries es [] ++ rest)
        ∙ (sym (append_assoc (put_entry o v []) (put_entries es []) rest)
            ∙ ap (λ b. b ++ rest) (sym (put_entry-append o v (put_entries es [])))))

put_entries-join :
    (es fs : List Entry) (rest : Bytes)
    → put_entries (es ++ fs) rest ≡ put_entries es (put_entries fs rest)
put_entries-join [] fs rest = refl
put_entries-join ((o, v) ∷ es) fs rest = ap (put_entry o v) (put_entries-join es fs rest)

pub read_exact-At :
    (file : Bytes) (p : ℕ) (x rest : Bytes)
    → At file p (x ++ rest)
    → read_exact file p (length x) ≡ some x
unfolding read_exact
read_exact-At file p x rest at =
    rw
      (le→leb (p + length x) (length file)
        (omega (arith, At-length file p _ at, length-append x rest)))
      (rw (At-drop file p _ at) (rw (take-append x rest (length x) refl) refl))

from_le-word : (n : ℕ) → n < 2 ^ 32 → from_le (to_le 4 n) ≡ n
unfolding from_le to_le
from_le-word n h = omega arith

bytes_eq-length : (a b : Bytes) → length a ≢ length b → bytes_eq a b ≡ false
bytes_eq-length a b ne = elim (Bool-cases (bytes_eq a b)) [
  | inl e ↦ absurd (ne (ap length ((bytes_eq_iff a b).0 e)))
  | inr e ↦ e
]

-- The comparison with a stored entry is that with its value.
entry_eq-bytes_eq :
    (vb : ValueBook) (fo : ℕ) (o : VOrigin) (v' v rest : Bytes)
    → vb.pos ≡ length vb.file
    → length v' < 2 ^ 32
    → At vb.file fo (put_entry o v' rest)
    → entry_eq vb fo v ≡ bytes_eq v' v
unfolding entry_eq put_entry
entry_eq-bytes_eq vb fo o v' v rest pos small at =
    let value_at : At vb.file (fo + 15) (v' ++ rest) =
      At-skip vb.file fo
        (to_le 4 (length v')
          ++ (to_le 4 o.func_id ++ (to_le 4 o.off ++ (to_le 2 o.op_id ++ (o.src ∷ [])))))
        (v' ++ rest) (fo + 15) (unfold to_le in at) (unfold to_le in omega arith) in
    let room : fo + 15 + length v' ≤ vb.pos =
      omega (arith, pos, At-length vb.file (fo + 15) _ value_at, length-append v' rest) in
    let head : read_exact vb.file fo 4 ≡ some (to_le 4 (length v')) =
      subst (λ n. read_exact vb.file fo n ≡ some (to_le 4 (length v'))) (length-to_le 4 (length v'))
        (read_exact-At vb.file fo (to_le 4 (length v')) _ at) in
    elim (Bool-cases (length v' == length v)) [
      | inl q ↦
          let same : length v' ≡ length v = (==_iff (length v') (length v)).0 q in
          let body : read_exact vb.file (fo + 15) (length v) ≡ some v' =
            subst (λ n. read_exact vb.file (fo + 15) n ≡ some v') same
              (read_exact-At vb.file (fo + 15) v' rest value_at) in
          rw (le→ltb-false vb.pos (fo + 15 + length v) (omega arith))
            (rw head (rw (from_le-word (length v') small) (rw q (rw body refl))))
      | inr q ↦
          let apart : length v' ≢ length v = ground (arith, q) in
          rw (bytes_eq-length v' v apart) (elim (Bool-cases (ltb vb.pos (fo + 15 + length v))) [
            | inl l ↦ rw l refl
            | inr l ↦ rw l (rw head (rw (from_le-word (length v') small) (rw q refl)))
          ])
    ]

-- An entry starts at `fo`.
abbrev Stored : List Entry → ℕ × ℕ → Type 0
Stored es (h, fo) =
    (pre : List Entry) × (o : VOrigin) × (v : Bytes) × (post : List Entry) × (es
      ≡ pre ++ ((o, v) ∷ post))
    × (fo ≡ length (put_entries pre []))
    × (length v < 2 ^ 32)

-- The file is the entries, and the table of hashes leads to some of them.
pub record IsBook (vb : ValueBook) (es : List Entry) : Type 0 where
  pub file : vb.file ≡ put_entries es []
  pub pos : vb.pos ≡ length vb.file
  pub offs : All (Stored es) vb.offs

Stored-snoc : (es : List Entry) (x : Entry) (k : ℕ × ℕ) → Stored es k → Stored (es ++ (x ∷ [])) k
Stored-snoc es x k (pre, o, v, post, e, f, s) = (
  pre,
  o,
  v,
  post ++ (x ∷ []),
  ap (λ l. l ++ (x ∷ [])) e ∙ append_assoc pre ((o, v) ∷ post) (x ∷ []),
  f,
  s,
)

All-Stored-snoc :
    (es : List Entry) (x : Entry) (offs : List (ℕ × ℕ))
    → All (Stored es) offs
    → All (Stored (es ++ (x ∷ []))) offs
All-Stored-snoc es x [] w = tt
All-Stored-snoc es x (k ∷ offs) (w, ws) = (Stored-snoc es x k w, All-Stored-snoc es x offs ws)

offset_of-Stored :
    (es : List Entry) (h fo : ℕ) (offs : List (ℕ × ℕ))
    → All (Stored es) offs
    → offset_of h offs ≡ some fo
    → Stored es (h, fo)
offset_of-Stored es h fo [] w e = (let bad : none ≡ some fo = e in absurd (cc))
offset_of-Stored es h fo ((k, o) ∷ offs) (w, ws) e = elim (Bool-cases (k == h)) [
  | inl q ↦
      let same : some o ≡ some fo = rw q at e in
      let f : o ≡ fo = cc in subst (λ n. Stored es (h, n)) f w
  | inr q ↦ offset_of-Stored es h fo offs ws (rw q at e)
]

-- `v` is the value of an entry.
abbrev pub HasValue : List Entry → Bytes → Type 0
HasValue es v =
    (pre : List Entry) × (o : VOrigin) × (post : List Entry) × (es ≡ pre ++ ((o, v) ∷ post))

-- The book after a value: as it was, and the value is in it, or with one entry more.
abbrev pub Put : VOrigin → Bytes → List Entry → ValueBook → Type 0
Put o v es vb = (IsBook vb es × HasValue es v) ⊎ IsBook vb (es ++ ((o, v) ∷ []))

module _ (blake3 : Bytes → ℕ) (o : VOrigin) (v : Bytes) (vb : ValueBook) (es : List Entry)
    (w : IsBook vb es) (small : length v < 2 ^ 32) where
  written-IsBook :
      (h : ℕ) (dedup : List ℕ) → IsBook (written blake3 o v h dedup vb) (es ++ ((o, v) ∷ []))
  written-IsBook h dedup = record {
    file =
        ap (λ b. b ++ put_entry o v []) w.file
        ∙ (sym (put_entries-append es (put_entry o v []))
            ∙ sym (put_entries-join es ((o, v) ∷ []) []));
    pos = omega (arith, w.pos, length-append vb.file (put_entry o v []), length-put_entry o v []);
    offs = (
      (es, o, v, [], refl, w.pos ∙ ap length w.file, small),
      All-Stored-snoc es (o, v) vb.offs w.offs,
    );
  }

  known-HasValue :
      (h fo : ℕ) → offset_of h vb.offs ≡ some fo → entry_eq vb fo v ≡ true → HasValue es v
  known-HasValue h fo e t =
      let (pre, o', v', post, f, g, s) = offset_of-Stored es h fo vb.offs w.offs e in
      let at : At vb.file fo (put_entry o' v' (put_entries post [])) = (
        put_entries pre [],
        w.file
            ∙ (ap (λ l. put_entries l []) f
                ∙ (put_entries-join pre ((o', v') ∷ post) []
                    ∙ put_entries-append pre (put_entry o' v' (put_entries post [])))),
        g,
      ) in
      let same : v' ≡ v =
        (bytes_eq_iff v' v).0
          (sym (entry_eq-bytes_eq vb fo o' v' v (put_entries post []) w.pos s at) ∙ t) in
      (pre, o', post, f ∙ ap (λ x. pre ++ ((o', x) ∷ post)) same)

  -- After `put` of a value of at least four bytes the file holds the entries that it held, and the
  -- value is one of theirs, or it holds these entries and behind them one of the value; whatever
  -- the hash is, and also where two values have the same hash. The value is shorter than 4 GiB.
  pub put-Put : min_value_len ≤ length v → Put o v es (put blake3 v o vb)
  unfolding put
  put-Put long =
      let h : ℕ = value_hash blake3 v in
      rw (le→ltb-false (length v) min_value_len long) (elim (Bool-cases (holds vb.dedup h)) [
        | inr n ↦ rw n (inr (written-IsBook h (h ∷ vb.dedup)))
        | inl y ↦ rw y (elim (Option-cases (offset_of h vb.offs)) [
          | inl e ↦ rw e (inr (written-IsBook h vb.dedup))
          | inr (fo, e) ↦ rw e (elim (Bool-cases (entry_eq vb fo v)) [
            | inl t ↦ rw t (inl (w, known-HasValue h fo e t))
            | inr t ↦ rw t (inr (written-IsBook h vb.dedup))
          ])
        ])
      ])

  bytes_eq_same : bytes_eq v v ≡ true
  bytes_eq_same = (bytes_eq_iff v v).1 refl

  written-known :
      (o' : VOrigin) (dedup : List ℕ)
      → min_value_len ≤ length v
      → holds dedup (value_hash blake3 v) ≡ true
      → let vb' = written blake3 o v (value_hash blake3 v) dedup vb in put blake3 v o' vb' ≡ vb'
  unfolding put
  written-known o' dedup long y =
      let h : ℕ = value_hash blake3 v in
      let vb' = written blake3 o v h dedup vb in
      let w' = written-IsBook h dedup in
      let eq : entry_eq vb' vb.pos v ≡ true =
        entry_eq-bytes_eq vb' vb.pos o v v [] w'.pos small (vb.file, refl, w.pos) ∙ bytes_eq_same in
      rw (le→ltb-false (length v) min_value_len long) (rw y (rw ((==_iff h h).1 refl) (rw eq refl)))

  -- A value that was put is not written again by the next `put`, whatever its origin.
  pub put-put :
      (o' : VOrigin)
      → min_value_len ≤ length v
      → put blake3 v o' (put blake3 v o vb) ≡ put blake3 v o vb
  put-put o' long =
      let h : ℕ = value_hash blake3 v in
      let l = le→ltb-false (length v) min_value_len long in
      elim (Bool-cases (holds vb.dedup h)) [
        | inr n ↦
            let step : put blake3 v o vb ≡ written blake3 o v h (h ∷ vb.dedup) vb =
              unfold put in rw l (rw n refl) in
            let first : holds (h ∷ vb.dedup) h ≡ true = rw ((==_iff h h).1 refl) refl in
            rw step (written-known o' (h ∷ vb.dedup) long first)
        | inl y ↦ elim (Option-cases (offset_of h vb.offs)) [
          | inl e ↦
              let step : put blake3 v o vb ≡ written blake3 o v h vb.dedup vb =
                unfold put in rw l (rw y (rw e refl)) in
              rw step (written-known o' vb.dedup long y)
          | inr (fo, e) ↦ elim (Bool-cases (entry_eq vb fo v)) [
            | inl t ↦
                let skip : (x : VOrigin) → put blake3 v x vb ≡ vb =
                  λ x. unfold put in rw l (rw y (rw e (rw t refl))) in
                rw (skip o) (skip o')
            | inr t ↦
                let step : put blake3 v o vb ≡ written blake3 o v h vb.dedup vb =
                  unfold put in rw l (rw y (rw e (rw t refl))) in
                rw step (written-known o' vb.dedup long y)
          ]
        ]
      ]
