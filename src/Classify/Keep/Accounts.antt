-- ===== src/Classify/Keep/Accounts.antt =====
-- What `filter_file` of src/classify.rs writes and what it drops as a duplicate.
use afeye.Prelude.{
  suc, ◌+◌, ◌≡◌, refl, sym, ap, subst, ◌∙◌, true, false, ◌||◌, Bool-cases, inl, inr, ◌⊎◌, Option,
  some, none, List, [], ◌∷◌, ◌++◌, append-nil, length-append, Bytes, length, arith,
}
use afeye.Classify.{Mode}
use afeye.Classify.Json.{Value}
use afeye.Classify.State.{SiteState}
use afeye.Classify.Keep.{
  line_keep, verdict_of_rid, SendKey, key_eq, has_key, send_key, Filtered, write_line, drop_send,
  filter_send, filter_line, filter_file,
}
use afeye.Classify.Keep.Keys.{
  IsDistinct, some_key, key_of, keys_of, admits, admitted, key_eq_iff, or_assoc, has_key-++,
  snoc-IsDistinct, keys_of-++,
}

-- The keys of the lines written are those seen, and no two of them are equal.
abbrev pub IsWell : (Bytes → Option Value) → (Value → Bytes) → Filtered → Type 0
IsWell parse print f = (keys_of parse print f.kept ≡ f.seen) × IsDistinct f.seen

write_line-keys :
    (parse : Bytes → Option Value) (print : Value → Bytes) (line : Bytes) (v : Value) (f : Filtered)
    → parse line ≡ some v
    → keys_of parse print ((write_line line v f).kept)
      ≡ keys_of parse print f.kept ++ some_key (send_key print v)
unfolding write_line
write_line-keys parse print line v f e =
    keys_of-++ parse print f.kept (line ∷ [])
    ∙ ap (λ o. keys_of parse print f.kept ++ (key_of print o ++ [])) e
    ∙ ap (λ r. keys_of parse print f.kept ++ r) (append-nil (some_key (send_key print v)))

drop_send-IsWell :
    (parse : Bytes → Option Value) (print : Value → Bytes) (j : SendKey) (f : Filtered)
    → IsWell parse print f
    → IsWell parse print (drop_send j f)
unfolding drop_send
drop_send-IsWell parse print j f w = w

filter_send-IsWell :
    (parse : Bytes → Option Value) (print : Value → Bytes) (line : Bytes) (v : Value) (f : Filtered)
    (q : Option SendKey)
    → parse line ≡ some v
    → send_key print v ≡ q
    → IsWell parse print f
    → IsWell parse print (filter_send line v q f)
unfolding filter_send write_line
filter_send-IsWell parse print line v f none e r (k, d) = (
  write_line-keys parse print line v f e
      ∙ ap (λ o. keys_of parse print f.kept ++ some_key o) r
      ∙ append-nil (keys_of parse print f.kept)
      ∙ k,
  d,
)
filter_send-IsWell parse print line v f (some j) e r (k, d) = elim (Bool-cases (has_key j f.seen)) [
  | inl h ↦ rw h (drop_send-IsWell parse print j f (k, d))
  | inr h ↦ rw h (
    write_line-keys parse print line v (record f { seen = f.seen ++ (j ∷ []) }) e
        ∙ ap (λ o. keys_of parse print f.kept ++ some_key o) r
        ∙ ap (λ ks. ks ++ (j ∷ [])) k,
    snoc-IsDistinct j f.seen h d,
  )
]

filter_send-length :
    (line : Bytes) (v : Value) (f : Filtered) (q : Option SendKey)
    → length ((filter_send line v q f).kept) + (filter_send line v q f).dup
      ≡ suc (length f.kept + f.dup)
unfolding filter_send write_line drop_send
filter_send-length line v f none = omega (arith, length-append f.kept (line ∷ []))
filter_send-length line v f (some j) = elim (Bool-cases (has_key j f.seen)) [
  | inl h ↦ rw h (omega arith)
  | inr h ↦ rw h (omega (arith, length-append f.kept (line ∷ [])))
]

-- A key that was seen adds nothing.
seen_again :
    (ks : List SendKey) (j k : SendKey)
    → has_key j ks ≡ true
    → has_key k ks ≡ (has_key k ks || (key_eq j k || false))
seen_again ks j k h = elim (Bool-cases (key_eq j k)) [
  | inl e ↦ ground (arith, subst (λ x. has_key x ks ≡ true) (key_eq_iff j k e) h)
  | inr e ↦ ground arith
]

filter_send-has_key :
    (line : Bytes) (v : Value) (f : Filtered) (q : Option SendKey) (k : SendKey)
    → has_key k ((filter_send line v q f).seen) ≡ (has_key k f.seen || has_key k (some_key q))
unfolding filter_send write_line drop_send
filter_send-has_key line v f none k = ground arith
filter_send-has_key line v f (some j) k = elim (Bool-cases (has_key j f.seen)) [
  | inl h ↦ rw h (seen_again f.seen j k h)
  | inr h ↦ rw h (has_key-++ k f.seen (j ∷ []))
]

line_cases :
    (parse : Bytes → Option Value) (print : Value → Bytes) (st : SiteState) (tainted : List Bytes)
    (mode : Mode) (line : Bytes) (f : Filtered) (o : Option Value)
    → parse line ≡ o
    → ((admits st tainted mode (parse line) ≡ false)
        × (filter_line parse print st tainted mode line f ≡ f))
      ⊎ ((v : Value) × (parse line ≡ some v)
          × (admits st tainted mode (parse line) ≡ true)
          × (filter_line parse print st tainted mode line f
              ≡ filter_send line v (send_key print v) f))
unfolding filter_line
line_cases parse print st tainted mode line f none e = inl (rw e refl, rw (e, filter_line) refl)
line_cases parse print st tainted mode line f (some v) e =
    elim (Bool-cases (line_keep st tainted (verdict_of_rid st) mode v)) [
      | inl h ↦ inr (v, e, rw e h, rw (e, filter_line, h) refl)
      | inr h ↦ inl (rw e h, rw (e, filter_line, h) refl)
    ]

-- A line that is not admitted changes nothing; one that is admitted is a send or is written.
filter_line_cases :
    (parse : Bytes → Option Value) (print : Value → Bytes) (st : SiteState) (tainted : List Bytes)
    (mode : Mode) (line : Bytes) (f : Filtered)
    → ((admits st tainted mode (parse line) ≡ false)
        × (filter_line parse print st tainted mode line f ≡ f))
      ⊎ ((v : Value) × (parse line ≡ some v)
          × (admits st tainted mode (parse line) ≡ true)
          × (filter_line parse print st tainted mode line f
              ≡ filter_send line v (send_key print v) f))
unfolding filter_line
filter_line_cases parse print st tainted mode line f =
    line_cases parse print st tainted mode line f (parse line) refl

-- The lines are read one after the other.
filter_file_from :
    (parse : Bytes → Option Value) (print : Value → Bytes) (st : SiteState) (tainted : List Bytes)
    (mode : Mode) (lines : List Bytes) (f : Filtered)
    → IsWell parse print f
    → let g = filter_file parse print st tainted mode lines f in
      let ls = admitted parse st tainted mode lines in
      IsWell parse print g
      × (length g.kept + g.dup ≡ length f.kept + f.dup + length ls)
      × ((k : SendKey)
          → has_key k g.seen ≡ (has_key k f.seen || has_key k (keys_of parse print ls)))
unfolding filter_file
filter_file_from parse print st tainted mode [] f w = (w, omega arith, λ k. ground arith)
filter_file_from parse print st tainted mode (line ∷ lines) f w =
    elim (filter_line_cases parse print st tainted mode line f) [
      | inl (a, e) ↦ rw (filter_file, e, a) (filter_file_from parse print st tainted mode lines f w)
      | inr (v, p, a, e) ↦
          let q = send_key print v in
          let ks = keys_of parse print (admitted parse st tainted mode lines) in
          let r =
            filter_file_from parse print st tainted mode lines (filter_send line v q f)
              (filter_send-IsWell parse print line v f q p refl w) in
          rw (filter_file, e, a, p)
            (
              r.0,
              omega (arith, r.1, filter_send-length line v f q),
              λ k.
                  r.2 k
                  ∙ ap (λ b. b || has_key k ks) (filter_send-has_key line v f q k)
                  ∙ sym (or_assoc (has_key k f.seen) (has_key k (some_key q)) (has_key k ks))
                  ∙ ap (λ b. has_key k f.seen || b) (sym (has_key-++ k (some_key q) ks)),
            )
    ]

-- The sends that `filter_file` writes have different keys, and their keys are those of the lines
-- that parse and that `line_keep` admits. Each of these lines is written or counted as a
-- duplicate. Nothing is written, seen or counted before.
pub filter_file-IsDistinct :
    (parse : Bytes → Option Value) (print : Value → Bytes) (st : SiteState) (tainted : List Bytes)
    (mode : Mode) (lines : List Bytes)
    → let g =
        filter_file parse print st tainted mode lines
          (record { kept = []; seen = []; hashes = []; dup = 0; ep = st.ep }) in
      let ls = admitted parse st tainted mode lines in
      IsDistinct (keys_of parse print g.kept)
      × (length g.kept + g.dup ≡ length ls)
      × ((k : SendKey)
          → has_key k (keys_of parse print g.kept) ≡ has_key k (keys_of parse print ls))
filter_file-IsDistinct parse print st tainted mode lines =
    let r =
      filter_file_from parse print st tainted mode lines
        (record { kept = []; seen = []; hashes = []; dup = 0; ep = st.ep }) (refl, tt) in
    (
      subst IsDistinct (sym (r.0.0)) (r.0.1),
      omega (arith, r.1),
      λ k. ap (has_key k) (r.0.0) ∙ r.2 k,
    )
