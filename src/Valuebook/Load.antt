-- ===== src/Valuebook/Load.antt =====
-- `load_valuebook` of src/sinkfilter.rs on a file that `ValueBook` of src/bctrace.rs wrote.
use afeye.Prelude.{
  ℕ, zero, suc, ◌+◌, ◌^◌, ◌≤◌, ◌<◌, ◌≡◌, refl, sym, ap, ◌∙◌, subst, true, false, Bool-cases, inl,
  inr, some, none, List, [], ◌∷◌, ◌++◌, append-nil, append_assoc, map, Bytes, length, length-append,
  All, set, Outcome, done, panic, stuck, ◌>>=◌, Returns, Returns-bind, le→leb, lt→leb-false,
  le→ltb-false, ◌==◌, if◌then◌else◌, arith,
}
use afeye.Bctrace.Read.{to_le, length-to_le, rd_u32}
use afeye.Bctrace.Cursor.{At, At-length, At-skip, At-byte, At-u16, At-u32}
use afeye.Matcher.{new, insert}
use afeye.Matcher.Trie.{IsTrieOf}
use afeye.Matcher.Trie.Insert.{Inserted, new-IsTrieOf, insert-IsTrieOf}
use afeye.Valuebook.{
  VOrigin, Valuebook, valuebook_max_len, put_entry, read_exact, resize, add_entry, is_cold,
  load_loop, no_entries, load_entries,
}
use afeye.Valuebook.Book.{Entry, put_entries, read_exact-At}

pub record EntryFits (e : Entry) : Type 0 where
  pub some_byte : 0 < length e.1
  pub max_len : length e.1 ≤ valuebook_max_len
  pub func_id : e.0.func_id < 2 ^ 32
  pub off : e.0.off < 2 ^ 32
  pub op_id : e.0.op_id < 2 ^ 16

module _ (exec_funcs : List ℕ) where
  -- the entries that are kept
  abbrev pub warm : List Entry → List Entry
  warm [] = []
  warm ((o, v) ∷ es) = if is_cold exec_funcs o then warm es else (o, v) ∷ warm es

  load_all : List Entry → Valuebook → Outcome Valuebook
  load_all [] book = done book
  load_all ((o, v) ∷ es) book = do
    book' ← (if is_cold exec_funcs o then done book else add_entry o v book)
    load_all es book'

  bind-cong :
      (m : Outcome Valuebook) (f g : Valuebook → Outcome Valuebook)
      → ((b : Valuebook) → f b ≡ g b)
      → (m >>= f) ≡ (m >>= g)
  bind-cong (done b) f g h = h b
  bind-cong panic f g h = refl
  bind-cong stuck f g h = refl

  head : VOrigin → Bytes → Bytes
  head o v =
      to_le 4 (length v)
      ++ (to_le 4 o.func_id ++ (to_le 4 o.off ++ (to_le 2 o.op_id ++ (o.src ∷ []))))

  length-head : (o : VOrigin) (v : Bytes) → length (head o v) ≡ 15
  unfolding head to_le
  length-head o v = refl

  put_entry-head : (o : VOrigin) (v rest : Bytes) → put_entry o v rest ≡ head o v ++ (v ++ rest)
  unfolding put_entry head to_le
  put_entry-head o v rest = refl

  module _ (o : VOrigin) (v : Bytes) where
    At-0 : At (head o v) 0 (head o v)
    At-0 = ([], refl, refl)

    At-4 :
        At (head o v) 4 (to_le 4 o.func_id ++ (to_le 4 o.off ++ (to_le 2 o.op_id ++ (o.src ∷ []))))
    unfolding head
    At-4 =
        At-skip (head o v) 0 (to_le 4 (length v)) _ 4 At-0
          (omega (arith, length-to_le 4 (length v)))

    At-8 : At (head o v) 8 (to_le 4 o.off ++ (to_le 2 o.op_id ++ (o.src ∷ [])))
    At-8 =
        At-skip (head o v) 4 (to_le 4 o.func_id) _ 8 At-4 (omega (arith, length-to_le 4 o.func_id))

    At-12 : At (head o v) 12 (to_le 2 o.op_id ++ (o.src ∷ []))
    At-12 = At-skip (head o v) 8 (to_le 4 o.off) _ 12 At-8 (omega (arith, length-to_le 4 o.off))

    At-14 : At (head o v) 14 (o.src ∷ [])
    At-14 =
        At-skip (head o v) 12 (to_le 2 o.op_id) _ 14 At-12 (omega (arith, length-to_le 2 o.op_id))

  head-length :
      (o : VOrigin) (v : Bytes) → length v < 2 ^ 32 → rd_u32 (head o v) 0 ≡ done (length v)
  unfolding head
  head-length o v h =
      At-u32 (head o v) 0 (length v)
        (to_le 4 o.func_id ++ (to_le 4 o.off ++ (to_le 2 o.op_id ++ (o.src ∷ [])))) h
        ([], refl, refl)

  load_loop-put_entries :
      (file : Bytes) (fuel p : ℕ) (es : List Entry) (book : Valuebook)
      → All EntryFits es
      → At file p (put_entries es [])
      → length file < fuel + p
      → load_loop fuel exec_funcs file p book ≡ load_all es book
  unfolding load_loop load_all
  load_loop-put_entries file zero p es book ws at enough =
      absurd (omega (arith, At-length file p _ at))
  load_loop-put_entries file (suc fuel) p [] book ws at enough =
      let end : read_exact file p 15 ≡ none =
        unfold read_exact in
        rw (lt→leb-false (p + 15) (length file) (omega (arith, At-length file p _ at))) refl in
      rw (end, load_loop) refl
  load_loop-put_entries file (suc fuel) p ((o, v) ∷ es) book (w, ws) at enough =
      let at' : At file p (head o v ++ (v ++ put_entries es [])) =
        subst (At file p) (put_entry-head o v (put_entries es [])) at in
      let h : read_exact file p 15 ≡ some (head o v) =
        subst (λ n. read_exact file p n ≡ some (head o v)) (length-head o v)
          (read_exact-At file p (head o v) _ at') in
      let v_at : At file (p + 15) (v ++ put_entries es []) =
        At-skip file p (head o v) _ (p + 15) at' (omega (arith, length-head o v)) in
      let some_len : (length v == 0) ≡ false = ground (arith, w.some_byte) in
      rw (h, load_loop)
        (rw (head-length o v (omega (arith, w.max_len))) (
          rw (At-u32 (head o v) 4 o.func_id _ w.func_id (At-4 o v)) (
            rw (At-u32 (head o v) 8 o.off _ w.off (At-8 o v)) (
              rw (At-u16 (head o v) 12 o.op_id _ w.op_id (At-12 o v)) (
                rw (At-byte (head o v) 14 o.src _ (At-14 o v)) (
                  rw some_len (
                    rw (le→ltb-false valuebook_max_len (length v) w.max_len) (
                      rw (read_exact-At file (p + 15) v _ v_at) (
                        bind-cong _ _ _ (λ b.
                          load_loop-put_entries file fuel (p + 15 + length v) es b ws
                            (At-skip file (p + 15) v _ (p + 15 + length v) v_at refl)
                            (omega arith)))))))))))

  -- What is loaded of a list of entries.
  pub record Loaded (book : Valuebook) (es : List Entry) : Type 0 where
    pub patterns : book.ac.patterns ≡ map (λ e. e.1) es
    pub origins : book.origins ≡ map (λ e. e.0) es
    pub entries : book.entries ≡ length es
    pub trie : IsTrieOf book.ac.nodes book.ac.patterns

  length-map : (f : Entry → Bytes) (es : List Entry) → length (map f es) ≡ length es
  length-map f [] = refl
  length-map f (e ∷ es) = ap suc (length-map f es)

  length-origins : (es : List Entry) → length (map (λ e. e.0) es) ≡ length es
  length-origins [] = refl
  length-origins (e ∷ es) = ap suc (length-origins es)

  map-snoc :
      {B : Type 0}
      → (f : Entry → B) (es : List Entry) (e : Entry)
      → map f (es ++ (e ∷ [])) ≡ map f es ++ (f e ∷ [])
  map-snoc f [] e = refl
  map-snoc f (x ∷ es) e = ap (◌∷◌ (f x)) (map-snoc f es e)

  set-resize :
      (os : List VOrigin) (n : ℕ) (o : VOrigin)
      → n ≡ length os
      → set (resize (suc n) os) n o ≡ os ++ (o ∷ [])
  unfolding resize
  set-resize [] zero o e = refl
  set-resize [] (suc n) o e = absurd (omega arith)
  set-resize (x ∷ os) zero o e = absurd (omega arith)
  set-resize (x ∷ os) (suc n) o e = ap (◌∷◌ x) (set-resize os n o (omega arith))

  add_entry-Loaded :
      (o : VOrigin) (v : Bytes) (book : Valuebook) (es : List Entry)
      → Loaded book es
      → Returns (λ b. Loaded b (es ++ ((o, v) ∷ []))) (add_entry o v book)
  unfolding add_entry
  add_entry-Loaded o v book es w =
      Returns-bind (Inserted book.ac.patterns v) _ (insert book.ac v) _
        (insert-IsTrieOf book.ac.nodes book.ac.patterns v w.trie)
        (λ r (i, (p, t)).
          let n : r.1 ≡ length es = i ∙ (ap length w.patterns ∙ length-map (λ e. e.1) es) in
          let m : r.1 ≡ length book.origins = n ∙ sym (ap length w.origins ∙ length-origins es) in
          let up : r.1 + 1 ≡ suc r.1 = omega arith in
          record {
            patterns =
                p ∙ (ap (λ l. l ++ (v ∷ [])) w.patterns ∙ sym (map-snoc (λ e. e.1) es (o, v)));
            origins =
                rw (le→leb (length book.origins) r.1 (omega (arith, m)))
                  (rw up (set-resize book.origins r.1 o m))
                ∙ (ap (λ l. l ++ (o ∷ [])) w.origins ∙ sym (map-snoc (λ e. e.0) es (o, v)));
            entries = omega (arith, w.entries, length-append es ((o, v) ∷ []));
            trie = subst (IsTrieOf r.0.nodes) (sym p) t;
          })

  warm_cold :
      (o : VOrigin) (v : Bytes) (es : List Entry)
      → is_cold exec_funcs o ≡ true
      → warm ((o, v) ∷ es) ≡ warm es
  warm_cold o v es c = rw c refl

  warm_kept :
      (o : VOrigin) (v : Bytes) (es : List Entry)
      → is_cold exec_funcs o ≡ false
      → warm ((o, v) ∷ es) ≡ (o, v) ∷ warm es
  warm_kept o v es c = rw c refl

  load_all-Loaded :
      (es : List Entry) (book : Valuebook) (before : List Entry)
      → Loaded book before
      → Returns (λ b. Loaded b (before ++ warm es)) (load_all es book)
  unfolding load_all
  load_all-Loaded [] book before w = subst (Loaded book) (sym (append-nil before)) w
  load_all-Loaded ((o, v) ∷ es) book before w = elim (Bool-cases (is_cold exec_funcs o)) [
    | inl c ↦
        subst (λ l. Returns (λ b. Loaded b (before ++ l)) (load_all ((o, v) ∷ es) book))
          (sym (warm_cold o v es c)) (rw (c, Returns) (load_all-Loaded es book before w))
    | inr c ↦
        subst (λ l. Returns (λ b. Loaded b (before ++ l)) (load_all ((o, v) ∷ es) book))
          (sym (warm_kept o v es c))
          (rw (c, Returns)
            (Returns-bind (λ b. Loaded b (before ++ ((o, v) ∷ []))) _ (add_entry o v book) _
              (add_entry-Loaded o v book before w)
              (λ b k.
                subst (λ l. Returns (λ b'. Loaded b' l) (load_all es b))
                  (append_assoc before ((o, v) ∷ []) (warm es))
                  (load_all-Loaded es b (before ++ ((o, v) ∷ [])) k))))
  ]

  -- Of a file of entries the loader returns exactly those that are not the literals of functions
  -- that never ran: their values are the patterns, in order, each with its origin, and they are
  -- counted. Each value has a byte and at most a mebibyte, and each number fits its field.
  pub load_entries-put_entries :
      (es : List Entry)
      → All EntryFits es
      → Returns (λ b. Loaded b (warm es)) (load_entries exec_funcs (put_entries es []))
  unfolding load_entries
  load_entries-put_entries es ws =
      rw
        (
          load_loop-put_entries (put_entries es []) (suc (length (put_entries es []))) 0 es
              (no_entries new) ws ([], refl, refl) (omega arith),
          Returns,
        )
        (load_all-Loaded es (no_entries new) []
          record { patterns = refl; origins = refl; entries = refl; trie = new-IsTrieOf })
