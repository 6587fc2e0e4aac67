-- ===== src/Bctrace/Glue/Order.antt =====
-- The map of parts under the operations of the assembly, and the fields of a part's header.
use afeye.Prelude.{
  ℕ, ◌+◌, ◌<◌, ◌^◌, ◌≡◌, refl, sym, ap, ◌∙◌, true, some, none, [], ◌∷◌, ◌++◌, append-nil,
  append_assoc, Bytes, length, length-append, done, slice, Bool-cases, inl, inr, arith,
}
use afeye.Bctrace.Read.{rd_u32, to_le, length-to_le}
use afeye.Bctrace.Cursor.{At, At-skip, At-slice, At-u32}
use afeye.Bctrace.Glue.{
  Key, key_eq, Payloads, Parts, entry_update, parts_update, parts_get, parts_remove, joined,
}

abbrev pub AllBelow : ℕ → Payloads → Type 0
AllBelow p [] = Unit
AllBelow p ((q, b) ∷ m) = (q < p) × AllBelow p m

-- An offset behind all of the map is appended.
pub entry_update_behind :
    (pos : ℕ) (f : Bytes → Bytes) (m : Payloads)
    → AllBelow pos m
    → entry_update pos f m ≡ m ++ ((pos, f []) ∷ [])
unfolding entry_update
entry_update_behind pos f [] h = refl
entry_update_behind pos f ((q, b) ∷ m) (h, hs) = ground (arith, entry_update_behind pos f m hs)

pub AllBelow-snoc :
    (p q : ℕ) (b : Bytes) (m : Payloads) → p < q → AllBelow p m → AllBelow q (m ++ ((p, b) ∷ []))
AllBelow-snoc p q b [] h k = (h, tt)
AllBelow-snoc p q b ((r, c) ∷ m) h (k, ks) = (omega arith, AllBelow-snoc p q b m h ks)

pub joined-snoc : (m : Payloads) (p : ℕ) (b : Bytes) → joined (m ++ ((p, b) ∷ [])) ≡ joined m ++ b
unfolding joined
joined-snoc [] p b = append-nil b
joined-snoc ((q, c) ∷ m) p b = rw (joined-snoc m p b) (sym (append_assoc c (joined m) b))

key_eq_refl : (k : Key) → key_eq k k ≡ true
key_eq_refl (a, b) = ground arith

module _ (key : Key) where
  pub parts_get-append :
      (base : Parts) (m : Payloads)
      → parts_get key base ≡ none
      → parts_get key (base ++ ((key, m) ∷ [])) ≡ some m
  unfolding parts_get
  parts_get-append [] m h = rw (key_eq_refl key)
  parts_get-append ((k, n) ∷ base) m h = elim (Bool-cases (key_eq key k)) [
    | inl e ↦ cc (rw e at h)
    | inr e ↦ rw e (parts_get-append base m (rw e at h))
  ]

  pub parts_remove-append :
      (base : Parts) (m : Payloads)
      → parts_get key base ≡ none
      → parts_remove key (base ++ ((key, m) ∷ [])) ≡ base
  unfolding parts_get parts_remove
  parts_remove-append [] m h = rw (key_eq_refl key)
  parts_remove-append ((k, n) ∷ base) m h = elim (Bool-cases (key_eq key k)) [
    | inl e ↦ cc (rw e at h)
    | inr e ↦ rw e (ap (◌∷◌ (k, n)) (parts_remove-append base m (rw e at h)))
  ]

  update_new :
      (g : Payloads → Payloads) (base : Parts)
      → parts_get key base ≡ none
      → parts_update key g base ≡ base ++ ((key, g []) ∷ [])
  unfolding parts_get parts_update
  update_new g [] h = refl
  update_new g ((k, n) ∷ base) h = elim (Bool-cases (key_eq key k)) [
    | inl e ↦ cc (rw e at h)
    | inr e ↦ rw e (ap (◌∷◌ (k, n)) (update_new g base (rw e at h)))
  ]

  update_old :
      (g : Payloads → Payloads) (base : Parts) (m : Payloads)
      → parts_get key base ≡ none
      → parts_update key g (base ++ ((key, m) ∷ [])) ≡ base ++ ((key, g m) ∷ [])
  unfolding parts_get parts_update
  update_old g [] m h = rw (key_eq_refl key)
  update_old g ((k, n) ∷ base) m h = elim (Bool-cases (key_eq key k)) [
    | inl e ↦ cc (rw e at h)
    | inr e ↦ rw e (ap (◌∷◌ (k, n)) (update_old g base m (rw e at h)))
  ]

  -- The parts read so far under `key`, beside the rest of the map.
  abbrev pub opened : Parts → Payloads → Parts
  opened base [] = base
  opened base (x ∷ m) = base ++ ((key, x ∷ m) ∷ [])

  pub opened-snoc :
      (base : Parts) (m : Payloads) (x : ℕ × Bytes)
      → opened base (m ++ (x ∷ [])) ≡ base ++ ((key, m ++ (x ∷ [])) ∷ [])
  opened-snoc base [] x = refl
  opened-snoc base (y ∷ m) x = refl

  pub update_opened :
      (g : Payloads → Payloads) (base : Parts) (m : Payloads)
      → parts_get key base ≡ none
      → parts_update key g (opened base m) ≡ base ++ ((key, g m) ∷ [])
  update_opened g base [] h = update_new g base h
  update_opened g base (x ∷ m) h = update_old g base (x ∷ m) h

-- A part: a header of 72 bytes and its payload.
module _ (opcode b1 b2 func_id line : ℕ) (tail : Bytes) where
  abbrev pub header : ℕ → ℕ → Bytes
  header flags pos =
      opcode ∷ b1 ∷ b2 ∷ flags ∷ (to_le 4 pos ++ (to_le 4 func_id ++ (to_le 4 line ++ tail)))

  abbrev pub part : ℕ → ℕ → Bytes → Bytes
  part flags pos payload = header flags pos ++ payload

  module _ (whole : length tail ≡ 56) (flags pos : ℕ) (payload : Bytes) where
    pub length-header : length (header flags pos) ≡ 72
    length-header = omega (
      arith,
      length-append (to_le 4 pos) (to_le 4 func_id ++ (to_le 4 line ++ tail)),
      length-append (to_le 4 func_id) (to_le 4 line ++ tail),
      length-append (to_le 4 line) tail,
      length-to_le 4 pos,
      length-to_le 4 func_id,
      length-to_le 4 line,
    )

    pub length-part : length (part flags pos payload) ≡ 72 + length payload
    length-part = omega (arith, length-append (header flags pos) payload, length-header)

    at_4 :
        At
          (part flags pos payload)
          4
          (to_le 4 pos ++ (to_le 4 func_id ++ (to_le 4 line ++ (tail ++ payload))))
    at_4 = (
      opcode ∷ b1 ∷ b2 ∷ flags ∷ [],
      ap (λ x. opcode ∷ b1 ∷ b2 ∷ flags ∷ x)
          (append_assoc (to_le 4 pos) (to_le 4 func_id ++ (to_le 4 line ++ tail)) payload
            ∙ ap (λ x. to_le 4 pos ++ x)
                (append_assoc (to_le 4 func_id) (to_le 4 line ++ tail) payload
                  ∙ ap (λ x. to_le 4 func_id ++ x) (append_assoc (to_le 4 line) tail payload))),
      refl,
    )

    at_8 : At (part flags pos payload) 8 (to_le 4 func_id ++ (to_le 4 line ++ (tail ++ payload)))
    at_8 = At-skip _ 4 (to_le 4 pos) _ 8 at_4 (omega (arith, length-to_le 4 pos))

    at_12 : At (part flags pos payload) 12 (to_le 4 line ++ (tail ++ payload))
    at_12 = At-skip _ 8 (to_le 4 func_id) _ 12 at_8 (omega (arith, length-to_le 4 func_id))

    pub part_pos : pos < 2 ^ 32 → rd_u32 (part flags pos payload) 4 ≡ done pos
    part_pos h = At-u32 _ 4 pos _ h at_4

    pub part_func_id : func_id < 2 ^ 32 → rd_u32 (part flags pos payload) 8 ≡ done func_id
    part_func_id h = At-u32 _ 8 func_id _ h at_8

    pub part_line : line < 2 ^ 32 → rd_u32 (part flags pos payload) 12 ≡ done line
    part_line h = At-u32 _ 12 line _ h at_12

    pub part-header : slice (part flags pos payload) 0 72 ≡ done (header flags pos)
    part-header =
        At-slice _ 0 (header flags pos) payload 72 ([], refl, refl) (omega (arith, length-header))

    pub part_payload :
        slice (part flags pos payload) 72 (length (part flags pos payload)) ≡ done payload
    part_payload =
        At-slice _ 72 payload [] (length (part flags pos payload))
          (
            header flags pos,
            ap (λ x. header flags pos ++ x) (sym (append-nil payload)),
            sym length-header,
          )
          length-part
