-- ===== src/Bctrace/Glue/FuncDef.antt =====
-- The parts of a func-def blob, as the engine splits it, assemble to the blob.
use afeye.Prelude.{
  ℕ, ◌+◌, ◌<◌, ◌^◌, ◌≡◌, ◌∙◌, true, false, none, List, [], ◌∷◌, ◌++◌, append_assoc, Bytes, length,
  length-append, done, byte_at, le→ltb-false, ◌==◌, bit_and, arith,
}
use afeye.Bctrace.Meta.{op_func_def}
use afeye.Bctrace.Glue.{
  Key, Payloads, Parts, entry_update, parts_get, joined, Assembled, pending, func_blob,
  assemble_blob, assemble, assemble_all, flag_cont,
}
use afeye.Bctrace.Glue.Order.{
  AllBelow, entry_update_behind, AllBelow-snoc, joined-snoc, parts_get-append, parts_remove-append,
  opened, opened-snoc, update_opened, part, length-part, part_pos, part_func_id, part_line,
  part-header, part_payload,
}

abbrev pub concat : List Bytes → Bytes
concat [] = []
concat (c ∷ cs) = c ++ concat cs

abbrev pub pendings : List Bytes → List Assembled → List Assembled
pendings [] after = after
pendings (c ∷ cs) after = pending ∷ pendings cs after

-- Every chunk but the last has a byte.
abbrev pub NoneEmpty : List Bytes → Type 0
NoneEmpty [] = Unit
NoneEmpty (c ∷ cs) = (0 < length c) × NoneEmpty cs

-- `more` is a flag byte with `kFlagCont`, `last` one without it.
module _ (b1 b2 func_id line : ℕ) (tail : Bytes) (more last : ℕ) where
  -- `EmitSplit`, where the offset is the position in the blob
  abbrev pub split_blob : List Bytes → Bytes → ℕ → List Bytes
  split_blob [] end p = part op_func_def b1 b2 func_id line tail last p end ∷ []
  split_blob (c ∷ cs) end p =
      part op_func_def b1 b2 func_id line tail more p c ∷ split_blob cs end (p + length c)

  module _ (whole : length tail ≡ 56) (fid : func_id < 2 ^ 32) (ln : line < 2 ^ 32)
      (is_more : (bit_and more flag_cont == 0) ≡ false)
      (is_last : (bit_and last flag_cont == 0) ≡ true) (base : Parts)
      (fresh : parts_get (op_func_def, func_id) base ≡ none) where
    abbrev key : Key
    key = (op_func_def, func_id)

    -- A part behind those of `m` is added to them, and handed to `assemble_blob`.
    add_part :
        (flags p : ℕ) (c : Bytes) (m : Payloads)
        → p < 2 ^ 32
        → AllBelow p m
        → assemble (part op_func_def b1 b2 func_id line tail flags p c) (opened key base m)
          ≡ assemble_blob
              (part op_func_def b1 b2 func_id line tail flags p c)
              op_func_def
              flags
              func_id
              (base ++ ((key, m ++ ((p, c) ∷ [])) ∷ []))
    unfolding assemble byte_at
    add_part flags p c m fits below =
        rw
          (le→ltb-false (length (part op_func_def b1 b2 func_id line tail flags p c)) 72
            (omega (arith, length-part op_func_def b1 b2 func_id line tail whole flags p c)))
          (rw (part_func_id op_func_def b1 b2 func_id line tail whole flags p c fid) (
            rw (part_payload op_func_def b1 b2 func_id line tail whole flags p c) (
              rw (part_pos op_func_def b1 b2 func_id line tail whole flags p c fits) (
                rw (update_opened key (entry_update p (λ e. e ++ c)) base m fresh)
                  (rw (entry_update_behind p (λ e. e ++ c) m below))))))

    add_more :
        (p : ℕ) (c : Bytes) (m : Payloads)
        → p < 2 ^ 32
        → AllBelow p m
        → assemble (part op_func_def b1 b2 func_id line tail more p c) (opened key base m)
          ≡ done (opened key base (m ++ ((p, c) ∷ [])), pending)
    add_more p c m fits below =
        add_part more p c m fits below
        ∙ rw (opened-snoc key base m (p, c)) (unfold assemble_blob in rw is_more)

    finish :
        (p : ℕ) (c : Bytes) (m : Payloads)
        → assemble_blob
            (part op_func_def b1 b2 func_id line tail last p c)
            op_func_def
            last
            func_id
            (base ++ ((key, m ++ ((p, c) ∷ [])) ∷ []))
          ≡ done (base, func_blob func_id line (joined m ++ c))
    unfolding assemble_blob
    finish p c m = rw is_last (
        rw (parts_get-append key base (m ++ ((p, c) ∷ [])) fresh) (
          rw (part-header op_func_def b1 b2 func_id line tail whole last p c) (
            rw (part_line op_func_def b1 b2 func_id line tail whole last p c ln)
              (rw (parts_remove-append key base (m ++ ((p, c) ∷ [])) fresh, joined-snoc m p c)))))

    add_last :
        (p : ℕ) (c : Bytes) (m : Payloads)
        → p < 2 ^ 32
        → AllBelow p m
        → assemble (part op_func_def b1 b2 func_id line tail last p c) (opened key base m)
          ≡ done (base, func_blob func_id line (joined m ++ c))
    add_last p c m fits below = add_part last p c m fits below ∙ finish p c m

    assemble_all-split_blob :
        (cs : List Bytes) (end : Bytes) (p : ℕ) (m : Payloads)
        → NoneEmpty cs
        → p + length (concat cs) < 2 ^ 32
        → AllBelow p m
        → assemble_all (split_blob cs end p) (opened key base m)
          ≡ done (base, pendings cs (func_blob func_id line (joined m ++ (concat cs ++ end)) ∷ []))
    unfolding assemble_all
    assemble_all-split_blob [] end p m some_bytes fits below =
        rw (add_last p end m (omega arith) below)
    assemble_all-split_blob (c ∷ cs) end p m (b, bs) fits below =
        let n : length (c ++ concat cs) ≡ length c + length (concat cs) =
          length-append c (concat cs) in
        rw (add_more p c m (omega arith) below) (
          rw
            (assemble_all-split_blob cs end (p + length c) (m ++ ((p, c) ∷ [])) bs (omega arith)
              (AllBelow-snoc p (p + length c) c m (omega arith) below))
            (rw (
              joined-snoc m p c,
              append_assoc (joined m) c (concat cs ++ end),
              append_assoc c (concat cs) end,
            )))

    -- A func-def blob that `EmitSplit` sends in parts, each but the last with a byte, assembles to the
    -- blob byte for byte: every part but the last leaves the pass waiting, the last gives the whole,
    -- and the map of parts is as before. No part of the function is in the map at the start, and the
    -- positions fit `u32`.
    pub assemble-split_blob :
        (cs : List Bytes) (end : Bytes)
        → NoneEmpty cs
        → length (concat cs) < 2 ^ 32
        → assemble_all (split_blob cs end 0) base
          ≡ done (base, pendings cs (func_blob func_id line (concat cs ++ end) ∷ []))
    unfolding joined
    assemble-split_blob cs end some_bytes fits =
        assemble_all-split_blob cs end 0 [] some_bytes (omega arith) tt
