-- ===== src/Bctrace/Glue/Instruction.antt =====
-- The parts of an instruction record, as the engine splits it: what the pass assembles of them.
use afeye.Prelude.{
  ℕ, ◌<◌, ◌^◌, ◌≡◌, ◌∙◌, true, false, ◌||◌, none, List, [], ◌∷◌, ◌++◌, append-nil, append_assoc,
  Bytes, length, done, byte_at, le→ltb-false, ◌==◌, ==_refl, bit_and, arith,
}
use afeye.Bctrace.Meta.{op_meta, op_func_def}
use afeye.Bctrace.Glue.{
  Key, Payloads, Parts, entry_update, parts_get, joined, pending, instruction, glue_part,
  assemble_instruction, assemble, assemble_all, flag_cont,
}
use afeye.Bctrace.Glue.Order.{
  parts_get-append, parts_remove-append, opened, update_opened, header, part, length-part, part_pos,
  part_func_id, part-header, part_payload,
}
use afeye.Bctrace.Glue.FuncDef.{concat, pendings}

-- `more` is a flag byte with `kFlagCont`, `last` one without it; `off` is the instruction's offset.
module _ (opcode b1 b2 func_id line : ℕ) (tail : Bytes) (more last off : ℕ) where
  abbrev pub key : Key
  key = (opcode, func_id)

  -- `EmitSplit`, where every part keeps the logical offset
  abbrev pub split_instruction : List Bytes → Bytes → List Bytes
  split_instruction [] end = part opcode b1 b2 func_id line tail last off end ∷ []
  split_instruction (c ∷ cs) end =
      part opcode b1 b2 func_id line tail more off c ∷ split_instruction cs end

  module _ (whole : length tail ≡ 56) (fid : func_id < 2 ^ 32) (off_fits : off < 2 ^ 32)
      (is_instruction : (opcode == op_meta || opcode == op_func_def) ≡ false)
      (is_more : (bit_and more flag_cont == 0) ≡ false)
      (is_last : (bit_and last flag_cont == 0) ≡ true) (base : Parts)
      (fresh : parts_get (opcode, func_id) base ≡ none) where
    abbrev hdr : Bytes
    hdr = header opcode b1 b2 func_id line tail more off

    -- The parts glued so far: one entry, at the instruction's offset.
    abbrev glued : Bytes → Payloads
    glued x = (off, hdr ++ x) ∷ []

    go_on :
        (flags : ℕ) (c : Bytes) (parts : Parts)
        → assemble (part opcode b1 b2 func_id line tail flags off c) parts
          ≡ assemble_instruction
              (part opcode b1 b2 func_id line tail flags off c)
              opcode
              flags
              func_id
              parts
    unfolding assemble byte_at
    go_on flags c parts =
        rw
          (le→ltb-false (length (part opcode b1 b2 func_id line tail flags off c)) 72
            (omega (arith, length-part opcode b1 b2 func_id line tail whole flags off c)))
          (rw (part_func_id opcode b1 b2 func_id line tail whole flags off c fid)
            (rw is_instruction))

    same_entry :
        (f : Bytes → Bytes) (b : Bytes) → entry_update off f ((off, b) ∷ []) ≡ (off, f b) ∷ []
    unfolding entry_update
    same_entry f b = rw (le→ltb-false off off (omega arith), ==_refl off)

    -- A part with `kFlagCont` goes to the end of what is glued, or opens it.
    add_more :
        (c : Bytes) (m : Payloads)
        → assemble (part opcode b1 b2 func_id line tail more off c) (opened key base m)
          ≡ done (base ++ ((key, entry_update off (glue_part hdr c) m) ∷ []), pending)
    add_more c m = go_on more c (opened key base m) ∙ glue_it
      where
        glue_it :
            assemble_instruction
              (part opcode b1 b2 func_id line tail more off c)
              opcode
              more
              func_id
              (opened key base m)
            ≡ done (base ++ ((key, entry_update off (glue_part hdr c) m) ∷ []), pending)
        glue_it =
            unfold assemble_instruction in
            rw is_more (
              rw (part_pos opcode b1 b2 func_id line tail whole more off c off_fits) (
                rw (part-header opcode b1 b2 func_id line tail whole more off c) (
                  rw (part_payload opcode b1 b2 func_id line tail whole more off c)
                    (rw (update_opened key (entry_update off (glue_part hdr c)) base m fresh)))))

    add_last :
        (c x : Bytes)
        → assemble (part opcode b1 b2 func_id line tail last off c) (base ++ ((key, glued x) ∷ []))
          ≡ done (base, instruction (hdr ++ x))
    unfolding assemble_instruction joined
    add_last c x =
        go_on last c (base ++ ((key, glued x) ∷ []))
        ∙ rw is_last (
            rw (parts_get-append key base (glued x) fresh)
              (rw (parts_remove-append key base (glued x) fresh, append-nil (hdr ++ x))))

    assemble_all-glued :
        (cs : List Bytes) (end x : Bytes)
        → assemble_all (split_instruction cs end) (base ++ ((key, glued x) ∷ []))
          ≡ done (base, pendings cs (instruction (hdr ++ (x ++ concat cs)) ∷ []))
    unfolding assemble_all
    assemble_all-glued [] end x = rw (append-nil x) (rw (add_last end x))
    assemble_all-glued (c ∷ cs) end x = rw (add_more c (glued x)) (
        rw (same_entry (glue_part hdr c) (hdr ++ x)) (
          rw (append_assoc hdr x c)
            (rw (assemble_all-glued cs end (x ++ c)) (rw (append_assoc x c (concat cs))))))

    -- An instruction record that `EmitSplit` sends in two parts or more assembles to its header and
    -- the payloads of all parts but the last: the last payload `end` is lost, whatever it holds. No
    -- part of the instruction is in the map at the start.
    pub assemble-split_instruction :
        (c : Bytes) (cs : List Bytes) (end : Bytes)
        → assemble_all (split_instruction (c ∷ cs) end) base
          ≡ done (
            base,
            pendings (c ∷ cs) (
                instruction (header opcode b1 b2 func_id line tail more off ++ concat (c ∷ cs))
                ∷ []),
          )
    unfolding assemble_all entry_update
    assemble-split_instruction c cs end = rw (add_more c []) (rw (assemble_all-glued cs end c))
