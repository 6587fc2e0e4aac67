-- ===== src/Collect/Parts/Push.antt =====
-- Where `PartWriter::push` of src/collect.rs says a payload stands, and where it stands.
use afeye.Prelude.{
  ℕ, ◌+◌, ◌<◌, ◌≡◌, refl, sym, true, Bool-cases, inl, inr, Option, some, none, [], ◌∷◌, ◌++◌,
  append_assoc, Bytes, length, length-append, take, bytes_eq_iff, done, Returns, leb, lt→leb-false,
  arith,
}
use afeye.Collect.Parts.{
  Files, PartWriter, contents, create, append, part_roll_bytes, put_file_name, roll, write_part,
  push,
}

contents-append :
    (name x b : Bytes) (files : Files)
    → contents name files ≡ some b
    → contents name (append name x files) ≡ some (b ++ x)
unfolding contents append
contents-append name x b [] h = cc
contents-append name x b ((n, c) ∷ files) h = ground (arith, contents-append name x b files)

contents-create :
    (name : Bytes) (files : Files)
    → contents name files ≡ none
    → contents name (create name files) ≡ some []
unfolding contents create
contents-create name [] h = rw ((bytes_eq_iff name name).1 refl)
contents-create name ((n, c) ∷ files) h = ground (arith, contents-create name files)

-- `written` is the length of the open file.
pub record IsInStep (files : Files) (pw : PartWriter) (b : Bytes) : Type 0 where
  pub held : contents pw.file files ≡ some b
  pub written : pw.written ≡ length b

module _ (format : ℕ → Bytes) (layer kname : Bytes) where
  -- The payload stands in the part at the offset that the push returned.
  abbrev pub Pushed : Bytes → (Files × PartWriter) × Option ℕ → Type 0
  Pushed payload ((files, pw), none) = ⊥
  Pushed payload ((files, pw), some off) =
      (b : Bytes) × (off ≡ length b) × IsInStep files pw (b ++ payload)

  write_part-Pushed :
      (payload b : Bytes) (files : Files) (pw : PartWriter)
      → IsInStep files pw b
      → Returns (Pushed payload) (write_part format layer kname none payload (files, pw))
  unfolding write_part
  write_part-Pushed payload b files pw w = (
    b,
    w.written,
    record {
      held = contents-append pw.file payload b files w.held;
      written = omega (arith, w.written, length-append b payload);
    },
  )

  -- A push whose write succeeds returns an offset at which the part file holds the payload, up to
  -- its end, and the writer stays in step with its file. Where the part is full a new file begins:
  -- it opens, and was not there before.
  pub push-Pushed :
      (payload name b : Bytes) (files : Files) (pw : PartWriter)
      → IsInStep files pw b
      → put_file_name format layer kname b'p' (pw.seq + 1) 4 ≡ done name
      → contents name files ≡ none
      → Returns (Pushed payload) (push format layer kname true none payload (files, pw))
  unfolding push roll
  push-Pushed payload name b files pw w e fresh =
      elim (Bool-cases (leb part_roll_bytes pw.written)) [
        | inl t ↦
            rw (t, Returns)
              (rw (e, Returns)
                (write_part-Pushed payload [] (create name files) _
                  record { held = contents-create name files fresh; written = refl }))
        | inr t ↦ rw (t, Returns) (write_part-Pushed payload b files pw w)
      ]

  -- After a write that failed behind its first `k` bytes the writer is behind its file: the next
  -- payload is stored behind those bytes, and the offset that its push returns is the old length.
  pub push-failed :
      (k : ℕ) (payload next b : Bytes) (files : Files) (pw : PartWriter)
      → IsInStep files pw b
      → pw.written < part_roll_bytes
      → (files' : Files) × (files'' : Files) × (pw' : PartWriter) × (push format layer kname true
            (some k)
            payload
            (files, pw)
          ≡ done ((files', pw), none))
        × (push format layer kname true none next (files', pw)
            ≡ done ((files'', pw'), some (length b)))
        × (contents pw'.file files'' ≡ some (b ++ (take k payload ++ next)))
  unfolding push write_part
  push-failed k payload next b files pw w h = (
    append pw.file (take k payload) files,
    append pw.file next (append pw.file (take k payload) files),
    record { file = pw.file; rel = pw.rel; seq = pw.seq; written = pw.written + length next },
    rw (lt→leb-false part_roll_bytes pw.written h),
    rw (lt→leb-false part_roll_bytes pw.written h) (λ i. done (
      (
        append pw.file next (append pw.file (take k payload) files),
        record { file = pw.file; rel = pw.rel; seq = pw.seq; written = pw.written + length next },
      ),
      some (w.written i),
    )),
    rw (sym (append_assoc b (take k payload) next)) (
        contents-append pw.file next (b ++ take k payload) (append pw.file (take k payload) files)
          (contents-append pw.file (take k payload) b files w.held)),
  )
