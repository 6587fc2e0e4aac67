-- ===== src/Sinkfilter/Wasm/Sections.antt =====
-- A whole wasm module, as `wasm_imports_exports` of src/sinkfilter.rs reads it, and the reader on
-- any bytes.
use afeye.Prelude.{
  ℕ, zero, suc, ◌+◌, ◌^◌, ◌≤◌, ◌<◌, ◌≡◌, ◌≢◌, refl, ap, min, false, List, [], ◌∷◌, ◌++◌, map, Bytes,
  length, length-append, All, codes, done, le→leb, le→ltb-false, lt→ltb, ◌==◌, arith,
}
use afeye.Bctrace.Cursor.{At, At-length, At-skip, At-slice}
use afeye.Sinkfilter.Wasm.{Found, u8, leb_u64, read_section, sections_loop, wasm_imports_exports}
use afeye.Sinkfilter.Wasm.Leb.{put_leb, u8-At}
use afeye.Sinkfilter.Wasm.Names.{
  Import, Export, ImportFits, ExportFits, put_imports, put_exports, u8-next, leb-value, leb-next,
  imports_loop-put_imports, exports_loop-put_exports,
}

pub data Section : Type 0 where
  imports : List Import → Section
  exports : List Export → Section
  other : ℕ → Bytes → Section

unfoldable pub id_of : Section → ℕ
id_of (imports is) = 2
id_of (exports es) = 7
id_of (other id body) = id

unfoldable pub body_of : Section → Bytes
body_of (imports is) = put_leb 9 (length is) ++ put_imports is []
body_of (exports es) = put_leb 9 (length es) ++ put_exports es []
body_of (other id body) = body

unfoldable pub put_sections : List Section → Bytes
unfolding id_of body_of
put_sections [] = []
put_sections (s ∷ ss) = id_of s ∷ (put_leb 9 (length (body_of s)) ++ (body_of s ++ put_sections ss))

-- `version` is the four bytes behind the magic number.
unfoldable pub put_module : Bytes → List Section → Bytes
unfolding put_sections
put_module version ss = (0 ∷ codes "asm") ++ (version ++ put_sections ss)

-- At most 4096 names in a section, which the reader takes; every number fits 64 bits.
abbrev pub SectionFits : Section → Type 0
SectionFits (imports is) = (length is ≤ 4096) × All ImportFits is
SectionFits (exports es) = (length es ≤ 4096) × All ExportFits es
SectionFits (other id body) = (id ≢ 2) × (id ≢ 7)

module _ (lossy : Bytes → Bytes) where
  -- the names of a section, behind those of the sections before it
  unfoldable pub names_of : Section → Found → Found
  names_of (imports is) (ins, outs) = (ins ++ map (λ i. lossy i.field) is, outs)
  names_of (exports es) (ins, outs) = (ins, outs ++ map (λ e. lossy e.name) es)
  names_of (other id body) found = found

  abbrev pub names_of_all : List Section → Found → Found
  names_of_all [] found = found
  names_of_all (s ∷ ss) found = names_of_all ss (names_of s found)

  read_section-body_of :
      (s : Section) (ins outs : List Bytes)
      → SectionFits s
      → read_section lossy (id_of s) (body_of s) (ins, outs) ≡ names_of s (ins, outs)
  unfolding read_section id_of body_of names_of
  read_section-body_of (imports is) ins outs (n, ws) =
      let sec : Bytes = put_leb 9 (length is) ++ put_imports is [] in
      let at : At sec 0 sec = ([], refl, refl) in
      let few : min (length is) 4096 ≡ length is = omega arith in
      rw (leb-value sec 0 (length is) (put_imports is []) (omega arith) at) (
        rw few (λ i. (
          imports_loop-put_imports sec lossy (leb_u64 sec 0).1 is [] ins ws
              (leb-next sec 0 (length is) (put_imports is []) (omega arith) at) i,
          outs,
        )))
  read_section-body_of (exports es) ins outs (n, ws) =
      let sec : Bytes = put_leb 9 (length es) ++ put_exports es [] in
      let at : At sec 0 sec = ([], refl, refl) in
      let few : min (length es) 4096 ≡ length es = omega arith in
      rw (leb-value sec 0 (length es) (put_exports es []) (omega arith) at) (
        rw few (λ i. (
          ins,
          exports_loop-put_exports sec lossy (leb_u64 sec 0).1 es [] outs ws
              (leb-next sec 0 (length es) (put_exports es []) (omega arith) at) i,
        )))
  read_section-body_of (other id body) ins outs (h, k) =
      let h' : (id == 2) ≡ false = ground (arith, h) in
      let k' : (id == 7) ≡ false = ground (arith, k) in rw h' (rw k')

  sections_loop-put_sections :
      (fuel : ℕ) (b : Bytes) (p : ℕ) (ss : List Section) (ins outs : List Bytes)
      → All SectionFits ss
      → At b p (put_sections ss)
      → length b < fuel + p
      → length b < 2 ^ 64
      → sections_loop lossy fuel b p (ins, outs) ≡ done (names_of_all ss (ins, outs))
  unfolding sections_loop put_sections
  sections_loop-put_sections zero b p ss ins outs ws at enough w =
      absurd (omega (arith, At-length b p _ at))
  sections_loop-put_sections (suc fuel) b p [] ins outs ws at enough w =
      rw (le→ltb-false p (length b) (omega (arith, At-length b p _ at)))
  sections_loop-put_sections (suc fuel) b p (s ∷ ss) ins outs (h, ws) at enough w =
      let body = body_of s in
      let len_at = u8-next b p (id_of s) _ at in
      let small : length body < 2 ^ 64 = omega (
        arith,
        At-length b p _ at,
        length-append (put_leb 9 (length body)) (body ++ put_sections ss),
        length-append body (put_sections ss),
      ) in
      let body_at = leb-next b (u8 b p).1 (length body) _ small len_at in
      let q : ℕ = (leb_u64 b (u8 b p).1).1 in
      let fits : q + length body ≤ length b =
        omega (arith, At-length b q _ body_at, length-append body (put_sections ss)) in
      let later : p < q = omega (
        arith,
        At-length b p _ at,
        At-length b q _ body_at,
        length-append (put_leb 9 (length body)) (body ++ put_sections ss),
      ) in
      rw (lt→ltb p (length b) (omega arith)) (
        rw (ap (λ r. r.0) (u8-At b p (id_of s) _ at)) (
          rw (leb-value b (u8 b p).1 (length body) _ small len_at) (
            rw (le→leb (q + length body) (length b) fits) (
              rw (At-slice b q body (put_sections ss) (q + length body) body_at refl) (
                rw (read_section-body_of s ins outs h) (
                  sections_loop-put_sections fuel b (q + length body) ss (names_of s (ins, outs)).0
                    (names_of s (ins, outs)).1 ws
                    (At-skip b q body _ (q + length body) body_at refl) (omega arith) w))))))

  -- Of a module with any sections, each of at most 4096 names, the reader returns the fields of
  -- all imports and the names of all exports, in order and as `String`s; other sections change
  -- nothing. The numbers and the length of the module fit 64 bits.
  pub wasm_imports_exports-put_module :
      (version : Bytes) (ss : List Section)
      → length version ≡ 4
      → All SectionFits ss
      → length (put_module version ss) < 2 ^ 64
      → wasm_imports_exports lossy (put_module version ss) ≡ done (names_of_all ss ([], []))
  unfolding wasm_imports_exports put_module
  wasm_imports_exports-put_module version ss v ws w =
      let b = put_module version ss in
      rw (le→ltb-false (length b) 8 (omega (arith, length-append version (put_sections ss)))) (
        rw (At-slice b 0 (0 ∷ codes "asm") (version ++ put_sections ss) 4 ([], refl, refl) refl) (
          sections_loop-put_sections (suc (length b)) b 8 ss [] [] ws
            (At-skip b 4 version (put_sections ss) 8 (0 ∷ codes "asm", refl, refl) (omega arith))
            (omega arith) w))
