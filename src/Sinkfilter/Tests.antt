-- ===== src/Sinkfilter/Tests.antt =====
-- Concrete runs of the sink filter of src/sinkfilter.rs, and its theorems at concrete inputs.
use afeye.Prelude.{
  true, false, ℕ, suc, ◌^◌, ◌<◌, ◌≡◌, inl, inr, refl, some, List, [], ◌∷◌, ◌++◌, Bytes, length,
  codes, done, Returns, ◌==◌, if◌then◌else◌, arith,
}
use afeye.Collect.Names.{split_once}
use afeye.Sinkfilter.Names.{verdict, is_sink_tag, first_word, name_of, split_iso}
use afeye.Sinkfilter.Names.RoundTrip.{split_iso-iso}
use afeye.Sinkfilter.Wasm.{wasm_imports_exports}
use afeye.Sinkfilter.Wasm.Leb.{put_leb}
use afeye.Sinkfilter.Wasm.Names.{
  func, memory, closed_limits, put_imports, put_exports, put_name, put_desc, put_limits, kind_of,
}
use afeye.Sinkfilter.Wasm.Sections.{
  Section, imports, exports, other, put_module, put_sections, id_of, body_of, names_of,
  wasm_imports_exports-put_module,
}
use afeye.Sinkfilter.Wasm.Bounds.{wasm_imports_exports_total}
use afeye.Sinkfilter.UnionFind.{Parents, no_parents, insert, union}
use afeye.Sinkfilter.UnionFind.Roots.{Root}
use afeye.Sinkfilter.UnionFind.Union.{union-Root}

abbrev same : Bytes → Bytes
same b = b

abbrev sections : List Section
sections =
    other 1 (codes "type")
    ∷ imports (
        record { module_name = codes "env"; field = codes "log"; desc = func 3 }
        ∷ record {
          module_name = codes "env";
          field = codes "memory";
          desc = memory (closed_limits 1 300);
        }
        ∷ [])
    ∷ exports (record { name = codes "run"; kind = 0; idx = 1 } ∷ [])
    ∷ []

sections_small : length (put_module (1 ∷ 0 ∷ 0 ∷ 0 ∷ []) sections) < 2 ^ 64
unfolding put_module put_sections id_of body_of put_imports put_exports put_name put_desc put_limits
    kind_of put_leb
sections_small = omega arith

wasm_imports_exports-put_module_example :
    wasm_imports_exports same (put_module (1 ∷ 0 ∷ 0 ∷ 0 ∷ []) sections)
    ≡ done (codes "log" ∷ codes "memory" ∷ [], codes "run" ∷ [])
unfolding names_of
wasm_imports_exports-put_module_example =
    wasm_imports_exports-put_module same (1 ∷ 0 ∷ 0 ∷ 0 ∷ []) sections refl (omega arith)
      sections_small

abbrev cut_module : Bytes
cut_module = 0 ∷ codes "asm" ++ (1 ∷ 0 ∷ 0 ∷ 0 ∷ 2 ∷ 5 ∷ 1 ∷ 255 ∷ [])

wasm_imports_exports_total_example : Returns (λ r. Unit) (wasm_imports_exports same cut_module)
wasm_imports_exports_total_example = wasm_imports_exports_total cut_module same

-- 7 hangs below 5, and 5 below 3.
abbrev chain : Parents
chain = insert 7 5 (insert 5 3 (insert 3 3 no_parents))

seven-Root : Root chain 2 7 3
unfolding insert no_parents
seven-Root =
    inr (5, refl, (λ e. omega (arith, e)), inr (3, refl, (λ e. omega (arith, e)), (inr refl, refl)))

nine-Root : Root chain 2 9 9
unfolding insert no_parents
nine-Root = inl (inl refl, refl)

union-Root_example :
    (p' : Parents) × (union 4 chain 7 9 ≡ done p')
    × ((m y s : ℕ) → Root chain m y s → Root p' (suc m) y (if s == 9 then 3 else s))
union-Root_example = union-Root 4 2 7 9 3 9 chain seven-Root nine-Root (omega arith)

split_iso-iso_example : split_iso (codes "iso:0x1f canvas") ≡ (some (codes "0x1f"), codes "canvas")
split_iso-iso_example = split_iso-iso (codes "0x1f") (codes "canvas") (omega arith)

body_is_sink : is_sink_tag (codes "net-request") (codes "req-body url") ≡ true
unfolding is_sink_tag first_word split_once
body_is_sink = refl

url_is_no_sink : is_sink_tag (codes "net-request") (codes "req-url url") ≡ false
unfolding is_sink_tag first_word split_once
url_is_no_sink = refl

unproven :
    verdict (record {
      has_sink_records = true;
      proven_causality = false;
      proven_value = false;
      reasons = [];
    })
    ≡ codes "evidence-only"
unfolding verdict
unproven = refl

name_of_tag : name_of same (codes "ab" ++ (0 ∷ codes "cd")) ≡ (codes "ab", codes "cd")
unfolding name_of split_once
name_of_tag = refl
