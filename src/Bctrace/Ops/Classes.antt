-- ===== src/Bctrace/Ops/Classes.antt =====
-- How the classes of opcodes of src/bctrace.rs lie in each other.
use afeye.Prelude.{
  ◌≡◌, refl, ap, ◌∙◌, Bool, true, false, ◌&&◌, not, Bool-cases, inl, inr, some, none, List, [], ◌∷◌,
  Bytes, String, codes, bytes_eq, bytes_eq_iff, one_of, if◌then◌else◌, arith,
}
use afeye.Bctrace.Ops.{
  cp_resolve_names, cp_resolve_op, runtime_names, rt_resolve_op, js_call_names, js_call_op,
  global_names, prop_names, call_names, api_category,
}

-- a test that holds for every text of a table
abbrev each : (Bytes → Bool) → List String → Bool
each p [] = true
each p (s ∷ ss) = p (codes s) && each p ss

each-one_of :
    (p : Bytes → Bool) (ss : List String) (b : Bytes)
    → each p ss ≡ true
    → one_of b ss ≡ true
    → p b ≡ true
each-one_of p [] b h k = cc
each-one_of p (s ∷ ss) b h k = elim (Bool-cases (bytes_eq b (codes s))) [
  | inl e ↦
      let here : p (codes s) ≡ true = ground (arith, h) in
      ap p ((bytes_eq_iff b (codes s)).0 e) ∙ here
  | inr e ↦ each-one_of p ss b (ground (arith, h)) (ground (arith, e, k))
]

-- Every opcode that calls a JS function has an operand that the constant pool resolves.
pub js_call_op-cp_resolve_op : (name : Bytes) → js_call_op name ≡ true → cp_resolve_op name ≡ true
unfolding js_call_op cp_resolve_op
js_call_op-cp_resolve_op name h =
    each-one_of (λ n. one_of n cp_resolve_names) js_call_names name refl h

not-true : (a : Bool) → not a ≡ true → a ≡ false
not-true true h = cc
not-true false h = refl

last_of_four :
    {A : Type 0} (w x y z e : A) (a b c d : Bool)
    → not a && (not b && not c) ≡ true
    → d ≡ true
    → (if a then w else if b then x else if c then y else if d then z else e) ≡ z
last_of_four w x y z e true b c d h k = absurd (cc)
last_of_four w x y z e false true c d h k = absurd (cc)
last_of_four w x y z e false false true d h k = absurd (cc)
last_of_four w x y z e false false false true h k = refl
last_of_four w x y z e false false false false h k = absurd (cc)

is_runtime : Bytes → Bool
is_runtime name =
    not (one_of name global_names) && (not (one_of name prop_names) && not (one_of name call_names))

-- An opcode whose operand is a runtime function has the category `runtime`, and no operand of it
-- is resolved in the constant pool.
pub rt_resolve_op-api_category :
    (name : Bytes)
    → rt_resolve_op name ≡ true
    → (api_category name ≡ some (3, "runtime")) × (cp_resolve_op name ≡ false)
unfolding rt_resolve_op api_category cp_resolve_op is_runtime
rt_resolve_op-api_category name h =
    let other : is_runtime name ≡ true = each-one_of is_runtime runtime_names name refl h in
    let apart : not (one_of name cp_resolve_names) ≡ true =
      each-one_of (λ n. not (one_of n cp_resolve_names)) runtime_names name refl h in
    (
      last_of_four (some (0, "global")) (some (1, "prop")) (some (2, "call")) (some (3, "runtime"))
          none (one_of name global_names) (one_of name prop_names) (one_of name call_names)
          (one_of name runtime_names) other h,
      not-true (one_of name cp_resolve_names) apart,
    )
