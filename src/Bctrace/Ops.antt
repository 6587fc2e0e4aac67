-- ===== src/Bctrace/Ops.antt =====
-- The classes of opcodes in src/bctrace.rs, by their names.
pub mod Classes
use afeye.Prelude.{ℕ, Bool, Option, some, none, List, [], ◌∷◌, Bytes, String, one_of, if◌then◌else◌}

abbrev pub cp_resolve_names : List String
cp_resolve_names =
    "LdaConstant" ∷ "LdaGlobal" ∷ "LdaGlobalInsideTypeof" ∷ "StaGlobal" ∷ "GetNamedProperty"
    ∷ "SetNamedProperty" ∷ "DefineNamedOwnProperty" ∷ "AddNamedProperty" ∷ "CallProperty"
    ∷ "CallProperty0" ∷ "CallProperty1" ∷ "CallProperty2" ∷ "CallUndefinedReceiver0"
    ∷ "CallUndefinedReceiver1" ∷ "CallUndefinedReceiver2" ∷ "CallWithSpread" ∷ "Construct"
    ∷ "ConstructWithSpread" ∷ "TestReferenceEqual" ∷ "JumpIfTrueConstant" ∷ "JumpIfFalseConstant"
    ∷ "LdaLookupGlobalSlot" ∷ []

unfoldable pub cp_resolve_op : Bytes → Bool
cp_resolve_op name = one_of name cp_resolve_names

abbrev pub runtime_names : List String
runtime_names = "CallRuntime" ∷ "CallRuntimeForPair" ∷ []

unfoldable pub rt_resolve_op : Bytes → Bool
rt_resolve_op name = one_of name runtime_names

abbrev pub js_call_names : List String
js_call_names =
    "CallProperty" ∷ "CallProperty0" ∷ "CallProperty1" ∷ "CallProperty2" ∷ "CallUndefinedReceiver0"
    ∷ "CallUndefinedReceiver1" ∷ "CallUndefinedReceiver2" ∷ "CallWithSpread" ∷ "Construct"
    ∷ "ConstructWithSpread" ∷ []

unfoldable pub js_call_op : Bytes → Bool
js_call_op name = one_of name js_call_names

abbrev pub global_names : List String
global_names = "LdaGlobal" ∷ "LdaGlobalInsideTypeof" ∷ "LdaLookupGlobalSlot" ∷ "StaGlobal" ∷ []

abbrev pub prop_names : List String
prop_names =
    "GetNamedProperty" ∷ "GetNamedPropertyFromSuper" ∷ "SetNamedProperty" ∷ "DefineNamedOwnProperty"
    ∷ "AddNamedProperty" ∷ []

abbrev pub call_names : List String
call_names =
    "CallProperty" ∷ "CallProperty0" ∷ "CallProperty1" ∷ "CallProperty2" ∷ "CallUndefinedReceiver0"
    ∷ "CallUndefinedReceiver1" ∷ "CallUndefinedReceiver2" ∷ "CallWithSpread" ∷ []

unfoldable pub api_category : Bytes → Option (ℕ × String)
api_category name =
    if one_of name global_names
    then some (0, "global")
    else if one_of name prop_names
    then some (1, "prop")
    else if one_of name call_names
    then some (2, "call")
    else if one_of name runtime_names
    then some (3, "runtime")
    else none
