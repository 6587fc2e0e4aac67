-- ===== src/Collect/Names.antt =====
-- The names of layers and kinds in src/collect.rs, and the keys of the statistics that are written
-- with them.
pub mod Keys
use afeye.Prelude.{
  ℕ, zero, suc, ◌+◌, Bool, true, false, ◌&&◌, Option, some, none, List, [], ◌∷◌, ◌++◌, Bytes,
  get_or, codes, bytes_eq, ◌==◌, if◌then◌else◌,
}

abbrev pub layers : List Bytes
layers = codes "v8" ∷ codes "blink" ∷ codes "net" ∷ []

abbrev pub kinds : List Bytes
kinds =
    codes "sink-hello"
    ∷ codes "script-source"
    ∷ codes "bytecode-entry"
    ∷ codes "wasm-module"
    ∷ codes "wasm-memory"
    ∷ codes "wasm-table"
    ∷ codes "microtask-enqueue"
    ∷ codes "microtask-run"
    ∷ codes "call-completed"
    ∷ codes "atomics"
    ∷ codes "sab-backing"
    ∷ codes "crypto-op"
    ∷ codes "timer"
    ∷ codes "perf-entry"
    ∷ codes "message"
    ∷ codes "structured-clone"
    ∷ codes "fingerprint"
    ∷ codes "net-request"
    ∷ codes "net-resp-body"
    ∷ codes "websocket"
    ∷ codes "client-hints"
    ∷ codes "sw-cache"
    ∷ codes "script-source"
    ∷ codes "input"
    ∷ codes "event-dispatch"
    ∷ codes "dom-metric"
    ∷ codes "audio"
    ∷ codes "webrtc"
    ∷ codes "fetch"
    ∷ codes "dom-api"
    ∷ codes "microtask"
    ∷ codes "wasm-instance"
    ∷ codes "fn-tostring"
    ∷ codes "clock"
    ∷ codes "isolate"
    ∷ codes "worker"
    ∷ codes "nav-start"
    ∷ codes "taint-edge"
    ∷ codes "error-stack"
    ∷ codes "sink-drop"
    ∷ codes "bytecode-trace"
    ∷ []

abbrev pub batched_kinds : List Bytes
batched_kinds =
    codes "dom-api"
    ∷ codes "call-completed"
    ∷ codes "event-dispatch"
    ∷ codes "input"
    ∷ codes "clock"
    ∷ codes "microtask"
    ∷ codes "timer"
    ∷ codes "bytecode-trace"
    ∷ []

-- `LAYERS.get(i).copied().unwrap_or("?")`
unfoldable pub layer_name : ℕ → Bytes
layer_name layer = get_or layers layer (codes "?")

unfoldable pub kind_name : ℕ → Bytes
kind_name kind = get_or kinds kind (codes "unknown")

-- `iter().position(|x| *x == name)`
unfoldable pub position : Bytes → List Bytes → Option ℕ
position name [] = none
position name (x ∷ xs) =
    if bytes_eq x name
    then some 0
    else elim (position name xs) [ none ↦ none | some i ↦ some (suc i) ]

-- `split_once`, at a byte
unfoldable pub split_once : ℕ → Bytes → Option (Bytes × Bytes)
split_once c [] = none
split_once c (x ∷ xs) =
    if x == c
    then some ([], xs)
    else elim (split_once c xs) [ none ↦ none | some (a, b) ↦ some (x ∷ a, b) ]

unfoldable pub str_eq : Bytes → Bytes → Bool
str_eq [] [] = true
str_eq (x ∷ a) (y ∷ b) = x == y && str_eq a b
str_eq [] (y ∷ b) = false
str_eq (x ∷ a) [] = false

unfoldable pub is_batched_name : Bytes → List Bytes → Bool
unfolding str_eq
is_batched_name name [] = false
is_batched_name name (b ∷ bs) = if str_eq name b then true else is_batched_name name bs

-- `BATCHED[kind]`
unfoldable pub batched : ℕ → Bool
unfolding is_batched_name
batched kind = is_batched_name (get_or kinds kind []) batched_kinds

unfoldable pub layer_of : Bytes → Option (Bytes × ℕ)
unfolding split_once
layer_of file_stem = elim (split_once b'-' file_stem) [
  | none ↦ none
  | some (name, rest) ↦
      if bytes_eq name (codes "v8")
      then some (codes "v8", 0)
      else if bytes_eq name (codes "blink")
      then some (codes "blink", 1)
      else if bytes_eq name (codes "net")
      then some (codes "net", 2)
      else none
]

unfoldable pub parse_per_key : Bytes → Option (ℕ × ℕ)
unfolding split_once position
parse_per_key key = elim (split_once b'/' key) [
  | none ↦ none
  | some (l, name) ↦ elim (position l layers) [
    | none ↦ none
    | some lid ↦ elim (position name kinds) [ none ↦ none | some kind ↦ some (lid, kind) ]
  ]
]

-- the key of a count, as `Stats` is written
unfoldable pub per_name : ℕ → ℕ → Bytes
unfolding layer_name kind_name
per_name lid kind = layer_name lid ++ (b'/' ∷ kind_name kind)
