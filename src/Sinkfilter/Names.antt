-- ===== src/Sinkfilter/Names.antt =====
-- What src/sinkfilter.rs reads out of the texts and payloads of its records: names, isolates and
-- workers, the kinds that carry values out, the executed functions, and the verdict on a chain.
pub mod RoundTrip
use afeye.Prelude.{
  ℕ, zero, suc, ◌+◌, ◌/◌, Bool, true, false, ◌||◌, not, Option, some, none, List, [], ◌∷◌, ◌++◌,
  Bytes, length, drop, get_or, codes, bytes_eq, starts_with, ◌==◌, if◌then◌else◌, bit_and, String,
  one_of,
}
use afeye.Bctrace.Read.{from_le}
use afeye.Collect.Names.{split_once}

-- `strip_prefix`
abbrev pub strip_prefix : Bytes → Bytes → Option Bytes
strip_prefix s p = if starts_with s p then some (drop (length p) s) else none

-- the text in front of the first `p`
unfoldable pub before : Bytes → Bytes → Bytes
before p [] = []
before p (c ∷ s) = if starts_with (c ∷ s) p then [] else c ∷ before p s

-- the text in front of the first byte `c`, `split(c).next()`
unfoldable pub first_word : ℕ → Bytes → Bytes
unfolding split_once
first_word c s = elim (split_once c s) [ none ↦ s | some (a, b) ↦ a ]

module _ (lossy : Bytes → Bytes) where
  unfoldable pub name_of : Bytes → Bytes × Bytes
  unfolding split_once
  name_of payload = elim (split_once 0 payload) [
    | none ↦ ([], payload)
    | some (a, b) ↦ (lossy a, b)
  ]

unfoldable pub split_iso : Bytes → Option Bytes × Bytes
unfolding split_once
split_iso name = elim (strip_prefix name (codes "iso:")) [
  | none ↦ (none, name)
  | some rest ↦ elim (split_once 32 rest) [ none ↦ (none, name) | some (a, b) ↦ (some a, b) ]
]

unfoldable pub worker_of : Bytes → Option (Bytes × Bytes)
unfolding split_once before
worker_of txt = elim (strip_prefix txt (codes "worker-scope iso=")) [
  | none ↦ none
  | some rest ↦ elim (split_once 32 rest) [
    | none ↦ none
    | some (iso, tail) ↦
        let name : Bytes = elim (strip_prefix tail (codes "name=")) [ none ↦ tail | some n ↦ n ] in
        some (iso, before (codes " secure=") name)
  ]
]

abbrev pub value_tags : List String
value_tags =
    "cookie-get" ∷ "cookie-set" ∷ "storage-get" ∷ "storage-set" ∷ "canvas/to-data-url-data"
    ∷ "canvas/get-image-data-r" ∷ "webgl/read-pixels-r" ∷ "audio/float-frequency"
    ∷ "audio/byte-frequency" ∷ "audio/float-timedomain" ∷ "audio/byte-timedomain" ∷ "json-stringify"
    ∷ "webgl/unmasked-vendor" ∷ "webgl/unmasked-renderer" ∷ "webgl/param" ∷ "canvas/measure-r" ∷ []

abbrev pub sink_tags : List String
sink_tags =
    "ws-frame-out" ∷ "wt-stream-out" ∷ "wt-datagram-out" ∷ "rtc-datachannel-out"
    ∷ "webgpu/write-buffer" ∷ "webgpu/write-texture" ∷ "req-body" ∷ "req-body-stream"
    ∷ "req-file-head" ∷ "req-headers" ∷ "cookie-attach" ∷ []

abbrev pub starts_with_any : Bytes → List String → Bool
starts_with_any tag [] = false
starts_with_any tag (t ∷ ts) = starts_with tag (codes t) || starts_with_any tag ts

unfoldable pub is_sink_tag : Bytes → Bytes → Bool
unfolding first_word
is_sink_tag kind tag =
    if one_of kind ("crypto-op" ∷ "structured-clone" ∷ "taint-edge" ∷ "wasm-memory" ∷ [])
    then true
    else if one_of kind ("websocket" ∷ "net-request" ∷ [])
    then one_of (first_word 32 tag) sink_tags
    else if bytes_eq kind (codes "fingerprint")
    then starts_with_any tag value_tags
    else false

abbrev hex_table : Bytes
hex_table = codes "0123456789abcdef"

unfoldable pub hex_of : Bytes → Bytes
hex_of [] = []
hex_of (x ∷ b) = get_or hex_table (x / 16) 0 ∷ get_or hex_table (bit_and x 15) 0 ∷ hex_of b

-- `chunks_exact(4)`
unfoldable pub load_exec_funcs : Bytes → List ℕ
load_exec_funcs (x ∷ y ∷ z ∷ w ∷ b) = from_le (x ∷ y ∷ z ∷ w ∷ []) ∷ load_exec_funcs b
load_exec_funcs _ = []

-- `Chain`, as far as the verdict reads it
pub record Chain : Type 0 where
  pub has_sink_records : Bool
  pub proven_causality : Bool
  pub proven_value : Bool
  pub reasons : List Bytes

unfoldable pub verdict : Chain → Bytes
verdict c =
    if c.proven_causality
    then codes "proven-causality"
    else if c.proven_value
    then codes "proven-value"
    else elim c.reasons [
      | _ ∷ _ ↦ codes "unavailable"
      | [] ↦ if c.has_sink_records then codes "evidence-only" else codes "dead-end-proven"
    ]

-- `VOrigin::src_name`
unfoldable pub src_name : ℕ → Bytes
src_name src = if src == 0 then codes "acc" else if src == 1 then codes "reg" else codes "cp"
