-- ===== src/Classify/Json.antt =====
-- What src/classify.rs uses of the `serde_json` library, a parsed `Value` whose objects keep a key
-- once.
use afeye.Prelude.{
  ℕ, zero, suc, Bool, Option, some, none, Bytes, bytes_eq, codes, String, if◌then◌else◌,
}

mutual
  pub data Value : Type 0 where
    null : Value
    boolean : Bool → Value
    -- a number that `as_u64` reads, and any other
    unsigned : ℕ → Value
    other_number : Bytes → Value
    text : Bytes → Value
    array : Values → Value
    object : Members → Value

  pub data Values : Type 0 where
    nil : Values
    cons : Value → Values → Values

  pub data Members : Type 0 where
    end : Members
    field : Bytes → Value → Members → Members

abbrev pub member_of : Bytes → Members → Option Value
member_of k end = none
member_of k (field j v ms) = if bytes_eq j k then some v else member_of k ms

-- `get`, `as_str`, `as_u64`, `as_array`
abbrev pub get : String → Value → Option Value
get k (object ms) = member_of (codes k) ms
get k v = none

abbrev pub as_str : Option Value → Option Bytes
as_str (some (text s)) = some s
as_str v = none

abbrev pub as_u64 : Option Value → Option ℕ
as_u64 (some (unsigned n)) = some n
as_u64 v = none

abbrev pub as_array : Option Value → Option Values
as_array (some (array vs)) = some vs
as_array v = none

-- `arr.get(i)`, and `arr.first()` at 0
abbrev pub item : Values → ℕ → Option Value
item nil i = none
item (cons v vs) zero = some v
item (cons v vs) (suc i) = item vs i

-- `unwrap_or`
abbrev pub or_text : Option Bytes → Bytes → Bytes
or_text none d = d
or_text (some s) d = s

abbrev pub or_number : Option ℕ → ℕ → ℕ
or_number none d = d
or_number (some n) d = n
