-- ===== src/Classify/Keep.antt =====
-- Which lines of a timeline, and which artifacts, src/classify.rs keeps.
pub mod Modes
pub mod Keys
pub mod Accounts
use afeye.Prelude.{
  lookup, modify, ℕ, zero, suc, ◌+◌, ◌*◌, Bool, true, false, not, ◌&&◌, ◌||◌, Option, some, none,
  List, [], ◌∷◌, ◌++◌, Bytes, bytes_eq, one_of, starts_with, length, drop, codes, String, ltb, leb,
  ◌==◌, if◌then◌else◌,
}
use afeye.Ctx.{host_of, split_at}
use afeye.Ctx.Vendors.{vendor_of_url}
use afeye.Classify.{Mode, main, strict, keep_prefixes, blacklisted, fnv32, res_sniff_ok}
use afeye.Classify.Json.{Value, Values, get, item, as_str, as_u64, as_array, or_text, or_number}
use afeye.Classify.State.{ReqInfo, Ep, SiteState, ep_key, field_text, is_empty, verdict_of}
use afeye.Classify.Verdict.{has_text}

-- `mode == Mode::Strict`
abbrev pub is_strict : Mode → Bool
is_strict main = false
is_strict strict = true

abbrev pub starts_with_any : Bytes → List String → Bool
starts_with_any b [] = false
starts_with_any b (p ∷ ps) = starts_with b (codes p) || starts_with_any b ps

abbrev pub verdict_at : Option Ep → ℕ
verdict_at none = 0
verdict_at (some e) = verdict_of e

-- `verdict_of_url`
unfoldable pub verdict_of_url : SiteState → Bytes → ℕ
unfolding lookup ep_key
verdict_of_url st url = verdict_at (lookup (ep_key url) st.ep)

-- `vd == 1` in strict mode, `vd != 2` in main mode
abbrev pub wanted : Mode → ℕ → Bool
wanted main vd = not (vd == 2)
wanted strict vd = vd == 1

abbrev pub is_some : Option Bytes → Bool
is_some none = false
is_some (some s) = true

-- a line of the page
unfoldable pub page_keep : Option Bytes → SiteState → Mode → Bytes → Bool
unfolding verdict_of_url
page_keep u st mode kk =
    if starts_with_any kk keep_prefixes
    then true
    else if bytes_eq kk (codes "net:send")
    then elim u [
      | none ↦ false
      | some url ↦ if is_empty url then false else wanted mode (verdict_of_url st url)
    ]
    else false

-- the url of a `net:send`, where `v` is an array
abbrev pub send_url : Option Values → Option Bytes
send_url none = none
send_url (some arr) = some (or_text (as_str (item arr 0)) [])

-- `rid_ep.get(rid)`: the verdict of the endpoint of a request, as it was before the lines are read
abbrev pub verdict_of_rid : SiteState → Bytes → ℕ
verdict_of_rid st rid = elim (lookup rid st.req) [ none ↦ 0 | some r ↦ verdict_of_url st r.url ]

-- kind 6
unfoldable pub socket_keep : SiteState → Mode → Bytes → Bool
unfolding lookup blacklisted host_of vendor_of_url verdict_of_url
socket_keep st mode rid = elim (lookup rid st.ws_url) [
  | none ↦ true
  | some u ↦
      if is_strict mode
      then (not (blacklisted (host_of u)) && not (is_some (vendor_of_url u)))
        || not (verdict_of_url st u == 2)
      else not (blacklisted (host_of u))
]

-- a line of the browser, by its kind
unfoldable pub event_keep : SiteState → List Bytes → (Bytes → ℕ) → Mode → ℕ → Value → Bool
unfolding socket_keep
event_keep st tainted rid_ep mode k d =
    let u = field_text "u" d in
    if leb 1 k && leb k 5
    then wanted mode (rid_ep (field_text "rid" d))
    else if k == 6
    then socket_keep st mode (field_text "rid" d)
    else if k == 7 || k == 8
    then (if is_strict mode
        then has_text u tainted || is_some (vendor_of_url u)
        else not (blacklisted (host_of u)))
    else if k == 12
    then (if is_strict mode then has_text u tainted else not (blacklisted (host_of u)))
    else if (k == 10 || k == 11) || (k == 13 || (k == 14 || k == 15))
    then not (is_strict mode)
    else false

unfoldable pub line_keep : SiteState → List Bytes → (Bytes → ℕ) → Mode → Value → Bool
unfolding page_keep event_keep
line_keep st tainted rid_ep mode v = elim (as_str (get "kk" v)) [
  | some kk ↦ page_keep (send_url (as_array (get "v" v))) st mode kk
  | none ↦ elim (get "d" v) [
    | none ↦ false
    | some d ↦ event_keep st tainted rid_ep mode (or_number (as_u64 (get "k" v)) 0) d
  ]
]

-- the endpoint, the hash of the method and the hash of the body of a `net:send`
abbrev pub SendKey : Type 0
SendKey = Bytes × ℕ × ℕ

abbrev pub key_eq : SendKey → SendKey → Bool
key_eq (a, b, c) (x, y, z) = bytes_eq a x && (b == y && c == z)

abbrev pub has_key : SendKey → List SendKey → Bool
has_key k [] = false
has_key k (j ∷ js) = key_eq j k || has_key k js

-- `print` is `to_string` of a value.
abbrev pub body_hash : (Value → Bytes) → Option Value → ℕ
body_hash print none = 0
body_hash print (some (Value.text s)) = fnv32 s
body_hash print (some v) = fnv32 (print v)

-- the key of a line, where it is a `net:send`
unfoldable pub send_key : (Value → Bytes) → Value → Option SendKey
unfolding ep_key fnv32
send_key print v = elim (as_str (get "kk" v)) [
  | none ↦ none
  | some kk ↦
      if bytes_eq kk (codes "net:send")
      then elim (as_array (get "v" v)) [
        | none ↦ none
        | some arr ↦ some (
          ep_key (or_text (as_str (item arr 0)) []),
          fnv32 (or_text (as_str (item arr 1)) (codes "GET")),
          body_hash print (item arr 2),
        )
      ]
      else none
]

-- the hash of the artifact that a line names
abbrev pub hash_of : Value → Option Bytes
hash_of v = elim (get "d" v) [
  | none ↦ none
  | some d ↦ elim (as_str (get "a" d)) [
    | none ↦ none
    | some a ↦ if is_empty a then none else some a
  ]
]

-- What `filter_file` has so far: the lines that it wrote, the keys of the sends, the artifacts to
-- keep, the duplicates, and the endpoints.
pub record Filtered : Type 0 where
  pub kept : List Bytes
  pub seen : List SendKey
  pub hashes : List Bytes
  pub dup : ℕ
  pub ep : List (Bytes × Ep)

abbrev pub add_hash : Option Bytes → List Bytes → List Bytes
add_hash none hs = hs
add_hash (some a) hs = a ∷ hs

-- A line that is written.
unfoldable pub write_line : Bytes → Value → Filtered → Filtered
write_line line v f = record f {
  kept = f.kept ++ (line ∷ []);
  hashes = add_hash (hash_of v) f.hashes;
}

-- A send that was seen is counted at its endpoint, and not written.
unfoldable pub drop_send : SendKey → Filtered → Filtered
unfolding modify
drop_send k f = record f {
  dup = f.dup + 1;
  ep = modify (k.0) (λ e. record e { dup = e.dup + 1 }) f.ep;
}

unfoldable pub filter_send : Bytes → Value → Option SendKey → Filtered → Filtered
unfolding write_line drop_send
filter_send line v none f = write_line line v f
filter_send line v (some k) f =
    if has_key k f.seen
    then drop_send k f
    else write_line line v (record f { seen = f.seen ++ (k ∷ []) })

-- the body of the loop of `filter_file`; the verdicts do not change while it runs
unfoldable pub filter_line :
    (Bytes → Option Value)
    → (Value → Bytes)
    → SiteState
    → List Bytes
    → Mode
    → Bytes
    → Filtered
    → Filtered
unfolding line_keep filter_send send_key
filter_line parse print st tainted mode line f = elim (parse line) [
  | none ↦ f
  | some v ↦
      if line_keep st tainted (verdict_of_rid st) mode v
      then filter_send line v (send_key print v) f
      else f
]

unfoldable pub filter_file :
    (Bytes → Option Value)
    → (Value → Bytes)
    → SiteState
    → List Bytes
    → Mode
    → List Bytes
    → Filtered
    → Filtered
unfolding filter_line
filter_file parse print st tainted mode [] f = f
filter_file parse print st tainted mode (line ∷ lines) f =
    filter_file parse print st tainted mode lines (filter_line parse print st tainted mode line f)

-- The verdict on an artifact: that of its endpoint, whether it is on the blacklist, and the family
-- of its type.
pub record ArtVerdict : Type 0 where
  pub vd : ℕ
  pub bl : Bool
  pub fam : ℕ

-- `hash_verdict.entry(h)`: an artifact of several sites
unfoldable pub merge : ArtVerdict → Option ArtVerdict → ArtVerdict
merge a none = a
merge a (some e) = record {
  vd = if e.vd == 2 && not (a.vd == 2) then a.vd else e.vd;
  bl = e.bl && a.bl;
  fam = e.fam;
}

-- `remove`, for an artifact that no line names; `head` is its first 4096 bytes.
unfoldable pub is_removed : (Bytes → Bytes) → Mode → Bytes → Option ArtVerdict → Bool
unfolding res_sniff_ok
is_removed lossy mode head none = is_strict mode
is_removed lossy mode head (some a) =
    if a.vd == 2
    then (if a.bl then true else if is_strict mode then true else res_sniff_ok lossy head a.fam)
    else if a.vd == 1
    then false
    else is_strict mode
