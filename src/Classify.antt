-- ===== src/Classify.antt =====
-- The classifier of src/classify.rs: its tables, and its tests on bytes and urls. A text is its
-- bytes.
mod Tables
pub mod Json
pub mod Taint
pub mod Stack
pub mod State
pub mod Verdict
pub mod Keep
mod Tests
pub use Tables.*
use afeye.Prelude.{
  contains_any, lower, ℕ, zero, suc, ◌+◌, ◌-◌, ◌*◌, ◌/◌, ◌%◌, ◌^◌, min, Bool, true, false, not,
  ◌&&◌, ◌||◌, Option, some, none, List, [], ◌∷◌, ◌++◌, map, String, Bytes, bytes_eq, one_of,
  starts_with, contains, length, get_or, take, drop, codes, ltb, leb, ◌==◌, if◌then◌else◌, bit_and,
  bit_xor,
}
use afeye.Ctx.{split_at, split_last, host_of}
use afeye.Ctx.Vendors.{is_under}

unfoldable pub res_family : Bytes → ℕ
res_family ty =
    if one_of ty ("Image" ∷ "Favicon" ∷ [])
    then 1
    else if one_of ty ("Media" ∷ [])
    then 2
    else if one_of ty ("Font" ∷ [])
    then 3
    else if one_of ty ("Stylesheet" ∷ "Manifest" ∷ [])
    then 4
    else 0

-- `&b[0..4] == b"RIFF" && &b[8..12] == kind`, behind the test of the length
unfoldable pub riff : Bytes → String → Bool
riff b kind =
    ltb 12 (length b) && (starts_with b (codes "RIFF") && starts_with (drop 8 b) (codes kind))

unfoldable pub binary_magic : Bytes → ℕ
unfolding riff
binary_magic b =
    if starts_with b (0x89 ∷ codes "PNG")
      || (starts_with b (0xFF ∷ 0xD8 ∷ 0xFF ∷ [])
          || (starts_with b (codes "GIF8")
              || (starts_with b (codes "BM")
                  || (riff b "WEBP" || starts_with b (0 ∷ 0 ∷ 1 ∷ 0 ∷ [])))))
    then 1
    else if starts_with b (codes "ID3")
        || ((ltb 2 (length b) && (get_or b 0 0 == 0xFF && bit_and (get_or b 1 0) 0xE0 == 0xE0))
            || (starts_with b (codes "OggS")
                || (starts_with b (codes "fLaC")
                    || (riff b "WAVE"
                        || (riff b "AVI "
                            || (ltb 12 (length b) && starts_with (drop 4 b) (codes "ftyp")))))))
    then 2
    else if starts_with b (codes "wOFF")
        || (starts_with b (codes "wOF2")
            || (starts_with b (codes "OTTO") || starts_with b (0 ∷ 1 ∷ 0 ∷ 0 ∷ [])))
    then 3
    else 0

unfoldable pub is_text_byte : ℕ → Bool
is_text_byte c = (leb 32 c && ltb c 127) || (c == 10 || (c == 13 || (c == 9 || leb 0x80 c)))

unfoldable pub count_text : Bytes → ℕ
unfolding is_text_byte
count_text [] = 0
count_text (c ∷ b) = (if is_text_byte c then 1 else 0) + count_text b

unfoldable pub textish : Bytes → Bool
unfolding count_text
textish b =
    let n = min (length b) 4096 in
    if n == 0 then false else leb 90 (count_text (take n b) * 100 / n)

abbrev pub js_words : List String
js_words =
    "function" ∷ "=>" ∷ "eval(" ∷ "document." ∷ "window." ∷ "atob(" ∷ "fromcharcode"
    ∷ "new function" ∷ []

-- `lossy` is `String::from_utf8_lossy`.
unfoldable pub js_like : (Bytes → Bytes) → Bytes → Bool
js_like lossy b = contains_any (lower (lossy (take (min (length b) 4096) b))) js_words

unfoldable pub res_sniff_ok : (Bytes → Bytes) → Bytes → ℕ → Bool
unfolding binary_magic textish js_like
res_sniff_ok lossy [] fam = true
res_sniff_ok lossy (c ∷ b) fam =
    if leb 1 fam && leb fam 3
    then binary_magic (c ∷ b) == fam
    else if fam == 4
    then textish (c ∷ b) && not (js_like lossy (c ∷ b))
    else true

abbrev pub delimiters : Bytes
delimiters = 34 ∷ 39 ∷ codes ",:;=&{}[]()<>?/" ++ (92 ∷ codes "+|*#%")

abbrev pub member : ℕ → Bytes → Bool
member c [] = false
member c (d ∷ ds) = c == d || member c ds

unfoldable pub is_del : ℕ → Bool
is_del c = member c delimiters

-- one byte of the hash, `wrapping_mul`
unfoldable pub fnv_step : ℕ → ℕ → ℕ
fnv_step h c = bit_xor h c * 16777619 % 2 ^ 32

abbrev pub fnv_start : ℕ
fnv_start = 0x811c9dc5

unfoldable pub fnv_from : ℕ → Bytes → ℕ
unfolding fnv_step
fnv_from h [] = h
fnv_from h (c ∷ b) = fnv_from (fnv_step h c) b

unfoldable pub fnv32 : Bytes → ℕ
unfolding fnv_from
fnv32 b = fnv_from fnv_start b

-- a byte of a token
unfoldable pub is_token_byte : ℕ → Bool
unfolding is_del
is_token_byte c = ltb 32 c && (ltb c 127 && not (is_del c))

-- the loop of `body_taint_hits`: the hash, the length of the run and the hits so far
unfoldable pub taint_loop : (ℕ → Bool) → Bytes → ℕ → ℕ → ℕ → ℕ
unfolding is_token_byte fnv_step
taint_loop taint [] h run n = n
taint_loop taint (c ∷ b) h run n =
    let inside = taint_loop taint b (fnv_step h c) (run + 1) n in
    let behind = taint_loop taint b fnv_start 0 (if leb 3 run && taint h then n + 1 else n) in
    if is_token_byte c then inside else behind

-- `taint` tells the hashes of the set.
unfoldable pub body_taint_hits : Bytes → (ℕ → Bool) → ℕ
unfolding taint_loop
body_taint_hits b taint = taint_loop taint (take (min (length b) 4096) b ++ (32 ∷ [])) fnv_start 0 0

abbrev pub all_digits : Bytes → Bool
all_digits [] = true
all_digits (c ∷ b) = (leb 48 c && leb c 57) && all_digits b

-- one round of `strip_ln`; `none` for `break`
unfoldable pub strip_once : Bytes → Option Bytes
unfolding split_last
strip_once u = elim (split_last 58 u) [
  | none ↦ none
  | some (a, b) ↦ if not (length b == 0) && all_digits b then some a else none
]

unfoldable pub strip_ln : Bytes → Bytes
unfolding strip_once
strip_ln u = elim (strip_once u) [
  | none ↦ u
  | some a ↦ elim (strip_once a) [ none ↦ a | some b ↦ b ]
]

unfoldable pub any_under : Bytes → List String → Bool
unfolding is_under
any_under host [] = false
any_under host (s ∷ ss) = is_under host (codes s) || any_under host ss

unfoldable pub blacklisted : Bytes → Bool
unfolding any_under
blacklisted host = any_under host blacklist

unfoldable pub any_path : Bytes → Bytes → List (String × String) → Bool
any_path h rest [] = false
any_path h rest ((bh, bp) ∷ ps) =
    (bytes_eq h (codes bh) && starts_with rest (codes bp)) || any_path h rest ps

unfoldable pub blacklisted_path : Bytes → Bool
unfolding split_at any_path
blacklisted_path url = elim (split_at (codes "://") url) [
  | none ↦ false
  | some (scheme, p) ↦ elim (split_at (codes "/") p) [
    | none ↦ false
    | some (h, rest) ↦ any_path h (47 ∷ rest) blacklist_path
  ]
]

unfoldable pub tag_class : Bytes → ℕ
tag_class t =
    if one_of t strong then 2 else if starts_with t (codes "g:") || one_of t weak then 1 else 0

-- one round over the tags of a script: the strong and the weak ones
unfoldable pub count_tags : List Bytes → ℕ × ℕ
unfolding tag_class
count_tags [] = (0, 0)
count_tags (t ∷ ts) =
    let (s, w) = count_tags ts in
    if tag_class t == 2 then (s + 1, w) else if tag_class t == 1 then (s, w + 1) else (s, w)

-- `s >= 2 || (s >= 1 && w >= 5)`
unfoldable pub is_tainted : List Bytes → Bool
unfolding count_tags
is_tainted tags = let (s, w) = count_tags tags in leb 2 s || (leb 1 s && leb 5 w)

unfoldable pub strip_iso_prefix : Bytes → Bytes
unfolding split_at
strip_iso_prefix name =
    if starts_with name (codes "iso:")
    then (let rest = drop 4 name in
        elim (split_at (codes " ") rest) [ none ↦ rest | some (a, b) ↦ b ])
    else name

unfoldable pub first_party : Bytes → Bytes → Bool
unfolding is_under
first_party host site_host = is_under host site_host

unfoldable pub safe_seg : Bytes → Bytes
safe_seg s = map (λ c. if c == 47 || (c == 92 || c == 58) then 95 else c) s
