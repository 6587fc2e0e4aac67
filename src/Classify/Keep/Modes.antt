-- ===== src/Classify/Keep/Modes.antt =====
-- The two modes of src/classify.rs against one another.
use afeye.Prelude.{
  lookup, ℕ, ◌≡◌, ◌∙◌, refl, Bool, true, false, not, ◌&&◌, ◌||◌, inl, inr, Option, Option-cases,
  some, none, List, Bytes, bytes_eq, codes, leb, ◌==◌, if◌then◌else◌, arith,
}
use afeye.Ctx.{host_of}
use afeye.Ctx.Vendors.{vendor_of_url}
use afeye.Classify.{main, strict, blacklisted, keep_prefixes}
use afeye.Classify.Json.{Value, get, as_str, as_u64, as_array, or_number}
use afeye.Classify.State.{SiteState, field_text, is_empty}
use afeye.Classify.Verdict.{has_text}
use afeye.Classify.Keep.{
  line_keep, page_keep, event_keep, socket_keep, wanted, send_url, verdict_of_url, starts_with_any,
  is_some,
}

-- a host on the blacklist
abbrev pub is_listed : Bytes → Bool
is_listed u = blacklisted (host_of u)

-- a websocket of a host on the blacklist, whose endpoint is not garbage
abbrev pub is_listed_socket : SiteState → Option Bytes → Bool
is_listed_socket st none = false
is_listed_socket st (some u) = is_listed u && not (verdict_of_url st u == 2)

-- A line of the browser that only strict mode keeps, by its kind: a websocket; a script that is
-- tainted or of a vendor; an exception of a tainted script. The host is on the blacklist.
abbrev pub is_strict_only : SiteState → List Bytes → ℕ → Value → Bool
is_strict_only st tainted k d =
    let u = field_text "u" d in
    (k == 6 && is_listed_socket st (lookup (field_text "rid" d) st.ws_url))
    || (((k == 7 || k == 8) && (is_listed u && (has_text u tainted || is_some (vendor_of_url u))))
        || (k == 12 && (is_listed u && has_text u tainted)))

-- The lines of the page, with a text `kk`, and those without `d` are not among them.
abbrev pub only_strict : SiteState → List Bytes → Value → Bool
only_strict st tainted v = elim (as_str (get "kk" v)) [
  | some kk ↦ false
  | none ↦ elim (get "d" v) [
    | none ↦ false
    | some d ↦ is_strict_only st tainted (or_number (as_u64 (get "k" v)) 0) d
  ]
]

wanted_strict : (vd : ℕ) → wanted strict vd ≡ true → wanted main vd ≡ true
wanted_strict vd h = ground arith

-- The tests of `page_keep` one after the other, with the last of them weakened.
page_tests :
    (a b e x y : Bool)
    → (x ≡ true → y ≡ true)
    → (if a then true else if b then (if e then false else x) else false) ≡ true
    → (if a then true else if b then (if e then false else y) else false) ≡ true
page_tests true b e x y g h = refl
page_tests false true true x y g h = h
page_tests false true false x y g h = g h
page_tests false false e x y g h = h

page_keep_strict :
    (u : Option Bytes) (st : SiteState) (kk : Bytes)
    → page_keep u st strict kk ≡ true
    → page_keep u st main kk ≡ true
unfolding page_keep
page_keep_strict none st kk h = h
page_keep_strict (some url) st kk h =
    page_tests (starts_with_any kk keep_prefixes) (bytes_eq kk (codes "net:send")) (is_empty url)
      (wanted strict (verdict_of_url st url)) (wanted main (verdict_of_url st url))
      (wanted_strict (verdict_of_url st url)) h

and_not : (a b : Bool) → (a ≡ true → b ≡ true) → (a && not b) ≡ false
and_not a b h = ground arith

-- The tests of `event_keep` in the two modes, in the order of the code.
event_tests :
    (a b c d e x x' p p' s i t w : Bool)
    → (x ≡ true → x' ≡ true)
    → (a ≡ true → (b || (c || d)) ≡ false)
    → (b ≡ true → (c || d) ≡ false)
    → (c ≡ true → d ≡ false)
    → (p && not p') ≡ s
    → ((if a
          then x
          else if b
          then p
          else if c
          then t || w
          else if d
          then t
          else if e
          then false
          else false)
        && not (
            if a
            then x'
            else if b
            then p'
            else if c
            then not i
            else if d
            then not i
            else if e
            then true
            else false))
      ≡ ((b && s) || ((c && (i && (t || w))) || (d && (i && t))))
event_tests true true c d e x x' p p' s i t w g ha hb hc hp =
    let k : true ≡ false = ha refl in absurd (cc)
event_tests true false true d e x x' p p' s i t w g ha hb hc hp =
    let k : true ≡ false = ha refl in absurd (cc)
event_tests true false false true e x x' p p' s i t w g ha hb hc hp =
    let k : true ≡ false = ha refl in absurd (cc)
event_tests true false false false e x x' p p' s i t w g ha hb hc hp = and_not x x' g
event_tests false true true d e x x' p p' s i t w g ha hb hc hp =
    let k : true ≡ false = hb refl in absurd (cc)
event_tests false true false true e x x' p p' s i t w g ha hb hc hp =
    let k : true ≡ false = hb refl in absurd (cc)
event_tests false true false false e x x' p p' s i t w g ha hb hc hp = hp ∙ ground arith
event_tests false false true true e x x' p p' s i t w g ha hb hc hp =
    let k : true ≡ false = hc refl in absurd (cc)
event_tests false false true false e x x' p p' s i t w g ha hb hc hp = ground arith
event_tests false false false true e x x' p p' s i t w g ha hb hc hp = ground arith
event_tests false false false false true x x' p p' s i t w g ha hb hc hp = refl
event_tests false false false false false x x' p p' s i t w g ha hb hc hp = refl

socket_tests : (l v g : Bool) → (((not l && not v) || not g) && not (not l)) ≡ (l && not g)
socket_tests l v g = ground arith

socket_keep-differs :
    (st : SiteState) (rid : Bytes)
    → (socket_keep st strict rid && not (socket_keep st main rid))
      ≡ is_listed_socket st (lookup rid st.ws_url)
unfolding socket_keep
socket_keep-differs st rid = elim (Option-cases (lookup rid st.ws_url)) [
  | inl e ↦ rw (e, socket_keep) refl
  | inr (u, e) ↦
      rw (e, socket_keep)
        (socket_tests (is_listed u) (is_some (vendor_of_url u)) (verdict_of_url st u == 2))
]

event_keep-differs :
    (st : SiteState) (tainted : List Bytes) (rid_ep : Bytes → ℕ) (k : ℕ) (d : Value)
    → (event_keep st tainted rid_ep strict k d && not (event_keep st tainted rid_ep main k d))
      ≡ is_strict_only st tainted k d
unfolding event_keep
event_keep-differs st tainted rid_ep k d =
    let u = field_text "u" d in
    let rid = field_text "rid" d in
    event_tests (leb 1 k && leb k 5) (k == 6) (k == 7 || k == 8) (k == 12)
      ((k == 10 || k == 11) || (k == 13 || (k == 14 || k == 15))) (wanted strict (rid_ep rid))
      (wanted main (rid_ep rid)) (socket_keep st strict rid) (socket_keep st main rid)
      (is_listed_socket st (lookup rid st.ws_url)) (is_listed u) (has_text u tainted)
      (is_some (vendor_of_url u)) (wanted_strict (rid_ep rid)) (λ h. ground arith)
      (λ h. ground arith) (λ h. ground arith) (socket_keep-differs st rid)

-- Strict mode keeps a line that main mode drops exactly when it is a line of the browser whose
-- host is on the blacklist: about a websocket whose endpoint is not garbage, about a script
-- (kinds 7 and 8) that is tainted or of a vendor, or about an exception (kind 12) of a tainted
-- script. Every other line that strict mode keeps, main mode keeps.
pub line_keep-only_strict :
    (st : SiteState) (tainted : List Bytes) (rid_ep : Bytes → ℕ) (v : Value)
    → (line_keep st tainted rid_ep strict v && not (line_keep st tainted rid_ep main v))
      ≡ only_strict st tainted v
unfolding line_keep
line_keep-only_strict st tainted rid_ep v = elim (Option-cases (as_str (get "kk" v))) [
  | inr (kk, e) ↦
      rw (e, line_keep, only_strict)
        (and_not (page_keep (send_url (as_array (get "v" v))) st strict kk)
          (page_keep (send_url (as_array (get "v" v))) st main kk)
          (page_keep_strict (send_url (as_array (get "v" v))) st kk))
  | inl e ↦ elim (Option-cases (get "d" v)) [
    | inl f ↦ rw (e, f, line_keep, only_strict) refl
    | inr (d, f) ↦
        rw (e, f, line_keep, only_strict)
          (event_keep-differs st tainted rid_ep (or_number (as_u64 (get "k" v)) 0) d)
  ]
]
