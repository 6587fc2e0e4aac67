-- ===== src/Classify/Tests.antt =====
-- Concrete inputs of src/classify.rs, some of them those of its own tests, and its theorems at
-- concrete inputs.
use afeye.Prelude.{
  Returns, lookup, ℕ, ◌+◌, ◌≡◌, refl, inl, Bool, true, false, not, ◌&&◌, if◌then◌else◌, Option,
  some, none, List, [], ◌∷◌, Bytes, codes, take, min, length, done, arith, ◌==◌,
}
use afeye.Ctx.{
  host_of, endpoint_of, hostport_of, through_path, split_at, until, split_last, without_port,
}
use afeye.Ctx.Vendors.{vendor_of_url, vendor_in, is_under}
use afeye.Classify.{
  main, strict, fnv32, fnv_from, fnv_step, body_taint_hits, blacklisted, any_under, binary_magic,
  riff, strip_ln, strip_once,
}
use afeye.Classify.Taint.{tokens, count_hits, body_taint_hits-count_hits}
use afeye.Classify.Stack.{first_stack_url, stack_loop, parse_cdp_stack, cdp_parts, split_on}
use afeye.Classify.Json.{Value, Values, Members}
use afeye.Classify.State.Returns.{collect_site_total}
use afeye.Classify.State.Sums.{Fits, Summed, lines_tn}
use afeye.Classify.State.{collect_site, SiteState, new_site, ep_key}
use afeye.Classify.Verdict.{Files, verdict_site}
use afeye.Classify.Verdict.Blacklist.{HasVerdict, verdict_site-blacklist}
use afeye.Classify.Keep.{line_keep, event_keep, socket_keep, verdict_of_url, has_key, filter_file}
use afeye.Classify.Keep.Modes.{only_strict, line_keep-only_strict}
use afeye.Classify.Keep.Keys.{IsDistinct, keys_of, admitted}
use afeye.Classify.Keep.Accounts.{filter_file-IsDistinct}

fnv_vector : fnv32 (codes "foobar") ≡ 0xbf9cf968
unfolding fnv32 fnv_from fnv_step
fnv_vector = refl

abbrev stack_text : Bytes
stack_text = codes "Error at f (https://a.example/x.js:1:1)"

stack_url : first_stack_url stack_text ≡ done (some (codes "https://a.example/x.js"))
unfolding first_stack_url stack_loop split_at until strip_ln strip_once split_last
stack_url = refl

cdp_stack :
    parse_cdp_stack (codes "f@https://a.example/x.js:3:17;native")
    ≡ codes "https://a.example/x.js" ∷ []
unfolding parse_cdp_stack cdp_parts split_on strip_ln strip_once split_last
cdp_stack = refl

blacklist_hosts :
    (blacklisted (codes "www.youtube.com") ≡ true)
    × (blacklisted (codes "challenges.cloudflare.com") ≡ false)
unfolding blacklisted any_under is_under
blacklist_hosts = (refl, refl)

sniff_wasm : binary_magic (0 ∷ 0x61 ∷ 0x73 ∷ 0x6d ∷ 1 ∷ 0 ∷ 0 ∷ 0 ∷ []) ≡ 0
unfolding binary_magic riff
sniff_wasm = refl

abbrev body : Bytes
body = codes "{ua:Mozilla (X11),r:0.5}"

abbrev some_taint : ℕ → Bool
some_taint n = n == 0xd4519f2f

body_taint_hits-count_hits_example :
    body_taint_hits body some_taint
    ≡ count_hits some_taint (tokens [] (take (min (length body) 4096) body))
body_taint_hits-count_hits_example = body_taint_hits-count_hits body some_taint

abbrev no_files : Files
no_files = record {
  head = λ _. none;
  post = λ _. none;
  entropy = λ _. none;
  format = λ _. [];
  lossy = λ b. b;
}

abbrev listed_url : Bytes
listed_url = codes "https://sentry.io/x"

abbrev listed_site : SiteState
listed_site = record new_site {
  req =
      (
        codes "1",
        record {
          url = listed_url;
          method = codes "GET";
          ty = none;
          stk = [];
          post_hash = none;
          setcookie = none;
        },
      )
      ∷ [];
  ws_url = (codes "2", listed_url) ∷ [];
}

listed_host : blacklisted (host_of listed_url) ≡ true
unfolding blacklisted any_under is_under host_of hostport_of split_at until split_last without_port
listed_host = refl

listed_key : ep_key listed_url ≡ listed_url
unfolding ep_key endpoint_of through_path host_of hostport_of split_at until split_last without_port
listed_key = refl

verdict_site-blacklist_example :
    HasVerdict 2 (lookup listed_url (verdict_site no_files none [] listed_site).ep)
unfolding lookup
verdict_site-blacklist_example =
    verdict_site-blacklist no_files none [] listed_site listed_url tt
      ((λ _ _. rw listed_host refl), tt) (inl (refl, listed_key))

-- {"k":6,"d":{"rid":"2"}}
abbrev socket_line : Value
socket_line = Value.object (
    Members.field (codes "k") (Value.unsigned 6) (
      Members.field (codes "d")
        (Value.object (Members.field (codes "rid") (Value.text (codes "2")) Members.end))
        Members.end))

socket_line_kept : line_keep listed_site [] (λ _. 0) strict socket_line ≡ true
unfolding line_keep event_keep socket_keep lookup blacklisted any_under is_under host_of hostport_of
    split_at until split_last without_port vendor_of_url vendor_in verdict_of_url ep_key endpoint_of
    through_path
socket_line_kept = refl

line_keep-only_strict_example :
    (line_keep listed_site [] (λ _. 0) strict socket_line
      && not (line_keep listed_site [] (λ _. 0) main socket_line))
    ≡ only_strict listed_site [] socket_line
line_keep-only_strict_example = line_keep-only_strict listed_site [] (λ _. 0) socket_line

-- ["https://sentry.io/x"] of a `net:send`
abbrev send_line : Value
send_line = Value.object (
    Members.field (codes "kk") (Value.text (codes "net:send")) (
      Members.field (codes "v") (Value.array (Values.cons (Value.text listed_url) Values.nil))
        Members.end))

abbrev parse_send : Bytes → Option Value
parse_send [] = none
parse_send (c ∷ b) = some send_line

-- two equal sends
abbrev two_sends : List Bytes
two_sends = codes "a" ∷ codes "b" ∷ []

filter_file-IsDistinct_example :
    let g =
      filter_file parse_send
        (λ _. [])
        listed_site
        []
        main
        two_sends
        (record { kept = []; seen = []; hashes = []; dup = 0; ep = listed_site.ep }) in
    let ls = admitted parse_send listed_site [] main two_sends in
    IsDistinct (keys_of parse_send (λ _. []) g.kept)
    × (length g.kept + g.dup ≡ length ls)
    × ((k : _)
        → has_key k (keys_of parse_send (λ _. []) g.kept)
          ≡ has_key k (keys_of parse_send (λ _. []) ls))
filter_file-IsDistinct_example =
    filter_file-IsDistinct parse_send (λ _. []) listed_site [] main two_sends

-- the stack of a call
abbrev stack_line : Value
stack_line = Value.object (
    Members.field (codes "kk") (Value.text (codes "stk:toBlob")) (
      Members.field (codes "v") (Value.array (Values.cons (Value.text stack_text) Values.nil))
        Members.end))

-- ["https://sentry.io/x", "POST", null, null, 7] of a `net:send`
abbrev tn_line : Value
tn_line =
    let arr : Values = Values.cons (Value.text listed_url) (
      Values.cons (Value.text (codes "POST")) (
        Values.cons Value.null
          (Values.cons Value.null (Values.cons (Value.unsigned 7) Values.nil)))) in
    Value.object (
      Members.field (codes "kk") (Value.text (codes "net:send"))
        (Members.field (codes "v") (Value.array arr) Members.end))

-- one line of each of three kinds, by its first byte
abbrev parse_line : Bytes → Option Value
parse_line [] = none
parse_line (c ∷ b) =
    if c == 97 then some stack_line else if c == 98 then some tn_line else some socket_line

abbrev four_lines : List Bytes
four_lines = codes "a" ∷ codes "b" ∷ codes "c" ∷ codes "b" ∷ []

four_lines-Fits : Fits (lines_tn parse_line four_lines) new_site
unfolding lookup
four_lines-Fits k = ground arith

collect_site_total_example :
    Returns
      (Summed (lines_tn parse_line four_lines) new_site)
      (collect_site parse_line four_lines new_site)
collect_site_total_example = collect_site_total parse_line four_lines new_site tt four_lines-Fits
