-- ===== src/Classify/Verdict.antt =====
-- The verdicts on the endpoints of a site in src/classify.rs.
pub mod Blacklist
use afeye.Prelude.{
  lookup, lower, modify, ℕ, zero, suc, ◌+◌, ◌*◌, Bool, true, false, not, ◌&&◌, ◌||◌, Option, some,
  none, List, [], ◌∷◌, ◌++◌, Bytes, bytes_eq, one_of, contains, length, codes, String, ltb, leb,
  ◌==◌, if◌then◌else◌,
}
use afeye.Ctx.{host_of}
use afeye.Ctx.Vendors.{vendor_of_url}
use afeye.Classify.{
  res_types, res_family, res_sniff_ok, cookie_sigs, blacklisted, blacklisted_path, first_party,
  is_tainted, strip_iso_prefix, body_taint_hits,
}
use afeye.Classify.Json.{Value, Values, get, as_str, as_array, or_text}
use afeye.Classify.State.{ReqInfo, Ep, SiteState, ep_key, touch, is_empty, add_text}

abbrev pub has_text : Bytes → List Bytes → Bool
has_text s [] = false
has_text s (t ∷ ts) = bytes_eq t s || has_text s ts

abbrev pub has_number : ℕ → List ℕ → Bool
has_number n [] = false
has_number n (m ∷ ms) = m == n || has_number n ms

-- the urls of `tainted_scripts`
unfoldable pub tainted_urls : List (Bytes × List Bytes) → List Bytes
unfolding is_tainted
tainted_urls [] = []
tainted_urls ((u, tags) ∷ m) = if is_tainted tags then u ∷ tainted_urls m else tainted_urls m

-- `proven_scripts`, the loop over the chains of the report
unfoldable pub proven_names : Values → List Bytes
unfolding strip_iso_prefix
proven_names Values.nil = []
proven_names (Values.cons ch chains) =
    let rest = proven_names chains in
    let verdict = or_text (as_str (get "verdict" ch)) [] in
    if one_of verdict ("proven-causality" ∷ "proven-value" ∷ [])
    then elim (as_str (get "name" ch)) [
      | none ↦ rest
      | some name ↦ if ltb 10 (length name) then add_text (strip_iso_prefix name) rest else rest
    ]
    else rest

unfoldable pub proven_scripts : Option Value → List Bytes
unfolding proven_names
proven_scripts none = []
proven_scripts (some v) = elim (as_array (get "chains" v)) [
  | none ↦ []
  | some chains ↦ proven_names chains
]

-- The files that `verdict_site` reads, and the entropy that it computes in floating-point numbers.
-- `head` is the start of the artifact with a hash, where there is one; `post` the body of a
-- request; `entropy` the text of a value above 6.5; `format` writes a number.
pub record Files : Type 0 where
  pub head : Bytes → Option Bytes
  pub post : Bytes → Option Bytes
  pub entropy : Bytes → Option Bytes
  pub format : ℕ → Bytes
  pub lossy : Bytes → Bytes

abbrev pub add_af : Bytes → Ep → Ep
add_af why e = record e { af = e.af ++ (why ∷ []) }

abbrev pub add_garbage : Bytes → Ep → Ep
add_garbage why e = record e { garbage = e.garbage ++ (why ∷ []) }

-- `push_once` on an endpoint
abbrev pub add_once : Bytes → Ep → Ep
add_once why e = if has_text why e.af then e else add_af why e

-- the vendor of a request to another party
unfoldable pub vendor_step : Bytes → Bytes → Ep → Ep
unfolding vendor_of_url first_party host_of
vendor_step url site_host e = elim (vendor_of_url url) [
  | none ↦ e
  | some v ↦
      if first_party (host_of url) site_host
      then e
      else record e { vendor = some v; af = e.af ++ ((codes "vendor:" ++ v) ∷ []) }
]

abbrev pub any_tainted : List Bytes → List Bytes → Bool
any_tainted [] tainted = false
any_tainted (u ∷ stk) tainted = has_text u tainted || any_tainted stk tainted

abbrev pub is_text_eq : Option Bytes → String → Bool
is_text_eq none s = false
is_text_eq (some t) s = bytes_eq t (codes s)

-- a script on the stack of a request that loads no document
unfoldable pub stack_step : ReqInfo → List Bytes → Ep → Ep
stack_step r tainted e =
    if not (is_text_eq r.ty "Document") && any_tainted r.stk tainted
    then add_af (codes "taint-script") e
    else e

-- `masked`: the artifact is not what the type of the request says.
unfoldable pub is_masked : Files → Option Bytes → ℕ → Bool
unfolding res_sniff_ok
is_masked fs none fam = false
is_masked fs (some h) fam = elim (fs.head h) [
  | none ↦ false
  | some b ↦ not (is_empty b) && not (res_sniff_ok fs.lossy b fam)
]

unfoldable pub type_step : Files → Option Bytes → Option Bytes → Ep → Ep
unfolding is_masked res_family
type_step fs art none e = e
type_step fs art (some ty) e =
    if one_of ty res_types
    then (if is_masked fs art (res_family ty)
        then add_af (codes "masked:" ++ ty) e
        else add_garbage (codes "res:" ++ ty) e)
    else e

unfoldable pub cookie_step : Bytes → List String → Ep → Ep
cookie_step low [] e = e
cookie_step low (sig ∷ sigs) e =
    cookie_step low sigs
      (if contains low (codes sig) then add_once (codes "cookie:" ++ codes sig) e else e)

unfoldable pub post_step : Files → List ℕ → Option Bytes → Ep → Ep
unfolding body_taint_hits
post_step fs taint none e = e
post_step fs taint (some h) e = elim (fs.post h) [
  | none ↦ e
  | some b ↦
      let hits = body_taint_hits b (λ n. has_number n taint) in
      let e' = if ltb 0 hits then add_af (codes "taint-body:" ++ fs.format hits) e else e in
      let full : Ep = elim (fs.entropy b) [
        | none ↦ e'
        | some en ↦ add_af (codes "entropy:" ++ en) e'
      ] in
      if leb 64 (length b) && leb (length b) (512 * 1024) then full else e
]

-- what a request that is not blacklisted adds to its endpoint
unfoldable pub evidence : Files → List ℕ → List Bytes → Bytes → Option Bytes → ReqInfo → Ep → Ep
unfolding vendor_step stack_step type_step cookie_step post_step
evidence fs taint tainted site_host art r e = post_step fs taint r.post_hash (
    elim r.setcookie as (λ _. Ep → Ep) [
      | none ↦ λ x. x
      | some sc ↦ cookie_step (lower sc) cookie_sigs
    ]
      (type_step fs art r.ty (stack_step r tainted (vendor_step r.url site_host e))))

-- The artifact of a request: the first of `art_bodies`.
unfoldable pub art_of : Bytes → List (Bytes × Bytes) → Option Bytes
art_of rid [] = none
art_of rid ((a, r) ∷ m) = if bytes_eq r rid then some a else art_of rid m

-- the body of the loop of `verdict_site` over the requests
unfoldable pub verdict_req :
    Files → List Bytes → Bytes → SiteState → Bytes × ReqInfo → List (Bytes × Ep) → List (Bytes × Ep)
unfolding evidence touch modify art_of blacklisted blacklisted_path ep_key host_of
verdict_req fs tainted site_host st (rid, r) ep =
    let ep' = touch r.url r.method ep in
    let step : Ep → Ep =
      if blacklisted (host_of r.url) || blacklisted_path r.url
      then add_garbage (codes "blacklist")
      else evidence fs st.taint tainted site_host (art_of rid st.art_bodies) r in
    if is_empty r.url then ep else modify (ep_key r.url) step ep'

unfoldable pub verdict_reqs :
    Files
    → List Bytes
    → Bytes
    → SiteState
    → List (Bytes × ReqInfo)
    → List (Bytes × Ep)
    → List (Bytes × Ep)
unfolding verdict_req
verdict_reqs fs tainted site_host st [] ep = ep
verdict_reqs fs tainted site_host st (r ∷ rs) ep =
    verdict_reqs fs tainted site_host st rs (verdict_req fs tainted site_host st r ep)

abbrev pub is_blacklisted : Ep → Bool
is_blacklisted e = has_text (codes "blacklist") e.garbage

-- the loop over `tn_sum`
unfoldable pub add_tn : (ℕ → Bytes) → List (Bytes × ℕ) → List (Bytes × Ep) → List (Bytes × Ep)
unfolding modify
add_tn format [] ep = ep
add_tn format ((k, tn) ∷ m) ep = add_tn format m (
    if ltb 0 tn
    then modify k (λ e. if is_blacklisted e then e else add_af (codes "tn:" ++ format tn) e) ep
    else ep)

-- the last loop
abbrev pub settle_by : List Bytes → Ep → Ep
settle_by [] e = e
settle_by (why ∷ af) e = if is_blacklisted e then e else record e { garbage = [] }

abbrev pub settle : Ep → Ep
settle e = settle_by e.af e

abbrev pub settle_all : List (Bytes × Ep) → List (Bytes × Ep)
settle_all [] = []
settle_all ((k, e) ∷ ep) = (k, settle e) ∷ settle_all ep

-- `report` is the parsed report of the sink filter.
unfoldable pub verdict_site : Files → Option Value → Bytes → SiteState → SiteState
unfolding tainted_urls proven_scripts verdict_reqs add_tn
verdict_site fs report site_host st =
    let tainted = tainted_urls st.script_tags ++ proven_scripts report in
    record st {
      ep =
          settle_all
            (add_tn fs.format st.tn_sum (verdict_reqs fs tainted site_host st st.req st.ep));
    }
