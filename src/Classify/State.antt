-- ===== src/Classify/State.antt =====
-- The state of one site in src/classify.rs, and what one line of a timeline adds to it. A map is
-- its list of pairs, in the order in which it is read.
pub mod Maps
pub mod Returns
pub mod Sums
use afeye.Prelude.{
  lookup, lower, modify, upsert, ℕ, zero, suc, ◌+◌, ◌%◌, ◌^◌, Bool, true, false, not, ◌&&◌, ◌||◌,
  Option, some, none, List, [], ◌∷◌, ◌++◌, Bytes, bytes_eq, length, drop, codes, starts_with,
  String, Outcome, done, panic, stuck, ◌>>=◌, ltb, ◌==◌, if◌then◌else◌,
}
use afeye.Classify.Json.{
  nil, cons, end, field, object, Value, Values, Members, member_of, get, as_str, as_u64, as_array,
  item, or_text, or_number,
}
use afeye.Ctx.{endpoint_of}
use afeye.Classify.{strip_ln}
use afeye.Classify.Stack.{first_stack_url, parse_cdp_stack}

pub record ReqInfo : Type 0 where
  pub url : Bytes
  pub method : Bytes
  pub ty : Option Bytes
  pub stk : List Bytes
  pub post_hash : Option Bytes
  pub setcookie : Option Bytes

pub record Ep : Type 0 where
  pub n : ℕ
  pub dup : ℕ
  pub method : Bytes
  pub vendor : Option Bytes
  pub af : List Bytes
  pub garbage : List Bytes

-- `Ep::new`
abbrev pub new_ep : Bytes → Ep
new_ep method = record { n = 0; dup = 0; method = method; vendor = none; af = []; garbage = [] }

-- `Ep::verdict`
abbrev pub verdict_from : List Bytes → List Bytes → ℕ
verdict_from (why ∷ af) garbage = 1
verdict_from [] (why ∷ garbage) = 2
verdict_from [] [] = 0

unfoldable pub verdict_of : Ep → ℕ
verdict_of e = verdict_from e.af e.garbage

pub record SiteState : Type 0 where
  pub taint : List ℕ
  pub script_tags : List (Bytes × List Bytes)
  pub req : List (Bytes × ReqInfo)
  pub ep : List (Bytes × Ep)
  pub tn_sum : List (Bytes × ℕ)
  pub ws_url : List (Bytes × Bytes)
  pub art_bodies : List (Bytes × Bytes)
  pub art_src : List (Bytes × Bytes)

-- `SiteState::new`
abbrev pub new_site : SiteState
new_site = record {
  taint = [];
  script_tags = [];
  req = [];
  ep = [];
  tn_sum = [];
  ws_url = [];
  art_bodies = [];
  art_src = [];
}

-- `SiteState::ep_key`
unfoldable pub ep_key : Bytes → Bytes
ep_key url = elim (endpoint_of url) [ [] ↦ url | c ∷ e ↦ c ∷ e ]

abbrev pub one_more : Ep → Ep
one_more e = record e { n = e.n + 1 }

-- `ep_of(url, method).n += 1`
unfoldable pub touch : Bytes → Bytes → List (Bytes × Ep) → List (Bytes × Ep)
unfolding upsert ep_key
touch url method ep = upsert (ep_key url) (new_ep method) one_more ep

-- a set of numbers, a set of texts
abbrev pub add_number : ℕ → List ℕ → List ℕ
add_number n [] = n ∷ []
add_number n (m ∷ ms) = if m == n then m ∷ ms else m ∷ add_number n ms

abbrev pub add_text : Bytes → List Bytes → List Bytes
add_text s [] = s ∷ []
add_text s (t ∷ ts) = if bytes_eq t s then t ∷ ts else t ∷ add_text s ts

-- `_th`: `n as u32` of every number
unfoldable pub add_taint : Values → List ℕ → List ℕ
add_taint nil taint = taint
add_taint (cons v vs) taint =
    add_taint vs (elim (as_u64 (some v)) [ none ↦ taint | some n ↦ add_number (n % 2 ^ 32) taint ])

-- `tn_sum.entry(k).and_modify(|x| *x += tn).or_insert(tn)`; a sum above 64 bits is a panic.
unfoldable pub add_tn_sum : Bytes → ℕ → List (Bytes × ℕ) → Outcome (List (Bytes × ℕ))
unfolding lookup upsert
add_tn_sum k tn sums =
    if ltb (or_number (lookup k sums) 0 + tn) (2 ^ 64)
    then done (upsert k 0 (λ x. x + tn) sums)
    else panic

-- `net:send`
unfoldable pub add_send : Values → SiteState → Outcome SiteState
unfolding touch add_tn_sum
add_send arr st =
    let u = or_text (as_str (item arr 0)) [] in
    let m = or_text (as_str (item arr 1)) (codes "GET") in
    let tn = or_number (as_u64 (item arr 4)) 0 in
    elim u [
      | [] ↦ done st
      | c ∷ cs ↦ do
        sums ← add_tn_sum (ep_key (c ∷ cs)) tn st.tn_sum
        done (record st { tn_sum = sums; ep = touch (c ∷ cs) m st.ep })
    ]

-- `stk:`, the tags of the first script of a stack
unfoldable pub add_stack : Bytes → Values → SiteState → Outcome SiteState
add_stack tag arr st = elim (as_str (item arr 0)) [
  | none ↦ done st
  | some stack ↦ do
    found ← first_stack_url stack
    done (elim found [
      | none ↦ st
      | some u ↦ record st { script_tags = upsert u [] (add_text tag) st.script_tags }
    ])
]

-- a line of the page, with `kk`
unfoldable pub collect_page : Bytes → Values → SiteState → Outcome SiteState
unfolding add_taint add_send add_stack
collect_page kk arr st =
    if bytes_eq kk (codes "_th")
    then done (record st { taint = add_taint arr st.taint })
    else if bytes_eq kk (codes "net:send")
    then add_send arr st
    else if starts_with kk (codes "stk:")
    then add_stack (drop 4 kk) arr st
    else done st

abbrev pub field_text : String → Value → Bytes
field_text k d = or_text (as_str (get k d)) []

-- the stack of a request, with the url of its initiator
unfoldable pub stack_of : Value → List Bytes
stack_of d =
    let frames : List Bytes = elim (as_str (get "stk" d)) [
      | none ↦ []
      | some s ↦ parse_cdp_stack s
    ] in
    elim (as_str (get "iniu" d)) [
      | none ↦ frames
      | some iu ↦ if ltb 10 (length iu) then frames ++ (strip_ln iu ∷ []) else frames
    ]

abbrev pub is_empty : Bytes → Bool
is_empty [] = true
is_empty (c ∷ s) = false

-- kind 1, a request
unfoldable pub add_request : Value → SiteState → SiteState
unfolding lookup modify stack_of
add_request d st =
    let rid = field_text "rid" d in
    let url = field_text "u" d in
    let method = or_text (as_str (get "m" d)) (codes "GET") in
    let fresh : ReqInfo = record {
      url = url;
      method = method;
      ty = as_str (get "ty" d);
      stk = stack_of d;
      post_hash = none;
      setcookie = none;
    } in
    elim (lookup rid st.req) [
      | some r ↦
          if is_empty r.url && not (is_empty url)
          then record st { req = modify rid (λ r. record r { url = url; method = method }) st.req }
          else st
      | none ↦ if is_empty rid then st else record st { req = st.req ++ ((rid, fresh) ∷ []) }
    ]

-- `eq_ignore_ascii_case("set-cookie")`; the last such header stays
unfoldable pub cookie_of : Members → Option Bytes → Option Bytes
cookie_of end found = found
cookie_of (field k v ms) found = cookie_of ms (
    if bytes_eq (lower k) (codes "set-cookie")
    then elim (as_str (some v)) [ none ↦ found | some s ↦ some s ]
    else found)

-- kind 2, a response
unfoldable pub add_response : Value → SiteState → SiteState
unfolding cookie_of modify
add_response d st = elim (get "h" d) [
  | some (object h) ↦ record st {
    req =
        modify (field_text "rid" d) (λ r. record r { setcookie = cookie_of h r.setcookie }) st.req;
  }
  | _ ↦ st
]

-- kind 3, a body
unfoldable pub add_body : Value → SiteState → SiteState
unfolding upsert modify
add_body d st =
    let rid = field_text "rid" d in
    let a = field_text "a" d in
    record st {
      art_bodies = if is_empty a then st.art_bodies else upsert a rid (λ _. rid) st.art_bodies;
      req =
          if bytes_eq (field_text "x" d) (codes "post")
          then modify rid (λ r. record r { post_hash = some a }) st.req
          else st.req;
    }

-- kind 6, a websocket
unfoldable pub add_socket : Value → SiteState → SiteState
unfolding upsert
add_socket d st = elim (as_str (get "u" d)) [
  | none ↦ st
  | some u ↦
      if bytes_eq (field_text "f" d) (codes "created")
        && (starts_with u (codes "ws") || starts_with u (codes "http"))
      then record st { ws_url = upsert (field_text "rid" d) u (λ _. u) st.ws_url }
      else st
]

-- kind 8, a script
unfoldable pub add_source : Value → SiteState → SiteState
unfolding upsert
add_source d st =
    let a = field_text "a" d in
    let u = field_text "u" d in
    if not (is_empty a) && starts_with u (codes "http")
    then record st { art_src = upsert a u (λ _. u) st.art_src }
    else st

-- a line of the browser, by its kind
unfoldable pub collect_event : ℕ → Value → SiteState → SiteState
unfolding add_request add_response add_body add_socket add_source
collect_event k d st =
    if k == 1
    then add_request d st
    else if k == 2
    then add_response d st
    else if k == 3
    then add_body d st
    else if k == 6
    then add_socket d st
    else if k == 8
    then add_source d st
    else st

-- the body of the loop of `collect_site`
unfoldable pub collect_line : Value → SiteState → Outcome SiteState
unfolding collect_page collect_event
collect_line v st = elim (as_str (get "kk" v)) [
  | some kk ↦ elim (as_array (get "v" v)) [ some arr ↦ collect_page kk arr st | none ↦ done st ]
  | none ↦ elim (as_u64 (get "k" v)) [
    | none ↦ done st
    | some k ↦ elim (get "d" v) [ none ↦ done st | some d ↦ done (collect_event k d st) ]
  ]
]

-- `collect_site` on the lines of a timeline; `parse` is `serde_json::from_str`.
unfoldable pub collect_site : (Bytes → Option Value) → List Bytes → SiteState → Outcome SiteState
unfolding collect_line
collect_site parse [] st = done st
collect_site parse (line ∷ lines) st = do
  st' ← elim (parse line) as (λ _. Outcome SiteState) [
    | none ↦ done st
    | some v ↦ collect_line v st
  ]
  collect_site parse lines st'
