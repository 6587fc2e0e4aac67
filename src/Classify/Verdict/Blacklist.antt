-- ===== src/Classify/Verdict/Blacklist.antt =====
-- The blacklist wins in `verdict_site` of src/classify.rs.
use afeye.Prelude.{
  lookup, modify, upsert, ◌≡◌, ◌≢◌, refl, sym, ap, subst, ◌∙◌, Bool, true, false, ◌||◌, Bool-cases,
  inl, inr, ◌⊎◌, Option, some, none, List, [], ◌∷◌, ◌++◌, Bytes, bytes_eq, bytes_eq_iff, All, ℕ,
  codes, if◌then◌else◌, ltb, arith,
}
use afeye.Ctx.{host_of}
use afeye.Classify.{blacklisted, blacklisted_path}
use afeye.Classify.Json.{Value}
use afeye.Classify.State.{
  ReqInfo, Ep, new_ep, one_more, SiteState, ep_key, touch, verdict_of, verdict_from, is_empty,
}
use afeye.Classify.State.Maps.{
  lookup-upsert, lookup-upsert_ne, lookup-modify, lookup-modify_ne, map_option, or_default,
  bytes_eq_refl,
}
use afeye.Classify.Verdict.{
  Files, has_text, add_garbage, verdict_req, verdict_reqs, is_blacklisted, add_tn, settle,
  settle_by, settle_all, verdict_site, tainted_urls, proven_scripts, add_af,
}

-- the test that makes a request garbage
abbrev pub on_blacklist : ReqInfo → Bool
on_blacklist r = blacklisted (host_of r.url) || blacklisted_path r.url

-- Every request of the endpoint `k` is on the blacklist.
abbrev pub AllListed : Bytes → List (Bytes × ReqInfo) → Type 0
AllListed k rs =
    All (λ p. is_empty p.1.url ≡ false → ep_key p.1.url ≡ k → on_blacklist p.1 ≡ true) rs

-- There is a request of the endpoint `k`.
abbrev pub HasRequest : Bytes → List (Bytes × ReqInfo) → Type 0
HasRequest k [] = ⊥
HasRequest k ((rid, r) ∷ rs) = ((is_empty r.url ≡ false) × (ep_key r.url ≡ k)) ⊎ HasRequest k rs

abbrev pub NoEvidence : Option Ep → Type 0
NoEvidence none = Unit
NoEvidence (some e) = e.af ≡ []

abbrev Garbage : Option Ep → Type 0
Garbage none = ⊥
Garbage (some e) = (e.af ≡ []) × (is_blacklisted e ≡ true)

has_text-append : (s : Bytes) (ts : List Bytes) → has_text s (ts ++ (s ∷ [])) ≡ true
has_text-append s [] = rw (bytes_eq_refl s) refl
has_text-append s (t ∷ ts) = ground (arith, has_text-append s ts)

Garbage→NoEvidence : (o : Option Ep) → Garbage o → NoEvidence o
Garbage→NoEvidence none g = absurd g
Garbage→NoEvidence (some e) g = g.0

listed_once :
    (o : Option Ep) (method : Bytes)
    → NoEvidence o
    → Garbage (
        map_option
          (add_garbage (codes "blacklist"))
          (some (one_more (or_default o (new_ep method)))))
listed_once none method h = (refl, has_text-append (codes "blacklist") [])
listed_once (some e) method h = (h, has_text-append (codes "blacklist") e.garbage)

module _ (fs : Files) (tainted : List Bytes) (site_host : Bytes) (st : SiteState) (k : Bytes) where
  listed_req :
      (rid : Bytes) (r : ReqInfo) (ep : List (Bytes × Ep))
      → is_empty r.url ≡ false
      → ep_key r.url ≡ k
      → on_blacklist r ≡ true
      → NoEvidence (lookup k ep)
      → Garbage (lookup k (verdict_req fs tainted site_host st (rid, r) ep))
  unfolding verdict_req touch
  listed_req rid r ep full same listed h = rw full (
      rw listed (
        rw same (
          subst Garbage
            (sym (
              lookup-modify k (add_garbage (codes "blacklist"))
                (upsert k (new_ep r.method) one_more ep)
              ∙ ap (map_option (add_garbage (codes "blacklist")))
                  (lookup-upsert k (new_ep r.method) one_more ep)))
            (listed_once (lookup k ep) r.method h))))

  other_req :
      (rid : Bytes) (r : ReqInfo) (ep : List (Bytes × Ep))
      → (is_empty r.url ≡ true) ⊎ (ep_key r.url ≢ k)
      → lookup k (verdict_req fs tainted site_host st (rid, r) ep) ≡ lookup k ep
  unfolding verdict_req touch
  other_req rid r ep (inl e) = rw e refl
  other_req rid r ep (inr ne) = elim (Bool-cases (is_empty r.url)) [
    | inl e ↦ rw e refl
    | inr e ↦ rw e (
        lookup-modify_ne k (ep_key r.url) _ _ ne
        ∙ lookup-upsert_ne k (ep_key r.url) (new_ep r.method) one_more ep ne)
  ]

  which :
      (r : ReqInfo)
      → ((is_empty r.url ≡ false) × (ep_key r.url ≡ k))
        ⊎ ((is_empty r.url ≡ true) ⊎ (ep_key r.url ≢ k))
  which r = elim (Bool-cases (is_empty r.url)) [
    | inl e ↦ inr (inl e)
    | inr e ↦ elim (Bool-cases (bytes_eq (ep_key r.url) k)) [
      | inl q ↦ inl (e, (bytes_eq_iff (ep_key r.url) k).0 q)
      | inr q ↦ inr (
          inr (λ f.
            let bad : true ≡ false = sym ((bytes_eq_iff (ep_key r.url) k).1 f) ∙ q in absurd (cc)))
    ]
  ]

  -- once garbage, always garbage
  stays :
      (rs : List (Bytes × ReqInfo)) (ep : List (Bytes × Ep))
      → AllListed k rs
      → Garbage (lookup k ep)
      → Garbage (lookup k (verdict_reqs fs tainted site_host st rs ep))
  unfolding verdict_reqs
  stays [] ep a g = g
  stays ((rid, r) ∷ rs) ep (h, a) g =
      stays rs (verdict_req fs tainted site_host st (rid, r) ep) a (elim (which r) [
        | inl (e, same) ↦ listed_req rid r ep e same (h e same) (Garbage→NoEvidence _ g)
        | inr other ↦ subst Garbage (sym (other_req rid r ep other)) g
      ])

  becomes :
      (rs : List (Bytes × ReqInfo)) (ep : List (Bytes × Ep))
      → AllListed k rs
      → HasRequest k rs
      → NoEvidence (lookup k ep)
      → Garbage (lookup k (verdict_reqs fs tainted site_host st rs ep))
  unfolding verdict_reqs
  becomes [] ep a h n = absurd h
  becomes ((rid, r) ∷ rs) ep (l, a) (inl (e, same)) n =
      stays rs (verdict_req fs tainted site_host st (rid, r) ep) a
        (listed_req rid r ep e same (l e same) n)
  becomes ((rid, r) ∷ rs) ep (l, a) (inr h) n = elim (which r) [
    | inl (e, same) ↦
        stays rs (verdict_req fs tainted site_host st (rid, r) ep) a
          (listed_req rid r ep e same (l e same) n)
    | inr other ↦
        becomes rs (verdict_req fs tainted site_host st (rid, r) ep) a h
          (subst NoEvidence (sym (other_req rid r ep other)) n)
  ]

abbrev taint_sum : Bytes → Ep → Ep
taint_sum why e = if is_blacklisted e then e else add_af why e

Garbage-taint_sum :
    (why : Bytes) (o : Option Ep) → Garbage o → Garbage (map_option (taint_sum why) o)
Garbage-taint_sum why none g = g
Garbage-taint_sum why (some e) (a, b) = rw b (a, b)

Garbage-add_tn :
    (format : ℕ → Bytes) (k : Bytes) (m : List (Bytes × ℕ)) (ep : List (Bytes × Ep))
    → Garbage (lookup k ep)
    → Garbage (lookup k (add_tn format m ep))
unfolding add_tn
Garbage-add_tn format k [] ep g = g
Garbage-add_tn format k ((j, tn) ∷ m) ep g = elim (Bool-cases (ltb 0 tn)) [
  | inr q ↦ rw q (Garbage-add_tn format k m ep g)
  | inl q ↦
      let why = codes "tn:" ++ format tn in
      rw q (
        Garbage-add_tn format k m (modify j (taint_sum why) ep) (elim (Bool-cases (bytes_eq j k)) [
          | inl e ↦
              subst (λ i. Garbage (lookup k (modify i (taint_sum why) ep)))
                (sym ((bytes_eq_iff j k).0 e))
                (subst Garbage (sym (lookup-modify k (taint_sum why) ep))
                  (Garbage-taint_sum why (lookup k ep) g))
          | inr e ↦
              subst Garbage
                (sym (
                  lookup-modify_ne k j (taint_sum why) ep (λ f.
                    let bad : true ≡ false = sym ((bytes_eq_iff j k).1 f) ∙ e in absurd (cc))))
                g
        ]))
]

lookup-settle_all :
    (k : Bytes) (ep : List (Bytes × Ep))
    → lookup k (settle_all ep) ≡ map_option settle (lookup k ep)
unfolding lookup
lookup-settle_all k [] = refl
lookup-settle_all k ((j, e) ∷ ep) = elim (Bool-cases (bytes_eq j k)) [
  | inl q ↦ rw q refl
  | inr q ↦ rw q (lookup-settle_all k ep)
]

abbrev pub HasVerdict : ℕ → Option Ep → Type 0
HasVerdict n none = ⊥
HasVerdict n (some e) = verdict_of e ≡ n

verdict_from-garbage :
    (g : List Bytes) → has_text (codes "blacklist") g ≡ true → verdict_from [] g ≡ 2
verdict_from-garbage [] h = absurd (ground (arith, h))
verdict_from-garbage (why ∷ g) h = refl

Garbage-verdict : (o : Option Ep) → Garbage o → HasVerdict 2 (map_option settle o)
unfolding verdict_of
Garbage-verdict none g = absurd g
Garbage-verdict (some e) (a, b) =
    ap verdict_of (ap (λ l. settle_by l e) a)
    ∙ (ap (λ l. verdict_from l e.garbage) a ∙ verdict_from-garbage e.garbage b)

-- An endpoint that had no evidence, and all of whose requests, one at least, are on the blacklist,
-- is garbage after `verdict_site`, whatever else is known of it.
pub verdict_site-blacklist :
    (fs : Files) (report : Option Value) (site_host : Bytes) (st : SiteState) (k : Bytes)
    → NoEvidence (lookup k st.ep)
    → AllListed k st.req
    → HasRequest k st.req
    → HasVerdict 2 (lookup k (verdict_site fs report site_host st).ep)
unfolding verdict_site
verdict_site-blacklist fs report site_host st k n a h =
    let tainted = tainted_urls st.script_tags ++ proven_scripts report in
    let ep = verdict_reqs fs tainted site_host st st.req st.ep in
    subst (HasVerdict 2) (sym (lookup-settle_all k (add_tn fs.format st.tn_sum ep))) (
      Garbage-verdict (lookup k (add_tn fs.format st.tn_sum ep)) (
        Garbage-add_tn fs.format k st.tn_sum ep
          (becomes fs tainted site_host st k st.req st.ep a h n)))
