-- ===== src/Ctx/Vendors.antt =====
-- The table of vendors in src/ctx.rs, and when a host belongs to a domain.
use afeye.Prelude.{
  ℕ, zero, suc, ◌+◌, ◌-◌, ◌≤◌, ◌<◌, ◌≡◌, ◌↔◌, ◌⊎◌, inl, inr, refl, sym, ap, ◌∙◌, Bool, true, ◌&&◌,
  ◌||◌, Option, some, none, List, [], ◌∷◌, ◌++◌, String, Bytes, bytes_eq, bytes_eq_iff, length,
  length-append, lt→ltb, le→leb, Bool-cases, drop-append, append_assoc, subst, get_or, drop, codes,
  contains, ltb, leb, ◌==◌, if◌then◌else◌, arith,
}
use afeye.Ctx.{host_of}

abbrev pub vendors : List (String × String)
vendors =
    ("challenges.cloudflare.com", "cloudflare")
    ∷ ("cloudflare.com", "cloudflare")
    ∷ ("cloudflareclient.com", "cloudflare")
    ∷ ("datadome.co", "datadome")
    ∷ ("kasada.io", "kasada")
    ∷ ("perimeterx.net", "human")
    ∷ ("px-cdn.net", "human")
    ∷ ("px-client.net", "human")
    ∷ ("humansecurity.com", "human")
    ∷ ("humanbehavior.co", "human")
    ∷ ("perfdrive.com", "human")
    ∷ ("edgesuite.net", "akamai")
    ∷ ("akamaiedge.net", "akamai")
    ∷ ("akamai.com", "akamai")
    ∷ ("akamaitech.net", "akamai")
    ∷ ("fpjs.io", "fpjs")
    ∷ ("fingerprintjs.com", "fpjs")
    ∷ ("seon.io", "seon")
    ∷ ("arkoselabs.com", "arkose")
    ∷ ("funcaptcha.com", "arkose")
    ∷ ("hcaptcha.com", "hcaptcha")
    ∷ ("recaptcha.net", "recaptcha")
    ∷ ("incapsula.com", "imperva")
    ∷ ("imperva.com", "imperva")
    ∷ ("incapdns.net", "imperva")
    ∷ ("threatmetrix.net", "threatmetrix")
    ∷ ("iovation.com", "iovation")
    ∷ ("shapesecurity.com", "shape")
    ∷ ("shape.com", "shape")
    ∷ []

-- `ends_with`
abbrev pub ends_with : Bytes → Bytes → Bool
ends_with b w = leb (length w) (length b) && bytes_eq (drop (length b - length w) b) w

-- `h == suf || (h.len() > suf.len() && h.ends_with(suf) && h.as_bytes()[…] == b'.')`
unfoldable pub is_under : Bytes → Bytes → Bool
is_under h suf =
    bytes_eq h suf
    || (ltb (length suf) (length h)
        && (ends_with h suf && get_or h (length h - length suf - 1) 0 == 46))

unfoldable pub vendor_in : List (String × String) → Bytes → Option Bytes
unfolding is_under
vendor_in [] h = none
vendor_in ((suf, v) ∷ table) h =
    if is_under h (codes suf) then some (codes v) else vendor_in table h

unfoldable pub vendor_of_url : Bytes → Option Bytes
unfolding vendor_in host_of
vendor_of_url url =
    let found : Option Bytes =
      if contains url (codes "/cdn-cgi/") || contains url (codes "/turnstile")
      then some (codes "cloudflare")
      else if contains url (codes "/recaptcha")
      then some (codes "recaptcha")
      else vendor_in vendors (host_of url) in
    elim (host_of url) [ [] ↦ none | _ ∷ _ ↦ found ]

split_drop :
    (a b : Bytes) (n : ℕ)
    → n ≤ length a
    → drop n a ≡ b
    → (front : Bytes) × (a ≡ front ++ b) × (length front ≡ n)
split_drop a b zero h e = ([], e, refl)
split_drop [] b (suc n) h e = absurd (omega arith)
split_drop (x ∷ a) b (suc n) h e =
    let (front, f, l) = split_drop a b n (omega arith) e in
    (x ∷ front, ap (◌∷◌ x) f, omega (arith, l))

drop_back :
    (a : Bytes) (k : ℕ) (s : Bytes)
    → k < length a
    → drop (suc k) a ≡ s
    → drop k a ≡ get_or a k 0 ∷ s
drop_back [] k s h e = absurd (omega arith)
drop_back (x ∷ a) zero s h e = ap (◌∷◌ x) e
drop_back (x ∷ a) (suc k) s h e = drop_back a k s (omega arith) e

get_or-front : (front s : Bytes) (c : ℕ) → get_or (front ++ (c ∷ s)) (length front) 0 ≡ c
get_or-front [] s c = refl
get_or-front (x ∷ front) s c = get_or-front front s c

ends_dot :
    (h suf : Bytes)
    → length suf < length h
    → drop (length h - length suf) h ≡ suf
    → get_or h (length h - length suf - 1) 0 ≡ 46
    → (front : Bytes) × (h ≡ front ++ (46 ∷ suf))
ends_dot h suf l e d =
    let k = length h - length suf - 1 in
    let n : length h - length suf ≡ suc k = omega arith in
    let f = drop_back h k suf (omega arith) (ap (λ m. drop m h) (sym n) ∙ e) in
    let (front, g, _) = split_drop h (46 ∷ suf) k (omega arith) (f ∙ ap (λ x. x ∷ suf) d) in
    (front, g)

behind_dot : (front suf : Bytes) → is_under (front ++ (46 ∷ suf)) suf ≡ true
unfolding is_under
behind_dot front suf =
    let h = front ++ (46 ∷ suf) in
    let n : length h ≡ length front + suc (length suf) = length-append front (46 ∷ suf) in
    let k : length h - length suf ≡ length (front ++ (46 ∷ [])) =
      omega (arith, n, length-append front (46 ∷ [])) in
    let e : drop (length h - length suf) h ≡ suf =
      ap (drop (length h - length suf)) (sym (append_assoc front (46 ∷ []) suf))
      ∙ drop-append (front ++ (46 ∷ [])) suf (length h - length suf) k in
    let m : length h - length suf - 1 ≡ length front = omega (arith, n) in
    let d : get_or h (length h - length suf - 1) 0 ≡ 46 =
      ap (λ i. get_or h i 0) m ∙ get_or-front front suf 46 in
    let same : bytes_eq (drop (length h - length suf) h) suf ≡ true = (bytes_eq_iff _ suf).1 e in
    elim (Bool-cases (bytes_eq h suf)) [
      | inl q ↦ rw q refl
      | inr q ↦ rw q (
          rw (lt→ltb (length suf) (length h) (omega (arith, n)))
            (rw (le→leb (length suf) (length h) (omega (arith, n))) (rw same (rw d refl))))
    ]

-- A host is under a domain exactly when it is the domain, or the domain behind a dot.
pub is_under_iff :
    (h suf : Bytes)
    → (is_under h suf ≡ true) ↔ ((h ≡ suf) ⊎ ((front : Bytes) × (h ≡ front ++ (46 ∷ suf))))
unfolding is_under
is_under_iff h suf = (
  (λ u. elim (Bool-cases (bytes_eq h suf)) [
    | inl q ↦ inl ((bytes_eq_iff h suf).0 q)
    | inr q ↦ inr (
        ends_dot h suf (ground arith)
          ((bytes_eq_iff (drop (length h - length suf) h) suf).0 (ground arith)) (ground arith))
  ]),
  (λ u. elim u [
    | inl e ↦ rw ((bytes_eq_iff h suf).1 e) refl
    | inr (front, e) ↦ subst (λ x. is_under x suf ≡ true) (sym e) (behind_dot front suf)
  ]),
)
