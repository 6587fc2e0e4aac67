-- ===== src/Ctx/Urls.antt =====
-- `host_of` and `endpoint_of` of src/ctx.rs on the urls that have a host name.
use afeye.Prelude.{
  ℕ, ◌≡◌, ◌≢◌, refl, ap, subst, ◌∙◌, Bool, true, false, Option, some, none, [], ◌∷◌, ◌++◌,
  append-nil, Bytes, length, drop, drop-append, All, All-append, codes, starts_with, ◌==◌, ==_iff,
  arith,
}
use afeye.Ctx.{
  split_at, until, split_last, ends_authority, ends_path, holds_byte, hostport_of, without_port,
  host_of, through_path, endpoint_of,
}

abbrev pub Lacks : ℕ → Bytes → Type 0
Lacks c s = All (λ x. x ≢ c) s

abbrev pub None : (ℕ → Bool) → Bytes → Type 0
None p s = All (λ x. p x ≡ false) s

-- The text ends, or goes on with a byte of the kind.
abbrev pub Ends : (ℕ → Bool) → Bytes → Type 0
Ends p [] = Unit
Ends p (c ∷ s) = p c ≡ true

split_at-append :
    (a s : Bytes) → Lacks 58 a → split_at (codes "://") (a ++ (codes "://" ++ s)) ≡ some (a, s)
unfolding split_at
split_at-append [] s h = refl
split_at-append (x ∷ a) s (h, hs) =
    let other : (x == 58) ≡ false = ground (arith, h) in rw other (rw (split_at-append a s hs) refl)

until-append : (p : ℕ → Bool) (a s : Bytes) → None p a → Ends p s → until p (a ++ s) ≡ a
unfolding until
until-append p [] [] h e = refl
until-append p [] (c ∷ s) h e = rw e refl
until-append p (x ∷ a) s (h, hs) e = rw h (ap (◌∷◌ x) (until-append p a s hs e))

split_last-none : (c : ℕ) (s : Bytes) → Lacks c s → split_last c s ≡ none
unfolding split_last
split_last-none c [] h = refl
split_last-none c (x ∷ s) (h, hs) =
    let other : (x == c) ≡ false = ground (arith, h) in
    rw (split_last-none c s hs, split_last) (rw other refl)

split_last-append : (c : ℕ) (a b : Bytes) → Lacks c b → split_last c (a ++ (c ∷ b)) ≡ some (a, b)
unfolding split_last
split_last-append c [] b h = rw (split_last-none c b h, split_last) (rw ((==_iff c c).1 refl) refl)
split_last-append c (x ∷ a) b h = rw (split_last-append c a b h, split_last) refl

holds_byte-false : (c : ℕ) (s : Bytes) → Lacks c s → holds_byte c s ≡ false
holds_byte-false c [] h = refl
holds_byte-false c (x ∷ s) (h, hs) = ground (arith, h, holds_byte-false c s hs)

-- A host name and a port have none of the bytes that separate the parts of a url.
abbrev pub IsPlain : Bytes → Type 0
IsPlain s = None ends_authority s × Lacks 64 s × Lacks 58 s × Lacks 91 s

abbrev pub put_user : Option Bytes → Bytes → Bytes
put_user none s = s
put_user (some u) s = u ++ (64 ∷ s)

abbrev pub put_port : Option Bytes → Bytes
put_port none = []
put_port (some p) = 58 ∷ p

abbrev pub UserFits : Option Bytes → Type 0
UserFits none = Unit
UserFits (some u) = None ends_authority u

abbrev pub PortFits : Option Bytes → Type 0
PortFits none = Unit
PortFits (some p) = IsPlain p

no_bracket : (s b : Bytes) → Lacks 91 s → Lacks 91 b → starts_with (s ++ b) (codes "[") ≡ false
no_bracket [] [] h k = refl
no_bracket [] (x ∷ b) h (k, ks) = ground (arith, k)
no_bracket (x ∷ s) b (h, hs) k = ground (arith, h)

without_port-hostport :
    (host : Bytes) (port : Option Bytes)
    → IsPlain host
    → PortFits port
    → without_port (host ++ put_port port) ≡ host
unfolding without_port
without_port-hostport host none (_, _, w, _) v =
    ap without_port (append-nil host) ∙ rw (split_last-none 58 host w, without_port) refl
without_port-hostport host (some p) (_, _, w, k) (_, _, pw, pk) =
    rw (split_last-append 58 host p pw, without_port)
      (rw (holds_byte-false 58 host w) (rw (no_bracket host (58 ∷ p) k (omega arith, pk)) refl))

hostport-All :
    (P : ℕ → Type 0) (host : Bytes) (port : Option Bytes)
    → All P host
    → P 58
    → ((p : Bytes) → port ≡ some p → All P p)
    → All P (host ++ put_port port)
hostport-All P host none h c k = All-append P host [] h tt
hostport-All P host (some p) h c k = All-append P host (58 ∷ p) h (c, k p refl)

some_injective : (a b : Bytes) → some a ≡ some b → a ≡ b
some_injective a b e = cc

port_fits : (port : Option Bytes) → PortFits port → (p : Bytes) → port ≡ some p → IsPlain p
port_fits none v p e = absurd (ground (arith, e))
port_fits (some q) v p e = subst IsPlain (some_injective q p e) v

-- A url with a host: the part in front of `://`, who logs in, the host, the port and the rest.
module _ (scheme : Bytes) (user : Option Bytes) (host : Bytes) (port : Option Bytes)
    (rest : Bytes) where
  abbrev pub authority : Bytes
  authority = put_user user (host ++ put_port port)

  abbrev pub put_url : Bytes
  put_url = scheme ++ (codes "://" ++ (authority ++ rest))

  abbrev pub UrlFits : Type 0
  UrlFits =
      Lacks 58 scheme × UserFits user × IsPlain host × PortFits port × Ends ends_authority rest

module _ (host : Bytes) (port : Option Bytes) (w : IsPlain host) (v : PortFits port) where
  hostport-None : None ends_authority (host ++ put_port port)
  hostport-None =
      hostport-All (λ x. ends_authority x ≡ false) host port w.0 refl
        (λ p e. (port_fits port v p e).0)

  hostport-Lacks : Lacks 64 (host ++ put_port port)
  hostport-Lacks =
      hostport-All (λ x. x ≢ 64) host port w.1 (omega arith) (λ p e. (port_fits port v p e).1)

  put_user-None :
      (user : Option Bytes)
      → UserFits user
      → None ends_authority (put_user user (host ++ put_port port))
  put_user-None none u = hostport-None
  put_user-None (some n) u =
      All-append (λ x. ends_authority x ≡ false) n (64 ∷ (host ++ put_port port)) u
        (refl, hostport-None)

  hostport_of-put_user :
      (user : Option Bytes)
      → hostport_of (put_user user (host ++ put_port port)) ≡ host ++ put_port port
  unfolding hostport_of
  hostport_of-put_user none =
      rw (split_last-none 64 (host ++ put_port port) hostport-Lacks, hostport_of) refl
  hostport_of-put_user (some n) =
      rw (split_last-append 64 n (host ++ put_port port) hostport-Lacks, hostport_of) refl

endpoint_of-through_path :
    (url host : Bytes) → host ≢ [] → host_of url ≡ host → endpoint_of url ≡ through_path url
unfolding endpoint_of
endpoint_of-through_path url [] ne e = absurd (ne refl)
endpoint_of-through_path url (c ∷ host) ne e = rw (e, endpoint_of) refl

module _ (scheme : Bytes) (user : Option Bytes) (host : Bytes) (port : Option Bytes) (rest : Bytes)
    (h : UrlFits scheme user host port rest) where
  authority-None : None ends_authority (authority scheme user host port rest)
  authority-None = put_user-None host port h.2 h.3 user h.1

  -- `host_of` gives the host of a url, with or without a user and a port, when the scheme has no colon, the user none of `/`, `?` and `#`, host and port none of these, `@`, `:` and `[`, and the rest is empty or begins with `/`, `?` or `#`.
  pub host_of-put_url : host_of (put_url scheme user host port rest) ≡ host
  unfolding host_of
  host_of-put_url =
      rw (split_at-append scheme (authority scheme user host port rest ++ rest) h.0, host_of)
        (ap (λ a. without_port (hostport_of a))
            (until-append ends_authority (authority scheme user host port rest) rest authority-None
              h.4)
          ∙ ap without_port (hostport_of-put_user host port h.2 h.3 user)
          ∙ without_port-hostport host port h.2 h.3)

  through_path-put_url :
      through_path (put_url scheme user host port rest)
      ≡ put_url scheme user host port (until ends_path rest)
  unfolding through_path
  through_path-put_url =
      let auth = authority scheme user host port rest in
      rw (split_at-append scheme (auth ++ rest) h.0, through_path)
        (ap
            (λ a.
              scheme ++ (codes "://" ++ (a ++ until ends_path (drop (length a) (auth ++ rest)))))
            (until-append ends_authority auth rest authority-None h.4)
          ∙ ap (λ d. scheme ++ (codes "://" ++ (auth ++ until ends_path d)))
              (drop-append auth rest (length auth) refl))

  -- `endpoint_of` gives the url up to its query or fragment, when the host is not empty, the scheme has no colon, the user none of `/`, `?` and `#`, host and port none of these, `@`, `:` and `[`, and the rest is empty or begins with `/`, `?` or `#`.
  pub endpoint_of-put_url :
      host ≢ []
      → endpoint_of (put_url scheme user host port rest)
        ≡ put_url scheme user host port (until ends_path rest)
  endpoint_of-put_url ne =
      endpoint_of-through_path (put_url scheme user host port rest) host ne host_of-put_url
      ∙ through_path-put_url
