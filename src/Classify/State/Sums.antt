-- ===== src/Classify/State/Sums.antt =====
-- What `collect_site` of src/classify.rs sums up in `tn_sum`.
use afeye.Prelude.{
  ℕ, ◌+◌, ◌^◌, ◌<◌, ◌≡◌, ◌≢◌, refl, sym, ap, subst, inl, inr, true, false, Bool-cases, Option, some,
  none, List, [], ◌∷◌, Bytes, bytes_eq, bytes_eq_iff, lookup, upsert, codes, All, length, lt→ltb,
  if◌then◌else◌, done, Returns, arith,
}
use afeye.Classify.Json.{Value, Values, get, as_str, as_array, as_u64, item, or_number}
use afeye.Classify.State.{SiteState, ep_key, add_tn_sum, add_send}
use afeye.Classify.State.Maps.{bytes_eq_refl, lookup-upsert, lookup-upsert_ne, or_default}

-- the sum of an endpoint, 0 where there is none
abbrev pub tn_at : Bytes → SiteState → ℕ
tn_at k st = or_number (lookup k st.tn_sum) 0

-- The url of a send may be missing or empty.
abbrev pub url_tn : Bytes → ℕ → Option Bytes → ℕ
url_tn k tn none = 0
url_tn k tn (some []) = 0
url_tn k tn (some (c ∷ u)) = if bytes_eq (ep_key (c ∷ u)) k then tn else 0

-- what the values of a `net:send` send to the endpoint `k`
abbrev pub arr_tn : Values → Bytes → ℕ
arr_tn arr k = url_tn k (or_number (as_u64 (item arr 4)) 0) (as_str (item arr 0))

-- what a page line with the name `kk` and the values `arr` sends to the endpoint `k`
abbrev pub page_tn : Bytes → Values → Bytes → ℕ
page_tn kk arr k = if bytes_eq kk (codes "net:send") then arr_tn arr k else 0

abbrev pub line_tn : Option Value → Bytes → ℕ
line_tn none k = 0
line_tn (some v) k = elim (as_str (get "kk" v)) [
  | none ↦ 0
  | some kk ↦ elim (as_array (get "v" v)) [ none ↦ 0 | some arr ↦ page_tn kk arr k ]
]

abbrev pub lines_tn : (Bytes → Option Value) → List Bytes → Bytes → ℕ
lines_tn parse [] k = 0
lines_tn parse (line ∷ lines) k = line_tn (parse line) k + lines_tn parse lines k

-- No sum of `st` leaves its 64 bits when `plus` is added.
abbrev pub Fits : (Bytes → ℕ) → SiteState → Type 0
Fits plus st = (k : Bytes) → tn_at k st + plus k < 2 ^ 64

-- The urls of the scripts with tags are longer than ten bytes.
abbrev pub HasLongUrls : SiteState → Type 0
HasLongUrls st = All (λ p. 10 < length p.0) st.script_tags

-- The sums of `st'` are those of `st` with `plus` added.
abbrev pub Summed : (Bytes → ℕ) → SiteState → SiteState → Type 0
Summed plus st st' = HasLongUrls st' × ((k : Bytes) → tn_at k st' ≡ tn_at k st + plus k)

or_number-or_default : (o : Option ℕ) → or_default o 0 ≡ or_number o 0
or_number-or_default none = refl
or_number-or_default (some n) = refl

pub bytes_ne : (j k : Bytes) → bytes_eq j k ≡ false → j ≢ k
bytes_ne j k q e = let p : bytes_eq j k ≡ true = (bytes_eq_iff j k).1 e in cc

add_tn_sum-done :
    (k : Bytes) (tn : ℕ) (m : List (Bytes × ℕ))
    → or_number (lookup k m) 0 + tn < 2 ^ 64
    → add_tn_sum k tn m ≡ done (upsert k 0 (λ x. x + tn) m)
unfolding add_tn_sum
add_tn_sum-done k tn m h = rw (lt→ltb (or_number (lookup k m) 0 + tn) (2 ^ 64) h)

upsert_tn :
    (key : Bytes) (tn : ℕ) (m : List (Bytes × ℕ)) (k : Bytes)
    → or_number (lookup k (upsert key 0 (λ x. x + tn) m)) 0
      ≡ or_number (lookup k m) 0 + (if bytes_eq key k then tn else 0)
upsert_tn key tn m k = elim (Bool-cases (bytes_eq key k)) [
  | inl q ↦
      let e : key ≡ k = (bytes_eq_iff key k).0 q in
      rw q (
        rw (sym e) (
          rw (lookup-upsert key 0 (λ x. x + tn) m)
            (ap (λ n. n + tn) (or_number-or_default (lookup key m)))))
  | inr q ↦ rw q (rw (lookup-upsert_ne k key 0 (λ x. x + tn) m (bytes_ne key k q)) (omega arith))
]

module _ (arr : Values) (st : SiteState) (l : HasLongUrls st) where
  unsent : (plus : Bytes → ℕ) → ((k : Bytes) → plus k ≡ 0) → Summed plus st st
  unsent plus z = (l, λ k. omega (arith, z k))

  pub send_Summed :
      (o : Option Bytes)
      → as_str (item arr 0) ≡ o
      → Fits (λ k. url_tn k (or_number (as_u64 (item arr 4)) 0) o) st
      → Returns (Summed (λ k. url_tn k (or_number (as_u64 (item arr 4)) 0) o) st) (add_send arr st)
  unfolding add_send
  send_Summed none e fits = rw (e, add_send) (unsent _ (λ k. refl))
  send_Summed (some []) e fits = rw (e, add_send) (unsent _ (λ k. refl))
  send_Summed (some (c ∷ u)) e fits =
      let key = ep_key (c ∷ u) in
      let tn = or_number (as_u64 (item arr 4)) 0 in
      let fits_key : tn_at key st + tn < 2 ^ 64 =
        subst (λ b. tn_at key st + (if b then tn else 0) < 2 ^ 64) (bytes_eq_refl key) (fits key) in
      rw (e, add_send, add_tn_sum-done key tn st.tn_sum fits_key, Returns)
        (l, upsert_tn key tn st.tn_sum)
