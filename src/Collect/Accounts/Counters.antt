-- ===== src/Collect/Accounts/Counters.antt =====
-- What the counters of `scan_once` count.
use afeye.Prelude.{
  ==_iff, get_or, get_or-set, length-set, ◌||◌, Bool-cases, inl, inr, ◌==◌, ℕ, ◌+◌, ◌<◌, ◌≡◌, refl,
  sym, ◌∙◌, Bool, ◌&&◌, List, [], ◌∷◌, ◌++◌, length, length-append, All, All-append, ltb,
  if◌then◌else◌, arith,
}
use afeye.Collect.{
  count_hello, kind_sink_hello, Frame, Scan, Per, pair_eq, per_bump, per_get, per_count,
  is_truncated, count_record, deliver, count_corrupt,
}

abbrev pub count {ℓ} : {A : Type ℓ} → (A → Bool) → List A → ℕ
count p [] = 0
count p (x ∷ xs) = (if p x then 1 else 0) + count p xs

count-snoc {ℓ} :
    {A : Type ℓ} (p : A → Bool) (xs : List A) (x : A)
    → count p (xs ++ (x ∷ [])) ≡ count p xs + (if p x then 1 else 0)
count-snoc p [] x = omega arith
count-snoc p (y ∷ xs) x = omega (arith, count-snoc p xs x)

abbrev pub payload_bytes : List Frame → ℕ
payload_bytes [] = 0
payload_bytes (f ∷ fs) = length f.payload + payload_bytes fs

payload_bytes-snoc :
    (fs : List Frame) (f : Frame)
    → payload_bytes (fs ++ (f ∷ [])) ≡ payload_bytes fs + length f.payload
payload_bytes-snoc [] f = omega arith
payload_bytes-snoc (g ∷ fs) f = omega (arith, payload_bytes-snoc fs f)

abbrev pub is_of : ℕ → ℕ → Frame → Bool
is_of layer kind f = pair_eq (f.layer_id, f.kind) (layer, kind)

per_get-bump :
    (a b c d : ℕ) (per : Per)
    → per_get (c, d) (per_bump (a, b) per)
      ≡ per_get (c, d) per + (if pair_eq (a, b) (c, d) then 1 else 0)
unfolding per_get per_bump
per_get-bump a b c d [] = ground arith
per_get-bump a b c d (((x, y), n) ∷ per) = ground (arith, per_get-bump a b c d per)

-- a record of the kind that says hello, in a layer
abbrev pub is_hello_of : ℕ → Frame → Bool
is_hello_of layer f = f.layer_id == layer && f.kind == kind_sink_hello

-- the greatest time stamp, or 0
abbrev pub greatest : List Frame → ℕ
greatest [] = 0
greatest (f ∷ fs) = if ltb (greatest fs) f.ts then f.ts else greatest fs

abbrev pub least_from : ℕ → List Frame → ℕ
least_from m [] = m
least_from m (f ∷ fs) = least_from (if ltb f.ts m then f.ts else m) fs

-- the least time stamp, or 0
abbrev pub least : List Frame → ℕ
least [] = 0
least (f ∷ fs) = least_from f.ts fs

-- the records behind the last one whose time stamp is 0; `front` is what stands in front
unfoldable pub behind_zero : List Frame → List Frame → List Frame
behind_zero front [] = front
behind_zero front (f ∷ fs) =
    let kept = behind_zero (front ++ (f ∷ [])) fs in
    let fresh = behind_zero [] fs in if f.ts == 0 then fresh else kept

-- The counters are those of the delivered records. The first time stamp is the least one behind the
-- last record whose time stamp is 0.
pub record IsAccounted (st : Scan) : Type 0 where
  pub records : st.stats.records ≡ length st.frames
  pub seq : st.seq ≡ length st.frames
  pub bytes : st.stats.bytes ≡ payload_bytes st.frames
  pub truncated : st.stats.truncated ≡ count is_truncated st.frames
  pub per : (l k : ℕ) → per_count st.stats l k ≡ count (is_of l k) st.frames
  pub layers : length st.hellos ≡ 3
  pub hellos : (l : ℕ) → l < 3 → get_or st.hellos l 0 ≡ count (is_hello_of l) st.frames
  pub first_ts : st.stats.first_ts ≡ least (behind_zero [] st.frames)
  pub last_ts : st.stats.last_ts ≡ greatest st.frames

greatest-snoc :
    (fs : List Frame) (f : Frame)
    → greatest (fs ++ (f ∷ [])) ≡ (if ltb (greatest fs) f.ts then f.ts else greatest fs)
greatest-snoc [] f = refl
greatest-snoc (g ∷ fs) f = rw (greatest-snoc fs f) (ground arith)

least_from-snoc :
    (m : ℕ) (fs : List Frame) (f : Frame)
    → least_from m (fs ++ (f ∷ [])) ≡ (if ltb f.ts (least_from m fs) then f.ts else least_from m fs)
least_from-snoc m [] f = refl
least_from-snoc m (g ∷ fs) f = least_from-snoc (if ltb g.ts m then g.ts else m) fs f

behind_zero-snoc :
    (front fs : List Frame) (f : Frame)
    → behind_zero front (fs ++ (f ∷ []))
      ≡ (if f.ts == 0 then [] else behind_zero front fs ++ (f ∷ []))
unfolding behind_zero
behind_zero-snoc front [] f = refl
behind_zero-snoc front (g ∷ fs) f = elim (Bool-cases (g.ts == 0)) [
  | inl q ↦ rw q (behind_zero-snoc [] fs f)
  | inr q ↦ rw q (behind_zero-snoc (front ++ (g ∷ [])) fs f)
]

abbrev IsTimed : Frame → Type 0
IsTimed f = 0 < f.ts

behind_zero-IsTimed :
    (front fs : List Frame) → All IsTimed front → All IsTimed (behind_zero front fs)
unfolding behind_zero
behind_zero-IsTimed front [] h = h
behind_zero-IsTimed front (f ∷ fs) h = elim (Bool-cases (f.ts == 0)) [
  | inl q ↦ rw q (behind_zero-IsTimed [] fs tt)
  | inr q ↦ rw q (
      behind_zero-IsTimed (front ++ (f ∷ [])) fs
        (All-append IsTimed front (f ∷ []) h (ground arith, tt)))
]

least_from-pos : (m : ℕ) (fs : List Frame) → 0 < m → All IsTimed fs → 0 < least_from m fs
least_from-pos m [] h k = h
least_from-pos m (f ∷ fs) h (a, k) =
    least_from-pos (if ltb f.ts m then f.ts else m) fs (ground arith) k

-- a record with a time stamp behind `fs`
least-later :
    (fs : List Frame) (f : Frame)
    → All IsTimed fs
    → 0 < f.ts
    → (if least fs == 0 || ltb f.ts (least fs) then f.ts else least fs) ≡ least (fs ++ (f ∷ []))
least-later [] f h k = refl
least-later (g ∷ fs) f (a, h) k =
    let p = least_from-pos g.ts fs a h in rw (least_from-snoc g.ts fs f) (ground arith)

first_ts-snoc :
    (fs : List Frame) (f : Frame) (t : ℕ)
    → t ≡ least (behind_zero [] fs)
    → (if t == 0 || ltb f.ts t then f.ts else t) ≡ least (behind_zero [] (fs ++ (f ∷ [])))
first_ts-snoc fs f t e = elim (Bool-cases (f.ts == 0)) [
  | inl q ↦ rw (behind_zero-snoc [] fs f, q) (ground arith)
  | inr q ↦
      rw (behind_zero-snoc [] fs f, q, e)
        (least-later (behind_zero [] fs) f (behind_zero-IsTimed [] fs tt) (ground arith))
]

count_hello-length : (f : Frame) (hs : List ℕ) → length (count_hello f hs) ≡ length hs
unfolding count_hello
count_hello-length f hs = elim (Bool-cases (f.kind == kind_sink_hello && ltb f.layer_id 3)) [
  | inl q ↦ rw q (length-set hs f.layer_id (get_or hs f.layer_id 0 + 1))
  | inr q ↦ rw q refl
]

count_hello-get :
    (f : Frame) (hs : List ℕ) (l : ℕ)
    → length hs ≡ 3
    → l < 3
    → get_or (count_hello f hs) l 0 ≡ get_or hs l 0 + (if is_hello_of l f then 1 else 0)
unfolding count_hello
count_hello-get f hs l n h = elim (Bool-cases (f.kind == kind_sink_hello && ltb f.layer_id 3)) [
  | inl q ↦ rw q (
      get_or-set hs f.layer_id l (get_or hs f.layer_id 0 + 1) 0 (ground (arith, n))
      ∙ elim (Bool-cases (l == f.layer_id)) [
        | inl r ↦ let e : l ≡ f.layer_id = (==_iff l f.layer_id).0 r in rw r (rw e (ground arith))
        | inr r ↦ ground arith
      ])
  | inr q ↦ rw q (ground arith)
]

pub deliver-IsAccounted : (f : Frame) (st : Scan) → IsAccounted st → IsAccounted (deliver f st)
unfolding deliver count_record per_count
deliver-IsAccounted f st w = record {
  records = omega (arith, w.records, length-append st.frames (f ∷ []));
  seq = omega (arith, w.seq, length-append st.frames (f ∷ []));
  bytes = omega (arith, w.bytes, payload_bytes-snoc st.frames f);
  truncated = rw (count-snoc is_truncated st.frames f) (ground (arith, w.truncated));
  per = λ l k.
      per_get-bump f.layer_id f.kind l k st.stats.per
      ∙ (rw (w.per l k) (sym (count-snoc (is_of l k) st.frames f)));
  layers = count_hello-length f st.hellos ∙ w.layers;
  hellos = λ l h.
      count_hello-get f st.hellos l w.layers h
      ∙ (rw (w.hellos l h) (sym (count-snoc (is_hello_of l) st.frames f)));
  first_ts = first_ts-snoc st.frames f st.stats.first_ts w.first_ts;
  last_ts = rw w.last_ts (sym (greatest-snoc st.frames f));
}

pub count_corrupt-IsAccounted : (st : Scan) → IsAccounted st → IsAccounted (count_corrupt st)
unfolding count_corrupt per_count
count_corrupt-IsAccounted st w = record {
  records = w.records;
  seq = w.seq;
  bytes = w.bytes;
  truncated = w.truncated;
  per = w.per;
  layers = w.layers;
  hellos = w.hellos;
  first_ts = w.first_ts;
  last_ts = w.last_ts;
}
