-- ===== src/Classify/State/Returns.antt =====
-- `collect_site` of src/classify.rs returns, and what it adds to the sums and the tags.
use afeye.Prelude.{
  ℕ, ◌<◌, ◌≡◌, refl, sym, subst, inl, inr, Bool, true, false, Bool-cases, Option, Option-cases,
  some, none, List, [], ◌∷◌, Bytes, bytes_eq, bytes_eq_iff, ◌≢◌, length, All, lookup, upsert, drop,
  codes, starts_with, ◌==◌, if◌then◌else◌, Outcome, done, Returns, Returns-bind, Returns-if,
  Returns-imp, arith, ap, ◌∙◌,
}
use afeye.Classify.Json.{Value, Values, get, as_str, as_array, as_u64, item, or_number}
use afeye.Classify.Stack.{first_stack_url}
use afeye.Classify.Stack.Url.{IsLong, first_stack_url_total}
use afeye.Classify.State.Sums.{
  HasLongUrls, Fits, Summed, arr_tn, bytes_ne, page_tn, line_tn, lines_tn, send_Summed,
}
use afeye.Classify.State.{
  SiteState, add_text, add_send, add_stack, add_request, add_response, add_body, add_socket,
  add_source, collect_page, collect_event, collect_line, collect_site, field_text,
}

upsert-All :
    (k : Bytes) (d : List Bytes) (f : List Bytes → List Bytes) (m : List (Bytes × List Bytes))
    → 10 < length k
    → All (λ p. 10 < length p.0) m
    → All (λ p. 10 < length p.0) (upsert k d f m)
unfolding upsert
upsert-All k d f [] l h = (l, tt)
upsert-All k d f ((j, v) ∷ m) l (a, h) = elim (Bool-cases (bytes_eq j k)) [
  | inl q ↦ rw q (a, h)
  | inr q ↦ rw q (a, upsert-All k d f m l h)
]

not_taint : codes "net:send" ≢ codes "_th"
not_taint e =
    let same : bytes_eq (codes "net:send") (codes "_th") ≡ true = (bytes_eq_iff _ _).1 e in cc

module _ (st : SiteState) where
  Same : SiteState → Type 0
  Same st' = (st'.script_tags ≡ st.script_tags) × (st'.tn_sum ≡ st.tn_sum)

  if_Same : (b : Bool) (x y : SiteState) → Same x → Same y → Same (if b then x else y)
  unfolding Same
  if_Same true x y p q = p
  if_Same false x y p q = q

  add_request-Same : (d : Value) → Same (add_request d st)
  unfolding Same add_request
  add_request-Same d = elim (Option-cases (lookup (field_text "rid" d) st.req)) [
    | inl e ↦ rw (e, add_request) (if_Same _ _ _ (refl, refl) (refl, refl))
    | inr (r, e) ↦ rw (e, add_request) (if_Same _ _ _ (refl, refl) (refl, refl))
  ]

  header_cases : (d : Value) (o : Option Value) → get "h" d ≡ o → Same (add_response d st)
  unfolding Same add_response
  header_cases d none e = rw (e, add_response) (refl, refl)
  header_cases d (some Value.null) e = rw (e, add_response) (refl, refl)
  header_cases d (some (Value.boolean b)) e = rw (e, add_response) (refl, refl)
  header_cases d (some (Value.unsigned n)) e = rw (e, add_response) (refl, refl)
  header_cases d (some (Value.other_number n)) e = rw (e, add_response) (refl, refl)
  header_cases d (some (Value.text s)) e = rw (e, add_response) (refl, refl)
  header_cases d (some (Value.array vs)) e = rw (e, add_response) (refl, refl)
  header_cases d (some (Value.object ms)) e = rw (e, add_response) (refl, refl)

  add_socket-Same : (d : Value) → Same (add_socket d st)
  unfolding Same add_socket
  add_socket-Same d = elim (Option-cases (as_str (get "u" d))) [
    | inl e ↦ rw (e, add_socket) (refl, refl)
    | inr (u, e) ↦ rw (e, add_socket) (if_Same _ _ _ (refl, refl) (refl, refl))
  ]

  collect_event-Same : (k : ℕ) (d : Value) → Same (collect_event k d st)
  unfolding Same collect_event add_body add_source
  collect_event-Same k d = if_Same (k == 1) _ _ (add_request-Same d) (
      if_Same (k == 2) _ _ (header_cases d (get "h" d) refl) (
        if_Same (k == 3) _ _ (refl, refl)
          (if_Same (k == 6) _ _ (add_socket-Same d)
            (if_Same (k == 8) _ _ (if_Same _ _ _ (refl, refl) (refl, refl)) (refl, refl)))))

  module _ (l : HasLongUrls st) (plus : Bytes → ℕ) (z : (k : Bytes) → plus k ≡ 0) where
    tagged_Summed :
        (tag : Bytes) (found : Option Bytes)
        → IsLong found
        → Summed plus st (elim found [
          | none ↦ st
          | some u ↦ record st { script_tags = upsert u [] (add_text tag) st.script_tags }
        ])
    tagged_Summed tag none h = (l, λ k. omega (arith, z k))
    tagged_Summed tag (some u) h =
        (upsert-All u [] (add_text tag) st.script_tags h l, λ k. omega (arith, z k))

    add_stack-Summed :
        (tag : Bytes) (arr : Values) → Returns (Summed plus st) (add_stack tag arr st)
    unfolding add_stack
    add_stack-Summed tag arr = elim (Option-cases (as_str (item arr 0))) [
      | inl e ↦ rw (e, add_stack) (l, λ k. omega (arith, z k))
      | inr (stack, e) ↦
          rw (e, add_stack)
            (Returns-bind IsLong (Summed plus st) (first_stack_url stack)
              (λ found. done (elim found [
                | none ↦ st
                | some u ↦ record st { script_tags = upsert u [] (add_text tag) st.script_tags }
              ]))
              (first_stack_url_total stack) (λ found h. tagged_Summed tag found h))
    ]

    Same-Summed : (st' : SiteState) → Same st' → Summed plus st st'
    unfolding Same
    Same-Summed st' (e, f) = (
      subst (λ m. All (λ p. 10 < length p.0) m) (sym e) l,
      λ k. ap (λ m. or_number (lookup k m) 0) f ∙ omega (arith, z k),
    )

  module _ (l : HasLongUrls st) (kk : Bytes) (arr : Values) where
    unsent : bytes_eq kk (codes "net:send") ≡ false → (k : Bytes) → page_tn kk arr k ≡ 0
    unsent q k = rw q refl

    collect_page-Summed :
        Fits (page_tn kk arr) st → Returns (Summed (page_tn kk arr) st) (collect_page kk arr st)
    unfolding collect_page
    collect_page-Summed fits = elim (Bool-cases (bytes_eq kk (codes "net:send"))) [
      | inl q ↦
          let e : kk ≡ codes "net:send" = (bytes_eq_iff kk (codes "net:send")).0 q in
          let sent : (k : Bytes) → page_tn kk arr k ≡ arr_tn arr k = λ k. rw q refl in
          Returns-if (Summed (page_tn kk arr) st) (bytes_eq kk (codes "_th")) _ _
            (λ t. absurd (not_taint (sym e ∙ (bytes_eq_iff kk (codes "_th")).0 t)))
            (λ _.
              Returns-if (Summed (page_tn kk arr) st) (bytes_eq kk (codes "net:send")) _ _
                (λ _.
                  Returns-imp (Summed (arr_tn arr) st) (Summed (page_tn kk arr) st)
                    (add_send arr st)
                    (send_Summed arr st l (as_str (item arr 0)) refl
                      (λ k. omega (arith, fits k, sent k)))
                    (λ r (l', h). (l', λ k. omega (arith, h k, sent k))))
                (λ f. absurd (bytes_ne kk (codes "net:send") f e)))
      | inr q ↦
          Returns-if _ (bytes_eq kk (codes "_th")) _ _ (λ _. (l, λ k. omega (arith, unsent q k)))
            (λ _. rw q (
              Returns-if (Summed (page_tn kk arr) st) (starts_with kk (codes "stk:")) _ _
                (λ _. add_stack-Summed l (page_tn kk arr) (unsent q) (drop 4 kk) arr)
                (λ _. (l, λ k. omega (arith, unsent q k)))))
    ]

  line_Summed :
      (o : Option Value)
      → HasLongUrls st
      → Fits (line_tn o) st
      → Returns
          (Summed (line_tn o) st)
          (elim o as (λ _. Outcome SiteState) [ none ↦ done st | some v ↦ collect_line v st ])
  unfolding collect_line
  line_Summed none l fits = (l, λ k. omega arith)
  line_Summed (some v) l fits = elim (Option-cases (as_str (get "kk" v))) [
    | inr (kk, e) ↦ elim (Option-cases (as_array (get "v" v))) [
      | inl f ↦ rw (e, collect_line, f) (l, λ k. rw (e, line_tn, f) (omega arith))
      | inr (arr, f) ↦
          let page : (k : Bytes) → line_tn (some v) k ≡ page_tn kk arr k =
            λ k. rw (e, line_tn, f) refl in
          rw (e, collect_line, f)
            (Returns-imp (Summed (page_tn kk arr) st) (Summed (line_tn (some v)) st)
              (collect_page kk arr st)
              (collect_page-Summed l kk arr (λ k. omega (arith, fits k, page k)))
              (λ r (l', h). (l', λ k. omega (arith, h k, page k))))
    ]
    | inl e ↦ elim (Option-cases (as_u64 (get "k" v))) [
      | inl f ↦ rw (e, collect_line, f) (l, λ j. rw (e, line_tn) (omega arith))
      | inr (k, f) ↦ elim (Option-cases (get "d" v)) [
        | inl g ↦ rw (e, collect_line, f, g) (l, λ j. rw (e, line_tn) (omega arith))
        | inr (d, g) ↦
            rw (e, collect_line, f, g)
              (Same-Summed l (line_tn (some v)) (λ j. rw (e, line_tn) refl) (collect_event k d st)
                (collect_event-Same k d))
      ]
    ]
  ]

-- Where no sum of an endpoint leaves its 64 bits, `collect_site` returns on any lines, without a
-- panic of the sums and within its fuel. The sum of each endpoint grows by the `tn` of all lines
-- `net:send` with a url of that endpoint, and the urls of the scripts with tags are longer than
-- ten bytes if they were before.
pub collect_site_total :
    (parse : Bytes → Option Value) (lines : List Bytes) (st : SiteState)
    → HasLongUrls st
    → Fits (lines_tn parse lines) st
    → Returns (Summed (lines_tn parse lines) st) (collect_site parse lines st)
unfolding collect_site
collect_site_total parse [] st l fits = (l, λ k. omega arith)
collect_site_total parse (line ∷ lines) st l fits =
    Returns-bind (Summed (line_tn (parse line)) st) (Summed (lines_tn parse (line ∷ lines)) st) _
      (collect_site parse lines) (line_Summed st (parse line) l (λ k. omega (arith, fits k)))
      (λ st' (l', e).
        Returns-imp (Summed (lines_tn parse lines) st') (Summed (lines_tn parse (line ∷ lines)) st)
          (collect_site parse lines st')
          (collect_site_total parse lines st' l' (λ k. omega (arith, fits k, e k)))
          (λ r (l'', e'). (l'', λ k. omega (arith, e k, e' k))))
