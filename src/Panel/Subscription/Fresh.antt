-- ===== src/Panel/Subscription/Fresh.antt =====
-- Which bodies are kept and which are served.
use Prim.Native.String.{◌++◌ as concat}
use text.Mathlib.TextLemmas.{append-eq-nil_iff}
use ladder_airport.Base.{
  Bool-cases, Option-cases, Result, ok, ℕ, ◌+◌, ◌≤◌, ◌<◌, String, ◌≡◌, refl, sym, ap, ◌∙◌, subst,
  ◌≢◌, ◌⊎◌, inl, inr, Bool, true, false, Option, none, some, List, [], ◌∷◌, arith, str_eq,
  str_eq_iff,
}
use ladder_airport.Panel.Subscription.{
  ExternalSource, get_external_source, with_entry, Outside, do_refresh, effective_ttl, stale_grace,
  younger, SourceBody, answer_of, no_body, reread, failed_answer, body_for_source,
}
use ladder_airport.Panel.Subscription.Cache.{
  IsGood, fetch_entry-IsGood, Refreshed, do_refresh-Refreshed, do_refresh-others, untouched, noted,
  renewed,
}

effective_ttl_bound : (sec : ℕ) → effective_ttl sec ≤ 86400
unfolding effective_ttl
effective_ttl_bound sec = ground arith

young_bound :
    (age now : ℕ) (src : ExternalSource)
    → age ≤ 172800
    → younger age now src ≡ true
    → now < src.last_success_unix + 172800
young_bound age now src small young = ground (arith, small, young)

body-no_body : (a : SourceBody) (w : String) → a ≡ no_body w → str_eq a.body "" ≡ true
body-no_body a w is = subst (λ x. str_eq x.body "" ≡ true) (sym is) refl

warned : (e : String) → concat "刷新失败，正在使用旧缓存：" e ≢ ""
warned e none_given =
    absurd (ground (arith, ap (λ t. str_eq t "") (append-eq-nil_iff.0 none_given).0))

-- The answer is the body of the source in the table, and younger than two days.
pub Serves : ℕ → String → SourceBody → List ExternalSource → Type 0
Serves now id answer rows =
    (src : ExternalSource) × (get_external_source none id rows ≡ ok src)
    × (src.cached_body ≡ answer.body)
    × (src.content_type ≡ answer.kind)
    × (now < src.last_success_unix + 172800)

module _ {ℓ} {Endpoint : Type ℓ} (detect_and_parse : String → Result (List Endpoint × String)) where
  -- Refreshes one after the other, of any sources.
  unfoldable pub refreshes : List (Outside × String) → List ExternalSource → List ExternalSource
  refreshes [] rows = rows
  refreshes ((out, id) ∷ calls) rows = refreshes calls (do_refresh detect_and_parse out id rows).1

  Refreshed-IsGood :
      (out : Outside) (src src' : ExternalSource) (e : Option String)
      → Refreshed detect_and_parse out src e src'
      → IsGood detect_and_parse src
      → IsGood detect_and_parse src'
  unfolding IsGood
  Refreshed-IsGood out src _ _ (untouched e) good = good
  Refreshed-IsGood out src _ _ (noted e) good = good
  Refreshed-IsGood out src _ _ (renewed entry got) good =
      (fetch_entry-IsGood detect_and_parse out src entry got).0

  refresh-IsGood :
      (out : Outside) (id other : String) (rows : List ExternalSource) (src : ExternalSource)
      → get_external_source none id rows ≡ ok src
      → IsGood detect_and_parse src
      → (src' : ExternalSource) × (get_external_source none id
            (do_refresh detect_and_parse out other rows).1
          ≡ ok src')
        × IsGood detect_and_parse src'
  refresh-IsGood out id other rows src found good = elim (Bool-cases (str_eq other id)) [
    | inr ne ↦ (src, do_refresh-others detect_and_parse out other id rows ne ∙ found, good)
    | inl same ↦
        let is : id ≡ other = sym ((str_eq_iff other id).0 same) in
        let (src', found', how) = do_refresh-Refreshed detect_and_parse out id rows src found in
        (
          src',
          subst
              (λ i.
                get_external_source none id (do_refresh detect_and_parse out i rows).1 ≡ ok src')
              is found',
          Refreshed-IsGood out src src' (do_refresh detect_and_parse out id rows).0 how good,
        )
  ]

  -- Whatever refreshes of any sources fail or succeed, in the network, in the parser or in the
  -- database: a source whose cached body has proxies, of the kind and in the number kept with it, has
  -- such a body after them.
  pub refreshes-IsGood :
      (calls : List (Outside × String)) (id : String) (rows : List ExternalSource)
      (src : ExternalSource)
      → get_external_source none id rows ≡ ok src
      → IsGood detect_and_parse src
      → (src' : ExternalSource) × (get_external_source none id (refreshes calls rows) ≡ ok src')
        × IsGood detect_and_parse src'
  unfolding refreshes
  refreshes-IsGood [] id rows src found good = (src, found, good)
  refreshes-IsGood ((out, other) ∷ calls) id rows src found good =
      let (src', found', good') = refresh-IsGood out id other rows src found good in
      refreshes-IsGood calls id (do_refresh detect_and_parse out other rows).1 src' found' good'

  abbrev Claim : ℕ → String → SourceBody × List ExternalSource → Type 0
  Claim now id r = r.0.warning ≡ "" → str_eq r.0.body "" ≡ false → Serves now id r.0 r.1

  failed-Claim :
      (now : ℕ) (id e : String) (src : ExternalSource) (rows : List ExternalSource)
      → Claim now id (failed_answer e src, rows)
  failed-Claim now id e src rows quiet has_body = elim (Bool-cases (str_eq src.cached_body "")) [
    | inl empty ↦
        let shown : failed_answer e src ≡ no_body (concat "刷新失败：" e) = ground (arith, empty) in
        let gone = body-no_body (failed_answer e src) (concat "刷新失败：" e) shown in
        absurd (ground (arith, gone, has_body))
    | inr full ↦
        let shown : (failed_answer e src).warning ≡ concat "刷新失败，正在使用旧缓存：" e =
          ground (arith, full) in
        absurd (warned e (sym shown ∙ quiet))
  ]

  reread-Claim :
      (out : Outside) (fault : Option String) (src src' : ExternalSource)
      (rows : List ExternalSource)
      → get_external_source none src.id rows ≡ ok src'
      → Refreshed detect_and_parse out src none src'
      → Claim out.now src.id (reread fault src.id rows, rows)
  unfolding Serves
  reread-Claim out fault src _ rows found (renewed entry got) quiet has_body =
      let src' = with_entry out.now entry src in
      elim (Option-cases fault) [
        | inr (e, broken) ↦
            let shown : reread fault src.id rows ≡ no_body "刷新结果为空，未更新缓存" =
              unfold reread get_external_source in (ground (arith, broken)) in
            let gone = body-no_body (reread fault src.id rows) "刷新结果为空，未更新缓存" shown in
            absurd (ground (arith, gone, has_body))
        | inl fine ↦ elim (Bool-cases (str_eq entry.body "")) [
          | inl empty ↦
              let shown : reread fault src.id rows ≡ no_body "刷新结果为空，未更新缓存" =
                unfold reread in (ground (arith, fine, found, empty)) in
              let gone = body-no_body (reread fault src.id rows) "刷新结果为空，未更新缓存" shown in
              absurd (ground (arith, gone, has_body))
          | inr full ↦
              let is : answer_of src' false "" ≡ reread fault src.id rows =
                unfold reread in (ground (arith, fine, found, full)) in
              let now_is = (fetch_entry-IsGood detect_and_parse out src entry got).1 in
              subst (λ a. Serves out.now src.id a rows) is
                (src', found, refl, refl, omega (arith, now_is))
        ]
      ]

  young-Claim :
      (now age : ℕ) (src : ExternalSource) (b : Bool) (rows : List ExternalSource)
      → get_external_source none src.id rows ≡ ok src
      → age ≤ 172800
      → younger age now src ≡ true
      → Claim now src.id (answer_of src b "", rows)
  unfolding Serves
  young-Claim now age src b rows found small young quiet has_body =
      (src, found, refl, refl, young_bound age now src small young)

  -- An answer with a body and without a warning, with the source found in the table and whatever
  -- fails: it is the body and the kind that the table has for the source after it, and their last
  -- success is less than two days old.
  pub body_for_source-Serves :
      (out : Outside) (reread_fault : Option String) (src : ExternalSource)
      (rows : List ExternalSource)
      → get_external_source none src.id rows ≡ ok src
      → (body_for_source detect_and_parse out reread_fault src rows).0.warning ≡ ""
      → str_eq (body_for_source detect_and_parse out reread_fault src rows).0.body "" ≡ false
      → Serves out.now src.id
          (body_for_source detect_and_parse out reread_fault src rows).0
          (body_for_source detect_and_parse out reread_fault src rows).1
  body_for_source-Serves out reread_fault src rows found =
      elim (Bool-cases (younger ttl out.now src)) [
        | inl young ↦
            at (answer_of src false "", rows) (unfold body_for_source in (ground (arith, young)))
              (young-Claim out.now ttl src false rows found (omega (arith, small)) young)
        | inr old ↦ elim (Bool-cases (younger (ttl + stale_grace) out.now src)) [
          | inl young ↦
              at (answer_of src true "", rows)
                (unfold body_for_source in (ground (arith, old, young)))
                (young-Claim out.now (ttl + stale_grace) src true rows found (omega (arith, small))
                  young)
          | inr stale ↦ refreshed old stale (Option-cases r.0)
        ]
      ]
    where
      ttl : ℕ
      ttl = effective_ttl src.refresh_interval_sec

      small : ttl ≤ 86400
      small = effective_ttl_bound src.refresh_interval_sec

      r : Option String × List ExternalSource
      r = do_refresh detect_and_parse out src.id rows

      answer : SourceBody × List ExternalSource
      answer = body_for_source detect_and_parse out reread_fault src rows

      at :
          (a : SourceBody × List ExternalSource)
          → answer ≡ a
          → Claim out.now src.id a
          → Claim out.now src.id answer
      at a e c = subst (Claim out.now src.id) (sym e) c

      refreshed :
          younger ttl out.now src ≡ false
          → younger (ttl + stale_grace) out.now src ≡ false
          → (r.0 ≡ none) ⊎ ((e : String) × (r.0 ≡ some e))
          → Claim out.now src.id answer
      refreshed old stale (inr (e, failed)) =
          at (failed_answer e src, r.1)
            (unfold body_for_source in (ground (arith, old, stale, failed)))
            (failed-Claim out.now src.id e src r.1)
      refreshed old stale (inl fine) =
          let (src', found', how) =
            do_refresh-Refreshed detect_and_parse out src.id rows src found in
          at (reread reread_fault src.id r.1, r.1)
            (unfold body_for_source in (ground (arith, old, stale, fine)))
            (reread-Claim out reread_fault src src' r.1 found'
              (subst (λ e. Refreshed detect_and_parse out src e src') fine how))
