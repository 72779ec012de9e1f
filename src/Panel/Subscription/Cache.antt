-- ===== src/Panel/Subscription/Cache.antt =====
-- What refreshes do to the cached bodies.
use Prim.Native.String.{◌++◌ as concat}
use ladder_airport.Base.{
  ◌==◌, if◌then◌else◌, Bool-cases, Option-cases, length, Result, Result-cases, err, ok, ℕ, ◌<◌,
  String, ◌≡◌, refl, sym, ◌∙◌, subst, ◌⊎◌, inl, inr, false, Option, none, some, List, [], ◌∷◌,
  arith, str_eq, str_eq_iff, str_eq_refl,
}
use ladder_airport.Panel.Subscription.{
  ExternalSource, get_external_source, CacheEntry, with_entry, update_source, has_source,
  save_external_source_cache, Outside, failed_entry, good_entry, fetch_entry, do_refresh,
}

abbrev on_source : (ExternalSource → ExternalSource) → Result ExternalSource → Result ExternalSource
on_source f (err e) = err e
on_source f (ok src) = ok (f src)

pub get-update_source :
    (f : ExternalSource → ExternalSource) (i j : String) (rows : List ExternalSource)
    → ((src : ExternalSource) → (f src).id ≡ src.id)
    → get_external_source none j (update_source f i rows) ≡ (
        if str_eq i j
        then on_source f (get_external_source none j rows)
        else get_external_source none j rows)
unfolding get_external_source update_source
get-update_source f i j [] keeps = ground arith
get-update_source f i j (src ∷ rows) keeps = ground (
  arith,
  get-update_source f i j rows keeps,
  keeps src,
  str_eq_iff src.id i,
  str_eq_iff src.id j,
  str_eq_iff i j,
)

-- Saving changes nothing, with an error, or writes the entry.
pub save-cases :
    (fault : Option String) (now : ℕ) (id : String) (entry : CacheEntry)
    (rows : List ExternalSource)
    → ((e : String) × (save_external_source_cache fault now id entry rows ≡ (some e, rows)))
      ⊎ (save_external_source_cache fault now id entry rows
          ≡ (none, update_source (with_entry now entry) id rows))
unfolding save_external_source_cache
save-cases fault now id entry rows = elim (Bool-cases (str_eq id "")) [
  | inl empty ↦ inl ("必须提供外部源 ID", ground (arith, empty))
  | inr named ↦ elim (Option-cases fault) [
    | inr (e, broken) ↦ inl (concat "保存外部源缓存失败：" e, ground (arith, named, broken))
    | inl fine ↦ elim (Bool-cases (has_source id rows)) [
      | inl found ↦ inr (ground (arith, named, fine, found))
      | inr missing ↦ inl (concat "外部源不存在：" id, ground (arith, named, fine, missing))
    ]
  ]
]

ok-inj : {x y : ExternalSource} → ok x ≡ ok y → x ≡ y
ok-inj e = ground (arith, e)

get-no_fault :
    (fault : Option String) (id : String) (rows : List ExternalSource) (src : ExternalSource)
    → get_external_source fault id rows ≡ ok src
    → get_external_source none id rows ≡ ok src
unfolding get_external_source
get-no_fault none id rows src e = e
get-no_fault (some f) id rows src e = absurd (ground (arith, e))

module _ {ℓ} {Endpoint : Type ℓ} (detect_and_parse : String → Result (List Endpoint × String)) where
  -- A cached body has proxies, of the kind and in the number kept with it.
  unfoldable pub IsGood : ExternalSource → Type ℓ
  IsGood src =
      (eps : List Endpoint) × (detect_and_parse src.cached_body ≡ ok (eps, src.content_type))
      × (src.cached_proxy_count ≡ length eps)
      × (0 < length eps)

  -- The entry of a fetch is good and of now.
  pub fetch_entry-IsGood :
      (out : Outside) (src : ExternalSource) (entry : CacheEntry)
      → fetch_entry detect_and_parse out src ≡ ok entry
      → IsGood (with_entry out.now entry src) × (entry.success_unix ≡ out.now)
  unfolding fetch_entry IsGood
  fetch_entry-IsGood out src entry e = elim (Result-cases (out.fetch_url src.url src.headers)) [
    | inr (x, failed) ↦ absurd (ground (arith, e, failed))
    | inl (body, got) ↦ elim (Result-cases (detect_and_parse body)) [
      | inr (x, failed) ↦ absurd (ground (arith, e, got, failed))
      | inl ((eps, kind), parsed) ↦ elim (Bool-cases (length eps == 0)) [
        | inl none_found ↦ absurd (ground (arith, e, got, parsed, none_found))
        | inr found ↦
            let is : good_entry out.now body kind (length eps) ≡ entry =
              ground (arith, e, got, parsed, found) in
            subst (λ x. IsGood (with_entry out.now x src) × (x.success_unix ≡ out.now)) is
              ((eps, parsed, refl, ground (arith, found)), refl)
      ]
    ]
  ]

  -- What a refresh does to the table.
  data Outcome (out : Outside) (id : String) (rows : List ExternalSource)
      : Option String × List ExternalSource → Type ℓ where
    unchanged : (e : String) → Outcome out id rows (some e, rows)
    rejected :
        (src : ExternalSource) (e : String)
        → get_external_source none id rows ≡ ok src
        → Outcome out id rows
            (some e, update_source (with_entry out.now (failed_entry src out.now e)) id rows)
    replaced :
        (src : ExternalSource) (entry : CacheEntry)
        → get_external_source none id rows ≡ ok src
        → fetch_entry detect_and_parse out src ≡ ok entry
        → Outcome out id rows (none, update_source (with_entry out.now entry) id rows)

  do_refresh-Outcome :
      (out : Outside) (id : String) (rows : List ExternalSource)
      → Outcome out id rows (do_refresh detect_and_parse out id rows)
  do_refresh-Outcome out id rows = elim (Result-cases (get_external_source out.get_fault id rows)) [
    | inr (e, failed) ↦
        at (some e, rows) (unchanged e) (unfold do_refresh in (ground (arith, failed)))
    | inl (src, found) ↦ elim (Result-cases (fetch_entry detect_and_parse out src)) [
      | inr (e, failed) ↦
          elim (save-cases out.save_fault out.now id (failed_entry src out.now e) rows) [
            | inl (_, same) ↦
                at (some e, rows) (unchanged e)
                  (unfold do_refresh in (ground (arith, found, failed, same)))
            | inr wrote ↦
                at (some e, update_source (with_entry out.now (failed_entry src out.now e)) id rows)
                  (rejected src e (get-no_fault out.get_fault id rows src found))
                  (unfold do_refresh in (ground (arith, found, failed, wrote)))
          ]
      | inl (entry, fetched_it) ↦ elim (save-cases out.save_fault out.now id entry rows) [
        | inl (e, same) ↦
            at (some e, rows) (unchanged e)
              (unfold do_refresh in (ground (arith, found, fetched_it, same)))
        | inr wrote ↦
            at (none, update_source (with_entry out.now entry) id rows)
              (replaced src entry (get-no_fault out.get_fault id rows src found) fetched_it)
              (unfold do_refresh in (ground (arith, found, fetched_it, wrote)))
      ]
    ]
  ]
    where
      at :
          (r : Option String × List ExternalSource)
          → Outcome out id rows r
          → do_refresh detect_and_parse out id rows ≡ r
          → Outcome out id rows (do_refresh detect_and_parse out id rows)
      at r o e = subst (Outcome out id rows) (sym e) o

  -- What a refresh does to the row of a source.
  pub data Refreshed (out : Outside) (src : ExternalSource)
      : Option String → ExternalSource → Type ℓ where
    untouched : (e : String) → Refreshed out src (some e) src
    noted :
        (e : String)
        → Refreshed out src (some e) (with_entry out.now (failed_entry src out.now e) src)
    renewed :
        (entry : CacheEntry)
        → fetch_entry detect_and_parse out src ≡ ok entry
        → Refreshed out src none (with_entry out.now entry src)

  Outcome-Refreshed :
      (out : Outside) (id : String) (rows : List ExternalSource) (src : ExternalSource)
      (r : Option String × List ExternalSource)
      → get_external_source none id rows ≡ ok src
      → Outcome out id rows r
      → (src' : ExternalSource) × (get_external_source none id r.1 ≡ ok src')
        × Refreshed out src r.0 src'
  Outcome-Refreshed out id rows src _ found (unchanged e) = (src, found, untouched e)
  Outcome-Refreshed out id rows src _ found (rejected s e found') =
      let same : s ≡ src = ok-inj (sym found' ∙ found) in
      (
        with_entry out.now (failed_entry src out.now e) src,
        ground (
          arith,
          found,
          str_eq_refl id,
          same,
          get-update_source (with_entry out.now (failed_entry s out.now e)) id id rows (λ x. refl),
        ),
        noted e,
      )
  Outcome-Refreshed out id rows src _ found (replaced s entry found' got) =
      let same : s ≡ src = ok-inj (sym found' ∙ found) in
      (
        with_entry out.now entry src,
        ground (
          arith,
          found,
          str_eq_refl id,
          get-update_source (with_entry out.now entry) id id rows (λ x. refl),
        ),
        renewed entry (subst (λ x. fetch_entry detect_and_parse out x ≡ ok entry) same got),
      )

  Outcome-others :
      (out : Outside) (id other : String) (rows : List ExternalSource)
      (r : Option String × List ExternalSource)
      → str_eq id other ≡ false
      → Outcome out id rows r
      → get_external_source none other r.1 ≡ get_external_source none other rows
  Outcome-others out id other rows _ ne (unchanged e) = refl
  Outcome-others out id other rows _ ne (rejected s e _) = ground (
    arith,
    ne,
    get-update_source (with_entry out.now (failed_entry s out.now e)) id other rows (λ x. refl),
  )
  Outcome-others out id other rows _ ne (replaced s entry _ _) =
      ground (arith, ne, get-update_source (with_entry out.now entry) id other rows (λ x. refl))

  -- A refresh and the row of its source.
  pub do_refresh-Refreshed :
      (out : Outside) (id : String) (rows : List ExternalSource) (src : ExternalSource)
      → get_external_source none id rows ≡ ok src
      → (src' : ExternalSource) × (get_external_source none id
            (do_refresh detect_and_parse out id rows).1
          ≡ ok src')
        × Refreshed out src (do_refresh detect_and_parse out id rows).0 src'
  do_refresh-Refreshed out id rows src found =
      Outcome-Refreshed out id rows src (do_refresh detect_and_parse out id rows) found
        (do_refresh-Outcome out id rows)

  pub do_refresh-others :
      (out : Outside) (id other : String) (rows : List ExternalSource)
      → str_eq id other ≡ false
      → get_external_source none other (do_refresh detect_and_parse out id rows).1
        ≡ get_external_source none other rows
  do_refresh-others out id other rows ne =
      Outcome-others out id other rows (do_refresh detect_and_parse out id rows) ne
        (do_refresh-Outcome out id rows)
