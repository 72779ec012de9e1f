-- ===== src/Panel/Dns/Schedule.antt =====
-- When a domain is due again.
use ladder_airport.Base.{
  Option-cases, Result-cases, err, ok, ℕ, ◌+◌, ◌≤◌, String, ◌≡◌, refl, sym, ◌∙◌, subst, ◌⊎◌, inl,
  inr, true, false, some, List, [], ◌∷◌, arith,
}
use ladder_airport.Panel.Dns.{
  ManagedDomain, DnsAccount, get_managed_domain, is_taken, update_managed_domain, is_due, Outside,
}
use ladder_airport.Panel.Dns.Rows.{get-id, get-update, update-failed}
use ladder_airport.Panel.Dns.Desired.{desired_addresses}
use ladder_airport.Panel.Dns.Converge.{set_desired}
use ladder_airport.Panel.Dns.Success.{SameRow, converge-id}
use ladder_airport.Panel.Dns.Service.{
  retry_delay, Service, Tables, after_failure, after_success, pause, provider_for_domain,
  reconcile_domain, is_paused, store_domain, run_reconcile, reconcile,
}

retry_delay_bounds : (n : ℕ) → (60 ≤ retry_delay n) × (retry_delay n ≤ 21600)
unfolding retry_delay
retry_delay_bounds n = ground arith

is_taken-same :
    (d x : ManagedDomain) (ds : List ManagedDomain) → SameRow d x → is_taken x ds ≡ is_taken d ds
unfolding is_taken
is_taken-same d x [] same = refl
is_taken-same d x (y ∷ ys) same = ground (arith, same, is_taken-same d x ys same)

-- Whether an update is refused depends on the columns that no reconciliation changes.
update-same :
    (accounts : List DnsAccount) (now : ℕ) (d x : ManagedDomain) (ds : List ManagedDomain)
    → SameRow d x
    → (update_managed_domain accounts now x ds).0 ≡ (update_managed_domain accounts now d ds).0
unfolding update_managed_domain
update-same accounts now d x ds same = ground (arith, same, is_taken-same d x ds same)

-- Why a row may stay as it is: its node is missing, or the store refuses an update of it.
pub data IsStuck {S : Type 0} (s : Service S) (d : ManagedDomain) (ds : List ManagedDomain)
    : Type 0 where
  no_node : (e : String) → is_paused s d ≡ err e → IsStuck s d ds
  not_stored : (e : String) → (store_domain s d ds).0 ≡ some e → IsStuck s d ds

-- From the rows `ds` to `ds'`: the row is in the table and due within six hours; it is not due for a
-- minute, unless it stayed as it was for a reason.
pub IsDueAgain :
    {S : Type 0}
    → Service S
    → ManagedDomain
    → String
    → List ManagedDomain
    → List ManagedDomain
    → Type 0
IsDueAgain s d id ds ds' =
    (d' : ManagedDomain) × (get_managed_domain id ds' ≡ ok d')
    × (is_due (s.now + 21600) d' ≡ true)
    × (((d' ≡ d) × IsStuck s d ds) ⊎ (s.now + 60 ≤ d'.next_reconcile_unix))

module _ {S : Type 0} (s : Service S) (d : ManagedDomain) where
  reconcile_domain-SameRow : (w : Outside S) → SameRow d (reconcile_domain s (d, w)).1.0
  reconcile_domain-SameRow w = elim (Result-cases (provider_for_domain s d)) [
    | inr (e, failed) ↦ unfold reconcile_domain in (ground (arith, failed))
    | inl ((provider, credentials), opened) ↦ elim (Result-cases (desired_addresses s.network d)) [
      | inr (e, failed) ↦ unfold reconcile_domain in (ground (arith, opened, failed))
      | inl (wanted, found) ↦ elim (Result-cases (s.network.relative_name d.fqdn d.zone)) [
        | inr (e, failed) ↦ unfold reconcile_domain in (ground (arith, opened, found, failed))
        | inl (name, named) ↦
            unfold reconcile_domain in
            (ground (
              arith,
              opened,
              found,
              named,
              converge-id provider (s.redact credentials) name d wanted (set_desired wanted d, w),
            ))
      ]
    ]
  ]

  -- A row that is stored or not.
  stored-IsDueAgain :
      (id : String) (x : ManagedDomain) (ds : List ManagedDomain)
      → get_managed_domain id ds ≡ ok d
      → is_due s.now d ≡ true
      → SameRow d x
      → s.now + 60 ≤ x.next_reconcile_unix
      → x.next_reconcile_unix ≤ s.now + 21600
      → IsDueAgain s d id ds (store_domain s x ds).1
  unfolding IsDueAgain
  stored-IsDueAgain id x ds found due same late soon = elim (Option-cases (store_domain s x ds).0) [
    | inr (e, bad) ↦ (
      d,
      subst (λ l. get_managed_domain id l ≡ ok d) (sym (update-failed s.accounts s.now x ds e bad))
          found,
      ground (arith, due),
      inl (refl, not_stored e (sym (update-same s.accounts s.now d x ds same) ∙ bad)),
    )
    | inl fine ↦
        let id_is : x.id ≡ id = same.0 ∙ get-id id ds d found in
        (
          record x { updated_at_unix = s.now },
          subst
              (λ i.
                get_managed_domain i (store_domain s x ds).1
                ≡ ok (record x { updated_at_unix = s.now }))
              id_is (get-update s.accounts s.now x ds fine),
          ground (arith, due, same.1, soon),
          inr late,
        )
  ]

  run_reconcile-IsDueAgain :
      (id : String) (t : Tables S)
      → get_managed_domain id t.domains ≡ ok d
      → is_due s.now d ≡ true
      → IsDueAgain s d id t.domains (run_reconcile s d t).1.domains
  run_reconcile-IsDueAgain id t found due =
      elim (Result-cases (reconcile_domain s (d, t.outside)).0) [
        | inr (e, failed) ↦
            let x' = after_failure s.now e x in
            let same : (store_domain s x' t.domains).1 ≡ (run_reconcile s d t).1.domains =
              unfold run_reconcile in (ground (arith, failed)) in
            let bounds = retry_delay_bounds (x.retry_count + 1) in
            subst (IsDueAgain s d id t.domains) same (
              stored-IsDueAgain id x' t.domains found due (unfold after_failure in row)
                (unfold after_failure in (omega (arith, bounds)))
                (unfold after_failure in (omega (arith, bounds))))
        | inl (note, noted) ↦
            let x' = after_success s.now note x in
            let same : (store_domain s x' t.domains).1 ≡ (run_reconcile s d t).1.domains =
              unfold run_reconcile in (ground (arith, noted)) in
            subst (IsDueAgain s d id t.domains) same (
              stored-IsDueAgain id x' t.domains found due (unfold after_success in row)
                (unfold after_success in (omega arith)) (unfold after_success in (omega arith)))
      ]
    where
      x : ManagedDomain
      x = (reconcile_domain s (d, t.outside)).1.0

      row : SameRow d x
      row = reconcile_domain-SameRow t.outside

  -- `Reconcile` of a domain that is due, whatever fails: its row is still there and is due again within
  -- six hours, and it is not due for a minute. Only if the lookup of its node fails, or the store
  -- refuses an update of it, the row may be the one that it was.
  pub reconcile-IsDueAgain :
      (id : String) (t : Tables S)
      → get_managed_domain id t.domains ≡ ok d
      → is_due s.now d ≡ true
      → IsDueAgain s d id t.domains (reconcile s id t).1.domains
  unfolding IsDueAgain
  reconcile-IsDueAgain id t found due = elim (Result-cases (is_paused s d)) [
    | inr (e, failed) ↦
        let same : t ≡ (reconcile s id t).1 =
          unfold reconcile in (ground (arith, found, on, failed)) in
        subst (λ x. IsDueAgain s d id t.domains x.domains) same
          (d, found, ground (arith, due), inl (refl, no_node e failed))
    | inl (true, waits) ↦
        let same : record t { domains = (store_domain s (pause s.now d) t.domains).1 }
            ≡ (reconcile s id t).1 =
          unfold reconcile in (ground (arith, found, on, waits)) in
        subst (λ x. IsDueAgain s d id t.domains x.domains) same
          (stored-IsDueAgain id (pause s.now d) t.domains found due
            (unfold pause in (refl, refl, refl, refl, refl)) (unfold pause in (omega arith))
            (unfold pause in (omega arith)))
    | inl (false, runs) ↦
        let same : (run_reconcile s d t).1 ≡ (reconcile s id t).1 =
          unfold reconcile in (ground (arith, found, on, runs)) in
        subst (λ x. IsDueAgain s d id t.domains x.domains) same
          (run_reconcile-IsDueAgain id t found due)
  ]
    where
      on : d.enabled ≡ true
      on = ground (arith, due)
