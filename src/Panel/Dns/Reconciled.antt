-- ===== src/Panel/Dns/Reconciled.antt =====
-- The table and the provider after `Reconcile`.
use ladder_airport.Base.{
  Option-cases, Result-cases, ok, ℕ, String, ◌≡◌, refl, sym, ap, ◌∙◌, subst, inl, inr, true, false,
  Option, none, arith,
}
use ladder_airport.Panel.Dns.{
  RecordType, ManagedDomain, target_of, get_managed_domain, Outside, a_record, aaaa_record,
  cname_record, ready,
}
use ladder_airport.Panel.Dns.Rows.{get-id, get-update}
use ladder_airport.Panel.Dns.Desired.{Wanted, desired_addresses}
use ladder_airport.Panel.Dns.Converge.{set_desired, converge}
use ladder_airport.Panel.Dns.Verified.{IsVerified}
use ladder_airport.Panel.Dns.Success.{SameRow, converge-id, converge-IsVerified}
use ladder_airport.Panel.Dns.Service.{
  Service, Tables, after_success, provider_for_domain, reconcile_domain, is_paused, store_domain,
  run_reconcile, reconcile,
}

-- The wanted addresses are those of the domain's source, its name is relative to its zone, and each
-- record type is as they ask.
pub record IsReconciled {S : Type 0} (s : Service S) (d d' : ManagedDomain) (w : Outside S)
    : Type 0 where
  pub wanted : Wanted
  pub name : String
  pub wanted_is : desired_addresses s.network d ≡ ok wanted
  pub name_is : s.network.relative_name d.fqdn d.zone ≡ ok name
  pub verified :
      (type : RecordType)
      → IsVerified d.record_mode type wanted d.zone name (target_of type d') w.calls

last-target :
    (type : RecordType) (now : ℕ) (d : ManagedDomain)
    → target_of type (record d { last_reconcile_unix = now }) ≡ target_of type d
last-target a_record now d = refl
last-target aaaa_record now d = refl
last-target cname_record now d = refl

success-target :
    (type : RecordType) (now : ℕ) (note : String) (d : ManagedDomain)
    → target_of type d
      ≡ target_of type (record (after_success now note d) { updated_at_unix = now })
unfolding after_success
success-target a_record now note d = refl
success-target aaaa_record now note d = refl
success-target cname_record now note d = refl

module _ {S : Type 0} (s : Service S) where
  reconcile_domain-IsReconciled :
      (d : ManagedDomain) (w : Outside S) (note : String)
      → (reconcile_domain s (d, w)).0 ≡ ok note
      → SameRow d (reconcile_domain s (d, w)).1.0
        × IsReconciled s d (reconcile_domain s (d, w)).1.0 (reconcile_domain s (d, w)).1.1
  reconcile_domain-IsReconciled d w note fine = elim (Result-cases (provider_for_domain s d)) [
    | inr (e, failed) ↦ absurd (unfold reconcile_domain in (ground (arith, fine, failed)))
    | inl ((provider, credentials), opened) ↦ elim (Result-cases (desired_addresses s.network d)) [
      | inr (e, failed) ↦ absurd (unfold reconcile_domain in (ground (arith, fine, opened, failed)))
      | inl (wanted, found) ↦ elim (Result-cases (s.network.relative_name d.fqdn d.zone)) [
        | inr (e, failed) ↦
            absurd (unfold reconcile_domain in (ground (arith, fine, opened, found, failed)))
        | inl (name, named) ↦
            let redact = s.redact credentials in
            let r = converge provider redact name d wanted (set_desired wanted d, w) in
            elim (Option-cases r.0) [
              | inr (e, failed) ↦
                  absurd (
                    unfold reconcile_domain in (ground (arith, fine, opened, found, named, failed)))
              | inl done ↦
                  let same : (record (r.1.0) { last_reconcile_unix = s.now }, r.1.1)
                      ≡ (reconcile_domain s (d, w)).1 =
                    unfold reconcile_domain in (ground (arith, opened, found, named, done)) in
                  subst (λ x. SameRow d x.0 × IsReconciled s d x.0 x.1) same
                    (
                      converge-id provider redact name d wanted (set_desired wanted d, w),
                      record {
                        wanted = wanted;
                        name = name;
                        wanted_is = found;
                        name_is = named;
                        verified = λ type.
                            subst
                              (λ t. IsVerified d.record_mode type wanted d.zone name t r.1.1.calls)
                              (sym (last-target type s.now r.1.0))
                              (converge-IsVerified provider redact name type d wanted w done);
                      },
                    )
            ]
      ]
    ]
  ]

  -- A run that returns no error has stored the row.
  run_reconcile-IsReconciled :
      (d : ManagedDomain) (t : Tables S)
      → (run_reconcile s d t).0 ≡ none
      → (d' : ManagedDomain) × (get_managed_domain d.id (run_reconcile s d t).1.domains ≡ ok d')
        × (d'.state ≡ ready)
        × IsReconciled s d d' (run_reconcile s d t).1.outside
  run_reconcile-IsReconciled d t fine = elim (Result-cases (reconcile_domain s (d, t.outside)).0) [
    | inr (e, failed) ↦ absurd (unfold run_reconcile in (ground (arith, fine, failed)))
    | inl (note, noted) ↦
        let x = (reconcile_domain s (d, t.outside)).1 in
        let (id_is, reconciled) = reconcile_domain-IsReconciled d t.outside note noted in
        let d' = after_success s.now note x.0 in
        let stored = store_domain s d' t.domains in
        let same : (stored.0, record { domains = stored.1; outside = x.1 }) ≡ run_reconcile s d t =
          unfold run_reconcile in (ground (arith, noted)) in
        let fine' : stored.0 ≡ none = ap (λ r. r.0) same ∙ fine in
        let read = get-update s.accounts s.now d' t.domains fine' in
        let id_same : d'.id ≡ d.id = unfold after_success in id_is.0 in
        subst
          (λ (r : Option String × Tables S).
            (y : ManagedDomain) × (get_managed_domain d.id r.1.domains ≡ ok y)
            × (y.state ≡ ready)
            × IsReconciled s d y r.1.outside)
          same
          (
            record d' { updated_at_unix = s.now },
            subst (λ i. get_managed_domain i stored.1 ≡ ok (record d' { updated_at_unix = s.now }))
                id_same read,
            unfold after_success in refl,
            record {
              wanted = reconciled.wanted;
              name = reconciled.name;
              wanted_is = reconciled.wanted_is;
              name_is = reconciled.name_is;
              verified = λ type.
                  subst
                    (λ y.
                      IsVerified d.record_mode type reconciled.wanted d.zone reconciled.name y
                        x.1.calls)
                    (success-target type s.now note x.0) (reconciled.verified type);
            },
          )
  ]

  -- `Reconcile` of an enabled domain that no node's switch holds back, without an error: the row of the
  -- domain is ready. For each record type that its mode manages, the last lookup of its name at the
  -- provider has shown just the address of the domain's source, and the row has it as desired and
  -- observed; the columns of the other types are clear.
  pub reconcile-IsReconciled :
      (id : String) (d : ManagedDomain) (t : Tables S)
      → get_managed_domain id t.domains ≡ ok d
      → d.enabled ≡ true
      → is_paused s d ≡ ok false
      → (reconcile s id t).0 ≡ none
      → (d' : ManagedDomain) × (get_managed_domain id (reconcile s id t).1.domains ≡ ok d')
        × (d'.state ≡ ready)
        × IsReconciled s d d' (reconcile s id t).1.outside
  reconcile-IsReconciled id d t found on runs fine =
      let same : run_reconcile s d t ≡ reconcile s id t =
        unfold reconcile in (ground (arith, found, on, runs)) in
      subst
        (λ i.
          (d' : ManagedDomain) × (get_managed_domain i (reconcile s id t).1.domains ≡ ok d')
          × (d'.state ≡ ready)
          × IsReconciled s d d' (reconcile s id t).1.outside)
        (get-id id t.domains d found)
        (subst
          (λ (r : Option String × Tables S).
            (d' : ManagedDomain) × (get_managed_domain d.id r.1.domains ≡ ok d')
            × (d'.state ≡ ready)
            × IsReconciled s d d' r.1.outside)
          same (run_reconcile-IsReconciled d t (ap (λ r. r.0) same ∙ fine)))
