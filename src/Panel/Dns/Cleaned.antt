-- ===== src/Panel/Dns/Cleaned.antt =====
-- The table and the calls after a cleanup.
use ladder_airport.Panel.Dns.Kept.{same_type-eq, Grows}
use ladder_airport.Panel.Dns.Ownership.{is_careful, owned, cleanup-grows, cleanup-careful}
use ladder_airport.Base.{
  ltb, Bool-cases, Option-cases, Result, Result-cases, ok, String, ◌≡◌, sym, subst, inl, inr, true,
  ◌||◌, arith,
}
use ladder_airport.Panel.Dns.{
  RecordType, ManagedDomain, target_of, get_managed_domain, delete_managed_domain, Provider,
  Outside, a_record, aaaa_record,
}
use ladder_airport.Panel.Dns.Rows.{get-All, delete-All}
use ladder_airport.Panel.Dns.Runs.{IsRowSafe, IsTableSafe, Grows-All}
use ladder_airport.Panel.Dns.Service.{
  Service, Tables, provider_for_domain, cleanup_target, cleanup_records, cleanup,
}

module _ {S : Type 0} (type : RecordType) (relative_name : String → String → Result String)
    (s : Service S) (same_names : s.network.relative_name ≡ relative_name) where
  -- The calls of a cleanup.
  abbrev Cleaned : Outside S → Outside S → Type 0
  Cleaned w w' = (is_careful type w'.calls ≡ true) × Grows type w w'

  cleanup_target-Cleaned :
      (provider : Provider S) (redact : String → String) (name : String) (type' : RecordType)
      (d : ManagedDomain) (w : Outside S)
      → owned (target_of type d).created_by_panel d.zone name type w.calls ≡ true
      → is_careful type w.calls ≡ true
      → Cleaned w (cleanup_target provider redact name type' d w).1
  unfolding cleanup_target
  cleanup_target-Cleaned provider redact name type' d w own careful =
      let x = target_of type' d in
      (
        cleanup-careful provider d.zone name type type' x.desired x.record_id x.created_by_panel w
            (λ same.
              subst (λ k. owned (target_of k d).created_by_panel d.zone name type w.calls ≡ true)
                (sym (same_type-eq type' type same)) own)
            careful,
        λ z n created o.
            cleanup-grows provider d.zone name z n created type type' x.desired x.record_id
              x.created_by_panel w o,
      )

  cleanup_records-Cleaned :
      (provider : Provider S) (redact : String → String) (name : String) (d : ManagedDomain)
      (w : Outside S)
      → owned (target_of type d).created_by_panel d.zone name type w.calls ≡ true
      → is_careful type w.calls ≡ true
      → Cleaned w (cleanup_records provider redact name d w).1
  cleanup_records-Cleaned provider redact name d w own careful =
      let x = cleanup_target provider redact name a_record d w in
      let first = cleanup_target-Cleaned provider redact name a_record d w own careful in
      let own' = first.1 d.zone name (target_of type d).created_by_panel own in
      let y = cleanup_target provider redact name aaaa_record d x.1 in
      let second = cleanup_target-Cleaned provider redact name aaaa_record d x.1 own' first.0 in
      elim (Option-cases x.0) [
        | inr (e, failed) ↦
            let eq : x.1 ≡ (cleanup_records provider redact name d w).1 =
              unfold cleanup_records in (ground (arith, failed)) in
            subst (Cleaned w) eq first
        | inl fine ↦
            let eq : y.1 ≡ (cleanup_records provider redact name d w).1 =
              unfold cleanup_records in (ground (arith, fine)) in
            subst (Cleaned w) eq
              (second.0, λ z n created o. second.1 z n created (first.1 z n created o))
      ]

  pub cleanup-safe :
      (id : String) (t : Tables S)
      → IsTableSafe type relative_name t
      → IsTableSafe type relative_name (cleanup s id t).1
  cleanup-safe id t safe = elim (Result-cases (get_managed_domain id t.domains)) [
    | inr (e, missing) ↦ at t (unfold cleanup in (ground (arith, missing))) safe
    | inl (d, found) ↦ elim (Bool-cases (ltb 0 (s.tls_usage id).0 || ltb 0 (s.tls_usage id).1)) [
      | inl used ↦ at t (unfold cleanup in (ground (arith, found, used))) safe
      | inr free ↦ elim (Result-cases (provider_for_domain s d)) [
        | inr (e, failed) ↦ at t (unfold cleanup in (ground (arith, found, free, failed))) safe
        | inl ((provider, credentials), opened) ↦
            elim (Result-cases (s.network.relative_name d.fqdn d.zone)) [
              | inr (e, failed) ↦
                  at t (unfold cleanup in (ground (arith, found, free, opened, failed))) safe
              | inl (name, named) ↦
                  let is : relative_name d.fqdn d.zone ≡ ok name =
                    subst (λ f. f d.fqdn d.zone ≡ ok name) same_names named in
                  let own =
                    get-All (IsRowSafe type relative_name t.outside.calls) id t.domains d found
                      safe.0 name is in
                  let r = cleanup_records provider (s.redact credentials) name d t.outside in
                  let cleaned =
                    cleanup_records-Cleaned provider (s.redact credentials) name d t.outside own
                      safe.1 in
                  let rows =
                    Grows-All type relative_name t.outside r.1 t.domains cleaned.1 safe.0 in
                  elim (Option-cases r.0) [
                    | inr (e, failed) ↦
                        at (record t { outside = r.1 })
                          (unfold cleanup in (ground (arith, found, free, opened, named, failed)))
                          (rows, cleaned.0)
                    | inl fine ↦
                        at
                          (record {
                            domains = (delete_managed_domain (s.tls_usage d.id) d.id t.domains).1;
                            outside = r.1;
                          })
                          (unfold cleanup in (ground (arith, found, free, opened, named, fine)))
                          (
                            delete-All (IsRowSafe type relative_name r.1.calls) (s.tls_usage d.id)
                                d.id t.domains rows,
                            cleaned.0,
                          )
                  ]
            ]
      ]
    ]
  ]
    where
      at :
          (x : Tables S)
          → x ≡ (cleanup s id t).1
          → IsTableSafe type relative_name x
          → IsTableSafe type relative_name (cleanup s id t).1
      at x e ok_x = subst (IsTableSafe type relative_name) e ok_x
