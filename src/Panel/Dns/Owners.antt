-- ===== src/Panel/Dns/Owners.antt =====
-- The records at the providers over reconciliations, cleanups and the operator's requests, one after
-- the other in any order.

use ladder_airport.Base.{
  Bool-cases, All, Result, Result-cases, ℕ, String, ◌≡◌, refl, subst, inl, inr, true, false, arith,
}
use ladder_airport.Panel.Dns.{
  RecordType, ManagedDomain, target_of, get_managed_domain, Outside, a_record, aaaa_record,
  cname_record,
}
use ladder_airport.Panel.Dns.Rows.{get-All, update-All}
use ladder_airport.Panel.Dns.Runs.{
  IsRowSafe, row_moved, IsTableSafe, Grows-All, Safely, reconcile_domain-Safely,
}
use ladder_airport.Panel.Dns.Service.{
  Service, Tables, after_failure, after_success, pause, reconcile_domain, is_paused, store_domain,
  run_reconcile, reconcile,
}

flags-after_failure :
    (type : RecordType) (now : ℕ) (e : String) (d : ManagedDomain)
    → (target_of type (record (after_failure now e d) { updated_at_unix = now })).created_by_panel
      ≡ (target_of type d).created_by_panel
unfolding after_failure
flags-after_failure a_record now e d = refl
flags-after_failure aaaa_record now e d = refl
flags-after_failure cname_record now e d = refl

flags-after_success :
    (type : RecordType) (now : ℕ) (e : String) (d : ManagedDomain)
    → (target_of type (record (after_success now e d) { updated_at_unix = now })).created_by_panel
      ≡ (target_of type d).created_by_panel
unfolding after_success
flags-after_success a_record now e d = refl
flags-after_success aaaa_record now e d = refl
flags-after_success cname_record now e d = refl

flags-pause :
    (type : RecordType) (now : ℕ) (d : ManagedDomain)
    → (target_of type (record (pause now d) { updated_at_unix = now })).created_by_panel
      ≡ (target_of type d).created_by_panel
unfolding pause
flags-pause a_record now d = refl
flags-pause aaaa_record now d = refl
flags-pause cname_record now d = refl

module _ {S : Type 0} (type : RecordType) (relative_name : String → String → Result String)
    (s : Service S) (same_names : s.network.relative_name ≡ relative_name) where
  run_reconcile-safe :
      (d : ManagedDomain) (t : Tables S)
      → IsRowSafe type relative_name t.outside.calls d
      → IsTableSafe type relative_name t
      → IsTableSafe type relative_name (run_reconcile s d t).1
  run_reconcile-safe d t row (rows, careful) =
      elim (Result-cases (reconcile_domain s (d, t.outside)).0) [
        | inr (e, failed) ↦
            let eq : record {
              domains = (store_domain s (after_failure s.now e d') t.domains).1;
              outside = w;
            }
                ≡ (run_reconcile s d t).1 =
              unfold run_reconcile in (ground (arith, failed)) in
            subst (IsTableSafe type relative_name) eq (
              stored (after_failure s.now e d') (
                  unfold after_failure in
                  (row_moved type relative_name w.calls d'
                    (record (after_failure s.now e d') { updated_at_unix = s.now }) refl refl
                    (flags-after_failure type s.now e d') safely.row)),
              safely.careful,
            )
        | inl (note, fine) ↦
            let eq : record {
              domains = (store_domain s (after_success s.now note d') t.domains).1;
              outside = w;
            }
                ≡ (run_reconcile s d t).1 =
              unfold run_reconcile in (ground (arith, fine)) in
            subst (IsTableSafe type relative_name) eq (
              stored (after_success s.now note d') (
                  unfold after_success in
                  (row_moved type relative_name w.calls d'
                    (record (after_success s.now note d') { updated_at_unix = s.now }) refl refl
                    (flags-after_success type s.now note d') safely.row)),
              safely.careful,
            )
      ]
    where
      d' : ManagedDomain
      d' = (reconcile_domain s (d, t.outside)).1.0

      w : Outside S
      w = (reconcile_domain s (d, t.outside)).1.1

      safely : Safely type relative_name t.outside (reconcile_domain s (d, t.outside)).1
      safely = reconcile_domain-Safely type relative_name s d t.outside same_names row careful

      stored :
          (x : ManagedDomain)
          → IsRowSafe type relative_name w.calls (record x { updated_at_unix = s.now })
          → All (IsRowSafe type relative_name w.calls) (store_domain s x t.domains).1
      stored x safe =
          update-All (IsRowSafe type relative_name w.calls) s.accounts s.now x t.domains safe
            (Grows-All type relative_name t.outside w t.domains safely.grows rows)

  pub reconcile-safe :
      (id : String) (t : Tables S)
      → IsTableSafe type relative_name t
      → IsTableSafe type relative_name (reconcile s id t).1
  reconcile-safe id t safe = elim (Result-cases (get_managed_domain id t.domains)) [
    | inr (e, missing) ↦ at t (unfold reconcile in (ground (arith, missing))) safe
    | inl (d, found) ↦
        let row =
          get-All (IsRowSafe type relative_name t.outside.calls) id t.domains d found safe.0 in
        elim (Bool-cases d.enabled) [
          | inr off ↦ at t (unfold reconcile in (ground (arith, found, off))) safe
          | inl on ↦ elim (Result-cases (is_paused s d)) [
            | inr (e, failed) ↦ at t (unfold reconcile in (ground (arith, found, on, failed))) safe
            | inl (true, waits) ↦
                at (record t { domains = (store_domain s (pause s.now d) t.domains).1 })
                  (unfold reconcile in (ground (arith, found, on, waits)))
                  (
                    update-All (IsRowSafe type relative_name t.outside.calls) s.accounts s.now
                        (pause s.now d) t.domains
                        (unfold pause in
                          (row_moved type relative_name t.outside.calls d
                            (record (pause s.now d) { updated_at_unix = s.now }) refl refl
                            (flags-pause type s.now d) row))
                        safe.0,
                    safe.1,
                  )
            | inl (false, runs) ↦
                at (run_reconcile s d t).1 (unfold reconcile in (ground (arith, found, on, runs)))
                  (run_reconcile-safe d t row safe)
          ]
        ]
  ]
    where
      at :
          (x : Tables S)
          → x ≡ (reconcile s id t).1
          → IsTableSafe type relative_name x
          → IsTableSafe type relative_name (reconcile s id t).1
      at x e ok_x = subst (IsTableSafe type relative_name) e ok_x
