-- ===== src/Panel/Dns/Requests.antt =====
-- What the operator's requests do to the rows: the handlers of panel/internal/api/handlers_dns.go.

use ladder_airport.Base.{
  ltb, Bool-cases, Option-cases, All, All-append, Result, Result-cases, String, ◌≡◌, refl, ap, ◌∙◌,
  subst, inl, inr, Bool, true, false, not, ◌&&◌, ◌||◌, List, [], ◌∷◌, ◌++◌, arith,
}
use ladder_airport.Panel.Dns.{
  RecordType, same_type, ManagedDomain, target_of, validate_managed_domain_zone, get_managed_domain,
  has_domain, is_taken, update_managed_domain, delete_managed_domain, Call, a_record, aaaa_record,
  cname_record, deleting,
}
use ladder_airport.Panel.Dns.Ownership.{owned}
use ladder_airport.Panel.Dns.Rows.{get-All, update-All, delete-All}
use ladder_airport.Panel.Dns.Runs.{IsRowSafe, row_moved}
use ladder_airport.Panel.Dns.Operator.{IsEdit, build-IsEdit}
use ladder_airport.Panel.Dns.Edit.{
  DomainRequest, Server, has_panel_records, blank_domain, build_managed_domain,
  create_managed_domain, handle_create_managed_domain, handle_update_managed_domain,
  handle_delete_managed_domain,
}

module _ (type : RecordType) (relative_name : String → String → Result String)
    (plain : same_type type cname_record ≡ false) where
  flag-of :
      (old d : ManagedDomain)
      → IsEdit old d
      → (target_of type d).created_by_panel ≡ (target_of type old).created_by_panel
  flag-of old d edit = go type plain
    where
      go :
          (k : RecordType)
          → same_type k cname_record ≡ false
          → (target_of k d).created_by_panel ≡ (target_of k old).created_by_panel
      go a_record p = ap (λ t. t.created_by_panel) edit.targets.0
      go aaaa_record p = ap (λ t. t.created_by_panel) edit.targets.1
      go cname_record p = absurd (ground (arith, p))

  has-of :
      (old : ManagedDomain)
      → (target_of type old).created_by_panel ≡ true
      → has_panel_records old ≡ true
  has-of old flag = go type plain flag
    where
      go :
          (k : RecordType)
          → same_type k cname_record ≡ false
          → (target_of k old).created_by_panel ≡ true
          → has_panel_records old ≡ true
      go a_record p e = ground (arith, e)
      go aaaa_record p e = ground (arith, e)
      go cname_record p e = absurd (ground (arith, p))

  edit-row :
      (calls : List Call) (old d : ManagedDomain)
      → IsEdit old d
      → IsRowSafe type relative_name calls old
      → IsRowSafe type relative_name calls d
  edit-row calls old d edit row = elim (Bool-cases (target_of type old).created_by_panel) [
    | inr off ↦ λ name is.
        let flag : (target_of type d).created_by_panel ≡ false = flag-of old d edit ∙ off in
        ground (arith, flag)
    | inl on ↦
        let (same_zone, same_fqdn) = edit.place (has-of old on) in
        row_moved type relative_name calls old d same_fqdn same_zone (flag-of old d edit) row
  ]

  blank-row :
      (calls : List Call) (id : String) → IsRowSafe type relative_name calls (blank_domain id)
  blank-row calls id name is = go type
    where
      go :
          (k : RecordType)
          → owned (target_of k (blank_domain id)).created_by_panel "" name type calls ≡ true
      go a_record = refl
      go aaaa_record = refl
      go cname_record = refl

  -- The columns beside the place and the flags do not matter.
  touched :
      (calls : List Call) (d d' : ManagedDomain)
      → d'.fqdn ≡ d.fqdn
      → d'.zone ≡ d.zone
      → d'.ipv4 ≡ d.ipv4
      → d'.ipv6 ≡ d.ipv6
      → IsRowSafe type relative_name calls d
      → IsRowSafe type relative_name calls d'
  touched calls d d' fqdn zone four six row =
      edit-row calls d d' (record { targets = (four, six); place = λ _. (zone, fqdn) }) row

  module _ (s : Server) (calls : List Call) (ds : List ManagedDomain)
      (rows : All (IsRowSafe type relative_name calls) ds) where
    abbrev Row : ManagedDomain → Type 0
    Row = IsRowSafe type relative_name calls

    pub create-rows :
        (request : DomainRequest) → All Row (handle_create_managed_domain s request ds).1
    create-rows request =
        elim (Result-cases (build_managed_domain s (blank_domain s.new_id) request)) [
          | inr (e, failed) ↦
              at ds (unfold handle_create_managed_domain in (ground (arith, failed))) rows
          | inl (d, built) ↦
              let row =
                edit-row calls (blank_domain s.new_id) d
                  (build-IsEdit s request (blank_domain s.new_id) d built)
                  (blank-row calls s.new_id) in
              let d' = record d { created_at_unix = s.now; updated_at_unix = s.now } in
              elim (Option-cases
                (validate_managed_domain_zone d.dns_account_id d.zone s.accounts)) [
                  | inr (e, bad) ↦
                      at ds
                        (unfold handle_create_managed_domain create_managed_domain in
                          (ground (arith, built, bad)))
                        rows
                  | inl good ↦ elim (Bool-cases (has_domain d.id ds || is_taken d ds)) [
                    | inl known ↦
                        at ds
                          (unfold handle_create_managed_domain create_managed_domain in
                            (ground (arith, built, good, known)))
                          rows
                    | inr fresh ↦
                        at (ds ++ d' ∷ [])
                          (unfold handle_create_managed_domain create_managed_domain in
                            (ground (arith, built, good, fresh)))
                          (All-append Row ds (d' ∷ []) rows
                            (touched calls d d' refl refl refl refl row, tt))
                  ]
                ]
        ]
      where
        at :
            (x : List ManagedDomain)
            → x ≡ (handle_create_managed_domain s request ds).1
            → All Row x
            → All Row (handle_create_managed_domain s request ds).1
        at x e safe = subst (All Row) e safe

    pub update-rows :
        (id : String) (request : DomainRequest)
        → All Row (handle_update_managed_domain s id request ds).1
    update-rows id request = elim (Result-cases (get_managed_domain id ds)) [
      | inr (e, missing) ↦
          at ds (unfold handle_update_managed_domain in (ground (arith, missing))) rows
      | inl (old, found) ↦ elim (Result-cases (build_managed_domain s old request)) [
        | inr (e, failed) ↦
            at ds (unfold handle_update_managed_domain in (ground (arith, found, failed))) rows
        | inl (d, built) ↦
            let row =
              edit-row calls old d (build-IsEdit s request old d built)
                (get-All Row id ds old found rows) in
            at (update_managed_domain s.accounts s.now d ds).1
              (unfold handle_update_managed_domain in (ground (arith, found, built)))
              (update-All Row s.accounts s.now d ds
                (touched calls d (record d { updated_at_unix = s.now }) refl refl refl refl row)
                rows)
      ]
    ]
      where
        at :
            (x : List ManagedDomain)
            → x ≡ (handle_update_managed_domain s id request ds).1
            → All Row x
            → All Row (handle_update_managed_domain s id request ds).1
        at x e safe = subst (All Row) e safe

    pub delete-rows :
        (id : String) (records : Bool) → All Row (handle_delete_managed_domain s id records ds).1
    delete-rows id records = elim (Result-cases (get_managed_domain id ds)) [
      | inr (e, missing) ↦
          at ds (unfold handle_delete_managed_domain in (ground (arith, missing))) rows
      | inl (d, found) ↦
          let d' = record d { enabled = false; state = deleting } in
          let row = get-All Row id ds d found rows in
          let marked =
            update-All Row s.accounts s.now d' ds
              (touched calls d (record d' { updated_at_unix = s.now }) refl refl refl refl row)
              rows in
          let gone = delete-All Row (s.tls_usage id) id ds rows in
          elim (Bool-cases (ltb 0 (s.tls_usage id).0 || ltb 0 (s.tls_usage id).1)) [
            | inl used ↦
                at ds (unfold handle_delete_managed_domain in (ground (arith, found, used))) rows
            | inr free ↦ elim (Bool-cases (has_panel_records d && not records)) [
              | inl asked ↦
                  at ds
                    (unfold handle_delete_managed_domain in (ground (arith, found, free, asked)))
                    rows
              | inr sure ↦ elim (Bool-cases (has_panel_records d)) [
                | inl has ↦
                    at (update_managed_domain s.accounts s.now d' ds).1
                      (unfold handle_delete_managed_domain in
                        (ground (arith, found, free, sure, has)))
                      marked
                | inr bare ↦
                    at (delete_managed_domain (s.tls_usage id) id ds).1
                      (unfold handle_delete_managed_domain in
                        (ground (arith, found, free, sure, bare)))
                      gone
              ]
            ]
          ]
    ]
      where
        at :
            (x : List ManagedDomain)
            → x ≡ (handle_delete_managed_domain s id records ds).1
            → All Row x
            → All Row (handle_delete_managed_domain s id records ds).1
        at x e safe = subst (All Row) e safe
