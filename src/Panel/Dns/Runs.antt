-- ===== src/Panel/Dns/Runs.antt =====
-- Reconciliations, cleanups and the operator's requests in any order.
use ladder_airport.Base.{
  Option-cases, All, Result, Result-cases, ok, ℕ, String, ◌≡◌, refl, sym, ◌∙◌, subst, inl, inr,
  true, List, [], ◌∷◌, arith,
}
use ladder_airport.Panel.Dns.{
  RecordType, ManagedDomain, target_of, Provider, Call, Outside, a_record, aaaa_record,
  cname_record,
}
use ladder_airport.Panel.Dns.Ownership.{is_careful, owned}
use ladder_airport.Panel.Dns.Careful.{converge-Keeps}
use ladder_airport.Panel.Dns.Kept.{Grows}
use ladder_airport.Panel.Dns.Converge.{Work, set_desired, converge}
use ladder_airport.Panel.Dns.Desired.{Wanted, desired_addresses}
use ladder_airport.Panel.Dns.Service.{Service, Tables, provider_for_domain, reconcile_domain}

-- Panel owns the record of a domain only where it found none.
abbrev pub IsRowSafe :
    RecordType → (String → String → Result String) → List Call → ManagedDomain → Type 0
IsRowSafe type relative_name calls d =
    (name : String)
    → relative_name d.fqdn d.zone ≡ ok name
    → owned (target_of type d).created_by_panel d.zone name type calls ≡ true

flags-set_desired :
    (type : RecordType) (wanted : Wanted) (d : ManagedDomain)
    → (target_of type (set_desired wanted d)).created_by_panel ≡ (target_of type d).created_by_panel
flags-set_desired a_record wanted d = refl
flags-set_desired aaaa_record wanted d = refl
flags-set_desired cname_record wanted d = refl

same_ok : {x y : String} → ◌≡◌ {A = Result String} (ok x) (ok y) → x ≡ y
same_ok e = ground (arith, e)

flags-last :
    (type : RecordType) (now : ℕ) (d : ManagedDomain)
    → (target_of type (record d { last_reconcile_unix = now })).created_by_panel
      ≡ (target_of type d).created_by_panel
flags-last a_record now d = refl
flags-last aaaa_record now d = refl
flags-last cname_record now d = refl

module _ (type : RecordType) (relative_name : String → String → Result String) where
  -- The safety of a row is that of its place and its flag.
  pub row_moved :
      (calls : List Call) (d d' : ManagedDomain)
      → d'.fqdn ≡ d.fqdn
      → d'.zone ≡ d.zone
      → (target_of type d').created_by_panel ≡ (target_of type d).created_by_panel
      → IsRowSafe type relative_name calls d
      → IsRowSafe type relative_name calls d'
  row_moved calls d d' same_fqdn same_zone same_flag row name is =
      subst (λ c. owned c d'.zone name type calls ≡ true) (sym same_flag)
        (subst (λ z. owned (target_of type d).created_by_panel z name type calls ≡ true)
          (sym same_zone)
          (row name (
            subst (λ f. relative_name f d.zone ≡ ok name) same_fqdn
              (subst (λ z. relative_name d'.fqdn z ≡ ok name) same_zone is))))

module _ {S : Type 0} (type : RecordType) (relative_name : String → String → Result String) where
  abbrev pub IsTableSafe : Tables S → Type 0
  IsTableSafe t =
      All (IsRowSafe type relative_name t.outside.calls) t.domains
      × (is_careful type t.outside.calls ≡ true)

  pub Grows-All :
      (w w' : Outside S) (ds : List ManagedDomain)
      → Grows type w w'
      → All (IsRowSafe type relative_name w.calls) ds
      → All (IsRowSafe type relative_name w'.calls) ds
  Grows-All w w' [] grows rows = tt
  Grows-All w w' (d ∷ ds) grows (safe, rows) = (
    λ name is. grows d.zone name (target_of type d).created_by_panel (safe name is),
    Grows-All w w' ds grows rows,
  )

  -- A part of a run: a domain and the calls after it.
  pub record Safely (w : Outside S) (x : Work S) : Type 0 where
    pub row : IsRowSafe type relative_name x.1.calls x.0
    pub careful : is_careful type x.1.calls ≡ true
    pub grows : Grows type w x.1

  converge-Safely :
      (provider : Provider S) (redact : String → String) (name : String) (d : ManagedDomain)
      (wanted : Wanted) (w : Outside S)
      → relative_name d.fqdn d.zone ≡ ok name
      → IsRowSafe type relative_name w.calls d
      → is_careful type w.calls ≡ true
      → Safely w (converge provider redact name d wanted (set_desired wanted d, w)).1
  converge-Safely provider redact name d wanted w is row careful =
      let start = set_desired wanted d in
      let own : owned (target_of type start).created_by_panel d.zone name type w.calls ≡ true =
        subst (λ c. owned c d.zone name type w.calls ≡ true) (sym (flags-set_desired type wanted d))
          (row name is) in
      let (place, safe, grows) =
        converge-Keeps provider redact name type d wanted start w
          (record { own = own; careful = careful }) in
      let x = (converge provider redact name d wanted (start, w)).1 in
      record {
        row = λ name' is'.
            let there : relative_name d.fqdn d.zone ≡ ok name' =
              subst (λ f. relative_name f d.zone ≡ ok name') place.same_fqdn
                (subst (λ z. relative_name x.0.fqdn z ≡ ok name') place.same_zone is') in
            subst
              (λ n. owned (target_of type x.0).created_by_panel x.0.zone n type x.1.calls ≡ true)
              (same_ok (sym is ∙ there)) safe.own;
        careful = safe.careful;
        grows = grows;
      }

  pub reconcile_domain-Safely :
      (s : Service S) (d : ManagedDomain) (w : Outside S)
      → s.network.relative_name ≡ relative_name
      → IsRowSafe type relative_name w.calls d
      → is_careful type w.calls ≡ true
      → Safely w (reconcile_domain s (d, w)).1
  reconcile_domain-Safely s d w same_names row careful =
      elim (Result-cases (provider_for_domain s d)) [
        | inr (e, failed) ↦ at (d, w) (unfold reconcile_domain in (ground (arith, failed))) still
        | inl ((provider, credentials), opened) ↦
            elim (Result-cases (desired_addresses s.network d)) [
              | inr (e, failed) ↦
                  at (d, w) (unfold reconcile_domain in (ground (arith, opened, failed))) still
              | inl (wanted, found) ↦ elim (Result-cases (s.network.relative_name d.fqdn d.zone)) [
                | inr (e, failed) ↦
                    at (set_desired wanted d, w)
                      (unfold reconcile_domain in (ground (arith, opened, found, failed)))
                      (record {
                        row =
                            row_moved type relative_name w.calls d (set_desired wanted d) refl refl
                              (flags-set_desired type wanted d) row;
                        careful = careful;
                        grows = λ z n created own. own;
                      })
                | inl (name, named) ↦
                    let is : relative_name d.fqdn d.zone ≡ ok name =
                      subst (λ f. f d.fqdn d.zone ≡ ok name) same_names named in
                    let safely =
                      converge-Safely provider (s.redact credentials) name d wanted w is row
                        careful in
                    let r =
                      converge provider (s.redact credentials) name d wanted
                        (set_desired wanted d, w) in
                    elim (Option-cases r.0) [
                      | inr (e, failed) ↦
                          at r.1
                            (unfold reconcile_domain in
                              (ground (arith, opened, found, named, failed)))
                            safely
                      | inl fine ↦
                          at (record (r.1.0) { last_reconcile_unix = s.now }, r.1.1)
                            (unfold reconcile_domain in
                              (ground (arith, opened, found, named, fine)))
                            (record {
                              row =
                                  row_moved type relative_name r.1.1.calls r.1.0
                                    (record (r.1.0) { last_reconcile_unix = s.now }) refl refl
                                    (flags-last type s.now r.1.0) safely.row;
                              careful = safely.careful;
                              grows = safely.grows;
                            })
                    ]
              ]
            ]
      ]
    where
      still : Safely w (d, w)
      still = record { row = row; careful = careful; grows = λ z n created own. own }

      at :
          (x : Work S)
          → x ≡ (reconcile_domain s (d, w)).1
          → Safely w x
          → Safely w (reconcile_domain s (d, w)).1
      at x e safely = subst (Safely w) e safely
