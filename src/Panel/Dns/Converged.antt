-- ===== src/Panel/Dns/Converged.antt =====
-- What a reconciliation without an error has seen at the provider.
use ladder_airport.Base.{
  if◌then◌else◌, Bool-cases, Result, Result-cases, err, ok, ℕ, String, ◌≡◌, ap, subst, inl, inr,
  Bool, true, false, ◌&&◌, ◌||◌, Option, none, some, List, [], ◌∷◌, arith, str_eq, str_eq_iff,
  str_eq_refl,
}
use ladder_airport.Panel.Dns.{
  RecordType, same_type, DnsRecord, RecordRef, Provider, Call, Outside, call_lookup, call_upsert,
  looked_up, upserted, deleted,
}
use ladder_airport.Panel.Dns.Ownership.{same_type_refl}
use ladder_airport.Panel.Dns.Record.{
  record_values, is_only, only_id, is_none_found, Outcome, outcome, verify_record, write_record,
  reconcile_record,
}

-- What the last lookup of a name and type that did not fail has found.
unfoldable pub last_found : String → String → RecordType → List Call → Option (List DnsRecord)
last_found zone name type [] = none
last_found zone name type (looked_up z n t (ok records) ∷ cs) =
    let rest = last_found zone name type cs in
    if str_eq z zone && str_eq n name && same_type t type then some records else rest
last_found zone name type (looked_up z n t (err _) ∷ cs) = last_found zone name type cs
last_found zone name type (upserted _ _ ∷ cs) = last_found zone name type cs
last_found zone name type (deleted _ _ ∷ cs) = last_found zone name type cs

is_only-eq : (x : String) (ys : List String) → is_only x ys ≡ true → ys ≡ x ∷ []
is_only-eq x [] e = absurd (ground (arith, e))
is_only-eq x (y ∷ []) e = ap (λ z. z ∷ []) ((str_eq_iff y x).0 e)
is_only-eq x (y ∷ z ∷ ys) e = absurd (ground (arith, e))

-- The provider has shown just the value.
unfoldable pub IsShown : String → String → RecordType → String → List Call → Type 0
IsShown zone name type value calls =
    (records : List DnsRecord) × (last_found zone name type calls ≡ some records)
    × (record_values records ≡ value ∷ [])

module _ {S : Type 0} (provider : Provider S) (zone name : String) where
  lookup-IsShown :
      (type : RecordType) (value : String) (records : List DnsRecord) (w : Outside S)
      → (call_lookup provider zone name type w).0 ≡ ok records
      → is_only value (record_values records) ≡ true
      → IsShown zone name type value (call_lookup provider zone name type w).1.calls
  unfolding IsShown
  lookup-IsShown type value records w found only = (
    records,
    unfold call_lookup last_found in
        (ground (arith, found, str_eq_refl zone, str_eq_refl name, same_type_refl type)),
    is_only-eq value (record_values records) only,
  )

  -- No error: the value is shown, and it is what is observed.
  unfoldable pub Shown : RecordType → String → Outcome × Outside S → Type 0
  Shown type value r =
      r.0.failure ≡ none → (r.0.observed ≡ value ∷ []) × IsShown zone name type value r.1.calls

  verify_record-Shown :
      (type : RecordType) (value : String) (created : Bool) (observed : List String) (id : String)
      (w : Outside S)
      → Shown type value (verify_record provider zone name type value created observed id w)
  unfolding Shown
  verify_record-Shown type value created observed id w fine =
      elim (Result-cases (call_lookup provider zone name type w).0) [
        | inr (e, failed) ↦ absurd (unfold verify_record in (ground (arith, fine, failed)))
        | inl (records, found) ↦ elim (Bool-cases (is_only value (record_values records))) [
          | inr bad ↦ absurd (unfold verify_record in (ground (arith, fine, found, bad)))
          | inl only ↦
              let values = is_only-eq value (record_values records) only in
              (
                unfold verify_record in (ground (arith, found, values)),
                unfold verify_record in (lookup-IsShown type value records w found only),
              )
        ]
      ]

  write_record-Shown :
      (type : RecordType) (value : String) (ttl : ℕ) (created : Bool) (observed : List String)
      (w : Outside S)
      → Shown type value (write_record provider zone name type value ttl created observed w)
  unfolding Shown
  write_record-Shown type value ttl created observed w fine = elim (Result-cases r.0) [
    | inr (e, failed) ↦ absurd (unfold write_record in (ground (arith, fine, failed)))
    | inl (ref, wrote) ↦
        let same : verify_record provider zone name type value created observed ref.id r.1
            ≡ write_record provider zone name type value ttl created observed w =
          unfold write_record in (ground (arith, wrote)) in
        subst (Shown type value) same (verify_record-Shown type value created observed ref.id r.1)
          fine
  ]
    where
      r : Result RecordRef × Outside S
      r =
          call_upsert provider zone
            (record { id = ""; name = name; type = type; value = value; ttl = ttl }) w

  pub reconcile_record-Shown :
      (type : RecordType) (value : String) (ttl : ℕ) (already : Bool) (w : Outside S)
      → Shown type value (reconcile_record provider zone name type value ttl already w)
  unfolding Shown
  reconcile_record-Shown type value ttl already w fine = elim (Bool-cases (str_eq value "")) [
    | inl empty ↦ absurd (unfold reconcile_record in (ground (arith, fine, empty)))
    | inr wanted ↦ elim (Result-cases r.0) [
      | inr (e, failed) ↦ absurd (unfold reconcile_record in (ground (arith, fine, wanted, failed)))
      | inl (records, found) ↦ elim (Bool-cases (is_only value (record_values records))) [
        | inl only ↦
            let same : (outcome (record_values records) (only_id records) already none, r.1)
                ≡ reconcile_record provider zone name type value ttl already w =
              unfold reconcile_record in (ground (arith, wanted, found, only)) in
            subst (λ x. (x.0.observed ≡ value ∷ []) × IsShown zone name type value x.1.calls) same
              (
                is_only-eq value (record_values records) only,
                lookup-IsShown type value records w found only,
              )
        | inr bad ↦
            let created = already || is_none_found records in
            let same : write_record provider zone name type value ttl created
                  (record_values records) r.1
                ≡ reconcile_record provider zone name type value ttl already w =
              unfold reconcile_record in (ground (arith, wanted, found, bad)) in
            subst (Shown type value) same
              (write_record-Shown type value ttl created (record_values records) r.1) fine
      ]
    ]
  ]
    where
      r : Result (List DnsRecord) × Outside S
      r = call_lookup provider zone name type w

  pub reconcile_record-last :
      (type type' : RecordType) (value : String) (ttl : ℕ) (already : Bool) (w : Outside S)
      → same_type type' type ≡ false
      → last_found zone name type
          (reconcile_record provider zone name type' value ttl already w).1.calls
        ≡ last_found zone name type w.calls
  unfolding reconcile_record write_record verify_record call_lookup call_upsert last_found
  reconcile_record-last type type' value ttl already w other = ground (arith, other)
