-- ===== src/Panel/Dns/Ownership.antt =====
-- Which records the reconciliation deletes at a provider.
use ladder_airport.Panel.Dns.Record.{
  record_values, is_none_found, verify_record, write_record, reconcile_record,
  cleanup_disabled_record,
}
use ladder_airport.Base.{
  Bool-cases, Result-cases, ok, ℕ, String, ◌≡◌, refl, inl, inr, Bool, true, false, not, ◌&&◌, ◌||◌,
  List, [], ◌∷◌, arith, str_eq, str_eq_refl,
}
use ladder_airport.Panel.Dns.{
  RecordType, same_type, DnsRecord, Provider, Call, Outside, call_lookup, call_upsert, call_delete,
  a_record, aaaa_record, cname_record, looked_up, upserted, deleted,
}

-- A lookup that found no record of a type under a name.
abbrev pub is_sighting : String → String → RecordType → Call → Bool
is_sighting zone name type (looked_up z n t (ok [])) =
    str_eq z zone && str_eq n name && same_type t type
is_sighting zone name type _ = false

unfoldable pub saw_none : String → String → RecordType → List Call → Bool
saw_none zone name type [] = false
saw_none zone name type (c ∷ cs) = is_sighting zone name type c || saw_none zone name type cs

-- Each deletion of a record of the type came after a lookup that found none there.
unfoldable pub is_careful : RecordType → List Call → Bool
is_careful type [] = true
is_careful type (deleted zone ref ∷ cs) =
    (not (same_type ref.type type) || saw_none zone ref.name type cs) && is_careful type cs
is_careful type (looked_up _ _ _ _ ∷ cs) = is_careful type cs
is_careful type (upserted _ _ ∷ cs) = is_careful type cs

pub same_type_refl : (t : RecordType) → same_type t t ≡ true
same_type_refl a_record = refl
same_type_refl aaaa_record = refl
same_type_refl cname_record = refl

abbrev pub owned : Bool → String → String → RecordType → List Call → Bool
owned created zone name type calls = not created || saw_none zone name type calls

module _ {S : Type 0} (provider : Provider S) (zone name : String) where
  lookup-careful :
      (type type' : RecordType) (w : Outside S)
      → is_careful type (call_lookup provider zone name type' w).1.calls ≡ is_careful type w.calls
  unfolding call_lookup is_careful
  lookup-careful type type' w = refl

  upsert-careful :
      (type : RecordType) (entry : DnsRecord) (w : Outside S)
      → is_careful type (call_upsert provider zone entry w).1.calls ≡ is_careful type w.calls
  unfolding call_upsert is_careful
  upsert-careful type entry w = refl

  pub reconcile_record-careful :
      (type type' : RecordType) (desired : String) (ttl : ℕ) (already : Bool) (w : Outside S)
      → is_careful type (reconcile_record provider zone name type' desired ttl already w).1.calls
        ≡ is_careful type w.calls
  unfolding reconcile_record write_record verify_record
  reconcile_record-careful type type' desired ttl already w = ground (
    arith,
    lookup-careful type type' w,
    lookup-careful type type'
        (call_upsert provider zone
          (record { id = ""; name = name; type = type'; value = desired; ttl = ttl })
          (call_lookup provider zone name type' w).1).1,
    upsert-careful type (record { id = ""; name = name; type = type'; value = desired; ttl = ttl })
        (call_lookup provider zone name type' w).1,
  )

  lookup-owned :
      (z n : String) (created : Bool) (type type' : RecordType) (w : Outside S)
      → owned created z n type w.calls ≡ true
      → owned created z n type (call_lookup provider zone name type' w).1.calls ≡ true
  unfolding call_lookup saw_none
  lookup-owned z n created type type' w own = ground (arith, own)

  upsert-owned :
      (z n : String) (created : Bool) (type : RecordType) (entry : DnsRecord) (w : Outside S)
      → owned created z n type w.calls ≡ true
      → owned created z n type (call_upsert provider zone entry w).1.calls ≡ true
  unfolding call_upsert saw_none
  upsert-owned z n created type entry w own = ground (arith, own)

  -- A lookup that finds nothing makes Panel the owner.
  sighting-owned :
      (created : Bool) (type : RecordType) (records : List DnsRecord) (w : Outside S)
      → (call_lookup provider zone name type w).0 ≡ ok records
      → owned created zone name type w.calls ≡ true
      → owned
          (created || is_none_found records)
          zone
          name
          type
          (call_lookup provider zone name type w).1.calls
        ≡ true
  unfolding call_lookup saw_none
  sighting-owned created type records w found own =
      ground (arith, found, own, str_eq_refl zone, str_eq_refl name, same_type_refl type)

  pub reconcile_record-grows :
      (z n : String) (created : Bool) (type type' : RecordType) (desired : String) (ttl : ℕ)
      (already : Bool) (w : Outside S)
      → owned created z n type w.calls ≡ true
      → owned created z n type
          (reconcile_record provider zone name type' desired ttl already w).1.calls
        ≡ true
  unfolding reconcile_record write_record verify_record
  reconcile_record-grows z n created type type' desired ttl already w own =
      let w1 = (call_lookup provider zone name type' w).1 in
      let entry : DnsRecord = record {
        id = "";
        name = name;
        type = type';
        value = desired;
        ttl = ttl;
      } in
      let w2 = (call_upsert provider zone entry w1).1 in
      let own1 = lookup-owned z n created type type' w own in
      let own2 = upsert-owned z n created type entry w1 own1 in
      ground (arith, own, own1, own2, lookup-owned z n created type type' w2 own2)

  write_record-owned :
      (created : Bool) (type : RecordType) (desired : String) (ttl : ℕ) (observed : List String)
      (w : Outside S)
      → owned created zone name type w.calls ≡ true
      → owned
          (write_record provider zone name type desired ttl created observed w).0.created
          zone
          name
          type
          (write_record provider zone name type desired ttl created observed w).1.calls
        ≡ true
  unfolding write_record verify_record
  write_record-owned created type desired ttl observed w own =
      let entry : DnsRecord = record {
        id = "";
        name = name;
        type = type;
        value = desired;
        ttl = ttl;
      } in
      let w1 = (call_upsert provider zone entry w).1 in
      let own1 = upsert-owned zone name created type entry w own in
      ground (arith, own1, lookup-owned zone name created type type w1 own1)

  pub reconcile_record-owned :
      (type : RecordType) (desired : String) (ttl : ℕ) (already : Bool) (w : Outside S)
      → owned already zone name type w.calls ≡ true
      → owned
          (reconcile_record provider zone name type desired ttl already w).0.created
          zone
          name
          type
          (reconcile_record provider zone name type desired ttl already w).1.calls
        ≡ true
  unfolding reconcile_record
  reconcile_record-owned type desired ttl already w own =
      let w1 = (call_lookup provider zone name type w).1 in
      let own1 = lookup-owned zone name already type type w own in
      elim (Result-cases (call_lookup provider zone name type w).0) [
        | inr (e, failed) ↦ ground (arith, own, own1, failed)
        | inl (records, found) ↦
            let own2 = sighting-owned already type records w found own in
            ground (
              arith,
              own,
              own1,
              found,
              write_record-owned (already || is_none_found records) type desired ttl
                  (record_values records) w1 own2,
            )
      ]

  pub cleanup-grows :
      (z n : String) (created : Bool) (type type' : RecordType) (value id : String)
      (by_panel : Bool) (w : Outside S)
      → owned created z n type w.calls ≡ true
      → owned created z n type
          (cleanup_disabled_record provider zone name type' value id by_panel w).1.calls
        ≡ true
  unfolding cleanup_disabled_record call_delete saw_none
  cleanup-grows z n created type type' value id by_panel w own = ground (arith, own)

  pub cleanup-careful :
      (type type' : RecordType) (value id : String) (by_panel : Bool) (w : Outside S)
      → (same_type type' type ≡ true → owned by_panel zone name type w.calls ≡ true)
      → is_careful type w.calls ≡ true
      → is_careful type
          (cleanup_disabled_record provider zone name type' value id by_panel w).1.calls
        ≡ true
  unfolding cleanup_disabled_record call_delete is_careful
  cleanup-careful type type' value id by_panel w own careful =
      elim (Bool-cases (same_type type' type)) [
        | inl same ↦ ground (arith, own same, careful, same)
        | inr other ↦ ground (arith, careful, other)
      ]
