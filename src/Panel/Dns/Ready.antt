-- ===== src/Panel/Dns/Ready.antt =====
-- A domain whose records a reconciliation has brought to the wanted values without an error.
use ladder_airport.Base.{
  if◌then◌else◌, Bool-cases, Option-cases, String, ◌≡◌, refl, ap, ◌∙◌, subst, inl, inr, false, not,
  ◌&&◌, Option, none, some, [], ◌∷◌, arith,
}
use ladder_airport.Panel.Dns.{
  RecordType, same_type, covers, Target, no_target, ManagedDomain, target_of, set_target, Provider,
  Outside, a_record, aaaa_record, cname_record,
}
use ladder_airport.Panel.Dns.Ownership.{same_type_refl}
use ladder_airport.Panel.Dns.Record.{reconcile_record, cleanup_disabled_record}
use ladder_airport.Panel.Dns.Desired.{Wanted}
use ladder_airport.Panel.Dns.Converge.{
  Work, Action, and_then, redacted, clean_target, reconcile_target,
}
use ladder_airport.Panel.Dns.Converged.{
  last_found, IsShown, Shown, reconcile_record-Shown, reconcile_record-last,
}

abbrev pub wanted_of : RecordType → Wanted → String
wanted_of a_record wanted = wanted.ipv4
wanted_of aaaa_record wanted = wanted.ipv6
wanted_of cname_record wanted = wanted.cname_target

pub and_then-ok :
    {S : Type 0} (m k : Action S) (x : Work S)
    → (and_then m k x).0 ≡ none
    → ((m x).0 ≡ none) × (k (m x).1 ≡ and_then m k x)
and_then-ok m k x e = elim (Option-cases (m x).0) [
  | inl fine ↦ (fine, ground (arith, fine))
  | inr (message, failed) ↦ absurd (ground (arith, e, failed))
]

redacted-none : (redact : String → String) (o : Option String) → redacted redact o ≡ none → o ≡ none
redacted-none redact none e = refl
redacted-none redact (some x) e = absurd (ground (arith, e))

target-set_target :
    (type type' : RecordType) (t : Target) (d : ManagedDomain)
    → target_of type (set_target type' t d) ≡ (if same_type type' type then t else target_of type d)
target-set_target a_record a_record t d = refl
target-set_target a_record aaaa_record t d = refl
target-set_target a_record cname_record t d = refl
target-set_target aaaa_record a_record t d = refl
target-set_target aaaa_record aaaa_record t d = refl
target-set_target aaaa_record cname_record t d = refl
target-set_target cname_record a_record t d = refl
target-set_target cname_record aaaa_record t d = refl
target-set_target cname_record cname_record t d = refl

mode-set_target :
    (type : RecordType) (t : Target) (d : ManagedDomain)
    → (set_target type t d).record_mode ≡ d.record_mode
mode-set_target a_record t d = refl
mode-set_target aaaa_record t d = refl
mode-set_target cname_record t d = refl

zone-set_target :
    (type : RecordType) (t : Target) (d : ManagedDomain) → (set_target type t d).zone ≡ d.zone
zone-set_target a_record t d = refl
zone-set_target aaaa_record t d = refl
zone-set_target cname_record t d = refl

module _ {S : Type 0} (provider : Provider S) (redact : String → String) (name : String) where
  -- A record type out of the mode is cleared, the others are left.
  pub record Cleared (type' : RecordType) (d d' : ManagedDomain) : Type 0 where
    pub targets :
        (type : RecordType)
        → target_of type d' ≡ (
            if same_type type' type && not (covers d.record_mode type')
            then no_target
            else target_of type d)
    pub mode : d'.record_mode ≡ d.record_mode
    pub zone : d'.zone ≡ d.zone

  pub clean_target-Cleared :
      (type' : RecordType) (previous : String) (d : ManagedDomain) (w : Outside S)
      → (clean_target provider redact name type' previous (d, w)).0 ≡ none
      → Cleared type' d (clean_target provider redact name type' previous (d, w)).1.0
  clean_target-Cleared type' previous d w fine = elim (Bool-cases (covers d.record_mode type')) [
    | inl covered ↦
        let same : d ≡ (clean_target provider redact name type' previous (d, w)).1.0 =
          unfold clean_target in (ground (arith, covered)) in
        subst (Cleared type' d) same
          (record { targets = λ type. ground (arith, covered); mode = refl; zone = refl })
    | inr free ↦ elim (Option-cases r.0) [
      | inr (e, failed) ↦ absurd (unfold clean_target in (ground (arith, fine, free, failed)))
      | inl done ↦
          let same : set_target type' no_target d
              ≡ (clean_target provider redact name type' previous (d, w)).1.0 =
            unfold clean_target in (ground (arith, free, done)) in
          subst (Cleared type' d) same (record {
            targets = λ type. ground (arith, free, target-set_target type type' no_target d);
            mode = mode-set_target type' no_target d;
            zone = zone-set_target type' no_target d;
          })
    ]
  ]
    where
      r : Option String × Outside S
      r =
          cleanup_disabled_record provider d.zone name type' previous (target_of type' d).record_id
            (target_of type' d).created_by_panel w

  -- The target of a record type that is brought to its value, and the others.
  pub record Brought (type' : RecordType) (value : String) (x y : Work S) : Type 0 where
    pub desired : (target_of type' y.0).desired ≡ (target_of type' x.0).desired
    pub observed : (target_of type' y.0).observed ≡ value ∷ []
    pub shown : IsShown x.0.zone name type' value y.1.calls
    pub others :
        (type : RecordType) → same_type type' type ≡ false → target_of type y.0 ≡ target_of type x.0
    pub last :
        (type : RecordType)
        → same_type type' type ≡ false
        → last_found x.0.zone name type y.1.calls ≡ last_found x.0.zone name type x.1.calls
    pub zone : y.0.zone ≡ x.0.zone

  pub reconcile_target-Brought :
      (type' : RecordType) (value : String) (d : ManagedDomain) (w : Outside S)
      → (reconcile_target provider redact name type' value (d, w)).0 ≡ none
      → Brought type' value (d, w) (reconcile_target provider redact name type' value (d, w)).1
  unfolding reconcile_target Shown
  reconcile_target-Brought type' value d w fine =
      let t = target_of type' d in
      let r = reconcile_record provider d.zone name type' value d.ttl t.created_by_panel w in
      let o = r.0 in
      let t' : Target = record t {
        observed = o.observed;
        record_id = o.record_id;
        created_by_panel = o.created;
      } in
      let (seen, shown) =
        reconcile_record-Shown provider d.zone name type' value d.ttl t.created_by_panel w
          (redacted-none redact o.failure fine) in
      let own : target_of type' (set_target type' t' d) ≡ t' =
        ground (arith, target-set_target type' type' t' d, same_type_refl type') in
      record {
        desired = ap (λ x. x.desired) own;
        observed = ap (λ x. x.observed) own ∙ seen;
        shown = shown;
        others = λ type other. ground (arith, other, target-set_target type type' t' d);
        last = λ type other.
            reconcile_record-last provider d.zone name type type' value d.ttl t.created_by_panel w
              other;
        zone = zone-set_target type' t' d;
      }
