-- ===== src/Panel/Dns/Success.antt =====
-- The records of a domain after they are brought to their values without an error.
use ladder_airport.Base.{if◌then◌else◌, String, ◌≡◌, refl, ap, ◌∙◌, subst, none, arith}
use ladder_airport.Panel.Dns.{
  RecordType, covers, Target, no_target, ManagedDomain, target_of, set_target, Provider, Outside,
  a_record, aaaa_record, cname_record,
}
use ladder_airport.Panel.Dns.Desired.{Wanted}
use ladder_airport.Panel.Dns.Converge.{
  Work, Action, and_then, set_desired, clean_target, reconcile_target, reconcile_mode, converge,
}
use ladder_airport.Panel.Dns.Ready.{wanted_of, and_then-ok, Cleared, clean_target-Cleared}
use ladder_airport.Panel.Dns.Verified.{IsVerified, reconcile_mode-IsVerified}

-- What no reconciliation changes.
abbrev pub SameRow : ManagedDomain → ManagedDomain → Type 0
SameRow d d' =
    (d'.id ≡ d.id)
    × (d'.enabled ≡ d.enabled)
    × (d'.dns_account_id ≡ d.dns_account_id)
    × (d'.zone ≡ d.zone)
    × (d'.fqdn ≡ d.fqdn)

id-set_target :
    (type : RecordType) (t : Target) (d : ManagedDomain) → SameRow d (set_target type t d)
id-set_target a_record t d = (refl, refl, refl, refl, refl)
id-set_target aaaa_record t d = (refl, refl, refl, refl, refl)
id-set_target cname_record t d = (refl, refl, refl, refl, refl)

desired-set_desired :
    (type : RecordType) (wanted : Wanted) (d : ManagedDomain)
    → (target_of type (set_desired wanted d)).desired ≡ wanted_of type wanted
desired-set_desired a_record wanted d = refl
desired-set_desired aaaa_record wanted d = refl
desired-set_desired cname_record wanted d = refl

module _ {S : Type 0} (provider : Provider S) (redact : String → String) (name : String) where
  abbrev KeepsId : Action S → Type 0
  KeepsId m = (x : Work S) → SameRow x.0 (m x).1.0

  and_then-id : (m k : Action S) → KeepsId m → KeepsId k → KeepsId (and_then m k)
  and_then-id m k keeps_m keeps_k x = ground (arith, keeps_m x, keeps_k (m x).1)

  clean_target-id :
      (type : RecordType) (previous : String)
      → KeepsId (clean_target provider redact name type previous)
  unfolding clean_target
  clean_target-id type previous (d, w) = ground (arith, id-set_target type no_target d)

  reconcile_target-id :
      (type : RecordType) (value : String)
      → KeepsId (reconcile_target provider redact name type value)
  unfolding reconcile_target
  reconcile_target-id type value (d, w) = id-set_target type _ d

  reconcile_mode-id : (wanted : Wanted) → KeepsId (reconcile_mode provider redact name wanted)
  unfolding reconcile_mode
  reconcile_mode-id wanted (d, w) =
      let one = λ (k : RecordType) (v : String). reconcile_target provider redact name k v in
      ground (
        arith,
        reconcile_target-id a_record wanted.ipv4 (d, w),
        reconcile_target-id aaaa_record wanted.ipv6 (d, w),
        reconcile_target-id cname_record wanted.cname_target (d, w),
        reconcile_target-id aaaa_record wanted.ipv6 (one a_record wanted.ipv4 (d, w)).1,
      )

  pub converge-id :
      (old : ManagedDomain) (wanted : Wanted) → KeepsId (converge provider redact name old wanted)
  unfolding converge
  converge-id old wanted =
      let clean = λ (k : RecordType) (v : String). clean_target provider redact name k v in
      let mode = reconcile_mode provider redact name wanted in
      let last = and_then (clean cname_record old.alias.desired) mode in
      and_then-id (clean a_record old.ipv4.desired)
        (and_then (clean aaaa_record old.ipv6.desired) last)
        (clean_target-id a_record old.ipv4.desired)
        (and_then-id (clean aaaa_record old.ipv6.desired) last
          (clean_target-id aaaa_record old.ipv6.desired)
          (and_then-id (clean cname_record old.alias.desired) mode
            (clean_target-id cname_record old.alias.desired) (reconcile_mode-id wanted)))

  -- After the three cleanings the columns of a type out of the mode are clear.
  clear_three :
      (type : RecordType) (d d1 d2 d3 : ManagedDomain)
      → Cleared provider redact name a_record d d1
      → Cleared provider redact name aaaa_record d1 d2
      → Cleared provider redact name cname_record d2 d3
      → target_of type d3 ≡ (if covers d.record_mode type then target_of type d else no_target)
  clear_three a_record d d1 d2 d3 p q r =
      r.targets a_record ∙ q.targets a_record ∙ p.targets a_record ∙ ground arith
  clear_three aaaa_record d d1 d2 d3 p q r =
      r.targets aaaa_record ∙ q.targets aaaa_record ∙ ground (arith, p.targets aaaa_record, p.mode)
  clear_three cname_record d d1 d2 d3 p q r =
      r.targets cname_record
      ∙ ground (arith, p.targets cname_record, q.targets cname_record, p.mode, q.mode)

  pub converge-IsVerified :
      (type : RecordType) (d : ManagedDomain) (wanted : Wanted) (w : Outside S)
      → (converge provider redact name d wanted (set_desired wanted d, w)).0 ≡ none
      → IsVerified d.record_mode type wanted d.zone name
          (target_of type (converge provider redact name d wanted (set_desired wanted d, w)).1.0)
          (converge provider redact name d wanted (set_desired wanted d, w)).1.1.calls
  unfolding converge
  converge-IsVerified type d wanted w fine =
      let clean = λ (k : RecordType) (v : String). clean_target provider redact name k v in
      let mode = reconcile_mode provider redact name wanted in
      let m1 = clean a_record d.ipv4.desired in
      let m2 = clean aaaa_record d.ipv6.desired in
      let m3 = clean cname_record d.alias.desired in
      let x0 : Work S = (set_desired wanted d, w) in
      let (fine1, rest1) = and_then-ok m1 (and_then m2 (and_then m3 mode)) x0 fine in
      let x1 = (m1 x0).1 in
      let (fine2, rest2) = and_then-ok m2 (and_then m3 mode) x1 (ap (λ r. r.0) rest1 ∙ fine) in
      let x2 = (m2 x1).1 in
      let (fine3, rest3) = and_then-ok m3 mode x2 (ap (λ r. r.0) (rest2 ∙ rest1) ∙ fine) in
      let x3 = (m3 x2).1 in
      let all_rest = rest3 ∙ rest2 ∙ rest1 in
      let p = clean_target-Cleared provider redact name a_record d.ipv4.desired x0.0 w fine1 in
      let q =
        clean_target-Cleared provider redact name aaaa_record d.ipv6.desired x1.0 x1.1 fine2 in
      let r =
        clean_target-Cleared provider redact name cname_record d.alias.desired x2.0 x2.1 fine3 in
      let cleared = clear_three type x0.0 x1.0 x2.0 x3.0 p q r in
      let mode_is : x3.0.record_mode ≡ d.record_mode = r.mode ∙ q.mode ∙ p.mode in
      let zone_is : x3.0.zone ≡ d.zone = r.zone ∙ q.zone ∙ p.zone in
      subst
        (λ y. IsVerified d.record_mode type wanted d.zone name (target_of type y.1.0) y.1.1.calls)
        all_rest
        (subst
          (λ z.
            IsVerified d.record_mode type wanted z name (target_of type (mode x3).1.0)
              (mode x3).1.1.calls)
          zone_is
          (reconcile_mode-IsVerified provider redact name wanted type d.record_mode x3.0 x3.1
            mode_is (ap (λ y. y.0) all_rest ∙ fine)
            (λ covered.
              ap (λ t. t.desired) cleared
              ∙ ground (arith, covered, desired-set_desired type wanted d))
            (λ free. cleared ∙ ground (arith, free))))
