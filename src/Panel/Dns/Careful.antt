-- ===== src/Panel/Dns/Careful.antt =====
-- A whole reconciliation and a whole cleanup: which records they delete, and which they own after.
use ladder_airport.Panel.Dns.Desired.{Wanted}
use ladder_airport.Panel.Dns.Record.{Outcome, reconcile_record, cleanup_disabled_record}
use Prim.Native.String.{◌++◌ as concat}
use ladder_airport.Base.{
  Bool-cases, Option-cases, String, ◌≡◌, sym, ◌∙◌, subst, inl, inr, true, Option, some, arith,
}
use ladder_airport.Panel.Dns.{
  RecordType, same_type, RecordMode, covers, Target, no_target, ManagedDomain, target_of,
  set_target, Provider, Outside, a_record, aaaa_record, cname_record, a, aaaa, dual, cname,
  other_mode,
}
use ladder_airport.Panel.Dns.Converge.{
  Action, and_then, clean_target, reconcile_target, reconcile_mode, converge,
}
use ladder_airport.Panel.Dns.Ownership.{
  is_careful, owned, reconcile_record-careful, reconcile_record-grows, reconcile_record-owned,
  cleanup-grows, cleanup-careful,
}
use ladder_airport.Panel.Dns.Kept.{
  same_type-eq, created-set_target, SamePlace, place-set_target, place_refl, IsSafe, Grows, Keeps,
  and_then-Keeps,
}

module _ {S : Type 0} (provider : Provider S) (redact : String → String) (name : String)
    (type : RecordType) where
  clean_target-Keeps :
      (type' : RecordType) (previous : String)
      → Keeps type name (clean_target provider redact name type' previous)
  clean_target-Keeps type' previous d w safe = elim (Bool-cases (covers d.record_mode type')) [
    | inl covered ↦
        let same : (d, w) ≡ (clean_target provider redact name type' previous (d, w)).1 =
          unfold clean_target in (ground (arith, covered)) in
        subst (λ x. SamePlace d x.0 × IsSafe type name x × Grows type w x.1) same
          (place_refl d, safe, λ z n created own. own)
    | inr free ↦ elim (Option-cases r.0) [
      | inr (e, failed) ↦
          let same : (d, r.1) ≡ (clean_target provider redact name type' previous (d, w)).1 =
            unfold clean_target in (ground (arith, free, failed)) in
          subst (λ x. SamePlace d x.0 × IsSafe type name x × Grows type w x.1) same
            (
              place_refl d,
              record {
                own = grown d.zone name (target_of type d).created_by_panel safe.own;
                careful = careful';
              },
              grown,
            )
      | inl fine ↦
          let same : (set_target type' no_target d, r.1)
              ≡ (clean_target provider redact name type' previous (d, w)).1 =
            unfold clean_target in (ground (arith, free, fine)) in
          subst (λ x. SamePlace d x.0 × IsSafe type name x × Grows type w x.1) same
            (
              place-set_target type' no_target d,
              record { own = cleared; careful = careful' },
              grown,
            )
    ]
  ]
    where
      t : Target
      t = target_of type' d

      r : Option String × Outside S
      r =
          cleanup_disabled_record provider d.zone name type' previous t.record_id t.created_by_panel
            w

      grown : Grows type w r.1
      grown z n created own =
          cleanup-grows provider d.zone name z n created type type' previous t.record_id
            t.created_by_panel w own

      careful' : is_careful type r.1.calls ≡ true
      careful' =
          cleanup-careful provider d.zone name type type' previous t.record_id t.created_by_panel w
            (λ same.
              subst (λ k. owned (target_of k d).created_by_panel d.zone name type w.calls ≡ true)
                (sym (same_type-eq type' type same)) safe.own)
            safe.careful

      cleared :
          owned
            (target_of type (set_target type' no_target d)).created_by_panel
            (set_target type' no_target d).zone
            name
            type
            r.1.calls
          ≡ true
      cleared = ground (
        arith,
        created-set_target type type' no_target d,
        grown d.zone name (target_of type d).created_by_panel safe.own,
        (place-set_target type' no_target d).same_zone,
      )

  reconcile_target-Keeps :
      (type' : RecordType) (desired : String)
      → Keeps type name (reconcile_target provider redact name type' desired)
  unfolding reconcile_target
  reconcile_target-Keeps type' desired d w safe = (
    place-set_target type' t' d,
    record {
      own = own';
      careful =
          reconcile_record-careful provider d.zone name type type' desired d.ttl t.created_by_panel
            w
          ∙ safe.careful;
    },
    grown,
  )
    where
      t : Target
      t = target_of type' d

      o : Outcome × Outside S
      o = reconcile_record provider d.zone name type' desired d.ttl t.created_by_panel w

      t' : Target
      t' = record t {
        observed = o.0.observed;
        record_id = o.0.record_id;
        created_by_panel = o.0.created;
      }

      own_new : same_type type' type ≡ true → owned o.0.created d.zone name type o.1.calls ≡ true
      own_new same =
          let is = same_type-eq type' type same in
          subst (λ k. owned o.0.created d.zone name k o.1.calls ≡ true) is
            (reconcile_record-owned provider d.zone name type' desired d.ttl t.created_by_panel w (
              subst (λ k. owned (target_of k d).created_by_panel d.zone name k w.calls ≡ true)
                (sym is) safe.own))

      grown : Grows type w o.1
      grown z n created own =
          reconcile_record-grows provider d.zone name z n created type type' desired d.ttl
            t.created_by_panel w own

      own_old : owned (target_of type d).created_by_panel d.zone name type o.1.calls ≡ true
      own_old = grown d.zone name (target_of type d).created_by_panel safe.own

      own' :
          owned
            (target_of type (set_target type' t' d)).created_by_panel
            (set_target type' t' d).zone
            name
            type
            o.1.calls
          ≡ true
      own' = elim (Bool-cases (same_type type' type)) [
        | inl same ↦ ground (
          arith,
          same,
          own_new same,
          created-set_target type type' t' d,
          (place-set_target type' t' d).same_zone,
        )
        | inr other ↦ ground (
          arith,
          other,
          own_old,
          created-set_target type type' t' d,
          (place-set_target type' t' d).same_zone,
        )
      ]

  reconcile_mode-Keeps :
      (wanted : Wanted) → Keeps type name (reconcile_mode provider redact name wanted)
  unfolding reconcile_mode
  reconcile_mode-Keeps wanted d w safe = go d.record_mode
    where
      Goal : Action S → Type 0
      Goal m =
          SamePlace d (m (d, w)).1.0 × IsSafe type name (m (d, w)).1 × Grows type w (m (d, w)).1.1

      go :
          (mode : RecordMode)
          → Goal (λ x. elim mode [
            | a ↦ reconcile_target provider redact name a_record wanted.ipv4 x
            | aaaa ↦ reconcile_target provider redact name aaaa_record wanted.ipv6 x
            | dual ↦
                and_then
                  (reconcile_target provider redact name a_record wanted.ipv4)
                  (reconcile_target provider redact name aaaa_record wanted.ipv6)
                  x
            | cname ↦ reconcile_target provider redact name cname_record wanted.cname_target x
            | other_mode m ↦ (some (concat "记录模式无效：" m), x)
          ])
      go a = reconcile_target-Keeps a_record wanted.ipv4 d w safe
      go aaaa = reconcile_target-Keeps aaaa_record wanted.ipv6 d w safe
      go dual =
          and_then-Keeps type name (reconcile_target provider redact name a_record wanted.ipv4)
            (reconcile_target provider redact name aaaa_record wanted.ipv6)
            (reconcile_target-Keeps a_record wanted.ipv4)
            (reconcile_target-Keeps aaaa_record wanted.ipv6) d w safe
      go cname = reconcile_target-Keeps cname_record wanted.cname_target d w safe
      go (other_mode m) = (place_refl d, safe, λ z n created own. own)

  pub converge-Keeps :
      (old : ManagedDomain) (wanted : Wanted)
      → Keeps type name (converge provider redact name old wanted)
  unfolding converge
  converge-Keeps old wanted =
      let clean =
        λ (k : RecordType) (previous : String). clean_target provider redact name k previous in
      let mode = reconcile_mode provider redact name wanted in
      let last = and_then (clean cname_record old.alias.desired) mode in
      and_then-Keeps type name (clean a_record old.ipv4.desired)
        (and_then (clean aaaa_record old.ipv6.desired) last)
        (clean_target-Keeps a_record old.ipv4.desired)
        (and_then-Keeps type name (clean aaaa_record old.ipv6.desired) last
          (clean_target-Keeps aaaa_record old.ipv6.desired)
          (and_then-Keeps type name (clean cname_record old.alias.desired) mode
            (clean_target-Keeps cname_record old.alias.desired) (reconcile_mode-Keeps wanted)))
