-- ===== src/Panel/Dns/Converge.antt =====
-- The records of a domain: the part of `reconcile` behind desiredAddresses, in
-- panel/internal/dnsreconcile/service.go. What is done up to an error stays done.
use Prim.Native.String.{◌++◌ as concat}
use ladder_airport.Base.{if◌then◌else◌, String, Option, none, some}
use ladder_airport.Panel.Dns.{
  RecordType, covers, no_target, ManagedDomain, target_of, set_target, Provider, Outside, a_record,
  aaaa_record, cname_record, a, aaaa, dual, cname, other_mode,
}
use ladder_airport.Panel.Dns.Desired.{Wanted}
use ladder_airport.Panel.Dns.Record.{reconcile_record, cleanup_disabled_record}

-- A domain while it is reconciled, with the calls.
abbrev pub Work : Type 0 → Type 0
Work S = ManagedDomain × Outside S

abbrev pub Action : Type 0 → Type 0
Action S = Work S → Option String × Work S

abbrev pub and_then : {S : Type 0} → Action S → Action S → Action S
and_then m k x = let (failure, x') = m x in elim failure [ none ↦ k x' | some e ↦ (some e, x') ]

abbrev pub redacted : (String → String) → Option String → Option String
redacted redact none = none
redacted redact (some e) = some (redact e)

abbrev pub set_desired : Wanted → ManagedDomain → ManagedDomain
set_desired wanted d = record d {
  ipv4 = record (d.ipv4) { desired = wanted.ipv4 };
  ipv6 = record (d.ipv6) { desired = wanted.ipv6 };
  alias = record (d.alias) { desired = wanted.cname_target };
}

module _ {S : Type 0} (provider : Provider S) (redact : String → String) (name : String) where
  -- A record type that the mode does not manage: Panel's record goes, and with it the columns.
  unfoldable pub clean_target : RecordType → String → Action S
  clean_target type previous (d, w) =
      if covers d.record_mode type
      then (none, (d, w))
      else (let (failure, w') =
            cleanup_disabled_record provider d.zone name type previous (target_of type d).record_id
              (target_of type d).created_by_panel w in
          elim failure [
            | some e ↦ (some (redact e), (d, w'))
            | none ↦ (none, (set_target type no_target d, w'))
          ])

  unfoldable pub reconcile_target : RecordType → String → Action S
  reconcile_target type desired (d, w) =
      let (o, w') =
        reconcile_record provider d.zone name type desired d.ttl (target_of type d).created_by_panel
          w in
      (
        redacted redact o.failure,
        (
          set_target type
              (record (target_of type d) {
                observed = o.observed;
                record_id = o.record_id;
                created_by_panel = o.created;
              })
              d,
          w',
        ),
      )

  unfoldable pub reconcile_mode : Wanted → Action S
  reconcile_mode wanted (d, w) = elim d.record_mode [
    | a ↦ reconcile_target a_record wanted.ipv4 (d, w)
    | aaaa ↦ reconcile_target aaaa_record wanted.ipv6 (d, w)
    | dual ↦
        and_then (reconcile_target a_record wanted.ipv4) (reconcile_target aaaa_record wanted.ipv6)
          (d, w)
    | cname ↦ reconcile_target cname_record wanted.cname_target (d, w)
    | other_mode m ↦ (some (concat "记录模式无效：" m), (d, w))
  ]

  -- `old` is the domain before its desired values were set.
  unfoldable pub converge : ManagedDomain → Wanted → Action S
  converge old wanted = and_then (clean_target a_record old.ipv4.desired) (
      and_then (clean_target aaaa_record old.ipv6.desired)
        (and_then (clean_target cname_record old.alias.desired) (reconcile_mode wanted)))
