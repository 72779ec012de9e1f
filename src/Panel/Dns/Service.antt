-- ===== src/Panel/Dns/Service.antt =====
-- The reconciliation of managed domains, panel/internal/dnsreconcile/service.go. Times are seconds.
-- The credentials of an account and the providers' constructors are parameters; `redact` stands for
-- the redaction of credentials in an error's text.
use ladder_airport.Base.{
  ltb, ◌==◌, if◌then◌else◌, Result, err, ok, ℕ, ◌+◌, String, Bool, true, false, not, ◌||◌, Option,
  none, some, List,
}
use ladder_airport.Panel.Dns.{
  RecordType, AddressSource, ManagedDomain, target_of, DnsAccount, get_dns_account,
  get_managed_domain, update_managed_domain, delete_managed_domain, Provider, Outside, a_record,
  aaaa_record, agent_public, ready, paused, retry_wait,
}
use ladder_airport.Panel.Dns.Desired.{Network, desired_addresses}
use ladder_airport.Panel.Dns.Record.{cleanup_disabled_record}
use ladder_airport.Panel.Dns.Converge.{Work, redacted, set_desired, converge}

abbrev pub reconcile_interval : ℕ
reconcile_interval = 300

-- The attempt's number starts at 1.
unfoldable pub retry_delay : ℕ → ℕ
retry_delay n =
    if n == 1
    then 60
    else if n == 2
    then 300
    else if n == 3
    then 900
    else if n == 4
    then 3600
    else 21600

-- The service: the clock, the network, the accounts and how a provider is opened.
pub record Service (S : Type 0) : Type 0 where
  pub now : ℕ
  pub network : Network
  pub accounts : List DnsAccount
  pub decrypt_credentials : DnsAccount → Result (List String)
  pub open_provider : DnsAccount → List String → Result (Provider S)
  pub redact : List String → String → String
  pub tls_usage : String → ℕ × ℕ

pub record Tables (S : Type 0) : Type 0 where
  pub domains : List ManagedDomain
  pub outside : Outside S

unfoldable pub after_failure : ℕ → String → ManagedDomain → ManagedDomain
after_failure now e d = record d {
  state = retry_wait;
  retry_count = d.retry_count + 1;
  next_reconcile_unix = now + retry_delay (d.retry_count + 1);
  last_error = e;
}

unfoldable pub after_success : ℕ → String → ManagedDomain → ManagedDomain
after_success now note d = record d {
  state = ready;
  retry_count = 0;
  last_error = note;
  last_reconcile_unix = now;
  next_reconcile_unix = now + reconcile_interval;
}

unfoldable pub pause : ℕ → ManagedDomain → ManagedDomain
pause now d = record d {
  state = paused;
  retry_count = 0;
  last_error = "节点已关闭 DDNS 自动解析，公网探测已暂停";
  next_reconcile_unix = now + reconcile_interval;
}

abbrev pub is_agent_public : AddressSource → Bool
is_agent_public agent_public = true
is_agent_public _ = false

module _ {S : Type 0} where
  unfoldable pub provider_for_domain : Service S → ManagedDomain → Result (Provider S × List String)
  provider_for_domain s d = elim (get_dns_account d.dns_account_id s.accounts) [
    | err e ↦ err e
    | ok account ↦
        if not account.enabled then err "DNS 账号已禁用" else elim (s.decrypt_credentials account) [
          | err e ↦ err e
          | ok credentials ↦ elim (s.open_provider account credentials) [
            | err e ↦ err (s.redact credentials e)
            | ok provider ↦ ok (provider, credentials)
          ]
        ]
  ]

  -- `reconcile`: a note or an error, and the domain as far as it came.
  unfoldable pub reconcile_domain : Service S → Work S → Result String × Work S
  reconcile_domain s (d, w) = elim (provider_for_domain s d) [
    | err e ↦ (err e, (d, w))
    | ok (provider, credentials) ↦ elim (desired_addresses s.network d) [
      | err e ↦ (err e, (d, w))
      | ok wanted ↦ elim (s.network.relative_name d.fqdn d.zone) [
        | err e ↦ (err e, (set_desired wanted d, w))
        | ok name ↦
            let (failure, (d', w')) =
              converge provider (s.redact credentials) name d wanted (set_desired wanted d, w) in
            elim failure [
              | some e ↦ (err e, (d', w'))
              | none ↦ (ok wanted.note, (record d' { last_reconcile_unix = s.now }, w'))
            ]
      ]
    ]
  ]

  -- Whether the domain waits for its node's switch.
  unfoldable pub is_paused : Service S → ManagedDomain → Result Bool
  is_paused s d =
      if is_agent_public d.address_source
      then elim (s.network.get_node d.node_id) [
        | err e ↦ err e
        | ok node ↦ ok (not node.ddns_enabled)
      ]
      else ok false

  abbrev pub store_domain :
      Service S → ManagedDomain → List ManagedDomain → Option String × List ManagedDomain
  store_domain s d ds = update_managed_domain s.accounts s.now d ds

  unfoldable pub run_reconcile : Service S → ManagedDomain → Tables S → Option String × Tables S
  run_reconcile s d t =
      let (r, (d', w)) = reconcile_domain s (d, t.outside) in
      elim r [
        | err e ↦ (
          some e,
          record { domains = (store_domain s (after_failure s.now e d') t.domains).1; outside = w },
        )
        | ok note ↦
            let (failure, ds) = store_domain s (after_success s.now note d') t.domains in
            (failure, record { domains = ds; outside = w })
      ]

  unfoldable pub reconcile : Service S → String → Tables S → Option String × Tables S
  reconcile s id t = elim (get_managed_domain id t.domains) [
    | err e ↦ (some e, t)
    | ok d ↦ if not d.enabled then (none, t) else elim (is_paused s d) [
      | err e ↦ (some e, t)
      | ok true ↦
          let (failure, ds) = store_domain s (pause s.now d) t.domains in
          (failure, record t { domains = ds })
      | ok false ↦ run_reconcile s d t
    ]
  ]

  -- The record of one type goes, if Panel created it and the provider still has its value.
  unfoldable pub cleanup_target :
      Provider S
      → (String → String)
      → String
      → RecordType
      → ManagedDomain
      → Outside S
      → Option String × Outside S
  cleanup_target provider redact name type d w =
      let (failure, w') =
        cleanup_disabled_record provider d.zone name type (target_of type d).desired
          (target_of type d).record_id (target_of type d).created_by_panel w in
      (redacted redact failure, w')

  unfoldable pub cleanup_records :
      Provider S
      → (String → String)
      → String
      → ManagedDomain
      → Outside S
      → Option String × Outside S
  cleanup_records provider redact name d w =
      let (failure, w') = cleanup_target provider redact name a_record d w in
      elim failure [
        | some e ↦ (some e, w')
        | none ↦ cleanup_target provider redact name aaaa_record d w'
      ]

  unfoldable pub cleanup : Service S → String → Tables S → Option String × Tables S
  cleanup s id t = elim (get_managed_domain id t.domains) [
    | err e ↦ (some e, t)
    | ok d ↦
        if ltb 0 (s.tls_usage id).0 || ltb 0 (s.tls_usage id).1
        then (some "托管域名仍被协议证书或 TLS 绑定引用", t)
        else elim (provider_for_domain s d) [
          | err e ↦ (some e, t)
          | ok (provider, credentials) ↦ elim (s.network.relative_name d.fqdn d.zone) [
            | err e ↦ (some e, t)
            | ok name ↦
                let (failure, w) =
                  cleanup_records provider (s.redact credentials) name d t.outside in
                elim failure [
                  | some e ↦ (some e, record t { outside = w })
                  | none ↦
                      let (failure', ds) =
                        delete_managed_domain (s.tls_usage d.id) d.id t.domains in
                      (failure', record { domains = ds; outside = w })
                ]
          ]
        ]
  ]
