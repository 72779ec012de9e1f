-- ===== src/Panel/Dns/Edit.antt =====
-- What the operator does with a managed domain: buildManagedDomain and the handlers of
-- panel/internal/api/handlers_dns.go. The names and ids of a request are trimmed; the jobs that
-- the handlers enqueue are those of panel/internal/store/automation.go.
use Prim.Native.String.{◌++◌ as concat}
use ladder_airport.Base.{
  ltb, ◌==◌, if◌then◌else◌, Result, ◌>>=◌, ◌>>◌, err, ok, ℕ, String, Bool, true, false, not, ◌&&◌,
  ◌||◌, Option, none, some, List, [], ◌∷◌, ◌++◌, str_eq,
}
use ladder_airport.Panel.Dns.{
  RecordMode, AddressSource, DomainState, no_target, ManagedDomain, DnsAccount, get_dns_account,
  validate_managed_domain_zone, get_managed_domain, has_domain, is_taken, update_managed_domain,
  delete_managed_domain, a, other_mode, manual, other_source, pending, disabled, deleting,
}
use ladder_airport.Panel.Dns.Desired.{
  Address, is_space, trim, Node, wants_four, wants_six, is_cname,
}

-- An empty text, no mode, no source and 0 leave the value as it is. The manual values are as they were
-- sent; a mode of white space alone is `a`, and such a source is `manual`.
pub record DomainRequest : Type 0 where
  pub node_id : String
  pub dns_account_id : String
  pub fqdn : String
  pub zone : String
  pub record_mode : Option RecordMode
  pub address_source : Option AddressSource
  pub manual_ipv4 : String
  pub manual_ipv6 : String
  pub manual_cname : String
  pub ttl : ℕ
  pub enabled : Option Bool

-- The server: its tables, and the functions on names and addresses.
pub record Server : Type 0 where
  pub now : ℕ
  pub new_id : String
  pub accounts : List DnsAccount
  pub get_node : String → Result Node
  pub managed_fqdn : String → String → Result String
  pub normalize_fqdn : String → Result String
  pub relative_name : String → String → Result String
  pub parse_addr : String → Option Address
  pub tls_usage : String → ℕ × ℕ

abbrev keep : String → String → String
keep new old = if str_eq new "" then old else new

-- White space alone clears a manual value.
abbrev keep_text : String → String → String
keep_text new old = if str_eq new "" then old else trim is_space new

abbrev pub has_panel_records : ManagedDomain → Bool
has_panel_records d = d.ipv4.created_by_panel || d.ipv6.created_by_panel

abbrev pub moves : ManagedDomain → ManagedDomain → Bool
moves old d =
    not (str_eq d.dns_account_id old.dns_account_id)
    || not (str_eq d.zone old.zone)
    || not (str_eq d.fqdn old.fqdn)

abbrev guard : Bool → String → Result Bool
guard true e = err e
guard false e = ok true

abbrev same_zone : Server → String → String → Result Bool
same_zone s zone account_zone =
    if str_eq zone ""
    then ok true
    else s.normalize_fqdn zone >>= λ z.
        guard (not (str_eq z account_zone)) (concat "托管域名区域由 DNS 账号决定，当前账号区域为 " account_zone)

-- The name and the zone that are asked for.
unfoldable pub chosen_name : Server → DomainRequest → ManagedDomain → Result (String × String)
chosen_name s request d = do
  guard (str_eq d.node_id "" || str_eq d.dns_account_id "") "必须提供节点和 DNS 账号"
  s.get_node d.node_id
  account ← get_dns_account d.dns_account_id s.accounts
  guard (str_eq account.zone "") "DNS 账号尚未配置区域，请先编辑账号"
  fqdn ← s.managed_fqdn (keep request.fqdn d.fqdn) account.zone
  same_zone s request.zone account.zone
  s.relative_name fqdn account.zone
  ok (fqdn, account.zone)

-- A domain with records of Panel stays at its place.
unfoldable pub settle : ManagedDomain → ManagedDomain → Result ManagedDomain
settle old d =
    if has_panel_records old && moves old d
    then err "该域名已有 Panel 创建的记录；更换账号、区域或域名前请先显式删除旧记录"
    else ok d

abbrev pub at_node : DomainRequest → ManagedDomain → ManagedDomain
at_node request old = record old {
  node_id = keep request.node_id old.node_id;
  dns_account_id = keep request.dns_account_id old.dns_account_id;
}

unfoldable pub place_domain : Server → DomainRequest → ManagedDomain → Result ManagedDomain
place_domain s request old = do
  (fqdn, zone) ← chosen_name s request (at_node request old)
  settle old (record (at_node request old) { fqdn = fqdn; zone = zone })

abbrev or_else {ℓ} : {A : Type ℓ} → Option A → A → A
or_else none old = old
or_else (some new) old = new

abbrev known_mode : RecordMode → Bool
known_mode (other_mode _) = false
known_mode _ = true

abbrev known_source : AddressSource → Bool
known_source (other_source _) = false
known_source _ = true

abbrev is_manual : AddressSource → Bool
is_manual manual = true
is_manual _ = false

unfoldable pub valid_address_family : (String → Option Address) → String → Bool → Bool
valid_address_family parse_addr value four = elim (parse_addr value) [
  | none ↦ false
  | some x ↦ if four then x.is_four else not x.is_four
]

-- The manual values, which the mode and the source ask for.
unfoldable pub manual_values : Server → ManagedDomain → Result ManagedDomain
manual_values s d =
    if is_cname d.record_mode
    then elim (s.normalize_fqdn d.manual_cname) [
      | err e ↦ err "必须提供有效的 CNAME 目标域名"
      | ok target ↦ ok (record d { manual_cname = target })
    ]
    else if is_manual d.address_source
        && wants_four d.record_mode
        && not (valid_address_family s.parse_addr d.manual_ipv4 true)
    then err "必须提供有效的手工 IPv4 地址"
    else if is_manual d.address_source
        && wants_six d.record_mode
        && not (valid_address_family s.parse_addr d.manual_ipv6 false)
    then err "必须提供有效的手工 IPv6 地址"
    else ok d

abbrev state_after : ManagedDomain → DomainState
state_after d =
    if not d.enabled then disabled else elim d.state [ disabled ↦ pending | other ↦ other ]

unfoldable pub set_modes : DomainRequest → ManagedDomain → Result ManagedDomain
set_modes request old =
    let d = record old {
      record_mode = or_else request.record_mode old.record_mode;
      address_source = or_else request.address_source old.address_source;
      manual_ipv4 = keep_text request.manual_ipv4 old.manual_ipv4;
      manual_ipv6 = keep_text request.manual_ipv6 old.manual_ipv6;
      manual_cname = keep_text request.manual_cname old.manual_cname;
    } in
    if not (known_mode d.record_mode)
    then err "记录模式必须为 a、aaaa、dual 或 cname"
    else if not (known_source d.address_source)
    then err "地址来源无效"
    else if is_cname d.record_mode && not (is_manual d.address_source)
    then err "CNAME 记录只能使用手工指定目标"
    else ok d

unfoldable pub set_ttl : DomainRequest → ManagedDomain → Result ManagedDomain
set_ttl request old =
    let ttl = if ltb 0 request.ttl then request.ttl else if old.ttl == 0 then 300 else old.ttl in
    let d = record old { ttl = ttl; enabled = or_else request.enabled old.enabled } in
    if ltb ttl 60 || ltb 86400 ttl
    then err "TTL 必须在 60 到 86400 秒之间"
    else ok (record d { state = state_after d })

unfoldable pub set_values : Server → DomainRequest → ManagedDomain → Result ManagedDomain
set_values s request old = do
  chosen ← set_modes request old
  valued ← manual_values s chosen
  set_ttl request valued

-- The row that a new domain starts from.
abbrev pub blank_domain : String → ManagedDomain
blank_domain id = record {
  id = id;
  node_id = "";
  dns_account_id = "";
  zone = "";
  fqdn = "";
  record_mode = a;
  address_source = manual;
  manual_ipv4 = "";
  manual_ipv6 = "";
  manual_cname = "";
  ttl = 300;
  enabled = true;
  state = pending;
  ipv4 = no_target;
  ipv6 = no_target;
  alias = no_target;
  last_reconcile_unix = 0;
  next_reconcile_unix = 0;
  retry_count = 0;
  last_error = "";
  created_at_unix = 0;
  updated_at_unix = 0;
}

unfoldable pub build_managed_domain : Server → ManagedDomain → DomainRequest → Result ManagedDomain
unfolding place_domain set_values
build_managed_domain s old request = place_domain s request old >>= λ d. set_values s request d

unfoldable pub create_managed_domain :
    Server → ManagedDomain → List ManagedDomain → Option String × List ManagedDomain
create_managed_domain s d ds =
    elim (validate_managed_domain_zone d.dns_account_id d.zone s.accounts) [
      | some e ↦ (some e, ds)
      | none ↦
          if has_domain d.id ds || is_taken d ds
          then (some "创建托管域名失败：UNIQUE constraint failed", ds)
          else (none, ds ++ record d { created_at_unix = s.now; updated_at_unix = s.now } ∷ [])
    ]

unfoldable pub handle_create_managed_domain :
    Server → DomainRequest → List ManagedDomain → Option String × List ManagedDomain
handle_create_managed_domain s request ds =
    elim (build_managed_domain s (blank_domain s.new_id) request) [
      | err e ↦ (some e, ds)
      | ok d ↦ create_managed_domain s d ds
    ]

unfoldable pub handle_update_managed_domain :
    Server → String → DomainRequest → List ManagedDomain → Option String × List ManagedDomain
handle_update_managed_domain s id request ds = elim (get_managed_domain id ds) [
  | err e ↦ (some e, ds)
  | ok current ↦ elim (build_managed_domain s current request) [
    | err e ↦ (some e, ds)
    | ok d ↦ update_managed_domain s.accounts s.now d ds
  ]
]

-- The row goes at once, or a cleanup job is enqueued for it.
pub data Deletion : Type 0 where
  refused : String → Deletion
  cleanup_enqueued removed : Deletion

abbrev deletion : Deletion → Option String → Deletion
deletion done none = done
deletion done (some e) = refused e

unfoldable pub handle_delete_managed_domain :
    Server → String → Bool → List ManagedDomain → Deletion × List ManagedDomain
handle_delete_managed_domain s id delete_records ds = elim (get_managed_domain id ds) [
  | err e ↦ (refused e, ds)
  | ok d ↦
      if ltb 0 (s.tls_usage id).0 || ltb 0 (s.tls_usage id).1
      then (refused "该域名仍关联协议证书或 TLS 绑定，请先解除关联", ds)
      else if has_panel_records d && not delete_records
      then (refused "该域名包含 Panel 创建的记录；请明确设置 delete_records=true 或先禁用记录管理", ds)
      else if has_panel_records d
      then (let (failure, ds') =
            update_managed_domain s.accounts s.now (record d { enabled = false; state = deleting })
              ds in
          (deletion cleanup_enqueued failure, ds'))
      else (let (failure, ds') = delete_managed_domain (s.tls_usage id) id ds in
          (deletion removed failure, ds'))
]
