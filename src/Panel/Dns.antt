-- ===== src/Panel/Dns.antt =====
-- Managed domains: the rows of panel/internal/store/dns.go and models.go, and the provider of
-- panel/internal/dnsprovider/provider.go. What is kept of one record type of a domain, in columns of
-- its own, is a `Target`. Faults of the database are left out, unknown ids are not.
pub mod Desired
pub mod Routable
pub mod Public
pub mod Record
pub mod Converge
pub mod Service
pub mod Edit
pub mod Ownership
pub mod Kept
pub mod Careful
pub mod Rows
pub mod Runs
pub mod Owners
pub mod Cleaned
pub mod Operator
pub mod Requests
pub mod History
pub mod Converged
pub mod Ready
pub mod Verified
pub mod Success
pub mod Reconciled
pub mod Schedule
mod Tests
use Prim.Native.String.{◌++◌ as concat}
use ladder_airport.Base.{
  ltb, leb, ◌==◌, if◌then◌else◌, take, filter, Result, err, ok, ℕ, String, Bool, true, false, not,
  ◌&&◌, ◌||◌, Option, none, some, List, [], ◌∷◌, str_eq,
}

pub data RecordType : Type 0 where
  a_record aaaa_record cname_record : RecordType

abbrev pub same_type : RecordType → RecordType → Bool
same_type a_record a_record = true
same_type aaaa_record aaaa_record = true
same_type cname_record cname_record = true
same_type _ _ = false

abbrev pub type_name : RecordType → String
type_name a_record = "A"
type_name aaaa_record = "AAAA"
type_name cname_record = "CNAME"

pub data RecordMode : Type 0 where
  a aaaa dual cname : RecordMode
  other_mode : String → RecordMode

-- The modes in which a record type is managed.
abbrev pub covers : RecordMode → RecordType → Bool
covers a a_record = true
covers dual a_record = true
covers aaaa aaaa_record = true
covers dual aaaa_record = true
covers cname cname_record = true
covers _ _ = false

pub data AddressSource : Type 0 where
  manual node_address agent_public : AddressSource
  other_source : String → AddressSource

pub data DomainState : Type 0 where
  pending ready paused retry_wait disabled deleting : DomainState

pub record Target : Type 0 where
  pub desired : String
  pub observed : List String
  pub record_id : String
  pub created_by_panel : Bool

abbrev pub no_target : Target
no_target = record { desired = ""; observed = []; record_id = ""; created_by_panel = false }

pub record ManagedDomain : Type 0 where
  pub id : String
  pub node_id : String
  pub dns_account_id : String
  pub zone : String
  pub fqdn : String
  pub record_mode : RecordMode
  pub address_source : AddressSource
  pub manual_ipv4 : String
  pub manual_ipv6 : String
  pub manual_cname : String
  pub ttl : ℕ
  pub enabled : Bool
  pub state : DomainState
  pub ipv4 : Target
  pub ipv6 : Target
  pub alias : Target
  pub last_reconcile_unix : ℕ
  pub next_reconcile_unix : ℕ
  pub retry_count : ℕ
  pub last_error : String
  pub created_at_unix : ℕ
  pub updated_at_unix : ℕ

abbrev pub target_of : RecordType → ManagedDomain → Target
target_of a_record d = d.ipv4
target_of aaaa_record d = d.ipv6
target_of cname_record d = d.alias

abbrev pub set_target : RecordType → Target → ManagedDomain → ManagedDomain
set_target a_record t d = record d { ipv4 = t }
set_target aaaa_record t d = record d { ipv6 = t }
set_target cname_record t d = record d { alias = t }

pub record DnsAccount : Type 0 where
  pub id : String
  pub provider : String
  pub zone : String
  pub credentials_ciphertext : String
  pub enabled : Bool

unfoldable pub get_dns_account : String → List DnsAccount → Result DnsAccount
get_dns_account id [] = err (concat "DNS 账号不存在：" id)
get_dns_account id (x ∷ xs) =
    let rest = get_dns_account id xs in if str_eq x.id id then ok x else rest

abbrev zone_fault : String → DnsAccount → Option String
zone_fault zone account =
    if str_eq account.zone ""
    then some "DNS 账号尚未配置区域"
    else if str_eq account.zone zone
    then none
    else some (concat "托管域名区域必须与 DNS 账号区域一致：" account.zone)

unfoldable pub validate_managed_domain_zone : String → String → List DnsAccount → Option String
unfolding get_dns_account
validate_managed_domain_zone id zone accounts = elim (get_dns_account id accounts) [
  | err e ↦ some e
  | ok account ↦ zone_fault zone account
]

unfoldable pub get_managed_domain : String → List ManagedDomain → Result ManagedDomain
get_managed_domain id [] = err (concat "托管域名不存在：" id)
get_managed_domain id (d ∷ ds) =
    let rest = get_managed_domain id ds in if str_eq d.id id then ok d else rest

unfoldable pub has_domain : String → List ManagedDomain → Bool
has_domain id [] = false
has_domain id (d ∷ ds) = let rest = has_domain id ds in str_eq d.id id || rest

unfoldable pub write_domain : ManagedDomain → List ManagedDomain → List ManagedDomain
write_domain d [] = []
write_domain d (x ∷ xs) = let rest = write_domain d xs in (if str_eq x.id d.id then d else x) ∷ rest

-- The unique index on the account and the name.
unfoldable pub is_taken : ManagedDomain → List ManagedDomain → Bool
is_taken d [] = false
is_taken d (x ∷ xs) =
    let rest = is_taken d xs in
    not (str_eq x.id d.id) && str_eq x.dns_account_id d.dns_account_id && str_eq x.fqdn d.fqdn
    || rest

-- A failed update changes no row.
unfoldable pub update_managed_domain :
    List DnsAccount → ℕ → ManagedDomain → List ManagedDomain → Option String × List ManagedDomain
update_managed_domain accounts now d ds =
    if str_eq d.id ""
    then (some "必须提供托管域名 ID", ds)
    else elim (validate_managed_domain_zone d.dns_account_id d.zone accounts) [
      | some e ↦ (some e, ds)
      | none ↦
          if is_taken d ds
          then (some "更新托管域名失败：UNIQUE constraint failed", ds)
          else if has_domain d.id ds
          then (none, write_domain (record d { updated_at_unix = now }) ds)
          else (some (concat "托管域名不存在：" d.id), ds)
    ]

unfoldable pub delete_row : String → List ManagedDomain → List ManagedDomain
delete_row id [] = []
delete_row id (d ∷ ds) = let rest = delete_row id ds in if str_eq d.id id then rest else d ∷ rest

-- `usage` is what ManagedDomainTLSUsage counts: certificates and bindings.
unfoldable pub delete_managed_domain :
    ℕ × ℕ → String → List ManagedDomain → Option String × List ManagedDomain
delete_managed_domain usage id ds =
    if ltb 0 usage.0 || ltb 0 usage.1
    then (some "删除托管域名失败；请先解除协议证书和 TLS 绑定", ds)
    else if has_domain id ds
    then (none, delete_row id ds)
    else (some (concat "托管域名不存在：" id), ds)

abbrev pub is_due : ℕ → ManagedDomain → Bool
is_due now d = d.enabled && leb d.next_reconcile_unix now

-- Earlier due first, then the older row.
abbrev pub due_before : ManagedDomain → ManagedDomain → Bool
due_before d e =
    ltb d.next_reconcile_unix e.next_reconcile_unix
    || d.next_reconcile_unix == e.next_reconcile_unix && ltb d.created_at_unix e.created_at_unix

unfoldable pub insert_due : ManagedDomain → List ManagedDomain → List ManagedDomain
insert_due d [] = d ∷ []
insert_due d (e ∷ es) =
    let rest = insert_due d es in if due_before e d then e ∷ rest else d ∷ e ∷ es

unfoldable pub sort_due : List ManagedDomain → List ManagedDomain
sort_due [] = []
sort_due (d ∷ ds) = insert_due d (sort_due ds)

-- A limit that is not positive counts as 0.
unfoldable pub list_managed_domains_due : ℕ → ℕ → List ManagedDomain → List ManagedDomain
list_managed_domains_due now limit ds =
    take (if limit == 0 || ltb 500 limit then 100 else limit) (sort_due (filter (is_due now) ds))

-- The provider's records and references to them.
pub record DnsRecord : Type 0 where
  pub id : String
  pub name : String
  pub type : RecordType
  pub value : String
  pub ttl : ℕ

pub record RecordRef : Type 0 where
  pub id : String
  pub name : String
  pub type : RecordType
  pub value : String

-- A provider and all that it keeps, `S`; a call may change it, also one that fails.
pub record Provider (S : Type 0) : Type 0 where
  pub lookup : String → String → RecordType → S → Result (List DnsRecord) × S
  pub upsert : String → DnsRecord → S → Result RecordRef × S
  pub delete : String → RecordRef → S → Option String × S

-- The calls that were made, newest first, with what a lookup found.
pub data Call : Type 0 where
  looked_up : (zone name : String) (type : RecordType) → Result (List DnsRecord) → Call
  upserted : (zone : String) → DnsRecord → Call
  deleted : (zone : String) → RecordRef → Call

pub record Outside (S : Type 0) : Type 0 where
  pub provider_state : S
  pub calls : List Call

module _ {S : Type 0} (provider : Provider S) where
  unfoldable pub call_lookup :
      String → String → RecordType → Outside S → Result (List DnsRecord) × Outside S
  call_lookup zone name type w =
      let (r, s) = provider.lookup zone name type w.provider_state in
      (r, record { provider_state = s; calls = looked_up zone name type r ∷ w.calls })

  unfoldable pub call_upsert : String → DnsRecord → Outside S → Result RecordRef × Outside S
  call_upsert zone entry w =
      let (r, s) = provider.upsert zone entry w.provider_state in
      (r, record { provider_state = s; calls = upserted zone entry ∷ w.calls })

  unfoldable pub call_delete : String → RecordRef → Outside S → Option String × Outside S
  call_delete zone ref w =
      let (r, s) = provider.delete zone ref w.provider_state in
      (r, record { provider_state = s; calls = deleted zone ref ∷ w.calls })
