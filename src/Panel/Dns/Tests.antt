-- ===== src/Panel/Dns/Tests.antt =====
-- A provider in memory, a node and a domain, and the theorems on them.
use Prim.Native.String.{◌++◌ as concat}
use ladder_airport.Base.{
  if◌then◌else◌, filter, err, ok, String, ◌≡◌, refl, ◌≢◌, Bool, true, false, not, ◌&&◌, Option,
  none, some, List, [], ◌∷◌, str_eq,
}
use ladder_airport.Panel.Dns.{
  RecordType, same_type, ManagedDomain, DnsAccount, get_dns_account, validate_managed_domain_zone,
  get_managed_domain, has_domain, write_domain, is_taken, update_managed_domain, DnsRecord,
  Provider, Call, Outside, call_lookup, call_upsert, call_delete, a_record, a, manual, agent_public,
  ready, deleted,
}
use ladder_airport.Panel.Dns.Desired.{
  Address, public_address, trim_left, trim_right, trim, Node, Network, Wanted, validate_family,
  validate_one, validate_desired, node_address_desired, probe_agent_public, probed_desired,
  desired_addresses,
}
use ladder_airport.Panel.Dns.Record.{
  insert_value, sort_values, compact, record_values, verify_record, write_record, reconcile_record,
  cleanup_disabled_record,
}
use ladder_airport.Panel.Dns.Converge.{clean_target, reconcile_target, reconcile_mode, converge}
use ladder_airport.Panel.Dns.Service.{
  Service, Tables, after_success, provider_for_domain, reconcile_domain, is_paused, run_reconcile,
  reconcile, cleanup_target, cleanup_records, cleanup,
}
use ladder_airport.Panel.Dns.Edit.{
  DomainRequest, Server, chosen_name, settle, valid_address_family, manual_values, set_modes,
  set_ttl, set_values, blank_domain, build_managed_domain, create_managed_domain,
  handle_create_managed_domain,
}
use ladder_airport.Panel.Dns.Ownership.{is_careful}
use ladder_airport.Panel.Dns.Public.{IsPublic, desired_addresses-IsPublic}
use ladder_airport.Panel.Dns.History.{run-IsCareful, reconciles, cleans, creates, stays, goes_on}
use ladder_airport.Panel.Dns.Reconciled.{IsReconciled, reconcile-IsReconciled}
use ladder_airport.Panel.Dns.Schedule.{IsDueAgain, reconcile-IsDueAgain}

abbrev is_at : String → RecordType → DnsRecord → Bool
is_at name type r = str_eq r.name name && same_type r.type type

abbrev memory : Provider (List DnsRecord)
memory = record {
  lookup = λ zone name type s. (ok (filter (is_at name type) s), s);
  upsert = λ zone r s. (
    ok (record { id = "r"; name = r.name; type = r.type; value = r.value }),
    record r { id = "r" } ∷ filter (λ x. not (is_at r.name r.type x)) s,
  );
  delete = λ zone ref s. (none, filter (λ x. not (is_at ref.name ref.type x)) s);
}

abbrev address_of : String → Option Address
address_of text =
    if str_eq text "8.8.8.8"
    then some (record { is_four = true; bits = 134744072; text = "8.8.8.8" })
    else none

abbrev tokyo : Node
tokyo = record {
  id = "n";
  address = " 8.8.8.8";
  is_uplink = false;
  token = "";
  ddns_enabled = true;
}

abbrev network : Network
network = record {
  parse_addr = address_of;
  normalize_fqdn = ok;
  relative_name = λ fqdn zone. ok "www";
  get_node = λ id. ok tokyo;
  default_token = "token";
  uplink_client = λ id. none;
  dial_agent = some (λ node token. err "no agent");
}

abbrev account : DnsAccount
account = record {
  id = "acc";
  provider = "memory";
  zone = "example.org";
  credentials_ciphertext = "";
  enabled = true;
}

abbrev service : Service (List DnsRecord)
service = record {
  now = 1000;
  network = network;
  accounts = account ∷ [];
  decrypt_credentials = λ x. ok [];
  open_provider = λ x credentials. ok memory;
  redact = λ credentials e. e;
  tls_usage = λ id. (0, 0);
}

abbrev domain : ManagedDomain
domain = record (blank_domain "d") {
  node_id = "n";
  dns_account_id = "acc";
  zone = "example.org";
  fqdn = "www.example.org";
  address_source = agent_public;
}

abbrev empty : Outside (List DnsRecord)
empty = record { provider_state = []; calls = [] }

abbrev tables : Tables (List DnsRecord)
tables = record { domains = domain ∷ []; outside = empty }

is_paused_test : is_paused service domain ≡ ok false
unfolding is_paused
is_paused_test = refl

found_test : get_managed_domain "d" tables.domains ≡ ok domain
unfolding get_managed_domain
found_test = refl

fine_test : (reconcile service "d" tables).0 ≡ none
unfolding reconcile is_paused run_reconcile reconcile_domain provider_for_domain get_dns_account
    desired_addresses probed_desired probe_agent_public node_address_desired validate_desired
    validate_one validate_family public_address trim trim_left trim_right converge clean_target
    reconcile_target reconcile_mode reconcile_record write_record verify_record record_values
    sort_values insert_value compact cleanup_disabled_record call_lookup call_upsert call_delete
    after_success update_managed_domain validate_managed_domain_zone is_taken has_domain
    write_domain get_managed_domain
fine_test = refl

reconcile-IsReconciled_example :
    (d' : ManagedDomain) × (get_managed_domain "d" (reconcile service "d" tables).1.domains ≡ ok d')
    × (d'.state ≡ ready)
    × IsReconciled service domain d' (reconcile service "d" tables).1.outside
reconcile-IsReconciled_example =
    reconcile-IsReconciled service "d" domain tables found_test refl is_paused_test fine_test

reconcile-IsDueAgain_example :
    IsDueAgain service domain "d" tables.domains (reconcile service "d" tables).1.domains
reconcile-IsDueAgain_example = reconcile-IsDueAgain service domain "d" tables found_test refl

abbrev fallback : Wanted
fallback = record {
  ipv4 = "8.8.8.8";
  ipv6 = "";
  cname_target = "";
  note = "Agent 公网探测失败（连接 Agent 获取公网地址失败：no agent），已回退使用节点控制地址";
}

wanted_test : desired_addresses network domain ≡ ok fallback
unfolding desired_addresses probed_desired probe_agent_public node_address_desired validate_desired
    validate_one validate_family public_address trim trim_left trim_right
wanted_test = refl

source-ne-manual : domain.address_source ≢ manual
source-ne-manual e = cc

desired_addresses-IsPublic_example : IsPublic network.parse_addr a ("8.8.8.8", "")
desired_addresses-IsPublic_example =
    desired_addresses-IsPublic network domain fallback source-ne-manual wanted_test

abbrev server : Server
server = record {
  now = 900;
  new_id = "d";
  accounts = account ∷ [];
  get_node = λ id. ok tokyo;
  managed_fqdn = λ name zone. ok (concat name (concat "." zone));
  normalize_fqdn = ok;
  relative_name = network.relative_name;
  parse_addr = address_of;
  tls_usage = λ id. (0, 0);
}

abbrev request : DomainRequest
request = record {
  node_id = "n";
  dns_account_id = "acc";
  fqdn = "www";
  zone = "";
  record_mode = none;
  address_source = some agent_public;
  manual_ipv4 = "";
  manual_ipv6 = "";
  manual_cname = "";
  ttl = 0;
  enabled = none;
}

-- The operator creates a domain, it is reconciled, and it is cleaned up.
abbrev created : Tables (List DnsRecord)
created = record { domains = (handle_create_managed_domain server request []).1; outside = empty }

run-IsCareful_example :
    is_careful a_record (cleanup service "d" (reconcile service "d" created).1).1.outside.calls
    ≡ true
run-IsCareful_example =
    run-IsCareful a_record network.relative_name []
      (cleanup service "d" (reconcile service "d" created).1).1 refl
      (goes_on (record { domains = []; outside = empty }) (reconcile service "d" created).1
        (cleanup service "d" (reconcile service "d" created).1).1
        (goes_on (record { domains = []; outside = empty }) created
          (reconcile service "d" created).1
          (goes_on (record { domains = []; outside = empty })
            (record { domains = []; outside = empty }) created
            (stays (record { domains = []; outside = empty })) (creates server request))
          (reconciles service "d" refl))
        (cleans service "d" refl))

abbrev deletes_last : List Call → Bool
deletes_last [] = false
deletes_last (deleted _ _ ∷ cs) = true
deletes_last (_ ∷ cs) = false

-- The cleanup has deleted the record that the reconciliation made.
cleanup_test :
    deletes_last (cleanup service "d" (reconcile service "d" created).1).1.outside.calls ≡ true
unfolding reconcile is_paused run_reconcile reconcile_domain provider_for_domain get_dns_account
    desired_addresses probed_desired probe_agent_public node_address_desired validate_desired
    validate_one validate_family public_address trim trim_left trim_right converge clean_target
    reconcile_target reconcile_mode reconcile_record write_record verify_record record_values
    sort_values insert_value compact cleanup_disabled_record call_lookup call_upsert call_delete
    after_success update_managed_domain validate_managed_domain_zone is_taken has_domain
    write_domain get_managed_domain handle_create_managed_domain create_managed_domain
    build_managed_domain set_values set_ttl manual_values set_modes settle chosen_name cleanup
    cleanup_records cleanup_target valid_address_family
cleanup_test = refl
