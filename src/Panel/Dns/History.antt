-- ===== src/Panel/Dns/History.antt =====
-- The operator's requests among the reconciliations and cleanups, and the records at the providers
-- over all of them in any order.
use ladder_airport.Panel.Dns.Owners.{reconcile-safe}
use ladder_airport.Panel.Dns.Cleaned.{cleanup-safe}
use ladder_airport.Panel.Dns.Service.{Service, Tables, reconcile, cleanup}
use ladder_airport.Base.{Result, String, ◌≡◌, refl, Bool, true, false, []}
use ladder_airport.Panel.Dns.{RecordType, same_type, cname_record}
use ladder_airport.Panel.Dns.Ownership.{is_careful}
use ladder_airport.Panel.Dns.Runs.{IsTableSafe}
use ladder_airport.Panel.Dns.Edit.{
  DomainRequest, Server, handle_create_managed_domain, handle_update_managed_domain,
  handle_delete_managed_domain,
}
use ladder_airport.Panel.Dns.Requests.{create-rows, update-rows, delete-rows}

-- One step: a reconciliation or a cleanup of a domain, a request of the operator, or a change that
-- others make at a provider. All have the same names for records.
pub data Step {S : Type 0} (relative_name : String → String → Result String) (t : Tables S)
    : Tables S → Type 0 where
  reconciles :
      (s : Service S) (id : String)
      → s.network.relative_name ≡ relative_name
      → Step relative_name t (reconcile s id t).1
  cleans :
      (s : Service S) (id : String)
      → s.network.relative_name ≡ relative_name
      → Step relative_name t (cleanup s id t).1
  creates :
      (s : Server) (request : DomainRequest)
      → Step relative_name t
          (record t { domains = (handle_create_managed_domain s request t.domains).1 })
  updates :
      (s : Server) (id : String) (request : DomainRequest)
      → Step relative_name t
          (record t { domains = (handle_update_managed_domain s id request t.domains).1 })
  deletes :
      (s : Server) (id : String) (records : Bool)
      → Step relative_name t
          (record t { domains = (handle_delete_managed_domain s id records t.domains).1 })
  drifts :
      (provider_state : S)
      → Step relative_name t
          (record t { outside = record (t.outside) { provider_state = provider_state } })

pub data Steps {S : Type 0} (relative_name : String → String → Result String)
    : Tables S → Tables S → Type 0 where
  stays : (t : Tables S) → Steps relative_name t t
  goes_on :
      (t t' t'' : Tables S)
      → Steps relative_name t t'
      → Step relative_name t' t''
      → Steps relative_name t t''

module _ {S : Type 0} (type : RecordType) (relative_name : String → String → Result String)
    (plain : same_type type cname_record ≡ false) where
  step-safe :
      (t t' : Tables S)
      → Step relative_name t t'
      → IsTableSafe type relative_name t
      → IsTableSafe type relative_name t'
  step-safe t _ (reconciles s id names) safe = reconcile-safe type relative_name s names id t safe
  step-safe t _ (cleans s id names) safe = cleanup-safe type relative_name s names id t safe
  step-safe t _ (creates s request) (rows, careful) =
      (create-rows type relative_name plain s t.outside.calls t.domains rows request, careful)
  step-safe t _ (updates s id request) (rows, careful) =
      (update-rows type relative_name plain s t.outside.calls t.domains rows id request, careful)
  step-safe t _ (deletes s id records) (rows, careful) =
      (delete-rows type relative_name plain s t.outside.calls t.domains rows id records, careful)
  step-safe t _ (drifts provider_state) safe = safe

  steps-safe :
      (t t' : Tables S)
      → Steps relative_name t t'
      → IsTableSafe type relative_name t
      → IsTableSafe type relative_name t'
  steps-safe t _ (stays _) safe = safe
  steps-safe t t'' (goes_on _ t' _ ss s) safe = step-safe t' t'' s (steps-safe t t' ss safe)

-- From no domain and no call on, over reconciliations and cleanups with any faults of any provider,
-- the operator's requests and changes of others at the providers, in any order: each A or AAAA record
-- that is deleted stands where an earlier lookup of its zone, name and type found no record.
pub run-IsCareful :
    {S : Type 0} (type : RecordType) (relative_name : String → String → Result String)
    (provider_state : S) (t : Tables S)
    → same_type type cname_record ≡ false
    → Steps relative_name
        (record { domains = []; outside = record { provider_state = provider_state; calls = [] } })
        t
    → is_careful type t.outside.calls ≡ true
unfolding is_careful
run-IsCareful type relative_name provider_state t plain ss =
    (steps-safe type relative_name plain
      (record { domains = []; outside = record { provider_state = provider_state; calls = [] } }) t
      ss (tt, refl)).1
