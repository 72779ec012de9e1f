-- ===== src/Panel/Automation/Runner.antt =====
-- The runner of panel/internal/automation/runner.go: the pass over due targets and leased jobs, with
-- the heartbeat that renews a job's lease while its service works. The services, the clock and the
-- targets that are due are parameters. `runAsync`, which runs the jobs of a pass in goroutines, is
-- not modelled.
use Prim.Native.String.{◌++◌ as concat}
use ladder_airport.Base.{
  ltb, leb, ◌==◌, if◌then◌else◌, err, ok, ℕ, ◌+◌, ◌*◌, String, Bool, true, false, ◌&&◌, ◌||◌,
  Option, none, some, List, [], ◌∷◌, ◌++◌, str_eq,
}
use ladder_airport.Panel.Automation.Table.{
  JobState, Job, second, unix, unset, retry_wait, success, failed,
}
use ladder_airport.Panel.Automation.{enqueue, claim, finish, renew}

-- `DNSService` and `CertificateService`: the error of an operation on a target, if any.
pub record DnsService : Type 0 where
  pub reconcile : String → Option String
  pub cleanup : String → Option String

pub record CertificateService : Type 0 where
  pub issue : String → Option String

pub record Runner : Type 0 where
  pub dns : Option DnsService
  pub certificates : Option CertificateService
  pub owner : String
  pub lease : ℕ
  pub batch_size : ℕ

pub record Audit : Type 0 where
  pub action : String
  pub target_type : String
  pub target_id : String
  pub actor : String
  pub outcome : String
  pub detail : String

abbrev minute : ℕ
minute = 60 * second

abbrev pub runner_lease : Runner → ℕ
runner_lease r = if r.lease == 0 then 2 * minute else r.lease

abbrev pub runner_batch : Runner → ℕ
runner_batch r = if ltb 0 r.batch_size && leb r.batch_size 100 then r.batch_size else 10

unfoldable pub job_retry_delay : ℕ → ℕ
job_retry_delay attempt =
    if attempt == 1
    then minute
    else if attempt == 2
    then 5 * minute
    else if attempt == 3
    then 15 * minute
    else if attempt == 4
    then 60 * minute
    else 6 * (60 * minute)

abbrev dns_unavailable : String
dns_unavailable = "DNS 自动化服务不可用"

-- The error of a job's service, `none` when it succeeded.
unfoldable pub dispatch : Runner → Job → Option String
dispatch r job =
    if str_eq job.type "dns.reconcile"
    then elim r.dns [ none ↦ some dns_unavailable | some dns ↦ dns.reconcile job.target_id ]
    else if str_eq job.type "dns.cleanup"
    then elim r.dns [ none ↦ some dns_unavailable | some dns ↦ dns.cleanup job.target_id ]
    else if str_eq job.type "certificate.issue"
    then elim r.certificates [
      | none ↦ some "证书自动化服务不可用"
      | some certificates ↦ certificates.issue job.target_id
    ]
    else some (concat "不支持的自动化任务类型：" job.type)

unfoldable pub is_retried : Job → Bool
is_retried job =
    str_eq job.type "dns.reconcile"
    || str_eq job.type "dns.cleanup"
    || str_eq job.type "certificate.issue"

-- The terminal state, next run and message that the outcome of a job asks for.
pub record Verdict : Type 0 where
  pub state : JobState
  pub next_run_unix : ℕ
  pub message : String

unfoldable pub verdict : ℕ → Job → Option String → Verdict
verdict started job none = record { state = success; next_run_unix = 0; message = "" }
verdict started job (some message) =
    if is_retried job
    then record {
      state = retry_wait;
      next_run_unix = unix (started + job_retry_delay job.attempt);
      message = message;
    }
    else record { state = failed; next_run_unix = 0; message = message }

-- The heartbeat: a renewal at each tick, up to the first that fails.
unfoldable pub heartbeat : Runner → String → List ℕ → List Job → List Job
heartbeat r id [] rows = rows
heartbeat r id (t ∷ ts) rows = elim (renew id r.owner t (runner_lease r) rows) [
  | ok rows' ↦ heartbeat r id ts rows'
  | err _ ↦ rows
]

abbrev pub is_success : JobState → Bool
is_success success = true
is_success _ = false

abbrev pub audit_of : Runner → Job → Verdict → Audit
audit_of r job v = record {
  action = job.type;
  target_type = job.target_type;
  target_id = job.target_id;
  actor = r.owner;
  outcome = if is_success v.state then "成功" else "失败";
  detail = v.message;
}

-- AddAutomationAudit: an entry without an action is refused, and `execute` ignores that.
unfoldable pub add_automation_audit : Audit → List Audit
add_automation_audit log = if str_eq log.action "" then [] else log ∷ []

-- One job: its heartbeat ticks while the service works, then the outcome is stored, and audited only
-- if the lease was still held. `now` is the clock when the job finishes.
unfoldable pub execute : Runner → ℕ → List ℕ → ℕ → Job → List Job → List Job × List Audit
execute r started ticks now job rows =
    let rows' = heartbeat r job.id ticks rows in
    let v = verdict started job (dispatch r job) in
    elim (finish (unix now) job.id r.owner v.state v.message v.next_run_unix rows') [
      | ok done ↦ (done, add_automation_audit (audit_of r job v))
      | err _ ↦ (rows', [])
    ]

-- A job of the given type for each target that is due; an enqueue that fails is only logged.
unfoldable pub enqueue_due : String → String → ℕ → List (String × String) → List Job → List Job
enqueue_due type target_type now [] rows = rows
enqueue_due type target_type now ((target_id, fresh) ∷ rest) rows =
    let job : Job = record {
      id = "";
      type = type;
      target_type = target_type;
      target_id = target_id;
      state = unset;
      payload = "";
      attempt = 0;
      next_run_unix = unix now;
      lease_owner = "";
      lease_expires_unix = 0;
      last_error = "";
      created_at_unix = 0;
      updated_at_unix = 0;
    } in
    elim (enqueue (unix now) fresh job rows) [
      | ok r ↦ enqueue_due type target_type now rest r.1
      | err _ ↦ enqueue_due type target_type now rest rows
    ]

-- The jobs of a pass, one after the other, up to the one at which the context is cancelled; each has
-- its own clock readings.
unfoldable pub execute_all :
    Runner
    → (String → Bool)
    → (String → ℕ × List ℕ × ℕ)
    → List Job
    → List Job
    → List Job × List Audit
execute_all r cancelled_at clock [] rows = (rows, [])
execute_all r cancelled_at clock (job ∷ jobs) rows =
    let (started, ticks, now) = clock job.id in
    let (rows', audits) = execute r started ticks now job rows in
    let (rows'', more) = execute_all r cancelled_at clock jobs rows' in
    if cancelled_at job.id then (rows, []) else (rows'', audits ++ more)

unfoldable pub run_once :
    Runner
    → ℕ
    → (String → Bool)
    → (String → ℕ × List ℕ × ℕ)
    → List (String × String)
    → List (String × String)
    → List Job
    → List Job × List Audit
run_once r now cancelled_at clock domains certificates rows =
    let queued =
      enqueue_due "certificate.issue" "protocol_certificate" now certificates
        (enqueue_due "dns.reconcile" "managed_domain" now domains rows) in
    elim (claim r.owner now (runner_lease r) (runner_batch r) queued) [
      | ok claimed_jobs ↦ execute_all r cancelled_at clock claimed_jobs.0 claimed_jobs.1
      | err _ ↦ (queued, [])
    ]
