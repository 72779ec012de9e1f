-- ===== src/Panel/Automation/Answers.antt =====
-- What the services of the runner answer, and what a job's row and its audit entry make of it.
use Prim.Native.String.{◌++◌ as concat}
use ladder_airport.Base.{
  ◌==◌, if◌then◌else◌, Bool-cases, Option-cases, ℕ, ◌+◌, ◌*◌, ◌<◌, String, ◌≡◌, refl, subst, ◌⊎◌,
  inl, inr, true, false, ◌||◌, Option, none, some, List, [], ◌∷◌, arith, str_eq, str_eq_iff,
}
use ladder_airport.Panel.Automation.Table.{Job, second, unix, retry_wait, success, failed}
use ladder_airport.Panel.Automation.Runner.{
  DnsService, CertificateService, Runner, Audit, job_retry_delay, dispatch, is_retried, verdict,
  audit_of, add_automation_audit,
}
use ladder_airport.Panel.Automation.{finish_row}

-- What the service of a job's type answers, an error or none.
pub data IsAnswer (r : Runner) (job : Job) : Option String → Type 0 where
  dns_reconciled :
      (dns : DnsService)
      → job.type ≡ "dns.reconcile"
      → r.dns ≡ some dns
      → IsAnswer r job (dns.reconcile job.target_id)
  dns_cleaned :
      (dns : DnsService)
      → job.type ≡ "dns.cleanup"
      → r.dns ≡ some dns
      → IsAnswer r job (dns.cleanup job.target_id)
  certificate_issued :
      (certificates : CertificateService)
      → job.type ≡ "certificate.issue"
      → r.certificates ≡ some certificates
      → IsAnswer r job (certificates.issue job.target_id)
  no_dns :
      (job.type ≡ "dns.reconcile") ⊎ (job.type ≡ "dns.cleanup")
      → r.dns ≡ none
      → IsAnswer r job (some "DNS 自动化服务不可用")
  no_certificates :
      job.type ≡ "certificate.issue" → r.certificates ≡ none → IsAnswer r job (some "证书自动化服务不可用")
  unsupported :
      str_eq job.type "dns.reconcile" ≡ false
      → str_eq job.type "dns.cleanup" ≡ false
      → str_eq job.type "certificate.issue" ≡ false
      → IsAnswer r job (some (concat "不支持的自动化任务类型：" job.type))

-- The minutes between an attempt and the next: 1, 5, 15, 60, and then six hours.
pub IsRetryMinutes : ℕ → ℕ → Type 0
IsRetryMinutes attempt m =
    (attempt ≡ 1 → m ≡ 1)
    × (attempt ≡ 2 → m ≡ 5)
    × (attempt ≡ 3 → m ≡ 15)
    × (attempt ≡ 4 → m ≡ 60)
    × ((attempt ≡ 0) ⊎ (4 < attempt) → m ≡ 360)

-- The row of a job that ended with an answer: it succeeded; or its type has a service and it is tried
-- again after the time of its attempt; or it failed for good.
pub data IsEnded (started : ℕ) (job : Job) (answer : Option String) (x : Job) : Type 0 where
  succeeded :
      answer ≡ none
      → x.state ≡ success
      → x.next_run_unix ≡ 0
      → x.last_error ≡ ""
      → IsEnded started job answer x
  tried_again :
      (e : String) (m : ℕ)
      → answer ≡ some e
      → (str_eq job.type "dns.reconcile"
          || str_eq job.type "dns.cleanup"
          || str_eq job.type "certificate.issue")
        ≡ true
      → IsRetryMinutes job.attempt m
      → x.state ≡ retry_wait
      → x.next_run_unix ≡ unix (started + m * (60 * second))
      → x.last_error ≡ e
      → IsEnded started job answer x
  failed_for_good :
      (e : String)
      → answer ≡ some e
      → (str_eq job.type "dns.reconcile"
          || str_eq job.type "dns.cleanup"
          || str_eq job.type "certificate.issue")
        ≡ false
      → x.state ≡ failed
      → x.next_run_unix ≡ 0
      → x.last_error ≡ e
      → IsEnded started job answer x

-- The audit entries of a job that ended: one with the answer, or none for a job without a type.
abbrev pub entry_of : Runner → Job → String → String → List Audit
entry_of r job outcome detail =
    if str_eq job.type ""
    then []
    else record {
      action = job.type;
      target_type = job.target_type;
      target_id = job.target_id;
      actor = r.owner;
      outcome = outcome;
      detail = detail;
    }
      ∷ []

pub entries_of : Runner → Job → Option String → List Audit
entries_of r job none = entry_of r job "成功" ""
entries_of r job (some e) = entry_of r job "失败" e

pub dispatch-IsAnswer : (r : Runner) (job : Job) → IsAnswer r job (dispatch r job)
dispatch-IsAnswer r job = elim (Bool-cases (str_eq job.type "dns.reconcile")) [
  | inl one ↦ elim (Option-cases r.dns) [
    | inl off ↦
        let same : some "DNS 自动化服务不可用" ≡ dispatch r job =
          unfold dispatch in (ground (arith, one, off)) in
        subst (IsAnswer r job) same (no_dns (inl ((str_eq_iff job.type "dns.reconcile").0 one)) off)
    | inr (dns, on) ↦
        let same : dns.reconcile job.target_id ≡ dispatch r job =
          unfold dispatch in (ground (arith, one, on)) in
        subst (IsAnswer r job) same
          (dns_reconciled dns ((str_eq_iff job.type "dns.reconcile").0 one) on)
  ]
  | inr not_one ↦ elim (Bool-cases (str_eq job.type "dns.cleanup")) [
    | inl two ↦ elim (Option-cases r.dns) [
      | inl off ↦
          let same : some "DNS 自动化服务不可用" ≡ dispatch r job =
            unfold dispatch in (ground (arith, not_one, two, off)) in
          subst (IsAnswer r job) same (no_dns (inr ((str_eq_iff job.type "dns.cleanup").0 two)) off)
      | inr (dns, on) ↦
          let same : dns.cleanup job.target_id ≡ dispatch r job =
            unfold dispatch in (ground (arith, not_one, two, on)) in
          subst (IsAnswer r job) same
            (dns_cleaned dns ((str_eq_iff job.type "dns.cleanup").0 two) on)
    ]
    | inr not_two ↦ elim (Bool-cases (str_eq job.type "certificate.issue")) [
      | inl three ↦ elim (Option-cases r.certificates) [
        | inl off ↦
            let same : some "证书自动化服务不可用" ≡ dispatch r job =
              unfold dispatch in (ground (arith, not_one, not_two, three, off)) in
            subst (IsAnswer r job) same
              (no_certificates ((str_eq_iff job.type "certificate.issue").0 three) off)
        | inr (certificates, on) ↦
            let same : certificates.issue job.target_id ≡ dispatch r job =
              unfold dispatch in (ground (arith, not_one, not_two, three, on)) in
            subst (IsAnswer r job) same (
              certificate_issued certificates ((str_eq_iff job.type "certificate.issue").0 three)
                on)
      ]
      | inr not_three ↦
          let same : some (concat "不支持的自动化任务类型：" job.type) ≡ dispatch r job =
            unfold dispatch in (ground (arith, not_one, not_two, not_three)) in
          subst (IsAnswer r job) same (unsupported not_one not_two not_three)
    ]
  ]
]

retry_minutes :
    (attempt : ℕ)
    → (m : ℕ) × IsRetryMinutes attempt m × (job_retry_delay attempt ≡ m * (60 * second))
unfolding IsRetryMinutes job_retry_delay
retry_minutes attempt = (
  (if attempt == 1
      then 1
      else if attempt == 2
      then 5
      else if attempt == 3
      then 15
      else if attempt == 4
      then 60
      else 360),
  (ground arith, ground arith, ground arith, ground arith, ground arith),
  ground arith,
)

-- The row that `finish` leaves for the verdict on an answer.
unfoldable pub ended_row : ℕ → Job → Option String → ℕ → Job → Job
ended_row started job answer now x =
    let v = verdict started job answer in finish_row v.state v.message v.next_run_unix now x

pub ended_row-IsEnded :
    (started : ℕ) (job : Job) (answer : Option String) (now : ℕ) (x : Job)
    → IsEnded started job answer (ended_row started job answer now x)
unfolding ended_row finish_row verdict is_retried
ended_row-IsEnded started job none now x = succeeded refl refl refl refl
ended_row-IsEnded started job (some e) now x = elim (Bool-cases (is_retried job)) [
  | inl again ↦
      let (m, minutes, delay) = retry_minutes job.attempt in
      tried_again e m refl again minutes (rw again refl) (rw (again, delay) refl) (rw again refl)
  | inr never ↦ failed_for_good e refl never (rw never refl) (rw never refl) (rw never refl)
]

pub audit-entries :
    (r : Runner) (started : ℕ) (job : Job) (answer : Option String)
    → add_automation_audit (audit_of r job (verdict started job answer)) ≡ entries_of r job answer
unfolding add_automation_audit verdict entries_of
audit-entries r started job none = refl
audit-entries r started job (some e) = ground arith
