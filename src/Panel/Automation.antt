-- ===== src/Panel/Automation.antt =====
-- The persistent job queue of panel/internal/store/automation.go. An operation that fails leaves the
-- table as it was, since its transaction is rolled back. Faults of the database are not modelled.
pub mod Table
pub mod Sound
pub mod Enqueue
pub mod OneActive
pub mod Queued
pub mod Leases
pub mod Claims
pub mod Fencing
pub mod Runner
pub mod Heartbeat
pub mod Answers
pub mod Outcome
pub mod Pass
pub mod Distinct
pub mod Executed
pub mod Interleave
mod Tests
use Prim.Native.String.{◌++◌ as concat}
use ladder_airport.Base.{
  ltb, leb, ◌==◌, if◌then◌else◌, take, any, filter, Result, ◌>>=◌, ok, err, ℕ, ◌+◌, ◌*◌, String,
  Bool, true, false, ◌&&◌, ◌||◌, Option, none, some, List, [], ◌∷◌, ◌++◌, str_eq,
}
use ladder_airport.Panel.Automation.Table.{
  JobState, Job, second, unix, is_active, is_running, is_waiting, active_for, has_id, unique_failed,
  update, unset, pending, running, retry_wait, success, failed, cancelled, other,
}

-- ORDER BY created_at_unix DESC LIMIT 1
unfoldable pub newest : List Job → Option Job
newest [] = none
newest (j ∷ js) = elim (newest js) [
  | none ↦ some j
  | some k ↦ if ltb j.created_at_unix k.created_at_unix then some k else some j
]

unfoldable pub find_active : Job → List Job → Option Job
find_active job rows = newest (filter (active_for job) rows)

unfoldable pub lacks_target : Job → Bool
lacks_target job = str_eq job.type "" || str_eq job.target_type "" || str_eq job.target_id ""

abbrev or_pending : JobState → JobState
or_pending unset = pending
or_pending s = s

-- The fields that `insertAutomationJob` fills in; `fresh` is the value of `newID()`.
unfoldable pub stamp : ℕ → String → Job → Job
stamp now fresh job = record job {
  id = if str_eq job.id "" then fresh else job.id;
  state = or_pending job.state;
  next_run_unix = if job.next_run_unix == 0 then now else job.next_run_unix;
  created_at_unix = now;
  updated_at_unix = now;
}

unfoldable pub insert_job : ℕ → String → Job → List Job → Result (Job × List Job)
insert_job now fresh job rows =
    let row = stamp now fresh job in
    if any (has_id row.id) rows || is_active row.state && any (active_for row) rows
    then err (concat "创建自动化任务失败：" unique_failed)
    else ok (row, rows ++ row ∷ [])

abbrev pub no_target : String
no_target = "必须提供任务类型和目标"

unfoldable pub enqueue : ℕ → String → Job → List Job → Result (Job × List Job)
enqueue now fresh job rows =
    if lacks_target job then err no_target else elim (find_active job rows) [
      | some existing ↦ ok (existing, rows)
      | none ↦ insert_job now fresh job rows
    ]

-- The fields that a forced retry resets before it is inserted.
unfoldable pub reset : ℕ → Job → Job
reset now job = record job {
  id = "";
  state = pending;
  attempt = 0;
  next_run_unix = now;
  lease_owner = "";
  lease_expires_unix = 0;
  last_error = "";
}

unfoldable pub wake : ℕ → Job → Job
wake now r = record r { next_run_unix = now; last_error = ""; updated_at_unix = now }

unfoldable pub mark_failed : ℕ → Job → Job
mark_failed now r = record r {
  state = failed;
  next_run_unix = 0;
  lease_owner = "";
  lease_expires_unix = 0;
  updated_at_unix = now;
}

unfoldable pub replace_job : ℕ → String → Job → Job → List Job → Result (Job × List Job)
replace_job now fresh job existing rows =
    elim (update (has_id existing.id) (mark_failed now) rows) [
      | err e ↦ err (concat "结束旧自动化任务失败：" e)
      | ok changed ↦ insert_job now fresh (reset now job) changed.0
    ]

unfoldable pub wake_job : ℕ → Job → List Job → Result (Job × List Job)
wake_job now existing rows = elim (update (has_id existing.id) (wake now) rows) [
  | err e ↦ err (concat "唤醒自动化任务失败：" e)
  | ok changed ↦ ok (wake now existing, changed.0)
]

unfoldable pub force_existing : ℕ → String → Job → Job → List Job → Result (Job × List Job)
force_existing now fresh job existing rows = elim existing.state [
  | running ↦
      if ltb now existing.lease_expires_unix
      then ok (existing, rows)
      else replace_job now fresh job existing rows
  | pending ↦ wake_job now existing rows
  | _ ↦ replace_job now fresh job existing rows
]

unfoldable pub force_enqueue : ℕ → String → Job → List Job → Result (Job × List Job)
force_enqueue now fresh job rows =
    if lacks_target job then err no_target else elim (find_active job rows) [
      | some existing ↦ force_existing now fresh job existing rows
      | none ↦ insert_job now fresh (reset now job) rows
    ]

-- The WHERE clause of the claiming UPDATE, and that of the SELECT before it.
unfoldable pub claimable : ℕ → Job → Bool
claimable now r =
    is_waiting r.state && (str_eq r.lease_owner "" || leb r.lease_expires_unix now)
    || is_running r.state && leb r.lease_expires_unix now

unfoldable pub due : ℕ → Job → Bool
due now r =
    is_waiting r.state
      && leb r.next_run_unix now
      && (str_eq r.lease_owner "" || leb r.lease_expires_unix now)
    || is_running r.state && leb r.lease_expires_unix now

-- ORDER BY next_run_unix, created_at_unix
unfoldable pub runs_before : Job → Job → Bool
runs_before a b =
    ltb a.next_run_unix b.next_run_unix
    || a.next_run_unix == b.next_run_unix && leb a.created_at_unix b.created_at_unix

unfoldable pub insert_sorted : Job → List Job → List Job
insert_sorted j [] = j ∷ []
insert_sorted j (k ∷ ks) = if runs_before j k then j ∷ k ∷ ks else k ∷ insert_sorted j ks

unfoldable pub sort_due : List Job → List Job
unfolding insert_sorted runs_before
sort_due [] = []
sort_due (j ∷ js) = insert_sorted j (sort_due js)

unfoldable pub lease_to : String → ℕ → ℕ → Job → Job
lease_to owner now lease r = record r {
  state = running;
  lease_owner = owner;
  lease_expires_unix = unix (now + lease);
  attempt = r.attempt + 1;
  updated_at_unix = unix now;
}

-- The candidate as it is returned: its `updated_at_unix` is the one that was read.
unfoldable pub claimed : String → ℕ → ℕ → Job → Job
claimed owner now lease c = record c {
  state = running;
  lease_owner = owner;
  lease_expires_unix = unix (now + lease);
  attempt = c.attempt + 1;
}

-- What a candidate adds to the jobs returned: nothing, if the update affected no row.
unfoldable pub keep_claimed : Bool → Job → List Job × List Job → List Job × List Job
keep_claimed affected job (jobs, rows) = (if affected then job ∷ jobs else jobs, rows)

unfoldable pub claim_each : String → ℕ → ℕ → List Job → List Job → Result (List Job × List Job)
unfolding keep_claimed
claim_each owner now lease [] rows = ok ([], rows)
claim_each owner now lease (c ∷ cs) rows =
    update (λ r. has_id c.id r && claimable (unix now) r) (lease_to owner now lease) rows
    >>= λ changed. claim_each owner now lease cs changed.0 >>= λ rest.
        ok (keep_claimed changed.1 (claimed owner now lease c) rest)

abbrev pub claim_lease : ℕ → ℕ
claim_lease lease = if lease == 0 then 60 * second else lease

abbrev pub claim_limit : ℕ → ℕ
claim_limit limit = if limit == 0 || ltb 100 limit then 10 else limit

unfoldable pub claim : String → ℕ → ℕ → ℕ → List Job → Result (List Job × List Job)
unfolding sort_due
claim owner now lease limit rows =
    if str_eq owner ""
    then err "必须提供任务租约所有者"
    else claim_each owner now (claim_lease lease)
        (take (claim_limit limit) (sort_due (filter (due (unix now)) rows))) rows

abbrev pub is_terminal : JobState → Bool
is_terminal success = true
is_terminal failed = true
is_terminal retry_wait = true
is_terminal cancelled = true
is_terminal _ = false

unfoldable pub held_by : String → String → Job → Bool
held_by id owner r = has_id id r && str_eq r.lease_owner owner

unfoldable pub finish_row : JobState → String → ℕ → ℕ → Job → Job
finish_row state message next_run_unix now r = record r {
  state = state;
  next_run_unix = next_run_unix;
  lease_owner = "";
  lease_expires_unix = 0;
  last_error = message;
  updated_at_unix = now;
}

-- The text of a state, as the column holds it.
abbrev state_text : JobState → String
state_text unset = ""
state_text pending = "pending"
state_text running = "running"
state_text retry_wait = "retry_wait"
state_text success = "success"
state_text failed = "failed"
state_text cancelled = "cancelled"
state_text (other s) = s

abbrev pub lease_lost : String → String
lease_lost id = concat "自动化任务租约已失效：" id

unfoldable pub finish : ℕ → String → String → JobState → String → ℕ → List Job → Result (List Job)
finish now id owner state message next_run_unix rows =
    if is_terminal state
    then elim (update (held_by id owner) (finish_row state message next_run_unix now) rows) [
      | err e ↦ err (concat "完成自动化任务失败：" e)
      | ok changed ↦ if changed.1 then ok changed.0 else err (lease_lost id)
    ]
    else err (concat "自动化任务终态无效：" (state_text state))

unfoldable pub renew_row : ℕ → ℕ → Job → Job
renew_row now lease r = record r {
  lease_expires_unix = unix (now + lease);
  updated_at_unix = unix now;
}

unfoldable pub renew : String → String → ℕ → ℕ → List Job → Result (List Job)
renew id owner now lease rows =
    if lease == 0
    then err "任务租约时长必须大于零"
    else elim (update (λ r. has_id id r && is_running r.state && str_eq r.lease_owner owner)
        (renew_row now lease) rows) [
          | err e ↦ err (concat "续期自动化任务租约失败：" e)
          | ok changed ↦ if changed.1 then ok changed.0 else err (lease_lost id)
        ]

unfoldable pub find_job : String → List Job → Option Job
find_job id [] = none
find_job id (r ∷ rs) = if str_eq r.id id then some r else find_job id rs

unfoldable pub get_job : String → List Job → Result Job
unfolding find_job
get_job id rows = elim (find_job id rows) [ some job ↦ ok job | none ↦ err (concat "自动化任务不存在：" id) ]
