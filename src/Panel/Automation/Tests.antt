-- ===== src/Panel/Automation/Tests.antt =====
-- Runs of the job queue, and the theorems at concrete tables.
use ladder_airport.Panel.Automation.Interleave.{
  new_job, Call, step, run_calls, run_calls-IsSound, enqueues, forces, claims, finishes,
  enqueues_new, forces_any, claims_any, finishes_named,
}
use ladder_airport.Panel.Automation.Table.{
  JobState, Job, second, same_target, active_for, unique_active, has_id, update_rows, update, unset,
  pending, running, retry_wait, success,
}
use ladder_airport.Panel.Automation.Sound.{unique_ids, IsSound}
use ladder_airport.Panel.Automation.OneActive.{IsQueued, IsNew}
use ladder_airport.Panel.Automation.Queued.{enqueue-IsQueued, IsRetried, force_enqueue-IsQueued}
use ladder_airport.Panel.Automation.Leases.{finish_iff}
use ladder_airport.Panel.Automation.Claims.{Claims}
use ladder_airport.Panel.Automation.Fencing.{claim-Claims, claim_fences}
use ladder_airport.Panel.Automation.Runner.{
  Runner, Audit, runner_lease, runner_batch, dispatch, is_retried, verdict, heartbeat,
  add_automation_audit, execute, enqueue_due, execute_all, run_once,
}
use ladder_airport.Panel.Automation.Executed.{until, IsWorked, run_once-IsWorked}
use ladder_airport.Panel.Automation.Answers.{IsAnswer, IsEnded, entries_of}
use ladder_airport.Panel.Automation.Outcome.{execute_lem}
use ladder_airport.Panel.Automation.{
  newest, find_active, lacks_target, stamp, insert_job, enqueue, reset, wake, mark_failed,
  replace_job, wake_job, force_existing, force_enqueue, claimable, due, sort_due, lease_to, claimed,
  keep_claimed, claim_each, claim_lease, claim_limit, claim, held_by, finish_row, lease_lost,
  finish, renew_row, renew, get_job,
}
use ladder_airport.Base.{
  length, any, IsIn, here, Result, err, ok, ℕ, ◌*◌, ◌≤◌, String, ◌≡◌, refl, ◌≢◌, Bool, true, false,
  Option, none, some, List, [], ◌∷◌, map, arith, str_eq, str_eq_iff,
}

abbrev job_of : String → String → JobState → String → ℕ → Job
job_of id target state owner expires = record {
  id = id;
  type = "dns.reconcile";
  target_type = "managed_domain";
  target_id = target;
  state = state;
  payload = "{}";
  attempt = 1;
  next_run_unix = 50;
  lease_owner = owner;
  lease_expires_unix = expires;
  last_error = "";
  created_at_unix = 40;
  updated_at_unix = 40;
}

-- One job is leased to `w1` until 100, another waits for a retry.
abbrev table : List Job
table = job_of "j1" "d1" running "w1" 100 ∷ job_of "j2" "d2" retry_wait "" 0 ∷ []

abbrev asked : String → Job
asked target = record (job_of "" target unset "" 0) { attempt = 0; next_run_unix = 0 }

runs : Unit {0}
unfolding step run_calls new_job enqueue force_enqueue force_existing find_active newest active_for
    same_target insert_job stamp reset unique_active update update_rows has_id lacks_target
    replace_job wake_job mark_failed wake claim claim_each claimable due lease_to claimed
    keep_claimed finish finish_row held_by renew renew_row unique_ids sort_due get_job
runs = tt

abbrev state_of : Result (Job × List Job) → Option (String × ℕ)
state_of (ok (j, rows)) = some (j.id, length rows)
state_of (err e) = none

enqueue_runs :
    (state_of (enqueue 60 "n" (asked "d1") table) ≡ some ("j1", 2))
    × (state_of (enqueue 60 "n" (asked "d3") table) ≡ some ("n", 3))
    × (state_of (force_enqueue 60 "n" (asked "d1") table) ≡ some ("j1", 2))
    × (state_of (force_enqueue 100 "n" (asked "d1") table) ≡ some ("n", 3))
    × (state_of (force_enqueue 60 "n" (asked "d2") table) ≡ some ("n", 3))
unfolding runs
enqueue_runs = (refl, refl, refl, refl, refl)

abbrev claimed_ids : Result (List Job × List Job) → List String
claimed_ids (ok (js, rows)) = ids js
  where
    ids : List Job → List String
    ids [] = []
    ids (x ∷ xs) = x.id ∷ ids xs
claimed_ids (err e) = []

claim_runs :
    (claimed_ids (claim "w2" (60 * second) (30 * second) 5 table) ≡ "j2" ∷ [])
    × (claimed_ids (claim "w2" (100 * second) (30 * second) 5 table) ≡ "j1" ∷ "j2" ∷ [])
    × (claimed_ids (claim "w2" (100 * second) (30 * second) 1 table) ≡ "j1" ∷ [])
unfolding runs
claim_runs = (refl, refl, refl)

table-IsSound : IsSound table
unfolding runs
table-IsSound = record { ids = refl; active = refl; leases = (refl, (refl, tt)) }

w1-ne-empty : ◌≢◌ {A = String} "w1" ""
w1-ne-empty = ground (arith, str_eq_iff "w1" "")

w2-ne-empty : ◌≢◌ {A = String} "w2" ""
w2-ne-empty = ground (arith, str_eq_iff "w2" "")

w1-ne-w2 : ◌≢◌ {A = String} "w1" "w2"
w1-ne-w2 = ground (arith, str_eq_iff "w1" "w2")

asked-IsNew : IsNew "n" (asked "d3") table
unfolding runs
asked-IsNew = record { target = refl; id = refl; state = refl; owner = refl; unused = refl }

enqueue-IsQueued_example :
    (r : Job × List Job) × (enqueue 60 "n" (asked "d3") table ≡ ok r)
    × IsQueued (asked "d3") r
    × (any (active_for (asked "d3")) table ≡ true → r.1 ≡ table)
    × (any (active_for (asked "d3")) table ≡ false → r.0.id ≡ "n")
enqueue-IsQueued_example = enqueue-IsQueued 60 "n" (asked "d3") table table-IsSound asked-IsNew

force_enqueue-IsQueued_example :
    (r : Job × List Job) × (force_enqueue 100 "n" (asked "d1") table ≡ ok r)
    × IsQueued (asked "d1") r
    × IsRetried 100 r.0
unfolding runs
force_enqueue-IsQueued_example =
    force_enqueue-IsQueued 100 "n" (asked "d1") table table-IsSound refl refl

abbrev finished : List Job
finished = update_rows (held_by "j1" "w1") (finish_row success "" 0 70) table

finish_iff_example :
    (any (held_by "j1" "w1") table ≡ true
      → (finish 70 "j1" "w1" success "" 0 table ≡ ok finished)
        × IsSound finished
        × (any (held_by "j1" "w1") finished ≡ false))
    × (any (held_by "j1" "w1") table ≡ false
        → finish 70 "j1" "w1" success "" 0 table ≡ err (lease_lost "j1"))
finish_iff_example = finish_iff 70 "j1" "w1" success "" 0 table table-IsSound w1-ne-empty refl

claim-Claims_example :
    (r : List Job × List Job) × (claim "w2" (60 * second) (30 * second) 5 table ≡ ok r)
    × Claims "w2" (60 * second) (claim_lease (30 * second)) table r
    × (length r.0 ≤ claim_limit 5)
    × (claim_limit 5 ≤ 100)
claim-Claims_example =
    claim-Claims "w2" (60 * second) (30 * second) 5 table w2-ne-empty table-IsSound

abbrev taken : Job
taken = record (job_of "j1" "d1" running "w2" 130) { attempt = 2 }

abbrev after : List Job
after =
    record (job_of "j1" "d1" running "w2" 130) { attempt = 2; updated_at_unix = 100 }
    ∷ job_of "j2" "d2" retry_wait "" 0
    ∷ []

claim_fences_example : finish 101 "j1" "w1" success "" 0 after ≡ err (lease_lost "j1")
unfolding runs
claim_fences_example =
    claim_fences "w1" "w2" (100 * second) (30 * second) 1 101 table (taken ∷ [], after) taken
      success "" 0 table-IsSound w1-ne-empty w2-ne-empty w1-ne-w2 refl refl (here refl)

abbrev worker : Runner
worker = record {
  dns = some (record { reconcile = λ id. some "timeout"; cleanup = λ id. none });
  certificates = none;
  owner = "w1";
  lease = 0;
  batch_size = 5;
}

abbrev work : List Job × List Audit
work =
    execute worker (60 * second) (70 * second ∷ []) (80 * second)
      (job_of "j1" "d1" running "w1" 100) table

execute_lem_example :
    IsSound work.0
    × (any (held_by "j1" "w1") table ≡ true
        → (answer : Option String) × IsAnswer worker (job_of "j1" "d1" running "w1" 100) answer
          × (work.1 ≡ entries_of worker (job_of "j1" "d1" running "w1" 100) answer)
          × ((x : Job) × IsIn x work.0
              × (has_id "j1" x ≡ true)
              × (x.lease_owner ≡ "")
              × IsEnded (60 * second) (job_of "j1" "d1" running "w1" 100) answer x))
    × (any (held_by "j1" "w1") table ≡ false
        → work ≡ (heartbeat worker "j1" (70 * second ∷ []) table, []))
execute_lem_example =
    execute_lem worker (60 * second) (70 * second ∷ []) (80 * second)
      (job_of "j1" "d1" running "w1" 100) table table-IsSound w1-ne-empty

abbrev same_clock : String → ℕ × List ℕ × ℕ
same_clock id = (60 * second, 62 * second ∷ [], 63 * second)

-- The pass is cancelled at the certificate.
abbrev cancels : String → Bool
cancels id = str_eq id "c"

abbrev passed : List Job × List Audit
passed =
    run_once worker (60 * second) cancels same_clock (("d1", "a") ∷ ("d4", "b") ∷ [])
      (("c1", "c") ∷ []) table

run_once-IsWorked_example :
    (got : List Job × List Job) × (claim "w1"
        (60 * second)
        (runner_lease worker)
        (runner_batch worker)
        (enqueue_due "certificate.issue" "protocol_certificate" (60 * second) (("c1", "c") ∷ []) (
          enqueue_due "dns.reconcile" "managed_domain"
            (60 * second)
            (("d1", "a") ∷ ("d4", "b") ∷ [])
            table))
      ≡ ok got)
    × IsSound passed.0
    × IsWorked worker (until cancels got.0) passed.1
run_once-IsWorked_example =
    run_once-IsWorked worker cancels same_clock w1-ne-empty (60 * second)
      (("d1", "a") ∷ ("d4", "b") ∷ []) (("c1", "c") ∷ []) table table-IsSound

passed_runs : map {B = String} (λ (a : Audit). a.target_id) passed.1 ≡ "d2" ∷ "d4" ∷ []
unfolding runs run_once enqueue_due execute_all execute heartbeat dispatch verdict
    add_automation_audit is_retried
passed_runs = refl

abbrev calls : List Call
calls =
    enqueues 60 "n1" (new_job "dns.reconcile" "managed_domain" "d1" "{}" 60)
    ∷ claims "w1" (70 * second) (60 * second) 10
    ∷ forces 75 "n2" (asked "d1")
    ∷ finishes 80 "n1" "w1" success "" 0
    ∷ forces 90 "n3" (asked "d1")
    ∷ []

run_calls-IsSound_example : IsSound (run_calls calls [])
run_calls-IsSound_example = run_calls-IsSound calls (
  enqueues_new 60 "n1" "dns.reconcile" "managed_domain" "d1" "{}" 60,
  (
    claims_any "w1" (70 * second) (60 * second) 10,
    (
      forces_any 75 "n2" (asked "d1"),
      (finishes_named 80 "n1" "w1" success "" 0 w1-ne-empty, (forces_any 90 "n3" (asked "d1"), tt)),
    ),
  ),
)

calls_run :
    map {B = String × JobState} (λ j. (j.id, j.state)) (run_calls calls [])
    ≡ ("n1", success) ∷ ("n3", pending) ∷ []
unfolding runs
calls_run = refl
