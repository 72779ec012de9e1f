-- ===== src/Panel/Automation/Interleave.antt =====
-- The job table under any interleaving: each method of the store runs in one SQLite transaction, and
-- the workers of `runAsync`, the API handlers and other panels call them in any order.
use ladder_airport.Panel.Automation.{
  find_active, lacks_target, stamp, insert_job, enqueue, reset, mark_failed, replace_job, wake_job,
  force_existing, force_enqueue, claim, is_terminal, held_by, finish_row, finish, renew,
}
use ladder_airport.Base.{
  ltb, Bool-cases, Option-cases, any, All, All-of, IsIn, Result, err, ok, ℕ, String, ◌≡◌, refl, sym,
  subst, ◌≢◌, inl, inr, true, List, [], ◌∷◌, arith, str_eq, str_eq_iff,
}
use ladder_airport.Panel.Automation.Table.{
  JobState, Job, active_for, unique_active, has_id, update_rows, unset, pending, running,
}
use ladder_airport.Panel.Automation.Sound.{unique_ids, IsSound, Shrinks, KeepsLease, update-IsSound}
use ladder_airport.Panel.Automation.Enqueue.{find_active-some}
use ladder_airport.Panel.Automation.OneActive.{mark_failed-Shrinks, mark_failed-KeepsLease}
use ladder_airport.Panel.Automation.Leases.{finish_iff}
use ladder_airport.Panel.Automation.Heartbeat.{renew-IsSound}
use ladder_airport.Panel.Automation.Fencing.{claim-Claims}
use ladder_airport.Panel.Automation.Pass.{insert_job-keeps, enqueue-keeps}
use ladder_airport.Panel.Automation.Queued.{replace_job-eq, wake_job-Forced}

-- The job that a caller of the two enqueueing methods fills in.
unfoldable pub new_job : String → String → String → String → ℕ → Job
new_job type target_type target_id payload next_run = record {
  id = "";
  type = type;
  target_type = target_type;
  target_id = target_id;
  state = unset;
  payload = payload;
  attempt = 0;
  next_run_unix = next_run;
  lease_owner = "";
  lease_expires_unix = 0;
  last_error = "";
  created_at_unix = 0;
  updated_at_unix = 0;
}

-- A call of the store, with the clock and the new id that it draws.
pub data Call : Type 0 where
  enqueues : ℕ → String → Job → Call
  forces : ℕ → String → Job → Call
  claims : String → ℕ → ℕ → ℕ → Call
  renews_lease : String → String → ℕ → ℕ → Call
  finishes : ℕ → String → String → JobState → String → ℕ → Call

abbrev table_of {ℓ} : {A : Type ℓ} → List Job → Result (A × List Job) → List Job
table_of rows (ok r) = r.1
table_of rows (err _) = rows

abbrev rows_of : List Job → Result (List Job) → List Job
rows_of rows (ok rows') = rows'
rows_of rows (err _) = rows

-- A call that fails is rolled back.
unfoldable pub step : Call → List Job → List Job
step (enqueues now fresh job) rows = table_of rows (enqueue now fresh job rows)
step (forces now fresh job) rows = table_of rows (force_enqueue now fresh job rows)
step (claims owner now lease limit) rows = table_of rows (claim owner now lease limit rows)
step (renews_lease id owner now lease) rows = rows_of rows (renew id owner now lease rows)
step (finishes now id owner state message next) rows =
    rows_of rows (finish now id owner state message next rows)

unfoldable pub run_calls : List Call → List Job → List Job
run_calls [] rows = rows
run_calls (c ∷ cs) rows = run_calls cs (step c rows)

-- New jobs come without an id, a state and an owner, and a worker that finishes a job has a name.
pub data IsProper : Call → Type 0 where
  enqueues_new :
      (now : ℕ) (fresh type target_type target_id payload : String) (next : ℕ)
      → IsProper (enqueues now fresh (new_job type target_type target_id payload next))
  forces_any : (now : ℕ) (fresh : String) (job : Job) → IsProper (forces now fresh job)
  claims_any : (owner : String) (now lease limit : ℕ) → IsProper (claims owner now lease limit)
  renews_any : (id owner : String) (now lease : ℕ) → IsProper (renews_lease id owner now lease)
  finishes_named :
      (now : ℕ) (id owner : String) (state : JobState) (message : String) (next : ℕ)
      → owner ≢ ""
      → IsProper (finishes now id owner state message next)

table-IsSound {ℓ} :
    {A : Type ℓ} (rows : List Job) (o : Result (A × List Job))
    → IsSound rows
    → ((r : A × List Job) → o ≡ ok r → IsSound r.1)
    → IsSound (table_of rows o)
table-IsSound rows (ok r) s keeps = keeps r refl
table-IsSound rows (err e) s keeps = s

rows-IsSound :
    (rows : List Job) (o : Result (List Job))
    → IsSound rows
    → ((r : List Job) → o ≡ ok r → IsSound r)
    → IsSound (rows_of rows o)
rows-IsSound rows (ok r) s keeps = keeps r refl
rows-IsSound rows (err e) s keeps = s

abbrev Keeps : Result (Job × List Job) → Type 0
Keeps o = (r : Job × List Job) → o ≡ ok r → IsSound r.1

reset-Keeps :
    (now : ℕ) (fresh : String) (job : Job) (rows : List Job)
    → IsSound rows
    → Keeps (insert_job now fresh (reset now job) rows)
reset-Keeps now fresh job rows s r done =
    insert_job-keeps now fresh (reset now job) rows r s (unfold reset in refl)
      (unfold reset stamp in refl) done

replace_job-Keeps :
    (now : ℕ) (fresh : String) (job e : Job) (rows : List Job)
    → IsSound rows
    → Keeps (replace_job now fresh job e rows)
replace_job-Keeps now fresh job e rows s =
    let shrinks =
      All-of (Shrinks (has_id e.id) (mark_failed now)) (mark_failed-Shrinks now e.id) rows in
    let keeps =
      All-of (KeepsLease (has_id e.id) (mark_failed now)) (mark_failed-KeepsLease now e.id) rows in
    let (done, sound) = update-IsSound (has_id e.id) (mark_failed now) rows s shrinks keeps in
    subst Keeps (sym (replace_job-eq now fresh job e rows _ done))
      (reset-Keeps now fresh job _ sound)

wake_job-Keeps :
    (now : ℕ) (job e : Job) (rows : List Job)
    → IsSound rows
    → IsIn e rows
    → active_for job e ≡ true
    → e.state ≡ pending
    → Keeps (wake_job now e rows)
wake_job-Keeps now job e rows s i act waiting r done =
    let (got, is, queued, _) = wake_job-Forced now job e rows s i act waiting in
    let same : got ≡ r = cc (is, done) in
    subst (λ (x : Job × List Job). IsSound x.1) same queued.sound

force_enqueue-Keeps :
    (now : ℕ) (fresh : String) (job : Job) (rows : List Job)
    → IsSound rows
    → Keeps (force_enqueue now fresh job rows)
unfolding force_enqueue force_existing
force_enqueue-Keeps now fresh job rows s = elim (Bool-cases (lacks_target job)) [
  | inl lacks ↦ λ r done. absurd (ground (arith, lacks, done))
  | inr target ↦ elim (Option-cases (find_active job rows)) [
    | inl missing ↦ subst Keeps (ground (arith, target, missing)) (reset-Keeps now fresh job rows s)
    | inr (e, found) ↦
        let (i, act) = find_active-some job rows e found in
        subst Keeps (ground (arith, target, found)) (existing e.state e refl i act)
  ]
]
  where
    existing :
        (state : JobState) (e : Job)
        → e.state ≡ state
        → IsIn e rows
        → active_for job e ≡ true
        → Keeps (force_existing now fresh job e rows)
    existing running e is i act = elim (Bool-cases (ltb now e.lease_expires_unix)) [
      | inl held ↦
          λ r done. let same : rows ≡ r.1 = ground (arith, is, held) in subst IsSound same s
      | inr expired ↦
          subst Keeps (ground (arith, is, expired)) (replace_job-Keeps now fresh job e rows s)
    ]
    existing pending e is i act =
        subst Keeps (ground (arith, is)) (wake_job-Keeps now job e rows s i act is)
    existing _ e is i act =
        subst Keeps (ground (arith, is)) (replace_job-Keeps now fresh job e rows s)

claim-keeps :
    (owner : String) (now lease limit : ℕ) (rows : List Job) (r : List Job × List Job)
    → IsSound rows
    → claim owner now lease limit rows ≡ ok r
    → IsSound r.1
claim-keeps owner now lease limit rows r s done = elim (Bool-cases (str_eq owner "")) [
  | inl nobody ↦ absurd (unfold claim in (ground (arith, nobody)))
  | inr somebody ↦
      let named : owner ≢ "" = λ e. ground (arith, somebody, str_eq_iff owner "") in
      let (got, ran, k, _, _) = claim-Claims owner now lease limit rows named s in
      let same : got ≡ r = cc (ran, done) in
      subst (λ (x : List Job × List Job). IsSound x.1) same k.sound
]

finish-keeps :
    (now : ℕ) (id owner : String) (state : JobState) (message : String) (next : ℕ)
    (rows r : List Job)
    → IsSound rows
    → owner ≢ ""
    → finish now id owner state message next rows ≡ ok r
    → IsSound r
finish-keeps now id owner state message next rows r s named done =
    elim (Bool-cases (is_terminal state)) [
      | inr open_state ↦ absurd (unfold finish in (ground (arith, open_state)))
      | inl terminal ↦
          let (held, lost) = finish_iff now id owner state message next rows s named terminal in
          elim (Bool-cases (any (held_by id owner) rows)) [
            | inl mine ↦
                let (ran, sound, _) = held mine in
                let same : update_rows (held_by id owner) (finish_row state message next now) rows
                    ≡ r =
                  cc (ran, done) in
                subst IsSound same sound
            | inr others ↦ absurd (cc (lost others, done))
          ]
    ]

step-IsSound : (c : Call) (rows : List Job) → IsProper c → IsSound rows → IsSound (step c rows)
unfolding step
step-IsSound _ rows (enqueues_new now fresh type target_type target_id payload next) s =
    table-IsSound rows _ s (λ r done.
      enqueue-keeps now fresh (new_job type target_type target_id payload next) rows r s
        (unfold new_job in refl) (unfold new_job stamp in refl) done)
step-IsSound _ rows (forces_any now fresh job) s =
    table-IsSound rows _ s (force_enqueue-Keeps now fresh job rows s)
step-IsSound _ rows (claims_any owner now lease limit) s =
    table-IsSound rows _ s (λ r done. claim-keeps owner now lease limit rows r s done)
step-IsSound _ rows (renews_any id owner now lease) s =
    rows-IsSound rows _ s (λ r done. (renew-IsSound id owner now lease rows r s done).0)
step-IsSound _ rows (finishes_named now id owner state message next named) s =
    rows-IsSound rows _ s
      (λ r done. finish-keeps now id owner state message next rows r s named done)

run_calls-keeps :
    (cs : List Call) (rows : List Job)
    → All IsProper cs
    → IsSound rows
    → IsSound (run_calls cs rows)
unfolding run_calls
run_calls-keeps [] rows _ s = s
run_calls-keeps (c ∷ cs) rows (p, ps) s =
    run_calls-keeps cs (step c rows) ps (step-IsSound c rows p s)

-- From the empty table, whatever calls of the store any workers and handlers make in any order: the
-- ids stay unique, each target has one active job at most, and only running jobs are leased. The
-- jobs that are enqueued come without an id, a state and an owner, and who finishes a job has a name.
pub run_calls-IsSound : (cs : List Call) → All IsProper cs → IsSound (run_calls cs [])
run_calls-IsSound cs proper =
    run_calls-keeps cs [] proper (record {
      ids = unfold unique_ids in refl;
      active = unfold unique_active in refl;
      leases = tt;
    })
