-- ===== src/Panel/Automation/Pass.antt =====
-- The enqueues of a pass of the runner keep the table sound, also where an id was not known to be
-- unused.
use ladder_airport.Base.{
  Option-cases, any, Result-cases, err, ok, ℕ, String, ◌≡◌, refl, subst, inl, inr, true, false,
  List, [], ◌∷◌, ◌++◌, arith,
}
use ladder_airport.Panel.Automation.Table.{Job, unix, is_active, active_for, has_id, unset}
use ladder_airport.Panel.Automation.Sound.{IsSound}
use ladder_airport.Panel.Automation.Runner.{enqueue_due}
use ladder_airport.Panel.Automation.Enqueue.{insert_job-IsSound}
use ladder_airport.Panel.Automation.{find_active, stamp, insert_job, enqueue}

-- An insert that succeeds keeps the table sound, also where the id was not known to be unused.
pub insert_job-keeps :
    (now : ℕ) (fresh : String) (job : Job) (rows : List Job) (r : Job × List Job)
    → IsSound rows
    → job.lease_owner ≡ ""
    → is_active (stamp now fresh job).state ≡ true
    → insert_job now fresh job rows ≡ ok r
    → IsSound r.1
insert_job-keeps now fresh job rows r s no_owner act h =
    let row = stamp now fresh job in
    let fits : (any (has_id row.id) rows ≡ false) × (any (active_for row) rows ≡ false) =
      unfold insert_job in (ground arith) in
    let (done, sound) =
      insert_job-IsSound now fresh job rows s fits.0 fits.1 (unfold stamp in (rw no_owner refl)) in
    let same : (row, rows ++ row ∷ []) ≡ r = cc (done, h) in
    subst (λ (x : Job × List Job). IsSound x.1) same sound

pub enqueue-keeps :
    (now : ℕ) (fresh : String) (job : Job) (rows : List Job) (r : Job × List Job)
    → IsSound rows
    → job.lease_owner ≡ ""
    → is_active (stamp now fresh job).state ≡ true
    → enqueue now fresh job rows ≡ ok r
    → IsSound r.1
enqueue-keeps now fresh job rows r s no_owner act h = elim (Option-cases (find_active job rows)) [
  | inl missing ↦
      insert_job-keeps now fresh job rows r s no_owner act
        (unfold enqueue in (ground (arith, missing)))
  | inr (e, found) ↦
      let same : rows ≡ r.1 = unfold enqueue in (ground (arith, found)) in subst IsSound same s
]

unfoldable pub due_job : String → String → ℕ → String → Job
due_job type target_type now target_id = record {
  id = "";
  type = type;
  target_type = target_type;
  target_id = target_id;
  state = unset;
  payload = "";
  attempt = 0;
  next_run_unix = unix now;
  lease_owner = "";
  lease_expires_unix = 0;
  last_error = "";
  created_at_unix = 0;
  updated_at_unix = 0;
}

due_job-keeps :
    (type target_type : String) (now : ℕ) (target_id fresh : String) (rows : List Job)
    (r : Job × List Job)
    → IsSound rows
    → enqueue (unix now) fresh (due_job type target_type now target_id) rows ≡ ok r
    → IsSound r.1
due_job-keeps type target_type now target_id fresh rows r s h =
    enqueue-keeps (unix now) fresh (due_job type target_type now target_id) rows r s
      (unfold due_job in refl) (unfold due_job stamp in refl) h

enqueue_due-step :
    (type target_type : String) (now : ℕ) (target_id fresh : String) (rest : List (String × String))
    (rows : List Job)
    → IsSound rows
    → ((x : List Job) → IsSound x → IsSound (enqueue_due type target_type now rest x))
    → IsSound (enqueue_due type target_type now ((target_id, fresh) ∷ rest) rows)
unfolding enqueue_due due_job
enqueue_due-step type target_type now target_id fresh rest rows s more =
    elim (Result-cases (enqueue (unix now) fresh (due_job type target_type now target_id) rows)) [
      | inl (r, done) ↦
          subst IsSound (chosen r done)
            (more r.1 (due_job-keeps type target_type now target_id fresh rows r s done))
      | inr (e, failed_with) ↦ subst IsSound (skipped e failed_with) (more rows s)
    ]
  where
    chosen :
        (r : Job × List Job)
        → enqueue (unix now) fresh (due_job type target_type now target_id) rows ≡ ok r
        → enqueue_due type target_type now rest r.1
          ≡ enqueue_due type target_type now ((target_id, fresh) ∷ rest) rows
    chosen r done = ground (arith, done)

    skipped :
        (e : String)
        → enqueue (unix now) fresh (due_job type target_type now target_id) rows ≡ err e
        → enqueue_due type target_type now rest rows
          ≡ enqueue_due type target_type now ((target_id, fresh) ∷ rest) rows
    skipped e failed_with = ground (arith, failed_with)

pub enqueue_due-IsSound :
    (type target_type : String) (now : ℕ) (targets : List (String × String)) (rows : List Job)
    → IsSound rows
    → IsSound (enqueue_due type target_type now targets rows)
enqueue_due-IsSound type target_type now [] rows s = unfold enqueue_due in s
enqueue_due-IsSound type target_type now ((target_id, fresh) ∷ rest) rows s =
    enqueue_due-step type target_type now target_id fresh rest rows s
      (enqueue_due-IsSound type target_type now rest)
