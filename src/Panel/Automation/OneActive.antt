-- ===== src/Panel/Automation/OneActive.antt =====
-- EnqueueAutomationJob and ForceEnqueueAutomationJob on a sound table: they always succeed, and
-- leave one active job for the target.
use ladder_airport.Base.{
  Bool-cases, any, All-of, IsIn, here, there, ok, ℕ, String, ◌≡◌, refl, ◌∙◌, inl, inr, Bool, true,
  false, List, [], ◌∷◌, ◌++◌, arith, str_eq_refl,
}
use ladder_airport.Panel.Automation.Table.{
  Job, is_active, same_target, active_for, unique_active, has_id, update_rows, unset, other,
}
use ladder_airport.Panel.Automation.Enqueue.{any-active_for_trans, is_active_of, insert_job-IsSound}
use ladder_airport.Panel.Automation.Sound.{IsSound, Shrinks, any-active_for-update, KeepsLease}
use ladder_airport.Panel.Automation.{lacks_target, stamp, insert_job, wake, mark_failed}

pub any-IsIn :
    (q : Job → Bool) (rows : List Job) (e : Job) → IsIn e rows → q e ≡ true → any q rows ≡ true
any-IsIn q [] e i h = elim i [ ]
any-IsIn q (r ∷ rs) e (here same) h = let q_r : q r ≡ true = rw same at h in ground (arith, q_r)
any-IsIn q (r ∷ rs) e (there i) h = ground (arith, any-IsIn q rs e i h)

pub mark_failed-Shrinks :
    (now : ℕ) (id : String) (r : Job) → Shrinks (has_id id) (mark_failed now) r
unfolding mark_failed
mark_failed-Shrinks now id r h = record {
  active = λ e. cc;
  id = refl;
  type = refl;
  target_type = refl;
  target_id = refl;
}

pub wake-Shrinks : (now : ℕ) (id : String) (r : Job) → Shrinks (has_id id) (wake now) r
unfolding wake
wake-Shrinks now id r h = record {
  active = λ e. e;
  id = refl;
  type = refl;
  target_type = refl;
  target_id = refl;
}

pub has_id_self : (r : Job) → has_id r.id r ≡ true
unfolding has_id
has_id_self r = str_eq_refl r.id

pub IsIn-update_rows :
    (p : Job → Bool) (f : Job → Job) (rows : List Job) (e : Job)
    → IsIn e rows
    → p e ≡ true
    → IsIn (f e) (update_rows p f rows)
unfolding update_rows
IsIn-update_rows p f [] e i h = elim i [ ]
IsIn-update_rows p f (r ∷ rs) e (here same) h =
    let p_r : p r ≡ true = rw same at h in here (rw (p_r, same) refl)
IsIn-update_rows p f (r ∷ rs) e (there i) h = there (IsIn-update_rows p f rs e i h)

unfoldable pub fails : ℕ → String → List Job → List Job
fails now id rows = update_rows (has_id id) (mark_failed now) rows

any-fails :
    (now : ℕ) (id : String) (job : Job) (rows : List Job)
    → any (active_for job) rows ≡ false
    → any (active_for job) (fails now id rows) ≡ false
unfolding fails
any-fails now id job rows h = ground (
  arith,
  any-active_for-update (has_id id) (mark_failed now) job rows
      (All-of (Shrinks (has_id id) (mark_failed now)) (mark_failed-Shrinks now id) rows),
)

inactive_failed : (now : ℕ) (job r : Job) → active_for job (mark_failed now r) ≡ false
unfolding active_for mark_failed
inactive_failed now job r = refl

-- A sound table has no second active row behind one for the same target.
rest_inactive :
    (job r : Job) (rs : List Job)
    → unique_active (r ∷ rs) ≡ true
    → active_for job r ≡ true
    → any (active_for job) rs ≡ false
unfolding unique_active
rest_inactive job r rs u h = ground (arith, is_active_of job r h, any-active_for_trans job r rs h)

-- Once the active row for a target is marked failed, no active row for it is left.
pub none_active :
    (now : ℕ) (job e : Job) (rows : List Job)
    → unique_active rows ≡ true
    → IsIn e rows
    → active_for job e ≡ true
    → any (active_for job) (fails now e.id rows) ≡ false
unfolding unique_active fails update_rows
none_active now job e [] u i h = elim i [ ]
none_active now job e (r ∷ rs) u (here same) h =
    let job_r : active_for job r ≡ true = rw same at h in
    let hit : has_id e.id r ≡ true = rw same (has_id_self r) in
    ground (
      arith,
      hit,
      inactive_failed now job r,
      any-fails now e.id job rs (rest_inactive job r rs u job_r),
    )
none_active now job e (r ∷ rs) u (there i) h = elim (Bool-cases (active_for job r)) [
  | inl job_r ↦ absurd (bad (rest_inactive job r rs u job_r))
  | inr elsewhere ↦
      ground (arith, other, inactive_failed now job r, none_active now job e rs (ground arith) i h)
]
  where
    bad : any (active_for job) rs ≡ false → ⊥
    bad none_left = cc (none_left, any-IsIn (active_for job) rs e i h)

pub mark_failed-KeepsLease :
    (now : ℕ) (id : String) (r : Job) → KeepsLease (has_id id) (mark_failed now) r
unfolding mark_failed
mark_failed-KeepsLease now id r h = refl

-- What both ways to enqueue promise: the table is sound, and has the returned job, which is active
-- for the target.
pub record IsQueued (job : Job) (r : Job × List Job) : Type 0 where
  pub sound : IsSound r.1
  pub stored : IsIn r.0 r.1
  pub active : active_for job r.0 ≡ true

IsIn-last : (rows : List Job) (r : Job) → IsIn r (rows ++ r ∷ [])
IsIn-last [] r = here refl
IsIn-last (x ∷ xs) r = there (IsIn-last xs r)

-- A job as the callers pass it: no id, state, lease or row yet.
pub record IsNew (fresh : String) (job : Job) (rows : List Job) : Type 0 where
  pub target : lacks_target job ≡ false
  pub id : job.id ≡ ""
  pub state : job.state ≡ unset
  pub owner : job.lease_owner ≡ ""
  pub unused : any (has_id fresh) rows ≡ false

active_for-stamp :
    (now : ℕ) (fresh : String) (job : Job)
    → is_active (stamp now fresh job).state ≡ true
    → active_for job (stamp now fresh job) ≡ true
unfolding active_for same_target stamp
active_for-stamp now fresh job h =
    ground (arith, h, str_eq_refl job.type, str_eq_refl job.target_type, str_eq_refl job.target_id)

-- An insert of a job with no id into a sound table with no active row for its target.
pub insert_job-IsQueued :
    (now : ℕ) (fresh : String) (job : Job) (rows : List Job)
    → IsSound rows
    → any (has_id fresh) rows ≡ false
    → any (active_for job) rows ≡ false
    → job.id ≡ ""
    → is_active (stamp now fresh job).state ≡ true
    → job.lease_owner ≡ ""
    → (insert_job now fresh job rows ≡ ok (stamp now fresh job, rows ++ stamp now fresh job ∷ []))
      × IsQueued job (stamp now fresh job, rows ++ stamp now fresh job ∷ [])
insert_job-IsQueued now fresh job rows s unused free no_id act no_owner =
    let mine = active_for-stamp now fresh job act in
    let (done, sound) =
      insert_job-IsSound now fresh job rows s (unfold stamp in (rw no_id unused))
        (any-active_for_trans job (stamp now fresh job) rows mine ∙ free)
        (unfold stamp in (rw no_owner refl)) in
    (done, record { sound = sound; stored = IsIn-last rows _; active = mine })
