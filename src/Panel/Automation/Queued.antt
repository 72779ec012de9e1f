-- ===== src/Panel/Automation/Queued.antt =====
-- EnqueueAutomationJob and ForceEnqueueAutomationJob are total on a sound table.
use ladder_airport.Base.{
  ltb, Bool-cases, Option-cases, any, All, All-of, IsIn, Result, ok, ℕ, ◌<◌, String, ◌≡◌, refl, sym,
  ◌∙◌, subst, inl, inr, Bool, true, false, List, [], ◌∷◌, ◌++◌, arith,
}
use ladder_airport.Panel.Automation.Table.{
  JobState, Job, is_running, same_target, active_for, has_id, update_rows, update, unset, pending,
  running,
}
use ladder_airport.Panel.Automation.Sound.{
  lease_ok, IsSound, Shrinks, any-has_id-update_rows, KeepsLease, update-IsSound,
}
use ladder_airport.Panel.Automation.Enqueue.{find_active-some, find_active-none}
use ladder_airport.Panel.Automation.OneActive.{
  any-IsIn, mark_failed-Shrinks, wake-Shrinks, has_id_self, IsIn-update_rows, fails, none_active,
  mark_failed-KeepsLease, IsQueued, IsNew, insert_job-IsQueued,
}
use ladder_airport.Panel.Automation.{
  find_active, lacks_target, stamp, insert_job, enqueue, reset, wake, mark_failed, replace_job,
  wake_job, force_existing, force_enqueue,
}

-- On a sound table, enqueueing a new job with a target and an unused id succeeds: the table that
-- results is sound and holds the returned job, active for that target. Where an active job for the
-- target was there, the table is unchanged; where none was, the returned job has the unused id.
pub enqueue-IsQueued :
    (now : ℕ) (fresh : String) (job : Job) (rows : List Job)
    → IsSound rows
    → IsNew fresh job rows
    → (r : Job × List Job) × (enqueue now fresh job rows ≡ ok r)
      × IsQueued job r
      × (any (active_for job) rows ≡ true → r.1 ≡ rows)
      × (any (active_for job) rows ≡ false → r.0.id ≡ fresh)
unfolding enqueue
enqueue-IsQueued now fresh job rows s n = elim (Option-cases (find_active job rows)) [
  | inr (e, found) ↦
      let (stored, act) = find_active-some job rows e found in
      (
        (e, rows),
        ground (arith, n.target, found),
        record { sound = s; stored = stored; active = act },
        λ _. refl,
        λ none_there. cc (any-IsIn (active_for job) rows e stored act),
      )
  | inl missing ↦
      let free = find_active-none job rows missing in
      let (done, queued) =
        insert_job-IsQueued now fresh job rows s n.unused free n.id
          (unfold stamp in (rw n.state refl)) n.owner in
      (
        (stamp now fresh job, rows ++ stamp now fresh job ∷ []),
        rw (n.target, missing) done,
        queued,
        λ there_is. cc free,
        λ _. unfold stamp in (rw n.id refl),
      )
]

-- What a forced retry returns: a job that is running under a lease that has not expired, or one that
-- is pending, due at once and without the previous error.
pub data IsRetried (now : ℕ) (r : Job) : Type 0 where
  busy : is_running r.state ≡ true → now < r.lease_expires_unix → IsRetried now r
  due_now : r.state ≡ pending → r.next_run_unix ≡ now → r.last_error ≡ "" → IsRetried now r

abbrev pub Forced : ℕ → Job → Result (Job × List Job) → Type 0
Forced now job result = (r : Job × List Job) × (result ≡ ok r) × IsQueued job r × IsRetried now r.0

insert_reset-Forced :
    (now : ℕ) (fresh : String) (job : Job) (rows : List Job)
    → IsSound rows
    → any (has_id fresh) rows ≡ false
    → any (active_for job) rows ≡ false
    → Forced now job (insert_job now fresh (reset now job) rows)
insert_reset-Forced now fresh job rows s unused free =
    let (done, queued) =
      insert_job-IsQueued now fresh (reset now job) rows s unused
        (unfold reset active_for same_target in free) (unfold reset in refl)
        (unfold reset stamp in refl) (unfold reset in refl) in
    (
      (stamp now fresh (reset now job), rows ++ stamp now fresh (reset now job) ∷ []),
      done,
      record {
        sound = queued.sound;
        stored = queued.stored;
        active = unfold reset active_for same_target in queued.active;
      },
      due_now (unfold reset stamp in refl) (unfold reset stamp in (ground arith))
          (unfold reset stamp in refl),
    )

pub replace_job-eq :
    (now : ℕ) (fresh : String) (job e : Job) (rows : List Job) (c : List Job × Bool)
    → update (has_id e.id) (mark_failed now) rows ≡ ok c
    → replace_job now fresh job e rows ≡ insert_job now fresh (reset now job) c.0
unfolding replace_job
replace_job-eq now fresh job e rows c h = ground (arith, h)

replace_job-Forced :
    (now : ℕ) (fresh : String) (job e : Job) (rows : List Job)
    → IsSound rows
    → any (has_id fresh) rows ≡ false
    → IsIn e rows
    → active_for job e ≡ true
    → Forced now job (replace_job now fresh job e rows)
unfolding replace_job fails
replace_job-Forced now fresh job e rows s unused i act =
    let shrinks =
      All-of (Shrinks (has_id e.id) (mark_failed now)) (mark_failed-Shrinks now e.id) rows in
    let keeps =
      All-of (KeepsLease (has_id e.id) (mark_failed now)) (mark_failed-KeepsLease now e.id) rows in
    let (done, sound) = update-IsSound (has_id e.id) (mark_failed now) rows s shrinks keeps in
    let same_ids = any-has_id-update_rows (has_id e.id) (mark_failed now) fresh rows shrinks in
    subst (Forced now job) (sym (replace_job-eq now fresh job e rows _ done)) (
      insert_reset-Forced now fresh job _ sound (same_ids ∙ unused)
        (none_active now job e rows s.active i act))

pub wake_job-Forced :
    (now : ℕ) (job e : Job) (rows : List Job)
    → IsSound rows
    → IsIn e rows
    → active_for job e ≡ true
    → e.state ≡ pending
    → Forced now job (wake_job now e rows)
unfolding wake_job
wake_job-Forced now job e rows s i act waiting =
    let shrinks = All-of (Shrinks (has_id e.id) (wake now)) (wake-Shrinks now e.id) rows in
    let keeps = leases_kept rows s.leases in
    let (done, sound) = update-IsSound (has_id e.id) (wake now) rows s shrinks keeps in
    (
      (wake now e, update_rows (has_id e.id) (wake now) rows),
      rw (done, wake_job) refl,
      record {
        sound = sound;
        stored = IsIn-update_rows (has_id e.id) (wake now) rows e i (has_id_self e);
        active = unfold wake active_for same_target in act;
      },
      due_now (unfold wake in waiting) (unfold wake in refl) (unfold wake in refl),
    )
  where
    leases_kept :
        (rs : List Job)
        → All (λ r. lease_ok r ≡ true) rs
        → All (KeepsLease (has_id e.id) (wake now)) rs
    leases_kept [] _ = tt
    leases_kept (r ∷ rs) (h, hs) = (λ _. unfold wake in h, leases_kept rs hs)

-- On a sound table, a forced retry with a target and an unused id succeeds: the table that results
-- is sound and holds the returned job, active for that target, which is either running under a
-- lease that has not expired, or pending, due at once and without the previous error.
pub force_enqueue-IsQueued :
    (now : ℕ) (fresh : String) (job : Job) (rows : List Job)
    → IsSound rows
    → lacks_target job ≡ false
    → any (has_id fresh) rows ≡ false
    → (r : Job × List Job) × (force_enqueue now fresh job rows ≡ ok r)
      × IsQueued job r
      × IsRetried now r.0
unfolding force_enqueue force_existing
force_enqueue-IsQueued now fresh job rows s target unused =
    elim (Option-cases (find_active job rows)) [
      | inl missing ↦
          subst (Forced now job) (ground (arith, target, missing))
            (insert_reset-Forced now fresh job rows s unused (find_active-none job rows missing))
      | inr (e, found) ↦
          let (stored, act) = find_active-some job rows e found in
          subst (Forced now job) (ground (arith, target, found))
            (existing e.state e refl stored act)
    ]
  where
    existing :
        (state : JobState) (e : Job)
        → e.state ≡ state
        → IsIn e rows
        → active_for job e ≡ true
        → Forced now job (force_existing now fresh job e rows)
    existing running e is i act = elim (Bool-cases (ltb now e.lease_expires_unix)) [
      | inl held ↦ (
        (e, rows),
        ground (arith, is, held),
        record { sound = s; stored = i; active = act },
        busy (ground (arith, is)) (ground (arith, held)),
      )
      | inr expired ↦
          subst (Forced now job) (ground (arith, is, expired))
            (replace_job-Forced now fresh job e rows s unused i act)
    ]
    existing pending e is i act =
        subst (Forced now job) (ground (arith, is)) (wake_job-Forced now job e rows s i act is)
    existing unset e is i act =
        subst (Forced now job) (ground (arith, is))
          (replace_job-Forced now fresh job e rows s unused i act)
    existing _ e is i act =
        subst (Forced now job) (ground (arith, is))
          (replace_job-Forced now fresh job e rows s unused i act)
