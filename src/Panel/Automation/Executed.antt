-- ===== src/Panel/Automation/Executed.antt =====
-- A pass of the runner, Runner.runOnce: it works through the jobs that it claims.
use ladder_airport.Base.{
  if◌then◌else◌, Bool-cases, any, All, Result-cases, ok, ℕ, String, ◌≡◌, refl, sym, ap, ◌∙◌, subst,
  ◌≢◌, inl, inr, Bool, true, false, Option, List, [], ◌∷◌, ◌++◌, arith, str_eq, str_eq_iff,
}
use ladder_airport.Panel.Automation.Table.{JobState, Job, unix, has_id, update_rows, update}
use ladder_airport.Panel.Automation.Sound.{unique_ids, IsSound}
use ladder_airport.Panel.Automation.Fencing.{claim-Claims}
use ladder_airport.Panel.Automation.Distinct.{claim_distinct}
use ladder_airport.Panel.Automation.Pass.{enqueue_due-IsSound}
use ladder_airport.Panel.Automation.Heartbeat.{renews, heartbeat-ok, heartbeat-err}
use ladder_airport.Panel.Automation.Answers.{IsAnswer, entries_of}
use ladder_airport.Panel.Automation.Outcome.{execute_lem}
use ladder_airport.Panel.Automation.Runner.{
  Runner, Audit, runner_lease, runner_batch, dispatch, verdict, heartbeat, execute, enqueue_due,
  execute_all, run_once,
}
use ladder_airport.Panel.Automation.{claim, held_by, finish_row, finish, renew_row, renew}

-- The jobs before the one at which the context is cancelled.
pub until : (String → Bool) → List Job → List Job
until cancelled_at [] = []
until cancelled_at (job ∷ jobs) =
    let rest = until cancelled_at jobs in if cancelled_at job.id then [] else job ∷ rest

-- The audit entries of jobs that were worked through in order, each with the answer of its service.
pub data IsWorked (r : Runner) : List Job → List Audit → Type 0 where
  none_left : IsWorked r [] []
  one_more :
      (job : Job) (answer : Option String) (jobs : List Job) (audits : List Audit)
      → IsAnswer r job answer
      → IsWorked r jobs audits
      → IsWorked r (job ∷ jobs) (entries_of r job answer ++ audits)

-- What one worker does for a job leaves its leases of the other jobs.
held-renewed :
    (id that owner : String) (now lease : ℕ) (rows : List Job)
    → any (held_by that owner) (update_rows (renews id owner) (renew_row now lease) rows)
      ≡ any (held_by that owner) rows
unfolding update_rows renews held_by has_id renew_row
held-renewed id that owner now lease [] = refl
held-renewed id that owner now lease (r ∷ rs) =
    ground (arith, held-renewed id that owner now lease rs)

renew-rows :
    (id owner : String) (now lease : ℕ) (rows rows' : List Job)
    → renew id owner now lease rows ≡ ok rows'
    → update_rows (renews id owner) (renew_row now lease) rows ≡ rows'
unfolding renew renews update
renew-rows id owner now lease rows rows' h = ground (arith, h)

held-heartbeat :
    (r : Runner) (id that : String) (ticks : List ℕ) (rows : List Job)
    → any (held_by that r.owner) (heartbeat r id ticks rows) ≡ any (held_by that r.owner) rows
held-heartbeat r id that [] rows = unfold heartbeat in refl
held-heartbeat r id that (t ∷ ts) rows =
    elim (Result-cases (renew id r.owner t (runner_lease r) rows)) [
      | inl (x, done) ↦
          ap (any (held_by that r.owner)) (sym (heartbeat-ok r id t ts rows x done))
          ∙ held-heartbeat r id that ts x
          ∙ ap (any (held_by that r.owner))
              (sym (renew-rows id r.owner t (runner_lease r) rows x done))
          ∙ held-renewed id that r.owner t (runner_lease r) rows
      | inr (e, failed_with) ↦
          ap (any (held_by that r.owner)) (sym (heartbeat-err r id t ts rows e failed_with))
    ]

held-finished :
    (id that owner message : String) (state : JobState) (next now : ℕ) (rows : List Job)
    → str_eq that id ≡ false
    → any
        (held_by that owner)
        (update_rows (held_by id owner) (finish_row state message next now) rows)
      ≡ any (held_by that owner) rows
unfolding update_rows held_by has_id finish_row
held-finished id that owner message state next now [] ne = refl
held-finished id that owner message state next now (r ∷ rs) ne = ground (
  arith,
  held-finished id that owner message state next now rs ne,
  ne,
  str_eq_iff r.id id,
  str_eq_iff r.id that,
  str_eq_iff that id,
)

finish-rows :
    (id owner message : String) (state : JobState) (next now : ℕ) (rows rows' : List Job)
    → finish now id owner state message next rows ≡ ok rows'
    → update_rows (held_by id owner) (finish_row state message next now) rows ≡ rows'
unfolding finish update
finish-rows id owner message state next now rows rows' h = ground (arith, h)

module _ (r : Runner) where
  execute-held :
      (started : ℕ) (ticks : List ℕ) (now : ℕ) (job : Job) (that : String) (rows : List Job)
      → str_eq that job.id ≡ false
      → any (held_by that r.owner) (execute r started ticks now job rows).0
        ≡ any (held_by that r.owner) rows
  execute-held started ticks now job that rows ne =
      let v = verdict started job (dispatch r job) in
      let beaten = heartbeat r job.id ticks rows in
      let held = any (held_by that r.owner) in
      elim (Result-cases
        (finish (unix now) job.id r.owner v.state v.message v.next_run_unix beaten)) [
          | inl (x, done) ↦
              let same : x ≡ (execute r started ticks now job rows).0 =
                unfold execute in (ground (arith, done)) in
              ap held (sym same)
              ∙ ap held (
                  sym (
                    finish-rows job.id r.owner v.message v.state v.next_run_unix (unix now) beaten x
                      done))
              ∙ held-finished job.id that r.owner v.message v.state v.next_run_unix (unix now)
                  beaten ne
              ∙ held-heartbeat r job.id that ticks rows
          | inr (e, failed_with) ↦
              let same : beaten ≡ (execute r started ticks now job rows).0 =
                unfold execute in (ground (arith, failed_with)) in
              ap held (sym same) ∙ held-heartbeat r job.id that ticks rows
        ]

  abbrev AllHeld : List Job → List Job → Type 0
  AllHeld rows jobs = All (λ j. any (held_by j.id r.owner) rows ≡ true) jobs

  held-rest :
      (started : ℕ) (ticks : List ℕ) (now : ℕ) (job : Job) (rows jobs : List Job)
      → any (has_id job.id) jobs ≡ false
      → AllHeld rows jobs
      → AllHeld (execute r started ticks now job rows).0 jobs
  unfolding has_id
  held-rest started ticks now job rows [] fresh held = tt
  held-rest started ticks now job rows (j ∷ js) fresh (h, hs) = (
    execute-held started ticks now job j.id rows (ground (arith, fresh)) ∙ h,
    held-rest started ticks now job rows js (ground (arith, fresh)) hs,
  )

  module _ (cancelled_at : String → Bool) (clock : String → ℕ × List ℕ × ℕ)
      (nonempty : r.owner ≢ "") where
    execute_all-IsWorked :
        (jobs rows : List Job)
        → IsSound rows
        → unique_ids jobs ≡ true
        → AllHeld rows jobs
        → IsSound (execute_all r cancelled_at clock jobs rows).0
          × IsWorked r (until cancelled_at jobs) (execute_all r cancelled_at clock jobs rows).1
    unfolding execute_all until
    execute_all-IsWorked [] rows s once held = (s, none_left)
    execute_all-IsWorked (job ∷ jobs) rows s once held = elim (Bool-cases (cancelled_at job.id)) [
      | inl stop ↦ rw stop (s, none_left)
      | inr goes_on ↦
          let (started, ticks, now) = clock job.id in
          let ran = execute_lem r started ticks now job rows s nonempty in
          let (first, others) = held in
          let (answer, is_answer, entries, _) = ran.1 first in
          let (sound, rest) =
            execute_all-IsWorked jobs (execute r started ticks now job rows).0 ran.0
              (unfold unique_ids in (ground (arith, once)))
              (held-rest started ticks now job rows jobs
                (unfold unique_ids in (ground (arith, once))) others) in
          rw goes_on (
            sound,
            subst
                (λ xs. IsWorked r (job ∷ until cancelled_at jobs) (
                  xs
                  ++ (execute_all r cancelled_at clock jobs
                      (execute r started ticks now job rows).0).1))
                (sym entries) (one_more job answer (until cancelled_at jobs) _ is_answer rest),
          )
    ]

    -- A pass of a worker with a name over a sound table, whatever targets are due and whatever the
    -- services answer: the claim after the enqueues succeeds, and the jobs that it returns, up to the
    -- one at which the context is cancelled, are worked through in their order. The audit entries of
    -- the pass are one for each of them, with the answer of its service, none for a job without a
    -- type. The table stays sound.
    pub run_once-IsWorked :
        (now : ℕ) (domains certificates : List (String × String)) (rows : List Job)
        → IsSound rows
        → (got : List Job × List Job) × (claim r.owner now (runner_lease r) (runner_batch r) (
              enqueue_due "certificate.issue" "protocol_certificate" now certificates
                (enqueue_due "dns.reconcile" "managed_domain" now domains rows))
            ≡ ok got)
          × IsSound (run_once r now cancelled_at clock domains certificates rows).0
          × IsWorked r
              (until cancelled_at got.0)
              (run_once r now cancelled_at clock domains certificates rows).1
    run_once-IsWorked now domains certificates rows s =
        let queued =
          enqueue_due "certificate.issue" "protocol_certificate" now certificates
            (enqueue_due "dns.reconcile" "managed_domain" now domains rows) in
        let queued_sound =
          enqueue_due-IsSound "certificate.issue" "protocol_certificate" now certificates _
            (enqueue_due-IsSound "dns.reconcile" "managed_domain" now domains rows s) in
        let (got, ran, k, _, _) =
          claim-Claims r.owner now (runner_lease r) (runner_batch r) queued nonempty queued_sound in
        let once =
          claim_distinct r.owner now (runner_lease r) (runner_batch r) queued got queued_sound.ids
            ran in
        let all_run : execute_all r cancelled_at clock got.0 got.1
            ≡ run_once r now cancelled_at clock domains certificates rows =
          unfold run_once in (ground (arith, ran)) in
        let (sound, worked) = execute_all-IsWorked got.0 got.1 k.sound once k.leased in
        (
          got,
          ran,
          subst {A = List Job × List Audit} (λ o. IsSound o.0) all_run sound,
          subst {A = List Job × List Audit} (λ o. IsWorked r (until cancelled_at got.0) o.1) all_run
              worked,
        )
