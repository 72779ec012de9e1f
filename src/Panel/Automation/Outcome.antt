-- ===== src/Panel/Automation/Outcome.antt =====
-- What running one job does to the table: Runner.execute.
use mathlib.Core.Bool.{false≢true}
use ladder_airport.Panel.Automation.Leases.{finish_iff}
use ladder_airport.Panel.Automation.OneActive.{IsIn-update_rows}
use ladder_airport.Base.{
  Bool-cases, any, IsIn, here, there, ℕ, String, ◌≡◌, refl, ap, ◌∙◌, ◌≢◌, inl, inr, Bool, true,
  false, Option, List, [], ◌∷◌, arith,
}
use ladder_airport.Panel.Automation.Table.{Job, unix, has_id, update_rows}
use ladder_airport.Panel.Automation.Sound.{IsSound}
use ladder_airport.Panel.Automation.Runner.{
  Runner, Audit, dispatch, verdict, heartbeat, audit_of, add_automation_audit, execute,
}
use ladder_airport.Panel.Automation.{is_terminal, held_by, finish_row}
use ladder_airport.Panel.Automation.Heartbeat.{heartbeat-SameLease}
use ladder_airport.Panel.Automation.Answers.{
  IsAnswer, IsEnded, entries_of, dispatch-IsAnswer, ended_row, ended_row-IsEnded, audit-entries,
}

verdict-terminal :
    (started : ℕ) (job : Job) (o : Option String) → is_terminal (verdict started job o).state ≡ true
unfolding verdict
verdict-terminal started job o = ground arith

any-row :
    (q : Job → Bool) (rows : List Job) → any q rows ≡ true → (x : Job) × IsIn x rows × (q x ≡ true)
any-row q [] h = absurd (false≢true h)
any-row q (r ∷ rs) h = elim (Bool-cases (q r)) [
  | inl hit ↦ (r, here refl, hit)
  | inr miss ↦ let (x, i, e) = any-row q rs (ground (arith, miss)) in (x, there i, e)
]

-- Running a job on a sound table, whatever the services answer. While its worker holds the lease, the
-- job's row is released: as a success if the service of its type answers without an error, for
-- another try after 1, 5, 15, 60 or 360 minutes if it answers with one, and as failed if there is no
-- such type; and one audit entry says the same, none for a job without a type. Without the lease
-- nothing is stored for it and nothing is audited. The table stays sound.
pub execute_lem :
    (r : Runner) (started : ℕ) (ticks : List ℕ) (now : ℕ) (job : Job) (rows : List Job)
    → IsSound rows
    → r.owner ≢ ""
    → IsSound (execute r started ticks now job rows).0
      × (any (held_by job.id r.owner) rows ≡ true
          → (answer : Option String) × IsAnswer r job answer
            × ((execute r started ticks now job rows).1 ≡ entries_of r job answer)
            × ((x : Job) × IsIn x (execute r started ticks now job rows).0
                × (has_id job.id x ≡ true)
                × (x.lease_owner ≡ "")
                × IsEnded started job answer x))
      × (any (held_by job.id r.owner) rows ≡ false
          → execute r started ticks now job rows ≡ (heartbeat r job.id ticks rows, []))
execute_lem r started ticks now job rows s nonempty =
    let beaten = heartbeat-SameLease r job.id ticks rows s in
    let answer = dispatch r job in
    let v = verdict started job answer in
    let (to, from) =
      finish_iff (unix now) job.id r.owner v.state v.message v.next_run_unix
        (heartbeat r job.id ticks rows) beaten.sound nonempty
        (verdict-terminal started job answer) in
    elim (Bool-cases (any (held_by job.id r.owner) rows)) [
      | inl held ↦
          let (done, sound, _) = to (beaten.lease ∙ held) in
          let (x, i, mine) =
            any-row (held_by job.id r.owner) (heartbeat r job.id ticks rows)
              (beaten.lease ∙ held) in
          let ended : execute r started ticks now job rows ≡ (
            update_rows (held_by job.id r.owner)
                (finish_row v.state v.message v.next_run_unix (unix now))
                (heartbeat r job.id ticks rows),
            add_automation_audit (audit_of r job v),
          ) =
            unfold execute in (ground (arith, done)) in
          (
            rw ended sound,
            λ _. (
              answer,
              dispatch-IsAnswer r job,
              ap (λ (o : List Job × List Audit). o.1) ended ∙ audit-entries r started job answer,
              (
                ended_row started job answer (unix now) x,
                unfold ended_row in
                    (rw ended (IsIn-update_rows (held_by job.id r.owner) _ _ x i mine)),
                unfold ended_row held_by has_id finish_row in (ground (arith, mine)),
                unfold ended_row finish_row in refl,
                ended_row-IsEnded started job answer (unix now) x,
              ),
            ),
            λ h. absurd (cc (held, h)),
          )
      | inr lost ↦
          let ended : execute r started ticks now job rows ≡ (heartbeat r job.id ticks rows, []) =
            unfold execute in (ground (arith, from (beaten.lease ∙ lost))) in
          (rw ended beaten.sound, λ h. absurd (cc (lost, h)), λ _. ended)
    ]
