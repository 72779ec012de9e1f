-- ===== src/Panel/Automation/Leases.antt =====
-- FinishAutomationJob and RenewAutomationJobLease: they need the lease, and keep the table sound.
use ladder_airport.Base.{
  any, All, All-of, ok, err, ℕ, String, ◌≡◌, refl, ◌≢◌, true, false, List, [], ◌∷◌, arith,
  str_eq_iff,
}
use ladder_airport.Panel.Automation.Table.{JobState, Job, is_active, is_running, update_rows}
use ladder_airport.Panel.Automation.Sound.{lease_ok, IsSound, Shrinks, KeepsLease, update-IsSound}
use ladder_airport.Panel.Automation.{is_terminal, held_by, finish_row, lease_lost, finish}

pub finish_row-Shrinks :
    (id owner message : String) (state : JobState) (next now : ℕ) (r : Job)
    → owner ≢ ""
    → lease_ok r ≡ true
    → Shrinks (held_by id owner) (finish_row state message next now) r
unfolding finish_row held_by
finish_row-Shrinks id owner message state next now r nonempty leased h = record {
  active = λ _.
      is_active_running r.state
        (ground (arith, str_eq_iff r.lease_owner owner, str_eq_iff r.lease_owner ""));
  id = refl;
  type = refl;
  target_type = refl;
  target_id = refl;
}
  where
    is_active_running : (s : JobState) → is_running s ≡ true → is_active s ≡ true
    is_active_running s e = ground arith

pub finish_row-KeepsLease :
    (id owner message : String) (state : JobState) (next now : ℕ) (r : Job)
    → KeepsLease (held_by id owner) (finish_row state message next now) r
unfolding finish_row
finish_row-KeepsLease id owner message state next now r h = refl

not_held :
    (id owner message : String) (state : JobState) (next now : ℕ) (r : Job)
    → owner ≢ ""
    → held_by id owner (finish_row state message next now r) ≡ false
unfolding held_by finish_row
not_held id owner message state next now r nonempty = ground (arith, str_eq_iff "" owner)

released :
    (id owner message : String) (state : JobState) (next now : ℕ)
    → owner ≢ ""
    → (rows : List Job)
    → any
        (held_by id owner)
        (update_rows (held_by id owner) (finish_row state message next now) rows)
      ≡ false
unfolding update_rows
released id owner message state next now nonempty [] = refl
released id owner message state next now nonempty (r ∷ rs) = ground (
  arith,
  not_held id owner message state next now r nonempty,
  released id owner message state next now nonempty rs,
)

-- On a sound table, a worker with a name finishes a job in a terminal state exactly when a row with
-- that id is leased to it; the resulting table is sound, and no row is leased to it under that id.
pub finish_iff :
    (now : ℕ) (id owner : String) (state : JobState) (message : String) (next : ℕ) (rows : List Job)
    → IsSound rows
    → owner ≢ ""
    → is_terminal state ≡ true
    → (any (held_by id owner) rows ≡ true
        → (finish now id owner state message next rows
            ≡ ok (update_rows (held_by id owner) (finish_row state message next now) rows))
          × IsSound (update_rows (held_by id owner) (finish_row state message next now) rows)
          × (any
                (held_by id owner)
                (update_rows (held_by id owner) (finish_row state message next now) rows)
              ≡ false))
      × (any (held_by id owner) rows ≡ false
          → finish now id owner state message next rows ≡ err (lease_lost id))
unfolding finish
finish_iff now id owner state message next rows s nonempty terminal =
    let shrinks = all_shrink rows s.leases in
    let keeps =
      All-of (KeepsLease (held_by id owner) (finish_row state message next now))
        (finish_row-KeepsLease id owner message state next now) rows in
    let (done, sound) =
      update-IsSound (held_by id owner) (finish_row state message next now) rows s shrinks keeps in
    (
      λ held. (
        ground (arith, terminal, done, held),
        sound,
        released id owner message state next now nonempty rows,
      ),
      λ lost. ground (arith, terminal, done, lost),
    )
  where
    all_shrink :
        (rs : List Job)
        → All (λ r. lease_ok r ≡ true) rs
        → All (Shrinks (held_by id owner) (finish_row state message next now)) rs
    all_shrink [] _ = tt
    all_shrink (r ∷ rs) (h, hs) =
        (finish_row-Shrinks id owner message state next now r nonempty h, all_shrink rs hs)
