-- ===== src/Panel/Automation/Claims.antt =====
-- ClaimAutomationJobs: it takes no row that is under an unexpired lease, keeps the table sound, and
-- fences off the previous owner of what it claims.
use ladder_airport.Base.{
  leb, if◌then◌else◌, any, All, All-of, IsIn, here, there, ok, ℕ, ◌<◌, String, ◌≡◌, refl, Bool,
  true, false, ◌&&◌, ◌||◌, List, [], ◌∷◌, arith, str_eq, str_eq_refl,
}
use ladder_airport.Panel.Automation.Table.{
  JobState, Job, unix, is_running, is_waiting, has_id, update_rows, update,
}
use ladder_airport.Panel.Automation.Sound.{IsSound, Shrinks, KeepsLease, update-IsSound}
use ladder_airport.Panel.Automation.{
  claimable, lease_to, claimed, keep_claimed, claim_each, held_by,
}

takes : ℕ → Job → Job → Bool
takes now c r = has_id c.id r && claimable (unix now) r

lease_to-Shrinks :
    (owner : String) (now lease : ℕ) (c r : Job)
    → Shrinks (takes now c) (lease_to owner now lease) r
unfolding takes claimable lease_to
lease_to-Shrinks owner now lease c r h = record {
  active = λ _. ground arith;
  id = refl;
  type = refl;
  target_type = refl;
  target_id = refl;
}

lease_to-KeepsLease :
    (owner : String) (now lease : ℕ) (c r : Job)
    → KeepsLease (takes now c) (lease_to owner now lease) r
unfolding lease_to
lease_to-KeepsLease owner now lease c r h = ground arith

-- A running row whose lease has not expired at `now`.
pub record IsHeld (now : ℕ) (r : Job) : Type 0 where
  pub running : is_running r.state ≡ true
  pub unexpired : unix now < r.lease_expires_unix

IsIn-update_rows_miss :
    (p : Job → Bool) (f : Job → Job) (rows : List Job) (r : Job)
    → p r ≡ false
    → IsIn r rows
    → IsIn r (update_rows p f rows)
unfolding update_rows
IsIn-update_rows_miss p f [] r h i = elim i [ ]
IsIn-update_rows_miss p f (x ∷ xs) r h (here same) =
    let p_x : p x ≡ false = rw same at h in here (rw p_x same)
IsIn-update_rows_miss p f (x ∷ xs) r h (there i) = there (IsIn-update_rows_miss p f xs r h i)

takes-IsHeld : (now : ℕ) (c r : Job) → IsHeld now r → takes now c r ≡ false
unfolding takes claimable
takes-IsHeld now c r h =
    waiting_not_running r.state (leb r.lease_expires_unix (unix now)) (has_id c.id r)
      (str_eq r.lease_owner "") h.running (ground arith)
  where
    waiting_not_running :
        (s : JobState) (late mine free : Bool)
        → is_running s ≡ true
        → late ≡ false
        → (mine && (is_waiting s && (free || late) || is_running s && late)) ≡ false
    waiting_not_running s late mine free run l = ground arith

-- What a run of the claiming loop gives on a sound table.
pub record Claims (owner : String) (now lease : ℕ) (rows : List Job) (r : List Job × List Job)
    : Type 0 where
  pub sound : IsSound r.1
  pub held : (x : Job) → IsHeld now x → IsIn x rows → IsIn x r.1
  pub leased : All (λ j. any (held_by j.id owner) r.1 ≡ true) r.0
  pub kept : (id : String) → any (held_by id owner) rows ≡ true → any (held_by id owner) r.1 ≡ true

module _ (owner : String) (now lease : ℕ) where
  leases_out : Job → List Job → List Job
  leases_out c rows = update_rows (takes now c) (lease_to owner now lease) rows

  kept-leases_out :
      (c : Job) (id : String) (rows : List Job)
      → any (held_by id owner) rows ≡ true
      → any (held_by id owner) (leases_out c rows) ≡ true
  unfolding leases_out update_rows held_by has_id lease_to
  kept-leases_out c id [] h = h
  kept-leases_out c id (r ∷ rs) h = ground (arith, kept-leases_out c id rs, str_eq_refl owner)

  leased-leases_out :
      (c : Job) (rows : List Job)
      → any (takes now c) rows ≡ true
      → any (held_by c.id owner) (leases_out c rows) ≡ true
  unfolding leases_out update_rows held_by has_id lease_to takes
  leased-leases_out c [] h = cc
  leased-leases_out c (r ∷ rs) h = ground (arith, leased-leases_out c rs, str_eq_refl owner)

  claim_step :
      (c : Job) (rows : List Job)
      → IsSound rows
      → (update (λ r. has_id c.id r && claimable (unix now) r) (lease_to owner now lease) rows
          ≡ ok (leases_out c rows, any (takes now c) rows))
        × IsSound (leases_out c rows)
  unfolding leases_out takes
  claim_step c rows s =
      update-IsSound (takes now c) (lease_to owner now lease) rows s
        (All-of (Shrinks (takes now c) (lease_to owner now lease))
          (lease_to-Shrinks owner now lease c) rows)
        (All-of (KeepsLease (takes now c) (lease_to owner now lease))
          (lease_to-KeepsLease owner now lease c) rows)

  -- One candidate before the rest of the loop.
  Claims-step :
      (c : Job) (rows : List Job) (rest : List Job × List Job)
      → Claims owner now lease (leases_out c rows) rest
      → Claims owner now lease rows
          (keep_claimed (any (takes now c) rows) (claimed owner now lease c) rest)
  unfolding keep_claimed
  Claims-step c rows (jobs, rows') k = record {
    sound = k.sound;
    held = λ x h i. k.held x h (
        unfold leases_out in
        (IsIn-update_rows_miss (takes now c) (lease_to owner now lease) rows x
          (takes-IsHeld now c x h) i));
    leased = add_leased (any (takes now c) rows) (λ e. k.kept c.id (leased-leases_out c rows e));
    kept = λ id e. k.kept id (kept-leases_out c id rows e);
  }
    where
      add_leased :
          (b : Bool)
          → (b ≡ true → any (held_by c.id owner) rows' ≡ true)
          → All
              (λ j. any (held_by j.id owner) rows' ≡ true)
              (if b then claimed owner now lease c ∷ jobs else jobs)
      add_leased true e = (unfold claimed in (e refl), k.leased)
      add_leased false e = k.leased

  pub claim_each-Claims :
      (cs rows : List Job)
      → IsSound rows
      → (r : List Job × List Job) × (claim_each owner now lease cs rows ≡ ok r)
        × Claims owner now lease rows r
  unfolding claim_each
  claim_each-Claims [] rows s =
      (([], rows), refl, record { sound = s; held = λ x h i. i; leased = tt; kept = λ id e. e })
  claim_each-Claims (c ∷ cs) rows s =
      let (done, sound) = claim_step c rows s in
      let (r, ran, k) = claim_each-Claims cs (leases_out c rows) sound in
      (
        keep_claimed (any (takes now c) rows) (claimed owner now lease c) r,
        rw (done, ran) refl,
        Claims-step c rows r k,
      )
