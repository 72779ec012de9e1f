-- ===== src/Panel/Automation/Heartbeat.antt =====
-- The heartbeat of a running job: it keeps the table sound, and the leases where they are.

use ladder_airport.Base.{
  any, All-of, Result-cases, err, ok, ℕ, String, ◌≡◌, refl, ◌∙◌, subst, inl, inr, Bool, ◌&&◌, List,
  [], ◌∷◌, arith, str_eq,
}
use ladder_airport.Panel.Automation.Table.{Job, is_running, has_id, update_rows}
use ladder_airport.Panel.Automation.Sound.{IsSound, Shrinks, KeepsLease, update-IsSound}
use ladder_airport.Panel.Automation.Runner.{Runner, runner_lease, heartbeat}
use ladder_airport.Panel.Automation.{held_by, renew_row, renew}

unfoldable pub renews : String → String → Job → Bool
renews id owner r = has_id id r && is_running r.state && str_eq r.lease_owner owner

renew_row-Shrinks :
    (id owner : String) (now lease : ℕ) (r : Job)
    → Shrinks (renews id owner) (renew_row now lease) r
unfolding renew_row
renew_row-Shrinks id owner now lease r h = record {
  active = λ e. e;
  id = refl;
  type = refl;
  target_type = refl;
  target_id = refl;
}

renew_row-KeepsLease :
    (id owner : String) (now lease : ℕ) (r : Job)
    → KeepsLease (renews id owner) (renew_row now lease) r
unfolding renew_row renews
renew_row-KeepsLease id owner now lease r h = ground arith

any-held_by-renew :
    (id owner : String) (now lease : ℕ) (rows : List Job)
    → any (held_by id owner) (update_rows (renews id owner) (renew_row now lease) rows)
      ≡ any (held_by id owner) rows
unfolding update_rows held_by has_id renew_row
any-held_by-renew id owner now lease [] = refl
any-held_by-renew id owner now lease (r ∷ rs) =
    ground (arith, any-held_by-renew id owner now lease rs)

-- A renewal keeps the table sound, and nobody's lease changes hands.
pub renew-IsSound :
    (id owner : String) (now lease : ℕ) (rows rows' : List Job)
    → IsSound rows
    → renew id owner now lease rows ≡ ok rows'
    → IsSound rows' × (any (held_by id owner) rows' ≡ any (held_by id owner) rows)
unfolding renew renews
renew-IsSound id owner now lease rows rows' s h =
    let (done, sound) =
      update-IsSound (renews id owner) (renew_row now lease) rows s
        (All-of (Shrinks (renews id owner) (renew_row now lease))
          (renew_row-Shrinks id owner now lease) rows)
        (All-of (KeepsLease (renews id owner) (renew_row now lease))
          (renew_row-KeepsLease id owner now lease) rows) in
    let same : update_rows (renews id owner) (renew_row now lease) rows ≡ rows' =
      ground (arith, done) in
    (
      subst IsSound same sound,
      subst (λ x. any (held_by id owner) x ≡ any (held_by id owner) rows) same
          (any-held_by-renew id owner now lease rows),
    )

-- `y` is a sound table in which the worker has the leases that it has in `x`.
pub record SameLease (id owner : String) (x y : List Job) : Type 0 where
  pub sound : IsSound y
  pub lease : any (held_by id owner) y ≡ any (held_by id owner) x

pub heartbeat-ok :
    (r : Runner) (id : String) (t : ℕ) (ts : List ℕ) (rows x : List Job)
    → renew id r.owner t (runner_lease r) rows ≡ ok x
    → heartbeat r id ts x ≡ heartbeat r id (t ∷ ts) rows
unfolding heartbeat
heartbeat-ok r id t ts rows x h = ground (arith, h)

pub heartbeat-err :
    (r : Runner) (id : String) (t : ℕ) (ts : List ℕ) (rows : List Job) (e : String)
    → renew id r.owner t (runner_lease r) rows ≡ err e
    → rows ≡ heartbeat r id (t ∷ ts) rows
unfolding heartbeat
heartbeat-err r id t ts rows e h = ground (arith, h)

beat-SameLease :
    (r : Runner) (id : String) (t : ℕ) (ts : List ℕ) (rows : List Job)
    → IsSound rows
    → ((x : List Job) → IsSound x → SameLease id r.owner x (heartbeat r id ts x))
    → SameLease id r.owner rows (heartbeat r id (t ∷ ts) rows)
beat-SameLease r id t ts rows s rest =
    elim (Result-cases (renew id r.owner t (runner_lease r) rows)) [
      | inl (x, done) ↦
          let (sound, lease) = renew-IsSound id r.owner t (runner_lease r) rows x s done in
          let more = rest x sound in
          subst (SameLease id r.owner rows) (heartbeat-ok r id t ts rows x done)
            (record { sound = more.sound; lease = more.lease ∙ lease })
      | inr (e, failed_with) ↦
          subst (SameLease id r.owner rows) (heartbeat-err r id t ts rows e failed_with)
            (record { sound = s; lease = refl })
    ]

pub heartbeat-SameLease :
    (r : Runner) (id : String) (ticks : List ℕ) (rows : List Job)
    → IsSound rows
    → SameLease id r.owner rows (heartbeat r id ticks rows)
heartbeat-SameLease r id [] rows s = unfold heartbeat in (record { sound = s; lease = refl })
heartbeat-SameLease r id (t ∷ ts) rows s =
    beat-SameLease r id t ts rows s (heartbeat-SameLease r id ts)
