-- ===== src/Agent/Runtime/Single.antt =====
-- At most one instance runs, whatever the operations and their failures.
use Prim.Native.String.{◌++◌ as concat}
use ladder_airport.Agent.Runtime.Steps.{
  StartCase, start_instance-cases, RestartCase, start_from_json-cases, ApplyCase, apply-cases,
  has_previous, restore-tries, restore-gives_up, StartAgainCase, start-cases, gave_up, started,
  refused, tried, rejected, kept, reloaded, already, no_config, again,
}
use ladder_airport.Agent.Runtime.Config.{Host}
use ladder_airport.Agent.Runtime.{
  Tracker, BoxRuntime, new_tracker, save_traffic, start_persist_loop, stop_persist_loop,
  close_instance, stop_instance, set_last_error, Outcome, start_instance, start_from_json, restored,
  restore, write_current, after_start, reload, apply, start, stop, stopped, running,
}
use ladder_airport.Base.{
  Bool-cases, Option-cases, ℕ, String, ◌≡◌, refl, sym, ap, subst, inl, inr, false, Option, none,
  some, [], ◌∷◌, arith, str_eq,
}

-- Nothing runs, or the one instance that was started and not closed is the runtime's own; the state
-- says which.
pub data IsSingle (r : BoxRuntime) : Type 0 where
  idle : r.instance_id ≡ none → r.live ≡ [] → r.state ≡ stopped → r.tracker ≡ none → IsSingle r
  busy :
      (i : ℕ) (t : Tracker)
      → r.instance_id ≡ some i
      → r.live ≡ i ∷ []
      → r.state ≡ running
      → r.tracker ≡ some t
      → IsSingle r

pub record IsIdle (r : BoxRuntime) : Type 0 where
  pub instance_id : r.instance_id ≡ none
  pub live : r.live ≡ []
  pub state : r.state ≡ stopped
  pub tracker : r.tracker ≡ none

pub idle_single : (r : BoxRuntime) → IsIdle r → IsSingle r
idle_single r h = idle h.instance_id h.live h.state h.tracker

pub stop_instance-IsIdle : (r : BoxRuntime) → IsSingle r → IsIdle (stop_instance r)
unfolding stop_instance save_traffic close_instance
stop_instance-IsIdle r (idle a b c d) = record {
  instance_id = ground arith;
  live = ground arith;
  state = ground arith;
  tracker = ground arith;
}
stop_instance-IsIdle r (busy i t a b c d) = record {
  instance_id = ground arith;
  live = ground arith;
  state = ground arith;
  tracker = ground arith;
}

pub set_last_error-IsSingle :
    (m : String) (r : BoxRuntime) → IsSingle r → IsSingle (set_last_error m r)
unfolding set_last_error
set_last_error-IsSingle m r (idle a b c d) = idle a b (ground (arith, a)) d
set_last_error-IsSingle m r (busy i t a b c d) = busy i t a b (ground (arith, a)) d

persist-IsSingle : (r : BoxRuntime) → IsSingle r → IsSingle (start_persist_loop r)
unfolding start_persist_loop
persist-IsSingle r (idle a b c d) = idle (ground arith) (ground arith) (ground arith) (ground arith)
persist-IsSingle r (busy i t a b c d) =
    busy i t (ground arith) (ground arith) (ground arith) (ground arith)

write_current-IsSingle :
    (h : Host) (now : ℕ) (prepared : String) (r : BoxRuntime)
    → IsSingle r
    → IsSingle (write_current h now prepared r)
unfolding write_current
write_current-IsSingle h now prepared r s = elim (Option-cases (h.write_file prepared)) [
  | inl fine ↦ subst IsSingle (ground (arith, fine)) s
  | inr (e, bad) ↦ elim (Bool-cases (str_eq r.data_dir "")) [
    | inl nowhere ↦ subst IsSingle (ground (arith, nowhere)) s
    | inr somewhere ↦
        subst IsSingle (ground (arith, somewhere, bad))
          (set_last_error-IsSingle (concat "代理实例正在运行，但写入 current.json 失败：" e) r s)
  ]
]

-- A start on an idle runtime.
data Attempt (o : Outcome) : Type 0 where
  up : o.0 ≡ none → IsSingle o.1 → Attempt o
  down : (e : String) → o.0 ≡ some e → IsIdle o.1 → Attempt o

Attempt-single : (o : Outcome) → Attempt o → IsSingle o.1
Attempt-single o (up e s) = s
Attempt-single o (down e x s) = idle_single o.1 s

module _ (h : Host) (now : ℕ) where
  start_instance-Attempt :
      (config hash : String) (r : BoxRuntime)
      → IsIdle r
      → Attempt (start_instance h now config hash r)
  start_instance-Attempt config hash r s = go (start_instance-cases h now config hash r)
    where
      go :
          StartCase now config hash r (start_instance h now config hash r)
          → Attempt (start_instance h now config hash r)
      go (gave_up e same) = subst Attempt (sym same) (
          down e refl (record {
            instance_id = s.instance_id;
            live = s.live;
            state = s.state;
            tracker = s.tracker;
          }))
      go (started same) =
          subst Attempt (sym same)
            (up refl (busy r.created new_tracker refl (ap (λ x. r.created ∷ x) s.live) refl refl))

  start_from_json-Attempt :
      (config hash : String) (r : BoxRuntime)
      → IsIdle r
      → Attempt (start_from_json h now config hash r)
  start_from_json-Attempt config hash r s = go (start_from_json-cases h now config hash r)
    where
      go :
          RestartCase h now config hash r (start_from_json h now config hash r)
          → Attempt (start_from_json h now config hash r)
      go (refused e same) = subst Attempt (sym same) (down e refl s)
      go (tried prepared good same) =
          subst Attempt (sym same) (start_instance-Attempt prepared hash r s)

  restored-IsSingle :
      (e : String) (o : Option String) (r : BoxRuntime)
      → IsSingle r
      → IsSingle (restored h now e o r).1
  unfolding restored
  restored-IsSingle e none r s = set_last_error-IsSingle _ r s
  restored-IsSingle e (some rest) r s = set_last_error-IsSingle _ r s

  restore-IsSingle :
      (e prepared prev_json prev_hash : String) (r : BoxRuntime)
      → IsIdle r
      → IsSingle (restore h now e prepared prev_json prev_hash r).1
  restore-IsSingle e prepared prev_json prev_hash r s =
      let again = start_from_json h now prev_json prev_hash r in
      let done =
        restored-IsSingle e again.0 again.1
          (Attempt-single again (start_from_json-Attempt prev_json prev_hash r s)) in
      elim (Bool-cases (has_previous h now prepared prev_json)) [
        | inl tries ↦
            let same = restore-tries h now e prepared prev_json prev_hash r tries in
            subst {A = Outcome} (λ o. IsSingle o.1) (sym same) done
        | inr fails ↦
            let same = restore-gives_up h now e prepared prev_json prev_hash r fails in
            subst {A = Outcome} (λ o. IsSingle o.1) (sym same)
              (set_last_error-IsSingle e r (idle_single r s))
      ]

  reload-IsSingle :
      (prepared hash : String) (r : BoxRuntime)
      → IsSingle r
      → IsSingle (reload h now prepared hash r).1
  unfolding reload
  reload-IsSingle prepared hash r s =
      let first = start_instance h now prepared hash (stop_instance r) in
      go first.0 first.1
        (start_instance-Attempt prepared hash (stop_instance r) (stop_instance-IsIdle r s))
    where
      go :
          (o : Option String) (x : BoxRuntime)
          → Attempt (o, x)
          → IsSingle (after_start h now prepared r.config_json r.config_hash o x).1
      go none x (up e t) = unfold after_start in (write_current-IsSingle h now prepared x t)
      go none x (down e bad t) = absurd (cc bad)
      go (some e) x (up bad t) = absurd (cc bad)
      go (some e) x (down e' _ t) =
          unfold after_start in (restore-IsSingle e prepared r.config_json r.config_hash x t)

  pub apply-IsSingle :
      (config hash : String) (r : BoxRuntime) → IsSingle r → IsSingle (apply h now config hash r).1
  apply-IsSingle config hash r s = go (apply-cases h now config hash r)
    where
      p : BoxRuntime
      p = start_persist_loop r

      go :
          ApplyCase h now config hash p (apply h now config hash r)
          → IsSingle (apply h now config hash r).1
      go (rejected e same) =
          subst {A = Outcome} (λ o. IsSingle o.1) (sym same)
            (set_last_error-IsSingle e p (persist-IsSingle r s))
      go (kept prepared good is same) =
          subst {A = Outcome} (λ o. IsSingle o.1) (sym same) (persist-IsSingle r s)
      go (reloaded prepared good opts parsed differs same) =
          subst {A = Outcome} (λ o. IsSingle o.1) (sym same)
            (reload-IsSingle prepared hash p (persist-IsSingle r s))

  pub start-IsSingle : (r : BoxRuntime) → IsSingle r → IsSingle (start h now r).1
  start-IsSingle r s = go (start-cases h now r)
    where
      go : StartAgainCase h now r (start h now r) → IsSingle (start h now r).1
      go (already is_up same) = subst {A = Outcome} (λ o. IsSingle o.1) (sym same) s
      go (no_config empty e same) = subst {A = Outcome} (λ o. IsSingle o.1) (sym same) s
      go (again same) =
          subst {A = Outcome} (λ o. IsSingle o.1) (sym same)
            (apply-IsSingle r.config_json r.config_hash r s)

pub stop-IsIdle : (r : BoxRuntime) → IsSingle r → IsIdle (stop r).1
unfolding stop stop_persist_loop
stop-IsIdle r (idle a b c d) = stop_instance-IsIdle (record r { persisting = false }) (idle a b c d)
stop-IsIdle r (busy i t a b c d) =
    stop_instance-IsIdle (record r { persisting = false }) (busy i t a b c d)
