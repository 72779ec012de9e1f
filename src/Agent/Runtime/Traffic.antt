-- ===== src/Agent/Runtime/Traffic.antt =====
-- The cumulative traffic across the changes of the running instance.
use ladder_airport.Agent.Runtime.Apply.{reload_eq}
use ladder_airport.Agent.Runtime.Steps.{
  made, booted, StartCase, start_instance-cases, RestartCase, start_from_json-cases, ApplyCase,
  apply-cases, has_previous, restore-tries, restore-gives_up, StartAgainCase, start-cases, gave_up,
  started, refused, tried, rejected, kept, reloaded, already, no_config, again,
}
use ladder_airport.Agent.Runtime.{
  BoxRuntime, add64, new_tracker, save_traffic, load_traffic, start_persist_loop, stop_persist_loop,
  new_box_runtime, stop_instance, set_last_error, metrics, Outcome, start_instance, start_from_json,
  restored, restore, write_current, after_start, reload, apply, start, stop,
}
use ladder_airport.Agent.Runtime.Config.{Host}
use ladder_airport.Agent.Runtime.Events.{
  Event, step, run, applied, started_again, stopped_by_user, passed, ticked,
}
use ladder_airport.Base.{
  if◌then◌else◌, Bool-cases, all, ℕ, String, ◌≡◌, refl, sym, ap, ◌∙◌, subst, inl, inr, Bool, true,
  false, Option, none, some, List, [], ◌∷◌, arith, str_eq,
}

abbrev pub totals : BoxRuntime → ℕ × ℕ
totals r = ((metrics r).uplink_bytes, (metrics r).downlink_bytes)

stop_instance-totals : (r : BoxRuntime) → totals (stop_instance r) ≡ totals r
unfolding metrics stop_instance save_traffic add64
stop_instance-totals r = ground arith

stop_instance-tracker : (r : BoxRuntime) → (stop_instance r).tracker ≡ none
unfolding stop_instance save_traffic
stop_instance-tracker r = ground arith

stop_persist-totals : (r : BoxRuntime) → totals (stop_persist_loop r) ≡ totals r
unfolding metrics stop_persist_loop
stop_persist-totals r = refl

persist-totals : (r : BoxRuntime) → totals (start_persist_loop r) ≡ totals r
unfolding metrics start_persist_loop
persist-totals r = ground arith

set_last_error-totals : (m : String) (r : BoxRuntime) → totals (set_last_error m r) ≡ totals r
unfolding metrics set_last_error
set_last_error-totals m r = refl

booted-totals :
    (now : ℕ) (config hash : String) (r : BoxRuntime)
    → r.tracker ≡ none
    → totals (booted now config hash r) ≡ totals r
unfolding metrics new_tracker
booted-totals now config hash r e = ground (arith, e)

made-totals : (r : BoxRuntime) → totals (made r) ≡ totals r
unfolding metrics
made-totals r = refl

module _ (h : Host) (now : ℕ) where
  write_current-totals :
      (prepared : String) (r : BoxRuntime) → totals (write_current h now prepared r) ≡ totals r
  unfolding metrics write_current set_last_error
  write_current-totals prepared r = ground arith

  -- A start on a runtime without a tracker, which leaves none behind when it fails.
  record Attempted (r : BoxRuntime) (o : Outcome) : Type 0 where
    totals_same : totals o.1 ≡ totals r
    failed_bare : (e : String) → o.0 ≡ some e → o.1.tracker ≡ none

  start_instance-Attempted :
      (config hash : String) (r : BoxRuntime)
      → r.tracker ≡ none
      → Attempted r (start_instance h now config hash r)
  start_instance-Attempted config hash r bare = go (start_instance-cases h now config hash r)
    where
      go :
          StartCase now config hash r (start_instance h now config hash r)
          → Attempted r (start_instance h now config hash r)
      go (gave_up e is) =
          subst {A = Outcome} (Attempted r) (sym is)
            (record { totals_same = made-totals r; failed_bare = λ _ _. bare })
      go (started is) = subst {A = Outcome} (Attempted r) (sym is) (record {
        totals_same = booted-totals now config hash r bare;
        failed_bare = λ e bad. absurd (cc bad);
      })

  start_from_json-totals :
      (config hash : String) (r : BoxRuntime)
      → r.tracker ≡ none
      → totals (start_from_json h now config hash r).1 ≡ totals r
  start_from_json-totals config hash r bare = go (start_from_json-cases h now config hash r)
    where
      go :
          RestartCase h now config hash r (start_from_json h now config hash r)
          → totals (start_from_json h now config hash r).1 ≡ totals r
      go (refused e is) = ap (λ (o : Outcome). totals o.1) is
      go (tried prepared prep is) =
          ap (λ (o : Outcome). totals o.1) is
          ∙ (start_instance-Attempted prepared hash r bare).totals_same

  restored-totals :
      (e : String) (o : Option String) (r : BoxRuntime) → totals (restored h now e o r).1 ≡ totals r
  unfolding restored
  restored-totals e none r = set_last_error-totals _ r
  restored-totals e (some rest) r = set_last_error-totals _ r

  restore-totals :
      (e prepared prev_json prev_hash : String) (r : BoxRuntime)
      → r.tracker ≡ none
      → totals (restore h now e prepared prev_json prev_hash r).1 ≡ totals r
  restore-totals e prepared prev_json prev_hash r bare =
      elim (Bool-cases (has_previous h now prepared prev_json)) [
        | inl tries ↦
            ap (λ (o : Outcome). totals o.1)
              (restore-tries h now e prepared prev_json prev_hash r tries)
            ∙ restored-totals e _ _
            ∙ start_from_json-totals prev_json prev_hash r bare
        | inr fails ↦
            ap (λ (o : Outcome). totals o.1)
              (restore-gives_up h now e prepared prev_json prev_hash r fails)
            ∙ set_last_error-totals e r
      ]

  after_start-totals :
      (config prev_json prev_hash : String) (r : BoxRuntime) (o : Option String) (x : BoxRuntime)
      → Attempted r (o, x)
      → totals (after_start h now config prev_json prev_hash o x).1 ≡ totals r
  unfolding after_start
  after_start-totals config prev_json prev_hash r none x t =
      write_current-totals config x ∙ t.totals_same
  after_start-totals config prev_json prev_hash r (some e) x t =
      restore-totals e config prev_json prev_hash x (t.failed_bare e refl) ∙ t.totals_same

  reload-totals :
      (config hash : String) (r : BoxRuntime) → totals (reload h now config hash r).1 ≡ totals r
  reload-totals config hash r =
      ap (λ (o : Outcome). totals o.1) (reload_eq h now config hash r)
      ∙ after_start-totals config r.config_json r.config_hash (stop_instance r) _ _
          (start_instance-Attempted config hash (stop_instance r) (stop_instance-tracker r))
      ∙ stop_instance-totals r

  -- Whatever an `Apply` does and whichever step of it fails, the cumulative uplink and downlink
  -- bytes that `Metrics` reports are those of before.
  pub apply-totals :
      (config hash : String) (r : BoxRuntime) → totals (apply h now config hash r).1 ≡ totals r
  apply-totals config hash r = go (apply-cases h now config hash r)
    where
      p : BoxRuntime
      p = start_persist_loop r

      go :
          ApplyCase h now config hash p (apply h now config hash r)
          → totals (apply h now config hash r).1 ≡ totals r
      go (rejected e is) =
          ap (λ (o : Outcome). totals o.1) is ∙ set_last_error-totals e p ∙ persist-totals r
      go (kept c prep same is) = ap (λ (o : Outcome). totals o.1) is ∙ persist-totals r
      go (reloaded c prep opts parsed differs is) =
          ap (λ (o : Outcome). totals o.1) is ∙ reload-totals c hash p ∙ persist-totals r

  start-totals : (r : BoxRuntime) → totals (start h now r).1 ≡ totals r
  start-totals r = go (start-cases h now r)
    where
      go : StartAgainCase h now r (start h now r) → totals (start h now r).1 ≡ totals r
      go (already up is) = ap (λ (o : Outcome). totals o.1) is
      go (no_config empty e is) = ap (λ (o : Outcome). totals o.1) is
      go (again is) =
          ap (λ (o : Outcome). totals o.1) is ∙ apply-totals r.config_json r.config_hash r

stop-totals : (r : BoxRuntime) → totals (stop r).1 ≡ totals r
unfolding stop
stop-totals r = stop_instance-totals (stop_persist_loop r) ∙ stop_persist-totals r

-- Every event but the traffic itself.
unfoldable pub is_call : Event → Bool
is_call (passed t) = false
is_call _ = true

tick-totals : (r : BoxRuntime) → totals (if r.persisting then save_traffic r else r) ≡ totals r
unfolding metrics save_traffic
tick-totals r = ground arith

step-totals :
    (h : Host) (e : Event) (r : BoxRuntime) → is_call e ≡ true → totals (step h e r) ≡ totals r
unfolding step is_call
step-totals h (applied now config hash) r call = apply-totals h now config hash r
step-totals h (started_again now) r call = start-totals h now r
step-totals h stopped_by_user r call = stop-totals r
step-totals h (passed t) r call = absurd (cc call)
step-totals h ticked r call = tick-totals r

-- Any sequence of applies, starts, stops and ticks of the traffic loop, with whatever failures, keeps the cumulative uplink and
-- downlink bytes that `Metrics` reports, when no traffic passes in between.
pub run-totals :
    (h : Host) (es : List Event) (r : BoxRuntime)
    → all is_call es ≡ true
    → totals (run h es r) ≡ totals r
unfolding run
run-totals h [] r calls = refl
run-totals h (e ∷ es) r calls =
    run-totals h es (step h e r) (ground (arith, calls)) ∙ step-totals h e r (ground (arith, calls))

-- A runtime that keeps its state on disk and is stopped: if the write of the stop works and the next
-- process reads it, its new runtime reports the same cumulative bytes from the start; if the write
-- fails, the file is the one that was there before.
pub restart-totals :
    (r : BoxRuntime) (writable : ℕ → Bool)
    → str_eq r.data_dir "" ≡ false
    → (r.writable r.writes ≡ true
        → totals (new_box_runtime r.data_dir (stop r).1.saved_traffic writable) ≡ totals r)
      × (r.writable r.writes ≡ false → (stop r).1.saved_traffic ≡ r.saved_traffic)
unfolding metrics stop stop_instance stop_persist_loop save_traffic new_box_runtime load_traffic
    start_persist_loop add64
restart-totals r writable on_disk =
    (λ works. ground (arith, on_disk, works), λ fails. ground (arith, on_disk, fails))
