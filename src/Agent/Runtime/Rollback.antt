-- ===== src/Agent/Runtime/Rollback.antt =====
-- The configuration that is kept for the next start, when an `Apply` fails.
use ladder_airport.Agent.Runtime.{
  Tracker, BoxRuntime, save_traffic, load_traffic, start_persist_loop, stop_persist_loop,
  new_box_runtime, Outcome, apply, start, stop,
}
use ladder_airport.Agent.Runtime.Config.{Host, IsCodec, prepare_config_idem}
use ladder_airport.Base.{
  if◌then◌else◌, ℕ, String, ◌≡◌, sym, ap, subst, Bool, false, Option, some, List, [], ◌∷◌, arith,
}
use ladder_airport.Agent.Runtime.Events.{
  Event, record_traffic, step, run, applied, started_again, stopped_by_user, passed, ticked,
}
use ladder_airport.Agent.Runtime.Steps.{StartAgainCase, start-cases, already, no_config, again}
use ladder_airport.Agent.Runtime.Stored.{
  stored, stop_instance-stored, IsPrepared, Stores, apply-Stores, nothing, prepared_one,
  kept_stored, replaced,
}

module _ (h : Host) where
  module _ (now : ℕ) where
    Stores-IsPrepared :
        IsCodec h
        → (config hash : String) (r : BoxRuntime) (o : Outcome) → IsPrepared h r.config_json
        → Stores h config hash r o
        → IsPrepared h (o.1).config_json
    Stores-IsPrepared codec config hash r o prepared (kept_stored e) =
        subst (IsPrepared h) (sym (ap (λ (s : String × String). s.0) e)) prepared
    Stores-IsPrepared codec config hash r o prepared (replaced done c prep e) =
        subst (IsPrepared h) (sym (ap (λ (s : String × String). s.0) e))
          (prepared_one c (prepare_config_idem h codec config c prep))

    start-IsPrepared :
        IsCodec h
        → (r : BoxRuntime) → IsPrepared h r.config_json
        → IsPrepared h ((start h now r).1).config_json
    start-IsPrepared codec r prepared = go (start-cases h now r)
      where
        go : StartAgainCase h now r (start h now r) → IsPrepared h ((start h now r).1).config_json
        go (already up is) =
            subst {A = Outcome} (λ o. IsPrepared h (o.1).config_json) (sym is) prepared
        go (no_config empty e is) =
            subst {A = Outcome} (λ o. IsPrepared h (o.1).config_json) (sym is) prepared
        go (again is) =
            subst {A = Outcome} (λ o. IsPrepared h (o.1).config_json) (sym is)
              (Stores-IsPrepared codec r.config_json r.config_hash r
                (apply h now r.config_json r.config_hash r) prepared
                (apply-Stores h now r.config_json r.config_hash r prepared))

  stop-stored : (r : BoxRuntime) → stored (stop r).1 ≡ stored r
  unfolding stop stop_persist_loop
  stop-stored r = stop_instance-stored (record r { persisting = false })

  record_traffic-stored : (t : Tracker) (r : BoxRuntime) → stored (record_traffic t r) ≡ stored r
  unfolding record_traffic
  record_traffic-stored t r = ground arith

  tick-stored : (r : BoxRuntime) → stored (if r.persisting then save_traffic r else r) ≡ stored r
  unfolding save_traffic
  tick-stored r = ground arith

  step-IsPrepared :
      IsCodec h
      → (e : Event) (r : BoxRuntime) → IsPrepared h r.config_json
      → IsPrepared h (step h e r).config_json
  unfolding step
  step-IsPrepared codec (applied now config hash) r p =
      Stores-IsPrepared now codec config hash r (apply h now config hash r) p
        (apply-Stores h now config hash r p)
  step-IsPrepared codec (started_again now) r p = start-IsPrepared now codec r p
  step-IsPrepared codec stopped_by_user r p =
      subst (IsPrepared h) (sym (ap (λ (s : String × String). s.0) (stop-stored r))) p
  step-IsPrepared codec ticked r p =
      subst (IsPrepared h) (sym (ap (λ (s : String × String). s.0) (tick-stored r))) p
  step-IsPrepared codec (passed t) r p =
      subst (IsPrepared h) (sym (ap (λ (s : String × String). s.0) (record_traffic-stored t r))) p

  run-IsPrepared :
      IsCodec h
      → (es : List Event) (r : BoxRuntime) → IsPrepared h r.config_json
      → IsPrepared h (run h es r).config_json
  unfolding run
  run-IsPrepared codec [] r p = p
  run-IsPrepared codec (e ∷ es) r p =
      run-IsPrepared codec es (step h e r) (step-IsPrepared codec e r p)

  new-IsPrepared :
      (data_dir : String) (saved : Option (ℕ × ℕ)) (writable : ℕ → Bool)
      → IsPrepared h (new_box_runtime data_dir saved writable).config_json
  unfolding new_box_runtime load_traffic start_persist_loop
  new-IsPrepared data_dir saved writable = subst (IsPrepared h) (ground arith) nothing

  failed-stored :
      (config hash e : String) (r : BoxRuntime) (o : Outcome)
      → Stores h config hash r o
      → o.0 ≡ some e
      → stored o.1 ≡ stored r
  failed-stored config hash e r o (kept_stored same) failed = same
  failed-stored config hash e r o (replaced done c prep same) failed = absurd (cc (done, failed))

  -- At any time of a runtime's life, an `Apply` that returns an error leaves the stored
  -- configuration and its hash as they were, so that the next start uses the previous ones.
  pub apply_failed :
      IsCodec h
      → (data_dir : String) (saved : Option (ℕ × ℕ)) (writable : ℕ → Bool) (es : List Event)
        (now : ℕ) (config hash e : String)
      → (apply h now config hash (run h es (new_box_runtime data_dir saved writable))).0 ≡ some e
      → stored (apply h now config hash (run h es (new_box_runtime data_dir saved writable))).1
        ≡ stored (run h es (new_box_runtime data_dir saved writable))
  apply_failed codec data_dir saved writable es now config hash e failed =
      let r = run h es (new_box_runtime data_dir saved writable) in
      failed-stored config hash e r (apply h now config hash r)
        (apply-Stores h now config hash r (
          run-IsPrepared codec es (new_box_runtime data_dir saved writable)
            (new-IsPrepared data_dir saved writable)))
        failed
