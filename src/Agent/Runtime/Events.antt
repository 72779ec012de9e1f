-- ===== src/Agent/Runtime/Events.antt =====
-- The runtime over its whole life: any sequence of calls and traffic.
use ladder_airport.Agent.Runtime.Config.{Host}
use ladder_airport.Agent.Runtime.Single.{
  IsSingle, idle_single, apply-IsSingle, start-IsSingle, stop-IsIdle, idle, busy,
}
use ladder_airport.Agent.Runtime.{
  Tracker, BoxRuntime, save_traffic, load_traffic, start_persist_loop, new_box_runtime, apply,
  start, stop,
}
use ladder_airport.Base.{
  if◌then◌else◌, ℕ, String, ◌≡◌, subst, Bool, Option, none, some, List, [], ◌∷◌, arith,
}

-- What happens to a runtime: calls with the clock of each, traffic through the current tracker, and
-- the ticks of the traffic loop.
pub data Event : Type 0 where
  applied : ℕ → String → String → Event
  started_again : ℕ → Event
  stopped_by_user : Event
  passed : Tracker → Event
  ticked : Event

unfoldable pub record_traffic : Tracker → BoxRuntime → BoxRuntime
record_traffic t r = elim r.tracker [ none ↦ r | some _ ↦ record r { tracker = some t } ]

unfoldable pub step : Host → Event → BoxRuntime → BoxRuntime
step h (applied now config hash) r = (apply h now config hash r).1
step h (started_again now) r = (start h now r).1
step h stopped_by_user r = (stop r).1
step h (passed t) r = record_traffic t r
step h ticked r = if r.persisting then save_traffic r else r

unfoldable pub run : Host → List Event → BoxRuntime → BoxRuntime
run h [] r = r
run h (e ∷ es) r = run h es (step h e r)

record_traffic-IsSingle :
    (t : Tracker) (r : BoxRuntime) → IsSingle r → IsSingle (record_traffic t r)
unfolding record_traffic
record_traffic-IsSingle t r (idle a b c d) =
    let same : r ≡ record_traffic t r = ground (arith, d) in subst IsSingle same (idle a b c d)
record_traffic-IsSingle t r (busy i u a b c d) =
    busy i t (ground (arith, d)) (ground (arith, d)) (ground (arith, d)) (ground (arith, d))

tick-IsSingle :
    (r : BoxRuntime) → IsSingle r → IsSingle (if r.persisting then save_traffic r else r)
unfolding save_traffic
tick-IsSingle r (idle a b c d) = idle (ground arith) (ground arith) (ground arith) (ground arith)
tick-IsSingle r (busy i t a b c d) =
    busy i t (ground arith) (ground arith) (ground arith) (ground arith)

step-IsSingle : (h : Host) (e : Event) (r : BoxRuntime) → IsSingle r → IsSingle (step h e r)
unfolding step
step-IsSingle h (applied now config hash) r s = apply-IsSingle h now config hash r s
step-IsSingle h (started_again now) r s = start-IsSingle h now r s
step-IsSingle h stopped_by_user r s = idle_single (stop r).1 (stop-IsIdle r s)
step-IsSingle h (passed t) r s = record_traffic-IsSingle t r s
step-IsSingle h ticked r s = tick-IsSingle r s

run-keeps : (h : Host) (es : List Event) (r : BoxRuntime) → IsSingle r → IsSingle (run h es r)
unfolding run
run-keeps h [] r s = s
run-keeps h (e ∷ es) r s = run-keeps h es (step h e r) (step-IsSingle h e r s)

new-IsSingle :
    (data_dir : String) (saved : Option (ℕ × ℕ)) (writable : ℕ → Bool)
    → IsSingle (new_box_runtime data_dir saved writable)
unfolding new_box_runtime start_persist_loop load_traffic
new-IsSingle data_dir saved writable =
    idle (ground arith) (ground arith) (ground arith) (ground arith)

-- From a new runtime, after any applies, starts, stops, traffic and ticks of the traffic loop, and whichever of the calls into
-- sing-box, frp, the codec and the disk fail: either no instance is up and the state is stopped, or
-- exactly the runtime's own instance is up and the state is running.
pub run-IsSingle :
    (h : Host) (data_dir : String) (saved : Option (ℕ × ℕ)) (writable : ℕ → Bool) (es : List Event)
    → IsSingle (run h es (new_box_runtime data_dir saved writable))
run-IsSingle h data_dir saved writable es =
    run-keeps h es (new_box_runtime data_dir saved writable) (new-IsSingle data_dir saved writable)
