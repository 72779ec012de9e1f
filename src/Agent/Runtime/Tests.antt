-- ===== src/Agent/Runtime/Tests.antt =====
-- A runtime on a host where the configuration "bad" does not come up and "broken" does not decode,
-- and the theorems on it.
use ladder_airport.Agent.Runtime.{
  Tracker, BoxRuntime, add64, new_tracker, save_traffic, load_traffic, start_persist_loop,
  stop_persist_loop, new_box_runtime, close_instance, stop_instance, set_last_error, status,
  metrics, start_instance, start_from_json, restored, restore, write_current, is_same, after_start,
  reload, apply, stop,
}
use ladder_airport.Base.{
  if◌then◌else◌, err, ok, String, ◌≡◌, refl, true, false, none, some, List, [], ◌∷◌, str_eq,
}
use ladder_airport.Agent.Runtime.Single.{IsSingle}
use ladder_airport.Agent.Runtime.Apply.{Runs, apply-Runs}
use ladder_airport.Agent.Runtime.Events.{
  Event, record_traffic, step, run, run-IsSingle, applied, stopped_by_user, passed, ticked,
}
use ladder_airport.Agent.Runtime.Traffic.{totals, is_call, run-totals, restart-totals}
use ladder_airport.Agent.Runtime.Stored.{stored}
use ladder_airport.Agent.Runtime.Rollback.{apply_failed}
use ladder_airport.Agent.Runtime.Config.{
  Host, member, without, put, default_dns, needs_default, ensure_default_dns, prepare_config,
  split_frpc, parse_options, IsCodec, prepare_config_idem,
}

abbrev with_dns : List (String × String)
with_dns = ("dns", default_dns) ∷ []

abbrev host : Host
host = record {
  unmarshal = λ c. if str_eq c "broken" then err "syntax" else ok with_dns;
  marshal = λ doc. "doc";
  dns_servers = λ raw. some 4;
  unmarshal_frpc = λ raw. ok [];
  unmarshal_options = λ c. ok tt;
  new_box = λ id c. if str_eq c "bad" then some "port in use" else none;
  start_box = λ id c. none;
  start_frpc = λ id parts. none;
  write_file = λ c. none;
}

host-IsCodec : IsCodec host
unfolding member
host-IsCodec = record { reads_back = λ doc e. (with_dns, refl, refl); counts_default = refl }

abbrev fresh : BoxRuntime
fresh = new_box_runtime "/data" (some (100, 200)) (λ n. true)

abbrev some_traffic : Tracker
some_traffic = record { active = 1; uplink = 5; downlink = 7 }

abbrev history : List Event
history = applied 10 "a" "ha" ∷ passed some_traffic ∷ ticked ∷ applied 20 "bad" "hb" ∷ []

runs : Unit {0}
unfolding apply stop start_instance start_from_json restored restore write_current is_same
    after_start reload stop_instance set_last_error start_persist_loop stop_persist_loop
    save_traffic load_traffic new_box_runtime close_instance new_tracker add64 metrics status
    split_frpc parse_options prepare_config ensure_default_dns needs_default member put without step
    run record_traffic is_call
runs = tt

prepare_config_idem_example : prepare_config host "a" ≡ ok "a"
unfolding runs
prepare_config_idem_example = prepare_config_idem host host-IsCodec "a" "a" refl

run-IsSingle_example : IsSingle (run host history fresh)
run-IsSingle_example = run-IsSingle host "/data" (some (100, 200)) (λ n. true) history

apply-Runs_example : Runs "a" "ha" (apply host 10 "a" "ha" fresh).1
unfolding runs
apply-Runs_example =
    apply-Runs host 10 "a" "ha" "a" fresh (apply host 10 "a" "ha" fresh).1 refl refl

run-totals_example :
    totals (run host (applied 10 "a" "ha" ∷ stopped_by_user ∷ []) fresh) ≡ totals fresh
unfolding runs
run-totals_example = run-totals host (applied 10 "a" "ha" ∷ stopped_by_user ∷ []) fresh refl

apply_failed_example :
    stored (apply host 30 "bad" "hb" (run host history fresh)).1 ≡ stored (run host history fresh)
unfolding runs
apply_failed_example =
    apply_failed host host-IsCodec "/data" (some (100, 200)) (λ n. true) history 30 "bad" "hb"
      "启动代理实例失败：创建代理实例失败：port in use（已恢复旧配置）" refl

restart-totals_example :
    ((run host history fresh).writable (run host history fresh).writes ≡ true
      → totals (new_box_runtime "/data" (stop (run host history fresh)).1.saved_traffic (λ n. true))
        ≡ totals (run host history fresh))
    × ((run host history fresh).writable (run host history fresh).writes ≡ false
        → (stop (run host history fresh)).1.saved_traffic ≡ (run host history fresh).saved_traffic)
unfolding runs
restart-totals_example = restart-totals (run host history fresh) (λ n. true) refl

history_runs :
    (stored (run host history fresh) ≡ ("a", "ha"))
    × (totals (run host history fresh) ≡ (105, 207))
    × ((run host history fresh).live ≡ 2 ∷ [])
unfolding runs
history_runs = (refl, refl, refl)
