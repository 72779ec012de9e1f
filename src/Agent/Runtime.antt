-- ===== src/Agent/Runtime.antt =====
-- The runtime of agent/internal/control/runtime_box.go, which drives one sing-box instance: its
-- configuration, its lifecycle under `applyMu`, and the traffic counters that survive a restart.
-- The JSON codec, sing-box, frp and the disk are parameters, gathered in `Host`.
pub mod Config
pub mod Steps
pub mod Single
pub mod Events
pub mod Apply
pub mod Traffic
pub mod Stored
pub mod Rollback
mod Tests
use Prim.Native.String.{◌++◌ as concat}
use ladder_airport.Base.{
  ◌==◌, if◌then◌else◌, filter, err, ok, ℕ, ◌+◌, ◌%◌, ◌^◌, String, Bool, true, false, not, ◌&&◌,
  ◌||◌, Option, none, some, List, [], ◌∷◌, str_eq,
}
use ladder_airport.Agent.Runtime.Config.{Host, prepare_config, split_frpc, parse_options}

pub data RuntimeState : Type 0 where
  stopped running : RuntimeState

-- `trafficTracker` of the current instance (traffic_tracker.go).
pub record Tracker : Type 0 where
  pub active : ℕ
  pub uplink : ℕ
  pub downlink : ℕ

-- `BoxRuntime`. An instance is known by its number; `created` counts the instances made so far and
-- `live` lists those that were started and not closed yet. `persisting` says whether the traffic
-- loop runs (`stopTrafficPersist` is not nil), `saved_traffic` is traffic.json.
pub record BoxRuntime : Type 0 where
  pub data_dir : String
  pub instance_id : Option ℕ
  pub tracker : Option Tracker
  pub config_json : String
  pub config_hash : String
  pub started_at_unix : ℕ
  pub last_error : String
  pub state : RuntimeState
  pub prev_uplink : ℕ
  pub prev_downlink : ℕ
  pub persisting : Bool
  pub created : ℕ
  pub live : List ℕ
  pub saved_traffic : Option (ℕ × ℕ)
  pub writable : ℕ → Bool
  pub writes : ℕ

-- An int64 sum, as a bit pattern.
unfoldable pub add64 : ℕ → ℕ → ℕ
add64 a b = (a + b) % 2 ^ 64

abbrev pub tracked : (Tracker → ℕ) → Option Tracker → ℕ
tracked f none = 0
tracked f (some t) = f t

-- A running tracker sees connections open and close and bytes pass.
unfoldable pub new_tracker : Tracker
new_tracker = record { active = 0; uplink = 0; downlink = 0 }

unfoldable pub save_traffic : BoxRuntime → BoxRuntime
save_traffic r = if str_eq r.data_dir "" then r else record r {
  saved_traffic =
      if r.writable r.writes
      then some (
        add64 (tracked (λ t. t.uplink) r.tracker) r.prev_uplink,
        add64 (tracked (λ t. t.downlink) r.tracker) r.prev_downlink,
      )
      else r.saved_traffic;
  writes = r.writes + 1;
}

-- A file that cannot be read or decoded counts as none.
unfoldable pub load_traffic : BoxRuntime → BoxRuntime
load_traffic r = if str_eq r.data_dir "" then r else elim r.saved_traffic [
  | none ↦ r
  | some (up, down) ↦ record r { prev_uplink = up; prev_downlink = down }
]

unfoldable pub start_persist_loop : BoxRuntime → BoxRuntime
start_persist_loop r =
    if str_eq r.data_dir "" || r.persisting then r else record r { persisting = true }

unfoldable pub stop_persist_loop : BoxRuntime → BoxRuntime
stop_persist_loop r = record r { persisting = false }

-- `saved` is what reading and decoding the traffic.json of a previous process gives, `writable` says
-- which writes of it work.
unfoldable pub new_box_runtime : String → Option (ℕ × ℕ) → (ℕ → Bool) → BoxRuntime
new_box_runtime data_dir saved writable = start_persist_loop (
    load_traffic (record {
      data_dir = data_dir;
      instance_id = none;
      tracker = none;
      config_json = "";
      config_hash = "";
      started_at_unix = 0;
      last_error = "";
      state = stopped;
      prev_uplink = 0;
      prev_downlink = 0;
      persisting = false;
      created = 0;
      live = [];
      saved_traffic = saved;
      writable = writable;
      writes = 0;
    }))

unfoldable pub close_instance : Option ℕ → List ℕ → List ℕ
close_instance none live = live
close_instance (some i) live = filter (λ j. not (j == i)) live

unfoldable pub stop_instance : BoxRuntime → BoxRuntime
stop_instance r =
    let stopped_r = save_traffic (record r {
      prev_uplink = add64 r.prev_uplink (tracked (λ t. t.uplink) r.tracker);
      prev_downlink = add64 r.prev_downlink (tracked (λ t. t.downlink) r.tracker);
      instance_id = none;
      tracker = none;
      state = stopped;
      started_at_unix = 0;
    }) in
    record stopped_r { live = close_instance r.instance_id stopped_r.live }

unfoldable pub set_last_error : String → BoxRuntime → BoxRuntime
set_last_error message r = record r {
  last_error = message;
  state = elim r.instance_id [ none ↦ stopped | some _ ↦ running ];
}

-- What `Status` and `Metrics` report (the process's CPU and memory are not modelled).
pub record Status : Type 0 where
  pub state : RuntimeState
  pub config_hash : String
  pub started_at_unix : ℕ
  pub last_error : String

unfoldable pub status : BoxRuntime → Status
status r = record {
  state = r.state;
  config_hash = r.config_hash;
  started_at_unix = r.started_at_unix;
  last_error = r.last_error;
}

pub record Metrics : Type 0 where
  pub connections : ℕ
  pub uplink_bytes : ℕ
  pub downlink_bytes : ℕ

unfoldable pub metrics : BoxRuntime → Metrics
metrics r = record {
  connections = tracked (λ t. t.active) r.tracker;
  uplink_bytes = add64 (tracked (λ t. t.uplink) r.tracker) r.prev_uplink;
  downlink_bytes = add64 (tracked (λ t. t.downlink) r.tracker) r.prev_downlink;
}

abbrev pub is_running : RuntimeState → Bool
is_running running = true
is_running stopped = false

abbrev pub has_instance : Option ℕ → Bool
has_instance none = false
has_instance (some i) = true

-- An operation returns the runtime and its error, if any.
abbrev pub Outcome : Type 0
Outcome = Option String × BoxRuntime

module _ (h : Host) (now : ℕ) where
  -- An instance that fails to start, or whose frp part fails, is closed again.
  unfoldable pub start_instance : String → String → BoxRuntime → Outcome
  start_instance config hash r =
      let id = r.created in
      let made = record r { created = id + 1 } in
      elim (h.new_box id config) [
        | some e ↦ (some (concat "创建代理实例失败：" e), made)
        | none ↦ elim (h.start_box id config) [
          | some e ↦ (some e, made)
          | none ↦ elim (split_frpc h config) [
            | err e ↦ (some e, made)
            | ok parts ↦ elim (h.start_frpc id parts.1) [
              | some e ↦ (some e, made)
              | none ↦ (
                none,
                record made {
                  instance_id = some id;
                  tracker = some new_tracker;
                  config_json = config;
                  config_hash = hash;
                  started_at_unix = now;
                  last_error = "";
                  state = running;
                  live = id ∷ r.live;
                },
              )
            ]
          ]
        ]
      ]

  unfoldable pub start_from_json : String → String → BoxRuntime → Outcome
  start_from_json config hash r = elim (prepare_config h config) [
    | err e ↦ (some e, r)
    | ok prepared ↦ elim (parse_options h prepared) [
      | err e ↦ (some e, r)
      | ok _ ↦ start_instance prepared hash r
    ]
  ]

  -- What is left after the previous configuration was started again, with the error `rest` or none.
  unfoldable pub restored : String → Option String → BoxRuntime → Outcome
  restored e none r =
      (some (concat "启动代理实例失败：" (concat e "（已恢复旧配置）")), set_last_error (concat "启动失败，已恢复旧配置：" e) r)
  restored e (some rest) r = (
    some (concat "启动代理实例失败：" (concat e (concat "（恢复旧配置也失败：" (concat rest "）")))),
    set_last_error (concat "启动失败：" (concat e (concat "；恢复旧配置也失败：" rest))) r,
  )

  -- The start of the new configuration failed with `e`: the previous one is started again.
  unfoldable pub restore : String → String → String → String → BoxRuntime → Outcome
  restore e prepared prev_json prev_hash r =
      if not (str_eq prev_json "") && not (str_eq prev_json prepared)
      then (let (o, r') = start_from_json prev_json prev_hash r in restored e o r')
      else (some (concat "启动代理实例失败：" e), set_last_error e r)

  unfoldable pub write_current : String → BoxRuntime → BoxRuntime
  write_current prepared r = if str_eq r.data_dir "" then r else elim (h.write_file prepared) [
    | none ↦ r
    | some e ↦ set_last_error (concat "代理实例正在运行，但写入 current.json 失败：" e) r
  ]

  -- Whether the runtime already runs this prepared configuration.
  unfoldable pub is_same : String → String → BoxRuntime → Bool
  is_same prepared hash r =
      is_running r.state
      && has_instance r.instance_id
      && not (str_eq hash "")
      && str_eq hash r.config_hash
      && str_eq prepared r.config_json

  unfoldable pub after_start : String → String → String → Option String → BoxRuntime → Outcome
  after_start prepared prev_json prev_hash none r = (none, write_current prepared r)
  after_start prepared prev_json prev_hash (some e) r = restore e prepared prev_json prev_hash r

  unfoldable pub reload : String → String → BoxRuntime → Outcome
  reload prepared hash r =
      let (o, r') = start_instance prepared hash (stop_instance r) in
      after_start prepared r.config_json r.config_hash o r'

  unfoldable pub apply : String → String → BoxRuntime → Outcome
  apply config hash r0 =
      let r = start_persist_loop r0 in
      elim (prepare_config h config) [
        | err e ↦ (some e, set_last_error e r)
        | ok prepared ↦
            if is_same prepared hash r then (none, r) else elim (parse_options h prepared) [
              | err e ↦ (some e, set_last_error e r)
              | ok _ ↦ reload prepared hash r
            ]
      ]

  unfoldable pub start : BoxRuntime → Outcome
  start r =
      if is_running r.state && has_instance r.instance_id
      then (none, r)
      else if str_eq r.config_json ""
      then (some "没有可启动的配置，请先下发配置", r)
      else apply r.config_json r.config_hash r

unfoldable pub stop : BoxRuntime → Outcome
stop r = (none, stop_instance (stop_persist_loop r))
