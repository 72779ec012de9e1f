-- ===== src/Agent/Runtime/Steps.antt =====
-- The ways in which each operation of the runtime can end.
use ladder_airport.Agent.Runtime.Config.{Host, prepare_config, split_frpc, parse_options}
use ladder_airport.Agent.Runtime.{
  BoxRuntime, new_tracker, start_persist_loop, set_last_error, is_running, has_instance, Outcome,
  start_instance, start_from_json, restored, restore, is_same, reload, apply, start, running,
}
use Prim.Native.String.{◌++◌ as concat}
use ladder_airport.Base.{
  Bool-cases, Option-cases, Result-cases, ok, ℕ, ◌+◌, String, ◌≡◌, inl, inr, Bool, true, false, not,
  ◌&&◌, none, some, ◌∷◌, arith, str_eq, str_eq_iff,
}

-- The runtime after an instance was made and given up, and after one was started.
abbrev pub made : BoxRuntime → BoxRuntime
made r = record r { created = r.created + 1 }

abbrev pub booted : ℕ → String → String → BoxRuntime → BoxRuntime
booted now config hash r = record r {
  created = r.created + 1;
  instance_id = some r.created;
  tracker = some new_tracker;
  config_json = config;
  config_hash = hash;
  started_at_unix = now;
  last_error = "";
  state = running;
  live = r.created ∷ r.live;
}

pub data StartCase (now : ℕ) (config hash : String) (r : BoxRuntime) (o : Outcome) : Type 0 where
  gave_up : (e : String) → o ≡ (some e, made r) → StartCase now config hash r o
  started : o ≡ (none, booted now config hash r) → StartCase now config hash r o

module _ (h : Host) (now : ℕ) where
  pub start_instance-cases :
      (config hash : String) (r : BoxRuntime)
      → StartCase now config hash r (start_instance h now config hash r)
  unfolding start_instance
  start_instance-cases config hash r = elim (Option-cases (h.new_box r.created config)) [
    | inr (e, bad) ↦ gave_up (concat "创建代理实例失败：" e) (ground (arith, bad))
    | inl good ↦ elim (Option-cases (h.start_box r.created config)) [
      | inr (e, bad) ↦ gave_up e (ground (arith, good, bad))
      | inl up ↦ elim (Result-cases (split_frpc h config)) [
        | inr (e, bad) ↦ gave_up e (ground (arith, good, up, bad))
        | inl (parts, split) ↦ elim (Option-cases (h.start_frpc r.created parts.1)) [
          | inr (e, bad) ↦ gave_up e (ground (arith, good, up, split, bad))
          | inl all_up ↦ started (ground (arith, good, up, split, all_up))
        ]
      ]
    ]
  ]

  -- A start from a stored configuration, which is prepared and parsed again.
  pub data RestartCase (config hash : String) (r : BoxRuntime) (o : Outcome) : Type 0 where
    refused : (e : String) → o ≡ (some e, r) → RestartCase config hash r o
    tried :
        (prepared : String)
        → prepare_config h config ≡ ok prepared
        → o ≡ start_instance h now prepared hash r
        → RestartCase config hash r o

  pub start_from_json-cases :
      (config hash : String) (r : BoxRuntime)
      → RestartCase config hash r (start_from_json h now config hash r)
  unfolding start_from_json
  start_from_json-cases config hash r = elim (Result-cases (prepare_config h config)) [
    | inr (e, bad) ↦ refused e (ground (arith, bad))
    | inl (prepared, good) ↦ elim (Result-cases (parse_options h prepared)) [
      | inr (e, bad) ↦ refused e (ground (arith, good, bad))
      | inl (opts, parsed) ↦ tried prepared good (ground (arith, good, parsed))
    ]
  ]

  pub data ApplyCase (config hash : String) (r : BoxRuntime) (o : Outcome) : Type 0 where
    rejected : (e : String) → o ≡ (some e, set_last_error e r) → ApplyCase config hash r o
    kept :
        (prepared : String)
        → prepare_config h config ≡ ok prepared
        → is_same h now prepared hash r ≡ true
        → o ≡ (none, r)
        → ApplyCase config hash r o
    reloaded :
        (prepared : String)
        → prepare_config h config ≡ ok prepared
        → (opts : Unit {0}) → parse_options h prepared ≡ ok opts
        → is_same h now prepared hash r ≡ false
        → o ≡ reload h now prepared hash r
        → ApplyCase config hash r o

  pub apply-cases :
      (config hash : String) (r : BoxRuntime)
      → ApplyCase config hash (start_persist_loop r) (apply h now config hash r)
  unfolding apply
  apply-cases config hash r = elim (Result-cases (prepare_config h config)) [
    | inr (e, bad) ↦ rejected e (ground (arith, bad))
    | inl (prepared, good) ↦
        elim (Bool-cases (is_same h now prepared hash (start_persist_loop r))) [
          | inl same ↦ kept prepared good same (ground (arith, good, same))
          | inr differs ↦ elim (Result-cases (parse_options h prepared)) [
            | inr (e, bad) ↦ rejected e (ground (arith, good, differs, bad))
            | inl (opts, parsed) ↦
                reloaded prepared good opts parsed differs (ground (arith, good, differs, parsed))
          ]
        ]
  ]

  -- Whether a failed reload has a previous configuration to go back to.
  abbrev pub has_previous : String → String → Bool
  has_previous prepared prev_json = not (str_eq prev_json "") && not (str_eq prev_json prepared)

  pub restore-tries :
      (e prepared prev_json prev_hash : String) (r : BoxRuntime)
      → has_previous prepared prev_json ≡ true
      → restore h now e prepared prev_json prev_hash r
        ≡ restored h now e
            (start_from_json h now prev_json prev_hash r).0
            (start_from_json h now prev_json prev_hash r).1
  unfolding restore
  restore-tries e prepared prev_json prev_hash r tries = ground (arith, tries)

  pub restore-gives_up :
      (e prepared prev_json prev_hash : String) (r : BoxRuntime)
      → has_previous prepared prev_json ≡ false
      → restore h now e prepared prev_json prev_hash r
        ≡ (some (concat "启动代理实例失败：" e), set_last_error e r)
  unfolding restore
  restore-gives_up e prepared prev_json prev_hash r fails = ground (arith, fails)

  pub data StartAgainCase (r : BoxRuntime) (o : Outcome) : Type 0 where
    already : is_running r.state ≡ true → o ≡ (none, r) → StartAgainCase r o
    no_config : r.config_json ≡ "" → (e : String) → o ≡ (some e, r) → StartAgainCase r o
    again : o ≡ apply h now r.config_json r.config_hash r → StartAgainCase r o

  pub start-cases : (r : BoxRuntime) → StartAgainCase r (start h now r)
  unfolding start
  start-cases r = elim (Bool-cases (is_running r.state && has_instance r.instance_id)) [
    | inl up ↦ already (ground arith) (ground (arith, up))
    | inr down ↦ elim (Bool-cases (str_eq r.config_json "")) [
      | inl empty ↦
          no_config ((str_eq_iff r.config_json "").0 empty) "没有可启动的配置，请先下发配置"
            (ground (arith, down, empty))
      | inr config ↦ again (ground (arith, down, config))
    ]
  ]
