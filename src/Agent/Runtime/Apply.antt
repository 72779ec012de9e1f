-- ===== src/Agent/Runtime/Apply.antt =====
-- What `Apply` promises on each branch.
use ladder_airport.Agent.Runtime.Steps.{
  booted, StartCase, start_instance-cases, ApplyCase, apply-cases, has_previous, restore-tries,
  restore-gives_up, gave_up, started, rejected, kept, reloaded,
}
use Prim.Native.String.{◌++◌ as concat}
use ladder_airport.Agent.Runtime.Config.{Host, prepare_config}
use ladder_airport.Agent.Runtime.{
  BoxRuntime, save_traffic, start_persist_loop, stop_instance, set_last_error, has_instance,
  Outcome, start_instance, restored, restore, write_current, is_same, after_start, reload, apply,
  running,
}
use ladder_airport.Base.{
  Bool-cases, Option-cases, ok, ℕ, String, ◌≡◌, refl, sym, ap, ap₂, ◌∙◌, subst, ◌≢◌, ◌⊎◌, inl, inr,
  true, false, ◌||◌, Option, none, some, arith, str_eq, str_eq_iff,
}

-- The runtime runs the prepared configuration under the hash.
pub record Runs (prepared hash : String) (r : BoxRuntime) : Type 0 where
  pub config_json : r.config_json ≡ prepared
  pub config_hash : r.config_hash ≡ hash
  pub state : r.state ≡ running
  pub instance_up : has_instance r.instance_id ≡ true
  pub loop : (str_eq r.data_dir "" || r.persisting) ≡ true

set_last_error-Runs :
    (m prepared hash : String) (r : BoxRuntime)
    → Runs prepared hash r
    → Runs prepared hash (set_last_error m r)
unfolding set_last_error
set_last_error-Runs m prepared hash r s = record {
  config_json = s.config_json;
  config_hash = s.config_hash;
  state = ground (arith, s.instance_up);
  instance_up = s.instance_up;
  loop = s.loop;
}

persist_loop :
    (r : BoxRuntime)
    → (str_eq (start_persist_loop r).data_dir "" || (start_persist_loop r).persisting) ≡ true
unfolding start_persist_loop
persist_loop r = ground arith

stop_instance_loop :
    (r : BoxRuntime)
    → ((stop_instance r).data_dir ≡ r.data_dir) × ((stop_instance r).persisting ≡ r.persisting)
unfolding stop_instance save_traffic
stop_instance_loop r = (ground arith, ground arith)

module _ (h : Host) (now : ℕ) where
  write_current-Runs :
      (config prepared hash : String) (r : BoxRuntime)
      → Runs prepared hash r
      → Runs prepared hash (write_current h now config r)
  write_current-Runs config prepared hash r s =
      go (Option-cases (h.write_file config)) (Bool-cases (str_eq r.data_dir ""))
    where
      go :
          (h.write_file config ≡ none) ⊎ ((e : String) × (h.write_file config ≡ some e))
          → (str_eq r.data_dir "" ≡ true) ⊎ (str_eq r.data_dir "" ≡ false)
          → Runs prepared hash (write_current h now config r)
      go (inl fine) _ =
          let same : r ≡ write_current h now config r =
            unfold write_current in (ground (arith, fine)) in
          subst (Runs prepared hash) same s
      go _ (inl nowhere) =
          let same : r ≡ write_current h now config r =
            unfold write_current in (ground (arith, nowhere)) in
          subst (Runs prepared hash) same s
      go (inr (e, bad)) (inr somewhere) =
          let message = concat "代理实例正在运行，但写入 current.json 失败：" e in
          let same : set_last_error message r ≡ write_current h now config r =
            unfold write_current in (ground (arith, somewhere, bad)) in
          subst (Runs prepared hash) same (set_last_error-Runs message prepared hash r s)

  restored-err : (e : String) (o : Option String) (r : BoxRuntime) → (restored h now e o r).0 ≢ none
  unfolding restored
  restored-err e none r bad = ground arith
  restored-err e (some rest) r bad = ground arith

  restore-err :
      (e prepared prev_json prev_hash : String) (r : BoxRuntime)
      → (restore h now e prepared prev_json prev_hash r).0 ≢ none
  restore-err e prepared prev_json prev_hash r bad =
      elim (Bool-cases (has_previous h now prepared prev_json)) [
        | inl tries ↦
            let same = restore-tries h now e prepared prev_json prev_hash r tries in
            restored-err e _ _ (sym (ap (λ (o : Outcome). o.0) same) ∙ bad)
        | inr fails ↦
            let same = restore-gives_up h now e prepared prev_json prev_hash r fails in
            cc (same, bad)
      ]

  after_start-Runs :
      (config prepared hash prev_json prev_hash : String) (o : Option String) (x r' : BoxRuntime)
      → (o ≡ none → Runs prepared hash x)
      → after_start h now config prev_json prev_hash o x ≡ (none, r')
      → Runs prepared hash r'
  unfolding after_start
  after_start-Runs config prepared hash prev_json prev_hash none x r' runs e =
      let same : write_current h now config x ≡ r' = cc in
      subst (Runs prepared hash) same (write_current-Runs config prepared hash x (runs refl))
  after_start-Runs config prepared hash prev_json prev_hash (some bad) x r' runs e =
      absurd (restore-err bad config prev_json prev_hash x (ap (λ (o : Outcome). o.0) e))

  pub reload_eq :
      (config hash : String) (r : BoxRuntime)
      → reload h now config hash r
        ≡ after_start h now config r.config_json r.config_hash
            (start_instance h now config hash (stop_instance r)).0
            (start_instance h now config hash (stop_instance r)).1
  unfolding reload
  reload_eq config hash r = ground arith

  is_same-Runs :
      (config hash : String) (r : BoxRuntime)
      → is_same h now config hash r ≡ true
      → (str_eq r.data_dir "" || r.persisting) ≡ true
      → Runs config hash r
  unfolding is_same
  is_same-Runs config hash r same loop = record {
    config_json = sym ((str_eq_iff config r.config_json).0 (ground (arith, same)));
    config_hash = sym ((str_eq_iff hash r.config_hash).0 (ground (arith, same)));
    state = ground (arith, same);
    instance_up = ground (arith, same);
    loop = loop;
  }

  -- After an `Apply` that returns no error, the runtime runs the prepared configuration under the
  -- given hash.
  pub apply-Runs :
      (config hash prepared : String) (r r' : BoxRuntime)
      → prepare_config h config ≡ ok prepared
      → apply h now config hash r ≡ (none, r')
      → Runs prepared hash r'
  apply-Runs config hash prepared r r' prep done = go (apply-cases h now config hash r)
    where
      p : BoxRuntime
      p = start_persist_loop r

      q : BoxRuntime
      q = stop_instance p

      booted_runs :
          (config' : String) → config' ≡ prepared → Runs prepared hash (booted now config' hash q)
      booted_runs config' same = record {
        config_json = same;
        config_hash = refl;
        state = refl;
        instance_up = refl;
        loop =
            ap₂ (λ d b. str_eq d "" || b) (stop_instance_loop p).0 (stop_instance_loop p).1
            ∙ persist_loop r;
      }

      first_runs :
          (c : String)
          → c ≡ prepared
          → StartCase now c hash q (start_instance h now c hash q)
          → (start_instance h now c hash q).0 ≡ none
          → Runs prepared hash (start_instance h now c hash q).1
      first_runs c same (gave_up e is) none_is = absurd (cc (is, none_is))
      first_runs c same (started is) _ =
          subst {A = Outcome} (λ o. Runs prepared hash o.1) (sym is) (booted_runs c same)

      go : ApplyCase h now config hash p (apply h now config hash r) → Runs prepared hash r'
      go (rejected e is) = absurd (cc (is, done))
      go (kept c prep' same is) =
          let eq : p ≡ r' = cc (is, done) in
          let c_eq : c ≡ prepared = cc (prep, prep') in
          subst (Runs prepared hash) eq
            (subst (λ d. Runs d hash p) c_eq (is_same-Runs c hash p same (persist_loop r)))
      go (reloaded c prep' opts parsed differs is) =
          let c_eq : c ≡ prepared = cc (prep, prep') in
          after_start-Runs c prepared hash p.config_json p.config_hash
            (start_instance h now c hash q).0 (start_instance h now c hash q).1 r'
            (first_runs c c_eq (start_instance-cases h now c hash q))
            (sym (reload_eq c hash p) ∙ sym is ∙ done)
