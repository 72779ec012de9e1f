-- ===== src/Agent/Runtime/Stored.antt =====
-- The stored configuration through an `Apply`, which replaces it or keeps it.
use ladder_airport.Agent.Runtime.{
  BoxRuntime, save_traffic, start_persist_loop, stop_instance, set_last_error, Outcome,
  start_instance, start_from_json, restored, restore, write_current, after_start, reload, apply,
}
use ladder_airport.Agent.Runtime.Config.{Host, prepare_config}
use ladder_airport.Base.{
  Bool-cases, ok, ℕ, String, ◌≡◌, refl, sym, ap, ◌∙◌, subst, ◌⊎◌, inl, inr, true, Option, none,
  some, arith,
}
use ladder_airport.Agent.Runtime.Apply.{reload_eq}
use ladder_airport.Agent.Runtime.Steps.{
  made, booted, StartCase, start_instance-cases, RestartCase, start_from_json-cases, ApplyCase,
  apply-cases, has_previous, restore-tries, restore-gives_up, gave_up, started, refused, tried,
  rejected, kept, reloaded,
}

abbrev pub stored : BoxRuntime → String × String
stored r = (r.config_json, r.config_hash)

pub stop_instance-stored : (r : BoxRuntime) → stored (stop_instance r) ≡ stored r
unfolding stop_instance save_traffic
stop_instance-stored r = ground arith

persist-stored : (r : BoxRuntime) → stored (start_persist_loop r) ≡ stored r
unfolding start_persist_loop
persist-stored r = ground arith

set_last_error-stored : (m : String) (r : BoxRuntime) → stored (set_last_error m r) ≡ stored r
unfolding set_last_error
set_last_error-stored m r = refl

module _ (h : Host) where
  -- The stored configuration is none, or one that preparing does not change.
  pub data IsPrepared : String → Type 0 where
    nothing : IsPrepared ""
    prepared_one : (config : String) → prepare_config h config ≡ ok config → IsPrepared config

  previous_same :
      (now : ℕ) (config new next : String)
      → IsPrepared config
      → has_previous h now new config ≡ true
      → prepare_config h config ≡ ok next
      → next ≡ config
  previous_same now _ new next nothing tries prep = absurd (ground (arith, tries))
  previous_same now config new next (prepared_one _ same) tries prep = cc (same, prep)

  -- How an operation that is given a configuration leaves the stored one.
  pub data Stores (config hash : String) (r : BoxRuntime) (o : Outcome) : Type 0 where
    kept_stored : stored o.1 ≡ stored r → Stores config hash r o
    replaced :
        o.0 ≡ none
        → (next : String) → prepare_config h config ≡ ok next
        → stored o.1 ≡ (next, hash)
        → Stores config hash r o

  module _ (now : ℕ) where
    write_current-stored :
        (prepared : String) (r : BoxRuntime) → stored (write_current h now prepared r) ≡ stored r
    unfolding write_current set_last_error
    write_current-stored prepared r = ground arith

    restored-stored :
        (e : String) (o : Option String) (r : BoxRuntime)
        → stored (restored h now e o r).1 ≡ stored r
    unfolding restored
    restored-stored e none r = set_last_error-stored _ r
    restored-stored e (some rest) r = set_last_error-stored _ r

    start_instance-stored :
        (config hash : String) (r : BoxRuntime)
        → (stored (start_instance h now config hash r).1 ≡ stored r)
          ⊎ (stored (start_instance h now config hash r).1 ≡ (config, hash))
    start_instance-stored config hash r = go (start_instance-cases h now config hash r)
      where
        go :
            StartCase now config hash r (start_instance h now config hash r)
            → (stored (start_instance h now config hash r).1 ≡ stored r)
              ⊎ (stored (start_instance h now config hash r).1 ≡ (config, hash))
        go (gave_up e is) = inl (ap (λ (o : Outcome). stored o.1) is)
        go (started is) = inr (ap (λ (o : Outcome). stored o.1) is)

    -- A restart from the stored configuration stores it again.
    restart-stored :
        (new : String) (r : BoxRuntime)
        → IsPrepared r.config_json
        → has_previous h now new r.config_json ≡ true
        → stored (start_from_json h now r.config_json r.config_hash r).1 ≡ stored r
    restart-stored new r prepared tries =
        go (start_from_json-cases h now r.config_json r.config_hash r)
      where
        go :
            RestartCase h now r.config_json r.config_hash r
              (start_from_json h now r.config_json r.config_hash r)
            → stored (start_from_json h now r.config_json r.config_hash r).1 ≡ stored r
        go (refused e is) = ap (λ (o : Outcome). stored o.1) is
        go (tried next prep is) =
            let same = previous_same now r.config_json new next prepared tries prep in
            ap (λ (o : Outcome). stored o.1) is
            ∙ elim (start_instance-stored next r.config_hash r) [
              | inl still ↦ still
              | inr now_stored ↦ now_stored ∙ ap (λ c. (c, r.config_hash)) same
            ]

    restore-stored :
        (e new : String) (r : BoxRuntime)
        → IsPrepared r.config_json
        → stored (restore h now e new r.config_json r.config_hash r).1 ≡ stored r
    restore-stored e new r prepared = elim (Bool-cases (has_previous h now new r.config_json)) [
      | inl tries ↦
          ap (λ (o : Outcome). stored o.1)
            (restore-tries h now e new r.config_json r.config_hash r tries)
          ∙ restored-stored e _ _
          ∙ restart-stored new r prepared tries
      | inr fails ↦
          ap (λ (o : Outcome). stored o.1)
            (restore-gives_up h now e new r.config_json r.config_hash r fails)
          ∙ set_last_error-stored e r
    ]

    restore_previous :
        (e new prev_json prev_hash : String) (r : BoxRuntime)
        → stored r ≡ (prev_json, prev_hash)
        → IsPrepared prev_json
        → stored (restore h now e new prev_json prev_hash r).1 ≡ stored r
    restore_previous e new prev_json prev_hash r same prepared =
        let from_r =
          restore-stored e new r
            (subst IsPrepared (sym (ap (λ (p : String × String). p.0) same)) prepared) in
        subst {A = String × String} (λ p. stored (restore h now e new p.0 p.1 r).1 ≡ stored r) same
          from_r

    reload-ok :
        (c hash : String) (r q : BoxRuntime)
        → start_instance h now c hash (stop_instance r) ≡ (none, q)
        → reload h now c hash r ≡ (none, write_current h now c q)
    unfolding after_start
    reload-ok c hash r q is =
        reload_eq h now c hash r
        ∙ ap (λ (o : Outcome). after_start h now c r.config_json r.config_hash o.0 o.1) is

    reload-err :
        (e c hash : String) (r q : BoxRuntime)
        → start_instance h now c hash (stop_instance r) ≡ (some e, q)
        → reload h now c hash r ≡ restore h now e c r.config_json r.config_hash q
    unfolding after_start
    reload-err e c hash r q is =
        reload_eq h now c hash r
        ∙ ap (λ (o : Outcome). after_start h now c r.config_json r.config_hash o.0 o.1) is

    reload-Stores :
        (config hash c : String) (r : BoxRuntime)
        → prepare_config h config ≡ ok c
        → IsPrepared r.config_json
        → Stores config hash r (reload h now c hash r)
    reload-Stores config hash c r prep prepared =
        go (start_instance-cases h now c hash (stop_instance r))
      where
        q : BoxRuntime
        q = stop_instance r

        go :
            StartCase now c hash q (start_instance h now c hash q)
            → Stores config hash r (reload h now c hash r)
        go (gave_up e is) = kept_stored (
            ap (λ (o : Outcome). stored o.1) (reload-err e c hash r (made q) is)
            ∙ restore_previous e c r.config_json r.config_hash (made q) (stop_instance-stored r)
                prepared
            ∙ stop_instance-stored r)
        go (started is) =
            let same = reload-ok c hash r (booted now c hash q) is in
            replaced (ap (λ (o : Outcome). o.0) same) c prep
              (ap (λ (o : Outcome). stored o.1) same ∙ write_current-stored c (booted now c hash q))

    pub apply-Stores :
        (config hash : String) (r : BoxRuntime)
        → IsPrepared r.config_json
        → Stores config hash r (apply h now config hash r)
    apply-Stores config hash r prepared = go (apply-cases h now config hash r)
      where
        p : BoxRuntime
        p = start_persist_loop r

        p-IsPrepared : IsPrepared p.config_json
        p-IsPrepared =
            subst IsPrepared (sym (ap (λ (s : String × String). s.0) (persist-stored r))) prepared

        shift : (o : Outcome) → Stores config hash p o → Stores config hash r o
        shift o (kept_stored e) = kept_stored (e ∙ persist-stored r)
        shift o (replaced done c prep e) = replaced done c prep e

        go :
            ApplyCase h now config hash p (apply h now config hash r)
            → Stores config hash r (apply h now config hash r)
        go (rejected e is) =
            kept_stored
              (ap (λ (o : Outcome). stored o.1) is ∙ set_last_error-stored e p ∙ persist-stored r)
        go (kept c prep same is) =
            kept_stored (ap (λ (o : Outcome). stored o.1) is ∙ persist-stored r)
        go (reloaded c prep opts parsed differs is) =
            subst {A = Outcome} (Stores config hash r) (sym is)
              (shift _ (reload-Stores config hash c p prep p-IsPrepared))
