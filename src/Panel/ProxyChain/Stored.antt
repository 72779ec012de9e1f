-- ===== src/Panel/ProxyChain/Stored.antt =====
-- A rollout that fails, when the update of the row of its chain has no fault.

use ladder_airport.Base.{
  if◌then◌else◌, Option-cases, ℕ, String, ◌≡◌, refl, ap, ◌∙◌, subst, ◌⊎◌, inl, inr, Bool, true,
  Option, none, some, List, [], arith, str_eq,
}
use ladder_airport.Panel.ProxyChain.World.{
  ProxyChain, World, Network, get_chain, map_chain, config_of, runs, set_runtime, update_chain,
}
use ladder_airport.Panel.ProxyChain.Plan.{contains, Configs}
use ladder_airport.Panel.ProxyChain.Agents.{IsHonest, KeptBut}
use ladder_airport.Panel.ProxyChain.Progress.{Halted, RolledOut, apply_ordered-RolledOut}
use ladder_airport.Panel.ProxyChain.Undo.{rollback_undoes}
use ladder_airport.Panel.ProxyChain.Failed.{get_chain-map_chain, Abandoned, abandon-Abandoned}
use ladder_airport.Panel.ProxyChain.Deploy.{Rollout, apply_ordered, rollback, abandon, roll_out}

module _ (net : Network) (no_fault : (n : ℕ) (c : ProxyChain) → net.update_fails n c ≡ none) where
  updates : ProxyChain → ProxyChain → ProxyChain
  updates candidate c = record c {
    name = candidate.name;
    hops = candidate.hops;
    enabled = candidate.enabled;
    state = if str_eq candidate.state "" then c.state else candidate.state;
  }

  update_chain-ok :
      (candidate c : ProxyChain) (w : World)
      → get_chain candidate.id w.chains ≡ some c
      → update_chain net candidate w
        ≡ (none, record w { chains = map_chain candidate.id (updates candidate) w.chains })
  unfolding update_chain updates
  update_chain-ok candidate c w found = ground (arith, found, no_fault w.calls candidate)

  set_runtime-ok :
      (id state message : String) (enabled : Bool) (w : World) (c : ProxyChain)
      → get_chain id w.chains ≡ some c
      → (set_runtime net id enabled state message w).0 ≡ none
  unfolding set_runtime
  set_runtime-ok id state message enabled w c found = ground (arith, found)

  -- The changes of the store after a rollout without a failure do not fail.
  stored_ok :
      (url : String) (old candidate c : ProxyChain) (configs : Configs) (order : List String)
      (w : World)
      → (apply_ordered net "chain-deploy" configs.new_configs order [] w).failure ≡ none
      → get_chain candidate.id
          (apply_ordered net "chain-deploy" configs.new_configs order [] w).world.chains
        ≡ some c
      → (roll_out net url old candidate configs order w).0 ≡ none
  unfolding roll_out
  stored_ok url old candidate c configs order w fine found =
      let r = apply_ordered net "chain-deploy" configs.new_configs order [] w in
      let w1 = record (r.world) {
        chains = map_chain candidate.id (updates candidate) (r.world).chains;
      } in
      let there_is : get_chain candidate.id w1.chains ≡ some (updates candidate c) =
        get_chain-map_chain candidate.id (updates candidate) (r.world).chains c
          (unfold updates in (λ x. refl)) found in
      ground (
        arith,
        fine,
        update_chain-ok candidate c r.world found,
        set_runtime-ok candidate.id "degraded" "" true w1 (updates candidate c) there_is,
      )

  pub roll_out-Abandoned :
      IsHonest net
      → (url e : String) (old candidate : ProxyChain) (plan : Configs × List String) (w : World)
      → candidate.id ≡ old.id
      → get_chain old.id w.chains ≡ some old
      → ((id : String)
          → contains id plan.1 ≡ true
          → runs id w.running ≡ some (config_of id plan.0.old_configs))
      → (roll_out net url old candidate plan.0 plan.1 w).0 ≡ some e
      → Abandoned net old.id e plan w w (roll_out net url old candidate plan.0 plan.1 w).1
  roll_out-Abandoned fair url e old candidate plan w same_id found in_sync failed =
      go (Option-cases r.failure)
    where
      r : Rollout
      r = apply_ordered net "chain-deploy" plan.0.new_configs plan.1 [] w

      out : RolledOut plan.0.new_configs "chain-deploy" w plan.1 [] w r
      out = apply_ordered-RolledOut net fair "chain-deploy" plan.0.new_configs plan.1 w

      there_is : get_chain old.id r.world.chains ≡ some old
      there_is = ap (get_chain old.id) out.progress.chains ∙ found

      rolled_back :
          (x : String)
          → r.failure ≡ some x
          → (rollback net r.changed plan.0.old_configs r.world).0 ≡ none
          → (one : Option String) × Halted (some x) one
            × KeptBut one w (rollback net r.changed plan.0.old_configs r.world).1
      rolled_back x bad fine =
          subst
            (λ f.
              (one : Option String) × Halted f one
              × KeptBut one w (rollback net r.changed plan.0.old_configs r.world).1)
            bad
            (rollback_undoes net fair "chain-deploy" plan.0.new_configs plan.0.old_configs plan.1 w
              (λ id changed. in_sync id (unfold contains in (ground (arith, out.only id changed))))
              fine)

      go :
          (r.failure ≡ none) ⊎ ((x : String) × (r.failure ≡ some x))
          → Abandoned net old.id e plan w w (roll_out net url old candidate plan.0 plan.1 w).1
      go (inl fine) = absurd (
          cc (
            stored_ok url old candidate old plan.0 plan.1 w fine
                (ap (λ i. get_chain i r.world.chains) same_id ∙ there_is),
            failed,
          ))
      go (inr (x, bad)) =
          let same : abandon net old old.enabled plan.0 x r.changed r.world
              ≡ roll_out net url old candidate plan.0 plan.1 w =
            unfold roll_out in (ground (arith, bad)) in
          subst {A = Option String × World} (λ o. Abandoned net old.id e plan w w o.1) same
            (abandon-Abandoned net fair old old.enabled plan e x w bad there_is (rolled_back x bad)
              (ap (λ (o : Option String × World). o.0) same ∙ failed))
