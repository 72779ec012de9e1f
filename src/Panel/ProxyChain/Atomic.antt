-- ===== src/Panel/ProxyChain/Atomic.antt =====
-- A deployment either succeeds, or is undone, or marks its chain.
use ladder_airport.Panel.ProxyChain.Rollout.{Kept-refl}
use ladder_airport.Panel.ProxyChain.Order.{contains-append_all, deploy_order_lem}
use ladder_airport.Base.{
  Option-cases, >>=-eq-ok, Result-cases, err, ok, ℕ, String, ◌≡◌, refl, sym, ap, ap₂, ◌∙◌, subst,
  ◌⊎◌, inl, inr, true, false, ◌||◌, Option, none, some, List, [], arith,
}
use ladder_airport.Panel.ProxyChain.World.{
  Hop, ProxyChain, World, Network, get_chain, config_of, runs,
}
use ladder_airport.Panel.ProxyChain.Plan.{
  effective_chains, contains, append_all, hop_nodes, deploy_order, Configs, build_configs,
  plan_deploy,
}
use ladder_airport.Panel.ProxyChain.Agents.{IsHonest, Kept, KeptBut, Kept-but}
use ladder_airport.Panel.ProxyChain.Failed.{
  get_chain-id, InSync, preflight-Kept, old_config, Marked, Abandoned, undone as undone_but,
  marked as marked_with,
}
use ladder_airport.Panel.ProxyChain.Deploy.{preflight, complete, roll_out, deploy}
use ladder_airport.Panel.ProxyChain.Stored.{roll_out-Abandoned}
use ladder_airport.Panel.ProxyChain.Progress.{Halted, all_known}

module _ (net : Network) (no_fault : (n : ℕ) (c : ProxyChain) → net.update_fails n c ≡ none) where
  -- How a deployment that fails with `e` leaves the world: every agent and the chains are as before,
  -- but for the agent that `e` names if its call failed; or the rollback of the planned rollout failed
  -- as well, and the chain is marked with both errors.
  pub data Failed (given : ProxyChain) (e : String) (w w' : World) : Type 0 where
    undone : (one : Option String) → Halted (some e) one → KeptBut one w w' → Failed given e w w'
    marked :
        (old : ProxyChain)
        → get_chain given.id w.chains ≡ some old
        → (plan : Configs × List String)
        → plan_deploy net old.hops
            (complete net old given).hops
            (effective_chains none false w.chains)
            (effective_chains (some (complete net old given)) false w.chains)
          ≡ ok plan
        → Marked net given.id e plan (preflight net 0 (complete net old given).hops w).1 w'
        → Failed given e w w'

  KeptBut-after :
      (one : Option String) (w w' w'' : World) → Kept w w' → KeptBut one w' w'' → KeptBut one w w''
  KeptBut-after one w w' w'' k u = record {
    chains = u.chains ∙ k.chains;
    agents = λ id other. u.agents id other ∙ k.agents id;
  }

  order-InSync :
      (old candidate : List Hop) (w w' : World) (planned : Configs × List String)
      → InSync net w
      → Kept w w'
      → (new_chains : List ProxyChain)
      → plan_deploy net old candidate (effective_chains none false w.chains) new_chains ≡ ok planned
      → (id : String) → contains id planned.1 ≡ true
      → runs id w'.running ≡ some (config_of id planned.0.old_configs)
  unfolding plan_deploy
  order-InSync old candidate w w' planned sync k new_chains plan id there_is =
      let nodes = append_all (append_all [] (hop_nodes old)) (hop_nodes candidate) in
      let (configs, built, last) =
        >>=-eq-ok (build_configs net (effective_chains none false w.chains) new_chains nodes) _
          plan in
      let same_configs : configs ≡ planned.0 = cc last in
      let same_order : deploy_order candidate old ≡ planned.1 = cc last in
      let ordered : contains id (deploy_order candidate old) ≡ true =
        ap (contains id) same_order ∙ there_is in
      let covers = (deploy_order_lem candidate old).1 id in
      let nodes_have =
        contains-append_all id (append_all [] (hop_nodes old)) (hop_nodes candidate)
        ∙ ap (λ b. b || contains id (hop_nodes candidate))
            (contains-append_all id [] (hop_nodes old)) in
      let planned_for : contains id nodes ≡ true =
        unfold contains in (ground (arith, nodes_have, covers, ordered)) in
      let old_built =
        old_config net (effective_chains none false w.chains) new_chains nodes configs built id
          planned_for in
      subst (λ (c : Configs). runs id w'.running ≡ some (config_of id c.old_configs)) same_configs
        (k.agents id ∙ unfold InSync in (sync id _ old_built))

  planned_Failed :
      IsHonest net
      → (url e : String) (given old : ProxyChain) (w : World) (plan : Configs × List String)
      → InSync net w
      → get_chain given.id w.chains ≡ some old
      → plan_deploy net old.hops
          (complete net old given).hops
          (effective_chains none false w.chains)
          (effective_chains (some (complete net old given)) false w.chains)
        ≡ ok plan
      → (roll_out net url old
          (complete net old given)
          plan.0
          plan.1
          (preflight net 0 (complete net old given).hops w).1).0
        ≡ some e
      → Failed given e w
          (roll_out net url old
            (complete net old given)
            plan.0
            plan.1
            (preflight net 0 (complete net old given).hops w).1).1
  planned_Failed fair url e given old w plan sync found planned failed = go (
      roll_out-Abandoned net no_fault fair url e old candidate plan w' candidate_id there_is
        (order-InSync old.hops candidate.hops w w' plan sync k _ planned) failed)
    where
      candidate : ProxyChain
      candidate = complete net old given

      w' : World
      w' = (preflight net 0 candidate.hops w).1

      k : Kept w w'
      k = preflight-Kept net 0 candidate.hops w

      old_id : old.id ≡ given.id
      old_id = get_chain-id given.id w.chains old found

      candidate_id : candidate.id ≡ old.id
      candidate_id = unfold complete in (sym old_id)

      there_is : get_chain old.id w'.chains ≡ some old
      there_is = ap₂ get_chain old_id k.chains ∙ found

      go :
          Abandoned net old.id e plan w' w' (roll_out net url old candidate plan.0 plan.1 w').1
          → Failed given e w (roll_out net url old candidate plan.0 plan.1 w').1
      go (undone_but one halted u) = undone one halted (KeptBut-after one w w' _ k u)
      go (marked_with m) = marked old found plan planned (
          subst (λ i. Marked net i e plan w' (roll_out net url old candidate plan.0 plan.1 w').1)
            old_id m)

  -- A deployment that returns an error leaves the chains as they were and every agent with the
  -- configuration that it ran before, but for one agent whose call was lost or refused, which the error
  -- names; or the rollback of the planned rollout failed, and the error returned and the chain, which
  -- is marked as degraded, carry the error of the rollout and that of the rollback. Before it, each
  -- agent runs the configuration of the enabled chains; an agent that says that it took a
  -- configuration runs it, and the update of the chain's row has no fault.
  pub deploy-Failed :
      IsHonest net
      → (url e : String) (given : ProxyChain) (w : World) → InSync net w
      → (deploy net url given w).0 ≡ some e
      → Failed given e w (deploy net url given w).1
  deploy-Failed fair url e given w sync failed = go (Option-cases (get_chain given.id w.chains))
    where
      Goal : Type 0
      Goal = Failed given e w (deploy net url given w).1

      unaffected : (w' : World) → Kept w w' → Failed given e w w'
      unaffected w' k = undone none (all_known refl) (Kept-but w w' k)

      unchanged : w ≡ (deploy net url given w).1 → Goal
      unchanged same = subst (Failed given e w) same (unaffected w (Kept-refl w))

      checked :
          (old : ProxyChain)
          → get_chain given.id w.chains ≡ some old
          → net.validate (complete net old given) ≡ none
          → (planned : Configs × List String)
          → plan_deploy net old.hops
              (complete net old given).hops
              (effective_chains none false w.chains)
              (effective_chains (some (complete net old given)) false w.chains)
            ≡ ok planned
          → ((preflight net 0 (complete net old given).hops w).0 ≡ none)
            ⊎ ((x : String) × ((preflight net 0 (complete net old given).hops w).0 ≡ some x))
          → Goal
      checked old found valid planned plan (inl fine) =
          let same : roll_out net url old (complete net old given) planned.0 planned.1
                (preflight net 0 (complete net old given).hops w).1
              ≡ deploy net url given w =
            unfold deploy in (ground (arith, found, valid, plan, fine)) in
          subst {A = Option String × World} (λ o. Failed given e w o.1) same
            (planned_Failed fair url e given old w planned sync found plan
              (ap (λ (o : Option String × World). o.0) same ∙ failed))
      checked old found valid planned plan (inr (x, bad)) =
          let same : (preflight net 0 (complete net old given).hops w).1
              ≡ (deploy net url given w).1 =
            unfold deploy in (ground (arith, found, valid, plan, bad)) in
          subst (Failed given e w) same
            (unaffected _ (preflight-Kept net 0 (complete net old given).hops w))

      planned_case :
          (old : ProxyChain)
          → get_chain given.id w.chains ≡ some old
          → net.validate (complete net old given) ≡ none
          → ((planned : Configs × List String) × (plan_deploy net old.hops
                  (complete net old given).hops
                  (effective_chains none false w.chains)
                  (effective_chains (some (complete net old given)) false w.chains)
                ≡ ok planned))
            ⊎ ((x : String) × (plan_deploy net old.hops
                    (complete net old given).hops
                    (effective_chains none false w.chains)
                    (effective_chains (some (complete net old given)) false w.chains)
                  ≡ err x))
          → Goal
      planned_case old found valid (inl (planned, plan)) =
          checked old found valid planned plan
            (Option-cases (preflight net 0 (complete net old given).hops w).0)
      planned_case old found valid (inr (x, bad)) =
          unchanged (unfold deploy in (ground (arith, found, valid, bad)))

      valid_case :
          (old : ProxyChain)
          → get_chain given.id w.chains ≡ some old
          → (net.validate (complete net old given) ≡ none)
            ⊎ ((x : String) × (net.validate (complete net old given) ≡ some x))
          → Goal
      valid_case old found (inl valid) = planned_case old found valid (
          Result-cases (
            plan_deploy net old.hops (complete net old given).hops
              (effective_chains none false w.chains)
              (effective_chains (some (complete net old given)) false w.chains)))
      valid_case old found (inr (x, bad)) =
          unchanged (unfold deploy in (ground (arith, found, bad)))

      go :
          (get_chain given.id w.chains ≡ none)
            ⊎ ((old : ProxyChain) × (get_chain given.id w.chains ≡ some old))
          → Goal
      go (inl missing) = unchanged (unfold deploy in (ground (arith, missing)))
      go (inr (old, found)) =
          valid_case old found (Option-cases (net.validate (complete net old given)))
