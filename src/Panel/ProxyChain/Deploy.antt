-- ===== src/Panel/ProxyChain/Deploy.antt =====
-- Deploying and disabling a chain: the preflight checks, the ordered changes of the nodes, and the
-- rollback of those that were changed.
use Prim.Native.String.{◌++◌ as concat}
use ladder_airport.Base.{
  if◌then◌else◌, err, ok, decimal, ℕ, ◌+◌, String, Bool, true, false, not, ◌&&◌, Option, none, some,
  List, [], ◌∷◌, ◌++◌, str_eq,
}
use ladder_airport.Panel.ProxyChain.World.{
  Hop, ProxyChain, Node, Config, World, Network, get_node, no_node, get_chain, no_chain, put_node,
  config_of, runs, set_running, tick, save_snapshot, set_runtime, update_chain, lost, answered,
}
use ladder_airport.Panel.ProxyChain.Probe.{probe_locked}
use ladder_airport.Panel.ProxyChain.Plan.{
  effective_chains, contains, reverse, Configs, plan_deploy, plan_disable,
}

abbrev pub capability : String
capability = "proxy_chain_v1"

abbrev is_empty {ℓ} : {A : Type ℓ} → List A → Bool
is_empty [] = true
is_empty (_ ∷ _) = false

-- What was done for one node of the order.
pub data Applied : Type 0 where
  not_applied : String → Applied
  snapshot_saved : Applied
  config_applied : Applied

pub record Rollout : Type 0 where
  pub changed : List String
  pub failure : Option String
  pub world : World

abbrev pub first_error : Option String → Option String → Option String
first_error none e = e
first_error (some e) _ = some e

module _ (net : Network) where
  -- The hops are numbered from 1 in the messages.
  abbrev at_hop : ℕ → String → String
  at_hop i what = concat "第 " (concat (decimal (i + 1)) (concat " 跳" what))

  abbrev must_upgrade : ℕ → String
  must_upgrade i = at_hop i (concat "的 Agent 必须升级：缺少能力 " capability)

  -- The check of the hop at an index, with the error if it fails.
  unfoldable pub check_hop : ℕ → Node → World → Option String × World
  check_hop i node w =
      if node.uplink
      then (
        if not (is_empty node.capabilities) && not (contains capability node.capabilities)
            then some (must_upgrade i)
            else none,
        w,
      )
      else elim (net.dial w.calls node.id) [
        | some e ↦ (some (at_hop i (concat "连接失败：" e)), tick w)
        | none ↦ elim (net.ping (w.calls + 1) node.id) [
          | err e ↦ (some (at_hop i (concat "探测失败：" e)), tick (tick w))
          | ok capabilities ↦ (
            if contains capability capabilities then none else some (must_upgrade i),
            tick (tick w),
          )
        ]
      ]

  unfoldable pub preflight : ℕ → List Hop → World → Option String × World
  preflight i [] w = (none, w)
  preflight i (h ∷ hs) w = elim (get_node h.node_id w.nodes) [
    | none ↦ (some (no_node h.node_id), w)
    | some node ↦
        let (checked, w') = check_hop i node w in
        elim checked [ none ↦ preflight (i + 1) hs w' | some e ↦ (some e, w') ]
  ]

  -- ApplyConfig on an agent: the error, if the call is lost or refused.
  unfoldable pub apply_config : String → Config → World → Option String × World
  apply_config id cfg w =
      let (answer, after) = net.apply w.calls id cfg (runs id w.running) in
      let w' = record w { running = set_running id after w.running; calls = w.calls + 1 } in
      elim answer [
        | lost e ↦ (some e, w')
        | answered done message ↦ (if done then none else some message, w')
      ]

  -- The record of a node that took the configuration, and its snapshot; a fault here is ignored.
  unfoldable pub record_applied : String → Node → Config → String → World → World
  record_applied id node cfg task w =
      let updated = record node {
        config_hash = cfg.hash;
        status = "online";
        runtime_state = "running";
        last_error = "";
        last_seen_unix = net.clock w.calls;
      } in
      (save_snapshot net (record { node_id = id; config = cfg; task_id = task })
        (record w { nodes = put_node updated w.nodes })).1

  unfoldable pub apply_node : String → Node → Config → String → World → Applied × World
  apply_node id node cfg task w =
      if node.uplink
      then (let (failure, w') =
            save_snapshot net (record { node_id = id; config = cfg; task_id = task }) w in
          (elim failure [ none ↦ snapshot_saved | some e ↦ not_applied e ], w'))
      else elim (net.dial w.calls id) [
        | some e ↦ (not_applied (concat "连接节点 " (concat id (concat " 失败：" e))), tick w)
        | none ↦
            let (failure, w') = apply_config id cfg (tick w) in
            elim failure [
              | some e ↦ (not_applied (concat "向节点 " (concat id (concat " 下发配置失败：" e))), w')
              | none ↦ (config_applied, record_applied id node cfg task w')
            ]
      ]

  unfoldable pub apply_one : String → Config → String → World → Applied × World
  apply_one id cfg task w = elim (get_node id w.nodes) [
    | none ↦ (not_applied (no_node id), w)
    | some node ↦ apply_node id node cfg task w
  ]

  unfoldable pub apply_ordered :
      String → List (String × Config) → List String → List String → World → Rollout
  apply_ordered task configs [] changed w = record { changed = changed; failure = none; world = w }
  apply_ordered task configs (id ∷ ids) changed w =
      let r = apply_one id (config_of id configs) task w in
      elim r.0 [
        | not_applied e ↦ record { changed = changed; failure = some e; world = r.1 }
        | snapshot_saved ↦ apply_ordered task configs ids changed r.1
        | config_applied ↦ apply_ordered task configs ids (changed ++ id ∷ []) r.1
      ]

  -- The old configuration of one node again.
  unfoldable pub roll_back_one : String → Config → World → Option String × World
  roll_back_one id cfg w = elim (get_node id w.nodes) [
    | none ↦ (some (no_node id), w)
    | some node ↦ elim (net.dial w.calls id) [
      | some e ↦ (some (concat "节点 " (concat id (concat "：" e))), tick w)
      | none ↦
          let (failure, w') = apply_config id cfg (tick w) in
          (
            elim failure [ none ↦ none | some e ↦ some (concat "节点 " (concat id (concat "：" e))) ],
            w',
          )
    ]
  ]

  -- All of them are tried, and the first error is kept.
  unfoldable pub roll_back_each :
      List (String × Config) → List String → Option String → World → Option String × World
  roll_back_each configs [] first w = (first, w)
  roll_back_each configs (id ∷ ids) first w =
      let r = roll_back_one id (config_of id configs) w in
      roll_back_each configs ids (first_error first r.0) r.1

  unfoldable pub rollback : List String → List (String × Config) → World → Option String × World
  rollback changed configs w = roll_back_each configs (reverse changed) none w

  -- A rollout that failed with `e` is rolled back; the chain is marked when that fails too.
  unfoldable pub abandon :
      ProxyChain → Bool → Configs → String → List String → World → Option String × World
  abandon old enabled configs e changed w =
      let (rollback_error, w') = rollback changed configs.old_configs w in
      elim rollback_error [
        | none ↦ (some e, w')
        | some r ↦ (
          some (concat e (concat "（回滚失败：" (concat r "）"))),
          (set_runtime net old.id enabled "degraded" (concat e (concat "; rollback: " r)) w').1,
        )
      ]

  -- The candidate as it is stored: enabled, with the old name and hops where it gives none.
  unfoldable pub complete : ProxyChain → ProxyChain → ProxyChain
  complete old candidate = record candidate {
    enabled = true;
    state = "degraded";
    name = if str_eq candidate.name "" then old.name else candidate.name;
    hops = if is_empty candidate.hops then old.hops else candidate.hops;
  }

  -- The rollout of a planned chain and what is stored of it; the result of the probe is ignored.
  unfoldable pub roll_out :
      String → ProxyChain → ProxyChain → Configs → List String → World → Option String × World
  roll_out url old candidate configs order w =
      let r = apply_ordered "chain-deploy" configs.new_configs order [] w in
      elim r.failure [
        | some e ↦ abandon old old.enabled configs e r.changed r.world
        | none ↦
            let (update_error, w1) = update_chain net candidate r.world in
            elim update_error [
              | some e ↦ (some e, (rollback r.changed configs.old_configs w1).1)
              | none ↦
                  let (runtime_error, w2) = set_runtime net candidate.id true "degraded" "" w1 in
                  elim runtime_error [
                    | some e ↦ (some e, w2)
                    | none ↦ (none, (probe_locked net url candidate.id w2).1)
                  ]
            ]
      ]

  unfoldable pub deploy : String → ProxyChain → World → Option String × World
  deploy url given w = elim (get_chain given.id w.chains) [
    | none ↦ (some (no_chain given.id), w)
    | some old ↦
        let candidate = complete old given in
        elim (net.validate candidate) [
          | some e ↦ (some e, w)
          | none ↦
              elim (plan_deploy net old.hops candidate.hops (effective_chains none false w.chains)
                (effective_chains (some candidate) false w.chains)) [
                  | err e ↦ (some e, w)
                  | ok planned ↦
                      let (problem, w') = preflight 0 candidate.hops w in
                      elim problem [
                        | some e ↦ (some e, w')
                        | none ↦ roll_out url old candidate planned.0 planned.1 w'
                      ]
                ]
        ]
  ]

  unfoldable pub disable : String → World → Option String × World
  disable id w = elim (get_chain id w.chains) [
    | none ↦ (some (no_chain id), w)
    | some old ↦
        if not old.enabled
        then (none, w)
        else elim (plan_disable net old.hops (effective_chains none false w.chains)
            (effective_chains (some old) true w.chains)) [
              | err e ↦ (some e, w)
              | ok planned ↦
                  let r = apply_ordered "chain-disable" planned.0.new_configs planned.1 [] w in
                  elim r.failure [
                    | some e ↦ abandon old true planned.0 e r.changed r.world
                    | none ↦ set_runtime net id false "disabled" "" r.world
                  ]
            ]
  ]
