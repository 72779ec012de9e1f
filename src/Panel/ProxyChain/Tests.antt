-- ===== src/Panel/ProxyChain/Tests.antt =====
-- A chain over two nodes of which the second refuses configurations and then runs none, and the theorems on it.
use ladder_airport.Panel.ProxyChain.Diagnosis.{Named, diagnose-Named}
use Prim.Native.String.{◌++◌ as concat}
use ladder_airport.Base.{
  if◌then◌else◌, Bool-cases, err, ok, ℕ, zero, suc, ◌+◌, String, ◌≡◌, refl, sym, subst, ◌≢◌, inl,
  inr, Bool, true, false, ◌||◌, Option, none, some, List, [], ◌∷◌, ◌++◌, arith, str_eq, str_eq_iff,
}
use ladder_airport.Panel.ProxyChain.World.{
  Hop, ProxyChain, Node, Config, World, Answer, Network, get_node, get_chain, put_node, map_chain,
  config_of, runs, stop_running, set_running, save_snapshot, set_runtime, set_probe, update_chain,
  lost, answered,
}
use ladder_airport.Panel.ProxyChain.Plan.{
  enable, effective_rest, effective_chains, contains, append_unique, append_all, hop_nodes, reverse,
  deploy_order, build_configs, plan_deploy,
}
use ladder_airport.Panel.ProxyChain.Order.{unique, deploy_order_lem}
use ladder_airport.Panel.ProxyChain.Effective.{
  enabled_ones, chains_of, effective_chains_lem, single,
}
use ladder_airport.Panel.ProxyChain.Agents.{IsHonest, KeptBut}
use ladder_airport.Panel.ProxyChain.Progress.{Halted, RolledOut, apply_ordered-RolledOut}
use ladder_airport.Panel.ProxyChain.Undo.{rollback_undoes}
use ladder_airport.Panel.ProxyChain.Failed.{InSync}
use ladder_airport.Panel.ProxyChain.Atomic.{Failed, deploy-Failed}
use ladder_airport.Panel.ProxyChain.Probe.{
  is_passed, probe_node, probe_hop, diagnose_from, diagnose,
}
use ladder_airport.Panel.ProxyChain.Deploy.{
  capability, check_hop, preflight, apply_config, record_applied, apply_node, apply_one,
  apply_ordered, roll_back_one, roll_back_each, rollback, abandon, complete, roll_out, deploy,
}

abbrev is_none {ℓ} : {A : Type ℓ} → List A → Bool
is_none [] = true
is_none (_ ∷ _) = false

abbrev config : String → List ProxyChain → Config
config id chains = record { json = concat id (if is_none chains then "" else "+chain"); hash = id }

abbrev take_config : String → Config → Option Config → Answer × Option Config
take_config id cfg before =
    if str_eq "bad" id then (answered false "no", none) else (answered true "", some cfg)

abbrev net : Network
net = record {
  dial = λ n id. none;
  ping = λ n id. ok (capability ∷ []);
  apply = λ n id cfg before. take_config id cfg before;
  probe = λ n id tag url. (if str_eq "bad" id then lost "timeout" else answered true "", 20);
  uplink_connected = λ n id. false;
  clock = λ n. 100 + n;
  snapshot_fails = λ n id. none;
  update_fails = λ n c. none;
  build = λ id chains.
      if str_eq "a" id
      then ok (config id chains)
      else if str_eq "bad" id
      then ok (config id chains)
      else err "no node";
  validate = λ c. none;
  chain_outbound_tag = λ id i. id;
}

abbrev hop : String → Hop
hop id = record {
  node_id = id;
  inbound_id = "in";
  dial_address = id;
  dial_port = 443;
  tls_skip_verify = false;
}

abbrev chain : ProxyChain
chain = record {
  id = "c1";
  name = "chain";
  enabled = false;
  state = "disabled";
  hops = hop "bad" ∷ hop "a" ∷ [];
  last_deploy_unix = 0;
  last_deploy_error = "";
  last_probe_unix = 0;
  last_probe_delay_ms = 0;
  last_probe_error = "";
  failed_hop_index = none;
}

abbrev node : String → Node
node id = record {
  id = id;
  uplink = false;
  capabilities = [];
  config_hash = "";
  status = "online";
  runtime_state = "running";
  last_error = "";
  last_seen_unix = 0;
}

abbrev world : World
world = record {
  nodes = node "a" ∷ node "bad" ∷ [];
  chains = chain ∷ [];
  snapshots = [];
  running = ("a", config "a" []) ∷ ("bad", config "bad" []) ∷ [];
  calls = 0;
}

net-IsHonest : IsHonest net
net-IsHonest = record { took = λ n id m cfg before e. ground (arith, e) }

evaluates : Unit {0}
unfolding get_node get_chain map_chain put_node set_running stop_running save_snapshot set_runtime
    update_chain set_probe contains append_all append_unique hop_nodes reverse build_configs
    plan_deploy deploy_order effective_chains effective_rest check_hop preflight apply_config
    record_applied apply_node apply_one apply_ordered roll_back_one roll_back_each rollback abandon
    complete roll_out deploy config_of runs unique probe_hop probe_node diagnose diagnose_from
evaluates = tt

abbrev Synced : Config → String → Type 0
Synced cfg id = net.build id [] ≡ ok cfg → runs id world.running ≡ some cfg

world-InSync : InSync net world
unfolding InSync runs effective_chains effective_rest
world-InSync id cfg e = elim (Bool-cases (str_eq "a" id)) [
  | inl hit ↦ subst (Synced cfg) ((str_eq_iff "a" id).0 hit) (λ built. cc built) e
  | inr miss ↦ elim (Bool-cases (str_eq "bad" id)) [
    | inl hit ↦ subst (Synced cfg) ((str_eq_iff "bad" id).0 hit) (λ built. cc built) e
    | inr neither ↦ absurd (ground (arith, miss, neither, e))
  ]
]

deploy-Failed_example :
    Failed net
      (λ n c. refl)
      chain
      "向节点 bad 下发配置失败：no"
      world
      (deploy net "http://probe" chain world).1
unfolding evaluates
deploy-Failed_example =
    deploy-Failed net (λ n c. refl) net-IsHonest "http://probe" "向节点 bad 下发配置失败：no" chain world
      world-InSync refl

deploy_runs : (deploy net "http://probe" chain world).1.chains ≡ world.chains
unfolding evaluates
deploy_runs = refl

deploy_order_lem_example :
    (unique (deploy_order chain.hops (hop "b" ∷ [])) ≡ true)
    × ((id : String)
        → contains id (deploy_order chain.hops (hop "b" ∷ []))
          ≡ (contains id (hop_nodes chain.hops) || contains id (hop_nodes (hop "b" ∷ []))))
    × (unique (hop_nodes chain.hops) ≡ true
        → (rest : List String) × (deploy_order chain.hops (hop "b" ∷ [])
            ≡ reverse (hop_nodes chain.hops) ++ rest))
deploy_order_lem_example = deploy_order_lem chain.hops (hop "b" ∷ [])

effective_chains_lem_example :
    (chains_of "c1" (effective_chains (some chain) false (chain ∷ [])) ≡ enable chain ∷ [])
    × (chains_of "c1" (effective_chains (some chain) true (chain ∷ [])) ≡ [])
    × ((id : String) (disable : Bool)
        → id ≢ "c1"
        → chains_of id (effective_chains (some chain) disable (chain ∷ []))
          ≡ enabled_ones (chains_of id (chain ∷ [])))
effective_chains_lem_example = effective_chains_lem chain (chain ∷ []) (single chain refl refl)

abbrev new_configs : List (String × Config)
new_configs = ("a", config "a" (chain ∷ [])) ∷ ("bad", config "bad" (chain ∷ [])) ∷ []

apply_ordered-RolledOut_example :
    RolledOut new_configs "chain-deploy" world
      ("a" ∷ "bad" ∷ [])
      []
      world
      (apply_ordered net "chain-deploy" new_configs ("a" ∷ "bad" ∷ []) [] world)
apply_ordered-RolledOut_example =
    apply_ordered-RolledOut net net-IsHonest "chain-deploy" new_configs ("a" ∷ "bad" ∷ []) world

in_sync :
    (id : String)
    → contains id (apply_ordered net "chain-deploy" new_configs ("a" ∷ "bad" ∷ []) [] world).changed
      ≡ true
    → runs id world.running ≡ some (config_of id world.running)
unfolding evaluates
in_sync id e = ground (arith, e, str_eq_iff "a" id)

rollback_undoes_example :
    (one : Option String) × Halted
      (apply_ordered net "chain-deploy" new_configs ("a" ∷ "bad" ∷ []) [] world).failure
      one
    × KeptBut one world
        (rollback net
          (apply_ordered net "chain-deploy" new_configs ("a" ∷ "bad" ∷ []) [] world).changed
          world.running
          (apply_ordered net "chain-deploy" new_configs ("a" ∷ "bad" ∷ []) [] world).world).1
unfolding evaluates
rollback_undoes_example =
    rollback_undoes net net-IsHonest "chain-deploy" new_configs world.running ("a" ∷ "bad" ∷ [])
      world in_sync refl

abbrev passes : ℕ → Bool
passes zero = false
passes (suc zero) = true
passes (suc (suc i)) = false

no_name : (ns : List Node) → ns ≡ world.nodes → get_node "" ns ≡ none
unfolding get_node
no_name ns e = subst (λ xs. get_node "" xs ≡ none) (sym e) refl

steady :
    (i : ℕ) (w : World)
    → w.nodes ≡ world.nodes
    → is_passed (probe_hop net "u" chain i w).0 ≡ passes i
unfolding evaluates
steady zero w e = rw e refl
steady (suc zero) w e = rw e refl
steady (suc (suc i)) w e = rw e refl

diagnose-Named_example : Named passes 2 (diagnose net "u" chain world).0
diagnose-Named_example = diagnose-Named net "u" chain passes world.nodes steady world refl

diagnose_runs : (diagnose net "u" chain world).0 ≡ 1
unfolding evaluates
diagnose_runs = refl
