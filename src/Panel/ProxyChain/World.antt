-- ===== src/Panel/ProxyChain/World.antt =====
-- What the service works on: the chains, nodes and snapshots of the store (store/models.go and
-- store/store.go) and the configurations that the agents run. The network, the configuration builder
-- and the validation of a chain are parameters.
use Prim.Native.String.{◌++◌ as concat}
use ladder_airport.Base.{
  if◌then◌else◌, Result, ℕ, ◌+◌, String, Bool, Option, none, some, List, [], ◌∷◌, str_eq,
}

pub record Hop : Type 0 where
  pub node_id : String
  pub inbound_id : String
  pub dial_address : String
  pub dial_port : ℕ
  pub tls_skip_verify : Bool

-- `failed_hop_index` is -1, here none, when unknown or healthy.
pub record ProxyChain : Type 0 where
  pub id : String
  pub name : String
  pub enabled : Bool
  pub state : String
  pub hops : List Hop
  pub last_deploy_unix : ℕ
  pub last_deploy_error : String
  pub last_probe_unix : ℕ
  pub last_probe_delay_ms : ℕ
  pub last_probe_error : String
  pub failed_hop_index : Option ℕ

pub record Node : Type 0 where
  pub id : String
  pub uplink : Bool
  pub capabilities : List String
  pub config_hash : String
  pub status : String
  pub runtime_state : String
  pub last_error : String
  pub last_seen_unix : ℕ

-- `nodeconfig.Result`.
pub record Config : Type 0 where
  pub json : String
  pub hash : String

pub record Snapshot : Type 0 where
  pub node_id : String
  pub config : Config
  pub task_id : String

-- `snapshots` has the newest first, `running` the configuration of each agent that runs one, and
-- `calls` counts the calls that left the service.
pub record World : Type 0 where
  pub nodes : List Node
  pub chains : List ProxyChain
  pub snapshots : List Snapshot
  pub running : List (String × Config)
  pub calls : ℕ

-- The answer to a call: it did not get through, or the agent says whether it was done.
pub data Answer : Type 0 where
  lost : String → Answer
  answered : Bool → String → Answer

-- The network and the clock, by the number of the call; `apply` also gives what the agent runs
-- afterwards, and `probe` the delay. `build` is Builder.BuildWithChains, `validate`
-- Store.ValidateProxyChain, and the two `…_fails` are faults of the store.
pub record Network : Type 0 where
  pub dial : ℕ → String → Option String
  pub ping : ℕ → String → Result (List String)
  pub apply : ℕ → String → Config → Option Config → Answer × Option Config
  pub probe : ℕ → String → String → String → Answer × ℕ
  pub uplink_connected : ℕ → String → Bool
  pub clock : ℕ → ℕ
  pub snapshot_fails : ℕ → String → Option String
  pub update_fails : ℕ → ProxyChain → Option String
  pub build : String → List ProxyChain → Result Config
  pub validate : ProxyChain → Option String
  pub chain_outbound_tag : String → ℕ → String

unfoldable pub get_node : String → List Node → Option Node
get_node id [] = none
get_node id (n ∷ ns) = let rest = get_node id ns in if str_eq n.id id then some n else rest

abbrev pub no_node : String → String
no_node id = concat "节点不存在：" id

unfoldable pub get_chain : String → List ProxyChain → Option ProxyChain
get_chain id [] = none
get_chain id (c ∷ cs) = let rest = get_chain id cs in if str_eq c.id id then some c else rest

abbrev pub no_chain : String → String
no_chain id = concat "代理链不存在：" id

unfoldable pub put_node : Node → List Node → List Node
put_node n [] = []
put_node n (m ∷ ms) = let rest = put_node n ms in (if str_eq m.id n.id then n else m) ∷ rest

unfoldable pub map_chain : String → (ProxyChain → ProxyChain) → List ProxyChain → List ProxyChain
map_chain id f [] = []
map_chain id f (c ∷ cs) = let rest = map_chain id f cs in (if str_eq c.id id then f c else c) ∷ rest

-- The lookup of a map from node ids, which is the zero configuration for a missing key.
unfoldable pub config_of : String → List (String × Config) → Config
config_of id [] = record { json = ""; hash = "" }
config_of id ((k, c) ∷ kcs) = let rest = config_of id kcs in if str_eq k id then c else rest

-- What an agent runs.
unfoldable pub runs : String → List (String × Config) → Option Config
runs id [] = none
runs id ((k, c) ∷ kcs) = let rest = runs id kcs in if str_eq k id then some c else rest

unfoldable pub stop_running : String → List (String × Config) → List (String × Config)
stop_running id [] = []
stop_running id ((k, c) ∷ kcs) =
    let rest = stop_running id kcs in if str_eq k id then rest else (k, c) ∷ rest

unfoldable pub set_running :
    String → Option Config → List (String × Config) → List (String × Config)
set_running id none kcs = stop_running id kcs
set_running id (some c) kcs = (id, c) ∷ stop_running id kcs

abbrev pub tick : World → World
tick w = record w { calls = w.calls + 1 }

module _ (net : Network) where
  unfoldable pub save_snapshot : Snapshot → World → Option String × World
  save_snapshot snap w = elim (net.snapshot_fails w.calls snap.node_id) [
    | some e ↦ (some (concat "保存配置快照失败：" e), tick w)
    | none ↦ (none, record w { snapshots = snap ∷ w.snapshots; calls = w.calls + 1 })
  ]

  -- SetProxyChainRuntime.
  unfoldable pub set_runtime : String → Bool → String → String → World → Option String × World
  set_runtime id enabled state deploy_error w = elim (get_chain id w.chains) [
    | none ↦ (some (no_chain id), w)
    | some _ ↦ (
      none,
      record w {
        chains =
            map_chain id
              (λ c. record c {
                enabled = enabled;
                state = state;
                last_deploy_unix = net.clock w.calls;
                last_deploy_error = deploy_error;
              })
              w.chains;
      },
    )
  ]

  -- SetProxyChainProbe of a success and of a failure; a chain that is disabled is left alone.
  unfoldable pub set_probe : String → Option (String × ℕ) → ℕ → World → World
  set_probe id failure delay w = record w {
    chains =
        map_chain id
          (λ c.
            if c.enabled
            then record c {
              state = elim failure [ none ↦ "healthy" | some _ ↦ "degraded" ];
              last_probe_unix = net.clock w.calls;
              last_probe_delay_ms = delay;
              last_probe_error = elim failure [ none ↦ "" | some f ↦ f.0 ];
              failed_hop_index = elim failure [ none ↦ none | some f ↦ some f.1 ];
            }
            else c)
          w.chains;
  }

  -- UpdateProxyChain, after its validation: the name, the hops, the state and the switch change.
  unfoldable pub update_chain : ProxyChain → World → Option String × World
  update_chain candidate w = elim (get_chain candidate.id w.chains) [
    | none ↦ (some (no_chain candidate.id), w)
    | some old ↦ elim (net.update_fails w.calls candidate) [
      | some e ↦ (some e, w)
      | none ↦ (
        none,
        record w {
          chains =
              map_chain candidate.id
                (λ c. record c {
                  name = candidate.name;
                  hops = candidate.hops;
                  enabled = candidate.enabled;
                  state = if str_eq candidate.state "" then c.state else candidate.state;
                })
                w.chains;
        },
      )
    ]
  ]
