-- ===== src/Panel/ProxyChain/Plan.antt =====
-- Which configurations a deployment changes, and in which order (effectiveChains, planConfigs and
-- Preview).
use ladder_airport.Base.{
  if◌then◌else◌, any, Result, ◌>>=◌, ok, String, Bool, true, false, not, ◌&&◌, Option, none, some,
  List, [], ◌∷◌, ◌++◌, str_eq,
}
use ladder_airport.Panel.ProxyChain.World.{Hop, ProxyChain, Config, Network}

abbrev pub enable : ProxyChain → ProxyChain
enable c = record c { enabled = true }

-- The chains that hold once `replacement`, if any, is deployed, or disabled.
unfoldable pub effective_rest : Option ProxyChain → Bool → List ProxyChain → List ProxyChain
effective_rest replacement disable [] = []
effective_rest none disable (c ∷ cs) =
    let rest = effective_rest none disable cs in if c.enabled then c ∷ rest else rest
effective_rest (some r) disable (c ∷ cs) =
    let rest = effective_rest (some r) disable cs in
    if str_eq c.id r.id
    then (if disable then rest else enable r ∷ rest)
    else if c.enabled
    then c ∷ rest
    else rest

abbrev pub has_chain : String → ProxyChain → Bool
has_chain id c = str_eq c.id id

unfoldable pub effective_chains : Option ProxyChain → Bool → List ProxyChain → List ProxyChain
effective_chains none disable chains = effective_rest none disable chains
effective_chains (some r) disable chains =
    effective_rest (some r) disable chains
    ++ (if not (any (has_chain r.id) chains) && not disable then enable r ∷ [] else [])

unfoldable pub contains : String → List String → Bool
contains id ids = any (λ x. str_eq x id) ids

unfoldable pub append_unique : List String → String → List String
append_unique values value = if contains value values then values else values ++ value ∷ []

unfoldable pub append_all : List String → List String → List String
append_all values [] = values
append_all values (v ∷ vs) = append_all (append_unique values v) vs

unfoldable pub hop_nodes : List Hop → List String
hop_nodes [] = []
hop_nodes (h ∷ hs) = h.node_id ∷ hop_nodes hs

unfoldable pub reverse {ℓ} : {A : Type ℓ} → List A → List A
reverse [] = []
reverse (x ∷ xs) = reverse xs ++ x ∷ []

-- A chain is deployed from its exit to its entry, then on the nodes that it leaves; it is disabled
-- from its entry.
unfoldable pub deploy_order : List Hop → List Hop → List String
deploy_order base old = append_all (append_all [] (reverse (hop_nodes base))) (hop_nodes old)

unfoldable pub disable_order : List Hop → List String
disable_order base = append_all [] (hop_nodes base)

pub record Configs : Type 0 where
  pub old_configs : List (String × Config)
  pub new_configs : List (String × Config)

module _ (net : Network) where
  -- The configurations of the nodes before and after. The code ranges over a map, in any order.
  unfoldable pub build_configs : List ProxyChain → List ProxyChain → List String → Result Configs
  build_configs old_chains new_chains [] = ok (record { old_configs = []; new_configs = [] })
  build_configs old_chains new_chains (id ∷ ids) = net.build id old_chains >>= λ old_cfg.
      net.build id new_chains >>= λ new_cfg. build_configs old_chains new_chains ids >>= λ rest.
      ok (record {
        old_configs = (id, old_cfg) ∷ rest.old_configs;
        new_configs = (id, new_cfg) ∷ rest.new_configs;
      })

  -- planConfigs for a deployment and for a disabling, with the order of the nodes.
  unfoldable pub plan_deploy :
      List Hop → List Hop → List ProxyChain → List ProxyChain → Result (Configs × List String)
  plan_deploy old candidate old_chains new_chains =
      build_configs old_chains new_chains
        (append_all (append_all [] (hop_nodes old)) (hop_nodes candidate))
      >>= λ configs. ok (configs, deploy_order candidate old)

  unfoldable pub plan_disable :
      List Hop → List ProxyChain → List ProxyChain → Result (Configs × List String)
  plan_disable old old_chains new_chains =
      build_configs old_chains new_chains (append_all [] (hop_nodes old)) >>= λ configs.
      ok (configs, disable_order old)

  -- Preview: the configuration of each node of the chain, as if it were deployed.
  unfoldable pub preview_configs :
      List ProxyChain → List String → List (String × Config) → Result (List (String × Config))
  preview_configs chains [] results = ok results
  preview_configs chains (id ∷ ids) results =
      if any (λ r. str_eq r.0 id) results
      then preview_configs chains ids results
      else net.build id chains >>= λ cfg. preview_configs chains ids (results ++ (id, cfg) ∷ [])

  unfoldable pub preview : ProxyChain → List ProxyChain → Result (List (String × Config))
  preview candidate0 stored =
      let candidate = enable (record candidate0 {
        id = if str_eq candidate0.id "" then "preview-chain" else candidate0.id;
      }) in
      preview_configs (effective_chains (some candidate) false stored) (hop_nodes candidate.hops) []
