-- ===== src/Panel/ProxyChain/Failed.antt =====
-- A deployment that fails.
use ladder_airport.Panel.ProxyChain.Undo.{Kept-trans, rollback-chains}
use Prim.Native.String.{◌++◌ as concat}
use ladder_airport.Base.{
  Bool-cases, Option-cases, >>=-eq-ok, ok, ℕ, ◌+◌, String, ◌≡◌, refl, sym, ap, ◌∙◌, subst, ◌⊎◌, inl,
  inr, Bool, true, false, Option, none, some, List, [], ◌∷◌, arith, str_eq, str_eq_iff,
}
use ladder_airport.Panel.ProxyChain.World.{
  Hop, ProxyChain, Node, Config, World, Network, get_node, get_chain, map_chain, config_of, runs,
  set_runtime,
}
use ladder_airport.Panel.ProxyChain.Plan.{effective_chains, contains, Configs, build_configs}
use ladder_airport.Panel.ProxyChain.Agents.{IsHonest, Kept, KeptBut}
use ladder_airport.Panel.ProxyChain.Rollout.{Kept-refl}
use ladder_airport.Panel.ProxyChain.Progress.{Halted}
use ladder_airport.Panel.ProxyChain.Deploy.{
  Rollout, check_hop, preflight, apply_ordered, rollback, abandon,
}

pub get_chain-id :
    (id : String) (cs : List ProxyChain) (c : ProxyChain) → get_chain id cs ≡ some c → c.id ≡ id
unfolding get_chain
get_chain-id id [] c e = absurd (cc e)
get_chain-id id (x ∷ xs) c e = elim (Bool-cases (str_eq x.id id)) [
  | inl hit ↦
      let same : x ≡ c = ground (arith, hit, e) in
      ap (λ (y : ProxyChain). y.id) (sym same) ∙ (str_eq_iff x.id id).0 hit
  | inr miss ↦ get_chain-id id xs c (ground (arith, miss, e))
]

pub get_chain-map_chain :
    (id : String) (f : ProxyChain → ProxyChain) (cs : List ProxyChain) (c : ProxyChain)
    → ((x : ProxyChain) → (f x).id ≡ x.id)
    → get_chain id cs ≡ some c
    → get_chain id (map_chain id f cs) ≡ some (f c)
unfolding get_chain map_chain
get_chain-map_chain id f [] c keeps e = absurd (cc e)
get_chain-map_chain id f (x ∷ xs) c keeps e = elim (Bool-cases (str_eq x.id id)) [
  | inl hit ↦ ground (arith, hit, e, keeps x)
  | inr miss ↦ ground (arith, miss, get_chain-map_chain id f xs c keeps (ground (arith, miss, e)))
]

-- The rollout of a plan from the world `at` failed and its rollback failed too; `e` is the error with
-- both, and the chain is marked as degraded with both.
pub record Marked (net : Network) (id e : String) (plan : Configs × List String) (at w : World)
    : Type 0 where
  pub failure : String
  pub rollback_failure : String
  pub rollout_failed :
      (apply_ordered net "chain-deploy" plan.0.new_configs plan.1 [] at).failure ≡ some failure
  pub rollback_failed :
      (rollback net
        (apply_ordered net "chain-deploy" plan.0.new_configs plan.1 [] at).changed
        plan.0.old_configs
        (apply_ordered net "chain-deploy" plan.0.new_configs plan.1 [] at).world).0
      ≡ some rollback_failure
  pub returned : e ≡ concat failure (concat "（回滚失败：" (concat rollback_failure "）"))
  pub chain : ProxyChain
  pub found : get_chain id w.chains ≡ some chain
  pub state : chain.state ≡ "degraded"
  pub deploy_error :
      chain.last_deploy_error ≡ concat failure (concat "; rollback: " rollback_failure)

module _ (net : Network) where
  -- Each agent of a node that can be configured runs the configuration of the enabled chains.
  unfoldable pub InSync : World → Type 0
  InSync w =
      (id : String) (cfg : Config)
      → net.build id (effective_chains none false w.chains) ≡ ok cfg
      → runs id w.running ≡ some cfg

  check_hop-Kept : (i : ℕ) (node : Node) (w : World) → Kept w (check_hop net i node w).1
  unfolding check_hop
  check_hop-Kept i node w = record { chains = ground arith; agents = λ id. ground arith }

  preflight-step :
      (i : ℕ) (h : Hop) (hs : List Hop) (w : World)
      → ((w' : World) → Kept w' (preflight net (i + 1) hs w').1)
      → Kept w (preflight net i (h ∷ hs) w).1
  preflight-step i h hs w rest = go (Option-cases (get_node h.node_id w.nodes))
    where
      checked :
          (node : Node)
          → get_node h.node_id w.nodes ≡ some node
          → ((check_hop net i node w).0 ≡ none)
            ⊎ ((e : String) × ((check_hop net i node w).0 ≡ some e))
          → Kept w (preflight net i (h ∷ hs) w).1
      checked node found (inl fine) =
          let w' = (check_hop net i node w).1 in
          let same : (preflight net (i + 1) hs w').1 ≡ (preflight net i (h ∷ hs) w).1 =
            unfold preflight in (ground (arith, found, fine)) in
          subst (Kept w) same (Kept-trans w w' _ (check_hop-Kept i node w) (rest w'))
      checked node found (inr (e, bad)) =
          let same : (check_hop net i node w).1 ≡ (preflight net i (h ∷ hs) w).1 =
            unfold preflight in (ground (arith, found, bad)) in
          subst (Kept w) same (check_hop-Kept i node w)

      go :
          (get_node h.node_id w.nodes ≡ none)
            ⊎ ((node : Node) × (get_node h.node_id w.nodes ≡ some node))
          → Kept w (preflight net i (h ∷ hs) w).1
      go (inl missing) =
          let same : w ≡ (preflight net i (h ∷ hs) w).1 =
            unfold preflight in (ground (arith, missing)) in
          subst (Kept w) same (Kept-refl w)
      go (inr (node, found)) = checked node found (Option-cases (check_hop net i node w).0)

  pub preflight-Kept : (i : ℕ) (hs : List Hop) (w : World) → Kept w (preflight net i hs w).1
  preflight-Kept i [] w = unfold preflight in (Kept-refl w)
  preflight-Kept i (h ∷ hs) w = preflight-step i h hs w (preflight-Kept (i + 1) hs)

  marks : Bool → String → World → ProxyChain → ProxyChain
  marks enabled message w c = record c {
    enabled = enabled;
    state = "degraded";
    last_deploy_unix = net.clock w.calls;
    last_deploy_error = message;
  }

  set_runtime-marks :
      (id message : String) (enabled : Bool) (w : World) (c : ProxyChain)
      → get_chain id w.chains ≡ some c
      → get_chain id (set_runtime net id enabled "degraded" message w).1.chains
        ≡ some (marks enabled message w c)
  set_runtime-marks id message enabled w c found =
      let same : map_chain id (marks enabled message w) w.chains
          ≡ (set_runtime net id enabled "degraded" message w).1.chains =
        unfold set_runtime marks in (ground (arith, found)) in
      ap (get_chain id) (sym same)
      ∙ get_chain-map_chain id (marks enabled message w) w.chains c (unfold marks in (λ x. refl))
          found

  pub old_config :
      (old_chains new_chains : List ProxyChain) (ids : List String) (configs : Configs)
      → build_configs net old_chains new_chains ids ≡ ok configs
      → (id : String) → contains id ids ≡ true
      → net.build id old_chains ≡ ok (config_of id configs.old_configs)
  unfolding build_configs config_of contains
  old_config old_chains new_chains [] configs e id there_is = absurd (cc there_is)
  old_config old_chains new_chains (x ∷ xs) configs e id there_is =
      let (old_cfg, built, e1) = >>=-eq-ok (net.build x old_chains) _ e in
      let (new_cfg, _, e2) = >>=-eq-ok (net.build x new_chains) _ e1 in
      let (rest, more, e3) = >>=-eq-ok (build_configs net old_chains new_chains xs) _ e2 in
      let olds : (x, old_cfg) ∷ rest.old_configs ≡ configs.old_configs = cc e3 in
      elim (Bool-cases (str_eq x id)) [
        | inl hit ↦
            let x_is : x ≡ id = (str_eq_iff x id).0 hit in
            subst (λ (l : List (String × Config)). net.build id old_chains ≡ ok (config_of id l))
              olds
              (ground (arith, hit, subst (λ y. net.build y old_chains ≡ ok old_cfg) x_is built))
        | inr miss ↦
            subst (λ (l : List (String × Config)). net.build id old_chains ≡ ok (config_of id l))
              olds
              (ground (
                arith,
                miss,
                old_config old_chains new_chains xs rest more id (ground (arith, there_is, miss)),
              ))
      ]

  -- How a rollout that failed with the error `e` leaves the world, which was `w0` before it: undone,
  -- but for the agent that `e` names if its call failed, or marked.
  pub data Abandoned (id e : String) (plan : Configs × List String) (at w0 w' : World)
      : Type 0 where
    undone :
        (one : Option String)
        → Halted (some e) one
        → KeptBut one w0 w'
        → Abandoned id e plan at w0 w'
    marked : Marked net id e plan at w' → Abandoned id e plan at w0 w'

  -- What a rollback after a failure leaves, if it undoes the rollout when it has no error.
  pub abandon-Abandoned :
      IsHonest net
      → (old : ProxyChain) (enabled : Bool) (plan : Configs × List String) (e x : String)
        (at : World)
      → (apply_ordered net "chain-deploy" plan.0.new_configs plan.1 [] at).failure ≡ some x
      → get_chain old.id
          (apply_ordered net "chain-deploy" plan.0.new_configs plan.1 [] at).world.chains
        ≡ some old
      → ((rollback net
              (apply_ordered net "chain-deploy" plan.0.new_configs plan.1 [] at).changed
              plan.0.old_configs
              (apply_ordered net "chain-deploy" plan.0.new_configs plan.1 [] at).world).0
            ≡ none
          → (one : Option String) × Halted (some x) one
            × KeptBut one at
                (rollback net
                  (apply_ordered net "chain-deploy" plan.0.new_configs plan.1 [] at).changed
                  plan.0.old_configs
                  (apply_ordered net "chain-deploy" plan.0.new_configs plan.1 [] at).world).1)
      → (abandon net old enabled plan.0 x
          (apply_ordered net "chain-deploy" plan.0.new_configs plan.1 [] at).changed
          (apply_ordered net "chain-deploy" plan.0.new_configs plan.1 [] at).world).0
        ≡ some e
      → Abandoned old.id e plan at at
          (abandon net old enabled plan.0 x
            (apply_ordered net "chain-deploy" plan.0.new_configs plan.1 [] at).changed
            (apply_ordered net "chain-deploy" plan.0.new_configs plan.1 [] at).world).1
  abandon-Abandoned fair old enabled plan e x at bad_rollout found undoes failed =
      go (Option-cases back.0)
    where
      r : Rollout
      r = apply_ordered net "chain-deploy" plan.0.new_configs plan.1 [] at

      back : Option String × World
      back = rollback net r.changed plan.0.old_configs r.world

      ended : Option String × World
      ended = abandon net old enabled plan.0 x r.changed r.world

      go :
          (back.0 ≡ none) ⊎ ((b : String) × (back.0 ≡ some b))
          → Abandoned old.id e plan at at ended.1
      go (inl fine) =
          let same : (some x, back.1) ≡ ended = unfold abandon in (ground (arith, fine)) in
          let both : some x ≡ some e = ap (λ (o : Option String × World). o.0) same ∙ failed in
          let is : x ≡ e = cc both in
          let (one, halted, kept) = undoes fine in
          undone one (subst (λ m. Halted (some m) one) is halted)
            (subst {A = Option String × World} (λ o. KeptBut one at o.1) same kept)
      go (inr (b, bad)) =
          let message = concat x (concat "; rollback: " b) in
          let text = concat x (concat "（回滚失败：" (concat b "）")) in
          let same : (some text, (set_runtime net old.id enabled "degraded" message back.1).1)
              ≡ ended =
            unfold abandon in (ground (arith, bad)) in
          let both : some text ≡ some e = ap (λ (o : Option String × World). o.0) same ∙ failed in
          let is : text ≡ e = cc both in
          let there_is : get_chain old.id back.1.chains ≡ some old =
            ap (get_chain old.id) (rollback-chains net fair r.changed plan.0.old_configs r.world)
            ∙ found in
          marked (record {
            failure = x;
            rollback_failure = b;
            rollout_failed = bad_rollout;
            rollback_failed = bad;
            returned = sym is;
            chain = marks enabled message back.1 old;
            found =
                ap (λ (o : Option String × World). get_chain old.id o.1.chains) (sym same)
                ∙ set_runtime-marks old.id message enabled back.1 old there_is;
            state = unfold marks in refl;
            deploy_error = unfold marks in refl;
          })
