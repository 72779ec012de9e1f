-- ===== src/Panel/ProxyChain/Rollout.antt =====
-- One node of a rollout: what is done of it, and what that leaves.
use Prim.Native.String.{◌++◌ as concat}
use ladder_airport.Base.{
  Bool-cases, Option-cases, IsIn, here, there, ◌+◌, String, ◌≡◌, refl, sym, ap, ◌∙◌, subst, ◌⊎◌,
  inl, inr, true, false, Option, none, some, ◌∷◌, arith,
}
use ladder_airport.Panel.ProxyChain.World.{
  Node, Config, Snapshot, World, Network, get_node, no_node, runs, tick, save_snapshot,
}
use ladder_airport.Panel.ProxyChain.Agents.{
  IsHonest, Changed, Kept, KeptBut, Reached, apply_config-Reached, done, not_done,
}
use ladder_airport.Panel.ProxyChain.Deploy.{
  Applied, apply_config, record_applied, apply_node, apply_one, not_applied, snapshot_saved,
  config_applied,
}

pub Kept-refl : (w : World) → Kept w w
Kept-refl w = record { chains = refl; agents = λ id. refl }

-- The snapshots that are stored stay.
unfoldable pub Grows : World → World → Type 0
Grows w w' = (s : Snapshot) → IsIn s w.snapshots → IsIn s w'.snapshots

abbrev pub snapshot_of : String → Config → String → Snapshot
snapshot_of id cfg task = record { node_id = id; config = cfg; task_id = task }

-- The error of a rollout whose call of an agent was lost, or refused by the agent.
abbrev pub call_error : String → String → String
call_error id m = concat "向节点 " (concat id (concat " 下发配置失败：" m))

pub data AppliedCase (id : String) (cfg : Config) (task : String) (w : World) (a : Applied × World)
    : Type 0 where
  failed_here :
      (e : String) → a.0 ≡ not_applied e → Kept w a.1 → Grows w a.1 → AppliedCase id cfg task w a
  call_failed_here :
      (m : String)
      → a.0 ≡ not_applied (call_error id m)
      → KeptBut (some id) w a.1
      → Grows w a.1
      → AppliedCase id cfg task w a
  saved_here :
      a.0 ≡ snapshot_saved
      → Kept w a.1
      → Grows w a.1
      → IsIn (snapshot_of id cfg task) (a.1).snapshots
      → AppliedCase id cfg task w a
  applied_here :
      a.0 ≡ config_applied → Changed id (some cfg) w a.1 → Grows w a.1 → AppliedCase id cfg task w a

-- What storing a snapshot leaves.
record Stored (s : Snapshot) (w : World) (o : Option String × World) : Type 0 where
  running : (o.1).running ≡ w.running
  chains : (o.1).chains ≡ w.chains
  grows : Grows w o.1
  saved : o.0 ≡ none → IsIn s (o.1).snapshots

module _ (net : Network) where
  save_snapshot-Stored : (s : Snapshot) (w : World) → Stored s w (save_snapshot net s w)
  unfolding save_snapshot Grows
  save_snapshot-Stored s w = elim (Option-cases (net.snapshot_fails w.calls s.node_id)) [
    | inl fine ↦
        let same : (none, record w { snapshots = s ∷ w.snapshots; calls = w.calls + 1 })
            ≡ save_snapshot net s w =
          ground (arith, fine) in
        subst {A = Option String × World} (Stored s w) same
          (record { running = refl; chains = refl; grows = λ t i. there i; saved = λ _. here refl })
    | inr (e, bad) ↦
        let same : (some (concat "保存配置快照失败：" e), tick w) ≡ save_snapshot net s w =
          ground (arith, bad) in
        subst {A = Option String × World} (Stored s w) same (record {
          running = refl;
          chains = refl;
          grows = λ t i. i;
          saved = λ fine. absurd (cc fine);
        })
  ]

  record_applied-Stored :
      (id : String) (node : Node) (cfg : Config) (task : String) (w : World)
      → ((record_applied net id node cfg task w).running ≡ w.running)
        × ((record_applied net id node cfg task w).chains ≡ w.chains)
        × Grows w (record_applied net id node cfg task w)
  unfolding record_applied Grows
  record_applied-Stored id node cfg task w =
      let t = save_snapshot-Stored (snapshot_of id cfg task) _ in
      (t.running, t.chains, λ s i. unfold Grows in (t.grows s i))

  -- The frame of an apply, moved to a world with the same agents and chains.
  move-Kept :
      (w w' w'' : World)
      → Kept w w'
      → w''.running ≡ w'.running
      → w''.chains ≡ w'.chains
      → Kept w w''
  move-Kept w w' w'' k e f = record {
    chains = f ∙ k.chains;
    agents = λ id. ap (runs id) e ∙ k.agents id;
  }

  move-Changed :
      (id : String) (o : Option Config) (w w' w'' : World)
      → Changed id o w w'
      → w''.running ≡ w'.running
      → w''.chains ≡ w'.chains
      → Changed id o w w''
  move-Changed id o w w' w'' k e f = record {
    chains = f ∙ k.chains;
    own = ap (runs id) e ∙ k.own;
    others = λ other ne. ap (runs other) e ∙ k.others other ne;
  }

  apply_uplink :
      (id : String) (node : Node) (cfg : Config) (task : String) (w : World)
      → node.uplink ≡ true
      → AppliedCase id cfg task w (apply_node net id node cfg task w)
  apply_uplink id node cfg task w up = go (Option-cases failure)
    where
      saved : Option String × World
      saved = save_snapshot net (snapshot_of id cfg task) w

      failure : Option String
      failure = saved.0

      t : Stored (snapshot_of id cfg task) w saved
      t = save_snapshot-Stored (snapshot_of id cfg task) w

      same :
          (o : Option String)
          → failure ≡ o
          → apply_node net id node cfg task w
            ≡ (elim o [ none ↦ snapshot_saved | some e ↦ not_applied e ], saved.1)
      same o e = unfold apply_node in (ground (arith, up, e))

      go :
          (failure ≡ none) ⊎ ((e : String) × (failure ≡ some e))
          → AppliedCase id cfg task w (apply_node net id node cfg task w)
      go (inl fine) = subst (AppliedCase id cfg task w) (sym (same none fine)) (
          saved_here refl (move-Kept w w saved.1 (Kept-refl w) t.running t.chains) t.grows
            (t.saved fine))
      go (inr (e, bad)) =
          subst (AppliedCase id cfg task w) (sym (same (some e) bad))
            (failed_here e refl (move-Kept w w saved.1 (Kept-refl w) t.running t.chains) t.grows)

  apply_config-snapshots :
      (id : String) (cfg : Config) (w : World)
      → (apply_config net id cfg w).1.snapshots ≡ w.snapshots
  unfolding apply_config
  apply_config-snapshots id cfg w = ground arith

  apply_push :
      IsHonest net
      → (id : String) (node : Node) (cfg : Config) (task : String) (w : World) → node.uplink ≡ false
      → AppliedCase id cfg task w (apply_node net id node cfg task w)
  apply_push fair id node cfg task w push = dialled (Option-cases (net.dial w.calls id))
    where
      sent : Option String × World
      sent = apply_config net id cfg (tick w)

      grows : (x : World) → Grows sent.1 x → Grows w x
      grows x g =
          unfold Grows in
          (λ s i. g s (subst (IsIn s) (sym (apply_config-snapshots id cfg (tick w))) i))

      reached :
          net.dial w.calls id ≡ none
          → Reached id cfg (tick w) sent
          → AppliedCase id cfg task w (apply_node net id node cfg task w)
      reached fine (not_done e bad k) =
          let same : (not_applied (concat "向节点 " (concat id (concat " 下发配置失败：" e))), sent.1)
              ≡ apply_node net id node cfg task w =
            unfold apply_node in (ground (arith, push, fine, bad)) in
          subst (AppliedCase id cfg task w) same (
            call_failed_here e refl (record { chains = k.chains; agents = k.agents })
              (grows sent.1 (unfold Grows in (λ s i. i))))
      reached fine (done good k) =
          let same : (config_applied, record_applied net id node cfg task sent.1)
              ≡ apply_node net id node cfg task w =
            unfold apply_node in (ground (arith, push, fine, good)) in
          let (running, chains, more) = record_applied-Stored id node cfg task sent.1 in
          subst (AppliedCase id cfg task w) same (
            applied_here refl
              (move-Changed id (some cfg) w sent.1 _
                (record { chains = k.chains; own = k.own; others = k.others }) running chains)
              (grows _ more))

      dialled :
          (net.dial w.calls id ≡ none) ⊎ ((e : String) × (net.dial w.calls id ≡ some e))
          → AppliedCase id cfg task w (apply_node net id node cfg task w)
      dialled (inl fine) = reached fine (apply_config-Reached net fair id cfg (tick w))
      dialled (inr (e, bad)) =
          let same : (not_applied (concat "连接节点 " (concat id (concat " 失败：" e))), tick w)
              ≡ apply_node net id node cfg task w =
            unfold apply_node in (ground (arith, push, bad)) in
          subst (AppliedCase id cfg task w) same (
            failed_here _ refl (record { chains = refl; agents = λ other. refl })
              (unfold Grows in (λ s i. i)))

  pub apply_one-case :
      IsHonest net
      → (id : String) (cfg : Config) (task : String) (w : World)
      → AppliedCase id cfg task w (apply_one net id cfg task w)
  apply_one-case fair id cfg task w = go (Option-cases (get_node id w.nodes))
    where
      go :
          (get_node id w.nodes ≡ none) ⊎ ((node : Node) × (get_node id w.nodes ≡ some node))
          → AppliedCase id cfg task w (apply_one net id cfg task w)
      go (inl missing) =
          let same : (not_applied (no_node id), w) ≡ apply_one net id cfg task w =
            unfold apply_one in (ground (arith, missing)) in
          subst (AppliedCase id cfg task w) same
            (failed_here _ refl (Kept-refl w) (unfold Grows in (λ s i. i)))
      go (inr (node, found)) =
          let same : apply_node net id node cfg task w ≡ apply_one net id cfg task w =
            unfold apply_one in (ground (arith, found)) in
          subst (AppliedCase id cfg task w) same (elim (Bool-cases node.uplink) [
            | inl up ↦ apply_uplink id node cfg task w up
            | inr push ↦ apply_push fair id node cfg task w push
          ])
