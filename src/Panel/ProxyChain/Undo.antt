-- ===== src/Panel/ProxyChain/Undo.antt =====
-- A rollback after a rollout that failed.
use Prim.Native.String.{◌++◌ as concat}
use ladder_airport.Base.{
  Bool-cases, Option-cases, String, ◌≡◌, refl, sym, ◌∙◌, subst, ◌⊎◌, inl, inr, true, Option, none,
  some, List, [], ◌∷◌, ◌++◌, append_assoc, append-nil, arith,
}
use ladder_airport.Panel.ProxyChain.World.{
  Node, Config, World, Network, get_node, no_node, config_of, runs, tick,
}
use ladder_airport.Panel.ProxyChain.Plan.{contains, reverse}
use ladder_airport.Panel.ProxyChain.Order.{contains-reverse}
use ladder_airport.Panel.ProxyChain.Agents.{
  IsHonest, Changed, Kept, KeptBut, Reached, apply_config-Reached, done, not_done,
}
use ladder_airport.Panel.ProxyChain.Progress.{
  Progress, Progress-none, Changed-Progress, Halted, apply_ordered-RolledOut,
}
use ladder_airport.Panel.ProxyChain.Deploy.{
  first_error, apply_config, apply_ordered, roll_back_one, roll_back_each, rollback,
}

data Back (id : String) (cfg : Config) (w : World) (o : Option String × World) : Type 0 where
  back : o.0 ≡ none → Changed id (some cfg) w o.1 → Back id cfg w o
  not_back : (e : String) → o.0 ≡ some e → KeptBut (some id) w o.1 → Back id cfg w o

pub Kept-trans : (w w' w'' : World) → Kept w w' → Kept w' w'' → Kept w w''
Kept-trans w w' w'' a b = record {
  chains = b.chains ∙ a.chains;
  agents = λ id. b.agents id ∙ a.agents id;
}

module _ (net : Network) where
  roll_back_one-case :
      IsHonest net
      → (id : String) (cfg : Config) (w : World) → Back id cfg w (roll_back_one net id cfg w)
  roll_back_one-case fair id cfg w = go (Option-cases (get_node id w.nodes))
    where
      sent :
          (node : Node)
          → get_node id w.nodes ≡ some node
          → net.dial w.calls id ≡ none
          → Reached id cfg (tick w) (apply_config net id cfg (tick w))
          → Back id cfg w (roll_back_one net id cfg w)
      sent node found fine (done good k) =
          let same : (none, (apply_config net id cfg (tick w)).1) ≡ roll_back_one net id cfg w =
            unfold roll_back_one in (ground (arith, found, fine, good)) in
          subst (Back id cfg w) same
            (back refl (record { chains = k.chains; own = k.own; others = k.others }))
      sent node found fine (not_done e bad k) =
          let same : (
            some (concat "节点 " (concat id (concat "：" e))),
            (apply_config net id cfg (tick w)).1,
          )
              ≡ roll_back_one net id cfg w =
            unfold roll_back_one in (ground (arith, found, fine, bad)) in
          subst (Back id cfg w) same
            (not_back _ refl (record { chains = k.chains; agents = k.agents }))

      dialled :
          (node : Node)
          → get_node id w.nodes ≡ some node
          → (net.dial w.calls id ≡ none) ⊎ ((e : String) × (net.dial w.calls id ≡ some e))
          → Back id cfg w (roll_back_one net id cfg w)
      dialled node found (inl fine) =
          sent node found fine (apply_config-Reached net fair id cfg (tick w))
      dialled node found (inr (e, bad)) =
          let same : (some (concat "节点 " (concat id (concat "：" e))), tick w)
              ≡ roll_back_one net id cfg w =
            unfold roll_back_one in (ground (arith, found, bad)) in
          subst (Back id cfg w) same
            (not_back _ refl (record { chains = refl; agents = λ other _. refl }))

      go :
          (get_node id w.nodes ≡ none) ⊎ ((node : Node) × (get_node id w.nodes ≡ some node))
          → Back id cfg w (roll_back_one net id cfg w)
      go (inl missing) =
          let same : (some (no_node id), w) ≡ roll_back_one net id cfg w =
            unfold roll_back_one in (ground (arith, missing)) in
          subst (Back id cfg w) same
            (not_back (no_node id) refl (record { chains = refl; agents = λ other _. refl }))
      go (inr (node, found)) = dialled node found (Option-cases (net.dial w.calls id))

  -- The chains are kept also when the rollback fails.
  roll_back_each-chains :
      IsHonest net
      → (configs : List (String × Config)) (ids : List String) (first : Option String) (w : World)
      → (roll_back_each net configs ids first w).1.chains ≡ w.chains
  unfolding roll_back_each
  roll_back_each-chains fair configs [] first w = refl
  roll_back_each-chains fair configs (id ∷ ids) first w =
      let r = roll_back_one net id (config_of id configs) w in
      roll_back_each-chains fair configs ids (first_error first r.0) r.1
      ∙ here_same (roll_back_one-case fair id (config_of id configs) w)
    where
      here_same :
          Back id (config_of id configs) w (roll_back_one net id (config_of id configs) w)
          → (roll_back_one net id (config_of id configs) w).1.chains ≡ w.chains
      here_same (back _ k) = k.chains
      here_same (not_back _ _ k) = k.chains

  -- An error stays the first one.
  roll_back_each-err :
      (configs : List (String × Config)) (ids : List String) (e : String) (w : World)
      → (roll_back_each net configs ids (some e) w).0 ≡ some e
  unfolding roll_back_each
  roll_back_each-err configs [] e w = refl
  roll_back_each-err configs (id ∷ ids) e w = roll_back_each-err configs ids e _

  roll_back_each-Progress :
      IsHonest net
      → (configs : List (String × Config)) (w0 : World) (ids ch : List String)
        (first : Option String) (w : World)
      → Progress configs none w0 ch w
      → (roll_back_each net configs ids first w).0 ≡ none
      → Progress configs none w0 (ch ++ ids) (roll_back_each net configs ids first w).1
  unfolding roll_back_each
  roll_back_each-Progress fair configs w0 [] ch first w p fine =
      subst (λ xs. Progress configs none w0 xs w) (sym (append-nil ch)) p
  roll_back_each-Progress fair configs w0 (id ∷ ids) ch first w p fine =
      let r = roll_back_one net id (config_of id configs) w in
      let again = λ (q : Progress configs none w0 (ch ++ id ∷ []) r.1).
        roll_back_each-Progress fair configs w0 ids (ch ++ id ∷ []) (first_error first r.0) r.1 q
          fine in
      subst
        (λ xs.
          Progress configs none w0 xs
            (roll_back_each net configs ids (first_error first r.0) r.1).1)
        (append_assoc ch (id ∷ []) ids)
        (again (here_done (roll_back_one-case fair id (config_of id configs) w)))
    where
      failed_step :
          (first : Option String) (o : Option String) (e : String)
          → o ≡ some e
          → (x : String) × (first_error first o ≡ some x)
      failed_step none o e is = (e, is)
      failed_step (some x) o e is = (x, refl)

      here_done :
          Back id (config_of id configs) w (roll_back_one net id (config_of id configs) w)
          → Progress configs none w0
              (ch ++ id ∷ [])
              (roll_back_one net id (config_of id configs) w).1
      here_done (back _ k) = Changed-Progress configs w0 w _ ch id p k
      here_done (not_back e is k) =
          let (x, eq) = failed_step first _ e is in
          absurd (
            cc (
              roll_back_each-err configs ids x (roll_back_one net id (config_of id configs) w).1,
              eq,
              fine,
            ))

  pub rollback-chains :
      IsHonest net
      → (changed : List String) (configs : List (String × Config)) (w : World)
      → (rollback net changed configs w).1.chains ≡ w.chains
  unfolding rollback
  rollback-chains fair changed configs w =
      roll_back_each-chains fair configs (reverse changed) none w

  -- If a rollout stopped, and before it the changed nodes ran their old configurations, then a
  -- rollback without an error leaves the chains as they were and every agent with the configuration
  -- that it ran before the rollout, but for the one whose call was lost or refused, which the error of
  -- the rollout names; given agents that run a configuration when they say that they took it.
  pub rollback_undoes :
      IsHonest net
      → (task : String) (new old : List (String × Config)) (order : List String) (w : World)
      → ((id : String)
          → contains id (apply_ordered net task new order [] w).changed ≡ true
          → runs id w.running ≡ some (config_of id old))
      → (rollback net
          (apply_ordered net task new order [] w).changed
          old
          (apply_ordered net task new order [] w).world).0
        ≡ none
      → (one : Option String) × Halted (apply_ordered net task new order [] w).failure one
        × KeptBut one w
            (rollback net
              (apply_ordered net task new order [] w).changed
              old
              (apply_ordered net task new order [] w).world).1
  unfolding rollback
  rollback_undoes fair task new old order w in_sync fine =
      let r = apply_ordered net task new order [] w in
      let out = apply_ordered-RolledOut net fair task new order w in
      let undone =
        roll_back_each-Progress fair old r.world (reverse r.changed) [] none r.world
          (Progress-none old r.world) fine in
      (
        out.one,
        out.halted,
        record {
          chains = undone.chains ∙ out.progress.chains;
          agents = λ id other. elim (Bool-cases (contains id r.changed)) [
            | inl there_is ↦
                undone.brought id (contains-reverse id r.changed ∙ there_is) refl
                ∙ sym (in_sync id there_is)
            | inr absent ↦
                undone.kept id (contains-reverse id r.changed ∙ absent) refl
                ∙ out.progress.kept id absent other
          ];
        },
      )
