-- ===== src/Panel/ProxyChain/Progress.antt =====
-- An ordered rollout of configurations, as far as it gets.
use ladder_airport.Panel.ProxyChain.Order.{contains-append}
use ladder_airport.Base.{
  Bool-cases, IsIn, String, ◌≡◌, refl, sym, ◌∙◌, subst, inl, inr, true, false, ◌||◌, Option, none,
  some, List, [], ◌∷◌, ◌++◌, arith, str_eq, str_eq_iff,
}
use ladder_airport.Panel.ProxyChain.World.{Config, World, Network, config_of, runs}
use ladder_airport.Panel.ProxyChain.Plan.{contains}
use ladder_airport.Panel.ProxyChain.Agents.{IsHonest, Changed, spared, KeptBut, Kept-but}
use ladder_airport.Panel.ProxyChain.Rollout.{
  Grows, snapshot_of, call_error, AppliedCase, apply_one-case, failed_here, call_failed_here,
  saved_here, applied_here,
}
use ladder_airport.Panel.ProxyChain.Deploy.{
  Applied, Rollout, apply_one, apply_ordered, not_applied, snapshot_saved, config_applied,
}

-- Since the world `w0`, the agents of the nodes `ch` were brought to the configurations and the
-- others, and the chains, are as they were; of the agent `one`, if it is given, nothing is said.
pub record Progress (configs : List (String × Config)) (one : Option String) (w0 : World)
    (ch : List String) (w : World) : Type 0 where
  pub chains : w.chains ≡ w0.chains
  pub brought :
      (id : String)
      → contains id ch ≡ true
      → spared one id ≡ true
      → runs id w.running ≡ some (config_of id configs)
  pub kept :
      (id : String)
      → contains id ch ≡ false
      → spared one id ≡ true
      → runs id w.running ≡ runs id w0.running

pub Progress-none : (configs : List (String × Config)) (w : World) → Progress configs none w [] w
Progress-none configs w = record {
  chains = refl;
  brought = λ id there_is _. absurd (unfold contains in (cc there_is));
  kept = λ id _ _. refl;
}

pub KeptBut-Progress :
    (configs : List (String × Config)) (one : Option String) (w0 w w' : World) (ch : List String)
    → Progress configs none w0 ch w
    → KeptBut one w w'
    → Progress configs one w0 ch w'
KeptBut-Progress configs one w0 w w' ch p k = record {
  chains = k.chains ∙ p.chains;
  brought = λ id there_is other. k.agents id other ∙ p.brought id there_is refl;
  kept = λ id absent other. k.agents id other ∙ p.kept id absent refl;
}

contains-snoc :
    (id one : String) (ch : List String)
    → contains one (ch ++ id ∷ []) ≡ (contains one ch || str_eq id one)
unfolding contains
contains-snoc id one ch = ground (arith, contains-append one ch (id ∷ []))

pub Changed-Progress :
    (configs : List (String × Config)) (w0 w w' : World) (ch : List String) (id : String)
    → Progress configs none w0 ch w
    → Changed id (some (config_of id configs)) w w'
    → Progress configs none w0 (ch ++ id ∷ []) w'
Changed-Progress configs w0 w w' ch id p k = record {
  chains = k.chains ∙ p.chains;
  brought = λ one there_is _. elim (Bool-cases (str_eq id one)) [
    | inl same ↦
        subst (λ i. runs i w'.running ≡ some (config_of i configs)) ((str_eq_iff id one).0 same)
          k.own
    | inr differ ↦
        k.others one differ ∙ p.brought one (ground (arith, contains-snoc id one ch, differ)) refl
  ];
  kept = λ one absent _.
      k.others one (ground (arith, contains-snoc id one ch))
      ∙ p.kept one (ground (arith, contains-snoc id one ch)) refl;
}

-- Each node of the order was changed, or has its snapshot.
pub data Served (configs : List (String × Config)) (task : String) (r : Rollout) (id : String)
    : Type 0 where
  was_changed : contains id r.changed ≡ true → Served configs task r id
  was_saved :
      IsIn (snapshot_of id (config_of id configs) task) (r.world).snapshots
      → Served configs task r id

-- The agent of which nothing is known after a rollout, if there is one: its call failed, and the error
-- of the rollout names it.
pub data Halted (failure one : Option String) : Type 0 where
  all_known : one ≡ none → Halted failure one
  one_unknown :
      (id m : String) → one ≡ some id → failure ≡ some (call_error id m) → Halted failure one

-- What a rollout of the nodes `ids` gives, after those in `ch`.
pub record RolledOut (configs : List (String × Config)) (task : String) (w0 : World)
    (ids ch : List String) (w : World) (r : Rollout) : Type 0 where
  pub one : Option String
  pub halted : Halted r.failure one
  pub progress : Progress configs one w0 r.changed r.world
  pub more : (id : String) → contains id ch ≡ true → contains id r.changed ≡ true
  pub only :
      (id : String) → contains id r.changed ≡ true → (contains id ch || contains id ids) ≡ true
  pub grows : Grows w r.world
  pub served : r.failure ≡ none → (id : String) → contains id ids ≡ true → Served configs task r id

module _ (net : Network) (fair : IsHonest net) (task : String)
    (configs : List (String × Config)) where
  ordered : List String → List String → World → Rollout
  ordered ids ch w = apply_ordered net task configs ids ch w

  one : String → World → Applied × World
  one id w = apply_one net id (config_of id configs) task w

  ordered-eq :
      (id : String) (ids ch : List String) (w : World) (a : Applied)
      → (one id w).0 ≡ a
      → ordered (id ∷ ids) ch w ≡ (elim a [
        | not_applied e ↦ record { changed = ch; failure = some e; world = (one id w).1 }
        | snapshot_saved ↦ ordered ids ch (one id w).1
        | config_applied ↦ ordered ids (ch ++ id ∷ []) (one id w).1
      ])
  unfolding ordered one apply_ordered
  ordered-eq id ids ch w a e = ground (arith, e)

  -- The rest of a rollout after a node whose snapshot was saved, or that was changed.
  after_saved :
      (w0 w w' : World) (id : String) (ids ch : List String) (r : Rollout)
      → Grows w w'
      → IsIn (snapshot_of id (config_of id configs) task) w'.snapshots
      → RolledOut configs task w0 ids ch w' r
      → RolledOut configs task w0 (id ∷ ids) ch w r
  after_saved w0 w w' id ids ch r g i d = record {
    one = d.one;
    halted = d.halted;
    progress = d.progress;
    more = d.more;
    only = λ x there_is. unfold contains in (ground (arith, d.only x there_is));
    grows = unfold Grows in (λ s j. d.grows s (g s j));
    served = λ fine x there_is. elim (Bool-cases (str_eq id x)) [
      | inl same ↦ was_saved (
          subst (λ y. IsIn (snapshot_of y (config_of y configs) task) (r.world).snapshots)
            ((str_eq_iff id x).0 same) (unfold Grows in (d.grows _ i)))
      | inr differ ↦ d.served fine x (unfold contains in (ground (arith, differ, there_is)))
    ];
  }

  after_changed :
      (w0 w w' : World) (id : String) (ids ch : List String) (r : Rollout)
      → Grows w w'
      → RolledOut configs task w0 ids (ch ++ id ∷ []) w' r
      → RolledOut configs task w0 (id ∷ ids) ch w r
  after_changed w0 w w' id ids ch r g d = record {
    one = d.one;
    halted = d.halted;
    progress = d.progress;
    more = λ x there_is. d.more x (ground (arith, contains-snoc id x ch, there_is));
    only =
        λ x there_is. unfold contains in (ground (arith, d.only x there_is, contains-snoc id x ch));
    grows = unfold Grows in (λ s j. d.grows s (g s j));
    served = λ fine x there_is. elim (Bool-cases (str_eq id x)) [
      | inl same ↦ was_changed (d.more x (ground (arith, contains-snoc id x ch, same)))
      | inr differ ↦ d.served fine x (unfold contains in (ground (arith, differ, there_is)))
    ];
  }

  roll_step :
      (w0 : World) (id : String) (ids ch : List String) (w : World)
      → Progress configs none w0 ch w
      → ((ch' : List String) (w' : World)
          → Progress configs none w0 ch' w'
          → RolledOut configs task w0 ids ch' w' (ordered ids ch' w'))
      → RolledOut configs task w0 (id ∷ ids) ch w (ordered (id ∷ ids) ch w)
  roll_step w0 id ids ch w p rest = go (apply_one-case net fair id (config_of id configs) task w)
    where
      go :
          AppliedCase id
            (config_of id configs)
            task
            w
            (apply_one net id (config_of id configs) task w)
          → RolledOut configs task w0 (id ∷ ids) ch w (ordered (id ∷ ids) ch w)
      go (failed_here e is k g) =
          subst (RolledOut configs task w0 (id ∷ ids) ch w)
            (sym (ordered-eq id ids ch w (not_applied e) (unfold one in is)))
            (record {
              one = none;
              halted = all_known refl;
              progress = KeptBut-Progress configs none w0 w _ ch p (unfold one in (Kept-but w _ k));
              more = λ x there_is. there_is;
              only = λ x there_is. ground (arith, there_is);
              grows = unfold one in g;
              served = λ fine. absurd (cc fine);
            })
      go (call_failed_here m is k g) =
          subst (RolledOut configs task w0 (id ∷ ids) ch w)
            (sym (ordered-eq id ids ch w (not_applied (call_error id m)) (unfold one in is)))
            (record {
              one = some id;
              halted = one_unknown id m refl refl;
              progress = KeptBut-Progress configs (some id) w0 w _ ch p (unfold one in k);
              more = λ x there_is. there_is;
              only = λ x there_is. ground (arith, there_is);
              grows = unfold one in g;
              served = λ fine. absurd (cc fine);
            })
      go (saved_here is k g i) =
          subst (RolledOut configs task w0 (id ∷ ids) ch w)
            (sym (ordered-eq id ids ch w snapshot_saved (unfold one in is)))
            (after_saved w0 w (one id w).1 id ids ch _ (unfold one in g) (unfold one in i) (
              rest ch (one id w).1
                (KeptBut-Progress configs none w0 w _ ch p (unfold one in (Kept-but w _ k)))))
      go (applied_here is k g) =
          subst (RolledOut configs task w0 (id ∷ ids) ch w)
            (sym (ordered-eq id ids ch w config_applied (unfold one in is)))
            (after_changed w0 w (one id w).1 id ids ch _ (unfold one in g) (
              rest (ch ++ id ∷ []) (one id w).1
                (Changed-Progress configs w0 w _ ch id p (unfold one in k))))

  rolled :
      (w0 : World) (ids ch : List String) (w : World)
      → Progress configs none w0 ch w
      → RolledOut configs task w0 ids ch w (ordered ids ch w)
  rolled w0 [] ch w p =
      unfold ordered apply_ordered in
      (record {
        one = none;
        halted = all_known refl;
        progress = p;
        more = λ x there_is. there_is;
        only = λ x there_is. ground (arith, there_is);
        grows = unfold Grows in (λ s i. i);
        served = λ fine x there_is. absurd (unfold contains in (cc there_is));
      })
  rolled w0 (id ∷ ids) ch w p = roll_step w0 id ids ch w p (rolled w0 ids)

  -- A rollout, with agents that run a configuration when they say that they took it: the agents of the
  -- nodes reported as changed run their new configurations, all others and the chains are as before.
  -- Of one agent nothing is said, the one whose call was lost or refused, which the error names; it is
  -- then the last call of the rollout. When no failure is reported, each node of the order was changed
  -- or has a snapshot of its configuration.
  pub apply_ordered-RolledOut :
      (ids : List String) (w : World)
      → RolledOut configs task w ids [] w (apply_ordered net task configs ids [] w)
  apply_ordered-RolledOut ids w = unfold ordered in (rolled w ids [] w (Progress-none configs w))
