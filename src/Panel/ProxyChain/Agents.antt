-- ===== src/Panel/ProxyChain/Agents.antt =====
-- What a call of an agent changes: only what that agent runs.
use ladder_airport.Base.{
  if◌then◌else◌, ℕ, ◌+◌, String, ◌≡◌, refl, sym, subst, Bool, true, false, not, Option, none, some,
  List, [], ◌∷◌, arith, str_eq, str_eq_iff, str_eq_refl,
}
use ladder_airport.Panel.ProxyChain.World.{
  Config, World, Answer, Network, runs, stop_running, set_running, lost, answered,
}
use ladder_airport.Panel.ProxyChain.Deploy.{apply_config}

-- An agent that says that it took a configuration runs it. What an agent runs after it refused a
-- configuration, or after a call that was lost, is left open: it may run the old one, the new one or
-- none.
pub record IsHonest (net : Network) : Type 0 where
  pub took :
      (n : ℕ) (id m : String) (cfg : Config) (before : Option Config)
      → (net.apply n id cfg before).0 ≡ answered true m
      → (net.apply n id cfg before).1 ≡ some cfg

runs-stop_running :
    (id other : String) (kcs : List (String × Config))
    → runs other (stop_running id kcs) ≡ (if str_eq id other then none else runs other kcs)
unfolding runs stop_running
runs-stop_running id other [] = ground arith
runs-stop_running id other ((k, c) ∷ kcs) = ground (
  arith,
  runs-stop_running id other kcs,
  str_eq_iff k id,
  str_eq_iff k other,
  str_eq_iff id other,
)

pub runs-set_running :
    (id other : String) (o : Option Config) (kcs : List (String × Config))
    → runs other (set_running id o kcs) ≡ (if str_eq id other then o else runs other kcs)
unfolding runs set_running
runs-set_running id other none kcs = runs-stop_running id other kcs
runs-set_running id other (some c) kcs = ground (arith, runs-stop_running id other kcs)

-- `w'` is `w` after calls that change no chain, and no agent but, if `o` is given, that of `id`.
pub record Changed (id : String) (o : Option Config) (w w' : World) : Type 0 where
  pub chains : w'.chains ≡ w.chains
  pub own : runs id w'.running ≡ o
  pub others :
      (other : String) → str_eq id other ≡ false → runs other w'.running ≡ runs other w.running

-- The same for every agent.
pub record Kept (w w' : World) : Type 0 where
  pub chains : w'.chains ≡ w.chains
  pub agents : (id : String) → runs id w'.running ≡ runs id w.running

-- Any agent but the one that is given, if one is.
abbrev pub spared : Option String → String → Bool
spared none id = true
spared (some one) id = not (str_eq one id)

pub record KeptBut (one : Option String) (w w' : World) : Type 0 where
  pub chains : w'.chains ≡ w.chains
  pub agents : (id : String) → spared one id ≡ true → runs id w'.running ≡ runs id w.running

pub Kept-but : (w w' : World) → Kept w w' → KeptBut none w w'
Kept-but w w' k = record { chains = k.chains; agents = λ id _. k.agents id }

pub data Reached (id : String) (cfg : Config) (w : World) (o : Option String × World) : Type 0 where
  done : o.0 ≡ none → Changed id (some cfg) w o.1 → Reached id cfg w o
  not_done : (e : String) → o.0 ≡ some e → KeptBut (some id) w o.1 → Reached id cfg w o

module _ (net : Network) where
  apply_config-eq :
      (id : String) (cfg : Config) (w : World) (answer : Answer)
      → (net.apply w.calls id cfg (runs id w.running)).0 ≡ answer
      → apply_config net id cfg w ≡ (
        elim answer [ lost e ↦ some e | answered fine m ↦ if fine then none else some m ],
        record w {
          running = set_running id (net.apply w.calls id cfg (runs id w.running)).1 w.running;
          calls = w.calls + 1;
        },
      )
  unfolding apply_config
  apply_config-eq id cfg w answer e = ground (arith, e)

  set-KeptBut :
      (id : String) (o : Option Config) (w : World) (n : ℕ)
      → KeptBut (some id) w (record w { running = set_running id o w.running; calls = n })
  set-KeptBut id o w n = record {
    chains = refl;
    agents = λ other ne. ground (arith, runs-set_running id other o w.running, ne);
  }

  set-Changed :
      (id : String) (o : Option Config) (cfg : Config) (w : World) (n : ℕ)
      → o ≡ some cfg
      → Changed id (some cfg) w (record w { running = set_running id o w.running; calls = n })
  set-Changed id o cfg w n same = record {
    chains = refl;
    own = ground (arith, runs-set_running id id o w.running, str_eq_refl id, same);
    others = λ other ne. ground (arith, runs-set_running id other o w.running, ne);
  }

  pub apply_config-Reached :
      IsHonest net
      → (id : String) (cfg : Config) (w : World) → Reached id cfg w (apply_config net id cfg w)
  apply_config-Reached fair id cfg w = go ((net.apply w.calls id cfg (runs id w.running)).0) refl
    where
      go :
          (answer : Answer)
          → (net.apply w.calls id cfg (runs id w.running)).0 ≡ answer
          → Reached id cfg w (apply_config net id cfg w)
      go (lost e) is =
          subst (Reached id cfg w) (sym (apply_config-eq id cfg w (lost e) is))
            (not_done e refl (set-KeptBut id _ w (w.calls + 1)))
      go (answered true m) is =
          subst (Reached id cfg w) (sym (apply_config-eq id cfg w (answered true m) is)) (
            done refl (
              set-Changed id _ cfg w (w.calls + 1)
                (fair.took w.calls id m cfg (runs id w.running) is)))
      go (answered false m) is =
          subst (Reached id cfg w) (sym (apply_config-eq id cfg w (answered false m) is))
            (not_done m refl (set-KeptBut id _ w (w.calls + 1)))
