-- ===== src/Panel/ProxyChain/Effective.antt =====
-- effectiveChains against a description of the chains that hold after a change.
use ladder_airport.Base.{
  if◌then◌else◌, any, filter, String, ◌≡◌, refl, ap, ap₂, ◌∙◌, ◌≢◌, Bool, true, false, not, ◌&&◌,
  none, some, List, [], ◌∷◌, ◌++◌, map, append-nil, arith, str_eq, str_eq_iff, str_eq_refl,
}
use ladder_airport.Panel.ProxyChain.World.{ProxyChain}
use ladder_airport.Panel.ProxyChain.Plan.{enable, effective_rest, has_chain, effective_chains}

-- The enabled ones among the chains, and the chains of an id.
abbrev pub enabled_ones : List ProxyChain → List ProxyChain
enabled_ones cs = filter (λ c. c.enabled) cs

abbrev pub chains_of : String → List ProxyChain → List ProxyChain
chains_of id cs = filter (has_chain id) cs

others-rest :
    (id : String) (r : ProxyChain) (disable : Bool) (cs : List ProxyChain)
    → str_eq r.id id ≡ false
    → chains_of id (effective_rest (some r) disable cs) ≡ enabled_ones (chains_of id cs)
unfolding effective_rest
others-rest id r disable [] ne = refl
others-rest id r disable (c ∷ cs) ne = ground (
  arith,
  ne,
  others-rest id r disable cs ne,
  str_eq_iff c.id r.id,
  str_eq_iff c.id id,
  str_eq_iff r.id id,
)

filter_append :
    (p : ProxyChain → Bool) (xs ys : List ProxyChain)
    → filter p (xs ++ ys) ≡ filter p xs ++ filter p ys
filter_append p [] ys = refl
filter_append p (x ∷ xs) ys = ground (arith, filter_append p xs ys)

effective_rest-none : (cs : List ProxyChain) → effective_rest none false cs ≡ enabled_ones cs
unfolding effective_rest
effective_rest-none [] = refl
effective_rest-none (c ∷ cs) = ground (arith, effective_rest-none cs)

-- Without a change, the effective chains are those that are enabled, in their order.
pub effective_chains-none :
    (cs : List ProxyChain) → effective_chains none false cs ≡ enabled_ones cs
unfolding effective_chains
effective_chains-none cs = effective_rest-none cs

own-rest :
    (r : ProxyChain) (cs : List ProxyChain)
    → chains_of r.id (effective_rest (some r) false cs) ≡ map (λ _. enable r) (chains_of r.id cs)
unfolding effective_rest
own-rest r [] = refl
own-rest r (c ∷ cs) = ground (arith, own-rest r cs, str_eq_refl r.id)

disabled-rest :
    (r : ProxyChain) (cs : List ProxyChain) → chains_of r.id (effective_rest (some r) true cs) ≡ []
unfolding effective_rest
disabled-rest r [] = refl
disabled-rest r (c ∷ cs) = ground (arith, disabled-rest r cs)

-- Whether the chain is appended, since no stored chain has its id.
abbrev appended : ProxyChain → Bool → List ProxyChain → List ProxyChain
appended r disable cs = if not (any (has_chain r.id) cs) && not disable then enable r ∷ [] else []

others-appended :
    (id : String) (r : ProxyChain) (disable : Bool) (cs : List ProxyChain)
    → str_eq r.id id ≡ false
    → chains_of id (appended r disable cs) ≡ []
others-appended id r disable cs ne = ground (arith, ne)

-- Of no stored chain with the id, or of one.
pub data AtMostOne (id : String) (cs : List ProxyChain) : Type 0 where
  absent : any (has_chain id) cs ≡ false → chains_of id cs ≡ [] → AtMostOne id cs
  single :
      (c : ProxyChain) → any (has_chain id) cs ≡ true → chains_of id cs ≡ c ∷ [] → AtMostOne id cs

own-appended :
    (r : ProxyChain) (cs : List ProxyChain)
    → AtMostOne r.id cs
    → map (λ _. enable r) (chains_of r.id cs) ++ chains_of r.id (appended r false cs)
      ≡ enable r ∷ []
own-appended r cs (absent none_there e) = ground (arith, none_there, e, str_eq_refl r.id)
own-appended r cs (single c there_is e) = ground (arith, there_is, e)

-- For a chain that is deployed, whose id at most one stored chain has: the effective chains have it
-- once, enabled. For one that is disabled they have none of its id. In both cases they have of each
-- other id the stored chains that are enabled.
pub effective_chains_lem :
    (r : ProxyChain) (cs : List ProxyChain)
    → AtMostOne r.id cs
    → (chains_of r.id (effective_chains (some r) false cs) ≡ enable r ∷ [])
      × (chains_of r.id (effective_chains (some r) true cs) ≡ [])
      × ((id : String) (disable : Bool)
          → id ≢ r.id
          → chains_of id (effective_chains (some r) disable cs) ≡ enabled_ones (chains_of id cs))
unfolding effective_chains
effective_chains_lem r cs one = (
  filter_append (has_chain r.id) (effective_rest (some r) false cs) (appended r false cs)
      ∙ ap (λ xs. xs ++ chains_of r.id (appended r false cs)) (own-rest r cs)
      ∙ own-appended r cs one,
  filter_append (has_chain r.id) (effective_rest (some r) true cs) (appended r true cs)
      ∙ ap₂ (λ xs ys. xs ++ ys) (disabled-rest r cs) (ground arith),
  λ id disable ne.
      let differ : str_eq r.id id ≡ false = ground (arith, str_eq_iff r.id id) in
      filter_append (has_chain id) (effective_rest (some r) disable cs) (appended r disable cs)
      ∙ ap₂ (λ xs ys. xs ++ ys) (others-rest id r disable cs differ)
          (others-appended id r disable cs differ)
      ∙ append-nil (enabled_ones (chains_of id cs)),
)
