-- ===== src/Panel/ProxyChain/Diagnosis.antt =====
-- Which hop `diagnose` names.
use ladder_airport.Base.{
  ◌==◌, if◌then◌else◌, Bool-cases, length, ℕ, zero, suc, ◌+◌, ◌≤◌, ◌<◌, String, ◌≡◌, refl, sym, ◌∙◌,
  subst, inl, inr, Bool, true, false, List, arith,
}
use ladder_airport.Panel.ProxyChain.World.{ProxyChain, Node, World, Network}
use ladder_airport.Panel.ProxyChain.Probe.{
  is_passed, probe_node, probe_hop, diagnose_from, diagnose,
}

-- The hops of a chain of `n` pass their probes by `passes`; `r` is the one that is named: the exit, if
-- it fails; the hop behind the last one that fails, which cannot be reached from there; and the entry
-- if none fails.
pub data Named (passes : ℕ → Bool) (n r : ℕ) : Type 0 where
  exit_down : r + 1 ≡ n → passes r ≡ false → Named passes n r
  link_down :
      (i : ℕ)
      → r ≡ i + 1
      → r < n
      → passes i ≡ false
      → ((j : ℕ) → i < j → j < n → passes j ≡ true)
      → Named passes n r
  none_down : r ≡ 0 → ((j : ℕ) → j < n → passes j ≡ true) → Named passes n r

module _ (net : Network) (url : String) (chain : ProxyChain) (passes : ℕ → Bool) (nodes : List Node)
    (steady : (i : ℕ) (w : World)
      → w.nodes ≡ nodes
      → is_passed (probe_hop net url chain i w).0 ≡ passes i) where
  probe_hop-nodes : (i : ℕ) (w : World) → (probe_hop net url chain i w).1.nodes ≡ w.nodes
  unfolding probe_hop probe_node
  probe_hop-nodes i w = ground arith

  diagnose_from-pass :
      (i : ℕ) (w : World)
      → w.nodes ≡ nodes
      → passes i ≡ true
      → diagnose_from net url chain (suc i) w
        ≡ diagnose_from net url chain i (probe_hop net url chain i w).1
  unfolding diagnose_from
  diagnose_from-pass i w known good = ground (arith, steady i w known, good)

  diagnose_from-fail :
      (i : ℕ) (w : World)
      → w.nodes ≡ nodes
      → passes i ≡ false
      → (diagnose_from net url chain (suc i) w).0
        ≡ (if i + 1 == length chain.hops then i else i + 1)
  unfolding diagnose_from
  diagnose_from-fail i w known bad = ground (arith, steady i w known, bad)

  extend :
      (i : ℕ)
      → passes i ≡ true
      → ((j : ℕ) → i + 1 ≤ j → j < length chain.hops → passes j ≡ true)
      → (j : ℕ) → i ≤ j
      → j < length chain.hops
      → passes j ≡ true
  extend i good above j low high = elim (Bool-cases (j == i)) [
    | inl same ↦ subst (λ k. passes k ≡ true) (ground (arith, same)) good
    | inr differ ↦ above j (ground (arith, differ, low)) high
  ]

  Named-at :
      (i : ℕ) (w : World)
      → w.nodes ≡ nodes
      → i + 1 ≤ length chain.hops
      → passes i ≡ false
      → ((j : ℕ) → i + 1 ≤ j → j < length chain.hops → passes j ≡ true)
      → Named passes (length chain.hops) (diagnose_from net url chain (suc i) w).0
  Named-at i w known low bad above = elim (Bool-cases (i + 1 == length chain.hops)) [
    | inl last ↦
        let r : i ≡ (diagnose_from net url chain (suc i) w).0 =
          ground (arith, diagnose_from-fail i w known bad, last) in
        subst (Named passes (length chain.hops)) r (exit_down (ground (arith, last)) bad)
    | inr inner ↦
        let r : i + 1 ≡ (diagnose_from net url chain (suc i) w).0 =
          ground (arith, diagnose_from-fail i w known bad, inner) in
        subst (Named passes (length chain.hops)) r
          (link_down i refl (ground (arith, inner, low)) bad (λ j a b. above j (omega arith) b))
  ]

  diagnose_from-Named :
      (i : ℕ) (w : World)
      → w.nodes ≡ nodes
      → i ≤ length chain.hops
      → ((j : ℕ) → i ≤ j → j < length chain.hops → passes j ≡ true)
      → Named passes (length chain.hops) (diagnose_from net url chain i w).0
  diagnose_from-Named zero w known low above =
      unfold diagnose_from in (none_down refl (λ j h. above j (omega arith) h))
  diagnose_from-Named (suc i) w known low above = elim (Bool-cases (passes i)) [
    | inl good ↦
        subst (λ (o : ℕ × World). Named passes (length chain.hops) o.0)
          (sym (diagnose_from-pass i w known good))
          (diagnose_from-Named i (probe_hop net url chain i w).1 (probe_hop-nodes i w ∙ known)
            (omega arith) (extend i good (λ j a b. above j (omega arith) b)))
    | inr bad ↦ Named-at i w known (omega arith) bad (λ j a b. above j (omega arith) b)
  ]

  -- With answers that do not depend on the time, `diagnose` names the exit if its direct probe fails,
  -- else the hop behind the last one that fails, and the entry if none fails.
  pub diagnose-Named :
      (w : World) → w.nodes ≡ nodes → Named passes (length chain.hops) (diagnose net url chain w).0
  unfolding diagnose
  diagnose-Named w known =
      diagnose_from-Named (length chain.hops) w known (omega arith) (λ j a b. absurd (omega arith))
