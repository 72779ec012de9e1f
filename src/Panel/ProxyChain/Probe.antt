-- ===== src/Panel/ProxyChain/Probe.antt =====
-- Probing a chain through its entry, and finding the hop that fails (ProbeLocked and diagnose).
use ladder_airport.Base.{
  ◌==◌, if◌then◌else◌, length, get_or, Result, err, ok, ℕ, zero, suc, ◌+◌, String, Bool, true,
  false, not, Option, none, some, str_eq,
}
use ladder_airport.Panel.ProxyChain.World.{
  Hop, ProxyChain, World, Answer, Network, get_node, no_node, get_chain, no_chain, tick, set_probe,
  lost, answered,
}

-- `failed_hop_index` is -1, here none, on success.
pub record ProbeResult : Type 0 where
  pub passed : Bool
  pub delay_ms : ℕ
  pub message : String
  pub failed_hop_index : Option ℕ

pub data Probed : Type 0 where
  passed_in : ℕ → Probed
  refused : String → Probed
  unreachable : String → Probed

abbrev pub is_passed : Probed → Bool
is_passed (passed_in _) = true
is_passed (refused _) = false
is_passed (unreachable _) = false

abbrev pub read_probe : Answer × ℕ → Probed
read_probe (lost e, _) = unreachable e
read_probe (answered done message, delay) = if done then passed_in delay else refused message

module _ (net : Network) (url : String) where
  unfoldable pub probe_node : String → String → World → Probed × World
  probe_node id tag w = elim (get_node id w.nodes) [
    | none ↦ (unreachable (no_node id), w)
    | some node ↦
        if node.uplink
        then (if net.uplink_connected w.calls id
            then (read_probe (net.probe (w.calls + 1) id tag url), tick (tick w))
            else (unreachable "uplink 节点未建立实时通道，无法即时出站探测", tick w))
        else elim (net.dial w.calls id) [
          | some e ↦ (unreachable e, tick w)
          | none ↦ (read_probe (net.probe (w.calls + 1) id tag url), tick (tick w))
        ]
  ]

  abbrev no_hop : Hop
  no_hop = record {
    node_id = "";
    inbound_id = "";
    dial_address = "";
    dial_port = 0;
    tls_skip_verify = false;
  }

  -- The probe of the hop at an index: through the chain, and at the exit through the direct outbound.
  unfoldable pub probe_hop : ProxyChain → ℕ → World → Probed × World
  probe_hop chain i w =
      probe_node (get_or chain.hops i no_hop).node_id
        (if i + 1 == length chain.hops then "direct" else net.chain_outbound_tag chain.id i) w

  -- The hops from index `i - 1` down to 0.
  unfoldable pub diagnose_from : ProxyChain → ℕ → World → ℕ × World
  diagnose_from chain zero w = (0, w)
  diagnose_from chain (suc i) w =
      let r = probe_hop chain i w in
      elim (is_passed r.0) [
        | true ↦ diagnose_from chain i r.1
        | false ↦ (if i + 1 == length chain.hops then i else i + 1, r.1)
      ]

  unfoldable pub diagnose : ProxyChain → World → ℕ × World
  diagnose chain w = diagnose_from chain (length chain.hops) w

  abbrev message_of : Probed → String
  message_of (passed_in _) = "探测失败"
  message_of (refused m) = if str_eq m "" then "探测失败" else m
  message_of (unreachable e) = e

  -- A failed probe: the hop that fails is found and stored.
  unfoldable pub probe_failed : ProxyChain → String → World → ProbeResult × World
  probe_failed chain message w =
      let (failed, w') = diagnose chain w in
      (
        record { passed = false; delay_ms = 0; message = message; failed_hop_index = some failed },
        set_probe net chain.id (some (message, failed)) 0 w',
      )

  -- The moving of subscriptions to chains after a success is not modelled. A chain has hops, which
  -- its validation sees to.
  unfoldable pub probe_locked : String → World → Result ProbeResult × World
  probe_locked id w = elim (get_chain id w.chains) [
    | none ↦ (err (no_chain id), w)
    | some chain ↦
        if not chain.enabled
        then (err "代理链已禁用", w)
        else (let (probed, w') =
              probe_node (get_or chain.hops 0 no_hop).node_id (net.chain_outbound_tag chain.id 0)
                w in
            elim probed [
              | passed_in delay ↦ (
                ok (record {
                  passed = true;
                  delay_ms = delay;
                  message = "";
                  failed_hop_index = none;
                }),
                set_probe net id none delay w',
              )
              | refused m ↦
                  (let (r, w'') = probe_failed chain (message_of (refused m)) w' in (ok r, w''))
              | unreachable e ↦ (let (r, w'') = probe_failed chain e w' in (ok r, w''))
            ])
  ]
