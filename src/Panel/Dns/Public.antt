-- ===== src/Panel/Dns/Public.antt =====
-- The addresses that are published for a node: nodeAddressDesired, probeAgentPublic and publicAddress
-- of panel/internal/dnsreconcile/service.go.
use ladder_airport.Panel.Dns.{
  RecordMode, AddressSource, ManagedDomain, a, aaaa, dual, cname, other_mode, manual, node_address,
  agent_public, other_source,
}
use Prim.Native.String.{◌++◌ as concat}
use ladder_airport.Base.{
  if◌then◌else◌, Bool-cases, Option-cases, set, Result, Result-cases, err, ok, String, ◌≡◌, refl,
  ◌∙◌, subst, ◌≢◌, inl, inr, Bool, true, false, Option, some, arith,
}
use ladder_airport.Panel.Dns.Desired.{
  Address, public_address, is_space, trim, is_bracket, Node, Network, wants_four, wants_six, Wanted,
  validate_family, validate_one, validate_desired, node_address_desired, addresses, is_cname,
  connect, probe_agent_public, probed_desired, desired_addresses,
}
use ladder_airport.Panel.Dns.Routable.{
  IsRoutableFour, IsRoutableSix, public_address-four, public_address-six,
}

-- A text that is what `String` gives for an address of the family that was parsed, and is public.
pub IsPublicText : (String → Option Address) → Bool → String → Type 0
IsPublicText parse_addr four text =
    (raw : String) × (x : Address) × (parse_addr raw ≡ some x)
    × (x.text ≡ text)
    × (x.is_four ≡ four)
    × (if four then IsRoutableFour x.bits else IsRoutableSix x.bits)

parsed_public :
    (parse_addr : String → Option Address) (four : Bool) (text value : String) (x : Address)
    → parse_addr text ≡ some x
    → public_address x ≡ true
    → validate_one parse_addr true four true text ≡ ok value
    → IsPublicText parse_addr four value
unfolding IsPublicText
parsed_public parse_addr true text value x parsed public e =
    let four : x.is_four ≡ true =
      unfold validate_one validate_family in (ground (arith, e, parsed, public)) in
    let text_is : x.text ≡ value =
      unfold validate_one validate_family in (ground (arith, e, parsed, public, four)) in
    (text, x, parsed, text_is, four, public_address-four x four public)
parsed_public parse_addr false text value x parsed public e =
    let six : x.is_four ≡ false =
      unfold validate_one validate_family in (ground (arith, e, parsed, public)) in
    let text_is : x.text ≡ value =
      unfold validate_one validate_family in (ground (arith, e, parsed, public, six)) in
    (text, x, parsed, text_is, six, public_address-six x six public)

validate_one-public :
    (parse_addr : String → Option Address) (four : Bool) (text value : String)
    → validate_one parse_addr true four true text ≡ ok value
    → IsPublicText parse_addr four value
validate_one-public parse_addr four text value e = elim (Option-cases (parse_addr text)) [
  | inl bad ↦ absurd (unfold validate_one validate_family in (ground (arith, e, bad)))
  | inr (x, parsed) ↦ elim (Bool-cases (public_address x)) [
    | inr private ↦
        absurd (unfold validate_one validate_family in (ground (arith, e, parsed, private)))
    | inl public ↦ parsed_public parse_addr four text value x parsed public e
  ]
]

-- Both families, as the mode asks for them.
pub IsPublic : (String → Option Address) → RecordMode → String × String → Type 0
IsPublic parse_addr mode found =
    (if wants_four mode then IsPublicText parse_addr true found.0 else Unit)
    × (if wants_six mode then IsPublicText parse_addr false found.1 else Unit)

IsPublic-intro :
    (parse_addr : String → Option Address) (mode : RecordMode) (found : String × String)
    → (wants_four mode ≡ true → IsPublicText parse_addr true found.0)
    → (wants_six mode ≡ true → IsPublicText parse_addr false found.1)
    → IsPublic parse_addr mode found
unfolding IsPublic
IsPublic-intro parse_addr a found four six = (four refl, tt)
IsPublic-intro parse_addr aaaa found four six = (tt, six refl)
IsPublic-intro parse_addr dual found four six = (four refl, six refl)
IsPublic-intro parse_addr cname found four six = (tt, tt)
IsPublic-intro parse_addr (other_mode _) found four six = (tt, tt)

validate_desired-IsPublic :
    (parse_addr : String → Option Address) (ipv4 ipv6 : String) (mode : RecordMode)
    (found : String × String)
    → validate_desired parse_addr ipv4 ipv6 mode true ≡ ok found
    → IsPublic parse_addr mode found
validate_desired-IsPublic parse_addr ipv4 ipv6 mode found e =
    elim (Result-cases (validate_one parse_addr (wants_four mode) true true (trim is_space ipv4))) [
      | inr (x, failed) ↦ absurd (unfold validate_desired in (ground (arith, e, failed)))
      | inl (v4, four) ↦
          elim (Result-cases
            (validate_one parse_addr (wants_six mode) false true (trim is_space ipv6))) [
              | inr (x, failed) ↦
                  absurd (unfold validate_desired in (ground (arith, e, four, failed)))
              | inl (v6, six) ↦
                  let is : (v4, v6) ≡ found =
                    unfold validate_desired in (ground (arith, e, four, six)) in
                  subst (IsPublic parse_addr mode) is (
                    IsPublic-intro parse_addr mode (v4, v6)
                      (λ wants. validate_one-public parse_addr true (trim is_space ipv4) v4 (
                        subst
                          (λ b. validate_one parse_addr b true true (trim is_space ipv4) ≡ ok v4)
                          wants four))
                      (λ wants. validate_one-public parse_addr false (trim is_space ipv6) v6 (
                        subst
                          (λ b. validate_one parse_addr b false true (trim is_space ipv6) ≡ ok v6)
                          wants six)))
            ]
    ]

node_address-IsPublic :
    (parse_addr : String → Option Address) (node : Node) (mode : RecordMode)
    (found : String × String)
    → node_address_desired parse_addr node mode ≡ ok found
    → IsPublic parse_addr mode found
node_address-IsPublic parse_addr node mode found e =
    elim (Option-cases (parse_addr (trim is_bracket (trim is_space node.address)))) [
      | inl bad ↦ absurd (unfold node_address_desired in (ground (arith, e, bad)))
      | inr (x, parsed) ↦ elim (Bool-cases (public_address x)) [
        | inr private ↦ absurd (unfold node_address_desired in (ground (arith, e, parsed, private)))
        | inl public ↦ elim (Bool-cases x.is_four) [
          | inl four ↦
              validate_desired-IsPublic parse_addr x.text "" mode found
                (unfold node_address_desired in (ground (arith, e, parsed, public, four)))
          | inr six ↦
              validate_desired-IsPublic parse_addr "" x.text mode found
                (unfold node_address_desired in (ground (arith, e, parsed, public, six)))
        ]
      ]
    ]

module _ (net : Network) where
  probe-IsPublic :
      (node : Node) (mode : RecordMode) (found : String × String)
      → probe_agent_public net node mode ≡ ok found
      → IsPublic net.parse_addr mode found
  probe-IsPublic node mode found e = elim (Result-cases (connect net node)) [
    | inr (x, failed) ↦ absurd (unfold probe_agent_public in (ground (arith, e, failed)))
    | inl (agent, connected) ↦ elim (Result-cases (agent (wants_four mode) (wants_six mode))) [
      | inr (x, failed) ↦
          absurd (unfold probe_agent_public in (ground (arith, e, connected, failed)))
      | inl ((ipv4, ipv6), answered) ↦
          validate_desired-IsPublic net.parse_addr ipv4 ipv6 mode found
            (unfold probe_agent_public in (ground (arith, e, connected, answered)))
    ]
  ]

  abbrev found_in : Wanted → String × String
  found_in wanted = (wanted.ipv4, wanted.ipv6)

  addresses-found :
      (note : String) (r : Result (String × String)) (wanted : Wanted)
      → addresses note r ≡ ok wanted
      → r ≡ ok (found_in wanted)
  addresses-found note (err x) wanted e = absurd (ground (arith, e))
  addresses-found note (ok (v4, v6)) wanted e = ground (arith, e)

  probed-IsPublic :
      (node : Node) (mode : RecordMode) (wanted : Wanted)
      → probed_desired net node mode ≡ ok wanted
      → IsPublic net.parse_addr mode (found_in wanted)
  probed-IsPublic node mode wanted e = elim (Result-cases (probe_agent_public net node mode)) [
    | inl (found, probed) ↦ probe-IsPublic node mode (found_in wanted) (
        probed
        ∙ addresses-found "" (ok found) wanted
            (unfold probed_desired in (ground (arith, e, probed))))
    | inr (x, failed) ↦ elim (Result-cases (node_address_desired net.parse_addr node mode)) [
      | inr (y, none_left) ↦
          absurd (unfold probed_desired in (ground (arith, e, failed, none_left)))
      | inl (found, fallback) ↦
          let note = concat "Agent 公网探测失败（" (concat x "），已回退使用节点控制地址") in
          node_address-IsPublic net.parse_addr node mode (found_in wanted) (
            fallback
            ∙ addresses-found note (ok found) wanted
                (unfold probed_desired in (ground (arith, e, failed, fallback))))
    ]
  ]

  -- The addresses that are wanted for a domain whose source is its node, be it the control address, the
  -- agent's answer or the fallback after a probe that fails: for each family that the mode asks for, it
  -- is the text of an address of the family that `ParseAddr` gave, outside the blocks of private,
  -- shared, loopback, link-local and multicast addresses.
  pub desired_addresses-IsPublic :
      (d : ManagedDomain) (wanted : Wanted)
      → d.address_source ≢ manual
      → desired_addresses net d ≡ ok wanted
      → IsPublic net.parse_addr d.record_mode (wanted.ipv4, wanted.ipv6)
  desired_addresses-IsPublic d wanted automatic e = go d.address_source refl
    where
      Goal : Type 0
      Goal = IsPublic net.parse_addr d.record_mode (wanted.ipv4, wanted.ipv6)

      go : (source : AddressSource) → d.address_source ≡ source → Goal
      go manual is = absurd (automatic is)
      go (other_source x) is = absurd (unfold desired_addresses in (ground (arith, e, is)))
      go node_address is = elim (Bool-cases (is_cname d.record_mode)) [
        | inl alias ↦ absurd (unfold desired_addresses in (ground (arith, e, is, alias)))
        | inr plain ↦ elim (Result-cases (net.get_node d.node_id)) [
          | inr (x, missing) ↦
              absurd (unfold desired_addresses in (ground (arith, e, is, plain, missing)))
          | inl (node, found) ↦
              node_address-IsPublic net.parse_addr node d.record_mode (wanted.ipv4, wanted.ipv6)
                (addresses-found "" (node_address_desired net.parse_addr node d.record_mode) wanted
                  (unfold desired_addresses in (ground (arith, e, is, plain, found))))
        ]
      ]
      go agent_public is = elim (Bool-cases (is_cname d.record_mode)) [
        | inl alias ↦ absurd (unfold desired_addresses in (ground (arith, e, is, alias)))
        | inr plain ↦ elim (Option-cases net.dial_agent) [
          | inl unset ↦ absurd (unfold desired_addresses in (ground (arith, e, is, plain, unset)))
          | inr (dial, set) ↦ elim (Result-cases (net.get_node d.node_id)) [
            | inr (x, missing) ↦
                absurd (unfold desired_addresses in (ground (arith, e, is, plain, set, missing)))
            | inl (node, found) ↦
                probed-IsPublic node d.record_mode wanted
                  (unfold desired_addresses in (ground (arith, e, is, plain, set, found)))
          ]
        ]
      ]
