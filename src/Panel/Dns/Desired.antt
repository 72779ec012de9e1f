-- ===== src/Panel/Dns/Desired.antt =====
-- The addresses that a domain should have: desiredAddresses, nodeAddressDesired, probeAgentPublic,
-- validateDesired and publicAddress of panel/internal/dnsreconcile/service.go. `netip.ParseAddr` and
-- the agents are parameters; an IPv6 zone is left out.
use Prim.Native.Char.{code}
use Prim.Native.String.{String, ◌++◌ as concat}
use ladder_airport.Base.{
  leb, ◌==◌, if◌then◌else◌, Result, err, ok, ℕ, ◌+◌, ◌-◌, ◌*◌, ◌/◌, ◌%◌, ◌^◌, String, Bool, true,
  false, not, ◌&&◌, ◌||◌, Option, none, some, str_eq,
}
use ladder_airport.Panel.Dns.{
  RecordMode, ManagedDomain, a, aaaa, dual, cname, manual, node_address, agent_public, other_source,
}

-- An address with its bits, and the text that `String` gives.
pub record Address : Type 0 where
  pub is_four : Bool
  pub bits : ℕ
  pub text : String

-- An IPv4 address in IPv6 form.
abbrev is_mapped : Address → Bool
is_mapped x = not x.is_four && x.bits / 2 ^ 32 == 0xffff

abbrev unmap : Address → Address
unmap x = if is_mapped x then record x { is_four = true; bits = x.bits % 2 ^ 32 } else x

unfoldable pub is_loopback : Address → Bool
is_loopback x = if x.is_four then x.bits / 2 ^ 24 == 127 else x.bits == 1

unfoldable pub is_multicast : Address → Bool
is_multicast x = if x.is_four then x.bits / 2 ^ 28 == 0xe else x.bits / 2 ^ 120 == 0xff

unfoldable pub is_link_local_unicast : Address → Bool
is_link_local_unicast x =
    if x.is_four then x.bits / 2 ^ 16 == 169 * 256 + 254 else x.bits / 2 ^ 118 == 0xfe80 / 2 ^ 6

unfoldable pub is_global_unicast : Address → Bool
unfolding is_loopback is_multicast is_link_local_unicast
is_global_unicast x =
    not (x.bits == 0)
    && not (x.is_four && x.bits == 2 ^ 32 - 1)
    && not (is_loopback x)
    && not (is_multicast x)
    && not (is_link_local_unicast x)

unfoldable pub is_private : Address → Bool
is_private x =
    if x.is_four
    then x.bits / 2 ^ 24 == 10
      || x.bits / 2 ^ 20 == 172 * 16 + 1
      || x.bits / 2 ^ 16 == 192 * 256 + 168
    else x.bits / 2 ^ 121 == 0xfc / 2

-- The tests of `netip` read a mapped address as IPv4, the prefix 100.64.0.0/10 does not.
unfoldable pub public_address : Address → Bool
unfolding is_global_unicast is_private
public_address x =
    is_global_unicast (unmap x)
    && not (is_private (unmap x))
    && not (x.is_four && x.bits / 2 ^ 22 == 100 * 4 + 1)

-- White space of Unicode, as `strings.TrimSpace` has it.
abbrev pub is_space : ℕ → Bool
is_space c =
    leb 9 c && leb c 13
    || c == 32
    || c == 0x85
    || c == 0xa0
    || c == 0x1680
    || leb 0x2000 c && leb c 0x200a
    || c == 0x2028
    || c == 0x2029
    || c == 0x202f
    || c == 0x205f
    || c == 0x3000

unfoldable pub trim_left : (ℕ → Bool) → String → String
trim_left p String.[] = ""
trim_left p (String.◌∷◌ c s) =
    let rest = trim_left p s in if p (code c) then rest else String.◌∷◌ c s

unfoldable pub trim_right : (ℕ → Bool) → String → String
trim_right p String.[] = ""
trim_right p (String.◌∷◌ c s) =
    let rest = trim_right p s in if str_eq rest "" && p (code c) then "" else String.◌∷◌ c rest

unfoldable pub trim : (ℕ → Bool) → String → String
unfolding trim_left trim_right
trim p s = trim_left p (trim_right p s)

abbrev pub is_bracket : ℕ → Bool
is_bracket c = c == b'[' || c == b']'

pub record Node : Type 0 where
  pub id : String
  pub address : String
  pub is_uplink : Bool
  pub token : String
  pub ddns_enabled : Bool

-- An agent that is asked for its IPv4 and IPv6 addresses.
abbrev pub Agent : Type 0
Agent = Bool → Bool → Result (String × String)

-- Addresses, names, nodes and agents; `DialAgent` may be nil.
pub record Network : Type 0 where
  pub parse_addr : String → Option Address
  pub normalize_fqdn : String → Result String
  pub relative_name : String → String → Result String
  pub get_node : String → Result Node
  pub default_token : String
  pub uplink_client : String → Option Agent
  pub dial_agent : Option (Node → String → Result Agent)

abbrev pub wants_four : RecordMode → Bool
wants_four a = true
wants_four dual = true
wants_four _ = false

abbrev pub wants_six : RecordMode → Bool
wants_six aaaa = true
wants_six dual = true
wants_six _ = false

pub record Wanted : Type 0 where
  pub ipv4 : String
  pub ipv6 : String
  pub cname_target : String
  pub note : String

-- One family of `validateDesired`: an address of the family, and public if that is required.
unfoldable pub validate_family : (String → Option Address) → Bool → Bool → String → Option String
validate_family parse_addr four require_public text = elim (parse_addr text) [
  | none ↦ none
  | some x ↦
      if (if four then x.is_four else not x.is_four) && (not require_public || public_address x)
      then some x.text
      else none
]

abbrev public_suffix : Bool → String
public_suffix true = "或不是公网地址"
public_suffix false = ""

unfoldable pub validate_one :
    (String → Option Address) → Bool → Bool → Bool → String → Result String
validate_one parse_addr wanted four require_public text =
    if wanted
    then elim (validate_family parse_addr four require_public text) [
      | none ↦
          err
            (concat (if four then "IPv4 目标地址无效" else "IPv6 目标地址无效") (public_suffix require_public))
      | some t ↦ ok t
    ]
    else ok text

unfoldable pub validate_desired :
    (String → Option Address) → String → String → RecordMode → Bool → Result (String × String)
validate_desired parse_addr ipv4 ipv6 mode require_public =
    elim (validate_one parse_addr (wants_four mode) true require_public (trim is_space ipv4)) [
      | err e ↦ err e
      | ok v4 ↦
          elim (validate_one parse_addr (wants_six mode) false require_public
            (trim is_space ipv6)) [ err e ↦ err e | ok v6 ↦ ok (v4, v6) ]
    ]

unfoldable pub node_address_desired :
    (String → Option Address) → Node → RecordMode → Result (String × String)
node_address_desired parse_addr node mode =
    elim (parse_addr (trim is_bracket (trim is_space node.address))) [
      | none ↦ err "节点控制地址不是可用公网 IP"
      | some x ↦
          if not (public_address x)
          then err "节点控制地址不是可用公网 IP"
          else if x.is_four
          then validate_desired parse_addr x.text "" mode true
          else validate_desired parse_addr "" x.text mode true
    ]

abbrev pub addresses : String → Result (String × String) → Result Wanted
addresses note (err e) = err e
addresses note (ok (v4, v6)) = ok (record { ipv4 = v4; ipv6 = v6; cname_target = ""; note = note })

abbrev pub is_cname : RecordMode → Bool
is_cname cname = true
is_cname _ = false

module _ (net : Network) where
  abbrev dial : Node → String → Result Agent
  dial node token = elim net.dial_agent [
    | none ↦ err "Agent 公网地址连接器不可用"
    | some dial_agent ↦ dial_agent node token
  ]

  abbrev pub connect : Node → Result Agent
  connect node =
      if node.is_uplink
      then elim (net.uplink_client node.id) [
        | none ↦ err "uplink 节点未建立实时通道，无法即时公网探测"
        | some agent ↦ ok agent
      ]
      else elim (dial node (if str_eq node.token "" then net.default_token else node.token)) [
        | err e ↦ err (concat "连接 Agent 获取公网地址失败：" e)
        | ok agent ↦ ok agent
      ]

  unfoldable pub probe_agent_public : Node → RecordMode → Result (String × String)
  probe_agent_public node mode = elim (connect node) [
    | err e ↦ err e
    | ok agent ↦ elim (agent (wants_four mode) (wants_six mode)) [
      | err e ↦ err (concat "Agent 公网地址探测失败：" e)
      | ok (ipv4, ipv6) ↦ validate_desired net.parse_addr ipv4 ipv6 mode true
    ]
  ]

  unfoldable pub manual_desired : ManagedDomain → Result Wanted
  manual_desired d =
      if is_cname d.record_mode
      then elim (net.normalize_fqdn d.manual_cname) [
        | err e ↦ err (concat "CNAME 目标域名无效：" e)
        | ok target ↦ ok (record { ipv4 = ""; ipv6 = ""; cname_target = target; note = "" })
      ]
      else addresses ""
          (validate_desired net.parse_addr d.manual_ipv4 d.manual_ipv6 d.record_mode false)

  -- A probe that fails falls back to the control address of the node, with a note.
  unfoldable pub probed_desired : Node → RecordMode → Result Wanted
  probed_desired node mode = elim (probe_agent_public node mode) [
    | ok found ↦ addresses "" (ok found)
    | err e ↦ elim (node_address_desired net.parse_addr node mode) [
      | ok found ↦ addresses (concat "Agent 公网探测失败（" (concat e "），已回退使用节点控制地址")) (ok found)
      | err _ ↦ err e
    ]
  ]

  unfoldable pub desired_addresses : ManagedDomain → Result Wanted
  desired_addresses d = elim d.address_source [
    | manual ↦ manual_desired d
    | node_address ↦
        if is_cname d.record_mode then err "CNAME 记录只能使用手工指定目标" else elim (net.get_node d.node_id) [
          | err e ↦ err e
          | ok node ↦ addresses "" (node_address_desired net.parse_addr node d.record_mode)
        ]
    | agent_public ↦
        if is_cname d.record_mode then err "CNAME 记录只能使用手工指定目标" else elim net.dial_agent [
          | none ↦ err "Agent 公网地址连接器不可用"
          | some _ ↦ elim (net.get_node d.node_id) [
            | err e ↦ err e
            | ok node ↦ probed_desired node d.record_mode
          ]
        ]
    | other_source s ↦ err (concat "地址来源无效：" s)
  ]
