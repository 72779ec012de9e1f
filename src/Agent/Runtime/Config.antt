-- ===== src/Agent/Runtime/Config.antt =====
-- The rewriting of a node's configuration before it is parsed (runtime_box.go): the default DNS, and
-- the frp part that is split off. The platform's own rewriting is that of runtime_box_other.go,
-- which changes nothing.
use Prim.Native.String.{◌++◌ as concat}
use ladder_airport.Base.{
  ◌==◌, if◌then◌else◌, Bool-cases, Result, Result-cases, ok, err, ℕ, String, ◌≡◌, subst, inl, inr,
  Bool, true, false, Option, none, some, List, [], ◌∷◌, arith, str_eq, str_eq_refl,
}

-- What the agent relies on: the JSON codec on a document of raw members, sing-box and frp by the
-- error of each call for the instance of a number, and the write of current.json. A document is an
-- object: on the text `null` the code writes to a nil map and panics, which is not modelled.
pub record Host : Type 0 where
  pub unmarshal : String → Result (List (String × String))
  pub marshal : List (String × String) → String
  pub dns_servers : String → Option ℕ
  pub unmarshal_frpc : String → Result (List (String × String))
  pub unmarshal_options : String → Result (Unit {0})
  pub new_box : ℕ → String → Option String
  pub start_box : ℕ → String → Option String
  pub start_frpc : ℕ → List (String × String) → Option String
  pub write_file : String → Option String

unfoldable pub member : String → List (String × String) → Option String
member key [] = none
member key ((k, v) ∷ doc) = if str_eq k key then some v else member key doc

unfoldable pub without : String → List (String × String) → List (String × String)
without key [] = []
without key ((k, v) ∷ doc) =
    let rest = without key doc in if str_eq k key then rest else (k, v) ∷ rest

unfoldable pub put : String → String → List (String × String) → List (String × String)
put key value doc = (key, value) ∷ without key doc

-- The default DNS section, as `json.Marshal` writes it.
abbrev dns_server : String → String → String
dns_server address tag =
    concat "{\"server\":\"" (
      concat address
        (concat "\",\"server_port\":53,\"tag\":\"" (concat tag "\",\"type\":\"udp\"}")))

unfoldable pub default_dns : String
default_dns = concat "{\"servers\":[" (
    concat (dns_server "223.5.5.5" "default-dns-alidns") (
      concat "," (
        concat (dns_server "119.29.29.29" "default-dns-dnspod") (
          concat "," (
            concat (dns_server "1.1.1.1" "default-dns-cf")
              (concat "," (concat (dns_server "8.8.8.8" "default-dns-google") "]}")))))))

-- A section that does not decode has no servers.
abbrev servers_of : Option ℕ → ℕ
servers_of none = 0
servers_of (some n) = n

module _ (h : Host) where
  unfoldable pub needs_default : List (String × String) → Bool
  needs_default doc = elim (member "dns" doc) [
    | none ↦ true
    | some raw ↦ servers_of (h.dns_servers raw) == 0
  ]

  unfoldable pub ensure_default_dns : String → Result String
  ensure_default_dns config = elim (h.unmarshal config) [
    | err e ↦ err (concat "解析节点配置失败：" e)
    | ok doc ↦ if needs_default doc then ok (h.marshal (put "dns" default_dns doc)) else ok config
  ]

  unfoldable pub prepare_config : String → Result String
  prepare_config config = ensure_default_dns config

  unfoldable pub split_frpc : String → Result (String × List (String × String))
  split_frpc config = elim (h.unmarshal config) [
    | err e ↦ err (concat "解析节点配置失败：" e)
    | ok doc ↦ elim (member "ladder_frpc" doc) [
      | none ↦ ok (h.marshal doc, [])
      | some raw ↦ elim (h.unmarshal_frpc raw) [
        | err e ↦ err (concat "解析 FRPC 配置失败：" e)
        | ok configurations ↦ ok (h.marshal (without "ladder_frpc" doc), configurations)
      ]
    ]
  ]

  unfoldable pub parse_options : String → Result (Unit {0})
  parse_options config = elim (split_frpc config) [
    | err e ↦ err e
    | ok parts ↦ elim (h.unmarshal_options parts.0) [
      | err e ↦ err (concat "解析配置失败：" e)
      | ok opts ↦ ok opts
    ]
  ]

  -- The codec reads back the default section that it wrote, which is compact JSON with four servers.
  pub record IsCodec : Type 0 where
    pub reads_back :
        (doc : List (String × String))
        → member "dns" doc ≡ some default_dns
        → (doc' : List (String × String)) × (h.unmarshal (h.marshal doc) ≡ ok doc')
          × (member "dns" doc' ≡ some default_dns)
    pub counts_default : h.dns_servers default_dns ≡ some 4

  member-put :
      (key value : String) (doc : List (String × String))
      → member key (put key value doc) ≡ some value
  unfolding member put
  member-put key value doc = ground (arith, str_eq_refl key)

  has_default :
      IsCodec
      → (doc : List (String × String)) → member "dns" doc ≡ some default_dns
      → needs_default doc ≡ false
  unfolding needs_default
  has_default codec doc e = ground (arith, e, codec.counts_default)

  prepared_kept :
      (config : String) (doc : List (String × String))
      → h.unmarshal config ≡ ok doc
      → needs_default doc ≡ false
      → prepare_config config ≡ ok config
  unfolding prepare_config ensure_default_dns
  prepared_kept config doc e f = ground (arith, e, f)

  prepared_new :
      (config : String) (doc : List (String × String))
      → h.unmarshal config ≡ ok doc
      → needs_default doc ≡ true
      → prepare_config config ≡ ok (h.marshal (put "dns" default_dns doc))
  unfolding prepare_config ensure_default_dns
  prepared_new config doc e f = ground (arith, e, f)

  prepared_err :
      (config e : String)
      → h.unmarshal config ≡ err e
      → prepare_config config ≡ err (concat "解析节点配置失败：" e)
  unfolding prepare_config ensure_default_dns
  prepared_err config e h = ground (arith, h)

  -- Preparing a configuration that was prepared changes nothing, given a codec that reads back the
  -- default section that it wrote.
  pub prepare_config_idem :
      IsCodec
      → (config prepared : String) → prepare_config config ≡ ok prepared
      → prepare_config prepared ≡ ok prepared
  prepare_config_idem codec config prepared e = elim (Result-cases (h.unmarshal config)) [
    | inr (bad, failed) ↦ cc (prepared_err config bad failed)
    | inl (doc, read) ↦ elim (Bool-cases (needs_default doc)) [
      | inr fine ↦
          let same : config ≡ prepared = cc (prepared_kept config doc read fine) in
          subst (λ c. prepare_config c ≡ ok c) same (prepared_kept config doc read fine)
      | inl missing ↦
          let written = put "dns" default_dns doc in
          let same : h.marshal written ≡ prepared = cc (prepared_new config doc read missing) in
          let (doc', again, kept) = codec.reads_back written (member-put "dns" default_dns doc) in
          subst (λ c. prepare_config c ≡ ok c) same
            (prepared_kept (h.marshal written) doc' again (has_default codec doc' kept))
    ]
  ]
