-- ===== src/Panel/Dns/Operator.antt =====
-- What the operator's edits of a domain leave, in panel/internal/api/handlers_dns.go.
use ladder_airport.Base.{
  Bool-cases, Result-cases, ok, ◌≡◌, refl, ◌∙◌, subst, inl, inr, true, false, ◌&&◌, arith, str_eq,
  str_eq_iff,
}
use ladder_airport.Panel.Dns.{ManagedDomain}
use ladder_airport.Panel.Dns.Edit.{
  DomainRequest, Server, has_panel_records, moves, chosen_name, settle, at_node, place_domain,
  manual_values, set_modes, set_ttl, set_values, build_managed_domain,
}

-- What an edit leaves: the flags, and the place where Panel has records.
pub record IsEdit (old d : ManagedDomain) : Type 0 where
  pub targets : (d.ipv4 ≡ old.ipv4) × (d.ipv6 ≡ old.ipv6)
  pub place : has_panel_records old ≡ true → (d.zone ≡ old.zone) × (d.fqdn ≡ old.fqdn)

not_moved :
    (old d : ManagedDomain)
    → (has_panel_records old && moves old d) ≡ false
    → has_panel_records old ≡ true
    → (d.zone ≡ old.zone) × (d.fqdn ≡ old.fqdn)
not_moved old d stays has =
    let still : moves old d ≡ false = ground (arith, stays, has) in
    let zone_same : str_eq d.zone old.zone ≡ true = ground (arith, still) in
    let fqdn_same : str_eq d.fqdn old.fqdn ≡ true = ground (arith, still) in
    ((str_eq_iff d.zone old.zone).0 zone_same, (str_eq_iff d.fqdn old.fqdn).0 fqdn_same)

settle-IsEdit :
    (old start d : ManagedDomain)
    → start.ipv4 ≡ old.ipv4
    → start.ipv6 ≡ old.ipv6
    → settle old start ≡ ok d
    → IsEdit old d
settle-IsEdit old start d four six e =
    elim (Bool-cases (has_panel_records old && moves old start)) [
      | inl moved ↦ absurd (unfold settle in (ground (arith, e, moved)))
      | inr stays ↦
          let is : start ≡ d = unfold settle in (ground (arith, e, stays)) in
          subst (IsEdit old) is
            (record { targets = (four, six); place = not_moved old start stays })
    ]

place_domain-IsEdit :
    (s : Server) (request : DomainRequest) (old d : ManagedDomain)
    → place_domain s request old ≡ ok d
    → IsEdit old d
place_domain-IsEdit s request old d e = elim (Result-cases (chosen_name s request start)) [
  | inr (x, failed) ↦ absurd (unfold place_domain in (ground (arith, e, failed)))
  | inl ((fqdn, zone), chosen) ↦
      settle-IsEdit old (record start { fqdn = fqdn; zone = zone }) d refl refl
        (unfold place_domain in (ground (arith, e, chosen)))
]
  where
    start : ManagedDomain
    start = at_node request old

-- What the values of a request leave.
abbrev SameTargets : ManagedDomain → ManagedDomain → Type 0
SameTargets old d =
    (d.ipv4 ≡ old.ipv4) × (d.ipv6 ≡ old.ipv6) × (d.zone ≡ old.zone) × (d.fqdn ≡ old.fqdn)

manual_values-targets :
    (s : Server) (old d : ManagedDomain) → manual_values s old ≡ ok d → SameTargets old d
unfolding manual_values
manual_values-targets s old d e = ground (arith, e)

set_modes-targets :
    (request : DomainRequest) (old d : ManagedDomain)
    → set_modes request old ≡ ok d
    → SameTargets old d
unfolding set_modes
set_modes-targets request old d e = ground (arith, e)

set_ttl-targets :
    (request : DomainRequest) (old d : ManagedDomain)
    → set_ttl request old ≡ ok d
    → SameTargets old d
unfolding set_ttl
set_ttl-targets request old d e = ground (arith, e)

SameTargets-trans : (x y z : ManagedDomain) → SameTargets x y → SameTargets y z → SameTargets x z
SameTargets-trans x y z (p, q, r, t) (p', q', r', t') = (p' ∙ p, q' ∙ q, r' ∙ r, t' ∙ t)

set_values-targets :
    (s : Server) (request : DomainRequest) (old d : ManagedDomain)
    → set_values s request old ≡ ok d
    → SameTargets old d
set_values-targets s request old d e = elim (Result-cases (set_modes request old)) [
  | inr (x, failed) ↦ absurd (unfold set_values in (ground (arith, e, failed)))
  | inl (y, chosen) ↦ elim (Result-cases (manual_values s y)) [
    | inr (x, failed) ↦ absurd (unfold set_values in (ground (arith, e, chosen, failed)))
    | inl (z, valued) ↦ SameTargets-trans old y d (set_modes-targets request old y chosen) (
        SameTargets-trans y z d (manual_values-targets s y z valued)
          (set_ttl-targets request z d (unfold set_values in (ground (arith, e, chosen, valued)))))
  ]
]

pub build-IsEdit :
    (s : Server) (request : DomainRequest) (old d : ManagedDomain)
    → build_managed_domain s old request ≡ ok d
    → IsEdit old d
build-IsEdit s request old d e = elim (Result-cases (place_domain s request old)) [
  | inr (x, failed) ↦ absurd (unfold build_managed_domain in (ground (arith, e, failed)))
  | inl (y, placed) ↦
      let edit = place_domain-IsEdit s request old y placed in
      let (p, q, r, t) =
        set_values-targets s request y d
          (unfold build_managed_domain in (ground (arith, e, placed))) in
      record {
        targets = (p ∙ edit.targets.0, q ∙ edit.targets.1);
        place = λ has. (r ∙ (edit.place has).0, t ∙ (edit.place has).1);
      }
]
