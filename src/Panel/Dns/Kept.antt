-- ===== src/Panel/Dns/Kept.antt =====
-- What the parts of a reconciliation keep: the place of the domain and what Panel owns.

use ladder_airport.Base.{
  if◌then◌else◌, Option-cases, String, ◌≡◌, refl, ◌∙◌, subst, inl, inr, Bool, true, arith,
}
use ladder_airport.Panel.Dns.{
  RecordType, same_type, Target, ManagedDomain, target_of, set_target, Outside, a_record,
  aaaa_record, cname_record,
}
use ladder_airport.Panel.Dns.Converge.{Work, Action, and_then}
use ladder_airport.Panel.Dns.Ownership.{is_careful, owned}

pub same_type-eq : (t t' : RecordType) → same_type t t' ≡ true → t ≡ t'
same_type-eq a_record a_record e = refl
same_type-eq aaaa_record aaaa_record e = refl
same_type-eq cname_record cname_record e = refl
same_type-eq a_record aaaa_record e = absurd (cc)
same_type-eq a_record cname_record e = absurd (cc)
same_type-eq aaaa_record a_record e = absurd (cc)
same_type-eq aaaa_record cname_record e = absurd (cc)
same_type-eq cname_record a_record e = absurd (cc)
same_type-eq cname_record aaaa_record e = absurd (cc)

pub created-set_target :
    (type type' : RecordType) (t : Target) (d : ManagedDomain)
    → (target_of type (set_target type' t d)).created_by_panel
      ≡ (if same_type type' type then t.created_by_panel else (target_of type d).created_by_panel)
created-set_target a_record a_record t d = refl
created-set_target a_record aaaa_record t d = refl
created-set_target a_record cname_record t d = refl
created-set_target aaaa_record a_record t d = refl
created-set_target aaaa_record aaaa_record t d = refl
created-set_target aaaa_record cname_record t d = refl
created-set_target cname_record a_record t d = refl
created-set_target cname_record aaaa_record t d = refl
created-set_target cname_record cname_record t d = refl

-- What no reconciliation changes of a domain.
pub record SamePlace (d d' : ManagedDomain) : Type 0 where
  pub same_id : d'.id ≡ d.id
  pub same_account : d'.dns_account_id ≡ d.dns_account_id
  pub same_zone : d'.zone ≡ d.zone
  pub same_fqdn : d'.fqdn ≡ d.fqdn

pub place-set_target :
    (type : RecordType) (t : Target) (d : ManagedDomain) → SamePlace d (set_target type t d)
place-set_target a_record t d = record {
  same_id = refl;
  same_account = refl;
  same_zone = refl;
  same_fqdn = refl;
}
place-set_target aaaa_record t d = record {
  same_id = refl;
  same_account = refl;
  same_zone = refl;
  same_fqdn = refl;
}
place-set_target cname_record t d = record {
  same_id = refl;
  same_account = refl;
  same_zone = refl;
  same_fqdn = refl;
}

SamePlace-trans : (d d' d'' : ManagedDomain) → SamePlace d d' → SamePlace d' d'' → SamePlace d d''
SamePlace-trans d d' d'' p q = record {
  same_id = q.same_id ∙ p.same_id;
  same_account = q.same_account ∙ p.same_account;
  same_zone = q.same_zone ∙ p.same_zone;
  same_fqdn = q.same_fqdn ∙ p.same_fqdn;
}

pub place_refl : (d : ManagedDomain) → SamePlace d d
place_refl d = record { same_id = refl; same_account = refl; same_zone = refl; same_fqdn = refl }

-- Panel owns only what it found missing, and has deleted only such records.
pub record IsSafe {S : Type 0} (type : RecordType) (name : String) (x : Work S) : Type 0 where
  pub own : owned (target_of type x.0).created_by_panel x.0.zone name type x.1.calls ≡ true
  pub careful : is_careful type x.1.calls ≡ true

-- What Panel owns anywhere, it still owns.
abbrev pub Grows : {S : Type 0} → RecordType → Outside S → Outside S → Type 0
Grows type w w' =
    (z n : String) (created : Bool)
    → owned created z n type w.calls ≡ true
    → owned created z n type w'.calls ≡ true

module _ {S : Type 0} (type : RecordType) (name : String) where
  -- An action keeps the place of the domain and what is safe.
  abbrev pub Keeps : Action S → Type 0
  Keeps m =
      (d : ManagedDomain) (w : Outside S)
      → IsSafe type name (d, w)
      → SamePlace d (m (d, w)).1.0 × IsSafe type name (m (d, w)).1 × Grows type w (m (d, w)).1.1

  pub and_then-Keeps : (m k : Action S) → Keeps m → Keeps k → Keeps (and_then m k)
  and_then-Keeps m k keeps_m keeps_k d w safe = elim (Option-cases (m (d, w)).0) [
    | inr (e, failed) ↦
        let same : (m (d, w)).1 ≡ (and_then m k (d, w)).1 = ground (arith, failed) in
        subst (λ x. SamePlace d x.0 × IsSafe type name x × Grows type w x.1) same (keeps_m d w safe)
    | inl fine ↦
        let (place, safe', grows) = keeps_m d w safe in
        let x = (m (d, w)).1 in
        let (place', safe'', grows') = keeps_k x.0 x.1 safe' in
        let same : (k x).1 ≡ (and_then m k (d, w)).1 = ground (arith, fine) in
        subst (λ x. SamePlace d x.0 × IsSafe type name x × Grows type w x.1) same
          (
            SamePlace-trans d x.0 (k x).1.0 place place',
            safe'',
            λ z n created own. grows' z n created (grows z n created own),
          )
  ]
