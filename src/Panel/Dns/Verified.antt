-- ===== src/Panel/Dns/Verified.antt =====
-- The row and the provider after a reconciliation without an error.
use ladder_airport.Panel.Dns.Kept.{same_type-eq}
use ladder_airport.Base.{
  if◌then◌else◌, Bool-cases, String, ◌≡◌, refl, sym, ap, ◌∙◌, subst, inl, inr, true, false, Option,
  none, List, [], ◌∷◌, arith,
}
use ladder_airport.Panel.Dns.{
  RecordType, same_type, RecordMode, covers, Target, no_target, ManagedDomain, target_of, Provider,
  Call, Outside, a_record, aaaa_record, cname_record, a, aaaa, dual, cname, other_mode,
}
use ladder_airport.Panel.Dns.Desired.{Wanted}
use ladder_airport.Panel.Dns.Converge.{Work, and_then, reconcile_target, reconcile_mode}
use ladder_airport.Panel.Dns.Converged.{last_found, IsShown}
use ladder_airport.Panel.Dns.Ready.{wanted_of, and_then-ok, Brought, reconcile_target-Brought}

-- A record type that the mode manages is observed and shown with its value; another has no columns.
unfoldable pub IsVerified :
    RecordMode → RecordType → Wanted → String → String → Target → List Call → Type 0
IsVerified mode type wanted zone name t calls =
    if covers mode type
    then (t.desired ≡ wanted_of type wanted)
      × (t.observed ≡ wanted_of type wanted ∷ [])
      × IsShown zone name type (wanted_of type wanted) calls
    else t ≡ no_target

IsVerified-intro :
    (mode : RecordMode) (type : RecordType) (wanted : Wanted) (zone name : String) (t : Target)
    (calls : List Call)
    → (covers mode type ≡ true
        → (t.desired ≡ wanted_of type wanted)
          × (t.observed ≡ wanted_of type wanted ∷ [])
          × IsShown zone name type (wanted_of type wanted) calls)
    → (covers mode type ≡ false → t ≡ no_target)
    → IsVerified mode type wanted zone name t calls
unfolding IsVerified
IsVerified-intro mode type wanted zone name t calls managed free =
    elim (Bool-cases (covers mode type)) [
      | inl covered ↦ rw covered (managed covered)
      | inr uncovered ↦ rw uncovered (free uncovered)
    ]

covers-a : (t : RecordType) → covers a t ≡ same_type a_record t
covers-a a_record = refl
covers-a aaaa_record = refl
covers-a cname_record = refl

covers-aaaa : (t : RecordType) → covers aaaa t ≡ same_type aaaa_record t
covers-aaaa a_record = refl
covers-aaaa aaaa_record = refl
covers-aaaa cname_record = refl

covers-cname : (t : RecordType) → covers cname t ≡ same_type cname_record t
covers-cname a_record = refl
covers-cname aaaa_record = refl
covers-cname cname_record = refl

module _ {S : Type 0} (provider : Provider S) (redact : String → String) (name : String)
    (type : RecordType) (wanted : Wanted) where
  -- One record type is managed in the mode.
  single :
      (mode : RecordMode) (type' : RecordType) (x y : Work S)
      → covers mode type ≡ same_type type' type
      → Brought provider redact name type' (wanted_of type' wanted) x y
      → (covers mode type ≡ true → (target_of type x.0).desired ≡ wanted_of type wanted)
      → (covers mode type ≡ false → target_of type x.0 ≡ no_target)
      → IsVerified mode type wanted x.0.zone name (target_of type y.0) y.1.calls
  single mode type' x y only brought desired free =
      IsVerified-intro mode type wanted x.0.zone name (target_of type y.0) y.1.calls
        (λ covered.
          let is = same_type-eq type' type (sym only ∙ covered) in
          subst
            (λ k.
              ((target_of k y.0).desired ≡ wanted_of k wanted)
              × ((target_of k y.0).observed ≡ wanted_of k wanted ∷ [])
              × IsShown x.0.zone name k (wanted_of k wanted) y.1.calls)
            is
            (
              brought.desired
                  ∙ subst (λ k. (target_of k x.0).desired ≡ wanted_of k wanted) (sym is)
                      (desired covered),
              brought.observed,
              brought.shown,
            ))
        (λ uncovered. brought.others type (sym only ∙ uncovered) ∙ free uncovered)

module _ {S : Type 0} (provider : Provider S) (redact : String → String) (name : String)
    (wanted : Wanted) where
  -- Two record types are managed, one after the other.
  double :
      (type : RecordType) (x y z : Work S)
      → Brought provider redact name a_record wanted.ipv4 x y
      → Brought provider redact name aaaa_record wanted.ipv6 y z
      → (covers dual type ≡ true → (target_of type x.0).desired ≡ wanted_of type wanted)
      → (covers dual type ≡ false → target_of type x.0 ≡ no_target)
      → IsVerified dual type wanted x.0.zone name (target_of type z.0) z.1.calls
  unfolding IsVerified IsShown
  double a_record x y z four six desired free =
      (let kept = six.others a_record refl in
        let shown = four.shown in
        (
          ap (λ t. t.desired) kept ∙ four.desired ∙ desired refl,
          ap (λ t. t.observed) kept ∙ four.observed,
          (
            shown.0,
            subst (λ q. last_found q name a_record z.1.calls ≡ last_found q name a_record y.1.calls)
                  four.zone (six.last a_record refl)
                ∙ shown.1,
            shown.2,
          ),
        ))
  double aaaa_record x y z four six desired free = (
    six.desired ∙ ap (λ t. t.desired) (four.others aaaa_record refl) ∙ desired refl,
    six.observed,
    subst (λ q. IsShown q name aaaa_record wanted.ipv6 z.1.calls) four.zone six.shown,
  )
  double cname_record x y z four six desired free =
      six.others cname_record refl ∙ four.others cname_record refl ∙ free refl

  pub reconcile_mode-IsVerified :
      (type : RecordType) (mode : RecordMode) (d : ManagedDomain) (w : Outside S)
      → d.record_mode ≡ mode
      → (reconcile_mode provider redact name wanted (d, w)).0 ≡ none
      → (covers mode type ≡ true → (target_of type d).desired ≡ wanted_of type wanted)
      → (covers mode type ≡ false → target_of type d ≡ no_target)
      → IsVerified mode type wanted d.zone name
          (target_of type (reconcile_mode provider redact name wanted (d, w)).1.0)
          (reconcile_mode provider redact name wanted (d, w)).1.1.calls
  reconcile_mode-IsVerified type mode d w is fine desired free = go mode is desired free
    where
      Goal : RecordMode → Option String × Work S → Type 0
      Goal m r = IsVerified m type wanted d.zone name (target_of type r.1.0) r.1.1.calls

      one :
          (m : RecordMode) (k : RecordType)
          → covers m type ≡ same_type k type
          → reconcile_target provider redact name k (wanted_of k wanted) (d, w)
            ≡ reconcile_mode provider redact name wanted (d, w)
          → (covers m type ≡ true → (target_of type d).desired ≡ wanted_of type wanted)
          → (covers m type ≡ false → target_of type d ≡ no_target)
          → Goal m (reconcile_mode provider redact name wanted (d, w))
      one m k only same wants frees =
          let fine' : (reconcile_target provider redact name k (wanted_of k wanted) (d, w)).0
              ≡ none =
            ap (λ r. r.0) same ∙ fine in
          subst (Goal m) same (
            single provider redact name type wanted m k (d, w)
              (reconcile_target provider redact name k (wanted_of k wanted) (d, w)).1 only
              (reconcile_target-Brought provider redact name k (wanted_of k wanted) d w fine') wants
              frees)

      go :
          (m : RecordMode)
          → d.record_mode ≡ m
          → (covers m type ≡ true → (target_of type d).desired ≡ wanted_of type wanted)
          → (covers m type ≡ false → target_of type d ≡ no_target)
          → Goal m (reconcile_mode provider redact name wanted (d, w))
      go a e = one a a_record (covers-a type) (unfold reconcile_mode in (ground (arith, e)))
      go aaaa e =
          one aaaa aaaa_record (covers-aaaa type) (unfold reconcile_mode in (ground (arith, e)))
      go cname e =
          one cname cname_record (covers-cname type) (unfold reconcile_mode in (ground (arith, e)))
      go (other_mode m) e = absurd (unfold reconcile_mode in (ground (arith, e, fine)))
      go dual e = λ wants frees.
          let first = reconcile_target provider redact name a_record wanted.ipv4 in
          let second = reconcile_target provider redact name aaaa_record wanted.ipv6 in
          let same : and_then first second (d, w)
              ≡ reconcile_mode provider redact name wanted (d, w) =
            unfold reconcile_mode in (ground (arith, e)) in
          let (fine1, rest) = and_then-ok first second (d, w) (ap (λ r. r.0) same ∙ fine) in
          let y = (first (d, w)).1 in
          let fine2 : (second y).0 ≡ none = ap (λ r. r.0) (rest ∙ same) ∙ fine in
          subst (Goal dual) (rest ∙ same) (
            double type (d, w) y (second y).1
              (reconcile_target-Brought provider redact name a_record wanted.ipv4 d w fine1)
              (reconcile_target-Brought provider redact name aaaa_record wanted.ipv6 y.0 y.1 fine2)
              wants frees)
