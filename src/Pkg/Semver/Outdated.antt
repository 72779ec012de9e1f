-- ===== src/Pkg/Semver/Outdated.antt =====
-- The upgrade decision on releases.
use ladder_airport.Base.{ℕ, ◌≡◌, refl, sym, ap, ◌∙◌, true, false, List, arith}
use ladder_airport.Pkg.Semver.Text.{is_empty, trim_space}
use ladder_airport.Pkg.Semver.{
  V, parse, Sign, compare, to_lower, is_less, is_unreleased, is_outdated, less, same, more,
}
use ladder_airport.Pkg.Semver.Total.{compare-IsOrder}

-- A text with a version, which is not "dev" or "unknown".
pub record IsRelease (s : List ℕ) : Type 0 where
  pub nonempty : is_empty (trim_space s) ≡ false
  pub released : is_unreleased (to_lower (trim_space s)) ≡ false
  pub valid : (parse (trim_space s)).valid ≡ true

outdated_eq :
    (a b : List ℕ)
    → IsRelease a
    → IsRelease b
    → is_outdated a b ≡ is_less (compare (parse (trim_space a)) (parse (trim_space b)))
unfolding is_outdated
outdated_eq a b r s = ground (arith, r.nonempty, r.released, r.valid, s.nonempty, s.valid)

less_of : (s : Sign) → is_less s ≡ true → s ≡ less
less_of less h = refl
less_of same h = absurd (cc h)
less_of more h = absurd (cc h)

not_self : (v : V) → is_less (compare v v) ≡ false
not_self v = ground (arith, compare-IsOrder.flip v v)

not_both : (u v : V) → is_less (compare u v) ≡ true → is_less (compare v u) ≡ false
not_both u v h = ground (arith, h, compare-IsOrder.flip u v)

-- On releases the decision is a strict order: no release is outdated by itself, no two are outdated
-- by each other, and what is outdated by a release is outdated by each one that outdates it.
pub is_outdated_lem :
    (a b c : List ℕ)
    → IsRelease a
    → IsRelease b
    → IsRelease c
    → (is_outdated a a ≡ false)
      × (is_outdated a b ≡ true → is_outdated b a ≡ false)
      × (is_outdated a b ≡ true → is_outdated b c ≡ true → is_outdated a c ≡ true)
is_outdated_lem a b c r s t =
    let va = parse (trim_space a) in
    let vb = parse (trim_space b) in
    let vc = parse (trim_space c) in
    (
      outdated_eq a a r r ∙ not_self va,
      λ h. outdated_eq b a s r ∙ not_both va vb (sym (outdated_eq a b r s) ∙ h),
      λ h k.
          outdated_eq a c r t
          ∙ ap is_less (
              compare-IsOrder.trans va vb vc (less_of _ (sym (outdated_eq a b r s) ∙ h))
                (less_of _ (sym (outdated_eq b c s t) ∙ k))),
    )
