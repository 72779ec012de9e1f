-- ===== src/Panel/Auth/Lockout.antt =====
-- How fast passwords can be tried.
use ladder_airport.Base.{
  leb, if◌then◌else◌, Bool-cases, ℕ, zero, suc, ◌+◌, ◌-◌, ◌*◌, ◌^◌, ◌≤◌, ◌<◌, min, String, ◌≡◌,
  refl, ap, ◌∙◌, subst, inl, inr, none, List, [], ◌∷◌, arith, str_eq, str_eq_iff,
}
use ladder_airport.Panel.Auth.{
  second, login_max_failures, login_max_backoff, LoginAttempt, attempt_of, delete_attempt, backoff,
  or_new, fail_again,
}

-- A login: when, from where, and with which password.
pub record Try : Type 0 where
  pub now : ℕ
  pub ip : String
  pub password : String

-- The time that the backoffs up to the `f`-th failure take together.
unfoldable pub total : ℕ → ℕ
total zero = 0
total (suc f) = total f + (if leb login_max_failures (f + 1) then backoff (f + 1) else 0)

total-small : (f : ℕ) → f < 5 → total f ≡ 0
unfolding total
total-small zero h = refl
total-small (suc f) h = ground (arith, total-small f (omega arith), h)

backoff-large : (f : ℕ) → 14 ≤ f → backoff f ≡ login_max_backoff
unfolding backoff
backoff-large f large =
    let nine : min (f - 5) 9 ≡ 9 = omega (arith, large) in
    ap (λ k. min (second * 2 ^ k) login_max_backoff) nine

total-suc : (f : ℕ) → 5 ≤ f + 1 → total (suc f) ≡ total f + backoff (f + 1)
unfolding total
total-suc f h = ground (arith, h)

-- From the 14th failure on each one costs five minutes.
pub total_lower : (m : ℕ) → m * login_max_backoff ≤ total (13 + m)
total_lower zero = omega arith
total_lower (suc m) =
    let next : suc (13 + m) ≡ 13 + suc m = omega arith in
    let step : total (suc (13 + m)) ≡ total (13 + m) + login_max_backoff =
      total-suc (13 + m) (omega arith)
      ∙ ap (λ b. total (13 + m) + b) (backoff-large (13 + m + 1) (omega arith)) in
    subst (λ k. suc m * login_max_backoff ≤ total k) next (omega (arith, step, total_lower m))

pub attempt_of-delete :
    (ip other : String) (xs : List (String × LoginAttempt))
    → attempt_of other (delete_attempt ip xs)
      ≡ (if str_eq ip other then none else attempt_of other xs)
unfolding attempt_of delete_attempt
attempt_of-delete ip other [] = ground arith
attempt_of-delete ip other ((k, a) ∷ rest) = ground (
  arith,
  attempt_of-delete ip other rest,
  str_eq_iff k ip,
  str_eq_iff k other,
  str_eq_iff ip other,
)

-- The record of an address: `n` failures, and a lock that the backoffs since `t0` explain.
pub record Paced (t0 n : ℕ) (a : LoginAttempt) : Type 0 where
  pub count : a.failures ≡ n
  pub paced : 5 ≤ n → t0 + total n ≤ a.locked_until
  pub free : n < 5 → a.locked_until ≡ 0

pub new-Paced : (t0 : ℕ) → Paced t0 0 (or_new none)
new-Paced t0 = record { count = refl; paced = λ h. absurd (omega (arith, h)); free = λ h. refl }

-- A failure when the address is not locked.
pub fail_again-Paced :
    (t0 n now : ℕ) (a : LoginAttempt)
    → Paced t0 n a
    → t0 ≤ now
    → a.locked_until ≤ now
    → Paced t0 (suc n) (fail_again now a)
fail_again-Paced t0 n now a p early unlocked = record {
  count = unfold fail_again in (omega (arith, p.count));
  paced = λ h.
      let locks : (fail_again now a).locked_until ≡ now + backoff (a.failures + 1) =
        unfold fail_again in (ground (arith, p.count, h)) in
      let same : backoff (a.failures + 1) ≡ backoff (n + 1) = ap (λ k. backoff (k + 1)) p.count in
      elim (Bool-cases (leb 5 n)) [
        | inl late ↦ omega (
          arith,
          locks,
          same,
          total-suc n (omega (arith, h)),
          p.paced (ground (arith, late)),
          unlocked,
        )
        | inr soon ↦ omega (
          arith,
          locks,
          same,
          total-suc n (omega (arith, h)),
          total-small n (ground (arith, soon)),
          early,
        )
      ];
  free = λ h. unfold fail_again in (ground (arith, p.count, h, p.free (omega (arith, h))));
}
