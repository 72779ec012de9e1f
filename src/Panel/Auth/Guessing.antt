-- ===== src/Panel/Auth/Guessing.antt =====
-- A sequence of logins, of which those from one address have wrong passwords.
use ladder_airport.Base.{
  ltb, ◌==◌, if◌then◌else◌, Bool-cases, Option-cases, All, ℕ, suc, ◌+◌, ◌*◌, ◌≤◌, String, ◌≡◌, sym,
  ap, ◌∙◌, subst, inl, inr, Bool, true, false, not, ◌&&◌, ◌||◌, none, some, List, [], ◌∷◌, arith,
  str_eq, str_eq_refl,
}
use ladder_airport.Panel.Auth.Lockout.{
  Try, total, total_lower, attempt_of-delete, Paced, new-Paced, fail_again-Paced,
}
use ladder_airport.Panel.Auth.{
  login_max_backoff, LoginAttempt, Server, Crypto, attempt_of, login_locked_for, or_new, fail_again,
  record_login_failure, clear_login_failures, Response, check_password, open_session, handle_login,
  refused,
}

-- Whether a password was compared, and found wrong.
abbrev pub is_checked : Response → Bool
is_checked (refused status _) = status == 401
is_checked _ = false

-- The passwords that were compared for the address, and the server after the logins.
unfoldable pub run_tries : Crypto → String → List Try → Server → ℕ × Server
run_tries crypto ip [] s = (0, s)
run_tries crypto ip (t ∷ ts) s =
    let answer = handle_login crypto t.now t.ip t.password s in
    let rest = run_tries crypto ip ts answer.1 in
    ((if str_eq t.ip ip && is_checked answer.0 then 1 else 0) + rest.0, rest.1)

abbrev record_of : String → Server → LoginAttempt
record_of ip s = or_new (attempt_of ip s.attempts)

module _ (crypto : Crypto) where
  abbrev pub wrong : String → String → Bool
  wrong hash password = str_eq hash "" || not (check_password crypto hash password)

  -- How a login ends for the records.
  data LoginEnd (now : ℕ) (ip password : String) (s : Server) (o : Response × Server) : Type 0 where
    unchanged : is_checked o.0 ≡ false → o.1 ≡ s → LoginEnd now ip password s o
    failed :
        is_checked o.0 ≡ true
        → login_locked_for now ip s ≡ 0
        → o.1 ≡ record_login_failure now ip s
        → LoginEnd now ip password s o
    opened :
        wrong s.password_hash password ≡ false
        → o.1 ≡ clear_login_failures ip s
        → LoginEnd now ip password s o

  login-end :
      (now : ℕ) (ip password : String) (s : Server)
      → LoginEnd now ip password s (handle_login crypto now ip password s)
  unfolding handle_login
  login-end now ip password s = elim (Bool-cases (str_eq password "")) [
    | inl empty ↦ unchanged (ground (arith, empty)) (ground (arith, empty))
    | inr given ↦ elim (Bool-cases (ltb 0 (login_locked_for now ip s))) [
      | inl locked ↦ unchanged (ground (arith, given, locked)) (ground (arith, given, locked))
      | inr free ↦ elim (Option-cases s.read_fault) [
        | inr (e, fault) ↦
            unchanged (ground (arith, given, free, fault)) (ground (arith, given, free, fault))
        | inl fine ↦ elim (Bool-cases (wrong s.password_hash password)) [
          | inl bad ↦
              failed (ground (arith, given, free, fine, bad)) (ground (arith, free))
                (ground (arith, given, free, fine, bad))
          | inr good ↦
              opened good (unfold open_session in (ground (arith, given, free, fine, good)))
        ]
      ]
    ]
  ]

  hash-login :
      (now : ℕ) (ip password : String) (s : Server)
      → (handle_login crypto now ip password s).1.password_hash ≡ s.password_hash
  unfolding handle_login record_login_failure open_session clear_login_failures
  hash-login now ip password s = ground arith

  others-failure :
      (now : ℕ) (ip other : String) (s : Server)
      → str_eq ip other ≡ false
      → attempt_of other (record_login_failure now ip s).attempts ≡ attempt_of other s.attempts
  unfolding record_login_failure attempt_of
  others-failure now ip other s ne = ground (arith, ne, attempt_of-delete ip other s.attempts)

  others-clear :
      (ip other : String) (s : Server)
      → str_eq ip other ≡ false
      → attempt_of other (clear_login_failures ip s).attempts ≡ attempt_of other s.attempts
  unfolding clear_login_failures
  others-clear ip other s ne = ground (arith, ne, attempt_of-delete ip other s.attempts)

  own-failure :
      (now : ℕ) (ip : String) (s : Server)
      → attempt_of ip (record_login_failure now ip s).attempts
        ≡ some (fail_again now (record_of ip s))
  unfolding record_login_failure attempt_of
  own-failure now ip s = ground (arith, str_eq_refl ip)

  unlocked :
      (now : ℕ) (ip : String) (s : Server)
      → login_locked_for now ip s ≡ 0
      → (record_of ip s).locked_until ≤ now
  unfolding login_locked_for
  unlocked now ip s h = elim (Option-cases (attempt_of ip s.attempts)) [
    | inl missing ↦ ground (arith, missing)
    | inr (a, found) ↦ ground (arith, found, h)
  ]

  -- The tries from the address come no earlier than `t0` and have wrong passwords.
  pub data IsGuess (t0 : ℕ) (ip hash : String) (t : Try) : Type 0 where
    elsewhere : str_eq t.ip ip ≡ false → IsGuess t0 ip hash t
    guess : t.ip ≡ ip → t0 ≤ t.now → wrong hash t.password ≡ true → IsGuess t0 ip hash t

  abbrev counted : String → Try → Response → ℕ
  counted ip t answer = if str_eq t.ip ip && is_checked answer then 1 else 0

  other-Paced :
      (t0 n : ℕ) (ip : String) (t : Try) (s : Server)
      → str_eq t.ip ip ≡ false
      → Paced t0 n (record_of ip s)
      → Paced t0 n (record_of ip (handle_login crypto t.now t.ip t.password s).1)
  other-Paced t0 n ip t s ne p = go (login-end t.now t.ip t.password s)
    where
      o : Response × Server
      o = handle_login crypto t.now t.ip t.password s

      moved :
          attempt_of ip (o.1).attempts ≡ attempt_of ip s.attempts → Paced t0 n (record_of ip o.1)
      moved e = subst (λ a. Paced t0 n (or_new a)) (sym e) p

      go : LoginEnd t.now t.ip t.password s o → Paced t0 n (record_of ip o.1)
      go (unchanged _ e) = moved (ap (λ (x : Server). attempt_of ip x.attempts) e)
      go (failed _ _ e) =
          moved
            (ap (λ (x : Server). attempt_of ip x.attempts) e ∙ others-failure t.now t.ip ip s ne)
      go (opened _ e) =
          moved (ap (λ (x : Server). attempt_of ip x.attempts) e ∙ others-clear t.ip ip s ne)

  own-Paced :
      (t0 n now : ℕ) (ip password : String) (s : Server)
      → t0 ≤ now
      → wrong s.password_hash password ≡ true
      → Paced t0 n (record_of ip s)
      → Paced t0
          ((if is_checked (handle_login crypto now ip password s).0 then 1 else 0) + n)
          (record_of ip (handle_login crypto now ip password s).1)
  own-Paced t0 n now ip password s early bad p = go (login-end now ip password s)
    where
      o : Response × Server
      o = handle_login crypto now ip password s

      Goal : Type 0
      Goal = Paced t0 ((if is_checked o.0 then 1 else 0) + n) (record_of ip o.1)

      go : LoginEnd now ip password s o → Goal
      go (unchanged quiet e) =
          let same_n : n ≡ (if is_checked o.0 then 1 else 0) + n = ground (arith, quiet) in
          subst (λ k. Paced t0 k (record_of ip o.1)) same_n
            (subst (λ (x : Server). Paced t0 n (record_of ip x)) (sym e) p)
      go (failed checked free e) =
          let next : suc n ≡ (if is_checked o.0 then 1 else 0) + n = ground (arith, checked) in
          let again = fail_again-Paced t0 n now (record_of ip s) p early (unlocked now ip s free) in
          let is : attempt_of ip (o.1).attempts ≡ some (fail_again now (record_of ip s)) =
            ap (λ (x : Server). attempt_of ip x.attempts) e ∙ own-failure now ip s in
          subst (λ k. Paced t0 k (record_of ip o.1)) next
            (subst (λ a. Paced t0 (suc n) (or_new a)) (sym is) again)
      go (opened right e) = absurd (cc (right, bad))

  try-Paced :
      (t0 n : ℕ) (ip : String) (t : Try) (s : Server)
      → IsGuess t0 ip s.password_hash t
      → Paced t0 n (record_of ip s)
      → Paced t0
          (counted ip t (handle_login crypto t.now t.ip t.password s).0 + n)
          (record_of ip (handle_login crypto t.now t.ip t.password s).1)
  try-Paced t0 n ip t s (elsewhere ne) p =
      let o = handle_login crypto t.now t.ip t.password s in
      let same_n : n ≡ counted ip t o.0 + n = ground (arith, ne) in
      subst (λ k. Paced t0 k (record_of ip o.1)) same_n (other-Paced t0 n ip t s ne p)
  try-Paced t0 n ip t s (guess is early bad) p = subst Step is own p
    where
      o : Response × Server
      o = handle_login crypto t.now t.ip t.password s

      Step : String → Type 0
      Step i = Paced t0 n (record_of i s) → Paced t0 (counted i t o.0 + n) (record_of i o.1)

      own : Step t.ip
      own q =
          let same_n : (if is_checked o.0 then 1 else 0) + n ≡ counted t.ip t o.0 + n =
            ground (arith, str_eq_refl t.ip) in
          subst (λ k. Paced t0 k (record_of t.ip o.1)) same_n
            (own-Paced t0 n t.now t.ip t.password s early bad q)

  run-Paced :
      (t0 n : ℕ) (ip : String) (ts : List Try) (s : Server)
      → All (IsGuess t0 ip s.password_hash) ts
      → Paced t0 n (record_of ip s)
      → Paced t0 ((run_tries crypto ip ts s).0 + n) (record_of ip (run_tries crypto ip ts s).1)
  unfolding run_tries
  run-Paced t0 n ip [] s gs p = subst (λ k. Paced t0 k (record_of ip s)) (omega arith) p
  run-Paced t0 n ip (t ∷ ts) s (g, gs) p =
      let o = handle_login crypto t.now t.ip t.password s in
      let one = counted ip t o.0 in
      let gs' =
        subst (λ h. All (IsGuess t0 ip h) ts) (sym (hash-login t.now t.ip t.password s)) gs in
      let rest = run-Paced t0 (one + n) ip ts o.1 gs' (try-Paced t0 n ip t s g p) in
      let same_n : (run_tries crypto ip ts o.1).0 + (one + n)
          ≡ one + (run_tries crypto ip ts o.1).0 + n =
        omega arith in
      subst (λ k. Paced t0 k (record_of ip (run_tries crypto ip ts o.1).1)) same_n rest

  -- Logins one after the other, those from an address not before `t0` and with wrong passwords, the
  -- others of any kind, on a server without a record of the address: once `n` passwords were compared
  -- for it, five or more, it stays locked until all backoffs up to the `n`-th after `t0` are over; and
  -- for `n` from 13 on these are five minutes for each beyond the 13th, or more.
  pub run_tries_paced :
      (t0 : ℕ) (ip : String) (ts : List Try) (s : Server)
      → attempt_of ip s.attempts ≡ none
      → All (IsGuess t0 ip s.password_hash) ts
      → (5 ≤ (run_tries crypto ip ts s).0
          → (now : ℕ) → login_locked_for now ip (run_tries crypto ip ts s).1 ≡ 0
          → t0 + total (run_tries crypto ip ts s).0 ≤ now)
        × ((m : ℕ)
            → (run_tries crypto ip ts s).0 ≡ 13 + m
            → m * login_max_backoff ≤ total (run_tries crypto ip ts s).0)
  run_tries_paced t0 ip ts s absent gs =
      let r = run_tries crypto ip ts s in
      let start : Paced t0 0 (record_of ip s) =
        subst (λ a. Paced t0 0 (or_new a)) (sym absent) (new-Paced t0) in
      let p = run-Paced t0 0 ip ts s gs start in
      let same_n : r.0 + 0 ≡ r.0 = omega arith in
      let q : Paced t0 r.0 (record_of ip r.1) =
        subst (λ k. Paced t0 k (record_of ip r.1)) same_n p in
      (
        λ five now free. omega (arith, q.paced five, unlocked now ip r.1 free),
        λ m is. subst (λ k. m * login_max_backoff ≤ total k) (sym is) (total_lower m),
      )
