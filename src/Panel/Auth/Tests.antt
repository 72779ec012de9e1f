-- ===== src/Panel/Auth/Tests.antt =====
-- Logins with wrong passwords, a session, and the theorems on them.
use Prim.Native.String.{◌++◌ as concat}
use ladder_airport.Base.{
  ltb, ◌==◌, if◌then◌else◌, Bool-cases, err, ok, ℕ, ◌+◌, ◌*◌, ◌/◌, ◌≤◌, ◌<◌, String, ◌≡◌, refl,
  subst, inl, inr, Bool, true, false, ◌&&◌, none, some, List, [], ◌∷◌, arith, str_eq,
}
use ladder_airport.Panel.Auth.{
  second, login_max_backoff, Claims, Server, Crypto, attempt_of, delete_attempt, login_locked_for,
  backoff, fail_again, record_login_failure, clear_login_failures, bump_session_version,
  check_password, issue_session_token, validate_session_token, open_session, handle_login,
  handle_logout,
}
use ladder_airport.Panel.Auth.Lockout.{Try, total}
use ladder_airport.Panel.Auth.Guessing.{run_tries, IsGuess, run_tries_paced, elsewhere, guess}
use ladder_airport.Panel.Auth.Sessions.{IsJwt, issue-validate}

-- Tokens of version 3 are the text "three", those of all others "other".
abbrev claims_of : ℕ → Claims
claims_of version = record {
  version = version;
  issued_at = 7 * second;
  expires_at = 86407 * second;
}

abbrev crypto : Crypto
crypto = record {
  numeric_date = λ t. t / second * second;
  compare_hash = λ hash password. str_eq hash (concat "#" password);
  sign = λ secret claims. err "no signer";
  parse_with_claims = λ secret now token. if str_eq token "three" then some (claims_of 3) else none;
}

abbrev server : Server
server = record {
  attempts = [];
  password_hash = "#right";
  session_version = 3;
  secret = "s";
  read_fault = none;
  write_fault = none;
}

abbrev try_at : ℕ → String → String → Try
try_at now ip password = record { now = now; ip = ip; password = password }

abbrev tries : List Try
tries =
    try_at 1 "a" "x"
    ∷ try_at 2 "a" "x"
    ∷ try_at 3 "b" "right"
    ∷ try_at 3 "a" "x"
    ∷ try_at 4 "a" "x"
    ∷ try_at 5 "a" "x"
    ∷ try_at 6 "a" "x"
    ∷ []

evaluates : Unit {0}
unfolding attempt_of delete_attempt login_locked_for backoff fail_again record_login_failure
    clear_login_failures check_password issue_session_token validate_session_token open_session
    handle_login bump_session_version handle_logout run_tries total
evaluates = tt

wrong_try : (now : ℕ) → 1 ≤ now → IsGuess crypto 1 "a" "#right" (try_at now "a" "x")
unfolding evaluates
wrong_try now early = guess refl early refl

run_tries_paced_example :
    (5 ≤ (run_tries crypto "a" tries server).0
      → (now : ℕ) → login_locked_for now "a" (run_tries crypto "a" tries server).1 ≡ 0
      → 1 + total (run_tries crypto "a" tries server).0 ≤ now)
    × ((m : ℕ)
        → (run_tries crypto "a" tries server).0 ≡ 13 + m
        → m * login_max_backoff ≤ total (run_tries crypto "a" tries server).0)
run_tries_paced_example = run_tries_paced crypto 1 "a" tries server (unfold attempt_of in refl) (
  wrong_try 1 (omega arith),
  (
    wrong_try 2 (omega arith),
    (
      elsewhere refl,
      (
        wrong_try 3 (omega arith),
        (wrong_try 4 (omega arith), (wrong_try 5 (omega arith), (wrong_try 6 (omega arith), tt))),
      ),
    ),
  ),
)

tries_run : ((run_tries crypto "a" tries server).0 ≡ 5) × (total 5 ≡ second)
unfolding evaluates
tries_run = (refl, refl)

-- A library that signs one session, of version 3 from the seventh second on, with the secret "s".
abbrev is_session : String → Claims → Bool
is_session secret c =
    str_eq secret "s"
    && (c.version == 3 && (c.issued_at == 7 * second && c.expires_at == 86407 * second))

abbrev signer : Crypto
signer = record {
  numeric_date = λ t. t / second * second;
  compare_hash = λ hash password. false;
  sign = λ secret claims. if is_session secret claims then ok "three" else err "no key";
  parse_with_claims = λ secret now token.
      if str_eq token "three" && ltb now (86407 * second) then some (claims_of 3) else none;
}

reads_back :
    (secret token : String) (claims : Claims) (now : ℕ)
    → signer.numeric_date claims.issued_at ≡ claims.issued_at
    → signer.numeric_date claims.expires_at ≡ claims.expires_at
    → signer.sign secret claims ≡ ok token
    → now < claims.expires_at
    → signer.parse_with_claims secret now token ≡ some claims
reads_back secret token claims now whole whole_too signed early =
    elim (Bool-cases (is_session secret claims)) [
      | inr stranger ↦ absurd (ground (arith, signed, stranger))
      | inl one ↦
          let token_is : "three" ≡ token = ground (arith, signed, one) in
          let same : claims_of 3 ≡ claims = ground (arith, one) in
          let open_until : ltb now (86407 * second) ≡ true = ground (arith, one, early) in
          subst (λ t. signer.parse_with_claims secret now t ≡ some claims) token_is
            (ground (arith, open_until, same))
    ]

signer-IsJwt : IsJwt signer
signer-IsJwt = record {
  whole = λ t. omega arith;
  close = λ t. omega arith;
  reads_back = reads_back;
}

issue-validate_example : validate_session_token signer 500 "three" server ≡ true
unfolding issue_session_token
issue-validate_example =
    issue-validate signer signer-IsJwt (7 * second + 10) 500 "three" server server refl refl refl
      refl refl (omega arith) refl refl
