-- ===== src/Panel/Auth.antt =====
-- The administrator's login of panel/internal/api/auth.go: the lockout after wrong passwords, and the
-- sessions, which a version in the settings revokes. Requests are taken one after the other. The
-- password hash and the JWT library are parameters; times are nanoseconds.
pub mod Lockout
pub mod Guessing
pub mod Sessions
mod Tests
use ladder_airport.Base.{
  ltb, leb, ◌==◌, if◌then◌else◌, Result, err, ok, ℕ, ◌+◌, ◌-◌, ◌*◌, ◌/◌, ◌^◌, min, String, Bool,
  false, not, ◌||◌, Option, none, some, List, [], ◌∷◌, str_eq,
}

abbrev pub second : ℕ
second = 1000000000

abbrev pub login_max_failures : ℕ
login_max_failures = 5

abbrev pub login_max_backoff : ℕ
login_max_backoff = 300 * second

abbrev pub session_ttl : ℕ
session_ttl = 86400 * second

-- `lockedUntil`; the zero time is 0.
pub record LoginAttempt : Type 0 where
  pub failures : ℕ
  pub locked_until : ℕ

pub record Claims : Type 0 where
  pub version : ℕ
  pub issued_at : ℕ
  pub expires_at : ℕ

-- What the handlers use of the server and of its settings row; the two faults are those that reading
-- and writing the row meet.
pub record Server : Type 0 where
  pub attempts : List (String × LoginAttempt)
  pub password_hash : String
  pub session_version : ℕ
  pub secret : String
  pub read_fault : Option String
  pub write_fault : Option String

-- bcrypt and the JWT library, which signs claims with a secret, and reads back, at a time, the claims
-- of a token that is signed with HS256 and the secret and has not expired. `numeric_date` is
-- `jwt.NewNumericDate`.
pub record Crypto : Type 0 where
  pub compare_hash : String → String → Bool
  pub numeric_date : ℕ → ℕ
  pub sign : String → Claims → Result String
  pub parse_with_claims : String → ℕ → String → Option Claims

unfoldable pub attempt_of : String → List (String × LoginAttempt) → Option LoginAttempt
attempt_of ip [] = none
attempt_of ip ((k, a) ∷ rest) =
    let more = attempt_of ip rest in if str_eq k ip then some a else more

unfoldable pub delete_attempt : String → List (String × LoginAttempt) → List (String × LoginAttempt)
delete_attempt ip [] = []
delete_attempt ip ((k, a) ∷ rest) =
    let more = delete_attempt ip rest in if str_eq k ip then more else (k, a) ∷ more

unfoldable pub login_locked_for : ℕ → String → Server → ℕ
login_locked_for now ip s = elim (attempt_of ip s.attempts) [
  | none ↦ 0
  | some a ↦ a.locked_until - now
]

-- The backoff of the `failures`-th failure.
unfoldable pub backoff : ℕ → ℕ
backoff failures = min (second * 2 ^ min (failures - login_max_failures) 9) login_max_backoff

abbrev pub or_new : Option LoginAttempt → LoginAttempt
or_new none = record { failures = 0; locked_until = 0 }
or_new (some a) = a

unfoldable pub fail_again : ℕ → LoginAttempt → LoginAttempt
fail_again now a =
    let failures = a.failures + 1 in
    record {
      failures = failures;
      locked_until =
          if leb login_max_failures failures then now + backoff failures else a.locked_until;
    }

unfoldable pub record_login_failure : ℕ → String → Server → Server
record_login_failure now ip s = record s {
  attempts =
      (ip, fail_again now (or_new (attempt_of ip s.attempts))) ∷ delete_attempt ip s.attempts;
}

unfoldable pub clear_login_failures : String → Server → Server
clear_login_failures ip s = record s { attempts = delete_attempt ip s.attempts }

-- What the client gets: a session, a retry time in seconds, or only a status.
pub data Response : Type 0 where
  logged_in : String → Response
  retry_after : ℕ → Response
  refused : ℕ → String → Response

-- SQLite counts to 2^63, which is not reached.
unfoldable pub bump_session_version : Server → Option String × Server
bump_session_version s = elim s.write_fault [
  | some e ↦ (some e, s)
  | none ↦ (none, record s { session_version = s.session_version + 1 })
]

module _ (crypto : Crypto) where
  unfoldable pub check_password : String → String → Bool
  check_password hash password = crypto.compare_hash hash password

  -- Without the settings the version is 0.
  unfoldable pub issue_session_token : ℕ → Server → Result String
  issue_session_token now s = crypto.sign s.secret (record {
    version = elim s.read_fault [ none ↦ s.session_version | some _ ↦ 0 ];
    issued_at = crypto.numeric_date now;
    expires_at = crypto.numeric_date (now + session_ttl);
  })

  unfoldable pub validate_session_token : ℕ → String → Server → Bool
  validate_session_token now token s =
      if str_eq s.secret "" || str_eq token ""
      then false
      else elim (crypto.parse_with_claims s.secret now token) [
        | none ↦ false
        | some claims ↦ elim s.read_fault [
          | some _ ↦ false
          | none ↦ claims.version == s.session_version
        ]
      ]

  -- The end of `handleLogin`, once the password is right.
  unfoldable pub open_session : ℕ → String → Server → Response × Server
  open_session now ip s =
      let cleared = clear_login_failures ip s in
      (
        elim (issue_session_token now cleared) [
          | err _ ↦ refused 500 "创建登录会话失败"
          | ok token ↦ logged_in token
        ],
        cleared,
      )

  -- A POST whose body decodes to the password; the other requests are refused before.
  unfoldable pub handle_login : ℕ → String → String → Server → Response × Server
  handle_login now ip password s =
      if str_eq password ""
      then (refused 400 "必须提供密码", s)
      else if ltb 0 (login_locked_for now ip s)
      then (retry_after (login_locked_for now ip s / second + 1), s)
      else elim s.read_fault [
        | some e ↦ (refused 500 e, s)
        | none ↦
            if str_eq s.password_hash "" || not (check_password s.password_hash password)
            then (refused 401 "密码错误", record_login_failure now ip s)
            else open_session now ip s
      ]

  -- The cookie of the request, which is empty if there is none; an error is answered with 500.
  unfoldable pub handle_logout : ℕ → String → Server → Option String × Server
  handle_logout now cookie s =
      if validate_session_token now cookie s then bump_session_version s else (none, s)
