-- ===== src/Panel/Auth/Sessions.antt =====
-- Which sessions are valid.
use ladder_airport.Base.{
  ok, ℕ, ◌+◌, ◌≤◌, ◌<◌, String, ◌≡◌, refl, ◌∙◌, true, false, none, some, arith, str_eq,
}
use ladder_airport.Panel.Auth.{
  second, session_ttl, Claims, Server, Crypto, issue_session_token, validate_session_token,
}

-- A date is cut to what a token can hold, which is less than a second; a token that was signed with
-- such dates is read back with its claims until it expires.
pub record IsJwt (crypto : Crypto) : Type 0 where
  pub whole : (t : ℕ) → crypto.numeric_date (crypto.numeric_date t) ≡ crypto.numeric_date t
  pub close : (t : ℕ) → t < crypto.numeric_date t + second
  pub reads_back :
      (secret token : String) (claims : Claims) (now : ℕ)
      → crypto.numeric_date claims.issued_at ≡ claims.issued_at
      → crypto.numeric_date claims.expires_at ≡ claims.expires_at
      → crypto.sign secret claims ≡ ok token
      → now < claims.expires_at
      → crypto.parse_with_claims secret now token ≡ some claims

module _ (crypto : Crypto) where
  -- A session token that a server with a secret issues, while it can read its settings, is valid for a
  -- day less a second for a server with the same secret and session version that can read its settings,
  -- given a JWT library that reads back what it signs and cuts less than a second from a date.
  pub issue-validate :
      IsJwt crypto
      → (now at : ℕ) (token : String) (s t : Server) → str_eq s.secret "" ≡ false
      → str_eq token "" ≡ false
      → s.read_fault ≡ none
      → t.read_fault ≡ none
      → issue_session_token crypto now s ≡ ok token
      → at + second ≤ now + session_ttl
      → t.secret ≡ s.secret
      → t.session_version ≡ s.session_version
      → validate_session_token crypto at token t ≡ true
  issue-validate jwt now at token s t secret nonempty readable still signed early same_secret
        same_version =
      let claims : Claims = record {
        version = s.session_version;
        issued_at = crypto.numeric_date now;
        expires_at = crypto.numeric_date (now + session_ttl);
      } in
      let as_signed : crypto.sign s.secret claims ≡ issue_session_token crypto now s =
        unfold issue_session_token in (rw readable refl) in
      let read =
        jwt.reads_back s.secret token claims at (jwt.whole now) (jwt.whole (now + session_ttl))
          (as_signed ∙ signed) (omega (arith, early, jwt.close (now + session_ttl))) in
      unfold validate_session_token in
      (rw same_secret (ground (arith, secret, nonempty, still, read, same_version)))
