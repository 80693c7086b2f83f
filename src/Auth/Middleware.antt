-- ===== src/Auth/Middleware.antt =====
-- backend/internal/auth/middleware.go: whether an access token counts.
use sobhemessenger.Common.{ℕ, Bool, Option, none, some, Uuid, ◌==◌, if◌then◌else◌, is_some, ltb}
use sobhemessenger.Common.Assoc.{Assoc, lookup}
use sobhemessenger.Httpx.{
  Fault, Result, ok, err, ◌>>=◌, ◌>>◌, on_row, map_err, unauthorized, forbidden, token_invalid,
  token_expired, session_revoked, account_banned, account_deleted,
}
use sobhemessenger.Auth.Accounts.{Status, banned, User, is_active, session_by_id}
use sobhemessenger.Auth.Tokens.{Claims, World}

-- `cache.Get`: a value, no value, or no answer.
pub data Cached : Type 0 where
  hit miss broken : Cached

abbrev pub cached : ℕ → Option ℕ → Cached
cached now none = miss
cached now (some expiry) = if ltb now expiry then hit else miss

unfoldable pub get_denied : ℕ → Bool → Uuid → Assoc ℕ → Cached
unfolding lookup
get_denied now answers id denied = if answers then cached now (lookup id denied) else broken

abbrev pub signed_out_error : Fault
signed_out_error = unauthorized session_revoked

unfoldable pub check_session : ℕ → Bool → Uuid → World → Result Fault (Unit {0})
unfolding get_denied session_by_id
check_session now answers id w = elim (get_denied now answers id w.denied) [
  | hit ↦ err signed_out_error
  | miss ↦ ok tt
  | broken ↦
      on_row (session_by_id id w.accounts) signed_out_error
        λ s. if is_some s.revoked_at then err signed_out_error else ok tt
]

abbrev pub closed_error : Status → Fault
closed_error banned = forbidden account_banned
closed_error _ = forbidden account_deleted

pub record Principal : Type 0 where
  pub user_id : Uuid
  pub device_id : Uuid
  pub session_id : Uuid

pub data TokenError : Type 0 where
  expired invalid : TokenError

abbrev pub when_token_error : TokenError → Fault
when_token_error expired = unauthorized token_expired
when_token_error invalid = unauthorized token_invalid

-- `AuthenticateToken`, without the roles of an administrator. `parsed` is what `ParseAccessToken` and
-- `ParsedIdentity` make of the text, `user` the outcome of `userWithCache`.
unfoldable pub authenticate_token :
    ℕ
    → Bool
    → Result TokenError Claims
    → (Uuid → Result Fault User)
    → World
    → Result Fault Principal
unfolding check_session is_active
authenticate_token now answers parsed user w = do
  claims ← map_err when_token_error parsed
  check_session now answers claims.session_id w
  u ← user claims.subject
  if u.token_version == claims.token_version then ok tt else err signed_out_error
  if is_active u then ok tt else err (closed_error u.status)
  ok (record {
    user_id = claims.subject;
    device_id = claims.device_id;
    session_id = claims.session_id;
  })
