-- ===== src/Auth/Session.antt =====
-- `AuthSession`, `RefreshToken`, `AuthActionToken` (auth/domain/entities) and `AuthSessionPolicy`
-- (auth/domain/policies).
use Prim.Native.Nat.{min}
use bom_trato_api.Prelude.{
  ℕ, ◌+◌, ◌-◌, ◌*◌, Bool, true, false, not, ◌||◌, Option, none, some, List, map, ltb, ◌==◌,
  if◌then◌else◌, EntityId, is_some, length, take,
}
use bom_trato_api.Prelude.Result.{Result, ok, ◌>>◌, throw_if}
use bom_trato_api.Prelude.Text.{Text}
use bom_trato_api.Prelude.Date.{Date, at, invalid, date_le, add_ms}
use bom_trato_api.Auth.Types.{
  AuthError, token_reused, SessionRevocationReason, AuthSessionProps, RefreshTokenProps,
  AuthActionPurpose, verify_email, reset_password, ActionTokenProps,
}

-- `userAgent?.slice(0, 300) ?? null`
abbrev pub short_agent : Option Text → Option Text
short_agent none = none
short_agent (some text) = some (take 300 text)

-- `none` is the error on a policy that makes no sense.
unfoldable pub start : EntityId → EntityId → Date → ℕ → ℕ → Option Text → Option AuthSessionProps
start id user now idle_seconds absolute_seconds user_agent =
    if idle_seconds == 0 || ltb absolute_seconds idle_seconds
    then none
    else some (record {
      id = id;
      user_id = user;
      created_at = now;
      last_refreshed_at = now;
      idle_expires_at = add_ms now (idle_seconds * 1000);
      absolute_expires_at = add_ms now (absolute_seconds * 1000);
      revoked_at = none;
      revocation_reason = none;
      user_agent = short_agent user_agent;
    })

unfoldable pub assert_active : Date → AuthSessionProps → Result AuthError (Unit {0})
assert_active now s =
    throw_if
      (is_some s.revoked_at || date_le s.idle_expires_at now || date_le s.absolute_expires_at now)
      AuthError.invalid_session

-- `new Date(Math.min(a.getTime() + ms, b.getTime()))`
abbrev pub earlier : Date → ℕ → Date → Date
earlier (at s) ms (at t) = at (min (s + ms) t)
earlier _ ms _ = invalid

unfoldable pub renew : Date → ℕ → AuthSessionProps → Result AuthError AuthSessionProps
unfolding assert_active
renew now idle_seconds s = do
  assert_active now s
  ok (record s {
    last_refreshed_at = now;
    idle_expires_at = earlier now (idle_seconds * 1000) s.absolute_expires_at;
  })

unfoldable pub revoke : Date → SessionRevocationReason → AuthSessionProps → AuthSessionProps
revoke now reason s =
    if is_some s.revoked_at
    then s
    else record s { revoked_at = some now; revocation_reason = some reason }

unfoldable pub consume_refresh : Date → RefreshTokenProps → Result AuthError RefreshTokenProps
consume_refresh now t = do
  throw_if (is_some t.used_at) token_reused
  throw_if (date_le t.expires_at now) AuthError.invalid_token
  ok (record t { used_at = some now })

abbrev pub same_purpose : AuthActionPurpose → AuthActionPurpose → Bool
same_purpose verify_email verify_email = true
same_purpose reset_password reset_password = true
same_purpose _ _ = false

unfoldable pub consume_token :
    AuthActionPurpose → Date → ActionTokenProps → Result AuthError ActionTokenProps
consume_token purpose now t = do
  throw_if (not (same_purpose t.purpose purpose) || is_some t.used_at || date_le t.expires_at now)
      AuthError.invalid_token
  ok (record t { used_at = some now })

abbrev pub max_active_sessions : ℕ
max_active_sessions = 10

-- The sessions are ordered from the oldest to the newest.
unfoldable pub sessions_to_revoke : List AuthSessionProps → List EntityId
sessions_to_revoke active = map (λ s. s.id) (take (length active + 1 - max_active_sessions) active)
