-- ===== src/Auth/Maintenance.antt =====
-- `PrismaAuthMaintenanceRepository`
-- (auth/infrastructure/repositories/prismaAuthMaintenance.repository.ts): the hourly clean-up of
-- the tables of Auth/Store. Of the rows that a statement may delete it takes at most `limit`, the
-- oldest ones that nobody has locked: which ones is a parameter.
use bom_trato_api.Prelude.{
  ◌==◌, Bool, false, not, ◌&&◌, ◌||◌, Option, none, some, List, is_some, any, keep,
}
use bom_trato_api.Prelude.Date.{Date, date_lt}
use bom_trato_api.Auth.Types.{AuthSessionProps, RefreshTokenProps, ActionTokenProps}
use bom_trato_api.Auth.Store.{AuthStore, session_by_id}

pub record AuthCleanupParams : Type 0 where
  pub refresh_token_before : Date
  pub expired_before : Date
  pub takes_token : RefreshTokenProps → Bool
  pub takes_session : AuthSessionProps → Bool
  pub takes_action : ActionTokenProps → Bool

-- A comparison with a column that is null does not hold.
abbrev pub revoked_before : Option Date → Date → Bool
revoked_before none limit = false
revoked_before (some d) limit = date_lt d limit

-- The session that the token is joined with.
unfoldable pub outlived : Date → RefreshTokenProps → Option AuthSessionProps → Bool
outlived limit token none = false
outlived limit token (some session) =
    date_lt token.expires_at limit
    || is_some session.revoked_at
    || date_lt session.absolute_expires_at limit
    || date_lt session.idle_expires_at limit

unfoldable pub clean_tokens :
    AuthCleanupParams → List AuthSessionProps → List RefreshTokenProps → List RefreshTokenProps
clean_tokens p sessions tokens =
    keep
      (λ token. not (
        outlived p.refresh_token_before token (session_by_id token.session_id sessions)
        && p.takes_token token))
      tokens

unfoldable pub clean_sessions :
    AuthCleanupParams → List RefreshTokenProps → List AuthSessionProps → List AuthSessionProps
clean_sessions p tokens sessions =
    keep
      (λ session. not (
        (date_lt session.absolute_expires_at p.expired_before
          || date_lt session.idle_expires_at p.expired_before
          || revoked_before session.revoked_at p.expired_before)
        && not (any (λ (token : RefreshTokenProps). token.session_id == session.id) tokens)
        && p.takes_session session))
      sessions

-- The deletions of one transaction; the table of rates is not modelled.
unfoldable pub cleanup_auth : AuthCleanupParams → AuthStore → AuthStore
cleanup_auth p db =
    let tokens = clean_tokens p db.sessions db.refresh_tokens in
    record db {
      refresh_tokens = tokens;
      sessions = clean_sessions p tokens db.sessions;
      action_tokens =
          keep (λ token. not (date_lt token.expires_at p.expired_before && p.takes_action token))
            db.action_tokens;
    }
