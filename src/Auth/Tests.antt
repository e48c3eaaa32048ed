-- ===== src/Auth/Tests.antt =====
-- Accounts on concrete tables: a login, the exchange of its token, the theft of the old one, and a
-- new password.
use mathlib.Core.List.Memᴰ
use bom_trato_api.Prelude.{
  ◌≡◌, ◌≢◌, ◌≤◌, refl, inl, true, none, some, [], ◌∷◌, is_some, keep, length,
}
use bom_trato_api.Prelude.Result.{ok, err}
use bom_trato_api.Prelude.Text.{Text}
use bom_trato_api.Prelude.Date.{at}
use bom_trato_api.Auth.Types.{
  UserProps, AuthSessionProps, auth_error, token_reused, invalid_session, invalid_token,
  reset_password, password_reset, ActionTokenProps, RefreshTokenProps,
}
use bom_trato_api.Auth.User.{assert_can_authenticate, change_password}
use bom_trato_api.Auth.Session.{
  start, renew, revoke, consume_refresh, consume_token, sessions_to_revoke,
}
use bom_trato_api.Auth.Store.{AuthStore, refresh_by_hash, session_by_id}
use bom_trato_api.Auth.Sessions.{
  StartSessionParams, start_session, create_session_record, is_active, by_age, authenticate,
}
use bom_trato_api.Auth.Rotation.{
  RotateSessionParams, RotateSessionResult, rotate, rotate_body, rotate_token, rotate_consumed,
  rotate_session, rotated, settle,
}
use bom_trato_api.Auth.Actions.{ConsumeActionParams, consume_action, apply_action}
use bom_trato_api.Auth.Limit.{start_session-limit}
use bom_trato_api.Auth.Revoked.{here, next, cleaned}
use bom_trato_api.Auth.Maintenance.{
  AuthCleanupParams, cleanup_auth, clean_tokens, clean_sessions, outlived,
}
use bom_trato_api.Auth.Spared.{IsLive, cleanup_auth-spares}
use bom_trato_api.Auth.Reuse.{rotate-reused}
use bom_trato_api.Auth.Reset.{consume_action-once, reset-ends_sessions}

abbrev mail : Text
mail = 97 ∷ 64 ∷ 98 ∷ []

abbrev ann : UserProps
ann = record {
  id = 1;
  name = 65 ∷ 110 ∷ 110 ∷ [];
  email = mail;
  password_hash = some 77;
  selected_plan_price_id = none;
  email_verified_at = some (at 5);
  disabled_at = none;
}

abbrev session : AuthSessionProps
session = record {
  id = 10;
  user_id = 1;
  created_at = at 1000;
  last_refreshed_at = at 1000;
  idle_expires_at = at 61000;
  absolute_expires_at = at 500000;
  revoked_at = none;
  revocation_reason = none;
  user_agent = none;
}

abbrev link : ActionTokenProps
link = record {
  user_id = 1;
  purpose = reset_password;
  token_hash = 900;
  expires_at = at 90000;
  used_at = none;
}

abbrev empty : AuthStore
empty = record {
  users = ann ∷ [];
  sessions = [];
  refresh_tokens = [];
  action_tokens = link ∷ [];
  identities = [];
}

-- `AuthSession.start` with a minute of idle time.
session_start : start 10 1 (at 1000) 60 499 none ≡ some session
unfolding start
session_start = refl

abbrev token : RefreshTokenProps
token = record { session_id = 10; token_hash = 500; expires_at = at 61000; used_at = none }

abbrev logged_in : AuthStore
logged_in = record empty { sessions = session ∷ []; refresh_tokens = token ∷ [] }

abbrev login : StartSessionParams
login = record { session = session; expected_password_hash = 77; refresh_hash = 500 }

login_run : start_session login empty ≡ ok logged_in
unfolding start_session create_session_record assert_can_authenticate by_age sessions_to_revoke
login_run = refl

start_session-limit_example : length (keep (is_active 1 (at 1000)) logged_in.sessions) ≤ 10
start_session-limit_example = start_session-limit session 500 77 empty (inl login_run)

abbrev exchange : RotateSessionParams
exchange = record { token_hash = 500; next_hash = 501; now = at 2000; idle_seconds = 60 }

abbrev again : RotateSessionParams
again = record { token_hash = 500; next_hash = 502; now = at 3000; idle_seconds = 60 }

abbrev owner : RotateSessionParams
owner = record { token_hash = 501; next_hash = 503; now = at 4000; idle_seconds = 60 }

abbrev answer : RotateSessionResult
answer = record { identity = record { user_id = 1; session_id = 10 }; expires_at = at 62000 }

abbrev next_token : RefreshTokenProps
next_token = record { session_id = 10; token_hash = 501; expires_at = at 62000; used_at = none }

abbrev exchanged : AuthStore
exchanged = record logged_in {
  sessions = (record session { last_refreshed_at = at 2000; idle_expires_at = at 62000 }) ∷ [];
  refresh_tokens = next_token ∷ (record token { used_at = some (at 2000) }) ∷ [];
}

exchange_run : rotate exchange logged_in ≡ (ok answer, exchanged)
unfolding rotate rotate_body rotate_token rotate_consumed rotate_session rotated settle
    consume_refresh renew assert_can_authenticate
exchange_run = refl

next_found : refresh_by_hash 501 (rotate again exchanged).1.refresh_tokens ≡ some next_token
unfolding rotate rotate_body rotate_token rotate_consumed settle consume_refresh revoke
next_found = refl

-- A clean-up that takes whatever it may.
abbrev sweep : AuthCleanupParams
sweep = record {
  refresh_token_before = at 2500;
  expired_before = at 1500;
  takes_token = λ token. true;
  takes_session = λ session. true;
  takes_action = λ token. true;
}

swept : cleanup_auth sweep exchanged ≡ exchanged
unfolding cleanup_auth clean_tokens clean_sessions outlived
swept = refl

rotate-reused_example :
    ((rotate again exchanged).0 ≡ err (auth_error token_reused))
    × (authenticate answer.identity (at 5000) (rotate again exchanged).1
        ≡ err (auth_error invalid_session))
    × (rotate owner (rotate again exchanged).1 ≢ (ok answer, exchanged))
rotate-reused_example =
    rotate-reused exchange again owner answer answer logged_in exchanged exchanged
      (rotate again exchanged).1 exchanged (at 5000) next_token refl exchange_run
      (next here (cleaned sweep refl refl swept)) refl here next_found refl

-- An old session beside the one in use.
abbrev old_session : AuthSessionProps
old_session = record session { id = 11; revoked_at = some (at 1200) }

abbrev old_token : RefreshTokenProps
old_token = record { session_id = 11; token_hash = 400; expires_at = at 61000; used_at = none }

abbrev crowded : AuthStore
crowded = record exchanged {
  sessions = old_session ∷ exchanged.sessions;
  refresh_tokens = old_token ∷ exchanged.refresh_tokens;
}

sweep_run : cleanup_auth sweep crowded ≡ exchanged
unfolding cleanup_auth clean_tokens clean_sessions outlived
sweep_run = refl

live :
    IsLive sweep next_token
      (record session { last_refreshed_at = at 2000; idle_expires_at = at 62000 })
      crowded
live = record {
  token_found = refl;
  session_found = refl;
  token_lasts = refl;
  unrevoked = refl;
  lasts = refl;
  in_use = refl;
}

cleanup_auth-spares_example :
    (refresh_by_hash 501 (cleanup_auth sweep crowded).refresh_tokens ≡ some next_token)
    × (session_by_id 10 (cleanup_auth sweep crowded).sessions
        ≡ some (record session { last_refreshed_at = at 2000; idle_expires_at = at 62000 }))
cleanup_auth-spares_example =
    cleanup_auth-spares sweep next_token
      (record session { last_refreshed_at = at 2000; idle_expires_at = at 62000 }) crowded live

abbrev reset : ConsumeActionParams
reset = record {
  token_hash = 900;
  purpose = reset_password;
  now = at 7000;
  password_hash = some 78;
}

abbrev closed : AuthSessionProps
closed = record session { revoked_at = some (at 7000); revocation_reason = some password_reset }

abbrev changed : AuthStore
changed = record logged_in {
  users = (record ann { password_hash = some 78 }) ∷ [];
  sessions = closed ∷ [];
  action_tokens = (record link { used_at = some (at 7000) }) ∷ [];
}

reset_run : consume_action reset logged_in ≡ ok (mail, changed)
unfolding consume_action apply_action consume_token change_password
reset_run = refl

consume_action-once_example :
    consume_action (record reset { now = at 8000 }) changed ≡ err (auth_error invalid_token)
consume_action-once_example =
    consume_action-once reset (record reset { now = at 8000 }) mail logged_in reset_run refl

reset-ends_sessions_example : is_some closed.revoked_at ≡ true
reset-ends_sessions_example =
    reset-ends_sessions reset mail logged_in link closed refl refl reset_run (Memᴰ.head refl) refl
