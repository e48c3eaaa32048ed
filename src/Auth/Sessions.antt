-- ===== src/Auth/Sessions.antt =====
-- Starting, checking and revoking sessions in `PrismaAuthRepository`
-- (auth/infrastructure/repositories/prismaAuth.repository.ts).
use bom_trato_api.Prelude.{
  update_where, Bool, not, ◌&&◌, ◌||◌, Option, none, some, List, [], ◌∷◌, ltb, ◌==◌, if◌then◌else◌,
  EntityId, same_id, is_some, any, keep, find,
}
use bom_trato_api.Prelude.Result.{Result, ok, ◌>>=◌, ◌>>◌, throw_if, or_throw, rethrow}
use bom_trato_api.Prelude.Date.{Date, date_lt, same_time}
use bom_trato_api.Auth.Types.{
  AuthError, invalid_session, AccountError, auth_error, user_error, UserProps,
  SessionRevocationReason, AuthSessionProps, session_limit, logout_all, RefreshTokenProps,
}
use bom_trato_api.Auth.User.{assert_can_authenticate}
use bom_trato_api.Auth.Session.{assert_active, revoke, sessions_to_revoke}
use bom_trato_api.Auth.Store.{AuthStore, user_by_id, session_by_id, refresh_by_hash}

-- `orderBy: [{ createdAt: 'asc' }, { id: 'asc' }]`
abbrev pub older : AuthSessionProps → AuthSessionProps → Bool
older a b =
    date_lt a.created_at b.created_at || (same_time a.created_at b.created_at && ltb a.id b.id)

unfoldable pub insert_by_age : AuthSessionProps → List AuthSessionProps → List AuthSessionProps
insert_by_age s [] = s ∷ []
insert_by_age s (t ∷ ts) = if older s t then s ∷ t ∷ ts else t ∷ insert_by_age s ts

unfoldable pub by_age : List AuthSessionProps → List AuthSessionProps
by_age [] = []
by_age (s ∷ ss) = insert_by_age s (by_age ss)

-- The condition of the sessions that count as active.
unfoldable pub is_active : EntityId → Date → AuthSessionProps → Bool
is_active user now s =
    s.user_id == user
    && not (is_some s.revoked_at)
    && date_lt now s.idle_expires_at
    && date_lt now s.absolute_expires_at

abbrev pub is_listed : List EntityId → AuthSessionProps → Bool
is_listed ids s = any (λ id. id == s.id) ids

abbrev pub revoked_with : Date → SessionRevocationReason → AuthSessionProps → AuthSessionProps
revoked_with now reason s = record s { revoked_at = some now; revocation_reason = some reason }

-- An update of no rows changes nothing, so the test `sessionsToRevoke.length > 0` is left out.
unfoldable pub create_session_record : AuthSessionProps → EntityId → AuthStore → AuthStore
create_session_record session refresh_hash db =
    let active = by_age (keep (is_active session.user_id session.created_at) db.sessions) in
    record db {
      sessions =
          session
          ∷ update_where (is_listed (sessions_to_revoke active))
              (revoked_with session.created_at session_limit) db.sessions;
      refresh_tokens =
          (record {
            session_id = session.id;
            token_hash = refresh_hash;
            expires_at = session.idle_expires_at;
            used_at = none;
          })
          ∷ db.refresh_tokens;
    }

pub record StartSessionParams : Type 0 where
  pub session : AuthSessionProps
  pub expected_password_hash : EntityId
  pub refresh_hash : EntityId

unfoldable pub start_session : StartSessionParams → AuthStore → Result AccountError AuthStore
start_session p db = do
  user ← or_throw (user_by_id p.session.user_id db.users) (auth_error AuthError.invalid_credentials)
  throw_if (not (same_id user.password_hash (some p.expected_password_hash)))
      (auth_error AuthError.invalid_credentials)
  rethrow user_error (assert_can_authenticate user)
  ok (create_session_record p.session p.refresh_hash db)

unfoldable pub start_federated_session :
    AuthSessionProps → EntityId → AuthStore → Result AccountError AuthStore
start_federated_session session refresh_hash db = do
  user ← or_throw (user_by_id session.user_id db.users) (auth_error AuthError.invalid_credentials)
  rethrow user_error (assert_can_authenticate user)
  ok (create_session_record session refresh_hash db)

pub record SessionIdentity : Type 0 where
  pub user_id : EntityId
  pub session_id : EntityId

-- A session has a user, by a foreign key: the second `or_throw` never throws on such tables.
unfoldable pub authenticate : SessionIdentity → Date → AuthStore → Result AccountError UserProps
authenticate identity now db = do
  session ← or_throw (session_by_id identity.session_id db.sessions) (auth_error invalid_session)
  throw_if (not (session.user_id == identity.user_id)) (auth_error invalid_session)
  rethrow auth_error (assert_active now session)
  user ← or_throw (user_by_id session.user_id db.users) (auth_error invalid_session)
  rethrow user_error (assert_can_authenticate user)
  ok user

-- `tx.authSession.update` with the two columns of a revocation.
abbrev pub save_revocation : AuthSessionProps → List AuthSessionProps → List AuthSessionProps
save_revocation state rows =
    update_where (λ row. row.id == state.id)
      (λ row. record row {
        revoked_at = state.revoked_at;
        revocation_reason = state.revocation_reason;
      })
      rows

unfoldable pub revoke_row :
    Date → SessionRevocationReason → Option AuthSessionProps → AuthStore → AuthStore
revoke_row now reason none db = db
revoke_row now reason (some row) db = record db {
  sessions = save_revocation (revoke now reason row) db.sessions;
}

unfoldable pub revoke_session :
    SessionIdentity → Date → SessionRevocationReason → AuthStore → AuthStore
revoke_session identity now reason db =
    revoke_row now reason
      (find (λ s. s.id == identity.session_id && s.user_id == identity.user_id) db.sessions) db

unfoldable pub revoke_owner :
    EntityId → Date → SessionRevocationReason → Option AuthSessionProps → AuthStore → AuthStore
revoke_owner session now reason none db = db
revoke_owner session now reason (some row) db =
    revoke_session (record { user_id = row.user_id; session_id = session }) now reason db

unfoldable pub revoke_located :
    Date → SessionRevocationReason → Option RefreshTokenProps → AuthStore → AuthStore
revoke_located now reason none db = db
revoke_located now reason (some row) db =
    revoke_owner row.session_id now reason (session_by_id row.session_id db.sessions) db

unfoldable pub revoke_by_token : EntityId → Date → SessionRevocationReason → AuthStore → AuthStore
revoke_by_token hash now reason db =
    revoke_located now reason (refresh_by_hash hash db.refresh_tokens) db

abbrev pub is_open_of : EntityId → AuthSessionProps → Bool
is_open_of user s = s.user_id == user && not (is_some s.revoked_at)

unfoldable pub revoke_all : EntityId → Date → AuthStore → AuthStore
revoke_all user now db = record db {
  sessions = update_where (is_open_of user) (revoked_with now logout_all) db.sessions;
}
