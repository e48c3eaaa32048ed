-- ===== src/Auth/Rotation.antt =====
-- `PrismaAuthRepository.rotate` (auth/infrastructure/repositories/prismaAuth.repository.ts): a
-- refresh token is exchanged for the next one, and a used one gives the session away.
use bom_trato_api.Prelude.{update_where, ℕ, Option, none, some, ◌∷◌, ◌==◌, EntityId}
use bom_trato_api.Prelude.Result.{Result, ok, err, ◌>>=◌, ◌>>◌, or_throw, rethrow}
use bom_trato_api.Prelude.Date.{Date}
use bom_trato_api.Auth.Types.{
  AuthError, invalid_token, token_reused, AccountError, auth_error, user_error, refresh_reuse,
  AuthSessionProps, RefreshTokenProps,
}
use bom_trato_api.Auth.User.{assert_can_authenticate}
use bom_trato_api.Auth.Session.{renew, revoke, consume_refresh}
use bom_trato_api.Auth.Store.{AuthStore, user_by_id, session_by_id, refresh_by_hash}
use bom_trato_api.Auth.Sessions.{SessionIdentity, save_revocation}

pub record RotateSessionParams : Type 0 where
  pub token_hash : EntityId
  pub next_hash : EntityId
  pub now : Date
  pub idle_seconds : ℕ

pub record RotateSessionResult : Type 0 where
  pub identity : SessionIdentity
  pub expires_at : Date

-- The three writes of a token that is good. The row is found by its hash, which is unique, where
-- the code uses its `id`.
unfoldable pub rotated :
    RotateSessionParams → RefreshTokenProps → AuthSessionProps → AuthStore → AuthStore
rotated p row state db = record db {
  sessions =
      update_where (λ s. s.id == state.id)
        (λ s. record s {
          idle_expires_at = state.idle_expires_at;
          last_refreshed_at = state.last_refreshed_at;
        })
        db.sessions;
  refresh_tokens =
      (record {
        session_id = state.id;
        token_hash = p.next_hash;
        expires_at = state.idle_expires_at;
        used_at = none;
      })
      ∷ update_where (λ t. t.token_hash == row.token_hash) (λ t. record t { used_at = some p.now })
          db.refresh_tokens;
}

unfoldable pub rotate_session :
    RotateSessionParams
    → RefreshTokenProps
    → AuthSessionProps
    → AuthStore
    → Result AccountError (Option RotateSessionResult × AuthStore)
rotate_session p row session db = do
  user ← or_throw (user_by_id session.user_id db.users) (auth_error invalid_token)
  rethrow user_error (assert_can_authenticate user)
  state ← rethrow auth_error (renew p.now p.idle_seconds session)
  ok (
    some (record {
      identity = record { user_id = state.user_id; session_id = state.id };
      expires_at = state.idle_expires_at;
    }),
    rotated p row state db,
  )

abbrev pub Rotated : Type 0
Rotated = Result AccountError (Option RotateSessionResult × AuthStore)

-- The `try` and its `catch`: only the reuse of a token is caught.
unfoldable pub rotate_consumed :
    RotateSessionParams
    → RefreshTokenProps
    → AuthSessionProps
    → AuthStore
    → Result AuthError RefreshTokenProps
    → Rotated
rotate_consumed p row session db (ok token) = rotate_session p row session db
rotate_consumed p row session db (err token_reused) = ok (
  none,
  record db { sessions = save_revocation (revoke p.now refresh_reuse session) db.sessions },
)
rotate_consumed p row session db (err other) = err (auth_error other)

unfoldable pub rotate_token :
    RotateSessionParams → RefreshTokenProps → AuthSessionProps → AuthStore → Rotated
rotate_token p row session db = rotate_consumed p row session db (consume_refresh p.now row)

-- The body of the transaction. After the lock on the user's row the token and the session are
-- read again; no other transaction of the user writes in between.
unfoldable pub rotate_body :
    RotateSessionParams → AuthStore → Result AccountError (Option RotateSessionResult × AuthStore)
rotate_body p db = do
  row ← or_throw (refresh_by_hash p.token_hash db.refresh_tokens) (auth_error invalid_token)
  session ← or_throw (session_by_id row.session_id db.sessions) (auth_error invalid_token)
  rotate_token p row session db

-- The answer, and the tables afterwards: a body that throws is rolled back, and the answer to a
-- reuse is thrown after the commit.
unfoldable pub settle : AuthStore → Rotated → Result AccountError RotateSessionResult × AuthStore
settle db (ok (some r, db')) = (ok r, db')
settle db (ok (none, db')) = (err (auth_error token_reused), db')
settle db (err e) = (err e, db)

unfoldable pub rotate :
    RotateSessionParams → AuthStore → Result AccountError RotateSessionResult × AuthStore
rotate p db = settle db (rotate_body p db)
