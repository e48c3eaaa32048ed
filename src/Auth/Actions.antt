-- ===== src/Auth/Actions.antt =====
-- `issueAction` and `consumeAction` of `PrismaAuthRepository`
-- (auth/infrastructure/repositories/prismaAuth.repository.ts): the tokens that are sent by mail to
-- verify an address or to set a new password.
use bom_trato_api.Prelude.{
  update_where, Bool, true, false, not, ◌&&◌, ◌||◌, Option, none, some, List, ◌∷◌, ◌==◌,
  if◌then◌else◌, EntityId, is_some,
}
use bom_trato_api.Prelude.Result.{Result, ok, err, ◌>>=◌, or_throw, rethrow}
use bom_trato_api.Prelude.Text.{Text}
use bom_trato_api.Prelude.Date.{Date}
use bom_trato_api.Auth.Types.{
  invalid_token, AccountError, auth_error, user_error, UserProps, AuthActionPurpose, verify_email,
  reset_password, ActionTokenProps, password_reset,
}
use bom_trato_api.Auth.User
use bom_trato_api.Auth.User.{change_password}
use bom_trato_api.Auth.Session.{same_purpose, consume_token}
use bom_trato_api.Auth.Store.{AuthStore, user_by_id, user_by_email, action_by_hash}
use bom_trato_api.Auth.Sessions.{is_open_of, revoked_with}

pub record IssueActionParams : Type 0 where
  pub email : Text
  pub purpose : AuthActionPurpose
  pub token_hash : EntityId
  pub expires_at : Date

pub record ConsumeActionParams : Type 0 where
  pub token_hash : EntityId
  pub purpose : AuthActionPurpose
  pub now : Date
  pub password_hash : Option EntityId

-- `where: { userId, purpose, usedAt: null }`
abbrev pub is_unused : EntityId → AuthActionPurpose → ActionTokenProps → Bool
is_unused user purpose t =
    t.user_id == user && same_purpose t.purpose purpose && not (is_some t.used_at)

abbrev pub mark_used :
    EntityId → AuthActionPurpose → Date → List ActionTokenProps → List ActionTokenProps
mark_used user purpose now rows =
    update_where (is_unused user purpose) (λ t. record t { used_at = some now }) rows

-- The row that the lock has reloaded.
unfoldable pub issue_to : IssueActionParams → Date → Option UserProps → AuthStore → Bool × AuthStore
issue_to p clock none db = (false, db)
issue_to p clock (some row) db =
    if is_some row.disabled_at
      || (same_purpose p.purpose verify_email && is_some row.email_verified_at)
    then (false, db)
    else (
      true,
      record db {
        action_tokens =
            (record {
              user_id = row.id;
              purpose = p.purpose;
              token_hash = p.token_hash;
              expires_at = p.expires_at;
              used_at = none;
            })
            ∷ mark_used row.id p.purpose clock db.action_tokens;
      },
    )

unfoldable pub issue_located :
    IssueActionParams → Date → Option UserProps → AuthStore → Bool × AuthStore
issue_located p clock none db = (false, db)
issue_located p clock (some locator) db = issue_to p clock (user_by_id locator.id db.users) db

unfoldable pub issue_action : IssueActionParams → Date → AuthStore → Bool × AuthStore
issue_action p clock db = issue_located p clock (user_by_email p.email db.users) db

-- What the token is for. `updateMany` revokes every session of the user that is not revoked.
unfoldable pub apply_action :
    AuthActionPurpose
    → Date
    → Option EntityId
    → UserProps
    → AuthStore
    → Result AccountError AuthStore
apply_action verify_email now hash user db = do
  state ← rethrow user_error (User.verify_email now user)
  ok (record db {
    users =
        update_where (λ row. row.id == state.id)
          (λ row. record row { email_verified_at = state.email_verified_at }) db.users;
  })
apply_action reset_password now none user db = err (auth_error invalid_token)
apply_action reset_password now (some hash) user db = do
  state ← rethrow user_error (change_password hash user)
  ok (record db {
    users =
        update_where (λ row. row.id == state.id)
          (λ row. record row { password_hash = state.password_hash }) db.users;
    sessions = update_where (is_open_of state.id) (revoked_with now password_reset) db.sessions;
  })

-- The address of the user, and the tables. A token has a user, by a foreign key.
unfoldable pub consume_action :
    ConsumeActionParams → AuthStore → Result AccountError (Text × AuthStore)
consume_action p db = do
  row ← or_throw (action_by_hash p.token_hash db.action_tokens) (auth_error invalid_token)
  user ← or_throw (user_by_id row.user_id db.users) (auth_error invalid_token)
  used ← rethrow auth_error (consume_token p.purpose p.now row)
  db' ← apply_action p.purpose p.now p.password_hash user db
  ok (
    user.email,
    record db' { action_tokens = mark_used user.id p.purpose p.now db'.action_tokens },
  )
