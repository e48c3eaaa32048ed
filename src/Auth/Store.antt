-- ===== src/Auth/Store.antt =====
-- The tables that `PrismaAuthRepository` (auth/infrastructure/repositories) reads and writes. The
-- transactions of a user run one after another, by the lock on the user's row that each takes.
use bom_trato_api.Prelude.{Option, List, ◌==◌, EntityId, find}
use bom_trato_api.Prelude.Text.{Text, text_eq}
use bom_trato_api.Auth.Types.{
  UserProps, AuthSessionProps, RefreshTokenProps, ActionTokenProps, AuthIdentityProps,
}

pub record AuthStore : Type 0 where
  pub users : List UserProps
  pub sessions : List AuthSessionProps
  pub refresh_tokens : List RefreshTokenProps
  pub action_tokens : List ActionTokenProps
  pub identities : List AuthIdentityProps

-- `findUnique({ where: { id } })`, and by the hash of a token.
abbrev pub user_by_id : EntityId → List UserProps → Option UserProps
user_by_id id rows = find (λ u. u.id == id) rows

abbrev pub user_by_email : Text → List UserProps → Option UserProps
user_by_email email rows = find (λ u. text_eq u.email email) rows

abbrev pub session_by_id : EntityId → List AuthSessionProps → Option AuthSessionProps
session_by_id id rows = find (λ s. s.id == id) rows

abbrev pub refresh_by_hash : EntityId → List RefreshTokenProps → Option RefreshTokenProps
refresh_by_hash hash rows = find (λ t. t.token_hash == hash) rows

abbrev pub action_by_hash : EntityId → List ActionTokenProps → Option ActionTokenProps
action_by_hash hash rows = find (λ t. t.token_hash == hash) rows
