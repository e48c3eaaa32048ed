-- ===== src/Auth/Identity.antt =====
-- `AuthIdentity.google` (auth/domain/entities) and `linkIdentity` of `PrismaAuthRepository`
-- (auth/infrastructure/repositories/prismaAuth.repository.ts).
use bom_trato_api.Prelude.{
  Bool, true, ◌&&◌, ◌||◌, none, some, List, ◌∷◌, ltb, ◌==◌, if◌then◌else◌, EntityId, length, find,
}
use bom_trato_api.Prelude.Result.{Result, ok, err, ◌>>=◌, ◌>>◌, throw_if, or_throw, rethrow}
use bom_trato_api.Prelude.Text.{Text, text_eq, trim}
use bom_trato_api.Auth.Types.{
  AuthError, invalid_session, invalid_google_credential, google_identity_in_use,
  google_provider_already_linked, AccountError, auth_error, user_error, AuthProvider, google,
  AuthIdentityProps,
}
use bom_trato_api.Auth.User.{assert_can_authenticate}
use bom_trato_api.Auth.Store.{AuthStore, user_by_id}

-- Identifiers are never the empty text.
unfoldable pub google_identity : EntityId → EntityId → Text → Result AuthError AuthIdentityProps
google_identity id user account = do
  let provider_account_id = trim account
  throw_if (length provider_account_id == 0 || ltb 255 (length provider_account_id))
      invalid_google_credential
  ok (record {
    id = id;
    user_id = user;
    provider = google;
    provider_account_id = provider_account_id;
  })

abbrev pub same_provider : AuthProvider → AuthProvider → Bool
same_provider google google = true

abbrev pub is_account : AuthIdentityProps → AuthIdentityProps → Bool
is_account identity row =
    same_provider row.provider identity.provider
    && text_eq row.provider_account_id identity.provider_account_id

abbrev pub is_provider_of : AuthIdentityProps → AuthIdentityProps → Bool
is_provider_of identity row =
    row.user_id == identity.user_id && same_provider row.provider identity.provider

-- When the account of the provider has no owner yet.
unfoldable pub link_free :
    AuthIdentityProps → List AuthIdentityProps → Result AccountError (List AuthIdentityProps)
link_free identity rows = elim (find (is_provider_of identity) rows) [
  | none ↦ ok (identity ∷ rows)
  | some existing ↦
      if text_eq existing.provider_account_id identity.provider_account_id
      then ok rows
      else err (auth_error google_provider_already_linked)
]

unfoldable pub link_row :
    AuthIdentityProps → List AuthIdentityProps → Result AccountError (List AuthIdentityProps)
link_row identity rows = elim (find (is_account identity) rows) [
  | none ↦ link_free identity rows
  | some owned ↦
      if owned.user_id == identity.user_id then ok rows else err (auth_error google_identity_in_use)
]

unfoldable pub link_identity : AuthIdentityProps → AuthStore → Result AccountError AuthStore
link_identity identity db = do
  user ← or_throw (user_by_id identity.user_id db.users) (auth_error invalid_session)
  rethrow user_error (assert_can_authenticate user)
  identities ← link_row identity db.identities
  ok (record db { identities = identities })
