-- ===== src/Auth/Types.antt =====
-- The types of the accounts: users (users/domain), sessions, tokens and identities (auth/domain).
-- The hashes of passwords and tokens are numbers that are only compared.
use bom_trato_api.Prelude.{Option, EntityId}
use bom_trato_api.Prelude.Text.{Text}
use bom_trato_api.Prelude.Date.{Date}

pub data AuthError : Type 0 where
  invalid_credentials email_not_verified invalid_session token_reused invalid_token : AuthError
  invalid_password plan_unavailable invalid_google_credential google_email_not_verified : AuthError
  google_account_link_required google_email_mismatch google_identity_in_use : AuthError
  google_provider_already_linked google_identity_conflict terms_acceptance_required : AuthError
  legal_document_version_outdated : AuthError

pub data UserError : Type 0 where
  invalid_password invalid_credentials email_not_verified invalid_token : UserError
  email_already_exists : UserError

-- The methods throw errors of two classes.
pub data AccountError : Type 0 where
  auth_error : AuthError → AccountError
  user_error : UserError → AccountError

pub record UserProps : Type 0 where
  pub id : EntityId
  pub name : Text
  pub email : Text
  pub password_hash : Option EntityId
  pub selected_plan_price_id : Option EntityId
  pub email_verified_at : Option Date
  pub disabled_at : Option Date

pub data SessionRevocationReason : Type 0 where
  logout logout_all session_replaced session_revoked refresh_reuse : SessionRevocationReason
  password_reset session_limit : SessionRevocationReason

pub record AuthSessionProps : Type 0 where
  pub id : EntityId
  pub user_id : EntityId
  pub created_at : Date
  pub last_refreshed_at : Date
  pub idle_expires_at : Date
  pub absolute_expires_at : Date
  pub revoked_at : Option Date
  pub revocation_reason : Option SessionRevocationReason
  pub user_agent : Option Text

-- A row of the table of refresh tokens.
pub record RefreshTokenProps : Type 0 where
  pub session_id : EntityId
  pub token_hash : EntityId
  pub expires_at : Date
  pub used_at : Option Date

pub data AuthActionPurpose : Type 0 where
  verify_email reset_password : AuthActionPurpose

-- A row of the table of the tokens that are sent by mail.
pub record ActionTokenProps : Type 0 where
  pub user_id : EntityId
  pub purpose : AuthActionPurpose
  pub token_hash : EntityId
  pub expires_at : Date
  pub used_at : Option Date

pub data AuthProvider : Type 0 where
  google : AuthProvider

pub record AuthIdentityProps : Type 0 where
  pub id : EntityId
  pub user_id : EntityId
  pub provider : AuthProvider
  pub provider_account_id : Text
