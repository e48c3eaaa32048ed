-- ===== src/Auth/User.antt =====
-- `class User` and `UserAccessPolicy` (users/domain).
use bom_trato_api.Prelude.{not, Option, none, some, EntityId, is_some}
use bom_trato_api.Prelude.Result.{Result, ok, ◌>>◌, throw_if}
use bom_trato_api.Prelude.Date.{Date}
use bom_trato_api.Auth.Types.{UserError, UserProps}

unfoldable pub assert_can_authenticate : UserProps → Result UserError (Unit {0})
assert_can_authenticate u = do
  throw_if (is_some u.disabled_at) UserError.invalid_credentials
  throw_if (not (is_some u.email_verified_at)) UserError.email_not_verified

abbrev pub or_now : Option Date → Date → Option Date
or_now none now = some now
or_now (some t) now = some t

unfoldable pub verify_email : Date → UserProps → Result UserError UserProps
verify_email now u = do
  throw_if (is_some u.disabled_at) UserError.invalid_token
  ok (record u { email_verified_at = or_now u.email_verified_at now })

-- A hash that the security service makes is never the empty text.
unfoldable pub change_password : EntityId → UserProps → Result UserError UserProps
change_password hash u = do
  throw_if (is_some u.disabled_at) UserError.invalid_token
  ok (record u { password_hash = some hash })
