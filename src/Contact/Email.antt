-- ===== src/Contact/Email.antt =====
-- `normalizeEmail` (shared/text/email.ts) and the test of an address that leads and customers
-- share. `lower` is the `toLowerCase` of strings.
use bom_trato_api.Prelude.{
  Bool, true, false, not, ◌&&◌, ◌||◌, Option, none, some, [], ◌∷◌, ltb, ◌==◌, length, if◌then◌else◌,
}
use bom_trato_api.Prelude.Text.{Text, trim, is_space, nonempty}

unfoldable pub normalize_email : (Text → Text) → Text → Text
normalize_email lower email = lower (trim email)

-- `email ? normalizeEmail(email) || null : null`
unfoldable pub optional_email : (Text → Text) → Option Text → Option Text
optional_email lower none = none
optional_email lower (some []) = none
optional_email lower (some (c ∷ s)) = nonempty (normalize_email lower (c ∷ s))

-- `[^\s@]`
unfoldable pub is_plain : Text → Bool
is_plain [] = true
is_plain (c ∷ s) = not (is_space c) && not (c == b'@') && is_plain s

-- `[^\s@]*\.[^\s@]+`, of a text that is plain.
unfoldable pub has_point : Text → Bool
has_point [] = false
has_point (c ∷ []) = false
has_point (c ∷ d ∷ s) = c == b'.' || has_point (d ∷ s)

-- `[^\s@]+\.[^\s@]+`
unfoldable pub is_domain : Text → Bool
is_domain [] = false
is_domain (c ∷ s) = is_plain (c ∷ s) && has_point s

-- What follows at least one plain character: more of them, or `@` and a domain.
unfoldable pub is_address_tail : Text → Bool
is_address_tail [] = false
is_address_tail (c ∷ s) = if c == b'@' then is_domain s else not (is_space c) && is_address_tail s

-- `/^[^\s@]+@[^\s@]+\.[^\s@]+$/`
unfoldable pub is_address : Text → Bool
is_address [] = false
is_address (c ∷ s) = not (is_space c) && not (c == b'@') && is_address_tail s

-- `email !== null && (email.length > 254 || !/.../.test(email))`
unfoldable pub bad_email : Option Text → Bool
bad_email none = false
bad_email (some email) = ltb 254 (length email) || not (is_address email)
