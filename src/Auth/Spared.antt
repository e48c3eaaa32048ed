-- ===== src/Auth/Spared.antt =====
-- About the clean-up of Auth/Maintenance: what it leaves.
use bom_trato_api.Prelude.{
  ◌≡◌, refl, true, false, none, some, ◌==◌, ==_refl, ==→eq, any, any-Mem, find-Mem, find-keep,
  arith,
}
use bom_trato_api.Prelude.Date.{date_lt}
use bom_trato_api.Auth.Types.{AuthSessionProps, RefreshTokenProps}
use bom_trato_api.Auth.Store.{AuthStore, session_by_id, refresh_by_hash}
use bom_trato_api.Auth.Maintenance.{
  AuthCleanupParams, outlived, clean_tokens, clean_sessions, cleanup_auth,
}

-- The token and its session are in the tables, and neither has ended when the tokens are cleaned.
pub record IsLive (p : AuthCleanupParams) (t : RefreshTokenProps) (s : AuthSessionProps)
    (db : AuthStore) : Type 0 where
  pub token_found : refresh_by_hash t.token_hash db.refresh_tokens ≡ some t
  pub session_found : session_by_id t.session_id db.sessions ≡ some s
  pub token_lasts : date_lt t.expires_at p.refresh_token_before ≡ false
  pub unrevoked : s.revoked_at ≡ none
  pub lasts : date_lt s.absolute_expires_at p.refresh_token_before ≡ false
  pub in_use : date_lt s.idle_expires_at p.refresh_token_before ≡ false

not-outlived :
    (p : AuthCleanupParams) (t : RefreshTokenProps) (s : AuthSessionProps) (db : AuthStore)
    → IsLive p t s db
    → outlived p.refresh_token_before t (session_by_id t.session_id db.sessions) ≡ false
unfolding outlived
not-outlived p t s db l =
    rw l.session_found (rw (l.token_lasts, l.unrevoked, l.lasts, l.in_use) refl)

spared-token :
    (p : AuthCleanupParams) (t : RefreshTokenProps) (s : AuthSessionProps) (db : AuthStore)
    → IsLive p t s db
    → refresh_by_hash t.token_hash (clean_tokens p db.sessions db.refresh_tokens) ≡ some t
unfolding clean_tokens
spared-token p t s db l =
    find-keep (λ x. x.token_hash == t.token_hash) _ db.refresh_tokens t l.token_found
      (rw (not-outlived p t s db l) refl)

spared-session :
    (p : AuthCleanupParams) (t : RefreshTokenProps) (s : AuthSessionProps) (db : AuthStore)
    → IsLive p t s db
    → session_by_id t.session_id
        (clean_sessions p (clean_tokens p db.sessions db.refresh_tokens) db.sessions)
      ≡ some s
unfolding clean_sessions
spared-session p t s db l =
    let tokens = clean_tokens p db.sessions db.refresh_tokens in
    let (m, _) = find-Mem (λ x. x.token_hash == t.token_hash) tokens t (spared-token p t s db l) in
    let (_, i) = find-Mem (λ x. x.id == t.session_id) db.sessions s l.session_found in
    let own : (t.session_id == s.id) ≡ true =
      rw (==→eq s.id t.session_id i) (==_refl t.session_id) in
    let used : any (λ (x : RefreshTokenProps). x.session_id == s.id) tokens ≡ true =
      any-Mem (λ (x : RefreshTokenProps). x.session_id == s.id) tokens m own in
    find-keep (λ x. x.id == t.session_id) _ db.sessions s l.session_found (ground (arith, used))

-- The clean-up ends no session that is in use. When a refresh token and its session are in the
-- tables, the session is not revoked, and neither has expired before the time that the clean-up is
-- given for tokens, then the clean-up leaves both in their tables as they are, whatever rows it
-- takes and whatever time it is given for sessions.
pub cleanup_auth-spares :
    (p : AuthCleanupParams) (t : RefreshTokenProps) (s : AuthSessionProps) (db : AuthStore)
    → IsLive p t s db
    → (refresh_by_hash t.token_hash (cleanup_auth p db).refresh_tokens ≡ some t)
      × (session_by_id t.session_id (cleanup_auth p db).sessions ≡ some s)
unfolding cleanup_auth
cleanup_auth-spares p t s db l = (spared-token p t s db l, spared-session p t s db l)
