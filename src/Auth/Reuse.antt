-- ===== src/Auth/Reuse.antt =====
-- About `rotate` in Auth/Rotation: a refresh token serves once, and showing it again ends the
-- session.
use mathlib.Core.Path.{subst}
use bom_trato_api.Prelude.{
  some-eq, none-some, ◌≡◌, ◌≢◌, refl, sym, ap, ◌∙◌, true, false, none, some, inl, inr, Bool-cases,
  ◌==◌, ==_refl, ==→eq, EntityId, is_some, find-Mem, find-update_where, if◌then◌else◌, arith,
}
use bom_trato_api.Prelude.Result.{
  ok-eq, or_throw-some, Result, ok, err, or_throw, rethrow, >>=-eq_ok, rethrow-eq_ok,
}
use bom_trato_api.Prelude.Date.{Date}
use bom_trato_api.Auth.Types.{
  AuthError, token_reused, invalid_session, auth_error, user_error, refresh_reuse, AuthSessionProps,
  RefreshTokenProps,
}
use bom_trato_api.Auth.User.{assert_can_authenticate}
use bom_trato_api.Auth.Session.{assert_active, renew, revoke, consume_refresh}
use bom_trato_api.Auth.Store.{AuthStore, session_by_id, refresh_by_hash, user_by_id}
use bom_trato_api.Auth.Sessions.{SessionIdentity, save_revocation, authenticate}
use bom_trato_api.Auth.Rotation.{
  RotateSessionParams, RotateSessionResult, Rotated, rotated, rotate_session, rotate_consumed,
  rotate_token, rotate_body, settle, rotate,
}
use bom_trato_api.Auth.Revoked.{Reach, Reach-Keeps}

-- The session is there and revoked.
pub record IsDead (id : EntityId) (db : AuthStore) : Type 0 where
  pub row : AuthSessionProps
  pub found : session_by_id id db.sessions ≡ some row
  pub ended : is_some row.revoked_at ≡ true

-- The token is there, used, and belongs to a session that is there.
pub record IsUsed (hash session : EntityId) (db : AuthStore) : Type 0 where
  pub token : RefreshTokenProps
  pub owner : AuthSessionProps
  pub token_found : refresh_by_hash hash db.refresh_tokens ≡ some token
  pub token_used : is_some token.used_at ≡ true
  pub belongs : token.session_id ≡ session
  pub owner_found : session_by_id session db.sessions ≡ some owner

pub Reach-IsDead :
    {id hash : EntityId} {db db' : AuthStore} → IsDead id db → Reach id hash db db' → IsDead id db'
Reach-IsDead {id} {hash} d r =
    let (s, e, _, k) = (Reach-Keeps id hash r).keeps_session.kept_session d.row d.found in
    record { row = s; found = e; ended = k d.ended }

Reach-IsUsed :
    {hash session : EntityId} {db db' : AuthStore}
    → IsUsed hash session db
    → Reach session hash db db'
    → IsUsed hash session db'
Reach-IsUsed {hash} {session} u r =
    let k = Reach-Keeps session hash r in
    let (t, e, b, d) = k.keeps_token.kept_token u.token u.token_found in
    let (s, f, _, _) = k.keeps_session.kept_session u.owner u.owner_found in
    record {
      token = t;
      owner = s;
      token_found = e;
      token_used = d u.token_used;
      belongs = b ∙ u.belongs;
      owner_found = f;
    }

-- A revoked session lets nobody in.
pub authenticate-dead :
    (identity : SessionIdentity) (now : Date) (db : AuthStore)
    → IsDead identity.session_id db
    → authenticate identity now db ≡ err (auth_error invalid_session)
unfolding authenticate assert_active
authenticate-dead identity now db d = rw d.found (ground (arith, d.ended))

renew-dead :
    (q : RotateSessionParams) (s : AuthSessionProps) {state : AuthSessionProps}
    → is_some s.revoked_at ≡ true
    → renew q.now q.idle_seconds s ≢ ok state
unfolding renew assert_active
renew-dead q s d h = ground arith

rotate_consumed-dead :
    (q : RotateSessionParams) (row : RefreshTokenProps) (s : AuthSessionProps) (db : AuthStore)
    (used : Result AuthError RefreshTokenProps) (x : RotateSessionResult) (db' : AuthStore)
    → is_some s.revoked_at ≡ true
    → rotate_consumed q row s db used ≢ ok (some x, db')
unfolding rotate_consumed rotate_session
rotate_consumed-dead q row s db (ok token) x db' d h =
    let (user, _, h1) = >>=-eq_ok (or_throw (user_by_id s.user_id db.users) _) _ h in
    let (_, _, h2) = >>=-eq_ok (rethrow user_error (assert_can_authenticate user)) _ h1 in
    let (state, e, _) = >>=-eq_ok (rethrow auth_error (renew q.now q.idle_seconds s)) _ h2 in
    renew-dead q s {state = state} d (rethrow-eq_ok auth_error (renew q.now q.idle_seconds s) e)
rotate_consumed-dead q row s db (err token_reused) x db' d h = cc
rotate_consumed-dead q row s db (err _) x db' d h = cc

settle-ok :
    (db : AuthStore) (r : Rotated) (x : RotateSessionResult) (db' : AuthStore)
    → settle db r ≡ (ok x, db')
    → r ≡ ok (some x, db')
unfolding settle
settle-ok db (ok (some r, d)) x db' h = ground arith
settle-ok db (ok (none, d)) x db' h = ground arith
settle-ok db (err e) x db' h = ground arith

-- What a rotation that succeeds has read.
record Read (p : RotateSessionParams) (db : AuthStore) (x : RotateSessionResult) (db' : AuthStore)
    : Type 0 where
  pub row : RefreshTokenProps
  pub session : AuthSessionProps
  pub row_found : refresh_by_hash p.token_hash db.refresh_tokens ≡ some row
  pub session_found : session_by_id row.session_id db.sessions ≡ some session
  pub went_on : rotate_consumed p row session db (consume_refresh p.now row) ≡ ok (some x, db')

rotate-Read :
    (p : RotateSessionParams) (db : AuthStore) {x : RotateSessionResult} {db' : AuthStore}
    → rotate p db ≡ (ok x, db')
    → Read p db x db'
unfolding rotate rotate_body rotate_token
rotate-Read p db {x} {db'} h =
    let b = settle-ok db (rotate_body p db) x db' h in
    let (row, e, h1) =
      >>=-eq_ok (or_throw (refresh_by_hash p.token_hash db.refresh_tokens) _) _ b in
    let (s, f, h2) = >>=-eq_ok (or_throw (session_by_id row.session_id db.sessions) _) _ h1 in
    record {
      row = row;
      session = s;
      row_found = or_throw-some _ _ e;
      session_found = or_throw-some _ _ f;
      went_on = h2;
    }

abbrev renewed : AuthSessionProps → AuthSessionProps → AuthSessionProps
renewed state s = record s {
  idle_expires_at = state.idle_expires_at;
  last_refreshed_at = state.last_refreshed_at;
}

answered :
    (state : AuthSessionProps) {x : RotateSessionResult} {a b : AuthStore}
    → ◌≡◌ {A = Rotated}
        (ok (
          some (record {
            identity = record { user_id = state.user_id; session_id = state.id };
            expires_at = state.idle_expires_at;
          }),
          a,
        ))
        (ok (some x, b))
    → state.id ≡ x.identity.session_id
answered state h = ground arith

-- A token of a revoked session is not exchanged.
pub rotate-dead :
    (q : RotateSessionParams) (db db' : AuthStore) (t : RefreshTokenProps) (x : RotateSessionResult)
    → refresh_by_hash q.token_hash db.refresh_tokens ≡ some t
    → IsDead t.session_id db
    → rotate q db ≢ (ok x, db')
rotate-dead q db db' t x e d h =
    let r = rotate-Read q db h in
    let i : t ≡ r.row = some-eq (sym e ∙ r.row_found) in
    let s : d.row ≡ r.session = some-eq (
      sym d.found
      ∙ ap (λ (y : RefreshTokenProps). session_by_id y.session_id db.sessions) i
      ∙ r.session_found) in
    rotate_consumed-dead q r.row r.session db (consume_refresh q.now r.row) x db'
      (ap (λ (y : AuthSessionProps). is_some y.revoked_at) (sym s) ∙ d.ended) r.went_on

renew-id :
    (p : RotateSessionParams) (s : AuthSessionProps) {state : AuthSessionProps}
    → renew p.now p.idle_seconds s ≡ ok state
    → state.id ≡ s.id
unfolding renew
renew-id p s h = ground arith

rotated-IsUsed :
    (p : RotateSessionParams) (row : RefreshTokenProps) (s state : AuthSessionProps)
    (db : AuthStore)
    → refresh_by_hash p.next_hash db.refresh_tokens ≡ none
    → refresh_by_hash p.token_hash db.refresh_tokens ≡ some row
    → session_by_id row.session_id db.sessions ≡ some s
    → IsUsed p.token_hash row.session_id (rotated p row state db)
unfolding rotated
rotated-IsUsed p row s state db new e f =
    let hash = (find-Mem (λ t. t.token_hash == p.token_hash) db.refresh_tokens row e).1 in
    let apart : (p.next_hash == p.token_hash) ≡ false =
      elim (Bool-cases (p.next_hash == p.token_hash)) [
        | inr other ↦ other
        | inl same ↦
            let i = ==→eq p.next_hash p.token_hash same in
            absurd (none-some (sym new ∙ ap (λ x. refresh_by_hash x db.refresh_tokens) i ∙ e))
      ] in
    record {
      token = record row { used_at = some p.now };
      owner = if s.id == state.id then renewed state s else s;
      token_found = rw apart (
          find-update_where (λ t. t.token_hash == p.token_hash)
            (λ t. t.token_hash == row.token_hash) (λ t. record t { used_at = some p.now })
            db.refresh_tokens row (λ t. refl) e
          ∙ rw (==_refl row.token_hash) refl);
      token_used = refl;
      belongs = refl;
      owner_found =
          find-update_where (λ a. a.id == row.session_id) (λ a. a.id == state.id) (renewed state)
            db.sessions s (λ a. refl) f;
    }

rotate_session-IsUsed :
    (p : RotateSessionParams) (row : RefreshTokenProps) (s : AuthSessionProps) (db db' : AuthStore)
    (x : RotateSessionResult)
    → refresh_by_hash p.next_hash db.refresh_tokens ≡ none
    → refresh_by_hash p.token_hash db.refresh_tokens ≡ some row
    → session_by_id row.session_id db.sessions ≡ some s
    → rotate_session p row s db ≡ ok (some x, db')
    → IsUsed p.token_hash x.identity.session_id db'
unfolding rotate_session
rotate_session-IsUsed p row s db db' x new e f h =
    let (user, _, h1) = >>=-eq_ok (or_throw (user_by_id s.user_id db.users) _) _ h in
    let (_, _, h2) = >>=-eq_ok (rethrow user_error (assert_can_authenticate user)) _ h1 in
    let (state, g, h3) = >>=-eq_ok (rethrow auth_error (renew p.now p.idle_seconds s)) _ h2 in
    let i : row.session_id ≡ x.identity.session_id =
      sym (==→eq s.id row.session_id (find-Mem (λ a. a.id == row.session_id) db.sessions s f).1)
      ∙ sym (renew-id p s (rethrow-eq_ok auth_error (renew p.now p.idle_seconds s) g))
      ∙ answered state h3 in
    let d : rotated p row state db ≡ db' = ap (λ y. y.1) (ok-eq h3) in
    subst (λ y. IsUsed p.token_hash y db') i
      (subst (λ y. IsUsed p.token_hash row.session_id y) d
        (rotated-IsUsed p row s state db new e f))

rotate_consumed-IsUsed :
    (p : RotateSessionParams) (row : RefreshTokenProps) (s : AuthSessionProps) (db db' : AuthStore)
    (used : Result AuthError RefreshTokenProps) (x : RotateSessionResult)
    → refresh_by_hash p.next_hash db.refresh_tokens ≡ none
    → refresh_by_hash p.token_hash db.refresh_tokens ≡ some row
    → session_by_id row.session_id db.sessions ≡ some s
    → rotate_consumed p row s db used ≡ ok (some x, db')
    → IsUsed p.token_hash x.identity.session_id db'
unfolding rotate_consumed
rotate_consumed-IsUsed p row s db db' (ok token) x new e f h =
    rotate_session-IsUsed p row s db db' x new e f h
rotate_consumed-IsUsed p row s db db' (err token_reused) x new e f h = cc
rotate_consumed-IsUsed p row s db db' (err _) x new e f h = cc

-- A rotation uses its token up.
rotate-IsUsed :
    (p : RotateSessionParams) (db db' : AuthStore) (x : RotateSessionResult)
    → refresh_by_hash p.next_hash db.refresh_tokens ≡ none
    → rotate p db ≡ (ok x, db')
    → IsUsed p.token_hash x.identity.session_id db'
rotate-IsUsed p db db' x new h =
    let r = rotate-Read p db h in
    rotate_consumed-IsUsed p r.row r.session db db' (consume_refresh p.now r.row) x new r.row_found
      r.session_found r.went_on

consume-used :
    (now : Date) (t : RefreshTokenProps)
    → is_some t.used_at ≡ true
    → consume_refresh now t ≡ err token_reused
unfolding consume_refresh
consume-used now t u = rw u refl

abbrev revoked_in : AuthSessionProps → AuthSessionProps → AuthSessionProps
revoked_in state row = record row {
  revoked_at = state.revoked_at;
  revocation_reason = state.revocation_reason;
}

revoke-ended :
    (q : RotateSessionParams) (s : AuthSessionProps)
    → is_some (revoke q.now refresh_reuse s).revoked_at ≡ true
unfolding revoke
revoke-ended q s = ground arith

revoke-id :
    (q : RotateSessionParams) (s : AuthSessionProps) → (revoke q.now refresh_reuse s).id ≡ s.id
unfolding revoke
revoke-id q s = ground arith

saved-IsDead :
    (q : RotateSessionParams) (id : EntityId) (s : AuthSessionProps) (db : AuthStore)
    → session_by_id id db.sessions ≡ some s
    → IsDead id
        (record db { sessions = save_revocation (revoke q.now refresh_reuse s) db.sessions })
saved-IsDead q id s db f =
    let state = revoke q.now refresh_reuse s in
    let own : (s.id == state.id) ≡ true = rw (revoke-id q s) (==_refl s.id) in
    record {
      row = revoked_in state s;
      found =
          find-update_where (λ a. a.id == id) (λ a. a.id == state.id) (revoked_in state) db.sessions
            s (λ a. refl) f
          ∙ rw own refl;
      ended = revoke-ended q s;
    }

-- A used token is refused, and takes its session down.
rotate-used :
    (q : RotateSessionParams) (session : EntityId) (db : AuthStore)
    → IsUsed q.token_hash session db
    → ((rotate q db).0 ≡ err (auth_error token_reused)) × IsDead session (rotate q db).1
unfolding rotate rotate_body rotate_token settle rotate_consumed
rotate-used q session db u =
    let f : session_by_id u.token.session_id db.sessions ≡ some u.owner =
      ap (λ x. session_by_id x db.sessions) u.belongs ∙ u.owner_found in
    rw u.token_found (
      rw f (
        rw (consume-used q.now u.token u.token_used)
          (refl, saved-IsDead q session u.owner db u.owner_found)))

-- A refresh token serves once. When it was exchanged for a token with a fresh hash, then whatever
-- is done on the tables since, clean-ups included that leave the token and its session there,
-- showing it again is answered with the error of a reused token, and that ends the session:
-- whatever is done on the tables after that, clean-ups included that leave the session and the token
-- that is shown next there, the session is not authenticated any more, and that token, if it is one
-- of the session, is not exchanged, the one that the thief or the owner got meanwhile included.
pub rotate-reused :
    (p q r : RotateSessionParams) (x y : RotateSessionResult) (db db1 db2 db3 db4 : AuthStore)
    (now : Date) (t : RefreshTokenProps)
    → refresh_by_hash p.next_hash db.refresh_tokens ≡ none
    → rotate p db ≡ (ok x, db1)
    → Reach x.identity.session_id p.token_hash db1 db2
    → q.token_hash ≡ p.token_hash
    → Reach x.identity.session_id r.token_hash (rotate q db2).1 db3
    → refresh_by_hash r.token_hash db3.refresh_tokens ≡ some t
    → t.session_id ≡ x.identity.session_id
    → ((rotate q db2).0 ≡ err (auth_error token_reused))
      × (authenticate x.identity now db3 ≡ err (auth_error invalid_session))
      × (rotate r db3 ≢ (ok y, db4))
rotate-reused p q r x y db db1 db2 db3 db4 now t new h since same after e belongs =
    let u = Reach-IsUsed (rotate-IsUsed p db db1 x new h) since in
    let v = subst (λ k. IsUsed k x.identity.session_id db2) (sym same) u in
    let (refused, dead) = rotate-used q x.identity.session_id db2 v in
    let ended = Reach-IsDead dead after in
    (
      refused,
      authenticate-dead x.identity now db3 ended,
      rotate-dead r db3 db4 t y e (subst (λ k. IsDead k db3) (sym belongs) ended),
    )
