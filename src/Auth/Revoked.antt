-- ===== src/Auth/Revoked.antt =====
-- About all operations on the tables of Auth/Store in any order: as long as a clean-up leaves them
-- there, a session that is revoked stays so, and a token that is used stays so.
use bom_trato_api.Prelude.{
  none-some, ◌≡◌, refl, sym, ap, ◌∙◌, Bool, true, Option, none, some, List, ◌∷◌, Bool-cases, inl,
  inr, ◌==◌, ==→eq, EntityId, is_some, update_where, find-update_where, if◌then◌else◌, arith,
}
use bom_trato_api.Prelude.Result.{ok-eq, Result, ok, err, or_throw, rethrow, >>=-eq_ok}
use bom_trato_api.Prelude.Text.{Text}
use bom_trato_api.Prelude.Date.{Date}
use mathlib.Core.Path.{subst}
use bom_trato_api.Auth.Types.{
  AuthError, token_reused, auth_error, user_error, SessionRevocationReason, refresh_reuse,
  AuthSessionProps, RefreshTokenProps, AuthIdentityProps, AuthActionPurpose, reset_password,
  verify_email, UserProps,
}
use bom_trato_api.Auth.User
use bom_trato_api.Auth.User.{change_password, assert_can_authenticate}
use bom_trato_api.Auth.Session.{revoke, renew, consume_refresh, consume_token}
use bom_trato_api.Auth.Store.{AuthStore, session_by_id, refresh_by_hash, action_by_hash, user_by_id}
use bom_trato_api.Auth.Sessions.{
  create_session_record, StartSessionParams, start_session, start_federated_session,
  SessionIdentity, save_revocation, revoke_row, revoke_session, revoke_owner, revoke_located,
  revoke_by_token, revoke_all,
}
use bom_trato_api.Auth.Rotation.{
  RotateSessionParams, RotateSessionResult, Rotated, rotated, rotate_session, rotate_consumed,
  rotate_token, rotate_body, settle, rotate,
}
use bom_trato_api.Auth.Actions.{
  IssueActionParams, ConsumeActionParams, issue_to, issue_located, issue_action, apply_action,
  consume_action,
}
use bom_trato_api.Auth.Identity.{link_identity}
use bom_trato_api.Auth.Maintenance.{AuthCleanupParams, cleanup_auth}

-- A session of the table is still there, belongs to the same user, and is revoked if it was.
pub record KeepsSession (id : EntityId) (rows rows' : List AuthSessionProps) : Type 0 where
  pub kept_session :
      (s : AuthSessionProps)
      → session_by_id id rows ≡ some s
      → (s' : AuthSessionProps) × (session_by_id id rows' ≡ some s')
        × (s'.user_id ≡ s.user_id)
        × (is_some s.revoked_at ≡ true → is_some s'.revoked_at ≡ true)

-- A token of the table is still there, belongs to the same session, and is used if it was.
pub record KeepsToken (hash : EntityId) (rows rows' : List RefreshTokenProps) : Type 0 where
  pub kept_token :
      (t : RefreshTokenProps)
      → refresh_by_hash hash rows ≡ some t
      → (t' : RefreshTokenProps) × (refresh_by_hash hash rows' ≡ some t')
        × (t'.session_id ≡ t.session_id)
        × (is_some t.used_at ≡ true → is_some t'.used_at ≡ true)

pub record Keeps (session hash : EntityId) (db db' : AuthStore) : Type 0 where
  pub keeps_session : KeepsSession session db.sessions db'.sessions
  pub keeps_token : KeepsToken hash db.refresh_tokens db'.refresh_tokens

KeepsSession-refl : (id : EntityId) (rows : List AuthSessionProps) → KeepsSession id rows rows
KeepsSession-refl id rows = record { kept_session = λ s h. (s, h, refl, λ r. r) }

KeepsToken-refl : (hash : EntityId) (rows : List RefreshTokenProps) → KeepsToken hash rows rows
KeepsToken-refl hash rows = record { kept_token = λ t h. (t, h, refl, λ r. r) }

pub Keeps-refl : (session hash : EntityId) (db : AuthStore) → Keeps session hash db db
Keeps-refl session hash db = record {
  keeps_session = KeepsSession-refl session db.sessions;
  keeps_token = KeepsToken-refl hash db.refresh_tokens;
}

pub Keeps-trans :
    {session hash : EntityId} {a b c : AuthStore}
    → Keeps session hash a b
    → Keeps session hash b c
    → Keeps session hash a c
Keeps-trans k l = record {
  keeps_session = record {
    kept_session = λ s h.
        let (s', e, u, r) = k.keeps_session.kept_session s h in
        let (s'', e', u', r') = l.keeps_session.kept_session s' e in
        (s'', e', u' ∙ u, λ x. r' (r x));
  };
  keeps_token = record {
    kept_token = λ t h.
        let (t', e, u, r) = k.keeps_token.kept_token t h in
        let (t'', e', u', r') = l.keeps_token.kept_token t' e in (t'', e', u' ∙ u, λ x. r' (r x));
  };
}

update-KeepsSession :
    (id : EntityId) (test : AuthSessionProps → Bool) (change : AuthSessionProps → AuthSessionProps)
    (rows : List AuthSessionProps)
    → ((s : AuthSessionProps) → (change s).id ≡ s.id)
    → ((s : AuthSessionProps) → (change s).user_id ≡ s.user_id)
    → ((s : AuthSessionProps) → is_some s.revoked_at ≡ true → is_some (change s).revoked_at ≡ true)
    → KeepsSession id rows (update_where test change rows)
update-KeepsSession id test change rows same owner dead = record {
  kept_session = λ s h. (
    if test s then change s else s,
    find-update_where (λ a. a.id == id) test change rows s (λ a. ap (λ x. x == id) (same a)) h,
    ground (arith, owner s),
    λ r. let d = dead s r in ground arith,
  );
}

update-KeepsToken :
    (hash : EntityId) (test : RefreshTokenProps → Bool) (now : Date) (rows : List RefreshTokenProps)
    → KeepsToken hash rows (update_where test (λ t. record t { used_at = some now }) rows)
update-KeepsToken hash test now rows = record {
  kept_token = λ t h. (
    if test t then (record t { used_at = some now }) else t,
    find-update_where (λ a. a.token_hash == hash) test (λ a. record a { used_at = some now }) rows t
        (λ a. refl) h,
    ground arith,
    λ r. ground arith,
  );
}

-- A new row with a fresh key in front of the table.
cons-KeepsSession :
    (id : EntityId) (new : AuthSessionProps) (old rows : List AuthSessionProps)
    → session_by_id new.id old ≡ none
    → KeepsSession id old rows
    → KeepsSession id old (new ∷ rows)
cons-KeepsSession id new old rows fresh k = record {
  kept_session = λ s h.
      let (s', e, u, r) = k.kept_session s h in
      elim (Bool-cases (new.id == id)) [
        | inl same ↦
            let i : new.id ≡ id = ==→eq new.id id same in
            absurd (none-some (sym fresh ∙ ap (λ x. session_by_id x old) i ∙ h))
        | inr other ↦ (s', rw other e, u, r)
      ];
}

cons-KeepsToken :
    (hash : EntityId) (new : RefreshTokenProps) (old rows : List RefreshTokenProps)
    → refresh_by_hash new.token_hash old ≡ none
    → KeepsToken hash old rows
    → KeepsToken hash old (new ∷ rows)
cons-KeepsToken hash new old rows fresh k = record {
  kept_token = λ t h.
      let (t', e, u, r) = k.kept_token t h in
      elim (Bool-cases (new.token_hash == hash)) [
        | inl same ↦
            let i : new.token_hash ≡ hash = ==→eq new.token_hash hash same in
            absurd (none-some (sym fresh ∙ ap (λ x. refresh_by_hash x old) i ∙ h))
        | inr other ↦ (t', rw other e, u, r)
      ];
}

-- An operation on the tables, with an eye on one session and one token. A new session has a fresh
-- identifier and a new token a fresh hash, as both are unique in their tables, and a clean-up leaves
-- the session and the token as they are in their tables.
pub data Step (id hash : EntityId) (db db' : AuthStore) : Type 0 where
  started :
      (p : StartSessionParams)
      → session_by_id p.session.id db.sessions ≡ none
      → refresh_by_hash p.refresh_hash db.refresh_tokens ≡ none
      → start_session p db ≡ ok db'
      → Step id hash db db'
  started_federated :
      (session : AuthSessionProps) (fresh : EntityId)
      → session_by_id session.id db.sessions ≡ none
      → refresh_by_hash fresh db.refresh_tokens ≡ none
      → start_federated_session session fresh db ≡ ok db'
      → Step id hash db db'
  was_rotated :
      (p : RotateSessionParams)
      → refresh_by_hash p.next_hash db.refresh_tokens ≡ none
      → (rotate p db).1 ≡ db'
      → Step id hash db db'
  revoked :
      (identity : SessionIdentity) (now : Date) (reason : SessionRevocationReason)
      → revoke_session identity now reason db ≡ db'
      → Step id hash db db'
  revoked_by_token :
      (shown : EntityId) (now : Date) (reason : SessionRevocationReason)
      → revoke_by_token shown now reason db ≡ db'
      → Step id hash db db'
  revoked_all : (user : EntityId) (now : Date) → revoke_all user now db ≡ db' → Step id hash db db'
  issued :
      (p : IssueActionParams) (clock : Date)
      → (issue_action p clock db).1 ≡ db'
      → Step id hash db db'
  consumed :
      (p : ConsumeActionParams) (email : Text)
      → consume_action p db ≡ ok (email, db')
      → Step id hash db db'
  linked : (identity : AuthIdentityProps) → link_identity identity db ≡ ok db' → Step id hash db db'
  cleaned :
      (p : AuthCleanupParams)
      → session_by_id id db'.sessions ≡ session_by_id id db.sessions
      → refresh_by_hash hash db'.refresh_tokens ≡ refresh_by_hash hash db.refresh_tokens
      → cleanup_auth p db ≡ db'
      → Step id hash db db'

pub data Reach (id hash : EntityId) (db : AuthStore) : AuthStore → Type 0 where
  here : Reach id hash db db
  next :
      {db' db'' : AuthStore} → Reach id hash db db' → Step id hash db' db'' → Reach id hash db db''

module _ (id hash : EntityId) where
  create-Keeps :
      (session : AuthSessionProps) (refresh_hash : EntityId) (db : AuthStore)
      → session_by_id session.id db.sessions ≡ none
      → refresh_by_hash refresh_hash db.refresh_tokens ≡ none
      → Keeps id hash db (create_session_record session refresh_hash db)
  unfolding create_session_record
  create-Keeps session refresh_hash db fresh new = record {
    keeps_session =
        cons-KeepsSession id session db.sessions _ fresh
          (update-KeepsSession id _ _ db.sessions (λ s. refl) (λ s. refl) (λ s r. refl));
    keeps_token =
        cons-KeepsToken hash _ db.refresh_tokens db.refresh_tokens new (KeepsToken-refl hash _);
  }

  saved-KeepsSession :
      (now : Date) (reason : SessionRevocationReason) (row : AuthSessionProps)
      (rows : List AuthSessionProps)
      → KeepsSession id rows (save_revocation (revoke now reason row) rows)
  unfolding revoke
  saved-KeepsSession now reason row rows =
      update-KeepsSession id _ _ rows (λ s. refl) (λ s. refl) (λ s r. ground arith)

  revoke_row-Keeps :
      (now : Date) (reason : SessionRevocationReason) (row : Option AuthSessionProps)
      (db : AuthStore)
      → Keeps id hash db (revoke_row now reason row db)
  unfolding revoke_row
  revoke_row-Keeps now reason none db = Keeps-refl id hash db
  revoke_row-Keeps now reason (some row) db = record {
    keeps_session = saved-KeepsSession now reason row db.sessions;
    keeps_token = KeepsToken-refl hash db.refresh_tokens;
  }

  revoke_session-Keeps :
      (identity : SessionIdentity) (now : Date) (reason : SessionRevocationReason) (db : AuthStore)
      → Keeps id hash db (revoke_session identity now reason db)
  unfolding revoke_session
  revoke_session-Keeps identity now reason db = revoke_row-Keeps now reason _ db

  revoke_owner-Keeps :
      (session : EntityId) (now : Date) (reason : SessionRevocationReason)
      (row : Option AuthSessionProps) (db : AuthStore)
      → Keeps id hash db (revoke_owner session now reason row db)
  unfolding revoke_owner
  revoke_owner-Keeps session now reason none db = Keeps-refl id hash db
  revoke_owner-Keeps session now reason (some row) db = revoke_session-Keeps _ now reason db

  revoke_located-Keeps :
      (now : Date) (reason : SessionRevocationReason) (row : Option RefreshTokenProps)
      (db : AuthStore)
      → Keeps id hash db (revoke_located now reason row db)
  unfolding revoke_located
  revoke_located-Keeps now reason none db = Keeps-refl id hash db
  revoke_located-Keeps now reason (some row) db =
      revoke_owner-Keeps row.session_id now reason (session_by_id row.session_id db.sessions) db

  revoke_all-Keeps :
      (user : EntityId) (now : Date) (db : AuthStore) → Keeps id hash db (revoke_all user now db)
  unfolding revoke_all
  revoke_all-Keeps user now db = record {
    keeps_session = update-KeepsSession id _ _ db.sessions (λ s. refl) (λ s. refl) (λ s r. refl);
    keeps_token = KeepsToken-refl hash db.refresh_tokens;
  }

  rotated-Keeps :
      (p : RotateSessionParams) (row : RefreshTokenProps) (state : AuthSessionProps)
      (db : AuthStore)
      → refresh_by_hash p.next_hash db.refresh_tokens ≡ none
      → Keeps id hash db (rotated p row state db)
  unfolding rotated
  rotated-Keeps p row state db new = record {
    keeps_session = update-KeepsSession id _ _ db.sessions (λ s. refl) (λ s. refl) (λ s r. r);
    keeps_token =
        cons-KeepsToken hash _ db.refresh_tokens _ new
          (update-KeepsToken hash _ p.now db.refresh_tokens);
  }

  -- The same tables but for users, mail tokens and identities.
  same-Keeps :
      (db db' : AuthStore)
      → db'.sessions ≡ db.sessions
      → db'.refresh_tokens ≡ db.refresh_tokens
      → Keeps id hash db db'
  same-Keeps db db' s t = record {
    keeps_session = rw s (KeepsSession-refl id db.sessions);
    keeps_token = rw t (KeepsToken-refl hash db.refresh_tokens);
  }

  apply_action-Keeps :
      (purpose : AuthActionPurpose) (now : Date) (new : Option EntityId) (user : UserProps)
      (db : AuthStore) {db' : AuthStore}
      → apply_action purpose now new user db ≡ ok db'
      → Keeps id hash db db'
  unfolding apply_action
  apply_action-Keeps verify_email now new user db {db'} h =
      let (state, e, k) = >>=-eq_ok (rethrow user_error (User.verify_email now user)) _ h in
      subst (λ d. Keeps id hash db d) (ok-eq k) (same-Keeps db _ refl refl)
  apply_action-Keeps reset_password now none user db h = cc
  apply_action-Keeps reset_password now (some new) user db {db'} h =
      let (state, e, k) = >>=-eq_ok (rethrow user_error (change_password new user)) _ h in
      subst (λ d. Keeps id hash db d) (ok-eq k)
        (record {
          keeps_session =
              update-KeepsSession id _ _ db.sessions (λ s. refl) (λ s. refl) (λ s r. refl);
          keeps_token = KeepsToken-refl hash db.refresh_tokens;
        })

  consume_action-Keeps :
      (p : ConsumeActionParams) (email : Text) (db : AuthStore) {db' : AuthStore}
      → consume_action p db ≡ ok (email, db')
      → Keeps id hash db db'
  unfolding consume_action
  consume_action-Keeps p email db {db'} h =
      let (row, _, h1) =
        >>=-eq_ok (or_throw (action_by_hash p.token_hash db.action_tokens) _) _ h in
      let (user, _, h2) = >>=-eq_ok (or_throw (user_by_id row.user_id db.users) _) _ h1 in
      let (used, _, h3) = >>=-eq_ok (rethrow auth_error (consume_token p.purpose p.now row)) _ h2 in
      let (mid, e, h4) = >>=-eq_ok (apply_action p.purpose p.now p.password_hash user db) _ h3 in
      Keeps-trans (apply_action-Keeps p.purpose p.now p.password_hash user db e)
        (subst (λ d. Keeps id hash mid d) (ap (λ x. x.1) (ok-eq h4)) (same-Keeps mid _ refl refl))

  issue_to-Keeps :
      (p : IssueActionParams) (clock : Date) (row : Option UserProps) (db : AuthStore)
      → Keeps id hash db (issue_to p clock row db).1
  unfolding issue_to
  issue_to-Keeps p clock none db = Keeps-refl id hash db
  issue_to-Keeps p clock (some row) db =
      same-Keeps db (issue_to p clock (some row) db).1 (ground arith) (ground arith)

  issue_located-Keeps :
      (p : IssueActionParams) (clock : Date) (row : Option UserProps) (db : AuthStore)
      → Keeps id hash db (issue_located p clock row db).1
  unfolding issue_located
  issue_located-Keeps p clock none db = Keeps-refl id hash db
  issue_located-Keeps p clock (some row) db = issue_to-Keeps p clock _ db

  rotate_session-Keeps :
      (p : RotateSessionParams) (row : RefreshTokenProps) (session : AuthSessionProps)
      (db : AuthStore) (x : Option RotateSessionResult × AuthStore)
      → refresh_by_hash p.next_hash db.refresh_tokens ≡ none
      → rotate_session p row session db ≡ ok x
      → Keeps id hash db x.1
  unfolding rotate_session
  rotate_session-Keeps p row session db x new h =
      let (user, _, h1) = >>=-eq_ok (or_throw (user_by_id session.user_id db.users) _) _ h in
      let (_, _, h2) = >>=-eq_ok (rethrow user_error (assert_can_authenticate user)) _ h1 in
      let (state, _, h3) =
        >>=-eq_ok (rethrow auth_error (renew p.now p.idle_seconds session)) _ h2 in
      subst (λ d. Keeps id hash db d) (ap (λ y. y.1) (ok-eq h3)) (rotated-Keeps p row state db new)

  rotate_consumed-Keeps :
      (p : RotateSessionParams) (row : RefreshTokenProps) (session : AuthSessionProps)
      (db : AuthStore) (used : Result AuthError RefreshTokenProps)
      (x : Option RotateSessionResult × AuthStore)
      → refresh_by_hash p.next_hash db.refresh_tokens ≡ none
      → rotate_consumed p row session db used ≡ ok x
      → Keeps id hash db x.1
  unfolding rotate_consumed
  rotate_consumed-Keeps p row session db (ok token) x new h =
      rotate_session-Keeps p row session db x new h
  rotate_consumed-Keeps p row session db (err token_reused) x new h =
      subst (λ d. Keeps id hash db d) (ap (λ y. y.1) (ok-eq h))
        (record {
          keeps_session = saved-KeepsSession p.now refresh_reuse session db.sessions;
          keeps_token = KeepsToken-refl hash db.refresh_tokens;
        })
  rotate_consumed-Keeps p row session db (err _) x new h = cc

  settle-Keeps :
      (db : AuthStore) (r : Rotated)
      → ((x : Option RotateSessionResult × AuthStore) → r ≡ ok x → Keeps id hash db x.1)
      → Keeps id hash db (settle db r).1
  unfolding settle
  settle-Keeps db (ok (some r, db')) h = h (some r, db') refl
  settle-Keeps db (ok (none, db')) h = h (none, db') refl
  settle-Keeps db (err e) h = Keeps-refl id hash db

  rotate-Keeps :
      (p : RotateSessionParams) (db : AuthStore)
      → refresh_by_hash p.next_hash db.refresh_tokens ≡ none
      → Keeps id hash db (rotate p db).1
  unfolding rotate rotate_body rotate_token
  rotate-Keeps p db new = settle-Keeps db (rotate_body p db) (λ x h.
      let (row, _, h1) =
        >>=-eq_ok (or_throw (refresh_by_hash p.token_hash db.refresh_tokens) _) _ h in
      let (session, _, h2) =
        >>=-eq_ok (or_throw (session_by_id row.session_id db.sessions) _) _ h1 in
      rotate_consumed-Keeps p row session db (consume_refresh p.now row) x new h2)

  create-eq-Keeps :
      (session : AuthSessionProps) (refresh_hash : EntityId) (db db' : AuthStore)
      → session_by_id session.id db.sessions ≡ none
      → refresh_by_hash refresh_hash db.refresh_tokens ≡ none
      → create_session_record session refresh_hash db ≡ db'
      → Keeps id hash db db'
  create-eq-Keeps session refresh_hash db db' fresh new e =
      subst (λ d. Keeps id hash db d) e (create-Keeps session refresh_hash db fresh new)

  pub Step-Keeps : {db db' : AuthStore} → Step id hash db db' → Keeps id hash db db'
  unfolding start_session start_federated_session revoke_by_token issue_action link_identity
  Step-Keeps {db} {db'} (started p fresh new h) =
      create-eq-Keeps p.session p.refresh_hash db db' fresh new (ground arith)
  Step-Keeps {db} {db'} (started_federated session h fresh new e) =
      create-eq-Keeps session h db db' fresh new (ground arith)
  Step-Keeps {db} (was_rotated p new e) = subst (λ d. Keeps id hash db d) e (rotate-Keeps p db new)
  Step-Keeps {db} (revoked identity now reason e) =
      subst (λ d. Keeps id hash db d) e (revoke_session-Keeps identity now reason db)
  Step-Keeps {db} (revoked_by_token h now reason e) =
      subst (λ d. Keeps id hash db d) e (revoke_located-Keeps now reason _ db)
  Step-Keeps {db} (revoked_all user now e) =
      subst (λ d. Keeps id hash db d) e (revoke_all-Keeps user now db)
  Step-Keeps {db} (issued p clock e) =
      subst (λ d. Keeps id hash db d) e (issue_located-Keeps p clock _ db)
  Step-Keeps {db} (consumed p email h) = consume_action-Keeps p email db h
  Step-Keeps {db} {db'} (linked identity h) = same-Keeps db db' (ground arith) (ground arith)
  Step-Keeps (cleaned p same_session same_token e) = record {
    keeps_session = record { kept_session = λ s h. (s, same_session ∙ h, refl, λ r. r) };
    keeps_token = record { kept_token = λ t h. (t, same_token ∙ h, refl, λ r. r) };
  }

  pub Reach-Keeps : {db db' : AuthStore} → Reach id hash db db' → Keeps id hash db db'
  Reach-Keeps {db} here = Keeps-refl id hash db
  Reach-Keeps (next r s) = Keeps-trans (Reach-Keeps r) (Step-Keeps s)
