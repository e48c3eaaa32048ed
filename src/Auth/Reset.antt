-- ===== src/Auth/Reset.antt =====
-- About `consume_action` in Auth/Actions: a token that was sent by mail serves once, and a new
-- password ends the sessions.
use mathlib.Core.Path.{subst}
use bom_trato_api.Prelude.{
  some-eq, ◌≡◌, refl, sym, ap, ◌∙◌, true, Option, none, some, List, Memᴰ, inl, inr, Bool-cases,
  Option-cases, ◌==◌, ==_refl, ==→eq, EntityId, is_some, find-Mem, update_where, update_where-Mem,
  find-update_where, arith,
}
use bom_trato_api.Prelude.Result.{
  ok-eq, or_throw-some, ok, err, or_throw, rethrow, >>=-eq_ok, rethrow-eq_ok,
}
use bom_trato_api.Prelude.Text.{Text}
use bom_trato_api.Prelude.Date.{Date}
use bom_trato_api.Auth.Types.{
  invalid_token, auth_error, user_error, UserProps, AuthSessionProps, AuthActionPurpose,
  verify_email, reset_password, password_reset, ActionTokenProps,
}
use bom_trato_api.Auth.User
use bom_trato_api.Auth.User.{change_password}
use bom_trato_api.Auth.Session.{consume_token}
use bom_trato_api.Auth.Store.{AuthStore, user_by_id, action_by_hash}
use bom_trato_api.Auth.Sessions.{is_open_of, revoked_with}
use bom_trato_api.Auth.Actions.{
  ConsumeActionParams, is_unused, mark_used, apply_action, consume_action,
}

-- What a call that succeeds has read and done.
record Consumed (p : ConsumeActionParams) (email : Text) (db db' : AuthStore) : Type 0 where
  pub row : ActionTokenProps
  pub user : UserProps
  pub used : ActionTokenProps
  pub middle : AuthStore
  pub row_found : action_by_hash p.token_hash db.action_tokens ≡ some row
  pub user_found : user_by_id row.user_id db.users ≡ some user
  pub was_good : consume_token p.purpose p.now row ≡ ok used
  pub applied : apply_action p.purpose p.now p.password_hash user db ≡ ok middle
  pub marked :
      db' ≡ record middle { action_tokens = mark_used user.id p.purpose p.now middle.action_tokens }

abbrev marked_at : ConsumeActionParams → ActionTokenProps → ActionTokenProps
marked_at p t = record t { used_at = some p.now }

consume-Consumed :
    (p : ConsumeActionParams) (email : Text) (db : AuthStore) {db' : AuthStore}
    → consume_action p db ≡ ok (email, db')
    → Consumed p email db db'
unfolding consume_action
consume-Consumed p email db {db'} h =
    let (row, e1, h1) = >>=-eq_ok (or_throw (action_by_hash p.token_hash db.action_tokens) _) _ h in
    let (user, e2, h2) = >>=-eq_ok (or_throw (user_by_id row.user_id db.users) _) _ h1 in
    let (used, e3, h3) = >>=-eq_ok (rethrow auth_error (consume_token p.purpose p.now row)) _ h2 in
    let (mid, e4, h4) = >>=-eq_ok (apply_action p.purpose p.now p.password_hash user db) _ h3 in
    record {
      row = row;
      user = user;
      used = used;
      middle = mid;
      row_found = or_throw-some _ _ e1;
      user_found = or_throw-some _ _ e2;
      was_good = rethrow-eq_ok auth_error (consume_token p.purpose p.now row) e3;
      applied = e4;
      marked = sym (ap (λ x. x.1) (ok-eq h4));
    }

-- What the token was good for leaves the tokens alone.
apply-tokens :
    (purpose : AuthActionPurpose) (now : Date) (new : Option EntityId) (user : UserProps)
    (db : AuthStore) {db' : AuthStore}
    → apply_action purpose now new user db ≡ ok db'
    → db'.action_tokens ≡ db.action_tokens
unfolding apply_action
apply-tokens verify_email now new user db h =
    let (state, e, k) = >>=-eq_ok (rethrow user_error (User.verify_email now user)) _ h in
    sym (ap (λ (x : AuthStore). x.action_tokens) (ok-eq k))
apply-tokens reset_password now none user db h = cc
apply-tokens reset_password now (some new) user db h =
    let (state, e, k) = >>=-eq_ok (rethrow user_error (change_password new user)) _ h in
    sym (ap (λ (x : AuthStore). x.action_tokens) (ok-eq k))

good-is_unused :
    (purpose : AuthActionPurpose) (now : Date) (row : ActionTokenProps) (user : EntityId)
    {used : ActionTokenProps}
    → consume_token purpose now row ≡ ok used
    → user ≡ row.user_id
    → is_unused user purpose row ≡ true
unfolding consume_token
good-is_unused purpose now row user h e = rw e (ground (arith, ==_refl row.user_id))

used-refused :
    (purpose : AuthActionPurpose) (now : Date) (row : ActionTokenProps)
    → is_some row.used_at ≡ true
    → consume_token purpose now row ≡ err invalid_token
unfolding consume_token
used-refused purpose now row u = ground arith

refused-action :
    (q : ConsumeActionParams) (db : AuthStore) (row : ActionTokenProps)
    → action_by_hash q.token_hash db.action_tokens ≡ some row
    → is_some row.used_at ≡ true
    → consume_action q db ≡ err (auth_error invalid_token)
unfolding consume_action
refused-action q db row e u = rw e (elim (Option-cases (user_by_id row.user_id db.users)) [
  | inl none_there ↦ rw none_there refl
  | inr (user, f) ↦ rw f (rw (used-refused q.purpose q.now row u) refl)
])

-- A token that was sent by mail serves once: after it was used, for whatever purpose, it is
-- refused, for whatever purpose and at whatever time it is shown again.
pub consume_action-once :
    (p q : ConsumeActionParams) (email : Text) (db : AuthStore) {db' : AuthStore}
    → consume_action p db ≡ ok (email, db')
    → q.token_hash ≡ p.token_hash
    → consume_action q db' ≡ err (auth_error invalid_token)
consume_action-once p q email db {db'} h same =
    let c = consume-Consumed p email db h in
    let mine =
      ==→eq c.user.id c.row.user_id
        (find-Mem (λ u. u.id == c.row.user_id) db.users c.user c.user_found).1 in
    let fit = good-is_unused p.purpose p.now c.row c.user.id c.was_good mine in
    let tokens = apply-tokens p.purpose p.now p.password_hash c.user db c.applied in
    let found : action_by_hash p.token_hash c.middle.action_tokens ≡ some c.row =
      ap (action_by_hash p.token_hash) tokens ∙ c.row_found in
    let after : action_by_hash p.token_hash db'.action_tokens ≡ some (marked_at p c.row) =
      ap (λ (x : AuthStore). action_by_hash p.token_hash x.action_tokens) c.marked
      ∙ find-update_where (λ t. t.token_hash == p.token_hash) (is_unused c.user.id p.purpose)
          (marked_at p) c.middle.action_tokens c.row (λ t. refl) found
      ∙ rw fit refl in
    refused-action q db' (marked_at p c.row)
      (subst (λ k. action_by_hash k db'.action_tokens ≡ some (marked_at p c.row)) (sym same) after)
      refl

user-kept :
    (hash : EntityId) (user : UserProps) {state : UserProps}
    → change_password hash user ≡ ok state
    → state.id ≡ user.id
unfolding change_password
user-kept hash user h = ground arith

closed-revoked :
    (user : EntityId) (now : Date) (rows : List AuthSessionProps) (s : AuthSessionProps)
    → Memᴰ s (update_where (is_open_of user) (revoked_with now password_reset) rows)
    → s.user_id ≡ user
    → is_some s.revoked_at ≡ true
closed-revoked user now rows s m own =
    let (x, _, e) = update_where-Mem (is_open_of user) (revoked_with now password_reset) rows m in
    elim (Bool-cases (is_open_of user x)) [
      | inl o ↦ rw e (rw o refl)
      | inr o ↦
          let k : s ≡ x = e ∙ rw o refl in
          let u : x.user_id ≡ user = ap (λ (y : AuthSessionProps). y.user_id) (sym k) ∙ own in
          rw k (ground (arith, ==_refl user))
    ]

-- The sessions after a new password.
apply-reset :
    (now : Date) (new : Option EntityId) (user : UserProps) (db : AuthStore) {db' : AuthStore}
    → apply_action reset_password now new user db ≡ ok db'
    → db'.sessions ≡ update_where (is_open_of user.id) (revoked_with now password_reset) db.sessions
unfolding apply_action
apply-reset now none user db h = cc
apply-reset now (some new) user db h =
    let (state, e, k) = >>=-eq_ok (rethrow user_error (change_password new user)) _ h in
    let i = user-kept new user (rethrow-eq_ok user_error (change_password new user) e) in
    sym (ap (λ (x : AuthStore). x.sessions) (ok-eq k))
    ∙ ap (λ x. update_where (is_open_of x) (revoked_with now password_reset) db.sessions) i

-- A new password that is set through a token ends every session of the owner of the token: all of
-- them are revoked afterwards.
pub reset-ends_sessions :
    (p : ConsumeActionParams) (email : Text) (db : AuthStore) {db' : AuthStore}
    (t : ActionTokenProps) (s : AuthSessionProps)
    → p.purpose ≡ reset_password
    → action_by_hash p.token_hash db.action_tokens ≡ some t
    → consume_action p db ≡ ok (email, db')
    → Memᴰ s db'.sessions
    → s.user_id ≡ t.user_id
    → is_some s.revoked_at ≡ true
reset-ends_sessions p email db {db'} t s reset found h m own =
    let c = consume-Consumed p email db h in
    let i : t ≡ c.row = some-eq (sym found ∙ c.row_found) in
    let mine =
      ==→eq c.user.id c.row.user_id
        (find-Mem (λ u. u.id == c.row.user_id) db.users c.user c.user_found).1 in
    let k =
      apply-reset p.now p.password_hash c.user db (
        subst (λ x. apply_action x p.now p.password_hash c.user db ≡ ok c.middle) reset
          c.applied) in
    let rows : db'.sessions
        ≡ update_where (is_open_of c.user.id) (revoked_with p.now password_reset) db.sessions =
      ap (λ (x : AuthStore). x.sessions) c.marked ∙ k in
    closed-revoked c.user.id p.now db.sessions s
      (subst (λ (x : List AuthSessionProps). Memᴰ s x) rows m)
      (own ∙ ap (λ (x : ActionTokenProps). x.user_id) i ∙ sym mine)
