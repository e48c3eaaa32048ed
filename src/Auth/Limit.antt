-- ===== src/Auth/Limit.antt =====
-- About the number of sessions that a user has: Auth/Sessions.
use bom_trato_api.Prelude.{
  ℕ, zero, suc, ◌+◌, ◌-◌, ◌≤◌, ◌≡◌, ◌⊎◌, inl, inr, refl, ◌∙◌, Bool, true, not, List, [], ◌∷◌, map,
  Memᴰ, Bool-cases, ==_refl, keep, take, length, update_where, arith, EntityId,
}
use bom_trato_api.Prelude.Result.{ok}
use bom_trato_api.Prelude.Date.{Date}
use bom_trato_api.Auth.Types.{AuthSessionProps, session_limit}
use bom_trato_api.Auth.Session.{sessions_to_revoke}
use bom_trato_api.Auth.Store.{AuthStore}
use bom_trato_api.Auth.Sessions.{
  insert_by_age, by_age, is_active, is_listed, revoked_with, create_session_record, start_session,
  start_federated_session, older,
}

count_insert_by_age :
    (test : AuthSessionProps → Bool) (s : AuthSessionProps) (xs : List AuthSessionProps)
    → length (keep test (insert_by_age s xs)) ≡ length (keep test (s ∷ xs))
unfolding insert_by_age
count_insert_by_age test s [] = refl
count_insert_by_age test s (t ∷ ts) = elim (Bool-cases (older s t)) [
  | inl o ↦ rw o refl
  | inr o ↦ rw o (ground (arith, count_insert_by_age test s ts))
]

count_by_age :
    (test : AuthSessionProps → Bool) (xs : List AuthSessionProps)
    → length (keep test (by_age xs)) ≡ length (keep test xs)
unfolding by_age
count_by_age test [] = refl
count_by_age test (x ∷ xs) =
    count_insert_by_age test x (by_age xs) ∙ ground (arith, count_by_age test xs)

-- A revoked session does not count.
count_after :
    (user : EntityId) (now : Date) (ids : List EntityId) (xs : List AuthSessionProps)
    → length (
        keep
          (is_active user now)
          (update_where (is_listed ids) (revoked_with now session_limit) xs))
      ≡ length (keep (λ s. not (is_listed ids s)) (keep (is_active user now) xs))
unfolding is_active
count_after user now ids [] = refl
count_after user now ids (x ∷ xs) = elim (Bool-cases (is_listed ids x)) [
  | inl l ↦ rw l (ground (arith, count_after user now ids xs))
  | inr l ↦ rw l (ground (arith, count_after user now ids xs))
]

-- When the first k of the list are listed, at most the others are left.
count_unlisted :
    (ids : List EntityId) (k : ℕ) (xs : List AuthSessionProps)
    → ((x : AuthSessionProps) → Memᴰ x (take k xs) → is_listed ids x ≡ true)
    → length (keep (λ s. not (is_listed ids s)) xs) ≤ length xs - k
count_unlisted ids zero [] h = omega arith
count_unlisted ids zero (x ∷ xs) h = ground (arith, count_unlisted ids zero xs (λ y m. elim m [ ]))
count_unlisted ids (suc k) [] h = omega arith
count_unlisted ids (suc k) (x ∷ xs) h =
    let here = h x (Memᴰ.head refl) in
    let rest = count_unlisted ids k xs (λ y m. h y (Memᴰ.tail m)) in rw here (omega (arith, rest))

map_id-Mem :
    (xs : List AuthSessionProps) (x : AuthSessionProps)
    → Memᴰ x xs
    → is_listed (map (λ s. s.id) xs) x ≡ true
map_id-Mem [] x m = elim m [ ]
map_id-Mem (y ∷ ys) x (Memᴰ.head e) = rw e (rw (==_refl y.id) refl)
map_id-Mem (y ∷ ys) x (Memᴰ.tail m) = ground (arith, map_id-Mem ys x m)

length-keep-cons :
    (test : AuthSessionProps → Bool) (x : AuthSessionProps) (xs : List AuthSessionProps)
    → length (keep test (x ∷ xs)) ≤ length (keep test xs) + 1
length-keep-cons test x xs = ground arith

created-active :
    (session : AuthSessionProps) (hash : EntityId) (db : AuthStore)
    → length (
        keep
          (is_active session.user_id session.created_at)
          (create_session_record session hash db).sessions)
      ≤ 10
unfolding create_session_record sessions_to_revoke
created-active session hash db =
    let test = is_active session.user_id session.created_at in
    let active = by_age (keep test db.sessions) in
    let k = length active + 1 - 10 in
    let ids = map (λ (s : AuthSessionProps). s.id) (take k active) in
    let unlisted = λ (s : AuthSessionProps). not (is_listed ids s) in
    let few = count_unlisted ids k active (λ x m. map_id-Mem (take k active) x m) in
    let same = count_by_age unlisted (keep test db.sessions) in
    let left = count_after session.user_id session.created_at ids db.sessions in
    let rest =
      update_where (is_listed ids) (revoked_with session.created_at session_limit) db.sessions in
    let one = length-keep-cons test session rest in omega (arith, few, same, left, one)

-- After a session is started, with a password or with an account of the provider, its user has at
-- most ten sessions that are neither revoked nor expired at that time.
pub start_session-limit :
    (session : AuthSessionProps) (hash password : EntityId) (db : AuthStore) {db' : AuthStore}
    → (start_session
          (record { session = session; expected_password_hash = password; refresh_hash = hash })
          db
        ≡ ok db')
      ⊎ (start_federated_session session hash db ≡ ok db')
    → length (keep (is_active session.user_id session.created_at) db'.sessions) ≤ 10
unfolding start_session start_federated_session
start_session-limit session hash password db {db'} h =
    let e : db' ≡ create_session_record session hash db = elim h [
      | inl a ↦ ground arith
      | inr b ↦ ground arith
    ] in
    rw e (created-active session hash db)
