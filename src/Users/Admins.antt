-- ===== src/Users/Admins.antt =====
-- There is always an administrator (internal/services/user_service.go).
use loxilb_oam.Prelude.{
  ℕ, ◌+◌, ◌≤◌, ◌<◌, ◌≡◌, ◌⊎◌, inl, inr, refl, sym, ap, ◌∙◌, Bool, true, false, ◌||◌, Option, none,
  some, is_some, List, [], ◌∷◌, Bytes, ok, arith, Bool-cases, Option-cases,
}
use loxilb_oam.Users.{
  User, Db, World, M, ◌>>◌, statement, query, exec, find_user, count_users, update_users,
  delete_users,
}
use loxilb_oam.Users.Effects.{exec-db, transaction-keeps, seq_ok, exec_ok}
use loxilb_oam.Users.Accounts.{
  has_id, is_admin, protect_last_admin, without_user, delete_user, Updates, changed,
  update_user_row, is_admin_role, protect_if, revoke_if, update_tx, store_changes,
}

abbrev pub admins : List User → ℕ
admins = count_users is_admin

unkeyed :
    (id : ℕ) (us : List User) → count_users (has_id id) us ≡ 0 → delete_users (has_id id) us ≡ us
unfolding count_users delete_users
unkeyed id [] h = refl
unkeyed id (u ∷ us) h = ground (arith, unkeyed id us)

delete_le :
    (id : ℕ) (us : List User)
    → admins us ≤ admins (delete_users (has_id id) us) + count_users (has_id id) us
unfolding count_users delete_users
delete_le id [] = omega arith
delete_le id (u ∷ us) = ground (arith, delete_le id us)

delete_other :
    (id : ℕ) (us : List User) (u : User)
    → find_user (has_id id) us ≡ some u
    → is_admin u ≡ false
    → count_users (has_id id) us ≤ 1
    → admins (delete_users (has_id id) us) ≡ admins us
unfolding count_users delete_users find_user
delete_other id [] u f a c = absurd (ground arith)
delete_other id (v ∷ us) u f a c = ground (arith, delete_other id us u, unkeyed id us)

update_le :
    (id : ℕ) (c : Updates) (us : List User)
    → admins us ≤ admins (update_users (has_id id) (changed c) us) + count_users (has_id id) us
unfolding count_users update_users
update_le id c [] = omega arith
update_le id c (u ∷ us) = ground (arith, update_le id c us)

-- Of the users that the update touches, none loses the role: the role is left, or it is given.
update_keeps :
    (id : ℕ) (c : Updates) (us : List User)
    → (c.role ≡ none) ⊎ (is_admin_role c.role ≡ true)
    → admins us ≤ admins (update_users (has_id id) (changed c) us)
unfolding count_users update_users
update_keeps id c [] h = omega arith
update_keeps id c (u ∷ us) (inl h) = ground (arith, update_keeps id c us (inl h))
update_keeps id c (u ∷ us) (inr h) = ground (arith, update_keeps id c us (inr h))

unkeyed_update :
    (id : ℕ) (c : Updates) (us : List User)
    → count_users (has_id id) us ≡ 0
    → update_users (has_id id) (changed c) us ≡ us
unfolding count_users update_users
unkeyed_update id c [] h = refl
unkeyed_update id c (u ∷ us) h = ground (arith, unkeyed_update id c us)

update_other :
    (id : ℕ) (c : Updates) (us : List User) (u : User)
    → find_user (has_id id) us ≡ some u
    → is_admin u ≡ false
    → count_users (has_id id) us ≤ 1
    → admins us ≤ admins (update_users (has_id id) (changed c) us)
unfolding count_users update_users find_user
update_other id c [] u f a k = absurd (ground arith)
update_other id c (v ∷ us) u f a k = ground (arith, update_other id c us u, unkeyed_update id c us)

-- What the guard lets through, and that it writes nothing.
protected :
    (id : ℕ) (b : Bool) (w : World)
    → (protect_last_admin id b w).0 ≡ ok tt
    → (u : User) × (find_user (has_id id) w.db.users ≡ some u)
      × ((is_admin u ≡ false) ⊎ (b ≡ true) ⊎ (1 < admins w.db.users))
unfolding protect_last_admin statement query
protected id b w h = elim (Option-cases (find_user (has_id id) w.db.users)) [
  | inl n ↦ absurd (ground arith)
  | inr (u, e) ↦ (u, e, ground arith)
]

protect_same : (id : ℕ) (b : Bool) (w : World) → (protect_last_admin id b w).1.db ≡ w.db
unfolding protect_last_admin statement query
protect_same id b w = ground arith

abbrev delete_body : ℕ → M (Unit {0})
delete_body id = do protect_last_admin id false; exec (λ db. ok (without_user id db))

delete_body_ok :
    (id : ℕ) (w : World)
    → (delete_body id w).0 ≡ ok tt
    → ((protect_last_admin id false w).0 ≡ ok tt) × ((delete_body id w).1.db ≡ without_user id w.db)
unfolding exec statement
delete_body_ok id w h = let s = protect_same id false w in ground arith

deleted :
    (id : ℕ) (w : World)
    → (delete_body id w).0 ≡ ok tt
    → count_users (has_id id) w.db.users ≤ 1
    → 0 < admins w.db.users
    → 0 < admins (delete_body id w).1.db.users
deleted id w h k p =
    let (guarded, same) = delete_body_ok id w h in
    let (u, f, why) = protected id false w guarded in
    let e = ap (λ (d : Db). admins d.users) same in
    let le = delete_le id w.db.users in
    elim why [
      | inl a ↦ let o = delete_other id w.db.users u f a k in omega arith
      | inr (inl b) ↦ cc
      | inr (inr n) ↦ omega arith
    ]

-- Deleting a user leaves an administrator, whatever fails, if there was one and the identifier is of
-- one user at most.
pub delete_user_admin :
    (id : ℕ) (w : World)
    → count_users (has_id id) w.db.users ≤ 1
    → 0 < admins w.db.users
    → 0 < admins (delete_user id w).1.db.users
unfolding delete_user
delete_user_admin id w k p =
    transaction-keeps (λ d. 0 < admins d.users) (delete_body id) w
      (λ v e h. deleted id v h (rw e k) (rw e p)) p

row_updated :
    (id : ℕ) (c : Updates) (d e : Db)
    → update_user_row id c d ≡ ok e
    → e.users ≡ update_users (has_id id) (changed c) d.users
unfolding update_user_row
row_updated id c d e h = ground arith

protect_if_same : (b : Bool) (id : ℕ) (r : Bool) (w : World) → (protect_if b id r w).1.db ≡ w.db
protect_if_same true id r w = protect_same id r w
protect_if_same false id r w = refl

revoke_if_users : (b : Bool) (id : ℕ) (w : World) → (revoke_if b id w).1.db.users ≡ w.db.users
unfolding exec statement
revoke_if_users true id w = ground arith
revoke_if_users false id w = refl

update_tx_ok :
    (id : ℕ) (c : Updates) (w : World)
    → (update_tx id c w).0 ≡ ok tt
    → ((protect_if (is_some c.role) id (is_admin_role c.role) w).0 ≡ ok tt)
      × ((update_tx id c w).1.db.users ≡ update_users (has_id id) (changed c) w.db.users)
unfolding update_tx
update_tx_ok id c w h =
    let guard = protect_if (is_some c.role) id (is_admin_role c.role) in
    let write = exec (update_user_row id c) in
    let revoking = revoke_if (is_some c.password) id in
    let (guarded, p) = seq_ok guard (write >> revoking) w h in
    let v = (guard w).1 in
    let (written, q) = seq_ok write revoking v (sym (ap (λ x. x.0) p) ∙ h) in
    let stored = row_updated id c v.db (write v).1.db (exec_ok (update_user_row id c) v written) in
    (
      guarded,
      ap (λ x. x.1.db.users) (p ∙ q)
          ∙ revoke_if_users (is_some c.password) id (write v).1
          ∙ stored
          ∙ ap (λ (d : Db). update_users (has_id id) (changed c) d.users)
              (protect_if_same (is_some c.role) id (is_admin_role c.role) w),
    )

-- What the guard of an update comes to.
updated_admins :
    (id : ℕ) (c : Updates) (o : Option Bytes) (w : World)
    → c.role ≡ o
    → (protect_if (is_some o) id (is_admin_role o) w).0 ≡ ok tt
    → count_users (has_id id) w.db.users ≤ 1
    → 0 < admins w.db.users
    → 0 < admins (update_users (has_id id) (changed c) w.db.users)
updated_admins id c none w e h k p = let le = update_keeps id c w.db.users (inl e) in omega arith
updated_admins id c (some role) w e h k p =
    let (u, f, why) = protected id (is_admin_role (some role)) w h in
    let le = update_le id c w.db.users in
    elim why [
      | inl a ↦ let o = update_other id c w.db.users u f a k in omega arith
      | inr (inl b) ↦
          let o = update_keeps id c w.db.users (inr (ap is_admin_role e ∙ b)) in omega arith
      | inr (inr n) ↦ omega arith
    ]

no_role : (o p : Option Bytes) → (is_some p || is_some o) ≡ false → o ≡ none
no_role none p h = refl
no_role (some x) none h = absurd (ground arith)
no_role (some x) (some y) h = absurd (ground arith)

row_admins :
    (id : ℕ) (c : Updates) (w : World)
    → c.role ≡ none
    → count_users (has_id id) w.db.users ≤ 1
    → 0 < admins w.db.users
    → 0 < admins (exec (update_user_row id c) w).1.db.users
row_admins id c w e k p = elim (exec-db (update_user_row id c) w) [
  | inl same ↦ rw same p
  | inr done ↦
      rw (row_updated id c w.db (exec (update_user_row id c) w).1.db done)
        (let le = update_keeps id c w.db.users (inl e) in omega arith)
]

pub store_changes_admin :
    (id : ℕ) (c : Updates) (w : World)
    → count_users (has_id id) w.db.users ≤ 1
    → 0 < admins w.db.users
    → 0 < admins (store_changes id c w).1.db.users
unfolding store_changes
store_changes_admin id c w k p = elim (Bool-cases (is_some c.password || is_some c.role)) [
  | inl e ↦
      rw (e, store_changes)
        (transaction-keeps (λ d. 0 < admins d.users) (update_tx id c) w
          (λ v q h.
            let (guarded, result) = update_tx_ok id c v h in
            rw result (updated_admins id c c.role v refl guarded (rw q k) (rw q p)))
          p)
  | inr e ↦ rw (e, store_changes) (row_admins id c w (no_role c.role c.password e) k p)
]
