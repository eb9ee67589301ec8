-- ===== src/Users/Sessions.antt =====
-- What UpdateUser does to administrators and sessions (internal/services/user_service.go).
use loxilb_oam.Prelude.{
  ℕ, ◌≤◌, ◌<◌, ◌≡◌, refl, sym, ap, ◌∙◌, Bool, true, false, Option, none, some, is_some, List, [],
  ◌∷◌, Bytes, any, Result, ok, err, arith, if◌then◌else◌,
}
use loxilb_oam.Users.{
  User, Token, Db, Error, no_fields, World, M, continue, ◌>>=◌, ◌>>◌, lift, refuse_if, statement,
  query, exec, transaction, find_user, count_users, delete_tokens, owned_by,
}
use loxilb_oam.Users.Rules.{Unicode}
use loxilb_oam.Users.Accounts.{
  Hashing, has_id, validate_password, delete_user, Updates, given, or_old, check_role,
  check_new_password, collect, is_nothing, revoke, protect_if, is_admin_role, revoke_if,
  update_user_row, update_tx, store_changes, name_or_missing, update_user,
}
use loxilb_oam.Users.Effects.{
  Still, Still-bind, Still-lift, Still-pure, Still-refuse_if, Still-query, validate_password-Still,
  exec_ok, seq_ok,
}
use loxilb_oam.Users.Admins.{admins, delete_user_admin, store_changes_admin}

-- A chain that writes nothing before its last action.
last_keeps :
    {A : Type 0} (J : Db → Type 0) (m : M A) (f : A → M (Unit {0})) (w : World)
    → Still m
    → J w.db
    → ((a : A) (v : World) → (m w).0 ≡ ok a → v.db ≡ w.db → J (f a v).1.db)
    → J ((m >>= f) w).1.db
last_keeps J m f w s j k = go (m w).0 (m w).1 (s.still w) (λ a e. k a (m w).1 e (s.still w))
  where
    go :
        (r : Result Error _) (v : World)
        → v.db ≡ w.db
        → ((a : _) → r ≡ ok a → J (f a v).1.db)
        → J (continue f (r, v)).1.db
    go (ok a) v e h = h a refl
    go (err x) v e h = rw e j

module _ (u : Unicode) (h : Hashing) (salt : Bytes) where
  check_new_password-Still :
      (name : Bytes) (o : Option Bytes) → Still (check_new_password u h salt name o)
  check_new_password-Still name none = Still-pure none
  check_new_password-Still name (some password) =
      Still-bind _ _ (validate_password-Still u h name password) (λ _. Still-pure _)

  collect-Still :
      (first : Bool) (name : Bytes) (updates : Updates)
      → Still (collect u h salt first name updates)
  collect-Still first name updates =
      Still-bind _ _ (Still-lift (if first then check_role (given updates.role) else ok tt)) λ _.
        Still-bind _ _
          (check_new_password-Still (or_old (given updates.username) name) (given updates.password))
          λ p. Still-bind _ _ (Still-lift (check_role (given updates.role))) λ _. Still-pure _

  name_or_missing-Still : (o : Option User) → Still (name_or_missing u h salt o)
  name_or_missing-Still none = Still-lift _
  name_or_missing-Still (some v) = Still-pure _

  update_user_admin :
      (first : Bool) (id : ℕ) (updates : Updates) (w : World)
      → count_users (has_id id) w.db.users ≤ 1
      → 0 < admins w.db.users
      → 0 < admins (update_user u h salt first id updates w).1.db.users
  unfolding update_user
  update_user_admin first id updates w k p =
      let J : Db → Type 0 = λ d. 0 < admins d.users in
      last_keeps J (query (λ now db. find_user (has_id id) db.users)) _ w (Still-query _) p
        λ o v _ e.
          last_keeps J (name_or_missing u h salt o) _ v (name_or_missing-Still o) (rw e p)
            λ name v' _ e'.
              last_keeps J (collect u h salt first name updates) _ v'
                (collect-Still first name updates) (rw (e' ∙ e) p)
                λ c v'' _ e''.
                  last_keeps J (refuse_if (is_nothing u h salt c) no_fields) _ v''
                    (Still-refuse_if _ _) (rw (e'' ∙ e' ∙ e) p)
                    λ _ x _ f.
                      store_changes_admin id c x (rw (f ∙ e'' ∙ e' ∙ e) k) (rw (f ∙ e'' ∙ e' ∙ e) p)

bind_ok :
    {A B : Type 0} (m : M A) (f : A → M B) (w : World) (b : B)
    → ((m >>= f) w).0 ≡ ok b
    → (a : A) × ((m w).0 ≡ ok a) × ((m >>= f) w ≡ f a (m w).1)
bind_ok m f w b h = go (m w).0 (m w).1 h
  where
    go :
        (r : Result Error _) (v : World)
        → (continue f (r, v)).0 ≡ ok b
        → (a : _) × (r ≡ ok a) × (continue f (r, v) ≡ f a v)
    go (ok a) v e = (a, refl, refl)
    go (err x) v e = absurd (ground arith)

module _ (u : Unicode) (h : Hashing) (salt : Bytes) where
  new_password :
      (name : Bytes) (o p : Option Bytes) (w : World)
      → (check_new_password u h salt name o w).0 ≡ ok p
      → is_some p ≡ is_some o
  new_password name none p w e = ground arith
  new_password name (some password) p w e =
      let (a, f, g) = bind_ok (validate_password u h name password) _ w p e in
      let q = sym (ap (λ x. x.0) g) ∙ e in ground arith

  -- The password that is collected is the one of the result.
  taken :
      (updates : Updates) (p : Option Bytes) (c : Updates)
      → ◌≡◌ {A = Result Error Updates}
          (ok (record {
            username = given updates.username;
            email = updates.email;
            role = given updates.role;
            password = p;
          }))
          (ok c)
      → is_some c.password ≡ is_some p
  taken updates p c e = ground arith

  collected :
      (first : Bool) (name : Bytes) (updates c : Updates) (w : World)
      → (collect u h salt first name updates w).0 ≡ ok c
      → is_some c.password ≡ is_some (given updates.password)
  collected first name updates c w e =
      let (a, f, g) =
        bind_ok (lift (if first then check_role (given updates.role) else ok tt)) _ w c e in
      let (p, f', g') =
        bind_ok
          (check_new_password u h salt (or_old (given updates.username) name)
            (given updates.password))
          _ w c (sym (ap (λ x. x.0) g) ∙ e) in
      let n = new_password (or_old (given updates.username) name) (given updates.password) p w f' in
      let e' = sym (ap (λ x. x.0) g') ∙ sym (ap (λ x. x.0) g) ∙ e in
      let (t, f'', g'') = bind_ok (lift (check_role (given updates.role))) _ _ c e' in
      let last = sym (ap (λ x. x.0) g'') ∙ e' in taken updates p c last ∙ n

none_left : (p : Token → Bool) (ts : List Token) → any p (delete_tokens p ts) ≡ false
unfolding delete_tokens
none_left p [] = refl
none_left p (t ∷ ts) = ground (arith, none_left p ts)

transaction_ok :
    (m : M (Unit {0})) (w : World)
    → (transaction m w).0 ≡ ok tt
    → ((m (statement w).1).0 ≡ ok tt) × ((transaction m w).1.db ≡ (m (statement w).1).1.db)
unfolding transaction statement
transaction_ok m w e = ground arith

revoked :
    (id : ℕ) (b : Bool) (w : World)
    → b ≡ true
    → (revoke_if b id w).0 ≡ ok tt
    → any (owned_by id) (revoke_if b id w).1.db.tokens ≡ false
revoked id true w e h =
    let q = exec_ok (λ db. ok (revoke id db)) w h in
    let n = none_left (owned_by id) w.db.tokens in ground arith
revoked id false w e h = cc

update_tx_revokes :
    (id : ℕ) (c : Updates) (w : World)
    → is_some c.password ≡ true
    → (update_tx id c w).0 ≡ ok tt
    → any (owned_by id) (update_tx id c w).1.db.tokens ≡ false
unfolding update_tx
update_tx_revokes id c w p e =
    let guard = protect_if (is_some c.role) id (is_admin_role c.role) in
    let write = exec (update_user_row id c) in
    let revoking = revoke_if (is_some c.password) id in
    let (a, q) = seq_ok guard (write >> revoking) w e in
    let (b, r) = seq_ok write revoking (guard w).1 (sym (ap (λ x. x.0) q) ∙ e) in
    let last = sym (ap (λ x. x.0) (q ∙ r)) ∙ e in
    rw (ap (λ x. x.1.db.tokens) (q ∙ r))
      (revoked id (is_some c.password) (write (guard w).1).1 p last)

store_changes_revokes :
    (id : ℕ) (c : Updates) (w : World)
    → is_some c.password ≡ true
    → (store_changes id c w).0 ≡ ok tt
    → any (owned_by id) (store_changes id c w).1.db.tokens ≡ false
unfolding store_changes
store_changes_revokes id c w p e =
    let tx : store_changes id c w ≡ transaction (update_tx id c) w = ground arith in
    let (done, same) = transaction_ok (update_tx id c) w (sym (ap (λ x. x.0) tx) ∙ e) in
    rw (ap (λ x. x.1.db) tx ∙ same) (update_tx_revokes id c (statement w).1 p done)

-- A password is changed with the sessions of its user: if UpdateUser succeeds and a new password is
-- given, no token of the user is left.
pub update_user_revokes :
    (u : Unicode) (h : Hashing) (salt : Bytes) (first : Bool) (id : ℕ) (updates : Updates)
    (w : World)
    → is_some (given updates.password) ≡ true
    → (update_user u h salt first id updates w).0 ≡ ok tt
    → any (owned_by id) (update_user u h salt first id updates w).1.db.tokens ≡ false
unfolding update_user
update_user_revokes u h salt first id updates w g e =
    let (o, e1, q1) = bind_ok (query (λ now db. find_user (has_id id) db.users)) _ w tt e in
    let f1 = sym (ap (λ x. x.0) q1) ∙ e in
    let (name, e2, q2) = bind_ok (name_or_missing u h salt o) _ _ tt f1 in
    let f2 = sym (ap (λ x. x.0) q2) ∙ f1 in
    let (c, e3, q3) = bind_ok (collect u h salt first name updates) _ _ tt f2 in
    let f3 = sym (ap (λ x. x.0) q3) ∙ f2 in
    let (t, e4, q4) = bind_ok (refuse_if (is_nothing u h salt c) no_fields) _ _ tt f3 in
    let f4 = sym (ap (λ x. x.0) q4) ∙ f3 in
    let path = q1 ∙ q2 ∙ q3 ∙ q4 in
    rw (ap (λ x. x.1.db.tokens) path)
      (store_changes_revokes id c _ (collected u h salt first name updates c _ e3 ∙ g) f4)

-- Whatever fails, neither UpdateUser nor DeleteUser takes the last administrator away: if there is
-- one before, and the identifier is of one user at most, there is one after.
pub last_admin_kept :
    (u : Unicode) (h : Hashing) (salt : Bytes) (first : Bool) (id : ℕ) (updates : Updates)
    (w : World)
    → count_users (has_id id) w.db.users ≤ 1
    → 0 < admins w.db.users
    → (0 < admins (update_user u h salt first id updates w).1.db.users)
      × (0 < admins (delete_user id w).1.db.users)
last_admin_kept u h salt first id updates w k p =
    (update_user_admin u h salt first id updates w k p, delete_user_admin id w k p)
