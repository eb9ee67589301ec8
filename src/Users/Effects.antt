-- ===== src/Users/Effects.antt =====
-- What statements, sequences and transactions do to the tables (internal/services/user_service.go).
use loxilb_oam.Prelude.{
  ℕ, ◌≡◌, ◌⊎◌, inl, inr, refl, ◌∙◌, Bool, true, false, Option, none, some, Bytes, Result, ok, err,
  arith,
}
use loxilb_oam.Users.{
  User, Db, Error, World, M, continue, ◌>>=◌, ◌>>◌, pure, lift, refuse_if, statement, query, exec,
  transaction, find_user,
}
use loxilb_oam.Users.Accounts.{
  Hashing, verified, validate_password, compare_previous, weak_if, has_name,
}
use loxilb_oam.Users.Rules.{Unicode, check_password}

pub statement_same : (w : World) → (statement w).1.db ≡ w.db
unfolding statement
statement_same w = ground arith

pub transaction-db :
    (m : M (Unit {0})) (w : World)
    → ((transaction m w).1.db ≡ w.db)
      ⊎ (((m (statement w).1).0 ≡ ok tt) × ((transaction m w).1.db ≡ (m (statement w).1).1.db))
unfolding transaction statement
transaction-db m w = ground arith

pub exec-db :
    (f : Db → Result Error Db) (w : World)
    → ((exec f w).1.db ≡ w.db) ⊎ (f w.db ≡ ok (exec f w).1.db)
unfolding exec statement
exec-db f w = ground arith

-- A rule for transactions: what the body keeps when it returns, the transaction keeps.
pub transaction-keeps :
    (I : Db → Type 0) (m : M (Unit {0})) (w : World)
    → ((v : World) → v.db ≡ w.db → (m v).0 ≡ ok tt → I (m v).1.db)
    → I w.db
    → I (transaction m w).1.db
transaction-keeps I m w k i = elim (transaction-db m w) [
  | inl e ↦ rw e i
  | inr (h, e) ↦ rw e (k (statement w).1 (statement_same w) h)
]

pub seq_ok :
    (m k : M (Unit {0})) (w : World)
    → ((m >> k) w).0 ≡ ok tt
    → ((m w).0 ≡ ok tt) × (((m >> k) w) ≡ k (m w).1)
seq_ok m k w h = ground arith

pub exec_ok :
    (f : Db → Result Error Db) (w : World) → (exec f w).0 ≡ ok tt → f w.db ≡ ok (exec f w).1.db
unfolding exec statement
exec_ok f w h = ground arith

-- An action that writes nothing.
pub record Still {A : Type 0} (m : M A) : Type 0 where
  pub still : (w : World) → (m w).1.db ≡ w.db

module _ {A B : Type 0} where
  continue-Still :
      (f : A → M B)
      → ((a : A) → Still (f a))
      → (r : Result Error A) (w : World) → (continue f (r, w)).1.db ≡ w.db
  continue-Still f h (ok a) w = (h a).still w
  continue-Still f h (err e) w = refl

  pub Still-bind : (m : M A) (f : A → M B) → Still m → ((a : A) → Still (f a)) → Still (m >>= f)
  Still-bind m f g h = record { still = λ w. continue-Still f h (m w).0 (m w).1 ∙ g.still w }

pub Still-lift : {A : Type 0} (r : Result Error A) → Still (lift r)
Still-lift r = record { still = λ w. refl }

pub Still-pure : {A : Type 0} (a : A) → Still (pure a)
Still-pure a = record { still = λ w. refl }

pub Still-refuse_if : (b : Bool) (e : Error) → Still (refuse_if b e)
Still-refuse_if true e = record { still = λ w. refl }
Still-refuse_if false e = record { still = λ w. refl }

pub Still-query : {A : Type 0} (f : ℕ → Db → A) → Still (query f)
unfolding query statement
Still-query f = record { still = λ w. ground arith }

module _ (u : Unicode) (h : Hashing) where
  Still-verified : (o : Option Bool) → Still (verified u h o)
  Still-verified none = record { still = λ w. refl }
  Still-verified (some true) = record { still = λ w. refl }
  Still-verified (some false) = record { still = λ w. refl }

  Still-compare_previous :
      (password : Bytes) (o : Option User) → Still (compare_previous u h password o)
  Still-compare_previous password none = record { still = λ w. refl }
  Still-compare_previous password (some v) = Still-verified (h.verify password v.password)

  pub validate_password-Still :
      (username password : Bytes) → Still (validate_password u h username password)
  unfolding validate_password
  validate_password-Still username password =
      Still-bind _ _ (Still-lift (weak_if (check_password u username password))) λ _.
        Still-bind _ _ (Still-query (λ now db. find_user (has_name username) db.users))
          (Still-compare_previous password)
