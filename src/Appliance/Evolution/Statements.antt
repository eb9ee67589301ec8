-- ===== src/Appliance/Evolution/Statements.antt =====
-- The guarantee of each statement of Store.Statements.
use loxilb_oam.Prelude.{
  ℕ, ◌≡◌, refl, Bool, true, false, is_some, List, [], ◌∷◌, ◌++◌, ◌==◌, Result, ok, err, any, arith,
  Bool-cases, inl, inr, if◌then◌else◌,
}
use mathlib.Core.List.{Memᴰ}
use loxilb_oam.Appliance.Operation.{active}
use loxilb_oam.Appliance.Store.Row.{
  Row, ChallengeRow, AuditRow, Db, clashes, has_conflict, update_rows,
}
use loxilb_oam.Appliance.Store.World.{Error, World, M, statement, continue, ◌>>=◌}
use loxilb_oam.Appliance.Store.Statements.{
  query, touch, violation, write_operations, exec_operations, exec_challenges, remove_rows,
  delete_challenges, insert_challenge, insert_operation, write_audit, audit,
}
use loxilb_oam.Appliance.Evolution.{
  Legal, Legal-refl, Grown, Grown-refl, Grown-append, KeepsUsed, Evolves, Evolves-refl,
  Evolves-trans, Fair, Guarded,
}
use loxilb_oam.Appliance.Evolution.Rules.{Guarded-bind, Guarded-statement, Guarded-ignore}

-- An action that takes no turn: only what it does to the tables is to be shown.
Guarded-step {ℓ} :
    {A : Type ℓ} (m : M A)
    → ((w : World) → (m w).1.turns ≡ w.turns)
    → ((w : World) → Evolves w.db (m w).1.db)
    → Guarded m
Guarded-step m t e = record { evolves = λ w f. e w; fair = λ w f. rw (t w) f }

pub Guarded-query {ℓ} : {A : Type ℓ} (f : ℕ → Db → A) → Guarded (query f)
unfolding query
Guarded-query f =
    Guarded-bind statement _ Guarded-statement
      λ u. Guarded-step _ (λ w. refl) (λ w. Evolves-refl w.db)

Grown-update :
    (sel : Row → Bool) (f : Row → Row)
    → ((r : Row) → sel r ≡ true → Legal r (f r))
    → (rs : List Row) → Grown rs (update_rows sel f rs)
unfolding update_rows
Grown-update sel f legal [] = tt
Grown-update sel f legal (r ∷ rs) = elim (Bool-cases (sel r)) [
  | inl e ↦ rw e (legal r e, Grown-update sel f legal rs)
  | inr e ↦ rw e (Legal-refl r, Grown-update sel f legal rs)
]

-- An update of operations gives the guarantee if it changes each row that it selects legally: the
-- index keeps the rest.
pub Guarded-exec_operations :
    (sel : ℕ → Row → Bool) (f : ℕ → Row → Row)
    → ((now : ℕ) (r : Row) → sel now r ≡ true → Legal r (touch now (f now r)))
    → Guarded (exec_operations sel f)
unfolding exec_operations
Guarded-exec_operations sel f legal =
    Guarded-bind statement _ Guarded-statement
      λ u. Guarded-step _ (λ w. ground arith) (λ w. write_evolves w)
  where
    write_evolves : (w : World) → Evolves w.db (write_operations sel f w).1.db
    write_evolves w =
        let rows = update_rows (sel w.now) (λ r. touch w.now (f w.now r)) w.db.operations in
        elim (Bool-cases (has_conflict rows)) [
          | inl e ↦ rw e (Evolves-refl w.db)
          | inr e ↦ rw e (record {
            rows =
                Grown-update (sel w.now) (λ r. touch w.now (f w.now r)) (legal w.now)
                  w.db.operations;
            one_active = λ h. e;
            used = λ c u m. m;
            trail = (Evolves-refl w.db).trail;
          })
        ]

update-mem :
    (sel : ChallengeRow → Bool) (f : ChallengeRow → ChallengeRow) (c : ChallengeRow)
    → sel c ≡ false
    → (cs : List ChallengeRow) → Memᴰ c cs
    → Memᴰ c (update_rows sel f cs)
unfolding update_rows
update-mem sel f c e [] m = elim m [ ]
update-mem sel f c e (d ∷ cs) (Memᴰ.head p) = Memᴰ.head (rw (← p, e) refl)
update-mem sel f c e (d ∷ cs) (Memᴰ.tail m) = Memᴰ.tail (update-mem sel f c e cs m)

remove-mem :
    (sel : ChallengeRow → Bool) (c : ChallengeRow)
    → sel c ≡ false
    → (cs : List ChallengeRow) → Memᴰ c cs
    → Memᴰ c (remove_rows sel cs)
remove-mem sel c e [] m = elim m [ ]
remove-mem sel c e (d ∷ cs) (Memᴰ.head p) = rw (← p, e) (Memᴰ.head refl)
remove-mem sel c e (d ∷ cs) (Memᴰ.tail m) = elim (Bool-cases (sel d)) [
  | inl q ↦ rw q (remove-mem sel c e cs m)
  | inr q ↦ rw q (Memᴰ.tail (remove-mem sel c e cs m))
]

append-mem : (c d : ChallengeRow) (cs : List ChallengeRow) → Memᴰ c cs → Memᴰ c (cs ++ d ∷ [])
append-mem c d [] m = elim m [ ]
append-mem c d (e ∷ cs) (Memᴰ.head p) = Memᴰ.head p
append-mem c d (e ∷ cs) (Memᴰ.tail m) = Memᴰ.tail (append-mem c d cs m)

-- Only the challenges change, and those that were used stay.
challenges-evolve :
    (d : Db) (cs : List ChallengeRow)
    → KeepsUsed d.challenges cs
    → Evolves d (record d { challenges = cs })
challenges-evolve d cs k = record {
  rows = Grown-refl d.operations;
  one_active = λ h. h;
  used = k;
  trail = (Evolves-refl d).trail;
}

pub Guarded-exec_challenges :
    (sel : ℕ → ChallengeRow → Bool) (f : ℕ → ChallengeRow → ChallengeRow)
    → ((now : ℕ) (c : ChallengeRow) → is_some c.consumed_at ≡ true → sel now c ≡ false)
    → Guarded (exec_challenges sel f)
unfolding exec_challenges
Guarded-exec_challenges sel f spares = Guarded-bind statement _ Guarded-statement λ u.
    Guarded-step _ (λ w. refl)
      λ w.
        challenges-evolve w.db (update_rows (sel w.now) (f w.now) w.db.challenges)
          λ c h m. update-mem (sel w.now) (f w.now) c (spares w.now c h) w.db.challenges m

pub Guarded-delete_challenges :
    (sel : ChallengeRow → Bool)
    → ((c : ChallengeRow) → is_some c.consumed_at ≡ true → sel c ≡ false)
    → Guarded (delete_challenges sel)
unfolding delete_challenges
Guarded-delete_challenges sel spares = Guarded-bind statement _ Guarded-statement λ u.
    Guarded-step _ (λ w. refl)
      λ w.
        challenges-evolve w.db (remove_rows sel w.db.challenges)
          λ c h m. remove-mem sel c (spares c h) w.db.challenges m

insert-Evolves :
    (b : Bool) (c : ChallengeRow) (w : World)
    → Evolves w.db
        (if b then violation {A = ChallengeRow} Error.database w else (
          ok c,
          record w { db = record w.db { challenges = w.db.challenges ++ c ∷ [] } },
        )).1.db
insert-Evolves true c w = Evolves-refl w.db
insert-Evolves false c w =
    challenges-evolve w.db (w.db.challenges ++ c ∷ []) (λ k u m. append-mem k c w.db.challenges m)

pub Guarded-insert_challenge : (make : ℕ → ChallengeRow) → Guarded (insert_challenge make)
unfolding insert_challenge
Guarded-insert_challenge make = Guarded-bind statement _ Guarded-statement λ u.
    Guarded-step _ (λ w. ground arith)
      λ w.
        insert-Evolves (any (λ d. d.challenge_hash == (make w.now).challenge_hash) w.db.challenges)
          (make w.now) w

-- A row that is not active makes no conflict.
clash_last :
    (r s : Row) (rs : List Row)
    → active s.state ≡ false
    → any (clashes r) (rs ++ s ∷ []) ≡ any (clashes r) rs
clash_last r s [] h = ground arith
clash_last r s (q ∷ rs) h = ground (arith, clash_last r s rs h)

conflict_last :
    (s : Row) (rs : List Row)
    → active s.state ≡ false
    → has_conflict (rs ++ s ∷ []) ≡ has_conflict rs
unfolding has_conflict
conflict_last s [] h = refl
conflict_last s (r ∷ rs) h = rw (clash_last r s rs h, conflict_last s rs h)

operations-evolve :
    (d : Db) (s : Row)
    → active s.state ≡ false
    → Evolves d (record d { operations = d.operations ++ s ∷ [] })
operations-evolve d s h = record {
  rows = Grown-append d.operations (s ∷ []);
  one_active = λ p. rw (conflict_last s d.operations h) p;
  used = λ c u m. m;
  trail = (Evolves-refl d).trail;
}

add-Evolves :
    (a b : Bool) (r : Row) (w : World)
    → active r.state ≡ false
    → Evolves w.db
        (if a then (ok false, w) else if b then violation Error.database w else (
          ok true,
          record w { db = record w.db { operations = w.db.operations ++ r ∷ [] } },
        )).1.db
add-Evolves true b r w h = Evolves-refl w.db
add-Evolves false true r w h = Evolves-refl w.db
add-Evolves false false r w h = operations-evolve w.db r h

pub Guarded-insert_operation :
    (make : ℕ → Row)
    → ((now : ℕ) → active (make now).state ≡ false)
    → Guarded (insert_operation make)
unfolding insert_operation
Guarded-insert_operation make idle =
    Guarded-bind statement _ Guarded-statement
      λ u. Guarded-step _ (λ w. ground arith) λ w. add-Evolves _ _ (make w.now) w (idle w.now)

pub Guarded-write_audit : (e : AuditRow) → Guarded (write_audit e)
unfolding write_audit
Guarded-write_audit e = Guarded-bind statement _ Guarded-statement λ u.
    Guarded-step _ (λ w. refl)
      λ w. record {
        rows = Grown-refl w.db.operations;
        one_active = λ h. h;
        used = λ c u m. m;
        trail = (e ∷ [], refl);
      }

pub Guarded-audit : (e : AuditRow) → Guarded (audit e)
unfolding audit
Guarded-audit e = Guarded-ignore (write_audit e) (Guarded-write_audit e)

module _ {ℓ κ} {A : Type ℓ} {B : Type κ} (f : ℕ → Db → A) (k : A → M B) where
  queried :
      ((now : ℕ) (d : Db) → Guarded (k (f now d)))
      → (r : Result Error (Unit {0})) (v : World) → Fair v.turns
      → Evolves v.db (continue k (continue (λ u w. (ok (f w.now w.db), w)) (r, v))).1.db
        × Fair (continue k (continue (λ u w. (ok (f w.now w.db), w)) (r, v))).1.turns
  queried g (ok u) v t = ((g v.now v.db).evolves v t, (g v.now v.db).fair v t)
  queried g (err e) v t = (Evolves-refl v.db, t)

  -- What follows a query may use that its result was read from the tables.
  pub Guarded-bind_query : ((now : ℕ) (d : Db) → Guarded (k (f now d))) → Guarded (query f >>= k)
  unfolding query
  Guarded-bind_query g = record {
    evolves = λ w t.
        let (r, v) = statement w in
        Evolves-trans (Guarded-statement.evolves w t)
          (queried g r v (Guarded-statement.fair w t)).0;
    fair = λ w t. let (r, v) = statement w in (queried g r v (Guarded-statement.fair w t)).1;
  }
