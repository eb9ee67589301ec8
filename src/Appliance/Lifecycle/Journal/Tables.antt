-- ===== src/Appliance/Lifecycle/Journal/Tables.antt =====
-- Following the host journal in the tables (internal/appliance/lifecycle.go, applyJob).
use loxilb_oam.Prelude.{
  ℕ, ◌≡◌, refl, ap, ◌∙◌, Bool, false, ◌&&◌, ◌||◌, not, some, List, [], ◌∷◌, map, Bytes, ◌==◌, ok,
  true, sym, any, ltb, Bool-cases, inl, inr, arith, ◌=ℕ◌, if◌then◌else◌,
}
use loxilb_oam.Appliance.Operation.{Operation, in_sync, ◌is◌}
use loxilb_oam.Appliance.Host.{HostJob}
use loxilb_oam.Appliance.Store.Row.{
  Row, clashes, has_conflict, update_rows, count_rows, AuditRow, AuditEvent,
}
use loxilb_oam.Appliance.Store.World.{World, M, pure, ignore, statement, continue}
use loxilb_oam.Appliance.Store.Statements.{
  touch, exec_operations, write_audit, audit, is_unreachable,
}
use loxilb_oam.Appliance.Caller.{entry}
use loxilb_oam.Appliance.Planning.Replay.{Quiet}
use loxilb_oam.Appliance.Lifecycle.Journal.{
  follow, is_newer, stored_code, stored_origin, clear_stale, after_follow, apply_job,
}
use loxilb_oam.Appliance.Lifecycle.Journal.Latest.{Shown, shown, entry_shown}

shown_rows :
    (id : Bytes) (now : ℕ) (sel : Row → Bool) (f : Row → Row) (rows : List Row)
    → ((r : Row) → shown (f r) ≡ shown r)
    → map shown (update_rows sel f rows) ≡ map shown rows
unfolding update_rows
shown_rows id now sel f [] h = refl
shown_rows id now sel f (r ∷ rows) h =
    let rest = shown_rows id now sel f rows h in let e = h r in ground arith

-- What the row shows after the entry.
abbrev pub told : Bytes → HostJob → Row → Shown
told id job r =
    if r.id == id && ltb r.host_generation job.generation then entry_shown job else shown r

-- The row in the state of the entry, where that is news to it.
abbrev pub moved : Bytes → HostJob → Row → Row
moved id job r =
    if r.id == id && ltb r.host_generation job.generation then record r { state = job.state } else r

followed : Bytes → HostJob → ℕ → List Row → List Row
followed id job now rows =
    update_rows (is_newer id job now) (λ r. touch now (follow job now r)) rows

shown-follow :
    (job : HostJob) (now : ℕ) (r : Row) → shown (touch now (follow job now r)) ≡ entry_shown job
unfolding follow
shown-follow job now r = refl

told_rows :
    (id : Bytes) (job : HostJob) (now : ℕ) (rows : List Row)
    → map shown (followed id job now rows) ≡ map (told id job) rows
unfolding update_rows followed
told_rows id job now [] = refl
told_rows id job now (r ∷ rows) =
    let rest = told_rows id job now rows in let this = shown-follow job now r in ground arith

-- The index asks for the state and the installation of a row.
any-clashes :
    (q p : Row) (f g : Row → Row)
    → q.state ≡ p.state
    → q.installation_id ≡ p.installation_id
    → ((r : Row) → (f r).state ≡ (g r).state)
    → ((r : Row) → (f r).installation_id ≡ (g r).installation_id)
    → (rows : List Row) → any (clashes q) (map f rows) ≡ any (clashes p) (map g rows)
any-clashes q p f g s i fs fi [] = refl
any-clashes q p f g s i fs fi (r ∷ rows) =
    rw (s, i, fs r, fi r, any-clashes q p f g s i fs fi rows) refl

same_conflict :
    (f g : Row → Row)
    → ((r : Row) → (f r).state ≡ (g r).state)
    → ((r : Row) → (f r).installation_id ≡ (g r).installation_id)
    → (rows : List Row) → has_conflict (map f rows) ≡ has_conflict (map g rows)
unfolding has_conflict
same_conflict f g fs fi [] = refl
same_conflict f g fs fi (r ∷ rows) =
    rw (any-clashes (f r) (g r) f g (fs r) (fi r) fs fi rows, same_conflict f g fs fi rows) refl

update_rows-map :
    (sel : Row → Bool) (f : Row → Row) (rows : List Row)
    → update_rows sel f rows ≡ map (λ r. if sel r then f r else r) rows
unfolding update_rows
update_rows-map sel f [] = refl
update_rows-map sel f (r ∷ rows) =
    ap (λ rest. (if sel r then f r else r) ∷ rest) (update_rows-map sel f rows)

conflict-moved :
    (id : Bytes) (job : HostJob) (now : ℕ) (rows : List Row)
    → has_conflict (followed id job now rows) ≡ has_conflict (map (moved id job) rows)
unfolding followed follow
conflict-moved id job now rows =
    ap has_conflict (update_rows-map _ _ rows)
    ∙ same_conflict _ (moved id job) (λ r. ground arith) (λ r. ground arith) rows

-- The rows as they show.
abbrev pub rows_shown : World → List Shown
rows_shown w = map shown w.db.operations

clear_stale-shown :
    (id : Bytes) (w : World) → Quiet w → rows_shown (clear_stale id w).1 ≡ rows_shown w
unfolding exec_operations ignore statement
clear_stale-shown id w (c, t, f) =
    let e =
      shown_rows id w.now (λ r. r.id == id && is_unreachable r.reconciliation)
        (λ r. touch w.now (record r { reconciliation = in_sync })) w.db.operations (λ r. refl) in
    ground arith

audit-shown : (e : AuditRow) (w : World) → Quiet w → rows_shown (audit e w).1 ≡ rows_shown w
unfolding audit write_audit ignore statement
audit-shown e w (c, t, f) = ground arith

of_three :
    (b c d : Bool) (x y : M (Unit {0})) (w : World)
    → rows_shown (x w).1 ≡ rows_shown w
    → rows_shown (y w).1 ≡ rows_shown w
    → rows_shown ((if b then (if c then x else pure tt) else if d then y else pure tt) w).1
      ≡ rows_shown w
of_three b c d x y w p q = ground arith

after_follow-shown :
    (op : Operation) (job : HostJob) (n : ℕ) (w : World)
    → Quiet w
    → rows_shown (after_follow op job n w).1 ≡ rows_shown w
unfolding after_follow
after_follow-shown op job n w q =
    let e : AuditRow = record (entry op.id AuditEvent.state_change) {
      old_state = some op.state;
      new_state = some job.state;
      type = some op.type;
      phase = job.phase;
      host_generation = job.generation;
      error_code = stored_code job.error_code;
      error_origin = stored_origin job.error_code;
    } in
    of_three (not (n =ℕ 1)) (is_unreachable op.reconciliation)
      (not (job.state is op.state) || not (job.phase == op.phase)) (clear_stale op.id) (audit e) w
      (clear_stale-shown op.id w q) (audit-shown e w q)

-- The update of applyJob as a statement, on whether the one-active index stands in its way.
exec_operations-followed :
    (id : Bytes) (job : HostJob) (w : World)
    → Quiet w
    → has_conflict (followed id job w.now w.db.operations) ≡ false
    → exec_operations (is_newer id job) (follow job) w ≡ (
      ok (count_rows (is_newer id job w.now) w.db.operations),
      record w { db = record w.db { operations = followed id job w.now w.db.operations } },
    )
unfolding exec_operations statement followed
exec_operations-followed id job w (c, t, f) h = ground arith

apply_job_blocked :
    (op : Operation) (job : HostJob) (w : World)
    → Quiet w
    → has_conflict (followed op.id job w.now w.db.operations) ≡ true
    → rows_shown (apply_job op job w).1 ≡ rows_shown w
unfolding apply_job ignore exec_operations statement followed
apply_job_blocked op job w (c, t, f) h = ground arith

apply_job_goes :
    (op : Operation) (job : HostJob) (w : World)
    → Quiet w
    → has_conflict (followed op.id job w.now w.db.operations) ≡ false
    → rows_shown (apply_job op job w).1 ≡ map (told op.id job) w.db.operations
unfolding apply_job ignore
apply_job_goes op job w q h =
    let updated : World = record w {
      db = record w.db { operations = followed op.id job w.now w.db.operations };
    } in
    ap (λ x. rows_shown (continue (after_follow op job) x).1)
      (exec_operations-followed op.id job w q h)
    ∙ after_follow-shown op job (count_rows (is_newer op.id job w.now) w.db.operations) updated q
    ∙ told_rows op.id job w.now w.db.operations

-- applyJob, with no fault and no other session: if the rows still have at most one active operation
-- of an installation once those of the operation that an entry is newer than are in its state, these
-- rows, and no others, show the entry (state, phase, generation, cancellability and error), and all
-- others what they showed; otherwise every row shows what it showed.
pub apply_job-told :
    (op : Operation) (job : HostJob) (w : World)
    → Quiet w
    → rows_shown (apply_job op job w).1 ≡ (
        if has_conflict (map (moved op.id job) w.db.operations)
        then rows_shown w
        else map (told op.id job) w.db.operations)
apply_job-told op job w q =
    let same = conflict-moved op.id job w.now w.db.operations in
    elim (Bool-cases (has_conflict (followed op.id job w.now w.db.operations))) [
      | inl y ↦ rw (sym same ∙ y) (apply_job_blocked op job w q y)
      | inr n ↦ rw (sym same ∙ n) (apply_job_goes op job w q n)
    ]
