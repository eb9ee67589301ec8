-- ===== src/Examples/Migrate.antt =====
-- A build with a baseline and one later migration (internal/migrate/migrate.go).
use mathlib.Core.Option
use mathlib.Core.List.{Memᴰ}
use loxilb_oam.Prelude.{
  ◌≡◌, ◌⊎◌, ◌↔◌, refl, false, none, some, List, [], ◌∷◌, ◌++◌, map, Bytes, bytes, Bytes-discrete,
  ok, is_empty, not, length,
}
use loxilb_oam.Strings.{has_suffix}
use loxilb_oam.Migrate.{Mode, Migration, key, pending, IsContiguous}
use loxilb_oam.Migrate.Pending.{pending-eq-ok}
use loxilb_oam.Migrate.Load.{Entry, load, load_files, baseline}
use loxilb_oam.Migrate.Load.Sorted.{load-IsContiguous}
use loxilb_oam.Migrate.Session.{Engine, Database, Session, insert_row}
use loxilb_oam.Migrate.Run.{row_of, created, run}
use loxilb_oam.Migrate.Run.Applying.{Applies}
use loxilb_oam.Migrate.Run.Outcome.{Stopped, Ran, run-Ran}
use loxilb_oam.Migrate.Run.Fresh.{run_fresh}
use loxilb_oam.Migrate.Run.Checking.{run_settled}

-- A schema as the scripts that made it.
abbrev scripts : Engine (List Bytes)
scripts = record { execute = λ sql s. some (sql ∷ s); has_users = λ s. not (is_empty s) }

abbrev base : Migration
base = record { version = 1; name = bytes "baseline"; sql = bytes "a"; checksum = bytes "a" }

abbrev columns : Migration
columns = record { version = 2; name = bytes "columns"; sql = bytes "b"; checksum = bytes "b" }

abbrev empty : Session (List Bytes)
empty = record {
  db = record { history = none; schema = [] };
  now = 5;
  faults = [];
  status = record { mode = Mode.auto; version = 0; latest = 0; applied = []; adopted = false };
}

abbrev full : Database (List Bytes)
full = record {
  history = some (row_of false 5 base ∷ row_of false 5 columns ∷ []);
  schema = bytes "b" ∷ bytes "a" ∷ [];
}

contiguous : IsContiguous 1 (base ∷ columns ∷ [])
contiguous = (refl, (refl, tt))

scripts_run : Applies scripts 5 (base ∷ columns ∷ []) (created empty.db) full
unfolding insert_row Option.bind
scripts_run = (_, refl, (_, refl, refl))

pending-eq-ok_example : (pending (key base ∷ []) (base ∷ columns ∷ []) ≡ ok (columns ∷ [])) ↔ (
    (done : List Migration) × (base ∷ columns ∷ [] ≡ done ++ (columns ∷ []))
    × (key base ∷ [] ≡ map key done))
pending-eq-ok_example =
    pending-eq-ok 1 base (columns ∷ []) contiguous (key base ∷ []) (columns ∷ [])

run_fresh_example :
    let (r, t) = run scripts (base ∷ columns ∷ []) Mode.auto empty in (r ≡ ok tt) × (t.db ≡ full)
run_fresh_example =
    run_fresh scripts 1 base (columns ∷ []) empty full contiguous refl refl refl scripts_run

run-Ran_example :
    let (r, t) = run scripts (base ∷ columns ∷ []) Mode.auto empty in
    Stopped scripts base (columns ∷ []) empty r t ⊎ Ran scripts base (columns ∷ []) empty r t
run-Ran_example = run-Ran scripts 1 base (columns ∷ []) contiguous empty

run_settled_example :
    (let (x, t) = run scripts (base ∷ columns ∷ []) Mode.auto (record empty { db = full }) in
      (x ≡ ok tt) × (t.db ≡ full) × (t.status.applied ≡ []))
    × (let (x, t) = run scripts (base ∷ columns ∷ []) Mode.check (record empty { db = full }) in
        (x ≡ ok tt) × (t.db ≡ full))
run_settled_example =
    run_settled scripts 1 base (columns ∷ []) (record empty { db = full }) contiguous refl refl

abbrev entries : List Entry
entries =
    record { is_dir = false; name = bytes "0002_columns.sql"; content = some (bytes "b") }
    ∷ record { is_dir = false; name = bytes "README.md"; content = none }
    ∷ []

loads : load (λ sql. sql) 1 (bytes "a") (some entries) ≡ ok (base ∷ columns ∷ [])
unfolding load has_suffix Bytes-discrete Option.bind
loads = refl

load-IsContiguous_example :
    (later : List Migration) × (base ∷ columns ∷ [] ≡ baseline (λ sql. sql) 1 (bytes "a") ∷ later)
    × IsContiguous 1 (base ∷ columns ∷ [])
    × ((files : List Migration) × (load_files (λ sql. sql) entries ≡ ok files)
        × (length later ≡ length files)
        × ((m : Migration) → Memᴰ m files → Memᴰ m (base ∷ columns ∷ [])))
load-IsContiguous_example = load-IsContiguous (λ sql. sql) 1 (bytes "a") entries _ loads
