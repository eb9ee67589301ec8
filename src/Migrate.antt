-- ===== src/Migrate.antt =====
-- The versions of the database schema (internal/migrate/migrate.go): migrations, and what of them is
-- still to apply.
pub mod Pending
pub mod Load
pub mod Session
pub mod Run
use loxilb_oam.Prelude.{
  ℕ, ◌+◌, ◌≡◌, not, List, [], ◌∷◌, Bytes, ◌==◌, Result, ok, err, fail_if, ◌>>=◌, ◌>>◌, ltb, ◌=ℕ◌,
}

pub data Mode : Type 0 where
  auto check off : Mode
  unknown : Bytes → Mode

pub record Migration : Type 0 where
  pub version : ℕ
  pub name : Bytes
  pub sql : Bytes
  pub checksum : Bytes

-- `database` is a statement that fails, `out_of_range` an index outside a slice.
pub data Error : Type 0 where
  schema_newer checksum_mismatch pending_migrations not_initialized history_corrupt : Error
  no_migrations unknown_mode database out_of_range : Error

pub record Applied : Type 0 where
  pub version : ℕ
  pub checksum : Bytes

-- The record of a migration that has been applied.
abbrev pub key : Migration → Applied
key m = record { version = m.version; checksum = m.checksum }

abbrev pub last_version : Migration → List Migration → ℕ
last_version m [] = m.version
last_version m (n ∷ ms) = last_version n ms

-- The loop over the history, at the version that is expected next, beside the migrations from
-- that one on.
unfoldable pub pending_from : ℕ → ℕ → List Applied → List Migration → Result Error (List Migration)
pending_from expected latest [] ms = ok ms
pending_from expected latest (row ∷ history) [] = do
  fail_if (not (row.version =ℕ expected)) history_corrupt
  fail_if (ltb latest row.version) schema_newer
  err out_of_range
pending_from expected latest (row ∷ history) (m ∷ ms) = do
  fail_if (not (row.version =ℕ expected)) history_corrupt
  fail_if (ltb latest row.version) schema_newer
  fail_if (not (row.checksum == m.checksum)) checksum_mismatch
  pending_from (expected + 1) latest history ms

unfoldable pub pending : List Applied → List Migration → Result Error (List Migration)
unfolding pending_from
pending history [] = err out_of_range
pending history (m ∷ ms) = pending_from m.version (last_version m ms) history (m ∷ ms)

-- The versions run on from `v`.
abbrev pub IsContiguous : ℕ → List Migration → Type 0
IsContiguous v [] = Unit {0}
IsContiguous v (m ∷ ms) = (m.version ≡ v) × IsContiguous (v + 1) ms
