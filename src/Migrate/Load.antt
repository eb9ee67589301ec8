-- ===== src/Migrate/Load.antt =====
-- Load of internal/migrate/migrate.go: the migrations of a build, from the baseline and the files.
pub mod Sorted
use mathlib.Core.Option
use loxilb_oam.Prelude.{
  ℕ, zero, suc, ◌+◌, ◌*◌, ◌-◌, Bool, true, false, not, ◌&&◌, ◌||◌, Option, none, some, List, [],
  ◌∷◌, Bytes, bytes, ◌==◌, Result, ok, err, fail_if, ◌>>=◌, ◌>>◌, leb, ◌=ℕ◌, all, is_empty,
  if◌then◌else◌, insert_sorted, sort_by,
}
use loxilb_oam.Strings.{has_suffix}
use loxilb_oam.Strings.Utf8.{runes}
use loxilb_oam.Strings.Decimal.{is_digit}
use loxilb_oam.Strings.Segments.{split}
use loxilb_oam.Migrate.{Migration}

-- An entry of the directory; its content is `none` if it cannot be read.
pub record Entry : Type 0 where
  pub is_dir : Bool
  pub name : Bytes
  pub content : Option Bytes

pub data LoadError : Type 0 where
  empty_baseline unreadable_directory bad_name unreadable_file empty_file bad_versions : LoadError

-- unicode.IsSpace
abbrev is_space : ℕ → Bool
is_space r =
    (leb 9 r && leb r 13)
    || r =ℕ 32
    || r =ℕ 0x85
    || r =ℕ 0xa0
    || r =ℕ 0x1680
    || (leb 0x2000 r && leb r 0x200a)
    || r =ℕ 0x2028
    || r =ℕ 0x2029
    || r =ℕ 0x202f
    || r =ℕ 0x205f
    || r =ℕ 0x3000

-- strings.TrimSpace(s) == "". A byte that is not of a rune is no space.
unfoldable pub is_blank : Bytes → Bool
unfolding runes
is_blank s = elim (runes s) [ none ↦ false | some rs ↦ all is_space rs ]

abbrev is_word : Bytes → Bool
is_word s = not (is_empty s) && all (λ c. is_digit c || (leb b'a' c && leb c b'z')) s

-- The text before a final `.sql`.
abbrev without_sql : Bytes → Option Bytes
without_sql [] = none
without_sql (c ∷ s) =
    if (c ∷ s) == bytes ".sql" then some [] else Option.map (λ t. c ∷ t) (without_sql s)

abbrev decimal : ℕ → ℕ → ℕ → ℕ → ℕ
decimal a b c d = ((a - b'0') * 10 + (b - b'0')) * 100 + ((c - b'0') * 10 + (d - b'0'))

-- The version and the name in `NNNN_lower_snake_case.sql`.
unfoldable pub parse_file_name : Bytes → Option (ℕ × Bytes)
unfolding split
parse_file_name (a ∷ b ∷ c ∷ d ∷ u ∷ rest) = Option.bind (without_sql rest) λ name.
    if is_digit a
      && is_digit b
      && is_digit c
      && is_digit d
      && u =ℕ b'_'
      && all is_word (split b'_' name)
    then some (decimal a b c d, name)
    else none
parse_file_name _ = none

-- The loop that compares each version with the one wanted.
unfoldable pub check_versions : ℕ → List Migration → Result LoadError (Unit {0})
check_versions want [] = ok tt
check_versions want (m ∷ ms) =
    let rest = check_versions (want + 1) ms in
    fail_if (not (m.version =ℕ want)) bad_versions >> rest

abbrev pub by_version : Migration → Migration → Bool
by_version m n = leb m.version n.version

module _ (checksum : Bytes → Bytes) where
  abbrev of_content : ℕ → Bytes → Option Bytes → Result LoadError Migration
  of_content version name none = err unreadable_file
  of_content version name (some sql) =
      if is_blank sql
      then err empty_file
      else ok (record { version = version; name = name; sql = sql; checksum = checksum sql })

  unfoldable pub load_file : Entry → Result LoadError Migration
  unfolding parse_file_name is_blank
  load_file e = elim (parse_file_name e.name) [
    | none ↦ err bad_name
    | some (version, name) ↦ of_content version name e.content
  ]

  unfoldable pub load_files : List Entry → Result LoadError (List Migration)
  unfolding load_file
  load_files [] = ok []
  load_files (e ∷ entries) =
      let rest = load_files entries in
      if e.is_dir || not (has_suffix e.name (bytes ".sql"))
      then rest
      else load_file e >>= λ m. rest >>= λ ms. ok (m ∷ ms)

  abbrev pub baseline : ℕ → Bytes → Migration
  baseline version sql = record {
    version = version;
    name = bytes "baseline";
    sql = sql;
    checksum = checksum sql;
  }

  abbrev pub list_or_fail : Option (List Entry) → Result LoadError (List Entry)
  list_or_fail none = err unreadable_directory
  list_or_fail (some entries) = ok entries

  unfoldable pub load : ℕ → Bytes → Option (List Entry) → Result LoadError (List Migration)
  unfolding load_files check_versions is_blank sort_by
  load version sql listing = do
    fail_if (is_blank sql) empty_baseline
    entries ← list_or_fail listing
    files ← load_files entries
    let migrations = sort_by by_version (baseline version sql ∷ files)
    check_versions version migrations
    ok migrations
