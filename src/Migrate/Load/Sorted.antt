-- ===== src/Migrate/Load/Sorted.antt =====
-- What Load of internal/migrate/migrate.go gives, if it succeeds.
use mathlib.Core.List.{Memᴰ}
use loxilb_oam.Prelude.{
  ℕ, ◌+◌, ◌≤◌, ◌≡◌, sym, ap, ◌∙◌, refl, Bool, some, List, [], ◌∷◌, Bytes, ok, length, arith,
  insert_sorted, sort_by, Bool-cases, Result-cases, inl, inr, suc,
}
use loxilb_oam.Migrate.{Migration, IsContiguous}
use loxilb_oam.Migrate.Load.{Entry, check_versions, load_files, baseline, load, by_version}

check_versions-IsContiguous :
    (v : ℕ) (ms : List Migration) → check_versions v ms ≡ ok tt → IsContiguous v ms
unfolding check_versions
check_versions-IsContiguous v [] e = tt
check_versions-IsContiguous v (m ∷ ms) e =
    (ground arith, check_versions-IsContiguous (v + 1) ms (ground arith))

module _ (before : Migration → Migration → Bool) where
  length-insert_sorted :
      (x : Migration) (xs : List Migration) → length (insert_sorted before x xs) ≡ suc (length xs)
  unfolding insert_sorted
  length-insert_sorted x [] = refl
  length-insert_sorted x (y ∷ ys) = ground (arith, length-insert_sorted x ys)

  length-sort_by : (xs : List Migration) → length (sort_by before xs) ≡ length xs
  unfolding sort_by
  length-sort_by [] = refl
  length-sort_by (x ∷ xs) =
      omega (arith, length-insert_sorted x (sort_by before xs), length-sort_by xs)

  inserted-mem : (x : Migration) (xs : List Migration) → Memᴰ x (insert_sorted before x xs)
  unfolding insert_sorted
  inserted-mem x [] = Memᴰ.head refl
  inserted-mem x (y ∷ ys) = elim (Bool-cases (before x y)) [
    | inl p ↦ rw (p, insert_sorted) (Memᴰ.head refl)
    | inr p ↦ rw (p, insert_sorted) (Memᴰ.tail (inserted-mem x ys))
  ]

  insert_sorted-mem :
      (m x : Migration) (xs : List Migration) → Memᴰ m xs → Memᴰ m (insert_sorted before x xs)
  unfolding insert_sorted
  insert_sorted-mem m x [] h = elim h [ ]
  insert_sorted-mem m x (y ∷ ys) (Memᴰ.head e) = elim (Bool-cases (before x y)) [
    | inl p ↦ rw (p, insert_sorted) (Memᴰ.tail (Memᴰ.head e))
    | inr p ↦ rw (p, insert_sorted) (Memᴰ.head e)
  ]
  insert_sorted-mem m x (y ∷ ys) (Memᴰ.tail h) =
      let ih = insert_sorted-mem m x ys h in
      elim (Bool-cases (before x y)) [
        | inl p ↦ rw (p, insert_sorted) (Memᴰ.tail (Memᴰ.tail h))
        | inr p ↦ rw (p, insert_sorted) (Memᴰ.tail ih)
      ]

  sort_by-mem : (m : Migration) (xs : List Migration) → Memᴰ m xs → Memᴰ m (sort_by before xs)
  unfolding sort_by
  sort_by-mem m [] h = elim h [ ]
  sort_by-mem m (x ∷ xs) (Memᴰ.head e) = rw e (inserted-mem x (sort_by before xs))
  sort_by-mem m (x ∷ xs) (Memᴰ.tail h) =
      insert_sorted-mem m x (sort_by before xs) (sort_by-mem m xs h)

later-mem :
    (v : ℕ) (m : Migration) (ms : List Migration) → IsContiguous v ms → Memᴰ m ms → v ≤ m.version
later-mem v m [] c h = elim h [ ]
later-mem v m (n ∷ ms) (e, c) (Memᴰ.head s) = ground arith
later-mem v m (n ∷ ms) (e, c) (Memᴰ.tail h) = omega (arith, later-mem (v + 1) m ms c h)

-- In a list without gaps, the migration that has the first version stands first.
first :
    (v : ℕ) (m : Migration) (ms : List Migration)
    → IsContiguous v ms
    → m.version ≡ v
    → Memᴰ m ms
    → (later : List Migration) × (ms ≡ m ∷ later)
first v m [] c e h = elim h [ ]
first v m (n ∷ ms) c e (Memᴰ.head s) = (ms, ap (λ x. x ∷ ms) (sym s))
first v m (n ∷ ms) (p, c) e (Memᴰ.tail h) = absurd (omega (arith, later-mem (v + 1) m ms c h))

loaded :
    (checksum : Bytes → Bytes) (v : ℕ) (sql : Bytes) (entries : List Entry) (ms : List Migration)
    → load checksum v sql (some entries) ≡ ok ms
    → (files : List Migration) × (ms ≡ sort_by by_version (baseline checksum v sql ∷ files))
      × (check_versions v ms ≡ ok tt)
      × (load_files checksum entries ≡ ok files)
unfolding load
loaded checksum v sql entries ms e = elim (Result-cases (load_files checksum entries)) [
  | inl (files, q) ↦ (files, ground arith, ground arith, q)
  | inr (x, q) ↦ absurd (ground arith)
]

-- The migrations that Load gives, if it succeeds: the baseline and then one for each file that it
-- reads, no other, each of the files is there, and their versions run on from the baseline's
-- without a gap.
pub load-IsContiguous :
    (checksum : Bytes → Bytes) (v : ℕ) (sql : Bytes) (entries : List Entry) (ms : List Migration)
    → load checksum v sql (some entries) ≡ ok ms
    → (later : List Migration) × (ms ≡ baseline checksum v sql ∷ later)
      × IsContiguous v ms
      × ((files : List Migration) × (load_files checksum entries ≡ ok files)
          × (length later ≡ length files)
          × ((m : Migration) → Memᴰ m files → Memᴰ m ms))
load-IsContiguous checksum v sql entries ms e =
    let (files, p, q, r) = loaded checksum v sql entries ms e in
    let b = baseline checksum v sql in
    let contiguous = check_versions-IsContiguous v ms q in
    let mem : (m : Migration) → Memᴰ m (b ∷ files) → Memᴰ m ms =
      λ m h. rw p (sort_by-mem by_version m (b ∷ files) h) in
    let (later, s) = first v b ms contiguous refl (mem b (Memᴰ.head refl)) in
    let size = length-sort_by by_version (b ∷ files) in
    (
      later,
      s,
      contiguous,
      (
        files,
        r,
        omega (arith, size, ap (λ (l : List Migration). length l) (sym s ∙ p)),
        λ m h. mem m (Memᴰ.tail h),
      ),
    )
