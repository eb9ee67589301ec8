-- ===== src/Migrate/Pending.antt =====
-- What pending of internal/migrate/migrate.go lets through, and what it refuses.
use mathlib.Core.List.{append-nil}
use loxilb_oam.Prelude.{
  ℕ, sym, ◌≤◌, ◌+◌, ◌≡◌, ◌≢◌, ◌<◌, ◌↔◌, refl, ap, ◌∙◌, List, [], ◌∷◌, ◌++◌, map, ok, err, arith,
  length,
}
use loxilb_oam.Migrate.{
  Migration, Applied, Error, schema_newer, checksum_mismatch, history_corrupt, key, last_version,
  pending_from, pending, IsContiguous,
}

pub last_version-IsContiguous :
    (v : ℕ) (m : Migration) (ms : List Migration)
    → IsContiguous v (m ∷ ms)
    → last_version m ms + 1 ≡ v + length (m ∷ ms)
last_version-IsContiguous v m [] (e, c) = omega arith
last_version-IsContiguous v m (n ∷ ms) (e, c) =
    omega (arith, last_version-IsContiguous (v + 1) n ms c)

-- The records of migrations at the head of the list are passed over.
passed :
    (v latest : ℕ) (ms rest : List Migration) (history : List Applied)
    → IsContiguous v (ms ++ rest)
    → v + length (ms ++ rest) ≡ latest + 1
    → pending_from v latest (map key ms ++ history) (ms ++ rest)
      ≡ pending_from (v + length ms) latest history rest
unfolding pending_from
passed v latest [] rest history c e = ground arith
passed v latest (m ∷ ms) rest history (s, c) e =
    ground (arith, passed (v + 1) latest ms rest history)

sound :
    (v latest : ℕ) (history : List Applied) (ms todo : List Migration)
    → IsContiguous v ms
    → pending_from v latest history ms ≡ ok todo
    → (done : List Migration) × (ms ≡ done ++ todo) × (history ≡ map key done)
unfolding pending_from
sound v latest [] ms todo c e = ([], ground arith, refl)
sound v latest (row ∷ history) [] todo c e = absurd (ground arith)
sound v latest (row ∷ history) (m ∷ ms) todo (s, c) e =
    let (done, p, q) = sound (v + 1) latest history ms todo c (ground arith) in
    (m ∷ done, ap (λ x. m ∷ x) p, ground arith)

settled : (v latest : ℕ) (ms : List Migration) → pending_from v latest [] ms ≡ ok ms
unfolding pending_from
settled v latest [] = refl
settled v latest (m ∷ ms) = refl

length-append : (xs ys : List Migration) → length (xs ++ ys) ≡ length xs + length ys
length-append [] ys = omega arith
length-append (x ∷ xs) ys = omega (arith, length-append xs ys)

wrong_version :
    (v latest : ℕ) (row : Applied) (history : List Applied) (ms : List Migration)
    → row.version ≢ v
    → pending_from v latest (row ∷ history) ms ≡ err history_corrupt
unfolding pending_from
wrong_version v latest row history [] h = ground arith
wrong_version v latest row history (m ∷ ms) h = ground arith

past_latest :
    (v latest : ℕ) (row : Applied) (history : List Applied) (ms : List Migration)
    → ms ≡ []
    → row.version ≡ v
    → latest < v
    → pending_from v latest (row ∷ history) ms ≡ err schema_newer
unfolding pending_from
past_latest v latest row history [] e h l = ground arith
past_latest v latest row history (m ∷ ms) e h l = cc

wrong_checksum :
    (v latest : ℕ) (row : Applied) (history : List Applied) (ms : List Migration) (n : Migration)
    (ns : List Migration)
    → ms ≡ n ∷ ns
    → row.version ≡ v
    → row.checksum ≢ n.checksum
    → v ≤ latest
    → pending_from v latest (row ∷ history) ms ≡ err checksum_mismatch
unfolding pending_from
wrong_checksum v latest row history [] n ns e h k l = cc
wrong_checksum v latest row history (m ∷ ms) n ns e h k l = ground arith

module _ (v : ℕ) (m : Migration) (ms : List Migration) (c : IsContiguous v (m ∷ ms)) where
  pending_lem :
      (history : List Applied)
      → pending history (m ∷ ms) ≡ pending_from v (last_version m ms) history (m ∷ ms)
  unfolding pending
  pending_lem history = ap (λ n. pending_from n (last_version m ms) history (m ∷ ms)) c.0

  pending-passed :
      (done rest : List Migration) (history : List Applied)
      → m ∷ ms ≡ done ++ rest
      → pending (map key done ++ history) (m ∷ ms)
        ≡ pending_from (v + length done) (last_version m ms) history rest
  pending-passed done rest history e =
      pending_lem (map key done ++ history)
      ∙ ap (λ l. pending_from v (last_version m ms) (map key done ++ history) l) e
      ∙ passed v (last_version m ms) done rest history (rw (← e) c) (
          omega
            (arith, last_version-IsContiguous v m ms c, ap (λ (l : List Migration). length l) e))

  -- For migrations whose versions run on without a gap: what is left to apply is `todo` exactly
  -- when the migrations are some that are done and then `todo`, and the history records just the
  -- versions and checksums of those that are done, in their order.
  pub pending-eq-ok :
      (history : List Applied) (todo : List Migration)
      → (pending history (m ∷ ms) ≡ ok todo)
        ↔ ((done : List Migration) × (m ∷ ms ≡ done ++ todo) × (history ≡ map key done))
  pending-eq-ok history todo = (
    λ e. sound v (last_version m ms) history (m ∷ ms) todo c (sym (pending_lem history) ∙ e),
    λ (done, e, h).
        ap (λ x. pending x (m ∷ ms)) (h ∙ sym (append-nil (map key done)))
        ∙ pending-passed done todo [] e
        ∙ settled (v + length done) (last_version m ms) todo,
  )

  refused :
      (done rest : List Migration) (row : Applied) (history : List Applied) (e : Error)
      → m ∷ ms ≡ done ++ rest
      → pending_from (v + length done) (last_version m ms) (row ∷ history) rest ≡ err e
      → pending (map key done ++ (row ∷ history)) (m ∷ ms) ≡ err e
  refused done rest row history e p q = pending-passed done rest (row ∷ history) p ∙ q

  -- The first record that does not fit decides the error: a version that is not the next one is a
  -- corrupt history, the next version with no migration left is a newer schema, and a checksum
  -- other than that of the next migration is a mismatch.
  pub pending_refused :
      (done rest : List Migration) (row : Applied) (history : List Applied)
      → m ∷ ms ≡ done ++ rest
      → (row.version ≢ v + length done
          → pending (map key done ++ (row ∷ history)) (m ∷ ms) ≡ err history_corrupt)
        × (row.version ≡ v + length done
            → rest ≡ []
            → pending (map key done ++ (row ∷ history)) (m ∷ ms) ≡ err schema_newer)
        × ((n : Migration) (ns : List Migration)
            → row.version ≡ v + length done
            → rest ≡ n ∷ ns
            → row.checksum ≢ n.checksum
            → pending (map key done ++ (row ∷ history)) (m ∷ ms) ≡ err checksum_mismatch)
  pending_refused done rest row history p =
      let size = ap (λ (l : List Migration). length l) p ∙ length-append done rest in
      let last = last_version-IsContiguous v m ms c in
      (
        λ n. refused done rest row history _ p (wrong_version _ _ row history rest n),
        λ n r. refused done rest row history _ p (
            past_latest _ _ row history rest r n
              (omega (arith, size, last, ap (λ (l : List Migration). length l) r))),
        λ n ns s r k. refused done rest row history _ p (
            wrong_checksum _ _ row history rest n ns r s k
              (omega (arith, size, last, ap (λ (l : List Migration). length l) r))),
      )
