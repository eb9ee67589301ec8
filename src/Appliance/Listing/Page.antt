-- ===== src/Appliance/Listing/Page.antt =====
-- What a page of the operations shows (internal/appliance/operation_service.go, ListOperations).
use loxilb_oam.Prelude.{
  ℕ, zero, suc, ◌≤◌, ◌≡◌, refl, ◌||◌, Bool, true, false, List, [], ◌∷◌, map, length, take, All, ok,
  arith, ltb,
}
use loxilb_oam.Appliance.Operation.{Operation}
use loxilb_oam.Appliance.Store.World.{Error, World, M, pure, refuse_if, ◌>>◌}
use loxilb_oam.Appliance.Caller.{Caller}
use loxilb_oam.Appliance.Planning.{visible_to}
use loxilb_oam.Appliance.Planning.Replay.{
  Ensures, Ensures-bind, Ensures-pure, Visible, visible_to-redacted,
}
use loxilb_oam.Appliance.Listing.{
  ListFilter, OperationList, page, list_page, list_operations, limit_or_default, max_list_limit,
}

-- A page of at most so many operations, each as the caller may see it.
pub record IsPage (limit : ℕ) (c : Caller) (p : OperationList) : Type 0 where
  pub bounded : length p.items ≤ limit
  pub visible : All (Visible c) p.items

length-take : (n : ℕ) (xs : List Operation) → length (take n xs) ≤ n
length-take zero xs = omega arith
length-take (suc n) [] = omega arith
length-take (suc n) (x ∷ xs) = let h = length-take n xs in omega arith

length-map : (f : Operation → Operation) (xs : List Operation) → length (map f xs) ≡ length xs
length-map f [] = refl
length-map f (x ∷ xs) = let h = length-map f xs in omega arith

all-Visible : (c : Caller) (xs : List Operation) → All (Visible c) (map (λ op. visible_to op c) xs)
all-Visible c [] = tt
all-Visible c (x ∷ xs) = (visible_to-redacted c x (visible_to x c) refl, all-Visible c xs)

page-IsPage :
    (limit : ℕ) (c : Caller) (ops : List Operation) → limit ≤ 100 → IsPage 100 c (page limit c ops)
unfolding page
page-IsPage limit c ops l =
    let a = length-take limit ops in
    let b = length-map (λ op. visible_to op c) (take limit ops) in
    record { bounded = omega arith; visible = all-Visible c (take limit ops) }

made-Ensures :
    (limit : ℕ) (c : Caller)
    → limit ≤ 100
    → (ops : List Operation) → Ensures (IsPage 100 c) (pure (page limit c ops))
made-Ensures limit c l ops =
    Ensures-pure (IsPage 100 c) (page limit c ops) (page-IsPage limit c ops l)

-- What follows a check that did not refuse.
guarded-Ensures {ℓ} :
    {A : Type ℓ} (Q : A → Type 0) (test : Bool) (e : Error) (m : M A)
    → (test ≡ false → Ensures Q m)
    → Ensures Q (refuse_if test e >> m)
guarded-Ensures Q true e m h = record { ensures = λ w a p. absurd (ground arith) }
guarded-Ensures Q false e m h = record { ensures = λ w a p. (h refl).ensures w a p }

within_limit :
    (f : ListFilter) → (ltb f.limit 1 || ltb max_list_limit f.limit) ≡ false → f.limit ≤ 100
within_limit f h = ground arith

list_page-Ensures : (c : Caller) (f : ListFilter) → Ensures (IsPage 100 c) (list_page c f)
unfolding list_page
list_page-Ensures c f = guarded-Ensures (IsPage 100 c) _ _ _ λ h.
    let made = made-Ensures f.limit c (within_limit f h) in search (Ensures-bind, made) depth 10

list_operations-Ensures :
    (c : Caller) (f : ListFilter) → Ensures (IsPage 100 c) (list_operations c f)
unfolding list_operations
list_operations-Ensures c f =
    let made = list_page-Ensures c (limit_or_default f) in search (Ensures-bind, made) depth 12

-- Whatever the filter and whatever else happens, a page that is returned has at most 100
-- operations, and those of a type that the caller may not run come without plan hash, plan and
-- note, and are marked as redacted.
pub list_operations-IsPage :
    (c : Caller) (f : ListFilter) (w : World) (p : OperationList)
    → (list_operations c f w).0 ≡ ok p
    → IsPage 100 c p
list_operations-IsPage c f w p h = (list_operations-Ensures c f).ensures w p h
