-- ===== src/Rbac/Laws.antt =====
-- What the capability matrix of internal/middleware/rbac.go grants, and what its gate lets through.
use loxilb_oam.Prelude.{◌≡◌, ◌⊎◌, true, Bytes, arith}
use loxilb_oam.Rbac.{Action, role_admin, role_viewer, is_valid_role, can}

-- The rank of a role: what a lower one holds, a higher one holds.
abbrev pub Rank : Bytes → Bytes → Type 0
Rank low high =
    (high ≡ role_admin) ⊎ ((low ≡ role_viewer) × (is_valid_role high ≡ true)) ⊎ (low ≡ high)

-- A viewer's capabilities are an operator's, and an operator's an administrator's.
pub can_mono :
    (low high : Bytes) (a : Action) → Rank low high → can low a ≡ true → can high a ≡ true
unfolding can is_valid_role
can_mono low high a r h = ground arith
