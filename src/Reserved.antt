-- ===== src/Reserved.antt =====
-- internal/config/reserved.go, MatchReservedEndpoint: which load-balancer rules collide with the
-- endpoints of the management plane. Addresses are as net.ParseIP gives them.
pub mod Overlap
use loxilb_oam.Prelude.{
  ℕ, Bool, true, false, ◌&&◌, ◌||◌, not, Option, none, some, List, [], ◌∷◌, Bytes, ◌==◌, is_empty,
  ◌=ℕ◌, if◌then◌else◌,
}

-- A net.IP that is not nil: the unspecified address (0.0.0.0 or ::), or another one by the
-- bytes that Equal compares.
pub data Ip : Type 0 where
  unspecified : Ip
  address : Bytes → Ip

-- `none` of an address is nil; an empty protocol is every protocol.
pub record ReservedEndpoint : Type 0 where
  pub ip : Option Ip
  pub port : ℕ
  pub proto : Bytes

unfoldable pub addr_overlaps : Option Ip → Option Ip → Bool
addr_overlaps none rule = true
addr_overlaps (some unspecified) rule = true
addr_overlaps (some (address a)) none = true
addr_overlaps (some (address a)) (some unspecified) = true
addr_overlaps (some (address a)) (some (address b)) = a == b

-- The three tests of the loop: whether none of them passes the entry over.
unfoldable pub collides : Option Ip → ℕ → Bytes → ReservedEndpoint → Bool
collides rule_ip port rule_proto r =
    if not (r.port =ℕ port)
    then false
    else if not (is_empty r.proto) && not (is_empty rule_proto) && not (r.proto == rule_proto)
    then false
    else addr_overlaps r.ip rule_ip

-- MatchReservedEndpoint, with the rule's address parsed and its protocol trimmed and in lower case.
unfoldable pub match_reserved_endpoint :
    List ReservedEndpoint → Option Ip → ℕ → Bytes → Option ReservedEndpoint
match_reserved_endpoint [] rule_ip port rule_proto = none
match_reserved_endpoint (r ∷ rs) rule_ip port rule_proto =
    if collides rule_ip port rule_proto r
    then some r
    else match_reserved_endpoint rs rule_ip port rule_proto
