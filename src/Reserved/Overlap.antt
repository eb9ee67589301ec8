-- ===== src/Reserved/Overlap.antt =====
-- When a rule is refused (internal/config/reserved.go): it takes traffic of a reserved endpoint.
use loxilb_oam.Prelude.{ℕ, ◌≡◌, ◌⊎◌, true, false, Option, none, some, List, [], ◌∷◌, Bytes, arith}
use mathlib.Core.List.{Memᴰ}
use loxilb_oam.Reserved.{
  Ip, unspecified, address, ReservedEndpoint, addr_overlaps, collides, match_reserved_endpoint,
}

-- A packet, by where it goes.
pub record Packet : Type 0 where
  pub destination : Bytes
  pub port : ℕ
  pub proto : Bytes

-- Whether an address, a port and a protocol take a packet in: no address and the unspecified one
-- are every address, no protocol is every protocol.
abbrev pub Takes : Option Ip → ℕ → Bytes → Packet → Type 0
Takes ip port proto p =
    ((ip ≡ none) ⊎ (ip ≡ some unspecified) ⊎ (ip ≡ some (address p.destination)))
    × (port ≡ p.port)
    × ((proto ≡ []) ⊎ (proto ≡ p.proto))

Takes-both :
    (ip : Option Ip) (port : ℕ) (proto : Bytes) (r : ReservedEndpoint) (p : Packet)
    → Takes ip port proto p
    → Takes r.ip r.port r.proto p
    → collides ip port proto r ≡ true
unfolding collides addr_overlaps
Takes-both ip port proto r p a b = ground arith

-- A packet that both would take.
abbrev meeting : Option Ip → Option Ip → Bytes
meeting (some (address a)) rule = a
meeting r (some (address b)) = b
meeting r rule = []

abbrev common_proto : Bytes → Bytes → Bytes
common_proto [] rule = rule
common_proto (x ∷ xs) rule = x ∷ xs

meeting-Takes :
    (ip : Option Ip) (port : ℕ) (proto : Bytes) (r : ReservedEndpoint)
    → collides ip port proto r ≡ true
    → (p : Packet) × Takes ip port proto p × Takes r.ip r.port r.proto p
unfolding collides addr_overlaps
meeting-Takes ip port proto r h =
    let p : Packet = record {
      destination = meeting r.ip ip;
      port = port;
      proto = common_proto r.proto proto;
    } in
    (p, ground arith, ground arith)

matched :
    (list : List ReservedEndpoint) (ip : Option Ip) (port : ℕ) (proto : Bytes)
    (r : ReservedEndpoint)
    → match_reserved_endpoint list ip port proto ≡ some r
    → collides ip port proto r ≡ true
unfolding match_reserved_endpoint
matched [] ip port proto r e = absurd (ground arith)
matched (q ∷ list) ip port proto r e = let rest = matched list ip port proto r in ground arith

passed_over :
    (q : ReservedEndpoint) (list : List ReservedEndpoint) (ip : Option Ip) (port : ℕ)
    (proto : Bytes)
    → match_reserved_endpoint (q ∷ list) ip port proto ≡ none
    → (collides ip port proto q ≡ false) × (match_reserved_endpoint list ip port proto ≡ none)
unfolding match_reserved_endpoint
passed_over q list ip port proto e = ground arith

unmatched :
    (list : List ReservedEndpoint) (ip : Option Ip) (port : ℕ) (proto : Bytes)
    (r : ReservedEndpoint)
    → match_reserved_endpoint list ip port proto ≡ none
    → Memᴰ r list
    → collides ip port proto r ≡ false
unmatched [] ip port proto r e m = elim m [ ]
unmatched (q ∷ list) ip port proto r e (Memᴰ.head s) = rw s ((passed_over q list ip port proto e).0)
unmatched (q ∷ list) ip port proto r e (Memᴰ.tail m) =
    unmatched list ip port proto r ((passed_over q list ip port proto e).1) m

-- A rule that matches none of the reserved endpoints takes no packet that one of them takes.
pub match_reserved_endpoint-free :
    (list : List ReservedEndpoint) (ip : Option Ip) (port : ℕ) (proto : Bytes)
    (r : ReservedEndpoint) (p : Packet)
    → match_reserved_endpoint list ip port proto ≡ none
    → Memᴰ r list
    → Takes ip port proto p
    → ¬ Takes r.ip r.port r.proto p
match_reserved_endpoint-free list ip port proto r p e m a = λ b.
    let yes = Takes-both ip port proto r p a b in let no = unmatched list ip port proto r e m in cc

-- A rule that matches a reserved endpoint is refused for a reason: some packet is taken by both.
pub match_reserved_endpoint-Takes :
    (list : List ReservedEndpoint) (ip : Option Ip) (port : ℕ) (proto : Bytes)
    (r : ReservedEndpoint)
    → match_reserved_endpoint list ip port proto ≡ some r
    → (p : Packet) × Takes ip port proto p × Takes r.ip r.port r.proto p
match_reserved_endpoint-Takes list ip port proto r e =
    meeting-Takes ip port proto r (matched list ip port proto r e)
