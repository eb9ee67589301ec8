-- ===== src/Examples/Reserved.antt =====
-- A console on port 8443 of one address (internal/config/reserved.go).
use loxilb_oam.Prelude.{◌≡◌, refl, inr, none, some, [], ◌∷◌, bytes, Bytes-discrete}
use mathlib.Core.List.{Memᴰ}
use loxilb_oam.Reserved.{
  unspecified, address, ReservedEndpoint, addr_overlaps, collides, match_reserved_endpoint,
}
use loxilb_oam.Reserved.Overlap.{
  Packet, Takes, match_reserved_endpoint-free, match_reserved_endpoint-Takes,
}

abbrev console : ReservedEndpoint
console = record { ip = some (address (192 ∷ 168 ∷ 0 ∷ 8 ∷ [])); port = 8443; proto = bytes "tcp" }

abbrev to_web : Packet
to_web = record { destination = 192 ∷ 168 ∷ 0 ∷ 9 ∷ []; port = 8443; proto = bytes "tcp" }

-- A rule for another address, and one with a wildcard for every protocol.
no_match :
    match_reserved_endpoint (console ∷ []) (some (address to_web.destination)) 8443 (bytes "tcp")
    ≡ none
unfolding match_reserved_endpoint collides addr_overlaps Bytes-discrete
no_match = refl

wildcard_match : match_reserved_endpoint (console ∷ []) (some unspecified) 8443 [] ≡ some console
unfolding match_reserved_endpoint collides addr_overlaps Bytes-discrete
wildcard_match = refl

match_reserved_endpoint-free_example : ¬ Takes console.ip console.port console.proto to_web
match_reserved_endpoint-free_example =
    match_reserved_endpoint-free (console ∷ []) (some (address to_web.destination)) 8443
      (bytes "tcp") console to_web no_match (Memᴰ.head refl) (inr (inr refl), refl, inr refl)

match_reserved_endpoint-Takes_example :
    (p : Packet) × Takes (some unspecified) 8443 [] p
    × Takes console.ip console.port console.proto p
match_reserved_endpoint-Takes_example =
    match_reserved_endpoint-Takes (console ∷ []) (some unspecified) 8443 [] console wildcard_match
