-- ===== src/Examples/HostAuth.antt =====
-- A signed request for a job (internal/appliance/hostauth.go).
use loxilb_oam.Prelude.{◌≡◌, ◌≢◌, ◌*◌, refl, any, false, ◌==◌, [], ◌++◌, bytes, ok, arith}
use loxilb_oam.Appliance.HostAuth.{
  Crypto, SignedRequest, second, sign_request, evict, verify_request,
}
use loxilb_oam.Appliance.HostAuth.Replay.{verify_all, verify_request-once}
use loxilb_oam.Appliance.HostAuth.Signing.{verify_request-sign_request}

-- Functions in the place of SHA-256 and of HMAC.
abbrev toy : Crypto
toy = record { sum = λ s. bytes "s"; mac = λ key s. key ++ s }

abbrev unsigned : SignedRequest
unsigned = record {
  method = bytes "GET";
  uri = bytes "/v1/jobs/a";
  signature = [];
  timestamp = [];
  nonce = [];
}

abbrev signed : SignedRequest
signed = sign_request toy unsigned (bytes "k") [] (bytes "n") (1000 * second)

none_known : any (λ s. s.nonce == bytes "n") (evict (1030 * second) []) ≡ false
unfolding evict
none_known = refl

verify_request-sign_request_example :
    (verify_request toy signed (bytes "k") [] (1030 * second) []).0 ≡ ok tt
verify_request-sign_request_example =
    verify_request-sign_request toy unsigned (bytes "k") [] (bytes "n") (1000 * second)
      (1030 * second) [] (omega arith) (omega arith) (omega arith) (λ e. cc) none_known

verify_request-once_example :
    (verify_request toy signed
      (bytes "k")
      []
      (1050 * second)
      (verify_all toy [] (verify_request toy signed (bytes "k") [] (1030 * second) []).1)).0
    ≢ ok tt
verify_request-once_example =
    verify_request-once toy signed signed (bytes "k") (bytes "k") [] [] (1030 * second)
      (1050 * second) [] [] verify_request-sign_request_example refl refl tt
