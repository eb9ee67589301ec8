-- ===== src/Gateway/Path.antt =====
-- internal/services/gateway_path.go: the canonical form of a proxied path and the outbound URL.
pub mod Canonical
pub mod Version
use loxilb_oam.Prelude.{
  ℕ, Bool, true, false, ◌&&◌, ◌||◌, not, Option, none, some, List, [], ◌∷◌, ◌++◌, Bytes, bytes,
  ◌==◌, is_empty, is_some, ltb, ◌=ℕ◌, any, Result, ok, err, ◌>>=◌, ◌>>◌, fail_if, if◌then◌else◌,
}
use loxilb_oam.Strings.{to_lower, has_prefix, contains, trim_slash, has_suffix}
use loxilb_oam.Strings.Utf8.{runes}
use loxilb_oam.Strings.Segments.{split, join}

abbrev pub slash : ℕ
slash = b'/'

abbrev pub gateway_api_version : Bytes
gateway_api_version = bytes "v1"

pub record GatewayPath : Type 0 where
  pub rel : Bytes
  pub versioned : Bool

-- The reasons that ErrGatewayPathInvalid is returned with.
pub data PathError : Type 0 where
  encoded_separator invalid_path bad_character bad_segment : PathError

-- A rune that changes meaning in a URL, or a control character.
abbrev pub is_bad_rune : ℕ → Bool
is_bad_rune r = ltb r 0x20 || r =ℕ 0x7f || r =ℕ b'\\' || r =ℕ b'?' || r =ℕ b'#'

unfoldable pub is_bad_segment : Bytes → Bool
is_bad_segment s = is_empty s || s == bytes "." || s == bytes ".."

-- The version segment, if the caller wrote it, is taken off.
unfoldable pub from_segments : List Bytes → GatewayPath
from_segments [] = record { rel = slash ∷ []; versioned = false }
from_segments (s ∷ ss) =
    if s == gateway_api_version
    then record { rel = slash ∷ join slash ss; versioned = true }
    else record { rel = slash ∷ join slash (s ∷ ss); versioned = false }

-- The part of the function below its checks of the whole string.
unfoldable pub from_trimmed : Bytes → Result PathError GatewayPath
from_trimmed [] = ok (record { rel = slash ∷ []; versioned = false })
from_trimmed (c ∷ s) = do
  let segments = split slash s
  fail_if (any is_bad_segment segments) bad_segment
  ok (from_segments segments)

-- `none` is a string that is not valid UTF-8.
unfoldable pub check_runes : Option (List ℕ) → Result PathError (Unit {0})
check_runes none = err invalid_path
check_runes (some rs) = fail_if (any is_bad_rune rs) bad_character

unfoldable pub canonical_gateway_path : Bytes → Bytes → Result PathError GatewayPath
canonical_gateway_path decoded escaped = do
  let lowered = to_lower escaped
  fail_if (contains lowered (bytes "%2f") || contains lowered (bytes "%5c")) encoded_separator
  fail_if (not (has_prefix decoded (bytes "/"))) invalid_path
  check_runes (runes decoded)
  from_trimmed (trim_slash decoded)

-- The fields of a parsed url.URL that the outbound URL is made of.
pub record Url : Type 0 where
  pub scheme_host : Bytes
  pub path : Bytes
  pub raw_query : Bytes
  pub fragment : Bytes

-- gatewayTargetURL from the parsed endpoint on; `none` is ErrGatewayPathInvalid.
unfoldable pub gateway_target_url : Url → GatewayPath → Bytes → Option Url
gateway_target_url target p raw_query =
    if is_empty p.rel
    then none
    else let base = trim_slash target.path in
      let base' =
        if p.versioned && not (has_suffix base (slash ∷ gateway_api_version))
        then base ++ slash ∷ gateway_api_version
        else base in
      some
        (record target { path = base' ++ trim_slash p.rel; raw_query = raw_query; fragment = [] })
