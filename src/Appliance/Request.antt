-- ===== src/Appliance/Request.antt =====
-- internal/appliance/operation.go: what makes a plan request, an idempotency key and an operation
-- ID acceptable; internal/appliance/lifecycle.go: the shape of a host error code.
use loxilb_oam.Prelude.{
  ℕ, suc, Bool, true, false, ◌&&◌, ◌||◌, not, [], ◌∷◌, Bytes, Result, ◌>>◌, fail_if, ltb, leb, ◌=ℕ◌,
  any, is_empty, length, if◌then◌else◌,
}
use loxilb_oam.Appliance.Operation.{OperationType, PlanRequest, valid_type}

abbrev pub max_ref_length : ℕ
max_ref_length = 256

abbrev pub max_note_length : ℕ
max_note_length = 500

abbrev pub min_idempotency_key_len : ℕ
min_idempotency_key_len = 16

abbrev pub max_idempotency_key_len : ℕ
max_idempotency_key_len = 128

-- The messages wrapped in ErrInvalidRequest.
pub data RequestError : Type 0 where
  bad_type bad_reference_length bad_note_length bad_archive_ref bad_target_release_ref :
      RequestError

abbrev pub is_restore : OperationType → Bool
is_restore OperationType.restore = true
is_restore _ = false

abbrev pub is_update : OperationType → Bool
is_update OperationType.update = true
is_update _ = false

-- `a != b` on Booleans.
abbrev pub differ : Bool → Bool → Bool
differ true b = not b
differ false b = b

unfoldable pub validate : PlanRequest → Result RequestError (Unit {0})
validate r = do
  fail_if (not (valid_type r.request_type)) bad_type
  fail_if
      (ltb max_ref_length (length r.archive_ref)
        || ltb max_ref_length (length r.target_release_ref))
      bad_reference_length
  fail_if (ltb max_note_length (length r.request_note)) bad_note_length
  fail_if (differ (is_restore r.request_type) (not (is_empty r.archive_ref))) bad_archive_ref
  fail_if (differ (is_update r.request_type) (not (is_empty r.target_release_ref)))
      bad_target_release_ref

-- strings.IndexFunc finds a rune outside '!' to '~' exactly if some byte is outside that range: a
-- rune that is not ASCII, valid or not, has only bytes above '~'.
unfoldable pub valid_idempotency_key : Bytes → Bool
valid_idempotency_key key =
    if ltb (length key) min_idempotency_key_len || ltb max_idempotency_key_len (length key)
    then false
    else not (any (λ r. leb r b' ' || ltb b'~' r) key)

-- The character at position `i` of a UUID in text.
abbrev pub is_uuid_char : ℕ → ℕ → Bool
is_uuid_char i c =
    if i =ℕ 8 || i =ℕ 13 || i =ℕ 18 || i =ℕ 23
    then c =ℕ b'-'
    else (leb b'0' c && leb c b'9') || (leb b'a' c && leb c b'f')

-- The loop of ValidOperationID from position `i` on. It is over runes; at the first byte that is
-- not ASCII both it and the source answer false.
uuid_from : ℕ → Bytes → Bool
uuid_from i [] = true
uuid_from i (c ∷ s) = is_uuid_char i c && uuid_from (suc i) s

unfoldable pub valid_operation_id : Bytes → Bool
unfolding uuid_from
valid_operation_id id = if not (length id =ℕ 36) then false else uuid_from 0 id

abbrev pub is_code_char : ℕ → ℕ → Bool
is_code_char i c =
    (leb b'A' c && leb c b'Z') || (ltb 0 i && ((leb b'0' c && leb c b'9') || c =ℕ b'_'))

code_from : ℕ → Bytes → Bool
code_from i [] = true
code_from i (c ∷ s) = is_code_char i c && code_from (suc i) s

unfoldable pub host_error_code_ok : Bytes → Bool
unfolding code_from
host_error_code_ok code =
    if ltb (length code) 2 || ltb 64 (length code) then false else code_from 0 code
