-- ===== src/Broker/Requests.antt =====
-- Canonical JSON, the decoding of capabilities, and requests (src/lumi_eggcracker/brokered/operator.py, lines 197-475).
use lumi_eggcracker.Base.{
  ℕ, zero, suc, ◌-◌, ◌%◌, String, Bool, true, false, not, ◌&&◌, ◌||◌, Option, none, some, List, [],
  ◌∷◌, ◌++◌, leb, ltb, ◌==◌, if◌then◌else◌, str_eq, elem, codes, is_alnum, all, length, Result, ok,
  err,
}
use lumi_eggcracker.Json.{Value, obj, Fields, get, keys, same_keys, is_int, is_text, is_the}
use lumi_eggcracker.Broker.Library.{Library}
use lumi_eggcracker.Broker.Claims.{
  max_request_bytes, max_capability_bytes, max_actions_per_run, capability_schema, request_schema,
  action_name, target_name, hex32, operation_id_text, bytes_eq, text_at, nat_at, claim_keys, Claims,
  claims_of,
}

pub record Request : Type 0 where
  pub capability : String
  pub generation : ℕ
  pub operation_id : String
  pub run_id : String

abbrev request_keys : List String
request_keys =
    "action" ∷ "capability" ∷ "generation" ∷ "operation_id" ∷ "payload" ∷ "run_id"
    ∷ "schema_version" ∷ "target" ∷ []

-- `isinstance(payload, dict) and set(payload) == {"delta"} and payload["delta"] == 1`
unfoldable pub delta_payload : Option Value → Bool
delta_payload (some (obj fs)) =
    same_keys fs ("delta" ∷ []) && is_int 0 (get "delta" fs) && nat_at "delta" fs == 1
delta_payload _ = false

unfoldable pub request_of : Fields → Request
request_of fs = record {
  capability = text_at "capability" fs;
  generation = nat_at "generation" fs;
  operation_id = text_at "operation_id" fs;
  run_id = text_at "run_id" fs;
}

-- the tests on the values
unfoldable pub request_values : Fields → Bool
unfolding delta_payload hex32 operation_id_text
request_values fs =
    is_the request_schema (get "schema_version" fs)
    && is_the action_name (get "action" fs)
    && is_the target_name (get "target" fs)
    && is_text hex32 (get "run_id" fs)
    && is_int 0 (get "generation" fs)
    && is_text operation_id_text (get "operation_id" fs)
    && is_text (λ s. true) (get "capability" fs)
    && delta_payload (get "payload" fs)

-- The two tests on the keys, then those on the values; an error is the denial code.
unfoldable pub request_fields : Fields → Result Request
unfolding request_of
request_fields fs =
    if not (all (λ k. elem k request_keys) (keys fs))
    then err "UNKNOWN_FIELDS"
    else if not (same_keys fs request_keys)
    then err "MALFORMED_INPUT"
    else if request_values fs
    then ok (request_of fs)
    else err "MALFORMED_INPUT"

-- `value.split(".")`
split_dot : List ℕ → List ℕ → List (List ℕ)
split_dot acc [] = acc ∷ []
split_dot acc (c ∷ cs) =
    let next = split_dot [] cs in
    let same = split_dot (acc ++ c ∷ []) cs in if c == b'.' then acc ∷ next else same

token_part : ℕ → Bool
token_part c = is_alnum c || c == b'_' || c == b'-'

-- `rstrip(b"=")`
strip_onto : ℕ → List ℕ → List ℕ
strip_onto c [] = if c == b'=' then [] else c ∷ []
strip_onto c (d ∷ ds) = c ∷ d ∷ ds

rstrip_pad : List ℕ → List ℕ
unfolding strip_onto
rstrip_pad [] = []
rstrip_pad (c ∷ cs) = strip_onto c (rstrip_pad cs)

padding : ℕ → List ℕ
padding zero = []
padding (suc n) = b'=' ∷ padding n

module _ (lib : Library) where
  -- `_parse_canonical_json`: the message tells only "non-canonical" from the rest
  unfoldable pub parse_canonical_json : List ℕ → ℕ → Result Fields
  unfolding bytes_eq
  parse_canonical_json raw maximum =
      if leb 1 (length raw) && leb (length raw) maximum
      then (elim (lib.loads raw) [
        | none ↦ err "malformed"
        | some (obj fs) ↦ (if bytes_eq (lib.dumps (obj fs)) raw then ok fs else err "non-canonical")
        | some _ ↦ err "malformed"
      ])
      else err "malformed"

  unfoldable pub request_code : Result Fields → Result Request
  unfolding request_fields
  request_code (ok fs) = request_fields fs
  request_code (err message) =
      if str_eq message "non-canonical" then err "NON_CANONICAL_INPUT" else err "MALFORMED_INPUT"

  -- `_validate_request`
  unfoldable pub validate_request : List ℕ → Result Request
  unfolding request_code request_values parse_canonical_json
  validate_request raw = request_code (parse_canonical_json raw max_request_bytes)

  pub b64url : List ℕ → List ℕ
  unfolding rstrip_pad
  b64url raw = rstrip_pad (lib.urlsafe_b64encode raw)

  -- `_unb64url`
  unb64url : List ℕ → Option (List ℕ)
  unfolding b64url token_part padding bytes_eq
  unb64url value =
      if all token_part value && ltb 0 (length value)
      then (elim (lib.urlsafe_b64decode (value ++ padding ((4 - length value % 4) % 4))) [
        | none ↦ none
        | some raw ↦ (if bytes_eq (b64url raw) value then some raw else none)
      ])
      else none

  -- the tests of `_decode_capability` on the parsed claims
  signed_claims : Fields → Option Claims
  unfolding claims_of hex32
  signed_claims fs =
      if same_keys fs claim_keys
        && is_the capability_schema (get "schema_version" fs)
        && is_text hex32 (get "store_id" fs)
        && is_text hex32 (get "run_id" fs)
        && is_the target_name (get "target" fs)
        && is_the action_name (get "action" fs)
        && is_int 0 (get "generation" fs)
        && is_int 1 (get "expires_at_ms" fs)
        && is_int 0 (get "max_actions" fs)
        && nat_at "max_actions" fs == max_actions_per_run
      then some (claims_of fs)
      else none

  parsed_claims : Result Fields → Option Claims
  unfolding signed_claims
  parsed_claims (ok fs) = signed_claims fs
  parsed_claims (err _) = none

  verified_claims : List ℕ → List ℕ → Option Claims
  unfolding parsed_claims parse_canonical_json bytes_eq
  verified_claims raw signature =
      if length signature == 32 && bytes_eq signature (lib.hmac_digest raw)
      then parsed_claims (parse_canonical_json raw 512)
      else none

  both_parts : Option (List ℕ) → Option (List ℕ) → Option Claims
  unfolding verified_claims
  both_parts (some raw) (some signature) = verified_claims raw signature
  both_parts _ _ = none

  two_parts : List (List ℕ) → Option Claims
  unfolding both_parts unb64url
  two_parts (a ∷ b ∷ []) = both_parts (unb64url a) (unb64url b)
  two_parts _ = none

  -- `_decode_capability` on a text
  unfoldable pub decode_capability : String → Option Claims
  unfolding two_parts split_dot
  decode_capability token =
      if leb (length (codes token)) max_capability_bytes
      then two_parts (split_dot [] (codes token))
      else none
