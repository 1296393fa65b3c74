-- ===== src/Broker/Ipc/Validators.antt =====
-- The validators of requests, receipts and reports
-- (src/lumi_eggcracker/brokered/linux_ipc.py, lines 28-75 and 162-243).
use lumi_eggcracker.Base.{
  ℕ, ◌+◌, String, Bool, true, false, not, ◌&&◌, ◌||◌, Option, none, some, List, [], ◌∷◌, leb, ◌==◌,
  if◌then◌else◌, str_eq, elem, all, Result, ok, err,
}
use lumi_eggcracker.Json.{
  Value, Fields, obj, str, bool, get, keys, has_key, same_keys, is_int, is_text, is_the,
}
use lumi_eggcracker.Broker.Claims.{hex32, hex64, operation_id_text, text_at, nat_at}

abbrev pub ipc_schema : String
ipc_schema = "lumi-eggcracker.brokered-ipc.v1"

abbrev pub max_ipc_request_bytes : ℕ
max_ipc_request_bytes = 1024

abbrev pub max_ipc_response_bytes : ℕ
max_ipc_response_bytes = 2048

abbrev pub max_result_bytes : ℕ
max_result_bytes = 1024

abbrev pub protocol_denials : List String
protocol_denials =
    "MALFORMED_INPUT" ∷ "NON_CANONICAL_INPUT" ∷ "PEER_IDENTITY" ∷ "UNKNOWN_FIELDS" ∷ []

abbrev pub receipt_phases : List String
receipt_phases = "admission" ∷ "dispatch" ∷ "process_stop" ∷ "revocation" ∷ []

abbrev pub receipt_outcomes : List String
receipt_outcomes =
    "ALREADY_REVOKED" ∷ "APPLIED" ∷ "DENIED" ∷ "QUEUED" ∷ "REVOKED" ∷ "UNSUPPORTED" ∷ []

abbrev pub receipt_codes : List String
receipt_codes =
    "ADMITTED" ∷ "ALREADY_FINAL" ∷ "ALREADY_REVOKED" ∷ "BUDGET_EXHAUSTED" ∷ "CAPABILITY_INVALID"
    ∷ "CAPABILITY_REVOKED" ∷ "EFFECT_APPLIED" ∷ "EXPIRED" ∷ "GLOBAL_BUDGET_EXHAUSTED"
    ∷ "INVALID_QUEUE_ID" ∷ "MALFORMED_INPUT" ∷ "NON_CANONICAL_INPUT" ∷ "NOT_FOUND"
    ∷ "PROCESS_TERMINATION_UNSUPPORTED" ∷ "REPLAY" ∷ "REPLAY_CAPACITY_EXHAUSTED"
    ∷ "STALE_GENERATION" ∷ "STOP_REQUESTED" ∷ "UNKNOWN_FIELDS" ∷ []

-- A request that `_parse_request` accepts.
pub data IpcRequest : Type 0 where
  submit : String → IpcRequest
  dispatch : String → IpcRequest
  get_result : String → IpcRequest

abbrev pub common_fields : List String
common_fields = "op" ∷ "schema_version" ∷ []

-- `fields_by_operation.get(operation)`
unfoldable pub fields_of : Option Value → Option (List String)
fields_of (some (str s)) =
    if str_eq s "submit"
    then some ("op" ∷ "schema_version" ∷ "operation_id" ∷ [])
    else if str_eq s "dispatch" || str_eq s "get_result"
    then some ("op" ∷ "schema_version" ∷ "queue_id" ∷ [])
    else none
fields_of _ = none

-- `set(request) - allowed`
abbrev pub within : Fields → List String → Bool
within fs allowed = all (λ k. elem k allowed) (keys fs)

-- the last tests of `_parse_request`, on the values
unfoldable pub typed_request : Fields → Result IpcRequest
typed_request fs =
    if is_the "submit" (get "op" fs)
    then (if is_text operation_id_text (get "operation_id" fs)
        then ok (submit (text_at "operation_id" fs))
        else err "MALFORMED_INPUT")
    else if is_text hex32 (get "queue_id" fs)
    then (if is_the "dispatch" (get "op" fs)
        then ok (dispatch (text_at "queue_id" fs))
        else ok (get_result (text_at "queue_id" fs)))
    else err "MALFORMED_INPUT"

unfoldable pub known_request : Fields → List String → Result IpcRequest
unfolding typed_request
known_request fs allowed =
    if not (within fs allowed)
    then err "UNKNOWN_FIELDS"
    else if same_keys fs allowed && is_the ipc_schema (get "schema_version" fs)
    then typed_request fs
    else err "MALFORMED_INPUT"

unfoldable pub ipc_request : Fields → Result IpcRequest
unfolding known_request fields_of
ipc_request fs = elim (fields_of (get "op" fs)) [
  | none ↦ (if within fs common_fields then err "MALFORMED_INPUT" else err "UNKNOWN_FIELDS")
  | some allowed ↦ known_request fs allowed
]

-- `_valid_receipt` on a dict
unfoldable pub receipt_shape : Fields → Bool
receipt_shape fs =
    all (has_key fs) ("code" ∷ "effect_applied" ∷ "outcome" ∷ "phase" ∷ [])
    && within fs (
        "code" ∷ "effect_applied" ∷ "outcome" ∷ "phase" ∷ "generation" ∷ "process_stop" ∷ "queue_id"
        ∷ "run_id" ∷ [])

abbrev pub is_bool : Option Value → Bool
is_bool (some (bool b)) = true
is_bool _ = false

unfoldable pub receipt_words : Fields → Bool
receipt_words fs =
    is_text (λ s. elem s receipt_codes) (get "code" fs)
    && is_text (λ s. elem s receipt_phases) (get "phase" fs)
    && is_text (λ s. elem s receipt_outcomes) (get "outcome" fs)
    && is_bool (get "effect_applied" fs)

-- `key in value and not test(value[key])`, denied
abbrev pub if_there : (Option Value → Bool) → Option Value → Bool
if_there test none = true
if_there test (some v) = test (some v)

unfoldable pub receipt_options : Fields → Bool
receipt_options fs =
    if_there (is_int 0) (get "generation" fs)
    && if_there (is_the "UNSUPPORTED") (get "process_stop" fs)
    && if_there (is_text hex32) (get "queue_id" fs)
    && if_there (is_text hex32) (get "run_id" fs)

-- `_valid_receipt`
unfoldable pub valid_receipt : Option Value → Bool
unfolding receipt_shape receipt_words receipt_options
valid_receipt (some (obj fs)) = receipt_shape fs && receipt_words fs && receipt_options fs
valid_receipt _ = false

abbrev pub report_keys : List String
report_keys =
    "accepted" ∷ "dataset_id" ∷ "dataset_sha256" ∷ "records_checked" ∷ "review" ∷ "units_total" ∷ []

abbrev pub is_between : ℕ → ℕ → ℕ → Bool
is_between low high n = leb low n && leb n high

-- the numbers of a report
unfoldable pub report_numbers : ℕ → ℕ → ℕ → ℕ → Bool
report_numbers accepted checked review units =
    checked == 4
    && is_between 1 3 accepted
    && is_between 1 3 review
    && accepted + review == 4
    && is_between 4 4000 units

unfoldable pub report_fields : Fields → Bool
unfolding report_numbers
report_fields fs =
    same_keys fs report_keys
    && is_the "synthetic.research-batch.v1" (get "dataset_id" fs)
    && is_text hex64 (get "dataset_sha256" fs)
    && is_int 0 (get "accepted" fs)
    && is_int 0 (get "records_checked" fs)
    && is_int 0 (get "review" fs)
    && is_int 0 (get "units_total" fs)
    && report_numbers (nat_at "accepted" fs) (nat_at "records_checked" fs) (nat_at "review" fs)
        (nat_at "units_total" fs)

-- `_valid_report`
unfoldable pub valid_report : Option Value → Bool
unfolding report_fields
valid_report (some (obj fs)) = report_fields fs
valid_report _ = false
