-- ===== src/Broker/Ipc/Messages.antt =====
-- The messages that are sent, and the reading of requests and responses
-- (src/lumi_eggcracker/brokered/linux_ipc.py, lines 155-186 and 246-312, and `Receipt.as_dict`).
use lumi_eggcracker.Base.{
  ℕ, String, Bool, true, false, not, ◌&&◌, ◌||◌, Option, none, some, List, [], ◌∷◌, leb, ltb,
  if◌then◌else◌, str_eq, elem, length, Result, ok, err,
}
use lumi_eggcracker.Json.{
  Value, Fields, obj, str, int, pos, bool, get, has_key, same_keys, as_obj, is_text, is_the, end,
  field, without,
}
use lumi_eggcracker.Broker.Library.{Library}
use lumi_eggcracker.Broker.Claims.{hex32}
use lumi_eggcracker.Broker.Requests.{parse_canonical_json}
use lumi_eggcracker.Broker.Calls.{Receipt}
use lumi_eggcracker.Broker.Ipc.Validators.{
  ipc_schema, max_ipc_request_bytes, max_ipc_response_bytes, max_result_bytes, protocol_denials,
  IpcRequest, ipc_request, valid_receipt, valid_report,
}

-- `as_dict`, with the optional entries that are there, in the order of the keys
abbrev pub optional_text : String → Option String → Fields → Fields
optional_text k none fs = fs
optional_text k (some s) fs = field k (str s) fs

abbrev pub optional_number : String → Option ℕ → Fields → Fields
optional_number k none fs = fs
optional_number k (some n) fs = field k (int (pos n)) fs

unfoldable pub as_dict : Receipt → Fields
as_dict r = field "code" (str r.code) (
    field "effect_applied" (bool r.effect_applied) (
      optional_number "generation" r.generation (
        field "outcome" (str r.outcome) (
          field "phase" (str r.phase) (
            optional_text "process_stop" r.process_stop
              (optional_text "queue_id" r.queue_id (optional_text "run_id" r.run_id end)))))))

abbrev pub receipt_message : Receipt → Value
receipt_message r = obj (
    field "receipt" (obj (without "run_id" (as_dict r)))
      (field "schema_version" (str ipc_schema) end))

abbrev pub denial_message : String → Value
denial_message code = obj (
    field "code" (str code) (
      field "outcome" (str "DENIED")
        (field "phase" (str "protocol") (field "schema_version" (str ipc_schema) end))))

abbrev pub not_found_message : String → Value
not_found_message queue_id = obj (
    field "code" (str "NOT_FOUND") (
      field "outcome" (str "DENIED") (
        field "phase" (str "result")
          (field "queue_id" (str queue_id) (field "schema_version" (str ipc_schema) end)))))

abbrev pub report_message : String → Value → Value
report_message queue_id report = obj (
    field "outcome" (str "AVAILABLE") (
      field "phase" (str "result") (
        field "queue_id" (str queue_id)
          (field "report" report (field "schema_version" (str ipc_schema) end)))))

-- the tests of `_parse_response` on each kind of response
unfoldable pub is_receipt : Fields → Bool
unfolding valid_receipt
is_receipt fs =
    same_keys fs ("receipt" ∷ "schema_version" ∷ [])
    && valid_receipt (get "receipt" fs)
    && elim (as_obj (get "receipt" fs)) [ none ↦ true | some r ↦ not (has_key r "run_id") ]

unfoldable pub is_denial : Fields → Bool
is_denial fs =
    is_the "protocol" (get "phase" fs)
    && is_the "DENIED" (get "outcome" fs)
    && is_text (λ s. elem s protocol_denials) (get "code" fs)

unfoldable pub is_not_found : Fields → Bool
is_not_found fs =
    is_the "result" (get "phase" fs)
    && is_the "DENIED" (get "outcome" fs)
    && same_keys fs ("code" ∷ "outcome" ∷ "phase" ∷ "queue_id" ∷ "schema_version" ∷ [])
    && is_the "NOT_FOUND" (get "code" fs)
    && is_text hex32 (get "queue_id" fs)

module _ (lib : Library) where
  -- `_parse_request`; an error is the denial code
  unfoldable pub parse_request : List ℕ → Result IpcRequest
  parse_request raw = elim (parse_canonical_json lib raw max_ipc_request_bytes) [
    | ok fs ↦ ipc_request fs
    | err message ↦
        (if str_eq message "non-canonical"
          then err "NON_CANONICAL_INPUT"
          else err "MALFORMED_INPUT")
  ]

  abbrev pub fits : ℕ → Option Value → Bool
  fits n none = false
  fits n (some v) = leb (length (lib.dumps v)) n

  unfoldable pub is_available : Fields → Bool
  is_available fs =
      is_the "result" (get "phase" fs)
      && is_the "AVAILABLE" (get "outcome" fs)
      && same_keys fs ("outcome" ∷ "phase" ∷ "queue_id" ∷ "report" ∷ "schema_version" ∷ [])
      && is_text hex32 (get "queue_id" fs)
      && valid_report (get "report" fs)
      && fits max_result_bytes (get "report" fs)

  unfoldable pub response_of : Fields → Result Fields
  unfolding is_receipt is_denial is_available is_not_found
  response_of fs =
      if not (is_the ipc_schema (get "schema_version" fs))
      then err "broker response schema is invalid"
      else if is_receipt fs
      then ok fs
      else if same_keys fs ("code" ∷ "outcome" ∷ "phase" ∷ "schema_version" ∷ [])
      then (if is_denial fs then ok fs else err "broker protocol denial is invalid")
      else if is_available fs || is_not_found fs
      then ok fs
      else err "broker response fields are invalid"

  -- `_parse_response`
  unfoldable pub parse_response : List ℕ → Result Fields
  unfolding response_of
  parse_response raw = elim (parse_canonical_json lib raw max_ipc_response_bytes) [
    | ok fs ↦ response_of fs
    | err message ↦ err "broker response is malformed"
  ]

  -- bytes within the response bound
  unfoldable pub bounded : Value → String → Result (List ℕ)
  bounded v message =
      if ltb max_ipc_response_bytes (length (lib.dumps v)) then err message else ok (lib.dumps v)

  -- `_protocol_denial`
  unfoldable pub protocol_denial : String → Result (List ℕ)
  unfolding bounded
  protocol_denial code =
      if elem code protocol_denials
      then bounded (denial_message code) "protocol denial exceeded its response bound"
      else err "protocol denial code is not allow-listed"

  -- `_receipt_response`
  unfoldable pub receipt_response : Receipt → Result (List ℕ)
  unfolding bounded as_dict
  receipt_response r = bounded (receipt_message r) "broker receipt exceeded its response bound"
