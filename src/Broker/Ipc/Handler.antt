-- ===== src/Broker/Ipc/Handler.antt =====
-- The service's handler and the client's requests (src/lumi_eggcracker/brokered/linux_ipc.py, lines
-- 86-127, 624-666 and 781-808), with the client view of the operator
-- (src/lumi_eggcracker/brokered/operator.py, lines 1112-1128 and 1300-1323).
use lumi_eggcracker.Base.{
  ℕ, String, Bool, not, ◌&&◌, ◌||◌, Option, none, some, List, ltb, ◌==◌, if◌then◌else◌, str_eq,
  length, any, Result, ok, err,
}
use lumi_eggcracker.Json.{Value, obj, str, int, pos, end, field}
use lumi_eggcracker.Broker.Library.{Library}
use lumi_eggcracker.Broker.Claims.{Claims, operation_id_text, request_schema, hex32}
use lumi_eggcracker.Broker.Requests.{decode_capability}
use lumi_eggcracker.Broker.State.{ServiceResult, result_value}
use lumi_eggcracker.Broker.Journal.{Anchor}
use lumi_eggcracker.Broker.Calls.{Action, ◌>>=◌, ◌>>◌, raise, Receipt, Grant}
use lumi_eggcracker.Broker.Operator.{admit, dispatch_for_run}
use lumi_eggcracker.Broker.Service.{result_for_run}
use lumi_eggcracker.Broker.Ipc.Validators.{
  IpcRequest, submit, dispatch, get_result, ipc_schema, max_ipc_response_bytes, max_result_bytes,
}
use lumi_eggcracker.Broker.Ipc.Messages.{
  not_found_message, report_message, parse_request, protocol_denial, receipt_response,
}

-- `_validate_identity_config`, on numbers
unfoldable pub valid_identity_config : ℕ → ℕ → ℕ → ℕ → List ℕ → Bool
valid_identity_config service_uid workload_uid workload_gid service_gid service_groups =
    ltb 0 service_uid
    && ltb 0 workload_uid
    && ltb 0 workload_gid
    && ltb 0 service_gid
    && not (service_uid == workload_uid)
    && not (any (λ g. g == 0) service_groups)

-- `_validate_client_identity`
unfoldable pub valid_client_identity : ℕ → ℕ → ℕ → List ℕ → Bool
valid_client_identity service_uid workload_uid workload_gid groups =
    ltb 0 service_uid
    && ltb 0 workload_uid
    && ltb 0 workload_gid
    && not (service_uid == workload_uid)
    && not (any (λ g. g == 0) groups)

-- an answer that touches no disk
abbrev pub lift : {A : Type 0} → Result A → Action A
lift r d = (r, d)

-- the labels of a grant against its claims
unfoldable pub same_labels : Claims → Grant → Bool
same_labels c g =
    str_eq c.run_id g.run_id
    && c.generation == g.generation
    && c.expires_at_ms == g.expires_at_ms
    && str_eq c.target g.target
    && str_eq c.action g.action

module _ (lib : Library) (anchor : Anchor) (ascii : List ℕ → String) where
  -- `BrokeredOperator.client`; `ascii` is the decoding of the capability's bytes
  unfoldable pub client : Grant → Result (Unit {0})
  unfolding same_labels
  client g = elim (decode_capability lib (ascii g.capability)) [
    | none ↦ err "capability grant is invalid"
    | some claims ↦
        (if same_labels claims g
          then ok tt
          else err "capability grant labels do not match its signature")
  ]

  abbrev pub admission_request : Grant → String → Value
  admission_request g operation_id = obj (
      field "action" (str g.action) (
        field "capability" (str (ascii g.capability)) (
          field "generation" (int (pos g.generation)) (
            field "operation_id" (str operation_id) (
              field "payload" (obj (field "delta" (int (pos 1)) end)) (
                field "run_id" (str g.run_id) (
                  field "schema_version" (str request_schema)
                    (field "target" (str g.target) end))))))))

  -- `OperatorClient.admit`
  unfoldable pub client_admit : Grant → String → ℕ → String → Action Receipt
  client_admit g operation_id now_ms queue_id =
      if operation_id_text operation_id
      then admit lib anchor (lib.dumps (admission_request g operation_id)) now_ms queue_id
      else raise "operation identifier is invalid"

  -- the answer for a result
  unfoldable pub result_response : String → Option ServiceResult → Result (List ℕ)
  result_response queue_id none = ok (lib.dumps (not_found_message queue_id))
  result_response queue_id (some report) =
      let value = result_value report in
      let raw = lib.dumps (report_message queue_id value) in
      if ltb max_result_bytes (length (lib.dumps value)) || ltb max_ipc_response_bytes (length raw)
      then err "durable synthetic report exceeded its response bound"
      else ok raw

  -- the branches of `handle_packet` on a valid request; `fresh` is the identifier an admission takes
  unfoldable pub handle_request : Grant → IpcRequest → ℕ → String → Action (List ℕ)
  unfolding client_admit result_response
  handle_request g (submit operation_id) now_ms fresh = do
    receipt ← client_admit g operation_id now_ms fresh
    lift (receipt_response lib receipt)
  handle_request g (dispatch queue_id) now_ms fresh = do
    receipt ← dispatch_for_run lib anchor queue_id g.run_id now_ms
    lift (receipt_response lib receipt)
  handle_request g (get_result queue_id) now_ms fresh = do
    report ← result_for_run lib anchor queue_id g.run_id
    lift (result_response queue_id report)

  -- `handle_packet` after the peer's test
  unfoldable pub handle_parsed : Grant → Result IpcRequest → ℕ → String → Action (List ℕ)
  unfolding client handle_request
  handle_parsed g (err code) now_ms fresh = lift (protocol_denial lib code)
  handle_parsed g (ok request) now_ms fresh = do
    lift (client g)
    handle_request g request now_ms fresh

  -- `handle_packet`
  unfoldable pub handle_packet : ℕ → Grant → ℕ → List ℕ → ℕ → String → Action (List ℕ)
  unfolding handle_parsed
  handle_packet workload_uid g peer_uid raw now_ms fresh =
      if peer_uid == workload_uid
      then handle_parsed g (parse_request lib raw) now_ms fresh
      else lift (protocol_denial lib "PEER_IDENTITY")

-- the values that the client sends
abbrev pub submit_message : String → Value
submit_message operation_id = obj (
    field "op" (str "submit")
      (field "operation_id" (str operation_id) (field "schema_version" (str ipc_schema) end)))

abbrev pub queue_message : String → String → Value
queue_message op queue_id = obj (
    field "op" (str op)
      (field "queue_id" (str queue_id) (field "schema_version" (str ipc_schema) end)))

module _ (lib : Library) where
  -- the bytes of `submit`, `dispatch` and `get_result` of the client
  unfoldable pub client_bytes : IpcRequest → Result (List ℕ)
  client_bytes (submit operation_id) =
      if operation_id_text operation_id
      then ok (lib.dumps (submit_message operation_id))
      else err "operation identifier is invalid"
  client_bytes (dispatch queue_id) =
      if hex32 queue_id
      then ok (lib.dumps (queue_message "dispatch" queue_id))
      else err "queue identifier is invalid"
  client_bytes (get_result queue_id) =
      if hex32 queue_id
      then ok (lib.dumps (queue_message "get_result" queue_id))
      else err "queue identifier is invalid"
