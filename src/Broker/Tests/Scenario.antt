-- ===== src/Broker/Tests/Scenario.antt =====
-- The scenario: a store with one run and one admitted request.
use lumi_eggcracker.Base.{
  ℕ, String, ◌≡◌, refl, true, false, Option, none, some, List, [], ◌∷◌, ◌++◌, length, codes,
  hex_text, if◌then◌else◌, Result, ok,
}
use lumi_eggcracker.Json.{
  Value, null, bool, int, real, str, arr, obj, pos, negsuc, Items, nil, cons, Fields, end, field,
}
use lumi_eggcracker.Broker.Library.{Library}
use lumi_eggcracker.Broker.Claims.{
  Claims, bytes_eq, request_schema, action_name, target_name, hex64, hex32, validate_claims,
  claims_of, claims_eq, operation_id_text, claims_valid,
}
use lumi_eggcracker.Broker.Requests.{
  parse_canonical_json, validate_request, decode_capability, request_code, request_fields,
  request_values, request_of, delta_payload,
}
use lumi_eggcracker.Broker.State.{State, Run, Queue, queued, new_run}
use lumi_eggcracker.Broker.Replay.{
  replay_event, replay_run, replay_admitted, admission_matches, admitted_state,
}
use lumi_eggcracker.Broker.Journal.{
  Anchor, Disk, no_hash, anchor_schema, record_value, witness_value, record_line, witness_line,
  read_state, read_journal, read_line, read_events, empty_state, check_witness, line_ends,
  replay_genesis,
}
use lumi_eggcracker.Broker.Ipc.Validators.{ipc_schema}
use lumi_eggcracker.Broker.Ipc.Messages.{denial_message}
use lumi_eggcracker.Broker.Ipc.Handler.{queue_message}
use lumi_eggcracker.Broker.Calls.{claims_value, run_payload, rejection_payload, revocation_payload}

-- an injective printer, with a newline at the end
mutual
  pub encode : Value → List ℕ
  encode null = 100 ∷ []
  encode (bool true) = 101 ∷ []
  encode (bool false) = 102 ∷ []
  encode (int (pos n)) = 103 ∷ n ∷ []
  encode (int (negsuc n)) = 104 ∷ n ∷ []
  encode (real s) = 105 ∷ codes s
  encode (str s) = 106 ∷ codes s ++ 34 ∷ []
  encode (arr vs) = 107 ∷ encode_items vs
  encode (obj fs) = 108 ∷ encode_fields fs

  pub encode_items : Items → List ℕ
  encode_items nil = 109 ∷ []
  encode_items (cons v vs) = encode v ++ encode_items vs

  pub encode_fields : Fields → List ℕ
  encode_fields end = 110 ∷ []
  encode_fields (field k v fs) = codes k ++ 34 ∷ encode v ++ encode_fields fs

unfoldable pub print : Value → List ℕ
unfolding encode encode_items encode_fields
print v = encode v ++ 10 ∷ []

unfoldable pub find : List Value → List ℕ → Option Value
unfolding bytes_eq print
find [] raw = none
find (v ∷ vs) raw = if bytes_eq (print v) raw then some v else find vs raw

abbrev pub store : Anchor
store = record { store_id = "0000000000000000000000000000000a"; device = 7; inode = 9 }

abbrev pub run_name : String
run_name = "0000000000000000000000000000000b"

abbrev pub item_name : String
item_name = "0000000000000000000000000000000c"

abbrev pub grant : Claims
grant = record {
  action = action_name;
  expires_at_ms = 60001;
  generation = 0;
  max_actions = 4;
  run_id = run_name;
  store_id = "0000000000000000000000000000000a";
  target = target_name;
}

abbrev pub request_dict : Value
request_dict = obj (
    field "action" (str action_name) (
      field "capability" (str "C.S") (
        field "generation" (int (pos 0)) (
          field "operation_id" (str "op-1") (
            field "payload" (obj (field "delta" (int (pos 1)) end)) (
              field "run_id" (str run_name) (
                field "schema_version" (str request_schema)
                  (field "target" (str target_name) end))))))))

abbrev pub signature : List ℕ
signature =
    1 ∷ 1 ∷ 1 ∷ 1 ∷ 1 ∷ 1 ∷ 1 ∷ 1 ∷ 1 ∷ 1 ∷ 1 ∷ 1 ∷ 1 ∷ 1 ∷ 1 ∷ 1 ∷ 1 ∷ 1 ∷ 1 ∷ 1 ∷ 1 ∷ 1 ∷ 1 ∷ 1
    ∷ 1 ∷ 1 ∷ 1 ∷ 1 ∷ 1 ∷ 1 ∷ 1 ∷ 1 ∷ []

-- the record `kind` at `seq`, whose digests are all zeros
abbrev record_dict : String → Fields → ℕ → Value
record_dict kind payload seq = record_value kind no_hash payload no_hash seq

abbrev witness_dict : ℕ → Value
witness_dict seq = witness_value no_hash no_hash seq "0000000000000000000000000000000a"

abbrev pub genesis_payload : Fields
genesis_payload = field "anchor_device" (int (pos 7)) (
    field "anchor_inode" (int (pos 9)) (
      field "schema_version" (str anchor_schema)
        (field "store_id" (str "0000000000000000000000000000000a") end)))

abbrev admitted_payload : Fields
admitted_payload = field "operation_id" (str "op-1") (
    field "queue_id" (str item_name) (
      field "request_b64" (str "B")
        (field "request_sha256" (str no_hash) (field "run_id" (str run_name) end))))

-- what the client hears of the item's dispatch
abbrev pub applied_message : Value
applied_message = obj (
    field "receipt"
      (obj (
        field "code" (str "EFFECT_APPLIED") (
          field "effect_applied" (bool true) (
            field "generation" (int (pos 0)) (
              field "outcome" (str "APPLIED")
                (field "phase" (str "dispatch") (field "queue_id" (str item_name) end)))))))
      (field "schema_version" (str ipc_schema) end))

abbrev known : List Value
known =
    request_dict
    ∷ claims_value grant
    ∷ record_dict "GENESIS" genesis_payload 0
    ∷ record_dict "RUN_REGISTERED" (run_payload grant) 1
    ∷ record_dict "ADMITTED" admitted_payload 2
    ∷ record_dict "DISPATCHED" (field "queue_id" (str item_name) end) 3
    ∷ record_dict "DISPATCH_REJECTED" (rejection_payload item_name "BUDGET_EXHAUSTED") 3
    ∷ record_dict "DISPATCH_REJECTED" (rejection_payload item_name "EXPIRED") 3
    ∷ record_dict "DISPATCH_REJECTED" (rejection_payload item_name "REPLAY") 3
    ∷ record_dict "DISPATCH_REJECTED" (rejection_payload item_name "STALE_GENERATION") 3
    ∷ record_dict "REVOKED" (revocation_payload 1 "STOP_REQUESTED" run_name) 3
    ∷ witness_dict 1
    ∷ witness_dict 2
    ∷ witness_dict 3
    ∷ queue_message "dispatch" item_name
    ∷ applied_message
    ∷ denial_message "PEER_IDENTITY"
    ∷ []

unfoldable pub desk : Library
unfolding find print claims_value run_payload rejection_payload revocation_payload bytes_eq
desk = record {
  loads = find known;
  dumps = print;
  sha256 = λ raw. no_hash;
  hmac = λ raw. no_hash;
  hmac_digest = λ raw. signature;
  b64encode = λ raw. "B";
  b64decode = λ text. some (print request_dict);
  urlsafe_b64encode = λ raw. if bytes_eq raw signature then b'S' ∷ b'=' ∷ [] else b'C' ∷ b'=' ∷ [];
  urlsafe_b64decode = λ text.
      if bytes_eq text (b'S' ∷ b'=' ∷ b'=' ∷ b'=' ∷ [])
      then some signature
      else some (print (claims_value grant));
}

-- a store with one run, before and after the admission
abbrev pub one_run : Disk
one_run = record {
  journal =
      record_line desk "GENESIS" genesis_payload no_hash 0
      ∷ record_line desk "RUN_REGISTERED" (run_payload grant) no_hash 1
      ∷ [];
  witness = witness_line desk store 1 no_hash;
}

abbrev pub one_item : Disk
one_item = record {
  journal =
      record_line desk "GENESIS" genesis_payload no_hash 0
      ∷ record_line desk "RUN_REGISTERED" (run_payload grant) no_hash 1
      ∷ record_line desk "ADMITTED" admitted_payload no_hash 2
      ∷ [];
  witness = witness_line desk store 2 no_hash;
}

abbrev pub run_before : Run
run_before = record {
  claims = grant;
  generation = 0;
  revoked = false;
  reason = none;
  admitted = 0;
  applied = 0;
}

abbrev pub item_queued : Queue
unfolding print
item_queued = record {
  queue_id = item_name;
  run_id = run_name;
  operation_id = "op-1";
  request_bytes = print request_dict;
  request_sha256 = no_hash;
  status = queued;
}

abbrev pub state_before : State
state_before = record {
  store_id = "0000000000000000000000000000000a";
  last_seq = 1;
  last_hash = no_hash;
  record_count = 2;
  runs = (run_name, run_before) ∷ [];
  queues = [];
  operation_ids = [];
  applied_operation_ids = [];
  pending_bytes = 0;
  effect_count = 0;
  service_dataset = none;
  results = [];
}

abbrev pub state_queued : State
state_queued = record state_before {
  last_seq = 2;
  record_count = 3;
  runs = (run_name, record run_before { admitted = 1 }) ∷ [];
  queues = (item_name, item_queued) ∷ [];
  operation_ids = "op-1" ∷ [];
  pending_bytes = length (print request_dict);
}

unfoldable pub opened : Disk → Result State
unfolding read_state record_line desk read_journal read_line parse_canonical_json hex64 hex_text
    read_events replay_event replay_run validate_claims empty_state claims_of check_witness
    witness_line new_run replay_admitted validate_request decode_capability admission_matches
    claims_eq admitted_state line_ends replay_genesis hex32 operation_id_text request_code
    request_fields request_values request_of delta_payload claims_valid run_payload claims_value
opened disk = read_state desk store disk

pub one_run-opens : read_state desk store one_run ≡ ok state_before
unfolding opened
one_run-opens = refl

pub one_item-opens : read_state desk store one_item ≡ ok state_queued
unfolding opened
one_item-opens = refl
