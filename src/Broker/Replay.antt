-- ===== src/Broker/Replay.antt =====
-- `_replay_event` (src/lumi_eggcracker/brokered/operator.py, lines 885-1023): one authenticated journal record applied
-- to the state, or refused.
pub mod Inversion
pub mod Invariant
pub mod Fence
pub mod Linked
pub mod Budget
pub mod Refinement
use lumi_eggcracker.Base.{
  ℕ, ◌+◌, ◌-◌, String, Bool, true, false, not, ◌&&◌, ◌||◌, Option, none, some, List, [], ◌∷◌, leb,
  ltb, ◌==◌, if◌then◌else◌, implies, str_eq, elem, length, Result, ok, err, ◌>>=◌, ◌>>◌, require,
  or_raise, or_message,
}
use lumi_eggcracker.Base.Dict.{Dict, lookup, contains, insert}
use lumi_eggcracker.Json.{Value, obj, Fields, end, get, same_keys, is_int, is_text}
use lumi_eggcracker.Broker.Library.{Library}
use lumi_eggcracker.Broker.Claims.{
  Claims, claims_of, claims_eq, validate_claims, hex32, operation_id_text, text_at, nat_at,
  max_runs, max_actions_per_run, max_replay_keys, max_pending_bytes, target_name, action_name,
}
use lumi_eggcracker.Broker.Requests.{Request, validate_request, decode_capability}
use lumi_eggcracker.Broker.State.{
  State, Run, Queue, Status, queued, applied, rejected, Row, ServiceResult, new_run,
  service_dataset_valid, rows_of, service_result, is_result,
}

dict_of : Option Value → Option Fields
dict_of (some (obj fs)) = some fs
dict_of _ = none

is_queued : Status → Bool
is_queued queued = true
is_queued _ = false

abbrev is_empty {ℓ} : {A : Type ℓ} → List A → Bool
is_empty [] = true
is_empty (x ∷ xs) = false

-- SERVICE_DATASET_REGISTERED
unfoldable pub replay_dataset : State → Fields → Result State
replay_dataset s payload = do
  require
      (same_keys payload ("records" ∷ [])
        && elim s.service_dataset [ none ↦ true | some _ ↦ false ]
        && is_empty s.runs
        && is_empty s.queues
        && service_dataset_valid (get "records" payload))
      "durable service dataset is invalid"
  ok (record s { service_dataset = some (rows_of (get "records" payload)) })

-- RUN_REGISTERED
unfoldable pub replay_run : State → Fields → Result State
unfolding dict_of
replay_run s payload = do
  require (same_keys payload ("claims" ∷ [])) "durable run record is invalid"
  fs ← or_raise (dict_of (get "claims" payload)) "durable run record is invalid"
  let claims = claims_of fs
  require (validate_claims fs s.store_id && claims.generation == 0)
      "durable run identity is invalid"
  require (not (contains claims.run_id s.runs) && ltb (length s.runs) max_runs)
      "durable run identity is duplicated"
  ok (record s { runs = insert claims.run_id (new_run claims) s.runs })

module _ (lib : Library) where
  -- the fields of an admission record against the request that it carries
  unfoldable pub admission_matches : State → Fields → List ℕ → Request → Claims → Run → Bool
  admission_matches s payload request_bytes request claims run =
      claims_eq claims run.claims
      && is_text hex32 (get "queue_id" payload)
      && not (contains (text_at "queue_id" payload) s.queues)
      && is_text operation_id_text (get "operation_id" payload)
      && not (elem (text_at "operation_id" payload) s.operation_ids)
      && is_text (str_eq (lib.sha256 request_bytes)) (get "request_sha256" payload)
      && str_eq request.run_id run.claims.run_id
      && request.generation == run.generation
      && not run.revoked
      && str_eq target_name run.claims.target
      && str_eq action_name run.claims.action
      && str_eq request.operation_id (text_at "operation_id" payload)
      && ltb run.admitted max_actions_per_run
      && ltb (length s.operation_ids) max_replay_keys

  -- the updates of an accepted admission
  unfoldable pub admitted_state : State → String → String → String → List ℕ → String → Run → State
  admitted_state s run_id queue_id operation_id request_bytes sha run = record s {
    queues =
        insert queue_id
          (record {
            queue_id = queue_id;
            run_id = run.claims.run_id;
            operation_id = operation_id;
            request_bytes = request_bytes;
            request_sha256 = sha;
            status = queued;
          })
          s.queues;
    operation_ids = operation_id ∷ s.operation_ids;
    pending_bytes = s.pending_bytes + length request_bytes;
    runs = insert run_id (record run { admitted = run.admitted + 1 }) s.runs;
  }

  -- ADMITTED
  unfoldable pub replay_admitted : State → Fields → Result State
  replay_admitted s payload = do
    require
        (same_keys payload
          ("operation_id" ∷ "queue_id" ∷ "request_b64" ∷ "request_sha256" ∷ "run_id" ∷ []))
        "durable admission record is invalid"
    request_bytes ←
        or_raise (lib.b64decode (text_at "request_b64" payload)) "durable request bytes are invalid"
    request ← or_message (validate_request lib request_bytes) "durable admission invariants failed"
    claims ←
        or_raise (decode_capability lib request.capability) "durable request capability is invalid"
    run ← or_raise (lookup (text_at "run_id" payload) s.runs) "durable admission invariants failed"
    require (admission_matches s payload request_bytes request claims run)
        "durable admission invariants failed"
    require (leb (s.pending_bytes + length request_bytes) max_pending_bytes)
        "durable pending budget is invalid"
    ok (
        admitted_state s (text_at "run_id" payload) (text_at "queue_id" payload)
          (text_at "operation_id" payload) request_bytes (text_at "request_sha256" payload) run)

  -- the queue item of a dispatch record, which is still queued
  unfoldable pub queued_item : State → Fields → Result Queue
  unfolding is_queued
  queued_item s payload = do
    item ←
        or_raise (lookup (text_at "queue_id" payload) s.queues)
          "durable queue transition is invalid"
    require (is_queued item.status) "durable queue transition is invalid"
    ok item

  dataset_keys : Option (List Row) → List String
  dataset_keys none = "queue_id" ∷ []
  dataset_keys (some _) = "queue_id" ∷ "result" ∷ []

  unfoldable pub record_result :
      State → Fields → String → Option (List Row) → Result (Dict ServiceResult)
  record_result s payload queue_id none = ok s.results
  record_result s payload queue_id (some rows) = do
    let result = service_result lib rows
    require (is_result (get "result" payload) result && not (contains queue_id s.results))
        "durable service result is invalid"
    ok (insert queue_id result s.results)

  -- the updates of an applied dispatch
  unfoldable pub dispatched_state : State → String → Queue → Run → Dict ServiceResult → State
  dispatched_state s queue_id item run results = record s {
    pending_bytes = s.pending_bytes - length item.request_bytes;
    results = results;
    runs = insert item.run_id (record run { applied = run.applied + 1 }) s.runs;
    effect_count = s.effect_count + 1;
    applied_operation_ids = item.operation_id ∷ s.applied_operation_ids;
    queues = insert queue_id (record item { status = applied }) s.queues;
  }

  -- DISPATCHED
  unfoldable pub replay_dispatched : State → Fields → Result State
  unfolding dataset_keys record_result
  replay_dispatched s payload = do
    require (same_keys payload (dataset_keys s.service_dataset))
        "durable dispatch record is invalid"
    item ← queued_item s payload
    run ← or_raise (lookup item.run_id s.runs) "durable run is missing"
    require (not (run.revoked || not (run.generation == 0)))
        "durable dispatch bypassed generation fence"
    request ←
        or_message (validate_request lib item.request_bytes) "durable dispatch request is invalid"
    require (str_eq request.operation_id item.operation_id) "durable dispatch request is invalid"
    results ← record_result s payload item.queue_id s.service_dataset
    ok (dispatched_state s (text_at "queue_id" payload) item run results)

  -- the reasons that a rejection may carry in the journal
  abbrev pub rejection_reasons : List String
  rejection_reasons = "BUDGET_EXHAUSTED" ∷ "EXPIRED" ∷ "REPLAY" ∷ "STALE_GENERATION" ∷ []

  unfoldable pub rejected_state : State → String → Queue → State
  rejected_state s queue_id item = record s {
    pending_bytes = s.pending_bytes - length item.request_bytes;
    queues = insert queue_id (record item { status = rejected }) s.queues;
  }

  -- DISPATCH_REJECTED
  unfoldable pub replay_rejected : State → Fields → Result State
  replay_rejected s payload = do
    require (same_keys payload ("queue_id" ∷ "reason" ∷ [])) "durable dispatch record is invalid"
    item ← queued_item s payload
    require (is_text (λ r. elem r rejection_reasons) (get "reason" payload))
        "durable denial code is invalid"
    ok (rejected_state s (text_at "queue_id" payload) item)

abbrev pub revocation_reasons : List String
revocation_reasons = "CAPABILITY_REVOKED" ∷ "STOP_REQUESTED" ∷ []

unfoldable pub revoked_state : State → String → Run → String → State
revoked_state s run_id run reason = record s {
  runs =
      insert run_id
        (record run { generation = run.generation + 1; revoked = true; reason = some reason })
        s.runs;
}

-- REVOKED
unfoldable pub replay_revoked : State → Fields → Result State
replay_revoked s payload = do
  require (same_keys payload ("new_generation" ∷ "reason" ∷ "run_id" ∷ []))
      "durable revocation record is invalid"
  run ← or_raise (lookup (text_at "run_id" payload) s.runs) "durable revocation fence is invalid"
  require
      (not run.revoked
        && is_int 1 (get "new_generation" payload)
        && nat_at "new_generation" payload == run.generation + 1
        && is_text (λ r. elem r revocation_reasons) (get "reason" payload))
      "durable revocation fence is invalid"
  ok (revoked_state s (text_at "run_id" payload) run (text_at "reason" payload))

-- `_replay_event`
unfoldable pub replay_event : Library → State → String → Fields → Result State
replay_event lib s kind payload =
    if str_eq kind "SERVICE_DATASET_REGISTERED"
    then replay_dataset s payload
    else if str_eq kind "RUN_REGISTERED"
    then replay_run s payload
    else if str_eq kind "ADMITTED"
    then replay_admitted lib s payload
    else if str_eq kind "DISPATCHED"
    then replay_dispatched lib s payload
    else if str_eq kind "DISPATCH_REJECTED"
    then replay_rejected lib s payload
    else if str_eq kind "REVOKED"
    then replay_revoked s payload
    else err "durable journal event is unknown"
