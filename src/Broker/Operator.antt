-- ===== src/Broker/Operator.antt =====
-- The operations of `BrokeredOperator` (src/lumi_eggcracker/brokered/operator.py, lines 1025-1285). Each one reads the
-- state under the store's lock, decides, and appends at most one record. The clock's reading and
-- the fresh identifiers of `secrets` are arguments.
pub mod Accepted
pub mod Admission
pub mod Reopening
pub mod Dispatching
pub mod Fencing
use lumi_eggcracker.Base.{
  ℕ, ◌+◌, String, ◌≡◌, refl, Bool, true, false, not, ◌&&◌, ◌||◌, Option, none, some, List, [], ◌∷◌,
  leb, ltb, ◌==◌, if◌then◌else◌, str_eq, elem, length, Result, ok, err, ◌++◌,
}
use lumi_eggcracker.Base.Dict.{Dict, lookup}
use lumi_eggcracker.Json.{Value, int, pos, str, obj, Fields, end, field}
use lumi_eggcracker.Broker.Library.{Library}
use lumi_eggcracker.Broker.Claims.{
  Claims, claims_valid, claims_eq, hex32, max_runs, max_lifetime_ms, max_actions_per_run,
  max_replay_keys, max_pending_bytes, capability_schema, action_name, target_name,
}
use lumi_eggcracker.Broker.Requests.{Request, b64url, validate_request, decode_capability}
use lumi_eggcracker.Broker.State.{
  State, Run, Queue, Status, queued, applied, rejected, Row, service_result, result_value,
}
use lumi_eggcracker.Broker.Journal.{Anchor, Disk, read_state, append}
use lumi_eggcracker.Broker.Calls.{
  Action, ◌>>=◌, ◌>>◌, pure, raise, Receipt, denied, Grant, grant_for_claims, WorldSnapshot,
  run_payload, admission_payload, rejection_payload, dispatch_payload, revocation_payload,
  fresh_claims, admission_denial, dispatch_denial,
}

module _ (lib : Library) (anchor : Anchor) where
  -- `_read_state` under the lock
  unfoldable pub reading : Action State
  reading disk = (read_state lib anchor disk, disk)

  -- `_check_claims`: the claims and their run, or `none` for CAPABILITY_INVALID
  unfoldable pub against_run : State → Request → Claims → Option Run → Option (Claims × Run)
  against_run s request claims none = none
  against_run s request claims (some run) =
      if claims_valid claims s.store_id
        && claims_eq claims run.claims
        && str_eq request.run_id claims.run_id
        && request.generation == claims.generation
      then some (claims, run)
      else none

  unfoldable pub check_claims : State → Request → Option (Claims × Run)
  unfolding against_run
  check_claims s request = elim (decode_capability lib request.capability) [
    | none ↦ none
    | some claims ↦ against_run s request claims (lookup claims.run_id s.runs)
  ]

  unfoldable pub admit_checked :
      State → List ℕ → ℕ → String → Request → Option (Claims × Run) → Action Receipt
  admit_checked s raw now_ms queue_id request none =
      pure (denied "admission" "CAPABILITY_INVALID" none none none)
  admit_checked s raw now_ms queue_id request (some (claims, run)) =
      elim (admission_denial s (length raw) now_ms claims run request) [
        | some code ↦ pure (denied "admission" code (some claims.run_id) none (some run.generation))
        | none ↦ (do
          append lib anchor s "ADMITTED"
              (admission_payload lib request.operation_id queue_id raw claims.run_id)
          pure (record {
            phase = "admission";
            outcome = "QUEUED";
            code = "ADMITTED";
            run_id = some claims.run_id;
            queue_id = some queue_id;
            generation = some claims.generation;
            effect_applied = false;
            process_stop = none;
          }))
      ]

  unfoldable pub admit_request : Result Request → List ℕ → ℕ → String → Action Receipt
  unfolding reading check_claims admit_checked
  admit_request (err code) raw now_ms queue_id = pure (denied "admission" code none none none)
  admit_request (ok request) raw now_ms queue_id = do
    s ← reading
    admit_checked s raw now_ms queue_id request (check_claims s request)

  -- `admit`
  unfoldable pub admit : List ℕ → ℕ → String → Action Receipt
  unfolding admit_request
  admit raw now_ms queue_id = admit_request (validate_request lib raw) raw now_ms queue_id

  -- the last step of `_dispatch`: reject or apply, and say so
  unfoldable pub settle : State → String → Queue → Run → Option String → Action Receipt
  settle s queue_id item run (some reason) = do
    append lib anchor s "DISPATCH_REJECTED" (rejection_payload queue_id reason)
    pure (denied "dispatch" reason (some item.run_id) (some queue_id) (some run.generation))
  settle s queue_id item run none = do
    append lib anchor s "DISPATCHED" (dispatch_payload lib queue_id s.service_dataset)
    pure (record {
      phase = "dispatch";
      outcome = "APPLIED";
      code = "EFFECT_APPLIED";
      run_id = some item.run_id;
      queue_id = some queue_id;
      generation = some run.generation;
      effect_applied = true;
      process_stop = none;
    })

  unfoldable pub dispatch_run :
      State → ℕ → String → Queue → Request → Claims → Option Run → Action Receipt
  unfolding settle
  dispatch_run s now_ms queue_id item request claims none = raise "queued run is missing"
  dispatch_run s now_ms queue_id item request claims (some run) =
      if str_eq request.run_id item.run_id && str_eq request.operation_id item.operation_id
      then settle s queue_id item run (dispatch_denial s now_ms claims run item)
      else raise "queued request identity changed"

  unfoldable pub dispatch_claims :
      State → ℕ → String → Queue → Request → Option (Claims × Run) → Action Receipt
  unfolding dispatch_run
  dispatch_claims s now_ms queue_id item request none =
      raise "queued capability no longer validates"
  dispatch_claims s now_ms queue_id item request (some (claims, _)) =
      dispatch_run s now_ms queue_id item request claims (lookup item.run_id s.runs)

  unfoldable pub dispatch_request : State → ℕ → String → Queue → Result Request → Action Receipt
  unfolding dispatch_claims check_claims
  dispatch_request s now_ms queue_id item (err code) = raise "queued request is no longer canonical"
  dispatch_request s now_ms queue_id item (ok request) =
      dispatch_claims s now_ms queue_id item request (check_claims s request)

  -- a queue item that is there and belongs to the expected run
  unfoldable pub dispatch_item : State → ℕ → String → Queue → Action Receipt
  unfolding dispatch_request
  dispatch_item s now_ms queue_id item = elim item.status [
    | applied ↦ pure (denied "dispatch" "REPLAY" (some item.run_id) (some queue_id) none)
    | rejected ↦ pure (denied "dispatch" "ALREADY_FINAL" (some item.run_id) (some queue_id) none)
    | queued ↦
        (if str_eq (lib.sha256 item.request_bytes) item.request_sha256
          then dispatch_request s now_ms queue_id item (validate_request lib item.request_bytes)
          else raise "queued canonical bytes changed")
  ]

  unfoldable pub owned : Option String → Queue → Bool
  owned none item = true
  owned (some run_id) item = str_eq item.run_id run_id

  unfoldable pub dispatch_found : State → ℕ → String → Option String → Option Queue → Action Receipt
  unfolding dispatch_item owned
  dispatch_found s now_ms queue_id expected none =
      pure (denied "dispatch" "NOT_FOUND" none (some queue_id) none)
  dispatch_found s now_ms queue_id expected (some item) =
      if owned expected item
      then dispatch_item s now_ms queue_id item
      else pure (denied "dispatch" "NOT_FOUND" none (some queue_id) none)

  -- `_dispatch`
  unfoldable pub dispatch_expecting : String → Option String → ℕ → Action Receipt
  unfolding reading dispatch_found
  dispatch_expecting queue_id expected now_ms =
      if hex32 queue_id
      then (do s ← reading; dispatch_found s now_ms queue_id expected (lookup queue_id s.queues))
      else pure (denied "dispatch" "INVALID_QUEUE_ID" none none none)

  -- `dispatch`
  unfoldable pub dispatch : String → ℕ → Action Receipt
  unfolding dispatch_expecting
  dispatch queue_id now_ms = dispatch_expecting queue_id none now_ms

  -- `dispatch_for_run`
  unfoldable pub dispatch_for_run : String → String → ℕ → Action Receipt
  unfolding dispatch_expecting
  dispatch_for_run queue_id run_id now_ms =
      if hex32 run_id
      then dispatch_expecting queue_id (some run_id) now_ms
      else pure (denied "dispatch" "NOT_FOUND" none none none)

  unfoldable pub process_stop_of : String → Option String
  process_stop_of reason = if str_eq reason "STOP_REQUESTED" then some "UNSUPPORTED" else none

  unfoldable pub revoke_found : State → String → String → Option Run → Action Receipt
  unfolding process_stop_of
  revoke_found s run_id reason none = pure (denied "revocation" "NOT_FOUND" none none none)
  revoke_found s run_id reason (some run) =
      if run.revoked
      then pure (record {
        phase = "revocation";
        outcome = "ALREADY_REVOKED";
        code = "CAPABILITY_REVOKED";
        run_id = some run_id;
        queue_id = none;
        generation = some run.generation;
        effect_applied = false;
        process_stop = process_stop_of reason;
      })
      else (do
        append lib anchor s "REVOKED" (revocation_payload (run.generation + 1) reason run_id)
        pure (record {
          phase = "revocation";
          outcome = "REVOKED";
          code = reason;
          run_id = some run_id;
          queue_id = none;
          generation = some (run.generation + 1);
          effect_applied = false;
          process_stop = process_stop_of reason;
        }))

  -- `_revoke`
  unfoldable pub revoke_for : String → String → Action Receipt
  unfolding reading revoke_found
  revoke_for run_id reason =
      if hex32 run_id
      then (do s ← reading; revoke_found s run_id reason (lookup run_id s.runs))
      else pure (denied "revocation" "NOT_FOUND" none none none)

  -- `revoke` and `request_stop`
  unfoldable pub revoke : String → Action Receipt
  unfolding revoke_for
  revoke run_id = revoke_for run_id "CAPABILITY_REVOKED"

  unfoldable pub request_stop : String → Action Receipt
  unfolding revoke_for
  request_stop run_id = revoke_for run_id "STOP_REQUESTED"

  -- `_register_run_locked`
  unfoldable pub register_run_locked : ℕ → String → State → Action Grant
  register_run_locked now_ms run_id s =
      if leb max_runs (length s.runs)
      then raise "run capacity is exhausted"
      else if now_ms == 0
      then raise "trusted clock is unavailable"
      else (do
        let claims = fresh_claims s now_ms run_id
        append lib anchor s "RUN_REGISTERED" (run_payload claims)
        pure (grant_for_claims lib claims))

  -- `_register_run`
  unfoldable pub register_run : ℕ → String → Action Grant
  unfolding reading register_run_locked
  register_run now_ms run_id = do s ← reading; register_run_locked now_ms run_id s

  -- `world_snapshot`
  unfoldable pub world_snapshot : Action WorldSnapshot
  unfolding reading
  world_snapshot = do
    s ← reading
    pure (record { protected_effects = s.effect_count; unrelated_canary_allocation = 73 })
