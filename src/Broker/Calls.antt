-- ===== src/Broker/Calls.antt =====
-- Calls of the operator, receipts and grants, the payloads of its records, and the denials
-- (src/lumi_eggcracker/brokered/operator.py).

use lumi_eggcracker.Base.{
  ℕ, ◌+◌, String, Bool, false, not, Option, none, some, List, ◌∷◌, leb, ltb, ◌==◌, if◌then◌else◌,
  elem, length, Result, ok, err, ◌++◌,
}
use lumi_eggcracker.Json.{Value, int, pos, str, obj, Fields, end, field}
use lumi_eggcracker.Broker.Library.{Library}
use lumi_eggcracker.Broker.Claims.{
  Claims, max_lifetime_ms, max_actions_per_run, max_replay_keys, max_pending_bytes,
  capability_schema, action_name, target_name,
}
use lumi_eggcracker.Broker.Requests.{Request, b64url}
use lumi_eggcracker.Broker.State.{State, Run, Queue, Row, service_result, result_value}
use lumi_eggcracker.Broker.Journal.{Disk}

-- A call under the lock: an answer or an exception, and the disk that it leaves.
abbrev pub Action : Type 0 → Type 0
Action A = Disk → Result A × Disk

infixl 5 ◌>>=◌ ◌>>◌
abbrev pub ◌>>=◌ : {A B : Type 0} → Action A → (A → Action B) → Action B
◌>>=◌ m f d = let (r, d') = m d in elim r [ ok a ↦ f a d' | err e ↦ (err e, d') ]

abbrev pub ◌>>◌ : {A B : Type 0} → Action A → Action B → Action B
m >> k = m >>= λ _. k

abbrev pub pure : {A : Type 0} → A → Action A
pure a d = (ok a, d)

abbrev pub raise : {A : Type 0} → String → Action A
raise e d = (err e, d)

-- `Receipt`
pub record Receipt : Type 0 where
  pub phase : String
  pub outcome : String
  pub code : String
  pub run_id : Option String
  pub queue_id : Option String
  pub generation : Option ℕ
  pub effect_applied : Bool
  pub process_stop : Option String

-- `_receipt(phase, "DENIED", code)` with its optional fields
abbrev pub denied : String → String → Option String → Option String → Option ℕ → Receipt
denied phase code run_id queue_id generation = record {
  phase = phase;
  outcome = "DENIED";
  code = code;
  run_id = run_id;
  queue_id = queue_id;
  generation = generation;
  effect_applied = false;
  process_stop = none;
}

unfoldable pub claims_value : Claims → Value
claims_value c = obj (
    field "action" (str c.action) (
      field "expires_at_ms" (int (pos c.expires_at_ms)) (
        field "generation" (int (pos c.generation)) (
          field "max_actions" (int (pos c.max_actions)) (
            field "run_id" (str c.run_id) (
              field "schema_version" (str capability_schema)
                (field "store_id" (str c.store_id) (field "target" (str c.target) end))))))))

-- `_capability_token`, as its code points
unfoldable pub capability_token : Library → Claims → List ℕ
capability_token lib c =
    let raw = lib.dumps (claims_value c) in
    b64url lib raw ++ b'.' ∷ b64url lib (lib.hmac_digest raw)

-- `CapabilityGrant`
pub record Grant : Type 0 where
  pub run_id : String
  pub generation : ℕ
  pub expires_at_ms : ℕ
  pub target : String
  pub action : String
  pub capability : List ℕ

-- `_grant_for_claims`
unfoldable pub grant_for_claims : Library → Claims → Grant
unfolding capability_token
grant_for_claims lib c = record {
  run_id = c.run_id;
  generation = c.generation;
  expires_at_ms = c.expires_at_ms;
  target = c.target;
  action = c.action;
  capability = capability_token lib c;
}

-- `WorldSnapshot`
pub record WorldSnapshot : Type 0 where
  pub protected_effects : ℕ
  pub unrelated_canary_allocation : ℕ

-- the payloads that the operations append
unfoldable pub run_payload : Claims → Fields
unfolding claims_value
run_payload c = field "claims" (claims_value c) end

unfoldable pub admission_payload : Library → String → String → List ℕ → String → Fields
admission_payload lib operation_id queue_id raw run_id = field "operation_id" (str operation_id) (
    field "queue_id" (str queue_id) (
      field "request_b64" (str (lib.b64encode raw))
        (field "request_sha256" (str (lib.sha256 raw)) (field "run_id" (str run_id) end))))

unfoldable pub rejection_payload : String → String → Fields
rejection_payload queue_id reason =
    field "queue_id" (str queue_id) (field "reason" (str reason) end)

unfoldable pub dispatch_payload : Library → String → Option (List Row) → Fields
dispatch_payload lib queue_id none = field "queue_id" (str queue_id) end
dispatch_payload lib queue_id (some rows) =
    field "queue_id" (str queue_id) (field "result" (result_value (service_result lib rows)) end)

unfoldable pub revocation_payload : ℕ → String → String → Fields
revocation_payload new_generation reason run_id =
    field "new_generation" (int (pos new_generation))
      (field "reason" (str reason) (field "run_id" (str run_id) end))

-- The claims of a fresh run.
unfoldable pub fresh_claims : State → ℕ → String → Claims
fresh_claims s now_ms run_id = record {
  action = action_name;
  expires_at_ms = now_ms + max_lifetime_ms;
  generation = 0;
  max_actions = max_actions_per_run;
  run_id = run_id;
  store_id = s.store_id;
  target = target_name;
}

-- Why an admission is refused, in the order of the tests; `none` admits.
unfoldable pub admission_denial : State → ℕ → ℕ → Claims → Run → Request → Option String
admission_denial s size now_ms claims run request =
    if run.revoked
    then some "CAPABILITY_REVOKED"
    else if not (run.generation == claims.generation)
    then some "STALE_GENERATION"
    else if leb claims.expires_at_ms now_ms
    then some "EXPIRED"
    else if elem request.operation_id s.operation_ids
    then some "REPLAY"
    else if leb max_replay_keys (length s.operation_ids)
    then some "REPLAY_CAPACITY_EXHAUSTED"
    else if leb claims.max_actions run.admitted
    then some "BUDGET_EXHAUSTED"
    else if ltb max_pending_bytes (s.pending_bytes + size)
    then some "GLOBAL_BUDGET_EXHAUSTED"
    else none

-- Why a dispatch is refused, in the order of the tests; `none` applies the effect.
unfoldable pub dispatch_denial : State → ℕ → Claims → Run → Queue → Option String
dispatch_denial s now_ms claims run item =
    if not (run.generation == claims.generation)
    then some "STALE_GENERATION"
    else if run.revoked
    then some "CAPABILITY_REVOKED"
    else if leb claims.expires_at_ms now_ms
    then some "EXPIRED"
    else if elem item.operation_id s.applied_operation_ids
    then some "REPLAY"
    else if leb claims.max_actions run.applied
    then some "BUDGET_EXHAUSTED"
    else none
