-- ===== src/Broker/Operator/Accepted.antt =====
-- The record that each operation appends is one that the replay accepts.
use lumi_eggcracker.Base.{
  ℕ, ◌+◌, String, ◌≡◌, Bool, true, false, ◌&&◌, Option, none, some, List, [], ◌∷◌, length, ok,
  arith, eq_iff, eq_refl, str_eq, elem, ==_iff, Option-cases, Result-cases, inl, inr,
}
use lumi_eggcracker.Base.Dict.{Dict, lookup, insert}
use lumi_eggcracker.Json.{as_str, is_text, is_the, is_int, Fields, get}
use lumi_eggcracker.Broker.Library.{Library}
use lumi_eggcracker.Broker.Claims.{
  Claims, claims_eq, claims_valid, request_schema, hex32, operation_id_text, max_request_bytes,
  target_name, action_name,
}
use lumi_eggcracker.Broker.Requests.{
  Request, validate_request, request_fields, request_values, delta_payload, request_of,
  request_code, parse_canonical_json, decode_capability,
}
use lumi_eggcracker.Broker.State.{
  State, Run, Queue, queued, ServiceResult, Row, service_result, result_value, is_result, tally,
}
use lumi_eggcracker.Broker.Replay.{
  replay_event, replay_admitted, replay_dispatched, replay_rejected, replay_revoked, queued_item,
  record_result, admission_matches, admitted_state, dispatched_state, rejected_state, revoked_state,
  revocation_reasons,
}
use lumi_eggcracker.Broker.Replay.Invariant.{IsValid}
use lumi_eggcracker.Broker.Replay.Linked.{IsLinked}
use lumi_eggcracker.Broker.Journal.{Anchor}
use lumi_eggcracker.Broker.Calls.{
  admission_payload, rejection_payload, dispatch_payload, revocation_payload, admission_denial,
  dispatch_denial,
}
use lumi_eggcracker.Broker.Operator.{check_claims, against_run}

-- `rejection_reasons` of the replay
abbrev rejection_list : List String
rejection_list = "BUDGET_EXHAUSTED" ∷ "EXPIRED" ∷ "REPLAY" ∷ "STALE_GENERATION" ∷ []

-- A revocation of a run that is not revoked is accepted.
pub revocation-accepted :
    (lib : Library) (s : State) (run_id reason : String) (run : Run)
    → lookup run_id s.runs ≡ some run
    → run.revoked ≡ false
    → elem reason revocation_reasons ≡ true
    → replay_event lib s "REVOKED" (revocation_payload (run.generation + 1) reason run_id)
      ≡ ok (revoked_state s run_id run reason)
unfolding replay_event replay_revoked revocation_payload
revocation-accepted lib s run_id reason run found live allowed =
    rw found (ground (arith, live, allowed, ==_iff (run.generation + 1) (run.generation + 1)))

abbrev is_allowed : Option String → Bool
is_allowed none = true
is_allowed (some reason) = elem reason rejection_list

dispatch_denial-allowed :
    (s : State) (now_ms : ℕ) (item : Queue) (run : Run)
    → run.generation ≡ tally run.revoked
    → run.claims.generation ≡ 0
    → is_allowed (dispatch_denial s now_ms run.claims run item) ≡ true
unfolding dispatch_denial
dispatch_denial-allowed s now_ms item run g c = ground arith

pub rejection_allowed :
    (s : State) (now_ms : ℕ) (item : Queue) (run : Run) (reason : String)
    → run.generation ≡ tally run.revoked
    → run.claims.generation ≡ 0
    → dispatch_denial s now_ms run.claims run item ≡ some reason
    → elem reason rejection_list ≡ true
rejection_allowed s now_ms item run reason generation first denial =
    rw denial at (dispatch_denial-allowed s now_ms item run generation first)

-- A rejection for a reason that `_dispatch` gives is accepted: of its reasons only
-- CAPABILITY_REVOKED is not allowed in the journal, and a revoked run has moved its generation.
pub rejection-accepted :
    (lib : Library) (s : State) (now_ms : ℕ) (q : String) (item : Queue) (run : Run)
    (reason : String)
    → IsValid s
    → lookup q s.queues ≡ some item
    → item.status ≡ queued
    → lookup item.run_id s.runs ≡ some run
    → dispatch_denial s now_ms run.claims run item ≡ some reason
    → replay_event lib s "DISPATCH_REJECTED" (rejection_payload q reason)
      ≡ ok (rejected_state lib s q item)
unfolding replay_event replay_rejected queued_item rejection_payload
rejection-accepted lib s now_ms q item run reason v found waiting of_item denial =
    let (_, generation, _, first) = v.run_ok item.run_id run of_item in
    let allowed = rejection_allowed s now_ms item run reason generation first denial in
    rw found (ground (arith, waiting, allowed))

is_result-result_value : (r : ServiceResult) → is_result (some (result_value r)) r ≡ true
unfolding is_result result_value
is_result-result_value r = ground (
  arith,
  eq_refl r.dataset_id,
  eq_refl r.dataset_sha256,
  ==_iff r.accepted r.accepted,
  ==_iff r.records_checked r.records_checked,
  ==_iff r.review r.review,
  ==_iff r.units_total r.units_total,
)

-- the results that the dispatch of `q` leaves
pub results_after : Library → State → String → Option (List Row) → Dict ServiceResult
results_after lib s q none = s.results
results_after lib s q (some rows) = insert q (service_result lib rows) s.results

-- A dispatch that nothing refuses is accepted, and applies the effect.
pub dispatch-accepted :
    (lib : Library) (s : State) (now_ms : ℕ) (q : String) (item : Queue) (run : Run)
    (request : Request)
    → IsValid s
    → IsLinked s
    → lookup q s.queues ≡ some item
    → item.status ≡ queued
    → lookup item.run_id s.runs ≡ some run
    → validate_request lib item.request_bytes ≡ ok request
    → request.operation_id ≡ item.operation_id
    → dispatch_denial s now_ms run.claims run item ≡ none
    → replay_event lib s "DISPATCHED" (dispatch_payload lib q s.service_dataset)
      ≡ ok (dispatched_state lib s q item run (results_after lib s q s.service_dataset))
unfolding replay_event replay_dispatched queued_item record_result dispatch_denial results_after
    dispatch_payload
dispatch-accepted lib s now_ms q item run request v linked found waiting of_item canonical named
      allowed =
    let (same, open_item) = linked.item_ok q item found in
    let (_, generation, _, _) = v.run_ok item.run_id run of_item in
    elim (Option-cases s.service_dataset) [
      | inl e ↦ rw e (
          rw found (
            ground (
              arith,
              e,
              waiting,
              of_item,
              canonical,
              named,
              allowed,
              generation,
              same,
              open_item waiting,
              eq_iff request.operation_id item.operation_id,
            )))
      | inr (rows, e) ↦ rw e (
          rw found (
            ground (
              arith,
              e,
              waiting,
              of_item,
              canonical,
              named,
              allowed,
              generation,
              same,
              open_item waiting,
              eq_iff request.operation_id item.operation_id,
              is_result-result_value (service_result lib rows),
            )))
    ]

sixth_of_eight : (a b c d e f g h : Bool) → (a && b && c && d && e && f && g && h) ≡ true → f ≡ true
sixth_of_eight a b c d e f g h t = ground arith

request_values-operation_id :
    (fs : Fields)
    → request_values fs ≡ true
    → is_text operation_id_text (get "operation_id" fs) ≡ true
unfolding request_values
request_values-operation_id fs h =
    sixth_of_eight (is_the request_schema (get "schema_version" fs))
      (is_the action_name (get "action" fs)) (is_the target_name (get "target" fs))
      (is_text hex32 (get "run_id" fs)) (is_int 0 (get "generation" fs))
      (is_text operation_id_text (get "operation_id" fs))
      (is_text (λ s. true) (get "capability" fs)) (delta_payload (get "payload" fs)) h

read_text :
    (p : String → Bool) (o : Option String)
    → elim o [ none ↦ false | some s ↦ p s ] ≡ true
    → p (elim o [ none ↦ "" | some s ↦ s ]) ≡ true
read_text p none h = cc
read_text p (some s) h = h

read_fields :
    (fs : Fields) (request : Request)
    → request_fields fs ≡ ok request
    → (request_values fs ≡ true) × (request ≡ request_of fs)
unfolding request_fields
read_fields fs request h = ground arith

request_fields-operation_id :
    (fs : Fields) (request : Request)
    → request_fields fs ≡ ok request
    → operation_id_text request.operation_id ≡ true
unfolding request_of
request_fields-operation_id fs request h =
    let (values, same) = read_fields fs request h in
    let text = request_values-operation_id fs values in
    rw same (read_text operation_id_text (as_str (get "operation_id" fs)) text)

-- An accepted request has a well-formed operation identifier.
pub validate_request-operation_id :
    (lib : Library) (raw : List ℕ) (request : Request)
    → validate_request lib raw ≡ ok request
    → operation_id_text request.operation_id ≡ true
unfolding validate_request request_code
validate_request-operation_id lib raw request h =
    elim (Result-cases (parse_canonical_json lib raw max_request_bytes)) [
      | inl (fs, e) ↦ request_fields-operation_id fs request (ground (arith, e))
      | inr (message, e) ↦ absurd (ground (arith, e))
    ]

pub check_claims_inversion :
    (lib : Library) (anchor : Anchor) (s : State) (request : Request) (claims : Claims) (run : Run)
    → check_claims lib anchor s request ≡ some (claims, run)
    → (decode_capability lib request.capability ≡ some claims)
      × (lookup claims.run_id s.runs ≡ some run)
      × (claims_valid claims s.store_id ≡ true)
      × (claims_eq claims run.claims ≡ true)
      × (str_eq request.run_id claims.run_id ≡ true)
      × (request.generation ≡ claims.generation)
unfolding check_claims against_run
check_claims_inversion lib anchor s request claims run h =
    elim (Option-cases (decode_capability lib request.capability)) [
      | inl e ↦ absurd (ground (arith, e))
      | inr (c, e) ↦ elim (Option-cases (lookup c.run_id s.runs)) [
        | inl missing ↦ absurd (ground (arith, e, missing))
        | inr (r, found) ↦ (
          ground (arith, e, found),
          ground (arith, e, found),
          ground (arith, e, found),
          ground (arith, e, found),
          ground (arith, e, found),
          ground (arith, e, found),
        )
      ]
    ]

-- An admission that nothing refuses is accepted, given a fresh queue identifier and that base64
-- decodes what it encoded.
pub admission-accepted :
    (lib : Library) (anchor : Anchor) (s : State) (raw : List ℕ) (now_ms : ℕ) (queue_id : String)
    (request : Request) (claims : Claims) (run : Run)
    → IsValid s
    → validate_request lib raw ≡ ok request
    → check_claims lib anchor s request ≡ some (claims, run)
    → admission_denial s (length raw) now_ms claims run request ≡ none
    → lib.b64decode (lib.b64encode raw) ≡ some raw
    → hex32 queue_id ≡ true
    → lookup queue_id s.queues ≡ none
    → replay_event lib s "ADMITTED"
        (admission_payload lib request.operation_id queue_id raw claims.run_id)
      ≡ ok (
          admitted_state lib s claims.run_id queue_id request.operation_id raw (lib.sha256 raw) run)
unfolding replay_event replay_admitted admission_payload admission_matches admission_denial
    claims_eq claims_valid
admission-accepted lib anchor s raw now_ms queue_id request claims run v canonical checked allowed
      decodes hexed fresh =
    let (decoded, found, valid, same, of_run, generation) =
      check_claims_inversion lib anchor s request claims run checked in
    let named = validate_request-operation_id lib raw request canonical in
    let (bound, _, name, _) = v.run_ok claims.run_id run found in
    rw (decodes, canonical, decoded, found)
      (ground (
        arith,
        valid,
        same,
        of_run,
        generation,
        named,
        bound,
        name,
        allowed,
        hexed,
        fresh,
        eq_refl (lib.sha256 raw),
        eq_refl request.operation_id,
        eq_iff request.run_id claims.run_id,
        eq_iff request.run_id run.claims.run_id,
        eq_iff target_name claims.target,
        eq_iff claims.target run.claims.target,
        eq_iff target_name run.claims.target,
        eq_iff action_name claims.action,
        eq_iff claims.action run.claims.action,
        eq_iff action_name run.claims.action,
      ))
