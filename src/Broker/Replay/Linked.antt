-- ===== src/Broker/Replay/Linked.antt =====
-- Queue items stand under their own identifiers, name runs that exist, and hold a service result
-- only once they were applied.
use lumi_eggcracker.Base.{
  ℕ, String, ◌≡◌, false, Option, none, some, List, ok, arith, eq_iff, str_eq, inl, inr,
  Option-cases, Result-cases,
}
use lumi_eggcracker.Base.Dict.{Dict, lookup, lookup-insert}
use lumi_eggcracker.Json.{Fields}
use lumi_eggcracker.Broker.Library.{Library}
use lumi_eggcracker.Broker.Claims.{text_at}
use lumi_eggcracker.Broker.State.{
  State, Run, Queue, queued, applied, rejected, ServiceResult, Row, service_result,
}
use lumi_eggcracker.Broker.Replay.{
  replay_event, replay_dispatched, queued_item, record_result, admitted_state, dispatched_state,
  rejected_state, revoked_state,
}
use lumi_eggcracker.Broker.Replay.Inversion.{
  revoked_inversion, run_inversion, dataset_inversion, rejected_inversion, admitted_inversion,
  dataset, run_registered, admitted, dispatched, dispatch_rejected, revoked, event_cases,
}

-- The item under a key has that key, and is open only while it has no result.
abbrev pub ItemOk : Dict ServiceResult → String → Queue → Type 0
ItemOk results q item = (item.queue_id ≡ q) × (item.status ≡ queued → lookup q results ≡ none)

pub record IsLinked (s : State) : Type 0 where
  pub item_ok :
      (q : String) (item : Queue) → lookup q s.queues ≡ some item → ItemOk s.results q item
  pub result_ok : (q : String) → lookup q s.queues ≡ none → lookup q s.results ≡ none

-- the results that a dispatch record leaves: those before, or one more
record_result_cases :
    (lib : Library) (s : State) (payload : Fields) (q : String) (rows : Option (List Row))
    (results : Dict ServiceResult)
    → record_result lib s payload q rows ≡ ok results
    → (j : String) → (str_eq j q ≡ false)
    → lookup j results ≡ lookup j s.results
unfolding record_result
record_result_cases lib s payload q none results h j other = ground arith
record_result_cases lib s payload q (some rows) results h j other =
    ground (arith, lookup-insert j q (service_result lib rows) s.results)

pub dispatched_results :
    (lib : Library) (s s' : State) (payload : Fields)
    → replay_dispatched lib s payload ≡ ok s'
    → (item : Queue) × (run : Run) × (results : Dict ServiceResult) × (lookup
          (text_at "queue_id" payload)
          s.queues
        ≡ some item)
      × (record_result lib s payload item.queue_id s.service_dataset ≡ ok results)
      × (s' ≡ dispatched_state lib s (text_at "queue_id" payload) item run results)
unfolding replay_dispatched queued_item
dispatched_results lib s s' payload h =
    elim (Option-cases (lookup (text_at "queue_id" payload) s.queues)) [
      | inl missing ↦ absurd (ground arith)
      | inr (item, found) ↦ elim (Option-cases (lookup item.run_id s.runs)) [
        | inl missing ↦ absurd (ground arith)
        | inr (run, of_run) ↦
            elim (Result-cases (record_result lib s payload item.queue_id s.service_dataset)) [
              | inl (results, e) ↦ (item, run, results, found, e, ground arith)
              | inr (message, e) ↦ absurd (ground arith)
            ]
      ]
    ]

module _ (s : State) (v : IsLinked s) (lib : Library) where
  dispatched-IsLinked :
      (q : String) (item : Queue) (run : Run) (payload : Fields) (results : Dict ServiceResult)
      → lookup q s.queues ≡ some item
      → record_result lib s payload item.queue_id s.service_dataset ≡ ok results
      → IsLinked (dispatched_state lib s q item run results)
  unfolding dispatched_state
  dispatched-IsLinked q item run payload results found e =
      let item' : Queue = record item { status = applied } in
      record {
        item_ok = λ j other h. ground (
          arith,
          v.item_ok q item found,
          v.item_ok j other,
          lookup-insert j q item' s.queues,
          eq_iff j q,
          record_result_cases lib s payload item.queue_id s.service_dataset results e j,
        );
        result_ok = λ j h. ground (
          arith,
          v.item_ok q item found,
          v.result_ok j,
          lookup-insert j q item' s.queues,
          eq_iff j q,
          record_result_cases lib s payload item.queue_id s.service_dataset results e j,
        );
      }

  admitted-IsLinked :
      (k q operation_id sha : String) (raw : List ℕ) (run : Run)
      → lookup q s.queues ≡ none
      → IsLinked (admitted_state lib s k q operation_id raw sha run)
  unfolding admitted_state
  admitted-IsLinked k q operation_id sha raw run fresh =
      let item : Queue = record {
        queue_id = q;
        run_id = run.claims.run_id;
        operation_id = operation_id;
        request_bytes = raw;
        request_sha256 = sha;
        status = queued;
      } in
      record {
        item_ok = λ j other h. ground (
          arith,
          v.item_ok j other,
          v.result_ok q fresh,
          lookup-insert j q item s.queues,
          eq_iff j q,
        );
        result_ok =
            λ j h. ground (arith, v.result_ok j, lookup-insert j q item s.queues, eq_iff j q);
      }

  rejected-IsLinked :
      (q : String) (item : Queue)
      → lookup q s.queues ≡ some item
      → IsLinked (rejected_state lib s q item)
  unfolding rejected_state
  rejected-IsLinked q item found =
      let item' : Queue = record item { status = rejected } in
      record {
        item_ok = λ j other h. ground (
          arith,
          v.item_ok q item found,
          v.item_ok j other,
          lookup-insert j q item' s.queues,
          eq_iff j q,
        );
        result_ok =
            λ j h. ground (arith, v.result_ok j, lookup-insert j q item' s.queues, eq_iff j q);
      }

-- Every accepted record keeps the items and the results linked.
pub replay_event-IsLinked :
    (lib : Library) (s s' : State) (kind : String) (payload : Fields)
    → IsLinked s
    → replay_event lib s kind payload ≡ ok s'
    → IsLinked s'
unfolding revoked_state
replay_event-IsLinked lib s s' kind payload v h = elim (event_cases lib s s' kind payload h) [
  | dataset e ↦
      (let (rows, _, same) = dataset_inversion s s' payload e in
        rw same (record { item_ok = v.item_ok; result_ok = v.result_ok }))
  | run_registered e ↦
      (let (claims, _, _, _, same) = run_inversion s s' payload e in
        rw same (record { item_ok = v.item_ok; result_ok = v.result_ok }))
  | admitted e ↦
      (let (raw, r, _, fresh, _, _, _, _, same) = admitted_inversion lib s s' payload e in
        rw same (
          admitted-IsLinked s v lib (text_at "run_id" payload) (text_at "queue_id" payload)
            (text_at "operation_id" payload) (text_at "request_sha256" payload) raw r fresh))
  | dispatched e ↦
      (let (item, r, results, found, recorded, same) = dispatched_results lib s s' payload e in
        rw same (
          dispatched-IsLinked s v lib (text_at "queue_id" payload) item r payload results found
            recorded))
  | dispatch_rejected e ↦
      (let (item, found, _, same) = rejected_inversion lib s s' payload e in
        rw same (rejected-IsLinked s v lib (text_at "queue_id" payload) item found))
  | revoked e ↦
      (let (r, _, _, same) = revoked_inversion s s' payload e in
        rw same (record { item_ok = v.item_ok; result_ok = v.result_ok }))
]
