-- ===== src/Broker/Replay/Inversion.antt =====
-- What each accepted journal record shows, and the state that it leaves.
use lumi_eggcracker.Base.{
  ℕ, ◌+◌, ◌≤◌, ◌<◌, String, ◌≡◌, inl, inr, false, none, some, List, length, ok, arith, Bool-cases,
  Option-cases, Result-cases, str_eq,
}
use lumi_eggcracker.Base.Dict.{Dict, lookup, insert}
use lumi_eggcracker.Json.{Fields, get}
use lumi_eggcracker.Broker.Library.{Library}
use lumi_eggcracker.Broker.Claims.{
  Claims, claims_of, text_at, max_runs, max_actions_per_run, max_replay_keys, max_pending_bytes,
}
use lumi_eggcracker.Broker.State.{State, Run, Queue, queued, new_run, ServiceResult, rows_of, Row}
use lumi_eggcracker.Broker.Replay.{
  replay_dataset, replay_run, replay_admitted, replay_dispatched, replay_rejected, replay_revoked,
  replay_event, admitted_state, dispatched_state, rejected_state, revoked_state, queued_item,
  admission_matches, dict_of, record_result,
}

-- An accepted revocation is of a run that is known and not revoked.
pub revoked_inversion :
    (s s' : State) (payload : Fields)
    → replay_revoked s payload ≡ ok s'
    → (run : Run) × (lookup (text_at "run_id" payload) s.runs ≡ some run)
      × (run.revoked ≡ false)
      × (s' ≡ revoked_state s (text_at "run_id" payload) run (text_at "reason" payload))
unfolding replay_revoked
revoked_inversion s s' payload h = ground arith

pub run_inversion :
    (s s' : State) (payload : Fields)
    → replay_run s payload ≡ ok s'
    → (claims : Claims) × (lookup claims.run_id s.runs ≡ none)
      × (length s.runs < max_runs)
      × (claims.generation ≡ 0)
      × (s' ≡ record s { runs = insert claims.run_id (new_run claims) s.runs })
unfolding replay_run
run_inversion s s' payload h = elim (Option-cases (dict_of (get "claims" payload))) [
  | inl missing ↦ absurd (ground arith)
  | inr (fs, found) ↦ (claims_of fs, ground arith, ground arith, ground arith, ground arith)
]

pub dataset_inversion :
    (s s' : State) (payload : Fields)
    → replay_dataset s payload ≡ ok s'
    → (rows : List Row) × (s.service_dataset ≡ none)
      × (s' ≡ record s { service_dataset = some rows })
unfolding replay_dataset
dataset_inversion s s' payload h = (rows_of (get "records" payload), ground arith, ground arith)

module _ (lib : Library) where
  pub queued_item_inversion :
      (s : State) (payload : Fields) (item : Queue)
      → queued_item lib s payload ≡ ok item
      → (lookup (text_at "queue_id" payload) s.queues ≡ some item) × (item.status ≡ queued)
  unfolding queued_item
  queued_item_inversion s payload item h = ground arith

  pub rejected_inversion :
      (s s' : State) (payload : Fields)
      → replay_rejected lib s payload ≡ ok s'
      → (item : Queue) × (lookup (text_at "queue_id" payload) s.queues ≡ some item)
        × (item.status ≡ queued)
        × (s' ≡ rejected_state lib s (text_at "queue_id" payload) item)
  unfolding replay_rejected queued_item
  rejected_inversion s s' payload h = ground arith

  pub dispatched_inversion :
      (s s' : State) (payload : Fields)
      → replay_dispatched lib s payload ≡ ok s'
      → (item : Queue) × (run : Run) × (results : Dict ServiceResult) × (lookup
            (text_at "queue_id" payload)
            s.queues
          ≡ some item)
        × (item.status ≡ queued)
        × (lookup item.run_id s.runs ≡ some run)
        × (run.revoked ≡ false)
        × (run.generation ≡ 0)
        × (s' ≡ dispatched_state lib s (text_at "queue_id" payload) item run results)
  unfolding replay_dispatched queued_item
  dispatched_inversion s s' payload h =
      elim (Option-cases (lookup (text_at "queue_id" payload) s.queues)) [
        | inl missing ↦ absurd (ground arith)
        | inr (item, found) ↦ elim (Option-cases (lookup item.run_id s.runs)) [
          | inl missing ↦ absurd (ground arith)
          | inr (run, of_run) ↦
              elim (Result-cases (record_result lib s payload item.queue_id s.service_dataset)) [
                | inl (results, e) ↦ (
                  item,
                  run,
                  results,
                  ground arith,
                  ground arith,
                  ground arith,
                  ground arith,
                  ground arith,
                  ground arith,
                )
                | inr (message, e) ↦ absurd (ground arith)
              ]
        ]
      ]

  pub admitted_inversion :
      (s s' : State) (payload : Fields)
      → replay_admitted lib s payload ≡ ok s'
      → (raw : List ℕ) × (run : Run) × (lookup (text_at "run_id" payload) s.runs ≡ some run)
        × (lookup (text_at "queue_id" payload) s.queues ≡ none)
        × (run.revoked ≡ false)
        × (run.admitted < max_actions_per_run)
        × (length s.operation_ids < max_replay_keys)
        × (s.pending_bytes + length raw ≤ max_pending_bytes)
        × (s'
            ≡ admitted_state lib s
                (text_at "run_id" payload)
                (text_at "queue_id" payload)
                (text_at "operation_id" payload)
                raw
                (text_at "request_sha256" payload)
                run)
  unfolding replay_admitted admission_matches
  admitted_inversion s s' payload h =
      elim (Option-cases (lib.b64decode (text_at "request_b64" payload))) [
        | inl missing ↦ absurd (ground arith)
        | inr (raw, decoded) ↦ elim (Option-cases (lookup (text_at "run_id" payload) s.runs)) [
          | inl missing ↦ absurd (ground arith)
          | inr (run, found) ↦ (
            raw,
            run,
            found,
            ground arith,
            ground arith,
            ground arith,
            ground arith,
            ground arith,
            ground arith,
          )
        ]
      ]

-- Which record an accepted event is, with the equation of its own replay function.
pub data EventCase (lib : Library) (s s' : State) (payload : Fields) : Type 0 where
  dataset : replay_dataset s payload ≡ ok s' → EventCase lib s s' payload
  run_registered : replay_run s payload ≡ ok s' → EventCase lib s s' payload
  admitted : replay_admitted lib s payload ≡ ok s' → EventCase lib s s' payload
  dispatched : replay_dispatched lib s payload ≡ ok s' → EventCase lib s s' payload
  dispatch_rejected : replay_rejected lib s payload ≡ ok s' → EventCase lib s s' payload
  revoked : replay_revoked s payload ≡ ok s' → EventCase lib s s' payload

pub event_cases :
    (lib : Library) (s s' : State) (kind : String) (payload : Fields)
    → replay_event lib s kind payload ≡ ok s'
    → EventCase lib s s' payload
unfolding replay_event
event_cases lib s s' kind payload h = elim (Bool-cases (str_eq kind "SERVICE_DATASET_REGISTERED")) [
  | inl e ↦ dataset (rw e at h)
  | inr n1 ↦ elim (Bool-cases (str_eq kind "RUN_REGISTERED")) [
    | inl e ↦ run_registered (ground arith)
    | inr n2 ↦ elim (Bool-cases (str_eq kind "ADMITTED")) [
      | inl e ↦ admitted (ground arith)
      | inr n3 ↦ elim (Bool-cases (str_eq kind "DISPATCHED")) [
        | inl e ↦ dispatched (ground arith)
        | inr n4 ↦ elim (Bool-cases (str_eq kind "DISPATCH_REJECTED")) [
          | inl e ↦ dispatch_rejected (ground arith)
          | inr n5 ↦ revoked (ground arith)
        ]
      ]
    ]
  ]
]
