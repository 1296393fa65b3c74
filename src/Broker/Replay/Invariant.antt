-- ===== src/Broker/Replay/Invariant.antt =====
-- The well-formedness of the replayed broker state, and that each record keeps it.
use lumi_eggcracker.Base.{
  ℕ, ◌+◌, ◌≤◌, ◌<◌, String, ◌≡◌, true, false, Option, none, some, List, [], ◌∷◌, length, ok, arith,
  eq_iff, str_eq,
}
use lumi_eggcracker.Base.Dict.{
  Dict, lookup, insert, lookup-insert, length-insert_new, length-insert_old, sum_values,
  sum_values-insert_new, sum_values-insert_old,
}
use lumi_eggcracker.Json.{Fields}
use lumi_eggcracker.Broker.Library.{Library}
use lumi_eggcracker.Broker.Claims.{
  Claims, text_at, max_runs, max_actions_per_run, max_replay_keys, max_pending_bytes,
}
use lumi_eggcracker.Broker.State.{
  State, Run, Queue, queued, applied, rejected, new_run, ServiceResult, Row, tally,
}
use lumi_eggcracker.Broker.Replay.{
  replay_event, admitted_state, dispatched_state, rejected_state, revoked_state,
}
use lumi_eggcracker.Broker.Replay.Inversion.{
  revoked_inversion, run_inversion, dataset_inversion, rejected_inversion, dispatched_inversion,
  admitted_inversion, dataset, run_registered, admitted, dispatched, dispatch_rejected, revoked,
  event_cases,
}

-- the request bytes that an item still holds in the queue
abbrev pub pending_of : Queue → ℕ
pending_of q = elim q.status [ queued ↦ length q.request_bytes | _ ↦ 0 ]

abbrev pub of_run : String → Queue → ℕ
of_run k q = tally (str_eq q.run_id k)

abbrev pub applied_of : String → Queue → ℕ
applied_of k q = elim q.status [ applied ↦ of_run k q | _ ↦ 0 ]

abbrev pub admitted_at : Option Run → ℕ
admitted_at none = 0
admitted_at (some r) = r.admitted

abbrev pub applied_at : Option Run → ℕ
applied_at none = 0
applied_at (some r) = r.applied

-- A run stays inside its budget, its generation counts its revocation, and its claims name it.
abbrev pub RunOk : String → Run → Type 0
RunOk k r =
    (r.admitted ≤ max_actions_per_run)
    × (r.generation ≡ tally r.revoked)
    × (r.claims.run_id ≡ k)
    × (r.claims.generation ≡ 0)

-- Every counter of the state agrees with the queue, and every budget is kept.
pub record IsValid (s : State) : Type 0 where
  pub effects : s.effect_count ≡ sum_values (λ r. r.applied) s.runs
  pub admissions : sum_values (λ r. r.admitted) s.runs ≡ length s.operation_ids
  pub queue_count : length s.queues ≡ length s.operation_ids
  pub ids_bound : length s.operation_ids ≤ max_replay_keys
  pub runs_bound : length s.runs ≤ max_runs
  pub pending : s.pending_bytes ≡ sum_values pending_of s.queues
  pub pending_bound : s.pending_bytes ≤ max_pending_bytes
  pub run_ok : (k : String) (r : Run) → lookup k s.runs ≡ some r → RunOk k r
  pub admitted_count : (k : String) → admitted_at (lookup k s.runs) ≡ sum_values (of_run k) s.queues
  pub applied_count :
      (k : String) → applied_at (lookup k s.runs) ≡ sum_values (applied_of k) s.queues

applied_of-le :
    (k : String) (d : Dict Queue) → sum_values (applied_of k) d ≤ sum_values (of_run k) d
applied_of-le k [] = omega arith
applied_of-le k (e ∷ d) = ground (arith, applied_of-le k d)

-- No run applies more than it was admitted.
pub applied-le-admitted :
    (s : State) (k : String) (r : Run)
    → IsValid s
    → lookup k s.runs ≡ some r
    → r.applied ≤ r.admitted
applied-le-admitted s k r v h =
    ground (arith, v.admitted_count k, v.applied_count k, applied_of-le k s.queues)

module _ (s : State) (v : IsValid s) where
  revoked-IsValid :
      (k : String) (run : Run) (reason : String)
      → lookup k s.runs ≡ some run
      → run.revoked ≡ false
      → IsValid (revoked_state s k run reason)
  unfolding revoked_state
  revoked-IsValid k run reason found live =
      let run' : Run = record run {
        generation = run.generation + 1;
        revoked = true;
        reason = some reason;
      } in
      record {
        effects =
            ground
              (arith, v.effects, sum_values-insert_old (λ r. r.applied) k run' run s.runs found);
        admissions =
            ground (
              arith,
              v.admissions,
              sum_values-insert_old (λ r. r.admitted) k run' run s.runs found,
            );
        queue_count = v.queue_count;
        ids_bound = v.ids_bound;
        runs_bound = ground (arith, v.runs_bound, length-insert_old k run' run s.runs found);
        pending = v.pending;
        pending_bound = v.pending_bound;
        run_ok = λ j r h.
            ground (
              arith,
              v.run_ok j r,
              v.run_ok k run found,
              lookup-insert j k run' s.runs,
              eq_iff j k,
            );
        admitted_count =
            λ j. ground (arith, v.admitted_count j, lookup-insert j k run' s.runs, eq_iff j k);
        applied_count =
            λ j. ground (arith, v.applied_count j, lookup-insert j k run' s.runs, eq_iff j k);
      }

  run-IsValid :
      (claims : Claims)
      → lookup claims.run_id s.runs ≡ none
      → length s.runs < max_runs
      → claims.generation ≡ 0
      → IsValid (record s { runs = insert claims.run_id (new_run claims) s.runs })
  unfolding new_run
  run-IsValid claims fresh room first =
      let k = claims.run_id in
      let run = new_run claims in
      record {
        effects =
            ground (arith, v.effects, sum_values-insert_new (λ r. r.applied) k run s.runs fresh);
        admissions =
            ground
              (arith, v.admissions, sum_values-insert_new (λ r. r.admitted) k run s.runs fresh);
        queue_count = v.queue_count;
        ids_bound = v.ids_bound;
        runs_bound = ground (arith, length-insert_new k run s.runs fresh);
        pending = v.pending;
        pending_bound = v.pending_bound;
        run_ok = λ j r h. ground (arith, v.run_ok j r, lookup-insert j k run s.runs, eq_iff j k);
        admitted_count =
            λ j. ground (arith, v.admitted_count j, lookup-insert j k run s.runs, eq_iff j k);
        applied_count =
            λ j. ground (arith, v.applied_count j, lookup-insert j k run s.runs, eq_iff j k);
      }

  dataset-IsValid : (rows : List Row) → IsValid (record s { service_dataset = some rows })
  dataset-IsValid rows = record {
    effects = v.effects;
    admissions = v.admissions;
    queue_count = v.queue_count;
    ids_bound = v.ids_bound;
    runs_bound = v.runs_bound;
    pending = v.pending;
    pending_bound = v.pending_bound;
    run_ok = v.run_ok;
    admitted_count = v.admitted_count;
    applied_count = v.applied_count;
  }

  module _ (lib : Library) where
    rejected-IsValid :
        (q : String) (item : Queue)
        → lookup q s.queues ≡ some item
        → item.status ≡ queued
        → IsValid (rejected_state lib s q item)
    unfolding rejected_state
    rejected-IsValid q item found waiting =
        let item' : Queue = record item { status = rejected } in
        record {
          effects = v.effects;
          admissions = v.admissions;
          queue_count =
              ground (arith, v.queue_count, length-insert_old q item' item s.queues found);
          ids_bound = v.ids_bound;
          runs_bound = v.runs_bound;
          pending =
              ground
                (arith, v.pending, sum_values-insert_old pending_of q item' item s.queues found);
          pending_bound = ground (arith, v.pending_bound);
          run_ok = v.run_ok;
          admitted_count = λ j. ground (
            arith,
            v.admitted_count j,
            sum_values-insert_old (of_run j) q item' item s.queues found,
          );
          applied_count = λ j. ground (
            arith,
            v.applied_count j,
            sum_values-insert_old (applied_of j) q item' item s.queues found,
          );
        }

    dispatched-IsValid :
        (q : String) (item : Queue) (run : Run) (results : Dict ServiceResult)
        → lookup q s.queues ≡ some item
        → item.status ≡ queued
        → lookup item.run_id s.runs ≡ some run
        → IsValid (dispatched_state lib s q item run results)
    unfolding dispatched_state
    dispatched-IsValid q item run results found waiting of_item =
        let item' : Queue = record item { status = applied } in
        let run' : Run = record run { applied = run.applied + 1 } in
        let k = item.run_id in
        record {
          effects =
              ground (
                arith,
                v.effects,
                sum_values-insert_old (λ r. r.applied) k run' run s.runs of_item,
              );
          admissions = ground (
            arith,
            v.admissions,
            sum_values-insert_old (λ r. r.admitted) k run' run s.runs of_item,
          );
          queue_count =
              ground (arith, v.queue_count, length-insert_old q item' item s.queues found);
          ids_bound = v.ids_bound;
          runs_bound = ground (arith, v.runs_bound, length-insert_old k run' run s.runs of_item);
          pending =
              ground
                (arith, v.pending, sum_values-insert_old pending_of q item' item s.queues found);
          pending_bound = ground (arith, v.pending_bound);
          run_ok = λ j r h. ground (
            arith,
            v.run_ok j r,
            v.run_ok k run of_item,
            lookup-insert j k run' s.runs,
            eq_iff j k,
          );
          admitted_count = λ j. ground (
            arith,
            v.admitted_count j,
            lookup-insert j k run' s.runs,
            eq_iff j k,
            sum_values-insert_old (of_run j) q item' item s.queues found,
          );
          applied_count = λ j. ground (
            arith,
            v.applied_count j,
            lookup-insert j k run' s.runs,
            eq_iff j k,
            eq_iff k j,
            sum_values-insert_old (applied_of j) q item' item s.queues found,
          );
        }

    admitted-IsValid :
        (k q operation_id sha : String) (raw : List ℕ) (run : Run)
        → lookup k s.runs ≡ some run
        → lookup q s.queues ≡ none
        → run.admitted < max_actions_per_run
        → length s.operation_ids < max_replay_keys
        → s.pending_bytes + length raw ≤ max_pending_bytes
        → IsValid (admitted_state lib s k q operation_id raw sha run)
    unfolding admitted_state
    admitted-IsValid k q operation_id sha raw run found fresh budget room pending_room =
        let item : Queue = record {
          queue_id = q;
          run_id = run.claims.run_id;
          operation_id = operation_id;
          request_bytes = raw;
          request_sha256 = sha;
          status = queued;
        } in
        let run' : Run = record run { admitted = run.admitted + 1 } in
        record {
          effects =
              ground
                (arith, v.effects, sum_values-insert_old (λ r. r.applied) k run' run s.runs found);
          admissions = ground (
            arith,
            v.admissions,
            sum_values-insert_old (λ r. r.admitted) k run' run s.runs found,
          );
          queue_count = ground (arith, v.queue_count, length-insert_new q item s.queues fresh);
          ids_bound = ground arith;
          runs_bound = ground (arith, v.runs_bound, length-insert_old k run' run s.runs found);
          pending =
              ground (arith, v.pending, sum_values-insert_new pending_of q item s.queues fresh);
          pending_bound = ground arith;
          run_ok = λ j r h. ground (
            arith,
            v.run_ok j r,
            v.run_ok k run found,
            lookup-insert j k run' s.runs,
            eq_iff j k,
          );
          admitted_count = λ j. ground (
            arith,
            v.admitted_count j,
            v.run_ok k run found,
            lookup-insert j k run' s.runs,
            eq_iff j k,
            eq_iff k j,
            sum_values-insert_new (of_run j) q item s.queues fresh,
          );
          applied_count = λ j. ground (
            arith,
            v.applied_count j,
            lookup-insert j k run' s.runs,
            eq_iff j k,
            sum_values-insert_new (applied_of j) q item s.queues fresh,
          );
        }

-- Every accepted record keeps the counters in agreement with the queue and inside the budgets.
pub replay_event-IsValid :
    (lib : Library) (s s' : State) (kind : String) (payload : Fields)
    → IsValid s
    → replay_event lib s kind payload ≡ ok s'
    → IsValid s'
replay_event-IsValid lib s s' kind payload v h = elim (event_cases lib s s' kind payload h) [
  | dataset e ↦
      (let (rows, _, same) = dataset_inversion s s' payload e in rw same (dataset-IsValid s v rows))
  | run_registered e ↦
      (let (claims, fresh, room, first, same) = run_inversion s s' payload e in
        rw same (run-IsValid s v claims fresh room first))
  | admitted e ↦
      (let (raw, r, found, fresh, _, budget, room, pending_room, same) =
          admitted_inversion lib s s' payload e in
        rw same (
          admitted-IsValid s v lib (text_at "run_id" payload) (text_at "queue_id" payload)
            (text_at "operation_id" payload) (text_at "request_sha256" payload) raw r found fresh
            budget room pending_room))
  | dispatched e ↦
      (let (item, r, results, found, waiting, of_item, _, _, same) =
          dispatched_inversion lib s s' payload e in
        rw same (
          dispatched-IsValid s v lib (text_at "queue_id" payload) item r results found waiting
            of_item))
  | dispatch_rejected e ↦
      (let (item, found, waiting, same) = rejected_inversion lib s s' payload e in
        rw same (rejected-IsValid s v lib (text_at "queue_id" payload) item found waiting))
  | revoked e ↦
      (let (r, found, live, same) = revoked_inversion s s' payload e in
        rw same
          (revoked-IsValid s v (text_at "run_id" payload) r (text_at "reason" payload) found live))
]
