-- ===== src/Broker/Replay/Budget.antt =====
-- The journal's event budget: every record is paid for by a run, an admission, an outcome, a
-- revocation or the one dataset, so that a journal that replays never has more than 642 records.
use lumi_eggcracker.Base.{
  ℕ, ◌+◌, ◌≤◌, String, ◌≡◌, true, Option, none, some, List, [], ◌∷◌, length, ok, arith,
}
use lumi_eggcracker.Base.Dict.{
  Dict, length-insert_new, length-insert_old, sum_values, sum_values-insert_new,
  sum_values-insert_old,
}
use lumi_eggcracker.Json.{Fields}
use lumi_eggcracker.Broker.Library.{Library}
use lumi_eggcracker.Broker.Claims.{text_at, max_journal_events}
use lumi_eggcracker.Broker.State.{State, Run, Queue, queued, applied, rejected, new_run, tally, Row}
use lumi_eggcracker.Broker.Replay.{
  replay_event, admitted_state, dispatched_state, rejected_state, revoked_state,
}
use lumi_eggcracker.Broker.Replay.Inversion.{
  revoked_inversion, run_inversion, dataset_inversion, rejected_inversion, dispatched_inversion,
  admitted_inversion, EventCase, dataset, run_registered, admitted, dispatched, dispatch_rejected,
  revoked, event_cases,
}
use lumi_eggcracker.Broker.Replay.Invariant.{IsValid}

abbrev finished : Queue → ℕ
finished q = elim q.status [ queued ↦ 0 | _ ↦ 1 ]

abbrev revocations : Run → ℕ
revocations r = tally r.revoked

abbrev datasets : Option (List Row) → ℕ
datasets none = 0
datasets (some _) = 1

-- The records that led to the state, by what they left in it.
abbrev pub paid : State → ℕ
paid s =
    1
    + datasets s.service_dataset
    + length s.runs
    + length s.operation_ids
    + sum_values finished s.queues
    + sum_values revocations s.runs

pub replay_event-paid :
    (lib : Library) (s s' : State) (kind : String) (payload : Fields)
    → replay_event lib s kind payload ≡ ok s'
    → paid s' ≡ paid s + 1
unfolding admitted_state dispatched_state rejected_state revoked_state new_run
replay_event-paid lib s s' kind payload h = counted (event_cases lib s s' kind payload h)
  where
    counted : EventCase lib s s' payload → paid s' ≡ paid s + 1
    counted (dataset e) =
        let (rows, empty, same) = dataset_inversion s s' payload e in
        rw same (ground (arith, empty))
    counted (run_registered e) =
        let (claims, fresh, _, _, same) = run_inversion s s' payload e in
        rw same (
          ground (
            arith,
            length-insert_new claims.run_id (new_run claims) s.runs fresh,
            sum_values-insert_new revocations claims.run_id (new_run claims) s.runs fresh,
          ))
    counted (admitted e) =
        let (raw, r, found, fresh, _, _, _, _, same) = admitted_inversion lib s s' payload e in
        let j = text_at "run_id" payload in
        let r' : Run = record r { admitted = r.admitted + 1 } in
        let q = text_at "queue_id" payload in
        rw same (
          ground (
            arith,
            length-insert_old j r' r s.runs found,
            sum_values-insert_old revocations j r' r s.runs found,
            sum_values-insert_new finished q
                (record {
                  queue_id = q;
                  run_id = r.claims.run_id;
                  operation_id = text_at "operation_id" payload;
                  request_bytes = raw;
                  request_sha256 = text_at "request_sha256" payload;
                  status = queued;
                })
                s.queues fresh,
          ))
    counted (dispatched e) =
        let (item, r, _, there, waiting, found, _, _, same) =
          dispatched_inversion lib s s' payload e in
        let r' : Run = record r { applied = r.applied + 1 } in
        rw same (
          ground (
            arith,
            waiting,
            length-insert_old item.run_id r' r s.runs found,
            sum_values-insert_old revocations item.run_id r' r s.runs found,
            sum_values-insert_old finished (text_at "queue_id" payload)
                (record item { status = applied }) item s.queues there,
          ))
    counted (dispatch_rejected e) =
        let (item, there, waiting, same) = rejected_inversion lib s s' payload e in
        rw same (
          ground (
            arith,
            waiting,
            sum_values-insert_old finished (text_at "queue_id" payload)
                (record item { status = rejected }) item s.queues there,
          ))
    counted (revoked e) =
        let (r, found, live, same) = revoked_inversion s s' payload e in
        let j = text_at "run_id" payload in
        let r' : Run = record r {
          generation = r.generation + 1;
          revoked = true;
          reason = some (text_at "reason" payload);
        } in
        rw same (
          ground (
            arith,
            live,
            length-insert_old j r' r s.runs found,
            sum_values-insert_old revocations j r' r s.runs found,
          ))

finished-le : (d : Dict Queue) → sum_values finished d ≤ length d
finished-le [] = omega arith
finished-le (e ∷ d) = ground (arith, finished-le d)

revocations-le : (d : Dict Run) → sum_values revocations d ≤ length d
revocations-le [] = omega arith
revocations-le (e ∷ d) = ground (arith, revocations-le d)

pub paid-le : (s : State) → IsValid s → paid s ≤ max_journal_events
paid-le s v =
    ground
      (arith, v.ids_bound, v.runs_bound, v.queue_count, finished-le s.queues, revocations-le s.runs)
