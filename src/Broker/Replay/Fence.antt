-- ===== src/Broker/Replay/Fence.antt =====
-- The generation fence: what later records can do to a run that was revoked, and to an item whose
-- outcome is final.
use lumi_eggcracker.Base.{ℕ, ◌+◌, String, ◌≡◌, true, some, ok, arith, eq_iff}
use lumi_eggcracker.Base.Dict.{lookup, lookup-insert}
use lumi_eggcracker.Json.{Fields}
use lumi_eggcracker.Broker.Library.{Library}
use lumi_eggcracker.Broker.Claims.{text_at}
use lumi_eggcracker.Broker.State.{State, Run, Queue, Status, queued, applied, rejected, new_run}
use lumi_eggcracker.Broker.Replay.{
  replay_event, admitted_state, dispatched_state, rejected_state, revoked_state,
}
use lumi_eggcracker.Broker.Replay.Inversion.{
  revoked_inversion, run_inversion, dataset_inversion, rejected_inversion, dispatched_inversion,
  admitted_inversion, EventCase, dataset, run_registered, admitted, dispatched, dispatch_rejected,
  revoked, event_cases,
}

-- The run at `k` is revoked, with these counters and this generation.
pub record IsFenced (k : String) (a p g : ℕ) (s : State) : Type 0 where
  pub holder : Run
  pub found : lookup k s.runs ≡ some holder
  pub is_revoked : holder.revoked ≡ true
  pub admitted_as : holder.admitted ≡ a
  pub applied_as : holder.applied ≡ p
  pub generation_as : holder.generation ≡ g

-- A revoked run stays revoked through every record of the journal, with its counts of admitted and of
-- applied items and its generation as they are: nothing is admitted or applied for it again.
pub replay_event-IsFenced :
    (lib : Library) (k : String) (a p g : ℕ) (s s' : State) (kind : String) (payload : Fields)
    → IsFenced k a p g s
    → replay_event lib s kind payload ≡ ok s'
    → IsFenced k a p g s'
unfolding admitted_state dispatched_state rejected_state revoked_state
replay_event-IsFenced lib k a p g s s' kind payload f h = record {
  holder = f.holder;
  found = still (event_cases lib s s' kind payload h);
  is_revoked = f.is_revoked;
  admitted_as = f.admitted_as;
  applied_as = f.applied_as;
  generation_as = f.generation_as;
}
  where
    still : EventCase lib s s' payload → lookup k s'.runs ≡ some f.holder
    still (dataset e) = let (rows, _, same) = dataset_inversion s s' payload e in rw same f.found
    still (run_registered e) =
        let (claims, fresh, _, _, same) = run_inversion s s' payload e in
        rw same (
          ground (
            arith,
            f.found,
            fresh,
            lookup-insert k claims.run_id (new_run claims) s.runs,
            eq_iff k claims.run_id,
          ))
    still (admitted e) =
        let (raw, r, found, _, live, _, _, _, same) = admitted_inversion lib s s' payload e in
        let j = text_at "run_id" payload in
        rw same (
          ground (
            arith,
            f.found,
            f.is_revoked,
            found,
            live,
            eq_iff k j,
            lookup-insert k j (record r { admitted = r.admitted + 1 }) s.runs,
          ))
    still (dispatched e) =
        let (item, r, _, _, _, found, live, _, same) = dispatched_inversion lib s s' payload e in
        rw same (
          ground (
            arith,
            f.found,
            f.is_revoked,
            found,
            live,
            eq_iff k item.run_id,
            lookup-insert k item.run_id (record r { applied = r.applied + 1 }) s.runs,
          ))
    still (dispatch_rejected e) =
        let (item, _, _, same) = rejected_inversion lib s s' payload e in rw same f.found
    still (revoked e) =
        let (r, found, live, same) = revoked_inversion s s' payload e in
        let j = text_at "run_id" payload in
        rw same (
          ground (
            arith,
            f.found,
            f.is_revoked,
            found,
            live,
            eq_iff k j,
            lookup-insert k j
                (record r {
                  generation = r.generation + 1;
                  revoked = true;
                  reason = some (text_at "reason" payload);
                })
                s.runs,
          ))

-- An outcome that is no longer open.
abbrev pub IsFinal : Status → Type 0
IsFinal queued = ⊥
IsFinal _ = Unit

-- A final item is never dispatched again: it keeps its outcome, its run and its bytes.
pub replay_event-final :
    (lib : Library) (q : String) (item : Queue) (s s' : State) (kind : String) (payload : Fields)
    → IsFinal item.status
    → lookup q s.queues ≡ some item
    → replay_event lib s kind payload ≡ ok s'
    → lookup q s'.queues ≡ some item
unfolding admitted_state dispatched_state rejected_state revoked_state
replay_event-final lib q item s s' kind payload final found h =
    still (event_cases lib s s' kind payload h)
  where
    still : EventCase lib s s' payload → lookup q s'.queues ≡ some item
    still (dataset e) = let (rows, _, same) = dataset_inversion s s' payload e in rw same found
    still (run_registered e) =
        let (claims, _, _, _, same) = run_inversion s s' payload e in rw same found
    still (admitted e) =
        let (raw, r, _, fresh, _, _, _, _, same) = admitted_inversion lib s s' payload e in
        let j = text_at "queue_id" payload in
        rw same (
          ground (
            arith,
            eq_iff q j,
            lookup-insert q j
                (record {
                  queue_id = j;
                  run_id = r.claims.run_id;
                  operation_id = text_at "operation_id" payload;
                  request_bytes = raw;
                  request_sha256 = text_at "request_sha256" payload;
                  status = queued;
                })
                s.queues,
          ))
    still (dispatched e) =
        let (other, r, _, there, waiting, _, _, _, same) =
          dispatched_inversion lib s s' payload e in
        let j = text_at "queue_id" payload in
        rw same (
          ground
            (arith, eq_iff q j, lookup-insert q j (record other { status = applied }) s.queues))
    still (dispatch_rejected e) =
        let (other, there, waiting, same) = rejected_inversion lib s s' payload e in
        let j = text_at "queue_id" payload in
        rw same (
          ground
            (arith, eq_iff q j, lookup-insert q j (record other { status = rejected }) s.queues))
    still (revoked e) = let (r, _, _, same) = revoked_inversion s s' payload e in rw same found
