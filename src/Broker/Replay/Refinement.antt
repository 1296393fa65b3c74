-- ===== src/Broker/Replay/Refinement.antt =====
-- The replay of the journal (src/lumi_eggcracker/brokered/operator.py, lines 517-691) refines the
-- abstract machine.
use mathlib.Core.Path.{subst, fun_ext}
use lumi_eggcracker.Base.{
  ℕ, List, ◌<◌, true, false, ◌+◌, String, ◌≡◌, refl, sym, ap, Bool-cases, inl, inr, Option, none,
  some, ok, str_eq,
}
use lumi_eggcracker.Base.Dict.{Dict, lookup, insert, lookup-insert}
use lumi_eggcracker.Json.{Fields}
use lumi_eggcracker.Broker.Library.{Library}
use lumi_eggcracker.Broker.Claims.{Claims, text_at, max_actions_per_run}
use lumi_eggcracker.Broker.State.{
  State, Run, Queue, ServiceResult, queued, applied, rejected, new_run,
}
use lumi_eggcracker.Broker.Replay.{
  replay_event, admitted_state, dispatched_state, rejected_state, revoked_state,
}
use lumi_eggcracker.Broker.Replay.Inversion.{
  revoked_inversion, run_inversion, dataset_inversion, rejected_inversion, dispatched_inversion,
  admitted_inversion, dataset, run_registered, admitted, dispatched, dispatch_rejected, revoked,
  event_cases,
}
use lumi_eggcracker.Broker.Replay.Invariant.{IsValid}
use lumi_eggcracker.Broker.Spec.{
  RunView, ItemView, View, put, Step, prepare, register, admit, apply, reject, revoke, with_run,
  with_item,
}

abbrev pub run_view : Run → RunView
run_view r = record {
  generation = r.generation;
  revoked = r.revoked;
  admitted = r.admitted;
  applied = r.applied;
}

abbrev pub item_view : Queue → ItemView
item_view q = record { owner = q.run_id; status = q.status }

abbrev pub seen {ℓ κ} : {A : Type ℓ} {B : Type κ} → (A → B) → Option A → Option B
seen f none = none
seen f (some a) = some (f a)

-- what the machine sees of a state
abbrev pub view : State → View
view s = record {
  run_at = λ k. seen run_view (lookup k s.runs);
  item_at = λ q. seen item_view (lookup q s.queues);
  effects = s.effect_count;
}

seen-insert {ℓ κ} :
    {A : Type ℓ} {B : Type κ} (f : A → B) (k : String) (a : A) (d : Dict A)
    → (λ j. seen f (lookup j (insert k a d))) ≡ put k (f a) (λ j. seen f (lookup j d))
seen-insert f k a d = fun_ext (λ j. at j)
  where
    at : (j : String) → seen f (lookup j (insert k a d)) ≡ put k (f a) (λ i. seen f (lookup i d)) j
    at j = elim (Bool-cases (str_eq j k)) [
      | inl e ↦ rw (lookup-insert j k a d) (rw e refl)
      | inr e ↦ rw (lookup-insert j k a d) (rw e refl)
    ]

module _ (s : State) where
  admitted-Step :
      (lib : Library) (k q operation_id : String) (raw : List ℕ) (sha : String) (r : Run)
      → lookup k s.runs ≡ some r
      → r.claims.run_id ≡ k
      → r.revoked ≡ false
      → r.admitted < max_actions_per_run
      → lookup q s.queues ≡ none
      → Step (view s) (view (admitted_state lib s k q operation_id raw sha r))
  unfolding admitted_state
  admitted-Step lib k q operation_id raw sha r found named live room new =
      let r' : Run = record r { admitted = r.admitted + 1 } in
      let item : Queue = record {
        queue_id = q;
        run_id = r.claims.run_id;
        operation_id = operation_id;
        request_bytes = raw;
        request_sha256 = sha;
        status = queued;
      } in
      let runs = seen-insert run_view k r' s.runs in
      let items = seen-insert item_view q item s.queues in
      subst (Step (view s))
        (λ i. record { run_at = sym runs i; item_at = sym items i; effects = s.effect_count })
        (subst (λ o. Step (view s) (with_item (with_run (view s) k (run_view r')) q o queued))
          (sym named)
          (admit k q (run_view r) (ap (seen run_view) found) live room (ap (seen item_view) new)))

  -- what the machine sees of an item that waits
  waiting :
      (q : String) (item : Queue)
      → lookup q s.queues ≡ some item
      → item.status ≡ queued
      → seen item_view (lookup q s.queues) ≡ some (record { owner = item.run_id; status = queued })
  waiting q item found waits = rw found (rw waits refl)

  dispatched-Step :
      (lib : Library) (q : String) (item : Queue) (r : Run) (results : Dict ServiceResult)
      → lookup q s.queues ≡ some item
      → item.status ≡ queued
      → lookup item.run_id s.runs ≡ some r
      → r.revoked ≡ false
      → r.generation ≡ 0
      → Step (view s) (view (dispatched_state lib s q item r results))
  unfolding dispatched_state
  dispatched-Step lib q item r results found waits of_run live first =
      let r' : Run = record r { applied = r.applied + 1 } in
      let item' : Queue = record item { status = applied } in
      let runs = seen-insert run_view item.run_id r' s.runs in
      let items = seen-insert item_view q item' s.queues in
      subst (Step (view s))
        (λ i. record { run_at = sym runs i; item_at = sym items i; effects = s.effect_count + 1 })
        (apply item.run_id q (run_view r) (ap (seen run_view) of_run) live first
          (waiting q item found waits))

  rejected-Step :
      (lib : Library) (q : String) (item : Queue)
      → lookup q s.queues ≡ some item
      → item.status ≡ queued
      → Step (view s) (view (rejected_state lib s q item))
  unfolding rejected_state
  rejected-Step lib q item found waits =
      let items = seen-insert item_view q (record item { status = rejected }) s.queues in
      subst (Step (view s)) (λ i. record (view s) { item_at = sym items i })
        (reject item.run_id q (waiting q item found waits))

  revoked-Step :
      (k : String) (r : Run) (reason : String)
      → lookup k s.runs ≡ some r
      → r.revoked ≡ false
      → Step (view s) (view (revoked_state s k r reason))
  unfolding revoked_state
  revoked-Step k r reason found live =
      let r' : Run = record r {
        generation = r.generation + 1;
        revoked = true;
        reason = some reason;
      } in
      let runs = seen-insert run_view k r' s.runs in
      subst (Step (view s)) (λ i. record (view s) { run_at = sym runs i })
        (revoke k (run_view r) (ap (seen run_view) found) live)

  registered-Step :
      (claims : Claims)
      → lookup claims.run_id s.runs ≡ none
      → Step (view s) (view (record s { runs = insert claims.run_id (new_run claims) s.runs }))
  unfolding new_run
  registered-Step claims new =
      let runs = seen-insert run_view claims.run_id (new_run claims) s.runs in
      subst (Step (view s)) (λ i. record (view s) { run_at = sym runs i })
        (register claims.run_id (ap (seen run_view) new))

-- An accepted record of a well-formed state is a step of the machine on what it sees.
pub replay_event-Step :
    (lib : Library) (s s' : State) (kind : String) (payload : Fields)
    → IsValid s
    → replay_event lib s kind payload ≡ ok s'
    → Step (view s) (view s')
replay_event-Step lib s s' kind payload v h = elim (event_cases lib s s' kind payload h) [
  | dataset e ↦ (let (rows, _, same) = dataset_inversion s s' payload e in rw same prepare)
  | run_registered e ↦
      (let (claims, new, _, _, same) = run_inversion s s' payload e in
        rw same (registered-Step s claims new))
  | admitted e ↦
      (let (raw, r, found, new, live, room, _, _, same) = admitted_inversion lib s s' payload e in
        let k = text_at "run_id" payload in
        rw same (
          admitted-Step s lib k (text_at "queue_id" payload) (text_at "operation_id" payload) raw
            (text_at "request_sha256" payload) r found (v.run_ok k r found).2 live room new))
  | dispatched e ↦
      (let (item, r, results, found, waits, of_run, live, first, same) =
          dispatched_inversion lib s s' payload e in
        rw same (
          dispatched-Step s lib (text_at "queue_id" payload) item r results found waits of_run live
            first))
  | dispatch_rejected e ↦
      (let (item, found, waits, same) = rejected_inversion lib s s' payload e in
        rw same (rejected-Step s lib (text_at "queue_id" payload) item found waits))
  | revoked e ↦
      (let (r, found, live, same) = revoked_inversion s s' payload e in
        rw same (revoked-Step s (text_at "run_id" payload) r (text_at "reason" payload) found live))
]
