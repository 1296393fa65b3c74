-- ===== src/HumanStop/Controller.antt =====
-- The operations of `Controller` and `World` (experiments/human_override/model.py, lines 90-331).
-- `written` is the file system's answer to the write that an operation makes.
use lumi_eggcracker.Base.{
  ℕ, ◌+◌, String, Bool, true, false, not, ◌&&◌, ◌||◌, Option, none, some, List, [], ◌∷◌, leb, ◌==◌,
  if◌then◌else◌,
}
use lumi_eggcracker.Json.{Value, get, same_keys, as_str}
use lumi_eggcracker.HumanStop.Limits.{max_integer}
use lumi_eggcracker.HumanStop.State.{
  Principal, human, scheduler, guest, Op, approve, start, stop, reset, Key, principal_of, op_of,
  key_of, at, put, last_of, set_last, Allocation, new_allocation, Execution, new_execution,
  Observed, unknown, running_seen, verified_stopped, Controller,
}
use lumi_eggcracker.HumanStop.Storage.{bounded, nat_of, fields_of, commit}
use lumi_eggcracker.HumanStop.World.{set_execution, set_observation, op_row, audited}

-- the answers of `command`
pub data Answer : Type 0 where
  accepted refused invalid storage_unknown stale_scope replay exhausted : Answer

-- `"OK"` and `"DENIED"`
abbrev pub answer_of : Bool → Answer
answer_of true = accepted
answer_of false = refused

pub record Event : Type 0 where
  pub op : Op
  pub key : Key
  pub generation : ℕ
  pub sequence : ℕ
  pub epoch : ℕ

-- the tests on the event; `none` is INVALID
unfoldable pub event_of : Value → Option Event
event_of v = elim (fields_of (some v)) [
  | none ↦ none
  | some fs ↦
      (if same_keys fs ("op" ∷ "allocation" ∷ "generation" ∷ "sequence" ∷ "epoch" ∷ [])
          && bounded (get "generation" fs)
          && bounded (get "sequence" fs)
          && bounded (get "epoch" fs)
        then (elim (as_str (get "op" fs)) [
          | none ↦ none
          | some op_name ↦ (elim (as_str (get "allocation" fs)) [
            | none ↦ none
            | some key_name ↦ (elim (op_of op_name) [
              | none ↦ none
              | some op ↦ (elim (key_of key_name) [
                | none ↦ none
                | some key ↦ some (record {
                  op = op;
                  key = key;
                  generation = nat_of (get "generation" fs);
                  sequence = nat_of (get "sequence" fs);
                  epoch = nat_of (get "epoch" fs);
                })
              ])
            ])
          ])
        ])
        else none)
]

-- `principal == "guest" or (op != "start" and principal != "human")`
abbrev pub barred : Principal → Op → Bool
barred guest op = true
barred human op = false
barred scheduler start = false
barred scheduler op = true

-- the execution of an allocation that was started
abbrev pub launched : Execution → Execution
launched e = record e {
  running = true;
  connected = true;
  remote_running = true;
  launches = e.launches + 1;
  revision = e.revision + 1;
}

-- the effects of an operation after its commit
unfoldable pub settled : Op → Key → Bool → Controller → Controller
settled approve k result c = c
settled stop k result c = set_observation k none c
settled reset k result c = set_observation k none c
settled start k false c = set_observation k none c
settled start k true c = set_execution k (launched (at k c.executions)) (set_observation k none c)

-- the execution that the adapter has disconnected
abbrev pub cancelled : Bool → Execution → Execution
cancelled cancel_remote e = record e {
  running = false;
  connected = false;
  remote_running = e.remote_running && not cancel_remote;
  revision = e.revision + 1;
}

-- `adapter`
unfoldable pub adapter : Key → Bool → Bool → Controller → Bool × Controller
adapter k cancel_remote fail c =
    let row = at k c.allocations in
    let e = at k c.executions in
    if not c.storage_ok
      || not row.latched
      || not row.control
      || fail
      || not (row.generation == e.generation)
    then (false, c)
    else (true, set_observation k none (set_execution k (cancelled cancel_remote e) c))

-- `observe`
unfoldable pub observe : Key → Bool → Controller → Observed × Controller
observe k fail c =
    let row = at k c.allocations in
    let e = at k c.executions in
    if fail || not c.storage_ok || not row.control || not (row.generation == e.generation)
    then (unknown, set_observation k none c)
    else (let state = (if e.running || e.remote_running then running_seen else verified_stopped) in
        (
          state,
          set_observation k
              (some (record {
                generation = row.generation;
                epoch = row.epoch;
                tick = c.tick;
                revision = e.revision;
                state = state;
              }))
              c,
        ))

-- what follows the commit of a command and of a replacement
unfoldable pub after_commit : Op → Key → Bool → Bool × Controller → Answer × Controller
unfolding settled
after_commit op k result (true, c) = (answer_of result, settled op k result c)
after_commit op k result (false, c) = (storage_unknown, c)

unfoldable pub after_replacement : Key → ℕ → Bool × Controller → Bool × Controller
after_replacement k generation (true, c) =
    (true, set_observation k none (set_execution k (new_execution generation) c))
after_replacement k generation (false, c) = (false, c)

module _ (loads : List ℕ → Option Value) (dumps : Value → List ℕ) where
  -- the commit of the changed row, and what follows it
  unfoldable pub finish : Bool → Op → Key → Bool → Allocation → Controller → Answer × Controller
  unfolding commit audited after_commit
  finish written op k result row c =
      after_commit op k result
        (commit loads dumps written (put k (audited op result row) c.allocations) c)

  unfoldable pub finish_row :
      Bool → Op → Key → Option (Allocation × Bool) → Controller → Answer × Controller
  unfolding finish
  finish_row written op k none c = (exhausted, c)
  finish_row written op k (some (row, result)) c = finish written op k result row c

  -- `command` after the tests on the shape of its arguments
  unfoldable pub command_event : Bool → Principal → Event → Controller → Answer × Controller
  unfolding finish_row op_row
  command_event written principal ev c =
      let current = at ev.key c.allocations in
      if not c.storage_ok
      then (storage_unknown, c)
      else if not (ev.generation == current.generation && ev.epoch == current.epoch)
      then (stale_scope, c)
      else if leb ev.sequence (last_of principal current.sequence)
      then (replay, c)
      else if barred principal ev.op
      then (refused, c)
      else finish_row written ev.op ev.key
          (op_row ev.op ev.key
            (record current { sequence = set_last principal ev.sequence current.sequence }) c)
          c

  -- `command`
  unfoldable pub command : Bool → String → Value → Controller → Answer × Controller
  unfolding command_event event_of
  command written principal_name event c = elim (principal_of principal_name) [
    | none ↦ (invalid, c)
    | some principal ↦ (elim (event_of event) [
      | none ↦ (invalid, c)
      | some ev ↦ command_event written principal ev c
    ])
  ]

  -- `set_control`
  unfoldable pub set_control : Bool → Key → Bool → Controller → Bool × Controller
  unfolding commit
  set_control written k available c =
      if c.storage_ok
      then commit loads dumps written
          (put k (record (at k c.allocations) { control = available; approved = false })
            c.allocations)
          (set_observation k none c)
      else (false, c)

  -- `replace_allocation`
  unfoldable pub replace_allocation : Bool → Key → Controller → Bool × Controller
  unfolding commit after_replacement
  replace_allocation written k c =
      let row = at k c.allocations in
      let e = at k c.executions in
      if not c.storage_ok
        || row.latched
        || not row.control
        || e.running
        || e.remote_running
        || row.generation == max_integer
      then (false, c)
      else after_replacement k (row.generation + 1)
          (commit loads dumps written (put k (new_allocation (row.generation + 1)) c.allocations) c)
