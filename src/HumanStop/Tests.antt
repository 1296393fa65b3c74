-- ===== src/HumanStop/Tests.antt =====
-- The human-stop controller at concrete states.
use lumi_eggcracker.Base.{
  ℕ, String, ◌≡◌, refl, true, false, Option, none, some, List, [], ◌⊎◌, arith, ◌∷◌,
}
use lumi_eggcracker.Json.{Value, null, int, pos, str, obj, end, field}
use lumi_eggcracker.HumanStop.Limits.{bounded_json, check}
use lumi_eggcracker.HumanStop.State.{
  Pair, Allocation, key_a, at, new_allocation, new_execution, verified_stopped, Controller,
}
use lumi_eggcracker.HumanStop.World.{observed, op_row, audited}
use lumi_eggcracker.HumanStop.Controller.{
  accepted, observe, command, finish, finish_row, after_commit, settled, event_of, command_event,
}
use lumi_eggcracker.HumanStop.Storage.{
  commit, persist, document, row_value, load, state_bytes, state_link,
}
use lumi_eggcracker.HumanStop.Reload.{IsBounded, load-persist}
use lumi_eggcracker.HumanStop.Steps.{commanded, sampled}
use lumi_eggcracker.HumanStop.Observer.{here, onward, stopped-means_stopped}
use lumi_eggcracker.HumanStop.Latch.{Held, Released, Step-latch}
use lumi_eggcracker.HumanStop.Launch.{MayLaunch, command-MayLaunch}

-- a parser that reads every document as null, and a printer that prints nothing
abbrev loads : List ℕ → Option Value
loads raw = some null

abbrev dumps : Value → List ℕ
dumps v = []

-- a new controller
abbrev created : Controller
created = record {
  executions = record { a = new_execution 1; b = new_execution 1 };
  tick = 0;
  allocations = record { a = new_allocation 1; b = new_allocation 1 };
  observations = record { a = none; b = none };
  storage_ok = true;
  stored = record { a = new_allocation 1; b = new_allocation 1 };
}

abbrev event : String → ℕ → ℕ → Value
event op sequence epoch = obj (
    field "op" (str op) (
      field "allocation" (str "A") (
        field "generation" (int (pos 1))
          (field "sequence" (int (pos sequence)) (field "epoch" (int (pos epoch)) end)))))

abbrev observed_stop : Controller
observed_stop = (observe key_a false created).1

stopped-means_stopped_example :
    ((at key_a observed_stop.executions).running ≡ false)
    × ((at key_a observed_stop.executions).remote_running ≡ false)
unfolding observe observed
stopped-means_stopped_example =
    stopped-means_stopped loads dumps created observed_stop key_a refl refl
      (onward here (sampled key_a false verified_stopped refl)) refl

-- the allocation latched, and then observed to have stopped
abbrev latched : Controller
latched = (observe key_a false (command loads dumps true "human" (event "stop" 1 0) created).1).1

abbrev released : Controller
released = (command loads dumps true "human" (event "reset" 2 1) latched).1

Step-latch_example : Held key_a latched released ⊎ Released key_a latched released
unfolding command observe observed op_row finish finish_row after_commit settled event_of audited
    command_event commit persist bounded_json
Step-latch_example =
    Step-latch loads dumps latched released key_a
      (commanded true "human" (event "reset" 2 1) accepted refl) refl

-- the allocation approved, and then started
abbrev approved : Controller
approved = (command loads dumps true "human" (event "approve" 1 0) created).1

abbrev started : Controller
started = (command loads dumps true "scheduler" (event "start" 1 0) approved).1

command-MayLaunch_example : MayLaunch key_a approved
unfolding command op_row finish finish_row after_commit settled event_of audited command_event
    commit persist bounded_json
command-MayLaunch_example =
    command-MayLaunch loads dumps true "scheduler" (event "start" 1 0) approved started accepted
      key_a refl (omega arith)

-- two allocations, one of them latched, and a parser that knows their document
abbrev kept : Pair Allocation
kept = record {
  a = record (new_allocation 1) { latched = true; epoch = 1; audit = "stop:OK" ∷ [] };
  b = new_allocation 2;
}

abbrev reads : List ℕ → Option Value
unfolding document row_value
reads raw = some (document kept)

kept_a-IsBounded : IsBounded kept.a
kept_a-IsBounded = record {
  generation = omega arith;
  positive = omega arith;
  epoch = omega arith;
  dropped = omega arith;
  latch = refl;
  of_guest = omega arith;
  of_human = omega arith;
  of_scheduler = omega arith;
  audit = omega arith;
  entries = (omega arith, _);
}

kept_b-IsBounded : IsBounded kept.b
kept_b-IsBounded = record {
  generation = omega arith;
  positive = omega arith;
  epoch = omega arith;
  dropped = omega arith;
  latch = refl;
  of_guest = omega arith;
  of_human = omega arith;
  of_scheduler = omega arith;
  audit = omega arith;
  entries = _;
}

load-persist_example : load reads dumps (state_bytes (dumps (document kept))) false ≡ some kept
unfolding persist bounded_json check document row_value
load-persist_example = load-persist reads dumps kept kept_a-IsBounded kept_b-IsBounded refl refl

-- A `.pending` file or a link refuses the same bytes.
pending_refused : load reads dumps (state_bytes (dumps (document kept))) true ≡ none
unfolding load
pending_refused = refl

link_refused : load reads dumps state_link false ≡ none
unfolding load
link_refused = refl
