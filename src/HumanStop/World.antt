-- ===== src/HumanStop/World.antt =====
-- What the controller knows and what its world does: the effects of an execution, the observer, the
-- status, and the row that an operation makes (experiments/human_override/model.py).
use lumi_eggcracker.Base.{
  ℕ, ◌+◌, ◌-◌, String, Bool, true, false, not, ◌&&◌, ◌||◌, Option, none, some, List, [], ◌∷◌, ◌++◌,
  leb, ltb, join, ◌==◌, if◌then◌else◌, length, elem, drop, min,
}
use lumi_eggcracker.HumanStop.Limits.{max_integer}
use lumi_eggcracker.HumanStop.State.{
  Op, approve, start, stop, reset, Key, op_text, at, put, Allocation, Execution, Observed, unknown,
  verified_stopped, Observation, Controller,
}
use lumi_eggcracker.HumanStop.Storage.{audit_limit}

abbrev pub observation_ttl : ℕ
observation_ttl = 5

-- `World.advance`: `none` where it raises
unfoldable pub advance : ℕ → Controller → Option Controller
advance ticks c =
    if leb ticks (max_integer - c.tick) then some (record c { tick = c.tick + ticks }) else none

abbrev pub set_execution : Key → Execution → Controller → Controller
set_execution k e c = record c { executions = put k e c.executions }

abbrev pub effect_kinds : List String
effect_kinds = "read" ∷ "export" ∷ "child" ∷ "restart" ∷ "lateral" ∷ "tamper" ∷ []

abbrev pub is_export : String → Bool
is_export kind = elem kind ("export" ∷ [])

-- `World.effect`: whether the effect reached the world
unfoldable pub effect : Key → String → Controller → Option (Bool × Controller)
effect k kind c =
    let e = at k c.executions in
    if elem kind effect_kinds
    then some (
        if e.running && (not (is_export kind) || e.connected)
        then (
          true,
          set_execution k
              (record e { effects = e.effects ++ record { kind = kind; tick = c.tick } ∷ [] }) c,
        )
        else (false, c))
    else none

-- `self.observations.pop(key, None)` and the storing of an observation
abbrev pub set_observation : Key → Option Observation → Controller → Controller
set_observation k o c = record c { observations = put k o c.observations }

-- the test that an observation is still of this moment
abbrev pub fresh : Controller → Allocation → Execution → Observation → Bool
fresh c row e o =
    o.generation == row.generation
    && row.generation == e.generation
    && o.epoch == row.epoch
    && leb o.tick c.tick
    && leb (c.tick - o.tick) observation_ttl
    && o.revision == e.revision

-- `status(key)["observed"]`
unfoldable pub observed : Key → Controller → Observed
observed k c =
    let row = at k c.allocations in
    elim (at k c.observations) [
      | none ↦ unknown
      | some o ↦
          (if c.storage_ok && row.control && fresh c row (at k c.executions) o
            then o.state
            else unknown)
    ]

-- `status(key)`
pub record Status : Type 0 where
  pub generation : ℕ
  pub epoch : ℕ
  pub admission_allowed : Bool
  pub stop_requested : Bool
  pub observed : Observed
  pub storage_ok : Bool

unfoldable pub status : Key → Controller → Status
status k c =
    let row = at k c.allocations in
    record {
      generation = row.generation;
      epoch = row.epoch;
      admission_allowed = c.storage_ok && row.control && row.approved && not row.latched;
      stop_requested = c.storage_ok && row.latched;
      observed = observed k c;
      storage_ok = c.storage_ok;
    }

abbrev pub is_stopped : Observed → Bool
is_stopped verified_stopped = true
is_stopped _ = false

-- the row that an operation leaves, and whether its result is OK or DENIED; `none` is the early return of EXHAUSTED
unfoldable pub op_row : Op → Key → Allocation → Controller → Option (Allocation × Bool)
op_row stop k row c =
    if row.latched
    then some (record row { latched = true; approved = false }, true)
    else if row.epoch == max_integer
    then none
    else some (record row { epoch = row.epoch + 1; latched = true; approved = false }, true)
op_row reset k row c =
    if not row.latched || not (is_stopped (observed k c))
    then some (row, false)
    else if row.epoch == max_integer
    then none
    else some (record row { epoch = row.epoch + 1; latched = false; approved = false }, true)
op_row approve k row c =
    if row.latched || not row.control
    then some (row, false)
    else some (record row { approved = true }, true)
op_row start k row c =
    let e = at k c.executions in
    if row.latched
      || not row.control
      || not row.approved
      || not (e.generation == row.generation)
      || e.running
      || e.remote_running
    then some (row, false)
    else some (row, true)

abbrev pub result_text : Bool → String
result_text true = "OK"
result_text false = "DENIED"

-- the entry in the bounded audit list
unfoldable pub audited : Op → Bool → Allocation → Allocation
audited op result row =
    let entries = row.audit ++ join (op_text op) (join ":" (result_text result)) ∷ [] in
    if ltb audit_limit (length entries)
    then record row { audit = drop 1 entries; dropped = min max_integer (row.dropped + 1) }
    else record row { audit = entries }
