-- ===== src/HumanStop/Observer.antt =====
-- What an observation is worth (experiments/human_override/model.py, lines 274-316).
use lumi_eggcracker.Base.{
  ℕ, ◌+◌, String, ◌≡◌, refl, Bool, true, false, not, ◌&&◌, ◌||◌, Option, none, some, List, [], ◌∷◌,
  ◌++◌, ◌==◌, if◌then◌else◌, arith, Bool-cases, Option-cases, inl, inr, ◌⊎◌,
}
use mathlib.Core.Path.{subst}
use lumi_eggcracker.Json.{Value}
use lumi_eggcracker.HumanStop.Limits.{max_integer}
use lumi_eggcracker.HumanStop.State.{
  Op, approve, start, stop, reset, Key, key_a, key_b, Pair, at, put, Allocation, Execution, Effect,
  Observed, running_seen, verified_stopped, Observation, Controller, new_allocation, new_execution,
}
use lumi_eggcracker.HumanStop.Storage.{commit}
use lumi_eggcracker.HumanStop.World.{
  advance, effect, observed, audited, is_export, set_execution, set_observation,
}
use lumi_eggcracker.HumanStop.Controller.{
  adapter, observe, finish, settled, launched, cancelled, set_control, replace_allocation,
  after_commit, after_replacement, Answer,
}
use lumi_eggcracker.HumanStop.Steps.{
  Step, ticked, acted, commanded, controlled, replaced, adapted, sampled, command-Passed, Committed,
  kept, lost, commit-Committed,
}

-- what the observer answers of an execution
abbrev pub seen : Execution → Observed
seen e = if e.running || e.remote_running then running_seen else verified_stopped

abbrev pub Matches : Execution → Option Observation → Type 0
Matches e none = Unit
Matches e (some o) = o.state ≡ seen e

-- Every observation that is still held tells what its execution does now.
abbrev pub IsTruthful : Controller → Type 0
IsTruthful c = Matches c.executions.a c.observations.a × Matches c.executions.b c.observations.b

Matches-at :
    (k : Key) (c : Controller) → IsTruthful c → Matches (at k c.executions) (at k c.observations)
Matches-at key_a c t = t.0
Matches-at key_b c t = t.1

-- dropping the observation of an allocation, whatever becomes of its execution
drop-IsTruthful : (k : Key) (c : Controller) → IsTruthful c → IsTruthful (set_observation k none c)
drop-IsTruthful key_a c t = (_, t.1)
drop-IsTruthful key_b c t = (t.0, _)

replace-IsTruthful :
    (k : Key) (e : Execution) (c : Controller)
    → IsTruthful c
    → IsTruthful (set_execution k e (set_observation k none c))
replace-IsTruthful key_a e c t = (_, t.1)
replace-IsTruthful key_b e c t = (t.0, _)

renew-IsTruthful :
    (k : Key) (e : Execution) (c : Controller)
    → IsTruthful c
    → IsTruthful (set_observation k none (set_execution k e c))
renew-IsTruthful key_a e c t = (_, t.1)
renew-IsTruthful key_b e c t = (t.0, _)

observe-IsTruthful :
    (k : Key) (fail : Bool) (c : Controller) → IsTruthful c → IsTruthful (observe k fail c).1
unfolding observe
observe-IsTruthful key_a fail c t =
    elim (Bool-cases (
      fail
      || not c.storage_ok
      || not c.allocations.a.control
      || not (c.allocations.a.generation == c.executions.a.generation))) [
        | inl e ↦ rw e (_, t.1)
        | inr e ↦ rw e (refl, t.1)
      ]
observe-IsTruthful key_b fail c t =
    elim (Bool-cases (
      fail
      || not c.storage_ok
      || not c.allocations.b.control
      || not (c.allocations.b.generation == c.executions.b.generation))) [
        | inl e ↦ rw e (t.0, _)
        | inr e ↦ rw e (t.0, refl)
      ]

-- an execution with more effects
with_effect : Execution → Effect → Execution
with_effect e x = record e { effects = e.effects ++ x ∷ [] }

effect-cases :
    (k : Key) (kind : String) (c c' : Controller) (r : Bool)
    → effect k kind c ≡ some (r, c')
    → (c ≡ c')
      ⊎ (set_execution k (with_effect (at k c.executions) (record { kind = kind; tick = c.tick })) c
          ≡ c')
unfolding effect with_effect
effect-cases k kind c c' r h =
    elim (Bool-cases
      ((at k c.executions).running && (not (is_export kind) || (at k c.executions).connected))) [
        | inl e ↦ inr (ground (arith, e, h))
        | inr e ↦ inl (ground (arith, e, h))
      ]

again-Matches :
    (e : Execution) (x : Effect) (o : Option Observation)
    → Matches e o
    → Matches (with_effect e x) o
unfolding with_effect
again-Matches e x none t = _
again-Matches e x (some o) t = t

more-IsTruthful :
    (k : Key) (x : Effect) (c : Controller)
    → IsTruthful c
    → IsTruthful (set_execution k (with_effect (at k c.executions) x) c)
more-IsTruthful key_a x c t = (again-Matches c.executions.a x c.observations.a t.0, t.1)
more-IsTruthful key_b x c t = (t.0, again-Matches c.executions.b x c.observations.b t.1)

effect-IsTruthful :
    (k : Key) (kind : String) (c c' : Controller) (r : Bool)
    → effect k kind c ≡ some (r, c')
    → IsTruthful c
    → IsTruthful c'
effect-IsTruthful k kind c c' r h t = elim (effect-cases k kind c c' r h) [
  | inl same ↦ rw (← same) t
  | inr same ↦ rw (← same) (more-IsTruthful k (record { kind = kind; tick = c.tick }) c t)
]

adapter-IsTruthful :
    (k : Key) (cancel fail : Bool) (c : Controller)
    → IsTruthful c
    → IsTruthful (adapter k cancel fail c).1
unfolding adapter
adapter-IsTruthful k cancel fail c t =
    elim (Bool-cases (
      not c.storage_ok
      || not (at k c.allocations).latched
      || not (at k c.allocations).control
      || fail
      || not ((at k c.allocations).generation == (at k c.executions).generation))) [
        | inl e ↦ rw e t
        | inr e ↦ rw e (renew-IsTruthful k (cancelled cancel (at k c.executions)) c t)
      ]

settled-IsTruthful :
    (op : Op) (k : Key) (result : Bool) (c : Controller)
    → IsTruthful c
    → IsTruthful (settled op k result c)
unfolding settled
settled-IsTruthful approve k result c t = t
settled-IsTruthful stop k result c t = drop-IsTruthful k c t
settled-IsTruthful reset k result c t = drop-IsTruthful k c t
settled-IsTruthful start k false c t = drop-IsTruthful k c t
settled-IsTruthful start k true c t = replace-IsTruthful k (launched (at k c.executions)) c t

after_commit-IsTruthful :
    (op : Op) (k : Key) (result : Bool) (a : Bool × Controller)
    → IsTruthful a.1
    → IsTruthful (after_commit op k result a).1
unfolding after_commit
after_commit-IsTruthful op k result (true, c) t = settled-IsTruthful op k result c t
after_commit-IsTruthful op k result (false, c) t = t

after_replacement-IsTruthful :
    (k : Key) (generation : ℕ) (a : Bool × Controller)
    → IsTruthful a.1
    → IsTruthful (after_replacement k generation a).1
unfolding after_replacement
after_replacement-IsTruthful k generation (true, c) t =
    renew-IsTruthful k (new_execution generation) c t
after_replacement-IsTruthful k generation (false, c) t = t

module _ (loads : List ℕ → Option Value) (dumps : Value → List ℕ) where
  Committed-IsTruthful :
      (rows : Pair Allocation) (c : Controller) (b : Bool) (c' : Controller)
      → Committed loads dumps rows c b c'
      → IsTruthful c
      → IsTruthful c'
  Committed-IsTruthful rows c true _ kept t = t
  Committed-IsTruthful rows c false _ lost t = (_, _)

  commit-IsTruthful :
      (w : Bool) (rows : Pair Allocation) (c : Controller)
      → IsTruthful c
      → IsTruthful (commit loads dumps w rows c).1
  commit-IsTruthful w rows c t =
      Committed-IsTruthful rows c _ _ (commit-Committed loads dumps w rows c) t

  finish-IsTruthful :
      (w : Bool) (op : Op) (k : Key) (result : Bool) (row : Allocation) (c : Controller)
      → IsTruthful c
      → IsTruthful (finish loads dumps w op k result row c).1
  unfolding finish
  finish-IsTruthful w op k result row c t =
      after_commit-IsTruthful op k result
        (commit loads dumps w (put k (audited op result row) c.allocations) c)
        (commit-IsTruthful w (put k (audited op result row) c.allocations) c t)

  control-IsTruthful :
      (w : Bool) (k : Key) (b : Bool) (c : Controller)
      → IsTruthful c
      → IsTruthful (set_control loads dumps w k b c).1
  unfolding set_control
  control-IsTruthful w k b c t = elim (Bool-cases c.storage_ok) [
    | inl e ↦
        (let rows =
            put k (record (at k c.allocations) { control = b; approved = false }) c.allocations in
          let call : set_control loads dumps w k b c
              ≡ commit loads dumps w rows (set_observation k none c) =
            ground (arith, e) in
          rw call (commit-IsTruthful w rows (set_observation k none c) (drop-IsTruthful k c t)))
    | inr e ↦ rw e t
  ]

  allocation-IsTruthful :
      (w : Bool) (k : Key) (c : Controller)
      → IsTruthful c
      → IsTruthful (replace_allocation loads dumps w k c).1
  unfolding replace_allocation
  allocation-IsTruthful w k c t =
      elim (Bool-cases (
        not c.storage_ok
        || row.latched
        || not row.control
        || e.running
        || e.remote_running
        || row.generation == max_integer)) [
          | inl stopped ↦ rw stopped t
          | inr on ↦ rw on (
              after_replacement-IsTruthful k (row.generation + 1) (commit loads dumps w rows c)
                (commit-IsTruthful w rows c t))
        ]
    where
      row : Allocation
      row = at k c.allocations

      e : Execution
      e = at k c.executions

      rows : Pair Allocation
      rows = put k (new_allocation (row.generation + 1)) c.allocations

  -- Every step keeps the observations truthful.
  pub Step-IsTruthful : (c c' : Controller) → Step loads dumps c c' → IsTruthful c → IsTruthful c'
  unfolding advance
  Step-IsTruthful c c' (ticked n h) t =
      let same : record c { tick = c.tick + n } ≡ c' = ground (arith, h) in rw (← same) t
  Step-IsTruthful c c' (acted k kind r h) t = effect-IsTruthful k kind c c' r h t
  Step-IsTruthful c c' (commanded w p v answer h) t =
      elim (command-Passed loads dumps w p v c answer c' h) [
        | inl same ↦ rw (← same) t
        | inr x ↦
            subst (λ (a : Answer × Controller). IsTruthful a.1) x.ended
              (finish-IsTruthful w x.ev.op x.ev.key x.result x.row c t)
      ]
  Step-IsTruthful c c' (controlled w k b r h) t =
      subst (λ (a : Bool × Controller). IsTruthful a.1) h (control-IsTruthful w k b c t)
  Step-IsTruthful c c' (replaced w k r h) t =
      subst (λ (a : Bool × Controller). IsTruthful a.1) h (allocation-IsTruthful w k c t)
  Step-IsTruthful c c' (adapted k cancel fail r h) t =
      subst (λ (a : Bool × Controller). IsTruthful a.1) h (adapter-IsTruthful k cancel fail c t)
  Step-IsTruthful c c' (sampled k fail o h) t =
      subst (λ (a : Observed × Controller). IsTruthful a.1) h (observe-IsTruthful k fail c t)

  -- the steps from one controller to another
  pub data Steps (c : Controller) : Controller → Type 0 where
    here : Steps c c
    onward : {d e : Controller} → Steps c d → Step loads dumps d e → Steps c e

  Steps-IsTruthful : (c d : Controller) → Steps c d → IsTruthful c → IsTruthful d
  Steps-IsTruthful c _ here t = t
  Steps-IsTruthful c e (onward {d} before last) t =
      Step-IsTruthful d e last (Steps-IsTruthful c d before t)

  -- Whatever calls were made from a controller that holds no observation: if `status` reports an
  -- allocation as VERIFIED_STOPPED, neither it nor its remote work is running.
  pub stopped-means_stopped :
      (c d : Controller) (k : Key)
      → c.observations.a ≡ none
      → c.observations.b ≡ none
      → Steps c d
      → observed k d ≡ verified_stopped
      → ((at k d.executions).running ≡ false) × ((at k d.executions).remote_running ≡ false)
  unfolding observed
  stopped-means_stopped c d k none_a none_b calls h =
      let start : IsTruthful c = (rw none_a _, rw none_b _) in
      let t = Steps-IsTruthful c d calls start in
      elim (Option-cases (at k d.observations)) [
        | inl e ↦ absurd (ground (arith, e, h))
        | inr (o, e) ↦ ground (arith, h, e, rw e at (Matches-at k d t))
      ]
