-- ===== src/HumanStop/Steps.antt =====
-- The steps of the controller and its world, and what a command that changes anything has passed
-- (experiments/human_override/model.py, lines 195-331).
use lumi_eggcracker.Base.{
  ℕ, ◌<◌, String, ◌≡◌, refl, Bool, true, false, not, ◌&&◌, Option, none, some, List, leb, ◌==◌,
  arith, Bool-cases, Option-cases, inl, inr, ◌⊎◌,
}
use lumi_eggcracker.Json.{Value}
use lumi_eggcracker.HumanStop.State.{
  Principal, Key, principal_of, Pair, at, last_of, set_last, Allocation, Observed, Controller,
}
use lumi_eggcracker.HumanStop.Storage.{commit, persist}
use lumi_eggcracker.HumanStop.World.{advance, effect, op_row}
use lumi_eggcracker.HumanStop.Controller.{
  adapter, observe, command, command_event, event_of, finish, finish_row, set_control,
  replace_allocation, Answer, Event, barred,
}

module _ (loads : List ℕ → Option Value) (dumps : Value → List ℕ) where
  -- One call of the controller, of its world or of its fixtures.
  pub data Step (c : Controller) : Controller → Type 0 where
    ticked : {c' : Controller} (n : ℕ) → advance n c ≡ some c' → Step c c'
    acted :
        {c' : Controller} (k : Key) (kind : String) (r : Bool)
        → effect k kind c ≡ some (r, c')
        → Step c c'
    commanded :
        {c' : Controller} (w : Bool) (principal : String) (event : Value) (answer : Answer)
        → command loads dumps w principal event c ≡ (answer, c')
        → Step c c'
    controlled :
        {c' : Controller} (w : Bool) (k : Key) (b r : Bool)
        → set_control loads dumps w k b c ≡ (r, c')
        → Step c c'
    replaced :
        {c' : Controller} (w : Bool) (k : Key) (r : Bool)
        → replace_allocation loads dumps w k c ≡ (r, c')
        → Step c c'
    adapted :
        {c' : Controller} (k : Key) (cancel fail r : Bool)
        → adapter k cancel fail c ≡ (r, c')
        → Step c c'
    sampled :
        {c' : Controller} (k : Key) (fail : Bool) (o : Observed)
        → observe k fail c ≡ (o, c')
        → Step c c'

  -- What a command has passed that came to its commit.
  pub record Passed (w : Bool) (principal_name : String) (c : Controller) (answer : Answer)
      (c' : Controller) : Type 0 where
    pub principal : Principal
    pub ev : Event
    pub row : Allocation
    pub result : Bool
    pub named : principal_of principal_name ≡ some principal
    pub stored : c.storage_ok ≡ true
    pub of_generation : ev.generation ≡ (at ev.key c.allocations).generation
    pub of_epoch : ev.epoch ≡ (at ev.key c.allocations).epoch
    pub unused : last_of principal (at ev.key c.allocations).sequence < ev.sequence
    pub entitled : barred principal ev.op ≡ false
    pub changed :
        op_row ev.op ev.key
          (record (at ev.key c.allocations) {
            sequence = set_last principal ev.sequence (at ev.key c.allocations).sequence;
          })
          c
        ≡ some (row, result)
    pub ended : finish loads dumps w ev.op ev.key result row c ≡ (answer, c')

  event-Passed :
      (w : Bool) (principal_name : String) (principal : Principal) (ev : Event) (c : Controller)
      (answer : Answer) (c' : Controller)
      → principal_of principal_name ≡ some principal
      → command_event loads dumps w principal ev c ≡ (answer, c')
      → (c ≡ c') ⊎ Passed w principal_name c answer c'
  unfolding command_event finish_row
  event-Passed w principal_name principal ev c answer c' named h = elim (Bool-cases passes) [
    | inr stopped ↦ inl (ground (arith, stopped, h))
    | inl on ↦ by_row on (op_row ev.op ev.key fenced c) refl (ground (arith, on, h))
  ]
    where
      current : Allocation
      current = at ev.key c.allocations

      fenced : Allocation
      fenced = record current { sequence = set_last principal ev.sequence current.sequence }

      passes : Bool
      passes =
          c.storage_ok
          && (ev.generation == current.generation && ev.epoch == current.epoch)
          && not (leb ev.sequence (last_of principal current.sequence))
          && not (barred principal ev.op)

      by_row :
          passes ≡ true
          → (o : Option (Allocation × Bool)) → op_row ev.op ev.key fenced c ≡ o
          → finish_row loads dumps w ev.op ev.key o c ≡ (answer, c')
          → (c ≡ c') ⊎ Passed w principal_name c answer c'
      by_row on none e k = inl (ground (arith, k))
      by_row on (some (row, result)) e k = inr (record {
        principal = principal;
        ev = ev;
        row = row;
        result = result;
        named = named;
        stored = ground (arith, on);
        of_generation = ground (arith, on);
        of_epoch = ground (arith, on);
        unused = ground (arith, on);
        entitled = ground (arith, on);
        changed = e;
        ended = k;
      })

  -- A command either leaves everything as it was or has passed every fence.
  pub command-Passed :
      (w : Bool) (principal_name : String) (event : Value) (c : Controller) (answer : Answer)
      (c' : Controller)
      → command loads dumps w principal_name event c ≡ (answer, c')
      → (c ≡ c') ⊎ Passed w principal_name c answer c'
  unfolding command
  command-Passed w principal_name event c answer c' h =
      elim (Option-cases (principal_of principal_name)) [
        | inl nobody ↦ inl (ground (arith, nobody, h))
        | inr (principal, named) ↦ elim (Option-cases (event_of event)) [
          | inl malformed ↦ inl (ground (arith, named, malformed, h))
          | inr (ev, shaped) ↦
              event-Passed w principal_name principal ev c answer c' named
                (ground (arith, named, shaped, h))
        ]
      ]

  -- A commit either stores the rows or loses the storage and every observation.
  pub data Committed (rows : Pair Allocation) (c : Controller) : Bool → Controller → Type 0 where
    kept : Committed rows c true (record c { allocations = rows; stored = rows })
    lost :
        Committed rows c false
          (record c { storage_ok = false; observations = record { a = none; b = none } })

  pub commit-Committed :
      (w : Bool) (rows : Pair Allocation) (c : Controller)
      → Committed rows c (commit loads dumps w rows c).0 (commit loads dumps w rows c).1
  unfolding commit
  commit-Committed w rows c = elim (Bool-cases (persist loads dumps w rows)) [
    | inl e ↦ rw e kept
    | inr e ↦ rw e lost
  ]
