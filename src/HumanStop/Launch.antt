-- ===== src/HumanStop/Launch.antt =====
-- What `command` asks before it launches (experiments/human_override/model.py, lines 195-260).
use lumi_eggcracker.Base.{
  ℕ, ◌<◌, String, ◌≡◌, Bool, true, false, Option, some, List, arith, inl, inr,
}
use lumi_eggcracker.Json.{Value}
use lumi_eggcracker.HumanStop.State.{
  Principal, Op, start, Key, at, Allocation, Execution, Controller, set_last,
}
use lumi_eggcracker.HumanStop.World.{op_row}
use lumi_eggcracker.HumanStop.Controller.{launched, command, Answer}
use lumi_eggcracker.HumanStop.Steps.{Passed, command-Passed}
use lumi_eggcracker.HumanStop.Latch.{Ended, unwritten, written, launching, finish-Ended, key-cases}

-- An allocation that may be launched: approved by a command, under control, not latched, idle, and
-- of the execution's generation.
pub record MayLaunch (k : Key) (c : Controller) : Type 0 where
  pub stored : c.storage_ok ≡ true
  pub unlatched : (at k c.allocations).latched ≡ false
  pub approved : (at k c.allocations).approved ≡ true
  pub control : (at k c.allocations).control ≡ true
  pub idle : (at k c.executions).running ≡ false
  pub idle_remotely : (at k c.executions).remote_running ≡ false
  pub generation : (at k c.executions).generation ≡ (at k c.allocations).generation

start_row :
    (k : Key) (q : ℕ) (principal : Principal) (row : Allocation) (c : Controller)
    → c.storage_ok ≡ true
    → op_row start k
        (record (at k c.allocations) {
          sequence = set_last principal q (at k c.allocations).sequence;
        })
        c
      ≡ some (row, true)
    → MayLaunch k c
unfolding op_row
start_row k q principal row c stored h = record {
  stored = stored;
  unlatched = ground (arith, h);
  approved = ground (arith, h);
  control = ground (arith, h);
  idle = ground (arith, h);
  idle_remotely = ground (arith, h);
  generation = ground (arith, h);
}

module _ (loads : List ℕ → Option Value) (dumps : Value → List ℕ) where
  launch_end :
      (k j : Key) (op : Op) (result : Bool) (row : Allocation) (c c' : Controller)
      → Ended loads dumps op j result row c c'
      → (at k c.executions).launches < (at k c'.executions).launches
      → (k ≡ j) × (op ≡ start) × (result ≡ true)
  launch_end k j op result row c c' (unwritten rows runs) more =
      absurd (omega (arith, rw runs at more))
  launch_end k j op result row c c' (written rows runs) more =
      absurd (omega (arith, rw runs at more))
  launch_end k j op result row c c' (launching is_start ok rows runs) more = elim (key-cases k j) [
    | inl same ↦ (same, is_start, ok)
    | inr apart ↦ absurd (
        omega
          (arith, rw (runs, apart Execution (launched (at j c.executions)) c.executions) at more))
  ]

  -- A command that launches an allocation found it approved, under control, not latched, idle and of
  -- the current generation, with the storage in order.
  pub command-MayLaunch :
      (w : Bool) (principal : String) (event : Value) (c c' : Controller) (answer : Answer)
      (k : Key)
      → command loads dumps w principal event c ≡ (answer, c')
      → (at k c.executions).launches < (at k c'.executions).launches
      → MayLaunch k c
  command-MayLaunch w principal event c c' answer k h more =
      elim (command-Passed loads dumps w principal event c answer c' h) [
        | inl same ↦ absurd (omega (arith, rw (← same) at more))
        | inr x ↦ by_key x (
            launch_end k x.ev.key x.ev.op x.result x.row c c'
              (finish-Ended loads dumps w x.ev.op x.ev.key x.result x.row c c' answer x.ended) more)
      ]
    where
      by_key :
          (x : Passed loads dumps w principal c answer c')
          → (k ≡ x.ev.key) × (x.ev.op ≡ start) × (x.result ≡ true)
          → MayLaunch k c
      by_key x (same, is_start, ok) =
          start_row k x.ev.sequence x.principal x.row c x.stored
            (rw (is_start, ok, ← same) at x.changed)
