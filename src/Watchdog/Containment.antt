-- ===== src/Watchdog/Containment.antt =====
-- `_kill_target`, `_receipt` and `_fail_closed` (src/lumi_eggcracker/watchdog.py, lines 43-135 and
-- 174-200). What the kernel answers for a cgroup is an argument.
use lumi_eggcracker.Base.{
  ℕ, String, ◌≡◌, Bool, true, false, not, ◌&&◌, Option, none, some, List, [], ◌∷◌, map, ◌==◌,
  if◌then◌else◌, all, Elem, first, later, arith, Bool-cases, inl, inr, ◌⊎◌, Result, ok, err,
  Result-cases, eq_iff,
}

-- One reading of `cgroup.events`: the value of `populated`, where the file has one, or an error,
-- with whether the directory still exists.
pub data Reading : Type 0 where
  events : Option ℕ → Reading
  unreadable : Bool → Reading

-- A cgroup as the kernel answers for it: the freeze control, the two writes, the readings before the
-- deadline, and the reading after it.
pub record Cgroup : Type 0 where
  pub path : String
  pub has_freeze : Bool
  pub freeze_written : Bool
  pub kill_written : Bool
  pub polls : List Reading
  pub last_poll : Reading

pub record Report : Type 0 where
  pub cgroup : String
  pub collected : Bool
  pub frozen : Bool
  pub populated : ℕ

abbrev pub report : Cgroup → Bool → ℕ → Report
report g collected populated = record {
  cgroup = g.path;
  collected = collected;
  frozen = g.has_freeze;
  populated = populated;
}

-- the reading after the deadline
unfoldable pub final_report : Cgroup → Reading → Result Report
final_report g (events (some n)) = ok (report g false n)
final_report g (events none) = ok (report g false 1)
final_report g (unreadable true) = err "cannot inspect watchdog cgroup"
final_report g (unreadable false) = ok (report g true 0)

-- the loop until the deadline
unfoldable pub poll : Cgroup → List Reading → Result Report
unfolding final_report
poll g [] = final_report g g.last_poll
poll g (events (some n) ∷ rest) =
    let later_report = poll g rest in if n == 0 then ok (report g false 0) else later_report
poll g (events none ∷ rest) = poll g rest
poll g (unreadable true ∷ rest) = err "cannot inspect watchdog cgroup"
poll g (unreadable false ∷ rest) = ok (report g true 0)

-- `_kill_target`
unfoldable pub kill_target : Cgroup → Result Report
unfolding poll
kill_target g =
    if g.has_freeze && not g.freeze_written
    then err "watchdog cgroup control is unavailable"
    else if g.kill_written
    then poll g g.polls
    else err "watchdog cgroup control is unavailable"

-- the report of a target in `_fail_closed`, an error included
unfoldable pub target_report : Cgroup → Report
unfolding kill_target
target_report g = elim (kill_target g) [
  | ok r ↦ r
  | err e ↦ record { cgroup = g.path; collected = false; frozen = false; populated = 1 }
]

-- the receipt's result
abbrev pub all_empty : List Report → Bool
all_empty = all (λ r. r.populated == 0)

abbrev pub receipt_result : List Report → String
receipt_result reports = if all_empty reports then "TERMINATED" else "CONTAINMENT_FAILED"

-- `_fail_closed`: the reports of all targets and the result that its receipt states
unfoldable pub fail_closed : List Cgroup → List Report × String
unfolding target_report
fail_closed groups = (map target_report groups, receipt_result (map target_report groups))

-- A reading that shows an empty cgroup: it says so, or the directory is gone.
pub data ShowsEmpty : Reading → Type 0 where
  says_empty : ShowsEmpty (events (some 0))
  is_gone : ShowsEmpty (unreadable false)

final-ShowsEmpty :
    (g : Cgroup) (o : Reading) (r : Report)
    → final_report g o ≡ ok r
    → r.populated ≡ 0
    → ShowsEmpty o
unfolding final_report
final-ShowsEmpty g (events (some n)) r h z = let e : n ≡ 0 = ground (arith, h, z) in rw e says_empty
final-ShowsEmpty g (events none) r h z = absurd (ground (arith, h, z))
final-ShowsEmpty g (unreadable true) r h z = cc
final-ShowsEmpty g (unreadable false) r h z = is_gone

-- Some reading after the kill shows an empty cgroup.
abbrev pub EmptyShown : Cgroup → List Reading → Type 0
EmptyShown g polls = ((o : Reading) × Elem o polls × ShowsEmpty o) ⊎ ShowsEmpty g.last_poll

poll-EmptyShown :
    (g : Cgroup) (polls : List Reading) (r : Report)
    → poll g polls ≡ ok r
    → r.populated ≡ 0
    → EmptyShown g polls
unfolding poll
poll-EmptyShown g [] r h z = inr (final-ShowsEmpty g g.last_poll r h z)
poll-EmptyShown g (events (some n) ∷ rest) r h z = elim (Bool-cases (n == 0)) [
  | inl e ↦
      (let zero : n ≡ 0 = ground (arith, e) in inl (events (some n), first, rw zero says_empty))
  | inr e ↦ further g (events (some n)) rest (poll-EmptyShown g rest r (ground (arith, e, h)) z)
]
  where
    further :
        (g : Cgroup) (o : Reading) (rest : List Reading)
        → EmptyShown g rest
        → EmptyShown g (o ∷ rest)
    further g o rest (inl (p, there, shown)) = inl (p, later there, shown)
    further g o rest (inr shown) = inr shown
poll-EmptyShown g (events none ∷ rest) r h z = elim (poll-EmptyShown g rest r h z) [
  | inl (p, there, shown) ↦ inl (p, later there, shown)
  | inr shown ↦ inr shown
]
poll-EmptyShown g (unreadable true ∷ rest) r h z = cc
poll-EmptyShown g (unreadable false ∷ rest) r h z = inl (unreadable false, first, is_gone)

target-EmptyShown :
    (g : Cgroup) → (target_report g).populated ≡ 0 → (g.kill_written ≡ true) × EmptyShown g g.polls
unfolding target_report kill_target
target-EmptyShown g z = elim (Result-cases (kill_target g)) [
  | inr (e, failed) ↦ absurd (ground (arith, failed, z))
  | inl (r, done) ↦
      (let written : g.kill_written ≡ true = ground (arith, done) in
        let polled : poll g g.polls ≡ ok r = ground (arith, done) in
        let empty : r.populated ≡ 0 = ground (arith, done, z) in
        (written, poll-EmptyShown g g.polls r polled empty))
]

empty_of :
    (g : Cgroup) (groups : List Cgroup)
    → all_empty (map target_report groups) ≡ true
    → Elem g groups
    → (target_report g).populated ≡ 0
empty_of g _ e first = ground (arith, e)
empty_of g (other ∷ groups) e (later there) = empty_of g groups (ground (arith, e)) there

-- A receipt of `_fail_closed` that states TERMINATED has a kill written to every target, and for
-- every target a reading after that write which shows it empty or gone.
pub fail_closed-terminated :
    (groups : List Cgroup) (g : Cgroup)
    → (fail_closed groups).1 ≡ "TERMINATED"
    → Elem g groups
    → (g.kill_written ≡ true) × EmptyShown g g.polls
unfolding fail_closed
fail_closed-terminated groups g h there = elim (Bool-cases (all_empty (map target_report groups))) [
  | inl e ↦ target-EmptyShown g (empty_of g groups e there)
  | inr e ↦ absurd (ground (arith, rw e at h, eq_iff "CONTAINMENT_FAILED" "TERMINATED"))
]
