-- ===== src/Supervisor/Candidates.antt =====
-- The evidence that one process has, and the relation between two of them
-- (src/lumi_eggcracker/supervisor.py, lines 240-247 and 843-901).
use lumi_eggcracker.Base.{
  ℕ, String, Bool, true, false, not, ◌&&◌, ◌||◌, Option, none, some, List, [], ◌∷◌, ◌==◌,
  if◌then◌else◌, length, drop, any, codes, codes_eq,
}
use lumi_eggcracker.Launches.Identity.{starts_with, unit_path}

pub record ProcessIdentity : Type 0 where
  pub pid : ℕ
  pub start_time : ℕ

-- the parts of a process's snapshot that the correlation reads
pub record Snapshot : Type 0 where
  pub identity : ProcessIdentity
  pub uid : ℕ
  pub cgroups : List String
  pub parent : Option ProcessIdentity

-- `_EvidenceCandidate`, with the identifiers of its evidence
pub record EvidenceCandidate : Type 0 where
  pub snapshot : Snapshot
  pub content : List String
  pub runtimes : List String

abbrev pub same_identity : ProcessIdentity → ProcessIdentity → Bool
same_identity a b = a.pid == b.pid && a.start_time == b.start_time

-- `a == b`, where either may be `None`
abbrev pub same_parent : Option ProcessIdentity → Option ProcessIdentity → Bool
same_parent none none = true
same_parent (some a) (some b) = same_identity a b
same_parent _ _ = false

-- The supervisor: the account of the workloads, its own cgroups, and whether a cgroup's directory has
-- the files of one.
pub record Owner : Type 0 where
  pub workload_uid : ℕ
  pub active : List String
  pub live : String → Bool

abbrev pub service_prefix : List ℕ
service_prefix = codes "/system.slice/lumi-eggcracker.service/"

-- the cgroup is one that the supervisor made: below its service and not in the quarantine, or the unit
-- of an active run
unfoldable pub owned_path : Owner → String → Bool
owned_path o value =
    if starts_with (codes value) service_prefix
    then (let relative = drop (length service_prefix) (codes value) in
        not (length relative == 0) && not (starts_with relative (codes "quarantine/")))
    else any (λ a. codes_eq (codes a) (codes value)) o.active && unit_path value

-- the text after `0::`, of a line that starts so
abbrev pub unified : String → Option String
unified (String.◌∷◌ a (String.◌∷◌ b (String.◌∷◌ c value))) =
    if codes_eq (codes (String.◌∷◌ a (String.◌∷◌ b (String.◌∷◌ c String.[])))) (codes "0::")
    then some value
    else none
unified _ = none

-- `_owned_cgroup`
unfoldable pub owned_cgroup : Owner → List String → Option String
unfolding owned_path
owned_cgroup o [] = none
owned_cgroup o (line ∷ lines) =
    let rest = owned_cgroup o lines in
    elim (unified line) [
      | none ↦ rest
      | some value ↦ (if owned_path o value && o.live value then some value else rest)
    ]

abbrev pub same_cgroup : Option String → Option String → Bool
same_cgroup (some a) (some b) = codes_eq (codes a) (codes b)
same_cgroup _ _ = false

-- `snapshots.get(identity)`
abbrev pub snapshot_of : ProcessIdentity → List Snapshot → Option Snapshot
snapshot_of i [] = none
snapshot_of i (s ∷ snapshots) =
    if same_identity i s.identity then some s else snapshot_of i snapshots

-- the parent's snapshot is known, and is of the workloads' account
abbrev pub workload_parent : Owner → Option ProcessIdentity → List Snapshot → Bool
workload_parent o none snapshots = false
workload_parent o (some i) snapshots = elim (snapshot_of i snapshots) [
  | none ↦ false
  | some s ↦ s.uid == o.workload_uid
]

-- `_related`, with the kind of the relation
unfoldable pub related :
    Owner → List Snapshot → EvidenceCandidate → EvidenceCandidate → Option String
unfolding owned_cgroup
related o snapshots left right =
    let l = left.snapshot in
    let r = right.snapshot in
    if not (l.uid == o.workload_uid) || not (r.uid == o.workload_uid)
    then none
    else if same_cgroup (owned_cgroup o l.cgroups) (owned_cgroup o r.cgroups)
    then some "owned-cgroup"
    else if same_parent l.parent (some r.identity) || same_parent r.parent (some l.identity)
    then some "parent-child"
    else if same_parent l.parent r.parent && workload_parent o l.parent snapshots
    then some "sibling"
    else none
