-- ===== src/Supervisor/Tests.antt =====
-- Runs of the supervisor's correlation on four processes: a parent with two children, and a stranger
-- that is of another account.
use lumi_eggcracker.Base.{ℕ, ◌≡◌, ◌↔◌, refl, arith, String, true, Option, none, some, List, [], ◌∷◌}
use lumi_eggcracker.Supervisor.Candidates.{EvidenceCandidate, Owner, owned_cgroup}
use lumi_eggcracker.Supervisor.Sets.{Boundaries, components, correlate, relation_of}
use lumi_eggcracker.Supervisor.Chains.{Chain}
use lumi_eggcracker.Supervisor.Joining.{IsRelated}
use lumi_eggcracker.Supervisor.Groups.{Groups, together, members}
use lumi_eggcracker.Supervisor.Correlation.{correlate-ends, components-Chain, components-members}
use lumi_eggcracker.Supervisor.Accounts.{together-uid}

abbrev owner : Owner
owner = record { workload_uid = 1000; active = []; live = λ path. true }

abbrev process : ℕ → ℕ → ℕ → EvidenceCandidate
process pid uid parent = record {
  snapshot = record {
    identity = record { pid = pid; start_time = 7 };
    uid = uid;
    cgroups = [];
    parent = some (record { pid = parent; start_time = 7 });
  };
  content = [];
  runtimes = [];
}

abbrev processes : List EvidenceCandidate
processes = process 21 1000 20 ∷ process 30 0 1 ∷ process 20 1000 1 ∷ process 22 1000 20 ∷ []

abbrev relation : ℕ → ℕ → Option String
relation = relation_of owner [] processes

abbrev groups : Groups
groups = (0, 0 ∷ 2 ∷ 3 ∷ []) ∷ (1, 1 ∷ []) ∷ []

abbrev boundaries : Boundaries
boundaries = ((0, 2), "parent-child") ∷ ((0, 3), "parent-child") ∷ []

processes_grouped : components 4 relation ≡ some (groups, boundaries)
unfolding components relation_of
processes_grouped = refl

-- A cgroup below the supervisor's service counts, one in its quarantine does not.
below_service :
    owned_cgroup owner ("4:cpu:/x" ∷ "0::/system.slice/lumi-eggcracker.service/run-1" ∷ [])
    ≡ some "/system.slice/lumi-eggcracker.service/run-1"
unfolding owned_cgroup
below_service = refl

in_quarantine :
    owned_cgroup owner ("0::/system.slice/lumi-eggcracker.service/quarantine/1" ∷ []) ≡ none
unfolding owned_cgroup
in_quarantine = refl

correlate-ends_example :
    (found : List (List EvidenceCandidate × String)) × (correlate (λ kinds. none) owner [] processes
      ≡ some found)
correlate-ends_example = correlate-ends (λ kinds. none) owner [] processes

components-Chain_example : (together 0 3 groups ≡ true) ↔ Chain (IsRelated 4 relation) 0 3
components-Chain_example =
    components-Chain 4 relation groups boundaries processes_grouped 0 3 (omega arith) (omega arith)

components-members_example : (members groups ≡ 4) × (together 1 1 groups ≡ true)
components-members_example =
    components-members 4 relation groups boundaries processes_grouped 1 (omega arith)

together-uid_example : (process 21 1000 20).snapshot.uid ≡ owner.workload_uid
together-uid_example =
    together-uid owner [] processes groups boundaries 0 3 (process 21 1000 20) processes_grouped
      (omega arith) (omega arith) refl refl refl
