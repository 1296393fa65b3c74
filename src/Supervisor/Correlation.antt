-- ===== src/Supervisor/Correlation.antt =====
-- `_correlate` (src/lumi_eggcracker/supervisor.py, lines 903-949): it ends, and its groups are the
-- classes of related candidates.
use lumi_eggcracker.Base.{ℕ, ◌<◌, ◌≡◌, ◌↔◌, refl, arith, true, String, Option, some, List, length}
use mathlib.Core.Path.{subst}
use lumi_eggcracker.Supervisor.Candidates.{EvidenceCandidate, Snapshot, Owner}
use lumi_eggcracker.Supervisor.Sets.{Boundaries, components, correlate, reported, relation_of}
use lumi_eggcracker.Supervisor.Chains.{Chain, same}
use lumi_eggcracker.Supervisor.Joining.{IsRelated}
use lumi_eggcracker.Supervisor.Groups.{Groups, together, members, components-Components}

-- Whatever the candidates, and in whatever way they are related, no search of a root runs for more
-- rounds than there are candidates, so that the correlation ends and answers groups.
pub correlate-ends :
    (any_of : List String → Option String) (o : Owner) (snapshots : List Snapshot)
    (candidates : List EvidenceCandidate)
    → (groups : List (List EvidenceCandidate × String)) × (correlate any_of o snapshots candidates
        ≡ some groups)
unfolding correlate
correlate-ends any_of o snapshots candidates =
    let c = components-Components (length candidates) (relation_of o snapshots candidates) in
    (reported any_of candidates c.groups c.boundaries, ground (arith, c.ends))

module _ (n : ℕ) (relation : ℕ → ℕ → Option String) (groups : Groups) (boundaries : Boundaries)
    (answer : components n relation ≡ some (groups, boundaries)) where
  -- the groups are those of the proved answer
  same_groups : (components-Components n relation).groups ≡ groups
  same_groups = ground (arith, answer, (components-Components n relation).ends)

  -- Of the candidates that are compared pairwise, two stand in one group exactly where a chain of
  -- relations leads from one to the other.
  pub components-Chain :
      (i j : ℕ) → i < n → j < n → (together i j groups ≡ true) ↔ Chain (IsRelated n relation) i j
  components-Chain i j hi hj =
      let c = components-Components n relation in
      (
        λ e. c.chained i j (rw same_groups e),
        λ chain. subst (λ gs. together i j gs ≡ true) same_groups (c.grouped i j hi hj chain),
      )

  -- The groups hold as many places as there are candidates, and each candidate has one: it stands in
  -- exactly one group, once.
  pub components-members : (i : ℕ) → i < n → (members groups ≡ n) × (together i i groups ≡ true)
  components-members i h =
      let c = components-Components n relation in
      subst (λ gs. (members gs ≡ n) × (together i i gs ≡ true)) same_groups
        (c.counted, c.grouped i i h h (same refl))
