-- ===== src/Supervisor/Accounts.antt =====
-- Which processes the correlation can join (src/lumi_eggcracker/supervisor.py, lines 880-949).
use lumi_eggcracker.Base.{
  ℕ, ◌<◌, ◌≡◌, ◌⊎◌, sym, arith, true, false, inl, inr, some, Option-cases, String, List, length,
  get_elem?, ◌==◌,
}
use mathlib.Core.Path.{subst}
use lumi_eggcracker.Supervisor.Candidates.{EvidenceCandidate, Snapshot, Owner, related}
use lumi_eggcracker.Supervisor.Sets.{Boundaries, components, relation_of}
use lumi_eggcracker.Supervisor.Chains.{Chain, same, edge, back, link}
use lumi_eggcracker.Supervisor.Joining.{IsRelated}
use lumi_eggcracker.Supervisor.Groups.{Groups, together}
use lumi_eggcracker.Supervisor.Correlation.{components-Chain}

related-uid :
    (o : Owner) (snapshots : List Snapshot) (l r : EvidenceCandidate) (boundary : String)
    → related o snapshots l r ≡ some boundary
    → (l.snapshot.uid ≡ o.workload_uid) × (r.snapshot.uid ≡ o.workload_uid)
unfolding related
related-uid o snapshots l r boundary h = ground (arith, h)

module _ (o : Owner) (snapshots : List Snapshot) (candidates : List EvidenceCandidate) where
  -- the candidate at an index is there and is of the workloads' account
  abbrev IsWorkload : ℕ → Type 0
  IsWorkload i =
      (c : EvidenceCandidate) × (get_elem? candidates i ≡ some c)
      × (c.snapshot.uid ≡ o.workload_uid)

  relation_of-IsWorkload :
      (i j : ℕ) (boundary : String)
      → relation_of o snapshots candidates i j ≡ some boundary
      → IsWorkload i × IsWorkload j
  unfolding relation_of
  relation_of-IsWorkload i j boundary h = elim (Option-cases (get_elem? candidates i)) [
    | inl e ↦ absurd (ground (arith, e, h))
    | inr (l, e) ↦ elim (Option-cases (get_elem? candidates j)) [
      | inl f ↦ absurd (ground (arith, e, f, h))
      | inr (r, f) ↦
          (let (a, b) = related-uid o snapshots l r boundary (ground (arith, e, f, h)) in
            ((l, e, a), (r, f, b)))
    ]
  ]

  Chain-IsWorkload :
      {n i j : ℕ}
      → Chain (IsRelated n (relation_of o snapshots candidates)) i j
      → (i ≡ j) ⊎ (IsWorkload i × IsWorkload j)
  Chain-IsWorkload (same e) = inl e
  Chain-IsWorkload {n} {i} {j} (edge e) = inr (relation_of-IsWorkload i j e.2.0 e.2.1)
  Chain-IsWorkload (back c) = elim (Chain-IsWorkload c) [
    | inl e ↦ inl (sym e)
    | inr both ↦ inr (both.1, both.0)
  ]
  Chain-IsWorkload {n} {i} {j} (link c d) = elim (Chain-IsWorkload c) [
    | inl e ↦ subst (λ x. (x ≡ j) ⊎ (IsWorkload x × IsWorkload j)) (sym e) (Chain-IsWorkload d)
    | inr p ↦ elim (Chain-IsWorkload d) [
      | inl e ↦ inr (p.0, subst IsWorkload e p.1)
      | inr q ↦ inr (p.0, q.1)
    ]
  ]

  -- A process that shares a group with another one runs under the account of the workloads.
  pub together-uid :
      (groups : Groups) (boundaries : Boundaries) (i j : ℕ) (c : EvidenceCandidate)
      → components (length candidates) (relation_of o snapshots candidates)
        ≡ some (groups, boundaries)
      → i < length candidates
      → j < length candidates
      → (i == j) ≡ false
      → together i j groups ≡ true
      → get_elem? candidates i ≡ some c
      → c.snapshot.uid ≡ o.workload_uid
  together-uid groups boundaries i j c answer hi hj apart e here =
      let chain =
        (components-Chain (length candidates) (relation_of o snapshots candidates) groups boundaries
            answer i j hi hj).0
          e in
      elim (Chain-IsWorkload chain) [
        | inl equal ↦ absurd (ground (arith, apart, equal))
        | inr both ↦ (let (d, at, uid) = both.0 in ground (arith, at, here, uid))
      ]
