-- ===== src/Supervisor/Sets.antt =====
-- `_correlate` (src/lumi_eggcracker/supervisor.py, lines 903-949): disjoint sets in a table of parents.
-- The table is a function of the index. Python's loop `find` takes fuel here, and `none` stands for a
-- loop that has not ended.
use lumi_eggcracker.Base.{
  ℕ, zero, suc, ◌+◌, String, Bool, true, false, ◌&&◌, ◌||◌, Option, none, some, List, [], ◌∷◌, ◌++◌,
  ltb, ◌==◌, if◌then◌else◌, length, get_elem?, any, elem, min, map,
}
use lumi_eggcracker.Supervisor.Candidates.{EvidenceCandidate, Snapshot, Owner, related}

-- `parent[i] = v`
abbrev pub assign : ℕ → ℕ → (ℕ → ℕ) → ℕ → ℕ
assign i v p j = if j == i then v else p j

abbrev pub Boundaries : Type 0
Boundaries = List ((ℕ × ℕ) × String)

-- the local variables `parent` and `boundaries`
pub record Sets : Type 0 where
  pub parent : ℕ → ℕ
  pub boundaries : Boundaries

-- `find`, with the table that it leaves
unfoldable pub find : ℕ → (ℕ → ℕ) → ℕ → Option ((ℕ → ℕ) × ℕ)
find zero p value = none
find (suc fuel) p value =
    let rest = find fuel (assign value (p (p value)) p) (p (p value)) in
    if p value == value then some (p, value) else rest

abbrev pub max : ℕ → ℕ → ℕ
max a b = if ltb a b then b else a

-- `boundaries[(a, b)] = boundary`
abbrev pub note : ℕ → ℕ → String → Boundaries → Boundaries
note a b boundary [] = ((a, b), boundary) ∷ []
note a b boundary (e ∷ es) =
    if e.0.0 == a && e.0.1 == b then ((a, b), boundary) ∷ es else e ∷ note a b boundary es

-- `union` after its two searches
unfoldable pub attach : ℕ → ℕ → (ℕ → ℕ) → String → Sets → Sets
attach one two p boundary s = if one == two then record s { parent = p } else record {
  parent = assign two one p;
  boundaries = note (min one two) (max one two) boundary s.boundaries;
}

-- `union`
unfoldable pub union : ℕ → ℕ → ℕ → String → Sets → Option Sets
unfolding find attach
union fuel left right boundary s = elim (find fuel s.parent left) [
  | none ↦ none
  | some (p, one) ↦ elim (find fuel p right) [
    | none ↦ none
    | some (p', two) ↦ some (attach one two p' boundary s)
  ]
]

-- `range(start, start + count)`
abbrev pub range : ℕ → ℕ → List ℕ
range start zero = []
range start (suc count) = start ∷ range (start + 1) count

-- the pairs of the two loops, in their order
abbrev pub pairs : ℕ → ℕ → List (ℕ × ℕ)
pairs start zero = []
pairs start (suc count) =
    map (λ right. (start, right)) (range (start + 1) count) ++ pairs (start + 1) count

-- the loops: `relation left right` is what `_related` answers for two candidates
unfoldable pub join : ℕ → (ℕ → ℕ → Option String) → List (ℕ × ℕ) → Sets → Option Sets
unfolding union
join fuel relation [] s = some s
join fuel relation (e ∷ es) s = elim (relation e.0 e.1) [
  | none ↦ join fuel relation es s
  | some boundary ↦ elim (union fuel e.0 e.1 boundary s) [
    | none ↦ none
    | some s' ↦ join fuel relation es s'
  ]
]

-- `groups.setdefault(key, []).append(index)`
abbrev pub append_at : ℕ → ℕ → List (ℕ × List ℕ) → List (ℕ × List ℕ)
append_at key index [] = (key, index ∷ []) ∷ []
append_at key index (g ∷ gs) =
    if g.0 == key then (g.0, g.1 ++ index ∷ []) ∷ gs else g ∷ append_at key index gs

-- the loop that fills `groups`
unfoldable pub gather : ℕ → (ℕ → ℕ) → List ℕ → List (ℕ × List ℕ) → Option (List (ℕ × List ℕ))
unfolding find
gather fuel p [] gs = some gs
gather fuel p (index ∷ indexes) gs = elim (find fuel p index) [
  | none ↦ none
  | some (p', key) ↦ gather fuel p' indexes (append_at key index gs)
]

-- each candidate in a set of its own
abbrev pub separate : Sets
separate = record { parent = λ i. i; boundaries = [] }

-- the groups of indexes, and the boundaries; a search gets as many rounds as there are candidates
unfoldable pub components : ℕ → (ℕ → ℕ → Option String) → Option (List (ℕ × List ℕ) × Boundaries)
unfolding join gather
components count relation = elim (join count relation (pairs 0 count) separate) [
  | none ↦ none
  | some s ↦ elim (gather count s.parent (range 0 count) []) [
    | none ↦ none
    | some groups ↦ some (groups, s.boundaries)
  ]
]

-- `_related(candidates[left], candidates[right], snapshots)`
unfoldable pub relation_of : Owner → List Snapshot → List EvidenceCandidate → ℕ → ℕ → Option String
unfolding related
relation_of o snapshots candidates left right = elim (get_elem? candidates left) [
  | none ↦ none
  | some l ↦ elim (get_elem? candidates right) [ none ↦ none | some r ↦ related o snapshots l r ]
]

-- `index in indexes`
abbrev pub among : ℕ → List ℕ → Bool
among i indexes = any (λ j. j == i) indexes

-- the values of the set `boundary_types`, once each
abbrev pub boundary_types : List ℕ → Boundaries → List String
boundary_types indexes [] = []
boundary_types indexes (e ∷ es) =
    let rest = boundary_types indexes es in
    if (among e.0.0 indexes || among e.0.1 indexes) && (if elem e.1 rest then false else true)
    then e.1 ∷ rest
    else rest

abbrev pub selected : List EvidenceCandidate → List ℕ → List EvidenceCandidate
selected candidates [] = []
selected candidates (index ∷ indexes) = elim (get_elem? candidates index) [
  | none ↦ selected candidates indexes
  | some c ↦ c ∷ selected candidates indexes
]

-- the kind of relation that a group reports; `any_of` is the order in which Python's set is read
unfoldable pub boundary_of :
    (List String → Option String) → List EvidenceCandidate → List ℕ → Boundaries → String
boundary_of any_of values indexes boundaries =
    if ltb 1 (length values)
    then elim (any_of (boundary_types indexes boundaries)) [
      | none ↦ "same-process"
      | some boundary ↦ boundary
    ]
    else "same-process"

-- the groups with their candidates and the kind of their relation
abbrev pub reported :
    (List String → Option String)
    → List EvidenceCandidate
    → List (ℕ × List ℕ)
    → Boundaries
    → List (List EvidenceCandidate × String)
reported any_of candidates groups boundaries =
    map
      (λ g.
        let values = selected candidates g.1 in (values, boundary_of any_of values g.1 boundaries))
      groups

-- `_correlate`
unfoldable pub correlate :
    (List String → Option String)
    → Owner
    → List Snapshot
    → List EvidenceCandidate
    → Option (List (List EvidenceCandidate × String))
unfolding components relation_of boundary_of
correlate any_of o snapshots candidates =
    elim (components (length candidates) (relation_of o snapshots candidates)) [
      | none ↦ none
      | some (groups, boundaries) ↦ some (reported any_of candidates groups boundaries)
    ]
