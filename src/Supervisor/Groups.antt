-- ===== src/Supervisor/Groups.antt =====
-- The groups that `_correlate` makes of the sets (src/lumi_eggcracker/supervisor.py, lines 935-937).
use lumi_eggcracker.Base.{
  ℕ, zero, suc, ◌+◌, ◌≤◌, ◌<◌, ◌≡◌, refl, sym, ap, ◌∙◌, arith, Bool, true, ◌&&◌, ◌||◌, inl, inr,
  Option, some, Bool-cases, &&_split, ◌==◌, if◌then◌else◌, String, List, [], ◌∷◌, ◌++◌, any, All,
  length, sum_by, length-append,
}
use lumi_eggcracker.Base.Members.{All-append}
use lumi_eggcracker.Supervisor.Sets.{Boundaries, gather, components, range, append_at, among}
use lumi_eggcracker.Supervisor.Forest.{IsForest, search-Found}
use lumi_eggcracker.Supervisor.Chains.{Chain, Chain-same}
use lumi_eggcracker.Supervisor.Joining.{IsRelated, joined-Tells}

abbrev pub Groups : Type 0
Groups = List (ℕ × List ℕ)

-- one group holds both indexes
abbrev pub together : ℕ → ℕ → Groups → Bool
together i j gs = any (λ g. among i g.1 && among j g.1) gs

-- the members of the first group of this key
group_at : ℕ → Groups → List ℕ
group_at k [] = []
group_at k (g ∷ gs) = if g.0 == k then g.1 else group_at k gs

among-append : (i : ℕ) (xs ys : List ℕ) → among i (xs ++ ys) ≡ (among i xs || among i ys)
among-append i [] ys = refl
among-append i (x ∷ xs) ys = ground (arith, among-append i xs ys)

group_at-append_at :
    (k key index : ℕ) (gs : Groups)
    → group_at k (append_at key index gs)
      ≡ (if key == k then group_at k gs ++ index ∷ [] else group_at k gs)
unfolding group_at
group_at-append_at k key index [] = ground arith
group_at-append_at k key index (g ∷ gs) = ground (arith, group_at-append_at k key index gs)

-- Two members of the group of one key are together.
group_at-together :
    (i j k : ℕ) (gs : Groups)
    → among i (group_at k gs) ≡ true
    → among j (group_at k gs) ≡ true
    → together i j gs ≡ true
unfolding group_at
group_at-together i j k [] h1 h2 = cc
group_at-together i j k (g ∷ gs) h1 h2 = ground (arith, group_at-together i j k gs)

-- Every member of a group has the group's key as its root.
abbrev IsKeyed : (ℕ → ℕ) → Groups → Type 0
IsKeyed root gs = All (λ (g : ℕ × List ℕ). All (λ i. root i ≡ g.0) g.1) gs

append_at-IsKeyed :
    (root : ℕ → ℕ) (index : ℕ) (gs : Groups)
    → IsKeyed root gs
    → IsKeyed root (append_at (root index) index gs)
append_at-IsKeyed root index [] h = ((refl, tt), tt)
append_at-IsKeyed root index (g ∷ gs) h = elim (Bool-cases (g.0 == root index)) [
  | inl e ↦ rw e (All-append (λ i. root i ≡ g.0) g.1 (index ∷ []) h.0 (ground (arith, e), tt), h.1)
  | inr n ↦ rw n (h.0, append_at-IsKeyed root index gs h.1)
]

among-root :
    (root : ℕ → ℕ) (i k : ℕ) (xs : List ℕ)
    → All (λ j. root j ≡ k) xs
    → among i xs ≡ true
    → root i ≡ k
among-root root i k [] h e = cc
among-root root i k (x ∷ xs) h e = elim (Bool-cases (x == i)) [
  | inl here ↦ (let same : x ≡ i = ground (arith, here) in rw (sym same) h.0)
  | inr n ↦ among-root root i k xs h.1 (ground (arith, n, e))
]

together-root :
    (root : ℕ → ℕ) (i j : ℕ) (gs : Groups)
    → IsKeyed root gs
    → together i j gs ≡ true
    → root i ≡ root j
together-root root i j [] h e = cc
together-root root i j (g ∷ gs) h e = elim (Bool-cases (among i g.1 && among j g.1)) [
  | inl both ↦
      (let (a, b) = &&_split (among i g.1) (among j g.1) both in
        among-root root i g.0 g.1 h.0 a ∙ sym (among-root root j g.0 g.1 h.0 b))
  | inr n ↦ together-root root i j gs h.1 (ground (arith, n, e))
]

abbrev pub members : Groups → ℕ
members gs = sum_by (λ g. length g.1) gs

members-append_at :
    (key index : ℕ) (gs : Groups) → members (append_at key index gs) ≡ members gs + 1
members-append_at key index [] = omega arith
members-append_at key index (g ∷ gs) =
    ground (arith, members-append_at key index gs, length-append g.1 (index ∷ []))

-- What was to come or was held still is, after the index at the head.
held_step :
    (root : ℕ → ℕ) (i x : ℕ) (is : List ℕ) (gs : Groups)
    → (among i (x ∷ is) || among i (group_at (root i) gs)) ≡ true
    → (among i is || among i (group_at (root i) (append_at (root x) x gs))) ≡ true
held_step root i x is gs e =
    let a = group_at-append_at (root i) (root x) x gs in
    let b = among-append i (group_at (root i) gs) (x ∷ []) in
    elim (Bool-cases (x == i)) [
      | inl here ↦
          (let same : x ≡ i = ground (arith, here) in ground (arith, a, b, ap root same, here))
      | inr n ↦ ground (arith, a, b, n, e)
    ]

-- What the loop over the indexes leaves in the groups.
record Gathered (n : ℕ) (p root : ℕ → ℕ) (is : List ℕ) (gs : Groups) : Type 0 where
  pub groups : Groups
  ends : gather n p is gs ≡ some groups
  keyed : IsKeyed root groups
  counted : members groups ≡ members gs + length is
  held :
      (i : ℕ)
      → (among i is || among i (group_at (root i) gs)) ≡ true
      → among i (group_at (root i) groups) ≡ true

gather-Gathered :
    (n : ℕ) (p root depth : ℕ → ℕ) (is : List ℕ) (gs : Groups)
    → IsForest n p root depth
    → All (λ i. i < n) is
    → IsKeyed root gs
    → Gathered n p root is gs
unfolding gather
gather-Gathered n p root depth [] gs f h k = record {
  groups = gs;
  ends = refl;
  keyed = k;
  counted = omega arith;
  held = λ i e. e;
}
gather-Gathered n p root depth (x ∷ is) gs f h k =
    let found = search-Found n p root depth x f h.0 in
    let gs' = append_at (root x) x gs in
    let rest =
      gather-Gathered n found.table root depth is gs' found.forest h.1
        (append_at-IsKeyed root x gs k) in
    record {
      groups = rest.groups;
      ends = ground (arith, found.answer, rest.ends);
      keyed = rest.keyed;
      counted = omega (arith, rest.counted, members-append_at (root x) x gs);
      held = λ i e. rest.held i (held_step root i x is gs e);
    }

range-within : (n start count : ℕ) → start + count ≤ n → All (λ i. i < n) (range start count)
range-within n start zero h = tt
range-within n start (suc count) h =
    (omega (arith, h), range-within n (start + 1) count (omega (arith, h)))

among-range :
    (i start count : ℕ) → start ≤ i → i < start + count → among i (range start count) ≡ true
among-range i start zero low high = absurd (omega (arith, low, high))
among-range i start (suc count) low high = ground (arith, among-range i (start + 1) count)

length-range : (start count : ℕ) → length (range start count) ≡ count
length-range start zero = refl
length-range start (suc count) = omega (arith, length-range (start + 1) count)

-- What `components` answers.
pub record Components (n : ℕ) (relation : ℕ → ℕ → Option String) : Type 0 where
  pub groups : Groups
  pub boundaries : Boundaries
  pub ends : components n relation ≡ some (groups, boundaries)
  pub counted : members groups ≡ n
  pub grouped :
      (i j : ℕ) → i < n → j < n → Chain (IsRelated n relation) i j → together i j groups ≡ true
  pub chained : (i j : ℕ) → together i j groups ≡ true → Chain (IsRelated n relation) i j

pub components-Components : (n : ℕ) (relation : ℕ → ℕ → Option String) → Components n relation
unfolding components
components-Components n relation =
    let (s, made, t) = joined-Tells n relation in
    let g =
      gather-Gathered n s.parent t.root t.depth (range 0 n) [] t.forest
        (range-within n 0 n (omega arith)) tt in
    let there : (i : ℕ) → i < n → among i (group_at (t.root i) g.groups) ≡ true =
      λ i h. g.held i (ground (arith, among-range i 0 n, h)) in
    record {
      groups = g.groups;
      boundaries = s.boundaries;
      ends = ground (arith, made, g.ends);
      counted = omega (arith, g.counted, length-range 0 n);
      grouped = λ i j hi hj c.
          (let same = Chain-same (IsRelated n relation) t.root t.agrees c in
            group_at-together i j (t.root i) g.groups (there i hi) (rw same (there j hj)));
      chained = λ i j e. t.joined i j (together-root t.root i j g.groups g.keyed e);
    }
