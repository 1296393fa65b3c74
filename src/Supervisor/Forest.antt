-- ===== src/Supervisor/Forest.antt =====
-- The table of parents stays a forest, so that each search ends and finds the root
-- (src/lumi_eggcracker/supervisor.py, lines 917-929).
use lumi_eggcracker.Base.{
  ℕ, zero, suc, ◌+◌, ◌≤◌, ◌<◌, ◌≡◌, refl, arith, false, Bool-cases, inl, inr, some, ◌==◌,
  if◌then◌else◌,
}
use lumi_eggcracker.Supervisor.Sets.{assign, find}

-- how many indexes below `n` are their own parent
abbrev pub roots : ℕ → (ℕ → ℕ) → ℕ
roots zero p = 0
roots (suc n) p = (if p n == n then 1 else 0) + roots n p

-- Each index has a root, and a depth that grows along the parents; a table of few roots may be deep.
pub record IsForest (n : ℕ) (p root depth : ℕ → ℕ) : Type 0 where
  pub inside : (i : ℕ) → i < n → p i < n
  pub descends : (i : ℕ) → (p i == i) ≡ false → depth (p i) < depth i
  pub same_root : (i : ℕ) → root (p i) ≡ root i
  pub at_root : (i : ℕ) → p (root i) ≡ root i
  pub at_zero : (i : ℕ) → depth (root i) ≡ 0
  pub is_root : (i : ℕ) → p i ≡ i → root i ≡ i
  pub within : (i : ℕ) → i < n → root i < n
  pub shallow : (i : ℕ) → depth i + roots n p ≤ n

roots_eq : (n : ℕ) (p q : ℕ → ℕ) → ((i : ℕ) → (p i == i) ≡ (q i == i)) → roots n p ≡ roots n q
roots_eq zero p q h = refl
roots_eq (suc n) p q h = ground (arith, h n, roots_eq n p q h)

-- The root that loses its place is one less.
roots-assign :
    (n i v : ℕ) (p : ℕ → ℕ)
    → i < n
    → p i ≡ i
    → (v == i) ≡ false
    → suc (roots n (assign i v p)) ≡ roots n p
roots-assign zero i v p h r d = absurd (omega (arith, h))
roots-assign (suc n) i v p h r d = elim (Bool-cases (n == i)) [
  | inl e ↦ ground (arith, above n i v p)
  | inr e ↦ ground (arith, roots-assign n i v p)
]
  where
    above : (m j w : ℕ) (q : ℕ → ℕ) → m ≤ j → roots m (assign j w q) ≡ roots m q
    above zero j w q b = refl
    above (suc m) j w q b = ground (arith, above m j w q)

module _ (n : ℕ) (p root depth : ℕ → ℕ) (f : IsForest n p root depth) where
  -- The halving of a path keeps roots and depths.
  halved-IsForest : (v : ℕ) → (p v == v) ≡ false → IsForest n (assign v (p (p v)) p) root depth
  halved-IsForest v moved =
      let once = f.descends v moved in
      let twice = f.descends (p v) in
      let same : roots n (assign v (p (p v)) p) ≡ roots n p =
        roots_eq n (assign v (p (p v)) p) p (λ i. ground (arith, once, twice, moved)) in
      record {
        inside = λ i h. ground (arith, f.inside i, f.inside (p v), f.inside v);
        descends = λ i h. ground (arith, f.descends i, once, twice);
        same_root = λ i. ground (arith, f.same_root i, f.same_root v, f.same_root (p v));
        at_root = λ i. ground (arith, f.at_root i);
        at_zero = f.at_zero;
        is_root = λ i h. ground (arith, f.is_root i, once, twice);
        within = f.within;
        shallow = λ i. omega (arith, same, f.shallow i);
      }

  -- Where a root gets another root as its parent, the trees below them are one.
  pub attached-IsForest :
      (one two : ℕ)
      → one < n
      → two < n
      → p one ≡ one
      → p two ≡ two
      → (one == two) ≡ false
      → IsForest n
          (assign two one p)
          (λ i. if root i == two then one else root i)
          (λ i. if root i == two then depth i + 1 else depth i)
  attached-IsForest one two low high r1 r2 apart =
      let top1 = f.is_root one r1 in
      let top2 = f.is_root two r2 in
      let flat = f.at_zero one in
      let fewer = roots-assign n two one p high r2 apart in
      record {
        inside = λ i h. ground (arith, f.inside i);
        descends = λ i h. ground (arith, f.descends i, f.same_root i, top1, top2, flat, apart);
        same_root = λ i. ground (arith, f.same_root i, top1, top2, apart);
        at_root = λ i. ground (arith, f.at_root i, r1, apart);
        at_zero =
            λ i. ground (arith, f.at_zero i, top1, flat, apart, f.is_root (root i), f.at_root i);
        is_root = λ i h. ground (arith, f.is_root i, apart);
        within = λ i h. ground (arith, f.within i);
        shallow = λ i. ground (arith, fewer, f.shallow i);
      }

-- What a search leaves: the root of the index, and a forest with the same roots.
pub record Found (n fuel : ℕ) (p root depth : ℕ → ℕ) (v : ℕ) : Type 0 where
  pub table : ℕ → ℕ
  pub answer : find fuel p v ≡ some (table, root v)
  pub forest : IsForest n table root depth

-- A search with more rounds than the index is deep ends, at its root.
pub find-Found :
    (fuel n : ℕ) (p root depth : ℕ → ℕ) (v : ℕ)
    → IsForest n p root depth
    → depth v < fuel
    → Found n fuel p root depth v
unfolding find
find-Found zero n p root depth v f h = absurd (omega (arith, h))
find-Found (suc fuel) n p root depth v f h = elim (Bool-cases (p v == v)) [
  | inl top ↦ record { table = p; answer = ground (arith, top, f.is_root v); forest = f }
  | inr moved ↦
      (let p' = assign v (p (p v)) p in
        let less : depth (p (p v)) < fuel =
          ground (arith, f.descends v, f.descends (p v), moved, h) in
        let rest =
          find-Found fuel n p' root depth (p (p v)) (halved-IsForest n p root depth f v moved)
            less in
        record {
          table = rest.table;
          answer = ground (arith, moved, rest.answer, f.same_root v, f.same_root (p v));
          forest = rest.forest;
        })
]

roots-pos : (n : ℕ) (p : ℕ → ℕ) (i : ℕ) → i < n → p i ≡ i → 1 ≤ roots n p
roots-pos zero p i h r = absurd (omega (arith, h))
roots-pos (suc n) p i h r = ground (arith, roots-pos n p i)

-- As many rounds as there are indexes are enough.
pub search-Found :
    (n : ℕ) (p root depth : ℕ → ℕ) (v : ℕ)
    → IsForest n p root depth
    → v < n
    → Found n n p root depth v
search-Found n p root depth v f h =
    find-Found n n p root depth v f
      (omega (arith, f.shallow v, roots-pos n p (root v) (f.within v h) (f.at_root v)))
