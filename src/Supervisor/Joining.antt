-- ===== src/Supervisor/Joining.antt =====
-- The two loops over the pairs of candidates (src/lumi_eggcracker/supervisor.py, lines 930-934).
use lumi_eggcracker.Base.{
  ℕ, zero, suc, ◌+◌, ◌≤◌, ◌<◌, ◌≡◌, ◌⊎◌, refl, sym, arith, inl, inr, Option, none, some,
  Option-cases, Bool-cases, ◌==◌, String, List, [], ◌∷◌, map, Elem, first, later, All,
}
use mathlib.Core.Path.{subst}
use lumi_eggcracker.Base.Members.{Elem-append, Elem-append_left, Elem-append_right, Elem-All}
use lumi_eggcracker.Supervisor.Sets.{Sets, separate, join, pairs, range}
use lumi_eggcracker.Supervisor.Forest.{roots}
use lumi_eggcracker.Supervisor.Chains.{same, Chain-map, Tells, And, union-Tells}

-- The candidates at `i` and `j` were compared, and are related.
abbrev pub IsRelated : ℕ → (ℕ → ℕ → Option String) → ℕ → ℕ → Type 0
IsRelated n relation i j =
    (i < j) × (j < n) × ((boundary : String) × (relation i j ≡ some boundary))

-- a row of pairs
row-Elem :
    (i start : ℕ) (count : ℕ) (e : ℕ × ℕ)
    → Elem e (map (λ right. (i, right)) (range start count))
    → (e.0 ≡ i) × (start ≤ e.1) × (e.1 < start + count)
row-Elem i start zero e h = elim h [ ]
row-Elem i start (suc count) _ first = (refl, omega arith, omega arith)
row-Elem i start (suc count) e (later h) =
    let (a, b, c) = row-Elem i (start + 1) count e h in (a, omega (arith, b), omega (arith, c))

Elem-row :
    (i start count j : ℕ)
    → start ≤ j
    → j < start + count
    → Elem {A = ℕ × ℕ} (i, j) (map (λ right. (i, right)) (range start count))
Elem-row i start zero j low high = absurd (omega (arith, low, high))
Elem-row i start (suc count) j low high = elim (Bool-cases (start == j)) [
  | inl e ↦
      (let here : start ≡ j = ground (arith, e) in
        subst
          (λ k.
            Elem {A = ℕ × ℕ} (i, k)
              ((i, start) ∷ map (λ right. (i, right)) (range (start + 1) count)))
          here first)
  | inr n ↦ later (Elem-row i (start + 1) count j (ground (arith, n, low)) (omega (arith, high)))
]

pairs-Elem :
    (start count : ℕ) (e : ℕ × ℕ)
    → Elem e (pairs start count)
    → (start ≤ e.0) × (e.0 < e.1) × (e.1 < start + count)
pairs-Elem start zero e h = elim h [ ]
pairs-Elem start (suc count) e h =
    elim (Elem-append e (map (λ right. (start, right)) (range (start + 1) count))
      (pairs (start + 1) count) h) [
        | inl row ↦
            (let (a, b, c) = row-Elem start (start + 1) count e row in
              (omega (arith, a), omega (arith, a, b), omega (arith, c)))
        | inr rest ↦
            (let (a, b, c) = pairs-Elem (start + 1) count e rest in
              (omega (arith, a), omega (arith, b), omega (arith, c)))
      ]

Elem-pairs :
    (start count i j : ℕ)
    → start ≤ i
    → i < j
    → j < start + count
    → Elem {A = ℕ × ℕ} (i, j) (pairs start count)
Elem-pairs start zero i j low apart high = absurd (omega (arith, low, apart, high))
Elem-pairs start (suc count) i j low apart high = elim (Bool-cases (start == i)) [
  | inl e ↦
      (let here : start ≡ i = ground (arith, e) in
        Elem-append_left (pairs (start + 1) count) (
          subst
            (λ k. Elem {A = ℕ × ℕ} (k, j) (map (λ right. (start, right)) (range (start + 1) count)))
            here
            (Elem-row start (start + 1) count j (omega (arith, here, apart))
              (omega (arith, high)))))
  | inr n ↦
      Elem-append_right (map (λ right. (start, right)) (range (start + 1) count))
        (Elem-pairs (start + 1) count i j (ground (arith, n, low)) apart (omega (arith, high)))
]

-- one relation more, where there is one
abbrev Onto : Option String → (ℕ → ℕ → Type 0) → ℕ → ℕ → ℕ → ℕ → Type 0
Onto none E a b = E
Onto (some boundary) E a b = And E a b

-- the relations that the loops have met
abbrev Met : (ℕ → ℕ → Option String) → List (ℕ × ℕ) → (ℕ → ℕ → Type 0) → ℕ → ℕ → Type 0
Met relation [] E = E
Met relation (e ∷ es) E = Met relation es (Onto (relation e.0 e.1) E e.0 e.1)

join-Tells :
    (n : ℕ) (relation : ℕ → ℕ → Option String) (es : List (ℕ × ℕ)) (E : ℕ → ℕ → Type 0) (s : Sets)
    → All (λ (e : ℕ × ℕ). (e.0 < n) × (e.1 < n)) es
    → Tells n E s.parent
    → (s' : Sets) × (join n relation es s ≡ some s') × Tells n (Met relation es E) s'.parent
unfolding join
join-Tells n relation [] E s h t = (s, refl, t)
join-Tells n relation (e ∷ es) E s h t = elim (Option-cases (relation e.0 e.1)) [
  | inl apart ↦
      (let tells : Tells n (Onto (relation e.0 e.1) E e.0 e.1) s.parent = rw apart t in
        let (s', made, all) =
          join-Tells n relation es (Onto (relation e.0 e.1) E e.0 e.1) s h.1 tells in
        (s', ground (arith, apart, made), all))
  | inr (boundary, near) ↦
      (let (t', made, told) = union-Tells n E e.0 e.1 boundary s h.0.0 h.0.1 t in
        let tells : Tells n (Onto (relation e.0 e.1) E e.0 e.1) t'.parent = rw near told in
        let (s', made', all) =
          join-Tells n relation es (Onto (relation e.0 e.1) E e.0 e.1) t' h.1 tells in
        (s', ground (arith, near, made, made'), all))
]

-- What the loops have met is what they knew, or a related pair.
Met-inversion :
    (relation : ℕ → ℕ → Option String) (es : List (ℕ × ℕ)) (E : ℕ → ℕ → Type 0) (i j : ℕ)
    → Met relation es E i j
    → E i j ⊎ (Elem {A = ℕ × ℕ} (i, j) es × ((boundary : String) × (relation i j ≡ some boundary)))
Met-inversion relation [] E i j h = inl h
Met-inversion relation (e ∷ es) E i j h =
    elim (Met-inversion relation es (Onto (relation e.0 e.1) E e.0 e.1) i j h) [
      | inl before ↦ onto (relation e.0 e.1) refl before
      | inr after ↦ inr (later after.0, after.1)
    ]
  where
    onto :
        (o : Option String)
        → o ≡ relation e.0 e.1
        → Onto o E e.0 e.1 i j
        → E i j
          ⊎ (Elem {A = ℕ × ℕ} (i, j) (e ∷ es)
              × ((boundary : String) × (relation i j ≡ some boundary)))
    onto none r before = inl before
    onto (some boundary) r (inl before) = inl before
    onto (some boundary) r (inr (ia, jb)) =
        inr (rw ia (rw jb first), (boundary, rw ia (rw jb (sym r))))

Met-before :
    (relation : ℕ → ℕ → Option String) (es : List (ℕ × ℕ)) (E : ℕ → ℕ → Type 0) (i j : ℕ)
    → E i j
    → Met relation es E i j
Met-before relation [] E i j h = h
Met-before relation (e ∷ es) E i j h =
    Met-before relation es (Onto (relation e.0 e.1) E e.0 e.1) i j (onto (relation e.0 e.1))
  where
    onto : (o : Option String) → Onto o E e.0 e.1 i j
    onto none = h
    onto (some boundary) = inl h

Elem-Met :
    (relation : ℕ → ℕ → Option String) (es : List (ℕ × ℕ)) (E : ℕ → ℕ → Type 0) (e : ℕ × ℕ)
    (boundary : String)
    → Elem e es
    → relation e.0 e.1 ≡ some boundary
    → Met relation es E e.0 e.1
Elem-Met relation [] E e boundary h near = elim h [ ]
Elem-Met relation (_ ∷ es) E e boundary first near =
    Met-before relation es (Onto (relation e.0 e.1) E e.0 e.1) e.0 e.1
      (subst (λ o. Onto o E e.0 e.1 e.0 e.1) (sym near) (inr (refl, refl)))
Elem-Met relation (d ∷ es) E e boundary (later h) near =
    Elem-Met relation es (Onto (relation d.0 d.1) E d.0 d.1) e boundary h near

roots-le : (n : ℕ) (p : ℕ → ℕ) → roots n p ≤ n
roots-le zero p = omega arith
roots-le (suc n) p = ground (arith, roots-le n p)

-- Before the loops each index is alone.
alone-Tells : (n : ℕ) → Tells n (λ i j. ⊥) (λ i. i)
alone-Tells n = record {
  root = λ i. i;
  depth = λ i. 0;
  forest = record {
    inside = λ i h. h;
    descends = λ i h. ground (arith, h);
    same_root = λ i. refl;
    at_root = λ i. refl;
    at_zero = λ i. refl;
    is_root = λ i h. refl;
    within = λ i h. h;
    shallow = λ i. omega (arith, roots-le n (λ i. i));
  };
  joined = λ i j h. same h;
  agrees = λ i j h. elim h [ ];
}

-- After the loops the table tells the relations of the candidates.
pub joined-Tells :
    (n : ℕ) (relation : ℕ → ℕ → Option String)
    → (s : Sets) × (join n relation (pairs 0 n) separate ≡ some s)
      × Tells n (IsRelated n relation) s.parent
joined-Tells n relation =
    let inside =
      Elem-All (λ (e : ℕ × ℕ). (e.0 < n) × (e.1 < n)) (pairs 0 n)
        (λ e h. let (a, b, c) = pairs-Elem 0 n e h in (omega (arith, b, c), omega (arith, c))) in
    let (s', made, t) =
      join-Tells n relation (pairs 0 n) (λ i j. ⊥) separate inside (alone-Tells n) in
    (
      s',
      made,
      record {
        root = t.root;
        depth = t.depth;
        forest = t.forest;
        joined = λ i j h.
            Chain-map (Met relation (pairs 0 n) (λ i j. ⊥)) (IsRelated n relation) met
              (t.joined i j h);
        agrees = λ i j h. t.agrees i j (
            Elem-Met relation (pairs 0 n) (λ i j. ⊥) (i, j) h.2.0
              (Elem-pairs 0 n i j (omega arith) h.0 (omega (arith, h.1))) h.2.1);
      },
    )
  where
    met : (i j : ℕ) → Met relation (pairs 0 n) (λ i j. ⊥) i j → IsRelated n relation i j
    met i j h = elim (Met-inversion relation (pairs 0 n) (λ i j. ⊥) i j h) [
      | inl never ↦ absurd never
      | inr (e, near) ↦ (let (a, b, c) = pairs-Elem 0 n (i, j) e in (b, omega (arith, c), near))
    ]
