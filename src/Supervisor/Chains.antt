-- ===== src/Supervisor/Chains.antt =====
-- What the table of parents says after the two loops: indexes have one root exactly where a chain of
-- relations joins them (src/lumi_eggcracker/supervisor.py, lines 923-934).
use lumi_eggcracker.Base.{
  ◌⊎◌, ℕ, ◌+◌, ◌<◌, ◌≡◌, refl, sym, ◌∙◌, arith, true, false, Bool-cases, inl, inr, some, ◌==◌,
  if◌then◌else◌, String,
}
use mathlib.Core.Path.{subst}
use lumi_eggcracker.Supervisor.Sets.{Sets, attach, union}
use lumi_eggcracker.Supervisor.Forest.{IsForest, search-Found, attached-IsForest}

-- A chain of relations, each read either way.
pub data Chain (E : ℕ → ℕ → Type 0) : ℕ → ℕ → Type 0 where
  same : {i j : ℕ} → i ≡ j → Chain E i j
  edge : {i j : ℕ} → E i j → Chain E i j
  back : {i j : ℕ} → Chain E i j → Chain E j i
  link : {i j k : ℕ} → Chain E i j → Chain E j k → Chain E i k

pub Chain-map :
    (E F : ℕ → ℕ → Type 0) → ((i j : ℕ) → E i j → F i j) → {i j : ℕ} → Chain E i j → Chain F i j
Chain-map E F h (same e) = same e
Chain-map E F h (edge e) = edge (h _ _ e)
Chain-map E F h (back c) = back (Chain-map E F h c)
Chain-map E F h (link c d) = link (Chain-map E F h c) (Chain-map E F h d)

-- A labelling that agrees along each relation agrees along a chain.
pub Chain-same :
    (E : ℕ → ℕ → Type 0) (root : ℕ → ℕ)
    → ((i j : ℕ) → E i j → root i ≡ root j)
    → {i j : ℕ} → Chain E i j
    → root i ≡ root j
Chain-same E root h {i} {j} (same e) = rw e refl
Chain-same E root h (edge e) = h _ _ e
Chain-same E root h (back c) = sym (Chain-same E root h c)
Chain-same E root h (link c d) = Chain-same E root h c ∙ Chain-same E root h d

-- The table is a forest whose roots tell the chains of `E`.
pub record Tells (n : ℕ) (E : ℕ → ℕ → Type 0) (p : ℕ → ℕ) : Type 0 where
  pub root : ℕ → ℕ
  pub depth : ℕ → ℕ
  pub forest : IsForest n p root depth
  pub joined : (i j : ℕ) → root i ≡ root j → Chain E i j
  pub agrees : (i j : ℕ) → E i j → root i ≡ root j

-- one relation more
abbrev pub And : (ℕ → ℕ → Type 0) → ℕ → ℕ → ℕ → ℕ → Type 0
And E a b i j = E i j ⊎ ((i ≡ a) × (j ≡ b))

module _ (n : ℕ) (E : ℕ → ℕ → Type 0) (a b : ℕ) (low : a < n) (high : b < n) where
  wider : {i j : ℕ} → Chain E i j → Chain (And E a b) i j
  wider = Chain-map E (And E a b) (λ i j e. inl e)

  across : Chain (And E a b) a b
  across = edge (inr (refl, refl))

  module _ (p : ℕ → ℕ) (t : Tells n E p) where
    -- what the roots are when the root of `b` is put below that of `a`
    abbrev moved : ℕ → ℕ
    moved i = if t.root i == t.root b then t.root a else t.root i

    moved-Chain :
        (apart : (t.root a == t.root b) ≡ false) (i j : ℕ)
        → moved i ≡ moved j
        → Chain (And E a b) i j
    moved-Chain apart i j h = elim (Bool-cases (t.root i == t.root b)) [
      | inl ib ↦ elim (Bool-cases (t.root j == t.root b)) [
        | inl jb ↦ wider (t.joined i j (ground (arith, ib, jb)))
        | inr jn ↦
            link (wider (t.joined i b (ground (arith, ib))))
              (link (back across) (wider (t.joined a j (ground (arith, ib, jn, h)))))
      ]
      | inr in' ↦ elim (Bool-cases (t.root j == t.root b)) [
        | inl jb ↦
            link (wider (t.joined i a (ground (arith, in', jb, h))))
              (link across (wider (t.joined b j (ground (arith, jb)))))
        | inr jn ↦ wider (t.joined i j (ground (arith, in', jn, h)))
      ]
    ]

    moved-agrees : (i j : ℕ) → And E a b i j → moved i ≡ moved j
    moved-agrees i j (inl e) = ground (arith, t.agrees i j e)
    moved-agrees i j (inr (ia, jb)) = rw ia (rw jb (ground arith))

-- The table of a set after a union tells one relation more; its searches end.
pub union-Tells :
    (n : ℕ) (E : ℕ → ℕ → Type 0) (a b : ℕ) (boundary : String) (s : Sets)
    → a < n
    → b < n
    → Tells n E s.parent
    → (s' : Sets) × (union n a b boundary s ≡ some s') × Tells n (And E a b) s'.parent
unfolding union attach
union-Tells n E a b boundary s low high t =
    let one = search-Found n s.parent t.root t.depth a t.forest low in
    let two = search-Found n one.table t.root t.depth b one.forest high in
    elim (Bool-cases (t.root a == t.root b)) [
      | inl e ↦ (
        record s { parent = two.table },
        ground (arith, e, one.answer, two.answer),
        record {
          root = t.root;
          depth = t.depth;
          forest = two.forest;
          joined = λ i j h. wider n E a b low high (t.joined i j h);
          agrees = λ i j e'. same_roots t e i j e';
        },
      )
      | inr apart ↦ (
        attach (t.root a) (t.root b) two.table boundary s,
        ground (arith, apart, one.answer, two.answer),
        record {
          root = moved n E a b low high s.parent t;
          depth = λ i. if t.root i == t.root b then t.depth i + 1 else t.depth i;
          forest =
              subst
                (λ q.
                  IsForest n q (moved n E a b low high s.parent t)
                    (λ i. if t.root i == t.root b then t.depth i + 1 else t.depth i))
                (rw apart refl)
                (attached-IsForest n two.table t.root t.depth two.forest (t.root a) (t.root b)
                  (t.forest.within a low) (t.forest.within b high) (two.forest.at_root a)
                  (two.forest.at_root b) apart);
          joined = moved-Chain n E a b low high s.parent t apart;
          agrees = moved-agrees n E a b low high s.parent t;
        },
      )
    ]
  where
    same_roots :
        (t : Tells n E s.parent)
        → (t.root a == t.root b) ≡ true
        → (i j : ℕ) → And E a b i j
        → t.root i ≡ t.root j
    same_roots t e i j (inl h) = t.agrees i j h
    same_roots t e i j (inr (ia, jb)) = rw ia (rw jb (ground (arith, e)))
