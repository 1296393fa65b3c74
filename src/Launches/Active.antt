-- ===== src/Launches/Active.antt =====
-- What keeps a launch approved (src/lumi_eggcracker/launches.py, lines 152-190).
use lumi_eggcracker.Base.{
  ℕ, ◌+◌, ◌≡◌, ◌≢◌, refl, true, false, Option, none, some, List, [], ◌∷◌, ◌++◌, if◌then◌else◌,
  arith, Option-cases, inl, inr, ◌⊎◌, All,
}
use lumi_eggcracker.Launches.Provenance.{
  Material, Provenance, same_material, count_matches, approval_is_active,
}

-- An approval that is not of the launch's generation.
abbrev pub OtherGeneration : Material → Option Material → Type 0
OtherGeneration p none = Unit
OtherGeneration p (some a) = a.created_monotonic_ns ≢ p.created_monotonic_ns

count-other :
    (p : Material) (approvals : List (Option Material))
    → All (OtherGeneration p) approvals
    → (count_matches p approvals ≡ none) ⊎ (count_matches p approvals ≡ some 0)
unfolding count_matches same_material
count-other p [] h = inr refl
count-other p (none ∷ rest) h = inl refl
count-other p (some a ∷ rest) (other, h) = elim (count-other p rest h) [
  | inl e ↦ inl (ground (arith, e))
  | inr e ↦ inr (ground (arith, e, other))
]

-- counting over two parts of the list
count-append :
    (p : Material) (before after : List (Option Material)) (n : ℕ)
    → count_matches p (before ++ after) ≡ some n
    → (m : ℕ) × (k : ℕ) × (count_matches p before ≡ some m)
      × (count_matches p after ≡ some k)
      × (m + k ≡ n)
unfolding count_matches
count-append p [] after n h = (0, n, refl, h, omega arith)
count-append p (none ∷ before) after n h = cc
count-append p (some a ∷ before) after n h =
    elim (Option-cases (count_matches p (before ++ after))) [
      | inl e ↦ absurd (ground (arith, e, h))
      | inr (r, e) ↦
          (let (m, k, em, ek, sum) = count-append p before after r e in
            (
              (if same_material a p then m + 1 else m),
              k,
              ground (arith, em),
              ek,
              ground (arith, e, h, sum),
            ))
    ]

-- Without an approval of the launch's own generation, whatever else is on file, the launch is not
-- active: a replacement of the same name does not revive it.
pub stale-approval :
    (p : Provenance) (approvals : List (Option Material))
    → All (OtherGeneration p.material) approvals
    → approval_is_active p approvals ≡ false
unfolding approval_is_active
stale-approval p approvals h = elim (count-other p.material approvals h) [
  | inl e ↦ ground (arith, e)
  | inr e ↦ ground (arith, e)
]

count-joined :
    (p : Material) (before after : List (Option Material)) (m k : ℕ)
    → count_matches p before ≡ some m
    → count_matches p after ≡ some k
    → count_matches p (before ++ after) ≡ some (m + k)
unfolding count_matches
count-joined p [] after m k em ek = ground (arith, em, ek)
count-joined p (none ∷ before) after m k em ek = cc
count-joined p (some a ∷ before) after m k em ek = elim (Option-cases (count_matches p before)) [
  | inl e ↦ absurd (ground (arith, e, em))
  | inr (r, e) ↦ ground (arith, e, em, count-joined p before after r k e ek)
]

-- Revoking the matching approval of an active launch, by removing it from the file, makes the launch
-- inactive.
pub revoked-approval :
    (p : Provenance) (before after : List (Option Material)) (a : Material)
    → approval_is_active p (before ++ some a ∷ after) ≡ true
    → same_material a p.material ≡ true
    → approval_is_active p (before ++ after) ≡ false
unfolding approval_is_active
revoked-approval p before after a h same =
    elim (Option-cases (count_matches p.material (before ++ some a ∷ after))) [
      | inl e ↦ absurd (ground (arith, e, h))
      | inr (n, e) ↦
          (let one : n ≡ 1 = ground (arith, e, h) in
            let (m, k, em, ek, sum) = count-append p.material before (some a ∷ after) n e in
            elim (Option-cases (count_matches p.material after)) [
              | inl broken ↦ absurd (ground (arith, broken, ek))
              | inr (r, counted) ↦
                  (let both : k ≡ r + 1 = ground (arith, counted, ek, same) in
                    let joined = count-joined p.material before after m r em counted in
                    let nothing : m + r ≡ 0 = omega (arith, both, sum, one) in
                    ground (arith, joined, nothing))
            ])
    ]
