-- ===== src/Detectors/Evidence.antt =====
-- What a match shows: `match` answers only over complete evidence, and a catalogue that loads only
-- has profiles that ask for it (src/lumi_eggcracker/detectors.py, lines 85-199).
use lumi_eggcracker.Base.{
  ℕ, suc, ◌≤◌, String, ◌≡◌, ◌≢◌, refl, ap, Bool, true, some, List, [], ◌∷◌, length, all, filter,
  length-filter, elem, str_eq, All, Elem, first, later, arith, eq_iff, eq_refl, Bool-cases,
  Option-cases, inl, inr, ◌⊎◌,
}
use lumi_eggcracker.Base.Dict.{Dict}
use lumi_eggcracker.Detectors.Catalogue.{Group, Profile}
use lumi_eggcracker.Detectors.Matching.{
  Snapshot, DetectionMatch, insert_sorted, sorted, unique, supplied_for, group_values, content_ids,
  matches, match_profile, match_profiles,
}

-- A group of which the evidence has a value.
pub record Supplied (supplied : Dict (List String)) (any_of : List String) (name : String)
    : Type 0 where
  pub value : String
  pub asked : elem value any_of ≡ true
  pub given : elem value (supplied_for supplied name) ≡ true

length-insert_sorted :
    (s : String) (ts : List String) → length (insert_sorted s ts) ≡ suc (length ts)
unfolding insert_sorted
length-insert_sorted s [] = refl
length-insert_sorted s (t ∷ ts) = ground (arith, length-insert_sorted s ts)

length-sorted : (ss : List String) → length (sorted ss) ≡ length ss
unfolding sorted
length-sorted [] = refl
length-sorted (s ∷ ss) = omega (arith, length-insert_sorted s (sorted ss), length-sorted ss)

filter-all :
    {A : Type 0} (p : A → Bool) (xs : List A) → length (filter p xs) ≡ length xs → all p xs ≡ true
filter-all p [] h = refl
filter-all p (x ∷ xs) h = elim (Bool-cases (p x)) [
  | inl e ↦ ground (arith, e, h, filter-all p xs)
  | inr e ↦ absurd (ground (arith, e, h, length-filter p xs))
]

-- a value that passed a filter
filter-some :
    (q : String → Bool) (xs : List String)
    → 1 ≤ length (filter q xs)
    → (x : String) × (elem x xs ≡ true) × (q x ≡ true)
filter-some q [] h = absurd (omega arith)
filter-some q (x ∷ xs) h = elim (Bool-cases (q x)) [
  | inl e ↦ (x, ground (arith, eq_refl x), e)
  | inr e ↦
      (let (y, there, holds) = filter-some q xs (ground (arith, e, h)) in
        (y, ground (arith, there), holds))
]

unique-elem : (x : String) (xs : List String) → elem x (unique xs) ≡ true → elem x xs ≡ true
unfolding unique
unique-elem x [] h = h
unique-elem x (y ∷ ys) h = ground (arith, h, unique-elem x ys)

group-Supplied :
    (supplied : Dict (List String)) (g : Group) (v : String) (vs : List String)
    → group_values supplied g ≡ v ∷ vs
    → Supplied supplied g.any_of g.group
unfolding group_values
group-Supplied supplied g v vs h =
    let q = λ (v : String). elem v (supplied_for supplied g.group) in
    let n : 1 ≤ length (filter q (unique g.any_of)) =
      omega (arith, length-sorted (filter q (unique g.any_of)), ap length h) in
    let (x, there, given) = filter-some q (unique g.any_of) n in
    record { value = x; asked = unique-elem x g.any_of there; given = given }

List-cases : {A : Type 0} (xs : List A) → (xs ≡ []) ⊎ ((y : A) × (ys : List A) × (xs ≡ y ∷ ys))
List-cases [] = inl refl
List-cases (x ∷ xs) = inr (x, xs, refl)

-- every group of a content profile that matches has evidence
content-Supplied :
    (supplied : Dict (List String)) (gs : List Group) (ids : List String)
    → content_ids supplied gs ≡ some ids
    → All (λ g. Supplied supplied g.any_of g.group) gs
unfolding content_ids
content-Supplied supplied [] ids h = _
content-Supplied supplied (g ∷ gs) ids h = elim (List-cases (group_values supplied g)) [
  | inl e ↦ absurd (ground (arith, e, h))
  | inr (v, vs, e) ↦ elim (Option-cases (content_ids supplied gs)) [
    | inl broken ↦ absurd (ground (arith, e, broken, h))
    | inr (rest, found) ↦
        (group-Supplied supplied g v vs e, content-Supplied supplied gs rest found)
  ]
]

-- What a matching profile has: for a FAST_NAME profile every predicate holds of the snapshot, for
-- another every group has evidence.
abbrev pub Shown : (String → List ℕ) → Snapshot → Dict (List String) → Profile → Type 0
Shown lower snapshot supplied p =
    ((p.path ≡ "FAST_NAME") × (all (matches lower snapshot) p.predicates ≡ true))
    ⊎ ((p.path ≢ "FAST_NAME") × All (λ g. Supplied supplied g.any_of g.group) p.groups)

module _ (lower : String → List ℕ) (snapshot : Snapshot) (supplied : Dict (List String)) where
  match_profile-Shown :
      (p : Profile) (m : DetectionMatch)
      → match_profile lower snapshot supplied p ≡ some m
      → (m.profile ≡ p.identifier) × Shown lower snapshot supplied p
  unfolding match_profile
  match_profile-Shown p m h = elim (Bool-cases (str_eq p.path "FAST_NAME")) [
    | inl fast ↦ (
      ground (arith, fast, h),
      inl (
        ground (arith, fast, eq_iff p.path "FAST_NAME"),
        filter-all (matches lower snapshot) p.predicates (ground (arith, fast, h)),
      ),
    )
    | inr content ↦ elim (Option-cases (content_ids supplied p.groups)) [
      | inl broken ↦ absurd (ground (arith, content, broken, h))
      | inr (ids, found) ↦ (
        ground (arith, content, found, h),
        inr (
          ground (arith, content, eq_iff p.path "FAST_NAME"),
          content-Supplied supplied p.groups ids found,
        ),
      )
    ]
  ]

  pub match_profiles-Shown :
      (ps : List Profile) (m : DetectionMatch)
      → match_profiles lower snapshot supplied ps ≡ some m
      → (p : Profile) × Elem p ps × (m.profile ≡ p.identifier) × Shown lower snapshot supplied p
  unfolding match_profiles
  match_profiles-Shown [] m h = cc
  match_profiles-Shown (p ∷ ps) m h =
      elim (Option-cases (match_profile lower snapshot supplied p)) [
        | inl missed ↦
            (let (q, there, named, shown) = match_profiles-Shown ps m (ground (arith, missed, h)) in
              (q, later there, named, shown))
        | inr (n, found) ↦
            (let same : n ≡ m = ground (arith, found, h) in
              let (named, shown) = match_profile-Shown p m (rw same at found) in
              (p, first, named, shown))
      ]
