-- ===== src/Detectors/Strict.antt =====
-- What a catalogue that loads asks of a match (src/lumi_eggcracker/detectors.py, lines 85-199).
use lumi_eggcracker.Base.{
  ℕ, ◌≤◌, String, ◌≡◌, true, false, ◌&&◌, Option, some, List, [], ◌∷◌, length, all, elem, str_eq,
  All, All-Elem, Elem, first, later, arith, eq_iff, Bool-cases, Option-cases, inl, inr, ◌⊎◌, ok,
  ◌>>=◌, >>=-eq-ok, Result-cases,
}
use lumi_eggcracker.Base.Dict.{Dict}
use lumi_eggcracker.Json.{Value, Fields, get, same_keys, is_the, as_str}
use lumi_eggcracker.Detectors.Catalogue.{
  Predicate, Group, Profile, Catalogue, has_group, required_groups, fast_profile, content_profile,
  profile_body, profile_of, profiles_of, predicates_of, predicate_of, groups_of, load_catalogue,
  identifier_of, dict_at, list_at,
}
use lumi_eggcracker.Detectors.Matching.{Snapshot, DetectionMatch, matches, match_catalogue}
use lumi_eggcracker.Detectors.Evidence.{Supplied, Shown, match_profiles-Shown}

-- A profile that asks for evidence of the model's content and of its runtime, or for at least one
-- fast predicate.
abbrev pub IsStrict : Profile → Type 0
IsStrict p =
    ((p.path ≡ "FAST_NAME") × (1 ≤ length p.predicates))
    ⊎ ((p.path ≡ "CONTENT") × (all (has_group p.groups) required_groups ≡ true))

length-predicates_of :
    (vs : List Value) (ps : List Predicate) → predicates_of vs ≡ ok ps → length ps ≡ length vs
unfolding predicates_of
length-predicates_of [] ps h = ground (arith, h)
length-predicates_of (v ∷ vs) ps h =
    let (p, e1, h1) = >>=-eq-ok (predicate_of v) (λ p. predicates_of vs >>= λ ps. ok (p ∷ ps)) h in
    let (qs, e2, h2) = >>=-eq-ok (predicates_of vs) (λ ps. ok (p ∷ ps)) h1 in
    ground (arith, h2, length-predicates_of vs qs e2)

fast_profile-IsStrict :
    (name : String) (fs : Fields) (p : Profile)
    → fast_profile name fs ≡ ok p
    → IsStrict p × (p.identifier ≡ name)
unfolding fast_profile
fast_profile-IsStrict name fs p h = elim (Option-cases (list_at "all" fs)) [
  | inl e ↦ absurd (ground (arith, e, h))
  | inr (vs, e) ↦ elim (Result-cases (predicates_of vs)) [
    | inr (message, failed) ↦ absurd (ground (arith, e, failed, h))
    | inl (ps, done) ↦ (
      inl (ground (arith, e, done, h), ground (arith, e, done, h, length-predicates_of vs ps)),
      ground (arith, e, done, h),
    )
  ]
]

content_profile-IsStrict :
    (name : String) (fs : Fields) (p : Profile)
    → content_profile name fs ≡ ok p
    → IsStrict p × (p.identifier ≡ name)
unfolding content_profile
content_profile-IsStrict name fs p h = elim (Option-cases (list_at "require_all_groups" fs)) [
  | inl e ↦ absurd (ground (arith, e, h))
  | inr (vs, e) ↦ elim (Result-cases (groups_of [] vs)) [
    | inr (message, failed) ↦ absurd (ground (arith, e, failed, h))
    | inl (gs, done) ↦
        (inr (ground (arith, e, done, h), ground (arith, e, done, h)), ground (arith, e, done, h))
  ]
]

profile_of-IsStrict :
    (seen : List String) (v : Value) (p : Profile)
    → profile_of seen v ≡ ok p
    → IsStrict p × (elem p.identifier seen ≡ false)
unfolding profile_of profile_body
profile_of-IsStrict seen v p h = elim (Option-cases (dict_at v)) [
  | inl e ↦ absurd (ground (arith, e, h))
  | inr (fs, e) ↦ elim (Option-cases (as_str (get "path" fs))) [
    | inl e1 ↦ absurd (ground (arith, e, e1, h))
    | inr (path, e1) ↦ elim (Result-cases (identifier_of (get "id" fs))) [
      | inr (message, e2) ↦ absurd (ground (arith, e, e1, e2, h))
      | inl (name, e2) ↦
          (let fast =
              is_the "FAST_NAME" (get "path" fs) && same_keys fs ("all" ∷ "id" ∷ "path" ∷ []) in
            let fresh : elem name seen ≡ false = ground (arith, e, e1, e2, h) in
            elim (Bool-cases fast) [
              | inl f ↦
                  (let (strict, named) =
                      fast_profile-IsStrict name fs p (ground (arith, e, e1, e2, fresh, f, h)) in
                    (strict, rw named fresh))
              | inr f ↦
                  (let (strict, named) =
                      content_profile-IsStrict name fs p (ground (arith, e, e1, e2, fresh, f, h)) in
                    (strict, rw named fresh))
            ])
    ]
  ]
]

profiles_of-IsStrict :
    (seen : List String) (vs : List Value) (ps : List Profile)
    → profiles_of seen vs ≡ ok ps
    → All IsStrict ps
unfolding profiles_of
profiles_of-IsStrict seen [] ps h = let e : [] ≡ ps = cc in rw (← e) _
profiles_of-IsStrict seen (v ∷ vs) ps h =
    let (p, e1, h1) =
      >>=-eq-ok (profile_of seen v)
        (λ p. profiles_of (p.identifier ∷ seen) vs >>= λ ps. ok (p ∷ ps)) h in
    let (qs, e2, h2) = >>=-eq-ok (profiles_of (p.identifier ∷ seen) vs) (λ ps. ok (p ∷ ps)) h1 in
    let e : p ∷ qs ≡ ps = cc in
    rw (← e)
      ((profile_of-IsStrict seen v p e1).0, profiles_of-IsStrict (p.identifier ∷ seen) vs qs e2)

load_catalogue-IsStrict :
    (digest : String) (wanted : Option String) (parsed : Option Value) (c : Catalogue)
    → load_catalogue digest wanted parsed ≡ ok c
    → All IsStrict c.profiles
unfolding load_catalogue
load_catalogue-IsStrict digest wanted parsed c h = elim (Option-cases parsed) [
  | inl e ↦ absurd (ground (arith, e, h))
  | inr (v, e) ↦ elim (Option-cases (dict_at v)) [
    | inl e1 ↦ absurd (ground (arith, e, e1, h))
    | inr (fs, e1) ↦ elim (Option-cases (list_at "profiles" fs)) [
      | inl e2 ↦ absurd (ground (arith, e, e1, e2, h))
      | inr (vs, e2) ↦ elim (Result-cases (profiles_of [] vs)) [
        | inr (message, e3) ↦ absurd (ground (arith, e, e1, e2, e3, h))
        | inl (ps, e3) ↦
            (let same : record { digest = digest; profiles = ps } ≡ c =
                ground (arith, e, e1, e2, e3, h) in
              rw (← same) (profiles_of-IsStrict [] vs ps e3))
      ]
    ]
  ]
]

has_group-Elem :
    (gs : List Group) (name : String)
    → has_group gs name ≡ true
    → (g : Group) × Elem g gs × (g.group ≡ name)
has_group-Elem [] name h = cc
has_group-Elem (g ∷ gs) name h = elim (Bool-cases (str_eq g.group name)) [
  | inl e ↦ (g, first, ground (arith, e, eq_iff g.group name))
  | inr e ↦
      (let (k, there, named) = has_group-Elem gs name (ground (arith, e, h)) in
        (k, later there, named))
]

-- What a match against a strict profile shows: for a FAST_NAME profile, that all of its predicates,
-- at least one, hold of the snapshot; for a CONTENT profile, that each of its groups has a value that
-- the group asks for and the evidence gives, where both required groups are among them.
abbrev pub Proved : (String → List ℕ) → Snapshot → Dict (List String) → Profile → Type 0
Proved lower snapshot supplied p =
    ((p.path ≡ "FAST_NAME")
      × (1 ≤ length p.predicates)
      × (all (matches lower snapshot) p.predicates ≡ true))
    ⊎ ((p.path ≡ "CONTENT")
        × All (λ g. Supplied supplied g.any_of g.group) p.groups
        × ((g : Group) × Elem g p.groups × (g.group ≡ "MODEL_CONTENT"))
        × ((g : Group) × Elem g p.groups × (g.group ≡ "MODEL_RUNTIME")))

strict-Proved :
    (lower : String → List ℕ) (snapshot : Snapshot) (supplied : Dict (List String)) (p : Profile)
    → IsStrict p
    → Shown lower snapshot supplied p
    → Proved lower snapshot supplied p
strict-Proved lower snapshot supplied p (inl (fast, n)) (inl (_, holds)) = inl (fast, n, holds)
strict-Proved lower snapshot supplied p (inl (fast, n)) (inr (other, groups)) = absurd (other fast)
strict-Proved lower snapshot supplied p (inr (content, both)) (inl (fast, holds)) =
    absurd (ground (arith, rw content at fast, eq_iff "CONTENT" "FAST_NAME"))
strict-Proved lower snapshot supplied p (inr (content, both)) (inr (other, groups)) = inr (
  content,
  groups,
  has_group-Elem p.groups "MODEL_CONTENT" (ground (arith, both)),
  has_group-Elem p.groups "MODEL_RUNTIME" (ground (arith, both)),
)

-- `match` on a catalogue that was loaded answers only with the name of one of its profiles, and only
-- where that profile's evidence is complete. For a FAST_NAME profile every one of its predicates, at
-- least one, holds of the snapshot. For a CONTENT profile every one of its groups has a value that is
-- in the group's own `any` list and that the evidence gives under the group's name, and the profile
-- has a group MODEL_CONTENT and a group MODEL_RUNTIME.
pub match_catalogue-Proved :
    (lower : String → List ℕ) (digest : String) (wanted : Option String) (parsed : Option Value)
    (c : Catalogue) (snapshot : Snapshot) (supplied : Dict (List String)) (m : DetectionMatch)
    → load_catalogue digest wanted parsed ≡ ok c
    → match_catalogue lower c snapshot supplied ≡ some m
    → (p : Profile) × Elem p c.profiles
      × (m.profile ≡ p.identifier)
      × Proved lower snapshot supplied p
unfolding match_catalogue
match_catalogue-Proved lower digest wanted parsed c snapshot supplied m loaded found =
    let (p, there, named, shown) =
      match_profiles-Shown lower snapshot supplied c.profiles m found in
    let strict =
      All-Elem IsStrict p c.profiles there
        (load_catalogue-IsStrict digest wanted parsed c loaded) in
    (p, there, named, strict-Proved lower snapshot supplied p strict shown)
