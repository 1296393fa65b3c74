-- ===== src/Detectors/Matching.antt =====
-- `_matches` and `match` (src/lumi_eggcracker/detectors.py, lines 158-199). `str.lower` is a
-- parameter, on code points.
use lumi_eggcracker.Base.{
  ℕ, ◌-◌, String, Bool, true, false, ◌&&◌, Option, none, some, List, [], ◌∷◌, ◌++◌, map, leb, ltb,
  ◌==◌, if◌then◌else◌, length, codes, any, filter, codes_eq, elem, str_eq, drop,
}
use lumi_eggcracker.Base.Dict.{Dict, lookup}
use lumi_eggcracker.Detectors.Catalogue.{Predicate, Group, Profile, Catalogue}

pub record Snapshot : Type 0 where
  pub exe_basename : String
  pub argv : List String
  pub fd_paths : List String
  pub map_basenames : List String

pub record DetectionMatch : Type 0 where
  pub profile : String
  pub path : String
  pub evidence : List String

-- `s.endswith(t)` on code points
abbrev pub ends_with : List ℕ → List ℕ → Bool
ends_with s t = leb (length t) (length s) && codes_eq (drop (length s - length t) s) t

-- the order of texts, which is that of their code points
abbrev pub codes_le : List ℕ → List ℕ → Bool
codes_le [] ys = true
codes_le (a ∷ xs) [] = false
codes_le (a ∷ xs) (b ∷ ys) = if a == b then codes_le xs ys else ltb a b

-- `sorted`
unfoldable pub insert_sorted : String → List String → List String
insert_sorted s [] = s ∷ []
insert_sorted s (t ∷ ts) =
    let rest = insert_sorted s ts in if codes_le (codes s) (codes t) then s ∷ t ∷ ts else t ∷ rest

unfoldable pub sorted : List String → List String
unfolding insert_sorted
sorted [] = []
sorted (s ∷ ss) = insert_sorted s (sorted ss)

-- `set(values)` as a list of its elements
unfoldable pub unique : List String → List String
unique [] = []
unique (s ∷ ss) = let rest = unique ss in if elem s ss then rest else s ∷ rest

-- `supplied.get(group, set())`
abbrev pub supplied_for : Dict (List String) → String → List String
supplied_for supplied name = elim (lookup name supplied) [ none ↦ [] | some xs ↦ xs ]

-- the values of one group that the evidence has
unfoldable pub group_values : Dict (List String) → Group → List String
unfolding sorted unique
group_values supplied g =
    sorted (filter (λ v. elem v (supplied_for supplied g.group)) (unique g.any_of))

-- the loop over the groups: `none` where it breaks
unfoldable pub content_ids : Dict (List String) → List Group → Option (List String)
unfolding group_values
content_ids supplied [] = some []
content_ids supplied (g ∷ gs) = elim (group_values supplied g) [
  | [] ↦ none
  | v ∷ vs ↦ (elim (content_ids supplied gs) [ none ↦ none | some rest ↦ some (v ∷ vs ++ rest) ])
]

module _ (lower : String → List ℕ) where
  abbrev pub has_suffix : List String → String → Bool
  has_suffix suffixes s = any (λ t. ends_with (lower s) (codes t)) suffixes

  -- `_matches`; any other kind raises, and the loader lets no other kind pass
  unfoldable pub matches : Snapshot → Predicate → Bool
  matches snapshot p =
      if str_eq p.kind "exe_basename"
      then elem snapshot.exe_basename p.values
      else if str_eq p.kind "argv_token"
      then any (λ t. elem t p.values) snapshot.argv
      else if str_eq p.kind "argv_model_suffix"
      then any (has_suffix p.values) snapshot.argv
      else if str_eq p.kind "open_model_suffix"
      then any (has_suffix p.values) snapshot.fd_paths
      else if str_eq p.kind "map_basename"
      then any (λ t. elem t p.values) snapshot.map_basenames
      else false

  -- the body of the loop over the profiles
  unfoldable pub match_profile : Snapshot → Dict (List String) → Profile → Option DetectionMatch
  unfolding matches content_ids
  match_profile snapshot supplied p =
      if str_eq p.path "FAST_NAME"
      then (let matched = filter (matches snapshot) p.predicates in
          if length matched == length p.predicates
          then some (record {
            profile = p.identifier;
            path = p.path;
            evidence = map (λ (m : Predicate). m.kind) matched;
          })
          else none)
      else (elim (content_ids supplied p.groups) [
        | none ↦ none
        | some ids ↦ some (record { profile = p.identifier; path = p.path; evidence = ids })
      ])

  unfoldable pub match_profiles :
      Snapshot → Dict (List String) → List Profile → Option DetectionMatch
  unfolding match_profile
  match_profiles snapshot supplied [] = none
  match_profiles snapshot supplied (p ∷ ps) = elim (match_profile snapshot supplied p) [
    | some m ↦ some m
    | none ↦ match_profiles snapshot supplied ps
  ]

  -- `match`
  unfoldable pub match_catalogue : Catalogue → Snapshot → Dict (List String) → Option DetectionMatch
  unfolding match_profiles
  match_catalogue catalogue snapshot supplied = match_profiles snapshot supplied catalogue.profiles
