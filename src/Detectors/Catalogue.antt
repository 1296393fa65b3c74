-- ===== src/Detectors/Catalogue.antt =====
-- `load_catalogue` (src/lumi_eggcracker/detectors.py, lines 14-48 and 67-151), from the parsed
-- document on. The digest and the parsed value are the answers of hashlib and json.
use lumi_eggcracker.Base.{
  ℕ, String, Bool, true, false, not, ◌&&◌, ◌||◌, Option, none, some, List, [], ◌∷◌, leb, ltb, ◌==◌,
  if◌then◌else◌, length, codes, all, elem, str_eq, is_digit, hex_text, Result, ok, err, ◌>>=◌, ◌>>◌,
  require, or_raise,
}
use lumi_eggcracker.Json.{Value, arr, obj, Fields, get, same_keys, is_the, as_str, items}

abbrev pub catalogue_schema : String
catalogue_schema = "lumi-eggcracker.detectors.v3"

abbrev pub kinds : List String
kinds =
    "exe_basename" ∷ "argv_token" ∷ "argv_model_suffix" ∷ "open_model_suffix" ∷ "map_basename" ∷ []

abbrev pub required_groups : List String
required_groups = "MODEL_CONTENT" ∷ "MODEL_RUNTIME" ∷ []

-- `GROUPS`
abbrev pub all_groups : List String
all_groups = "MODEL_CONTENT" ∷ "MODEL_RUNTIME" ∷ "MODEL_TOPOLOGY" ∷ []

pub record Predicate : Type 0 where
  pub kind : String
  pub values : List String

pub record Group : Type 0 where
  pub group : String
  pub any_of : List String

pub record Profile : Type 0 where
  pub identifier : String
  pub path : String
  pub predicates : List Predicate
  pub groups : List Group

pub record Catalogue : Type 0 where
  pub digest : String
  pub profiles : List Profile

abbrev pub is_lower : ℕ → Bool
is_lower c = leb b'a' c && leb c b'z'

abbrev pub identifier_code : ℕ → Bool
identifier_code c = is_lower c || is_digit c || c == b'.' || c == b'-'

abbrev pub identifier_codes : List ℕ → Bool
identifier_codes [] = false
identifier_codes (c ∷ cs) = is_lower c && all identifier_code cs && leb (length cs) 63

-- `_identifier`
unfoldable pub identifier_of : Option Value → Result String
identifier_of v = do
  s ← or_raise (as_str v) "detector profile identity is invalid"
  require (identifier_codes (codes s)) "detector profile identity is invalid"
  ok s

abbrev pub list_at : String → Fields → Option (List Value)
list_at k fs = elim (get k fs) [ some (arr vs) ↦ some (items vs) | _ ↦ none ]

abbrev pub dict_at : Value → Option Fields
dict_at (obj fs) = some fs
dict_at _ = none

abbrev pub sized_text : Value → Option String
sized_text v = elim (as_str (some v)) [
  | none ↦ none
  | some s ↦ (if leb 1 (length (codes s)) && leb (length (codes s)) 128 then some s else none)
]

abbrev pub sized_texts : List Value → Option (List String)
sized_texts [] = some []
sized_texts (v ∷ vs) = elim (sized_text v) [
  | none ↦ none
  | some s ↦ (elim (sized_texts vs) [ none ↦ none | some ss ↦ some (s ∷ ss) ])
]

-- `len(set(value)) == len(value)`
abbrev pub distinct : List String → Bool
distinct [] = true
distinct (s ∷ ss) = not (elem s ss) && distinct ss

-- `_values`
unfoldable pub values_of : Option (List Value) → Result (List String)
values_of v = do
  vs ← or_raise v "detector evidence values are invalid"
  ss ← or_raise (sized_texts vs) "detector evidence values are invalid"
  require (ltb 0 (length ss)) "detector evidence values are invalid"
  require (distinct ss) "detector evidence values are duplicated"
  ok ss

abbrev pub text_at : String → Fields → String
text_at k fs = elim (as_str (get k fs)) [ none ↦ "" | some s ↦ s ]

-- one turn of the loop over `item["all"]`
unfoldable pub predicate_of : Value → Result Predicate
unfolding values_of
predicate_of v = do
  fs ← or_raise (dict_at v) "detector predicate schema is invalid"
  require (same_keys fs ("kind" ∷ "values" ∷ []) && elem (text_at "kind" fs) kinds)
      "detector predicate schema is invalid"
  ss ← values_of (list_at "values" fs)
  ok (record { kind = text_at "kind" fs; values = ss })

unfoldable pub predicates_of : List Value → Result (List Predicate)
unfolding predicate_of
predicates_of [] = ok []
predicates_of (v ∷ vs) = do p ← predicate_of v; ps ← predicates_of vs; ok (p ∷ ps)

-- one turn of the loop over `raw_groups`, with the groups that are present
unfoldable pub group_of : List String → Value → Result Group
unfolding values_of
group_of present v = do
  fs ← or_raise (dict_at v) "content evidence group is invalid"
  require
      (same_keys fs ("any" ∷ "group" ∷ [])
        && elem (text_at "group" fs) all_groups
        && not (elem (text_at "group" fs) present))
      "content evidence group is invalid"
  ss ← values_of (list_at "any" fs)
  ok (record { group = text_at "group" fs; any_of = ss })

unfoldable pub groups_of : List String → List Value → Result (List Group)
unfolding group_of
groups_of present [] = ok []
groups_of present (v ∷ vs) = do
  g ← group_of present v
  gs ← groups_of (g.group ∷ present) vs
  ok (g ∷ gs)

abbrev pub has_group : List Group → String → Bool
has_group [] name = false
has_group (g ∷ gs) name = str_eq g.group name || has_group gs name

unfoldable pub fast_profile : String → Fields → Result Profile
unfolding predicates_of
fast_profile identifier fs = do
  vs ← or_raise (list_at "all" fs) "detector profile predicates are invalid"
  require (ltb 0 (length vs)) "detector profile predicates are invalid"
  ps ← predicates_of vs
  ok (record { identifier = identifier; path = "FAST_NAME"; predicates = ps; groups = [] })

unfoldable pub content_profile : String → Fields → Result Profile
unfolding groups_of
content_profile identifier fs = do
  vs ←
      or_raise (list_at "require_all_groups" fs)
        "content profile requires independent evidence groups"
  require (leb 2 (length vs)) "content profile requires independent evidence groups"
  gs ← groups_of [] vs
  require (all (has_group gs) required_groups)
      "content profile must require model and runtime evidence"
  ok (record { identifier = identifier; path = "CONTENT"; predicates = []; groups = gs })

-- the profile of an item, by its path
unfoldable pub profile_body : String → Fields → Result Profile
unfolding fast_profile content_profile
profile_body identifier fs =
    if is_the "FAST_NAME" (get "path" fs) && same_keys fs ("all" ∷ "id" ∷ "path" ∷ [])
    then fast_profile identifier fs
    else if is_the "CONTENT" (get "path" fs)
        && same_keys fs ("id" ∷ "path" ∷ "require_all_groups" ∷ [])
    then content_profile identifier fs
    else err "detector profile schema is invalid"

-- one turn of the loop over `raw_profiles`, with the identifiers that were seen
unfoldable pub profile_of : List String → Value → Result Profile
unfolding identifier_of profile_body
profile_of seen v = do
  fs ← or_raise (dict_at v) "detector profile schema is invalid"
  path ← or_raise (as_str (get "path" fs)) "detector profile schema is invalid"
  identifier ← identifier_of (get "id" fs)
  require (not (elem identifier seen)) "detector profile identity is duplicated"
  profile_body identifier fs

unfoldable pub profiles_of : List String → List Value → Result (List Profile)
unfolding profile_of
profiles_of seen [] = ok []
profiles_of seen (v ∷ vs) = do
  p ← profile_of seen v
  ps ← profiles_of (p.identifier ∷ seen) vs
  ok (p ∷ ps)

-- `digest` matches the digest that was asked for
abbrev pub expected : Option String → String → Bool
expected none digest = true
expected (some wanted) digest = hex_text 64 wanted && str_eq digest wanted

-- `load_catalogue`
unfoldable pub load_catalogue : String → Option String → Option Value → Result Catalogue
unfolding profiles_of
load_catalogue digest wanted parsed = do
  require (expected wanted digest) "detector catalogue digest is invalid"
  v ← or_raise parsed "detector catalogue is invalid"
  fs ← or_raise (dict_at v) "detector catalogue schema is invalid"
  require
      (same_keys fs ("profiles" ∷ "schema_version" ∷ [])
        && is_the catalogue_schema (get "schema_version" fs))
      "detector catalogue schema is invalid"
  vs ← or_raise (list_at "profiles" fs) "detector catalogue profiles are invalid"
  require (ltb 0 (length vs)) "detector catalogue profiles are invalid"
  ps ← profiles_of [] vs
  ok (record { digest = digest; profiles = ps })
