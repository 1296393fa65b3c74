-- ===== src/Detectors/Tests.antt =====
-- A catalogue with two profiles, and what it matches.
use lumi_eggcracker.Base.{String, ◌≡◌, refl, none, some, List, [], ◌∷◌, codes, Elem, ok}
use lumi_eggcracker.Base.Dict.{Dict}
use lumi_eggcracker.Json.{Value, str, arr, obj, nil, cons, end, field}
use lumi_eggcracker.Detectors.Catalogue.{
  Profile, Catalogue, load_catalogue, profiles_of, profile_of, profile_body, identifier_of,
  fast_profile, content_profile, predicates_of, predicate_of, groups_of, group_of, values_of,
  catalogue_schema,
}
use lumi_eggcracker.Detectors.Matching.{
  Snapshot, DetectionMatch, match_catalogue, match_profiles, match_profile, matches, content_ids,
  group_values, sorted, insert_sorted, unique,
}
use lumi_eggcracker.Detectors.Strict.{Proved, match_catalogue-Proved}

abbrev one : String → Value
one s = arr (cons (str s) nil)

abbrev group_dict : String → String → Value
group_dict name value = obj (field "group" (str name) (field "any" (one value) end))

abbrev sample_document : Value
sample_document = obj (
    field "profiles"
      (arr (
        cons
          (obj (
            field "id" (str "runtime.fast") (
              field "path" (str "FAST_NAME") (
                field "all"
                  (arr (
                    cons
                      (obj (field "kind" (str "exe_basename") (field "values" (one "llama") end)))
                      nil))
                  end))))
          (cons
            (obj (
              field "id" (str "model.content") (
                field "path" (str "CONTENT") (
                  field "require_all_groups"
                    (arr (
                      cons (group_dict "MODEL_CONTENT" "gguf")
                        (cons (group_dict "MODEL_RUNTIME" "ggml") nil)))
                    end))))
            nil)))
      (field "schema_version" (str catalogue_schema) end))

abbrev catalogue : Catalogue
catalogue = record {
  digest = "d";
  profiles =
      record {
        identifier = "runtime.fast";
        path = "FAST_NAME";
        predicates = record { kind = "exe_basename"; values = "llama" ∷ [] } ∷ [];
        groups = [];
      }
      ∷ record {
        identifier = "model.content";
        path = "CONTENT";
        predicates = [];
        groups =
            record { group = "MODEL_CONTENT"; any_of = "gguf" ∷ [] }
            ∷ record { group = "MODEL_RUNTIME"; any_of = "ggml" ∷ [] }
            ∷ [];
      }
      ∷ [];
}

abbrev renamed : Snapshot
renamed = record { exe_basename = "notepad"; argv = []; fd_paths = []; map_basenames = [] }

abbrev gathered : Dict (List String)
gathered = ("MODEL_CONTENT", "gguf" ∷ []) ∷ ("MODEL_RUNTIME", "ggml" ∷ "other" ∷ []) ∷ []

abbrev answer : DetectionMatch
answer = record { profile = "model.content"; path = "CONTENT"; evidence = "gguf" ∷ "ggml" ∷ [] }

loaded : load_catalogue "d" none (some sample_document) ≡ ok catalogue
unfolding load_catalogue profiles_of profile_of profile_body identifier_of fast_profile
    content_profile predicates_of predicate_of groups_of group_of values_of
loaded = refl

match_catalogue-Proved_example :
    (p : Profile) × Elem p catalogue.profiles
    × ("model.content" ≡ p.identifier)
    × Proved codes renamed gathered p
unfolding match_catalogue match_profiles match_profile matches content_ids group_values sorted
    insert_sorted unique
match_catalogue-Proved_example =
    match_catalogue-Proved codes "d" none (some sample_document) catalogue renamed gathered answer
      loaded refl
