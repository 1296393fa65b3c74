-- ===== src/Observing/Store.antt =====
-- `Observation` and `ObservationStore` (src/lumi_eggcracker/observation.py). An identity is a text,
-- and evidence is a list of texts that is read by membership.
use lumi_eggcracker.Base.{
  ℕ, ◌-◌, String, not, Option, none, some, List, [], ◌∷◌, ◌++◌, ltb, if◌then◌else◌, str_eq, elem,
  filter, length,
}
use lumi_eggcracker.Base.Dict.{Dict, lookup, insert}

abbrev pub max_observations : ℕ
max_observations = 4096

-- MAX_AGE_NS
abbrev pub max_age : ℕ
max_age = 10000000000

pub record Observation : Type 0 where
  pub evidence : List String
  pub first_seen : ℕ
  pub last_seen : ℕ

abbrev pub ObservationStore : Type 0
ObservationStore = Dict Observation

-- `expire`; a reading before `last_seen` expires nothing
unfoldable pub expire : ℕ → ObservationStore → ObservationStore
expire now [] = []
expire now (e ∷ store) =
    let rest = expire now store in if ltb max_age (now - e.1.last_seen) then rest else e ∷ rest

-- `a | b`
abbrev pub union : List String → List String → List String
union a b = a ++ filter (λ x. not (elem x a)) b

unfoldable pub renewed : Option Observation → List String → ℕ → Observation
renewed none evidence now = record { evidence = evidence; first_seen = now; last_seen = now }
renewed (some previous) evidence now = record {
  evidence = union evidence previous.evidence;
  first_seen = previous.first_seen;
  last_seen = now;
}

-- `min(values, key=last_seen)`, the first of the least
unfoldable pub oldest_of : String → ℕ → ObservationStore → String
oldest_of key seen [] = key
oldest_of key seen (e ∷ store) =
    let kept = oldest_of key seen store in
    let taken = oldest_of e.0 e.1.last_seen store in if ltb e.1.last_seen seen then taken else kept

unfoldable pub oldest : ObservationStore → Option String
unfolding oldest_of
oldest [] = none
oldest (e ∷ store) = some (oldest_of e.0 e.1.last_seen store)

-- `pop(key, None)`
unfoldable pub pop : String → ObservationStore → ObservationStore
pop key [] = []
pop key (e ∷ store) = let rest = pop key store in if str_eq key e.0 then store else e ∷ rest

-- the bound at the end of `observe`
unfoldable pub trim : String → ObservationStore → ObservationStore
unfolding oldest pop
trim identity store =
    if ltb max_observations (length store)
    then elim (oldest store) [
      | none ↦ store
      | some key ↦ (if str_eq key identity then store else pop key store)
    ]
    else store

unfoldable pub observe :
    String → List String → ℕ → ObservationStore → ObservationStore × Observation
unfolding expire renewed trim
observe identity evidence now store =
    let live = expire now store in
    let value = renewed (lookup identity live) evidence now in
    (trim identity (insert identity value live), value)

-- `get`, with the store it leaves
unfoldable pub get : String → ℕ → ObservationStore → ObservationStore × Option Observation
unfolding expire
get identity now store = let live = expire now store in (live, lookup identity live)

abbrev pub keys_of : ObservationStore → List String
keys_of [] = []
keys_of (e ∷ store) = e.0 ∷ keys_of store

-- `identities`
unfoldable pub identities : ℕ → ObservationStore → ObservationStore × List String
unfolding expire
identities now store = let live = expire now store in (live, keys_of live)
