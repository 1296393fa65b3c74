-- ===== src/Observing/Window.antt =====
-- `fair_window` (src/lumi_eggcracker/procfd.py, lines 22-53), which bounds the reads of one turn.
use lumi_eggcracker.Base.{
  ℕ, zero, suc, ◌+◌, ◌-◌, ◌/◌, ◌%◌, List, [], ◌∷◌, ◌++◌, ltb, leb, if◌then◌else◌, length, Result,
  ok, err,
}

-- `values[k::step]`
unfoldable pub every {ℓ} : {A : Type ℓ} → ℕ → ℕ → List A → List A
every step k [] = []
every step zero (x ∷ xs) = x ∷ every step (step - 1) xs
every step (suc k) (x ∷ xs) = every step k xs

-- `(count + limit - 1) // limit`
unfoldable pub stripes : ℕ → ℕ → ℕ
stripes count limit = (count + limit - 1) / limit

unfoldable pub stripe {ℓ} : {A : Type ℓ} → List A → ℕ → ℕ → List A
unfolding every stripes
stripe values generation limit =
    every (stripes (length values) limit) (generation % stripes (length values) limit) values

-- `values[1:-1]` of a list that has a first element, by what follows it
abbrev pub interior {ℓ} : {A : Type ℓ} → List A → List A
interior [] = []
interior (x ∷ []) = []
interior (x ∷ y ∷ xs) = x ∷ interior (y ∷ xs)

-- `values[-1:]`
abbrev pub last {ℓ} : {A : Type ℓ} → List A → List A
last [] = []
last (x ∷ []) = x ∷ []
last (x ∷ y ∷ xs) = last (y ∷ xs)

-- the first element, a stripe of the interior, and the last element
unfoldable pub edges {ℓ} : {A : Type ℓ} → List A → ℕ → ℕ → List A
unfolding stripe
edges [] generation limit = []
edges (x ∷ xs) generation limit = x ∷ stripe (interior xs) generation limit ++ last xs

-- a cursor of a type other than `int` does not arise
unfoldable pub fair_window {ℓ} : {A : Type ℓ} → List A → ℕ → ℕ → Result (List A)
unfolding stripe edges
fair_window values start_index max_probes =
    if ltb max_probes 1
    then err "descriptor window probe limit is invalid"
    else if leb (length values) max_probes
    then ok values
    else if ltb max_probes 4
    then ok (stripe values (start_index / max_probes) max_probes)
    else ok (edges values (start_index / max_probes) (max_probes - 2))
