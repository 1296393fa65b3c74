-- ===== src/Base/Dict.antt =====
-- Python's `dict` with text keys, in insertion order.
use Prim.Native.String.{String}
use Prim.Native.Nat.{ℕ, ◌+◌, ◌≤◌}
use mathlib.Core.Path.{◌≡◌, refl}
use mathlib.Core.Bool.{Bool, true, false}
use mathlib.Core.Option.{Option, none, some}
use mathlib.Core.List.{List, [], ◌∷◌}
use native.Mathlib.Omega.{arith}
use text.Mathlib.TextEquality.{eq_iff}
use text.Mathlib.TextPositions.{eq_refl}
use lumi_eggcracker.Base.Tests.{if◌then◌else◌}
use lumi_eggcracker.Base.Texts.{str_eq}
use lumi_eggcracker.Base.Lists.{length}

abbrev pub Dict {ℓ} : Type ℓ → Type ℓ
Dict V = List (String × V)

module _ {ℓ} {V : Type ℓ} where
  abbrev pub lookup : String → Dict V → Option V
  lookup k [] = none
  lookup k ((j, v) ∷ d) = if str_eq k j then some v else lookup k d

  -- `k in d`
  abbrev pub contains : String → Dict V → Bool
  contains k d = elim (lookup k d) [ none ↦ false | some _ ↦ true ]

  -- `d[k] = v`
  abbrev pub insert : String → V → Dict V → Dict V
  insert k v [] = (k, v) ∷ []
  insert k v (e ∷ d) = if str_eq k e.0 then (k, v) ∷ d else e ∷ insert k v d

  -- The keys of a dict are distinct.
  abbrev pub Distinct : Dict V → Type ℓ
  Distinct [] = Unit
  Distinct (e ∷ d) = (lookup e.0 d ≡ none) × Distinct d

  pub lookup-insert :
      (j k : String) (v : V) (d : Dict V)
      → lookup j (insert k v d) ≡ (if str_eq j k then some v else lookup j d)
  lookup-insert j k v [] = refl
  lookup-insert j k v (e ∷ d) =
      ground (arith, eq_iff j k, eq_iff k e.0, eq_iff j e.0, lookup-insert j k v d)

  pub lookup-insert_self : (k : String) (v : V) (d : Dict V) → lookup k (insert k v d) ≡ some v
  lookup-insert_self k v d = simp (lookup-insert, eq_refl)

  pub length-insert_new :
      (k : String) (v : V) (d : Dict V) → lookup k d ≡ none → length (insert k v d) ≡ length d + 1
  length-insert_new k v [] h = omega arith
  length-insert_new k v (e ∷ d) h = ground (arith, length-insert_new k v d)

  pub length-insert_old :
      (k : String) (v old : V) (d : Dict V)
      → lookup k d ≡ some old
      → length (insert k v d) ≡ length d
  length-insert_old k v old [] h = cc
  length-insert_old k v old (e ∷ d) h = ground (arith, length-insert_old k v old d)

-- A number attached to each entry, summed.
module _ {ℓ} {V : Type ℓ} (f : V → ℕ) where
  abbrev pub sum_values : Dict V → ℕ
  sum_values [] = 0
  sum_values (e ∷ d) = f e.1 + sum_values d

  pub sum_values-insert_new :
      (k : String) (v : V) (d : Dict V)
      → lookup k d ≡ none
      → sum_values (insert k v d) ≡ sum_values d + f v
  sum_values-insert_new k v [] h = omega arith
  sum_values-insert_new k v (e ∷ d) h = ground (arith, sum_values-insert_new k v d)

  pub sum_values-insert_old :
      (k : String) (v old : V) (d : Dict V)
      → lookup k d ≡ some old
      → sum_values (insert k v d) + f old ≡ sum_values d + f v
  sum_values-insert_old k v old [] h = cc
  sum_values-insert_old k v old (e ∷ d) h = ground (arith, sum_values-insert_old k v old d)

  pub value-le-sum : (k : String) (v : V) (d : Dict V) → lookup k d ≡ some v → f v ≤ sum_values d
  value-le-sum k v [] h = cc
  value-le-sum k v (e ∷ d) h = ground (arith, value-le-sum k v d)
