-- ===== src/Base/Members.antt =====
-- Members of lists, and predicates on them.
use mathlib.Core.Logic.{◌⊎◌, inl, inr}
use mathlib.Core.List.{List, [], ◌∷◌, ◌++◌}
use lumi_eggcracker.Base.Lists.{Elem, first, later, All}

module _ {ℓ} {A : Type ℓ} where
  pub Elem-append : (x : A) (xs ys : List A) → Elem x (xs ++ ys) → Elem x xs ⊎ Elem x ys
  Elem-append x [] ys e = inr e
  Elem-append x (y ∷ xs) ys first = inl first
  Elem-append x (y ∷ xs) ys (later e) = elim (Elem-append x xs ys e) [
    | inl l ↦ inl (later l)
    | inr r ↦ inr r
  ]

  pub Elem-append_left : {x : A} {xs : List A} (ys : List A) → Elem x xs → Elem x (xs ++ ys)
  Elem-append_left ys first = first
  Elem-append_left ys (later e) = later (Elem-append_left ys e)

  pub Elem-append_right : {x : A} (xs : List A) {ys : List A} → Elem x ys → Elem x (xs ++ ys)
  Elem-append_right [] e = e
  Elem-append_right (y ∷ xs) e = later (Elem-append_right xs e)

  -- What holds of each member holds of all.
  pub Elem-All {κ} : (P : A → Type κ) (xs : List A) → ((x : A) → Elem x xs → P x) → All P xs
  Elem-All P [] h = tt
  Elem-All P (x ∷ xs) h = (h x first, Elem-All P xs (λ y e. h y (later e)))

  pub All-append {κ} : (P : A → Type κ) (xs ys : List A) → All P xs → All P ys → All P (xs ++ ys)
  All-append P [] ys h k = k
  All-append P (x ∷ xs) ys h k = (h.0, All-append P xs ys h.1 k)
