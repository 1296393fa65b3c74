-- ===== src/Incidents/Age.antt =====
-- The order of incidents by age, as `sorted` gives it (src/lumi_eggcracker/incidents.py, lines
-- 332-335).
use lumi_eggcracker.Base.{
  ℕ, ◌≤◌, zero, suc, ◌≡◌, ◌⊎◌, refl, sym, ap, ◌∙◌, arith, Bool, true, false, List, [], ◌∷◌, length,
  take, drop, filter, codes, Bool-cases, inl, inr, if◌then◌else◌, ==_iff, Elem, first, later, All,
  All-Elem,
}
use mathlib.Core.Path.{subst}
use lumi_eggcracker.Detectors.Matching.{codes_le}
use lumi_eggcracker.Json.{Fields}
use lumi_eggcracker.Incidents.Store.{not_after, insert_by_age, sorted_by_age}
use lumi_eggcracker.Incidents.Loading.{id_of, Elem-cons}

codes_le_total : (a b : List ℕ) → codes_le a b ≡ false → codes_le b a ≡ true
codes_le_total [] b h = cc
codes_le_total (x ∷ a) [] h = refl
codes_le_total (x ∷ a) (y ∷ b) h = ground (arith, h, codes_le_total a b, ==_iff x y, ==_iff y x)

codes_le_trans : (a b c : List ℕ) → codes_le a b ≡ true → codes_le b c ≡ true → codes_le a c ≡ true
codes_le_trans [] b c h k = refl
codes_le_trans (x ∷ a) [] c h k = cc
codes_le_trans (x ∷ a) (y ∷ b) [] h k = cc
codes_le_trans (x ∷ a) (y ∷ b) (z ∷ c) h k = ground (arith, h, k, codes_le_trans a b c)

-- The order by age is total and transitive.
not_after_total : (a b : Fields) → not_after a b ≡ false → not_after b a ≡ true
unfolding not_after
not_after_total a b h = ground (arith, h, codes_le_total (codes (id_of a)) (codes (id_of b)))

not_after_trans :
    (a b c : Fields) → not_after a b ≡ true → not_after b c ≡ true → not_after a c ≡ true
unfolding not_after
not_after_trans a b c h k =
    ground (arith, h, k, codes_le_trans (codes (id_of a)) (codes (id_of b)) (codes (id_of c)))

abbrev pub AllAfter : Fields → List Fields → Type 0
AllAfter v ws = All (λ (w : Fields). not_after v w ≡ true) ws

abbrev pub Sorted : List Fields → Type 0
Sorted [] = Unit
Sorted (v ∷ vs) = AllAfter v vs × Sorted vs

AllAfter-trans :
    (u v : Fields) (ws : List Fields) → not_after u v ≡ true → AllAfter v ws → AllAfter u ws
AllAfter-trans u v [] h a = tt
AllAfter-trans u v (w ∷ ws) h a = (not_after_trans u v w h a.0, AllAfter-trans u v ws h a.1)

AllAfter-insert :
    (u v : Fields) (ws : List Fields)
    → not_after u v ≡ true
    → AllAfter u ws
    → AllAfter u (insert_by_age v ws)
unfolding insert_by_age
AllAfter-insert u v [] h a = (h, tt)
AllAfter-insert u v (w ∷ ws) h a = ground (arith, h, a, AllAfter-insert u v ws h a.1)

insert_by_age-Sorted : (v : Fields) (ws : List Fields) → Sorted ws → Sorted (insert_by_age v ws)
unfolding insert_by_age
insert_by_age-Sorted v [] h = (tt, tt)
insert_by_age-Sorted v (w ∷ ws) h = ground (
  arith,
  h,
  insert_by_age-Sorted v ws h.1,
  AllAfter-trans v w ws,
  not_after_total v w,
  AllAfter-insert w v ws,
)

pub sorted_by_age-Sorted : (vs : List Fields) → Sorted (sorted_by_age vs)
unfolding sorted_by_age
sorted_by_age-Sorted [] = tt
sorted_by_age-Sorted (v ∷ vs) = insert_by_age-Sorted v (sorted_by_age vs) (sorted_by_age-Sorted vs)

insert_by_age-Elem_at : (v : Fields) (ws : List Fields) → Elem v (insert_by_age v ws)
unfolding insert_by_age
insert_by_age-Elem_at v [] = first
insert_by_age-Elem_at v (w ∷ ws) =
    elim (not_after v w) as (λ t. Elem v (if t then v ∷ w ∷ ws else w ∷ insert_by_age v ws)) [
      | true ↦ first
      | false ↦ later (insert_by_age-Elem_at v ws)
    ]

insert_by_age-Elem_later :
    (u v : Fields) (ws : List Fields) → Elem u ws → Elem u (insert_by_age v ws)
unfolding insert_by_age
insert_by_age-Elem_later u v (w ∷ ws) e =
    elim (not_after v w) as (λ t. Elem u (if t then v ∷ w ∷ ws else w ∷ insert_by_age v ws)) [
      | true ↦ later e
      | false ↦ elim (Elem-cons u w ws e) [
        | inl same ↦ subst (λ (z : Fields). Elem u (z ∷ insert_by_age v ws)) same first
        | inr held ↦ later (insert_by_age-Elem_later u v ws held)
      ]
    ]
insert_by_age-Elem_later u v [] e = elim e [ ]

Elem-insert_by_age :
    (u v : Fields) (ws : List Fields) → Elem u (insert_by_age v ws) → (u ≡ v) ⊎ Elem u ws
unfolding insert_by_age
Elem-insert_by_age u v [] e = elim (Elem-cons u v [] e) [
  | inl same ↦ inl same
  | inr held ↦ inr held
]
Elem-insert_by_age u v (w ∷ ws) e =
    elim (not_after v w)
        as (λ t.
          Elem u (if t then v ∷ w ∷ ws else w ∷ insert_by_age v ws) → (u ≡ v) ⊎ Elem u (w ∷ ws)) [
            | true ↦ λ (held : Elem u (v ∷ w ∷ ws)). Elem-cons u v (w ∷ ws) held
            | false ↦ λ (held : Elem u (w ∷ insert_by_age v ws)).
                elim (Elem-cons u w (insert_by_age v ws) held) [
                  | inl same ↦ inr (subst (λ (z : Fields). Elem u (z ∷ ws)) same first)
                  | inr there ↦ elim (Elem-insert_by_age u v ws there) [
                    | inl same ↦ inl same
                    | inr old ↦ inr (later old)
                  ]
                ]
          ]
      e

pub sorted_by_age-Elem : (v : Fields) (vs : List Fields) → Elem v vs → Elem v (sorted_by_age vs)
unfolding sorted_by_age
sorted_by_age-Elem v _ first = insert_by_age-Elem_at v _
sorted_by_age-Elem v (w ∷ ws) (later e) =
    insert_by_age-Elem_later v w (sorted_by_age ws) (sorted_by_age-Elem v ws e)

pub Elem-sorted_by_age : (v : Fields) (vs : List Fields) → Elem v (sorted_by_age vs) → Elem v vs
unfolding sorted_by_age
Elem-sorted_by_age v [] e = e
Elem-sorted_by_age v (w ∷ ws) e = elim (Elem-insert_by_age v w (sorted_by_age ws) e) [
  | inl same ↦ subst (λ (z : Fields). Elem v (z ∷ ws)) same first
  | inr held ↦ later (Elem-sorted_by_age v ws held)
]

pub drop-Elem : (n : ℕ) (vs : List Fields) (v : Fields) → Elem v (drop n vs) → Elem v vs
drop-Elem zero vs v e = e
drop-Elem (suc n) [] v e = elim e [ ]
drop-Elem (suc n) (w ∷ ws) v e = later (drop-Elem n ws v e)

-- The first part of a sorted list stands before the rest.
pub take-before_drop :
    (n : ℕ) (vs : List Fields) (u v : Fields)
    → Sorted vs
    → Elem u (take n vs)
    → Elem v (drop n vs)
    → not_after u v ≡ true
take-before_drop zero vs u v s e f = elim e [ ]
take-before_drop (suc n) [] u v s e f = elim e [ ]
take-before_drop (suc n) (w ∷ ws) u v s e f = elim (Elem-cons u w (take n ws) e) [
  | inl same ↦
      subst (λ (z : Fields). not_after z v ≡ true) (sym same)
        (All-Elem (λ (z : Fields). not_after w z ≡ true) v ws (drop-Elem n ws v f) s.0)
  | inr held ↦ take-before_drop n ws u v s.1 held f
]

pub take-Elem : (n : ℕ) (vs : List Fields) (v : Fields) → Elem v (take n vs) → Elem v vs
take-Elem zero vs v e = elim e [ ]
take-Elem (suc n) [] v e = elim e [ ]
take-Elem (suc n) (w ∷ ws) v e = elim (Elem-cons v w (take n ws) e) [
  | inl same ↦ subst (λ (z : Fields). Elem v (z ∷ ws)) same first
  | inr held ↦ later (take-Elem n ws v held)
]

pub take-or_drop :
    (n : ℕ) (vs : List Fields) (v : Fields) → Elem v vs → Elem v (take n vs) ⊎ Elem v (drop n vs)
take-or_drop zero vs v e = inr e
take-or_drop (suc n) _ v first = inl first
take-or_drop (suc n) (w ∷ ws) v (later e) = elim (take-or_drop n ws v e) [
  | inl held ↦ inl (later held)
  | inr held ↦ inr held
]

pub length-take_all : (n : ℕ) (vs : List Fields) → n ≤ length vs → length (take n vs) ≡ n
length-take_all zero vs h = refl
length-take_all (suc n) [] h = omega arith
length-take_all (suc n) (w ∷ ws) h = omega (arith, length-take_all n ws (omega arith))

filter-true :
    (p : Fields → Bool) (w : Fields) (ws : List Fields)
    → p w ≡ true
    → filter p (w ∷ ws) ≡ w ∷ filter p ws
filter-true p w ws h = ground (arith, h)

filter-false :
    (p : Fields → Bool) (w : Fields) (ws : List Fields)
    → p w ≡ false
    → filter p (w ∷ ws) ≡ filter p ws
filter-false p w ws h = ground (arith, h)

-- the elements that a filter keeps
pub filter-Elem :
    (p : Fields → Bool) (v : Fields) (vs : List Fields)
    → Elem v vs
    → p v ≡ true
    → Elem v (filter p vs)
filter-Elem p v [] e h = elim e [ ]
filter-Elem p v (w ∷ ws) e h = elim (Bool-cases (p w)) [
  | inl kept ↦ subst (Elem v) (sym (filter-true p w ws kept)) (elim (Elem-cons v w ws e) [
    | inl same ↦ subst (λ (z : Fields). Elem v (z ∷ filter p ws)) same first
    | inr held ↦ later (filter-Elem p v ws held h)
  ])
  | inr dropped ↦ elim (Elem-cons v w ws e) [
    | inl same ↦ cc
    | inr held ↦ subst (Elem v) (sym (filter-false p w ws dropped)) (filter-Elem p v ws held h)
  ]
]

pub Elem-filter :
    (p : Fields → Bool) (v : Fields) (vs : List Fields)
    → Elem v (filter p vs)
    → Elem v vs × (p v ≡ true)
Elem-filter p v [] e = elim e [ ]
Elem-filter p v (w ∷ ws) e = elim (Bool-cases (p w)) [
  | inl kept ↦ elim (Elem-cons v w (filter p ws) (subst (Elem v) (filter-true p w ws kept) e)) [
    | inl same ↦ (subst (λ (z : Fields). Elem v (z ∷ ws)) same first, ap p same ∙ kept)
    | inr held ↦ (let (old, is_p) = Elem-filter p v ws held in (later old, is_p))
  ]
  | inr dropped ↦
      (let (old, is_p) = Elem-filter p v ws (subst (Elem v) (filter-false p w ws dropped) e) in
        (later old, is_p))
]
