-- ===== src/Observing/Expiry.antt =====
-- The observation store keeps at most its bound of entries, none of them later than the clock, and
-- answers only fresh ones (src/lumi_eggcracker/observation.py).
use lumi_eggcracker.Base.{
  ℕ, ◌-◌, ◌≤◌, ◌≡◌, refl, inl, inr, arith, String, false, not, ◌&&◌, ◌||◌, Option, none, some, List,
  [], ◌∷◌, ◌++◌, leb, elem, filter, Option-cases, if◌then◌else◌, eq_iff,
}
use mathlib.Core.Path.{subst}
use lumi_eggcracker.Base.Dict.{lookup, insert}
use lumi_eggcracker.Observing.Store.{
  Observation, ObservationStore, max_age, expire, renewed, trim, observe, get,
}
use lumi_eggcracker.Observing.Trimming.{
  SeenBy, IsValid, length-expire, expire-SeenBy, lookup-expire, expire-Distinct, trim-insert,
}

last_seen-renewed :
    (p : Option Observation) (evidence : List String) (now : ℕ)
    → (renewed p evidence now).last_seen ≡ now
unfolding renewed
last_seen-renewed none evidence now = refl
last_seen-renewed (some previous) evidence now = refl

expire-IsValid :
    (now : ℕ) (store : ObservationStore) → IsValid now store → IsValid now (expire now store)
expire-IsValid now store (small, seen, distinct) = (
  omega (arith, length-expire now store, small),
  expire-SeenBy now now store seen,
  expire-Distinct now store distinct,
)

-- In a valid store, an observation at the clock's last reading leaves a valid store, of at most 4096
-- entries, that holds what was answered under its identity.
pub observe-IsValid :
    (identity : String) (evidence : List String) (now : ℕ) (store : ObservationStore)
    → IsValid now store
    → IsValid now (observe identity evidence now store).0
      × (lookup identity (observe identity evidence now store).0
          ≡ some (observe identity evidence now store).1)
unfolding observe
observe-IsValid identity evidence now store h =
    let live = expire now store in
    let value = renewed (lookup identity live) evidence now in
    let at_now = last_seen-renewed (lookup identity live) evidence now in
    subst
      (λ (n : ℕ).
        IsValid n live
        → IsValid n (trim identity (insert identity value live))
          × (lookup identity (trim identity (insert identity value live)) ≡ some value))
      at_now (trim-insert identity value live) (expire-IsValid now store h)

-- Observations in their order, each with the clock's reading.
pub record Call : Type 0 where
  pub identity : String
  pub evidence : List String
  pub now : ℕ

unfoldable pub observe_all : List Call → ObservationStore → ObservationStore
observe_all [] store = store
observe_all (c ∷ calls) store = observe_all calls (observe c.identity c.evidence c.now store).0

-- The clock's readings do not decrease.
abbrev pub Monotonic : ℕ → List Call → Type 0
Monotonic now [] = Unit
Monotonic now (c ∷ calls) = (now ≤ c.now) × Monotonic c.now calls

-- the last reading
abbrev pub ends_at : ℕ → List Call → ℕ
ends_at now [] = now
ends_at now (c ∷ calls) = ends_at c.now calls

later-SeenBy :
    (now after : ℕ) (store : ObservationStore) → now ≤ after → SeenBy now store → SeenBy after store
later-SeenBy now after [] h s = tt
later-SeenBy now after (e ∷ store) h s = (omega (arith, s.0), later-SeenBy now after store h s.1)

-- Of a valid store, observations whose clock never goes back leave a valid store: no more than 4096
-- entries, with distinct identities, none of them seen after the last reading.
pub observe_all-IsValid :
    (calls : List Call) (now : ℕ) (store : ObservationStore)
    → Monotonic now calls
    → IsValid now store
    → IsValid (ends_at now calls) (observe_all calls store)
unfolding observe_all
observe_all-IsValid [] now store m h = h
observe_all-IsValid (c ∷ calls) now store (m, ms) (small, seen, distinct) =
    observe_all-IsValid calls c.now (observe c.identity c.evidence c.now store).0 ms
      (observe-IsValid c.identity c.evidence c.now store
        (small, later-SeenBy now c.now store m seen, distinct)).0

elem-append : (x : String) (a b : List String) → elem x (a ++ b) ≡ (elem x a || elem x b)
elem-append x [] b = refl
elem-append x (y ∷ a) b = ground (arith, elem-append x a b)

elem-filter :
    (x : String) (a b : List String)
    → elem x (filter (λ y. not (elem y a)) b) ≡ (not (elem x a) && elem x b)
elem-filter x a [] = ground arith
elem-filter x a (y ∷ b) = ground (arith, elem-filter x a b, eq_iff x y)

elem-renewed :
    (x : String) (p : Option Observation) (evidence : List String) (now : ℕ)
    → elem x (renewed p evidence now).evidence
      ≡ (elem x evidence || elim p [ none ↦ false | some o ↦ elem x o.evidence ])
unfolding renewed
elem-renewed x none evidence now = ground arith
elem-renewed x (some o) evidence now = ground (
  arith,
  elem-append x evidence (filter (λ y. not (elem y evidence)) o.evidence),
  elem-filter x evidence o.evidence,
)

last_seen-observe :
    (identity : String) (evidence : List String) (now : ℕ) (store : ObservationStore)
    → (observe identity evidence now store).1.last_seen ≡ now
unfolding observe
last_seen-observe identity evidence now store =
    last_seen-renewed (lookup identity (expire now store)) evidence now

-- In a valid store, what is observed under an identity at the clock's last reading is answered
-- later exactly when it is at most ten seconds old, and nothing else is answered for it; its evidence
-- is the evidence observed together with what the store still answered for the identity.
pub observe-get :
    (identity : String) (evidence : List String) (now after : ℕ) (store : ObservationStore)
    → IsValid now store
    → let (store', value) = observe identity evidence now store in
      ((get identity after store').1 ≡ (if leb (after - now) max_age then some value else none))
      × ((x : String)
          → elem x value.evidence ≡ (
              elem x evidence
              || elim (get identity now store).1 [ none ↦ false | some o ↦ elem x o.evidence ]))
unfolding get
observe-get identity evidence now after store h =
    let (valid, there) = observe-IsValid identity evidence now store h in
    let store' : ObservationStore = (observe identity evidence now store).0 in
    let value : Observation = (observe identity evidence now store).1 in
    let seen = last_seen-observe identity evidence now store in
    let (found, fresh, absent) = lookup-expire identity after store' valid.2 in
    (
      elim (Option-cases (lookup identity (expire after store'))) [
        | inl e ↦ ground (arith, e, fresh value there, seen)
        | inr (o, e) ↦ ground (arith, e, found o e, there, seen)
      ],
      λ (x : String).
          unfold observe in elem-renewed x (lookup identity (expire now store)) evidence now,
    )
