-- ===== src/Observing/Tests.antt =====
-- Tests and witnesses.
use lumi_eggcracker.Base.{
  ℕ, ◌+◌, ◌-◌, ◌*◌, ◌≤◌, ◌<◌, ◌≡◌, refl, arith, String, false, ◌||◌, none, some, List, [], ◌∷◌, leb,
  length, elem, if◌then◌else◌, Elem, ok,
}
use lumi_eggcracker.Observing.Store.{
  ObservationStore, expire, renewed, observe, get, identities, max_age,
}
use lumi_eggcracker.Observing.Trimming.{IsValid}
use lumi_eggcracker.Observing.Expiry.{Call, observe_all, observe_all-IsValid, observe-get}
use lumi_eggcracker.Observing.Window.{every, stripes, stripe, edges, fair_window}
use lumi_eggcracker.Observing.Coverage.{length-fair_window, fair_window-Elem}

abbrev first_call : Call
first_call = record { identity = "17:300"; evidence = "argv" ∷ []; now = 5 }

abbrev second_call : Call
second_call = record { identity = "17:300"; evidence = "maps" ∷ []; now = 9 }

abbrev one_seen : ObservationStore
one_seen = ("17:300", record { evidence = "argv" ∷ []; first_seen = 5; last_seen = 5 }) ∷ []

one_seen-IsValid : IsValid 9 one_seen
one_seen-IsValid = (omega arith, omega arith, (refl, tt))

observes_both :
    (observe "17:300" ("maps" ∷ []) 9 one_seen).1
    ≡ record { evidence = "maps" ∷ "argv" ∷ []; first_seen = 5; last_seen = 9 }
unfolding observe expire renewed
observes_both = refl

expires : (identities 10000000006 one_seen).1 ≡ []
unfolding identities expire
expires = refl

reads_stripe : fair_window {A = ℕ} (3 ∷ 4 ∷ 5 ∷ 6 ∷ 7 ∷ 8 ∷ []) 4 4 ≡ ok (3 ∷ 5 ∷ 7 ∷ 8 ∷ [])
unfolding fair_window edges stripe stripes every
reads_stripe = refl

observe_all-IsValid_example : IsValid 9 (observe_all (first_call ∷ second_call ∷ []) [])
observe_all-IsValid_example =
    observe_all-IsValid (first_call ∷ second_call ∷ []) 0 [] (omega arith) (omega arith)

observe-get_example :
    let (store', value) = observe "17:300" ("maps" ∷ []) 9 one_seen in
    ((get "17:300" 20 store').1 ≡ (if leb (20 - 9) max_age then some value else none))
    × ((x : String)
        → elem x value.evidence ≡ (
            elem x ("maps" ∷ [])
            || elim (get "17:300" 9 one_seen).1 [ none ↦ false | some o ↦ elem x o.evidence ]))
observe-get_example = observe-get "17:300" ("maps" ∷ []) 9 20 one_seen one_seen-IsValid

abbrev six : List ℕ
six = 3 ∷ 4 ∷ 5 ∷ 6 ∷ 7 ∷ 8 ∷ []

length-fair_window_example :
    (window : List ℕ) × (fair_window six 4 4 ≡ ok window) × (length window ≤ 4)
length-fair_window_example = length-fair_window six 4 4 (omega arith)

fair_window-Elem_example :
    (t : ℕ) × (window : List ℕ) × (t < 6)
    × (fair_window six (8 + t * 4) 4 ≡ ok window)
    × Elem 6 window
fair_window-Elem_example = fair_window-Elem six 8 4 3 6 (omega arith) refl
