-- ===== src/Launches/Signs.antt =====
-- What the readings of `verify_empty` tell: empty files, and errors that read as if the cgroup were
-- gone (src/lumi_eggcracker/containment.py, lines 110-136).
use lumi_eggcracker.Base.{
  ℕ, ◌+◌, String, ◌≡◌, ◌⊎◌, refl, ap, ◌∙◌, Bool, true, false, List, [], ◌∷◌, ◌++◌, ◌==◌, codes,
  arith, any, Bool-cases, inl, inr, Elem, first, later, All, Result, ok, err,
}
use lumi_eggcracker.Base.Dict.{Dict}
use lumi_eggcracker.Launches.Identity.{starts_with}
use lumi_eggcracker.Launches.Readings.{
  Raise, os_error, input_error, value_error, Outcome, gives, raises, is_collected, is_nil,
  is_taken_for_gone, gone_texts, contains_text, tells_gone, events_of, directory_pids, line_pids,
  insert_pid, sorted_pids, checked, and_then,
}

module _ {ℓ} {A : Type ℓ} where
  pub Outcome-cases : (o : Outcome A) → ((a : A) × (o ≡ gives a)) ⊎ ((e : Raise) × (o ≡ raises e))
  Outcome-cases (gives a) = inl (a, refl)
  Outcome-cases (raises e) = inr (e, refl)

  pub and_then-gives {κ} :
      {B : Type κ} (o : Outcome A) (next : A → Outcome B) (b : B)
      → and_then o next ≡ gives b
      → (a : A) × (o ≡ gives a) × (next a ≡ gives b)
  and_then-gives (gives a) next b h = (a, refl, h)
  and_then-gives (raises e) next b h = cc

  pub checked-gives : (r : Result A) (a : A) → checked r ≡ gives a → r ≡ ok a
  checked-gives (ok b) a h = let e : b ≡ a = cc in ap (λ (z : A). ok z) e
  checked-gives (err m) a h = cc

-- `_events` gives what `events_from_fd` gives.
pub events_of-gives : (o : Outcome (Dict ℕ)) (d : Dict ℕ) → events_of o ≡ gives d → o ≡ gives d
unfolding events_of
events_of-gives (gives values) d h = h
events_of-gives (raises (os_error n text)) d h = cc
events_of-gives (raises (input_error text)) d h = cc
events_of-gives (raises value_error) d h = cc

insert_pid-nonempty : (p : ℕ) (qs : List ℕ) → is_nil (insert_pid p qs) ≡ false
unfolding insert_pid
insert_pid-nonempty p [] = refl
insert_pid-nonempty p (q ∷ qs) = ground arith

pub sorted_pids-empty : (ps : List ℕ) → is_nil (sorted_pids ps) ≡ true → ps ≡ []
unfolding sorted_pids
sorted_pids-empty [] h = refl
sorted_pids-empty (p ∷ ps) h = absurd (ground (arith, h, insert_pid-nonempty p (sorted_pids ps)))

line_pids-empty : (lines : List String) → line_pids lines ≡ gives [] → lines ≡ []
unfolding line_pids
line_pids-empty [] h = refl
line_pids-empty (line ∷ rest) h = elim (Outcome-cases (line_pids rest)) [
  | inl (ps, e) ↦ absurd (ground (arith, e, h))
  | inr (f, e) ↦ absurd (ground (arith, e, h))
]

append-empty : (ps qs : List ℕ) → ps ++ qs ≡ [] → (ps ≡ []) × (qs ≡ [])
append-empty [] qs h = (refl, h)
append-empty (p ∷ ps) qs h = cc

-- Where the files list no process, none has a line.
pub directory_pids-empty :
    (files : List (Outcome (List String))) (found : List ℕ × ℕ)
    → directory_pids files ≡ gives found
    → found.0 ≡ []
    → All (λ f. f ≡ gives []) files
unfolding directory_pids
directory_pids-empty [] found h e = tt
directory_pids-empty (file ∷ files) found h e =
    let (lines, read, h1) = and_then-gives file _ found h in
    let (ps, numbers, h2) = and_then-gives (line_pids lines) _ found h1 in
    let (rest, others, h3) = and_then-gives (directory_pids files) _ found h2 in
    let whole : (ps ++ rest.0, 1 + rest.1) ≡ found = cc in
    let (none_here, none_there) = append-empty ps rest.0 (ap (λ (z : List ℕ × ℕ). z.0) whole ∙ e) in
    let empty = line_pids-empty lines (numbers ∙ ap (λ (z : List ℕ). gives z) none_here) in
    (
      read ∙ ap (λ (z : List String). gives z) empty,
      directory_pids-empty files rest others none_there,
    )

any-Elem :
    (p : String → Bool) (xs : List String)
    → any p xs ≡ true
    → (x : String) × Elem x xs × (p x ≡ true)
any-Elem p [] h = cc
any-Elem p (x ∷ xs) h = elim (Bool-cases (p x)) [
  | inl e ↦ (x, first, e)
  | inr e ↦
      (let (y, there, holds) = any-Elem p xs (ground (arith, e, h)) in (y, later there, holds))
]

starts_with-split : (s t : List ℕ) → starts_with s t ≡ true → (post : List ℕ) × (s ≡ t ++ post)
starts_with-split s [] h = (s, refl)
starts_with-split [] (c ∷ t) h = cc
starts_with-split (b ∷ s) (c ∷ t) h =
    let (post, e) = starts_with-split s t (ground (arith, h)) in (post, ground (arith, e, h))

contains_text-split :
    (s t : List ℕ)
    → contains_text s t ≡ true
    → (pre : List ℕ) × (post : List ℕ) × (s ≡ pre ++ (t ++ post))
contains_text-split [] t h = let (post, e) = starts_with-split [] t h in ([], post, e)
contains_text-split (c ∷ s) t h = elim (Bool-cases (starts_with (c ∷ s) t)) [
  | inl e ↦ (let (post, whole) = starts_with-split (c ∷ s) t e in ([], post, whole))
  | inr e ↦
      (let (pre, post, whole) = contains_text-split s t (ground (arith, e, h)) in
        (c ∷ pre, post, ap (λ (z : List ℕ). c ∷ z) whole))
]

-- A text that has one of the three phrases in it.
abbrev pub SaysGone : String → Type 0
SaysGone text =
    (phrase : String) × Elem phrase gone_texts
    × (pre : List ℕ) × (post : List ℕ) × (codes text ≡ pre ++ (codes phrase ++ post))

-- An error that reads as if the cgroup were gone: an OSError for what is not there, or one whose text
-- says so.
abbrev pub ReadsGone : Raise → Type 0
ReadsGone (os_error n text) = ((n ≡ 2) ⊎ (n ≡ 19)) ⊎ SaysGone text
ReadsGone (input_error text) = SaysGone text
ReadsGone value_error = ⊥

tells_gone-SaysGone : (text : String) → tells_gone text ≡ true → SaysGone text
tells_gone-SaysGone text h =
    let (phrase, there, found) =
      any-Elem (λ t. contains_text (codes text) (codes t)) gone_texts h in
    let (pre, post, whole) = contains_text-split (codes text) (codes phrase) found in
    (phrase, there, pre, post, whole)

pub is_collected-errno :
    (n : ℕ) (text : String) → is_collected (os_error n text) ≡ true → (n ≡ 2) ⊎ (n ≡ 19)
unfolding is_collected
is_collected-errno n text h = elim (Bool-cases (n == 2)) [
  | inl e ↦ inl (ground (arith, e))
  | inr e ↦ inr (ground (arith, e, h))
]

pub is_taken_for_gone-ReadsGone : (e : Raise) → is_taken_for_gone e ≡ true → ReadsGone e
unfolding is_taken_for_gone
is_taken_for_gone-ReadsGone (os_error n text) h =
    elim (Bool-cases (is_collected (os_error n text))) [
      | inl e ↦ inl (is_collected-errno n text e)
      | inr e ↦ inr (tells_gone-SaysGone text (ground (arith, e, h)))
    ]
is_taken_for_gone-ReadsGone (input_error text) h = tells_gone-SaysGone text h
is_taken_for_gone-ReadsGone value_error h = cc
