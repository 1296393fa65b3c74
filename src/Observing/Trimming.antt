-- ===== src/Observing/Trimming.antt =====
-- What dropping old entries and the oldest one does to the observation store
-- (src/lumi_eggcracker/observation.py).
use lumi_eggcracker.Base.{
  ℕ, ◌+◌, ◌-◌, ◌≤◌, ◌≡◌, refl, ◌∙◌, inl, inr, arith, String, true, false, none, some, [], ◌∷◌, ltb,
  length, str_eq, elem, All, Bool-cases, Option-cases, eq_iff, eq_refl,
}
use lumi_eggcracker.Base.Dict.{
  Distinct, lookup, insert, length-insert_new, length-insert_old, lookup-insert_self, lookup-insert,
}
use lumi_eggcracker.Observing.Store.{
  Observation, ObservationStore, max_observations, max_age, expire, oldest_of, oldest, pop, trim,
  keys_of,
}

-- No entry was seen after `now`.
abbrev pub SeenBy : ℕ → ObservationStore → Type 0
SeenBy now store = All (λ (e : String × Observation). e.1.last_seen ≤ now) store

abbrev pub IsValid : ℕ → ObservationStore → Type 0
IsValid now store = (length store ≤ max_observations) × SeenBy now store × Distinct store

pub length-expire : (now : ℕ) (store : ObservationStore) → length (expire now store) ≤ length store
unfolding expire
length-expire now [] = omega arith
length-expire now (e ∷ store) = ground (arith, length-expire now store)

pub expire-SeenBy :
    (now limit : ℕ) (store : ObservationStore)
    → SeenBy limit store
    → SeenBy limit (expire now store)
unfolding expire
expire-SeenBy now limit [] h = tt
expire-SeenBy now limit (e ∷ store) h = ground (arith, expire-SeenBy now limit store)

-- An entry is answered exactly when it is in the store and fresh.
pub lookup-expire :
    (key : String) (now : ℕ) (store : ObservationStore)
    → Distinct store
    → ((o : Observation)
        → lookup key (expire now store) ≡ some o
        → (lookup key store ≡ some o) × (now - o.last_seen ≤ max_age))
      × ((o : Observation)
          → lookup key store ≡ some o
          → now - o.last_seen ≤ max_age
          → lookup key (expire now store) ≡ some o)
      × (lookup key store ≡ none → lookup key (expire now store) ≡ none)
unfolding expire
lookup-expire key now [] h = ((λ o e. ground arith), (λ o e f. ground arith), λ e. refl)
lookup-expire key now (e ∷ store) h =
    let ih = lookup-expire key now store h.1 in
    (
      (λ o p. ground (arith, ih.0 o, ih.2, p, eq_iff key e.0, h.0)),
      (λ o p f. ground (arith, ih.1 o, p, f, eq_iff key e.0)),
      (λ p. ground (arith, ih.2, p)),
    )

pub expire-Distinct :
    (now : ℕ) (store : ObservationStore) → Distinct store → Distinct (expire now store)
unfolding expire
expire-Distinct now [] h = tt
expire-Distinct now (e ∷ store) h =
    ground (arith, expire-Distinct now store h.1, (lookup-expire e.0 now store h.1).2 h.0)

insert-Distinct :
    (key : String) (o : Observation) (store : ObservationStore)
    → Distinct store
    → Distinct (insert key o store)
insert-Distinct key o [] h = (refl, tt)
insert-Distinct key o (e ∷ store) h = ground (
  arith,
  insert-Distinct key o store h.1,
  eq_iff key e.0,
  eq_iff e.0 key,
  lookup-insert e.0 key o store,
)

insert-SeenBy :
    (now : ℕ) (key : String) (o : Observation) (store : ObservationStore)
    → o.last_seen ≤ now
    → SeenBy now store
    → SeenBy now (insert key o store)
insert-SeenBy now key o [] b h = (b, tt)
insert-SeenBy now key o (e ∷ store) b h = ground (arith, insert-SeenBy now key o store b h.1)

lookup-pop_other :
    (key other : String) (store : ObservationStore)
    → str_eq key other ≡ false
    → lookup other (pop key store) ≡ lookup other store
unfolding pop
lookup-pop_other key other [] h = refl
lookup-pop_other key other (e ∷ store) h =
    ground (
      arith,
      lookup-pop_other key other store h,
      eq_iff key other,
      eq_iff key e.0,
      eq_iff other e.0,
    )

lookup-pop-none :
    (key other : String) (store : ObservationStore)
    → lookup other store ≡ none
    → lookup other (pop key store) ≡ none
unfolding pop
lookup-pop-none key other [] h = refl
lookup-pop-none key other (e ∷ store) h = ground (arith, lookup-pop-none key other store)

pop-Distinct : (key : String) (store : ObservationStore) → Distinct store → Distinct (pop key store)
unfolding pop
pop-Distinct key [] h = tt
pop-Distinct key (e ∷ store) h =
    ground (arith, pop-Distinct key store h.1, lookup-pop-none key e.0 store h.0)

pop-SeenBy :
    (now : ℕ) (key : String) (store : ObservationStore)
    → SeenBy now store
    → SeenBy now (pop key store)
unfolding pop
pop-SeenBy now key [] h = tt
pop-SeenBy now key (e ∷ store) h = ground (arith, pop-SeenBy now key store h.1)

length-pop :
    (key : String) (store : ObservationStore)
    → elem key (keys_of store) ≡ true
    → length (pop key store) + 1 ≡ length store
unfolding pop
length-pop key [] h = cc
length-pop key (e ∷ store) h = ground (arith, length-pop key store)

-- The entry seen longest ago is one of the store's.
oldest_of-elem :
    (key : String) (seen : ℕ) (store : ObservationStore)
    → elem (oldest_of key seen store) (key ∷ keys_of store) ≡ true
unfolding oldest_of
oldest_of-elem key seen [] = ground (arith, eq_refl key)
oldest_of-elem key seen (e ∷ store) =
    ground (arith, oldest_of-elem key seen store, oldest_of-elem e.0 e.1.last_seen store)

-- An entry that was inserted last, and is the last one seen, is not the oldest.
oldest_of-insert :
    (identity : String) (o : Observation) (key : String) (seen : ℕ) (store : ObservationStore)
    → lookup identity store ≡ none
    → str_eq identity key ≡ false
    → seen ≤ o.last_seen
    → SeenBy o.last_seen store
    → str_eq identity (oldest_of key seen (insert identity o store)) ≡ false
unfolding oldest_of
oldest_of-insert identity o key seen [] a d s h = ground arith
oldest_of-insert identity o key seen (e ∷ store) a d s h = ground (
  arith,
  oldest_of-insert identity o key seen store,
  oldest_of-insert identity o e.0 e.1.last_seen store,
)

-- The key that the bound drops from a full store with one more entry.
dropped : String → Observation → ObservationStore → String
dropped identity o [] = identity
dropped identity o (e ∷ store) = oldest_of e.0 e.1.last_seen (insert identity o store)

dropped_lem :
    (identity : String) (o : Observation) (live : ObservationStore)
    → lookup identity live ≡ none
    → SeenBy o.last_seen live
    → 1 ≤ length live
    → (oldest (insert identity o live) ≡ some (dropped identity o live))
      × (str_eq (dropped identity o live) identity ≡ false)
      × (elem (dropped identity o live) (keys_of (insert identity o live)) ≡ true)
unfolding dropped oldest
dropped_lem identity o [] a s n = ground arith
dropped_lem identity o (e ∷ store) a s n =
    let other = oldest_of-insert identity o e.0 e.1.last_seen store in
    let found = oldest_of-elem e.0 e.1.last_seen (insert identity o store) in
    let key = oldest_of e.0 e.1.last_seen (insert identity o store) in
    ground (arith, a, s, other, found, eq_iff identity key, eq_iff key identity)

-- After an observation that is the last in time the store is valid and holds it.
pub trim-insert :
    (identity : String) (o : Observation) (live : ObservationStore)
    → IsValid o.last_seen live
    → IsValid o.last_seen (trim identity (insert identity o live))
      × (lookup identity (trim identity (insert identity o live)) ≡ some o)
unfolding trim
trim-insert identity o live (small, seen, distinct) =
    let seen' = insert-SeenBy o.last_seen identity o live (omega arith) seen in
    let distinct' = insert-Distinct identity o live distinct in
    let there = lookup-insert_self identity o live in
    elim (Option-cases (lookup identity live)) [
      | inr (old, e) ↦
          (let size = length-insert_old identity o old live e in
            let call : trim identity (insert identity o live) ≡ insert identity o live =
              ground (arith, size, small) in
            rw call ((omega (arith, size, small), seen', distinct'), there))
      | inl e ↦
          (let size = length-insert_new identity o live e in
            elim (Bool-cases (ltb max_observations (length (insert identity o live)))) [
              | inr few ↦
                  (let call : trim identity (insert identity o live) ≡ insert identity o live =
                      ground (arith, few) in
                    rw call ((ground (arith, few), seen', distinct'), there))
              | inl many ↦
                  (let key = dropped identity o live in
                    let facts = dropped_lem identity o live e seen (ground (arith, many, size)) in
                    let call : trim identity (insert identity o live)
                        ≡ pop key (insert identity o live) =
                      ground (arith, many, facts) in
                    let shorter = length-pop key (insert identity o live) facts.2 in
                    rw call (
                      (
                        omega (arith, shorter, size, small),
                        pop-SeenBy o.last_seen key (insert identity o live) seen',
                        pop-Distinct key (insert identity o live) distinct',
                      ),
                      lookup-pop_other key identity (insert identity o live) facts.1 ∙ there,
                    ))
            ])
    ]
