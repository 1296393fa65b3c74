-- ===== src/Incidents/Sample.antt =====
-- The bounded sample of linked receipts and the recurrence counters (src/lumi_eggcracker/incidents.py,
-- lines 156-162 and 453-466).
use lumi_eggcracker.Base.{
  ◌+◌, ◌≤◌, String, ◌≡◌, ◌⊎◌, refl, arith, Bool, true, false, not, ◌&&◌, ◌||◌, Option, none, some,
  List, [], ◌∷◌, ◌++◌, ltb, length, str_eq, all, map, elem, hex_text, Result, ok, require,
  Bool-cases, Option-cases, inl, inr, if◌then◌else◌, eq_iff, eq_refl, length-append, require-eq-ok,
}
use lumi_eggcracker.Base.Checks.{require-ok}
use lumi_eggcracker.Json.{
  Value, Fields, get, same_keys, as_list, items, from_list, is_int, str, int, pos, obj,
}
use lumi_eggcracker.Json.Laws.{get-set, same_keys-set, same_keys-has_key, items-from_list}
use lumi_eggcracker.Incidents.Nested.{is_hex64, validate_recurrence, recurrence_keys, with_object}
use lumi_eggcracker.Incidents.Validity.{max_linked_receipts, check_linked, texts_of, no_repeat}
use lumi_eggcracker.Incidents.Store.{nat_at}
use lumi_eggcracker.Incidents.Lifecycle.{
  text_list, sampled, counted, recounted, linked_of, recurrence_of,
}

-- What `validate` asks of linked receipts.
abbrev pub IsSample : List String → Type 0
IsSample xs =
    (length xs ≤ max_linked_receipts) × (all (hex_text 64) xs ≡ true) × (no_repeat xs ≡ true)

texts_of-hex :
    (vs : List Value)
    → all (λ w. is_hex64 (some w)) vs ≡ true
    → (length (texts_of vs) ≡ length vs) × (all (hex_text 64) (texts_of vs) ≡ true)
texts_of-hex [] h = (refl, refl)
texts_of-hex (str s ∷ vs) h = ground (arith, h, texts_of-hex vs)
texts_of-hex (v ∷ vs) h = ground (arith, h)

pub check_linked-IsSample :
    (v : Fields) → check_linked (get "linked_receipts" v) ≡ ok tt → IsSample (linked_of v)
unfolding check_linked
check_linked-IsSample v h = elim (Option-cases (as_list (get "linked_receipts" v))) [
  | inl e ↦ ground (arith, e, h)
  | inr (vs, e) ↦ ground (arith, e, h, texts_of-hex vs)
]

map-str-hex :
    (xs : List String)
    → all (hex_text 64) xs ≡ true
    → (all (λ w. is_hex64 (some w)) (map str xs) ≡ true)
      × (length (map str xs) ≡ length xs)
      × (texts_of (map str xs) ≡ xs)
map-str-hex [] h = (refl, refl, refl)
map-str-hex (x ∷ xs) h = ground (arith, h, map-str-hex xs)

pub IsSample-check_linked :
    (xs : List String) → IsSample xs → check_linked (some (text_list xs)) ≡ ok tt
unfolding check_linked
IsSample-check_linked xs (small, hex, apart) =
    let (h, l, t) = map-str-hex xs hex in
    ground (arith, small, apart, h, l, t, items-from_list (map str xs))

pub linked_of-text_list :
    (xs : List String)
    → all (hex_text 64) xs ≡ true
    → texts_of (items (from_list (map str xs))) ≡ xs
linked_of-text_list xs h = ground (arith, map-str-hex xs h, items-from_list (map str xs))

append-hex :
    (xs : List String) (d : String)
    → all (hex_text 64) xs ≡ true
    → hex_text 64 d ≡ true
    → all (hex_text 64) (xs ++ d ∷ []) ≡ true
append-hex [] d h e = ground (arith, e)
append-hex (x ∷ xs) d h e = ground (arith, h, append-hex xs d)

append-no_repeat :
    (xs : List String) (d : String)
    → no_repeat xs ≡ true
    → elem d xs ≡ false
    → no_repeat (xs ++ d ∷ []) ≡ true
append-no_repeat [] d h e = refl
append-no_repeat (x ∷ xs) d h e =
    ground (arith, h, e, append-no_repeat xs d, elem-append_one x d xs, eq_iff x d, eq_iff d x)
  where
    elem-append_one :
        (x d : String) (xs : List String) → elem x (xs ++ d ∷ []) ≡ (elem x xs || str_eq x d)
    elem-append_one x d [] = ground arith
    elem-append_one x d (y ∷ ys) = ground (arith, elem-append_one x d ys)

pub sampled-IsSample :
    (xs : List String) (d : String) → IsSample xs → hex_text 64 d ≡ true → IsSample (sampled xs d)
unfolding sampled
sampled-IsSample xs d (small, hex, apart) e =
    elim (Bool-cases (not (elem d xs) && ltb (length xs) max_linked_receipts)) [
      | inl fits ↦ ground (
        arith,
        fits,
        small,
        length-append xs (d ∷ []),
        append-hex xs d hex e,
        append-no_repeat xs d apart,
      )
      | inr full ↦ ground (arith, full, small, hex, apart)
    ]

-- The counters stay counters.
counted-all :
    (key : String) (r : Fields) (names : List String)
    → all (λ k. is_int 0 (get k r)) names ≡ true
    → all (λ k. is_int 0 (get k (counted key r))) names ≡ true
counted-all key r [] h = refl
counted-all key r (k ∷ names) h =
    ground (arith, h, get-set k key (int (pos (nat_at key r + 1))) r, counted-all key r names)

recurrence-parts :
    (r : Fields)
    → validate_recurrence (some (obj r)) ≡ ok tt
    → (same_keys r recurrence_keys ≡ true) × (all (λ k. is_int 0 (get k r)) recurrence_keys ≡ true)
unfolding validate_recurrence
recurrence-parts r h =
    let (keyed, rest) =
      require-eq-ok (same_keys r recurrence_keys) "incident recurrence state is invalid"
        (require (all (λ k. is_int 0 (get k r)) recurrence_keys)
          "incident recurrence count is invalid")
        h in
    (
      keyed,
      require-ok (all (λ k. is_int 0 (get k r)) recurrence_keys)
          "incident recurrence count is invalid" rest,
    )

parts-recurrence :
    (r : Fields)
    → same_keys r recurrence_keys ≡ true
    → all (λ k. is_int 0 (get k r)) recurrence_keys ≡ true
    → validate_recurrence (some (obj r)) ≡ ok tt
unfolding validate_recurrence
parts-recurrence r keyed counts = rw keyed (rw counts refl)

counted-same :
    (key : String) (r : Fields)
    → elem key recurrence_keys ≡ true
    → validate_recurrence (some (obj r)) ≡ ok tt
    → validate_recurrence (some (obj (counted key r))) ≡ ok tt
counted-same key r e h =
    let (keyed, counts) = recurrence-parts r h in
    parts-recurrence (counted key r)
      (same_keys-set key (int (pos (nat_at key r + 1))) r recurrence_keys
        (same_keys-has_key key r recurrence_keys e keyed) keyed)
      (counted-all key r recurrence_keys counts)

pub recounted-same :
    (r : Fields) (partial : Bool)
    → validate_recurrence (some (obj r)) ≡ ok tt
    → validate_recurrence (some (obj (recounted r partial))) ≡ ok tt
unfolding recounted
recounted-same r partial h =
    let complete = counted-same "complete_matches" r refl h in
    let both = counted-same "contained_matches" (counted "complete_matches" r) refl complete in
    elim partial as (λ p. validate_recurrence (some (obj (recounted r p))) ≡ ok tt) [
      | true ↦
          counted-same "partial_matches"
            (counted "contained_matches" (counted "complete_matches" r)) refl both
      | false ↦ both
    ]

with_object-obj :
    (o : Option Value) (names : List String) (message : String) (body : Fields → Result (Unit {0}))
    → with_object o names message body ≡ ok tt
    → (fs : Fields) × (o ≡ some (obj fs))
with_object-obj none names message body h = cc
with_object-obj (some (obj fs)) names message body h = (fs, refl)
with_object-obj (some v) names message body h = ground (arith, h)

pub recurrence_of-obj :
    (v : Fields)
    → validate_recurrence (get "recurrence" v) ≡ ok tt
    → validate_recurrence (some (obj (recurrence_of v))) ≡ ok tt
unfolding validate_recurrence
recurrence_of-obj v h =
    let (r, e) =
      with_object-obj (get "recurrence" v) recurrence_keys "incident recurrence state is invalid"
        (λ fs.
          require (all (λ key. is_int 0 (get key fs)) recurrence_keys)
            "incident recurrence count is invalid")
        h in
    let same : recurrence_of v ≡ r = ground (arith, e) in rw same (rw e at h)

pub sampled-elem :
    (xs : List String) (d : String)
    → IsSample xs
    → (elem d (sampled xs d) ≡ true) ⊎ (length xs ≡ max_linked_receipts)
unfolding sampled
sampled-elem xs d (small, hex, apart) = elim (Bool-cases (elem d xs)) [
  | inl there ↦ inl (ground (arith, there))
  | inr absent ↦ elim (Bool-cases (ltb (length xs) max_linked_receipts)) [
    | inl room ↦ inl (ground (arith, absent, room, append-elem_last xs d))
    | inr full ↦ inr (ground (arith, full, small))
  ]
]
  where
    append-elem_last : (xs : List String) (d : String) → elem d (xs ++ d ∷ []) ≡ true
    append-elem_last [] d = ground (arith, eq_refl d)
    append-elem_last (x ∷ xs) d = ground (arith, append-elem_last xs d)

nat_at-counted :
    (j k : String) (r : Fields)
    → nat_at j (counted k r) ≡ nat_at j r + (if str_eq j k then 1 else 0)
nat_at-counted j k r = ground (arith, get-set j k (int (pos (nat_at k r + 1))) r, eq_iff j k)

-- Each counter goes up by what `link` adds.
pub nat_at-recounted :
    (r : Fields) (partial : Bool)
    → (nat_at "complete_matches" (recounted r partial) ≡ nat_at "complete_matches" r + 1)
      × (nat_at "contained_matches" (recounted r partial) ≡ nat_at "contained_matches" r + 1)
      × (nat_at "partial_matches" (recounted r partial)
          ≡ nat_at "partial_matches" r + (if partial then 1 else 0))
unfolding recounted
nat_at-recounted r true = (
  ground (
    arith,
    nat_at-counted "complete_matches" "complete_matches" (r),
    nat_at-counted "complete_matches" "contained_matches" (counted "complete_matches" r),
    nat_at-counted "complete_matches" "partial_matches"
        (counted "contained_matches" (counted "complete_matches" r)),
  ),
  ground (
    arith,
    nat_at-counted "contained_matches" "complete_matches" (r),
    nat_at-counted "contained_matches" "contained_matches" (counted "complete_matches" r),
    nat_at-counted "contained_matches" "partial_matches"
        (counted "contained_matches" (counted "complete_matches" r)),
  ),
  ground (
    arith,
    nat_at-counted "partial_matches" "complete_matches" (r),
    nat_at-counted "partial_matches" "contained_matches" (counted "complete_matches" r),
    nat_at-counted "partial_matches" "partial_matches"
        (counted "contained_matches" (counted "complete_matches" r)),
  ),
)
nat_at-recounted r false = (
  ground (
    arith,
    nat_at-counted "complete_matches" "complete_matches" (r),
    nat_at-counted "complete_matches" "contained_matches" (counted "complete_matches" r),
  ),
  ground (
    arith,
    nat_at-counted "contained_matches" "complete_matches" (r),
    nat_at-counted "contained_matches" "contained_matches" (counted "complete_matches" r),
  ),
  ground (
    arith,
    nat_at-counted "partial_matches" "complete_matches" (r),
    nat_at-counted "partial_matches" "contained_matches" (counted "complete_matches" r),
  ),
)
