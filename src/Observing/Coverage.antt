-- ===== src/Observing/Coverage.antt =====
-- Every element of a table is in some window, and each window has at most its number of probes
-- (src/lumi_eggcracker/procfd.py, lines 22-53).
use lumi_eggcracker.Base.{
  ℕ, zero, suc, ◌+◌, ◌-◌, ◌*◌, ◌/◌, ◌%◌, ◌≤◌, ◌<◌, ◌≡◌, ◌⊎◌, refl, ap, ◌∙◌, arith, inl, inr, some,
  List, [], ◌∷◌, ◌++◌, ltb, leb, length, get_elem?, ok, Elem, first, later, length-append,
  Bool-cases, leb→le,
}
use mathlib.Core.Path.{subst}
use native.Mathlib.Nat.{
  add-mul-div_right, lt-div-mul-add, div-add-mod, div-le_of_le-mul, mod-lt, add-mod-mod,
  add-mul-mod_self_left,
}
use lumi_eggcracker.Observing.Window.{every, stripes, stripe, interior, last, edges, fair_window}

module _ {ℓ} {A : Type ℓ} where
  length-every :
      (step m : ℕ)
      → 1 ≤ step
      → (k : ℕ) (xs : List A) → length xs ≤ k + step * m
      → length (every step k xs) ≤ m
  unfolding every
  length-every step m h k [] b = omega arith
  length-every step zero h zero (x ∷ xs) b = grind arith
  length-every step (suc m) h zero (x ∷ xs) b =
      let shorter : length xs ≤ (step - 1) + step * m = grind arith in
      omega (arith, length-every step m h (step - 1) xs shorter)
  length-every step m h (suc k) (x ∷ xs) b =
      let shorter : length xs ≤ k + step * m = omega arith in length-every step m h k xs shorter

  every-Elem :
      (step q : ℕ)
      → 1 ≤ step
      → (x : A) (k i : ℕ) (xs : List A) → get_elem? xs i ≡ some x
      → i ≡ k + step * q
      → Elem x (every step k xs)
  unfolding every
  every-Elem step q h x k i [] e p = cc
  every-Elem step q h x zero zero (y ∷ xs) e p =
      subst (λ (z : A). Elem x (z ∷ every step (step - 1) xs)) (let same : x ≡ y = cc in same) first
  every-Elem step zero h x zero (suc i) (y ∷ xs) e p = grind arith
  every-Elem step (suc q) h x zero (suc i) (y ∷ xs) e p =
      later (every-Elem step q h x (step - 1) i xs e (grind arith))
  every-Elem step q h x (suc k) zero (y ∷ xs) e p = grind arith
  every-Elem step q h x (suc k) (suc i) (y ∷ xs) e p = every-Elem step q h x k i xs e (omega arith)

length-le-stripes : (count limit : ℕ) → 1 ≤ limit → count ≤ stripes count limit * limit
unfolding stripes
length-le-stripes count limit h =
    let full = lt-div-mul-add {a = count + limit - 1} {b = limit} h in grind (arith, full)

product-bound : (count limit : ℕ) → suc count + suc limit - 1 ≤ suc limit * suc count
product-bound count limit = grind arith

stripes-bounds :
    (count limit : ℕ)
    → 1 ≤ limit
    → 1 ≤ count
    → (1 ≤ stripes count limit) × (stripes count limit ≤ count)
stripes-bounds count limit h c =
    let positive : 1 ≤ stripes count limit = grind (arith, length-le-stripes count limit h) in
    let least : count + limit - 1 ≤ limit * count =
      grind (arith, product-bound (count - 1) (limit - 1)) in
    (positive, unfold stripes in div-le_of_le-mul limit least)

rotate : (g i s : ℕ) → 1 ≤ s → (t : ℕ) × (t < s) × ((g + t) % s ≡ i % s)
rotate g i s h =
    let turn : ℕ = i + (s - g % s) in
    let whole : g + turn ≡ i + s * (g / s + 1) =
      grind (arith, div-add-mod g s, mod-lt g {m = s} h) in
    (
      turn % s,
      mod-lt turn h,
      add-mod-mod g turn s ∙ ap (λ (n : ℕ). n % s) whole ∙ add-mul-mod_self_left i s (g / s + 1),
    )

module _ {ℓ} {A : Type ℓ} where
  length-stripe :
      (values : List A) (generation limit : ℕ)
      → 1 ≤ limit
      → length (stripe values generation limit) ≤ limit
  unfolding stripe
  length-stripe [] generation limit h = omega arith
  length-stripe (x ∷ xs) generation limit h =
      let count : ℕ = suc (length xs) in
      let s : ℕ = stripes count limit in
      let whole = length-le-stripes count limit h in
      let reached : count ≤ generation % s + s * limit = grind (arith, whole) in
      length-every s limit (stripes-bounds count limit h (omega arith)).0 (generation % s) (x ∷ xs)
        reached

  nonempty : (values : List A) (i : ℕ) (x : A) → get_elem? values i ≡ some x → 1 ≤ length values
  nonempty [] i x e = cc
  nonempty (y ∷ ys) i x e = omega arith

  -- in some turn the stripe holds the element at an index
  stripe-Elem :
      (values : List A) (generation limit i : ℕ) (x : A)
      → 1 ≤ limit
      → get_elem? values i ≡ some x
      → (t : ℕ) × (t < length values) × Elem x (stripe values (generation + t) limit)
  unfolding stripe
  stripe-Elem values generation limit i x h e =
      let s : ℕ = stripes (length values) limit in
      let count : 1 ≤ length values = nonempty values i x e in
      let bounds = stripes-bounds (length values) limit h count in
      let (t, small, lands) = rotate generation i s bounds.0 in
      let whole : i ≡ (generation + t) % s + s * (i / s) = grind (arith, lands, div-add-mod i s) in
      (
        t,
        omega (arith, small, bounds.1),
        every-Elem s (i / s) bounds.0 x ((generation + t) % s) i values e whole,
      )

  length-interior :
      (values : List A) → length (interior values) + length (last values) ≡ length values
  length-interior [] = refl
  length-interior (x ∷ []) = refl
  length-interior (x ∷ y ∷ xs) = omega (arith, length-interior (y ∷ xs))

  length-last : (values : List A) → length (last values) ≤ 1
  length-last [] = omega arith
  length-last (x ∷ []) = omega arith
  length-last (x ∷ y ∷ xs) = length-last (y ∷ xs)

  -- an element is in the interior or is the last
  edge-cases :
      (values : List A) (i : ℕ) (x : A)
      → get_elem? values i ≡ some x
      → (get_elem? (interior values) i ≡ some x) ⊎ Elem x (last values)
  edge-cases [] i x e = cc
  edge-cases (y ∷ []) zero x e =
      inr (subst (λ (z : A). Elem x (z ∷ [])) (let same : x ≡ y = cc in same) first)
  edge-cases (y ∷ []) (suc i) x e = cc
  edge-cases (y ∷ z ∷ xs) zero x e = inl e
  edge-cases (y ∷ z ∷ xs) (suc i) x e = edge-cases (z ∷ xs) i x e

  append-Elem_left : (x : A) (xs ys : List A) → Elem x xs → Elem x (xs ++ ys)
  append-Elem_left x _ ys first = first
  append-Elem_left x (y ∷ xs) ys (later e) = later (append-Elem_left x xs ys e)

  append-Elem_right : (x : A) (xs ys : List A) → Elem x ys → Elem x (xs ++ ys)
  append-Elem_right x [] ys e = e
  append-Elem_right x (y ∷ xs) ys e = later (append-Elem_right x xs ys e)

  length-edges :
      (values : List A) (generation limit : ℕ)
      → 1 ≤ limit
      → length (edges values generation limit) ≤ limit + 2
  unfolding edges
  length-edges [] generation limit h = omega arith
  length-edges (x ∷ xs) generation limit h =
      let inner = length-stripe (interior xs) generation limit h in
      omega (
        arith,
        inner,
        length-last xs,
        length-append (stripe (interior xs) generation limit) (last xs),
      )

  edges-Elem :
      (values : List A) (generation limit i : ℕ) (x : A)
      → 1 ≤ limit
      → get_elem? values i ≡ some x
      → (t : ℕ) × (t < length values) × Elem x (edges values (generation + t) limit)
  unfolding edges
  edges-Elem [] generation limit i x h e = cc
  edges-Elem (y ∷ xs) generation limit zero x h e = (
    0,
    omega arith,
    subst (λ (z : A). Elem x (z ∷ stripe (interior xs) (generation + 0) limit ++ last xs))
        (let same : x ≡ y = cc in same) first,
  )
  edges-Elem (y ∷ xs) generation limit (suc i) x h e = elim (edge-cases xs i x e) [
    | inl found ↦
        (let (t, small, held) = stripe-Elem (interior xs) generation limit i x h found in
          (
            t,
            omega (arith, small, length-interior xs),
            later (append-Elem_left x (stripe (interior xs) (generation + t) limit) (last xs) held),
          ))
    | inr found ↦ (
      0,
      omega arith,
      later (append-Elem_right x (stripe (interior xs) (generation + 0) limit) (last xs) found),
    )
  ]

  get_elem?-Elem : (values : List A) (i : ℕ) (x : A) → get_elem? values i ≡ some x → Elem x values
  get_elem?-Elem [] i x e = cc
  get_elem?-Elem (y ∷ ys) zero x e =
      subst (λ (z : A). Elem x (z ∷ ys)) (let same : x ≡ y = cc in same) first
  get_elem?-Elem (y ∷ ys) (suc i) x e = later (get_elem?-Elem ys i x e)

  -- For a probe limit of at least one, the window over a table is a value at every cursor, of at most
  -- that many elements.
  pub length-fair_window :
      (values : List A) (start_index max_probes : ℕ)
      → 1 ≤ max_probes
      → (window : List A) × (fair_window values start_index max_probes ≡ ok window)
        × (length window ≤ max_probes)
  unfolding fair_window
  length-fair_window values start_index max_probes h =
      elim (Bool-cases (leb (length values) max_probes)) [
        | inl whole ↦ (values, ground (arith, whole), leb→le (length values) max_probes whole)
        | inr part ↦ elim (Bool-cases (ltb max_probes 4)) [
          | inl few ↦ (
            stripe values (start_index / max_probes) max_probes,
            ground (arith, part, few),
            length-stripe values (start_index / max_probes) max_probes h,
          )
          | inr many ↦
              (let more : 4 ≤ max_probes = ground (arith, many) in
                let kept = length-edges values (start_index / max_probes) (max_probes - 2) in
                (
                  edges values (start_index / max_probes) (max_probes - 2),
                  ground (arith, part, many),
                  omega (arith, more, kept (omega (arith, more))),
                ))
        ]
      ]

  -- For a probe limit of at least one, from every cursor, each element of the table is in the window of
  -- one of the next turns, fewer than the table has elements, when each turn advances the cursor by
  -- the limit.
  pub fair_window-Elem :
      (values : List A) (start_index max_probes i : ℕ) (x : A)
      → 1 ≤ max_probes
      → get_elem? values i ≡ some x
      → (t : ℕ) × (window : List A) × (t < length values)
        × (fair_window values (start_index + t * max_probes) max_probes ≡ ok window)
        × Elem x window
  unfolding fair_window
  fair_window-Elem values start_index max_probes i x h e =
      let moved : (t : ℕ)
          → (start_index + t * max_probes) / max_probes ≡ start_index / max_probes + t =
        λ (t : ℕ). add-mul-div_right start_index t {z = max_probes} h in
      elim (Bool-cases (leb (length values) max_probes)) [
        | inl whole ↦
            (0, values, nonempty values i x e, ground (arith, whole), get_elem?-Elem values i x e)
        | inr part ↦ elim (Bool-cases (ltb max_probes 4)) [
          | inl few ↦
              (let (t, small, held) =
                  stripe-Elem values (start_index / max_probes) max_probes i x h e in
                (
                  t,
                  stripe values (start_index / max_probes + t) max_probes,
                  small,
                  ground (arith, part, few, moved t),
                  held,
                ))
          | inr many ↦
              (let more : 1 ≤ max_probes - 2 = ground (arith, many) in
                let (t, small, held) =
                  edges-Elem values (start_index / max_probes) (max_probes - 2) i x more e in
                (
                  t,
                  edges values (start_index / max_probes + t) (max_probes - 2),
                  small,
                  ground (arith, part, many, moved t),
                  held,
                ))
        ]
      ]
