-- ===== src/Incidents/Compaction.antt =====
-- `compact` (src/lumi_eggcracker/incidents.py, lines 315-343): what leaves the store is cleared and
-- the oldest, and the live bound holds.
use lumi_eggcracker.Base.{
  ℕ, ◌+◌, ◌-◌, ◌≤◌, String, zero, suc, min, ◌≡◌, refl, sym, ap, ◌∙◌, arith, true, false, Option,
  none, some, List, [], ◌∷◌, leb, length, take, filter, str_eq, elem, map, Result, ok, ◌>>=◌,
  Bool-cases, leb→le, inl, inr, if◌then◌else◌, eq_iff, eq_refl, >>=-eq-ok, require-eq-ok, Elem,
  first, later, All,
}
use mathlib.Core.Path.{subst}
use lumi_eggcracker.Base.Members.{Elem-All}
use lumi_eggcracker.Base.Dict.{Distinct, lookup}
use lumi_eggcracker.Json.{Fields}
use lumi_eggcracker.Incidents.Nested.{Library}
use lumi_eggcracker.Incidents.Store.{
  Root, directory, File, Listing, regular, max_incidents, max_compaction_overflow, paths,
  load_paths, load_all, not_after, sorted_by_age, is_cleared, remove_each, compact_excess, compact,
}
use lumi_eggcracker.Incidents.Loading.{
  id_of, load_path-eq-ok, load_paths-lookup, load_paths-Elem, length-load_paths,
}
use lumi_eggcracker.Incidents.Age.{
  sorted_by_age-Sorted, sorted_by_age-Elem, Elem-sorted_by_age, take-before_drop, take-Elem,
  take-or_drop, length-take_all, filter-Elem, Elem-filter,
}
use lumi_eggcracker.Incidents.Removal.{remove_each-Removed}

-- the cleared records in their order, and those of them that go
abbrev cleared_of : List Fields → List Fields
cleared_of before = sorted_by_age (filter is_cleared before)

abbrev removed_of : List Fields → List Fields
removed_of before = take (length before - max_incidents) (cleared_of before)

take-zero : (n : ℕ) (vs : List Fields) → n ≡ 0 → take n vs ≡ []
take-zero zero vs h = refl
take-zero (suc n) vs h = grind (arith, h)

load_all-inversion :
    (lib : Library) (files : Listing) (values : List Fields)
    → load_all lib (directory files) ≡ ok values
    → load_paths lib files ≡ ok values
unfolding load_all paths
load_all-inversion lib files values h =
    (require-eq-ok (leb (length files) max_incidents) "incident store exceeds bounded capacity"
      (load_paths lib files) h).1

compact_excess-inversion :
    (lib : Library) (files : Listing) (before values : List Fields) (root' : Root)
    → load_paths lib files ≡ ok before
    → compact_excess lib files ≡ ok (values, root')
    → (files' : Listing) × (root' ≡ directory files')
      × (load_paths lib files' ≡ ok values)
      × (remove_each (removed_of before) files ≡ ok files')
      × (length before - max_incidents ≤ length (cleared_of before))
unfolding compact_excess
compact_excess-inversion lib files before values root' h c =
    let (fits, c1) =
      require-eq-ok (leb (length files) (max_incidents + max_compaction_overflow))
        "incident store exceeds bounded capacity" _ c in
    let c2 = rw h at c1 in
    let (enough, c3) =
      require-eq-ok (leb (length before - max_incidents) (length (cleared_of before)))
        "incident store exceeds active bounded capacity" _ c2 in
    let (files', removed, c4) =
      >>=-eq-ok (remove_each (removed_of before) files)
        (λ files'. load_all lib (directory files') >>= (λ kept. ok (kept, directory files'))) c3 in
    let (kept, loaded, c5) =
      >>=-eq-ok (load_all lib (directory files')) (λ kept. ok (kept, directory files')) c4 in
    let same : kept ≡ values = cc in
    let placed : root' ≡ directory files' = cc in
    (
      files',
      placed,
      load_all-inversion lib files' kept loaded ∙ ap (λ (z : List Fields). ok z) same,
      removed,
      leb→le (length before - max_incidents) (length (cleared_of before)) enough,
    )

-- What `compact` has done to a store that loaded: nothing, within the bound; else it has removed
-- just the files of the records that go.
compact-inversion :
    (lib : Library) (files : Listing) (before values : List Fields) (root' : Root)
    → Distinct files
    → load_paths lib files ≡ ok before
    → compact lib (directory files) ≡ ok (values, root')
    → (files' : Listing) × (root' ≡ directory files')
      × Distinct files'
      × (load_paths lib files' ≡ ok values)
      × (length files' ≡ min (length files) max_incidents)
      × ((j : String)
          → lookup j files'
            ≡ (if elem j (map id_of (removed_of before)) then none else lookup j files))
unfolding compact paths
compact-inversion lib files before values root' d h c =
    elim (Bool-cases (leb (length files) max_incidents)) [
      | inl small ↦
          (let call : compact lib (directory files) ≡ ok (before, directory files) =
              ground (arith, small, h) in
            let both : ◌≡◌ {A = Result (List Fields × Root)} (ok (before, directory files))
                (ok (values, root')) =
              sym call ∙ c in
            let same : before ≡ values = cc in
            let placed : root' ≡ directory files = cc in
            let size = length-load_paths lib files before h in
            let few : length files ≤ max_incidents = leb→le (length files) max_incidents small in
            let none_go =
              take-zero (length before - max_incidents) (cleared_of before)
                (omega (arith, few, size)) in
            (
              files,
              placed,
              d,
              h ∙ ap (λ (z : List Fields). ok z) same,
              omega (arith, few),
              λ (j : String). rw none_go refl,
            ))
      | inr large ↦
          (let call : compact_excess lib files ≡ ok (values, root') = ground (arith, large, c) in
            let (files', placed, loaded, removed, enough) =
              compact_excess-inversion lib files before values root' h call in
            let (distinct, count, left) =
              remove_each-Removed (removed_of before) files files' d removed in
            let size = length-load_paths lib files before h in
            let many : max_incidents + 1 ≤ length files = ground (arith, large) in
            let gone = length-take_all (length before - max_incidents) (cleared_of before) enough in
            (files', placed, distinct, loaded, omega (arith, count, gone, size, many), left))
    ]

elem-map_id : (v : Fields) (vs : List Fields) → Elem v vs → elem (id_of v) (map id_of vs) ≡ true
elem-map_id v _ first = ground (arith, eq_refl (id_of v))
elem-map_id v (w ∷ ws) (later e) = ground (arith, elem-map_id v ws e)

map_id-elem :
    (j : String) (vs : List Fields)
    → elem j (map id_of vs) ≡ true
    → (v : Fields) × Elem v vs × (id_of v ≡ j)
map_id-elem j [] h = cc
map_id-elem j (w ∷ ws) h = elim (Bool-cases (str_eq j (id_of w))) [
  | inl same ↦ (w, first, ground (arith, same, eq_iff j (id_of w)))
  | inr other ↦
      (let (v, e, named) = map_id-elem j ws (ground (arith, other, h)) in (v, later e, named))
]

removed-cleared :
    (before : List Fields) (v : Fields)
    → Elem v (removed_of before)
    → Elem v before × (is_cleared v ≡ true)
removed-cleared before v e = Elem-filter is_cleared v before (
    Elem-sorted_by_age v (filter is_cleared before)
      (take-Elem (length before - max_incidents) (cleared_of before) v e))

same_file :
    (lib : Library) (files : Listing) (before : List Fields) (u v : Fields)
    → Distinct files
    → load_paths lib files ≡ ok before
    → Elem u before
    → Elem v before
    → id_of u ≡ id_of v
    → u ≡ v
same_file lib files before u v d h e f named =
    let a = load_paths-lookup lib files before u d h e in
    let b = load_paths-lookup lib files before v d h f in
    let both : ◌≡◌ {A = Option File} (some (regular (ok u))) (some (regular (ok v))) =
      sym a ∙ ap (λ (k : String). lookup k files) named ∙ b in
    cc

held-Elem :
    (lib : Library) (files : Listing) (values : List Fields) (v : Fields)
    → load_paths lib files ≡ ok values
    → lookup (id_of v) files ≡ some (regular (ok v))
    → Elem v values
held-Elem lib files values v h there =
    let (w, e, loaded) = load_paths-Elem lib files values (id_of v) (regular (ok v)) h there in
    let same = (load_path-eq-ok lib (id_of v) (regular (ok v)) w loaded).0 in
    let equal : w ≡ v = cc in subst (λ (z : Fields). Elem z values) equal e

-- A record whose file goes is one of those that go.
removed-Elem :
    (lib : Library) (files : Listing) (before : List Fields) (u : Fields)
    → Distinct files
    → load_paths lib files ≡ ok before
    → Elem u before
    → elem (id_of u) (map id_of (removed_of before)) ≡ true
    → Elem u (removed_of before)
removed-Elem lib files before u d h e gone =
    let (r, held, named) = map_id-elem (id_of u) (removed_of before) gone in
    let same = same_file lib files before r u d h (removed-cleared before r held).0 e named in
    subst (λ (z : Fields). Elem z (removed_of before)) same held

-- A record that is left was there.
left-Elem :
    (lib : Library) (files : Listing) (before values : List Fields) (root' : Root)
    → Distinct files
    → load_paths lib files ≡ ok before
    → compact lib (directory files) ≡ ok (values, root')
    → (v : Fields) → Elem v values
    → Elem v before
left-Elem lib files before values root' d h c v e =
    let (files', placed, d', loaded, size, left) =
      compact-inversion lib files before values root' d h c in
    let there = load_paths-lookup lib files' values v d' loaded e in
    let was : lookup (id_of v) files ≡ some (regular (ok v)) =
      ground (arith, left (id_of v), there) in
    held-Elem lib files before v h was

-- Compacting a store that loads, whose names are distinct, answers as many records as the store has,
-- where that is 256 at most, and exactly 256 beyond it. Each record that it answers was there.
pub compact-Elem :
    (lib : Library) (files : Listing) (before values : List Fields) (root' : Root)
    → Distinct files
    → load_paths lib files ≡ ok before
    → compact lib (directory files) ≡ ok (values, root')
    → (length values ≡ min (length before) max_incidents) × All (λ v. Elem v before) values
compact-Elem lib files before values root' d h c =
    let (files', placed, d', loaded, size, left) =
      compact-inversion lib files before values root' d h c in
    (
      length-load_paths lib files' values loaded
          ∙ size
          ∙ ap (λ (n : ℕ). min n max_incidents) (sym (length-load_paths lib files before h)),
      Elem-All (λ v. Elem v before) values (left-Elem lib files before values root' d h c),
    )

-- Compacting a store that loads, whose names are distinct, keeps every record that is not cleared.
pub compact-Keeps :
    (lib : Library) (files : Listing) (before values : List Fields) (root' : Root) (v : Fields)
    → Distinct files
    → load_paths lib files ≡ ok before
    → compact lib (directory files) ≡ ok (values, root')
    → Elem v before
    → is_cleared v ≡ false
    → Elem v values
compact-Keeps lib files before values root' v d h c e live =
    let (files', placed, d', loaded, size, left) =
      compact-inversion lib files before values root' d h c in
    let was = load_paths-lookup lib files before v d h e in
    let stays : lookup (id_of v) files' ≡ some (regular (ok v)) =
      elim (Bool-cases (elem (id_of v) (map id_of (removed_of before)))) [
        | inl gone ↦
            (let (old, cleared) =
                removed-cleared before v (removed-Elem lib files before v d h e gone) in
              cc)
        | inr kept ↦ ground (arith, left (id_of v), kept, was)
      ] in
    held-Elem lib files' values v loaded stays

-- A record that compacting removes from a store that loads, whose names are distinct, is cleared, and
-- no older than it is any cleared record that stays: it was created earlier, or at the same reading
-- with an identity that does not sort after.
pub compact-Oldest :
    (lib : Library) (files files' : Listing) (before values : List Fields) (u v : Fields)
    → Distinct files
    → load_paths lib files ≡ ok before
    → compact lib (directory files) ≡ ok (values, directory files')
    → Elem u before
    → lookup (id_of u) files' ≡ none
    → Elem v values
    → is_cleared v ≡ true
    → (is_cleared u ≡ true) × (not_after u v ≡ true)
compact-Oldest lib files files' before values u v d h c e gone f cleared =
    let (found, placed, d', loaded, size, left) =
      compact-inversion lib files before values (directory files') d h c in
    let same : files' ≡ found = cc in
    let was = load_paths-lookup lib files before u d h e in
    let out : elem (id_of u) (map id_of (removed_of before)) ≡ true =
      ground (arith, left (id_of u), gone, was, ap (lookup (id_of u)) same) in
    let goes = removed-Elem lib files before u d h e out in
    let old = left-Elem lib files before values (directory files') d h c v f in
    let sorted_v =
      sorted_by_age-Elem v (filter is_cleared before)
        (filter-Elem is_cleared v before old cleared) in
    let there = load_paths-lookup lib found values v d' loaded f in
    (
      (removed-cleared before u goes).1,
      elim (take-or_drop (length before - max_incidents) (cleared_of before) v sorted_v) [
        | inl taken ↦ ground (arith, left (id_of v), there, elem-map_id v (removed_of before) taken)
        | inr rest ↦
            take-before_drop (length before - max_incidents) (cleared_of before) u v
              (sorted_by_age-Sorted (filter is_cleared before)) goes rest
      ],
    )
