-- ===== src/Incidents/Beyond.antt =====
-- Tests of `compact` (src/lumi_eggcracker/incidents.py, lines 315-343) on 257 records, one more than
-- the live bound: a cleared one, and 256 that are active.
use lumi_eggcracker.Base.{
  String, join, ◌≡◌, refl, Bool, true, false, ◌&&◌, none, some, List, [], ◌∷◌, ◌++◌, map, all,
  length, min, hex_text, ok, Elem, first, later, All, arith, not, elem, eq_refl, eq_iff, str_eq,
  Bool-cases, inl, inr,
}
use lumi_eggcracker.Base.Dict.{Distinct, lookup}
use lumi_eggcracker.Json.{Fields, get, str, int, pos, obj, from}
use lumi_eggcracker.Incidents.Nested.{
  safe_token, validate_match, validate_approval, validate_workload, validate_ack, validate_response,
  validate_recurrence, cgroup_text, is_unit_of,
}
use lumi_eggcracker.Incidents.Validity.{
  integrity, validate, check_state, check_detector, check_linked,
}
use lumi_eggcracker.Incidents.Store.{
  directory, Listing, regular, max_incidents, paths, load_path, load_paths, load_all, compact,
  compact_excess, sorted_by_age, insert_by_age, remove_each, unlink, is_file,
}
use lumi_eggcracker.Incidents.Lifecycle.{draft, sealed, updated}
use lumi_eggcracker.Incidents.Tests.{lib, subject}
use lumi_eggcracker.Incidents.Compaction.{compact-Elem, compact-Keeps}

abbrev digits : List String
digits =
    "0" ∷ "1" ∷ "2" ∷ "3" ∷ "4" ∷ "5" ∷ "6" ∷ "7" ∷ "8" ∷ "9" ∷ "a" ∷ "b" ∷ "c" ∷ "d" ∷ "e" ∷ "f"
    ∷ []

-- each text with each digit after it
abbrev extended : List String → List String
extended [] = []
extended (t ∷ ts) = map (join t) digits ++ extended ts

-- 256 identities
abbrev names : List String
names = extended (extended ("a123456789abcdef012345" ∷ []))

-- the identity of the record that goes
abbrev old_name : String
old_name = "0123456789abcdef01234567"

abbrev active_record : String → Fields
active_record name = sealed lib (draft lib subject name 5)

abbrev cleared_record : Fields
cleared_record = updated lib (active_record old_name) (
    ("clearance", obj (from (("monotonic_ns", int (pos 9)) ∷ ("uid", int (pos 0)) ∷ [])))
    ∷ ("state", str "CLEARED")
    ∷ [])

active_record-valid :
    (name : String)
    → hex_text 24 name ≡ true
    → validate lib (active_record name) ≡ ok (active_record name)
unfolding validate hex_text safe_token validate_match validate_approval validate_workload
    validate_ack validate_response validate_recurrence check_state check_detector check_linked
    integrity cgroup_text is_unit_of sealed draft
active_record-valid name h = rw h refl

cleared_record-valid : validate lib cleared_record ≡ ok cleared_record
unfolding validate hex_text safe_token validate_match validate_approval validate_workload
    validate_ack validate_response validate_recurrence check_state check_detector check_linked
    integrity cgroup_text is_unit_of sealed draft updated
cleared_record-valid = refl

abbrev listing_of : List String → Listing
listing_of [] = []
listing_of (name ∷ rest) = (name, regular (ok (active_record name))) ∷ listing_of rest

active_record-id : (name : String) → get "incident_id" (active_record name) ≡ some (str name)
unfolding sealed draft
active_record-id name = refl

hex_named : (name : String) → hex_text 24 name ≡ true → str_eq name "" ≡ false
unfolding hex_text
hex_named name h = elim (Bool-cases (str_eq name "")) [
  | inr e ↦ e
  | inl e ↦
      (let empty : name ≡ "" = ground (arith, e, eq_iff name "") in
        absurd (ground (arith, rw empty at h)))
]

loads_all_of :
    (ns : List String)
    → all (hex_text 24) ns ≡ true
    → load_paths lib (listing_of ns) ≡ ok (map active_record ns)
unfolding load_paths load_path
loads_all_of [] h = refl
loads_all_of (n ∷ ns) h =
    ground
      (arith, h, hex_named n, active_record-id n, active_record-valid n, eq_refl n, loads_all_of ns)

names_hex : all (hex_text 24) names ≡ true
unfolding hex_text
names_hex = refl

unfoldable all_fresh : List String → Bool
all_fresh [] = true
all_fresh (n ∷ ns) = not (elem n ns) && all_fresh ns

names_fresh : all_fresh (old_name ∷ names) ≡ true
unfolding all_fresh
names_fresh = refl

listing_of-lookup :
    (n : String) (ns : List String) → elem n ns ≡ false → lookup n (listing_of ns) ≡ none
listing_of-lookup n [] h = refl
listing_of-lookup n (m ∷ ns) h = ground (arith, h, listing_of-lookup n ns)

listing_of-Distinct : (ns : List String) → all_fresh ns ≡ true → Distinct (listing_of ns)
unfolding all_fresh
listing_of-Distinct [] h = tt
listing_of-Distinct (n ∷ ns) h =
    (listing_of-lookup n ns (ground (arith, h)), listing_of-Distinct ns (ground (arith, h)))

abbrev store : Listing
store = (old_name, regular (ok cleared_record)) ∷ listing_of names

store-Distinct : Distinct store
unfolding all_fresh
store-Distinct = (listing_of-lookup old_name names refl, listing_of-Distinct names refl)

store_loads : load_paths lib store ≡ ok (cleared_record ∷ map active_record names)
unfolding load_paths load_path sealed draft updated
store_loads = rw (cleared_record-valid, loads_all_of names names_hex) refl

-- The cleared record goes, and the 256 active ones stay.
store_compacts :
    compact lib (directory store) ≡ ok (map active_record names, directory (listing_of names))
unfolding compact paths compact_excess load_all sorted_by_age insert_by_age remove_each unlink
    is_file hex_text sealed draft updated
store_compacts = rw (store_loads, loads_all_of names names_hex) refl

compact-Elem_example :
    (length (map active_record names)
      ≡ min (length (cleared_record ∷ map active_record names)) max_incidents)
    × All (λ v. Elem v (cleared_record ∷ map active_record names)) (map active_record names)
compact-Elem_example =
    compact-Elem lib store (cleared_record ∷ map active_record names) (map active_record names)
      (directory (listing_of names)) store-Distinct store_loads store_compacts

abbrev active_name : String
active_name = "a123456789abcdef01234500"

compact-Keeps_example : Elem (active_record active_name) (map active_record names)
unfolding sealed draft updated
compact-Keeps_example =
    compact-Keeps lib store (cleared_record ∷ map active_record names) (map active_record names)
      (directory (listing_of names)) (active_record active_name) store-Distinct store_loads
      store_compacts (later first) refl
