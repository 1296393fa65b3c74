-- ===== src/Incidents/Removal.antt =====
-- Removing files of the incident directory, and the order by age (src/lumi_eggcracker/incidents.py,
-- lines 325-343).
use lumi_eggcracker.Base.{
  ◌+◌, String, ◌≡◌, sym, arith, true, none, List, [], ◌∷◌, length, str_eq, elem, map, hex_text, ok,
  if◌then◌else◌, eq_iff, require-eq-ok,
}
use mathlib.Core.Path.{subst}
use lumi_eggcracker.Base.Dict.{Distinct, lookup}
use lumi_eggcracker.Json.{Fields}
use lumi_eggcracker.Incidents.Store.{Listing, unlink, is_file, remove_each}
use lumi_eggcracker.Incidents.Loading.{id_of}

lookup-unlink :
    (j k : String) (files : Listing)
    → Distinct files
    → lookup j (unlink k files) ≡ (if str_eq j k then none else lookup j files)
unfolding unlink
lookup-unlink j k [] h = ground arith
lookup-unlink j k (e ∷ files) h =
    ground (arith, eq_iff j k, eq_iff k e.0, eq_iff j e.0, lookup-unlink j k files h.1, h.0)

unlink-Distinct : (k : String) (files : Listing) → Distinct files → Distinct (unlink k files)
unfolding unlink
unlink-Distinct k [] h = tt
unlink-Distinct k (e ∷ files) h =
    ground (arith, unlink-Distinct k files h.1, h, lookup-unlink e.0 k files h.1)

length-unlink :
    (k : String) (files : Listing)
    → is_file (lookup k files) ≡ true
    → length (unlink k files) + 1 ≡ length files
unfolding unlink is_file
length-unlink k [] h = cc
length-unlink k (e ∷ files) h = ground (arith, h, length-unlink k files)

-- What is left when some records' files have been removed.
pub remove_each-Removed :
    (vs : List Fields) (files files' : Listing)
    → Distinct files
    → remove_each vs files ≡ ok files'
    → Distinct files'
      × (length files' + length vs ≡ length files)
      × ((j : String) → lookup j files' ≡ (if elem j (map id_of vs) then none else lookup j files))
unfolding remove_each
remove_each-Removed [] files files' h e =
    let same : files ≡ files' = cc in
    (subst (Distinct) same h, ground (arith, sym same), λ (j : String). ground (arith, sym same))
remove_each-Removed (v ∷ vs) files files' h e =
    let (hex, e1) = require-eq-ok (hex_text 24 (id_of v)) "incident identity is invalid" _ e in
    let (there, e2) =
      require-eq-ok (is_file (lookup (id_of v) files)) "incident filename is invalid" _ e1 in
    let (d, l, ih) =
      remove_each-Removed vs (unlink (id_of v) files) files' (unlink-Distinct (id_of v) files h)
        e2 in
    (
      d,
      omega (arith, l, length-unlink (id_of v) files there),
      λ (j : String). ground (arith, ih j, lookup-unlink j (id_of v) files h, eq_iff j (id_of v)),
    )
