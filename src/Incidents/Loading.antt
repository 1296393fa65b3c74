-- ===== src/Incidents/Loading.antt =====
-- Reading the incident directory (src/lumi_eggcracker/incidents.py, lines 293-312).
use lumi_eggcracker.Base.{
  String, ◌≡◌, ◌⊎◌, refl, sym, ap, ◌∙◌, arith, true, not, Option, none, some, List, [], ◌∷◌, length,
  str_eq, Result, ok, ◌>>◌, ◌>>=◌, require, Bool-cases, inl, inr, eq_iff, eq_refl, >>=-eq-ok,
  require-eq-ok, Elem, first, later,
}
use mathlib.Core.Path.{subst}
use lumi_eggcracker.Base.Dict.{Distinct, lookup}
use lumi_eggcracker.Json.{Value, Fields, get, as_str, is_the, str}
use lumi_eggcracker.Incidents.Nested.{Library}
use lumi_eggcracker.Incidents.Validity.{validate}
use lumi_eggcracker.Incidents.Store.{
  File, Listing, regular, symlink, text_at, load_path, load_paths,
}
use lumi_eggcracker.Incidents.Parts.{validate-Checked}

abbrev pub id_of : Fields → String
id_of v = text_at "incident_id" v

is_the-id :
    (stem : String) (o : Option Value)
    → is_the stem o ≡ true
    → (elim (as_str o) [ none ↦ "" | some t ↦ t ]) ≡ stem
is_the-id stem none h = cc
is_the-id stem (some (str t)) h = ground (arith, h, eq_iff stem t)
is_the-id stem (some v) h = ground (arith, h)

pub load_path-eq-ok :
    (lib : Library) (stem : String) (f : File) (v : Fields)
    → load_path lib stem f ≡ ok v
    → (f ≡ regular (ok v)) × (id_of v ≡ stem) × (validate lib v ≡ ok v)
unfolding load_path
load_path-eq-ok lib stem symlink v h = cc
load_path-eq-ok lib stem (regular content) v h =
    let (stemmed, h1) = require-eq-ok (not (str_eq stem "")) "incident filename is invalid" _ h in
    let (loaded, read, h2) =
      >>=-eq-ok content
        (λ loaded. validate lib loaded >>= (λ value.
          require (is_the stem (get "incident_id" value)) "incident name/path mismatch"
          >> ok value))
        h1 in
    let (value, valid, h3) =
      >>=-eq-ok (validate lib loaded)
        (λ value.
          require (is_the stem (get "incident_id" value)) "incident name/path mismatch" >> ok value)
        h2 in
    let (named, h4) =
      require-eq-ok (is_the stem (get "incident_id" value)) "incident name/path mismatch" (ok value)
        h3 in
    let same : value ≡ v = cc in
    let whole = (validate-Checked lib loaded value valid).0 in
    let is_v : loaded ≡ v = sym whole ∙ same in
    (
      ap (λ (r : Result Fields). regular r) (read ∙ ap (λ (z : Fields). ok z) is_v),
      ap id_of (sym same) ∙ is_the-id stem (get "incident_id" value) named,
      ap (validate lib) (sym is_v) ∙ valid ∙ ap (λ (z : Fields). ok z) same,
    )

load_paths-cons :
    (lib : Library) (g : String × File) (files : Listing) (values : List Fields)
    → load_paths lib (g ∷ files) ≡ ok values
    → (v : Fields) × (vs : List Fields) × (load_path lib g.0 g.1 ≡ ok v)
      × (load_paths lib files ≡ ok vs)
      × (v ∷ vs ≡ values)
unfolding load_paths
load_paths-cons lib g files values h =
    let (v, loaded, rest) =
      >>=-eq-ok (load_path lib g.0 g.1) (λ v. load_paths lib files >>= (λ rest. ok (v ∷ rest))) h in
    let (vs, others, listed) = >>=-eq-ok (load_paths lib files) (λ rest. ok (v ∷ rest)) rest in
    (v, vs, loaded, others, cc)

pub Elem-cons {ℓ} : {A : Type ℓ} (x y : A) (ys : List A) → Elem x (y ∷ ys) → (x ≡ y) ⊎ Elem x ys
Elem-cons x _ ys first = inl refl
Elem-cons x y ys (later e) = inr e

-- A loaded record stands in the file of its identity.
pub load_paths-lookup :
    (lib : Library) (files : Listing) (values : List Fields) (v : Fields)
    → Distinct files
    → load_paths lib files ≡ ok values
    → Elem v values
    → lookup (id_of v) files ≡ some (regular (ok v))
load_paths-lookup lib [] values v d h e =
    let empty : ◌≡◌ {A = List Fields} [] values = unfold load_paths in cc in
    elim (subst (Elem v) (sym empty) e) [ ]
load_paths-lookup lib (g ∷ files) values v d h e =
    let (w, ws, loaded, others, whole) = load_paths-cons lib g files values h in
    let (content, named, valid) = load_path-eq-ok lib g.0 g.1 w loaded in
    elim (Elem-cons v w ws (subst (Elem v) (sym whole) e)) [
      | inl same ↦
          subst (λ (z : Fields). lookup (id_of z) (g ∷ files) ≡ some (regular (ok z))) (sym same)
            (ground (arith, content, named, eq_refl g.0, eq_iff (id_of w) g.0))
      | inr held ↦
          (let there = load_paths-lookup lib files ws v d.1 others held in
            ground (arith, there, d.0, eq_iff (id_of v) g.0))
    ]

-- Each file of a loaded store is one of its records.
pub load_paths-Elem :
    (lib : Library) (files : Listing) (values : List Fields) (stem : String) (f : File)
    → load_paths lib files ≡ ok values
    → lookup stem files ≡ some f
    → (v : Fields) × Elem v values × (load_path lib stem f ≡ ok v)
load_paths-Elem lib [] values stem f h e = cc
load_paths-Elem lib (g ∷ files) values stem f h e =
    let (v, vs, loaded, others, whole) = load_paths-cons lib g files values h in
    elim (Bool-cases (str_eq stem g.0)) [
      | inl same ↦ (v, subst (Elem v) whole first, ground (arith, same, e, loaded, eq_iff stem g.0))
      | inr other ↦
          (let (w, held, is_w) =
              load_paths-Elem lib files vs stem f others (ground (arith, other, e)) in
            (w, subst (Elem w) whole (later held), is_w))
    ]

pub length-load_paths :
    (lib : Library) (files : Listing) (values : List Fields)
    → load_paths lib files ≡ ok values
    → length values ≡ length files
length-load_paths lib [] values h = unfold load_paths in ground (arith, h)
length-load_paths lib (g ∷ files) values h =
    let (v, vs, loaded, others, whole) = load_paths-cons lib g files values h in
    ground (arith, sym whole, length-load_paths lib files vs others)
