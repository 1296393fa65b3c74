-- ===== src/Incidents/Suppression.antt =====
-- `create` and `find_match` (src/lumi_eggcracker/incidents.py, lines 361-450): a relaunch of the
-- workload of an incident.
use lumi_eggcracker.Base.{
  ℕ, String, ◌≡◌, refl, sym, ap, ◌∙◌, arith, Bool, true, false, ◌&&◌, Option, none, some, List, [],
  ◌∷◌, leb, ==_iff, length, filter, str_eq, hex_text, ok, ◌>>◌, ◌>>=◌, require, or_raise,
  Bool-cases, inl, inr, if◌then◌else◌, eq_iff, eq_refl, >>=-eq-ok, require-eq-ok, Elem, first,
  later,
}
use mathlib.Core.Path.{subst}
use lumi_eggcracker.Base.Dict.{lookup}
use lumi_eggcracker.Json.{Value, Fields, get, same_keys, as_str, is_the, is_text, obj, str, from}
use lumi_eggcracker.Incidents.Nested.{Library, is_hex64, match_fields, validate_match}
use lumi_eggcracker.Incidents.Validity.{validate}
use lumi_eggcracker.Incidents.Store.{
  Root, File, Listing, directory, linked, missing, not_directory, regular, nat_at, text_at, put,
  written, write, max_incidents, paths, load_paths, load_all,
}
use lumi_eggcracker.Incidents.Lifecycle.{
  Subject, draft, sealed, create, Launch, is_match, first_match, find_match, is_active,
  same_profile,
}
use lumi_eggcracker.Incidents.Loading.{load_path-eq-ok, load_paths-Elem}
use lumi_eggcracker.Incidents.Parts.{validate-Checked}

-- What is found under a name is the record that was put there.
pub lookup-put :
    (j k : String) (f : File) (files : Listing)
    → lookup j (put k f files) ≡ (if str_eq j k then some f else lookup j files)
unfolding put
lookup-put j k f [] = refl
lookup-put j k f (e ∷ files) =
    ground (arith, eq_iff j k, eq_iff k e.0, eq_iff j e.0, lookup-put j k f files)

-- An active record that a launch matches is an answer of the search.
first_match-Elem :
    (l : Launch) (v : Fields) (values : List Fields)
    → Elem v values
    → is_active v ≡ true
    → is_match l v ≡ true
    → (w : Fields) × (first_match l (filter is_active values) ≡ some w)
      × (is_match l w ≡ true)
      × (is_active w ≡ true)
unfolding first_match
first_match-Elem l v _ first a m = (v, ground (arith, a, m), m, a)
first_match-Elem l v (w ∷ ws) (later e) a m =
    let (u, found, matches, live) = first_match-Elem l v ws e a m in
    elim (Bool-cases (is_active w && is_match l w)) [
      | inl both ↦ (w, ground (arith, both), ground (arith, both), ground (arith, both))
      | inr neither ↦ (u, ground (arith, neither, found), matches, live)
    ]

-- What `create` has written.
create-inversion :
    (lib : Library) (root root' : Root) (s : Subject) (now : ℕ) (v : Fields)
    → create lib root s now ≡ ok (v, root')
    → (event_id : String) × (v ≡ sealed lib (draft lib s event_id now))
      × (validate lib v ≡ ok v)
      × (written (text_at "incident_id" v) (regular (ok v)) root ≡ ok root')
unfolding create
create-inversion lib root root' s now v h =
    let (event_id, event, h1) =
      >>=-eq-ok
        (or_raise (as_str (get "event_id" s.receipt)) "incident requires an exact receipt identity")
        (λ id.
          require (hex_text 24 id) "incident requires an exact receipt identity"
          >> write lib root (sealed lib (draft lib s id now)))
        h in
    let draft' = sealed lib (draft lib s event_id now) in
    let (id_hex, h2) =
      require-eq-ok (hex_text 24 event_id) "incident requires an exact receipt identity"
        (write lib root draft') h1 in
    let (w, valid, h3) =
      >>=-eq-ok (validate lib draft')
        (λ c. written (text_at "incident_id" c) (regular (ok c)) root >>= (λ r. ok (c, r)))
        (unfold write in h2) in
    let (r, made, h4) =
      >>=-eq-ok (written (text_at "incident_id" w) (regular (ok w)) root) (λ r. ok (w, r)) h3 in
    let same = (validate-Checked lib draft' w valid).0 in
    let both : (w, r) ≡ (v, root') = cc in
    let named : w ≡ v = ap (λ (p : Fields × Root). p.0) both in
    let placed : r ≡ root' = ap (λ (p : Fields × Root). p.1) both in
    (
      event_id,
      sym named ∙ same,
      ap (validate lib) (sym named ∙ same) ∙ valid ∙ ap (λ (z : Fields). ok z) named,
      subst (λ (z : Fields). written (text_at "incident_id" z) (regular (ok z)) root ≡ ok r) named
            made
          ∙ ap (λ (z : Root). ok z) placed,
    )

written-lookup :
    (stem : String) (f : File) (root root' : Root) (files : Listing)
    → written stem f root ≡ ok root'
    → paths root' ≡ ok files
    → lookup stem files ≡ some f
unfolding written paths
written-lookup stem f missing root' files h p =
    let e : directory (put stem f []) ≡ root' = cc in
    let q : put stem f [] ≡ files = ground (arith, p, sym e) in
    subst (λ (d : Listing). lookup stem d ≡ some f) q
      (ground (arith, lookup-put stem stem f [], eq_refl stem))
written-lookup stem f not_directory root' files h p = cc
written-lookup stem f (linked old) root' files h p =
    let e : linked (put stem f old) ≡ root' = cc in ground (arith, p, sym e)
written-lookup stem f (directory old) root' files h p =
    let e : directory (put stem f old) ≡ root' = cc in
    let q : put stem f old ≡ files = ground (arith, p, sym e) in
    subst (λ (d : Listing). lookup stem d ≡ some f) q
      (ground (arith, lookup-put stem stem f old, eq_refl stem))

-- The launch that a match describes, with its executable and its profile if they are known.
abbrev pub relaunch : Fields → Bool → Bool → Launch
relaunch m exe profiled = record {
  argv_digest = text_at "argv_sha256" m;
  launch_uid = nat_at "uid" m;
  executable = if exe then some (text_at "executable_sha256" m) else none;
  launch_profile = if profiled then as_str (get "profile" m) else none;
}

is_the-text :
    (o : Option Value) (p : String → Bool)
    → is_text p o ≡ true
    → is_the (elim (as_str o) [ none ↦ "" | some t ↦ t ]) o ≡ true
is_the-text (some (str t)) p h = ground (arith, eq_refl t)
is_the-text none p h = cc
is_the-text (some v) p h = ground (arith, h)

match-hexes :
    (m : Fields)
    → validate_match (some (obj m)) ≡ ok tt
    → (is_hex64 (get "argv_sha256" m) ≡ true) × (is_hex64 (get "executable_sha256" m) ≡ true)
unfolding validate_match
match-hexes m h =
    let (keyed, h1) =
      require-eq-ok (same_keys m ("argv_sha256" ∷ "executable_sha256" ∷ "profile" ∷ "uid" ∷ []))
        "incident match identity is invalid" (match_fields m) h in
    let (argv, h2) =
      require-eq-ok (is_hex64 (get "argv_sha256" m)) "incident argv identity is invalid" _ h1 in
    let (program, h3) =
      require-eq-ok (is_hex64 (get "executable_sha256" m)) "incident executable identity is invalid"
        _ h2 in
    (argv, program)

profile_again :
    (o : Option Value) (profiled : Bool)
    → same_profile o (if profiled then as_str o else none) ≡ true
profile_again (some (str t)) true = ground (arith, eq_refl t)
profile_again none true = refl
profile_again (some v) true = ground arith
profile_again o false = refl

relaunch-match :
    (m : Fields) (exe profiled : Bool)
    → validate_match (some (obj m)) ≡ ok tt
    → is_match (relaunch m exe profiled) (from (("match", obj m) ∷ [])) ≡ true
unfolding is_match
relaunch-match m exe profiled h =
    let (argv, program) = match-hexes m h in
    let a = is_the-text (get "argv_sha256" m) (hex_text 64) argv in
    let e = is_the-text (get "executable_sha256" m) (hex_text 64) program in
    let p = profile_again (get "profile" m) profiled in
    elim exe as (λ x. is_match (relaunch m x profiled) (from (("match", obj m) ∷ [])) ≡ true) [
      | true ↦ ground (arith, a, e, p, ==_iff (nat_at "uid" m) (nat_at "uid" m))
      | false ↦ ground (arith, a, p, ==_iff (nat_at "uid" m) (nat_at "uid" m))
    ]

file_same : (v u : Fields) → regular (ok v) ≡ regular (ok u) → u ≡ v
file_same v u h = cc

-- After an incident is created, as long as the store loads, a launch of the incident's program by its
-- user with its arguments, whose executable and profile are the incident's or not known, is found: the
-- search answers a record that matches the launch and is active or acknowledged.
pub create-find_match :
    (lib : Library) (root root' : Root) (s : Subject) (now : ℕ) (v : Fields) (values : List Fields)
    (exe profiled : Bool)
    → create lib root s now ≡ ok (v, root')
    → load_all lib root' ≡ ok values
    → let l = relaunch s.match_of exe profiled in
      (w : Fields) × (find_match values l ≡ some w) × (is_match l w ≡ true) × (is_active w ≡ true)
unfolding create load_all find_match
create-find_match lib root root' s now v values exe profiled h loaded =
    let l = relaunch s.match_of exe profiled in
    let (event_id, is_draft, valid, made) = create-inversion lib root root' s now v h in
    let (files, listed, h1) =
      >>=-eq-ok (paths root')
        (λ files.
          require (leb (length files) max_incidents) "incident store exceeds bounded capacity"
          >> load_paths lib files)
        loaded in
    let (small, h2) =
      require-eq-ok (leb (length files) max_incidents) "incident store exceeds bounded capacity"
        (load_paths lib files) h1 in
    let there =
      written-lookup (text_at "incident_id" v) (regular (ok v)) root root' files made listed in
    let (u, held, is_u) =
      load_paths-Elem lib files values (text_at "incident_id" v) (regular (ok v)) h2 there in
    let same =
      file_same v u (load_path-eq-ok lib (text_at "incident_id" v) (regular (ok v)) u is_u).0
      ∙ is_draft in
    let checked = (validate-Checked lib v v valid).1 in
    let at_match : get "match" v ≡ some (obj s.match_of) =
      ap (get "match") is_draft ∙ (unfold sealed draft in refl) in
    let matched : validate_match (some (obj s.match_of)) ≡ ok tt =
      rw at_match at (checked.singles.1.1.1.1.1.1.1.1.1.1.0) in
    let repeats = relaunch-match s.match_of exe profiled matched in
    let live : is_active u ≡ true = ap is_active same ∙ (unfold sealed draft in refl) in
    let matches : is_match l u ≡ true =
      ap (is_match l) same ∙ (unfold is_match sealed draft in repeats) in
    first_match-Elem l u values held live matches
