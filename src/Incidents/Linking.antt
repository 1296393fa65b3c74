-- ===== src/Incidents/Linking.antt =====
-- `link` (src/lumi_eggcracker/incidents.py, lines 453-466): a further receipt is always recorded on a
-- valid incident.
use lumi_eggcracker.Base.{
  ◌+◌, ◌≤◌, String, ◌≡◌, ◌⊎◌, refl, arith, Bool, true, false, some, List, [], ◌∷◌, length, str_eq,
  elem, hex_text, ok, if◌then◌else◌, eq_refl,
}
use lumi_eggcracker.Json.{
  Value, Fields, get, same_keys, is_the, set, set_all, without, str, int, pos, obj,
}
use lumi_eggcracker.Json.Laws.{
  get-set, get-set_same, same_keys-set, same_keys-has_key, without-set_same,
}
use lumi_eggcracker.Incidents.Nested.{Library, is_hex64}
use lumi_eggcracker.Incidents.Validity.{max_linked_receipts, integrity, incident_keys, validate}
use lumi_eggcracker.Incidents.Store.{
  Listing, directory, regular, nat_at, text_at, put, written, write,
}
use lumi_eggcracker.Incidents.Lifecycle.{
  text_list, sealed, updated, update, sampled, recounted, linked_of, recurrence_of, link,
}
use lumi_eggcracker.Incidents.Sample.{
  check_linked-IsSample, IsSample-check_linked, linked_of-text_list, sampled-IsSample,
  recounted-same, recurrence_of-obj, sampled-elem, nat_at-recounted,
}
use lumi_eggcracker.Incidents.Parts.{
  Checked, validate-Checked, Checked-validate, All-Passes, single_checks,
}

-- the changes that `link` asks for
abbrev changes_of : Library → Fields → Fields → Bool → List (String × Value)
changes_of lib v receipt partial =
    ("linked_receipts", text_list (sampled (linked_of v) (lib.digest receipt)))
    ∷ ("recurrence", obj (recounted (recurrence_of v) partial))
    ∷ []

abbrev written_keys : List String
written_keys = "linked_receipts" ∷ "recurrence" ∷ "generation" ∷ "integrity_sha256" ∷ []

abbrev linked_record : Library → Fields → Fields → Bool → Fields
linked_record lib v receipt partial = updated lib v (changes_of lib v receipt partial)

-- Reading through the four entries that are written.
get-four :
    (k : String) (l r g i : Value) (v : Fields)
    → let u =
        set "integrity_sha256" i
          (set "generation" g (set "recurrence" r (set "linked_receipts" l v))) in
      get k u ≡ (
        if str_eq k "integrity_sha256"
        then some i
        else if str_eq k "generation"
        then some g
        else if str_eq k "recurrence"
        then some r
        else if str_eq k "linked_receipts"
        then some l
        else get k v)
get-four k l r g i v =
    let a = set "linked_receipts" l v in
    let b = set "recurrence" r a in
    let c = set "generation" g b in
    ground (
      arith,
      get-set k "integrity_sha256" i c,
      get-set k "generation" g b,
      get-set k "recurrence" r a,
      get-set k "linked_receipts" l v,
    )

module _ (lib : Library) (v receipt : Fields) (partial : Bool) where
  abbrev l : Value
  l = text_list (sampled (linked_of v) (lib.digest receipt))

  abbrev r : Value
  r = obj (recounted (recurrence_of v) partial)

  abbrev g : Value
  g = int (pos (nat_at "generation" v + 1))

  abbrev i : Value
  i = str (integrity lib (set "generation" g (set_all (changes_of lib v receipt partial) v)))

  get-unwritten :
      (k : String)
      → elem k written_keys ≡ false
      → get k (linked_record lib v receipt partial) ≡ get k v
  unfolding updated
  get-unwritten k h = ground (arith, h, get-four k l r g i v)

  get-linked :
      (get "linked_receipts" (linked_record lib v receipt partial)
        ≡ some (text_list (sampled (linked_of v) (lib.digest receipt))))
      × (get "recurrence" (linked_record lib v receipt partial)
          ≡ some (obj (recounted (recurrence_of v) partial)))
      × (get "generation" (linked_record lib v receipt partial)
          ≡ some (int (pos (nat_at "generation" v + 1))))
  unfolding updated
  get-linked = (
    get-four "linked_receipts" l r g i v,
    get-four "recurrence" l r g i v,
    get-four "generation" l r g i v,
  )

  same_keys-linked :
      same_keys v incident_keys ≡ true
      → same_keys (linked_record lib v receipt partial) incident_keys ≡ true
  unfolding updated
  same_keys-linked h =
      let a = set "linked_receipts" l v in
      let b = set "recurrence" r a in
      let c = set "generation" g b in
      let ha =
        same_keys-set "linked_receipts" l v incident_keys
          (same_keys-has_key "linked_receipts" v incident_keys refl h) h in
      let hb =
        same_keys-set "recurrence" r a incident_keys
          (same_keys-has_key "recurrence" a incident_keys refl ha) ha in
      let hc =
        same_keys-set "generation" g b incident_keys
          (same_keys-has_key "generation" b incident_keys refl hb) hb in
      same_keys-set "integrity_sha256" i c incident_keys
        (same_keys-has_key "integrity_sha256" c incident_keys refl hc) hc

-- A sealed record claims its own integrity.
pub sealed_by-sealed :
    (lib : Library) (value : Fields)
    → is_the (integrity lib (sealed lib value)) (get "integrity_sha256" (sealed lib value)) ≡ true
unfolding sealed integrity
sealed_by-sealed lib value =
    let s = str (lib.digest (without "integrity_sha256" value)) in
    ground (
      arith,
      get-set_same "integrity_sha256" s value,
      without-set_same "integrity_sha256" s value,
      eq_refl (lib.digest (without "integrity_sha256" value)),
    )

pub sealed_hex-sealed :
    (lib : Library) (value : Fields)
    → ((x : Fields) → hex_text 64 (lib.digest x) ≡ true)
    → is_hex64 (get "integrity_sha256" (sealed lib value)) ≡ true
unfolding sealed integrity
sealed_hex-sealed lib value hex =
    let s = str (lib.digest (without "integrity_sha256" value)) in
    ground (arith, get-set_same "integrity_sha256" s value, hex (without "integrity_sha256" value))

linked-Checked :
    (lib : Library) (v receipt : Fields) (partial : Bool)
    → ((x : Fields) → hex_text 64 (lib.digest x) ≡ true)
    → Checked lib v
    → Checked lib (linked_record lib v receipt partial)
linked-Checked lib v receipt partial hex c =
    let u = linked_record lib v receipt partial in
    let same = get-unwritten lib v receipt partial in
    let (at_linked, at_recurrence, at_generation) = get-linked lib v receipt partial in
    let sample =
      sampled-IsSample (linked_of v) (lib.digest receipt) (check_linked-IsSample v c.linked)
        (hex receipt) in
    record {
      keyed = same_keys-linked lib v receipt partial c.keyed;
      schema = rw (same "schema_version" refl) c.schema;
      singles = All-Passes v u written_keys (single_checks lib) same refl c.singles;
      sealed_hex =
          unfold updated in
          sealed_hex-sealed lib
            (set "generation" (g lib v receipt partial)
              (set_all (changes_of lib v receipt partial) v))
            hex;
      sealed_by =
          unfold updated in
          sealed_by-sealed lib (
            set "generation" (g lib v receipt partial)
              (set_all (changes_of lib v receipt partial) v));
      generation = ground (arith, at_generation);
      recurrence =
          rw at_recurrence
            (recounted-same (recurrence_of v) partial (recurrence_of-obj v c.recurrence));
      linked =
          rw at_linked (IsSample-check_linked (sampled (linked_of v) (lib.digest receipt)) sample);
      clearance = rw (same "state" refl) (rw (same "clearance" refl) c.clearance);
    }

-- Of a valid incident in the store's directory, `link` always succeeds when digests have 64
-- hexadecimal digits: it writes a valid record under the incident's identity, one generation later,
-- in the same state, with at most 64 linked receipts, this one among them unless the sample was full,
-- and with its counters raised.
pub link-Recorded :
    (lib : Library) (files : Listing) (v receipt : Fields) (partial : Bool)
    → ((x : Fields) → hex_text 64 (lib.digest x) ≡ true)
    → validate lib v ≡ ok v
    → (u : Fields) × (link lib (directory files) v receipt partial
        ≡ ok (u, directory (put (text_at "incident_id" v) (regular (ok u)) files)))
      × (validate lib u ≡ ok u)
      × (nat_at "generation" u ≡ nat_at "generation" v + 1)
      × (get "state" u ≡ get "state" v)
      × (length (linked_of u) ≤ max_linked_receipts)
      × ((elem (lib.digest receipt) (linked_of u) ≡ true)
          ⊎ (length (linked_of v) ≡ max_linked_receipts))
      × (nat_at "complete_matches" (recurrence_of u)
          ≡ nat_at "complete_matches" (recurrence_of v) + 1)
      × (nat_at "contained_matches" (recurrence_of u)
          ≡ nat_at "contained_matches" (recurrence_of v) + 1)
      × (nat_at "partial_matches" (recurrence_of u)
          ≡ nat_at "partial_matches" (recurrence_of v) + (if partial then 1 else 0))
unfolding link update write written
link-Recorded lib files v receipt partial hex h =
    let c = (validate-Checked lib v v h).1 in
    let u = linked_record lib v receipt partial in
    let valid = Checked-validate lib u (linked-Checked lib v receipt partial hex c) in
    let same = get-unwritten lib v receipt partial in
    let (at_linked, at_recurrence, at_generation) = get-linked lib v receipt partial in
    let sample = check_linked-IsSample v c.linked in
    let sample' = sampled-IsSample (linked_of v) (lib.digest receipt) sample (hex receipt) in
    let linked : linked_of u ≡ sampled (linked_of v) (lib.digest receipt) = ground (
      arith,
      at_linked,
      linked_of-text_list (sampled (linked_of v) (lib.digest receipt)) sample'.1,
    ) in
    let recurrence : recurrence_of u ≡ recounted (recurrence_of v) partial =
      ground (arith, at_recurrence) in
    let counts = nat_at-recounted (recurrence_of v) partial in
    (
      u,
      ground (
        arith,
        h,
        same_keys-has_key "linked_receipts" v incident_keys refl c.keyed,
        same_keys-has_key "recurrence" v incident_keys refl c.keyed,
        valid,
        same "incident_id" refl,
      ),
      valid,
      ground (arith, at_generation),
      same "state" refl,
      rw linked (sample'.0),
      rw linked (sampled-elem (linked_of v) (lib.digest receipt) sample),
      rw recurrence counts.0,
      rw recurrence counts.1,
      rw recurrence counts.2,
    )
