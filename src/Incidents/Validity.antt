-- ===== src/Incidents/Validity.antt =====
-- `validate`, `integrity` and the projections of an incident (src/lumi_eggcracker/incidents.py,
-- lines 165-246 and 469-504).
use lumi_eggcracker.Base.{
  ℕ, String, Bool, true, false, not, ◌&&◌, Option, none, some, List, [], ◌∷◌, leb, length, all,
  elem, hex_text, Result, ok, err, ◌>>◌, ◌>>=◌, require,
}
use lumi_eggcracker.Json.{
  Value, Fields, get, same_keys, as_list, as_str, is_int, is_text, is_the, null, str, obj, arr,
  without, select,
}
use lumi_eggcracker.Incidents.Nested.{
  Library, is_hex64, is_safe, is_profile, with_object, all_in, validate_match, validate_approval,
  validate_workload, validate_ack, validate_response, validate_recurrence,
}

abbrev pub incident_schema : String
incident_schema = "lumi-eggcracker.incident.v1"

abbrev pub max_linked_receipts : ℕ
max_linked_receipts = 64

abbrev pub max_evidence : ℕ
max_evidence = 16

-- `integrity`, of the record without its integrity
unfoldable pub integrity : Library → Fields → String
integrity lib fs = lib.digest (without "integrity_sha256" fs)

abbrev pub incident_keys : List String
incident_keys =
    "acknowledgement" ∷ "approval" ∷ "catalogue_sha256" ∷ "clearance" ∷ "created_monotonic_ns"
    ∷ "detector" ∷ "generation" ∷ "incident_id" ∷ "integrity_sha256" ∷ "linked_receipts" ∷ "match"
    ∷ "original_receipt_digest" ∷ "policy_sha256" ∷ "recurrence" ∷ "response" ∷ "schema_version"
    ∷ "source_commit" ∷ "state" ∷ "trigger" ∷ "version" ∷ "workload" ∷ []

-- `value not in STATES`: a list or a dict has no hash
unfoldable pub check_state : Option Value → Result (Unit {0})
check_state (some (str s)) =
    require (elem s ("ACTIVE" ∷ "ACKNOWLEDGED" ∷ "CLEARED" ∷ [])) "incident state is invalid"
check_state (some (obj fs)) = err "unhashable type: 'dict'"
check_state (some (arr vs)) = err "unhashable type: 'list'"
check_state v = err "incident state is invalid"

abbrev pub is_at_most : ℕ → Option Value → Bool
is_at_most n v = elim (as_list v) [ none ↦ false | some vs ↦ leb (length vs) n ]

abbrev pub detector_fields : Fields → Result (Unit {0})
detector_fields fs = do
  require (is_profile (get "profile" fs)) "incident detector profile is invalid"
  require (is_at_most max_evidence (get "evidence" fs)) "incident detector evidence is invalid"
  require (all_in is_safe (get "evidence" fs)) "incident detector evidence is invalid"

unfoldable pub check_detector : Option Value → Result (Unit {0})
check_detector v =
    with_object v ("evidence" ∷ "profile" ∷ []) "incident detector identity is invalid"
      detector_fields

-- the texts of a list of values
abbrev pub texts_of : List Value → List String
texts_of [] = []
texts_of (v ∷ vs) = elim (as_str (some v)) [ none ↦ texts_of vs | some s ↦ s ∷ texts_of vs ]

-- `len(set(xs)) == len(xs)`
abbrev pub no_repeat : List String → Bool
no_repeat [] = true
no_repeat (x ∷ xs) = not (elem x xs) && no_repeat xs

unfoldable pub check_linked : Option Value → Result (Unit {0})
check_linked v = elim (as_list v) [
  | none ↦ err "incident linked receipts are invalid"
  | some vs ↦ do
    require (leb (length vs) max_linked_receipts) "incident linked receipts are invalid"
    require (all (λ w. is_hex64 (some w)) vs) "incident linked receipt digest is invalid"
    require (no_repeat (texts_of vs)) "incident linked receipt is duplicated"
]

abbrev pub is_null : Option Value → Bool
is_null (some null) = true
is_null _ = false

abbrev pub claims_integrity : Library → Fields → Option Value → Bool
claims_integrity lib fs = is_the (integrity lib fs)

-- `validate`
unfoldable pub validate : Library → Fields → Result Fields
validate lib fs = do
  require (same_keys fs incident_keys && is_the incident_schema (get "schema_version" fs))
      "incident schema is invalid"
  require (is_text (hex_text 24) (get "incident_id" fs)) "incident identity is invalid"
  require (is_hex64 (get "integrity_sha256" fs)) "incident integrity is invalid"
  require (is_the (integrity lib fs) (get "integrity_sha256" fs))
      "incident integrity does not match contents"
  require (is_hex64 (get "catalogue_sha256" fs)) "incident digest is invalid"
  require (is_hex64 (get "original_receipt_digest" fs)) "incident digest is invalid"
  require (is_hex64 (get "policy_sha256" fs)) "incident digest is invalid"
  require (is_text (hex_text 40) (get "source_commit" fs)) "incident source identity is invalid"
  require (is_safe (get "version" fs)) "incident version is invalid"
  require (is_safe (get "trigger" fs)) "incident trigger is invalid"
  check_state (get "state" fs)
  require (is_int 0 (get "created_monotonic_ns" fs)) "incident integer is invalid"
  require (is_int 0 (get "generation" fs)) "incident integer is invalid"
  require (is_int 1 (get "generation" fs)) "incident generation is invalid"
  check_detector (get "detector" fs)
  validate_match (get "match" fs)
  validate_approval (get "approval" fs)
  validate_workload (get "workload" fs)
  validate_ack lib (get "acknowledgement" fs)
  validate_ack lib (get "clearance" fs)
  validate_response (get "response" fs)
  validate_recurrence (get "recurrence" fs)
  check_linked (get "linked_receipts" fs)
  require (not (is_the "CLEARED" (get "state" fs) && is_null (get "clearance" fs)))
      "cleared incident lacks root clearance"
  ok fs

-- `summary`
unfoldable pub summary : Library → Fields → Result Fields
summary lib fs = do
  checked ← validate lib fs
  ok (select ("incident_id" ∷ "state" ∷ "trigger" ∷ []) checked)

-- `public_detail`
unfoldable pub public_detail : Library → Fields → Result Fields
public_detail lib fs = do
  checked ← validate lib fs
  ok (
      select
        ("incident_id" ∷ "state" ∷ "trigger" ∷ "version" ∷ "source_commit" ∷ "catalogue_sha256"
          ∷ "policy_sha256" ∷ "detector" ∷ "match" ∷ "approval" ∷ "workload"
          ∷ "original_receipt_digest" ∷ "linked_receipts" ∷ "recurrence" ∷ "response"
          ∷ "acknowledgement" ∷ "clearance" ∷ "generation" ∷ [])
        checked)
