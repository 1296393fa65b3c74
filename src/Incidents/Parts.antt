-- ===== src/Incidents/Parts.antt =====
-- What `validate` has checked (src/lumi_eggcracker/incidents.py, lines 173-246), as a list of checks.
use lumi_eggcracker.Base.{
  ℕ, String, ◌≡◌, refl, sym, ap, ◌∙◌, arith, true, false, not, ◌&&◌, Option, List, [], ◌∷◌, all,
  elem, hex_text, Result, ok, require, &&_split, All,
}
use lumi_eggcracker.Base.Checks.{run, run-AllOk, AllOk-run, require-ok}
use lumi_eggcracker.Json.{Value, Fields, get, same_keys, is_int, is_text, is_the}
use lumi_eggcracker.Incidents.Nested.{
  Library, is_hex64, is_safe, validate_match, validate_approval, validate_workload, validate_ack,
  validate_response, validate_recurrence,
}
use lumi_eggcracker.Incidents.Validity.{
  incident_schema, incident_keys, integrity, check_state, check_detector, check_linked, is_null,
  validate,
}

-- a check of the value under one key
abbrev pub Check : Type 0
Check = String × (Option Value → Result (Unit {0}))

-- The checks of one value each, but for those under the four keys that `link` writes.
abbrev pub single_checks : Library → List Check
single_checks lib =
    ("incident_id", λ o. require (is_text (hex_text 24) o) "incident identity is invalid")
    ∷ ("catalogue_sha256", λ o. require (is_hex64 o) "incident digest is invalid")
    ∷ ("original_receipt_digest", λ o. require (is_hex64 o) "incident digest is invalid")
    ∷ ("policy_sha256", λ o. require (is_hex64 o) "incident digest is invalid")
    ∷ (
      "source_commit",
      λ o. require (is_text (hex_text 40) o) "incident source identity is invalid",
    )
    ∷ ("version", λ o. require (is_safe o) "incident version is invalid")
    ∷ ("trigger", λ o. require (is_safe o) "incident trigger is invalid")
    ∷ ("state", check_state)
    ∷ ("created_monotonic_ns", λ o. require (is_int 0 o) "incident integer is invalid")
    ∷ ("detector", check_detector)
    ∷ ("match", validate_match)
    ∷ ("approval", validate_approval)
    ∷ ("workload", validate_workload)
    ∷ ("acknowledgement", validate_ack lib)
    ∷ ("clearance", validate_ack lib)
    ∷ ("response", validate_response)
    ∷ []

abbrev pub Passes : Fields → Check → Type 0
Passes fs c = c.1 (get c.0 fs) ≡ ok tt

-- What a valid record satisfies.
pub record Checked (lib : Library) (fs : Fields) : Type 0 where
  pub keyed : same_keys fs incident_keys ≡ true
  pub schema : is_the incident_schema (get "schema_version" fs) ≡ true
  pub singles : All (Passes fs) (single_checks lib)
  pub sealed_hex : is_hex64 (get "integrity_sha256" fs) ≡ true
  pub sealed_by : is_the (integrity lib fs) (get "integrity_sha256" fs) ≡ true
  pub generation : is_int 1 (get "generation" fs) ≡ true
  pub recurrence : validate_recurrence (get "recurrence" fs) ≡ ok tt
  pub linked : check_linked (get "linked_receipts" fs) ≡ ok tt
  pub clearance : not (is_the "CLEARED" (get "state" fs) && is_null (get "clearance" fs)) ≡ true

-- the checks in the code's order
abbrev checks : Library → Fields → List (Result (Unit {0}))
checks lib fs =
    require (same_keys fs incident_keys && is_the incident_schema (get "schema_version" fs))
      "incident schema is invalid"
    ∷ require (is_text (hex_text 24) (get "incident_id" fs)) "incident identity is invalid"
    ∷ require (is_hex64 (get "integrity_sha256" fs)) "incident integrity is invalid"
    ∷ require (is_the (integrity lib fs) (get "integrity_sha256" fs))
        "incident integrity does not match contents"
    ∷ require (is_hex64 (get "catalogue_sha256" fs)) "incident digest is invalid"
    ∷ require (is_hex64 (get "original_receipt_digest" fs)) "incident digest is invalid"
    ∷ require (is_hex64 (get "policy_sha256" fs)) "incident digest is invalid"
    ∷ require (is_text (hex_text 40) (get "source_commit" fs)) "incident source identity is invalid"
    ∷ require (is_safe (get "version" fs)) "incident version is invalid"
    ∷ require (is_safe (get "trigger" fs)) "incident trigger is invalid"
    ∷ check_state (get "state" fs)
    ∷ require (is_int 0 (get "created_monotonic_ns" fs)) "incident integer is invalid"
    ∷ require (is_int 0 (get "generation" fs)) "incident integer is invalid"
    ∷ require (is_int 1 (get "generation" fs)) "incident generation is invalid"
    ∷ check_detector (get "detector" fs)
    ∷ validate_match (get "match" fs)
    ∷ validate_approval (get "approval" fs)
    ∷ validate_workload (get "workload" fs)
    ∷ validate_ack lib (get "acknowledgement" fs)
    ∷ validate_ack lib (get "clearance" fs)
    ∷ validate_response (get "response" fs)
    ∷ validate_recurrence (get "recurrence" fs)
    ∷ check_linked (get "linked_receipts" fs)
    ∷ require (not (is_the "CLEARED" (get "state" fs) && is_null (get "clearance" fs)))
        "cleared incident lacks root clearance"
    ∷ []

validate-run : (lib : Library) (fs : Fields) → validate lib fs ≡ run (checks lib fs) (ok fs)
unfolding validate
validate-run lib fs = refl

-- What is returned is the record, which has passed every check.
pub validate-Checked :
    (lib : Library) (fs v : Fields) → validate lib fs ≡ ok v → (v ≡ fs) × Checked lib fs
validate-Checked lib fs v h =
    let (passed, e) = run-AllOk (checks lib fs) (ok fs) (sym (validate-run lib fs) ∙ h) in
    let (k, s) =
      &&_split (same_keys fs incident_keys) (is_the incident_schema (get "schema_version" fs))
        (require-ok _ _ passed.0) in
    let same : v ≡ fs = cc in
    (
      same,
      record {
        keyed = k;
        schema = s;
        singles = (
          passed.1.0,
          (
            passed.1.1.1.1.0,
            (
              passed.1.1.1.1.1.0,
              (
                passed.1.1.1.1.1.1.0,
                (
                  passed.1.1.1.1.1.1.1.0,
                  (
                    passed.1.1.1.1.1.1.1.1.0,
                    (
                      passed.1.1.1.1.1.1.1.1.1.0,
                      (
                        passed.1.1.1.1.1.1.1.1.1.1.0,
                        (
                          passed.1.1.1.1.1.1.1.1.1.1.1.0,
                          (
                            passed.1.1.1.1.1.1.1.1.1.1.1.1.1.1.0,
                            (
                              passed.1.1.1.1.1.1.1.1.1.1.1.1.1.1.1.0,
                              (
                                passed.1.1.1.1.1.1.1.1.1.1.1.1.1.1.1.1.0,
                                (
                                  passed.1.1.1.1.1.1.1.1.1.1.1.1.1.1.1.1.1.0,
                                  (
                                    passed.1.1.1.1.1.1.1.1.1.1.1.1.1.1.1.1.1.1.0,
                                    (
                                      passed.1.1.1.1.1.1.1.1.1.1.1.1.1.1.1.1.1.1.1.0,
                                      (passed.1.1.1.1.1.1.1.1.1.1.1.1.1.1.1.1.1.1.1.1.0, tt),
                                    ),
                                  ),
                                ),
                              ),
                            ),
                          ),
                        ),
                      ),
                    ),
                  ),
                ),
              ),
            ),
          ),
        );
        sealed_hex = require-ok _ _ passed.1.1.0;
        sealed_by = require-ok _ _ passed.1.1.1.0;
        generation = require-ok _ _ passed.1.1.1.1.1.1.1.1.1.1.1.1.1.0;
        recurrence = passed.1.1.1.1.1.1.1.1.1.1.1.1.1.1.1.1.1.1.1.1.1.0;
        linked = passed.1.1.1.1.1.1.1.1.1.1.1.1.1.1.1.1.1.1.1.1.1.1.0;
        clearance = require-ok _ _ passed.1.1.1.1.1.1.1.1.1.1.1.1.1.1.1.1.1.1.1.1.1.1.1.0;
      },
    )

is_int-weaken : (n : ℕ) (o : Option Value) → is_int n o ≡ true → is_int 0 o ≡ true
is_int-weaken n o h = ground arith

pub Checked-validate : (lib : Library) (fs : Fields) → Checked lib fs → validate lib fs ≡ ok fs
Checked-validate lib fs c =
    validate-run lib fs
    ∙ AllOk-run (checks lib fs) (ok fs) (
      ground (arith, c.keyed, c.schema),
      (
        c.singles.0,
        (
          ground (arith, c.sealed_hex),
          (
            ground (arith, c.sealed_by),
            (
              c.singles.1.0,
              (
                c.singles.1.1.0,
                (
                  c.singles.1.1.1.0,
                  (
                    c.singles.1.1.1.1.0,
                    (
                      c.singles.1.1.1.1.1.0,
                      (
                        c.singles.1.1.1.1.1.1.0,
                        (
                          c.singles.1.1.1.1.1.1.1.0,
                          (
                            c.singles.1.1.1.1.1.1.1.1.0,
                            (
                              ground (arith, is_int-weaken 1 (get "generation" fs) c.generation),
                              (
                                ground (arith, c.generation),
                                (
                                  c.singles.1.1.1.1.1.1.1.1.1.0,
                                  (
                                    c.singles.1.1.1.1.1.1.1.1.1.1.0,
                                    (
                                      c.singles.1.1.1.1.1.1.1.1.1.1.1.0,
                                      (
                                        c.singles.1.1.1.1.1.1.1.1.1.1.1.1.0,
                                        (
                                          c.singles.1.1.1.1.1.1.1.1.1.1.1.1.1.0,
                                          (
                                            c.singles.1.1.1.1.1.1.1.1.1.1.1.1.1.1.0,
                                            (
                                              c.singles.1.1.1.1.1.1.1.1.1.1.1.1.1.1.1.0,
                                              (
                                                c.recurrence,
                                                (c.linked, (ground (arith, c.clearance), tt)),
                                              ),
                                            ),
                                          ),
                                        ),
                                      ),
                                    ),
                                  ),
                                ),
                              ),
                            ),
                          ),
                        ),
                      ),
                    ),
                  ),
                ),
              ),
            ),
          ),
        ),
      ),
    )

-- Checks of single values pass on to a record with the same values but under the keys `written`.
pub All-Passes :
    (f g : Fields) (written : List String) (checked : List Check)
    → ((k : String) → elem k written ≡ false → get k g ≡ get k f)
    → all (λ (c : Check). not (elem c.0 written)) checked ≡ true
    → All (Passes f) checked
    → All (Passes g) checked
All-Passes f g written [] same apart h = tt
All-Passes f g written (c ∷ cs) same apart h =
    let (c_apart, cs_apart) =
      &&_split (not (elem c.0 written)) (all (λ (d : Check). not (elem d.0 written)) cs) apart in
    let outside : elem c.0 written ≡ false = ground (arith, c_apart) in
    (ap c.1 (same c.0 outside) ∙ h.0, All-Passes f g written cs same cs_apart h.1)
