-- ===== src/Incidents/Creation.antt =====
-- `create` (src/lumi_eggcracker/incidents.py, lines 361-413): an incident is written for every subject of
-- the right form.
use lumi_eggcracker.Base.{
  ℕ, ◌≤◌, String, zero, suc, ◌≡◌, refl, arith, true, some, List, [], ◌∷◌, length, take, all, map,
  hex_text, ok,
}
use lumi_eggcracker.Json.{Fields, get, obj, str, null, from}
use lumi_eggcracker.Json.Laws.{items-from_list}
use lumi_eggcracker.Incidents.Nested.{
  Library, safe_token, is_safe, is_profile, all_in, validate_match, validate_approval,
  validate_workload, validate_ack, validate_response, validate_recurrence,
}
use lumi_eggcracker.Incidents.Validity.{
  max_evidence, validate, check_state, check_detector, check_linked, is_at_most,
}
use lumi_eggcracker.Incidents.Store.{Listing, directory, regular, put, written, write}
use lumi_eggcracker.Incidents.Lifecycle.{
  Subject, draft, sealed, create, text_list, no_response, no_recurrence, is_active,
}
use lumi_eggcracker.Incidents.Linking.{sealed_by-sealed, sealed_hex-sealed}
use lumi_eggcracker.Incidents.Parts.{Checked, Checked-validate}

-- A subject whose parts have the form that the store asks for.
pub record IsSubject (s : Subject) : Type 0 where
  pub catalogue : hex_text 64 s.catalogue ≡ true
  pub source : hex_text 40 s.source_commit ≡ true
  pub version : safe_token s.version ≡ true
  pub trigger : safe_token s.trigger ≡ true
  pub profile : is_profile (some s.profile) ≡ true
  pub evidence : all safe_token s.evidence ≡ true
  pub match_ok : validate_match (some (obj s.match_of)) ≡ ok tt
  pub approval : validate_approval (some s.approval) ≡ ok tt
  pub workload : validate_workload (some (obj s.workload)) ≡ ok tt

take-all : (n : ℕ) (xs : List String) → all safe_token xs ≡ true → all safe_token (take n xs) ≡ true
take-all zero xs h = refl
take-all (suc n) [] h = refl
take-all (suc n) (x ∷ xs) h = ground (arith, h, take-all n xs)

length-take : (n : ℕ) (xs : List String) → length (take n xs) ≤ n
length-take zero xs = omega arith
length-take (suc n) [] = omega arith
length-take (suc n) (x ∷ xs) = omega (arith, length-take n xs)

map-str-safe :
    (xs : List String)
    → all safe_token xs ≡ true
    → (all (λ w. is_safe (some w)) (map str xs) ≡ true) × (length (map str xs) ≡ length xs)
map-str-safe [] h = (refl, refl)
map-str-safe (x ∷ xs) h = ground (arith, h, map-str-safe xs)

evidence-ok :
    (s : Subject)
    → IsSubject s
    → (is_at_most max_evidence (some (text_list (take max_evidence s.evidence))) ≡ true)
      × (all_in is_safe (some (text_list (take max_evidence s.evidence))) ≡ true)
evidence-ok s h =
    let kept = take max_evidence s.evidence in
    let small = length-take max_evidence s.evidence in
    let (safe, size) = map-str-safe kept (take-all max_evidence s.evidence h.evidence) in
    ground (arith, small, safe, size, items-from_list (map str kept))

active_state : check_state (some (str "ACTIVE")) ≡ ok tt
unfolding check_state
active_state = refl

no_ack : (lib : Library) → validate_ack lib (some null) ≡ ok tt
unfolding validate_ack
no_ack lib = refl

no_response_ok : validate_response (some (obj no_response)) ≡ ok tt
unfolding validate_response
no_response_ok = refl

no_recurrence_ok : validate_recurrence (some (obj no_recurrence)) ≡ ok tt
unfolding validate_recurrence
no_recurrence_ok = refl

no_links : check_linked (some (text_list [])) ≡ ok tt
unfolding check_linked
no_links = refl

detector_ok :
    (s : Subject)
    → IsSubject s
    → check_detector (
        some (
          obj (
            from (
              ("evidence", text_list (take max_evidence s.evidence))
              ∷ ("profile", s.profile)
              ∷ []))))
      ≡ ok tt
unfolding check_detector
detector_ok s h = let (small, safe) = evidence-ok s h in rw h.profile (rw small (rw safe refl))

module _ (lib : Library) (s : Subject) (event_id : String) (now : ℕ) where
  created-Checked :
      ((x : Fields) → hex_text 64 (lib.digest x) ≡ true)
      → IsSubject s
      → hex_text 24 event_id ≡ true
      → Checked lib (sealed lib (draft lib s event_id now))
  unfolding sealed draft
  created-Checked hex h id_hex =
      let d = draft lib s event_id now in
      record {
        keyed = refl;
        schema = refl;
        singles = (
          ground (arith, id_hex),
          (
            ground (arith, h.catalogue),
            (
              ground (arith, hex s.receipt),
              (
                ground (arith, hex s.policy),
                (
                  ground (arith, h.source),
                  (
                    ground (arith, h.version),
                    (
                      ground (arith, h.trigger),
                      (
                        active_state,
                        (
                          ground arith,
                          (
                            detector_ok s h,
                            (
                              h.match_ok,
                              (
                                h.approval,
                                (h.workload, (no_ack lib, (no_ack lib, (no_response_ok, tt)))),
                              ),
                            ),
                          ),
                        ),
                      ),
                    ),
                  ),
                ),
              ),
            ),
          ),
        );
        sealed_hex = unfold sealed in sealed_hex-sealed lib d hex;
        sealed_by = unfold sealed in sealed_by-sealed lib d;
        generation = refl;
        recurrence = no_recurrence_ok;
        linked = no_links;
        clearance = refl;
      }

  -- Where digests have 64 hexadecimal digits and the receipt names an event of 24, `create` of a
  -- subject of the right form writes a valid, active record under the event's identity.
  pub create-written :
      (files : Listing)
      → ((x : Fields) → hex_text 64 (lib.digest x) ≡ true)
      → IsSubject s
      → get "event_id" s.receipt ≡ some (str event_id)
      → hex_text 24 event_id ≡ true
      → (v : Fields) × (create lib (directory files) s now
          ≡ ok (v, directory (put event_id (regular (ok v)) files)))
        × (validate lib v ≡ ok v)
        × (is_active v ≡ true)
        × (get "match" v ≡ some (obj s.match_of))
  unfolding create write written
  create-written files hex h event id_hex =
      let v = sealed lib (draft lib s event_id now) in
      let valid = Checked-validate lib v (created-Checked hex h id_hex) in
      (
        v,
        ground (arith, event, id_hex, valid),
        valid,
        unfold sealed draft in refl,
        unfold sealed draft in refl,
      )
