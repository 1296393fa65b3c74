-- ===== src/Broker/Ipc/Allowed.antt =====
-- The receipts that a response can carry (src/lumi_eggcracker/brokered/linux_ipc.py, lines 189-213), and
-- the denial codes of the operator (src/lumi_eggcracker/brokered/operator.py) among them.
use lumi_eggcracker.Base.{
  ℕ, String, ◌≡◌, refl, sym, arith, Bool, true, false, Option, none, some, List, str_eq, elem, err,
  Result-cases, inl, inr,
}
use mathlib.Core.Path.{subst}
use lumi_eggcracker.Json.{Fields, obj, str, bool, has_key, without, end, field}
use lumi_eggcracker.Broker.Library.{Library}
use lumi_eggcracker.Broker.Claims.{Claims, hex32, max_request_bytes}
use lumi_eggcracker.Broker.Requests.{
  Request, validate_request, request_code, request_fields, parse_canonical_json,
}
use lumi_eggcracker.Broker.State.{State, Run, Queue}
use lumi_eggcracker.Broker.Calls.{Receipt, denied, admission_denial, dispatch_denial}
use lumi_eggcracker.Broker.Ipc.Chains.{if_some, if_err, no_denial, one_err, only_err}
use lumi_eggcracker.Broker.Ipc.Validators.{
  receipt_codes, receipt_phases, receipt_outcomes, valid_receipt, receipt_shape, receipt_words,
  receipt_options,
}
use lumi_eggcracker.Broker.Ipc.Messages.{as_dict, optional_text, optional_number}

abbrev is_hex32 : Option String → Bool
is_hex32 none = true
is_hex32 (some s) = hex32 s

abbrev is_unsupported : Option String → Bool
is_unsupported none = true
is_unsupported (some s) = str_eq "UNSUPPORTED" s

-- A receipt whose words and identifiers are those that the boundary allows.
pub record IsAllowed (r : Receipt) : Type 0 where
  pub code : elem r.code receipt_codes ≡ true
  pub phase : elem r.phase receipt_phases ≡ true
  pub outcome : elem r.outcome receipt_outcomes ≡ true
  pub queue : is_hex32 r.queue_id ≡ true
  pub stop : is_unsupported r.process_stop ≡ true

-- the entries of a receipt without its run
abbrev redacted :
    String → Bool → Option ℕ → String → String → Option String → Option String → Fields
redacted code effect generation outcome phase stop queue_id = field "code" (str code) (
    field "effect_applied" (bool effect) (
      optional_number "generation" generation (
        field "outcome" (str outcome) (
          field "phase" (str phase)
            (optional_text "process_stop" stop (optional_text "queue_id" queue_id end))))))

redacted-valid :
    (code outcome phase : String) (effect : Bool) (generation : Option ℕ)
    (stop queue_id : Option String)
    → elem code receipt_codes ≡ true
    → elem phase receipt_phases ≡ true
    → elem outcome receipt_outcomes ≡ true
    → is_unsupported stop ≡ true
    → is_hex32 queue_id ≡ true
    → let fs = redacted code effect generation outcome phase stop queue_id in
      (receipt_shape fs ≡ true)
      × (receipt_words fs ≡ true)
      × (receipt_options fs ≡ true)
      × (has_key fs "run_id" ≡ false)
unfolding receipt_shape receipt_words receipt_options
redacted-valid code outcome phase effect none none none c p o u h =
    (refl, rw c (rw p (rw o refl)), ground (arith, u, h), refl)
redacted-valid code outcome phase effect none none (some q) c p o u h =
    (refl, rw c (rw p (rw o refl)), ground (arith, u, h), refl)
redacted-valid code outcome phase effect none (some t) none c p o u h =
    (refl, rw c (rw p (rw o refl)), ground (arith, u, h), refl)
redacted-valid code outcome phase effect none (some t) (some q) c p o u h =
    (refl, rw c (rw p (rw o refl)), ground (arith, u, h), refl)
redacted-valid code outcome phase effect (some g) none none c p o u h =
    (refl, rw c (rw p (rw o refl)), ground (arith, u, h), refl)
redacted-valid code outcome phase effect (some g) none (some q) c p o u h =
    (refl, rw c (rw p (rw o refl)), ground (arith, u, h), refl)
redacted-valid code outcome phase effect (some g) (some t) none c p o u h =
    (refl, rw c (rw p (rw o refl)), ground (arith, u, h), refl)
redacted-valid code outcome phase effect (some g) (some t) (some q) c p o u h =
    (refl, rw c (rw p (rw o refl)), ground (arith, u, h), refl)

without-as_dict :
    (code outcome phase : String) (effect : Bool) (generation : Option ℕ)
    (stop queue_id run_id : Option String)
    → let r : Receipt = record {
      phase = phase;
      outcome = outcome;
      code = code;
      run_id = run_id;
      queue_id = queue_id;
      generation = generation;
      effect_applied = effect;
      process_stop = stop;
    } in
      without "run_id" (as_dict r) ≡ redacted code effect generation outcome phase stop queue_id
unfolding as_dict
without-as_dict code outcome phase effect none none none none = refl
without-as_dict code outcome phase effect none none none (some r) = refl
without-as_dict code outcome phase effect none none (some q) none = refl
without-as_dict code outcome phase effect none none (some q) (some r) = refl
without-as_dict code outcome phase effect none (some t) none none = refl
without-as_dict code outcome phase effect none (some t) none (some r) = refl
without-as_dict code outcome phase effect none (some t) (some q) none = refl
without-as_dict code outcome phase effect none (some t) (some q) (some r) = refl
without-as_dict code outcome phase effect (some g) none none none = refl
without-as_dict code outcome phase effect (some g) none none (some r) = refl
without-as_dict code outcome phase effect (some g) none (some q) none = refl
without-as_dict code outcome phase effect (some g) none (some q) (some r) = refl
without-as_dict code outcome phase effect (some g) (some t) none none = refl
without-as_dict code outcome phase effect (some g) (some t) none (some r) = refl
without-as_dict code outcome phase effect (some g) (some t) (some q) none = refl
without-as_dict code outcome phase effect (some g) (some t) (some q) (some r) = refl

-- An allowed receipt is a valid one once its run is left out.
pub IsAllowed-valid :
    (r : Receipt)
    → IsAllowed r
    → let fs = without "run_id" (as_dict r) in
      (valid_receipt (some (obj fs)) ≡ true) × (has_key fs "run_id" ≡ false)
unfolding valid_receipt
IsAllowed-valid r h =
    let same =
      without-as_dict r.code r.outcome r.phase r.effect_applied r.generation r.process_stop
        r.queue_id r.run_id in
    let (shape, words, options, hidden) =
      redacted-valid r.code r.outcome r.phase r.effect_applied r.generation r.process_stop
        r.queue_id h.code h.phase h.outcome h.stop h.queue in
    subst (λ (fs : Fields). (valid_receipt (some (obj fs)) ≡ true) × (has_key fs "run_id" ≡ false))
      (sym same) (rw shape (rw words options), hidden)

pub denied-IsAllowed :
    (phase code : String) (run_id queue_id : Option String) (generation : Option ℕ)
    → elem phase receipt_phases ≡ true
    → elem code receipt_codes ≡ true
    → is_hex32 queue_id ≡ true
    → IsAllowed (denied phase code run_id queue_id generation)
denied-IsAllowed phase code run_id queue_id generation p c q = record {
  code = c;
  phase = p;
  outcome = refl;
  queue = q;
  stop = refl;
}

pub admission_denial-code :
    (s : State) (size now_ms : ℕ) (claims : Claims) (run : Run) (request : Request) (code : String)
    → admission_denial s size now_ms claims run request ≡ some code
    → elem code receipt_codes ≡ true
unfolding admission_denial
admission_denial-code s size now_ms claims run request code h =
    if_some receipt_codes _ "CAPABILITY_REVOKED" _ code refl
      (if_some receipt_codes _ "STALE_GENERATION" _ code refl (
        if_some receipt_codes _ "EXPIRED" _ code refl (
          if_some receipt_codes _ "REPLAY" _ code refl (
            if_some receipt_codes _ "REPLAY_CAPACITY_EXHAUSTED" _ code refl (
              if_some receipt_codes _ "BUDGET_EXHAUSTED" _ code refl (
                if_some receipt_codes _ "GLOBAL_BUDGET_EXHAUSTED" _ code refl
                  (no_denial receipt_codes code)))))))
      h

pub dispatch_denial-code :
    (s : State) (now_ms : ℕ) (claims : Claims) (run : Run) (item : Queue) (code : String)
    → dispatch_denial s now_ms claims run item ≡ some code
    → elem code receipt_codes ≡ true
unfolding dispatch_denial
dispatch_denial-code s now_ms claims run item code h =
    if_some receipt_codes _ "STALE_GENERATION" _ code refl
      (if_some receipt_codes _ "CAPABILITY_REVOKED" _ code refl (
        if_some receipt_codes _ "EXPIRED" _ code refl (
          if_some receipt_codes _ "REPLAY" _ code refl (
            if_some receipt_codes _ "BUDGET_EXHAUSTED" _ code refl
              (no_denial receipt_codes code)))))
      h

request_fields-code :
    (fs : Fields) (code : String) → request_fields fs ≡ err code → elem code receipt_codes ≡ true
unfolding request_fields
request_fields-code fs code h =
    if_err receipt_codes _ "UNKNOWN_FIELDS" _ code refl
      (if_err receipt_codes _ "MALFORMED_INPUT" _ code refl
        (one_err receipt_codes _ _ "MALFORMED_INPUT" code refl))
      h

pub validate_request-code :
    (lib : Library) (raw : List ℕ) (code : String)
    → validate_request lib raw ≡ err code
    → elem code receipt_codes ≡ true
unfolding validate_request request_code
validate_request-code lib raw code h =
    elim (Result-cases (parse_canonical_json lib raw max_request_bytes)) [
      | inl (fs, e) ↦ request_fields-code fs code (
          let opened : request_code lib (parse_canonical_json lib raw max_request_bytes)
              ≡ err code =
            h in
          rw e at opened)
      | inr (message, e) ↦
          (let opened : request_code lib (parse_canonical_json lib raw max_request_bytes)
                ≡ err code =
              h in
            if_err receipt_codes (str_eq message "non-canonical") "NON_CANONICAL_INPUT"
              (err "MALFORMED_INPUT") code refl (only_err receipt_codes "MALFORMED_INPUT" code refl)
              (rw e at opened))
    ]
