-- ===== src/Broker/Ipc/Exchange.antt =====
-- Requests that are refused, and requests that the client sends (src/lumi_eggcracker/brokered/linux_ipc.py,
-- lines 155-186, 588-597 and 760-788).
use lumi_eggcracker.Base.{
  ℕ, ◌≤◌, String, ◌≡◌, refl, sym, ap, arith, Bool, true, false, not, ◌&&◌, Option, none, some, List,
  str_eq, elem, length, ◌==◌, ok, err, if◌then◌else◌, Bool-cases, Option-cases, Result-cases, inl,
  inr,
}
use mathlib.Core.Path.{subst}
use lumi_eggcracker.Json.{Value, Fields, obj, str, get, same_keys, is_text, is_the, field, end}
use lumi_eggcracker.Broker.Library.{Library}
use lumi_eggcracker.Broker.Claims.{hex32, operation_id_text, text_at}
use lumi_eggcracker.Broker.Requests.{parse_canonical_json}
use lumi_eggcracker.Broker.Journal.{Anchor, Disk}
use lumi_eggcracker.Broker.Calls.{Grant}
use lumi_eggcracker.Broker.Ipc.Chains.{if_err, one_err, only_err}
use lumi_eggcracker.Broker.Ipc.Validators.{
  IpcRequest, submit, dispatch, get_result, ipc_schema, max_ipc_request_bytes,
  max_ipc_response_bytes, protocol_denials, ipc_request, known_request, typed_request, fields_of,
  within, common_fields,
}
use lumi_eggcracker.Broker.Ipc.Messages.{
  denial_message, parse_request, parse_response, protocol_denial, bounded,
}
use lumi_eggcracker.Broker.Ipc.Handler.{
  handle_parsed, handle_packet, client_bytes, submit_message, queue_message,
}
use lumi_eggcracker.Broker.Ipc.Sent.{Reads}
use lumi_eggcracker.Broker.Ipc.Accepted.{parse-dumps, response-Parses, denial-accepted}

-- Why a packet is refused before the operator is asked.
abbrev pub refusal : Library → ℕ → ℕ → List ℕ → Option String
refusal lib workload_uid peer_uid packet =
    if peer_uid == workload_uid
    then (elim (parse_request lib packet) [ ok request ↦ none | err code ↦ some code ])
    else some "PEER_IDENTITY"

typed_request-denial :
    (fs : Fields) (code : String) → typed_request fs ≡ err code → elem code protocol_denials ≡ true
unfolding typed_request
typed_request-denial fs code h = elim (Bool-cases (is_the "submit" (get "op" fs))) [
  | inl s ↦
      one_err protocol_denials (is_text operation_id_text (get "operation_id" fs))
        (submit (text_at "operation_id" fs)) "MALFORMED_INPUT" code refl (ground (arith, s, h))
  | inr n ↦
      one_err protocol_denials (is_text hex32 (get "queue_id" fs))
        (if is_the "dispatch" (get "op" fs)
          then dispatch (text_at "queue_id" fs)
          else get_result (text_at "queue_id" fs))
        "MALFORMED_INPUT" code refl (ground (arith, n, h))
]

known_request-denial :
    (fs : Fields) (allowed : List String) (code : String)
    → known_request fs allowed ≡ err code
    → elem code protocol_denials ≡ true
unfolding known_request
known_request-denial fs allowed code h =
    if_err protocol_denials (not (within fs allowed)) "UNKNOWN_FIELDS"
      (if same_keys fs allowed && is_the ipc_schema (get "schema_version" fs)
        then typed_request fs
        else err "MALFORMED_INPUT")
      code refl
      (λ k.
        elim (Bool-cases (same_keys fs allowed && is_the ipc_schema (get "schema_version" fs))) [
          | inl good ↦ typed_request-denial fs code (ground (arith, good, k))
          | inr bad ↦
              only_err protocol_denials {A = IpcRequest} "MALFORMED_INPUT" code refl
                (ground (arith, bad, k))
        ])
      h

request-denial :
    (lib : Library) (raw : List ℕ) (code : String)
    → parse_request lib raw ≡ err code
    → elem code protocol_denials ≡ true
unfolding parse_request ipc_request
request-denial lib raw code h =
    elim (Result-cases (parse_canonical_json lib raw max_ipc_request_bytes)) [
      | inr (message, e) ↦
          if_err protocol_denials {A = IpcRequest} (str_eq message "non-canonical")
            "NON_CANONICAL_INPUT" (err "MALFORMED_INPUT") code refl
            (only_err protocol_denials "MALFORMED_INPUT" code refl) (ground (arith, e, h))
      | inl (fs, e) ↦ elim (Option-cases (fields_of (get "op" fs))) [
        | inl unknown ↦ elim (Bool-cases (within fs common_fields)) [
          | inl common ↦
              only_err protocol_denials {A = IpcRequest} "MALFORMED_INPUT" code refl
                (ground (arith, e, unknown, common, h))
          | inr more ↦
              only_err protocol_denials {A = IpcRequest} "UNKNOWN_FIELDS" code refl
                (ground (arith, e, unknown, more, h))
        ]
        | inr (allowed, f) ↦ known_request-denial fs allowed code (ground (arith, e, f, h))
      ]
    ]

abbrev submit_fields : String → Fields
submit_fields operation_id =
    field "op" (str "submit")
      (field "operation_id" (str operation_id) (field "schema_version" (str ipc_schema) end))

abbrev queue_fields : String → String → Fields
queue_fields op queue_id =
    field "op" (str op)
      (field "queue_id" (str queue_id) (field "schema_version" (str ipc_schema) end))

abbrev denial_fields : String → Fields
denial_fields code = field "code" (str code) (
    field "outcome" (str "DENIED")
      (field "phase" (str "protocol") (field "schema_version" (str ipc_schema) end)))

submit-accepted :
    (operation_id : String)
    → operation_id_text operation_id ≡ true
    → ipc_request (submit_fields operation_id) ≡ ok (submit operation_id)
unfolding ipc_request fields_of known_request typed_request
submit-accepted operation_id good = rw good refl

dispatch-accepted :
    (queue_id : String)
    → hex32 queue_id ≡ true
    → ipc_request (queue_fields "dispatch" queue_id) ≡ ok (dispatch queue_id)
unfolding ipc_request fields_of known_request typed_request
dispatch-accepted queue_id good = rw good refl

get_result-accepted :
    (queue_id : String)
    → hex32 queue_id ≡ true
    → ipc_request (queue_fields "get_result" queue_id) ≡ ok (get_result queue_id)
unfolding ipc_request fields_of known_request typed_request
get_result-accepted queue_id good = rw good refl

-- the message of a request
abbrev pub request_message : IpcRequest → Value
request_message (submit operation_id) = submit_message operation_id
request_message (dispatch queue_id) = queue_message "dispatch" queue_id
request_message (get_result queue_id) = queue_message "get_result" queue_id

made-eq-ok :
    (t : Bool) (message : String) (made raw : List ℕ)
    → (if t then ok made else err message) ≡ ok raw
    → (t ≡ true) × (made ≡ raw)
made-eq-ok true message made raw h = (refl, (let same : made ≡ raw = cc in same))
made-eq-ok false message made raw h = cc

module _ (lib : Library) where
  refused :
      (packet : List ℕ) (code : String)
      → (elim (parse_request lib packet) [ ok request ↦ none | err c ↦ some c ]) ≡ some code
      → parse_request lib packet ≡ err code
  refused packet code h = elim (Result-cases (parse_request lib packet)) [
    | inl (request, e) ↦ absurd (ground (arith, e, h))
    | inr (c, e) ↦ ground (arith, e, h)
  ]

  denial-answer :
      (code : String)
      → elem code protocol_denials ≡ true
      → length (lib.dumps (denial_message code)) ≤ max_ipc_response_bytes
      → protocol_denial lib code ≡ ok (lib.dumps (denial_message code))
  unfolding protocol_denial bounded
  denial-answer code known small = rw known (ground (arith, small))

  -- A packet from another user, or one that is no request, is answered with a denial that the client
  -- accepts and that carries the reason, and the store is left as it is, where json reads
  -- the denial back and it fits a response.
  pub handle_packet-Denies :
      (anchor : Anchor) (ascii : List ℕ → String) (workload_uid : ℕ) (g : Grant) (peer_uid : ℕ)
      (packet : List ℕ) (now_ms : ℕ) (fresh code : String) (disk : Disk)
      → refusal lib workload_uid peer_uid packet ≡ some code
      → Reads lib (denial_message code)
      → length (lib.dumps (denial_message code)) ≤ max_ipc_response_bytes
      → (raw : List ℕ) × (fs : Fields) × (handle_packet lib anchor ascii workload_uid g peer_uid
            packet now_ms fresh disk
          ≡ (ok raw, disk))
        × (parse_response lib raw ≡ ok fs)
        × (get "code" fs ≡ some (str code))
        × (get "outcome" fs ≡ some (str "DENIED"))
  unfolding handle_packet handle_parsed
  handle_packet-Denies anchor ascii workload_uid g peer_uid packet now_ms fresh code disk h reads
        small =
      let fs = denial_fields code in
      let raw = lib.dumps (obj fs) in
      elim (Bool-cases (peer_uid == workload_uid)) [
        | inr foreign ↦
            (let named : "PEER_IDENTITY" ≡ code = ground (arith, foreign, h) in
              let known : elem code protocol_denials ≡ true =
                subst (λ (z : String). elem z protocol_denials ≡ true) named refl in
              let answer : protocol_denial lib code ≡ ok raw = denial-answer code known small in
              (
                raw,
                fs,
                ground (arith, foreign, answer, ap (protocol_denial lib) named),
                response-Parses lib fs raw reads refl small (denial-accepted lib code known),
                refl,
                refl,
              ))
        | inl mine ↦
            (let e : parse_request lib packet ≡ err code =
                refused packet code (ground (arith, mine, h)) in
              let known = request-denial lib packet code e in
              let answer : protocol_denial lib code ≡ ok raw = denial-answer code known small in
              (
                raw,
                fs,
                ground (arith, mine, e, answer),
                response-Parses lib fs raw reads refl small (denial-accepted lib code known),
                refl,
                refl,
              ))
      ]

  parsed :
      (fs : Fields) (raw : List ℕ) (request : IpcRequest)
      → (lib.loads (lib.dumps (obj fs)) ≡ some (obj fs)) × (1 ≤ length (lib.dumps (obj fs)))
      → lib.dumps (obj fs) ≡ raw
      → length raw ≤ max_ipc_request_bytes
      → ipc_request fs ≡ ok request
      → parse_request lib raw ≡ ok request
  unfolding parse_request
  parsed fs raw request reads_back same small accepted =
      let fits = parse-dumps lib fs max_ipc_request_bytes reads_back (rw (sym same) at small) in
      ground (
        arith,
        ap (λ (z : List ℕ). parse_canonical_json lib z max_ipc_request_bytes) same,
        fits,
        accepted,
      )

  -- The bytes that the client makes of a request are read as that request by the service, where json
  -- reads the message back and the bytes fit a request.
  pub parse_request-client_bytes :
      (request : IpcRequest) (raw : List ℕ)
      → client_bytes lib request ≡ ok raw
      → Reads lib (request_message request)
      → length raw ≤ max_ipc_request_bytes
      → parse_request lib raw ≡ ok request
  unfolding client_bytes
  parse_request-client_bytes (submit operation_id) raw h reads small =
      let (good, same) =
        made-eq-ok (operation_id_text operation_id) "operation identifier is invalid"
          (lib.dumps (submit_message operation_id)) raw h in
      parsed (submit_fields operation_id) raw (submit operation_id) reads same small
        (submit-accepted operation_id good)
  parse_request-client_bytes (dispatch queue_id) raw h reads small =
      let (good, same) =
        made-eq-ok (hex32 queue_id) "queue identifier is invalid"
          (lib.dumps (queue_message "dispatch" queue_id)) raw h in
      parsed (queue_fields "dispatch" queue_id) raw (dispatch queue_id) reads same small
        (dispatch-accepted queue_id good)
  parse_request-client_bytes (get_result queue_id) raw h reads small =
      let (good, same) =
        made-eq-ok (hex32 queue_id) "queue identifier is invalid"
          (lib.dumps (queue_message "get_result" queue_id)) raw h in
      parsed (queue_fields "get_result" queue_id) raw (get_result queue_id) reads same small
        (get_result-accepted queue_id good)
