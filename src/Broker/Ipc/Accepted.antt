-- ===== src/Broker/Ipc/Accepted.antt =====
-- What the service sends for each request (src/lumi_eggcracker/brokered/linux_ipc.py, lines 155-186 and
-- 624-666), and that the client accepts each message.
use lumi_eggcracker.Base.{
  ℕ, ◌≤◌, String, ◌≡◌, refl, ap, arith, Bool, true, false, ◌||◌, Option, none, some, List, elem,
  length, ltb, leb, Result, ok, err, if◌then◌else◌, Bool-cases, inl, inr,
}
use lumi_eggcracker.Json.{Value, Fields, obj, str, has_key, field, end, without}
use lumi_eggcracker.Broker.Library.{Library}
use lumi_eggcracker.Broker.Claims.{hex32}
use lumi_eggcracker.Broker.Requests.{parse_canonical_json}
use lumi_eggcracker.Broker.State.{ServiceResult, result_value}
use lumi_eggcracker.Broker.Journal.{Anchor}
use lumi_eggcracker.Broker.Journal.Appending.{bytes_eq_refl}
use lumi_eggcracker.Broker.Calls.{Receipt}
use lumi_eggcracker.Broker.Ipc.Validators.{
  ipc_schema, max_ipc_response_bytes, max_result_bytes, protocol_denials, valid_receipt,
  valid_report,
}
use lumi_eggcracker.Broker.Ipc.Messages.{
  receipt_message, denial_message, report_message, parse_response, response_of, is_receipt,
  is_denial, is_available, is_not_found, bounded, protocol_denial, receipt_response, as_dict,
}
use lumi_eggcracker.Broker.Ipc.Handler.{result_response}
use lumi_eggcracker.Broker.Ipc.Allowed.{IsAllowed, IsAllowed-valid}
use lumi_eggcracker.Broker.Ipc.Sent.{Reads, result_message, two_small}

module _ (lib : Library) where
  pub parse-dumps :
      (fs : Fields) (maximum : ℕ)
      → Reads lib (obj fs)
      → length (lib.dumps (obj fs)) ≤ maximum
      → parse_canonical_json lib (lib.dumps (obj fs)) maximum ≡ ok fs
  unfolding parse_canonical_json
  parse-dumps fs maximum (same, nonempty) small =
      ground (arith, same, nonempty, small, bytes_eq_refl (lib.dumps (obj fs)))

  unless-eq-ok :
      (t : Bool) (message : String) (made raw : List ℕ)
      → (if t then err message else ok made) ≡ ok raw
      → (t ≡ false) × (made ≡ raw)
  unless-eq-ok true message made raw h = cc
  unless-eq-ok false message made raw h = (refl, (let same : made ≡ raw = cc in same))

  bounded-eq-ok :
      (v : Value) (message : String) (raw : List ℕ)
      → bounded lib v message ≡ ok raw
      → (lib.dumps v ≡ raw) × (length (lib.dumps v) ≤ max_ipc_response_bytes)
  unfolding bounded
  bounded-eq-ok v message raw h =
      elim (Bool-cases (ltb max_ipc_response_bytes (length (lib.dumps v)))) [
        | inl large ↦ ground (arith, large, h)
        | inr small ↦ (ground (arith, small, h), ground (arith, small))
      ]

  pub response-Parses :
      (fs : Fields) (raw : List ℕ)
      → Reads lib (obj fs)
      → lib.dumps (obj fs) ≡ raw
      → length (lib.dumps (obj fs)) ≤ max_ipc_response_bytes
      → response_of lib fs ≡ ok fs
      → parse_response lib raw ≡ ok fs
  unfolding parse_response
  response-Parses fs raw reads same small accepted =
      let parsed = parse-dumps fs max_ipc_response_bytes reads small in
      ground (
        arith,
        ap (λ (z : List ℕ). parse_canonical_json lib z max_ipc_response_bytes) same,
        parsed,
        accepted,
      )

  receipt-accepted :
      (inner : Fields)
      → valid_receipt (some (obj inner)) ≡ true
      → has_key inner "run_id" ≡ false
      → let fs = field "receipt" (obj inner) (field "schema_version" (str ipc_schema) end) in
        response_of lib fs ≡ ok fs
  unfolding response_of is_receipt
  receipt-accepted inner valid hidden = rw valid (rw hidden refl)

  pub receipt-Parses :
      (r : Receipt) (raw : List ℕ)
      → Reads lib (receipt_message r)
      → IsAllowed r
      → receipt_response lib r ≡ ok raw
      → (fs : Fields) × (parse_response lib raw ≡ ok fs)
  unfolding receipt_response
  receipt-Parses r raw reads allowed h =
      let (same, small) =
        bounded-eq-ok (receipt_message r) "broker receipt exceeded its response bound" raw h in
      let (valid, hidden) = IsAllowed-valid r allowed in
      let fs =
        field "receipt" (obj (without "run_id" (as_dict r)))
          (field "schema_version" (str ipc_schema) end) in
      (
        fs,
        response-Parses fs raw reads same small
            (receipt-accepted (without "run_id" (as_dict r)) valid hidden),
      )

  pub denial-accepted :
      (code : String)
      → elem code protocol_denials ≡ true
      → let fs = field "code" (str code) (
          field "outcome"
            (str "DENIED")
            (field "phase" (str "protocol") (field "schema_version" (str ipc_schema) end))) in
        response_of lib fs ≡ ok fs
  unfolding response_of is_receipt is_denial
  denial-accepted code known = rw known refl

  pub denial-Parses :
      (code : String) (raw : List ℕ)
      → Reads lib (denial_message code)
      → protocol_denial lib code ≡ ok raw
      → (fs : Fields) × (parse_response lib raw ≡ ok fs)
  unfolding protocol_denial
  denial-Parses code raw reads h = elim (Bool-cases (elem code protocol_denials)) [
    | inr unknown ↦ absurd (
        let e : (if elem code protocol_denials
              then bounded lib (denial_message code) "protocol denial exceeded its response bound"
              else err "protocol denial code is not allow-listed")
            ≡ ok raw =
          h in
        (let bad : ◌≡◌ {A = Result (List ℕ)} (err "protocol denial code is not allow-listed")
              (ok raw) =
            rw unknown at e in
          cc))
    | inl known ↦
        (let e : (if elem code protocol_denials
                then bounded lib (denial_message code) "protocol denial exceeded its response bound"
                else err "protocol denial code is not allow-listed")
              ≡ ok raw =
            h in
          let (same, small) =
            bounded-eq-ok (denial_message code) "protocol denial exceeded its response bound" raw
              (rw known at e) in
          let fs = field "code" (str code) (
            field "outcome" (str "DENIED")
              (field "phase" (str "protocol") (field "schema_version" (str ipc_schema) end))) in
          (fs, response-Parses fs raw reads same small (denial-accepted code known)))
  ]

  missing-accepted :
      (queue_id : String)
      → hex32 queue_id ≡ true
      → let fs = field "code" (str "NOT_FOUND") (
          field "outcome" (str "DENIED") (
            field "phase"
              (str "result")
              (field "queue_id" (str queue_id) (field "schema_version" (str ipc_schema) end)))) in
        response_of lib fs ≡ ok fs
  unfolding response_of is_receipt is_denial is_available is_not_found
  missing-accepted queue_id q = rw q refl

  report-accepted :
      (queue_id : String) (report : Value)
      → hex32 queue_id ≡ true
      → valid_report (some report) ≡ true
      → leb (length (lib.dumps report)) max_result_bytes ≡ true
      → let fs = field "outcome" (str "AVAILABLE") (
          field "phase" (str "result") (
            field "queue_id"
              (str queue_id)
              (field "report" report (field "schema_version" (str ipc_schema) end)))) in
        response_of lib fs ≡ ok fs
  unfolding response_of is_receipt is_denial is_available is_not_found
  report-accepted queue_id report q valid small = rw q (rw valid (rw small refl))

  pub result-Parses :
      (anchor : Anchor) (ascii : List ℕ → String) (queue_id : String) (o : Option ServiceResult)
      (raw : List ℕ)
      → Reads lib (result_message queue_id o)
      → length raw ≤ max_ipc_response_bytes
      → hex32 queue_id ≡ true
      → ((r : ServiceResult) → o ≡ some r → valid_report (some (result_value r)) ≡ true)
      → result_response lib anchor ascii queue_id o ≡ ok raw
      → (fs : Fields) × (parse_response lib raw ≡ ok fs)
  unfolding result_response
  result-Parses anchor ascii queue_id none raw reads bound q valid h =
      let fs = field "code" (str "NOT_FOUND") (
        field "outcome" (str "DENIED") (
          field "phase" (str "result")
            (field "queue_id" (str queue_id) (field "schema_version" (str ipc_schema) end)))) in
      (
        fs,
        response-Parses fs raw reads (let same : lib.dumps (obj fs) ≡ raw = cc in same)
            (let same : lib.dumps (obj fs) ≡ raw = cc in rw same bound)
            (missing-accepted queue_id q),
      )
  result-Parses anchor ascii queue_id (some r) raw reads bound q valid h =
      let value = result_value r in
      let made = lib.dumps (report_message queue_id value) in
      let (fits, same) =
        unless-eq-ok
          (ltb max_result_bytes (length (lib.dumps value))
            || ltb max_ipc_response_bytes (length made))
          "durable synthetic report exceeded its response bound" made raw h in
      let (small_report, small) = two_small (length (lib.dumps value)) (length made) fits in
      let fs = field "outcome" (str "AVAILABLE") (
        field "phase" (str "result") (
          field "queue_id" (str queue_id)
            (field "report" value (field "schema_version" (str ipc_schema) end)))) in
      (
        fs,
        response-Parses fs raw reads same small
            (report-accepted queue_id value q (valid r refl) small_report),
      )
