-- ===== src/Broker/Ipc/Answers.antt =====
-- The client accepts what the service answers (src/lumi_eggcracker/brokered/linux_ipc.py, lines
-- 155-312 and 624-666).
use lumi_eggcracker.Base.{
  ℕ, ◌≤◌, String, ◌≡◌, refl, arith, true, ◌&&◌, Option, some, List, length, ◌==◌, Result, ok, err,
  Bool-cases, Result-cases, inl, inr,
}
use lumi_eggcracker.Base.Dict.{lookup}
use lumi_eggcracker.Json.{Value, Fields}
use lumi_eggcracker.Broker.Library.{Library}
use lumi_eggcracker.Broker.Claims.{hex32}
use lumi_eggcracker.Broker.State.{ServiceResult, result_value}
use lumi_eggcracker.Broker.Journal.{Anchor, Disk, read_state}
use lumi_eggcracker.Broker.Journal.Appending.{DigestLaws}
use lumi_eggcracker.Broker.Calls.{Grant}
use lumi_eggcracker.Broker.Operator.{reading, dispatch_for_run}
use lumi_eggcracker.Broker.Service.{result_for_run, owned_result}
use lumi_eggcracker.Broker.Ipc.Validators.{
  IpcRequest, submit, dispatch, get_result, max_ipc_response_bytes, valid_report,
}
use lumi_eggcracker.Broker.Ipc.Messages.{
  receipt_message, denial_message, parse_request, parse_response, receipt_response,
}
use lumi_eggcracker.Broker.Ipc.Handler.{
  lift, client, client_admit, admission_request, result_response, handle_request, handle_parsed,
  handle_packet,
}
use lumi_eggcracker.Broker.Ipc.Receipts.{admit-IsAllowed, dispatch_for_run-IsAllowed}
use lumi_eggcracker.Broker.Ipc.Reports.{read_state-IsReporting}
use lumi_eggcracker.Broker.Ipc.Accepted.{receipt-Parses, denial-Parses, result-Parses}
use lumi_eggcracker.Broker.Ipc.Sent.{
  request_answer, parsed_answer, packet_answer, Reads, is_request, result_message,
  parse_request-valid, bind-eq-ok, owned_result-some,
}

module _ (lib : Library) (laws : DigestLaws lib) (anchor : Anchor) where
  result_for_run-valid :
      (queue_id run_id : String) (disk : Disk) (o : Option ServiceResult)
      → (result_for_run lib anchor queue_id run_id disk).0 ≡ ok o
      → (r : ServiceResult) → o ≡ some r
      → valid_report (some (result_value r)) ≡ true
  unfolding result_for_run reading
  result_for_run-valid queue_id run_id disk o h r is_r =
      elim (Bool-cases (hex32 queue_id && hex32 run_id)) [
        | inr other ↦ absurd (ground (arith, other, h, is_r))
        | inl named ↦ elim (Result-cases (read_state lib anchor disk)) [
          | inr (message, e) ↦ absurd (ground (arith, named, e, h))
          | inl (s, e) ↦
              (let found : owned_result lib anchor run_id (lookup queue_id s.queues)
                      (lookup queue_id s.results)
                    ≡ some r =
                  ground (arith, named, e, h, is_r) in
                (read_state-IsReporting lib laws anchor disk s e).result_ok queue_id r (
                  owned_result-some lib anchor run_id (lookup queue_id s.queues)
                    (lookup queue_id s.results) r found))
        ]
      ]

  handle_request-Parses :
      (ascii : List ℕ → String) (g : Grant) (request : IpcRequest) (now_ms : ℕ) (fresh : String)
      (disk : Disk) (raw : List ℕ)
      → ((v : Value)
          → request_answer lib anchor ascii g request now_ms fresh disk ≡ some v
          → Reads lib v)
      → length raw ≤ max_ipc_response_bytes
      → hex32 fresh ≡ true
      → is_request request ≡ true
      → (handle_request lib anchor ascii g request now_ms fresh disk).0 ≡ ok raw
      → (fs : Fields) × (parse_response lib raw ≡ ok fs)
  unfolding handle_request client_admit is_request request_answer
  handle_request-Parses ascii g (submit operation_id) now_ms fresh disk raw reads bound q v h =
      let (r, made, h1) =
        bind-eq-ok (client_admit lib anchor ascii g operation_id now_ms fresh)
          (λ receipt. lift (receipt_response lib receipt)) raw disk h in
      receipt-Parses lib r raw (reads (receipt_message r) (ground (arith, made)))
        (admit-IsAllowed lib anchor (lib.dumps (admission_request lib anchor ascii g operation_id))
          now_ms fresh disk r q (ground (arith, v, made)))
        h1
  handle_request-Parses ascii g (dispatch queue_id) now_ms fresh disk raw reads bound q v h =
      let (r, made, h1) =
        bind-eq-ok (dispatch_for_run lib anchor queue_id g.run_id now_ms)
          (λ receipt. lift (receipt_response lib receipt)) raw disk h in
      receipt-Parses lib r raw (reads (receipt_message r) (ground (arith, made)))
        (dispatch_for_run-IsAllowed lib anchor queue_id g.run_id now_ms disk r v made) h1
  handle_request-Parses ascii g (get_result queue_id) now_ms fresh disk raw reads bound q v h =
      let (o, made, h1) =
        bind-eq-ok (result_for_run lib anchor queue_id g.run_id)
          (λ report. lift (result_response lib anchor ascii queue_id report)) raw disk h in
      result-Parses lib anchor ascii queue_id o raw
        (reads (result_message queue_id o) (ground (arith, made))) bound v
        (result_for_run-valid queue_id g.run_id disk o made) h1

  handle_parsed-Parses :
      (ascii : List ℕ → String) (g : Grant) (parsed : Result IpcRequest) (now_ms : ℕ)
      (fresh : String) (disk : Disk) (raw : List ℕ)
      → ((v : Value)
          → parsed_answer lib anchor ascii g parsed now_ms fresh disk ≡ some v
          → Reads lib v)
      → length raw ≤ max_ipc_response_bytes
      → hex32 fresh ≡ true
      → ((request : IpcRequest) → parsed ≡ ok request → is_request request ≡ true)
      → (handle_parsed lib anchor ascii g parsed now_ms fresh disk).0 ≡ ok raw
      → (fs : Fields) × (parse_response lib raw ≡ ok fs)
  unfolding handle_parsed
  handle_parsed-Parses ascii g (err code) now_ms fresh disk raw reads bound q v h =
      denial-Parses lib code raw (reads (denial_message code) refl) h
  handle_parsed-Parses ascii g (ok request) now_ms fresh disk raw reads bound q v h =
      let (labelled, made, h1) =
        bind-eq-ok (lift (client lib anchor ascii g))
          (λ _. handle_request lib anchor ascii g request now_ms fresh) raw disk h in
      handle_request-Parses ascii g request now_ms fresh disk raw reads bound q (v request refl) h1

  -- The bytes that the service answers a packet with, from whatever peer, are a response that the
  -- client accepts, where digests are hexadecimal, json reads the answer's message back, the bytes fit
  -- a response and the fresh identifier is of 32 hexadecimal digits.
  pub handle_packet-Parses :
      (ascii : List ℕ → String) (workload_uid : ℕ) (g : Grant) (peer_uid : ℕ) (packet : List ℕ)
      (now_ms : ℕ) (fresh : String) (disk : Disk) (raw : List ℕ)
      → ((v : Value)
          → packet_answer lib anchor ascii workload_uid g peer_uid packet now_ms fresh disk ≡ some v
          → Reads lib v)
      → length raw ≤ max_ipc_response_bytes
      → hex32 fresh ≡ true
      → (handle_packet lib anchor ascii workload_uid g peer_uid packet now_ms fresh disk).0 ≡ ok raw
      → (fs : Fields) × (parse_response lib raw ≡ ok fs)
  unfolding handle_packet packet_answer
  handle_packet-Parses ascii workload_uid g peer_uid packet now_ms fresh disk raw reads bound q h =
      elim (Bool-cases (peer_uid == workload_uid)) [
        | inr foreign ↦
            denial-Parses lib "PEER_IDENTITY" raw
              (reads (denial_message "PEER_IDENTITY") (ground (arith, foreign)))
              (ground (arith, foreign, h))
        | inl mine ↦
            handle_parsed-Parses ascii g (parse_request lib packet) now_ms fresh disk raw
              (λ (v : Value)
                  (e : parsed_answer lib anchor ascii g (parse_request lib packet) now_ms fresh disk
                    ≡ some v).
                reads v (ground (arith, mine, e)))
              bound q
              (λ (request : IpcRequest) (e : parse_request lib packet ≡ ok request).
                parse_request-valid lib packet request e)
              (ground (arith, mine, h))
      ]
