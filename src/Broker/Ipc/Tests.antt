-- ===== src/Broker/Ipc/Tests.antt =====
-- A dispatch over the socket, and witnesses.
use lumi_eggcracker.Base.{
  ℕ, ◌≤◌, String, ◌≡◌, refl, sym, ◌∙◌, arith, true, Option, some, List, length, ok, hex_text,
}
use mathlib.Core.Path.{subst}
use lumi_eggcracker.Json.{Value, Fields, str, get}
use lumi_eggcracker.Broker.Claims.{hex32}
use lumi_eggcracker.Broker.Requests.{parse_canonical_json}
use lumi_eggcracker.Broker.Journal.{append}
use lumi_eggcracker.Broker.Calls.{grant_for_claims, dispatch_denial, dispatch_payload}
use lumi_eggcracker.Broker.Operator.{dispatch_for_run, dispatch_expecting}
use lumi_eggcracker.Broker.Replay.{replay_dispatched, queued_item, dispatched_state}
use lumi_eggcracker.Broker.Tests.Scenario.{
  desk, store, grant, item_name, one_item, opened, applied_message,
}
use lumi_eggcracker.Broker.Tests.Witnesses.{desk_laws}
use lumi_eggcracker.Broker.Ipc.Validators.{
  dispatch, ipc_request, fields_of, known_request, typed_request, max_ipc_response_bytes,
}
use lumi_eggcracker.Broker.Ipc.Messages.{
  denial_message, parse_request, parse_response, receipt_response, bounded, as_dict,
}
use lumi_eggcracker.Broker.Ipc.Handler.{
  client, same_labels, handle_packet, handle_parsed, handle_request, client_bytes, queue_message,
}
use lumi_eggcracker.Broker.Ipc.Sent.{Reads, packet_answer, request_answer}
use lumi_eggcracker.Broker.Ipc.Answers.{handle_packet-Parses}
use lumi_eggcracker.Broker.Ipc.Exchange.{handle_packet-Denies, parse_request-client_bytes}

abbrev ascii : List ℕ → String
ascii raw = "C.S"

abbrev packet : List ℕ
packet = desk.dumps (queue_message "dispatch" item_name)

abbrev fresh : String
fresh = "0000000000000000000000000000000d"

dispatch_parses : parse_request desk packet ≡ ok (dispatch item_name)
unfolding parse_request ipc_request fields_of known_request typed_request parse_canonical_json desk
    hex32 hex_text
dispatch_parses = refl

applied_answer :
    packet_answer desk store ascii 1000 (grant_for_claims desk grant) 1000 packet 5 fresh one_item
    ≡ some applied_message
unfolding packet_answer request_answer opened dispatch_for_run dispatch_expecting dispatch_denial
    append replay_dispatched queued_item dispatched_state dispatch_payload as_dict parse_request
    ipc_request fields_of known_request typed_request grant_for_claims
applied_answer = refl

applied_bytes :
    (handle_packet desk store ascii 1000
      (grant_for_claims desk grant)
      1000
      packet
      5
      fresh
      one_item).0
    ≡ ok (desk.dumps applied_message)
unfolding handle_packet handle_parsed handle_request client same_labels receipt_response bounded
    opened dispatch_for_run dispatch_expecting dispatch_denial append replay_dispatched queued_item
    dispatched_state dispatch_payload as_dict parse_request ipc_request fields_of known_request
    typed_request grant_for_claims
applied_bytes = refl

applied-Reads : Reads desk applied_message
unfolding desk
applied-Reads = (refl, omega arith)

answer-Reads :
    (v : Value)
    → packet_answer desk store ascii 1000 (grant_for_claims desk grant) 1000 packet 5 fresh one_item
      ≡ some v
    → Reads desk v
answer-Reads v e =
    let both : ◌≡◌ {A = Option Value} (some applied_message) (some v) = sym applied_answer ∙ e in
    let same : applied_message ≡ v = cc in subst (Reads desk) same applied-Reads

fresh_hex : hex32 fresh ≡ true
unfolding hex32 hex_text
fresh_hex = refl

applied_small : length (desk.dumps applied_message) ≤ max_ipc_response_bytes
unfolding desk
applied_small = omega arith

handle_packet-Parses_example :
    (fs : Fields) × (parse_response desk (desk.dumps applied_message) ≡ ok fs)
handle_packet-Parses_example =
    handle_packet-Parses desk desk_laws store ascii 1000 (grant_for_claims desk grant) 1000 packet 5
      fresh one_item (desk.dumps applied_message) answer-Reads applied_small fresh_hex applied_bytes

denial-Reads : Reads desk (denial_message "PEER_IDENTITY")
unfolding desk
denial-Reads = (refl, omega arith)

denial_small : length (desk.dumps (denial_message "PEER_IDENTITY")) ≤ max_ipc_response_bytes
unfolding desk
denial_small = omega arith

handle_packet-Denies_example :
    (raw : List ℕ) × (fs : Fields) × (handle_packet desk store ascii 1000
        (grant_for_claims desk grant)
        1001
        packet
        5
        fresh
        one_item
      ≡ (ok raw, one_item))
    × (parse_response desk raw ≡ ok fs)
    × (get "code" fs ≡ some (str "PEER_IDENTITY"))
    × (get "outcome" fs ≡ some (str "DENIED"))
handle_packet-Denies_example =
    handle_packet-Denies desk store ascii 1000 (grant_for_claims desk grant) 1001 packet 5 fresh
      "PEER_IDENTITY" one_item refl denial-Reads denial_small

packet_made : client_bytes desk (dispatch item_name) ≡ ok packet
unfolding client_bytes hex32 hex_text
packet_made = refl

packet-Reads : Reads desk (queue_message "dispatch" item_name)
unfolding desk
packet-Reads = (refl, omega arith)

packet_small : length packet ≤ 1024
unfolding desk
packet_small = omega arith

parse_request-client_bytes_example : parse_request desk packet ≡ ok (dispatch item_name)
parse_request-client_bytes_example =
    parse_request-client_bytes desk (dispatch item_name) packet packet_made packet-Reads
      packet_small
