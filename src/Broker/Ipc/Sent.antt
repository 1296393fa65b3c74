-- ===== src/Broker/Ipc/Sent.antt =====
-- What the service sends for each request (src/lumi_eggcracker/brokered/linux_ipc.py, lines 155-186 and
-- 624-666).
use lumi_eggcracker.Base.{
  ℕ, ◌≤◌, String, ◌≡◌, arith, Bool, true, false, ◌||◌, Option, none, some, List, length, ltb, leb,
  ◌==◌, Result, ok, err, if◌then◌else◌, Bool-cases, Option-cases, Result-cases, inl, inr,
}
use mathlib.Core.Path.{subst}
use lumi_eggcracker.Json.{Value, Fields, as_str, get, is_text, is_the}
use lumi_eggcracker.Broker.Library.{Library}
use lumi_eggcracker.Broker.Claims.{hex32, operation_id_text, text_at}
use lumi_eggcracker.Broker.Requests.{parse_canonical_json}
use lumi_eggcracker.Broker.State.{Queue, ServiceResult, result_value}
use lumi_eggcracker.Broker.Journal.{Anchor, Disk}
use lumi_eggcracker.Broker.Calls.{Grant, Action, ◌>>=◌}
use lumi_eggcracker.Broker.Operator.{dispatch_for_run}
use lumi_eggcracker.Broker.Service.{result_for_run, owned_result}
use lumi_eggcracker.Broker.Ipc.Validators.{
  IpcRequest, submit, dispatch, get_result, max_ipc_request_bytes, max_ipc_response_bytes,
  max_result_bytes, ipc_request, known_request, typed_request, fields_of,
}
use lumi_eggcracker.Broker.Ipc.Messages.{
  receipt_message, denial_message, not_found_message, report_message, parse_request,
}
use lumi_eggcracker.Broker.Ipc.Handler.{client_admit}

-- json reads a dict back from its own canonical bytes, which are not empty.
abbrev pub Reads : Library → Value → Type 0
Reads lib v = (lib.loads (lib.dumps v) ≡ some v) × (1 ≤ length (lib.dumps v))

-- What the client view of the operator takes: an operation's identifier, or a queue's.
unfoldable pub is_request : IpcRequest → Bool
is_request (submit operation_id) = operation_id_text operation_id
is_request (dispatch queue_id) = hex32 queue_id
is_request (get_result queue_id) = hex32 queue_id

-- The message for a result.
abbrev pub result_message : String → Option ServiceResult → Value
result_message queue_id none = not_found_message queue_id
result_message queue_id (some r) = report_message queue_id (result_value r)

module _ (lib : Library) (anchor : Anchor) (ascii : List ℕ → String) where
  -- The message that a request is answered with, if it is answered.
  unfoldable pub request_answer : Grant → IpcRequest → ℕ → String → Disk → Option Value
  request_answer g (submit operation_id) now_ms fresh disk =
      elim (client_admit lib anchor ascii g operation_id now_ms fresh disk).0 [
        | ok r ↦ some (receipt_message r)
        | err message ↦ none
      ]
  request_answer g (dispatch queue_id) now_ms fresh disk =
      elim (dispatch_for_run lib anchor queue_id g.run_id now_ms disk).0 [
        | ok r ↦ some (receipt_message r)
        | err message ↦ none
      ]
  request_answer g (get_result queue_id) now_ms fresh disk =
      elim (result_for_run lib anchor queue_id g.run_id disk).0 [
        | ok o ↦ some (result_message queue_id o)
        | err message ↦ none
      ]

  abbrev pub parsed_answer : Grant → Result IpcRequest → ℕ → String → Disk → Option Value
  parsed_answer g (err code) now_ms fresh disk = some (denial_message code)
  parsed_answer g (ok request) now_ms fresh disk = request_answer g request now_ms fresh disk

  -- The message that a packet is answered with, if it is answered.
  unfoldable pub packet_answer : ℕ → Grant → ℕ → List ℕ → ℕ → String → Disk → Option Value
  packet_answer workload_uid g peer_uid packet now_ms fresh disk =
      if peer_uid == workload_uid
      then parsed_answer g (parse_request lib packet) now_ms fresh disk
      else some (denial_message "PEER_IDENTITY")

text-at :
    (p : String → Bool) (o : Option Value)
    → is_text p o ≡ true
    → p (elim (as_str o) [ none ↦ "" | some s ↦ s ]) ≡ true
text-at p o h = ground (arith, h)

typed_request-valid :
    (fs : Fields) (request : IpcRequest) → typed_request fs ≡ ok request → is_request request ≡ true
unfolding typed_request is_request
typed_request-valid fs request h = elim (Bool-cases (is_the "submit" (get "op" fs))) [
  | inl s ↦ elim (Bool-cases (is_text operation_id_text (get "operation_id" fs))) [
    | inr bad ↦ absurd (ground (arith, s, bad, h))
    | inl good ↦
        subst (λ (z : IpcRequest). is_request z ≡ true)
          (let same : submit (text_at "operation_id" fs) ≡ request = ground (arith, s, good, h) in
            same)
          (text-at operation_id_text (get "operation_id" fs) good)
  ]
  | inr n ↦ elim (Bool-cases (is_text hex32 (get "queue_id" fs))) [
    | inr bad ↦ absurd (ground (arith, n, bad, h))
    | inl good ↦ elim (Bool-cases (is_the "dispatch" (get "op" fs))) [
      | inl d ↦
          subst (λ (z : IpcRequest). is_request z ≡ true)
            (let same : dispatch (text_at "queue_id" fs) ≡ request =
                ground (arith, n, good, d, h) in
              same)
            (text-at hex32 (get "queue_id" fs) good)
      | inr r ↦
          subst (λ (z : IpcRequest). is_request z ≡ true)
            (let same : get_result (text_at "queue_id" fs) ≡ request =
                ground (arith, n, good, r, h) in
              same)
            (text-at hex32 (get "queue_id" fs) good)
    ]
  ]
]

pub parse_request-valid :
    (lib : Library) (raw : List ℕ) (request : IpcRequest)
    → parse_request lib raw ≡ ok request
    → is_request request ≡ true
unfolding parse_request ipc_request known_request
parse_request-valid lib raw request h =
    elim (Result-cases (parse_canonical_json lib raw max_ipc_request_bytes)) [
      | inr (message, e) ↦ absurd (ground (arith, e, h))
      | inl (fs, e) ↦ elim (Option-cases (fields_of (get "op" fs))) [
        | inl unknown ↦ absurd (ground (arith, e, unknown, h))
        | inr (allowed, f) ↦ typed_request-valid fs request (ground (arith, e, f, h))
      ]
    ]

-- An action that answers is a step that answers, then the rest on the disk that it left.
pub bind-eq-ok :
    {A B : Type 0} (m : Action A) (f : A → Action B) (b : B) (disk : Disk)
    → ((m >>= f) disk).0 ≡ ok b
    → (a : A) × ((m disk).0 ≡ ok a) × ((f a (m disk).1).0 ≡ ok b)
bind-eq-ok m f b disk h = elim (Result-cases (m disk).0) [
  | inl (a, e) ↦ (a, e, ground (arith, e, h))
  | inr (message, e) ↦ absurd (ground (arith, e, h))
]

pub two_small :
    (a b : ℕ)
    → (ltb max_result_bytes a || ltb max_ipc_response_bytes b) ≡ false
    → (leb a max_result_bytes ≡ true) × (b ≤ max_ipc_response_bytes)
two_small a b h = ground (arith, h)

pub owned_result-some :
    (lib : Library) (anchor : Anchor) (run_id : String) (item : Option Queue)
    (o : Option ServiceResult) (r : ServiceResult)
    → owned_result lib anchor run_id item o ≡ some r
    → o ≡ some r
unfolding owned_result
owned_result-some lib anchor run_id (some item) (some o) r h = ground (arith, h)
owned_result-some lib anchor run_id (some item) none r h = cc
owned_result-some lib anchor run_id none o r h = cc
