-- ===== src/Broker/Tests/Witnesses.antt =====
-- Each property of the broker at the scenario's store.
use lumi_eggcracker.Base.{
  ◌+◌, ◌≤◌, String, ◌≡◌, refl, sym, true, none, some, [], ◌∷◌, length, ok, arith, str_eq, elem,
  eq_iff, Bool-cases, ◌⊎◌, inl, inr, hex_text,
}
use mathlib.Core.Path.{subst}
use lumi_eggcracker.Base.Dict.{lookup}
use lumi_eggcracker.Broker.Claims.{max_journal_events, hex64, hex32}
use lumi_eggcracker.Broker.Requests.{Request, validate_request}
use lumi_eggcracker.Broker.State.{State, Run, Queue, applied}
use lumi_eggcracker.Broker.Replay.{
  replay_event, rejected_state, replay_rejected, replay_revoked, replay_dispatched, queued_item,
  revoked_state, dispatched_state, rejection_reasons,
}
use lumi_eggcracker.Broker.Replay.Invariant.{IsValid}
use lumi_eggcracker.Broker.Replay.Budget.{paid}
use lumi_eggcracker.Broker.Replay.Fence.{IsFenced, replay_event-IsFenced, replay_event-final}
use lumi_eggcracker.Broker.Journal.{
  no_hash, max_record_bytes, line_ends, read_state, record_line, witness_line, append,
}
use lumi_eggcracker.Broker.Journal.Reading.{stamped, read_state-IsValid}
use lumi_eggcracker.Broker.Spec.{blank, Reach}
use lumi_eggcracker.Broker.Replay.Refinement.{view}
use lumi_eggcracker.Broker.Journal.Refinement.{read_state-Reach}
use lumi_eggcracker.Broker.Ipc.Reports.{IsReporting, read_state-IsReporting}
use lumi_eggcracker.Broker.Journal.Appending.{DigestLaws, ReadsBack}
use lumi_eggcracker.Broker.Journal.Appending.Round.{appended, signed_record, Room, append-reads}
use lumi_eggcracker.Broker.Calls.{
  Receipt, admission_denial, admission_payload, rejection_payload, dispatch_payload,
  revocation_payload, dispatch_denial,
}
use lumi_eggcracker.Broker.Operator.{
  admit, revoke_for, dispatch_expecting, check_claims, against_run,
}
use lumi_eggcracker.Broker.Operator.Dispatching.{EffectAllowed, dispatch-effect}
use lumi_eggcracker.Broker.Operator.Reopening.{Opens, DispatchRoom, dispatch-Opens}
use lumi_eggcracker.Broker.Operator.Admission.{AdmitOutcome, admit-outcome}
use lumi_eggcracker.Broker.Operator.Fencing.{revocation_receipt, revoke-fences}
use lumi_eggcracker.Broker.Tests.Scenario.{
  desk, print, store, run_name, item_name, grant, request_dict, one_run, one_item, run_before,
  item_queued, state_before, state_queued, opened, one_run-opens, one_item-opens,
}

pub desk_laws : DigestLaws desk
unfolding desk hex64 hex_text
desk_laws = record { hmac_hex = λ raw. refl; sha256_hex = λ raw. refl }

-- room for the next record, in the store with one run and in the store with one item
abbrev RejectionRoom : String → Type 0
RejectionRoom reason =
    Room desk desk_laws store state_queued "DISPATCH_REJECTED" (rejection_payload item_name reason)
      one_item

admission-Room :
    Room desk desk_laws store state_before "ADMITTED"
      (admission_payload desk "op-1" item_name (print request_dict) run_name)
      one_run
unfolding desk line_ends record_line witness_line admission_payload
admission-Room = record {
  record_back = record { same = refl; nonempty = omega arith; fits = omega arith; ends = refl };
  witness_back = record { same = refl; nonempty = omega arith; fits = omega arith; ends = refl };
  capacity = omega arith;
}

revocation-Room :
    Room desk desk_laws store state_queued "REVOKED"
      (revocation_payload 1 "STOP_REQUESTED" run_name)
      one_item
unfolding desk line_ends record_line witness_line revocation_payload
revocation-Room = record {
  record_back = record { same = refl; nonempty = omega arith; fits = omega arith; ends = refl };
  witness_back = record { same = refl; nonempty = omega arith; fits = omega arith; ends = refl };
  capacity = omega arith;
}

-- the record of a rejection, read back
abbrev RejectionBack : String → Type 0
RejectionBack reason = ReadsBack desk max_record_bytes (
    signed_record desk desk_laws "DISPATCH_REJECTED" (rejection_payload item_name reason)
      state_queued.last_hash (state_queued.last_seq + 1))

budget_back : RejectionBack "BUDGET_EXHAUSTED"
unfolding desk line_ends rejection_payload
budget_back = record { same = refl; nonempty = omega arith; fits = omega arith; ends = refl }

expired_back : RejectionBack "EXPIRED"
unfolding desk line_ends rejection_payload
expired_back = record { same = refl; nonempty = omega arith; fits = omega arith; ends = refl }

replay_back : RejectionBack "REPLAY"
unfolding desk line_ends rejection_payload
replay_back = record { same = refl; nonempty = omega arith; fits = omega arith; ends = refl }

stale_back : RejectionBack "STALE_GENERATION"
unfolding desk line_ends rejection_payload
stale_back = record { same = refl; nonempty = omega arith; fits = omega arith; ends = refl }

rejection_back :
    (reason : String) → elem reason (rejection_reasons desk) ≡ true → RejectionBack reason
rejection_back reason h = elim (elem_four reason h) [
  | inl e ↦ subst RejectionBack (sym e) budget_back
  | inr (inl e) ↦ subst RejectionBack (sym e) expired_back
  | inr (inr (inl e)) ↦ subst RejectionBack (sym e) replay_back
  | inr (inr (inr e)) ↦ subst RejectionBack (sym e) stale_back
]
  where
    elem_four :
        (reason : String)
        → elem reason (rejection_reasons desk) ≡ true
        → (reason ≡ "BUDGET_EXHAUSTED")
          ⊎ ((reason ≡ "EXPIRED") ⊎ ((reason ≡ "REPLAY") ⊎ (reason ≡ "STALE_GENERATION")))
    elem_four reason h = elim (Bool-cases (str_eq reason "BUDGET_EXHAUSTED")) [
      | inl e ↦ inl (ground (arith, e, eq_iff reason "BUDGET_EXHAUSTED"))
      | inr a ↦ elim (Bool-cases (str_eq reason "EXPIRED")) [
        | inl e ↦ inr (inl (ground (arith, e, eq_iff reason "EXPIRED")))
        | inr b ↦ elim (Bool-cases (str_eq reason "REPLAY")) [
          | inl e ↦ inr (inr (inl (ground (arith, e, eq_iff reason "REPLAY"))))
          | inr c ↦ inr (inr (inr (ground (arith, h, a, b, c, eq_iff reason "STALE_GENERATION"))))
        ]
      ]
    ]

rejection-Room :
    (reason : String)
    → RejectionBack reason
    → Room desk desk_laws store state_queued "DISPATCH_REJECTED"
        (rejection_payload item_name reason)
        one_item
unfolding desk line_ends record_line witness_line
rejection-Room reason back = record {
  record_back = back;
  witness_back = record { same = refl; nonempty = omega arith; fits = omega arith; ends = refl };
  capacity = omega (arith, back.fits);
}

dispatch-DispatchRoom : DispatchRoom desk desk_laws store state_queued item_name one_item
unfolding desk line_ends record_line witness_line dispatch_payload
dispatch-DispatchRoom = record {
  to_reject = λ reason h. rejection-Room reason (rejection_back reason h);
  to_apply = record {
    record_back = record { same = refl; nonempty = omega arith; fits = omega arith; ends = refl };
    witness_back = record { same = refl; nonempty = omega arith; fits = omega arith; ends = refl };
    capacity = omega arith;
  };
}

-- the receipt of the dispatch of the item
abbrev applied_receipt : Receipt
applied_receipt = record {
  phase = "dispatch";
  outcome = "APPLIED";
  code = "EFFECT_APPLIED";
  run_id = some run_name;
  queue_id = some item_name;
  generation = some 0;
  effect_applied = true;
  process_stop = none;
}

pub dispatch_answer :
    (dispatch_expecting desk store item_name none 5 one_item).0 ≡ ok applied_receipt
unfolding opened dispatch_expecting dispatch_denial append replay_dispatched queued_item
    dispatched_state dispatch_payload
dispatch_answer = refl

dispatch-effect_example :
    (s : State) × (read_state desk store one_item ≡ ok s) × EffectAllowed desk store 5 item_name s
dispatch-effect_example =
    dispatch-effect desk store one_item 5 item_name none applied_receipt dispatch_answer refl

dispatch-Opens_example :
    Opens desk desk_laws store
      (dispatch_expecting desk store item_name (some run_name) 70000 one_item).1
dispatch-Opens_example =
    dispatch-Opens desk desk_laws store one_item state_queued item_name 70000 (some run_name)
      one_item-opens dispatch-DispatchRoom

abbrev the_request : Request
the_request = record {
  capability = "C.S";
  generation = 0;
  operation_id = "op-1";
  run_id = run_name;
}

request_valid : validate_request desk (print request_dict) ≡ ok the_request
unfolding opened
request_valid = refl

request_checked : check_claims desk store state_before the_request ≡ some (grant, run_before)
unfolding opened check_claims against_run
request_checked = refl

admit-outcome_example :
    AdmitOutcome desk desk_laws store one_run state_before
      (print request_dict)
      item_name
      the_request
      grant
      run_before
      (admission_denial state_before (length (print request_dict)) 5 grant run_before the_request)
      (admit desk store (print request_dict) 5 item_name one_run)
unfolding desk hex32 hex_text
admit-outcome_example =
    admit-outcome desk desk_laws store one_run state_before (print request_dict) 5 item_name
      the_request grant run_before one_run-opens request_valid request_checked refl refl refl
      admission-Room

revoke-fences_example :
    (s' : State) × ((revoke_for desk store run_name "STOP_REQUESTED" one_item).0
      ≡ ok (
          revocation_receipt desk desk_laws store run_name "STOP_REQUESTED"
            (record run_before { admitted = 1 })))
    × (read_state desk store (revoke_for desk store run_name "STOP_REQUESTED" one_item).1 ≡ ok s')
    × IsFenced run_name 1 0 1 s'
unfolding hex32 hex_text
revoke-fences_example =
    revoke-fences desk desk_laws store one_item state_queued run_name "STOP_REQUESTED"
      (record run_before { admitted = 1 }) one_item-opens refl refl refl refl revocation-Room

-- the run of the item, revoked, while the item is open
abbrev run_revoked : Run
run_revoked = record run_before {
  generation = 1;
  revoked = true;
  reason = some "STOP_REQUESTED";
  admitted = 1;
}

abbrev state_fenced : State
state_fenced = record state_queued { runs = (run_name, run_revoked) ∷ [] }

run-IsFenced : IsFenced run_name 1 0 1 state_fenced
run-IsFenced = record {
  holder = run_revoked;
  found = refl;
  is_revoked = refl;
  admitted_as = refl;
  applied_as = refl;
  generation_as = refl;
}

denial_replayed :
    replay_event desk state_fenced "DISPATCH_REJECTED"
      (rejection_payload item_name "STALE_GENERATION")
    ≡ ok (rejected_state desk state_fenced item_name item_queued)
unfolding replay_event replay_rejected queued_item rejection_payload rejected_state hex32 hex_text
    desk
denial_replayed = refl

replay_event-IsFenced_example :
    IsFenced run_name 1 0 1 (rejected_state desk state_fenced item_name item_queued)
replay_event-IsFenced_example =
    replay_event-IsFenced desk run_name 1 0 1 state_fenced
      (rejected_state desk state_fenced item_name item_queued) "DISPATCH_REJECTED"
      (rejection_payload item_name "STALE_GENERATION") run-IsFenced denial_replayed

-- the item applied, and then its run revoked
abbrev item_applied : Queue
item_applied = record item_queued { status = applied }

abbrev run_after : Run
run_after = record run_before { admitted = 1; applied = 1 }

abbrev state_applied : State
state_applied = record state_queued {
  runs = (run_name, run_after) ∷ [];
  queues = (item_name, item_applied) ∷ [];
  applied_operation_ids = "op-1" ∷ [];
  pending_bytes = 0;
  effect_count = 1;
}

revocation_replayed :
    replay_event desk state_applied "REVOKED" (revocation_payload 1 "STOP_REQUESTED" run_name)
    ≡ ok (revoked_state state_applied run_name run_after "STOP_REQUESTED")
unfolding replay_event replay_revoked revoked_state revocation_payload
revocation_replayed = refl

replay_event-final_example :
    lookup item_name (revoked_state state_applied run_name run_after "STOP_REQUESTED").queues
    ≡ some item_applied
replay_event-final_example =
    replay_event-final desk item_name item_applied state_applied
      (revoked_state state_applied run_name run_after "STOP_REQUESTED") "REVOKED"
      (revocation_payload 1 "STOP_REQUESTED" run_name) _ refl revocation_replayed

fenced_by_stop :
    replay_event desk state_queued "REVOKED" (revocation_payload 1 "STOP_REQUESTED" run_name)
    ≡ ok (revoked_state state_queued run_name (record run_before { admitted = 1 }) "STOP_REQUESTED")
unfolding replay_event replay_revoked revoked_state revocation_payload
fenced_by_stop = refl

append-reads_example :
    (append desk store state_queued "REVOKED"
        (revocation_payload 1 "STOP_REQUESTED" run_name)
        one_item
      ≡ (
        ok (
            stamped desk
              (revoked_state state_queued run_name
                (record run_before { admitted = 1 })
                "STOP_REQUESTED")
              3
              no_hash
              4),
        appended desk desk_laws store state_queued "REVOKED"
            (revocation_payload 1 "STOP_REQUESTED" run_name)
            one_item,
      ))
    × (read_state desk store (
          appended desk desk_laws store state_queued "REVOKED"
            (revocation_payload 1 "STOP_REQUESTED" run_name)
            one_item)
        ≡ ok (
            stamped desk
              (revoked_state state_queued run_name
                (record run_before { admitted = 1 })
                "STOP_REQUESTED")
              3
              no_hash
              4))
unfolding desk
append-reads_example =
    append-reads desk desk_laws store one_item state_queued
      (revoked_state state_queued run_name (record run_before { admitted = 1 }) "STOP_REQUESTED")
      "REVOKED" (revocation_payload 1 "STOP_REQUESTED" run_name) one_item-opens fenced_by_stop
      revocation-Room

read_state-IsValid_example :
    IsValid state_queued × (paid state_queued ≡ 3) × (3 ≤ max_journal_events)
read_state-IsValid_example = read_state-IsValid desk store one_item state_queued one_item-opens

read_state-Reach_example : Reach blank (view state_queued)
read_state-Reach_example = read_state-Reach desk store one_item state_queued one_item-opens

read_state-IsReporting_example : IsReporting desk state_queued
read_state-IsReporting_example =
    read_state-IsReporting desk desk_laws store one_item state_queued one_item-opens
