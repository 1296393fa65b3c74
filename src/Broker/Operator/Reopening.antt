-- ===== src/Broker/Operator/Reopening.antt =====
-- Dispatching never leaves a store that cannot be opened again: whatever record it appends is one
-- that the replay accepts (src/lumi_eggcracker/brokered/operator.py, lines 885-1023 against 1175-1216).
use lumi_eggcracker.Base.{
  ℕ, String, ◌≡◌, refl, sym, true, ◌&&◌, Option, none, some, Result, ok, err, arith, eq_iff, str_eq,
  elem, Bool-cases, inl, inr,
}
use mathlib.Core.Path.{subst}
use lumi_eggcracker.Base.Dict.{lookup}
use lumi_eggcracker.Broker.Library.{Library}
use lumi_eggcracker.Broker.Claims.{Claims, hex32, claims_eq}
use lumi_eggcracker.Broker.Requests.{Request, validate_request}
use lumi_eggcracker.Broker.State.{State, Run, Queue, Status, queued, applied, rejected}
use lumi_eggcracker.Broker.Replay.{dispatched_state, rejected_state, rejection_reasons}
use lumi_eggcracker.Broker.Journal.{Anchor, Disk, read_state}
use lumi_eggcracker.Broker.Journal.Reading.{read_state-IsValid}
use lumi_eggcracker.Broker.Journal.Induction.{read_state-IsLinked}
use lumi_eggcracker.Broker.Journal.Appending.{DigestLaws}
use lumi_eggcracker.Broker.Journal.Appending.Round.{Room, appended, append-reads}
use lumi_eggcracker.Broker.Operator.Accepted.{
  check_claims_inversion, rejection-accepted, dispatch-accepted, results_after, rejection_allowed,
}
use lumi_eggcracker.Broker.Calls.{rejection_payload, dispatch_payload, dispatch_denial}
use lumi_eggcracker.Broker.Operator.{
  settle, dispatch_run, dispatch_claims, dispatch_request, dispatch_item, dispatch_found, owned,
  dispatch_expecting, reading, check_claims,
}

denial_same :
    (s : State) (now_ms : ℕ) (c d : Claims) (run : Run) (item : Queue)
    → claims_eq c d ≡ true
    → dispatch_denial s now_ms c run item ≡ dispatch_denial s now_ms d run item
unfolding dispatch_denial claims_eq
denial_same s now_ms c d run item h = ground arith

module _ (lib : Library) (laws : DigestLaws lib) (anchor : Anchor) where
  -- The disk opens.
  abbrev pub Opens : Disk → Type 0
  Opens disk = (s : State) × (read_state lib anchor disk ≡ ok s)

  -- There is room for whichever record the dispatch of `q` appends.
  pub record DispatchRoom (s : State) (q : String) (disk : Disk) : Type 0 where
    pub to_reject :
        (reason : String)
        → elem reason (rejection_reasons lib) ≡ true
        → Room lib laws anchor s "DISPATCH_REJECTED" (rejection_payload q reason) disk
    pub to_apply :
        Room lib laws anchor s "DISPATCHED" (dispatch_payload lib q s.service_dataset) disk

  module _ (disk : Disk) (s : State) (opened : read_state lib anchor disk ≡ ok s) (q : String)
      (room : DispatchRoom s q disk) (now_ms : ℕ) (item : Queue)
      (found : lookup q s.queues ≡ some item) (waiting : item.status ≡ queued) where
    settle-Opens :
        (run : Run) (request : Request) (d : Option String)
        → lookup item.run_id s.runs ≡ some run
        → validate_request lib item.request_bytes ≡ ok request
        → request.operation_id ≡ item.operation_id
        → dispatch_denial s now_ms run.claims run item ≡ d
        → Opens (settle lib anchor s q item run d disk).1
    unfolding settle
    settle-Opens run request none of_run canonical named allowed =
        let (written, reads) =
          append-reads lib laws anchor disk s
            (dispatched_state lib s q item run (results_after lib s q s.service_dataset))
            "DISPATCHED" (dispatch_payload lib q s.service_dataset) opened
            (dispatch-accepted lib s now_ms q item run request
              (read_state-IsValid lib anchor disk s opened).0
              (read_state-IsLinked lib anchor disk s opened) found waiting of_run canonical named
              allowed)
            room.to_apply in
        let call : (settle lib anchor s q item run none disk).1
            ≡ appended lib laws anchor s "DISPATCHED" (dispatch_payload lib q s.service_dataset)
                disk =
          ground (arith, written) in
        subst Opens (sym call) (_, reads)
    settle-Opens run request (some reason) of_run canonical named denied =
        let (v, _, _) = read_state-IsValid lib anchor disk s opened in
        let (_, generation, _, first) = v.run_ok item.run_id run of_run in
        let (written, reads) =
          append-reads lib laws anchor disk s (rejected_state lib s q item) "DISPATCH_REJECTED"
            (rejection_payload q reason) opened
            (rejection-accepted lib s now_ms q item run reason v found waiting of_run denied)
            (room.to_reject reason
              (rejection_allowed s now_ms item run reason generation first denied)) in
        let call : (settle lib anchor s q item run (some reason) disk).1
            ≡ appended lib laws anchor s "DISPATCH_REJECTED" (rejection_payload q reason) disk =
          ground (arith, written) in
        subst Opens (sym call) (_, reads)

    dispatch_run-Opens :
        (request : Request) (c : Claims) (other : Run)
        → validate_request lib item.request_bytes ≡ ok request
        → check_claims lib anchor s request ≡ some (c, other)
        → (o : Option Run) → lookup item.run_id s.runs ≡ o
        → Opens (dispatch_run lib anchor s now_ms q item request c o disk).1
    unfolding dispatch_run
    dispatch_run-Opens request c other canonical checked none missing = (s, opened)
    dispatch_run-Opens request c other canonical checked (some run) of_run =
        elim (Bool-cases
          (str_eq request.run_id item.run_id && str_eq request.operation_id item.operation_id)) [
            | inr changed ↦ rw changed (s, opened)
            | inl same ↦
                (let (_, found_other, _, eq, names, _) =
                    check_claims_inversion lib anchor s request c other checked in
                  let id : other ≡ run = ground (
                    arith,
                    found_other,
                    of_run,
                    names,
                    same,
                    eq_iff request.run_id c.run_id,
                    eq_iff request.run_id item.run_id,
                  ) in
                  let named : request.operation_id ≡ item.operation_id =
                    ground (arith, same, eq_iff request.operation_id item.operation_id) in
                  rw same (
                    settle-Opens run request (dispatch_denial s now_ms c run item) of_run canonical
                      named (sym (denial_same s now_ms c run.claims run item (rw id at eq)))))
          ]

    dispatch_claims-Opens :
        (request : Request) (o : Option (Claims × Run))
        → validate_request lib item.request_bytes ≡ ok request
        → check_claims lib anchor s request ≡ o
        → Opens (dispatch_claims lib anchor s now_ms q item request o disk).1
    unfolding dispatch_claims
    dispatch_claims-Opens request none canonical checked = (s, opened)
    dispatch_claims-Opens request (some (c, other)) canonical checked =
        dispatch_run-Opens request c other canonical checked (lookup item.run_id s.runs) refl

    dispatch_request-Opens :
        (o : Result Request)
        → validate_request lib item.request_bytes ≡ o
        → Opens (dispatch_request lib anchor s now_ms q item o disk).1
    unfolding dispatch_request
    dispatch_request-Opens (err code) canonical = (s, opened)
    dispatch_request-Opens (ok request) canonical =
        dispatch_claims-Opens request (check_claims lib anchor s request) canonical refl

    dispatch_item-Opens : Opens (dispatch_item lib anchor s now_ms q item disk).1
    unfolding dispatch_item
    dispatch_item-Opens =
        elim (Bool-cases (str_eq (lib.sha256 item.request_bytes) item.request_sha256)) [
          | inl same ↦
              (let call : dispatch_item lib anchor s now_ms q item disk
                    ≡ dispatch_request lib anchor s now_ms q item
                        (validate_request lib item.request_bytes) disk =
                  ground (arith, waiting, same) in
                rw call (dispatch_request-Opens (validate_request lib item.request_bytes) refl))
          | inr changed ↦
              (let call : (dispatch_item lib anchor s now_ms q item disk).1 ≡ disk =
                  ground (arith, waiting, changed) in
                rw call (s, opened))
        ]

  item-Opens :
      (disk : Disk) (s : State) (q : String) (now_ms : ℕ) (expected : Option String) (item : Queue)
      (st : Status)
      → item.status ≡ st
      → read_state lib anchor disk ≡ ok s
      → DispatchRoom s q disk
      → lookup q s.queues ≡ some item
      → Opens (dispatch_item lib anchor s now_ms q item disk).1
  unfolding dispatch_item
  item-Opens disk s q now_ms expected item queued e opened room found =
      dispatch_item-Opens disk s opened q room now_ms item found e
  item-Opens disk s q now_ms expected item applied e opened room found =
      let call : (dispatch_item lib anchor s now_ms q item disk).1 ≡ disk = ground (arith, e) in
      rw call (s, opened)
  item-Opens disk s q now_ms expected item rejected e opened room found =
      let call : (dispatch_item lib anchor s now_ms q item disk).1 ≡ disk = ground (arith, e) in
      rw call (s, opened)

  found-Opens :
      (disk : Disk) (s : State) (q : String) (now_ms : ℕ) (expected : Option String)
      (o : Option Queue)
      → read_state lib anchor disk ≡ ok s
      → DispatchRoom s q disk
      → lookup q s.queues ≡ o
      → Opens (dispatch_found lib anchor s now_ms q expected o disk).1
  unfolding dispatch_found
  found-Opens disk s q now_ms expected none opened room found = (s, opened)
  found-Opens disk s q now_ms expected (some item) opened room found =
      elim (Bool-cases (owned lib anchor expected item)) [
        | inl mine ↦
            rw mine (item-Opens disk s q now_ms expected item item.status refl opened room found)
        | inr other ↦ rw other (s, opened)
      ]

  -- A store that opens still opens after any dispatch, where whichever record the dispatch may append
  -- fits the journal and reads back, and digests have their documented form.
  pub dispatch-Opens :
      (disk : Disk) (s : State) (q : String) (now_ms : ℕ) (expected : Option String)
      → read_state lib anchor disk ≡ ok s
      → DispatchRoom s q disk
      → Opens (dispatch_expecting lib anchor q expected now_ms disk).1
  unfolding dispatch_expecting reading
  dispatch-Opens disk s q now_ms expected opened room = elim (Bool-cases (hex32 q)) [
    | inl hexed ↦
        (let call : dispatch_expecting lib anchor q expected now_ms disk
              ≡ dispatch_found lib anchor s now_ms q expected (lookup q s.queues) disk =
            ground (arith, hexed, opened) in
          rw call (found-Opens disk s q now_ms expected (lookup q s.queues) opened room refl))
    | inr other ↦
        (let call : (dispatch_expecting lib anchor q expected now_ms disk).1 ≡ disk =
            ground (arith, other) in
          rw call (s, opened))
  ]
