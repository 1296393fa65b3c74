-- ===== src/Broker/Ipc/Receipts.antt =====
-- The receipts that the operator answers are those that the client accepts
-- (src/lumi_eggcracker/brokered/linux_ipc.py, lines 189-213 and 306-312).
use lumi_eggcracker.Base.{
  ℕ, String, ◌≡◌, ◌⊎◌, refl, arith, true, false, ◌&&◌, Option, none, some, List, str_eq, length, ok,
  if◌then◌else◌, Bool-cases, Option-cases, Result-cases, inl, inr,
}
use mathlib.Core.Path.{subst}
use lumi_eggcracker.Base.Dict.{lookup}
use lumi_eggcracker.Broker.Library.{Library}
use lumi_eggcracker.Broker.Claims.{Claims, hex32}
use lumi_eggcracker.Broker.Requests.{Request, validate_request}
use lumi_eggcracker.Broker.State.{State, Run, Queue, Status, queued, applied, rejected}
use lumi_eggcracker.Broker.Journal.{Anchor, Disk, read_state, append}
use lumi_eggcracker.Broker.Calls.{
  Receipt, denied, Action, ◌>>=◌, ◌>>◌, pure, raise, admission_payload, rejection_payload,
  dispatch_payload, admission_denial, dispatch_denial,
}
use lumi_eggcracker.Broker.Operator.{
  admit, admit_request, admit_checked, reading, check_claims, settle, dispatch_run, dispatch_claims,
  dispatch_request, dispatch_item, dispatch_found, owned, dispatch_expecting, dispatch_for_run,
}
use lumi_eggcracker.Broker.Ipc.Allowed.{
  IsAllowed, denied-IsAllowed, admission_denial-code, dispatch_denial-code, validate_request-code,
}

-- An answer after a step that writes.
then_pure :
    {A B : Type 0} (m : Action A) (b r : B) (disk : Disk) → ((m >> pure b) disk).0 ≡ ok r → b ≡ r
then_pure m b r disk h = elim (Result-cases (m disk).0) [
  | inl (a, e) ↦ ground (arith, e, h)
  | inr (message, e) ↦ ground (arith, e, h)
]

Status-cases : (st : Status) → (st ≡ queued) ⊎ ((st ≡ applied) ⊎ (st ≡ rejected))
Status-cases queued = inl refl
Status-cases applied = inr (inl refl)
Status-cases rejected = inr (inr refl)

abbrev applied_receipt : Queue → Run → String → Receipt
applied_receipt item run queue_id = record {
  phase = "dispatch";
  outcome = "APPLIED";
  code = "EFFECT_APPLIED";
  run_id = some item.run_id;
  queue_id = some queue_id;
  generation = some run.generation;
  effect_applied = true;
  process_stop = none;
}

abbrev admitted_receipt : Claims → String → Receipt
admitted_receipt claims queue_id = record {
  phase = "admission";
  outcome = "QUEUED";
  code = "ADMITTED";
  run_id = some claims.run_id;
  queue_id = some queue_id;
  generation = some claims.generation;
  effect_applied = false;
  process_stop = none;
}

module _ (lib : Library) (anchor : Anchor) where
  admit_checked-IsAllowed :
      (s : State) (raw : List ℕ) (now_ms : ℕ) (queue_id : String) (request : Request)
      (checked : Option (Claims × Run)) (disk : Disk) (r : Receipt)
      → hex32 queue_id ≡ true
      → (admit_checked lib anchor s raw now_ms queue_id request checked disk).0 ≡ ok r
      → IsAllowed r
  unfolding admit_checked
  admit_checked-IsAllowed s raw now_ms queue_id request none disk r q h =
      let e : denied "admission" "CAPABILITY_INVALID" none none none ≡ r = cc in
      subst IsAllowed e
        (denied-IsAllowed "admission" "CAPABILITY_INVALID" none none none refl refl refl)
  admit_checked-IsAllowed s raw now_ms queue_id request (some (claims, run)) disk r q h =
      elim (Option-cases (admission_denial s (length raw) now_ms claims run request)) [
        | inr (code, e) ↦
            (let same : denied "admission" code (some claims.run_id) none (some run.generation)
                  ≡ r =
                ground (arith, e, h) in
              subst IsAllowed same (
                denied-IsAllowed "admission" code (some claims.run_id) none (some run.generation)
                  refl (admission_denial-code s (length raw) now_ms claims run request code e)
                  refl))
        | inl e ↦
            (let same =
                then_pure
                  (append lib anchor s "ADMITTED"
                    (admission_payload lib request.operation_id queue_id raw claims.run_id))
                  (admitted_receipt claims queue_id) r disk (ground (arith, e, h)) in
              subst IsAllowed same
                (record { code = refl; phase = refl; outcome = refl; queue = q; stop = refl }))
      ]

  -- Where a call under the lock answers, the state was read and the rest answers.
  reading-bind :
      {B : Type 0} (f : State → Action B) (r : B) (disk : Disk)
      → ((reading lib anchor >>= f) disk).0 ≡ ok r
      → (s : State) × ((f s disk).0 ≡ ok r)
  unfolding reading
  reading-bind f r disk h = elim (Result-cases (read_state lib anchor disk)) [
    | inl (s, e) ↦ (s, ground (arith, e, h))
    | inr (message, e) ↦ ground (arith, e, h)
  ]

  pub admit-IsAllowed :
      (raw : List ℕ) (now_ms : ℕ) (queue_id : String) (disk : Disk) (r : Receipt)
      → hex32 queue_id ≡ true
      → (admit lib anchor raw now_ms queue_id disk).0 ≡ ok r
      → IsAllowed r
  unfolding admit admit_request
  admit-IsAllowed raw now_ms queue_id disk r q h = elim (Result-cases (validate_request lib raw)) [
    | inl (request, e) ↦
        (let opened : ((reading lib anchor >>= λ s.
        admit_checked lib anchor s raw now_ms queue_id request (check_claims lib anchor s request))
                disk).0
              ≡ ok r =
            ground (arith, e, h) in
          let (s, h1) =
            reading-bind
              (λ s.
                admit_checked lib anchor s raw now_ms queue_id request
                  (check_claims lib anchor s request))
              r disk opened in
          admit_checked-IsAllowed s raw now_ms queue_id request (check_claims lib anchor s request)
            disk r q h1)
    | inr (code, e) ↦
        (let same : denied "admission" code none none none ≡ r = ground (arith, e, h) in
          subst IsAllowed same (
            denied-IsAllowed "admission" code none none none refl
              (validate_request-code lib raw code e) refl))
  ]

  settle-IsAllowed :
      (s : State) (queue_id : String) (item : Queue) (run : Run) (now_ms : ℕ) (claims : Claims)
      (disk : Disk) (r : Receipt)
      → hex32 queue_id ≡ true
      → (settle lib anchor s queue_id item run (dispatch_denial s now_ms claims run item) disk).0
        ≡ ok r
      → IsAllowed r
  unfolding settle
  settle-IsAllowed s queue_id item run now_ms claims disk r q h =
      elim (Option-cases (dispatch_denial s now_ms claims run item)) [
        | inr (reason, e) ↦
            (let same =
                then_pure
                  (append lib anchor s "DISPATCH_REJECTED" (rejection_payload queue_id reason))
                  (denied "dispatch" reason (some item.run_id) (some queue_id)
                    (some run.generation))
                  r disk (ground (arith, e, h)) in
              subst IsAllowed same (
                denied-IsAllowed "dispatch" reason (some item.run_id) (some queue_id)
                  (some run.generation) refl
                  (dispatch_denial-code s now_ms claims run item reason e) q))
        | inl e ↦
            (let same =
                then_pure
                  (append lib anchor s "DISPATCHED"
                    (dispatch_payload lib queue_id s.service_dataset))
                  (applied_receipt item run queue_id) r disk (ground (arith, e, h)) in
              subst IsAllowed same
                (record { code = refl; phase = refl; outcome = refl; queue = q; stop = refl }))
      ]

  queued_item :
      (s : State) (now_ms : ℕ) (queue_id : String) (item : Queue) (disk : Disk) (r : Receipt)
      → hex32 queue_id ≡ true
      → ((if str_eq (lib.sha256 item.request_bytes) item.request_sha256
            then dispatch_request lib anchor s now_ms queue_id item
                (validate_request lib item.request_bytes)
            else raise "queued canonical bytes changed")
          disk).0
        ≡ ok r
      → IsAllowed r
  unfolding dispatch_request dispatch_claims dispatch_run
  queued_item s now_ms queue_id item disk r q h =
      elim (Bool-cases (str_eq (lib.sha256 item.request_bytes) item.request_sha256)) [
        | inr changed ↦ absurd (ground (arith, changed, h))
        | inl whole ↦ elim (Result-cases (validate_request lib item.request_bytes)) [
          | inr (code, e) ↦ absurd (ground (arith, whole, e, h))
          | inl (request, e) ↦ elim (Option-cases (check_claims lib anchor s request)) [
            | inl c ↦ absurd (ground (arith, whole, e, c, h))
            | inr ((claims, other), c) ↦ elim (Option-cases (lookup item.run_id s.runs)) [
              | inl m ↦ absurd (ground (arith, whole, e, c, m, h))
              | inr (run, m) ↦
                  elim (Bool-cases (
                    str_eq request.run_id item.run_id
                    && str_eq request.operation_id item.operation_id)) [
                      | inr differs ↦ absurd (ground (arith, whole, e, c, m, differs, h))
                      | inl same ↦
                          settle-IsAllowed s queue_id item run now_ms claims disk r q
                            (ground (arith, whole, e, c, m, same, h))
                    ]
            ]
          ]
        ]
      ]

  dispatch_item-IsAllowed :
      (s : State) (now_ms : ℕ) (queue_id : String) (item : Queue) (disk : Disk) (r : Receipt)
      → hex32 queue_id ≡ true
      → (dispatch_item lib anchor s now_ms queue_id item disk).0 ≡ ok r
      → IsAllowed r
  unfolding dispatch_item
  dispatch_item-IsAllowed s now_ms queue_id item disk r q h = elim (Status-cases item.status) [
    | inr (inl e) ↦
        subst IsAllowed
          (let same : denied "dispatch" "REPLAY" (some item.run_id) (some queue_id) none ≡ r =
              ground (arith, e, h) in
            same)
          (denied-IsAllowed "dispatch" "REPLAY" (some item.run_id) (some queue_id) none refl refl q)
    | inr (inr e) ↦
        subst IsAllowed
          (let same : denied "dispatch" "ALREADY_FINAL" (some item.run_id) (some queue_id) none
                ≡ r =
              ground (arith, e, h) in
            same)
          (denied-IsAllowed "dispatch" "ALREADY_FINAL" (some item.run_id) (some queue_id) none refl
            refl q)
    | inl e ↦ queued_item s now_ms queue_id item disk r q (ground (arith, e, h))
  ]

  pub dispatch_for_run-IsAllowed :
      (queue_id run_id : String) (now_ms : ℕ) (disk : Disk) (r : Receipt)
      → hex32 queue_id ≡ true
      → (dispatch_for_run lib anchor queue_id run_id now_ms disk).0 ≡ ok r
      → IsAllowed r
  unfolding dispatch_for_run dispatch_expecting dispatch_found owned
  dispatch_for_run-IsAllowed queue_id run_id now_ms disk r q h = elim (Bool-cases (hex32 run_id)) [
    | inr other ↦
        subst IsAllowed
          (let same : denied "dispatch" "NOT_FOUND" none none none ≡ r = ground (arith, other, h) in
            same)
          (denied-IsAllowed "dispatch" "NOT_FOUND" none none none refl refl refl)
    | inl named ↦
        (let opened : ((reading lib anchor >>= λ s.
        dispatch_found lib anchor s now_ms queue_id (some run_id) (lookup queue_id s.queues))
                disk).0
              ≡ ok r =
            ground (arith, named, q, h) in
          let (s, h1) =
            reading-bind
              (λ s.
                dispatch_found lib anchor s now_ms queue_id (some run_id)
                  (lookup queue_id s.queues))
              r disk opened in
          let missing =
            denied-IsAllowed "dispatch" "NOT_FOUND" none (some queue_id) none refl refl q in
          elim (Option-cases (lookup queue_id s.queues)) [
            | inl e ↦
                subst IsAllowed
                  (let same : denied "dispatch" "NOT_FOUND" none (some queue_id) none ≡ r =
                      ground (arith, e, h1) in
                    same)
                  missing
            | inr (item, e) ↦ elim (Bool-cases (str_eq item.run_id run_id)) [
              | inl mine ↦
                  dispatch_item-IsAllowed s now_ms queue_id item disk r q
                    (ground (arith, e, mine, h1))
              | inr foreign ↦
                  subst IsAllowed
                    (let same : denied "dispatch" "NOT_FOUND" none (some queue_id) none ≡ r =
                        ground (arith, e, foreign, h1) in
                      same)
                    missing
            ]
          ])
  ]
