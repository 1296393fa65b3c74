-- ===== src/Broker/Operator/Admission.antt =====
-- `admit` on the store (src/lumi_eggcracker/brokered/operator.py, lines 1130-1164).
use lumi_eggcracker.Base.{
  ℕ, ◌+◌, String, ◌≡◌, refl, true, false, Option, none, some, List, length, Result, ok, arith,
}
use lumi_eggcracker.Base.Dict.{lookup}
use lumi_eggcracker.Broker.Library.{Library}
use lumi_eggcracker.Broker.Claims.{Claims, hex32}
use lumi_eggcracker.Broker.Requests.{Request, validate_request}
use lumi_eggcracker.Broker.State.{State, Run}
use lumi_eggcracker.Broker.Replay.{admitted_state}
use lumi_eggcracker.Broker.Journal.{Anchor, Disk, read_state, record_line}
use lumi_eggcracker.Broker.Journal.Reading.{read_state-IsValid, stamped}
use lumi_eggcracker.Broker.Journal.Appending.{DigestLaws}
use lumi_eggcracker.Broker.Journal.Appending.Round.{Room, appended, append-reads}
use lumi_eggcracker.Broker.Operator.Accepted.{admission-accepted}
use lumi_eggcracker.Broker.Calls.{Receipt, denied, admission_payload, admission_denial}
use lumi_eggcracker.Broker.Operator.{admit, admit_checked, check_claims}

module _ (lib : Library) (laws : DigestLaws lib) (anchor : Anchor) where
  abbrev pub admission_receipt : Claims → String → Receipt
  admission_receipt claims queue_id = record {
    phase = "admission";
    outcome = "QUEUED";
    code = "ADMITTED";
    run_id = some claims.run_id;
    queue_id = some queue_id;
    generation = some claims.generation;
    effect_applied = false;
    process_stop = none;
  }

  -- what `admit` answers and leaves, by the denial that the tests give
  abbrev pub AdmitOutcome :
      Disk
      → State
      → List ℕ
      → String
      → Request
      → Claims
      → Run
      → Option String
      → Result Receipt × Disk
      → Type 0
  AdmitOutcome disk s raw queue_id request claims run none (r, disk') =
      (r ≡ ok (admission_receipt claims queue_id))
      × (read_state lib anchor disk'
          ≡ ok (
              stamped lib
                (admitted_state lib s claims.run_id queue_id request.operation_id raw
                  (lib.sha256 raw) run)
                (s.last_seq + 1)
                (lib.sha256 (
                  record_line lib "ADMITTED"
                    (admission_payload lib request.operation_id queue_id raw claims.run_id)
                    s.last_hash (s.last_seq + 1)))
                (s.record_count + 1)))
  AdmitOutcome disk s raw queue_id request claims run (some code) (r, disk') =
      (r ≡ ok (denied "admission" code (some claims.run_id) none (some run.generation)))
      × (disk' ≡ disk)

  -- A canonical request with a valid capability, on an open store: if a test refuses it, the answer
  -- is that denial and the disk is as it was; if none does, the answer is QUEUED, and the disk opens
  -- with exactly this item queued, its operation identifier used and its bytes pending. The queue
  -- identifier is fresh, base64 decodes what it encoded, and the record fits and reads back.
  pub admit-outcome :
      (disk : Disk) (s : State) (raw : List ℕ) (now_ms : ℕ) (queue_id : String) (request : Request)
      (claims : Claims) (run : Run)
      → read_state lib anchor disk ≡ ok s
      → validate_request lib raw ≡ ok request
      → check_claims lib anchor s request ≡ some (claims, run)
      → lib.b64decode (lib.b64encode raw) ≡ some raw
      → hex32 queue_id ≡ true
      → lookup queue_id s.queues ≡ none
      → Room lib laws anchor s "ADMITTED"
          (admission_payload lib request.operation_id queue_id raw claims.run_id)
          disk
      → AdmitOutcome disk s raw queue_id request claims run
          (admission_denial s (length raw) now_ms claims run request)
          (admit lib anchor raw now_ms queue_id disk)
  unfolding admit
  admit-outcome disk s raw now_ms queue_id request claims run opened canonical checked decodes hexed
        fresh room =
      let call : admit lib anchor raw now_ms queue_id disk
          ≡ admit_checked lib anchor s raw now_ms queue_id request (some (claims, run)) disk =
        ground (arith, opened, canonical, checked) in
      rw call (by_denial (admission_denial s (length raw) now_ms claims run request) refl)
    where
      by_denial :
          (d : Option String)
          → admission_denial s (length raw) now_ms claims run request ≡ d
          → AdmitOutcome disk s raw queue_id request claims run d
              (admit_checked lib anchor s raw now_ms queue_id request (some (claims, run)) disk)
      by_denial none e =
          let (written, reads) =
            append-reads lib laws anchor disk s
              (admitted_state lib s claims.run_id queue_id request.operation_id raw (lib.sha256 raw)
                run)
              "ADMITTED" (admission_payload lib request.operation_id queue_id raw claims.run_id)
              opened
              (admission-accepted lib anchor s raw now_ms queue_id request claims run
                (read_state-IsValid lib anchor disk s opened).0 canonical checked e decodes hexed
                fresh)
              room in
          let answer : (admit_checked lib anchor s raw now_ms queue_id request (some (claims, run))
                disk)
              ≡ (
                ok (admission_receipt claims queue_id),
                appended lib laws anchor s "ADMITTED"
                    (admission_payload lib request.operation_id queue_id raw claims.run_id) disk,
              ) =
            ground (arith, e, written) in
          rw answer (refl, reads)
      by_denial (some code) e =
          let answer : (admit_checked lib anchor s raw now_ms queue_id request (some (claims, run))
                disk)
              ≡ (
                ok (denied "admission" code (some claims.run_id) none (some run.generation)),
                disk,
              ) =
            ground (arith, e) in
          rw answer (refl, refl)
