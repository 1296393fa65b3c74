-- ===== src/Broker/Operator/Fencing.antt =====
-- `_revoke` and the generation fence on the store (src/lumi_eggcracker/brokered/operator.py, lines 1175-1268).
use lumi_eggcracker.Base.{ℕ, ◌+◌, String, ◌≡◌, refl, ap, true, false, none, some, ok, arith, elem}
use lumi_eggcracker.Base.Dict.{lookup, lookup-insert_self}
use lumi_eggcracker.Broker.Library.{Library}
use lumi_eggcracker.Broker.Claims.{hex32}
use lumi_eggcracker.Broker.State.{State, Run}
use lumi_eggcracker.Broker.Replay.{revoked_state, revocation_reasons}
use lumi_eggcracker.Broker.Replay.Fence.{IsFenced}
use lumi_eggcracker.Broker.Journal.{Anchor, Disk, read_state, record_line}
use lumi_eggcracker.Broker.Journal.Reading.{stamped}
use lumi_eggcracker.Broker.Journal.Appending.{DigestLaws}
use lumi_eggcracker.Broker.Journal.Appending.Round.{Room, appended, append-reads}
use lumi_eggcracker.Broker.Calls.{Receipt, revocation_payload}
use lumi_eggcracker.Broker.Operator.{revoke_for, process_stop_of}
use lumi_eggcracker.Broker.Operator.Accepted.{revocation-accepted}

module _ (lib : Library) (laws : DigestLaws lib) (anchor : Anchor) where
  -- the receipt of a revocation that took place
  abbrev pub revocation_receipt : String → String → Run → Receipt
  revocation_receipt run_id reason run = record {
    phase = "revocation";
    outcome = "REVOKED";
    code = reason;
    run_id = some run_id;
    queue_id = none;
    generation = some (run.generation + 1);
    effect_applied = false;
    process_stop = process_stop_of lib anchor reason;
  }

  revoked_IsFenced :
      (s : State) (run_id reason : String) (run : Run) (q c : ℕ) (h : String)
      → IsFenced run_id run.admitted run.applied
          (run.generation + 1)
          (stamped lib (revoked_state s run_id run reason) q h c)
  unfolding revoked_state
  revoked_IsFenced s run_id reason run q c h = record {
    holder = record run { generation = run.generation + 1; revoked = true; reason = some reason };
    found = lookup-insert_self run_id _ s.runs;
    is_revoked = refl;
    admitted_as = refl;
    applied_as = refl;
    generation_as = refl;
  }

  -- Revoking a run of an open store that is not revoked yet answers REVOKED with the next
  -- generation, and leaves a store that opens with the run fenced at its present counters, where the
  -- record fits the journal and reads back, and digests have their documented form.
  pub revoke-fences :
      (disk : Disk) (s : State) (run_id reason : String) (run : Run)
      → read_state lib anchor disk ≡ ok s
      → hex32 run_id ≡ true
      → lookup run_id s.runs ≡ some run
      → run.revoked ≡ false
      → elem reason revocation_reasons ≡ true
      → Room lib laws anchor s "REVOKED"
          (revocation_payload (run.generation + 1) reason run_id)
          disk
      → (s' : State) × ((revoke_for lib anchor run_id reason disk).0
          ≡ ok (revocation_receipt run_id reason run))
        × (read_state lib anchor (revoke_for lib anchor run_id reason disk).1 ≡ ok s')
        × IsFenced run_id run.admitted run.applied (run.generation + 1) s'
  unfolding revoke_for
  revoke-fences disk s run_id reason run h hexed found live allowed room =
      let (written, reads) =
        append-reads lib laws anchor disk s (revoked_state s run_id run reason) "REVOKED"
          (revocation_payload (run.generation + 1) reason run_id) h
          (revocation-accepted lib s run_id reason run found live allowed) room in
      let payload = revocation_payload (run.generation + 1) reason run_id in
      let call : revoke_for lib anchor run_id reason disk ≡ (
        ok (revocation_receipt run_id reason run),
        appended lib laws anchor s "REVOKED" payload disk,
      ) =
        ground (arith, hexed, h, found, live, written) in
      let hash = lib.sha256 (record_line lib "REVOKED" payload s.last_hash (s.last_seq + 1)) in
      (
        stamped lib (revoked_state s run_id run reason) (s.last_seq + 1) hash (s.record_count + 1),
        ap (λ x. x.0) call,
        rw call reads,
        revoked_IsFenced s run_id reason run (s.last_seq + 1) (s.record_count + 1) hash,
      )
