-- ===== src/Broker/Service.antt =====
-- The calls of the local service (src/lumi_eggcracker/brokered/operator.py, lines 1062-1085,
-- 1218-1242 and 1270-1279).
use lumi_eggcracker.Base.{
  ℕ, String, ◌≡◌, Bool, true, false, ◌&&◌, Option, none, some, [], ◌∷◌, ltb, ◌==◌, if◌then◌else◌,
  str_eq, length, ok, arith, Option-cases, Result-cases, inl, inr,
}
use lumi_eggcracker.Base.Dict.{Dict, lookup}
use lumi_eggcracker.Json.{arr, Items, end, field}
use lumi_eggcracker.Broker.Library.{Library}
use lumi_eggcracker.Broker.Claims.{hex32}
use lumi_eggcracker.Broker.State.{State, Run, Queue, Status, applied, ServiceResult}
use lumi_eggcracker.Broker.Journal.{Anchor, Disk, read_state, append}
use lumi_eggcracker.Broker.Calls.{
  Action, ◌>>=◌, ◌>>◌, pure, raise, Receipt, Grant, grant_for_claims,
}
use lumi_eggcracker.Broker.Operator.{reading, register_run_locked}

-- `next(iter(state.runs.values()))`, and whether there are no runs
abbrev pub first_run : Dict Run → Option Run
first_run [] = none
first_run ((k, run) ∷ rest) = some run

abbrev pub has_dataset : State → Bool
has_dataset s = elim s.service_dataset [ none ↦ false | some rows ↦ true ]

abbrev is_applied : Status → Bool
is_applied applied = true
is_applied _ = false

module _ (lib : Library) (anchor : Anchor) where
  -- the end of `_service_run_grant`, once the dataset is there
  unfoldable pub service_run : ℕ → String → State → Action Grant
  service_run now_ms run_id s =
      if ltb 1 (length s.runs)
      then raise "service state contains multiple run identities"
      else (elim (first_run s.runs) [
        | none ↦ register_run_locked lib anchor now_ms run_id s
        | some run ↦ pure (grant_for_claims lib run.claims)
      ])

  -- `_service_run_grant`; `records` is the answer of `_new_service_dataset`
  unfoldable pub service_run_grant : Items → ℕ → String → Action Grant
  unfolding reading service_run
  service_run_grant records now_ms run_id = do
    s ← reading lib anchor
    (if has_dataset s
        then service_run now_ms run_id s
        else if ltb 0 (length s.runs)
        then raise "service state is missing its private dataset"
        else (do
          append lib anchor s "SERVICE_DATASET_REGISTERED" (field "records" (arr records) end)
          t ← reading lib anchor
          service_run now_ms run_id t))

  -- `_existing_service_run_grant`
  unfoldable pub existing_service_run_grant : Action Grant
  unfolding reading
  existing_service_run_grant = do
    s ← reading lib anchor
    (if has_dataset s && length s.runs == 1
        then (elim (first_run s.runs) [
          | none ↦ raise "service state does not contain one run identity"
          | some run ↦ pure (grant_for_claims lib run.claims)
        ])
        else raise "service state does not contain one run identity")

  -- the tests of `_result_for_run` on what the state holds
  unfoldable pub owned_result : String → Option Queue → Option ServiceResult → Option ServiceResult
  owned_result run_id (some item) (some result) =
      if str_eq item.run_id run_id && is_applied item.status then some result else none
  owned_result run_id _ _ = none

  -- `_result_for_run`
  unfoldable pub result_for_run : String → String → Action (Option ServiceResult)
  unfolding reading owned_result hex32
  result_for_run queue_id run_id =
      if hex32 queue_id && hex32 run_id
      then (do
        s ← reading lib anchor
        pure (owned_result run_id (lookup queue_id s.queues) (lookup queue_id s.results)))
      else pure none

  -- `verified_process_stop`
  unfoldable pub verified_process_stop : String → Receipt
  unfolding hex32
  verified_process_stop run_id = record {
    phase = "process_stop";
    outcome = "UNSUPPORTED";
    code = "PROCESS_TERMINATION_UNSUPPORTED";
    run_id = if hex32 run_id then some run_id else none;
    queue_id = none;
    generation = none;
    effect_applied = false;
    process_stop = some "UNSUPPORTED";
  }

  -- Where the existing grant can be recovered, asking for the service's grant answers that same grant
  -- and leaves the disk as it is, whatever the clock, the fresh identifier and the fresh dataset are.
  pub service_run_grant-existing :
      (records : Items) (now_ms : ℕ) (run_id : String) (disk : Disk) (grant : Grant)
      → (existing_service_run_grant disk).0 ≡ ok grant
      → service_run_grant records now_ms run_id disk ≡ (ok grant, disk)
  unfolding existing_service_run_grant service_run_grant reading service_run
  service_run_grant-existing records now_ms run_id disk grant h =
      elim (Result-cases (read_state lib anchor disk)) [
        | inr (message, e) ↦ absurd (ground (arith, e, h))
        | inl (s, e) ↦ elim (Option-cases (first_run s.runs)) [
          | inl missing ↦ absurd (ground (arith, e, missing, h))
          | inr (run, found) ↦ ground (arith, e, found, h)
        ]
      ]
