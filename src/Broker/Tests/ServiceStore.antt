-- ===== src/Broker/Tests/ServiceStore.antt =====
-- A store with the private dataset and the service's one run.
use lumi_eggcracker.Base.{ℕ, String, ◌≡◌, refl, [], ◌∷◌, ok}
use lumi_eggcracker.Json.{Value, int, pos, str, obj, arr, Items, nil, cons, Fields, end, field}
use lumi_eggcracker.Broker.Library.{Library}
use lumi_eggcracker.Broker.State.{service_dataset_valid, rows_of}
use lumi_eggcracker.Broker.Replay.{replay_dataset}
use lumi_eggcracker.Broker.Journal.{
  no_hash, Disk, record_value, witness_value, record_line, witness_line,
}
use lumi_eggcracker.Broker.Calls.{run_payload, grant_for_claims}
use lumi_eggcracker.Broker.Operator.{reading}
use lumi_eggcracker.Broker.Service.{
  existing_service_run_grant, service_run_grant, service_run_grant-existing,
}
use lumi_eggcracker.Broker.Tests.Scenario.{desk, find, store, grant, genesis_payload, opened}

abbrev row : String → String → ℕ → Value
row sample_id status units = obj (
    field "sample_id" (str sample_id)
      (field "status" (str status) (field "units" (int (pos units)) end)))

abbrev dataset : Items
dataset = cons (row "00000000000000000000000000000001" "accepted" 3) (
    cons (row "00000000000000000000000000000002" "accepted" 4) (
      cons (row "00000000000000000000000000000003" "review" 5)
        (cons (row "00000000000000000000000000000004" "accepted" 6) nil)))

abbrev dataset_payload : Fields
dataset_payload = field "records" (arr dataset) end

-- the scenario's library, with the records of this store
service_desk : Library
unfolding desk run_payload
service_desk = record desk {
  loads = find (
      record_value "GENESIS" no_hash genesis_payload no_hash 0
      ∷ record_value "SERVICE_DATASET_REGISTERED" no_hash dataset_payload no_hash 1
      ∷ record_value "RUN_REGISTERED" no_hash (run_payload grant) no_hash 2
      ∷ witness_value no_hash no_hash 2 "0000000000000000000000000000000a"
      ∷ []);
}

abbrev service_disk : Disk
service_disk = record {
  journal =
      record_line service_desk "GENESIS" genesis_payload no_hash 0
      ∷ record_line service_desk "SERVICE_DATASET_REGISTERED" dataset_payload no_hash 1
      ∷ record_line service_desk "RUN_REGISTERED" (run_payload grant) no_hash 2
      ∷ [];
  witness = witness_line service_desk store 2 no_hash;
}

existing :
    (existing_service_run_grant service_desk store service_disk).0
    ≡ ok (grant_for_claims service_desk grant)
unfolding existing_service_run_grant reading service_desk opened replay_dataset
    service_dataset_valid rows_of
existing = refl

service_run_grant-existing_example :
    service_run_grant service_desk store nil 9 "00000000000000000000000000000005" service_disk
    ≡ (ok (grant_for_claims service_desk grant), service_disk)
service_run_grant-existing_example =
    service_run_grant-existing service_desk store nil 9 "00000000000000000000000000000005"
      service_disk (grant_for_claims service_desk grant) existing
