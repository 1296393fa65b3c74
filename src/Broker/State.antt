-- ===== src/Broker/State.antt =====
-- The state that replaying the journal yields (src/lumi_eggcracker/brokered/operator.py, lines 131-163 and 220-273).
use lumi_eggcracker.Base.{
  ℕ, ◌+◌, String, Bool, true, false, not, ◌&&◌, Option, none, some, List, [], ◌∷◌, leb, ltb, ◌==◌,
  if◌then◌else◌, str_eq, elem, length, sum_by, map,
}
use lumi_eggcracker.Base.Dict.{Dict}
use lumi_eggcracker.Json.{
  Value, int, pos, str, obj, arr, Items, nil, cons, Fields, end, field, get, same_keys, items, bool,
  is_int, is_text, is_the,
}
use lumi_eggcracker.Broker.Library.{Library}
use lumi_eggcracker.Broker.Claims.{Claims, hex32, text_at, nat_at}

-- `_Queue.status`
pub data Status : Type 0 where
  queued applied rejected : Status

pub record Queue : Type 0 where
  pub queue_id : String
  pub run_id : String
  pub operation_id : String
  pub request_bytes : List ℕ
  pub request_sha256 : String
  pub status : Status

pub record Run : Type 0 where
  pub claims : Claims
  pub generation : ℕ
  pub revoked : Bool
  pub reason : Option String
  pub admitted : ℕ
  pub applied : ℕ

-- a row of the service dataset
pub record Row : Type 0 where
  pub sample_id : String
  pub status : String
  pub units : ℕ

pub record ServiceResult : Type 0 where
  pub accepted : ℕ
  pub dataset_id : String
  pub dataset_sha256 : String
  pub records_checked : ℕ
  pub review : ℕ
  pub units_total : ℕ

pub record State : Type 0 where
  pub store_id : String
  pub last_seq : ℕ
  pub last_hash : String
  pub record_count : ℕ
  pub runs : Dict Run
  pub queues : Dict Queue
  pub operation_ids : List String
  pub applied_operation_ids : List String
  pub pending_bytes : ℕ
  pub effect_count : ℕ
  pub service_dataset : Option (List Row)
  pub results : Dict ServiceResult

unfoldable pub new_run : Claims → Run
new_run c = record {
  claims = c;
  generation = 0;
  revoked = false;
  reason = none;
  admitted = 0;
  applied = 0;
}

unfoldable pub row_fields : Value → Fields
row_fields (obj fs) = fs
row_fields _ = end

unfoldable pub row_valid : Fields → List String → Bool
unfolding hex32
row_valid fs seen =
    same_keys fs ("sample_id" ∷ "status" ∷ "units" ∷ [])
    && is_text hex32 (get "sample_id" fs)
    && not (elem (text_at "sample_id" fs) seen)
    && is_text (λ s. elem s ("accepted" ∷ "review" ∷ [])) (get "status" fs)
    && is_int 1 (get "units" fs)
    && leb (nat_at "units" fs) 1000

abbrev pub tally : Bool → ℕ
tally b = if b then 1 else 0

-- the loop of `_service_dataset_valid`, then its final test
unfoldable pub rows_valid : List Value → List String → ℕ → ℕ → Bool
unfolding row_fields row_valid
rows_valid [] seen accepted review = ltb 0 accepted && ltb 0 review && accepted + review == 4
rows_valid (v ∷ vs) seen accepted review =
    let fs = row_fields v in
    row_valid fs seen
    && rows_valid vs (text_at "sample_id" fs ∷ seen)
        (accepted + tally (str_eq (text_at "status" fs) "accepted"))
        (review + tally (str_eq (text_at "status" fs) "review"))

-- `_service_dataset_valid`
unfoldable pub service_dataset_valid : Option Value → Bool
unfolding rows_valid
service_dataset_valid (some (arr vs)) = length (items vs) == 4 && rows_valid (items vs) [] 0 0
service_dataset_valid _ = false

unfoldable pub row_of : Value → Row
unfolding row_fields
row_of v =
    let fs = row_fields v in
    record {
      sample_id = text_at "sample_id" fs;
      status = text_at "status" fs;
      units = nat_at "units" fs;
    }

unfoldable pub rows_of : Option Value → List Row
unfolding row_of
rows_of (some (arr vs)) = map row_of (items vs)
rows_of _ = []

unfoldable pub row_value : Row → Value
row_value r = obj (
    field "sample_id" (str r.sample_id)
      (field "status" (str r.status) (field "units" (int (pos r.units)) end)))

unfoldable pub rows_value : List Row → Items
unfolding row_value
rows_value [] = nil
rows_value (r ∷ rs) = cons (row_value r) (rows_value rs)

-- `_service_result`
unfoldable pub service_result : Library → List Row → ServiceResult
unfolding rows_value
service_result lib rows = record {
  accepted = sum_by (λ r. tally (str_eq r.status "accepted")) rows;
  dataset_id = "synthetic.research-batch.v1";
  dataset_sha256 = lib.sha256 (lib.dumps (arr (rows_value rows)));
  records_checked = length rows;
  review = sum_by (λ r. tally (str_eq r.status "review")) rows;
  units_total = sum_by (λ r. r.units) rows;
}

unfoldable pub result_value : ServiceResult → Value
result_value r = obj (
    field "accepted" (int (pos r.accepted)) (
      field "dataset_id" (str r.dataset_id) (
        field "dataset_sha256" (str r.dataset_sha256) (
          field "records_checked" (int (pos r.records_checked)) (
            field "review" (int (pos r.review))
              (field "units_total" (int (pos r.units_total)) end))))))

result_fields : Option Value → Fields
result_fields (some (obj fs)) = fs
result_fields _ = end

-- Python's `==` of a number; `True` is 1 and `False` is 0. The journal's parser refuses other numbers.
equals_nat : ℕ → Option Value → Bool
equals_nat n (some (int (pos m))) = m == n
equals_nat n (some (bool true)) = n == 1
equals_nat n (some (bool false)) = n == 0
equals_nat n v = false

-- `payload["result"] == result`
unfoldable pub is_result : Option Value → ServiceResult → Bool
unfolding result_fields equals_nat
is_result v r =
    let fs = result_fields v in
    same_keys fs (
      "accepted" ∷ "dataset_id" ∷ "dataset_sha256" ∷ "records_checked" ∷ "review" ∷ "units_total"
      ∷ [])
    && equals_nat r.accepted (get "accepted" fs)
    && is_the r.dataset_id (get "dataset_id" fs)
    && is_the r.dataset_sha256 (get "dataset_sha256" fs)
    && equals_nat r.records_checked (get "records_checked" fs)
    && equals_nat r.review (get "review" fs)
    && equals_nat r.units_total (get "units_total" fs)
