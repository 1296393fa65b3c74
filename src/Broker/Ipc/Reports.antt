-- ===== src/Broker/Ipc/Reports.antt =====
-- The results in a store's state are reports that the client accepts
-- (src/lumi_eggcracker/brokered/linux_ipc.py, lines 216-243, on
-- src/lumi_eggcracker/brokered/operator.py, lines 220-273).
use lumi_eggcracker.Base.{
  ℕ, ◌+◌, ◌*◌, ◌≤◌, String, ◌≡◌, refl, sym, ap, ◌∙◌, arith, true, Option, none, some, List, [], ◌∷◌,
  str_eq, length, map, sum_by, leb, leb→le, ◌==◌, ok, if◌then◌else◌, Bool-cases, inl, inr, &&_split,
  require-eq-ok,
}
use mathlib.Core.Path.{subst}
use lumi_eggcracker.Base.Dict.{Dict, lookup, insert, lookup-insert}
use lumi_eggcracker.Json.{Value, Fields, get, arr, items, as_nat, is_int}
use lumi_eggcracker.Broker.Library.{Library}
use lumi_eggcracker.Broker.Claims.{hex64, text_at, nat_at}
use lumi_eggcracker.Broker.State.{
  rows_value, State, Row, ServiceResult, row_fields, row_valid, rows_valid, row_of, rows_of, tally,
  service_dataset_valid, service_result, result_value,
}
use lumi_eggcracker.Broker.Replay.{
  replay_event, replay_dataset, record_result, revoked_state, rejected_state, admitted_state,
  dispatched_state,
}
use lumi_eggcracker.Broker.Replay.Inversion.{
  revoked_inversion, run_inversion, rejected_inversion, admitted_inversion, dataset, run_registered,
  admitted, dispatched, dispatch_rejected, revoked, event_cases,
}
use lumi_eggcracker.Broker.Replay.Linked.{dispatched_results}
use lumi_eggcracker.Broker.Journal.Induction.{read_state_induction}
use lumi_eggcracker.Broker.Journal.{Anchor, Disk, read_state, empty_state}
use lumi_eggcracker.Broker.Journal.Appending.{DigestLaws}
use lumi_eggcracker.Broker.Ipc.Validators.{valid_report, report_fields, report_numbers}

abbrev accepted_of : List Row → ℕ
accepted_of rows = sum_by (λ (r : Row). tally (str_eq r.status "accepted")) rows

abbrev review_of : List Row → ℕ
review_of rows = sum_by (λ (r : Row). tally (str_eq r.status "review")) rows

abbrev units_of : List Row → ℕ
units_of rows = sum_by (λ (r : Row). r.units) rows

is_int-le :
    (n : ℕ) (o : Option Value) → is_int n o ≡ true → n ≤ (elim (as_nat o) [ none ↦ 0 | some m ↦ m ])
is_int-le n o h = ground (arith, h)

row-units :
    (v : Value) (seen : List String)
    → row_valid (row_fields v) seen ≡ true
    → (1 ≤ (row_of v).units) × ((row_of v).units ≤ 1000)
unfolding row_valid row_of
row-units v seen h =
    let fs = row_fields v in
    let (rest, small) = &&_split _ (leb (nat_at "units" fs) 1000) h in
    let (others, positive) = &&_split _ (is_int 1 (get "units" fs)) rest in
    (is_int-le 1 (get "units" fs) positive, leb→le (nat_at "units" fs) 1000 small)

rows-totals :
    (vs : List Value) (seen : List String) (accepted review : ℕ)
    → rows_valid vs seen accepted review ≡ true
    → let rows = map row_of vs in
      (1 ≤ accepted + accepted_of rows)
      × (1 ≤ review + review_of rows)
      × (accepted + accepted_of rows + (review + review_of rows) ≡ 4)
      × (length vs ≤ units_of rows)
      × (units_of rows ≤ 1000 * length vs)
      × (length rows ≡ length vs)
unfolding rows_valid row_of
rows-totals [] seen accepted review h = ground (arith, h)
rows-totals (v ∷ vs) seen accepted review h =
    let fs = row_fields v in
    let seen' = text_at "sample_id" fs ∷ seen in
    let a = tally (str_eq (text_at "status" fs) "accepted") in
    let r = tally (str_eq (text_at "status" fs) "review") in
    let (row, rest) =
      &&_split (row_valid fs seen) (rows_valid vs seen' (accepted + a) (review + r)) h in
    let units = row-units v seen row in
    let (some_accepted, some_review, four, least, most, size) =
      rows-totals vs seen' (accepted + a) (review + r) rest in
    (
      omega (arith, some_accepted),
      omega (arith, some_review),
      omega (arith, four),
      omega (arith, units, least),
      omega (arith, units, most),
      omega (arith, size),
    )

-- What the service computes of some rows is a report that the client accepts.
abbrev pub Reportable : Library → List Row → Type 0
Reportable lib rows = valid_report (some (result_value (service_result lib rows))) ≡ true

numbers :
    (a n r u : ℕ)
    → 1 ≤ a
    → 1 ≤ r
    → a + r ≡ 4
    → n ≡ 4
    → 4 ≤ u
    → u ≤ 4000
    → report_numbers a n r u ≡ true
unfolding report_numbers
numbers a n r u ha hr four hn low high = ground (arith, ha, hr, four, hn, low, high)

result-valid :
    (r : ServiceResult)
    → r.dataset_id ≡ "synthetic.research-batch.v1"
    → hex64 r.dataset_sha256 ≡ true
    → report_numbers r.accepted r.records_checked r.review r.units_total ≡ true
    → valid_report (some (result_value r)) ≡ true
unfolding valid_report report_fields result_value
result-valid r named hex checks = rw named (ground (arith, hex, checks))

service_dataset_valid-Reportable :
    (lib : Library) (laws : DigestLaws lib) (v : Option Value)
    → service_dataset_valid v ≡ true
    → Reportable lib (rows_of v)
unfolding service_dataset_valid rows_of service_result
service_dataset_valid-Reportable lib laws (some (arr vs)) h =
    let (four, valid) = &&_split (length (items vs) == 4) (rows_valid (items vs) [] 0 0) h in
    let (a, r, sum, least, most, size) = rows-totals (items vs) [] 0 0 valid in
    let rows = map row_of (items vs) in
    let count : length (items vs) ≡ 4 = ground (arith, four) in
    let checks =
      numbers (accepted_of rows) (length rows) (review_of rows) (units_of rows) (omega (arith, a))
        (omega (arith, r)) (omega (arith, sum)) (omega (arith, size, count))
        (omega (arith, least, count)) (omega (arith, most, count)) in
    result-valid (service_result lib rows) refl
      (laws.sha256_hex (lib.dumps (arr (rows_value rows)))) checks
service_dataset_valid-Reportable lib laws v h = cc

-- The dataset yields a valid report, and so does every result.
pub record IsReporting (lib : Library) (s : State) : Type 0 where
  pub dataset_ok : (rows : List Row) → s.service_dataset ≡ some rows → Reportable lib rows
  pub result_ok :
      (q : String) (r : ServiceResult)
      → lookup q s.results ≡ some r
      → valid_report (some (result_value r)) ≡ true

module _ (lib : Library) (laws : DigestLaws lib) where
  dataset-IsReporting :
      (s s' : State) (payload : Fields)
      → IsReporting lib s
      → replay_dataset s payload ≡ ok s'
      → IsReporting lib s'
  unfolding replay_dataset
  dataset-IsReporting s s' payload v h =
      let (tests, h1) = require-eq-ok _ "durable service dataset is invalid" _ h in
      let (others, valid) = &&_split _ (service_dataset_valid (get "records" payload)) tests in
      let t : State = record s { service_dataset = some (rows_of (get "records" payload)) } in
      let same : t ≡ s' = cc in
      let reports = service_dataset_valid-Reportable lib laws (get "records" payload) valid in
      subst (IsReporting lib) same (record {
        dataset_ok = λ (rows : List Row) (e : t.service_dataset ≡ some rows).
            subst (Reportable lib)
              (let equal : rows_of (get "records" payload) ≡ rows = cc in equal) reports;
        result_ok = v.result_ok;
      })

  record_result-valid :
      (s : State) (payload : Fields) (q : String) (rows : Option (List Row))
      (results : Dict ServiceResult)
      → IsReporting lib s
      → s.service_dataset ≡ rows
      → record_result lib s payload q rows ≡ ok results
      → (j : String) (r : ServiceResult) → lookup j results ≡ some r
      → valid_report (some (result_value r)) ≡ true
  unfolding record_result
  record_result-valid s payload q none results v d h j r e = v.result_ok j r (ground (arith, h, e))
  record_result-valid s payload q (some rows) results v d h j r e =
      let result : ServiceResult = service_result lib rows in
      let (tests, h1) =
        require-eq-ok _ "durable service result is invalid" (ok (insert q result s.results)) h in
      let same : insert q result s.results ≡ results = cc in
      let there : (if str_eq j q then some result else lookup j s.results) ≡ some r =
        sym (lookup-insert j q result s.results) ∙ ap (lookup j) same ∙ e in
      elim (Bool-cases (str_eq j q)) [
        | inl new ↦
            subst (λ (z : ServiceResult). valid_report (some (result_value z)) ≡ true)
              (let equal : result ≡ r = ground (arith, new, there) in equal) (v.dataset_ok rows d)
        | inr old ↦ v.result_ok j r (ground (arith, old, there))
      ]

  -- Every accepted record keeps the results reportable.
  pub replay_event-IsReporting :
      (s s' : State) (kind : String) (payload : Fields)
      → IsReporting lib s
      → replay_event lib s kind payload ≡ ok s'
      → IsReporting lib s'
  unfolding revoked_state rejected_state admitted_state dispatched_state
  replay_event-IsReporting s s' kind payload v h = elim (event_cases lib s s' kind payload h) [
    | dataset e ↦ dataset-IsReporting s s' payload v e
    | run_registered e ↦
        (let (claims, _, _, _, same) = run_inversion s s' payload e in
          rw same (record { dataset_ok = v.dataset_ok; result_ok = v.result_ok }))
    | admitted e ↦
        (let (raw, r, _, fresh, _, _, _, _, same) = admitted_inversion lib s s' payload e in
          rw same (record { dataset_ok = v.dataset_ok; result_ok = v.result_ok }))
    | dispatched e ↦
        (let (item, r, results, found, recorded, same) = dispatched_results lib s s' payload e in
          rw same (record {
            dataset_ok = v.dataset_ok;
            result_ok =
                record_result-valid s payload item.queue_id s.service_dataset results v refl
                  recorded;
          }))
    | dispatch_rejected e ↦
        (let (item, found, _, same) = rejected_inversion lib s s' payload e in
          rw same (record { dataset_ok = v.dataset_ok; result_ok = v.result_ok }))
    | revoked e ↦
        (let (r, _, _, same) = revoked_inversion s s' payload e in
          rw same (record { dataset_ok = v.dataset_ok; result_ok = v.result_ok }))
  ]

  genesis-IsReporting : (anchor : Anchor) → IsReporting lib (empty_state anchor)
  unfolding empty_state
  genesis-IsReporting anchor = record { dataset_ok = λ rows h. cc; result_ok = λ q r h. cc }

  -- In the state of a store that opens, the private dataset yields a report that the client's validator
  -- accepts, and so is every recorded result, where digests are hexadecimal.
  pub read_state-IsReporting :
      (anchor : Anchor) (disk : Disk) (s : State)
      → read_state lib anchor disk ≡ ok s
      → IsReporting lib s
  read_state-IsReporting anchor =
      read_state_induction lib anchor (IsReporting lib) (genesis-IsReporting anchor)
        replay_event-IsReporting
        (λ t seq count hash v. record { dataset_ok = v.dataset_ok; result_ok = v.result_ok })
