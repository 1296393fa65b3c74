-- ===== src/HumanStop/Reload.antt =====
-- The state file read back (experiments/human_override/model.py, lines 130-193).
use lumi_eggcracker.Base.{
  ℕ, ◌≤◌, String, ◌≡◌, refl, true, false, ◌&&◌, Option, some, List, [], ◌∷◌, leb, length, codes,
  All, arith, Bool-cases, Option-cases, inl, inr,
}
use lumi_eggcracker.Json.{Value, items}
use lumi_eggcracker.HumanStop.Limits.{max_integer, max_bytes, bounded_json, check}
use lumi_eggcracker.HumanStop.State.{Pair, Allocation}
use lumi_eggcracker.HumanStop.Storage.{
  audit_limit, texts_value, row_value, document, texts_of, audit_of, sequence_of, row_scalars,
  validate_record, load_rows, load_document, load, state_bytes, persist,
}

-- A row within the bounds that the loader tests.
pub record IsBounded (row : Allocation) : Type 0 where
  pub generation : row.generation ≤ max_integer
  pub positive : 1 ≤ row.generation
  pub epoch : row.epoch ≤ max_integer
  pub dropped : row.dropped ≤ max_integer
  pub latch : (row.latched && row.approved) ≡ false
  pub of_guest : row.sequence.of_guest ≤ max_integer
  pub of_human : row.sequence.of_human ≤ max_integer
  pub of_scheduler : row.sequence.of_scheduler ≤ max_integer
  pub audit : length row.audit ≤ audit_limit
  pub entries : All (λ s. length (codes s) ≤ 64) row.audit

texts_of-value :
    (ss : List String)
    → All (λ s. length (codes s) ≤ 64) ss
    → texts_of (items (texts_value ss)) ≡ some ss
texts_of-value [] h = refl
texts_of-value (s ∷ ss) (fits, h) = ground (arith, fits, texts_of-value ss h)

length-texts_value : (ss : List String) → length (items (texts_value ss)) ≡ length ss
length-texts_value [] = refl
length-texts_value (s ∷ ss) = omega (arith, length-texts_value ss)

validate_record-row_value :
    (row : Allocation) → IsBounded row → validate_record (some (row_value row)) ≡ some row
unfolding validate_record row_value row_scalars sequence_of audit_of
validate_record-row_value row b = ground (
  arith,
  b.generation,
  b.positive,
  b.epoch,
  b.dropped,
  b.latch,
  b.of_guest,
  b.of_human,
  b.of_scheduler,
  b.audit,
  length-texts_value row.audit,
  texts_of-value row.audit b.entries,
)

load_document-document :
    (rows : Pair Allocation)
    → IsBounded rows.a
    → IsBounded rows.b
    → load_document (some (document rows)) ≡ some rows
unfolding load_document load_rows document
load_document-document rows ba bb =
    ground (arith, validate_record-row_value rows.a ba, validate_record-row_value rows.b bb)

-- what the bounds let through is what was parsed
bounded_json-loads :
    (loads : List ℕ → Option Value) (raw : List ℕ) (v w : Value)
    → bounded_json loads raw ≡ some v
    → loads raw ≡ some w
    → v ≡ w
unfolding bounded_json
bounded_json-loads loads raw v w h reads = elim (Bool-cases (leb (length raw) max_bytes)) [
  | inr e ↦ absurd (ground (arith, e, h))
  | inl e ↦ elim (Option-cases (check w 0 4096)) [
    | inl bad ↦ absurd (ground (arith, e, reads, bad, h))
    | inr (n, good) ↦ ground (arith, e, reads, good, h)
  ]
]

-- `_persist` asks for a document within the bounds
persist-bounded_json :
    (loads : List ℕ → Option Value) (dumps : Value → List ℕ) (rows : Pair Allocation)
    → persist loads dumps true rows ≡ true
    → (v : Value) × (bounded_json loads (dumps (document rows)) ≡ some v)
unfolding persist
persist-bounded_json loads dumps rows written =
    elim (Option-cases (bounded_json loads (dumps (document rows)))) [
      | inl e ↦ absurd (ground (arith, e, written))
      | inr found ↦ found
    ]

module _ (loads : List ℕ → Option Value) (dumps : Value → List ℕ) where
  -- Rows within their bounds that `_persist` writes are the rows that a new controller loads from
  -- the file, where json reads back the document that it printed and no `.pending` file is there.
  pub load-persist :
      (rows : Pair Allocation)
      → IsBounded rows.a
      → IsBounded rows.b
      → loads (dumps (document rows)) ≡ some (document rows)
      → persist loads dumps true rows ≡ true
      → load loads dumps (state_bytes (dumps (document rows))) false ≡ some rows
  unfolding load
  load-persist rows ba bb reads written =
      let (v, e) = persist-bounded_json loads dumps rows written in
      let same = bounded_json-loads loads (dumps (document rows)) v (document rows) e reads in
      rw (e, same) (load_document-document rows ba bb)
