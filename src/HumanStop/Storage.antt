-- ===== src/HumanStop/Storage.antt =====
-- The state document: `_persist`, `_validate_record` and the loading of `Controller.__init__`
-- (experiments/human_override/model.py, lines 130-193).
use lumi_eggcracker.Base.{
  ℕ, String, Bool, true, false, not, ◌&&◌, Option, none, some, List, [], ◌∷◌, leb, if◌then◌else◌,
  length, codes,
}
use lumi_eggcracker.Json.{
  Value, bool, int, pos, str, arr, obj, Items, nil, cons, Fields, end, field, get, same_keys,
  is_the, items, as_nat, as_bool, as_str,
}
use lumi_eggcracker.HumanStop.Limits.{max_integer, bounded_json}
use lumi_eggcracker.HumanStop.State.{Pair, Sequence, Allocation, Controller}

abbrev pub audit_limit : ℕ
audit_limit = 64

abbrev pub texts_value : List String → Items
texts_value [] = nil
texts_value (s ∷ ss) = cons (str s) (texts_value ss)

-- `asdict(row)`, its keys sorted
unfoldable pub row_value : Allocation → Value
row_value r = obj (
    field "approved" (bool r.approved) (
      field "audit" (arr (texts_value r.audit)) (
        field "control" (bool r.control) (
          field "dropped" (int (pos r.dropped)) (
            field "epoch" (int (pos r.epoch)) (
              field "generation" (int (pos r.generation)) (
                field "latched" (bool r.latched) (
                  field "sequence"
                    (obj (
                      field "guest" (int (pos r.sequence.of_guest)) (
                        field "human" (int (pos r.sequence.of_human))
                          (field "scheduler" (int (pos r.sequence.of_scheduler)) end))))
                    end))))))))

unfoldable pub document : Pair Allocation → Value
unfolding row_value
document p = obj (
    field "allocations" (obj (field "A" (row_value p.a) (field "B" (row_value p.b) end)))
      (field "schema" (str "human-stop-state.v1") end))

-- `type(v) is int and 0 <= v <= MAX_INTEGER`
abbrev pub bounded : Option Value → Bool
bounded v = elim (as_nat v) [ none ↦ false | some n ↦ leb n max_integer ]

abbrev pub nat_of : Option Value → ℕ
nat_of v = elim (as_nat v) [ none ↦ 0 | some n ↦ n ]

abbrev pub is_bool : Option Value → Bool
is_bool v = elim (as_bool v) [ none ↦ false | some _ ↦ true ]

abbrev pub bool_of : Option Value → Bool
bool_of v = elim (as_bool v) [ none ↦ false | some b ↦ b ]

abbrev pub fields_of : Option Value → Option Fields
fields_of (some (obj fs)) = some fs
fields_of _ = none

abbrev pub list_of : Option Value → Option (List Value)
list_of (some (arr vs)) = some (items vs)
list_of _ = none

abbrev pub principals : List String
principals = "human" ∷ "scheduler" ∷ "guest" ∷ []

-- the tests on `row["sequence"]`
unfoldable pub sequence_of : Option Value → Option Sequence
sequence_of v = elim (fields_of v) [
  | none ↦ none
  | some fs ↦
      (if same_keys fs principals
          && bounded (get "human" fs)
          && bounded (get "scheduler" fs)
          && bounded (get "guest" fs)
        then some (record {
          of_guest = nat_of (get "guest" fs);
          of_human = nat_of (get "human" fs);
          of_scheduler = nat_of (get "scheduler" fs);
        })
        else none)
]

abbrev pub texts_of : List Value → Option (List String)
texts_of [] = some []
texts_of (v ∷ vs) = elim (as_str (some v)) [
  | none ↦ none
  | some s ↦ (elim (texts_of vs) [
    | none ↦ none
    | some ss ↦ (if leb (length (codes s)) 64 then some (s ∷ ss) else none)
  ])
]

-- the tests on `row["audit"]`
unfoldable pub audit_of : Option Value → Option (List String)
audit_of v = elim (list_of v) [
  | none ↦ none
  | some vs ↦ (if leb (length vs) audit_limit then texts_of vs else none)
]

abbrev pub row_keys : List String
row_keys =
    "generation" ∷ "epoch" ∷ "latched" ∷ "approved" ∷ "control" ∷ "sequence" ∷ "audit" ∷ "dropped"
    ∷ []

-- the tests on the integers and the flags
unfoldable pub row_scalars : Fields → Bool
row_scalars fs =
    same_keys fs row_keys
    && bounded (get "generation" fs)
    && bounded (get "epoch" fs)
    && bounded (get "dropped" fs)
    && leb 1 (nat_of (get "generation" fs))
    && is_bool (get "latched" fs)
    && is_bool (get "approved" fs)
    && is_bool (get "control" fs)
    && not (bool_of (get "latched" fs) && bool_of (get "approved" fs))

abbrev pub allocation_of : Fields → Sequence → List String → Allocation
allocation_of fs sequence audit = record {
  generation = nat_of (get "generation" fs);
  epoch = nat_of (get "epoch" fs);
  latched = bool_of (get "latched" fs);
  approved = bool_of (get "approved" fs);
  control = bool_of (get "control" fs);
  sequence = sequence;
  audit = audit;
  dropped = nat_of (get "dropped" fs);
}

-- `_validate_record` and `Allocation(**row)`
unfoldable pub validate_record : Option Value → Option Allocation
unfolding row_scalars sequence_of audit_of
validate_record v = elim (fields_of v) [
  | none ↦ none
  | some fs ↦
      (if row_scalars fs
        then (elim (sequence_of (get "sequence" fs)) [
          | none ↦ none
          | some q ↦ (elim (audit_of (get "audit" fs)) [
            | none ↦ none
            | some texts ↦ some (allocation_of fs q texts)
          ])
        ])
        else none)
]

unfoldable pub load_rows : Option Fields → Option (Pair Allocation)
unfolding validate_record
load_rows none = none
load_rows (some fs) =
    if same_keys fs ("A" ∷ "B" ∷ [])
    then (elim (validate_record (get "A" fs)) [
      | none ↦ none
      | some x ↦ (elim (validate_record (get "B" fs)) [
        | none ↦ none
        | some y ↦ some (record { a = x; b = y })
      ])
    ])
    else none

-- the tests on the parsed document
unfoldable pub load_document : Option Value → Option (Pair Allocation)
unfolding load_rows
load_document v = elim (fields_of v) [
  | none ↦ none
  | some fs ↦
      (if same_keys fs ("schema" ∷ "allocations" ∷ [])
          && is_the "human-stop-state.v1" (get "schema" fs)
        then load_rows (fields_of (get "allocations" fs))
        else none)
]

-- What stands at the path of the state: nothing that can be opened, a symbolic link, or a file with
-- its bytes.
pub data StateFile : Type 0 where
  no_state state_link : StateFile
  state_bytes : List ℕ → StateFile

module _ (loads : List ℕ → Option Value) (dumps : Value → List ℕ) where
  -- what the constructor loads, with whether the file `.pending` of an interrupted write exists
  unfoldable pub load : StateFile → Bool → Option (Pair Allocation)
  unfolding bounded_json load_document
  load no_state pending = none
  load state_link pending = none
  load (state_bytes raw) pending = if pending then none else load_document (bounded_json loads raw)

  -- `_persist`, where `written` tells that the file system raised nothing
  unfoldable pub persist : Bool → Pair Allocation → Bool
  unfolding document bounded_json
  persist written rows = elim (bounded_json loads (dumps (document rows))) [
    | none ↦ false
    | some _ ↦ written
  ]

  -- `_commit`
  unfoldable pub commit : Bool → Pair Allocation → Controller → Bool × Controller
  unfolding persist
  commit written rows c =
      if persist written rows
      then (true, record c { allocations = rows; stored = rows })
      else (false, record c { storage_ok = false; observations = record { a = none; b = none } })
