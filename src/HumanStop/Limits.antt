-- ===== src/HumanStop/Limits.antt =====
-- `bounded_json` (experiments/human_override/model.py, lines 19-64): the structural budget on a
-- parsed document. The parser itself is a parameter; it answers `none` where `json.loads` or one of
-- its hooks raises.
use lumi_eggcracker.Base.{
  ℕ, zero, suc, String, Option, none, some, List, leb, if◌then◌else◌, length, codes,
}
use lumi_eggcracker.Json.{
  Value, null, bool, int, real, str, arr, obj, pos, negsuc, Items, nil, cons, Fields, end, field,
}

abbrev pub max_integer : ℕ
max_integer = 1000000000

abbrev pub max_bytes : ℕ
max_bytes = 65536

-- `remaining -= 1`, with the tests that follow it
abbrev pub spend : ℕ → ℕ → Option ℕ
spend zero depth = none
spend (suc remaining) depth = if leb depth 12 then some remaining else none

infixl 5 ◌>>?◌
abbrev pub ◌>>?◌ : Option ℕ → (ℕ → Option ℕ) → Option ℕ
o >>? f = elim o [ none ↦ none | some n ↦ f n ]

abbrev pub check_text : String → ℕ → Option ℕ
check_text s remaining = if leb (length (codes s)) 256 then some remaining else none

-- `check`: what remains of the budget, or `none` where it raises
unfoldable mutual
  pub check : Value → ℕ → ℕ → Option ℕ
  check null depth remaining = spend remaining depth
  check (bool b) depth remaining = spend remaining depth
  check (int (pos n)) depth remaining =
      spend remaining depth >>? λ r. if leb n max_integer then some r else none
  check (int (negsuc n)) depth remaining = none
  check (real s) depth remaining = none
  check (str s) depth remaining = spend remaining depth >>? check_text s
  check (arr vs) depth remaining = spend remaining depth >>? check_items vs (suc depth)
  check (obj fs) depth remaining = spend remaining depth >>? check_fields fs (suc depth)

  pub check_items : Items → ℕ → ℕ → Option ℕ
  check_items nil depth remaining = some remaining
  check_items (cons v vs) depth remaining = check v depth remaining >>? check_items vs depth

  pub check_fields : Fields → ℕ → ℕ → Option ℕ
  check_fields end depth remaining = some remaining
  check_fields (field k v fs) depth remaining =
      spend remaining depth >>? check_text k >>? check v depth >>? check_fields fs depth

-- `bounded_json`
unfoldable pub bounded_json : (List ℕ → Option Value) → List ℕ → Option Value
unfolding check
bounded_json loads raw =
    if leb (length raw) max_bytes
    then (elim (loads raw) [
      | none ↦ none
      | some v ↦ (elim (check v 0 4096) [ none ↦ none | some _ ↦ some v ])
    ])
    else none
