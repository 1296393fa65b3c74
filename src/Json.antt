-- ===== src/Json.antt =====
-- JSON values as `json.loads` returns them.
pub mod Laws
use lumi_eggcracker.Base.{
  ℕ, String, Bool, true, false, ◌&&◌, Option, none, some, List, [], ◌∷◌, leb, if◌then◌else◌, str_eq,
  elem, all,
}

-- `negsuc n` is -(n + 1).
pub data ℤ : Type 0 where
  pos : ℕ → ℤ
  negsuc : ℕ → ℤ

-- `real` keeps the text of a number that is not an integer.
mutual
  pub data Value : Type 0 where
    null : Value
    bool : Bool → Value
    int : ℤ → Value
    real : String → Value
    str : String → Value
    obj : Fields → Value
    arr : Items → Value

  pub data Fields : Type 0 where
    end : Fields
    field : String → Value → Fields → Fields

  pub data Items : Type 0 where
    cons : Value → Items → Items
    nil : Items

-- `d.get(k)`
abbrev pub get : String → Fields → Option Value
get k end = none
get k (field j v fs) = if str_eq k j then some v else get k fs

abbrev pub keys : Fields → List String
keys end = []
keys (field j v fs) = j ∷ keys fs

abbrev pub has_key : Fields → String → Bool
has_key fs k = elim (get k fs) [ none ↦ false | some _ ↦ true ]

-- `set(d) == {…}`
abbrev pub same_keys : Fields → List String → Bool
same_keys fs names = all (λ k. elem k names) (keys fs) && all (has_key fs) names

abbrev pub items : Items → List Value
items nil = []
items (cons v vs) = v ∷ items vs

abbrev pub as_str : Option Value → Option String
as_str (some (str s)) = some s
as_str _ = none

-- the value of a non-negative integer; booleans are values of their own
abbrev pub as_nat : Option Value → Option ℕ
as_nat (some (int (pos n))) = some n
as_nat _ = none

abbrev pub as_bool : Option Value → Option Bool
as_bool (some (bool b)) = some b
as_bool _ = none

-- `type(v) is int and v >= minimum`
abbrev pub is_int : ℕ → Option Value → Bool
is_int minimum v = elim (as_nat v) [ none ↦ false | some n ↦ leb minimum n ]

-- `isinstance(v, str) and p(v)`
abbrev pub is_text : (String → Bool) → Option Value → Bool
is_text p v = elim (as_str v) [ none ↦ false | some s ↦ p s ]

-- `v == "text"`
abbrev pub is_the : String → Option Value → Bool
is_the s = is_text (str_eq s)

abbrev pub as_obj : Option Value → Option Fields
as_obj (some (obj fs)) = some fs
as_obj _ = none

abbrev pub as_list : Option Value → Option (List Value)
as_list (some (arr vs)) = some (items vs)
as_list _ = none

-- a dict or a list that the code writes out
abbrev pub from : List (String × Value) → Fields
from [] = end
from (e ∷ es) = field e.0 e.1 (from es)

abbrev pub from_list : List Value → Items
from_list [] = nil
from_list (v ∷ vs) = cons v (from_list vs)

-- `d[k] = v`
abbrev pub set : String → Value → Fields → Fields
set k v end = field k v end
set k v (field j w fs) = if str_eq k j then field j v fs else field j w (set k v fs)

-- `d.update(changes)`
abbrev pub set_all : List (String × Value) → Fields → Fields
set_all [] fs = fs
set_all (c ∷ changes) fs = set_all changes (set c.0 c.1 fs)

-- the entries but one
abbrev pub without : String → Fields → Fields
without k end = end
without k (field j v fs) = let rest = without k fs in if str_eq j k then rest else field j v rest

-- the entries under some names, in their order
abbrev pub select : List String → Fields → Fields
select [] fs = end
select (k ∷ ks) fs =
    let rest = select ks fs in elim (get k fs) [ none ↦ rest | some v ↦ field k v rest ]
