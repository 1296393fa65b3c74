-- ===== src/Json/Laws.antt =====
-- Laws of reading and writing the entries of a dict.
use lumi_eggcracker.Base.{
  String, ◌≡◌, refl, ap, arith, Bool, true, false, some, List, [], ◌∷◌, if◌then◌else◌, str_eq, elem,
  all, eq_iff, eq_refl, &&_split,
}
use lumi_eggcracker.Json.{
  Value, Fields, end, field, get, keys, has_key, same_keys, items, from_list, set, without,
}

pub get-set :
    (k j : String) (v : Value) (fs : Fields)
    → get k (set j v fs) ≡ (if str_eq k j then some v else get k fs)
get-set k j v end = refl
get-set k j v (field i w fs) = ground (arith, eq_iff k j, eq_iff j i, eq_iff k i, get-set k j v fs)

pub get-set_other :
    (k j : String) (v : Value) (fs : Fields) → str_eq k j ≡ false → get k (set j v fs) ≡ get k fs
get-set_other k j v fs h = ground (arith, get-set k j v fs)

pub get-set_same : (k : String) (v : Value) (fs : Fields) → get k (set k v fs) ≡ some v
get-set_same k v fs = ground (arith, get-set k k v fs, eq_refl k)

pub keys-set :
    (k : String) (v : Value) (fs : Fields) → has_key fs k ≡ true → keys (set k v fs) ≡ keys fs
keys-set k v end h = cc
keys-set k v (field j w fs) h = ground (arith, eq_iff k j, keys-set k v fs)

pub has_key-set :
    (k j : String) (v : Value) (fs : Fields) → has_key fs k ≡ true → has_key (set j v fs) k ≡ true
has_key-set k j v fs h = ground (arith, get-set k j v fs)

all-has_key-set :
    (j : String) (v : Value) (fs : Fields) (names : List String)
    → all (has_key fs) names ≡ true
    → all (has_key (set j v fs)) names ≡ true
all-has_key-set j v fs [] h = refl
all-has_key-set j v fs (n ∷ names) h =
    ground (arith, has_key-set n j v fs, all-has_key-set j v fs names)

pub same_keys-set :
    (k : String) (v : Value) (fs : Fields) (names : List String)
    → has_key fs k ≡ true
    → same_keys fs names ≡ true
    → same_keys (set k v fs) names ≡ true
same_keys-set k v fs names h s =
    let (named, all_there) =
      &&_split (all (λ n. elem n names) (keys fs)) (all (has_key fs) names) s in
    ground (arith, keys-set k v fs h, named, all-has_key-set k v fs names all_there)

-- A dict with the keys has each of them.
all-at :
    (test : String → Bool) (k : String) (names : List String)
    → elem k names ≡ true
    → all test names ≡ true
    → test k ≡ true
all-at test k [] e h = cc
all-at test k (n ∷ names) e h = ground (arith, eq_iff k n, all-at test k names)

pub same_keys-has_key :
    (k : String) (fs : Fields) (names : List String)
    → elem k names ≡ true
    → same_keys fs names ≡ true
    → has_key fs k ≡ true
same_keys-has_key k fs names e s =
    all-at (has_key fs) k names e
      (&&_split (all (λ n. elem n names) (keys fs)) (all (has_key fs) names) s).1

pub without-set_same :
    (k : String) (v : Value) (fs : Fields) → without k (set k v fs) ≡ without k fs
without-set_same k v end = ground (arith, eq_refl k)
without-set_same k v (field j w fs) =
    ground (arith, eq_iff k j, eq_iff j k, without-set_same k v fs)

pub items-from_list : (vs : List Value) → items (from_list vs) ≡ vs
items-from_list [] = refl
items-from_list (v ∷ vs) = ap (λ (ws : List Value). v ∷ ws) (items-from_list vs)
