-- ===== src/Incidents/Store.antt =====
-- The directory of incidents (src/lumi_eggcracker/incidents.py, lines 36-39, 249-254, 293-350):
-- reading, compacting and writing it. The file system's failures are left out.
use lumi_eggcracker.Base.{
  ℕ, ◌+◌, ◌-◌, String, join, Bool, true, false, not, Option, none, some, List, [], ◌∷◌, leb, ltb,
  ◌==◌, if◌then◌else◌, length, take, filter, codes, str_eq, hex_text, Result, ok, err, ◌>>◌, ◌>>=◌,
  require,
}
use lumi_eggcracker.Base.Dict.{Dict, lookup}
use lumi_eggcracker.Json.{Fields, get, as_str, as_nat, is_the}
use lumi_eggcracker.Detectors.Matching.{codes_le}
use lumi_eggcracker.Incidents.Nested.{Library}
use lumi_eggcracker.Incidents.Validity.{validate}

abbrev pub max_incidents : ℕ
max_incidents = 256

abbrev pub max_compaction_overflow : ℕ
max_compaction_overflow = max_incidents

-- A file: a symbolic link, or what `load_regular_json` answers for it.
pub data File : Type 0 where
  symlink : File
  regular : Result Fields → File

-- The files `*.json` in the order of `sorted`, by what their names have before `.json`.
abbrev pub Listing : Type 0
Listing = Dict File

pub data Root : Type 0 where
  missing : Root
  not_directory : Root
  linked : Listing → Root
  directory : Listing → Root

-- `_paths`
unfoldable pub paths : Root → Result Listing
paths missing = ok []
paths not_directory = err "incident root is invalid"
paths (linked files) = err "incident root is invalid"
paths (directory files) = ok files

-- a file of `_load_paths`; the name `.json` has no stem
unfoldable pub load_path : Library → String → File → Result Fields
load_path lib stem symlink = err "incident filename is invalid"
load_path lib stem (regular content) = do
  require (not (str_eq stem "")) "incident filename is invalid"
  loaded ← content
  value ← validate lib loaded
  require (is_the stem (get "incident_id" value)) "incident name/path mismatch"
  ok value

-- `_load_paths`
unfoldable pub load_paths : Library → Listing → Result (List Fields)
unfolding load_path
load_paths lib [] = ok []
load_paths lib (e ∷ files) = do
  value ← load_path lib e.0 e.1
  rest ← load_paths lib files
  ok (value ∷ rest)

-- `load_all`
unfoldable pub load_all : Library → Root → Result (List Fields)
unfolding paths load_paths
load_all lib root = do
  files ← paths root
  require (leb (length files) max_incidents) "incident store exceeds bounded capacity"
  load_paths lib files

-- a number or a text of a validated record
abbrev pub nat_at : String → Fields → ℕ
nat_at key fs = elim (as_nat (get key fs)) [ none ↦ 0 | some n ↦ n ]

abbrev pub text_at : String → Fields → String
text_at key fs = elim (as_str (get key fs)) [ none ↦ "" | some s ↦ s ]

-- the order by `(created_monotonic_ns, incident_id)`
unfoldable pub not_after : Fields → Fields → Bool
not_after a b =
    let m = nat_at "created_monotonic_ns" a in
    let n = nat_at "created_monotonic_ns" b in
    if m == n
    then codes_le (codes (text_at "incident_id" a)) (codes (text_at "incident_id" b))
    else ltb m n

unfoldable pub insert_by_age : Fields → List Fields → List Fields
unfolding not_after
insert_by_age v [] = v ∷ []
insert_by_age v (w ∷ ws) =
    let rest = insert_by_age v ws in if not_after v w then v ∷ w ∷ ws else w ∷ rest

unfoldable pub sorted_by_age : List Fields → List Fields
unfolding insert_by_age
sorted_by_age [] = []
sorted_by_age (v ∷ vs) = insert_by_age v (sorted_by_age vs)

abbrev pub is_cleared : Fields → Bool
is_cleared v = is_the "CLEARED" (get "state" v)

-- `path.unlink()`
unfoldable pub unlink : String → Listing → Listing
unlink stem [] = []
unlink stem (e ∷ files) =
    let rest = unlink stem files in if str_eq stem e.0 then files else e ∷ rest

unfoldable pub is_file : Option File → Bool
is_file none = false
is_file (some symlink) = false
is_file (some (regular content)) = true

-- the loop that removes the oldest cleared records, in their order
unfoldable pub remove_each : List Fields → Listing → Result Listing
unfolding unlink is_file
remove_each [] files = ok files
remove_each (v ∷ vs) files = do
  require (hex_text 24 (text_at "incident_id" v)) "incident identity is invalid"
  require (is_file (lookup (text_at "incident_id" v) files)) "incident filename is invalid"
  remove_each vs (unlink (text_at "incident_id" v) files)

-- the part of `compact` beyond the live bound
unfoldable pub compact_excess : Library → Listing → Result (List Fields × Root)
unfolding load_paths sorted_by_age remove_each load_all
compact_excess lib files = do
  require (leb (length files) (max_incidents + max_compaction_overflow))
      "incident store exceeds bounded capacity"
  values ← load_paths lib files
  let excess = length values - max_incidents
  let cleared = sorted_by_age (filter is_cleared values)
  require (leb excess (length cleared)) "incident store exceeds active bounded capacity"
  files' ← remove_each (take excess cleared) files
  kept ← load_all lib (directory files')
  ok (kept, directory files')

-- `compact`, with the directory it leaves
unfoldable pub compact : Library → Root → Result (List Fields × Root)
unfolding paths load_paths compact_excess
compact lib root = do
  files ← paths root
  if leb (length files) max_incidents
      then (do values ← load_paths lib files; ok (values, root))
      else compact_excess lib files

-- `write_atomic` of a file, at its place in the sorted listing
unfoldable pub put : String → File → Listing → Listing
put stem file [] = (stem, file) ∷ []
put stem file (e ∷ files) =
    let rest = put stem file files in
    if str_eq stem e.0
    then (stem, file) ∷ files
    else if codes_le (codes (join stem ".json")) (codes (join e.0 ".json"))
    then (stem, file) ∷ e ∷ files
    else e ∷ rest

-- the directory made, where there is none, and the file in it
unfoldable pub written : String → File → Root → Result Root
unfolding put
written stem file missing = ok (directory (put stem file []))
written stem file not_directory = err "File exists"
written stem file (linked files) = ok (linked (put stem file files))
written stem file (directory files) = ok (directory (put stem file files))

-- `_write`; the validated identity is a text of 24 hexadecimal digits, as `_path` asks
unfoldable pub write : Library → Root → Fields → Result (Fields × Root)
unfolding written
write lib root value = do
  checked ← validate lib value
  root' ← written (text_at "incident_id" checked) (regular (ok checked)) root
  ok (checked, root')
