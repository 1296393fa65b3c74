-- ===== src/Incidents/Nested.antt =====
-- The validators of an incident's nested records (src/lumi_eggcracker/incidents.py, lines 42-162).
-- A value that the code reads by `value[key]` after its key test is read by `get`.
use lumi_eggcracker.Base.{
  ℕ, String, Bool, true, false, not, ◌&&◌, ◌||◌, Option, none, some, List, [], ◌∷◌, ◌++◌, leb, ◌==◌,
  if◌then◌else◌, length, all, codes, codes_eq, is_alnum, hex_text, Result, ok, err, ◌>>◌, require,
}
use lumi_eggcracker.Json.{
  Value, Fields, get, same_keys, as_obj, as_list, is_int, is_text, null, bool, int, real, str, pos,
}
use lumi_eggcracker.Launches.Identity.{starts_with}

-- What the store takes from hashlib and from the language: the hexadecimal SHA-256 of a dict's
-- canonical bytes, and whether a number that is not an integer equals zero.
pub record Library : Type 0 where
  pub digest : Fields → String
  pub real_is_zero : String → Bool

-- SAFE_TOKEN
abbrev pub is_token : ℕ → Bool
is_token c = is_alnum c || c == b'_' || c == b'.' || c == b':' || c == b'-'

unfoldable pub safe_token : String → Bool
safe_token s = all is_token (codes s) && leb 1 (length (codes s)) && leb (length (codes s)) 96

abbrev pub is_hex64 : Option Value → Bool
is_hex64 = is_text (hex_text 64)

abbrev pub is_safe : Option Value → Bool
is_safe = is_text safe_token

-- `value is None or SAFE_TOKEN.fullmatch(value)`
abbrev pub is_profile : Option Value → Bool
is_profile (some null) = true
is_profile v = is_safe v

-- `not isinstance(value, dict) or set(value) != keys`
abbrev pub with_object :
    Option Value → List String → String → (Fields → Result (Unit {0})) → Result (Unit {0})
with_object v names message body = elim (as_obj v) [
  | none ↦ err message
  | some fs ↦ require (same_keys fs names) message >> body fs
]

-- `if value is None: return None`
abbrev pub unless_null : Option Value → Result (Unit {0}) → Result (Unit {0})
unless_null (some null) check = ok tt
unless_null v check = check

abbrev pub match_fields : Fields → Result (Unit {0})
match_fields fs = do
  require (is_hex64 (get "argv_sha256" fs)) "incident argv identity is invalid"
  require (is_hex64 (get "executable_sha256" fs)) "incident executable identity is invalid"
  require (is_profile (get "profile" fs)) "incident profile identity is invalid"
  require (is_int 0 (get "uid" fs)) "incident match uid is invalid"
  require (is_int 1 (get "uid" fs)) "incident match uid is invalid"

-- `_validate_match`
unfoldable pub validate_match : Option Value → Result (Unit {0})
validate_match v =
    with_object v ("argv_sha256" ∷ "executable_sha256" ∷ "profile" ∷ "uid" ∷ [])
      "incident match identity is invalid" match_fields

abbrev pub is_bound : Option Value → Bool
is_bound v = elim (as_list v) [ none ↦ false | some vs ↦ leb 1 (length vs) && leb (length vs) 32 ]

abbrev pub all_in : (Option Value → Bool) → Option Value → Bool
all_in test v = elim (as_list v) [ none ↦ false | some vs ↦ all (λ w. test (some w)) vs ]

abbrev pub approval_fields : Fields → Result (Unit {0})
approval_fields fs = do
  require (is_safe (get "name" fs)) "incident approval name is invalid"
  require (is_hex64 (get "argv_sha256" fs)) "incident approval argv is invalid"
  require (is_hex64 (get "executable_sha256" fs)) "incident approval executable is invalid"
  require (is_int 0 (get "created_monotonic_ns" fs)) "incident approval timestamp is invalid"
  require (is_int 0 (get "uid" fs)) "incident approval uid is invalid"
  require (is_int 1 (get "uid" fs)) "incident approval uid is invalid"
  require (is_bound (get "bound_input_sha256" fs)) "incident approval inputs are invalid"
  require (all_in is_hex64 (get "bound_input_sha256" fs))
      "incident approval input digest is invalid"

abbrev pub approval_keys : List String
approval_keys =
    "argv_sha256" ∷ "bound_input_sha256" ∷ "created_monotonic_ns" ∷ "executable_sha256" ∷ "name"
    ∷ "uid" ∷ []

-- `_validate_approval`
unfoldable pub validate_approval : Option Value → Result (Unit {0})
validate_approval v =
    unless_null v
      (with_object v approval_keys "incident approval identity is invalid" approval_fields)

-- `rsplit("/", 1)[-1]`, with the part since the last slash
abbrev pub last_part : List ℕ → List ℕ → List ℕ
last_part part [] = part
last_part part (c ∷ cs) = last_part (if c == b'/' then [] else part ++ c ∷ []) cs

abbrev pub boot_text : String → Bool
boot_text s = leb 1 (length (codes s)) && leb (length (codes s)) 128

unfoldable pub cgroup_text : String → Bool
cgroup_text s =
    (starts_with (codes s) (codes "/system.slice/lumi-eggcracker-workload-")
      || starts_with (codes s) (codes "/run/lumi-eggcracker/quarantine/")
      || starts_with (codes s)
          (codes "/sys/fs/cgroup/system.slice/lumi-eggcracker.service/quarantine/"))
    && leb (length (codes s)) 256

unfoldable pub is_unit_of : Option Value → Option Value → Bool
is_unit_of (some (str unit)) (some (str cgroup)) =
    codes_eq (codes unit) (last_part [] (codes cgroup))
is_unit_of _ _ = false

abbrev pub workload_fields : Fields → Result (Unit {0})
workload_fields fs = do
  require (is_text boot_text (get "boot_id" fs)) "incident workload boot identity is invalid"
  require (is_text cgroup_text (get "cgroup" fs)) "incident workload cgroup identity is invalid"
  require (is_unit_of (get "unit" fs) (get "cgroup" fs))
      "incident workload unit identity is invalid"
  require (is_text (hex_text 24) (get "run_id" fs)) "incident workload run identity is invalid"
  require (is_int 0 (get "cgroup_device" fs)) "incident workload integer is invalid"
  require (is_int 0 (get "cgroup_inode" fs)) "incident workload integer is invalid"
  require (is_int 0 (get "uid" fs)) "incident workload integer is invalid"
  require (is_int 1 (get "uid" fs)) "incident workload uid is invalid"

-- `_validate_workload`
unfoldable pub validate_workload : Option Value → Result (Unit {0})
validate_workload v =
    with_object v
      ("boot_id" ∷ "cgroup" ∷ "cgroup_device" ∷ "cgroup_inode" ∷ "run_id" ∷ "unit" ∷ "uid" ∷ [])
      "incident workload identity is invalid" workload_fields

-- `value == 0`, which `False` and a zero float satisfy too
abbrev pub equals_zero : Library → Option Value → Bool
equals_zero lib (some (int (pos n))) = n == 0
equals_zero lib (some (bool b)) = not b
equals_zero lib (some (real text)) = lib.real_is_zero text
equals_zero lib v = false

abbrev pub ack_fields : Library → Fields → Result (Unit {0})
ack_fields lib fs = do
  require (is_int 0 (get "monotonic_ns" fs)) "incident acknowledgement timestamp is invalid"
  require (equals_zero lib (get "uid" fs)) "incident acknowledgement authority is invalid"

-- `_validate_ack`
unfoldable pub validate_ack : Library → Option Value → Result (Unit {0})
validate_ack lib v = unless_null v (
    with_object v ("monotonic_ns" ∷ "uid" ∷ []) "incident acknowledgement is invalid"
      (ack_fields lib))

abbrev pub is_bool : Option Value → Bool
is_bool (some (bool b)) = true
is_bool _ = false

abbrev pub response_fields : Fields → Result (Unit {0})
response_fields fs = do
  require (is_bool (get "approval_revoked" fs)) "incident response flag is invalid"
  require (is_bool (get "completed" fs)) "incident response flag is invalid"
  require (is_bool (get "relaunch_suppressed" fs)) "incident response flag is invalid"
  require (is_int 0 (get "response_completed_monotonic_ns" fs))
      "incident response timestamp is invalid"

-- `_validate_response`
unfoldable pub validate_response : Option Value → Result (Unit {0})
validate_response v =
    with_object v
      ("approval_revoked" ∷ "completed" ∷ "relaunch_suppressed" ∷ "response_completed_monotonic_ns"
        ∷ [])
      "incident response state is invalid" response_fields

abbrev pub recurrence_keys : List String
recurrence_keys = "contained_matches" ∷ "complete_matches" ∷ "partial_matches" ∷ "sweep_count" ∷ []

-- `_validate_recurrence`
unfoldable pub validate_recurrence : Option Value → Result (Unit {0})
validate_recurrence v = with_object v recurrence_keys "incident recurrence state is invalid" (λ fs.
    require (all (λ key. is_int 0 (get key fs)) recurrence_keys)
      "incident recurrence count is invalid")
