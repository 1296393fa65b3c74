-- ===== src/Launches/Provenance.antt =====
-- `validate`, `approval_is_active` and `authorizes` (src/lumi_eggcracker/launches.py).
use lumi_eggcracker.Base.{
  ℕ, ◌+◌, String, Bool, true, false, not, ◌&&◌, ◌||◌, Option, none, some, List, [], ◌∷◌, ◌++◌, ◌==◌,
  ltb, if◌then◌else◌, length, drop, all, any, codes, codes_eq, ◌-◌, hex_text, str_eq, elem, join,
  Result, ok, err, ◌>>◌, require,
}
use lumi_eggcracker.Json.{
  Value, arr, items, Fields, get, same_keys, is_the, is_text, is_int, as_str, as_nat, as_bool,
}
use lumi_eggcracker.Launches.Identity.{Kernel, CgroupIdentity, validate_identity, starts_with}

abbrev pub schema : String
schema = "lumi-eggcracker.launch-provenance.v4"

abbrev pub legacy_schema : String
legacy_schema = "lumi-eggcracker.launch-provenance.v3"

abbrev pub common_keys : List String
common_keys =
    "approval_created_monotonic_ns" ∷ "approval_name" ∷ "argv_count" ∷ "argv_sha256"
    ∷ "bound_input_sha256" ∷ "boot_id" ∷ "cgroup" ∷ "cgroup_device" ∷ "cgroup_inode" ∷ "executable"
    ∷ "executable_device" ∷ "executable_inode" ∷ "executable_sha256" ∷ "launch_kind" ∷ "pid"
    ∷ "run_id" ∷ "schema_version" ∷ "start_time" ∷ "uid" ∷ []

abbrev pub integer_keys : List String
integer_keys =
    "approval_created_monotonic_ns" ∷ "argv_count" ∷ "cgroup_device" ∷ "cgroup_inode"
    ∷ "executable_device" ∷ "executable_inode" ∷ "pid" ∷ "start_time" ∷ "uid" ∷ []

-- the facts on which a launch and an approval agree, and those of the launch alone
pub record Material : Type 0 where
  pub name : String
  pub created_monotonic_ns : ℕ
  pub argv_count : ℕ
  pub argv_sha256 : String
  pub bound_input_sha256 : List String
  pub executable : String
  pub executable_device : ℕ
  pub executable_inode : ℕ
  pub executable_sha256 : String
  pub launch_kind : String
  pub uid : ℕ
  pub allow_interface_discovery : Bool

pub record Provenance : Type 0 where
  pub material : Material
  pub boot_id : String
  pub cgroup : String
  pub cgroup_device : ℕ
  pub cgroup_inode : ℕ
  pub pid : ℕ
  pub run_id : String
  pub start_time : ℕ

abbrev pub list_of : Option Value → Option (List Value)
list_of (some (arr vs)) = some (items vs)
list_of _ = none

abbrev pub nonempty_text : String → Bool
nonempty_text s = ltb 0 (length (codes s))

abbrev pub digests : List Value → Bool
digests = all (λ v. is_text (hex_text 64) (some v))

abbrev pub some_list : Option Value → Bool
some_list v = elim (list_of v) [ none ↦ false | some vs ↦ ltb 0 (length vs) && digests vs ]

-- the schema tests of `validate`
unfoldable pub schema_valid : Fields → Bool
schema_valid fs =
    (is_the schema (get "schema_version" fs)
      && same_keys fs ("allow_interface_discovery" ∷ common_keys)
      && elim (as_bool (get "allow_interface_discovery" fs)) [ none ↦ false | some b ↦ true ])
    || (is_the legacy_schema (get "schema_version" fs) && same_keys fs common_keys)

-- the tests of `validate` on the values
unfoldable pub values_valid : Fields → Bool
values_valid fs =
    is_text (hex_text 24) (get "run_id" fs)
    && is_text nonempty_text (get "approval_name" fs)
    && is_text (λ s. starts_with (codes s) (codes "/")) (get "executable" fs)
    && is_text (λ s. starts_with (codes s) (codes "/system.slice/lumi-eggcracker-workload-"))
        (get "cgroup" fs)
    && is_text nonempty_text (get "boot_id" fs)
    && is_text (hex_text 64) (get "argv_sha256" fs)
    && is_text (hex_text 64) (get "executable_sha256" fs)
    && is_text (λ s. elem s ("NATIVE_LLAMA" ∷ "PYTHON_SCRIPT" ∷ [])) (get "launch_kind" fs)
    && some_list (get "bound_input_sha256" fs)
    && all (λ k. is_int 1 (get k fs)) integer_keys

abbrev pub text_at : String → Fields → String
text_at k fs = elim (as_str (get k fs)) [ none ↦ "" | some s ↦ s ]

abbrev pub nat_at : String → Fields → ℕ
nat_at k fs = elim (as_nat (get k fs)) [ none ↦ 0 | some n ↦ n ]

abbrev pub texts : List Value → List String
texts [] = []
texts (v ∷ vs) = elim (as_str (some v)) [ none ↦ texts vs | some s ↦ s ∷ texts vs ]

abbrev pub texts_at : String → Fields → List String
texts_at k fs = elim (list_of (get k fs)) [ none ↦ [] | some vs ↦ texts vs ]

-- `bool(provenance.get("allow_interface_discovery", False))`
abbrev pub flag_at : String → Fields → Bool
flag_at k fs = elim (as_bool (get k fs)) [ none ↦ false | some b ↦ b ]

-- a validated dict, by its values
abbrev pub provenance_of : Fields → Provenance
provenance_of fs = record {
  material = record {
    name = text_at "approval_name" fs;
    created_monotonic_ns = nat_at "approval_created_monotonic_ns" fs;
    argv_count = nat_at "argv_count" fs;
    argv_sha256 = text_at "argv_sha256" fs;
    bound_input_sha256 = texts_at "bound_input_sha256" fs;
    executable = text_at "executable" fs;
    executable_device = nat_at "executable_device" fs;
    executable_inode = nat_at "executable_inode" fs;
    executable_sha256 = text_at "executable_sha256" fs;
    launch_kind = text_at "launch_kind" fs;
    uid = nat_at "uid" fs;
    allow_interface_discovery = flag_at "allow_interface_discovery" fs;
  };
  boot_id = text_at "boot_id" fs;
  cgroup = text_at "cgroup" fs;
  cgroup_device = nat_at "cgroup_device" fs;
  cgroup_inode = nat_at "cgroup_inode" fs;
  pid = nat_at "pid" fs;
  run_id = text_at "run_id" fs;
  start_time = nat_at "start_time" fs;
}

-- `validate`
unfoldable pub validate : Fields → Result Provenance
unfolding schema_valid values_valid
validate fs = do
  require (schema_valid fs) "launch provenance schema is invalid"
  require (values_valid fs) "launch provenance is invalid"
  ok (provenance_of fs)

abbrev pub texts_eq : List String → List String → Bool
texts_eq [] [] = true
texts_eq (a ∷ xs) (b ∷ ys) = str_eq a b && texts_eq xs ys
texts_eq _ _ = false

abbrev pub bool_eq : Bool → Bool → Bool
bool_eq true b = b
bool_eq false b = not b

-- the comparison of one approval with the launch
unfoldable pub same_material : Material → Material → Bool
same_material a p =
    str_eq a.name p.name
    && a.created_monotonic_ns == p.created_monotonic_ns
    && a.argv_count == p.argv_count
    && str_eq a.argv_sha256 p.argv_sha256
    && texts_eq a.bound_input_sha256 p.bound_input_sha256
    && str_eq a.executable p.executable
    && a.executable_device == p.executable_device
    && a.executable_inode == p.executable_inode
    && str_eq a.executable_sha256 p.executable_sha256
    && str_eq a.launch_kind p.launch_kind
    && a.uid == p.uid
    && bool_eq a.allow_interface_discovery p.allow_interface_discovery

-- The loop over the approvals: the number that match, or `none` where an entry lacks a key and the
-- function answers False.
unfoldable pub count_matches : Material → List (Option Material) → Option ℕ
unfolding same_material
count_matches p [] = some 0
count_matches p (none ∷ rest) = none
count_matches p (some a ∷ rest) =
    let counted = count_matches p rest in
    elim counted [ none ↦ none | some n ↦ some (if same_material a p then n + 1 else n) ]

-- `approval_is_active` on a validated provenance
unfoldable pub approval_is_active : Provenance → List (Option Material) → Bool
unfolding count_matches
approval_is_active p approvals = elim (count_matches p.material approvals) [
  | none ↦ false
  | some n ↦ n == 1
]

-- the parts of a process's snapshot that the authorization reads
pub record ProcessSnapshot : Type 0 where
  pub pid : ℕ
  pub start_time : ℕ
  pub uid : ℕ
  pub exe_path : String
  pub cgroups : List String

abbrev pub deleted : List ℕ
deleted = codes " (deleted)"

-- `path.removesuffix(" (deleted)") == executable`
abbrev pub same_executable : String → String → Bool
same_executable path executable =
    (codes_eq (codes path) (codes executable ++ deleted))
    || (codes_eq (codes path) (codes executable)
        && not (codes_eq (drop (length (codes path) - length deleted) (codes path)) deleted))

abbrev pub identity_of : Provenance → CgroupIdentity
identity_of p = record {
  boot_id = p.boot_id;
  cgroup = p.cgroup;
  device = p.cgroup_device;
  inode = p.cgroup_inode;
  run_id = p.run_id;
  unit = join "lumi-eggcracker-workload-" (join p.run_id ".service");
}

abbrev pub is_ok : Result (Unit {0}) → Bool
is_ok (ok _) = true
is_ok (err _) = false

-- `authorizes`
unfoldable pub authorizes : Kernel → ProcessSnapshot → String → Option (ℕ × ℕ) → Provenance → Bool
unfolding validate_identity
authorizes k snapshot executable_sha256 metadata p = elim metadata [
  | none ↦ false
  | some (device, inode) ↦
      (is_ok (validate_identity k (identity_of p))
        && snapshot.pid == p.pid
        && snapshot.start_time == p.start_time
        && snapshot.uid == p.material.uid
        && same_executable snapshot.exe_path p.material.executable
        && device == p.material.executable_device
        && inode == p.material.executable_inode
        && str_eq executable_sha256 p.material.executable_sha256
        && any (λ line. str_eq line (join "0::" p.cgroup)) snapshot.cgroups)
]
