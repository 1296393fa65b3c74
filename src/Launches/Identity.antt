-- ===== src/Launches/Identity.antt =====
-- `validate_identity` (src/lumi_eggcracker/containment.py). What the kernel answers is an argument.
use lumi_eggcracker.Base.{
  ℕ, String, Bool, true, false, ◌&&◌, Option, List, [], ◌∷◌, ◌==◌, length, take, drop, all, codes,
  codes_eq, is_hex, str_eq, Result, ok, ◌>>=◌, ◌>>◌, require, or_raise,
}

pub record CgroupIdentity : Type 0 where
  pub boot_id : String
  pub cgroup : String
  pub device : ℕ
  pub inode : ℕ
  pub run_id : String
  pub unit : String

-- The kernel at one moment: the boot's name, and the device and inode of each cgroup directory that
-- is there and no link.
pub record Kernel : Type 0 where
  pub boot_name : String
  pub directory : String → Option (ℕ × ℕ)

-- `s.startswith(t)` on code points
abbrev pub starts_with : List ℕ → List ℕ → Bool
starts_with s [] = true
starts_with [] (t ∷ ts) = false
starts_with (c ∷ cs) (t ∷ ts) = c == t && starts_with cs ts

abbrev pub unit_prefix : List ℕ
unit_prefix = codes "/system.slice/lumi-eggcracker-workload-"

-- what follows the prefix: `[0-9a-f]{24}\.service`
abbrev pub unit_tail : List ℕ → Bool
unit_tail cs =
    length (take 24 cs) == 24 && all is_hex (take 24 cs) && codes_eq (drop 24 cs) (codes ".service")

-- `UNIT_RE.fullmatch`
unfoldable pub unit_path : String → Bool
unit_path cgroup =
    starts_with (codes cgroup) unit_prefix && unit_tail (drop (length unit_prefix) (codes cgroup))

-- `_path`: the device and inode of the directory
unfoldable pub path_of : Kernel → String → Result (ℕ × ℕ)
unfolding unit_path
path_of k cgroup = do
  require (unit_path cgroup) "cgroup is outside the Eggcracker unit namespace"
  or_raise (k.directory cgroup) "owned cgroup is unavailable"

-- `validate_identity`
unfoldable pub validate_identity : Kernel → CgroupIdentity → Result (Unit {0})
unfolding path_of
validate_identity k identity = do
  require (str_eq identity.boot_id k.boot_name) "workload boot identity changed"
  found ← path_of k identity.cgroup
  require (found.0 == identity.device && found.1 == identity.inode) "owned cgroup identity drifted"
  ok tt
