-- ===== src/Launches/Tests.antt =====
-- A launch, its approvals, and an emptied cgroup.
use lumi_eggcracker.Base.{
  ◌≡◌, ◌≢◌, refl, true, false, none, some, List, [], ◌∷◌, ◌++◌, Elem, arith, join, Option, ℕ,
  String,
}
use lumi_eggcracker.Launches.Readings.{
  os_error, input_error, Outcome, gives, raises, is_collected, is_taken_for_gone, events_of,
  line_pids, directory_pids, insert_pid, sorted_pids, survivors_of, Look, look,
}
use lumi_eggcracker.Launches.Verifying.{collected_proof, after_kill, verify_looks, verify_empty}
use lumi_eggcracker.Launches.Emptiness.{ShowsEmpty, verify_empty-ShowsEmpty}
use lumi_eggcracker.Launches.Provenance.{
  Material, Provenance, same_material, count_matches, approval_is_active,
}
use lumi_eggcracker.Launches.Identity.{
  CgroupIdentity, Kernel, validate_identity, path_of, unit_path,
}
use lumi_eggcracker.Launches.Provenance.{ProcessSnapshot, authorizes}
use lumi_eggcracker.Launches.Exact.{authorizes-exact}
use lumi_eggcracker.Launches.Active.{stale-approval, revoked-approval}

abbrev admitted : Material
admitted = record {
  name = "model";
  created_monotonic_ns = 100;
  argv_count = 2;
  argv_sha256 = "a";
  bound_input_sha256 = "m" ∷ [];
  executable = "/usr/bin/llama";
  executable_device = 1;
  executable_inode = 2;
  executable_sha256 = "e";
  launch_kind = "NATIVE_LLAMA";
  uid = 1000;
  allow_interface_discovery = false;
}

-- a later approval of the same name
abbrev replacement : Material
replacement = record admitted { created_monotonic_ns = 200 }

abbrev launch : Provenance
launch = record {
  material = admitted;
  boot_id = "b";
  cgroup = "/system.slice/lumi-eggcracker-workload-0.service";
  cgroup_device = 1;
  cgroup_inode = 3;
  pid = 40;
  run_id = "r";
  start_time = 7;
}

apart : replacement.created_monotonic_ns ≢ admitted.created_monotonic_ns
apart h = omega arith

stale-approval_example : approval_is_active launch (some replacement ∷ []) ≡ false
stale-approval_example = stale-approval launch (some replacement ∷ []) (apart, _)

revoked-approval_example : approval_is_active launch ((some replacement ∷ []) ++ []) ≡ false
unfolding approval_is_active count_matches same_material
revoked-approval_example = revoked-approval launch (some replacement ∷ []) [] admitted refl refl

-- the launch in its cgroup, and its process before and after its file was deleted
abbrev unit_cgroup : String
unit_cgroup = "/system.slice/lumi-eggcracker-workload-00000000000000000000000a.service"

abbrev in_cgroup : Provenance
in_cgroup = record launch { cgroup = unit_cgroup }

abbrev kernel : Kernel
kernel = record { boot_name = "b"; directory = λ path. some (1, 3) }

abbrev process : String → ProcessSnapshot
process path = record {
  pid = 40;
  start_time = 7;
  uid = 1000;
  exe_path = path;
  cgroups = join "0::" unit_cgroup ∷ [];
}

authorizes-exact_example :
    (kernel.boot_name ≡ kernel.boot_name)
    × (kernel.directory unit_cgroup ≡ kernel.directory unit_cgroup)
    × ((process "/usr/bin/llama").pid ≡ 40)
    × ((process "/usr/bin/llama").start_time ≡ 7)
    × (◌≡◌ {A = Option (ℕ × ℕ)} (some (1, 2)) (some (1, 2)))
    × (◌≡◌ {A = String} "e" "e")
unfolding authorizes validate_identity path_of unit_path
authorizes-exact_example =
    authorizes-exact kernel kernel (process "/usr/bin/llama") (process "/usr/bin/llama (deleted)")
      "e" "e" (some (1, 2)) (some (1, 2)) in_cgroup refl refl

-- Turns of `verify_empty`: one that finds two processes, then one that finds none.
abbrev identity : CgroupIdentity
identity = record {
  boot_id = "b";
  cgroup = unit_cgroup;
  device = 1;
  inode = 3;
  run_id = "r";
  unit = "u";
}

abbrev look_of : ℕ → List (Outcome (List String)) → Look
look_of populated files = record {
  kernel = gives kernel;
  events = gives (("populated", populated) ∷ ("frozen", 0) ∷ []);
  procs = gives files;
  kill = none;
}

abbrev busy : Look
busy = look_of 1 (gives ("41" ∷ []) ∷ gives ("40" ∷ "41" ∷ []) ∷ [])

abbrev emptied : Look
emptied = look_of 0 (gives [] ∷ gives [] ∷ [])

-- both processes are counted, each once
busy_found :
    look identity busy
    ≡ gives (record { populated = some 1; survivors = 40 ∷ 41 ∷ []; descendants = 2 })
unfolding look validate_identity path_of unit_path events_of survivors_of directory_pids line_pids
    sorted_pids insert_pid
busy_found = refl

verify_empty-ShowsEmpty_example : (l : Look) × Elem l (busy ∷ emptied ∷ []) × ShowsEmpty identity l
unfolding verify_empty verify_looks after_kill look validate_identity path_of unit_path events_of
    survivors_of directory_pids line_pids sorted_pids insert_pid
verify_empty-ShowsEmpty_example =
    verify_empty-ShowsEmpty identity (busy ∷ emptied ∷ [])
      (record {
        complete = true;
        descendant_cgroups_checked = 2;
        root_populated = some 0;
        surviving_pids = [];
      })
      refl refl

-- A directory below the cgroup vanishes between its listing and the reading of its `cgroup.procs`:
-- the proof is complete, with `populated` at 1 and process 41 in the cgroup's own file.
vanished_below :
    verify_empty identity (
      look_of 1 (gives ("41" ∷ []) ∷ raises (os_error 2 "[Errno 2] No such file or directory") ∷ [])
      ∷ [])
    ≡ gives collected_proof
unfolding verify_empty verify_looks look validate_identity path_of unit_path events_of survivors_of
    directory_pids line_pids sorted_pids insert_pid is_taken_for_gone is_collected
vanished_below = refl

-- The path is a link, or no directory.
unavailable_path :
    verify_empty identity
      (record busy { kernel = gives (record { boot_name = "b"; directory = λ path. none }) } ∷ [])
    ≡ gives collected_proof
unfolding verify_empty verify_looks look validate_identity path_of unit_path is_taken_for_gone
unavailable_path = refl

-- A changed boot raises.
changed_boot :
    verify_empty (record identity { boot_id = "c" }) (busy ∷ [])
    ≡ raises (input_error "workload boot identity changed")
unfolding verify_empty verify_looks look validate_identity is_taken_for_gone
changed_boot = refl

-- Unreadable events are a JsonInputError, whose text still says what the OSError said.
unread_events :
    verify_empty identity
      (record busy { events = raises (os_error 2 "[Errno 2] No such file or directory") } ∷ [])
    ≡ gives collected_proof
unfolding verify_empty verify_looks look validate_identity path_of unit_path events_of
    is_taken_for_gone
unread_events = refl
