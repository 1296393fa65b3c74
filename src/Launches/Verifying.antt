-- ===== src/Launches/Verifying.antt =====
-- `EmptyProof` and the loop of `verify_empty` (src/lumi_eggcracker/containment.py, lines 28-33 and
-- 125-148). The list of turns is the loop until its deadline.
use lumi_eggcracker.Base.{
  ℕ, Bool, true, false, ◌&&◌, Option, none, some, List, [], ◌∷◌, ◌==◌, if◌then◌else◌,
}
use lumi_eggcracker.Launches.Identity.{CgroupIdentity}
use lumi_eggcracker.Launches.Readings.{
  Raise, Outcome, gives, raises, is_collected, is_taken_for_gone, is_nil, Survey, Look, look,
}

-- `EmptyProof`; `none` stands for a count of -1
pub record EmptyProof : Type 0 where
  pub complete : Bool
  pub descendant_cgroups_checked : ℕ
  pub root_populated : Option ℕ
  pub surviving_pids : List ℕ

abbrev pub collected_proof : EmptyProof
collected_proof = record {
  complete = true;
  descendant_cgroups_checked = 0;
  root_populated = some 0;
  surviving_pids = [];
}

abbrev pub is_zero : Option ℕ → Bool
is_zero none = false
is_zero (some n) = n == 0

abbrev pub proof_of : Survey → EmptyProof
proof_of found = record {
  complete = is_zero found.populated && is_nil found.survivors;
  descendant_cgroups_checked = found.descendants;
  root_populated = found.populated;
  surviving_pids = found.survivors;
}

-- the kill of a hierarchy that is not shown empty, and the turns after it
unfoldable pub after_kill : Option Raise → Outcome EmptyProof → Outcome EmptyProof
after_kill none more = more
after_kill (some e) more = if is_collected e then gives collected_proof else raises e

-- the loop until the deadline, from the last proof
unfoldable pub verify_looks : CgroupIdentity → List Look → EmptyProof → Outcome EmptyProof
unfolding after_kill
verify_looks identity [] last = gives last
verify_looks identity (l ∷ rest) last = elim (look identity l) [
  | raises e ↦ if is_taken_for_gone e then gives collected_proof else raises e
  | gives found ↦
      (let more = verify_looks identity rest (proof_of found) in
        if (proof_of found).complete then gives (proof_of found) else after_kill l.kill more)
]

-- `verify_empty`
unfoldable pub verify_empty : CgroupIdentity → List Look → Outcome EmptyProof
unfolding verify_looks
verify_empty identity looks = verify_looks identity looks (record {
  complete = false;
  descendant_cgroups_checked = 0;
  root_populated = none;
  surviving_pids = [];
})
