-- ===== src/Launches/Readings.antt =====
-- What one turn of the loop of `verify_empty` reads, and what it raises: `_events`, `_survivors`,
-- `_collected` and the test on the error's text (src/lumi_eggcracker/containment.py, lines 62-67 and
-- 110-136). What the kernel answers is an argument.
use lumi_eggcracker.Base.{
  ℕ, ◌+◌, ◌-◌, ◌*◌, String, join, Bool, true, false, ◌&&◌, ◌||◌, Option, List, [], ◌∷◌, ◌++◌, ◌==◌,
  leb, ltb, if◌then◌else◌, length, all, any, codes, is_digit, Result, ok, err,
}
use lumi_eggcracker.Base.Dict.{Dict, lookup}
use lumi_eggcracker.Launches.Identity.{CgroupIdentity, Kernel, starts_with, validate_identity}

-- What can be raised: an OSError with its errno and its text, a JsonInputError with its text, or
-- another ValueError, as of a text that is not ASCII.
pub data Raise : Type 0 where
  os_error : ℕ → String → Raise
  input_error : String → Raise
  value_error : Raise

pub data Outcome {ℓ} (A : Type ℓ) : Type ℓ where
  gives : A → Outcome A
  raises : Raise → Outcome A

abbrev pub and_then {ℓ κ} : {A : Type ℓ} {B : Type κ} → Outcome A → (A → Outcome B) → Outcome B
and_then (gives a) next = next a
and_then (raises e) next = raises e

-- a check that answers with a JsonInputError
abbrev pub checked {ℓ} : {A : Type ℓ} → Result A → Outcome A
checked (ok a) = gives a
checked (err message) = raises (input_error message)

-- `t in s` on code points
abbrev pub contains_text : List ℕ → List ℕ → Bool
contains_text [] t = starts_with [] t
contains_text (c ∷ cs) t = starts_with (c ∷ cs) t || contains_text cs t

-- `_collected`: ENOENT is 2 and ENODEV is 19
unfoldable pub is_collected : Raise → Bool
is_collected (os_error errno text) = errno == 2 || errno == 19
is_collected (input_error text) = false
is_collected value_error = false

-- the tests on `str(error)`
abbrev pub gone_texts : List String
gone_texts = "unavailable" ∷ "No such file" ∷ "No such device" ∷ []

abbrev pub tells_gone : String → Bool
tells_gone text = any (λ t. contains_text (codes text) (codes t)) gone_texts

-- An error that `verify_empty` takes for a cgroup that is gone; a ValueError of another kind is not
-- caught.
unfoldable pub is_taken_for_gone : Raise → Bool
unfolding is_collected
is_taken_for_gone (os_error errno text) = is_collected (os_error errno text) || tells_gone text
is_taken_for_gone (input_error text) = tells_gone text
is_taken_for_gone value_error = false

-- `_events` of `cgroup.events`, from what `events_from_fd` answers
unfoldable pub events_of : Outcome (Dict ℕ) → Outcome (Dict ℕ)
events_of (gives values) = gives values
events_of (raises (os_error errno text)) =
    raises (input_error (join "cannot read cgroup.events: " text))
events_of (raises (input_error text)) = raises (input_error text)
events_of (raises value_error) = raises value_error

-- `line.isdigit()`, of an ASCII text
abbrev pub is_pid_line : String → Bool
is_pid_line line = leb 1 (length (codes line)) && all is_digit (codes line)

-- `int(line)`
abbrev pub decimal : ℕ → List ℕ → ℕ
decimal acc [] = acc
decimal acc (c ∷ cs) = decimal (acc * 10 + (c - b'0')) cs

-- `sorted(set(values))`
unfoldable pub insert_pid : ℕ → List ℕ → List ℕ
insert_pid p [] = p ∷ []
insert_pid p (q ∷ qs) =
    let rest = insert_pid p qs in
    if p == q then q ∷ qs else if ltb p q then p ∷ q ∷ qs else q ∷ rest

unfoldable pub sorted_pids : List ℕ → List ℕ
unfolding insert_pid
sorted_pids [] = []
sorted_pids (p ∷ ps) = insert_pid p (sorted_pids ps)

-- `not survivors`
abbrev pub is_nil : List ℕ → Bool
is_nil [] = true
is_nil (p ∷ ps) = false

-- the loop over the lines of one file `cgroup.procs`
unfoldable pub line_pids : List String → Outcome (List ℕ)
line_pids [] = gives []
line_pids (line ∷ rest) =
    let others = and_then (line_pids rest) (λ ps. gives (decimal 0 (codes line) ∷ ps)) in
    if is_pid_line line then others else raises (input_error "cgroup.procs contains invalid PID")

-- the loop over the directories
unfoldable pub directory_pids : List (Outcome (List String)) → Outcome (List ℕ × ℕ)
unfolding line_pids
directory_pids [] = gives ([], 0)
directory_pids (file ∷ files) = and_then file (λ lines.
    and_then (line_pids lines)
      (λ ps. and_then (directory_pids files) (λ rest. gives (ps ++ rest.0, 1 + rest.1))))

-- `_survivors`: the processes, and how many directories there are
unfoldable pub survivors_of : Outcome (List (Outcome (List String))) → Outcome (List ℕ × ℕ)
unfolding directory_pids sorted_pids
survivors_of listed =
    and_then listed
      (λ files. and_then (directory_pids files) (λ found. gives (sorted_pids found.0, found.1)))

-- What the kernel answers in one turn: the boot's name and the directories, `events_from_fd` of
-- `cgroup.events`, the lines of `cgroup.procs` of the cgroup's directory and of each below it, and
-- what a write to `cgroup.kill` raises, if anything.
pub record Look : Type 0 where
  pub kernel : Outcome Kernel
  pub events : Outcome (Dict ℕ)
  pub procs : Outcome (List (Outcome (List String)))
  pub kill : Option Raise

-- the value of `populated`, where there is one, the survivors, and the number of directories
pub record Survey : Type 0 where
  pub populated : Option ℕ
  pub survivors : List ℕ
  pub descendants : ℕ

-- the body of the `try`
unfoldable pub look : CgroupIdentity → Look → Outcome Survey
unfolding events_of survivors_of
look identity l = and_then l.kernel (λ k.
    and_then (checked (validate_identity k identity)) (λ valid.
      and_then (events_of l.events) (λ values. and_then (survivors_of l.procs) (λ found.
        gives (record {
          populated = lookup "populated" values;
          survivors = found.0;
          descendants = found.1;
        })))))
