-- ===== src/HumanStop/State.antt =====
-- The records of the controller and of its world (experiments/human_override/model.py, lines 67-128).
use lumi_eggcracker.Base.{
  ℕ, String, Bool, true, false, Option, none, some, List, [], str_eq, if◌then◌else◌,
}

-- The principals, the operations and the two allocations, which are the code's texts.
pub data Principal : Type 0 where
  human scheduler guest : Principal

pub data Op : Type 0 where
  approve start stop reset : Op

pub data Key : Type 0 where
  key_a key_b : Key

abbrev pub principal_of : String → Option Principal
principal_of s =
    if str_eq s "human"
    then some human
    else if str_eq s "scheduler"
    then some scheduler
    else if str_eq s "guest"
    then some guest
    else none

abbrev pub op_of : String → Option Op
op_of s =
    if str_eq s "approve"
    then some approve
    else if str_eq s "start"
    then some start
    else if str_eq s "stop"
    then some stop
    else if str_eq s "reset"
    then some reset
    else none

abbrev pub op_text : Op → String
op_text approve = "approve"
op_text start = "start"
op_text stop = "stop"
op_text reset = "reset"

abbrev pub key_of : String → Option Key
key_of s = if str_eq s "A" then some key_a else if str_eq s "B" then some key_b else none

-- a dict over the two allocations
pub record Pair (A : Type 0) : Type 0 where
  pub a : A
  pub b : A

abbrev pub at : {A : Type 0} → Key → Pair A → A
at key_a p = p.a
at key_b p = p.b

abbrev pub put : {A : Type 0} → Key → A → Pair A → Pair A
put key_a x p = record p { a = x }
put key_b x p = record p { b = x }

pub record Sequence : Type 0 where
  pub of_guest : ℕ
  pub of_human : ℕ
  pub of_scheduler : ℕ

abbrev pub last_of : Principal → Sequence → ℕ
last_of human q = q.of_human
last_of scheduler q = q.of_scheduler
last_of guest q = q.of_guest

abbrev pub set_last : Principal → ℕ → Sequence → Sequence
set_last human n q = record q { of_human = n }
set_last scheduler n q = record q { of_scheduler = n }
set_last guest n q = record q { of_guest = n }

pub record Allocation : Type 0 where
  pub generation : ℕ
  pub epoch : ℕ
  pub latched : Bool
  pub approved : Bool
  pub control : Bool
  pub sequence : Sequence
  pub audit : List String
  pub dropped : ℕ

-- `Allocation(generation=…)`
abbrev pub new_allocation : ℕ → Allocation
new_allocation generation = record {
  generation = generation;
  epoch = 0;
  latched = false;
  approved = false;
  control = true;
  sequence = record { of_guest = 0; of_human = 0; of_scheduler = 0 };
  audit = [];
  dropped = 0;
}

pub record Effect : Type 0 where
  pub kind : String
  pub tick : ℕ

pub record Execution : Type 0 where
  pub generation : ℕ
  pub running : Bool
  pub connected : Bool
  pub remote_running : Bool
  pub launches : ℕ
  pub revision : ℕ
  pub effects : List Effect

-- `Execution(generation=…)`
abbrev pub new_execution : ℕ → Execution
new_execution generation = record {
  generation = generation;
  running = false;
  connected = false;
  remote_running = false;
  launches = 0;
  revision = 0;
  effects = [];
}

-- the answers of the observer
pub data Observed : Type 0 where
  unknown running_seen verified_stopped : Observed

pub record Observation : Type 0 where
  pub generation : ℕ
  pub epoch : ℕ
  pub tick : ℕ
  pub revision : ℕ
  pub state : Observed

-- The controller with the world that it governs; `stored` is what its state file holds.
pub record Controller : Type 0 where
  pub executions : Pair Execution
  pub tick : ℕ
  pub allocations : Pair Allocation
  pub observations : Pair (Option Observation)
  pub storage_ok : Bool
  pub stored : Pair Allocation
