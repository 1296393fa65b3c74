-- ===== src/Broker/Spec.antt =====
-- What the journal of the broker (src/lumi_eggcracker/brokered/operator.py) promises, as a machine on
-- runs, items and effects: the order of the records, the bytes and the digests are forgotten.
use lumi_eggcracker.Base.{
  ℕ, ◌+◌, ◌<◌, String, ◌≡◌, Bool, true, false, Option, none, some, str_eq, if◌then◌else◌,
}
use lumi_eggcracker.Broker.Claims.{max_actions_per_run}
use lumi_eggcracker.Broker.State.{Status, queued, applied, rejected}

pub record RunView : Type 0 where
  pub generation : ℕ
  pub revoked : Bool
  pub admitted : ℕ
  pub applied : ℕ

-- an item: the run that owns it, and its status
pub record ItemView : Type 0 where
  pub owner : String
  pub status : Status

pub record View : Type 0 where
  pub run_at : String → Option RunView
  pub item_at : String → Option ItemView
  pub effects : ℕ

abbrev pub put {ℓ} : {A : Type ℓ} → String → A → (String → Option A) → String → Option A
put k a f j = if str_eq j k then some a else f j

abbrev pub fresh_run : RunView
fresh_run = record { generation = 0; revoked = false; admitted = 0; applied = 0 }

abbrev pub blank : View
blank = record { run_at = λ k. none; item_at = λ q. none; effects = 0 }

module _ (v : View) where
  abbrev pub with_run : String → RunView → View
  with_run k r = record v { run_at = put k r v.run_at }

  abbrev pub with_item : String → String → Status → View
  with_item q k status = record v {
    item_at = put q (record { owner = k; status = status }) v.item_at;
  }

-- One record: an effect is of an item that waits, for a run that was never revoked, and is counted once.
pub data Step (v : View) : View → Type 0 where
  prepare : Step v v
  register : (k : String) → v.run_at k ≡ none → Step v (with_run v k fresh_run)
  admit :
      (k q : String) (r : RunView)
      → v.run_at k ≡ some r
      → r.revoked ≡ false
      → r.admitted < max_actions_per_run
      → v.item_at q ≡ none
      → Step v (with_item (with_run v k (record r { admitted = r.admitted + 1 })) q k queued)
  apply :
      (k q : String) (r : RunView)
      → v.run_at k ≡ some r
      → r.revoked ≡ false
      → r.generation ≡ 0
      → v.item_at q ≡ some (record { owner = k; status = queued })
      → Step v
          (record (with_item (with_run v k (record r { applied = r.applied + 1 })) q k applied) {
            effects = v.effects + 1;
          })
  reject :
      (k q : String)
      → v.item_at q ≡ some (record { owner = k; status = queued })
      → Step v (with_item v q k rejected)
  revoke :
      (k : String) (r : RunView)
      → v.run_at k ≡ some r
      → r.revoked ≡ false
      → Step v (with_run v k (record r { generation = r.generation + 1; revoked = true }))

pub data Reach (v : View) : View → Type 0 where
  here : Reach v v
  next : {u w : View} → Reach v u → Step u w → Reach v w
