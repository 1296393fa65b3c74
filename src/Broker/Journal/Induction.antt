-- ===== src/Broker/Journal/Induction.antt =====
-- Induction over the records of a store that opens (src/lumi_eggcracker/brokered/operator.py,
-- `_read_state`).
use lumi_eggcracker.Base.{ℕ, ◌-◌, String, ◌≡◌, length, ok, refl}
use lumi_eggcracker.Json.{Fields}
use lumi_eggcracker.Broker.Library.{Library}
use lumi_eggcracker.Broker.State.{State}
use lumi_eggcracker.Broker.Replay.{replay_event}
use lumi_eggcracker.Broker.Journal.{empty_state, Anchor, Disk, read_state}
use lumi_eggcracker.Broker.Journal.Reading.{read_journal_induction, read_state_inversion, stamped}
use lumi_eggcracker.Broker.Replay.Linked.{IsLinked, replay_event-IsLinked}

module _ (lib : Library) (anchor : Anchor) where
  -- What holds of the empty state, and is kept by every record and by the stamp of the last line, holds
  -- of the state of a store that opens.
  pub read_state_induction {ℓ} :
      (P : State → Type ℓ)
      → P (empty_state anchor)
      → ((s s' : State) (kind : String) (payload : Fields)
          → P s
          → replay_event lib s kind payload ≡ ok s'
          → P s')
      → ((s : State) (seq count : ℕ) (hash : String) → P s → P (stamped lib s seq hash count))
      → (disk : Disk) (s : State) → read_state lib anchor disk ≡ ok s
      → P s
  read_state_induction P base step stamp disk s h =
      let (t, hash, e, _, same, _, _) = read_state_inversion lib anchor disk s h in
      rw same (
        stamp t (length disk.journal - 1) (length disk.journal) hash
          (read_journal_induction lib anchor (λ _. P) base (λ n. step) disk.journal t hash e))

  genesis-IsLinked : IsLinked (empty_state anchor)
  unfolding empty_state
  genesis-IsLinked = record { item_ok = λ q item h. cc; result_ok = λ q h. refl }

  -- In the state of a store that opens, items and results are linked.
  pub read_state-IsLinked :
      (disk : Disk) (s : State) → read_state lib anchor disk ≡ ok s → IsLinked s
  read_state-IsLinked =
      read_state_induction IsLinked genesis-IsLinked (replay_event-IsLinked lib)
        (λ t seq count hash v. record { item_ok = v.item_ok; result_ok = v.result_ok })
