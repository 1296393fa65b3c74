-- ===== src/Broker/Journal/Refinement.antt =====
-- The store (src/lumi_eggcracker/brokered/operator.py, `_read_state`) as an implementation of the
-- abstract machine.
use lumi_eggcracker.Base.{◌≡◌, String, ok}
use lumi_eggcracker.Json.{Fields}
use lumi_eggcracker.Broker.Library.{Library}
use lumi_eggcracker.Broker.State.{State}
use lumi_eggcracker.Broker.Spec.{blank, Reach, here, next}
use lumi_eggcracker.Broker.Replay.{replay_event}
use lumi_eggcracker.Broker.Replay.Invariant.{IsValid, replay_event-IsValid}
use lumi_eggcracker.Broker.Replay.Refinement.{view, replay_event-Step}
use lumi_eggcracker.Broker.Journal.{empty_state, Anchor, Disk, read_state}
use lumi_eggcracker.Broker.Journal.Reading.{genesis-Counted, stamped-IsValid}
use lumi_eggcracker.Broker.Journal.Induction.{read_state_induction}

module _ (lib : Library) (anchor : Anchor) where
  -- a well-formed state that the machine reaches from nothing
  abbrev Refines : State → Type 0
  Refines s = IsValid s × Reach blank (view s)

  refined :
      (s s' : State) (kind : String) (payload : Fields)
      → Refines s
      → replay_event lib s kind payload ≡ ok s'
      → Refines s'
  refined s s' kind payload r h = (
    replay_event-IsValid lib s s' kind payload r.0 h,
    next r.1 (replay_event-Step lib s s' kind payload r.0 h),
  )

  genesis : Refines (empty_state anchor)
  unfolding empty_state
  genesis = ((genesis-Counted lib anchor).0, here)

  -- What is seen of the state of a store that opens - its runs, its items and its count of effects - is
  -- reached from nothing by the abstract machine, whose steps register a run once, admit within the
  -- bound for a run that is not revoked, apply or reject only an item that waits, and count an effect
  -- only for an item that waits of a run that is not revoked.
  pub read_state-Reach :
      (disk : Disk) (s : State) → read_state lib anchor disk ≡ ok s → Reach blank (view s)
  read_state-Reach disk s h =
      (read_state_induction lib anchor Refines genesis refined
        (λ t seq count hash r. (stamped-IsValid t seq count hash r.0, r.1)) disk s h).1
