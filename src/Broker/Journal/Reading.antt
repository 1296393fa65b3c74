-- ===== src/Broker/Journal/Reading.antt =====
-- What a journal that reads has shown: a well-formed state, and one record for each paid event.
use lumi_eggcracker.Base.{
  ℕ, suc, ◌+◌, ◌-◌, ◌≤◌, String, ◌≡◌, refl, true, List, [], ◌∷◌, length, sum_by, all, ok, arith,
  >>=-eq-ok, Result-cases, ◌>>=◌, inl, inr,
}
use lumi_eggcracker.Json.{Fields}
use lumi_eggcracker.Broker.Library.{Library}
use lumi_eggcracker.Broker.Claims.{max_journal_events}
use lumi_eggcracker.Broker.State.{State}
use lumi_eggcracker.Broker.Replay.{replay_event}
use lumi_eggcracker.Broker.Replay.Invariant.{IsValid, replay_event-IsValid}
use lumi_eggcracker.Broker.Replay.Budget.{paid, replay_event-paid, paid-le}
use lumi_eggcracker.Broker.Journal.{
  Anchor, Disk, Entry, read_line, read_events, read_journal, replay_genesis, read_state,
  check_witness, empty_state, no_hash, line_ends,
}

pub stamped-IsValid :
    (s : State) (seq count : ℕ) (hash : String)
    → IsValid s
    → IsValid (record s { last_seq = seq; last_hash = hash; record_count = count })
stamped-IsValid s seq count hash v = record {
  effects = v.effects;
  admissions = v.admissions;
  queue_count = v.queue_count;
  ids_bound = v.ids_bound;
  runs_bound = v.runs_bound;
  pending = v.pending;
  pending_bound = v.pending_bound;
  run_ok = v.run_ok;
  admitted_count = v.admitted_count;
  applied_count = v.applied_count;
}

module _ (lib : Library) where
  -- What holds of every state that a record can lead to, and is kept by each record, holds after
  -- the loop; a claim about the numbers of records is carried along.
  pub read_events_induction {ℓ} :
      (P : ℕ → State → Type ℓ)
      → ((n : ℕ) (s s' : State) (kind : String) (payload : Fields)
          → P n s
          → replay_event lib s kind payload ≡ ok s'
          → P (suc n) s')
      → (lines : List (List ℕ)) (seq n : ℕ) (hash : String) (s s' : State) (hash' : String) → P n s
      → read_events lib lines seq hash s ≡ ok (s', hash')
      → P (length lines + n) s'
  unfolding read_events
  read_events_induction P step [] seq n hash s s' hash' p h =
      let e : s ≡ s' = cc in let z : 0 + n ≡ n = omega arith in rw z (rw e at p)
  read_events_induction P step (line ∷ rest) seq n hash s s' hash' p h =
      let (entry, e1, h1) =
        >>=-eq-ok (read_line lib seq hash line)
          (λ entry. replay_event lib s entry.kind entry.payload >>= λ t.
            read_events lib rest (suc seq) (lib.sha256 line) t)
          h in
      let (t, e2, h2) =
        >>=-eq-ok (replay_event lib s entry.kind entry.payload)
          (λ t. read_events lib rest (suc seq) (lib.sha256 line) t) h1 in
      let z : suc (length rest) + n ≡ length rest + suc n = omega arith in
      rw z (
        read_events_induction P step rest (suc seq) (suc n) (lib.sha256 line) t s' hash'
          (step n s t entry.kind entry.payload p e2) h2)

  -- the claim that the loop carries
  abbrev pub Counted : ℕ → State → Type 0
  Counted n s = IsValid s × (paid s ≡ n)

  pub genesis-Counted : (anchor : Anchor) → Counted 1 (empty_state anchor)
  unfolding empty_state
  genesis-Counted anchor = (
    record {
      effects = refl;
      admissions = refl;
      queue_count = refl;
      ids_bound = omega arith;
      runs_bound = omega arith;
      pending = refl;
      pending_bound = omega arith;
      run_ok = λ k r h. cc;
      admitted_count = λ k. refl;
      applied_count = λ k. refl;
    },
    omega arith,
  )

  pub genesis_inversion :
      (anchor : Anchor) (entry : Entry) (s : State)
      → replay_genesis lib anchor entry ≡ ok s
      → empty_state anchor ≡ s
  unfolding replay_genesis
  genesis_inversion anchor entry s h = ground arith

  step-Counted :
      (n : ℕ) (s s' : State) (kind : String) (payload : Fields)
      → Counted n s
      → replay_event lib s kind payload ≡ ok s'
      → Counted (suc n) s'
  step-Counted n s s' kind payload c h = (
    replay_event-IsValid lib s s' kind payload c.0 h,
    ground (arith, c.1, replay_event-paid lib s s' kind payload h),
  )

  -- What holds of the empty state and is kept by every record holds of what a journal replays to.
  pub read_journal_induction {ℓ} :
      (anchor : Anchor) (P : ℕ → State → Type ℓ)
      → P 1 (empty_state anchor)
      → ((n : ℕ) (s s' : State) (kind : String) (payload : Fields)
          → P n s
          → replay_event lib s kind payload ≡ ok s'
          → P (suc n) s')
      → (lines : List (List ℕ)) (s : State) (hash : String)
      → read_journal lib anchor lines ≡ ok (s, hash)
      → P (length lines) s
  unfolding read_journal
  read_journal_induction anchor P base step [] s hash h = cc
  read_journal_induction anchor P base step (line ∷ rest) s hash h =
      let (entry, e1, h1) =
        >>=-eq-ok (read_line lib 0 no_hash line)
          (λ entry.
            replay_genesis lib anchor entry >>= λ t. read_events lib rest 1 (lib.sha256 line) t)
          h in
      let (t, e2, h2) =
        >>=-eq-ok (replay_genesis lib anchor entry)
          (λ t. read_events lib rest 1 (lib.sha256 line) t) h1 in
      let z : suc (length rest) ≡ length rest + 1 = omega arith in
      rw z (
        read_events_induction P step rest 1 1 (lib.sha256 line) t s hash
          (rw (genesis_inversion anchor entry t e2) at base) h2)

  -- A journal that replays leaves a well-formed state that accounts for each of its records.
  pub read_journal-Counted :
      (anchor : Anchor) (lines : List (List ℕ)) (s : State) (hash : String)
      → read_journal lib anchor lines ≡ ok (s, hash)
      → Counted (length lines) s
  read_journal-Counted anchor =
      read_journal_induction anchor Counted (genesis-Counted anchor) step-Counted

  -- the bookkeeping that `_read_state` sets when the journal has been read
  abbrev pub stamped : State → ℕ → String → ℕ → State
  stamped s seq hash count = record s { last_seq = seq; last_hash = hash; record_count = count }

  -- A disk that reads has a journal that replays, a witness that names its last record, and the
  -- stamped state.
  pub read_state_inversion :
      (anchor : Anchor) (disk : Disk) (s : State)
      → read_state lib anchor disk ≡ ok s
      → (t : State) × (hash : String) × (read_journal lib anchor disk.journal ≡ ok (t, hash))
        × (check_witness lib anchor disk.witness (length disk.journal - 1) hash ≡ ok tt)
        × (s ≡ stamped t (length disk.journal - 1) hash (length disk.journal))
        × (all line_ends disk.journal ≡ true)
        × (1 ≤ sum_by length disk.journal)
  unfolding read_state
  read_state_inversion anchor disk s h =
      elim (Result-cases (read_journal lib anchor disk.journal)) [
        | inl ((t, hash), e) ↦ (t, hash, e, ground arith, ground arith, ground arith, ground arith)
        | inr (message, e) ↦ absurd (ground arith)
      ]

  -- The state of every store that opens is well-formed, its counters pay for exactly its journal
  -- records, and there are at most 642 of these.
  pub read_state-IsValid :
      (anchor : Anchor) (disk : Disk) (s : State)
      → read_state lib anchor disk ≡ ok s
      → IsValid s × (paid s ≡ s.record_count) × (s.record_count ≤ max_journal_events)
  read_state-IsValid anchor disk s h =
      let (t, hash, e, _, same, _, _) = read_state_inversion anchor disk s h in
      let (v, counted) = read_journal-Counted anchor disk.journal t hash e in
      rw same (
        stamped-IsValid t (length disk.journal - 1) (length disk.journal) hash v,
        counted,
        ground (arith, counted, paid-le t v),
      )
