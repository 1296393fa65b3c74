-- ===== src/Broker/Journal/Appending/Round.antt =====
-- `_append` and the reading after it (src/lumi_eggcracker/brokered/operator.py, lines 698-859), as a round trip.
use lumi_eggcracker.Base.{
  ℕ, suc, ◌+◌, ◌-◌, ◌≤◌, ◌<◌, String, ◌≡◌, sym, true, List, [], ◌∷◌, ◌++◌, length, length-append,
  sum_by, all, ok, arith, >>=-eq-ok, ◌>>=◌, ==_iff, eq_refl,
}
use mathlib.Core.Path.{subst}
use lumi_eggcracker.Json.{Fields, Value}
use lumi_eggcracker.Broker.Library.{Library}
use lumi_eggcracker.Broker.Claims.{max_journal_events}
use lumi_eggcracker.Broker.State.{State}
use lumi_eggcracker.Broker.Replay.{replay_event}
use lumi_eggcracker.Broker.Replay.Invariant.{replay_event-IsValid}
use lumi_eggcracker.Broker.Replay.Budget.{replay_event-paid, paid-le}
use lumi_eggcracker.Broker.Journal.{
  Anchor, Disk, Entry, read_line, read_events, read_journal, replay_genesis, read_state,
  check_witness, no_hash, line_ends, append, record_line, witness_line, record_value, event_value,
  witness_value, witness_event, max_record_bytes, max_journal_bytes, max_anchor_bytes,
}
use lumi_eggcracker.Broker.Journal.Reading.{stamped, read_state_inversion, read_state-IsValid}
use lumi_eggcracker.Broker.Journal.Appending.{
  DigestLaws, ReadsBack, parse_canonical-dumps, all_append, sum_by_append, replay_event-stamped,
}

module _ (lib : Library) (laws : DigestLaws lib) where
  -- the record that `_append` writes, as a value
  abbrev pub signed_record : String → Fields → String → ℕ → Value
  signed_record kind payload prev seq =
      record_value kind (lib.hmac (lib.dumps (event_value kind payload prev seq))) payload prev seq

  abbrev pub signed_witness : Anchor → ℕ → String → Value
  signed_witness anchor seq hash =
      witness_value hash (lib.hmac (lib.dumps (witness_event hash seq anchor.store_id))) seq
        anchor.store_id

  read_line-record_line :
      (kind : String) (payload : Fields) (prev : String) (seq : ℕ)
      → ReadsBack lib max_record_bytes (signed_record kind payload prev seq)
      → read_line lib seq prev (record_line lib kind payload prev seq)
        ≡ ok (record { kind = kind; payload = payload })
  unfolding read_line record_line
  read_line-record_line kind payload prev seq r =
      let mac = lib.hmac (lib.dumps (event_value kind payload prev seq)) in
      rw (parse_canonical-dumps lib _ max_record_bytes r) (
        ground (
          arith,
          eq_refl prev,
          eq_refl mac,
          ==_iff seq seq,
          laws.hmac_hex (lib.dumps (event_value kind payload prev seq)),
        ))

  check_witness-witness_line :
      (anchor : Anchor) (seq : ℕ) (raw : List ℕ)
      → ReadsBack lib max_anchor_bytes (signed_witness anchor seq (lib.sha256 raw))
      → check_witness lib anchor (witness_line lib anchor seq (lib.sha256 raw)) seq (lib.sha256 raw)
        ≡ ok tt
  unfolding check_witness witness_line
  check_witness-witness_line anchor seq raw r =
      let hash = lib.sha256 raw in
      let event = lib.dumps (witness_event hash seq anchor.store_id) in
      rw (parse_canonical-dumps lib _ max_anchor_bytes r) (
        ground (
          arith,
          eq_refl hash,
          eq_refl (lib.hmac event),
          ==_iff seq seq,
          eq_refl anchor.store_id,
          laws.hmac_hex event,
          laws.sha256_hex raw,
        ))

  -- one more line at the end is one more turn of the loop
  read_events-append :
      (lines : List (List ℕ)) (line : List ℕ) (seq : ℕ) (hash : String) (s t t' : State)
      (hash' : String) (entry : Entry)
      → read_events lib lines seq hash s ≡ ok (t, hash')
      → read_line lib (length lines + seq) hash' line ≡ ok entry
      → replay_event lib t entry.kind entry.payload ≡ ok t'
      → read_events lib (lines ++ line ∷ []) seq hash s ≡ ok (t', lib.sha256 line)
  unfolding read_events
  read_events-append [] line seq hash s t t' hash' entry h l e = ground arith
  read_events-append (first ∷ rest) line seq hash s t t' hash' entry h l e =
      let (x, e1, h1) =
        >>=-eq-ok (read_line lib seq hash first)
          (λ x. replay_event lib s x.kind x.payload >>= λ u.
            read_events lib rest (suc seq) (lib.sha256 first) u)
          h in
      let (u, e2, h2) =
        >>=-eq-ok (replay_event lib s x.kind x.payload)
          (λ u. read_events lib rest (suc seq) (lib.sha256 first) u) h1 in
      let z : length rest + suc seq ≡ suc (length rest) + seq = omega arith in
      rw (e1, e2)
        (read_events-append rest line (suc seq) (lib.sha256 first) u t t' hash' entry h2 (rw z l) e)

  read_journal-append :
      (anchor : Anchor) (lines : List (List ℕ)) (line : List ℕ) (t t' : State) (hash : String)
      (entry : Entry)
      → read_journal lib anchor lines ≡ ok (t, hash)
      → read_line lib (length lines) hash line ≡ ok entry
      → replay_event lib t entry.kind entry.payload ≡ ok t'
      → read_journal lib anchor (lines ++ line ∷ []) ≡ ok (t', lib.sha256 line)
  unfolding read_journal
  read_journal-append anchor [] line t t' hash entry h l e = cc
  read_journal-append anchor (first ∷ rest) line t t' hash entry h l e =
      let (x, e1, h1) =
        >>=-eq-ok (read_line lib 0 no_hash first)
          (λ x. replay_genesis lib anchor x >>= λ u. read_events lib rest 1 (lib.sha256 first) u)
          h in
      let (u, e2, h2) =
        >>=-eq-ok (replay_genesis lib anchor x) (λ u. read_events lib rest 1 (lib.sha256 first) u)
          h1 in
      let z : length rest + 1 ≡ suc (length rest) = omega arith in
      rw (e1, e2)
        (read_events-append rest line 1 (lib.sha256 first) u t t' hash entry h2 (rw z l) e)

  -- What `_append` has to write: the record and the witness read back, and the journal has room.
  pub record Room (anchor : Anchor) (s : State) (kind : String) (payload : Fields) (disk : Disk)
      : Type 0 where
    pub record_back :
        ReadsBack lib max_record_bytes (signed_record kind payload s.last_hash (s.last_seq + 1))
    pub witness_back : ReadsBack lib max_anchor_bytes (
        signed_witness anchor
          (s.last_seq + 1)
          (lib.sha256 (record_line lib kind payload s.last_hash (s.last_seq + 1))))
    pub capacity :
        sum_by length disk.journal
          + length (record_line lib kind payload s.last_hash (s.last_seq + 1))
        ≤ max_journal_bytes

  -- the disk after the record is written
  abbrev pub appended : Anchor → State → String → Fields → Disk → Disk
  appended anchor s kind payload disk =
      let line = record_line lib kind payload s.last_hash (s.last_seq + 1) in
      record {
        journal = disk.journal ++ line ∷ [];
        witness = witness_line lib anchor (s.last_seq + 1) (lib.sha256 line);
      }

  -- the event budget is not what stops an accepted record
  events_left :
      (anchor : Anchor) (disk : Disk) (s s' : State) (kind : String) (payload : Fields)
      → read_state lib anchor disk ≡ ok s
      → replay_event lib s kind payload ≡ ok s'
      → s.record_count < max_journal_events
  events_left anchor disk s s' kind payload h e =
      let (v, counted, _) = read_state-IsValid lib anchor disk s h in
      ground (
        arith,
        counted,
        replay_event-paid lib s s' kind payload e,
        paid-le s' (replay_event-IsValid lib s s' kind payload v e),
      )

  journal-nonempty :
      (anchor : Anchor) (lines : List (List ℕ)) (t : State) (hash : String)
      → read_journal lib anchor lines ≡ ok (t, hash)
      → 1 ≤ length lines
  unfolding read_journal
  journal-nonempty anchor [] t hash h = cc
  journal-nonempty anchor (line ∷ rest) t hash h = omega arith

  read_state_intro :
      (anchor : Anchor) (disk : Disk) (t : State) (hash : String) (seq : ℕ)
      → read_journal lib anchor disk.journal ≡ ok (t, hash)
      → seq + 1 ≡ length disk.journal
      → check_witness lib anchor disk.witness seq hash ≡ ok tt
      → 1 ≤ sum_by length disk.journal
      → sum_by length disk.journal ≤ max_journal_bytes
      → all line_ends disk.journal ≡ true
      → read_state lib anchor disk ≡ ok (stamped lib t seq hash (seq + 1))
  unfolding read_state
  read_state_intro anchor disk t hash seq h n w low high ends =
      let z : length disk.journal - 1 ≡ seq = omega arith in rw (h, z, w) (ground arith)

  -- the claim at the state that the reading has stamped
  appended-stamped :
      (anchor : Anchor) (disk : Disk) (t s' : State) (hash : String) (kind : String)
      (payload : Fields) (seq : ℕ)
      → read_journal lib anchor disk.journal ≡ ok (t, hash)
      → seq + 1 ≡ length disk.journal
      → all line_ends disk.journal ≡ true
      → 1 ≤ sum_by length disk.journal
      → let s = stamped lib t seq hash (seq + 1) in
        replay_event lib s kind payload ≡ ok s'
        → Room anchor s kind payload disk
        → read_state lib anchor (appended anchor s kind payload disk)
          ≡ ok (
              stamped lib s'
                (seq + 1)
                (lib.sha256 (record_line lib kind payload hash (seq + 1)))
                (seq + 1 + 1))
  appended-stamped anchor disk t s' hash kind payload seq h n ends low e room =
      let line = record_line lib kind payload hash (seq + 1) in
      let t' = stamped lib s' t.last_seq t.last_hash t.record_count in
      read_state_intro anchor (appended anchor (stamped lib t seq hash (seq + 1)) kind payload disk)
        t' (lib.sha256 line) (seq + 1)
        (read_journal-append anchor disk.journal line t t' hash
          (record { kind = kind; payload = payload }) h
          (rw (← n) (read_line-record_line kind payload hash (seq + 1) room.record_back))
          (replay_event-stamped lib (stamped lib t seq hash (seq + 1)) s' t.last_seq t.last_hash
            t.record_count kind payload e))
        (omega (arith, length-append disk.journal (line ∷ [])))
        (check_witness-witness_line anchor (seq + 1) line room.witness_back)
        (omega (arith, sum_by_append disk.journal line))
        (omega (arith, sum_by_append disk.journal line, room.capacity))
        (all_append line_ends disk.journal line ends (unfold record_line in room.record_back.ends))

  -- A store that reads, and a record that its state accepts: `_append` writes it, and answers the
  -- state that the record leads to, which is also what the disk then reads as. The record and the
  -- witness fit and read back, and digests have their documented form.
  pub append-reads :
      (anchor : Anchor) (disk : Disk) (s s' : State) (kind : String) (payload : Fields)
      → read_state lib anchor disk ≡ ok s
      → replay_event lib s kind payload ≡ ok s'
      → Room anchor s kind payload disk
      → let hash = lib.sha256 (record_line lib kind payload s.last_hash (s.last_seq + 1)) in
        let disk' = appended anchor s kind payload disk in
        let s'' = stamped lib s' (s.last_seq + 1) hash (s.record_count + 1) in
        (append lib anchor s kind payload disk ≡ (ok s'', disk'))
        × (read_state lib anchor disk' ≡ ok s'')
  unfolding append
  append-reads anchor disk s s' kind payload h e room =
      let (t, hash, j, _, same, ends, low) = read_state_inversion lib anchor disk s h in
      let n : length disk.journal - 1 + 1 ≡ length disk.journal =
        omega (arith, journal-nonempty anchor disk.journal t hash j) in
      let same' : s ≡ stamped lib t (length disk.journal - 1) hash (length disk.journal - 1 + 1) =
        rw n same in
      let reads : read_state lib anchor (appended anchor s kind payload disk)
          ≡ ok (
              stamped lib s' (s.last_seq + 1)
                (lib.sha256 (record_line lib kind payload s.last_hash (s.last_seq + 1)))
                (s.record_count + 1)) =
        subst
          (λ (x : State).
            replay_event lib x kind payload ≡ ok s'
            → Room anchor x kind payload disk
            → read_state lib anchor (appended anchor x kind payload disk)
              ≡ ok (
                  stamped lib s' (x.last_seq + 1)
                    (lib.sha256 (record_line lib kind payload x.last_hash (x.last_seq + 1)))
                    (x.record_count + 1)))
          (sym same')
          (appended-stamped anchor disk t s' hash kind payload (length disk.journal - 1) j n ends
            low)
          e room in
      (ground (arith, events_left anchor disk s s' kind payload h e, room.capacity, reads), reads)
