-- ===== src/Broker/Journal/Appending.antt =====
-- Appending one accepted record leaves a store that reads, with the state that the record leads to.
pub mod Round
use lumi_eggcracker.Base.{
  ℕ, zero, suc, ◌+◌, ◌-◌, ◌≤◌, ◌<◌, String, ◌≡◌, refl, sym, ap, ◌∙◌, Bool, true, false, ◌&&◌,
  Option, none, some, List, [], ◌∷◌, ◌++◌, length, length-append, sum_by, all, leb, ltb, Result, ok,
  err, arith, require-eq-ok, >>=-eq-ok, Result-cases, Option-cases, ◌>>=◌, inl, inr, str_eq, ==_iff,
  eq_refl, eq_iff, Bool-cases,
}
use lumi_eggcracker.Base.Dict.{lookup}
use lumi_eggcracker.Json.{Fields, Value, obj, get}
use lumi_eggcracker.Broker.Library.{Library}
use lumi_eggcracker.Broker.Claims.{max_journal_events, text_at, bytes_eq, hex64}
use lumi_eggcracker.Broker.Requests.{parse_canonical_json}
use lumi_eggcracker.Broker.State.{State}
use lumi_eggcracker.Broker.Replay.{
  replay_event, replay_dataset, replay_run, replay_admitted, replay_dispatched, replay_rejected,
  replay_revoked, admission_matches, queued_item, admitted_state, dispatched_state, rejected_state,
  revoked_state,
}
use lumi_eggcracker.Broker.Journal.{
  Anchor, Disk, Entry, read_line, read_events, read_journal, replay_genesis, read_state,
  check_witness, empty_state, no_hash, line_ends, append, record_line, witness_line, record_value,
  event_value, witness_value, witness_event, max_record_bytes, max_journal_bytes, max_anchor_bytes,
}
use lumi_eggcracker.Broker.Journal.Reading.{stamped, read_state_inversion}

module _ (lib : Library) (s s' : State) (q : ℕ) (h : String) (c : ℕ) where
  replay_dataset-stamped :
      (p : Fields)
      → replay_dataset s p ≡ ok s'
      → replay_dataset (stamped lib s q h c) p ≡ ok (stamped lib s' q h c)
  unfolding replay_dataset
  replay_dataset-stamped p e = ground arith

  replay_run-stamped :
      (p : Fields)
      → replay_run s p ≡ ok s'
      → replay_run (stamped lib s q h c) p ≡ ok (stamped lib s' q h c)
  unfolding replay_run
  replay_run-stamped p e = ground arith

  replay_admitted-stamped :
      (p : Fields)
      → replay_admitted lib s p ≡ ok s'
      → replay_admitted lib (stamped lib s q h c) p ≡ ok (stamped lib s' q h c)
  unfolding replay_admitted admission_matches admitted_state
  replay_admitted-stamped p e = ground arith

  replay_dispatched-stamped :
      (p : Fields)
      → replay_dispatched lib s p ≡ ok s'
      → replay_dispatched lib (stamped lib s q h c) p ≡ ok (stamped lib s' q h c)
  unfolding replay_dispatched queued_item dispatched_state
  replay_dispatched-stamped p e = ground arith

  replay_rejected-stamped :
      (p : Fields)
      → replay_rejected lib s p ≡ ok s'
      → replay_rejected lib (stamped lib s q h c) p ≡ ok (stamped lib s' q h c)
  unfolding replay_rejected queued_item rejected_state
  replay_rejected-stamped p e = ground arith

  replay_revoked-stamped :
      (p : Fields)
      → replay_revoked s p ≡ ok s'
      → replay_revoked (stamped lib s q h c) p ≡ ok (stamped lib s' q h c)
  unfolding replay_revoked revoked_state
  replay_revoked-stamped p e = ground arith

pub replay_event-stamped :
    (lib : Library) (s s' : State) (q : ℕ) (h : String) (c : ℕ) (kind : String) (p : Fields)
    → replay_event lib s kind p ≡ ok s'
    → replay_event lib (stamped lib s q h c) kind p ≡ ok (stamped lib s' q h c)
unfolding replay_event
replay_event-stamped lib s s' q h c kind p e = ground (
  arith,
  replay_dataset-stamped lib s s' q h c p,
  replay_run-stamped lib s s' q h c p,
  replay_admitted-stamped lib s s' q h c p,
  replay_dispatched-stamped lib s s' q h c p,
  replay_rejected-stamped lib s s' q h c p,
  replay_revoked-stamped lib s s' q h c p,
)

-- What hashlib and hmac document: their hexadecimal digests have 64 digits.
pub record DigestLaws (lib : Library) : Type 0 where
  pub hmac_hex : (raw : List ℕ) → hex64 (lib.hmac raw) ≡ true
  pub sha256_hex : (raw : List ℕ) → hex64 (lib.sha256 raw) ≡ true

-- A dict that json reads back from its own canonical bytes, which fit and end a line.
pub record ReadsBack (lib : Library) (maximum : ℕ) (v : Value) : Type 0 where
  pub same : lib.loads (lib.dumps v) ≡ some v
  pub nonempty : 1 ≤ length (lib.dumps v)
  pub fits : length (lib.dumps v) ≤ maximum
  pub ends : line_ends (lib.dumps v) ≡ true

pub bytes_eq_refl : (xs : List ℕ) → bytes_eq xs xs ≡ true
unfolding bytes_eq
bytes_eq_refl [] = refl
bytes_eq_refl (x ∷ xs) = ground (arith, bytes_eq_refl xs)

pub parse_canonical-dumps :
    (lib : Library) (fs : Fields) (maximum : ℕ)
    → ReadsBack lib maximum (obj fs)
    → parse_canonical_json lib (lib.dumps (obj fs)) maximum ≡ ok fs
unfolding parse_canonical_json
parse_canonical-dumps lib fs maximum r =
    ground (arith, r.same, r.nonempty, r.fits, bytes_eq_refl (lib.dumps (obj fs)))

pub all_append :
    (p : List ℕ → Bool) (xs : List (List ℕ)) (x : List ℕ)
    → all p xs ≡ true
    → p x ≡ true
    → all p (xs ++ x ∷ []) ≡ true
all_append p [] x h k = ground arith
all_append p (y ∷ ys) x h k = ground (arith, all_append p ys x)

pub sum_by_append :
    (xs : List (List ℕ)) (x : List ℕ) → sum_by length (xs ++ x ∷ []) ≡ sum_by length xs + length x
sum_by_append [] x = omega arith
sum_by_append (y ∷ ys) x = omega (arith, sum_by_append ys x)
