-- ===== src/Broker/Journal.antt =====
-- The durable journal and its witness (src/lumi_eggcracker/brokered/operator.py, lines 692-882): reading authenticates
-- a hash chain of records and replays it; appending writes one record and reads everything again.
pub mod Reading
pub mod Appending
pub mod Induction
pub mod Refinement
use lumi_eggcracker.Base.{
  ℕ, zero, suc, ◌+◌, ◌-◌, String, Bool, true, false, not, ◌&&◌, ◌||◌, Option, none, some, List, [],
  ◌∷◌, ◌++◌, leb, ltb, ◌==◌, if◌then◌else◌, str_eq, length, sum_by, all, Result, ok, err, ◌>>=◌,
  ◌>>◌, require, or_raise, or_message,
}
use lumi_eggcracker.Json.{
  Value, int, pos, str, obj, Fields, end, field, get, same_keys, as_nat, is_int, is_text, is_the,
}
use lumi_eggcracker.Broker.Library.{Library}
use lumi_eggcracker.Broker.Claims.{hex64, text_at, nat_at, max_journal_events}
use lumi_eggcracker.Broker.Requests.{parse_canonical_json}
use lumi_eggcracker.Broker.State.{State}
use lumi_eggcracker.Broker.Replay.{replay_event}

abbrev pub anchor_schema : String
anchor_schema = "lumi-eggcracker.brokered-anchor.v1"

abbrev pub witness_schema : String
witness_schema = "lumi-eggcracker.brokered-witness.v1"

abbrev pub max_anchor_bytes : ℕ
max_anchor_bytes = 4096

abbrev pub max_journal_bytes : ℕ
max_journal_bytes = 4194304

abbrev pub max_record_bytes : ℕ
max_record_bytes = 16384

-- `"0" * 64`
abbrev pub no_hash : String
no_hash = "0000000000000000000000000000000000000000000000000000000000000000"

-- What identifies the store: its name, and the device and inode of the anchor file.
pub record Anchor : Type 0 where
  pub store_id : String
  pub device : ℕ
  pub inode : ℕ

-- The journal, as its lines with their ends, and the witness file.
pub record Disk : Type 0 where
  pub journal : List (List ℕ)
  pub witness : List ℕ

-- `line.endswith(b"\n") and not line.endswith(b"\r\n")`
unfoldable pub line_ends : List ℕ → Bool
line_ends [] = false
line_ends (c ∷ []) = c == 10
line_ends (c ∷ d ∷ []) = d == 10 && not (c == 13)
line_ends (c ∷ d ∷ e ∷ cs) = line_ends (d ∷ e ∷ cs)

abbrev pub payload_dict : Option Value → Option Fields
payload_dict (some (obj fs)) = some fs
payload_dict _ = none

abbrev pub is_dict : Option Value → Bool
is_dict (some (obj fs)) = true
is_dict _ = false

abbrev is_number : ℕ → Option Value → Bool
is_number n v = elim (as_nat v) [ none ↦ false | some m ↦ m == n ]

-- the event that a record authenticates
abbrev pub event_value : String → Fields → String → ℕ → Value
event_value kind payload prev seq = obj (
    field "kind" (str kind)
      (field "payload" (obj payload) (field "prev" (str prev) (field "seq" (int (pos seq)) end))))

abbrev pub record_value : String → String → Fields → String → ℕ → Value
record_value kind mac payload prev seq = obj (
    field "kind" (str kind) (
      field "mac" (str mac) (
        field "payload" (obj payload) (field "prev" (str prev) (field "seq" (int (pos seq)) end)))))

abbrev pub witness_event : String → ℕ → String → Value
witness_event journal_sha256 seq store_id = obj (
    field "journal_sha256" (str journal_sha256) (
      field "schema_version" (str witness_schema)
        (field "seq" (int (pos seq)) (field "store_id" (str store_id) end))))

abbrev pub witness_value : String → String → ℕ → String → Value
witness_value journal_sha256 mac seq store_id = obj (
    field "journal_sha256" (str journal_sha256) (
      field "mac" (str mac) (
        field "schema_version" (str witness_schema)
          (field "seq" (int (pos seq)) (field "store_id" (str store_id) end)))))

-- A record that passed the tests on its shape and its place in the chain.
pub record Entry : Type 0 where
  pub kind : String
  pub payload : Fields

-- the state that `_replay_genesis` starts from; `last_hash` is set when the reading ends
unfoldable pub empty_state : Anchor → State
empty_state anchor = record {
  store_id = anchor.store_id;
  last_seq = 0;
  last_hash = no_hash;
  record_count = 1;
  runs = [];
  queues = [];
  operation_ids = [];
  applied_operation_ids = [];
  pending_bytes = 0;
  effect_count = 0;
  service_dataset = none;
  results = [];
}

module _ (lib : Library) where
  -- one line of the journal: parsed, in its place, and authenticated
  unfoldable pub read_line : ℕ → String → List ℕ → Result Entry
  read_line expected_seq prior_hash line = do
    fs ← or_message (parse_canonical_json lib line max_record_bytes) "durable journal is malformed"
    require (same_keys fs ("kind" ∷ "mac" ∷ "payload" ∷ "prev" ∷ "seq" ∷ []))
        "durable journal record schema is invalid"
    require
        (is_number expected_seq (get "seq" fs)
          && is_the prior_hash (get "prev" fs)
          && is_text (λ s. true) (get "kind" fs)
          && is_text hex64 (get "mac" fs)
          && is_dict (get "payload" fs))
        "durable journal chain is invalid"
    payload ← or_raise (payload_dict (get "payload" fs)) "durable journal chain is invalid"
    require
        (str_eq (text_at "mac" fs)
          (lib.hmac (lib.dumps (event_value (text_at "kind" fs) payload prior_hash expected_seq))))
        "durable journal authentication failed"
    ok (record { kind = text_at "kind" fs; payload = payload })

  -- the loop over the records after the first; yields the state and the hash of the last line
  unfoldable pub read_events : List (List ℕ) → ℕ → String → State → Result (State × String)
  read_events [] seq prior_hash s = ok (s, prior_hash)
  read_events (line ∷ rest) seq prior_hash s = do
    entry ← read_line seq prior_hash line
    s' ← replay_event lib s entry.kind entry.payload
    read_events rest (suc seq) (lib.sha256 line) s'

  -- `_replay_genesis`
  unfoldable pub replay_genesis : Anchor → Entry → Result State
  replay_genesis anchor entry = do
    require
        (str_eq entry.kind "GENESIS"
          && same_keys entry.payload
              ("anchor_device" ∷ "anchor_inode" ∷ "schema_version" ∷ "store_id" ∷ [])
          && is_number anchor.device (get "anchor_device" entry.payload)
          && is_number anchor.inode (get "anchor_inode" entry.payload)
          && is_the anchor_schema (get "schema_version" entry.payload)
          && is_the anchor.store_id (get "store_id" entry.payload)
          && is_int 1 (get "anchor_inode" entry.payload))
        "durable journal genesis identity is invalid"
    ok (empty_state anchor)

  -- the whole journal, from the genesis record
  unfoldable pub read_journal : Anchor → List (List ℕ) → Result (State × String)
  unfolding replay_genesis
  read_journal anchor [] = err "durable journal is malformed"
  read_journal anchor (line ∷ rest) = do
    entry ← read_line 0 no_hash line
    s ← replay_genesis anchor entry
    read_events rest 1 (lib.sha256 line) s

  -- the witness names the last record of the journal
  unfoldable pub check_witness : Anchor → List ℕ → ℕ → String → Result (Unit {0})
  check_witness anchor raw seq hash = do
    fs ← or_message (parse_canonical_json lib raw max_anchor_bytes) "durable witness is malformed"
    require (same_keys fs ("journal_sha256" ∷ "mac" ∷ "schema_version" ∷ "seq" ∷ "store_id" ∷ []))
        "durable witness schema is invalid"
    require
        (is_the witness_schema (get "schema_version" fs)
          && is_the anchor.store_id (get "store_id" fs)
          && is_number seq (get "seq" fs)
          && is_text hex64 (get "journal_sha256" fs)
          && is_the hash (get "journal_sha256" fs)
          && is_text hex64 (get "mac" fs)
          && is_the (lib.hmac (lib.dumps (witness_event hash seq anchor.store_id))) (get "mac" fs))
        "durable monotonic witness does not match journal"

  -- `_read_state`
  unfoldable pub read_state : Anchor → Disk → Result State
  unfolding line_ends
  read_state anchor disk = do
    require
        (leb 1 (sum_by length disk.journal) && leb (sum_by length disk.journal) max_journal_bytes)
        "durable state size is invalid"
    require (all line_ends disk.journal) "durable journal is malformed"
    (s, hash) ← read_journal anchor disk.journal
    check_witness anchor disk.witness (length disk.journal - 1) hash
    ok (record s {
      last_seq = length disk.journal - 1;
      last_hash = hash;
      record_count = length disk.journal;
    })

  -- the line that `_append` writes
  unfoldable pub record_line : String → Fields → String → ℕ → List ℕ
  record_line kind payload prev seq = lib.dumps (
      record_value kind (lib.hmac (lib.dumps (event_value kind payload prev seq))) payload prev seq)

  -- the bytes that `_write_witness` writes
  unfoldable pub witness_line : Anchor → ℕ → String → List ℕ
  witness_line anchor seq hash = lib.dumps (
      witness_value hash (lib.hmac (lib.dumps (witness_event hash seq anchor.store_id))) seq
        anchor.store_id)

  -- `_append`: what was written stays written also where the reading after it raises
  unfoldable pub append : Anchor → State → String → Fields → Disk → Result State × Disk
  append anchor s kind payload disk =
      let line = record_line kind payload s.last_hash (s.last_seq + 1) in
      let disk' : Disk = record {
        journal = disk.journal ++ line ∷ [];
        witness = witness_line anchor (s.last_seq + 1) (lib.sha256 line);
      } in
      if not (ltb s.record_count max_journal_events)
      then (err "durable journal event budget is exhausted", disk)
      else if not (leb (sum_by length disk.journal + length line) max_journal_bytes)
      then (err "durable journal capacity is exhausted", disk)
      else (read_state anchor disk', disk')
