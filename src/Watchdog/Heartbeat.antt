-- ===== src/Watchdog/Heartbeat.antt =====
-- One turn of the loop of `Watchdog.serve` (src/lumi_eggcracker/watchdog.py, lines 20-32, 138-151
-- and 202-251). Clock readings are in microseconds.
use lumi_eggcracker.Base.{
  ℕ, ◌+◌, ◌-◌, ◌*◌, Bool, false, not, ◌&&◌, Option, none, some, List, [], ◌∷◌, leb, ltb, ◌==◌,
  if◌then◌else◌, length, take, drop, codes, codes_eq,
}

abbrev pub startup_grace : ℕ
startup_grace = 10000000

abbrev pub heartbeat_timeout : ℕ
heartbeat_timeout = 30000000

abbrev pub integrity_interval : ℕ
integrity_interval = 5000000

-- the gap after which a restarted sequence is accepted
abbrev pub restart_gap : ℕ
restart_gap = 500000

-- the size of a heartbeat, `struct.Struct("!4sIQ")`
abbrev pub heartbeat_size : ℕ
heartbeat_size = 16

-- an unsigned integer in network byte order
abbrev pub big_endian : ℕ → List ℕ → ℕ
big_endian n [] = n
big_endian n (b ∷ bs) = big_endian (n * 256 + b) bs

abbrev pub magic_of : List ℕ → List ℕ
magic_of payload = take 4 payload

abbrev pub version_of : List ℕ → ℕ
version_of payload = big_endian 0 (take 4 (drop 4 payload))

abbrev pub sequence_of : List ℕ → ℕ
sequence_of payload = big_endian 0 (drop 8 payload)

-- The state of the watchdog; a sequence of `none` is the initial -1.
pub record Watchdog : Type 0 where
  pub last_heartbeat : ℕ
  pub sequence : Option ℕ
  pub started : ℕ
  pub last_integrity_check : ℕ

-- `__init__`, by the clock's readings
abbrev pub new_watchdog : ℕ → ℕ → Watchdog
new_watchdog heartbeat started = record {
  last_heartbeat = heartbeat;
  sequence = none;
  started = started;
  last_integrity_check = 0;
}

-- What `recvmsg` answers: a timeout, or a datagram with the sender's uid where it has credentials.
pub data Received : Type 0 where
  timed_out : Received
  datagram : Option ℕ → List ℕ → Received

-- `sequence <= self.sequence`
abbrev pub not_newer : ℕ → Option ℕ → Bool
not_newer n none = false
not_newer n (some m) = leb n m

abbrev pub from_root : Option ℕ → Bool
from_root none = false
from_root (some uid) = uid == 0

-- the tests on a datagram's form
unfoldable pub well_formed : Option ℕ → List ℕ → Bool
well_formed uid payload =
    from_root uid
    && length payload == heartbeat_size
    && codes_eq (magic_of payload) (codes "LEHB")
    && version_of payload == 1

-- the state after the reception; `none` is the `continue` that drops the datagram
unfoldable pub receive : Watchdog → Received → ℕ → Option Watchdog
unfolding well_formed
receive w timed_out now = some w
receive w (datagram uid payload) now =
    if well_formed uid payload
      && not
          (not_newer (sequence_of payload) w.sequence && ltb (now - w.last_heartbeat) restart_gap)
    then some (record w { sequence = some (sequence_of payload); last_heartbeat = now })
    else none

pub data Trigger : Type 0 where
  installation_digest_mismatch supervisor_heartbeat_lost : Trigger

-- the test of the startup grace and of the timeout
unfoldable pub check_heartbeat : Watchdog → ℕ → ℕ → Watchdog × Option Trigger
check_heartbeat w now after =
    if ltb (now - w.started) startup_grace
    then (w, none)
    else if ltb heartbeat_timeout (now - w.last_heartbeat)
    then (record w { last_heartbeat = after }, some supervisor_heartbeat_lost)
    else (w, none)

-- the tests that follow a reception; `intact` is the answer of `_installation_is_intact`
unfoldable pub check : Watchdog → ℕ → Bool → ℕ → Watchdog × Option Trigger
unfolding check_heartbeat
check w now intact after =
    if leb integrity_interval (now - w.last_integrity_check)
    then (if intact then check_heartbeat (record w { last_integrity_check = now }) now after else (
      record w { last_integrity_check = now; last_heartbeat = now },
      some installation_digest_mismatch,
    ))
    else check_heartbeat w now after

-- One turn: what was received, the clock's readings, and whether the installation is intact.
pub record Turn : Type 0 where
  pub received : Received
  pub at_reception : ℕ
  pub now : ℕ
  pub intact : Bool
  pub after : ℕ

unfoldable pub turn : Watchdog → Turn → Watchdog × Option Trigger
unfolding receive check
turn w t = elim (receive w t.received t.at_reception) [
  | none ↦ (w, none)
  | some w' ↦ check w' t.now t.intact t.after
]

-- the loop, with the triggers on which it failed closed
unfoldable pub serve : Watchdog → List Turn → Watchdog × List Trigger
unfolding turn
serve w [] = (w, [])
serve w (t ∷ ts) =
    let (w', o) = turn w t in
    let (w'', rest) = serve w' ts in
    elim o [ none ↦ (w'', rest) | some trigger ↦ (w'', trigger ∷ rest) ]
