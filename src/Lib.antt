-- ===== src/Lib.antt =====
-- Verification library of Lumi Eggcracker, a root-owned supervisor that approves, watches and stops
-- local AI workloads, with a brokered operator and a human-stop controller beside it.
--
-- The program's parts and how they interact:
-- - The brokered operator (src/lumi_eggcracker/brokered/operator.py) keeps a journal of canonical
--   JSON lines, chained by SHA-256, signed by HMAC, with a witness file that names the last line.
--   Every call reads the journal from its start, decides, and appends at most one record; the first
--   grant of the service appends the private dataset and then the run.
-- - The broker's local IPC (src/lumi_eggcracker/brokered/linux_ipc.py) gives a workload of another
--   user three calls of the operator, as canonical messages of bounded size that both sides check.
-- - The human-stop controller (experiments/human_override/model.py) keeps a durable latch for each
--   of two allocations, and changes its world only after the new state is stored.
-- - The detector catalogue (src/lumi_eggcracker/detectors.py) says which evidence names a workload.
-- - Launch provenance (src/lumi_eggcracker/launches.py) ties a process to the approval that admitted
--   it and to a cgroup, whose identity and emptiness src/lumi_eggcracker/containment.py tests.
-- - The observation store (src/lumi_eggcracker/observation.py) keeps a bounded set of recent
--   sightings and spreads the reading of descriptors over the scans.
-- - The incident store (src/lumi_eggcracker/incidents.py) keeps one file for each suspicious
--   executable, links the later receipts to it and drops the oldest cleared files.
-- - The supervisor (src/lumi_eggcracker/supervisor.py) joins the processes that have evidence into
--   groups of related ones, on which it decides and which it stops.
-- - The watchdog (src/lumi_eggcracker/watchdog.py) kills every owned cgroup when the supervisor's
--   heartbeat stops or the installation changes.
--
-- The files:
-- - Base and its children: the library's names passed on, Boolean tests on the native numbers,
--   lists and their members, texts, results that carry the exception's message, and dicts as association lists.
-- - Json: parsed JSON values. An integer is `pos n` or `negsuc n`, and a Boolean is a value of its
--   own, as `type(v) is int` has it.
-- - Broker.Library: json, hashlib, hmac and base64, which the broker calls, as a record of
--   functions.
-- - Broker.Claims: `_validate_claims`. Broker.Requests: `_validate_request`, `_decode_capability`.
--   Broker.State: the dataclasses `_Queue`, `_Run`, `_State` and the service dataset. Broker.Replay:
--   `_replay_event`, one function for each kind of record. Broker.Journal: `_read_state`, `_append`,
--   the witness. Broker.Calls: receipts, grants, denials. Broker.Operator: `admit`, `_dispatch`,
--   `_revoke`, `_register_run`, `world_snapshot`. Broker.Spec: the abstract machine that the journal
--   refines (Replay.Refinement, Journal.Refinement). Broker.Service: the service's grant and
--   results. The children of Replay, Journal and Operator have the proofs, Broker.Tests two small
--   stores.
-- - Broker.Ipc.Validators, Messages: the validators of requests, receipts, reports and responses.
--   Broker.Ipc.Handler: `handle_packet`, the client's bytes. Broker.Ipc.Allowed, Receipts, Reports,
--   Sent, Accepted, Answers, Exchange: that what the service answers is what the client accepts.
-- - HumanStop.Limits: `bounded_json`. HumanStop.State and HumanStop.Storage: the dataclasses, the
--   state file. HumanStop.World: effects, observer, status. HumanStop.Controller: `command` and the
--   other operations. HumanStop.Steps, Observer, Latch, Launch, Reload: one call as a step, what
--   steps keep, and the state file read back.
-- - Detectors.Catalogue: `load_catalogue`. Detectors.Matching: `match`. Detectors.Evidence and
--   Detectors.Strict: what a match shows.
-- - Launches.Identity: `validate_identity`. Launches.Readings: `_events`, `_survivors`, `_collected`
--   and which errors are taken for a cgroup that is gone. Launches.Verifying: `verify_empty`.
--   Launches.Signs and Launches.Emptiness: what a complete proof rests on. Launches.Provenance:
--   `validate`, `approval_is_active`, `authorizes`. Launches.Active and Launches.Exact: what keeps a
--   launch approved, and what it can authorize.
-- - Observing.Store: `ObservationStore`. Observing.Window: `fair_window`. Observing.Trimming, Expiry
--   and Coverage: bounds, freshness, and that every descriptor is read in turn.
-- - Incidents.Nested, Validity: the validators of a record. Incidents.Store: `load_all`, `compact`,
--   `_write`. Incidents.Lifecycle: `create`, `update`, `link`, `find_match`. Incidents.Parts,
--   Loading, Sample, Linking, Creation, Suppression, Removal, Age, Compaction: the proofs, by what
--   they prove. Incidents.Beyond: a store of 257 records, with one that goes.
-- - Supervisor.Candidates: `_related`, `_owned_cgroup`. Supervisor.Sets: `_correlate`, a union-find.
--   Supervisor.Forest, Chains, Joining, Groups, Correlation, Accounts: that it ends, that its groups
--   are the classes of related processes, and which processes it can join.
-- - Watchdog.Containment: `_kill_target`, `_fail_closed`. Watchdog.Heartbeat: a turn of `serve`.
--   Watchdog.Silence: when the loop fails closed.
--
-- How the code is read. A call that raises answers `err` with the exception's message; the code's
-- early returns are branches in its order. A disk is the lines of the journal and the bytes of the
-- witness, and stays written where the reading after a write raises. Clock readings, random
-- identifiers and the answers of the kernel or the file system are arguments. Numbers of the program
-- are natural numbers without a bound, as Python's are; times of the watchdog are in microseconds.
-- The loops run over lists, and the journal's loop over its lines; only the search for the root of a
-- set takes fuel, as many rounds as there are candidates, which Supervisor.Correlation proves enough.
--
-- Hypotheses on the libraries: hexadecimal digests have 64 digits (DigestLaws), a dict is read back
-- from its canonical bytes (ReadsBack), base64 decodes what it encoded. What a theorem on messages
-- needs is asked of the message that is sent (Reads). The decoding of a capability's bytes to text is
-- a parameter of the IPC handler, and the order in which Python reads a set one of the supervisor's
-- correlation. In the incident store the digest of a record is a parameter, and a
-- file that `_write` wrote is read back as the dict it was given. The tests give values where
-- the hypotheses hold.
--
-- What is not modelled: file descriptors, locks and file identities, processes and /proc; the IPC's
-- socket, its directory and its accept loop; the fingerprint of the incident files; the bootstrap of a
-- store; the service dataset's random records; the supervisor's lifecycle and its requests, the
-- approvals' and artifacts' hashing, receipts' validators and the command line.
pub mod Base
pub mod Json
pub mod Broker
pub mod HumanStop
pub mod Detectors
pub mod Incidents
pub mod Observing
pub mod Watchdog
pub mod Launches
pub mod Supervisor
