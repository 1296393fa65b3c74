-- ===== src/Watchdog/Tests.antt =====
-- The watchdog at concrete turns.
use lumi_eggcracker.Base.{
  ℕ, ◌≤◌, ◌≡◌, refl, true, false, none, some, [], ◌∷◌, ◌++◌, length, first, later, arith,
}
use lumi_eggcracker.Watchdog.Containment.{
  Cgroup, events, unreadable, fail_closed, target_report, kill_target, poll, final_report,
  EmptyShown, fail_closed-terminated,
}
use lumi_eggcracker.Watchdog.Heartbeat.{
  Watchdog, new_watchdog, Turn, timed_out, datagram, receive, check, check_heartbeat, turn, serve,
  supervisor_heartbeat_lost,
}
use lumi_eggcracker.Watchdog.Silence.{Warranted, turn-Warranted, silence-fires}

-- a cgroup that empties at the second reading, and one that is collected
abbrev emptied : Cgroup
emptied = record {
  path = "a";
  has_freeze = true;
  freeze_written = true;
  kill_written = true;
  polls = events (some 1) ∷ events (some 0) ∷ [];
  last_poll = events none;
}

abbrev gone : Cgroup
gone = record {
  path = "b";
  has_freeze = false;
  freeze_written = false;
  kill_written = true;
  polls = [];
  last_poll = unreadable false;
}

fail_closed-terminated_example : (gone.kill_written ≡ true) × EmptyShown gone gone.polls
unfolding fail_closed target_report kill_target poll final_report
fail_closed-terminated_example =
    fail_closed-terminated (emptied ∷ gone ∷ []) gone refl (later first)

abbrev quiet : ℕ → Turn
quiet now = record {
  received = timed_out;
  at_reception = now;
  now = now;
  intact = true;
  after = now;
}

turn-Warranted_example :
    (v : Watchdog) × (receive (new_watchdog 0 0) timed_out 30000001 ≡ some v)
    × Warranted v (quiet 30000001) supervisor_heartbeat_lost
unfolding turn receive check check_heartbeat
turn-Warranted_example =
    turn-Warranted (new_watchdog 0 0) (quiet 30000001) supervisor_heartbeat_lost refl

silence-fires_example :
    1
    ≤ length
        (serve (new_watchdog 0 0) ((quiet 250000 ∷ quiet 500000 ∷ []) ++ quiet 30250000 ∷ [])).1
silence-fires_example =
    silence-fires (new_watchdog 0 0) (quiet 250000 ∷ quiet 500000 ∷ []) (quiet 30250000)
      (refl, (refl, _)) refl (omega arith) (omega arith)

-- a datagram of the wrong size, long after the last heartbeat
abbrev stray : Turn
stray = record {
  received = datagram (some 0) (1 ∷ []);
  at_reception = 90000000;
  now = 90000000;
  intact = false;
  after = 90000000;
}
