-- ===== src/Watchdog/Silence.antt =====
-- When the watchdog fails closed (src/lumi_eggcracker/watchdog.py, lines 214-251).
use lumi_eggcracker.Base.{
  ℕ, ◌-◌, ◌≤◌, ◌<◌, ◌≡◌, ◌≢◌, refl, false, none, some, List, [], ◌∷◌, ◌++◌, leb, length, All, arith,
  Bool-cases, Option-cases, inl, inr,
}
use lumi_eggcracker.Watchdog.Heartbeat.{
  Watchdog, timed_out, receive, check, check_heartbeat, turn, Turn, serve, Trigger,
  installation_digest_mismatch, supervisor_heartbeat_lost, startup_grace, heartbeat_timeout,
  integrity_interval,
}

-- What a trigger shows of the turn on which it fired.
abbrev pub Warranted : Watchdog → Turn → Trigger → Type 0
Warranted w t installation_digest_mismatch = t.intact ≡ false
Warranted w t supervisor_heartbeat_lost =
    (heartbeat_timeout < t.now - w.last_heartbeat) × (startup_grace ≤ t.now - w.started)

check_heartbeat-Warranted :
    (w v : Watchdog) (t : Turn) (trigger : Trigger) (now after : ℕ)
    → now ≡ t.now
    → v.last_heartbeat ≡ w.last_heartbeat
    → v.started ≡ w.started
    → (check_heartbeat v now after).1 ≡ some trigger
    → Warranted w t trigger
unfolding check_heartbeat
check_heartbeat-Warranted w v t installation_digest_mismatch now after n l s h = ground (arith, h)
check_heartbeat-Warranted w v t supervisor_heartbeat_lost now after n l s h =
    (ground (arith, h, n, l, s), ground (arith, h, n, l, s))

check-Warranted :
    (w : Watchdog) (t : Turn) (trigger : Trigger)
    → (check w t.now t.intact t.after).1 ≡ some trigger
    → Warranted w t trigger
unfolding check
check-Warranted w t trigger h =
    elim (Bool-cases (leb integrity_interval (t.now - w.last_integrity_check))) [
      | inr e ↦
          check_heartbeat-Warranted w w t trigger t.now t.after refl refl refl
            (ground (arith, e, h))
      | inl e ↦ elim (Bool-cases t.intact) [
        | inl whole ↦
            check_heartbeat-Warranted w (record w { last_integrity_check = t.now }) t trigger t.now
              t.after refl refl refl (ground (arith, e, whole, h))
        | inr broken ↦
            (let same : installation_digest_mismatch ≡ trigger = ground (arith, e, broken, h) in
              rw (← same) broken)
      ]
    ]

-- The watchdog fails closed on a turn only if the installation is not intact, or if more than the
-- timeout has passed since the last heartbeat that it accepted, this turn's included, and the
-- startup grace is over.
pub turn-Warranted :
    (w : Watchdog) (t : Turn) (trigger : Trigger)
    → (turn w t).1 ≡ some trigger
    → (v : Watchdog) × (receive w t.received t.at_reception ≡ some v) × Warranted v t trigger
unfolding turn
turn-Warranted w t trigger h = elim (Option-cases (receive w t.received t.at_reception)) [
  | inl e ↦ absurd (ground (arith, e, h))
  | inr (v, e) ↦ (v, e, check-Warranted v t trigger (ground (arith, e, h)))
]

-- Without a reception, a turn on which the heartbeat is overdue after the grace fires.
turn-fires :
    (w : Watchdog) (t : Turn)
    → t.received ≡ timed_out
    → startup_grace ≤ t.now - w.started
    → heartbeat_timeout < t.now - w.last_heartbeat
    → (turn w t).1 ≢ none
unfolding turn receive check check_heartbeat
turn-fires w t quiet grace late h = ground (arith, quiet, grace, late, h)

turn-quiet :
    (w : Watchdog) (t : Turn)
    → t.received ≡ timed_out
    → (turn w t).1 ≡ none
    → ((turn w t).0.last_heartbeat ≡ w.last_heartbeat) × ((turn w t).0.started ≡ w.started)
unfolding turn receive check check_heartbeat
turn-quiet w t quiet h = (ground (arith, quiet, h), ground (arith, quiet, h))

-- the loop after a turn
serve-quiet :
    (w : Watchdog) (t : Turn) (ts : List Turn)
    → (turn w t).1 ≡ none
    → (serve w (t ∷ ts)).1 ≡ (serve (turn w t).0 ts).1
unfolding serve
serve-quiet w t ts h = ground (arith, h)

serve-fired :
    (w : Watchdog) (t : Turn) (ts : List Turn) (trigger : Trigger)
    → (turn w t).1 ≡ some trigger
    → 1 ≤ length (serve w (t ∷ ts)).1
unfolding serve
serve-fired w t ts trigger h = ground (arith, h)

abbrev pub Silent : Turn → Type 0
Silent t = t.received ≡ timed_out

-- If nothing is received, then by the first turn on which more than the timeout has passed since the
-- last accepted heartbeat, and the startup grace is over, the loop has failed closed.
pub silence-fires :
    (w : Watchdog) (ts : List Turn) (t : Turn)
    → All Silent ts
    → Silent t
    → startup_grace ≤ t.now - w.started
    → heartbeat_timeout < t.now - w.last_heartbeat
    → 1 ≤ length (serve w (ts ++ t ∷ [])).1
silence-fires w [] t quiet q grace late = elim (Option-cases (turn w t).1) [
  | inl e ↦ absurd (turn-fires w t q grace late e)
  | inr (trigger, e) ↦ serve-fired w t [] trigger e
]
silence-fires w (s ∷ ts) t (p, quiet) q grace late = elim (Option-cases (turn w s).1) [
  | inr (trigger, e) ↦ serve-fired w s (ts ++ t ∷ []) trigger e
  | inl e ↦
      (let (heartbeat, started) = turn-quiet w s p e in
        rw (serve-quiet w s (ts ++ t ∷ []) e)
          (silence-fires (turn w s).0 ts t quiet q (rw started grace) (rw heartbeat late)))
]

-- A turn whose datagram the loop drops.
abbrev pub Dropped : Watchdog → Turn → Type 0
Dropped w t = receive w t.received t.at_reception ≡ none
