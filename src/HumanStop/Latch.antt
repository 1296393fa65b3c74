-- ===== src/HumanStop/Latch.antt =====
-- The durable latch and the launches (experiments/human_override/model.py, lines 195-331).
use lumi_eggcracker.Base.{
  ℕ, ◌+◌, String, ◌≡◌, refl, ap, Bool, true, false, not, ◌&&◌, ◌||◌, Option, some, List, [], ◌∷◌,
  ◌++◌, ◌==◌, arith, Bool-cases, inl, inr, ◌⊎◌, ◌∙◌,
}
use lumi_eggcracker.Json.{Value}
use lumi_eggcracker.HumanStop.Limits.{max_integer}
use lumi_eggcracker.HumanStop.State.{
  Op, approve, start, stop, reset, Key, key_a, key_b, Pair, at, put, Allocation, Execution,
  Observed, unknown, running_seen, verified_stopped, Controller, new_allocation, new_execution,
  set_last,
}
use lumi_eggcracker.HumanStop.Storage.{commit, persist}
use lumi_eggcracker.HumanStop.World.{
  advance, effect, observed, is_stopped, op_row, audited, is_export,
}
use lumi_eggcracker.HumanStop.Controller.{
  adapter, observe, finish, settled, launched, cancelled, set_control, replace_allocation,
  after_commit, after_replacement, Answer,
}
use lumi_eggcracker.HumanStop.Steps.{
  Step, ticked, acted, commanded, controlled, replaced, adapted, sampled, Passed, command-Passed,
}

-- Two allocations are the same, or what is put at one leaves the other.
abbrev pub Apart : Key → Key → Type 1
Apart k j = (A : Type 0) (x : A) (p : Pair A) → at k (put j x p) ≡ at k p

pub key-cases : (k j : Key) → (k ≡ j) ⊎ Apart k j
key-cases key_a key_a = inl refl
key-cases key_a key_b = inr (λ A x p. refl)
key-cases key_b key_a = inr (λ A x p. refl)
key-cases key_b key_b = inl refl

at-put : (k : Key) {A : Type 0} (x : A) (p : Pair A) → at k (put k x p) ≡ x
at-put key_a x p = refl
at-put key_b x p = refl

-- The latch stays, with its epoch, and nothing is launched.
pub record Held (k : Key) (c c' : Controller) : Type 0 where
  pub latched : (at k c'.allocations).latched ≡ true
  pub epoch : (at k c'.allocations).epoch ≡ (at k c.allocations).epoch
  pub launches : (at k c'.executions).launches ≡ (at k c.executions).launches

-- The latch is taken off in the next epoch, with no approval left, over a verified stop.
pub record Released (k : Key) (c c' : Controller) : Type 0 where
  pub latched : (at k c'.allocations).latched ≡ false
  pub approved : (at k c'.allocations).approved ≡ false
  pub epoch : (at k c'.allocations).epoch ≡ (at k c.allocations).epoch + 1
  pub stopped : observed k c ≡ verified_stopped
  pub launches : (at k c'.executions).launches ≡ (at k c.executions).launches

is_stopped_iff : (o : Observed) → is_stopped o ≡ true → o ≡ verified_stopped
is_stopped_iff unknown h = cc
is_stopped_iff running_seen h = cc
is_stopped_iff verified_stopped h = refl

-- what an operation makes of a latched row
op_row_latched :
    (op : Op) (k : Key) (row row' : Allocation) (c : Controller) (result : Bool)
    → row.latched ≡ true
    → op_row op k row c ≡ some (row', result)
    → ((row'.latched ≡ true) × (row'.epoch ≡ row.epoch) × ((op ≡ start) → result ≡ false))
      ⊎ ((row'.latched ≡ false)
          × (row'.approved ≡ false)
          × (row'.epoch ≡ row.epoch + 1)
          × (observed k c ≡ verified_stopped)
          × ((op ≡ start) → result ≡ false))
unfolding op_row
op_row_latched approve k row row' c result l h =
    inl (ground (arith, l, h), ground (arith, l, h), λ e. ground (arith, l, h))
op_row_latched start k row row' c result l h =
    inl (ground (arith, l, h), ground (arith, l, h), λ e. ground (arith, l, h))
op_row_latched stop k row row' c result l h =
    inl (ground (arith, l, h), ground (arith, l, h), λ e. cc)
op_row_latched reset k row row' c result l h = elim (Bool-cases (is_stopped (observed k c))) [
  | inl e ↦ inr (
    ground (arith, l, h, e),
    ground (arith, l, h, e),
    ground (arith, l, h, e),
    is_stopped_iff (observed k c) e,
    λ e. cc,
  )
  | inr e ↦ inl (ground (arith, l, h, e), ground (arith, l, h, e), λ e. cc)
]

-- the audit entry leaves the rest of the row
abbrev SameLatch : Allocation → Allocation → Type 0
SameLatch row row' =
    (row'.latched ≡ row.latched) × (row'.epoch ≡ row.epoch) × (row'.approved ≡ row.approved)

audited-SameLatch :
    (op : Op) (result : Bool) (row : Allocation) → SameLatch row (audited op result row)
unfolding audited
audited-SameLatch op result row = (ground arith, ground arith, ground arith)

module _ (loads : List ℕ → Option Value) (dumps : Value → List ℕ) where
  -- what the end of a command does to the rows and to the executions
  pub data Ended (op : Op) (j : Key) (result : Bool) (row : Allocation) (c c' : Controller)
      : Type 0 where
    unwritten :
        c'.allocations ≡ c.allocations → c'.executions ≡ c.executions → Ended op j result row c c'
    written :
        c'.allocations ≡ put j (audited op result row) c.allocations
        → c'.executions ≡ c.executions
        → Ended op j result row c c'
    launching :
        op ≡ start
        → result ≡ true
        → c'.allocations ≡ put j (audited op result row) c.allocations
        → c'.executions ≡ put j (launched (at j c.executions)) c.executions
        → Ended op j result row c c'

  pub finish-Ended :
      (w : Bool) (op : Op) (j : Key) (result : Bool) (row : Allocation) (c c' : Controller)
      (answer : Answer)
      → finish loads dumps w op j result row c ≡ (answer, c')
      → Ended op j result row c c'
  unfolding finish commit after_commit settled
  finish-Ended w op j result row c c' answer h =
      elim (Bool-cases (persist loads dumps w (put j (audited op result row) c.allocations))) [
        | inr e ↦ unwritten (ground (arith, e, h)) (ground (arith, e, h))
        | inl e ↦ by_op op result h e
      ]
    where
      by_op :
          (op : Op) (result : Bool)
          → finish loads dumps w op j result row c ≡ (answer, c')
          → persist loads dumps w (put j (audited op result row) c.allocations) ≡ true
          → Ended op j result row c c'
      by_op approve result h e = written (ground (arith, e, h)) (ground (arith, e, h))
      by_op stop result h e = written (ground (arith, e, h)) (ground (arith, e, h))
      by_op reset result h e = written (ground (arith, e, h)) (ground (arith, e, h))
      by_op start false h e = written (ground (arith, e, h)) (ground (arith, e, h))
      by_op start true h e = launching refl refl (ground (arith, e, h)) (ground (arith, e, h))

  -- the rows and the executions, where a step leaves them
  same-Held :
      (k : Key) (c c' : Controller)
      → (at k c.allocations).latched ≡ true
      → at k c'.allocations ≡ at k c.allocations
      → (at k c'.executions).launches ≡ (at k c.executions).launches
      → Held k c c'
  same-Held k c c' l rows runs = record {
    latched = rw rows l;
    epoch = rw rows refl;
    launches = runs;
  }

  other-Held :
      (k j : Key) (op : Op) (result : Bool) (row : Allocation) (c c' : Controller)
      → Apart k j
      → (at k c.allocations).latched ≡ true
      → Ended op j result row c c'
      → Held k c c'
  other-Held k j op result row c c' apart l (unwritten rows runs) =
      same-Held k c c' l (ap (at k) rows) (rw runs refl)
  other-Held k j op result row c c' apart l (written rows runs) =
      same-Held k c c' l (rw (rows, apart Allocation (audited op result row) c.allocations) refl)
        (rw runs refl)
  other-Held k j op result row c c' apart l (launching o r rows runs) =
      same-Held k c c' l (rw (rows, apart Allocation (audited op result row) c.allocations) refl)
        (rw (runs, apart Execution (launched (at j c.executions)) c.executions) refl)

  own_latch :
      (k : Key) (op : Op) (result : Bool) (start_row row : Allocation) (c c' : Controller)
      → SameLatch (at k c.allocations) start_row
      → (at k c.allocations).latched ≡ true
      → op_row op k start_row c ≡ some (row, result)
      → Ended op k result row c c'
      → Held k c c' ⊎ Released k c c'
  own_latch k op result start_row row c c' same l h (unwritten rows runs) =
      inl (same-Held k c c' l (ap (at k) rows) (rw runs refl))
  own_latch k op result start_row row c c' (sl, se, sa) l h (written rows runs) =
      let (al, ae, aa) = audited-SameLatch op result row in
      let here : at k c'.allocations ≡ audited op result row =
        rw (rows, at-put k (audited op result row) c.allocations) refl in
      elim (op_row_latched op k start_row row c result (sl ∙ l) h) [
        | inl (l', e', _) ↦ inl (record {
          latched = rw here (al ∙ l');
          epoch = rw here (ae ∙ e' ∙ se);
          launches = rw runs refl;
        })
        | inr (l', a', e', stopped, _) ↦ inr (record {
          latched = rw here (al ∙ l');
          approved = rw here (aa ∙ a');
          epoch = rw here (ae ∙ e' ∙ ap (λ n. n + 1) se);
          stopped = stopped;
          launches = rw runs refl;
        })
      ]
  own_latch k op result start_row row c c' (sl, se, sa) l h (launching o r rows runs) =
      elim (op_row_latched op k start_row row c result (sl ∙ l) h) [
        | inl (_, _, denied) ↦ absurd (ground (arith, denied o, r))
        | inr (_, _, _, _, denied) ↦ absurd (ground (arith, denied o, r))
      ]

  command-latch :
      (w : Bool) (p : String) (c c' : Controller) (k : Key) (answer : Answer)
      → (at k c.allocations).latched ≡ true
      → Passed loads dumps w p c answer c'
      → Held k c c' ⊎ Released k c c'
  command-latch w p c c' k answer l x =
      let ended = finish-Ended w x.ev.op x.ev.key x.result x.row c c' answer x.ended in
      elim (key-cases k x.ev.key) [
        | inr apart ↦ inl (other-Held k x.ev.key x.ev.op x.result x.row c c' apart l ended)
        | inl same ↦
            own_latch k x.ev.op x.result
              (record (at k c.allocations) {
                sequence = set_last x.principal x.ev.sequence (at k c.allocations).sequence;
              })
              x.row c c' (refl, refl, refl) l (rw (← same) at x.changed) (rw (← same) at ended)
      ]

  -- a step that leaves the rows, and one execution's number of launches
  quiet-Held :
      (k j : Key) (e : Execution) (c c' : Controller)
      → (at k c.allocations).latched ≡ true
      → e.launches ≡ (at j c.executions).launches
      → c'.allocations ≡ c.allocations
      → c'.executions ≡ put j e c.executions
      → Held k c c'
  quiet-Held k j e c c' l n rows runs = elim (key-cases k j) [
    | inr apart ↦
        same-Held k c c' l (ap (at k) rows) (rw (runs, apart Execution e c.executions) refl)
    | inl same ↦ same-Held k c c' l (ap (at k) rows) (rw (runs, same, at-put j e c.executions) n)
  ]

  effect-Held :
      (k j : Key) (kind : String) (r : Bool) (c c' : Controller)
      → effect j kind c ≡ some (r, c')
      → (at k c.allocations).latched ≡ true
      → Held k c c'
  unfolding effect
  effect-Held k j kind r c c' h l =
      elim (Bool-cases
        ((at j c.executions).running && (not (is_export kind) || (at j c.executions).connected))) [
          | inr e ↦ same-Held k c c' l (ap (at k) (ground (arith, e, h))) (ground (arith, e, h))
          | inl e ↦
              quiet-Held k j
                (record (at j c.executions) {
                  effects =
                      (at j c.executions).effects ++ record { kind = kind; tick = c.tick } ∷ [];
                })
                c c' l refl (ground (arith, e, h)) (ground (arith, e, h))
        ]

  adapter-Held :
      (k j : Key) (cancel fail r : Bool) (c c' : Controller)
      → adapter j cancel fail c ≡ (r, c')
      → (at k c.allocations).latched ≡ true
      → Held k c c'
  unfolding adapter
  adapter-Held k j cancel fail r c c' h l =
      elim (Bool-cases (
        not c.storage_ok
        || not (at j c.allocations).latched
        || not (at j c.allocations).control
        || fail
        || not ((at j c.allocations).generation == (at j c.executions).generation))) [
          | inl e ↦ same-Held k c c' l (ap (at k) (ground (arith, e, h))) (ground (arith, e, h))
          | inr e ↦
              quiet-Held k j (cancelled cancel (at j c.executions)) c c' l refl
                (ground (arith, e, h)) (ground (arith, e, h))
        ]

  control-Held :
      (w : Bool) (k j : Key) (b r : Bool) (c c' : Controller)
      → set_control loads dumps w j b c ≡ (r, c')
      → (at k c.allocations).latched ≡ true
      → Held k c c'
  unfolding set_control commit
  control-Held w k j b r c c' h l =
      let new = record (at j c.allocations) { control = b; approved = false } in
      elim (Bool-cases (c.storage_ok && persist loads dumps w (put j new c.allocations))) [
        | inr e ↦ same-Held k c c' l (ap (at k) (ground (arith, e, h))) (ground (arith, e, h))
        | inl e ↦
            (let rows : c'.allocations ≡ put j new c.allocations = ground (arith, e, h) in
              let runs : c'.executions ≡ c.executions = ground (arith, e, h) in
              elim (key-cases k j) [
                | inr apart ↦
                    same-Held k c c' l (rw (rows, apart Allocation new c.allocations) refl)
                      (rw runs refl)
                | inl same ↦ record {
                  latched = rw (rows, same, at-put j new c.allocations) (rw same at l);
                  epoch = rw (rows, same, at-put j new c.allocations) refl;
                  launches = rw runs refl;
                }
              ])
      ]

  replacement-Held :
      (w : Bool) (k j : Key) (r : Bool) (c c' : Controller)
      → replace_allocation loads dumps w j c ≡ (r, c')
      → (at k c.allocations).latched ≡ true
      → Held k c c'
  unfolding replace_allocation commit after_replacement
  replacement-Held w k j r c c' h l =
      let row = at j c.allocations in
      let e = at j c.executions in
      let rows = put j (new_allocation (row.generation + 1)) c.allocations in
      elim (Bool-cases (
        not c.storage_ok
        || row.latched
        || not row.control
        || e.running
        || e.remote_running
        || row.generation == max_integer)) [
          | inl stopped ↦
              same-Held k c c' l (ap (at k) (ground (arith, stopped, h)))
                (ground (arith, stopped, h))
          | inr on ↦ elim (key-cases k j) [
            | inl same ↦ absurd (ground (arith, on, rw same at l))
            | inr apart ↦ elim (Bool-cases (persist loads dumps w rows)) [
              | inr lost ↦
                  same-Held k c c' l (ap (at k) (ground (arith, on, lost, h)))
                    (ground (arith, on, lost, h))
              | inl kept ↦
                  (let kept_rows : c'.allocations ≡ rows = ground (arith, on, kept, h) in
                    let runs : c'.executions
                        ≡ put j (new_execution (row.generation + 1)) c.executions =
                      ground (arith, on, kept, h) in
                    same-Held k c c' l
                      (rw
                        (
                          kept_rows,
                          apart Allocation (new_allocation (row.generation + 1)) c.allocations,
                        )
                        refl)
                      (rw (runs, apart Execution (new_execution (row.generation + 1)) c.executions)
                        refl))
            ]
          ]
        ]

  -- A step on an allocation that is latched either leaves it latched in the same epoch and launches
  -- nothing, or takes the latch off in the next epoch, unapproved, when the observer had just
  -- verified that the allocation has stopped.
  pub Step-latch :
      (c c' : Controller) (k : Key)
      → Step loads dumps c c'
      → (at k c.allocations).latched ≡ true
      → Held k c c' ⊎ Released k c c'
  unfolding advance observe
  Step-latch c c' k (ticked n h) l =
      inl (same-Held k c c' l (ap (at k) (ground (arith, h))) (ground (arith, h)))
  Step-latch c c' k (acted j kind r h) l = inl (effect-Held k j kind r c c' h l)
  Step-latch c c' k (commanded w p v answer h) l =
      elim (command-Passed loads dumps w p v c answer c' h) [
        | inl same ↦ inl (rw (← same) (same-Held k c c l refl refl))
        | inr x ↦ command-latch w p c c' k answer l x
      ]
  Step-latch c c' k (controlled w j b r h) l = inl (control-Held w k j b r c c' h l)
  Step-latch c c' k (replaced w j r h) l = inl (replacement-Held w k j r c c' h l)
  Step-latch c c' k (adapted j cancel fail r h) l = inl (adapter-Held k j cancel fail r c c' h l)
  Step-latch c c' k (sampled j fail o h) l =
      inl (same-Held k c c' l (ap (at k) (ground (arith, h))) (ground (arith, h)))
