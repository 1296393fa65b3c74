-- ===== src/Broker/Operator/Dispatching.antt =====
-- `_dispatch` on the store (src/lumi_eggcracker/brokered/operator.py, lines 1175-1216).
use lumi_eggcracker.Base.{
  ℕ, ◌<◌, String, ◌≡◌, refl, true, false, Option, none, some, Result, ok, err, arith, str_eq, elem,
  Result-cases, Bool-cases, inl, inr,
}
use lumi_eggcracker.Base.Dict.{lookup}
use lumi_eggcracker.Broker.Library.{Library}
use lumi_eggcracker.Broker.Claims.{Claims}
use lumi_eggcracker.Broker.Requests.{Request, validate_request, decode_capability}
use lumi_eggcracker.Broker.State.{State, Run, Queue, queued}
use lumi_eggcracker.Broker.Journal.{Anchor, Disk, read_state}
use lumi_eggcracker.Broker.Operator.Accepted.{check_claims_inversion}
use lumi_eggcracker.Broker.Calls.{Receipt, dispatch_denial}
use lumi_eggcracker.Broker.Operator.{
  settle, dispatch_run, dispatch_claims, dispatch_request, dispatch_item, dispatch_found, owned,
  dispatch_expecting, reading, check_claims,
}

-- What an applied effect shows of the state that the dispatch read: the item was open, and at that
-- moment its run was live, in time and inside its budget.
pub record EffectAllowed (lib : Library) (anchor : Anchor) (now_ms : ℕ) (q : String) (s : State)
    : Type 0 where
  pub item : Queue
  pub run : Run
  pub request : Request
  pub claims : Claims
  pub found : lookup q s.queues ≡ some item
  pub waiting : item.status ≡ queued
  pub of_run : lookup item.run_id s.runs ≡ some run
  pub same_bytes : str_eq (lib.sha256 item.request_bytes) item.request_sha256 ≡ true
  pub canonical : validate_request lib item.request_bytes ≡ ok request
  pub signed : decode_capability lib request.capability ≡ some claims
  pub live : run.revoked ≡ false
  pub current : run.generation ≡ claims.generation
  pub in_time : now_ms < claims.expires_at_ms
  pub in_budget : run.applied < claims.max_actions
  pub first : elem item.operation_id s.applied_operation_ids ≡ false

module _ (lib : Library) (anchor : Anchor) (s : State) (now_ms : ℕ) (q : String) (item : Queue)
    (disk : Disk) (r : Receipt) where
  settle_effect :
      (run : Run) (denial : Option String)
      → (settle lib anchor s q item run denial disk).0 ≡ ok r
      → r.effect_applied ≡ true
      → denial ≡ none
  unfolding settle
  settle_effect run none h e = refl
  settle_effect run (some reason) h e = ground (arith, h)

  dispatch_run_effect :
      (request : Request) (claims : Claims) (o : Option Run)
      → (dispatch_run lib anchor s now_ms q item request claims o disk).0 ≡ ok r
      → r.effect_applied ≡ true
      → (run : Run) × (o ≡ some run) × (dispatch_denial s now_ms claims run item ≡ none)
  unfolding dispatch_run
  dispatch_run_effect request claims none h e = cc
  dispatch_run_effect request claims (some run) h e =
      (run, refl, ground (arith, settle_effect run (dispatch_denial s now_ms claims run item)))

  dispatch_claims_effect :
      (request : Request) (o : Option (Claims × Run))
      → (dispatch_claims lib anchor s now_ms q item request o disk).0 ≡ ok r
      → r.effect_applied ≡ true
      → (c : Claims) × (other : Run) × (run : Run) × (o ≡ some (c, other))
        × (lookup item.run_id s.runs ≡ some run)
        × (dispatch_denial s now_ms c run item ≡ none)
  unfolding dispatch_claims
  dispatch_claims_effect request none h e = cc
  dispatch_claims_effect request (some (c, other)) h e =
      let (run, found, allowed) = dispatch_run_effect request c (lookup item.run_id s.runs) h e in
      (c, other, run, refl, found, allowed)

  allowed_effect :
      (request : Request) (c : Claims) (run : Run)
      → lookup q s.queues ≡ some item
      → item.status ≡ queued
      → str_eq (lib.sha256 item.request_bytes) item.request_sha256 ≡ true
      → validate_request lib item.request_bytes ≡ ok request
      → decode_capability lib request.capability ≡ some c
      → lookup item.run_id s.runs ≡ some run
      → dispatch_denial s now_ms c run item ≡ none
      → EffectAllowed lib anchor now_ms q s
  unfolding dispatch_denial
  allowed_effect request c run found waiting bytes canonical signed of_run allowed = record {
    item = item;
    run = run;
    request = request;
    claims = c;
    found = found;
    waiting = waiting;
    of_run = of_run;
    same_bytes = bytes;
    canonical = canonical;
    signed = signed;
    live = ground (arith, allowed);
    current = ground (arith, allowed);
    in_time = ground (arith, allowed);
    in_budget = ground (arith, allowed);
    first = ground (arith, allowed);
  }

  dispatch_request_effect :
      (o : Result Request)
      → (dispatch_request lib anchor s now_ms q item o disk).0 ≡ ok r
      → r.effect_applied ≡ true
      → (request : Request) × (c : Claims) × (run : Run) × (o ≡ ok request)
        × (decode_capability lib request.capability ≡ some c)
        × (lookup item.run_id s.runs ≡ some run)
        × (dispatch_denial s now_ms c run item ≡ none)
  unfolding dispatch_request
  dispatch_request_effect (err code) h e = cc
  dispatch_request_effect (ok request) h e =
      let (c, other, run, checked, found, allowed) =
        dispatch_claims_effect request (check_claims lib anchor s request) h e in
      let (signed, _, _, _, _, _) = check_claims_inversion lib anchor s request c other checked in
      (request, c, run, refl, signed, found, allowed)

  dispatch_item_effect :
      lookup q s.queues ≡ some item
      → (dispatch_item lib anchor s now_ms q item disk).0 ≡ ok r
      → r.effect_applied ≡ true
      → EffectAllowed lib anchor now_ms q s
  unfolding dispatch_item
  dispatch_item_effect found h e =
      let waiting : item.status ≡ queued = ground arith in
      let bytes : str_eq (lib.sha256 item.request_bytes) item.request_sha256 ≡ true =
        ground arith in
      let inner : (dispatch_request lib anchor s now_ms q item
            (validate_request lib item.request_bytes) disk).0
          ≡ ok r =
        ground arith in
      let (request, c, run, canonical, signed, of_run, allowed) =
        dispatch_request_effect (validate_request lib item.request_bytes) inner e in
      allowed_effect request c run found waiting bytes canonical signed of_run allowed

module _ (lib : Library) (anchor : Anchor) where
  found_effect :
      (s : State) (now_ms : ℕ) (q : String) (expected : Option String) (o : Option Queue)
      (disk : Disk) (r : Receipt)
      → lookup q s.queues ≡ o
      → (dispatch_found lib anchor s now_ms q expected o disk).0 ≡ ok r
      → r.effect_applied ≡ true
      → EffectAllowed lib anchor now_ms q s
  unfolding dispatch_found
  found_effect s now_ms q expected none disk r found h e = absurd (ground (arith, h))
  found_effect s now_ms q expected (some item) disk r found h e =
      elim (Bool-cases (owned lib anchor expected item)) [
        | inl mine ↦
            dispatch_item_effect lib anchor s now_ms q item disk r found (ground (arith, mine, h)) e
        | inr other ↦ absurd (ground (arith, other, h))
      ]

  -- A dispatch that reports an applied effect has read a state in which the item was open with its
  -- recorded bytes, its capability signed, and its run not revoked, of the claims' generation, in
  -- time and inside its budget.
  pub dispatch-effect :
      (disk : Disk) (now_ms : ℕ) (q : String) (expected : Option String) (r : Receipt)
      → (dispatch_expecting lib anchor q expected now_ms disk).0 ≡ ok r
      → r.effect_applied ≡ true
      → (s : State) × (read_state lib anchor disk ≡ ok s) × EffectAllowed lib anchor now_ms q s
  unfolding dispatch_expecting reading
  dispatch-effect disk now_ms q expected r h e = elim (Result-cases (read_state lib anchor disk)) [
    | inl (s, opened) ↦ (
      s,
      opened,
      found_effect s now_ms q expected (lookup q s.queues) disk r refl
          (ground (arith, opened, h, e)) e,
    )
    | inr (message, failed) ↦ absurd (ground (arith, failed, h, e))
  ]
