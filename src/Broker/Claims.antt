-- ===== src/Broker/Claims.antt =====
-- The limits, and the claims of a capability (src/lumi_eggcracker/brokered/operator.py).
use lumi_eggcracker.Base.{
  ℕ, String, Bool, true, false, ◌&&◌, ◌||◌, none, some, List, [], ◌∷◌, leb, ◌==◌, str_eq, codes,
  is_alnum, hex_text, all, length,
}
use lumi_eggcracker.Json.{Fields, get, same_keys, as_str, as_nat, is_int, is_text, is_the}

abbrev pub max_request_bytes : ℕ
max_request_bytes = 4096

abbrev pub max_capability_bytes : ℕ
max_capability_bytes = 1024

abbrev pub max_runs : ℕ
max_runs = 64

abbrev pub max_actions_per_run : ℕ
max_actions_per_run = 4

abbrev pub max_replay_keys : ℕ
max_replay_keys = 256

abbrev pub max_pending_bytes : ℕ
max_pending_bytes = 65536

abbrev pub max_lifetime_ms : ℕ
max_lifetime_ms = 60000

-- 2 + 64 * (1 + 2 * 4 + 1)
abbrev pub max_journal_events : ℕ
max_journal_events = 642

abbrev pub capability_schema : String
capability_schema = "lumi-eggcracker.brokered-capability.v1"

abbrev pub request_schema : String
request_schema = "lumi-eggcracker.brokered-request.v1"

abbrev pub action_name : String
action_name = "increment"

abbrev pub target_name : String
target_name = "synthetic.protected-counter"

-- `_HEX32` and `_HEX64`
unfoldable pub hex32 : String → Bool
unfolding hex_text
hex32 = hex_text 32

unfoldable pub hex64 : String → Bool
unfolding hex_text
hex64 = hex_text 64

-- `_OPERATION_ID`: one alphanumeric, then at most 63 of `[A-Za-z0-9._:-]`
operation_id_tail : ℕ → Bool
operation_id_tail c = is_alnum c || c == b'.' || c == b'_' || c == b':' || c == b'-'

operation_id_codes : List ℕ → Bool
operation_id_codes [] = false
operation_id_codes (c ∷ cs) = is_alnum c && all operation_id_tail cs && leb (length cs) 63

unfoldable pub operation_id_text : String → Bool
unfolding operation_id_codes operation_id_tail
operation_id_text s = operation_id_codes (codes s)

unfoldable pub bytes_eq : List ℕ → List ℕ → Bool
bytes_eq [] [] = true
bytes_eq [] (y ∷ ys) = false
bytes_eq (x ∷ xs) [] = false
bytes_eq (x ∷ xs) (y ∷ ys) = x == y && bytes_eq xs ys

-- The value at a key that was validated to be a text or a non-negative integer.
abbrev pub text_at : String → Fields → String
text_at k fs = elim (as_str (get k fs)) [ none ↦ "" | some s ↦ s ]

abbrev pub nat_at : String → Fields → ℕ
nat_at k fs = elim (as_nat (get k fs)) [ none ↦ 0 | some n ↦ n ]

abbrev pub claim_keys : List String
claim_keys =
    "action" ∷ "expires_at_ms" ∷ "generation" ∷ "max_actions" ∷ "run_id" ∷ "schema_version"
    ∷ "store_id" ∷ "target" ∷ []

-- A validated claims dict, by its values.
pub record Claims : Type 0 where
  pub action : String
  pub expires_at_ms : ℕ
  pub generation : ℕ
  pub max_actions : ℕ
  pub run_id : String
  pub store_id : String
  pub target : String

unfoldable pub claims_of : Fields → Claims
claims_of fs = record {
  action = text_at "action" fs;
  expires_at_ms = nat_at "expires_at_ms" fs;
  generation = nat_at "generation" fs;
  max_actions = nat_at "max_actions" fs;
  run_id = text_at "run_id" fs;
  store_id = text_at "store_id" fs;
  target = text_at "target" fs;
}

-- `a == b` of two validated claims dicts
unfoldable pub claims_eq : Claims → Claims → Bool
claims_eq a b =
    str_eq a.action b.action
    && a.expires_at_ms == b.expires_at_ms
    && a.generation == b.generation
    && a.max_actions == b.max_actions
    && str_eq a.run_id b.run_id
    && str_eq a.store_id b.store_id
    && str_eq a.target b.target

-- `_validate_claims`
unfoldable pub validate_claims : Fields → String → Bool
unfolding hex32
validate_claims fs store_id =
    same_keys fs claim_keys
    && is_the capability_schema (get "schema_version" fs)
    && is_the store_id (get "store_id" fs)
    && is_text hex32 (get "run_id" fs)
    && is_the target_name (get "target" fs)
    && is_the action_name (get "action" fs)
    && is_int 0 (get "generation" fs)
    && is_int 1 (get "expires_at_ms" fs)
    && is_int 0 (get "max_actions" fs)
    && nat_at "max_actions" fs == max_actions_per_run

-- The same test on claims whose shape is known.
unfoldable pub claims_valid : Claims → String → Bool
unfolding hex32
claims_valid c store_id =
    str_eq store_id c.store_id
    && hex32 c.run_id
    && str_eq target_name c.target
    && str_eq action_name c.action
    && leb 1 c.expires_at_ms
    && c.max_actions == max_actions_per_run
