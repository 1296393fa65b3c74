-- ===== src/Incidents/Lifecycle.antt =====
-- The operations on incidents (src/lumi_eggcracker/incidents.py, lines 353-466).
use lumi_eggcracker.Base.{
  ℕ, ◌+◌, String, Bool, true, false, not, ◌&&◌, ◌||◌, Option, none, some, List, [], ◌∷◌, ◌++◌, ltb,
  ◌==◌, if◌then◌else◌, length, take, all, map, filter, elem, hex_text, Result, ◌>>◌, ◌>>=◌, require,
  or_raise,
}
use lumi_eggcracker.Json.{
  Value, Fields, get, has_key, as_str, as_obj, as_list, is_the, null, bool, int, str, obj, arr, pos,
  from, from_list, set, set_all, end,
}
use lumi_eggcracker.Incidents.Nested.{Library}
use lumi_eggcracker.Incidents.Validity.{
  incident_schema, max_evidence, max_linked_receipts, integrity, validate, texts_of,
}
use lumi_eggcracker.Incidents.Store.{Root, write, nat_at}

-- 64 zeros
abbrev pub zero_digest : String
zero_digest = "0000000000000000000000000000000000000000000000000000000000000000"

abbrev pub text_list : List String → Value
text_list texts = arr (from_list (map str texts))

-- What the supervisor hands over of a containment.
pub record Subject : Type 0 where
  pub receipt : Fields
  pub policy : Fields
  pub catalogue : String
  pub source_commit : String
  pub version : String
  pub trigger : String
  pub profile : Value
  pub evidence : List String
  pub match_of : Fields
  pub workload : Fields
  pub approval : Value

abbrev pub no_recurrence : Fields
no_recurrence = from (
    ("contained_matches", int (pos 0))
    ∷ ("complete_matches", int (pos 0))
    ∷ ("partial_matches", int (pos 0))
    ∷ ("sweep_count", int (pos 0))
    ∷ [])

abbrev pub no_response : Fields
no_response = from (
    ("approval_revoked", bool false)
    ∷ ("completed", bool false)
    ∷ ("relaunch_suppressed", bool true)
    ∷ ("response_completed_monotonic_ns", int (pos 0))
    ∷ [])

-- the record of `create`, by its identity and the clock's reading, before its integrity
unfoldable pub draft : Library → Subject → String → ℕ → Fields
draft lib s event_id now = from (
    ("acknowledgement", null)
    ∷ ("approval", s.approval)
    ∷ ("catalogue_sha256", str s.catalogue)
    ∷ ("clearance", null)
    ∷ ("created_monotonic_ns", int (pos now))
    ∷ (
      "detector",
      obj (
          from
            (("evidence", text_list (take max_evidence s.evidence)) ∷ ("profile", s.profile) ∷ [])),
    )
    ∷ ("generation", int (pos 1))
    ∷ ("incident_id", str event_id)
    ∷ ("integrity_sha256", str zero_digest)
    ∷ ("linked_receipts", text_list [])
    ∷ ("match", obj s.match_of)
    ∷ ("original_receipt_digest", str (lib.digest s.receipt))
    ∷ ("policy_sha256", str (lib.digest s.policy))
    ∷ ("recurrence", obj no_recurrence)
    ∷ ("response", obj no_response)
    ∷ ("schema_version", str incident_schema)
    ∷ ("source_commit", str s.source_commit)
    ∷ ("state", str "ACTIVE")
    ∷ ("trigger", str s.trigger)
    ∷ ("version", str s.version)
    ∷ ("workload", obj s.workload)
    ∷ [])

-- `value["integrity_sha256"] = integrity(value)`
unfoldable pub sealed : Library → Fields → Fields
unfolding integrity
sealed lib value = set "integrity_sha256" (str (integrity lib value)) value

-- `create`, at the clock's reading
unfoldable pub create : Library → Root → Subject → ℕ → Result (Fields × Root)
unfolding draft sealed write
create lib root s now = do
  event_id ←
      or_raise (as_str (get "event_id" s.receipt)) "incident requires an exact receipt identity"
  require (hex_text 24 event_id) "incident requires an exact receipt identity"
  write lib root (sealed lib (draft lib s event_id now))

-- the record of `update`
unfoldable pub updated : Library → Fields → List (String × Value) → Fields
unfolding sealed
updated lib current changes =
    sealed lib
      (set "generation" (int (pos (nat_at "generation" current + 1))) (set_all changes current))

-- `update`
unfoldable pub update : Library → Root → Fields → List (String × Value) → Result (Fields × Root)
unfolding updated write
update lib root value changes = do
  current ← validate lib value
  require (all (λ (c : String × Value). has_key current c.0) changes)
      "incident update field is invalid"
  write lib root (updated lib current changes)

-- `active`
abbrev pub is_active : Fields → Bool
is_active v = is_the "ACTIVE" (get "state" v) || is_the "ACKNOWLEDGED" (get "state" v)

abbrev pub active : List Fields → List Fields
active values = filter is_active values

-- What a launch is compared by; `none` is the default `None`.
pub record Launch : Type 0 where
  pub argv_digest : String
  pub launch_uid : ℕ
  pub executable : Option String
  pub launch_profile : Option String

-- `value["match"]` of a validated record
abbrev pub match_of_record : Fields → Fields
match_of_record v = elim (as_obj (get "match" v)) [ none ↦ end | some m ↦ m ]

abbrev pub same_executable : Fields → Option String → Bool
same_executable m none = true
same_executable m (some e) =
    is_the zero_digest (get "executable_sha256" m) || is_the e (get "executable_sha256" m)

abbrev pub same_profile : Option Value → Option String → Bool
same_profile expected none = true
same_profile (some null) (some p) = true
same_profile expected (some p) = is_the p expected

-- the tests of the loop, none of which is a `continue`
unfoldable pub is_match : Launch → Fields → Bool
is_match l v =
    let m = match_of_record v in
    nat_at "uid" m == l.launch_uid
    && is_the l.argv_digest (get "argv_sha256" m)
    && same_executable m l.executable
    && same_profile (get "profile" m) l.launch_profile

-- the loop of `find_match`
unfoldable pub first_match : Launch → List Fields → Option Fields
unfolding is_match
first_match l [] = none
first_match l (v ∷ vs) = let rest = first_match l vs in if is_match l v then some v else rest

-- `find_match`
unfoldable pub find_match : List Fields → Launch → Option Fields
unfolding first_match
find_match values l = first_match l (active values)

-- the linked receipts with one more, while there is room
unfoldable pub sampled : List String → String → List String
sampled linked digest =
    if not (elem digest linked) && ltb (length linked) max_linked_receipts
    then linked ++ digest ∷ []
    else linked

-- `recurrence[key] += 1`
abbrev pub counted : String → Fields → Fields
counted key recurrence = set key (int (pos (nat_at key recurrence + 1))) recurrence

unfoldable pub recounted : Fields → Bool → Fields
recounted recurrence partial =
    let both = counted "contained_matches" (counted "complete_matches" recurrence) in
    if partial then counted "partial_matches" both else both

abbrev pub linked_of : Fields → List String
linked_of v = elim (as_list (get "linked_receipts" v)) [ none ↦ [] | some vs ↦ texts_of vs ]

abbrev pub recurrence_of : Fields → Fields
recurrence_of v = elim (as_obj (get "recurrence" v)) [ none ↦ end | some m ↦ m ]

-- `link` of a record that was validated
unfoldable pub link : Library → Root → Fields → Fields → Bool → Result (Fields × Root)
unfolding sampled recounted update
link lib root value receipt partial = update lib root value (
    ("linked_receipts", text_list (sampled (linked_of value) (lib.digest receipt)))
    ∷ ("recurrence", obj (recounted (recurrence_of value) partial))
    ∷ [])
