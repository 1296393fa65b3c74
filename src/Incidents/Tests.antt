-- ===== src/Incidents/Tests.antt =====
-- A small store, tests and witnesses.
use lumi_eggcracker.Base.{
  ◌+◌, ◌≤◌, String, ◌≡◌, ◌⊎◌, refl, true, false, some, [], ◌∷◌, length, elem, hex_text, ok,
}
use lumi_eggcracker.Json.{Fields, get, null, str, int, pos, obj, from}
use lumi_eggcracker.Incidents.Nested.{
  Library, safe_token, validate_match, validate_approval, validate_workload, validate_ack,
  validate_response, validate_recurrence, cgroup_text, is_unit_of,
}
use lumi_eggcracker.Incidents.Validity.{
  max_linked_receipts, integrity, validate, check_state, check_detector, check_linked,
}
use lumi_eggcracker.Incidents.Store.{
  directory, missing, Listing, regular, nat_at, text_at, paths, load_path, load_paths, load_all,
  put, written, write, compact,
}
use lumi_eggcracker.Incidents.Lifecycle.{
  Subject, draft, sealed, create, link, linked_of, recurrence_of, is_match, is_active, find_match,
}
use lumi_eggcracker.Incidents.Linking.{link-Recorded}
use lumi_eggcracker.Incidents.Creation.{IsSubject, create-written}
use lumi_eggcracker.Incidents.Suppression.{relaunch, create-find_match}

abbrev pub a_digest : String
a_digest = "0123456789abcdef0123456789abcdef0123456789abcdef0123456789abcdef"

abbrev pub lib : Library
lib = record { digest = λ (fs : Fields). a_digest; real_is_zero = λ (text : String). false }

abbrev pub event : String
event = "0123456789abcdef01234567"

abbrev a_match : Fields
a_match = from (
    ("argv_sha256", str a_digest)
    ∷ ("executable_sha256", str a_digest)
    ∷ ("profile", str "llama")
    ∷ ("uid", int (pos 1000))
    ∷ [])

abbrev a_workload : Fields
a_workload = from (
    ("boot_id", str "boot")
    ∷ ("cgroup", str "/run/lumi-eggcracker/quarantine/q1")
    ∷ ("cgroup_device", int (pos 7))
    ∷ ("cgroup_inode", int (pos 8))
    ∷ ("run_id", str event)
    ∷ ("unit", str "q1")
    ∷ ("uid", int (pos 1000))
    ∷ [])

abbrev pub subject : Subject
subject = record {
  receipt = from (("event_id", str event) ∷ []);
  policy = from [];
  catalogue = a_digest;
  source_commit = "0123456789abcdef0123456789abcdef01234567";
  version = "1.0";
  trigger = "DETECTOR";
  profile = str "llama";
  evidence = "argv" ∷ [];
  match_of = a_match;
  workload = a_workload;
  approval = null;
}

subject-IsSubject : IsSubject subject
unfolding hex_text safe_token validate_match validate_approval validate_workload cgroup_text
    is_unit_of
subject-IsSubject = record {
  catalogue = refl;
  source = refl;
  version = refl;
  trigger = refl;
  profile = refl;
  evidence = refl;
  match_ok = refl;
  approval = refl;
  workload = refl;
}

digest_hex : (x : Fields) → hex_text 64 (lib.digest x) ≡ true
unfolding hex_text
digest_hex x = refl

abbrev incident : Fields
unfolding sealed draft
incident = sealed lib (draft lib subject event 5)

incident-valid : validate lib incident ≡ ok incident
unfolding validate hex_text safe_token validate_match validate_approval validate_workload
    validate_ack validate_response validate_recurrence check_state check_detector check_linked
    integrity cgroup_text is_unit_of sealed draft
incident-valid = refl

abbrev one_file : Listing
one_file = (event, regular (ok incident)) ∷ []

loads : load_paths lib one_file ≡ ok (incident ∷ [])
unfolding load_paths load_path sealed draft
loads = rw incident-valid refl

creates : create lib missing subject 5 ≡ ok (incident, directory one_file)
unfolding create written put sealed draft hex_text write
creates = rw incident-valid refl

loads_all : load_all lib (directory one_file) ≡ ok (incident ∷ [])
unfolding load_all paths
loads_all = loads

compacts : compact lib (directory one_file) ≡ ok (incident ∷ [], directory one_file)
unfolding compact paths
compacts = rw loads refl

link-Recorded_example :
    (u : Fields) × (link lib (directory one_file) incident (from []) true
      ≡ ok (u, directory (put (text_at "incident_id" incident) (regular (ok u)) one_file)))
    × (validate lib u ≡ ok u)
    × (nat_at "generation" u ≡ nat_at "generation" incident + 1)
    × (get "state" u ≡ get "state" incident)
    × (length (linked_of u) ≤ max_linked_receipts)
    × ((elem a_digest (linked_of u) ≡ true) ⊎ (length (linked_of incident) ≡ max_linked_receipts))
    × (nat_at "complete_matches" (recurrence_of u)
        ≡ nat_at "complete_matches" (recurrence_of incident) + 1)
    × (nat_at "contained_matches" (recurrence_of u)
        ≡ nat_at "contained_matches" (recurrence_of incident) + 1)
    × (nat_at "partial_matches" (recurrence_of u)
        ≡ nat_at "partial_matches" (recurrence_of incident) + 1)
link-Recorded_example = link-Recorded lib one_file incident (from []) true digest_hex incident-valid

create-written_example :
    (v : Fields) × (create lib (directory []) subject 5
      ≡ ok (v, directory (put event (regular (ok v)) [])))
    × (validate lib v ≡ ok v)
    × (is_active v ≡ true)
    × (get "match" v ≡ some (obj a_match))
unfolding hex_text
create-written_example =
    create-written lib subject event 5 [] digest_hex subject-IsSubject refl refl

create-find_match_example :
    let l = relaunch a_match true false in
    (w : Fields) × (find_match (incident ∷ []) l ≡ some w)
    × (is_match l w ≡ true)
    × (is_active w ≡ true)
create-find_match_example =
    create-find_match lib missing (directory one_file) subject 5 incident (incident ∷ []) true false
      creates loads_all
