-- ===== src/Pipeline/RunStore.antt =====
-- agent/pipeline/support.go: `MemoryRunStore`, the runs of the pipeline by their ids; and, of
-- agent/review, the request and what the approval reads and writes of the review context. The store
-- copies what it takes and gives, so its runs are values. Left out of a run are `Source`, `Findings`
-- and the time; of an event its time and `Meta`. M is the type of the SCM context.
use review.Base.{
  String, Bool, false, if◌then◌else◌, List, [], ◌∷◌, ◌++◌, Option, none, some, Error, errorf,
  Result, ok, err, str_eq,
}
use review.Base.Text.{trim_space}
use review.Base.Int.{ℤ, pos}
use review.Policy.Schema.{lookup}
use review.Orchestrator.Action.{Action}

pub record Request : Type 0 where
  pub provider : String
  pub delivery_id : String
  pub payload_digest : String
  pub event_action : String
  pub project_id : String
  pub mr_iid : ℤ
  pub repository : String
  pub change_id : String
  pub title : String
  pub description : String
  pub web_url : String
  pub source_sha : String
  pub target_sha : String
  pub source_branch : String
  pub target_branch : String
  pub author : String
  pub draft : Bool
  pub labels : List String
  pub changed_paths : List String

-- `Request{}`
abbrev pub empty_request : Request
empty_request = record {
  provider = "";
  delivery_id = "";
  payload_digest = "";
  event_action = "";
  project_id = "";
  mr_iid = pos 0;
  repository = "";
  change_id = "";
  title = "";
  description = "";
  web_url = "";
  source_sha = "";
  target_sha = "";
  source_branch = "";
  target_branch = "";
  author = "";
  draft = false;
  labels = [];
  changed_paths = [];
}

-- `RunStatus`, a string in the source: `other` is any other text.
pub data RunStatus : Type 0 where
  running drafted finalizing finalized failed ignored : RunStatus
  other : String → RunStatus

abbrev pub status_text : RunStatus → String
status_text running = "running"
status_text drafted = "drafted"
status_text finalizing = "finalizing"
status_text finalized = "finalized"
status_text failed = "failed"
status_text ignored = "ignored"
status_text (RunStatus.other s) = s

pub record ReviewContext (M : Type 0) : Type 0 where
  pub request : Request
  pub attempt_id : String
  pub scm : Option M
  pub draft : String
  pub final : String
  pub hil_approved : Bool

pub record RunEvent : Type 0 where
  pub kind : String
  pub status : RunStatus
  pub message : String

pub record Run (M : Type 0) : Type 0 where
  pub id : String
  pub request : Request
  pub status : RunStatus
  pub error : String
  pub context : Option (ReviewContext M)
  pub draft_report : String
  pub final_report : String
  pub hil_approved : Bool
  pub web_url : String
  pub events : List RunEvent

-- A final report that went to the SCM, with the run as the store held it then.
pub record Publication (M : Type 0) : Type 0 where
  pub run_id : String
  pub report : String
  pub stored : Option (Run M)

-- The store, the world outside, and the final reports published so far, the last one first.
pub record State (W M : Type 0) : Type 0 where
  pub runs : List (String × Run M)
  pub world : W
  pub published : List (Publication M)

-- `appendRunEvent` and `appendPreparedRunEvent`
unfoldable pub append_run_event : {M : Type 0} → RunEvent → Run M → Run M
unfolding trim_space
append_run_event event run = record run {
  events =
      run.events
      ++ record event {
        kind = if str_eq (trim_space event.kind) "" then "event" else trim_space event.kind;
        message = trim_space event.message;
      }
        ∷ [];
}

-- `&Run{ID: id}`
abbrev pub new_run : {M : Type 0} → String → Run M
new_run id = record {
  id = id;
  request = empty_request;
  status = RunStatus.other "";
  error = "";
  context = none;
  draft_report = "";
  final_report = "";
  hil_approved = false;
  web_url = "";
  events = [];
}

abbrev pub or_new : {M : Type 0} → String → Option (Run M) → Run M
or_new id (some run) = run
or_new id none = new_run id

abbrev pub put : {W M : Type 0} → String → Run M → State W M → State W M
put id run s = record s { runs = (id, run) ∷ s.runs }

abbrev pub text_of : (Error → String) → Option Error → String
text_of error_text none = ""
text_of error_text (some e) = error_text e

abbrev pub web_url_of : {M : Type 0} → (M → String) → Option M → String → String
web_url_of url none fallback = fallback
web_url_of url (some scm) fallback = if str_eq (url scm) "" then fallback else url scm

-- What `Update` makes of a run; `error_text` is the method `Error`.
unfoldable pub updated : {M : Type 0} → (Error → String) → RunStatus → Option Error → Run M → Run M
updated error_text status e run =
    let message = text_of error_text e in
    append_run_event (record { kind = "status_changed"; status = status; message = message })
      (record run { status = status; error = message })

-- What `SaveContext` makes of a run, for a context that is not nil; `url` is the web URL of an SCM
-- context.
unfoldable pub saved : {M : Type 0} → (M → String) → ReviewContext M → Run M → Run M
saved url rc run =
    append_run_event (record { kind = "context_saved"; status = run.status; message = "" })
      (record run {
        context = some rc;
        request = rc.request;
        draft_report = rc.draft;
        final_report = rc.final;
        hil_approved = rc.hil_approved;
        web_url = web_url_of url rc.scm rc.request.web_url;
      })

abbrev found : {M : Type 0} → String → Option (Run M) → Result (Run M)
found id (some run) = ok run
found id none = err (errorf "run %q not found" (id ∷ []))

module _ {W M : Type 0} where
  -- `MemoryRunStore.Update`
  unfoldable pub update :
      (Error → String) → String → RunStatus → Option Error → Action (State W M) (Unit {0})
  unfolding updated
  update error_text id status e s =
      (put id (updated error_text status e (or_new id (lookup id s.runs))) s, ok tt)

  -- `MemoryRunStore.SaveContext`
  unfoldable pub save_context :
      (M → String) → String → ReviewContext M → Action (State W M) (Unit {0})
  unfolding saved
  save_context url id rc s = (put id (saved url rc (or_new id (lookup id s.runs))) s, ok tt)

  abbrev append_to : String → RunEvent → State W M → Option (Run M) → State W M × Result (Unit {0})
  append_to id event s (some run) = (put id (append_run_event event run) s, ok tt)
  append_to id event s none = (s, err (errorf "run %q not found" (id ∷ [])))

  -- `MemoryRunStore.AppendEvent`
  unfoldable pub append_event : String → RunEvent → Action (State W M) (Unit {0})
  unfolding append_run_event
  append_event id event s = append_to id event s (lookup id s.runs)

  -- `MemoryRunStore.Get`
  unfoldable pub get : String → Action (State W M) (Run M)
  get id s = (s, found id (lookup id s.runs))
