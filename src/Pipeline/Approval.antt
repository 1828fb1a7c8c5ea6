-- ===== src/Pipeline/Approval.antt =====
-- agent/pipeline/pipeline.go: `ApproveRun` and `PublishFinal`, over the store of RunStore.antt.
-- Outside, and a field of `Env`, are the SCM, the channels and the memory with its proposals P, a
-- step of the world W each, the check of the configured adapters, the text of an error and
-- `strings.Replace` with the count 1. The pipeline is not nil.
pub mod Publishing
pub mod Laws
pub mod Success
mod Tests
use Prim.Native.String
use review.Base.{
  String, Bool, true, false, not, if◌then◌else◌, List, [], ◌∷◌, Option, none, some, Error, new,
  errorf, Result, ok, err, str_eq,
}
use review.Base.Text.{trim_space, is_blank}
use review.Policy.Schema.{lookup}
use review.Orchestrator.Action.{Action, continue, ◌>>=◌, ◌>>◌, return, fail, fail_with}
use review.Pipeline.RunStore.{
  Request, RunStatus, running, drafted, finalizing, finalized, failed, ignored, status_text,
  ReviewContext, Run, Publication, State, update, save_context, append_event, get,
}

pub record Env (W M P : Type 0) : Type 0 where
  pub configured : Option Error
  pub error_text : Error → String
  pub replace_once : String → String → String → String
  pub web_url : M → String
  pub enrich : Request → Action W M
  pub publish : M → String → Action W (Unit {0})
  pub channels : Option (String → String → Action W (Unit {0}))
  pub propose_update : ReviewContext M → Action W P
  pub write : P → Action W (Unit {0})

-- `ensureApprovableRun`, for a run that is loaded
unfoldable pub ensure_approvable_run : {M : Type 0} → Run M → Option Error
ensure_approvable_run run =
    if is_blank run.draft_report
    then some (new "pipeline: draft report required before HIL approval")
    else elim run.status [
      | drafted ↦ none
      | failed ↦
          if run.hil_approved
          then some (new "pipeline: use final publish retry for already approved failed run")
          else none
      | running ↦ some (errorf "pipeline: run status %q cannot be approved" ("running" ∷ []))
      | finalizing ↦ some (errorf "pipeline: run status %q cannot be approved" ("finalizing" ∷ []))
      | finalized ↦ some (errorf "pipeline: run status %q cannot be approved" ("finalized" ∷ []))
      | ignored ↦ some (errorf "pipeline: run status %q cannot be approved" ("ignored" ∷ []))
      | RunStatus.other s ↦ some (errorf "pipeline: run status %q cannot be approved" (s ∷ []))
    ]

abbrev or_url : Request → String → Request
or_url req url = if str_eq req.web_url "" then record req { web_url = url } else req

abbrev context_or : {M : Type 0} → Run M → Option (ReviewContext M) → ReviewContext M
context_or run (some rc) = rc
context_or run none = record {
  request = or_url run.request run.web_url;
  attempt_id = "";
  scm = none;
  draft = run.draft_report;
  final = run.final_report;
  hil_approved = run.hil_approved;
}

-- `contextForRun`, for a run that is loaded
unfoldable pub context_for_run : {M : Type 0} → Run M → ReviewContext M
context_for_run run = context_or run run.context

module _ {W M P : Type 0} (env : Env W M P) where
  -- `finalizeReport`
  unfoldable pub finalize_report : String → String
  unfolding trim_space
  finalize_report report =
      if str_eq (trim_space report) ""
      then ""
      else env.replace_once (trim_space report) "## 7review Draft" "## 7review Final"

  -- The report given, or else the one the run has.
  unfoldable pub final_report_of : String → String → String
  unfolding finalize_report
  final_report_of given own =
      if str_eq (trim_space given) "" then finalize_report own else trim_space given

  abbrev in_world : {A : Type 0} → State W M → W × Result A → State W M × Result A
  in_world s (w, r) = (record s { world = w }, r)

  -- A step of the world that leaves the runs as they are.
  abbrev outside : {A : Type 0} → Action W A → Action (State W M) A
  outside call s = in_world s (call s.world)

  -- `if err != nil { _ = p.Jobs.Update(ctx, id, StatusFailed, err); return err }`
  abbrev or_failed_with : {A : Type 0} → String → State W M × Result A → State W M × Result A
  or_failed_with id (s, ok a) = (s, ok a)
  or_failed_with id (s, err e) = ((update env.error_text id failed (some e) s).0, err e)

  abbrev or_failed : {A : Type 0} → String → Action (State W M) A → Action (State W M) A
  or_failed id m s = or_failed_with id (m s)

  abbrev noted : String → String → State W M → State W M
  noted id report s = record s {
    published = (record { run_id = id; report = report; stored = lookup id s.runs }) ∷ s.published;
  }

  -- The publisher's call, noted as a publication whether or not it reports an error.
  unfoldable pub publish_to :
      String → ReviewContext M → String → M → Action (State W M) (ReviewContext M)
  publish_to id rc report scm s =
      (outside (env.publish scm report) >> return (ok (record rc { scm = some scm })))
        (noted id report s)

  abbrev enriched : Option M → Request → Action (State W M) M
  enriched (some scm) request = return (ok scm)
  enriched none request = outside (env.enrich request)

  -- `publishFinal`, for a context that is not nil; it gives the context that it fills in.
  unfoldable pub publish_source :
      String → ReviewContext M → String → Action (State W M) (ReviewContext M)
  unfolding publish_to
  publish_source id rc report =
      fail (not (str_eq rc.attempt_id "")) (new "canonical publication requires governed outbox")
      >> fail (not rc.hil_approved) (new "pipeline: HIL approval required before final publish")
      >> enriched rc.scm rc.request
      >>= publish_to id rc report

  -- `NotifyFinalPublished`, where `none` is no channel or none that is enabled
  abbrev notify :
      Option (String → String → Action W (Unit {0}))
      → String
      → String
      → Action (State W M) (Unit {0})
  notify none id report = return (ok tt)
  notify (some send) id report = outside (send id report)

  -- `writeApprovedMemory`
  abbrev write_approved_memory : ReviewContext M → Action (State W M) (Unit {0})
  write_approved_memory rc = outside (λ w. continue (env.propose_update rc w) env.write)

  -- The end of both handlers, below the publication.
  unfoldable pub finish :
      String → String → String → String → ReviewContext M → Action (State W M) (Unit {0})
  unfolding update save_context append_event
  finish id kind message report rc =
      or_failed id (notify env.channels id report)
      >> or_failed id (write_approved_memory rc)
      >> save_context env.web_url id rc
      >> update env.error_text id finalized none
      >> append_event id (record { kind = kind; status = finalized; message = message })

  -- Both handlers from the publication on.
  unfoldable pub publish_and_finish :
      String → String → String → ReviewContext M → String → Action (State W M) (Unit {0})
  unfolding publish_source finish
  publish_and_finish id kind message rc report =
      or_failed id (publish_source id rc report) >>= finish id kind message report

  abbrev approved : ReviewContext M → String → ReviewContext M
  approved rc report = record rc { hil_approved = true; final = report }

  -- `ApproveRun` below `contextForRun`
  unfoldable pub approve_report : String → ReviewContext M → String → Action (State W M) (Unit {0})
  approve_report id rc report =
      fail (str_eq report "") (new "pipeline: approved report is empty")
      >> save_context env.web_url id (approved rc report)
      >> update env.error_text id finalizing none
      >> publish_and_finish id "hil_approved" "final report approved and published"
          (approved rc report) report

  -- `ApproveRun` below `Get`
  unfoldable pub approve_loaded : String → String → Run M → Action (State W M) (Unit {0})
  unfolding approve_report ensure_approvable_run context_for_run final_report_of
  approve_loaded id approved_report run =
      fail_with (ensure_approvable_run run)
      >> approve_report id (context_for_run run) (final_report_of approved_report run.draft_report)

  -- `ApproveRun`
  unfoldable pub approve_run : String → String → Action (State W M) (Unit {0})
  unfolding get
  approve_run id approved_report =
      fail_with env.configured >> get id >>= approve_loaded id approved_report

  -- `PublishFinal` below `contextForRun`
  unfoldable pub republish : String → ReviewContext M → String → Action (State W M) (Unit {0})
  republish id rc report =
      fail (not rc.hil_approved) (new "pipeline: HIL approval required before final publish")
      >> fail (str_eq report "") (new "pipeline: final report is empty")
      >> update env.error_text id finalizing none
      >> publish_and_finish id "final_published" "final report published"
          (record rc { final = report }) report

  -- `PublishFinal` below `Get`
  unfoldable pub republish_loaded : String → String → Run M → Action (State W M) (Unit {0})
  unfolding republish context_for_run final_report_of
  republish_loaded id report run =
      let rc = context_for_run run in republish id rc (final_report_of report rc.final)

  -- `PublishFinal`
  unfoldable pub publish_final : String → String → Action (State W M) (Unit {0})
  unfolding get
  publish_final id report = fail_with env.configured >> get id >>= republish_loaded id report
