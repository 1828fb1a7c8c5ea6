-- ===== src/Pipeline/Approval/Laws.antt =====
-- About the approval of agent/pipeline/pipeline.go: what reaches the SCM, and in which state.
use review.Base.{
  String, true, not, [], Option, none, some, Error, str_eq, ◌≡◌, ◌≢◌, refl, ap, ◌∙◌, inl, inr, All,
  Bool-cases, Option-cases, eq_refl, eq_iff, arith,
}
use review.Policy.Schema.{lookup}
use review.Orchestrator.Action.{Action, ◌>>=◌, ◌>>◌, fail_with}
use review.Pipeline.RunStore.{
  append_run_event, RunStatus, finalizing, ReviewContext, Run, Publication, State, put, or_new,
  update, updated, saved, save_context, get,
}
use review.Pipeline.Approval.{
  Env, ensure_approvable_run, context_for_run, final_report_of, publish_and_finish, approved,
  approve_report, approve_loaded, approve_run, republish, republish_loaded, publish_final,
}
use review.Pipeline.Approval.Publishing.{publish_and_finish-Adds}

module _ {W M P : Type 0} (env : Env W M P) where
  -- A publication of a run that the store held as one being finalized, whose context is approved and
  -- belongs to no canonical attempt; its report is not empty.
  abbrev pub IsApproved : Publication M → Type 0
  IsApproved p =
      (run : Run M) × (p.stored ≡ some run)
      × (run.status ≡ finalizing)
      × ((context_for_run run).hil_approved ≡ true)
      × ((context_for_run run).attempt_id ≡ "")
      × (p.report ≢ "")

  pub lookup-put :
      (id : String) (run : Run M) (s : State W M) → lookup id (put id run s).runs ≡ some run
  unfolding lookup
  lookup-put id run s = rw (eq_refl id) refl

  -- An update leaves the context of a run, or the fields it is built from.
  context_for_run-updated :
      (run : Run M) (status : RunStatus) (e : Option Error)
      → context_for_run (updated env.error_text status e run) ≡ context_for_run run
  unfolding context_for_run updated append_run_event
  context_for_run-updated run status e = elim (Option-cases run.context) [
    | inl n ↦ rw n refl
    | inr (rc, n) ↦ rw n refl
  ]

  -- Below the guards of both handlers, for a state that holds the run as one being finalized.
  publish_and_finish-IsApproved :
      (id kind message report : String) (rc : ReviewContext M) (run : Run M) (s : State W M)
      → lookup id s.runs ≡ some run
      → run.status ≡ finalizing
      → (context_for_run run).hil_approved ≡ rc.hil_approved
      → (context_for_run run).attempt_id ≡ rc.attempt_id
      → report ≢ ""
      → All IsApproved s.published
      → All IsApproved (publish_and_finish env id kind message rc report s).0.published
  publish_and_finish-IsApproved id kind message report rc run s l f h a n all =
      elim (publish_and_finish-Adds env id rc report s kind message) [
        | inl e ↦ rw e all
        | inr (attempt, gate, e) ↦ rw e ((run, l, f, h ∙ gate, a ∙ attempt, n), all)
      ]

  republish-IsApproved :
      (id report : String) (run : Run M) (s : State W M)
      → lookup id s.runs ≡ some run
      → All IsApproved s.published
      → All IsApproved (republish env id (context_for_run run) report s).0.published
  unfolding republish update append_run_event
  republish-IsApproved id report run s l all =
      elim (Bool-cases (not (context_for_run run).hil_approved)) [
        | inl refused ↦ rw refused all
        | inr passed ↦ elim (Bool-cases (str_eq report "")) [
          | inl empty ↦ rw (passed, empty) all
          | inr full ↦
              let next = updated env.error_text finalizing none run in
              let same = context_for_run-updated run finalizing none in
              rw (passed, full, l)
                (publish_and_finish-IsApproved id "final_published" "final report published" report
                  (record (context_for_run run) { final = report }) next (put id next s)
                  (lookup-put id next s) refl (ap (λ c. c.hil_approved) same)
                  (ap (λ c. c.attempt_id) same) (λ e. ground (arith, eq_iff report "")) all)
        ]
      ]

  approve_report-IsApproved :
      (id report : String) (rc : ReviewContext M) (s : State W M)
      → All IsApproved s.published
      → All IsApproved (approve_report env id rc report s).0.published
  unfolding approve_report update save_context lookup append_run_event context_for_run
  approve_report-IsApproved id report rc s all = elim (Bool-cases (str_eq report "")) [
    | inl empty ↦ rw empty all
    | inr full ↦
        let first = saved env.web_url (approved env rc report) (or_new id (lookup id s.runs)) in
        let next = updated env.error_text finalizing none first in
        let same = context_for_run-updated first finalizing none in
        rw (full, eq_refl id)
          (publish_and_finish-IsApproved id "hil_approved" "final report approved and published"
            report (approved env rc report) next (put id next (put id first s))
            (lookup-put id next (put id first s)) refl (ap (λ c. c.hil_approved) same)
            (ap (λ c. c.attempt_id) same) (λ e. ground (arith, eq_iff report "")) all)
  ]

  -- Both handlers down to `Get`.
  loaded-IsApproved :
      (configured : Option Error) (id : String) (f : Run M → Action (State W M) (Unit {0}))
      → (s : State W M) → All IsApproved s.published
      → ((run : Run M) → lookup id s.runs ≡ some run → All IsApproved (f run s).0.published)
      → All IsApproved ((fail_with configured >> get id >>= f) s).0.published
  unfolding get
  loaded-IsApproved (some e) id f s all k = all
  loaded-IsApproved none id f s all k = elim (Option-cases (lookup id s.runs)) [
    | inl n ↦ rw n all
    | inr (run, l) ↦ rw l (k run l)
  ]

  approve_run-IsApproved :
      (id report : String) (s : State W M)
      → All IsApproved s.published
      → All IsApproved (approve_run env id report s).0.published
  unfolding approve_run approve_loaded
  approve_run-IsApproved id report s all =
      loaded-IsApproved env.configured id (approve_loaded env id report) s all (λ run l.
        elim (Option-cases (ensure_approvable_run run)) [
          | inr (e, refused) ↦ rw refused all
          | inl may ↦ rw may (
              approve_report-IsApproved id (final_report_of env report run.draft_report)
                (context_for_run run) s all)
        ])

  publish_final-IsApproved :
      (id report : String) (s : State W M)
      → All IsApproved s.published
      → All IsApproved (publish_final env id report s).0.published
  unfolding publish_final republish_loaded
  publish_final-IsApproved id report s all =
      loaded-IsApproved env.configured id (republish_loaded env id report) s all (λ run l.
        republish-IsApproved id (final_report_of env report (context_for_run run).final) run s l
          all)

  -- A history of the pipeline: the two handlers in any order, each run to its end, and between them
  -- anything else that publishes no final report.
  pub data History : State W M → Type 0 where
    start : {s : State W M} → s.published ≡ [] → History s
    approval :
        {s : State W M} → (id report : String) → History s → History (approve_run env id report s).0
    publication :
        {s : State W M}
        → (id report : String) → History s
        → History (publish_final env id report s).0
    elsewhere : {s t : State W M} → History s → t.published ≡ s.published → History t

  -- After any history of approvals, publications and steps that publish nothing, each final report that
  -- went to the SCM is not empty, and went there for a run that the store then held as one being
  -- finalized, with a context that is approved and belongs to no canonical attempt.
  pub History-IsApproved : {s : State W M} → History s → All IsApproved s.published
  History-IsApproved (start e) = rw e tt
  History-IsApproved (approval {s} id report h) =
      approve_run-IsApproved id report s (History-IsApproved h)
  History-IsApproved (publication {s} id report h) =
      publish_final-IsApproved id report s (History-IsApproved h)
  History-IsApproved (elsewhere h e) = rw e (History-IsApproved h)
