-- ===== src/Pipeline/Approval/Success.antt =====
-- About the approval of agent/pipeline/pipeline.go: what an approval leaves behind.
use review.Base.{
  String, true, not, ◌∷◌, Option, none, some, Error, Result, ok, err, str_eq, ◌≡◌, ◌≢◌, refl, sym,
  ap, ◌∙◌, inl, inr, Bool-cases, Option-cases, eq_refl, eq_iff, arith,
}
use review.Policy.Schema.{lookup}
use review.Orchestrator.Action.{continue, ◌>>◌, return, fail_with}
use review.Pipeline.RunStore.{
  RunEvent, append_run_event, finalized, ReviewContext, Run, State, put, or_new, update, updated,
  saved, save_context, append_event, get,
}
use review.Pipeline.Approval.{
  Env, ensure_approvable_run, context_for_run, final_report_of, in_world, or_failed_with, or_failed,
  noted, publish_to, enriched, publish_source, notify, write_approved_memory, finish,
  publish_and_finish, approved, approve_report, approve_loaded, approve_run,
}
use review.Orchestrator.Action.{continue-eq-ok}
use review.Pipeline.Approval.Publishing.{finish-Quiet, publish_to-published, enriched-published}
use review.Pipeline.Approval.Laws.{lookup-put}

module _ {W M P : Type 0} (env : Env W M P) where
  -- The store holds the run as finalized and approved, with the final report.
  abbrev pub IsFinalized : String → String → State W M → Type 0
  IsFinalized id report t =
      (run : Run M) × (lookup id t.runs ≡ some run)
      × (run.status ≡ finalized)
      × (run.hil_approved ≡ true)
      × (run.final_report ≡ report)

  module _ (id kind message report : String) (rc : ReviewContext M) (t : State W M) where
    abbrev event : RunEvent
    event = record { kind = kind; status = finalized; message = message }

    abbrev kept_run : State W M → Run M
    kept_run s = saved env.web_url rc (or_new id (lookup id s.runs))

    abbrev closed_run : State W M → Run M
    closed_run s = updated env.error_text finalized none (kept_run s)

    abbrev closed_state : State W M → State W M
    closed_state s =
        put id (append_run_event event (closed_run s))
          (put id (closed_run s) (put id (kept_run s) s))

    closing :
        (s : State W M)
        → (save_context env.web_url id rc
              >> update env.error_text id finalized none
              >> append_event id event)
            s
          ≡ (closed_state s, ok tt)
    unfolding save_context update append_event lookup
    closing s = rw (eq_refl id) refl

    finish_after :
        (r : State W M × Result (Unit {0})) {u : Unit {0}}
        → continue
            (continue
              (continue r (λ _. save_context env.web_url id rc))
              (λ _. update env.error_text id finalized none))
            (λ _. append_event id event)
          ≡ (t, ok u)
        → rc.hil_approved ≡ true
        → IsFinalized id rc.final t
    unfolding saved updated append_run_event
    finish_after (s, err e) h a = cc
    finish_after (s, ok v) h a =
        let e : closed_state s ≡ t = ap (λ p. p.0) (sym (closing s) ∙ h) in
        (
          append_run_event event (closed_run s),
          ap (λ x. lookup id x.runs) (sym e)
              ∙ lookup-put env id (append_run_event event (closed_run s))
                  (put id (closed_run s) (put id (kept_run s) s)),
          refl,
          a,
          refl,
        )

    finish-IsFinalized :
        (s : State W M) {u : Unit {0}}
        → finish env id kind message report rc s ≡ (t, ok u)
        → rc.hil_approved ≡ true
        → IsFinalized id rc.final t
    unfolding finish
    finish-IsFinalized s h a =
        finish_after
          ((or_failed env id (notify env env.channels id report)
              >> or_failed env id (write_approved_memory env rc))
            s)
          h a

  -- What `publishFinal` sends when it reports no error.
  abbrev Sends : String → ReviewContext M → String → State W M → State W M → Type 0
  Sends id rc report s t =
      t.published ≡ record { run_id = id; report = report; stored = lookup id s.runs } ∷ s.published

  or_failed_with-ok :
      {A : Type 0} (id : String) (r : State W M × Result A) {t : State W M} {a : A}
      → or_failed_with env id r ≡ (t, ok a)
      → r ≡ (t, ok a)
  or_failed_with-ok id (s, ok b) h = h
  or_failed_with-ok id (s, err e) h = cc

  module _ (id report : String) (rc : ReviewContext M) (s t : State W M) where
    -- From the SCM context on.
    sent_to :
        (r : State W M × Result M) {v : ReviewContext M}
        → continue r (publish_to env id rc report) ≡ (t, ok v)
        → (r.0.published ≡ s.published) × (r.0.runs ≡ s.runs)
        → Sends id rc report s t × (v.final ≡ rc.final) × (v.hil_approved ≡ rc.hil_approved)
    unfolding publish_to
    sent_to (u, err e) h (p, q) = cc
    sent_to (u, ok scm) h (p, q) =
        let e = publish_to-published env id report rc scm u in
        let (x, _, _, f) =
          continue-eq-ok (in_world env (noted env id report u) (env.publish scm report u.world))
            (λ _. return (ok (record rc { scm = some scm }))) h in
        (cc, cc, cc)

    publish_source-Sends :
        {v : ReviewContext M}
        → publish_source env id rc report s ≡ (t, ok v)
        → Sends id rc report s t × (v.final ≡ rc.final) × (v.hil_approved ≡ rc.hil_approved)
    unfolding publish_source
    publish_source-Sends h = elim (Bool-cases (not (str_eq rc.attempt_id ""))) [
      | inl canonical ↦ absurd (let k = (rw canonical at h) in cc)
      | inr plain ↦ elim (Bool-cases (not rc.hil_approved)) [
        | inl refused ↦ absurd (let k = (rw (plain, refused) at h) in cc)
        | inr passed ↦
            let k = (rw (plain, passed) at h) in
            sent_to (enriched env rc.scm rc.request s) k
              (enriched-published env rc.scm rc.request s)
      ]
    ]

  publish_and_finish-IsFinalized :
      (id kind message report : String) (rc : ReviewContext M) (s t : State W M) {u : Unit {0}}
      → publish_and_finish env id kind message rc report s ≡ (t, ok u)
      → rc.hil_approved ≡ true
      → Sends id rc report s t × IsFinalized id rc.final t
  unfolding publish_and_finish
  publish_and_finish-IsFinalized id kind message report rc s t h a =
      let (u, v, e, f) =
        continue-eq-ok (or_failed env id (publish_source env id rc report) s)
          (finish env id kind message report) h in
      let (p, q, r) =
        publish_source-Sends id report rc s u
          (or_failed_with-ok id (publish_source env id rc report s) e) in
      let (run, l, st, hil, fin) = finish-IsFinalized id kind message report v t u f (r ∙ a) in
      (
        ap (λ x. x.0.published) (sym f) ∙ finish-Quiet env id kind message report v u ∙ p,
        (run, l, st, hil, fin ∙ q),
      )

  -- A report for a run went to the SCM, after the ones that went before.
  abbrev pub Published : String → String → State W M → State W M → Type 0
  Published id report s t =
      (stored : Option (Run M)) × (t.published
        ≡ record { run_id = id; report = report; stored = stored } ∷ s.published)

  approve_report-IsFinalized :
      (id report : String) (rc : ReviewContext M) (s t : State W M) {u : Unit {0}}
      → approve_report env id rc report s ≡ (t, ok u)
      → (report ≢ "") × Published id report s t × IsFinalized id report t
  unfolding approve_report update save_context
  approve_report-IsFinalized id report rc s t h = elim (Bool-cases (str_eq report "")) [
    | inl empty ↦ absurd (let k = (rw empty at h) in cc)
    | inr full ↦
        let k = (rw full at h) in
        let (p, f) =
          publish_and_finish-IsFinalized id "hil_approved" "final report approved and published"
            report (approved env rc report) _ t k refl in
        ((λ e. ground (arith, eq_iff report "")), (_, p), f)
  ]

  loaded :
      (configured : Option Error) (id : String) (s v : State W M) (run : Run M)
      → (fail_with configured >> get id) s ≡ (v, ok run)
      → (v ≡ s) × (lookup id s.runs ≡ some run)
  unfolding get
  loaded (some e) id s v run h = cc
  loaded none id s v run h = elim (Option-cases (lookup id s.runs)) [
    | inl n ↦ absurd (let k = (rw n at h) in cc)
    | inr (r, l) ↦ let k = (rw l at h) in (cc, cc)
  ]

  -- Where `ApproveRun` returns no error, the run was stored and could be approved; the report given, or
  -- else the finalized draft, is not empty and was published once, after the earlier ones; and the
  -- store now holds the run as finalized and approved with that final report.
  pub approve_run-IsFinalized :
      (id report : String) (s t : State W M) {u : Unit {0}}
      → approve_run env id report s ≡ (t, ok u)
      → (run : Run M) × (lookup id s.runs ≡ some run)
        × (ensure_approvable_run run ≡ none)
        × let final = final_report_of env report run.draft_report in
          ((final ≢ "") × Published id final s t × IsFinalized id final t)
  unfolding approve_run approve_loaded get
  approve_run-IsFinalized id report s t h =
      let (v, run, e, f) =
        continue-eq-ok ((fail_with env.configured >> get id) s) (approve_loaded env id report) h in
      let (same, l) = loaded env.configured id s v run e in
      let g : approve_loaded env id report run s ≡ (t, ok tt) =
        ap (approve_loaded env id report run) (sym same) ∙ f in
      elim (Option-cases (ensure_approvable_run run)) [
        | inr (refusal, n) ↦ absurd (let k = (rw n at g) in cc)
        | inl may ↦
            let k = (rw may at g) in
            let (full, p, final) =
              approve_report-IsFinalized id (final_report_of env report run.draft_report)
                (context_for_run run) s t k in
            (run, l, may, (full, p, final))
      ]
