-- ===== src/Pipeline/Approval/Publishing.antt =====
-- About the publication of a final report in agent/pipeline/pipeline.go: what each step adds to the
-- reports published.
use review.Base.{
  String, true, not, ◌∷◌, Option, none, some, Result, ok, err, str_eq, ◌≡◌, refl, ◌∙◌, ◌⊎◌, inl,
  inr, Bool-cases, Option-cases, eq_iff, arith,
}
use review.Policy.Schema.{lookup}
use review.Orchestrator.Action.{Action, continue, ◌>>◌, return}
use review.Pipeline.RunStore.{
  Request, RunEvent, finalized, ReviewContext, State, update, save_context, append_event,
}
use review.Pipeline.Approval.{
  Env, in_world, or_failed_with, or_failed, noted, publish_to, enriched, publish_source, notify,
  write_approved_memory, finish, publish_and_finish,
}

module _ {W M P : Type 0} (env : Env W M P) where
  -- The action publishes nothing.
  abbrev pub Quiet : {A : Type 0} → Action (State W M) A → Type 0
  Quiet m = (s : State W M) → (m s).0.published ≡ s.published

  pub continue-published :
      {A B : Type 0} (r : State W M × Result A) (f : A → Action (State W M) B)
      → ((a : A) → Quiet (f a))
      → (continue r f).0.published ≡ r.0.published
  continue-published (s, ok a) f q = q a s
  continue-published (s, err e) f q = refl

  then-Quiet :
      {B : Type 0} (m : Action (State W M) (Unit {0})) (k : Action (State W M) B)
      → Quiet m
      → Quiet k
      → Quiet (m >> k)
  then-Quiet m k q h s = continue-published (m s) (λ _. k) (λ _. h) ∙ q s

  pub or_failed_with-published :
      {A : Type 0} (id : String) (r : State W M × Result A)
      → (or_failed_with env id r).0.published ≡ r.0.published
  unfolding update
  or_failed_with-published id (s, ok a) = refl
  or_failed_with-published id (s, err e) = refl

  or_failed-Quiet :
      {A : Type 0} (id : String) (m : Action (State W M) A) → Quiet m → Quiet (or_failed env id m)
  or_failed-Quiet id m q s = or_failed_with-published id (m s) ∙ q s

  notify-Quiet :
      (channels : Option (String → String → Action W (Unit {0}))) (id report : String)
      → Quiet (notify env channels id report)
  notify-Quiet none id report s = refl
  notify-Quiet (some send) id report s = refl

  append_event-Quiet : (id : String) (e : RunEvent) → Quiet (append_event id e)
  unfolding append_event
  append_event-Quiet id e s = elim (Option-cases (lookup id s.runs)) [
    | inl n ↦ rw n refl
    | inr (run, l) ↦ rw l refl
  ]

  module _ (id kind message report : String) (rc : ReviewContext M) where
    abbrev told : Action (State W M) (Unit {0})
    told = or_failed env id (notify env env.channels id report)

    abbrev remembered : Action (State W M) (Unit {0})
    remembered = or_failed env id (write_approved_memory env rc)

    abbrev kept : Action (State W M) (Unit {0})
    kept = save_context env.web_url id rc

    abbrev closed : Action (State W M) (Unit {0})
    closed = update env.error_text id finalized none

    told_and_remembered-Quiet : Quiet (told >> remembered)
    told_and_remembered-Quiet =
        then-Quiet told remembered
          (or_failed-Quiet id (notify env env.channels id report)
            (notify-Quiet env.channels id report))
          (or_failed-Quiet id (write_approved_memory env rc) (λ s. refl))

    kept_and_closed-Quiet : Quiet (told >> remembered >> kept >> closed)
    unfolding update save_context
    kept_and_closed-Quiet =
        then-Quiet (told >> remembered >> kept) closed
          (then-Quiet (told >> remembered) kept told_and_remembered-Quiet (λ s. refl)) (λ s. refl)

    pub finish-Quiet : Quiet (finish env id kind message report rc)
    unfolding finish
    finish-Quiet =
        then-Quiet (told >> remembered >> kept >> closed)
          (append_event id (record { kind = kind; status = finalized; message = message }))
          kept_and_closed-Quiet
          (append_event-Quiet id (record { kind = kind; status = finalized; message = message }))

  -- What `publishFinal` adds: nothing, or one publication of the run as the store holds it, by a
  -- context that is approved and belongs to no canonical attempt.
  abbrev pub Adds : String → ReviewContext M → String → State W M → State W M → Type 0
  Adds id rc report s t =
      (t.published ≡ s.published)
      ⊎ ((rc.attempt_id ≡ "")
          × (rc.hil_approved ≡ true)
          × (t.published
              ≡ record { run_id = id; report = report; stored = lookup id s.runs } ∷ s.published))

  pub publish_to-published :
      (id report : String) (rc : ReviewContext M) (scm : M) (s : State W M)
      → (publish_to env id rc report scm s).0.published
        ≡ record { run_id = id; report = report; stored = lookup id s.runs } ∷ s.published
  unfolding publish_to
  publish_to-published id report rc scm s =
      continue-published (in_world env (noted env id report s) (env.publish scm report s.world))
        (λ _. return (ok (record rc { scm = some scm }))) (λ _ _. refl)

  -- The end of `publishFinal`, for a context that its guards let pass.
  published_to :
      (id report : String) (rc : ReviewContext M) (s : State W M)
      → (r : State W M × Result M) → (r.0.published ≡ s.published) × (r.0.runs ≡ s.runs)
      → rc.attempt_id ≡ ""
      → rc.hil_approved ≡ true
      → Adds id rc report s (continue r (publish_to env id rc report)).0
  published_to id report rc s (t, ok scm) (p, q) a h =
      let e = publish_to-published id report rc scm t in inr (a, h, cc)
  published_to id report rc s (t, err e) (p, q) a h = inl p

  pub enriched-published :
      (scm : Option M) (request : Request) (s : State W M)
      → ((enriched env scm request s).0.published ≡ s.published)
        × ((enriched env scm request s).0.runs ≡ s.runs)
  enriched-published none request s = (refl, refl)
  enriched-published (some scm) request s = (refl, refl)

  module _ (id : String) (rc : ReviewContext M) (report : String) (s : State W M) where
    publish_source-Adds : Adds id rc report s (publish_source env id rc report s).0
    unfolding publish_source
    publish_source-Adds = elim (Bool-cases (not (str_eq rc.attempt_id ""))) [
      | inl canonical ↦ rw canonical (inl refl)
      | inr plain ↦ elim (Bool-cases (not rc.hil_approved)) [
        | inl open_gate ↦ rw (plain, open_gate) (inl refl)
        | inr passed ↦
            rw (plain, passed)
              (published_to id report rc s (enriched env rc.scm rc.request s)
                (enriched-published rc.scm rc.request s) (ground (arith, eq_iff rc.attempt_id ""))
                (ground arith))
      ]
    ]

    pub publish_and_finish-Adds :
        (kind message : String)
        → Adds id rc report s (publish_and_finish env id kind message rc report s).0
    unfolding publish_and_finish
    publish_and_finish-Adds kind message =
        let e =
          continue-published (or_failed env id (publish_source env id rc report) s)
            (finish env id kind message report) (finish-Quiet id kind message report) in
        let f = or_failed_with-published id (publish_source env id rc report s) in
        rw (e ∙ f) publish_source-Adds
