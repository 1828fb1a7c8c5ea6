-- ===== src/Orchestrator/Complete/Laws.antt =====
-- About `Complete` of agent/orchestrator/orchestrator.go.
use review.Base.{
  String, true, false, not, ◌||◌, List, [], ◌∷◌, Option, none, some, Error, Result, ok, err, ◌≡◌,
  refl, ◌⊎◌, inl, inr, All, Option-cases, Bool-cases,
}
use review.Policy.Schema.{lookup}
use review.Orchestrator.Intent.{LlmRequest}
use review.Orchestrator.Env.{Context, ModelSpec, Env, policy_enforced, is_some}
use review.Orchestrator.Dispatch.{Run, Call}
use review.Orchestrator.Dispatch.Laws.{IsPaid, dispatch_invocation-IsPaid}
use review.Orchestrator.Complete.{
  allows_capability, fatal_dispatch, RoleConfig, Attempt, Completion, request_of, try_spec,
  try_chain, complete, after_attempt,
}

-- The attempt ended with an error that lets the chain go on.
abbrev pub GoesOn : Attempt → Type 0
GoesOn a = (e : Error) × (a.result ≡ err e) × (fatal_dispatch e ≡ false)

-- How a list of attempts yields an answer: all but the last went on; the last one is the answer, or
-- it went on as well and the answer is an error.
abbrev pub Falls : List Attempt → Result String → Type 0
Falls [] r = (e : Error) × (r ≡ err e)
Falls (a ∷ []) r = (a.result ≡ r) ⊎ (GoesOn a × ((e : Error) × (r ≡ err e)))
Falls (a ∷ b ∷ rest) r = GoesOn a × Falls (b ∷ rest) r

Falls-cons :
    (a : Attempt) (rest : List Attempt) (r : Result String)
    → GoesOn a
    → Falls rest r
    → Falls (a ∷ rest) r
Falls-cons a [] r g f = inr (g, f)
Falls-cons a (b ∷ rest) r g f = (g, f)

module _ {W : Type 0} (env : Env W) (registered : String → Option (LlmRequest → Call W))
    (rc : Context) (role step : String) where
  module _ (request : ModelSpec → LlmRequest) where
    after_attempt-Falls :
        (spec : ModelSpec) (r : Run W) (more : Error → W → Completion W)
        → ((e : Error) (v : W) → Falls (more e v).attempts (more e v).answer)
        → Falls
            (after_attempt env registered rc role step request spec r more).attempts
            (after_attempt env registered rc role step request spec r more).answer
    after_attempt-Falls spec (w, events, ok s) more f = inl refl
    after_attempt-Falls spec (w, events, err e) more f = elim (Bool-cases (fatal_dispatch e)) [
      | inl fatal ↦ rw fatal (inl refl)
      | inr mild ↦ rw mild (
          Falls-cons (record { spec = spec; events = events; result = err e }) (more e w).attempts
            (more e w).answer (e, refl, mild) (f e w))
    ]

    try_chain-Falls :
        (chain : List ModelSpec) (last : Option Error) (w : W)
        → let c = try_chain env registered rc role step request chain last w in
          Falls c.attempts c.answer
    unfolding try_chain
    try_chain-Falls [] last w = (_, refl)
    try_chain-Falls (spec ∷ chain) last w = elim (Option-cases (registered spec.provider)) [
      | inl n ↦ rw (try_chain, n) (try_chain-Falls chain last w)
      | inr (provider, n) ↦
          rw (try_chain, n)
            (after_attempt-Falls spec (try_spec env registered rc role step request spec provider w)
              (λ e v. try_chain env registered rc role step request chain (some e) v)
              (λ e v. try_chain-Falls chain (some e) v))
    ]

    -- The events of an attempt are those of a dispatch to the provider registered for its model that
    -- was paid for.
    abbrev pub Paid : Attempt → Type 0
    Paid a =
        (provider : LlmRequest → Call W) × (registered a.spec.provider ≡ some provider)
        × (v : W) × IsPaid env rc (request a.spec) (provider (request a.spec)) a.events v

    after_attempt-Paid :
        (spec : ModelSpec) (r : Run W) (more : Error → W → Completion W)
        → Paid (record { spec = spec; events = r.1; result = r.2 })
        → ((e : Error) (v : W) → All Paid (more e v).attempts)
        → All Paid (after_attempt env registered rc role step request spec r more).attempts
    after_attempt-Paid spec (w, events, ok s) more p f = (p, tt)
    after_attempt-Paid spec (w, events, err e) more p f = elim (Bool-cases (fatal_dispatch e)) [
      | inl fatal ↦ rw fatal (p, tt)
      | inr mild ↦ rw mild (p, f e w)
    ]

    try_chain-Paid :
        (chain : List ModelSpec) (last : Option Error) (w : W)
        → (policy_enforced rc.policy || is_some env.operator_ceilings) ≡ true
        → All Paid (try_chain env registered rc role step request chain last w).attempts
    unfolding try_chain try_spec
    try_chain-Paid [] last w h = tt
    try_chain-Paid (spec ∷ chain) last w h = elim (Option-cases (registered spec.provider)) [
      | inl n ↦ rw (try_chain, n) (try_chain-Paid chain last w h)
      | inr (provider, n) ↦
          rw (try_chain, n)
            (after_attempt-Paid spec (try_spec env registered rc role step request spec provider w)
              (λ e v. try_chain env registered rc role step request chain (some e) v)
              (
                provider,
                n,
                _,
                dispatch_invocation-IsPaid env (provider (request spec)) rc (request spec) spec role
                    step "complete" w h,
              )
              (λ e v. try_chain-Paid chain (some e) v h))
    ]

  module _ (roles : List (String × RoleConfig)) (system_prompt user_message : String)
      (tools : List String) (w : W) where
    abbrev outcome : Completion W
    outcome = complete env registered roles rc role step system_prompt user_message tools w

    -- In `Complete` every attempt but the last ends with an error that is not fatal; the last one is the
    -- answer, or ends with such an error too, and then the answer is an error. With no attempt the
    -- answer is an error.
    pub complete-Falls :
        let c = complete env registered roles rc role step system_prompt user_message tools w in
        Falls c.attempts c.answer
    unfolding complete
    complete-Falls = elim (Bool-cases (not (allows_capability rc.policy "model.review"))) [
      | inl no_right ↦ rw no_right (_, refl)
      | inr right ↦ elim (Option-cases (lookup role roles)) [
        | inl n ↦ rw (right, complete, n) (_, refl)
        | inr (cfg, l) ↦
            rw (right, complete, l)
              (try_chain-Falls (request_of env registered cfg system_prompt user_message tools)
                (cfg.primary ∷ cfg.fallbacks) none w)
      ]
    ]

    -- Where the role is configured, and the policy is enforced or the operator set ceilings, the events
    -- of each attempt of `Complete` are those of a dispatch to the provider registered for its model
    -- that was paid for.
    pub complete-Paid :
        (cfg : RoleConfig)
        → lookup role roles ≡ some cfg
        → (policy_enforced rc.policy || is_some env.operator_ceilings) ≡ true
        → All
            (Paid (request_of env registered cfg system_prompt user_message tools))
            (complete env registered roles rc role step system_prompt user_message tools w).attempts
    unfolding complete
    complete-Paid cfg l h = elim (Bool-cases (not (allows_capability rc.policy "model.review"))) [
      | inl no_right ↦ rw no_right tt
      | inr right ↦
          rw (right, complete, l)
            (try_chain-Paid (request_of env registered cfg system_prompt user_message tools)
              (cfg.primary ∷ cfg.fallbacks) none w h)
    ]
