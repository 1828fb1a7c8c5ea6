-- ===== src/Orchestrator/Complete.antt =====
-- agent/orchestrator/orchestrator.go: `Complete`, its chain of fallbacks, and the choice of a model
-- for a batch. `registered` is the map of providers; a registered one is the call that it makes.
pub mod Laws
mod Tests
use review.Base.{
  ℕ, String, Bool, true, false, not, ◌||◌, ◌&&◌, if◌then◌else◌, List, [], ◌∷◌, ◌++◌, Option, none,
  some, Error, new, errorf, wrap, Result, ok, err, str_eq, ltb, ◌+◌, length,
}
use review.Base.Int.{ℤ}
use review.Base.Names.{contains}
use review.Policy.Schema.{lookup}
use review.Orchestrator.Intent.{LlmRequest}
use review.Orchestrator.Env.{
  PolicyProjection, Context, ModelSpec, Env, policy_enforced, is_some, Event,
}
use review.Orchestrator.Dispatch.{Run, Call, dispatch_invocation}

-- `PolicyProjection.AllowsCapability`
unfoldable pub allows_capability : PolicyProjection → String → Bool
allows_capability p capability =
    if not p.enforced && not (str_eq p.mode "enforce")
    then true
    else contains p.allowed_capabilities capability

-- `errors.As` for a `*budgetError`
unfoldable pub is_budget_error : Error → Bool
is_budget_error (new s) = false
is_budget_error (errorf s args) = false
is_budget_error (wrap s e) = str_eq s "orchestrator: budget: " || is_budget_error e

-- `errors.Is` for an error that `errors.New` made
unfoldable pub is_error : String → Error → Bool
is_error target (new s) = str_eq s target
is_error target (errorf s args) = false
is_error target (wrap s e) = is_error target e

-- `fatalDispatch`, with the texts of `context.Canceled` and `context.DeadlineExceeded`
unfoldable pub fatal_dispatch : Error → Bool
unfolding is_budget_error is_error
fatal_dispatch e =
    is_budget_error e || is_error "context canceled" e || is_error "context deadline exceeded" e

pub record RoleConfig : Type 0 where
  pub primary : ModelSpec
  pub fallbacks : List ModelSpec
  pub max_tokens : ℤ
  pub parallel : Bool
  pub max_parallel : ℤ

-- One call of `dispatch` in the chain.
pub record Attempt : Type 0 where
  pub spec : ModelSpec
  pub events : List Event
  pub result : Result String

-- What `Complete` leaves: the world, its attempts, the provider that `RecordProvider` notes for the
-- step, and what it returns.
pub record Completion (W : Type 0) : Type 0 where
  pub world : W
  pub attempts : List Attempt
  pub provider : Option ModelSpec
  pub answer : Result String

abbrev all_failed : String → Option Error → Error
all_failed step none = errorf "orchestrator: %s: all providers failed, last error: %w" (step ∷ [])
all_failed step (some e) = wrap "orchestrator: %s: all providers failed, last error: %w" e

abbrev attempt_of : {W : Type 0} → ModelSpec → Run W → Attempt
attempt_of spec (w, events, r) = record { spec = spec; events = events; result = r }

abbrev with_attempt : {W : Type 0} → Attempt → Completion W → Completion W
with_attempt a c = record c { attempts = a ∷ c.attempts }

module _ {W : Type 0} (env : Env W) (registered : String → Option (LlmRequest → Call W)) where
  abbrev pub request_of : RoleConfig → String → String → List String → ModelSpec → LlmRequest
  request_of cfg system_prompt user_message tools spec = record {
    model = spec.model;
    system_prompt = system_prompt;
    user_message = user_message;
    max_tokens = cfg.max_tokens;
    tools = tools;
  }

  module _ (rc : Context) (role step : String) (request : ModelSpec → LlmRequest) where
    unfoldable pub try_spec : ModelSpec → (LlmRequest → Call W) → W → Run W
    try_spec spec provider w =
        dispatch_invocation env rc spec role step (request spec) "complete"
          (provider (request spec)) w

    -- The loop body from the answer of `dispatch` on; `more` is the rest of the loop.
    abbrev after_attempt : ModelSpec → Run W → (Error → W → Completion W) → Completion W
    after_attempt spec (w, events, ok s) more = record {
      world = w;
      attempts = record { spec = spec; events = events; result = ok s } ∷ [];
      provider = some spec;
      answer = ok s;
    }
    after_attempt spec (w, events, err e) more =
        if fatal_dispatch e
        then record {
          world = w;
          attempts = record { spec = spec; events = events; result = err e } ∷ [];
          provider = none;
          answer = err e;
        }
        else with_attempt (record { spec = spec; events = events; result = err e }) (more e w)

    -- The loop over the chain, with the last error.
    unfoldable pub try_chain : List ModelSpec → Option Error → W → Completion W
    try_chain [] last w = record {
      world = w;
      attempts = [];
      provider = none;
      answer = err (all_failed step last);
    }
    try_chain (spec ∷ chain) last w = elim (registered spec.provider) [
      | none ↦ try_chain chain last w
      | some provider ↦
          after_attempt spec (try_spec spec provider w) (λ e v. try_chain chain (some e) v)
    ]

  -- `Complete`
  unfoldable pub complete :
      List (String × RoleConfig)
      → Context
      → String
      → String
      → String
      → String
      → List String
      → W
      → Completion W
  complete roles rc role step system_prompt user_message tools w =
      if not (allows_capability rc.policy "model.review")
      then record {
        world = w;
        attempts = [];
        provider = none;
        answer = err (new "orchestrator: effective policy denies model.review");
      }
      else elim (lookup role roles) [
        | none ↦ record {
          world = w;
          attempts = [];
          provider = none;
          answer = err (errorf "orchestrator: unknown role %q" (role ∷ []));
        }
        | some cfg ↦
            try_chain rc role step (request_of cfg system_prompt user_message tools)
              (cfg.primary ∷ cfg.fallbacks) none w
      ]
