-- ===== src/Orchestrator/Complete/Tests.antt =====
-- A chain of two models under the ceilings of an operator: the first one fails, the second answers.
-- The world counts the calls of the authority and of the providers.
use review.Base.{
  ℕ, suc, String, true, false, List, [], ◌∷◌, Option, none, some, new, Result, ok, ◌≡◌, refl, ◌⊎◌,
  All, if◌then◌else◌, str_eq,
}
use review.Base.Int.{pos}
use review.Review.Tests.{attempt, execution}
use review.Policy.Schema.{lookup}
use review.Policy.Compile.Tests.{limits}
use review.Orchestrator.Intent.{
  DispatchIntent, DispatchPermit, PreparedAction, ActionClaim, LlmRequest,
}
use review.Orchestrator.Fixtures.{intent, request}
use review.Orchestrator.Limits.{scopes_of, bound_scopes, active_bound}
use review.Orchestrator.Env.{Context, ModelSpec, Authority, Env}
use review.Orchestrator.Reserve.{
  policy_limits, admit_dispatch, intent_of, new_dispatch_intent, claim_and_begin, reserve_dispatch,
}
use review.Orchestrator.Reserve.Laws.{IsBound, new_dispatch_intent-IsBound}
use review.Orchestrator.Reserve.Staged.{IsOwned, reserve_dispatch-IsOwned}
use review.Orchestrator.Dispatch.{
  Run, Call, Call, finish, invoke_within, invoke_reserved, use_permit, dispatch_invocation,
}
use review.Orchestrator.Dispatch.Laws.{IsPaid, dispatch_invocation-IsPaid}
use review.Orchestrator.Complete.{
  allows_capability, fatal_dispatch, RoleConfig, Completion, try_spec, try_chain, complete,
  request_of,
}
use review.Orchestrator.Complete.Laws.{Falls, Paid, complete-Falls, complete-Paid}

abbrev context : Context
context = record {
  policy = record {
    mode = "observe";
    enforced = false;
    digest = "";
    limits = none;
    operator_ceilings = none;
    allowed_capabilities = [];
  };
  attempt = attempt;
  execution = execution;
  attestation = none;
}

abbrev permit_for : DispatchIntent → ℕ → String → DispatchPermit
permit_for i fence worker = record {
  fence = fence;
  worker_id = worker;
  id = i.action_id;
  request_digest = i.request_digest;
  already_started = false;
  active_ms = pos 0;
  not_after = 90;
}

abbrev prepare : DispatchIntent → ℕ → ℕ × Result PreparedAction
prepare i w = (
  suc w,
  ok (record {
    id = i.action_id;
    request_digest = i.request_digest;
    fence = 4;
    already_started = false;
  }),
)

abbrev claim : PreparedAction → String → ℕ → ℕ × Result ActionClaim
claim p worker w = (
  suc w,
  ok (record {
    intent = some intent;
    id = p.id;
    request_digest = p.request_digest;
    worker_id = worker;
    fence = 5;
    lease_until = 80;
    job = none;
  }),
)

abbrev begin : ActionClaim → ℕ → ℕ × Result DispatchPermit
begin c w = (suc w, ok (record (permit_for intent 5 c.worker_id) { id = c.id }))

abbrev env : Env ℕ
env = record {
  ctx_err = λ w. none;
  random_id = λ w. (suc w, ok "0a");
  new_opaque_id = λ prefix w. (suc w, ok "dispatch-1");
  job_claim = none;
  model_checkpoint = "";
  operator_ceilings = some limits;
  authority = some (Authority.simple (λ i w. (suc w, ok (permit_for i 1 "w1"))));
  record_outcome = λ p o w. (suc w, none);
  begin_call = λ ms not_after w. w;
  call_err = λ w. none;
  elapsed_ms = λ start w. pos 3;
  sha256 = λ s. s;
  encode_request = λ req. ok req.user_message;
  encode_intent = λ i. ok i.action_id;
  same_limits = λ a b. true;
  same_job = λ a b. true;
}

abbrev registered : String → Option (LlmRequest → Call ℕ)
registered name =
    if str_eq name "down"
    then some (λ req w. (suc w, "", some (new "unavailable")))
    else some (λ req w. (suc w, "[]", none))

abbrev cfg : RoleConfig
cfg = record {
  primary = record { model = "m1"; provider = "down" };
  fallbacks = (record { model = "m2"; provider = "up" }) ∷ [];
  max_tokens = pos 300;
  parallel = false;
  max_parallel = pos 0;
}

abbrev roles : List (String × RoleConfig)
roles = ("reasoner", cfg) ∷ []

abbrev run : Completion ℕ
run = complete env registered roles context "reasoner" "step5" "" "review" [] 0

answers : run.answer ≡ ok "[]"
unfolding complete allows_capability lookup try_chain try_spec dispatch_invocation
    new_dispatch_intent admit_dispatch intent_of policy_limits active_bound bound_scopes scopes_of
    reserve_dispatch use_permit invoke_reserved invoke_within finish fatal_dispatch
answers = refl

has_role : lookup "reasoner" roles ≡ some cfg
unfolding lookup
has_role = refl

complete-Falls_example : Falls run.attempts run.answer
complete-Falls_example =
    complete-Falls env registered context "reasoner" "step5" roles "" "review" [] 0

complete-Paid_example :
    All
      (Paid env registered context "reasoner" "step5"
        (request_of env registered cfg "" "review" []))
      run.attempts
complete-Paid_example =
    complete-Paid env registered context "reasoner" "step5" roles "" "review" [] 0 cfg has_role refl

abbrev spec : ModelSpec
spec = cfg.primary

abbrev answering : Call ℕ
answering w = (suc w, "[]", none)

abbrev dispatched : Run ℕ
dispatched = dispatch_invocation env context spec "reasoner" "step5" request "complete" answering 0

dispatch_invocation-IsPaid_example : IsPaid env context request answering dispatched.1 dispatched.0
dispatch_invocation-IsPaid_example =
    dispatch_invocation-IsPaid env answering context request spec "reasoner" "step5" "complete" 0
      refl

abbrev made : DispatchIntent
made = record intent {
  provider = "down";
  model = "m1";
  role = "reasoner";
  step = "step5";
  policy_digest = "";
  payload = "review";
  request_digest = "sha256:review";
}

makes :
    new_dispatch_intent env context spec "reasoner" "step5" request "complete" 0
    ≡ (1, ok (made, pos 60000))
unfolding new_dispatch_intent admit_dispatch intent_of policy_limits active_bound bound_scopes
    scopes_of
makes = refl

new_dispatch_intent-IsBound_example : IsBound env context request made (pos 60000)
new_dispatch_intent-IsBound_example =
    new_dispatch_intent-IsBound env context request spec "reasoner" "step5" "complete" 0 makes

reserves :
    reserve_dispatch env (Authority.staged prepare claim begin) intent 0
    ≡ (4, ok (permit_for intent 5 "dispatch-1"))
unfolding reserve_dispatch claim_and_begin
reserves = refl

reserve_dispatch-IsOwned_example :
    ("0a" ≡ intent.action_id)
    × (intent.request_digest ≡ intent.request_digest)
    × (prepared : ℕ) × (p : PreparedAction) × (prepare intent 0 ≡ (prepared, ok p))
    × (((p.already_started ≡ true) × (false ≡ true))
        ⊎ ((p.already_started ≡ false)
            × IsOwned env prepare claim begin intent p prepared (permit_for intent 5 "dispatch-1")))
reserve_dispatch-IsOwned_example =
    reserve_dispatch-IsOwned env prepare claim begin intent 0 reserves
