-- ===== src/Orchestrator/Fixtures.antt =====
-- One model request of one attempt.
use review.Base.{[], none}
use review.Base.Int.{pos}
use review.Review.Tests.{attempt, execution}
use review.Policy.Compile.Tests.{limits}
use review.Orchestrator.Intent.{DispatchIntent, LlmRequest}

abbrev pub request : LlmRequest
request = record {
  model = "m";
  system_prompt = "";
  user_message = "review";
  max_tokens = pos 300;
  tools = [];
}

abbrev pub intent : DispatchIntent
intent = record {
  model_checkpoint = "";
  invocation = "complete";
  job = none;
  action_id = "0a";
  provider = "p";
  model = "m";
  role = "analysis";
  step = "review";
  request_digest = "sha256:{review}";
  policy_digest = "sha256:1";
  payload = "{review}";
  attempt = attempt;
  execution = execution;
  attestation = none;
  policy_limits = none;
  operator_ceilings = limits;
}
