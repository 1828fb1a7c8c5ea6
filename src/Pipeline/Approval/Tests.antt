-- ===== src/Pipeline/Approval/Tests.antt =====
-- The approval at concrete inputs: a drafted run of a world that counts its calls.
use review.Base.{
  ℕ, suc, String, false, List, [], ◌∷◌, none, some, new, errorf, ok, err, ◌≡◌, ◌≢◌, refl, All,
}
use review.Base.Text.{is_blank}
use review.Policy.Schema.{lookup}
use review.Pipeline.RunStore.{
  empty_request, drafted, Run, State, update, updated, save_context, saved, append_event,
  append_run_event, get,
}
use review.Pipeline.Approval.{
  Env, ensure_approvable_run, context_for_run, final_report_of, publish_to, publish_source, finish,
  publish_and_finish, approve_report, approve_loaded, approve_run, republish, republish_loaded,
  publish_final,
}
use review.Pipeline.Approval.Laws.{IsApproved, start, approval, publication, History-IsApproved}
use review.Pipeline.Approval.Success.{Published, IsFinalized, approve_run-IsFinalized}

abbrev env : Env ℕ String String
env = record {
  configured = none;
  error_text = λ e. "failed";
  replace_once = λ s old with_text. s;
  web_url = λ scm. "";
  enrich = λ request w. (suc w, ok "scm");
  publish = λ scm report w. (suc w, ok tt);
  channels = some (λ id report w. (suc w, ok tt));
  propose_update = λ rc w. (suc w, ok "proposal");
  write = λ proposal w. (suc w, ok tt);
}

abbrev run : Run String
run = record {
  id = "p!1";
  request = empty_request;
  status = drafted;
  error = "";
  context = none;
  draft_report = "draft";
  final_report = "";
  hil_approved = false;
  web_url = "";
  events = [];
}

abbrev before : State ℕ String
before = record { runs = ("p!1", run) ∷ []; world = 0; published = [] }

abbrev after : State ℕ String
after = (approve_run env "p!1" "final" before).0

unapproved :
    (publish_final env "p!1" "final" before).1
    ≡ err (new "pipeline: HIL approval required before final publish")
unfolding publish_final get republish_loaded republish context_for_run final_report_of lookup
unapproved = refl

accepted : approve_run env "p!1" "final" before ≡ (after, ok tt)
unfolding approve_run get approve_loaded ensure_approvable_run approve_report context_for_run
    final_report_of lookup publish_and_finish publish_source publish_to finish update save_context
    append_event is_blank
accepted = refl

calls : after.world ≡ 5
unfolding approve_run get approve_loaded ensure_approvable_run approve_report context_for_run
    final_report_of lookup publish_and_finish publish_source publish_to finish update save_context
    append_event is_blank
calls = refl

History-IsApproved_example :
    All
      (IsApproved env)
      (publish_final env "p!1" "" (approve_run env "p!1" "final" before).0).0.published
History-IsApproved_example =
    History-IsApproved env (publication "p!1" "" (approval "p!1" "final" (start {s = before} refl)))

approve_run-IsFinalized_example :
    (r : Run String) × (lookup "p!1" before.runs ≡ some r)
    × (ensure_approvable_run r ≡ none)
    × let final = final_report_of env "final" r.draft_report in
      ((final ≢ "") × Published env "p!1" final before after × IsFinalized env "p!1" final after)
approve_run-IsFinalized_example = approve_run-IsFinalized env "p!1" "final" before after accepted

-- The report that the last publication of a state sent.
abbrev last_report : State ℕ String → List String
last_report s = elim s.published [ [] ↦ [] | p ∷ ps ↦ p.report ∷ [] ]

-- An approved run, republished with a text that nobody approved.
replaced : last_report (publish_final env "p!1" "other" after).0 ≡ "other" ∷ []
unfolding approve_run get approve_loaded ensure_approvable_run approve_report context_for_run
    final_report_of lookup publish_and_finish publish_source publish_to finish update save_context
    append_event is_blank publish_final republish_loaded republish
replaced = refl

-- A finalized run is not approved again.
approved_once :
    (approve_run env "p!1" "other" after).1
    ≡ err (errorf "pipeline: run status %q cannot be approved" ("finalized" ∷ []))
unfolding approve_run get approve_loaded ensure_approvable_run approve_report context_for_run
    final_report_of lookup publish_and_finish publish_source publish_to finish update save_context
    append_event is_blank updated saved append_run_event
approved_once = refl
