-- ===== src/PlanExecution/Tests.antt =====
-- The execution of a plan of one request, on the tables of one plan that nobody has claimed.
use ai_api_security_platform.Prelude.{
  ◌+◌, ◌*◌, ◌^◌, ◌⊎◌, err, ◌==◌, if◌then◌else◌, ◌≡◌, ◌≢◌, ◌≤◌, refl, sym, ap, Bool, true, false,
  Option, none, some, List, [], ◌∷◌, text, ok, arith,
}
use ai_api_security_platform.Policy.Tests.{py, target, revision, scope, hosts, item_url}
use ai_api_security_platform.Network.Tests.{net, world}
use ai_api_security_platform.Network.Destination.{
  private_local, evaluate_destination_policy, parse_canonical_destination,
}
use ai_api_security_platform.Network.Controller.{integer, check_enabled, validate_target_id}
use ai_api_security_platform.Network.Gateway.{request, check_network_enabled}
use ai_api_security_platform.PlanExecution.Sending.{refresh_authorization, before_network}
use ai_api_security_platform.Executor.{
  Authorization, returns, admitted_by_rate, proceed, wait_and_refresh, recheck, check_mode, mark,
  send,
}
use ai_api_security_platform.Execution.Database.{Db, Attempt, acknowledged}
use ai_api_security_platform.Execution.Cancellation.{get_cancellation, read_statement}
use ai_api_security_platform.Execution.Claim.{
  acquire, validate, acquire_statement, renew, renew_statement, release, release_statement,
  assert_current_in, finite,
}
use ai_api_security_platform.Execution.Progress.{
  prepare_attempt, prepare_statement, mark_network_started, mark_statement,
}
use ai_api_security_platform.Policy.Engine.{
  normalize_method, evaluate, check_authorization, check_request, matching_scope, scope_allows,
  permitted, method_allowed,
}
use ai_api_security_platform.Policy.Origin.{parse_origin, normalize_hostname}
use ai_api_security_platform.Policy.Paths.{
  normalize_request_path, path_matches_scope, normalize_scope_path_pattern, checked_path,
  matches_pattern,
}
use ai_api_security_platform.Execution.Interleaving.{stop, has_started}
use ai_api_security_platform.PlanExecution.Surroundings.{
  uncaught_exception, Plan, PlanAction, Provenance, Preflight, Call, acquiring, preparing, renewing,
  marking, set_up, not_committed, Surroundings, stored,
}
use ai_api_security_platform.PlanExecution.Preflight.{execute}
use ai_api_security_platform.PlanExecution.Releases.{acquisitions, releases, escapes, IsFaulty}
use ai_api_security_platform.PlanExecution.Releases.Complete.{releases_what_it_acquires}
use ai_api_security_platform.PlanExecution.Traces.{weights, IsTraced, AreWorkers}
use ai_api_security_platform.Plans.Tests.{lib, rows, created, approval, revocation, revoked}
use ai_api_security_platform.Plans.Approval.{is_plan_approved}
use ai_api_security_platform.PlanExecution.Revocation.{requests, approved_by, revoked_sends_nothing}
use ai_api_security_platform.PlanExecution.Traces.Complete.{
  execute-IsTraced, sends_once, cancelled_sends_nothing,
}

-- The tables with one row of execution_plans, whose identifier is 7.
abbrev fresh : Db
fresh = record {
  plans = λ p. p == 7;
  claims = λ _. none;
  progress = λ _. none;
  cancellations = λ _. none;
  runs = λ _. none;
}

abbrev withdrawn : Db
withdrawn = record fresh { cancellations = λ p. if p == 7 then some 5 else none }

abbrev authorization : Authorization
authorization = record {
  target = target;
  target_id = integer 4;
  network_mode = private_local;
  revision = some revision;
  scopes = scope ∷ [];
}

abbrev clock : Call → List Attempt
clock acquiring = acknowledged 10 11 ∷ []
clock preparing = acknowledged 20 21 ∷ []
clock renewing = acknowledged 30 31 ∷ []
clock marking = acknowledged 40 41 ∷ []
clock _ = acknowledged 50 51 ∷ []

abbrev surroundings : Surroundings
surroundings = record {
  others = λ _ db. record { events = []; db = db };
  attempts = clock;
  lookup_fails = λ _. false;
  audit_stored = λ _. true;
  claim_owner_id = text "worker-1";
  claim_lease = finite (7378697629483821 * 2 ^ 1008) 100;
  setup = set_up;
  unreadable = λ _. false;
  fresh_integrity = true;
  fresh_authorization = some authorization;
  fresh_approved = true;
  wait = admitted_by_rate;
  observer = λ d. returns tt;
  first_now = 150;
  second_now = 160;
  assertion = acknowledged 50 51;
  persisted = stored;
  new_run = 70;
}

abbrev plan : Plan
plan = record { id = 7; credential_binding_id = none }

abbrev action : PlanAction
action = record { method = text "GET"; url = item_url; test_case_id = some 1; resource_id = some 2 }

abbrev provenance : Provenance
provenance = record {
  target_id = 4;
  authorization = authorization;
  revision = revision;
  require_human_execution_approval = true;
  actor = record { id = 3; target_id = 4; auth_type = text "none"; is_active = true };
  test_case = record { actor_identity_id = 3; resource_id = 2 };
  resource = record {
    id = 2;
    target_id = 4;
    resource_type = text "item";
    external_id = text "1";
    owner_identity_id = none;
  };
  endpoint = record { id = 6; target_id = 4; method = text "GET"; path = text "/items/{item_id}" };
}

abbrev preflight : Preflight
preflight = record {
  plan = some plan;
  integrity = true;
  research = false;
  actions = action ∷ [];
  provenance = some provenance;
  approved = true;
  token = none;
}

alone : AreWorkers surroundings
alone = record { at = λ c db. stop }

execute-IsTraced_example :
    IsTraced 7 fresh (execute 3 surroundings py hosts net world preflight fresh)
execute-IsTraced_example =
    execute-IsTraced 3 surroundings py hosts net world preflight alone plan fresh refl

sends_once_example :
    weights 7 (execute 3 surroundings py hosts net world preflight fresh).log + has_started 7 fresh
    ≤ 1
sends_once_example = sends_once 3 surroundings py hosts net world preflight alone plan fresh refl

withdrawn_cancelled : withdrawn.cancellations 7 ≢ none
withdrawn_cancelled e = absurd (ground (arith, e))

cancelled_sends_nothing_example :
    weights 7 (execute 3 surroundings py hosts net world preflight withdrawn).log ≡ 0
cancelled_sends_nothing_example =
    cancelled_sends_nothing 3 surroundings py hosts net world preflight alone plan withdrawn refl
      withdrawn_cancelled refl

abbrev requires : Option Provenance → Bool
requires none = true
requires (some p) = p.require_human_execution_approval

-- The provenance of `preflight` asks for an approval.
approval_required :
    (p : Provenance) → some provenance ≡ some p → p.require_human_execution_approval ≡ true
approval_required p e = sym (ap requires e)

revoked_sends_nothing_example :
    requests
      (execute 3 surroundings py hosts net world
        (approved_by
          (is_plan_approved lib py rows (λ _. false) created (revocation ∷ approval ∷ []))
          preflight)
        fresh).log
    ≡ 0
revoked_sends_nothing_example =
    revoked_sends_nothing lib rows (λ _. false) created (approval ∷ []) (revocation ∷ approval ∷ [])
      3 surroundings py hosts net world preflight fresh revoked approval_required

releases_what_it_acquires_example :
    (acquisitions (execute 3 surroundings py hosts net world preflight fresh).log
      ≡ releases (execute 3 surroundings py hosts net world preflight fresh).log
        + escapes (execute 3 surroundings py hosts net world preflight fresh).log)
    × ((escapes (execute 3 surroundings py hosts net world preflight fresh).log ≡ 0)
        ⊎ (((execute 3 surroundings py hosts net world preflight fresh).result
              ≡ err uncaught_exception)
            × IsFaulty surroundings))
releases_what_it_acquires_example =
    releases_what_it_acquires 3 surroundings py hosts net world preflight fresh

-- The execution acquires the claim and sends its request, and the row 70 is its result.
request_sent :
    let d = execute 3 surroundings py hosts net world preflight fresh in
    (weights 7 d.log ≡ 1) × (d.result ≡ ok 70) × (d.db.runs 7 ≡ some 70) × (acquisitions d.log ≡ 1)
unfolding execute get_cancellation read_statement acquire validate acquire_statement renew
    renew_statement release release_statement assert_current_in prepare_attempt prepare_statement
    mark_network_started mark_statement normalize_method evaluate check_authorization check_request
    matching_scope scope_allows permitted method_allowed parse_origin normalize_hostname
    normalize_request_path path_matches_scope normalize_scope_path_pattern checked_path
    matches_pattern proceed wait_and_refresh recheck check_mode mark send refresh_authorization
    before_network request check_network_enabled check_enabled validate_target_id
    evaluate_destination_policy parse_canonical_destination
    ai_api_security_platform.Network.Controller.acquire
request_sent = (refl, refl, refl, refl)

-- A commit before the executor's `try` that fails leaves the claim to its lease.
leaked :
    let d =
      execute 3
        (record surroundings { setup = not_committed })
        py
        hosts
        net
        world
        preflight
        fresh in
    (acquisitions d.log ≡ 1) × (releases d.log ≡ 0) × (d.result ≡ err uncaught_exception)
unfolding execute get_cancellation read_statement acquire validate acquire_statement renew
    renew_statement release release_statement assert_current_in prepare_attempt prepare_statement
    mark_network_started mark_statement normalize_method evaluate check_authorization check_request
    matching_scope scope_allows permitted method_allowed parse_origin normalize_hostname
    normalize_request_path path_matches_scope normalize_scope_path_pattern checked_path
    matches_pattern proceed wait_and_refresh recheck check_mode mark send refresh_authorization
    before_network request check_network_enabled check_enabled validate_target_id
    evaluate_destination_policy parse_canonical_destination
    ai_api_security_platform.Network.Controller.acquire
leaked = (refl, refl, refl)
