-- ===== src/Executor/Tests.antt =====
-- A call whose request is handed to the gateway after both evaluations.
use ai_api_security_platform.Prelude.{refl, inl, inr, false, some, [], ◌∷◌, text}
use ai_api_security_platform.Policy.Tests.{py, target, revision, scope, hosts, item_url}
use ai_api_security_platform.Network.Tests.{net, world}
use ai_api_security_platform.Policy.Origin.{parse_origin, normalize_hostname}
use ai_api_security_platform.Policy.Paths.{
  normalize_request_path, matches_pattern, path_matches_scope, normalize_scope_path_pattern,
  checked_path,
}
use ai_api_security_platform.Policy.Engine.{
  evaluate, permitted, check_authorization, check_request, matching_scope, scope_allows,
  normalize_method, method_allowed,
}
use ai_api_security_platform.Network.Destination.{private_local}
use ai_api_security_platform.Network.Controller.{integer}
use ai_api_security_platform.Network.Gateway.{GatewayRequest}
use ai_api_security_platform.Executor.{
  Authorization, returns, admitted_by_rate, Caller, gateway_request, send, mark, check_mode,
  recheck, wait_and_refresh, proceed, execute,
}
use ai_api_security_platform.Executor.Clearance.{Sends, IsCleared, sent-IsCleared}

abbrev authorization : Authorization
authorization = record {
  target = target;
  target_id = integer 4;
  network_mode = private_local;
  revision = some revision;
  scopes = scope ∷ [];
}

abbrev caller : Caller
caller = record {
  wait = admitted_by_rate;
  refresh = some (returns authorization);
  observer = some (λ d. returns tt);
  before_network = some (returns tt);
  has_boundary = false;
  first_now = 150;
  second_now = 160;
}

abbrev handed : GatewayRequest
handed = gateway_request py hosts net world caller item_url [] (text "GET") authorization

is_sent : Sends handed (execute py hosts net world caller item_url [] authorization (text "get"))
unfolding execute proceed wait_and_refresh recheck check_mode mark send evaluate permitted
    check_authorization check_request matching_scope scope_allows normalize_method method_allowed
    parse_origin normalize_hostname normalize_request_path checked_path path_matches_scope
    matches_pattern normalize_scope_path_pattern
is_sent = inr (inr (inr (inr (inl refl))))

sent-IsCleared_example :
    IsCleared py hosts net world caller item_url [] authorization
      (text "get")
      handed
      (execute py hosts net world caller item_url [] authorization (text "get")).log
sent-IsCleared_example =
    sent-IsCleared py hosts net world caller item_url [] handed authorization (text "get") is_sent
