-- ===== src/Network/Tests.antt =====
-- One request through the gateway, on concrete functions in place of CPython's, of the resolver's and
-- of the network's; and a thread that waits while its target is switched off.
use ai_api_security_platform.Prelude.{
  ◌+◌, ◌*◌, ◌^◌, ◌≡◌, ◌≤◌, refl, inl, true, false, Option, none, some, [], ◌∷◌, Text, text, ◌=ₜ◌,
  ok, err, arith, map, lower_ascii, if◌then◌else◌, In, ltb, length,
}
use ai_api_security_platform.Policy.Python.{Python, SplitUrl, no_port}
use ai_api_security_platform.Network.Address.{
  Address, v4, v6, quad, public, normalized_ip, classify_address, deduplicate_addresses,
}
use ai_api_security_platform.Network.Address.Ranges.{IsInternal}
use ai_api_security_platform.Network.Destination.{
  external_public_authorized, CanonicalDestination, Internet, address, spelled, DnsResolver,
  evaluate_destination_policy, parse_canonical_destination, resolve, canonicalize_resolver_results,
  decide, admits,
}
use ai_api_security_platform.Network.Destination.Policy.{
  IsAdmitted, evaluate-IsAdmitted, external_never-IsInternal,
}
use ai_api_security_platform.Network.Controller.{
  integer, Controller, disable_target, enable_target, check_enabled, acquire, release,
  validate_target_id, outside, waiting, rechecking, admitted, Moves, checks, permits, enters,
  refuses, network_target_disabled, thread, stop, step,
}
use ai_api_security_platform.Network.Controller.Admission.{IsBounded, IsBounded-Trace}
use ai_api_security_platform.Network.Controller.KillSwitch.{
  disable-IsShut, Threads, shut_admits_nobody,
}
use ai_api_security_platform.Network.Gateway.{
  response_too_large, host_value, build_headers, read_bounded, connected, responded, HttpClient,
  World, GatewayRequest, GatewayResult, request, approve, connect_tcp, check_network_enabled,
  request_admitted,
}
use ai_api_security_platform.Network.Gateway.Body.{joined, read_bounded_lem}
use ai_api_security_platform.Network.Gateway.Pinning.{IsGuarded, request-IsGuarded}

abbrev url : Text
url = text "https://api.example/items"

abbrev site : Address
site = v4 (quad 93 184 216 34)

abbrev mirror : Address
mirror = v4 (quad 93 184 216 33)

abbrev intranet : Address
intranet = v4 (quad 10 0 0 5)

abbrev urlsplit_run : Text → Option SplitUrl
urlsplit_run u =
    if u =ₜ url
    then some (record {
      scheme = text "https";
      username = none;
      password = none;
      hostname = some (text "api.example");
      port = no_port;
      path = text "/items";
    })
    else none

abbrev py : Python
py = record {
  urlsplit = urlsplit_run;
  unquote = λ s. s;
  compressed_address = λ _. none;
  lower = map lower_ascii;
  upper = λ s. s;
}

-- One spelling is an address.
abbrev pub net : Internet
net = record {
  python = py;
  parse_address = λ s. if s =ₜ text "93.184.216.34" then some site else none;
  compressed = λ _. text "93.184.216.34";
  is_global = λ _. true;
  idna = λ s. some s;
}

abbrev resolver : DnsResolver
resolver = λ _. some (address site ∷ spelled (text "93.184.216.34") ∷ [])

abbrev mixed_resolver : DnsResolver
mixed_resolver = λ _. some (address site ∷ address intranet ∷ [])

abbrev controller : Controller
controller = record {
  global_enabled = true;
  disabled_target_ids = [];
  maximum_concurrency = 1;
  held = 0;
}

abbrev client : HttpClient
client = record {
  host = λ _. text "api.example";
  port = λ _. 443;
  exchange = λ _ _ _. responded 200 ((1 ∷ 2 ∷ []) ∷ (3 ∷ []) ∷ []);
}

abbrev pub world : World
world = record {
  resolver = resolver;
  connect = λ _ _. connected (some (text "93.184.216.34"));
  client = client;
  verifies_tls = true;
  decimal = λ _. text "443";
  at_entry = controller;
  at_permit = controller;
  at_recheck = controller;
  at_connect = controller;
}

abbrev query : GatewayRequest
query = record {
  target_id = integer 4;
  network_mode = external_public_authorized;
  method = text "GET";
  url = url;
  headers = (text "Accept", text "json") ∷ (text "host", text "other") ∷ [];
  max_response_bytes = 3;
  timeout_seconds = 5;
}

abbrev destination : CanonicalDestination
destination = record {
  scheme = text "https";
  hostname = text "api.example";
  port = 443;
  ip_address = none;
}

parsed : parse_canonical_destination net url ≡ ok destination
unfolding parse_canonical_destination
parsed = refl

decided : (evaluate_destination_policy net external_public_authorized url resolver).allowed ≡ true
unfolding evaluate_destination_policy parse_canonical_destination resolve
    canonicalize_resolver_results deduplicate_addresses decide classify_address
decided = refl

evaluate-IsAdmitted_example :
    IsAdmitted net external_public_authorized url resolver
      (evaluate_destination_policy net external_public_authorized url resolver)
evaluate-IsAdmitted_example =
    evaluate-IsAdmitted net external_public_authorized url resolver decided

resolved_site :
    In site
      (evaluate_destination_policy net external_public_authorized url resolver).resolved_addresses
unfolding evaluate_destination_policy parse_canonical_destination resolve
    canonicalize_resolver_results deduplicate_addresses decide classify_address
resolved_site = inl refl

external_never-IsInternal_example : ¬ IsInternal (normalized_ip site)
external_never-IsInternal_example =
    external_never-IsInternal net url resolver site decided resolved_site

intranet_private :
    admits external_public_authorized (classify_address net.is_global intranet) ≡ false
unfolding classify_address
intranet_private = refl

abbrev answer : GatewayResult
answer = record {
  status_code = 200;
  body = 1 ∷ 2 ∷ 3 ∷ [];
  destination = destination;
  selected_ip = site;
  peer_ip = site;
}

answered : request net world query ≡ ok answer
unfolding request request_admitted approve evaluate_destination_policy parse_canonical_destination
    resolve canonicalize_resolver_results deduplicate_addresses decide classify_address
    build_headers connect_tcp read_bounded check_network_enabled check_enabled acquire
    validate_target_id
answered = refl

request-IsGuarded_example : IsGuarded net world query answer
request-IsGuarded_example = request-IsGuarded net world query answer answered

read_bounded_lem_example : read_bounded 2 ((1 ∷ 2 ∷ []) ∷ (3 ∷ []) ∷ []) 0 [] ≡ (
    if ltb 2 (length (joined ((1 ∷ 2 ∷ []) ∷ (3 ∷ []) ∷ [])))
    then err response_too_large
    else ok (joined ((1 ∷ 2 ∷ []) ∷ (3 ∷ []) ∷ [])))
read_bounded_lem_example = read_bounded_lem 2 ((1 ∷ 2 ∷ []) ∷ (3 ∷ []) ∷ [])

built :
    build_headers (λ _. text "443") query.headers destination
    ≡ ok ((text "Accept", text "json") ∷ (text "Host", text "api.example") ∷ [])
unfolding build_headers host_value
built = refl

abbrev busy : Controller
busy = record controller { held = 1 }

waits : Moves controller outside controller (waiting (integer 4))
unfolding check_enabled validate_target_id
waits = checks (integer 4) 4 refl

takes : Moves controller (waiting (integer 4)) busy (rechecking (integer 4))
unfolding acquire
takes = permits (integer 4) refl

goes_in : Moves busy (rechecking (integer 4)) busy (admitted (integer 4))
unfolding check_enabled validate_target_id
goes_in = enters (integer 4) 4 refl

IsBounded-Trace_example : IsBounded busy (outside ∷ admitted (integer 4) ∷ [])
IsBounded-Trace_example =
    IsBounded-Trace
      (step (thread (outside ∷ []) [] waits)
        (step (thread (outside ∷ []) [] takes) (step (thread (outside ∷ []) [] goes_in) stop)))
      (record { counted = refl; bounded = omega arith })

abbrev switched_off : Controller
switched_off = record controller { disabled_target_ids = 4 ∷ [] }

switched : disable_target (integer 4) controller ≡ ok switched_off
unfolding disable_target validate_target_id
switched = refl

takes_off :
    Moves switched_off
      (waiting (integer 4))
      (record switched_off { held = 1 })
      (rechecking (integer 4))
unfolding acquire
takes_off = permits (integer 4) refl

turned_away : Moves (record switched_off { held = 1 }) (rechecking (integer 4)) switched_off outside
unfolding check_enabled validate_target_id release
turned_away = refuses (integer 4) network_target_disabled refl

shut_admits_nobody_example : 0 ≤ 0
shut_admits_nobody_example =
    shut_admits_nobody {ts = waiting (integer 4) ∷ []} {ts' = outside ∷ []} 4
      (disable-IsShut 4 controller switched_off switched)
      (Threads.step [] [] takes_off (Threads.step [] [] turned_away Threads.stop))

switched_on : enable_target (integer 4) switched_off ≡ ok controller
unfolding enable_target validate_target_id
switched_on = refl

mapped_public : classify_address net.is_global (v6 (0xffff * 2 ^ 32 + quad 93 184 216 34)) ≡ public
unfolding classify_address
mapped_public = refl
