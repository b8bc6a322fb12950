-- ===== src/Network/Gateway.antt =====
-- backend/app/network_safety/gateway.py: one request to an approved destination. The connection, the
-- TLS layer and the HTTP client (httpcore) are parameters; the research boundary is left out.
pub mod Headers
pub mod Body
pub mod Pinning
use ai_api_security_platform.Prelude.{
  ℕ, suc, ◌+◌, ◌==◌, ltb, leb, ◌≡◌, Bool, true, false, not, ◌&&◌, ◌||◌, Option, none, some, List,
  [], ◌∷◌, ◌++◌, map, Text, text, ◌=ₜ◌, lower_ascii, contains, any, all, length, Result, ok, err,
  ◌>>=◌, ◌>>◌, guard, if◌then◌else◌,
}
use ai_api_security_platform.Network.Address.{
  Address, AddressCategory, normalized_ip, same_address, classify_address,
}
use ai_api_security_platform.Network.Destination.{
  NetworkMode, CanonicalDestination, Internet, DnsResolver, DecisionCode, DestinationPolicyDecision,
  destination_invalid, destination_resolution_failed, destination_resolution_empty, admits,
  evaluate_destination_policy,
}
use ai_api_security_platform.Network.Controller.{
  Denial, network_concurrency_timeout, Identifier, Controller, check_enabled, acquire,
}

-- The codes of NetworkGatewayError; `denied` carries a code of the controller over.
pub data GatewayError : Type 0 where
  network_request_failed destination_policy_denied invalid_destination resolution_failed :
      GatewayError
  resolution_empty tls_verification_required destination_connect_failed : GatewayError
  destination_peer_unavailable destination_peer_prohibited destination_peer_mismatch : GatewayError
  response_too_large : GatewayError
  denied : Denial → GatewayError

abbrev pub Header : Type 0
Header = Text × Text

-- `_HEADER_NAME_CHARACTERS`
abbrev pub is_name_character : ℕ → Bool
is_name_character c =
    leb b'0' c && leb c b'9'
    || leb b'a' c && leb c b'z'
    || leb b'A' c && leb c b'Z'
    || any (λ d. c == d) (text "!#$%&'*+-.^_`|~")

abbrev pub is_bad_value_character : ℕ → Bool
is_bad_value_character c = ltb 255 c || ltb c 32 && not (c == 9) || c == 127

abbrev pub is_host : Text → Bool
is_host name = map lower_ascii name =ₜ text "host"

abbrev pub is_valid_header : Header → Bool
is_valid_header (name, value) =
    not (name =ₜ []) && all is_name_character name && not (any is_bad_value_character value)

-- `str(port)`
unfoldable pub host_value : (ℕ → Text) → CanonicalDestination → Text
host_value decimal d =
    let hostname =
      if contains d.hostname (text ":") then text "[" ++ (d.hostname ++ text "]") else d.hostname in
    if d.port == (if d.scheme =ₜ text "http" then 80 else 443)
    then hostname
    else hostname ++ (text ":" ++ decimal d.port)

-- The loop of `_build_headers`.
unfoldable pub copy_headers : List Header → Result GatewayError (List Header)
copy_headers [] = ok []
copy_headers ((name, value) ∷ headers) =
    let rest = copy_headers headers in
    if is_valid_header (name, value)
    then if is_host name then rest else (rest >>= λ copied. ok ((name, value) ∷ copied))
    else err network_request_failed

unfoldable pub build_headers :
    (ℕ → Text) → List Header → CanonicalDestination → Result GatewayError (List Header)
unfolding copy_headers
build_headers decimal headers d =
    copy_headers headers >>= λ copied. ok (copied ++ ((text "Host", host_value decimal d) ∷ []))

-- `_read_bounded`
unfoldable pub read_bounded : ℕ → List (List ℕ) → ℕ → List ℕ → Result GatewayError (List ℕ)
read_bounded maximum [] total body = ok body
read_bounded maximum (chunk ∷ chunks) total body =
    let rest = read_bounded maximum chunks (total + length chunk) (body ++ chunk) in
    if ltb maximum (total + length chunk) then err response_too_large else rest

-- What `connector.connect` gives: a stream with its `server_addr` (the first member, as text, where
-- it is a non-empty tuple), or an exception.
pub data Connection : Type 0 where
  connected : Option Text → Connection
  not_connected : Connection

module _ (net : Internet) where
  -- `_extract_peer_ip`
  unfoldable pub extract_peer_ip : Option Text → Result GatewayError Address
  extract_peer_ip none = err destination_peer_unavailable
  extract_peer_ip (some s) = elim (net.parse_address s) [
    | none ↦ err destination_peer_unavailable
    | some a ↦ ok a
  ]

  -- `_validate_peer`
  unfoldable pub validate_peer : NetworkMode → Address → Address → Result GatewayError (Unit {0})
  validate_peer mode selected peer = do
    guard (admits mode (classify_address net.is_global (normalized_ip peer)))
        destination_peer_prohibited
    guard (same_address (normalized_ip peer) (normalized_ip selected)) destination_peer_mismatch

-- `_check_network_enabled`
unfoldable pub check_network_enabled : Identifier → Controller → Result GatewayError ℕ
check_network_enabled target c = elim (check_enabled target c) [
  | ok t ↦ ok t
  | err e ↦ err (denied e)
]

-- The HTTP client: the host and port that it asks the backend for, and the exchange over the stream.
pub data Exchange : Type 0 where
  responded : ℕ → List (List ℕ) → Exchange
  timed_out failed : Exchange

pub record HttpClient : Type 0 where
  pub host : Text → Text
  pub port : Text → ℕ
  pub exchange : Text → Text → List Header → Exchange

-- The surroundings of a request: the resolver, the network, the client, the TLS context, and the
-- controller as it is at the first check, at the permit, at the second check and at the connection.
pub record World : Type 0 where
  pub resolver : DnsResolver
  pub connect : Address → ℕ → Connection
  pub client : HttpClient
  pub verifies_tls : Bool
  pub decimal : ℕ → Text
  pub at_entry : Controller
  pub at_permit : Controller
  pub at_recheck : Controller
  pub at_connect : Controller

pub record GatewayRequest : Type 0 where
  pub target_id : Identifier
  pub network_mode : NetworkMode
  pub method : Text
  pub url : Text
  pub headers : List Header
  pub max_response_bytes : ℕ
  -- a number of which only the sign is read; 0 stands for all that are not positive
  pub timeout_seconds : ℕ

pub record GatewayResult : Type 0 where
  pub status_code : ℕ
  pub body : List ℕ
  pub destination : CanonicalDestination
  pub selected_ip : Address
  pub peer_ip : Address

abbrev policy_error : DecisionCode → GatewayError
policy_error destination_invalid = invalid_destination
policy_error destination_resolution_failed = resolution_failed
policy_error destination_resolution_empty = resolution_empty
policy_error _ = destination_policy_denied

-- `decision.destination` and `decision.resolved_addresses[0]` of a decision that allows
abbrev selection :
    Option CanonicalDestination → List Address → Option (CanonicalDestination × Address)
selection (some d) (a ∷ _) = some (d, a)
selection _ _ = none

abbrev tls_checked : Text → Bool → Bool
tls_checked scheme verifies = not (scheme =ₜ text "https") || verifies

module _ (net : Internet) (w : World) where
  unfoldable pub approve : GatewayRequest → Result GatewayError (CanonicalDestination × Address)
  approve q =
      let d = evaluate_destination_policy net q.network_mode q.url w.resolver in
      if d.allowed
      then elim (selection d.destination d.resolved_addresses) [
        | none ↦ err (policy_error d.code)
        | some s ↦ ok s
      ]
      else err (policy_error d.code)

  unfoldable pub peer_of : Connection → Result GatewayError Address
  unfolding extract_peer_ip
  peer_of not_connected = err destination_connect_failed
  peer_of (connected server) = extract_peer_ip net server

  -- `_BoundNetworkBackend.connect_tcp`, as the client calls it
  unfoldable pub connect_tcp :
      GatewayRequest → CanonicalDestination → Address → Result GatewayError Address
  unfolding peer_of validate_peer
  connect_tcp q d selected = do
    guard (w.client.host q.url =ₜ d.hostname) destination_connect_failed
    check_network_enabled q.target_id w.at_connect >>= λ _. ok tt
    peer ← peer_of (w.connect selected (w.client.port q.url))
    validate_peer net q.network_mode selected peer
    ok peer

  abbrev received : ℕ → Exchange → Result GatewayError (ℕ × List ℕ)
  received maximum (responded status chunks) =
      read_bounded maximum chunks 0 [] >>= λ body. ok (status, body)
  received maximum timed_out = err network_request_failed
  received maximum failed = err network_request_failed

  unfoldable pub request_admitted : GatewayRequest → Result GatewayError GatewayResult
  unfolding approve connect_tcp
  request_admitted q = do
    chosen ← approve q
    guard (tls_checked chosen.0.scheme w.verifies_tls) tls_verification_required
    headers ← build_headers w.decimal q.headers chosen.0
    peer ← connect_tcp q chosen.0 chosen.1
    response ← received q.max_response_bytes (w.client.exchange q.method q.url headers)
    ok (record {
      status_code = response.0;
      body = response.1;
      destination = chosen.0;
      selected_ip = chosen.1;
      peer_ip = peer;
    })

  abbrev permit : Option Controller → Result GatewayError (Unit {0})
  permit none = err (denied network_concurrency_timeout)
  permit (some _) = ok tt

  -- `request`: the bounds, then the admission and the request inside it
  unfoldable pub request : GatewayRequest → Result GatewayError GatewayResult
  unfolding request_admitted
  request q = do
    guard (ltb 0 q.max_response_bytes && ltb 0 q.timeout_seconds) network_request_failed
    check_network_enabled q.target_id w.at_entry >>= λ _. ok tt
    permit (acquire w.at_permit)
    check_network_enabled q.target_id w.at_recheck >>= λ _. ok tt
    request_admitted q
