-- ===== src/Network/Destination.antt =====
-- The destination policy of backend/app/network_safety/destination.py.
pub mod Policy
use ai_api_security_platform.Prelude.{
  ℕ, ◌==◌, ltb, leb, ◌≡◌, Bool, true, false, not, ◌&&◌, ◌||◌, Option, none, some, List, [], ◌∷◌,
  map, Text, text, ◌=ₜ◌, rstrip, is_space, contains, starts_with, ends_with, split, any, all,
  length, Result, ok, err, ◌>>=◌, ◌>>◌, guard, if◌then◌else◌,
}
use ai_api_security_platform.Policy.Python.{
  Python, SplitUrl, PortField, no_port, invalid_port_field, port_number,
}
use ai_api_security_platform.Network.Address.{
  Address, AddressCategory, loopback, private, public, classify_address, deduplicate_addresses,
}

-- NETWORK_MODES, and any other string.
pub data NetworkMode : Type 0 where
  private_local external_public_authorized unknown_mode : NetworkMode

pub record CanonicalDestination : Type 0 where
  pub scheme : Text
  pub hostname : Text
  pub port : ℕ
  pub ip_address : Option Address

-- What the module calls of CPython besides `urlsplit`: `ipaddress.ip_address`, its `compressed`, the
-- registry tables behind `is_global`, and the IDNA codec (none is a UnicodeError).
pub record Internet : Type 0 where
  pub python : Python
  pub parse_address : Text → Option Address
  pub compressed : Address → Text
  pub is_global : Address → Bool
  pub idna : Text → Option Text

-- NetworkDestinationError; every handler treats the messages alike.
pub data DestinationError : Type 0 where
  destination_error : DestinationError

abbrev check : Bool → Result DestinationError (Unit {0})
check b = guard b destination_error

abbrev found {ℓ} : {A : Type ℓ} → Option A → Result DestinationError A
found none = err destination_error
found (some a) = ok a

abbrev is_label_character : ℕ → Bool
is_label_character c = leb b'a' c && leb c b'z' || leb b'0' c && leb c b'9' || c == b'-'

-- a label of a host name
unfoldable pub is_label : Text → Bool
is_label label =
    not (label =ₜ [])
    && leb (length label) 63
    && not (starts_with label (text "-"))
    && not (ends_with label (text "-"))
    && all is_label_character label

default_port : Text → ℕ
default_port scheme = if scheme =ₜ text "http" then 80 else 443

unfoldable pub port_of : Text → PortField → Result DestinationError ℕ
unfolding default_port
port_of scheme no_port = ok (default_port scheme)
port_of scheme invalid_port_field = err destination_error
port_of scheme (port_number p) = if leb 1 p && leb p 65535 then ok p else err destination_error

abbrev hostname_present : Option Text → Result DestinationError Text
hostname_present none = err destination_error
hostname_present (some []) = err destination_error
hostname_present (some (c ∷ s)) = ok (c ∷ s)

abbrev is_absent {ℓ} : {A : Type ℓ} → Option A → Bool
is_absent none = true
is_absent (some _) = false

module _ (net : Internet) where
  -- a host name that is no address
  unfoldable pub named_host : Text → Result DestinationError Text
  unfolding is_label
  named_host raw = do
    hostname ← found (net.idna raw)
    check (leb (length hostname) 253 && all is_label (split b'.' hostname))
    ok hostname

  unfoldable pub host_of : Text → Result DestinationError (Text × Option Address)
  unfolding named_host
  host_of raw = elim (net.parse_address raw) [
    | some a ↦ ok (net.compressed a, some a)
    | none ↦ named_host raw >>= λ hostname. ok (hostname, none)
  ]

  unfoldable pub destination_of : SplitUrl → Result DestinationError CanonicalDestination
  unfolding port_of host_of
  destination_of parsed = do
    let scheme = net.python.lower parsed.scheme
    check (scheme =ₜ text "http" || scheme =ₜ text "https")
    check (is_absent parsed.username && is_absent parsed.password)
    named ← hostname_present parsed.hostname
    check (not (contains named (text "%")))
    port ← port_of scheme parsed.port
    let raw = net.python.lower (rstrip (λ c. c == b'.') named)
    check (not (raw =ₜ []))
    host ← host_of raw
    ok (record { scheme = scheme; hostname = host.0; port = port; ip_address = host.1 })

  unfoldable pub parse_canonical_destination : Text → Result DestinationError CanonicalDestination
  unfolding destination_of
  parse_canonical_destination url = do
    check (not (url =ₜ []) && not (contains url (b'\\' ∷ [])))
    check (not (any is_space url))
    parsed ← found (net.python.urlsplit url)
    destination_of parsed

-- What a resolver hands over: addresses, or strings.
pub data Resolved : Type 0 where
  address : Address → Resolved
  spelled : Text → Resolved

-- `DNSResolver.resolve`; none is an exception
abbrev pub DnsResolver : Type 0
DnsResolver = Text → Option (List Resolved)

pub data DecisionCode : Type 0 where
  network_mode_invalid destination_invalid destination_resolution_failed : DecisionCode
  destination_resolution_empty private_destination_allowed private_destination_prohibited :
      DecisionCode
  public_destination_classified public_destination_prohibited : DecisionCode

pub record DestinationPolicyDecision : Type 0 where
  pub allowed : Bool
  pub code : DecisionCode
  pub mode : NetworkMode
  pub destination : Option CanonicalDestination
  pub resolved_addresses : List Address
  pub address_categories : List AddressCategory

-- `_denied`
abbrev pub denied :
    NetworkMode
    → DecisionCode
    → Option CanonicalDestination
    → List Address
    → List AddressCategory
    → DestinationPolicyDecision
denied mode code destination addresses categories = record {
  allowed = false;
  code = code;
  mode = mode;
  destination = destination;
  resolved_addresses = addresses;
  address_categories = categories;
}

-- the categories that a mode admits
abbrev pub admits : NetworkMode → AddressCategory → Bool
admits private_local loopback = true
admits private_local private = true
admits external_public_authorized public = true
admits _ _ = false

abbrev allowed_code : NetworkMode → DecisionCode
allowed_code private_local = private_destination_allowed
allowed_code _ = public_destination_classified

abbrev prohibited_code : NetworkMode → DecisionCode
prohibited_code private_local = private_destination_prohibited
prohibited_code _ = public_destination_prohibited

module _ (net : Internet) where
  unfoldable pub parse_results : List Resolved → Result DestinationError (List Address)
  parse_results [] = ok []
  parse_results (address a ∷ rest) = parse_results rest >>= λ as'. ok (a ∷ as')
  parse_results (spelled s ∷ rest) =
      found (net.parse_address s) >>= λ a. parse_results rest >>= λ as'. ok (a ∷ as')

  -- `_canonicalize_resolver_results`
  unfoldable pub canonicalize_resolver_results :
      List Resolved → Result DestinationError (List Address)
  unfolding parse_results
  canonicalize_resolver_results values =
      parse_results values >>= λ as'. ok (deduplicate_addresses as')

  unfoldable pub resolve :
      DnsResolver → CanonicalDestination → Result DestinationError (List Address)
  resolve resolver d = elim d.ip_address [
    | some a ↦ canonicalize_resolver_results (address a ∷ [])
    | none ↦ found (resolver d.hostname) >>= canonicalize_resolver_results
  ]

  -- the decision on the resolved addresses
  unfoldable pub decide :
      NetworkMode → CanonicalDestination → List Address → DestinationPolicyDecision
  decide mode d [] = denied mode destination_resolution_empty (some d) [] []
  decide mode d (a ∷ as') =
      let categories = map (classify_address net.is_global) (a ∷ as') in
      if all (admits mode) categories
      then record {
        allowed = true;
        code = allowed_code mode;
        mode = mode;
        destination = some d;
        resolved_addresses = a ∷ as';
        address_categories = categories;
      }
      else denied mode (prohibited_code mode) (some d) (a ∷ as') categories

  pub decide_resolved :
      NetworkMode
      → CanonicalDestination
      → Result DestinationError (List Address)
      → DestinationPolicyDecision
  unfolding decide
  decide_resolved mode d (err _) = denied mode destination_resolution_failed (some d) [] []
  decide_resolved mode d (ok addresses) = decide mode d addresses

  pub decide_parsed :
      NetworkMode
      → DnsResolver
      → Result DestinationError CanonicalDestination
      → DestinationPolicyDecision
  unfolding decide_resolved
  decide_parsed mode resolver (err _) = denied mode destination_invalid none [] []
  decide_parsed mode resolver (ok d) = decide_resolved mode d (resolve resolver d)

  unfoldable pub evaluate_destination_policy :
      NetworkMode → Text → DnsResolver → DestinationPolicyDecision
  unfolding decide_parsed
  evaluate_destination_policy unknown_mode url resolver =
      denied unknown_mode network_mode_invalid none [] []
  evaluate_destination_policy mode url resolver =
      decide_parsed mode resolver (parse_canonical_destination net url)
