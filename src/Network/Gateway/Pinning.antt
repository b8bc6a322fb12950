-- ===== src/Network/Gateway/Pinning.antt =====
-- A request that succeeds went to the approved address, and the peer was that address.
use ai_api_security_platform.Prelude.{
  ℕ, ltb, ◌&&◌, ◌≡◌, ◌≢◌, ◌≤◌, refl, ap, ◌∙◌, inl, inr, true, Option, none, some, List, [], ◌∷◌, In,
  length, Text, text, ◌=ₜ◌, =ₜ_eq, ok, ◌>>=◌, guard, arith, Bool-cases, >>=-eq-ok, ok-injective,
  subst,
}
use ai_api_security_platform.Network.Address.{Address, normalized_ip, classify_address}
use ai_api_security_platform.Network.Address.Sorting.{same_address_eq}
use ai_api_security_platform.Network.Destination.{
  CanonicalDestination, Internet, admits, evaluate_destination_policy,
}
use ai_api_security_platform.Network.Controller.{Controller, check_enabled, acquire}
use ai_api_security_platform.Network.Gateway.{
  Connection, connected, not_connected, World, GatewayRequest, GatewayResult, Exchange, responded,
  timed_out, failed, received, peer_of, validate_peer, check_network_enabled, approve, connect_tcp,
  request_admitted, request, read_bounded, build_headers, selection, tls_checked, permit,
}
use ai_api_security_platform.Network.Gateway.Body.{joined, read_bounded_lem}

module _ (net : Internet) (w : World) (q : GatewayRequest) where
  -- The chosen address is one of those that the destination policy allowed.
  pub record IsApproved (d : CanonicalDestination) (selected : Address) : Type 0 where
    pub allowed : (evaluate_destination_policy net q.network_mode q.url w.resolver).allowed ≡ true
    pub recorded :
        (evaluate_destination_policy net q.network_mode q.url w.resolver).destination ≡ some d
    pub resolved :
        In selected
          (evaluate_destination_policy net q.network_mode q.url w.resolver).resolved_addresses

  selection_sound :
      (o : Option CanonicalDestination) (as' : List Address) (d : CanonicalDestination)
      (a : Address)
      → selection o as' ≡ some (d, a)
      → (o ≡ some d) × In a as'
  selection_sound none as' d a h = absurd (ground arith)
  selection_sound (some x) [] d a h = absurd (ground arith)
  selection_sound (some x) (b ∷ bs) d a h = (ground arith, inl (ground arith))

  approve-IsApproved :
      (d : CanonicalDestination) (a : Address) → approve net w q ≡ ok (d, a) → IsApproved d a
  unfolding approve
  approve-IsApproved d a h =
      let chosen =
        selection_sound
          (evaluate_destination_policy net q.network_mode q.url w.resolver).destination
          (evaluate_destination_policy net q.network_mode q.url w.resolver).resolved_addresses d a
          (ground arith) in
      record { allowed = ground arith; recorded = chosen.0; resolved = chosen.1 }

  -- The connection that was used: of an enabled target, to the selected address, and to a peer that
  -- is that address and that the mode admits.
  pub record IsPinned (d : CanonicalDestination) (selected peer : Address) : Type 0 where
    pub enabled : (t : ℕ) × (check_enabled q.target_id w.at_connect ≡ ok t)
    pub same_host : w.client.host q.url ≡ d.hostname
    pub server : Text
    pub at_selected : w.connect selected (w.client.port q.url) ≡ connected (some server)
    pub read_peer : net.parse_address server ≡ some peer
    pub admitted :
        admits q.network_mode (classify_address net.is_global (normalized_ip peer)) ≡ true
    pub same_ip : normalized_ip peer ≡ normalized_ip selected

  peer_read :
      (k : Connection) (peer : Address)
      → peer_of net w k ≡ ok peer
      → (server : Text) × (k ≡ connected (some server)) × (net.parse_address server ≡ some peer)
  unfolding peer_of
  peer_read not_connected peer h = cc
  peer_read (connected none) peer h = cc
  peer_read (connected (some s)) peer h = (s, refl, ground arith)

  peer_valid :
      (selected peer : Address) (u : Unit {0})
      → validate_peer net q.network_mode selected peer ≡ ok u
      → (admits q.network_mode (classify_address net.is_global (normalized_ip peer)) ≡ true)
        × (normalized_ip peer ≡ normalized_ip selected)
  unfolding validate_peer
  peer_valid selected peer u h =
      (ground arith, same_address_eq (normalized_ip peer) (normalized_ip selected) (ground arith))

  enabled_read :
      (c : Controller) (t : ℕ)
      → check_network_enabled q.target_id c ≡ ok t
      → check_enabled q.target_id c ≡ ok t
  unfolding check_network_enabled
  enabled_read c t h = ground arith

  connect_tcp-IsPinned :
      (d : CanonicalDestination) (selected peer : Address)
      → connect_tcp net w q d selected ≡ ok peer
      → IsPinned d selected peer
  unfolding connect_tcp
  connect_tcp-IsPinned d selected peer h =
      let (_, host, h₁) = >>=-eq-ok (guard (w.client.host q.url =ₜ d.hostname) _) _ h in
      let (_, open_gate, h₂) =
        >>=-eq-ok (check_network_enabled q.target_id w.at_connect >>= _) _ h₁ in
      let (t, gate, _) = >>=-eq-ok (check_network_enabled q.target_id w.at_connect) _ open_gate in
      let (found, read, h₃) =
        >>=-eq-ok (peer_of net w (w.connect selected (w.client.port q.url))) _ h₂ in
      let (u, valid, h₄) = >>=-eq-ok (validate_peer net q.network_mode selected found) _ h₃ in
      let same : found ≡ peer = ok-injective h₄ in
      let (server, stream, parsed) =
        peer_read (w.connect selected (w.client.port q.url)) found read in
      let checked = peer_valid selected found u valid in
      record {
        enabled = (t, enabled_read w.at_connect t gate);
        same_host = =ₜ_eq _ _ (ground arith);
        server = server;
        at_selected = stream;
        read_peer = parsed ∙ ap some same;
        admitted =
            subst
              (λ a. admits q.network_mode (classify_address net.is_global (normalized_ip a)) ≡ true)
              same checked.0;
        same_ip = subst (λ a. normalized_ip a ≡ normalized_ip selected) same checked.1;
      }

  -- What a successful request went through.
  pub record IsGuarded (r : GatewayResult) : Type 0 where
    pub approved : IsApproved r.destination r.selected_ip
    pub pinned : IsPinned r.destination r.selected_ip r.peer_ip
    pub tls : r.destination.scheme ≡ text "https" → w.verifies_tls ≡ true
    pub entry : (t : ℕ) × (check_enabled q.target_id w.at_entry ≡ ok t)
    pub recheck : (t : ℕ) × (check_enabled q.target_id w.at_recheck ≡ ok t)
    pub permit : acquire w.at_permit ≢ none
    pub bounded : length r.body ≤ q.max_response_bytes

  read_le :
      (chunks : List (List ℕ)) (body : List ℕ)
      → read_bounded q.max_response_bytes chunks 0 [] ≡ ok body
      → length body ≤ q.max_response_bytes
  read_le chunks body h =
      let whole = read_bounded_lem q.max_response_bytes chunks in
      elim (Bool-cases (ltb q.max_response_bytes (length (joined chunks)))) [
        | inl over ↦ absurd (ground (arith, whole, h, over))
        | inr within ↦
            let same : joined chunks ≡ body = ground (arith, whole, h, within) in
            subst (λ b. length b ≤ q.max_response_bytes) same (ground arith)
      ]

  received_le :
      (x : Exchange) (status : ℕ) (body : List ℕ)
      → received net w q.max_response_bytes x ≡ ok (status, body)
      → length body ≤ q.max_response_bytes
  received_le timed_out status body h = cc
  received_le failed status body h = cc
  received_le (responded s chunks) status body h =
      let (read, e, k) = >>=-eq-ok (read_bounded q.max_response_bytes chunks 0 []) _ h in
      read_le chunks body (e ∙ ap ok (ap (λ (p : ℕ × List ℕ). p.1) (ok-injective k)))

  tls_read :
      (scheme : Text)
      → tls_checked scheme w.verifies_tls ≡ true
      → scheme ≡ text "https"
      → w.verifies_tls ≡ true
  tls_read scheme h e = let https : (scheme =ₜ text "https") ≡ true = rw e in ground arith

  admitted-IsGuarded :
      (r : GatewayResult)
      → request_admitted net w q ≡ ok r
      → IsApproved r.destination r.selected_ip
        × IsPinned r.destination r.selected_ip r.peer_ip
        × (r.destination.scheme ≡ text "https" → w.verifies_tls ≡ true)
        × (length r.body ≤ q.max_response_bytes)
  unfolding request_admitted
  admitted-IsGuarded r h =
      let (chosen, a, h₁) = >>=-eq-ok (approve net w q) _ h in
      let (_, tls, h₂) = >>=-eq-ok (guard (tls_checked chosen.0.scheme w.verifies_tls) _) _ h₁ in
      let (headers, _, h₃) = >>=-eq-ok (build_headers w.decimal q.headers chosen.0) _ h₂ in
      let (peer, c, h₄) = >>=-eq-ok (connect_tcp net w q chosen.0 chosen.1) _ h₃ in
      let (response, x, h₅) = >>=-eq-ok (received net w q.max_response_bytes _) _ h₄ in
      subst
        (λ r.
          IsApproved r.destination r.selected_ip
          × IsPinned r.destination r.selected_ip r.peer_ip
          × (r.destination.scheme ≡ text "https" → w.verifies_tls ≡ true)
          × (length r.body ≤ q.max_response_bytes))
        (ok-injective h₅)
        (
          approve-IsApproved chosen.0 chosen.1 a,
          connect_tcp-IsPinned chosen.0 chosen.1 peer c,
          tls_read chosen.0.scheme (ground arith),
          received_le _ response.0 response.1 x,
        )

  -- A request that returns a result passed the switch of its target before and after it had a permit
  -- and again at the connection; it connected to an address that the destination policy allowed, the
  -- peer is that address and is itself admitted by the mode, TLS is verified, the body is in bounds.
  pub request-IsGuarded : (r : GatewayResult) → request net w q ≡ ok r → IsGuarded r
  unfolding request
  request-IsGuarded r h =
      let (_, _, h₁) =
        >>=-eq-ok (guard (ltb 0 q.max_response_bytes && ltb 0 q.timeout_seconds) _) _ h in
      let (_, e, h₂) = >>=-eq-ok (check_network_enabled q.target_id w.at_entry >>= _) _ h₁ in
      let (_, p, h₃) = >>=-eq-ok (permit net w (acquire w.at_permit)) _ h₂ in
      let (_, c, h₄) = >>=-eq-ok (check_network_enabled q.target_id w.at_recheck >>= _) _ h₃ in
      let (t, entry, _) = >>=-eq-ok (check_network_enabled q.target_id w.at_entry) _ e in
      let (u, recheck, _) = >>=-eq-ok (check_network_enabled q.target_id w.at_recheck) _ c in
      let (approved, pinned, tls, bounded) = admitted-IsGuarded r h₄ in
      record {
        approved = approved;
        pinned = pinned;
        tls = tls;
        entry = (t, enabled_read w.at_entry t entry);
        recheck = (u, enabled_read w.at_recheck u recheck);
        permit = λ z. ground arith;
        bounded = bounded;
      }
