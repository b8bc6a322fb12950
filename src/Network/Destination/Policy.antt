-- ===== src/Network/Destination/Policy.antt =====
-- What an allowed destination guarantees, and that one bad address denies the whole resolution.
use ai_api_security_platform.Prelude.{
  ◌≡◌, ◌≢◌, refl, sym, ap, subst, ◌∙◌, inl, inr, Bool, true, false, Option, none, some, List, [],
  ◌∷◌, map, Text, all, In, Result, ok, err, arith, Bool-cases, >>=-eq-ok, ok-injective,
}
use ai_api_security_platform.Network.Address.{
  Address, AddressCategory, public, classify_address, normalized_ip,
}
use ai_api_security_platform.Network.Address.Ranges.{IsInternal, public_external}
use ai_api_security_platform.Network.Address.Sorting.{
  IsAscending, In-deduplicate, deduplicate-IsAscending,
}
use ai_api_security_platform.Network.Destination.{
  NetworkMode, private_local, external_public_authorized, unknown_mode, CanonicalDestination,
  Internet, DestinationError, Resolved, address, spelled, DnsResolver, DestinationPolicyDecision,
  admits, parse_canonical_destination, parse_results, canonicalize_resolver_results, resolve,
  decide, found, decide_resolved, decide_parsed, evaluate_destination_policy,
}

all-map :
    (f : Address → AddressCategory) (p : AddressCategory → Bool) (xs : List Address) (a : Address)
    → all p (map f xs) ≡ true
    → In a xs
    → p (f a) ≡ true
all-map f p [] a h m = elim m [ ]
all-map f p (x ∷ xs) a h (inl e) = rw e (ground arith)
all-map f p (x ∷ xs) a h (inr m) = all-map f p xs a (ground arith) m

module _ (net : Internet) (mode : NetworkMode) where
  -- What a decision to allow says of its destination and addresses.
  pub record IsAdmitted (url : Text) (resolver : DnsResolver) (d : DestinationPolicyDecision)
      : Type 0 where
    pub host : CanonicalDestination
    pub parsed : parse_canonical_destination net url ≡ ok host
    pub recorded : d.destination ≡ some host
    pub resolved : resolve net resolver host ≡ ok d.resolved_addresses
    pub some_address : d.resolved_addresses ≢ []
    pub ascending : IsAscending d.resolved_addresses
    pub admitted :
        (a : Address)
        → In a d.resolved_addresses
        → admits mode (classify_address net.is_global a) ≡ true

  decide_allowed :
      (host : CanonicalDestination) (as' : List Address)
      → (decide net mode host as').allowed ≡ true
      → (as' ≢ [])
        × ((decide net mode host as').destination ≡ some host)
        × ((decide net mode host as').resolved_addresses ≡ as')
        × ((a : Address) → In a as' → admits mode (classify_address net.is_global a) ≡ true)
  unfolding decide
  decide_allowed host [] h = cc
  decide_allowed host (a ∷ as') h =
      elim (Bool-cases (all (admits mode) (map (classify_address net.is_global) (a ∷ as')))) [
        | inl e ↦ rw e (
          λ q. cc,
          refl,
          refl,
          λ b m. all-map (classify_address net.is_global) (admits mode) (a ∷ as') b e m,
        )
        | inr e ↦ absurd (ground arith)
      ]

  canonicalize-IsAscending :
      (values : List Resolved) (as' : List Address)
      → canonicalize_resolver_results net values ≡ ok as'
      → IsAscending as'
  unfolding canonicalize_resolver_results
  canonicalize-IsAscending values as' h =
      let (found, _, e) = >>=-eq-ok (parse_results net values) _ h in
      subst IsAscending (ground arith) (deduplicate-IsAscending found)

  resolve-IsAscending :
      (resolver : DnsResolver) (host : CanonicalDestination) (as' : List Address)
      → resolve net resolver host ≡ ok as'
      → IsAscending as'
  unfolding resolve
  resolve-IsAscending resolver host as' h = go host.ip_address refl
    where
      go : (o : Option Address) → host.ip_address ≡ o → IsAscending as'
      go (some a) e = canonicalize-IsAscending (address a ∷ []) as' (ground arith)
      go none e = from (resolver host.hostname) refl
        where
          from : (r : Option (List Resolved)) → resolver host.hostname ≡ r → IsAscending as'
          from none k = absurd (ground arith)
          from (some values) k = canonicalize-IsAscending values as' (ground arith)

  IsAdmitted-resolved :
      (url : Text) (resolver : DnsResolver) (host : CanonicalDestination)
      (r : Result DestinationError (List Address))
      → parse_canonical_destination net url ≡ ok host
      → resolve net resolver host ≡ r
      → (decide_resolved net mode host r).allowed ≡ true
      → IsAdmitted url resolver (decide_resolved net mode host r)
  unfolding decide_resolved
  IsAdmitted-resolved url resolver host (err x) p e h = cc
  IsAdmitted-resolved url resolver host (ok as') p e h =
      let (filled, recorded, same, good) = decide_allowed host as' h in
      record {
        host = host;
        parsed = p;
        recorded = recorded;
        resolved = e ∙ ap ok (sym same);
        some_address = λ q. filled (sym same ∙ q);
        ascending = rw same (resolve-IsAscending resolver host as' e);
        admitted = λ a m. good a (subst (λ l. In a l) same m);
      }

  IsAdmitted-parsed :
      (url : Text) (resolver : DnsResolver) (p : Result DestinationError CanonicalDestination)
      → parse_canonical_destination net url ≡ p
      → (decide_parsed net mode resolver p).allowed ≡ true
      → IsAdmitted url resolver (decide_parsed net mode resolver p)
  unfolding decide_parsed
  IsAdmitted-parsed url resolver (err x) e h = cc
  IsAdmitted-parsed url resolver (ok host) e h =
      IsAdmitted-resolved url resolver host (resolve net resolver host) e refl h

-- A destination that is allowed parsed, resolved to at least one address, and every resolved address
-- is of a category that the mode admits; the addresses are listed once each, in ascending order.
pub evaluate-IsAdmitted :
    (net : Internet) (mode : NetworkMode) (url : Text) (resolver : DnsResolver)
    → (evaluate_destination_policy net mode url resolver).allowed ≡ true
    → IsAdmitted net mode url resolver (evaluate_destination_policy net mode url resolver)
unfolding evaluate_destination_policy
evaluate-IsAdmitted net private_local url resolver h =
    IsAdmitted-parsed net private_local url resolver (parse_canonical_destination net url) refl h
evaluate-IsAdmitted net external_public_authorized url resolver h =
    IsAdmitted-parsed net external_public_authorized url resolver
      (parse_canonical_destination net url) refl h
evaluate-IsAdmitted net unknown_mode url resolver h = cc

admits_external : (c : AddressCategory) → admits external_public_authorized c ≡ true → c ≡ public
admits_external c h = ground arith

-- In the external mode no address of an allowed destination is internal, nor mapped from an internal
-- address, whatever the resolver answers.
pub external_never-IsInternal :
    (net : Internet) (url : Text) (resolver : DnsResolver) (a : Address)
    → (evaluate_destination_policy net external_public_authorized url resolver).allowed ≡ true
    → In a
        (evaluate_destination_policy net external_public_authorized url resolver).resolved_addresses
    → ¬ IsInternal (normalized_ip a)
external_never-IsInternal net url resolver a h m = public_external net.is_global a (
    admits_external (classify_address net.is_global a)
      ((evaluate-IsAdmitted net external_public_authorized url resolver h).admitted a m))

In-parse_results :
    (net : Internet) (values : List Resolved) (as' : List Address) (a : Address)
    → parse_results net values ≡ ok as'
    → In (address a) values
    → In a as'
unfolding parse_results
In-parse_results net [] as' a h m = elim m [ ]
In-parse_results net (address b ∷ values) as' a h (inl e) =
    let (rest, _, k) = >>=-eq-ok (parse_results net values) _ h in
    subst (In a) (ok-injective k) (inl (ground arith))
In-parse_results net (spelled b ∷ values) as' a h (inl e) = absurd (ground arith)
In-parse_results net (address b ∷ values) as' a h (inr m) =
    let (rest, p, k) = >>=-eq-ok (parse_results net values) _ h in
    subst (In a) (ok-injective k) (inr (In-parse_results net values rest a p m))
In-parse_results net (spelled b ∷ values) as' a h (inr m) =
    let (_, _, h') = >>=-eq-ok (found (net.parse_address b)) _ h in
    let (rest, p, k) = >>=-eq-ok (parse_results net values) _ h' in
    subst (In a) (ok-injective k) (inr (In-parse_results net values rest a p m))

In-canonicalize :
    (net : Internet) (values : List Resolved) (as' : List Address) (a : Address)
    → canonicalize_resolver_results net values ≡ ok as'
    → In (address a) values
    → In a as'
unfolding canonicalize_resolver_results
In-canonicalize net values as' a h m =
    let (parsed, p, k) = >>=-eq-ok (parse_results net values) _ h in
    subst (In a) (ok-injective k)
      ((In-deduplicate a parsed).1 (In-parse_results net values parsed a p m))

resolve_named :
    (net : Internet) (resolver : DnsResolver) (host : CanonicalDestination) (values : List Resolved)
    → host.ip_address ≡ none
    → resolver host.hostname ≡ some values
    → resolve net resolver host ≡ canonicalize_resolver_results net values
unfolding resolve
resolve_named net resolver host values e r = ground arith

-- One address of a category that the mode does not admit, anywhere among the resolver's answers,
-- denies the destination.
pub one_bad_address_denies :
    (net : Internet) (mode : NetworkMode) (url : Text) (resolver : DnsResolver)
    (host : CanonicalDestination) (values : List Resolved) (a : Address)
    → parse_canonical_destination net url ≡ ok host
    → host.ip_address ≡ none
    → resolver host.hostname ≡ some values
    → In (address a) values
    → admits mode (classify_address net.is_global a) ≡ false
    → (evaluate_destination_policy net mode url resolver).allowed ≡ false
one_bad_address_denies net mode url resolver host values a p e r m bad =
    elim (Bool-cases (evaluate_destination_policy net mode url resolver).allowed) [
      | inr no_way ↦ no_way
      | inl h ↦
          let k = evaluate-IsAdmitted net mode url resolver h in
          let same : k.host ≡ host = ok-injective (sym k.parsed ∙ p) in
          let resolved =
            sym (resolve_named net resolver host values e r)
            ∙ ap (resolve net resolver) (sym same)
            ∙ k.resolved in
          absurd (ground (arith, bad, k.admitted a (In-canonicalize net values _ a resolved m)))
    ]
