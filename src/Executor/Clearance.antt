-- ===== src/Executor/Clearance.antt =====
-- What has happened before a request is handed to the network gateway.
use ai_api_security_platform.Prelude.{
  ℕ, ◌≡◌, ◌≢◌, refl, ap, ◌∙◌, sym, subst, inl, inr, ◌⊎◌, Bool, true, false, Option, none, some,
  List, [], ◌∷◌, In, Text, text, ◌=ₜ◌, =ₜ_eq, arith, if◌then◌else◌,
}
use ai_api_security_platform.Policy.Python.{Python}
use ai_api_security_platform.Policy.Engine.{AuthorizationRevision, PolicyDecision, normalize_method}
use ai_api_security_platform.Network.Destination.{NetworkMode, private_local, Internet}
use ai_api_security_platform.Network.Gateway.{Header, World, GatewayRequest}
use ai_api_security_platform.Executor.{
  ExecutionError, uncaught, Authorization, Callback, returns, raises_blocked, raises, Waited,
  admitted_by_rate, misconfigured, uncoordinated, wait_raised, Caller, Effect, observed, waited,
  refreshed, marked, sent, Run, fails, logged, same_id, is_same_revision, is_private_local,
  unless_denied, after_observer, observing, deciding, waiting, calling, marking, refreshing,
  decision_on, gateway_request, send, mark, check_mode, recheck, wait_and_refresh, proceed, execute,
}

-- The run hands the request to the gateway.
abbrev pub Sends : GatewayRequest → Run → Type 0
Sends q r = In (sent q) r.log

module _ (q : GatewayRequest) where
  if-Sends :
      (b : Bool) (r : Run) (e : ExecutionError)
      → Sends q (if b then r else fails e)
      → (b ≡ true) × Sends q r × ((if b then r else fails e).log ≡ r.log)
  if-Sends true r e m = (refl, m, refl)
  if-Sends false r e m = elim m [ ]

  either-Sends :
      (b : Bool) (r s : Run)
      → ¬ Sends q s
      → Sends q (if b then r else s)
      → (b ≡ true) × Sends q r × ((if b then r else s).log ≡ r.log)
  either-Sends true r s never m = (refl, m, refl)
  either-Sends false r s never m = absurd (never m)

  observing-Sends :
      (o : Option (PolicyDecision → Callback (Unit {0}))) (d : PolicyDecision) (r : Run)
      → Sends q (observing o d r)
      → (f : PolicyDecision → Callback (Unit {0})) × (o ≡ some f)
        × (f d ≡ returns tt)
        × Sends q r
        × ((observing o d r).log ≡ observed d ∷ r.log)
  observing-Sends none d r m = elim m [ ]
  observing-Sends (some f) d r (inl e) = absurd (ground arith)
  observing-Sends (some f) d r (inr m) =
      let (stored, sends, same) = go (f d) m in
      (f, refl, stored, sends, ap (λ l. observed d ∷ l) same)
    where
      go :
          (k : Callback (Unit {0}))
          → Sends q (after_observer k r)
          → (k ≡ returns tt) × Sends q r × ((after_observer k r).log ≡ r.log)
      go (returns tt) m = (refl, m, refl)
      go (raises_blocked b) m = elim m [ ]
      go raises m = elim m [ ]

  deciding-Sends :
      (o : Option PolicyDecision) (next : PolicyDecision → Run)
      → Sends q (deciding o next)
      → (d : PolicyDecision) × (o ≡ some d)
        × Sends q (next d)
        × ((deciding o next).log ≡ (next d).log)
  deciding-Sends none next m = elim m [ ]
  deciding-Sends (some d) next m = (d, refl, m, refl)

  waiting-Sends :
      (k : Waited) (r : Run)
      → Sends q (waiting k r)
      → (k ≡ admitted_by_rate) × Sends q r × ((waiting k r).log ≡ r.log)
  waiting-Sends admitted_by_rate r m = (refl, m, refl)
  waiting-Sends misconfigured r m = elim m [ ]
  waiting-Sends uncoordinated r m = elim m [ ]
  waiting-Sends wait_raised r m = elim m [ ]

  calling-Sends {ℓ} :
      {A : Type ℓ} (k : Callback A) (next : A → Run)
      → Sends q (calling k next)
      → (a : A) × (k ≡ returns a) × Sends q (next a) × ((calling k next).log ≡ (next a).log)
  calling-Sends (returns a) next m = (a, refl, m, refl)
  calling-Sends (raises_blocked b) next m = elim m [ ]
  calling-Sends raises next m = elim m [ ]

  refreshing-Sends :
      (o : Option (Callback Authorization)) (next : Callback Authorization → Run)
      → Sends q (refreshing o next)
      → (k : Callback Authorization) × (o ≡ some k)
        × Sends q (next k)
        × ((refreshing o next).log ≡ (next k).log)
  refreshing-Sends none next m = elim m [ ]
  refreshing-Sends (some k) next m = (k, refl, m, refl)

  In-later : (e : Effect) (log : List Effect) → sent q ≢ e → In (sent q) (e ∷ log) → In (sent q) log
  In-later e log other (inl same) = absurd (other same)
  In-later e log other (inr m) = m

-- The last entries of a log: the callback is called and returns before the request is sent, unless
-- the caller gives none or has a boundary.
abbrev pub IsEnding : Caller → GatewayRequest → List Effect → Type 0
IsEnding c q log =
    ((log ≡ marked ∷ sent q ∷ [])
      × (c.before_network ≡ some (returns tt))
      × (c.has_boundary ≡ false))
    ⊎ ((log ≡ sent q ∷ []) × ((c.before_network ≡ none) ⊎ (c.has_boundary ≡ true)))

same_id_eq : (o : Option ℕ) (i : ℕ) → same_id o (some i) ≡ true → o ≡ some i
same_id_eq none i h = cc
same_id_eq (some j) i h = ground arith

-- The refreshed target is bound to the revision that the first decision named, and has it.
abbrev pub IsUnchanged : Option ℕ → Authorization → Type 0
IsUnchanged selected fresh =
    (r : AuthorizationRevision) × (fresh.revision ≡ some r)
    × (selected ≡ some r.id)
    × (fresh.target.authorization_revision_id ≡ some r.id)

is_same_revision-IsUnchanged :
    (selected : Option ℕ) (fresh : Authorization)
    → is_same_revision selected fresh ≡ true
    → IsUnchanged selected fresh
is_same_revision-IsUnchanged selected fresh h = go fresh.revision selected refl refl
  where
    go :
        (o : Option AuthorizationRevision) (p : Option ℕ)
        → fresh.revision ≡ o
        → selected ≡ p
        → IsUnchanged selected fresh
    go none p e k = absurd (ground arith)
    go (some r) none e k = absurd (ground arith)
    go (some r) (some i) e k =
        let same : i ≡ r.id = ground arith in
        (
          r,
          e,
          k ∙ ap some same,
          same_id_eq fresh.target.authorization_revision_id r.id (ground arith),
        )

module _ (py : Python) (hosts : List Text) (net : Internet) (w : World) (c : Caller) (url : Text)
    (headers : List Header) where
  -- What the callbacks and the policy engine say of the refreshed target where a request was sent,
  -- and the log from the second evaluation on.
  pub record IsRechecked (selected : Option ℕ) (q : GatewayRequest) (fresh : Authorization)
      (log : List Effect) : Type 0 where
    pub unchanged : IsUnchanged selected fresh
    pub decision : PolicyDecision
    pub decided :
        decision_on py hosts net w c url headers c.second_now fresh (text "GET") ≡ some decision
    pub allowed : decision.allowed ≡ true
    pub observer : PolicyDecision → Callback (Unit {0})
    pub observed_by : c.observer ≡ some observer
    pub stored : observer decision ≡ returns tt
    pub private : fresh.network_mode ≡ private_local
    pub request : q ≡ gateway_request py hosts net w c url headers (text "GET") fresh
    pub ending : List Effect
    pub ends : IsEnding c q ending
    pub order : log ≡ observed decision ∷ ending

  -- What led to a request that was sent.
  pub record IsCleared (a : Authorization) (method : Text) (q : GatewayRequest) (log : List Effect)
      : Type 0 where
    pub get : normalize_method py method ≡ text "GET"
    pub first : PolicyDecision
    pub decided : decision_on py hosts net w c url headers c.first_now a (text "GET") ≡ some first
    pub allowed : first.allowed ≡ true
    pub in_rate : c.wait ≡ admitted_by_rate
    pub fresh : Authorization
    pub reread : c.refresh ≡ some (returns fresh)
    pub later : List Effect
    pub rechecked : IsRechecked first.authorization_revision_id q fresh later
    pub order : log ≡ waited ∷ refreshed ∷ later

  module _ (q : GatewayRequest) (fresh : Authorization) where
    send-request :
        (method : Text)
        → Sends q (send py hosts net w c url headers method fresh)
        → (q ≡ gateway_request py hosts net w c url headers method fresh)
          × ((send py hosts net w c url headers method fresh).log ≡ sent q ∷ [])
    unfolding send
    send-request method (inl e) =
        let same : q ≡ gateway_request py hosts net w c url headers method fresh = cc in
        (same, ap (λ x. sent x ∷ []) (sym same))
    send-request method (inr m) = elim m [ ]

    marking-Sends :
        (o : Option (Callback (Unit {0}))) (b : Bool) (r : Run)
        → Sends q (marking o b r)
        → Sends q r
    marking-Sends none b r m = m
    marking-Sends (some f) true r m = m
    marking-Sends (some f) false r (inl same) = absurd (ground arith)
    marking-Sends (some f) false r (inr m) =
        let (u, done, sends, same) = calling-Sends q f (λ _. r) m in sends

    marking-IsEnding :
        (o : Option (Callback (Unit {0}))) (b : Bool) (r : Run)
        → c.before_network ≡ o
        → c.has_boundary ≡ b
        → r.log ≡ sent q ∷ []
        → Sends q (marking o b r)
        → IsEnding c q (marking o b r).log
    marking-IsEnding none b r e k l m = inr (l, inl e)
    marking-IsEnding (some f) true r e k l m = inr (l, inr k)
    marking-IsEnding (some f) false r e k l (inl same) = absurd (ground arith)
    marking-IsEnding (some f) false r e k l (inr m) =
        let (u, done, _, same) = calling-Sends q f (λ _. r) m in
        inl (ap (λ x. marked ∷ x) (same ∙ l), e ∙ ap some done, k)

    private_mode : (mode : NetworkMode) → is_private_local mode ≡ true → mode ≡ private_local
    private_mode mode h = ground arith

    check_mode-IsEnding :
        Sends q (check_mode py hosts net w c url headers (text "GET") fresh)
        → (fresh.network_mode ≡ private_local)
          × (q ≡ gateway_request py hosts net w c url headers (text "GET") fresh)
          × IsEnding c q (check_mode py hosts net w c url headers (text "GET") fresh).log
    unfolding check_mode mark
    check_mode-IsEnding m =
        let (mode, m₁, l₁) = if-Sends q (is_private_local fresh.network_mode) _ _ m in
        let handed =
          send-request (text "GET") (marking-Sends c.before_network c.has_boundary _ m₁) in
        (
          private_mode fresh.network_mode mode,
          handed.0,
          subst (IsEnding c q) (sym l₁)
              (marking-IsEnding c.before_network c.has_boundary _ refl refl handed.1 m₁),
        )

    recheck-IsRechecked :
        (selected : Option ℕ)
        → Sends q (recheck py hosts net w c url headers (text "GET") selected fresh)
        → IsRechecked selected q fresh
            (recheck py hosts net w c url headers (text "GET") selected fresh).log
    unfolding recheck
    recheck-IsRechecked selected m =
        let (same, m₁, l₁) = if-Sends q (is_same_revision selected fresh) _ _ m in
        let (d, decided, m₂, l₂) = deciding-Sends q _ _ m₁ in
        let (f, given, stored, m₃, l₃) = observing-Sends q c.observer d _ m₂ in
        let (allowed, m₄, l₄) = if-Sends q d.allowed _ _ m₃ in
        let ends = check_mode-IsEnding m₄ in
        record {
          unchanged = is_same_revision-IsUnchanged selected fresh same;
          decision = d;
          decided = decided;
          allowed = allowed;
          observer = f;
          observed_by = given;
          stored = stored;
          private = ends.0;
          request = ends.1;
          ending = (check_mode py hosts net w c url headers (text "GET") fresh).log;
          ends = ends.2;
          order = l₁ ∙ l₂ ∙ l₃ ∙ ap (λ x. observed d ∷ x) l₄;
        }

  module _ (q : GatewayRequest) where
    wait-IsRechecked :
        (selected : Option ℕ) (refresh : Callback Authorization)
        → Sends q (wait_and_refresh py hosts net w c url headers (text "GET") selected refresh)
        → (c.wait ≡ admitted_by_rate)
          × (fresh : Authorization) × (refresh ≡ returns fresh)
          × (later : List Effect) × IsRechecked selected q fresh later
          × ((wait_and_refresh py hosts net w c url headers (text "GET") selected refresh).log
              ≡ waited ∷ refreshed ∷ later)
    unfolding wait_and_refresh
    wait-IsRechecked selected refresh m =
        let m₁ = In-later q waited _ (λ e. ground arith) m in
        let (in_rate, m₂, l₂) =
          waiting-Sends q c.wait
            (logged refreshed
              (calling refresh (recheck py hosts net w c url headers (text "GET") selected)))
            m₁ in
        let m₃ = In-later q refreshed _ (λ e. ground arith) m₂ in
        let (fresh, reread, m₄, l₄) = calling-Sends q refresh _ m₃ in
        (
          in_rate,
          fresh,
          reread,
          _,
          recheck-IsRechecked q fresh selected m₄,
          ap (λ x. waited ∷ x) (l₂ ∙ ap (λ x. refreshed ∷ x) l₄),
        )

    denied-Sends :
        (d : PolicyDecision) (e : ExecutionError)
        → ¬ Sends q (observing c.observer d (unless_denied d (fails e)))
    denied-Sends d e m =
        let (f, given, stored, m₁, _) = observing-Sends q c.observer d _ m in
        let (allowed, m₂, _) = if-Sends q d.allowed _ _ m₁ in elim m₂ [ ]

    proceed-Sends :
        (d : PolicyDecision)
        → Sends q (proceed py hosts net w c url headers (text "GET") d)
        → (d.allowed ≡ true)
          × (k : Callback Authorization) × (c.refresh ≡ some k)
          × Sends q (
              wait_and_refresh py hosts net w c url headers
                (text "GET")
                d.authorization_revision_id
                k)
          × ((proceed py hosts net w c url headers (text "GET") d).log
              ≡ (wait_and_refresh py hosts net w c url headers
                  (text "GET")
                  d.authorization_revision_id
                  k).log)
    unfolding proceed
    proceed-Sends d m =
        let (allowed, m₁, l₁) =
          either-Sends q d.allowed (refreshing c.refresh _)
            (observing c.observer d (unless_denied d (fails uncaught))) (denied-Sends d uncaught)
            m in
        let (k, given, m₂, l₂) = refreshing-Sends q c.refresh _ m₁ in
        (allowed, k, given, m₂, l₁ ∙ l₂)

  -- A request is handed to the gateway only for a GET, after a first evaluation that allows it, the
  -- rate limit, a refresh that finds the same revision, a second evaluation on what was read then
  -- that allows it and that the observer has stored, in the private mode, and after the caller's
  -- callback has returned; in this order, and it is then the only request and the last entry.
  pub sent-IsCleared :
      (q : GatewayRequest) (a : Authorization) (method : Text)
      → Sends q (execute py hosts net w c url headers a method)
      → IsCleared a method q (execute py hosts net w c url headers a method).log
  unfolding execute
  sent-IsCleared q a method m =
      let evaluated = λ (n : Text).
        deciding (decision_on py hosts net w c url headers c.first_now a n)
          (proceed py hosts net w c url headers n) in
      let (is_get, m₁, l₁) = if-Sends q (normalize_method py method =ₜ text "GET") _ _ m in
      let get = =ₜ_eq (normalize_method py method) (text "GET") is_get in
      let (d, decided, m₂, l₂) = deciding-Sends q _ _ (subst (λ n. Sends q (evaluated n)) get m₁) in
      let (allowed, k, given, m₃, l₃) = proceed-Sends q d m₂ in
      let (in_rate, fresh, reread, later, again, l₄) =
        wait-IsRechecked q d.authorization_revision_id k m₃ in
      record {
        get = get;
        first = d;
        decided = decided;
        allowed = allowed;
        in_rate = in_rate;
        fresh = fresh;
        reread = given ∙ ap some reread;
        later = later;
        rechecked = again;
        order = l₁ ∙ ap (λ n. (evaluated n).log) get ∙ l₂ ∙ l₃ ∙ l₄;
      }
