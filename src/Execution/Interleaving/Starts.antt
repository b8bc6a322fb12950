-- ===== src/Execution/Interleaving/Starts.antt =====
-- A plan is started at most once, and never both started and cancelled.
use ai_api_security_platform.Prelude.{
  ℕ, ◌+◌, ◌≡◌, ◌≢◌, ◌≤◌, inl, inr, ◌⊎◌, none, List, [], ◌∷◌, arith,
}
use ai_api_security_platform.Execution.Database.{Db}
use ai_api_security_platform.Execution.Claim.{acquire_statement, renew_statement, release_statement}
use ai_api_security_platform.Execution.Progress.{prepare_statement, mark_statement}
use ai_api_security_platform.Execution.Cancellation.{cancel_statement}
use ai_api_security_platform.Execution.Interleaving.{
  Event, Step, acquires, renews, releases, prepares, marks, cancels, records, Trace, stop, step,
  starts, has_started,
}

module _ (plan : ℕ) where
  starts-Step :
      {e : Event} {db db' : Db}
      → Step e db db'
      → starts plan (e ∷ []) + has_started plan db ≡ has_started plan db'
  unfolding acquire_statement renew_statement release_statement prepare_statement mark_statement
      cancel_statement
  starts-Step (acquires p owner lease t u e) = ground arith
  starts-Step (renews h lease t u e) = ground arith
  starts-Step (releases h t u e) = ground arith
  starts-Step (prepares h t u e) = ground arith
  starts-Step (marks h t u e) = ground arith
  starts-Step (cancels p t u e) = ground arith
  starts-Step (records h run t c n) = ground arith

  starts-cons :
      (e : Event) (es : List Event) → starts plan (e ∷ es) ≡ starts plan (e ∷ []) + starts plan es
  starts-cons e es = ground arith

  -- The marks that a trace commits are what the record of the plan's phase has gained: the phase is
  -- entered once and left by no transaction.
  pub starts-Trace :
      {es : List Event} {db db' : Db}
      → Trace db es db'
      → starts plan es + has_started plan db ≡ has_started plan db'
  starts-Trace stop = omega arith
  starts-Trace (step {e = e} {es = es} s rest) =
      omega (arith, starts-cons e es, starts-Step s, starts-Trace rest)

  pub has_started_le : (db : Db) → has_started plan db ≤ 1
  has_started_le db = ground arith

  -- In any interleaving of any workers, at most one transaction starts the plan's network request.
  pub starts_once : {es : List Event} {db db' : Db} → Trace db es db' → starts plan es ≤ 1
  starts_once {db' = db'} t = omega (arith, starts-Trace t, has_started_le db')

  -- The plan is not both cancelled and started.
  abbrev pub IsExclusive : Db → Type 0
  IsExclusive db = (db.cancellations plan ≡ none) ⊎ (has_started plan db ≡ 0)

  IsExclusive-Step : {e : Event} {db db' : Db} → Step e db db' → IsExclusive db → IsExclusive db'
  unfolding acquire_statement renew_statement release_statement prepare_statement mark_statement
      cancel_statement
  IsExclusive-Step (acquires p owner lease t u e) x = ground arith
  IsExclusive-Step (renews h lease t u e) x = ground arith
  IsExclusive-Step (releases h t u e) x = ground arith
  IsExclusive-Step (prepares h t u e) x = ground arith
  IsExclusive-Step (marks h t u e) x = ground arith
  IsExclusive-Step (cancels p t u e) x = ground arith
  IsExclusive-Step (records h run t c n) x = x

  pub IsExclusive-Trace :
      {es : List Event} {db db' : Db} → Trace db es db' → IsExclusive db → IsExclusive db'
  IsExclusive-Trace stop x = x
  IsExclusive-Trace (step s rest) x = IsExclusive-Trace rest (IsExclusive-Step s x)

  -- A cancellation is never undone.
  cancellation-Step :
      {e : Event} {db db' : Db}
      → Step e db db'
      → db.cancellations plan ≢ none
      → db'.cancellations plan ≢ none
  unfolding acquire_statement renew_statement release_statement prepare_statement mark_statement
      cancel_statement
  cancellation-Step (acquires p owner lease t u e) x = ground arith
  cancellation-Step (renews h lease t u e) x = ground arith
  cancellation-Step (releases h t u e) x = ground arith
  cancellation-Step (prepares h t u e) x = ground arith
  cancellation-Step (marks h t u e) x = ground arith
  cancellation-Step (cancels p t u e) x = ground arith
  cancellation-Step (records h run t c n) x = x

  cancellation-Trace :
      {es : List Event} {db db' : Db}
      → Trace db es db'
      → db.cancellations plan ≢ none
      → db'.cancellations plan ≢ none
  cancellation-Trace stop x = x
  cancellation-Trace (step s rest) x = cancellation-Trace rest (cancellation-Step s x)

  -- Once a cancellation of a plan that has not started is recorded, no transaction of any worker
  -- starts the plan's network request.
  pub cancelled_never_starts :
      {es : List Event} {db db' : Db}
      → db.cancellations plan ≢ none
      → has_started plan db ≡ 0
      → Trace db es db'
      → starts plan es ≡ 0
  cancelled_never_starts c n trace =
      let kept = cancellation-Trace trace c in
      let gained = starts-Trace trace in
      elim (IsExclusive-Trace trace (inr n)) [
        | inl e ↦ absurd (kept e)
        | inr e ↦ omega (arith, gained)
      ]

  -- Once the network request of a plan that is not cancelled has started, no cancellation is recorded.
  pub started_never_cancelled :
      {es : List Event} {db db' : Db}
      → db.cancellations plan ≡ none
      → has_started plan db ≡ 1
      → Trace db es db'
      → db'.cancellations plan ≡ none
  started_never_cancelled c n trace =
      let gained = starts-Trace trace in
      elim (IsExclusive-Trace trace (inl c)) [ inl e ↦ e | inr e ↦ absurd (omega (arith, gained)) ]
