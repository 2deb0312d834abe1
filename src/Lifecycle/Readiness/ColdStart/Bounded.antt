-- ===== src/Lifecycle/Readiness/ColdStart/Bounded.antt =====
-- The cold start ends, starts at most once, and leaves a cause where it fails.
use minimax_music3_webui.Prelude.{
  ℕ, zero, suc, ◌+◌, ◌*◌, ◌≤◌, ◌≡◌, refl, String, true, not, Option, none, some, List, [], ◌∷◌, leb,
  le→leb, arith, inl, inr, ◌⊎◌, Bool-cases,
}
use minimax_music3_webui.Prelude.Table.{is_some}
use minimax_music3_webui.Prelude.Result.{Result, ok, err}
use minimax_music3_webui.Lifecycle.Controller.{
  ContainerState, running, stopped, missing, ControllerError,
}
use minimax_music3_webui.Lifecycle.Readiness.{
  ReadinessState, ready, warming, unavailable, classify_readiness, is_ready,
}
use minimax_music3_webui.Lifecycle.Readiness.ColdStart.{
  Verb, asks_status, starts, Driven, Engine, Container, poll_until_ready, drive_readiness,
  timeout_cause, unless_ready, by_status, after_start, polled,
}

-- Each round of the loop sleeps, so the clock's reading after a probe is later by at least `step`.
abbrev pub Ticks : Engine → ℕ → Type 0
Ticks engine step = (n : ℕ) → engine.clock n + step ≤ engine.clock (suc n)

module _ (engine : Engine) (step deadline : ℕ) (ticks : Ticks engine step) where
  abbrev given_up : ℕ → ReadinessState × Option String
  given_up n =
      let state = classify_readiness (engine.probe n) in (state, some (timeout_cause engine state))

  poll_ends :
      (fuel n : ℕ)
      → deadline ≤ engine.clock n + fuel * step
      → (r : ReadinessState × Option String) × (poll_until_ready engine (suc fuel) n deadline
          ≡ some r)
  unfolding poll_until_ready
  poll_ends zero n h = elim (Bool-cases (is_ready (classify_readiness (engine.probe n)))) [
    | inl up ↦ ((classify_readiness (engine.probe n), none), rw up)
    | inr down ↦
        let late : leb deadline (engine.clock n) ≡ true = le→leb _ _ (omega arith) in
        (given_up n, rw (down, late))
  ]
  poll_ends (suc fuel) n h = elim (Bool-cases (is_ready (classify_readiness (engine.probe n)))) [
    | inl up ↦ ((classify_readiness (engine.probe n), none), rw up)
    | inr down ↦ elim (Bool-cases (leb deadline (engine.clock n))) [
      | inl late ↦ (given_up n, rw (down, late))
      | inr early ↦
          let (r, e) = poll_ends fuel (suc n) (omega (arith, ticks n)) in (r, rw (down, early) e)
    ]
  ]

  -- If each round of the loop takes at least `step` of the clock's time, the cold start ends with a
  -- state as soon as the fuel, one unit for each probe of the loop, covers the time from the first of
  -- them to the deadline: the wait is bounded, whatever the engine and the controller answer.
  pub drive_ends :
      (controller : Option Container) (fuel : ℕ)
      → deadline ≤ engine.clock 1 + fuel * step
      → (d : Driven) × (drive_readiness engine (suc fuel) deadline controller ≡ some d)
  unfolding drive_readiness
  drive_ends controller fuel h =
      driven_by controller (classify_readiness (engine.probe 0)) (poll_ends fuel 1 h)
    where
      started :
          (o : Result ControllerError (Unit {0}))
          → (r : ReadinessState × Option String) × (poll_until_ready engine (suc fuel) 1 deadline
              ≡ some r)
          → (d : Driven) × (after_start engine (suc fuel) deadline o ≡ some d)
      started (err e) p = (_, refl)
      started (ok u) ((state, cause), e) =
          (record { state = state; cause = cause; calls = asks_status ∷ starts ∷ [] }, rw e)

      driven_at :
          (container : Container) (status : Result ControllerError ContainerState)
          → (r : ReadinessState × Option String) × (poll_until_ready engine (suc fuel) 1 deadline
              ≡ some r)
          → (d : Driven) × (by_status engine (suc fuel) deadline container status ≡ some d)
      driven_at container (err e) p = (_, refl)
      driven_at container (ok missing) p = (_, refl)
      driven_at container (ok stopped) p = started container.start p
      driven_at container (ok running) ((state, cause), e) =
          (record { state = state; cause = cause; calls = asks_status ∷ [] }, rw e)

      driven_by :
          (o : Option Container) (state : ReadinessState)
          → (r : ReadinessState × Option String) × (poll_until_ready engine (suc fuel) 1 deadline
              ≡ some r)
          → (d : Driven) × (unless_ready engine (suc fuel) deadline o state ≡ some d)
      driven_by o ready p = (_, refl)
      driven_by none warming p = (_, refl)
      driven_by none unavailable p = (_, refl)
      driven_by (some container) warming p = driven_at container container.status p
      driven_by (some container) unavailable p = driven_at container container.status p

-- No call, a status alone, or a status and a start of a container that is stopped.
abbrev pub Calls : Container → List Verb → Type 0
Calls container calls =
    (calls ≡ [])
    ⊎ (calls ≡ asks_status ∷ [])
    ⊎ ((calls ≡ asks_status ∷ starts ∷ []) × (container.status ≡ ok stopped))

poll_causes :
    (engine : Engine) (fuel n deadline : ℕ) (state : ReadinessState) (cause : Option String)
    → poll_until_ready engine fuel n deadline ≡ some (state, cause)
    → is_some cause ≡ not (is_ready state)
unfolding poll_until_ready
poll_causes engine zero n deadline state cause e = absurd (cc)
poll_causes engine (suc fuel) n deadline state cause e =
    ground (arith, poll_causes engine fuel (suc n) deadline state cause)

polled_causes :
    (engine : Engine) (calls : List Verb) (r : Option (ReadinessState × Option String)) (d : Driven)
    → ((state : ReadinessState) (cause : Option String)
        → r ≡ some (state, cause)
        → is_some cause ≡ not (is_ready state))
    → polled calls r ≡ some d
    → (d.calls ≡ calls) × (is_some d.cause ≡ not (is_ready d.state))
polled_causes engine calls none d h e = absurd (cc)
polled_causes engine calls (some (state, cause)) d h e =
    let known = h state cause refl in ground arith

module _ (engine : Engine) (fuel deadline : ℕ) (container : Container) where
  abbrev Told : Driven → Type 0
  Told d = Calls container d.calls × (is_some d.cause ≡ not (is_ready d.state))

  started_tells :
      (o : Result ControllerError (Unit {0})) (d : Driven)
      → container.status ≡ ok stopped
      → after_start engine fuel deadline o ≡ some d
      → Told d
  started_tells (err x) d s e =
      let calls : d.calls ≡ asks_status ∷ starts ∷ [] = ground arith in
      (inr (inr (calls, s)), ground arith)
  started_tells (ok u) d s e =
      let (calls, told) =
        polled_causes engine (asks_status ∷ starts ∷ []) (poll_until_ready engine fuel 1 deadline) d
          (poll_causes engine fuel 1 deadline) e in
      (inr (inr (calls, s)), told)

  status_tells :
      (o : Result ControllerError ContainerState) (d : Driven)
      → container.status ≡ o
      → by_status engine fuel deadline container o ≡ some d
      → Told d
  status_tells (err x) d s e =
      let calls : d.calls ≡ asks_status ∷ [] = ground arith in (inr (inl calls), ground arith)
  status_tells (ok missing) d s e =
      let calls : d.calls ≡ asks_status ∷ [] = ground arith in (inr (inl calls), ground arith)
  status_tells (ok stopped) d s e = started_tells container.start d s e
  status_tells (ok running) d s e =
      let (calls, told) =
        polled_causes engine (asks_status ∷ []) (poll_until_ready engine fuel 1 deadline) d
          (poll_causes engine fuel 1 deadline) e in
      (inr (inl calls), told)

  ready_tells :
      (state : ReadinessState) (d : Driven)
      → unless_ready engine fuel deadline (some container) state ≡ some d
      → Told d
  ready_tells ready d e = let calls : d.calls ≡ [] = ground arith in (inl calls, ground arith)
  ready_tells warming d e = status_tells container.status d refl e
  ready_tells unavailable d e = status_tells container.status d refl e

  -- A drive with a controller asks and starts at most once, and starts only a container that is
  -- stopped; it leaves a cause exactly where it ends in another state than READY.
  pub drive_reports :
      (d : Driven)
      → drive_readiness engine fuel deadline (some container) ≡ some d
      → Calls container d.calls × (is_some d.cause ≡ not (is_ready d.state))
  unfolding drive_readiness
  drive_reports d e = ready_tells (classify_readiness (engine.probe 0)) d e
