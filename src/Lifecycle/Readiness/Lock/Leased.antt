-- ===== src/Lifecycle/Readiness/Lock/Leased.antt =====
-- The engine is not being stopped while somebody holds a lease.
use minimax_music3_webui.Prelude.{
  ℕ, ◌≤◌, ◌≡◌, ap, refl, subst, ◌-◌, ◌∙◌, Option-cases, Bool-cases, Bool, true, false, Option, none,
  some, arith, inl, inr, ◌⊎◌, if◌then◌else◌,
}
use minimax_music3_webui.Lifecycle.Readiness.{
  ReadinessState, ready, warming, unavailable, Readiness, fresh_ready, driven, enter_lease,
  exit_lease, maybe_idle_down, should_idle_down, last_known, known, is_ready,
}
use minimax_music3_webui.Lifecycle.Readiness.Lock.{
  Phase, free, driving, checking, stopping, Shared, new_readiness, touch, answered, acquire,
  drive_done, checked, Step, asks, passes, acquires, drives, gives_up, wakes, checks, fails, stops,
  leaves, Reach, initial, next,
}

-- Only READY is ever cached.
abbrev pub CachesReady : Option (ReadinessState × ℕ) → Type 0
CachesReady none = Unit
CachesReady (some (state, since)) = state ≡ ready

abbrev pub AtPhase : Phase → Readiness → Type 0
AtPhase stopping s = (s.leases ≡ 0) × (s.cached ≡ none)
AtPhase _ s = Unit

pub record IsSafe (s : Shared) : Type 0 where
  pub at_phase : AtPhase s.phase s.state
  pub caches : CachesReady s.state.cached

-- Where the leases and the cache are the same.
AtPhase-cast :
    (p : Phase) (s t : Readiness)
    → t.leases ≡ s.leases
    → t.cached ≡ s.cached
    → AtPhase p s
    → AtPhase p t
AtPhase-cast stopping s t l c (h, k) = (l ∙ h, c ∙ k)
AtPhase-cast free s t l c h = tt
AtPhase-cast driving s t l c h = tt
AtPhase-cast checking s t l c h = tt

answered-cached :
    (enters : Bool) (state : ReadinessState) (s : Readiness)
    → (answered enters state s).cached ≡ s.cached
unfolding enter_lease
answered-cached enters state s = ground arith

passes-AtPhase :
    (enters : Bool) (now : ℕ) (state : ReadinessState) (p : Phase) (s : Readiness)
    → fresh_ready now s ≡ some state
    → AtPhase p s
    → AtPhase p (answered enters state s)
unfolding fresh_ready
passes-AtPhase enters now state stopping s e (h, k) = absurd (ground arith)
passes-AtPhase enters now state free s e h = tt
passes-AtPhase enters now state driving s e h = tt
passes-AtPhase enters now state checking s e h = tt

leaves-AtPhase :
    (now : ℕ) (p : Phase) (s : Readiness)
    → 1 ≤ s.leases
    → AtPhase p s
    → AtPhase p (exit_lease now s)
leaves-AtPhase now stopping s l (h, k) = absurd (omega arith)
leaves-AtPhase now free s l h = tt
leaves-AtPhase now driving s l h = tt
leaves-AtPhase now checking s l h = tt

acquire-IsSafe :
    (enters : Bool) (now : ℕ) (s : Readiness) → CachesReady s.cached → IsSafe (acquire enters now s)
unfolding acquire
acquire-IsSafe enters now s c = elim (Option-cases (fresh_ready now s)) [
  | inl e ↦ rw (e, acquire) (record { at_phase = tt; caches = c })
  | inr (state, e) ↦
      rw (e, acquire) (record { at_phase = tt; caches = rw (answered-cached enters state s) c })
]

driven-CachesReady :
    (state : ReadinessState) (now : ℕ) (s : Readiness)
    → CachesReady s.cached
    → CachesReady (driven state now s).cached
unfolding driven
driven-CachesReady ready now s c = refl
driven-CachesReady warming now s c = c
driven-CachesReady unavailable now s c = c

no_lease :
    (running : Bool) (now : ℕ) (s : Readiness)
    → should_idle_down s.leases (now - s.last_activity) s.idle_interval running ≡ true
    → s.leases ≡ 0
unfolding should_idle_down
no_lease running now s e = ground arith

checked-IsSafe :
    (running : Bool) (now : ℕ) (s : Readiness)
    → CachesReady s.cached
    → IsSafe (checked running now s)
unfolding checked maybe_idle_down
checked-IsSafe running now s c =
    elim (Bool-cases (should_idle_down s.leases (now - s.last_activity) s.idle_interval running)) [
      | inl e ↦
          rw (e, checked) (record { at_phase = (no_lease running now s e, refl); caches = tt })
      | inr e ↦ rw (e, checked) (record { at_phase = tt; caches = c })
    ]

Step-IsSafe : {s t : Shared} → Step s t → IsSafe s → IsSafe t
unfolding touch exit_lease drive_done
Step-IsSafe (asks now p s) h = record {
  at_phase = AtPhase-cast p s (touch now s) refl refl h.at_phase;
  caches = h.caches;
}
Step-IsSafe (passes enters now state p s e) h = record {
  at_phase = passes-AtPhase enters now state p s e h.at_phase;
  caches = rw (answered-cached enters state s) h.caches;
}
Step-IsSafe (acquires enters now s) h = acquire-IsSafe enters now s h.caches
Step-IsSafe (drives enters state now s) h = record {
  at_phase = tt;
  caches =
      rw (answered-cached enters state (driven state now s))
        (driven-CachesReady state now s h.caches);
}
Step-IsSafe (gives_up s) h = record { at_phase = tt; caches = h.caches }
Step-IsSafe (wakes now s e) h = record { at_phase = tt; caches = h.caches }
Step-IsSafe (checks running now s) h = checked-IsSafe running now s h.caches
Step-IsSafe (fails s) h = record { at_phase = tt; caches = h.caches }
Step-IsSafe (stops s) h = record { at_phase = tt; caches = h.caches }
Step-IsSafe (leaves now p s l) h = record {
  at_phase = leaves-AtPhase now p s l h.at_phase;
  caches = h.caches;
}

Reach-IsSafe : {s : Shared} → Reach s → IsSafe s
unfolding new_readiness
Reach-IsSafe (initial cache_time idle_interval poll_time now) = record {
  at_phase = tt;
  caches = tt;
}
Reach-IsSafe (next r step) = Step-IsSafe step (Reach-IsSafe r)

stopping_parts :
    (p : Phase) (s : Readiness) → p ≡ stopping → AtPhase p s → (s.leases ≡ 0) × (s.cached ≡ none)
stopping_parts p s e h = subst (λ q. AtPhase q s) e h

fresh_none : (s : Readiness) (later : ℕ) → s.cached ≡ none → fresh_ready later s ≡ none
unfolding fresh_ready
fresh_none s later e = ground arith

-- In every state that the callers of `ensure_ready`, their leases and the idle loop can reach together,
-- while the engine is being stopped nobody holds a lease, and no cached answer is fresh at any time,
-- so whoever asks then has to wait for the lock.
pub stop_excludes_leases :
    (s : Shared)
    → Reach s
    → s.phase ≡ stopping
    → (s.state.leases ≡ 0) × ((later : ℕ) → fresh_ready later s.state ≡ none)
stop_excludes_leases s r e =
    let (no_lease, no_cache) = stopping_parts s.phase s.state e (Reach-IsSafe r).at_phase in
    (no_lease, λ later. fresh_none s.state later no_cache)

known_cases :
    (o : Option (ReadinessState × ℕ))
    → CachesReady o
    → ((o ≡ none) × (known o ≡ warming))
      ⊎ ((since : ℕ) × (o ≡ some (ready, since)) × (known o ≡ ready))
known_cases none c = inl (refl, refl)
known_cases (some (state, since)) c = inr (since, ap (λ s. some (s, since)) c, c)

drive-known :
    (enters : Bool) (state : ReadinessState) (now : ℕ) (s : Readiness)
    → last_known (drive_done enters state now s).state
      ≡ (if is_ready state then ready else last_known s)
unfolding last_known drive_done driven enter_lease
drive-known true ready now s = refl
drive-known false ready now s = refl
drive-known enters warming now s = refl
drive-known enters unavailable now s = refl

-- In every state that the callers of `ensure_ready`, their leases and the idle loop can reach together,
-- the last known state is WARMING where nothing is cached, and else READY, with the READY answer that is
-- cached; and a drive makes it READY if it ends so, and else leaves
-- it as it was: a state that is not READY is never shown, nor does it take back a READY.
pub last_known_ready :
    (s : Shared)
    → Reach s
    → (((s.state.cached ≡ none) × (last_known s.state ≡ warming))
        ⊎ ((since : ℕ) × (s.state.cached ≡ some (ready, since)) × (last_known s.state ≡ ready)))
      × ((enters : Bool) (state : ReadinessState) (now : ℕ)
          → last_known (drive_done enters state now s.state).state
            ≡ (if is_ready state then ready else last_known s.state))
unfolding last_known
last_known_ready s r = (
  known_cases s.state.cached (Reach-IsSafe r).caches,
  λ enters state now. drive-known enters state now s.state,
)
