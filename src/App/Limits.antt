-- ===== src/App/Limits.antt =====
-- The event log limit of a configuration that is made is one with which the store is made.
use minimax_music3_webui.Prelude.{
  ℕ, ◌≤◌, ◌≡◌, refl, ap, ◌∙◌, String, Bool, false, true, Option, some, ltb, arith, inl, inr,
  Bool-cases,
}
use minimax_music3_webui.Prelude.Int.{ℤ, pos, negsuc, is_below}
use minimax_music3_webui.Prelude.Table.{Table, empty}
use minimax_music3_webui.Prelude.Result.{Result, ok, >>=-eq-ok}
use minimax_music3_webui.Json.{PyFloat}
use minimax_music3_webui.Jobs.Store.{JobStore, new_store}
use minimax_music3_webui.App.{Config, get_or, or_raise, config_from_env, store_with, store_of}

not_below : (z : ℤ) → is_below z 1 ≡ false → (n : ℕ) × (z ≡ pos n) × (1 ≤ n)
not_below (pos n) e = (n, refl, ground arith)
not_below (negsuc n) e = absurd cc

limit_of :
    {made config : Config}
    → (let r : Result String Config = ok made in r) ≡ ok config
    → config.event_log_limit ≡ made.event_log_limit
limit_of e = cc

abbrev empty_store : ℕ → JobStore
empty_store limit = record { jobs = empty; events = empty; seq = empty; event_log_limit = limit }

store_made : (n : ℕ) → 1 ≤ n → (store : JobStore) × (new_store n ≡ some store)
unfolding new_store
store_made n h = go (ltb n 1) refl
  where
    go : (b : Bool) → ltb n 1 ≡ b → (store : JobStore) × (new_store n ≡ some store)
    go true e = absurd (ground arith)
    go false e = (empty_store n, rw e refl)

module _ (to_int : String → Option ℤ) (to_float : String → Option PyFloat)
    (show_int : ℤ → String) where
  -- A configuration that is made holds an event log limit of at least one, and its store is made.
  pub config_from_env-store_of :
      (env : Table String) (config : Config)
      → config_from_env to_int to_float show_int env ≡ ok config
      → (limit : ℕ) × (config.event_log_limit ≡ pos limit)
        × (1 ≤ limit)
        × (store : JobStore) × (store_of config ≡ some store)
  unfolding config_from_env store_of
  config_from_env-store_of env config e =
      let (limit, l, e₁) =
        >>=-eq-ok (or_raise (to_int (get_or env "MUSIC3_EVENT_LOG_LIMIT" "1024"))) _ e in
      elim (Bool-cases (is_below limit 1)) [
        | inl low ↦ absurd (cc (rw low at e₁))
        | inr high ↦
            let same =
              let (port, p, e₂) =
                >>=-eq-ok (or_raise (to_int (get_or env "MUSIC3_APP_PORT" "8080"))) _
                  (rw high at e₁) in
              let (read, q, e₃) =
                >>=-eq-ok
                  (or_raise (to_float (get_or env "MUSIC3_ENGINE_READ_TIMEOUT_SECONDS" "1200"))) _
                  e₂ in
              let (probe, r, e₄) =
                >>=-eq-ok
                  (or_raise (to_float (get_or env "MUSIC3_READINESS_PROBE_TIMEOUT_SECONDS" "10"))) _
                  e₃ in
              let (cache, t, e₅) =
                >>=-eq-ok (or_raise (to_float (get_or env "MUSIC3_READINESS_CACHE_SECONDS" "5"))) _
                  e₄ in
              let (beat, u, e₆) =
                >>=-eq-ok (or_raise (to_float (get_or env "MUSIC3_SSE_HEARTBEAT_SECONDS" "15"))) _
                  e₅ in
              limit_of e₆ in
            let (n, at, one) = not_below limit high in
            let (store, made) = store_made n one in
            (n, same ∙ at, one, store, ap store_with (same ∙ at) ∙ made)
      ]
