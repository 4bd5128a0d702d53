-- ===== src/Network/Provider/Same.antt =====
-- A query touches neither the timer nor the request that runs (NetworkPositionProvider.cpp).
use com_webos_service_locati.Base.{ℕ, ◌≡◌, refl, Bool, true, false, Option, none, some, List, arith}
use com_webos_service_locati.Network.Backend.{Written, untouched, text}
use com_webos_service_locati.Network.Provider.{
  Provider, Env, trigger_post_query, create_query, network_post_query, Query, send_query,
  current_backend, post_created,
}
use com_webos_service_locati.Network.Provider.Events.{timers}

send_query-timers :
    (F : Type 0) (env : Env) (q : Option Query) (w : Bool × Written) (alive : List ℕ)
    → timers alive (send_query {F = F} env q w).1 ≡ alive
unfolding send_query
send_query-timers F env q (false, out) alive = refl
send_query-timers F env q (true, untouched) alive = refl
send_query-timers F env q (true, text url) alive = refl

module _ {F : Type 0} where
  -- What a query leaves alone.
  pub record Same (p q : Provider F) : Type 0 where
    pub timeout_same : q.timeout_id ≡ p.timeout_id
    pub progress_same : q.process_request_in_progress ≡ p.process_request_in_progress
    pub enabled_same : q.enabled ≡ p.enabled
    pub callback_same : q.has_callback ≡ p.has_callback

  pub current_backend-Same : (env : Env) (p : Provider F) → Same p (current_backend env p).0
  unfolding current_backend
  current_backend-Same env p = ground arith

  pub network_post_query-Same :
      (env : Env) (q : Option Query) (key : Option (List ℕ)) (p : Provider F) (alive : List ℕ)
      → Same p (network_post_query env q key p).0
        × (timers alive (network_post_query env q key p).2 ≡ alive)
  unfolding network_post_query
  network_post_query-Same env q key p alive =
      (current_backend-Same env p, send_query-timers F env q _ alive)

  create_query-Same : (w t : Bool) (p : Provider F) → Same p (create_query w t p).0
  unfolding create_query
  create_query-Same false false p = ground arith
  create_query-Same false true p = ground arith
  create_query-Same true false p = ground arith
  create_query-Same true true p = ground arith

  post_created-Same :
      (env : Env) (p : Provider F) (r : Provider F × Option Query) (alive : List ℕ)
      → Same p r.0
      → Same p (post_created env r).0 × (timers alive (post_created env r).2 ≡ alive)
  unfolding post_created
  post_created-Same env p (q, none) alive s = (s, refl)
  post_created-Same env p (q, some query) alive s =
      let (t, e) = network_post_query-Same env (some query) q.position.nw_geolocation_key q alive in
      (ground (arith, t, s), e)

  pub trigger_post_query-Same :
      (env : Env) (p : Provider F) (alive : List ℕ)
      → Same p (trigger_post_query env p).0 × (timers alive (trigger_post_query env p).2 ≡ alive)
  unfolding trigger_post_query
  trigger_post_query-Same env p alive =
      post_created-Same env p _ alive (create_query-Same p.wifi_status p.telephony_powered p)
