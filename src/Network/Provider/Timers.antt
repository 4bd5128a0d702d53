-- ===== src/Network/Provider/Timers.antt =====
-- The timer of the provider (NetworkPositionProvider.cpp).
use com_webos_service_locati.Base.{
  ℕ, ◌<◌, ◌≡◌, Bool, true, false, Option, none, some, List, [], arith,
}
use com_webos_service_locati.Commands.{HandlerRequestType, position_cmd, stop_position_cmd}
use com_webos_service_locati.Network.Wifi.{keep_scan, Signals}
use com_webos_service_locati.Network.Cells.{CellInfo}
use com_webos_service_locati.Network.Provider.{Provider, Env, Effect, set_current_backend}
use com_webos_service_locati.Network.Provider.Requests.{
  enable, disable, set_callback, process_request,
}
use com_webos_service_locati.Network.Provider.Replies.{Task, handle_response}
use com_webos_service_locati.Network.Provider.Notices.{
  on_update_cell_data, on_update_wifi_data, network_update_callback, service_status_cb,
  handle_wifi_notification, handle_connectivity_notification, handle_telephony_notification,
}
use com_webos_service_locati.Network.Provider.Events.{
  Event, starts, stops, requests, replies, cells, scans, ticks, service, wifi_is, connectivity_is,
  telephony_is, backend_is, IsPossible, step, timers, Inv,
}
use com_webos_service_locati.Network.Provider.Requests.{
  mock_request, answer_running, start_first, stop_request, command,
}
use com_webos_service_locati.Network.Provider.Same.{
  Same, current_backend-Same, network_post_query-Same, trigger_post_query-Same,
}

module _ {F : Type 0} where
  Same-Inv : {p q : Provider F} (alive : List ℕ) → Same p q → Inv p alive → Inv q alive
  Same-Inv alive s v = ground arith

  -- After a step, with its effects on the timers.
  abbrev pub Keeps : Option (Provider F × List (Effect F)) → List ℕ → Type 0
  Keeps none alive = ⊥
  Keeps (some (p, effects)) alive = Inv p (timers alive effects)

module _ {F : Type 0} (zero : F) (feq : F → F → Bool) where
  mock-Inv :
      (env : Env) (p : Provider F) (alive : List ℕ)
      → Inv p alive
      → Inv (mock_request env p).0 (timers alive (mock_request env p).2)
  unfolding mock_request
  mock-Inv env p alive v =
      let (s, e) = network_post_query-Same env none (some []) p alive in ground (arith, s, e)

  answer-Inv :
      (env : Env) (p : Provider F) (alive : List ℕ)
      → Inv p alive
      → Inv (answer_running env p).0 (timers alive (answer_running env p).2)
  unfolding answer_running
  answer-Inv env p alive v = ground (arith, current_backend-Same env p)

  start-Inv :
      (env : Env) (p : Provider F) (alive : List ℕ)
      → Inv p alive
      → 0 < env.timer
      → p.enabled ≡ true
      → p.process_request_in_progress ≡ false
      → Inv (start_first env p).0 (timers alive (start_first env p).2)
  unfolding start_first
  start-Inv env p alive v h on idle = ground (arith, current_backend-Same env p)

  stop-Inv :
      (env : Env) (p : Provider F) (alive : List ℕ)
      → Inv p alive
      → Inv (stop_request zero env p).0 (timers alive (stop_request zero env p).2)
  unfolding stop_request
  stop-Inv env p alive v = ground arith

  command-Inv :
      (cmd : HandlerRequestType) (env : Env) (p : Provider F) (alive : List ℕ)
      → Inv p alive
      → 0 < env.timer
      → p.enabled ≡ true
      → Inv (command zero cmd env p).0 (timers alive (command zero cmd env p).2)
  unfolding command
  command-Inv position_cmd env p alive v h on =
      ground (arith, mock-Inv env p alive, answer-Inv env p alive, start-Inv env p alive v h on)
  command-Inv stop_position_cmd env p alive v h on = stop-Inv env p alive v
  command-Inv _ env p alive v h on = v

  request-Inv :
      (cmd : HandlerRequestType) (env : Env) (p : Provider F) (alive : List ℕ)
      → Inv p alive
      → 0 < env.timer
      → Inv (process_request zero env cmd p).0 (timers alive (process_request zero env cmd p).2)
  unfolding process_request
  request-Inv cmd env p alive v h = ground (arith, command-Inv cmd env p alive v h)

  reply-Inv :
      (env : Env) (task : Option (Task F)) (p : Provider F) (alive : List ℕ)
      → Inv p alive
      → Inv
          (handle_response zero feq env task p).0
          (timers alive (handle_response zero feq env task p).1)
  unfolding handle_response
  reply-Inv env none p alive v = v
  reply-Inv env (some task) p alive v = ground (arith, current_backend-Same env p)

  cells-Inv :
      (env : Env) (info : CellInfo) (p : Provider F) (alive : List ℕ)
      → Inv p alive
      → Inv (on_update_cell_data env info p).0 (timers alive (on_update_cell_data env info p).1)
  unfolding on_update_cell_data
  cells-Inv env info p alive v = ground (
    arith,
    trigger_post_query-Same env
        (record p {
          is_first_cell_response = false;
          position = record (p.position) { cell_info = some info };
        })
        alive,
  )

  scans-Inv :
      (env : Env) (table : Option Signals) (p : Provider F) (alive : List ℕ)
      → Inv p alive
      → Inv (on_update_wifi_data env table p).0 (timers alive (on_update_wifi_data env table p).1)
  unfolding on_update_wifi_data
  scans-Inv env table p alive v = ground (
    arith,
    trigger_post_query-Same env
        (record p { position = record (p.position) { scans = keep_scan table p.position.scans } })
        alive,
  )

  tick-Inv :
      (env : Env) (p : Provider F) (alive : List ℕ)
      → Inv p alive
      → 0 < p.timeout_id
      → Keeps (network_update_callback env p) alive
  unfolding network_update_callback
  tick-Inv env p alive v h = ground (arith, trigger_post_query-Same env p alive)

  -- An event that can happen never calls through a missing callback, and keeps: the field
  -- `mTimeoutId` names the one timer that runs, or is 0 and none runs; while it runs the provider is
  -- enabled and a request is in progress; an enabled provider has a callback.
  pub step-Inv :
      (p : Provider F) (e : Event F) (alive : List ℕ)
      → Inv p alive
      → IsPossible p e
      → Keeps (step zero feq p e) alive
  unfolding step enable disable set_callback service_status_cb handle_wifi_notification
      handle_connectivity_notification handle_telephony_notification set_current_backend
  step-Inv p (starts env) alive v h = ground arith
  step-Inv p stops alive v h = ground arith
  step-Inv p (requests env cmd) alive v h = request-Inv cmd env p alive v h
  step-Inv p (replies env task) alive v h = reply-Inv env task p alive v
  step-Inv p (cells env info) alive v h = cells-Inv env info p alive v
  step-Inv p (scans env table) alive v h = scans-Inv env table p alive v
  step-Inv p (ticks env) alive v h = tick-Inv env p alive v h
  step-Inv p (service env s connected) alive v h = ground arith
  step-Inv p (wifi_is b) alive v h = ground arith
  step-Inv p (connectivity_is b) alive v h = ground arith
  step-Inv p (telephony_is b) alive v h = ground arith
  step-Inv p (backend_is b) alive v h = ground arith
