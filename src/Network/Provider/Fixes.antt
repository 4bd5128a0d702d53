-- ===== src/Network/Provider/Fixes.antt =====
-- The positions that the provider reports (NetworkPositionProvider.cpp).
use com_webos_service_locati.Base.{
  ℕ, ◌<◌, ◌≡◌, refl, Bool, true, false, Option, none, some, List, [], ◌∷◌, arith,
}
use com_webos_service_locati.Base.Int.{pos}
use com_webos_service_locati.Commands.{HandlerRequestType, position_cmd, stop_position_cmd}
use com_webos_service_locati.Errors.{error_none}
use com_webos_service_locati.Network.Backend.{NetworkLocationBackend, Written, untouched, text}
use com_webos_service_locati.Network.Wifi.{Signals, keep_scan}
use com_webos_service_locati.Network.Cells.{CellInfo}
use com_webos_service_locati.Network.Provider.{
  Provider, Env, Service, Effect, clear_transaction, store_position, report, trigger_post_query,
  network_post_query, Query, send_query, current_backend, post_created,
}
use com_webos_service_locati.Network.Provider.Requests.{
  disable, process_request, mock_request, answer_running, start_first, stop_request, command,
  same_backend,
}
use com_webos_service_locati.Network.Provider.Replies.{Task, Body, handle_response}
use com_webos_service_locati.Network.Provider.Notices.{
  on_update_cell_data, on_update_wifi_data, network_update_callback, service_status_cb,
}
use com_webos_service_locati.Network.Provider.Events.{
  Event, starts, stops, requests, replies, cells, scans, ticks, service, wifi_is, connectivity_is,
  telephony_is, backend_is, step,
}

module _ {F : Type 0} where
  -- Each success that is reported is the fix that the provider keeps, with a time stamp, and the fix
  -- is marked with the chosen server. A reply marks its fix with the server that is chosen when it
  -- comes, which need not be the one that was asked.
  abbrev pub Honest : Provider F → List (Effect F) → Type 0
  Honest p [] = Unit {0}
  Honest p (report lat lng acc t error_none ∷ es) =
      (p.position.last_latitude ≡ lat)
      × (p.position.last_longitude ≡ lng)
      × (p.position.last_accuracy ≡ acc)
      × (p.position.last_time_stamp ≡ t)
      × (0 < t)
      × (p.fix_backend ≡ p.backend)
      × Honest p es
  Honest p (_ ∷ es) = Honest p es

  abbrev pub HonestStep : Option (Provider F × List (Effect F)) → Type 0
  HonestStep none = Unit {0}
  HonestStep (some (p, effects)) = Honest p effects

send_query-Honest :
    (F : Type 0) (env : Env) (q : Option Query) (w : Bool × Written) (p : Provider F)
    → Honest p (send_query {F = F} env q w).1
unfolding send_query
send_query-Honest F env q (false, out) p = tt
send_query-Honest F env q (true, untouched) p = tt
send_query-Honest F env q (true, text url) p = tt

module _ {F : Type 0} where
  network_post_query-Honest :
      (env : Env) (q : Option Query) (key : Option (List ℕ)) (p r : Provider F)
      → Honest r (network_post_query env q key p).2
  unfolding network_post_query
  network_post_query-Honest env q key p r = send_query-Honest F env q _ r

  post_created-Honest :
      (env : Env) (c : Provider F × Option Query) (r : Provider F) → Honest r (post_created env c).2
  unfolding post_created
  post_created-Honest env (p, none) r = tt
  post_created-Honest env (p, some q) r =
      network_post_query-Honest env (some q) p.position.nw_geolocation_key p r

  trigger_post_query-Honest : (env : Env) (p r : Provider F) → Honest r (trigger_post_query env p).2
  unfolding trigger_post_query
  trigger_post_query-Honest env p r = post_created-Honest env _ r

  -- Reading the chosen server loads it.
  current_backend_lem :
      (env : Env) (p : Provider F)
      → ((current_backend env p).0.backend ≡ (current_backend env p).1)
        × ((current_backend env p).0.position ≡ p.position)
        × ((current_backend env p).0.fix_backend ≡ p.fix_backend)
  unfolding current_backend
  current_backend_lem env p = ground arith

same_backend-eq : (a b : NetworkLocationBackend) → same_backend a b ≡ true → a ≡ b
same_backend-eq a b h = ground arith

module _ {F : Type 0} (zero : F) (feq : F → F → Bool) where
  answer-Honest :
      (env : Env) (p : Provider F) → Honest (answer_running env p).0 (answer_running env p).2
  unfolding answer_running
  answer-Honest env p =
      ground
        (arith, current_backend_lem env p, same_backend-eq p.fix_backend (current_backend env p).1)

  start-Honest : (env : Env) (p : Provider F) → Honest (start_first env p).0 (start_first env p).2
  unfolding start_first
  start-Honest env p = ground arith

  stop-Honest :
      (env : Env) (p : Provider F) → Honest (stop_request zero env p).0 (stop_request zero env p).2
  unfolding stop_request
  stop-Honest env p = ground arith

  mock_request-effects :
      (env : Env) (p : Provider F)
      → (mock_request env p).2 ≡ (network_post_query env none (some []) p).2
  unfolding mock_request
  mock_request-effects env p = ground arith

  mock-Honest : (env : Env) (p : Provider F) → Honest (mock_request env p).0 (mock_request env p).2
  mock-Honest env p =
      rw (mock_request-effects env p)
        (network_post_query-Honest env none (some []) p (mock_request env p).0)

  reply-Honest :
      (env : Env) (task : Option (Task F)) (p : Provider F)
      → 0 < env.now
      → Honest (handle_response zero feq env task p).0 (handle_response zero feq env task p).1
  unfolding handle_response
  reply-Honest env none p h = tt
  reply-Honest env (some task) p h = ground (arith, current_backend_lem env p)

  command-Honest :
      (cmd : HandlerRequestType) (env : Env) (p : Provider F)
      → Honest (command zero cmd env p).0 (command zero cmd env p).2
  unfolding command
  command-Honest position_cmd env p =
      ground (arith, mock-Honest env p, answer-Honest env p, start-Honest env p)
  command-Honest stop_position_cmd env p = stop-Honest env p
  command-Honest _ env p = tt

  request-Honest :
      (cmd : HandlerRequestType) (env : Env) (p : Provider F)
      → Honest (process_request zero env cmd p).0 (process_request zero env cmd p).2
  unfolding process_request
  request-Honest cmd env p = ground (arith, command-Honest cmd env p)

  cells-Honest :
      (env : Env) (info : CellInfo) (p : Provider F)
      → Honest (on_update_cell_data env info p).0 (on_update_cell_data env info p).1
  unfolding on_update_cell_data
  cells-Honest env info p =
      let kept = record p {
        is_first_cell_response = false;
        position = record (p.position) { cell_info = some info };
      } in
      ground (arith, trigger_post_query-Honest env kept (trigger_post_query env kept).0)

  tick-Honest : (env : Env) (p : Provider F) → HonestStep (network_update_callback env p)
  unfolding network_update_callback
  tick-Honest env p = ground (arith, trigger_post_query-Honest env p (trigger_post_query env p).0)

  scans-Honest :
      (env : Env) (table : Option Signals) (p : Provider F)
      → Honest (on_update_wifi_data env table p).0 (on_update_wifi_data env table p).1
  unfolding on_update_wifi_data
  scans-Honest env table p =
      let kept = record p {
        position = record (p.position) { scans = keep_scan table p.position.scans };
      } in
      trigger_post_query-Honest env kept (trigger_post_query env kept).0

  disable-Honest : (p : Provider F) → Honest (disable p).0 (disable p).1
  unfolding disable
  disable-Honest p = ground arith

  service-Honest :
      (env : Env) (s : Service) (b : Bool) (p : Provider F)
      → Honest (service_status_cb env s b p).0 (service_status_cb env s b p).1
  unfolding service_status_cb
  service-Honest env s b p = ground arith

  -- In any state and for any event (a reply comes after the epoch), each position that the provider
  -- reports as a success is the last fix that it keeps, with that fix's time stamp, which is not 0,
  -- and the mark of the fix (mFixBackend) is the server that is chosen then.
  pub step-Honest :
      (p : Provider F) (e : Event F)
      → ((env : Env) (task : Option (Task F)) → e ≡ replies env task → 0 < env.now)
      → HonestStep (step zero feq p e)
  unfolding step
  step-Honest p (starts env) h = tt
  step-Honest p stops h = disable-Honest p
  step-Honest p (requests env cmd) h = request-Honest cmd env p
  step-Honest p (replies env task) h = reply-Honest env task p (h env task refl)
  step-Honest p (cells env info) h = cells-Honest env info p
  step-Honest p (scans env table) h = scans-Honest env table p
  step-Honest p (ticks env) h = tick-Honest env p
  step-Honest p (service env s connected) h = service-Honest env s connected p
  step-Honest p (wifi_is b) h = tt
  step-Honest p (connectivity_is b) h = tt
  step-Honest p (telephony_is b) h = tt
  step-Honest p (backend_is b) h = tt

  -- Where the last fix is not at latitude 0 and there is a callback, a reply with an "error" whose
  -- code is 0 is taken for a position: the provider then keeps 0, 0 with accuracy 0 and the time of
  -- the reply as its fix, stores it, and reports it to its callback as a success.
  pub error_zero_is_fix :
      (env : Env) (b : Body F) (p : Provider F)
      → b.error ≡ some (some (pos 0))
      → feq zero p.position.last_latitude ≡ false
      → p.has_callback ≡ true
      → let r = handle_response zero feq env (some (record { http_ok = true; body = some b })) p in
        (r.0.position.last_latitude ≡ zero)
        × (r.0.position.last_longitude ≡ zero)
        × (r.0.position.last_accuracy ≡ zero)
        × (r.0.position.last_time_stamp ≡ env.now)
        × (r.1
            ≡ clear_transaction
              ∷ store_position env.now zero zero zero
              ∷ report zero zero zero env.now error_none
              ∷ [])
  unfolding handle_response
  error_zero_is_fix env b p e f c = ground (arith, current_backend_lem env p)
