-- ===== src/Network/Provider/Events.antt =====
-- The life of the provider as a sequence of events, and its timer (NetworkPositionProvider.cpp;
-- `starts` is what LocationService::init does with a new provider).
use com_webos_service_locati.Base.{
  ℕ, ◌<◌, ◌≡◌, Bool, true, Option, some, List, [], ◌∷◌, ◌==◌, if◌then◌else◌,
}
use com_webos_service_locati.Commands.{HandlerRequestType}
use com_webos_service_locati.Network.Backend.{NetworkLocationBackend}
use com_webos_service_locati.Network.Wifi.{Signals}
use com_webos_service_locati.Network.Cells.{CellInfo}
use com_webos_service_locati.Network.Provider.{
  Provider, Env, Service, Effect, start_timer, stop_timer, set_current_backend,
}
use com_webos_service_locati.Network.Provider.Requests.{
  enable, disable, set_callback, process_request,
}
use com_webos_service_locati.Network.Provider.Replies.{Task, handle_response}
use com_webos_service_locati.Network.Provider.Notices.{
  on_update_cell_data, on_update_wifi_data, network_update_callback, service_status_cb,
  handle_wifi_notification, handle_connectivity_notification, handle_telephony_notification,
}

pub data Event (F : Type 0) : Type 0 where
  starts : Env → Event F
  stops : Event F
  requests : Env → HandlerRequestType → Event F
  replies : Env → Option (Task F) → Event F
  cells : Env → CellInfo → Event F
  scans : Env → Option Signals → Event F
  ticks : Env → Event F
  service : Env → Service → Bool → Event F
  wifi_is connectivity_is telephony_is : Bool → Event F
  backend_is : NetworkLocationBackend → Event F

-- A timer fires only while it runs, and GLib's timer ids are not 0.
abbrev pub IsPossible : {F : Type 0} → Provider F → Event F → Type 0
IsPossible p (ticks env) = 0 < p.timeout_id
IsPossible p (requests env cmd) = 0 < env.timer
IsPossible p _ = Unit {0}

module _ {F : Type 0} (zero : F) (feq : F → F → Bool) where
  requested : Env → HandlerRequestType → Provider F → Provider F × List (Effect F)
  requested env cmd p = let (p', e, effects) = process_request zero env cmd p in (p', effects)

  -- `none` is a call through a callback that is not there.
  unfoldable pub step : Provider F → Event F → Option (Provider F × List (Effect F))
  unfolding requested
  step p (starts env) = some (set_callback true (enable env p), [])
  step p stops = some (disable p)
  step p (requests env cmd) = some (requested env cmd p)
  step p (replies env task) = some (handle_response zero feq env task p)
  step p (cells env info) = some (on_update_cell_data env info p)
  step p (scans env table) = some (on_update_wifi_data env table p)
  step p (ticks env) = network_update_callback env p
  step p (service env s connected) = some (service_status_cb env s connected p)
  step p (wifi_is b) = some (handle_wifi_notification b p, [])
  step p (connectivity_is b) = some (handle_connectivity_notification b p, [])
  step p (telephony_is b) = some (handle_telephony_notification b p, [])
  step p (backend_is b) = some (set_current_backend b p, [])

-- The timers that run: the effects of GLib's g_timeout_add and g_source_remove.
abbrev pub without : ℕ → List ℕ → List ℕ
without t [] = []
without t (u ∷ us) = if u == t then without t us else u ∷ without t us

module _ {F : Type 0} where
  abbrev pub timers : List ℕ → List (Effect F) → List ℕ
  timers alive [] = alive
  timers alive (start_timer t ∷ es) = timers (t ∷ alive) es
  timers alive (stop_timer t ∷ es) = timers (without t alive) es
  timers alive (_ ∷ es) = timers alive es

  pub record Inv (p : Provider F) (alive : List ℕ) : Type 0 where
    pub only : alive ≡ (if p.timeout_id == 0 then [] else p.timeout_id ∷ [])
    pub in_progress : 0 < p.timeout_id → p.process_request_in_progress ≡ true
    pub started : 0 < p.timeout_id → p.enabled ≡ true
    pub heard : p.enabled ≡ true → p.has_callback ≡ true
