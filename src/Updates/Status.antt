-- ===== src/Updates/Status.antt =====
-- What clients are told of the handlers and of the GPS engine: getHandlerStatus,
-- getAllLocationHandlers, getGpsStatus and getGpsStatusCb of src/lunaIpc/LocationService.cpp. The
-- schemas of the methods are not modelled.
use com_webos_service_locati.Base.{
  ℕ, ◌≡◌, ap, ◌∙◌, Bool, true, false, List, [], ◌∷◌, codes, if◌then◌else◌,
}
use com_webos_service_locati.Gps.Extra.{same_text}
use com_webos_service_locati.Updates.Service.{Service}
use com_webos_service_locati.Updates.State.{Prefs, load_handler_status}
use com_webos_service_locati.Updates.State.Loaded.{IsLoaded}

pub data StatusEffect : Type 0 where
  subscribe_handlers subscribe_status reply_unknown_error : ℕ → StatusEffect
  -- The states of "gps" and of "network".
  reply_handlers : ℕ → Bool → Bool → StatusEffect
  reply_status : ℕ → Bool → StatusEffect
  -- To the subscribers of getGpsStatus, when the main loop is idle.
  tell_status : Bool → StatusEffect

pub data GpsStatus : Type 0 where
  gps_status_error gps_status_unavailable gps_status_acquiring gps_status_available : GpsStatus

pub get_handler_status : {F L : Type 0} → List ℕ → Service F L → Bool
get_handler_status handler s =
    if same_text handler (codes "gps")
    then s.gps_status
    else if same_text handler (codes "network")
    then s.nw_status
    else false

handlers_reply : {F L : Type 0} → ℕ → Service F L → StatusEffect
handlers_reply m s =
    reply_handlers m (get_handler_status (codes "gps") s) (get_handler_status (codes "network") s)

-- `adds` is the result of LSSubscriptionAdd.
pub get_all_location_handlers : {F L : Type 0} → ℕ → Bool → Bool → Service F L → List StatusEffect
get_all_location_handlers m true false s = subscribe_handlers m ∷ reply_unknown_error m ∷ []
get_all_location_handlers m true true s = subscribe_handlers m ∷ handlers_reply m s ∷ []
get_all_location_handlers m false adds s = handlers_reply m s ∷ []

-- `state == GPS_STATUS_AVAILABLE`
is_available : GpsStatus → Bool
is_available gps_status_available = true
is_available _ = false

-- The Boolean that is kept is mCachedGpsEngineStatus; the status is that of the provider.
pub get_gps_status : ℕ → Bool → Bool → GpsStatus → Bool → Bool × List StatusEffect
get_gps_status m true false state cached =
    (is_available state, subscribe_status m ∷ reply_unknown_error m ∷ [])
get_gps_status m true true state cached =
    (is_available state, subscribe_status m ∷ reply_status m (is_available state) ∷ [])
get_gps_status m false adds state cached =
    (is_available state, reply_status m (is_available state) ∷ [])

pub get_gps_status_cb : GpsStatus → Bool → Bool × List StatusEffect
get_gps_status_cb state cached = (is_available state, tell_status (is_available state) ∷ [])

-- getAllLocationHandlers answers with the states that are stored.
pub get_all_location_handlers-stored :
    (prefs : Prefs) {F L : Type 0} (m : ℕ) (adds : Bool) (s : Service F L) (p : prefs.Store)
    → IsLoaded prefs s p
    → get_all_location_handlers m false adds s
      ≡ reply_handlers m
          (load_handler_status prefs true p (codes "gps"))
          (load_handler_status prefs true p (codes "network"))
        ∷ []
unfolding get_all_location_handlers handlers_reply get_handler_status same_text
get_all_location_handlers-stored prefs m adds s p l =
    ap (λ g. reply_handlers m g s.nw_status ∷ []) l.gps_loaded
    ∙ ap (λ n. reply_handlers m (load_handler_status prefs true p (codes "gps")) n ∷ []) l.nw_loaded
