-- ===== src/Network/Provider/Requests.antt =====
-- enable, disable and processRequest of NetworkPositionProvider.cpp. `zero` is 0.0.
use com_webos_service_locati.Base.{
  ℕ, Bool, true, false, not, ◌&&◌, Option, none, some, List, [], ◌∷◌, ◌++◌, ltb, if◌then◌else◌,
}
use com_webos_service_locati.Base.Int.{pos}
use com_webos_service_locati.Commands.{HandlerRequestType, position_cmd, stop_position_cmd}
use com_webos_service_locati.Errors.{
  ErrorCode, error_none, error_network_error, error_not_started, error_license_key_invalid,
}
use com_webos_service_locati.Network.Backend.{NetworkLocationBackend, google, beacon_db}
use com_webos_service_locati.Network.Provider.{
  PositionData, Provider, Env, Service, telephony, wifi, Effect, scan, watch, unwatch, unsubscribe,
  start_timer, stop_timer, report, current_backend, network_post_query,
}

-- `==` on the enumeration
abbrev pub same_backend : NetworkLocationBackend → NetworkLocationBackend → Bool
same_backend google google = true
same_backend google beacon_db = false
same_backend beacon_db google = false
same_backend beacon_db beacon_db = true

abbrev is_none : Option (List ℕ) → Bool
is_none none = true
is_none (some k) = false

module _ {F : Type 0} (zero : F) where
  unfoldable pub reset_data : PositionData F → PositionData F
  reset_data d = record {
    nw_geolocation_key = d.nw_geolocation_key;
    cell_info = none;
    cur_cellid = pos 0;
    last_latitude = zero;
    last_longitude = zero;
    last_accuracy = zero;
    last_time_stamp = 0;
    scans = record { current = none; last = none };
  }

module _ {F : Type 0} where
  unfoldable pub enable : Env → Provider F → Provider F
  enable env p = if p.enabled then p else record p {
    position = record (p.position) { nw_geolocation_key = env.api_key };
    enabled = true;
  }

  unfoldable pub disable : Provider F → Provider F × List (Effect F)
  disable p =
      if p.enabled
      then (
        record p { has_callback = false; enabled = false; timeout_id = 0 },
        stop_timer p.timeout_id ∷ [],
      )
      else (p, [])

  unfoldable pub set_callback : Bool → Provider F → Provider F
  set_callback present p = record p { has_callback = present }

  unfoldable pub report_last : Provider F → ErrorCode → Effect F
  report_last p e =
      report p.position.last_latitude p.position.last_longitude p.position.last_accuracy
        p.position.last_time_stamp e

  -- A position request while another is running is answered from the last fix, if there is one
  -- and it is of the chosen server.
  unfoldable pub answer_running : Env → Provider F → Provider F × ErrorCode × List (Effect F)
  unfolding report_last current_backend
  answer_running env p =
      if p.has_callback && ltb 0 p.position.last_time_stamp
      then (let (p', b) = current_backend env p in
          (
            p',
            error_none,
            if same_backend p.fix_backend b then report_last p error_none ∷ [] else [],
          ))
      else (p, error_none, [])

  unfoldable pub start_request : Env → Provider F → Provider F × ErrorCode × List (Effect F)
  start_request env p = (
    record p {
      process_request_in_progress = true;
      telephony_cookie = if env.watches then true else p.telephony_cookie;
      wifi_cookie = if env.watches then true else p.wifi_cookie;
      timeout_id = env.timer;
    },
    error_none,
    scan ∷ watch telephony ∷ watch wifi ∷ start_timer env.timer ∷ [],
  )

  unfoldable pub read_key_and_start : Env → Provider F → Provider F × ErrorCode × List (Effect F)
  unfolding start_request
  read_key_and_start env p =
      let read = record p { position = record (p.position) { nw_geolocation_key = env.api_key } } in
      if is_none env.api_key then (read, error_license_key_invalid, []) else start_request env read

  unfoldable pub start_first : Env → Provider F → Provider F × ErrorCode × List (Effect F)
  unfolding read_key_and_start start_request current_backend
  start_first env p =
      let (p', b) = current_backend env p in
      if same_backend b google && is_none p'.position.nw_geolocation_key
      then read_key_and_start env p'
      else start_request env p'

  unfoldable pub mock_request : Env → Provider F → Provider F × ErrorCode × List (Effect F)
  unfolding network_post_query
  mock_request env p =
      let (p', posted, effects) = network_post_query env none (some []) p in
      if posted
      then (record p' { mock_request_in_progress = true }, error_none, effects)
      else (p', error_network_error, effects)

  unfoldable pub position_request : Env → Provider F → Provider F × ErrorCode × List (Effect F)
  unfolding mock_request answer_running start_first
  position_request env p =
      if env.mock_enabled
      then mock_request env p
      else if p.process_request_in_progress
      then answer_running env p
      else start_first env p

  -- `unregisterForWifiAccessPoints`, `unregisterForCellInfo`: the token is kept if the bus refuses.
  unfoldable pub unregister : Env → Bool → Service → Bool × List (Effect F)
  unregister env false service = (false, [])
  unregister env true service = (not env.cancels, unsubscribe service ∷ [])

  -- `unregisterServiceStatus`: the cookie is cleared in any case.
  unfoldable pub unregister_service_status : Bool → Service → Bool × List (Effect F)
  unregister_service_status false service = (false, [])
  unregister_service_status true service = (false, unwatch service ∷ [])

module _ {F : Type 0} (zero : F) where
  unfoldable pub stop_running : Env → Provider F → Provider F × ErrorCode × List (Effect F)
  unfolding unregister unregister_service_status reset_data
  stop_running env p =
      let (wifi_req, e1) = unregister {F = F} env p.wifi_info_req wifi in
      let (cell_req, e2) = unregister {F = F} env p.cell_info_req telephony in
      let (wifi_c, e3) = unregister_service_status {F = F} p.wifi_cookie wifi in
      let (tel_c, e4) = unregister_service_status {F = F} p.telephony_cookie telephony in
      (
        record p {
          position = reset_data zero p.position;
          process_request_in_progress = false;
          timeout_id = 0;
          telephony_cookie = tel_c;
          wifi_cookie = wifi_c;
          cell_info_req = cell_req;
          wifi_info_req = wifi_req;
          is_first_cell_response = true;
        },
        error_none,
        e1
            ++ (e2
                ++ (e3
                    ++ (e4 ++ (if ltb 0 p.timeout_id then stop_timer p.timeout_id ∷ [] else [])))),
      )

  unfoldable pub stop_request : Env → Provider F → Provider F × ErrorCode × List (Effect F)
  unfolding stop_running reset_data
  stop_request env p =
      if p.mock_request_in_progress
      then (
        record p { position = reset_data zero p.position; mock_request_in_progress = false },
        error_none,
        [],
      )
      else if p.process_request_in_progress
      then stop_running env p
      else (p, error_not_started, [])

  unfoldable pub command :
      HandlerRequestType → Env → Provider F → Provider F × ErrorCode × List (Effect F)
  unfolding position_request stop_request
  command position_cmd env p = position_request env p
  command stop_position_cmd env p = stop_request env p
  command _ env p = (p, error_none, [])

  unfoldable pub process_request :
      Env → HandlerRequestType → Provider F → Provider F × ErrorCode × List (Effect F)
  unfolding command
  process_request env cmd p = if p.enabled then command cmd env p else (p, error_not_started, [])
