-- ===== src/Network/Provider/Notices.antt =====
-- What others tell the provider: scans, cells, the timer, services and connectivity
-- (NetworkPositionProvider.cpp, registerFor... of NetworkData.cpp).
use com_webos_service_locati.Base.{
  Bool, true, false, not, ◌&&◌, Option, none, some, List, [], ◌∷◌, if◌then◌else◌,
}
use com_webos_service_locati.Base.Int.{pos}
use com_webos_service_locati.Errors.{error_network_error}
use com_webos_service_locati.Network.Wifi.{Signals, keep_scan}
use com_webos_service_locati.Network.Cells.{CellInfo}
use com_webos_service_locati.Network.Provider.{
  Provider, Env, Service, telephony, wifi, Effect, scan, subscribe, trigger_post_query,
}
use com_webos_service_locati.Network.Provider.Requests.{report_last}

module _ {F : Type 0} where
  unfoldable pub on_update_cell_data : Env → CellInfo → Provider F → Provider F × List (Effect F)
  on_update_cell_data env info p =
      let kept = record p { position = record (p.position) { cell_info = some info } } in
      if p.is_first_cell_response && not p.wifi_status
      then (let (p', posted, effects) =
            trigger_post_query env (record kept { is_first_cell_response = false }) in
          (p', effects))
      else (kept, [])

  unfoldable pub on_update_wifi_data :
      Env → Option Signals → Provider F → Provider F × List (Effect F)
  on_update_wifi_data env table p =
      let kept = record p {
        position = record (p.position) { scans = keep_scan table p.position.scans };
      } in
      let (p', posted, effects) = trigger_post_query env kept in (p', effects)

  -- The timer. `none` is the call through a callback that is not there.
  unfoldable pub network_update_callback : Env → Provider F → Option (Provider F × List (Effect F))
  unfolding report_last
  network_update_callback env p =
      if not p.connectivity_status
      then (if p.has_callback then some (p, report_last p error_network_error ∷ []) else none)
      else if p.wifi_status
      then some (p, scan ∷ [])
      else if p.telephony_powered
      then (let (p', posted, effects) = trigger_post_query env p in some (p', effects))
      else some (p, [])

  -- `registerForWifiAccessPoints`, `registerForCellInfo`: a call that succeeds sets the token.
  unfoldable pub service_status_cb :
      Env → Service → Bool → Provider F → Provider F × List (Effect F)
  service_status_cb env wifi connected p =
      if connected && p.process_request_in_progress
      then (
        record p { wifi_info_req = if env.calls then true else p.wifi_info_req },
        subscribe wifi ∷ [],
      )
      else (p, [])
  service_status_cb env telephony connected p =
      if connected && p.process_request_in_progress
      then (
        record p { cell_info_req = if env.calls then true else p.cell_info_req },
        subscribe telephony ∷ [],
      )
      else (p, [])

  unfoldable pub handle_wifi_notification : Bool → Provider F → Provider F
  handle_wifi_notification status p = record p { wifi_status = status }

  unfoldable pub handle_connectivity_notification : Bool → Provider F → Provider F
  handle_connectivity_notification status p = record p { connectivity_status = status }

  -- Without telephony the cell data goes.
  unfoldable pub handle_telephony_notification : Bool → Provider F → Provider F
  handle_telephony_notification true p = record p { telephony_powered = true }
  handle_telephony_notification false p = record p {
    telephony_powered = false;
    position = record (p.position) { cell_info = none; cur_cellid = pos 0 };
  }
