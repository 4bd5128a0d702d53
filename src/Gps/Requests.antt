-- ===== src/Gps/Requests.antt =====
-- processRequest with the start of the engine, the timer and getTimeToFirstFixValue
-- (GPSPositionProvider.cpp).
use com_webos_service_locati.Base.{
  ℕ, ◌-◌, Bool, true, false, ◌||◌, Option, List, [], ◌∷◌, ◌++◌, ltb, ◌==◌, if◌then◌else◌,
}
use com_webos_service_locati.Commands.{
  HandlerRequestType, unknown_cmd, position_cmd, gps_status_cmd, nmea_cmd, satelitte_cmd,
  set_gps_parameters_cmd, send_gps_extra_cmd, add_geofence_cmd, remove_geofence_cmd,
  time_to_first_fix, stop_position_cmd, stop_nmea_cmd, stop_satelitte_cmd, stop_gps_cmd,
}
use com_webos_service_locati.Errors.{
  ErrorCode, error_none, error_not_available, error_duplicate_request, error_not_started,
  error_timeout,
}
use com_webos_service_locati.Gps.{
  Nyx, Conf, Gps, Hal, PositionRequest, Effect, add_timer, remove_timer, add_geofence_area,
  remove_geofence_area, report_location, gps_update_interval_max,
}
use com_webos_service_locati.Gps.Engine.{
  handle_gps_enable, handle_gps_disable, handle_periodic_updates, handle_set_gps_parameter_command,
  Parameters,
}
use com_webos_service_locati.Gps.Extra.{Reader, handle_extra_command}

-- `mAPIProgressFlag != 0`
abbrev pub in_use : Gps → Bool
in_use g = g.location_updates_on || g.nmea_get_data_on || g.satellite_get_data_on

abbrev pub clear_flags : Gps → Gps
clear_flags g = record g {
  location_updates_on = false;
  nmea_get_data_on = false;
  satellite_get_data_on = false;
}

abbrev pub status : Bool → ErrorCode
status true = error_none
status false = error_not_available

-- A session ends: the time to the first fix is measured again in the next one.
abbrev pub end_session : Gps → Gps
end_session g = record g {
  location_updates_on = false;
  ttff_state = false;
  fix_request_time = 0;
  last_fix_time = 0;
  ttff = 0;
}

-- `ERROR_NONE == error`
abbrev pub is_none : ErrorCode → Bool
is_none error_none = true
is_none _ = false

unfoldable pub enable : Gps → Gps
enable g = record g { enabled = true }

unfoldable pub disable : Gps → Gps
disable g = if g.enabled then record g { enabled = false; has_callback = false } else g

unfoldable pub get_time_to_first_fix_value : Gps → Gps × ℕ
get_time_to_first_fix_value g =
    if ltb g.fix_request_time g.last_fix_time
    then (let t = g.last_fix_time - g.fix_request_time in (record g { ttff = t }, t))
    else (g, g.ttff)

module _ {F : Type 0} where
  -- The timer ends, and `mPosTimer` keeps its id.
  unfoldable pub gps_timeout_cb : Gps → Gps × List (Effect F)
  gps_timeout_cb g = (g, if g.location_updates_on then report_location error_timeout ∷ [] else [])

  unfoldable pub drop_timer : Gps → Gps × List (Effect F)
  drop_timer g =
      if g.pos_timer == 0
      then (g, [])
      else (record g { pos_timer = 0 }, remove_timer g.pos_timer ∷ [])

  unfoldable pub start_timer : Hal → Gps → Gps × List (Effect F)
  start_timer hal g =
      if g.pos_timer == 0
      then (record g { pos_timer = hal.timer }, add_timer gps_update_interval_max hal.timer ∷ [])
      else (g, [])

  module _ (nyx : Nyx) where
    unfoldable pub request_gps_engine_start : Hal → Gps → Gps × ErrorCode × List (Effect F)
    unfolding handle_gps_enable
    request_gps_engine_start hal g =
        let (g1, periodic, set) = handle_periodic_updates nyx g in
        if periodic
        then (let (g2, started, effects) = handle_gps_enable hal g1 in
            (g2, status started, set ++ effects))
        else (g1, error_not_available, set)

    -- `stop_unused` ends STOP_NMEA_CMD, STOP_SATELITTE_CMD and STOP_POSITION_CMD.
    unfoldable pub stop_unused : Conf → Hal → Gps → Gps × ErrorCode × List (Effect F)
    unfolding handle_gps_disable
    stop_unused conf hal g =
        if in_use g
        then (g, error_none, [])
        else if g.engine_started
        then (let (g', stopped, effects) = handle_gps_disable nyx conf hal g in
            (g', status stopped, effects))
        else (g, error_none, [])

    unfoldable pub request_position : Hal → Gps → Gps × ErrorCode × List (Effect F)
    unfolding request_gps_engine_start start_timer
    request_position hal g =
        if g.location_updates_on
        then (g, error_duplicate_request, [])
        else (let g0 = if g.ttff_state then g else record g { fix_request_time = hal.now } in
            let (g1, error, effects) = request_gps_engine_start hal g0 in
            if is_none error
            then (let (g2, timers) = start_timer hal g1 in
                (record g2 { location_updates_on = true }, error, effects ++ timers))
            else (g1, error, effects))

    unfoldable pub request_nmea : Hal → Gps → Gps × ErrorCode × List (Effect F)
    unfolding request_gps_engine_start
    request_nmea hal g =
        if g.nmea_get_data_on
        then (g, error_duplicate_request, [])
        else (let (g1, error, effects) = request_gps_engine_start hal g in
            if is_none error
            then (record g1 { nmea_get_data_on = true }, error, effects)
            else (g1, error, effects))

    unfoldable pub request_satellites : Hal → Gps → Gps × ErrorCode × List (Effect F)
    unfolding request_gps_engine_start
    request_satellites hal g =
        if g.satellite_get_data_on
        then (g, error_duplicate_request, [])
        else (let (g1, error, effects) = request_gps_engine_start hal g in
            if is_none error
            then (record g1 { satellite_get_data_on = true }, error, effects)
            else (g1, error, effects))

    unfoldable pub stop_gps_request : Conf → Hal → Gps → Gps × ErrorCode × List (Effect F)
    unfolding handle_gps_disable drop_timer
    stop_gps_request conf hal g =
        if g.engine_started
        then (let (g1, stopped, effects) = handle_gps_disable nyx conf hal g in
            if stopped
            then (let (g2, timers) = drop_timer (clear_flags g1) in
                (g2, error_none, effects ++ timers))
            else (g1, error_not_available, effects))
        else (g, error_none, [])

    unfoldable pub stop_position : Conf → Hal → Gps → Gps × ErrorCode × List (Effect F)
    unfolding drop_timer stop_unused
    stop_position conf hal g =
        let (g1, timers) = drop_timer g in
        let (g3, error, effects) = stop_unused conf hal (end_session g1) in
        (g3, error, timers ++ effects)

    -- `read` is the parsing of JSON.
    module _ (conf : Conf) (reader : Reader F) (read : List ℕ → Option Parameters) where
      unfoldable pub serve :
          Hal → HandlerRequestType → PositionRequest F → Gps → Gps × ErrorCode × List (Effect F)
      unfolding request_position request_nmea request_satellites stop_gps_request stop_position
          stop_unused handle_set_gps_parameter_command handle_extra_command
      serve hal position_cmd q g = request_position hal g
      serve hal nmea_cmd q g = request_nmea hal g
      serve hal satelitte_cmd q g = request_satellites hal g
      serve hal set_gps_parameters_cmd q g =
          let (g', done, effects) =
            handle_set_gps_parameter_command nyx conf (read q.request_params) g in
          (g', status done, effects)
      serve hal send_gps_extra_cmd q g =
          let (g', done, effects) = handle_extra_command reader hal q.request_params g in
          (g', status done, effects)
      serve hal add_geofence_cmd q g = (
        g,
        status hal.adds_geofence,
        add_geofence_area q.geofence_id q.geofence_latitude q.geofence_longitude q.geofence_radius
            ∷ [],
      )
      serve hal remove_geofence_cmd q g =
          (g, status hal.removes_geofence, remove_geofence_area q.geofence_id ∷ [])
      serve hal stop_gps_cmd q g = stop_gps_request conf hal g
      serve hal stop_nmea_cmd q g = stop_unused conf hal (record g { nmea_get_data_on = false })
      serve hal stop_satelitte_cmd q g =
          stop_unused conf hal (record g { satellite_get_data_on = false })
      serve hal stop_position_cmd q g = stop_position conf hal g
      serve hal unknown_cmd q g = (g, error_none, [])
      serve hal gps_status_cmd q g = (g, error_none, [])
      serve hal time_to_first_fix q g = (g, error_none, [])

      unfoldable pub process_request :
          Hal → PositionRequest F → Gps → Gps × ErrorCode × List (Effect F)
      unfolding serve
      process_request hal q g =
          if g.enabled then serve hal q.request_type q g else (g, error_not_started, [])
