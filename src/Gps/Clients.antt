-- ===== src/Gps/Clients.antt =====
-- Who the engine runs for (GPSPositionProvider.cpp, GPSNyxInterface.cpp).
use com_webos_service_locati.Base.{
  ap, ◌∙◌, ◌∷◌, refl, [], ℕ, ◌≡◌, Bool, true, false, Option, List, if◌then◌else◌, arith,
}
use com_webos_service_locati.Commands.{
  HandlerRequestType, unknown_cmd, position_cmd, gps_status_cmd, nmea_cmd, satelitte_cmd,
  set_gps_parameters_cmd, send_gps_extra_cmd, add_geofence_cmd, remove_geofence_cmd,
  time_to_first_fix, stop_position_cmd, stop_nmea_cmd, stop_satelitte_cmd, stop_gps_cmd,
}
use com_webos_service_locati.Gps.{Nyx, Conf, Gps, Hal, PositionRequest, Effect}
use com_webos_service_locati.Gps.Engine.{handle_gps_disable, Parameters}
use com_webos_service_locati.Gps.Quiet.{
  hears, Unmoved, extra-Unmoved, parameters-Unmoved, time-Unmoved, xtra-Unmoved, status-Unmoved,
  sv-Unmoved, nmea-Unmoved, ntp-Unmoved,
}
use com_webos_service_locati.Gps.Turned.{
  hears-append, request_start-Turned, request_start-started, disable-Turned, disable-stopped,
}
use com_webos_service_locati.Gps.Extra.{Reader}
use com_webos_service_locati.Gps.Requests.{
  clear_flags, in_use, end_session, process_request, serve, request_position, request_nmea,
  request_satellites, request_gps_engine_start, start_timer, drop_timer, stop_unused, stop_position,
  stop_gps_request, gps_timeout_cb, get_time_to_first_fix_value,
}
use com_webos_service_locati.Gps.Callbacks.{
  gps_location_cb, gps_set_capabilities_cb, geofence_status_cb, xtra_data_injected,
}
use com_webos_service_locati.Gps.Events.{
  Event, request, timeout, asks_ttff, location, gps_status, sv_status, nmea, capabilities,
  geofence_is, wants_time, wants_xtra, ntp_ends, xtra_injected, step, run,
}

-- No client without the engine; a timer exactly while a client waits for a position.
pub record IsServed (g : Gps) : Type 0 where
  pub served : in_use g ≡ true → g.engine_started ≡ true
  pub timed : g.location_updates_on ≡ false → g.pos_timer ≡ 0

-- What one operation of the engine keeps, with the calls it made.
record Keeps {F : Type 0} (hal : Hal) (g g' : Gps) (effects : List (Effect F)) : Type 0 where
  serves : IsServed g → IsServed g'
  told : g'.engine_started ≡ hears hal g.engine_started effects

Unmoved-Keeps :
    {F : Type 0} (hal : Hal) (g g' : Gps) (effects : List (Effect F))
    → Unmoved hal g g' effects
    → Keeps hal g g' effects
Unmoved-Keeps hal g g' effects u = ground (arith, u.unheard g.engine_started)

module _ {F : Type 0} (nyx : Nyx) (conf : Conf) where
  position-Keeps :
      (hal : Hal) (g : Gps) → let r = request_position {F = F} nyx hal g in Keeps hal g r.0 r.2
  unfolding request_position start_timer
  position-Keeps hal g =
      let g0 = if g.ttff_state then g else record g { fix_request_time = hal.now } in
      let r = request_gps_engine_start {F = F} nyx hal g0 in
      let t = request_start-Turned {F = F} nyx hal g0 in
      let appended = hears-append hal g.engine_started r.2 (start_timer hal r.0).1 in
      ground (arith, t, request_start-started F nyx hal g0, appended)

  nmea-Keeps : (hal : Hal) (g : Gps) → let r = request_nmea {F = F} nyx hal g in Keeps hal g r.0 r.2
  unfolding request_nmea
  nmea-Keeps hal g =
      ground (arith, request_start-Turned {F = F} nyx hal g, request_start-started F nyx hal g)

  satellites-Keeps :
      (hal : Hal) (g : Gps) → let r = request_satellites {F = F} nyx hal g in Keeps hal g r.0 r.2
  unfolding request_satellites
  satellites-Keeps hal g =
      ground (arith, request_start-Turned {F = F} nyx hal g, request_start-started F nyx hal g)

  unused-Keeps :
      (hal : Hal) (g : Gps) → let r = stop_unused {F = F} nyx conf hal g in Keeps hal g r.0 r.2
  unfolding stop_unused
  unused-Keeps hal g = ground (arith, disable-Turned {F = F} nyx conf hal g)

  stop_gps-Keeps :
      (hal : Hal) (g : Gps) → let r = stop_gps_request {F = F} nyx conf hal g in Keeps hal g r.0 r.2
  unfolding stop_gps_request drop_timer
  stop_gps-Keeps hal g =
      let r = handle_gps_disable {F = F} nyx conf hal g in
      let appended = hears-append hal g.engine_started r.2 (drop_timer (clear_flags r.0)).1 in
      ground
        (arith, disable-Turned {F = F} nyx conf hal g, disable-stopped F nyx conf hal g, appended)

  stop_position-Keeps :
      (hal : Hal) (g : Gps) → let r = stop_position {F = F} nyx conf hal g in Keeps hal g r.0 r.2
  unfolding stop_position drop_timer
  stop_position-Keeps hal g =
      let d = drop_timer {F = F} g in
      let u = unused-Keeps hal (end_session d.0) in
      let effects = (stop_unused {F = F} nyx conf hal (end_session d.0)).2 in
      ground (arith, u, hears-append hal g.engine_started d.1 effects)

  module _ (reader : Reader F) (read : List ℕ → Option Parameters) where
    serve-Keeps :
        (hal : Hal) (t : HandlerRequestType) (q : PositionRequest F) (g : Gps)
        → let r = serve nyx conf reader read hal t q g in Keeps hal g r.0 r.2
    unfolding serve
    serve-Keeps hal position_cmd q g = position-Keeps hal g
    serve-Keeps hal nmea_cmd q g = nmea-Keeps hal g
    serve-Keeps hal satelitte_cmd q g = satellites-Keeps hal g
    serve-Keeps hal set_gps_parameters_cmd q g =
        Unmoved-Keeps hal g _ _ (parameters-Unmoved {F = F} nyx conf hal (read q.request_params) g)
    serve-Keeps hal send_gps_extra_cmd q g =
        Unmoved-Keeps hal g _ _ (extra-Unmoved reader hal q.request_params g)
    serve-Keeps hal add_geofence_cmd q g = ground arith
    serve-Keeps hal remove_geofence_cmd q g = ground arith
    serve-Keeps hal stop_gps_cmd q g = stop_gps-Keeps hal g
    serve-Keeps hal stop_nmea_cmd q g =
        ground (arith, unused-Keeps hal (record g { nmea_get_data_on = false }))
    serve-Keeps hal stop_satelitte_cmd q g =
        ground (arith, unused-Keeps hal (record g { satellite_get_data_on = false }))
    serve-Keeps hal stop_position_cmd q g = stop_position-Keeps hal g
    serve-Keeps hal unknown_cmd q g = ground arith
    serve-Keeps hal gps_status_cmd q g = ground arith
    serve-Keeps hal time_to_first_fix q g = ground arith

    process_request-Keeps :
        (hal : Hal) (q : PositionRequest F) (g : Gps)
        → let r = process_request nyx conf reader read hal q g in Keeps hal g r.0 r.2
    unfolding process_request
    process_request-Keeps hal q g = ground (arith, serve-Keeps hal q.request_type q g)

    module _ (max_svs : ℕ) where
      step-Keeps :
          (hal : Hal) (e : Event F) (g : Gps)
          → let r = step nyx max_svs conf reader read hal e g in Keeps hal g r.0 r.1
      unfolding step gps_timeout_cb get_time_to_first_fix_value gps_location_cb
          gps_set_capabilities_cb geofence_status_cb xtra_data_injected
      step-Keeps hal (request q) g = process_request-Keeps hal q g
      step-Keeps hal timeout g = ground arith
      step-Keeps hal asks_ttff g = ground arith
      step-Keeps hal location g = ground arith
      step-Keeps hal (gps_status value) g =
          Unmoved-Keeps hal g _ _ (status-Unmoved {F = F} hal value g)
      step-Keeps hal (sv_status sv) g = Unmoved-Keeps hal g _ _ (sv-Unmoved hal max_svs sv g)
      step-Keeps hal (nmea text) g = Unmoved-Keeps hal g _ _ (nmea-Unmoved {F = F} hal text g)
      step-Keeps hal (capabilities bits) g = ground arith
      step-Keeps hal (geofence_is status) g = ground arith
      step-Keeps hal wants_time g = Unmoved-Keeps hal g _ _ (time-Unmoved {F = F} hal g)
      step-Keeps hal wants_xtra g = Unmoved-Keeps hal g _ _ (xtra-Unmoved {F = F} hal g)
      step-Keeps hal (ntp_ends r) g = Unmoved-Keeps hal g _ _ (ntp-Unmoved {F = F} hal r g)
      step-Keeps hal xtra_injected g = ground arith

      -- After any events, with calls of the GNSS library that fail among them: while a client waits
      -- for positions, NMEA or satellites the engine runs, and no timer is set unless a client
      -- waits for a position, if it was so at the start.
      pub run-IsServed :
          (es : List (Hal × Event F)) (g : Gps)
          → IsServed g
          → IsServed (run nyx max_svs conf reader read es g).0
      unfolding run
      run-IsServed [] g v = v
      run-IsServed ((hal, e) ∷ es) g v =
          run-IsServed es (step nyx max_svs conf reader read hal e g).0
            ((step-Keeps hal e g).serves v)

      -- The engine of the GNSS library after the events, running or not before them.
      abbrev pub world : Bool → List (Hal × Event F) → Gps → Bool
      world b [] g = b
      world b ((hal, e) ∷ es) g =
          let r = step nyx max_svs conf reader read hal e g in world (hears hal b r.1) es r.0

      run-world :
          (es : List (Hal × Event F)) (g : Gps) (b : Bool)
          → g.engine_started ≡ b
          → (run nyx max_svs conf reader read es g).0.engine_started ≡ world b es g
      unfolding run
      run-world [] g b h = h
      run-world ((hal, e) ∷ es) g b h =
          let r = step nyx max_svs conf reader read hal e g in
          run-world es r.0 (hears hal b r.1)
            ((step-Keeps hal e g).told ∙ ap (λ c. hears hal c r.1) h)

      -- After any events, with calls that fail among them, `mEngineStarted` says whether the engine
      -- of the GNSS library runs, if it did so at the start.
      pub run-told :
          (es : List (Hal × Event F)) (g : Gps)
          → (run nyx max_svs conf reader read es g).0.engine_started ≡ world g.engine_started es g
      run-told es g = run-world es g g.engine_started refl
