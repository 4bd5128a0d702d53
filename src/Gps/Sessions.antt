-- ===== src/Gps/Sessions.antt =====
-- The time to the first fix of a session (GPSPositionProvider.cpp, GPSNyxInterface.cpp).
use com_webos_service_locati.Base.{
  ◌-◌, ◌<◌, ◌∙◌, ◌∷◌, [], ℕ, ◌≡◌, Bool, true, false, Option, List, arith,
}
use com_webos_service_locati.Commands.{
  HandlerRequestType, unknown_cmd, position_cmd, gps_status_cmd, nmea_cmd, satelitte_cmd,
  set_gps_parameters_cmd, send_gps_extra_cmd, add_geofence_cmd, remove_geofence_cmd,
  time_to_first_fix, stop_position_cmd, stop_nmea_cmd, stop_satelitte_cmd, stop_gps_cmd,
}
use com_webos_service_locati.Gps.{Nyx, Conf, Gps, Hal, PositionRequest, Effect}
use com_webos_service_locati.Gps.Engine.{Parameters}
use com_webos_service_locati.Gps.Quiet.{
  Unmoved, extra-Unmoved, parameters-Unmoved, time-Unmoved, xtra-Unmoved, status-Unmoved,
  sv-Unmoved, nmea-Unmoved, ntp-Unmoved,
}
use com_webos_service_locati.Gps.Turned.{request_start-Turned, disable-Turned}
use com_webos_service_locati.Gps.Extra.{Reader}
use com_webos_service_locati.Gps.Requests.{
  process_request, serve, request_position, request_nmea, request_satellites, start_timer,
  drop_timer, stop_unused, stop_gps_request, gps_timeout_cb, get_time_to_first_fix_value,
}
use com_webos_service_locati.Gps.Callbacks.{
  gps_location_cb, gps_set_capabilities_cb, geofence_status_cb, xtra_data_injected,
}
use com_webos_service_locati.Gps.Events.{
  Event, request, timeout, asks_ttff, location, gps_status, sv_status, nmea, capabilities,
  geofence_is, wants_time, wants_xtra, ntp_ends, xtra_injected, step, run,
}

-- The times of the session.
record Times (g g' : Gps) : Type 0 where
  requested : g'.fix_request_time ≡ g.fix_request_time
  fixed : g'.last_fix_time ≡ g.last_fix_time
  state : g'.ttff_state ≡ g.ttff_state

Times-trans : (a b c : Gps) → Times a b → Times b c → Times a c
Times-trans a b c s t = ground arith

-- A request that neither begins nor ends a session.
abbrev pub is_other : HandlerRequestType → Bool
is_other position_cmd = false
is_other stop_position_cmd = false
is_other _ = true

abbrev pub is_between : {F : Type 0} → Event F → Bool
is_between (request q) = is_other q.request_type
is_between _ = true

-- An event before the first fix of a session, or after it.
abbrev pub is_before : {F : Type 0} → Event F → Bool
is_before location = false
is_before e = is_between e

abbrev pub All : {F : Type 0} → (Event F → Bool) → List (Hal × Event F) → Type 0
All p [] = Unit
All p ((hal, e) ∷ es) = (p e ≡ true) × All p es

Unmoved-Times :
    {F : Type 0} (hal : Hal) (g g' : Gps) (effects : List (Effect F))
    → Unmoved hal g g' effects
    → Times g g'
Unmoved-Times hal g g' effects u = ground arith

first_fix :
    (F : Type 0) (hal : Hal) (g : Gps)
    → g.ttff_state ≡ false
    → let g' = (gps_location_cb {F = F} hal g).0 in
      (g'.last_fix_time ≡ hal.now)
      × (g'.ttff_state ≡ true)
      × (g'.fix_request_time ≡ g.fix_request_time)
unfolding gps_location_cb
first_fix F hal g h = ground arith

measured :
    (g : Gps) (t u : ℕ)
    → g.fix_request_time ≡ t
    → g.last_fix_time ≡ u
    → t < u
    → (get_time_to_first_fix_value g).1 ≡ u - t
unfolding get_time_to_first_fix_value
measured g t u h k l = ground arith

module _ (F : Type 0) (nyx : Nyx) (conf : Conf) where
  unused-Times : (hal : Hal) (g : Gps) → Times g (stop_unused {F = F} nyx conf hal g).0
  unfolding stop_unused
  unused-Times hal g = ground (arith, disable-Turned {F = F} nyx conf hal g)

  stop_gps-Times : (hal : Hal) (g : Gps) → Times g (stop_gps_request {F = F} nyx conf hal g).0
  unfolding stop_gps_request drop_timer
  stop_gps-Times hal g = ground (arith, disable-Turned {F = F} nyx conf hal g)

  nmea-Times : (hal : Hal) (g : Gps) → Times g (request_nmea {F = F} nyx hal g).0
  unfolding request_nmea
  nmea-Times hal g = ground (arith, request_start-Turned {F = F} nyx hal g)

  satellites-Times : (hal : Hal) (g : Gps) → Times g (request_satellites {F = F} nyx hal g).0
  unfolding request_satellites
  satellites-Times hal g = ground (arith, request_start-Turned {F = F} nyx hal g)

  module _ (reader : Reader F) (read : List ℕ → Option Parameters) where
    serve-Times :
        (hal : Hal) (t : HandlerRequestType) (q : PositionRequest F) (g : Gps)
        → is_other t ≡ true
        → Times g (serve nyx conf reader read hal t q g).0
    unfolding serve
    serve-Times hal position_cmd q g h = ground arith
    serve-Times hal nmea_cmd q g h = nmea-Times hal g
    serve-Times hal satelitte_cmd q g h = satellites-Times hal g
    serve-Times hal set_gps_parameters_cmd q g h =
        Unmoved-Times hal g _ _ (parameters-Unmoved {F = F} nyx conf hal (read q.request_params) g)
    serve-Times hal send_gps_extra_cmd q g h =
        Unmoved-Times hal g _ _ (extra-Unmoved reader hal q.request_params g)
    serve-Times hal add_geofence_cmd q g h = ground arith
    serve-Times hal remove_geofence_cmd q g h = ground arith
    serve-Times hal stop_gps_cmd q g h = stop_gps-Times hal g
    serve-Times hal stop_nmea_cmd q g h =
        ground (arith, unused-Times hal (record g { nmea_get_data_on = false }))
    serve-Times hal stop_satelitte_cmd q g h =
        ground (arith, unused-Times hal (record g { satellite_get_data_on = false }))
    serve-Times hal stop_position_cmd q g h = ground arith
    serve-Times hal unknown_cmd q g h = ground arith
    serve-Times hal gps_status_cmd q g h = ground arith
    serve-Times hal time_to_first_fix q g h = ground arith

    request-Times :
        (hal : Hal) (q : PositionRequest F) (g : Gps)
        → is_other q.request_type ≡ true
        → Times g (process_request nyx conf reader read hal q g).0
    unfolding process_request
    request-Times hal q g h = ground (arith, serve-Times hal q.request_type q g h)

    module _ (max_svs : ℕ) where
      before-Times :
          (hal : Hal) (e : Event F) (g : Gps)
          → is_before e ≡ true
          → Times g (step nyx max_svs conf reader read hal e g).0
      unfolding step gps_timeout_cb get_time_to_first_fix_value gps_set_capabilities_cb
          geofence_status_cb xtra_data_injected
      before-Times hal (request q) g h = request-Times hal q g h
      before-Times hal timeout g h = ground arith
      before-Times hal asks_ttff g h = ground arith
      before-Times hal location g h = ground arith
      before-Times hal (gps_status value) g h =
          Unmoved-Times hal g _ _ (status-Unmoved {F = F} hal value g)
      before-Times hal (sv_status sv) g h = Unmoved-Times hal g _ _ (sv-Unmoved hal max_svs sv g)
      before-Times hal (nmea text) g h = Unmoved-Times hal g _ _ (nmea-Unmoved {F = F} hal text g)
      before-Times hal (capabilities bits) g h = ground arith
      before-Times hal (geofence_is status) g h = ground arith
      before-Times hal wants_time g h = Unmoved-Times hal g _ _ (time-Unmoved {F = F} hal g)
      before-Times hal wants_xtra g h = Unmoved-Times hal g _ _ (xtra-Unmoved {F = F} hal g)
      before-Times hal (ntp_ends r) g h = Unmoved-Times hal g _ _ (ntp-Unmoved {F = F} hal r g)
      before-Times hal xtra_injected g h = ground arith

      after-Times :
          (hal : Hal) (e : Event F) (g : Gps)
          → is_between e ≡ true
          → g.ttff_state ≡ true
          → Times g (step nyx max_svs conf reader read hal e g).0
      unfolding step gps_location_cb
      after-Times hal location g h on = ground arith
      after-Times hal e g h on = before-Times hal e g h

      run-before-Times :
          (es : List (Hal × Event F)) (g : Gps)
          → All is_before es
          → Times g (run nyx max_svs conf reader read es g).0
      unfolding run
      run-before-Times [] g h = ground arith
      run-before-Times ((hal, e) ∷ es) g h =
          let g' = (step nyx max_svs conf reader read hal e g).0 in
          Times-trans g g' _ (before-Times hal e g h.0) (run-before-Times es g' h.1)

      run-after-Times :
          (es : List (Hal × Event F)) (g : Gps)
          → All is_between es
          → g.ttff_state ≡ true
          → Times g (run nyx max_svs conf reader read es g).0
      unfolding run
      run-after-Times [] g h on = ground arith
      run-after-Times ((hal, e) ∷ es) g h on =
          let g' = (step nyx max_svs conf reader read hal e g).0 in
          let t = after-Times hal e g h.0 on in
          Times-trans g g' _ t (run-after-Times es g' h.1 (t.state ∙ on))

      -- The session starts at the time of the request.
      start-time :
          (hal : Hal) (q : PositionRequest F) (g : Gps)
          → q.request_type ≡ position_cmd
          → g.enabled ≡ true
          → g.location_updates_on ≡ false
          → g.ttff_state ≡ false
          → let g' = (process_request nyx conf reader read hal q g).0 in
            (g'.fix_request_time ≡ hal.now) × (g'.ttff_state ≡ false)
      unfolding process_request serve request_position start_timer
      start-time hal q g h on off state =
          let g0 = record g { fix_request_time = hal.now } in
          rw h (ground (arith, request_start-Turned {F = F} nyx hal g0))

      -- The events of a session: the request, what happens before the first fix, the fix, the rest.
      abbrev pub session :
          Hal → PositionRequest F → List (Hal × Event F) → Hal → List (Hal × Event F) → Gps → Gps
      session start q before fix after g =
          let g1 = (process_request nyx conf reader read start q g).0 in
          let g2 = (run nyx max_svs conf reader read before g1).0 in
          let g3 = (gps_location_cb {F = F} fix g2).0 in
          (run nyx max_svs conf reader read after g3).0

      -- A session that is requested with the measurement armed (`mTTFFState` false), of an enabled
      -- provider that reports no positions yet, has the time from the request to the first fix as
      -- its getTimeToFirstFix, if the fix is later than the request: whatever other requests and
      -- callbacks come before that fix and after it, further fixes included, but no request for a
      -- position and no stop of it.
      pub session-ttff :
          (start fix : Hal) (q : PositionRequest F) (before after : List (Hal × Event F)) (g : Gps)
          → q.request_type ≡ position_cmd
          → g.enabled ≡ true
          → g.location_updates_on ≡ false
          → g.ttff_state ≡ false
          → start.now < fix.now
          → All is_before before
          → All is_between after
          → (get_time_to_first_fix_value (session start q before fix after g)).1
            ≡ fix.now - start.now
      session-ttff start fix q before after g is on off armed later b a =
          let g1 = (process_request nyx conf reader read start q g).0 in
          let g2 = (run nyx max_svs conf reader read before g1).0 in
          let g3 = (gps_location_cb {F = F} fix g2).0 in
          let (asked, idle) = start-time start q g is on off armed in
          let t = run-before-Times before g1 b in
          let (latched, state, kept) = first_fix F fix g2 (t.state ∙ idle) in
          let u = run-after-Times after g3 a state in
          measured _ start.now fix.now (u.requested ∙ kept ∙ t.requested ∙ asked)
            (u.fixed ∙ latched) later
