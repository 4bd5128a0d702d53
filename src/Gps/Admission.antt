-- ===== src/Gps/Admission.antt =====
-- The clients of the engine as a specification: what each request means, and that the engine runs
-- exactly while there is a client (GPSPositionProvider.cpp, GPSNyxInterface.cpp).
use com_webos_service_locati.Base.{
  refl, ap, ◌∙◌, ◌∷◌, [], ℕ, ◌≡◌, true, false, Option, List, if◌then◌else◌, arith,
}
use com_webos_service_locati.Commands.{
  HandlerRequestType, unknown_cmd, position_cmd, gps_status_cmd, nmea_cmd, satelitte_cmd,
  set_gps_parameters_cmd, send_gps_extra_cmd, add_geofence_cmd, remove_geofence_cmd,
  time_to_first_fix, stop_position_cmd, stop_nmea_cmd, stop_satelitte_cmd, stop_gps_cmd,
}
use com_webos_service_locati.Gps.{Nyx, Conf, Gps, Hal, PositionRequest, Effect}
use com_webos_service_locati.Gps.Engine.{Parameters}
use com_webos_service_locati.Gps.Quiet.{
  Unmoved, extra-Unmoved, parameters-Unmoved, time-Unmoved, xtra-Unmoved, status-Unmoved,
  sv-Unmoved, nmea-Unmoved, ntp-Unmoved,
}
use com_webos_service_locati.Gps.Turned.{
  disable-obeyed, request_start-obeyed, request_start-Turned, request_start-started, disable-Turned,
  disable-stopped,
}
use com_webos_service_locati.Gps.Extra.{Reader}
use com_webos_service_locati.Gps.Requests.{
  in_use, end_session, process_request, serve, request_position, request_nmea, request_satellites,
  start_timer, drop_timer, stop_unused, stop_position, stop_gps_request, gps_timeout_cb,
  get_time_to_first_fix_value,
}
use com_webos_service_locati.Gps.Callbacks.{
  gps_location_cb, gps_set_capabilities_cb, geofence_status_cb, xtra_data_injected,
}
use com_webos_service_locati.Gps.Table.{Clients, any_client, clients_of, admit, attend, attend_all}
use com_webos_service_locati.Gps.Events.{
  Event, request, timeout, asks_ttff, location, gps_status, sv_status, nmea, capabilities,
  geofence_is, wants_time, wants_xtra, ntp_ends, xtra_injected, step, run,
}

-- The GNSS library starts and stops its engine when it is told.
pub record Obeys (hal : Hal) : Type 0 where
  pub starting : hal.starts ≡ true
  pub stopping : hal.stops ≡ true

-- The engine runs exactly while a client waits.
abbrev pub IsExact : Gps → Type 0
IsExact g = g.engine_started ≡ in_use g

-- What an operation is to the clients.
record Follows (k : Clients → Clients) (g g' : Gps) : Type 0 where
  locations : g'.location_updates_on ≡ (k (clients_of g)).locations
  nmeas : g'.nmea_get_data_on ≡ (k (clients_of g)).nmeas
  satellites : g'.satellite_get_data_on ≡ (k (clients_of g)).satellites
  exact : IsExact g'
  on : g'.enabled ≡ g.enabled

-- The GNSS library obeys in each event.
abbrev pub AllObey : {F : Type 0} → List (Hal × Event F) → Type 0
AllObey [] = Unit
AllObey ((hal, e) ∷ es) = Obeys hal × AllObey es

Unmoved-Follows :
    {F : Type 0} (hal : Hal) (g g' : Gps) (effects : List (Effect F))
    → Unmoved hal g g' effects
    → IsExact g
    → Follows (λ c. c) g g'
Unmoved-Follows hal g g' effects u x = ground arith

module _ (F : Type 0) (nyx : Nyx) (conf : Conf) where
  position-Follows :
      (hal : Hal) (g : Gps)
      → Obeys hal
      → IsExact g
      → Follows (admit position_cmd) g (request_position {F = F} nyx hal g).0
  unfolding request_position start_timer
  position-Follows hal g o x =
      let g0 = if g.ttff_state then g else record g { fix_request_time = hal.now } in
      ground (
        arith,
        request_start-Turned {F = F} nyx hal g0,
        request_start-started F nyx hal g0,
        request_start-obeyed F nyx hal g0,
      )

  nmea-Follows :
      (hal : Hal) (g : Gps)
      → Obeys hal
      → IsExact g
      → Follows (admit nmea_cmd) g (request_nmea {F = F} nyx hal g).0
  unfolding request_nmea
  nmea-Follows hal g o x = ground (
    arith,
    request_start-Turned {F = F} nyx hal g,
    request_start-started F nyx hal g,
    request_start-obeyed F nyx hal g,
  )

  satellites-Follows :
      (hal : Hal) (g : Gps)
      → Obeys hal
      → IsExact g
      → Follows (admit satelitte_cmd) g (request_satellites {F = F} nyx hal g).0
  unfolding request_satellites
  satellites-Follows hal g o x = ground (
    arith,
    request_start-Turned {F = F} nyx hal g,
    request_start-started F nyx hal g,
    request_start-obeyed F nyx hal g,
  )

  -- A client less, and the engine with the last one.
  unused-Follows :
      (hal : Hal) (g : Gps)
      → Obeys hal
      → (in_use g ≡ true → g.engine_started ≡ true)
      → Follows (λ c. c) g (stop_unused {F = F} nyx conf hal g).0
  unfolding stop_unused
  unused-Follows hal g o x =
      ground (arith, disable-Turned {F = F} nyx conf hal g, disable-obeyed F nyx conf hal g)

  stop_gps-Follows :
      (hal : Hal) (g : Gps)
      → Obeys hal
      → IsExact g
      → Follows (admit stop_gps_cmd) g (stop_gps_request {F = F} nyx conf hal g).0
  unfolding stop_gps_request drop_timer
  stop_gps-Follows hal g o x = ground (
    arith,
    disable-Turned {F = F} nyx conf hal g,
    disable-stopped F nyx conf hal g,
    disable-obeyed F nyx conf hal g,
  )

  stop_position-Follows :
      (hal : Hal) (g : Gps)
      → Obeys hal
      → IsExact g
      → Follows (admit stop_position_cmd) g (stop_position {F = F} nyx conf hal g).0
  unfolding stop_position drop_timer
  stop_position-Follows hal g o x =
      ground (arith, unused-Follows hal (end_session (drop_timer {F = F} g).0) o)

  module _ (reader : Reader F) (read : List ℕ → Option Parameters) where
    serve-Follows :
        (hal : Hal) (t : HandlerRequestType) (q : PositionRequest F) (g : Gps)
        → Obeys hal
        → IsExact g
        → Follows (admit t) g (serve nyx conf reader read hal t q g).0
    unfolding serve
    serve-Follows hal position_cmd q g o x = position-Follows hal g o x
    serve-Follows hal nmea_cmd q g o x = nmea-Follows hal g o x
    serve-Follows hal satelitte_cmd q g o x = satellites-Follows hal g o x
    serve-Follows hal set_gps_parameters_cmd q g o x =
        Unmoved-Follows hal g _ _
          (parameters-Unmoved {F = F} nyx conf hal (read q.request_params) g) x
    serve-Follows hal send_gps_extra_cmd q g o x =
        Unmoved-Follows hal g _ _ (extra-Unmoved reader hal q.request_params g) x
    serve-Follows hal add_geofence_cmd q g o x = ground arith
    serve-Follows hal remove_geofence_cmd q g o x = ground arith
    serve-Follows hal stop_gps_cmd q g o x = stop_gps-Follows hal g o x
    serve-Follows hal stop_nmea_cmd q g o x =
        ground (arith, unused-Follows hal (record g { nmea_get_data_on = false }) o)
    serve-Follows hal stop_satelitte_cmd q g o x =
        ground (arith, unused-Follows hal (record g { satellite_get_data_on = false }) o)
    serve-Follows hal stop_position_cmd q g o x = stop_position-Follows hal g o x
    serve-Follows hal unknown_cmd q g o x = ground arith
    serve-Follows hal gps_status_cmd q g o x = ground arith
    serve-Follows hal time_to_first_fix q g o x = ground arith

    request-Follows :
        (hal : Hal) (q : PositionRequest F) (g : Gps)
        → Obeys hal
        → IsExact g
        → g.enabled ≡ true
        → Follows (admit q.request_type) g (process_request nyx conf reader read hal q g).0
    unfolding process_request
    request-Follows hal q g o x on = ground (arith, serve-Follows hal q.request_type q g o x)

    module _ (max_svs : ℕ) where
      step-Follows :
          (hal : Hal) (e : Event F) (g : Gps)
          → Obeys hal
          → IsExact g
          → g.enabled ≡ true
          → Follows (attend e) g (step nyx max_svs conf reader read hal e g).0
      unfolding step gps_timeout_cb get_time_to_first_fix_value gps_location_cb
          gps_set_capabilities_cb geofence_status_cb xtra_data_injected
      step-Follows hal (request q) g o x on = request-Follows hal q g o x on
      step-Follows hal timeout g o x on = ground arith
      step-Follows hal asks_ttff g o x on = ground arith
      step-Follows hal location g o x on = ground arith
      step-Follows hal (gps_status value) g o x on =
          Unmoved-Follows hal g _ _ (status-Unmoved {F = F} hal value g) x
      step-Follows hal (sv_status sv) g o x on =
          Unmoved-Follows hal g _ _ (sv-Unmoved hal max_svs sv g) x
      step-Follows hal (nmea text) g o x on =
          Unmoved-Follows hal g _ _ (nmea-Unmoved {F = F} hal text g) x
      step-Follows hal (capabilities bits) g o x on = ground arith
      step-Follows hal (geofence_is status) g o x on = ground arith
      step-Follows hal wants_time g o x on =
          Unmoved-Follows hal g _ _ (time-Unmoved {F = F} hal g) x
      step-Follows hal wants_xtra g o x on =
          Unmoved-Follows hal g _ _ (xtra-Unmoved {F = F} hal g) x
      step-Follows hal (ntp_ends r) g o x on =
          Unmoved-Follows hal g _ _ (ntp-Unmoved {F = F} hal r g) x
      step-Follows hal xtra_injected g o x on = ground arith

      follow-clients :
          (e : Event F) (g g' : Gps)
          → Follows (attend e) g g'
          → clients_of g' ≡ attend e (clients_of g)
      follow-clients e g g' f = ground arith

      -- An enabled provider whose engine runs exactly while a client waits implements the table of
      -- clients, if the GNSS library starts and stops when it is told: after any events the three
      -- flags are what the requests mean one after the other, and the engine runs exactly while one
      -- of them is set.
      pub run-admits :
          (es : List (Hal × Event F)) (g : Gps)
          → AllObey es
          → IsExact g
          → g.enabled ≡ true
          → let g' = (run nyx max_svs conf reader read es g).0 in
            (clients_of g' ≡ attend_all es (clients_of g))
            × (g'.engine_started ≡ any_client (attend_all es (clients_of g)))
      unfolding run
      run-admits [] g o x on = (refl, x)
      run-admits ((hal, e) ∷ es) g o x on =
          let g' = (step nyx max_svs conf reader read hal e g).0 in
          let f = step-Follows hal e g o.0 x on in
          let (same, runs) = run-admits es g' o.1 f.exact (f.on ∙ on) in
          let c = ap (attend_all es) (follow-clients e g g' f) in (same ∙ c, runs ∙ ap any_client c)
