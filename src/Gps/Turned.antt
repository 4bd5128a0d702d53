-- ===== src/Gps/Turned.antt =====
-- Starting and stopping the engine, and what the GNSS library was told (GPSPositionProvider.cpp).
use com_webos_service_locati.Base.{false, true, ◌≡◌, refl, Bool, not, List, [], ◌∷◌, ◌++◌, arith}
use com_webos_service_locati.Gps.{Nyx, Conf, Gps, Hal, Effect}
use com_webos_service_locati.Gps.Engine.{
  inject_system_time, handle_gps_enable, handle_gps_disable, set_pos_mode_with_capability,
}
use com_webos_service_locati.Gps.Requests.{request_gps_engine_start, is_none}
use com_webos_service_locati.Gps.Quiet.{hears, turn}

pub hears-append :
    {F : Type 0} (hal : Hal) (b : Bool) (xs ys : List (Effect F))
    → hears hal b (xs ++ ys) ≡ hears hal (hears hal b xs) ys
hears-append hal b [] ys = refl
hears-append hal b (x ∷ xs) ys = hears-append hal (turn hal b x) xs ys

-- What turning the engine on or off keeps, and what it changes.
pub record Turned {F : Type 0} (hal : Hal) (g g' : Gps) (effects : List (Effect F)) : Type 0 where
  pub locations : g'.location_updates_on ≡ g.location_updates_on
  pub nmeas : g'.nmea_get_data_on ≡ g.nmea_get_data_on
  pub satellites : g'.satellite_get_data_on ≡ g.satellite_get_data_on
  pub timer : g'.pos_timer ≡ g.pos_timer
  pub requested : g'.fix_request_time ≡ g.fix_request_time
  pub fixed : g'.last_fix_time ≡ g.last_fix_time
  pub state : g'.ttff_state ≡ g.ttff_state
  pub ttff : g'.ttff ≡ g.ttff
  pub on : g'.enabled ≡ g.enabled
  pub told : g'.engine_started ≡ hears hal g.engine_started effects

module _ {F : Type 0} where
  injected-Turned :
      (hal : Hal) (g : Gps) → let r = inject_system_time {F = F} hal g in Turned hal g r.0 r.1
  unfolding inject_system_time
  injected-Turned hal g = ground arith

  pub enable-Turned :
      (hal : Hal) (g : Gps) → let r = handle_gps_enable {F = F} hal g in Turned hal g r.0 r.2
  unfolding handle_gps_enable inject_system_time
  enable-Turned hal g = ground arith

  pub request_start-Turned :
      (nyx : Nyx) (hal : Hal) (g : Gps)
      → let r = request_gps_engine_start {F = F} nyx hal g in Turned hal g r.0 r.2
  unfolding request_gps_engine_start set_pos_mode_with_capability
  request_start-Turned nyx hal g = ground (arith, enable-Turned hal g)

  pub disable-Turned :
      (nyx : Nyx) (conf : Conf) (hal : Hal) (g : Gps)
      → let r = handle_gps_disable {F = F} nyx conf hal g in Turned hal g r.0 r.2
  unfolding handle_gps_disable set_pos_mode_with_capability
  disable-Turned nyx conf hal g = ground arith

pub enable-started :
    (F : Type 0) (hal : Hal) (g : Gps)
    → let r = handle_gps_enable {F = F} hal g in r.1 ≡ r.0.engine_started
unfolding handle_gps_enable inject_system_time
enable-started F hal g = ground arith

pub request_start-started :
    (F : Type 0) (nyx : Nyx) (hal : Hal) (g : Gps)
    → let r = request_gps_engine_start {F = F} nyx hal g in is_none r.1 ≡ r.0.engine_started
unfolding request_gps_engine_start
request_start-started F nyx hal g = ground (arith, enable-started F hal g)

pub disable-stopped :
    (F : Type 0) (nyx : Nyx) (conf : Conf) (hal : Hal) (g : Gps)
    → let r = handle_gps_disable {F = F} nyx conf hal g in r.1 ≡ not r.0.engine_started
unfolding handle_gps_disable
disable-stopped F nyx conf hal g = ground arith

pub request_start-obeyed :
    (F : Type 0) (nyx : Nyx) (hal : Hal) (g : Gps)
    → hal.starts ≡ true
    → (request_gps_engine_start {F = F} nyx hal g).0.engine_started ≡ true
unfolding request_gps_engine_start handle_gps_enable inject_system_time
request_start-obeyed F nyx hal g h = ground arith

pub disable-obeyed :
    (F : Type 0) (nyx : Nyx) (conf : Conf) (hal : Hal) (g : Gps)
    → hal.stops ≡ true
    → (handle_gps_disable {F = F} nyx conf hal g).0.engine_started ≡ false
unfolding handle_gps_disable
disable-obeyed F nyx conf hal g h = ground arith
