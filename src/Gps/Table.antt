-- ===== src/Gps/Table.antt =====
-- The clients of the GPS provider as a table, without the engine: the specification of the requests
-- of GPSPositionProvider.cpp.
use com_webos_service_locati.Base.{◌∷◌, [], Bool, true, false, ◌||◌, List}
use com_webos_service_locati.Commands.{
  HandlerRequestType, position_cmd, nmea_cmd, satelitte_cmd, stop_position_cmd, stop_nmea_cmd,
  stop_satelitte_cmd, stop_gps_cmd,
}
use com_webos_service_locati.Gps.{Gps, Hal}
use com_webos_service_locati.Gps.Events.{Event, request}

-- Who waits for what, without the engine.
pub record Clients : Type 0 where
  pub locations : Bool
  pub nmeas : Bool
  pub satellites : Bool

-- Some client waits.
abbrev pub any_client : Clients → Bool
any_client c = c.locations || c.nmeas || c.satellites

abbrev pub clients_of : Gps → Clients
clients_of g = record {
  locations = g.location_updates_on;
  nmeas = g.nmea_get_data_on;
  satellites = g.satellite_get_data_on;
}

-- What a request means to the clients.
abbrev pub admit : HandlerRequestType → Clients → Clients
admit position_cmd c = record c { locations = true }
admit nmea_cmd c = record c { nmeas = true }
admit satelitte_cmd c = record c { satellites = true }
admit stop_position_cmd c = record c { locations = false }
admit stop_nmea_cmd c = record c { nmeas = false }
admit stop_satelitte_cmd c = record c { satellites = false }
admit stop_gps_cmd c = record { locations = false; nmeas = false; satellites = false }
admit _ c = c

-- What an event means to the clients.
abbrev pub attend : {F : Type 0} → Event F → Clients → Clients
attend (request q) c = admit q.request_type c
attend _ c = c

abbrev pub attend_all : {F : Type 0} → List (Hal × Event F) → Clients → Clients
attend_all [] c = c
attend_all ((hal, e) ∷ es) c = attend_all es (attend e c)
