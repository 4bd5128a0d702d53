-- ===== src/Network/Backend/Names.antt =====
-- The names of the geolocation servers (src/handler/position/network/NetworkLocationBackend.cpp).
use com_webos_service_locati.Base.{◌≡◌, refl, some}
use com_webos_service_locati.Network.Backend.{
  NetworkLocationBackend, google, beacon_db, str_eq, parse_network_location_backend,
  network_location_backend_name,
}

-- The name of a server is read as that server.
pub parse-name :
    (b : NetworkLocationBackend)
    → parse_network_location_backend (some (network_location_backend_name b)) ≡ b
unfolding parse_network_location_backend network_location_backend_name str_eq
parse-name google = refl
parse-name beacon_db = refl
