-- ===== src/MapServices/Tests.antt =====
-- The theorems on geocoding at a concrete run. The doubles are numbers.
use com_webos_service_locati.Base.{ℕ, ◌+◌, ◌≡◌, refl, true, none, some, [], ◌∷◌, map, codes}
use com_webos_service_locati.MapServices.Answered.{
  count, replies, refs, unrefs, waiting, tag, World, asks_geocode, responds, step, start, next,
}
use com_webos_service_locati.MapServices.Answered.Runs.{run-answered}
use com_webos_service_locati.MapServices.Features.{served, services_of, parse_file-serves}
use com_webos_service_locati.MapServices.Features.Urls.{last_url}
use com_webos_service_locati.MapServices.Geocode.{
  Geocoding, Outside, Found, HttpReqTask, geocode_method, get_geo_code_location, request, with_conf,
  post, ask_services, lbs_post_query, taken,
}
use com_webos_service_locati.MapServices.Manager.{initiate_transaction, put, find}
use com_webos_service_locati.MapServices.Query.{GeocodeRequest, address_data}
use com_webos_service_locati.MapServices.Wsp.{
  WspConf, geo_code, Root, insert, add_features, listed_features, add_service, add_services,
  feature_of, register_features, same_feature, name_at, is_supported, parse_services, parse_key,
  parse_file, read_wsp_configuration,
}

abbrev conf : Root
conf = record {
  wps_name = some "maps";
  api_key = some "k";
  services = some (
      some (
        record { service_url = some "https://a.com/x?"; features = some (some ("geocode" ∷ [])) }
        ∷ []));
}

abbrev outside : Outside ℕ
outside = record { shown = λ n. n ∷ []; decode = λ k. k; signs = true; parses = λ text. true }

abbrev found : Found
found = record {
  valid = true;
  root = some conf;
  answers = record { created = some 40; prepares = true; takes = true };
}

abbrev place : GeocodeRequest ℕ
place = record {
  address = some (codes "Main St");
  components = none;
  bounds = none;
  address_language = none;
  region = none;
}

abbrev body : HttpReqTask
body = record {
  task = 40;
  message = 7;
  method = geocode_method;
  succeeded = true;
  response_data = some (codes "{}");
}

abbrev idle : Geocoding
idle = record {
  manager = record { active = true; requests = [] };
  conf_file = none;
  internet = true;
}

abbrev first : World
first = record { geo = idle; held = []; asked = []; effects = [] }

abbrev sent : World
sent = step outside (asks_geocode found 7 place) first

abbrev finished : World
finished = step outside (responds body) sent

sent_waits : find 40 sent.held ≡ some 7
unfolding step get_geo_code_location request with_conf post ask_services lbs_post_query taken
    initiate_transaction put find address_data insert add_features listed_features add_service
    add_services feature_of register_features same_feature name_at is_supported parse_services
    parse_key parse_file read_wsp_configuration
sent_waits = refl

run-answered_example :
    (replies 7 finished.effects + waiting 7 finished.held ≡ count 7 finished.asked)
    × (refs 7 finished.effects ≡ unrefs 7 finished.effects + waiting 7 finished.held)
    × (finished.geo.manager.requests ≡ map tag finished.held)
unfolding find
run-answered_example = run-answered outside finished 7 (
    next (responds body) (next (asks_geocode found 7 place) (start idle refl) refl)
      (sent_waits, refl, refl))

abbrev parsed : WspConf
parsed = (parse_file (some conf)).1

parse_file-serves_example : served geo_code parsed ≡ last_url "geocode" (services_of conf) none
unfolding feature_of add_features add_service add_services insert listed_features parse_file
    parse_key parse_services register_features
parse_file-serves_example = parse_file-serves "geocode" geo_code conf parsed refl refl
