-- ===== src/Network/Backend/Tests.antt =====
-- The theorems on the address of the geolocation server at a concrete template and key.
use com_webos_service_locati.Base.{
  ℕ, ◌<◌, ◌≡◌, refl, true, Option, some, List, length, codes, arith,
}
use com_webos_service_locati.Network.Backend.{
  build_geolocate_url, text, find_slot, skip_spaces, drop_spaces, all_key_chars, is_key_char,
  is_space, copy_out, fill_slot, build,
}
use com_webos_service_locati.Network.Backend.Url.{
  Renders, build_geolocate_url_sound, build_geolocate_url_complete,
}

abbrev template : List ℕ
template = codes "t?k=%s"

abbrev api_key : Option (List ℕ)
api_key = some (codes " aB-1\n")

abbrev url : List ℕ
url = codes "t?k=aB-1"

written : build_geolocate_url (some template) api_key (some 9) ≡ (true, text url)
unfolding build_geolocate_url build fill_slot copy_out all_key_chars drop_spaces skip_spaces
    find_slot is_key_char is_space
written = refl

build_geolocate_url_sound_example : (length url < 9) × Renders template api_key url
build_geolocate_url_sound_example = build_geolocate_url_sound template api_key 9 url written

rendered : Renders template api_key url
rendered = (build_geolocate_url_sound template api_key 9 url written).1

build_geolocate_url_complete_example :
    build_geolocate_url (some template) api_key (some 9) ≡ (true, text url)
build_geolocate_url_complete_example =
    build_geolocate_url_complete template api_key 9 url (omega arith) rendered
