-- ===== src/Network/Backend.antt =====
-- The geolocation server and the address that is asked:
-- src/handler/position/network/NetworkLocationBackend.cpp and its header. A C string is the list
-- of its bytes without the terminator; an output buffer is its size, if there is one.
pub mod Url
pub mod Names
mod Tests
use com_webos_service_locati.Base.{
  ℕ, ◌+◌, ◌≡◌, Bool, true, false, ◌&&◌, ◌||◌, Option, none, some, List, [], ◌∷◌, ◌++◌, length, leb,
  ltb, ◌==◌, if◌then◌else◌, codes,
}

pub data NetworkLocationBackend : Type 0 where
  google beacon_db : NetworkLocationBackend

-- `strcmp(a, b) == 0`
pub str_eq : List ℕ → List ℕ → Bool
str_eq [] [] = true
str_eq [] (c ∷ cs) = false
str_eq (c ∷ cs) [] = false
str_eq (c ∷ cs) (d ∷ ds) = c == d && str_eq cs ds

pub parse_network_location_backend : Option (List ℕ) → NetworkLocationBackend
unfolding str_eq
parse_network_location_backend none = beacon_db
parse_network_location_backend (some name) =
    if str_eq name (codes "google") then google else beacon_db

pub network_location_backend_name : NetworkLocationBackend → List ℕ
network_location_backend_name google = codes "google"
network_location_backend_name beacon_db = codes "beacondb"

abbrev pub google_geolocate_url : List ℕ
google_geolocate_url = codes "https://www.googleapis.com/geolocation/v1/geolocate?key=%s"

abbrev pub beacondb_geolocate_url : List ℕ
beacondb_geolocate_url = codes "https://api.beacondb.net/v1/geolocate"

pub network_location_backend_url : NetworkLocationBackend → List ℕ
network_location_backend_url google = google_geolocate_url
network_location_backend_url beacon_db = beacondb_geolocate_url

pub is_key_char : ℕ → Bool
is_key_char c =
    (leb b'A' c && leb c b'Z')
    || (leb b'a' c && leb c b'z')
    || (leb b'0' c && leb c b'9')
    || c == b'-'
    || c == b'_'

-- ' ', '\t', '\n', '\r'
pub is_space : ℕ → Bool
is_space c = c == 32 || c == 9 || c == 10 || c == 13

-- `strstr(s, "%s")`: what stands before the first occurrence and what stands behind it.
pub find_slot : List ℕ → Option (List ℕ × List ℕ)
find_slot [] = none
find_slot (c ∷ []) = none
find_slot (c ∷ d ∷ cs) =
    if c == b'%' && d == b's' then some ([], cs) else elim (find_slot (d ∷ cs)) [
      | none ↦ none
      | some (before, behind) ↦ some (c ∷ before, behind)
    ]

-- `while (keyStart < keyEnd && isSpace(*keyStart)) ++keyStart`
pub skip_spaces : List ℕ → List ℕ
skip_spaces [] = []
skip_spaces (c ∷ cs) = if is_space c then skip_spaces cs else c ∷ cs

-- `while (keyEnd > keyStart && isSpace(keyEnd[-1])) --keyEnd`, from the end of the key.
pub drop_spaces : List ℕ → List ℕ
drop_spaces [] = []
drop_spaces (c ∷ cs) = elim (drop_spaces cs) [
  | [] ↦ if is_space c then [] else c ∷ []
  | d ∷ ds ↦ c ∷ d ∷ ds
]

pub all_key_chars : List ℕ → Bool
all_key_chars [] = true
all_key_chars (c ∷ cs) = is_key_char c && all_key_chars cs

-- What the call leaves in the buffer: nothing written, or a C string.
pub data Written : Type 0 where
  untouched : Written
  text : List ℕ → Written

-- The copy of the finished address; `out[0]` is already the terminator.
copy_out : ℕ → List ℕ → Bool × Written
copy_out size url = if leb size (length url) then (false, text []) else (true, text url)

fill_slot : ℕ → List ℕ → List ℕ → List ℕ → Bool × Written
unfolding copy_out
fill_slot size before behind key =
    if length key == 0
    then (false, text [])
    else if all_key_chars key
    then copy_out size (before ++ (key ++ behind))
    else (false, text [])

build : ℕ → List ℕ → Option (List ℕ) → Bool × Written
unfolding copy_out fill_slot
build size template api_key = elim (find_slot template) [
  | none ↦ copy_out size template
  | some (before, behind) ↦ elim api_key [
    | none ↦ (false, text [])
    | some key ↦ fill_slot size before behind (drop_spaces (skip_spaces key))
  ]
]

-- `buildGeolocateUrl(urlTemplate, apiKey, out, outSize)`
pub build_geolocate_url : Option (List ℕ) → Option (List ℕ) → Option ℕ → Bool × Written
unfolding build
build_geolocate_url template api_key none = (false, untouched)
build_geolocate_url template api_key (some size) =
    if size == 0
    then (false, untouched)
    else elim template [ none ↦ (false, text []) | some t ↦ build size t api_key ]
