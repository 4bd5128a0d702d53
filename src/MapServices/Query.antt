-- ===== src/MapServices/Query.antt =====
-- What is asked of the map services: getReverseGeocodeData and getGeocodeData of
-- src/lunaIpc/LocationService.cpp, and MapServicesImpl::formatUrl. A text is the list of its bytes.
-- `F` is `double` and `shown` is std::to_string; `decode` is g_base64_decode, and `signs` says whether
-- the signature, which is not used, could be made.
use com_webos_service_locati.Base.{
  ℕ, Bool, true, false, Option, none, some, List, [], ◌∷◌, ◌++◌, map, codes, ◌==◌, if◌then◌else◌,
}
use com_webos_service_locati.Gps.Extra.{starts_with}

pub record ReverseRequest (F : Type 0) : Type 0 where
  pub latitude : Option F
  pub longitude : Option F
  pub language : Option (List ℕ)
  pub result_type : Option (List (List ℕ))
  pub location_type : Option (List (List ℕ))

pub record Components : Type 0 where
  pub route : Option (List ℕ)
  pub locality : Option (List ℕ)
  pub administrative_area : Option (List ℕ)
  pub postal_code : Option (List ℕ)
  pub country : Option (List ℕ)

pub record Bounds (F : Type 0) : Type 0 where
  pub southwest_lat : F
  pub southwest_lon : F
  pub northeast_lat : F
  pub northeast_lon : F

pub record GeocodeRequest (F : Type 0) : Type 0 where
  pub address : Option (List ℕ)
  pub components : Option Components
  pub bounds : Option (Bounds F)
  pub address_language : Option (List ℕ)
  pub region : Option (List ℕ)

-- A member that is there, behind its name.
pub member : List ℕ → Option (List ℕ) → List ℕ
member name none = []
member name (some text) = name ++ text

pub joined : List (List ℕ) → List ℕ
joined [] = []
joined (x ∷ []) = x
joined (x ∷ y ∷ ys) = x ++ (codes "|" ++ joined (y ∷ ys))

pub list_member : List ℕ → Option (List (List ℕ)) → List ℕ
list_member name none = []
list_member name (some texts) = name ++ joined texts

pub shown_or : {F : Type 0} → (F → List ℕ) → Option F → List ℕ
shown_or shown none = []
shown_or shown (some x) = shown x

pub get_reverse_geocode_data : {F : Type 0} → (F → List ℕ) → ReverseRequest F → List ℕ
get_reverse_geocode_data shown r =
    codes "latlng="
    ++ (shown_or shown r.latitude
        ++ (codes ","
            ++ (shown_or shown r.longitude
                ++ (member (codes "&language=") r.language
                    ++ (list_member (codes "&result_type=") r.result_type
                        ++ list_member (codes "&location_type=") r.location_type)))))

-- `std::replace(..., ' ', '+')`
pub plus_for_space : ℕ → ℕ
plus_for_space c = if c == 32 then b'+' else c

pub component_texts : Components → List ℕ
component_texts c =
    member (codes "route:") c.route
    ++ (member (codes "|locality:") c.locality
        ++ (member (codes "|administrative_area:") c.administrative_area
            ++ (member (codes "|postal_code:") c.postal_code
                ++ member (codes "|country:") c.country)))

pub component_data : Option (List ℕ) → Option Components → List ℕ
component_data address none = []
component_data none (some c) = codes "components=" ++ component_texts c
component_data (some a) (some c) = codes "&components=" ++ component_texts c

pub bounds_data : {F : Type 0} → (F → List ℕ) → Option (Bounds F) → List ℕ
bounds_data shown none = []
bounds_data shown (some b) =
    codes "&bounds="
    ++ (shown b.southwest_lat
        ++ (codes ","
            ++ (shown b.southwest_lon
                ++ (codes "|" ++ (shown b.northeast_lat ++ (codes "," ++ shown b.northeast_lon))))))

pub get_geocode_data : {F : Type 0} → (F → List ℕ) → GeocodeRequest F → List ℕ
get_geocode_data shown r =
    component_data r.address r.components
    ++ (bounds_data shown r.bounds
        ++ (member (codes "&language=") r.address_language ++ member (codes "&region=") r.region))

-- The text of getGeoCodeLocation: with neither an address nor components there is none.
unfoldable pub address_data : {F : Type 0} → (F → List ℕ) → GeocodeRequest F → Option (List ℕ)
address_data shown r = elim r.address [
  | some a ↦ some (codes "address=" ++ (map plus_for_space a ++ get_geocode_data shown r))
  | none ↦ elim r.components [ none ↦ none | some c ↦ some (get_geocode_data shown r) ]
]

-- `url.find(".com/") != npos`
pub has_path : List ℕ → Bool
has_path [] = false
has_path (c ∷ cs) = if starts_with (codes ".com/") (c ∷ cs) then true else has_path cs

pub with_key : Bool → List ℕ → List ℕ → List ℕ → List ℕ
with_key signs geo url [] = []
with_key false geo url (k ∷ ks) = []
with_key true geo url (k ∷ ks) = url ++ (geo ++ (codes "&key=" ++ (k ∷ ks)))

-- The empty text stands for a failure. An empty url has no path.
pub format_url : (List ℕ → List ℕ) → Bool → List ℕ → List ℕ → List ℕ → List ℕ
format_url decode signs geo url key =
    if has_path url then with_key signs geo url (decode key) else []
