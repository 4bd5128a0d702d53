-- ===== src/MapServices/Wsp.antt =====
-- The configuration of the map services: WSPConfigurationFileParser.cpp with its header. What is
-- read of the JSON file is an input: a member is there or not, and `asString` of it is a text. The
-- two maps are association lists; the order in which the second is filled does not matter.
use com_webos_service_locati.Base.{
  Bool, true, false, not, Option, none, some, String, List, [], ◌∷◌, if◌then◌else◌,
}
use text.Mathlib.Text.{◌==◌ as str_eq}
use com_webos_service_locati.Errors.{
  LocationError, success, wsp_conf_read_failed, wsp_conf_name_missing, wsp_conf_apikey_missing,
  wsp_conf_no_services, wsp_conf_no_features, wsp_conf_url_missing,
}

pub data WspConfStateCode : Type 0 where
  conf_success read_failed name_missing apikey_missing no_services no_features url_missing :
      WspConfStateCode

pub data FeatureType : Type 0 where
  no_feature_supported geo_code reverse_geocode search timezone distance max : FeatureType

-- A list that is there: `none` where it is no array.
abbrev pub Items : Type 0 → Type 0
Items A = Option (List A)

pub record ServiceEntry : Type 0 where
  pub service_url : Option String
  pub features : Option (Items String)

pub record Root : Type 0 where
  pub wps_name : Option String
  pub api_key : Option String
  pub services : Option (Items ServiceEntry)

-- mSupportedFeaturesKeyUrlMap and mSupportedFeatureList.
pub record WspConf : Type 0 where
  pub wsp_name : String
  pub key : String
  pub urls : List (String × String)
  pub supported : List (FeatureType × String)

abbrev pub empty_conf : WspConf
empty_conf = record { wsp_name = ""; key = ""; urls = []; supported = [] }

abbrev pub is_empty : String → Bool
is_empty s = str_eq s ""

unfoldable pub insert : String → String → List (String × String) → List (String × String)
insert k v [] = (k, v) ∷ []
insert k v ((j, w) ∷ m) = if str_eq j k then (k, v) ∷ m else (j, w) ∷ insert k v m

-- `map[key]`: the empty text where there is none.
unfoldable pub url_at : String → List (String × String) → String
url_at k [] = ""
url_at k ((j, w) ∷ m) = if str_eq j k then w else url_at k m

-- The features of one service.
unfoldable pub add_features :
    String → List String → List (String × String) → WspConfStateCode × List (String × String)
add_features url [] urls = (conf_success, urls)
add_features url (f ∷ fs) urls = elim (is_empty f) [
  | true ↦ (no_features, urls)
  | false ↦ add_features url fs (insert f url urls)
]

-- An array that is empty counts as none.
unfoldable pub listed_features :
    String
    → Option (Items String)
    → List (String × String)
    → WspConfStateCode × List (String × String)
listed_features url none urls = (no_features, urls)
listed_features url (some none) urls = (no_features, urls)
listed_features url (some (some [])) urls = (no_features, urls)
listed_features url (some (some (f ∷ fs))) urls = add_features url (f ∷ fs) urls

unfoldable pub add_service :
    ServiceEntry → List (String × String) → WspConfStateCode × List (String × String)
add_service s urls = elim s.service_url [
  | none ↦ (url_missing, urls)
  | some url ↦ if is_empty url then (url_missing, urls) else listed_features url s.features urls
]

unfoldable pub add_services :
    List ServiceEntry → List (String × String) → WspConfStateCode × List (String × String)
add_services [] urls = (conf_success, urls)
add_services (s ∷ ss) urls =
    let (code, urls') = add_service s urls in
    elim code [ conf_success ↦ add_services ss urls' | e ↦ (e, urls') ]

-- registerFeature for the names that are known.
unfoldable pub feature_of : String → Option FeatureType
feature_of name =
    if str_eq name "geocode"
    then some geo_code
    else if str_eq name "reverseGeocode"
    then some reverse_geocode
    else if str_eq name "search"
    then some search
    else if str_eq name "timezone"
    then some timezone
    else if str_eq name "distance"
    then some distance
    else none

unfoldable pub register_features : List (String × String) → List (FeatureType × String)
register_features [] = []
register_features ((name, url) ∷ m) =
    let rest = register_features m in
    elim (feature_of name) [ none ↦ rest | some f ↦ (f, name) ∷ rest ]

unfoldable pub same_feature : FeatureType → FeatureType → Bool
same_feature geo_code geo_code = true
same_feature reverse_geocode reverse_geocode = true
same_feature search search = true
same_feature timezone timezone = true
same_feature distance distance = true
same_feature no_feature_supported no_feature_supported = true
same_feature max max = true
same_feature _ _ = false

-- `mSupportedFeatureList[featureType]`
unfoldable pub name_at : FeatureType → List (FeatureType × String) → String
name_at f [] = ""
name_at f ((g, n) ∷ m) = if same_feature g f then n else name_at f m

unfoldable pub is_supported : FeatureType → WspConf → Bool
is_supported f c = not (is_empty (name_at f c.supported))

unfoldable pub get_url : FeatureType → WspConf → String
get_url f c = url_at (name_at f c.supported) c.urls

-- The steps of parseFile, each with what is set so far.
unfoldable pub parse_services : Option (Items ServiceEntry) → WspConf → WspConfStateCode × WspConf
parse_services none c = (no_services, c)
parse_services (some none) c = (no_services, c)
parse_services (some (some [])) c = (no_services, c)
parse_services (some (some (s ∷ ss))) c =
    let (code, urls) = add_services (s ∷ ss) c.urls in
    elim code [
      | conf_success ↦ (conf_success, record c { urls = urls; supported = register_features urls })
      | e ↦ (e, record c { urls = urls })
    ]

unfoldable pub parse_key : Root → WspConf → WspConfStateCode × WspConf
parse_key r c = elim r.api_key [
  | none ↦ (apikey_missing, c)
  | some k ↦
      if is_empty k
      then (apikey_missing, record c { key = k })
      else parse_services r.services (record c { key = k })
]

-- `none` where the file is not read or is no JSON.
unfoldable pub parse_file : Option Root → WspConfStateCode × WspConf
parse_file none = (read_failed, empty_conf)
parse_file (some r) = elim r.wps_name [
  | none ↦ (name_missing, empty_conf)
  | some n ↦
      if is_empty n
      then (name_missing, record empty_conf { wsp_name = n })
      else parse_key r (record empty_conf { wsp_name = n })
]

unfoldable pub wsp_error : WspConfStateCode → LocationError
wsp_error conf_success = success
wsp_error read_failed = wsp_conf_read_failed
wsp_error name_missing = wsp_conf_name_missing
wsp_error apikey_missing = wsp_conf_apikey_missing
wsp_error no_services = wsp_conf_no_services
wsp_error no_features = wsp_conf_no_features
wsp_error url_missing = wsp_conf_url_missing

-- readWSPConfiguration: `confFile` is kept where the file is parsed, and then not read again.
unfoldable pub read_wsp_configuration :
    Option Root → Option WspConf → Option WspConf × LocationError
read_wsp_configuration root (some c) = (some c, success)
read_wsp_configuration root none =
    let (code, c) = parse_file root in
    elim code [ conf_success ↦ (some c, success) | e ↦ (none, wsp_error e) ]
