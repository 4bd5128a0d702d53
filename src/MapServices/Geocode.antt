-- ===== src/MapServices/Geocode.antt =====
-- The geocoding requests and their replies: getReverseLocation, getGeoCodeLocation, geocodingCb and
-- geocodingReply of src/lunaIpc/LocationService.cpp, over MapServicesImpl.cpp. Allocation does not
-- fail. A message is a number.
use com_webos_service_locati.Base.{
  ℕ, Bool, not, Option, none, some, List, [], ◌∷◌, ◌++◌, map, codes, if◌then◌else◌,
}
use com_webos_service_locati.Errors.{
  ErrorCode, error_none, error_not_implemented, error_not_available, error_network_error,
  error_license_key_invalid, LocationError, success, time_out, unknown_error, data_connection_off,
  invalid_input,
}
use com_webos_service_locati.MapServices.Manager.{
  Manager, Http, HttpEffect, Client, map_services, network_provider, initiate_transaction,
  clear_transaction, client_of,
}
use com_webos_service_locati.MapServices.Query.{
  ReverseRequest, GeocodeRequest, get_reverse_geocode_data, address_data, format_url,
}
use com_webos_service_locati.MapServices.Wsp.{
  Root, WspConf, FeatureType, geo_code, reverse_geocode, is_supported, is_empty, get_url,
  read_wsp_configuration,
}

pub record Geocoding : Type 0 where
  pub manager : Manager
  pub conf_file : Option WspConf
  pub internet : Bool

pub data Reply : Type 0 where
  error_reply custom_error : LocationError → Reply
  response : List ℕ → Reply
  -- LSMessageReply with a null payload.
  no_payload : Reply

pub data Effect : Type 0 where
  reply : ℕ → Reply → Effect
  ref_message unref_message : ℕ → Effect
  -- The address that is given to initiateTransaction.
  query : List ℕ → Effect
  http : HttpEffect → Effect
  -- handleResponse of the network position provider, which clears the task.
  network_response : ℕ → Effect
  -- std::string of a null pointer.
  throws : Effect

-- The outer code: the texts of numbers and of keys, whether a signature is made, and what the JSON
-- parser accepts.
pub record Outside (F : Type 0) : Type 0 where
  pub shown : F → List ℕ
  pub decode : List ℕ → List ℕ
  pub signs : Bool
  pub parses : List ℕ → Bool

-- What a request finds: whether the schema accepts it, the file, and the answers of loc-http.
pub record Found : Type 0 where
  pub valid : Bool
  pub root : Option Root
  pub answers : Http

pub data Method : Type 0 where
  geocode_method reverse_method other_method : Method

-- HttpReqTask, with the method of its message; the body is null or a text.
pub record HttpReqTask : Type 0 where
  pub task : ℕ
  pub message : ℕ
  pub method : Method
  pub succeeded : Bool
  pub response_data : Option (List ℕ)

-- lbsPostQuery
unfoldable pub lbs_post_query : Http → List ℕ → Manager → Manager × ErrorCode × List Effect
lbs_post_query h url n =
    let (n', e, es) = initiate_transaction h map_services n in (n', e, query url ∷ map http es)

-- geoCode and reverseGeoCode, which differ in the feature; the callback is never null.
unfoldable pub ask_services :
    {F : Type 0}
    → Outside F
    → FeatureType
    → Http
    → List ℕ
    → Option WspConf
    → Manager
    → Manager × ErrorCode × List Effect
ask_services o f h geo none n = (n, error_not_implemented, [])
ask_services o f h geo (some c) n =
    if not (is_supported f c)
    then (n, error_not_implemented, [])
    else if is_empty c.key
    then (n, error_license_key_invalid, [])
    else lbs_post_query h (format_url o.decode o.signs geo (codes (get_url f c)) (codes c.key)) n

-- What a handler makes of the answer.
unfoldable pub taken : ℕ → ErrorCode → List Effect
taken m error_none = ref_message m ∷ []
taken m e = reply m (error_reply unknown_error) ∷ []

unfoldable pub post :
    {F : Type 0} → Outside F → FeatureType → Http → ℕ → List ℕ → Geocoding → Geocoding × List Effect
post o f h m geo g =
    let (n, e, es) = ask_services o f h geo g.conf_file g.manager in
    (record g { manager = n }, es ++ taken m e)

-- What follows the configuration. `geo` is the text of the request, `none` where it lacks what it
-- needs.
unfoldable pub with_conf :
    {F : Type 0}
    → Outside F
    → FeatureType
    → Http
    → ℕ
    → Option (List ℕ)
    → Geocoding
    → LocationError
    → Geocoding × List Effect
with_conf o f h m geo g success =
    if not g.internet then (g, reply m (error_reply data_connection_off) ∷ []) else elim geo [
      | none ↦ (g, reply m (error_reply invalid_input) ∷ [])
      | some text ↦ post o f h m text g
    ]
with_conf o f h m geo g e = (g, reply m (error_reply e) ∷ [])

unfoldable pub request :
    {F : Type 0}
    → Outside F
    → FeatureType
    → Found
    → ℕ
    → Option (List ℕ)
    → Geocoding
    → Geocoding × List Effect
request o f found m geo g =
    if not found.valid
    then (g, reply m (custom_error invalid_input) ∷ [])
    else (let (conf, error) = read_wsp_configuration found.root g.conf_file in
        with_conf o f found.answers m geo (record g { conf_file = conf }) error)

unfoldable pub get_reverse_location :
    {F : Type 0} → Outside F → Found → ℕ → ReverseRequest F → Geocoding → Geocoding × List Effect
get_reverse_location o found m r g =
    request o reverse_geocode found m (some (get_reverse_geocode_data o.shown r)) g

unfoldable pub get_geo_code_location :
    {F : Type 0} → Outside F → Found → ℕ → GeocodeRequest F → Geocoding → Geocoding × List Effect
get_geo_code_location o found m r g = request o geo_code found m (address_data o.shown r) g

pub ret_string : {F : Type 0} → Outside F → Bool → List ℕ → ErrorCode → Reply
ret_string o internet text error_not_available = error_reply unknown_error
ret_string o internet text error_network_error =
    error_reply (if internet then time_out else data_connection_off)
ret_string o internet text error_none =
    if o.parses text then response text else error_reply unknown_error
ret_string o internet text e = no_payload

unfoldable pub geocoding_reply :
    {F : Type 0} → Outside F → Bool → List ℕ → ErrorCode → ℕ → List Effect
geocoding_reply o internet text e m = reply m (ret_string o internet text e) ∷ unref_message m ∷ []

-- The callback for the method of the message.
unfoldable pub call_back :
    {F : Type 0} → Outside F → Bool → Method → List ℕ → ErrorCode → ℕ → List Effect
call_back o internet other_method text e m = []
call_back o internet geocode_method text e m = geocoding_reply o internet text e m
call_back o internet reverse_method text e m = geocoding_reply o internet text e m

-- A body that is null ends the program, where a callback is given a text made of it.
unfoldable pub called : {F : Type 0} → Outside F → Bool → HttpReqTask → List Effect
called o internet t =
    if t.succeeded
    then elim t.response_data [
      | some text ↦ call_back o internet t.method text error_none t.message
      | none ↦ elim t.method [ other_method ↦ [] | _ ↦ throws ∷ [] ]
    ]
    else call_back o internet t.method (codes "HTTP Connection failed") error_network_error
        t.message

-- MapServicesImpl::handleResponse
unfoldable pub handle_response :
    {F : Type 0} → Outside F → HttpReqTask → Geocoding → Geocoding × List Effect
handle_response o t g =
    let (n, es) = clear_transaction t.task g.manager in
    (record g { manager = n }, map http es ++ called o g.internet t)

-- The client's part of handleDataCb.
unfoldable pub dispatch :
    {F : Type 0}
    → Outside F
    → HttpReqTask
    → Geocoding
    → Manager × Option Client
    → Geocoding × List Effect
dispatch o t g (n, some map_services) = handle_response o t (record g { manager = n })
dispatch o t g (n, some network_provider) = (record g { manager = n }, network_response t.task ∷ [])
dispatch o t g (n, none) =
    let (n', es) = clear_transaction t.task n in (record g { manager = n' }, map http es)

-- NetworkRequestManager::handleDataCb
unfoldable pub handle_data_cb :
    {F : Type 0} → Outside F → HttpReqTask → Geocoding → Geocoding × List Effect
handle_data_cb o t g = dispatch o t g (client_of t.task g.manager)
