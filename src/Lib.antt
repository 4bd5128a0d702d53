-- ===== src/Lib.antt =====
-- com.webos.service.location: the location service of webOS, a luna-service2 service in C++ that
-- gives its clients positions from the GPS and from the network, watches geofences, and keeps the
-- device awake while a client waits. This library models the parts that decide what a client gets.
--
-- Parts and files (paths from the repository's root):
--   Updates: getLocationUpdates and getCachedPosition of src/lunaIpc/LocationService.cpp.
--   Table is m_locUpdate_req_table with removeTimer and LSMessageRemoveReqList; Criteria is
--   meetsCriteria; Service is the shared state with isListFilled, stopSubcription and
--   resumeGpsEngine; Replies is LSMessageReplyLocUpdateCase and LSSubNonSubReplyLocUpdateCase;
--   Notices is getLocationUpdateCb and what it calls; Cancel is _TimerCallbackLocationUpdate,
--   cancelSubscription and replyErrorToGpsNwReq; Requests is getLocationUpdates and enableHandlers;
--   Cached is getCachedPosition and comparePositionTimeStamps; State is setState, getState and
--   loadHandlerStatus, with luna-prefs as an interface; Status is getAllLocationHandlers,
--   getGpsStatus and getGpsStatusCb; Streams is getNmeaData, getGpsSatelliteData and the other
--   requests to the GPS provider, Streams.Events what happens to the NMEA data in any order while
--   no handler is turned on or off.
--   Geofence: addGeofenceArea, removeGeofenceArea, their replies and cancelSubscription of the same
--   file, with the table of ids and the tokens. Replies has pauseGeofence, resumeGeofence, their
--   replies and the breaches, Keys the keys of the subscribers.
--   MapServices: geocoding. Wsp is src/handler/lbs/geoservices/WSPConfigurationFileParser.cpp, Query
--   the text that is asked, Manager src/utils/NetworkRequestManager.cpp, and Geocode the two methods
--   of src/lunaIpc/LocationService.cpp with their replies over MapServicesImpl.cpp. Answered makes
--   them one step function; Features is a proof.
--   Wake: the wake lock of src/lunaIpc/LifeCycleMonitor.cpp, which Updates calls.
--   Network: src/handler/position/network. Backend is NetworkLocationBackend.cpp, Wifi and Cells
--   are parseWifiData and parseCellData, and Provider is NetworkPositionProvider.cpp with Requests
--   (processRequest), Replies (handleResponse), Notices (the callbacks) and Events, which makes
--   them one step function; Chosen is getNetworkProvider and setNetworkProvider of
--   src/lunaIpc/LocationService.cpp.
--   Gps: src/handler/position/gps/GPSPositionProvider.cpp with GPSNyxInterface.cpp. Engine has the
--   start and stop of the engine and its parameters, Extra the extra commands, Requests
--   processRequest, Callbacks what the engine tells, Events the step function of them; DataNetwork
--   is updateDataNetwork, Atl the thread of the data connection, Wan the mobile network of
--   GpsWanInterface.cpp in the same directory, which Atl is told of. Table is the specification of the
--   clients; Quiet, Turned, Clients, Admission, Sessions and Logs are proofs.
--   Connection: src/lunaIpc/ConnectionStateObserver.cpp with ConnmgrStatus.cpp and SleepdSignals.cpp.
--   Observer has the listeners and the callbacks; ToGps hands what it tells on to Gps.DataNetwork, as
--   include/LocationService.h does; Listeners and Replies are proofs. Network.Provider takes the
--   notices as its own events.
--   Ntp: src/handler/position/gps/NtpClient.cpp, whose callback is in Gps.Callbacks. Rounds has the
--   end of the loop over the servers, Stamps the seconds of the protocol.
--   Config: the configuration file of the GPS, src/handler/position/gps/gps_cfg.cpp.
--   Bus: the subscription lists of luna-service2 as an interface; Commands and Errors are the
--   enumerations of include/HandlerRequestCommands.h, include/location_errors.h and
--   include/ServiceAgent.h. Base has the shared helpers.
--
-- How the code is modelled. A handler is a function from the state, the message and the answers of
-- what lies outside (the bus, the clock, timers, luna-prefs, the HTTP client, the GNSS library) to
-- the new state and the effects in order: replies, requests to a provider, timers, calls. The
-- service calls the providers through processRequest, which is an effect in Updates and a function
-- in Network. The providers call back into LocationService through ILocationCallbacks: `report` in
-- Network, get_location_update_cb in Updates. `double` is a type with the tests that the code makes.
-- A message is a number, which stands for its pointer.
--
-- Bounds: the loop of addGeofenceArea makes 200 draws, as in the code, and is structural in the
-- draws that are left; the loop over the time servers runs on four rounds of fuel, enough for three
-- servers and the test that ends it; the digits of an id take its value as fuel, which is above their
-- number; all other loops go over lists. The seconds of the NTP protocol
-- and the parameters of nyx wrap around in 32 bits as in C. Integers do not overflow: the ids, time stamps
-- in milliseconds, sums of signals and counts that occur are small against their types.
--
-- Not modelled: XtraDownload.cpp and GPSServiceConfig.cpp of
-- src/handler/position/gps, and the set-up and the XTRA thread of its provider; src/utils but for
-- NetworkRequestManager.cpp: stores and value types; src/mock, C code for tests. Of
-- LocationService.cpp: the text of the NMEA and satellite data, mock locations and
-- getLocationHandlerDetails. Allocation does not fail, and logging and the parsing of JSON are left out.
pub mod Base
pub mod Commands
pub mod Bus
pub mod Config
pub mod Connection
pub mod Errors
pub mod Geofence
pub mod Gps
pub mod MapServices
pub mod Network
pub mod Ntp
pub mod Updates
pub mod Wake
