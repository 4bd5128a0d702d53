-- ===== src/MapServices.antt =====
-- Geocoding: src/handler/lbs/geoservices, src/utils/NetworkRequestManager.cpp, and getReverseLocation,
-- getGeoCodeLocation and geocodingReply of src/lunaIpc/LocationService.cpp.
pub mod Wsp
pub mod Features
pub mod Query
pub mod Manager
pub mod Geocode
pub mod Answered
mod Tests
