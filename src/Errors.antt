-- ===== src/Errors.antt =====
-- The error codes: include/location_errors.h (handlers) and include/ServiceAgent.h (replies).
use com_webos_service_locati.Base.{ℕ}

pub data ErrorCode : Type 0 where
  error_none error_not_implemented error_timeout error_network_error : ErrorCode
  error_not_applicable_to_this_handler error_not_available error_wrong_parameter : ErrorCode
  error_duplicate_request error_request_inprogress error_not_started : ErrorCode
  error_license_key_invalid error_mutlithread : ErrorCode

-- The value of the C enumerator.
abbrev pub error_value : ErrorCode → ℕ
error_value error_none = 0
error_value error_not_implemented = 1
error_value error_timeout = 2
error_value error_network_error = 3
error_value error_not_applicable_to_this_handler = 4
error_value error_not_available = 5
error_value error_wrong_parameter = 6
error_value error_duplicate_request = 7
error_value error_request_inprogress = 8
error_value error_not_started = 9
error_value error_license_key_invalid = 10
error_value error_mutlithread = 11

pub data LocationError : Type 0 where
  success time_out pos_not_available unknown_error gps_unavailable location_off : LocationError
  pending_req app_black_listed start_failure state_unknown invalid_input : LocationError
  data_connection_off wifi_connection_off out_of_mem too_many_geofence : LocationError
  geofence_id_exist geofence_id_unknown geofence_invalid_transition not_started : LocationError
  mock_disabled unknown_mock_provider wsp_conf_read_failed wsp_conf_name_missing : LocationError
  wsp_conf_apikey_missing wsp_conf_no_services wsp_conf_no_features : LocationError
  wsp_conf_url_missing gps_nyx_source_unavailable : LocationError

-- The error of the service that has the number of an error of a handler.
abbrev pub location_error_of : ErrorCode → LocationError
location_error_of error_none = success
location_error_of error_not_implemented = time_out
location_error_of error_timeout = pos_not_available
location_error_of error_network_error = unknown_error
location_error_of error_not_applicable_to_this_handler = gps_unavailable
location_error_of error_not_available = location_off
location_error_of error_wrong_parameter = pending_req
location_error_of error_duplicate_request = app_black_listed
location_error_of error_request_inprogress = start_failure
location_error_of error_not_started = state_unknown
location_error_of error_license_key_invalid = invalid_input
location_error_of error_mutlithread = data_connection_off
