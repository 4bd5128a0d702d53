-- ===== src/Commands.antt =====
-- What the service asks of a position provider: include/HandlerRequestCommands.h.
pub data HandlerRequestType : Type 0 where
  unknown_cmd position_cmd gps_status_cmd nmea_cmd satelitte_cmd : HandlerRequestType
  set_gps_parameters_cmd send_gps_extra_cmd add_geofence_cmd : HandlerRequestType
  remove_geofence_cmd time_to_first_fix stop_position_cmd stop_nmea_cmd : HandlerRequestType
  stop_satelitte_cmd stop_gps_cmd : HandlerRequestType
