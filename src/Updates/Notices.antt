-- ===== src/Updates/Notices.antt =====
-- What reaches the clients of getLocationUpdates from the handlers, from a timer and from the bus:
-- getLocationUpdateCb, getLocationUpdate_reply, sendPositionData, replyErrorToGpsNwReq,
-- _TimerCallbackLocationUpdate and cancelSubscription (src/lunaIpc/LocationService.cpp). Memory
-- is not modelled, so the JSON object is always there.
use com_webos_service_locati.Base.{
  ℕ, Bool, true, false, ◌&&◌, Option, none, some, List, [], ◌++◌, if◌then◌else◌,
}
use com_webos_service_locati.Base.Int.{ℤ, pos, eq_ℤ}
use com_webos_service_locati.Bus.{
  Key, gps_updates, nw_updates, hybrid_updates, passive_updates, Subscriptions,
}
use com_webos_service_locati.Errors.{
  ErrorCode, error_none, error_timeout, error_network_error, time_out, unknown_error,
  data_connection_off,
}
use com_webos_service_locati.Updates.Criteria.{Position, Accuracy, Geometry}
use com_webos_service_locati.Updates.Replies.{ls_sub_non_sub_reply_loc_update_case}
use com_webos_service_locati.Updates.Service.{
  Messages, Payload, located, failed, empty, Effect, Service,
}
use com_webos_service_locati.Wake.{Call}

pub data HandlerTypes : Type 0 where
  handler_network handler_gps handler_lbs handler_hybrid : HandlerTypes

abbrev pub is_gps : HandlerTypes → Bool
is_gps handler_gps = true
is_gps _ = false

-- PositionData: what sendPositionData sends when the main loop is idle.
pub record PositionData (F : Type 0) : Type 0 where
  pub posdata : Position F × Accuracy F
  pub key1 : Key
  pub key2 : Key
  pub ret_string1 : Payload F
  pub ret_string2 : Payload F

module _ {F : Type 0} where
  -- location_util_add_pos_json: a cached position is given the time of the reply.
  abbrev pub add_pos_json : ℤ → Option (Position F × Accuracy F) → Option (Position F × Accuracy F)
  add_pos_json now none = none
  add_pos_json now (some (p, a)) =
      some (if eq_ℤ p.timestamp (pos 0) then record p { timestamp = now } else p, a)

  -- The replies, and the object that passive subscribers are sent.
  abbrev pub ret_string : ℤ → Option (Position F × Accuracy F) → ErrorCode → Payload F
  ret_string now p error_none = located (add_pos_json now p)
  ret_string now p error_timeout = failed time_out
  ret_string now p error_network_error = failed data_connection_off
  ret_string now p _ = failed unknown_error

  abbrev pub service_object : ℤ → Option (Position F × Accuracy F) → ErrorCode → Payload F
  service_object now p error_none = located (add_pos_json now p)
  service_object now p _ = empty

  abbrev pub posdata_or :
      Position F × Accuracy F → Option (Position F × Accuracy F) → Position F × Accuracy F
  posdata_or zeros none = zeros
  posdata_or zeros (some p) = p

module _ {F : Type 0} (subs : Subscriptions) (msgs : Messages) (accepts : Call → Bool)
    (geo : Geometry F) (clock : ℕ → ℤ) where
  abbrev pub respond :
      Option (Position F × Accuracy F)
      → Key
      → Payload F
      → Service F subs.Lists
      → Service F subs.Lists × List (Effect F)
  respond = ls_sub_non_sub_reply_loc_update_case subs msgs accepts geo clock

  -- The two keys of a handler, then the passive subscribers.
  unfoldable pub respond_all :
      Option (Position F × Accuracy F)
      → Key
      → Key
      → Payload F
      → Payload F
      → Service F subs.Lists
      → Service F subs.Lists × List (Effect F)
  respond_all p key1 key2 text passive s =
      let (s1, es1) = respond p key1 text s in
      let (s2, es2) = respond p key2 text s1 in
      let (s3, es3) = respond p passive_updates passive s2 in (s3, es1 ++ es2 ++ es3)

  unfoldable pub send_position_data :
      PositionData F → Service F subs.Lists → Service F subs.Lists × List (Effect F)
  send_position_data d s = respond_all (some d.posdata) d.key1 d.key2 d.ret_string1 d.ret_string2 s

  -- A position of the GPS handler waits until the main loop is idle; `zeros` is `g_slice_new0`.
  abbrev pub reply_by :
      Bool
      → Position F × Accuracy F
      → ℤ
      → Option (Position F × Accuracy F)
      → ErrorCode
      → Service F subs.Lists
      → Service F subs.Lists × List (Effect F) × Option (PositionData F)
  reply_by true zeros now p error s = (
    s,
    [],
    some (record {
      posdata = posdata_or zeros p;
      key1 = gps_updates;
      key2 = hybrid_updates;
      ret_string1 = ret_string now p error;
      ret_string2 = service_object now p error;
    }),
  )
  reply_by false zeros now p error s =
      let (s', es) =
        respond_all p nw_updates hybrid_updates (ret_string now p error)
          (service_object now p error) s in
      (s', es, none)

  unfoldable pub get_location_update_reply :
      Position F × Accuracy F
      → ℤ
      → Option (Position F × Accuracy F)
      → ErrorCode
      → HandlerTypes
      → Service F subs.Lists
      → Service F subs.Lists × List (Effect F) × Option (PositionData F)
  get_location_update_reply zeros now p error type s = reply_by (is_gps type) zeros now p error s

  is_network_error : ErrorCode → Bool
  is_network_error error_network_error = true
  is_network_error _ = false

  is_network : HandlerTypes → Bool
  is_network handler_network = true
  is_network _ = false

  -- A network error is dropped while there is a connection (`connected`).
  unfoldable pub get_location_update_cb :
      Bool
      → Position F × Accuracy F
      → ℤ
      → Position F × Accuracy F
      → ErrorCode
      → HandlerTypes
      → Service F subs.Lists
      → Service F subs.Lists × List (Effect F) × Option (PositionData F)
  unfolding is_network_error is_network
  get_location_update_cb connected zeros now location error type s =
      if is_network_error error && connected
      then (s, [], none)
      else (if is_network type && is_network_error error
          then get_location_update_reply zeros now none error type s
          else get_location_update_reply zeros now (some location) error type s)
