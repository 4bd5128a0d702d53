-- ===== src/Updates/Cancel.antt =====
-- How a request ends without a position: its responseTimeout passes, the client goes, or its
-- handler is turned off (src/lunaIpc/LocationService.cpp). The geofences of cancelSubscription are
-- in Geofence.
pub mod Timeout
use com_webos_service_locati.Base.{
  ℕ, Bool, true, false, ◌&&◌, not, none, some, List, [], ◌∷◌, ◌++◌, ◌==◌, if◌then◌else◌,
}
use com_webos_service_locati.Base.Int.{ℤ}
use com_webos_service_locati.Bus.{
  Key, nmea_data, satellite_data, gps_updates, nw_updates, hybrid_updates, Subscriptions,
}
use com_webos_service_locati.Errors.{time_out, location_off}
use com_webos_service_locati.Updates.Criteria.{Geometry}
use com_webos_service_locati.Updates.Notices.{
  HandlerTypes, handler_gps, handler_network, handler_hybrid, respond,
}
use com_webos_service_locati.Updates.Replies.{any, with_table}
use com_webos_service_locati.Updates.Service.{
  Messages, Payload, failed, Effect, reply, Service, release_lock, is_list_filled, stop_subcription,
  stop_non_subcription, get_loc_request_stop_subscription,
}
use com_webos_service_locati.Updates.Table.{ls_message_remove_req_list}
use com_webos_service_locati.Wake.{Call}

module _ {F : Type 0} (subs : Subscriptions) (msgs : Messages) (accepts : Call → Bool) where
  -- The loop of _TimerCallbackLocationUpdate over the list of the key: the message is removed
  -- each time that it is met.
  unfoldable pub remove_met :
      ℕ → Key → List ℕ → Service F subs.Lists → Service F subs.Lists × List (Effect F)
  remove_met m k [] s = (s, [])
  remove_met m k (n ∷ ns) s =
      if n == m
      then (let removed = record s { lists = subs.remove s.lists k m } in
          let (unlocked, ws) = release_lock accepts (msgs.has_wakeup m) removed in
          let (s', es) =
            with_table subs msgs accepts unlocked (ls_message_remove_req_list m unlocked.table) in
          let (s'', fs) = remove_met m k ns s' in (s'', ws ++ es ++ fs))
      else remove_met m k ns s

  unfoldable pub timer_callback_location_update :
      ℕ → Key → Service F subs.Lists → Service F subs.Lists × List (Effect F)
  timer_callback_location_update m k s =
      let (s', es) =
        if subs.acquires s.lists k then remove_met m k (subs.messages s.lists k) s else (s, []) in
      (
        s',
        reply m (failed time_out) ∷ es ++ get_loc_request_stop_subscription subs s'.lists (some m),
      )

  -- cancelSubscription for getLocationUpdates. The bus takes the message off its list afterwards.
  unfoldable pub cancel_location_updates :
      ℕ → Service F subs.Lists → Service F subs.Lists × List (Effect F)
  cancel_location_updates m s =
      let (unlocked, ws) = release_lock accepts (msgs.has_wakeup m) s in
      let (s', es) =
        with_table subs msgs accepts unlocked (ls_message_remove_req_list m unlocked.table) in
      (s', ws ++ get_loc_request_stop_subscription subs unlocked.lists (some m) ++ es)

  -- cancelSubscription for the other keys.
  unfoldable pub cancel_other : ℕ → Key → Service F subs.Lists → List (Effect F)
  cancel_other m k s =
      if is_list_filled subs s.lists (some m) k true then [] else stop_subcription k

  -- LSSubscriptionNonSubscriptionReply, for NMEA and satellite data.
  unfoldable pub reply_messages :
      List ℕ → Key → Payload F → Service F subs.Lists → Service F subs.Lists × List (Effect F)
  reply_messages [] k p s = (s, [])
  reply_messages (m ∷ ms) k p s =
      let s1 = if msgs.is_subscription m then s else record s { lists = subs.remove s.lists k m } in
      let (s2, es) = reply_messages ms k p s1 in (s2, reply m p ∷ es)

  unfoldable pub ls_subscription_non_subscription_reply :
      Key → Payload F → Service F subs.Lists → Service F subs.Lists × List (Effect F)
  ls_subscription_non_subscription_reply k p s =
      if subs.acquires s.lists k
      then (let ms = subs.messages s.lists k in
          let (s', es) = reply_messages ms k p s in
          (
            s',
            es
                ++ (if any (λ m. not (msgs.is_subscription m)) ms
                      && not (is_list_filled subs s'.lists none k false)
                    then stop_non_subcription k
                    else []),
          ))
      else (s, [])

  abbrev pub if_filled :
      Key
      → (Service F subs.Lists → Service F subs.Lists × List (Effect F))
      → Service F subs.Lists
      → Service F subs.Lists × List (Effect F)
  if_filled k f s = if is_list_filled subs s.lists none k false then f s else (s, [])

  -- replyErrorToGpsNwReq
  module _ (geo : Geometry F) (clock : ℕ → ℤ) where
    unfoldable pub reply_error_to_gps_nw_req :
        HandlerTypes → Service F subs.Lists → Service F subs.Lists × List (Effect F)
    reply_error_to_gps_nw_req handler_gps s =
        let off = failed location_off in
        let (s1, es1) =
          if_filled nmea_data (ls_subscription_non_subscription_reply nmea_data off) s in
        let (s2, es2) =
          if_filled satellite_data (ls_subscription_non_subscription_reply satellite_data off) s1 in
        let (s3, es3) =
          if_filled gps_updates (respond subs msgs accepts geo clock none gps_updates off) s2 in
        (s3, es1 ++ es2 ++ es3)
    reply_error_to_gps_nw_req handler_network s =
        if_filled nw_updates
          (respond subs msgs accepts geo clock none nw_updates (failed location_off)) s
    reply_error_to_gps_nw_req handler_hybrid s =
        if_filled hybrid_updates
          (respond subs msgs accepts geo clock none hybrid_updates (failed location_off)) s
    reply_error_to_gps_nw_req _ s = (s, [])
