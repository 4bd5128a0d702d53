-- ===== src/Updates/State/Kept.antt =====
-- The replies to subscribers leave the states of the handlers alone (src/lunaIpc/LocationService.cpp).
use com_webos_service_locati.Base.{
  ℕ, ◌≡◌, refl, Bool, Option, none, some, List, [], ◌∷◌, if◌then◌else◌, arith,
}
use com_webos_service_locati.Base.Int.{ℤ}
use com_webos_service_locati.Bus.{
  Key, nmea_data, satellite_data, gps_updates, nw_updates, hybrid_updates, Subscriptions,
}
use com_webos_service_locati.Errors.{location_off}
use com_webos_service_locati.Updates.Criteria.{Geometry, Position, Accuracy}
use com_webos_service_locati.Updates.Service.{
  Messages, Payload, failed, Effect, Service, release_lock,
}
use com_webos_service_locati.Updates.Notices.{
  HandlerTypes, handler_gps, handler_network, handler_hybrid, respond,
}
use com_webos_service_locati.Updates.Replies.{
  ls_message_reply_loc_update_case, visit_messages, ls_sub_non_sub_reply_loc_update_case,
}
use com_webos_service_locati.Updates.Cancel.{
  reply_messages, ls_subscription_non_subscription_reply, if_filled, reply_error_to_gps_nw_req,
}
use com_webos_service_locati.Updates.State.{all_off, force_release}
use com_webos_service_locati.Wake.{Monitor, Call}

pub record Kept {F : Type 0} {L : Type 0} (s s' : Service F L) : Type 0 where
  pub gps_kept : s'.gps_status ≡ s.gps_status
  pub nw_kept : s'.nw_status ≡ s.nw_status

Kept-refl : {F L : Type 0} (s : Service F L) → Kept s s
Kept-refl s = record { gps_kept = refl; nw_kept = refl }

Kept-trans : {F L : Type 0} (a b c : Service F L) → Kept a b → Kept b c → Kept a c
Kept-trans a b c h k = ground arith

module _ {F : Type 0} (subs : Subscriptions) (msgs : Messages) (accepts : Call → Bool)
    (geo : Geometry F) (clock : ℕ → ℤ) where
  release-Kept : (b : Bool) (s : Service F subs.Lists) → Kept s (release_lock accepts b s).0
  release-Kept b s = ground arith

  reply-Kept :
      (m : ℕ) (k : Key) (p : Payload F) (s : Service F subs.Lists)
      → Kept s (ls_message_reply_loc_update_case subs msgs accepts m k p s).0
  unfolding ls_message_reply_loc_update_case
  reply-Kept m k p s =
      ground
        (arith, release-Kept (msgs.has_wakeup m) (record s { lists = subs.remove s.lists k m }))

  visit-Kept :
      (pos : Option (Position F × Accuracy F)) (ms : List ℕ) (k : Key) (p : Payload F)
      (s : Service F subs.Lists)
      → pos ≡ none
      → Kept s (visit_messages subs msgs accepts geo clock pos ms k p s).0
  unfolding visit_messages
  visit-Kept none [] k p s h = Kept-refl s
  visit-Kept none (m ∷ ms) k p s h =
      let s1 = (ls_message_reply_loc_update_case subs msgs accepts m k p s).0 in
      Kept-trans s s1 _ (reply-Kept m k p s) (visit-Kept none ms k p s1 h)
  visit-Kept (some q) ms k p s h = absurd (ground arith)

  respond-Kept :
      (k : Key) (p : Payload F) (s : Service F subs.Lists)
      → Kept s (respond subs msgs accepts geo clock none k p s).0
  unfolding ls_sub_non_sub_reply_loc_update_case
  respond-Kept k p s = ground (arith, visit-Kept none (subs.messages s.lists k) k p s refl)

  messages-Kept :
      (ms : List ℕ) (k : Key) (p : Payload F) (s : Service F subs.Lists)
      → Kept s (reply_messages subs msgs accepts ms k p s).0
  unfolding reply_messages
  messages-Kept [] k p s = Kept-refl s
  messages-Kept (m ∷ ms) k p s =
      let s1 = if msgs.is_subscription m then s else record s { lists = subs.remove s.lists k m } in
      ground (arith, messages-Kept ms k p s1)

  plain-Kept :
      (k : Key) (p : Payload F) (s : Service F subs.Lists)
      → Kept s (ls_subscription_non_subscription_reply subs msgs accepts k p s).0
  unfolding ls_subscription_non_subscription_reply
  plain-Kept k p s = ground (arith, messages-Kept (subs.messages s.lists k) k p s)

  filled-Kept :
      (k : Key) (f : Service F subs.Lists → Service F subs.Lists × List (Effect F))
      (s : Service F subs.Lists)
      → Kept s (f s).0
      → Kept s (if_filled subs msgs accepts k f s).0
  filled-Kept k f s h = ground arith

  pub error-Kept :
      (t : HandlerTypes) (s : Service F subs.Lists)
      → Kept s (reply_error_to_gps_nw_req subs msgs accepts geo clock t s).0
  unfolding reply_error_to_gps_nw_req
  error-Kept handler_gps s =
      let off = failed location_off in
      let nmea = ls_subscription_non_subscription_reply subs msgs accepts nmea_data off in
      let satellites =
        ls_subscription_non_subscription_reply subs msgs accepts satellite_data off in
      let s1 = (if_filled subs msgs accepts nmea_data nmea s).0 in
      let s2 = (if_filled subs msgs accepts satellite_data satellites s1).0 in
      let gps = respond subs msgs accepts geo clock none gps_updates off in
      let s3 = (if_filled subs msgs accepts gps_updates gps s2).0 in
      Kept-trans s s1 s3 (filled-Kept nmea_data nmea s (plain-Kept nmea_data off s)) (
        Kept-trans s1 s2 s3
          (filled-Kept satellite_data satellites s1 (plain-Kept satellite_data off s1))
          (filled-Kept gps_updates gps s2 (respond-Kept gps_updates off s2)))
  error-Kept handler_network s =
      let off = failed location_off in
      filled-Kept nw_updates (respond subs msgs accepts geo clock none nw_updates off) s
        (respond-Kept nw_updates off s)
  error-Kept handler_hybrid s =
      let off = failed location_off in
      filled-Kept hybrid_updates (respond subs msgs accepts geo clock none hybrid_updates off) s
        (respond-Kept hybrid_updates off s)
  error-Kept _ s = Kept-refl s

  force-Kept :
      (m : Option Monitor) (s : Service F subs.Lists)
      → Kept s (force_release subs msgs accepts geo clock m s).0
  unfolding force_release
  force-Kept m s = ground arith

  pub all_off-Kept : (s : Service F subs.Lists) → Kept s (all_off subs msgs accepts geo clock s).0
  unfolding all_off
  all_off-Kept s =
      let s1 = (force_release subs msgs accepts geo clock s.monitor s).0 in
      ground (arith, force-Kept s.monitor s, error-Kept handler_hybrid s1)
