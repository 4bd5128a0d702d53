-- ===== src/Updates/Replies.antt =====
-- The replies of LocationService.cpp to the subscribers of a key: one-shot requests are answered
-- and removed, subscribers are answered and stay. The iterator of the bus yields the messages that
-- the list has when it is acquired; the loop removes only the message it stands at.
pub mod OneShot
pub mod Stops
use com_webos_service_locati.Base.{
  ℕ, Bool, true, false, ◌&&◌, not, Option, none, some, List, [], ◌∷◌, ◌++◌, map, if◌then◌else◌,
}
use com_webos_service_locati.Base.Int.{ℤ}
use com_webos_service_locati.Bus.{Key, gps_updates, nw_updates, hybrid_updates, Subscriptions}
use com_webos_service_locati.Updates.Criteria.{Position, Accuracy, Geometry, meets_criteria}
use com_webos_service_locati.Updates.Service.{
  Messages, Payload, Effect, reply, remove_source, Service, release_lock, is_list_filled,
  stop_non_subcription,
}
use com_webos_service_locati.Updates.Table.{UpdateRequest, remove_timer, ls_message_remove_req_list}
use com_webos_service_locati.Wake.{Call}

abbrev pub any : (ℕ → Bool) → List ℕ → Bool
any p [] = false
any p (m ∷ ms) = if p m then true else any p ms

module _ {F : Type 0} (subs : Subscriptions) (msgs : Messages) (accepts : Call → Bool) where
  abbrev pub with_table :
      Service F subs.Lists
      → List (ℕ × UpdateRequest F) × Bool × List ℕ
      → Service F subs.Lists × List (Effect F)
  with_table s (t, found, timers) = (record s { table = t }, map remove_source timers)

  -- LSMessageReplyLocUpdateCase. The result of LSMessageReply is only passed on, to callers that
  -- do not read it.
  unfoldable pub ls_message_reply_loc_update_case :
      ℕ → Key → Payload F → Service F subs.Lists → Service F subs.Lists × List (Effect F)
  ls_message_reply_loc_update_case m k p s =
      if msgs.is_subscription m
      then (let (s', es) = with_table s (remove_timer m s.table) in (s', reply m p ∷ es))
      else (let removed = record s { lists = subs.remove s.lists k m } in
          let (unlocked, ws) = release_lock accepts (msgs.has_wakeup m) removed in
          let (s', es) = with_table unlocked (ls_message_remove_req_list m unlocked.table) in
          (s', reply m p ∷ ws ++ es))

  -- One round of the loop; `clock m` is the time when it reaches `m`. No position is an error.
  module _ (geo : Geometry F) (clock : ℕ → ℤ) where
    abbrev pub answer_if :
        Bool × List (ℕ × UpdateRequest F)
        → ℕ
        → Key
        → Payload F
        → Service F subs.Lists
        → Service F subs.Lists × List (Effect F)
    answer_if (ok, t) m k p s =
        if ok
        then ls_message_reply_loc_update_case m k p (record s { table = t })
        else (record s { table = t }, [])

    abbrev pub visit :
        Option (Position F × Accuracy F)
        → ℕ
        → Key
        → Payload F
        → Service F subs.Lists
        → Service F subs.Lists × List (Effect F)
    visit none m k p s = ls_message_reply_loc_update_case m k p s
    visit (some (pos, acc)) m k p s =
        answer_if
          (meets_criteria geo m (clock m) pos acc (msgs.min_interval m) (msgs.min_distance m)
            s.table)
          m k p s

    unfoldable pub visit_messages :
        Option (Position F × Accuracy F)
        → List ℕ
        → Key
        → Payload F
        → Service F subs.Lists
        → Service F subs.Lists × List (Effect F)
    visit_messages pos [] k p s = (s, [])
    visit_messages pos (m ∷ ms) k p s =
        let (s', es) = visit pos m k p s in
        let (s'', fs) = visit_messages pos ms k p s' in (s'', es ++ fs)

    -- The handlers that nobody waits for any more, after a one-shot request.
    unfoldable pub stops_after : subs.Lists → Key → List (Effect F)
    stops_after l hybrid_updates =
        (if not (is_list_filled subs l none hybrid_updates false)
            && not (is_list_filled subs l none gps_updates false)
          then stop_non_subcription gps_updates
          else [])
        ++ (if not (is_list_filled subs l none hybrid_updates false)
              && not (is_list_filled subs l none nw_updates false)
            then stop_non_subcription nw_updates
            else [])
    stops_after l k =
        if not (is_list_filled subs l none k false)
          && not (is_list_filled subs l none hybrid_updates false)
        then stop_non_subcription k
        else []

    -- LSSubNonSubReplyLocUpdateCase
    unfoldable pub ls_sub_non_sub_reply_loc_update_case :
        Option (Position F × Accuracy F)
        → Key
        → Payload F
        → Service F subs.Lists
        → Service F subs.Lists × List (Effect F)
    ls_sub_non_sub_reply_loc_update_case pos k p s =
        if subs.acquires s.lists k
        then (let ms = subs.messages s.lists k in
            let (s', es) = visit_messages pos ms k p s in
            (
              s',
              es
                  ++ (if any (λ m. not (msgs.is_subscription m)) ms
                      then stops_after s'.lists k
                      else []),
            ))
        else (s, [])
