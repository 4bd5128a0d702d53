-- ===== src/Updates/Replies/Stops.antt =====
-- When a reply to the network subscribers stops the network handler
-- (LSSubNonSubReplyLocUpdateCase of src/lunaIpc/LocationService.cpp).
use com_webos_service_locati.Base.{
  ℕ, ◌≡◌, refl, ◌∙◌, Bool, true, false, ◌&&◌, ◌||◌, not, Option, none, some, List, [], ◌∷◌, ◌++◌,
  map, arith, Bool-cases, Option-cases, inl, inr,
}
use com_webos_service_locati.Base.Int.{ℤ}
use com_webos_service_locati.Bus.{Key, nw_updates, hybrid_updates, Subscriptions}
use com_webos_service_locati.Commands.{stop_position_cmd}
use com_webos_service_locati.Updates.Criteria.{Position, Accuracy, Geometry}
use com_webos_service_locati.Updates.Replies.{
  any, answer_if, ls_message_reply_loc_update_case, visit, visit_messages, stops_after,
  ls_sub_non_sub_reply_loc_update_case,
}
use com_webos_service_locati.Updates.Service.{
  Messages, Payload, Effect, network, wake, remove_source, Service, release_lock, is_list_filled,
  stop_non_subcription,
}
use com_webos_service_locati.Updates.Table.{UpdateRequest}
use com_webos_service_locati.Wake.{Call, set_wake_lock}

module _ {F : Type 0} where
  abbrev pub is_network_stop : Effect F → Bool
  is_network_stop (network stop_position_cmd) = true
  is_network_stop _ = false

  -- Whether the network handler is told to stop.
  abbrev pub stops_network : List (Effect F) → Bool
  stops_network [] = false
  stops_network (e ∷ es) = is_network_stop e || stops_network es

  stops-append :
      (es fs : List (Effect F)) → stops_network (es ++ fs) ≡ stops_network es || stops_network fs
  stops-append [] fs = refl
  stops-append (e ∷ es) fs = ground (arith, stops-append es fs)

stops-wake : (F : Type 0) (cs : List Call) → stops_network {F = F} (map wake cs) ≡ false
stops-wake F [] = refl
stops-wake F (c ∷ cs) = stops-wake F cs

stops-remove_source :
    (F : Type 0) (ts : List ℕ) → stops_network {F = F} (map remove_source ts) ≡ false
stops-remove_source F [] = refl
stops-remove_source F (t ∷ ts) = stops-remove_source F ts

module _ {F : Type 0} (subs : Subscriptions) (msgs : Messages) (accepts : Call → Bool) where
  stops-release :
      (b : Bool) (s : Service F subs.Lists) → stops_network (release_lock accepts b s).1 ≡ false
  stops-release false s = refl
  stops-release true s = elim (Option-cases s.monitor) [
    | inl e ↦ rw e refl
    | inr (m, e) ↦ rw e (stops-wake F (set_wake_lock accepts m false false).1)
  ]

  stops-reply :
      (m : ℕ) (k : Key) (p : Payload F) (s : Service F subs.Lists)
      → stops_network (ls_message_reply_loc_update_case subs msgs accepts m k p s).1 ≡ false
  unfolding ls_message_reply_loc_update_case
  stops-reply m k p s = elim (Bool-cases (msgs.is_subscription m)) [
    | inl e ↦ rw e (search (stops-remove_source F))
    | inr e ↦
        rw
          (
            e,
            stops-append
                (release_lock accepts (msgs.has_wakeup m)
                  (record s { lists = subs.remove s.lists k m })).1,
            stops-release (msgs.has_wakeup m) (record s { lists = subs.remove s.lists k m }),
          )
          (search (stops-remove_source F))
  ]

  module _ (geo : Geometry F) (clock : ℕ → ℤ) where
    stops-answer_if :
        (r : Bool × List (ℕ × UpdateRequest F)) (m : ℕ) (k : Key) (p : Payload F)
        (s : Service F subs.Lists)
        → stops_network (answer_if subs msgs accepts geo clock r m k p s).1 ≡ false
    stops-answer_if (true, t) m k p s = stops-reply m k p (record s { table = t })
    stops-answer_if (false, t) m k p s = refl

    stops-visit :
        (pos : Option (Position F × Accuracy F)) (m : ℕ) (k : Key) (p : Payload F)
        (s : Service F subs.Lists)
        → stops_network (visit subs msgs accepts geo clock pos m k p s).1 ≡ false
    stops-visit none m k p s = stops-reply m k p s
    stops-visit (some (pos, acc)) m k p s = stops-answer_if _ m k p s

    stops-visit_messages :
        (pos : Option (Position F × Accuracy F)) (ms : List ℕ) (k : Key) (p : Payload F)
        (s : Service F subs.Lists)
        → stops_network (visit_messages subs msgs accepts geo clock pos ms k p s).1 ≡ false
    unfolding visit_messages
    stops-visit_messages pos [] k p s = refl
    stops-visit_messages pos (m ∷ ms) k p s =
        let (s', es) = visit subs msgs accepts geo clock pos m k p s in
        stops-append es (visit_messages subs msgs accepts geo clock pos ms k p s').1
        ∙ rw (stops-visit pos m k p s) (stops-visit_messages pos ms k p s')

    -- Where their list has an iterator, a reply to the network subscribers, an error or a
    -- position, tells the network handler to
    -- stop exactly where there was a one-shot request among them and, after the reply, nobody is
    -- left who waits for it, alone or together with the GPS.
    pub stops_iff :
        (pos : Option (Position F × Accuracy F)) (p : Payload F) (s : Service F subs.Lists)
        → subs.acquires s.lists nw_updates ≡ true
        → let (s', es) =
            ls_sub_non_sub_reply_loc_update_case subs msgs accepts geo clock pos nw_updates p s in
          stops_network es
          ≡ any (λ m. not (msgs.is_subscription m)) (subs.messages s.lists nw_updates)
            && (not (is_list_filled subs s'.lists none nw_updates false)
                && not (is_list_filled subs s'.lists none hybrid_updates false))
    unfolding ls_sub_non_sub_reply_loc_update_case stops_after stop_non_subcription
    stops_iff pos p s h =
        let ms = subs.messages s.lists nw_updates in
        let (s', es) = visit_messages subs msgs accepts geo clock pos ms nw_updates p s in
        rw (h, stops-append es, stops-visit_messages pos ms nw_updates p s) (ground arith)
