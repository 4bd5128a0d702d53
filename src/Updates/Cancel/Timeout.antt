-- ===== src/Updates/Cancel/Timeout.antt =====
-- What a passed responseTimeout leaves (_TimerCallbackLocationUpdate of
-- src/lunaIpc/LocationService.cpp).
use com_webos_service_locati.Base.{
  ℕ, ◌≡◌, Bool, true, ◌&&◌, not, List, [], ◌∷◌, ◌==◌, ◌∙◌, arith, Bool-cases, inl, inr,
}
use com_webos_service_locati.Bus.{Key, same_key_refl, Subscriptions}
use com_webos_service_locati.Updates.Cancel.{remove_met, timer_callback_location_update}
use com_webos_service_locati.Updates.Replies.OneShot.{
  has, any-without, release_lists, release_table,
}
use com_webos_service_locati.Updates.Service.{Messages, Service}
use com_webos_service_locati.Updates.Table.{find, find-remove_req_list, is_some}
use com_webos_service_locati.Wake.{Call}

module _ {F : Type 0} (subs : Subscriptions) (msgs : Messages) (accepts : Call → Bool) where
  remove_met-has :
      (m x : ℕ) (k : Key) (ns : List ℕ) (s : Service F subs.Lists)
      → has x (subs.messages (remove_met subs msgs accepts m k ns s).0.lists k)
        ≡ has x (subs.messages s.lists k) && not (has m ns && m == x)
  unfolding remove_met
  remove_met-has m x k [] s = ground arith
  remove_met-has m x k (n ∷ ns) s = elim (Bool-cases (n == m)) [
    | inl e ↦ rw e (
        remove_met-has m x k ns _
        ∙ rw
            (release_lists subs msgs accepts (msgs.has_wakeup m)
              (record s { lists = subs.remove s.lists k m }))
            (rw
              (
                subs.messages_remove s.lists k k m,
                same_key_refl k,
                any-without x m (subs.messages s.lists k),
              )
              (ground arith)))
    | inr e ↦ rw e (remove_met-has m x k ns s)
  ]

  remove_met-find :
      (m x : ℕ) (k : Key) (ns : List ℕ) (s : Service F subs.Lists)
      → is_some (find x (remove_met subs msgs accepts m k ns s).0.table)
        ≡ is_some (find x s.table) && not (has m ns && m == x)
  unfolding remove_met
  remove_met-find m x k [] s = ground arith
  remove_met-find m x k (n ∷ ns) s = elim (Bool-cases (n == m)) [
    | inl e ↦ rw e (
        remove_met-find m x k ns _
        ∙ rw
            (release_table subs msgs accepts (msgs.has_wakeup m)
              (record s { lists = subs.remove s.lists k m }))
            (rw (find-remove_req_list m x s.table) (ground arith)))
    | inr e ↦ rw e (remove_met-find m x k ns s)
  ]

  -- A request whose timeout passes while it stands in the list of its key, which has an iterator,
  -- is gone from that list and from the table of requests, and no other request is.
  pub timed_out_goes :
      (m x : ℕ) (k : Key) (s : Service F subs.Lists)
      → subs.acquires s.lists k ≡ true
      → has m (subs.messages s.lists k) ≡ true
      → let s' = (timer_callback_location_update subs msgs accepts m k s).0 in
        (has x (subs.messages s'.lists k) ≡ has x (subs.messages s.lists k) && not (m == x))
        × (is_some (find x s'.table) ≡ is_some (find x s.table) && not (m == x))
  unfolding timer_callback_location_update
  timed_out_goes m x k s a h =
      let ns = subs.messages s.lists k in
      rw a (
        remove_met-has m x k ns s ∙ ground (arith, h),
        remove_met-find m x k ns s ∙ ground (arith, h),
      )
