-- ===== src/Updates/Requests/Lock.antt =====
-- The wake lock of a passive subscriber (getLocationUpdates and cancelSubscription of
-- src/lunaIpc/LocationService.cpp).
use com_webos_service_locati.Base.{
  ℕ, ◌≡◌, refl, ap, ◌∙◌, Bool, true, false, ◌&&◌, some, arith, Bool-cases, inl, inr,
}
use com_webos_service_locati.Bus.{Key, passive_updates, Subscriptions}
use com_webos_service_locati.Updates.Cancel.{cancel_location_updates}
use com_webos_service_locati.Updates.Requests.{
  HandlerName, name_of, none_started, passive_name, LocationRequest, Answers, get_location_updates,
  select, register, enable_handlers, selected, get_handler_val, take_lock,
}
use com_webos_service_locati.Updates.Requests.Registered.{outcome, switches}
use com_webos_service_locati.Updates.Service.{Messages, Service}
use com_webos_service_locati.Wake.{Monitor, Call, set_wake_lock}

module _ {F : Type 0} (subs : Subscriptions) (msgs : Messages) (accepts : Call → Bool) (invalid : F)
    (suspend_blocker : Bool) where
  abbrev pub passive_visit :
      ℕ → LocationRequest → Answers → Service F subs.Lists → Service F subs.Lists
  passive_visit m q a s =
      (cancel_location_updates subs msgs accepts m
        (get_location_updates subs accepts invalid suspend_blocker m q a s).0).0

  idle_lock :
      (b c : Bool) (s : Service F subs.Lists)
      → (take_lock subs accepts invalid suspend_blocker (b && c && false) s).0 ≡ s
  unfolding take_lock
  idle_lock true true s = refl
  idle_lock true false s = refl
  idle_lock false c s = refl

  idle_register :
      (m : ℕ) (q : LocationRequest) (a : Answers) (k : Key) (s : Service F subs.Lists)
      → (register subs accepts invalid suspend_blocker m q a k none_started s).0.monitor ≡ s.monitor
  unfolding register
  idle_register m q a k s = elim (Bool-cases a.added) [
    | inl e ↦ rw e (ap (λ t. t.monitor) (idle_lock suspend_blocker q.wakelock _))
    | inr e ↦ rw e refl
  ]

  passive_outcome :
      (m : ℕ) (q : LocationRequest) (a : Answers) (s : Service F subs.Lists) (g w c : Bool)
      → (outcome subs accepts invalid suspend_blocker m q a s passive_name
          (switches g w c)).0.monitor
        ≡ s.monitor
  unfolding select enable_handlers selected get_handler_val
  passive_outcome m q a s true w c = idle_register m q a passive_updates s
  passive_outcome m q a s false true c = idle_register m q a passive_updates s
  passive_outcome m q a s false false c = refl

  named_outcome :
      (m : ℕ) (q : LocationRequest) (a : Answers) (s : Service F subs.Lists) (n : HandlerName)
      → n ≡ passive_name
      → (g w c : Bool)
      → (outcome subs accepts invalid suspend_blocker m q a s n (switches g w c)).0.monitor
        ≡ s.monitor
  named_outcome m q a s n e g w c = rw e (passive_outcome m q a s g w c)

  passive_takes_none :
      (m : ℕ) (q : LocationRequest) (a : Answers) (s : Service F subs.Lists)
      → q.handler ≡ some passive_name
      → (get_location_updates subs accepts invalid suspend_blocker m q a s).0.monitor ≡ s.monitor
  unfolding get_location_updates
  passive_takes_none m q a s h = elim (Bool-cases a.valid_schema) [
    | inr v ↦ rw v refl
    | inl v ↦ rw v (
        named_outcome m q a s (name_of q.handler) (ap name_of h) s.gps_status s.nw_status
          a.connection)
  ]

  cancel_gives :
      (m : ℕ) (s : Service F subs.Lists) (w : Monitor)
      → s.monitor ≡ some w
      → msgs.has_wakeup m ≡ true
      → (cancel_location_updates subs msgs accepts m s).0.monitor
        ≡ some (set_wake_lock accepts w false false).0
  unfolding cancel_location_updates
  cancel_gives m s w h l = rw (l, h) refl

  -- A passive subscriber with `wakelock` takes no lock when it subscribes and gives one back when
  -- it goes: with one client that holds the lock, and a bus that takes the call, the lock is
  -- released under that client.
  pub passive_frees_lock :
      (m : ℕ) (q : LocationRequest) (a : Answers) (s : Service F subs.Lists) (w : Monitor)
      → q.handler ≡ some passive_name
      → msgs.has_wakeup m ≡ true
      → s.monitor ≡ some w
      → w.registered ≡ true
      → w.lock_set ≡ true
      → w.refs ≡ 1
      → ((c : Call) → accepts c ≡ true)
      → (w' : Monitor) × ((passive_visit m q a s).monitor ≡ some w')
        × (w'.refs ≡ 0)
        × (w'.lock_set ≡ false)
  unfolding set_wake_lock
  passive_frees_lock m q a s w h l hs reg lock refs ok = (
    (set_wake_lock accepts w false false).0,
    cancel_gives m _ w (passive_takes_none m q a s h ∙ hs) l,
    ground (arith, reg, lock, refs, ok (Call.set_lock w.monitor_id false)),
    ground (arith, reg, lock, refs, ok (Call.set_lock w.monitor_id false)),
  )
