-- ===== src/Wake.antt =====
-- The wake lock that keeps the device up while clients wait for a position:
-- src/lunaIpc/LifeCycleMonitor.cpp and its header. The bus (LSCall) and the parsed replies of the
-- sleep service are inputs. `m_refWakeLock` starts at 0 and no write makes it negative, so the
-- `int` is a natural number; its overflow after 2^31 unmatched requests is not modelled.
pub mod Holders
pub mod Agreement
mod Tests
use com_webos_service_locati.Base.{
  ℕ, ◌+◌, ◌-◌, Bool, true, false, ◌&&◌, not, Option, none, some, String, List, [], ◌∷◌, ◌++◌, ltb,
  ◌==◌, if◌then◌else◌,
}

pub record Monitor : Type 0 where
  pub has_service : Bool
  pub monitor_id : Option String
  pub registered : Bool
  pub lock_set : Bool
  pub refs : ℕ

-- What `callService` sends: `identify`, `wakeLockRegister`, `setWakeLock` with its payload.
pub data Call : Type 0 where
  identify : Call
  register_lock : String → Call
  set_lock : Option String → Bool → Call

abbrev pub init : Monitor
init = record {
  has_service = false;
  monitor_id = none;
  registered = false;
  lock_set = false;
  refs = 0;
}

-- `m_setWakeLock == set`
abbrev pub same : Bool → Bool → Bool
same true b = b
same false b = not b

-- The service is kept whether or not the registration succeeds.
pub register_suspend_monitor : Bool → Bool → Monitor → Monitor × Bool
register_suspend_monitor false accepted m = (m, false)
register_suspend_monitor true accepted m = (record m { has_service = true }, accepted)

-- `--m_refWakeLock < 0 ? 0 : m_refWakeLock`, or `m_refWakeLock++`
pub count : Bool → ℕ → ℕ
count true refs = refs + 1
count false refs = if refs == 0 then 0 else refs - 1

-- `accepts` is the result of LSCall for each call.
module _ (accepts : Call → Bool) where
  pub send_lock : Monitor → Bool → Monitor × List Call
  send_lock m set =
      let c = set_lock m.monitor_id set in
      (if accepts c then record m { lock_set = set } else m, c ∷ [])

  unfoldable pub set_wake_lock : Monitor → Bool → Bool → Monitor × List Call
  unfolding count send_lock
  set_wake_lock m set force =
      if not m.registered
      then (m, [])
      else (let counted = record m { refs = count set m.refs } in
          if same m.lock_set set
          then (counted, [])
          else (let forced = if not set && force then record counted { refs = 0 } else counted in
              if not set && ltb 0 forced.refs then (forced, []) else send_lock forced set))

-- `identify` is sent when the sleep service comes up; when it goes, the lock goes with it.
pub cb_powerd_up : Monitor → Bool → Monitor × List Call
cb_powerd_up m true = (m, identify ∷ [])
cb_powerd_up m false = (record m { registered = false; lock_set = false; refs = 0 }, [])

-- The reply to `identify`, if it parses: `subscribed`, and `clientId` as `g_strdup` copies it.
pub record IdentifyReply : Type 0 where
  pub subscribed : Option Bool
  pub client_id : Option String

register_call : Bool → Option String → Bool → List Call
register_call false id registered = []
register_call true none registered = []
register_call true (some id) registered = if registered then [] else register_lock id ∷ []

is_subscribed : Option Bool → Bool
is_subscribed none = false
is_subscribed (some b) = b

pub cb_identify : Monitor → Option IdentifyReply → Monitor × List Call
unfolding register_call is_subscribed
cb_identify m none = (m, [])
cb_identify m (some r) = (
  record m { monitor_id = r.client_id },
  register_call (is_subscribed r.subscribed) r.client_id m.registered,
)

-- The reply to `wakeLockRegister`: `none` if it does not parse, then `returnValue` if it is there.
pub cb_register_wake_lock : Monitor → Option (Option Bool) → Monitor
cb_register_wake_lock m none = m
cb_register_wake_lock m (some none) = m
cb_register_wake_lock m (some (some false)) = m
cb_register_wake_lock m (some (some true)) = record m { registered = true }

-- What can happen to the monitor, one event at a time.
pub data Event : Type 0 where
  wants : Bool → Bool → Event
  powerd : Bool → Event
  identified : Option IdentifyReply → Event
  lock_registered : Option (Option Bool) → Event

module _ (accepts : Call → Bool) where
  pub step : Monitor → Event → Monitor × List Call
  unfolding set_wake_lock cb_powerd_up cb_identify cb_register_wake_lock
  step m (wants set force) = set_wake_lock accepts m set force
  step m (powerd up) = cb_powerd_up m up
  step m (identified r) = cb_identify m r
  step m (lock_registered r) = (cb_register_wake_lock m r, [])

  pub run : Monitor → List Event → Monitor × List Call
  run m [] = (m, [])
  run m (e ∷ es) = let (m', cs) = step m e in let (m'', ds) = run m' es in (m'', cs ++ ds)
