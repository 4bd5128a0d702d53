-- ===== src/Updates/State.antt =====
-- Turning a handler on and off: setState, getState, loadHandlerStatus and the key of the subscribers
-- (src/lunaIpc/LocationService.cpp). The settings are those of luna-prefs, as an interface. The
-- schemas of the two methods make sure that a handler is named; a name that is null is not modelled
-- in getState.
mod Kept
pub mod Loaded
mod Tests
pub mod Told
use com_webos_service_locati.Base.{
  ℕ, ◌≡◌, Bool, true, false, ◌&&◌, not, Option, none, some, List, [], ◌∷◌, ◌++◌, map, ltb, length,
  codes, if◌then◌else◌,
}
use com_webos_service_locati.Base.Int.{ℤ, pos, eq_ℤ}
use com_webos_service_locati.Bus.{Subscriptions}
use com_webos_service_locati.Commands.{stop_gps_cmd, stop_position_cmd}
use com_webos_service_locati.Errors.{LocationError, unknown_error, invalid_input}
use com_webos_service_locati.Gps.Extra.{same_text}
use com_webos_service_locati.Updates.Cancel.{reply_error_to_gps_nw_req}
use com_webos_service_locati.Updates.Criteria.{Geometry}
use com_webos_service_locati.Updates.Notices.{handler_gps, handler_network, handler_hybrid}
use com_webos_service_locati.Updates.Service.{Messages, Effect, gps, network, Service, with_monitor}
use com_webos_service_locati.Wake.{Monitor, Call, set_wake_lock}

-- The settings of the service: LPAppCopyValueInt, and an LPAppSetValueInt that succeeds, kept by
-- LPAppFreeHandle.
pub record Prefs : Type 1 where
  pub Store : Type 0
  pub get : Store → List ℕ → Option ℤ
  pub set : Store → List ℕ → ℤ → Store
  pub get_set :
      (p : Store) (h j : List ℕ) (v : ℤ)
      → get (set p h v) j ≡ (if same_text h j then some v else get p j)

pub data StateEffect (F : Type 0) : Type 0 where
  -- The reply to a message: success, or the error.
  answer : ℕ → Option LocationError → StateEffect F
  answer_state : ℕ → ℤ → StateEffect F
  add_subscriber : List ℕ → ℕ → StateEffect F
  -- To the subscribers of getState with this key, and of getAllLocationHandlers.
  tell_state : List ℕ → Bool → StateEffect F
  tell_handlers : Bool → Bool → StateEffect F
  effect : Effect F → StateEffect F

abbrev pub max_getstate_param : ℕ
max_getstate_param = 32

-- `snprintf` into `size` bytes, which have to hold the key and its end.
abbrev pub build_get_state_subscription_key : ℕ → List ℕ → Option (List ℕ)
build_get_state_subscription_key size handler =
    let key = handler ++ codes "getState" in if ltb (length key) size then some key else none

abbrev pub bool_value : Bool → ℤ
bool_value true = pos 1
bool_value false = pos 0

-- `a != b` of two `bool`.
abbrev pub differs : Bool → Bool → Bool
differs true b = not b
differs false b = b

abbrev pub or_disabled : Option ℤ → ℤ
or_disabled none = pos 0
or_disabled (some v) = v

-- loadHandlerStatus; `opens` is whether LPAppGetHandle gives a handle.
abbrev pub load_handler_status : (prefs : Prefs) → Bool → prefs.Store → List ℕ → Bool
load_handler_status prefs opens p handler =
    if opens then not (eq_ℤ (or_disabled (prefs.get p handler)) (pos 0)) else false

-- The calls after a subscription: `adds` is the result of LSSubscriptionAdd.
unfoldable pub get_state :
    {F : Type 0} (prefs : Prefs)
    → Bool
    → ℕ
    → List ℕ
    → Bool
    → Bool
    → prefs.Store
    → List (StateEffect F)
get_state prefs false m handler subscribes adds p = answer m (some unknown_error) ∷ []
get_state prefs true m handler false adds p =
    answer_state m (or_disabled (prefs.get p handler)) ∷ []
get_state prefs true m handler true adds p =
    elim (build_get_state_subscription_key max_getstate_param handler) [
      | none ↦ answer m (some invalid_input) ∷ []
      | some key ↦
          add_subscriber key m
          ∷ (if adds
              then answer_state m (or_disabled (prefs.get p handler))
              else answer m (some unknown_error))
          ∷ []
    ]

module _ {F : Type 0} (subs : Subscriptions) (msgs : Messages) (accepts : Call → Bool)
    (geo : Geometry F) (clock : ℕ → ℤ) where
  -- `setWakeLock(false, true)`
  unfoldable pub force_release :
      Option Monitor → Service F subs.Lists → Service F subs.Lists × List (Effect F)
  force_release none s = (s, [])
  force_release (some m) s = with_monitor accepts s (set_wake_lock accepts m false true)

  unfoldable pub turn_gps :
      List ℕ → Bool → Service F subs.Lists → Service F subs.Lists × List (StateEffect F)
  turn_gps key b s =
      let s1 = record s { gps_status = b } in
      let told = tell_state key b ∷ tell_handlers b s.nw_status ∷ [] in
      if b
      then (s1, told)
      else (let (s2, es) = reply_error_to_gps_nw_req subs msgs accepts geo clock handler_gps s1 in
          (s2, told ++ effect (gps stop_gps_cmd) ∷ map effect es))

  unfoldable pub turn_network :
      List ℕ → Bool → Service F subs.Lists → Service F subs.Lists × List (StateEffect F)
  turn_network key b s =
      let s1 = record s { nw_status = b } in
      let told = tell_state key b ∷ tell_handlers s.gps_status b ∷ [] in
      if b
      then (s1, told)
      else (let (s2, es) =
            reply_error_to_gps_nw_req subs msgs accepts geo clock handler_network s1 in
          (s2, told ++ effect (network stop_position_cmd) ∷ map effect es))

  unfoldable pub turn :
      List ℕ → List ℕ → Bool → Service F subs.Lists → Service F subs.Lists × List (StateEffect F)
  turn handler key b s =
      if same_text handler (codes "gps") && differs s.gps_status b
      then turn_gps key b s
      else if same_text handler (codes "network") && differs s.nw_status b
      then turn_network key b s
      else (s, [])

  -- With both handlers off nobody waits any more.
  unfoldable pub all_off : Service F subs.Lists → Service F subs.Lists × List (Effect F)
  all_off s =
      if not s.nw_status && not s.gps_status
      then (let (s1, ws) = force_release s.monitor s in
          let (s2, es) = reply_error_to_gps_nw_req subs msgs accepts geo clock handler_hybrid s1 in
          (s2, ws ++ es))
      else (s, [])

  unfoldable pub with_key :
      ℕ
      → List ℕ
      → Option (List ℕ)
      → Bool
      → Service F subs.Lists
      → Service F subs.Lists × List (StateEffect F)
  with_key m handler none b s = (s, answer m none ∷ answer m (some invalid_input) ∷ [])
  with_key m handler (some key) b s =
      let (s1, es) = turn handler key b s in
      let (s2, fs) = all_off s1 in (s2, answer m none ∷ es ++ map effect fs)

  module _ (prefs : Prefs) where
    -- A message that names no handler is not answered. `writes` is whether LPAppSetValueInt writes;
    -- its result is not read.
    unfoldable pub set_state :
        Bool
        → Bool
        → ℕ
        → Option (List ℕ)
        → Bool
        → Service F subs.Lists × prefs.Store
        → (Service F subs.Lists × prefs.Store) × List (StateEffect F)
    set_state opens writes m none b (s, p) = ((s, p), [])
    set_state false writes m (some handler) b (s, p) = ((s, p), answer m (some unknown_error) ∷ [])
    set_state true writes m (some handler) b (s, p) =
        let p' = if writes then prefs.set p handler (bool_value b) else p in
        let key = build_get_state_subscription_key max_getstate_param handler in
        let (s', es) = with_key m handler key b s in ((s', p'), es)
