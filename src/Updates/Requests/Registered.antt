-- ===== src/Updates/Requests/Registered.antt =====
-- Which requests of getLocationUpdates are kept (src/lunaIpc/LocationService.cpp).
use com_webos_service_locati.Base.{
  ℕ, ◌≡◌, refl, Bool, true, false, ◌&&◌, ◌||◌, not, some, List, ==_iff, if◌then◌else◌, arith,
  Bool-cases, Option-cases, inl, inr,
}
use com_webos_service_locati.Bus.{
  Key, gps_updates, nw_updates, hybrid_updates, passive_updates, Subscriptions,
}
use com_webos_service_locati.Errors.{location_off}
use com_webos_service_locati.Updates.Requests.{
  is_off, reply_error, Started, any_started, HandlerName, gps_name, network_name, hybrid_name,
  passive_name, other_name, Status, LocationRequest, Answers, name_of, get_location_updates, status,
  take_lock, select, register, enable_handlers, selected, both_handlers, enable_gps_handler,
  enable_nw_handler, get_handler_val, new_request,
}
use com_webos_service_locati.Updates.Service.{Effect, Service}
use com_webos_service_locati.Updates.Table.{find, put, find-put}
use com_webos_service_locati.Wake.{Call}

-- The specification: a request can be served where a handler is on, and the one it names is, and
-- a network handler on its own has a connection.
abbrev pub serves : Status → HandlerName → Bool
serves st gps_name = st.gps_on
serves st network_name = st.network_on && st.connected
serves st hybrid_name = st.gps_on || st.network_on && st.connected
serves st passive_name = st.gps_on || st.network_on
serves st (other_name n) = false

abbrev started : Bool → Bool → Started
started g n = record { gps_bit = g; network_bit = n }

abbrev pub switches : Bool → Bool → Bool → Status
switches g w c = record { gps_on = g; network_on = w; connected = c }

module _ {F : Type 0} (subs : Subscriptions) (accepts : Call → Bool) (invalid : F)
    (suspend_blocker : Bool) where
  take_lock_table :
      (b : Bool) (s : Service F subs.Lists)
      → (take_lock subs accepts invalid suspend_blocker b s).0.table ≡ s.table
  unfolding take_lock
  take_lock_table false s = refl
  take_lock_table true s = elim (Option-cases s.monitor) [
    | inl e ↦ rw e refl
    | inr (m, e) ↦ rw e refl
  ]

  register_table :
      (m : ℕ) (q : LocationRequest) (a : Answers) (k : Key) (b : Started) (s : Service F subs.Lists)
      → (register subs accepts invalid suspend_blocker m q a k b s).0.table
        ≡ put m (new_request subs accepts invalid suspend_blocker q a) s.table
  unfolding register
  register_table m q a k b s = elim (Bool-cases a.added) [
    | inl e ↦ rw e (
        take_lock_table (suspend_blocker && q.wakelock && any_started b) (record s {
          lists = subs.add s.lists k m;
          table = put m (new_request subs accepts invalid suspend_blocker q a) s.table;
        }))
    | inr e ↦ rw e refl
  ]

  register_found :
      (m : ℕ) (q : LocationRequest) (a : Answers) (k : Key) (b : Started) (s : Service F subs.Lists)
      → find m (register subs accepts invalid suspend_blocker m q a k b s).0.table
        ≡ some (new_request subs accepts invalid suspend_blocker q a)
  register_found m q a k b s =
      rw
        (
          register_table m q a k b s,
          find-put m m (new_request subs accepts invalid suspend_blocker q a) s.table,
        )
        (ground (arith, ==_iff m m))

  -- get_location_updates with a valid payload, for a status that need not be that of `s`.
  abbrev pub outcome :
      ℕ
      → LocationRequest
      → Answers
      → Service F subs.Lists
      → HandlerName
      → Status
      → Service F subs.Lists × List (Effect F)
  outcome m q a s n st =
      if not st.gps_on && not st.network_on || is_off st n
      then (s, reply_error subs accepts invalid suspend_blocker m location_off)
      else (let sel = get_handler_val n in
          select subs accepts invalid suspend_blocker m q a sel (enable_handlers st sel) s)

  -- The three switches, by cases.
  kept_by_status :
      (m : ℕ) (q : LocationRequest) (a : Answers) (s : Service F subs.Lists) (n : HandlerName)
      (g w c : Bool)
      → find m (outcome m q a s n (switches g w c)).0.table ≡ (
          if serves (switches g w c) n
          then some (new_request subs accepts invalid suspend_blocker q a)
          else find m s.table)
  unfolding select enable_handlers selected both_handlers enable_gps_handler enable_nw_handler
      get_handler_val
  kept_by_status m q a s gps_name true w c = register_found m q a gps_updates (started true false) s
  kept_by_status m q a s gps_name false true c = refl
  kept_by_status m q a s gps_name false false c = refl
  kept_by_status m q a s network_name true true true =
      register_found m q a nw_updates (started false true) s
  kept_by_status m q a s network_name true true false = refl
  kept_by_status m q a s network_name true false c = refl
  kept_by_status m q a s network_name false true true =
      register_found m q a nw_updates (started false true) s
  kept_by_status m q a s network_name false true false = refl
  kept_by_status m q a s network_name false false c = refl
  kept_by_status m q a s hybrid_name true true true =
      register_found m q a hybrid_updates (started true true) s
  kept_by_status m q a s hybrid_name true true false =
      register_found m q a hybrid_updates (started true false) s
  kept_by_status m q a s hybrid_name true false c =
      register_found m q a hybrid_updates (started true false) s
  kept_by_status m q a s hybrid_name false true true =
      register_found m q a hybrid_updates (started false true) s
  kept_by_status m q a s hybrid_name false true false = refl
  kept_by_status m q a s hybrid_name false false c = refl
  kept_by_status m q a s passive_name true w c =
      register_found m q a passive_updates (started false false) s
  kept_by_status m q a s passive_name false true c =
      register_found m q a passive_updates (started false false) s
  kept_by_status m q a s passive_name false false c = refl
  kept_by_status m q a s (other_name n) true w c = refl
  kept_by_status m q a s (other_name n) false true c = refl
  kept_by_status m q a s (other_name n) false false c = refl

  -- A request of a valid payload is in the table afterwards, as a new request that waits for its
  -- first reply, exactly where the handlers that are on serve the handler that it names; where they
  -- do not, the table has for its message what it had before.
  pub kept_iff :
      (m : ℕ) (q : LocationRequest) (a : Answers) (s : Service F subs.Lists)
      → a.valid_schema ≡ true
      → find m (get_location_updates subs accepts invalid suspend_blocker m q a s).0.table ≡ (
          if serves (status subs accepts invalid suspend_blocker a s) (name_of q.handler)
          then some (new_request subs accepts invalid suspend_blocker q a)
          else find m s.table)
  unfolding get_location_updates
  kept_iff m q a s h =
      rw h (kept_by_status m q a s (name_of q.handler) s.gps_status s.nw_status a.connection)
