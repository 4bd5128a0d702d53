-- ===== src/Gps/Wan/Supl.antt =====
-- What the GPS provider holds of the mobile network, over all orders of the messages of the WAN
-- service and the settings with the callbacks and the thread of the provider (GpsWanInterface.cpp,
-- GPSPositionProvider.cpp).
use com_webos_service_locati.Base.{
  ◌≡◌, refl, sym, ap, ◌∙◌, ℕ, Bool, true, false, Option, none, some, List, [], ◌∷◌, arith,
  if◌then◌else◌,
}
use com_webos_service_locati.Base.Int.{ℤ, pos}
use com_webos_service_locati.Gps.Atl.{
  Atl, initial, Action, AgpsStatus, update_network_state, joined, agps_status_cb, xtra_data_cb,
  xtra_time_cb, act, gps_thread_proc,
}
use com_webos_service_locati.Gps.Wan.{
  Wan, not_connected, initialize, service_started, service_stopped, service_up_cb, Settings,
  setting_service_cb, Context, Contexts, Bearers, is_supl, report, walk, get_context_cb,
}

-- What a message says of the mobile network: `connected` of the first context named "supl".
abbrev pub supl_contexts : List Context → List Context
supl_contexts [] = []
supl_contexts (c ∷ cs) = if is_supl c.name then c ∷ supl_contexts cs else supl_contexts cs

abbrev pub first_connected : List Context → Option Bool
first_connected [] = none
first_connected (c ∷ cs) = c.connected

abbrev pub reported : Option Contexts → Option Bool
reported none = none
reported (some m) = elim m.return_value [
  | some true ↦ first_connected (supl_contexts m.contexts)
  | _ ↦ none
]

abbrev pub latest : Option Bool → Bool → Bool
latest none old = old
latest (some b) old = b

abbrev pub flag : Bool → ℤ
flag b = if b then pos 1 else pos 0

module _ (bearers : Bearers) where
  -- The Boolean is the last that a message said.
  pub data Reach : Wan → Atl → Bool → Type 0 where
    start : Reach (initialize not_connected).0 initial false
    service :
        {w : Wan} {a : Atl} {b : Bool} (message : Option (Option Bool)) (token : ℕ)
        → Reach w a b
        → Reach (service_up_cb message token w).0 a b
    settings :
        {w : Wan} {a : Atl} {b : Bool} (s : Option Settings)
        → Reach w a b
        → Reach (setting_service_cb s w) a b
    says :
        {w : Wan} {a : Atl} {b : Bool} (m : Option Contexts)
        → Reach w a b
        → Reach w (get_context_cb bearers w m a).0 (latest (reported m) b)
    agps :
        {w : Wan} {a : Atl} {b : Bool} (s : AgpsStatus)
        → Reach w a b
        → Reach w (agps_status_cb s a) b
    xtra_data :
        {w : Wan} {a : Atl} {b : Bool} (bytes : Option (List ℕ)) (length : ℤ)
        → Reach w a b
        → Reach w (xtra_data_cb bytes length a) b
    xtra_time :
        {w : Wan} {a : Atl} {b : Bool} (time reference uncertainty : ℤ)
        → Reach w a b
        → Reach w (xtra_time_cb time reference uncertainty a) b
    round :
        {w : Wan} {a : Atl} {b : Bool}
        → Reach w a b
        → Reach w (gps_thread_proc w.service_connected a).0 b

-- The provider has the network where the last report says so, and a WAN service that is gone leaves no
-- token.
pub record IsCurrent (w : Wan) (a : Atl) (b : Bool) : Type 0 where
  pub network : a.network.available ≡ flag b
  pub no_token : w.service_connected ≡ false → w.wan_get_context ≡ 0

update_network_state-available :
    (up b : Bool) (apn : List ℕ) (bearer : ℕ) (a : Atl)
    → a.network.available ≡ flag b
    → (update_network_state
        (record { available = flag up; apn = apn; bearer_type = bearer })
        a).0.network.available
      ≡ flag up
unfolding update_network_state joined
update_network_state-available true true apn bearer a h = ground (arith, h)
update_network_state-available true false apn bearer a h = rw h refl
update_network_state-available false true apn bearer a h = rw h refl
update_network_state-available false false apn bearer a h = ground (arith, h)

act-network :
    (serves : Bool) (action : Action) (a : Atl) → (act serves action a).0.network ≡ a.network
unfolding act
act-network serves action a = ground arith

gps_thread_proc-network :
    (serves : Bool) (a : Atl) → (gps_thread_proc serves a).0.network ≡ a.network
unfolding gps_thread_proc
gps_thread_proc-network serves a = ground (arith, act-network serves a.thread_action a)

agps_status_cb-network : (s : AgpsStatus) (a : Atl) → (agps_status_cb s a).network ≡ a.network
unfolding agps_status_cb
agps_status_cb-network s a = ground arith

xtra_data_cb-network :
    (bytes : Option (List ℕ)) (length : ℤ) (a : Atl)
    → (xtra_data_cb bytes length a).network ≡ a.network
unfolding xtra_data_cb
xtra_data_cb-network none length a = refl
xtra_data_cb-network (some bytes) length a = refl

xtra_time_cb-network :
    (time reference uncertainty : ℤ) (a : Atl)
    → (xtra_time_cb time reference uncertainty a).network ≡ a.network
unfolding xtra_time_cb
xtra_time_cb-network time reference uncertainty a = refl

module _ (bearers : Bearers) (w : Wan) where
  report-available :
      (c : Context) (said : Option Bool) (a : Atl) (b : Bool)
      → a.network.available ≡ flag b
      → (report bearers w c said a).0.network.available ≡ flag (latest said b)
  unfolding report
  report-available c none a b h = h
  report-available c (some up) a b h = update_network_state-available up b _ _ a h

  walk-available :
      (cs : List Context) (a : Atl) (b : Bool)
      → a.network.available ≡ flag b
      → (walk bearers w cs a).0.network.available
        ≡ flag (latest (first_connected (supl_contexts cs)) b)
  unfolding walk
  walk-available [] a b h = h
  walk-available (c ∷ cs) a b h =
      ground (arith, report-available c c.connected a b h, walk-available cs a b h)

service_up_cb-no_token :
    (message : Option (Option Bool)) (token : ℕ) (w : Wan)
    → (w.service_connected ≡ false → w.wan_get_context ≡ 0)
    → (service_up_cb message token w).0.service_connected ≡ false
    → (service_up_cb message token w).0.wan_get_context ≡ 0
unfolding service_up_cb service_started service_stopped
service_up_cb-no_token none token w no_token h = no_token h
service_up_cb-no_token (some none) token w no_token h = no_token h
service_up_cb-no_token (some (some true)) token w no_token h = absurd (ground (arith, h))
service_up_cb-no_token (some (some false)) token w no_token h = refl

setting_service_cb-service :
    (s : Option Settings) (w : Wan)
    → ((setting_service_cb s w).service_connected ≡ w.service_connected)
      × ((setting_service_cb s w).wan_get_context ≡ w.wan_get_context)
unfolding setting_service_cb
setting_service_cb-service s w = ground arith

answered-available :
    (bearers : Bearers) (w : Wan) (value : Option Bool) (cs : List Context) (a : Atl) (b : Bool)
    → a.network.available ≡ flag b
    → let m : Option Contexts = some (record { return_value = value; contexts = cs }) in
      (get_context_cb bearers w m a).0.network.available ≡ flag (latest (reported m) b)
unfolding get_context_cb
answered-available bearers w none cs a b h = h
answered-available bearers w (some false) cs a b h = h
answered-available bearers w (some true) cs a b h = walk-available bearers w cs a b h

get_context_cb-available :
    (bearers : Bearers) (w : Wan) (m : Option Contexts) (a : Atl) (b : Bool)
    → a.network.available ≡ flag b
    → (get_context_cb bearers w m a).0.network.available ≡ flag (latest (reported m) b)
unfolding get_context_cb
get_context_cb-available bearers w none a b h = h
get_context_cb-available bearers w (some m) a b h =
    answered-available bearers w m.return_value m.contexts a b h

-- In any order of the messages of the WAN service, the settings, the callbacks of the GNSS library and
-- the rounds of the thread of the provider, the provider's network is available exactly where the last
-- message that reported a context named "supl" said that it is connected; and mWanGetContext is 0, the
-- token of no call, while the WAN service is gone.
pub Reach-IsCurrent :
    {bearers : Bearers} {w : Wan} {a : Atl} {b : Bool} → Reach bearers w a b → IsCurrent w a b
unfolding initialize
Reach-IsCurrent start = record { network = refl; no_token = λ h. refl }
Reach-IsCurrent (service {w} message token r) =
    let g = Reach-IsCurrent r in
    record { network = g.network; no_token = service_up_cb-no_token message token w g.no_token }
Reach-IsCurrent (settings {w} s r) =
    let g = Reach-IsCurrent r in
    let (same_service, same_token) = setting_service_cb-service s w in
    record { network = g.network; no_token = λ h. same_token ∙ g.no_token (sym same_service ∙ h) }
Reach-IsCurrent {bearers} (says {w} {a} {b} m r) =
    let g = Reach-IsCurrent r in
    record { network = get_context_cb-available bearers w m a b g.network; no_token = g.no_token }
Reach-IsCurrent (agps {a} s r) =
    let g = Reach-IsCurrent r in
    record {
      network = ap (λ n. n.available) (agps_status_cb-network s a) ∙ g.network;
      no_token = g.no_token;
    }
Reach-IsCurrent (xtra_data {a} bytes length r) =
    let g = Reach-IsCurrent r in
    record {
      network = ap (λ n. n.available) (xtra_data_cb-network bytes length a) ∙ g.network;
      no_token = g.no_token;
    }
Reach-IsCurrent (xtra_time {a} t u v r) =
    let g = Reach-IsCurrent r in
    record {
      network = ap (λ n. n.available) (xtra_time_cb-network t u v a) ∙ g.network;
      no_token = g.no_token;
    }
Reach-IsCurrent (round {w} {a} r) =
    let g = Reach-IsCurrent r in
    record {
      network = ap (λ n. n.available) (gps_thread_proc-network w.service_connected a) ∙ g.network;
      no_token = g.no_token;
    }
