-- ===== src/Network/Provider/Queries.antt =====
-- What triggerPostQuery posts (NetworkPositionProvider.cpp).
use com_webos_service_locati.Base.{◌≡◌, refl, Bool, true, false, Option, none, some, List, [], ◌∷◌}
use com_webos_service_locati.Network.Backend.{Written, untouched, text}
use com_webos_service_locati.Network.Wifi.{Signals}
use com_webos_service_locati.Network.Cells.{CellInfo}
use com_webos_service_locati.Network.Provider.{
  Provider, Env, Effect, post, trigger_post_query, create_query, query_of, network_post_query,
  Query, send_query, post_created,
}

-- Each query has data, and data only of a radio that is on.
abbrev pub FromRadios : {F : Type 0} → Bool → Bool → List (Effect F) → Type 0
FromRadios tel wifi_on [] = Unit {0}
FromRadios tel wifi_on (post url none ∷ es) = ⊥
FromRadios tel wifi_on (post url (some q) ∷ es) =
    (tel ≡ false → q.cell_towers ≡ none)
    × (wifi_on ≡ false → q.wifi_access_points ≡ none)
    × (q.cell_towers ≡ none → q.wifi_access_points ≡ none → ⊥)
    × FromRadios tel wifi_on es
FromRadios tel wifi_on (_ ∷ es) = FromRadios tel wifi_on es

abbrev Fits : Bool → Bool → Option Query → Type 0
Fits tel wifi_on none = Unit {0}
Fits tel wifi_on (some q) =
    (tel ≡ false → q.cell_towers ≡ none)
    × (wifi_on ≡ false → q.wifi_access_points ≡ none)
    × (q.cell_towers ≡ none → q.wifi_access_points ≡ none → ⊥)

query_of-Fits :
    (tel wifi_on : Bool) (c : Option CellInfo) (w : Option Signals)
    → (tel ≡ false → c ≡ none)
    → (wifi_on ≡ false → w ≡ none)
    → Fits tel wifi_on (query_of c w)
unfolding query_of
query_of-Fits tel wifi_on none none h k = tt
query_of-Fits tel wifi_on (some c) w h k = (h, k, λ e f. cc)
query_of-Fits tel wifi_on none (some w) h k = (λ e. refl, k, λ e f. cc)

send_query-FromRadios :
    (F : Type 0) (env : Env) (w t : Bool) (q : Query) (out : Bool × Written)
    → Fits t w (some q)
    → FromRadios t w (send_query {F = F} env (some q) out).1
unfolding send_query
send_query-FromRadios F env w t q (false, out) f = tt
send_query-FromRadios F env w t q (true, untouched) f = tt
send_query-FromRadios F env w t q (true, text url) f = (f.0, f.1, f.2, tt)

module _ {F : Type 0} where
  create_query-Fits : (w t : Bool) (p : Provider F) → Fits t w (create_query w t p).1
  unfolding create_query
  create_query-Fits false false p = tt
  create_query-Fits false true p = query_of-Fits true false _ none (λ e. cc) (λ e. refl)
  create_query-Fits true false p = query_of-Fits false true none _ (λ e. refl) (λ e. cc)
  create_query-Fits true true p = query_of-Fits true true _ _ (λ e. cc) (λ e. cc)

  off_posts_nothing :
      (env : Env) (w t : Bool) (p : Provider F)
      → w ≡ false
      → t ≡ false
      → (post_created env (create_query w t p)).2 ≡ []
  unfolding post_created create_query
  off_posts_nothing env false false p e f = refl
  off_posts_nothing env true t p e f = cc
  off_posts_nothing env false true p e f = cc

  post_created-FromRadios :
      (env : Env) (w t : Bool) (r : Provider F × Option Query)
      → Fits t w r.1
      → FromRadios t w (post_created env r).2
  unfolding post_created network_post_query
  post_created-FromRadios env w t (p, none) f = tt
  post_created-FromRadios env w t (p, some q) f = send_query-FromRadios F env w t q _ f

  -- A query that is posted has cell towers or access points, cell towers only while telephony is
  -- powered, and access points only while WiFi is on; with both off nothing is posted.
  pub trigger_post_query_radios :
      (env : Env) (p : Provider F)
      → FromRadios p.telephony_powered p.wifi_status (trigger_post_query env p).2
        × (p.telephony_powered ≡ false → p.wifi_status ≡ false → (trigger_post_query env p).2 ≡ [])
  unfolding trigger_post_query
  trigger_post_query_radios env p = (
    post_created-FromRadios env p.wifi_status p.telephony_powered _
        (create_query-Fits p.wifi_status p.telephony_powered p),
    λ t w. off_posts_nothing env p.wifi_status p.telephony_powered p w t,
  )
