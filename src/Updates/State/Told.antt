-- ===== src/Updates/State/Told.antt =====
-- The subscribers of getState and what setState tells them (src/lunaIpc/LocationService.cpp).
use com_webos_service_locati.Base.{
  ℕ, Bool, ◌&&◌, ◌||◌, Option, none, some, List, [], ◌∷◌, codes, if◌then◌else◌,
}
use com_webos_service_locati.Gps.Extra.{same_text}
use com_webos_service_locati.Updates.Service.{Service}
use com_webos_service_locati.Updates.State.{
  StateEffect, answer, answer_state, add_subscriber, tell_state, tell_handlers, effect, differs,
}

-- The states that the subscribers of a key are told.
abbrev pub news : {F : Type 0} → List ℕ → List (StateEffect F) → List Bool
news k [] = []
news k (tell_state k' b ∷ es) = if same_text k' k then b ∷ news k es else news k es
news k (answer m e ∷ es) = news k es
news k (answer_state m v ∷ es) = news k es
news k (add_subscriber k' m ∷ es) = news k es
news k (tell_handlers a b ∷ es) = news k es
news k (effect e ∷ es) = news k es

-- Whether a request changes the state of a handler.
abbrev changes : {F L : Type 0} → List ℕ → Bool → Service F L → Bool
changes h b s =
    same_text h (codes "gps") && differs s.gps_status b
    || same_text h (codes "network") && differs s.nw_status b

-- The state that the service holds of a handler: it holds those of two.
abbrev pub held : {F L : Type 0} → List ℕ → Service F L → Option Bool
held h s =
    if same_text h (codes "gps")
    then some s.gps_status
    else if same_text h (codes "network")
    then some s.nw_status
    else none

-- What there is to tell of a state before and after.
abbrev pub announced : Option Bool → Option Bool → List Bool
announced (some a) (some b) = if differs a b then b ∷ [] else []
announced _ _ = []
