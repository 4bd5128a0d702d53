-- ===== src/Network/Provider/Chosen.antt =====
-- The choice of the geolocation server: getNetworkProvider and setNetworkProvider of
-- src/lunaIpc/LocationService.cpp on the `sBackend` of NetworkPositionProvider.cpp and the name in
-- luna-prefs. The schemas of the two methods are not modelled.
use com_webos_service_locati.Base.{
  ℕ, ◌≡◌, refl, sym, Bool, true, false, Option, none, some, List, [], ◌∷◌, arith,
}
use com_webos_service_locati.Network.Backend.{
  NetworkLocationBackend, parse_network_location_backend, network_location_backend_name,
}
use com_webos_service_locati.Network.Backend.Names.{parse-name}
use com_webos_service_locati.Network.Provider.{Provider, Env, current_backend, set_current_backend}

pub data ChoiceEffect : Type 0 where
  -- The provider, and "subscribed" where the reply has it.
  reply_provider : ℕ → NetworkLocationBackend → Option Bool → ChoiceEffect
  reply_unknown_error : ℕ → ChoiceEffect
  subscribe_provider : ℕ → ChoiceEffect
  tell_provider : NetworkLocationBackend → ChoiceEffect

module _ {F : Type 0} where
  -- `adds` is the result of LSSubscriptionAdd.
  unfoldable pub get_network_provider :
      Env → ℕ → Bool → Bool → Provider F → Provider F × List ChoiceEffect
  get_network_provider env m true false p = (p, subscribe_provider m ∷ reply_unknown_error m ∷ [])
  get_network_provider env m true true p =
      let (p', b) = current_backend env p in
      (p', subscribe_provider m ∷ reply_provider m b (some true) ∷ [])
  get_network_provider env m false adds p =
      let (p', b) = current_backend env p in (p', reply_provider m b (some false) ∷ [])

  -- `opens` and `writes` are the results of LPAppGetHandle and LPAppSetValueString; the name that is
  -- stored goes with the state.
  unfoldable pub set_network_provider :
      Bool
      → Bool
      → ℕ
      → Option (List ℕ)
      → Provider F × Option (List ℕ)
      → (Provider F × Option (List ℕ)) × List ChoiceEffect
  set_network_provider false writes m name (p, stored) = ((p, stored), reply_unknown_error m ∷ [])
  set_network_provider true false m name (p, stored) = ((p, stored), reply_unknown_error m ∷ [])
  set_network_provider true true m name (p, stored) =
      let b = parse_network_location_backend name in
      (
        (set_current_backend b p, some (network_location_backend_name b)),
        reply_provider m b none ∷ tell_provider b ∷ [],
      )

  -- What is kept in memory is what a new start would read.
  pub IsStored : Provider F → Option (List ℕ) → Type 0
  IsStored p stored = p.backend_loaded ≡ true → p.backend ≡ parse_network_location_backend stored

  -- A request to set the server keeps what is in memory and what is stored in step, on its errors
  -- too.
  pub set_network_provider-IsStored :
      (opens writes : Bool) (m : ℕ) (name : Option (List ℕ)) (p : Provider F)
      (stored : Option (List ℕ))
      → IsStored p stored
      → let after = (set_network_provider opens writes m name (p, stored)).0 in
        IsStored after.0 after.1
  unfolding set_network_provider IsStored set_current_backend
  set_network_provider-IsStored false writes m name p stored h = h
  set_network_provider-IsStored true false m name p stored h = h
  set_network_provider-IsStored true true m name p stored h =
      λ e. sym (parse-name (parse_network_location_backend name))

  -- The server that is asked is the one that the stored name says, whether or not it was read
  -- before.
  pub current_backend-stored :
      (env : Env) (p : Provider F)
      → IsStored p env.stored_backend
      → (current_backend env p).1 ≡ parse_network_location_backend env.stored_backend
  unfolding current_backend IsStored
  current_backend-stored env p h = ground arith

  -- The server that setNetworkProvider sets is the one that getNetworkProvider answers, until the
  -- service ends and after it has started again.
  pub get_network_provider-set :
      (env : Env) (m m' : ℕ) (name stored : Option (List ℕ)) (p fresh : Provider F)
      → let after = (set_network_provider true true m name (p, stored)).0 in
        let answer = reply_provider m' (parse_network_location_backend name) (some false) ∷ [] in
        env.stored_backend ≡ after.1
        → fresh.backend_loaded ≡ false
        → ((get_network_provider env m' false false after.0).1 ≡ answer)
          × ((get_network_provider env m' false false fresh).1 ≡ answer)
  unfolding set_network_provider get_network_provider set_current_backend current_backend
  get_network_provider-set env m m' name stored p fresh e f =
      let b = parse_network_location_backend name in (refl, ground (arith, parse-name b))
