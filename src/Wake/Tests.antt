-- ===== src/Wake/Tests.antt =====
-- The theorems on the wake lock at concrete requests.
use com_webos_service_locati.Base.{◌≡◌, refl, Bool, true, false, some, List, [], ◌∷◌}
use com_webos_service_locati.Wake.{
  Monitor, Call, init, Event, wants, powerd, identified, lock_registered, run,
}
use com_webos_service_locati.Wake.Agreement.{run-agrees, world}
use com_webos_service_locati.Wake.Holders.{take, give, requests, Holds, requests-Holds}

abbrev all : Call → Bool
all c = true

abbrev ready : Monitor
ready = record init { has_service = true; registered = true }

requests-Holds_example : Holds 1 (requests all ready (take ∷ take ∷ give ∷ []))
requests-Holds_example =
    requests-Holds all (λ c. refl) 0 ready (take ∷ take ∷ give ∷ [])
      (record { is_registered = refl; counted = refl; locked = refl })

abbrev day : List Event
day =
    powerd true
    ∷ identified (some (record { subscribed = some true; client_id = some "location" }))
    ∷ lock_registered (some (some true))
    ∷ wants true false
    ∷ powerd false
    ∷ wants false false
    ∷ []

run-agrees_example : (run all init day).0.lock_set ≡ world all false init day
run-agrees_example = run-agrees all init day
