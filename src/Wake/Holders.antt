-- ===== src/Wake/Holders.antt =====
-- The wake lock counts its holders (LifeCycleMonitor::setWakeLock).
use com_webos_service_locati.Base.{ℕ, ◌+◌, ◌-◌, ◌≡◌, Bool, true, false, List, [], ◌∷◌, ltb, arith}
use com_webos_service_locati.Wake.{Monitor, Call, set_wake_lock}

-- A request of the service: take the lock, give it back, or drop it for all clients.
pub data Request : Type 0 where
  take give drop : Request

abbrev pub set_of : Request → Bool
set_of take = true
set_of give = false
set_of drop = false

abbrev pub force_of : Request → Bool
force_of take = false
force_of give = false
force_of drop = true

abbrev pub requests : (Call → Bool) → Monitor → List Request → Monitor
requests accepts m [] = m
requests accepts m (r ∷ rs) =
    requests accepts (set_wake_lock accepts m (set_of r) (force_of r)).0 rs

-- The specification: how many clients hold the lock.
abbrev pub holders : ℕ → List Request → ℕ
holders n [] = n
holders n (take ∷ rs) = holders (n + 1) rs
holders n (give ∷ rs) = holders (n - 1) rs
holders n (drop ∷ rs) = holders 0 rs

-- The lock is set exactly while somebody holds it.
pub record Holds (n : ℕ) (m : Monitor) : Type 0 where
  pub is_registered : m.registered ≡ true
  pub counted : m.refs ≡ n
  pub locked : m.lock_set ≡ ltb 0 n

abbrev after : ℕ → Request → ℕ
after n take = n + 1
after n give = n - 1
after n drop = 0

module _ (accepts : Call → Bool) (ok : (c : Call) → accepts c ≡ true) where
  set_wake_lock-Holds :
      (n : ℕ) (m : Monitor) (r : Request)
      → Holds n m
      → Holds (after n r) (set_wake_lock accepts m (set_of r) (force_of r)).0
  unfolding set_wake_lock
  set_wake_lock-Holds n m take h = ground (arith, ok (Call.set_lock m.monitor_id true))
  set_wake_lock-Holds n m give h = ground (arith, ok (Call.set_lock m.monitor_id false))
  set_wake_lock-Holds n m drop h = ground (arith, ok (Call.set_lock m.monitor_id false))

  -- While the bus accepts every call, a registered monitor that agrees with n holders agrees with
  -- the specification after any requests: its count is the number of holders, and the lock is set
  -- exactly while that is not 0.
  pub requests-Holds :
      (n : ℕ) (m : Monitor) (rs : List Request)
      → Holds n m
      → Holds (holders n rs) (requests accepts m rs)
  requests-Holds n m [] h = h
  requests-Holds n m (take ∷ rs) h = requests-Holds (n + 1) _ rs (set_wake_lock-Holds n m take h)
  requests-Holds n m (give ∷ rs) h = requests-Holds (n - 1) _ rs (set_wake_lock-Holds n m give h)
  requests-Holds n m (drop ∷ rs) h = requests-Holds 0 _ rs (set_wake_lock-Holds n m drop h)
