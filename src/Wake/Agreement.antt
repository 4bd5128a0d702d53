-- ===== src/Wake/Agreement.antt =====
-- What the monitor believes and what the sleep service was told (LifeCycleMonitor.cpp).
use com_webos_service_locati.Base.{
  ◌≡◌, refl, ap, ◌∙◌, Bool, false, none, some, List, [], ◌∷◌, if◌then◌else◌, arith,
}
use com_webos_service_locati.Wake.{
  Monitor, Call, identify, register_lock, set_lock, Event, wants, powerd, identified,
  lock_registered, step, run,
}

-- The lock as the sleep service has it: the last value that a call brought it, none at the start
-- of a connection.
module _ (accepts : Call → Bool) where
  abbrev pub told : Bool → List Call → Bool
  told b [] = b
  told b (set_lock id v ∷ cs) = told (if accepts (set_lock id v) then v else b) cs
  told b (identify ∷ cs) = told b cs
  told b (register_lock id ∷ cs) = told b cs

  -- A service that goes away forgets the lock.
  abbrev pub heard : Bool → Event → Bool
  heard b (powerd false) = false
  heard b _ = b

  abbrev pub world : Bool → Monitor → List Event → Bool
  world b m [] = b
  world b m (e ∷ es) = world (told (heard b e) (step accepts m e).1) (step accepts m e).0 es

  step-agrees :
      (m : Monitor) (e : Event)
      → (step accepts m e).0.lock_set ≡ told (heard m.lock_set e) (step accepts m e).1
  unfolding step
  step-agrees m (wants set force) = ground arith
  step-agrees m (powerd b) = ground arith
  step-agrees m (identified none) = refl
  step-agrees m (identified (some r)) = ground arith
  step-agrees m (lock_registered r) = ground arith

  run-world :
      (b : Bool) (m : Monitor) (es : List Event)
      → m.lock_set ≡ b
      → (run accepts m es).0.lock_set ≡ world b m es
  unfolding run
  run-world b m [] h = h
  run-world b m (e ∷ es) h =
      run-world (told (heard b e) (step accepts m e).1) (step accepts m e).0 es
        (step-agrees m e ∙ ap (λ c. told (heard c e) (step accepts m e).1) h)

  -- After any events, with calls that fail among them, `m_setWakeLock` is the lock as the sleep
  -- service has it, if it was so at the start.
  pub run-agrees :
      (m : Monitor) (es : List Event) → (run accepts m es).0.lock_set ≡ world m.lock_set m es
  run-agrees m es = run-world m.lock_set m es refl
