-- ===== src/Updates/State/Loaded.antt =====
-- The states of the handlers and the settings (src/lunaIpc/LocationService.cpp).
use mathlib.Core.Path.{subst}
use com_webos_service_locati.Base.{
  ℕ, ◌≡◌, refl, sym, ap, ◌∙◌, ◌⊎◌, inl, inr, Bool, true, false, not, Option, none, some, List,
  codes, Bool-cases, if◌then◌else◌, arith,
}
use com_webos_service_locati.Base.Int.{ℤ, pos, eq_ℤ}
use com_webos_service_locati.Bus.{Subscriptions}
use com_webos_service_locati.Gps.Extra.{same_text}
use com_webos_service_locati.Gps.Extra.Texts.{same_text_eq}
use com_webos_service_locati.Updates.Criteria.{Geometry}
use com_webos_service_locati.Updates.Service.{Messages, Service}
use com_webos_service_locati.Updates.Notices.{handler_gps, handler_network}
use com_webos_service_locati.Updates.State.{
  Prefs, bool_value, or_disabled, load_handler_status, set_state, with_key, turn, turn_gps,
  turn_network, build_get_state_subscription_key, max_getstate_param,
}
use com_webos_service_locati.Updates.State.Kept.{Kept, error-Kept, all_off-Kept}
use com_webos_service_locati.Wake.{Call}

-- The two states are what loadHandlerStatus would load.
pub record IsLoaded (prefs : Prefs) {F : Type 0} {L : Type 0} (s : Service F L) (p : prefs.Store)
    : Type 0 where
  pub gps_loaded : s.gps_status ≡ load_handler_status prefs true p (codes "gps")
  pub nw_loaded : s.nw_status ≡ load_handler_status prefs true p (codes "network")

is_on : Option ℤ → Bool
is_on o = not (eq_ℤ (or_disabled o) (pos 0))

is_on-if :
    (c b : Bool) (o : Option ℤ)
    → is_on (if c then some (bool_value b) else o) ≡ (if c then b else is_on o)
unfolding is_on
is_on-if true true o = refl
is_on-if true false o = refl
is_on-if false b o = refl

-- What is loaded after a write.
written :
    (prefs : Prefs) (p : prefs.Store) (h j : List ℕ) (b : Bool)
    → load_handler_status prefs true (prefs.set p h (bool_value b)) j
      ≡ (if same_text h j then b else load_handler_status prefs true p j)
unfolding is_on is_on-if
written prefs p h j b =
    ap is_on (prefs.get_set p h j (bool_value b)) ∙ is_on-if (same_text h j) b (prefs.get p j)

-- What a request does to the two states, and what it writes.
pub record IsTurned {F : Type 0} {L : Type 0} (h : List ℕ) (b : Bool) (s s' : Service F L)
    : Type 0 where
  pub gps_turned : s'.gps_status ≡ (if same_text h (codes "gps") then b else s.gps_status)
  pub nw_turned : s'.nw_status ≡ (if same_text h (codes "network") then b else s.nw_status)

IsTurned-IsLoaded :
    (prefs : Prefs) (p : prefs.Store) {F : Type 0} {L : Type 0} (h : List ℕ) (b : Bool)
    (s s' : Service F L)
    → IsTurned h b s s'
    → IsLoaded prefs s p
    → IsLoaded prefs s' (prefs.set p h (bool_value b))
IsTurned-IsLoaded prefs p h b s s' t l = record {
  gps_loaded =
      t.gps_turned
      ∙ ap (λ x. if same_text h (codes "gps") then b else x) l.gps_loaded
      ∙ sym (written prefs p h (codes "gps") b);
  nw_loaded =
      t.nw_turned
      ∙ ap (λ x. if same_text h (codes "network") then b else x) l.nw_loaded
      ∙ sym (written prefs p h (codes "network") b);
}

-- Where the settings have the value already, they need not be written.
same_loaded :
    (prefs : Prefs) (p : prefs.Store) (h j : List ℕ) (b : Bool)
    → load_handler_status prefs true p h ≡ b
    → (if same_text h j then b else load_handler_status prefs true p j)
      ≡ load_handler_status prefs true p j
same_loaded prefs p h j b e = elim (Bool-cases (same_text h j)) [
  | inl q ↦ rw q (sym e ∙ ap (load_handler_status prefs true p) (same_text_eq h j q))
  | inr q ↦ rw q refl
]

IsTurned-unwritten :
    (prefs : Prefs) (p : prefs.Store) {F : Type 0} {L : Type 0} (h : List ℕ) (b : Bool)
    (s s' : Service F L)
    → IsTurned h b s s'
    → IsLoaded prefs s p
    → load_handler_status prefs true p h ≡ b
    → IsLoaded prefs s' p
IsTurned-unwritten prefs p h b s s' t l e = record {
  gps_loaded =
      t.gps_turned
      ∙ ap (λ x. if same_text h (codes "gps") then b else x) l.gps_loaded
      ∙ same_loaded prefs p h (codes "gps") b e;
  nw_loaded =
      t.nw_turned
      ∙ ap (λ x. if same_text h (codes "network") then b else x) l.nw_loaded
      ∙ same_loaded prefs p h (codes "network") b e;
}

module _ {F : Type 0} (subs : Subscriptions) (msgs : Messages) (accepts : Call → Bool)
    (geo : Geometry F) (clock : ℕ → ℤ) where
  gps-turned :
      (key : List ℕ) (b : Bool) (s : Service F subs.Lists)
      → let s' = (turn subs msgs accepts geo clock (codes "gps") key b s).0 in
        (s'.gps_status ≡ b) × (s'.nw_status ≡ s.nw_status)
  unfolding turn turn_gps same_text
  gps-turned key b s =
      ground
        (arith, error-Kept subs msgs accepts geo clock handler_gps (record s { gps_status = b }))

  network-turned :
      (key : List ℕ) (b : Bool) (s : Service F subs.Lists)
      → let s' = (turn subs msgs accepts geo clock (codes "network") key b s).0 in
        (s'.gps_status ≡ s.gps_status) × (s'.nw_status ≡ b)
  unfolding turn turn_network same_text
  network-turned key b s =
      ground
        (arith, error-Kept subs msgs accepts geo clock handler_network (record s { nw_status = b }))

  other-turned :
      (h key : List ℕ) (b : Bool) (s : Service F subs.Lists)
      → same_text h (codes "gps") ≡ false
      → same_text h (codes "network") ≡ false
      → Kept s (turn subs msgs accepts geo clock h key b s).0
  unfolding turn
  other-turned h key b s g n = ground arith

  key-Kept :
      (m : ℕ) (h key : List ℕ) (b : Bool) (s : Service F subs.Lists)
      → Kept
          (turn subs msgs accepts geo clock h key b s).0
          (with_key subs msgs accepts geo clock m h (some key) b s).0
  unfolding with_key
  key-Kept m h key b s =
      all_off-Kept subs msgs accepts geo clock (turn subs msgs accepts geo clock h key b s).0

  gps-IsTurned :
      (m : ℕ) (b : Bool) (s : Service F subs.Lists)
      → let key = codes "gpsgetState" in
        IsTurned
          (codes "gps")
          b
          s
          (with_key subs msgs accepts geo clock m (codes "gps") (some key) b s).0
  unfolding same_text
  gps-IsTurned m b s =
      let key = codes "gpsgetState" in
      let k = key-Kept m (codes "gps") key b s in
      let t = gps-turned key b s in
      record { gps_turned = k.gps_kept ∙ t.0; nw_turned = k.nw_kept ∙ t.1 }

  network-IsTurned :
      (m : ℕ) (b : Bool) (s : Service F subs.Lists)
      → let key = codes "networkgetState" in
        IsTurned
          (codes "network")
          b
          s
          (with_key subs msgs accepts geo clock m (codes "network") (some key) b s).0
  unfolding same_text
  network-IsTurned m b s =
      let key = codes "networkgetState" in
      let k = key-Kept m (codes "network") key b s in
      let t = network-turned key b s in
      record { gps_turned = k.gps_kept ∙ t.0; nw_turned = k.nw_kept ∙ t.1 }

  other-Kept :
      (m : ℕ) (h : List ℕ) (o : Option (List ℕ)) (b : Bool) (s : Service F subs.Lists)
      → same_text h (codes "gps") ≡ false
      → same_text h (codes "network") ≡ false
      → Kept s (with_key subs msgs accepts geo clock m h o b s).0
  unfolding with_key
  other-Kept m h none b s g n = record { gps_kept = refl; nw_kept = refl }
  other-Kept m h (some key) b s g n =
      let k = key-Kept m h key b s in
      let t = other-turned h key b s g n in
      record { gps_kept = k.gps_kept ∙ t.gps_kept; nw_kept = k.nw_kept ∙ t.nw_kept }

  Turns : ℕ → Bool → Service F subs.Lists → List ℕ → Type 0
  Turns m b s h =
      let key = build_get_state_subscription_key max_getstate_param h in
      IsTurned h b s (with_key subs msgs accepts geo clock m h key b s).0

  pub with_key-IsTurned :
      (m : ℕ) (h : List ℕ) (b : Bool) (s : Service F subs.Lists)
      → let key = build_get_state_subscription_key max_getstate_param h in
        IsTurned h b s (with_key subs msgs accepts geo clock m h key b s).0
  unfolding Turns
  with_key-IsTurned m h b s = elim (Bool-cases (same_text h (codes "gps"))) [
    | inl e ↦ subst (Turns m b s) (sym (same_text_eq h (codes "gps") e)) (gps-IsTurned m b s)
    | inr g ↦ elim (Bool-cases (same_text h (codes "network"))) [
      | inl e ↦
          subst (Turns m b s) (sym (same_text_eq h (codes "network") e)) (network-IsTurned m b s)
      | inr n ↦
          let k = other-Kept m h (build_get_state_subscription_key max_getstate_param h) b s g n in
          record {
            gps_turned = k.gps_kept ∙ ap (λ c. if c then b else s.gps_status) (sym g);
            nw_turned = k.nw_kept ∙ ap (λ c. if c then b else s.nw_status) (sym n);
          }
    ]
  ]

  -- setState keeps the two states and the settings in step, whatever handler is named, whether or
  -- not the settings open, and whether or not the key of its subscribers fits, if the value is written
  -- or is what the settings have for that handler already.
  pub set_state-IsLoaded :
      (prefs : Prefs) (opens writes : Bool) (m : ℕ) (h : List ℕ) (b : Bool)
      (s : Service F subs.Lists) (p : prefs.Store)
      → IsLoaded prefs s p
      → (writes ≡ true) ⊎ (load_handler_status prefs true p h ≡ b)
      → let after =
          (set_state subs msgs accepts geo clock prefs opens writes m (some h) b (s, p)).0 in
        IsLoaded prefs after.0 after.1
  unfolding set_state Turns
  set_state-IsLoaded prefs false writes m h b s p l c = l
  set_state-IsLoaded prefs true true m h b s p l c =
      IsTurned-IsLoaded prefs p h b s
        (with_key subs msgs accepts geo clock m h
          (build_get_state_subscription_key max_getstate_param h) b s).0
        (with_key-IsTurned m h b s) l
  set_state-IsLoaded prefs true false m h b s p l (inl w) = absurd (ground arith)
  set_state-IsLoaded prefs true false m h b s p l (inr e) =
      IsTurned-unwritten prefs p h b s
        (with_key subs msgs accepts geo clock m h
          (build_get_state_subscription_key max_getstate_param h) b s).0
        (with_key-IsTurned m h b s) l e
