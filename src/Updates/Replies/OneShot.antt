-- ===== src/Updates/Replies/OneShot.antt =====
-- What an error reply leaves of a subscription list (LSSubNonSubReplyLocUpdateCase with no
-- position).
use com_webos_service_locati.Base.{
  ℕ, ◌≡◌, refl, Bool, true, false, List, [], ◌∷◌, ◌==◌, if◌then◌else◌, arith, Option-cases, inl,
  inr,
}
use com_webos_service_locati.Bus.{without, Subscriptions}
use com_webos_service_locati.Updates.Replies.{any}
use com_webos_service_locati.Updates.Service.{Messages, Service, release_lock}
use com_webos_service_locati.Wake.{Call}

abbrev pub has : ℕ → List ℕ → Bool
has x ms = any (λ m. m == x) ms

pub any-without :
    (x m : ℕ) (ms : List ℕ) → has x (without m ms) ≡ (if m == x then false else has x ms)
any-without x m [] = ground arith
any-without x m (n ∷ ns) = ground (arith, any-without x m ns)

module _ {F : Type 0} (subs : Subscriptions) (msgs : Messages) (accepts : Call → Bool) where
  pub release_lists :
      (b : Bool) (s : Service F subs.Lists) → (release_lock accepts b s).0.lists ≡ s.lists
  release_lists false s = refl
  release_lists true s = elim (Option-cases s.monitor) [
    | inl e ↦ rw e refl
    | inr (m, e) ↦ rw e refl
  ]

  pub release_table :
      (b : Bool) (s : Service F subs.Lists) → (release_lock accepts b s).0.table ≡ s.table
  release_table false s = refl
  release_table true s = elim (Option-cases s.monitor) [
    | inl e ↦ rw e refl
    | inr (m, e) ↦ rw e refl
  ]
