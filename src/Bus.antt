-- ===== src/Bus.antt =====
-- The subscription lists of luna-service2, which the service uses through LSSubscriptionAdd,
-- LSSubscriptionAcquire and its iterator, and LSSubscriptionRemove. They are no part of the
-- repository: a record of operations, with what their documentation says of them. A message is
-- named by a number. Keys are those of include/ServiceAgent.h.
use com_webos_service_locati.Base.{
  ℕ, ◌≡◌, refl, Bool, true, false, String, List, [], ◌∷◌, ◌++◌, ◌==◌, if◌then◌else◌,
}
use text.Mathlib.Text.{◌==◌ as str_eq}
use text.Mathlib.TextEquality.{eq_iff}

-- The keys that the service compares with, and any other.
pub data Key : Type 0 where
  nmea_data satellite_data gps_updates nw_updates hybrid_updates passive_updates : Key
  named : String → Key

abbrev pub same_key : Key → Key → Bool
same_key nmea_data nmea_data = true
same_key satellite_data satellite_data = true
same_key gps_updates gps_updates = true
same_key nw_updates nw_updates = true
same_key hybrid_updates hybrid_updates = true
same_key passive_updates passive_updates = true
same_key (named a) (named b) = str_eq a b
same_key _ _ = false

abbrev pub without : ℕ → List ℕ → List ℕ
without m [] = []
without m (n ∷ ns) = if n == m then without m ns else n ∷ without m ns

pub record Subscriptions : Type 1 where
  pub Lists : Type 0
  -- The messages that an iterator over a key's list yields, in order.
  pub messages : Lists → Key → List ℕ
  -- Whether LSSubscriptionAcquire gives an iterator.
  pub acquires : Lists → Key → Bool
  pub add : Lists → Key → ℕ → Lists
  pub remove : Lists → Key → ℕ → Lists
  -- A message is added at the end of its list, and is removed from its list.
  pub messages_add :
      (l : Lists) (k j : Key) (m : ℕ)
      → messages (add l k m) j ≡ (if same_key k j then messages l j ++ m ∷ [] else messages l j)
  pub messages_remove :
      (l : Lists) (k j : Key) (m : ℕ)
      → messages (remove l k m) j
        ≡ (if same_key k j then without m (messages l j) else messages l j)
  pub acquires_remove : (l : Lists) (k j : Key) (m : ℕ) → acquires (remove l k m) j ≡ acquires l j

-- Lists as functions of the key, to run the service on.
abbrev pub plain : Subscriptions
plain = record {
  Lists = Key → List ℕ;
  messages = λ l k. l k;
  acquires = λ l k. true;
  add = λ l k m j. if same_key k j then l j ++ m ∷ [] else l j;
  remove = λ l k m j. if same_key k j then without m (l j) else l j;
  messages_add = λ l k j m. refl;
  messages_remove = λ l k j m. refl;
  acquires_remove = λ l k j m. refl;
}

pub same_key_refl : (k : Key) → same_key k k ≡ true
same_key_refl nmea_data = refl
same_key_refl satellite_data = refl
same_key_refl gps_updates = refl
same_key_refl nw_updates = refl
same_key_refl hybrid_updates = refl
same_key_refl passive_updates = refl
same_key_refl (named a) = (eq_iff a a).1 refl
