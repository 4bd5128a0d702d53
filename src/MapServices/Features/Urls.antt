-- ===== src/MapServices/Features/Urls.antt =====
-- The url of a feature name after the services of a configuration file are read
-- (WSPConfigurationFileParser.cpp).
use com_webos_service_locati.Base.{
  ◌≡◌, refl, ap, ◌∙◌, Bool, true, false, ◌||◌, Option, none, some, String, List, [], ◌∷◌,
  if◌then◌else◌, arith,
}
use text.Mathlib.Text.{◌==◌ as str_eq}
use text.Mathlib.TextEquality.{eq_iff}
use com_webos_service_locati.MapServices.Wsp.{
  WspConfStateCode, conf_success, Items, ServiceEntry, insert, url_at, add_features,
  listed_features, add_service, add_services,
}

-- The url of the last service that lists a name, after `acc`.
abbrev lists : String → List String → Bool
lists n [] = false
lists n (f ∷ fs) = str_eq f n || lists n fs

abbrev listed : String → Option (Items String) → Bool
listed n (some (some fs)) = lists n fs
listed n _ = false

abbrev pub last_url : String → List ServiceEntry → Option String → Option String
last_url n [] acc = acc
last_url n (s ∷ ss) acc = last_url n ss (if listed n s.features then s.service_url else acc)

abbrev pub is_some : Option String → Bool
is_some none = false
is_some (some s) = true

abbrev pub look : String → List (String × String) → Option String
look n [] = none
look n ((j, w) ∷ m) = if str_eq j n then some w else look n m

look-insert :
    (n k v : String) (m : List (String × String))
    → look n (insert k v m) ≡ (if str_eq k n then some v else look n m)
unfolding insert
look-insert n k v [] = refl
look-insert n k v ((j, w) ∷ m) =
    ground (arith, eq_iff k n, eq_iff j k, eq_iff j n, look-insert n k v m)

add_features-look :
    (n url : String) (fs : List String) (m m' : List (String × String))
    → add_features url fs m ≡ (conf_success, m')
    → look n m' ≡ (if lists n fs then some url else look n m)
unfolding add_features
add_features-look n url [] m m' h = ground arith
add_features-look n url (f ∷ fs) m m' h =
    ground (arith, look-insert n f url m, add_features-look n url fs (insert f url m) m')

with_url-look :
    (n : String) (url : Option String) (fs : Option (Items String)) (m m' : List (String × String))
    → add_service (record { service_url = url; features = fs }) m ≡ (conf_success, m')
    → look n m' ≡ (if listed n fs then url else look n m)
unfolding add_service listed_features
with_url-look n none fs m m' h = absurd (ground arith)
with_url-look n (some url) none m m' h = absurd (ground arith)
with_url-look n (some url) (some none) m m' h = absurd (ground arith)
with_url-look n (some url) (some (some [])) m m' h = absurd (ground arith)
with_url-look n (some url) (some (some (f ∷ fs))) m m' h =
    ground (arith, add_features-look n url (f ∷ fs) m m')

after_service :
    (n : String) (ss : List ServiceEntry) (code : WspConfStateCode) (m1 m' : List (String × String))
    (acc : Option String)
    → (elim code as (λ x. WspConfStateCode × List (String × String)) [
      | conf_success ↦ add_services ss m1
      | e ↦ (e, m1)
    ])
      ≡ (conf_success, m')
    → ((c : code ≡ conf_success) → look n m1 ≡ acc)
    → (add_services ss m1 ≡ (conf_success, m') → look n m' ≡ last_url n ss (look n m1))
    → look n m' ≡ last_url n ss acc
after_service n ss conf_success m1 m' acc h found ih = ih h ∙ ap (last_url n ss) (found refl)
after_service n ss _ m1 m' acc h found ih = absurd (ground arith)

pub add_services-look :
    (n : String) (ss : List ServiceEntry) (m m' : List (String × String))
    → add_services ss m ≡ (conf_success, m')
    → look n m' ≡ last_url n ss (look n m)
unfolding add_services
add_services-look n [] m m' h = ground arith
add_services-look n (s ∷ ss) m m' h =
    let r = add_service s m in
    after_service n ss r.0 r.1 m' _ h
      (λ c. with_url-look n s.service_url s.features m r.1 (ap (λ x. (x, r.1)) c))
      (add_services-look n ss r.1 m')

pub url_at-look :
    (n : String) (m : List (String × String)) (u : String) → look n m ≡ some u → url_at n m ≡ u
unfolding url_at
url_at-look n [] u h = absurd (ground arith)
url_at-look n ((j, w) ∷ m) u h = ground (arith, url_at-look n m u)
