-- ===== src/MapServices/Features.antt =====
-- What is supported once the configuration is read: WSPConfigurationFileParser.cpp against a
-- description by the list of services.
mod Names
pub mod Urls
use mathlib.Core.Path.{subst}
use com_webos_service_locati.Base.{
  ◌≡◌, refl, sym, ap, ◌∙◌, Bool, true, false, ◌||◌, Option, none, some, String, List, [], ◌∷◌,
  if◌then◌else◌, arith, Option-cases, Bool-cases, inl, inr,
}
use text.Mathlib.Text.{◌==◌ as str_eq}
use text.Mathlib.TextEquality.{eq_iff}
use com_webos_service_locati.MapServices.Wsp.{
  FeatureType, geo_code, reverse_geocode, search, timezone, distance, no_feature_supported, max,
  same_feature, WspConfStateCode, conf_success, Items, ServiceEntry, Root, WspConf, insert, url_at,
  add_features, listed_features, add_service, add_services, register_features, feature_of, name_at,
  is_supported, get_url, parse_services, parse_key, parse_file, is_empty, empty_conf,
}
use com_webos_service_locati.MapServices.Features.Urls.{
  is_some, last_url, look, add_services-look, url_at-look,
}
use com_webos_service_locati.MapServices.Features.Names.{
  feature_of-name, name_at-look, name-is_empty,
}

abbrev pub services_of : Root → List ServiceEntry
services_of r = elim r.services [ some (some ss) ↦ ss | _ ↦ [] ]

-- The url that is used for a feature, if it is supported.
abbrev pub served : FeatureType → WspConf → Option String
served f c = if is_supported f c then some (get_url f c) else none

served_by :
    (n : String) (f : FeatureType) (c : WspConf) (o : Option String)
    → name_at f c.supported ≡ (if is_some o then n else "")
    → is_empty n ≡ false
    → look n c.urls ≡ o
    → served f c ≡ o
unfolding is_supported get_url
served_by n f c none at full l = rw at refl
served_by n f c (some u) at full l = rw at (rw full (ap some (url_at-look n c.urls u l)))

filled_serves :
    (n : String) (f : FeatureType) (c : WspConf)
    → feature_of n ≡ some f
    → c.supported ≡ register_features c.urls
    → served f c ≡ look n c.urls
filled_serves n f c e reg =
    served_by n f c (look n c.urls) (ap (name_at f) reg ∙ name_at-look n f c.urls e)
      (ap is_empty (feature_of-name n f e) ∙ name-is_empty f) refl

after_services :
    (n : String) (f : FeatureType) (c c' : WspConf) (code : WspConfStateCode)
    (urls : List (String × String))
    → feature_of n ≡ some f
    → (elim code as (λ x. WspConfStateCode × WspConf) [
      | conf_success ↦ (conf_success, record c { urls = urls; supported = register_features urls })
      | e ↦ (e, record c { urls = urls })
    ])
      ≡ (conf_success, c')
    → (code ≡ conf_success) × (served f c' ≡ look n urls)
after_services n f c c' conf_success urls e h =
    let filled = record c { urls = urls; supported = register_features urls } in
    (
      refl,
      subst (λ x. served f x ≡ look n urls) (ap (λ p. p.1) h) (filled_serves n f filled e refl),
    )
after_services n f c c' _ urls e h = absurd (ground arith)

services_serve :
    (n : String) (f : FeatureType) (services : Option (Items ServiceEntry)) (c c' : WspConf)
    → feature_of n ≡ some f
    → c.urls ≡ []
    → parse_services services c ≡ (conf_success, c')
    → served f c' ≡ last_url n (elim services [ some (some ss) ↦ ss | _ ↦ [] ]) none
unfolding parse_services
services_serve n f none c c' e empty h = absurd (ground arith)
services_serve n f (some none) c c' e empty h = absurd (ground arith)
services_serve n f (some (some [])) c c' e empty h = absurd (ground arith)
services_serve n f (some (some (s ∷ ss))) c c' e empty h =
    let r = add_services (s ∷ ss) c.urls in
    let (ok, serves) = after_services n f c c' r.0 r.1 e h in
    serves
    ∙ add_services-look n (s ∷ ss) c.urls r.1 (ap (λ x. (x, r.1)) ok)
    ∙ ap (λ m. last_url n (s ∷ ss) (look n m)) empty

key_serves :
    (n : String) (f : FeatureType) (r : Root) (key : Option String) (c c' : WspConf)
    → feature_of n ≡ some f
    → c.urls ≡ []
    → parse_key (record r { api_key = key }) c ≡ (conf_success, c')
    → served f c' ≡ last_url n (services_of r) none
unfolding parse_key
key_serves n f r none c c' e empty h = absurd (ground arith)
key_serves n f r (some k) c c' e empty h = elim (Bool-cases (is_empty k)) [
  | inl q ↦ absurd (ground arith)
  | inr q ↦ services_serve n f r.services (record c { key = k }) c' e empty (ground arith)
]

named_serves :
    (n : String) (f : FeatureType) (r : Root) (name : Option String) (c : WspConf)
    → feature_of n ≡ some f
    → parse_file (some (record r { wps_name = name })) ≡ (conf_success, c)
    → served f c ≡ last_url n (services_of r) none
unfolding parse_file
named_serves n f r none c e h = absurd (ground arith)
named_serves n f r (some w) c e h = elim (Bool-cases (is_empty w)) [
  | inl q ↦ absurd (ground arith)
  | inr q ↦
      key_serves n f (record r { wps_name = some w }) r.api_key (record empty_conf { wsp_name = w })
        c e refl (ground arith)
]

-- A file that is accepted supports a feature that the service knows exactly where some service of
-- the file lists its name, with the url of the last one that does.
pub parse_file-serves :
    (n : String) (f : FeatureType) (r : Root) (c : WspConf)
    → feature_of n ≡ some f
    → parse_file (some r) ≡ (conf_success, c)
    → served f c ≡ last_url n (services_of r) none
unfolding parse_file
parse_file-serves n f r c e h = named_serves n f r r.wps_name c e h
