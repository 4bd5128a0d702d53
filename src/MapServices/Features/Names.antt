-- ===== src/MapServices/Features/Names.antt =====
-- The features by their names, and what is registered for the urls that were read
-- (WSPConfigurationFileParser.cpp).
use com_webos_service_locati.Base.{
  ◌≡◌, refl, sym, ap, ◌∙◌, false, none, some, String, List, [], ◌∷◌, if◌then◌else◌, arith,
  Option-cases, Bool-cases, inl, inr,
}
use text.Mathlib.Text.{◌==◌ as str_eq}
use text.Mathlib.TextEquality.{eq_iff}
use com_webos_service_locati.MapServices.Wsp.{
  FeatureType, geo_code, reverse_geocode, search, timezone, distance, no_feature_supported, max,
  same_feature, register_features, feature_of, name_at, is_empty,
}
use com_webos_service_locati.MapServices.Features.Urls.{is_some, look}

pub name_of : FeatureType → String
name_of geo_code = "geocode"
name_of reverse_geocode = "reverseGeocode"
name_of search = "search"
name_of timezone = "timezone"
name_of distance = "distance"
name_of no_feature_supported = "-"
name_of max = "max"

pub feature_of-name : (j : String) (g : FeatureType) → feature_of j ≡ some g → j ≡ name_of g
unfolding feature_of name_of
feature_of-name j g h = ground (
  arith,
  eq_iff j "geocode",
  eq_iff j "reverseGeocode",
  eq_iff j "search",
  eq_iff j "timezone",
  eq_iff j "distance",
)

same_feature-name : (g f : FeatureType) → same_feature g f ≡ str_eq (name_of g) (name_of f)
unfolding same_feature name_of
same_feature-name geo_code geo_code = refl
same_feature-name reverse_geocode reverse_geocode = refl
same_feature-name search search = refl
same_feature-name timezone timezone = refl
same_feature-name distance distance = refl
same_feature-name no_feature_supported no_feature_supported = refl
same_feature-name max max = refl
same_feature-name _ _ = refl

none-ne-some : {f : FeatureType} → none ≡ some f → ⊥
none-ne-some h = cc

unknown-ne :
    (j n : String) (f : FeatureType)
    → feature_of j ≡ none
    → feature_of n ≡ some f
    → str_eq j n ≡ false
unknown-ne j n f h e = elim (Bool-cases (str_eq j n)) [
  | inl q ↦ absurd (none-ne-some (sym h ∙ ap feature_of ((eq_iff j n).0 q) ∙ e))
  | inr q ↦ q
]

same_name :
    (j n : String) (g f : FeatureType)
    → feature_of j ≡ some g
    → feature_of n ≡ some f
    → same_feature g f ≡ str_eq j n
same_name j n g f h e =
    same_feature-name g f
    ∙ ap (λ x. str_eq x (name_of f)) (sym (feature_of-name j g h))
    ∙ ap (str_eq j) (sym (feature_of-name n f e))

known-look :
    (n : String) (f : FeatureType) (j : String) (g : FeatureType) (w : String)
    (m : List (String × String))
    → same_feature g f ≡ str_eq j n
    → name_at f (register_features m) ≡ (if is_some (look n m) then n else "")
    → name_at f ((g, j) ∷ register_features m) ≡ (if is_some (look n ((j, w) ∷ m)) then n else "")
unfolding name_at
known-look n f j g w m same ih = ground (arith, eq_iff j n)

pub name_at-look :
    (n : String) (f : FeatureType) (m : List (String × String))
    → feature_of n ≡ some f
    → name_at f (register_features m) ≡ (if is_some (look n m) then n else "")
unfolding name_at register_features
name_at-look n f [] e = refl
name_at-look n f ((j, w) ∷ m) e = elim (Option-cases (feature_of j)) [
  | inl h ↦ rw (h, register_features) (rw (unknown-ne j n f h e) (name_at-look n f m e))
  | inr (g, h) ↦
      rw (h, register_features)
        (known-look n f j g w m (same_name j n g f h e) (name_at-look n f m e))
]

-- The name of a feature is no empty text.
pub name-is_empty : (f : FeatureType) → is_empty (name_of f) ≡ false
unfolding name_of
name-is_empty geo_code = refl
name-is_empty reverse_geocode = refl
name-is_empty search = refl
name-is_empty timezone = refl
name-is_empty distance = refl
name-is_empty no_feature_supported = refl
name-is_empty max = refl
