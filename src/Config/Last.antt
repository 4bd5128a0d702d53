-- ===== src/Config/Last.antt =====
-- Which line of the file an entry takes its value from (gps_read_conf of
-- src/handler/position/gps/gps_cfg.cpp).
use com_webos_service_locati.Base.{
  ℕ, ◌≡◌, refl, Bool, true, Option, none, some, List, [], ◌∷◌, map, if◌then◌else◌, arith,
  Bool-cases, Option-cases, inl, inr, ◌∙◌, ap, sym,
}
use com_webos_service_locati.Config.{
  Entry, ConfigValue, Numbers, str_eq, config_value, gps_set_config_entry, gps_read_conf,
  set_by_type, read_lines, lines, clear, set_all, put_flag,
}

flag_again : (o : Option Bool) → put_flag true (put_flag true o) ≡ put_flag true o
flag_again none = refl
flag_again (some b) = refl

module _ {F : Type 0} where
  by_type_again :
      (e : Entry F) (v w : ConfigValue F) → set_by_type (set_by_type e v) w ≡ set_by_type e w
  unfolding set_by_type
  by_type_again e v w = ground (arith, flag_again e.param_set)

  by_type-kept :
      (e : Entry F) (v : ConfigValue F)
      → ((set_by_type e v).param_name ≡ e.param_name) × ((set_by_type e v).has_ptr ≡ e.has_ptr)
  unfolding set_by_type
  by_type-kept e v = ground arith

  set_name :
      (e : Entry F) (v : ConfigValue F) → (gps_set_config_entry e v).param_name ≡ e.param_name
  unfolding gps_set_config_entry
  set_name e v = ground (arith, by_type-kept e v)

  -- A later line that names the entry overwrites an earlier one.
  set_again :
      (e : Entry F) (v w : ConfigValue F)
      → str_eq e.param_name w.param_name ≡ true
      → gps_set_config_entry (gps_set_config_entry e v) w ≡ gps_set_config_entry e w
  unfolding gps_set_config_entry
  set_again e v w same = ground (arith, by_type-kept e v, by_type_again e v w)

  abbrev pub named : List ℕ → Option (ConfigValue F) → Option (ConfigValue F)
  named name none = none
  named name (some v) = if str_eq name v.param_name then some v else none

  abbrev pub or_earlier : Option (ConfigValue F) → Option (ConfigValue F) → Option (ConfigValue F)
  or_earlier v none = v
  or_earlier v (some w) = some w

  -- The value of the last line that names the entry.
  abbrev pub last_named : Numbers F → List ℕ → List (List ℕ) → Option (ConfigValue F)
  last_named n name [] = none
  last_named n name (l ∷ ls) = or_earlier (named name (config_value n l)) (last_named n name ls)

  abbrev pub set_last : Entry F → Option (ConfigValue F) → Entry F
  set_last e none = e
  set_last e (some v) = gps_set_config_entry e v

  named-names :
      (name : List ℕ) (o : Option (ConfigValue F)) (w : ConfigValue F)
      → named name o ≡ some w
      → str_eq name w.param_name ≡ true
  named-names name none w h = cc
  named-names name (some v) w h = ground arith

  last-names :
      (n : Numbers F) (name : List ℕ) (ls : List (List ℕ)) (w : ConfigValue F)
      → last_named n name ls ≡ some w
      → str_eq name w.param_name ≡ true
  last-names n name [] w h = cc
  last-names n name (l ∷ ls) w h = elim (Option-cases (last_named n name ls)) [
    | inl e ↦
        named-names name (config_value n l) w
          (sym (ap (or_earlier (named name (config_value n l))) e) ∙ h)
    | inr (v, e) ↦ last-names n name ls w (ground (arith, e, h))
  ]

  abbrev set_one : Option (ConfigValue F) → Entry F → Entry F
  set_one none e = e
  set_one (some v) e = gps_set_config_entry e v

  abbrev read_one : Numbers F → List (List ℕ) → Entry F → Entry F
  read_one n [] e = e
  read_one n (l ∷ ls) e = read_one n ls (set_one (config_value n l) e)

  set_one-name :
      (o : Option (ConfigValue F)) (e : Entry F) → (set_one o e).param_name ≡ e.param_name
  set_one-name none e = refl
  set_one-name (some v) e = set_name e v

  unnamed :
      (o : Option (ConfigValue F)) (e : Entry F) → set_one o e ≡ set_last e (named e.param_name o)
  unfolding gps_set_config_entry
  unnamed none e = refl
  unnamed (some v) e = elim (Bool-cases (str_eq e.param_name v.param_name)) [
    | inl h ↦ rw h (rw h refl)
    | inr h ↦ rw h refl
  ]

  set_one_again :
      (o : Option (ConfigValue F)) (e : Entry F) (w : ConfigValue F)
      → str_eq e.param_name w.param_name ≡ true
      → gps_set_config_entry (set_one o e) w ≡ gps_set_config_entry e w
  set_one_again none e w h = refl
  set_one_again (some v) e w h = set_again e v w h

  read_one-last :
      (n : Numbers F) (ls : List (List ℕ)) (e : Entry F)
      → read_one n ls e ≡ set_last e (last_named n e.param_name ls)
  read_one-last n [] e = refl
  read_one-last n (l ∷ ls) e =
      let o = config_value n l in
      read_one-last n ls (set_one o e)
      ∙ rw (set_one-name o e) (elim (Option-cases (last_named n e.param_name ls)) [
        | inl h ↦ rw h (unnamed o e)
        | inr (w, h) ↦ rw h (set_one_again o e w (last-names n e.param_name ls w h))
      ])

  map_same : (table : List (Entry F)) → map (λ e. e) table ≡ table
  map_same [] = refl
  map_same (e ∷ es) = ap (λ t. e ∷ t) (map_same es)

  map_set :
      (n : Numbers F) (ls : List (List ℕ)) (o : Option (ConfigValue F)) (table : List (Entry F))
      → map (λ e. read_one n ls e) (set_all o table) ≡ map (λ e. read_one n ls (set_one o e)) table
  map_set n ls none table = refl
  map_set n ls (some v) [] = refl
  map_set n ls (some v) (e ∷ es) =
      ap (λ t. read_one n ls (gps_set_config_entry e v) ∷ t) (map_set n ls (some v) es)

  map_last :
      (n : Numbers F) (ls : List (List ℕ)) (table : List (Entry F))
      → map (λ e. read_one n ls e) (map clear table)
        ≡ map (λ e. set_last (clear e) (last_named n e.param_name ls)) table
  map_last n ls [] = refl
  map_last n ls (e ∷ es) = rw (read_one-last n ls (clear e), map_last n ls es) refl

  read_lines-map :
      (n : Numbers F) (ls : List (List ℕ)) (table : List (Entry F))
      → read_lines n ls table ≡ map (λ e. read_one n ls e) table
  unfolding read_lines
  read_lines-map n [] table = sym (map_same table)
  read_lines-map n (l ∷ ls) table = read_lines-map n ls _ ∙ map_set n ls (config_value n l) table

  -- Reading the file does to each entry, whatever its place in the table, what the last line that
  -- names it alone does to the cleared entry; an entry that no line names is only cleared.
  pub read_conf-last :
      (n : Numbers F) (file : List ℕ) (table : List (Entry F))
      → gps_read_conf n (some file) table
        ≡ map (λ e. set_last (clear e) (last_named n e.param_name (lines 79 [] file))) table
  unfolding gps_read_conf
  read_conf-last n file table =
      read_lines-map n (lines 79 [] file) (map clear table) ∙ map_last n (lines 79 [] file) table
