-- ===== src/Network/Backend/Url.antt =====
-- What buildGeolocateUrl accepts and writes (NetworkLocationBackend.cpp).
use com_webos_service_locati.Base.{
  ℕ, ◌<◌, ◌≡◌, refl, ap, ◌∙◌, ◌⊎◌, inl, inr, Bool, true, false, ◌&&◌, Option, none, some, List, [],
  ◌∷◌, ◌++◌, length, arith, Bool-cases, Option-cases, List-cases,
}
use com_webos_service_locati.Network.Backend.{
  is_key_char, is_space, find_slot, skip_spaces, drop_spaces, all_key_chars, text,
  build_geolocate_url,
}

abbrev pub all_spaces : List ℕ → Bool
all_spaces [] = true
all_spaces (c ∷ cs) = is_space c && all_spaces cs

key_char-not_space : (c : ℕ) → is_key_char c ≡ true → is_space c ≡ false
unfolding is_key_char is_space
key_char-not_space c h = ground arith

skip_spaces-append :
    (ws xs : List ℕ) → all_spaces ws ≡ true → skip_spaces (ws ++ xs) ≡ skip_spaces xs
unfolding skip_spaces
skip_spaces-append [] xs h = refl
skip_spaces-append (w ∷ ws) xs h = ground (arith, skip_spaces-append ws xs)

drop_spaces-all : (ws : List ℕ) → all_spaces ws ≡ true → drop_spaces ws ≡ []
unfolding drop_spaces
drop_spaces-all [] h = refl
drop_spaces-all (w ∷ ws) h = ground (arith, drop_spaces-all ws)

drop_spaces-key :
    (k ws : List ℕ) → all_key_chars k ≡ true → all_spaces ws ≡ true → drop_spaces (k ++ ws) ≡ k
unfolding drop_spaces all_key_chars
drop_spaces-key [] ws a h = drop_spaces-all ws h
drop_spaces-key (c ∷ []) ws a h = ground (arith, drop_spaces-all ws, key_char-not_space c)
drop_spaces-key (c ∷ d ∷ k) ws a h = ground (arith, drop_spaces-key (d ∷ k) ws)

skip_spaces-key : (c : ℕ) (k : List ℕ) → is_key_char c ≡ true → skip_spaces (c ∷ k) ≡ c ∷ k
unfolding skip_spaces
skip_spaces-key c k h = ground (arith, key_char-not_space c)

-- A key between white space is found.
trim-key :
    (ws : List ℕ) (c : ℕ) (k ws' : List ℕ)
    → all_spaces ws ≡ true
    → all_key_chars (c ∷ k) ≡ true
    → all_spaces ws' ≡ true
    → drop_spaces (skip_spaces (ws ++ ((c ∷ k) ++ ws'))) ≡ c ∷ k
unfolding all_key_chars
trim-key ws c k ws' h a h' =
    rw (skip_spaces-append ws (c ∷ (k ++ ws')) h)
      (rw (skip_spaces-key c (k ++ ws') (ground arith)) (drop_spaces-key (c ∷ k) ws' a h'))

-- The white space that a trim takes off.
skip_spaces-split :
    (xs : List ℕ) → (ws : List ℕ) × (all_spaces ws ≡ true) × (xs ≡ ws ++ skip_spaces xs)
unfolding skip_spaces
skip_spaces-split [] = ([], refl, refl)
skip_spaces-split (x ∷ xs) = elim (Bool-cases (is_space x)) [
  | inl s ↦
      let (ws, a, e) = skip_spaces-split xs in
      (x ∷ ws, ground arith, rw (s, skip_spaces) (ap (◌∷◌ x) e))
  | inr s ↦ ([], refl, rw (s, skip_spaces))
]

drop_spaces-split :
    (xs : List ℕ) → (ws : List ℕ) × (all_spaces ws ≡ true) × (xs ≡ drop_spaces xs ++ ws)
unfolding drop_spaces
drop_spaces-split [] = ([], refl, refl)
drop_spaces-split (x ∷ xs) =
    let (ws, a, e) = drop_spaces-split xs in
    elim (List-cases (drop_spaces xs)) [
      | inr (d, ds, f) ↦ (ws, a, rw (f, drop_spaces) (ap (◌∷◌ x) (e ∙ ap (λ l. l ++ ws) f)))
      | inl f ↦ elim (Bool-cases (is_space x)) [
        | inl t ↦ (
          x ∷ ws,
          ground arith,
          rw (f, drop_spaces) (rw (t, drop_spaces) (ap (◌∷◌ x) (e ∙ ap (λ l. l ++ ws) f))),
        )
        | inr t ↦ (
          ws,
          a,
          rw (f, drop_spaces) (rw (t, drop_spaces) (ap (◌∷◌ x) (e ∙ ap (λ l. l ++ ws) f))),
        )
      ]
    ]

-- A key as the configuration file gives it: white space round a word of key characters.
pub record IsKey (api_key : Option (List ℕ)) (key : List ℕ) : Type 0 where
  pub leading : List ℕ
  pub trailing : List ℕ
  pub given : api_key ≡ some (leading ++ (key ++ trailing))
  pub leading_spaces : all_spaces leading ≡ true
  pub trailing_spaces : all_spaces trailing ≡ true
  pub key_chars : all_key_chars key ≡ true
  pub not_empty : (key ≡ []) → ⊥

trim-IsKey :
    {api_key : Option (List ℕ)} {key : List ℕ} (k : IsKey api_key key)
    → drop_spaces (skip_spaces (k.leading ++ (key ++ k.trailing))) ≡ key
trim-IsKey {api_key} {key} k = elim (List-cases key) [
  | inl e ↦ absurd (k.not_empty e)
  | inr (c, r, e) ↦
      rw e
        (trim-key k.leading c r k.trailing k.leading_spaces (rw e at k.key_chars) k.trailing_spaces)
]

-- The addresses that a template and a key stand for.
abbrev pub Renders : List ℕ → Option (List ℕ) → List ℕ → Type 0
Renders template api_key url =
    ((find_slot template ≡ none) × (url ≡ template))
    ⊎ ((before behind key : List ℕ) × (find_slot template ≡ some (before, behind))
        × IsKey api_key key
        × (url ≡ before ++ (key ++ behind)))

module _ (template : List ℕ) (api_key : Option (List ℕ)) (size : ℕ) (url : List ℕ) where
  -- An address that is written fits the buffer with its terminator, and is the template itself, if
  -- it has no %s, or the template with the trimmed key in place of the first %s; the key is then
  -- there, not empty, and made of letters, digits, - and _ alone.
  pub build_geolocate_url_sound :
      build_geolocate_url (some template) api_key (some size) ≡ (true, text url)
      → (length url < size) × Renders template api_key url
  unfolding build_geolocate_url
  build_geolocate_url_sound h = elim (Option-cases (find_slot template)) [
    | inl e ↦ (ground arith, inl (e, ground arith))
    | inr ((before, behind), e) ↦ elim (Option-cases api_key) [
      | inl f ↦ absurd (ground arith)
      | inr (key, f) ↦
          let (ws, a, p) = skip_spaces-split key in
          let (ws', a', p') = drop_spaces-split (skip_spaces key) in
          (
            ground arith,
            inr (
              before,
              behind,
              drop_spaces (skip_spaces key),
              e,
              record {
                leading = ws;
                trailing = ws';
                given = f ∙ ap some (p ∙ ap (◌++◌ ws) p');
                leading_spaces = a;
                trailing_spaces = a';
                key_chars = ground arith;
                not_empty = λ z. ground (arith, ap length z);
              },
              ground arith,
            ),
          )
    ]
  ]

  -- Every such address that fits is written.
  pub build_geolocate_url_complete :
      length url < size
      → Renders template api_key url
      → build_geolocate_url (some template) api_key (some size) ≡ (true, text url)
  unfolding build_geolocate_url
  build_geolocate_url_complete fits (inl (e, same)) = ground arith
  build_geolocate_url_complete fits (inr (before, behind, key, e, k, same)) =
      ground (arith, trim-IsKey k)
