-- ===== src/Config/Trimmed.antt =====
-- What trim_spaces leaves of a string (src/handler/position/gps/gps_cfg.cpp).
use com_webos_service_locati.Base.{
  ℕ, suc, ◌+◌, ◌≡◌, refl, ap, sym, ◌∙◌, Bool, true, false, ◌&&◌, Option, none, some, List, [], ◌∷◌,
  ◌++◌, length, take, length-append, if◌then◌else◌, arith, Bool-cases, List-cases, inl, inr,
}
use com_webos_service_locati.Config.{is_space, scan, cut, trim_spaces}

-- The specification: the spaces in front go, then those at the end.
abbrev without_leading : List ℕ → List ℕ
without_leading [] = []
without_leading (c ∷ cs) = if is_space c then without_leading cs else c ∷ cs

abbrev keep_end : ℕ → List ℕ → List ℕ
keep_end c [] = if is_space c then [] else c ∷ []
keep_end c (d ∷ ds) = c ∷ d ∷ ds

abbrev without_trailing : List ℕ → List ℕ
without_trailing [] = []
without_trailing (c ∷ cs) = keep_end c (without_trailing cs)

abbrev all_spaces : List ℕ → Bool
all_spaces [] = true
all_spaces (c ∷ cs) = is_space c && all_spaces cs

abbrev last_of : ℕ → List ℕ → Option ℕ → Option ℕ
last_of n [] last = last
last_of n (d ∷ ds) last = some (n + length (d ∷ ds))

append_nil : (xs : List ℕ) → xs ≡ xs ++ []
append_nil [] = refl
append_nil (x ∷ xs) = ap (λ t. x ∷ t) (append_nil xs)

append_assoc : (xs : List ℕ) (c : ℕ) (ys : List ℕ) → (xs ++ c ∷ []) ++ ys ≡ xs ++ c ∷ ys
append_assoc [] c ys = refl
append_assoc (x ∷ xs) c ys = ap (λ t. x ∷ t) (append_assoc xs c ys)

last_of-step :
    (c n : ℕ) (w t : List ℕ) (last : Option ℕ)
    → n ≡ length w + 1
    → last_of n t (if is_space c then last else some (length w + 1))
      ≡ last_of (length w) (keep_end c t) last
last_of-step c n w [] last h = elim (Bool-cases (is_space c)) [
  | inl e ↦ rw e refl
  | inr e ↦ rw e refl
]
last_of-step c n w (d ∷ ds) last h = ap some (omega (arith, h))

-- Behind the first byte that is no space everything is copied.
scan_found :
    (cs w : List ℕ) (last : Option ℕ)
    → scan cs true w last ≡ (w ++ cs, last_of (length w) (without_trailing cs) last)
unfolding scan
scan_found [] w last = ap (λ t. (t, last)) (append_nil w)
scan_found (c ∷ cs) w last =
    scan_found cs (w ++ c ∷ []) (if is_space c then last else some (length w + 1))
    ∙ rw
        (
          append_assoc w c cs,
          last_of-step c (length (w ++ c ∷ [])) w (without_trailing cs) last
              (length-append w (c ∷ [])),
        )
        refl

take_trailing : (cs : List ℕ) → take (length (without_trailing cs)) cs ≡ without_trailing cs
take_trailing [] = refl
take_trailing (c ∷ cs) = elim (List-cases (without_trailing cs)) [
  | inl e ↦ elim (Bool-cases (is_space c)) [ inl s ↦ rw (e, s) refl | inr s ↦ rw (e, s) refl ]
  | inr (d, ds, e) ↦
      rw e (ap (λ t. c ∷ t) ((sym (ap (λ t. take (length t) cs) e)) ∙ take_trailing cs ∙ e))
]

-- From the first byte that is no space.
cut_found :
    (s cs : List ℕ) (c : ℕ)
    → is_space c ≡ false
    → cut s (scan cs true (c ∷ []) (some 1)) ≡ without_trailing (c ∷ cs)
unfolding cut
cut_found s cs c h =
    ap (cut s) (scan_found cs (c ∷ []) (some 1)) ∙ elim (List-cases (without_trailing cs)) [
      | inl e ↦ rw (e, h) refl
      | inr (d, ds, e) ↦ rw e (
          let plus : 1 + suc (length ds) ≡ suc (suc (length ds)) = omega arith in
          rw plus (ap (λ t. c ∷ t) (sym (ap (λ t. take (length t) cs) e) ∙ take_trailing cs ∙ e)))
    ]

trimmed_from :
    (s cs : List ℕ)
    → cut s (scan cs false [] none)
      ≡ (if all_spaces cs then s else without_trailing (without_leading cs))
unfolding scan cut
trimmed_from s [] = refl
trimmed_from s (c ∷ cs) = elim (Bool-cases (is_space c)) [
  | inl e ↦ rw (e, scan) (trimmed_from s cs)
  | inr e ↦ rw (e, scan) (rw e (cut_found s cs c e))
]

-- A string with a byte that is no space is left without the spaces at its two ends, and with the
-- bytes between them unchanged; a string of spaces alone, or with no byte, is left as it is.
trim_spaces_lem :
    (s : List ℕ)
    → trim_spaces s ≡ (if all_spaces s then s else without_trailing (without_leading s))
unfolding trim_spaces
trim_spaces_lem s = trimmed_from s s
