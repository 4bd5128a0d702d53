-- ===== src/Geofence/Keys/Unique.antt =====
-- No two geofence keys are the same (src/lunaIpc/LocationService.cpp).
use com_webos_service_locati.Base.{
  ℕ, zero, suc, ◌+◌, ◌*◌, ◌-◌, ◌/◌, ◌%◌, ◌≤◌, ◌<◌, ◌≡◌, ◌↔◌, refl, ap, sym, ◌∙◌, Bool, false, List,
  [], ◌∷◌, take, ◌&&◌, length, leb, ◌==◌, if◌then◌else◌, arith,
}
use com_webos_service_locati.Base.Int.{ℤ, pos, negsuc, pos_part, neg_part}
use com_webos_service_locati.Geofence.Keys.{
  Suffix, add_area, remove_area, pause_area, resume_area, suffix_text, digits, printed,
  geofence_key,
}

-- Reading a number in front of a text.
read_digits : ℕ → List ℕ → ℕ × List ℕ
read_digits v [] = (v, [])
read_digits v (c ∷ cs) =
    let rest = read_digits (10 * v + (c - 48)) cs in
    if leb 48 c && leb c 57 then rest else (v, c ∷ cs)

read_digits-digits :
    (fuel n : ℕ) (text : List ℕ)
    → n < fuel
    → read_digits 0 (digits fuel n text) ≡ read_digits n text
unfolding read_digits digits
read_digits-digits zero n text h = absurd (omega arith)
read_digits-digits (suc fuel) n text h =
    ground (arith, read_digits-digits fuel (n / 10) ((n % 10 + 48) ∷ text))

abbrev ten_to : ℕ → ℕ
ten_to zero = 1
ten_to (suc k) = 10 * ten_to k

length-digits :
    (fuel n k : ℕ) (text : List ℕ)
    → n < ten_to (suc k)
    → length (digits fuel n text) ≤ suc k + length text
unfolding digits
length-digits zero n k text h = omega arith
length-digits (suc fuel) n zero text h = ground arith
length-digits (suc fuel) n (suc k) text h =
    ground (arith, length-digits fuel (n / 10) k ((n % 10 + 48) ∷ text))

-- An `int` of 32 bits.
abbrev pub Int32 : ℤ → Type 0
Int32 i = (pos_part i < 2147483648) × (neg_part i ≤ 2147483648)

take_whole : (n : ℕ) (xs : List ℕ) → length xs ≤ n → take n xs ≡ xs
take_whole zero [] h = refl
take_whole zero (x ∷ xs) h = absurd (omega arith)
take_whole (suc n) [] h = refl
take_whole (suc n) (x ∷ xs) h = ap (λ l. x ∷ l) (take_whole n xs (omega arith))

length-printed : (i : ℤ) (text : List ℕ) → Int32 i → length (printed i text) ≤ 11 + length text
unfolding printed
length-printed (pos n) text h = omega (arith, length-digits (suc n) n 9 text)
length-printed (negsuc n) text h = omega (arith, length-digits (suc (suc n)) (suc n) 9 text)

length-suffix : (s : Suffix) → length (suffix_text s) ≤ 18
length-suffix add_area = omega arith
length-suffix remove_area = omega arith
length-suffix pause_area = omega arith
length-suffix resume_area = omega arith

-- The whole key fits.
key_whole : (i : ℤ) (s : Suffix) → Int32 i → geofence_key i s ≡ printed i (suffix_text s)
unfolding geofence_key
key_whole i s h =
    take_whole 31 (printed i (suffix_text s))
      (omega (arith, length-printed i (suffix_text s) h, length-suffix s))

starts_minus : List ℕ → Bool
starts_minus [] = false
starts_minus (c ∷ cs) = c == 45

starts_minus-digits :
    (fuel n : ℕ) (text : List ℕ)
    → starts_minus text ≡ false
    → starts_minus (digits fuel n text) ≡ false
unfolding digits starts_minus
starts_minus-digits zero n text h = h
starts_minus-digits (suc fuel) n text h =
    ground (arith, starts_minus-digits fuel (n / 10) ((n % 10 + 48) ∷ text))

-- Reading a key.
negated : ℕ × List ℕ → ℤ × List ℕ
negated (n, text) = (negsuc (n - 1), text)

plain_number : ℕ × List ℕ → ℤ × List ℕ
plain_number (n, text) = (pos n, text)

tail : List ℕ → List ℕ
tail [] = []
tail (c ∷ cs) = cs

read_key : List ℕ → ℤ × List ℕ
read_key cs =
    if starts_minus cs then negated (read_digits 0 (tail cs)) else plain_number (read_digits 0 cs)

read_digits-suffix : (n : ℕ) (s : Suffix) → read_digits n (suffix_text s) ≡ (n, suffix_text s)
unfolding read_digits
read_digits-suffix n add_area = refl
read_digits-suffix n remove_area = refl
read_digits-suffix n pause_area = refl
read_digits-suffix n resume_area = refl

suffix-starts_minus : (s : Suffix) → starts_minus (suffix_text s) ≡ false
unfolding starts_minus
suffix-starts_minus add_area = refl
suffix-starts_minus remove_area = refl
suffix-starts_minus pause_area = refl
suffix-starts_minus resume_area = refl

read_key-printed : (i : ℤ) (s : Suffix) → read_key (printed i (suffix_text s)) ≡ (i, suffix_text s)
unfolding read_key printed plain_number negated starts_minus tail
read_key-printed (pos n) s =
    rw (starts_minus-digits (suc n) n (suffix_text s) (suffix-starts_minus s)) (
      ap plain_number
        (read_digits-digits (suc n) n (suffix_text s) (omega arith) ∙ read_digits-suffix n s))
read_key-printed (negsuc n) s =
    ap negated (
      read_digits-digits (suc (suc n)) (suc n) (suffix_text s) (omega arith)
      ∙ read_digits-suffix (suc n) s)
    ∙ ap (λ k. (negsuc k, suffix_text s)) (omega arith)

suffix_text-eq : (a b : Suffix) → suffix_text a ≡ suffix_text b → a ≡ b
suffix_text-eq add_area add_area h = refl
suffix_text-eq remove_area remove_area h = refl
suffix_text-eq pause_area pause_area h = refl
suffix_text-eq resume_area resume_area h = refl
suffix_text-eq _ _ h = absurd (ground arith)

-- For ids that are 32-bit integers a key is the whole of the id and the suffix, so that nothing is cut
-- off, and two keys are the same exactly where the ids and the suffixes are.
pub geofence_key_unique :
    (i j : ℤ) (a b : Suffix)
    → Int32 i
    → Int32 j
    → (geofence_key i a ≡ printed i (suffix_text a))
      × ((geofence_key i a ≡ geofence_key j b) ↔ ((i ≡ j) × (a ≡ b)))
geofence_key_unique i j a b p q = (
  key_whole i a p,
  (
    λ h.
        let e =
          sym (read_key-printed i a)
          ∙ ap read_key (sym (key_whole i a p) ∙ h ∙ key_whole j b q)
          ∙ read_key-printed j b in
        (ap (λ x. x.0) e, suffix_text-eq a b (ap (λ x. x.1) e)),
    λ h. λ k. geofence_key (h.0 k) (h.1 k),
  ),
)
