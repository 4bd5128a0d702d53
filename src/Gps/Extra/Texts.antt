-- ===== src/Gps/Extra/Texts.antt =====
-- The comparison of texts (strcmp).
use com_webos_service_locati.Base.{ℕ, ◌≡◌, refl, true, List, [], ◌∷◌, arith}
use com_webos_service_locati.Gps.Extra.{same_text}

pub same_text_eq : (a b : List ℕ) → same_text a b ≡ true → a ≡ b
unfolding same_text
same_text_eq [] [] h = refl
same_text_eq [] (c ∷ cs) h = ground arith
same_text_eq (c ∷ cs) [] h = ground arith
same_text_eq (c ∷ cs) (d ∷ ds) h = ground (arith, same_text_eq cs ds)

pub same_text_refl : (a : List ℕ) → same_text a a ≡ true
unfolding same_text
same_text_refl [] = refl
same_text_refl (c ∷ cs) = ground (arith, same_text_refl cs)
