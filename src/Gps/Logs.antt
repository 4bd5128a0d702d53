-- ===== src/Gps/Logs.antt =====
-- The anonymous log: what a client's command writes into it (GPSPositionProvider.cpp).
use com_webos_service_locati.Base.{
  ◌∙◌, ℕ, ◌-◌, ◌≡◌, refl, ap, true, List, [], ◌∷◌, ◌++◌, codes, take, length, arith,
}
use com_webos_service_locati.Gps.{Gps, Hal, feed_data, anonymous_logger}
use com_webos_service_locati.Gps.Extra.{
  Reader, handle_extra_command, extra_command_of, perform, handle_write_anonymous_data,
  write_anonymous_data, after_mark, same_text, starts_with,
}

take-length : (xs : List ℕ) → take (length xs) xs ≡ xs
take-length [] = refl
take-length (x ∷ xs) = ap (λ l. x ∷ l) (take-length xs)

abbrev command_name : List ℕ
command_name = codes "write_anonymous_data:"

known : (text : List ℕ) → extra_command_of (command_name ++ text) ≡ write_anonymous_data
unfolding extra_command_of same_text starts_with
known text = refl

counted : (text : List ℕ) → length (command_name ++ text) - length command_name ≡ length text
counted text = omega arith

written :
    {F : Type 0} (text : List ℕ)
    → handle_write_anonymous_data {F = F} (command_name ++ text)
      ≡ feed_data anonymous_logger text ∷ []
unfolding handle_write_anonymous_data after_mark
written text =
    ap (λ n. feed_data anonymous_logger (take n text) ∷ []) (counted text)
    ∙ ap (λ t. feed_data anonymous_logger t ∷ []) (take-length text)

-- The command "write_anonymous_data:" with any text behind it writes exactly that text into the
-- anonymous log, colons in it included, succeeds, and changes nothing else.
handle_extra_command-writes :
    {F : Type 0} (reader : Reader F) (hal : Hal) (text : List ℕ) (g : Gps)
    → handle_extra_command reader hal (command_name ++ text) g
      ≡ (g, true, feed_data anonymous_logger text ∷ [])
unfolding handle_extra_command perform
handle_extra_command-writes reader hal text g =
    ap (λ c. perform reader hal (command_name ++ text) c g) (known text)
    ∙ ap (λ es. (g, true, es)) (written text)
