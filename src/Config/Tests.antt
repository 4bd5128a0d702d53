-- ===== src/Config/Tests.antt =====
-- The configuration reader at a concrete file: a name that is given twice, and a line without "=".
use com_webos_service_locati.Base.{ℕ, ◌≡◌, refl, true, some, List, [], ◌∷◌, map, codes, ◌-◌}
use com_webos_service_locati.Base.Int.{ℤ, pos}
use com_webos_service_locati.Config.{trim_spaces, Entry, Numbers, int, gps_read_conf, lines, clear}
use com_webos_service_locati.Config.Last.{set_last, last_named, read_conf-last}

abbrev file : List ℕ
file = codes "PORT=1\nnone\nPORT = 22\n"

-- A stand-in for the C library: the number of a text is its first digit.
abbrev digit : List ℕ → ℤ
digit [] = pos 0
digit (c ∷ cs) = pos (c - 48)

abbrev numbers : Numbers ℕ
numbers = record { strtol_16 = digit; atoi = digit; atof = λ s. 0; zero_double = 0 }

abbrev port : Entry ℕ
port = record {
  param_name = codes "PORT";
  has_ptr = true;
  value = int (pos 0);
  param_set = some true;
  param_type = b'n';
}

read_conf-last_example :
    gps_read_conf numbers (some file) (port ∷ [])
    ≡ map (λ e. set_last (clear e) (last_named numbers e.param_name (lines 79 [] file))) (port ∷ [])
read_conf-last_example = read_conf-last numbers file (port ∷ [])

trimmed_text : trim_spaces (codes " a b\n") ≡ codes "a b"
unfolding trim_spaces
trimmed_text = refl
