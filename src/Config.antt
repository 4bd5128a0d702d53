-- ===== src/Config.antt =====
-- The configuration file of the GPS: src/handler/position/gps/gps_cfg.cpp. A C string is the list of
-- its bytes without the terminator, and the file has no zero bytes. `F` is `double`; strtol with
-- base 16, atoi and atof of the C library are parameters.
mod Trimmed
pub mod Last
mod Tests
use com_webos_service_locati.Base.{
  ℕ, zero, suc, ◌+◌, ◌-◌, Bool, true, false, not, ◌&&◌, ◌||◌, Option, none, some, List, [], ◌∷◌,
  ◌++◌, map, length, take, drop, leb, ◌==◌, if◌then◌else◌,
}
use com_webos_service_locati.Base.Int.{ℤ, pos}

-- `isspace` in the C locale.
abbrev pub is_space : ℕ → Bool
is_space c = c == 32 || leb 9 c && leb c 13

-- The loop of trim_spaces: `written` is what it has copied to the front, `last` the number of bytes
-- up to the last one that is no space.
pub scan : List ℕ → Bool → List ℕ → Option ℕ → List ℕ × Option ℕ
scan [] found written last = (written, last)
scan (c ∷ cs) found written last = elim (found || not (is_space c)) [
  | true ↦ scan cs true (written ++ c ∷ []) (if is_space c then last else some (length written + 1))
  | false ↦ scan cs false written last
]

-- Without a byte that is no space the string is left as it was.
pub cut : List ℕ → List ℕ × Option ℕ → List ℕ
cut s (written, none) = s
cut s (written, some n) = take n written

unfoldable pub trim_spaces : List ℕ → List ℕ
unfolding scan cut
trim_spaces s = cut s (scan s false [] none)

-- `strtok_r` with "=" as the only separator.
pub skip_separators : List ℕ → List ℕ
skip_separators [] = []
skip_separators (c ∷ cs) = if c == b'=' then skip_separators cs else c ∷ cs

pub span : List ℕ → List ℕ × List ℕ
span [] = ([], [])
span (c ∷ cs) = let (token, rest) = span cs in if c == b'=' then ([], cs) else (c ∷ token, rest)

pub token : List ℕ → Option (List ℕ × List ℕ)
unfolding skip_separators span
token s = elim (skip_separators s) [ [] ↦ none | c ∷ cs ↦ some (span (c ∷ cs)) ]

abbrev pub gps_max_param_line : ℕ
gps_max_param_line = 80

abbrev pub gps_max_param_string : ℕ
gps_max_param_string = 80

-- What fgets gives, one call after the other: up to a newline, or as much as the buffer holds.
-- `room` is what is left of it.
pub lines : ℕ → List ℕ → List ℕ → List (List ℕ)
lines room line [] = elim line [ [] ↦ [] | c ∷ cs ↦ (c ∷ cs) ∷ [] ]
lines room line (c ∷ cs) = elim (c == 10 || leb room 1) [
  | true ↦ (line ++ c ∷ []) ∷ lines (gps_max_param_line - 1) [] cs
  | false ↦ lines (room - 1) (line ++ c ∷ []) cs
]

abbrev pub str_eq : List ℕ → List ℕ → Bool
str_eq [] [] = true
str_eq [] (d ∷ ds) = false
str_eq (c ∷ cs) [] = false
str_eq (c ∷ cs) (d ∷ ds) = c == d && str_eq cs ds

-- gps_param_v_type
pub record ConfigValue (F : Type 0) : Type 0 where
  pub param_name : List ℕ
  pub param_str_value : List ℕ
  pub param_int_value : ℤ
  pub param_double_value : F

-- What `param_ptr` points to.
pub data Stored (F : Type 0) : Type 0 where
  str : List ℕ → Stored F
  int : ℤ → Stored F
  double : F → Stored F

-- gps_param_s_type, with what its pointers point to; `param_set` may be a null pointer.
pub record Entry (F : Type 0) : Type 0 where
  pub param_name : List ℕ
  pub has_ptr : Bool
  pub value : Stored F
  pub param_set : Option Bool
  pub param_type : ℕ

pub record Numbers (F : Type 0) : Type 0 where
  pub strtol_16 : List ℕ → ℤ
  pub atoi : List ℕ → ℤ
  pub atof : List ℕ → F
  pub zero_double : F

abbrev pub put_flag : Bool → Option Bool → Option Bool
put_flag b none = none
put_flag b (some old) = some b

abbrev pub is_hex : List ℕ → Bool
is_hex (zero_char ∷ x ∷ cs) = zero_char == b'0' && (x == b'x' || x == b'X')
is_hex _ = false

module _ {F : Type 0} where
  abbrev pub write : Entry F → Stored F → Entry F
  write e v = record e { value = v; param_set = put_flag true e.param_set }

  unfoldable pub set_by_type : Entry F → ConfigValue F → Entry F
  set_by_type e v =
      if e.param_type == b's'
      then write e (
          str (
            if str_eq v.param_str_value (b'N' ∷ b'U' ∷ b'L' ∷ b'L' ∷ [])
            then []
            else take 79 v.param_str_value))
      else (if e.param_type == b'n'
          then write e (int v.param_int_value)
          else (if e.param_type == b'f' then write e (double v.param_double_value) else e))

  -- The two pointers are never null where gps_read_conf calls it.
  unfoldable pub gps_set_config_entry : Entry F → ConfigValue F → Entry F
  gps_set_config_entry e v =
      if str_eq e.param_name v.param_name && e.has_ptr then set_by_type e v else e

  numbered : Numbers F → List ℕ → List ℕ → ConfigValue F
  numbered n name text =
      if is_hex text
      then record {
        param_name = name;
        param_str_value = text;
        param_int_value = n.strtol_16 (drop 2 text);
        param_double_value = n.zero_double;
      }
      else record {
        param_name = name;
        param_str_value = text;
        param_int_value = n.atoi text;
        param_double_value = n.atof text;
      }

  second : Numbers F → List ℕ → Option (List ℕ × List ℕ) → Option (ConfigValue F)
  unfolding numbered trim_spaces
  second n name none = none
  second n name (some (text, rest)) = some (numbered n (trim_spaces name) (trim_spaces text))

  first : Numbers F → Option (List ℕ × List ℕ) → Option (ConfigValue F)
  unfolding second token
  first n none = none
  first n (some (name, rest)) = second n name (token rest)

  -- A line of the file; none is a line that is skipped.
  unfoldable pub config_value : Numbers F → List ℕ → Option (ConfigValue F)
  unfolding first token
  config_value n line = first n (token line)

  abbrev pub clear : Entry F → Entry F
  clear e = record e { param_set = put_flag false e.param_set }

  abbrev pub set_all : Option (ConfigValue F) → List (Entry F) → List (Entry F)
  set_all none table = table
  set_all (some v) table = map (λ e. gps_set_config_entry e v) table

  pub read_lines : Numbers F → List (List ℕ) → List (Entry F) → List (Entry F)
  unfolding config_value
  read_lines n [] table = table
  read_lines n (l ∷ ls) table = read_lines n ls (set_all (config_value n l) table)

  -- Without a file nothing changes.
  unfoldable pub gps_read_conf : Numbers F → Option (List ℕ) → List (Entry F) → List (Entry F)
  unfolding read_lines lines
  gps_read_conf n none table = table
  gps_read_conf n (some file) table = read_lines n (lines 79 [] file) (map clear table)
