-- ===== src/Config.antt =====
-- src/config.rs: the registry of vaults, a text of sections.
pub mod Vaults
pub mod Edit
pub mod Tests
pub mod Names
use Prim.Native.Char.{Char, code}
use coffer_fs.Base.{
  ℕ, String, Bool, true, false, not, ◌&&◌, ◌||◌, Option, none, some, List, [], ◌∷◌, ◌++◌, Result,
  ok, err, ◌==◌, str_eq, if◌then◌else◌,
}
use coffer_fs.Base.Words.{
  trim, trim_start, is_empty, starts_with, ends_with, without_first, without_last, all_chars,
  within, lines,
}

pub data ConfigError : Type 0 where
  malformed_header invalid_alias duplicate_section not_key_value no_value bad_bool bad_locking
        unknown_key missing_file missing_mountpoint :
      ConfigError

-- The raw lines after the header.
pub record Section : Type 0 where
  pub name : String
  pub content : List String

-- The path of the file, which only messages use, is left out.
pub record Config : Type 0 where
  pub preamble : List String
  pub sections : List Section

abbrev pub is_alphanumeric : Char → Bool
is_alphanumeric c = within 48 57 (code c) || within 65 90 (code c) || within 97 122 (code c)

-- '-', '_' and '.' too
abbrev pub ok_char : Char → Bool
ok_char c = is_alphanumeric c || code c == 45 || code c == 95 || code c == 46

abbrev pub starts_ok : String → Bool
starts_ok String.[] = false
starts_ok (String.◌∷◌ c s) = is_alphanumeric c

unfoldable pub validate_alias : String → Bool
unfolding all_chars
validate_alias alias = starts_ok alias && all_chars ok_char alias

unfoldable pub has_section : String → List Section → Bool
has_section name [] = false
has_section name (s ∷ ss) = str_eq s.name name || has_section name ss

-- `section.lines.push(raw)` for `sections.last_mut()`
unfoldable pub push_to_last : String → Section → List Section → List Section
push_to_last raw s [] = record s { content = s.content ++ (raw ∷ []) } ∷ []
push_to_last raw s (t ∷ ts) = s ∷ push_to_last raw t ts

-- A line before every header goes to the preamble.
abbrev pub pushed : String → List String → List Section → Config
pushed raw preamble [] = record { preamble = preamble ++ (raw ∷ []); sections = [] }
pushed raw preamble (s ∷ ss) = record { preamble = preamble; sections = push_to_last raw s ss }

unfoldable pub push_line : String → Config → Config
unfolding push_to_last
push_line raw cfg = pushed raw cfg.preamble cfg.sections

-- A trimmed line that starts with '[': the name in it.
unfoldable pub header_name : String → Option String
unfolding ends_with without_last trim
header_name line =
    if ends_with 93 (without_first line)
    then some (trim (without_last (without_first line)))
    else none

abbrev pub open_section : Config → Option String → Result ConfigError Config
open_section cfg none = err malformed_header
open_section cfg (some name) =
    if not (validate_alias name)
    then err invalid_alias
    else if has_section name cfg.sections
    then err duplicate_section
    else ok (record cfg { sections = cfg.sections ++ (record { name = name; content = [] } ∷ []) })

unfoldable pub parse_line : String → Config → Result ConfigError Config
unfolding validate_alias has_section push_line header_name trim
parse_line raw cfg =
    if starts_with 91 (trim raw)
    then open_section cfg (header_name (trim raw))
    else ok (push_line raw cfg)

abbrev pub then_parse :
    Result ConfigError Config → (Config → Result ConfigError Config) → Result ConfigError Config
then_parse (ok cfg) f = f cfg
then_parse (err e) f = err e

unfoldable pub parse_lines : List String → Config → Result ConfigError Config
unfolding parse_line
parse_lines [] cfg = ok cfg
parse_lines (raw ∷ raws) cfg = then_parse (parse_line raw cfg) (parse_lines raws)

unfoldable pub parse : String → Result ConfigError Config
unfolding parse_lines lines
parse text = parse_lines (lines text) (record { preamble = []; sections = [] })
