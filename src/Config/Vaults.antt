-- ===== src/Config/Vaults.antt =====
-- src/config.rs: the vault that a section describes.
use Prim.Native.Char.{code}
use Prim.Native.String.{len, ◌++◌}
use coffer_fs.Base.{
  ℕ, String, Bool, true, false, ◌&&◌, ◌||◌, Option, none, some, List, [], ◌∷◌, Result, ok, err,
  ◌==◌, leb, str_eq, if◌then◌else◌,
}
use coffer_fs.Base.Words.{
  trim, trim_start, is_empty, starts_with, ends_with, without_first, without_last, is_word,
  split_once,
}
use coffer_fs.Db.Locking.{Locking, parse_locking}
use coffer_fs.Config.{
  ConfigError, not_key_value, no_value, bad_bool, bad_locking, unknown_key, missing_file,
  missing_mountpoint, Section, Config,
}

-- `PathBuf::join` of a relative path
unfoldable join : String → String → String
unfolding ends_with
join dir path = if ends_with 47 dir then dir ++ path else dir ++ "/" ++ path

unfoldable without_slashes : String → String
without_slashes String.[] = String.[]
without_slashes (String.◌∷◌ c s) =
    let rest = without_slashes s in if code c == 47 then rest else String.◌∷◌ c s

abbrev at_home : Option String → String → String → String
at_home none s rest = s
at_home (some dir) s rest = join dir (without_slashes rest)

-- `home` is $HOME, where it is set and not empty.
unfoldable pub expand_tilde : Option String → String → String
unfolding join without_slashes
expand_tilde home s =
    if starts_with 126 s && (is_empty (without_first s) || starts_with 47 (without_first s))
    then at_home home s (without_first s)
    else s

abbrev quoted_by : ℕ → String → Bool
quoted_by q v = starts_with q v && ends_with q v

abbrev pub without_quotes : String → String
without_quotes v =
    if leb 2 (len v) && (quoted_by 34 v || quoted_by 39 v)
    then without_last (without_first v)
    else v

unfoldable pub unquote : String → String
unfolding trim ends_with without_last
unquote v = without_quotes (trim v)

unfoldable pub parse_bool : String → Option Bool
unfolding is_word
parse_bool value =
    if is_word value "true" || is_word value "yes" || is_word value "on" || is_word value "1"
    then some true
    else if is_word value "false" || is_word value "no" || is_word value "off" || is_word value "0"
    then some false
    else none

unfoldable pub is_comment : String → Bool
unfolding trim_start
is_comment line =
    is_empty (trim_start line)
    || starts_with 35 (trim_start line)
    || starts_with 59 (trim_start line)

-- The variables of `vault_from`, the fields of a `Vault` but its alias.
pub record Fields : Type 0 where
  pub file : Option String
  pub mountpoint : Option String
  pub idle_timeout : Option String
  pub compact_on_idle : Option String
  pub password_file : Option String
  pub password_command : Option String
  pub log_file : Option String
  pub read_only : Bool
  pub enforce_permissions : Bool
  pub locking : Option Locking

pub record Vault : Type 0 where
  pub alias : String
  pub file : String
  pub mountpoint : String
  pub idle_timeout : Option String
  pub compact_on_idle : Option String
  pub password_file : Option String
  pub password_command : Option String
  pub log_file : Option String
  pub read_only : Bool
  pub enforce_permissions : Bool
  pub locking : Option Locking

abbrev pub no_fields : Fields
no_fields = record {
  file = none;
  mountpoint = none;
  idle_timeout = none;
  compact_on_idle = none;
  password_file = none;
  password_command = none;
  log_file = none;
  read_only = false;
  enforce_permissions = false;
  locking = none;
}

module _ {A : Type 0} where
  abbrev pub set_or : ConfigError → (A → Fields) → Option A → Result ConfigError Fields
  set_or e f none = err e
  set_or e f (some a) = ok (f a)

-- `match key.trim()`
unfoldable pub set_field : Option String → String → String → Fields → Result ConfigError Fields
unfolding expand_tilde parse_bool
set_field home key value fs =
    if str_eq key "file"
    then ok (record fs { file = some (expand_tilde home value) })
    else if str_eq key "mountpoint"
    then ok (record fs { mountpoint = some (expand_tilde home value) })
    else if str_eq key "idle_timeout"
    then ok (record fs { idle_timeout = some value })
    else if str_eq key "compact_on_idle"
    then ok (record fs { compact_on_idle = some value })
    else if str_eq key "password_file"
    then ok (record fs { password_file = some (expand_tilde home value) })
    else if str_eq key "password_command"
    then ok (record fs { password_command = some value })
    else if str_eq key "log_file"
    then ok (record fs { log_file = some (expand_tilde home value) })
    else if str_eq key "read_only"
    then set_or bad_bool (λ b. record fs { read_only = b }) (parse_bool value)
    else if str_eq key "enforce_permissions"
    then set_or bad_bool (λ b. record fs { enforce_permissions = b }) (parse_bool value)
    else if str_eq key "locking"
    then set_or bad_locking (λ l. record fs { locking = some l }) (parse_locking value)
    else err unknown_key

abbrev pub read_pair : Option String → Option (String × String) → Fields → Result ConfigError Fields
read_pair home none fs = err not_key_value
read_pair home (some (key, raw)) fs =
    if is_empty (unquote raw) then err no_value else set_field home (trim key) (unquote raw) fs

abbrev pub and_then :
    Result ConfigError Fields → (Fields → Result ConfigError Fields) → Result ConfigError Fields
and_then (ok fs) f = f fs
and_then (err e) f = err e

abbrev pub read_line : Option String → String → Fields → Result ConfigError Fields
read_line home raw fs = read_pair home (split_once 61 raw) fs

unfoldable pub read_fields : Option String → List String → Fields → Result ConfigError Fields
unfolding is_comment
read_fields home [] fs = ok fs
read_fields home (raw ∷ raws) fs =
    let rest = read_fields home raws fs in
    if is_comment raw then rest else and_then (read_line home raw fs) (read_fields home raws)

abbrev pub complete : String → Fields → Option String → Option String → Result ConfigError Vault
complete alias fs none mountpoint = err missing_file
complete alias fs (some file) none = err missing_mountpoint
complete alias fs (some file) (some mountpoint) = ok (record {
  alias = alias;
  file = file;
  mountpoint = mountpoint;
  idle_timeout = fs.idle_timeout;
  compact_on_idle = fs.compact_on_idle;
  password_file = fs.password_file;
  password_command = fs.password_command;
  log_file = fs.log_file;
  read_only = fs.read_only;
  enforce_permissions = fs.enforce_permissions;
  locking = fs.locking;
})

abbrev pub finish : String → Result ConfigError Fields → Result ConfigError Vault
finish alias (ok fs) = complete alias fs fs.file fs.mountpoint
finish alias (err e) = err e

unfoldable pub vault_from : Option String → Section → Result ConfigError Vault
unfolding read_fields
vault_from home s = finish s.name (read_fields home s.content no_fields)

unfoldable pub find_section : String → List Section → Option Section
find_section alias [] = none
find_section alias (s ∷ ss) = if str_eq s.name alias then some s else find_section alias ss

abbrev pub vault_of : Option String → Option Section → Option (Result ConfigError Vault)
vault_of home none = none
vault_of home (some s) = some (vault_from home s)

-- `get`: `None` where there is no section of this name.
unfoldable pub get : Option String → String → Config → Option (Result ConfigError Vault)
unfolding find_section
get home alias cfg = vault_of home (find_section alias cfg.sections)

abbrev onto_vaults :
    Result ConfigError Vault → Result ConfigError (List Vault) → Result ConfigError (List Vault)
onto_vaults (err e) rest = err e
onto_vaults (ok v) (err e) = err e
onto_vaults (ok v) (ok vs) = ok (v ∷ vs)

abbrev vaults_of : Option String → List Section → Result ConfigError (List Vault)
vaults_of home [] = ok []
vaults_of home (s ∷ ss) = onto_vaults (vault_from home s) (vaults_of home ss)

-- All vaults, or the first error.
unfoldable pub vaults : Option String → Config → Result ConfigError (List Vault)
unfolding vault_from
vaults home cfg = vaults_of home cfg.sections
