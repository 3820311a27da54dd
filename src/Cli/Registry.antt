-- ===== src/Cli/Registry.antt =====
-- src/main.rs: `add`, `remove` and `--save`, which change the registry.
pub mod Saved
use coffer_fs.Base.{
  ◌>>=◌, ◌>>◌, require, Bool, true, false, Option, none, some, String, Result, ok, err,
  if◌then◌else◌,
}
use coffer_fs.Config.{Config, ConfigError, invalid_alias, validate_alias}
use coffer_fs.Config.Vaults.{Vault, get}
use coffer_fs.Config.Edit.{upsert, remove}
use coffer_fs.Cli.Sizes.{Floats, SizeError, invalid, negative, panicked, parse_duration}
use coffer_fs.Cli.Options.{CliError, no_such_file, not_registered, config, system, panic}

-- What the file system answers; `absolute` is `std::path::absolute`, and `save` the outcome of
-- writing the registry.
pub record Disk : Type 0 where
  pub is_file : String → Bool
  pub absolute : String → Result CliError String
  pub save : Result CliError (Unit {0})

abbrev pub each :
    (String → Result CliError String) → Option String → Result CliError (Option String)
each f none = ok none
each f (some s) = do t ← f s; ok (some t)

-- All paths absolute.
unfoldable pub absolutised : Disk → Vault → Result CliError Vault
absolutised disk v = do
  file ← disk.absolute v.file
  mountpoint ← disk.absolute v.mountpoint
  password_file ← each disk.absolute v.password_file
  log_file ← each disk.absolute v.log_file
  ok (record v {
    file = file;
    mountpoint = mountpoint;
    password_file = password_file;
    log_file = log_file;
  })

module _ (F : Floats) where
  abbrev size_ok : {A : Type 0} → Result SizeError A → Result CliError (Unit {0})
  size_ok (ok a) = ok tt
  size_ok (err invalid) = err (system "invalid duration")
  size_ok (err negative) = err (system "must be a non-negative number")
  size_ok (err panicked) = err panic

  abbrev pub check_duration : Option String → Result CliError (Unit {0})
  check_duration none = ok tt
  check_duration (some d) = size_ok (parse_duration F d)

  -- The new registry, with whether the vault was there before.
  unfoldable pub cmd_add : Disk → Config → Vault → Result CliError (Bool × Config)
  unfolding absolutised upsert parse_duration validate_alias
  cmd_add disk cfg v = do
    require (validate_alias v.alias) (config invalid_alias)
    require (disk.is_file v.file) no_such_file
    w ← absolutised disk v
    check_duration w.idle_timeout
    check_duration w.compact_on_idle
    disk.save
    ok (upsert w cfg)

-- `remove` needs no vault that can be read.
unfoldable pub cmd_remove : Disk → Config → String → Result CliError Config
unfolding remove
cmd_remove disk cfg alias =
    let (found, rest) = remove alias cfg in do require found not_registered; disk.save; ok rest
