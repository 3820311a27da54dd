-- ===== src/Cli/Options.antt =====
-- src/main.rs: what `mount` is asked to mount, and with which options.
use coffer_fs.Base.{
  ℕ, ◌-◌, ◌>>=◌, Bool, true, false, not, ◌&&◌, ◌||◌, Option, none, some, String, List, [], ◌∷◌,
  Result, ok, err, leb, ◌==◌, str_eq, if◌then◌else◌, length,
}
use coffer_fs.Base.Words.{starts_with, trim, is_empty, all_chars}
use coffer_fs.Db.Container.Decimal.{parse_u64}
use coffer_fs.Db.Locking.{Locking}
use coffer_fs.Config.{ConfigError, Config}
use coffer_fs.Config.Vaults.{Vault, get, vaults}
use Prim.Native.Char.{code}

pub record MountOpts : Type 0 where
  pub foreground : Bool
  pub idle_timeout : Option String
  pub compact_on_idle : Option String
  pub password_file : Option String
  pub password_command : Option String
  pub read_only : Bool
  pub log : Option String
  pub enforce_permissions : Bool
  pub locking : Option Locking

abbrev pub or_else {ℓ} : {A : Type ℓ} → Option A → Option A → Option A
or_else none o = o
or_else (some a) o = some a

abbrev pub is_none {ℓ} : {A : Type ℓ} → Option A → Bool
is_none none = true
is_none (some a) = false

unfoldable pub with_defaults_from : MountOpts → Vault → MountOpts
with_defaults_from opts vault =
    let unset = is_none opts.password_file && is_none opts.password_command in
    record {
      foreground = opts.foreground;
      idle_timeout = or_else opts.idle_timeout vault.idle_timeout;
      compact_on_idle = or_else opts.compact_on_idle vault.compact_on_idle;
      password_file = if unset then vault.password_file else opts.password_file;
      password_command = if unset then vault.password_command else opts.password_command;
      read_only = opts.read_only || vault.read_only;
      log = or_else opts.log vault.log_file;
      enforce_permissions = opts.enforce_permissions || vault.enforce_permissions;
      locking = or_else opts.locking vault.locking;
    }

-- `arg.contains('/') || arg.starts_with('.') || arg.starts_with('~')`
unfoldable pub looks_like_path : String → Bool
unfolding all_chars
looks_like_path arg =
    not (all_chars (λ c. not (code c == 47)) arg) || starts_with 46 arg || starts_with 126 arg

pub data CliError : Type 0 where
  no_vaults no_terminal aborted not_registered no_such_file not_mounted none_mounted panic :
      CliError
  config : ConfigError → CliError
  system : String → CliError

-- What the commands see: the registry, $HOME, the files that exist, whether standard input is a
-- terminal, and the lines that are read from it.
pub record Env : Type 0 where
  pub registry : Result CliError Config
  pub home : Option String
  pub exists : String → Bool
  pub is_terminal : Bool
  pub answers : List String

abbrev pub of_config : {A : Type 0} → Result ConfigError A → Result CliError A
of_config (ok a) = ok a
of_config (err e) = err (config e)

-- `transpose()?`
abbrev pub found_vault : Option (Result ConfigError Vault) → Result CliError (Option Vault)
found_vault none = ok none
found_vault (some (ok v)) = ok (some v)
found_vault (some (err e)) = err (config e)

abbrev pub registered : Env → String → Result CliError (Option Vault)
registered env alias = do cfg ← env.registry; found_vault (get env.home alias cfg)

abbrev file_or : Env → String → Option Vault → Result CliError String
file_or env arg (some v) = ok v.file
file_or env arg none = if env.exists arg then ok arg else err no_such_file

unfoldable pub resolve_container : Env → String → Result CliError String
unfolding looks_like_path get
resolve_container env arg =
    if looks_like_path arg then ok arg else registered env arg >>= file_or env arg

-- `candidates.swap_remove(n)`, of which only the vault is used.
abbrev vault_at : ℕ → List Vault → Option Vault
vault_at n [] = none
vault_at n (v ∷ vs) = let rest = vault_at (n - 1) vs in if n == 0 then some v else rest

abbrev by_number : Option ℕ → List Vault → Option Vault
by_number none candidates = none
by_number (some n) candidates =
    if leb 1 n && leb n (length candidates) then vault_at (n - 1) candidates else none

abbrev by_alias : String → List Vault → Option Vault
by_alias answer [] = none
by_alias answer (v ∷ vs) =
    let rest = by_alias answer vs in if str_eq v.alias answer then some v else rest

unfoldable pub chosen : String → List Vault → Option Vault
unfolding parse_u64
chosen answer candidates =
    or_else (by_number (parse_u64 answer) candidates) (by_alias answer candidates)

abbrev answered : Option Vault → Result CliError Vault → Result CliError Vault
answered none rest = rest
answered (some v) rest = ok v

-- The loop of `pick_vault`, one answer to a round; at the end of the input it gives up.
unfoldable pub ask_vault : List String → List Vault → Result CliError Vault
unfolding chosen trim
ask_vault [] candidates = err aborted
ask_vault (line ∷ lines) candidates =
    let rest = ask_vault lines candidates in
    if is_empty (trim line) || str_eq (trim line) "q"
    then err aborted
    else answered (chosen (trim line) candidates) rest

unfoldable pub pick_vault : Env → List Vault → Result CliError Vault
unfolding ask_vault
pick_vault env (v ∷ []) = ok v
pick_vault env candidates =
    if env.is_terminal then ask_vault env.answers candidates else err no_terminal

abbrev pick_some : Env → List Vault → Result CliError (Option Vault)
pick_some env [] = err no_vaults
pick_some env (v ∷ vs) = do w ← pick_vault env (v ∷ vs); ok (some w)

abbrev target_vault : Env → Option String → Result CliError (Option Vault)
target_vault env (some t) = if looks_like_path t then ok none else registered env t
target_vault env none = do
  cfg ← env.registry
  vs ← of_config (vaults env.home cfg)
  pick_some env vs

pub record Plan : Type 0 where
  pub file : String
  pub mountpoint : String
  pub opts : MountOpts

abbrev pub or_stored : Option String → String → String
or_stored none stored = stored
or_stored (some mp) stored = mp

-- The last case of the source cannot arise: without a target there is a vault.
abbrev pub planned : Option String → Option String → MountOpts → Option Vault → Result CliError Plan
planned target mountpoint opts (some v) = ok (record {
  file = v.file;
  mountpoint = or_stored mountpoint v.mountpoint;
  opts = with_defaults_from opts v;
})
planned (some file) (some mp) opts none = ok (record { file = file; mountpoint = mp; opts = opts })
planned (some t) none opts none = err not_registered
planned none mountpoint opts none = err no_vaults

unfoldable pub plan_mount : Env → Option String → Option String → MountOpts → Result CliError Plan
unfolding looks_like_path get vaults pick_vault with_defaults_from
plan_mount env target mountpoint opts = target_vault env target >>= planned target mountpoint opts

-- The vault that `mount --save` registers for a plan.
unfoldable pub vault_to_save : String → Plan → Vault
vault_to_save alias p = record {
  alias = alias;
  file = p.file;
  mountpoint = p.mountpoint;
  idle_timeout = p.opts.idle_timeout;
  compact_on_idle = p.opts.compact_on_idle;
  password_file = p.opts.password_file;
  password_command = p.opts.password_command;
  log_file = p.opts.log;
  read_only = p.opts.read_only;
  enforce_permissions = p.opts.enforce_permissions;
  locking = p.opts.locking;
}
