-- ===== src/Cli/Registry/Saved.antt =====
-- src/main.rs: a vault that `add` or `--save` registers is mounted as it was registered.
use Prim.Native.Char.{Char, code}
use coffer_fs.Base.{
  ◌≡◌, refl, bind-ok, subst, Option, Result, require, require-ok, ap, ◌∙◌, sym, Bool, true, false,
  not, none, some, String, ok, arith, ◌==◌,
}
use coffer_fs.Base.Words.Laws.{all_chars_mono}
use coffer_fs.Base.Words.{all_chars}
use coffer_fs.Config.{Config, invalid_alias, validate_alias, ok_char, is_alphanumeric}
use coffer_fs.Config.Vaults.{Vault, get}
use coffer_fs.Config.Edit.{upsert}
use coffer_fs.Config.Edit.Laws.{upsert-get}
use coffer_fs.Config.Edit.RoundTrip.{IsStorable, vault_from-render}
use coffer_fs.Cli.Sizes.{Floats}
use coffer_fs.Cli.Options.{
  CliError, no_such_file, config, Env, MountOpts, with_defaults_from, looks_like_path, Plan,
  plan_mount, planned,
}
use coffer_fs.Cli.Registry.{Disk, absolutised, each, check_duration, cmd_add}

-- `coffer mount ALIAS` with no flags.
abbrev pub no_flags : MountOpts
no_flags = record {
  foreground = false;
  idle_timeout = none;
  compact_on_idle = none;
  password_file = none;
  password_command = none;
  read_only = false;
  log = none;
  enforce_permissions = false;
  locking = none;
}

abbrev pub plan_of : Vault → Plan
plan_of v = record {
  file = v.file;
  mountpoint = v.mountpoint;
  opts = record {
    foreground = false;
    idle_timeout = v.idle_timeout;
    compact_on_idle = v.compact_on_idle;
    password_file = v.password_file;
    password_command = v.password_command;
    read_only = v.read_only;
    log = v.log_file;
    enforce_permissions = v.enforce_permissions;
    locking = v.locking;
  };
}

ok_no_slash : (c : Char) → ok_char c ≡ true → not (code c == 47) ≡ true
ok_no_slash c h = ground arith

-- No alias is taken for a path.
alias_no_path : (alias : String) → validate_alias alias ≡ true → looks_like_path alias ≡ false
unfolding validate_alias looks_like_path
alias_no_path String.[] h = cc
alias_no_path (String.◌∷◌ c s) h =
    let a : (is_alphanumeric c ≡ true) × (all_chars ok_char s ≡ true) = ground arith in
    let b = all_chars_mono ok_char (λ c. not (code c == 47)) s ok_no_slash a.1 in
    ground (arith, a.0, b)

absolutised-alias : (disk : Disk) (v w : Vault) → absolutised disk v ≡ ok w → w.alias ≡ v.alias
unfolding absolutised
absolutised-alias disk v w h =
    let (a, ea, h1) = bind-ok (disk.absolute v.file) _ h in
    let (b, eb, h2) = bind-ok (disk.absolute v.mountpoint) _ h1 in
    let (c, ec, h3) = bind-ok (each disk.absolute v.password_file) _ h2 in
    let (d, ed, h4) = bind-ok (each disk.absolute v.log_file) _ h3 in ground (arith, h4)

-- An absolute path that is given where the path is.
abbrev pub Absolute : Disk → Option String → Option String → Type 0
Absolute disk none q = q ≡ none
Absolute disk (some path) q = (t : String) × (disk.absolute path ≡ ok t) × (q ≡ some t)

-- The plan of a vault: every path is absolute, all else is as registered.
pub record Mounts (disk : Disk) (v : Vault) (plan : Plan) : Type 0 where
  pub file : disk.absolute v.file ≡ ok plan.file
  pub mountpoint : disk.absolute v.mountpoint ≡ ok plan.mountpoint
  pub password_file : Absolute disk v.password_file plan.opts.password_file
  pub log : Absolute disk v.log_file plan.opts.log
  pub idle_timeout : plan.opts.idle_timeout ≡ v.idle_timeout
  pub compact_on_idle : plan.opts.compact_on_idle ≡ v.compact_on_idle
  pub read_only : plan.opts.read_only ≡ v.read_only
  pub enforce_permissions : plan.opts.enforce_permissions ≡ v.enforce_permissions
  pub locking : plan.opts.locking ≡ v.locking
  pub foreground : plan.opts.foreground ≡ false
  pub password_command : plan.opts.password_command ≡ v.password_command

each-Absolute :
    (disk : Disk) (p q : Option String) → each disk.absolute p ≡ ok q → Absolute disk p q
each-Absolute disk none q h = ground (arith, h)
each-Absolute disk (some path) q h =
    let (t, e, k) = bind-ok (disk.absolute path) _ h in (t, e, ground (arith, k))

absolutised-Mounts :
    (disk : Disk) (v w : Vault) → absolutised disk v ≡ ok w → Mounts disk v (plan_of w)
unfolding absolutised
absolutised-Mounts disk v w h =
    let (a, ea, h1) = bind-ok (disk.absolute v.file) _ h in
    let (b, eb, h2) = bind-ok (disk.absolute v.mountpoint) _ h1 in
    let (c, ec, h3) = bind-ok (each disk.absolute v.password_file) _ h2 in
    let (d, ed, h4) = bind-ok (each disk.absolute v.log_file) _ h3 in
    subst (λ x. Mounts disk v (plan_of x)) (stored_vault h4)
      (record {
        file = ea;
        mountpoint = eb;
        password_file = each-Absolute disk v.password_file c ec;
        log = each-Absolute disk v.log_file d ed;
        idle_timeout = refl;
        compact_on_idle = refl;
        read_only = refl;
        enforce_permissions = refl;
        locking = refl;
        foreground = refl;
        password_command = refl;
      })
  where
    stored_vault : {x : Vault} → ◌≡◌ {A = Result CliError Vault} (ok x) (ok w) → x ≡ w
    stored_vault e = ground (arith, e)

-- What a successful `add` has checked, and what it leaves.
pub record Added (disk : Disk) (cfg : Config) (v : Vault) (r : Bool × Config) : Type 0 where
  pub stored : Vault
  pub alias_ok : validate_alias v.alias ≡ true
  pub file_there : disk.is_file v.file ≡ true
  pub absolute : absolutised disk v ≡ ok stored
  pub result : r ≡ upsert stored cfg

cmd_add-Added :
    (F : Floats) (disk : Disk) (cfg : Config) (v : Vault) (r : Bool × Config)
    → cmd_add F disk cfg v ≡ ok r
    → Added disk cfg v r
unfolding cmd_add
cmd_add-Added F disk cfg v r h =
    let (a, ea, h1) = bind-ok (require (validate_alias v.alias) (config invalid_alias)) _ h in
    let (b, eb, h2) = bind-ok (require (disk.is_file v.file) no_such_file) _ h1 in
    let (w, ew, h3) = bind-ok (absolutised disk v) _ h2 in
    let (c, ec, h4) = bind-ok (check_duration F w.idle_timeout) _ h3 in
    let (d, ed, h5) = bind-ok (check_duration F w.compact_on_idle) _ h4 in
    let (e, ee, h6) = bind-ok disk.save _ h5 in
    record {
      stored = w;
      alias_ok = require-ok (validate_alias v.alias) (config invalid_alias) a ea;
      file_there = require-ok (disk.is_file v.file) no_such_file b eb;
      absolute = ew;
      result = ground (arith, h6);
    }

planned-plan_of :
    (alias : String) (v : Vault) → planned (some alias) none no_flags (some v) ≡ ok (plan_of v)
unfolding with_defaults_from
planned-plan_of alias v = refl

plan_mount-registered :
    (env : Env) (cfg : Config) (alias : String) (v : Vault)
    → env.registry ≡ ok cfg
    → looks_like_path alias ≡ false
    → get env.home alias cfg ≡ some (ok v)
    → plan_mount env (some alias) none no_flags ≡ ok (plan_of v)
unfolding plan_mount
plan_mount-registered env cfg alias v r p g = rw (p, r, g) (planned-plan_of alias v)

-- What `add` (or `--save`) has registered under an alias, `coffer mount ALIAS` mounts: once the
-- registry is as `add` left it, and where it can hold these texts, the plan has the absolute form of
-- the paths of the vault's container, mountpoint, password file and log, is not in the foreground, and
-- has every other option as it was given.
pub cmd_add-plan_mount :
    (F : Floats) (disk : Disk) (cfg : Config) (v w : Vault) (r : Bool × Config) (env : Env)
    → cmd_add F disk cfg v ≡ ok r
    → absolutised disk v ≡ ok w
    → IsStorable env.home w
    → env.registry ≡ ok r.1
    → (plan : Plan) × (plan_mount env (some v.alias) none no_flags ≡ ok plan) × Mounts disk v plan
cmd_add-plan_mount F disk cfg v w r env h a s reg =
    let d = cmd_add-Added F disk cfg v r h in
    let same : d.stored ≡ w = ground (arith, d.absolute, a) in
    let alias : w.alias ≡ v.alias = absolutised-alias disk v w a in
    let mounted = plan_mount-registered env r.1 v.alias w reg (alias_no_path v.alias d.alias_ok) (
      ap (λ (x : Bool × Config). get env.home v.alias x.1) (d.result ∙ ap (λ x. upsert x cfg) same)
      ∙ ap (λ n. get env.home n (upsert w cfg).1) (sym alias)
      ∙ (upsert-get env.home w cfg).1
      ∙ ap some (vault_from-render env.home w s)) in
    (plan_of w, mounted, absolutised-Mounts disk v w a)
