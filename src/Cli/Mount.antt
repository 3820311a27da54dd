-- ===== src/Cli/Mount.antt =====
-- src/main.rs: `cmd_mount`, as the actions that it takes on the system.
pub mod Phases
pub mod Protocol
use coffer_fs.Base.{
  ℕ, String, Bool, true, false, not, ◌&&◌, Option, none, some, List, Result, ok, err, str_eq,
  if◌then◌else◌,
}
use coffer_fs.Db.{Db}
use coffer_fs.Db.Container.{has_xattrs, schema_version, read_max_size, schema_version_2}
use coffer_fs.Db.Locking.{Locking, automatic, exclusive_for}
use coffer_fs.Sql.{Conn, SqlError}
use coffer_fs.Fs.Schema.{CofferFs}
use coffer_fs.Cli.Sizes.{Floats, SizeError, parse_duration}
use coffer_fs.Cli.Passwords.{PasswordError, Sources, read_password_source}
use coffer_fs.Cli.Options.{MountOpts, is_none}
use coffer_fs.Cli.Steps.{Traced, pure, step, perform, ◌>>=◌, ◌>>◌}

-- `open_db` and `new_session` with whether they are read-only, `new_session` also with whether the
-- kernel checks permissions; `open_exclusive` with whether it succeeds.
pub data Action : Type 0 where
  use_temp_dir open_log lock make_mountpoint read_password bind_socket daemonize redirect close_db
        serve_socket run :
      Action
  open_db open_exclusive : Bool → Action
  new_session : Bool → Bool → CofferFs → Action
  watch_idle watch_compact : ℕ → Action

pub data MountError : Type 0 where
  needs_writable not_empty old_format : MountError
  duration : SizeError → MountError
  password : PasswordError → MountError
  system : String → MountError

abbrev pub Answer : Type 0 → Type 0
Answer A = Result MountError A

-- How each call of the system ends. An opened container is a connection with its tables.
pub record Host : Type 0 where
  pub canonical_file : Answer (Unit {0})
  pub log_opened : Answer (Unit {0})
  pub locked : Answer (Unit {0})
  pub mountpoint_made : Answer (Unit {0})
  pub mountpoint_empty : Answer Bool
  pub canonical_mountpoint : Answer (Unit {0})
  pub on_network_fs : Bool
  pub sources : Sources
  pub opened : List ℕ → Bool → Answer Conn
  pub socket_bound : Bool
  pub uid : ℕ
  pub gid : ℕ
  pub mounted : Answer (Unit {0})
  pub daemonized : Answer (Unit {0})
  pub redirected : Answer (Unit {0})
  pub in_memory : Answer (Unit {0})
  pub opened_exclusive : List ℕ → Bool
  pub reopened : List ℕ → Bool → Answer (Unit {0})
  pub ran : Answer (Unit {0})

abbrev pub Mounting : Type 0 → Type 0
Mounting = Traced Action MountError

abbrev pub refuse : Bool → MountError → Answer (Unit {0})
refuse true e = err e
refuse false e = ok tt

-- Where an option is given, this is done.
abbrev pub given : {A : Type 0} → Option A → (A → Mounting (Unit {0})) → Mounting (Unit {0})
given none f = pure tt
given (some a) f = f a

abbrev pub only_if : Bool → Mounting (Unit {0}) → Mounting (Unit {0})
only_if true m = m
only_if false m = pure tt

abbrev of_password : {A : Type 0} → Result PasswordError A → Answer A
of_password (ok a) = ok a
of_password (err e) = err (password e)

unfoldable pub asked_password : Host → MountOpts → Answer (List ℕ)
unfolding read_password_source
asked_password host opts =
    of_password (read_password_source host.sources opts.password_file opts.password_command false)

abbrev or_none : Result SqlError (Option String) → Option String
or_none (ok v) = v
or_none (err e) = none

abbrev or_no_limit : Result SqlError ℕ → ℕ
or_no_limit (ok n) = n
or_no_limit (err e) = 0

abbrev is_version_2 : Option String → Bool
is_version_2 none = false
is_version_2 (some v) = str_eq v schema_version_2

unfoldable pub version_2 : Conn → Bool
unfolding schema_version
version_2 con = is_version_2 (or_none (schema_version con).0)

-- `CofferFS::new`, with the ceiling that the container has.
unfoldable pub filesystem : Host → Bool → Conn → CofferFs
unfolding schema_version read_max_size has_xattrs
filesystem host read_only con =
    let con' = (schema_version con).1 in
    record {
      max_size = or_no_limit (read_max_size con').0;
      uid = host.uid;
      gid = host.gid;
      read_only = read_only;
      has_xattrs = has_xattrs (read_max_size con').1.db;
    }

abbrev or_automatic : Option Locking → Locking
or_automatic none = automatic
or_automatic (some l) = l

unfoldable pub is_exclusive : Host → MountOpts → Bool
unfolding exclusive_for
is_exclusive host opts =
    not opts.read_only && exclusive_for (or_automatic opts.locking) host.on_network_fs

-- Whether there is a socket.
abbrev pub socket : Host → Bool → Mounting Bool
socket host false = pure false
socket host true = step bind_socket (ok host.socket_bound)

-- In the background, or in the foreground with a log.
abbrev pub detach : Host → Bool → Bool → Mounting (Unit {0})
detach host false logs = step daemonize host.daemonized
detach host true true = step redirect host.redirected
detach host true false = pure tt

-- `open_db_for_mount`, with the normal locking where it fails; then there is no socket any more.
abbrev pub take_over : Host → List ℕ → Bool → Bool → Mounting Bool
take_over host pw true server = do step (open_exclusive true) (ok tt); pure server
take_over host pw false server = do
  step (open_exclusive false) (ok tt)
  step (open_db false) (host.reopened pw false)
  pure false

-- The connection that the mount serves from, and whether there is a socket still.
abbrev pub reconnect : Host → Bool → Bool → Bool → List ℕ → Bool → Mounting Bool
reconnect host foreground read_only true pw server = do
  step close_db host.in_memory
  take_over host pw (host.opened_exclusive pw) server
reconnect host false read_only false pw server = do
  step close_db host.in_memory
  step (open_db read_only) (host.reopened pw read_only)
  pure server
reconnect host true read_only false pw server = pure server

abbrev given_duration : Result SizeError ℕ → Answer (Option ℕ)
given_duration (ok d) = ok (some d)
given_duration (err e) = err (duration e)

-- `opts.map(parse_duration).transpose()?`
module _ (F : Floats) where
  unfoldable pub duration_given : Option String → Answer (Option ℕ)
  unfolding parse_duration
  duration_given none = ok none
  duration_given (some s) = given_duration (parse_duration F s)

  -- From the opened container on.
  unfoldable pub serve_container :
      Host → MountOpts → Option ℕ → Option ℕ → List ℕ → Conn → Mounting (Unit {0})
  unfolding version_2 filesystem is_exclusive
  serve_container host opts idle compact pw con = do
    perform (refuse (not (version_2 con)) old_format)
    server ← socket host (is_exclusive host opts)
    step (new_session opts.read_only opts.enforce_permissions (filesystem host opts.read_only con))
        host.mounted
    detach host opts.foreground (not (is_none opts.log))
    given idle (λ d. step (watch_idle d) (ok tt))
    serving ← reconnect host opts.foreground opts.read_only (is_exclusive host opts) pw server
    only_if serving (step serve_socket (ok tt))
    given compact (λ d. step (watch_compact d) (ok tt))
    step run host.ran

  -- From the lock on.
  unfoldable pub lock_container : Host → MountOpts → Option ℕ → Option ℕ → Mounting (Unit {0})
  unfolding serve_container asked_password
  lock_container host opts idle compact = do
    step lock host.locked
    step make_mountpoint host.mountpoint_made
    empty ← perform host.mountpoint_empty
    perform (refuse (not empty) not_empty)
    perform host.canonical_mountpoint
    pw ← step read_password (asked_password host opts)
    con ← step (open_db opts.read_only) (host.opened pw opts.read_only)
    serve_container host opts idle compact pw con

  unfoldable pub cmd_mount : Host → MountOpts → Mounting (Unit {0})
  unfolding lock_container duration_given
  cmd_mount host opts = do
    idle ← perform (duration_given opts.idle_timeout)
    compact ← perform (duration_given opts.compact_on_idle)
    perform (refuse (opts.read_only && not (is_none compact)) needs_writable)
    perform host.canonical_file
    given compact (λ d. step use_temp_dir (ok tt))
    given opts.log (λ path. step open_log host.log_opened)
    lock_container host opts idle compact
