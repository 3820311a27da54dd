-- ===== src/Cli/Tests/Commands.antt =====
-- The theorems on `mount` and `passwd` of src/main.rs at one run each.
use coffer_fs.Base.{◌≡◌, refl, true, false, some, none, [], ◌∷◌, ok, err}
use coffer_fs.Cli.Registry.Saved.{no_flags}
use coffer_fs.Db.{Db}
use coffer_fs.Sql.{Conn}
use coffer_fs.Cli.Passwords.{empty, read_password_source}
use coffer_fs.Cli.Locked
use coffer_fs.Cli.Locked.{cmd_passwd, Changed, cmd_passwd-Changed}
use coffer_fs.Cli.Steps.{Follows}
use coffer_fs.Cli.Mount.{
  lock, make_mountpoint, read_password, open_db, bind_socket, new_session, daemonize, close_db,
  open_exclusive, serve_socket, run, Host, cmd_mount,
}
use coffer_fs.Cli.Mount.Phases.{started, ended}
use coffer_fs.Cli.Mount.Protocol.{allowed, cmd_mount-Follows}
use coffer_fs.Cli.Tests.{whole}

abbrev container : Db
container = record {
  meta = record { key = "schema_version"; value = "2" } ∷ [];
  inodes = [];
  dentries = [];
  blocks = [];
  xattrs = some [];
  seq = 0;
}

abbrev con : Conn
con = record { db = container; last_activity = 0; clock = λ n. some 0; faults = λ n. none }

abbrev host : Host
host = record {
  canonical_file = ok tt;
  log_opened = ok tt;
  locked = ok tt;
  mountpoint_made = ok tt;
  mountpoint_empty = ok true;
  canonical_mountpoint = ok tt;
  on_network_fs = true;
  sources = record {
    first_answer = ok "pw";
    second_answer = ok "pw";
    file_text = λ s. err empty;
    command_output = λ s. err empty;
  };
  opened = λ pw ro. ok con;
  socket_bound = true;
  uid = 1000;
  gid = 1000;
  mounted = ok tt;
  daemonized = ok tt;
  redirected = ok tt;
  in_memory = ok tt;
  opened_exclusive = λ pw. true;
  reopened = λ pw ro. ok tt;
  ran = ok tt;
}

-- A run in the background, on a network file system.
mounts : cmd_mount whole host no_flags ≡ (
  lock
      ∷ make_mountpoint
      ∷ read_password
      ∷ open_db false
      ∷ bind_socket
      ∷ new_session false false
          (record { max_size = 0; uid = 1000; gid = 1000; read_only = false; has_xattrs = true })
      ∷ daemonize
      ∷ close_db
      ∷ open_exclusive true
      ∷ serve_socket
      ∷ run
      ∷ [],
  ok tt,
)
unfolding cmd_mount coffer_fs.Cli.Steps.◌>>=◌ coffer_fs.Cli.Steps.perform coffer_fs.Cli.Steps.pure
    coffer_fs.Cli.Steps.step coffer_fs.Sql.◌>>=◌ coffer_fs.Sql.statement
    coffer_fs.Db.Container.find_meta
mounts = refl

cmd_mount-Follows_example :
    Follows (allowed no_flags) (started false) (cmd_mount whole host no_flags) (λ u p. p ≡ ended)
cmd_mount-Follows_example = cmd_mount-Follows whole host no_flags

abbrev changing : Locked.Host
changing = record {
  locked = ok tt;
  absolute = ok tt;
  sources = host.sources;
  new_sources = record host.sources { first_answer = ok "new"; second_answer = ok "new" };
  opened = λ pw. ok tt;
  rekeyed = λ pw. ok tt;
  metadata = ok tt;
  vacuumed = ok tt;
  metadata_after = ok tt;
}

changes_password : (cmd_passwd changing none none none).1 ≡ ok tt
unfolding cmd_passwd coffer_fs.Cli.Steps.◌>>=◌ coffer_fs.Cli.Steps.step
changes_password = refl

cmd_passwd-Changed_example :
    Changed changing
      (read_password_source changing.sources none none false)
      (read_password_source changing.new_sources none none true)
      (cmd_passwd changing none none none).0
cmd_passwd-Changed_example = cmd_passwd-Changed changing none none none changes_password
