-- ===== src/Cli/Mount/Protocol.antt =====
-- src/main.rs: the protocol that `cmd_mount` keeps to.
use coffer_fs.Base.{ℕ, ◌≡◌, refl, Bool, true, false, not, ◌&&◌, Option, none, some, List, ok}
use coffer_fs.Base.{arith}
use coffer_fs.Sql.{Conn}
use coffer_fs.Db.Locking.{exclusive_for}
use coffer_fs.Cli.Sizes.{Floats}
use coffer_fs.Cli.Options.{MountOpts, is_none}
use coffer_fs.Cli.Steps.{
  pure, step, walk, Follows, bind-Follows, then-Follows, moved-Follows, perform-then, step-then,
}
use coffer_fs.Cli.Mount.{
  Action, use_temp_dir, open_log, lock, make_mountpoint, read_password, open_db, new_session,
  watch_idle, Host, MountError, needs_writable, not_empty, old_format, refuse, given, version_2,
  filesystem, is_exclusive, socket, detach, duration_given, asked_password, lock_container,
  serve_container, cmd_mount,
}
use coffer_fs.Cli.Mount.Phases.{
  same_refl, detach-Follows, given-Follows, log-Follows, session-Ends, socket-Follows, Ends, Phase,
  next, after_mount, started, locked, keyed, opened, ended, serving,
}

exclusive_writable :
    (host : Host) (opts : MountOpts) → is_exclusive host opts ≡ true → opts.read_only ≡ false
unfolding is_exclusive exclusive_for
exclusive_writable host opts h = ground (arith, h)

-- What the protocol allows to a mount with these options.
abbrev pub allowed : MountOpts → Phase → Action → Option Phase
allowed opts = next opts.read_only opts.foreground (not (is_none opts.log))

module _ (F : Floats) (host : Host) (opts : MountOpts) where
  abbrev logs : Bool
  logs = not (is_none opts.log)

  abbrev Compacts : Option ℕ → Type 0
  Compacts compact = (d : ℕ) → compact ≡ some d → opts.read_only ≡ false

  given_watch-Follows :
      (idle : Option ℕ)
      → Follows
          (allowed opts)
          (serving false opts.foreground false)
          (given idle (λ d. step {E = MountError} (watch_idle d) (ok tt)))
          (λ u p. (threads : Bool) × (p ≡ serving threads opts.foreground false))
  unfolding walk step pure
  given_watch-Follows none = record { reached = _; walked = refl; ended = (false, refl) }
  given_watch-Follows (some d) = record { reached = _; walked = refl; ended = (true, refl) }

  filesystem_same :
      (con : Conn)
      → allowed opts opened
          (new_session opts.read_only opts.enforce_permissions (filesystem host opts.read_only con))
        ≡ some (after_mount opts.foreground logs)
  unfolding filesystem
  filesystem_same con = rw (same_refl opts.read_only) refl

  serve_container-Ends :
      (idle compact : Option ℕ) (pw : List ℕ) (con : Conn)
      → Compacts compact
      → Ends opts.read_only opts.foreground logs opened
          (serve_container F host opts idle compact pw con)
  unfolding serve_container
  serve_container-Ends idle compact pw con w =
      let b = is_exclusive host opts in
      perform-then (allowed opts) (refuse (not (version_2 con)) old_format) _ (λ u v.
        bind-Follows (allowed opts) (socket host b) _
          (socket-Follows opts.read_only opts.foreground logs host b (exclusive_writable host opts))
          (λ server p q. moved-Follows (allowed opts) _ _ q.0 (
            step-then (allowed opts)
              (new_session opts.read_only opts.enforce_permissions
                (filesystem host opts.read_only con))
              host.mounted _ (after_mount opts.foreground logs) (filesystem_same con)
              (λ x.
                then-Follows (allowed opts) (detach host opts.foreground logs) _
                  (serving false opts.foreground false)
                  (detach-Follows host opts.read_only opts.foreground logs)
                  (λ y.
                    bind-Follows (allowed opts) (given idle (λ d. step (watch_idle d) (ok tt))) _
                      (given_watch-Follows idle)
                      (λ z r t. moved-Follows (allowed opts) _ _ t.1 (
                        session-Ends opts.read_only opts.foreground logs host opts.foreground b
                          server compact pw t.0 (exclusive_writable host opts) q.1 w)))))))

  -- From the lock on.
  locked-Ends :
      (idle compact : Option ℕ)
      → Compacts compact
      → Ends opts.read_only opts.foreground logs
          (started logs)
          (lock_container F host opts idle compact)
  unfolding lock_container
  locked-Ends idle compact w =
      let n = allowed opts in
      step-then n lock host.locked _ locked (rw (same_refl logs) refl) (λ a.
        step-then n make_mountpoint host.mountpoint_made _ locked refl (λ b.
          perform-then n host.mountpoint_empty _ (λ empty c.
            perform-then n (refuse (not empty) not_empty) _ (λ d e.
              perform-then n host.canonical_mountpoint _ (λ f g.
                step-then n read_password (asked_password host opts) _ keyed refl (λ pw.
                  step-then n (open_db opts.read_only) (host.opened pw opts.read_only) _ opened
                    (rw (same_refl opts.read_only) refl)
                    (λ con. serve_container-Ends idle compact pw con w)))))))

  writable_where_compacting :
      (compact : Option ℕ) (u : Unit {0})
      → refuse (opts.read_only && not (is_none compact)) needs_writable ≡ ok u
      → Compacts compact
  writable_where_compacting compact u r d e = ground (arith, r, e)

  -- Whatever the system answers, the actions of `cmd_mount` come as the protocol allows, and where it
  -- ends well, the session has been run to its end. The protocol: the lock is taken only with the log
  -- open, where one is asked for, and no password is asked for and no container opened before the lock
  -- is held; every connection, the kernel's mount and the file system are as read-only as asked for;
  -- only with the mount made does the program leave the terminal, as it must in the background, or
  -- redirect its output, as it must in the foreground with a log, and it starts threads only after
  -- that; a process in the background runs the session, serves a socket or compacts only from a
  -- connection that it has opened itself, behind the closing of the first; a socket is served only
  -- while the container is held exclusively; a read-only mount has no socket, holds nothing exclusively
  -- and is not compacted.
  pub cmd_mount-Follows :
      Follows (allowed opts) (started false) (cmd_mount F host opts) (λ u p. p ≡ ended)
  unfolding cmd_mount
  cmd_mount-Follows =
      let n = allowed opts in
      perform-then n (duration_given F opts.idle_timeout) _ (λ idle i.
        perform-then n (duration_given F opts.compact_on_idle) _ (λ compact c.
          perform-then n (refuse (opts.read_only && not (is_none compact)) needs_writable) _ (λ u r.
            perform-then n host.canonical_file _ (λ v f.
              let w = writable_where_compacting compact u r in
              then-Follows n (given compact (λ d. step use_temp_dir (ok tt))) _ (started false)
                (given-Follows opts.read_only opts.foreground logs compact (λ d. use_temp_dir)
                  (ok tt) (started false) (λ d e. rw (w d e) refl))
                (λ x.
                  then-Follows n (given opts.log (λ path. step open_log host.log_opened)) _
                    (started logs)
                    (log-Follows opts.read_only opts.foreground logs host.log_opened opts.log refl)
                    (λ y. locked-Ends idle compact w))))))
