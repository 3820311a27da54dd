-- ===== src/Cli/Mount/Phases.antt =====
-- src/main.rs: the phases of a mount, and the actions that may come in each.
use coffer_fs.Base.{
  ℕ, ◌≡◌, refl, ap, sym, String, Bool, true, false, not, ◌&&◌, Option, none, some, List, ok,
}
use coffer_fs.Cli.Options.{is_none}
use coffer_fs.Cli.Steps.{
  pure, step, ◌>>=◌, ◌>>◌, walk, Follows, pure-Follows, step-Follows, bind-Follows, then-Follows,
  moved-Follows, step-then,
}
use coffer_fs.Cli.Mount.{
  Action, use_temp_dir, open_log, lock, make_mountpoint, read_password, bind_socket, daemonize,
  redirect, close_db, serve_socket, run, open_db, open_exclusive, new_session, watch_idle,
  watch_compact, Host, Answer, Mounting, given, only_if, socket, detach, take_over, reconnect,
}

-- How far a mount is. `started` says whether the log is open; `serving` says whether a thread has been
-- started, whether this process has opened the connection itself, and whether it holds the container
-- exclusively.
pub data Phase : Type 0 where
  locked keyed opened mounted ended : Phase
  started closed : Bool → Phase
  serving : Bool → Bool → Bool → Phase

abbrev pub only : Bool → Phase → Option Phase
only true p = some p
only false p = none

abbrev pub same : Bool → Bool → Bool
same true b = b
same false b = not b

-- Behind the mount: a process that stays as it is serves at once, any other has to leave the terminal
-- first, or to redirect its output.
abbrev pub after_mount : Bool → Bool → Phase
after_mount true false = serving false true false
after_mount true true = mounted
after_mount false logs = mounted

-- The phase to which an action leads, where it may come. `ro` is whether the mount is read-only, `fg`
-- whether it stays in the foreground, `logs` whether it has a log.
abbrev pub next : Bool → Bool → Bool → Phase → Action → Option Phase
next ro fg logs (started logged) use_temp_dir = only (not ro) (started logged)
next ro fg logs (started logged) open_log = only (logs && not logged) (started true)
next ro fg logs (started logged) lock = only (same logs logged) locked
next ro fg logs locked make_mountpoint = some locked
next ro fg logs locked read_password = some keyed
next ro fg logs keyed (open_db r) = only (same ro r) opened
next ro fg logs opened bind_socket = only (not ro) opened
next ro fg logs opened (new_session r permissions fs) =
    only (same ro r && same ro fs.read_only) (after_mount fg logs)
next ro fg logs mounted daemonize = only (not fg) (serving false false false)
next ro fg logs mounted redirect = only (fg && logs) (serving false true false)
next ro fg logs (serving threads own held) (watch_idle d) = some (serving true own held)
next ro fg logs (serving threads own held) close_db = some (closed threads)
next ro fg logs (closed threads) (open_exclusive true) = only (not ro) (serving threads true true)
next ro fg logs (closed threads) (open_exclusive false) = only (not ro) (closed threads)
next ro fg logs (closed threads) (open_db r) = only (same ro r) (serving threads true false)
next ro fg logs (serving threads own held) serve_socket = only (own && held) (serving true own held)
next ro fg logs (serving threads own held) (watch_compact d) =
    only (not ro && own) (serving true own held)
next ro fg logs (serving threads own held) run = only own ended
next ro fg logs p a = none

pub same_refl : (b : Bool) → same b b ≡ true
same_refl true = refl
same_refl false = refl

pub detach-Follows :
    (host : Host) (ro fg logs : Bool)
    → Follows
        (next ro fg logs)
        (after_mount fg logs)
        (detach host fg logs)
        (λ u p. p ≡ serving false fg false)
detach-Follows host ro false logs =
    step-Follows (next ro false logs) daemonize host.daemonized _ refl
detach-Follows host ro true true = step-Follows (next ro true true) redirect host.redirected _ refl
detach-Follows host ro true false = pure-Follows (next ro true false) _ tt _ refl

-- A mount of one kind.
module _ (ro fg logs : Bool) where
  abbrev pub Ends : Phase → Mounting (Unit {0}) → Type 0
  Ends s m = Follows (next ro fg logs) s m (λ a p. p ≡ ended)

  -- An action that leaves the phase alone, where it is taken at all.
  pub given-Follows :
      {A : Type 0} (o : Option A) (x : A → Action) (r : Answer (Unit {0})) (s : Phase)
      → ((a : A) → o ≡ some a → next ro fg logs s (x a) ≡ some s)
      → Follows (next ro fg logs) s (given o (λ a. step (x a) r)) (λ u p. p ≡ s)
  given-Follows none x r s h = pure-Follows (next ro fg logs) s tt _ refl
  given-Follows (some a) x r s h = step-Follows (next ro fg logs) (x a) r s (h a refl)

  -- The log is open then, where there is one.
  pub log-Follows :
      (r : Answer (Unit {0})) (log : Option String)
      → logs ≡ not (is_none log)
      → Follows
          (next ro fg logs)
          (started false)
          (given log (λ path. step open_log r))
          (λ u p. p ≡ started logs)
  log-Follows r none e = pure-Follows (next ro fg logs) _ tt _ (ap started (sym e))
  log-Follows r (some path) e = step-Follows (next ro fg logs) open_log r (started logs) (rw e refl)

  open_same :
      (threads : Bool)
      → next ro fg logs (closed threads) (open_db ro) ≡ some (serving threads true false)
  open_same threads = rw (same_refl ro) refl

  -- Where there is a socket still, the container is held.
  abbrev pub Serving : Bool → Bool → Phase → Type 0
  Serving threads server p =
      (held : Bool) × (p ≡ serving threads true held) × (server ≡ true → held ≡ true)

  take_over-Follows :
      (host : Host) (pw : List ℕ) (b server threads : Bool)
      → ro ≡ false
      → Follows (next ro fg logs) (closed threads) (take_over host pw b server) (Serving threads)
  take_over-Follows host pw true server threads w =
      step-then (next ro fg logs) (open_exclusive true) (ok tt) _ (serving threads true true)
        (rw w refl)
        (λ u.
          pure-Follows (next ro fg logs) (serving threads true true) server (Serving threads)
            (true, refl, λ i. refl))
  take_over-Follows host pw false server threads w =
      step-then (next ro fg logs) (open_exclusive false) (ok tt) _ (closed threads) (rw w refl)
        (λ u.
          step-then (next ro fg logs) (open_db false) (host.reopened pw false) _
            (serving threads true false) (rw w refl)
            (λ v.
              pure-Follows (next ro fg logs) (serving threads true false) false (Serving threads)
                (false, refl, λ h. h)))

  reconnect-Follows :
      (host : Host) (foreground b : Bool) (pw : List ℕ) (server threads : Bool)
      → (b ≡ true → ro ≡ false)
      → (server ≡ true → b ≡ true)
      → Follows
          (next ro fg logs)
          (serving threads foreground false)
          (reconnect host foreground ro b pw server)
          (Serving threads)
  reconnect-Follows host foreground true pw server threads w x =
      step-then (next ro fg logs) close_db host.in_memory _ (closed threads) refl
        (λ u. take_over-Follows host pw (host.opened_exclusive pw) server threads (w refl))
  reconnect-Follows host false false pw server threads w x =
      step-then (next ro fg logs) close_db host.in_memory _ (closed threads) refl (λ u.
        step-then (next ro fg logs) (open_db ro) (host.reopened pw ro) _
          (serving threads true false) (open_same threads)
          (λ v.
            pure-Follows (next ro fg logs) (serving threads true false) server (Serving threads)
              (false, refl, x)))
  reconnect-Follows host true false pw server threads w x =
      pure-Follows (next ro fg logs) (serving threads true false) server (Serving threads)
        (false, refl, x)

  run-Ends :
      (r : Answer (Unit {0})) (threads held : Bool) → Ends (serving threads true held) (step run r)
  run-Ends r threads held = step-Follows (next ro fg logs) run r ended refl

  compacting-Ends :
      (compact : Option ℕ) (r : Answer (Unit {0})) (threads held : Bool)
      → ((d : ℕ) → compact ≡ some d → ro ≡ false)
      → Ends
          (serving threads true held)
          (given compact (λ d. step (watch_compact d) (ok tt)) >> step run r)
  compacting-Ends none r threads held w =
      then-Follows (next ro fg logs) (pure tt) _ (serving threads true held)
        (pure-Follows (next ro fg logs) _ tt _ refl) (λ u. run-Ends r threads held)
  compacting-Ends (some d) r threads held w =
      step-then (next ro fg logs) (watch_compact d) (ok tt) _ (serving true true held)
        (rw (w d refl) refl) (λ u. run-Ends r true held)

  serving-Ends :
      (server : Bool) (compact : Option ℕ) (r : Answer (Unit {0})) (threads held : Bool)
      → (server ≡ true → held ≡ true)
      → ((d : ℕ) → compact ≡ some d → ro ≡ false)
      → Ends (serving threads true held) (
          only_if server (step serve_socket (ok tt))
          >> (given compact (λ d. step (watch_compact d) (ok tt)) >> step run r))
  serving-Ends true compact r threads held x w =
      step-then (next ro fg logs) serve_socket (ok tt) _ (serving true true held) (rw (x refl) refl)
        (λ u. compacting-Ends compact r true held w)
  serving-Ends false compact r threads held x w =
      then-Follows (next ro fg logs) (pure tt) _ (serving threads true held)
        (pure-Follows (next ro fg logs) _ tt _ refl) (λ u. compacting-Ends compact r threads held w)

  -- From the mounted session on.
  pub session-Ends :
      (host : Host) (foreground b server : Bool) (compact : Option ℕ) (pw : List ℕ) (threads : Bool)
      → (b ≡ true → ro ≡ false)
      → (server ≡ true → b ≡ true)
      → ((d : ℕ) → compact ≡ some d → ro ≡ false)
      → Ends (serving threads foreground false) (
          reconnect host foreground ro b pw server >>= λ on.
          only_if on (step serve_socket (ok tt))
          >> (given compact (λ d. step (watch_compact d) (ok tt)) >> step run host.ran))
  session-Ends host foreground b server compact pw threads v x w =
      bind-Follows (next ro fg logs) (reconnect host foreground ro b pw server) _
        (reconnect-Follows host foreground b pw server threads v x)
        (λ on p q.
          moved-Follows (next ro fg logs) _ _ q.1
            (serving-Ends on compact host.ran threads q.0 q.2 w))

  pub socket-Follows :
      (host : Host) (b : Bool)
      → (b ≡ true → ro ≡ false)
      → Follows
          (next ro fg logs)
          opened
          (socket host b)
          (λ server p. (p ≡ opened) × (server ≡ true → b ≡ true))
  unfolding walk step
  socket-Follows host false w =
      pure-Follows (next ro fg logs) opened false
        (λ server p. (p ≡ opened) × (server ≡ true → false ≡ true)) (refl, λ h. h)
  socket-Follows host true w = record {
    reached = opened;
    walked = rw (w refl) refl;
    ended = (refl, λ h. refl);
  }
