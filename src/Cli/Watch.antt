-- ===== src/Cli/Watch.antt =====
-- src/main.rs: the threads that unmount or compact a mount that is idle. Times are in nanoseconds,
-- the last activity in seconds, as the program stores it.
use coffer_fs.Base.{
  ℕ, ◌+◌, ◌-◌, ◌*◌, min, max, Bool, false, not, ◌||◌, Option, none, some, List, [], ◌∷◌, ltb, leb,
  if◌then◌else◌,
}

abbrev pub second : ℕ
second = 1000000000

-- `timeout.min(30 s).max(1 s)`
unfoldable pub poll_interval : ℕ → ℕ
poll_interval timeout = max (min timeout (30 * second)) second

-- `now - last_activity as f64 >= timeout`
abbrev pub is_idle : ℕ → ℕ → ℕ → Bool
is_idle timeout now last_activity = leb (last_activity * second + timeout) now

-- What a watcher reads after each sleep: the time, and the last activity.
abbrev pub Sample : Type 0
Sample = ℕ × ℕ

-- The time at which the idle watcher unmounts, and ends.
unfoldable pub idle_watcher : ℕ → List Sample → Option ℕ
idle_watcher timeout [] = none
idle_watcher timeout ((now, last_activity) ∷ samples) =
    let rest = idle_watcher timeout samples in
    if is_idle timeout now last_activity then some now else rest

-- One round of the compacting watcher: both readings of clock and activity, the size of the file
-- where it can be read, and the sum of the sizes inside.
pub record Round : Type 0 where
  pub before : Sample
  pub on_disk : Option ℕ
  pub locked : Sample
  pub used : ℕ

-- 0.10 of the file, without the rounding of f64.
abbrev pub worthwhile : ℕ → ℕ → Bool
worthwhile on_disk gap = not (ltb gap 67108864 || ltb (gap * 10) on_disk)

abbrev pub compacts : ℕ → Round → Option ℕ → Bool
compacts threshold r none = false
compacts threshold r (some on_disk) =
    if not (is_idle threshold r.before.0 r.before.1)
    then false
    else if not (is_idle threshold r.locked.0 r.locked.1)
    then false
    else worthwhile on_disk (on_disk - r.used)

-- The rounds in which VACUUM is run.
unfoldable pub compact_watcher : ℕ → List Round → List Bool
compact_watcher threshold [] = []
compact_watcher threshold (r ∷ rs) = compacts threshold r r.on_disk ∷ compact_watcher threshold rs

-- Rounds of sleep behind `start`, each longer than the interval by its delay, as a sleep may be, in a
-- mount where nothing happens after `last_activity`.
abbrev pub ticks : List ℕ → ℕ → ℕ → ℕ → List Sample
ticks [] start poll last_activity = []
ticks (delay ∷ delays) start poll last_activity =
    (start + (poll + delay), last_activity)
    ∷ ticks delays (start + (poll + delay)) poll last_activity

module _ (timeout last_activity late : ℕ) where
  abbrev pub deadline : ℕ
  deadline = last_activity * second + timeout
