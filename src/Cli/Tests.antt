-- ===== src/Cli/Tests.antt =====
-- The theorems on src/main.rs at a small registry and a small mount table.
mod Commands
use coffer_fs.Base.{
  ℕ, ◌≡◌, ◌↔◌, ◌*◌, refl, true, false, some, none, String, List, [], ◌∷◌, ok, err, as_bytes, ltb,
  if◌then◌else◌, arith,
}
use Prim.Native.String.{◌++◌}
use coffer_fs.Base.{is_utf8}
use coffer_fs.Base.Words.{trim, all_chars}
use coffer_fs.Config.{Config, validate_alias}
use coffer_fs.Config.Vaults.{Vault, expand_tilde}
use coffer_fs.Config.Edit.{upsert}
use coffer_fs.Config.Edit.RoundTrip.{IsStorable}
use coffer_fs.Cli.Mounts.{unescape_mountinfo}
use coffer_fs.Cli.Mounts.Escapes.{escape, unescape_mountinfo-escape}
use coffer_fs.Cli.Options.{Env, Plan, plan_mount}
use coffer_fs.Cli.Sizes.{Floats}
use coffer_fs.Cli.Registry.{Disk, absolutised, cmd_add}
use coffer_fs.Cli.Registry.Saved.{no_flags, Mounts, cmd_add-plan_mount}
use coffer_fs.Cli.Umount.{System, cmd_umount, target_mountpoint}
use coffer_fs.Cli.Umount.Abort.{Aborts, cmd_umount-Aborts}

abbrev same : List ℕ → List ℕ
same bs = bs

-- "é b"
spaced : as_bytes "é\\040b" ≡ escape (195 ∷ 169 ∷ 32 ∷ 98 ∷ [])
unfolding as_bytes escape
spaced = refl

spaced-utf8 : is_utf8 (195 ∷ 169 ∷ 32 ∷ 98 ∷ []) ≡ true
unfolding is_utf8
spaced-utf8 = refl

unescape_mountinfo-escape_example : unescape_mountinfo same "é\\040b" ≡ 195 ∷ 169 ∷ 32 ∷ 98 ∷ []
unescape_mountinfo-escape_example =
    unescape_mountinfo-escape same (195 ∷ 169 ∷ 32 ∷ 98 ∷ []) "é\\040b" (λ bs u. refl)
      (omega arith, (omega arith, (omega arith, (omega arith, tt)))) spaced-utf8 spaced

-- Numbers without a fraction.
abbrev pub whole : Floats
whole = record {
  F64 = ℕ;
  parse_f64 = λ s. some 3;
  times = λ v n. v * n;
  is_finite = λ v. true;
  is_negative = λ v. false;
  to_u64 = λ v. v;
  from_secs_f64 = λ v. if ltb v 18446744073709551616 then some (v * 1000000000) else none;
  uppercase = λ s. s;
}

abbrev disk : Disk
disk = record { is_file = λ s. true; absolute = λ s. ok ("/home/me/" ++ s); save = ok tt }

abbrev vault : Vault
vault = record {
  alias = "music";
  file = "c.coffer";
  mountpoint = "mnt";
  idle_timeout = none;
  compact_on_idle = none;
  password_file = none;
  password_command = none;
  log_file = some "log";
  read_only = true;
  enforce_permissions = false;
  locking = none;
}

abbrev stored : Vault
stored = record vault {
  file = "/home/me/c.coffer";
  mountpoint = "/home/me/mnt";
  log_file = some "/home/me/log";
}

abbrev empty_registry : Config
empty_registry = record { preamble = []; sections = [] }

abbrev env_after : Env
env_after = record {
  registry = ok (upsert stored empty_registry).1;
  home = none;
  exists = λ s. true;
  is_terminal = false;
  answers = [];
}

added : cmd_add whole disk empty_registry vault ≡ ok (upsert stored empty_registry)
unfolding cmd_add absolutised validate_alias all_chars
added = refl

stored-IsStorable : IsStorable none stored
unfolding trim expand_tilde
stored-IsStorable = record {
  file = (record { nonempty = refl; left = refl; right = refl; unquoted = refl }, refl);
  mountpoint = (record { nonempty = refl; left = refl; right = refl; unquoted = refl }, refl);
  idle_timeout = tt;
  compact_on_idle = tt;
  password_file = tt;
  password_command = tt;
  log_file = (record { nonempty = refl; left = refl; right = refl; unquoted = refl }, refl);
}

stored_absolute : absolutised disk vault ≡ ok stored
unfolding absolutised
stored_absolute = refl

cmd_add-plan_mount_example :
    (plan : Plan) × (plan_mount env_after (some "music") none no_flags ≡ ok plan)
    × Mounts disk vault plan
cmd_add-plan_mount_example =
    cmd_add-plan_mount whole disk empty_registry vault stored (upsert stored empty_registry)
      env_after added stored_absolute stored-IsStorable refl

abbrev hung : System
hung = record {
  mountinfo = some "36 25 0:45 / /mnt rw - fuse coffer rw\n";
  mount_key = λ s. some (as_bytes s);
  plain = ok false;
  lazy = ok true;
}

hung_unmounted :
    cmd_umount same hung env_after (some "/mnt") ≡ ok (record { success = true; aborted = some 45 })
unfolding cmd_umount as_bytes
hung_unmounted = refl

cmd_umount-Aborts_example :
    (mountpoint : String) × (target_mountpoint same hung env_after (some "/mnt") ≡ ok mountpoint)
    × Aborts same hung mountpoint 45
cmd_umount-Aborts_example =
    cmd_umount-Aborts same hung env_after (some "/mnt")
      (record { success = true; aborted = some 45 }) 45 hung_unmounted refl
