-- ===== src/Cli/Umount.antt =====
-- src/main.rs: `umount`.
pub mod Abort
use coffer_fs.Base.{
  ℕ, Bool, true, false, not, ◌&&◌, ◌||◌, ◌>>=◌, ◌>>◌, Option, none, some, String, List, [], ◌∷◌,
  Result, ok, err, if◌then◌else◌, keep,
}
use coffer_fs.Config.{Config}
use coffer_fs.Config.Vaults.{Vault, get, vaults}
use coffer_fs.Cli.Mounts.{coffer_mounts, is_mounted, is_mountpoint, fuse_connection_id}
use coffer_fs.Cli.Options.{
  CliError, no_vaults, not_mounted, none_mounted, not_registered, Env, of_config, registered,
  looks_like_path, pick_vault,
}

-- What the system answers: the mount table, a mountpoint as it stands in it (`mount_key`), and how
-- the plain and the lazy call of fusermount (or umount) end, where they can be started.
pub record System : Type 0 where
  pub mountinfo : Option String
  pub mount_key : String → Option (List ℕ)
  pub plain : Result CliError Bool
  pub lazy : Result CliError Bool

-- Whether the mountpoint is detached, and the connection that is aborted.
pub record Unmounted : Type 0 where
  pub success : Bool
  pub aborted : Option ℕ

abbrev pub after_lazy : Option ℕ → Bool → Unmounted
after_lazy connection true = record { success = true; aborted = connection }
after_lazy connection false = record { success = false; aborted = none }

abbrev pub after_plain : Option ℕ → Result CliError Bool → Bool → Result CliError Unmounted
after_plain connection lazy true = ok (record { success = true; aborted = none })
after_plain connection lazy false = do status ← lazy; ok (after_lazy connection status)

module _ (lossy : List ℕ → List ℕ) (sys : System) where
  -- `fusermount -u` or `umount`, then the same with `-z` or `-l`. The connection is looked up first.
  unfoldable pub run_unmount : String → Result CliError Unmounted
  unfolding fuse_connection_id
  run_unmount mountpoint =
      let connection = fuse_connection_id lossy sys.mountinfo (sys.mount_key mountpoint) in
      do status ← sys.plain; after_plain connection sys.lazy status

  abbrev pub mounted_now : Vault → Bool
  mounted_now v = is_mounted (sys.mount_key v.mountpoint) (coffer_mounts lossy sys.mountinfo)

  abbrev pub at_mountpoint : String → Bool
  at_mountpoint t = is_mountpoint lossy sys.mountinfo (sys.mount_key t)

  abbrev of_alias : String → Option Vault → Result CliError String
  of_alias t (some v) = if mounted_now v then ok v.mountpoint else err not_mounted
  of_alias t none = if at_mountpoint t then ok t else err not_registered

  abbrev pick_mounted : Env → List Vault → Result CliError Vault
  pick_mounted env [] = err none_mounted
  pick_mounted env (v ∷ vs) = pick_vault env (v ∷ vs)

  abbrev pick_registered : Env → List Vault → Result CliError Vault
  pick_registered env [] = err no_vaults
  pick_registered env (v ∷ vs) = pick_mounted env (keep mounted_now (v ∷ vs))

  abbrev pub target_mountpoint : Env → Option String → Result CliError String
  target_mountpoint env (some t) =
      if looks_like_path t then ok t else registered env t >>= of_alias t
  target_mountpoint env none = do
    cfg ← env.registry
    vs ← of_config (vaults env.home cfg)
    v ← pick_registered env vs
    ok v.mountpoint

  unfoldable pub cmd_umount : Env → Option String → Result CliError Unmounted
  unfolding run_unmount looks_like_path get vaults pick_vault is_mounted is_mountpoint coffer_mounts
  cmd_umount env target = do
    mountpoint ← target_mountpoint env target
    if at_mountpoint mountpoint then run_unmount mountpoint else err not_mounted
