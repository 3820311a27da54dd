-- ===== src/Config/Edit/RoundTrip.antt =====
-- src/config.rs: the lines that `render` writes for a vault are read back by `vault_from`.
use Prim.Native.String.{◌++◌ as append}
use text.Mathlib.TextLemmas.{append_assoc}
use coffer_fs.Base.{
  ◌≡◌, refl, ap, ◌∙◌, String, Bool, true, false, Option, none, some, List, [], ◌∷◌, ok,
}
use coffer_fs.Base.Words.{trim}
use coffer_fs.Config.Vaults.{
  Vault, Fields, expand_tilde, set_field, read_fields, vault_from, finish, no_fields,
}
use coffer_fs.Config.Edit.{setting, flag, lock_setting, render}
use coffer_fs.Config.Edit.Laws.{parse_locking-as_str}
use coffer_fs.Db.Locking.{Locking, automatic, exclusive, normal, as_str}
use coffer_fs.Config.Edit.Lines.{
  IsPlain, read_fields-line, file-IsKey, mountpoint-IsKey, idle_timeout-IsKey,
  compact_on_idle-IsKey, password_file-IsKey, password_command-IsKey, log_file-IsKey,
  read_only-IsKey, enforce_permissions-IsKey, locking-IsKey,
}

-- A path that `~` does not start.
abbrev pub IsPlace : Option String → String → Type 0
IsPlace home v = IsPlain v × (expand_tilde home v ≡ v)

abbrev pub Each : (String → Type 0) → Option String → Type 0
Each P none = Unit
Each P (some v) = P v

module _ (home : Option String) where
  read_file :
      (v : String) (ls : List String) (fs : Fields)
      → IsPlace home v
      → read_fields home (append "file = " v ∷ ls) fs
        ≡ read_fields home ls (record fs { file = some v })
  unfolding set_field
  read_file v ls fs p =
      ap (λ l. read_fields home (l ∷ ls) fs) (append_assoc "file" " = " v)
      ∙ read_fields-line home "file" v ls fs (record fs { file = some (expand_tilde home v) })
          file-IsKey p.0 refl
      ∙ ap (λ w. read_fields home ls (record fs { file = some w })) p.1

  read_mountpoint :
      (v : String) (ls : List String) (fs : Fields)
      → IsPlace home v
      → read_fields home (append "mountpoint = " v ∷ ls) fs
        ≡ read_fields home ls (record fs { mountpoint = some v })
  unfolding set_field
  read_mountpoint v ls fs p =
      ap (λ l. read_fields home (l ∷ ls) fs) (append_assoc "mountpoint" " = " v)
      ∙ read_fields-line home "mountpoint" v ls fs
          (record fs { mountpoint = some (expand_tilde home v) }) mountpoint-IsKey p.0 refl
      ∙ ap (λ w. read_fields home ls (record fs { mountpoint = some w })) p.1

  read_idle_timeout :
      (o : Option String) (ls : List String) (fs : Fields)
      → Each IsPlain o
      → fs.idle_timeout ≡ none
      → read_fields home (setting "idle_timeout" o ls) fs
        ≡ read_fields home ls (record fs { idle_timeout = o })
  unfolding set_field
  read_idle_timeout none ls fs p e =
      ap (read_fields home ls) (λ i. record fs { idle_timeout = e i })
  read_idle_timeout (some v) ls fs p e =
      read_fields-line home "idle_timeout" v ls fs (record fs { idle_timeout = some v })
        idle_timeout-IsKey p refl

  read_compact_on_idle :
      (o : Option String) (ls : List String) (fs : Fields)
      → Each IsPlain o
      → fs.compact_on_idle ≡ none
      → read_fields home (setting "compact_on_idle" o ls) fs
        ≡ read_fields home ls (record fs { compact_on_idle = o })
  unfolding set_field
  read_compact_on_idle none ls fs p e =
      ap (read_fields home ls) (λ i. record fs { compact_on_idle = e i })
  read_compact_on_idle (some v) ls fs p e =
      read_fields-line home "compact_on_idle" v ls fs (record fs { compact_on_idle = some v })
        compact_on_idle-IsKey p refl

  read_password_command :
      (o : Option String) (ls : List String) (fs : Fields)
      → Each IsPlain o
      → fs.password_command ≡ none
      → read_fields home (setting "password_command" o ls) fs
        ≡ read_fields home ls (record fs { password_command = o })
  unfolding set_field
  read_password_command none ls fs p e =
      ap (read_fields home ls) (λ i. record fs { password_command = e i })
  read_password_command (some v) ls fs p e =
      read_fields-line home "password_command" v ls fs (record fs { password_command = some v })
        password_command-IsKey p refl

  read_password_file :
      (o : Option String) (ls : List String) (fs : Fields)
      → Each (IsPlace home) o
      → fs.password_file ≡ none
      → read_fields home (setting "password_file" o ls) fs
        ≡ read_fields home ls (record fs { password_file = o })
  unfolding set_field
  read_password_file none ls fs p e =
      ap (read_fields home ls) (λ i. record fs { password_file = e i })
  read_password_file (some v) ls fs p e =
      read_fields-line home "password_file" v ls fs
        (record fs { password_file = some (expand_tilde home v) }) password_file-IsKey p.0 refl
      ∙ ap (λ w. read_fields home ls (record fs { password_file = some w })) p.1

  read_log_file :
      (o : Option String) (ls : List String) (fs : Fields)
      → Each (IsPlace home) o
      → fs.log_file ≡ none
      → read_fields home (setting "log_file" o ls) fs
        ≡ read_fields home ls (record fs { log_file = o })
  unfolding set_field
  read_log_file none ls fs p e = ap (read_fields home ls) (λ i. record fs { log_file = e i })
  read_log_file (some v) ls fs p e =
      read_fields-line home "log_file" v ls fs (record fs { log_file = some (expand_tilde home v) })
        log_file-IsKey p.0 refl
      ∙ ap (λ w. read_fields home ls (record fs { log_file = some w })) p.1

  true_IsPlain : IsPlain "true"
  unfolding trim
  true_IsPlain = record { nonempty = refl; left = refl; right = refl; unquoted = refl }

  read_read_only :
      (b : Bool) (ls : List String) (fs : Fields)
      → fs.read_only ≡ false
      → read_fields home (flag "read_only" b ls) fs
        ≡ read_fields home ls (record fs { read_only = b })
  unfolding set_field
  read_read_only false ls fs e = ap (read_fields home ls) (λ i. record fs { read_only = e i })
  read_read_only true ls fs e =
      read_fields-line home "read_only" "true" ls fs (record fs { read_only = true })
        read_only-IsKey true_IsPlain refl

  read_enforce_permissions :
      (b : Bool) (ls : List String) (fs : Fields)
      → fs.enforce_permissions ≡ false
      → read_fields home (flag "enforce_permissions" b ls) fs
        ≡ read_fields home ls (record fs { enforce_permissions = b })
  unfolding set_field
  read_enforce_permissions false ls fs e =
      ap (read_fields home ls) (λ i. record fs { enforce_permissions = e i })
  read_enforce_permissions true ls fs e =
      read_fields-line home "enforce_permissions" "true" ls fs
        (record fs { enforce_permissions = true }) enforce_permissions-IsKey true_IsPlain refl

  as_str-IsPlain : (l : Locking) → IsPlain (as_str l)
  unfolding trim as_str
  as_str-IsPlain automatic = record { nonempty = refl; left = refl; right = refl; unquoted = refl }
  as_str-IsPlain exclusive = record { nonempty = refl; left = refl; right = refl; unquoted = refl }
  as_str-IsPlain normal = record { nonempty = refl; left = refl; right = refl; unquoted = refl }

  read_locking :
      (o : Option Locking) (fs : Fields)
      → fs.locking ≡ none
      → read_fields home (lock_setting o) fs ≡ ok (record fs { locking = o })
  unfolding set_field read_fields
  read_locking none fs e = ap ok (λ i. record fs { locking = e i })
  read_locking (some l) fs e =
      ap (λ t. read_fields home (t ∷ []) fs) (append_assoc "locking" " = " (as_str l))
      ∙ read_fields-line home "locking" (as_str l) [] fs (record fs { locking = some l })
          locking-IsKey (as_str-IsPlain l) (rw (parse_locking-as_str l) refl)

-- Values that the registry can hold. Quotes round a whole value would be taken off.
pub record IsStorable (home : Option String) (v : Vault) : Type 0 where
  pub file : IsPlace home v.file
  pub mountpoint : IsPlace home v.mountpoint
  pub idle_timeout : Each IsPlain v.idle_timeout
  pub compact_on_idle : Each IsPlain v.compact_on_idle
  pub password_file : Each (IsPlace home) v.password_file
  pub password_command : Each IsPlain v.password_command
  pub log_file : Each (IsPlace home) v.log_file

-- The lines of a vault from each key on, and the fields after each.
module _ (v : Vault) where
  abbrev from_locking : List String
  from_locking = lock_setting v.locking

  abbrev from_enforce_permissions : List String
  from_enforce_permissions = flag "enforce_permissions" v.enforce_permissions from_locking

  abbrev from_read_only : List String
  from_read_only = flag "read_only" v.read_only from_enforce_permissions

  abbrev from_log_file : List String
  from_log_file = setting "log_file" v.log_file from_read_only

  abbrev from_password_command : List String
  from_password_command = setting "password_command" v.password_command from_log_file

  abbrev from_password_file : List String
  from_password_file = setting "password_file" v.password_file from_password_command

  abbrev from_compact_on_idle : List String
  from_compact_on_idle = setting "compact_on_idle" v.compact_on_idle from_password_file

  abbrev from_idle_timeout : List String
  from_idle_timeout = setting "idle_timeout" v.idle_timeout from_compact_on_idle

  abbrev after_mountpoint : Fields
  after_mountpoint = record no_fields { file = some v.file; mountpoint = some v.mountpoint }

  abbrev after_idle_timeout : Fields
  after_idle_timeout = record after_mountpoint { idle_timeout = v.idle_timeout }

  abbrev after_compact_on_idle : Fields
  after_compact_on_idle = record after_idle_timeout { compact_on_idle = v.compact_on_idle }

  abbrev after_password_file : Fields
  after_password_file = record after_compact_on_idle { password_file = v.password_file }

  abbrev after_password_command : Fields
  after_password_command = record after_password_file { password_command = v.password_command }

  abbrev after_log_file : Fields
  after_log_file = record after_password_command { log_file = v.log_file }

  abbrev after_read_only : Fields
  after_read_only = record after_log_file { read_only = v.read_only }

  abbrev after_enforce_permissions : Fields
  after_enforce_permissions = record after_read_only { enforce_permissions = v.enforce_permissions }

-- A vault whose texts are not empty, not in quotes, without blanks at their ends, and whose paths do not
-- start with `~`, is read back from the lines that `render` writes for it.
pub vault_from-render :
    (home : Option String) (v : Vault)
    → IsStorable home v
    → vault_from home (record { name = v.alias; content = render v }) ≡ ok v
unfolding vault_from render
vault_from-render home v s = ap (finish v.alias) (
    read_file home v.file (append "mountpoint = " v.mountpoint ∷ from_idle_timeout v) no_fields
      s.file
    ∙ read_mountpoint home v.mountpoint (from_idle_timeout v)
        (record no_fields { file = some v.file }) s.mountpoint
    ∙ read_idle_timeout home v.idle_timeout (from_compact_on_idle v) (after_mountpoint v)
        s.idle_timeout refl
    ∙ read_compact_on_idle home v.compact_on_idle (from_password_file v) (after_idle_timeout v)
        s.compact_on_idle refl
    ∙ read_password_file home v.password_file (from_password_command v) (after_compact_on_idle v)
        s.password_file refl
    ∙ read_password_command home v.password_command (from_log_file v) (after_password_file v)
        s.password_command refl
    ∙ read_log_file home v.log_file (from_read_only v) (after_password_command v) s.log_file refl
    ∙ read_read_only home v.read_only (from_enforce_permissions v) (after_log_file v) refl
    ∙ read_enforce_permissions home v.enforce_permissions (from_locking v) (after_read_only v) refl
    ∙ read_locking home v.locking (after_enforce_permissions v) refl)
