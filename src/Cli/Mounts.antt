-- ===== src/Cli/Mounts.antt =====
-- src/main.rs: the mount table that the kernel shows in /proc/self/mountinfo.
pub mod Entries
pub mod Escapes
use coffer_fs.Base.{
  ℕ, ◌+◌, ◌-◌, ◌*◌, ◌%◌, Bool, true, false, ◌&&◌, ◌||◌, Option, none, some, String, List, [], ◌∷◌,
  ◌++◌, ltb, leb, ◌==◌, str_eq, if◌then◌else◌, as_bytes,
}
use coffer_fs.Base.Words.{lines, split_on, split_second, strip_prefix}
use coffer_fs.Db.Container.Decimal.{parse_u64}
use coffer_fs.Ipc.Request.{bytes_eq}

abbrev pub is_octal : ℕ → Bool
is_octal b = leb 48 b && leb b 55

-- Three octal digits, in the u8 arithmetic of a release build.
abbrev pub octal : ℕ → ℕ → ℕ → ℕ
octal b c d = ((b - 48) * 64 + (c - 48) * 8 + (d - 48)) % 256

-- The loop of `unescape_mountinfo`: four bytes are taken as one where they are an escape.
unfoldable pub unescape : List ℕ → List ℕ
unescape [] = []
unescape (a ∷ []) = a ∷ []
unescape (a ∷ b ∷ []) = a ∷ b ∷ []
unescape (a ∷ b ∷ c ∷ []) = a ∷ b ∷ c ∷ []
unescape (a ∷ b ∷ c ∷ d ∷ bs) =
    let decoded = octal b c d ∷ unescape bs in
    let plain = a ∷ unescape (b ∷ c ∷ d ∷ bs) in
    if a == 92 && (is_octal b && (is_octal c && is_octal d)) then decoded else plain

abbrev pub parse_u32 : Option ℕ → Option ℕ
parse_u32 none = none
parse_u32 (some n) = if ltb n 4294967296 then some n else none

-- `devnum.split(':').nth(1).and_then(|m| m.parse().ok())`
abbrev pub minor_of : List String → Option ℕ
minor_of (major ∷ minor ∷ _) = parse_u32 (parse_u64 minor)
minor_of _ = none

-- `fstype == "fuse" || fstype.starts_with("fuse.")`
abbrev pub is_fuse : String → Option String → Bool
is_fuse fstype none = str_eq fstype "fuse"
is_fuse fstype (some rest) = true

abbrev pub is_ours : List String → Bool
is_ours (fstype ∷ source ∷ _) =
    is_fuse fstype (strip_prefix "fuse." fstype) && str_eq source "coffer"
is_ours _ = false

abbrev pub with_minor : List ℕ → Option ℕ → Option (List ℕ × ℕ)
with_minor mp none = none
with_minor mp (some minor) = some (mp, minor)

abbrev pub onto_found : Option (List ℕ × ℕ) → List (List ℕ × ℕ) → List (List ℕ × ℕ)
onto_found none found = found
onto_found (some m) found = m ∷ found

abbrev pub last_id : Option ℕ → List ℕ → List (List ℕ × ℕ) → Option ℕ
last_id found target [] = found
last_id found target ((mp, id) ∷ ms) =
    last_id (if bytes_eq mp target then some id else found) target ms

abbrev any_at : List ℕ → List (List ℕ × ℕ) → Bool
any_at target [] = false
any_at target ((mp, id) ∷ ms) = bytes_eq mp target || any_at target ms

unfoldable pub is_mounted : Option (List ℕ) → List (List ℕ × ℕ) → Bool
unfolding bytes_eq
is_mounted none mounts = false
is_mounted (some target) mounts = any_at target mounts

-- `lossy` is `String::from_utf8_lossy`.
module _ (lossy : List ℕ → List ℕ) where
  unfoldable pub unescape_mountinfo : String → List ℕ
  unfolding unescape
  unescape_mountinfo field = lossy (unescape (as_bytes field))

  -- The fields in front, and what stands behind the first " - ".
  abbrev pub entry_of : List String → Option String → Option (List ℕ × ℕ)
  entry_of (id ∷ parent ∷ devnum ∷ root ∷ mp ∷ _) (some tail) =
      if is_ours (split_on 32 tail)
      then with_minor (unescape_mountinfo mp) (minor_of (split_on 58 devnum))
      else none
  entry_of _ _ = none

  unfoldable pub mount_entry : String → Option (List ℕ × ℕ)
  unfolding unescape_mountinfo split_on split_second strip_prefix parse_u64
  mount_entry line = entry_of (split_on 32 line) (split_second " - " line)

  unfoldable pub found_in : List String → List (List ℕ × ℕ)
  unfolding mount_entry
  found_in [] = []
  found_in (l ∷ ls) = onto_found (mount_entry l) (found_in ls)

  -- `mountinfo` is the file, where it can be read.
  unfoldable pub coffer_mounts : Option String → List (List ℕ × ℕ)
  unfolding found_in lines
  coffer_mounts none = []
  coffer_mounts (some mountinfo) = found_in (lines mountinfo)

  -- `target` is the mountpoint as `mount_key` gives it.
  unfoldable pub fuse_connection_id : Option String → Option (List ℕ) → Option ℕ
  unfolding coffer_mounts bytes_eq
  fuse_connection_id mountinfo none = none
  fuse_connection_id mountinfo (some target) = last_id none target (coffer_mounts mountinfo)

  -- `line.split(' ').nth(4)`
  abbrev is_at : List ℕ → List String → Bool
  is_at target (id ∷ parent ∷ devnum ∷ root ∷ mp ∷ _) = bytes_eq (unescape_mountinfo mp) target
  is_at target _ = false

  abbrev any_line : List ℕ → List String → Bool
  any_line target [] = false
  any_line target (l ∷ ls) = is_at target (split_on 32 l) || any_line target ls

  unfoldable pub is_mountpoint : Option String → Option (List ℕ) → Bool
  unfolding unescape_mountinfo split_on lines bytes_eq
  is_mountpoint none target = true
  is_mountpoint (some mountinfo) none = false
  is_mountpoint (some mountinfo) (some target) = any_line target (lines mountinfo)
