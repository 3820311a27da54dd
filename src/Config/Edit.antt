-- ===== src/Config/Edit.antt =====
-- src/config.rs: adding and removing vaults, and the text that is written.
pub mod Laws
pub mod Lines
pub mod RoundTrip
pub mod Headers
pub mod Text
use Prim.Native.String.{◌++◌ as append, len}
use coffer_fs.Base.{
  ℕ, zero, suc, String, Bool, true, false, not, Option, none, some, List, [], ◌∷◌, ◌++◌, str_eq,
  if◌then◌else◌, keep,
}
use coffer_fs.Base.Words.{trim, is_empty, ends_with, without_last}
use coffer_fs.Db.Locking.{Locking, as_str}
use coffer_fs.Config.{Section, Config, has_section}
use coffer_fs.Config.Vaults.{Vault}

abbrev pub setting : String → Option String → List String → List String
setting key none ls = ls
setting key (some v) ls = append key (append " = " v) ∷ ls

abbrev pub flag : String → Bool → List String → List String
flag key false ls = ls
flag key true ls = append key " = true" ∷ ls

abbrev pub lock_setting : Option Locking → List String
lock_setting none = []
lock_setting (some l) = append "locking = " (as_str l) ∷ []

unfoldable pub render : Vault → List String
render v =
    append "file = " v.file
    ∷ append "mountpoint = " v.mountpoint
    ∷ setting "idle_timeout" v.idle_timeout (
        setting "compact_on_idle" v.compact_on_idle (
          setting "password_file" v.password_file (
            setting "password_command" v.password_command (
              setting "log_file" v.log_file (
                flag "read_only" v.read_only
                  (flag "enforce_permissions" v.enforce_permissions (lock_setting v.locking)))))))

unfoldable pub is_blank : String → Bool
unfolding trim
is_blank l = is_empty (trim l)

unfoldable pub ends_blank : List String → Bool
unfolding is_blank
ends_blank [] = false
ends_blank (l ∷ []) = is_blank l
ends_blank (l ∷ m ∷ ls) = ends_blank (m ∷ ls)

-- A blank line where the last line is not one.
unfoldable pub separated : List String → List String
unfolding ends_blank
separated [] = []
separated (l ∷ ls) = if ends_blank (l ∷ ls) then l ∷ ls else l ∷ ls ++ ("" ∷ [])

abbrev pub with_blank : Bool → List String → List String
with_blank false ls = ls
with_blank true ls = ls ++ ("" ∷ [])

abbrev pub replaced : List String → Section → Section
replaced ls s = record s { content = with_blank (ends_blank s.content) ls }

-- The first section of this name gets the lines.
unfoldable pub replace_section : String → List String → List Section → List Section
replace_section alias ls [] = []
replace_section alias ls (s ∷ ss) =
    let rest = replace_section alias ls ss in
    if str_eq s.name alias then replaced ls s ∷ ss else s ∷ rest

-- `last_mut`: the last section ends with a blank line, and the new one follows.
unfoldable pub append_section : Section → List Section → List Section
unfolding separated
append_section new [] = new ∷ []
append_section new (s ∷ []) = record s { content = separated s.content } ∷ new ∷ []
append_section new (s ∷ t ∷ ts) = s ∷ append_section new (t ∷ ts)

abbrev pub separated_preamble : List Section → List String → List String
separated_preamble [] preamble = separated preamble
separated_preamble (s ∷ ss) preamble = preamble

unfoldable pub upsert : Vault → Config → Bool × Config
unfolding replace_section append_section render
upsert v cfg =
    if has_section v.alias cfg.sections
    then (true, record cfg { sections = replace_section v.alias (render v) cfg.sections })
    else (
      false,
      record {
        preamble = separated_preamble cfg.sections cfg.preamble;
        sections = append_section (record { name = v.alias; content = render v }) cfg.sections;
      },
    )

-- Whether there was a section to remove.
unfoldable pub remove : String → Config → Bool × Config
remove alias cfg = (
  has_section alias cfg.sections,
  record cfg { sections = keep (λ s. not (str_eq s.name alias)) cfg.sections },
)

unfoldable pub unlines : List String → String → String
unlines [] tail = tail
unlines (l ∷ ls) tail = append l (append "\n" (unlines ls tail))

unfoldable pub section_lines : List Section → String
unfolding unlines
section_lines [] = ""
section_lines (s ∷ ss) =
    append "[" (append s.name (append "]\n" (unlines s.content (section_lines ss))))

-- `while out.ends_with("\n\n") { out.pop(); }`, where the fuel is the length of the text.
unfoldable pub drop_newlines : ℕ → String → String
drop_newlines zero out = out
drop_newlines (suc fuel) out =
    let rest = drop_newlines fuel (without_last out) in
    if ends_with 10 out then (if ends_with 10 (without_last out) then rest else out) else out

unfoldable pub to_text : Config → String
unfolding unlines section_lines drop_newlines
to_text cfg =
    let out = unlines cfg.preamble (section_lines cfg.sections) in drop_newlines (len out) out
