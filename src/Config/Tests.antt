-- ===== src/Config/Tests.antt =====
-- The theorems on src/config.rs at a small registry.
use coffer_fs.Base.{◌≡◌, ◌≢◌, refl, String, true, false, none, some, [], ◌∷◌, ok, All}
use coffer_fs.Config.{Config, has_section}
use coffer_fs.Base.Words.{trim, lines, all_chars, ends_with, without_last}
use coffer_fs.Config.{parse, parse_lines, parse_line, push_line, header_name, validate_alias}
use coffer_fs.Config.Names.{IsListed, parse-IsListed}
use coffer_fs.Config.Vaults.{Vault, vault_from, get, expand_tilde}
use coffer_fs.Config.Edit.{render, upsert, remove, to_text, unlines, section_lines}
use coffer_fs.Config.Edit.RoundTrip.{IsStorable, vault_from-render}
use coffer_fs.Config.Edit.Text.{IsLine, IsWritten, whole_text, parse-to_text}
use coffer_fs.Config.Edit.Laws.{upsert-get, remove-get}

abbrev registry : Config
registry = record {
  preamble = "# vaults" ∷ "" ∷ [];
  sections =
      record { name = "work"; content = "file = /a.coffer" ∷ "mountpoint = /mnt/a" ∷ "" ∷ [] }
      ∷ record { name = "photos"; content = "; mine" ∷ "file=/b.coffer" ∷ "mountpoint=/mnt/b" ∷ [] }
      ∷ [];
}

abbrev music : Vault
music = record {
  alias = "music";
  file = "/c.coffer";
  mountpoint = "/mnt/c";
  idle_timeout = some "30m";
  compact_on_idle = none;
  password_file = none;
  password_command = none;
  log_file = none;
  read_only = true;
  enforce_permissions = false;
  locking = none;
}

upsert-get_example :
    ((upsert music registry).0 ≡ has_section "music" registry.sections)
    × (get none "music" (upsert music registry).1
        ≡ some (vault_from none (record { name = "music"; content = render music })))
    × ((b : String) → "music" ≢ b → get none b (upsert music registry).1 ≡ get none b registry)
upsert-get_example = upsert-get none music registry

music-IsStorable : IsStorable none music
unfolding trim expand_tilde
music-IsStorable = record {
  file = (record { nonempty = refl; left = refl; right = refl; unquoted = refl }, refl);
  mountpoint = (record { nonempty = refl; left = refl; right = refl; unquoted = refl }, refl);
  idle_timeout = record { nonempty = refl; left = refl; right = refl; unquoted = refl };
  compact_on_idle = tt;
  password_file = tt;
  password_command = tt;
  log_file = tt;
}

vault_from-render_example :
    vault_from none (record { name = "music"; content = render music }) ≡ ok music
vault_from-render_example = vault_from-render none music music-IsStorable

remove-get_example :
    (get none "work" (remove "work" registry).1 ≡ none)
    × ((b : String) → "work" ≢ b → get none b (remove "work" registry).1 ≡ get none b registry)
remove-get_example = remove-get none "work" registry

abbrev small_registry : Config
small_registry = record {
  preamble = "; mine" ∷ [];
  sections =
      record { name = "work"; content = "file = /a" ∷ "" ∷ [] }
      ∷ record { name = "b.2"; content = [] }
      ∷ [];
}

parses : parse "; mine\n[work]\nfile = /a\n\n [b.2] \n" ≡ ok small_registry
unfolding parse parse_lines parse_line push_line has_section header_name validate_alias trim lines
    all_chars
parses = refl

parse-IsListed_example : IsListed small_registry.sections
parse-IsListed_example =
    parse-IsListed "; mine\n[work]\nfile = /a\n\n [b.2] \n" small_registry parses

no_blank_end : ends_with 10 (without_last (whole_text small_registry)) ≡ false
unfolding unlines section_lines ends_with without_last
no_blank_end = refl

small_registry-IsWritten : IsWritten [] small_registry.sections
unfolding validate_alias has_section trim all_chars
small_registry-IsWritten = (refl, refl, ((refl, refl), ((refl, refl), tt)), (refl, refl, tt, tt))

preamble-IsLine : All IsLine small_registry.preamble
unfolding trim all_chars
preamble-IsLine = ((refl, refl), tt)

parse-to_text_example : parse (to_text small_registry) ≡ ok small_registry
parse-to_text_example =
    parse-to_text small_registry preamble-IsLine small_registry-IsWritten no_blank_end
