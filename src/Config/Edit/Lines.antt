-- ===== src/Config/Edit/Lines.antt =====
-- src/config.rs: a line `key = value` is read back.
use Prim.Native.Char.{Char, char, code}
use Prim.Native.String.{◌++◌ as append}
use Prim.Native.String.append as append_laws
use text.Mathlib.TextLemmas.{append_assoc}
use coffer_fs.Base.{
  ◌≡◌, refl, ap, ◌∙◌, sym, String, true, false, not, Option, some, List, ◌∷◌, ok, ◌==◌,
}
use coffer_fs.Base.Words.{
  trim, trim_start, trim_end, is_empty, all_chars, split_once, is_whitespace,
}
use coffer_fs.Base.Words.Laws.{split_once-append}
use coffer_fs.Config.Vaults.{
  Fields, without_quotes, unquote, is_comment, set_field, read_pair, read_line, read_fields,
}

-- A value that a line holds as it is: not empty, with no blanks around it and not in quotes.
pub record IsPlain (v : String) : Type 0 where
  pub nonempty : is_empty v ≡ false
  pub left : trim_start v ≡ v
  pub right : trim_end v ≡ v
  pub unquoted : without_quotes v ≡ v

module _ (key v : String) where
  abbrev pub line : String
  line = append key (append " = " v)

  line_parts : line ≡ append (append key " ") (String.◌∷◌ (char 61 tt) (append " " v))
  line_parts =
      ap (append key)
        (append_assoc " " "= " v ∙ ap (append " ") (append_laws.cons (char 61 tt) " " v))
      ∙ sym (append_assoc key " " (String.◌∷◌ (char 61 tt) (append " " v)))

  split_line :
      all_chars (λ c. not (code c == 61)) (append key " ") ≡ true
      → split_once 61 line ≡ some (append key " ", append " " v)
  split_line h =
      ap (split_once 61) line_parts
      ∙ split_once-append 61 (char 61 tt) (append key " ") (append " " v) refl h

unquote-blank : (v : String) → IsPlain v → unquote (append " " v) ≡ v
unfolding unquote trim trim_start is_whitespace
unquote-blank v p =
    ap (λ t. without_quotes (trim_end (trim_start t)))
      (append_laws.cons (char 32 tt) "" v ∙ ap (λ t. String.◌∷◌ (char 32 tt) t) (append_laws.nil v))
    ∙ ap (λ t. without_quotes (trim_end t)) p.left
    ∙ ap without_quotes p.right
    ∙ p.unquoted

-- A key as `render` writes it: a plain word.
pub record IsKey (key : String) : Type 0 where
  pub no_equals : all_chars (λ c. not (code c == 61)) (append key " ") ≡ true
  pub trimmed : trim (append key " ") ≡ key
  pub no_comment : (v : String) → is_comment (append key v) ≡ false

read_line-line :
    (home : Option String) (key v : String) (fs : Fields)
    → IsKey key
    → IsPlain v
    → read_line home (line key v) fs ≡ set_field home key v fs
read_line-line home key v fs k p =
    ap (λ o. read_pair home o fs) (split_line key v k.no_equals)
    ∙ rw (unquote-blank v p, p.nonempty, k.trimmed) refl

pub read_fields-line :
    (home : Option String) (key v : String) (ls : List String) (fs fs' : Fields)
    → IsKey key
    → IsPlain v
    → set_field home key v fs ≡ ok fs'
    → read_fields home (line key v ∷ ls) fs ≡ read_fields home ls fs'
unfolding read_fields
read_fields-line home key v ls fs fs' k p e =
    rw (k.no_comment (append " = " v), read_line-line home key v fs k p, e) refl

word-IsKey :
    (c : Char) (key : String)
    → all_chars (λ c. not (code c == 61)) (append (String.◌∷◌ c key) " ") ≡ true
    → trim (append (String.◌∷◌ c key) " ") ≡ String.◌∷◌ c key
    → is_whitespace c ≡ false
    → (code c == 35) ≡ false
    → (code c == 59) ≡ false
    → IsKey (String.◌∷◌ c key)
unfolding is_comment
word-IsKey c key a t w h k = record {
  no_equals = a;
  trimmed = t;
  no_comment = λ v. rw (append_laws.cons c key v, w, h, k) refl;
}

pub file-IsKey : IsKey "file"
unfolding all_chars trim is_whitespace
file-IsKey = word-IsKey (char 102 tt) "ile" refl refl refl refl refl

pub mountpoint-IsKey : IsKey "mountpoint"
unfolding all_chars trim is_whitespace
mountpoint-IsKey = word-IsKey (char 109 tt) "ountpoint" refl refl refl refl refl

pub idle_timeout-IsKey : IsKey "idle_timeout"
unfolding all_chars trim is_whitespace
idle_timeout-IsKey = word-IsKey (char 105 tt) "dle_timeout" refl refl refl refl refl

pub compact_on_idle-IsKey : IsKey "compact_on_idle"
unfolding all_chars trim is_whitespace
compact_on_idle-IsKey = word-IsKey (char 99 tt) "ompact_on_idle" refl refl refl refl refl

pub password_file-IsKey : IsKey "password_file"
unfolding all_chars trim is_whitespace
password_file-IsKey = word-IsKey (char 112 tt) "assword_file" refl refl refl refl refl

pub password_command-IsKey : IsKey "password_command"
unfolding all_chars trim is_whitespace
password_command-IsKey = word-IsKey (char 112 tt) "assword_command" refl refl refl refl refl

pub log_file-IsKey : IsKey "log_file"
unfolding all_chars trim is_whitespace
log_file-IsKey = word-IsKey (char 108 tt) "og_file" refl refl refl refl refl

pub read_only-IsKey : IsKey "read_only"
unfolding all_chars trim is_whitespace
read_only-IsKey = word-IsKey (char 114 tt) "ead_only" refl refl refl refl refl

pub enforce_permissions-IsKey : IsKey "enforce_permissions"
unfolding all_chars trim is_whitespace
enforce_permissions-IsKey = word-IsKey (char 101 tt) "nforce_permissions" refl refl refl refl refl

pub locking-IsKey : IsKey "locking"
unfolding all_chars trim is_whitespace
locking-IsKey = word-IsKey (char 108 tt) "ocking" refl refl refl refl refl
