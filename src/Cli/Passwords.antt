-- ===== src/Cli/Passwords.antt =====
-- src/main.rs: where a password comes from. A password is its bytes.
use coffer_fs.Base.{
  ℕ, Bool, true, false, not, ◌>>=◌, ◌>>◌, require, Option, none, some, String, List, [], ◌∷◌,
  Result, ok, err, ◌==◌, str_eq, if◌then◌else◌, as_bytes, is_utf8,
}
use coffer_fs.Base.Words.{is_empty, lines}

pub data PasswordError : Type 0 where
  empty differs both_sources command_failed not_utf8 : PasswordError
  unread : String → PasswordError

-- What the system gives: two answers at the prompt, the text of a password file, and what a
-- password command prints and how it ends.
pub record Sources : Type 0 where
  pub first_answer : Result PasswordError String
  pub second_answer : Result PasswordError String
  pub file_text : String → Result PasswordError String
  pub command_output : String → Result PasswordError (List ℕ × Bool)

unfoldable pub read_password : Sources → Bool → Result PasswordError (List ℕ)
read_password src confirm = do
  pw ← src.first_answer
  require (not (is_empty pw)) empty
  if confirm then (do again ← src.second_answer; require (str_eq pw again) differs) else ok tt
  ok (as_bytes pw)

abbrev first_line : List String → String
first_line [] = ""
first_line (l ∷ ls) = l

-- `stdout.split(|&b| b == b'\n').next()`
unfoldable pub before_newline : List ℕ → List ℕ
before_newline [] = []
before_newline (b ∷ bs) = let rest = before_newline bs in if b == 10 then [] else b ∷ rest

-- `strip_suffix(b"\r")`
unfoldable pub without_return : List ℕ → List ℕ
without_return [] = []
without_return (b ∷ []) = if b == 13 then [] else b ∷ []
without_return (b ∷ c ∷ bs) = b ∷ without_return (c ∷ bs)

abbrev pub first_output_line : List ℕ → List ℕ
first_output_line out = without_return (before_newline out)

abbrev is_nil : List ℕ → Bool
is_nil [] = true
is_nil (b ∷ bs) = false

unfoldable pub read_password_from_command : Sources → String → Result PasswordError (List ℕ)
unfolding before_newline without_return is_utf8
read_password_from_command src cmd = do
  out ← src.command_output cmd
  require out.1 command_failed
  require (is_utf8 (first_output_line out.0)) not_utf8
  require (not (is_nil (first_output_line out.0))) empty
  ok (first_output_line out.0)

abbrev from_file : Sources → String → Result PasswordError (List ℕ)
from_file src path = do
  text ← src.file_text path
  require (not (is_empty (first_line (lines text)))) empty
  ok (as_bytes (first_line (lines text)))

-- The file and the command, where both are given, are refused.
unfoldable pub read_password_source :
    Sources → Option String → Option String → Bool → Result PasswordError (List ℕ)
unfolding read_password read_password_from_command lines
read_password_source src none none confirm = read_password src confirm
read_password_source src (some path) none confirm = from_file src path
read_password_source src none (some cmd) confirm = read_password_from_command src cmd
read_password_source src (some path) (some cmd) confirm = err both_sources
