-- ===== src/Ipc/Client.antt =====
-- src/ipc.rs: `ask` and `request_backup`, the client's side of a request.
pub mod RoundTrip
pub mod EndToEnd
use coffer_fs.Base.{
  ℕ, ◌≡◌, refl, Bool, true, false, Option, none, some, String, List, [], ◌∷◌, ◌++◌, Result, ok, err,
  str_eq, if◌then◌else◌,
}
use coffer_fs.Base.Words.{trim_end, split_once, strip_prefix, lines}
use coffer_fs.Db.Container.Decimal.{parse_u64}
use coffer_fs.Ipc.Request.{encode_request, plain_verb, progress_verb}
use coffer_fs.Ipc.Backup.{Report}

abbrev Answer : Type 0
Answer = List Report × Result String (Unit {0})

abbrev pub no_answer : String
no_answer = "the mount daemon closed the connection without an answer"

abbrev pub reported : Option ℕ → Option ℕ → List Report
reported (some copied) (some total) = (copied, total) ∷ []
reported _ _ = []

-- A line with `progress ` and a blank in front and between: the numbers, where both are some.
abbrev pub numbers : Option (String × String) → Option (List Report)
numbers none = none
numbers (some (copied, total)) = some (reported (parse_u64 copied) (parse_u64 total))

abbrev pub progress_of : Option String → Option (List Report)
progress_of none = none
progress_of (some rest) = numbers (split_once 32 rest)

abbrev pub error_of : Option String → Result String (Unit {0})
error_of (some message) = err message
error_of none = err no_answer

abbrev pub final : String → Result String (Unit {0})
final line = if str_eq line "ok" then ok tt else error_of (strip_prefix "error " line)

abbrev pub on_line : Option (List Report) → String → Answer → Answer
on_line (some reports) line (more, result) = (reports ++ more, result)
on_line none line rest = ([], final line)

-- The loop of `ask` over what can be read. `broken` is the error that ends the reading, if one does.
unfoldable pub read_answer : Option String → List String → Answer
unfolding trim_end split_once strip_prefix
read_answer none [] = ([], err no_answer)
read_answer (some e) [] = ([], err e)
read_answer broken (l ∷ ls) =
    on_line (progress_of (strip_prefix "progress " (trim_end l))) (trim_end l)
      (read_answer broken ls)

-- A connection: whether the request can be written, and what can then be read.
pub record Connection : Type 0 where
  pub written : Result String (Unit {0})
  pub answer : List ℕ → String
  pub broken : Option String

abbrev then_read : Result String (Unit {0}) → Answer → Answer
then_read (ok u) a = a
then_read (err e) a = ([], err e)

unfoldable pub ask : Connection → List ℕ → List ℕ → List ℕ → Answer
unfolding read_answer lines encode_request
ask c verb dest password =
    then_read c.written
      (read_answer c.broken (lines (c.answer (encode_request verb dest password))))

abbrev pub retry : Option Connection → List ℕ → List ℕ → Answer → Answer
retry none dest password first = first
retry (some c) dest password (reports, result) =
    let (later, second) = ask c plain_verb dest password in (reports ++ later, second)

abbrev pub is_malformed : Result String (Unit {0}) → Bool
is_malformed (ok u) = false
is_malformed (err e) = str_eq e "malformed request"

-- `None` where no daemon answers; the second connection is made only to ask the plain way.
unfoldable pub request_backup :
    Option Connection → Option Connection → List ℕ → List ℕ → Option Answer
unfolding ask
request_backup none again dest password = none
request_backup (some c) again dest password =
    let first = ask c progress_verb dest password in
    some (if is_malformed first.1 then retry again dest password first else first)
