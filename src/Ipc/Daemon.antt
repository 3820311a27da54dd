-- ===== src/Ipc/Daemon.antt =====
-- src/ipc.rs: `serve` and `handle`, the mount's side of a request.
pub mod Safe
use Prim.Native.Char.{Char, char, code}
use Prim.Native.String.{◌++◌ as append}
use coffer_fs.Base.{
  ℕ, ◌≡◌, refl, ◌>>=◌, ◌>>◌, require, Bool, true, false, String, List, [], ◌∷◌, Result, ok, err,
  ◌==◌, if◌then◌else◌,
}
use coffer_fs.Db.Container.Decimal.{to_string}
use coffer_fs.Ipc.Request.{
  IpcError, refused, malformed, relative, wrong_password, failure, Request, parse_request,
}
use coffer_fs.Ipc.Backup.{Report, Source, Outcome, unanswered, answered, backup}

-- What the system and SQLite answer to the daemon: who is asking, what was sent, the first page
-- of the container, whether a password opens it, and the calls of the backup.
pub record Daemon : Type 0 where
  pub uid : ℕ
  pub peer : Result String ℕ
  pub sent : Result String (List ℕ)
  pub utf8_error : String
  pub page : Result String (List ℕ)
  pub verify : List ℕ → List ℕ → Result String Bool
  pub source : List ℕ → List ℕ → Source
  pub accepts : ℕ → Bool

abbrev pub io : {A : Type 0} → Result String A → Result IpcError A
io (ok a) = ok a
io (err e) = err (failure e)

-- `serve` up to the call of `backup`.
unfoldable pub authorise : Daemon → Result IpcError Request
authorise d = do
  peer ← io d.peer
  require (peer == d.uid) refused
  sent ← io d.sent
  r ← parse_request d.utf8_error sent
  page ← io d.page
  right ← io (d.verify page r.password)
  require right wrong_password
  ok r

-- With plain `backup`, nothing is written ahead of the answer, and so no report can fail.
abbrev pub listener : Daemon → Bool → ℕ → Bool
listener d true n = d.accepts n
listener d false n = true

abbrev pub sent_reports : Bool → List Report × Outcome → List Report × Outcome
sent_reports true r = r
sent_reports false (reports, outcome) = ([], outcome)

abbrev pub serve_request : Daemon → Result IpcError Request → List Report × Outcome
serve_request d (err e) = ([], answered (err e))
serve_request d (ok r) =
    sent_reports r.with_progress (backup (listener d r.with_progress) (d.source r.dest r.password))

unfoldable pub serve : Daemon → List Report × Outcome
unfolding authorise
serve d = serve_request d (authorise d)

-- `{e:#}`
abbrev pub message : IpcError → String
message refused = "refused: only the user who mounted the container may use this socket"
message malformed = "malformed request"
message relative = "malformed request: destination must be an absolute path"
message wrong_password = "wrong password"
message (failure e) = e

abbrev one_line : Char → Char
one_line c = if code c == 10 then char 32 tt else c

-- `.replace('\n', " ")`
unfoldable pub flattened : String → String
flattened String.[] = String.[]
flattened (String.◌∷◌ c s) = String.◌∷◌ (one_line c) (flattened s)

unfoldable pub progress_text : Report → String
progress_text (copied, total) =
    append "progress " (append (to_string copied) (append " " (to_string total)))

unfoldable pub progress_lines : List Report → String → String
progress_lines [] tail = tail
progress_lines (r ∷ rs) tail = append (progress_text r) (append "\n" (progress_lines rs tail))

unfoldable pub error_text : IpcError → String
unfolding flattened
error_text e = append "error " (flattened (message e))

abbrev pub answer_line : Outcome → String
answer_line unanswered = ""
answer_line (answered (ok u)) = "ok\n"
answer_line (answered (err e)) = append (error_text e) "\n"

-- All that is written to the stream, the report too whose write fails: it is the last one, the client
-- that would read it is gone, and nothing is claimed of it.
unfoldable pub handle : Daemon → String
unfolding serve progress_lines
handle d = progress_lines (serve d).0 (answer_line (serve d).1)
