-- ===== src/Ipc/Client/EndToEnd.antt =====
-- src/ipc.rs: a backup through the running mount, from the client's request to its result.
use coffer_fs.Base.{
  ℕ, ◌≡◌, refl, ap, ◌∙◌, true, false, Option, none, some, String, List, [], Result, ok, err, ◌≤◌,
  All, length, is_utf8,
}
use coffer_fs.Ipc.Request.{
  Request, encode_request, progress_verb, plain_verb, HasNoNul, is_absolute, request_limit,
  parse_request-encode_request,
}
use coffer_fs.Ipc.Backup.{Report, Outcome, backup}
use coffer_fs.Ipc.Daemon.{Daemon, serve, serve_request}
use coffer_fs.Ipc.Daemon.Safe.{Authorised, Authorised-authorise}
use coffer_fs.Ipc.Client.{Connection, ask, request_backup, retry, is_malformed, read_answer}
use coffer_fs.Base.Words.{lines}
use coffer_fs.Ipc.Client.RoundTrip.{Small, Fits, told, connect, ask-handle}

-- A request that the daemon of the container takes: the client is the owner, knows the password, and
-- names an absolute destination; it fits the limit and has no NUL in its fields.
pub record Proper (d : Daemon) (page dest password : List ℕ) : Type 0 where
  pub own : d.peer ≡ ok d.uid
  pub first_page : d.page ≡ ok page
  pub right : d.verify page password ≡ ok true
  pub dest_clean : HasNoNul dest
  pub password_clean : HasNoNul password
  pub absolute : is_absolute dest ≡ true
  pub text : is_utf8 password ≡ true
  pub short : length (encode_request progress_verb dest password) ≤ request_limit

module _ (d : Daemon) (page dest password : List ℕ) (g : Proper d page dest password) where
  abbrev request : Request
  request = record { with_progress = true; dest = dest; password = password }

  abbrev asked : Daemon
  asked = record d { sent = ok (encode_request progress_verb dest password) }

  asked-Authorised : Authorised asked request
  asked-Authorised = record {
    sent = encode_request progress_verb dest password;
    page = page;
    own = g.own;
    received = refl;
    read =
        parse_request-encode_request d.utf8_error true dest password g.dest_clean g.password_clean
          g.absolute g.text g.short;
    first_page = g.first_page;
    password = g.right;
  }

  serve-asked : serve asked ≡ backup (λ n. d.accepts n) (d.source dest password)
  unfolding serve
  serve-asked = ap (serve_request asked) (Authorised-authorise asked request asked-Authorised)

  ask-asked :
      (rs : List Report) (o : Outcome)
      → backup (λ n. d.accepts n) (d.source dest password) ≡ (rs, o)
      → All Small rs
      → Fits o
      → ask (connect d) progress_verb dest password ≡ (rs, told o)
  ask-asked rs o e s f =
      let k : serve asked ≡ (rs, o) = serve-asked ∙ e in
      ask-handle d progress_verb dest password (rw k s) (rw k f) ∙ rw k refl

abbrev pub plain_result :
    Option Connection → List ℕ → List ℕ → List Report × Result String (Unit {0})
plain_result none dest password = ([], err "malformed request")
plain_result (some c) dest password = ask c plain_verb dest password

-- Through the socket of the running mount, the owner of the container who gives its password gets
-- the outcome of the daemon's own backup, with every report on the way: "ok" where it is finished,
-- and the message of its failure where that fits a line and is not that of an old daemon.
pub request_backup_lem :
    (d : Daemon) (again : Option Connection) (page dest password : List ℕ) (rs : List Report)
    (o : Outcome)
    → Proper d page dest password
    → backup (λ n. d.accepts n) (d.source dest password) ≡ (rs, o)
    → All Small rs
    → Fits o
    → is_malformed (told o) ≡ false
    → request_backup (some (connect d)) again dest password ≡ some (rs, told o)
unfolding request_backup
request_backup_lem d again page dest password rs o g e s f m =
    rw (ask-asked d page dest password g rs o e s f, m) refl

malformed_answer :
    read_answer none (lines "error malformed request\n") ≡ ([], err "malformed request")
unfolding read_answer lines
malformed_answer = refl

-- Where a daemon from before `backup-progress` answers it with "error malformed request", the client
-- asks again for a plain backup, and its result is that of the second request alone; where nobody
-- takes that one, it is the error.
pub request_backup-old :
    (old : Connection) (again : Option Connection) (dest password : List ℕ)
    → old.written ≡ ok tt
    → old.broken ≡ none
    → old.answer (encode_request progress_verb dest password) ≡ "error malformed request\n"
    → request_backup (some old) again dest password ≡ some (plain_result again dest password)
unfolding request_backup ask
request_backup-old old again dest password w b e =
    rw (w, b, e, malformed_answer) (ap some (second again))
  where
    second :
        (again : Option Connection)
        → retry again dest password ([], err "malformed request") ≡ plain_result again dest password
    second none = refl
    second (some c) = refl
