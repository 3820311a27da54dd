-- ===== src/Ipc/Daemon/Safe.antt =====
-- src/ipc.rs: whom the daemon serves.
use coffer_fs.Base.{
  ℕ, ◌≡◌, ◌≢◌, refl, bind-ok, require, require-ok, ap, ◌∙◌, sym, Bool, true, false, String, List,
  Result, ok, err, arith, ◌==◌, ==_iff, ==_refl, take,
}
use coffer_fs.Ipc.Request.{
  IpcError, refused, Request, parse_request, verb_of, encode_request, request_limit, is_absolute,
}
use coffer_fs.Ipc.Request.Sound.{parse_request_sound}
use coffer_fs.Ipc.Backup.{Report, Outcome, answered, backup}
use coffer_fs.Ipc.Backup.Succeeding.{Completes, backup-Completes}
use coffer_fs.Ipc.Daemon.{
  Daemon, io, require, authorise, listener, sent_reports, serve_request, serve, handle, error_text,
}

io-ok : {A : Type 0} (r : Result String A) (a : A) → io r ≡ ok a → r ≡ ok a
io-ok (ok b) a h = cc
io-ok (err e) a h = cc

-- A request that the daemon carries out.
pub record Authorised (d : Daemon) (r : Request) : Type 0 where
  pub sent : List ℕ
  pub page : List ℕ
  pub own : d.peer ≡ ok d.uid
  pub received : d.sent ≡ ok sent
  pub read : parse_request d.utf8_error sent ≡ ok r
  pub first_page : d.page ≡ ok page
  pub password : d.verify page r.password ≡ ok true

ok-eq : {A : Type 0} (a b : A) → ◌≡◌ {A = Result IpcError A} (ok a) (ok b) → a ≡ b
ok-eq a b h = cc

authorise-Authorised : (d : Daemon) (r : Request) → authorise d ≡ ok r → Authorised d r
unfolding authorise
authorise-Authorised d r h =
    let (peer, ep, h1) = bind-ok (io d.peer) _ h in
    let (u, eu, h2) = bind-ok (require (peer == d.uid) refused) _ h1 in
    let (sent, es, h3) = bind-ok (io d.sent) _ h2 in
    let (q, eq, h4) = bind-ok (parse_request d.utf8_error sent) _ h3 in
    let (page, eg, h5) = bind-ok (io d.page) _ h4 in
    let (right, er, h6) = bind-ok (io (d.verify page q.password)) _ h5 in
    let (v, ev, h7) = bind-ok (require right _) _ h6 in
    let same : peer ≡ d.uid = (==_iff peer d.uid).0 (require-ok (peer == d.uid) refused u eu) in
    let e : q ≡ r = ok-eq q r h7 in
    record {
      sent = sent;
      page = page;
      own = io-ok d.peer peer ep ∙ ap ok same;
      received = io-ok d.sent sent es;
      read = eq ∙ ap ok e;
      first_page = io-ok d.page page eg;
      password =
          ap (λ (x : Request). d.verify page x.password) (sym e)
          ∙ io-ok (d.verify page q.password) right er
          ∙ ap ok (require-ok right _ v ev);
    }

pub Authorised-authorise : (d : Daemon) (r : Request) → Authorised d r → authorise d ≡ ok r
unfolding authorise
Authorised-authorise d r a =
    rw (a.own, ==_refl d.uid, a.received, a.read, a.first_page, a.password) refl

sent_reports-ok :
    (b : Bool) (x : List Report × Outcome)
    → (sent_reports b x).1 ≡ answered (ok tt)
    → x.1 ≡ answered (ok tt)
sent_reports-ok true x h = h
sent_reports-ok false x h = h

-- What stands behind an "ok" of the daemon.
pub record Served (d : Daemon) : Type 0 where
  pub request : Request
  pub authorised : Authorised d request
  pub sent_it :
      take request_limit authorised.sent
      ≡ encode_request (verb_of request.with_progress) request.dest request.password
  pub absolute : is_absolute request.dest ≡ true
  pub reports : List Report
  pub made :
      Completes (listener d request.with_progress) (d.source request.dest request.password) reports

carried_out :
    (d : Daemon) (a : Result IpcError Request)
    → authorise d ≡ a
    → (serve_request d a).1 ≡ answered (ok tt)
    → Served d
carried_out d (err e) k h = absurd (ground arith)
carried_out d (ok r) k h =
    let auth = authorise-Authorised d r k in
    let s = parse_request_sound d.utf8_error auth.sent r auth.read in
    let run = backup (listener d r.with_progress) (d.source r.dest r.password) in
    record {
      request = r;
      authorised = auth;
      sent_it = s.0;
      absolute = s.3;
      reports = run.0;
      made =
          backup-Completes (listener d r.with_progress) (d.source r.dest r.password) run.0
            (ap (λ o. (run.0, o)) (sent_reports-ok r.with_progress run h));
    }

-- The daemon answers "ok" only to a process of the user that mounted the container, who sent the
-- container's password, in a request as `ask` makes it with an absolute destination, and after
-- the copy of the whole container was finished.
pub serve-Served : (d : Daemon) → (serve d).1 ≡ answered (ok tt) → Served d
unfolding serve
serve-Served d h = carried_out d (authorise d) refl h

-- A process of another user learns nothing but that it is refused: what it sends, the container
-- and the password play no part.
pub handle-refused :
    (d : Daemon) (peer : ℕ)
    → d.peer ≡ ok peer
    → peer ≢ d.uid
    → handle d ≡ "error refused: only the user who mounted the container may use this socket\n"
unfolding handle serve authorise error_text
handle-refused d peer e h = rw (e, other) refl
  where
    other : (peer == d.uid) ≡ false
    other = ground (arith, ==_iff peer d.uid, h)
