-- ===== src/Ipc/Tests.antt =====
-- The theorems on src/ipc.rs at a small backup.
use coffer_fs.Base.{
  ℕ, ◌≡◌, ◌↔◌, refl, Bool, true, false, some, none, List, [], ◌∷◌, ok, arith, as_bytes, is_utf8,
  inl, inr, pos,
}
use coffer_fs.Db.Container.Decimal.{to_string}
use coffer_fs.Ipc.{socket_name}
use coffer_fs.Ipc.Request.{encode_request, progress_verb, parse_request}
use coffer_fs.Ipc.Backup.{Step, more, busy, done, Source, Report, answered, backup}
use coffer_fs.Ipc.Backup.Succeeding.{backup_ok_iff, Completes, backup_completes}
use coffer_fs.Ipc.Daemon.{Daemon, serve}
use coffer_fs.Ipc.Daemon.Safe.{serve-Served, Served}
use coffer_fs.Ipc.Client.{request_backup}
use coffer_fs.Ipc.Client.RoundTrip.{connect}
use coffer_fs.Ipc.Client.EndToEnd.{Proper, request_backup_lem}
use coffer_fs.Ipc.Place.{
  Place, already_exists, bind, candidate_dirs, ensure_private_dir, Bound, bind-Bound, socket_path,
}

-- As the tests of src/ipc.rs pin it.
empty_path : socket_name [] ≡ as_bytes "cbf29ce484222325.sock"
unfolding socket_name as_bytes
empty_path = refl

abbrev dest : List ℕ
dest = as_bytes "/b"

abbrev password : List ℕ
password = as_bytes "pw"

abbrev first_step : Step
first_step = record { rc = more; remaining = pos 2; pagecount = pos 3 }

abbrev waiting : Step
waiting = record { rc = busy; remaining = pos 2; pagecount = pos 3 }

abbrev last_step : Step
last_step = record { rc = done; remaining = pos 0; pagecount = pos 3 }

abbrev source : Source
source = record {
  opened = ok tt;
  keyed = ok tt;
  page_size = ok 4096;
  started = true;
  steps = first_step ∷ waiting ∷ last_step ∷ [];
  finish_ok = true;
  errmsg = "failed";
  gone = "backup abandoned";
  closed_to_others = ok tt;
}

abbrev listening : ℕ → Bool
listening n = true

abbrev reports : List Report
reports = (4096, 12288) ∷ (12288, 12288) ∷ []

backup_made : backup listening source ≡ (reports, answered (ok tt))
unfolding backup
backup_made = refl

backup_ok_iff_example :
    (backup listening source ≡ (reports, answered (ok tt))) ↔ Completes listening source reports
backup_ok_iff_example = backup_ok_iff listening source reports

backup_completes_example : (rs : List Report) × (backup listening source ≡ (rs, answered (ok tt)))
backup_completes_example =
    backup_completes listening source 4096 (first_step ∷ waiting ∷ []) last_step [] refl refl refl
      refl refl refl refl (inl refl, (inr (inl refl), tt)) refl (λ k. refl)

abbrev daemon : Daemon
daemon = record {
  uid = 1000;
  peer = ok 1000;
  sent = ok (encode_request progress_verb dest password);
  utf8_error = "bad";
  page = ok [];
  verify = λ page pw. ok true;
  source = λ d pw. source;
  accepts = listening;
}

served : (serve daemon).1 ≡ answered (ok tt)
unfolding serve parse_request encode_request as_bytes is_utf8 backup
served = refl

serve-Served_example : Served daemon
serve-Served_example = serve-Served daemon served

abbrev stranger : Daemon
stranger = record daemon { peer = ok 1001 }

proper : Proper daemon [] dest password
unfolding encode_request as_bytes is_utf8
proper = record {
  own = refl;
  first_page = refl;
  right = refl;
  dest_clean = omega arith;
  password_clean = omega arith;
  absolute = refl;
  text = refl;
  short = omega arith;
}

request_backup_lem_example :
    request_backup (some (connect daemon)) none dest password ≡ some (reports, ok tt)
request_backup_lem_example =
    request_backup_lem daemon none [] dest password reports (answered (ok tt)) proper backup_made
      (omega arith) tt refl

abbrev tmp : Place
tmp = record {
  create_dir = already_exists;
  metadata = ok (record { is_dir = true; owner = 1000 });
  set_private = ok tt;
  bind_socket = ok tt;
}

bound_in_tmp :
    bind 1000 false (λ dir. tmp) (as_bytes "/a")
    ≡ ok (socket_path "/tmp/coffer-1000" (as_bytes "/a"))
unfolding bind ensure_private_dir socket_name as_bytes to_string
bound_in_tmp = refl

bind-Bound_example :
    Bound 1000
      (λ dir. tmp)
      (as_bytes "/a")
      (candidate_dirs 1000 false)
      (socket_path "/tmp/coffer-1000" (as_bytes "/a"))
bind-Bound_example =
    bind-Bound 1000 false (λ dir. tmp) (as_bytes "/a")
      (socket_path "/tmp/coffer-1000" (as_bytes "/a")) bound_in_tmp
