-- ===== src/Ipc/Backup.antt =====
-- src/ipc.rs: `backup`, which drives SQLite's online backup step by step. The results of the steps
-- are a list; where it ends before the loop does, the copy is still running.
pub mod Laws
pub mod Succeeding
use coffer_fs.Base.{
  ℕ, zero, suc, ◌+◌, ◌-◌, ◌*◌, ◌≤◌, ◌<◌, min, ◌≡◌, refl, ap, ◌∙◌, Bool, true, false, not, ◌&&◌,
  ◌||◌, String, List, [], ◌∷◌, ◌++◌, map, Result, ok, err, arith, if◌then◌else◌, keep, All, length,
  ℤ, pos, pos_part,
}
use coffer_fs.Ipc.Request.{IpcError, failure}

-- What `sqlite3_backup_step` may return.
pub data StepCode : Type 0 where
  more busy locked done broken : StepCode

pub record Step : Type 0 where
  pub rc : StepCode
  pub remaining : ℤ
  pub pagecount : ℤ

pub data CopyEnd : Type 0 where
  running abandoned : CopyEnd
  ended : StepCode → CopyEnd

abbrev pub Report : Type 0
Report = ℕ × ℕ

abbrev pub pages : Step → ℕ
pages s = pos_part s.pagecount

abbrev pub copied : Step → ℕ
copied s = pages s - min (pos_part s.remaining) (pages s)

abbrev pub report : ℕ → Step → Report
report page_size s = (copied s * page_size, pages s * page_size)

abbrev pub last_report : ℕ → Step → Report
last_report page_size s = (pages s * page_size, pages s * page_size)

abbrev pub then_report : Report → List Report × CopyEnd → List Report × CopyEnd
then_report r rest = (r ∷ rest.0, rest.1)

-- What a step comes to: `next` is the rest of the loop after a report, `same` without one.
abbrev pub after :
    StepCode
    → Bool
    → ℕ
    → Step
    → List Report × CopyEnd
    → List Report × CopyEnd
    → List Report × CopyEnd
after more true page_size s next same = then_report (report page_size s) next
after more false page_size s next same = (report page_size s ∷ [], abandoned)
after busy taken page_size s next same = same
after locked taken page_size s next same = same
after done taken page_size s next same = (last_report page_size s ∷ [], ended done)
after broken taken page_size s next same = ([], ended broken)

-- `accepts n` says whether the client still takes its report number `n`.
unfoldable pub copy : ℕ → (ℕ → Bool) → ℕ → List Step → List Report × CopyEnd
copy page_size accepts n [] = ([], running)
copy page_size accepts n (s ∷ ss) =
    let next = copy page_size accepts (suc n) ss in
    let same = copy page_size accepts n ss in after s.rc (accepts n) page_size s next same

-- What the calls around the loop return. `errmsg` is SQLite's text for the destination.
pub record Source : Type 0 where
  pub opened : Result String (Unit {0})
  pub keyed : Result String (Unit {0})
  pub page_size : Result String ℕ
  pub started : Bool
  pub steps : List Step
  pub finish_ok : Bool
  pub errmsg : String
  pub gone : String
  pub closed_to_others : Result String (Unit {0})

pub data Outcome : Type 0 where
  unanswered : Outcome
  answered : Result IpcError (Unit {0}) → Outcome

abbrev pub failed : String → Outcome
failed e = answered (err (failure e))

abbrev pub chmod : Result String (Unit {0}) → Outcome
chmod (ok u) = answered (ok tt)
chmod (err e) = failed e

abbrev pub concluded : Source → CopyEnd → Outcome
concluded src running = unanswered
concluded src abandoned = failed src.gone
concluded src (ended done) = if src.finish_ok then chmod src.closed_to_others else failed src.errmsg
concluded src (ended _) = failed src.errmsg

abbrev pub conclude : Source → List Report × CopyEnd → List Report × Outcome
conclude src (reports, end) = (reports, concluded src end)

abbrev pub then_run :
    {A : Type 0} → Result String A → (A → List Report × Outcome) → List Report × Outcome
then_run (ok a) f = f a
then_run (err e) f = ([], failed e)

unfoldable pub backup : (ℕ → Bool) → Source → List Report × Outcome
unfolding copy
backup accepts src = then_run src.opened λ _. then_run src.keyed λ _.
    then_run src.page_size λ page_size.
      if src.started
      then conclude src (copy page_size accepts 0 src.steps)
      else ([], failed src.errmsg)
