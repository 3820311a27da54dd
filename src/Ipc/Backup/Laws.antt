-- ===== src/Ipc/Backup/Laws.antt =====
-- src/ipc.rs: what a backup reports, and the steps of a copy that is finished.
use coffer_fs.Base.{
  ℕ, suc, ◌*◌, ◌≤◌, ◌≡◌, refl, ap, Bool, true, false, ◌⊎◌, inl, inr, String, List, [], ◌∷◌, Result,
  ok, err, arith, if◌then◌else◌, All,
}
use coffer_fs.Ipc.Backup.{
  StepCode, more, busy, locked, done, broken, Step, CopyEnd, ended, Report, pages, copied, report,
  last_report, then_report, after, copy, Source, failed, conclude, then_run, backup,
}

abbrev Within : Report → Type 0
Within r = r.0 ≤ r.1

mul_le : (a b p : ℕ) → a ≤ b → a * p ≤ b * p
mul_le a b p h = grind arith

report-Within : (p : ℕ) (s : Step) → Within (report p s)
report-Within p s = mul_le (copied s) (pages s) p (omega arith)

last_report-Within : (p : ℕ) (s : Step) → Within (last_report p s)
last_report-Within p s = omega arith

module _ (p : ℕ) (accepts : ℕ → Bool) where
  after-Within :
      (c : StepCode) (b : Bool) (s : Step) (next same : List Report × CopyEnd)
      → All Within next.0
      → All Within same.0
      → All Within (after c b p s next same).0
  after-Within more true s next same h k = (report-Within p s, h)
  after-Within more false s next same h k = (report-Within p s, tt)
  after-Within busy b s next same h k = k
  after-Within locked b s next same h k = k
  after-Within done b s next same h k = (last_report-Within p s, tt)
  after-Within broken b s next same h k = tt

  copy-Within : (n : ℕ) (ss : List Step) → All Within (copy p accepts n ss).0
  unfolding copy
  copy-Within n [] = tt
  copy-Within n (s ∷ ss) =
      after-Within s.rc (accepts n) s (copy p accepts (suc n) ss) (copy p accepts n ss)
        (copy-Within (suc n) ss) (copy-Within n ss)

  -- The steps of a copy that is finished: the last one says so, those before it go on, and the
  -- client has taken each report from number `n` on but the last.
  pub data Finishes : ℕ → List Step → List Report → Type 0 where
    last :
        {n : ℕ} {s : Step} {ss : List Step}
        → s.rc ≡ done
        → Finishes n (s ∷ ss) (last_report p s ∷ [])
    waits :
        {n : ℕ} {s : Step} {ss : List Step} {rs : List Report}
        → (s.rc ≡ busy) ⊎ (s.rc ≡ locked)
        → Finishes n ss rs
        → Finishes n (s ∷ ss) rs
    copies :
        {n : ℕ} {s : Step} {ss : List Step} {rs : List Report}
        → s.rc ≡ more
        → accepts n ≡ true
        → Finishes (suc n) ss rs
        → Finishes n (s ∷ ss) (report p s ∷ rs)

  pub Finishes-copy :
      {n : ℕ} {ss : List Step} {rs : List Report}
      → Finishes n ss rs
      → copy p accepts n ss ≡ (rs, ended done)
  unfolding copy
  Finishes-copy (last e) = rw e refl
  Finishes-copy (waits (inl e) f) = rw e (Finishes-copy f)
  Finishes-copy (waits (inr e) f) = rw e (Finishes-copy f)
  Finishes-copy (copies e t f) = rw (e, t) (ap (then_report _) (Finishes-copy f))

  after-Finishes :
      (c : StepCode) (b : Bool) (n : ℕ) (s : Step) (ss : List Step)
      → s.rc ≡ c
      → accepts n ≡ b
      → ((copy p accepts (suc n) ss).1 ≡ ended done
          → Finishes (suc n) ss (copy p accepts (suc n) ss).0)
      → ((copy p accepts n ss).1 ≡ ended done → Finishes n ss (copy p accepts n ss).0)
      → (after c b p s (copy p accepts (suc n) ss) (copy p accepts n ss)).1 ≡ ended done
      → Finishes n (s ∷ ss) (after c b p s (copy p accepts (suc n) ss) (copy p accepts n ss)).0
  after-Finishes more true n s ss e t f g h = copies e t (f h)
  after-Finishes more false n s ss e t f g h = cc
  after-Finishes busy b n s ss e t f g h = waits (inl e) (g h)
  after-Finishes locked b n s ss e t f g h = waits (inr e) (g h)
  after-Finishes done b n s ss e t f g h = last e
  after-Finishes broken b n s ss e t f g h = cc

  pub copy-Finishes :
      (n : ℕ) (ss : List Step)
      → (copy p accepts n ss).1 ≡ ended done
      → Finishes n ss (copy p accepts n ss).0
  unfolding copy
  copy-Finishes n [] h = cc
  copy-Finishes n (s ∷ ss) h =
      after-Finishes s.rc (accepts n) n s ss refl refl (copy-Finishes (suc n) ss)
        (copy-Finishes n ss) h

-- Every report says no more bytes copied than there are, whatever SQLite returns.
pub backup_bounds : (accepts : ℕ → Bool) (src : Source) → All Within (backup accepts src).0
unfolding backup
backup_bounds accepts src = bounds src.opened src.keyed src.page_size src.started
  where
    bounds :
        (o k : Result String (Unit {0})) (p : Result String ℕ) (b : Bool)
        → All Within
            (then_run o λ _. then_run k λ _. then_run p λ page_size.
              if b
              then conclude src (copy page_size accepts 0 src.steps)
              else ([], failed src.errmsg)).0
    bounds (err e) k p b = tt
    bounds (ok o) (err e) p b = tt
    bounds (ok o) (ok k) (err e) b = tt
    bounds (ok o) (ok k) (ok p) false = tt
    bounds (ok o) (ok k) (ok p) true = copy-Within p accepts 0 src.steps
