-- ===== src/Ipc/Backup/Succeeding.antt =====
-- src/ipc.rs: when a backup succeeds.
use coffer_fs.Base.{
  ℕ, suc, ◌≡◌, refl, ap, subst, sym, ◌↔◌, Bool, true, ◌⊎◌, inl, inr, String, List, [], ◌∷◌, ◌++◌,
  Result, ok, err, arith, if◌then◌else◌, All, Bool-cases,
}
use coffer_fs.Ipc.Backup.{
  more, busy, locked, done, broken, Step, CopyEnd, running, abandoned, ended, Report, report,
  last_report, copy, Source, Outcome, answered, failed, chmod, concluded, conclude, then_run,
  backup,
}
use coffer_fs.Ipc.Backup.Laws.{Finishes, last, waits, copies, Finishes-copy, copy-Finishes}

-- A backup that ends well with these reports.
pub record Completes (accepts : ℕ → Bool) (src : Source) (rs : List Report) : Type 0 where
  pub page_size : ℕ
  pub opened : src.opened ≡ ok tt
  pub keyed : src.keyed ≡ ok tt
  pub paged : src.page_size ≡ ok page_size
  pub started : src.started ≡ true
  pub finishes : Finishes page_size accepts 0 src.steps rs
  pub finish_ok : src.finish_ok ≡ true
  pub private : src.closed_to_others ≡ ok tt

abbrev succeeded : List Report → List Report × Outcome
succeeded rs = (rs, answered (ok tt))

Completes-backup :
    (accepts : ℕ → Bool) (src : Source) (rs : List Report)
    → Completes accepts src rs
    → backup accepts src ≡ succeeded rs
unfolding backup
Completes-backup accepts src rs c =
    rw
      (
        c.opened,
        c.keyed,
        c.paged,
        c.started,
        Finishes-copy c.page_size accepts c.finishes,
        c.finish_ok,
        c.private,
      )
      refl

chmod-ok : (r : Result String (Unit {0})) → chmod r ≡ answered (ok tt) → r ≡ ok tt
chmod-ok (ok u) h = refl
chmod-ok (err e) h = cc

concluded-ok :
    (src : Source) (e : CopyEnd)
    → concluded src e ≡ answered (ok tt)
    → (e ≡ ended done) × (src.finish_ok ≡ true) × (src.closed_to_others ≡ ok tt)
concluded-ok src running h = cc
concluded-ok src abandoned h = cc
concluded-ok src (ended more) h = cc
concluded-ok src (ended busy) h = cc
concluded-ok src (ended locked) h = cc
concluded-ok src (ended broken) h = cc
concluded-ok src (ended done) h = elim (Bool-cases src.finish_ok) [
  | inl f ↦ (refl, f, chmod-ok src.closed_to_others (rw f at h))
  | inr f ↦ absurd (ground (arith, (rw f at h)))
]

then_run-ok :
    {A : Type 0} (r : Result String A) (f : A → List Report × Outcome) {rs : List Report}
    → then_run r f ≡ succeeded rs
    → (a : A) × (r ≡ ok a) × (f a ≡ succeeded rs)
then_run-ok (ok a) f h = (a, refl, h)
then_run-ok (err e) f h = absurd (ground arith)

started-ok :
    (src : Source) (p : ℕ) (accepts : ℕ → Bool) (rs : List Report)
    → (if src.started then conclude src (copy p accepts 0 src.steps) else ([], failed src.errmsg))
      ≡ succeeded rs
    → (src.started ≡ true)
      × Finishes p accepts 0 src.steps rs
      × (src.finish_ok ≡ true)
      × (src.closed_to_others ≡ ok tt)
started-ok src p accepts rs h = elim (Bool-cases src.started) [
  | inl b ↦
      (let k : conclude src (copy p accepts 0 src.steps) ≡ succeeded rs = rw b at h in
        let c = concluded-ok src (copy p accepts 0 src.steps).1 (ap (λ x. x.1) k) in
        (
          b,
          subst (Finishes p accepts 0 src.steps) (ap (λ x. x.0) k)
              (copy-Finishes p accepts 0 src.steps c.0),
          c.1,
          c.2,
        ))
  | inr b ↦ absurd (ground (arith, (rw b at h)))
]

pub backup-Completes :
    (accepts : ℕ → Bool) (src : Source) (rs : List Report)
    → backup accepts src ≡ succeeded rs
    → Completes accepts src rs
unfolding backup
backup-Completes accepts src rs h =
    let (o, eo, ho) = then_run-ok src.opened _ h in
    let (k, ek, hk) = then_run-ok src.keyed _ ho in
    let (p, ep, hp) = then_run-ok src.page_size _ hk in
    let s = started-ok src p accepts rs hp in
    record {
      page_size = p;
      opened = eo;
      keyed = ek;
      paged = ep;
      started = s.0;
      finishes = s.1;
      finish_ok = s.2;
      private = s.3;
    }

-- A backup answers "ok" with these reports exactly when the copy was made: every call around the
-- loop succeeds, a step says that it was the last, each step before it copied or had to wait,
-- and the client took every report but the last.
pub backup_ok_iff :
    (accepts : ℕ → Bool) (src : Source) (rs : List Report)
    → (backup accepts src ≡ (rs, answered (ok tt))) ↔ Completes accepts src rs
backup_ok_iff accepts src rs = (backup-Completes accepts src rs, Completes-backup accepts src rs)

abbrev GoesOn : Step → Type 0
GoesOn s = (s.rc ≡ more) ⊎ ((s.rc ≡ busy) ⊎ (s.rc ≡ locked))

listens :
    (p : ℕ) (accepts : ℕ → Bool) (n : ℕ) (pre : List Step) (s : Step) (post : List Step)
    → ((k : ℕ) → accepts k ≡ true)
    → All GoesOn pre
    → s.rc ≡ done
    → (rs : List Report) × Finishes p accepts n (pre ++ (s ∷ post)) rs
listens p accepts n [] s post a g e = (last_report p s ∷ [], last e)
listens p accepts n (t ∷ pre) s post a (inl m, g) e =
    let (rs, f) = listens p accepts (suc n) pre s post a g e in (report p t ∷ rs, copies m (a n) f)
listens p accepts n (t ∷ pre) s post a (inr w, g) e =
    let (rs, f) = listens p accepts n pre s post a g e in (rs, waits w f)

-- Where the calls around the loop succeed, the client listens and SQLite, after any number of
-- steps that copy or have to wait, says that the copy is done, the backup is answered with "ok".
pub backup_completes :
    (accepts : ℕ → Bool) (src : Source) (p : ℕ) (pre : List Step) (s : Step) (post : List Step)
    → src.opened ≡ ok tt
    → src.keyed ≡ ok tt
    → src.page_size ≡ ok p
    → src.started ≡ true
    → src.finish_ok ≡ true
    → src.closed_to_others ≡ ok tt
    → src.steps ≡ pre ++ (s ∷ post)
    → All GoesOn pre
    → s.rc ≡ done
    → ((k : ℕ) → accepts k ≡ true)
    → (rs : List Report) × (backup accepts src ≡ (rs, answered (ok tt)))
backup_completes accepts src p pre s post o k g b f c steps goes e a =
    let (rs, fin) = listens p accepts 0 pre s post a goes e in
    (
      rs,
      Completes-backup accepts src rs (record {
        page_size = p;
        opened = o;
        keyed = k;
        paged = g;
        started = b;
        finishes = subst (λ ss. Finishes p accepts 0 ss rs) (sym steps) fin;
        finish_ok = f;
        private = c;
      }),
    )
