-- ===== src/Sql/Atomic.antt =====
-- Proof rules for steps that leave the tables as they were when they fail, but for the errors of
-- which `X` holds.
use coffer_fs.Base.{◌≡◌, refl, ◌⊎◌, inl, inr, Option, none, some, Result, ok, err, Option-cases}
use coffer_fs.Db.{Db}
use coffer_fs.Sql.{
  SqlError, Errno, Conn, Run, pure, continue, ◌>>=◌, transaction, settle, commit_at, tick,
}
use coffer_fs.Sql.Rules.{Keeps}

abbrev pub Undone : {E A : Type 0} → (E → Type 0) → Db → Result E A → Db → Type 0
Undone X before (ok a) after = Unit
Undone X before (err e) after = (after ≡ before) ⊎ X e

pub record Atomic {E A : Type 0} (X : E → Type 0) (m : Run E A) : Type 0 where
  pub at : (c : Conn) → Undone X c.db (m c).0 (m c).1.db

-- A step that only reads.
abbrev pub Quiet : {E A : Type 0} → Run E A → Type 0
Quiet m = (d : Db) → Keeps (λ db. db ≡ d) m

module _ {E A : Type 0} (X : E → Type 0) where
  unchanged : (r : Result E A) (before after : Db) → after ≡ before → Undone X before r after
  unchanged (ok a) before after e = tt
  unchanged (err e) before after p = inl p

module _ {E A : Type 0} {X : E → Type 0} where
  pub Atomic-Quiet : {m : Run E A} → Quiet m → Atomic X m
  Atomic-Quiet {m} h = record { at = λ c. unchanged X (m c).0 c.db (m c).1.db ((h c.db).at c refl) }

module _ {E A B : Type 0} (X : E → Type 0) where
  then_lem :
      (r : Result E A) (before : Db) (c : Conn) (f : A → Run E B)
      → c.db ≡ before
      → ((a : A) → Atomic X (f a))
      → Undone X before (continue r f c).0 (continue r f c).1.db
  then_lem (ok a) before c f e h = rw (← e) ((h a).at c)
  then_lem (err x) before c f e h = inl e

  mapped :
      (r : Result E A) (before : Db) (c : Conn) (f : A → B)
      → Undone X before r c.db
      → Undone X before (continue r (λ a. pure (f a)) c).0 (continue r (λ a. pure (f a)) c).1.db
  unfolding pure
  mapped (ok a) before c f u = tt
  mapped (err e) before c f u = u

  -- A step that commits, then one that reads, whose errors are those of `X`.
  read_back :
      (r : Result E A) (before : Db) (c : Conn) (f : A → Run E B)
      → Undone X before r c.db
      → ((a : A) (c : Conn) → Undone X before (f a c).0 (f a c).1.db)
      → Undone X before (continue r f c).0 (continue r f c).1.db
  read_back (ok a) before c f u h = h a c
  read_back (err e) before c f u h = u

module _ {E A B : Type 0} {X : E → Type 0} where
  -- Reads, then an atomic step.
  pub Atomic-then :
      {m : Run E A} {f : A → Run E B} → Quiet m → ((a : A) → Atomic X (f a)) → Atomic X (m >>= f)
  unfolding ◌>>=◌
  Atomic-then {m} {f} h k = record {
    at = λ c. then_lem X (m c).0 c.db (m c).1 f ((h c.db).at c refl) k;
  }

  pub Atomic-map : (f : A → B) {m : Run E A} → Atomic X m → Atomic X (m >>= λ a. pure (f a))
  unfolding ◌>>=◌
  Atomic-map f {m} h = record { at = λ c. mapped X (m c).0 c.db (m c).1 f (h.at c) }

  pub Atomic-read_back :
      {m : Run E A} (f : A → Run E B)
      → Atomic X m
      → ((a : A) (d : Db) (c : Conn) → Undone X d (f a c).0 (f a c).1.db)
      → Atomic X (m >>= f)
  unfolding ◌>>=◌
  Atomic-read_back {m} f h k = record {
    at = λ c. read_back X (m c).0 c.db (m c).1 f (h.at c) (λ a. k a c.db);
  }

module _ {A : Type 0} (X : Errno → Type 0) where
  commit_lem :
      (k : SqlError → Errno) (before : Db) (a : A) (c : Conn) (e? : Option SqlError)
      → Undone X before (commit_at k before a c e?).0 (commit_at k before a c e?).1.db
  commit_lem k before a c none = tt
  commit_lem k before a c (some e) = inl refl

  settle_lem :
      (k : SqlError → Errno) (before : Db) (r : Result Errno A) (c : Conn)
      → Undone X before (settle k before r c).0 (settle k before r c).1.db
  settle_lem k before (ok a) c = commit_lem k before a c (c.faults 0)
  settle_lem k before (err e) c = inl refl

module _ {A : Type 0} {X : Errno → Type 0} where
  pub Atomic-transaction :
      (k : SqlError → Errno) (body : Run Errno A) → Atomic X (transaction k body)
  unfolding transaction
  Atomic-transaction k body = record {
    at = λ c. elim (Option-cases (c.faults 0)) [
      | inl e ↦ rw (e, transaction) (settle_lem X k c.db (body (tick c)).0 (body (tick c)).1)
      | inr (x, e) ↦ rw (e, transaction) (inl refl)
    ];
  }
