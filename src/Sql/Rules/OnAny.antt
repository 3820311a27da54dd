-- ===== src/Sql/Rules/OnAny.antt =====
-- What holds of the tables after a run, however it ends.
use coffer_fs.Base.{
  ◌≡◌, refl, Bool, true, false, Option, none, some, Result, ok, err, if◌then◌else◌, arith, inl, inr,
  Option-cases,
}
use coffer_fs.Db.{Db}
use coffer_fs.Sql.{
  SqlError, Errno, Conn, Run, pure, fail, lift, continue, ◌>>=◌, map_err, attempt, statement,
  now_secs, transaction, or_fail, settle, tick, query, execute, ran,
}
use coffer_fs.Sql.Rules.OnSuccess.{Success, Ensures, Ensures-statement}

-- Weaker than `Ensures`, and about every outcome.
pub record Keeps {E A : Type 0} (P : Db → Type 0) (m : Run E A) : Type 0 where
  pub at : (c : Conn) → P c.db → P (m c).1.db

module _ {E A : Type 0} {P : Db → Type 0} where
  pub Keeps-pure : (a : A) → Keeps P (pure {E = E} a)
  unfolding pure
  Keeps-pure a = record { at = λ c p. p }

  pub Keeps-fail : (e : E) → Keeps P (fail {A = A} e)
  unfolding fail
  Keeps-fail e = record { at = λ c p. p }

  pub Keeps-lift : (r : Result E A) → Keeps P (lift r)
  unfolding lift
  Keeps-lift r = record { at = λ c p. p }

  pub Keeps-or_fail : (o : Option A) (e : E) → Keeps P (or_fail o e)
  unfolding or_fail
  Keeps-or_fail none e = record { at = λ c p. p }
  Keeps-or_fail (some a) e = record { at = λ c p. p }

  pub Keeps-if : (b : Bool) (m n : Run E A) → Keeps P m → Keeps P n → Keeps P (if b then m else n)
  Keeps-if true m n hm hn = hm
  Keeps-if false m n hm hn = hn

  pub Keeps-attempt : {F : Type 0} {m : Run E A} → Keeps P m → Keeps P (attempt {F = F} m)
  unfolding attempt
  Keeps-attempt h = record { at = λ c p. h.at c p }

  pub Keeps-map_err : {F : Type 0} (g : E → F) {m : Run E A} → Keeps P m → Keeps P (map_err g m)
  unfolding map_err
  Keeps-map_err g h = record { at = λ c p. h.at c p }

module _ {E A B : Type 0} {P : Db → Type 0} where
  kept :
      (r : Result E A) (c : Conn) (f : A → Run E B)
      → P c.db
      → ((a : A) → Keeps P (f a))
      → P (continue r f c).1.db
  kept (ok a) c f h k = (k a).at c h
  kept (err e) c f h k = h

  pub Keeps-bind :
      {m : Run E A} {f : A → Run E B} → Keeps P m → ((a : A) → Keeps P (f a)) → Keeps P (m >>= f)
  unfolding ◌>>=◌
  Keeps-bind {m} {f} h k = record { at = λ c p. kept (m c).0 (m c).1 f (h.at c p) k }

module _ {E : Type 0} {P : Db → Type 0} where
  pub Keeps-now_secs : Keeps P (now_secs {E = E})
  unfolding now_secs
  Keeps-now_secs = record { at = λ c p. p }

module _ {A : Type 0} (P : Db → Type 0) where
  settle_lem :
      (k : SqlError → Errno) (before : Db) (r : Result Errno A) (c : Conn)
      → P before
      → Success (λ _. P) r c.db
      → P (settle k before r c).1.db
  settle_lem k before (ok a) c p q = ground arith
  settle_lem k before (err e) c p q = p

module _ {A : Type 0} {P : Db → Type 0} where
  pub Keeps-query : (f : Db → A) → Keeps P (query f)
  unfolding statement
  Keeps-query f = record { at = λ c p. ground arith }

  -- What a transaction establishes when it commits, and what held before, hold after it.
  pub Keeps-transaction :
      (k : SqlError → Errno) {body : Run Errno A}
      → Ensures P body (λ _. P)
      → Keeps P (transaction k body)
  unfolding transaction
  Keeps-transaction k {body} h = record {
    at = λ c p. elim (Option-cases (c.faults 0)) [
      | inl e ↦
          rw (e, transaction)
            (settle_lem P k c.db (body (tick c)).0 (body (tick c)).1 p (h.at (tick c) p))
      | inr (x, e) ↦ rw (e, transaction) p
    ];
  }

  pub Ensures-Keeps : {E : Type 0} {m : Run E A} → Keeps P m → Ensures P m (λ _. P)
  Ensures-Keeps {E} {m} h = record { at = λ c p. some_success (m c).0 (m c).1.db (h.at c p) }
    where
      some_success : (r : Result E A) (db : Db) → P db → Success (λ _. P) r db
      some_success (ok a) db p = p
      some_success (err e) db p = tt

  pub Ensures-query : (f : Db → A) → Ensures P (query f) (λ a db. P db × (f db ≡ a))
  Ensures-query f = Ensures-statement (λ db. ok (f db, db)) (λ db p. (p, refl))

module _ {A : Type 0} {P : Db → Type 0} where
  -- A statement keeps what its own effect keeps.
  pub Keeps-statement :
      (s : Db → Result SqlError (A × Db))
      → ((db : Db) → P db → Success (λ x _. P x.1) (s db) db)
      → Keeps P (statement s)
  unfolding statement
  Keeps-statement s h = record {
    at = λ c p. elim (Option-cases (c.faults 0)) [
      | inl e ↦ rw (e, statement) (stated (tick c) (s c.db) p (h c.db p))
      | inr (x, e) ↦ rw (e, statement) p
    ];
  }
    where
      stated :
          (c : Conn) (r : Result SqlError (A × Db))
          → P c.db
          → Success (λ x _. P x.1) r c.db
          → P (ran c r).1.db
      stated c (ok x) p q = q
      stated c (err e) p q = p

module _ {P : Db → Type 0} where
  pub Keeps-execute : (f : Db → Db) → ((db : Db) → P db → P (f db)) → Keeps P (execute f)
  unfolding statement
  Keeps-execute f h = record { at = λ c p. ground (arith, h c.db p) }
