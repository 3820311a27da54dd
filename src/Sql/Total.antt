-- ===== src/Sql/Total.antt =====
-- Proof rules for runs on which no statement fails: the run succeeds, with this effect.
use coffer_fs.Base.{ℕ, ◌≡◌, refl, Bool, true, false, Option, some, Result, ok, err, if◌then◌else◌}
use coffer_fs.Db.{Db}
use coffer_fs.Sql.{
  SqlError, Errno, Conn, Run, pure, continue, ◌>>=◌, map_err, attempt, statement, now_secs,
  transaction, or_fail, settle, tick, query, execute, ran, rename_error,
}
use coffer_fs.Sql.Calm.{Calm, Calm-tick}
use coffer_fs.Sql.Rules.{Success, Ensures}

-- The tables are these.
abbrev pub Is : Db → Db → Type 0
Is d db = db ≡ d

abbrev pub Done : {E A : Type 0} → (A → Db → Type 0) → Result E A → Conn → Type 0
Done Q (ok a) c = Q a c.db × Calm c
Done Q (err e) c = ⊥

pub record Succeeds {E A : Type 0} (P : Db → Type 0) (m : Run E A) (Q : A → Db → Type 0)
    : Type 0 where
  pub at : (c : Conn) → Calm c → P c.db → Done Q (m c).0 (m c).1

module _ {E A : Type 0} {P : Db → Type 0} {Q : A → Db → Type 0} where
  pub Succeeds-pure : (a : A) → ((db : Db) → P db → Q a db) → Succeeds P (pure {E = E} a) Q
  unfolding pure
  Succeeds-pure a h = record { at = λ c calm p. (h c.db p, calm) }

  pub Succeeds-or_fail :
      (o : Option A) (e : E) (a : A)
      → o ≡ some a
      → ((db : Db) → P db → Q a db)
      → Succeeds P (or_fail o e) Q
  unfolding or_fail
  Succeeds-or_fail o e a k h = record { at = λ c calm p. rw (k, or_fail) (h c.db p, calm) }

  -- A test whose one branch fails.
  pub Succeeds-if :
      (b : Bool) (m n : Run E A)
      → (b ≡ true → Succeeds P m Q)
      → (b ≡ false → Succeeds P n Q)
      → Succeeds P (if b then m else n) Q
  Succeeds-if true m n hm hn = hm refl
  Succeeds-if false m n hm hn = hn refl

module _ {E A B : Type 0} (Q : A → Db → Type 0) {R : B → Db → Type 0} where
  continue_lem :
      (r : Result E A) (c : Conn) (f : A → Run E B)
      → Done Q r c
      → ((a : A) → Succeeds (Q a) (f a) R)
      → Done R (continue r f c).0 (continue r f c).1
  continue_lem (ok a) c f (h, calm) k = (k a).at c calm h
  continue_lem (err e) c f h k = absurd h

module _ {E A B : Type 0} {P : Db → Type 0} {Q : A → Db → Type 0} {R : B → Db → Type 0} where
  pub Succeeds-bind :
      {m : Run E A} {f : A → Run E B}
      → Succeeds P m Q
      → ((a : A) → Succeeds (Q a) (f a) R)
      → Succeeds P (m >>= f) R
  unfolding ◌>>=◌
  Succeeds-bind {m} {f} h k = record {
    at = λ c calm p. continue_lem Q (m c).0 (m c).1 f (h.at c calm p) k;
  }

module _ {A : Type 0} {P : Db → Type 0} {Q : A → Db → Type 0} where
  pub Succeeds-statement :
      (s : Db → Result SqlError (A × Db))
      → ((db : Db) → P db → (x : A × Db) × (s db ≡ ok x) × Q x.0 x.1)
      → Succeeds P (statement s) Q
  unfolding statement
  Succeeds-statement s h = record {
    at = λ c calm p. rw (calm 0, statement) (stated c calm (s c.db) (h c.db p));
  }
    where
      stated :
          (c : Conn)
          → Calm c
          → (r : Result SqlError (A × Db)) → (x : A × Db) × (r ≡ ok x) × Q x.0 x.1
          → Done Q (ran (tick c) r).0 (ran (tick c) r).1
      stated c calm r (x, e, q) = rw (e) (q, Calm-tick c calm)

  pub Succeeds-query : (f : Db → A) → ((db : Db) → P db → Q (f db) db) → Succeeds P (query f) Q
  Succeeds-query f h = Succeeds-statement _ λ db p. ((f db, db), refl, h db p)

module _ {P : Db → Type 0} {Q : Unit {0} → Db → Type 0} where
  pub Succeeds-execute : (f : Db → Db) → ((db : Db) → P db → Q tt (f db)) → Succeeds P (execute f) Q
  Succeeds-execute f h = Succeeds-statement _ λ db p. ((tt, f db), refl, h db p)

module _ {E : Type 0} {P : Db → Type 0} {Q : ℕ → Db → Type 0} where
  pub Succeeds-now_secs : ((t : ℕ) (db : Db) → P db → Q t db) → Succeeds P (now_secs {E = E}) Q
  unfolding now_secs
  Succeeds-now_secs h = record { at = λ c calm p. (h _ c.db p, calm) }

module _ {E A : Type 0} (F : Type 0) (Q : A → Db → Type 0) where
  renamed : (r : Result E A) (c : Conn) (g : E → F) → Done Q r c → Done Q (rename_error g r) c
  renamed (ok a) c g h = h
  renamed (err e) c g h = h

  attempted :
      (r : Result E A) (c : Conn)
      → Done Q r c
      → Done {E = F} (λ x db. (a : A) × (x ≡ ok a) × Q a db) (ok r) c
  attempted (ok a) c (h, calm) = ((a, refl, h), calm)
  attempted (err e) c h = absurd h

module _ {E F A : Type 0} {P : Db → Type 0} {Q : A → Db → Type 0} {m : Run E A} where
  pub Succeeds-map_err : (g : E → F) → Succeeds P m Q → Succeeds P (map_err g m) Q
  unfolding map_err
  Succeeds-map_err g h = record { at = λ c calm p. renamed F Q (m c).0 (m c).1 g (h.at c calm p) }

  pub Succeeds-attempt :
      Succeeds P m Q → Succeeds P (attempt {F = F} m) (λ x db. (a : A) × (x ≡ ok a) × Q a db)
  unfolding attempt
  Succeeds-attempt h = record { at = λ c calm p. attempted F Q (m c).0 (m c).1 (h.at c calm p) }

module _ {A : Type 0} (Q : A → Db → Type 0) where
  settled :
      (k : SqlError → Errno) (before : Db) (r : Result Errno A) (c : Conn)
      → Done Q r c
      → Done Q (settle k before r c).0 (settle k before r c).1
  settled k before (ok a) c (h, calm) = rw (calm 0) (h, Calm-tick c calm)
  settled k before (err e) c h = absurd h

module _ {A : Type 0} {P : Db → Type 0} {Q : A → Db → Type 0} where
  pub Succeeds-transaction :
      (k : SqlError → Errno) {body : Run Errno A}
      → Succeeds P body Q
      → Succeeds P (transaction k body) Q
  unfolding transaction
  Succeeds-transaction k {body} h = record {
    at = λ c calm p.
        rw (calm 0, transaction)
          (settled Q k c.db (body (tick c)).0 (body (tick c)).1
            (h.at (tick c) (Calm-tick c calm) p));
  }

module _ {E A : Type 0} (Q R : A → Db → Type 0) where
  with_effect :
      (r : Result E A) (c : Conn)
      → Done Q r c
      → Success R r c.db
      → Done (λ a db. Q a db × R a db) r c
  with_effect (ok a) c (q, calm) s = ((q, s), calm)
  with_effect (err e) c q s = q

  stronger :
      (r : Result E A) (c : Conn) → ((a : A) (db : Db) → Q a db → R a db) → Done Q r c → Done R r c
  stronger (ok a) c h (q, calm) = (h a c.db q, calm)
  stronger (err e) c h q = q

module _ {E A : Type 0} {P : Db → Type 0} {Q R : A → Db → Type 0} {m : Run E A} where
  -- It succeeds, and what a success leaves is known.
  pub Succeeds-Ensures : Succeeds P m Q → Ensures P m R → Succeeds P m (λ a db. Q a db × R a db)
  Succeeds-Ensures h k = record {
    at = λ c calm p. with_effect Q R (m c).0 (m c).1 (h.at c calm p) (k.at c p);
  }

  pub Succeeds-post : ((a : A) (db : Db) → Q a db → R a db) → Succeeds P m Q → Succeeds P m R
  Succeeds-post h k = record { at = λ c calm p. stronger Q R (m c).0 (m c).1 h (k.at c calm p) }

module _ {E A : Type 0} {P P' : Db → Type 0} {Q : A → Db → Type 0} {m : Run E A} where
  pub Succeeds-weaken : ((db : Db) → P db → P' db) → Succeeds P' m Q → Succeeds P m Q
  Succeeds-weaken h k = record { at = λ c calm p. k.at c calm (h c.db p) }

module _ {E A : Type 0} {P : Db → Type 0} {Q : A → Db → Type 0} {X : Type 0} {m : Run E A} where
  pub Succeeds-given : (X → Succeeds P m Q) → Succeeds (λ db. P db × X) m Q
  Succeeds-given h = record { at = λ c calm p. (h p.1).at c calm p.0 }
