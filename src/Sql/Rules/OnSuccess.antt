-- ===== src/Sql/Rules/OnSuccess.antt =====
-- What holds of the tables after a run that succeeds.
use coffer_fs.Base.{
  ℕ, ◌≡◌, refl, Bool, true, false, Option, none, some, Result, ok, err, if◌then◌else◌, inl, inr,
  Option-cases,
}
use coffer_fs.Db.{Db}
use coffer_fs.Sql.{
  SqlError, Errno, Conn, Run, pure, fail, continue, ◌>>=◌, map_err, statement, now_secs,
  transaction, or_fail, settle, commit_at, tick, rename_error,
}

abbrev pub Success : {E A : Type 0} → (A → Db → Type 0) → Result E A → Db → Type 0
Success Q (ok a) db = Q a db
Success Q (err e) db = Unit

-- A failure says nothing here: the transaction around it is rolled back.
pub record Ensures {E A : Type 0} (P : Db → Type 0) (m : Run E A) (Q : A → Db → Type 0)
    : Type 0 where
  pub at : (c : Conn) → P c.db → Success Q (m c).0 (m c).1.db

module _ {E A : Type 0} {P : Db → Type 0} {Q : A → Db → Type 0} where
  pub Ensures-pure : (a : A) → ((db : Db) → P db → Q a db) → Ensures P (pure {E = E} a) Q
  unfolding pure
  Ensures-pure a h = record { at = λ c p. h c.db p }

  pub Ensures-fail : (e : E) → Ensures P (fail e) Q
  unfolding fail
  Ensures-fail e = record { at = λ c p. tt }

  pub Ensures-if :
      (b : Bool) (m n : Run E A)
      → (b ≡ true → Ensures P m Q)
      → (b ≡ false → Ensures P n Q)
      → Ensures P (if b then m else n) Q
  Ensures-if true m n hm hn = hm refl
  Ensures-if false m n hm hn = hn refl

  pub Ensures-or_fail :
      (o : Option A) (e : E)
      → ((a : A) → o ≡ some a → (db : Db) → P db → Q a db)
      → Ensures P (or_fail o e) Q
  unfolding or_fail
  Ensures-or_fail none e h = record { at = λ c p. tt }
  Ensures-or_fail (some a) e h = record { at = λ c p. h a refl c.db p }

module _ {A : Type 0} (Q : A → Db → Type 0) where
  ran_lem :
      (c : Conn) (e? : Option SqlError) (r : Result SqlError (A × Db))
      → c.faults 0 ≡ e?
      → Success (λ x _. Q x.0 x.1) r c.db
      → (s : Db → Result SqlError (A × Db)) → s c.db ≡ r
      → Success Q (statement s c).0 (statement s c).1.db
  unfolding statement
  ran_lem c (some e) r f h s k = rw (f, statement) tt
  ran_lem c none (err e) f h s k = rw (f, statement) (rw (k, statement) tt)
  ran_lem c none (ok x) f h s k = rw (f, statement) (rw (k, statement) h)

module _ {A : Type 0} {P : Db → Type 0} {Q : A → Db → Type 0} where
  -- A statement: its effect on the tables, where it does not fail.
  pub Ensures-statement :
      (s : Db → Result SqlError (A × Db))
      → ((db : Db) → P db → Success (λ x _. Q x.0 x.1) (s db) db)
      → Ensures P (statement s) Q
  Ensures-statement s h = record {
    at = λ c p. ran_lem Q c (c.faults 0) (s c.db) refl (h c.db p) s refl;
  }

module _ {E : Type 0} {P : Db → Type 0} {Q : ℕ → Db → Type 0} where
  pub Ensures-now_secs : ((t : ℕ) (db : Db) → P db → Q t db) → Ensures P (now_secs {E = E}) Q
  unfolding now_secs
  Ensures-now_secs h = record { at = λ c p. h _ c.db p }

module _ {E A B : Type 0} (Q : A → Db → Type 0) {R : B → Db → Type 0} where
  continue_lem :
      (r : Result E A) (c : Conn) (f : A → Run E B)
      → Success Q r c.db
      → ((a : A) → Ensures (Q a) (f a) R)
      → Success R (continue r f c).0 (continue r f c).1.db
  continue_lem (ok a) c f h k = (k a).at c h
  continue_lem (err e) c f h k = tt

module _ {E A B : Type 0} {P : Db → Type 0} {Q : A → Db → Type 0} {R : B → Db → Type 0} where
  pub Ensures-bind :
      {m : Run E A} {f : A → Run E B}
      → Ensures P m Q
      → ((a : A) → Ensures (Q a) (f a) R)
      → Ensures P (m >>= f) R
  unfolding ◌>>=◌
  Ensures-bind {m} {f} h k = record { at = λ c p. continue_lem Q (m c).0 (m c).1 f (h.at c p) k }

module _ {E F A : Type 0} (Q : A → Db → Type 0) where
  renamed :
      (r : Result E A) (c : Conn) (g : E → F) → Success Q r c.db → Success Q (rename_error g r) c.db
  renamed (ok a) c g h = h
  renamed (err e) c g h = tt

module _ {E F A : Type 0} {P : Db → Type 0} {Q : A → Db → Type 0} where
  pub Ensures-map_err : (g : E → F) {m : Run E A} → Ensures P m Q → Ensures P (map_err g m) Q
  unfolding map_err
  Ensures-map_err g {m} h = record { at = λ c p. renamed Q (m c).0 (m c).1 g (h.at c p) }

module _ {E A : Type 0} {P P' : Db → Type 0} {Q : A → Db → Type 0} {m : Run E A} where
  pub Ensures-weaken : ((db : Db) → P db → P' db) → Ensures P' m Q → Ensures P m Q
  Ensures-weaken h k = record { at = λ c p. k.at c (h c.db p) }

module _ {E A : Type 0} {P : Db → Type 0} {Q : A → Db → Type 0} {X : Type 0} {m : Run E A} where
  -- A fact about the state before, for what comes after.
  pub Ensures-given : (X → Ensures P m Q) → Ensures (λ db. P db × X) m Q
  Ensures-given h = record { at = λ c p. (h p.1).at c p.0 }

-- Weaker postconditions, and two at once.
module _ {E A : Type 0} (Q Q' : A → Db → Type 0) where
  strengthen :
      (r : Result E A) (db : Db)
      → ((a : A) (db : Db) → Q a db → Q' a db)
      → Success Q r db
      → Success Q' r db
  strengthen (ok a) db h s = h a db s
  strengthen (err e) db h s = tt

  both :
      (r : Result E A) (db : Db)
      → Success Q r db
      → Success Q' r db
      → Success (λ a d. Q a d × Q' a d) r db
  both (ok a) db s t = (s, t)
  both (err e) db s t = tt

module _ {E A : Type 0} {P : Db → Type 0} {Q Q' : A → Db → Type 0} {m : Run E A} where
  pub Ensures-post : ((a : A) (db : Db) → Q a db → Q' a db) → Ensures P m Q → Ensures P m Q'
  Ensures-post h k = record { at = λ c p. strengthen Q Q' (m c).0 (m c).1.db h (k.at c p) }

  pub Ensures-both : Ensures P m Q → Ensures P m Q' → Ensures P m (λ a db. Q a db × Q' a db)
  Ensures-both h k = record { at = λ c p. both Q Q' (m c).0 (m c).1.db (h.at c p) (k.at c p) }

module _ {A : Type 0} (Q : A → Db → Type 0) where
  committed_at :
      (k : SqlError → Errno) (before : Db) (a : A) (c : Conn)
      → Q a c.db
      → (e? : Option SqlError)
      → Success Q (commit_at k before a c e?).0 (commit_at k before a c e?).1.db
  committed_at k before a c s none = s
  committed_at k before a c s (some e) = tt

  committed :
      (k : SqlError → Errno) (before : Db) (r : Result Errno A) (c : Conn)
      → Success Q r c.db
      → Success Q (settle k before r c).0 (settle k before r c).1.db
  committed k before (ok a) c s = committed_at k before a c s (c.faults 0)
  committed k before (err e) c s = tt

module _ {A : Type 0} {P : Db → Type 0} {Q : A → Db → Type 0} where
  -- A transaction that commits has the effect of its body.
  pub Ensures-transaction :
      (k : SqlError → Errno) {body : Run Errno A}
      → Ensures P body Q
      → Ensures P (transaction k body) Q
  unfolding transaction
  Ensures-transaction k {body} h = record {
    at = λ c p. elim (Option-cases (c.faults 0)) [
      | inl e ↦
          rw (e, transaction)
            (committed Q k c.db (body (tick c)).0 (body (tick c)).1 (h.at (tick c) p))
      | inr (x, e) ↦ rw (e, transaction) tt
    ];
  }
